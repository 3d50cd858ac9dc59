-- ===== src/Kernel.antt =====
-- The state of the whole nucleus (nucleus/traps/*.c and nucleus/interrupts/int.c), with the
-- machine that it runs on, and the pieces that its routines share.
pub mod Running
pub mod Queues
use Prim.Native.String.{String}
use hoca_operating_system.Prelude.{
  ℕ, ◌+◌, ◌*◌, Option, none, some, List, ℤ, pos, negsuc, bits, update, add32, sub32,
}
use hoca_operating_system.Machine.{Ptr, Addr, Link, Proc, State, Vpop, Devreg}
use hoca_operating_system.Run.{Cmd, pure, stop, ◌>>=◌, ◌>>◌, get, modify, deref, zoom, load}
use hoca_operating_system.Procq.{Procs, modify_proc, head_queue, insert_proc, remove_proc, out_proc}
use hoca_operating_system.Asl.{Sems}

-- The routines whose addresses the nucleus stores in a program counter.
pub data Routine : Type 0 where
  trapproghandler trapmmhandler trapsyshandler : Routine
  intterminalhandler intprinterhandler intdiskhandler intfloppyhandler intclockhandler : Routine
  p1 : Routine

-- The assembly routines of h/util.h.
pub data Service : Type 0 where
  stldmm stldaddress stldillegal stldzero stldprivilege : Service
  stldsys stldsys9 stldsys10 stldsys11 stldsys12 stldsys13 stldsys14 stldsys15 stldsys16 : Service
  stldsys17 stldterm0 stldterm1 stldterm2 stldterm3 stldterm4 stldprint0 stlddisk0 : Service
  stldfloppy0 stldclock : Service

-- `saved_info`
pub record Saved : Type 0 where
  pub amnt : ℤ
  pub stat : ℤ

-- The variables of the nucleus; memory as the `state_t` areas and the arrays of SYS3 in it; and
-- the machine: `cpu` is what STST stores, `clock n` is what the n-th STCK reads, `timer` what
-- LDIT set last, `code` where the linker puts a routine, `evt` the exception vector, `dev` the
-- device registers, `polls` what d_stat of the printer will read as, and `buffer` the text at
-- the printer's d_badd.
pub record Kernel : Type 0 where
  pub sems : Sems
  pub running_queue : Link
  pub init_state : State
  pub clock_count : ℤ
  pub save_arr : ℕ → Saved
  pub states : Addr → State
  pub vpops : Addr → Vpop
  pub cpu : State
  pub clock : ℕ → ℤ
  pub reads : ℕ
  pub timer : ℤ
  pub code : Routine → ℤ
  pub evt : Addr → Option Service
  pub dev : ℕ → Devreg
  pub polls : List ℤ
  pub buffer : String

-- The addresses of `dev_sem[i]` and `clock_lock`.
abbrev pub dev_sem : ℕ → Addr
dev_sem i = 0x2000 + 4 * i

abbrev pub clock_lock : Addr
clock_lock = 0x2400

abbrev pub entry : Kernel → ℕ → Proc
entry k p = k.sems.procs.proc p

-- A command of asl.c, and one of procq.c.
abbrev pub on_sems : {A : Type 0} → Cmd Sems A → Cmd Kernel A
on_sems = zoom (λ k. k.sems) (λ k s. record k { sems = s })

abbrev pub put_procs : Kernel → Procs → Kernel
put_procs k p = record k { sems = record (k.sems) { procs = p } }

abbrev pub on_table : {A : Type 0} → Cmd Procs A → Cmd Kernel A
on_table = zoom (λ k. k.sems.procs) put_procs

unfoldable pub modify_entry : ℕ → (Proc → Proc) → Kernel → Kernel
unfolding modify_proc
modify_entry p f k = put_procs k (modify_proc p f k.sems.procs)

-- `headQueue(running_queue)`
unfoldable pub current : Cmd Kernel Ptr
current = do k ← get; on_table (head_queue k.running_queue)

-- `insertProc(&running_queue, p)`
unfoldable pub make_ready : Ptr → Cmd Kernel (Unit {0})
make_ready p = do
  k ← get
  tp ← on_table (insert_proc k.running_queue p)
  modify (λ j. record j { running_queue = tp })

-- `removeProc(&running_queue)`
unfoldable pub remove_running : Cmd Kernel Ptr
remove_running = do
  k ← get
  (rv, tp) ← on_table (remove_proc k.running_queue)
  modify (λ j. record j { running_queue = tp })
  pure rv

-- `outProc(&running_queue, p)`
unfoldable pub out_running : Ptr → Cmd Kernel Ptr
out_running p = do
  k ← get
  (rv, tp) ← on_table (out_proc k.running_queue p)
  modify (λ j. record j { running_queue = tp })
  pure rv

-- A value as a pointer: -1 is ENULL.
abbrev pub to_ptr : ℤ → Option Addr
to_ptr (negsuc ℕ.zero) = none
to_ptr (negsuc (ℕ.suc n)) = some (bits (negsuc (ℕ.suc n)))
to_ptr (pos n) = some (bits (pos n))

-- `*a = s`
abbrev pub write_state : Addr → State → Kernel → Kernel
write_state a s k = record k { states = update k.states a s }

abbrev pub write_word : Addr → ℤ → Kernel → Kernel
write_word a v k = record k { sems = record (k.sems) { words = update k.sems.words a v } }

-- LDST(a)
unfoldable pub ldst : Addr → Cmd Kernel (Unit {0})
ldst a = do k ← get; stop (load (k.states a))

-- STCK
unfoldable pub stck : Cmd Kernel ℤ
stck = do k ← get; modify (λ j. record j { reads = j.reads + 1 }); pure (k.clock k.reads)

-- start_time of trap.c
unfoldable pub start_time : Ptr → Cmd Kernel (Unit {0})
unfolding stck modify_entry
start_time p = do q ← deref p; t ← stck; modify (modify_entry q (λ e. record e { start_time = t }))

-- get_interval of trap.c
unfoldable pub get_interval : Ptr → Cmd Kernel (Unit {0})
unfolding stck modify_entry
get_interval p = do
  t ← stck
  q ← deref p
  modify (modify_entry q (λ e. record e { cpu_time = add32 e.cpu_time (sub32 t e.start_time) }))
