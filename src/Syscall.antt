-- ===== src/Syscall.antt =====
-- nucleus/traps/syscall.c: the system calls of the nucleus. A call is given the address of the
-- area that holds the caller's state.
pub mod Siblings
pub mod Adopt
pub mod Depart
pub mod Places
pub mod Leave
pub mod Goodbye
pub mod Create
use hoca_operating_system.Prelude.{
  ℕ, zero, suc, ◌+◌, Bool, true, false, Option, none, some, ℤ, pos, negsuc, if◌then◌else◌, is_none,
  same, same_int, is_neg, inc, dec, bits, ◌||◌,
}
use hoca_operating_system.Machine.{Ptr, Addr, Proc, set_reg, lock, maxproc, Vpop}
use hoca_operating_system.Run.{Cmd, pure, stop, ◌>>=◌, ◌>>◌, get, modify, deref, out_of_fuel, halt}
use hoca_operating_system.Procq.{alloc_proc, free_proc}
use hoca_operating_system.Asl.{insert_blocked, remove_blocked, out_blocked}
use hoca_operating_system.Kernel.{
  Kernel, entry, on_sems, on_table, modify_entry, current, make_ready, remove_running, out_running,
  to_ptr, write_state, write_word,
}
use hoca_operating_system.Sched.{schedule}
use hoca_operating_system.Interrupt.{wake, save_state}

-- `p->parent`, `p->child` and `p->brother` as reads through a pointer.
abbrev pub read_field : {A : Type 0} → (Proc → A) → Ptr → Cmd Kernel A
read_field f p = do q ← deref p; k ← get; pure (f (entry k q))

abbrev pub set_parent : Ptr → Ptr → Cmd Kernel (Unit {0})
set_parent v p = do q ← deref p; modify (modify_entry q (λ e. record e { parent = v }))

abbrev pub set_child : Ptr → Ptr → Cmd Kernel (Unit {0})
set_child v p = do q ← deref p; modify (modify_entry q (λ e. record e { child = v }))

abbrev pub set_brother : Ptr → Ptr → Cmd Kernel (Unit {0})
set_brother v p = do q ← deref p; modify (modify_entry q (λ e. record e { brother = v }))

-- `while (p->parent == ENULL) p = p->brother;`
unfoldable pub find_parented : ℕ → Ptr → Cmd Kernel Ptr
find_parented zero p = stop out_of_fuel
find_parented (suc n) p = do
  up ← read_field (λ e. e.parent) p
  elim up [ none ↦ do b ← read_field (λ e. e.brother) p; find_parented n b | some _ ↦ pure p ]

-- `while (p->brother != cur) p = p->brother;`
unfoldable pub find_before : ℕ → Ptr → Ptr → Cmd Kernel Ptr
find_before zero cur p = stop out_of_fuel
find_before (suc n) cur p = do
  b ← read_field (λ e. e.brother) p
  elim (same b cur) [ true ↦ pure p | false ↦ find_before n cur b ]

-- A sibling list has at most one entry for each process.
abbrev pub list_fuel : ℕ
list_fuel = maxproc + 1

-- The new process becomes the last child of `cur`: only the last child has its parent set.
unfoldable pub adopt : Ptr → Ptr → Cmd Kernel (Unit {0})
unfolding find_parented modify_entry
adopt cur fork = do
  first ← read_field (λ e. e.child) cur
  elim first [
    | none ↦ do set_child fork cur; set_parent cur fork
    | some c ↦ do
      last ← find_parented list_fuel (some c)
      set_parent none last
      set_brother fork last
      set_parent cur fork
  ]

-- `old->s_r[i] = v`
unfoldable pub answer : Addr → ℕ → ℤ → Cmd Kernel (Unit {0})
answer old i v = modify (λ k. write_state old (set_reg (k.states old) i v) k)

unfoldable pub create_process : Addr → Cmd Kernel (Unit {0})
unfolding current adopt modify_entry make_ready answer
create_process old = do
  fork ← on_table alloc_proc
  cur ← current
  elim fork [
    | none ↦ answer old 2 (negsuc 0)
    | some f ↦ do
      k ← get
      let from = bits ((k.states old).s_r 4)
      modify (modify_entry f (λ e. record e { p_s = k.states from }))
      adopt cur (some f)
      make_ready (some f)
      answer old 2 (pos 0)
  ]

-- The process leaves whatever queue it is in.
unfoldable pub take_out : Ptr → Cmd Kernel Ptr
unfolding out_running
take_out p = do
  removed ← on_sems (out_blocked p)
  elim removed [ none ↦ out_running p | some q ↦ pure (some q) ]

-- check_sibling from the child `first` on: each child leaves its queue, then its own children are
-- ended, then it is freed. The result is the last child.
unfoldable pub reap : ℕ → Ptr → Cmd Kernel Ptr
unfolding take_out
reap zero first = stop out_of_fuel
reap (suc n) first = do
  next ← read_field (λ e. e.brother) first
  if is_none next then pure tt else set_brother none first
  removed ← take_out first
  kids ← read_field (λ e. e.child) removed
  elim kids [
    | none ↦ pure tt
    | some c ↦ do last ← reap n (some c); set_parent none last; set_child none removed
  ]
  on_table (free_proc removed)
  elim next [ none ↦ pure first | some tmp ↦ reap n (some tmp) ]

unfoldable pub check_sibling : Ptr → Cmd Kernel (Unit {0})
unfolding reap modify_entry
check_sibling cur = do
  first ← read_field (λ e. e.child) cur
  last ← reap maxproc first
  set_parent none last
  set_child none cur

-- The first branch of Terminate_Process: `cur` is the last child of `up`.
unfoldable pub leave_last : Ptr → Ptr → Cmd Kernel (Unit {0})
unfolding find_before modify_entry
leave_last cur up = do
  first ← read_field (λ e. e.child) up
  if same first cur then (do set_child none up; set_parent none cur) else do
    before ← find_before list_fuel cur first
    b ← read_field (λ e. e.brother) cur
    set_brother b before
    set_parent up before
    set_parent none cur

-- Its second branch: `cur` has a brother after it.
unfoldable pub leave_middle : Ptr → Ptr → Cmd Kernel (Unit {0})
unfolding find_parented find_before modify_entry
leave_middle cur next = do
  last ← find_parented list_fuel next
  up ← read_field (λ e. e.parent) last
  first ← read_field (λ e. e.child) up
  if same first cur then (do set_child next up; set_brother none cur) else do
    before ← find_before list_fuel cur first
    set_brother next before
    set_brother none cur

unfoldable pub leave_family : Ptr → Cmd Kernel (Unit {0})
unfolding leave_last leave_middle
leave_family cur = do
  up ← read_field (λ e. e.parent) cur
  next ← read_field (λ e. e.brother) cur
  elim next [
    | none ↦ if is_none up then pure tt else leave_last cur up
    | some b ↦ leave_middle cur (some b)
  ]

unfoldable pub terminate_process : Cmd Kernel (Unit {0})
unfolding current leave_family check_sibling out_running
terminate_process = do
  cur ← current
  leave_family cur
  kids ← read_field (λ e. e.child) cur
  if is_none kids then pure tt else check_sibling cur
  out ← out_running cur
  on_table (free_proc out)
  schedule

-- One operation of SYS3 on behalf of `cur`; the result says whether it blocks the caller.
unfoldable pub sem_step : Ptr → Addr → Vpop → Cmd Kernel Bool
unfolding save_state wake
sem_step cur old v = do
  k ← get
  let w = k.sems.words v.sem
  if same_int v.op lock
      then (do
        modify (write_word v.sem (dec w))
        if is_neg (dec w)
            then (do save_state cur old; full ← on_sems (insert_blocked v.sem cur); pure true)
            else pure false)
      else do
        modify (write_word v.sem (inc w))
        if is_neg w then (do removed ← on_sems (remove_blocked v.sem); wake removed) else pure tt
        pure false

-- The loop of Sem_OP over `n` operations from the address `a` on; a `vpop` has 8 bytes.
unfoldable pub sem_loop : ℕ → Ptr → Addr → Addr → Bool → Cmd Kernel Bool
unfolding sem_step
sem_loop zero cur old a flag = pure flag
sem_loop (suc n) cur old a flag = do
  k ← get
  b ← sem_step cur old (k.vpops a)
  sem_loop n cur old (a + 8) (flag || b)

-- The rounds of `for (i = 0; i < n; i++)`.
abbrev pub rounds : ℤ → ℕ
rounds (pos n) = n
rounds (negsuc n) = 0

unfoldable pub sem_op : Addr → Cmd Kernel (Unit {0})
unfolding current sem_loop remove_running
sem_op old = do
  cur ← current
  k ← get
  flag ← sem_loop (rounds ((k.states old).s_r 3)) cur old (bits ((k.states old).s_r 4)) false
  if flag then (do removed ← remove_running; schedule) else pure tt

-- The old area of a trap type in a process entry, and both areas set.
abbrev pub old_vector : ℕ → Proc → Option Addr
old_vector zero e = e.prog_old
old_vector (suc zero) e = e.memory_management_old
old_vector (suc (suc n)) e = e.system_call_old

abbrev pub new_vector : ℕ → Proc → Option Addr
new_vector zero e = e.prog_new
new_vector (suc zero) e = e.memory_management_new
new_vector (suc (suc n)) e = e.system_call_new

abbrev pub set_vector : ℕ → Option Addr → Option Addr → Proc → Proc
set_vector zero o n e = record e { prog_old = o; prog_new = n }
set_vector (suc zero) o n e = record e { memory_management_old = o; memory_management_new = n }
set_vector (suc (suc m)) o n e = record e { system_call_old = o; system_call_new = n }

-- A vector is set once; setting it again ends the process.
unfoldable pub specify_for : Addr → ℕ → Ptr → Cmd Kernel (Unit {0})
unfolding modify_entry terminate_process
specify_for old type cur = do
  p ← deref cur
  k ← get
  let s = k.states old
  if is_none (old_vector type (entry k p))
      then modify (modify_entry p (set_vector type (to_ptr (s.s_r 3)) (to_ptr (s.s_r 4))))
      else terminate_process

unfoldable pub specify_vector : Addr → ℕ → Cmd Kernel (Unit {0})
unfolding current specify_for
specify_vector old type = do cur ← current; specify_for old type cur

-- SYS5: a trap type other than 0, 1 and 2 does nothing.
unfoldable pub specify_trap_state_vector : Addr → Cmd Kernel (Unit {0})
unfolding specify_vector
specify_trap_state_vector old = do
  k ← get
  elim ((k.states old).s_r 2) [
    | pos zero ↦ specify_vector old 0
    | pos (suc zero) ↦ specify_vector old 1
    | pos (suc (suc zero)) ↦ specify_vector old 2
    | _ ↦ pure tt
  ]

unfoldable pub not_used : Cmd Kernel (Unit {0})
not_used = stop halt

unfoldable pub get_cpu_time : Addr → Cmd Kernel (Unit {0})
unfolding current answer
get_cpu_time old = do cur ← current; t ← read_field (λ e. e.cpu_time) cur; answer old 2 t
