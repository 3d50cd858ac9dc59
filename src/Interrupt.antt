-- ===== src/Interrupt.antt =====
-- nucleus/interrupts/int.c: device and clock interrupts, and the two waits, SYS7 and SYS8.
pub mod Handshake
pub mod Signal
pub mod Park
use hoca_operating_system.Prelude.{
  ℕ, zero, suc, ◌+◌, none, some, ℤ, pos, negsuc, if◌then◌else◌, is_none, same_int, is_neg, lt_int,
  update, inc, dec, bits, add32,
}
use hoca_operating_system.Machine.{Ptr, Addr, State, set_reg, in_dno, lock, unlock}
use hoca_operating_system.Run.{Cmd, pure, ◌>>=◌, ◌>>◌, get, modify, deref}
use hoca_operating_system.Asl.{head_blocked, insert_blocked, remove_blocked}
use hoca_operating_system.Kernel.{
  Kernel, Routine, intterminalhandler, intprinterhandler, intdiskhandler, intfloppyhandler,
  intclockhandler, entry, on_sems, modify_entry, current, make_ready, remove_running, get_interval,
  dev_sem, clock_lock, write_state, write_word, ldst,
}
use hoca_operating_system.Sched.{schedule, quantum}

-- `removed->qcount == 0`, for a removed process
unfoldable pub wake : Ptr → Cmd Kernel (Unit {0})
unfolding make_ready
wake none = pure tt
wake (some p) = do
  k ← get
  if same_int (entry k p).qcount (pos 0) then make_ready (some p) else pure tt

unfoldable pub int_sem_op : Addr → ℤ → Cmd Kernel (Unit {0})
unfolding wake remove_running
int_sem_op a op = do
  k ← get
  let v = k.sems.words a
  if same_int op lock
      then (do
        modify (write_word a (dec v))
        if is_neg (dec v)
            then (do
              removed ← remove_running
              elim removed [
                | none ↦ pure tt
                | some p ↦ do full ← on_sems (insert_blocked a (some p)); pure tt
              ]
              schedule)
            else pure tt)
      else do
        modify (write_word a (inc v))
        if is_neg v then (do removed ← on_sems (remove_blocked a); wake removed) else pure tt

-- `head->p_s = *old`
unfoldable pub save_state : Ptr → Addr → Cmd Kernel (Unit {0})
unfolding modify_entry
save_state p old = do
  q ← deref p
  k ← get
  modify (modify_entry q (λ e. record e { p_s = k.states old }))

unfoldable pub wait_for_pclock : Addr → Cmd Kernel (Unit {0})
unfolding current save_state int_sem_op
wait_for_pclock old = do head ← current; save_state head old; int_sem_op clock_lock lock

unfoldable pub wait_for_io : Addr → Cmd Kernel (Unit {0})
unfolding current save_state int_sem_op
wait_for_io old = do
  k ← get
  let d = bits ((k.states old).s_r 4)
  if same_int (k.sems.words (dev_sem d)) (pos 1)
      then (do
        modify (write_word (dev_sem d) (dec (k.sems.words (dev_sem d))))
        let s = set_reg (k.states old) 2 (k.save_arr d).amnt
        modify (write_state old (set_reg s 3 (k.save_arr d).stat)))
      else do head ← current; save_state head old; int_sem_op (dev_sem d) lock

-- The number of the first device of a kind: TERMINAL, PRINTER, DISK, FLOPPY.
abbrev pub first_dev : ℕ → ℕ
first_dev zero = 0
first_dev (suc zero) = 5
first_dev (suc (suc zero)) = 7
first_dev (suc (suc (suc n))) = 11

unfoldable pub int_handler : ℕ → ℕ → Cmd Kernel (Unit {0})
unfolding int_sem_op modify_entry
int_handler type n = do
  let d = first_dev type + n
  k ← get
  if same_int (k.sems.words (dev_sem d)) (negsuc 0)
      then (do
        blocked ← on_sems (head_blocked (dev_sem d))
        p ← deref blocked
        modify (
            modify_entry p (λ e. record e {
              p_s = set_reg (set_reg e.p_s 2 (k.dev d).d_dadd) 3 (k.dev d).d_stat;
            }))
        int_sem_op (dev_sem d) unlock)
      else do
        modify (write_word (dev_sem d) (inc (k.sems.words (dev_sem d))))
        modify (λ j. record j {
          save_arr =
              update j.save_arr d (record { amnt = (j.dev d).d_dadd; stat = (j.dev d).d_stat });
        })

-- The areas where an interrupt of each kind leaves the interrupted state.
abbrev pub old_dev_area : ℕ → Addr
old_dev_area zero = 0x9c8
old_dev_area (suc zero) = 0xa60
old_dev_area (suc (suc zero)) = 0xaf8
old_dev_area (suc (suc (suc n))) = 0xb90

-- intterminalhandler, intprinterhandler, intdiskhandler and intfloppyhandler, by the kind.
unfoldable pub int_dev_handler : ℕ → Cmd Kernel (Unit {0})
unfolding current int_handler ldst
int_dev_handler type = do
  k ← get
  head ← current
  int_handler type (in_dno (k.states (old_dev_area type)).s_tmp)
  if is_none head then schedule else ldst (old_dev_area type)

-- `old_clock_state`, and `clock_interrupt_time`
abbrev pub old_clock_area : Addr
old_clock_area = 0xc28

abbrev pub clock_interrupt_time : ℤ
clock_interrupt_time = pos 100000

-- The running process goes to the end of the running queue.
unfoldable pub rotate : Ptr → Cmd Kernel (Unit {0})
unfolding remove_running get_interval save_state make_ready
rotate none = pure tt
rotate (some _) = do
  removed ← remove_running
  get_interval removed
  save_state removed old_clock_area
  make_ready removed

-- The V of the clock semaphore once its time has come.
unfoldable pub clock_tick : Cmd Kernel (Unit {0})
unfolding int_sem_op
clock_tick = do
  k ← get
  if lt_int k.clock_count clock_interrupt_time then pure tt else do
    modify (λ j. record j { clock_count = pos 0 })
    head ← on_sems (head_blocked clock_lock)
    if is_none head then pure tt else int_sem_op clock_lock unlock

unfoldable pub int_clock_handler : Cmd Kernel (Unit {0})
unfolding current rotate clock_tick
int_clock_handler = do
  head ← current
  modify (λ k. record k { clock_count = add32 k.clock_count quantum })
  rotate head
  clock_tick
  schedule

-- A new area: the handler runs privileged, unmapped and with interrupts off, on the nucleus's
-- stack.
abbrev pub handler_state : Kernel → Routine → State → State
handler_state k r s =
    let t = set_reg (set_reg s 16 (k.code r)) 15 (k.init_state.s_r 15) in
    record t { s_sr = record { ps_s = 1; ps_m = 0; ps_int = 7 } }

-- `state_t` has 76 bytes: the new area follows the old one.
abbrev pub set_handler : Addr → Routine → Kernel → Kernel
set_handler a r k = write_state (a + 76) (handler_state k r (k.states (a + 76))) k

-- The loop of intinit.
unfoldable pub clear_dev_sems : ℕ → ℕ → Kernel → Kernel
clear_dev_sems zero i k = k
clear_dev_sems (suc n) i k = clear_dev_sems n (i + 1) (write_word (dev_sem i) (pos 0) k)

unfoldable pub int_init : Kernel → Kernel
unfolding clear_dev_sems
int_init k0 =
    let k1 = clear_dev_sems 15 0 (write_word clock_lock (pos 0) k0) in
    let k2 = set_handler 0x9c8 intterminalhandler k1 in
    let k3 = set_handler 0xa60 intprinterhandler k2 in
    let k4 = set_handler 0xaf8 intdiskhandler k3 in
    let k5 = set_handler 0xb90 intfloppyhandler k4 in set_handler old_clock_area intclockhandler k5
