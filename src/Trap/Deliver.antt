-- ===== src/Trap/Deliver.antt =====
-- nucleus/traps/trap.c: what a process with a vector gets of a trap.
use hoca_operating_system.Prelude.{
  ℕ, ◌+◌, ◌≡◌, refl, Option, some, none, ◌==◌, ==_self, add32, sub32, true, false,
}
use hoca_operating_system.Machine.{Addr, State, set_pr_typ, privilege}
use hoca_operating_system.Run.{Cmd, exit, load, Loads, loads}
use hoca_operating_system.Procq.{modify_proc}
use hoca_operating_system.Kernel.{
  Kernel, entry, modify_entry, write_state, ldst, get_interval, stck, start_time,
}
use hoca_operating_system.Kernel.Running.{
  Running, current-Running, charge-Running, write_state-Running, charge, restart,
}
use hoca_operating_system.Syscall.{old_vector, new_vector, terminate_process}
use hoca_operating_system.Trap.{
  enter_vector, pass_up, trap_mm_handler, trap_sys_handler, refuse_call, is_privileged_call,
  mm_area, sys_area,
}

-- The state `x` that is loaded is the one at `n`; the state `caught` of the process is at `o`; the
-- time that `p` ran is charged to it and it starts anew; other entries, the semaphores and the
-- running queue are as before.
pub record Delivered (p : ℕ) (o n : Addr) (caught : State) (k : Kernel) (x : State) (t : Kernel)
    : Type 0 where
  pub target : x ≡ t.states n
  pub saved : t.states o ≡ caught
  pub charged :
      (entry t p).cpu_time
      ≡ add32 (entry k p).cpu_time (sub32 (k.clock k.reads) (entry k p).start_time)
  pub restarted : (entry t p).start_time ≡ k.clock (k.reads + 1)
  pub others : (q : ℕ) → (q == p) ≡ false → entry t q ≡ entry k q
  pub words : t.sems.words ≡ k.sems.words
  pub queue : t.running_queue ≡ k.running_queue

-- The state from which a vector is entered.
abbrev pub entered : ℕ → Addr → Addr → Kernel → Kernel
entered p o old k = restart p (write_state o (k.states old) k)

pub pass_up-vector :
    (p type : ℕ) (o n old : Addr) (k : Kernel)
    → Running p k
    → old_vector type (entry k p) ≡ some o
    → new_vector type (entry k p) ≡ some n
    → pass_up old type k ≡ exit (load ((entered p o old k).states n)) (entered p o old k)
unfolding pass_up enter_vector ldst start_time stck restart
pass_up-vector p type o n old k r eo en =
    rw (pass_up, current-Running r)
      (go (old_vector type (entry k p)) (new_vector type (entry k p)) eo en)
  where
    go :
        (ov nv : Option Addr)
        → ov ≡ some o
        → nv ≡ some n
        → elim nv as (λ _. Cmd Kernel (Unit {0})) [
          | none ↦ terminate_process
          | some m ↦ enter_vector (some p) ov old m
        ]
            k
          ≡ exit (load ((entered p o old k).states n)) (entered p o old k)
    go ov nv eo en = rw (en, eo) refl

-- What is delivered once the time is charged and memory may have changed to `states`.
deliver :
    (p : ℕ) (o n : Addr) (k : Kernel) (states : Addr → State) (caught : State)
    → Delivered p o n caught k
        ((restart p (write_state o caught (record (charge p k) { states = states }))).states n)
        (restart p (write_state o caught (record (charge p k) { states = states })))
unfolding restart charge modify_entry modify_proc
deliver p o n k states caught = record {
  target = refl;
  saved = rw (==_self o) refl;
  charged = rw (==_self p) refl;
  restarted = rw (==_self p) refl;
  others = λ q other. rw other refl;
  words = refl;
  queue = refl;
}

-- A page fault of the running process, which has a vector for such traps: the handler saves the state
-- of the process where the vector says, charges the time to it, and loads the new state of
-- the vector.
pub trap_mm_handler-Delivered :
    (p : ℕ) (o n : Addr) (k : Kernel)
    → Running p k
    → (entry k p).memory_management_old ≡ some o
    → (entry k p).memory_management_new ≡ some n
    → Loads (Delivered p o n (k.states mm_area) k) (trap_mm_handler k)
unfolding trap_mm_handler get_interval stck charge modify_entry modify_proc
trap_mm_handler-Delivered p o n k r eo en =
    rw
      (
        trap_mm_handler,
        current-Running r,
        pass_up-vector p 1 o n mm_area (charge p k) (charge-Running p r) (rw (==_self p) eo)
            (rw (==_self p) en),
      )
      (loads (deliver p o n k k.states (k.states mm_area)))

-- The running process, outside kernel mode and with a vector for program traps, that does SYS1 to
-- SYS8 gets a program trap instead: the call is not carried out, the saved state has the type of a
-- privilege violation, the time is charged to the process, and its vector for program traps is
-- entered.
pub trap_sys_handler-Delivered :
    (p : ℕ) (o n : Addr) (k : Kernel)
    → Running p k
    → is_privileged_call (k.states sys_area) ≡ true
    → (entry k p).prog_old ≡ some o
    → (entry k p).prog_new ≡ some n
    → Loads
        (Delivered p o n
          (record (k.states sys_area) { s_tmp = set_pr_typ (k.states sys_area).s_tmp privilege })
          k)
        (trap_sys_handler k)
unfolding trap_sys_handler refuse_call get_interval stck charge modify_entry modify_proc
trap_sys_handler-Delivered p o n k r bad eo en =
    let caught : State = record (k.states sys_area) {
      s_tmp = set_pr_typ (k.states sys_area).s_tmp privilege;
    } in
    let j = write_state sys_area caught (charge p k) in
    rw
      (
        trap_sys_handler,
        current-Running r,
        bad,
        pass_up-vector p 0 o n sys_area j (write_state-Running sys_area caught (charge-Running p r))
            (rw (==_self p) eo) (rw (==_self p) en),
      )
      (loads (deliver p o n k j.states caught))
