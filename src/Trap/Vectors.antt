-- ===== src/Trap/Vectors.antt =====
-- SYS5 (Specify_Trap_State_Vector of nucleus/traps/syscall.c) and the traps that follow it.
use hoca_operating_system.Prelude.{
  ℕ, zero, suc, ◌<◌, ◌≡◌, refl, ◌∙◌, Option, some, none, is_none, if◌then◌else◌, ==_self, arith,
  pos, ap,
}
use hoca_operating_system.Machine.{Addr, Proc}
use hoca_operating_system.Run.{Cmd, ok, Loads, loads, Returns, returns, ◌>>◌, and_then}
use hoca_operating_system.Procq.{modify_proc}
use hoca_operating_system.Kernel.{Kernel, entry, modify_entry, to_ptr}
use hoca_operating_system.Kernel.Running.{Running, current-Running, modify_entry-Running, restart}
use hoca_operating_system.Syscall.{
  old_vector, new_vector, set_vector, specify_for, specify_vector, specify_trap_state_vector,
  terminate_process,
}
use hoca_operating_system.Trap.{pass_up}
use hoca_operating_system.Trap.Deliver.{pass_up-vector, entered}

old_set : (type : ℕ) (o n : Option Addr) (e : Proc) → old_vector type (set_vector type o n e) ≡ o
old_set zero o n e = refl
old_set (suc zero) o n e = refl
old_set (suc (suc type)) o n e = refl

new_set : (type : ℕ) (o n : Option Addr) (e : Proc) → new_vector type (set_vector type o n e) ≡ n
new_set zero o n e = refl
new_set (suc zero) o n e = refl
new_set (suc (suc type)) o n e = refl

link_set : (type : ℕ) (o n : Option Addr) (e : Proc) → (set_vector type o n e).p_link ≡ e.p_link
link_set zero o n e = refl
link_set (suc zero) o n e = refl
link_set (suc (suc type)) o n e = refl

-- A trap type has its own case in SYS5.
specify_case :
    (type : ℕ) (old : Addr) (k : Kernel)
    → type < 3
    → (k.states old).s_r 2 ≡ pos type
    → specify_trap_state_vector old k ≡ specify_vector old type k
unfolding specify_trap_state_vector
specify_case zero old k small e = rw (specify_trap_state_vector, e) refl
specify_case (suc zero) old k small e = rw (specify_trap_state_vector, e) refl
specify_case (suc (suc zero)) old k small e = rw (specify_trap_state_vector, e) refl
specify_case (suc (suc (suc type))) old k small e = absurd (omega arith)

specify_again :
    (p type : ℕ) (old o : Addr) (k : Kernel)
    → Running p k
    → type < 3
    → (k.states old).s_r 2 ≡ pos type
    → old_vector type (entry k p) ≡ some o
    → specify_trap_state_vector old k ≡ terminate_process k
unfolding specify_vector specify_for
specify_again p type old o k r small names mark =
    specify_case type old k small names
    ∙ (ap (λ x. and_then x (specify_for old type)) (current-Running r)
        ∙ go (old_vector type (entry k p)) _ terminate_process mark)
  where
    go :
        (ov : Option Addr) (set end : Cmd Kernel (Unit {0}))
        → ov ≡ some o
        → (if is_none ov then set else end) k ≡ end k
    go ov set end e = rw e refl

module _ (p type : ℕ) (old o n : Addr) (k : Kernel) (r : Running p k) (small : type < 3)
    (names : (k.states old).s_r 2 ≡ pos type) (at : to_ptr ((k.states old).s_r 3) ≡ some o)
    (to : to_ptr ((k.states old).s_r 4) ≡ some n) where
  -- The state in which `p` has the vector.
  specified : Kernel
  specified = modify_entry p (set_vector type (some o) (some n)) k

  specify_first :
      old_vector type (entry k p) ≡ none → specify_trap_state_vector old k ≡ ok tt specified
  unfolding specified specify_vector specify_for
  specify_first new =
      specify_case type old k small names ∙ rw (specify_vector, current-Running r, new, at, to) refl

  specified-Running : Running p specified
  unfolding specified
  specified-Running =
      modify_entry-Running p (set_vector type (some o) (some n)) (link_set type (some o) (some n)) r

  specified_old : old_vector type (entry specified p) ≡ some o
  unfolding specified modify_entry modify_proc
  specified_old = rw (==_self p) (old_set type (some o) (some n) (entry k p))

  specified_new : new_vector type (entry specified p) ≡ some n
  unfolding specified modify_entry modify_proc
  specified_new = rw (==_self p) (new_set type (some o) (some n) (entry k p))

  -- The first SYS5 of the running process for a trap type 0, 1 or 2, with two areas other than ENULL
  -- in registers 3 and 4, stores the areas, and a second one for the same type does what SYS2
  -- does: it ends the process.
  pub specify_trap_state_vector-terminate_process :
      old_vector type (entry k p) ≡ none
      → Returns
          (λ _ t.
            (old_vector type (entry t p) ≡ some o)
            × ((new_vector type (entry t p) ≡ some n)
                × (specify_trap_state_vector old t ≡ terminate_process t)))
          (specify_trap_state_vector old k)
  unfolding specified modify_entry
  specify_trap_state_vector-terminate_process new = rw (specify_first new) (
      returns (
        specified_old,
        (
          specified_new,
          specify_again p type old o specified specified-Running small names specified_old,
        ),
      ))

  -- After the first SYS5 of the running process for a trap type 0, 1 or 2, with two areas other than
  -- ENULL, a trap of that type stores the state of the process in the first of the
  -- areas that SYS5 was given, and loads the second.
  pub specify_trap_state_vector-pass_up :
      old_vector type (entry k p) ≡ none
      → (area : Addr)
      → Loads
          (λ x t. (x ≡ t.states n) × (t.states o ≡ k.states area))
          ((specify_trap_state_vector old >> pass_up area type) k)
  unfolding specified modify_entry restart
  specify_trap_state_vector-pass_up new area =
      rw
        (
          specify_first new,
          pass_up-vector p type o n area specified specified-Running specified_old specified_new,
        )
        (loads {s = entered p o area specified} (refl, rw (==_self o) refl))
