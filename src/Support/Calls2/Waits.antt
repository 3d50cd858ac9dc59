-- ===== src/Support/Calls2/Waits.antt =====
-- P_Virtual_Semaphore of support/part2/slsyscall2.c: the semaphores that it uses.
use hoca_operating_system.Prelude.{
  ℕ, ◌<◌, Bool, true, false, ◌≡◌, refl, none, some, Option, List, [], ◌∷◌, ℤ, pos, lt_int, leb,
  bits, ◌==◌, FirstHit, hit, miss, first_hit-FirstHit, arith, dec, update,
}
use hoca_operating_system.Machine.{Addr, State, maxproc}
use hoca_operating_system.Support.State.{Support, protected_sem, virtual_sem}
use hoca_operating_system.Support.Prog.{
  Prog, Call, End, ended, sys3, lock_op, unlock_op, run, ◌>>=◌, call, change, done,
}
use hoca_operating_system.Support.Calls1.{old_reg}
use hoca_operating_system.Support.Calls2.{find_virtual, p_virtual_semaphore, write_word}

-- `P(&protected_sem)`, `V(&protected_sem)`, and the wait for a virtual semaphore.
abbrev pub enter : Call
enter = sys3 (lock_op protected_sem ∷ [])

abbrev pub exit_lock : Call
exit_lock = sys3 (unlock_op protected_sem ∷ [])

abbrev pub wait_on : ℕ → Call
wait_on i = sys3 (lock_op (virtual_sem i) ∷ [])

module _ (after : Call → Support → Support) where
  -- The calls and the shared variables at the end, by the state `t` in which it finds the semaphore at `a`.
  pub data Waited (t : Support) (a : Addr) : List Call × End (Unit {0}) → Type 0 where
    passed :
        lt_int (pos 0) (t.word a) ≡ true
        → Waited t a (
          enter ∷ exit_lock ∷ [],
          ended tt (after exit_lock (record t { word = update t.word a (dec (t.word a)) })),
        )
    blocked :
        lt_int (pos 0) (t.word a) ≡ false
        → (i : ℕ) → i < maxproc
        → (t.vs_arr i == 0) ≡ true
        → ((j : ℕ) → j < i → (t.vs_arr j == 0) ≡ false)
        → Waited t a (
          enter ∷ exit_lock ∷ wait_on i ∷ [],
          ended tt (
              after (wait_on i) (
                after exit_lock (record t {
                  word = update t.word a (dec (t.word a));
                  vs_arr = update t.vs_arr i a;
                }))),
        )
    stuck :
        lt_int (pos 0) (t.word a) ≡ false
        → ((i : ℕ) → i < maxproc → (t.vs_arr i == 0) ≡ false)
        → Waited t a (enter ∷ [], ended tt t)

  module _ (now : Support → ℤ) (cpu : Support → State) where
    -- What it does for a semaphore at `a` in segment 2.
    wait_at : ℕ → Bool → Option ℕ → Prog (Unit {0})
    wait_at a b o = elim b as (λ _. Prog (Unit {0})) [
      | true ↦ change (λ t. write_word a (dec (t.word a)) t) (call exit_lock (done tt))
      | false ↦ elim o as (λ _. Prog (Unit {0})) [
        | none ↦ done tt
        | some i ↦
            change (λ t. write_word a (dec (t.word a)) (record t { vs_arr = update t.vs_arr i a }))
              (call exit_lock (call (wait_on i) (done tt)))
      ]
    ]

    wait_at-Waited :
        (t : Support) (a : ℕ) (b : Bool) (o : Option ℕ)
        → lt_int (pos 0) (t.word a) ≡ b
        → FirstHit (λ i. t.vs_arr i == 0) maxproc 0 o
        → Waited t a (
          enter ∷ (run after now cpu (wait_at a b o) t).0,
          (run after now cpu (wait_at a b o) t).1,
        )
    unfolding wait_at run
    wait_at-Waited t a true o e h = passed e
    wait_at-Waited t a false _ e (hit i low high free below) =
        blocked e i high free (λ j small. below j (omega arith) small)
    wait_at-Waited t a false _ e (miss used) = stuck e (λ i small. used i (omega arith) small)

    -- For a semaphore in segment 2, and whatever other processes do to the shared variables during its
    -- calls, P_Virtual_Semaphore locks protected_sem; if the semaphore is positive it takes one from it
    -- and unlocks again; otherwise it takes one from it, gives the first free entry of vs_arr its
    -- address, unlocks protected_sem and waits on that entry. But if no entry is free it changes
    -- nothing, makes no further call, and protected_sem stays locked.
    pub p_virtual_semaphore-Waited :
        (num : ℕ) (s : Support)
        → leb (after enter s).linked.seg2 (bits (old_reg num 4 (after enter s))) ≡ true
        → Waited
            (after enter s)
            (bits (old_reg num 4 (after enter s)))
            (run after now cpu (p_virtual_semaphore num) s)
    unfolding p_virtual_semaphore find_virtual run ◌>>=◌ wait_at
    p_virtual_semaphore-Waited num s inside =
        let t = after enter s in
        let a = bits (old_reg num 4 t) in
        rw (p_virtual_semaphore, inside)
          (wait_at-Waited t a (lt_int (pos 0) (t.word a)) (find_virtual 0 t.vs_arr) refl
            (first_hit-FirstHit (λ i. t.vs_arr i == 0) maxproc 0))
