-- ===== src/Support/Page/Claim.antt =====
-- getfreeframe of support/part2/page.c: the frame that it gives.
use hoca_operating_system.Prelude.{
  ℕ, ◌+◌, ◌<◌, Bool, true, false, ◌≡◌, refl, ap, inl, inr, none, some, ℤ, pos, negsuc, same_int,
  FirstHit, hit, miss, first_hit-FirstHit, first_hit, arith, update, Option, Bool-cases, true_false,
  List, [], ◌∷◌, lt_int, if◌then◌else◌,
}
use hoca_operating_system.Machine.{State}
use hoca_operating_system.Support.State.{
  Support, maxframes, modify_frame, sem_mm, sem_pf, sem_page, low,
}
use hoca_operating_system.Support.Prog.{
  Call, End, ended, run, sys3, lock_op, unlock_op, v_sem, done, ◌>>=◌,
}
use hoca_operating_system.Support.Page.{
  shared_frame, free_frame, take_frame, claim_frame, is_free, holds_shared, own, get_free_frame,
}

-- The three results, by the state in which it looks at the frames: a frame that already holds the shared page; a frame that was
-- free and now is the caller's, all others as before; or -1, with no frame free.
pub data Claimed (term page seg : ℤ) (s : Support) : ℤ × Support → Type 0 where
  shared :
      (i : ℕ)
      → i < maxframes
      → same_int seg (pos 2) ≡ true
      → holds_shared page (s.pfs_arr i) ≡ true
      → Claimed term page seg s (pos (s.frames.pf_start + i), s)
  taken :
      (i : ℕ)
      → i < maxframes
      → is_free (s.pfs_arr i) ≡ true
      → (same_int seg (pos 2) ≡ true
          → (j : ℕ) → j < maxframes
          → holds_shared page (s.pfs_arr j) ≡ false)
      → Claimed term page seg s (
        pos (s.frames.pf_start + i),
        record s { pfs_arr = update s.pfs_arr i (own term page seg) },
      )
  exhausted :
      ((j : ℕ) → j < maxframes → is_free (s.pfs_arr j) ≡ false)
      → (same_int seg (pos 2) ≡ true
          → (j : ℕ) → j < maxframes
          → holds_shared page (s.pfs_arr j) ≡ false)
      → Claimed term page seg s (negsuc 0, s)

-- The frame and the state after the change.
abbrev claimed : ℤ × (Support → Support) → Support → ℤ × Support
claimed c s = (c.0, c.1 s)

module _ (term page seg : ℤ) (s : Support) where
  take_frame-Claimed :
      (same_int seg (pos 2) ≡ true
        → (j : ℕ) → j < maxframes
        → holds_shared page (s.pfs_arr j) ≡ false)
      → Claimed term page seg s (claimed (take_frame term page seg s) s)
  unfolding take_frame free_frame
  take_frame-Claimed none_shared =
      go (first_hit maxframes 0 test) (first_hit-FirstHit test maxframes 0)
    where
      test : ℕ → Bool
      test i = is_free (s.pfs_arr i)

      go :
          (o : Option ℕ)
          → FirstHit test maxframes 0 o
          → Claimed term page seg s (
              claimed
                (elim o [
                  | none ↦ (negsuc 0, λ t. t)
                  | some i ↦ (pos (s.frames.pf_start + i), modify_frame i (λ _. own term page seg))
                ])
                s)
      go _ (hit i low high free below) = taken i high free none_shared
      go _ (miss used) = exhausted (λ j small. used j (omega arith) small) none_shared

  claim_frame-Claimed : Claimed term page seg s (claimed (claim_frame term page seg s) s)
  unfolding claim_frame shared_frame
  claim_frame-Claimed = elim (Bool-cases (same_int seg (pos 2))) [
    | inr private ↦ rw (claim_frame, private) (take_frame-Claimed (λ h. true_false h private))
    | inl public ↦
        rw (claim_frame, public)
          (go public (first_hit maxframes 0 test) (first_hit-FirstHit test maxframes 0))
  ]
    where
      test : ℕ → Bool
      test i = holds_shared page (s.pfs_arr i)

      go :
          same_int seg (pos 2) ≡ true
          → (o : Option ℕ) → FirstHit test maxframes 0 o
          → Claimed term page seg s (
              claimed
                (elim o [
                  | some i ↦ (pos (s.frames.pf_start + i), λ t. t)
                  | none ↦ take_frame term page seg s
                ])
                s)
      go public _ (hit i low high holds below) = shared i high public holds
      go public _ (miss absent) = take_frame-Claimed (λ h j small. absent j (omega arith) small)

-- The calls after it has looked at the frames, in the state `t`: with sem_pf low, it wakes the paging
-- daemon.
abbrev pub last_calls : Support → List Call
last_calls t =
    if lt_int (pos low) (t.value sem_pf)
    then sys3 (unlock_op sem_mm ∷ []) ∷ []
    else sys3 (unlock_op sem_page ∷ []) ∷ sys3 (unlock_op sem_mm ∷ []) ∷ []

-- The shared variables after calls in a row.
abbrev pub after_all : (Call → Support → Support) → List Call → Support → Support
after_all after [] s = s
after_all after (c ∷ cs) s = after_all after cs (after c s)

module _ (after : Call → Support → Support) (now : Support → ℤ) (cpu : Support → State) where
  ending :
      (rv : ℤ) (t : Support) (b : Bool)
      → run after now cpu
          ((if b then done tt else v_sem sem_page) >>= λ _. v_sem sem_mm >>= λ _. done rv)
          t
        ≡ (let cs =
              if b
              then sys3 (unlock_op sem_mm ∷ []) ∷ []
              else sys3 (unlock_op sem_page ∷ []) ∷ sys3 (unlock_op sem_mm ∷ []) ∷ [] in
            (cs, ended rv (after_all after cs t)))
  unfolding run ◌>>=◌
  ending rv t true = refl
  ending rv t false = refl

  -- getfreeframe does P on sem_pf and then on sem_mm, looks at the frames, does V on sem_page if sem_pf is
  -- then at most LOW, and V on sem_mm, whatever other processes do to the shared variables during
  -- these calls. For a page of the shared segment 2 it gives a frame that holds that page and itself
  -- changes no variable, if there is one; otherwise, and for any other segment, it gives a frame that
  -- was free and makes it the caller's, with every other frame as before; it gives -1, and itself
  -- changes no variable, only when no frame is free.
  pub get_free_frame-Claimed :
      (term page seg : ℤ) (s : Support)
      → (rv : ℤ) × (t : Support) × (Claimed term page seg
            (after (sys3 (lock_op sem_mm ∷ [])) (after (sys3 (lock_op sem_pf ∷ [])) s))
            (rv, t)
          × (run after now cpu (get_free_frame term page seg) s ≡ (
            sys3 (lock_op sem_pf ∷ []) ∷ sys3 (lock_op sem_mm ∷ []) ∷ last_calls t,
            ended rv (after_all after (last_calls t) t),
          )))
  unfolding get_free_frame run ◌>>=◌
  get_free_frame-Claimed term page seg s =
      let u = after (sys3 (lock_op sem_mm ∷ [])) (after (sys3 (lock_op sem_pf ∷ [])) s) in
      let c = claim_frame term page seg u in
      (
        c.0,
        c.1 u,
        (
          claim_frame-Claimed term page seg u,
          ap
              (λ (r : List Call × End ℤ).
                (sys3 (lock_op sem_pf ∷ []) ∷ sys3 (lock_op sem_mm ∷ []) ∷ r.0, r.1))
              (ending c.0 (c.1 u) (lt_int (pos low) ((c.1 u).value sem_pf))),
        ),
      )
