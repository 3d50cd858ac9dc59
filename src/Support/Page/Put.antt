-- ===== src/Support/Page/Put.antt =====
-- putframe of support/part2/page.c: the frames that it gives back.
use hoca_operating_system.Prelude.{
  ℕ, zero, suc, ◌+◌, ◌≤◌, Bool, true, false, ◌&&◌, not, ◌≡◌, refl, ap, ◌∙◌, inl, inr, ◌⊎◌, ℤ, pos,
  negsuc, same_int, arith, Bool-cases, List, [], ◌∷◌, ◌++◌, if◌then◌else◌, leb, ltb, ◌==◌,
}
use hoca_operating_system.Machine.{State}
use hoca_operating_system.Support.State.{
  Support, PageFrame, maxframes, modify_frame, sem_mm, sem_pf, shift3, low3,
}
use hoca_operating_system.Support.Prog.{
  Prog, Call, End, ended, run, sys3, lock_op, unlock_op, v_sem, done, ◌>>=◌, change,
}
use hoca_operating_system.Support.Page.{free_frames, free_sectors, put_frame, mark_sector, index_of}

-- A frame of process `term` outside the shared segment 2, and the frame after that.
abbrev pub is_private : ℤ → PageFrame → Bool
is_private term f = same_int f.pid term && not (same_int f.seg (pos 2))

abbrev pub given_back : ℤ → PageFrame → PageFrame
given_back term f = if is_private term f then record f { pid = negsuc 0 } else f

-- One V on sem_pf for every such frame among `n` frames from `i` on.
unfoldable pub releases : ℕ → ℕ → ℤ → (ℕ → PageFrame) → List Call
releases zero i term fs = []
releases (suc n) i term fs =
    let rest = releases n (i + 1) term fs in
    if is_private term (fs i) then sys3 (unlock_op sem_pf ∷ []) ∷ rest else rest

releases-same :
    (n i : ℕ) (term : ℤ) (fs gs : ℕ → PageFrame)
    → ((j : ℕ) → i ≤ j → gs j ≡ fs j)
    → releases n i term gs ≡ releases n i term fs
unfolding releases
releases-same zero i term fs gs h = refl
releases-same (suc n) i term fs gs h =
    rw (h i (omega arith), releases-same n (i + 1) term fs gs (λ j low. h j (omega (arith, low))))
      refl

-- The frames after the loop over `n` frames from `i` on.
abbrev pub Freed : ℕ → ℕ → ℤ → (ℕ → PageFrame) → (ℕ → PageFrame) → Type 0
Freed n i term fs gs =
    (j : ℕ) → gs j ≡ (if leb i j && ltb j (i + n) then given_back term (fs j) else fs j)

Freed-next :
    (n i : ℕ) (term : ℤ) (fs hs gs : ℕ → PageFrame)
    → ((j : ℕ) → hs j ≡ (if j == i then given_back term (fs j) else fs j))
    → Freed n (i + 1) term hs gs
    → Freed (suc n) i term fs gs
Freed-next n i term fs hs gs step rest j = elim (Bool-cases (j == i)) [
  | inl here ↦
      let e : (leb (i + 1) j && ltb j (i + 1 + n)) ≡ false = ground (arith, here) in
      let q : (leb i j && ltb j (i + suc n)) ≡ true = ground (arith, here) in
      rw q (rest j ∙ rw e (step j ∙ rw here refl))
  | inr other ↦
      let e : (leb (i + 1) j && ltb j (i + 1 + n)) ≡ (leb i j && ltb j (i + suc n)) =
        ground (arith, other) in
      let q : hs j ≡ fs j = step j ∙ rw other refl in rest j ∙ rw (e, q) refl
]

module _ (after : Call → Support → Support) (now : Support → ℤ) (cpu : Support → State)
    (keeps : (s : Support) → (after (sys3 (unlock_op sem_pf ∷ [])) s).pfs_arr ≡ s.pfs_arr) where
  free_one : ℕ → Support → Support
  free_one i s =
      after (sys3 (unlock_op sem_pf ∷ [])) (modify_frame i (λ f. record f { pid = negsuc 0 }) s)

  -- A round of the loop, then the rest `p` of the loop and what follows it.
  round_run :
      {A B : Type 0} (b : Bool) (i : ℕ) (p : Prog B) (k : B → Prog A) (s : Support)
      → run after now cpu
          (((if b
                then (change (modify_frame i (λ f. record f { pid = negsuc 0 })) (done tt) >>= λ _.
                    v_sem sem_pf)
                else done tt)
              >>= λ _. p)
            >>= k)
          s
        ≡ (if b
            then (
              sys3 (unlock_op sem_pf ∷ []) ∷ (run after now cpu (p >>= k) (free_one i s)).0,
              (run after now cpu (p >>= k) (free_one i s)).1,
            )
            else run after now cpu (p >>= k) s)
  unfolding run ◌>>=◌ free_one
  round_run true i p k s = refl
  round_run false i p k s = refl

  free_frames-Freed :
      {A : Type 0} (n i : ℕ) (term : ℤ) (k : Unit {0} → Prog A) (s : Support)
      → (t : Support) × Freed n i term s.pfs_arr t.pfs_arr
        × (run after now cpu (free_frames n i term >>= k) s ≡ (
          releases n i term s.pfs_arr ++ (run after now cpu (k tt) t).0,
          (run after now cpu (k tt) t).1,
        ))
  unfolding free_frames run ◌>>=◌ releases free_one
  free_frames-Freed zero i term k s = (s, λ j. ground arith, refl)
  free_frames-Freed (suc n) i term k s = elim (Bool-cases (is_private term (s.pfs_arr i))) [
    | inr apart ↦
        let (t, f, e) = free_frames-Freed n (i + 1) term k s in
        (
          t,
          Freed-next n i term s.pfs_arr s.pfs_arr t.pfs_arr
              (λ j. left_alone apart j (Bool-cases (j == i))) f,
          round_run (is_private term (s.pfs_arr i)) i (free_frames n (i + 1) term) k s
              ∙ rw (apart, e) refl,
        )
    | inl private ↦
        let u = free_one i s in
        let (t, f, e) = free_frames-Freed n (i + 1) term k u in
        let same =
          releases-same n (i + 1) term s.pfs_arr u.pfs_arr
            (λ j low. changed private j (Bool-cases (j == i)) ∙ above j low) in
        (
          t,
          Freed-next n i term s.pfs_arr u.pfs_arr t.pfs_arr
              (λ j. changed private j (Bool-cases (j == i))) f,
          round_run (is_private term (s.pfs_arr i)) i (free_frames n (i + 1) term) k s
              ∙ rw (private, e, same) refl,
        )
  ]
    where
      left_alone :
          is_private term (s.pfs_arr i) ≡ false
          → (j : ℕ) → ((j == i) ≡ true) ⊎ ((j == i) ≡ false)
          → s.pfs_arr j ≡ (if j == i then given_back term (s.pfs_arr j) else s.pfs_arr j)
      left_alone apart j (inl here) =
          let e : j ≡ i = ground (arith, here) in rw here (rw e (rw apart refl))
      left_alone apart j (inr other) = rw other refl

      changed :
          is_private term (s.pfs_arr i) ≡ true
          → (j : ℕ) → ((j == i) ≡ true) ⊎ ((j == i) ≡ false)
          → (free_one i s).pfs_arr j
            ≡ (if j == i then given_back term (s.pfs_arr j) else s.pfs_arr j)
      changed private j (inl here) =
          let e : j ≡ i = ground (arith, here) in
          ap (λ g. g j) (keeps _) ∙ rw here (rw e (rw private refl))
      changed private j (inr other) = ap (λ g. g j) (keeps _) ∙ rw other refl

      above :
          (j : ℕ)
          → i + 1 ≤ j
          → (if j == i then given_back term (s.pfs_arr j) else s.pfs_arr j) ≡ s.pfs_arr j
      above j low = ground (arith, low)

free_sectors-frames :
    (n i : ℕ) (term : ℤ) (s : Support) → (free_sectors n i term s).pfs_arr ≡ s.pfs_arr
unfolding free_sectors
free_sectors-frames zero i term s = refl
free_sectors-frames (suc n) i term s =
    let d = (s.mm (index_of term)).unprivileged_page i in
    let absent = (d.pd_r == 0) && ((d.pd_p == 0) && not (same_int (s.pfs_arr i).seg (pos 2))) in
    let at = pos d.pd_frame in
    let marked = mark_sector (index_of (shift3 at)) (low3 at) (negsuc 0) s in
    free_sectors-frames n (i + 1) term (if absent then marked else s)
    ∙ elim (Bool-cases absent) [ inl hit ↦ rw hit refl | inr miss ↦ rw miss refl ]

module _ (after : Call → Support → Support) (now : Support → ℤ) (cpu : Support → State)
    (keeps : (s : Support) → (after (sys3 (unlock_op sem_pf ∷ [])) s).pfs_arr ≡ s.pfs_arr) where
  -- When no other process changes pfs_arr during the V operations on sem_pf of putframe, which holds
  -- sem_mm then, putframe makes every frame free that the terminal process has outside the shared
  -- segment 2, and no other frame, and does one V on sem_pf for each of them, between a P and a V of
  -- sem_mm.
  pub put_frame-Freed :
      (term : ℤ) (s : Support)
      → (t : Support) × Freed maxframes 0 term
          (after (sys3 (lock_op sem_mm ∷ [])) s).pfs_arr
          t.pfs_arr
        × (run after now cpu (put_frame term) s ≡ (
          sys3 (lock_op sem_mm ∷ [])
                ∷ releases maxframes 0 term (after (sys3 (lock_op sem_mm ∷ [])) s).pfs_arr
              ++ sys3 (unlock_op sem_mm ∷ []) ∷ [],
          ended tt (after (sys3 (unlock_op sem_mm ∷ [])) t),
        ))
  unfolding put_frame run ◌>>=◌
  put_frame-Freed term s =
      let u = after (sys3 (lock_op sem_mm ∷ [])) s in
      let last : Unit {0} → Prog (Unit {0}) = λ _. change (free_sectors 32 0 term) (v_sem sem_mm) in
      let (t, f, e) = free_frames-Freed after now cpu keeps maxframes 0 term last u in
      (
        free_sectors 32 0 term t,
        λ j. ap (λ g. g j) (free_sectors-frames 32 0 term t) ∙ f j,
        ap (λ (r : List Call × End (Unit {0})). (sys3 (lock_op sem_mm ∷ []) ∷ r.0, r.1)) e,
      )
