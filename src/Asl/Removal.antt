-- ===== src/Asl/Removal.antt =====
-- The first half of removeBlockHelper of queues/asl.c: a descriptor leaves the list of active ones.
use hoca_operating_system.Prelude.{
  ℕ, true, false, ◌≡◌, refl, sym, ap, subst, ◌∙◌, inl, inr, none, some, List, [], ◌∷◌, ◌++◌, arith,
  same, if◌then◌else◌, Bool-cases, true_false, ◌==◌,
}
use hoca_operating_system.Machine.{Ptr}
use hoca_operating_system.Procq.Free.{has}
use hoca_operating_system.Asl.{Semd, Sems, modify_semd, unlink_sem}
use hoca_operating_system.Asl.Lists.{Dlist, Dlist-frame, last_of, last_of-has, head_or, has-append}
use hoca_operating_system.Asl.Unlink.{Dlist-around, Dlist-remove}
use hoca_operating_system.Asl.Shape.{Shape}

module _ (w : ℕ) (s : Sems) where
  pub unlink_next :
      (p n : Ptr) (v : ℕ)
      → ((unlink_sem w p n s).semd v).s_next ≡ (if same p (some v) then n else (s.semd v).s_next)
  unfolding unlink_sem modify_semd
  unlink_next none none v = refl
  unlink_next none (some n) v = ground arith
  unlink_next (some p) none v = ground arith
  unlink_next (some p) (some n) v = ground arith

  pub unlink_prev :
      (p n : Ptr) (v : ℕ)
      → ((unlink_sem w p n s).semd v).s_prev ≡ (if same n (some v) then p else (s.semd v).s_prev)
  unfolding unlink_sem modify_semd
  unlink_prev none none v = refl
  unlink_prev none (some n) v = ground arith
  unlink_prev (some p) none v = ground arith
  unlink_prev (some p) (some n) v = ground arith

  -- The semaphore and the queue of every descriptor stay.
  pub unlink_keeps :
      (p n : Ptr) (v : ℕ)
      → (((unlink_sem w p n s).semd v).sem_add ≡ (s.semd v).sem_add)
        × (((unlink_sem w p n s).semd v).s_link ≡ (s.semd v).s_link)
  unfolding unlink_sem modify_semd
  unlink_keeps none none v = (refl, refl)
  unlink_keeps none (some n) v = ground arith
  unlink_keeps (some p) none v = ground arith
  unlink_keeps (some p) (some n) v = ground arith

  pub unlink_rest :
      (p n : Ptr)
      → ((unlink_sem w p n s).procs ≡ s.procs)
        × ((unlink_sem w p n s).words ≡ s.words)
        × ((unlink_sem w p n s).free_head_s ≡ s.free_head_s)
  unfolding unlink_sem modify_semd
  unlink_rest none none = (refl, refl, refl)
  unlink_rest none (some n) = (refl, refl, refl)
  unlink_rest (some p) none = (refl, refl, refl)
  unlink_rest (some p) (some n) = (refl, refl, refl)

  unlink_head :
      (xs : List ℕ) (p n : Ptr)
      → p ≡ last_of none xs
      → (unlink_sem w p n s).cur_sem ≡ head_or xs n s.cur_sem
  unfolding unlink_sem modify_semd
  unlink_head [] none none e = refl
  unlink_head [] none (some n) e = refl
  unlink_head [] (some p) n e = absurd (ground (arith, e))
  unlink_head (x ∷ xs) none n e =
      let (q, (i, j)) = last_of-has x xs in
      let h : none ≡ some q = e ∙ i in absurd (ground (arith, h))
  unlink_head (x ∷ xs) (some p) none e = refl
  unlink_head (x ∷ xs) (some p) (some n) e = refl

-- A descriptor that is not in a list is not one of its neighbours.
pub same_out :
    (o : Ptr) (v : ℕ) (us : List ℕ)
    → ((p : ℕ) → o ≡ some p → has p us ≡ true)
    → has v us ≡ false
    → same o (some v) ≡ false
same_out none v us h out = refl
same_out (some p) v us h out = elim (Bool-cases (p == v)) [
  | inr other ↦ other
  | inl hit ↦
      let e : p ≡ v = ground arith in true_false (subst (λ x. has x us ≡ true) e (h p refl)) out
]

pub last_in : (xs : List ℕ) (p : ℕ) → last_of none xs ≡ some p → has p xs ≡ true
last_in [] p e = absurd (ground (arith, e))
last_in (x ∷ xs) p e =
    let (q, (i, j)) = last_of-has x xs in
    let same : some q ≡ some p = sym i ∙ e in
    let eq : q ≡ p = cc in subst (λ y. has y (x ∷ xs) ≡ true) eq j

pub first_in :
    (f : ℕ → Semd) (b o : Ptr) (ys : List ℕ) (n : ℕ) → Dlist f b o ys → o ≡ some n → has n ys ≡ true
first_in f b o [] n h e = let no : none ≡ some n = sym h ∙ e in absurd (ground (arith, no))
first_in f b o (y ∷ ys) n h e =
    let here : some y ≡ some n = sym h.0 ∙ e in let eq : y ≡ n = cc in ground (arith, eq)

module _ (s : Sems) (xs : List ℕ) (w : ℕ) (ys fs : List ℕ) (shape : Shape s (xs ++ w ∷ ys) fs) where
  abbrev pub unlinked : Sems
  unlinked = unlink_sem w (s.semd w).s_prev (s.semd w).s_next s

  around : ((s.semd w).s_prev ≡ last_of none xs) × Dlist s.semd (some w) (s.semd w).s_next ys
  around = Dlist-around s.semd none s.cur_sem xs w ys shape.active

  prev_in : (p : ℕ) → (s.semd w).s_prev ≡ some p → has p (xs ++ w ∷ ys) ≡ true
  prev_in p e = ground (arith, has-append p xs (w ∷ ys), last_in xs p (sym around.0 ∙ e))

  next_in : (n : ℕ) → (s.semd w).s_next ≡ some n → has n (xs ++ w ∷ ys) ≡ true
  next_in n e =
      ground (
        arith,
        has-append n xs (w ∷ ys),
        first_in s.semd (some w) (s.semd w).s_next ys n around.1 e,
      )

  pub unlinked_active : Dlist unlinked.semd none unlinked.cur_sem (xs ++ ys)
  unlinked_active =
      subst (λ o. Dlist unlinked.semd none o (xs ++ ys))
        (sym (unlink_head w s xs (s.semd w).s_prev (s.semd w).s_next around.0))
        (Dlist-remove s.semd unlinked.semd w
          (λ v i. unlink_next w s (s.semd w).s_prev (s.semd w).s_next v)
          (λ v i. unlink_prev w s (s.semd w).s_prev (s.semd w).s_next v) none s.cur_sem xs ys
          shape.active shape.once (λ v i. refl))

  pub unlinked_free : Dlist unlinked.semd none s.free_head_s fs
  unlinked_free = Dlist-frame s.semd unlinked.semd none s.free_head_s fs shape.free (λ v i. (
    unlink_next w s (s.semd w).s_prev (s.semd w).s_next v
        ∙ ap (λ b. if b then (s.semd w).s_next else (s.semd v).s_next)
            (same_out (s.semd w).s_prev v (xs ++ w ∷ ys) prev_in (outside v i)),
    unlink_prev w s (s.semd w).s_prev (s.semd w).s_next v
        ∙ ap (λ b. if b then (s.semd w).s_prev else (s.semd v).s_prev)
            (same_out (s.semd w).s_next v (xs ++ w ∷ ys) next_in (outside v i)),
  ))
    where
      outside : (v : ℕ) → has v fs ≡ true → has v (xs ++ w ∷ ys) ≡ false
      outside v i = elim (Bool-cases (has v (xs ++ w ∷ ys))) [
        | inr out ↦ out
        | inl active ↦ true_false i (shape.apart v active)
      ]
