-- ===== src/Asl/Unlink.antt =====
-- A descriptor of queues/asl.c is taken out of a doubly linked list.
use hoca_operating_system.Prelude.{
  ℕ, true, false, ◌≡◌, refl, sym, subst, inl, inr, same, if◌then◌else◌, Bool-cases, true_false,
  some, List, [], ◌∷◌, ◌++◌, arith, ◌==◌,
}
use hoca_operating_system.Machine.{Ptr}
use hoca_operating_system.Procq.Free.{has}
use hoca_operating_system.Asl.{Semd}
use hoca_operating_system.Asl.Lists.{
  Dlist, Dlist-frame, NoDup, last_of, head_or, last_of-apart, Outside, Outside-some, has-append,
}

-- What stands around a descriptor of a list.
pub Dlist-around :
    (f : ℕ → Semd) (b o : Ptr) (xs : List ℕ) (w : ℕ) (ys : List ℕ)
    → Dlist f b o (xs ++ w ∷ ys)
    → ((f w).s_prev ≡ last_of b xs) × Dlist f (some w) (f w).s_next ys
Dlist-around f b o [] w ys h = (h.1, h.2)
Dlist-around f b o (x ∷ xs) w ys h = Dlist-around f (some x) (f x).s_next xs w ys h.2

module _ (f g : ℕ → Semd) (w : ℕ)
    (next : (v : ℕ)
      → (v == w) ≡ false
      → (g v).s_next ≡ (if same (f w).s_prev (some v) then (f w).s_next else (f v).s_next))
    (prev : (v : ℕ)
      → (v == w) ≡ false
      → (g v).s_prev ≡ (if same (f w).s_next (some v) then (f w).s_prev else (f v).s_prev)) where
  -- The rest of the list points back past `w`.
  after_it :
      (b : Ptr) (ys : List ℕ)
      → Dlist f (some w) (f w).s_next ys
      → NoDup ys
      → has w ys ≡ false
      → (f w).s_prev ≡ b
      → Outside b ys
      → Dlist g b (f w).s_next ys
  after_it b [] h once out e apart = h
  after_it b (n ∷ ys) h once out e apart = (
    h.0,
    rw (prev n n_other, h.0, e) (ground arith),
    rw (next n n_other, e, apart n (ground arith))
        (Dlist-frame f g (some n) (f n).s_next ys h.2 (λ v i. (
          rw (next v (other v (ground (arith, i))), e, apart v (ground (arith, i))) refl,
          rw (prev v (other v (ground (arith, i))), h.0, Outside-some n ys once.0 v i) refl,
        ))),
  )
    where
      other : (v : ℕ) → has v (n ∷ ys) ≡ true → (v == w) ≡ false
      other v i = elim (Bool-cases (v == w)) [
        | inr apart ↦ apart
        | inl hit ↦
            let q : v ≡ w = ground arith in true_false (subst (λ x. has x (n ∷ ys) ≡ true) q i) out
      ]

      n_other : (n == w) ≡ false
      n_other = other n (ground arith)

  pub Dlist-remove :
      (b o : Ptr) (xs ys : List ℕ)
      → Dlist f b o (xs ++ w ∷ ys)
      → NoDup (xs ++ w ∷ ys)
      → Outside b (xs ++ w ∷ ys)
      → Dlist g b (head_or xs (f w).s_next o) (xs ++ ys)
  Dlist-remove b o [] ys h once apart =
      after_it b ys h.2 once.1 once.0 h.1 (λ v i. apart v (ground (arith, i)))
  Dlist-remove b o (x ∷ xs) ys h once apart = (
    h.0,
    rw (prev x x_other, x_behind) h.1,
    rw (next x x_other) (
        subst (λ y. Dlist g (some x) y (xs ++ ys)) (sym (first_next xs h.2 once.0))
          (Dlist-remove (some x) (f x).s_next xs ys h.2 once.1
            (Outside-some x (xs ++ w ∷ ys) once.0))),
  )
    where
      in_rest : (v : ℕ) → has v (w ∷ ys) ≡ true → has v (xs ++ w ∷ ys) ≡ true
      in_rest v i = ground (arith, has-append v xs (w ∷ ys), i)

      x_other : (x == w) ≡ false
      x_other = elim (Bool-cases (x == w)) [
        | inr out ↦ out
        | inl hit ↦ true_false (in_rest x (ground (arith, hit))) once.0
      ]

      -- The one after `w` is not `x`.
      x_behind : same (f w).s_next (some x) ≡ false
      x_behind = behind ys (Dlist-around f (some x) (f x).s_next xs w ys h.2).1 in_rest
        where
          behind :
              (us : List ℕ)
              → Dlist f (some w) (f w).s_next us
              → ((v : ℕ) → has v (w ∷ us) ≡ true → has v (xs ++ w ∷ ys) ≡ true)
              → same (f w).s_next (some x) ≡ false
          behind [] d i = rw d refl
          behind (n ∷ us) d i = rw d.0 (elim (Bool-cases (n == x)) [
            | inr out ↦ out
            | inl hit ↦
                let q : n ≡ x = ground arith in
                true_false (subst (λ y. has y (xs ++ w ∷ ys) ≡ true) q (i n (ground arith))) once.0
          ])

      first_next :
          (us : List ℕ)
          → Dlist f (some x) (f x).s_next (us ++ w ∷ ys)
          → has x (us ++ w ∷ ys) ≡ false
          → (if same (f w).s_prev (some x) then (f w).s_next else (f x).s_next)
            ≡ head_or us (f w).s_next (f x).s_next
      first_next [] d out = rw d.1 (ground arith)
      first_next (y ∷ us) d out =
          rw (Dlist-around f (some x) (f x).s_next (y ∷ us) w ys d).0
            (rw (last_of-apart x y us (ground (arith, out, has-append x us (w ∷ ys)))) refl)
