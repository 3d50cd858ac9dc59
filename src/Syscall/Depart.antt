-- ===== src/Syscall/Depart.antt =====
-- A child is taken out of the list of the children of a process in nucleus/traps/syscall.c.
use hoca_operating_system.Prelude.{
  ℕ, Bool, true, false, ◌&&◌, ◌≡◌, refl, subst, ap, ◌∙◌, inl, inr, none, some, List, [], ◌∷◌, ◌++◌,
  arith, same, if◌then◌else◌, ◌==◌, Bool-cases, true_false, ==_self,
}
use hoca_operating_system.Machine.{Ptr, Proc}
use hoca_operating_system.Procq.Free.{has}
use hoca_operating_system.Asl.Lists.{NoDup, last_of, last_of-apart, has-append}
use hoca_operating_system.Syscall.Siblings.{Siblings, Siblings-frame, parent_before}

abbrev pub no_more : List ℕ → Bool
no_more [] = true
no_more (y ∷ ys) = false

-- What stands around a child.
pub Siblings-around :
    (f : ℕ → Proc) (o : Ptr) (up : ℕ) (xs : List ℕ) (w : ℕ) (ys : List ℕ)
    → Siblings f o up (xs ++ w ∷ ys)
    → ((f w).parent ≡ parent_before up ys) × Siblings f (f w).brother up ys
Siblings-around f o up [] w ys h = (h.1, h.2)
Siblings-around f o up (x ∷ xs) w ys h = Siblings-around f (f x).brother up xs w ys h.2

-- The last child has its parent set.
pub Siblings-last :
    (f : ℕ → Proc) (o : Ptr) (up c : ℕ) (cs : List ℕ) (p : ℕ)
    → Siblings f o up (c ∷ cs)
    → last_of (some c) cs ≡ some p
    → (f p).parent ≡ some up
Siblings-last f o up c [] p h e = let q : c ≡ p = cc in subst (λ x. (f x).parent ≡ some up) q h.1
Siblings-last f o up c (d ∷ cs) p h e = Siblings-last f (f c).brother up d cs p h.2 e

parent_end :
    (up : ℕ) (us : List ℕ) (b : Bool) (old : Ptr)
    → b ≡ true
    → old ≡ none
    → (if no_more us && b then some up else old) ≡ parent_before up us
parent_end up [] b old hit e = rw hit refl
parent_end up (u ∷ us) b old hit e = e

parent_inner :
    (up : ℕ) (us : List ℕ) (b : Bool) (old : Ptr)
    → b ≡ false
    → (if no_more us && b then some up else old) ≡ old
parent_inner up [] b old miss = rw miss refl
parent_inner up (u ∷ us) b old miss = refl

-- Two members of a list that stand at different places.
pub apart_in : (x v : ℕ) (us : List ℕ) → has x us ≡ false → has v us ≡ true → (x == v) ≡ false
apart_in x v us out i = elim (Bool-cases (x == v)) [
  | inr other ↦ other
  | inl hit ↦ let e : v ≡ x = ground arith in true_false (subst (λ y. has y us ≡ true) e i) out
]

pub turn : (v p : ℕ) → (v == p) ≡ (p == v)
turn v p = ground arith

module _ (f g : ℕ → Proc) (up w : ℕ) (ys : List ℕ) where
  -- The one before `w` gets its brother, and its parent where `w` was the last.
  pub Siblings-remove :
      (o : Ptr) (x : ℕ) (xs : List ℕ)
      → Siblings f o up (x ∷ xs ++ w ∷ ys)
      → NoDup (x ∷ xs ++ w ∷ ys)
      → ((v : ℕ)
          → (v == w) ≡ false
          → ((g v).parent ≡ (
              if no_more ys && same (last_of (some x) xs) (some v) then some up else (f v).parent))
            × ((g v).brother
                ≡ (if same (last_of (some x) xs) (some v) then (f w).brother else (f v).brother)))
      → Siblings g o up (x ∷ xs ++ ys)
  Siblings-remove o x [] h once links =
      let k = links x (ground (arith, once.0)) in
      let here = ==_self x in
      (
        h.0,
        k.0 ∙ parent_end up ys (x == x) (f x).parent here h.1,
        rw (k.1 ∙ ap (λ b. if b then (f w).brother else (f x).brother) here) (
            Siblings-frame f g up (f w).brother ys h.2.2 (λ v i.
              let j = links v (turn v w ∙ apart_in w v ys once.1.0 i) in
              let miss = apart_in x v (w ∷ ys) once.0 (ground (arith, i)) in
              (
                j.0 ∙ parent_inner up ys (x == v) (f v).parent miss,
                j.1 ∙ ap (λ b. if b then (f w).brother else (f v).brother) miss,
              ))),
      )
  Siblings-remove o x (y ∷ xs) h once links =
      let k =
        links x
          (apart_in x w (y ∷ xs ++ w ∷ ys) once.0 (ground (arith, has-append w xs (w ∷ ys)))) in
      let miss = last_of-apart x y xs (ground (arith, once.0, has-append x xs (w ∷ ys))) in
      (
        h.0,
        k.0 ∙ parent_inner up ys (same (last_of (some y) xs) (some x)) (f x).parent miss ∙ h.1,
        rw (k.1 ∙ ap (λ b. if b then (f w).brother else (f x).brother) miss)
            (Siblings-remove (f x).brother y xs h.2 once.1 links),
      )
