-- ===== src/Asl/Names.antt =====
-- The semaphores of the active descriptors of queues/asl.c.
use hoca_operating_system.Prelude.{
  ℕ, true, false, ◌≡◌, refl, subst, ◌∙◌, inl, inr, Option, none, some, List, [], ◌∷◌, ◌++◌, arith,
  Bool-cases, true_false, ◌==◌,
}
use hoca_operating_system.Machine.{Ptr, Addr}
use hoca_operating_system.Asl.{Semd}
use hoca_operating_system.Asl.Find.{is_sem, lookup, before}
use hoca_operating_system.Asl.Lists.{last_of}
use hoca_operating_system.Asl.Shape.{Named}

-- The first of two results that is there.
abbrev pub or_else : Option ℕ → Option ℕ → Option ℕ
or_else none y = y
or_else (some x) y = some x

pub lookup_append :
    (f : ℕ → Semd) (a : Addr) (xs ys : List ℕ)
    → lookup f a (xs ++ ys) ≡ or_else (lookup f a xs) (lookup f a ys)
lookup_append f a [] ys = refl
lookup_append f a (x ∷ xs) ys = elim (Bool-cases (is_sem f a x)) [
  | inl here ↦ rw here refl
  | inr there ↦ rw there (lookup_append f a xs ys)
]

-- A descriptor has one semaphore.
pub is_sem_other :
    (f : ℕ → Semd) (a b : Addr) (w : ℕ)
    → (f w).sem_add ≡ some a
    → (b == a) ≡ false
    → is_sem f b w ≡ false
is_sem_other f a b w name other = rw name (ground (arith, other))

pub is_sem_this : (f : ℕ → Semd) (a : Addr) (w : ℕ) → (f w).sem_add ≡ some a → is_sem f a w ≡ true
is_sem_this f a w name = rw name (ground arith)

-- One more name, which no descriptor of the list has.
pub Named-snoc :
    (f : ℕ → Semd) (ws : List ℕ) (w : ℕ) (a : Addr)
    → Named f ws
    → lookup f a ws ≡ none
    → (f w).sem_add ≡ some a
    → Named f (ws ++ w ∷ [])
Named-snoc f [] w a h new name = (rw name refl, λ b i. refl, tt)
Named-snoc f (v ∷ ws) w a h new name = elim (Bool-cases (is_sem f a v)) [
  | inl here ↦ absurd (ground (arith, (rw here at new)))
  | inr there ↦ (
    h.0,
    λ b i.
        lookup_append f b ws (w ∷ [])
        ∙ rw (h.1 b i, is_sem_other f a b w name (other b i there)) refl,
    Named-snoc f ws w a h.2 (rw there at new) name,
  )
]
  where
    other : (b : Addr) → is_sem f b v ≡ true → is_sem f a v ≡ false → (b == a) ≡ false
    other b i there = elim (Bool-cases (b == a)) [
      | inr apart ↦ apart
      | inl hit ↦
          let e : b ≡ a = ground arith in true_false (subst (λ x. is_sem f x v ≡ true) e i) there
    ]

pub before_last :
    (f : ℕ → Semd) (a : Addr) (b : Ptr) (ws : List ℕ)
    → lookup f a ws ≡ none
    → before f a b ws ≡ last_of b ws
before_last f a b [] h = refl
before_last f a b (w ∷ ws) h = elim (Bool-cases (is_sem f a w)) [
  | inl here ↦ absurd (ground (arith, (rw here at h)))
  | inr there ↦ rw there (before_last f a (some w) ws (rw there at h))
]

-- Where a semaphore is found, the list splits at its descriptor.
pub data Split (f : ℕ → Semd) (a : Addr) (w : ℕ) : List ℕ → Type 0 where
  split : (xs ys : List ℕ) → lookup f a xs ≡ none → is_sem f a w ≡ true → Split f a w (xs ++ w ∷ ys)

pub lookup-Split :
    (f : ℕ → Semd) (a : Addr) (ws : List ℕ) (w : ℕ) → lookup f a ws ≡ some w → Split f a w ws
lookup-Split f a [] w h = absurd (ground (arith, h))
lookup-Split f a (v ∷ ws) w h = elim (Bool-cases (is_sem f a v)) [
  | inl here ↦
      let e : some v ≡ some w = rw here at h in
      let q : v ≡ w = cc in subst (λ x. Split f a x (v ∷ ws)) q (split [] ws refl here)
  | inr there ↦ further (lookup-Split f a ws w (rw there at h)) there
]
  where
    further : {us : List ℕ} → Split f a w us → is_sem f a v ≡ false → Split f a w (v ∷ us)
    further (split xs ys new i) there = split (v ∷ xs) ys (rw there new) i
