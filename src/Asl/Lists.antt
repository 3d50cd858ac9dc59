-- ===== src/Asl/Lists.antt =====
-- The doubly linked lists that the descriptors of queues/asl.c form.
use hoca_operating_system.Prelude.{
  ℕ, true, false, ◌||◌, ◌≡◌, refl, sym, subst, ◌∙◌, inl, inr, same, if◌then◌else◌, Bool-cases,
  true_false, some, none, List, [], ◌∷◌, ◌++◌, arith, ◌==◌,
}
use hoca_operating_system.Machine.{Ptr}
use hoca_operating_system.Procq.Free.{has}
use hoca_operating_system.Asl.{Semd}
use hoca_operating_system.Asl.Find.{Active}

-- From `o` the descriptors `ws` follow each other in both directions, the first with `b` before it.
abbrev pub Dlist : (ℕ → Semd) → Ptr → Ptr → List ℕ → Type 0
Dlist f b o [] = o ≡ none
Dlist f b o (w ∷ ws) = (o ≡ some w) × ((f w).s_prev ≡ b) × Dlist f (some w) (f w).s_next ws

abbrev pub SameLinks : (ℕ → Semd) → (ℕ → Semd) → ℕ → Type 0
SameLinks f g v = ((g v).s_next ≡ (f v).s_next) × ((g v).s_prev ≡ (f v).s_prev)

-- The links of the descriptors in a list are as before.
abbrev pub Keeps : (ℕ → Semd) → (ℕ → Semd) → List ℕ → Type 0
Keeps f g ws = (v : ℕ) → has v ws ≡ true → SameLinks f g v

pub has-append : (v : ℕ) (xs ys : List ℕ) → has v (xs ++ ys) ≡ (has v xs || has v ys)
has-append v [] ys = refl
has-append v (x ∷ xs) ys = ground (arith, has-append v xs ys)

pub Dlist-Active : (f : ℕ → Semd) (b o : Ptr) (ws : List ℕ) → Dlist f b o ws → Active f o ws
Dlist-Active f b o [] h = h
Dlist-Active f b o (w ∷ ws) h = (h.0, Dlist-Active f (some w) (f w).s_next ws h.2)

module _ (f g : ℕ → Semd) where
  pub Dlist-frame : (b o : Ptr) (ws : List ℕ) → Dlist f b o ws → Keeps f g ws → Dlist g b o ws
  Dlist-frame b o [] h keep = h
  Dlist-frame b o (w ∷ ws) h keep =
      let same = keep w (ground arith) in
      (
        h.0,
        same.1 ∙ h.1,
        rw same.0 (Dlist-frame (some w) (f w).s_next ws h.2 (λ v i. keep v (ground (arith, i)))),
      )

-- Every descriptor stands once.
abbrev pub NoDup : List ℕ → Type 0
NoDup [] = Unit {0}
NoDup (w ∷ ws) = (has w ws ≡ false) × NoDup ws

-- The last of a list, and the start of a list that may be empty.
abbrev pub last_of : Ptr → List ℕ → Ptr
last_of b [] = b
last_of b (w ∷ ws) = last_of (some w) ws

abbrev pub head_or : List ℕ → Ptr → Ptr → Ptr
head_or [] d o = d
head_or (w ∷ ws) d o = o

pub last_of-has :
    (w : ℕ) (ws : List ℕ) → (p : ℕ) × ((last_of (some w) ws ≡ some p) × (has p (w ∷ ws) ≡ true))
last_of-has w [] = (w, (refl, ground arith))
last_of-has w (v ∷ ws) = let (p, (e, i)) = last_of-has v ws in (p, (e, ground (arith, i)))

-- The last of what follows a descriptor is another one.
pub last_of-apart :
    (w v : ℕ) (ws : List ℕ) → has w (v ∷ ws) ≡ false → same (last_of (some v) ws) (some w) ≡ false
last_of-apart w v ws out =
    let (p, (e, i)) = last_of-has v ws in
    rw e (elim (Bool-cases (p == w)) [
      | inr other ↦ other
      | inl hit ↦
          let q : p ≡ w = ground arith in true_false (subst (λ x. has x (v ∷ ws) ≡ true) q i) out
    ])

-- Nothing in the list is `b`.
abbrev pub Outside : Ptr → List ℕ → Type 0
Outside b ws = (v : ℕ) → has v ws ≡ true → same b (some v) ≡ false

pub Outside-some : (w : ℕ) (ws : List ℕ) → has w ws ≡ false → Outside (some w) ws
Outside-some w ws out v i = elim (Bool-cases (w == v)) [
  | inr other ↦ other
  | inl hit ↦
      let e : w ≡ v = ground arith in true_false (subst (λ x. has x ws ≡ true) (sym e) i) out
]

module _ (f g : ℕ → Semd) (w : ℕ) where
  -- A new descriptor at the end of a list.
  pub Dlist-append :
      (b o : Ptr) (ws : List ℕ)
      → Dlist f b o ws
      → NoDup ws
      → ((v : ℕ)
          → has v ws ≡ true
          → (g v).s_next ≡ (if same (last_of b ws) (some v) then some w else (f v).s_next))
      → ((v : ℕ) → has v ws ≡ true → (g v).s_prev ≡ (f v).s_prev)
      → (g w).s_prev ≡ last_of b ws
      → (g w).s_next ≡ none
      → Dlist g b (head_or ws (some w) o) (ws ++ w ∷ [])
  Dlist-append b o [] h once next prev back end = (refl, back, end)
  Dlist-append b o (x ∷ ws) h once next prev back end = (
    h.0,
    prev x (ground arith) ∙ h.1,
    rw (next x (ground arith) ∙ first_next ws h.2 once.0) (
        Dlist-append (some x) (f x).s_next ws h.2 once.1 (λ v i. next v (ground (arith, i)))
          (λ v i. prev v (ground (arith, i))) back end),
  )
    where
      first_next :
          (us : List ℕ)
          → Dlist f (some x) (f x).s_next us
          → has x us ≡ false
          → (if same (last_of (some x) us) (some x) then some w else (f x).s_next)
            ≡ head_or us (some w) (f x).s_next
      first_next [] d out = ground arith
      first_next (y ∷ us) d out = rw (last_of-apart x y us out) refl
