-- ===== src/Asl/Shape.antt =====
-- The two lists of descriptors of queues/asl.c: active ones, each with a semaphore of its own, and free
-- ones.
use hoca_operating_system.Prelude.{
  ℕ, true, false, ◌≡◌, refl, subst, ap₂, ◌∙◌, inl, inr, same, if◌then◌else◌, Bool-cases, some, none,
  is_none, List, [], ◌∷◌, ◌++◌, arith,
}
use hoca_operating_system.Machine.{Addr, enull_link}
use hoca_operating_system.Procq.Free.{has}
use hoca_operating_system.Asl.{Semd, Sems}
use hoca_operating_system.Asl.Find.{is_sem, lookup}
use hoca_operating_system.Asl.Lists.{Dlist, NoDup, has-append}

-- Every descriptor of the list has a semaphore, and none of them has the one of another.
abbrev pub Named : (ℕ → Semd) → List ℕ → Type 0
Named f [] = Unit {0}
Named f (w ∷ ws) =
    (is_none (f w).sem_add ≡ false)
    × ((a : Addr) → is_sem f a w ≡ true → lookup f a ws ≡ none)
    × Named f ws

pub record Unused (d : Semd) : Type 0 where
  pub no_sem : d.sem_add ≡ none
  pub no_queue : d.s_link ≡ enull_link

pub record Shape (s : Sems) (ws fs : List ℕ) : Type 0 where
  pub active : Dlist s.semd none s.cur_sem ws
  pub free : Dlist s.semd none s.free_head_s fs
  pub once : NoDup ws
  pub once_free : NoDup fs
  pub apart : (v : ℕ) → has v ws ≡ true → has v fs ≡ false
  pub named : Named s.semd ws
  pub unused : (v : ℕ) → has v fs ≡ true → Unused (s.semd v)

pub has_self : (w : ℕ) (xs ys : List ℕ) → has w (xs ++ w ∷ ys) ≡ true
has_self w xs ys = ground (arith, has-append w xs (w ∷ ys))

-- The names of a list without one of its descriptors.
pub lookup_drop :
    (f : ℕ → Semd) (a : Addr) (xs : List ℕ) (w : ℕ) (ys : List ℕ)
    → lookup f a (xs ++ w ∷ ys) ≡ none
    → lookup f a (xs ++ ys) ≡ none
lookup_drop f a [] w ys h = elim (Bool-cases (is_sem f a w)) [
  | inl here ↦ absurd (ground (arith, (rw here at h)))
  | inr there ↦ rw there at h
]
lookup_drop f a (x ∷ xs) w ys h = elim (Bool-cases (is_sem f a x)) [
  | inl here ↦ absurd (ground (arith, (rw here at h)))
  | inr there ↦ rw there (lookup_drop f a xs w ys (rw there at h))
]

pub Named-drop :
    (f : ℕ → Semd) (xs : List ℕ) (w : ℕ) (ys : List ℕ) → Named f (xs ++ w ∷ ys) → Named f (xs ++ ys)
Named-drop f [] w ys h = h.2
Named-drop f (x ∷ xs) w ys h =
    (h.0, λ a i. lookup_drop f a xs w ys (h.1 a i), Named-drop f xs w ys h.2)

pub NoDup-drop : (xs : List ℕ) (w : ℕ) (ys : List ℕ) → NoDup (xs ++ w ∷ ys) → NoDup (xs ++ ys)
NoDup-drop [] w ys h = h.1
NoDup-drop (x ∷ xs) w ys h =
    (ground (arith, h.0, has-append x xs (w ∷ ys), has-append x xs ys), NoDup-drop xs w ys h.1)

pub NoDup-out :
    (xs : List ℕ) (w : ℕ) (ys : List ℕ) → NoDup (xs ++ w ∷ ys) → has w (xs ++ ys) ≡ false
NoDup-out [] w ys h = h.0
NoDup-out (x ∷ xs) w ys h = ground (arith, h.0, has-append x xs (w ∷ ys), NoDup-out xs w ys h.1)

pub NoDup-snoc : (xs : List ℕ) (w : ℕ) → NoDup xs → has w xs ≡ false → NoDup (xs ++ w ∷ [])
NoDup-snoc [] w h out = (refl, tt)
NoDup-snoc (x ∷ xs) w h out =
    (ground (arith, h.0, out, has-append x xs (w ∷ [])), NoDup-snoc xs w h.1 (ground (arith, out)))

pub lookup_on :
    (f g : ℕ → Semd) (a : Addr) (ws : List ℕ)
    → ((v : ℕ) → has v ws ≡ true → (g v).sem_add ≡ (f v).sem_add)
    → lookup g a ws ≡ lookup f a ws
lookup_on f g a [] e = refl
lookup_on f g a (w ∷ ws) e =
    ap₂ (λ x y. if same x (some a) then some w else y) (e w (ground arith))
      (lookup_on f g a ws (λ v i. e v (ground (arith, i))))

-- The names depend on sem_add alone.
pub Named-same :
    (f g : ℕ → Semd) (ws : List ℕ)
    → ((v : ℕ) → has v ws ≡ true → (g v).sem_add ≡ (f v).sem_add)
    → Named f ws
    → Named g ws
Named-same f g [] e h = tt
Named-same f g (w ∷ ws) e h =
    let here = e w (ground arith) in
    (
      rw here h.0,
      λ a i.
          lookup_on f g a ws (λ v j. e v (ground (arith, j)))
          ∙ h.1 a (subst (λ x. same x (some a) ≡ true) here i),
      Named-same f g ws (λ v i. e v (ground (arith, i))) h.2,
    )
