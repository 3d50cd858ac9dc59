-- ===== src/Syscall/Siblings.antt =====
-- The children of a process in nucleus/traps/syscall.c: a list linked by brother, of which only the last
-- one has its parent set.
use hoca_operating_system.Prelude.{
  ℕ, zero, suc, ◌≤◌, Bool, true, false, ◌≡◌, refl, subst, ap, ◌∙◌, none, some, List, [], ◌∷◌, ◌++◌,
  arith, same, if◌then◌else◌, ◌==◌, length, ==_self,
}
use hoca_operating_system.Machine.{Ptr, Proc}
use hoca_operating_system.Run.{ok, Run, Cmd, pure}
use hoca_operating_system.Procq.Free.{has}
use hoca_operating_system.Asl.Lists.{NoDup, last_of, head_or, last_of-apart, has-append}
use hoca_operating_system.Kernel.{Kernel, entry}
use hoca_operating_system.Syscall.{find_parented, find_before}

-- The parent of a child that `cs` follow.
abbrev pub parent_before : ℕ → List ℕ → Ptr
parent_before up [] = some up
parent_before up (c ∷ cs) = none

-- From `o` the links brother lead through `cs` to ENULL; the last has the parent `up`.
abbrev pub Siblings : (ℕ → Proc) → Ptr → ℕ → List ℕ → Type 0
Siblings f o up [] = o ≡ none
Siblings f o up (c ∷ cs) =
    (o ≡ some c) × ((f c).parent ≡ parent_before up cs) × Siblings f (f c).brother up cs

-- The children of `up`.
abbrev pub Family : Kernel → ℕ → List ℕ → Type 0
Family k up cs = Siblings (entry k) (entry k up).child up cs

module _ (f g : ℕ → Proc) (up : ℕ) where
  -- A list is kept where the two links of its members are.
  pub Siblings-frame :
      (o : Ptr) (cs : List ℕ)
      → Siblings f o up cs
      → ((v : ℕ)
          → has v cs ≡ true
          → ((g v).parent ≡ (f v).parent) × ((g v).brother ≡ (f v).brother))
      → Siblings g o up cs
  Siblings-frame o [] h keep = h
  Siblings-frame o (c ∷ cs) h keep =
      let k = keep c (ground arith) in
      (
        h.0,
        k.0 ∙ h.1,
        rw k.1 (Siblings-frame (f c).brother cs h.2 (λ v i. keep v (ground (arith, i)))),
      )

  -- A new last one.
  pub Siblings-append :
      (w : ℕ) (o : Ptr) (cs : List ℕ)
      → Siblings f o up cs
      → NoDup cs
      → ((v : ℕ)
          → has v cs ≡ true
          → ((g v).parent ≡ (if same (last_of none cs) (some v) then none else (f v).parent))
            × ((g v).brother ≡ (if same (last_of none cs) (some v) then some w else (f v).brother)))
      → (g w).parent ≡ some up
      → (g w).brother ≡ none
      → Siblings g (head_or cs (some w) o) up (cs ++ w ∷ [])
  Siblings-append w o [] h once links its_parent its_brother = (refl, its_parent, its_brother)
  Siblings-append w o (c ∷ []) h once links its_parent its_brother =
      let k = links c (ground arith) in
      (h.0, k.0 ∙ ground arith, (k.1 ∙ ground arith, its_parent, its_brother))
  Siblings-append w o (c ∷ d ∷ cs) h once links its_parent its_brother =
      let k = links c (ground arith) in
      let apart = last_of-apart c d cs once.0 in
      (
        h.0,
        k.0 ∙ rw apart h.1,
        rw (k.1 ∙ ap (λ b. if b then some w else (f c).brother) apart) (
            Siblings-append w (f c).brother (d ∷ cs) h.2 once.1 (λ v i. links v (ground (arith, i)))
              its_parent its_brother),
      )

-- The walk to the one whose parent is set ends at the last one.
pub find_parented-last :
    (k : Kernel) (up n c : ℕ) (cs : List ℕ) (p : ℕ)
    → Siblings (entry k) (some c) up (c ∷ cs)
    → length (c ∷ cs) ≤ n
    → last_of (some c) cs ≡ some p
    → find_parented n (some c) k ≡ ok (some p) k
unfolding find_parented
find_parented-last k up zero c cs p h fuel e = absurd (omega (arith, fuel))
find_parented-last k up (suc n) c [] p h fuel e = rw h.1 (ap (λ o. ok o k) e)
find_parented-last k up (suc n) c (d ∷ cs) p h fuel e =
    rw (h.1, h.2.0) (find_parented-last k up n d cs p (refl, h.2.1, h.2.2) (omega (arith, fuel)) e)

find_before-step :
    (k : Kernel) (n cur x y : ℕ) (b : Bool)
    → (entry k x).brother ≡ some y
    → (y == cur) ≡ b
    → find_before (suc n) (some cur) (some x) k
      ≡ (if b then ok (some x) k else find_before n (some cur) (some y) k)
unfolding find_before
find_before-step k n cur x y b h e = rw h (
    subst
      (λ c. step (y == cur) ≡ (if c then ok (some x) k else find_before n (some cur) (some y) k)) e
      (self (y == cur)))
  where
    step : Bool → Run Kernel Ptr
    step c =
        elim c as (λ _. Cmd Kernel Ptr) [
          | true ↦ pure (some x)
          | false ↦ find_before n (some cur) (some y)
        ]
          k

    self : (c : Bool) → step c ≡ (if c then ok (some x) k else find_before n (some cur) (some y) k)
    self true = refl
    self false = refl

-- The walk to the one before a child ends at it.
pub find_before-last :
    (k : Kernel) (up n x : ℕ) (xs : List ℕ) (cur : ℕ) (ys : List ℕ) (p : ℕ)
    → Siblings (entry k) (some x) up (x ∷ xs ++ cur ∷ ys)
    → NoDup (x ∷ xs ++ cur ∷ ys)
    → length (x ∷ xs) ≤ n
    → last_of (some x) xs ≡ some p
    → find_before n (some cur) (some x) k ≡ ok (some p) k
find_before-last k up zero x xs cur ys p h once fuel e = absurd (omega (arith, fuel))
find_before-last k up (suc n) x [] cur ys p h once fuel e =
    find_before-step k n cur x cur true h.2.0 (==_self cur) ∙ ap (λ o. ok o k) e
find_before-last k up (suc n) x (y ∷ xs) cur ys p h once fuel e =
    find_before-step k n cur x y false h.2.0 (ground (arith, once.1.0, has-append y xs (cur ∷ ys)))
    ∙ find_before-last k up n y xs cur ys p (refl, h.2.1, h.2.2) once.1 (omega (arith, fuel)) e
