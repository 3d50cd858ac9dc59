-- ===== src/Prelude/Lists.antt =====
-- Lists measured by native numbers, and functions as arrays.
use Prim.Native.Nat.{ℕ, zero, suc, ◌+◌, ◌≤◌, ◌<◌}
use mathlib.Core.Path.{◌≡◌, subst, sym}
use mathlib.Core.Logic.{inl, inr}
use mathlib.Core.Bool.{Bool, true, false, ◌&&◌}
use mathlib.Core.Option.{Option, none, some}
use mathlib.Core.List.{List, [], ◌∷◌, ◌++◌}
use native.Mathlib.Omega.{arith}
use hoca_operating_system.Prelude.Tests.{◌==◌, leb, ltb, if◌then◌else◌, Bool-cases}

module _ {ℓ} {A : Type ℓ} where
  abbrev pub length : List A → ℕ
  length [] = 0
  length (x ∷ xs) = suc (length xs)

  -- `a[i] = v`
  abbrev pub update : (ℕ → A) → ℕ → A → ℕ → A
  update f i v j = if j == i then v else f j

  pub length-append : (xs ys : List A) → length (xs ++ ys) ≡ length xs + length ys
  length-append [] ys = omega arith
  length-append (x ∷ xs) ys = omega (arith, length-append xs ys)

-- A loop `for (k = first; …; k++)` with a fixed number of rounds left to make.
unfoldable pub count_up {ℓ} : {S : Type ℓ} (left first : ℕ) → (ℕ → S → S) → S → S
count_up zero first step = λ start. start
count_up (suc left) first step = λ start. count_up left (first + 1) step (step first start)

-- A loop keeps what each round keeps.
pub count_up-keeps :
    {S : Type 0} (step : ℕ → S → S) (Inv : S → Type 0)
    → ((k : ℕ) (s : S) → Inv s → Inv (step k s))
    → (left first : ℕ) (s : S) → Inv s
    → Inv (count_up left first step s)
unfolding count_up
count_up-keeps step Inv keeps zero first s inv = inv
count_up-keeps step Inv keeps (suc left) first s inv =
    count_up-keeps step Inv keeps left (first + 1) (step first s) (keeps first s inv)

-- A loop each of whose rounds changes the cell with its own index and keeps what the change depends on.
module _ {S V : Type 0} (step : ℕ → S → S) (get : S → ℕ → V) (val : ℕ → V → V) (Inv : S → Type 0)
    (keeps : (k : ℕ) (s : S) → Inv s → Inv (step k s))
    (one : (k : ℕ) (s : S) (j : ℕ)
      → Inv s
      → get (step k s) j ≡ (if j == k then val j (get s j) else get s j)) where
  pub count_up-each :
      (left first : ℕ) (s : S)
      → Inv s
      → (j : ℕ)
      → get (count_up left first step s) j
        ≡ (if leb first j && ltb j (first + left) then val j (get s j) else get s j)
  unfolding count_up
  count_up-each zero first s inv j = ground arith
  count_up-each (suc left) first s inv j = ground (
    arith,
    count_up-each left (first + 1) (step first s) (keeps first s inv) j,
    one first s j inv,
  )

-- A loop whose rounds each establish the property of their own index and keep those of the others.
module _ {S : Type 0} (step : ℕ → S → S) (Inv : S → Type 0) (Good : ℕ → S → Type 0)
    (keeps : (k : ℕ) (s : S) → Inv s → Inv (step k s))
    (other : (k j : ℕ) (s : S) → (j == k) ≡ false → Good j s → Good j (step k s)) where
  count_up-past :
      (left first j : ℕ) (s : S) → j < first → Good j s → Good j (count_up left first step s)
  unfolding count_up
  count_up-past zero first j s past good = good
  count_up-past (suc left) first j s past good =
      count_up-past left (first + 1) j (step first s) (omega (arith, past))
        (other first j s (ground (arith, past)) good)

  pub count_up-all :
      ((k : ℕ) (s : S) → Inv s → Good k (step k s))
      → (left first : ℕ) (s : S) → Inv s
      → (j : ℕ) → first ≤ j
      → j < first + left
      → Good j (count_up left first step s)
  unfolding count_up
  count_up-all own zero first s inv j low high = absurd (omega (arith, low, high))
  count_up-all own (suc left) first s inv j low high = elim (Bool-cases (j == first)) [
    | inl here ↦
        let e : first ≡ j = ground arith in
        count_up-past left (first + 1) j (step first s) (omega arith)
          (subst (λ x. Good x (step first s)) e (own first s inv))
    | inr later ↦
        count_up-all own left (first + 1) (step first s) (keeps first s inv) j (ground arith)
          (omega (arith, high))
  ]

-- A search loop that breaks at the first of `left` indices from `at` on that passes the test.
unfoldable pub first_hit : (left at : ℕ) → (ℕ → Bool) → Option ℕ
first_hit zero at test = none
first_hit (suc left) at test =
    let further = first_hit left (at + 1) test in if test at then some at else further

pub data FirstHit (test : ℕ → Bool) (left at : ℕ) : Option ℕ → Type 0 where
  hit :
      (j : ℕ)
      → at ≤ j
      → j < at + left
      → test j ≡ true
      → ((k : ℕ) → at ≤ k → k < j → test k ≡ false)
      → FirstHit test left at (some j)
  miss : ((k : ℕ) → at ≤ k → k < at + left → test k ≡ false) → FirstHit test left at none

module _ (test : ℕ → Bool) where
  -- A test that fails below and from `at + 1` on fails everywhere.
  from_next :
      {at top : ℕ}
      → test at ≡ false
      → ((k : ℕ) → at + 1 ≤ k → k < top → test k ≡ false)
      → (k : ℕ) → at ≤ k
      → k < top
      → test k ≡ false
  from_next {at} fails later k low high = elim (Bool-cases (k == at)) [
    | inl same ↦ let e : k ≡ at = ground arith in subst (λ x. test x ≡ false) (sym e) fails
    | inr other ↦ later k (ground arith) high
  ]

  FirstHit-next :
      {left at : ℕ} {o : Option ℕ}
      → test at ≡ false
      → FirstHit test left (at + 1) o
      → FirstHit test (suc left) at o
  FirstHit-next fails (hit j low high t below) =
      hit j (omega arith) (omega (arith, high)) t (from_next fails below)
  FirstHit-next {left} {at} fails (miss below) =
      miss (from_next fails (λ k low high. below k low (omega (arith, high))))

  pub first_hit-FirstHit : (left at : ℕ) → FirstHit test left at (first_hit left at test)
  unfolding first_hit
  first_hit-FirstHit zero at = miss (λ k low high. absurd (omega arith))
  first_hit-FirstHit (suc left) at = elim (Bool-cases (test at)) [
    | inl passes ↦
        rw passes (hit at (omega arith) (omega arith) passes (λ k low high. absurd (omega arith)))
    | inr fails ↦ rw fails (FirstHit-next fails (first_hit-FirstHit left (at + 1)))
  ]
