-- ===== src/Support/DiskDaemon/Nearest.antt =====
-- tasker_helper of support/part2/slsyscall2.c: which request it takes.
use hoca_operating_system.Prelude.{
  ℕ, zero, suc, ◌+◌, ◌<◌, Bool, true, false, ◌&&◌, not, ◌≡◌, refl, sym, subst, ◌⊎◌, inl, inr, ℤ,
  pos, negsuc, is_neg, lt_int, ◌==◌, Bool-cases, true_false, arith, if◌then◌else◌,
}
use hoca_operating_system.Machine.{maxproc}
use hoca_operating_system.Support.State.{Support}
use hoca_operating_system.Support.DiskDaemon.{nearer, nearest, distance, is_waiting, tasker_helper}

-- A request waits, and does not lie behind the position.
abbrev pub Ahead : (ℕ → Bool) → (ℕ → ℤ) → ℕ → Type 0
Ahead waits far j = (waits j ≡ true) × (is_neg (far j) ≡ false)

-- Request `r` is ahead, below `k`, at the distance `least`, which is in bounds.
pub record Chosen (waits : ℕ → Bool) (far : ℕ → ℤ) (k r : ℕ) (least : ℤ) : Type 0 where
  pub below : r < k
  pub ahead : Ahead waits far r
  pub is_least : least ≡ far r
  pub in_bounds : lt_int least (pos 10000) ≡ true

-- `rv` is a chosen request, or it is -1 and `least` is the bound that the search starts from; no
-- request below `k` that is ahead is nearer than `least`.
pub record Best (waits : ℕ → Bool) (far : ℕ → ℤ) (k : ℕ) (best : ℤ × ℤ) : Type 0 where
  pub found :
      (best ≡ (negsuc 0, pos 10000)) ⊎ ((r : ℕ) × ((best.0 ≡ pos r) × Chosen waits far k r best.1))
  pub bound : (j : ℕ) → j < k → Ahead waits far j → lt_int (far j) best.1 ≡ false

lt_int_trans : (a b c : ℤ) → lt_int a b ≡ true → lt_int b c ≡ true → lt_int a c ≡ true
lt_int_trans (pos a) (pos b) (pos c) h i = ground arith
lt_int_trans (pos a) (pos b) (negsuc c) h i = i
lt_int_trans (pos a) (negsuc b) c h i = true_false h refl
lt_int_trans (negsuc a) (pos b) (negsuc c) h i = true_false i refl
lt_int_trans (negsuc a) (negsuc b) (negsuc c) h i = ground arith
lt_int_trans (negsuc a) b (pos c) h i = refl

lt_int_irrefl : (a : ℤ) → lt_int a a ≡ false
lt_int_irrefl (pos a) = ground arith
lt_int_irrefl (negsuc a) = ground arith

module _ {waits : ℕ → Bool} {far : ℕ → ℤ} where
  Best-small :
      (k : ℕ) (best : ℤ × ℤ)
      → Best waits far k best
      → (x : ℤ) → lt_int x best.1 ≡ true
      → lt_int x (pos 10000) ≡ true
  Best-small k best b x l = elim b.found [
    | inl e ↦ subst (λ (y : ℤ × ℤ). lt_int x y.1 ≡ true) e l
    | inr (r, (e, c)) ↦ lt_int_trans x best.1 (pos 10000) l c.in_bounds
  ]

  nearer-Best :
      (k : ℕ) (best : ℤ × ℤ)
      → Best waits far k best
      → Ahead waits far k
      → lt_int (far k) best.1 ≡ true
      → Best waits far (k + 1) (pos k, far k)
  nearer-Best k best b a l = record {
    found = inr (
      k,
      (
        refl,
        record {
          below = omega arith;
          ahead = a;
          is_least = refl;
          in_bounds = Best-small k best b (far k) l;
        },
      ),
    );
    bound = λ j small ahead. elim (Bool-cases (lt_int (far j) (far k))) [
      | inr out ↦ out
      | inl near ↦ elim (Bool-cases (j == k)) [
        | inl hit ↦
            let e : j ≡ k = ground arith in
            subst (λ x. lt_int (far x) (far k) ≡ false) (sym e) (lt_int_irrefl (far k))
        | inr other ↦
            true_false (lt_int_trans (far j) (far k) best.1 near l) (b.bound j (ground arith) ahead)
      ]
    ];
  }

  farther-Best :
      (k : ℕ) (best : ℤ × ℤ)
      → Best waits far k best
      → (Ahead waits far k → lt_int (far k) best.1 ≡ false)
      → Best waits far (k + 1) best
  farther-Best k best b behind = record {
    found = elim b.found [
      | inl start ↦ inl start
      | inr (r, (e, c)) ↦ inr (
        r,
        (
          e,
          record {
            below = omega (arith, c.below);
            ahead = c.ahead;
            is_least = c.is_least;
            in_bounds = c.in_bounds;
          },
        ),
      )
    ];
    bound = λ j small ahead. elim (Bool-cases (j == k)) [
      | inl hit ↦
          let e : j ≡ k = ground arith in
          subst (λ x. lt_int (far x) best.1 ≡ false) (sym e)
            (behind (subst (Ahead waits far) e ahead))
      | inr other ↦ b.bound j (ground arith) ahead
    ];
  }

  nearer-step :
      (k : ℕ) (best : ℤ × ℤ)
      → Best waits far k best
      → (w n l : Bool) → waits k ≡ w
      → is_neg (far k) ≡ n
      → lt_int (far k) best.1 ≡ l
      → Best waits far (k + 1) (if w && (not n && l) then (pos k, far k) else best)
  nearer-step k best b false n l ew en el = farther-Best k best b (λ a. true_false a.0 ew)
  nearer-step k best b true true l ew en el = farther-Best k best b (λ a. true_false en a.1)
  nearer-step k best b true false false ew en el = farther-Best k best b (λ a. el)
  nearer-step k best b true false true ew en el = nearer-Best k best b (ew, en) el

  nearest-Best :
      (n k : ℕ) (best : ℤ × ℤ)
      → Best waits far k best
      → Best waits far (n + k) (nearest n k waits far best)
  unfolding nearest
  nearest-Best zero k best b =
      subst (λ m. Best waits far m (nearest 0 k waits far best)) (omega arith) b
  nearest-Best (suc n) k (rv, least) b =
      let next = nearer (waits k) (far k) k (rv, least) in
      let step =
        nearer-step k (rv, least) b (waits k) (is_neg (far k)) (lt_int (far k) least) refl refl
          refl in
      subst (λ m. Best waits far m (nearest n (k + 1) waits far next)) (omega arith)
        (nearest-Best n (k + 1) next step)

-- tasker_helper gives a waiting request that does not lie behind the position of the disk arm in
-- the given direction and is the nearest of those, or -1 when no waiting request lies ahead
-- at a distance below 10000.
pub tasker_helper-Best :
    (track sector : ℤ) (dir : ℕ) (s : Support)
    → (least : ℤ) × Best
        (is_waiting s)
        (distance track sector dir s)
        maxproc
        (tasker_helper track sector dir s, least)
unfolding tasker_helper
tasker_helper-Best track sector dir s =
    let far = distance track sector dir s in
    (
      (nearest maxproc 0 (is_waiting s) far (negsuc 0, pos 10000)).1,
      nearest-Best maxproc 0 (negsuc 0, pos 10000)
          (record { found = inl refl; bound = λ j small ahead. absurd (omega arith) }),
    )
