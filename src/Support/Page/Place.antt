-- ===== src/Support/Page/Place.antt =====
-- get_disk_pos of support/part2/page.c: the place on the disk that a page gets.
use hoca_operating_system.Prelude.{
  ℕ, zero, suc, ◌+◌, ◌*◌, ◌<◌, ◌≤◌, ◌≡◌, subst, true, false, Bool, inl, inr, none, some, pos,
  negsuc, same_int, FirstHit, hit, miss, first_hit-FirstHit, first_hit, arith, update, Option,
  Bool-cases, ◌==◌, ℤ,
}
use hoca_operating_system.Support.State.{Support}
use hoca_operating_system.Support.Page.{free_sector, free_position, get_disk_pos, mark_sector}

-- The first free position on `n` tracks from `at` on, or none when all are used.
data FirstPlace (disk : ℕ → ℕ → ℤ) (n at : ℕ) : Option (ℕ × ℕ) → Type 0 where
  found :
      (i j : ℕ)
      → at ≤ i
      → i < at + n
      → j < 8
      → same_int (disk i j) (negsuc 0) ≡ true
      → ((k l : ℕ)
          → at ≤ k
          → l < 8
          → k * 8 + l < i * 8 + j
          → same_int (disk k l) (negsuc 0) ≡ false)
      → FirstPlace disk n at (some (i, j))
  used_up :
      ((k l : ℕ) → at ≤ k → k < at + n → l < 8 → same_int (disk k l) (negsuc 0) ≡ false)
      → FirstPlace disk n at none

module _ (disk : ℕ → ℕ → ℤ) where
  -- A track with no free sector goes before the search of the tracks after it.
  FirstPlace-next :
      {n at : ℕ} {o : Option (ℕ × ℕ)}
      → ((l : ℕ) → l < 8 → same_int (disk at l) (negsuc 0) ≡ false)
      → FirstPlace disk n (at + 1) o
      → FirstPlace disk (suc n) at o
  FirstPlace-next {n} {at} used (found i j low high small free earlier) =
      found i j (omega arith) (omega (arith, high)) small free (λ k l from within before.
        elim (Bool-cases (k == at)) [
          | inl here ↦
              let e : at ≡ k = ground arith in
              subst (λ x. same_int (disk x l) (negsuc 0) ≡ false) e (used l within)
          | inr later ↦ earlier k l (ground arith) within before
        ])
  FirstPlace-next {n} {at} used (used_up rest) = used_up (λ k l from below within.
      elim (Bool-cases (k == at)) [
        | inl here ↦
            let e : at ≡ k = ground arith in
            subst (λ x. same_int (disk x l) (negsuc 0) ≡ false) e (used l within)
        | inr later ↦ rest k l (ground arith) (omega (arith, below)) within
      ])

  free_position-FirstPlace : (n at : ℕ) → FirstPlace disk n at (free_position n at disk)
  unfolding free_position free_sector
  free_position-FirstPlace zero at = used_up (λ k l from below within. absurd (omega arith))
  free_position-FirstPlace (suc n) at =
      go (free_position-FirstPlace n (at + 1)) (first_hit 8 0 test) (first_hit-FirstHit test 8 0)
    where
      test : ℕ → Bool
      test l = same_int (disk at l) (negsuc 0)

      go :
          FirstPlace disk n (at + 1) (free_position n (at + 1) disk)
          → (o : Option ℕ) → FirstHit test 8 0 o
          → FirstPlace disk
              (suc n)
              at
              (elim o [ none ↦ free_position n (at + 1) disk | some j ↦ some (at, j) ])
      go rest _ (hit j low high free below) =
          found at j (omega arith) (omega arith) high free (λ k l from within before.
            let e : at ≡ k = omega arith in
            subst (λ x. same_int (disk x l) (negsuc 0) ≡ false) e
              (below l (omega arith) (omega arith)))
      go rest _ (miss used) = FirstPlace-next (λ l within. used l (omega arith) within) rest

-- How get_disk_pos ends: with the first position that is free, in the order of `track * 8 + sector`, or
-- without a value.
pub data Placed (s : Support) : Option (ℕ × ℕ) × Support → Type 0 where
  placed :
      (i j : ℕ)
      → i * 8 + j < 800
      → j < 8
      → same_int (s.disk i j) (negsuc 0) ≡ true
      → ((k l : ℕ) → l < 8 → k * 8 + l < i * 8 + j → same_int (s.disk k l) (negsuc 0) ≡ false)
      → Placed s (some (i, j), record s { disk = update s.disk i (update (s.disk i) j (pos 1)) })
  full :
      ((k l : ℕ) → k < 100 → l < 8 → same_int (s.disk k l) (negsuc 0) ≡ false) → Placed s (none, s)

-- get_disk_pos takes the free position with the least number `track * 8 + sector`, which is below 800,
-- with the sector below 8, and marks it and no other as used; only when all 800 positions of the disk
-- are used does it end without a value, and then it changes nothing.
pub get_disk_pos-Placed : (s : Support) → Placed s (get_disk_pos s)
unfolding get_disk_pos
get_disk_pos-Placed s = go (free_position 100 0 s.disk) (free_position-FirstPlace s.disk 100 0)
  where
    go :
        (o : Option (ℕ × ℕ))
        → FirstPlace s.disk 100 0 o
        → Placed s
            (elim o [ none ↦ (none, s) | some (i, j) ↦ (some (i, j), mark_sector i j (pos 1) s) ])
    go _ (found i j low high small free earlier) =
        placed i j (omega arith) small free
          (λ k l within before. earlier k l (omega arith) within before)
    go _ (used_up rest) = full (λ k l below within. rest k l (omega arith) below within)
