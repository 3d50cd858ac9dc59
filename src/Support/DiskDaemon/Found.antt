-- ===== src/Support/DiskDaemon/Found.antt =====
-- diskdaemon of support/part2/slsyscall2.c: one of the two directions has a request.
use hoca_operating_system.Prelude.{
  ℕ, zero, suc, ◌+◌, ◌*◌, ◌-◌, ◌<◌, ◌≤◌, true, false, ◌≡◌, ◌⊎◌, refl, sym, subst, ap, inl, inr, ℤ,
  pos, negsuc, is_neg, lt_int, leb, Bool-cases, true_false, arith, if◌then◌else◌, add32, sub32,
  same_int,
}
use hoca_operating_system.Machine.{maxproc}
use hoca_operating_system.Support.State.{Support}
use hoca_operating_system.Support.DiskDaemon.{
  times8, distance, is_waiting, tasker_helper, choose, turn,
}
use hoca_operating_system.Support.DiskDaemon.Nearest.{tasker_helper-Best}

ahead_value :
    (a c b d : ℕ)
    → a < 100
    → b < 100
    → c < 8
    → d < 8
    → b * 8 + d ≤ a * 8 + c
    → sub32 (add32 (times8 (sub32 (pos a) (pos b))) (pos c)) (pos d) ≡ pos (a * 8 + c - (b * 8 + d))
ahead_value a c b d h i j k l = ground arith

-- A sector of the disk.
pub record OnDisk (track sector : ℤ) : Type 0 where
  pub track_no : ℕ
  pub sector_no : ℕ
  pub track_is : track ≡ pos track_no
  pub sector_is : sector ≡ pos sector_no
  pub track_small : track_no < 100
  pub sector_small : sector_no < 8

-- Of two sectors, one lies ahead of the other: in direction 0 or in the other one.
ahead_in :
    (track sector t c : ℤ)
    → OnDisk track sector
    → OnDisk t c
    → ((v : ℕ) × ((sub32 (add32 (times8 (sub32 t track)) c) sector ≡ pos v) × (v < 10000)))
      ⊎ ((v : ℕ) × ((sub32 (add32 (times8 (sub32 track t)) sector) c ≡ pos v) × (v < 10000)))
ahead_in track sector t c here there =
    let b = here.track_no in
    let d = here.sector_no in
    let a = there.track_no in
    let e = there.sector_no in
    rw (here.track_is, here.sector_is, there.track_is, there.sector_is)
      (elim (Bool-cases (leb (b * 8 + d) (a * 8 + e))) [
        | inl up ↦ inl (
          a * 8 + e - (b * 8 + d),
          (
            ahead_value a e b d there.track_small here.track_small there.sector_small
                here.sector_small (ground arith),
            omega (arith, there.track_small, there.sector_small),
          ),
        )
        | inr down ↦ inr (
          b * 8 + d - (a * 8 + e),
          (
            ahead_value b d a e here.track_small there.track_small here.sector_small
                there.sector_small (ground arith),
            omega (arith, here.track_small, here.sector_small),
          ),
        )
      ])

-- A request ahead in a direction is found in it.
found_ahead :
    (track sector : ℤ) (dir : ℕ) (s : Support) (j v : ℕ)
    → j < maxproc
    → is_waiting s j ≡ true
    → distance track sector dir s j ≡ pos v
    → v < 10000
    → is_neg (tasker_helper track sector dir s) ≡ false
found_ahead track sector dir s j v small waits far near =
    let (least, b) = tasker_helper-Best track sector dir s in
    elim b.found [
      | inr (r, (e, c)) ↦ subst (λ x. is_neg x ≡ false) (sym e) refl
      | inl e ↦
          let out : lt_int (pos v) (pos 10000) ≡ false =
            subst (λ (x : ℤ × ℤ). lt_int (pos v) x.1 ≡ false) e
              (subst (λ x. lt_int x least ≡ false) far
                (b.bound j small (waits, subst (λ x. is_neg x ≡ false) (sym far) refl))) in
          absurd (ground (arith, out))
    ]

choose_first :
    (track sector : ℤ) (dir : ℕ) (s : Support)
    → is_neg (tasker_helper track sector dir s) ≡ false
    → is_neg (choose track sector dir s).0 ≡ false
unfolding choose
choose_first track sector dir s h = go (tasker_helper track sector dir s) h
  where
    go :
        (x : ℤ)
        → is_neg x ≡ false
        → is_neg
            (if◌then◌else◌ {A = ℤ × ℕ}
              (same_int x (negsuc 0))
              (tasker_helper track sector (turn dir) s, turn dir)
              (x, dir)).0
          ≡ false
    go (pos n) e = refl
    go (negsuc n) e = true_false refl e

choose_second :
    (track sector : ℤ) (dir : ℕ) (s : Support)
    → is_neg (tasker_helper track sector (turn dir) s) ≡ false
    → is_neg (choose track sector dir s).0 ≡ false
unfolding choose
choose_second track sector dir s h =
    let (least, b) = tasker_helper-Best track sector dir s in
    elim b.found [
      | inr (r, (e, c)) ↦
          choose_first track sector dir s (subst (λ x. is_neg x ≡ false) (sym e) refl)
      | inl e ↦ rw (ap (λ (x : ℤ × ℤ). x.0) e) h
    ]

-- When a request for a sector of the disk waits, and the arm stands at a sector of the disk, the
-- daemon's two searches find a request: it never goes on with the index -1.
pub choose-found :
    (track sector : ℤ) (dir : ℕ) (s : Support) (j : ℕ)
    → j < maxproc
    → is_waiting s j ≡ true
    → OnDisk track sector
    → OnDisk (s.ds_arr j).track (s.ds_arr j).sector
    → is_neg (choose track sector dir s).0 ≡ false
unfolding distance
choose-found track sector zero s j small waits here there =
    elim (ahead_in track sector (s.ds_arr j).track (s.ds_arr j).sector here there) [
      | inl (v, (e, n)) ↦
          choose_first track sector 0 s (found_ahead track sector 0 s j v small waits e n)
      | inr (v, (e, n)) ↦
          choose_second track sector 0 s (found_ahead track sector 1 s j v small waits e n)
    ]
choose-found track sector (suc dir) s j small waits here there =
    elim (ahead_in track sector (s.ds_arr j).track (s.ds_arr j).sector here there) [
      | inl (v, (e, n)) ↦
          choose_second track sector (suc dir) s (found_ahead track sector 0 s j v small waits e n)
      | inr (v, (e, n)) ↦
          choose_first track sector (suc dir) s
            (found_ahead track sector (suc dir) s j v small waits e n)
    ]
