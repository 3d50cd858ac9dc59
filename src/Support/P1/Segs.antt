-- ===== src/Support/P1/Segs.antt =====
-- The segments of a terminal process in the loop of p1 of support/part1/support.c.
use hoca_operating_system.Prelude.{
  ℕ, ◌<◌, true, pos, ◌&&◌, ◌||◌, ◌≡◌, refl, ◌∙◌, ap, arith, if◌then◌else◌, ◌==◌, leb, ltb,
  count_up-each, update,
}
use hoca_operating_system.Support.State.{Support, MmTable, modify_mm}
use hoca_operating_system.Support.P1.{
  set_unprivileged_seg, set_privileged_seg, absent_segs, clear_delay,
}

-- The presence bits of segment `k` of terminal process `i`.
abbrev pub open_bit : ℕ → Support → ℕ → ℕ
open_bit i u k = ((u.mm i).unprivileged_seg k).sd_p

abbrev pub closed_bit : ℕ → Support → ℕ → ℕ
closed_bit i u k = ((u.mm i).privileged_seg k).sd_p

pub row-same : {A : Type 0} (g : ℕ → A) (i : ℕ) (v : A) → update g i v i ≡ v
row-same g i v = rw (same_index i) refl
  where
    same_index : (i : ℕ) → (i == i) ≡ true
    same_index i = ground arith

absent_segs-open_bit :
    (i k : ℕ) (s : Support)
    → open_bit i (absent_segs i s) k ≡ (if leb 3 k && ltb k 32 then 0 else open_bit i s k)
unfolding absent_segs
absent_segs-open_bit i k s =
    count_up-each _ (open_bit i) (λ _ _. 0) (λ _. Unit {0}) (λ _ _ h. h)
      (λ j u n h.
        ap (λ (m : MmTable). (m.unprivileged_seg n).sd_p) (row-same u.mm i _) ∙ ground arith)
      29 3 s tt k

absent_segs-closed_bit :
    (i k : ℕ) (s : Support)
    → closed_bit i (absent_segs i s) k ≡ (if leb 3 k && ltb k 32 then 0 else closed_bit i s k)
unfolding absent_segs
absent_segs-closed_bit i k s =
    count_up-each _ (closed_bit i) (λ _ _. 0) (λ _. Unit {0}) (λ _ _ h. h)
      (λ j u n h.
        ap (λ (m : MmTable). (m.privileged_seg n).sd_p) (row-same u.mm i _) ∙ ground arith)
      29 3 s tt k

-- `set_unprivileged_seg`, `set_privileged_seg` and the presence bits.
unprivileged-open :
    (i g k : ℕ) (u : Support)
    → open_bit i (set_unprivileged_seg i g u) k ≡ (if k == g then 1 else open_bit i u k)
unfolding set_unprivileged_seg
unprivileged-open i g k u =
    ap (λ (m : MmTable). (m.unprivileged_seg k).sd_p) (row-same u.mm i _) ∙ ground arith

unprivileged-closed :
    (i g k : ℕ) (u : Support) → closed_bit i (set_unprivileged_seg i g u) k ≡ closed_bit i u k
unfolding set_unprivileged_seg
unprivileged-closed i g k u = ap (λ (m : MmTable). (m.privileged_seg k).sd_p) (row-same u.mm i _)

privileged-open :
    (i g k : ℕ) (u : Support) → open_bit i (set_privileged_seg i g u) k ≡ open_bit i u k
unfolding set_privileged_seg
privileged-open i g k u = ap (λ (m : MmTable). (m.unprivileged_seg k).sd_p) (row-same u.mm i _)

privileged-closed :
    (i g k : ℕ) (u : Support)
    → closed_bit i (set_privileged_seg i g u) k ≡ (if k == g then 1 else closed_bit i u k)
unfolding set_privileged_seg
privileged-closed i g k u =
    ap (λ (m : MmTable). (m.privileged_seg k).sd_p) (row-same u.mm i _) ∙ ground arith

-- What the loops over the pages of terminal process `i` leave alone.
abbrev pub Bits : ℕ → ℕ → ℕ → ℕ → Support → Type 0
Bits i k a b u = (open_bit i u k ≡ a) × (closed_bit i u k ≡ b)

-- The terminal's delay is cleared and segment 0 closed to it.
abbrev pub closed_start : ℕ → Support → Support
closed_start i s =
    modify_mm i
      (λ m. record m {
        unprivileged_seg = update m.unprivileged_seg 0 (record (m.unprivileged_seg 0) { sd_p = 0 });
      })
      (record s {
        d_sem = update s.d_sem i (record { d_time = pos 0; delay_start = pos 0 });
        value = λ x. clear_delay i x (s.value x);
      })

pub closed_start-open : (i : ℕ) (s : Support) → open_bit i (closed_start i s) 0 ≡ 0
closed_start-open i s = ap (λ (m : MmTable). (m.unprivileged_seg 0).sd_p) (row-same s.mm i _)

-- The segments before the loop over 3 to 31.
abbrev pub first_segs : ℕ → Support → Support
first_segs i s = set_privileged_seg i 2 (
    set_privileged_seg i 1
      (set_privileged_seg i 0 (set_unprivileged_seg i 2 (set_unprivileged_seg i 1 s))))

first_segs-open :
    (i k : ℕ) (s : Support)
    → open_bit i (first_segs i s) k ≡ (if k == 2 then 1 else if k == 1 then 1 else open_bit i s k)
first_segs-open i k s =
    rw
      (
        privileged-open i 2 k,
        privileged-open i 1 k,
        privileged-open i 0 k,
        unprivileged-open i 2 k,
        unprivileged-open i 1 k s,
      )
      refl

first_segs-closed :
    (i k : ℕ) (s : Support)
    → closed_bit i (first_segs i s) k
      ≡ (if k == 2 then 1 else if k == 1 then 1 else if k == 0 then 1 else closed_bit i s k)
first_segs-closed i k s =
    rw
      (
        privileged-closed i 2 k,
        privileged-closed i 1 k,
        privileged-closed i 0 k,
        unprivileged-closed i 2 k,
        unprivileged-closed i 1 k s,
      )
      refl

pub segs-Bits :
    (i k : ℕ) (s : Support)
    → k < 32
    → open_bit i s 0 ≡ 0
    → Bits i k
        (if k == 1 || k == 2 then 1 else 0)
        (if ltb k 3 then 1 else 0)
        (absent_segs i (first_segs i s))
segs-Bits i k s seg closed = (
  absent_segs-open_bit i k (first_segs i s)
      ∙ rw (first_segs-open i k s) (by_number (open_bit i s) closed),
  absent_segs-closed_bit i k (first_segs i s) ∙ rw (first_segs-closed i k s) (ground (arith, seg)),
)
  where
    by_number :
        (bit : ℕ → ℕ)
        → bit 0 ≡ 0
        → (if leb 3 k && ltb k 32 then 0 else if k == 2 then 1 else if k == 1 then 1 else bit k)
          ≡ (if k == 1 || k == 2 then 1 else 0)
    by_number bit e = ground (arith, seg, e)
