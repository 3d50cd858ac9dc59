-- ===== src/Support/P1/Tables.antt =====
-- The tables of the terminal processes after the loop of p1 in support/part1/support.c.
use hoca_operating_system.Prelude.{
  ℕ, ◌/◌, ◌≤◌, ◌↔◌, ◌<◌, true, false, ◌&&◌, ◌||◌, ◌≡◌, refl, ◌∙◌, ap, arith, if◌then◌else◌, ◌==◌,
  leb, ltb, count_up, count_up-each, count_up-keeps, count_up-all, update, inl, inr, Bool-cases,
  sym,
}
use hoca_operating_system.Support.State.{Support, MmTable, Pd, Linked, Frames, ter, modify_private}
use hoca_operating_system.Support.PageInit.{is_program_page, is_device_page, layout}
use hoca_operating_system.Support.P1.{
  terminal_entry, terminal_tables, set_unprivileged_seg, set_privileged_seg, absent_segs,
  absent_pages, privileged_pages, absent_at,
}
use hoca_operating_system.Support.P1.Segs.{
  open_bit, closed_bit, row-same, Bits, closed_start, closed_start-open, first_segs, segs-Bits,
}
use hoca_operating_system.Support.P1.Pages.{
  Mapped, is_mapped, Mapped-is_mapped, is_mapped-Mapped, entry_bits,
}

-- The entry of page `j` for terminal process `i`, by the program and the frames alone.
abbrev page_entry : Linked → Frames → ℕ → ℕ → Pd
page_entry l f i j =
    if is_program_page l j || (is_device_page j || ((j == f.tsysframe i) || (j == f.tmmframe i)))
    then record { pd_p = 1; pd_r = 1; pd_frame = j }
    else absent_at j

abbrev Fixed : Linked → Frames → Support → Type 0
Fixed l f s = (s.linked ≡ l) × (s.frames ≡ f)

privileged_pages-entry :
    (l : Linked) (f : Frames) (i j : ℕ) (s : Support)
    → Fixed l f s
    → j < 256
    → ((privileged_pages i s).mm i).privileged_page j ≡ page_entry l f i j
unfolding privileged_pages
privileged_pages-entry l f i j s h small =
    count_up-each _ (λ u n. (u.mm i).privileged_page n) (λ n _. page_entry l f i n) (Fixed l f)
      (λ _ _ h. h)
      (λ k u n g. ap (λ (m : MmTable). m.privileged_page n) (row-same u.mm i _) ∙ changed k u n g)
      256 0 s h j
    ∙ rw (in_range j small) refl
  where
    in_range : (j : ℕ) → j < 256 → (leb 0 j && ltb j 256) ≡ true
    in_range j small = ground (arith, small)

    changed :
        (k : ℕ) (u : Support) (n : ℕ)
        → Fixed l f u
        → update (u.mm i).privileged_page k (terminal_entry u i k) n
          ≡ (if n == k then page_entry l f i n else (u.mm i).privileged_page n)
    changed k u n g = elim (Bool-cases (n == k)) [
      | inl here ↦ let e : n ≡ k = ground arith in rw here (rw (g.0, g.1, e) refl)
      | inr apart ↦ rw apart refl
    ]

module _ (i k a b : ℕ) where
  private_page-Bits :
      (j : ℕ) (f : Pd → Pd) (u : Support) → Bits i k a b u → Bits i k a b (modify_private i j f u)
  private_page-Bits j f u h = (
    ap (λ (m : MmTable). (m.unprivileged_seg k).sd_p) (row-same u.mm i _) ∙ h.0,
    ap (λ (m : MmTable). (m.privileged_seg k).sd_p) (row-same u.mm i _) ∙ h.1,
  )

  absent_pages-Bits : (u : Support) → Bits i k a b u → Bits i k a b (absent_pages i u)
  unfolding absent_pages
  absent_pages-Bits =
      count_up-keeps _ (Bits i k a b)
        (λ j u h. private_page-Bits j (λ d. record d { pd_p = 0; pd_r = 1 }) u h) 32 0

  privileged_pages-Bits : (u : Support) → Bits i k a b u → Bits i k a b (privileged_pages i u)
  unfolding privileged_pages
  privileged_pages-Bits =
      count_up-keeps _ (Bits i k a b)
        (λ j u h. (
          ap (λ (m : MmTable). (m.unprivileged_seg k).sd_p) (row-same u.mm i _) ∙ h.0,
          ap (λ (m : MmTable). (m.privileged_seg k).sd_p) (row-same u.mm i _) ∙ h.1,
        ))
        256 0

-- The program and the frames stay, and so does the row of any other terminal process.
abbrev Beside : ℕ → Support → Support → Type 0
Beside r s u = Fixed s.linked s.frames u × (u.mm r ≡ s.mm r)

module _ (i r : ℕ) (apart : (r == i) ≡ false) (s : Support) where
  terminal_tables-Beside : Beside r s (terminal_tables i s)
  unfolding terminal_tables privileged_pages absent_pages absent_segs set_privileged_seg
      set_unprivileged_seg
  terminal_tables-Beside =
      count_up-keeps _ (Beside r s) (λ j u h. (h.0, rw apart h.1)) 256 0 _
        (count_up-keeps _ (Beside r s) (λ j u h. (h.0, rw apart h.1)) 32 0 _
          (count_up-keeps _ (Beside r s) (λ j u h. (h.0, rw apart h.1)) 29 3 _
            ((refl, refl), rw apart refl)))

module _ (l : Linked) (f : Frames) where
  first_segs-Fixed : (i : ℕ) (s : Support) → Fixed l f s → Fixed l f (first_segs i s)
  unfolding set_privileged_seg set_unprivileged_seg
  first_segs-Fixed i s h = h

  absent-Fixed : (i : ℕ) (s : Support) → Fixed l f s → Fixed l f (absent_pages i (absent_segs i s))
  unfolding absent_pages absent_segs
  absent-Fixed i s h =
      count_up-keeps _ (Fixed l f) (λ j u g. g) 32 0 _
        (count_up-keeps _ (Fixed l f) (λ j u g. g) 29 3 s h)

  terminal_tables-Fixed : (i : ℕ) (s : Support) → Fixed l f s → Fixed l f (terminal_tables i s)
  unfolding terminal_tables privileged_pages set_privileged_seg set_unprivileged_seg
  terminal_tables-Fixed i s h =
      count_up-keeps _ (Fixed l f) (λ j u g. g) 256 0 _ (absent-Fixed i _ h)

  module _ (k j : ℕ) (seg : k < 32) (page : j < 256) where
    -- The row of a terminal process: two segments for it, three for its handlers, and their pages.
    abbrev Row : ℕ → Support → Type 0
    Row i u =
        (open_bit i u k ≡ (if k == 1 || k == 2 then 1 else 0))
        × (closed_bit i u k ≡ (if ltb k 3 then 1 else 0))
        × ((u.mm i).privileged_page j ≡ page_entry l f i j)

    terminal_tables-Row : (i : ℕ) (s : Support) → Fixed l f s → Row i (terminal_tables i s)
    unfolding terminal_tables
    terminal_tables-Row i s h =
        let start = closed_start i s in
        let segs = absent_segs i (first_segs i start) in
        let bits =
          privileged_pages-Bits i k _ _ (absent_pages i segs)
            (absent_pages-Bits i k _ _ segs (segs-Bits i k start seg (closed_start-open i s))) in
        (
          bits.0,
          bits.1,
          privileged_pages-entry l f i j (absent_pages i segs)
              (absent-Fixed i (first_segs i start) (first_segs-Fixed i start h)) page,
        )

    terminal_tables-Row_other :
        (i r : ℕ) (s : Support) → (r == i) ≡ false → Row r s → Row r (terminal_tables i s)
    terminal_tables-Row_other i r s apart h =
        let same = terminal_tables-Beside i r apart s in
        (
          ap (λ (m : MmTable). (m.unprivileged_seg k).sd_p) same.1 ∙ h.0,
          ap (λ (m : MmTable). (m.privileged_seg k).sd_p) same.1 ∙ h.1,
          ap (λ (m : MmTable). m.privileged_page j) same.1 ∙ h.2,
        )

-- When the frames are laid out behind the program as pageinit does, then after the loop of p1 over the
-- terminals the segments 1 and 2 of every terminal process are present and none of its other
-- segments below 32; for its handlers segment 0 is present too; and in their segment 0 every page
-- below 256 stands at its own number, and exactly these are present: page 2, the text, the data and
-- the bss of the program, the device registers, and the stacks of that terminal's own two handlers.
pub terminal_tables-Mapped :
    (s : Support) (i k j : ℕ)
    → s.frames ≡ layout (s.linked.end_of_bss / 512)
    → i < ter
    → k < 32
    → j < 256
    → (let m : MmTable = (count_up ter 0 terminal_tables s).mm i in
        ((m.unprivileged_seg k).sd_p ≡ (if k == 1 || k == 2 then 1 else 0))
        × ((m.privileged_seg k).sd_p ≡ (if ltb k 3 then 1 else 0))
        × ((m.privileged_page j).pd_frame ≡ j)
        × ((m.privileged_page j).pd_r ≡ 1)
        × ((m.privileged_page j).pd_p ≤ 1)
        × (((m.privileged_page j).pd_p ≡ 1) ↔ Mapped s.linked i j))
terminal_tables-Mapped s i k j frames own seg page =
    let f : Frames = layout (s.linked.end_of_bss / 512) in
    let row =
      count_up-all terminal_tables (Fixed s.linked f) (Row s.linked f k j seg page)
        (terminal_tables-Fixed s.linked f)
        (λ t r u. terminal_tables-Row_other s.linked f k j seg page t r u)
        (terminal_tables-Row s.linked f k j seg page) ter 0 s (refl, frames) i (omega arith)
        (omega (arith, own)) in
    let bits = entry_bits j (is_mapped s.linked f i j) in
    (
      row.0,
      row.1,
      ap (λ (d : Pd). d.pd_frame) row.2 ∙ bits.0,
      ap (λ (d : Pd). d.pd_r) row.2 ∙ bits.1,
      rw row.2 bits.2,
      (
        λ e. is_mapped-Mapped s.linked i j (bits.3.0 (sym (ap (λ (d : Pd). d.pd_p) row.2) ∙ e)),
        λ e. ap (λ (d : Pd). d.pd_p) row.2 ∙ bits.3.1 (Mapped-is_mapped s.linked i j e),
      ),
    )
