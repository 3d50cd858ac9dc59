-- ===== src/Support/P1/Pages.antt =====
-- The pages of segment 0 for the handlers of a terminal process, in p1 of support/part1/support.c.
use hoca_operating_system.Prelude.{
  ℕ, ◌+◌, ◌/◌, ◌≤◌, ◌↔◌, Bool, true, false, ◌||◌, ◌≡◌, refl, arith, if◌then◌else◌, ◌==◌, inl, inr,
  Bool-cases, true_false,
}
use hoca_operating_system.Support.State.{Pd, Linked, Frames}
use hoca_operating_system.Support.PageInit.{is_program_page, is_device_page, layout, in_pages}
use hoca_operating_system.Support.P1.{absent_at}

-- The pages that the handlers of terminal process `i` reach: page 2, the text, the data and the bss
-- of the program, the device registers at 0x1400 to 0x1600, and the stacks of its own two handlers.
pub data Mapped (l : Linked) (i j : ℕ) : Type 0 where
  page_two : j ≡ 2 → Mapped l i j
  text : l.startt1 / 512 ≤ j → j ≤ l.etext / 512 → Mapped l i j
  initialized : l.startd1 / 512 ≤ j → j ≤ l.edata / 512 → Mapped l i j
  bss : l.startb1 / 512 ≤ j → j ≤ l.end_of_bss / 512 → Mapped l i j
  registers : 10 ≤ j → j ≤ 11 → Mapped l i j
  sys_stack : j ≡ l.end_of_bss / 512 + 2 + i → Mapped l i j
  mm_stack : j ≡ l.end_of_bss / 512 + 7 + i → Mapped l i j

abbrev pub is_mapped : Linked → Frames → ℕ → ℕ → Bool
is_mapped l f i j =
    is_program_page l j || (is_device_page j || ((j == f.tsysframe i) || (j == f.tmmframe i)))

pub Mapped-is_mapped :
    (l : Linked) (i j : ℕ) → Mapped l i j → is_mapped l (layout (l.end_of_bss / 512)) i j ≡ true
Mapped-is_mapped l i j (page_two e) = ground (arith, e)
Mapped-is_mapped l i j (text low high) = ground (arith, low, high)
Mapped-is_mapped l i j (initialized low high) = ground (arith, low, high)
Mapped-is_mapped l i j (bss low high) = ground (arith, low, high)
Mapped-is_mapped l i j (registers low high) = ground (arith, low, high)
Mapped-is_mapped l i j (sys_stack e) = ground (arith, e)
Mapped-is_mapped l i j (mm_stack e) = ground (arith, e)

pub is_mapped-Mapped :
    (l : Linked) (i j : ℕ) → is_mapped l (layout (l.end_of_bss / 512)) i j ≡ true → Mapped l i j
is_mapped-Mapped l i j h = elim (Bool-cases (j == 2)) [
  | inl two ↦ page_two (ground (arith, two))
  | inr a ↦ elim (Bool-cases (in_pages j l.startt1 l.etext)) [
    | inl in_text ↦ text (ground (arith, in_text)) (ground (arith, in_text))
    | inr b ↦ elim (Bool-cases (in_pages j l.startd1 l.edata)) [
      | inl in_data ↦ initialized (ground (arith, in_data)) (ground (arith, in_data))
      | inr c ↦ elim (Bool-cases (in_pages j l.startb1 l.end_of_bss)) [
        | inl in_bss ↦ bss (ground (arith, in_bss)) (ground (arith, in_bss))
        | inr d ↦ beyond (rw (a, b, c, d) at h)
      ]
    ]
  ]
]
  where
    beyond :
        (is_device_page j
            || ((j == l.end_of_bss / 512 + 2 + i) || (j == l.end_of_bss / 512 + 7 + i)))
          ≡ true
        → Mapped l i j
    beyond h = elim (Bool-cases (is_device_page j)) [
      | inl device ↦ registers (ground (arith, device)) (ground (arith, device))
      | inr e ↦ elim (Bool-cases (j == l.end_of_bss / 512 + 2 + i)) [
        | inl sys ↦ sys_stack (ground (arith, sys))
        | inr g ↦ mm_stack (ground (arith, h, e, g))
      ]
    ]

-- What an entry holds, by the test that it is made with.
pub entry_bits :
    (j : ℕ) (b : Bool)
    → (let d : Pd = if b then record { pd_p = 1; pd_r = 1; pd_frame = j } else absent_at j in
        (d.pd_frame ≡ j) × (d.pd_r ≡ 1) × (d.pd_p ≤ 1) × ((d.pd_p ≡ 1) ↔ (b ≡ true)))
entry_bits j true = (refl, refl, omega arith, (λ e. refl, λ e. refl))
entry_bits j false =
    (refl, refl, omega arith, (λ e. absurd (omega (arith, e)), λ e. true_false e refl))
