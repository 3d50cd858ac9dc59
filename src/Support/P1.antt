-- ===== src/Support/P1.antt =====
-- support/part1/support.c: p1, the first process, which sets up the tables and the first pages of
-- the terminal processes, and becomes the cron process.
pub mod Pages
pub mod Segs
pub mod Tables
use hoca_operating_system.Prelude.{
  ℕ, zero, suc, ◌+◌, ◌*◌, ◌%◌, ◌||◌, List, [], ◌∷◌, ℤ, pos, if◌then◌else◌, ◌==◌, ltb, bits, of_bits,
  update, count_up,
}
use hoca_operating_system.Support.State.{
  Support, Pd, p1a_table, shared_table, private_table, privileged_table, p1a_seg, p1a, Sem,
  cron_sem, sem_mm, delay_sem, ter, pagesize, modify_mm, modify_private, modify_shared,
}
use hoca_operating_system.Support.Prog.{Prog, done, ◌>>=◌, ◌>>◌, see, set, store_state, leave, ldst}
use hoca_operating_system.Support.Page.{get_free_frame}
use hoca_operating_system.Support.PageInit.{
  page_init, is_program_page, is_device_page, daemon_state,
}

abbrev pub absent_at : ℕ → Pd
absent_at n = record { pd_p = 0; pd_r = 1; pd_frame = n }

-- set_unprivileged_seg_present
unfoldable pub set_unprivileged_seg : ℕ → ℕ → Support → Support
set_unprivileged_seg num seg = modify_mm num (λ m. record m {
  unprivileged_seg = update m.unprivileged_seg seg (record {
    sd_p = 1;
    sd_prot = 7;
    sd_len = 31;
    sd_pta = if seg == 1 then private_table num else shared_table;
  });
})

-- set_privileged_seg_present: a segment other than 0, 1 and 2 keeps its table.
unfoldable pub set_privileged_seg : ℕ → ℕ → Support → Support
set_privileged_seg num seg = modify_mm num (λ m. record m {
  privileged_seg = update m.privileged_seg seg (record {
    sd_p = 1;
    sd_prot = 7;
    sd_len = if seg == 0 then 255 else 31;
    sd_pta =
        if seg == 2
        then shared_table
        else if seg == 0
        then privileged_table num
        else if seg == 1
        then private_table num
        else (m.privileged_seg seg).sd_pta;
  });
})

-- The page table of the cron process: the program's pages and its own stack are present.
abbrev pub p1a_entry : Support → ℕ → Pd
p1a_entry s i =
    if is_program_page s.linked i || (i == s.frames.scronframe)
    then record { pd_p = 1; pd_r = 1; pd_frame = i }
    else absent_at i

unfoldable pub p1a_tables : Support → Support
p1a_tables s = record s {
  p1a_segs = λ i.
      if i == 0
      then record { sd_p = 1; sd_prot = 7; sd_len = 255; sd_pta = p1a_table }
      else if ltb i 32
      then record (s.p1a_segs i) { sd_p = 0 }
      else s.p1a_segs i;
  p1a_page = λ i. if ltb i 256 then p1a_entry s i else s.p1a_page i;
}

-- The entry of page `j` in segment 0 of terminal process `i`: the program, the device registers and
-- the two stacks of the process are present.
abbrev pub terminal_entry : Support → ℕ → ℕ → Pd
terminal_entry s i j =
    if is_program_page s.linked j
      || (is_device_page j || ((j == s.frames.tsysframe i) || (j == s.frames.tmmframe i)))
    then record { pd_p = 1; pd_r = 1; pd_frame = j }
    else absent_at j

-- Segments 3 to 31 of both tables are not present.
unfoldable pub absent_segs : ℕ → Support → Support
absent_segs i = count_up 29 3 (λ j. modify_mm i (λ m. record m {
  unprivileged_seg = update m.unprivileged_seg j (record (m.unprivileged_seg j) { sd_p = 0 });
  privileged_seg = update m.privileged_seg j (record (m.privileged_seg j) { sd_p = 0 });
}))

-- No page of segments 1 and 2 is present, and none is on the disk.
unfoldable pub absent_pages : ℕ → Support → Support
absent_pages i = count_up 32 0 (λ j s.
    modify_shared j (λ d. record d { pd_p = 0; pd_r = 1 })
      (modify_private i j (λ d. record d { pd_p = 0; pd_r = 1 }) s))

unfoldable pub privileged_pages : ℕ → Support → Support
privileged_pages i = count_up 256 0 (λ j s.
    modify_mm i
      (λ m. record m { privileged_page = update m.privileged_page j (terminal_entry s i j) }) s)

-- `d_sem[i].sem_value = 0`
abbrev pub clear_delay : ℕ → Sem → ℤ → ℤ
clear_delay i (delay_sem j) old = if j == i then pos 0 else old
clear_delay i x old = old

-- The body of the loop over the terminals.
unfoldable pub terminal_tables : ℕ → Support → Support
unfolding set_unprivileged_seg set_privileged_seg absent_segs absent_pages privileged_pages
terminal_tables i s0 =
    let s1 = record s0 {
      d_sem = update s0.d_sem i (record { d_time = pos 0; delay_start = pos 0 });
      value = λ x. clear_delay i x (s0.value x);
    } in
    let s2 =
      modify_mm i
        (λ m. record m {
          unprivileged_seg =
              update m.unprivileged_seg 0 (record (m.unprivileged_seg 0) { sd_p = 0 });
        })
        s1 in
    let s3 = set_unprivileged_seg i 2 (set_unprivileged_seg i 1 s2) in
    let s4 = set_privileged_seg i 2 (set_privileged_seg i 1 (set_privileged_seg i 0 s3)) in
    privileged_pages i (absent_pages i (absent_segs i s4))

abbrev pub boot_code : List ℤ
boot_code =
    pos 0x41f90008
    ∷ pos 0x00002608
    ∷ pos 0x4e454a82
    ∷ pos 0x6c000008
    ∷ pos 0x4ef90008
    ∷ pos 0x0000d1c2
    ∷ pos 0x787fb882
    ∷ pos 0x6d000008
    ∷ pos 0x10bc000a
    ∷ pos 0x52486000
    ∷ of_bits 0xffde4e71
    ∷ []

-- `*((int *)(frame * PAGESIZE) + j) = boot_code[j]` for the words of a list.
unfoldable pub copy_boot : List ℤ → ℕ → Support → Support
copy_boot [] a s = s
copy_boot (w ∷ ws) a s = copy_boot ws (a + 4) (record s { word = update s.word a w })

-- The loop that gives each of `n` terminals from `i` on a page with the boot code. A page frame
-- number has 15 bits.
unfoldable pub boot_pages : ℕ → ℕ → Prog (Unit {0})
unfolding copy_boot get_free_frame
boot_pages zero i = done tt
boot_pages (suc n) i = do
  frame ← get_free_frame (pos i) (pos 31) (pos 1)
  set (copy_boot boot_code (bits frame * pagesize % 4294967296))
  set (modify_private i 31 (λ d. record d { pd_p = 1; pd_frame = bits frame % 32768 }))
  boot_pages n (i + 1)

-- `cron_sem = 0; sem_mm = 1;`
abbrev pub first_value : Sem → ℤ → ℤ
first_value cron_sem old = pos 0
first_value sem_mm old = pos 1
first_value s old = old

unfoldable pub p1 : Prog (Unit {0})
unfolding page_init p1a_tables terminal_tables boot_pages
p1 = do
  page_init
  set (λ s. count_up ter 0 terminal_tables (p1a_tables s))
  set (λ s. record s { value = λ x. first_value x (s.value x) })
  boot_pages ter 0
  set (λ s. record s { p_alive = pos ter })
  cpu ← store_state
  s ← see
  leave (ldst (daemon_state s.linked p1a p1a_seg s.frames.scronstack cpu))
