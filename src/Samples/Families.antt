-- ===== src/Samples/Families.antt =====
-- The theorems about the children of a process, and about the frames and page tables of pageinit.
use hoca_operating_system.Prelude.{
  ℕ, ◌+◌, ◌<◌, ◌/◌, ◌≡◌, ◌↔◌, refl, some, [], ◌∷◌, ◌++◌, arith, if◌then◌else◌, ◌==◌, true, false,
}
use hoca_operating_system.Machine.{Proc}
use hoca_operating_system.Run.{Returns}
use hoca_operating_system.Procq.Free.{has}
use hoca_operating_system.Asl.Lists.{NoDup}
use hoca_operating_system.Kernel.{Kernel, put_procs}
use hoca_operating_system.Syscall.{adopt, leave_family}
use hoca_operating_system.Syscall.Siblings.{Family}
use hoca_operating_system.Syscall.Adopt.{Kin, adopt-Kin}
use hoca_operating_system.Syscall.Places.{Left}
use hoca_operating_system.Syscall.Goodbye.{leave_family-Left}
use hoca_operating_system.Support.State.{pagesize}
use hoca_operating_system.Support.PageInit.{layout, page_tables}
use hoca_operating_system.Support.PageInit.Tables.{daemon_entry, page_tables-daemon_entry}
use hoca_operating_system.Support.PageInit.Layout.{frames_of, layout-frames}
use hoca_operating_system.Samples.Nucleus.{small}
use hoca_operating_system.Samples.Processes.{busy}
use hoca_operating_system.Samples.Queues.{blank}

-- Process 3 has the children 6, 2 and 9.
abbrev relatives : ℕ → Proc
relatives p =
    if p == 3
    then record blank { child = some 6 }
    else if p == 6
    then record blank { brother = some 2 }
    else if p == 2
    then record blank { brother = some 9 }
    else if p == 9
    then record blank { parent = some 3 }
    else blank

abbrev parental : Kernel
parental = put_procs small (record { proc = relatives; free_head = some 4 })

parental-Family : Family parental 3 (6 ∷ 2 ∷ 9 ∷ [])
parental-Family = (refl, refl, (refl, refl, (refl, refl, refl)))

adopt-Kin_example :
    Returns
      (λ _. Kin parental 3 (4 ∷ 6 ∷ 2 ∷ 9 ∷ []) ((6 ∷ 2 ∷ 9 ∷ []) ++ 4 ∷ []))
      (adopt (some 3) (some 4) parental)
adopt-Kin_example =
    adopt-Kin parental 3 4 (6 ∷ 2 ∷ 9 ∷ []) parental-Family (refl, (refl, (refl, tt))) refl
      (omega arith) refl

leave_family-Left_example :
    Returns
      (λ _. Left parental 3 2 ((6 ∷ []) ++ 2 ∷ 9 ∷ []) ((6 ∷ []) ++ 9 ∷ []))
      (leave_family (some 2) parental)
leave_family-Left_example =
    leave_family-Left parental 3 2 (6 ∷ []) (9 ∷ []) parental-Family (refl, (refl, (refl, tt)))
      (omega arith)

layout-frames_example :
    NoDup (frames_of (layout 200))
    × ((v : ℕ) → v < 200 + 2 → has v (frames_of (layout 200)) ≡ false)
    × (((v : ℕ) → has v (frames_of (layout 200)) ≡ true → v < 256) ↔ (200 < 220))
layout-frames_example = layout-frames 200

page_tables-daemon_entry_example :
    ((page_tables busy).page_daemon_page 40
      ≡ daemon_entry busy.linked
          (busy.linked.end_of_bss / pagesize + 13)
          (busy.linked.end_of_bss / pagesize + 14)
          40
          (busy.page_daemon_page 40))
    × ((page_tables busy).disk_daemon_page 40
        ≡ daemon_entry busy.linked
            (busy.linked.end_of_bss / pagesize + 14)
            (busy.linked.end_of_bss / pagesize + 13)
            40
            (busy.disk_daemon_page 40))
page_tables-daemon_entry_example = page_tables-daemon_entry busy 40 (omega arith)
