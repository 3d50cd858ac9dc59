-- ===== src/Samples/Frames.antt =====
-- putframe of support/part2/page.c at a concrete state.
use hoca_operating_system.Prelude.{◌≡◌, refl, ◌==◌, if◌then◌else◌, pos, negsuc, [], ◌∷◌, ◌++◌}
use hoca_operating_system.Support.State.{Support, maxframes, sem_mm}
use hoca_operating_system.Support.Prog.{run, ended, sys3, lock_op, unlock_op}
use hoca_operating_system.Support.Page.{put_frame}
use hoca_operating_system.Support.Page.Put.{Freed, releases, put_frame-Freed}
use hoca_operating_system.Samples.Queues.{blank_state}
use hoca_operating_system.Samples.Processes.{busy}

-- Terminal process 2 has a page of the shared segment in frame 0 and a page of its own in frame 4.
abbrev paged : Support
paged = record busy {
  pfs_arr = λ i.
      if i == 4
      then record {
        pid = pos 2;
        seg = pos 1;
        page = pos 9;
        disk_track = negsuc 0;
        disk_sector = negsuc 0;
      }
      else busy.pfs_arr i;
}

put_frame-Freed_example :
    (t : Support) × Freed maxframes 0 (pos 2) paged.pfs_arr t.pfs_arr
    × (run (λ _ s. s) (λ _. pos 0) (λ _. blank_state) (put_frame (pos 2)) paged ≡ (
      sys3 (lock_op sem_mm ∷ []) ∷ releases maxframes 0 (pos 2) paged.pfs_arr
          ++ sys3 (unlock_op sem_mm ∷ []) ∷ [],
      ended tt t,
    ))
put_frame-Freed_example =
    put_frame-Freed (λ _ s. s) (λ _. pos 0) (λ _. blank_state) (λ s. refl) (pos 2) paged
