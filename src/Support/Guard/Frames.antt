-- ===== src/Support/Guard/Frames.antt =====
-- getfreeframe, pagein, putframe and pagedaemon of support/part2/page.c, and sem_mm.
use hoca_operating_system.Prelude.{
  ℕ, zero, suc, ◌+◌, true, false, refl, Option, none, some, ℤ, lt_int, pos, negsuc, same_int,
}
use hoca_operating_system.Machine.{iowrite}
use hoca_operating_system.Support.State.{
  Support, sem_pf, low, high, maxframes, Pd, PageFrame, modify_private, modify_shared,
}
use hoca_operating_system.Support.Prog.{Prog, ◌>>=◌, done, leave, undefined}
use hoca_operating_system.Support.Page.{
  page_in_out_helper, get_free_frame, page_in, free_frames, put_frame, get_disk_pos, index_of,
}
use hoca_operating_system.Support.PageDaemon.{
  write_position, age, age_frame, visit, sweep, refill, page_daemon,
}
use hoca_operating_system.Support.Guard.{
  Guarded, g_done, g_look, g_inside, g_change, g_call, g_leave, g_undefined, Guarded-bind,
  Guarded-if, Guarded-case, Guarded-then,
}

pub get_free_frame-Guarded :
    (term page seg : ℤ) → Guarded false false (get_free_frame term page seg)
unfolding get_free_frame ◌>>=◌
get_free_frame-Guarded term page seg = g_call refl (
    g_call refl (
      g_look (λ s. g_inside (
        g_look (λ t.
          Guarded-bind (λ _. g_call refl g_done)
            (Guarded-if (lt_int (pos low) (t.value sem_pf)) g_done (g_call refl g_done)))))))

-- page_in_out_helper leaves sem_mm for the transfer and takes it again.
pub page_in_out_helper-Guarded :
    (track : ℤ) (sector op : ℕ) (frame : ℤ)
    → Guarded true true (page_in_out_helper track sector op frame)
unfolding page_in_out_helper ◌>>=◌
page_in_out_helper-Guarded track sector op frame = g_call refl (
    g_change
      (λ s. record { same_frames = refl; same_disk = refl; same_shared = refl; same_mm = refl })
      (g_call refl (
        g_change
          (λ s. record { same_frames = refl; same_disk = refl; same_shared = refl; same_mm = refl })
          (g_call refl (g_call refl g_done)))))

pub page_in-Guarded : (term page seg frame : ℤ) → Guarded false false (page_in term page seg frame)
unfolding page_in ◌>>=◌
page_in-Guarded term page seg frame = g_call refl (
    g_look (λ s.
      Guarded-then (page_in_out_helper-Guarded _ _ _ _) (g_inside (g_inside (g_call refl g_done)))))

free_frames-Guarded : (n i : ℕ) (term : ℤ) → Guarded true true (free_frames n i term)
unfolding free_frames ◌>>=◌
free_frames-Guarded zero i term = g_done
free_frames-Guarded (suc n) i term = g_look (λ s.
    Guarded-bind (λ _. free_frames-Guarded n (i + 1) term)
      (Guarded-if _ (g_inside (g_call refl g_done)) g_done))

pub put_frame-Guarded : (term : ℤ) → Guarded false false (put_frame term)
unfolding put_frame ◌>>=◌
put_frame-Guarded term =
    g_call refl
      (Guarded-bind (λ _. g_inside (g_call refl g_done)) (free_frames-Guarded maxframes 0 term))

write_position-Guarded : (i : ℕ) → Guarded true true (write_position i)
unfolding write_position ◌>>=◌
write_position-Guarded i = g_look (λ s. Guarded-if _ g_done (g_inside (go (get_disk_pos s).0)))
  where
    go :
        (o : Option (ℕ × ℕ))
        → Guarded true true
            (elim o as (λ _. Prog (ℕ × ℕ)) [ none ↦ leave undefined | some p ↦ done p ])
    go none = g_undefined
    go (some p) = g_done

pub age-Guarded :
    (i : ℕ) (read : Support → Pd) (write : (Pd → Pd) → Support → Support)
    → Guarded true true (age i read write)
unfolding age ◌>>=◌
age-Guarded i read write = g_look (λ s. Guarded-if _ g_done (
    Guarded-if _ (g_inside g_done) (
      g_inside (
        Guarded-bind
          (λ at. g_inside (
            Guarded-then
              (page_in_out_helper-Guarded (pos at.0) at.1 iowrite (pos (s.frames.pf_start + i)))
              (g_inside (g_call refl g_done))))
          (write_position-Guarded i)))))

age_frame-Guarded : (i : ℕ) (f : PageFrame) → Guarded true true (age_frame i f)
unfolding age_frame
age_frame-Guarded i f =
    let n = index_of f.pid in
    let page = index_of f.page in
    Guarded-if (same_int f.pid (negsuc 0)) g_done (
      Guarded-if (same_int f.seg (pos 1))
        (age-Guarded i (λ t. (t.mm n).unprivileged_page page) (modify_private n page))
        (Guarded-if (same_int f.seg (pos 2))
          (age-Guarded i (λ t. t.shared_page page) (modify_shared page)) g_done))

visit-Guarded : (i : ℕ) → Guarded false false (visit i)
unfolding visit ◌>>=◌
visit-Guarded i =
    g_call refl
      (g_look (λ s. Guarded-then (age_frame-Guarded i (s.pfs_arr i)) (g_call refl g_done)))

sweep-Guarded : (n i : ℕ) → Guarded false false (sweep n i)
unfolding sweep
sweep-Guarded zero i = g_done
sweep-Guarded (suc n) i = Guarded-bind (λ _. sweep-Guarded n (i + 1)) (visit-Guarded i)

refill-Guarded : (n : ℕ) → Guarded false false (refill n)
unfolding refill ◌>>=◌
refill-Guarded zero = g_leave
refill-Guarded (suc n) = g_look (λ s.
    Guarded-case (lt_int (s.value sem_pf) (pos high)) g_done
      (Guarded-bind (λ _. refill-Guarded n) (sweep-Guarded maxframes 0)))

-- The paging daemon, for every number of rounds and sweeps and whatever other processes do in
-- between, changes pfs_arr, disk, mm and shared_seg_table_page_table only between a P and a V of
-- sem_mm, and in between it never waits for a device or for another semaphore; it ends there only
-- where C gives no meaning, as when get_disk_pos finds no free position.
pub page_daemon-Guarded : (n m : ℕ) → Guarded false false (page_daemon n m)
unfolding page_daemon ◌>>=◌
page_daemon-Guarded zero m = g_leave
page_daemon-Guarded (suc n) m = g_look (λ s.
    Guarded-case (lt_int (pos 0) s.p_alive) g_leave
      (g_call refl (Guarded-bind (λ _. page_daemon-Guarded n m) (refill-Guarded m))))
