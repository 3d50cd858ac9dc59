-- ===== src/Support/Guard/Terminals.antt =====
-- slmmhandler and Terminate of support/part1, and sem_mm.
use hoca_operating_system.Prelude.{ℕ, zero, suc, false, refl, pos, ◌==◌, same_int}
use hoca_operating_system.Support.State.{Support, Pd, modify_private, modify_shared}
use hoca_operating_system.Support.Prog.{◌>>=◌}
use hoca_operating_system.Machine.{mm_seg, mm_pg}
use hoca_operating_system.Support.Page.{index_of}
use hoca_operating_system.Support.Calls1.{terminate}
use hoca_operating_system.Support.Handlers.{bring_in, mm_fault, sl_mm_handler}
use hoca_operating_system.Support.Guard.{
  Guarded, g_done, g_look, g_inside, g_change, g_call, g_stst, g_leave, Guarded-bind, Guarded-if,
  Guarded-then,
}
use hoca_operating_system.Support.Guard.Frames.{
  get_free_frame-Guarded, page_in-Guarded, put_frame-Guarded,
}

terminate-Guarded : (n : ℕ) → Guarded false false (terminate n)
unfolding terminate ◌>>=◌
terminate-Guarded n =
    g_change
      (λ s. record { same_frames = refl; same_disk = refl; same_shared = refl; same_mm = refl })
      (Guarded-then (put_frame-Guarded (pos n)) (
        g_look (λ s.
          Guarded-then (Guarded-if (same_int s.p_alive (pos 0)) (g_call refl g_done) g_done)
            g_leave)))

bring_in-Guarded :
    (n page seg : ℕ) (read : Support → Pd) (write : (Pd → Pd) → Support → Support)
    → Guarded false false (bring_in n page seg read write)
unfolding bring_in ◌>>=◌
bring_in-Guarded n page seg read write =
    Guarded-bind
      (λ frame. g_look (λ s.
        Guarded-then
          (Guarded-if ((read s).pd_r == 0) (page_in-Guarded (pos n) (pos page) (pos seg) frame)
            g_done)
          (g_call refl (g_inside (g_call refl g_done)))))
      (get_free_frame-Guarded (pos n) (pos page) (pos seg))

mm_fault-Guarded : (n seg page : ℕ) → Guarded false false (mm_fault n seg page)
unfolding mm_fault
mm_fault-Guarded n zero page = terminate-Guarded n
mm_fault-Guarded n (suc zero) page =
    bring_in-Guarded n page 1 (λ s. (s.mm n).unprivileged_page page) (modify_private n page)
mm_fault-Guarded n (suc (suc seg)) page =
    bring_in-Guarded n page 2 (λ s. s.shared_page page) (modify_shared page)

-- The handler of a missing page, with the end of the process as one of its outcomes and whatever
-- other processes do in between, changes pfs_arr, disk, mm and shared_seg_table_page_table only
-- between a P and a V of sem_mm, and in between it never waits for a device or for another
-- semaphore; it ends there only where C gives no meaning. What it reads of them it reads outside too.
pub sl_mm_handler-Guarded : Guarded false false sl_mm_handler
unfolding sl_mm_handler ◌>>=◌
sl_mm_handler-Guarded = g_stst (λ cpu.
    let n = index_of (cpu.s_r 4) in
    g_look (λ s.
      let old = (s.sa n).mm_old.s_tmp in
      Guarded-then
        (Guarded-if (((s.mm n).privileged_seg (mm_seg old)).sd_p == 0) (terminate-Guarded n)
          (mm_fault-Guarded n (mm_seg old) (mm_pg old)))
        (g_look (λ t. g_leave))))
