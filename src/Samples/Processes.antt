-- ===== src/Samples/Processes.antt =====
-- The theorems about support/ at concrete states.
use hoca_operating_system.Prelude.{
  ◌≡◌, ◌↔◌, ◌≤◌, [], ◌∷◌, count_up, refl, arith, if◌then◌else◌, pos, negsuc, ◌==◌, false, is_neg, ℤ,
  ltb, some, first_hit,
}
use hoca_operating_system.Machine.{maxproc, set_reg}
use hoca_operating_system.Samples.Queues.{blank_state}
use hoca_operating_system.Support.State.{
  Support, MmTable, Sem, Pd, Sd, p1a_table, disk_sem, sem_mm, sem_pf,
}
use hoca_operating_system.Support.PageInit.{layout}
use hoca_operating_system.Support.PageDaemon.{page_daemon}
use hoca_operating_system.Support.Page.{get_free_frame, get_disk_pos, free_position, free_sector}
use hoca_operating_system.Support.Page.Claim.{
  Claimed, last_calls, after_all, get_free_frame-Claimed,
}
use hoca_operating_system.Support.Page.Place.{Placed, get_disk_pos-Placed}
use hoca_operating_system.Support.P1.{terminal_tables}
use hoca_operating_system.Support.P1.Pages.{Mapped}
use hoca_operating_system.Support.P1.Tables.{terminal_tables-Mapped}
use hoca_operating_system.Support.DiskDaemon.{tasker_helper, choose, is_waiting, distance}
use hoca_operating_system.Support.DiskDaemon.Nearest.{Best, tasker_helper-Best}
use hoca_operating_system.Support.DiskDaemon.Found.{choose-found}
use hoca_operating_system.Support.Prog.{Call, run, ended, sys3, lock_op}
use hoca_operating_system.Support.Calls2.{p_virtual_semaphore}
use hoca_operating_system.Support.Calls2.Waits.{Waited, p_virtual_semaphore-Waited}
use hoca_operating_system.Support.Guard.{Guarded}
use hoca_operating_system.Support.Guard.Frames.{page_daemon-Guarded}

abbrev no_seg : Sd
no_seg = record { sd_p = 0; sd_prot = 0; sd_len = 0; sd_pta = p1a_table }

abbrev no_page : Pd
no_page = record { pd_p = 0; pd_r = 1; pd_frame = 0 }

-- Terminal 3 waits for sector 4 of track 9 and terminal 1 for sector 1 of track 2; frame 0 holds
-- page 6 of the shared segment.
abbrev pub busy : Support
busy = record {
  linked = record {
    startt1 = 0x2000;
    etext = 0x4000;
    startd1 = 0x4000;
    edata = 0x5000;
    startb1 = 0x5000;
    end_of_bss = 0x6000;
    code_at = λ _. pos 0;
    segs_at = λ _. 0;
    seg1 = 0x80000;
    seg2 = 0x100000;
  };
  frames = layout 48;
  value = λ x. elim x [
    | disk_sem i ↦ if i == 3 then negsuc 0 else if i == 1 then negsuc 0 else pos 0
    | _ ↦ pos 0
  ];
  p_alive = pos 5;
  pf_ctr = pos 0;
  pfs_arr = λ i.
      if i == 0
      then record {
        pid = pos 2;
        seg = pos 2;
        page = pos 6;
        disk_track = negsuc 0;
        disk_sector = negsuc 0;
      }
      else record {
        pid = negsuc 0;
        seg = negsuc 0;
        page = negsuc 0;
        disk_track = negsuc 0;
        disk_sector = negsuc 0;
      };
  disk = λ i j. negsuc 0;
  ds_arr = λ i.
      if i == 3
      then record { track = pos 9; sector = pos 4; request_op = pos 0 }
      else record { track = pos 2; sector = pos 1; request_op = pos 1 };
  vs_arr = λ _. 0;
  d_sem = λ _. record { d_time = pos 0; delay_start = pos 0 };
  mm = λ _. record {
    buf = λ _. 0;
    unprivileged_seg = λ _. no_seg;
    privileged_seg = λ _. no_seg;
    unprivileged_page = λ _. no_page;
    privileged_page = λ _. no_page;
  };
  sa = λ _. record {
    prog_old = blank_state;
    prog_new = blank_state;
    mm_old = blank_state;
    mm_new = blank_state;
    sys_old = blank_state;
    sys_new = blank_state;
  };
  shared_page = λ _. no_page;
  p1a_segs = λ _. no_seg;
  p1a_page = λ _. no_page;
  page_daemon_segs = λ _. no_seg;
  disk_daemon_segs = λ _. no_seg;
  page_daemon_page = λ _. no_page;
  disk_daemon_page = λ _. no_page;
  dev_arr = λ _. record { d_op = 0; d_dadd = pos 0; d_badd = 0; d_stat = pos 0 };
  word = λ _. pos 0;
  byte = λ _. 0;
}

tasker_helper-Best_example :
    (least : ℤ) × Best
      (is_waiting busy)
      (distance (pos 5) (pos 2) 0 busy)
      maxproc
      (tasker_helper (pos 5) (pos 2) 0 busy, least)
tasker_helper-Best_example = tasker_helper-Best (pos 5) (pos 2) 0 busy

choose-found_example : is_neg (choose (pos 5) (pos 2) 1 busy).0 ≡ false
choose-found_example =
    choose-found (pos 5) (pos 2) 1 busy 3 (omega arith) refl
      (record {
        track_no = 5;
        sector_no = 2;
        track_is = refl;
        sector_is = refl;
        track_small = omega arith;
        sector_small = omega arith;
      })
      (record {
        track_no = 9;
        sector_no = 4;
        track_is = refl;
        sector_is = refl;
        track_small = omega arith;
        sector_small = omega arith;
      })

-- Process 1 asks for page 6 of the shared segment, and one free frame is left after a P or a V.
abbrev one_left : Sem → ℤ → ℤ
one_left sem_pf old = pos 1
one_left x old = old

abbrev p_frames : Call → Support → Support
p_frames (sys3 os) s = record s { value = λ x. one_left x (s.value x) }
p_frames c s = s

get_free_frame-Claimed_example :
    (rv : ℤ) × (t : Support) × (Claimed
        (pos 1)
        (pos 6)
        (pos 2)
        (p_frames (sys3 (lock_op sem_mm ∷ [])) (p_frames (sys3 (lock_op sem_pf ∷ [])) busy))
        (rv, t)
      × (run p_frames (λ _. pos 0) (λ _. blank_state) (get_free_frame (pos 1) (pos 6) (pos 2)) busy
          ≡ (
            sys3 (lock_op sem_pf ∷ []) ∷ sys3 (lock_op sem_mm ∷ []) ∷ last_calls t,
            ended rv (after_all p_frames (last_calls t) t),
          )))
get_free_frame-Claimed_example =
    get_free_frame-Claimed p_frames (λ _. pos 0) (λ _. blank_state) (pos 1) (pos 6) (pos 2) busy

page_daemon-Guarded_example : Guarded false false (page_daemon 3 4)
page_daemon-Guarded_example = page_daemon-Guarded 3 4

-- Every entry of vs_arr is in use, and terminal 1 asks for the semaphore at 0x100000.
abbrev crowded : Support
crowded = record busy {
  vs_arr = λ _. 0x100004;
  sa = λ n. record (busy.sa n) { sys_old = set_reg blank_state 4 (pos 0x100000) };
}

p_virtual_semaphore-Waited_example :
    Waited
      (λ _ s. s)
      crowded
      0x100000
      (run (λ _ s. s) (λ _. pos 0) (λ _. blank_state) (p_virtual_semaphore 1) crowded)
p_virtual_semaphore-Waited_example =
    p_virtual_semaphore-Waited (λ _ s. s) (λ _. pos 0) (λ _. blank_state) 1 crowded refl

-- The disk with track 0 and the first three sectors of track 1 in use.
abbrev filled : Support
filled = record busy {
  disk = λ i j.
      if i == 0 then pos 1 else if i == 1 then (if ltb j 3 then pos 1 else negsuc 0) else negsuc 0;
}

get_disk_pos-Placed_example : Placed filled (get_disk_pos filled)
get_disk_pos-Placed_example = get_disk_pos-Placed filled

-- The position is sector 3 of track 1.
get_disk_pos_test : (get_disk_pos filled).0 ≡ some (1, 3)
unfolding get_disk_pos free_position free_sector first_hit
get_disk_pos_test = refl

-- Terminal process 3, its segment 2, and the page of the stack of its handler of page faults.
terminal_tables-Mapped_example :
    (let m : MmTable = (count_up 5 0 terminal_tables busy).mm 3 in
      ((m.unprivileged_seg 2).sd_p ≡ 1)
      × ((m.privileged_seg 2).sd_p ≡ 1)
      × ((m.privileged_page 58).pd_frame ≡ 58)
      × ((m.privileged_page 58).pd_r ≡ 1)
      × ((m.privileged_page 58).pd_p ≤ 1)
      × (((m.privileged_page 58).pd_p ≡ 1) ↔ Mapped busy.linked 3 58))
terminal_tables-Mapped_example =
    terminal_tables-Mapped busy 3 2 58 refl (omega arith) (omega arith) (omega arith)
