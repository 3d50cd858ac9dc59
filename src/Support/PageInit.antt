-- ===== src/Support/PageInit.antt =====
-- support/part2/page.c: pageinit, which lays out the frames and starts the two daemons.
pub mod Tables
pub mod Layout
use hoca_operating_system.Prelude.{
  ℕ, ◌+◌, ◌*◌, ◌/◌, ◌-◌, Bool, ◌&&◌, ◌||◌, ℤ, pos, negsuc, if◌then◌else◌, ◌==◌, leb, ltb, update,
  count_up,
}
use hoca_operating_system.Machine.{State, set_reg, maxproc}
use hoca_operating_system.Support.State.{
  Support, Sd, Table, page_daemon_table, disk_daemon_table, Code, pagedaemon, diskdaemon, SegTable,
  page_daemon_seg, disk_daemon_seg, Linked, Frames, Sem, disk_sem, virtual_sem, sem_pf, sem_disk,
  sem_page, sem_floppy, protected_sem, maxframes, pagesize,
}
use hoca_operating_system.Support.Prog.{
  Prog, ◌>>=◌, ◌>>◌, see, set, ask, sys1, store_state, leave, halted,
}
use hoca_operating_system.Support.Page.{set_page_present, mark_sector}

-- The top of the stack in the page frame `f`.
abbrev pub stack_top : ℕ → ℤ
stack_top f = pos ((f + 1) * 512 - 2)

abbrev pub layout : ℕ → Frames
layout endframe = record {
  tsysframe = λ i. endframe + 2 + i;
  tmmframe = λ i. endframe + 7 + i;
  scronframe = endframe + 12;
  spagedframe = endframe + 13;
  sdiskframe = endframe + 14;
  tsysstack = λ i. stack_top (endframe + 2 + i);
  tmmstack = λ i. stack_top (endframe + 7 + i);
  scronstack = stack_top (endframe + 12);
  spagedstack = stack_top (endframe + 13);
  sdiskstack = stack_top (endframe + 14);
  pf_start = endframe + 17;
}

-- The value that a semaphore gets, from its old one.
abbrev pub start_value : Sem → ℤ → ℤ
start_value sem_pf old = pos maxframes
start_value sem_disk old = pos 0
start_value sem_page old = pos 0
start_value sem_floppy old = pos 1
start_value protected_sem old = pos 1
start_value (disk_sem i) old = if ltb i maxproc then pos 0 else old
start_value (virtual_sem i) old = if ltb i maxproc then pos 0 else old
start_value s old = old

-- The three loops over the requests, the frames and the disk.
unfoldable pub clear_requests : Support → Support
clear_requests = count_up maxproc 0 (λ i s. record s {
  ds_arr =
      update s.ds_arr i (record { track = negsuc 0; sector = negsuc 0; request_op = negsuc 0 });
  vs_arr = update s.vs_arr i 0;
})

unfoldable pub clear_frames : Support → Support
clear_frames = count_up maxframes 0 (λ i s. record s {
  pfs_arr = update s.pfs_arr i (record {
    pid = negsuc 0;
    seg = negsuc 0;
    page = negsuc 0;
    disk_track = negsuc 0;
    disk_sector = negsuc 0;
  });
})

unfoldable pub clear_disk : Support → Support
clear_disk = count_up 100 0 (λ i. count_up 8 0 (λ j. mark_sector i j (negsuc 0)))

abbrev pub daemon_seg : Table → Sd
daemon_seg t = record { sd_p = 1; sd_prot = 7; sd_len = 255; sd_pta = t }

-- Segment 0 of both daemons is present, the others are not.
unfoldable pub daemon_segs : Support → Support
daemon_segs s =
    let t = record s {
      page_daemon_segs = update s.page_daemon_segs 0 (daemon_seg page_daemon_table);
      disk_daemon_segs = update s.disk_daemon_segs 0 (daemon_seg disk_daemon_table);
    } in
    count_up 31 1
      (λ i u. record u {
        page_daemon_segs = update u.page_daemon_segs i (record (u.page_daemon_segs i) { sd_p = 0 });
        disk_daemon_segs = update u.disk_daemon_segs i (record (u.disk_daemon_segs i) { sd_p = 0 });
      })
      t

-- `lo / PAGESIZE <= i && i <= hi / PAGESIZE`
abbrev pub in_pages : ℕ → ℕ → ℕ → Bool
in_pages i lo hi = leb (lo / pagesize) i && leb i (hi / pagesize)

-- The text, the data and the bss of the support level, and page 2.
abbrev pub is_program_page : Linked → ℕ → Bool
is_program_page l i =
    (i == 2)
    || (in_pages i l.startt1 l.etext
        || (in_pages i l.startd1 l.edata || in_pages i l.startb1 l.end_of_bss))

-- The pages of the device registers.
abbrev pub is_device_page : ℕ → Bool
is_device_page i = in_pages i 0x1400 0x1600

-- A page that neither daemon has.
abbrev pub daemon_absent : ℕ → Support → Support
daemon_absent i s = record s {
  page_daemon_page = update s.page_daemon_page i (record { pd_p = 0; pd_r = 1; pd_frame = i });
  disk_daemon_page = update s.disk_daemon_page i (record { pd_p = 0; pd_r = 1; pd_frame = i });
}

unfoldable pub daemon_page : ℕ → Support → Support
unfolding set_page_present
daemon_page i s =
    if is_program_page s.linked i || is_device_page i
    then set_page_present i 0 s
    else if i == s.frames.sdiskframe
    then set_page_present i 1 s
    else if i == s.frames.spagedframe
    then set_page_present i 2 s
    else daemon_absent i s

-- The variables that pageinit sets.
unfoldable pub page_tables : Support → Support
unfolding clear_requests clear_frames clear_disk daemon_segs daemon_page
page_tables s =
    let t = record s {
      frames = layout (s.linked.end_of_bss / pagesize);
      value = λ x. start_value x (s.value x);
      pf_ctr = pos 0;
    } in
    count_up 256 0 daemon_page (daemon_segs (clear_disk (clear_frames (clear_requests t))))

-- A state that runs `code` on a stack with the segments `segs`, privileged and mapped.
abbrev pub daemon_state : Linked → Code → SegTable → ℤ → State → State
daemon_state l code segs stack cpu =
    let t = set_reg (set_reg cpu 16 (l.code_at code)) 15 stack in
    record t { s_sr = record { ps_s = 1; ps_m = 1; ps_int = 0 }; s_crp = l.segs_at segs }

unfoldable pub page_init : Prog (Unit {0})
unfolding page_tables
page_init = do
  s ← see
  if ltb 220 (s.linked.end_of_bss / pagesize) then leave halted else set page_tables
  cpu ← store_state
  t ← see
  ask (sys1 (daemon_state t.linked pagedaemon page_daemon_seg t.frames.spagedstack cpu))
  cpu2 ← store_state
  u ← see
  ask (sys1 (daemon_state u.linked diskdaemon disk_daemon_seg u.frames.sdiskstack cpu2))
