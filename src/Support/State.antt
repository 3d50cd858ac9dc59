-- ===== src/Support/State.antt =====
-- h/support.h and the variables of support/: page and segment tables, frames, the requests to the
-- disk, virtual semaphores and delays.
use hoca_operating_system.Prelude.{ℕ, ◌/◌, ◌%◌, ◌-◌, ℤ, pos, negsuc, update}
use hoca_operating_system.Machine.{Addr, State, Devreg}

abbrev pub pagesize : ℕ
pagesize = 512

-- TER, the number of terminals
abbrev pub ter : ℕ
ter = 5

-- MAXFRAMES, HIGH and LOW
abbrev pub maxframes : ℕ
maxframes = 20

abbrev pub high : ℕ
high = 4

abbrev pub low : ℕ
low = 2

-- A page descriptor, `pd_t`.
pub record Pd : Type 0 where
  pub pd_p : ℕ
  pub pd_r : ℕ
  pub pd_frame : ℕ

-- The page tables that a segment descriptor points to.
pub data Table : Type 0 where
  p1a_table page_daemon_table disk_daemon_table shared_table : Table
  private_table privileged_table : ℕ → Table

-- A segment descriptor, `sd_t`.
pub record Sd : Type 0 where
  pub sd_p : ℕ
  pub sd_prot : ℕ
  pub sd_len : ℕ
  pub sd_pta : Table

-- `mm_table`
pub record MmTable : Type 0 where
  pub buf : ℕ → ℕ
  pub unprivileged_seg : ℕ → Sd
  pub privileged_seg : ℕ → Sd
  pub unprivileged_page : ℕ → Pd
  pub privileged_page : ℕ → Pd

-- `delay_sem`, `diks_scheduler` and `virtual_sem` without their semaphores; address 0 is no
-- virtual semaphore.
pub record DelaySem : Type 0 where
  pub d_time : ℤ
  pub delay_start : ℤ

pub record DiksScheduler : Type 0 where
  pub track : ℤ
  pub sector : ℤ
  pub request_op : ℤ

-- `page_frame_scheduler`: what a page frame holds; pid -1 is a free frame.
pub record PageFrame : Type 0 where
  pub pid : ℤ
  pub seg : ℤ
  pub page : ℤ
  pub disk_track : ℤ
  pub disk_sector : ℤ

-- `state_area`
pub record StateArea : Type 0 where
  pub prog_old : State
  pub prog_new : State
  pub mm_old : State
  pub mm_new : State
  pub sys_old : State
  pub sys_new : State

-- The semaphores.
pub data Sem : Type 0 where
  sem_mm sem_floppy sem_disk sem_page protected_sem sem_pf cron_sem : Sem
  delay_sem disk_sem virtual_sem : ℕ → Sem

-- The code that a new process or a trap area starts at.
pub data Code : Type 0 where
  p1a tprocess slproghandler slmmhandler slsyshandler pagedaemon diskdaemon : Code

-- The segment tables that `s_crp` is set to.
pub data SegTable : Type 0 where
  p1a_seg page_daemon_seg disk_daemon_seg : SegTable
  unprivileged_segs privileged_segs : ℕ → SegTable

-- What is decided outside the sources: the limits of the program's parts and addresses by the linker, and
-- SEG1 and SEG2, where the segments 1 and 2 begin, by part1/h/tconst.h.
pub record Linked : Type 0 where
  pub startt1 : ℕ
  pub etext : ℕ
  pub startd1 : ℕ
  pub edata : ℕ
  pub startb1 : ℕ
  pub end_of_bss : ℕ
  pub code_at : Code → ℤ
  pub segs_at : SegTable → ℕ
  pub seg1 : ℕ
  pub seg2 : ℕ

-- The frames and the stacks that pageinit sets aside.
pub record Frames : Type 0 where
  pub tsysframe : ℕ → ℕ
  pub tmmframe : ℕ → ℕ
  pub scronframe : ℕ
  pub spagedframe : ℕ
  pub sdiskframe : ℕ
  pub tsysstack : ℕ → ℤ
  pub tmmstack : ℕ → ℤ
  pub scronstack : ℤ
  pub spagedstack : ℤ
  pub sdiskstack : ℤ
  pub pf_start : ℕ

pub record Support : Type 0 where
  pub linked : Linked
  pub frames : Frames
  pub value : Sem → ℤ
  pub p_alive : ℤ
  pub pf_ctr : ℤ
  pub pfs_arr : ℕ → PageFrame
  pub disk : ℕ → ℕ → ℤ
  pub ds_arr : ℕ → DiksScheduler
  pub vs_arr : ℕ → Addr
  pub d_sem : ℕ → DelaySem
  pub mm : ℕ → MmTable
  pub sa : ℕ → StateArea
  pub shared_page : ℕ → Pd
  pub p1a_segs : ℕ → Sd
  pub p1a_page : ℕ → Pd
  pub page_daemon_segs : ℕ → Sd
  pub disk_daemon_segs : ℕ → Sd
  pub page_daemon_page : ℕ → Pd
  pub disk_daemon_page : ℕ → Pd
  pub dev_arr : ℕ → Devreg
  pub word : Addr → ℤ
  pub byte : Addr → ℕ

-- `x >> 3` and `x & 7`
abbrev pub shift3 : ℤ → ℤ
shift3 (pos n) = pos (n / 8)
shift3 (negsuc n) = negsuc (n / 8)

abbrev pub low3 : ℤ → ℕ
low3 (pos n) = n % 8
low3 (negsuc n) = 7 - n % 8

-- `mm[i].f = v` for the parts of `mm`, and the page table of segment 1 or 2 of terminal `i`.
abbrev pub modify_mm : ℕ → (MmTable → MmTable) → Support → Support
modify_mm i f s = record s { mm = update s.mm i (f (s.mm i)) }

abbrev pub modify_private : ℕ → ℕ → (Pd → Pd) → Support → Support
modify_private i j f =
    modify_mm i (λ m. record m {
      unprivileged_page = update m.unprivileged_page j (f (m.unprivileged_page j));
    })

abbrev pub modify_shared : ℕ → (Pd → Pd) → Support → Support
modify_shared j f s = record s { shared_page = update s.shared_page j (f (s.shared_page j)) }

abbrev pub modify_frame : ℕ → (PageFrame → PageFrame) → Support → Support
modify_frame i f s = record s { pfs_arr = update s.pfs_arr i (f (s.pfs_arr i)) }

abbrev pub modify_dev : ℕ → (Devreg → Devreg) → Support → Support
modify_dev i f s = record s { dev_arr = update s.dev_arr i (f (s.dev_arr i)) }
