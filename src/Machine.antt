-- ===== src/Machine.antt =====
-- h/types.h, h/const.h, h/procq.h and h/vpop.h: the processor state, the registers of a device
-- and the constants. A pointer is `none` for ENULL and `some` of an index or an address; the
-- three arrays of a process entry are functions from the index.
use hoca_operating_system.Prelude.{ℕ, ◌+◌, ◌*◌, ◌/◌, ◌%◌, Option, none, ℤ, negsuc, pos, update}

abbrev pub Ptr : Type 0
Ptr = Option ℕ

-- The address of an `int` or of a `state_t`.
abbrev pub Addr : Type 0
Addr = ℕ

abbrev pub maxproc : ℕ
maxproc = 20

abbrev pub semmax : ℕ
semmax = 10

-- LOCK
abbrev pub lock : ℤ
lock = negsuc 0

-- UNLOCK
abbrev pub unlock : ℤ
unlock = pos 1

-- PRIVILEGE, the exception number of a privilege violation
abbrev pub privilege : ℕ
privilege = 8

-- IOWRITE
abbrev pub iowrite : ℕ
iowrite = 1

-- The fields of `sr_t` that the nucleus reads or writes.
pub record Sr : Type 0 where
  pub ps_s : ℕ
  pub ps_m : ℕ
  pub ps_int : ℕ

-- `s_tmp` is the 16 bits of the union `tmp_t`, high bits first in each of its structs.
pub record State : Type 0 where
  pub s_r : ℕ → ℤ
  pub s_sr : Sr
  pub s_tmp : ℕ
  pub s_crp : ℕ

abbrev pub s_sp : State → ℤ
s_sp s = s.s_r 15

abbrev pub s_pc : State → ℤ
s_pc s = s.s_r 16

-- `s->s_r[i] = v`
abbrev pub set_reg : State → ℕ → ℤ → State
set_reg s i v = record s { s_r = update s.s_r i v }

abbrev pub in_dno : ℕ → ℕ
in_dno t = t % 8

abbrev pub sys_no : ℕ → ℕ
sys_no t = t % 256

abbrev pub mm_pg : ℕ → ℕ
mm_pg t = t % 1024

abbrev pub mm_seg : ℕ → ℕ
mm_seg t = t / 1024 % 16

-- `tmp.tmp_pr.pr_typ = v`, which also overwrites `sys_no`
abbrev pub set_pr_typ : ℕ → ℕ → ℕ
set_pr_typ t v = t / 256 * 256 + v

-- The registers of a device.
pub record Devreg : Type 0 where
  pub d_op : ℕ
  pub d_dadd : ℤ
  pub d_badd : Addr
  pub d_stat : ℤ

-- One operation of the array that SYS3 takes.
pub record Vpop : Type 0 where
  pub op : ℤ
  pub sem : Addr

pub record Link : Type 0 where
  pub index : Option ℕ
  pub next : Ptr

abbrev pub enull_link : Link
enull_link = record { index = none; next = none }

-- A process table entry.
pub record Proc : Type 0 where
  pub p_link : ℕ → Link
  pub p_s : State
  pub qcount : ℤ
  pub semvec : ℕ → Option Addr
  pub cpu_time : ℤ
  pub start_time : ℤ
  pub prog_old : Option Addr
  pub prog_new : Option Addr
  pub memory_management_old : Option Addr
  pub memory_management_new : Option Addr
  pub system_call_old : Option Addr
  pub system_call_new : Option Addr
  pub parent : Ptr
  pub child : Ptr
  pub brother : Ptr
