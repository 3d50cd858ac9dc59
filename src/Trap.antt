-- ===== src/Trap.antt =====
-- nucleus/traps/trap.c: trap handlers, passing a trap up to the process, and the vectors.
pub mod Deliver
pub mod Vectors
use hoca_operating_system.Prelude.{
  ℕ, zero, suc, Bool, Option, none, some, if◌then◌else◌, ◌==◌, leb, not, ◌&&◌, update, List, [],
  ◌∷◌,
}
use hoca_operating_system.Machine.{Ptr, Addr, State, sys_no, set_pr_typ, privilege}
use hoca_operating_system.Run.{Cmd, pure, ◌>>=◌, ◌>>◌, get, modify, deref}
use hoca_operating_system.Kernel.{
  Kernel, trapproghandler, trapmmhandler, trapsyshandler, Service, stldmm, stldaddress, stldillegal,
  stldzero, stldprivilege, stldsys, stldsys9, stldsys10, stldsys11, stldsys12, stldsys13, stldsys14,
  stldsys15, stldsys16, stldsys17, stldterm0, stldterm1, stldterm2, stldterm3, stldterm4,
  stldprint0, stlddisk0, stldfloppy0, stldclock, entry, current, write_state, ldst, start_time,
  get_interval,
}
use hoca_operating_system.Interrupt.{wait_for_pclock, wait_for_io, set_handler}
use hoca_operating_system.Syscall.{
  create_process, terminate_process, sem_op, specify_trap_state_vector, not_used, get_cpu_time,
  old_vector, new_vector,
}

-- `*o = *old; start_time(cur); LDST(n)`
unfoldable pub enter_vector : Ptr → Option Addr → Addr → Addr → Cmd Kernel (Unit {0})
unfolding start_time ldst
enter_vector cur o old n = do
  area ← deref o
  k ← get
  modify (write_state area (k.states old))
  start_time cur
  ldst n

-- A process with a vector for the trap type gets the trap; any other is ended.
unfoldable pub pass_up : Addr → ℕ → Cmd Kernel (Unit {0})
unfolding current enter_vector terminate_process
pass_up old type = do
  cur ← current
  p ← deref cur
  k ← get
  elim (new_vector type (entry k p)) [
    | none ↦ terminate_process
    | some n ↦ enter_vector cur (old_vector type (entry k p)) old n
  ]

-- `old_pro_state`, `old_mm_state`, `old_sys_call_state`
abbrev pub prog_area : Addr
prog_area = 0x800

abbrev pub mm_area : Addr
mm_area = 0x898

abbrev pub sys_area : Addr
sys_area = 0x930

unfoldable pub trap_mm_handler : Cmd Kernel (Unit {0})
unfolding current get_interval pass_up
trap_mm_handler = do cur ← current; get_interval cur; pass_up mm_area 1

unfoldable pub trap_prog_handler : Cmd Kernel (Unit {0})
unfolding current get_interval pass_up
trap_prog_handler = do cur ← current; get_interval cur; pass_up prog_area 0

-- SYS1 to SYS8 outside kernel mode
abbrev pub is_privileged_call : State → Bool
is_privileged_call s = not (s.s_sr.ps_s == 1) && (leb 1 (sys_no s.s_tmp) && leb (sys_no s.s_tmp) 8)

-- The switch of trapsyshandler.
unfoldable pub sys_call : ℕ → Cmd Kernel (Unit {0})
sys_call (suc zero) = create_process sys_area
sys_call (suc (suc zero)) = terminate_process
sys_call (suc (suc (suc zero))) = sem_op sys_area
sys_call (suc (suc (suc (suc zero)))) = not_used
sys_call (suc (suc (suc (suc (suc zero))))) = specify_trap_state_vector sys_area
sys_call (suc (suc (suc (suc (suc (suc zero)))))) = get_cpu_time sys_area
sys_call (suc (suc (suc (suc (suc (suc (suc zero))))))) = wait_for_pclock sys_area
sys_call (suc (suc (suc (suc (suc (suc (suc (suc zero)))))))) = wait_for_io sys_area
sys_call n = pass_up sys_area 2

-- The violation is recorded as a program trap, then passed up.
unfoldable pub refuse_call : Cmd Kernel (Unit {0})
unfolding pass_up
refuse_call = do
  k ← get
  let s = k.states sys_area
  modify (write_state sys_area (record s { s_tmp = set_pr_typ s.s_tmp privilege }))
  pass_up sys_area 0

unfoldable pub trap_sys_handler : Cmd Kernel (Unit {0})
unfolding current get_interval refuse_call sys_call start_time ldst
trap_sys_handler = do
  cur ← current
  get_interval cur
  k ← get
  if is_privileged_call (k.states sys_area) then refuse_call else pure tt
  j ← get
  sys_call (sys_no (j.states sys_area).s_tmp)
  start_time cur
  ldst sys_area

-- The exception vector that trapinit writes.
abbrev pub vectors : List (Addr × Service)
vectors =
    (0x008, stldmm)
    ∷ (0x00c, stldaddress)
    ∷ (0x010, stldillegal)
    ∷ (0x014, stldzero)
    ∷ (0x020, stldprivilege)
    ∷ (0x08c, stldsys)
    ∷ (0x94, stldsys9)
    ∷ (0x98, stldsys10)
    ∷ (0x9c, stldsys11)
    ∷ (0xa0, stldsys12)
    ∷ (0xa4, stldsys13)
    ∷ (0xa8, stldsys14)
    ∷ (0xac, stldsys15)
    ∷ (0xb0, stldsys16)
    ∷ (0xb4, stldsys17)
    ∷ (0x100, stldterm0)
    ∷ (0x104, stldterm1)
    ∷ (0x108, stldterm2)
    ∷ (0x10c, stldterm3)
    ∷ (0x110, stldterm4)
    ∷ (0x114, stldprint0)
    ∷ (0x11c, stlddisk0)
    ∷ (0x12c, stldfloppy0)
    ∷ (0x140, stldclock)
    ∷ []

unfoldable pub set_vectors : List (Addr × Service) → Kernel → Kernel
set_vectors [] k = k
set_vectors ((a, v) ∷ vs) k = set_vectors vs (record k { evt = update k.evt a (some v) })

unfoldable pub trap_init : Kernel → Kernel
unfolding set_vectors
trap_init k0 =
    let k1 = set_vectors vectors k0 in
    let k2 = set_handler prog_area trapproghandler k1 in
    let k3 = set_handler mm_area trapmmhandler k2 in set_handler sys_area trapsyshandler k3
