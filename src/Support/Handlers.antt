-- ===== src/Support/Handlers.antt =====
-- support/part1/support.c: the start of the terminal processes and their trap handlers.
use hoca_operating_system.Prelude.{
  ℕ, zero, suc, ◌+◌, ◌*◌, ◌-◌, ◌%◌, ℤ, pos, if◌then◌else◌, ◌==◌, bits, update,
}
use hoca_operating_system.Machine.{Addr, State, set_reg, mm_pg, mm_seg, sys_no}
use hoca_operating_system.Support.State.{
  Support, StateArea, Pd, Code, tprocess, slproghandler, slmmhandler, slsyshandler,
  unprivileged_segs, privileged_segs, sem_mm, pagesize, modify_private, modify_shared,
}
use hoca_operating_system.Support.Prog.{
  Prog, done, ◌>>=◌, ◌>>◌, see, set, ask, sys1, sys5, p_sem, v_sem, store_state, leave, ldst,
}
use hoca_operating_system.Support.Page.{index_of, get_free_frame, page_in}
use hoca_operating_system.Support.Calls1.{
  read_from_terminal, write_to_terminal, delay, get_time_of_day, terminate,
}
use hoca_operating_system.Support.Calls2.{
  p_virtual_semaphore, v_virtual_semaphore, disk_put, disk_get,
}

-- The loop of p1a: `n` terminal processes from `i` on, started from the state `cpu`.
unfoldable pub start_terminals : ℕ → ℕ → State → Prog (Unit {0})
start_terminals zero i cpu = done tt
start_terminals (suc n) i cpu = do
  s ← see
  let code = s.linked.code_at tprocess
  let t = set_reg (set_reg cpu 16 code) 15 (s.frames.tsysstack i)
  ask (sys1 (set_reg (record t { s_crp = s.linked.segs_at (privileged_segs i) }) 4 (pos i)))
  start_terminals n (i + 1) cpu

-- A new area of terminal `n`: `code` on its own stack, with its number in register 4.
abbrev pub new_area : ℕ → Code → ℤ → Support → State → State
new_area n code stack s cpu =
    let t = set_reg (set_reg cpu 16 (s.linked.code_at code)) 15 stack in
    set_reg (record t { s_crp = s.linked.segs_at (privileged_segs n) }) 4 (pos n)

abbrev pub modify_sa : ℕ → (StateArea → StateArea) → Support → Support
modify_sa n f s = record s { sa = update s.sa n (f (s.sa n)) }

-- The three areas are set up, then given to the nucleus, and the process goes to its boot page.
unfoldable pub t_process : Prog (Unit {0})
t_process = do
  tp ← store_state
  let n = index_of (tp.s_r 4)
  c1 ← store_state
  set (λ s.
      modify_sa n
        (λ a. record a { prog_new = new_area n slproghandler (s.frames.tsysstack n) s c1 }) s)
  c2 ← store_state
  set (λ s.
      modify_sa n (λ a. record a { mm_new = new_area n slmmhandler (s.frames.tmmstack n) s c2 }) s)
  c3 ← store_state
  set (λ s.
      modify_sa n (λ a. record a { sys_new = new_area n slsyshandler (s.frames.tsysstack n) s c3 })
        s)
  ask (sys5 0 n)
  ask (sys5 1 n)
  ask (sys5 2 n)
  s ← see
  let pc = set_reg tp 16 (pos (0x80000 + 31 * pagesize))
  let t = set_reg pc 15 (pos (0x80000 + 32 * pagesize - 2))
  leave (
      ldst (record t {
        s_sr = record (t.s_sr) { ps_s = 0 };
        s_crp = s.linked.segs_at (unprivileged_segs n);
      }))

unfoldable pub sl_prog_handler : Prog (Unit {0})
unfolding terminate
sl_prog_handler = do
  cpu ← store_state
  let n = index_of (cpu.s_r 4)
  terminate n
  s ← see
  leave (ldst (s.sa n).prog_old)

-- A page of segment 1 or 2 is brought into a frame; `read` and `write` reach its descriptor.
unfoldable pub bring_in :
    ℕ → ℕ → ℕ → (Support → Pd) → ((Pd → Pd) → Support → Support) → Prog (Unit {0})
unfolding get_free_frame page_in
bring_in n page seg read write = do
  frame ← get_free_frame (pos n) (pos page) (pos seg)
  s ← see
  if (read s).pd_r == 0 then page_in (pos n) (pos page) (pos seg) frame else done tt
  p_sem sem_mm
  set (write (λ d. record d { pd_p = 1; pd_frame = bits frame % 32768 }))
  v_sem sem_mm

-- The branches of slmmhandler on the segment of the missing page.
unfoldable pub mm_fault : ℕ → ℕ → ℕ → Prog (Unit {0})
unfolding bring_in terminate
mm_fault n zero page = terminate n
mm_fault n (suc zero) page =
    bring_in n page 1 (λ s. (s.mm n).unprivileged_page page) (modify_private n page)
mm_fault n (suc (suc seg)) page = bring_in n page 2 (λ s. s.shared_page page) (modify_shared page)

unfoldable pub sl_mm_handler : Prog (Unit {0})
unfolding mm_fault terminate
sl_mm_handler = do
  cpu ← store_state
  let n = index_of (cpu.s_r 4)
  s ← see
  let page = mm_pg (s.sa n).mm_old.s_tmp
  let seg = mm_seg (s.sa n).mm_old.s_tmp
  if ((s.mm n).privileged_seg seg).sd_p == 0 then terminate n else mm_fault n seg page
  t ← see
  leave (ldst (t.sa n).mm_old)

-- The switch of slsyshandler; `at n` is the address of `mm[n].buf`.
unfoldable pub sl_call : (ℕ → Addr) → ℕ → ℕ → Prog (Unit {0})
unfolding read_from_terminal write_to_terminal v_virtual_semaphore p_virtual_semaphore delay
    disk_put disk_get get_time_of_day terminate
sl_call at number n =
    if number == 9
    then read_from_terminal at n
    else if number == 10
    then write_to_terminal at n
    else if number == 11
    then v_virtual_semaphore n
    else if number == 12
    then p_virtual_semaphore n
    else if number == 13
    then delay n
    else if number == 14
    then disk_put n
    else if number == 15
    then disk_get n
    else if number == 16
    then get_time_of_day n
    else if number == 17
    then terminate n
    else done tt

unfoldable pub sl_sys_handler : (ℕ → Addr) → Prog (Unit {0})
unfolding sl_call
sl_sys_handler at = do
  cpu ← store_state
  let n = index_of (cpu.s_r 4)
  s ← see
  sl_call at (sys_no (s.sa n).sys_old.s_tmp) n
  t ← see
  leave (ldst (t.sa n).sys_old)
