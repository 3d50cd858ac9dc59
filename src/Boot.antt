-- ===== src/Boot.antt =====
-- nucleus/traps/main.c: the start of the nucleus.
use hoca_operating_system.Prelude.{pos, sub32}
use hoca_operating_system.Machine.{Ptr, enull_link, set_reg}
use hoca_operating_system.Run.{Cmd, ◌>>=◌, ◌>>◌, get, modify, deref}
use hoca_operating_system.Procq.{init_proc, alloc_proc}
use hoca_operating_system.Asl.{init_semd}
use hoca_operating_system.Kernel.{Kernel, p1, on_table, put_procs, modify_entry, make_ready}
use hoca_operating_system.Sched.{schedule}
use hoca_operating_system.Interrupt.{int_init}
use hoca_operating_system.Trap.{trap_init}

unfoldable pub init : Kernel → Kernel
init k0 =
    let k1 = record k0 { running_queue = enull_link; init_state = k0.cpu } in
    let k2 = put_procs k1 (init_proc k1.sems.procs) in
    let k3 = record k2 { sems = init_semd k2.sems } in int_init (trap_init k3)

-- The first process runs p1, with two pages of the nucleus's stack left below its own.
unfoldable pub start_first : Ptr → Cmd Kernel (Unit {0})
unfolding modify_entry make_ready
start_first first = do
  p ← deref first
  k ← get
  let sp = sub32 (k.init_state.s_r 15) (pos 1024)
  modify (modify_entry p (λ e. record e { p_s = set_reg (set_reg k.cpu 15 sp) 16 (k.code p1) }))
  make_ready first

unfoldable pub main : Cmd Kernel (Unit {0})
unfolding init start_first
main = do modify init; first ← on_table alloc_proc; start_first first; schedule
