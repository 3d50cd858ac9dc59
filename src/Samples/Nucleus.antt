-- ===== src/Samples/Nucleus.antt =====
-- The theorems about the nucleus at a small state.
use hoca_operating_system.Prelude.{
  ◌≡◌, ◌+◌, refl, inl, none, some, arith, if◌then◌else◌, pos, negsuc, ◌==◌, [], ◌∷◌,
}
use hoca_operating_system.Machine.{State, Proc, enull_link, set_reg, set_pr_typ, privilege}
use hoca_operating_system.Run.{Returns, Loads, ◌>>◌}
use hoca_operating_system.Procq.{link}
use hoca_operating_system.Kernel.{Kernel, dev_sem}
use hoca_operating_system.Kernel.Running.{Running}
use hoca_operating_system.Interrupt.{int_handler, wait_for_io}
use hoca_operating_system.Interrupt.Handshake.{Answered, int_handler-wait_for_io, wait_for_io-late}
use hoca_operating_system.Syscall.{
  specify_trap_state_vector, terminate_process, old_vector, new_vector,
}
use hoca_operating_system.Trap.{pass_up, trap_mm_handler, trap_sys_handler, mm_area, sys_area}
use hoca_operating_system.Trap.Deliver.{
  Delivered, trap_mm_handler-Delivered, trap_sys_handler-Delivered,
}
use hoca_operating_system.Trap.Vectors.{
  specify_trap_state_vector-terminate_process, specify_trap_state_vector-pass_up,
}
use hoca_operating_system.Sched.{schedule}
use hoca_operating_system.Sched.Idle.{Idle, schedule-Idle}
use hoca_operating_system.Samples.Queues.{blank, blank_state}

-- Process 3 runs in user mode and has vectors for page faults and program traps; it made SYS2, and
-- registers 2 to 4 of the state at 0x7000 ask for a vector for system calls.
abbrev runner : Proc
runner = record blank {
  p_link = λ i. if i == 0 then link (some 0) (some 3) else enull_link;
  memory_management_old = some 0x5000;
  memory_management_new = some 0x5100;
  prog_old = some 0x5200;
  prog_new = some 0x5300;
}

abbrev calling : State
calling = record blank_state { s_sr = record { ps_s = 0; ps_m = 1; ps_int = 0 }; s_tmp = 2 }

abbrev asking : State
asking = record blank_state {
  s_r = λ i.
      if i == 2 then pos 2 else if i == 3 then pos 0x6000 else if i == 4 then pos 0x6100 else pos 0;
}

-- The state at 0x7100 asks for device 2.
abbrev waiting_io : State
waiting_io = set_reg blank_state 4 (pos 2)

abbrev pub small : Kernel
small = record {
  sems = record {
    procs = record { proc = λ p. if p == 3 then runner else blank; free_head = some 4 };
    semd = λ _. record { s_next = none; s_prev = none; sem_add = none; s_link = enull_link };
    cur_sem = none;
    free_head_s = some 0;
    words = λ a. if a == dev_sem 3 then pos 2 else pos 0;
  };
  running_queue = link (some 0) (some 3);
  init_state = blank_state;
  clock_count = pos 0;
  save_arr = λ _. record { amnt = pos 0; stat = pos 0 };
  states = λ a.
      if a == sys_area
      then calling
      else if a == 0x7000
      then asking
      else if a == 0x7100
      then waiting_io
      else if a == 0x7200
      then set_reg blank_state 4 (pos 3)
      else blank_state;
  vpops = λ _. record { op = pos 0; sem = 0 };
  cpu = blank_state;
  clock = λ n. pos (n + 100);
  reads = 0;
  timer = pos 5000;
  code = λ _. pos 0;
  evt = λ _. none;
  dev = λ _. record { d_op = 0; d_dadd = pos 12; d_badd = 0; d_stat = pos 0 };
  polls = [];
  buffer = "";
}

small-Running : Running 3 small
small-Running = record { tail = 3; slot = 0; queue = refl; first = refl }

trap_mm_handler-Delivered_example :
    Loads (Delivered 3 0x5000 0x5100 (small.states mm_area) small) (trap_mm_handler small)
trap_mm_handler-Delivered_example =
    trap_mm_handler-Delivered 3 0x5000 0x5100 small small-Running refl refl

trap_sys_handler-Delivered_example :
    Loads
      (Delivered 3 0x5200 0x5300
        (record (small.states sys_area) {
          s_tmp = set_pr_typ (small.states sys_area).s_tmp privilege;
        })
        small)
      (trap_sys_handler small)
trap_sys_handler-Delivered_example =
    trap_sys_handler-Delivered 3 0x5200 0x5300 small small-Running refl refl refl

specify_trap_state_vector-terminate_process_example :
    Returns
      (λ _ t.
        (old_vector 2 (t.sems.procs.proc 3) ≡ some 0x6000)
        × ((new_vector 2 (t.sems.procs.proc 3) ≡ some 0x6100)
            × (specify_trap_state_vector 0x7000 t ≡ terminate_process t)))
      (specify_trap_state_vector 0x7000 small)
specify_trap_state_vector-terminate_process_example =
    specify_trap_state_vector-terminate_process 3 2 0x7000 0x6000 0x6100 small small-Running
      (omega arith) refl refl refl refl

specify_trap_state_vector-pass_up_example :
    Loads
      (λ x t. (x ≡ t.states 0x6100) × (t.states 0x6000 ≡ small.states sys_area))
      ((specify_trap_state_vector 0x7000 >> pass_up sys_area 2) small)
specify_trap_state_vector-pass_up_example =
    specify_trap_state_vector-pass_up 3 2 0x7000 0x6000 0x6100 small small-Running (omega arith)
      refl refl refl refl sys_area

int_handler-wait_for_io_example :
    Returns (λ _. Answered 0x7100 2 small) ((int_handler 0 2 >> wait_for_io 0x7100) small)
int_handler-wait_for_io_example = int_handler-wait_for_io 0 2 0x7100 small (omega arith) refl refl

wait_for_io-late_example :
    Returns
      (λ _ t. (t.states ≡ small.states) × (t.sems.words (dev_sem 3) ≡ pos 1))
      (wait_for_io 0x7200 small)
wait_for_io-late_example = wait_for_io-late 3 0 3 0x7200 small (omega arith) refl refl small-Running

-- No process is ready, and none waits; the printer is ready at the third reading.
abbrev finished : Kernel
finished = record small {
  running_queue = enull_link;
  polls = negsuc 0 ∷ pos 3 ∷ pos 0 ∷ pos 1 ∷ [];
}

schedule-Idle_example : Idle finished (λ _. []) (pos 1 ∷ []) (schedule finished)
schedule-Idle_example =
    schedule-Idle finished [] (λ _. []) (negsuc 0 ∷ pos 3 ∷ []) (pos 1 ∷ []) refl
      (record { active = refl; short = omega arith }) (λ a. inl (refl, refl)) (refl, (refl, tt))
      refl
