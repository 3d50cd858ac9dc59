-- ===== src/Samples/Signals.antt =====
-- The theorems about the running queue together with the queues of semaphores.
use hoca_operating_system.Prelude.{
  ℕ, ◌<◌, ◌≡◌, refl, inr, [], ◌∷◌, arith, true, false, count_up, pos,
}
use hoca_operating_system.Machine.{Addr, semmax, lock}
use hoca_operating_system.Run.{Returns, Loads}
use hoca_operating_system.Procq.{insert_proc, find_slot, modify_proc, inc_qcount, write_link}
use hoca_operating_system.Procq.Cells.{to, IsQueue, has_node}
use hoca_operating_system.Asl.{init_semd, insert_blocked}
use hoca_operating_system.Kernel.{Kernel, entry}
use hoca_operating_system.Kernel.Queues.{Queues}
use hoca_operating_system.Interrupt.{int_sem_op}
use hoca_operating_system.Interrupt.Signal.{Signalled, CountedUp, int_sem_op-Signalled}
use hoca_operating_system.Interrupt.Park.{Lowered, int_sem_op-Lowered}
use hoca_operating_system.Sched.{schedule, quantum}
use hoca_operating_system.Sched.Dispatch.{schedule-Loads}
use hoca_operating_system.Samples.Nucleus.{small}
use hoca_operating_system.Samples.Queues.{waiting}
use hoca_operating_system.Samples.Waiting.{two_wait, two_queues, two_Refines}

-- Processes 3 and 5 are in the running queue, and 4 and 1 wait for the semaphore at 0x2100.
abbrev served : Kernel
served = record small { sems = two_wait; running_queue = to (5, 0) }

served-IsQueue : IsQueue two_wait.procs (to (5, 0)) waiting
unfolding insert_blocked init_semd count_up insert_proc find_slot modify_proc inc_qcount write_link
served-IsQueue =
    inr (
      (3, 0) ∷ [],
      (5, 0),
      refl,
      refl,
      record { seg = (refl, refl); distinct = (refl, (refl, tt)) },
    )

waits_apart :
    (a : Addr) (p i : ℕ) → has_node (p, i) (two_queues a) ≡ true → has_node (p, i) waiting ≡ false
waits_apart a p i h = ground (arith, h)

waits_low : (a : Addr) (p i : ℕ) → has_node (p, i) (two_queues a) ≡ true → i < semmax
waits_low a p i h = ground (arith, h)

served-Queues : Queues served waiting two_queues
served-Queues = record {
  refines = two_Refines;
  queue = served-IsQueue;
  apart = λ a n h. waits_apart a n.0 n.1 h;
  slots = λ a n h. waits_low a n.0 n.1 h;
}

int_sem_op-Signalled_example :
    Returns
      (λ _ t. Signalled served waiting two_queues 0x2100 t × CountedUp served 0x2100 t)
      (int_sem_op 0x2100 (pos 1) served)
int_sem_op-Signalled_example =
    int_sem_op-Signalled served waiting two_queues 0x2100 (pos 1) served-Queues refl
      (λ p e. ground (arith, e))

-- Process 3 does P on the semaphore at 0x2100, on which it does not wait yet.
int_sem_op-Lowered_example :
    Lowered served 3 0 ((5, 0) ∷ []) two_queues 0x2100 (int_sem_op 0x2100 lock served)
int_sem_op-Lowered_example =
    int_sem_op-Lowered served 3 0 ((5, 0) ∷ []) two_queues 0x2100 served-Queues (omega arith) refl

schedule-Loads_example :
    Loads
      (λ x t.
        (x ≡ (entry served 3).p_s)
        × Queues t ((3, 0) ∷ (5, 0) ∷ []) two_queues
        × (t.timer ≡ quantum))
      (schedule served)
schedule-Loads_example = schedule-Loads served (3, 0) ((5, 0) ∷ []) two_queues served-Queues
