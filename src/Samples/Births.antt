-- ===== src/Samples/Births.antt =====
-- The theorem about Create_Process at a small state.
use hoca_operating_system.Prelude.{ℕ, ◌≡◌, refl, subst, sym, ap, [], ◌∷◌, arith, true, count_up}
use hoca_operating_system.Run.{Returns}
use hoca_operating_system.Procq.{Procs}
use hoca_operating_system.Procq.Free.{has, IsFree}
use hoca_operating_system.Asl.{init_semd}
use hoca_operating_system.Asl.Start.{init_semd-Refines}
use hoca_operating_system.Procq.Cells.{to, IsQueue}
use hoca_operating_system.Kernel.{Kernel}
use hoca_operating_system.Kernel.Queues.{Queues}
use hoca_operating_system.Syscall.{create_process}
use hoca_operating_system.Syscall.Create.{Unplaced, Forked, create_process-Forked}
use hoca_operating_system.Samples.Nucleus.{small}
use hoca_operating_system.Samples.Queues.{table, waiting, waiting-IsQueue, table-IsFree}
use hoca_operating_system.Samples.Semaphores.{listed}
use hoca_operating_system.Samples.Waiting.{no_one}

-- Processes 3 and 5 are ready, 7 and 8 are free, and nobody waits for a semaphore.
abbrev calm : Kernel
calm = record small { sems = init_semd listed; running_queue = to (5, 0) }

calm_table : (init_semd listed).procs ≡ table
unfolding init_semd count_up
calm_table = refl

calm-Queues : Queues calm waiting no_one
calm-Queues = record {
  refines = init_semd-Refines listed;
  queue = subst (λ u. IsQueue u (to (5, 0)) waiting) (sym calm_table) waiting-IsQueue;
  apart = λ a n i. absurd (ground (arith, i));
  slots = λ a n i. absurd (ground (arith, i));
}

calm-Unplaced : (f : ℕ) → has f (7 ∷ 8 ∷ []) ≡ true → Unplaced calm waiting no_one [] f
calm-Unplaced f i = record {
  not_ready = ground (arith, i);
  waits_not = λ a. refl;
  no_child = refl;
  alone = ap (λ (u : Procs). (u.proc f).brother) calm_table;
}

create_process-Forked_example :
    Returns (λ _. Forked calm 0x1000 3 waiting no_one [] (7 ∷ 8 ∷ [])) (create_process 0x1000 calm)
create_process-Forked_example =
    create_process-Forked calm 0x1000 3 0 ((5, 0) ∷ []) no_one [] (7 ∷ 8 ∷ []) calm-Queues
      (subst (λ u. IsFree u (7 ∷ 8 ∷ [])) (sym calm_table) table-IsFree)
      (ap (λ (u : Procs). (u.proc 3).child) calm_table) tt (omega arith) calm-Unplaced
