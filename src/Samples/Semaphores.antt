-- ===== src/Samples/Semaphores.antt =====
-- The theorems about queues/asl.c at a small list of semaphores.
use hoca_operating_system.Prelude.{
  ◌≡◌, refl, inr, none, some, [], ◌∷◌, arith, if◌then◌else◌, negsuc, ◌==◌,
}
use hoca_operating_system.Machine.{enull_link}
use hoca_operating_system.Run.{ok}
use hoca_operating_system.Procq.Cells.{to}
use hoca_operating_system.Procq.Remove.{head_of}
use hoca_operating_system.Asl.{Sems, head_blocked}
use hoca_operating_system.Asl.Find.{IsAsl, head_blocked-head}
use hoca_operating_system.Samples.Queues.{table, waiting, waiting-IsQueue}

-- Processes 3 and 5 wait for the semaphore at 0x2100, with descriptor 6; descriptor 2 has another
-- semaphore, and no descriptor is free.
abbrev pub listed : Sems
listed = record {
  procs = table;
  semd = λ w.
      if w == 2
      then record { s_next = some 6; s_prev = none; sem_add = some 0x2200; s_link = enull_link }
      else record { s_next = none; s_prev = some 2; sem_add = some 0x2100; s_link = to (5, 0) };
  cur_sem = some 2;
  free_head_s = none;
  words = λ _. negsuc 1;
}

listed-IsAsl : IsAsl listed (2 ∷ 6 ∷ [])
listed-IsAsl = record { active = (refl, (refl, refl)); short = omega arith }

head_blocked-head_example : head_blocked 0x2100 listed ≡ ok (head_of waiting) listed
head_blocked-head_example =
    head_blocked-head listed (2 ∷ 6 ∷ []) 0x2100 waiting listed-IsAsl
      (inr (6, (refl, waiting-IsQueue)))
