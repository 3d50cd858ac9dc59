-- ===== src/Asl/Start.antt =====
-- initSemd of queues/asl.c, and the queues of the semaphores after it.
use hoca_operating_system.Prelude.{
  ℕ, true, ◌≡◌, refl, subst, inl, inr, List, [], ◌∷◌, arith, ◌==◌, Bool-cases, true_false, count_up,
}
use hoca_operating_system.Procq.Free.{has}
use hoca_operating_system.Asl.{Sems, init_semd, modify_semd}
use hoca_operating_system.Asl.Shape.{Unused, Shape}
use hoca_operating_system.Asl.Waiting.{Refines}

-- Every member of a list has a property.
abbrev EachOf : (ℕ → Type 0) → List ℕ → Type 0
EachOf P [] = Unit {0}
EachOf P (w ∷ ws) = P w × EachOf P ws

EachOf-has : (P : ℕ → Type 0) (ws : List ℕ) → EachOf P ws → (v : ℕ) → has v ws ≡ true → P v
EachOf-has P [] h v i = true_false i refl
EachOf-has P (w ∷ ws) h v i = elim (Bool-cases (v == w)) [
  | inl here ↦ let e : w ≡ v = ground arith in subst P e h.0
  | inr there ↦ EachOf-has P ws h.1 v (ground (arith, i, there))
]

abbrev all_descriptors : List ℕ
all_descriptors =
    0 ∷ 1 ∷ 2 ∷ 3 ∷ 4 ∷ 5 ∷ 6 ∷ 7 ∷ 8 ∷ 9 ∷ 10 ∷ 11 ∷ 12 ∷ 13 ∷ 14 ∷ 15 ∷ 16 ∷ 17 ∷ 18 ∷ 19 ∷ []

init_semd-Shape : (s : Sems) → Shape (init_semd s) [] all_descriptors
unfolding init_semd modify_semd count_up
init_semd-Shape s = record {
  active = refl;
  free = (
    refl,
    refl,
    (
      refl,
      refl,
      (
        refl,
        refl,
        (
          refl,
          refl,
          (
            refl,
            refl,
            (
              refl,
              refl,
              (
                refl,
                refl,
                (
                  refl,
                  refl,
                  (
                    refl,
                    refl,
                    (
                      refl,
                      refl,
                      (
                        refl,
                        refl,
                        (
                          refl,
                          refl,
                          (
                            refl,
                            refl,
                            (
                              refl,
                              refl,
                              (
                                refl,
                                refl,
                                (
                                  refl,
                                  refl,
                                  (refl, refl, (refl, refl, (refl, refl, (refl, refl, refl)))),
                                ),
                              ),
                            ),
                          ),
                        ),
                      ),
                    ),
                  ),
                ),
              ),
            ),
          ),
        ),
      ),
    ),
  );
  once = tt;
  once_free = (
    refl,
    (
      refl,
      (
        refl,
        (
          refl,
          (
            refl,
            (
              refl,
              (
                refl,
                (
                  refl,
                  (
                    refl,
                    (
                      refl,
                      (
                        refl,
                        (refl, (refl, (refl, (refl, (refl, (refl, (refl, (refl, (refl, tt))))))))),
                      ),
                    ),
                  ),
                ),
              ),
            ),
          ),
        ),
      ),
    ),
  );
  apart = λ v i. true_false i refl;
  named = tt;
  unused =
      EachOf-has (λ v. Unused ((init_semd s).semd v)) all_descriptors
        (
          record { no_sem = refl; no_queue = refl },
          (
            record { no_sem = refl; no_queue = refl },
            (
              record { no_sem = refl; no_queue = refl },
              (
                record { no_sem = refl; no_queue = refl },
                (
                  record { no_sem = refl; no_queue = refl },
                  (
                    record { no_sem = refl; no_queue = refl },
                    (
                      record { no_sem = refl; no_queue = refl },
                      (
                        record { no_sem = refl; no_queue = refl },
                        (
                          record { no_sem = refl; no_queue = refl },
                          (
                            record { no_sem = refl; no_queue = refl },
                            (
                              record { no_sem = refl; no_queue = refl },
                              (
                                record { no_sem = refl; no_queue = refl },
                                (
                                  record { no_sem = refl; no_queue = refl },
                                  (
                                    record { no_sem = refl; no_queue = refl },
                                    (
                                      record { no_sem = refl; no_queue = refl },
                                      (
                                        record { no_sem = refl; no_queue = refl },
                                        (
                                          record { no_sem = refl; no_queue = refl },
                                          (
                                            record { no_sem = refl; no_queue = refl },
                                            (
                                              record { no_sem = refl; no_queue = refl },
                                              (record { no_sem = refl; no_queue = refl }, tt),
                                            ),
                                          ),
                                        ),
                                      ),
                                    ),
                                  ),
                                ),
                              ),
                            ),
                          ),
                        ),
                      ),
                    ),
                  ),
                ),
              ),
            ),
          ),
        );
}

-- Whatever the tables held, after initSemd no process waits for any semaphore.
pub init_semd-Refines : (s : Sems) → Refines (init_semd s) (λ _. [])
unfolding init_semd modify_semd count_up
init_semd-Refines s = record {
  ws = [];
  fs = all_descriptors;
  waiting = record {
    shape = init_semd-Shape s;
    room = refl;
    queues = λ a. inl (refl, refl);
    apart = λ a b other n i. refl;
  };
  busy = λ b w found. absurd (ground (arith, found));
}
