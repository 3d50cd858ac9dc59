-- ===== src/Asl/Full.antt =====
-- insertBlocked of queues/asl.c when every descriptor is in use.
use hoca_operating_system.Prelude.{ℕ, Bool, true, false, ◌≡◌, refl, ap, ◌∙◌, none, some, List, ◌∷◌}
use hoca_operating_system.Machine.{Ptr, Addr}
use hoca_operating_system.Run.{ok, ◌>>=◌, ◌>>◌, and_then, Cmd, pure}
use hoca_operating_system.Asl.{
  Sems, find_sem, sem_fuel, enter_sem, insert_at, insert_blocked, first_sem,
}
use hoca_operating_system.Asl.Find.{lookup, before, IsAsl, find_sem-lookup}

insert_at_full :
    (s : Sems) (a : Addr) (p prev o free : Ptr)
    → o ≡ none
    → free ≡ none
    → insert_at a p prev o free s ≡ ok true s
unfolding insert_at
insert_at_full s a p prev o free e f = rw (e, f) refl

-- The answer TRUE, and the state as it was.
pub insert_blocked-lookup :
    (s : Sems) (v : ℕ) (vs : List ℕ) (a : Addr) (p : Ptr)
    → IsAsl s (v ∷ vs)
    → lookup s.semd a (v ∷ vs) ≡ none
    → s.free_head_s ≡ none
    → insert_blocked a p s ≡ ok true s
unfolding insert_blocked
insert_blocked-lookup s v vs a p asl new free = go s.cur_sem asl.active.0
  where
    go :
        (o : Ptr)
        → o ≡ some v
        → elim o as (λ _. Cmd Sems Bool) [
          | none ↦ first_sem a >>= (λ w. enter_sem w a p >> pure false)
          | some c ↦
              find_sem sem_fuel a none (some c)
              >>= (λ (prev, walker). insert_at a p prev walker s.free_head_s)
        ]
            s
          ≡ ok true s
    go o e = rw e (
        ap (λ x. and_then x (λ (q : Ptr × Ptr). insert_at a p q.0 q.1 s.free_head_s))
          (find_sem-lookup s a (v ∷ vs) sem_fuel none (some v) (refl, asl.active.1) asl.short)
        ∙ insert_at_full s a p (before s.semd a none (v ∷ vs)) (lookup s.semd a (v ∷ vs))
            s.free_head_s new free)
