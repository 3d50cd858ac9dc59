-- ===== src/Asl/Wake.antt =====
-- removeBlocked of queues/asl.c for a semaphore that more than one process waits for.
use hoca_operating_system.Prelude.{ℕ, ◌≡◌, refl, none, some, List, ◌∷◌}
use hoca_operating_system.Machine.{Ptr, Addr, Link, semmax}
use hoca_operating_system.Run.{ok, exit, ◌>>◌, and_then, Run, pure, modify, Returns, returns}
use hoca_operating_system.Procq.{Procs, remove_proc}
use hoca_operating_system.Procq.Cells.{Node, IsQueue}
use hoca_operating_system.Procq.Remove.{Removed, remove_proc-head}
use hoca_operating_system.Asl.{
  Sems, sem_fuel, modify_semd, set_sem2, remove_blocked, drop_if_empty, on_entry,
}
use hoca_operating_system.Asl.Find.{lookup, IsAsl, WaitFor, find_sem-lookup, head_blocked-head}
use hoca_operating_system.Asl.Woken.{Woken, relinked-Woken, set_sem2_link}
use hoca_operating_system.Asl.Relink.{Requeued, relinked, relinked-Requeued}

-- A descriptor whose queue is not empty stays.
drop_if_empty-keep :
    (t : Sems) (ws : List ℕ) (a : Addr) (w : ℕ) (n : Node) (ns : List Node)
    → IsAsl t ws
    → WaitFor t ws a (n ∷ ns)
    → drop_if_empty a w t ≡ ok tt t
unfolding drop_if_empty
drop_if_empty-keep t ws a w n ns asl wait =
    rw (drop_if_empty, head_blocked-head t ws a (n ∷ ns) asl wait) refl

module _ (s : Sems) (ws : List ℕ) (a : Addr) (w : ℕ) (n m : Node) (ns : List Node)
    (asl : IsAsl s ws) (found : lookup s.semd a ws ≡ some w) where
  remove_from :
      (r : Run Procs (Ptr × Link))
      → Returns (Removed s.procs (n ∷ m ∷ ns)) r
      → Returns
          (λ rv t.
            (rv ≡ some n.0)
            × Requeued s ws a (n ∷ m ∷ ns) (m ∷ ns) t
            × Woken s.procs (n ∷ m ∷ ns) t.procs)
          (and_then
            (elim r as (λ _. Run Sems (Ptr × Link)) [
              | ok v u ↦ ok v (record s { procs = u })
              | exit e u ↦ exit e (record s { procs = u })
            ])
            (λ (rv, tp).
              modify (modify_semd w (λ d. record d { s_link = tp }))
              >> (on_entry (set_sem2 semmax 0 a) rv >> (drop_if_empty a w >> pure rv))))
  unfolding modify_semd relinked
  remove_from _ (returns {a = (rv, tp)} {s = u} k) =
      let done =
        relinked-Requeued s ws a w n.0 (set_sem2 semmax 0 a) (set_sem2_link semmax 0 a) asl found tp
          u (n ∷ m ∷ ns) (m ∷ ns) k.1 k.3 in
      rw
        (
          k.0,
          drop_if_empty-keep (relinked s w n.0 (set_sem2 semmax 0 a) tp u) ws a w m ns done.asl
              done.waits,
        )
        (returns (refl, done, relinked-Woken s w a tp u n (m ∷ ns) k.2 k.3 k.4))

pub remove_blocked-Woken :
    (s : Sems) (ws : List ℕ) (a : Addr) (w : ℕ) (n m : Node) (ns : List Node)
    → IsAsl s ws
    → lookup s.semd a ws ≡ some w
    → IsQueue s.procs (s.semd w).s_link (n ∷ m ∷ ns)
    → Returns
        (λ rv t.
          (rv ≡ some n.0)
          × Requeued s ws a (n ∷ m ∷ ns) (m ∷ ns) t
          × Woken s.procs (n ∷ m ∷ ns) t.procs)
        (remove_blocked a s)
unfolding remove_blocked
remove_blocked-Woken s ws a w n m ns asl found queue =
    rw (remove_blocked, find_sem-lookup s a ws sem_fuel none s.cur_sem asl.active asl.short, found)
      (remove_from s ws a w n m ns asl found (remove_proc (s.semd w).s_link s.procs)
        (remove_proc-head s.procs (s.semd w).s_link (n ∷ m ∷ ns) queue))
