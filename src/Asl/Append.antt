-- ===== src/Asl/Append.antt =====
-- insertBlocked of queues/asl.c for a semaphore that has a descriptor, and the queue of that semaphore.
use hoca_operating_system.Prelude.{
  ℕ, ◌<◌, Bool, false, ◌≡◌, refl, sym, subst, Option, none, some, List, [], ◌∷◌, ◌++◌, arith,
  length,
}
use hoca_operating_system.Machine.{Ptr, Addr, Link, semmax}
use hoca_operating_system.Run.{
  ok, exit, ◌>>=◌, ◌>>◌, and_then, Run, Cmd, pure, modify, Returns, returns, Returns-bind,
}
use hoca_operating_system.Procq.{Procs, insert_proc}
use hoca_operating_system.Procq.Cells.{Node, IsQueue, has_proc}
use hoca_operating_system.Procq.Insert.{FirstFree, Appended, insert_proc-append}
use hoca_operating_system.Asl.{
  Sems, find_sem, sem_fuel, modify_semd, set_sem, enter_sem, insert_at, insert_blocked, first_sem,
  on_entry,
}
use hoca_operating_system.Asl.Find.{Active, lookup, before, IsAsl, find_sem-lookup}
use hoca_operating_system.Asl.Relink.{Requeued, relinked, relinked-Requeued}
use hoca_operating_system.Asl.Enter.{set_sem_link}

module _ (s : Sems) (ws : List ℕ) (a : Addr) (w : ℕ) (ns : List Node) (p i : ℕ) (asl : IsAsl s ws)
    (found : lookup s.semd a ws ≡ some w) where
  -- enter_sem, from the result of its insertProc.
  enter_from :
      (r : Run Procs Link)
      → Returns (Appended s.procs ns (p, i)) r
      → Returns
          (λ _. Requeued s ws a (ns ++ (p, i) ∷ []) (ns ++ (p, i) ∷ []))
          (and_then
            (elim r as (λ _. Run Sems Link) [
              | ok tp u ↦ ok tp (record s { procs = u })
              | exit e u ↦ exit e (record s { procs = u })
            ])
            (λ tp.
              modify (modify_semd w (λ d. record d { s_link = tp }))
              >> on_entry (set_sem semmax 0 a) (some p)))
  unfolding modify_semd relinked
  enter_from _ (returns {a = tp} {s = u} h) = returns (
      relinked-Requeued s ws a w p (set_sem semmax 0 a) (set_sem_link semmax 0 a) asl found tp u
        (ns ++ (p, i) ∷ []) (ns ++ (p, i) ∷ []) h.0 h.1)

  pub enter_sem-Requeued :
      IsQueue s.procs (s.semd w).s_link ns
      → has_proc p ns ≡ false
      → FirstFree (s.procs.proc p) i
      → Returns
          (λ _. Requeued s ws a (ns ++ (p, i) ∷ []) (ns ++ (p, i) ∷ []))
          (enter_sem w a (some p) s)
  unfolding enter_sem
  enter_sem-Requeued queue new slot =
      enter_from (insert_proc (s.semd w).s_link (some p) s.procs)
        (insert_proc-append s.procs (s.semd w).s_link ns p i queue new slot)

  insert_at-Requeued :
      (prev free : Ptr) (o : Option ℕ)
      → o ≡ some w
      → IsQueue s.procs (s.semd w).s_link ns
      → has_proc p ns ≡ false
      → FirstFree (s.procs.proc p) i
      → Returns
          (λ full t. (full ≡ false) × Requeued s ws a (ns ++ (p, i) ∷ []) (ns ++ (p, i) ∷ []) t)
          (insert_at a (some p) prev o free s)
  unfolding insert_at
  insert_at-Requeued prev free o e queue new slot =
      rw e (Returns-bind (enter_sem-Requeued queue new slot) (λ _ t h. returns (refl, h)))

-- When a semaphore has a descriptor, insertBlocked puts a process that does not wait for it yet at the
-- end of its queue, through the first slot of the process that is free, and answers FALSE; the
-- queues of other semaphores that share no slot with it, the list of active semaphores, the free
-- descriptors and the values of the semaphores are as before.
pub insert_blocked-append :
    (s : Sems) (ws : List ℕ) (a : Addr) (w : ℕ) (ns : List Node) (p i : ℕ)
    → IsAsl s ws
    → lookup s.semd a ws ≡ some w
    → IsQueue s.procs (s.semd w).s_link ns
    → has_proc p ns ≡ false
    → FirstFree (s.procs.proc p) i
    → Returns
        (λ full t. (full ≡ false) × Requeued s ws a (ns ++ (p, i) ∷ []) (ns ++ (p, i) ∷ []) t)
        (insert_blocked a (some p) s)
unfolding insert_blocked
insert_blocked-append s ws a w ns p i asl found queue new slot =
    go s.cur_sem ws asl.active asl.short found
  where
    go :
        (o : Ptr) (vs : List ℕ)
        → Active s.semd o vs
        → length vs < sem_fuel
        → lookup s.semd a vs ≡ some w
        → Returns
            (λ full t. (full ≡ false) × Requeued s ws a (ns ++ (p, i) ∷ []) (ns ++ (p, i) ∷ []) t)
            (elim o as (λ _. Cmd Sems Bool) [
              | none ↦ first_sem a >>= (λ v. enter_sem v a (some p) >> pure false)
              | some c ↦
                  find_sem sem_fuel a none (some c)
                  >>= (λ (prev, walker). insert_at a (some p) prev walker s.free_head_s)
            ]
              s)
    go o [] h short l = absurd (ground (arith, l))
    go o (v ∷ vs) h short l = rw h.0 (
        subst
          (λ x.
            Returns
              (λ full t. (full ≡ false) × Requeued s ws a (ns ++ (p, i) ∷ []) (ns ++ (p, i) ∷ []) t)
              (and_then x (λ (q : Ptr × Ptr). insert_at a (some p) q.0 q.1 s.free_head_s)))
          (sym (find_sem-lookup s a (v ∷ vs) sem_fuel none (some v) (refl, h.1) short))
          (insert_at-Requeued s ws a w ns p i asl found (before s.semd a none (v ∷ vs))
            s.free_head_s (lookup s.semd a (v ∷ vs)) l queue new slot))
