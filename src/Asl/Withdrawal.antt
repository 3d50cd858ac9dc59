-- ===== src/Asl/Withdrawal.antt =====
-- removeBlocked of queues/asl.c as an operation on the queues of the semaphores.
use hoca_operating_system.Prelude.{
  ℕ, ◌≡◌, refl, sym, subst, ap, ◌∙◌, inl, inr, none, some, List, [], ◌∷◌, arith, update, fun_ext,
  Bool-cases, false, ◌==◌, true_false, ==_self,
}
use hoca_operating_system.Machine.{Ptr, Addr, Link, semmax, enull_link}
use hoca_operating_system.Run.{
  ok, exit, ◌>>◌, and_then, Run, pure, modify, Returns, returns, Returns-bind, Returns-mono,
}
use hoca_operating_system.Procq.{Procs, remove_proc}
use hoca_operating_system.Procq.Cells.{Node, IsQueue, has_node}
use hoca_operating_system.Procq.Remove.{Removed, remove_proc-head, head_of}
use hoca_operating_system.Asl.{
  Sems, sem_fuel, modify_semd, set_sem2, remove_blocked, drop_if_empty, on_entry,
}
use hoca_operating_system.Asl.Find.{lookup, IsAsl, find_sem-lookup}
use hoca_operating_system.Asl.Enter.{lookup_same}
use hoca_operating_system.Asl.Relink.{relinked, relinked-Requeued}
use hoca_operating_system.Asl.Wake.{remove_blocked-Woken}
use hoca_operating_system.Asl.Woken.{Woken, relinked-Woken, set_sem2_link}
use hoca_operating_system.Asl.Return.{drop_if_empty-Refines}
use hoca_operating_system.Asl.Waiting.{
  Waiting, Waiting-IsAsl, Busy, Refines, Requeued-Waiting, Requeued-BusyBut, Requeued-Busy,
}

abbrev pub tail : List Node → List Node
tail [] = []
tail (n ∷ ns) = ns

-- The first process in the queue of `a` leaves it.
abbrev pub dequeue : (Addr → List Node) → Addr → Addr → List Node
dequeue m a = update m a (tail (m a))

empty_link : (s : Procs) (tp : Link) → IsQueue s tp [] → tp ≡ enull_link
empty_link s tp (inl (e, l)) = l
empty_link s tp (inr ([], z, e, l, r)) = absurd (ground (arith, e))
empty_link s tp (inr (y ∷ ys, z, e, l, r)) = absurd (ground (arith, e))

-- An empty queue stays as it is.
dequeue_empty : (m : Addr → List Node) (a : Addr) → m a ≡ [] → m ≡ dequeue m a
dequeue_empty m a e = fun_ext (λ b. elim (Bool-cases (b == a)) [
  | inl here ↦ let q : a ≡ b = ground arith in rw here (sym (ap m q) ∙ e ∙ sym (ap tail e))
  | inr there ↦ rw there refl
])

module _ (s : Sems) (ws fs : List ℕ) (m : Addr → List Node) (a : Addr) (w : ℕ) (n : Node)
    (h : Waiting s ws fs m) (busy : Busy s ws m) (found : lookup s.semd a ws ≡ some w)
    (only : m a ≡ n ∷ []) where
  last_from :
      (r : Run Procs (Ptr × Link))
      → Returns (Removed s.procs (n ∷ [])) r
      → Returns
          (λ rv t.
            (rv ≡ some n.0)
            × Refines t (update m a [])
            × (t.words ≡ s.words)
            × Woken s.procs (n ∷ []) t.procs)
          (and_then
            (elim r as (λ _. Run Sems (Ptr × Link)) [
              | ok v u ↦ ok v (record s { procs = u })
              | exit e u ↦ exit e (record s { procs = u })
            ])
            (λ (rv, tp).
              modify (modify_semd w (λ d. record d { s_link = tp }))
              >> (on_entry (set_sem2 semmax 0 a) rv >> (drop_if_empty a w >> pure rv))))
  unfolding modify_semd relinked
  last_from _ (returns {a = (rv, tp)} {s = u} k) =
      let done =
        relinked-Requeued s ws a w n.0 (set_sem2 semmax 0 a) (set_sem2_link semmax 0 a)
          (Waiting-IsAsl h) found tp u (n ∷ []) [] k.1 k.3 in
      rw k.0 (
        Returns-bind
          (drop_if_empty-Refines {m = update m a []} a w
            (Requeued-Waiting h done
              (λ b other x i. subst (λ y. has_node x y ≡ false) only (h.apart a b other x i))
              (λ x i. true_false i refl))
            (Requeued-BusyBut h done (λ b v other l. busy b v l))
            (lookup_same s.semd (relinked s w n.0 (set_sem2 semmax 0 a) tp u).semd a ws
                (λ v. (done.same v).2)
              ∙ found)
            (ground arith) (rw (==_self w) (empty_link u tp k.1)))
          (λ _ t q. returns (
            refl,
            q.0,
            q.1,
            subst (λ x. Woken s.procs (n ∷ []) x) (sym q.2)
                (relinked-Woken s w a tp u n [] k.2 k.3 k.4),
          )))

-- What removeBlocked promises on the queues `m`.
abbrev pub Withdrawn : Sems → (Addr → List Node) → Addr → Ptr → Sems → Type 0
Withdrawn s m a rv t =
    (rv ≡ head_of (m a))
    × Refines t (dequeue m a)
    × (t.words ≡ s.words)
    × Woken s.procs (m a) t.procs

remove_blocked-none :
    (s : Sems) (ws : List ℕ) (a : Addr)
    → IsAsl s ws
    → lookup s.semd a ws ≡ none
    → remove_blocked a s ≡ ok none s
unfolding remove_blocked
remove_blocked-none s ws a asl new =
    rw (remove_blocked, find_sem-lookup s a ws sem_fuel none s.cur_sem asl.active asl.short, new)
      refl

remove_blocked-last :
    (s : Sems) (ws fs : List ℕ) (m : Addr → List Node) (a : Addr) (w : ℕ) (n : Node)
    → Waiting s ws fs m
    → Busy s ws m
    → lookup s.semd a ws ≡ some w
    → m a ≡ n ∷ []
    → IsQueue s.procs (s.semd w).s_link (n ∷ [])
    → Returns
        (λ rv t.
          (rv ≡ some n.0)
          × Refines t (update m a [])
          × (t.words ≡ s.words)
          × Woken s.procs (n ∷ []) t.procs)
        (remove_blocked a s)
unfolding remove_blocked
remove_blocked-last s ws fs m a w n h busy found only queue =
    let asl = Waiting-IsAsl h in
    rw (remove_blocked, find_sem-lookup s a ws sem_fuel none s.cur_sem asl.active asl.short, found)
      (last_from s ws fs m a w n h busy found only (remove_proc (s.semd w).s_link s.procs)
        (remove_proc-head s.procs (s.semd w).s_link (n ∷ []) queue))

remove_found :
    (s : Sems) (ws fs : List ℕ) (m : Addr → List Node) (a : Addr) (w : ℕ) (ns : List Node)
    → Waiting s ws fs m
    → Busy s ws m
    → lookup s.semd a ws ≡ some w
    → m a ≡ ns
    → IsQueue s.procs (s.semd w).s_link ns
    → Returns
        (λ rv t.
          (rv ≡ head_of ns)
          × Refines t (update m a (tail ns))
          × (t.words ≡ s.words)
          × Woken s.procs ns t.procs)
        (remove_blocked a s)
remove_found s ws fs m a w [] h busy found e queue = true_false (rw e refl) (busy a w found)
remove_found s ws fs m a w (n ∷ []) h busy found e queue =
    remove_blocked-last s ws fs m a w n h busy found e queue
remove_found s ws fs m a w (n ∷ k ∷ ns) h busy found e queue =
    Returns-mono (remove_blocked-Woken s ws a w n k ns (Waiting-IsAsl h) found queue) (λ rv t r. (
      r.0,
      record {
        ws = ws;
        fs = fs;
        waiting =
            Requeued-Waiting h r.1
              (λ b other x i. subst (λ y. has_node x y ≡ false) e (h.apart a b other x i))
              (λ x i. ground (arith, i));
        busy = Requeued-Busy h r.1 (λ b v other l. busy b v l) refl;
      },
      r.1.words,
      r.2,
    ))

-- On a state that implements the queues `m`, removeBlocked returns the process that has waited longest
-- for the semaphore, or ENULL when none waits, and leaves a state that implements the same queues
-- without it; the last process of a queue gives the descriptor back. The values of the semaphores
-- are as before; in the process table the slot of the process becomes free and its qcount alone
-- goes down by one, and no slot outside the queue is written.
pub remove_blocked-Withdrawn :
    (s : Sems) (m : Addr → List Node) (a : Addr)
    → Refines s m
    → Returns (Withdrawn s m a) (remove_blocked a s)
remove_blocked-Withdrawn s m a r = elim (r.waiting.queues a) [
  | inl (l, e) ↦
      rw (remove_blocked-none s r.ws a (Waiting-IsAsl r.waiting) l)
        (returns (rw e refl, subst (Refines s) (dequeue_empty m a e) r, refl, rw e refl))
  | inr (w, (l, q)) ↦ remove_found s r.ws r.fs m a w (m a) r.waiting r.busy l refl q
]
