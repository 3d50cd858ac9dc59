-- ===== src/Kernel/Queues.antt =====
-- The running queue of the nucleus together with the queues of the semaphores.
use hoca_operating_system.Prelude.{
  ℕ, ◌<◌, true, false, ◌≡◌, refl, sym, subst, ap, inl, inr, some, is_none, List, [], ◌∷◌, ◌++◌,
  arith, first_hit, FirstHit, hit, miss, first_hit-FirstHit, Bool-cases, true_false, ◌==◌,
}
use hoca_operating_system.Machine.{Ptr, Addr, Proc, Link, semmax, enull_link}
use hoca_operating_system.Run.{Run, exit, ok, Returns, returns, Returns-bind, zoom-Returns}
use hoca_operating_system.Procq.{Procs, insert_proc, remove_proc}
use hoca_operating_system.Procq.Remove.{remove_proc-head, head_queue-head}
use hoca_operating_system.Procq.Cells.{Node, IsQueue, cell, has_node, has_proc, apart, Spares}
use hoca_operating_system.Procq.Spares.{has_node-append}
use hoca_operating_system.Procq.Insert.{FirstFree, Appended, insert_proc-append}
use hoca_operating_system.Asl.{Sems}
use hoca_operating_system.Asl.Enter.{IsQueue-frame}
use hoca_operating_system.Asl.Life.{Refines-elsewhere}
use hoca_operating_system.Asl.Insertion.{free_slot}
use hoca_operating_system.Asl.Withdrawal.{Withdrawn, dequeue, tail}
use hoca_operating_system.Asl.Woken.{Woken}
use hoca_operating_system.Asl.Waiting.{Refines}
use hoca_operating_system.Kernel.{Kernel, entry, make_ready, remove_running, put_procs, current}

-- The processes `ready` are in the running queue, and `m a` wait for the semaphore `a`. No slot is in
-- both, and the slots of waiting processes are slots of p_link.
pub record Queues (k : Kernel) (ready : List Node) (m : Addr → List Node) : Type 0 where
  pub refines : Refines k.sems m
  pub queue : IsQueue k.sems.procs k.running_queue ready
  pub apart : (a : Addr) (n : Node) → has_node n (m a) ≡ true → has_node n ready ≡ false
  pub slots : (a : Addr) (n : Node) → has_node n (m a) ≡ true → n.1 < semmax

-- A process with a free slot has a first one.
pub first_free :
    (e : Proc) (i : ℕ) → i < semmax → is_none (e.p_link i).index ≡ true → (j : ℕ) × FirstFree e j
first_free e i small free =
    go (first_hit semmax 0 (λ j. is_none (e.p_link j).index))
      (first_hit-FirstHit (λ j. is_none (e.p_link j).index) semmax 0)
  where
    go : (o : Ptr) → FirstHit (λ j. is_none (e.p_link j).index) semmax 0 o → (j : ℕ) × FirstFree e j
    go _ (hit j low high t below) =
        (j, record { fits = high; free = t; used = λ k less. below k (omega arith) less })
    go _ (miss below) = true_false free (below i (omega arith) small)

module _ (k : Kernel) (ready : List Node) (m : Addr → List Node) (p j : ℕ) (h : Queues k ready m)
    (slot : FirstFree (entry k p) j) where
  still_apart :
      (a : Addr) (n : Node) → has_node n (m a) ≡ true → has_node n (ready ++ (p, j) ∷ []) ≡ false
  still_apart a n i = ground (
    arith,
    has_node-append n ready ((p, j) ∷ []),
    h.apart a n i,
    apart n (p, j) (m a) i (free_slot h.refines.waiting slot a),
  )

  joined :
      (tp : Link) (u : Procs)
      → Appended k.sems.procs ready (p, j) tp u
      → Queues (record (put_procs k u) { running_queue = tp }) (ready ++ (p, j) ∷ []) m
  joined tp u q = record {
    refines =
        Refines-elsewhere k.sems m u k.sems.words (λ a n i. q.1.cells n (still_apart a n i))
          h.refines;
    queue = q.0;
    apart = still_apart;
    slots = h.slots;
  }

-- A process joins the running queue.
pub make_ready-Queues :
    (k : Kernel) (ready : List Node) (m : Addr → List Node) (p j : ℕ)
    → Queues k ready m
    → has_proc p ready ≡ false
    → FirstFree (entry k p) j
    → Returns
        (λ _ t.
          Queues t (ready ++ (p, j) ∷ []) m
          × (t.sems.words ≡ k.sems.words)
          × Spares (ready ++ (p, j) ∷ []) k.sems.procs t.sems.procs
          × (t.states ≡ k.states))
        (make_ready (some p) k)
unfolding make_ready
make_ready-Queues k ready m p j h new slot =
    Returns-bind
      (zoom-Returns (λ u. u.sems.procs) put_procs (insert_proc k.running_queue (some p)) k
        (insert_proc-append k.sems.procs k.running_queue ready p j h.queue new slot))
      (λ tp t (u, (e, q)). returns (
        subst (λ (x : Kernel). Queues (record x { running_queue = tp }) (ready ++ (p, j) ∷ []) m)
            (sym e) (joined k ready m p j h slot tp u q),
        ap (λ (x : Kernel). x.sems.words) e,
        subst (λ (x : Kernel). Spares (ready ++ (p, j) ∷ []) k.sems.procs x.sems.procs) (sym e) q.1,
        ap (λ (x : Kernel). x.states) e,
      ))

-- The first waiting process leaves the queue of `a`; the running queue is as it was.
module _ (k : Kernel) (ready : List Node) (m : Addr → List Node) (a : Addr)
    (h : Queues k ready m) where
  tail_has : (n : Node) (ns : List Node) → has_node n (tail ns) ≡ true → has_node n ns ≡ true
  tail_has n [] i = i
  tail_has n (x ∷ ns) i = ground (arith, i)

  dequeued_has : (b : Addr) (n : Node) → has_node n (dequeue m a b) ≡ true → has_node n (m b) ≡ true
  dequeued_has b n i = elim (Bool-cases (b == a)) [
    | inr other ↦ rw other at i
    | inl here ↦
        let e : a ≡ b = ground arith in
        subst (λ x. has_node n (m x) ≡ true) e (tail_has n (m a) (rw here at i))
  ]

  pub Withdrawn-Queues :
      (rv : Ptr) (s : Sems)
      → Withdrawn k.sems m a rv s
      → Queues (record k { sems = s }) ready (dequeue m a)
  Withdrawn-Queues rv s w = record {
    refines = w.1;
    queue =
        IsQueue-frame k.sems.procs s.procs k.running_queue ready
          (λ n i. kept (m a) w.3 n (not_waiting n i)) h.queue;
    apart = λ b n i. h.apart b n (dequeued_has b n i);
    slots = λ b n i. h.slots b n (dequeued_has b n i);
  }
    where
      not_waiting : (n : Node) → has_node n ready ≡ true → has_node n (m a) ≡ false
      not_waiting n i = elim (Bool-cases (has_node n (m a))) [
        | inr out ↦ out
        | inl waits ↦ true_false i (h.apart a n waits)
      ]

      kept :
          (ns : List Node)
          → Woken k.sems.procs ns s.procs
          → (n : Node) → has_node n ns ≡ false
          → cell s.procs n ≡ cell k.sems.procs n
      kept [] e n out = ap (λ (x : Procs). cell x n) e
      kept (x ∷ ns) e n out = e.2 n out

-- The first process leaves the running queue.
module _ (k : Kernel) (p j : ℕ) (ready : List Node) (m : Addr → List Node)
    (h : Queues k ((p, j) ∷ ready) m) where
  removed-Queues :
      (tp : Link) (u : Procs)
      → IsQueue u tp ready
      → Spares ((p, j) ∷ ready) k.sems.procs u
      → Queues (record (put_procs k u) { running_queue = tp }) ready m
  removed-Queues tp u queue spares = record {
    refines =
        Refines-elsewhere k.sems m u k.sems.words (λ a n i. spares.cells n (h.apart a n i))
          h.refines;
    queue = queue;
    apart = λ a n i. ground (arith, h.apart a n i);
    slots = h.slots;
  }

  pub remove_running-Queues :
      Returns
        (λ rv t.
          (rv ≡ some p)
          × Queues t ready m
          × (t.sems.words ≡ k.sems.words)
          × ((entry t p).p_link j ≡ enull_link)
          × (t.sems.free_head_s ≡ k.sems.free_head_s))
        (remove_running k)
  unfolding remove_running
  remove_running-Queues =
      Returns-bind
        (zoom-Returns (λ u. u.sems.procs) put_procs (remove_proc k.running_queue) k
          (remove_proc-head k.sems.procs k.running_queue ((p, j) ∷ ready) h.queue))
        (λ r t (u, (e, q)).
          subst
            (λ (x : Kernel).
              Returns
                (λ rv t.
                  (rv ≡ some p)
                  × Queues t ready m
                  × (t.sems.words ≡ k.sems.words)
                  × ((entry t p).p_link j ≡ enull_link)
                  × (t.sems.free_head_s ≡ k.sems.free_head_s))
                (ok r.0 (record x { running_queue = r.1 })))
            (sym e) (returns (q.0, removed-Queues r.1 u q.1 q.3, refl, q.2, refl)))

-- The first process of the running queue is the current one.
pub current-head :
    (k : Kernel) (n : Node) (ns : List Node) (m : Addr → List Node)
    → Queues k (n ∷ ns) m
    → current k ≡ ok (some n.0) k
unfolding current
current-head k n ns m h =
    ap
      (λ x. elim x as (λ _. Run Kernel _) [
        | ok p s ↦ ok p (put_procs k s)
        | exit v s ↦ exit v (put_procs k s)
      ])
      (head_queue-head k.sems.procs k.running_queue (n ∷ ns) h.queue)

-- Changes of the table that spare the slots in the queues.
pub Queues-elsewhere :
    (k : Kernel) (ready : List Node) (m : Addr → List Node) (u : Procs)
    → Queues k ready m
    → ((a : Addr) (n : Node) → has_node n (m a) ≡ true → cell u n ≡ cell k.sems.procs n)
    → ((n : Node) → has_node n ready ≡ true → cell u n ≡ cell k.sems.procs n)
    → Queues (put_procs k u) ready m
Queues-elsewhere k ready m u h keep_m keep_ready = record {
  refines = Refines-elsewhere k.sems m u k.sems.words keep_m h.refines;
  queue = IsQueue-frame k.sems.procs u k.running_queue ready keep_ready h.queue;
  apart = h.apart;
  slots = h.slots;
}
