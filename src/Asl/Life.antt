-- ===== src/Asl/Life.antt =====
-- queues/asl.c from initSemd on: sequences of insertBlocked, for processes that do not yet wait for the
-- semaphore, and removeBlocked, with changes of the process table and of the semaphores' values by
-- the rest of the nucleus between them. outBlocked is not among them.
use hoca_operating_system.Prelude.{
  ℕ, true, false, ◌≡◌, refl, sym, subst, inl, inr, ℤ, some, List, [],
}
use hoca_operating_system.Machine.{Ptr, Addr}
use hoca_operating_system.Run.{ok, Returns, returns}
use hoca_operating_system.Procq.{Procs}
use hoca_operating_system.Procq.Cells.{Node, cell, has_node, has_proc}
use hoca_operating_system.Procq.Insert.{FirstFree}
use hoca_operating_system.Asl.{Sems, init_semd, insert_blocked, remove_blocked}
use hoca_operating_system.Asl.Enter.{IsQueue-frame}
use hoca_operating_system.Asl.Waiting.{Refines}
use hoca_operating_system.Asl.Insertion.{enqueue, Inserted, entered, full, insert_blocked-Inserted}
use hoca_operating_system.Asl.Withdrawal.{dequeue, Withdrawn, remove_blocked-Withdrawn}
use hoca_operating_system.Asl.Start.{init_semd-Refines}

-- The states that these reach after initSemd, with the queues that the answers so far say there are. A
-- process goes into its first free slot; a change from outside spares the slots in the queues.
pub data Reached (start : Sems) : Sems → (Addr → List Node) → Type 0 where
  started : Reached start (init_semd start) (λ _. [])
  inserted :
      {s t : Sems} {m : Addr → List Node} (a : Addr) (p i : ℕ)
      → Reached start s m
      → has_proc p (m a) ≡ false
      → FirstFree (s.procs.proc p) i
      → insert_blocked a (some p) s ≡ ok false t
      → Reached start t (enqueue m a (p, i))
  refused :
      {s t : Sems} {m : Addr → List Node} (a : Addr) (p i : ℕ)
      → Reached start s m
      → has_proc p (m a) ≡ false
      → FirstFree (s.procs.proc p) i
      → insert_blocked a (some p) s ≡ ok true t
      → Reached start t m
  removed :
      {s t : Sems} {m : Addr → List Node} (a : Addr) (rv : Ptr)
      → Reached start s m
      → remove_blocked a s ≡ ok rv t
      → Reached start t (dequeue m a)
  elsewhere :
      {s : Sems} {m : Addr → List Node} (u : Procs) (values : Addr → ℤ)
      → Reached start s m
      → ((a : Addr) (n : Node) → has_node n (m a) ≡ true → cell u n ≡ cell s.procs n)
      → Reached start (record s { procs = u; words = values }) m

-- Changes that spare the slots in the queues.
pub Refines-elsewhere :
    (s : Sems) (m : Addr → List Node) (u : Procs) (values : Addr → ℤ)
    → ((a : Addr) (n : Node) → has_node n (m a) ≡ true → cell u n ≡ cell s.procs n)
    → Refines s m
    → Refines (record s { procs = u; words = values }) m
Refines-elsewhere s m u values keep r = record {
  ws = r.ws;
  fs = r.fs;
  waiting = record {
    shape = record {
      active = r.waiting.shape.active;
      free = r.waiting.shape.free;
      once = r.waiting.shape.once;
      once_free = r.waiting.shape.once_free;
      apart = r.waiting.shape.apart;
      named = r.waiting.shape.named;
      unused = r.waiting.shape.unused;
    };
    room = r.waiting.room;
    queues = λ a. elim (r.waiting.queues a) [
      | inl (l, e) ↦ inl (l, e)
      | inr (w, (l, q)) ↦ inr (w, (l, IsQueue-frame s.procs u (s.semd w).s_link (m a) (keep a) q))
    ];
    apart = r.waiting.apart;
  };
  busy = r.busy;
}

Inserted-false :
    {s t : Sems} {m : Addr → List Node} {a : Addr} {n : Node}
    → Inserted s m a n false t
    → Refines t (enqueue m a n)
Inserted-false (entered guard r words cells) = r

Inserted-true :
    {s t : Sems} {m : Addr → List Node} {a : Addr} {n : Node} → Inserted s m a n true t → t ≡ s
Inserted-true (full free e) = refl

result : {A : Type 0} {P : A → Sems → Type 0} {a : A} {t : Sems} → Returns P (ok a t) → P a t
result (returns h) = h

-- After initSemd and any sequence of insertBlocked of a process that does not yet wait for that
-- semaphore, of removeBlocked, and of changes of the semaphores' values and of slots of the process
-- table in no queue, the state implements the queues that the answers describe: the
-- list of active descriptors and the free list are well linked in both directions, have 20
-- descriptors together and none in common, every active one has a semaphore of its own and a
-- process that waits, and a semaphore's queue has the processes that were inserted and not yet
-- removed, in that order.
pub Reached-Refines : (start s : Sems) (m : Addr → List Node) → Reached start s m → Refines s m
Reached-Refines start _ _ started = init_semd-Refines start
Reached-Refines start _ _ (inserted {s} {t} {m} a p i r new slot run) =
    let h = insert_blocked-Inserted s m a p i (Reached-Refines start s m r) new slot in
    Inserted-false (result (subst (Returns (Inserted s m a (p, i))) run h))
Reached-Refines start _ _ (refused {s} {t} {m} a p i r new slot run) =
    let ih = Reached-Refines start s m r in
    let h = insert_blocked-Inserted s m a p i ih new slot in
    subst (λ x. Refines x m)
      (sym (Inserted-true (result (subst (Returns (Inserted s m a (p, i))) run h)))) ih
Reached-Refines start _ _ (removed {s} {t} {m} a rv r run) =
    let h = remove_blocked-Withdrawn s m a (Reached-Refines start s m r) in
    (result (subst (Returns (Withdrawn s m a)) run h)).1
Reached-Refines start _ _ (elsewhere {s} {m} u values r keep) =
    Refines-elsewhere s m u values keep (Reached-Refines start s m r)
