-- ===== src/Asl/Insertion.antt =====
-- insertBlocked of queues/asl.c as an operation on the queues of the semaphores.
use hoca_operating_system.Prelude.{
  ap, ℕ, Bool, true, false, ◌&&◌, ◌≡◌, refl, sym, subst, ◌∙◌, inl, inr, none, some, is_none, List,
  [], ◌∷◌, ◌++◌, arith, Bool-cases, true_false, ◌==◌, update,
}
use hoca_operating_system.Machine.{Addr}
use hoca_operating_system.Run.{pure, ◌>>◌, Returns, returns, Returns-bind, Returns-mono}
use hoca_operating_system.Procq.{Procs}
use hoca_operating_system.Procq.Cells.{cell, Node, IsQueue, has_proc, has_node, apart}
use hoca_operating_system.Procq.Spares.{has_node-append}
use hoca_operating_system.Procq.Insert.{FirstFree}
use hoca_operating_system.Asl.{Sems, enter_sem, insert_blocked}
use hoca_operating_system.Asl.Find.{lookup}
use hoca_operating_system.Asl.Append.{enter_sem-Requeued, insert_blocked-append}
use hoca_operating_system.Asl.Full.{insert_blocked-lookup}
use hoca_operating_system.Asl.Relink.{Requeued}
use hoca_operating_system.Asl.Take.{Took, first_sem-Took, next_sem-Took}
use hoca_operating_system.Asl.Claim.{
  new_empty, took_found, took_link, took-Waiting, took-BusyBut, insert_blocked-first,
  insert_blocked-next,
}
use hoca_operating_system.Asl.Waiting.{
  Waiting, Waiting-IsAsl, BusyBut, Busy, Refines, is_empty, Requeued-Waiting, Requeued-Busy,
  IsQueue-used,
}

-- `n` joins the queue of `a`.
abbrev pub enqueue : (Addr → List Node) → Addr → Node → Addr → List Node
enqueue m a n = update m a (m a ++ n ∷ [])

-- What insertBlocked promises on the queues `m`.
pub data Inserted (s : Sems) (m : Addr → List Node) (a : Addr) (n : Node)
    : Bool → Sems → Type 0 where
  entered :
      {t : Sems}
      → (is_none s.free_head_s && is_empty (m a)) ≡ false
      → Refines t (enqueue m a n)
      → t.words ≡ s.words
      → ((x : Node) → has_node x (m a ++ n ∷ []) ≡ false → cell t.procs x ≡ cell s.procs x)
      → Inserted s m a n false t
  full : s.free_head_s ≡ none → m a ≡ [] → Inserted s m a n true s

-- A free slot is in no queue.
pub free_slot :
    {s : Sems} {ws fs : List ℕ} {m : Addr → List Node} {p i : ℕ}
    → Waiting s ws fs m
    → FirstFree (s.procs.proc p) i
    → (b : Addr) → has_node (p, i) (m b) ≡ false
free_slot {s} {ws} {fs} {m} {p} {i} h slot b = elim (Bool-cases (has_node (p, i) (m b))) [
  | inr out ↦ out
  | inl hit ↦ elim (h.queues b) [
    | inl (l, e) ↦ true_false (rw e at hit) refl
    | inr (v, (l, q)) ↦
        true_false slot.free (IsQueue-used s.procs (s.semd v).s_link (m b) q (p, i) hit)
  ]
]

module _ {s : Sems} {ws fs : List ℕ} {m : Addr → List Node} {p i : ℕ} (a : Addr)
    (h : Waiting s ws fs m) (slot : FirstFree (s.procs.proc p) i) where
  -- The queues of others stay apart from the one with the new entry.
  fresh :
      (b : Addr)
      → (b == a) ≡ false
      → (n : Node) → has_node n (m b) ≡ true
      → has_node n (m a ++ (p, i) ∷ []) ≡ false
  fresh b other n hit = ground (
    arith,
    has_node-append n (m a) ((p, i) ∷ []),
    h.apart a b other n hit,
    apart n (p, i) (m b) hit (free_slot h slot b),
  )

  entered-Refines :
      {t : Sems}
      → BusyBut a s ws m
      → Requeued s ws a (m a ++ (p, i) ∷ []) (m a ++ (p, i) ∷ []) t
      → Refines t (enqueue m a (p, i))
  entered-Refines busy r = record {
    ws = ws;
    fs = fs;
    waiting = Requeued-Waiting h r fresh (λ n j. j);
    busy = Requeued-Busy h r busy (nonempty (m a));
  }
    where
      nonempty : (ns : List Node) → is_empty (ns ++ (p, i) ∷ []) ≡ false
      nonempty [] = refl
      nonempty (n ∷ ns) = refl

  -- Into the queue of descriptor `w`, which may be new.
  enter_found :
      (w : ℕ)
      → BusyBut a s ws m
      → lookup s.semd a ws ≡ some w
      → IsQueue s.procs (s.semd w).s_link (m a)
      → has_proc p (m a) ≡ false
      → Returns
          (λ full t.
            (full ≡ false)
            × Refines t (enqueue m a (p, i))
            × (t.words ≡ s.words)
            × ((x : Node)
                → has_node x (m a ++ (p, i) ∷ []) ≡ false
                → cell t.procs x ≡ cell s.procs x))
          ((enter_sem w a (some p) >> pure false) s)
  enter_found w busy found queue new =
      Returns-bind (enter_sem-Requeued s ws a w (m a) p i (Waiting-IsAsl h) found queue new slot)
        (λ _ t r. returns (refl, entered-Refines busy r, r.words, r.cells))

module _ {s : Sems} {ws fs : List ℕ} {m : Addr → List Node} {p i w : ℕ} (a : Addr)
    (h : Waiting s ws (w ∷ fs) m) (busy : Busy s ws m) (slot : FirstFree (s.procs.proc p) i)
    (none_yet : lookup s.semd a ws ≡ none) where
  -- Into the queue of a descriptor that was taken for `a`.
  enter_taken :
      (t : Sems)
      → Took s w ws a t
      → Returns (Inserted s m a (p, i)) ((enter_sem w a (some p) >> pure false) t)
  enter_taken t took =
      let e = new_empty h none_yet took in
      Returns-mono
        (enter_found a (took-Waiting h none_yet took)
          (subst (λ x. FirstFree (x.proc p) i) (sym took.procs) slot) w
          (took-BusyBut h none_yet took busy) (took_found h none_yet took)
          (inl (e, took_link h none_yet took)) (rw e refl))
        (λ full u r.
          subst (λ b. Inserted s m a (p, i) b u) (sym r.0)
            (entered (rw h.shape.free.0 refl) r.1 (r.2 ∙ took.words)
              (λ x out. r.3 x out ∙ ap (λ (u : Procs). cell u x) took.procs)))

-- The branches for a semaphore without a descriptor.
insert_new :
    (s : Sems) (ws fs : List ℕ) (m : Addr → List Node) (a : Addr) (p i : ℕ)
    → Waiting s ws fs m
    → Busy s ws m
    → FirstFree (s.procs.proc p) i
    → lookup s.semd a ws ≡ none
    → m a ≡ []
    → Returns (Inserted s m a (p, i)) (insert_blocked a (some p) s)
insert_new s [] [] m a p i h busy slot new e = absurd (omega (arith, h.room))
insert_new s [] (w ∷ []) m a p i h busy slot new e = absurd (omega (arith, h.room))
insert_new s [] (w ∷ v ∷ fs) m a p i h busy slot new e =
    rw (insert_blocked-first s a (some p) h.shape.active) (
      Returns-bind (first_sem-Took s w v fs a h.shape)
        (λ r t took. rw took.0 (enter_taken a h busy slot new t took.1)))
insert_new s (c ∷ cs) [] m a p i h busy slot new e =
    rw (insert_blocked-lookup s c cs a (some p) (Waiting-IsAsl h) new h.shape.free)
      (returns (full h.shape.free e))
insert_new s (c ∷ cs) (w ∷ fs) m a p i h busy slot new e =
    rw (insert_blocked-next s c cs a (some p) w (Waiting-IsAsl h) new h.shape.free.0) (
      Returns-bind (next_sem-Took s w c cs fs a h.shape)
        (λ _ t took. enter_taken a h busy slot new t took))

-- On a state that implements the queues `m`, insertBlocked puts a process that does not wait for the
-- semaphore yet at the end of its queue, through the first slot of the process that is free, and
-- answers FALSE; the queues of all other semaphores and the values of the semaphores are as
-- before, and no slot outside the queue is written. Only if no descriptor is free and no process
-- waits for the semaphore it answers TRUE and changes nothing.
pub insert_blocked-Inserted :
    (s : Sems) (m : Addr → List Node) (a : Addr) (p i : ℕ)
    → Refines s m
    → has_proc p (m a) ≡ false
    → FirstFree (s.procs.proc p) i
    → Returns (Inserted s m a (p, i)) (insert_blocked a (some p) s)
insert_blocked-Inserted s m a p i r new slot = elim (r.waiting.queues a) [
  | inl (l, e) ↦ insert_new s r.ws r.fs m a p i r.waiting r.busy slot l e
  | inr (w, (l, q)) ↦
      Returns-mono
        (insert_blocked-append s r.ws a w (m a) p i (Waiting-IsAsl r.waiting) l q new slot)
        (λ answer t h.
          subst (λ b. Inserted s m a (p, i) b t) (sym h.0)
            (entered (ground (arith, r.busy a w l))
              (entered-Refines a r.waiting slot (λ b v other found. r.busy b v found) h.1) h.1.words
              h.1.cells))
]
