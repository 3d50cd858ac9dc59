-- ===== src/Interrupt/Park.antt =====
-- P on a semaphore, in intsemop of nucleus/interrupts/int.c.
use hoca_operating_system.Prelude.{
  ℕ, ◌<◌, Bool, true, false, ◌≡◌, refl, sym, ap, ◌∙◌, ◌⊎◌, inl, inr, none, some, is_none, List, [],
  ◌∷◌, ◌++◌, arith, Bool-cases, true_false, update, if◌then◌else◌, ◌==◌, dec, is_neg,
}
use hoca_operating_system.Machine.{Ptr, Addr, Link, lock, semmax, enull_link}
use hoca_operating_system.Run.{
  ok, Run, Returns, returns, Returns-bind, zoom-Returns, ◌>>=◌, ◌>>◌, and_then, Cmd, pure,
}
use hoca_operating_system.Procq.Cells.{Node, cell, has_node, has_proc, same_node, apart}
use hoca_operating_system.Procq.Spares.{has_node-append}
use hoca_operating_system.Procq.Insert.{FirstFree}
use hoca_operating_system.Asl.{Sems, insert_blocked}
use hoca_operating_system.Asl.Enter.{IsQueue-frame}
use hoca_operating_system.Asl.Waiting.{Refines, IsQueue-used}
use hoca_operating_system.Asl.Insertion.{enqueue, Inserted, entered, full, insert_blocked-Inserted}
use hoca_operating_system.Asl.Life.{Refines-elsewhere}
use hoca_operating_system.Sched.{schedule}
use hoca_operating_system.Kernel.{Kernel, entry, write_word, on_sems, remove_running}
use hoca_operating_system.Kernel.Queues.{Queues, first_free, remove_running-Queues}
use hoca_operating_system.Interrupt.{int_sem_op}

-- The caller `p` has left the running queue and waits for `a`, or, without a descriptor for it, is
-- in no queue.
pub data Parked (k : Kernel) (p : ℕ) (ready : List Node) (m : Addr → List Node) (a : Addr)
    : Kernel → Type 0 where
  waits : {t : Kernel} (i : ℕ) → Queues t ready (enqueue m a (p, i)) → Parked k p ready m a t
  lost :
      {t : Kernel}
      → k.sems.free_head_s ≡ none
      → m a ≡ []
      → Queues t ready m
      → Parked k p ready m a t

module _ (k : Kernel) (p i : ℕ) (ready : List Node) (m : Addr → List Node) (a : Addr)
    (h : Queues k ready m) (slot : FirstFree (entry k p) i) where
  not_waiting : (n : Node) → has_node n ready ≡ true → has_node n (m a ++ (p, i) ∷ []) ≡ false
  not_waiting n r =
      ground (arith, has_node-append n (m a) ((p, i) ∷ []), elsewhere, apart n (p, i) ready r free)
    where
      elsewhere : has_node n (m a) ≡ false
      elsewhere = elim (Bool-cases (has_node n (m a))) [
        | inr out ↦ out
        | inl hit ↦ true_false r (h.apart a n hit)
      ]

      free : has_node (p, i) ready ≡ false
      free = elim (Bool-cases (has_node (p, i) ready)) [
        | inr out ↦ out
        | inl hit ↦
            true_false slot.free
              (IsQueue-used k.sems.procs k.running_queue ready h.queue (p, i) hit)
      ]

  -- A member of a queue after the process has entered that of `a`.
  member :
      (b : Addr) (n : Node)
      → has_node n (enqueue m a (p, i) b) ≡ true
      → (has_node n (m b) ≡ true) ⊎ (has_node n (m a ++ (p, i) ∷ []) ≡ true)
  member b n j = elim (Bool-cases (b == a)) [
    | inl here ↦ inr (rw here at j)
    | inr there ↦ inl (rw there at j)
  ]

  entered-Queues :
      (s : Sems)
      → Refines s (enqueue m a (p, i))
      → ((x : Node)
          → has_node x (m a ++ (p, i) ∷ []) ≡ false
          → cell s.procs x ≡ cell k.sems.procs x)
      → Queues (record k { sems = s }) ready (enqueue m a (p, i))
  entered-Queues s r cells = record {
    refines = r;
    queue =
        IsQueue-frame k.sems.procs s.procs k.running_queue ready (λ n j. cells n (not_waiting n j))
          h.queue;
    apart = λ b n j. elim (member b n j) [
      | inl old ↦ h.apart b n old
      | inr in_a ↦ elim (Bool-cases (has_node n ready)) [
        | inr out ↦ out
        | inl hit ↦ true_false in_a (not_waiting n hit)
      ]
    ];
    slots = λ b n j. elim (member b n j) [
      | inl old ↦ h.slots b n old
      | inr in_a ↦ elim (Bool-cases (same_node n (p, i))) [
        | inl here ↦ ground (arith, here, slot.fits)
        | inr there ↦
            h.slots a n (ground (arith, in_a, there, has_node-append n (m a) ((p, i) ∷ [])))
      ]
    ];
  }

  -- insertBlocked on behalf of the process.
  parks :
      has_proc p (m a) ≡ false
      → Returns
          (λ _ t. Parked k p ready m a t × (t.sems.words ≡ k.sems.words))
          ((on_sems (insert_blocked a (some p)) >>= λ f. pure tt) k)
  parks new =
      Returns-bind
        (zoom-Returns (λ (x : Kernel). x.sems) (λ x s. record x { sems = s })
          (insert_blocked a (some p)) k (insert_blocked-Inserted k.sems m a p i h.refines new slot))
        (λ b t (s, (e, r)). go s t e r)
    where
      go :
          {b : Bool} (s : Sems) (t : Kernel)
          → t ≡ record k { sems = s }
          → Inserted k.sems m a (p, i) b s
          → Returns (λ _ t. Parked k p ready m a t × (t.sems.words ≡ k.sems.words)) (ok tt t)
      go s t e (entered guard r words cells) =
          rw e (returns (waits i (entered-Queues s r cells), words))
      go _ t e (full free nobody) = rw e (returns (lost free nobody h, refl))

abbrev lowered : Addr → Kernel → Kernel
lowered a k = write_word a (dec (k.sems.words a)) k

lowered-Queues :
    (k : Kernel) (ready : List Node) (m : Addr → List Node) (a : Addr)
    → Queues k ready m
    → Queues (lowered a k) ready m
lowered-Queues k ready m a h = record {
  refines =
      Refines-elsewhere k.sems m k.sems.procs (update k.sems.words a (dec (k.sems.words a)))
        (λ b n i. refl) h.refines;
  queue = h.queue;
  apart = h.apart;
  slots = h.slots;
}

-- The values of the semaphores after P on `a`.
abbrev pub CountedDown : Kernel → Addr → Kernel → Type 0
CountedDown k a t = t.sems.words ≡ update k.sems.words a (dec (k.sems.words a))

-- How P by the running process `p` goes on: it returns, or it calls schedule on the state that is left.
pub data Lowered (k : Kernel) (p j : ℕ) (ready : List Node) (m : Addr → List Node) (a : Addr)
    : Run Kernel (Unit {0}) → Type 0 where
  passed :
      (t : Kernel)
      → is_neg (dec (k.sems.words a)) ≡ false
      → Queues t ((p, j) ∷ ready) m
      → CountedDown k a t
      → Lowered k p j ready m a (ok tt t)
  blocked :
      (t : Kernel)
      → is_neg (dec (k.sems.words a)) ≡ true
      → Parked k p ready m a t
      → CountedDown k a t
      → Lowered k p j ready m a (schedule t)

module _ (k : Kernel) (p j : ℕ) (ready : List Node) (m : Addr → List Node) (a : Addr)
    (h : Queues k ((p, j) ∷ ready) m) (low : j < semmax) (new : has_proc p (m a) ≡ false) where
  park : Ptr → Cmd Kernel (Unit {0})
  park removed = elim removed [
    | none ↦ pure tt
    | some q ↦ on_sems (insert_blocked a (some q)) >>= λ f. pure tt
  ]

  int_sem_op-lower :
      int_sem_op a lock k
      ≡ (if is_neg (dec (k.sems.words a))
            then remove_running >>= (λ removed. park removed >> schedule)
            else pure tt)
          (lowered a k)
  unfolding int_sem_op park
  int_sem_op-lower = refl

  module _ (neg : is_neg (dec (k.sems.words a)) ≡ true) where
    scheduled :
        (u : Kernel)
        → u.sems.free_head_s ≡ k.sems.free_head_s
        → CountedDown k a u
        → (r : Run Kernel (Unit {0}))
        → Returns (λ _ t. Parked u p ready m a t × (t.sems.words ≡ u.sems.words)) r
        → Lowered k p j ready m a (and_then r (λ _. schedule))
    scheduled u same words _ (returns (waits i q, e)) = blocked _ neg (waits i q) (e ∙ words)
    scheduled u same words _ (returns (lost free nobody q, e)) =
        blocked _ neg (lost (sym same ∙ free) nobody q) (e ∙ words)

    after_remove :
        (r : Run Kernel Ptr)
        → Returns
            (λ rv t.
              (rv ≡ some p)
              × Queues t ready m
              × (t.sems.words ≡ (lowered a k).sems.words)
              × ((entry t p).p_link j ≡ enull_link)
              × (t.sems.free_head_s ≡ k.sems.free_head_s))
            r
        → Lowered k p j ready m a (and_then r (λ removed. park removed >> schedule))
    unfolding park
    after_remove _ (returns {s = u} q) =
        let (i, slot) = first_free (entry u p) j low (ap (λ (l : Link). is_none l.index) q.3) in
        rw q.0 (scheduled u q.4 q.2 _ (parks u p i ready m a q.1 slot new))

-- P by the running process takes one from the value of the semaphore and from no other. When the new
-- value is not negative the process goes on, and all queues are as before. Otherwise it leaves the
-- running queue and is put at the end of the queue of the semaphore, and the scheduler runs; but
-- when no descriptor is free and nobody waits for the semaphore it is in no queue.
pub int_sem_op-Lowered :
    (k : Kernel) (p j : ℕ) (ready : List Node) (m : Addr → List Node) (a : Addr)
    → Queues k ((p, j) ∷ ready) m
    → j < semmax
    → has_proc p (m a) ≡ false
    → Lowered k p j ready m a (int_sem_op a lock k)
int_sem_op-Lowered k p j ready m a h low new =
    rw (int_sem_op-lower k p j ready m a h low new)
      (elim (Bool-cases (is_neg (dec (k.sems.words a)))) [
        | inl neg ↦ rw neg (
            after_remove k p j ready m a h low new neg (remove_running (lowered a k)) (
              remove_running-Queues (lowered a k) p j ready m
                (lowered-Queues k ((p, j) ∷ ready) m a h)))
        | inr free ↦
            rw free (passed (lowered a k) free (lowered-Queues k ((p, j) ∷ ready) m a h) refl)
      ])
