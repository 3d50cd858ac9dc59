-- ===== src/Interrupt/Signal.antt =====
-- V on a semaphore, in intsemop of nucleus/interrupts/int.c.
use hoca_operating_system.Prelude.{
  ℕ, true, false, ◌≡◌, refl, sym, subst, ap, ◌∙◌, inl, inr, ℤ, pos, none, some, is_none, List, [],
  ◌∷◌, ◌++◌, arith, Bool-cases, update, if◌then◌else◌, inc, dec, is_neg, same_int, ==_self, if_true,
}
use hoca_operating_system.Machine.{Ptr, Addr, Link, lock}
use hoca_operating_system.Run.{
  ok, Returns, returns, Returns-mono, Returns-bind, zoom-Returns, ◌>>=◌, pure,
}
use hoca_operating_system.Procq.Cells.{Node, has_node, has_proc}
use hoca_operating_system.Procq.Spares.{same_node_self}
use hoca_operating_system.Procq.Remove.{head_of}
use hoca_operating_system.Asl.{Sems, remove_blocked}
use hoca_operating_system.Asl.Withdrawal.{Withdrawn, dequeue, remove_blocked-Withdrawn}
use hoca_operating_system.Asl.Woken.{Woken}
use hoca_operating_system.Asl.Life.{Refines-elsewhere}
use hoca_operating_system.Kernel.{Kernel, entry, write_word, on_sems, make_ready}
use hoca_operating_system.Kernel.Queues.{Queues, first_free, make_ready-Queues, Withdrawn-Queues}
use hoca_operating_system.Interrupt.{int_sem_op, wake}

-- What V on `a` leaves: the semaphore counts; a process that waits is taken off the queue of `a`, and
-- joins the running queue if its qcount becomes 0.
pub data Signalled (k : Kernel) (ready : List Node) (m : Addr → List Node) (a : Addr)
    : Kernel → Type 0 where
  counted :
      {t : Kernel} → is_neg (k.sems.words a) ≡ false → Queues t ready m → Signalled k ready m a t
  nobody :
      {t : Kernel}
      → is_neg (k.sems.words a) ≡ true
      → m a ≡ []
      → Queues t ready (dequeue m a)
      → Signalled k ready m a t
  readied :
      {t : Kernel} (n : Node) (ns : List Node) (j : ℕ)
      → is_neg (k.sems.words a) ≡ true
      → m a ≡ n ∷ ns
      → same_int (dec (entry k n.0).qcount) (pos 0) ≡ true
      → Queues t (ready ++ (n.0, j) ∷ []) (dequeue m a)
      → Signalled k ready m a t
  kept :
      {t : Kernel} (n : Node) (ns : List Node)
      → is_neg (k.sems.words a) ≡ true
      → m a ≡ n ∷ ns
      → same_int (dec (entry k n.0).qcount) (pos 0) ≡ false
      → Queues t ready (dequeue m a)
      → Signalled k ready m a t

abbrev bumped : Addr → Kernel → Kernel
bumped a k = write_word a (inc (k.sems.words a)) k

bumped-Queues :
    (k : Kernel) (ready : List Node) (m : Addr → List Node) (a : Addr)
    → Queues k ready m
    → Queues (bumped a k) ready m
bumped-Queues k ready m a h = record {
  refines =
      Refines-elsewhere k.sems m k.sems.procs (update k.sems.words a (inc (k.sems.words a)))
        (λ b n i. refl) h.refines;
  queue = h.queue;
  apart = h.apart;
  slots = h.slots;
}

wake-none : (k : Kernel) → wake none k ≡ ok tt k
unfolding wake
wake-none k = refl

wake-some :
    (k : Kernel) (p : ℕ)
    → wake (some p) k
      ≡ (if same_int (entry k p).qcount (pos 0) then make_ready (some p) else pure tt) k
unfolding wake
wake-some k p = refl

int_sem_op-signal :
    (a : Addr) (op : ℤ) (k : Kernel)
    → same_int op lock ≡ false
    → int_sem_op a op k
      ≡ (if is_neg (k.sems.words a) then on_sems (remove_blocked a) >>= wake else pure tt)
          (bumped a k)
unfolding int_sem_op
int_sem_op-signal a op k v = rw v refl

-- The values of the semaphores after V on `a`.
abbrev pub CountedUp : Kernel → Addr → Kernel → Type 0
CountedUp k a t = t.sems.words ≡ update k.sems.words a (inc (k.sems.words a))

module _ (k : Kernel) (ready : List Node) (m : Addr → List Node) (a : Addr) (h : Queues k ready m)
    (out : (p : ℕ) → head_of (m a) ≡ some p → has_proc p ready ≡ false)
    (neg : is_neg (k.sems.words a) ≡ true) where
  module _ (s : Sems) (rv : Ptr) (w : Withdrawn (bumped a k).sems m a rv s) where
    abbrev after : Kernel
    after = record (bumped a k) { sems = s }

    after-Queues : Queues after ready (dequeue m a)
    after-Queues = Withdrawn-Queues (bumped a k) ready m a (bumped-Queues k ready m a h) rv s w

    module _ (n : Node) (ns : List Node) (e : m a ≡ n ∷ ns) where
      its_table : Woken k.sems.procs (n ∷ ns) s.procs
      its_table = subst (λ x. Woken k.sems.procs x s.procs) e w.3

      its_qcount : (entry after n.0).qcount ≡ dec (entry k n.0).qcount
      its_qcount = its_table.1 n.0 ∙ if_true _ _ (==_self n.0)

      its_place : has_node n (m a) ≡ true
      its_place = subst (λ x. has_node n x ≡ true) (sym e) (ground (arith, same_node_self n))

      run_wake :
          Returns
            (λ _ t. Signalled k ready m a t × CountedUp k a t)
            ((if same_int (entry after n.0).qcount (pos 0) then make_ready (some n.0) else pure tt)
              after)
      run_wake = elim (Bool-cases (same_int (dec (entry k n.0).qcount) (pos 0))) [
        | inr more ↦ rw (its_qcount, more) (returns (kept n ns neg e more after-Queues, w.2))
        | inl go ↦
            let (j, slot) =
              first_free (entry after n.0) n.1 (h.slots a n its_place)
                (ap (λ (l : Link). is_none l.index) its_table.0) in
            rw (its_qcount, go)
              (Returns-mono
                (make_ready-Queues after ready (dequeue m a) n.0 j after-Queues
                  (out n.0 (ap head_of e)) slot)
                (λ _ t q. (readied n ns j neg e go q.0, q.1 ∙ w.2)))
      ]

    wake-after :
        (ns : List Node)
        → m a ≡ ns
        → Returns (λ _ t. Signalled k ready m a t × CountedUp k a t) (wake rv after)
    wake-after [] e =
        rw (w.0 ∙ ap head_of e) (rw (wake-none after) (returns (nobody neg e after-Queues, w.2)))
    wake-after (n ∷ ns) e = rw (w.0 ∙ ap head_of e) (rw (wake-some after n.0) (run_wake n ns e))

  signal_waiting :
      Returns
        (λ _ t. Signalled k ready m a t × CountedUp k a t)
        ((on_sems (remove_blocked a) >>= wake) (bumped a k))
  signal_waiting =
      Returns-bind
        (zoom-Returns (λ (x : Kernel). x.sems) (λ x s. record x { sems = s }) (remove_blocked a)
          (bumped a k)
          (remove_blocked-Withdrawn (bumped a k).sems m a (bumped-Queues k ready m a h).refines))
        (λ rv t (s, (e, w)).
          subst (λ x. Returns (λ _ u. Signalled k ready m a u × CountedUp k a u) (wake rv x))
            (sym e) (wake-after s rv w (m a) refl))

-- V on a semaphore adds one to its value and to no other. When the value was negative, the process that
-- has waited longest is taken off the queue of the semaphore; it joins the end of the running
-- queue exactly when its qcount becomes 0, and otherwise the running queue stays as it was. The
-- other queues keep their processes in their order.
pub int_sem_op-Signalled :
    (k : Kernel) (ready : List Node) (m : Addr → List Node) (a : Addr) (op : ℤ)
    → Queues k ready m
    → same_int op lock ≡ false
    → ((p : ℕ) → head_of (m a) ≡ some p → has_proc p ready ≡ false)
    → Returns (λ _ t. Signalled k ready m a t × CountedUp k a t) (int_sem_op a op k)
int_sem_op-Signalled k ready m a op h v out =
    rw (int_sem_op-signal a op k v) (elim (Bool-cases (is_neg (k.sems.words a))) [
      | inl neg ↦ rw neg (signal_waiting k ready m a h out neg)
      | inr free ↦ rw free (returns (counted free (bumped-Queues k ready m a h), refl))
    ])
