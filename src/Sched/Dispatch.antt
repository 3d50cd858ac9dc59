-- ===== src/Sched/Dispatch.antt =====
-- schedule of nucleus/traps/main.c when a process is ready.
use hoca_operating_system.Prelude.{ℕ, ◌≡◌, refl, sym, subst, ap, none, some, List, ◌∷◌, arith}
use hoca_operating_system.Machine.{Addr, Proc}
use hoca_operating_system.Run.{
  exit, load, Loads, loads, Cmd, and_then, ◌>>=◌, ◌>>◌, deref, get, stop,
}
use hoca_operating_system.Procq.{modify_proc}
use hoca_operating_system.Procq.Cells.{Node}
use hoca_operating_system.Asl.Enter.{IsQueue-frame, modify_cell}
use hoca_operating_system.Asl.Life.{Refines-elsewhere}
use hoca_operating_system.Kernel.{Kernel, entry, modify_entry, start_time, stck}
use hoca_operating_system.Kernel.Queues.{Queues, current-head}
use hoca_operating_system.Kernel.Running.{restart}
use hoca_operating_system.Sched.{schedule, dispatch, int_deadlock, int_schedule, quantum}

-- The timer is set, and the start time of `p` is that of the clock.
abbrev started : ℕ → Kernel → Kernel
started p k = restart p (record k { timer = quantum })

started-Queues :
    (k : Kernel) (p : ℕ) (ready : List Node) (m : Addr → List Node)
    → Queues k ready m
    → Queues (started p k) ready m
unfolding restart modify_entry
started-Queues k p ready m h =
    let f : Proc → Proc = λ e. record e { start_time = k.clock k.reads } in
    let u = modify_proc p f k.sems.procs in
    record {
      refines =
          Refines-elsewhere k.sems m u k.sems.words
            (λ a n i. modify_cell p f k.sems.procs n.0 n.1 (λ e. refl)) h.refines;
      queue =
          IsQueue-frame k.sems.procs u k.running_queue ready
            (λ n i. modify_cell p f k.sems.procs n.0 n.1 (λ e. refl)) h.queue;
      apart = h.apart;
      slots = h.slots;
    }

started-state : (k : Kernel) (p : ℕ) → (entry (started p k) p).p_s ≡ (entry k p).p_s
unfolding restart modify_entry modify_proc
started-state k p = ground arith

started-timer : (k : Kernel) (p : ℕ) → (started p k).timer ≡ quantum
unfolding restart modify_entry
started-timer k p = refl

timed-Queues :
    (k : Kernel) (ready : List Node) (m : Addr → List Node)
    → Queues k ready m
    → Queues (record k { timer = quantum }) ready m
timed-Queues k ready m h = record {
  refines = h.refines;
  queue = h.queue;
  apart = h.apart;
  slots = h.slots;
}

dispatch-load :
    (k : Kernel) (n : Node) (ns : List Node) (m : Addr → List Node)
    → Queues k (n ∷ ns) m
    → dispatch k ≡ exit (load (entry (started n.0 k) n.0).p_s) (started n.0 k)
unfolding dispatch int_schedule start_time stck restart
dispatch-load k n ns m h =
    ap
      (λ r.
        and_then r
          (λ cur. start_time cur >> (deref cur >>= λ p. get >>= λ j. stop (load (entry j p).p_s))))
      (current-head (record k { timer = quantum }) n ns m (timed-Queues k (n ∷ ns) m h))

-- With a process in the running queue, schedule sets the interval timer and loads the state of the first
-- one; no queue changes.
pub schedule-Loads :
    (k : Kernel) (n : Node) (ns : List Node) (m : Addr → List Node)
    → Queues k (n ∷ ns) m
    → Loads
        (λ x t. (x ≡ (entry k n.0).p_s) × Queues t (n ∷ ns) m × (t.timer ≡ quantum))
        (schedule k)
unfolding schedule
schedule-Loads k n ns m h =
    subst
      (λ r.
        Loads (λ x t. (x ≡ (entry k n.0).p_s) × Queues t (n ∷ ns) m × (t.timer ≡ quantum))
          (and_then r (λ cur. elim cur as (λ _. Cmd Kernel (Unit {0})) [
            | none ↦ int_deadlock
            | some _ ↦ dispatch
          ])))
      (sym (current-head k n ns m h))
      (rw (dispatch-load k n ns m h)
        (loads (started-state k n.0, started-Queues k n.0 (n ∷ ns) m h, started-timer k n.0)))
