-- ===== src/Kernel/Running.antt =====
-- The process at the head of the running queue, and the changes that leave it there.
use hoca_operating_system.Prelude.{
  ℕ, ◌+◌, ◌≡◌, refl, subst, ap, inl, inr, some, ◌==◌, Bool-cases, arith, add32, sub32,
}
use hoca_operating_system.Machine.{Addr, State, Link, Proc}
use hoca_operating_system.Run.{ok}
use hoca_operating_system.Procq.{link, head_queue, get_link, modify_proc}
use hoca_operating_system.Kernel.{
  Kernel, entry, current, modify_entry, start_time, get_interval, stck, write_state,
}

-- Process `p` is first in the running queue.
pub record Running (p : ℕ) (k : Kernel) : Type 0 where
  pub tail : ℕ
  pub slot : ℕ
  pub queue : k.running_queue ≡ link (some slot) (some tail)
  pub first : ((entry k tail).p_link slot).next ≡ some p

pub current-Running : {p : ℕ} {k : Kernel} → Running p k → current k ≡ ok (some p) k
unfolding current head_queue get_link
current-Running {p} {k} r = rw (current, r.queue, r.first) refl

-- A change of another field than p_link.
pub modify_entry-Running :
    {p : ℕ} {k : Kernel} (q : ℕ) (f : Proc → Proc)
    → ((e : Proc) → (f e).p_link ≡ e.p_link)
    → Running p k
    → Running p (modify_entry q f k)
unfolding modify_entry modify_proc
modify_entry-Running {p} {k} q f keeps r = record {
  tail = r.tail;
  slot = r.slot;
  queue = r.queue;
  first = elim (Bool-cases (r.tail == q)) [
    | inl hit ↦
        let e : r.tail ≡ q = ground arith in
        rw (hit, ap (λ (l : ℕ → Link). (l r.slot).next) (keeps (entry k q)))
          (subst (λ x. ((entry k x).p_link r.slot).next ≡ some p) e r.first)
    | inr miss ↦ rw miss r.first
  ];
}

-- The clock is read once, and the time that `p` has run since its start is added.
unfoldable pub charge : ℕ → Kernel → Kernel
charge p k =
    modify_entry p
      (λ e. record e { cpu_time = add32 e.cpu_time (sub32 (k.clock k.reads) e.start_time) })
      (record k { reads = k.reads + 1 })

pub get_interval-charge : (p : ℕ) (k : Kernel) → get_interval (some p) k ≡ ok tt (charge p k)
unfolding get_interval stck charge
get_interval-charge p k = refl

pub charge-Running : {p : ℕ} {k : Kernel} (q : ℕ) → Running p k → Running p (charge q k)
unfolding charge
charge-Running q r =
    modify_entry-Running q _ (λ e. refl)
      (record { tail = r.tail; slot = r.slot; queue = r.queue; first = r.first })

pub write_state-Running :
    {p : ℕ} {k : Kernel} (a : Addr) (x : State) → Running p k → Running p (write_state a x k)
write_state-Running a x r = record {
  tail = r.tail;
  slot = r.slot;
  queue = r.queue;
  first = r.first;
}

-- The clock is read once, and `p` starts at that time.
unfoldable pub restart : ℕ → Kernel → Kernel
restart p k =
    modify_entry p (λ e. record e { start_time = k.clock k.reads })
      (record k { reads = k.reads + 1 })

pub start_time-restart : (p : ℕ) (k : Kernel) → start_time (some p) k ≡ ok tt (restart p k)
unfolding start_time stck restart
start_time-restart p k = refl
