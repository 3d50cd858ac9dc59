-- ===== src/Sched.antt =====
-- schedule of nucleus/traps/main.c, and the routines of nucleus/interrupts/int.c that it ends in:
-- the interval timer, the end of the work, and the message on printer 0.
pub mod Idle
pub mod Dispatch
use Prim.Native.String.{String, len}
use hoca_operating_system.Prelude.{
  ℕ, zero, suc, ◌+◌, Bool, false, ◌||◌, none, some, List, [], ◌∷◌, ℤ, pos, negsuc, if◌then◌else◌,
  is_none, same_int, update, not,
}
use hoca_operating_system.Machine.{iowrite}
use hoca_operating_system.Run.{
  Cmd, pure, stop, ◌>>=◌, ◌>>◌, get, modify, deref, load, sleep, halt, out_of_fuel,
}
use hoca_operating_system.Asl.{head_blocked, head_asl}
use hoca_operating_system.Kernel.{Kernel, entry, on_sems, current, start_time, dev_sem, clock_lock}

-- `quantum`, and LDIT of it
abbrev pub quantum : ℤ
quantum = pos 5000

unfoldable pub int_schedule : Cmd Kernel (Unit {0})
int_schedule = modify (λ k. record k { timer = quantum })

-- The loop `while (d_stat != NORMAL);` over what the printer's status will read as.
unfoldable pub poll : List ℤ → Cmd Kernel (Unit {0})
poll [] = stop out_of_fuel
poll (v ∷ vs) =
    let rest = poll vs in
    modify (λ k. record k { polls = vs }) >> (if same_int v (pos 0) then pure tt else rest)

abbrev pub message : ℕ → String
message zero = "nucleus: normal termination"
message (suc n) = "nucleus: deadlock termination"

unfoldable pub printer : ℕ → Cmd Kernel (Unit {0})
unfolding poll
printer status = do
  let text = message status
  modify (λ k. record k {
    buffer = text;
    dev =
        update k.dev 5
          (record (k.dev 5) { d_stat = negsuc 0; d_dadd = pos (len text); d_op = iowrite });
  })
  k ← get
  poll k.polls

-- The loop of intdeadlock: is a process blocked on one of `n` devices from `i` on?
unfoldable pub dev_blocked : ℕ → ℕ → Bool → Cmd Kernel Bool
dev_blocked zero i found = pure found
dev_blocked (suc n) i found = do
  head ← on_sems (head_blocked (dev_sem i))
  dev_blocked n (i + 1) (found || not (is_none head))

unfoldable pub int_deadlock : Cmd Kernel (Unit {0})
unfolding dev_blocked printer int_schedule
int_deadlock = do
  blocked ← dev_blocked 15 0 false
  head ← on_sems (head_blocked clock_lock)
  if not (is_none head) then (do int_schedule; stop sleep) else if blocked then stop sleep else do
    left ← on_sems head_asl
    if left then (do printer 1; stop halt) else (do printer 0; stop halt)

-- The part of schedule for a non-empty running queue.
unfoldable pub dispatch : Cmd Kernel (Unit {0})
unfolding int_schedule current start_time
dispatch = do
  int_schedule
  cur ← current
  start_time cur
  p ← deref cur
  k ← get
  stop (load (entry k p).p_s)

unfoldable pub schedule : Cmd Kernel (Unit {0})
unfolding current dispatch int_deadlock
schedule = do cur ← current; elim cur [ none ↦ int_deadlock | some _ ↦ dispatch ]
