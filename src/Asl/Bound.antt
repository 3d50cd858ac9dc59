-- ===== src/Asl/Bound.antt =====
-- The answers of insertBlocked of queues/asl.c, and the number of semaphores that processes wait for.
use hoca_operating_system.Prelude.{
  ℕ, ◌<◌, true, false, ◌≡◌, inl, inr, some, List, ◌∷◌, [], ◌++◌, arith, length, Bool-cases, ◌==◌,
  refl,
}
use hoca_operating_system.Machine.{Addr, maxproc}
use hoca_operating_system.Run.{ok}
use hoca_operating_system.Procq.Free.{has}
use hoca_operating_system.Procq.Cells.{Node, has_proc}
use hoca_operating_system.Procq.Insert.{FirstFree}
use hoca_operating_system.Asl.{Sems, insert_blocked}
use hoca_operating_system.Asl.Lists.{NoDup}
use hoca_operating_system.Asl.Waiting.{is_empty}
use hoca_operating_system.Asl.Insertion.{enqueue}
use hoca_operating_system.Asl.Life.{Reached, inserted, Reached-Refines}
use hoca_operating_system.Asl.Capacity.{length-le-maxproc}

append_some : (ns : List Node) (n : Node) → is_empty (ns ++ n ∷ []) ≡ false
append_some [] n = refl
append_some (x ∷ ns) n = refl

-- Those who waited, and one more, wait.
enqueue_waits :
    (m : Addr → List Node) (a b : Addr) (n : Node) (sems : List Addr)
    → ((c : Addr) → has c sems ≡ true → is_empty (m c) ≡ false)
    → has b (a ∷ sems) ≡ true
    → is_empty (enqueue m a n b) ≡ false
enqueue_waits m a b n sems wait i = elim (Bool-cases (b == a)) [
  | inl here ↦ rw here (append_some (m a) n)
  | inr other ↦ rw other (wait b (ground (arith, i, other)))
]

-- In a state after initSemd and any operations of Reached, insertBlocked takes a process in for a
-- semaphore only if processes wait for fewer than 20 other semaphores.
pub insert_blocked-room :
    (start s t : Sems) (m : Addr → List Node) (a : Addr) (p i : ℕ) (sems : List Addr)
    → Reached start s m
    → has_proc p (m a) ≡ false
    → FirstFree (s.procs.proc p) i
    → insert_blocked a (some p) s ≡ ok false t
    → NoDup sems
    → has a sems ≡ false
    → ((b : Addr) → has b sems ≡ true → is_empty (m b) ≡ false)
    → length sems < maxproc
insert_blocked-room start s t m a p i sems r new slot run once other wait =
    let after = inserted a p i r new slot run in
    let bound =
      length-le-maxproc t (enqueue m a (p, i)) (a ∷ sems)
        (Reached-Refines start t (enqueue m a (p, i)) after) (other, once)
        (λ b h. enqueue_waits m a b (p, i) sems wait h) in
    omega (arith, bound)
