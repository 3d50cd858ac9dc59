-- ===== src/Samples/Waiting.antt =====
-- The theorems about the queues of semaphores at states that initSemd and a few operations make.
use hoca_operating_system.Prelude.{
  ◌≡◌, refl, subst, some, List, [], ◌∷◌, arith, true, false, Bool, length, ◌<◌, ◌↔◌, count_up,
}
use hoca_operating_system.Machine.{Addr, maxproc}
use hoca_operating_system.Run.{Returns, ok, exit, Run}
use hoca_operating_system.Procq.{insert_proc, find_slot, modify_proc, inc_qcount, write_link}
use hoca_operating_system.Procq.Insert.{FirstFree}
use hoca_operating_system.Procq.Cells.{Node}
use hoca_operating_system.Asl.{Sems, init_semd, insert_blocked, remove_blocked, head_asl}
use hoca_operating_system.Asl.Waiting.{Refines, is_empty}
use hoca_operating_system.Asl.Insertion.{enqueue, Inserted, insert_blocked-Inserted}
use hoca_operating_system.Asl.Withdrawal.{Withdrawn, remove_blocked-Withdrawn}
use hoca_operating_system.Asl.Start.{init_semd-Refines}
use hoca_operating_system.Asl.Life.{Reached, started, inserted, Reached-Refines}
use hoca_operating_system.Asl.Bound.{insert_blocked-room}
use hoca_operating_system.Asl.Capacity.{head_asl-some_wait}
use hoca_operating_system.Samples.Semaphores.{listed}

abbrev pub no_one : Addr → List Node
no_one a = []

abbrev state_of : {A : Type 0} → Run Sems A → Sems
state_of (ok a s) = s
state_of (exit e s) = s

-- Processes 4 and 1 begin to wait for the semaphore at 0x2100, then one is woken.
abbrev booted : Sems
booted = init_semd listed

abbrev one_waits : Sems
one_waits = state_of (insert_blocked 0x2100 (some 4) booted)

abbrev pub two_wait : Sems
two_wait = state_of (insert_blocked 0x2100 (some 1) one_waits)

one_Reached : Reached listed one_waits (enqueue no_one 0x2100 (4, 0))
unfolding insert_blocked init_semd count_up insert_proc find_slot
one_Reached =
    inserted 0x2100 4 0 started refl
      (record { fits = omega arith; free = refl; used = λ j h. elim h [ ] }) refl

two_Reached : Reached listed two_wait (enqueue (enqueue no_one 0x2100 (4, 0)) 0x2100 (1, 0))
unfolding insert_blocked init_semd count_up insert_proc find_slot modify_proc inc_qcount write_link
two_Reached =
    inserted 0x2100 1 0 one_Reached refl
      (record { fits = omega arith; free = refl; used = λ j h. elim h [ ] }) refl

abbrev pub two_queues : Addr → List Node
two_queues = enqueue (enqueue no_one 0x2100 (4, 0)) 0x2100 (1, 0)

pub two_Refines : Refines two_wait two_queues
two_Refines = Reached-Refines listed two_wait two_queues two_Reached

Reached-Refines_example : Refines two_wait two_queues
Reached-Refines_example = Reached-Refines listed two_wait two_queues two_Reached

slot_free : FirstFree (booted.procs.proc 4) 0
unfolding init_semd count_up
slot_free = record { fits = omega arith; free = refl; used = λ j h. elim h [ ] }

insert_blocked-Inserted_example :
    Returns (Inserted booted no_one 0x2100 (4, 0)) (insert_blocked 0x2100 (some 4) booted)
insert_blocked-Inserted_example =
    insert_blocked-Inserted booted no_one 0x2100 4 0 (init_semd-Refines listed) refl slot_free

remove_blocked-Withdrawn_example :
    Returns (Withdrawn two_wait two_queues 0x2100) (remove_blocked 0x2100 two_wait)
remove_blocked-Withdrawn_example = remove_blocked-Withdrawn two_wait two_queues 0x2100 two_Refines

init_semd-Refines_example : Refines booted no_one
init_semd-Refines_example = init_semd-Refines listed

-- Process 1 begins to wait for the semaphore at 0x2200 instead.
abbrev other_waits : Sems
other_waits = state_of (insert_blocked 0x2200 (some 1) one_waits)

takes_in : insert_blocked 0x2200 (some 1) one_waits ≡ ok false other_waits
unfolding insert_blocked init_semd count_up insert_proc find_slot modify_proc inc_qcount write_link
takes_in = refl

one_free : FirstFree (one_waits.procs.proc 1) 0
unfolding insert_blocked init_semd count_up insert_proc find_slot modify_proc inc_qcount write_link
one_free = record { fits = omega arith; free = refl; used = λ j h. elim h [ ] }

insert_blocked-room_example : length {A = Addr} (0x2100 ∷ []) < maxproc
insert_blocked-room_example =
    insert_blocked-room listed one_waits other_waits (enqueue no_one 0x2100 (4, 0)) 0x2200 1 0
      (0x2100 ∷ []) one_Reached refl one_free takes_in (refl, tt) refl
      (λ b i.
        let e : 0x2100 ≡ b = ground arith in
        subst (λ x. is_empty (enqueue no_one 0x2100 (4, 0) x) ≡ false) e refl)

head_asl-some_wait_example :
    (b : Bool) × ((head_asl two_wait ≡ ok b two_wait)
      × ((b ≡ true) ↔ ((a : Addr) × (is_empty (two_queues a) ≡ false))))
head_asl-some_wait_example = head_asl-some_wait two_wait two_queues two_Refines
