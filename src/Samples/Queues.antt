-- ===== src/Samples/Queues.antt =====
-- The theorems about queues/procq.c at a small process table.
use hoca_operating_system.Prelude.{
  ℕ, ◌<◌, ◌≡◌, refl, inr, ◌&&◌, none, some, List, [], ◌∷◌, arith, if◌then◌else◌, pos, ◌==◌,
}
use hoca_operating_system.Machine.{State, Proc, enull_link, maxproc}
use hoca_operating_system.Run.{Returns, exit, panicked}
use hoca_operating_system.Procq.{
  Procs, link, insert_proc, remove_proc, out_proc, alloc_proc, free_proc, init_proc,
}
use hoca_operating_system.Procq.Cells.{Node, to, cell, IsQueue}
use hoca_operating_system.Procq.Insert.{Appended, insert_proc-append, insert_proc-panicked}
use hoca_operating_system.Procq.Remove.{Removed, remove_proc-head, remove_proc-twice}
use hoca_operating_system.Procq.Out.{Taken, out_proc-drop}
use hoca_operating_system.Procq.Free.{IsFree, Allocated, alloc_proc-first}
use hoca_operating_system.Procq.FreeTail.{Freed, free_proc-append}
use hoca_operating_system.Procq.Init.{range, IsNew, init_proc-IsFree}

abbrev pub blank_state : State
blank_state = record {
  s_r = λ _. pos 0;
  s_sr = record { ps_s = 1; ps_m = 0; ps_int = 0 };
  s_tmp = 0;
  s_crp = 0;
}

abbrev pub blank : Proc
blank = record {
  p_link = λ _. enull_link;
  p_s = blank_state;
  qcount = pos 0;
  semvec = λ _. none;
  cpu_time = pos 0;
  start_time = pos 0;
  prog_old = none;
  prog_new = none;
  memory_management_old = none;
  memory_management_new = none;
  system_call_old = none;
  system_call_new = none;
  parent = none;
  child = none;
  brother = none;
}

-- Processes 3 and 5 wait in this order, each through slot 0; processes 7 and 8 are free.
abbrev pub table : Procs
table = record {
  proc = λ p. record blank {
    p_link = λ i.
        if (p == 5) && (i == 0)
        then to (3, 0)
        else if (p == 3) && (i == 0)
        then to (5, 0)
        else if (p == 7) && (i == 0)
        then link none (some 8)
        else enull_link;
  };
  free_head = some 7;
}

abbrev pub waiting : List Node
waiting = (3, 0) ∷ (5, 0) ∷ []

pub waiting-IsQueue : IsQueue table (to (5, 0)) waiting
waiting-IsQueue =
    inr (
      (3, 0) ∷ [],
      (5, 0),
      refl,
      refl,
      record { seg = (refl, refl); distinct = (refl, (refl, tt)) },
    )

insert_proc-append_example :
    Returns (Appended table waiting (4, 0)) (insert_proc (to (5, 0)) (some 4) table)
insert_proc-append_example =
    insert_proc-append table (to (5, 0)) waiting 4 0 waiting-IsQueue refl
      (record { fits = omega arith; free = refl; used = λ j h. elim h [ ] })

-- An entry whose slots are all in use.
abbrev full : Procs
full = record {
  proc = λ _. record blank { p_link = λ i. link (some i) (some 1) };
  free_head = none;
}

insert_proc-panicked_example : insert_proc enull_link (some 2) full ≡ exit panicked full
insert_proc-panicked_example = insert_proc-panicked full enull_link 2 (λ j h. refl)

remove_proc-head_example : Returns (Removed table waiting) (remove_proc (to (5, 0)) table)
remove_proc-head_example = remove_proc-head table (to (5, 0)) waiting waiting-IsQueue

out_proc-drop_example :
    Returns (Taken table waiting (to (5, 0)) 5) (out_proc (to (5, 0)) (some 5) table)
out_proc-drop_example = out_proc-drop table 5 (to (5, 0)) waiting waiting-IsQueue (omega arith)

-- Process 1 waits twice, through slots 1 and 2, with process 2 between.
abbrev doubled : Procs
doubled = record {
  proc = λ p. record blank {
    p_link = λ i.
        if (p == 1) && (i == 2)
        then to (1, 1)
        else if (p == 1) && (i == 1)
        then to (2, 0)
        else if (p == 2) && (i == 0)
        then to (1, 2)
        else enull_link;
  };
  free_head = none;
}

remove_proc-twice_example :
    Returns
      (λ (r, tp) t. (r ≡ some 1) × (tp ≡ enull_link) × (cell t (1, 1) ≡ cell doubled (1, 1)))
      (remove_proc (to (1, 2)) doubled)
remove_proc-twice_example =
    remove_proc-twice doubled 1 2 1 ((2, 0) ∷ []) (omega arith) (refl, (refl, refl))

pub table-IsFree : IsFree table (7 ∷ 8 ∷ [])
table-IsFree = record {
  chain = (refl, refl, (refl, refl, refl));
  idle = (
    record { links = λ j l u. ground arith; semvec = λ j u. refl; qcount = refl },
    (record { links = λ j l u. ground arith; semvec = λ j u. refl; qcount = refl }, tt),
  );
}

alloc_proc-first_example : Returns (Allocated table (7 ∷ 8 ∷ [])) (alloc_proc table)
alloc_proc-first_example = alloc_proc-first table (7 ∷ 8 ∷ []) table-IsFree

free_proc-append_example : Returns (λ _. Freed table (7 ∷ 8 ∷ []) 2) (free_proc (some 2) table)
free_proc-append_example = free_proc-append table 2 (7 ∷ 8 ∷ []) table-IsFree refl (omega arith)

init_proc-IsFree_example :
    IsFree (init_proc table) (range maxproc 0)
    × ((q : ℕ) → q < maxproc → IsNew ((init_proc table).proc q))
init_proc-IsFree_example = init_proc-IsFree table
