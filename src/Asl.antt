-- ===== src/Asl.antt =====
-- queues/asl.c: the list of semaphores that processes wait for. Each active semaphore has a
-- descriptor with a queue of process table entries; unused descriptors form a free list.
pub mod Bound
pub mod Find
pub mod Lists
pub mod Unlink
pub mod Shape
pub mod Removal
pub mod Release
pub mod Names
pub mod Take
pub mod Waiting
pub mod Claim
pub mod Insertion
pub mod Return
pub mod Withdrawal
pub mod Start
pub mod Life
pub mod Capacity
pub mod Enter
pub mod Relink
pub mod Append
pub mod Woken
pub mod Wake
pub mod Full
use hoca_operating_system.Prelude.{
  ℕ, zero, suc, ◌+◌, ◌-◌, Bool, true, false, Option, none, some, ℤ, inc, if◌then◌else◌, update,
  is_none, same, count_up, not,
}
use hoca_operating_system.Machine.{Ptr, Addr, Link, Proc, enull_link, maxproc, semmax}
use hoca_operating_system.Run.{Cmd, pure, stop, ◌>>=◌, ◌>>◌, get, modify, deref, zoom, out_of_fuel}
use hoca_operating_system.Procq.{Procs, modify_proc, head_queue, insert_proc, remove_proc, out_proc}

-- A semaphore descriptor, `semd_t`.
pub record Semd : Type 0 where
  pub s_next : Ptr
  pub s_prev : Ptr
  pub sem_add : Option Addr
  pub s_link : Link

-- `semd_table`, `cur_sem` and `free_head_s`, the process table, and the words of memory that
-- semaphores are.
pub record Sems : Type 0 where
  pub procs : Procs
  pub semd : ℕ → Semd
  pub cur_sem : Ptr
  pub free_head_s : Ptr
  pub words : Addr → ℤ

-- A command of procq.c.
abbrev pub on_procs : {A : Type 0} → Cmd Procs A → Cmd Sems A
on_procs = zoom (λ s. s.procs) (λ s p. record s { procs = p })

unfoldable pub modify_semd : ℕ → (Semd → Semd) → Sems → Sems
modify_semd w f s = record s { semd = update s.semd w (f (s.semd w)) }

-- The loop of setSem from slot `i` on: `a` goes into the first slot of semvec that is ENULL.
unfoldable pub set_sem : ℕ → ℕ → Addr → Proc → Proc
set_sem zero i a e = e
set_sem (suc n) i a e =
    if is_none (e.semvec i)
    then record e { semvec = update e.semvec i (some a) }
    else set_sem n (i + 1) a e

-- The loop of setSem2: the first slot of semvec that holds `a` becomes ENULL.
unfoldable pub set_sem2 : ℕ → ℕ → Addr → Proc → Proc
set_sem2 zero i a e = e
set_sem2 (suc n) i a e =
    if same (e.semvec i) (some a)
    then record e { semvec = update e.semvec i none }
    else set_sem2 n (i + 1) a e

-- `setSem(semAdd, p)` and `setSem2(semAdd, p)`
abbrev pub on_entry : (Proc → Proc) → Ptr → Cmd Sems (Unit {0})
on_entry f p = do q ← deref p; modify (λ s. record s { procs = modify_proc q f s.procs })

-- The walk along the active list to the descriptor of `a`, with the one before it.
unfoldable pub find_sem : ℕ → Addr → Ptr → Ptr → Cmd Sems (Ptr × Ptr)
find_sem zero a prev walker = stop out_of_fuel
find_sem (suc k) a prev none = pure (prev, none)
find_sem (suc k) a prev (some w) = do
  s ← get
  elim (same (s.semd w).sem_add (some a)) [
    | true ↦ pure (prev, some w)
    | false ↦ find_sem k a (some w) (s.semd w).s_next
  ]

-- One more round than there are descriptors.
abbrev pub sem_fuel : ℕ
sem_fuel = maxproc + 1

-- The walk to the last free descriptor.
unfoldable pub free_walk_s : ℕ → ℕ → Cmd Sems ℕ
free_walk_s zero w = stop out_of_fuel
free_walk_s (suc k) w = do
  s ← get
  elim (s.semd w).s_next [ none ↦ pure w | some v ↦ free_walk_s k v ]

-- The first half of removeBlockHelper: the descriptor leaves the active list.
unfoldable pub unlink_sem : ℕ → Ptr → Ptr → Sems → Sems
unfolding modify_semd
unlink_sem w (some p) (some n) s =
    modify_semd n (λ d. record d { s_prev = some p })
      (modify_semd p (λ d. record d { s_next = some n }) s)
unlink_sem w (some p) none s = modify_semd p (λ d. record d { s_next = none }) s
unlink_sem w none (some n) s =
    let t = modify_semd n (λ d. record d { s_prev = none }) s in record t { cur_sem = some n }
unlink_sem w none none s = record s { cur_sem = none }

-- The second half: it goes to the end of the free list.
unfoldable pub release_sem : ℕ → Ptr → Cmd Sems (Unit {0})
unfolding modify_semd free_walk_s
release_sem w none = modify (λ s.
    let t = modify_semd w (λ d. record d { s_prev = none; s_next = none; sem_add = none }) s in
    record t { free_head_s = some w })
release_sem w (some h) = do
  last ← free_walk_s maxproc h
  modify (modify_semd last (λ d. record d { s_next = some w }))
  modify (modify_semd w (λ d. record d { s_prev = some last; s_next = none; sem_add = none }))

unfoldable pub remove_block_helper : ℕ → Cmd Sems (Unit {0})
unfolding unlink_sem release_sem
remove_block_helper w = do
  s ← get
  modify (unlink_sem w (s.semd w).s_prev (s.semd w).s_next)
  t ← get
  release_sem w t.free_head_s

-- `insertProc(&(w->s_link), p); setSem(semAdd, p)`
unfoldable pub enter_sem : ℕ → Addr → Ptr → Cmd Sems (Unit {0})
unfolding modify_semd set_sem
enter_sem w a p = do
  s ← get
  tp ← on_procs (insert_proc (s.semd w).s_link p)
  modify (modify_semd w (λ d. record d { s_link = tp }))
  on_entry (set_sem semmax 0 a) p

-- The branch of insertBlocked for an empty active list.
unfoldable pub first_sem : Addr → Cmd Sems ℕ
unfolding modify_semd
first_sem a = do
  s ← get
  w ← deref s.free_head_s
  modify (λ t. record t { cur_sem = some w; free_head_s = (s.semd w).s_next })
  modify (modify_semd w (λ d. record d { s_next = none }))
  f ← deref (s.semd w).s_next
  modify (modify_semd f (λ d. record d { s_prev = none }))
  modify (modify_semd w (λ d. record d { sem_add = some a }))
  pure w

-- Its branch for a semaphore without a descriptor; `w` is the free descriptor to use.
unfoldable pub next_sem : Addr → Ptr → ℕ → Cmd Sems (Unit {0})
unfolding modify_semd
next_sem a prev w = do
  s ← get
  p ← deref prev
  let rest = (s.semd w).s_next
  modify (λ t. record t { free_head_s = rest })
  modify (modify_semd w (λ d. record d { s_next = none; sem_add = some a }))
  modify (modify_semd p (λ d. record d { s_next = some w }))
  modify (modify_semd w (λ d. record d { s_prev = prev }))
  elim rest [ none ↦ pure tt | some f ↦ modify (modify_semd f (λ d. record d { s_prev = none })) ]

-- What insertBlocked does after its walk; `true` says that no descriptor is left.
unfoldable pub insert_at : Addr → Ptr → Ptr → Ptr → Ptr → Cmd Sems Bool
unfolding next_sem enter_sem
insert_at a p prev (some w) free = do enter_sem w a p; pure false
insert_at a p prev none none = pure true
insert_at a p prev none (some w) = do next_sem a prev w; enter_sem w a p; pure false

unfoldable pub insert_blocked : Addr → Ptr → Cmd Sems Bool
unfolding first_sem enter_sem find_sem insert_at
insert_blocked a p = do
  s ← get
  elim s.cur_sem [
    | none ↦ do w ← first_sem a; enter_sem w a p; pure false
    | some c ↦ do
      (prev, walker) ← find_sem sem_fuel a none (some c)
      insert_at a p prev walker s.free_head_s
  ]

-- The body of the first loop of initSemd.
abbrev pub init_semd_entry : Semd → Semd
init_semd_entry d = record { s_next = none; s_prev = none; s_link = enull_link; sem_add = none }

unfoldable pub init_semd : Sems → Sems
unfolding modify_semd
init_semd s0 =
    let s1 = count_up maxproc 0 (λ i s. modify_semd i init_semd_entry s) s0 in
    let s2 =
      count_up (maxproc - 2) 1
        (λ i s. modify_semd i (λ d. record d { s_next = some (i + 1); s_prev = some (i - 1) }) s)
        s1 in
    let s3 = modify_semd 0 (λ d. record d { s_next = some 1 }) s2 in
    let s4 = modify_semd 19 (λ d. record d { s_prev = some 18 }) s3 in
    record s4 { cur_sem = none; free_head_s = some 0 }

-- What headBlocked does after its walk.
unfoldable pub head_at : Ptr → Cmd Sems Ptr
head_at none = pure none
head_at (some w) = do s ← get; on_procs (head_queue (s.semd w).s_link)

unfoldable pub head_blocked : Addr → Cmd Sems Ptr
unfolding find_sem head_at
head_blocked a = do
  s ← get
  elim s.cur_sem [
    | none ↦ pure none
    | some c ↦ do (prev, walker) ← find_sem sem_fuel a none (some c); head_at walker
  ]

-- A descriptor whose queue is empty is given back.
unfoldable pub drop_if_empty : Addr → ℕ → Cmd Sems (Unit {0})
unfolding head_blocked remove_block_helper
drop_if_empty a w = do
  head ← head_blocked a
  if is_none head then remove_block_helper w else pure tt

unfoldable pub remove_blocked : Addr → Cmd Sems Ptr
unfolding find_sem modify_semd set_sem2 drop_if_empty
remove_blocked a = do
  s ← get
  (prev, walker) ← find_sem sem_fuel a none s.cur_sem
  elim walker [
    | none ↦ pure none
    | some w ↦ do
      (rv, tp) ← on_procs (remove_proc (s.semd w).s_link)
      modify (modify_semd w (λ d. record d { s_link = tp }))
      on_entry (set_sem2 semmax 0 a) rv
      drop_if_empty a w
      pure rv
  ]

-- `*a += 1`
abbrev pub inc_word : Addr → Sems → Sems
inc_word a s = record s { words = update s.words a (inc (s.words a)) }

-- The part of outBlocked's loop for a slot that holds `a`; `rv` is the result so far.
unfoldable pub out_slot : ℕ → ℕ → Addr → Ptr → Cmd Sems Ptr
unfolding find_sem modify_semd drop_if_empty
out_slot p i a rv = do
  modify (inc_word a)
  s ← get
  (prev, walker) ← find_sem sem_fuel a none s.cur_sem
  elim walker [
    | none ↦ pure rv
    | some w ↦ do
      on_entry (λ e. record e { semvec = update e.semvec i none }) (some p)
      (out, tp) ← on_procs (out_proc (s.semd w).s_link (some p))
      modify (modify_semd w (λ d. record d { s_link = tp }))
      drop_if_empty a w
      pure out
  ]

unfoldable pub out_loop_s : ℕ → ℕ → ℕ → Ptr → Cmd Sems Ptr
unfolding out_slot
out_loop_s zero i p rv = pure rv
out_loop_s (suc n) i p rv = do
  s ← get
  rv' ← elim ((s.procs.proc p).semvec i) [ none ↦ pure rv | some a ↦ out_slot p i a rv ]
  out_loop_s n (i + 1) p rv'

unfoldable pub out_blocked : Ptr → Cmd Sems Ptr
unfolding out_loop_s
out_blocked p = do q ← deref p; out_loop_s semmax 0 q none

unfoldable pub head_asl : Cmd Sems Bool
head_asl = do s ← get; pure (not (is_none s.cur_sem))
