-- ===== src/Procq.antt =====
-- queues/procq.c: the process table with its free list, and queues of table entries. A queue is
-- a ring through the p_link slots of its entries, held by the link to its tail, `tp`. A function
-- that takes a `proc_link *` is given the link and returns the new one.
pub mod Cells
pub mod Spares
pub mod Insert
pub mod Remove
pub mod Search
pub mod Out
pub mod Free
pub mod FreeTail
pub mod Init
use hoca_operating_system.Prelude.{
  ℕ, zero, suc, ◌+◌, ◌*◌, ◌==◌, true, false, Option, none, some, ℤ, pos, inc, dec, if◌then◌else◌,
  update, is_none, same, count_up, ◌-◌,
}
use hoca_operating_system.Machine.{Ptr, Link, Proc, enull_link, maxproc, semmax, State}
use hoca_operating_system.Run.{
  Run, Cmd, pure, stop, ◌>>=◌, ◌>>◌, get, modify, deref, fault, panicked, out_of_fuel,
}

-- `proc_table` and `free_head`.
pub record Procs : Type 0 where
  pub proc : ℕ → Proc
  pub free_head : Ptr

unfoldable pub modify_proc : ℕ → (Proc → Proc) → Procs → Procs
modify_proc p f s = record s { proc = update s.proc p (f (s.proc p)) }

-- `p->p_link[i]`
unfoldable pub get_link : Ptr → Option ℕ → Cmd Procs Link
get_link p i = do q ← deref p; j ← deref i; s ← get; pure ((s.proc q).p_link j)

-- The table after a write to slot `i` of entry `p`.
unfoldable pub write_link : ℕ → ℕ → Link → Procs → Procs
unfolding modify_proc
write_link p i l = modify_proc p (λ e. record e { p_link = update e.p_link i l })

-- `p->p_link[i].index = l.index; p->p_link[i].next = l.next`
unfoldable pub set_link : Ptr → Option ℕ → Link → Cmd Procs (Unit {0})
set_link p i l = do q ← deref p; j ← deref i; modify (write_link q j l)

abbrev pub link : Option ℕ → Ptr → Link
link i p = record { index = i; next = p }

unfoldable pub head_queue : Link → Cmd Procs Ptr
head_queue tp = elim tp.next [
  | none ↦ pure none
  | some t ↦ do l ← get_link (some t) tp.index; pure l.next
]

unfoldable pub alloc_proc : Cmd Procs Ptr
alloc_proc = do
  s ← get
  elim s.free_head [
    | none ↦ pure none
    | some rv ↦ do
      l ← get_link (some rv) (some 0)
      modify (λ s'. record s' { free_head = l.next })
      set_link (some rv) (some 0) enull_link
      pure (some rv)
  ]

-- The body of the loop of freeProc, and the inner loop of initProc.
abbrev pub clear_slot : ℕ → Proc → Proc
clear_slot i e = record e { p_link = update e.p_link i enull_link; semvec = update e.semvec i none }

-- The body of the first loop of initProc.
abbrev pub init_entry : Proc → Proc
init_entry e = record (count_up semmax 0 clear_slot e) {
  qcount = pos 0;
  cpu_time = pos 0;
  start_time = pos 0;
  prog_old = none;
  prog_new = none;
  system_call_old = none;
  system_call_new = none;
  memory_management_old = none;
  memory_management_new = none;
  parent = none;
  child = none;
  brother = none;
}

-- The body of its second loop: entry `i` is linked to entry `i + 1`.
abbrev pub chain_entry : ℕ → Proc → Proc
chain_entry i e = record e { p_link = update e.p_link 0 (link (some 0) (some (i + 1))) }

unfoldable pub init_proc : Procs → Procs
init_proc s0 =
    let s1 = count_up maxproc 0 (λ i s. modify_proc i init_entry s) s0 in
    let s2 = count_up (maxproc - 1) 0 (λ i s. modify_proc i (chain_entry i) s) s1 in
    let s3 = write_link (maxproc - 1) 0 enull_link s2 in record s3 { free_head = some 0 }

-- The first of the slots `i`, `i + 1`, … whose index is ENULL; where none of `n` slots is, `i + n`.
unfoldable pub find_slot : ℕ → ℕ → Proc → ℕ
find_slot zero i p = i
find_slot (suc n) i p = if is_none (p.p_link i).index then i else find_slot n (i + 1) p

-- `p->qcount ++`
unfoldable pub inc_qcount : ℕ → Procs → Procs
unfolding modify_proc
inc_qcount p = modify_proc p (λ e. record e { qcount = inc e.qcount })

-- `p->qcount --`
unfoldable pub dec_qcount : ℕ → Procs → Procs
unfolding modify_proc
dec_qcount p = modify_proc p (λ e. record e { qcount = dec e.qcount })

unfoldable pub insert_proc : Link → Ptr → Cmd Procs Link
unfolding get_link set_link
insert_proc tp p = do
  q ← deref p
  s ← get
  let i = find_slot semmax 0 (s.proc q)
  if i == semmax then stop panicked else elim tp.next [
    | none ↦ set_link p (some i) (link (some i) p)
    | some tail ↦ do
      old ← get_link (some tail) tp.index
      set_link p (some i) old
      set_link (some tail) tp.index (link (some i) p)
  ]
  modify (inc_qcount q)
  pure (link (some i) p)

-- The removed entry, and the new link to the tail.
unfoldable pub remove_proc : Link → Cmd Procs (Ptr × Link)
unfolding get_link set_link head_queue
remove_proc tp = elim tp.next [
  | none ↦ pure (none, tp)
  | some t ↦ do
    head ← head_queue tp
    if same (some t) head
        then (do
          set_link (some t) tp.index enull_link
          modify (dec_qcount t)
          pure (some t, enull_link))
        else do
          l ← get_link (some t) tp.index
          new ← get_link head l.index
          set_link (some t) tp.index new
          set_link head l.index enull_link
          rv ← deref head
          modify (dec_qcount rv)
          pure (head, tp)
]

-- The walk to the last entry of the free list.
unfoldable pub free_walk : ℕ → ℕ → Cmd Procs ℕ
free_walk zero walker = stop out_of_fuel
free_walk (suc k) walker = do
  l ← get_link (some walker) (some 0)
  elim l.next [ none ↦ pure walker | some w ↦ free_walk k w ]

-- The loop of freeProc over the slots, and the reset of qcount.
unfoldable pub wipe_entry : ℕ → Procs → Procs
unfolding modify_proc
wipe_entry q = modify_proc q (λ e. record (count_up semmax 0 clear_slot e) { qcount = pos 0 })

-- The test of freeProc on `free_head`: `p` becomes the only free entry, or the last one.
unfoldable pub append_free : Ptr → Ptr → Cmd Procs (Unit {0})
unfolding get_link set_link free_walk
append_free none p = modify (λ t. record t { free_head = p })
append_free (some h) p = do
  walker ← free_walk maxproc h
  l ← get_link (some walker) (some 0)
  set_link (some walker) (some 0) (record l { next = p })

unfoldable pub free_proc : Ptr → Cmd Procs (Unit {0})
unfolding wipe_entry append_free
free_proc p = do q ← deref p; modify (wipe_entry q); s ← get; append_free s.free_head p

-- `prev` and `cur` name a p_link slot each: the lines that take `cur` out of the ring.
unfoldable pub unlink : Link → Link → Cmd Procs Ptr
unlink prev cur = do
  l ← get_link cur.next cur.index
  set_link prev.next prev.index l
  set_link cur.next cur.index enull_link
  rv ← deref cur.next
  modify (dec_qcount rv)
  pure cur.next

-- The loop of outProc from the head up to the tail, and what follows it.
unfoldable pub out_loop : ℕ → Link → Ptr → Link → Link → Cmd Procs (Ptr × Link)
out_loop zero tp p prev cur = stop out_of_fuel
out_loop (suc k) tp p prev cur = elim (same cur.next tp.next) [
  | true ↦ if same cur.next p then (do rv ← unlink prev cur; pure (rv, prev)) else pure (none, tp)
  | false ↦
      if same cur.next p
      then (do rv ← unlink prev cur; pure (rv, tp))
      else do next ← get_link cur.next cur.index; out_loop k tp p cur next
]

-- Every node of a ring is a slot of a table entry.
abbrev pub out_fuel : ℕ
out_fuel = maxproc * semmax

unfoldable pub out_proc : Link → Ptr → Cmd Procs (Ptr × Link)
unfolding get_link set_link head_queue unlink out_loop
out_proc tp p = elim tp.next [
  | none ↦ pure (none, tp)
  | some t ↦ do
    head ← head_queue tp
    if same (some t) head
        then (if same (some t) p
            then (do
              set_link (some t) tp.index enull_link
              modify (dec_qcount t)
              pure (some t, enull_link))
            else pure (none, tp))
        else do cur ← get_link (some t) tp.index; out_loop out_fuel tp p tp cur
]
