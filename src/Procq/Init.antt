-- ===== src/Procq/Init.antt =====
-- initProc makes every entry of the table idle and links all of them into the free list.
use hoca_operating_system.Prelude.{
  ℕ, zero, suc, ◌+◌, ◌-◌, ◌<◌, ◌≡◌, refl, ap, subst, sym, ◌∙◌, false, ◌&&◌, none, some, List, [],
  ◌∷◌, arith, if◌then◌else◌, pos, count_up, ltb, leb,
}
use hoca_operating_system.Machine.{Link, Proc, enull_link, semmax, maxproc}
use hoca_operating_system.Procq.{Procs, init_proc, init_entry, chain_entry, write_link, modify_proc}
use hoca_operating_system.Procq.Cells.{link-write}
use hoca_operating_system.Procq.Free.{has, FreeSeg, IsIdle, AllIdle, IsFree}

-- A loop that changes entry `k` in round `k`.
loop_entry :
    (f : ℕ → Proc → Proc) (n i q : ℕ) (s : Procs)
    → (count_up n i (λ k t. modify_proc k (f k) t) s).proc q
      ≡ (if leb i q && ltb q (i + n) then f q (s.proc q) else s.proc q)
unfolding count_up modify_proc
loop_entry f zero i q s = ground arith
loop_entry f (suc n) i q s = loop_entry f n (i + 1) q _ ∙ ground arith

abbrev pub range : ℕ → ℕ → List ℕ
range zero i = []
range (suc n) i = i ∷ range n (i + 1)

has-range : (q n i : ℕ) → q < i → has q (range n i) ≡ false
has-range q zero i h = refl
has-range q (suc n) i h = ground (arith, has-range q n (i + 1))

-- Entry `q` after the first loop, and after the second.
reset : Procs → Procs
reset s = count_up maxproc 0 (λ i t. modify_proc i init_entry t) s

reset-proc : (s : Procs) (q : ℕ) → q < maxproc → (reset s).proc q ≡ init_entry (s.proc q)
unfolding reset
reset-proc s q h = loop_entry (λ _. init_entry) maxproc 0 q s ∙ ground arith

chained : Procs → Procs
chained s = count_up (maxproc - 1) 0 (λ i t. modify_proc i (chain_entry i) t) s

chained-proc :
    (s : Procs) (q : ℕ)
    → (chained s).proc q ≡ (if ltb q 19 then chain_entry q (s.proc q) else s.proc q)
unfolding chained
chained-proc s q = loop_entry chain_entry (maxproc - 1) 0 q s ∙ ground arith

init_proc_lem :
    (s : Procs)
    → init_proc s ≡ record (write_link 19 0 enull_link (chained (reset s))) { free_head = some 0 }
unfolding init_proc chained reset
init_proc_lem s = refl

init_entry-idle :
    (e : Proc)
    → ((j : ℕ) → j < semmax → (init_entry e).p_link j ≡ enull_link)
      × ((j : ℕ) → j < semmax → (init_entry e).semvec j ≡ none)
unfolding count_up
init_entry-idle e = ((λ j h. ground arith), (λ j h. ground arith))

abbrev start : Procs → Procs
start s = record (write_link 19 0 enull_link (chained (reset s))) { free_head = some 0 }

start-next :
    (s : Procs) (q : ℕ)
    → q < maxproc
    → (((start s).proc q).p_link 0).next ≡ (if ltb q 19 then some (q + 1) else none)
start-next s q h =
    ap (λ (l : Link). l.next) (link-write (chained (reset s)) 19 0 q 0 enull_link)
    ∙ ground (arith, chained-proc (reset s) q)

start-IsIdle : (s : Procs) (q : ℕ) → q < maxproc → IsIdle ((start s).proc q)
unfolding write_link modify_proc
start-IsIdle s q h = record {
  links = λ j l u.
      ground
        (arith, chained-proc (reset s) q, reset-proc s q h, (init_entry-idle (s.proc q)).0 j u);
  semvec = λ j u.
      ground
        (arith, chained-proc (reset s) q, reset-proc s q h, (init_entry-idle (s.proc q)).1 j u);
  qcount = ground (arith, chained-proc (reset s) q, reset-proc s q h);
}

-- Entries `i`, …, 19 in a row.
start-FreeSeg :
    (s : Procs) (n i : ℕ)
    → i + n ≡ maxproc
    → FreeSeg (start s) (if ltb i maxproc then some i else none) (range n i)
start-FreeSeg s zero i e = ground arith
start-FreeSeg s (suc n) i e =
    let next : (if ltb (i + 1) maxproc then some (i + 1) else none)
        ≡ (((start s).proc i).p_link 0).next =
      ground (arith, start-next s i) in
    (
      ground arith,
      has-range i n (i + 1) (omega arith),
      subst (λ h. FreeSeg (start s) h (range n (i + 1))) next
          (start-FreeSeg s n (i + 1) (omega arith)),
    )

start-AllIdle : (s : Procs) (n i : ℕ) → i + n ≡ maxproc → AllIdle (start s) (range n i)
start-AllIdle s zero i e = tt
start-AllIdle s (suc n) i e =
    (start-IsIdle s i (omega arith), start-AllIdle s n (i + 1) (omega arith))

-- No trap vector, no relatives and no time used.
pub record IsNew (e : Proc) : Type 0 where
  pub prog : (e.prog_old ≡ none) × (e.prog_new ≡ none)
  pub mm : (e.memory_management_old ≡ none) × (e.memory_management_new ≡ none)
  pub sys : (e.system_call_old ≡ none) × (e.system_call_new ≡ none)
  pub family : (e.parent ≡ none) × (e.child ≡ none) × (e.brother ≡ none)
  pub times : (e.cpu_time ≡ pos 0) × (e.start_time ≡ pos 0)

start-IsNew : (s : Procs) (q : ℕ) → q < maxproc → IsNew ((start s).proc q)
unfolding write_link modify_proc
start-IsNew s q h = ground (arith, chained-proc (reset s) q, reset-proc s q h)

init-IsFree : (s : Procs) → IsFree (init_proc s) (range maxproc 0)
init-IsFree s =
    subst (λ t. IsFree t (range maxproc 0)) (sym (init_proc_lem s))
      (record { chain = start-FreeSeg s maxproc 0 refl; idle = start-AllIdle s maxproc 0 refl })

-- After initProc all MAXPROC entries are free, in the order of the table, and every one of them is
-- idle, has no trap vector and no relative, and has used no time.
pub init_proc-IsFree :
    (s : Procs)
    → IsFree (init_proc s) (range maxproc 0)
      × ((q : ℕ) → q < maxproc → IsNew ((init_proc s).proc q))
init_proc-IsFree s = (
  init-IsFree s,
  λ q h. subst (λ (t : Procs). IsNew (t.proc q)) (sym (init_proc_lem s)) (start-IsNew s q h),
)
