-- ===== src/Sched/Idle.antt =====
-- schedule of nucleus/traps/main.c when no process is ready.
use Prim.Native.String.{String, len}
use hoca_operating_system.Prelude.{
  ℕ, ℤ, pos, negsuc, same_int, [], ◌∷◌, ◌++◌, update, zero, suc, ◌+◌, ◌<◌, ◌≤◌, Bool, true, false,
  ◌||◌, not, ◌≡◌, refl, sym, subst, ap, ◌∙◌, inl, inr, none, some, List, arith, ◌==◌, is_none,
  Bool-cases, true_false, if◌then◌else◌,
}
use hoca_operating_system.Machine.{Ptr, Addr, Link, iowrite}
use hoca_operating_system.Run.{ok, exit, sleep, halt, stop, ◌>>=◌, ◌>>◌, and_then, Run, Cmd}
use hoca_operating_system.Procq.{Procs, head_queue}
use hoca_operating_system.Procq.Cells.{Node}
use hoca_operating_system.Procq.Remove.{head_of}
use hoca_operating_system.Asl.{head_blocked, head_asl}
use hoca_operating_system.Asl.Find.{IsAsl, WaitFor, head_blocked-head}
use hoca_operating_system.Kernel.{Kernel, put_procs, on_sems, current, dev_sem, clock_lock}
use hoca_operating_system.Sched.{
  dev_blocked, int_deadlock, int_schedule, printer, schedule, dispatch, quantum, poll, message,
}

-- Nobody waits.
abbrev pub nobody : List Node → Bool
nobody ns = is_none (head_of ns)

-- The nucleus after it has printed a text of `n` characters; `rest` are the readings of the printer's
-- status that are left.
abbrev pub printed : String → ℕ → List ℤ → Kernel → Kernel
printed text n rest k = record k {
  buffer = text;
  dev = update k.dev 5 (record (k.dev 5) { d_stat = negsuc 0; d_dadd = pos n; d_op = iowrite });
  polls = rest;
}

-- How it goes on, by who waits for what: it sleeps until the clock, with the timer set; it sleeps until
-- a device; or it prints whether a semaphore is left active, and halts.
pub data Idle (k : Kernel) (waits : Addr → List Node) (rest : List ℤ)
    : Run Kernel (Unit {0}) → Type 0 where
  for_clock :
      nobody (waits clock_lock) ≡ false
      → Idle k waits rest (exit sleep (record k { timer = quantum }))
  for_device :
      nobody (waits clock_lock) ≡ true
      → (i : ℕ) → i < 15
      → nobody (waits (dev_sem i)) ≡ false
      → Idle k waits rest (exit sleep k)
  normal :
      nobody (waits clock_lock) ≡ true
      → ((i : ℕ) → i < 15 → nobody (waits (dev_sem i)) ≡ true)
      → is_none k.sems.cur_sem ≡ true
      → Idle k waits rest (exit halt (printed "nucleus: normal termination" 27 rest k))
  deadlock :
      nobody (waits clock_lock) ≡ true
      → ((i : ℕ) → i < 15 → nobody (waits (dev_sem i)) ≡ true)
      → is_none k.sems.cur_sem ≡ false
      → Idle k waits rest (exit halt (printed "nucleus: deadlock termination" 29 rest k))

-- No reading is NORMAL.
abbrev pub AllBusy : List ℤ → Type 0
AllBusy [] = Unit {0}
AllBusy (v ∷ vs) = (same_int v (pos 0) ≡ false) × AllBusy vs

poll-normal :
    (before rest : List ℤ) (k : Kernel)
    → AllBusy before
    → poll (before ++ pos 0 ∷ rest) k ≡ ok tt (record k { polls = rest })
unfolding poll
poll-normal [] rest k h = refl
poll-normal (v ∷ vs) rest k h =
    rw h.0 (poll-normal vs rest (record k { polls = vs ++ pos 0 ∷ rest }) h.1)

module _ (k : Kernel) (waits : Addr → List Node)
    (heads : (a : Addr) → head_blocked a k.sems ≡ ok (head_of (waits a)) k.sems) where
  on_sems_head : (a : Addr) → on_sems (head_blocked a) k ≡ ok (head_of (waits a)) k
  on_sems_head a =
      ap
        (λ x. elim x as (λ _. Run Kernel Ptr) [
          | ok p s ↦ ok p (record k { sems = s })
          | exit e s ↦ exit e (record k { sems = s })
        ])
        (heads a)

  some_waits : ℕ → ℕ → Bool → Bool
  some_waits zero i found = found
  some_waits (suc n) i found = some_waits n (i + 1) (found || not (nobody (waits (dev_sem i))))

  dev_blocked_waits :
      (n i : ℕ) (found : Bool) → dev_blocked n i found k ≡ ok (some_waits n i found) k
  unfolding dev_blocked some_waits
  dev_blocked_waits zero i found = refl
  dev_blocked_waits (suc n) i found =
      ap (λ x. and_then x (λ p. dev_blocked n (i + 1) (found || not (is_none p))))
        (on_sems_head (dev_sem i))
      ∙ dev_blocked_waits n (i + 1) (found || not (nobody (waits (dev_sem i))))

  -- When it is false, nobody waits; when it is true, it was so before or somebody waits.
  none_waits :
      (n i : ℕ) (found : Bool)
      → some_waits n i found ≡ false
      → (found ≡ false) × ((j : ℕ) → i ≤ j → j < i + n → nobody (waits (dev_sem j)) ≡ true)
  unfolding some_waits
  none_waits zero i found h = (h, λ j low high. absurd (omega (arith, low, high)))
  none_waits (suc n) i found h =
      let rest = none_waits n (i + 1) (found || not (nobody (waits (dev_sem i)))) h in
      (
        ground (arith, rest.0),
        λ j low high. elim (Bool-cases (j == i)) [
          | inl hit ↦
              let e : j ≡ i = ground arith in
              subst (λ x. nobody (waits (dev_sem x)) ≡ true) (sym e) (ground (arith, rest.0))
          | inr other ↦ rest.1 j (ground arith) (omega (arith, high))
        ],
      )

  one_waits :
      (n i : ℕ) (found : Bool)
      → some_waits n i found ≡ true
      → found ≡ false
      → (j : ℕ) × ((j < i + n) × (nobody (waits (dev_sem j)) ≡ false))
  unfolding some_waits
  one_waits zero i found h no_one = true_false h no_one
  one_waits (suc n) i found h no_one = elim (Bool-cases (nobody (waits (dev_sem i)))) [
    | inr here ↦ (i, (omega arith, here))
    | inl there ↦
        let (j, (small, e)) =
          one_waits n (i + 1) (found || not (nobody (waits (dev_sem i)))) h (ground arith) in
        (j, (omega (arith, small), e))
  ]

  module _ (before rest : List ℤ) (all_busy : AllBusy before)
      (polls : k.polls ≡ before ++ pos 0 ∷ rest) where
    after_print :
        (text : ℕ)
        → (printer text >> stop {A = Unit {0}} halt) k
          ≡ exit halt (printed (message text) (len (message text)) rest k)
    unfolding printer
    after_print text =
        ap (λ (r : Run Kernel (Unit {0})). and_then r (λ _. stop {A = Unit {0}} halt))
          (ap (λ x. poll x (printed (message text) (len (message text)) k.polls k)) polls
            ∙ poll-normal before rest (printed (message text) (len (message text)) k.polls k)
                all_busy)

    -- The end of intdeadlock, for the answers of its tests.
    Idle-from :
        (clock busy : Bool)
        → nobody (waits clock_lock) ≡ clock
        → some_waits 15 0 false ≡ busy
        → Idle k waits rest (
            (if not clock
                then (int_schedule >> stop sleep)
                else if busy
                then stop sleep
                else (on_sems head_asl >>= (λ left.
                    if left then (printer 1 >> stop halt) else (printer 0 >> stop halt))))
              k)
    unfolding int_schedule head_asl
    Idle-from false busy ec eb = for_clock ec
    Idle-from true true ec eb =
        let (i, (small, e)) = one_waits 15 0 false eb refl in for_device ec i small e
    Idle-from true false ec eb =
        last (is_none k.sems.cur_sem) refl
          (λ i small. (none_waits 15 0 false eb).1 i (omega arith) small)
      where
        last :
            (b : Bool)
            → is_none k.sems.cur_sem ≡ b
            → ((i : ℕ) → i < 15 → nobody (waits (dev_sem i)) ≡ true)
            → Idle k waits rest
                ((if not b then (printer 1 >> stop halt) else (printer 0 >> stop halt)) k)
        last true e idle = subst (Idle k waits rest) (sym (after_print 0)) (normal ec idle e)
        last false e idle = subst (Idle k waits rest) (sym (after_print 1)) (deadlock ec idle e)

    int_deadlock-Idle : Idle k waits rest (int_deadlock k)
    unfolding int_deadlock
    int_deadlock-Idle =
        rw (int_deadlock, dev_blocked_waits 15 0 false, on_sems_head clock_lock)
          (Idle-from (nobody (waits clock_lock)) (some_waits 15 0 false) refl refl)

empty_head : (l : Link) (s : Procs) → l.next ≡ none → head_queue l s ≡ ok none s
unfolding head_queue
empty_head l s e = rw e refl

current-none : (k : Kernel) → k.running_queue.next ≡ none → current k ≡ ok none k
unfolding current
current-none k e =
    ap
      (λ x. elim x as (λ _. Run Kernel Ptr) [
        | ok p s ↦ ok p (put_procs k s)
        | exit v s ↦ exit v (put_procs k s)
      ])
      (empty_head k.running_queue k.sems.procs e)

-- With an empty running queue, schedule decides by who waits: with a process waiting for the clock it
-- sets the timer and sleeps; with one waiting for a device only, it sleeps; with neither, and when
-- the status of printer 0 reads as NORMAL after any number of other readings, it prints the deadlock
-- message if a semaphore is still active and the normal one otherwise, and then halts.
pub schedule-Idle :
    (k : Kernel) (ws : List ℕ) (waits : Addr → List Node) (before rest : List ℤ)
    → k.running_queue.next ≡ none
    → IsAsl k.sems ws
    → ((a : Addr) → WaitFor k.sems ws a (waits a))
    → AllBusy before
    → k.polls ≡ before ++ pos 0 ∷ rest
    → Idle k waits rest (schedule k)
unfolding schedule
schedule-Idle k ws waits before rest empty asl wait all_busy polls =
    subst
      (λ x. Idle k waits rest (
        and_then x (λ cur. elim cur as (λ _. Cmd Kernel (Unit {0})) [
          | none ↦ int_deadlock
          | some _ ↦ dispatch
        ])))
      (sym (current-none k empty))
      (int_deadlock-Idle k waits (λ a. head_blocked-head k.sems ws a (waits a) asl (wait a)) before
        rest all_busy polls)
