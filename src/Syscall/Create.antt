-- ===== src/Syscall/Create.antt =====
-- Create_Process of nucleus/traps/syscall.c: SYS1.
use hoca_operating_system.Prelude.{
  ℕ, ◌≤◌, true, false, ◌≡◌, refl, sym, subst, ap, ◌∙◌, pos, negsuc, bits, none, some, is_none, List,
  [], ◌∷◌, ◌++◌, arith, length, true_false, update, ◌==◌,
}
use hoca_operating_system.Machine.{Ptr, Addr, Link, Proc, State, set_reg, enull_link}
use hoca_operating_system.Run.{
  ok, exit, Run, Returns, returns, Returns-bind, ◌>>=◌, ◌>>◌, and_then, Cmd, modify, get,
}
use hoca_operating_system.Procq.{Procs, modify_proc, write_link, alloc_proc}
use hoca_operating_system.Procq.Cells.{Node, cell, has_node, has_proc}
use hoca_operating_system.Procq.Free.{has, IsFree, popped, popped-proc, alloc_head}
use hoca_operating_system.Procq.Insert.{FirstFree}
use hoca_operating_system.Asl.Enter.{modify_cell}
use hoca_operating_system.Asl.Lists.{NoDup}
use hoca_operating_system.Kernel.{
  Kernel, entry, put_procs, modify_entry, write_state, current, make_ready,
}
use hoca_operating_system.Kernel.Queues.{Queues, Queues-elsewhere, make_ready-Queues, current-head}
use hoca_operating_system.Syscall.{create_process, adopt, answer, list_fuel}
use hoca_operating_system.Syscall.Siblings.{Siblings, Family, Siblings-frame}
use hoca_operating_system.Syscall.Adopt.{Kin, adopt-Kin}

-- A process that is in no queue has no slot in it.
proc_apart :
    (f q i : ℕ) (ns : List Node)
    → has_node (q, i) ns ≡ true
    → has_proc f ns ≡ false
    → (q == f) ≡ false
proc_apart f q i [] h out = true_false h refl
proc_apart f q i ((p, j) ∷ ns) h out = ground (arith, h, out, proc_apart f q i ns)

popped-cell : (s : Procs) (f q i : ℕ) → (q == f) ≡ false → cell (popped s f) (q, i) ≡ cell s (q, i)
popped-cell s f q i out = ap (λ (e : Proc). e.p_link i) (popped-proc s f q out)

popped_kin :
    (s : Procs) (f q : ℕ)
    → (((popped s f).proc q).parent ≡ (s.proc q).parent)
      × (((popped s f).proc q).brother ≡ (s.proc q).brother)
      × (((popped s f).proc q).child ≡ (s.proc q).child)
unfolding write_link modify_proc
popped_kin s f q = ground arith

-- The state with the new entry taken off the free list and its processor state set.
abbrev forked : Kernel → ℕ → State → Kernel
forked k f x = modify_entry f (λ e. record e { p_s = x }) (put_procs k (popped k.sems.procs f))

forked_kin :
    (k : Kernel) (f : ℕ) (x : State) (q : ℕ)
    → ((entry (forked k f x) q).parent ≡ (entry k q).parent)
      × ((entry (forked k f x) q).brother ≡ (entry k q).brother)
      × ((entry (forked k f x) q).child ≡ (entry k q).child)
unfolding modify_entry modify_proc write_link
forked_kin k f x q = ground arith

forked_state : (k : Kernel) (f : ℕ) (x : State) → (entry (forked k f x) f).p_s ≡ x
unfolding modify_entry modify_proc
forked_state k f x = ground arith

forked_slot : (k : Kernel) (f : ℕ) (x : State) → (entry (forked k f x) f).p_link 0 ≡ enull_link
unfolding modify_entry modify_proc write_link
forked_slot k f x = ground arith

module _ (k : Kernel) (f : ℕ) (ready : List Node) (m : Addr → List Node) (h : Queues k ready m)
    (out : has_proc f ready ≡ false) (idle : (a : Addr) → has_proc f (m a) ≡ false) where
  popped-Queues : Queues (put_procs k (popped k.sems.procs f)) ready m
  popped-Queues =
      Queues-elsewhere k ready m (popped k.sems.procs f) h
        (λ a n i. popped-cell k.sems.procs f n.0 n.1 (proc_apart f n.0 n.1 (m a) i (idle a)))
        (λ n i. popped-cell k.sems.procs f n.0 n.1 (proc_apart f n.0 n.1 ready i out))

  forked-Queues : (x : State) → Queues (forked k f x) ready m
  unfolding modify_entry
  forked-Queues x =
      let g : Proc → Proc = λ e. record e { p_s = x } in
      let s = popped k.sems.procs f in
      Queues-elsewhere (put_procs k s) ready m (modify_proc f g s) popped-Queues
        (λ a n i. modify_cell f g s n.0 n.1 (λ e. refl))
        (λ n i. modify_cell f g s n.0 n.1 (λ e. refl))

-- Only the family of a process changed.
Kin-Queues :
    (k : Kernel) (up : ℕ) (them cs : List ℕ) (t : Kernel) (ready : List Node) (m : Addr → List Node)
    → Kin k up them cs t
    → Queues k ready m
    → Queues t ready m
Kin-Queues k up them cs t ready m kin h =
    let same : (n : Node) → cell t.sems.procs n ≡ cell k.sems.procs n =
      λ n. ap (λ (e : Proc). e.p_link n.1) (kin.fields n.0) in
    subst (λ x. Queues x ready m) (ap (λ x. put_procs x t.sems.procs) (sym kin.rest))
      (Queues-elsewhere k ready m t.sems.procs h (λ a n i. same n) (λ n i. same n))

forked_same :
    (k : Kernel) (f : ℕ) (x : State)
    → ((forked k f x).states ≡ k.states) × ((forked k f x).sems.words ≡ k.sems.words)
unfolding modify_entry modify_proc write_link
forked_same k f x = (refl, refl)

alloc_none : (s : Procs) → s.free_head ≡ none → alloc_proc s ≡ ok none s
unfolding alloc_proc
alloc_none s e = simp e refl

-- What SYS1 leaves: the new process `f` is the last child of its parent `c` and the last in the running
-- queue, with the state whose address is in register 4 of the caller, and register 2 is 0.
pub record Created (k : Kernel) (old : Addr) (c f : ℕ) (ready : List Node) (m : Addr → List Node)
    (cs : List ℕ) (t : Kernel) : Type 0 where
  pub queues : Queues t (ready ++ (f, 0) ∷ []) m
  pub family : Family t c (cs ++ f ∷ [])
  pub state : (entry t f).p_s ≡ k.states (bits ((k.states old).s_r 4))
  pub register : t.states ≡ update k.states old (set_reg (k.states old) 2 (pos 0))
  pub values : t.sems.words ≡ k.sems.words

module _ (k : Kernel) (old : Addr) (c f : ℕ) (ready : List Node) (m : Addr → List Node)
    (cs : List ℕ) where
  abbrev state_to_run : State
  state_to_run = k.states (bits ((k.states old).s_r 4))

  abbrev after : Kernel
  after = forked k f state_to_run

  -- The last steps, from the state `j` after the process joined the family.
  finish :
      (j : Kernel)
      → Kin after c (f ∷ cs) (cs ++ f ∷ []) j
      → Queues after ready m
      → has_proc f ready ≡ false
      → Returns
          (λ _. Created k old c f ready m cs)
          ((make_ready (some f) >> answer old 2 (pos 0)) j)
  unfolding answer
  finish j kin h out =
      Returns-bind
        (make_ready-Queues j ready m f 0
          (Kin-Queues after c (f ∷ cs) (cs ++ f ∷ []) j ready m kin h) out slot)
        (λ _ t q. returns (record {
          queues = record {
            refines = q.0.refines;
            queue = q.0.queue;
            apart = q.0.apart;
            slots = q.0.slots;
          };
          family =
              subst (λ o. Siblings (entry t) o c (cs ++ f ∷ []))
                (sym (ap (λ (e : Proc). e.child) (q.2.fields c)))
                (Siblings-frame (entry j) (entry t) c (entry j c).child (cs ++ f ∷ []) kin.family
                  (λ v i. (
                    ap (λ (e : Proc). e.parent) (q.2.fields v),
                    ap (λ (e : Proc). e.brother) (q.2.fields v),
                  )));
          state =
              ap (λ (e : Proc). e.p_s) (q.2.fields f)
              ∙ ap (λ (e : Proc). e.p_s) (kin.fields f)
              ∙ forked_state k f state_to_run;
          register =
              ap (λ (u : Addr → State). update u old (set_reg (u old) 2 (pos 0)))
                (q.3 ∙ same_states);
          values = q.1 ∙ same_words;
        }))
    where
      slot : FirstFree (entry j f) 0
      slot = record {
        fits = omega arith;
        free =
            ap (λ (l : Link). is_none l.index)
              (ap (λ (e : Proc). e.p_link 0) (kin.fields f) ∙ forked_slot k f state_to_run);
        used = λ i less. absurd (omega (arith, less));
      }

      same_states : j.states ≡ k.states
      same_states = ap (λ (x : Kernel). x.states) kin.rest ∙ (forked_same k f state_to_run).0

      same_words : j.sems.words ≡ k.sems.words
      same_words = ap (λ (x : Kernel). x.sems.words) kin.rest ∙ (forked_same k f state_to_run).1

-- Create_Process after allocProc and headQueue.
abbrev with_entry : Addr → Ptr → Ptr → Cmd Kernel (Unit {0})
with_entry old fork cur = elim fork [
  | none ↦ answer old 2 (negsuc 0)
  | some f ↦ get >>= λ j.
      modify (modify_entry f (λ e. record e { p_s = j.states (bits ((j.states old).s_r 4)) }))
      >> (adopt cur (some f) >> (make_ready (some f) >> answer old 2 (pos 0)))
]

create_process-with :
    (k : Kernel) (old : Addr) (fork : Ptr) (u : Procs) (c : ℕ)
    → alloc_proc k.sems.procs ≡ ok fork u
    → current (put_procs k u) ≡ ok (some c) (put_procs k u)
    → create_process old k ≡ with_entry old fork (some c) (put_procs k u)
unfolding create_process
create_process-with k old fork u c e cur =
    ap
      (λ x.
        and_then
          (elim x as (λ _. Run Kernel Ptr) [
            | ok p s ↦ ok p (put_procs k s)
            | exit v s ↦ exit v (put_procs k s)
          ])
          (λ p. current >>= with_entry old p))
      e
    ∙ ap (λ r. and_then r (with_entry old fork)) cur

-- A free entry is in no queue, no child of `c`, and has no brother.
pub record Unplaced (k : Kernel) (ready : List Node) (m : Addr → List Node) (cs : List ℕ) (f : ℕ)
    : Type 0 where
  pub not_ready : has_proc f ready ≡ false
  pub waits_not : (a : Addr) → has_proc f (m a) ≡ false
  pub no_child : has f cs ≡ false
  pub alone : (entry k f).brother ≡ none

-- The outcome of SYS1 for the free entries `ps`.
abbrev pub Forked :
    Kernel → Addr → ℕ → List Node → (Addr → List Node) → List ℕ → List ℕ → Kernel → Type 0
Forked k old c ready m cs [] t = t ≡ write_state old (set_reg (k.states old) 2 (negsuc 0)) k
Forked k old c ready m cs (f ∷ fs) t = Created k old c f ready m cs t

-- SYS1 by the running process `c` takes the first free entry: the new process becomes the last child of
-- `c` and the last of the running queue, runs from the state whose address is in register 4, and
-- register 2 becomes 0; the other queues and the values of the semaphores are as before. Without
-- a free entry register 2 becomes -1 and nothing else changes.
pub create_process-Forked :
    (k : Kernel) (old : Addr) (c j : ℕ) (ready : List Node) (m : Addr → List Node) (cs ps : List ℕ)
    → Queues k ((c, j) ∷ ready) m
    → IsFree k.sems.procs ps
    → Family k c cs
    → NoDup cs
    → length cs ≤ list_fuel
    → ((f : ℕ) → has f ps ≡ true → Unplaced k ((c, j) ∷ ready) m cs f)
    → Returns (λ _. Forked k old c ((c, j) ∷ ready) m cs ps) (create_process old k)
unfolding answer
create_process-Forked k old c j ready m cs [] h free family once fuel new =
    rw
      (create_process-with k old none k.sems.procs c (alloc_none k.sems.procs free.chain)
        (current-head k (c, j) ready m h))
      (returns refl)
create_process-Forked k old c j ready m cs (f ∷ fs) h free family once fuel new =
    let all = (c, j) ∷ ready in
    let spare = new f (ground arith) in
    let x = k.states (bits ((k.states old).s_r 4)) in
    let taken = popped-Queues k f all m h spare.not_ready spare.waits_not in
    rw
      (create_process-with k old (some f) (popped k.sems.procs f) c
        (alloc_head k.sems.procs f free.chain.0)
        (current-head (put_procs k (popped k.sems.procs f)) (c, j) ready m taken))
      (Returns-bind
        (adopt-Kin (forked k f x) c f cs
          (subst (λ o. Siblings (entry (forked k f x)) o c cs) (sym (forked_kin k f x c).2)
            (Siblings-frame (entry k) (entry (forked k f x)) c (entry k c).child cs family
              (λ v i. ((forked_kin k f x v).0, (forked_kin k f x v).1))))
          once spare.no_child fuel ((forked_kin k f x f).1 ∙ spare.alone))
        (λ _ u kin.
          finish k old c f all m cs u kin
            (forked-Queues k f all m h spare.not_ready spare.waits_not x) spare.not_ready))
