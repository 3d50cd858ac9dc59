-- ===== src/Support/Guard.antt =====
-- What it is for a program of support/ to keep the changes of pfs_arr, disk, mm and
-- shared_seg_table_page_table between a P and a V of sem_mm. Guard.Frames is about support/part2/page.c,
-- Guard.Terminals about support/part1/support.c.
pub mod Frames
pub mod Terminals
use hoca_operating_system.Prelude.{
  ℕ, zero, suc, Bool, true, false, ◌≡◌, refl, ◌⊎◌, inl, inr, Option, none, some, List, [], ◌∷◌, ℤ,
  same_int, if◌then◌else◌,
}
use hoca_operating_system.Machine.{State, lock}
use hoca_operating_system.Support.State.{Support, Sem, sem_mm}
use hoca_operating_system.Support.Prog.{
  Prog, Op, Call, Leave, done, look, change, call, stck, stst, leave, ◌>>=◌, sys1, sys3, sys5, sys7,
  sys8, sys2, halted, undefined, out_of_rounds, ldst,
}

abbrev pub is_sem_mm : Sem → Bool
is_sem_mm sem_mm = true
is_sem_mm _ = false

-- Whether the process is between P and V of sem_mm after an operation, from whether it was before;
-- `none` is what it must not do: a second P, a V without P, or another P while it holds
-- sem_mm.
abbrev pub after_mm : Bool → Bool → Option Bool
after_mm true true = none
after_mm true false = some true
after_mm false true = some false
after_mm false false = none

abbrev pub after_other : Bool → Bool → Option Bool
after_other true true = none
after_other is_lock held = some held

abbrev pub after_op : Op → Bool → Option Bool
after_op o held =
    if is_sem_mm o.sem
    then after_mm (same_int o.op lock) held
    else after_other (same_int o.op lock) held

abbrev pub after_ops : List Op → Bool → Option Bool
after_ops [] held = some held
after_ops (o ∷ os) held = elim (after_op o held) [ none ↦ none | some h ↦ after_ops os h ]

-- A wait for the clock or for a device is outside.
abbrev pub after_call : Call → Bool → Option Bool
after_call (sys3 os) held = after_ops os held
after_call sys7 held = if held then none else some false
after_call (sys8 d) held = if held then none else some false
after_call c held = some held

-- The tables that are the same in two states.
pub record SameTables (s t : Support) : Type 0 where
  pub same_frames : t.pfs_arr ≡ s.pfs_arr
  pub same_disk : t.disk ≡ s.disk
  pub same_shared : t.shared_page ≡ s.shared_page
  pub same_mm : t.mm ≡ s.mm

-- `Guarded e h p`: from inside (`h`) or outside, the program `p` changes the tables inside only,
-- makes the calls that `after_call` allows, and ends as `e` says, or leaves outside; `undefined` is
-- where C gives no meaning.
pub data Guarded {A : Type 0} (e : Bool) : Bool → Prog A → Type 0 where
  g_done : {a : A} → Guarded e e (done a)
  g_look :
      {h : Bool} {f : Support → Prog A} → ((s : Support) → Guarded e h (f s)) → Guarded e h (look f)
  g_inside : {f : Support → Support} {p : Prog A} → Guarded e true p → Guarded e true (change f p)
  g_change :
      {h : Bool} {f : Support → Support} {p : Prog A}
      → ((s : Support) → SameTables s (f s))
      → Guarded e h p
      → Guarded e h (change f p)
  g_call :
      {h h' : Bool} {c : Call} {p : Prog A}
      → after_call c h ≡ some h'
      → Guarded e h' p
      → Guarded e h (call c p)
  g_stck : {h : Bool} {f : ℤ → Prog A} → ((t : ℤ) → Guarded e h (f t)) → Guarded e h (stck f)
  g_stst :
      {h : Bool} {f : State → Prog A} → ((t : State) → Guarded e h (f t)) → Guarded e h (stst f)
  g_leave : {l : Leave} → Guarded e false (leave l)
  g_undefined : {h : Bool} → Guarded e h (leave undefined)

module _ {A B : Type 0} {e m : Bool} {k : A → Prog B} (next : (a : A) → Guarded e m (k a)) where
  pub Guarded-bind : {h : Bool} {p : Prog A} → Guarded m h p → Guarded e h (p >>= k)
  unfolding ◌>>=◌
  Guarded-bind (g_done {a}) = next a
  Guarded-bind (g_look f) = g_look (λ s. Guarded-bind (f s))
  Guarded-bind (g_inside p) = g_inside (Guarded-bind p)
  Guarded-bind (g_change same p) = g_change same (Guarded-bind p)
  Guarded-bind (g_call c p) = g_call c (Guarded-bind p)
  Guarded-bind (g_stck f) = g_stck (λ t. Guarded-bind (f t))
  Guarded-bind (g_stst f) = g_stst (λ t. Guarded-bind (f t))
  Guarded-bind g_leave = g_leave
  Guarded-bind g_undefined = g_undefined

pub Guarded-then :
    {A B : Type 0} {e m h : Bool} {p : Prog A} {q : Prog B}
    → Guarded m h p
    → Guarded e m q
    → Guarded e h (p >>= λ _. q)
Guarded-then p q = Guarded-bind (λ _. q) p

pub Guarded-if :
    {A : Type 0} {e h : Bool} {p q : Prog A} (b : Bool)
    → Guarded e h p
    → Guarded e h q
    → Guarded e h (if b then p else q)
Guarded-if true p q = p
Guarded-if false p q = q

pub Guarded-case :
    {A : Type 0} {e h : Bool} {p q : Prog A} (b : Bool)
    → Guarded e h p
    → Guarded e h q
    → Guarded e h (elim b as (λ _. Prog A) [ false ↦ p | true ↦ q ])
Guarded-case false p q = p
Guarded-case true p q = q
