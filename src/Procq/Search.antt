-- ===== src/Procq/Search.antt =====
-- The search of outProc through a ring, and the queue without a process as lists.
use hoca_operating_system.Prelude.{
  ℕ, zero, suc, ◌<◌, ◌==◌, ◌≡◌, refl, ap, subst, ◌∙◌, inl, inr, true, false, none, some, List, [],
  ◌∷◌, ◌++◌, arith, if◌then◌else◌, dec, Bool-cases, length, ◌≤◌,
}
use hoca_operating_system.Run.{ok}
use hoca_operating_system.Procq.{Procs, out_loop, unlink, get_link, set_link}
use hoca_operating_system.Procq.Cells.{
  Node, to, cell, has_node, has_proc, Distinct, Seg, has_node_of_proc, Spares, Counts,
}
use hoca_operating_system.Procq.Spares.{Spares-refl, same_node_self, Spares-mono}
use hoca_operating_system.Procq.Remove.{cut_out, cut_out-Spares, cut_out-Counts, cut_out-Seg}

-- The queue without the entry `p`.
unfoldable pub drop_proc : ℕ → List Node → List Node
drop_proc p [] = []
drop_proc p (n ∷ ns) = if p == n.0 then ns else n ∷ drop_proc p ns

pub unlink_lem : (s : Procs) (a y : Node) → unlink (to a) (to y) s ≡ ok (some y.0) (cut_out s a y)
unfolding unlink get_link set_link
unlink_lem s a y = refl

-- The table after the search from `a` through `ns` has found `p`.
pub cut : Procs → Node → List Node → ℕ → Procs
cut s a [] p = s
cut s a (y ∷ ys) p = if p == y.0 then cut_out s a y else cut s y ys p

-- The last node of the walk from `a` through `ns`.
abbrev pub last_node : Node → List Node → Node
last_node a [] = a
last_node a (y ∷ ys) = last_node y ys

module _ (s : Procs) (z : Node) (p : ℕ) where
  -- One round of the search, at the entry `y` behind `a`.
  pub loop_step :
      (k : ℕ) (a y : Node)
      → out_loop (suc k) (to z) (some p) (to a) (to y) s ≡ (
          if y.0 == z.0
          then (if y.0 == p then ok (some y.0, to a) (cut_out s a y) else ok (none, to z) s)
          else if y.0 == p
          then ok (some y.0, to z) (cut_out s a y)
          else out_loop k (to z) (some p) (to y) (cell s y) s)
  unfolding out_loop unlink get_link set_link
  loop_step k a y = elim (Bool-cases (y.0 == z.0)) [
    | inl e ↦
        rw (e, out_loop) (elim (Bool-cases (y.0 == p)) [ inl h ↦ rw h refl | inr h ↦ rw h refl ])
    | inr e ↦
        rw (e, out_loop) (elim (Bool-cases (y.0 == p)) [ inl h ↦ rw h refl | inr h ↦ rw h refl ])
  ]

  -- The search ends at `p`, at an entry before the tail.
  pub loop_found :
      (k : ℕ) (a : Node) (ns : List Node)
      → Seg s a ns z
      → has_proc z.0 ns ≡ false
      → has_proc p ns ≡ true
      → length ns < k
      → out_loop k (to z) (some p) (to a) (cell s a) s ≡ ok (some p, to z) (cut s a ns p)
  unfolding cut
  loop_found zero a ns h out found fuel = absurd (omega arith)
  loop_found (suc k) a [] h out found fuel = cc
  loop_found (suc k) a (y ∷ ys) h out found fuel =
      rw h.0 (loop_step k a y ∙ ground (arith, loop_found k y ys h.1))

  -- It reaches the tail without `p`.
  pub loop_none :
      (k : ℕ) (a : Node) (ns : List Node)
      → Seg s a ns z
      → has_proc z.0 ns ≡ false
      → has_proc p (ns ++ z ∷ []) ≡ false
      → length ns < k
      → out_loop k (to z) (some p) (to a) (cell s a) s ≡ ok (none, to z) s
  loop_none zero a ns h out new fuel = absurd (omega arith)
  loop_none (suc k) a [] h out new fuel = rw h (loop_step k a z ∙ ground arith)
  loop_none (suc k) a (y ∷ ys) h out new fuel =
      rw h.0 (loop_step k a y ∙ ground (arith, loop_none k y ys h.1))

  -- It ends at the tail, which is `p`.
  pub loop_tail :
      (k : ℕ) (a : Node) (ns : List Node)
      → Seg s a ns z
      → has_proc z.0 ns ≡ false
      → p ≡ z.0
      → length ns < k
      → out_loop k (to z) (some p) (to a) (cell s a) s
        ≡ ok (some p, to (last_node a ns)) (cut_out s (last_node a ns) z)
  loop_tail zero a ns h out e fuel = absurd (omega arith)
  loop_tail (suc k) a [] h out e fuel = rw h (loop_step k a z ∙ ground arith)
  loop_tail (suc k) a (y ∷ ys) h out e fuel =
      rw h.0 (loop_step k a y ∙ ground (arith, loop_tail k y ys h.1))

pub has_proc-drop :
    (q p : ℕ) (ns : List Node) → has_proc q ns ≡ false → has_proc q (drop_proc p ns) ≡ false
unfolding drop_proc
has_proc-drop q p [] h = refl
has_proc-drop q p (n ∷ ns) h = ground (arith, has_proc-drop q p ns)

pub drop_proc-Distinct : (p : ℕ) (ns : List Node) → Distinct ns → Distinct (drop_proc p ns)
unfolding drop_proc
drop_proc-Distinct p [] d = tt
drop_proc-Distinct p (n ∷ ns) d = elim (Bool-cases (p == n.0)) [
  | inl hit ↦ rw hit d.1
  | inr miss ↦ rw miss (has_proc-drop n.0 p ns d.0, drop_proc-Distinct p ns d.1)
]

pub drop_proc-append :
    (p : ℕ) (ms ns : List Node)
    → drop_proc p (ms ++ ns)
      ≡ (if has_proc p ms then drop_proc p ms ++ ns else ms ++ drop_proc p ns)
unfolding drop_proc
drop_proc-append p [] ns = refl
drop_proc-append p (m ∷ ms) ns = ground (arith, drop_proc-append p ms ns)

pub cut-Spares : (s : Procs) (a : Node) (ns : List Node) (p : ℕ) → Spares (a ∷ ns) s (cut s a ns p)
unfolding cut
cut-Spares s a [] p = Spares-refl _ s
cut-Spares s a (y ∷ ys) p = elim (Bool-cases (p == y.0)) [
  | inl hit ↦ rw hit (
      cut_out-Spares s a y (a ∷ y ∷ ys) (ground (arith, same_node_self a))
        (ground (arith, same_node_self y)))
  | inr miss ↦
      rw miss (Spares-mono (y ∷ ys) (a ∷ y ∷ ys) s _ (cut-Spares s y ys p) (λ n o. ground arith))
]

pub cut-Counts :
    (s : Procs) (a : Node) (ns : List Node) (p : ℕ)
    → has_proc p ns ≡ true
    → Counts dec p s (cut s a ns p)
unfolding cut
cut-Counts s a [] p h = cc
cut-Counts s a (y ∷ ys) p h = elim (Bool-cases (p == y.0)) [
  | inl hit ↦
      rw hit (subst (λ v. Counts dec v s (cut_out s a y)) (ground arith) (cut_out-Counts s a y))
  | inr miss ↦ rw miss (cut-Counts s y ys p (ground arith))
]

pub cut-Seg :
    (s : Procs) (a : Node) (ns : List Node) (z : Node) (p : ℕ)
    → Seg s a ns z
    → has_proc a.0 ns ≡ false
    → Distinct ns
    → has_proc p ns ≡ true
    → Seg (cut s a ns p) a (drop_proc p ns) z
unfolding cut drop_proc
cut-Seg s a [] z p h out d found = cc
cut-Seg s a (y ∷ ys) z p h out d found = elim (Bool-cases (p == y.0)) [
  | inl hit ↦ rw hit (cut_out-Seg s a y ys z h.1 (ground arith) (ground arith) d.0)
  | inr miss ↦ rw miss (
    (cut-Spares s y ys p).cells a (has_node_of_proc a.0 a.1 (y ∷ ys) out) ∙ h.0,
    cut-Seg s y ys z p h.1 d.0 d.1 (ground arith),
  )
]

-- Every entry of the queue is one of the first `n` of the table.
abbrev pub Below : ℕ → List Node → Type 0
Below n [] = Unit {0}
Below n (m ∷ ms) = (m.0 < n) × Below n ms

pub Below-pred : (n : ℕ) (ms : List Node) → has_proc n ms ≡ false → Below (suc n) ms → Below n ms
Below-pred n [] h b = tt
Below-pred n (m ∷ ms) h b = (ground arith, Below-pred n ms (ground arith) b.1)

pub Below-drop :
    (n : ℕ) (ms : List Node) → Distinct ms → Below (suc n) ms → Below n (drop_proc n ms)
unfolding drop_proc
Below-drop n [] d b = tt
Below-drop n (m ∷ ms) d b = elim (Bool-cases (n == m.0)) [
  | inl hit ↦
      let e : m.0 ≡ n = ground arith in
      rw hit (Below-pred n ms (subst (λ v. has_proc v ms ≡ false) e d.0) b.1)
  | inr miss ↦ rw miss (ground arith, Below-drop n ms d.1 b.1)
]

pub length-drop_proc : (p : ℕ) (ms : List Node) → length ms ≤ suc (length (drop_proc p ms))
unfolding drop_proc
length-drop_proc p [] = omega arith
length-drop_proc p (m ∷ ms) = ground (arith, length-drop_proc p ms)

-- A queue has at most one node for each entry of the table.
pub length-le-Below : (n : ℕ) (ms : List Node) → Distinct ms → Below n ms → length ms ≤ n
length-le-Below zero [] d b = omega arith
length-le-Below zero (m ∷ ms) d b = absurd (omega arith)
length-le-Below (suc n) ms d b =
    let rest =
      length-le-Below n (drop_proc n ms) (drop_proc-Distinct n ms d) (Below-drop n ms d b) in
    omega (arith, length-drop_proc n ms)

-- The front of a ring ends in the last node of the walk.
pub snoc_view :
    (y : Node) (ys : List Node) → (init : List Node) × (y ∷ ys ≡ init ++ last_node y ys ∷ [])
snoc_view y [] = ([], refl)
snoc_view y (x ∷ xs) = let (init, e) = snoc_view x xs in (y ∷ init, ap (◌∷◌ y) e)

pub Seg-unsnoc :
    (s : Procs) (a : Node) (ns : List Node) (b z : Node)
    → Seg s a (ns ++ b ∷ []) z
    → Seg s a ns b × (cell s b ≡ to z)
Seg-unsnoc s a [] b z h = h
Seg-unsnoc s a (n ∷ ns) b z h = let r = Seg-unsnoc s n ns b z h.1 in ((h.0, r.0), r.1)

pub drop_last :
    (p : ℕ) (ns : List Node) (z : Node)
    → p ≡ z.0
    → has_proc z.0 ns ≡ false
    → drop_proc p (ns ++ z ∷ []) ≡ ns
unfolding drop_proc
drop_last p [] z e h = ground arith
drop_last p (n ∷ ns) z e h = ground (arith, drop_last p ns z)

pub has_node-last : (y : Node) (ys : List Node) → has_node (last_node y ys) (y ∷ ys) ≡ true
has_node-last y [] = ground (arith, same_node_self y)
has_node-last y (x ∷ xs) = ground (arith, has_node-last x xs)
