-- ===== src/Procq/Remove.antt =====
-- removeProc takes the head of the queue, and headQueue shows it.
use hoca_operating_system.Prelude.{
  ℕ, ◌==◌, ◌≡◌, ◌≢◌, refl, ap, ◌∙◌, inl, inr, true, false, none, some, List, [], ◌∷◌, ◌++◌, arith,
  if◌then◌else◌, dec, ==_self,
}
use hoca_operating_system.Machine.{Ptr, Link, enull_link}
use hoca_operating_system.Run.{ok, Returns, returns}
use hoca_operating_system.Procq.{Procs, head_queue, remove_proc, dec_qcount, get_link}
use hoca_operating_system.Procq.Cells.{
  Node, to, cell, put, same_node, has_node, has_proc, Seg, frame, apart, has_node_of_proc,
  has_proc-append, Distinct-init, Ring, IsQueue, Spares, Counts, link-write, link-dec, qcount-write,
  Counts-dec,
}
use hoca_operating_system.Procq.Spares.{
  Spares-refl, Spares-put, Spares-dec, same_node_self, has_node-snoc,
}

-- The table after the only entry, and after the head `y` in front of the tail `z`, is removed.
abbrev pub last_out : Procs → Node → Procs
last_out s z = dec_qcount z.0 (put s z enull_link)

-- `a` is linked past `y`.
abbrev pub cut_out : Procs → Node → Node → Procs
cut_out s a y = dec_qcount y.0 (put (put s a (cell s y)) y enull_link)

pub cut_out-cell :
    (s : Procs) (a y m : Node)
    → cell (cut_out s a y) m
      ≡ (if same_node m y then enull_link else if same_node m a then cell s y else cell s m)
cut_out-cell s (q, j) (p, i) (r, k) = rw (link-dec, link-write, link-write) refl

pub cut_out-Spares :
    (s : Procs) (a y : Node) (ns : List Node)
    → has_node a ns ≡ true
    → has_node y ns ≡ true
    → Spares ns s (cut_out s a y)
cut_out-Spares s a y ns h k =
    Spares-dec (Spares-put (Spares-put (Spares-refl ns s) a _ h) y _ k) y.0

pub cut_out-Counts : (s : Procs) (a y : Node) → Counts dec y.0 s (cut_out s a y)
cut_out-Counts s a y =
    Counts-dec y.0 s _ (λ q. qcount-write _ y.0 y.1 q _ ∙ qcount-write s a.0 a.1 q _)

-- The segment behind `y` starts at `a` once `y` is cut out.
pub cut_out-Seg :
    (s : Procs) (a y : Node) (ys : List Node) (z : Node)
    → Seg s y ys z
    → (a.0 == y.0) ≡ false
    → has_proc a.0 ys ≡ false
    → has_proc y.0 ys ≡ false
    → Seg (cut_out s a y) a ys z
cut_out-Seg s a y ys z h ne out new =
    frame s (cut_out s a y) y a ys z h (cut_out-cell s a y a ∙ ground (arith, same_node_self a))
      (λ n i.
        cut_out-cell s a y n
        ∙ ground (
          arith,
          apart n a ys i (has_node_of_proc a.0 a.1 ys out),
          apart n y ys i (has_node_of_proc y.0 y.1 ys new),
        ))

-- What removeProc leaves of a queue: the head's process, the rest, and the head's slot free.
abbrev pub Removed : Procs → List Node → Ptr × Link → Procs → Type 0
Removed s [] (r, tp) t = (r ≡ none) × (t ≡ s) × (tp ≡ enull_link)
Removed s (n ∷ ns) (r, tp) t =
    (r ≡ some n.0)
    × IsQueue t tp ns
    × (cell t n ≡ enull_link)
    × Spares (n ∷ ns) s t
    × Counts dec n.0 s t

abbrev pub head_of : List Node → Ptr
head_of [] = none
head_of (n ∷ ns) = some n.0

-- headQueue returns the process at the head of the queue, ENULL for an empty one, and changes nothing.
pub head_queue-head :
    (s : Procs) (tp : Link) (ns : List Node) → IsQueue s tp ns → head_queue tp s ≡ ok (head_of ns) s
unfolding head_queue get_link
head_queue-head s tp ns (inl (e, l)) = rw (e, l) refl
head_queue-head s tp ns (inr ([], z, e, l, r)) = rw (e, l) (ap (λ (k : Link). ok k.next s) r.seg)
head_queue-head s tp ns (inr (y ∷ ys, z, e, l, r)) =
    rw (e, l) (ap (λ (k : Link). ok k.next s) r.seg.0)

pub remove_only :
    (s : Procs) (z : Node)
    → Ring s [] z
    → remove_proc (to z) s ≡ ok (some z.0, enull_link) (last_out s z)
unfolding remove_proc
remove_only s z r = rw (r.seg, ==_self z.0) refl

pub tail_ne :
    (s : Procs) (y : Node) (ys : List Node) (z : Node) → Ring s (y ∷ ys) z → (z.0 == y.0) ≡ false
tail_ne s y ys z r = ground (arith, r.distinct.0, has_proc-append y.0 ys (z ∷ []))

remove_head :
    (s : Procs) (y : Node) (ys : List Node) (z : Node)
    → Ring s (y ∷ ys) z
    → remove_proc (to z) s ≡ ok (some y.0, to z) (cut_out s z y)
unfolding remove_proc
remove_head s y ys z r = rw (r.seg.0, tail_ne s y ys z r) (rw r.seg.0 refl)

pub last_out-Removed :
    (s : Procs) (z : Node) → Removed s (z ∷ []) (some z.0, enull_link) (last_out s z)
last_out-Removed s (p, i) = (
  refl,
  inl (refl, refl),
  rw (link-dec, link-write, ==_self p, ==_self i) refl,
  Spares-dec (Spares-put (Spares-refl _ s) (p, i) _ (ground (arith, same_node_self (p, i)))) p,
  Counts-dec p s _ (λ q. qcount-write s p i q _),
)

cut_out-Removed :
    (s : Procs) (y : Node) (ys : List Node) (z : Node)
    → Ring s (y ∷ ys) z
    → Removed s (y ∷ ys ++ z ∷ []) (some y.0, to z) (cut_out s z y)
cut_out-Removed s y ys z r =
    let split = has_proc-append y.0 ys (z ∷ []) in
    let fresh : has_proc y.0 ys ≡ false = ground (arith, r.distinct.0) in
    let ne = tail_ne s y ys z r in
    let inner = Distinct-init ys z.0 z.1 r.distinct.1 in
    let ring : Ring (cut_out s z y) ys z = record {
      seg = cut_out-Seg s z y ys z r.seg.1 ne inner.1 fresh;
      distinct = r.distinct.1;
    } in
    (
      refl,
      inr (ys, z, refl, refl, ring),
      cut_out-cell s z y y ∙ ground (arith, same_node_self y),
      cut_out-Spares s z y (y ∷ ys ++ z ∷ []) (ground (arith, has_node-snoc (y ∷ ys) z))
          (ground (arith, same_node_self y)),
      cut_out-Counts s z y,
    )

-- removeProc takes the first process off the queue and returns it: the others keep their order, its
-- slot becomes ENULL, its qcount alone goes down by one, and no slot of any other queue is written;
-- on an empty queue it returns ENULL and changes nothing.
pub remove_proc-head :
    (s : Procs) (tp : Link) (ns : List Node)
    → IsQueue s tp ns
    → Returns (Removed s ns) (remove_proc tp s)
unfolding remove_proc
remove_proc-head s tp ns (inl (e, l)) = rw (e, l) (returns (refl, refl, refl))
remove_proc-head s tp ns (inr ([], z, e, l, r)) =
    rw (e, l, remove_only s z r) (returns (last_out-Removed s z))
remove_proc-head s tp ns (inr (y ∷ ys, z, e, l, r)) =
    rw (e, l, remove_head s y ys z r) (returns (cut_out-Removed s y ys z r))

-- A process that is both the head and the tail of a queue, through two of its slots, is taken for
-- the only entry: removeProc returns it and makes the queue empty, whatever stood between, while
-- the head's slot stays in use.
pub remove_proc-twice :
    (s : Procs) (p i j : ℕ) (ys : List Node)
    → i ≢ j
    → Seg s (p, i) ((p, j) ∷ ys) (p, i)
    → Returns
        (λ (r, tp) t. (r ≡ some p) × (tp ≡ enull_link) × (cell t (p, j) ≡ cell s (p, j)))
        (remove_proc (to (p, i)) s)
unfolding remove_proc
remove_proc-twice s p i j ys ne h =
    rw (h.0, ==_self p)
      (returns (
        refl,
        refl,
        link-dec (put s (p, i) enull_link) p p j ∙ link-write s p i p j enull_link ∙ ground arith,
      ))
