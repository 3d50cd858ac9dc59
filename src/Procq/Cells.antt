-- ===== src/Procq/Cells.antt =====
-- The p_link slots of the process table as cells, and the rings that queues are.
use hoca_operating_system.Prelude.{
  ℕ, ◌==◌, ℤ, ◌≡◌, refl, ◌∙◌, ◌⊎◌, Bool, true, false, ◌&&◌, ◌||◌, some, List, [], ◌∷◌, ◌++◌, arith,
  if◌then◌else◌, inc, dec, pos,
}
use hoca_operating_system.Machine.{Link, Proc, enull_link}
use hoca_operating_system.Procq.{Procs, link, write_link, inc_qcount, dec_qcount}

-- A table entry and one of its slots.
abbrev pub Node : Type 0
Node = ℕ × ℕ

abbrev pub to : Node → Link
to (p, i) = link (some i) (some p)

abbrev pub cell : Procs → Node → Link
cell s (p, i) = (s.proc p).p_link i

-- The table after a write to one cell.
abbrev pub put : Procs → Node → Link → Procs
put s (p, i) l = write_link p i l s

abbrev pub same_node : Node → Node → Bool
same_node (p, i) (q, j) = (p == q) && (i == j)

pub link-write :
    (s : Procs) (p i q j : ℕ) (l : Link)
    → ((write_link p i l s).proc q).p_link j
      ≡ (if (q == p) && (j == i) then l else (s.proc q).p_link j)
unfolding write_link
link-write s p i q j l = ground arith

abbrev pub has_proc : ℕ → List Node → Bool
has_proc p [] = false
has_proc p ((q, _) ∷ ns) = (p == q) || has_proc p ns

abbrev pub has_node : Node → List Node → Bool
has_node n [] = false
has_node n (m ∷ ns) = same_node n m || has_node n ns

-- No entry stands twice in a queue.
abbrev pub Distinct : List Node → Type 0
Distinct [] = Unit {0}
Distinct ((p, _) ∷ ns) = (has_proc p ns ≡ false) × Distinct ns

-- From the cell `a` the links lead through `ns` to `z`.
abbrev pub Seg : Procs → Node → List Node → Node → Type 0
Seg s a [] z = cell s a ≡ to z
Seg s a (n ∷ ns) z = (cell s a ≡ to n) × Seg s n ns z

-- A segment survives what spares its cells; its start may move.
pub frame :
    (s t : Procs) (a b : Node) (ns : List Node) (z : Node)
    → Seg s a ns z
    → cell t b ≡ cell s a
    → ((n : Node) → has_node n ns ≡ true → cell t n ≡ cell s n)
    → Seg t b ns z
frame s t a b [] z h e keep = e ∙ h
frame s t a b (n ∷ ns) z h e keep =
    (e ∙ h.0, frame s t n n ns z h.1 (keep n (ground arith)) (λ m i. keep m (ground (arith, i))))

pub Seg-snoc :
    (s : Procs) (a : Node) (ns : List Node) (z b : Node)
    → Seg s a ns z
    → cell s z ≡ to b
    → Seg s a (ns ++ z ∷ []) b
Seg-snoc s a [] z b h e = (h, e)
Seg-snoc s a (n ∷ ns) z b h e = (h.0, Seg-snoc s n ns z b h.1 e)

pub apart :
    (n m : Node) (ns : List Node)
    → has_node n ns ≡ true
    → has_node m ns ≡ false
    → same_node n m ≡ false
apart n m [] i o = cc
apart (p, i) (q, j) ((r, k) ∷ ns) h o = ground (arith, apart (p, i) (q, j) ns)

pub has_node_of_proc :
    (p i : ℕ) (ns : List Node) → has_proc p ns ≡ false → has_node (p, i) ns ≡ false
has_node_of_proc p i [] h = refl
has_node_of_proc p i ((q, j) ∷ ns) h = ground (arith, has_node_of_proc p i ns)

pub has_proc-append :
    (p : ℕ) (ms ns : List Node) → has_proc p (ms ++ ns) ≡ (has_proc p ms || has_proc p ns)
has_proc-append p [] ns = refl
has_proc-append p ((q, j) ∷ ms) ns = ground (arith, has_proc-append p ms ns)

pub Distinct-snoc :
    (ns : List Node) (p i : ℕ) → Distinct ns → has_proc p ns ≡ false → Distinct (ns ++ (p, i) ∷ [])
Distinct-snoc [] p i d h = (refl, tt)
Distinct-snoc ((q, j) ∷ ns) p i d h =
    (ground (arith, has_proc-append q ns ((p, i) ∷ [])), Distinct-snoc ns p i d.1 (ground arith))

pub Distinct-init :
    (ns : List Node) (p i : ℕ)
    → Distinct (ns ++ (p, i) ∷ [])
    → Distinct ns × (has_proc p ns ≡ false)
Distinct-init [] p i d = (tt, refl)
Distinct-init ((q, j) ∷ ns) p i d =
    let rest = Distinct-init ns p i d.1 in
    let split = has_proc-append q ns ((p, i) ∷ []) in ((ground arith, rest.0), ground arith)

-- The ring of a queue: its entries before the tail, and the tail.
pub record Ring (s : Procs) (front : List Node) (tail : Node) : Type 0 where
  pub seg : Seg s tail front tail
  pub distinct : Distinct (front ++ tail ∷ [])

-- `tp` holds the queue of the entries `ns`, in order from the head.
abbrev pub IsQueue : Procs → Link → List Node → Type 0
IsQueue s tp ns =
    ((ns ≡ []) × (tp ≡ enull_link))
    ⊎ ((front : List Node) × (tail : Node) × (ns ≡ front ++ tail ∷ [])
        × (tp ≡ to tail)
        × Ring s front tail)

-- What the queue operations leave alone in an entry.
abbrev pub strip : Proc → Proc
strip e = record e { p_link = λ _. enull_link; qcount = pos 0 }

-- Only the cells `ns` were written, and no field but p_link and qcount.
pub record Spares (ns : List Node) (s t : Procs) : Type 0 where
  pub cells : (n : Node) → has_node n ns ≡ false → cell t n ≡ cell s n
  pub fields : (q : ℕ) → strip (t.proc q) ≡ strip (s.proc q)
  pub free : t.free_head ≡ s.free_head

-- The qcount of `p` went through `f`, and no other did.
abbrev pub Counts : (ℤ → ℤ) → ℕ → Procs → Procs → Type 0
Counts f p s t =
    (q : ℕ) → (t.proc q).qcount ≡ (if q == p then f (s.proc q).qcount else (s.proc q).qcount)

pub strip-write :
    (s : Procs) (p i q : ℕ) (l : Link) → strip ((write_link p i l s).proc q) ≡ strip (s.proc q)
unfolding write_link
strip-write s p i q l = ground arith

pub qcount-write :
    (s : Procs) (p i q : ℕ) (l : Link) → ((write_link p i l s).proc q).qcount ≡ (s.proc q).qcount
unfolding write_link
qcount-write s p i q l = ground arith

pub free_head-write :
    (s : Procs) (p i : ℕ) (l : Link) → (write_link p i l s).free_head ≡ s.free_head
unfolding write_link
free_head-write s p i l = refl

module _ (s : Procs) (p q : ℕ) where
  pub link-inc : (j : ℕ) → ((inc_qcount p s).proc q).p_link j ≡ (s.proc q).p_link j
  unfolding inc_qcount
  link-inc j = ground arith

  pub strip-inc : strip ((inc_qcount p s).proc q) ≡ strip (s.proc q)
  unfolding inc_qcount
  strip-inc = ground arith

  pub link-dec : (j : ℕ) → ((dec_qcount p s).proc q).p_link j ≡ (s.proc q).p_link j
  unfolding dec_qcount
  link-dec j = ground arith

  pub strip-dec : strip ((dec_qcount p s).proc q) ≡ strip (s.proc q)
  unfolding dec_qcount
  strip-dec = ground arith

pub Counts-inc :
    (p : ℕ) (s t : Procs)
    → ((q : ℕ) → (t.proc q).qcount ≡ (s.proc q).qcount)
    → Counts inc p s (inc_qcount p t)
unfolding inc_qcount
Counts-inc p s t h q = ground (arith, h q, h p)

pub Counts-dec :
    (p : ℕ) (s t : Procs)
    → ((q : ℕ) → (t.proc q).qcount ≡ (s.proc q).qcount)
    → Counts dec p s (dec_qcount p t)
unfolding dec_qcount
Counts-dec p s t h q = ground (arith, h q, h p)
