-- ===== src/Procq/Insert.antt =====
-- insertProc appends to the queue.
use hoca_operating_system.Prelude.{
  ℕ, zero, suc, ◌+◌, ◌<◌, ◌==◌, ◌≡◌, refl, subst, sym, ◌≤◌, is_none, dec_lt, ◌∙◌, inl, inr, true,
  false, some, List, [], ◌∷◌, ◌++◌, arith, if◌then◌else◌, inc,
}
use hoca_operating_system.Machine.{Link, Proc, enull_link, semmax}
use hoca_operating_system.Run.{ok, exit, panicked, Returns, returns}
use hoca_operating_system.Procq.{Procs, insert_proc, find_slot, inc_qcount}
use hoca_operating_system.Procq.Cells.{
  Node, to, cell, put, same_node, has_node, has_proc, frame, Seg-snoc, apart, has_node_of_proc,
  has_proc-append, Distinct-snoc, Distinct-init, Ring, IsQueue, Spares, Counts, link-write,
  link-inc, qcount-write, Counts-inc,
}
use hoca_operating_system.Procq.Spares.{
  Spares-refl, Spares-put, Spares-inc, has_node-append, same_node_self, has_node-snoc,
}

-- The table after an insertion into an empty queue, and behind the tail `z`.
abbrev first : Procs → Node → Procs
first s n = inc_qcount n.0 (put s n (to n))

abbrev behind : Procs → Node → Node → Procs
behind s z n = inc_qcount n.0 (put (put s n (cell s z)) z (to n))

module _ (s : Procs) (p i : ℕ) (slot : find_slot semmax 0 (s.proc p) ≡ i) (fits : i < semmax) where
  insert-first : insert_proc enull_link (some p) s ≡ ok (to (p, i)) (first s (p, i))
  unfolding insert_proc
  insert-first = rw slot (let e : (i == semmax) ≡ false = ground arith in rw e)

  insert-behind : (z : Node) → insert_proc (to z) (some p) s ≡ ok (to (p, i)) (behind s z (p, i))
  unfolding insert_proc
  insert-behind z = rw slot (let e : (i == semmax) ≡ false = ground arith in rw e)

  -- The cells after `behind`.
  behind-cell :
      (z m : Node)
      → cell (behind s z (p, i)) m
        ≡ (if same_node m z then to (p, i) else if same_node m (p, i) then cell s z else cell s m)
  behind-cell (q, j) (r, k) = rw (link-inc, link-write, link-write) refl

  first-cell :
      (m : Node) → cell (first s (p, i)) m ≡ (if same_node m (p, i) then to (p, i) else cell s m)
  first-cell (r, k) = rw (link-inc, link-write) refl

  first-Queue :
      IsQueue (first s (p, i)) (to (p, i)) ((p, i) ∷ [])
      × Spares ((p, i) ∷ []) s (first s (p, i))
      × Counts inc p s (first s (p, i))
  first-Queue = (
    inr (
      [],
      (p, i),
      refl,
      refl,
      record { seg = rw (first-cell, same_node_self (p, i)); distinct = (refl, tt) },
    ),
    Spares-inc (Spares-put (Spares-refl _ s) (p, i) _ (ground (arith, same_node_self (p, i)))) p,
    Counts-inc p s _ (λ q. qcount-write s p i q _),
  )

  module _ (front : List Node) (z : Node) (r : Ring s front z)
      (new : has_proc p (front ++ z ∷ []) ≡ false) where
    split_new : (has_proc p front ≡ false) × ((p == z.0) ≡ false)
    split_new = ground (arith, has_proc-append p front (z ∷ []))

    kept : (n : Node) → has_node n front ≡ true → cell (behind s z (p, i)) n ≡ cell s n
    kept n h =
        behind-cell z n
        ∙ ground (
          arith,
          apart n (p, i) front h (has_node_of_proc p i front split_new.0),
          apart n z front h
              (has_node_of_proc z.0 z.1 front (Distinct-init front z.0 z.1 r.distinct).1),
        )

    behind-Ring : Ring (behind s z (p, i)) (front ++ z ∷ []) (p, i)
    behind-Ring = record {
      seg =
          Seg-snoc (behind s z (p, i)) (p, i) front z (p, i)
            (frame s (behind s z (p, i)) z (p, i) front z r.seg
              (behind-cell z (p, i) ∙ ground (arith, split_new)) kept)
            (behind-cell z z ∙ ground (arith, same_node_self z));
      distinct = Distinct-snoc (front ++ z ∷ []) p i r.distinct new;
    }

    behind-Spares : Spares ((front ++ z ∷ []) ++ (p, i) ∷ []) s (behind s z (p, i))
    behind-Spares =
        Spares-inc
          (Spares-put (Spares-put (Spares-refl _ s) (p, i) _ (has_node-snoc _ (p, i))) z _ (
            ground
              (arith, has_node-append z (front ++ z ∷ []) ((p, i) ∷ []), has_node-snoc front z)))
          p

    behind-Counts : Counts inc p s (behind s z (p, i))
    behind-Counts = Counts-inc p s _ (λ q. qcount-write _ z.0 z.1 q _ ∙ qcount-write s p i q _)

-- What insertProc leaves: the queue with the entry at its end.
abbrev pub Appended : Procs → List Node → Node → Link → Procs → Type 0
Appended s ns n tp t = IsQueue t tp (ns ++ n ∷ []) × Spares (ns ++ n ∷ []) s t × Counts inc n.0 s t

-- Slot `i` is the first one of the entry that is in no queue.
pub record FirstFree (e : Proc) (i : ℕ) : Type 0 where
  pub fits : i < semmax
  pub free : is_none (e.p_link i).index ≡ true
  pub used : (j : ℕ) → j < i → is_none (e.p_link j).index ≡ false

find_slot-first :
    (n i k : ℕ) (e : Proc)
    → i ≤ k
    → k < i + n
    → is_none (e.p_link k).index ≡ true
    → ((j : ℕ) → j < k → is_none (e.p_link j).index ≡ false)
    → find_slot n i e ≡ k
unfolding find_slot
find_slot-first zero i k e h l free used = absurd (omega arith)
find_slot-first (suc n) i k e h l free used = elim (dec_lt i k) [
  | yes lt ↦ rw (used i lt) (find_slot-first n (i + 1) k e (omega arith) (omega arith) free used)
  | no ge ↦
      let same : k ≡ i = omega arith in
      rw (subst (λ v. is_none (e.p_link v).index ≡ true) same free) (sym same)
]

find_slot-none :
    (n i : ℕ) (e : Proc)
    → ((j : ℕ) → j < i + n → is_none (e.p_link j).index ≡ false)
    → find_slot n i e ≡ i + n
unfolding find_slot
find_slot-none zero i e used = omega arith
find_slot-none (suc n) i e used =
    rw (used i (omega arith))
      (find_slot-none n (i + 1) e (λ j h. used j (omega arith)) ∙ omega arith)

-- A process in ten queues cannot enter another: the nucleus stops, with the table as it was.
pub insert_proc-panicked :
    (s : Procs) (tp : Link) (p : ℕ)
    → ((j : ℕ) → j < semmax → is_none ((s.proc p).p_link j).index ≡ false)
    → insert_proc tp (some p) s ≡ exit panicked s
unfolding insert_proc
insert_proc-panicked s tp p used = rw (find_slot-none semmax 0 (s.proc p) used) refl

-- insertProc puts a process that is not in the queue at its end, through the first slot that is
-- free: the other entries keep their order, no other slot of the table is written, and its
-- qcount alone goes up by one.
pub insert_proc-append :
    (s : Procs) (tp : Link) (ns : List Node) (p i : ℕ)
    → IsQueue s tp ns
    → has_proc p ns ≡ false
    → FirstFree (s.proc p) i
    → Returns (Appended s ns (p, i)) (insert_proc tp (some p) s)
insert_proc-append s tp ns p i (inl (e, l)) new f =
    let slot = find_slot-first semmax 0 i (s.proc p) (omega arith) f.fits f.free f.used in
    rw (e, l, insert-first s p i slot f.fits) (returns (first-Queue s p i slot f.fits))
insert_proc-append s tp ns p i (inr (front, z, e, l, r)) new f =
    let slot = find_slot-first semmax 0 i (s.proc p) (omega arith) f.fits f.free f.used in
    let out : has_proc p (front ++ z ∷ []) ≡ false = rw e at new in
    rw (e, l, insert-behind s p i slot f.fits z)
      (returns (
        inr (front ++ z ∷ [], (p, i), refl, refl, behind-Ring s p i slot f.fits front z r out),
        behind-Spares s p i slot f.fits front z r out,
        behind-Counts s p i slot f.fits front z r out,
      ))
