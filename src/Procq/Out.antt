-- ===== src/Procq/Out.antt =====
-- outProc takes a given process out of a queue, wherever it stands.
use hoca_operating_system.Prelude.{
  ℕ, ◌<◌, ◌==◌, ◌≡◌, refl, ap, subst, sym, ◌∙◌, ◌⊎◌, inl, inr, true, false, none, some, List, [],
  ◌∷◌, ◌++◌, arith, dec, Bool-cases, ==_self, length, length-append,
}
use hoca_operating_system.Machine.{Ptr, Link, maxproc}
use hoca_operating_system.Run.{Returns, returns}
use hoca_operating_system.Procq.{
  Procs, out_proc, out_loop, out_fuel, get_link, set_link, head_queue,
}
use hoca_operating_system.Procq.Cells.{
  Node, to, cell, has_proc, Distinct, Seg, has_proc-append, Distinct-init, Ring, IsQueue, Spares,
  Counts,
}
use hoca_operating_system.Procq.Spares.{has_node-append, has_node-snoc, Spares-mono}
use hoca_operating_system.Procq.Remove.{
  last_out, tail_ne, cut_out, cut_out-Spares, cut_out-Counts, cut_out-Seg, last_out-Removed,
}
use hoca_operating_system.Procq.Search.{
  drop_proc, cut, last_node, loop_found, loop_none, loop_tail, drop_proc-Distinct, drop_proc-append,
  cut-Spares, cut-Counts, cut-Seg, Below, length-le-Below, snoc_view, Seg-unsnoc, drop_last,
  has_node-last,
}

-- What outProc leaves: the queue without the process, if that stands in it, and nothing changed
-- if it does not.
abbrev pub Taken : Procs → List Node → Link → ℕ → Ptr × Link → Procs → Type 0
Taken s ns tp p (r, tp') t =
    ((has_proc p ns ≡ true)
      × (r ≡ some p)
      × IsQueue t tp' (drop_proc p ns)
      × Spares ns s t
      × Counts dec p s t)
    ⊎ ((has_proc p ns ≡ false) × (r ≡ none) × (tp' ≡ tp) × (t ≡ s))

module _ (s : Procs) (p : ℕ) where
  out_only :
      (z : Node) → Ring s [] z → Returns (Taken s (z ∷ []) (to z) p) (out_proc (to z) (some p) s)
  unfolding out_proc get_link set_link head_queue drop_proc
  out_only z r =
      rw (r.seg, ==_self z.0)
        (elim (Bool-cases (z.0 == p)) [
          | inl hit ↦ rw hit (
              let e : z.0 ≡ p = ground arith in
              let rest = last_out-Removed s z in
              returns (
                inl (
                  ground arith,
                  ap some e,
                  inl (ground arith, refl),
                  rest.3,
                  subst (λ v. Counts dec v s (last_out s z)) e rest.4,
                )))
          | inr miss ↦ rw miss (returns (inr (ground arith, refl, refl, refl)))
        ])

  module _ (y : Node) (ys : List Node) (z : Node) (r : Ring s (y ∷ ys) z) where
    -- The rounds of the search that outProc makes.
    enter : out_proc (to z) (some p) s ≡ out_loop out_fuel (to z) (some p) (to z) (cell s z) s
    unfolding out_proc get_link head_queue
    enter = rw (r.seg.0, tail_ne s y ys z r) (rw r.seg.0 refl)

    parts : Distinct (y ∷ ys) × (has_proc z.0 (y ∷ ys) ≡ false)
    parts = Distinct-init (y ∷ ys) z.0 z.1 r.distinct

    found_Taken :
        has_proc p (y ∷ ys) ≡ true
        → Taken s ((y ∷ ys) ++ z ∷ []) (to z) p (some p, to z) (cut s z (y ∷ ys) p)
    found_Taken f =
        let e = drop_proc-append p (y ∷ ys) (z ∷ []) in
        let e' : drop_proc p ((y ∷ ys) ++ z ∷ []) ≡ drop_proc p (y ∷ ys) ++ z ∷ [] = rw f at e in
        inl (
          ground (arith, has_proc-append p (y ∷ ys) (z ∷ [])),
          refl,
          inr (
            drop_proc p (y ∷ ys),
            z,
            e',
            refl,
            record {
              seg = cut-Seg s z (y ∷ ys) z p r.seg parts.1 parts.0 f;
              distinct = subst Distinct e' (drop_proc-Distinct p _ r.distinct);
            },
          ),
          Spares-mono (z ∷ y ∷ ys) ((y ∷ ys) ++ z ∷ []) s _ (cut-Spares s z (y ∷ ys) p)
              (λ n o. ground (arith, has_node-append n (y ∷ ys) (z ∷ []))),
          cut-Counts s z (y ∷ ys) p f,
        )

    tail_Taken :
        p ≡ z.0
        → Taken s
            ((y ∷ ys) ++ z ∷ [])
            (to z)
            p
            (some p, to (last_node y ys))
            (cut_out s (last_node y ys) z)
    tail_Taken e =
        let (init, view) = snoc_view y ys in
        let b = last_node y ys in
        let two = Seg-unsnoc s z init b z (subst (λ (v : List Node). Seg s z v z) view r.seg) in
        let front = subst Distinct view parts.0 in
        let out = subst (λ (v : List Node). has_proc z.0 v ≡ false) view parts.1 in
        let b_out = Distinct-init init b.0 b.1 front in
        let apart_b = has_proc-append z.0 init (b ∷ []) in
        inl (
          ground (arith, has_proc-append p (y ∷ ys) (z ∷ [])),
          refl,
          inr (
            init,
            b,
            drop_last p (y ∷ ys) z e parts.1 ∙ view,
            refl,
            record {
              seg =
                  cut_out-Seg s b z init b two.0 (ground (arith, apart_b)) b_out.1
                    (ground (arith, apart_b));
              distinct = front;
            },
          ),
          cut_out-Spares s b z _
              (ground (arith, has_node-last y ys, has_node-append b (y ∷ ys) (z ∷ [])))
              (has_node-snoc (y ∷ ys) z),
          subst (λ v. Counts dec v s (cut_out s b z)) (sym e) (cut_out-Counts s b z),
        )

    out_many :
        length (y ∷ ys) < out_fuel
        → Returns (Taken s ((y ∷ ys) ++ z ∷ []) (to z) p) (out_proc (to z) (some p) s)
    out_many fuel = elim (Bool-cases (has_proc p (y ∷ ys))) [
      | inl f ↦
          rw (enter, loop_found s z p out_fuel z (y ∷ ys) r.seg parts.1 f fuel)
            (returns (found_Taken f))
      | inr n ↦ elim (Bool-cases (p == z.0)) [
        | inl hit ↦
            let e : p ≡ z.0 = ground arith in
            rw (enter, loop_tail s z p out_fuel z (y ∷ ys) r.seg parts.1 e fuel)
              (returns (tail_Taken e))
        | inr miss ↦
            let new : has_proc p ((y ∷ ys) ++ z ∷ []) ≡ false =
              ground (arith, has_proc-append p (y ∷ ys) (z ∷ [])) in
            rw (enter, loop_none s z p out_fuel z (y ∷ ys) r.seg parts.1 new fuel)
              (returns (inr (new, refl, refl, refl)))
      ]
    ]

  -- For a queue whose processes are in the table, outProc ends and takes the given process out of
  -- it wherever it stands, keeps the order of the others, takes one from its qcount alone and writes
  -- no slot of any other queue; a process that is not in the queue gives ENULL and changes nothing.
  pub out_proc-drop :
      (tp : Link) (ns : List Node)
      → IsQueue s tp ns
      → Below maxproc ns
      → Returns (Taken s ns tp p) (out_proc tp (some p) s)
  unfolding out_proc
  out_proc-drop tp ns (inl (e, l)) small = rw (e, l) (returns (inr (refl, refl, refl, refl)))
  out_proc-drop tp ns (inr ([], z, e, l, r)) small = rw (e, l) (out_only z r)
  out_proc-drop tp ns (inr (y ∷ ys, z, e, l, r)) small =
      let bound =
        length-le-Below maxproc ((y ∷ ys) ++ z ∷ []) r.distinct (subst (Below maxproc) e small) in
      rw (e, l) (out_many y ys z r (omega (arith, bound, length-append (y ∷ ys) (z ∷ []))))
