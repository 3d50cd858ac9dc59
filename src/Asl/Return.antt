-- ===== src/Asl/Return.antt =====
-- removeBlocked of queues/asl.c for a semaphore that one process waits for.
use hoca_operating_system.Prelude.{
  ℕ, true, false, ◌≡◌, refl, sym, subst, ap, ◌∙◌, ◌⊎◌, inl, inr, Option, none, some, List, [], ◌∷◌,
  ◌++◌, arith, same, if◌then◌else◌, Bool-cases, true_false, ◌==◌, length-append,
}
use hoca_operating_system.Machine.{Addr, enull_link}
use hoca_operating_system.Run.{Returns, Returns-mono}
use hoca_operating_system.Procq.Free.{has}
use hoca_operating_system.Procq.Cells.{Node, IsQueue}
use hoca_operating_system.Asl.{Semd, Sems, remove_block_helper, drop_if_empty}
use hoca_operating_system.Asl.Find.{is_sem, lookup, WaitFor, head_blocked-head}
use hoca_operating_system.Asl.Names.{lookup_append, or_else, Split, split, lookup-Split}
use hoca_operating_system.Asl.Shape.{Named, NoDup-out, lookup_on}
use hoca_operating_system.Asl.Release.{GivenBack, remove_block_helper-GivenBack}
use hoca_operating_system.Asl.Waiting.{Waiting, Waiting-IsAsl, BusyBut, Busy, Refines}

-- Behind a descriptor nothing has its semaphore.
Named-later :
    (f : ℕ → Semd) (a : Addr) (xs : List ℕ) (w : ℕ) (ys : List ℕ)
    → Named f (xs ++ w ∷ ys)
    → is_sem f a w ≡ true
    → lookup f a ys ≡ none
Named-later f a [] w ys h i = h.1 a i
Named-later f a (x ∷ xs) w ys h i = Named-later f a xs w ys h.2 i

one_name :
    (o : Option ℕ) (a b : ℕ) → same o (some a) ≡ true → (b == a) ≡ false → same o (some b) ≡ false
one_name none a b h other = refl
one_name (some c) a b h other = ground (arith, h, other)

module _ {s : Sems} {fs : List ℕ} {m : Addr → List Node} (a : Addr) (xs : List ℕ) (w : ℕ)
    (ys : List ℕ) (h : Waiting s (xs ++ w ∷ ys) fs m) (first : lookup s.semd a xs ≡ none)
    (its : is_sem s.semd a w ≡ true) (gone : m a ≡ []) where
  lookup_rest :
      (b : Addr) → (b == a) ≡ false → lookup s.semd b (xs ++ ys) ≡ lookup s.semd b (xs ++ w ∷ ys)
  lookup_rest b other =
      lookup_append s.semd b xs ys
      ∙ sym (
          lookup_append s.semd b xs (w ∷ ys)
          ∙ ap (λ x. or_else (lookup s.semd b xs) (if x then some w else lookup s.semd b ys))
              (one_name (s.semd w).sem_add a b its other))

  lookup_gone : lookup s.semd a (xs ++ ys) ≡ none
  lookup_gone =
      lookup_append s.semd a xs ys ∙ rw (first, Named-later s.semd a xs w ys h.shape.named its) refl

  module _ {t : Sems} (back : GivenBack s w (xs ++ ys) fs t) where
    lookup_back : (b : Addr) → lookup t.semd b (xs ++ ys) ≡ lookup s.semd b (xs ++ ys)
    lookup_back b =
        lookup_on s.semd t.semd b (xs ++ ys)
          (λ v i. back.names v (not_it v i (Bool-cases (v == w))))
      where
        not_it :
            (v : ℕ)
            → has v (xs ++ ys) ≡ true
            → ((v == w) ≡ true) ⊎ ((v == w) ≡ false)
            → (v == w) ≡ false
        not_it v i (inr other) = other
        not_it v i (inl hit) =
            let e : v ≡ w = ground arith in
            true_false (subst (λ x. has x (xs ++ ys) ≡ true) e i) (NoDup-out xs w ys h.shape.once)

    back_waits : (b : Addr) → WaitFor t (xs ++ ys) b (m b)
    back_waits b = elim (Bool-cases (b == a)) [
      | inl here ↦
          let e : a ≡ b = ground arith in
          subst (λ x. WaitFor t (xs ++ ys) x (m x)) e (inl (lookup_back a ∙ lookup_gone, gone))
      | inr other ↦ go other (h.queues b)
    ]
      where
        go : (b == a) ≡ false → WaitFor s (xs ++ w ∷ ys) b (m b) → WaitFor t (xs ++ ys) b (m b)
        go other (inl (l, e)) = inl (lookup_back b ∙ lookup_rest b other ∙ l, e)
        go other (inr (v, (l, q))) = inr (
          v,
          (
            lookup_back b ∙ lookup_rest b other ∙ l,
            subst (λ x. IsQueue x (t.semd v).s_link (m b)) (sym back.procs)
                (subst (λ x. IsQueue s.procs x (m b)) (sym (back.links v)) q),
          ),
        )

    back_busy : BusyBut a s (xs ++ w ∷ ys) m → Busy t (xs ++ ys) m
    back_busy busy b v found = elim (Bool-cases (b == a)) [
      | inr other ↦ busy b v other (sym (lookup_rest b other) ∙ sym (lookup_back b) ∙ found)
      | inl here ↦
          let e : b ≡ a = ground arith in
          let no : none ≡ some v =
            sym (lookup_back a ∙ lookup_gone)
            ∙ subst (λ x. lookup t.semd x (xs ++ ys) ≡ some v) e found in
          absurd (ground (arith, no))
    ]

    pub back-Refines : BusyBut a s (xs ++ w ∷ ys) m → Refines t m
    back-Refines busy = record {
      ws = xs ++ ys;
      fs = fs ++ w ∷ [];
      waiting = record {
        shape = back.shape;
        room = omega (
          arith,
          h.room,
          length-append xs (w ∷ ys),
          length-append xs ys,
          length-append fs (w ∷ []),
        );
        queues = back_waits;
        apart = h.apart;
      };
      busy = back_busy busy;
    }

-- A descriptor without a process, and with its link ENULL, is given back.
pub drop_if_empty-Refines :
    {s : Sems} {ws fs : List ℕ} {m : Addr → List Node} (a : Addr) (w : ℕ)
    → Waiting s ws fs m
    → BusyBut a s ws m
    → lookup s.semd a ws ≡ some w
    → m a ≡ []
    → (s.semd w).s_link ≡ enull_link
    → Returns (λ _ t. Refines t m × (t.words ≡ s.words) × (t.procs ≡ s.procs)) (drop_if_empty a w s)
unfolding drop_if_empty
drop_if_empty-Refines {s} {ws} {fs} {m} a w h busy found gone empty =
    rw
      (head_blocked-head s ws a [] (Waiting-IsAsl h)
        (subst (λ x. WaitFor s ws a x) gone (h.queues a)))
      (go h busy (lookup-Split s.semd a ws w found))
  where
    go :
        {us : List ℕ}
        → Waiting s us fs m
        → BusyBut a s us m
        → Split s.semd a w us
        → Returns
            (λ _ t. Refines t m × (t.words ≡ s.words) × (t.procs ≡ s.procs))
            (remove_block_helper w s)
    go h busy (split xs ys first its) =
        Returns-mono
          (remove_block_helper-GivenBack s xs w ys fs h.shape empty (omega (arith, h.room)))
          (λ _ t back. (back-Refines a xs w ys h first its gone back busy, back.words, back.procs))
