-- ===== src/Asl/Take.antt =====
-- insertBlocked of queues/asl.c: the descriptor that it takes for a semaphore without one.
use hoca_operating_system.Prelude.{
  ℕ, true, false, ◌≡◌, refl, sym, subst, ◌∙◌, ◌⊎◌, inl, inr, none, some, List, [], ◌∷◌, ◌++◌, arith,
  same, if◌then◌else◌, Bool-cases, true_false, ◌==◌, ==_self,
}
use hoca_operating_system.Machine.{Ptr, Addr}
use hoca_operating_system.Run.{Returns, returns}
use hoca_operating_system.Procq.Free.{has}
use hoca_operating_system.Asl.{Semd, Sems, modify_semd, first_sem, next_sem}
use hoca_operating_system.Asl.Find.{lookup}
use hoca_operating_system.Asl.Lists.{
  Dlist, Dlist-frame, Dlist-append, last_of, last_of-has, head_or, has-append, NoDup, Outside-some,
}
use hoca_operating_system.Asl.Names.{Named-snoc}
use hoca_operating_system.Asl.Removal.{same_out, last_in, first_in}
use hoca_operating_system.Asl.Shape.{Shape, NoDup-snoc, Named-same, lookup_on}

-- `t` is the state after the first free descriptor `w` was linked behind the active ones for `a`.
pub record Took (s : Sems) (w : ℕ) (ws : List ℕ) (a : Addr) (t : Sems) : Type 0 where
  pub next :
      (v : ℕ)
      → (v == w) ≡ false
      → (t.semd v).s_next ≡ (if same (last_of none ws) (some v) then some w else (s.semd v).s_next)
  pub prev :
      (v : ℕ)
      → (v == w) ≡ false
      → (t.semd v).s_prev ≡ (if same (s.semd w).s_next (some v) then none else (s.semd v).s_prev)
  pub back : (t.semd w).s_prev ≡ last_of none ws
  pub end : (t.semd w).s_next ≡ none
  pub names : (v : ℕ) → (v == w) ≡ false → (t.semd v).sem_add ≡ (s.semd v).sem_add
  pub name : (t.semd w).sem_add ≡ some a
  pub links : (v : ℕ) → (t.semd v).s_link ≡ (s.semd v).s_link
  pub cur : t.cur_sem ≡ head_or ws (some w) s.cur_sem
  pub head : t.free_head_s ≡ (s.semd w).s_next
  pub procs : t.procs ≡ s.procs
  pub words : t.words ≡ s.words

-- A list whose first descriptor gets a new one before it.
Dlist-front :
    (f g : ℕ → Semd) (b c o : Ptr) (ws : List ℕ)
    → Dlist f b o ws
    → NoDup ws
    → ((v : ℕ) → has v ws ≡ true → (g v).s_next ≡ (f v).s_next)
    → ((v : ℕ) → has v ws ≡ true → (g v).s_prev ≡ (if same o (some v) then c else (f v).s_prev))
    → Dlist g c o ws
Dlist-front f g b c o [] h once next prev = h
Dlist-front f g b c o (w ∷ ws) h once next prev = (
  h.0,
  prev w (ground arith) ∙ rw h.0 (ground arith),
  rw (next w (ground arith)) (
      Dlist-frame f g (some w) (f w).s_next ws h.2 (λ v i. (
        next v (ground (arith, i)),
        prev v (ground (arith, i)) ∙ rw (h.0, Outside-some w ws once.0 v i) refl,
      ))),
)

module _ (s t : Sems) (w : ℕ) (ws fs : List ℕ) (a : Addr) (shape : Shape s ws (w ∷ fs))
    (new : lookup s.semd a ws ≡ none) (took : Took s w ws a t) where
  active_other : (v : ℕ) → has v ws ≡ true → (v == w) ≡ false
  active_other v i = ground (arith, shape.apart v i)

  free_other : (v : ℕ) → has v fs ≡ true → (v == w) ≡ false
  free_other v i = elim (Bool-cases (v == w)) [
    | inr other ↦ other
    | inl hit ↦
        let e : v ≡ w = ground arith in
        true_false (subst (λ x. has x fs ≡ true) e i) shape.once_free.0
  ]

  active_not_free : (v : ℕ) → has v ws ≡ true → has v fs ≡ false
  active_not_free v i = ground (arith, shape.apart v i)

  free_not_active : (v : ℕ) → has v fs ≡ true → has v ws ≡ false
  free_not_active v i = elim (Bool-cases (has v ws)) [
    | inr out ↦ out
    | inl active ↦ true_false i (active_not_free v active)
  ]

  w_not_active : has w ws ≡ false
  w_not_active = elim (Bool-cases (has w ws)) [
    | inr out ↦ out
    | inl active ↦ true_false (==_self w) (active_other w active)
  ]

  kept_apart :
      (v : ℕ)
      → has v (ws ++ w ∷ []) ≡ true
      → ((v == w) ≡ true) ⊎ ((v == w) ≡ false)
      → has v fs ≡ false
  kept_apart v i (inl hit) =
      let e : w ≡ v = ground arith in subst (λ x. has x fs ≡ false) e shape.once_free.0
  kept_apart v i (inr other) =
      active_not_free v (ground (arith, i, other, has-append v ws (w ∷ [])))

  took_active : Dlist t.semd none t.cur_sem (ws ++ w ∷ [])
  took_active =
      subst (λ o. Dlist t.semd none o (ws ++ w ∷ [])) (sym took.cur)
        (Dlist-append s.semd t.semd w none s.cur_sem ws shape.active shape.once
          (λ v i. took.next v (active_other v i))
          (λ v i.
            took.prev v (active_other v i)
            ∙ rw
                (same_out (s.semd w).s_next v fs
                  (λ p e. first_in s.semd (some w) (s.semd w).s_next fs p shape.free.2 e)
                  (active_not_free v i))
                refl)
          took.back took.end)

  took_free : Dlist t.semd none t.free_head_s fs
  took_free =
      subst (λ o. Dlist t.semd none o fs) (sym took.head)
        (Dlist-front s.semd t.semd (some w) none (s.semd w).s_next fs shape.free.2 shape.once_free.1
          (λ v i.
            took.next v (free_other v i)
            ∙ rw (same_out (last_of none ws) v ws (λ p e. last_in ws p e) (free_not_active v i))
                refl)
          (λ v i. took.prev v (free_other v i)))

  pub took-Shape : Shape t (ws ++ w ∷ []) fs
  took-Shape = record {
    active = took_active;
    free = took_free;
    once = NoDup-snoc ws w shape.once w_not_active;
    once_free = shape.once_free.1;
    apart = λ v i. kept_apart v i (Bool-cases (v == w));
    named =
        Named-snoc t.semd ws w a
          (Named-same s.semd t.semd ws (λ v i. took.names v (active_other v i)) shape.named)
          (lookup_on s.semd t.semd a ws (λ v i. took.names v (active_other v i)) ∙ new) took.name;
    unused = λ v i.
        let old = shape.unused v (ground (arith, i)) in
        record {
          no_sem = took.names v (free_other v i) ∙ old.no_sem;
          no_queue = took.links v ∙ old.no_queue;
        };
  }

-- The states that the two branches leave; `v` is the next free descriptor, `p` the last active one.
abbrev after_first : Sems → ℕ → ℕ → Addr → Sems
after_first s w v a =
    modify_semd w (λ d. record d { sem_add = some a })
      (modify_semd v (λ d. record d { s_prev = none })
        (modify_semd w (λ d. record d { s_next = none })
          (record s { cur_sem = some w; free_head_s = some v })))

abbrev after_next : Sems → ℕ → Ptr → ℕ → Addr → Sems
after_next s w rest p a =
    modify_semd w (λ d. record d { s_prev = some p })
      (modify_semd p (λ d. record d { s_next = some w })
        (modify_semd w (λ d. record d { s_next = none; sem_add = some a })
          (record s { free_head_s = rest })))

module _ (s : Sems) (w : ℕ) (a : Addr) where
  first-Took : (v : ℕ) (fs : List ℕ) → Shape s [] (w ∷ v ∷ fs) → Took s w [] a (after_first s w v a)
  unfolding modify_semd
  first-Took v fs shape =
      let apart : (v == w) ≡ false = ground (arith, shape.once_free.0) in
      record {
        next = λ u other. ground (arith, other);
        prev = λ u other. rw shape.free.2.0 (ground (arith, other));
        back = ground (arith, apart, shape.free.1);
        end = ground (arith, apart);
        names = λ u other. ground (arith, other);
        name = ground arith;
        links = λ u. ground arith;
        cur = refl;
        head = sym shape.free.2.0;
        procs = refl;
        words = refl;
      }

  module _ (p c : ℕ) (cs : List ℕ) (e : last_of (some c) cs ≡ some p)
      (apart : (p == w) ≡ false) where
    next-Took-last : (s.semd w).s_next ≡ none → Took s w (c ∷ cs) a (after_next s w none p a)
    unfolding modify_semd
    next-Took-last no_more = record {
      next = λ u other. rw e (ground (arith, other));
      prev = λ u other. rw no_more (ground (arith, other));
      back = ground (arith, e);
      end = ground (arith, apart);
      names = λ u other. ground (arith, other);
      name = ground (arith, apart);
      links = λ u. ground arith;
      cur = refl;
      head = sym no_more;
      procs = refl;
      words = refl;
    }

    next-Took-more :
        (f : ℕ)
        → (s.semd w).s_next ≡ some f
        → (f == w) ≡ false
        → Took s w
            (c ∷ cs)
            a
            (modify_semd f (λ d. record d { s_prev = none }) (after_next s w (some f) p a))
    unfolding modify_semd
    next-Took-more f more apart_f = record {
      next = λ u other. rw e (ground (arith, other));
      prev = λ u other. rw more (ground (arith, other));
      back = ground (arith, e, apart_f);
      end = ground (arith, apart, apart_f);
      names = λ u other. ground (arith, other);
      name = ground (arith, apart, apart_f);
      links = λ u. ground arith;
      cur = refl;
      head = sym more;
      procs = refl;
      words = refl;
    }

pub first_sem-Took :
    (s : Sems) (w v : ℕ) (fs : List ℕ) (a : Addr)
    → Shape s [] (w ∷ v ∷ fs)
    → Returns (λ r t. (r ≡ w) × Took s w [] a t) (first_sem a s)
unfolding first_sem
first_sem-Took s w v fs a shape =
    simp (shape.free.0, shape.free.2.0) (returns (refl, first-Took s w a v fs shape))

pub next_sem-Took :
    (s : Sems) (w c : ℕ) (cs fs : List ℕ) (a : Addr)
    → Shape s (c ∷ cs) (w ∷ fs)
    → Returns (λ _ t. Took s w (c ∷ cs) a t) (next_sem a (last_of (some c) cs) w s)
unfolding next_sem
next_sem-Took s w c cs fs a shape =
    let (p, (e, i)) = last_of-has c cs in
    let apart : (p == w) ≡ false = ground (arith, shape.apart p i) in
    subst (λ o. Returns (λ _ t. Took s w (c ∷ cs) a t) (next_sem a o w s)) (sym e)
      (go p e apart fs shape.free.2 shape.once_free.0)
  where
    go :
        (p : ℕ)
        → last_of (some c) cs ≡ some p
        → (p == w) ≡ false
        → (us : List ℕ) → Dlist s.semd (some w) (s.semd w).s_next us
        → has w us ≡ false
        → Returns (λ _ t. Took s w (c ∷ cs) a t) (next_sem a (some p) w s)
    go p e apart [] d out = simp d (returns (next-Took-last s w a p c cs e apart d))
    go p e apart (f ∷ us) d out =
        simp d.0 (returns (next-Took-more s w a p c cs e apart f d.0 (ground (arith, out))))
