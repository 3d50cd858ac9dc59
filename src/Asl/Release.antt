-- ===== src/Asl/Release.antt =====
-- The second half of removeBlockHelper of queues/asl.c: a descriptor goes to the end of the free list.
use hoca_operating_system.Prelude.{
  ℕ, zero, suc, ◌≤◌, true, false, ◌≡◌, refl, sym, subst, ap, ◌∙◌, ◌⊎◌, inl, inr, none, some, List,
  [], ◌∷◌, ◌++◌, arith, same, if◌then◌else◌, Bool-cases, true_false, ◌==◌, length,
}
use hoca_operating_system.Machine.{Ptr, maxproc, enull_link}
use hoca_operating_system.Run.{ok, Returns, returns, Returns-mono}
use hoca_operating_system.Procq.Free.{has}
use hoca_operating_system.Asl.{
  Semd, Sems, modify_semd, free_walk_s, release_sem, remove_block_helper,
}
use hoca_operating_system.Asl.Lists.{
  Dlist, Dlist-frame, Dlist-append, last_of, last_of-has, has-append, NoDup,
}
use hoca_operating_system.Asl.Removal.{
  unlinked, unlinked_active, unlinked_free, unlink_keeps, unlink_rest,
}
use hoca_operating_system.Asl.Shape.{
  Shape, has_self, Named-drop, NoDup-drop, NoDup-out, NoDup-snoc, Named-same, Unused,
}

free_walk_s-last :
    (s : Sems) (k : ℕ) (b : Ptr) (h : ℕ) (fs : List ℕ) (p : ℕ)
    → Dlist s.semd b (some h) (h ∷ fs)
    → length (h ∷ fs) ≤ k
    → last_of b (h ∷ fs) ≡ some p
    → free_walk_s k h s ≡ ok p s
unfolding free_walk_s
free_walk_s-last s zero b h fs p d fuel e = absurd (omega (arith, fuel))
free_walk_s-last s (suc k) b h [] p d fuel e = let q : h ≡ p = cc in rw (d.2, q) refl
free_walk_s-last s (suc k) b h (v ∷ fs) p d fuel e =
    rw d.2.0 (free_walk_s-last s k (some h) v fs p (refl, d.2.1, d.2.2) (omega (arith, fuel)) e)

-- What release_sem leaves when the free list was `fs`.
pub record Released (s : Sems) (w : ℕ) (fs : List ℕ) (t : Sems) : Type 0 where
  pub free : Dlist t.semd none t.free_head_s (fs ++ w ∷ [])
  pub others : (v : ℕ) → (v == w) ≡ false → has v fs ≡ false → t.semd v ≡ s.semd v
  pub names : (v : ℕ) → (v == w) ≡ false → (t.semd v).sem_add ≡ (s.semd v).sem_add
  pub links : (v : ℕ) → (t.semd v).s_link ≡ (s.semd v).s_link
  pub nameless : (t.semd w).sem_add ≡ none
  pub cur : t.cur_sem ≡ s.cur_sem
  pub procs : t.procs ≡ s.procs
  pub words : t.words ≡ s.words

abbrev blank : ℕ → Ptr → Sems → Sems
blank w b s = modify_semd w (λ d. record d { s_prev = b; s_next = none; sem_add = none }) s

abbrev behind : ℕ → ℕ → Sems → Sems
behind w last s = blank w (some last) (modify_semd last (λ d. record d { s_next = some w }) s)

release-first :
    (s : Sems) (w : ℕ) → Released s w [] (record (blank w none s) { free_head_s = some w })
unfolding modify_semd
release-first s w = record {
  free = (refl, ground arith, ground arith);
  others = λ v other out. ground (arith, other);
  names = λ v other. ground (arith, other);
  links = λ v. ground arith;
  nameless = ground arith;
  cur = refl;
  procs = refl;
  words = refl;
}

module _ (s : Sems) (w h : ℕ) (fs : List ℕ) (last : ℕ)
    (free : Dlist s.semd none s.free_head_s (h ∷ fs)) (once : NoDup (h ∷ fs))
    (out : has w (h ∷ fs) ≡ false) (e : last_of (some h) fs ≡ some last)
    (in_it : has last (h ∷ fs) ≡ true) where
  not_new : (v : ℕ) → has v (h ∷ fs) ≡ true → (v == w) ≡ false
  not_new v i = elim (Bool-cases (v == w)) [
    | inr other ↦ other
    | inl hit ↦
        let eq : v ≡ w = ground arith in true_false (subst (λ x. has x (h ∷ fs) ≡ true) eq i) out
  ]

  not_last : (v : ℕ) → has v (h ∷ fs) ≡ false → (v == last) ≡ false
  not_last v away = elim (Bool-cases (v == last)) [
    | inr apart ↦ apart
    | inl hit ↦
        let eq : v ≡ last = ground arith in
        true_false (subst (λ x. has x (h ∷ fs) ≡ true) (sym eq) in_it) away
  ]

  behind_next :
      (v : ℕ)
      → has v (h ∷ fs) ≡ true
      → ((behind w last s).semd v).s_next
        ≡ (if same (last_of none (h ∷ fs)) (some v) then some w else (s.semd v).s_next)
  unfolding modify_semd
  behind_next v i = rw (e, not_new v i) (ground arith)

  behind_prev :
      (v : ℕ) → has v (h ∷ fs) ≡ true → ((behind w last s).semd v).s_prev ≡ (s.semd v).s_prev
  unfolding modify_semd
  behind_prev v i = rw (not_new v i) (ground arith)

  release-behind : Released s w (h ∷ fs) (behind w last s)
  unfolding modify_semd
  release-behind = record {
    free =
        Dlist-append s.semd (behind w last s).semd w none s.free_head_s (h ∷ fs) free once
          behind_next behind_prev (ground (arith, e)) (ground arith);
    others = λ v other away. ground (arith, other, not_last v away);
    names = λ v other. ground (arith, other);
    links = λ v. ground arith;
    nameless = ground arith;
    cur = refl;
    procs = refl;
    words = refl;
  }

pub release_sem-Released :
    (s : Sems) (w : ℕ) (fs : List ℕ) (o : Ptr)
    → o ≡ s.free_head_s
    → Dlist s.semd none s.free_head_s fs
    → NoDup fs
    → has w fs ≡ false
    → length fs ≤ maxproc
    → Returns (λ _ t. Released s w fs t) (release_sem w o s)
unfolding release_sem
release_sem-Released s w [] o q free once out fuel = rw (q ∙ free) (returns (release-first s w))
release_sem-Released s w (h ∷ fs) o q free once out fuel =
    let (p, (e, i)) = last_of-has h fs in
    rw (q ∙ free.0) (
      rw (free_walk_s-last s maxproc none h fs p (refl, free.1, free.2) fuel e)
        (returns (release-behind s w h fs p free once out e i)))

-- What a descriptor with an empty queue leaves when it is given back: every other one keeps its
-- semaphore and its queue.
pub record GivenBack (s : Sems) (w : ℕ) (ws fs : List ℕ) (t : Sems) : Type 0 where
  pub shape : Shape t ws (fs ++ w ∷ [])
  pub names : (v : ℕ) → (v == w) ≡ false → (t.semd v).sem_add ≡ (s.semd v).sem_add
  pub links : (v : ℕ) → (t.semd v).s_link ≡ (s.semd v).s_link
  pub procs : t.procs ≡ s.procs
  pub words : t.words ≡ s.words

module _ (s : Sems) (xs : List ℕ) (w : ℕ) (ys fs : List ℕ) (shape : Shape s (xs ++ w ∷ ys) fs)
    (empty : (s.semd w).s_link ≡ enull_link) where
  -- The active descriptors that are left are not `w`, and none is free.
  module _ (v : ℕ) (i : has v (xs ++ ys) ≡ true) where
    still_in : has v (xs ++ w ∷ ys) ≡ true
    still_in = ground (arith, i, has-append v xs ys, has-append v xs (w ∷ ys))

    not_it : (v == w) ≡ false
    not_it = elim (Bool-cases (v == w)) [
      | inr other ↦ other
      | inl hit ↦
          let e : v ≡ w = ground arith in
          true_false (subst (λ x. has x (xs ++ ys) ≡ true) e i) (NoDup-out xs w ys shape.once)
    ]

  give_back :
      (t : Sems) → Released (unlinked s xs w ys fs shape) w fs t → GivenBack s w (xs ++ ys) fs t
  give_back t h = record {
    shape = record {
      active =
          subst (λ o. Dlist t.semd none o (xs ++ ys)) (sym h.cur)
            (Dlist-frame (unlinked s xs w ys fs shape).semd t.semd none
              (unlinked s xs w ys fs shape).cur_sem (xs ++ ys) (unlinked_active s xs w ys fs shape)
              (λ v i.
                let e = h.others v (not_it v i) (shape.apart v (still_in v i)) in
                (ap (λ (d : Semd). d.s_next) e, ap (λ (d : Semd). d.s_prev) e)));
      free = h.free;
      once = NoDup-drop xs w ys shape.once;
      once_free = NoDup-snoc fs w shape.once_free (shape.apart w (has_self w xs ys));
      apart =
          λ v i. ground (arith, not_it v i, shape.apart v (still_in v i), has-append v fs (w ∷ []));
      named =
          Named-same s.semd t.semd (xs ++ ys) (λ v i. named_as v (not_it v i))
            (Named-drop s.semd xs w ys shape.named);
      unused = λ v i. unused_now v i (Bool-cases (v == w));
    };
    names = named_as;
    links = linked_as;
    procs = h.procs ∙ (unlink_rest w s (s.semd w).s_prev (s.semd w).s_next).0;
    words = h.words ∙ (unlink_rest w s (s.semd w).s_prev (s.semd w).s_next).1;
  }
    where
      keeps :
          (v : ℕ)
          → (((unlinked s xs w ys fs shape).semd v).sem_add ≡ (s.semd v).sem_add)
            × (((unlinked s xs w ys fs shape).semd v).s_link ≡ (s.semd v).s_link)
      keeps v = unlink_keeps w s (s.semd w).s_prev (s.semd w).s_next v

      named_as : (v : ℕ) → (v == w) ≡ false → (t.semd v).sem_add ≡ (s.semd v).sem_add
      named_as v other = h.names v other ∙ (keeps v).0

      linked_as : (v : ℕ) → (t.semd v).s_link ≡ (s.semd v).s_link
      linked_as v = h.links v ∙ (keeps v).1

      unused_now :
          (v : ℕ)
          → has v (fs ++ w ∷ []) ≡ true
          → ((v == w) ≡ true) ⊎ ((v == w) ≡ false)
          → Unused (t.semd v)
      unused_now v i (inl hit) =
          let e : w ≡ v = ground arith in
          subst (λ x. Unused (t.semd x)) e
            (record { no_sem = h.nameless; no_queue = linked_as w ∙ empty })
      unused_now v i (inr other) =
          let old = shape.unused v (ground (arith, i, other, has-append v fs (w ∷ []))) in
          record { no_sem = named_as v other ∙ old.no_sem; no_queue = linked_as v ∙ old.no_queue }

  -- A descriptor whose queue is empty is taken out of the active list and put at the end of the free one.
  pub remove_block_helper-GivenBack :
      length fs ≤ maxproc → Returns (λ _ t. GivenBack s w (xs ++ ys) fs t) (remove_block_helper w s)
  unfolding remove_block_helper
  remove_block_helper-GivenBack fuel =
      Returns-mono
        (release_sem-Released (unlinked s xs w ys fs shape) w fs
          (unlinked s xs w ys fs shape).free_head_s refl
          (subst (λ o. Dlist (unlinked s xs w ys fs shape).semd none o fs)
            (sym (unlink_rest w s (s.semd w).s_prev (s.semd w).s_next).2)
            (unlinked_free s xs w ys fs shape))
          shape.once_free (shape.apart w (has_self w xs ys)) fuel)
        (λ _ t h. give_back t h)
