-- ===== src/Asl/Relink.antt =====
-- queues/asl.c: a new link in a descriptor, and what it leaves alone.
use hoca_operating_system.Prelude.{
  ℕ, true, false, Bool-cases, true_false, ◌≡◌, refl, sym, subst, ◌∙◌, inl, inr, some, List, arith,
  ◌==◌, ==_self, update,
}
use hoca_operating_system.Machine.{Addr, Link, Proc}
use hoca_operating_system.Procq.{Procs, modify_proc}
use hoca_operating_system.Procq.Cells.{Node, IsQueue, cell, has_node, Spares}
use hoca_operating_system.Asl.{Semd, Sems}
use hoca_operating_system.Asl.Find.{is_sem, lookup, IsAsl, WaitFor}
use hoca_operating_system.Asl.Enter.{
  IsQueue-frame, modify_cell, Active-same, lookup_same, lookup_apart, lookup_is,
}

-- A descriptor is as before, its queue apart.
abbrev pub SameDescriptor : (ℕ → Semd) → (ℕ → Semd) → ℕ → Type 0
SameDescriptor f g v =
    ((g v).s_next ≡ (f v).s_next) × ((g v).s_prev ≡ (f v).s_prev) × ((g v).sem_add ≡ (f v).sem_add)

-- The queue of `a` is `ys`; the queues of other semaphores that share no slot with `xs` are as before,
-- and so are the active list, the free descriptors and the semaphores' values.
pub record Requeued (s : Sems) (ws : List ℕ) (a : Addr) (xs ys : List Node) (t : Sems)
    : Type 0 where
  pub asl : IsAsl t ws
  pub waits : WaitFor t ws a ys
  pub others :
      (b : Addr) (ms : List Node)
      → (b == a) ≡ false
      → ((m : Node) → has_node m ms ≡ true → has_node m xs ≡ false)
      → WaitFor s ws b ms
      → WaitFor t ws b ms
  pub same : (v : ℕ) → SameDescriptor s.semd t.semd v
  pub links : (v : ℕ) → is_sem s.semd a v ≡ false → (t.semd v).s_link ≡ (s.semd v).s_link
  pub cells : (n : Node) → has_node n xs ≡ false → cell t.procs n ≡ cell s.procs n
  pub cur : t.cur_sem ≡ s.cur_sem
  pub words : t.words ≡ s.words
  pub free : t.free_head_s ≡ s.free_head_s

-- The state after a new link is stored in descriptor `w` and `f` has changed the entry `p`.
unfoldable pub relinked : Sems → ℕ → ℕ → (Proc → Proc) → Link → Procs → Sems
relinked s w p f tp u = record s {
  semd = update s.semd w (record (s.semd w) { s_link = tp });
  procs = modify_proc p f u;
}

module _ (s : Sems) (ws : List ℕ) (a : Addr) (w p : ℕ) (f : Proc → Proc)
    (keeps : (e : Proc) → (f e).p_link ≡ e.p_link) (asl : IsAsl s ws)
    (found : lookup s.semd a ws ≡ some w) where
  module _ (tp : Link) (u : Procs) (xs ys : List Node) (queue : IsQueue u tp ys)
      (spares : Spares xs s.procs u) where
    next_same : (v : ℕ) → ((relinked s w p f tp u).semd v).s_next ≡ (s.semd v).s_next
    unfolding relinked
    next_same v = ground arith

    prev_same : (v : ℕ) → ((relinked s w p f tp u).semd v).s_prev ≡ (s.semd v).s_prev
    unfolding relinked
    prev_same v = ground arith

    -- A descriptor of another semaphore is not `w`.
    unnamed : (v : ℕ) → is_sem s.semd a v ≡ false → (v == w) ≡ false
    unnamed v other = elim (Bool-cases (v == w)) [
      | inr apart ↦ apart
      | inl hit ↦
          let e : v ≡ w = ground arith in
          true_false (lookup_is s.semd a ws w found)
            (subst (λ x. is_sem s.semd a x ≡ false) e other)
    ]

    add_same : (v : ℕ) → ((relinked s w p f tp u).semd v).sem_add ≡ (s.semd v).sem_add
    unfolding relinked
    add_same v = ground arith

    cell_same : (n : Node) → cell (relinked s w p f tp u).procs n ≡ cell u n
    unfolding relinked
    cell_same (q, j) = modify_cell p f u q j keeps

    link_same :
        (v : ℕ) → (v == w) ≡ false → ((relinked s w p f tp u).semd v).s_link ≡ (s.semd v).s_link
    unfolding relinked
    link_same v apart = rw apart refl

    other_waits :
        (b : Addr) (ms : List Node)
        → (b == a) ≡ false
        → ((m : Node) → has_node m ms ≡ true → has_node m xs ≡ false)
        → WaitFor s ws b ms
        → WaitFor (relinked s w p f tp u) ws b ms
    other_waits b ms other apart (inl (l, e)) =
        inl (lookup_same s.semd (relinked s w p f tp u).semd b ws add_same ∙ l, e)
    other_waits b ms other apart (inr (v, (l, q))) = inr (
      v,
      (
        lookup_same s.semd (relinked s w p f tp u).semd b ws add_same ∙ l,
        subst (λ x. IsQueue (relinked s w p f tp u).procs x ms)
            (sym (link_same v (lookup_apart s.semd a b ws w v found l other)))
            (IsQueue-frame s.procs (relinked s w p f tp u).procs (s.semd v).s_link ms
              (λ m is. cell_same m ∙ spares.cells m (apart m is)) q),
      ),
    )

    pub relinked-Requeued : Requeued s ws a xs ys (relinked s w p f tp u)
    unfolding relinked
    relinked-Requeued = record {
      asl = record {
        active = Active-same s.semd (relinked s w p f tp u).semd s.cur_sem ws next_same asl.active;
        short = asl.short;
      };
      waits = inr (
        w,
        (
          lookup_same s.semd (relinked s w p f tp u).semd a ws add_same ∙ found,
          rw (==_self w)
              (IsQueue-frame u (relinked s w p f tp u).procs tp ys (λ m is. cell_same m) queue),
        ),
      );
      others = other_waits;
      same = λ v. (next_same v, prev_same v, add_same v);
      links = λ v other. link_same v (unnamed v other);
      cells = λ n out. cell_same n ∙ spares.cells n out;
      cur = refl;
      words = refl;
      free = refl;
    }
