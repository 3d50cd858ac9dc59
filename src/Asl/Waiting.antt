-- ===== src/Asl/Waiting.antt =====
-- What queues/asl.c keeps, seen from outside: a queue of processes for every semaphore.
use hoca_operating_system.Prelude.{
  ℕ, ◌+◌, Bool, true, false, ◌≡◌, refl, sym, subst, ap₂, ◌∙◌, ◌⊎◌, inl, inr, none, some, is_none,
  List, [], ◌∷◌, ◌++◌, arith, Bool-cases, true_false, ◌==◌, length, update,
}
use hoca_operating_system.Machine.{Addr, Link, maxproc}
use hoca_operating_system.Procq.{Procs}
use hoca_operating_system.Procq.Cells.{Node, IsQueue, Seg, cell, same_node, has_node}
use hoca_operating_system.Procq.Spares.{has_node-append}
use hoca_operating_system.Asl.{Sems}
use hoca_operating_system.Asl.Find.{is_sem, lookup, IsAsl, WaitFor}
use hoca_operating_system.Asl.Relink.{Requeued}
use hoca_operating_system.Asl.Lists.{Dlist, Dlist-frame, Dlist-Active}
use hoca_operating_system.Asl.Shape.{Shape, Named-same}
use hoca_operating_system.Asl.Enter.{lookup_same}

abbrev pub is_empty : List Node → Bool
is_empty [] = true
is_empty (n ∷ ns) = false

-- With the active descriptors `ws` and the free ones `fs`, which are all there are, the processes
-- that wait for `a` are `m a`. No slot is in the queues of two semaphores.
pub record Waiting (s : Sems) (ws fs : List ℕ) (m : Addr → List Node) : Type 0 where
  pub shape : Shape s ws fs
  pub room : length ws + length fs ≡ maxproc
  pub queues : (a : Addr) → WaitFor s ws a (m a)
  pub apart :
      (a b : Addr)
      → (b == a) ≡ false
      → (n : Node) → has_node n (m b) ≡ true
      → has_node n (m a) ≡ false

-- Every active descriptor has a process in its queue, that of `a` perhaps not.
abbrev pub BusyBut : Addr → Sems → List ℕ → (Addr → List Node) → Type 0
BusyBut a s ws m =
    (b : Addr) (w : ℕ) → (b == a) ≡ false → lookup s.semd b ws ≡ some w → is_empty (m b) ≡ false

abbrev pub Busy : Sems → List ℕ → (Addr → List Node) → Type 0
Busy s ws m = (b : Addr) (w : ℕ) → lookup s.semd b ws ≡ some w → is_empty (m b) ≡ false

-- The state implements the queues `m`.
pub record Refines (s : Sems) (m : Addr → List Node) : Type 0 where
  pub ws : List ℕ
  pub fs : List ℕ
  pub waiting : Waiting s ws fs m
  pub busy : Busy s ws m

pub Waiting-IsAsl :
    {s : Sems} {ws fs : List ℕ} {m : Addr → List Node} → Waiting s ws fs m → IsAsl s ws
Waiting-IsAsl {s} {ws} h = record {
  active = Dlist-Active s.semd none s.cur_sem ws h.shape.active;
  short = omega (arith, h.room);
}

same_node_eq : (n m : Node) → same_node n m ≡ true → n ≡ m
same_node_eq (p, i) (q, j) h = ap₂ (λ x y. (x, y)) (ground (arith, h)) (ground (arith, h))

-- A slot that is in a queue is in use.
Seg-used :
    (s : Procs) (a z : Node) (ns : List Node)
    → Seg s a ns z
    → (is_none (cell s a).index ≡ false)
      × ((n : Node) → has_node n ns ≡ true → is_none (cell s n).index ≡ false)
Seg-used s a z [] h = (rw h refl, λ n i. true_false i refl)
Seg-used s a z (m ∷ ns) h =
    let rest = Seg-used s m z ns h.1 in
    (
      rw h.0 refl,
      λ n i. elim (Bool-cases (same_node n m)) [
        | inl here ↦
            subst (λ x. is_none (cell s x).index ≡ false) (sym (same_node_eq n m here)) rest.0
        | inr there ↦ rest.1 n (ground (arith, i, there))
      ],
    )

pub IsQueue-used :
    (s : Procs) (tp : Link) (ns : List Node)
    → IsQueue s tp ns
    → (n : Node) → has_node n ns ≡ true
    → is_none (cell s n).index ≡ false
IsQueue-used s tp ns (inl (e, l)) n i = true_false (rw e at i) refl
IsQueue-used s tp ns (inr (front, z, e, l, r)) n i =
    let used = Seg-used s z z front r.seg in
    let in_it : has_node n (front ++ z ∷ []) ≡ true = subst (λ x. has_node n x ≡ true) e i in
    elim (Bool-cases (same_node n z)) [
      | inl here ↦
          subst (λ x. is_none (cell s x).index ≡ false) (sym (same_node_eq n z here)) used.0
      | inr there ↦ used.1 n (ground (arith, in_it, there, has_node-append n front (z ∷ [])))
    ]

-- A queue of one semaphore was changed.
module _ {s t : Sems} {ws fs : List ℕ} {m : Addr → List Node} {a : Addr} {xs ys : List Node}
    (h : Waiting s ws fs m) (r : Requeued s ws a xs ys t) where
  Requeued-Shape : Shape t ws fs
  Requeued-Shape = record {
    active =
        subst (λ o. Dlist t.semd none o ws) (sym r.cur)
          (Dlist-frame s.semd t.semd none s.cur_sem ws h.shape.active
            (λ v i. ((r.same v).0, (r.same v).1)));
    free =
        subst (λ o. Dlist t.semd none o fs) (sym r.free)
          (Dlist-frame s.semd t.semd none s.free_head_s fs h.shape.free
            (λ v i. ((r.same v).0, (r.same v).1)));
    once = h.shape.once;
    once_free = h.shape.once_free;
    apart = h.shape.apart;
    named = Named-same s.semd t.semd ws (λ v i. (r.same v).2) h.shape.named;
    unused = λ v i.
        let old = h.shape.unused v i in
        let other : is_sem s.semd a v ≡ false = rw old.no_sem refl in
        record { no_sem = (r.same v).2 ∙ old.no_sem; no_queue = r.links v other ∙ old.no_queue };
  }

  pub Requeued-Waiting :
      ((b : Addr) → (b == a) ≡ false → (n : Node) → has_node n (m b) ≡ true → has_node n xs ≡ false)
      → ((n : Node) → has_node n ys ≡ true → has_node n xs ≡ true)
      → Waiting t ws fs (update m a ys)
  Requeued-Waiting fresh inside = record {
    shape = Requeued-Shape;
    room = h.room;
    queues = λ b. waits_now b (Bool-cases (b == a));
    apart = λ b c other n i. apart_now b c other n i (Bool-cases (b == a)) (Bool-cases (c == a));
  }
    where
      waits_now :
          (b : Addr) → ((b == a) ≡ true) ⊎ ((b == a) ≡ false) → WaitFor t ws b (update m a ys b)
      waits_now b (inl here) =
          let e : a ≡ b = ground arith in rw here (subst (λ x. WaitFor t ws x ys) e r.waits)
      waits_now b (inr there) = rw there (r.others b (m b) there (fresh b there) (h.queues b))

      apart_now :
          (b c : Addr)
          → (c == b) ≡ false
          → (n : Node) → has_node n (update m a ys c) ≡ true
          → ((b == a) ≡ true) ⊎ ((b == a) ≡ false)
          → ((c == a) ≡ true) ⊎ ((c == a) ≡ false)
          → has_node n (update m a ys b) ≡ false
      apart_now b c other n i (inl x) (inl y) = absurd (ground (arith, other))
      apart_now b c other n i (inl x) (inr y) = rw x (elim (Bool-cases (has_node n ys)) [
        | inr out ↦ out
        | inl hit ↦ true_false (inside n hit) (fresh c y n (rw y at i))
      ])
      apart_now b c other n i (inr x) (inl y) = rw x (elim (Bool-cases (has_node n (m b))) [
        | inr out ↦ out
        | inl hit ↦ true_false (inside n (rw y at i)) (fresh b x n hit)
      ])
      apart_now b c other n i (inr x) (inr y) = rw x (h.apart b c other n (rw y at i))

  -- Only `a` can lose its last process.
  pub Requeued-BusyBut : BusyBut a s ws m → BusyBut a t ws (update m a ys)
  Requeued-BusyBut busy b w other found =
      rw other (busy b w other (sym (lookup_same s.semd t.semd b ws (λ v. (r.same v).2)) ∙ found))

  pub Requeued-Busy : BusyBut a s ws m → is_empty ys ≡ false → Busy t ws (update m a ys)
  Requeued-Busy busy some_left b w found = elim (Bool-cases (b == a)) [
    | inl here ↦ rw here some_left
    | inr there ↦ Requeued-BusyBut busy b w there found
  ]
