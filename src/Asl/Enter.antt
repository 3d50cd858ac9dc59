-- ===== src/Asl/Enter.antt =====
-- insertBlocked of queues/asl.c for a semaphore that has a descriptor.
use hoca_operating_system.Prelude.{
  ℕ, zero, suc, ◌+◌, true, false, ◌≡◌, refl, sym, subst, ap, ap₂, ◌∙◌, inl, inr, Option, none, some,
  List, [], ◌∷◌, ◌++◌, arith, same, Bool-cases, true_false, if◌then◌else◌, is_none, ◌==◌,
}
use hoca_operating_system.Machine.{Ptr, Addr, Link, Proc}
use hoca_operating_system.Procq.{Procs, modify_proc}
use hoca_operating_system.Procq.Cells.{Node, IsQueue, cell, frame, has_node}
use hoca_operating_system.Procq.Spares.{has_node-snoc, has_node-append}
use hoca_operating_system.Asl.{Semd, set_sem}
use hoca_operating_system.Asl.Find.{Active, is_sem, lookup}

-- A queue survives what spares its cells.
pub IsQueue-frame :
    (s t : Procs) (tp : Link) (ns : List Node)
    → ((n : Node) → has_node n ns ≡ true → cell t n ≡ cell s n)
    → IsQueue s tp ns
    → IsQueue t tp ns
IsQueue-frame s t tp ns keep (inl e) = inl e
IsQueue-frame s t tp ns keep (inr (front, z, e, l, r)) =
    let kept : (n : Node) → has_node n (front ++ z ∷ []) ≡ true → cell t n ≡ cell s n =
      subst (λ v. (n : Node) → has_node n v ≡ true → cell t n ≡ cell s n) e keep in
    inr (
      front,
      z,
      e,
      l,
      record {
        seg =
            frame s t z z front z r.seg (kept z (has_node-snoc front z))
              (λ n i. kept n (ground (arith, has_node-append n front (z ∷ []), i)));
        distinct = r.distinct;
      },
    )

pub set_sem_link : (n i : ℕ) (a : Addr) (e : Proc) → (set_sem n i a e).p_link ≡ e.p_link
unfolding set_sem
set_sem_link zero i a e = refl
set_sem_link (suc n) i a e = elim (Bool-cases (is_none (e.semvec i))) [
  | inl free ↦ rw free refl
  | inr used ↦ rw used (set_sem_link n (i + 1) a e)
]

pub modify_cell :
    (p : ℕ) (f : Proc → Proc) (s : Procs) (q j : ℕ)
    → ((e : Proc) → (f e).p_link ≡ e.p_link)
    → ((modify_proc p f s).proc q).p_link j ≡ (s.proc q).p_link j
unfolding modify_proc
modify_cell p f s q j keeps = elim (Bool-cases (q == p)) [
  | inl hit ↦
      let e : q ≡ p = ground arith in
      rw hit (ap (λ (l : ℕ → Link). l j) (keeps (s.proc p)) ∙ ap (λ x. (s.proc x).p_link j) (sym e))
  | inr miss ↦ rw miss refl
]

-- The active list and what is found in it depend on s_next and sem_add alone.
pub Active-same :
    (f g : ℕ → Semd) (o : Ptr) (ws : List ℕ)
    → ((v : ℕ) → (g v).s_next ≡ (f v).s_next)
    → Active f o ws
    → Active g o ws
Active-same f g o [] e h = h
Active-same f g o (w ∷ ws) e h =
    (h.0, Active-same f g (g w).s_next ws e (subst (λ x. Active f x ws) (sym (e w)) h.1))

pub lookup_same :
    (f g : ℕ → Semd) (a : Addr) (ws : List ℕ)
    → ((v : ℕ) → (g v).sem_add ≡ (f v).sem_add)
    → lookup g a ws ≡ lookup f a ws
lookup_same f g a [] e = refl
lookup_same f g a (w ∷ ws) e =
    ap₂ (λ x y. if same x (some a) then some w else y) (e w) (lookup_same f g a ws e)

pub lookup_is :
    (f : ℕ → Semd) (a : Addr) (ws : List ℕ) (w : ℕ) → lookup f a ws ≡ some w → is_sem f a w ≡ true
lookup_is f a [] w h = absurd (ground (arith, h))
lookup_is f a (v ∷ ws) w h = elim (Bool-cases (is_sem f a v)) [
  | inl here ↦
      let e : some v ≡ some w = rw here at h in
      let e' : v ≡ w = cc in subst (λ x. is_sem f a x ≡ true) e' here
  | inr there ↦ lookup_is f a ws w (rw there at h)
]

same_both :
    (o : Option ℕ) (a b : ℕ) → same o (some a) ≡ true → same o (some b) ≡ true → (b == a) ≡ true
same_both none a b h i = true_false h refl
same_both (some c) a b h i = ground arith

-- Two semaphores have two descriptors.
pub lookup_apart :
    (f : ℕ → Semd) (a b : Addr) (ws : List ℕ) (w v : ℕ)
    → lookup f a ws ≡ some w
    → lookup f b ws ≡ some v
    → (b == a) ≡ false
    → (v == w) ≡ false
lookup_apart f a b ws w v la lb other = elim (Bool-cases (v == w)) [
  | inr apart ↦ apart
  | inl hit ↦
      let e : v ≡ w = ground arith in
      true_false
        (same_both (f w).sem_add a b (lookup_is f a ws w la)
          (subst (λ x. is_sem f b x ≡ true) e (lookup_is f b ws v lb)))
        other
]
