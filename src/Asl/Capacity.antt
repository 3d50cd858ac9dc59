-- ===== src/Asl/Capacity.antt =====
-- headASL of queues/asl.c, and the number of the semaphores that have descriptors.
use hoca_operating_system.Prelude.{
  ℕ, suc, ◌≤◌, Bool, true, false, ◌≡◌, ◌↔◌, refl, subst, ap, inl, inr, Option, some, not, is_none,
  List, [], ◌∷◌, arith, length, if◌then◌else◌, Bool-cases, true_false, ◌==◌, Option-cases,
}
use hoca_operating_system.Machine.{Addr, maxproc}
use hoca_operating_system.Run.{ok}
use hoca_operating_system.Procq.Free.{has}
use hoca_operating_system.Procq.Cells.{Node}
use hoca_operating_system.Asl.{Semd, Sems, head_asl}
use hoca_operating_system.Asl.Find.{is_sem, lookup, WaitFor}
use hoca_operating_system.Asl.Enter.{lookup_apart}
use hoca_operating_system.Asl.Lists.{NoDup}
use hoca_operating_system.Asl.Names.{is_sem_this}
use hoca_operating_system.Asl.Waiting.{Waiting, Refines, is_empty}

-- A list without one of its members.
abbrev without : ℕ → List ℕ → List ℕ
without w [] = []
without w (v ∷ vs) = let rest = without w vs in if w == v then vs else v ∷ rest

length-without : (w : ℕ) (ws : List ℕ) → has w ws ≡ true → length ws ≡ suc (length (without w ws))
length-without w [] h = true_false h refl
length-without w (v ∷ vs) h = elim (Bool-cases (w == v)) [
  | inl here ↦ rw here refl
  | inr there ↦ rw there (ap suc (length-without w vs (ground (arith, h, there))))
]

has-without :
    (w v : ℕ) (ws : List ℕ) → (v == w) ≡ false → has v ws ≡ true → has v (without w ws) ≡ true
has-without w v [] other h = h
has-without w v (u ∷ us) other h = elim (Bool-cases (w == u)) [
  | inl here ↦ rw here (ground (arith, h, here, other))
  | inr there ↦ rw there (elim (Bool-cases (v == u)) [
    | inl hit ↦ ground (arith, hit)
    | inr miss ↦ ground (arith, has-without w v us other (ground (arith, h, miss)))
  ])
]

-- As many places as there are names that are found in different places.
pigeonhole :
    (place : ℕ → Option ℕ) (names ws : List ℕ)
    → ((a b w v : ℕ) → place a ≡ some w → place b ≡ some v → (b == a) ≡ false → (v == w) ≡ false)
    → NoDup names
    → ((a : ℕ) → has a names ≡ true → (w : ℕ) × ((place a ≡ some w) × (has w ws ≡ true)))
    → length names ≤ length ws
pigeonhole place [] ws apart once found = omega arith
pigeonhole place (a ∷ names) ws apart once found =
    let (w, (e, i)) = found a (ground arith) in
    let rest = pigeonhole place names (without w ws) apart once.1 (λ b j.
      let (v, (q, k)) = found b (ground (arith, j)) in
      (v, (q, has-without w v ws (apart a b w v e q (other b j)) k))) in
    omega (arith, rest, length-without w ws i)
  where
    other : (b : ℕ) → has b names ≡ true → (b == a) ≡ false
    other b j = elim (Bool-cases (b == a)) [
      | inr out ↦ out
      | inl hit ↦
          let e : b ≡ a = ground arith in true_false (subst (λ x. has x names ≡ true) e j) once.0
    ]

lookup-has :
    (f : ℕ → Semd) (a : Addr) (ws : List ℕ) (w : ℕ) → lookup f a ws ≡ some w → has w ws ≡ true
lookup-has f a [] w h = absurd (ground (arith, h))
lookup-has f a (v ∷ ws) w h = elim (Bool-cases (is_sem f a v)) [
  | inl here ↦ let e : some v ≡ some w = rw here at h in let q : v ≡ w = cc in ground (arith, q)
  | inr there ↦ ground (arith, lookup-has f a ws w (rw there at h))
]

-- A semaphore that a process waits for has a descriptor.
waits_found :
    (s : Sems) (ws : List ℕ) (a : Addr) (ns : List Node)
    → WaitFor s ws a ns
    → is_empty ns ≡ false
    → (w : ℕ) × (lookup s.semd a ws ≡ some w)
waits_found s ws a ns (inl (l, e)) some_wait = true_false (rw e refl) some_wait
waits_found s ws a ns (inr (w, (l, q))) some_wait = (w, l)

-- As many semaphores as there are descriptors.
pub length-le-maxproc :
    (s : Sems) (m : Addr → List Node) (sems : List Addr)
    → Refines s m
    → NoDup sems
    → ((a : Addr) → has a sems ≡ true → is_empty (m a) ≡ false)
    → length sems ≤ maxproc
length-le-maxproc s m sems r once wait =
    let bound =
      pigeonhole (λ a. lookup s.semd a r.ws) sems r.ws
        (λ a b w v e q other. lookup_apart s.semd a b r.ws w v e q other) once
        (λ a i.
          let (w, l) = waits_found s r.ws a (m a) (r.waiting.queues a) (wait a i) in
          (w, (l, lookup-has s.semd a r.ws w l))) in
    omega (arith, bound, r.waiting.room)

-- headASL changes nothing and answers TRUE exactly when a process waits for some semaphore.
pub head_asl-some_wait :
    (s : Sems) (m : Addr → List Node)
    → Refines s m
    → (b : Bool) × ((head_asl s ≡ ok b s) × ((b ≡ true) ↔ ((a : Addr) × (is_empty (m a) ≡ false))))
unfolding head_asl
head_asl-some_wait s m r = go r.ws r.fs r.waiting r.busy
  where
    go :
        (ws fs : List ℕ)
        → Waiting s ws fs m
        → ((b : Addr) (w : ℕ) → lookup s.semd b ws ≡ some w → is_empty (m b) ≡ false)
        → (b : Bool) × ((head_asl s ≡ ok b s)
            × ((b ≡ true) ↔ ((a : Addr) × (is_empty (m a) ≡ false))))
    go [] fs h busy = (
      false,
      (
        ap (λ o. ok (not (is_none o)) s) h.shape.active,
        (
          λ e. true_false e refl,
          λ (a, e).
              let (w, l) = waits_found s [] a (m a) (h.queues a) e in absurd (ground (arith, l)),
        ),
      ),
    )
    go (w ∷ ws) fs h busy = (
      true,
      (
        ap (λ o. ok (not (is_none o)) s) h.shape.active.0,
        (
          λ e. elim (Option-cases (s.semd w).sem_add) [
            | inl none_here ↦ true_false (rw none_here refl) h.shape.named.0
            | inr (a, name) ↦ (a, busy a w (rw (is_sem_this s.semd a w name) refl))
          ],
          λ e. refl,
        ),
      ),
    )
