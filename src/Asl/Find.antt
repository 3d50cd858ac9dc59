-- ===== src/Asl/Find.antt =====
-- The walk along the active list of queues/asl.c, and what it finds.
use hoca_operating_system.Prelude.{
  ℕ, zero, suc, ◌<◌, Bool, true, false, ◌≡◌, refl, ap, ◌∙◌, ◌⊎◌, inl, inr, Option, none, some, List,
  [], ◌∷◌, arith, same, length, if◌then◌else◌,
}
use hoca_operating_system.Machine.{Ptr, Addr}
use hoca_operating_system.Run.{ok, exit, ◌>>=◌, and_then, Run, Cmd, pure}
use hoca_operating_system.Procq.{Procs, head_queue}
use hoca_operating_system.Procq.Cells.{Node, IsQueue}
use hoca_operating_system.Procq.Remove.{head_of, head_queue-head}
use hoca_operating_system.Asl.{Semd, Sems, find_sem, sem_fuel, head_blocked, head_at, on_procs}

-- From `o` the links s_next lead through the descriptors `ws` to ENULL.
abbrev pub Active : (ℕ → Semd) → Ptr → List ℕ → Type 0
Active f o [] = o ≡ none
Active f o (w ∷ ws) = (o ≡ some w) × Active f (f w).s_next ws

-- `w` is the descriptor of the semaphore `a`.
abbrev pub is_sem : (ℕ → Semd) → Addr → ℕ → Bool
is_sem f a w = same (f w).sem_add (some a)

-- The first descriptor of `a` in a list.
abbrev pub lookup : (ℕ → Semd) → Addr → List ℕ → Option ℕ
lookup f a [] = none
lookup f a (w ∷ ws) = let later = lookup f a ws in if is_sem f a w then some w else later

-- The one before it, or the last of the list; `prev` is before the list.
abbrev pub before : (ℕ → Semd) → Addr → Ptr → List ℕ → Ptr
before f a prev [] = prev
before f a prev (w ∷ ws) =
    let later = before f a (some w) ws in if is_sem f a w then prev else later

-- The active list, with no more descriptors than there are.
pub record IsAsl (s : Sems) (ws : List ℕ) : Type 0 where
  pub active : Active s.semd s.cur_sem ws
  pub short : length ws < sem_fuel

-- The processes in the queue of a descriptor, if there is one.
abbrev pub Waits : Sems → Option ℕ → List Node → Type 0
Waits s o ns =
    ((o ≡ none) × (ns ≡ [])) ⊎ ((w : ℕ) × ((o ≡ some w) × IsQueue s.procs (s.semd w).s_link ns))

-- The processes that wait for `a`: none if it has no descriptor.
abbrev pub WaitFor : Sems → List ℕ → Addr → List Node → Type 0
WaitFor s ws a ns = Waits s (lookup s.semd a ws) ns

pub find_sem-lookup :
    (s : Sems) (a : Addr) (ws : List ℕ) (k : ℕ) (prev o : Ptr)
    → Active s.semd o ws
    → length ws < k
    → find_sem k a prev o s ≡ ok (before s.semd a prev ws, lookup s.semd a ws) s
unfolding find_sem
find_sem-lookup s a ws zero prev o h fuel = absurd (omega (arith, fuel))
find_sem-lookup s a [] (suc k) prev o h fuel = rw h refl
find_sem-lookup s a (w ∷ ws) (suc k) prev o h fuel = rw h.0 (
    step (is_sem s.semd a w)
      (find_sem-lookup s a ws k (some w) (s.semd w).s_next h.1 (omega (arith, fuel))))
  where
    step :
        (b : Bool)
        → find_sem k a (some w) (s.semd w).s_next s
          ≡ ok (before s.semd a (some w) ws, lookup s.semd a ws) s
        → elim b as (λ _. Cmd Sems (Ptr × Ptr)) [
          | true ↦ pure (prev, some w)
          | false ↦ find_sem k a (some w) (s.semd w).s_next
        ]
            s
          ≡ ok
              (
                if b then prev else before s.semd a (some w) ws,
                if b then some w else lookup s.semd a ws,
              )
              s
    step true rest = refl
    step false rest = rest

-- A command of procq.c that ends.
pub on_procs-ok :
    {A : Type 0} (m : Cmd Procs A) (r : A) (t : Procs) (s : Sems)
    → m s.procs ≡ ok r t
    → on_procs m s ≡ ok r (record s { procs = t })
on_procs-ok m r t s h =
    ap
      (λ x. elim x as (λ _. Run Sems _) [
        | ok a u ↦ ok a (record s { procs = u })
        | exit e u ↦ exit e (record s { procs = u })
      ])
      h

head_at-head :
    (s : Sems) (o : Option ℕ) (ns : List Node) → Waits s o ns → head_at o s ≡ ok (head_of ns) s
unfolding head_at
head_at-head s o ns (inl (l, e)) = rw (l, e) refl
head_at-head s o ns (inr (w, (l, q))) = rw l (
    on_procs-ok (head_queue (s.semd w).s_link) (head_of ns) s.procs s
      (head_queue-head s.procs (s.semd w).s_link ns q))

-- headBlocked ends, gives the process that has waited longest for the semaphore, or ENULL when none
-- waits, and changes nothing.
pub head_blocked-head :
    (s : Sems) (ws : List ℕ) (a : Addr) (ns : List Node)
    → IsAsl s ws
    → WaitFor s ws a ns
    → head_blocked a s ≡ ok (head_of ns) s
unfolding head_blocked
head_blocked-head s ws a ns asl wait = go s.cur_sem ws asl.active asl.short wait
  where
    go :
        (o : Ptr) (ws : List ℕ)
        → Active s.semd o ws
        → length ws < sem_fuel
        → WaitFor s ws a ns
        → elim o as (λ _. Cmd Sems Ptr) [
          | none ↦ pure none
          | some c ↦ find_sem sem_fuel a none (some c) >>= (λ (prev, walker). head_at walker)
        ]
            s
          ≡ ok (head_of ns) s
    go o [] h short (inl (l, e)) = rw (h, e) refl
    go o [] h short (inr (w, (l, q))) = absurd (ground (arith, l))
    go o (v ∷ ws) h short wait = rw h.0 (
        ap (λ x. and_then x (λ (p : Ptr × Ptr). head_at p.1))
          (find_sem-lookup s a (v ∷ ws) sem_fuel none (some v) (refl, h.1) short)
        ∙ head_at-head s (lookup s.semd a (v ∷ ws)) ns wait)
