-- ===== src/Asl/Claim.antt =====
-- insertBlocked of queues/asl.c for a semaphore without a descriptor.
use hoca_operating_system.Prelude.{
  ℕ, true, false, ◌≡◌, refl, sym, subst, ap, ◌∙◌, ◌⊎◌, inl, inr, none, some, List, [], ◌∷◌, ◌++◌,
  arith, if◌then◌else◌, Bool-cases, ◌==◌, length-append, Option-cases,
}
use hoca_operating_system.Machine.{Ptr, Addr, enull_link}
use hoca_operating_system.Run.{pure, ◌>>=◌, ◌>>◌}
use hoca_operating_system.Procq.Cells.{Node, IsQueue}
use hoca_operating_system.Asl.{
  Sems, sem_fuel, first_sem, next_sem, enter_sem, insert_at, insert_blocked,
}
use hoca_operating_system.Asl.Find.{lookup, IsAsl, WaitFor, find_sem-lookup}
use hoca_operating_system.Asl.Lists.{last_of}
use hoca_operating_system.Asl.Names.{lookup_append, or_else, before_last}
use hoca_operating_system.Asl.Shape.{lookup_on}
use hoca_operating_system.Asl.Take.{Took, took-Shape}
use hoca_operating_system.Asl.Waiting.{Waiting, BusyBut, Busy}

module _ {s t : Sems} {w : ℕ} {ws fs : List ℕ} {a : Addr} {m : Addr → List Node}
    (h : Waiting s ws (w ∷ fs) m) (new : lookup s.semd a ws ≡ none) (took : Took s w ws a t) where
  names_as : (b : Addr) → lookup t.semd b ws ≡ lookup s.semd b ws
  names_as b =
      lookup_on s.semd t.semd b ws (λ v i. took.names v (ground (arith, h.shape.apart v i)))

  lookup_took :
      (b : Addr)
      → lookup t.semd b (ws ++ w ∷ [])
        ≡ or_else (lookup s.semd b ws) (if b == a then some w else none)
  lookup_took b =
      lookup_append t.semd b ws (w ∷ [])
      ∙ rw (names_as b) (
          ap (λ x. or_else (lookup s.semd b ws) (if x then some w else none))
            (rw took.name (ground arith)))

  -- No process waits for the semaphore yet.
  pub new_empty : m a ≡ []
  new_empty = elim (h.queues a) [
    | inl (l, e) ↦ e
    | inr (v, (l, q)) ↦ let no : some v ≡ none = sym l ∙ new in absurd (ground (arith, no))
  ]

  pub took_found : lookup t.semd a (ws ++ w ∷ []) ≡ some w
  took_found = lookup_took a ∙ rw new (ground arith)

  pub took_link : (t.semd w).s_link ≡ enull_link
  took_link = took.links w ∙ (h.shape.unused w (ground arith)).no_queue

  took_waits : (b : Addr) → WaitFor t (ws ++ w ∷ []) b (m b)
  took_waits b = go (h.queues b) (Bool-cases (b == a))
    where
      go :
          WaitFor s ws b (m b)
          → ((b == a) ≡ true) ⊎ ((b == a) ≡ false)
          → WaitFor t (ws ++ w ∷ []) b (m b)
      go (inr (v, (l, q))) c = inr (
        v,
        (
          lookup_took b ∙ rw l refl,
          subst (λ x. IsQueue x (t.semd v).s_link (m b)) (sym took.procs)
              (subst (λ x. IsQueue s.procs x (m b)) (sym (took.links v)) q),
        ),
      )
      go (inl (l, e)) (inl here) = inr (w, (lookup_took b ∙ rw (l, here) refl, inl (e, took_link)))
      go (inl (l, e)) (inr there) = inl (lookup_took b ∙ rw (l, there) refl, e)

  pub took-Waiting : Waiting t (ws ++ w ∷ []) fs m
  took-Waiting = record {
    shape = took-Shape s t w ws fs a h.shape new took;
    room = omega (arith, h.room, length-append ws (w ∷ []));
    queues = took_waits;
    apart = h.apart;
  }

  pub took-BusyBut : Busy s ws m → BusyBut a t (ws ++ w ∷ []) m
  took-BusyBut busy b v other found = elim (Option-cases (lookup s.semd b ws)) [
    | inr (u, l) ↦ busy b u l
    | inl l ↦
        let no : none ≡ some v = sym (lookup_took b ∙ rw (l, other) refl) ∙ found in
        absurd (ground (arith, no))
  ]

pub insert_blocked-first :
    (s : Sems) (a : Addr) (p : Ptr)
    → s.cur_sem ≡ none
    → insert_blocked a p s ≡ (first_sem a >>= (λ w. enter_sem w a p >> pure false)) s
unfolding insert_blocked
insert_blocked-first s a p e = simp e refl

pub insert_blocked-next :
    (s : Sems) (c : ℕ) (cs : List ℕ) (a : Addr) (p : Ptr) (w : ℕ)
    → IsAsl s (c ∷ cs)
    → lookup s.semd a (c ∷ cs) ≡ none
    → s.free_head_s ≡ some w
    → insert_blocked a p s
      ≡ (next_sem a (last_of (some c) cs) w >> (enter_sem w a p >> pure false)) s
unfolding insert_blocked insert_at
insert_blocked-next s c cs a p w asl new free =
    simp
      (
        asl.active.0,
        find_sem-lookup s a (c ∷ cs) sem_fuel none (some c) (refl, asl.active.1) asl.short,
        new,
        free,
        before_last s.semd a none (c ∷ cs) new,
      )
      refl
