-- ===== src/Procq/FreeTail.antt =====
-- freeProc clears an entry and puts it at the end of the free list.
use hoca_operating_system.Prelude.{
  ℕ, zero, suc, ◌<◌, ◌≤◌, ◌==◌, ◌≡◌, refl, ap, subst, sym, ◌∙◌, inl, inr, true, false, ◌||◌, none,
  some, List, [], ◌∷◌, ◌++◌, arith, pos, Bool-cases, ==_self, length, count_up,
}
use hoca_operating_system.Machine.{Ptr, Link, Proc, enull_link, maxproc}
use hoca_operating_system.Run.{ok, Returns, returns}
use hoca_operating_system.Procq.{
  Procs, free_proc, free_walk, get_link, set_link, write_link, modify_proc, wipe_entry, append_free,
}
use hoca_operating_system.Procq.Free.{
  has, FreeSeg, AllIdle, cleared, cleared-link, cleared-semvec, FreeSeg-frame, AllIdle-frame,
  has_ne, IsIdle, IsFree,
}

-- The last entry of the free list that starts with `h`.
abbrev last : ℕ → List ℕ → ℕ
last h [] = h
last h (q ∷ qs) = last q qs

free_walk-last :
    (s : Procs) (k h : ℕ) (qs : List ℕ)
    → FreeSeg s (some h) (h ∷ qs)
    → length qs < k
    → free_walk k h s ≡ ok (last h qs) s
unfolding free_walk get_link
free_walk-last s zero h qs f fuel = absurd (omega arith)
free_walk-last s (suc k) h [] f fuel = rw f.2 refl
free_walk-last s (suc k) h (q ∷ qs) f fuel =
    rw f.2.0 (free_walk-last s k q qs (refl, f.2.1, f.2.2) (omega arith))

last_ne : (p q : ℕ) (qs : List ℕ) → has p (q ∷ qs) ≡ false → (p == last q qs) ≡ false
last_ne p q [] h = ground arith
last_ne p q (r ∷ rs) h = last_ne p r rs (ground arith)

has-append : (p : ℕ) (ps qs : List ℕ) → has p (ps ++ qs) ≡ (has p ps || has p qs)
has-append p [] qs = refl
has-append p (r ∷ rs) qs = ground (arith, has-append p rs qs)

FreeSeg-snoc :
    (s t : Procs) (h : ℕ) (qs : List ℕ) (p : ℕ)
    → FreeSeg s (some h) (h ∷ qs)
    → has p (h ∷ qs) ≡ false
    → ((r : ℕ)
        → has r (h ∷ qs) ≡ true
        → (r == last h qs) ≡ false
        → ((t.proc r).p_link 0).next ≡ ((s.proc r).p_link 0).next)
    → ((t.proc (last h qs)).p_link 0).next ≡ some p
    → ((t.proc p).p_link 0).next ≡ none
    → FreeSeg t (some h) ((h ∷ qs) ++ p ∷ [])
FreeSeg-snoc s t h [] p f new keep at end = (refl, ground arith, (at, refl, end))
FreeSeg-snoc s t h (q ∷ qs) p f new keep at end =
    let before : (h == last q qs) ≡ false = last_ne h q qs f.1 in
    (
      refl,
      ground (arith, has-append h (q ∷ qs) (p ∷ [])),
      rw (keep h (ground arith) before, f.2.0)
          (FreeSeg-snoc s t q qs p (refl, f.2.1, f.2.2) (ground arith)
            (λ r i. keep r (ground (arith, i))) at end),
    )

-- What freeProc leaves: the entry cleared at the end of the free list, with the fields that no
-- queue operation uses as they were, and every other entry with all but its first slot.
abbrev pub kept : Proc → Proc
kept e = record e { p_link = λ _. enull_link; qcount = pos 0; semvec = λ _. none }

abbrev pub Freed : Procs → List ℕ → ℕ → Procs → Type 0
Freed s ps p t =
    IsFree t (ps ++ p ∷ [])
    × (kept (t.proc p) ≡ kept (s.proc p))
    × ((q : ℕ) → has q (p ∷ ps) ≡ false → t.proc q ≡ s.proc q)

abbrev wiped : Procs → ℕ → Procs
wiped s p = wipe_entry p s

wiped-free : (s : Procs) (p : ℕ) → (wiped s p).free_head ≡ s.free_head
unfolding wipe_entry
wiped-free s p = refl

wiped-IsIdle : (s : Procs) (p : ℕ) → IsIdle ((wiped s p).proc p)
unfolding wipe_entry cleared
wiped-IsIdle s p = rw (==_self p) (record {
  links = λ j l u. cleared-link (s.proc p) j u;
  semvec = cleared-semvec (s.proc p);
  qcount = refl;
})

wiped-link : (s : Procs) (p : ℕ) → ((wiped s p).proc p).p_link 0 ≡ enull_link
unfolding wipe_entry cleared
wiped-link s p = rw (==_self p) (cleared-link (s.proc p) 0 (omega arith))

wiped-kept : (s : Procs) (p : ℕ) → kept ((wiped s p).proc p) ≡ kept (s.proc p)
unfolding wipe_entry count_up
wiped-kept s p = rw (==_self p) refl

wiped-proc : (s : Procs) (p q : ℕ) → (q == p) ≡ false → (wiped s p).proc q ≡ s.proc q
unfolding wipe_entry cleared
wiped-proc s p q h = rw h refl

-- The table after `p` is linked behind the last free entry `w`.
hooked : Procs → ℕ → ℕ → Procs
unfolding write_link modify_proc
hooked s p w = write_link w 0 (record (((wiped s p).proc w).p_link 0) { next = some p }) (wiped s p)

hooked-proc :
    (s : Procs) (p w q : ℕ) → (q == w) ≡ false → (hooked s p w).proc q ≡ (wiped s p).proc q
unfolding hooked
hooked-proc s p w q h = rw h refl

hooked-next : (s : Procs) (p w : ℕ) → (((hooked s p w).proc w).p_link 0).next ≡ some p
unfolding hooked
hooked-next s p w = rw (==_self w) refl

hooked-IsIdle :
    (s : Procs) (p w q : ℕ) → IsIdle ((wiped s p).proc q) → IsIdle ((hooked s p w).proc q)
unfolding hooked
hooked-IsIdle s p w q h = elim (Bool-cases (q == w)) [
  | inl e ↦
      let w_idle : IsIdle ((wiped s p).proc w) =
        subst (λ v. IsIdle ((wiped s p).proc v)) (ground arith) h in
      rw e (record {
        links = λ j l u. ground (arith, w_idle.links j l u);
        semvec = w_idle.semvec;
        qcount = w_idle.qcount;
      })
  | inr e ↦ rw e h
]

AllIdle-append : (s : Procs) (ps qs : List ℕ) → AllIdle s ps → AllIdle s qs → AllIdle s (ps ++ qs)
AllIdle-append s [] qs h k = k
AllIdle-append s (p ∷ ps) qs h k = (h.0, AllIdle-append s ps qs h.1 k)

module _ (s : Procs) (p : ℕ) where
  free_first :
      s.free_head ≡ none → free_proc (some p) s ≡ ok tt (record (wiped s p) { free_head = some p })
  unfolding free_proc append_free
  free_first e = ap (λ (f : Ptr). append_free f (some p) (wiped s p)) (wiped-free s p ∙ e)

  free_behind :
      (h : ℕ) (qs : List ℕ)
      → s.free_head ≡ some h
      → free_walk maxproc h (wiped s p) ≡ ok (last h qs) (wiped s p)
      → free_proc (some p) s ≡ ok tt (hooked s p (last h qs))
  unfolding free_proc append_free hooked get_link set_link
  free_behind h qs e walk =
      ap (λ (f : Ptr). append_free f (some p) (wiped s p)) (wiped-free s p ∙ e) ∙ rw walk refl

  module _ (h : ℕ) (qs : List ℕ) (f : IsFree s (h ∷ qs)) (new : has p (h ∷ qs) ≡ false) where
    same : (q : ℕ) → has q (h ∷ qs) ≡ true → (wiped s p).proc q ≡ s.proc q
    same q i = wiped-proc s p q (has_ne p q (h ∷ qs) new i)

    wiped_chain : FreeSeg (wiped s p) (some h) (h ∷ qs)
    wiped_chain =
        FreeSeg-frame s (wiped s p) (some h) (h ∷ qs) (refl, f.chain.1, f.chain.2)
          (λ q i. ap (λ (e : Proc). (e.p_link 0).next) (same q i))

    hooked_chain : FreeSeg (hooked s p (last h qs)) (some h) ((h ∷ qs) ++ p ∷ [])
    hooked_chain =
        FreeSeg-snoc (wiped s p) (hooked s p (last h qs)) h qs p wiped_chain new
          (λ r i ne. ap (λ (e : Proc). (e.p_link 0).next) (hooked-proc s p (last h qs) r ne))
          (hooked-next s p (last h qs))
          (ap (λ (e : Proc). (e.p_link 0).next) (hooked-proc s p (last h qs) p (last_ne p h qs new))
            ∙ ap (λ (l : Link). l.next) (wiped-link s p))

    hooked_idle : AllIdle (hooked s p (last h qs)) ((h ∷ qs) ++ p ∷ [])
    hooked_idle =
        AllIdle-append (hooked s p (last h qs)) (h ∷ qs) (p ∷ [])
          (AllIdle-frame s (hooked s p (last h qs)) (h ∷ qs) f.idle
            (λ q i e. hooked-IsIdle s p (last h qs) q (subst IsIdle (sym (same q i)) e)))
          (hooked-IsIdle s p (last h qs) p (wiped-IsIdle s p), tt)

    hooked_free : (hooked s p (last h qs)).free_head ≡ some h
    unfolding hooked
    hooked_free = wiped-free s p ∙ f.chain.0

    hooked-IsFree : IsFree (hooked s p (last h qs)) ((h ∷ qs) ++ p ∷ [])
    hooked-IsFree = record {
      chain = (hooked_free, hooked_chain.1, hooked_chain.2);
      idle = hooked_idle;
    }

    hooked_others :
        (q : ℕ) → has q (p ∷ h ∷ qs) ≡ false → (hooked s p (last h qs)).proc q ≡ s.proc q
    hooked_others q o =
        hooked-proc s p (last h qs) q (last_ne q h qs (ground arith))
        ∙ wiped-proc s p q (ground arith)

  -- If the free list has at most MAXPROC entries and the process is not one of them, freeProc ends
  -- and leaves the process, cleared of queues and semaphores, at the end of the free list. It keeps
  -- the process's other fields, trap vectors and times among them, and changes no entry outside
  -- the list.
  pub free_proc-append :
      (ps : List ℕ)
      → IsFree s ps
      → has p ps ≡ false
      → length ps ≤ maxproc
      → Returns (λ _. Freed s ps p) (free_proc (some p) s)
  free_proc-append [] f new small = rw (free_first f.chain) (
      returns (
        record {
          chain = (refl, refl, ap (λ (l : Link). l.next) (wiped-link s p));
          idle = (wiped-IsIdle s p, tt);
        },
        wiped-kept s p,
        λ q o. wiped-proc s p q (ground arith),
      ))
  free_proc-append (h ∷ qs) f new small =
      rw
        (free_behind h qs f.chain.0
          (free_walk-last (wiped s p) maxproc h qs (wiped_chain h qs f new) (omega arith)))
        (returns (
          hooked-IsFree h qs f new,
          ap kept (hooked-proc s p (last h qs) p (last_ne p h qs new)) ∙ wiped-kept s p,
          hooked_others h qs f new,
        ))
