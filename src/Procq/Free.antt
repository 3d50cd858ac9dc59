-- ===== src/Procq/Free.antt =====
-- allocProc, and the free list of the process table.
use hoca_operating_system.Prelude.{
  ℕ, ◌<◌, ◌==◌, ◌≡◌, refl, ap, subst, sym, Bool, true, false, ◌||◌, none, some, List, [], ◌∷◌,
  arith, pos, ==_self, count_up,
}
use hoca_operating_system.Machine.{Ptr, Proc, enull_link, semmax}
use hoca_operating_system.Run.{ok, Returns, returns}
use hoca_operating_system.Procq.{
  Procs, alloc_proc, get_link, set_link, write_link, modify_proc, clear_slot,
}

abbrev pub has : ℕ → List ℕ → Bool
has p [] = false
has p (q ∷ qs) = (p == q) || has p qs

-- From the pointer `h` the first slots lead through the entries `ps` to ENULL.
abbrev pub FreeSeg : Procs → Ptr → List ℕ → Type 0
FreeSeg s h [] = h ≡ none
FreeSeg s h (p ∷ ps) = (h ≡ some p) × (has p ps ≡ false) × FreeSeg s ((s.proc p).p_link 0).next ps

-- In no queue and waiting for no semaphore, but for slot 0, which the free list uses.
pub record IsIdle (e : Proc) : Type 0 where
  pub links : (j : ℕ) → 0 < j → j < semmax → e.p_link j ≡ enull_link
  pub semvec : (j : ℕ) → j < semmax → e.semvec j ≡ none
  pub qcount : e.qcount ≡ pos 0

abbrev pub AllIdle : Procs → List ℕ → Type 0
AllIdle s [] = Unit {0}
AllIdle s (p ∷ ps) = IsIdle (s.proc p) × AllIdle s ps

-- The free list holds the idle entries `ps`, in the order in which they are handed out.
pub record IsFree (s : Procs) (ps : List ℕ) : Type 0 where
  pub chain : FreeSeg s s.free_head ps
  pub idle : AllIdle s ps

unfoldable pub cleared : Proc → Proc
cleared e = count_up semmax 0 clear_slot e

pub cleared-link : (e : Proc) (j : ℕ) → j < semmax → (cleared e).p_link j ≡ enull_link
unfolding cleared count_up
cleared-link e j h = ground arith

pub cleared-semvec : (e : Proc) (j : ℕ) → j < semmax → (cleared e).semvec j ≡ none
unfolding cleared count_up
cleared-semvec e j h = ground arith

pub FreeSeg-frame :
    (s t : Procs) (h : Ptr) (ps : List ℕ)
    → FreeSeg s h ps
    → ((q : ℕ) → has q ps ≡ true → ((t.proc q).p_link 0).next ≡ ((s.proc q).p_link 0).next)
    → FreeSeg t h ps
FreeSeg-frame s t h [] f keep = f
FreeSeg-frame s t h (p ∷ ps) f keep = (
  f.0,
  f.1,
  rw (keep p (ground arith)) (FreeSeg-frame s t _ ps f.2 (λ q i. keep q (ground (arith, i)))),
)

pub AllIdle-frame :
    (s t : Procs) (ps : List ℕ)
    → AllIdle s ps
    → ((q : ℕ) → has q ps ≡ true → IsIdle (s.proc q) → IsIdle (t.proc q))
    → AllIdle t ps
AllIdle-frame s t [] f keep = tt
AllIdle-frame s t (p ∷ ps) f keep =
    (keep p (ground arith) f.0, AllIdle-frame s t ps f.1 (λ q i. keep q (ground (arith, i))))

-- The entry that allocProc hands out.
pub record IsFresh (e : Proc) : Type 0 where
  pub idle : IsIdle e
  pub slot : e.p_link 0 ≡ enull_link

abbrev pub unlinked : Proc → Proc
unlinked e = record e { p_link = λ _. enull_link }

-- What allocProc leaves: the first free entry, in no queue, with all its other fields as they were,
-- and every other entry untouched.
abbrev pub Allocated : Procs → List ℕ → Ptr → Procs → Type 0
Allocated s [] r t = (r ≡ none) × (t ≡ s)
Allocated s (p ∷ ps) r t =
    (r ≡ some p)
    × IsFree t ps
    × IsFresh (t.proc p)
    × (unlinked (t.proc p) ≡ unlinked (s.proc p))
    × ((q : ℕ) → (q == p) ≡ false → t.proc q ≡ s.proc q)

abbrev pub popped : Procs → ℕ → Procs
popped s p = write_link p 0 enull_link (record s { free_head = ((s.proc p).p_link 0).next })

pub alloc_head :
    (s : Procs) (p : ℕ) → s.free_head ≡ some p → alloc_proc s ≡ ok (some p) (popped s p)
unfolding alloc_proc get_link set_link
alloc_head s p e = rw e refl

pub popped-proc : (s : Procs) (p q : ℕ) → (q == p) ≡ false → (popped s p).proc q ≡ s.proc q
unfolding write_link modify_proc
popped-proc s p q h = rw h refl

pub popped-unlinked : (s : Procs) (p : ℕ) → unlinked ((popped s p).proc p) ≡ unlinked (s.proc p)
unfolding write_link modify_proc
popped-unlinked s p = ground arith

pub popped-free : (s : Procs) (p : ℕ) → (popped s p).free_head ≡ ((s.proc p).p_link 0).next
unfolding write_link modify_proc
popped-free s p = refl

pub popped-IsFresh : (s : Procs) (p : ℕ) → IsIdle (s.proc p) → IsFresh ((popped s p).proc p)
unfolding write_link modify_proc
popped-IsFresh s p h = rw (==_self p) (record {
  idle = record {
    links = λ j l u. ground (arith, h.links j l u);
    semvec = h.semvec;
    qcount = h.qcount;
  };
  slot = refl;
})

pub has_ne : (p q : ℕ) (ps : List ℕ) → has p ps ≡ false → has q ps ≡ true → (q == p) ≡ false
has_ne p q [] h i = cc
has_ne p q (r ∷ rs) h i = ground (arith, has_ne p q rs)

-- allocProc hands out the first free entry, in no queue, or ENULL if there is none: the free list is
-- left without it, every field of the entry but p_link is as it was, and so is every other entry.
pub alloc_proc-first :
    (s : Procs) (ps : List ℕ) → IsFree s ps → Returns (Allocated s ps) (alloc_proc s)
unfolding alloc_proc
alloc_proc-first s [] f = rw f.chain (returns (refl, refl))
alloc_proc-first s (p ∷ ps) f =
    let same = λ (q : ℕ) (i : has q ps ≡ true). popped-proc s p q (has_ne p q ps f.chain.1 i) in
    rw (alloc_head s p f.chain.0) (
      returns (
        refl,
        record {
          chain =
              subst (λ h. FreeSeg (popped s p) h ps) (sym (popped-free s p))
                (FreeSeg-frame s (popped s p) ((s.proc p).p_link 0).next ps f.chain.2
                  (λ q i. ap (λ (e : Proc). (e.p_link 0).next) (same q i)));
          idle =
              AllIdle-frame s (popped s p) ps f.idle.1 (λ q i h. subst IsIdle (sym (same q i)) h);
        },
        popped-IsFresh s p f.idle.0,
        popped-unlinked s p,
        popped-proc s p,
      ))
