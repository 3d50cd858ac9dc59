-- ===== src/Asl/Woken.antt =====
-- What removeBlocked of queues/asl.c does to the process table.
use hoca_operating_system.Prelude.{
  ℕ, zero, suc, ◌+◌, ◌≡◌, refl, sym, ap, ◌∙◌, inl, inr, false, same, Bool-cases, List, [], ◌∷◌,
  arith, dec, ◌==◌, some,
}
use hoca_operating_system.Machine.{Addr, Link, Proc, semmax, enull_link}
use hoca_operating_system.Procq.{Procs, modify_proc}
use hoca_operating_system.Procq.Cells.{Node, cell, has_node, Counts, Spares}
use hoca_operating_system.Asl.{Sems, set_sem2}
use hoca_operating_system.Asl.Enter.{modify_cell}
use hoca_operating_system.Asl.Relink.{relinked}

-- The slot of the process that is woken is free, its qcount alone went down, and no slot that is not
-- in the queue was written.
abbrev pub Woken : Procs → List Node → Procs → Type 0
Woken s [] t = t ≡ s
Woken s (n ∷ ns) t =
    (cell t n ≡ enull_link)
    × Counts dec n.0 s t
    × ((x : Node) → has_node x (n ∷ ns) ≡ false → cell t x ≡ cell s x)

pub set_sem2_link : (n i : ℕ) (a : Addr) (e : Proc) → (set_sem2 n i a e).p_link ≡ e.p_link
unfolding set_sem2
set_sem2_link zero i a e = refl
set_sem2_link (suc n) i a e = elim (Bool-cases (same (e.semvec i) (some a))) [
  | inl here ↦ rw here refl
  | inr there ↦ rw there (set_sem2_link n (i + 1) a e)
]

set_sem2_qcount : (n i : ℕ) (a : Addr) (e : Proc) → (set_sem2 n i a e).qcount ≡ e.qcount
unfolding set_sem2
set_sem2_qcount zero i a e = refl
set_sem2_qcount (suc n) i a e = elim (Bool-cases (same (e.semvec i) (some a))) [
  | inl here ↦ rw here refl
  | inr there ↦ rw there (set_sem2_qcount n (i + 1) a e)
]

modify_qcount :
    (p : ℕ) (f : Proc → Proc) (u : Procs) (q : ℕ)
    → ((e : Proc) → (f e).qcount ≡ e.qcount)
    → ((modify_proc p f u).proc q).qcount ≡ (u.proc q).qcount
unfolding modify_proc
modify_qcount p f u q keeps = elim (Bool-cases (q == p)) [
  | inl hit ↦
      let e : q ≡ p = ground arith in
      rw hit (keeps (u.proc p) ∙ ap (λ x. (u.proc x).qcount) (sym e))
  | inr miss ↦ rw miss refl
]

pub relinked-Woken :
    (s : Sems) (w : ℕ) (a : Addr) (tp : Link) (u : Procs) (n : Node) (ns : List Node)
    → cell u n ≡ enull_link
    → Spares (n ∷ ns) s.procs u
    → Counts dec n.0 s.procs u
    → Woken s.procs (n ∷ ns) (relinked s w n.0 (set_sem2 semmax 0 a) tp u).procs
unfolding relinked
relinked-Woken s w a tp u n ns freed spares counts = (
  modify_cell n.0 (set_sem2 semmax 0 a) u n.0 n.1 (set_sem2_link semmax 0 a) ∙ freed,
  λ q. modify_qcount n.0 (set_sem2 semmax 0 a) u q (set_sem2_qcount semmax 0 a) ∙ counts q,
  λ x out.
      modify_cell n.0 (set_sem2 semmax 0 a) u x.0 x.1 (set_sem2_link semmax 0 a)
      ∙ spares.cells x out,
)
