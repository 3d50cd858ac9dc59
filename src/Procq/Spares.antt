-- ===== src/Procq/Spares.antt =====
-- What a queue operation leaves alone, put together from its single writes.
use hoca_operating_system.Prelude.{◌≡◌, refl, ◌∙◌, true, false, ◌||◌, List, [], ◌∷◌, ◌++◌, arith, ℕ}
use hoca_operating_system.Machine.{Link}
use hoca_operating_system.Procq.{Procs, inc_qcount, dec_qcount}
use hoca_operating_system.Procq.Cells.{
  Node, put, same_node, has_node, Spares, apart, link-write, strip-write, free_head-write, link-inc,
  strip-inc, link-dec, strip-dec,
}

pub Spares-refl : (ns : List Node) (s : Procs) → Spares ns s s
Spares-refl ns s = record { cells = λ n o. refl; fields = λ q. refl; free = refl }

module _ {ns : List Node} {s t : Procs} (h : Spares ns s t) where
  pub Spares-put : (n : Node) (l : Link) → has_node n ns ≡ true → Spares ns s (put t n l)
  Spares-put (p, i) l e = record {
    cells = λ (q, j) o.
        link-write t p i q j l ∙ ground (arith, apart (p, i) (q, j) ns e o, h.cells (q, j) o);
    fields = λ q. strip-write t p i q l ∙ h.fields q;
    free = free_head-write t p i l ∙ h.free;
  }

  pub Spares-inc : (p : ℕ) → Spares ns s (inc_qcount p t)
  unfolding inc_qcount
  Spares-inc p = record {
    cells = λ (q, j) o. link-inc t p q j ∙ h.cells (q, j) o;
    fields = λ q. strip-inc t p q ∙ h.fields q;
    free = h.free;
  }

  pub Spares-dec : (p : ℕ) → Spares ns s (dec_qcount p t)
  unfolding dec_qcount
  Spares-dec p = record {
    cells = λ (q, j) o. link-dec t p q j ∙ h.cells (q, j) o;
    fields = λ q. strip-dec t p q ∙ h.fields q;
    free = h.free;
  }

pub has_node-append :
    (n : Node) (ms ns : List Node) → has_node n (ms ++ ns) ≡ (has_node n ms || has_node n ns)
has_node-append n [] ns = refl
has_node-append n (m ∷ ms) ns = ground (arith, has_node-append n ms ns)

pub same_node_self : (n : Node) → same_node n n ≡ true
same_node_self (p, i) = ground arith

-- The last of a list is in it.
pub has_node-snoc : (ns : List Node) (n : Node) → has_node n (ns ++ n ∷ []) ≡ true
has_node-snoc ns n = ground (arith, has_node-append n ns (n ∷ []), same_node_self n)

pub Spares-mono :
    (ms ns : List Node) (s t : Procs)
    → Spares ms s t
    → ((n : Node) → has_node n ns ≡ false → has_node n ms ≡ false)
    → Spares ns s t
Spares-mono ms ns s t h sub = record {
  cells = λ n o. h.cells n (sub n o);
  fields = h.fields;
  free = h.free;
}
