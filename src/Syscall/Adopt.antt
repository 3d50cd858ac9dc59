-- ===== src/Syscall/Adopt.antt =====
-- Create_Process of nucleus/traps/syscall.c: the new process among the children of its parent.
use hoca_operating_system.Prelude.{
  ℕ, ◌≤◌, true, false, ◌≡◌, refl, sym, subst, ap, ◌∙◌, inl, inr, none, some, List, [], ◌∷◌, ◌++◌,
  arith, if◌then◌else◌, ◌==◌, length, Bool-cases, true_false, ==_self,
}
use hoca_operating_system.Machine.{Proc}
use hoca_operating_system.Run.{Returns, returns}
use hoca_operating_system.Procq.{modify_proc}
use hoca_operating_system.Procq.Free.{has}
use hoca_operating_system.Asl.Lists.{NoDup, last_of, last_of-has}
use hoca_operating_system.Kernel.{Kernel, entry, modify_entry, put_procs}
use hoca_operating_system.Syscall.{adopt, list_fuel}
use hoca_operating_system.Syscall.Siblings.{Siblings, Family, Siblings-append, find_parented-last}

-- An entry without its place in the family.
abbrev pub strip_kin : Proc → Proc
strip_kin e = record e { parent = none; child = none; brother = none }

-- The family of `up` is `cs`. Of the processes outside `them`, none has a new parent or brother, of
-- those other than `up` none has new children, and nothing else has changed.
pub record Kin (k : Kernel) (up : ℕ) (them cs : List ℕ) (t : Kernel) : Type 0 where
  pub family : Family t up cs
  pub links :
      (v : ℕ)
      → has v them ≡ false
      → ((entry t v).parent ≡ (entry k v).parent) × ((entry t v).brother ≡ (entry k v).brother)
  pub children : (v : ℕ) → (v == up) ≡ false → (entry t v).child ≡ (entry k v).child
  pub fields : (v : ℕ) → strip_kin (entry t v) ≡ strip_kin (entry k v)
  pub rest : put_procs t k.sems.procs ≡ k
  pub free : t.sems.procs.free_head ≡ k.sems.procs.free_head

module _ (k : Kernel) (up f : ℕ) where
  abbrev first_child : Kernel
  first_child =
      modify_entry f (λ e. record e { parent = some up })
        (modify_entry up (λ e. record e { child = some f }) k)

  first_child-Kin : (entry k f).brother ≡ none → Kin k up (f ∷ []) (f ∷ []) first_child
  unfolding modify_entry modify_proc
  first_child-Kin alone = record {
    family = (ground arith, ground arith, ground (arith, alone));
    links = λ v out. (ground (arith, out), ground (arith, out));
    children = λ v out. ground (arith, out);
    fields = λ v. ground arith;
    rest = refl;
    free = refl;
  }

  module _ (p : ℕ) where
    abbrev next_child : Kernel
    next_child =
        modify_entry f (λ e. record e { parent = some up })
          (modify_entry p (λ e. record e { brother = some f })
            (modify_entry p (λ e. record e { parent = none }) k))

    next_parent :
        (v : ℕ)
        → (entry next_child v).parent
          ≡ (if v == f then some up else if v == p then none else (entry k v).parent)
    unfolding modify_entry modify_proc
    next_parent v = ground arith

    next_brother :
        (v : ℕ) → (entry next_child v).brother ≡ (if v == p then some f else (entry k v).brother)
    unfolding modify_entry modify_proc
    next_brother v = ground arith

    next_children : (v : ℕ) → (entry next_child v).child ≡ (entry k v).child
    unfolding modify_entry modify_proc
    next_children v = ground arith

    next_fields : (v : ℕ) → strip_kin (entry next_child v) ≡ strip_kin (entry k v)
    unfolding modify_entry modify_proc
    next_fields v = ground arith

    next_rest :
        (put_procs next_child k.sems.procs ≡ k)
        × (next_child.sems.procs.free_head ≡ k.sems.procs.free_head)
    unfolding modify_entry modify_proc
    next_rest = (refl, refl)

  module _ (c : ℕ) (cs : List ℕ) (p : ℕ) (e : last_of (some c) cs ≡ some p)
      (i : has p (c ∷ cs) ≡ true) (out : has f (c ∷ cs) ≡ false)
      (alone : (entry k f).brother ≡ none) where
    in_list : (v : ℕ) → has v (c ∷ cs) ≡ true → (v == f) ≡ false
    in_list v j = elim (Bool-cases (v == f)) [
      | inr other ↦ other
      | inl hit ↦
          let q : v ≡ f = ground arith in true_false (subst (λ x. has x (c ∷ cs) ≡ true) q j) out
    ]

    not_last : (v : ℕ) → has v (c ∷ cs) ≡ false → (v == p) ≡ false
    not_last v away = elim (Bool-cases (v == p)) [
      | inr other ↦ other
      | inl hit ↦
          let q : p ≡ v = ground arith in true_false (subst (λ x. has x (c ∷ cs) ≡ true) q i) away
    ]

    f_not_last : (f == p) ≡ false
    f_not_last = not_last f out

    next-Family :
        Family k up (c ∷ cs) → NoDup (c ∷ cs) → Family (next_child p) up ((c ∷ cs) ++ f ∷ [])
    next-Family family once =
        subst (λ o. Siblings (entry (next_child p)) o up ((c ∷ cs) ++ f ∷ []))
          (sym (next_children p up))
          (Siblings-append (entry k) (entry (next_child p)) up f (entry k up).child (c ∷ cs) family
            once
            (λ v j. (
              next_parent p v
                  ∙ rw (in_list v j, e)
                      (ap (λ b. if b then none else (entry k v).parent) (turn v p)),
              next_brother p v
                  ∙ rw e (ap (λ b. if b then some f else (entry k v).brother) (turn v p)),
            ))
            (next_parent p f ∙ rw (==_self f) refl) (next_brother p f ∙ rw f_not_last alone))
      where
        turn : (v p : ℕ) → (v == p) ≡ (p == v)
        turn v p = ground arith

    next_child-Kin :
        Family k up (c ∷ cs)
        → NoDup (c ∷ cs)
        → Kin k up (f ∷ c ∷ cs) ((c ∷ cs) ++ f ∷ []) (next_child p)
    next_child-Kin family once = record {
      family = next-Family family once;
      links = λ v away.
          let other : (v == f) ≡ false = ground (arith, away) in
          let last = not_last v (ground (arith, away)) in
          (next_parent p v ∙ rw (other, last) refl, next_brother p v ∙ rw last refl);
      children = λ v away. next_children p v;
      fields = next_fields p;
      rest = (next_rest p).0;
      free = (next_rest p).1;
    }

-- A new process becomes the last child of its parent: the walk to the last child so far ends, and the
-- children are those from before in their order, followed by the new one. No other process has a
-- new place in the family, and nothing else has changed.
pub adopt-Kin :
    (k : Kernel) (up f : ℕ) (cs : List ℕ)
    → Family k up cs
    → NoDup cs
    → has f cs ≡ false
    → length cs ≤ list_fuel
    → (entry k f).brother ≡ none
    → Returns (λ _. Kin k up (f ∷ cs) (cs ++ f ∷ [])) (adopt (some up) (some f) k)
unfolding adopt
adopt-Kin k up f [] family once out fuel alone = rw family (returns (first_child-Kin k up f alone))
adopt-Kin k up f (c ∷ cs) family once out fuel alone =
    let (p, (e, i)) = last_of-has c cs in
    rw (family.0, find_parented-last k up list_fuel c cs p (refl, family.1, family.2) fuel e)
      (returns (next_child-Kin k up f c cs p e i out alone family once))
