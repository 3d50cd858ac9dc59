-- ===== src/Syscall/Places.antt =====
-- The links of a family of nucleus/traps/syscall.c after a child has left it.
use hoca_operating_system.Prelude.{
  ℕ, ◌≡◌, refl, none, some, List, [], ◌∷◌, arith, if◌then◌else◌, ◌==◌,
}
use hoca_operating_system.Machine.{Ptr}
use hoca_operating_system.Procq.{modify_proc}
use hoca_operating_system.Kernel.{Kernel, entry, modify_entry, put_procs}
use hoca_operating_system.Syscall.Adopt.{Kin, strip_kin}

-- `cur` has no parent and no brother any more.
pub record Left (k : Kernel) (up cur : ℕ) (them cs : List ℕ) (t : Kernel) : Type 0 where
  pub kin : Kin k up them cs t
  pub no_parent : (entry t cur).parent ≡ none
  pub no_brother : (entry t cur).brother ≡ none

-- Where every process has its parent, brother and child after a change.
pub record Moved (k t : Kernel) (par bro chi : ℕ → Ptr) : Type 0 where
  pub parents : (v : ℕ) → (entry t v).parent ≡ par v
  pub brothers : (v : ℕ) → (entry t v).brother ≡ bro v
  pub kids : (v : ℕ) → (entry t v).child ≡ chi v
  pub fields : (v : ℕ) → strip_kin (entry t v) ≡ strip_kin (entry k v)
  pub rest : put_procs t k.sems.procs ≡ k
  pub free : t.sems.procs.free_head ≡ k.sems.procs.free_head

module _ (k : Kernel) (up cur : ℕ) where
  -- The only child, and the first one.
  abbrev pub only_left : Kernel
  only_left =
      modify_entry cur (λ e. record e { parent = none })
        (modify_entry up (λ e. record e { child = none }) k)

  pub only_left-Left : (entry k cur).brother ≡ none → Left k up cur (cur ∷ []) [] only_left
  unfolding modify_entry modify_proc
  only_left-Left alone = record {
    kin = record {
      family = ground arith;
      links = λ v out. (ground (arith, out), ground (arith, out));
      children = λ v out. ground (arith, out);
      fields = λ v. ground arith;
      rest = refl;
      free = refl;
    };
    no_parent = ground arith;
    no_brother = ground (arith, alone);
  }

  -- The first of several children.
  abbrev pub first_left : Ptr → Kernel
  first_left next =
      modify_entry cur (λ e. record e { brother = none })
        (modify_entry up (λ e. record e { child = next }) k)

  pub first_left-Moved :
      (next : Ptr)
      → Moved k
          (first_left next)
          (λ v. (entry k v).parent)
          (λ v. if v == cur then none else (entry k v).brother)
          (λ v. if v == up then next else (entry k v).child)
  unfolding modify_entry modify_proc
  first_left-Moved next = record {
    parents = λ v. ground arith;
    brothers = λ v. ground arith;
    kids = λ v. ground arith;
    fields = λ v. ground arith;
    rest = refl;
    free = refl;
  }

  -- The last child, behind `p`, and one between `p` and another.
  abbrev pub last_left : ℕ → Ptr → Kernel
  last_left p b =
      modify_entry cur (λ e. record e { parent = none })
        (modify_entry p (λ e. record e { parent = some up })
          (modify_entry p (λ e. record e { brother = b }) k))

  pub last_left-Moved :
      (p : ℕ) (b : Ptr)
      → Moved k
          (last_left p b)
          (λ v. if v == cur then none else if v == p then some up else (entry k v).parent)
          (λ v. if v == p then b else (entry k v).brother)
          (λ v. (entry k v).child)
  unfolding modify_entry modify_proc
  last_left-Moved p b = record {
    parents = λ v. ground arith;
    brothers = λ v. ground arith;
    kids = λ v. ground arith;
    fields = λ v. ground arith;
    rest = refl;
    free = refl;
  }

  abbrev pub middle_left : ℕ → Ptr → Kernel
  middle_left p next =
      modify_entry cur (λ e. record e { brother = none })
        (modify_entry p (λ e. record e { brother = next }) k)

  pub middle_left-Moved :
      (p : ℕ) (next : Ptr)
      → Moved k
          (middle_left p next)
          (λ v. (entry k v).parent)
          (λ v. if v == cur then none else if v == p then next else (entry k v).brother)
          (λ v. (entry k v).child)
  unfolding modify_entry modify_proc
  middle_left-Moved p next = record {
    parents = λ v. ground arith;
    brothers = λ v. ground arith;
    kids = λ v. ground arith;
    fields = λ v. ground arith;
    rest = refl;
    free = refl;
  }
