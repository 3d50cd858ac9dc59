-- ===== src/Syscall/Goodbye.antt =====
-- Terminate_Process of nucleus/traps/syscall.c takes the process out of its family.
use hoca_operating_system.Prelude.{
  ℕ, ◌≤◌, false, ◌≡◌, refl, ap, ◌∙◌, none, some, List, [], ◌∷◌, ◌++◌, arith, same, if◌then◌else◌,
  ◌==◌, length, length-append, ==_self,
}
use hoca_operating_system.Machine.{Ptr}
use hoca_operating_system.Run.{ok, Cmd, Returns, returns, ◌>>◌, ◌>>=◌, and_then}
use hoca_operating_system.Asl.Lists.{NoDup, last_of-has, has-append}
use hoca_operating_system.Kernel.{Kernel, entry}
use hoca_operating_system.Syscall.{
  leave_family, leave_last, leave_middle, list_fuel, find_parented, find_before, set_child,
  set_parent, set_brother, read_field,
}
use hoca_operating_system.Syscall.Siblings.{Siblings, Family, find_parented-last, find_before-last}
use hoca_operating_system.Syscall.Places.{
  Left, only_left, only_left-Left, first_left, last_left, middle_left,
}
use hoca_operating_system.Syscall.Leave.{first_left-Left, last_left-Left, middle_left-Left}
use hoca_operating_system.Syscall.Depart.{Siblings-around, Siblings-last, apart_in}

module _ (k : Kernel) (up cur : ℕ) where
  run_only :
      (entry k up).child ≡ some cur → leave_last (some cur) (some up) k ≡ ok tt (only_left k up cur)
  unfolding leave_last
  run_only e = simp (e, ==_self cur) refl

  -- What the two branches do at the child before `cur`.
  abbrev rest_last : Ptr → Cmd Kernel (Unit {0})
  rest_last before = do
    b ← read_field (λ e. e.brother) (some cur)
    set_brother b before
    set_parent (some up) before
    set_parent none (some cur)

  abbrev rest_middle : ℕ → Ptr → Cmd Kernel (Unit {0})
  rest_middle y before = do set_brother (some y) before; set_brother none (some cur)

  run_last :
      (x p : ℕ)
      → (entry k up).child ≡ some x
      → (x == cur) ≡ false
      → find_before list_fuel (some cur) (some x) k ≡ ok (some p) k
      → (entry k cur).brother ≡ none
      → leave_last (some cur) (some up) k ≡ ok tt (last_left k up cur p none)
  unfolding leave_last
  run_last x p e other found alone = split ∙ ap (λ r. and_then r rest_last) found ∙ simp alone refl
    where
      split :
          leave_last (some cur) (some up) k
          ≡ and_then (find_before list_fuel (some cur) (some x) k) rest_last
      split =
          ap
            (λ first.
              (if same first (some cur)
                  then set_child none (some up) >> set_parent none (some cur)
                  else find_before list_fuel (some cur) first >>= rest_last)
                k)
            e
          ∙ ap
              (λ b.
                (if b
                    then set_child none (some up) >> set_parent none (some cur)
                    else find_before list_fuel (some cur) (some x) >>= rest_last)
                  k)
              other

  run_first :
      (y q : ℕ)
      → find_parented list_fuel (some y) k ≡ ok (some q) k
      → (entry k q).parent ≡ some up
      → (entry k up).child ≡ some cur
      → leave_middle (some cur) (some y) k ≡ ok tt (first_left k up cur (some y))
  unfolding leave_middle
  run_first y q found its_up e = simp (found, its_up, e, ==_self cur) refl

  run_middle :
      (x y p q : ℕ)
      → find_parented list_fuel (some y) k ≡ ok (some q) k
      → (entry k q).parent ≡ some up
      → (entry k up).child ≡ some x
      → (x == cur) ≡ false
      → find_before list_fuel (some cur) (some x) k ≡ ok (some p) k
      → leave_middle (some cur) (some y) k ≡ ok tt (middle_left k up cur p (some y))
  unfolding leave_middle
  run_middle x y p q found its_up e other before =
      split ∙ ap (λ r. and_then r (rest_middle y)) before
    where
      split :
          leave_middle (some cur) (some y) k
          ≡ and_then (find_before list_fuel (some cur) (some x) k) (rest_middle y)
      split =
          simp (found, its_up)
            (ap
                (λ first.
                  (if same first (some cur)
                      then set_child (some y) (some up) >> set_brother none (some cur)
                      else find_before list_fuel (some cur) first >>= rest_middle y)
                    k)
                e
              ∙ ap
                  (λ b.
                    (if b
                        then set_child (some y) (some up) >> set_brother none (some cur)
                        else find_before list_fuel (some cur) (some x) >>= rest_middle y)
                      k)
                  other)

  leave_last_of :
      (xs : List ℕ)
      → Family k up (xs ++ cur ∷ [])
      → NoDup (xs ++ cur ∷ [])
      → length (xs ++ cur ∷ []) ≤ list_fuel
      → (entry k cur).brother ≡ none
      → Returns (λ _. Left k up cur (xs ++ cur ∷ []) (xs ++ [])) (leave_last (some cur) (some up) k)
  leave_last_of [] family once fuel alone =
      rw (run_only family.0) (returns (only_left-Left k up cur alone))
  leave_last_of (x ∷ xs) family once fuel alone =
      let (p, (e, i)) = last_of-has x xs in
      let other =
        apart_in x cur (xs ++ cur ∷ []) once.0 (ground (arith, has-append cur xs (cur ∷ []))) in
      rw
        (run_last x p family.0 other
          (find_before-last k up list_fuel x xs cur [] p (refl, family.1, family.2) once
            (omega (arith, fuel, length-append (x ∷ xs) (cur ∷ []))) e)
          alone)
        (returns (last_left-Left k up cur x xs p e i family once alone))

  leave_middle_of :
      (xs : List ℕ) (y : ℕ) (ys : List ℕ)
      → Family k up (xs ++ cur ∷ y ∷ ys)
      → NoDup (xs ++ cur ∷ y ∷ ys)
      → length (xs ++ cur ∷ y ∷ ys) ≤ list_fuel
      → Siblings (entry k) (some y) up (y ∷ ys)
      → (entry k cur).brother ≡ some y
      → (entry k cur).parent ≡ none
      → Returns
          (λ _. Left k up cur (xs ++ cur ∷ y ∷ ys) (xs ++ y ∷ ys))
          (leave_middle (some cur) (some y) k)
  leave_middle_of [] y ys family once fuel rest next no_up =
      let (q, (e, i)) = last_of-has y ys in
      rw
        (run_first y q (find_parented-last k up list_fuel y ys q rest (omega (arith, fuel)) e)
          (Siblings-last (entry k) (some y) up y ys q rest e) family.0)
        (returns (first_left-Left k up cur y ys rest once.0 no_up))
  leave_middle_of (x ∷ xs) y ys family once fuel rest next no_up =
      let (q, (e, i)) = last_of-has y ys in
      let (p, (d, j)) = last_of-has x xs in
      let size = length-append (x ∷ xs) (cur ∷ y ∷ ys) in
      let other =
        apart_in x cur (xs ++ cur ∷ y ∷ ys) once.0
          (ground (arith, has-append cur xs (cur ∷ y ∷ ys))) in
      rw
        (run_middle x y p q
          (find_parented-last k up list_fuel y ys q rest (omega (arith, fuel, size)) e)
          (Siblings-last (entry k) (some y) up y ys q rest e) family.0 other
          (find_before-last k up list_fuel x xs cur (y ∷ ys) p (refl, family.1, family.2) once
            (omega (arith, fuel, size)) d))
        (returns (middle_left-Left k up cur x xs p d j y ys family once next no_up))

-- A process that ends leaves the children of its parent wherever it stands among them: both walks over
-- the children end, the others keep their order, and the process has no parent and no brother any
-- more. No process outside the family has a new place, and nothing else has changed.
pub leave_family-Left :
    (k : Kernel) (up cur : ℕ) (xs ys : List ℕ)
    → Family k up (xs ++ cur ∷ ys)
    → NoDup (xs ++ cur ∷ ys)
    → length (xs ++ cur ∷ ys) ≤ list_fuel
    → Returns (λ _. Left k up cur (xs ++ cur ∷ ys) (xs ++ ys)) (leave_family (some cur) k)
unfolding leave_family
leave_family-Left k up cur xs [] family once fuel =
    let around = Siblings-around (entry k) (entry k up).child up xs cur [] family in
    rw (around.1, around.0) (leave_last_of k up cur xs family once fuel around.1)
leave_family-Left k up cur xs (y ∷ ys) family once fuel =
    let around = Siblings-around (entry k) (entry k up).child up xs cur (y ∷ ys) family in
    rw around.1.0 (
      leave_middle_of k up cur xs y ys family once fuel (refl, around.1.1, around.1.2) around.1.0
        around.0)
