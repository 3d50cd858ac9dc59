-- ===== src/Syscall/Leave.antt =====
-- Terminate_Process of nucleus/traps/syscall.c: the process leaves the children of its parent.
use hoca_operating_system.Prelude.{
  ℕ, true, false, ◌≡◌, sym, subst, ap, ◌∙◌, none, some, List, [], ◌∷◌, ◌++◌, arith, if◌then◌else◌,
  ◌==◌, ==_self, if_true, if_false,
}
use hoca_operating_system.Procq.Free.{has}
use hoca_operating_system.Asl.Lists.{NoDup, last_of, has-append}
use hoca_operating_system.Asl.Shape.{NoDup-out}
use hoca_operating_system.Kernel.{Kernel, entry}
use hoca_operating_system.Syscall.Siblings.{Siblings, Family, Siblings-frame}
use hoca_operating_system.Syscall.Places.{
  Left, first_left, first_left-Moved, last_left, last_left-Moved, middle_left, middle_left-Moved,
}
use hoca_operating_system.Syscall.Depart.{Siblings-remove, apart_in, turn}

module _ (k : Kernel) (up cur : ℕ) where
  pub first_left-Left :
      (y : ℕ) (ys : List ℕ)
      → Siblings (entry k) (some y) up (y ∷ ys)
      → has cur (y ∷ ys) ≡ false
      → (entry k cur).parent ≡ none
      → Left k up cur (cur ∷ y ∷ ys) (y ∷ ys) (first_left k up cur (some y))
  first_left-Left y ys rest out no_up =
      let h = first_left-Moved k up cur (some y) in
      record {
        kin = record {
          family =
              subst (λ o. Siblings (entry (first_left k up cur (some y))) o up (y ∷ ys))
                (sym (h.kids up ∙ if_true _ _ (==_self up)))
                (Siblings-frame (entry k) (entry (first_left k up cur (some y))) up (some y)
                  (y ∷ ys) rest
                  (λ v i. (h.parents v, h.brothers v ∙ if_false _ _ (elsewhere v i))));
          links = λ v away. (h.parents v, h.brothers v ∙ if_false _ _ (elsewhere_out v away));
          children = λ v away. h.kids v ∙ if_false _ _ away;
          fields = h.fields;
          rest = h.rest;
          free = h.free;
        };
        no_parent = h.parents cur ∙ no_up;
        no_brother = h.brothers cur ∙ if_true _ _ (==_self cur);
      }
    where
      elsewhere_out : (v : ℕ) → has v (cur ∷ y ∷ ys) ≡ false → (v == cur) ≡ false
      elsewhere_out v away = ground (arith, away)

      elsewhere : (v : ℕ) → has v (y ∷ ys) ≡ true → (v == cur) ≡ false
      elsewhere v i = turn v cur ∙ apart_in cur v (y ∷ ys) out i

  module _ (x : ℕ) (xs : List ℕ) (p : ℕ) (e : last_of (some x) xs ≡ some p)
      (i : has p (x ∷ xs) ≡ true) where
    module _ (ys : List ℕ) (once : NoDup (x ∷ xs ++ cur ∷ ys)) where
      cur_out : has cur (x ∷ xs) ≡ false
      cur_out = ground (arith, NoDup-out (x ∷ xs) cur ys once, has-append cur (x ∷ xs) ys)

      cur_not_p : (cur == p) ≡ false
      cur_not_p = apart_in cur p (x ∷ xs) cur_out i

      outside :
          (v : ℕ) → has v (x ∷ xs ++ cur ∷ ys) ≡ false → ((v == cur) ≡ false) × ((v == p) ≡ false)
      outside v away =
          let split = has-append v (x ∷ xs) (cur ∷ ys) in
          (ground (arith, away, split), apart_in v p (x ∷ xs) (ground (arith, away, split)) i)

    pub last_left-Left :
        Family k up (x ∷ xs ++ cur ∷ [])
        → NoDup (x ∷ xs ++ cur ∷ [])
        → (entry k cur).brother ≡ none
        → Left k up cur (x ∷ xs ++ cur ∷ []) (x ∷ xs ++ []) (last_left k up cur p none)
    last_left-Left family once alone =
        let h = last_left-Moved k up cur p none in
        record {
          kin = record {
            family =
                subst (λ o. Siblings (entry (last_left k up cur p none)) o up (x ∷ xs ++ []))
                  (sym (h.kids up))
                  (Siblings-remove (entry k) (entry (last_left k up cur p none)) up cur []
                    (entry k up).child x xs family once
                    (λ v other. (
                      h.parents v
                          ∙ if_false _ _ other
                          ∙ rw e (ap (λ b. if b then some up else (entry k v).parent) (turn v p)),
                      h.brothers v
                          ∙ rw (e, alone)
                              (ap (λ b. if b then none else (entry k v).brother) (turn v p)),
                    )));
            links = λ v away.
                let apart = outside [] once v away in
                (
                  h.parents v ∙ if_false _ _ apart.0 ∙ if_false _ _ apart.1,
                  h.brothers v ∙ if_false _ _ apart.1,
                );
            children = λ v away. h.kids v;
            fields = h.fields;
            rest = h.rest;
            free = h.free;
          };
          no_parent = h.parents cur ∙ if_true _ _ (==_self cur);
          no_brother = h.brothers cur ∙ if_false _ _ (cur_not_p [] once) ∙ alone;
        }

    pub middle_left-Left :
        (y : ℕ) (ys : List ℕ)
        → Family k up (x ∷ xs ++ cur ∷ y ∷ ys)
        → NoDup (x ∷ xs ++ cur ∷ y ∷ ys)
        → (entry k cur).brother ≡ some y
        → (entry k cur).parent ≡ none
        → Left k up cur
            (x ∷ xs ++ cur ∷ y ∷ ys)
            (x ∷ xs ++ y ∷ ys)
            (middle_left k up cur p (some y))
    middle_left-Left y ys family once next no_up =
        let h = middle_left-Moved k up cur p (some y) in
        record {
          kin = record {
            family =
                subst
                  (λ o. Siblings (entry (middle_left k up cur p (some y))) o up (x ∷ xs ++ y ∷ ys))
                  (sym (h.kids up))
                  (Siblings-remove (entry k) (entry (middle_left k up cur p (some y))) up cur
                    (y ∷ ys) (entry k up).child x xs family once
                    (λ v other. (
                      h.parents v,
                      h.brothers v
                          ∙ if_false _ _ other
                          ∙ rw (e, next)
                              (ap (λ b. if b then some y else (entry k v).brother) (turn v p)),
                    )));
            links = λ v away.
                let apart = outside (y ∷ ys) once v away in
                (h.parents v, h.brothers v ∙ if_false _ _ apart.0 ∙ if_false _ _ apart.1);
            children = λ v away. h.kids v;
            fields = h.fields;
            rest = h.rest;
            free = h.free;
          };
          no_parent = h.parents cur ∙ no_up;
          no_brother = h.brothers cur ∙ if_true _ _ (==_self cur);
        }
