-- ===== src/Support/PageInit/Layout.antt =====
-- The frames that pageinit of support/part2/page.c lays out behind the end of the program.
use hoca_operating_system.Prelude.{
  ℕ, ◌+◌, ◌<◌, ◌≤◌, true, false, ◌≡◌, ◌↔◌, refl, ◌∙◌, List, [], ◌∷◌, ◌++◌, arith, ◌==◌, true_false,
  zero, suc, inl, inr, Bool-cases,
}
use hoca_operating_system.Procq.Free.{has}
use hoca_operating_system.Procq.Init.{range}
use hoca_operating_system.Asl.Lists.{NoDup, has-append}
use hoca_operating_system.Support.State.{Frames, maxframes}
use hoca_operating_system.Support.PageInit.{layout}

-- The frames of the stacks, and those that hold pages of the terminal processes.
abbrev stack_frames : Frames → List ℕ
stack_frames f =
    f.tsysframe 0
    ∷ f.tsysframe 1
    ∷ f.tsysframe 2
    ∷ f.tsysframe 3
    ∷ f.tsysframe 4
    ∷ f.tmmframe 0
    ∷ f.tmmframe 1
    ∷ f.tmmframe 2
    ∷ f.tmmframe 3
    ∷ f.tmmframe 4
    ∷ f.scronframe
    ∷ f.spagedframe
    ∷ f.sdiskframe
    ∷ []

abbrev pub frames_of : Frames → List ℕ
frames_of f = stack_frames f ++ range maxframes f.pf_start

-- Every member is at least `n`, and larger than the one before it.
abbrev Rising : ℕ → List ℕ → Type 0
Rising n [] = Unit {0}
Rising n (w ∷ ws) = (n ≤ w) × Rising (w + 1) ws

Rising-out : (n : ℕ) (ws : List ℕ) → Rising n ws → (v : ℕ) → v < n → has v ws ≡ false
Rising-out n [] h v low = refl
Rising-out n (w ∷ ws) h v low =
    ground (arith, low, h.0, Rising-out (w + 1) ws h.1 v (omega (arith, low, h.0)))

Rising-NoDup : (n : ℕ) (ws : List ℕ) → Rising n ws → NoDup ws
Rising-NoDup n [] h = tt
Rising-NoDup n (w ∷ ws) h = (Rising-out (w + 1) ws h.1 w (omega arith), Rising-NoDup (w + 1) ws h.1)

range-Rising : (n i : ℕ) → Rising i (range n i)
range-Rising zero i = tt
range-Rising (suc n) i = (omega arith, range-Rising n (i + 1))

Rising-mono : (m n : ℕ) (ws : List ℕ) → m ≤ n → Rising n ws → Rising m ws
Rising-mono m n [] le h = tt
Rising-mono m n (w ∷ ws) le h = (omega (arith, le, h.0), h.1)

layout-Rising : (e : ℕ) → Rising (e + 2) (frames_of (layout e))
layout-Rising e = (
  omega arith,
  (
    omega arith,
    (
      omega arith,
      (
        omega arith,
        (
          omega arith,
          (
            omega arith,
            (
              omega arith,
              (
                omega arith,
                (
                  omega arith,
                  (
                    omega arith,
                    (
                      omega arith,
                      (
                        omega arith,
                        (
                          omega arith,
                          Rising-mono (e + 14 + 1) (e + 17) (range 20 (e + 17)) (omega arith)
                              (range-Rising 20 (e + 17)),
                        ),
                      ),
                    ),
                  ),
                ),
              ),
            ),
          ),
        ),
      ),
    ),
  ),
)

abbrev Under : ℕ → List ℕ → Type 0
Under n [] = Unit {0}
Under n (w ∷ ws) = (w < n) × Under n ws

Under-has : (n : ℕ) (ws : List ℕ) → Under n ws → (v : ℕ) → has v ws ≡ true → v < n
Under-has n [] h v i = true_false i refl
Under-has n (w ∷ ws) h v i = elim (Bool-cases (v == w)) [
  | inl here ↦ ground (arith, here, h.0)
  | inr there ↦ Under-has n ws h.1 v (ground (arith, i, there))
]

range-Under : (n i m : ℕ) → i + n ≤ m → Under m (range n i)
range-Under zero i m le = tt
range-Under (suc n) i m le = (omega (arith, le), range-Under n (i + 1) m (omega (arith, le)))

layout-Under : (e : ℕ) → Under (e + 37) (frames_of (layout e))
layout-Under e = (
  omega arith,
  (
    omega arith,
    (
      omega arith,
      (
        omega arith,
        (
          omega arith,
          (
            omega arith,
            (
              omega arith,
              (
                omega arith,
                (
                  omega arith,
                  (
                    omega arith,
                    (
                      omega arith,
                      (omega arith, (omega arith, range-Under 20 (e + 17) (e + 37) (omega arith))),
                    ),
                  ),
                ),
              ),
            ),
          ),
        ),
      ),
    ),
  ),
)

has-range-in : (n i v : ℕ) → i ≤ v → v < i + n → has v (range n i) ≡ true
has-range-in zero i v low high = absurd (omega (arith, low, high))
has-range-in (suc n) i v low high = elim (Bool-cases (v == i)) [
  | inl here ↦ ground (arith, here)
  | inr there ↦
      ground (arith, has-range-in n (i + 1) v (ground (arith, low, there)) (omega (arith, high)))
]

has-later : (v : ℕ) (xs ys : List ℕ) → has v ys ≡ true → has v (xs ++ ys) ≡ true
has-later v xs ys h = has-append v xs ys ∙ rw h (ground arith)

-- The frames that pageinit lays out are all different and lie behind the program, and they are in the
-- 256 frames of the memory of 128K exactly when the program ends below frame 220.
pub layout-frames :
    (endframe : ℕ)
    → NoDup (frames_of (layout endframe))
      × ((v : ℕ) → v < endframe + 2 → has v (frames_of (layout endframe)) ≡ false)
      × (((v : ℕ) → has v (frames_of (layout endframe)) ≡ true → v < 256) ↔ (endframe < 220))
layout-frames e = (
  Rising-NoDup (e + 2) (frames_of (layout e)) (layout-Rising e),
  Rising-out (e + 2) (frames_of (layout e)) (layout-Rising e),
  (
    λ all. omega (
      arith,
      all (e + 36) (
          has-later (e + 36) (stack_frames (layout e)) (range 20 (e + 17))
            (has-range-in 20 (e + 17) (e + 36) (omega arith) (omega arith))),
    ),
    λ small v h.
        omega (arith, small, Under-has (e + 37) (frames_of (layout e)) (layout-Under e) v h),
  ),
)
