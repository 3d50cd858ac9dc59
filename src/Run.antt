-- ===== src/Run.antt =====
-- How a piece of the nucleus runs: on a state, to a result and a new state, or to the point
-- where control leaves it for good.
use hoca_operating_system.Prelude.{Option, none, some, ◌≡◌, refl}
use hoca_operating_system.Machine.{State}

-- `load s` is LDST(s); `sleep` is the stop instruction; `halt` is HALT(). `fault` is a read or
-- write through ENULL or at the index ENULL, and `panicked` the trap of panic().
pub data Exit : Type 0 where
  load : State → Exit
  sleep : Exit
  halt : Exit
  panicked : Exit
  fault : Exit
  out_of_fuel : Exit

pub data Run (S A : Type 0) : Type 0 where
  ok : A → S → Run S A
  exit : Exit → S → Run S A

abbrev pub Cmd : Type 0 → Type 0 → Type 0
Cmd S A = S → Run S A

abbrev pub pure : {S A : Type 0} → A → Cmd S A
pure = ok

abbrev pub stop : {S A : Type 0} → Exit → Cmd S A
stop = exit

module _ {S A B : Type 0} where
  abbrev pub and_then : Run S A → (A → Cmd S B) → Run S B
  and_then (ok a s) k = k a s
  and_then (exit e s) k = exit e s

  infixl 5 ◌>>=◌ ◌>>◌
  abbrev pub ◌>>=◌ : Cmd S A → (A → Cmd S B) → Cmd S B
  m >>= k = λ s. and_then (m s) k

  abbrev pub ◌>>◌ : Cmd S A → Cmd S B → Cmd S B
  m >> n = m >>= λ _. n

-- The current state, and a change of it.
abbrev pub get : {S : Type 0} → Cmd S S
get s = ok s s

abbrev pub modify : {S : Type 0} → (S → S) → Cmd S (Unit {0})
modify f s = ok tt (f s)

-- `*p`: a fault at ENULL
abbrev pub deref : {S A : Type 0} → Option A → Cmd S A
deref none = exit fault
deref (some a) = ok a

-- A command on a part of a larger state.
abbrev pub zoom : {S T A : Type 0} → (T → S) → (T → S → T) → Cmd S A → Cmd T A
zoom part put m t = elim (m (part t)) [ ok a s ↦ ok a (put t s) | exit e s ↦ exit e (put t s) ]

-- A run that returns, with a postcondition on its result and its final state.
pub data Returns {S A : Type 0} (P : A → S → Type 0) : Run S A → Type 0 where
  returns : {a : A} {s : S} → P a s → Returns P (ok a s)

pub Returns-bind :
    {S A B : Type 0} {P : A → S → Type 0} {Q : B → S → Type 0} {r : Run S A} {k : A → Cmd S B}
    → Returns P r
    → ((a : A) (s : S) → P a s → Returns Q (k a s))
    → Returns Q (and_then r k)
Returns-bind (returns p) next = next _ _ p

pub Returns-mono :
    {S A : Type 0} {P Q : A → S → Type 0} {r : Run S A}
    → Returns P r
    → ((a : A) (s : S) → P a s → Q a s)
    → Returns Q r
Returns-mono (returns p) weaken = returns (weaken _ _ p)

-- A command on a part of the state, with the postcondition on that part.
pub zoom-Returns :
    {S T A : Type 0} {P : A → S → Type 0} (part : T → S) (put : T → S → T) (m : Cmd S A) (t : T)
    → Returns P (m (part t))
    → Returns (λ a u. (s : S) × ((u ≡ put t s) × P a s)) (zoom part put m t)
zoom-Returns {S} {T} {A} {P} part put m t h = go (m (part t)) h
  where
    go :
        (r : Run S A)
        → Returns P r
        → Returns
            (λ a u. (s : S) × ((u ≡ put t s) × P a s))
            (elim r as (λ _. Run T A) [ ok a s ↦ ok a (put t s) | exit e s ↦ exit e (put t s) ])
    go _ (returns {s = s} p) = returns (s, (refl, p))

-- A run that ends by loading a processor state, with a postcondition on it and the final state.
pub data Loads {S A : Type 0} (P : State → S → Type 0) : Run S A → Type 0 where
  loads : {x : State} {s : S} → P x s → Loads P (exit (load x) s)
