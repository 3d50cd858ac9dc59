-- ===== src/Support/Prog.antt =====
-- How a process of support/ runs: it reads and changes the shared variables, and makes system
-- calls, during and between which other processes run. h/util.h has the calls.
use hoca_operating_system.Prelude.{ℕ, ℤ, List, ◌∷◌, []}
use hoca_operating_system.Machine.{State, lock, unlock}
use hoca_operating_system.Support.State.{Support, Sem}

-- One operation of SYS3.
pub record Op : Type 0 where
  pub op : ℤ
  pub sem : Sem

-- `sys5 type` sets the areas of `sa` of this number for the trap type.
pub data Call : Type 0 where
  sys1 : State → Call
  sys3 : List Op → Call
  sys5 : ℕ → ℕ → Call
  sys7 : Call
  sys8 : ℕ → Call

-- `undefined` is the use of a value that C does not define.
pub data Leave : Type 0 where
  sys2 halted undefined out_of_rounds : Leave
  ldst : State → Leave

pub data Prog (A : Type 0) : Type 0 where
  done : A → Prog A
  look : (Support → Prog A) → Prog A
  change : (Support → Support) → Prog A → Prog A
  call : Call → Prog A → Prog A
  stck : (ℤ → Prog A) → Prog A
  stst : (State → Prog A) → Prog A
  leave : Leave → Prog A

infixl 5 ◌>>=◌ ◌>>◌
unfoldable pub ◌>>=◌ : {A B : Type 0} → Prog A → (A → Prog B) → Prog B
done a >>= k = k a
look f >>= k = look (λ s. f s >>= k)
change f p >>= k = change f (p >>= k)
call c p >>= k = call c (p >>= k)
stck f >>= k = stck (λ t. f t >>= k)
stst f >>= k = stst (λ t. f t >>= k)
leave l >>= k = leave l

abbrev pub ◌>>◌ : {A B : Type 0} → Prog A → Prog B → Prog B
p >> q = p >>= λ _. q

abbrev pub see : Prog Support
see = look done

abbrev pub set : (Support → Support) → Prog (Unit {0})
set f = change f (done tt)

abbrev pub ask : Call → Prog (Unit {0})
ask c = call c (done tt)

abbrev pub read_clock : Prog ℤ
read_clock = stck done

abbrev pub store_state : Prog State
store_state = stst done

-- `P(&s)` and `V(&s)` of support/part2/page.c
abbrev pub lock_op : Sem → Op
lock_op s = record { op = lock; sem = s }

abbrev pub unlock_op : Sem → Op
unlock_op s = record { op = unlock; sem = s }

abbrev pub p_sem : Sem → Prog (Unit {0})
p_sem s = ask (sys3 (lock_op s ∷ []))

abbrev pub v_sem : Sem → Prog (Unit {0})
v_sem s = ask (sys3 (unlock_op s ∷ []))

-- How a program ends, and the shared variables then.
pub data End (A : Type 0) : Type 0 where
  ended : A → Support → End A
  left : Leave → Support → End A

-- The calls that a program makes and how it ends, when `after c` is what the shared variables are once
-- the call `c` returns, and `now` and `cpu` are what it reads of the clock and the processor.
module _ {A : Type 0} (after : Call → Support → Support) (now : Support → ℤ)
    (cpu : Support → State) where
  unfoldable pub run : Prog A → Support → List Call × End A
  run (done a) s = ([], ended a s)
  run (look f) s = run (f s) s
  run (change f p) s = run p (f s)
  run (call c p) s = let rest = run p (after c s) in (c ∷ rest.0, rest.1)
  run (stck f) s = run (f (now s)) s
  run (stst f) s = run (f (cpu s)) s
  run (leave l) s = ([], left l s)
