-- ===== src/Support/Cron.antt =====
-- support/part1/support.c: p1a and the cron process, which ends the delays of the terminals.
use hoca_operating_system.Prelude.{
  ℕ, zero, suc, ◌+◌, Bool, true, false, ◌||◌, pos, if◌then◌else◌, is_neg, lt_int, sub32,
}
use hoca_operating_system.Support.State.{Support, cron_sem, delay_sem, ter}
use hoca_operating_system.Support.Prog.{
  Prog, done, ◌>>=◌, ◌>>◌, see, ask, sys7, p_sem, v_sem, read_clock, store_state, leave, sys2,
  out_of_rounds,
}
use hoca_operating_system.Support.Handlers.{start_terminals}

-- `d_sem[i].sem_value < 0`
abbrev pub is_delayed : Support → ℕ → Bool
is_delayed s i = is_neg (s.value (delay_sem i))

-- A terminal that has waited longer than its delay goes on.
unfoldable pub wake_delayed : ℕ → Prog (Unit {0})
wake_delayed i = do
  s ← see
  elim (is_delayed s i) [
    | false ↦ done tt
    | true ↦ do
      now ← read_clock
      t ← see
      if lt_int (t.d_sem i).d_time (sub32 now (t.d_sem i).delay_start)
          then v_sem (delay_sem i)
          else done tt
  ]

-- The two loops over `n` terminals from `i` on.
unfoldable pub wake_all : ℕ → ℕ → Prog (Unit {0})
unfolding wake_delayed
wake_all zero i = done tt
wake_all (suc n) i = do wake_delayed i; wake_all n (i + 1)

unfoldable pub any_delayed : ℕ → ℕ → Bool → Prog Bool
any_delayed zero i clock = done clock
any_delayed (suc n) i clock = do s ← see; any_delayed n (i + 1) (clock || is_delayed s i)

-- The body of the loop of cron.
unfoldable pub cron_round : Prog (Unit {0})
unfolding wake_all any_delayed
cron_round = do
  wake_all ter 0
  clock ← any_delayed ter 0 false
  if clock then ask sys7 else p_sem cron_sem

-- The process for at most `n` rounds.
unfoldable pub cron : ℕ → Prog (Unit {0})
unfolding cron_round
cron zero = leave out_of_rounds
cron (suc n) = do
  s ← see
  elim (lt_int (pos 0) s.p_alive) [ false ↦ leave sys2 | true ↦ do cron_round; cron n ]

unfoldable pub p1a_process : ℕ → Prog (Unit {0})
unfolding start_terminals cron
p1a_process n = do cpu ← store_state; start_terminals ter 0 cpu; cron n
