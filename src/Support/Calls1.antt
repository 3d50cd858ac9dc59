-- ===== src/Support/Calls1.antt =====
-- support/part1/slsyscall1.c: the terminals, SYS9 and SYS10, delays and the time of day, SYS13 and
-- SYS16, and the end of a terminal process, SYS17. The caller's state is `sys_old` in `sa`.
use hoca_operating_system.Prelude.{
  ℕ, ◌+◌, ◌||◌, [], ◌∷◌, ℤ, pos, negsuc, if◌then◌else◌, same_int, bits, dec, sub32, update,
  count_up,
}
use hoca_operating_system.Machine.{Addr, set_reg, iowrite}
use hoca_operating_system.Syscall.{rounds}
use hoca_operating_system.Support.State.{Support, cron_sem, delay_sem, modify_mm, modify_dev}
use hoca_operating_system.Support.Prog.{
  Prog, done, ◌>>=◌, ◌>>◌, see, set, ask, sys3, sys8, v_sem, lock_op, unlock_op, read_clock, leave,
  sys2,
}
use hoca_operating_system.Support.Page.{ioread, put_frame}

-- `old_state->s_r[i]`, and `old_state->s_r[2] = v`
abbrev pub old_reg : ℕ → ℕ → Support → ℤ
old_reg num i s = (s.sa num).sys_old.s_r i

abbrev pub answer : ℕ → ℤ → Support → Support
answer num v s = record s {
  sa = update s.sa num (record (s.sa num) { sys_old = set_reg (s.sa num).sys_old 2 v });
}

-- `mm[num].buf[i] = a[i]` for `n` bytes, and back.
unfoldable pub copy_in : ℕ → Addr → ℕ → Support → Support
copy_in num a n =
    count_up n 0 (λ i s. modify_mm num (λ m. record m { buf = update m.buf i (s.byte (a + i)) }) s)

unfoldable pub copy_out : ℕ → Addr → ℕ → Support → Support
copy_out num a n =
    count_up n 0 (λ i s. record s { byte = update s.byte (a + i) ((s.mm num).buf i) })

-- The operation of a terminal with `mm[num].buf`, whose address is `a`, and the wait for it.
unfoldable pub terminal_io : ℕ → Addr → ℕ → Prog (Unit {0})
terminal_io num a op = do
  set (modify_dev num (λ d. record d { d_badd = a; d_op = op }))
  ask (sys8 num)

-- `-ENDOFINPUT`
abbrev pub end_of_input : ℤ
end_of_input = negsuc 6

-- `at num` is the address of `mm[num].buf`.
unfoldable pub read_from_terminal : (ℕ → Addr) → ℕ → Prog (Unit {0})
unfolding copy_out terminal_io
read_from_terminal at num = do
  s ← see
  let buf = bits (old_reg num 3 s)
  terminal_io num (at num) ioread
  t ← see
  let stat = (t.dev_arr num).d_stat
  let amnt = (t.dev_arr num).d_dadd
  if same_int stat (pos 0) || same_int stat (pos 7)
      then (if same_int amnt (pos 0)
          then set (answer num end_of_input)
          else set (λ u. answer num amnt (copy_out num buf (bits amnt) u)))
      else set (answer num (sub32 (pos 0) stat))

unfoldable pub write_to_terminal : (ℕ → Addr) → ℕ → Prog (Unit {0})
unfolding copy_in terminal_io
write_to_terminal at num = do
  s ← see
  let buf = bits (old_reg num 3 s)
  let count = old_reg num 4 s
  set (copy_in num buf (rounds count))
  set (modify_dev num (λ d. record d { d_dadd = count }))
  terminal_io num (at num) iowrite
  t ← see
  let stat = (t.dev_arr num).d_stat
  let amnt = (t.dev_arr num).d_dadd
  if same_int stat (pos 0)
      then set (answer num (if same_int amnt (pos 0) then end_of_input else amnt))
      else set (answer num (sub32 (pos 0) stat))

unfoldable pub delay : ℕ → Prog (Unit {0})
delay num = do
  set (λ s. record s {
    d_sem = update s.d_sem num (record (s.d_sem num) { d_time = old_reg num 4 s });
  })
  now ← read_clock
  set (λ s. record s { d_sem = update s.d_sem num (record (s.d_sem num) { delay_start = now }) })
  ask (sys3 (lock_op (delay_sem num) ∷ unlock_op cron_sem ∷ []))

unfoldable pub get_time_of_day : ℕ → Prog (Unit {0})
get_time_of_day num = do now ← read_clock; set (answer num now)

unfoldable pub terminate : ℕ → Prog (Unit {0})
unfolding put_frame
terminate num = do
  set (λ s. record s { p_alive = dec s.p_alive })
  put_frame (pos num)
  s ← see
  if same_int s.p_alive (pos 0) then v_sem cron_sem else done tt
  leave sys2
