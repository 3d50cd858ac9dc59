-- ===== src/Support/Calls2.antt =====
-- support/part2/slsyscall2.c: the virtual semaphores, SYS11 and SYS12, and the disk, SYS14 and
-- SYS15.
pub mod Waits
use hoca_operating_system.Prelude.{
  ℕ, true, false, none, some, Option, [], ◌∷◌, ℤ, pos, if◌then◌else◌, ◌==◌, same_int, lt_int,
  is_neg, leb, first_hit, ltb, bits, inc, dec, sub32, update,
}
use hoca_operating_system.Machine.{Addr, maxproc, iowrite}
use hoca_operating_system.Support.State.{Support, protected_sem, sem_disk, disk_sem, virtual_sem}
use hoca_operating_system.Support.Prog.{
  Prog, done, ◌>>=◌, ◌>>◌, see, set, ask, sys3, p_sem, v_sem, lock_op, unlock_op,
}
use hoca_operating_system.Support.Page.{ioread}
use hoca_operating_system.Support.Calls1.{old_reg, answer, terminate, copy_in, copy_out}

-- `*a = v`
abbrev pub write_word : Addr → ℤ → Support → Support
write_word a v s = record s { word = update s.word a v }

-- The first entry of vs_arr that has the address `a`.
unfoldable pub find_virtual : Addr → (ℕ → Addr) → Option ℕ
find_virtual a vs = first_hit maxproc 0 (λ i. vs i == a)

unfoldable pub p_virtual_semaphore : ℕ → Prog (Unit {0})
unfolding find_virtual terminate
p_virtual_semaphore num = do
  p_sem protected_sem
  s ← see
  let a = bits (old_reg num 4 s)
  let v = s.word a
  elim (leb s.linked.seg2 a) [
    | false ↦ do v_sem protected_sem; terminate num
    | true ↦ elim (lt_int (pos 0) v) [
      | true ↦ do set (λ t. write_word a (dec (t.word a)) t); v_sem protected_sem
      | false ↦ elim (find_virtual 0 s.vs_arr) [
        | none ↦ done tt
        | some i ↦ do
          set (λ t. write_word a (dec (t.word a)) (record t { vs_arr = update t.vs_arr i a }))
          v_sem protected_sem
          p_sem (virtual_sem i)
      ]
    ]
  ]

unfoldable pub v_virtual_semaphore : ℕ → Prog (Unit {0})
unfolding find_virtual terminate
v_virtual_semaphore num = do
  p_sem protected_sem
  s ← see
  let a = bits (old_reg num 4 s)
  let v = s.word a
  elim (leb s.linked.seg2 a) [
    | false ↦ do v_sem protected_sem; terminate num
    | true ↦ elim (is_neg v) [
      | false ↦ do set (λ t. write_word a (inc (t.word a)) t); v_sem protected_sem
      | true ↦ elim (find_virtual a s.vs_arr) [
        | none ↦ done tt
        | some i ↦ do
          set (λ t. write_word a (inc (t.word a)) (record t { vs_arr = update t.vs_arr i 0 }))
          v_sem protected_sem
          v_sem (virtual_sem i)
      ]
    ]
  ]

-- What both disk calls do between the request and the answer.
unfoldable pub request : ℕ → ℕ → Prog (Unit {0})
request num op = do
  set (λ s. record s {
    ds_arr =
        update s.ds_arr num
          (record { track = old_reg num 4 s; sector = old_reg num 2 s; request_op = pos op });
  })
  ask (sys3 (lock_op (disk_sem num) ∷ unlock_op sem_disk ∷ []))

-- `Terminate` does not return.
unfoldable pub check_buffer : ℕ → Prog (Unit {0})
unfolding terminate
check_buffer num = do
  s ← see
  if ltb (bits (old_reg num 3 s)) s.linked.seg1 then terminate num else done tt

unfoldable pub disk_put : ℕ → Prog (Unit {0})
unfolding check_buffer copy_in request
disk_put num = do
  s ← see
  let buf = bits (old_reg num 3 s)
  check_buffer num
  set (copy_in num buf 512)
  request num iowrite
  t ← see
  let stat = (t.dev_arr 7).d_stat
  set (answer num (if same_int stat (pos 0) then pos 512 else sub32 (pos 0) stat))

unfoldable pub disk_get : ℕ → Prog (Unit {0})
unfolding check_buffer copy_out request
disk_get num = do
  s ← see
  let buf = bits (old_reg num 3 s)
  check_buffer num
  request num ioread
  t ← see
  let stat = (t.dev_arr 7).d_stat
  if same_int stat (pos 0)
      then set (λ u. answer num (pos 512) (copy_out num buf 512 u))
      else set (answer num (sub32 (pos 0) stat))
