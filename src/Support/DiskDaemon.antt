-- ===== src/Support/DiskDaemon.antt =====
-- support/part2/slsyscall2.c: the disk daemon, an elevator over the requests of the terminals.
pub mod Nearest
pub mod Found
use hoca_operating_system.Prelude.{
  ℕ, zero, suc, ◌+◌, ◌*◌, ◌%◌, Bool, true, false, ◌&&◌, not, ℤ, pos, negsuc, if◌then◌else◌,
  same_int, is_neg, lt_int, bits, of_bits, add32, sub32,
}
use hoca_operating_system.Machine.{Addr, maxproc}
use hoca_operating_system.Support.State.{Support, sem_disk, disk_sem, modify_dev}
use hoca_operating_system.Support.Prog.{
  Prog, done, ◌>>=◌, ◌>>◌, see, set, ask, sys8, p_sem, v_sem, leave, sys2, undefined, out_of_rounds,
}
use hoca_operating_system.Support.Page.{index_of, ioseek}

-- `x * 8`
abbrev pub times8 : ℤ → ℤ
times8 x = of_bits (bits x * 8 % 4294967296)

-- How far the request of `i` lies ahead of the position in the direction `dir`.
unfoldable pub distance : ℤ → ℤ → ℕ → Support → ℕ → ℤ
distance track sector zero s i =
    sub32 (add32 (times8 (sub32 (s.ds_arr i).track track)) (s.ds_arr i).sector) sector
distance track sector (suc dir) s i =
    sub32 (add32 (times8 (sub32 track (s.ds_arr i).track)) sector) (s.ds_arr i).sector

-- One round of the loops of tasker_helper: `far` is the distance of request `i`.
abbrev pub nearer : Bool → ℤ → ℕ → ℤ × ℤ → ℤ × ℤ
nearer waits far i (rv, least) =
    if waits && (not (is_neg far) && lt_int far least) then (pos i, far) else (rv, least)

-- The loop over `n` requests from `i` on.
unfoldable pub nearest : ℕ → ℕ → (ℕ → Bool) → (ℕ → ℤ) → ℤ × ℤ → ℤ × ℤ
nearest zero i waits far best = best
nearest (suc n) i waits far best = nearest n (i + 1) waits far (nearer (waits i) (far i) i best)

-- `ds_arr[i].sem_value == -1`
abbrev pub is_waiting : Support → ℕ → Bool
is_waiting s i = same_int (s.value (disk_sem i)) (negsuc 0)

unfoldable pub tasker_helper : ℤ → ℤ → ℕ → Support → ℤ
unfolding nearest distance
tasker_helper track sector dir s =
    (nearest maxproc 0 (is_waiting s) (distance track sector dir s) (negsuc 0, pos 10000)).0

-- `dir ^ 1`, for the directions 0 and 1
abbrev pub turn : ℕ → ℕ
turn zero = 1
turn (suc dir) = 0

-- The request to serve and the direction to go on in.
unfoldable pub choose : ℤ → ℤ → ℕ → Support → ℤ × ℕ
unfolding tasker_helper
choose track sector dir s =
    let num = tasker_helper track sector dir s in
    if same_int num (negsuc 0)
    then (tasker_helper track sector (turn dir) s, turn dir)
    else (num, dir)

-- The transfer after a seek; `at num` is the address of `mm[num].buf`.
unfoldable pub transfer : (ℕ → Addr) → ℕ → ℤ → Prog (Unit {0})
transfer at num sector = do
  set (λ s.
      modify_dev 7
        (λ d. record d { d_dadd = sector; d_badd = at num; d_op = bits (s.ds_arr num).request_op })
        s)
  ask (sys8 7)

-- A round of the daemon after its P; the result is the position and the direction.
unfoldable pub serve : (ℕ → Addr) → ℤ → ℤ → ℕ → Prog ((ℤ × ℤ) × ℕ)
unfolding choose transfer
serve at track sector dir = do
  s ← see
  let (num, dir') = choose track sector dir s
  if is_neg num then leave undefined else done tt
  let i = index_of num
  let track' = (s.ds_arr i).track
  let sector' = (s.ds_arr i).sector
  set (modify_dev 7 (λ d. record d { d_dadd = track'; d_op = ioseek }))
  ask (sys8 7)
  t ← see
  if same_int (t.dev_arr 7).d_stat (pos 0) then transfer at i sector' else done tt
  v_sem (disk_sem i)
  done ((track', sector'), dir')

-- The daemon for at most `n` rounds.
unfoldable pub disk_daemon : ℕ → (ℕ → Addr) → ℤ → ℤ → ℕ → Prog (Unit {0})
unfolding serve
disk_daemon zero at track sector dir = leave out_of_rounds
disk_daemon (suc n) at track sector dir = do
  s ← see
  elim (lt_int (pos 0) s.p_alive) [
    | false ↦ leave sys2
    | true ↦ do
      p_sem sem_disk
      ((track', sector'), dir') ← serve at track sector dir
      disk_daemon n at track' sector' dir'
  ]
