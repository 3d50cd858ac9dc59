-- ===== src/Support/PageDaemon.antt =====
-- support/part2/page.c: pagedaemon, which frees page frames by second chance.
use hoca_operating_system.Prelude.{
  ℕ, zero, suc, ◌+◌, ◌*◌, ◌&&◌, not, true, false, none, some, pos, negsuc, if◌then◌else◌, ◌==◌,
  same_int, lt_int,
}
use hoca_operating_system.Machine.{iowrite}
use hoca_operating_system.Support.State.{
  Support, Pd, PageFrame, sem_mm, sem_page, sem_pf, maxframes, high, modify_private, modify_shared,
  modify_frame,
}
use hoca_operating_system.Support.Prog.{
  Prog, done, ◌>>=◌, ◌>>◌, see, set, p_sem, v_sem, leave, sys2, undefined, out_of_rounds,
}
use hoca_operating_system.Support.Page.{index_of, get_disk_pos, page_in_out_helper}

-- The track and the sector for frame `i`: where it was read from, or a free position.
unfoldable pub write_position : ℕ → Prog (ℕ × ℕ)
unfolding get_disk_pos
write_position i = do
  s ← see
  let t = (s.pfs_arr i).disk_track
  let c = (s.pfs_arr i).disk_sector
  if not (same_int t (negsuc 0)) && not (same_int c (negsuc 0))
      then done (index_of t, index_of c)
      else do
        let (at, s') = get_disk_pos s
        set (λ t. record t { disk = s'.disk })
        elim at [ none ↦ leave undefined | some p ↦ done p ]

-- The page in frame `i`, whose descriptor `read` and `write` reach: it loses its reference bit,
-- or goes to the disk. A sector is below 8, so `(track << 3) | sector` is a sum.
unfoldable pub age : ℕ → (Support → Pd) → ((Pd → Pd) → Support → Support) → Prog (Unit {0})
unfolding write_position page_in_out_helper
age i read write = do
  s ← see
  if not ((read s).pd_p == 1)
      then done tt
      else if (read s).pd_r == 1
      then set (write (λ d. record d { pd_r = 0 }))
      else do
        set (write (λ d. record d { pd_p = 0 }))
        (track, sector) ← write_position i
        set (write (λ d. record d { pd_frame = track * 8 + sector }))
        page_in_out_helper (pos track) sector iowrite (pos (s.frames.pf_start + i))
        set (modify_frame i (λ f. record f { pid = negsuc 0 }))
        v_sem sem_pf

-- What the loop over the frames does between its P and V, for the entry `f` of frame `i`.
unfoldable pub age_frame : ℕ → PageFrame → Prog (Unit {0})
unfolding age
age_frame i f =
    let n = index_of f.pid in
    let page = index_of f.page in
    if same_int f.pid (negsuc 0)
    then done tt
    else if same_int f.seg (pos 1)
    then age i (λ t. (t.mm n).unprivileged_page page) (modify_private n page)
    else if same_int f.seg (pos 2)
    then age i (λ t. t.shared_page page) (modify_shared page)
    else done tt

unfoldable pub visit : ℕ → Prog (Unit {0})
unfolding age_frame
visit i = do p_sem sem_mm; s ← see; age_frame i (s.pfs_arr i); v_sem sem_mm

unfoldable pub sweep : ℕ → ℕ → Prog (Unit {0})
unfolding visit
sweep zero i = done tt
sweep (suc n) i = do visit i; sweep n (i + 1)

-- `while (sem_pf < HIGH)`, for at most `n` sweeps.
unfoldable pub refill : ℕ → Prog (Unit {0})
unfolding sweep
refill zero = leave out_of_rounds
refill (suc n) = do
  s ← see
  elim (lt_int (s.value sem_pf) (pos high)) [
    | false ↦ done tt
    | true ↦ do sweep maxframes 0; refill n
  ]

-- The daemon for at most `n` rounds of at most `m` sweeps.
unfoldable pub page_daemon : ℕ → ℕ → Prog (Unit {0})
unfolding refill
page_daemon zero m = leave out_of_rounds
page_daemon (suc n) m = do
  s ← see
  elim (lt_int (pos 0) s.p_alive) [
    | false ↦ leave sys2
    | true ↦ do p_sem sem_page; refill m; page_daemon n m
  ]
