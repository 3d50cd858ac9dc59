-- ===== src/Support/Page.antt =====
-- support/part2/page.c: page frames. getfreeframe is get_free_frame, and so on.
pub mod Claim
pub mod Place
pub mod Put
use hoca_operating_system.Prelude.{
  ℕ, Bool, zero, suc, ◌+◌, ◌*◌, ◌%◌, ◌&&◌, not, none, some, Option, [], ◌∷◌, ℤ, pos, negsuc,
  if◌then◌else◌, ◌==◌, same_int, first_hit, is_none, lt_int, bits, sub32, update,
}
use hoca_operating_system.Support.State.{
  Support, Pd, PageFrame, sem_mm, sem_floppy, sem_page, sem_pf, maxframes, low, pagesize, shift3,
  low3, modify_private, modify_shared, modify_frame, modify_dev,
}
use hoca_operating_system.Support.Prog.{
  Prog, done, ◌>>=◌, ◌>>◌, see, set, ask, sys3, sys8, p_sem, v_sem, lock_op, unlock_op,
}

-- A number of a process, a page or a frame as an index; a negative one, for which C reads before the
-- array, becomes 0.
abbrev pub index_of : ℤ → ℕ
index_of (pos n) = n
index_of (negsuc n) = 0

-- The first free sector of a track, which -1 marks.
unfoldable pub free_sector : (ℕ → ℤ) → Option ℕ
free_sector track = first_hit 8 0 (λ j. same_int (track j) (negsuc 0))

-- The first free position on `n` tracks from `i` on.
unfoldable pub free_position : ℕ → ℕ → (ℕ → ℕ → ℤ) → Option (ℕ × ℕ)
unfolding free_sector
free_position zero i disk = none
free_position (suc n) i disk = elim (free_sector (disk i)) [
  | none ↦ free_position n (i + 1) disk
  | some j ↦ some (i, j)
]

-- `disk[i][j] = v`
abbrev pub mark_sector : ℕ → ℕ → ℤ → Support → Support
mark_sector i j v s = record s { disk = update s.disk i (update (s.disk i) j v) }

-- The track and the sector that get_disk_pos takes; `none` is the end of its body, where it
-- returns no value.
unfoldable pub get_disk_pos : Support → Option (ℕ × ℕ) × Support
unfolding free_position
get_disk_pos s = elim (free_position 100 0 s.disk) [
  | none ↦ (none, s)
  | some (i, j) ↦ (some (i, j), mark_sector i j (pos 1) s)
]

-- A page that is present at its own number.
abbrev pub present_at : ℕ → Pd → Pd
present_at n d = record { pd_p = 1; pd_r = 1; pd_frame = n }

abbrev pub page_daemon_present : ℕ → Support → Support
page_daemon_present n s = record s {
  page_daemon_page = update s.page_daemon_page n (present_at n (s.page_daemon_page n));
}

abbrev pub disk_daemon_present : ℕ → Support → Support
disk_daemon_present n s = record s {
  disk_daemon_page = update s.disk_daemon_page n (present_at n (s.disk_daemon_page n));
}

unfoldable pub set_page_present : ℕ → ℕ → Support → Support
set_page_present n zero s = disk_daemon_present n (page_daemon_present n s)
set_page_present n (suc zero) s = disk_daemon_present n s
set_page_present n (suc (suc judge)) s = page_daemon_present n s

-- IOREAD and IOSEEK
abbrev pub ioread : ℕ
ioread = 0

abbrev pub ioseek : ℕ
ioseek = 2

-- `frame` is the number of a page frame in memory.
unfoldable pub page_in_out_helper : ℤ → ℕ → ℕ → ℤ → Prog (Unit {0})
page_in_out_helper track sector op frame = do
  ask (sys3 (unlock_op sem_mm ∷ lock_op sem_floppy ∷ []))
  set (modify_dev 11 (λ d. record d { d_dadd = track; d_op = ioseek }))
  ask (sys8 11)
  set (
      modify_dev 11 (λ d. record d {
        d_badd = bits frame * pagesize % 4294967296;
        d_dadd = pos sector;
        d_op = op;
      }))
  ask (sys8 11)
  ask (sys3 (lock_op sem_mm ∷ unlock_op sem_floppy ∷ []))

-- A free frame, and one that holds a page of the shared segment.
abbrev pub is_free : PageFrame → Bool
is_free f = same_int f.pid (negsuc 0)

abbrev pub holds_shared : ℤ → PageFrame → Bool
holds_shared page f = not (is_free f) && (same_int f.page page && same_int f.seg (pos 2))

unfoldable pub shared_frame : ℤ → (ℕ → PageFrame) → Option ℕ
shared_frame page fs = first_hit maxframes 0 (λ i. holds_shared page (fs i))

unfoldable pub free_frame : (ℕ → PageFrame) → Option ℕ
free_frame fs = first_hit maxframes 0 (λ i. is_free (fs i))

-- The entry of a frame that process `term` takes.
abbrev pub own : ℤ → ℤ → ℤ → PageFrame
own term page seg = record {
  pid = term;
  seg = seg;
  page = page;
  disk_track = negsuc 0;
  disk_sector = negsuc 0;
}

-- The second loop of getfreeframe: a free frame becomes the caller's.
unfoldable pub take_frame : ℤ → ℤ → ℤ → Support → ℤ × (Support → Support)
unfolding free_frame
take_frame term page seg s = elim (free_frame s.pfs_arr) [
  | none ↦ (negsuc 0, λ t. t)
  | some i ↦ (pos (s.frames.pf_start + i), modify_frame i (λ _. own term page seg))
]

-- What getfreeframe finds and does in the frames: the frame, or -1, and the change.
unfoldable pub claim_frame : ℤ → ℤ → ℤ → Support → ℤ × (Support → Support)
unfolding shared_frame take_frame
claim_frame term page seg s =
    elim (if same_int seg (pos 2) then shared_frame page s.pfs_arr else none) [
      | some i ↦ (pos (s.frames.pf_start + i), λ t. t)
      | none ↦ take_frame term page seg s
    ]

unfoldable pub get_free_frame : ℤ → ℤ → ℤ → Prog ℤ
unfolding claim_frame
get_free_frame term page seg = do
  p_sem sem_pf
  p_sem sem_mm
  s ← see
  let (rv, claim) = claim_frame term page seg s
  set claim
  t ← see
  if lt_int (pos low) (t.value sem_pf) then done tt else v_sem sem_page
  v_sem sem_mm
  done rv

-- The position on the disk that the descriptor of an absent page holds.
unfoldable pub page_position : ℤ → ℤ → ℤ → Support → ℤ
page_position term page seg s =
    if same_int seg (pos 1)
    then pos ((s.mm (index_of term)).unprivileged_page (index_of page)).pd_frame
    else if same_int seg (pos 2)
    then pos (s.shared_page (index_of page)).pd_frame
    else negsuc 0

-- `pd_r = 1` for a page of segment 1 or 2
unfoldable pub set_referenced : ℤ → ℤ → ℤ → Support → Support
set_referenced term page seg s =
    if same_int seg (pos 1)
    then modify_private (index_of term) (index_of page) (λ d. record d { pd_r = 1 }) s
    else if same_int seg (pos 2)
    then modify_shared (index_of page) (λ d. record d { pd_r = 1 }) s
    else s

unfoldable pub page_in : ℤ → ℤ → ℤ → ℤ → Prog (Unit {0})
unfolding page_position set_referenced page_in_out_helper
page_in term page seg pf = do
  p_sem sem_mm
  s ← see
  let at = page_position term page seg s
  page_in_out_helper (shift3 at) (low3 at) ioread pf
  set (λ t.
      modify_frame (index_of (sub32 pf (pos t.frames.pf_start)))
        (λ f. record f { disk_track = shift3 at; disk_sector = pos (low3 at) }) t)
  set (set_referenced term page seg)
  v_sem sem_mm

-- The loop of putframe over `n` frames from `i` on: the terminal's private frames become free.
unfoldable pub free_frames : ℕ → ℕ → ℤ → Prog (Unit {0})
free_frames zero i term = done tt
free_frames (suc n) i term = do
  s ← see
  if same_int (s.pfs_arr i).pid term && not (same_int (s.pfs_arr i).seg (pos 2))
      then (do set (modify_frame i (λ f. record f { pid = negsuc 0 })); v_sem sem_pf)
      else done tt
  free_frames n (i + 1) term

-- The loop over `n` pages from `i` on: the sectors of absent pages become free.
unfoldable pub free_sectors : ℕ → ℕ → ℤ → Support → Support
free_sectors zero i term s = s
free_sectors (suc n) i term s =
    let d = (s.mm (index_of term)).unprivileged_page i in
    let absent = (d.pd_r == 0) && ((d.pd_p == 0) && not (same_int (s.pfs_arr i).seg (pos 2))) in
    let at = pos d.pd_frame in
    free_sectors n (i + 1) term
      (if absent then mark_sector (index_of (shift3 at)) (low3 at) (negsuc 0) s else s)

unfoldable pub put_frame : ℤ → Prog (Unit {0})
unfolding free_frames free_sectors
put_frame term = do
  p_sem sem_mm
  free_frames maxframes 0 term
  set (free_sectors 32 0 term)
  v_sem sem_mm
