-- ===== src/Support/PageInit/Tables.antt =====
-- The page tables of the two daemons after pageinit of support/part2/page.c, entry by entry.
use hoca_operating_system.Prelude.{
  ℕ, ◌+◌, ◌<◌, ◌/◌, Bool, true, false, pos, ◌&&◌, ◌||◌, ◌≡◌, refl, sym, subst, ◌∙◌, ap, arith,
  if◌then◌else◌, ◌==◌, leb, ltb, count_up, count_up-each, count_up-keeps, ◌⊎◌, inl, inr, Bool-cases,
}
use hoca_operating_system.Support.State.{Support, Pd, Linked, Frames, pagesize}
use hoca_operating_system.Support.Page.{set_page_present}
use hoca_operating_system.Support.PageInit.{
  layout, is_program_page, is_device_page, daemon_absent, daemon_page, page_tables, clear_requests,
  clear_frames, clear_disk, daemon_segs, start_value,
}

abbrev present_at : ℕ → Pd
present_at i = record { pd_p = 1; pd_r = 1; pd_frame = i }

abbrev absent_at : ℕ → Pd
absent_at i = record { pd_p = 0; pd_r = 1; pd_frame = i }

-- The entry of page `i` for a daemon with its stack at `own`; that at the other's stack, `other`, is left.
abbrev pub daemon_entry : Linked → (own other : ℕ) → ℕ → Pd → Pd
daemon_entry l own other i old =
    if is_program_page l i || is_device_page i
    then present_at i
    else if i == own
    then present_at i
    else if i == other
    then old
    else absent_at i

-- What the loop over the pages depends on.
abbrev Fixed : Linked → Frames → Support → Type 0
Fixed l f s = (s.linked ≡ l) × (s.frames ≡ f)

abbrev frame_of : ℕ → Bool → Bool → Bool → Support → Support
frame_of k true b c s = set_page_present k 0 s
frame_of k false true c s = set_page_present k 1 s
frame_of k false false true s = set_page_present k 2 s
frame_of k false false false s = daemon_absent k s

frame_of-Fixed :
    (l : Linked) (f : Frames) (k : ℕ) (a b c : Bool) (s : Support)
    → Fixed l f s
    → Fixed l f (frame_of k a b c s)
unfolding set_page_present
frame_of-Fixed l f k true b c s h = h
frame_of-Fixed l f k false true c s h = h
frame_of-Fixed l f k false false true s h = h
frame_of-Fixed l f k false false false s h = h

frame_of-page :
    (k : ℕ) (a b c : Bool) (s : Support) (j : ℕ)
    → (frame_of k a b c s).page_daemon_page j ≡ (
        if j == k
        then if a
          then present_at k
          else if b
          then s.page_daemon_page j
          else if c
          then present_at k
          else absent_at k
        else s.page_daemon_page j)
unfolding set_page_present
frame_of-page k true b c s j = refl
frame_of-page k false true c s j = ground arith
frame_of-page k false false true s j = refl
frame_of-page k false false false s j = refl

frame_of-disk :
    (k : ℕ) (a b c : Bool) (s : Support) (j : ℕ)
    → (frame_of k a b c s).disk_daemon_page j ≡ (
        if j == k
        then if a
          then present_at k
          else if b
          then present_at k
          else if c
          then s.disk_daemon_page j
          else absent_at k
        else s.disk_daemon_page j)
unfolding set_page_present
frame_of-disk k true b c s j = refl
frame_of-disk k false true c s j = refl
frame_of-disk k false false true s j = ground arith
frame_of-disk k false false false s j = refl

daemon_page-frame_of :
    (k : ℕ) (s : Support)
    → daemon_page k s
      ≡ frame_of k
          (is_program_page s.linked k || is_device_page k)
          (k == s.frames.sdiskframe)
          (k == s.frames.spagedframe)
          s
unfolding daemon_page
daemon_page-frame_of k s =
    go (is_program_page s.linked k || is_device_page k) (k == s.frames.sdiskframe)
      (k == s.frames.spagedframe)
  where
    go :
        (a b c : Bool)
        → (if a
            then set_page_present k 0 s
            else if b
            then set_page_present k 1 s
            else if c
            then set_page_present k 2 s
            else daemon_absent k s)
          ≡ frame_of k a b c s
    go true b c = refl
    go false true c = refl
    go false false true = refl
    go false false false = refl

-- What the loops before that over the pages leave alone.
abbrev Untouched : Support → Support → Type 0
Untouched s t =
    Fixed s.linked s.frames t
    × (t.page_daemon_page ≡ s.page_daemon_page)
    × (t.disk_daemon_page ≡ s.disk_daemon_page)

before-Untouched :
    (s : Support) → Untouched s (daemon_segs (clear_disk (clear_frames (clear_requests s))))
unfolding daemon_segs clear_disk clear_frames clear_requests
before-Untouched s =
    count_up-keeps _ (Untouched s) (λ k u h. h) 31 1 _
      (count_up-keeps _ (Untouched s) (λ k u h. count_up-keeps _ (Untouched s) (λ j v i. i) 8 0 u h)
        100 0 _
        (count_up-keeps _ (Untouched s) (λ k u h. h) 20 0 _
          (count_up-keeps _ (Untouched s) (λ k u h. h) 20 0 s ((refl, refl), refl, refl))))

-- The order of the tests of the two stacks does not matter.
same_order :
    (l : Linked) (own other k : ℕ) (old : Pd)
    → (own == other) ≡ false
    → (if is_program_page l k || is_device_page k
        then present_at k
        else if k == other
        then old
        else if k == own
        then present_at k
        else absent_at k)
      ≡ daemon_entry l own other k old
same_order l own other k old apart =
    ap (λ x. if is_program_page l k || is_device_page k then present_at k else x)
      (ground (arith, apart))

module _ (l : Linked) (f : Frames) (apart : (f.spagedframe == f.sdiskframe) ≡ false) where
  daemon_page-Fixed : (k : ℕ) (s : Support) → Fixed l f s → Fixed l f (daemon_page k s)
  daemon_page-Fixed k s h =
      subst (Fixed l f) (sym (daemon_page-frame_of k s)) (frame_of-Fixed l f k _ _ _ s h)

  daemon_page-page :
      (k : ℕ) (s : Support) (j : ℕ)
      → Fixed l f s
      → (daemon_page k s).page_daemon_page j ≡ (
          if j == k
          then daemon_entry l f.spagedframe f.sdiskframe j (s.page_daemon_page j)
          else s.page_daemon_page j)
  daemon_page-page k s j h =
      ap (λ (u : Support). u.page_daemon_page j) (daemon_page-frame_of k s)
      ∙ frame_of-page k _ _ _ s j
      ∙ at_this (Bool-cases (j == k))
    where
      at_this :
          ((j == k) ≡ true) ⊎ ((j == k) ≡ false)
          → (if j == k
              then if is_program_page s.linked k || is_device_page k
                then present_at k
                else if k == s.frames.sdiskframe
                then s.page_daemon_page j
                else if k == s.frames.spagedframe
                then present_at k
                else absent_at k
              else s.page_daemon_page j)
            ≡ (if j == k
                then daemon_entry l f.spagedframe f.sdiskframe j (s.page_daemon_page j)
                else s.page_daemon_page j)
      at_this (inr miss) = rw miss refl
      at_this (inl hit) =
          let e : j ≡ k = ground arith in
          rw hit (
            rw (h.0, h.1, e)
              (same_order l f.spagedframe f.sdiskframe k (s.page_daemon_page k) apart))

  daemon_page-disk :
      (k : ℕ) (s : Support) (j : ℕ)
      → Fixed l f s
      → (daemon_page k s).disk_daemon_page j ≡ (
          if j == k
          then daemon_entry l f.sdiskframe f.spagedframe j (s.disk_daemon_page j)
          else s.disk_daemon_page j)
  daemon_page-disk k s j h =
      ap (λ (u : Support). u.disk_daemon_page j) (daemon_page-frame_of k s)
      ∙ frame_of-disk k _ _ _ s j
      ∙ at_this (Bool-cases (j == k))
    where
      at_this :
          ((j == k) ≡ true) ⊎ ((j == k) ≡ false)
          → (if j == k
              then if is_program_page s.linked k || is_device_page k
                then present_at k
                else if k == s.frames.sdiskframe
                then present_at k
                else if k == s.frames.spagedframe
                then s.disk_daemon_page j
                else absent_at k
              else s.disk_daemon_page j)
            ≡ (if j == k
                then daemon_entry l f.sdiskframe f.spagedframe j (s.disk_daemon_page j)
                else s.disk_daemon_page j)
      at_this (inr miss) = rw miss refl
      at_this (inl hit) = let e : j ≡ k = ground arith in rw hit (rw (h.0, h.1, e) refl)

  unfoldable Entries : Support → Support → ℕ → Type 0
  Entries s t i =
      (t.page_daemon_page i ≡ daemon_entry l f.spagedframe f.sdiskframe i (s.page_daemon_page i))
      × (t.disk_daemon_page i ≡ daemon_entry l f.sdiskframe f.spagedframe i (s.disk_daemon_page i))

  loop-Entries :
      (s : Support) (i : ℕ) → Fixed l f s → i < 256 → Entries s (count_up 256 0 daemon_page s) i
  unfolding Entries
  loop-Entries s i h small = (
    count_up-each daemon_page (λ u. u.page_daemon_page)
          (λ j. daemon_entry l f.spagedframe f.sdiskframe j) (Fixed l f) daemon_page-Fixed
          daemon_page-page 256 0 s h i
        ∙ rw (in_range i small) refl,
    count_up-each daemon_page (λ u. u.disk_daemon_page)
          (λ j. daemon_entry l f.sdiskframe f.spagedframe j) (Fixed l f) daemon_page-Fixed
          daemon_page-disk 256 0 s h i
        ∙ rw (in_range i small) refl,
  )
    where
      in_range : (i : ℕ) → i < 256 → (leb 0 i && ltb i 256) ≡ true
      in_range i small = ground (arith, small)

-- pageinit gives both daemons the pages of the program and of the device registers, and each its own
-- stack: the loop over the pages leaves in the table of a daemon, for every page below 256, the
-- entry that depends on that page alone; the page of the other daemon's stack keeps the entry
-- from before.
pub page_tables-daemon_entry :
    (s : Support) (i : ℕ)
    → i < 256
    → ((page_tables s).page_daemon_page i
        ≡ daemon_entry s.linked
            (s.linked.end_of_bss / pagesize + 13)
            (s.linked.end_of_bss / pagesize + 14)
            i
            (s.page_daemon_page i))
      × ((page_tables s).disk_daemon_page i
          ≡ daemon_entry s.linked
              (s.linked.end_of_bss / pagesize + 14)
              (s.linked.end_of_bss / pagesize + 13)
              i
              (s.disk_daemon_page i))
unfolding page_tables Entries
page_tables-daemon_entry s i small =
    let start : Support = record s {
      frames = layout (s.linked.end_of_bss / pagesize);
      value = λ x. start_value x (s.value x);
      pf_ctr = pos 0;
    } in
    let base = daemon_segs (clear_disk (clear_frames (clear_requests start))) in
    let same = before-Untouched start in
    let done =
      loop-Entries s.linked (layout (s.linked.end_of_bss / pagesize)) (ground arith) base i same.0
        small in
    (
      done.0
          ∙ ap
              (λ (u : ℕ → Pd).
                daemon_entry s.linked (s.linked.end_of_bss / pagesize + 13)
                  (s.linked.end_of_bss / pagesize + 14) i (u i))
              same.1,
      done.1
          ∙ ap
              (λ (u : ℕ → Pd).
                daemon_entry s.linked (s.linked.end_of_bss / pagesize + 14)
                  (s.linked.end_of_bss / pagesize + 13) i (u i))
              same.2,
    )
