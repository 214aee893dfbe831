-- ===== src/Pager/Victim.antt =====
-- mm/pager.c: the accessed bits, and the choice of the frame whose page is to go.
use os_curriculum_design.Prelude.{
  ℕ, zero, suc, ◌+◌, ◌*◌, ◌/◌, ◌%◌, Bool, true, false, Option, none, some, if◌then◌else◌, ltb, ◌==◌,
}
use os_curriculum_design.Pager.{
  Machine, Pager, clock, lru, frame_limit, page_at, page_in_frame, mark_page_used,
}

-- `VMM_PAGE_ACCESSED` is 0x20.
unfoldable pub entry_is_accessed : Option ℕ → Bool
entry_is_accessed none = false
entry_is_accessed (some entry) = entry / 32 % 2 == 1

abbrev pub advance_hand : {E : Type 0} → Pager E → Pager E
advance_hand s = record s { clock_hand = (s.clock_hand + 1) % frame_limit }

-- Whether a tick is better than the best one found.
unfoldable pub is_older : Option (ℕ × ℕ) → ℕ → Bool
is_older none tick = true
is_older (some (slot, best)) tick = ltb tick best

module _ {E : Type 0} (m : Machine E) where
  unfoldable pub page_was_accessed : Pager E → ℕ → Bool
  page_was_accessed s i =
      entry_is_accessed
        (Machine.page_entry m s.env (page_at s i).page_directory (page_at s i).virt_addr)

  abbrev pub clear_page_accessed : Pager E → ℕ → Pager E
  clear_page_accessed s i = record s {
    env = Machine.clear_accessed m s.env (page_at s i).page_directory (page_at s i).virt_addr;
  }

  unfoldable pub sample_page_usage : Pager E → ℕ → Pager E
  sample_page_usage s i =
      if page_was_accessed s i then clear_page_accessed (mark_page_used s i) i else s

  -- The loop of `choose_clock_victim_frame` with `left` frames still to be skipped.
  unfoldable pub clock_scan : ℕ → Pager E → Pager E × ℕ
  clock_scan zero s = (s, s.clock_hand)
  clock_scan (suc left) s =
      let i = page_in_frame s s.clock_hand in
      let passed = clock_scan left (advance_hand s) in
      let cleared = clock_scan left (advance_hand (clear_page_accessed s i)) in
      if (page_at s i).pinned
      then passed
      else if page_was_accessed s i
      then cleared
      else (s, s.clock_hand)

  unfoldable pub choose_clock_victim_frame : Pager E → Pager E × ℕ
  choose_clock_victim_frame s = clock_scan (frame_limit * 2) s

  -- The loop of `choose_lru_victim_frame`, for `count` more frames from `slot` on, with the best frame
  -- so far and its tick.
  unfoldable pub lru_scan : ℕ → ℕ → Pager E → Option (ℕ × ℕ) → Pager E × Option (ℕ × ℕ)
  lru_scan zero slot s best = (s, best)
  lru_scan (suc count) slot s best =
      let i = page_in_frame s slot in
      let sampled = sample_page_usage s i in
      let tick = (page_at sampled i).last_used_tick in
      let next = if is_older best tick then some (slot, tick) else best in
      let skipped = lru_scan count (suc slot) s best in
      let taken = lru_scan count (suc slot) sampled next in
      if (page_at s i).pinned then skipped else taken

  unfoldable pub choose_lru_victim_frame : Pager E → Pager E × ℕ
  choose_lru_victim_frame s =
      let (s₁, best) = lru_scan s.resident_frames 0 s none in
      elim best [ none ↦ (s₁, 0) | some (slot, tick) ↦ (s₁, slot) ]

  unfoldable pub choose_victim_frame : Pager E → Pager E × ℕ
  choose_victim_frame s = elim s.algorithm [
    | lru ↦ choose_lru_victim_frame s
    | clock ↦ choose_clock_victim_frame s
  ]

  -- The loop of `pager_sample_usage`.
  unfoldable pub sample_frames : ℕ → ℕ → Pager E → Pager E
  sample_frames zero slot s = s
  sample_frames (suc count) slot s =
      sample_frames count (suc slot) (sample_page_usage s (page_in_frame s slot))

  unfoldable pub pager_sample_usage : Pager E → Pager E
  pager_sample_usage s = if s.ready then sample_frames s.resident_frames 0 s else s
