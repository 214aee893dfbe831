-- ===== src/Pager/Chosen.antt =====
-- mm/pager.c: the frame that is chosen is one of the frames in use.
use os_curriculum_design.Prelude.{
  ℕ, zero, suc, ◌+◌, ◌*◌, ◌≤◌, ◌<◌, arith, Option, none, some, if_both, inl, inr, Bool-cases,
  Option-cases, subst,
}
use os_curriculum_design.Pager.{Machine, Pager, page_at, page_in_frame, frame_limit}
use os_curriculum_design.Pager.Victim.{
  page_was_accessed, sample_page_usage, is_older, clock_scan, lru_scan, choose_clock_victim_frame,
  choose_lru_victim_frame, choose_victim_frame,
}
use os_curriculum_design.Pager.Lru.{algorithm_cases}

module _ {E : Type 0} (m : Machine E) where
  clock_scan-lt :
      (left : ℕ) (s : Pager E) → s.clock_hand < frame_limit → (clock_scan m left s).1 < frame_limit
  unfolding clock_scan
  clock_scan-lt zero s lt = lt
  clock_scan-lt (suc left) s lt =
      let i = page_in_frame s s.clock_hand in
      elim (Bool-cases (page_at s i).pinned) [
        | inl pinned ↦ simp (pinned, clock_scan) (clock_scan-lt left _ (omega arith))
        | inr loose ↦ elim (Bool-cases (page_was_accessed m s i)) [
          | inl used ↦ simp (loose, used, clock_scan) (clock_scan-lt left _ (omega arith))
          | inr quiet ↦ simp (loose, quiet, clock_scan) lt
        ]
      ]

  -- The frame found, if any, is below the bound.
  abbrev IsBelow : ℕ → Option (ℕ × ℕ) → Type 0
  IsBelow n none = Unit {0}
  IsBelow n (some (slot, tick)) = slot < n

  lru_scan-IsBelow :
      (n count slot : ℕ) (s : Pager E) (best : Option (ℕ × ℕ))
      → slot + count ≤ n
      → IsBelow n best
      → IsBelow n (lru_scan m count slot s best).1
  unfolding lru_scan
  lru_scan-IsBelow n zero slot s best le h = h
  lru_scan-IsBelow n (suc count) slot s best le h =
      let i = page_in_frame s slot in
      let sampled = sample_page_usage m s i in
      let tick = (page_at sampled i).last_used_tick in
      elim (Bool-cases (page_at s i).pinned) [
        | inl pinned ↦
            rw (pinned, lru_scan) (lru_scan-IsBelow n count (suc slot) s best (omega arith) h)
        | inr loose ↦
            rw (loose, lru_scan)
              (lru_scan-IsBelow n count (suc slot) sampled _ (omega arith)
                (if_both (IsBelow n) (is_older best tick) (some (slot, tick)) best (omega arith) h))
      ]

  choose_lru-lt :
      (s : Pager E) → 0 < s.resident_frames → (choose_lru_victim_frame m s).1 < s.resident_frames
  unfolding choose_lru_victim_frame
  choose_lru-lt s some_used =
      let below = lru_scan-IsBelow s.resident_frames s.resident_frames 0 s none (omega arith) tt in
      elim (Option-cases (lru_scan m s.resident_frames 0 s none).1) [
        | inl e ↦ rw (e, choose_lru_victim_frame) some_used
        | inr (best, e) ↦
            rw (e, choose_lru_victim_frame) (subst (IsBelow s.resident_frames) e below)
      ]

  -- With all frames in use, the frame chosen is one of them.
  pub choose_victim_frame-lt :
      (s : Pager E)
      → s.clock_hand < frame_limit
      → frame_limit ≤ s.resident_frames
      → (choose_victim_frame m s).1 < s.resident_frames
  unfolding choose_victim_frame choose_clock_victim_frame
  choose_victim_frame-lt s lt full = elim (algorithm_cases s.algorithm) [
    | inl e ↦
        let below = clock_scan-lt (frame_limit * 2) s lt in
        simp (e, choose_victim_frame) (omega (arith, below))
    | inr e ↦ simp (e, choose_victim_frame) (choose_lru-lt s (omega arith))
  ]
