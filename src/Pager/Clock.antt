-- ===== src/Pager/Clock.antt =====
-- mm/pager.c: the clock algorithm spares pinned pages.
use os_curriculum_design.Prelude.{
  ℕ, zero, suc, ◌+◌, ◌-◌, ◌%◌, ◌<◌, ◌≡◌, inl, inr, sym, subst, arith, Bool, false, Bool-cases,
}
use os_curriculum_design.Pager.{Machine, Pager, frame_limit, page_at, page_in_frame}
use os_curriculum_design.Pager.Victim.{
  entry_is_accessed, page_was_accessed, clear_page_accessed, advance_hand, clock_scan,
  choose_clock_victim_frame,
}

-- Clearing an accessed bit clears it, and sets none.
pub record ClearsAccessed {E : Type 0} (m : Machine E) : Type 0 where
  pub cleared :
      (e : E) (directory addr : ℕ)
      → entry_is_accessed
          (Machine.page_entry m (Machine.clear_accessed m e directory addr) directory addr)
        ≡ false
  pub others :
      (e : E) (directory addr directory' addr' : ℕ)
      → entry_is_accessed (Machine.page_entry m e directory' addr') ≡ false
      → entry_is_accessed
          (Machine.page_entry m (Machine.clear_accessed m e directory addr) directory' addr')
        ≡ false

module _ {E : Type 0} (m : Machine E) (laws : ClearsAccessed m) (k : ℕ) where
  abbrev is_pinned : Pager E → ℕ → Bool
  is_pinned s slot = (page_at s (page_in_frame s slot)).pinned

  -- Clearing the page under the hand leaves a page that was not accessed so.
  kept_clear :
      (s : Pager E) (i j : ℕ)
      → page_was_accessed m s j ≡ false
      → page_was_accessed m (clear_page_accessed m s i) j ≡ false
  unfolding page_was_accessed
  kept_clear s i j h = laws.others s.env _ _ _ _ h

  now_clear : (s : Pager E) (i : ℕ) → page_was_accessed m (clear_page_accessed m s i) i ≡ false
  unfolding page_was_accessed
  now_clear s i = laws.cleared s.env _ _

  -- A frame whose page is neither pinned nor accessed stops the hand, if nothing before it does.
  stops :
      (left ahead : ℕ) (s : Pager E)
      → ahead < left
      → s.clock_hand < frame_limit
      → (s.clock_hand + ahead) % frame_limit ≡ k
      → is_pinned s k ≡ false
      → page_was_accessed m s (page_in_frame s k) ≡ false
      → is_pinned s (clock_scan m left s).1 ≡ false
  unfolding clock_scan page_was_accessed
  stops zero ahead s more lt at loose quiet = absurd (omega (arith, more))
  stops (suc left) zero s more lt at loose quiet =
      let here : k ≡ s.clock_hand = omega (arith, at, lt) in
      let free : is_pinned s s.clock_hand ≡ false =
        subst (λ (q : ℕ). is_pinned s q ≡ false) here loose in
      let unused : page_was_accessed m s (page_in_frame s s.clock_hand) ≡ false =
        subst (λ (q : ℕ). page_was_accessed m s (page_in_frame s q) ≡ false) here quiet in
      simp (free, unused, clock_scan)
  stops (suc left) (suc ahead) s more lt at loose quiet =
      let i = page_in_frame s s.clock_hand in
      let next : ((s.clock_hand + 1) % frame_limit + ahead) % frame_limit ≡ k = omega (arith, at) in
      elim (Bool-cases (is_pinned s s.clock_hand)) [
        | inl pinned ↦
            simp (pinned, clock_scan)
              (stops left ahead (advance_hand s) (omega (arith, more)) (omega arith) next loose
                quiet)
        | inr free ↦ elim (Bool-cases (page_was_accessed m s i)) [
          | inl used ↦
              simp (free, used, clock_scan)
                (stops left ahead (advance_hand (clear_page_accessed m s i)) (omega (arith, more))
                  (omega arith) next loose (kept_clear s i (page_in_frame s k) quiet))
          | inr unused ↦ simp (free, unused, clock_scan)
        ]
      ]

  -- An accessed one stops it on the second round.
  stops_later :
      (left ahead : ℕ) (s : Pager E)
      → ahead + frame_limit < left
      → s.clock_hand < frame_limit
      → (s.clock_hand + ahead) % frame_limit ≡ k
      → is_pinned s k ≡ false
      → is_pinned s (clock_scan m left s).1 ≡ false
  unfolding clock_scan page_was_accessed
  stops_later zero ahead s more lt at loose = absurd (omega (arith, more))
  stops_later (suc left) zero s more lt at loose =
      let i = page_in_frame s s.clock_hand in
      let here : k ≡ s.clock_hand = omega (arith, at, lt) in
      let free : is_pinned s s.clock_hand ≡ false =
        subst (λ (q : ℕ). is_pinned s q ≡ false) here loose in
      elim (Bool-cases (page_was_accessed m s i)) [
        | inl used ↦
            let s₁ = advance_hand (clear_page_accessed m s i) in
            let quiet : page_was_accessed m s₁ (page_in_frame s k) ≡ false =
              subst (λ (q : ℕ). page_was_accessed m s₁ (page_in_frame s q) ≡ false) (sym here)
                (now_clear s i) in
            simp (free, used, clock_scan)
              (stops left 15 s₁ (omega (arith, more)) (omega arith) (omega (arith, here, lt)) loose
                quiet)
        | inr unused ↦ simp (free, unused, clock_scan)
      ]
  stops_later (suc left) (suc ahead) s more lt at loose =
      let i = page_in_frame s s.clock_hand in
      let next : ((s.clock_hand + 1) % frame_limit + ahead) % frame_limit ≡ k = omega (arith, at) in
      elim (Bool-cases (is_pinned s s.clock_hand)) [
        | inl pinned ↦
            simp (pinned, clock_scan)
              (stops_later left ahead (advance_hand s) (omega (arith, more)) (omega arith) next
                loose)
        | inr free ↦ elim (Bool-cases (page_was_accessed m s i)) [
          | inl used ↦
              simp (free, used, clock_scan)
                (stops_later left ahead (advance_hand (clear_page_accessed m s i))
                  (omega (arith, more)) (omega arith) next loose)
          | inr unused ↦ simp (free, unused, clock_scan)
        ]
      ]

  -- With the hand on one of the sixteen frames, and a frame whose page is not pinned, the clock
  -- algorithm chooses a frame whose page is not pinned, if clearing an accessed bit clears it and sets
  -- none.
  pub choose_clock_victim_frame_spares :
      (s : Pager E)
      → s.clock_hand < frame_limit
      → k < frame_limit
      → (page_at s (page_in_frame s k)).pinned ≡ false
      → (page_at s (page_in_frame s (choose_clock_victim_frame m s).1)).pinned ≡ false
  unfolding choose_clock_victim_frame
  choose_clock_victim_frame_spares s lt below loose =
      stops_later 32 ((k + 16 - s.clock_hand) % 16) s (omega arith) lt (omega (arith, lt, below))
        loose
