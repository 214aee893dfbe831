-- ===== src/Pager/Lru.antt =====
-- mm/pager.c: the sampled LRU algorithm spares pinned pages too.
use os_curriculum_design.Prelude.{
  ℕ, zero, suc, ◌+◌, ◌≤◌, ◌<◌, ◌≡◌, ◌≢◌, ◌⊎◌, inl, inr, refl, sym, ◌∙◌, subst, arith, Bool, true,
  false, Option, none, some, List, [], ◌∷◌, Bool-cases, get_or, set, if_both,
}
use os_curriculum_design.Pager.{
  Machine, Pager, PagerPage, Algorithm, clock, lru, frame_limit, page_at, page_in_frame, empty_page,
  mark_page_used, next_tick,
}
use os_curriculum_design.Pager.Victim.{
  page_was_accessed, clear_page_accessed, sample_page_usage, is_older, lru_scan,
  choose_lru_victim_frame, choose_victim_frame,
}
use os_curriculum_design.Pager.Clock.{ClearsAccessed, choose_clock_victim_frame_spares}

pinned-set :
    (pages : List PagerPage) (i : ℕ) (x : PagerPage) (j : ℕ)
    → x.pinned ≡ (get_or pages i (empty_page 0)).pinned
    → (get_or (set pages i x) j (empty_page 0)).pinned ≡ (get_or pages j (empty_page 0)).pinned
pinned-set [] i x j e = refl
pinned-set (p ∷ ps) zero x zero e = e
pinned-set (p ∷ ps) zero x (suc j) e = refl
pinned-set (p ∷ ps) (suc i) x zero e = refl
pinned-set (p ∷ ps) (suc i) x (suc j) e = pinned-set ps i x j e

pub algorithm_cases : (a : Algorithm) → (a ≡ clock) ⊎ (a ≡ lru)
algorithm_cases clock = inl refl
algorithm_cases lru = inr refl

older_none : (best : Option (ℕ × ℕ)) (tick : ℕ) → best ≡ none → is_older best tick ≢ false
unfolding is_older
older_none none tick e = λ no. cc
older_none (some p) tick e = λ no. cc

module _ {E : Type 0} (m : Machine E) where
  abbrev pub is_pinned : Pager E → ℕ → Bool
  is_pinned s slot = (page_at s (page_in_frame s slot)).pinned

  sample_page_usage-is_pinned :
      (s : Pager E) (i slot : ℕ) → is_pinned (sample_page_usage m s i) slot ≡ is_pinned s slot
  unfolding sample_page_usage mark_page_used
  sample_page_usage-is_pinned s i slot =
      if_both (λ t. is_pinned t slot ≡ is_pinned s slot) (page_was_accessed m s i)
        (clear_page_accessed m (mark_page_used s i) i) s
        (pinned-set s.pages i (record (page_at s i) { last_used_tick = next_tick s.usage_tick })
          (page_in_frame s slot) refl)
        refl

  -- A frame found whose page is not pinned.
  abbrev Found : Pager E → Option (ℕ × ℕ) → Type 0
  Found s best = (v : ℕ) × (t : ℕ) × (best ≡ some (v, t)) × (is_pinned s v ≡ false)

  unsampled :
      (s : Pager E) (i : ℕ) {best : Option (ℕ × ℕ)}
      → Found (sample_page_usage m s i) best
      → Found s best
  unsampled s i (v, t, e, p) = (v, t, e, sym (sample_page_usage-is_pinned s i v) ∙ p)

  lru_scan-Found :
      (k count slot : ℕ) (s : Pager E) (best : Option (ℕ × ℕ))
      → Found s best ⊎ ((best ≡ none) × (slot ≤ k) × (k < slot + count))
      → is_pinned s k ≡ false
      → Found s (lru_scan m count slot s best).1
  unfolding lru_scan
  lru_scan-Found k zero slot s best (inl found) loose = found
  lru_scan-Found k zero slot s best (inr (e, low, high)) loose = absurd (omega (arith, low, high))
  lru_scan-Found k (suc count) slot s best start loose =
      let i = page_in_frame s slot in
      let s₁ = sample_page_usage m s i in
      let tick = (page_at s₁ i).last_used_tick in
      elim (Bool-cases (is_pinned s slot)) [
        | inl pinned ↦
            simp (pinned, lru_scan)
              (lru_scan-Found k count (suc slot) s best
                (elim start [
                  | inl found ↦ inl found
                  | inr (e, low, high) ↦
                      let ne : slot ≢ k = λ same.
                        ground
                          (arith, loose, subst (λ (q : ℕ). is_pinned s q ≡ true) same pinned) in
                      inr (e, omega (arith, low, ne), omega (arith, high))
                ])
                loose)
        | inr free ↦ elim (Bool-cases (is_older best tick)) [
          | inl older ↦
              simp (free, older, lru_scan)
                (unsampled s i (
                  lru_scan-Found k count (suc slot) s₁ (some (slot, tick))
                    (inl (slot, tick, refl, sample_page_usage-is_pinned s i slot ∙ free))
                    (sample_page_usage-is_pinned s i k ∙ loose)))
          | inr newer ↦ elim start [
            | inr (e, low, high) ↦ absurd (older_none best tick e newer)
            | inl (v, t, e, p) ↦
                simp (free, newer, lru_scan)
                  (unsampled s i (
                    lru_scan-Found k count (suc slot) s₁ best
                      (inl (v, t, e, sample_page_usage-is_pinned s i v ∙ p))
                      (sample_page_usage-is_pinned s i k ∙ loose)))
          ]
        ]
      ]

  choose_lru_victim_frame_spares :
      (s : Pager E) (k : ℕ)
      → k < s.resident_frames
      → is_pinned s k ≡ false
      → is_pinned s (choose_lru_victim_frame m s).1 ≡ false
  unfolding choose_lru_victim_frame
  choose_lru_victim_frame_spares s k lt loose =
      let (v, t, e, p) =
        lru_scan-Found k s.resident_frames 0 s none (inr (refl, omega arith, omega (arith, lt)))
          loose in
      simp (e, choose_lru_victim_frame) p

  -- When all sixteen frames are taken and one of their pages is not pinned, the victim's page is not
  -- pinned, whichever algorithm chooses it, if the clock's hand is on one of the frames and clearing an
  -- accessed bit clears it and sets none.
  pub choose_victim_frame_spares :
      ClearsAccessed m
      → (s : Pager E) (k : ℕ) → s.resident_frames ≡ frame_limit
      → s.clock_hand < frame_limit
      → k < frame_limit
      → (page_at s (page_in_frame s k)).pinned ≡ false
      → (page_at s (page_in_frame s (choose_victim_frame m s).1)).pinned ≡ false
  unfolding choose_victim_frame
  choose_victim_frame_spares laws s k full hand lt loose = elim (algorithm_cases s.algorithm) [
    | inl e ↦
        simp (e, choose_victim_frame) (choose_clock_victim_frame_spares m laws k s hand lt loose)
    | inr e ↦
        simp (e, choose_victim_frame)
          (choose_lru_victim_frame_spares s k (omega (arith, full, lt)) loose)
  ]
