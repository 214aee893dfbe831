-- ===== src/Pager/Keeps.antt =====
-- mm/pager.c: what the choice of a victim leaves as it was.
use os_curriculum_design.Prelude.{
  ℕ, zero, suc, ◌*◌, ◌≡◌, refl, ◌∙◌, Bool, Option, none, List, [], ◌∷◌, inl, inr, Bool-cases,
  Option-cases, get_or, set, length, length-set, if_both,
}
use os_curriculum_design.Pager.{
  Machine, Pager, PagerPage, page_at, page_in_frame, empty_page, mark_page_used, next_tick,
  frame_limit,
}
use os_curriculum_design.Pager.Victim.{
  page_was_accessed, clear_page_accessed, sample_page_usage, clock_scan, lru_scan,
  choose_clock_victim_frame, choose_lru_victim_frame, choose_victim_frame,
}
use os_curriculum_design.Pager.Lru.{algorithm_cases}

-- The place of a page: whether it is in memory, where, and its swap slot.
abbrev pub place : PagerPage → Bool × ℕ × ℕ
place p = (p.present, p.phys_addr, p.swap_slot)

-- The pages are at the same places, the frames hold the same pages, and disk and memory read the same.
pub record SamePlaces {E : Type 0} (m : Machine E) (s s' : Pager E) : Type 0 where
  pub places : (j : ℕ) → place (page_at s' j) ≡ place (page_at s j)
  pub count : length s'.pages ≡ length s.pages
  pub frames : s'.frames ≡ s.frames
  pub disk : (lba n : ℕ) → Machine.read_sectors m s'.env lba n ≡ Machine.read_sectors m s.env lba n
  pub memory : (phys : ℕ) → Machine.read_memory m s'.env phys ≡ Machine.read_memory m s.env phys

-- Clearing an accessed bit changes neither the disk nor the contents of the memory.
pub record ClearKeeps {E : Type 0} (m : Machine E) : Type 0 where
  pub disk :
      (e : E) (directory addr lba n : ℕ)
      → Machine.read_sectors m (Machine.clear_accessed m e directory addr) lba n
        ≡ Machine.read_sectors m e lba n
  pub memory :
      (e : E) (directory addr phys : ℕ)
      → Machine.read_memory m (Machine.clear_accessed m e directory addr) phys
        ≡ Machine.read_memory m e phys

place-set :
    (pages : List PagerPage) (i : ℕ) (x : PagerPage) (j : ℕ)
    → place x ≡ place (get_or pages i (empty_page 0))
    → place (get_or (set pages i x) j (empty_page 0)) ≡ place (get_or pages j (empty_page 0))
place-set [] i x j e = refl
place-set (p ∷ ps) zero x zero e = e
place-set (p ∷ ps) zero x (suc j) e = refl
place-set (p ∷ ps) (suc i) x zero e = refl
place-set (p ∷ ps) (suc i) x (suc j) e = place-set ps i x j e

module _ {E : Type 0} (m : Machine E) where
  pub SamePlaces-refl : (s : Pager E) → SamePlaces m s s
  SamePlaces-refl s = record {
    places = λ j. refl;
    count = refl;
    frames = refl;
    disk = λ lba n. refl;
    memory = λ phys. refl;
  }

  pub SamePlaces-trans : {s t u : Pager E} → SamePlaces m s t → SamePlaces m t u → SamePlaces m s u
  SamePlaces-trans a b = record {
    places = λ j. b.places j ∙ a.places j;
    count = b.count ∙ a.count;
    frames = b.frames ∙ a.frames;
    disk = λ lba n. b.disk lba n ∙ a.disk lba n;
    memory = λ phys. b.memory phys ∙ a.memory phys;
  }

  module _ (keeps : ClearKeeps m) where
    clear-SamePlaces : (s : Pager E) (i : ℕ) → SamePlaces m s (clear_page_accessed m s i)
    clear-SamePlaces s i = record {
      places = λ j. refl;
      count = refl;
      frames = refl;
      disk = λ lba n. keeps.disk s.env _ _ lba n;
      memory = λ phys. keeps.memory s.env _ _ phys;
    }

    mark-SamePlaces : (s : Pager E) (i : ℕ) → SamePlaces m s (mark_page_used s i)
    unfolding mark_page_used
    mark-SamePlaces s i = record {
      places = λ j.
          place-set s.pages i (record (page_at s i) { last_used_tick = next_tick s.usage_tick }) j
            refl;
      count =
          length-set s.pages i (record (page_at s i) { last_used_tick = next_tick s.usage_tick });
      frames = refl;
      disk = λ lba n. refl;
      memory = λ phys. refl;
    }

    sample-SamePlaces : (s : Pager E) (i : ℕ) → SamePlaces m s (sample_page_usage m s i)
    unfolding sample_page_usage
    sample-SamePlaces s i =
        if_both (SamePlaces m s) (page_was_accessed m s i)
          (clear_page_accessed m (mark_page_used s i) i) s
          (SamePlaces-trans (mark-SamePlaces s i) (clear-SamePlaces (mark_page_used s i) i))
          (SamePlaces-refl s)

    -- The same pages, with the hand at another frame.
    moved :
        {s t : Pager E} (hand : ℕ)
        → SamePlaces m s t
        → SamePlaces m s (record t { clock_hand = hand })
    moved hand p = record {
      places = p.places;
      count = p.count;
      frames = p.frames;
      disk = p.disk;
      memory = p.memory;
    }

    clock_scan-SamePlaces : (left : ℕ) (s : Pager E) → SamePlaces m s (clock_scan m left s).0
    unfolding clock_scan
    clock_scan-SamePlaces zero s = SamePlaces-refl s
    clock_scan-SamePlaces (suc left) s =
        let i = page_in_frame s s.clock_hand in
        elim (Bool-cases (page_at s i).pinned) [
          | inl pinned ↦
              rw (pinned, clock_scan)
                (SamePlaces-trans (moved _ (SamePlaces-refl s)) (clock_scan-SamePlaces left _))
          | inr loose ↦ elim (Bool-cases (page_was_accessed m s i)) [
            | inl used ↦
                rw (loose, used, clock_scan)
                  (SamePlaces-trans (moved _ (clear-SamePlaces s i)) (clock_scan-SamePlaces left _))
            | inr quiet ↦ rw (loose, quiet, clock_scan) (SamePlaces-refl s)
          ]
        ]

    lru_scan-SamePlaces :
        (count slot : ℕ) (s : Pager E) (best : Option (ℕ × ℕ))
        → SamePlaces m s (lru_scan m count slot s best).0
    unfolding lru_scan
    lru_scan-SamePlaces zero slot s best = SamePlaces-refl s
    lru_scan-SamePlaces (suc count) slot s best =
        let i = page_in_frame s slot in
        elim (Bool-cases (page_at s i).pinned) [
          | inl pinned ↦ rw (pinned, lru_scan) (lru_scan-SamePlaces count (suc slot) s best)
          | inr loose ↦
              rw (loose, lru_scan)
                (SamePlaces-trans (sample-SamePlaces s i)
                  (lru_scan-SamePlaces count (suc slot) (sample_page_usage m s i) _))
        ]

    choose_lru-SamePlaces : (s : Pager E) → SamePlaces m s (choose_lru_victim_frame m s).0
    unfolding choose_lru_victim_frame
    choose_lru-SamePlaces s =
        let p = lru_scan-SamePlaces s.resident_frames 0 s none in
        elim (Option-cases (lru_scan m s.resident_frames 0 s none).1) [
          | inl e ↦ rw (e, choose_lru_victim_frame) p
          | inr (best, e) ↦ rw (e, choose_lru_victim_frame) p
        ]

    pub choose_victim_frame-SamePlaces : (s : Pager E) → SamePlaces m s (choose_victim_frame m s).0
    unfolding choose_victim_frame choose_clock_victim_frame
    choose_victim_frame-SamePlaces s = elim (algorithm_cases s.algorithm) [
      | inl e ↦ simp (e, choose_victim_frame) (clock_scan-SamePlaces (frame_limit * 2) s)
      | inr e ↦ simp (e, choose_victim_frame) (choose_lru-SamePlaces s)
    ]
