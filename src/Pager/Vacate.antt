-- ===== src/Pager/Vacate.antt =====
-- mm/pager.c: taking a frame loses the contents of no page.
use native.Mathlib.Decide.{ℕ_discrete}
use os_curriculum_design.Prelude.{
  ℕ, ◌≤◌, ◌<◌, ◌≡◌, ◌≢◌, refl, sym, ap, ◌∙◌, subst, arith, Bool, true, false, some, length, inl,
  inr, Bool-cases, ltb,
}
use os_curriculum_design.Pager.{
  Machine, Pager, page_at, page_in_frame, frame_limit, max_pages, swap_lba_for_slot,
}
use os_curriculum_design.Pager.Victim.{choose_victim_frame}
use os_curriculum_design.Pager.Paging.{evict_frame, take_frame}
use os_curriculum_design.Pager.Keeps.{ClearKeeps, choose_victim_frame-SamePlaces}
use os_curriculum_design.Pager.Chosen.{choose_victim_frame-lt}
use os_curriculum_design.Pager.Swap.{KeepsPages, evict_frame-InSwap}
use os_curriculum_design.Pager.PageIn.{
  IsBound, contents, contents_absent, contents_present, contents-SamePlaces, swap_slots_apart,
  evict_frame_others, evict_frame_victim,
}

module _ {E : Type 0} (m : Machine E) where
  -- From `s` to `t` no page comes into memory, and what is not there in `t` has the contents it had.
  pub record Vacates (s t : Pager E) : Type 0 where
    pub count : length t.pages ≡ length s.pages
    pub missing :
        (j : ℕ) → j < length s.pages → (page_at s j).present ≡ false → (page_at t j).present ≡ false
    pub kept :
        (j : ℕ)
        → j < length s.pages
        → (page_at t j).present ≡ false
        → contents m t j ≡ contents m s j

  -- What an eviction needs to know of the frame.
  record IsEvictable (s : Pager E) (slot : ℕ) : Type 0 where
    pub slots : (j : ℕ) → j < length s.pages → (page_at s j).swap_slot ≡ j
    pub few : length s.pages ≤ max_pages
    pub framed : page_in_frame s slot < length s.pages
    pub in_memory : (page_at s (page_in_frame s slot)).present ≡ true

  module _ (laws : KeepsPages m) (clears : ClearKeeps m) where
    evict_frame_other :
        (s : Pager E) (slot j : ℕ)
        → IsEvictable s slot
        → (evict_frame m s slot).1 ≡ true
        → j < length s.pages
        → page_in_frame s slot ≢ j
        → (page_at (evict_frame m s slot).0 j ≡ page_at s j)
          × (Machine.read_sectors m
                (evict_frame m s slot).0.env
                (swap_lba_for_slot (page_at s j).swap_slot)
                8
              ≡ Machine.read_sectors m s.env (swap_lba_for_slot (page_at s j).swap_slot) 8)
    evict_frame_other s slot j b ok lt ne =
        let i = page_in_frame s slot in
        evict_frame_others m laws s slot j (swap_lba_for_slot (page_at s j).swap_slot) ok ne (
          rw (b.slots i b.framed, b.slots j lt)
            (swap_slots_apart i j (omega (arith, b.framed, b.few)) (omega (arith, lt, b.few)) ne))

    evict_frame-Vacates :
        (s : Pager E) (slot : ℕ)
        → IsEvictable s slot
        → (evict_frame m s slot).1 ≡ true
        → Vacates s (evict_frame m s slot).0
    evict_frame-Vacates s slot b ok = record {
      count = stored.1;
      missing = λ j lt absent.
          ap (λ p. p.present) ((evict_frame_other s slot j b ok lt (victim_ne j absent)).0)
          ∙ absent;
      kept = λ j lt absent. elim (ℕ_discrete (page_in_frame s slot) j) [
        | yes e ↦
            subst (λ (k : ℕ). contents m (evict_frame m s slot).0 k ≡ contents m s k) e
              (contents_absent m (evict_frame m s slot).0 (page_in_frame s slot)
                  (evict_frame_victim m laws s slot b.framed ok)
                ∙ stored.0
                ∙ sym (contents_present m s (page_in_frame s slot) b.in_memory))
        | no ne ↦
            let (same, disk) = evict_frame_other s slot j b ok lt ne in
            let before = sym (ap (λ p. p.present) same) ∙ absent in
            contents_absent m (evict_frame m s slot).0 j absent
            ∙ ap
                (λ p.
                  Machine.read_sectors m (evict_frame m s slot).0.env
                    (swap_lba_for_slot p.swap_slot) 8)
                same
            ∙ disk
            ∙ sym (contents_absent m s j before)
      ];
    }
      where
        stored :
            (Machine.read_sectors m
                (evict_frame m s slot).0.env
                (swap_lba_for_slot
                  (page_at (evict_frame m s slot).0 (page_in_frame s slot)).swap_slot)
                8
              ≡ some (Machine.read_memory m s.env (page_at s (page_in_frame s slot)).phys_addr))
            × (length (evict_frame m s slot).0.pages ≡ length s.pages)
        stored = evict_frame-InSwap m laws s slot b.framed ok

        victim_ne : (j : ℕ) → (page_at s j).present ≡ false → page_in_frame s slot ≢ j
        victim_ne j absent e =
            let there = subst (λ (k : ℕ). (page_at s k).present ≡ true) e b.in_memory in cc

    -- The frame that is chosen can be evicted, after the choice.
    chosen-IsEvictable :
        (s : Pager E)
        → IsBound s
        → frame_limit ≤ s.resident_frames
        → IsEvictable (choose_victim_frame m s).0 (choose_victim_frame m s).1
    chosen-IsEvictable s b full =
        let p = choose_victim_frame-SamePlaces m clears s in
        let v = (choose_victim_frame m s).1 in
        let lt = choose_victim_frame-lt m s b.hand full in
        let same_page : page_in_frame (choose_victim_frame m s).0 v ≡ page_in_frame s v =
          rw p.frames refl in
        record {
          slots = λ j below.
              ap (λ (q : Bool × ℕ × ℕ). q.2) (p.places j)
              ∙ b.slots j (omega (arith, p.count, below));
          few = omega (arith, p.count, b.few);
          framed = omega (arith, same_page, p.count, b.framed v lt);
          in_memory =
              rw same_page
                (ap (λ (q : Bool × ℕ × ℕ). q.0) (p.places (page_in_frame s v)) ∙ b.in_memory v lt);
        }

    -- The frame that `page_in` uses is got without loss.
    pub take_frame-Vacates :
        (s : Pager E) (f : ℕ)
        → IsBound s
        → (take_frame m s).1 ≡ some f
        → Vacates s (take_frame m s).0
    unfolding take_frame
    take_frame-Vacates s f b got = elim (Bool-cases (ltb s.resident_frames frame_limit)) [
      | inl free ↦
          simp (free, take_frame)
            (record { count = refl; missing = λ j lt absent. absent; kept = λ j lt absent. refl })
      | inr full ↦
          let s₁ = (choose_victim_frame m s).0 in
          let v = (choose_victim_frame m s).1 in
          let p = choose_victim_frame-SamePlaces m clears s in
          elim (Bool-cases (evict_frame m s₁ v).1) [
            | inr failed ↦ absurd (ground (arith, full, failed, got))
            | inl fine ↦
                let w =
                  evict_frame-Vacates s₁ v (chosen-IsEvictable s b (ground (arith, full))) fine in
                simp (full, take_frame)
                  (record {
                    count = w.count ∙ p.count;
                    missing = λ j lt absent.
                        w.missing j (omega (arith, p.count, lt))
                          (ap (λ (q : Bool × ℕ × ℕ). q.0) (p.places j) ∙ absent);
                    kept = λ j lt absent.
                        w.kept j (omega (arith, p.count, lt)) absent
                        ∙ contents-SamePlaces m s s₁ j p;
                  })
          ]
    ]
