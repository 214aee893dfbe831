-- ===== src/Pager/PageIn.antt =====
-- mm/pager.c: bringing a page in keeps the contents of every page that is not in memory afterwards.
use os_curriculum_design.Prelude.{
  ℕ, ◌+◌, ◌≤◌, ◌<◌, ◌≡◌, ◌≢◌, ◌⊎◌, refl, sym, ap, ◌∙◌, subst, arith, Bool, true, false, Option,
  some, List, length, inl, inr, Bool-cases, Option-cases, get_or-set_ne, get_or-set_self,
  if◌then◌else◌, ltb, ◌==◌,
}
use os_curriculum_design.Pager.{
  Machine, Pager, PagerPage, page_at, page_in_frame, empty_page, sectors_per_page, max_pages,
  frame_limit, swap_lba_for_slot, mark_page_used,
}
use os_curriculum_design.Pager.Paging.{
  evict_frame, swap_write_slot, fill_frame, evicted, paged_in, with_env,
}
use os_curriculum_design.Pager.Keeps.{SamePlaces}
use os_curriculum_design.Pager.Swap.{KeepsPages}

-- Every page entry has the swap slot of its own index, every frame in use has a page that is in
-- memory, and the hand is at a frame.
pub record IsBound {E : Type 0} (s : Pager E) : Type 0 where
  pub slots : (j : ℕ) → j < length s.pages → (page_at s j).swap_slot ≡ j
  pub few : length s.pages ≤ max_pages
  pub framed : (f : ℕ) → f < s.resident_frames → page_in_frame s f < length s.pages
  pub in_memory : (f : ℕ) → f < s.resident_frames → (page_at s (page_in_frame s f)).present ≡ true
  pub hand : s.clock_hand < frame_limit

-- Two swap slots have no sector in common.
pub swap_slots_apart :
    (a b : ℕ)
    → a < max_pages
    → b < max_pages
    → a ≢ b
    → (swap_lba_for_slot a + sectors_per_page ≤ swap_lba_for_slot b)
      ⊎ (swap_lba_for_slot b + sectors_per_page ≤ swap_lba_for_slot a)
unfolding swap_lba_for_slot
swap_slots_apart a b la lb ne = elim (Bool-cases (ltb a b)) [
  | inl lt ↦ let less : a < b = ground (arith, lt) in inl (omega (arith, less))
  | inr le ↦ let less : b < a = ground (arith, le, ne) in inr (omega (arith, less))
]

module _ {E : Type 0} (m : Machine E) where
  -- What a page holds: its memory if it is there, else what its swap slot gives.
  abbrev pub contents : Pager E → ℕ → Option (List ℕ)
  contents s j =
      if (page_at s j).present
      then some (Machine.read_memory m s.env (page_at s j).phys_addr)
      else Machine.read_sectors m s.env (swap_lba_for_slot (page_at s j).swap_slot) sectors_per_page

  pub contents-SamePlaces : (s t : Pager E) (j : ℕ) → SamePlaces m s t → contents t j ≡ contents s j
  contents-SamePlaces s t j p =
      let present = ap (λ (q : Bool × ℕ × ℕ). q.0) (p.places j) in
      let phys = ap (λ (q : Bool × ℕ × ℕ). q.1) (p.places j) in
      let slot = ap (λ (q : Bool × ℕ × ℕ). q.2) (p.places j) in
      rw (present, phys, slot, p.memory, p.disk) refl

  pub contents_absent :
      (s : Pager E) (j : ℕ)
      → (page_at s j).present ≡ false
      → contents s j
        ≡ Machine.read_sectors m s.env (swap_lba_for_slot (page_at s j).swap_slot) sectors_per_page
  contents_absent s j e = rw e refl

  pub contents_present :
      (s : Pager E) (j : ℕ)
      → (page_at s j).present ≡ true
      → contents s j ≡ some (Machine.read_memory m s.env (page_at s j).phys_addr)
  contents_present s j e = rw e refl

  module _ (laws : KeepsPages m) where
    -- The state after an eviction that ended well.
    evict_frame-evicted :
        (s : Pager E) (slot : ℕ)
        → (evict_frame m s slot).1 ≡ true
        → let i = page_in_frame s slot in
          (evict_frame m s slot).0
          ≡ evicted m
              (with_env s
                (Machine.write_sectors m s.env
                  (swap_lba_for_slot (page_at s i).swap_slot)
                  sectors_per_page
                  (Machine.read_memory m s.env (page_at s i).phys_addr)).0)
              i
    unfolding evict_frame swap_write_slot
    evict_frame-evicted s slot ok =
        let i = page_in_frame s slot in
        let write =
          Machine.write_sectors m s.env (swap_lba_for_slot (page_at s i).swap_slot) sectors_per_page
            (Machine.read_memory m s.env (page_at s i).phys_addr) in
        elim (Bool-cases write.1) [
          | inr failed ↦
              let no : (evict_frame m s slot).1 ≡ false = simp (failed, evict_frame) in
              absurd (ground (arith, ok, no))
          | inl fine ↦ simp (fine, evict_frame)
        ]

    -- An eviction changes no entry but the victim's, and no sector but those of the victim's slot.
    pub evict_frame_others :
        (s : Pager E) (slot j lba : ℕ)
        → (evict_frame m s slot).1 ≡ true
        → page_in_frame s slot ≢ j
        → let own = swap_lba_for_slot (page_at s (page_in_frame s slot)).swap_slot in
          (own + sectors_per_page ≤ lba) ⊎ (lba + sectors_per_page ≤ own)
          → (page_at (evict_frame m s slot).0 j ≡ page_at s j)
            × (Machine.read_sectors m (evict_frame m s slot).0.env lba sectors_per_page
                ≡ Machine.read_sectors m s.env lba sectors_per_page)
    evict_frame_others s slot j lba ok ne apart =
        let i = page_in_frame s slot in
        let v = page_at s i in
        let bytes = Machine.read_memory m s.env v.phys_addr in
        let own = swap_lba_for_slot v.swap_slot in
        let e = (Machine.write_sectors m s.env own sectors_per_page bytes).0 in
        let unmapped = Machine.unmap_page m e v.page_directory v.virt_addr in
        let x : PagerPage = record v { phys_addr = 0; present = false; swapped = true } in
        subst
          (λ (t : Pager E).
            (page_at t j ≡ page_at s j)
            × (Machine.read_sectors m t.env lba sectors_per_page
                ≡ Machine.read_sectors m s.env lba sectors_per_page))
          (sym (evict_frame-evicted s slot ok))
          (
            get_or-set_ne s.pages x (empty_page 0) ne,
            laws.freed unmapped v.phys_addr lba sectors_per_page
                ∙ laws.unmapped e v.page_directory v.virt_addr lba sectors_per_page
                ∙ laws.elsewhere s.env own lba bytes apart,
          )

    pub evict_frame_victim :
        (s : Pager E) (slot : ℕ)
        → page_in_frame s slot < length s.pages
        → (evict_frame m s slot).1 ≡ true
        → (page_at (evict_frame m s slot).0 (page_in_frame s slot)).present ≡ false
    evict_frame_victim s slot lt ok =
        let i = page_in_frame s slot in
        let x : PagerPage = record (page_at s i) {
          phys_addr = 0;
          present = false;
          swapped = true;
        } in
        subst (λ (t : Pager E). (page_at t i).present ≡ false) (sym (evict_frame-evicted s slot ok))
          (ap (λ (p : PagerPage). p.present) (get_or-set_self s.pages i x (empty_page 0) lt))

    -- A page that is brought in well was read from its slot; no other entry and no sector changes.
    pub fill_frame_others :
        (s : Pager E) (i frame_slot : ℕ)
        → (fill_frame m s i frame_slot).1 ≡ true
        → ((bytes : List ℕ) × (Machine.read_sectors m s.env
                (swap_lba_for_slot (page_at s i).swap_slot)
                sectors_per_page
              ≡ some bytes))
          × ((j : ℕ) → i ≢ j → page_at (fill_frame m s i frame_slot).0 j ≡ page_at s j)
          × ((lba : ℕ)
              → Machine.read_sectors m (fill_frame m s i frame_slot).0.env lba sectors_per_page
                ≡ Machine.read_sectors m s.env lba sectors_per_page)
    unfolding fill_frame mark_page_used
    fill_frame_others s i frame_slot ok =
        let page = page_at s i in
        let e = (Machine.alloc_page m s.env).0 in
        let phys = (Machine.alloc_page m s.env).1 in
        let own = swap_lba_for_slot page.swap_slot in
        elim (Bool-cases (phys == 0)) [
          | inl out ↦ absurd (ground (arith, out, ok))
          | inr page_got ↦ elim (Option-cases (Machine.read_sectors m e own sectors_per_page)) [
            | inl unread ↦ absurd (ground (arith, page_got, unread, ok))
            | inr (bytes, got) ↦
                let e₁ = Machine.write_memory m e phys bytes in
                let map =
                  Machine.map_page m e₁ page.page_directory page.virt_addr phys page.flags in
                elim (Bool-cases map.1) [
                  | inr failed ↦ absurd (ground (arith, page_got, got, failed, ok))
                  | inl fine ↦
                      let same : (fill_frame m s i frame_slot).0
                          ≡ paged_in (with_env s map.0) i frame_slot phys =
                        simp (page_got, got, fine, fill_frame) in
                      (
                        (bytes, sym (laws.allocated s.env own sectors_per_page) ∙ got),
                        λ j ne.
                            subst (λ t. page_at t j ≡ page_at s j) (sym same)
                              (get_or-set_ne _ _ (empty_page 0) ne
                                ∙ get_or-set_ne s.pages _ (empty_page 0) ne),
                        λ lba.
                            subst
                              (λ t.
                                Machine.read_sectors m t.env lba sectors_per_page
                                ≡ Machine.read_sectors m s.env lba sectors_per_page)
                              (sym same)
                              (laws.entered e₁ page.page_directory page.virt_addr phys page.flags
                                  lba sectors_per_page
                                ∙ laws.placed e phys bytes lba sectors_per_page
                                ∙ laws.allocated s.env lba sectors_per_page),
                      )
                ]
          ]
        ]
