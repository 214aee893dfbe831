-- ===== src/Pager/Swap.antt =====
-- mm/pager.c: an evicted page is in its swap slot, and a page that is brought in comes from there.
use os_curriculum_design.Prelude.{
  ℕ, ◌+◌, ◌≤◌, ◌<◌, ◌⊎◌, ◌≡◌, sym, ap, ◌∙◌, subst, arith, true, false, some, List, ◌==◌, length,
  inl, inr, Bool-cases, get_or, set, get_or-set_self, length-set,
}
use os_curriculum_design.Pager.{
  Machine, Pager, PagerPage, page_at, page_in_frame, empty_page, sectors_per_page,
  swap_lba_for_slot, mark_page_used, next_tick,
}
use os_curriculum_design.Pager.Paging.{
  evict_frame, swap_write_slot, fill_frame, evicted, paged_in, with_env,
}

-- The disk keeps what was written, whatever is done to the memory, and a transfer changes no other
-- sector; the memory keeps what was written when it is mapped.
pub record KeepsPages {E : Type 0} (m : Machine E) : Type 0 where
  pub written :
      (e : E) (lba : ℕ) (bytes : List ℕ)
      → (Machine.write_sectors m e lba sectors_per_page bytes).1 ≡ true
      → Machine.read_sectors m
          (Machine.write_sectors m e lba sectors_per_page bytes).0
          lba
          sectors_per_page
        ≡ some bytes
  pub elsewhere :
      (e : E) (lba lba' : ℕ) (bytes : List ℕ)
      → (lba + sectors_per_page ≤ lba') ⊎ (lba' + sectors_per_page ≤ lba)
      → Machine.read_sectors m
          (Machine.write_sectors m e lba sectors_per_page bytes).0
          lba'
          sectors_per_page
        ≡ Machine.read_sectors m e lba' sectors_per_page
  pub unmapped :
      (e : E) (directory addr lba n : ℕ)
      → Machine.read_sectors m (Machine.unmap_page m e directory addr) lba n
        ≡ Machine.read_sectors m e lba n
  pub freed :
      (e : E) (phys lba n : ℕ)
      → Machine.read_sectors m (Machine.free_page m e phys) lba n ≡ Machine.read_sectors m e lba n
  pub allocated :
      (e : E) (lba n : ℕ)
      → Machine.read_sectors m (Machine.alloc_page m e).0 lba n ≡ Machine.read_sectors m e lba n
  pub placed :
      (e : E) (phys : ℕ) (bytes : List ℕ) (lba n : ℕ)
      → Machine.read_sectors m (Machine.write_memory m e phys bytes) lba n
        ≡ Machine.read_sectors m e lba n
  pub entered :
      (e : E) (directory addr phys flags lba n : ℕ)
      → Machine.read_sectors m (Machine.map_page m e directory addr phys flags).0 lba n
        ≡ Machine.read_sectors m e lba n
  pub stored :
      (e : E) (phys : ℕ) (bytes : List ℕ)
      → Machine.read_memory m (Machine.write_memory m e phys bytes) phys ≡ bytes
  pub mapped :
      (e : E) (directory addr phys flags : ℕ)
      → Machine.read_memory m (Machine.map_page m e directory addr phys flags).0 phys
        ≡ Machine.read_memory m e phys

module _ {E : Type 0} (m : Machine E) (laws : KeepsPages m) where
  -- The swap slot of a page has the bytes.
  abbrev pub InSwap : Pager E → ℕ → List ℕ → Type 0
  InSwap s i bytes =
      Machine.read_sectors m s.env (swap_lba_for_slot (page_at s i).swap_slot) sectors_per_page
      ≡ some bytes

  pub paged_in_lem :
      (s : Pager E) (i frame_slot phys : ℕ)
      → i < length s.pages
      → ((page_at (paged_in s i frame_slot phys) i).phys_addr ≡ phys)
        × ((page_at (paged_in s i frame_slot phys) i).present ≡ true)
  unfolding mark_page_used
  paged_in_lem s i frame_slot phys lt =
      let x : PagerPage = record (page_at s i) {
        phys_addr = phys;
        present = true;
        swapped = false;
      } in
      let y : PagerPage = record (get_or (set s.pages i x) i (empty_page 0)) {
        last_used_tick = next_tick s.usage_tick;
      } in
      let inner = get_or-set_self s.pages i x (empty_page 0) lt in
      let outer =
        get_or-set_self (set s.pages i x) i y (empty_page 0)
          (omega (arith, length-set s.pages i x, lt)) in
      (
        ap (λ (p : PagerPage). p.phys_addr) outer ∙ ap (λ (p : PagerPage). p.phys_addr) inner,
        ap (λ (p : PagerPage). p.present) outer ∙ ap (λ (p : PagerPage). p.present) inner,
      )

  pub evict_frame-InSwap :
      (s : Pager E) (slot : ℕ)
      → page_in_frame s slot < length s.pages
      → (evict_frame m s slot).1 ≡ true
      → InSwap
          (evict_frame m s slot).0
          (page_in_frame s slot)
          (Machine.read_memory m s.env (page_at s (page_in_frame s slot)).phys_addr)
        × (length (evict_frame m s slot).0.pages ≡ length s.pages)
  unfolding evict_frame swap_write_slot
  evict_frame-InSwap s slot lt ok =
      let i = page_in_frame s slot in
      let victim = page_at s i in
      let bytes = Machine.read_memory m s.env victim.phys_addr in
      let lba = swap_lba_for_slot victim.swap_slot in
      elim (Bool-cases (Machine.write_sectors m s.env lba sectors_per_page bytes).1) [
        | inr failed ↦
            let no : (evict_frame m s slot).1 ≡ false = simp (failed, evict_frame) in
            absurd (ground (arith, ok, no))
        | inl fine ↦
            let e = (Machine.write_sectors m s.env lba sectors_per_page bytes).0 in
            let x : PagerPage = record victim { phys_addr = 0; present = false; swapped = true } in
            let same : (evict_frame m s slot).0 ≡ evicted m (with_env s e) i =
              simp (fine, evict_frame) in
            let unmapped = Machine.unmap_page m e victim.page_directory victim.virt_addr in
            let kept : Machine.read_sectors m (Machine.free_page m unmapped victim.phys_addr) lba
                  sectors_per_page
                ≡ some bytes =
              laws.freed unmapped victim.phys_addr lba sectors_per_page
              ∙ laws.unmapped e victim.page_directory victim.virt_addr lba sectors_per_page
              ∙ laws.written s.env lba bytes fine in
            subst (λ t. InSwap t i bytes × (length t.pages ≡ length s.pages)) (sym same)
              (rw (get_or-set_self s.pages i x (empty_page 0) lt) kept, length-set s.pages i x)
      ]

  pub fill_frame_lem :
      (s : Pager E) (i frame_slot : ℕ) (bytes : List ℕ)
      → i < length s.pages
      → InSwap s i bytes
      → (fill_frame m s i frame_slot).1 ≡ true
      → let s₁ = (fill_frame m s i frame_slot).0 in
        (Machine.read_memory m s₁.env (page_at s₁ i).phys_addr ≡ bytes)
        × ((page_at s₁ i).present ≡ true)
  unfolding fill_frame mark_page_used
  fill_frame_lem s i frame_slot bytes lt swap ok =
      let page = page_at s i in
      let e = (Machine.alloc_page m s.env).0 in
      let phys = (Machine.alloc_page m s.env).1 in
      let lba = swap_lba_for_slot page.swap_slot in
      let e₁ = Machine.write_memory m e phys bytes in
      let got : Machine.read_sectors m e lba sectors_per_page ≡ some bytes =
        laws.allocated s.env lba sectors_per_page ∙ swap in
      let map = Machine.map_page m e₁ page.page_directory page.virt_addr phys page.flags in
      elim (Bool-cases (phys == 0)) [
        | inl out ↦
            let no : (fill_frame m s i frame_slot).1 ≡ false = simp (out, fill_frame) in
            absurd (ground (arith, ok, no))
        | inr page_got ↦ elim (Bool-cases map.1) [
          | inr failed ↦
              let no : (fill_frame m s i frame_slot).1 ≡ false =
                simp (page_got, got, failed, fill_frame) in
              absurd (ground (arith, ok, no))
          | inl fine ↦
              let same : (fill_frame m s i frame_slot).0
                  ≡ paged_in (with_env s map.0) i frame_slot phys =
                simp (page_got, got, fine, fill_frame) in
              let (at, present) = paged_in_lem (with_env s map.0) i frame_slot phys lt in
              subst
                (λ t.
                  (Machine.read_memory m t.env (page_at t i).phys_addr ≡ bytes)
                  × ((page_at t i).present ≡ true))
                (sym same)
                (
                  subst (λ p. Machine.read_memory m map.0 p ≡ bytes) (sym at)
                      (laws.mapped e₁ page.page_directory page.virt_addr phys page.flags
                        ∙ laws.stored e phys bytes),
                  present,
                )
        ]
      ]
