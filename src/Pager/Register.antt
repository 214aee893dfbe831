-- ===== src/Pager/Register.antt =====
-- mm/pager.c: pages are registered, pinned and given up.
use os_curriculum_design.Prelude.{
  ℕ, zero, suc, ◌+◌, ◌-◌, ◌%◌, Bool, true, false, not, ◌||◌, Option, none, some, List, [], ◌∷◌,
  if◌then◌else◌, ltb, leb, ◌==◌, get_or, set, length,
}
use os_curriculum_design.FileSystem.Layout.{fixed}
use os_curriculum_design.Pager.{
  Machine, Pager, PagerPage, Algorithm, clock, max_pages, page_bytes, page_at, set_page, empty_page,
  align_down_page,
}
use os_curriculum_design.Pager.Paging.{find_page_by_virt, swap_write_slot}

-- `find_free_page_entry`.
unfoldable pub free_page_entry : List PagerPage → ℕ → Option ℕ
free_page_entry [] i = none
free_page_entry (p ∷ ps) i =
    let rest = free_page_entry ps (suc i) in if p.used then rest else some i

-- The entries that `pager_init` writes, from `i` on.
unfoldable pub empty_pages : ℕ → ℕ → List PagerPage
empty_pages zero i = []
empty_pages (suc count) i = empty_page i ∷ empty_pages count (suc i)

-- The slot that holds a page, in the first `count` from `slot` on.
unfoldable pub find_frame : ℕ → ℕ → List ℕ → ℕ → Option ℕ
find_frame zero slot frames i = none
find_frame (suc count) slot frames i =
    let rest = find_frame count (suc slot) frames i in
    if get_or frames slot 0 == i then some slot else rest

-- The frame of a page that is given up is taken over by the last frame.
unfoldable pub drop_frame : {E : Type 0} → Pager E → ℕ → Pager E
drop_frame s slot =
    let left = s.resident_frames - 1 in
    let frames =
      if ltb (slot + 1) s.resident_frames
      then set s.frames slot (get_or s.frames left 0)
      else s.frames in
    record s {
      frames = frames;
      resident_frames = left;
      clock_hand = if (left == 0) || leb left s.clock_hand then 0 else s.clock_hand;
    }

unfoldable pub pager_set_algorithm : {E : Type 0} → Pager E → Algorithm → Pager E
pager_set_algorithm s algorithm = record s { algorithm = algorithm }

unfoldable pub pager_clear_victim_trace : {E : Type 0} → Pager E → Pager E
pager_clear_victim_trace s = record s { victim_trace = [] }

unfoldable pub pager_pin_page_in_directory : {E : Type 0} → Pager E → ℕ → ℕ → Bool → Pager E × Bool
pager_pin_page_in_directory s directory virt_addr pinned =
    if not s.ready || (directory == 0)
    then (s, false)
    else elim (find_page_by_virt s directory virt_addr) [
      | none ↦ (s, false)
      | some i ↦ (set_page s i (record (page_at s i) { pinned = pinned }), true)
    ]

module _ {E : Type 0} (m : Machine E) where
  unfoldable pub pager_init : Pager E → Pager E × Bool
  pager_init s =
      if not (Machine.disk_is_ready m s.env) then (record s { ready = false }, false) else (
        record s {
          pages = empty_pages max_pages 0;
          registered_pages = 0;
          resident_frames = 0;
          clock_hand = 0;
          page_faults = 0;
          evictions = 0;
          swap_ins = 0;
          swap_outs = 0;
          last_fault_addr = 0;
          usage_tick = 0;
          victim_trace = [];
          algorithm = clock;
          ready = true;
        },
        true,
      )

  -- The arguments are refused. The data is at most a page and never the null pointer.
  unfoldable pub cannot_register : Pager E → ℕ → ℕ → List ℕ → Bool
  cannot_register s directory virt_addr bytes =
      not s.ready
      || ((directory == 0) || (not (virt_addr % page_bytes == 0) || ltb page_bytes (length bytes)))

  unfoldable pub pager_register_page_data : Pager E → ℕ → ℕ → ℕ → List ℕ → Pager E × Bool
  pager_register_page_data s directory virt_addr flags bytes =
      if cannot_register s directory virt_addr bytes
      then (s, false)
      else elim (find_page_by_virt s directory virt_addr) [
        | some i ↦
            swap_write_slot m (set_page s i (record (page_at s i) { flags = flags }))
              (page_at s i).swap_slot (fixed page_bytes bytes)
        | none ↦ elim (free_page_entry s.pages 0) [
          | none ↦ (s, false)
          | some i ↦
              let (s₁, ok) = swap_write_slot m s (page_at s i).swap_slot (fixed page_bytes bytes) in
              let page = record (page_at s i) {
                used = true;
                present = false;
                swapped = true;
                page_directory = directory;
                virt_addr = align_down_page virt_addr;
                phys_addr = 0;
                flags = flags;
                last_used_tick = 0;
                pinned = false;
              } in
              if ok
              then (
                record (set_page s₁ i page) { registered_pages = s₁.registered_pages + 1 },
                true,
              )
              else (s₁, false)
        ]
      ]

  -- `pager_register_page_in_directory` and `pager_register_page`.
  unfoldable pub pager_register_page_in_directory : Pager E → ℕ → ℕ → ℕ → Pager E × Bool
  pager_register_page_in_directory s directory virt_addr flags =
      pager_register_page_data s directory virt_addr flags []

  unfoldable pub pager_register_page : Pager E → ℕ → ℕ → Pager E × Bool
  pager_register_page s virt_addr flags =
      pager_register_page_in_directory s (Machine.page_directory m s.env) virt_addr flags

  -- The part of `pager_unregister_page` for a page in memory.
  unfoldable pub release_frame : Pager E → ℕ → ℕ → Pager E
  release_frame s i directory =
      let page = page_at s i in
      let s₁ : Pager E = elim (find_frame s.resident_frames 0 s.frames i) [
        | none ↦ s
        | some slot ↦ drop_frame s slot
      ] in
      record s₁ {
        env =
            Machine.free_page m (Machine.unmap_page m s₁.env directory page.virt_addr)
              page.phys_addr;
      }

  unfoldable pub pager_unregister_page : Pager E → ℕ → ℕ → Pager E
  pager_unregister_page s directory virt_addr =
      if not s.ready || (directory == 0)
      then s
      else elim (find_page_by_virt s directory virt_addr) [
        | none ↦ s
        | some i ↦
            let s₁ = if (page_at s i).present then release_frame s i directory else s in
            let s₂ = set_page s₁ i (empty_page (page_at s₁ i).swap_slot) in
            record s₂ { registered_pages = s₂.registered_pages - 1 }
      ]
