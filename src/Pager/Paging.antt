-- ===== src/Pager/Paging.antt =====
-- mm/pager.c: a page goes to its swap slot, or comes from there.
use os_curriculum_design.Prelude.{
  ℕ, suc, ◌+◌, ◌%◌, Bool, true, false, not, ◌&&◌, ◌||◌, Option, none, some, List, [], ◌∷◌, ◌++◌,
  if◌then◌else◌, ltb, ◌==◌, set, length, drop, add32,
}
use os_curriculum_design.Pager.{
  Machine, Pager, PagerPage, frame_limit, victim_trace_count, sectors_per_page, page_at, set_page,
  page_in_frame, mark_page_used, swap_lba_for_slot, align_down_page,
}
use os_curriculum_design.Pager.Victim.{choose_victim_frame}

-- `record_victim`: the last eight victims.
unfoldable pub record_victim : List ℕ → ℕ → List ℕ
record_victim trace virt_addr =
    if ltb (length trace) victim_trace_count
    then trace ++ (virt_addr ∷ [])
    else drop 1 trace ++ (virt_addr ∷ [])

-- `find_page_by_virt` on the aligned address.
unfoldable pub find_page : List PagerPage → ℕ → ℕ → ℕ → Option ℕ
find_page [] directory addr i = none
find_page (p ∷ ps) directory addr i =
    let rest = find_page ps directory addr (suc i) in
    if p.used && ((p.page_directory == directory) && (p.virt_addr == addr)) then some i else rest

unfoldable pub find_page_by_virt : {E : Type 0} → Pager E → ℕ → ℕ → Option ℕ
find_page_by_virt s directory virt_addr = find_page s.pages directory (align_down_page virt_addr) 0

-- What `page_in` notes at the end.
abbrev pub paged_in : {E : Type 0} → Pager E → ℕ → ℕ → ℕ → Pager E
paged_in s i frame_slot phys_addr =
    let s₁ =
      mark_page_used
        (set_page
          (record s {
            frames = set s.frames frame_slot i;
            clock_hand = (frame_slot + 1) % frame_limit;
          })
          i (record (page_at s i) { phys_addr = phys_addr; present = true; swapped = false }))
        i in
    record s₁ { swap_ins = add32 s₁.swap_ins 1 }

abbrev pub with_env : {E : Type 0} → Pager E → E → Pager E
with_env s e = record s { env = e }

module _ {E : Type 0} (m : Machine E) where
  unfoldable pub swap_write_slot : Pager E → ℕ → List ℕ → Pager E × Bool
  swap_write_slot s slot bytes =
      let (e, ok) = Machine.write_sectors m s.env (swap_lba_for_slot slot) sectors_per_page bytes in
      (record s { env = e }, ok)

  -- The tables after a victim was written out, unmapped and freed.
  abbrev pub evicted : Pager E → ℕ → Pager E
  evicted s i =
      let victim = page_at s i in
      let env =
        Machine.free_page m (Machine.unmap_page m s.env victim.page_directory victim.virt_addr)
          victim.phys_addr in
      set_page
        (record s {
          env = env;
          victim_trace = record_victim s.victim_trace victim.virt_addr;
          evictions = add32 s.evictions 1;
          swap_outs = add32 s.swap_outs 1;
        })
        i (record victim { phys_addr = 0; present = false; swapped = true })

  unfoldable pub evict_frame : Pager E → ℕ → Pager E × Bool
  evict_frame s frame_slot =
      let i = page_in_frame s frame_slot in
      let victim = page_at s i in
      let (s₁, ok) =
        swap_write_slot s victim.swap_slot (Machine.read_memory m s.env victim.phys_addr) in
      if ok then (evicted s₁ i, true) else (s₁, false)

  -- The frame that `page_in` uses: the next one, or a victim's.
  unfoldable pub take_frame : Pager E → Pager E × Option ℕ
  take_frame s =
      let (s₁, victim) = choose_victim_frame m s in
      let (s₂, ok) = evict_frame s₁ victim in
      if ltb s.resident_frames frame_limit
      then (record s { resident_frames = s.resident_frames + 1 }, some s.resident_frames)
      else (s₂, if ok then some victim else none)

  -- `page_in` from the call of `pmm_alloc_page` on.
  unfoldable pub fill_frame : Pager E → ℕ → ℕ → Pager E × Bool
  fill_frame s i frame_slot =
      let page = page_at s i in
      let (e, phys_addr) = Machine.alloc_page m s.env in
      if phys_addr == 0
      then (with_env s e, false)
      else elim (Machine.read_sectors m e (swap_lba_for_slot page.swap_slot) sectors_per_page) [
        | none ↦ (with_env s (Machine.free_page m e phys_addr), false)
        | some bytes ↦
            let e₁ = Machine.write_memory m e phys_addr bytes in
            let (e₂, ok) =
              Machine.map_page m e₁ page.page_directory page.virt_addr phys_addr page.flags in
            if ok
            then (paged_in (with_env s e₂) i frame_slot phys_addr, true)
            else (with_env s (Machine.free_page m e₂ phys_addr), false)
      ]

  unfoldable pub page_in : Pager E → ℕ → Pager E × Bool
  page_in s i =
      let (s₁, slot) = take_frame (record s {
        page_faults = add32 s.page_faults 1;
        last_fault_addr = (page_at s i).virt_addr;
      }) in
      elim slot [ none ↦ (s₁, false) | some frame_slot ↦ fill_frame s₁ i frame_slot ]

  -- Bit 0 of the error code is set when the page was there.
  unfoldable pub pager_handle_page_fault : Pager E → ℕ → ℕ → Pager E × Bool
  pager_handle_page_fault s fault_addr err_code =
      if not s.ready || (err_code % 2 == 1)
      then (s, false)
      else elim (find_page_by_virt s (Machine.page_directory m s.env) fault_addr) [
        | none ↦ (s, false)
        | some i ↦ if (page_at s i).present then (s, true) else page_in s i
      ]
