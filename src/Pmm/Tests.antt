-- ===== src/Pmm/Tests.antt =====
-- A machine of sixteen pages with the kernel in the first two, and the theorems at it.
use os_curriculum_design.Prelude.{
  ℕ, zero, suc, ◌+◌, ◌/◌, ◌≤◌, ◌<◌, ◌≡◌, ◌≢◌, ◌⊎◌, inl, inr, refl, arith, true, some, [], ◌∷◌, ◌++◌,
  add32, replicate, All, if◌then◌else◌, ◌==◌,
}
use os_curriculum_design.Bitmap.{bitmap_test, bitmap_set, bitmap_clear}
use os_curriculum_design.Bitmap.Bytes.{test_bit, set_bit, clear_bit}
use os_curriculum_design.Bitmap.FirstFree.{first_free}
use os_curriculum_design.Bitmap.Count.{count_free}
use os_curriculum_design.Pmm.{
  Pmm, page_size, align_up, bitmap_end, alloc_page, release_page, MultibootInfo, MmapEntry, init,
  phys_to_bootstrap_virt, detect_total_memory_bytes, bootloader_magic, free_memory_from_map,
  free_entries, free_entry, free_range, each_page, free_page, blank_pmm, uses_map, finish_init,
  reserve_range, reserve_page, align_down,
}
use os_curriculum_design.Pmm.Pages.{IsTaken}
use os_curriculum_design.Pmm.Allocate.{
  IsReady, Allocates, alloc_page_cases, release_page-alloc_page, release_page_twice,
}
use os_curriculum_design.Pmm.History.{start, allocates, Fits, Reach-Fits}
use os_curriculum_design.Pmm.Ranges.{IsWalkable, IsReached, first_entry, next_entry}
use os_curriculum_design.Pmm.Init.{Booted, init-IsReady, init_total}

abbrev small : Pmm
small = record {
  bitmap = 3 ∷ 0 ∷ [];
  bitmap_base = 4096;
  bitmap_bytes = 2;
  total_memory_bytes = 65536;
  total_pages = 16;
  free_pages = 14;
  ready = true;
}

bitmap_end-small : bitmap_end small ≡ 8192
unfolding bitmap_end align_up
bitmap_end-small = refl

small-IsTaken : (j : ℕ) → j < 2 → IsTaken small j
unfolding bitmap_test test_bit
small-IsTaken zero h = refl
small-IsTaken (suc zero) h = refl
small-IsTaken (suc (suc j)) h = absurd (omega arith)

small-IsReady : IsReady small
unfolding count_free bitmap_test test_bit
small-IsReady = record {
  valid = record {
    map = record { bytes = (omega arith, (omega arith, tt)); room = omega arith };
    counted = refl;
    small = omega arith;
  };
  is_ready = refl;
  kernel = omega (arith, bitmap_end-small);
  reserved = λ j _ below. small-IsTaken j (omega (arith, bitmap_end-small));
}

first_allocation : (alloc_page small).1 ≡ 8192
unfolding alloc_page first_free bitmap_test test_bit
first_allocation = refl

alloc_page_cases_example :
    ((small.free_pages ≡ 0) × (alloc_page small ≡ (small, 0)))
    ⊎ ((0 < small.free_pages) × ((page : ℕ) × Allocates small page))
alloc_page_cases_example = alloc_page_cases small small-IsReady

first_allocation_ne : (alloc_page small).1 ≢ 0
first_allocation_ne = omega (arith, first_allocation)

release_page-alloc_page_example : release_page (alloc_page small).0 (alloc_page small).1 ≡ small
release_page-alloc_page_example = release_page-alloc_page small small-IsReady first_allocation_ne

release_page_twice_example :
    release_page (release_page small 12288) 12288 ≡ release_page small 12288
release_page_twice_example = release_page_twice small 12288 small-IsReady (omega arith)

-- A map of two entries, usable memory below 640 KiB and 64 KiB of it at 1 MiB; the words at all
-- other addresses make no entry.
abbrev low_entry : MmapEntry
low_entry = record {
  size = 20;
  addr_low = 0;
  addr_high = 0;
  len_low = 0x0009_FC00;
  len_high = 0;
  kind = 1;
}

abbrev high_entry : MmapEntry
high_entry = record low_entry { addr_low = 0x0010_0000; len_low = 0x0001_0000 }

abbrev no_entry : MmapEntry
no_entry = record low_entry { size = 0xFC00_0000; kind = 9 }

abbrev memory : ℕ → MmapEntry
memory a = if a == 0xC000_9000 then low_entry else if a == 0xC000_9018 then high_entry else no_entry

abbrev info : MultibootInfo
info = record { flags = 0x41; mem_upper = 64; mmap_length = 48; mmap_addr = 0x9000 }

abbrev first_address : ℕ
first_address = phys_to_bootstrap_virt info.mmap_addr

abbrev end_address : ℕ
end_address = phys_to_bootstrap_virt (add32 info.mmap_addr info.mmap_length)

-- The walk comes to the two entries and to the end.
reached_addresses :
    (a : ℕ)
    → IsReached memory first_address end_address a
    → (a ≡ 0xC000_9000) ⊎ ((a ≡ 0xC000_9018) ⊎ (a ≡ 0xC000_9030))
reached_addresses _ first_entry = inl refl
reached_addresses _ (next_entry {a} r lt) = elim (reached_addresses a r) [
  | inl e ↦ rw e (inr (inl refl))
  | inr (inl e) ↦ rw e (inr (inr refl))
  | inr (inr e) ↦ absurd (omega (arith, e, lt))
]

memory-IsWalkable : IsWalkable memory first_address end_address
memory-IsWalkable a r lt = elim (reached_addresses a r) [
  | inl e ↦ rw e (omega arith)
  | inr (inl e) ↦ rw e (omega arith)
  | inr (inr e) ↦ absurd (omega (arith, e, lt))
]

init_total_example : (s : Pmm) × (init memory 49 0x0010_1800 bootloader_magic (some info) ≡ some s)
init_total_example =
    init_total memory 49 0x0010_1800 bootloader_magic info memory-IsWalkable (omega arith)

-- The state that the run on this map ends in, with the kernel's end in the third page at 1 MiB.
abbrev booted : Pmm
booted = record {
  bitmap = replicate 32 255 ++ (7 ∷ 0 ∷ []);
  bitmap_base = 0x0010_2000;
  bitmap_bytes = 34;
  total_memory_bytes = 0x0011_0000;
  total_pages = 272;
  free_pages = 13;
  ready = true;
}

booted_lem : init memory 49 0x0010_1800 bootloader_magic (some info) ≡ some booted
unfolding init free_memory_from_map free_entries free_entry free_range each_page free_page blank_pmm
    uses_map finish_init reserve_range reserve_page bitmap_end detect_total_memory_bytes align_up
    align_down bitmap_test bitmap_set bitmap_clear test_bit set_bit clear_bit
booted_lem = refl

init-IsReady_example :
    Booted 0x0010_1800 booted
    × (booted.total_pages ≡ detect_total_memory_bytes bootloader_magic (some info) / page_size)
init-IsReady_example =
    init-IsReady memory 49 0x0010_1800 bootloader_magic (some info) booted (omega arith)
      (omega arith) booted_lem

booted_allocation : (alloc_page booted).1 ≡ 0x0010_3000
unfolding alloc_page first_free bitmap_test test_bit
booted_allocation = refl

Reach-Fits_example :
    let s = (alloc_page booted).0 in
    let held = (alloc_page booted).1 ∷ [] in
    Fits booted s held × All (λ a. (0x0010_1800 ≤ a) × (s.bitmap_base + s.bitmap_bytes ≤ a)) held
Reach-Fits_example =
    Reach-Fits memory 49 0x0010_1800 bootloader_magic (some info) booted _ _ (omega arith)
      (omega arith) booted_lem (allocates start (omega (arith, booted_allocation)))
