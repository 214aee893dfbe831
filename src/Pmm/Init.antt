-- ===== src/Pmm/Init.antt =====
-- The state that `pmm_init` leaves.
use os_curriculum_design.Prelude.{
  ℕ, zero, suc, ◌+◌, ◌-◌, ◌*◌, ◌/◌, ◌%◌, ◌^◌, ◌≤◌, ◌<◌, ◌≡◌, refl, sym, subst, ◌∙◌, arith, true,
  Option, none, some, Option-cases, inl, inr, ◌⊎◌, All-replicate, length-replicate, replicate,
  add32, get_or, of_all_below, all_below,
}
use os_curriculum_design.Bitmap.{bitmap_test}
use os_curriculum_design.Bitmap.Bytes.{test_bit, IsByte}
use os_curriculum_design.Bitmap.Count.{count_free_none}
use os_curriculum_design.Pmm.{
  Pmm, page_size, free_range, MultibootInfo, MmapEntry, detect_total_memory_bytes,
  free_memory_from_map, phys_to_bootstrap_virt, blank_pmm, bitmap_end, uses_map, finish_init, init,
  low_memory_reserved_bytes,
}
use os_curriculum_design.Pmm.Pages.{IsValid, IsTaken, align_up_lem}
use os_curriculum_design.Pmm.Allocate.{IsReady, bitmap_end-same}
use os_curriculum_design.Pmm.Ranges.{
  Keeps, first_entry, free_range-Keeps, free_entries-Keeps, IsWalkable, free_entries_total,
  reserve_range-Keeps, reserve_range-IsTaken,
}

-- Where no wrap occurs the end of the bitmap is the next page boundary above it.
bitmap_end_lem :
    (s : Pmm)
    → s.bitmap_base + s.bitmap_bytes + page_size ≤ 2 ^ 32
    → bitmap_end s ≡ (s.bitmap_base + s.bitmap_bytes + (page_size - 1)) / page_size * page_size
unfolding bitmap_end
bitmap_end_lem s h = ground (arith, align_up_lem (s.bitmap_base + s.bitmap_bytes) h)

full_byte : all_below 8 (λ k. test_bit 255 k) ≡ true
unfolding all_below test_bit
full_byte = refl

get_or-replicate : (n i b : ℕ) → i < n → get_or (replicate n b) i 0 ≡ b
get_or-replicate zero i b h = absurd (omega arith)
get_or-replicate (suc n) zero b h = refl
get_or-replicate (suc n) (suc i) b h = get_or-replicate n i b (omega arith)

-- A bitmap of full bytes takes every index.
bitmap_test-full : (n j : ℕ) → j < 8 * n → bitmap_test (replicate n 255) j ≡ true
unfolding bitmap_test
bitmap_test-full n j h =
    rw (get_or-replicate n (j / 8) 255 (omega arith))
      (of_all_below 8 (λ k. test_bit 255 k) (j % 8) full_byte (omega arith))

blank_pmm-IsValid : (kernel_end total : ℕ) → total < 2 ^ 32 → IsValid (blank_pmm kernel_end total)
unfolding blank_pmm
blank_pmm-IsValid kernel_end total h =
    let n = add32 (total / page_size) 7 / 8 in
    record {
      map = record {
        bytes = All-replicate IsByte n 255 (omega arith);
        room = omega (arith, length-replicate {A = ℕ} n 255);
      };
      counted = sym (
          count_free_none (replicate n 255) (total / page_size)
            (λ j lt. bitmap_test-full n j (omega arith)));
      small = omega arith;
    }

detect_total_memory_bytes-lt :
    (magic : ℕ) (info : Option MultibootInfo) → detect_total_memory_bytes magic info < 2 ^ 32
unfolding detect_total_memory_bytes
detect_total_memory_bytes-lt magic none = omega arith
detect_total_memory_bytes-lt magic (some info) = ground arith

finish_init-IsReady :
    (s : Pmm)
    → IsValid s
    → 0 < s.bitmap_base
    → s.bitmap_base + s.bitmap_bytes + 2 * page_size ≤ 2 ^ 32
    → IsReady (finish_init s) × ((finish_init s).total_pages ≡ s.total_pages)
unfolding finish_init
finish_init-IsReady s v pos fits =
    let k = reserve_range-Keeps s 0 (bitmap_end s) v in
    let end = bitmap_end_lem s (omega arith) in
    let same_end = bitmap_end-same s (finish_init s) k.base k.size in
    (
      record {
        valid = record { map = k.valid.map; counted = k.valid.counted; small = k.valid.small };
        is_ready = refl;
        kernel = omega (arith, same_end, end);
        reserved = λ j lt below.
            reserve_range-IsTaken s (bitmap_end s) j v (omega (arith, end)) (rw (sym k.pages) lt)
              (omega (arith, same_end));
      },
      k.pages,
    )

-- The allocator after a boot with a kernel image that ends at `kernel_end`: the bitmap begins at or
-- above that end, and the pages below both ends are taken.
pub record Booted (kernel_end : ℕ) (s : Pmm) : Type 0 where
  pub is_ready : IsReady s
  pub kernel : kernel_end ≤ s.bitmap_base
  pub bitmap : s.bitmap_base + s.bitmap_bytes ≤ bitmap_end s
  pub kernel_taken : (j : ℕ) → j < s.total_pages → j * page_size < kernel_end → IsTaken s j
  pub bitmap_taken :
      (j : ℕ) → j < s.total_pages → j * page_size < s.bitmap_base + s.bitmap_bytes → IsTaken s j

-- The pages that an `IsReady` state has taken reach beyond the kernel and the bitmap.
ready-Booted :
    (kernel_end : ℕ) (s : Pmm)
    → IsReady s
    → kernel_end ≤ s.bitmap_base
    → s.bitmap_base + s.bitmap_bytes + 2 * page_size ≤ 2 ^ 32
    → Booted kernel_end s
ready-Booted kernel_end s r above fits =
    let end = bitmap_end_lem s (omega arith) in
    record {
      is_ready = r;
      kernel = above;
      bitmap = omega (arith, end);
      kernel_taken = λ j lt below. r.reserved j lt (omega (arith, end));
      bitmap_taken = λ j lt below. r.reserved j lt (omega (arith, end));
    }

finish_init-Keeps :
    (s : Pmm)
    → IsValid s
    → ((finish_init s).bitmap_base ≡ s.bitmap_base)
      × ((finish_init s).bitmap_bytes ≡ s.bitmap_bytes)
unfolding finish_init
finish_init-Keeps s v = let k = reserve_range-Keeps s 0 (bitmap_end s) v in (k.base, k.size)

-- From the blank state, whatever freed pages in between.
from_blank :
    (kernel_end total : ℕ) (s : Pmm)
    → 0 < kernel_end
    → kernel_end ≤ 0x8000_0000
    → total < 2 ^ 32
    → Keeps (blank_pmm kernel_end total) s
    → Booted kernel_end (finish_init s) × ((finish_init s).total_pages ≡ total / page_size)
unfolding blank_pmm
from_blank kernel_end total s pos low word k =
    let base = align_up_lem kernel_end (omega arith) in
    let (ready, pages) =
      finish_init-IsReady s k.valid (omega (arith, k.base, base))
        (omega (arith, k.base, k.size, base)) in
    let r = finish_init-Keeps s k.valid in
    (
      ready-Booted kernel_end _ ready (omega (arith, r.0, k.base, base))
          (omega (arith, r.0, r.1, k.base, k.size, base)),
      pages ∙ k.pages,
    )

free_memory_from_map-Keeps :
    (memory : ℕ → MmapEntry) (fuel : ℕ) (s : Pmm) (info : MultibootInfo) (s' : Pmm)
    → IsValid s
    → free_memory_from_map memory fuel s info ≡ some s'
    → Keeps s s'
unfolding free_memory_from_map
free_memory_from_map-Keeps memory fuel s info s' v e = free_entries-Keeps memory fuel s _ _ s' v e

uses_map_cases :
    (magic : ℕ) (info : MultibootInfo)
    → (uses_map magic (some info) ≡ none) ⊎ (uses_map magic (some info) ≡ some info)
unfolding uses_map
uses_map_cases magic info = ground arith

-- When `pmm_init` ends, it leaves an allocator that is ready: its counter is the number of free
-- pages, the bitmap begins at or above the end of the kernel image, and every page that begins below
-- the end of the kernel image or of the bitmap is taken, whatever the memory map says. It manages the
-- whole pages of the memory detected. The end of the kernel image is assumed above 0 and at most
-- 2 GiB.
pub init-IsReady :
    (memory : ℕ → MmapEntry) (fuel kernel_end magic : ℕ) (info : Option MultibootInfo) (s : Pmm)
    → 0 < kernel_end
    → kernel_end ≤ 0x8000_0000
    → init memory fuel kernel_end magic info ≡ some s
    → Booted kernel_end s × (s.total_pages ≡ detect_total_memory_bytes magic info / page_size)
unfolding init
init-IsReady memory fuel kernel_end magic info s pos low e =
    elim (Option-cases (uses_map magic info)) [
      | inl no_map ↦
          ends (free_range b low_memory_reserved_bytes b.total_memory_bytes)
            (free_range-Keeps b _ _ valid) (ground (arith, no_map, e))
      | inr (map, some_map) ↦ elim (Option-cases (free_memory_from_map memory fuel b map)) [
        | inl stuck ↦ absurd (ground (arith, some_map, stuck, e))
        | inr (s', walked) ↦
            ends s' (free_memory_from_map-Keeps memory fuel b map s' valid walked)
              (ground (arith, some_map, walked, e))
      ]
    ]
  where
    total : ℕ
    total = detect_total_memory_bytes magic info

    b : Pmm
    b = blank_pmm kernel_end total

    word : total < 2 ^ 32
    word = detect_total_memory_bytes-lt magic info

    valid : IsValid b
    valid = blank_pmm-IsValid kernel_end total word

    ends :
        (s' : Pmm)
        → Keeps b s'
        → finish_init s' ≡ s
        → Booted kernel_end s × (s.total_pages ≡ total / page_size)
    ends s' k same =
        subst (λ (t : Pmm). Booted kernel_end t × (t.total_pages ≡ total / page_size)) same
          (from_blank kernel_end total s' pos low word k)

-- `pmm_init` ends when no entry of the memory map that the walk comes to has a size that leads beyond
-- 32 bits, with fuel for more rounds than the map has bytes.
pub init_total :
    (memory : ℕ → MmapEntry) (fuel kernel_end magic : ℕ) (info : MultibootInfo)
    → IsWalkable memory
        (phys_to_bootstrap_virt info.mmap_addr)
        (phys_to_bootstrap_virt (add32 info.mmap_addr info.mmap_length))
    → phys_to_bootstrap_virt (add32 info.mmap_addr info.mmap_length)
        - phys_to_bootstrap_virt info.mmap_addr
      < fuel
    → (s : Pmm) × (init memory fuel kernel_end magic (some info) ≡ some s)
unfolding init
init_total memory fuel kernel_end magic info walkable enough =
    let b = blank_pmm kernel_end (detect_total_memory_bytes magic (some info)) in
    let (s, e) = free_entries_total memory fuel b _ _ _ walkable first_entry enough in
    let walked : free_memory_from_map memory fuel b info ≡ some s =
      unfold free_memory_from_map in e in
    elim (uses_map_cases magic info) [
      | inl no_map ↦ (
        finish_init (free_range b low_memory_reserved_bytes b.total_memory_bytes),
        rw (no_map, init),
      )
      | inr mapped ↦ (finish_init s, rw (mapped, init) (rw walked))
    ]
