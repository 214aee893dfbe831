-- ===== src/Pmm.antt =====
-- mm/pmm.c: the physical page allocator over a bitmap of 4 KiB pages.
-- `Pmm` is the file's static variables, except that `pmm_bitmap` is held as the bytes it points to.
pub mod Pages
pub mod Allocate
pub mod History
pub mod Ranges
pub mod Init
mod Tests
use mathlib.Core.Option
use os_curriculum_design.Prelude.{
  ℕ, zero, suc, ◌+◌, ◌-◌, ◌*◌, ◌/◌, ◌%◌, ◌^◌, ◌<◌, Bool, true, false, not, ◌&&◌, ◌||◌, Option, none,
  some, List, [], ◌∷◌, if◌then◌else◌, ltb, leb, ◌==◌, add32, sub32, mul32, bit_and, replicate,
}
use os_curriculum_design.Bitmap.FirstFree.{first_free}
use os_curriculum_design.Bitmap.{bitmap_test, bitmap_set, bitmap_clear}

pub record Pmm : Type 0 where
  pub bitmap : List ℕ
  pub bitmap_base : ℕ
  pub bitmap_bytes : ℕ
  pub total_memory_bytes : ℕ
  pub total_pages : ℕ
  pub free_pages : ℕ
  pub ready : Bool

abbrev pub page_size : ℕ
page_size = 4096

abbrev pub default_total_memory_bytes : ℕ
default_total_memory_bytes = 128 * 1024 * 1024

abbrev pub low_memory_reserved_bytes : ℕ
low_memory_reserved_bytes = 0x0010_0000

abbrev pub kernel_virt_base : ℕ
kernel_virt_base = 0xC000_0000

-- `~(alignment - 1U)` is `2 ^ 32 - alignment` for an alignment of at least 1.
pub align_down : ℕ → ℕ → ℕ
align_down value alignment = bit_and value (2 ^ 32 - alignment)

pub align_up : ℕ → ℕ → ℕ
align_up value alignment = bit_and ((value + alignment - 1) % 2 ^ 32) (2 ^ 32 - alignment)

pub reserve_page : Pmm → ℕ → Pmm
reserve_page s page_index =
    if leb s.total_pages page_index || bitmap_test s.bitmap page_index then s else record s {
      bitmap = bitmap_set s.bitmap page_index;
      free_pages = if ltb 0 s.free_pages then s.free_pages - 1 else s.free_pages;
    }

pub free_page : Pmm → ℕ → Pmm
free_page s page_index =
    if leb s.total_pages page_index || not (bitmap_test s.bitmap page_index)
    then s
    else record s { bitmap = bitmap_clear s.bitmap page_index; free_pages = add32 s.free_pages 1 }

-- `for (page = first; page < first + count; page++)` over an operation on one page.
pub each_page : (Pmm → ℕ → Pmm) → ℕ → ℕ → Pmm → Pmm
each_page f first zero s = s
each_page f first (suc count) s = each_page f (first + 1) count (f s first)

abbrev pub at_most : ℕ → ℕ → ℕ
at_most limit n = if ltb limit n then limit else n

pub reserve_range : Pmm → ℕ → ℕ → Pmm
reserve_range s start end =
    if leb end start
    then s
    else let page_start = align_down start page_size / page_size in
      let page_end = at_most s.total_pages (align_up end page_size / page_size) in
      each_page reserve_page page_start (page_end - page_start) s

pub free_range : Pmm → ℕ → ℕ → Pmm
free_range s start end =
    let start' = if ltb start low_memory_reserved_bytes then low_memory_reserved_bytes else start in
    let end' = at_most s.total_memory_bytes end in
    if leb end start
    then s
    else if leb end' start'
    then s
    else let page_start = align_up start' page_size / page_size in
      let page_end = at_most s.total_pages (align_down end' page_size / page_size) in
      each_page free_page page_start (page_end - page_start) s

-- The fields of `MultibootInfo` and `MultibootMmapEntry` that are read.
pub record MultibootInfo : Type 0 where
  pub flags : ℕ
  pub mem_upper : ℕ
  pub mmap_length : ℕ
  pub mmap_addr : ℕ

pub record MmapEntry : Type 0 where
  pub size : ℕ
  pub addr_low : ℕ
  pub addr_high : ℕ
  pub len_low : ℕ
  pub len_high : ℕ
  pub kind : ℕ

abbrev pub bootloader_magic : ℕ
bootloader_magic = 0x2BADB002

abbrev flag_set : ℕ → ℕ → Bool
flag_set flags mask = not (bit_and flags mask == 0)

-- `none` is a null `info` pointer.
pub detect_total_memory_bytes : ℕ → Option MultibootInfo → ℕ
detect_total_memory_bytes magic none = default_total_memory_bytes
detect_total_memory_bytes magic (some info) =
    if magic == bootloader_magic && (flag_set info.flags 1 && not (info.mem_upper == 0))
    then add32 low_memory_reserved_bytes (mul32 info.mem_upper 1024)
    else default_total_memory_bytes

pub free_entry : Pmm → MmapEntry → Pmm
free_entry s entry =
    let start = entry.addr_low in
    let end = add32 start entry.len_low in
    if entry.kind == 1
      && entry.addr_high == 0
      && entry.len_high == 0
      && not (entry.len_low == 0)
      && ltb start end
    then free_range s start end
    else s

-- The `while` loop over the entries, `memory` being what the machine holds at an address; `none`
-- means that the fuel ran out.
pub free_entries : (ℕ → MmapEntry) → ℕ → Pmm → ℕ → ℕ → Option Pmm
free_entries memory zero s current end = none
free_entries memory (suc fuel) s current end = elim (ltb current end) [
  | true ↦
      free_entries memory fuel (free_entry s (memory current))
        (add32 current (add32 (memory current).size 4)) end
  | false ↦ some s
]

abbrev pub phys_to_bootstrap_virt : ℕ → ℕ
phys_to_bootstrap_virt phys_addr = add32 kernel_virt_base phys_addr

pub free_memory_from_map : (ℕ → MmapEntry) → ℕ → Pmm → MultibootInfo → Option Pmm
free_memory_from_map memory fuel s info =
    free_entries memory fuel s (phys_to_bootstrap_virt info.mmap_addr)
      (phys_to_bootstrap_virt (add32 info.mmap_addr info.mmap_length))

-- Steps 1 and 2 of `pmm_init`; `kernel_end` is the address of the linker's `__kernel_phys_end`.
pub blank_pmm : ℕ → ℕ → Pmm
blank_pmm kernel_end total = record {
  bitmap = replicate (add32 (total / page_size) 7 / 8) 0xFF;
  bitmap_base = align_up kernel_end page_size;
  bitmap_bytes = add32 (total / page_size) 7 / 8;
  total_memory_bytes = total;
  total_pages = total / page_size;
  free_pages = 0;
  ready = false;
}

pub bitmap_end : Pmm → ℕ
bitmap_end s = align_up (add32 s.bitmap_base s.bitmap_bytes) page_size

-- Step 3: whether the memory map is used.
pub uses_map : ℕ → Option MultibootInfo → Option MultibootInfo
uses_map magic none = none
uses_map magic (some info) =
    if magic == bootloader_magic && (flag_set info.flags 0x40 && not (info.mmap_length == 0))
    then some info
    else none

-- Steps 4 and 5.
pub finish_init : Pmm → Pmm
finish_init s = record (reserve_range s 0 (bitmap_end s)) { ready = true }

pub init : (ℕ → MmapEntry) → ℕ → ℕ → ℕ → Option MultibootInfo → Option Pmm
init memory fuel kernel_end magic info =
    let s = blank_pmm kernel_end (detect_total_memory_bytes magic info) in
    elim (uses_map magic info) [
      | some map ↦ Option.map finish_init (free_memory_from_map memory fuel s map)
      | none ↦ some (finish_init (free_range s low_memory_reserved_bytes s.total_memory_bytes))
    ]

-- The address of the page allocated, or 0.
pub alloc_page : Pmm → Pmm × ℕ
alloc_page s = if not s.ready then (s, 0) else elim (first_free s.bitmap 0 s.total_pages) [
  | none ↦ (s, 0)
  | some page ↦ (reserve_page s page, mul32 page page_size)
]

-- `pmm_free_page`.
pub release_page : Pmm → ℕ → Pmm
release_page s phys_addr =
    if not s.ready || not (phys_addr % page_size == 0)
    then s
    else if ltb (mul32 (phys_addr / page_size) page_size) (bitmap_end s)
    then s
    else free_page s (phys_addr / page_size)

pub get_used_pages : Pmm → ℕ
get_used_pages s = sub32 s.total_pages s.free_pages
