-- ===== src/Pmm/Pages.antt =====
-- The invariant of the allocator, and what taking and freeing one page do.
use os_curriculum_design.Prelude.{
  ℕ, ◌+◌, ◌-◌, ◌*◌, ◌/◌, ◌%◌, ◌^◌, ◌≤◌, ◌<◌, ◌≡◌, refl, arith, Bool, true, false, if◌then◌else◌,
  ◌==◌, bit_and-field,
}
use os_curriculum_design.Bitmap.{bitmap_test, bitmap_set, bitmap_clear}
use os_curriculum_design.Bitmap.Laws.{
  IsBitmap, bitmap_set-IsBitmap, bitmap_clear-IsBitmap, bitmap_test-set, bitmap_test-clear,
  bitmap_clear-set,
}
use os_curriculum_design.Bitmap.Count.{
  count_free, count_free-le, count_free-set, count_free-clear, count_free_pos,
}
use os_curriculum_design.Pmm.{Pmm, page_size, align_down, align_up, reserve_page, free_page}

-- The bitmap has a bit for every page, and `free_pages` counts the pages whose bit is 0.
pub record IsValid (s : Pmm) : Type 0 where
  pub map : IsBitmap s.total_pages s.bitmap
  pub counted : s.free_pages ≡ count_free s.bitmap s.total_pages
  pub small : s.total_pages < 2 ^ 20

-- Both alignments in whole pages. `align_up` wraps in the last page of the address space.
pub align_down_lem : (v : ℕ) → v < 2 ^ 32 → align_down v page_size ≡ v / page_size * page_size
unfolding align_down
align_down_lem v h = omega (arith, bit_and-field 20 12 v)

pub align_up_lem :
    (v : ℕ)
    → v + page_size ≤ 2 ^ 32
    → align_up v page_size ≡ (v + (page_size - 1)) / page_size * page_size
unfolding align_up
align_up_lem v h = omega (arith, bit_and-field 20 12 ((v + page_size - 1) % 2 ^ 32))

-- A page is taken: its bit is 1.
abbrev pub IsTaken : Pmm → ℕ → Type 0
IsTaken s page = bitmap_test s.bitmap page ≡ true

-- What one call may change: the bit of `page`, and the count.
pub record Changes (s s' : Pmm) (page : ℕ) (taken : Bool) : Type 0 where
  pub valid : IsValid s'
  pub bits :
      (j : ℕ) → bitmap_test s'.bitmap j ≡ (if page == j then taken else bitmap_test s.bitmap j)
  pub pages : s'.total_pages ≡ s.total_pages
  pub memory : s'.total_memory_bytes ≡ s.total_memory_bytes
  pub base : s'.bitmap_base ≡ s.bitmap_base
  pub size : s'.bitmap_bytes ≡ s.bitmap_bytes
  pub ready : s'.ready ≡ s.ready

module _ (s : Pmm) (v : IsValid s) (page : ℕ) (in_range : page < s.total_pages) where
  reserve_page-eq :
      bitmap_test s.bitmap page ≡ false
      → reserve_page s page
        ≡ record s { bitmap = bitmap_set s.bitmap page; free_pages = s.free_pages - 1 }
  unfolding reserve_page
  reserve_page-eq free =
      ground (arith, free, v.counted, count_free_pos s.bitmap s.total_pages page in_range free)

  free_page-eq :
      bitmap_test s.bitmap page ≡ true
      → free_page s page
        ≡ record s { bitmap = bitmap_clear s.bitmap page; free_pages = s.free_pages + 1 }
  unfolding free_page
  free_page-eq taken =
      ground (arith, taken, v.counted, v.small, count_free-le s.bitmap s.total_pages)

  -- Taking a free page sets its bit, no other, and counts it.
  pub reserve_page_lem :
      bitmap_test s.bitmap page ≡ false
      → Changes s (reserve_page s page) page true
        × ((reserve_page s page).free_pages + 1 ≡ s.free_pages)
  reserve_page_lem free =
      let one_less = count_free-set s.total_pages s.bitmap v.map page in_range free in
      rw (reserve_page-eq free) (
        record {
          valid = record {
            map = bitmap_set-IsBitmap s.total_pages s.bitmap v.map page in_range;
            counted = omega (arith, one_less, v.counted);
            small = v.small;
          };
          bits = bitmap_test-set s.total_pages s.bitmap v.map page in_range;
          pages = refl;
          memory = refl;
          base = refl;
          size = refl;
          ready = refl;
        },
        omega (arith, v.counted, count_free_pos s.bitmap s.total_pages page in_range free),
      )

  -- Freeing a taken page clears its bit, no other, and counts it.
  pub free_page_lem :
      bitmap_test s.bitmap page ≡ true
      → Changes s (free_page s page) page false × ((free_page s page).free_pages ≡ s.free_pages + 1)
  free_page_lem taken =
      let one_more = count_free-clear s.total_pages s.bitmap v.map page in_range taken in
      rw (free_page-eq taken) (
        record {
          valid = record {
            map = bitmap_clear-IsBitmap s.total_pages s.bitmap v.map page in_range;
            counted = omega (arith, one_more, v.counted);
            small = v.small;
          };
          bits = bitmap_test-clear s.total_pages s.bitmap v.map page in_range;
          pages = refl;
          memory = refl;
          base = refl;
          size = refl;
          ready = refl;
        },
        refl,
      )

  -- Freeing a page that was just taken restores the whole state.
  pub free_page-reserve_page :
      bitmap_test s.bitmap page ≡ false → free_page (reserve_page s page) page ≡ s
  unfolding free_page
  free_page-reserve_page free = ground (
    arith,
    free,
    reserve_page-eq free,
    bitmap_test-set s.total_pages s.bitmap v.map page in_range page,
    bitmap_clear-set s.total_pages s.bitmap v.map page in_range free,
    v.counted,
    v.small,
    count_free-le s.bitmap s.total_pages,
    count_free_pos s.bitmap s.total_pages page in_range free,
  )

-- A page out of range, or in the state asked for, is left alone.
pub free_page_idle : (s : Pmm) (page : ℕ) → bitmap_test s.bitmap page ≡ false → free_page s page ≡ s
unfolding free_page
free_page_idle s page free = ground (arith, free)

pub reserve_page_idle :
    (s : Pmm) (page : ℕ) → bitmap_test s.bitmap page ≡ true → reserve_page s page ≡ s
unfolding reserve_page
reserve_page_idle s page taken = ground (arith, taken)

pub page_out_of_range :
    (s : Pmm) (page : ℕ) → s.total_pages ≤ page → (free_page s page ≡ s) × (reserve_page s page ≡ s)
unfolding free_page reserve_page
page_out_of_range s page h = (ground arith, ground arith)
