-- ===== src/Pmm/Allocate.antt =====
-- `pmm_alloc_page` and `pmm_free_page`.
use os_curriculum_design.Prelude.{
  ℕ, ◌*◌, ◌/◌, ◌%◌, ◌^◌, ◌≤◌, ◌<◌, ◌≡◌, ◌≢◌, refl, ap, sym, ◌∙◌, arith, Bool, true, false, none,
  some, Bool-cases, Option-cases, inl, inr, ◌⊎◌,
}
use mathlib.Core.Bool.{false≢true}
use native.Mathlib.Decide.{ℕ_discrete, dec_lt}
use os_curriculum_design.Bitmap.{bitmap_test}
use os_curriculum_design.Bitmap.FirstFree.{first_free, first_free-some, first_free-none}
use os_curriculum_design.Bitmap.Count.{count_free_pos, count_free_none}
use os_curriculum_design.Pmm.{
  Pmm, page_size, bitmap_end, reserve_page, free_page, alloc_page, release_page,
}
use os_curriculum_design.Pmm.Pages.{
  IsValid, IsTaken, Changes, reserve_page_lem, free_page_lem, free_page-reserve_page,
  free_page_idle, page_out_of_range,
}

-- The allocator after `pmm_init`: the pages below the end of the bitmap, page 0 among them, are
-- taken for good.
pub record IsReady (s : Pmm) : Type 0 where
  pub valid : IsValid s
  pub is_ready : s.ready ≡ true
  pub kernel : 0 < bitmap_end s
  pub reserved : (j : ℕ) → j < s.total_pages → j * page_size < bitmap_end s → IsTaken s j

-- The page that a successful allocation takes.
pub record Allocates (s : Pmm) (page : ℕ) : Type 0 where
  pub in_range : page < s.total_pages
  pub was_free : bitmap_test s.bitmap page ≡ false
  pub lowest : (j : ℕ) → j < page → IsTaken s j
  pub above : bitmap_end s ≤ page * page_size
  pub result : alloc_page s ≡ (reserve_page s page, page * page_size)

alloc_page_found :
    (s : Pmm) (page : ℕ)
    → s.ready ≡ true
    → first_free s.bitmap 0 s.total_pages ≡ some page
    → page < 2 ^ 20
    → alloc_page s ≡ (reserve_page s page, page * page_size)
unfolding alloc_page
alloc_page_found s page r e small = ground (arith, r, e)

alloc_page_full : (s : Pmm) → first_free s.bitmap 0 s.total_pages ≡ none → alloc_page s ≡ (s, 0)
unfolding alloc_page
alloc_page_full s e = ground (arith, e)

-- In an allocator that is ready `pmm_alloc_page` fails, and changes nothing, exactly when no page
-- is free; otherwise it returns the address of the lowest free page, which lies above the bitmap.
pub alloc_page_cases :
    (s : Pmm)
    → IsReady s
    → ((s.free_pages ≡ 0) × (alloc_page s ≡ (s, 0)))
      ⊎ ((0 < s.free_pages) × ((page : ℕ) × Allocates s page))
alloc_page_cases s r = elim (Option-cases (first_free s.bitmap 0 s.total_pages)) [
  | inl e ↦ inl (
    r.valid.counted
        ∙ count_free_none s.bitmap s.total_pages
            (λ j h. first_free-none s.bitmap 0 s.total_pages e j (omega arith) (omega arith)),
    alloc_page_full s e,
  )
  | inr (page, e) ↦
      let (_, below, free, lower) = first_free-some s.bitmap 0 s.total_pages page e in
      inr (
        omega
            (arith, r.valid.counted, count_free_pos s.bitmap s.total_pages page (omega arith) free),
        (
          page,
          record {
            in_range = omega arith;
            was_free = free;
            lowest = λ j h. lower j (omega arith) h;
            above = elim (dec_lt (page * page_size) (bitmap_end s)) [
              | yes h ↦ absurd (false≢true (sym free ∙ r.reserved page (omega arith) h))
              | no h ↦ omega arith
            ];
            result = alloc_page_found s page r.is_ready e (omega (arith, r.valid.small));
          },
        ),
      )
]

pub bitmap_end-same :
    (s s' : Pmm)
    → s'.bitmap_base ≡ s.bitmap_base
    → s'.bitmap_bytes ≡ s.bitmap_bytes
    → bitmap_end s' ≡ bitmap_end s
unfolding bitmap_end
bitmap_end-same s s' base size = ground (arith, base, size)

-- A change of one page leaves the allocator ready, unless it frees a page of the kernel.
pub Changes-IsReady :
    (s s' : Pmm) (page : ℕ) (taken : Bool)
    → IsReady s
    → Changes s s' page taken
    → (taken ≡ true) ⊎ (bitmap_end s ≤ page * page_size)
    → IsReady s'
Changes-IsReady s s' page taken r c h =
    let same_end = bitmap_end-same s s' c.base c.size in
    record {
      valid = c.valid;
      is_ready = c.ready ∙ r.is_ready;
      kernel = omega (arith, same_end, r.kernel);
      reserved = λ j lt below.
          let old = r.reserved j (omega (arith, c.pages)) (omega (arith, same_end)) in
          kept j old (omega (arith, same_end));
    }
  where
    kept : (j : ℕ) → IsTaken s j → j * page_size < bitmap_end s → IsTaken s' j
    kept j old below = ground (arith, c.bits j, old, h)

-- `pmm_free_page` of an address that is not page-aligned, or lies in the kernel or the bitmap,
-- changes nothing.
pub release_page_refused :
    (s : Pmm) (a : ℕ) → a < 2 ^ 32 → (a % page_size ≢ 0) ⊎ (a < bitmap_end s) → release_page s a ≡ s
unfolding release_page
release_page_refused s a w h = ground (arith, h)

pub release_page_accepted :
    (s : Pmm) (a : ℕ)
    → IsReady s
    → a < 2 ^ 32
    → a % page_size ≡ 0
    → bitmap_end s ≤ a
    → release_page s a ≡ free_page s (a / page_size)
unfolding release_page
release_page_accepted s a r w aligned above = ground (arith, r.is_ready)

-- In an allocator that is ready, freeing what was just allocated restores the whole state.
pub release_page-alloc_page :
    (s : Pmm)
    → IsReady s
    → (alloc_page s).1 ≢ 0
    → release_page (alloc_page s).0 (alloc_page s).1 ≡ s
release_page-alloc_page s r ne = elim (alloc_page_cases s r) [
  | inl (full, e) ↦ absurd (ne (ground (arith, e)))
  | inr (some_free, (page, a)) ↦ restored page a
]
  where
    restored : (page : ℕ) → Allocates s page → release_page (alloc_page s).0 (alloc_page s).1 ≡ s
    restored page a =
        let (c, _) = reserve_page_lem s r.valid page a.in_range a.was_free in
        let r' = Changes-IsReady s _ page true r c (inl refl) in
        let small = r.valid.small in
        let lt = a.in_range in
        let above = a.above in
        let same_end = bitmap_end-same s (reserve_page s page) c.base c.size in
        let back : page * page_size / page_size ≡ page = omega arith in
        rw a.result (
          release_page_accepted _ (page * page_size) r' (omega arith) (omega arith)
            (rw same_end above)
          ∙ rw back (free_page-reserve_page s r.valid page lt a.was_free))

-- In an allocator that is ready, a second `pmm_free_page` of the same address changes nothing.
pub release_page_twice :
    (s : Pmm) (a : ℕ)
    → IsReady s
    → a < 2 ^ 32
    → release_page (release_page s a) a ≡ release_page s a
release_page_twice s a r w = elim (ℕ_discrete (a % page_size) 0) [
  | no ne ↦ again (release_page_refused s a w (inl ne))
  | yes aligned ↦ elim (dec_lt a (bitmap_end s)) [
    | yes low ↦ again (release_page_refused s a w (inr low))
    | no above ↦
        let first = release_page_accepted s a r w aligned (omega arith) in
        elim (Bool-cases (bitmap_test s.bitmap (a / page_size))) [
          | inr free ↦ again (first ∙ free_page_idle s (a / page_size) free)
          | inl taken ↦ elim (dec_lt (a / page_size) s.total_pages) [
            | no out ↦ again (first ∙ (page_out_of_range s (a / page_size) (omega arith)).0)
            | yes lt ↦
                let (c, _) = free_page_lem s r.valid (a / page_size) lt taken in
                let r' = Changes-IsReady s _ (a / page_size) false r c (inr (omega arith)) in
                let same_end = bitmap_end-same s (free_page s (a / page_size)) c.base c.size in
                rw first (
                  release_page_accepted _ a r' w aligned (rw same_end (omega arith))
                  ∙ free_page_idle _ (a / page_size) (ground (arith, c.bits (a / page_size))))
          ]
        ]
  ]
]
  where
    again : release_page s a ≡ s → release_page (release_page s a) a ≡ release_page s a
    again e = ap (λ (t : Pmm). release_page t a) e
