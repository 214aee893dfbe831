-- ===== src/Bitmap/FirstFree.antt =====
-- The search for the first bit that is 0.
use os_curriculum_design.Prelude.{
  ℕ, zero, suc, ◌+◌, ◌≤◌, ◌<◌, ◌≡◌, subst, arith, true, false, Option, none, some, List, Bool-cases,
  inl, inr,
}
use native.Mathlib.Decide.{ℕ_discrete}
use os_curriculum_design.Bitmap.{bitmap_test}

-- The first free index from `page` on, with `count` indices to go: the loop of `pmm_alloc_page`, and
-- of the allocations of simplefs.c.
unfoldable pub first_free : List ℕ → ℕ → ℕ → Option ℕ
first_free bitmap page zero = none
first_free bitmap page (suc count) = elim (bitmap_test bitmap page) [
  | true ↦ first_free bitmap (page + 1) count
  | false ↦ some page
]

pub first_free-some :
    (m : List ℕ) (page count q : ℕ)
    → first_free m page count ≡ some q
    → (page ≤ q)
      × (q < page + count)
      × (bitmap_test m q ≡ false)
      × ((j : ℕ) → page ≤ j → j < q → bitmap_test m j ≡ true)
unfolding first_free
first_free-some m page zero q e = cc
first_free-some m page (suc count) q e = elim (Bool-cases (bitmap_test m page)) [
  | inr free ↦
      let at : page ≡ q = ground (arith, free, e) in
      (
        omega arith,
        omega arith,
        subst (λ (k : ℕ). bitmap_test m k ≡ false) at free,
        λ j h k. absurd (omega arith),
      )
  | inl taken ↦
      let (above, below, free, lower) =
        first_free-some m (page + 1) count q (ground (arith, taken, e)) in
      (
        omega arith,
        omega arith,
        free,
        λ j h k. elim (ℕ_discrete page j) [
          | yes same ↦ subst (λ (i : ℕ). bitmap_test m i ≡ true) same taken
          | no ne ↦ lower j (omega arith) k
        ],
      )
]

pub first_free-none :
    (m : List ℕ) (page count : ℕ)
    → first_free m page count ≡ none
    → (j : ℕ) → page ≤ j
    → j < page + count
    → bitmap_test m j ≡ true
unfolding first_free
first_free-none m page zero e j h k = absurd (omega arith)
first_free-none m page (suc count) e j h k = elim (Bool-cases (bitmap_test m page)) [
  | inr free ↦ absurd (ground (arith, free, e))
  | inl taken ↦ elim (ℕ_discrete page j) [
    | yes same ↦ subst (λ (i : ℕ). bitmap_test m i ≡ true) same taken
    | no ne ↦
        first_free-none m (page + 1) count (ground (arith, taken, e)) j (omega arith) (omega arith)
  ]
]
