-- ===== src/Bitmap/Count.antt =====
-- The number of indices below `n` whose bit is 0.
use os_curriculum_design.Prelude.{
  ℕ, zero, suc, ◌+◌, ◌≤◌, ◌<◌, ◌≡◌, refl, arith, Bool, true, false, List, if◌then◌else◌, ◌==◌,
}
use native.Mathlib.Decide.{ℕ_discrete}
use os_curriculum_design.Bitmap.{bitmap_test, bitmap_set, bitmap_clear}
use os_curriculum_design.Bitmap.Laws.{IsBitmap, bitmap_test-set, bitmap_test-clear}

unfoldable pub count_free : List ℕ → ℕ → ℕ
count_free m zero = 0
count_free m (suc n) = (if bitmap_test m n then 0 else 1) + count_free m n

pub count_free-le : (m : List ℕ) (n : ℕ) → count_free m n ≤ n
unfolding count_free
count_free-le m zero = omega arith
count_free-le m (suc n) = ground (arith, count_free-le m n)

count_free-same :
    (m m' : List ℕ) (i : ℕ) (b : Bool)
    → ((j : ℕ) → bitmap_test m' j ≡ (if i == j then b else bitmap_test m j))
    → (n : ℕ) → n ≤ i
    → count_free m' n ≡ count_free m n
unfolding count_free
count_free-same m m' i b h zero le = refl
count_free-same m m' i b h (suc n) le = ground (arith, h n, count_free-same m m' i b h n)

-- A change of one bit changes the count by what that bit counts.
count_free-update :
    (m m' : List ℕ) (i : ℕ) (b : Bool)
    → ((j : ℕ) → bitmap_test m' j ≡ (if i == j then b else bitmap_test m j))
    → (n : ℕ) → i < n
    → count_free m' n + (if bitmap_test m i then 0 else 1) ≡ count_free m n + (if b then 0 else 1)
unfolding count_free
count_free-update m m' i b h zero lt = absurd (omega arith)
count_free-update m m' i b h (suc n) lt = elim (ℕ_discrete i n) [
  | yes e ↦ ground (arith, h n, e, count_free-same m m' i b h n)
  | no ne ↦ ground (arith, h n, ne, count_free-update m m' i b h n)
]

pub count_free-set :
    (n : ℕ) (m : List ℕ)
    → IsBitmap n m
    → (i : ℕ) → i < n
    → bitmap_test m i ≡ false
    → count_free (bitmap_set m i) n + 1 ≡ count_free m n
count_free-set n m h i lt free =
    ground
      (arith, free, count_free-update m (bitmap_set m i) i true (bitmap_test-set n m h i lt) n lt)

pub count_free-clear :
    (n : ℕ) (m : List ℕ)
    → IsBitmap n m
    → (i : ℕ) → i < n
    → bitmap_test m i ≡ true
    → count_free (bitmap_clear m i) n ≡ count_free m n + 1
count_free-clear n m h i lt taken = ground (
  arith,
  taken,
  count_free-update m (bitmap_clear m i) i false (bitmap_test-clear n m h i lt) n lt,
)

-- No index is free exactly when the count is 0.
pub count_free_zero : (m : List ℕ) (n i : ℕ) → count_free m n ≡ 0 → i < n → bitmap_test m i ≡ true
unfolding count_free
count_free_zero m zero i e lt = absurd (omega arith)
count_free_zero m (suc n) i e lt = elim (ℕ_discrete i n) [
  | yes same ↦ ground (arith, same)
  | no ne ↦ count_free_zero m n i (ground arith) (omega arith)
]

pub count_free_pos : (m : List ℕ) (n i : ℕ) → i < n → bitmap_test m i ≡ false → 0 < count_free m n
unfolding count_free
count_free_pos m zero i lt e = absurd (omega arith)
count_free_pos m (suc n) i lt e = elim (ℕ_discrete i n) [
  | yes same ↦ ground (arith, same)
  | no ne ↦ ground (arith, ne, count_free_pos m n i)
]

pub count_free_none :
    (m : List ℕ) (n : ℕ) → ((j : ℕ) → j < n → bitmap_test m j ≡ true) → count_free m n ≡ 0
unfolding count_free
count_free_none m zero h = refl
count_free_none m (suc n) h =
    ground (arith, h n (omega arith), count_free_none m n (λ j lt. h j (omega arith)))
