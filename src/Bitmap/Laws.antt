-- ===== src/Bitmap/Laws.antt =====
-- The bitmap as a set of indices, and the number of indices that are free.
use os_curriculum_design.Prelude.{
  ℕ, zero, suc, ◌*◌, ◌/◌, ◌%◌, ◌≤◌, ◌<◌, ◌≡◌, refl, ap, arith, true, false, List, [], ◌∷◌,
  if◌then◌else◌, ◌==◌, get_or, set, length, All, All-set, length-set, get_or-set_self,
  get_or-set_ne, set-set,
}
use native.Mathlib.Decide.{ℕ_discrete}
use os_curriculum_design.Bitmap.Bytes.{set_bit, clear_bit, IsByte, set_bit_laws, clear_bit_laws}
use os_curriculum_design.Bitmap.{bitmap_test, bitmap_set, bitmap_clear}

-- A bitmap of bytes that has a bit for every index below `n`.
pub record IsBitmap (n : ℕ) (bitmap : List ℕ) : Type 0 where
  pub bytes : All IsByte bitmap
  pub room : n ≤ 8 * length bitmap

All-get_or : (m : List ℕ) (i : ℕ) → All IsByte m → IsByte (get_or m i 0)
All-get_or [] i h = omega arith
All-get_or (b ∷ m) zero h = h.0
All-get_or (b ∷ m) (suc i) h = All-get_or m i h.1

set-get_or : (m : List ℕ) (i : ℕ) → set m i (get_or m i 0) ≡ m
set-get_or [] i = refl
set-get_or (b ∷ m) zero = refl
set-get_or (b ∷ m) (suc i) = ap (◌∷◌ b) (set-get_or m i)

module _ (n : ℕ) (m : List ℕ) (h : IsBitmap n m) (i : ℕ) (lt : i < n) where
  get_or-IsByte : IsByte (get_or m (i / 8) 0)
  get_or-IsByte = All-get_or m (i / 8) h.bytes

  in_range : i / 8 < length m
  in_range = omega (arith, h.room)

  pub bitmap_set-IsBitmap : IsBitmap n (bitmap_set m i)
  unfolding bitmap_set
  bitmap_set-IsBitmap = record {
    bytes =
        All-set IsByte m (i / 8) _ h.bytes
          (set_bit_laws _ (i % 8) (i % 8) get_or-IsByte (omega arith) (omega arith)).0;
    room = omega (arith, length-set m (i / 8) (set_bit (get_or m (i / 8) 0) (i % 8)), h.room);
  }

  pub bitmap_clear-IsBitmap : IsBitmap n (bitmap_clear m i)
  unfolding bitmap_clear
  bitmap_clear-IsBitmap = record {
    bytes =
        All-set IsByte m (i / 8) _ h.bytes
          (clear_bit_laws _ (i % 8) (i % 8) get_or-IsByte (omega arith) (omega arith)).0;
    room = omega (arith, length-set m (i / 8) (clear_bit (get_or m (i / 8) 0) (i % 8)), h.room);
  }

  -- Setting one bit takes that index and no other.
  pub bitmap_test-set :
      (j : ℕ) → bitmap_test (bitmap_set m i) j ≡ (if i == j then true else bitmap_test m j)
  unfolding bitmap_test bitmap_set
  bitmap_test-set j = elim (ℕ_discrete (i / 8) (j / 8)) [
    | yes e ↦ ground (
      arith,
      e,
      ap (λ (q : ℕ). get_or (set m (i / 8) (set_bit (get_or m (i / 8) 0) (i % 8))) q 0) e,
      ap (λ (q : ℕ). get_or m q 0) e,
      get_or-set_self m (i / 8) (set_bit (get_or m (i / 8) 0) (i % 8)) 0 in_range,
      set_bit_laws (get_or m (i / 8) 0) (j % 8) (i % 8) get_or-IsByte (omega arith) (omega arith),
    )
    | no ne ↦ ground (arith, ne, get_or-set_ne m (set_bit (get_or m (i / 8) 0) (i % 8)) 0 ne)
  ]

  -- Clearing one bit frees that index and no other.
  pub bitmap_test-clear :
      (j : ℕ) → bitmap_test (bitmap_clear m i) j ≡ (if i == j then false else bitmap_test m j)
  unfolding bitmap_test bitmap_clear
  bitmap_test-clear j = elim (ℕ_discrete (i / 8) (j / 8)) [
    | yes e ↦ ground (
      arith,
      e,
      ap (λ (q : ℕ). get_or (set m (i / 8) (clear_bit (get_or m (i / 8) 0) (i % 8))) q 0) e,
      ap (λ (q : ℕ). get_or m q 0) e,
      get_or-set_self m (i / 8) (clear_bit (get_or m (i / 8) 0) (i % 8)) 0 in_range,
      clear_bit_laws (get_or m (i / 8) 0) (j % 8) (i % 8) get_or-IsByte (omega arith) (omega arith),
    )
    | no ne ↦ ground (arith, ne, get_or-set_ne m (clear_bit (get_or m (i / 8) 0) (i % 8)) 0 ne)
  ]

  -- Freeing an index just taken restores the bitmap.
  pub bitmap_clear-set : bitmap_test m i ≡ false → bitmap_clear (bitmap_set m i) i ≡ m
  unfolding bitmap_test bitmap_set bitmap_clear
  bitmap_clear-set free =
      rw
        (
          set-set,
          get_or-set_self m (i / 8) (set_bit (get_or m (i / 8) 0) (i % 8)) 0 in_range,
          (clear_bit_laws (get_or m (i / 8) 0) (i % 8) (i % 8) get_or-IsByte (omega arith)
                (omega arith)).2
              free,
        )
        (set-get_or m (i / 8))

-- Clearing keeps a bitmap one, also beyond its end, where it changes nothing.
pub clear-IsBitmap : (n : ℕ) (m : List ℕ) (i : ℕ) → IsBitmap n m → IsBitmap n (bitmap_clear m i)
unfolding bitmap_clear
clear-IsBitmap n m i h = record {
  bytes =
      All-set IsByte m (i / 8) _ h.bytes
        (clear_bit_laws _ (i % 8) (i % 8) (All-get_or m (i / 8) h.bytes) (omega arith)
          (omega arith)).0;
  room = omega (arith, length-set m (i / 8) (clear_bit (get_or m (i / 8) 0) (i % 8)), h.room);
}
