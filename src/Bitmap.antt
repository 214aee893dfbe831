-- ===== src/Bitmap.antt =====
-- The bitmaps of mm/pmm.c and fs/simplefs.c: bit `index % 8` of byte `index / 8` is 1 when the page,
-- inode or block of that index is taken. Both files have the same three functions.
pub mod Bytes
pub mod Laws
pub mod Count
pub mod FirstFree
use Prim.Native.Nat.{bit_and, bit_or}
use os_curriculum_design.Prelude.{
  ℕ, zero, suc, ◌+◌, ◌-◌, ◌*◌, ◌/◌, ◌%◌, ◌^◌, ◌≤◌, ◌<◌, ◌≡◌, ◌≢◌, refl, arith, Bool, true, false,
  not, List, [], ◌∷◌, if◌then◌else◌, ◌==◌, get_or, set, length, All, All-set, length-set,
  get_or-set_self, get_or-set_ne,
}
use Bytes.{test_bit, set_bit, clear_bit, IsByte}

unfoldable pub bitmap_test : List ℕ → ℕ → Bool
bitmap_test bitmap index = test_bit (get_or bitmap (index / 8) 0) (index % 8)

unfoldable pub bitmap_set : List ℕ → ℕ → List ℕ
bitmap_set bitmap index = set bitmap (index / 8) (set_bit (get_or bitmap (index / 8) 0) (index % 8))

unfoldable pub bitmap_clear : List ℕ → ℕ → List ℕ
bitmap_clear bitmap index =
    set bitmap (index / 8) (clear_bit (get_or bitmap (index / 8) 0) (index % 8))
