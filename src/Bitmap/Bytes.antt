-- ===== src/Bitmap/Bytes.antt =====
-- One byte of a bitmap. The laws are checked at every byte and every pair of bits.
use Prim.Native.Nat.{bit_and, bit_or}
use mathlib.Core.Bool.{beq}
use os_curriculum_design.Prelude.{
  ℕ, ◌+◌, ◌-◌, ◌*◌, ◌/◌, ◌%◌, ◌^◌, ◌<◌, ◌≡◌, refl, arith, Bool, true, false, not, ◌&&◌,
  if◌then◌else◌, ◌==◌, ltb, ltb→lt, ==_iff, all_below, of_all_below,
}

-- `(byte & (uint8_t)(1U << k)) != 0`.
unfoldable pub test_bit : ℕ → ℕ → Bool
test_bit byte k = not (bit_and byte (2 ^ k % 256) == 0)

-- `byte |= (uint8_t)(1U << k)`.
unfoldable pub set_bit : ℕ → ℕ → ℕ
set_bit byte k = bit_or byte (2 ^ k % 256)

-- `byte &= (uint8_t)~(1U << k)`.
unfoldable pub clear_bit : ℕ → ℕ → ℕ
clear_bit byte k = bit_and byte ((2 ^ 32 - 1 - 2 ^ k) % 256)

abbrev pub IsByte : ℕ → Type 0
IsByte b = b < 256

-- The laws at one byte and two bits of it.
set_row : ℕ → ℕ → ℕ → Bool
unfolding test_bit set_bit
set_row byte j k =
    ltb (set_bit byte k) 256
    && beq (test_bit (set_bit byte k) j) (if k == j then true else test_bit byte j)

clear_row : ℕ → ℕ → ℕ → Bool
unfolding test_bit set_bit clear_bit
clear_row byte j k =
    ltb (clear_bit byte k) 256
    && beq (test_bit (clear_bit byte k) j) (if k == j then false else test_bit byte j)
    && (if test_bit byte k then true else clear_bit (set_bit byte k) k == byte)

-- Every byte and pair of bits, as one number.
abbrev all_bytes : (ℕ → ℕ → ℕ → Bool) → Bool
all_bytes row = all_below 16384 (λ x. row (x / 64) (x / 8 % 8) (x % 8))

set_table : all_bytes set_row ≡ true
unfolding all_below set_row
set_table = refl

clear_table : all_bytes clear_row ≡ true
unfolding all_below clear_row
clear_table = refl

of_all_bytes :
    (row : ℕ → ℕ → ℕ → Bool) (byte j k : ℕ)
    → all_bytes row ≡ true
    → IsByte byte
    → j < 8
    → k < 8
    → row byte j k ≡ true
of_all_bytes row byte j k table b hj hk =
    of_number (byte * 64 + j * 8 + k) (omega arith) (omega arith) (omega arith) (omega arith)
  where
    of_number :
        (x : ℕ) → x < 16384 → x / 64 ≡ byte → x / 8 % 8 ≡ j → x % 8 ≡ k → row byte j k ≡ true
    of_number x lt at_byte at_j at_k =
        rw (← at_byte, ← at_j, ← at_k) (of_all_below 16384 _ x table lt)

both : (a b : Bool) → (a && b) ≡ true → (a ≡ true) × (b ≡ true)
both a b h = ground arith

same : (a b : Bool) → beq a b ≡ true → a ≡ b
same a b h = ground arith

module _ (byte j k : ℕ) (b : IsByte byte) (hj : j < 8) (hk : k < 8) where
  pub set_bit_laws :
      IsByte (set_bit byte k)
      × (test_bit (set_bit byte k) j ≡ (if k == j then true else test_bit byte j))
  unfolding set_row
  set_bit_laws =
      let (in_range, bit) = both _ _ (of_all_bytes set_row byte j k set_table b hj hk) in
      (ltb→lt _ _ in_range, same _ _ bit)

  pub clear_bit_laws :
      IsByte (clear_bit byte k)
      × (test_bit (clear_bit byte k) j ≡ (if k == j then false else test_bit byte j))
      × (test_bit byte k ≡ false → clear_bit (set_bit byte k) k ≡ byte)
  unfolding clear_row
  clear_bit_laws =
      let (front, back) = both _ _ (of_all_bytes clear_row byte j k clear_table b hj hk) in
      let (in_range, bit) = both _ _ front in
      (ltb→lt _ _ in_range, same _ _ bit, λ free. (==_iff _ _).0 (rw free at back))
