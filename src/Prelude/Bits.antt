-- ===== src/Prelude/Bits.antt =====
-- `&` with a mask of consecutive ones, as arithmetic, and finite checks over small ranges.
use Prim.Native.Nat.{
  ℕ, zero, suc, ◌+◌, ◌-◌, ◌*◌, ◌/◌, ◌%◌, ◌^◌, ◌≤◌, ◌<◌, min, bit_and, digits, bit_and-bitwise,
}
use mathlib.Core.Path.{◌≡◌, refl, ap, sym, ◌∙◌}
use mathlib.Core.Bool.{Bool, true, ◌&&◌}
use native.Mathlib.Omega.{arith}
use native.Mathlib.Nat.{pow-suc, one-le-pow, mul-one, mod-lt, div-add-mod'}

-- The digit recursion that `bit_and` stands for, with `fuel` digits to go.
abbrev and_from : ℕ → ℕ → ℕ → ℕ
and_from = digits (λ y. 0) min

and_from-zero : (fuel a : ℕ) → and_from fuel a 0 ≡ 0
and_from-zero zero a = refl
and_from-zero (suc fuel) zero = refl
and_from-zero (suc fuel) (suc a) = omega (arith, and_from-zero fuel (suc a / 2))

twice : (q k : ℕ) → q * 2 ^ suc k ≡ 2 * (q * 2 ^ k)
twice q k = omega (arith, ap (λ (t : ℕ). q * t) (pow-suc 2 k))

half_mask : (k : ℕ) → (2 ^ suc k - 1) / 2 ≡ 2 ^ k - 1
half_mask k = omega (arith, pow-suc 2 k, one-le-pow k 2 (omega arith))

-- Of `a = q * 2 ^ k + r` a mask of `k` low ones keeps `r`.
and_from_low :
    (fuel k a q r : ℕ) → a ≤ fuel → a ≡ q * 2 ^ k + r → r < 2 ^ k → and_from fuel a (2 ^ k - 1) ≡ r
and_from_low zero k a q r h e lt = omega arith
and_from_low (suc fuel) k zero q r h e lt = omega arith
and_from_low (suc fuel) zero (suc a) q r h e lt = omega (arith, and_from-zero fuel (suc a / 2))
and_from_low (suc fuel) (suc k) (suc a) q r h e lt = rw (half_mask k) (
    omega (
      arith,
      and_from_low fuel k (suc a / 2) q (r / 2) (omega arith) (omega (arith, twice q k))
          (omega (arith, pow-suc 2 k)),
      twice q k,
      pow-suc 2 k,
      one-le-pow k 2 (omega arith),
    ))

-- Of `a = (t * 2 ^ j + s) * 2 ^ k + r` a mask of `j` ones above `k` zeros keeps `s`.
and_from_field :
    (fuel k j a t s r : ℕ)
    → a ≤ fuel
    → a ≡ (t * 2 ^ j + s) * 2 ^ k + r
    → s < 2 ^ j
    → r < 2 ^ k
    → and_from fuel a ((2 ^ j - 1) * 2 ^ k) ≡ s * 2 ^ k
and_from_field zero k j a t s r h e ls lr = omega arith
and_from_field (suc fuel) k j zero t s r h e ls lr = omega arith
and_from_field (suc fuel) zero j (suc a) t s r h e ls lr =
    rw (mul-one (2 ^ j - 1), mul-one s) (and_from_low (suc fuel) j (suc a) t s h (omega arith) ls)
and_from_field (suc fuel) (suc k) j (suc a) t s r h e ls lr = ground (
  arith,
  and_from_field fuel k j (suc a / 2) t s (r / 2) (omega arith)
      (omega (arith, twice (t * 2 ^ j + s) k)) ls (omega (arith, pow-suc 2 k)),
  twice (2 ^ j - 1) k,
  twice s k,
)

-- `a & (2 ^ k - 1)` is the remainder by `2 ^ k`.
pub bit_and-low : (k a : ℕ) → bit_and a (2 ^ k - 1) ≡ a % 2 ^ k
bit_and-low k a =
    bit_and-bitwise a (2 ^ k - 1)
    ∙ and_from_low a k a (a / 2 ^ k) (a % 2 ^ k) (omega arith) (sym (div-add-mod' a (2 ^ k)))
        (mod-lt a (one-le-pow k 2 (omega arith)))

-- `a & ((2 ^ j - 1) << k)` is the field of `j` bits above the lowest `k`, in its place.
pub bit_and-field : (j k a : ℕ) → bit_and a ((2 ^ j - 1) * 2 ^ k) ≡ a / 2 ^ k % 2 ^ j * 2 ^ k
bit_and-field j k a =
    bit_and-bitwise a ((2 ^ j - 1) * 2 ^ k)
    ∙ and_from_field a k j a (a / 2 ^ k / 2 ^ j) (a / 2 ^ k % 2 ^ j) (a % 2 ^ k) (omega arith)
        (omega (
          arith,
          div-add-mod' a (2 ^ k),
          ap (λ (t : ℕ). t * 2 ^ k) (div-add-mod' (a / 2 ^ k) (2 ^ j)),
        ))
        (mod-lt _ (one-le-pow j 2 (omega arith))) (mod-lt _ (one-le-pow k 2 (omega arith)))

unfoldable pub all_below : ℕ → (ℕ → Bool) → Bool
all_below zero p = true
all_below (suc n) p = p n && all_below n p

-- What a finite check says of each number in its range.
pub of_all_below : (n : ℕ) (p : ℕ → Bool) (x : ℕ) → all_below n p ≡ true → x < n → p x ≡ true
unfolding all_below
of_all_below zero p x h lt = absurd (omega arith)
of_all_below (suc n) p x h lt = ground (arith, of_all_below n p x)
