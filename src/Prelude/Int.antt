-- ===== src/Prelude/Int.antt =====
-- Signed arguments: a C `int` over the native numbers, under the library's names.
use Prim.Native.Nat.{ℕ}

-- `negsuc n` is `-(n + 1)`.
pub data ℤ : Type 0 where
  pos negsuc : ℕ → ℤ
