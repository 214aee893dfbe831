-- ===== src/Prelude/Search.antt =====
-- The loop that the kernel's tables share: `for (i = 0; i < N; i++) if (test) return i;`.
use Prim.Native.Nat.{ℕ, zero, suc, ◌<◌}
use mathlib.Core.Path.{◌≡◌, refl}
use mathlib.Core.Bool.{Bool, true, false}
use mathlib.Core.Option
use mathlib.Core.Option.{Option, none, some}
use mathlib.Core.List.{List, [], ◌∷◌}
use native.Mathlib.Omega.{arith}
use os_curriculum_design.Prelude.Tests.{if◌then◌else◌}
use os_curriculum_design.Prelude.Lists.{length, get_elem?}

module _ {ℓ} {A : Type ℓ} where
  unfoldable pub find_index : (A → Bool) → List A → Option ℕ
  find_index test [] = none
  find_index test (x ∷ xs) = if test x then some 0 else Option.map suc (find_index test xs)

  -- The index found is one of the list, and its element passes.
  pub find_index-some :
      (test : A → Bool) (xs : List A) (i : ℕ)
      → find_index test xs ≡ some i
      → (x : A) × (get_elem? xs i ≡ some x) × (test x ≡ true)
  unfolding find_index
  find_index-some test [] i e = cc
  find_index-some test (x ∷ xs) zero e = (x, refl, ground arith)
  find_index-some test (x ∷ xs) (suc i) e = find_index-some test xs i (ground arith)

  -- Nothing is found when no element passes.
  pub find_index-none :
      (test : A → Bool) (xs : List A) (i : ℕ) (x : A)
      → find_index test xs ≡ none
      → get_elem? xs i ≡ some x
      → test x ≡ false
  unfolding find_index
  find_index-none test [] i x e h = cc
  find_index-none test (y ∷ xs) zero x e h = ground arith
  find_index-none test (y ∷ xs) (suc i) x e h = find_index-none test xs i x (ground arith) h

  -- The elements before the index found fail.
  pub find_index-first :
      (test : A → Bool) (xs : List A) (i j : ℕ) (x : A)
      → find_index test xs ≡ some i
      → j < i
      → get_elem? xs j ≡ some x
      → test x ≡ false
  unfolding find_index
  find_index-first test [] i j x e lt h = cc
  find_index-first test (y ∷ xs) zero j x e lt h = absurd (omega arith)
  find_index-first test (y ∷ xs) (suc i) zero x e lt h = ground arith
  find_index-first test (y ∷ xs) (suc i) (suc j) x e lt h =
      find_index-first test xs i j x (ground arith) (omega arith) h

  pub get_elem?-lt : (xs : List A) (i : ℕ) (x : A) → get_elem? xs i ≡ some x → i < length xs
  get_elem?-lt [] i x e = cc
  get_elem?-lt (y ∷ xs) zero x e = omega arith
  get_elem?-lt (y ∷ xs) (suc i) x e = omega (arith, get_elem?-lt xs i x e)
