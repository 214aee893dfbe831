-- ===== src/FileSystem/Overwrite.antt =====
-- fs/simplefs.c: the bytes that `simplefs_write_fd` puts together, position by position.
use os_curriculum_design.Prelude.{
  ℕ, zero, suc, ◌+◌, ◌-◌, ◌≤◌, ◌<◌, ◌≡◌, refl, ◌∙◌, subst, ap, arith, List, [], ◌∷◌, ◌++◌, length,
  drop, get_or, if◌then◌else◌, ltb, length-append, length-drop,
}
use os_curriculum_design.FileSystem.Layout.{fixed}
use os_curriculum_design.FileSystem.Filling.{length-fixed}
use os_curriculum_design.FileSystem.Handles.{splice}

-- The bytes `new` are the bytes `old` with `bytes` written over them from `offset` on.
pub record IsOverwritten (old : List ℕ) (offset : ℕ) (bytes new : List ℕ) : Type 0 where
  pub before : (j : ℕ) → j < offset → j < length old → get_or new j 0 ≡ get_or old j 0
  pub gap : (j : ℕ) → length old ≤ j → j < offset → get_or new j 0 ≡ 0
  pub written : (j : ℕ) → j < length bytes → get_or new (offset + j) 0 ≡ get_or bytes j 0
  pub behind :
      (j : ℕ) → offset + length bytes ≤ j → j < length old → get_or new j 0 ≡ get_or old j 0
  pub size :
      length new
      ≡ (if ltb (length old) (offset + length bytes) then offset + length bytes else length old)

get_or-beyond : (xs : List ℕ) (j : ℕ) → length xs ≤ j → get_or xs j 0 ≡ 0
get_or-beyond [] j le = refl
get_or-beyond (x ∷ xs) zero le = absurd (omega arith)
get_or-beyond (x ∷ xs) (suc j) le = get_or-beyond xs j (omega arith)

get_or-fixed :
    (n : ℕ) (bytes : List ℕ) (j : ℕ) → j < n → get_or (fixed n bytes) j 0 ≡ get_or bytes j 0
unfolding fixed
get_or-fixed zero bytes j lt = absurd (omega arith)
get_or-fixed (suc n) [] zero lt = refl
get_or-fixed (suc n) [] (suc j) lt = get_or-fixed n [] j (omega arith)
get_or-fixed (suc n) (b ∷ bytes) zero lt = refl
get_or-fixed (suc n) (b ∷ bytes) (suc j) lt = get_or-fixed n bytes j (omega arith)

get_or-append_left :
    (xs ys : List ℕ) (j : ℕ) → j < length xs → get_or (xs ++ ys) j 0 ≡ get_or xs j 0
get_or-append_left [] ys j lt = absurd (omega arith)
get_or-append_left (x ∷ xs) ys zero lt = refl
get_or-append_left (x ∷ xs) ys (suc j) lt = get_or-append_left xs ys j (omega arith)

get_or-append_right :
    (xs ys : List ℕ) (i j : ℕ) → i ≡ length xs + j → get_or (xs ++ ys) i 0 ≡ get_or ys j 0
get_or-append_right [] ys i j e = ap (λ (k : ℕ). get_or ys k 0) (omega (arith, e))
get_or-append_right (x ∷ xs) ys zero j e = absurd (omega (arith, e))
get_or-append_right (x ∷ xs) ys (suc i) j e = get_or-append_right xs ys i j (omega (arith, e))

get_or-drop : (n : ℕ) (xs : List ℕ) (i j : ℕ) → i ≡ n + j → get_or (drop n xs) j 0 ≡ get_or xs i 0
get_or-drop zero xs i j e = ap (λ (k : ℕ). get_or xs k 0) (omega (arith, e))
get_or-drop (suc n) [] i j e = refl
get_or-drop (suc n) (x ∷ xs) zero j e = absurd (omega (arith, e))
get_or-drop (suc n) (x ∷ xs) (suc i) j e = get_or-drop n xs i j (omega (arith, e))

module _ (old : List ℕ) (offset : ℕ) (bytes : List ℕ) where
  front : (j : ℕ) → j < offset → get_or (splice old offset bytes) j 0 ≡ get_or old j 0
  unfolding splice
  front j lt =
      get_or-append_left (fixed offset old) _ j (omega (arith, length-fixed offset old))
      ∙ get_or-fixed offset old j lt

  after_front :
      (j : ℕ)
      → get_or (splice old offset bytes) (offset + j) 0
        ≡ get_or (bytes ++ drop (offset + length bytes) old) j 0
  unfolding splice
  after_front j =
      get_or-append_right (fixed offset old) _ (offset + j) j
        (omega (arith, length-fixed offset old))

  back : (j : ℕ) → offset + length bytes ≤ j → get_or (splice old offset bytes) j 0 ≡ get_or old j 0
  back j le =
      let k = j - offset - length bytes in
      subst
        (λ (i : ℕ).
          get_or (splice old offset bytes) i 0
          ≡ get_or (bytes ++ drop (offset + length bytes) old) (j - offset) 0)
        (omega arith) (after_front (j - offset))
      ∙ get_or-append_right bytes _ (j - offset) k (omega arith)
      ∙ get_or-drop (offset + length bytes) old j k (omega arith)

  length-splice :
      length (splice old offset bytes)
      ≡ offset + length bytes + (length old - (offset + length bytes))
  unfolding splice
  length-splice = omega (
    arith,
    length-append (fixed offset old) (bytes ++ drop (offset + length bytes) old),
    length-append bytes (drop (offset + length bytes) old),
    length-fixed offset old,
    length-drop (offset + length bytes) old,
  )

  pub splice-IsOverwritten : IsOverwritten old offset bytes (splice old offset bytes)
  splice-IsOverwritten = record {
    before = λ j lt within. front j lt;
    gap = λ j out lt. front j lt ∙ get_or-beyond old j out;
    written = λ j lt. after_front j ∙ get_or-append_left bytes _ j lt;
    behind = λ j le within. back j le;
    size = ground (arith, length-splice);
  }
