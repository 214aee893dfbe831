-- ===== src/FileSystem/Words.antt =====
-- fs/simplefs.c: 32-bit numbers in a sector.
use os_curriculum_design.Prelude.{
  ℕ, ◌+◌, ◌*◌, ◌/◌, ◌%◌, ◌^◌, ◌<◌, ◌≡◌, refl, arith, List, [], ◌∷◌, length, All,
}
use os_curriculum_design.FileSystem.Layout.{bytes_of_words, words_of_bytes}

abbrev pub IsWord : ℕ → Type 0
IsWord w = w < 2 ^ 32

pub length-bytes_of_words : (ws : List ℕ) → length (bytes_of_words ws) ≡ 4 * length ws
unfolding bytes_of_words
length-bytes_of_words [] = omega arith
length-bytes_of_words (w ∷ ws) = omega (arith, length-bytes_of_words ws)

word_of_bytes :
    (w : ℕ)
    → IsWord w
    → w % 256
        + w / 256 % 256 * 256
        + w / 0x0001_0000 % 256 * 0x0001_0000
        + w / 0x0100_0000 % 256 * 0x0100_0000
      ≡ w
word_of_bytes w h = omega (arith, h)

-- 32-bit numbers are read from their little-endian bytes.
pub words_of_bytes-bytes_of_words :
    (ws : List ℕ) → All IsWord ws → words_of_bytes (bytes_of_words ws) ≡ ws
unfolding words_of_bytes bytes_of_words
words_of_bytes-bytes_of_words [] h = refl
words_of_bytes-bytes_of_words (w ∷ ws) h =
    rw (words_of_bytes-bytes_of_words ws h.1, word_of_bytes w h.0) refl
