-- ===== src/FileSystem/Encoding.antt =====
-- fs/simplefs.c: the inode table as the bytes of its sectors.
use os_curriculum_design.Prelude.{
  ℕ, ◌+◌, ◌*◌, ◌/◌, ◌%◌, ◌^◌, ◌<◌, ◌≡◌, refl, arith, List, [], ◌∷◌, ◌++◌, length, take, drop, All,
}
use os_curriculum_design.FileSystem.{Inode, direct_count}
use os_curriculum_design.FileSystem.Layout.{
  fixed, inode_words, inode_of_words, table_words, table_of_words, bytes_of_words, words_of_bytes,
}
use os_curriculum_design.FileSystem.Words.{IsWord, words_of_bytes-bytes_of_words}

-- Every field fits its place in the packed struct.
pub record Fits (i : Inode) : Type 0 where
  pub kind : i.kind < 2 ^ 8
  pub link_count : i.link_count < 2 ^ 16
  pub size : IsWord i.size
  pub direct : length i.direct_blocks ≡ direct_count
  pub direct_words : All IsWord i.direct_blocks
  pub indirect : IsWord i.indirect_block

-- One inode at the front of the words.
inode_front :
    (k l s : ℕ) (ds : List ℕ) (p : ℕ) (rest : List ℕ)
    → k < 2 ^ 8
    → l < 2 ^ 16
    → IsWord s
    → length ds ≡ direct_count
    → All IsWord ds
    → IsWord p
    → let i : Inode = record {
      kind = k;
      link_count = l;
      size = s;
      direct_blocks = ds;
      indirect_block = p;
    } in
      (inode_of_words (take 16 (inode_words i ++ rest)) ≡ i)
      × (drop 16 (inode_words i ++ rest) ≡ rest)
      × (All IsWord rest → All IsWord (inode_words i ++ rest))
unfolding inode_words inode_of_words fixed
inode_front k l s (a ∷ b ∷ c ∷ d ∷ e ∷ f ∷ []) p rest hk hl hs hd hw hp =
    let kind : (k + l * 0x0001_0000) % 256 ≡ k = omega (arith, hk) in
    let link : (k + l * 0x0001_0000) / 0x0001_0000 ≡ l = omega (arith, hk) in
    let zero_word : IsWord 0 = omega arith in
    let first : IsWord (k + l * 0x0001_0000) = omega (arith, hk, hl) in
    (
      rw (kind, link) refl,
      refl,
      λ all. (
        first,
        (
          hs,
          (
            hw.0,
            (
              hw.1.0,
              (
                hw.1.1.0,
                (
                  hw.1.1.1.0,
                  (
                    hw.1.1.1.1.0,
                    (
                      hw.1.1.1.1.1.0,
                      (
                        hp,
                        (
                          zero_word,
                          (
                            zero_word,
                            (zero_word, (zero_word, (zero_word, (zero_word, (zero_word, all))))),
                          ),
                        ),
                      ),
                    ),
                  ),
                ),
              ),
            ),
          ),
        ),
      ),
    )
inode_front k l s [] p rest hk hl hs hd hw hp = absurd (omega (arith, hd))
inode_front k l s (a ∷ []) p rest hk hl hs hd hw hp = absurd (omega (arith, hd))
inode_front k l s (a ∷ b ∷ []) p rest hk hl hs hd hw hp = absurd (omega (arith, hd))
inode_front k l s (a ∷ b ∷ c ∷ []) p rest hk hl hs hd hw hp = absurd (omega (arith, hd))
inode_front k l s (a ∷ b ∷ c ∷ d ∷ []) p rest hk hl hs hd hw hp = absurd (omega (arith, hd))
inode_front k l s (a ∷ b ∷ c ∷ d ∷ e ∷ []) p rest hk hl hs hd hw hp = absurd (omega (arith, hd))
inode_front k l s (a ∷ b ∷ c ∷ d ∷ e ∷ f ∷ g ∷ ds) p rest hk hl hs hd hw hp =
    absurd (omega (arith, hd))

front :
    (i : Inode) (rest : List ℕ)
    → Fits i
    → (inode_of_words (take 16 (inode_words i ++ rest)) ≡ i)
      × (drop 16 (inode_words i ++ rest) ≡ rest)
      × (All IsWord rest → All IsWord (inode_words i ++ rest))
front i rest h =
    inode_front i.kind i.link_count i.size i.direct_blocks i.indirect_block rest h.kind h.link_count
      h.size h.direct h.direct_words h.indirect

table_words-IsWord : (is : List Inode) → All Fits is → All IsWord (table_words is)
unfolding table_words
table_words-IsWord [] h = tt
table_words-IsWord (i ∷ is) h = (front i (table_words is) h.0).2 (table_words-IsWord is h.1)

table_of_words-table_words :
    (is : List Inode) → All Fits is → table_of_words (length is) (table_words is) ≡ is
unfolding table_words table_of_words
table_of_words-table_words [] h = refl
table_of_words-table_words (i ∷ is) h =
    let (at, behind, words) = front i (table_words is) h.0 in
    rw (at, behind, table_of_words-table_words is h.1) refl

-- Inodes whose fields fit the packed struct are read from the bytes that `write_inode_table` writes.
pub inode_table_bytes :
    (is : List Inode)
    → All Fits is
    → table_of_words (length is) (words_of_bytes (bytes_of_words (table_words is))) ≡ is
inode_table_bytes is h =
    rw (words_of_bytes-bytes_of_words (table_words is) (table_words-IsWord is h))
      (table_of_words-table_words is h)
