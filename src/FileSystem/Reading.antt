-- ===== src/FileSystem/Reading.antt =====
-- fs/simplefs.c: `read_inode_bytes` finds the data where it was written.
use os_curriculum_design.Prelude.{
  ℕ, zero, suc, ◌+◌, ◌-◌, ◌*◌, ◌≤◌, ◌<◌, ◌≡◌, ◌⊎◌, inl, inr, refl, ap, subst, ◌∙◌, arith, false,
  Option, none, some, List, [], ◌∷◌, ◌++◌, length, take, drop, drop-drop, length-drop, Bool-cases,
  ltb, leb, ◌==◌,
}
use os_curriculum_design.FileSystem.{
  Ata, FileSystem, Inode, sector_size, data_blocks, direct_count, indirect_entries, invalid_block,
  data_lba,
}
use os_curriculum_design.FileSystem.Layout.{fixed, bytes_of_words}
use os_curriculum_design.FileSystem.Blocks.{get_file_block, read_indirect_block}
use os_curriculum_design.FileSystem.Inodes.{read_from, chunk_size}
use os_curriculum_design.FileSystem.Words.{words_of_bytes-bytes_of_words}
use os_curriculum_design.FileSystem.Store.{block_lba_lem}
use os_curriculum_design.FileSystem.Place.{file_block, sector_of}
use os_curriculum_design.FileSystem.Finish.{Readable}

take-fixed :
    (k so n : ℕ) (xs : List ℕ)
    → so + n ≤ k
    → so + n ≤ length xs
    → take n (drop so (fixed k xs)) ≡ take n (drop so xs)
unfolding fixed
take-fixed k zero zero xs h e = refl
take-fixed zero zero (suc n) xs h e = absurd (omega (arith, h))
take-fixed (suc k) zero (suc n) [] h e = absurd (omega (arith, e))
take-fixed (suc k) zero (suc n) (x ∷ xs) h e =
    ap (◌∷◌ x) (take-fixed k zero n xs (omega (arith, h)) (omega (arith, e)))
take-fixed zero (suc so) n xs h e = absurd (omega (arith, h))
take-fixed (suc k) (suc so) n [] h e = absurd (omega (arith, e))
take-fixed (suc k) (suc so) n (x ∷ xs) h e =
    take-fixed k so n xs (omega (arith, h)) (omega (arith, e))

pub take-append-take :
    (n m k : ℕ) (xs : List ℕ) → k ≡ n + m → take n xs ++ take m (drop n xs) ≡ take k xs
take-append-take zero m k xs e = subst (λ (q : ℕ). take m xs ≡ take q xs) (omega (arith, e)) refl
take-append-take (suc n) m zero xs e = absurd (omega (arith, e))
take-append-take (suc n) zero (suc k) [] e = refl
take-append-take (suc n) (suc m) (suc k) [] e = refl
take-append-take (suc n) m (suc k) (x ∷ xs) e =
    ap (◌∷◌ x) (take-append-take n m k xs (omega (arith, e)))

pub take-all : (k : ℕ) (xs : List ℕ) → length xs ≤ k → take k xs ≡ xs
take-all zero [] h = refl
take-all zero (x ∷ xs) h = absurd (omega (arith, h))
take-all (suc k) [] h = refl
take-all (suc k) (x ∷ xs) h = ap (◌∷◌ x) (take-all k xs (omega (arith, h)))

-- A turn of the loop copies to the end of the sector, and another follows, or it copies the rest.
chunk_size-cases :
    (rest so : ℕ)
    → so < sector_size
    → ((chunk_size rest so ≡ sector_size - so) × (sector_size - so < rest))
      ⊎ ((chunk_size rest so ≡ rest) × (rest ≤ sector_size - so))
unfolding chunk_size
chunk_size-cases rest so lt = elim (Bool-cases (ltb (sector_size - so) rest)) [
  | inl more ↦ inl (ground (arith, more), ground (arith, more))
  | inr last ↦ inr (ground (arith, last), ground (arith, last))
]

module _ {D : Type 0} (ata : Ata D) (fs : FileSystem D) (inode : Inode) (count : ℕ) (bytes : List ℕ)
    (r : Readable ata fs.info fs.disk inode count bytes)
    (most : count ≤ direct_count + indirect_entries) where
  -- The indirect table was not read yet, or rightly.
  abbrev Cached : Option (List ℕ) → Type 0
  Cached t = (t ≡ none) ⊎ (t ≡ some r.table)

  read_indirect_block_lem :
      inode.indirect_block < data_blocks
      → (Ata.read_sectors ata fs.disk (data_lba + inode.indirect_block) 1
          ≡ some (bytes_of_words r.table))
      → read_indirect_block ata fs inode ≡ some r.table
  unfolding read_indirect_block
  read_indirect_block_lem lt e =
      let ne : (inode.indirect_block == invalid_block) ≡ false = ground (arith, lt) in
      let at = block_lba_lem ata fs.info inode.indirect_block r.data_start lt in
      simp (ne, at, e, words_of_bytes-bytes_of_words r.table r.words, read_indirect_block)

  get_file_block-cases :
      (logical : ℕ) (t : Option (List ℕ))
      → logical < count
      → Cached t
      → (u : Option (List ℕ)) × (get_file_block ata fs inode logical t
          ≡ some (file_block inode.direct_blocks r.table logical, u))
        × Cached u
  unfolding get_file_block
  get_file_block-cases logical t lt c = elim (Bool-cases (ltb logical direct_count)) [
    | inl below ↦ (t, simp (below, get_file_block), c)
    | inr above ↦
        let few : leb indirect_entries (logical - direct_count) ≡ false =
          ground (arith, above, lt, most) in
        elim r.indirect [
          | inl (invalid, direct) ↦ absurd (ground (arith, above, direct, lt))
          | inr (valid, e) ↦ elim c [
            | inl unread ↦ (
              some r.table,
              simp (above, few, unread, read_indirect_block_lem valid e, get_file_block),
              inr refl,
            )
            | inr cached ↦ (some r.table, simp (above, few, cached, get_file_block), inr refl)
          ]
        ]
  ]

  pub read_from_zero :
      (fuel logical so : ℕ) (t : Option (List ℕ))
      → read_from ata fuel fs inode logical so t 0 ≡ some []
  unfolding read_from
  read_from_zero zero logical so t = refl
  read_from_zero (suc fuel) logical so t = refl

  -- Fuel for one turn a byte is enough, since a turn copies at least one.
  pub read_from_lem :
      (fuel rest logical so : ℕ) (t : Option (List ℕ))
      → rest ≤ fuel
      → so < sector_size
      → logical * sector_size + so + rest ≤ length bytes
      → length bytes ≤ count * sector_size
      → Cached t
      → read_from ata fuel fs inode logical so t rest
        ≡ some (take rest (drop (logical * sector_size + so) bytes))
  unfolding read_from
  read_from_lem fuel zero logical so t h lt fits all c = read_from_zero fuel logical so t
  read_from_lem zero (suc rest) logical so t h lt fits all c = absurd (omega (arith, h))
  read_from_lem (suc fuel) (suc rest) logical so t h lt fits all c =
      let here = logical * sector_size + so in
      let inside : logical < count = omega (arith, fits, all) in
      let (u, e, c₁) = get_file_block-cases logical t inside c in
      let x = file_block inode.direct_blocks r.table logical in
      let (below, stored) = r.stored logical inside in
      let ne : (x == invalid_block) ≡ false = ground (arith, below) in
      let at = block_lba_lem ata fs.info x r.data_start below in
      let n = chunk_size (suc rest) so in
      let tail : (read_from ata fuel fs inode (suc logical) 0 u (suc rest - n)
            ≡ some (take (suc rest - n) (drop n (drop here bytes))))
          × (so + n ≤ sector_size)
          × (n ≤ suc rest) =
        elim (chunk_size-cases (suc rest) so lt) [
          | inl (size, more) ↦ (
            rw (drop-drop n here (suc logical * sector_size + 0) bytes (omega (arith, size, lt))) (
                read_from_lem fuel (suc rest - n) (suc logical) 0 u (omega (arith, size, h, lt))
                  (omega arith) (omega (arith, size, more, fits)) all c₁),
            omega (arith, size, lt),
            omega (arith, size, more),
          )
          | inr (size, last) ↦ (
            subst
                (λ (q : ℕ).
                  read_from ata fuel fs inode (suc logical) 0 u q
                  ≡ some (take q (drop n (drop here bytes))))
                (omega (arith, size)) (read_from_zero fuel (suc logical) 0 u),
            omega (arith, size, last, lt),
            omega (arith, size),
          )
        ] in
      let chunk : take n (drop so (sector_of bytes logical)) ≡ take n (drop here bytes) =
        take-fixed sector_size so n (drop (logical * sector_size) bytes) tail.1
          (omega (arith, length-drop (logical * sector_size) bytes, tail.2, fits))
        ∙ ap (take n) (drop-drop so (logical * sector_size) here bytes refl) in
      simp (e, ne, at, stored, tail.0, chunk, read_from)
        (ap some
          (take-append-take n (suc rest - n) (suc rest) (drop here bytes) (omega (arith, tail.2))))
