-- ===== src/FileSystem/Guards.antt =====
-- fs/simplefs.c: what holds whatever the disk does.
use os_curriculum_design.Prelude.{
  ℕ, zero, suc, ◌-◌, ◌/◌, ◌%◌, ◌≤◌, ◌≡◌, inl, inr, sym, ◌∙◌, subst, arith, Option, none, some, List,
  ◌++◌, length, take, drop, length-take, length-append, Bool-cases, Option-cases, ◌==◌,
}
use mathlib.Core.Option
use os_curriculum_design.FileSystem.{Ata, FileSystem, Inode, sector_size, invalid_block}
use os_curriculum_design.FileSystem.Blocks.{block_lba, inode_at, get_file_block}
use os_curriculum_design.FileSystem.Inodes.{
  read_from, read_inode_bytes, chunk_size, bytes_to_read, inode_in_use,
}

chunk_size-le : (rest so : ℕ) → chunk_size rest so ≤ rest
unfolding chunk_size
chunk_size-le rest so = ground arith

bytes_to_read-le : (inode : Inode) (offset size : ℕ) → bytes_to_read inode offset size ≤ size
unfolding bytes_to_read
bytes_to_read-le inode offset size = ground arith

module _ {D : Type 0} (ata : Ata D) where
  -- No more bytes than the call asked for.
  AtMost : ℕ → Option (List ℕ) → Type 0
  AtMost n none = 0 ≤ n
  AtMost n (some bytes) = length bytes ≤ n

  chunk-AtMost :
      (n rest : ℕ) (chunk : List ℕ) (o : Option (List ℕ))
      → n ≤ rest
      → AtMost (rest - n) o
      → AtMost rest (Option.map (λ (more : List ℕ). take n chunk ++ more) o)
  unfolding AtMost
  chunk-AtMost n rest chunk none le h = omega arith
  chunk-AtMost n rest chunk (some more) le h =
      omega (arith, length-append (take n chunk) more, length-take n chunk, le, h)

  read_from-AtMost :
      (fuel : ℕ) (fs : FileSystem D) (inode : Inode) (logical so : ℕ) (t : Option (List ℕ))
      (rest : ℕ)
      → AtMost rest (read_from ata fuel fs inode logical so t rest)
  unfolding read_from AtMost
  read_from-AtMost zero fs inode logical so t rest = omega arith
  read_from-AtMost (suc fuel) fs inode logical so t zero = omega arith
  read_from-AtMost (suc fuel) fs inode logical so t (suc rest) =
      elim (Option-cases (get_file_block ata fs inode logical t)) [
        | inl e ↦ simp (e, read_from) (omega arith)
        | inr ((b, u), e) ↦ elim (Bool-cases (b == invalid_block)) [
          | inl hole ↦ simp (e, hole, read_from) (omega arith)
          | inr there ↦ elim (Option-cases (Ata.read_sectors ata fs.disk (block_lba fs.info b) 1)) [
            | inl failed ↦ simp (e, there, failed, read_from) (omega arith)
            | inr (sector, got) ↦
                let n = chunk_size (suc rest) so in
                simp (e, there, got, read_from)
                  (chunk-AtMost n (suc rest) (drop so sector)
                    (read_from ata fuel fs inode (suc logical) 0 u (suc rest - n))
                    (chunk_size-le (suc rest) so)
                    (read_from-AtMost fuel fs inode (suc logical) 0 u (suc rest - n)))
          ]
        ]
      ]

  -- Whatever the disk holds, `read_inode_bytes` puts at most as many bytes into the buffer as it has
  -- room for.
  pub read_inode_bytes_bounded :
      (fs : FileSystem D) (i offset buffer_size : ℕ) (bytes : List ℕ)
      → read_inode_bytes ata fs i offset buffer_size ≡ some bytes
      → length bytes ≤ buffer_size
  unfolding read_inode_bytes AtMost
  read_inode_bytes_bounded fs i offset buffer_size bytes e =
      let inode = inode_at fs.inodes i in
      let rest = bytes_to_read inode offset buffer_size in
      let logical = offset / sector_size in
      let so = offset % sector_size in
      elim (Bool-cases (inode_in_use fs.info i)) [
        | inr free ↦
            let no : read_inode_bytes ata fs i offset buffer_size ≡ none =
              simp (free, read_inode_bytes) in
            absurd (ground (arith, e, no))
        | inl used ↦
            let same : read_inode_bytes ata fs i offset buffer_size
                ≡ read_from ata rest fs inode logical so none rest =
              simp (used, read_inode_bytes) in
            let most : length bytes ≤ rest =
              subst (AtMost rest) (sym same ∙ e)
                (read_from-AtMost rest fs inode logical so none rest) in
            omega (arith, most, bytes_to_read-le inode offset buffer_size)
      ]
