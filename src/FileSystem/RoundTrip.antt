-- ===== src/FileSystem/RoundTrip.antt =====
-- fs/simplefs.c: what `write_inode_data` wrote, `read_inode_bytes` reads.
use os_curriculum_design.Prelude.{
  ℕ, ◌+◌, ◌-◌, ◌*◌, ◌/◌, ◌%◌, ◌≤◌, ◌<◌, ◌≡◌, ◌⊎◌, inl, inr, refl, sym, ap, ◌∙◌, subst, arith, true,
  false, ◌&&◌, none, some, List, length, take, drop, replicate, length-drop, Bool-cases, ltb, leb,
}
use os_curriculum_design.Bitmap.{bitmap_test}
use os_curriculum_design.FileSystem.{
  Ata, FileSystem, InfoBlock, Inode, sector_size, indirect_entries, invalid_block, max_inodes,
  max_file_size,
}
use os_curriculum_design.FileSystem.Blocks.{inode_at, free_inode_blocks}
use os_curriculum_design.FileSystem.Inodes.{
  inode_in_use, read_from, read_inode_bytes, bytes_to_read, write_blocks, write_failed,
  finish_write, write_inode_data, required_blocks,
}
use os_curriculum_design.FileSystem.Store.{IsReliable, IsLaidOut}
use os_curriculum_design.FileSystem.Place.{Written}
use os_curriculum_design.FileSystem.Filling.{write_blocks-cases}
use os_curriculum_design.FileSystem.Finish.{Readable, finish_write-Readable}
use os_curriculum_design.FileSystem.InodeMap.{write_inode_data-inode_bitmap}
use os_curriculum_design.FileSystem.Reading.{read_from_lem, read_from_zero, take-all}
use os_curriculum_design.FileSystem.Freeing.{free_inode_blocks-Written}

take-enough : (j k : ℕ) (xs : List ℕ) → length xs ≤ j → length xs ≤ k → take j xs ≡ take k xs
take-enough j k xs g h = take-all j xs g ∙ sym (take-all k xs h)

pub inode_in_use-lt : (info : InfoBlock) (i : ℕ) → inode_in_use info i ≡ true → i < max_inodes
unfolding inode_in_use
inode_in_use-lt info i e = ground (arith, e)

module _ {D : Type 0} (ata : Ata D) where
  -- What a write that ends well leaves.
  pub record Stored (fs : FileSystem D) (i : ℕ) (bytes : List ℕ) : Type 0 where
    pub in_use : inode_in_use fs.info i ≡ true
    pub size : (inode_at fs.inodes i).size ≡ length bytes
    pub most : length bytes ≤ max_file_size
    pub readable :
        Readable ata fs.info fs.disk (inode_at fs.inodes i) (required_blocks (length bytes)) bytes

  checked_write :
      (fs : FileSystem D) (i : ℕ) (bytes : List ℕ)
      → (write_inode_data ata fs i bytes).1 ≡ true
      → (inode_in_use fs.info i ≡ true) × (ltb max_file_size (length bytes) ≡ false)
  unfolding write_inode_data
  checked_write fs i bytes ok = elim (Bool-cases (inode_in_use fs.info i)) [
    | inr free ↦
        let no : (write_inode_data ata fs i bytes).1 ≡ false = simp (free, write_inode_data) in
        absurd (ground (arith, ok, no))
    | inl used ↦ elim (Bool-cases (ltb max_file_size (length bytes))) [
      | inl long ↦
          let no : (write_inode_data ata fs i bytes).1 ≡ false =
            simp (used, long, write_inode_data) in
          absurd (ground (arith, ok, no))
      | inr short ↦ (used, short)
    ]
  ]

  write_failed_lem : (fs : FileSystem D) (i : ℕ) → (write_failed ata fs i).1 ≡ false
  unfolding write_failed
  write_failed_lem fs i = refl

  pub in_use-write_inode_data :
      (fs : FileSystem D) (i j : ℕ) (bytes : List ℕ)
      → inode_in_use (write_inode_data ata fs i bytes).0.info j ≡ inode_in_use fs.info j
  unfolding inode_in_use
  in_use-write_inode_data fs i j bytes =
      ap (λ (m : List ℕ). ltb j max_inodes && bitmap_test m j)
        (write_inode_data-inode_bitmap ata fs i bytes)

  write_inode_data-Readable :
      IsReliable ata
      → (fs : FileSystem D) (i : ℕ) (bytes : List ℕ) → IsLaidOut fs
      → inode_in_use fs.info i ≡ true
      → length bytes ≤ max_file_size
      → (write_inode_data ata fs i bytes).1 ≡ true
      → let f = (write_inode_data ata fs i bytes).0 in
        Readable ata f.info f.disk (inode_at f.inodes i) (required_blocks (length bytes)) bytes
        × ((inode_at f.inodes i).size ≡ length bytes)
  unfolding write_inode_data required_blocks
  write_inode_data-Readable reliable fs i bytes h used most ok =
      let lt = inode_in_use-lt fs.info i used in
      let short : ltb max_file_size (length bytes) ≡ false = ground (arith, most) in
      let fs₀ = free_inode_blocks ata fs i in
      let table = replicate indirect_entries invalid_block in
      let count = required_blocks (length bytes) in
      let fs₁ = (write_blocks ata count fs₀ i 0 table false bytes).0 in
      elim (write_blocks-cases ata reliable i lt bytes count fs₀ table false 0 (omega (arith, most))
        (free_inode_blocks-Written ata fs i bytes lt h)) [
          | inl e ↦
              let no : (write_inode_data ata fs i bytes).1 ≡ false =
                simp (used, short, e, write_inode_data) (write_failed_lem fs₁ i) in
              absurd (ground (arith, ok, no))
          | inr (t, n, e, w) ↦
              let same : write_inode_data ata fs i bytes
                  ≡ finish_write ata fs₁ i t n (length bytes) =
                simp (used, short, e, write_inode_data) in
              subst
                (λ r.
                  Readable ata r.0.info r.0.disk (inode_at r.0.inodes i) count bytes
                  × ((inode_at r.0.inodes i).size ≡ length bytes))
                (sym same)
                (finish_write-Readable ata reliable fs₁ i (length bytes) count t n bytes lt
                  (subst (λ l. Written ata fs₁ (inode_at fs₁.inodes i) t n l bytes) (omega arith) w)
                  (subst (λ r. r.1 ≡ true) same ok))
        ]

  pub write_inode_data-Stored :
      IsReliable ata
      → (fs : FileSystem D) (i : ℕ) (bytes : List ℕ) → IsLaidOut fs
      → (write_inode_data ata fs i bytes).1 ≡ true
      → Stored (write_inode_data ata fs i bytes).0 i bytes
  write_inode_data-Stored reliable fs i bytes h ok =
      let (used, short) = checked_write fs i bytes ok in
      let most : length bytes ≤ max_file_size = ground (arith, short) in
      let (readable, size) = write_inode_data-Readable reliable fs i bytes h used most ok in
      record {
        in_use = in_use-write_inode_data fs i i bytes ∙ used;
        size = size;
        most = most;
        readable = readable;
      }

  take-bytes_to_read :
      (inode : Inode) (offset buffer_size : ℕ) (bytes : List ℕ)
      → inode.size ≡ length bytes
      → take (bytes_to_read inode offset buffer_size) (drop offset bytes)
        ≡ take buffer_size (drop offset bytes)
  unfolding bytes_to_read
  take-bytes_to_read inode offset buffer_size bytes e =
      let left = length-drop offset bytes in
      elim (Bool-cases (leb inode.size offset)) [
        | inl beyond ↦
            let none_left : length (drop offset bytes) ≡ 0 = ground (arith, beyond, e, left) in
            simp (beyond, bytes_to_read)
              (take-enough 0 buffer_size (drop offset bytes) (omega (arith, none_left))
                (omega (arith, none_left)))
        | inr before ↦ elim (Bool-cases (ltb buffer_size (inode.size - offset))) [
          | inl small ↦ simp (before, small, bytes_to_read)
          | inr large ↦
              simp (before, large, bytes_to_read)
                (take-enough (inode.size - offset) buffer_size (drop offset bytes)
                  (omega (arith, left, e)) (ground (arith, left, e, large)))
        ]
      ]

  bytes_to_read-fits :
      (inode : Inode) (offset buffer_size : ℕ)
      → (bytes_to_read inode offset buffer_size ≡ 0)
        ⊎ (offset + bytes_to_read inode offset buffer_size ≤ inode.size)
  unfolding bytes_to_read
  bytes_to_read-fits inode offset buffer_size = elim (Bool-cases (leb inode.size offset)) [
    | inl beyond ↦ inl (simp (beyond, bytes_to_read))
    | inr before ↦ inr (ground (arith, before))
  ]

  -- Any part of stored data is read back.
  pub Stored-read_inode_bytes :
      (fs : FileSystem D) (i offset buffer_size : ℕ) (bytes : List ℕ)
      → Stored fs i bytes
      → read_inode_bytes ata fs i offset buffer_size ≡ some (take buffer_size (drop offset bytes))
  unfolding read_inode_bytes required_blocks
  Stored-read_inode_bytes fs i offset buffer_size bytes s =
      let inode = inode_at fs.inodes i in
      let rest = bytes_to_read inode offset buffer_size in
      let logical = offset / sector_size in
      let so = offset % sector_size in
      let parts : logical * sector_size + so ≡ offset = omega arith in
      let read : read_from ata rest fs inode logical so none rest
          ≡ some (take rest (drop offset bytes)) =
        elim (bytes_to_read-fits inode offset buffer_size) [
          | inl nothing ↦
              subst
                (λ (q : ℕ).
                  read_from ata rest fs inode logical so none q ≡ some (take q (drop offset bytes)))
                (sym nothing)
                (read_from_zero ata fs inode (required_blocks (length bytes)) bytes s.readable
                  (omega (arith, s.most)) rest logical so none)
          | inr fits ↦
              subst
                (λ (q : ℕ).
                  read_from ata rest fs inode logical so none rest
                  ≡ some (take rest (drop q bytes)))
                parts
                (read_from_lem ata fs inode (required_blocks (length bytes)) bytes s.readable
                  (omega (arith, s.most)) rest rest logical so none (omega arith) (omega arith)
                  (omega (arith, fits, s.size, parts)) (omega arith) (inl refl))
        ] in
      simp (s.in_use, read_inode_bytes)
        (read ∙ ap some (take-bytes_to_read inode offset buffer_size bytes s.size))

  -- On a disk that keeps what was written, in a file system of the layout that mounting checks: after a
  -- write of `bytes` to a file that ends well, every read of the file gives those of the bytes from the
  -- offset on that fit into the buffer, through direct blocks and through the indirect block.
  pub write_inode_data-read_inode_bytes :
      IsReliable ata
      → (fs : FileSystem D) (i offset buffer_size : ℕ) (bytes : List ℕ) → IsLaidOut fs
      → (write_inode_data ata fs i bytes).1 ≡ true
      → read_inode_bytes ata (write_inode_data ata fs i bytes).0 i offset buffer_size
        ≡ some (take buffer_size (drop offset bytes))
  write_inode_data-read_inode_bytes reliable fs i offset buffer_size bytes h ok =
      Stored-read_inode_bytes _ i offset buffer_size bytes
        (write_inode_data-Stored reliable fs i bytes h ok)
