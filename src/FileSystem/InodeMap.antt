-- ===== src/FileSystem/InodeMap.antt =====
-- fs/simplefs.c: writing a file's data leaves the bitmap of inodes alone, however it ends.
use os_curriculum_design.Prelude.{
  ℕ, zero, suc, ◌-◌, ◌≡◌, inl, inr, refl, ◌∙◌, Bool, true, false, not, ◌&&◌, ◌||◌, none, some, List,
  if◌then◌else◌, length, drop, replicate, Bool-cases, Option-cases, ltb, ◌==◌, if_both, set,
}
use os_curriculum_design.Bitmap.FirstFree.{first_free}
use os_curriculum_design.FileSystem.{
  Ata, FileSystem, Inode, sector_size, data_blocks, direct_count, indirect_entries, invalid_block,
  max_file_size,
}
use os_curriculum_design.FileSystem.Layout.{fixed}
use os_curriculum_design.FileSystem.Blocks.{
  block_lba, inode_at, set_inode, allocate_data_block, write_indirect_block, write_both,
  write_info_block, write_inode_table, free_inode_blocks,
}
use os_curriculum_design.FileSystem.Inodes.{
  inode_in_use, ensure_indirect, place_block, write_block, write_blocks, write_failed, finish_write,
  write_inode_data, required_blocks,
}

module _ {D : Type 0} (ata : Ata D) where
  -- The bitmap of inodes is the same.
  abbrev pub SameMap : FileSystem D → FileSystem D → Type 0
  SameMap fs fs₁ = fs₁.info.inode_bitmap ≡ fs.info.inode_bitmap

  abbrev SameAfter : {A : Type 0} → FileSystem D → FileSystem D × A → Type 0
  SameAfter fs r = SameMap fs r.0

  allocate_same : (fs : FileSystem D) → SameMap fs (allocate_data_block ata fs).0
  unfolding allocate_data_block
  allocate_same fs = elim (Option-cases (first_free fs.info.data_bitmap 0 data_blocks)) [
    | inl e ↦ simp (e, allocate_data_block)
    | inr (b, e) ↦
        elim (Bool-cases
          (Ata.write_sectors ata fs.disk (block_lba fs.info b) 1 (replicate sector_size 0)).1) [
            | inl ok ↦ simp (e, ok, allocate_data_block)
            | inr failed ↦ simp (e, failed, allocate_data_block)
          ]
  ]

  indirect_same :
      (fs : FileSystem D) (inode : Inode) (table : List ℕ)
      → SameMap fs (write_indirect_block ata fs inode table).0
  unfolding write_indirect_block
  indirect_same fs inode table =
      if_both (SameAfter fs) (inode.indirect_block == invalid_block) (fs, false) _ refl refl

  ensure_same :
      (fs : FileSystem D) (i : ℕ) (table : List ℕ) (needs : Bool)
      → SameMap fs (ensure_indirect ata fs i table needs).0
  unfolding ensure_indirect
  ensure_same fs i table true = refl
  ensure_same fs i table false = elim (Option-cases (allocate_data_block ata fs).1) [
    | inl e ↦ simp (e, ensure_indirect) (allocate_same fs)
    | inr (b, e) ↦
        let fs₁ = (allocate_data_block ata fs).0 in
        let inode = record (inode_at fs₁.inodes i) { indirect_block = b } in
        simp (e, ensure_indirect)
          (indirect_same (set_inode fs₁ i inode) inode table ∙ allocate_same fs)
  ]

  place_same :
      (fs : FileSystem D) (i logical b : ℕ) (table : List ℕ) (needs : Bool)
      → SameMap fs (place_block ata fs i logical b table needs).0
  unfolding place_block
  place_same fs i logical b table needs =
      if_both (SameAfter fs) (ltb logical direct_count) _ _ refl (
        if_both (SameAfter fs) (ensure_indirect ata fs i table needs).1
          (
            (ensure_indirect ata fs i table needs).0,
            some (set table (logical - direct_count) b, true),
          )
          ((ensure_indirect ata fs i table needs).0, none) (ensure_same fs i table needs)
          (ensure_same fs i table needs))

  block_same :
      (fs : FileSystem D) (i logical : ℕ) (table : List ℕ) (needs : Bool) (bytes : List ℕ)
      → SameMap fs (write_block ata fs i logical table needs bytes).0
  unfolding write_block
  block_same fs i logical table needs bytes = elim (Option-cases (allocate_data_block ata fs).1) [
    | inl e ↦ simp (e, write_block) (allocate_same fs)
    | inr (b, e) ↦
        let fs₁ = (allocate_data_block ata fs).0 in
        let w = Ata.write_sectors ata fs₁.disk (block_lba fs₁.info b) 1 (fixed sector_size bytes) in
        elim (Bool-cases w.1) [
          | inl ok ↦
              simp (e, ok, write_block)
                (place_same (record fs₁ { disk = w.0 }) i logical b table needs ∙ allocate_same fs)
          | inr failed ↦ simp (e, failed, write_block) (allocate_same fs)
        ]
  ]

  blocks_same :
      (count : ℕ) (fs : FileSystem D) (i logical : ℕ) (table : List ℕ) (needs : Bool)
      (bytes : List ℕ)
      → SameMap fs (write_blocks ata count fs i logical table needs bytes).0
  unfolding write_blocks
  blocks_same zero fs i logical table needs bytes = refl
  blocks_same (suc count) fs i logical table needs bytes =
      let fs₁ = (write_block ata fs i logical table needs bytes).0 in
      elim (Option-cases (write_block ata fs i logical table needs bytes).1) [
        | inl e ↦ simp (e, write_blocks) (block_same fs i logical table needs bytes)
        | inr ((t, n), e) ↦
            simp (e, write_blocks)
              (blocks_same count fs₁ i (suc logical) t n (drop sector_size bytes)
                ∙ block_same fs i logical table needs bytes)
      ]

  both_same : (fs : FileSystem D) → SameMap fs (write_both ata fs).0
  unfolding write_both write_info_block write_inode_table
  both_same fs =
      if_both (SameAfter fs) _ _ (write_inode_table ata (write_info_block ata fs).0) refl refl

  free_same : (fs : FileSystem D) (i : ℕ) → SameMap fs (free_inode_blocks ata fs i)
  unfolding free_inode_blocks
  free_same fs i = refl

  failed_same : (fs : FileSystem D) (i : ℕ) → SameMap fs (write_failed ata fs i).0
  unfolding write_failed free_inode_blocks write_info_block write_inode_table
  failed_same fs i = refl

  finish_same :
      (fs : FileSystem D) (i : ℕ) (table : List ℕ) (needs : Bool) (size : ℕ)
      → SameMap fs (finish_write ata fs i table needs size).0
  unfolding finish_write
  finish_same fs i table needs size =
      let inode = inode_at fs.inodes i in
      let fs₁ = (write_indirect_block ata fs inode table).0 in
      let fs₂ : FileSystem D = if needs then fs₁ else fs in
      if_both (SameAfter fs) (needs && not (write_indirect_block ata fs inode table).1)
        (write_failed ata fs₁ i)
        (write_both ata (set_inode fs₂ i (record (inode_at fs₂.inodes i) { size = size })))
        (failed_same fs₁ i ∙ indirect_same fs inode table)
        (both_same (set_inode fs₂ i (record (inode_at fs₂.inodes i) { size = size }))
          ∙ if_both (SameMap fs) needs fs₁ fs (indirect_same fs inode table) refl)

  pub write_inode_data-inode_bitmap :
      (fs : FileSystem D) (i : ℕ) (bytes : List ℕ) → SameMap fs (write_inode_data ata fs i bytes).0
  unfolding write_inode_data
  write_inode_data-inode_bitmap fs i bytes =
      let fs₀ = free_inode_blocks ata fs i in
      let table = replicate indirect_entries invalid_block in
      let count = required_blocks (length bytes) in
      let fs₁ = (write_blocks ata count fs₀ i 0 table false bytes).0 in
      let same = blocks_same count fs₀ i 0 table false bytes ∙ free_same fs i in
      elim (Bool-cases (not (inode_in_use fs.info i) || ltb max_file_size (length bytes))) [
        | inl refused ↦ simp (refused, write_inode_data)
        | inr checked ↦ elim (Option-cases (write_blocks ata count fs₀ i 0 table false bytes).1) [
          | inl e ↦ simp (checked, e, write_inode_data) (failed_same fs₁ i ∙ same)
          | inr ((t, n), e) ↦
              simp (checked, e, write_inode_data) (finish_same fs₁ i t n (length bytes) ∙ same)
        ]
      ]
