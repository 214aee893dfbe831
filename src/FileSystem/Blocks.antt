-- ===== src/FileSystem/Blocks.antt =====
-- fs/simplefs.c: data blocks, the indirect block, and the inodes' hold on them.
use os_curriculum_design.Prelude.{
  ℕ, ◌-◌, ◌%◌, ◌^◌, Bool, false, not, Option, none, some, List, [], ◌∷◌, if◌then◌else◌, ltb, leb,
  ◌==◌, add32, get_or, set, replicate,
}
use mathlib.Core.Option
use os_curriculum_design.Bitmap.{bitmap_set, bitmap_clear}
use os_curriculum_design.Bitmap.FirstFree.{first_free}
use os_curriculum_design.FileSystem.{
  Ata, FileSystem, InfoBlock, Inode, boot_lba, info_lba, sector_size, data_blocks, direct_count,
  indirect_entries, invalid_block, zero_inode, clear_block_pointers,
}
use os_curriculum_design.FileSystem.Layout.{
  bytes_of_words, words_of_bytes, boot_bytes, info_bytes, table_words,
}

abbrev pub block_lba : InfoBlock → ℕ → ℕ
block_lba info block = add32 info.data_lba block

abbrev pub inode_at : List Inode → ℕ → Inode
inode_at inodes i = get_or inodes i zero_inode

-- `bitmap_clear` for each block of a list that is valid.
unfoldable pub free_blocks : List ℕ → List ℕ → List ℕ
free_blocks bitmap [] = bitmap
free_blocks bitmap (b ∷ bs) =
    free_blocks (if b == invalid_block then bitmap else bitmap_clear bitmap b) bs

abbrev pub set_data_bitmap : {D : Type 0} → FileSystem D → List ℕ → FileSystem D
set_data_bitmap fs bitmap = record fs { info = record fs.info { data_bitmap = bitmap } }

abbrev pub set_inode : {D : Type 0} → FileSystem D → ℕ → Inode → FileSystem D
set_inode fs i inode = record fs { inodes = set fs.inodes i inode }

module _ {D : Type 0} (ata : Ata D) where
  unfoldable pub write_boot_block : FileSystem D → FileSystem D × Bool
  write_boot_block fs =
      let (d, ok) = Ata.write_sectors ata fs.disk boot_lba 1 (boot_bytes fs.boot) in
      (record fs { disk = d }, ok)

  unfoldable pub write_info_block : FileSystem D → FileSystem D × Bool
  write_info_block fs =
      let (d, ok) = Ata.write_sectors ata fs.disk info_lba 1 (info_bytes fs.info) in
      (record fs { disk = d }, ok)

  unfoldable pub write_inode_table : FileSystem D → FileSystem D × Bool
  write_inode_table fs =
      let (d, ok) =
        Ata.write_sectors ata fs.disk fs.info.inode_table_lba (fs.info.inode_table_sectors % 2 ^ 8)
          (bytes_of_words (table_words fs.inodes)) in
      (record fs { disk = d }, ok)

  -- `!write_info_block() || !write_inode_table()`, negated: the second is not tried if the first fails.
  unfoldable pub write_both : FileSystem D → FileSystem D × Bool
  write_both fs =
      let (fs₁, ok) = write_info_block fs in if not ok then (fs₁, false) else write_inode_table fs₁

  -- `allocate_data_block`: the block, which was cleared on the disk.
  unfoldable pub allocate_data_block : FileSystem D → FileSystem D × Option ℕ
  allocate_data_block fs = elim (first_free fs.info.data_bitmap 0 data_blocks) [
    | none ↦ (fs, none)
    | some block ↦
        let bitmap = bitmap_set fs.info.data_bitmap block in
        let (d, ok) =
          Ata.write_sectors ata fs.disk (block_lba fs.info block) 1 (replicate sector_size 0) in
        if not ok
        then (set_data_bitmap (record fs { disk = d }) (bitmap_clear bitmap block), none)
        else (set_data_bitmap (record fs { disk = d }) bitmap, some block)
  ]

  -- `read_indirect_block`; an inode without one has a table of invalid blocks.
  unfoldable pub read_indirect_block : FileSystem D → Inode → Option (List ℕ)
  read_indirect_block fs inode =
      if inode.indirect_block == invalid_block
      then some (replicate indirect_entries invalid_block)
      else Option.map words_of_bytes
          (Ata.read_sectors ata fs.disk (block_lba fs.info inode.indirect_block) 1)

  unfoldable pub write_indirect_block : FileSystem D → Inode → List ℕ → FileSystem D × Bool
  write_indirect_block fs inode table =
      let (d, ok) =
        Ata.write_sectors ata fs.disk (block_lba fs.info inode.indirect_block) 1
          (bytes_of_words table) in
      if inode.indirect_block == invalid_block then (fs, false) else (record fs { disk = d }, ok)

  -- The data blocks that `free_inode_blocks` clears through the indirect block, and that block.
  unfoldable pub free_indirect : FileSystem D → Inode → List ℕ → List ℕ
  free_indirect fs inode bitmap =
      let freed : List ℕ = elim (read_indirect_block fs inode) [
        | none ↦ bitmap
        | some table ↦ free_blocks bitmap table
      ] in
      if inode.indirect_block == invalid_block
      then bitmap
      else bitmap_clear freed inode.indirect_block

  -- `free_inode_blocks(&inode_table[i])`.
  unfoldable pub free_inode_blocks : FileSystem D → ℕ → FileSystem D
  free_inode_blocks fs i =
      let inode = inode_at fs.inodes i in
      let bitmap = free_indirect fs inode (free_blocks fs.info.data_bitmap inode.direct_blocks) in
      set_inode (set_data_bitmap fs bitmap) i (record (clear_block_pointers inode) { size = 0 })

  -- `get_file_block`: the block, and the indirect table once it was read. `none` is a failed read.
  unfoldable pub get_file_block :
      FileSystem D → Inode → ℕ → Option (List ℕ) → Option (ℕ × Option (List ℕ))
  get_file_block fs inode logical_block table =
      let logical = logical_block - direct_count in
      if ltb logical_block direct_count
      then some (get_or inode.direct_blocks logical_block invalid_block, table)
      else if leb indirect_entries logical
      then some (invalid_block, table)
      else elim table [
        | some t ↦ some (get_or t logical invalid_block, some t)
        | none ↦ elim (read_indirect_block fs inode) [
          | none ↦ none
          | some t ↦ some (get_or t logical invalid_block, some t)
        ]
      ]
