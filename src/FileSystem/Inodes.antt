-- ===== src/FileSystem/Inodes.antt =====
-- fs/simplefs.c: inodes, and a file's bytes read from and written to its blocks. A buffer is the list
-- of its bytes and is never the null pointer.
use os_curriculum_design.Prelude.{
  ℕ, zero, suc, ◌+◌, ◌-◌, ◌/◌, ◌%◌, Bool, true, false, not, ◌&&◌, ◌||◌, Option, none, some, List,
  [], ◌∷◌, ◌++◌, if◌then◌else◌, ltb, leb, ◌==◌, set, replicate, length, take, drop,
}
use mathlib.Core.Option
use os_curriculum_design.Bitmap.{bitmap_test, bitmap_set, bitmap_clear}
use os_curriculum_design.Bitmap.FirstFree.{first_free}
use os_curriculum_design.FileSystem.{
  Ata, FileSystem, InfoBlock, Inode, OpenFile, sector_size, direct_count, indirect_entries,
  invalid_block, max_inodes, max_file_size, root_inode, kind_directory, zero_inode,
  clear_block_pointers,
}
use os_curriculum_design.FileSystem.Layout.{fixed}
use os_curriculum_design.FileSystem.Blocks.{
  block_lba, inode_at, write_both, write_info_block, write_inode_table, set_data_bitmap, set_inode,
  allocate_data_block, write_indirect_block, free_inode_blocks, get_file_block,
}

-- `inode_is_open`, on the table of open files.
unfoldable pub inode_is_open : List OpenFile → ℕ → Bool
inode_is_open [] i = false
inode_is_open (f ∷ fs) i = (f.used && (f.inode_index == i)) || inode_is_open fs i

-- The test that every operation on an inode starts with.
unfoldable pub inode_in_use : InfoBlock → ℕ → Bool
inode_in_use info i = ltb i max_inodes && bitmap_test info.inode_bitmap i

abbrev pub set_inode_bitmap : {D : Type 0} → FileSystem D → List ℕ → FileSystem D
set_inode_bitmap fs bitmap = record fs { info = record fs.info { inode_bitmap = bitmap } }

abbrev pub new_inode : ℕ → Inode
new_inode kind =
    clear_block_pointers
      (record zero_inode { kind = kind; link_count = if kind == kind_directory then 2 else 1 })

-- The bytes that one turn of the loop in `read_inode_bytes` takes from its sector.
unfoldable pub chunk_size : ℕ → ℕ → ℕ
chunk_size remaining sector_offset =
    if ltb (sector_size - sector_offset) remaining then sector_size - sector_offset else remaining

-- `remaining` before that loop.
unfoldable pub bytes_to_read : Inode → ℕ → ℕ → ℕ
bytes_to_read inode offset buffer_size =
    let remaining = inode.size - offset in
    if leb inode.size offset
    then 0
    else if ltb buffer_size remaining
    then buffer_size
    else remaining

unfoldable pub required_blocks : ℕ → ℕ
required_blocks size = (size + sector_size - 1) / sector_size

module _ {D : Type 0} (ata : Ata D) where
  -- `allocate_inode`: the inode, after both tables were written.
  unfoldable pub allocate_inode : FileSystem D → ℕ → FileSystem D × Option ℕ
  allocate_inode fs kind = elim (first_free fs.info.inode_bitmap 0 max_inodes) [
    | none ↦ (fs, none)
    | some i ↦
        let bitmap = bitmap_set fs.info.inode_bitmap i in
        let (fs₁, ok) =
          write_both ata (set_inode (set_inode_bitmap fs bitmap) i (new_inode kind)) in
        if ok
        then (fs₁, some i)
        else (set_inode (set_inode_bitmap fs₁ (bitmap_clear bitmap i)) i zero_inode, none)
  ]

  unfoldable pub release_inode : FileSystem D → ℕ → FileSystem D × Bool
  release_inode fs i =
      let fs₁ = set_inode (free_inode_blocks ata fs i) i zero_inode in
      if not (inode_in_use fs.info i) || (i == root_inode)
      then (fs, false)
      else write_both ata (set_inode_bitmap fs₁ (bitmap_clear fs₁.info.inode_bitmap i))

  -- The loop of `read_inode_bytes`, on fuel: the bytes of `remaining` that it copies, fewer where the
  -- file has a hole. `none` is a failed read.
  unfoldable pub read_from :
      ℕ → FileSystem D → Inode → ℕ → ℕ → Option (List ℕ) → ℕ → Option (List ℕ)
  read_from zero fs inode logical sector_offset table remaining = some []
  read_from (suc fuel) fs inode logical sector_offset table zero = some []
  read_from (suc fuel) fs inode logical sector_offset table (suc r) =
      elim (get_file_block ata fs inode logical table) [
        | none ↦ none
        | some (block, table₁) ↦ elim (block == invalid_block) [
          | true ↦ some []
          | false ↦ elim (Ata.read_sectors ata fs.disk (block_lba fs.info block) 1) [
            | none ↦ none
            | some sector ↦
                let n = chunk_size (suc r) sector_offset in
                Option.map (λ rest. take n (drop sector_offset sector) ++ rest)
                  (read_from fuel fs inode (suc logical) 0 table₁ (suc r - n))
          ]
        ]
      ]

  -- `read_inode_bytes`: what it puts in the buffer, `none` where it returns 0.
  unfoldable pub read_inode_bytes : FileSystem D → ℕ → ℕ → ℕ → Option (List ℕ)
  read_inode_bytes fs i offset buffer_size =
      let inode = inode_at fs.inodes i in
      let remaining = bytes_to_read inode offset buffer_size in
      elim (inode_in_use fs.info i) [
        | false ↦ none
        | true ↦
            read_from remaining fs inode (offset / sector_size) (offset % sector_size) none
              remaining
      ]

  -- The indirect block, made on the first block beyond the direct ones.
  unfoldable pub ensure_indirect : FileSystem D → ℕ → List ℕ → Bool → FileSystem D × Bool
  ensure_indirect fs i table true = (fs, true)
  ensure_indirect fs i table false =
      let (fs₁, b) = allocate_data_block ata fs in
      elim b [
        | none ↦ (fs₁, false)
        | some block ↦
            let inode = record (inode_at fs₁.inodes i) { indirect_block = block } in
            write_indirect_block ata (set_inode fs₁ i inode) inode table
      ]

  -- Where a written block is noted: the inode, or the indirect table with its mark. `none` is a jump to
  -- `fail`.
  unfoldable pub place_block :
      FileSystem D → ℕ → ℕ → ℕ → List ℕ → Bool → FileSystem D × Option (List ℕ × Bool)
  place_block fs i logical block table needs_indirect =
      let inode = inode_at fs.inodes i in
      let (fs₁, ok) = ensure_indirect fs i table needs_indirect in
      if ltb logical direct_count
      then (
        set_inode fs i (record inode { direct_blocks = set inode.direct_blocks logical block }),
        some (table, needs_indirect),
      )
      else if ok
      then (fs₁, some (set table (logical - direct_count) block, true))
      else (fs₁, none)

  -- One turn of the loop of `write_inode_data`, with the rest of the data.
  unfoldable pub write_block :
      FileSystem D → ℕ → ℕ → List ℕ → Bool → List ℕ → FileSystem D × Option (List ℕ × Bool)
  write_block fs i logical table needs_indirect bytes =
      let (fs₁, b) = allocate_data_block ata fs in
      elim b [
        | none ↦ (fs₁, none)
        | some block ↦
            let (d, ok) =
              Ata.write_sectors ata fs₁.disk (block_lba fs₁.info block) 1
                (fixed sector_size bytes) in
            let fs₂ = record fs₁ { disk = d } in
            elim ok [
              | false ↦ (set_data_bitmap fs₂ (bitmap_clear fs₁.info.data_bitmap block), none)
              | true ↦ place_block fs₂ i logical block table needs_indirect
            ]
      ]

  -- The loop of `write_inode_data`, for `count` more blocks.
  unfoldable pub write_blocks :
      ℕ → FileSystem D → ℕ → ℕ → List ℕ → Bool → List ℕ → FileSystem D × Option (List ℕ × Bool)
  write_blocks zero fs i logical table needs_indirect bytes = (fs, some (table, needs_indirect))
  write_blocks (suc count) fs i logical table needs_indirect bytes =
      let (fs₁, placed) = write_block fs i logical table needs_indirect bytes in
      elim placed [
        | none ↦ (fs₁, none)
        | some (table₁, needs₁) ↦
            write_blocks count fs₁ i (suc logical) table₁ needs₁ (drop sector_size bytes)
      ]

  -- What follows the label `fail`.
  unfoldable pub write_failed : FileSystem D → ℕ → FileSystem D × Bool
  write_failed fs i =
      let (fs₁, ok₁) = write_info_block ata (free_inode_blocks ata fs i) in
      let (fs₂, ok₂) = write_inode_table ata fs₁ in (fs₂, false)

  -- What follows the loop.
  unfoldable pub finish_write : FileSystem D → ℕ → List ℕ → Bool → ℕ → FileSystem D × Bool
  finish_write fs i table needs_indirect size =
      let (fs₁, ok) = write_indirect_block ata fs (inode_at fs.inodes i) table in
      let fs₂ = if needs_indirect then fs₁ else fs in
      if needs_indirect && not ok
      then write_failed fs₁ i
      else write_both ata (set_inode fs₂ i (record (inode_at fs₂.inodes i) { size = size }))

  unfoldable pub write_inode_data : FileSystem D → ℕ → List ℕ → FileSystem D × Bool
  write_inode_data fs i bytes =
      let table = replicate indirect_entries invalid_block in
      let (fs₁, r) =
        write_blocks (required_blocks (length bytes)) (free_inode_blocks ata fs i) i 0 table false
          bytes in
      if not (inode_in_use fs.info i) || ltb max_file_size (length bytes)
      then (fs, false)
      else elim r [
        | none ↦ write_failed fs₁ i
        | some (table₁, needs_indirect) ↦ finish_write fs₁ i table₁ needs_indirect (length bytes)
      ]
