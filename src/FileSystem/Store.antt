-- ===== src/FileSystem/Store.antt =====
-- fs/simplefs.c: what a disk promises, and the blocks that the data bitmap marks as taken. An
-- allocation takes a block that was free, and leaves the taken ones as they were.
use os_curriculum_design.Prelude.{
  ℕ, ◌+◌, ◌≤◌, ◌<◌, ◌≡◌, ◌≢◌, ◌⊎◌, inl, inr, refl, subst, arith, true, false, Option, none, some,
  List, length, replicate, Bool-cases, Option-cases, ltb,
}
use os_curriculum_design.Bitmap.{bitmap_test, bitmap_set}
use os_curriculum_design.Bitmap.Laws.{IsBitmap, bitmap_set-IsBitmap, bitmap_test-set}
use os_curriculum_design.Bitmap.FirstFree.{first_free, first_free-some}
use os_curriculum_design.FileSystem.{
  Ata, FileSystem, InfoBlock, sector_size, data_blocks, data_lba, inode_table_lba,
  inode_table_sectors, max_inodes,
}
use os_curriculum_design.FileSystem.Blocks.{block_lba, allocate_data_block, set_data_bitmap}

pub lt_or_gt : (a b : ℕ) → a ≢ b → (a < b) ⊎ (b < a)
lt_or_gt a b ne = elim (Bool-cases (ltb a b)) [
  | inl h ↦ inl (ground (arith, h))
  | inr h ↦ inr (ground (arith, h, ne))
]

-- A sector that was written is read back, and the sectors outside of a transfer keep their contents.
pub record IsReliable {D : Type 0} (ata : Ata D) : Type 0 where
  pub read_back :
      (d : D) (lba : ℕ) (bytes : List ℕ)
      → length bytes ≡ sector_size
      → (Ata.write_sectors ata d lba 1 bytes).1 ≡ true
      → Ata.read_sectors ata (Ata.write_sectors ata d lba 1 bytes).0 lba 1 ≡ some bytes
  pub elsewhere :
      (d : D) (lba n other : ℕ) (bytes : List ℕ)
      → (other < lba) ⊎ (lba + n ≤ other)
      → Ata.read_sectors ata (Ata.write_sectors ata d lba n bytes).0 other 1
        ≡ Ata.read_sectors ata d other 1

-- The layout constants that mounting checked, and a bitmap and an inode table of their full size.
pub record IsLaidOut {D : Type 0} (fs : FileSystem D) : Type 0 where
  pub data_start : fs.info.data_lba ≡ data_lba
  pub table : fs.info.inode_table_lba ≡ inode_table_lba
  pub sectors : fs.info.inode_table_sectors ≡ inode_table_sectors
  pub bitmap : IsBitmap data_blocks fs.info.data_bitmap
  pub inodes : length fs.inodes ≡ max_inodes

-- The layout is that of the memory, whatever the disk is.
pub disk-IsLaidOut :
    {D : Type 0} (fs : FileSystem D) (d : D) → IsLaidOut fs → IsLaidOut (record fs { disk = d })
disk-IsLaidOut fs d h = record {
  data_start = h.data_start;
  table = h.table;
  sectors = h.sectors;
  bitmap = h.bitmap;
  inodes = h.inodes;
}

-- The block is taken.
abbrev pub Taken : {D : Type 0} → FileSystem D → ℕ → Type 0
Taken fs b = (b < data_blocks) × (bitmap_test fs.info.data_bitmap b ≡ true)

pub Taken-ne_free :
    {D : Type 0} (fs : FileSystem D) (x b : ℕ)
    → Taken fs x
    → bitmap_test fs.info.data_bitmap b ≡ false
    → x ≢ b
Taken-ne_free fs x b (below, set) free = λ e. cc

module _ {D : Type 0} (ata : Ata D) where
  abbrev pub read_block : FileSystem D → ℕ → Option (List ℕ)
  read_block fs b = Ata.read_sectors ata fs.disk (data_lba + b) 1

  -- Every taken block stays taken, with the same bytes.
  abbrev pub Keeps : FileSystem D → FileSystem D → Type 0
  Keeps fs fs₁ = (b : ℕ) → Taken fs b → Taken fs₁ b × (read_block fs₁ b ≡ read_block fs b)

  pub Keeps-trans : (fs fs₁ fs₂ : FileSystem D) → Keeps fs fs₁ → Keeps fs₁ fs₂ → Keeps fs fs₂
  Keeps-trans fs fs₁ fs₂ h k b taken =
      let (taken₁, same) = h b taken in
      let (taken₂, same₂) = k b taken₁ in (taken₂, rw (same₂, same) refl)

  -- A block is taken and holds the bytes.
  abbrev pub Holds : FileSystem D → ℕ → List ℕ → Type 0
  Holds fs b bytes = Taken fs b × (read_block fs b ≡ some bytes)

  pub Holds-Keeps :
      (fs fs₁ : FileSystem D) (b : ℕ) (bytes : List ℕ)
      → Keeps fs fs₁
      → Holds fs b bytes
      → Holds fs₁ b bytes
  Holds-Keeps fs fs₁ b bytes keeps (taken, same) =
      let (taken₁, same₁) = keeps b taken in (taken₁, rw (same₁, same) refl)

  pub block_lba_lem :
      (info : InfoBlock) (b : ℕ)
      → info.data_lba ≡ data_lba
      → b < data_blocks
      → block_lba info b ≡ data_lba + b
  block_lba_lem info b e lt = omega (arith, e, lt)

  -- What `allocate_data_block` leaves when it returns `b`.
  pub record Allocated (fs fs₁ : FileSystem D) (b : ℕ) : Type 0 where
    pub free : bitmap_test fs.info.data_bitmap b ≡ false
    pub laid_out : IsLaidOut fs₁
    pub taken : Taken fs₁ b
    pub keeps : Keeps fs fs₁
    pub same_inodes : fs₁.inodes ≡ fs.inodes
    pub bitmap : fs₁.info.data_bitmap ≡ bitmap_set fs.info.data_bitmap b

  module _ (reliable : IsReliable ata) (fs : FileSystem D) where
    -- A sector written to a block that was free leaves the blocks that were taken.
    pub write-Keeps :
        (fs₁ : FileSystem D) (b : ℕ) (bytes : List ℕ)
        → Keeps fs fs₁
        → IsLaidOut fs₁
        → b < data_blocks
        → bitmap_test fs.info.data_bitmap b ≡ false
        → Keeps fs (record fs₁ {
          disk = (Ata.write_sectors ata fs₁.disk (block_lba fs₁.info b) 1 bytes).0;
        })
    write-Keeps fs₁ b bytes keeps laid_out lt free k (below, set) =
        let (taken₁, same) = keeps k (below, set) in
        let apart = Taken-ne_free fs k b (below, set) free in
        let at : block_lba fs₁.info b ≡ data_lba + b =
          block_lba_lem fs₁.info b laid_out.data_start lt in
        let outside : (data_lba + k < block_lba fs₁.info b)
            ⊎ (block_lba fs₁.info b + 1 ≤ data_lba + k) =
          elim (lt_or_gt k b apart) [
            | inl h ↦ inl (omega (arith, h, at))
            | inr h ↦ inr (omega (arith, h, at))
          ] in
        let kept =
          reliable.elsewhere fs₁.disk (block_lba fs₁.info b) 1 (data_lba + k) bytes outside in
        (taken₁, rw (kept, same) refl)

    -- A bit set in the bitmap.
    pub set-Keeps :
        (b : ℕ)
        → IsLaidOut fs
        → b < data_blocks
        → Keeps fs (set_data_bitmap fs (bitmap_set fs.info.data_bitmap b))
    set-Keeps b laid_out lt k (below, set) =
        let law = bitmap_test-set data_blocks fs.info.data_bitmap laid_out.bitmap b lt k in
        ((below, ground (arith, law, set)), refl)

    set-IsLaidOut :
        (b : ℕ)
        → IsLaidOut fs
        → b < data_blocks
        → IsLaidOut (set_data_bitmap fs (bitmap_set fs.info.data_bitmap b))
    set-IsLaidOut b laid_out lt = record {
      data_start = laid_out.data_start;
      table = laid_out.table;
      sectors = laid_out.sectors;
      bitmap = bitmap_set-IsBitmap data_blocks fs.info.data_bitmap laid_out.bitmap b lt;
      inodes = laid_out.inodes;
    }

    -- The state after an allocation.
    pub allocated :
        (b : ℕ) (bytes : List ℕ)
        → IsLaidOut fs
        → b < data_blocks
        → bitmap_test fs.info.data_bitmap b ≡ false
        → Allocated fs
            (set_data_bitmap
              (record fs { disk = (Ata.write_sectors ata fs.disk (block_lba fs.info b) 1 bytes).0 })
              (bitmap_set fs.info.data_bitmap b))
            b
    allocated b bytes laid_out lt free =
        let law = bitmap_test-set data_blocks fs.info.data_bitmap laid_out.bitmap b lt b in
        record {
          free = free;
          laid_out = disk-IsLaidOut _ _ (set-IsLaidOut b laid_out lt);
          taken = (lt, ground (arith, law));
          keeps =
              write-Keeps (set_data_bitmap fs (bitmap_set fs.info.data_bitmap b)) b bytes
                (set-Keeps b laid_out lt) (set-IsLaidOut b laid_out lt) lt free;
          same_inodes = refl;
          bitmap = refl;
        }

    pub allocate_data_block-cases :
        IsLaidOut fs
        → ((allocate_data_block ata fs).1 ≡ none)
          ⊎ ((b : ℕ) × ((allocate_data_block ata fs).1 ≡ some b)
              × Allocated fs (allocate_data_block ata fs).0 b)
    unfolding allocate_data_block
    allocate_data_block-cases laid_out =
        elim (Option-cases (first_free fs.info.data_bitmap 0 data_blocks)) [
          | inl e ↦ inl (simp (e, allocate_data_block))
          | inr (b, e) ↦
              let zeros : List ℕ = replicate sector_size 0 in
              let (above, lt, free, lower) =
                first_free-some fs.info.data_bitmap 0 data_blocks b e in
              elim (Bool-cases (Ata.write_sectors ata fs.disk (block_lba fs.info b) 1 zeros).1) [
                | inr failed ↦ inl (simp (e, failed, allocate_data_block))
                | inl ok ↦ inr (
                  b,
                  simp (e, ok, allocate_data_block),
                  subst (λ f. Allocated fs f b) (simp (e, ok, allocate_data_block))
                      (allocated b zeros laid_out (omega arith) free),
                )
              ]
        ]
