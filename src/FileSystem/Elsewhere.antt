-- ===== src/FileSystem/Elsewhere.antt =====
-- fs/simplefs.c: writing a file's data leaves the other files alone, however it ends.
use os_curriculum_design.Prelude.{
  ℕ, zero, suc, ◌-◌, ◌<◌, ◌≡◌, ◌≢◌, ◌⊎◌, inl, inr, refl, sym, ap, ◌∙◌, subst, arith, Bool, true,
  false, Option, none, some, List, drop, replicate, set, Bool-cases, Option-cases, ltb, ◌==◌,
  if_both, get_or-set_ne, get_or-set_self,
}
use os_curriculum_design.Bitmap.{bitmap_test, bitmap_set, bitmap_clear}
use os_curriculum_design.Bitmap.Laws.{IsBitmap, bitmap_clear-set}
use os_curriculum_design.Bitmap.FirstFree.{first_free, first_free-some}
use os_curriculum_design.FileSystem.{
  Ata, FileSystem, Inode, sector_size, data_blocks, direct_count, invalid_block, max_inodes,
  zero_inode,
}
use os_curriculum_design.FileSystem.Layout.{fixed, bytes_of_words}
use os_curriculum_design.FileSystem.Blocks.{
  block_lba, inode_at, set_inode, set_data_bitmap, allocate_data_block, write_indirect_block,
}
use os_curriculum_design.FileSystem.Inodes.{ensure_indirect, place_block, write_block, write_blocks}
use os_curriculum_design.FileSystem.Store.{
  IsReliable, IsLaidOut, Taken, Keeps, Keeps-trans, Allocated, allocated, write-Keeps,
  disk-IsLaidOut, Taken-ne_free,
}
use os_curriculum_design.FileSystem.Place.{inode_IsLaidOut}

-- The second block is a pointer that leads to another block than the first, or nowhere.
abbrev pub IsApart : ℕ → ℕ → Type 0
IsApart b pointer = (b ≢ pointer) × ((pointer < data_blocks) ⊎ (pointer ≡ invalid_block))

module _ {D : Type 0} (ata : Ata D) (reliable : IsReliable ata) (i : ℕ) (below : i < max_inodes)
    (fs₀ : FileSystem D) where
  -- Since `fs₀`, no taken block and no other inode was changed, and the inode's indirect block is not
  -- one that was taken then.
  pub record Safe (fs : FileSystem D) : Type 0 where
    pub keeps : Keeps ata fs₀ fs
    pub laid_out : IsLaidOut fs
    pub own : (b : ℕ) → Taken fs₀ b → IsApart b (inode_at fs.inodes i).indirect_block
    pub others : (j : ℕ) → i ≢ j → inode_at fs.inodes j ≡ inode_at fs₀.inodes j

  -- A block that is free now was free then.
  free_then :
      (fs : FileSystem D) (b : ℕ)
      → Safe fs
      → bitmap_test fs.info.data_bitmap b ≡ false
      → b < data_blocks
      → (k : ℕ) → Taken fs₀ k
      → IsApart k b
  free_then fs b safe free lt k taken = (Taken-ne_free fs k b (safe.keeps k taken).0 free, inl lt)

  -- A step that keeps the taken blocks, and the inodes.
  step :
      (fs fs₁ : FileSystem D)
      → Safe fs
      → Keeps ata fs fs₁
      → IsLaidOut fs₁
      → fs₁.inodes ≡ fs.inodes
      → Safe fs₁
  step fs fs₁ safe keeps laid_out same = record {
    keeps = Keeps-trans ata fs₀ fs fs₁ safe.keeps keeps;
    laid_out = laid_out;
    own = λ b taken. rw same (safe.own b taken);
    others = λ j ne. rw same (safe.others j ne);
  }

  -- The inode is replaced.
  replace :
      (fs : FileSystem D) (x : Inode)
      → Safe fs
      → ((b : ℕ) → Taken fs₀ b → IsApart b x.indirect_block)
      → Safe (set_inode fs i x)
  replace fs x safe own = record {
    keeps = safe.keeps;
    laid_out = inode_IsLaidOut fs i x safe.laid_out;
    own = λ b taken.
        rw (get_or-set_self fs.inodes i x zero_inode (omega (arith, below, safe.laid_out.inodes)))
          (own b taken);
    others = λ j ne. get_or-set_ne fs.inodes x zero_inode ne ∙ safe.others j ne;
  }

  -- A sector is written to a block that is free.
  write_free :
      (fs fs₁ : FileSystem D) (b : ℕ) (bytes : List ℕ)
      → Safe fs
      → bitmap_test fs.info.data_bitmap b ≡ false
      → b < data_blocks
      → Keeps ata fs fs₁
      → IsLaidOut fs₁
      → Keeps ata fs
          (record fs₁ { disk = (Ata.write_sectors ata fs₁.disk (block_lba fs₁.info b) 1 bytes).0 })
  write_free fs fs₁ b bytes safe free lt keeps laid_out =
      write-Keeps ata reliable fs fs₁ b bytes keeps laid_out lt free

  -- What an allocation leaves: a block as `Allocated` has it, or no change but on the disk.
  allocate-Safe :
      (fs : FileSystem D)
      → Safe fs
      → (((allocate_data_block ata fs).1 ≡ none) × Safe (allocate_data_block ata fs).0)
        ⊎ ((b : ℕ) × ((allocate_data_block ata fs).1 ≡ some b)
            × Allocated ata fs (allocate_data_block ata fs).0 b)
  unfolding allocate_data_block
  allocate-Safe fs safe =
      let m = fs.info.data_bitmap in
      elim (Option-cases (first_free m 0 data_blocks)) [
        | inl e ↦ inl (simp (e, allocate_data_block), simp (e, allocate_data_block) safe)
        | inr (b, e) ↦
            let zeros : List ℕ = replicate sector_size 0 in
            let (above, lt, free, lower) = first_free-some m 0 data_blocks b e in
            let inside : b < data_blocks = omega (arith, lt) in
            let d = (Ata.write_sectors ata fs.disk (block_lba fs.info b) 1 zeros).0 in
            elim (Bool-cases (Ata.write_sectors ata fs.disk (block_lba fs.info b) 1 zeros).1) [
              | inl ok ↦ inr (
                b,
                simp (e, ok, allocate_data_block),
                subst (λ f. Allocated ata fs f b) (simp (e, ok, allocate_data_block))
                    (allocated ata reliable fs b zeros safe.laid_out inside free),
              )
              | inr failed ↦
                  let back : bitmap_clear (bitmap_set m b) b ≡ m =
                    bitmap_clear-set data_blocks m safe.laid_out.bitmap b inside free in
                  let undone : Safe
                      (set_data_bitmap (record fs { disk = d }) (bitmap_clear (bitmap_set m b) b)) =
                    subst (λ q. Safe (set_data_bitmap (record fs { disk = d }) q)) (sym back)
                      (step fs (record fs { disk = d }) safe
                        (write_free fs fs b zeros safe free inside (λ k t. (t, refl)) safe.laid_out)
                        (disk-IsLaidOut fs d safe.laid_out) refl) in
                  inl (
                    simp (e, failed, allocate_data_block),
                    simp (e, failed, allocate_data_block) undone,
                  )
            ]
      ]

  -- A sector is written to a block that was free before the last step.
  on_disk :
      (fs fs₁ : FileSystem D) (b : ℕ) (bytes : List ℕ)
      → Safe fs
      → Safe fs₁
      → bitmap_test fs.info.data_bitmap b ≡ false
      → b < data_blocks
      → Keeps ata fs fs₁
      → Safe
          (record fs₁ { disk = (Ata.write_sectors ata fs₁.disk (block_lba fs₁.info b) 1 bytes).0 })
  on_disk fs fs₁ b bytes safe safe₁ free lt keeps = record {
    keeps =
        Keeps-trans ata fs₀ fs
          (record fs₁ { disk = (Ata.write_sectors ata fs₁.disk (block_lba fs₁.info b) 1 bytes).0 })
          safe.keeps (write_free fs fs₁ b bytes safe free lt keeps safe₁.laid_out);
    laid_out = disk-IsLaidOut fs₁ _ safe₁.laid_out;
    own = safe₁.own;
    others = safe₁.others;
  }

  ensure-Safe :
      (fs : FileSystem D) (table : List ℕ) (needs : Bool)
      → Safe fs
      → Safe (ensure_indirect ata fs i table needs).0
  unfolding ensure_indirect write_indirect_block
  ensure-Safe fs table true safe = safe
  ensure-Safe fs table false safe = elim (allocate-Safe fs safe) [
    | inl (e, kept) ↦ simp (e, ensure_indirect) kept
    | inr (b, e, a) ↦
        let fs₁ = (allocate_data_block ata fs).0 in
        let x : Inode = record (inode_at fs₁.inodes i) { indirect_block = b } in
        let fs₂ = set_inode fs₁ i x in
        let safe₁ = step fs fs₁ safe a.keeps a.laid_out a.same_inodes in
        let safe₂ = replace fs₁ x safe₁ (free_then fs b safe a.free a.taken.0) in
        let written : Safe (write_indirect_block ata fs₂ x table).0 =
          if_both {A = FileSystem D × Bool} (λ r. Safe r.0) (b == invalid_block) (fs₂, false) _
            safe₂ (on_disk fs fs₂ b (bytes_of_words table) safe safe₂ a.free a.taken.0 a.keeps) in
        simp (e, ensure_indirect) written
  ]

  place-Safe :
      (fs : FileSystem D) (logical b : ℕ) (table : List ℕ) (needs : Bool)
      → Safe fs
      → Safe (place_block ata fs i logical b table needs).0
  unfolding place_block
  place-Safe fs logical b table needs safe =
      let inode = inode_at fs.inodes i in
      let r = ensure_indirect ata fs i table needs in
      let x : Inode = record inode { direct_blocks = set inode.direct_blocks logical b } in
      if_both {A = FileSystem D × Option (List ℕ × Bool)} (λ q. Safe q.0) (ltb logical direct_count)
        (set_inode fs i x, some (table, needs)) _ (replace fs x safe safe.own)
        (if_both {A = FileSystem D × Option (List ℕ × Bool)} (λ q. Safe q.0) r.1
          (r.0, some (set table (logical - direct_count) b, true)) (r.0, none)
          (ensure-Safe fs table needs safe) (ensure-Safe fs table needs safe))

  -- The data of a block could not be written, and the block is given back.
  give_back :
      (fs fs₁ : FileSystem D) (b : ℕ) (bytes : List ℕ)
      → Safe fs
      → Allocated ata fs fs₁ b
      → Safe (
          set_data_bitmap
            (record fs₁ {
              disk = (Ata.write_sectors ata fs₁.disk (block_lba fs₁.info b) 1 bytes).0;
            })
            (bitmap_clear fs₁.info.data_bitmap b))
  give_back fs fs₁ b bytes safe a =
      let m = fs.info.data_bitmap in
      let back : bitmap_clear fs₁.info.data_bitmap b ≡ m =
        ap (λ q. bitmap_clear q b) a.bitmap
        ∙ bitmap_clear-set data_blocks m safe.laid_out.bitmap b a.taken.0 a.free in
      record {
        keeps = λ k t.
            let (t₁, same₁) = safe.keeps k t in
            let (t₂, same₂) =
              write_free fs fs₁ b bytes safe a.free a.taken.0 a.keeps a.laid_out k t₁ in
            ((t₁.0, ap (λ q. bitmap_test q k) back ∙ t₁.1), same₂ ∙ same₁);
        laid_out = record {
          data_start = a.laid_out.data_start;
          table = a.laid_out.table;
          sectors = a.laid_out.sectors;
          bitmap = subst (IsBitmap data_blocks) (sym back) safe.laid_out.bitmap;
          inodes = a.laid_out.inodes;
        };
        own = λ k t. rw a.same_inodes (safe.own k t);
        others = λ j ne. rw a.same_inodes (safe.others j ne);
      }

  block-Safe :
      (fs : FileSystem D) (logical : ℕ) (table : List ℕ) (needs : Bool) (bytes : List ℕ)
      → Safe fs
      → Safe (write_block ata fs i logical table needs bytes).0
  unfolding write_block
  block-Safe fs logical table needs bytes safe = elim (allocate-Safe fs safe) [
    | inl (e, kept) ↦ simp (e, write_block) kept
    | inr (b, e, a) ↦
        let fs₁ = (allocate_data_block ata fs).0 in
        let sector = fixed sector_size bytes in
        let w = Ata.write_sectors ata fs₁.disk (block_lba fs₁.info b) 1 sector in
        elim (Bool-cases w.1) [
          | inr failed ↦ simp (e, failed, write_block) (give_back fs fs₁ b sector safe a)
          | inl ok ↦
              let safe₁ = step fs fs₁ safe a.keeps a.laid_out a.same_inodes in
              simp (e, ok, write_block)
                (place-Safe (record fs₁ { disk = w.0 }) logical b table needs
                  (on_disk fs fs₁ b sector safe safe₁ a.free a.taken.0 a.keeps))
        ]
  ]

  pub blocks-Safe :
      (count : ℕ) (fs : FileSystem D) (logical : ℕ) (table : List ℕ) (needs : Bool) (bytes : List ℕ)
      → Safe fs
      → Safe (write_blocks ata count fs i logical table needs bytes).0
  unfolding write_blocks
  blocks-Safe zero fs logical table needs bytes safe = safe
  blocks-Safe (suc count) fs logical table needs bytes safe =
      let r = write_block ata fs i logical table needs bytes in
      let safe₁ = block-Safe fs logical table needs bytes safe in
      elim (Option-cases r.1) [
        | inl e ↦ simp (e, write_blocks) safe₁
        | inr ((t, n), e) ↦
            simp (e, write_blocks)
              (blocks-Safe count r.0 (suc logical) t n (drop sector_size bytes) safe₁)
      ]
