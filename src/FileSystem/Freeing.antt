-- ===== src/FileSystem/Freeing.antt =====
-- fs/simplefs.c: giving up a file's blocks keeps the layout, and is where writing its data starts.
use os_curriculum_design.Prelude.{
  ℕ, ◌<◌, ◌≡◌, inl, inr, refl, arith, false, List, [], ◌∷◌, replicate, Option-cases, ◌==◌,
  All-replicate, length-set, get_or-set_self, if_both,
}
use os_curriculum_design.Bitmap.{bitmap_clear}
use os_curriculum_design.Bitmap.Laws.{IsBitmap, clear-IsBitmap}
use os_curriculum_design.FileSystem.{
  Ata, FileSystem, Inode, data_blocks, indirect_entries, invalid_block, max_inodes, zero_inode,
  clear_block_pointers,
}
use os_curriculum_design.FileSystem.Blocks.{
  inode_at, set_inode, free_blocks, free_indirect, free_inode_blocks, read_indirect_block,
}
use os_curriculum_design.FileSystem.Words.{IsWord}
use os_curriculum_design.FileSystem.Store.{IsLaidOut}
use os_curriculum_design.FileSystem.Place.{Written}

free_blocks-IsBitmap :
    (bs bitmap : List ℕ)
    → IsBitmap data_blocks bitmap
    → IsBitmap data_blocks (free_blocks bitmap bs)
unfolding free_blocks
free_blocks-IsBitmap [] bitmap h = h
free_blocks-IsBitmap (b ∷ bs) bitmap h = free_blocks-IsBitmap bs _ (
    if_both (IsBitmap data_blocks) (b == invalid_block) bitmap (bitmap_clear bitmap b) h
      (clear-IsBitmap data_blocks bitmap b h))

module _ {D : Type 0} (ata : Ata D) where
  free_indirect-IsBitmap :
      (fs : FileSystem D) (inode : Inode) (bitmap : List ℕ)
      → IsBitmap data_blocks bitmap
      → IsBitmap data_blocks (free_indirect ata fs inode bitmap)
  unfolding free_indirect
  free_indirect-IsBitmap fs inode bitmap h =
      elim (Option-cases (read_indirect_block ata fs inode)) [
        | inl e ↦
            simp (e, free_indirect)
              (if_both (IsBitmap data_blocks) (inode.indirect_block == invalid_block) bitmap
                (bitmap_clear bitmap inode.indirect_block) h
                (clear-IsBitmap data_blocks bitmap inode.indirect_block h))
        | inr (table, e) ↦
            simp (e, free_indirect)
              (if_both (IsBitmap data_blocks) (inode.indirect_block == invalid_block) bitmap
                (bitmap_clear (free_blocks bitmap table) inode.indirect_block) h
                (clear-IsBitmap data_blocks _ inode.indirect_block
                  (free_blocks-IsBitmap table bitmap h)))
      ]

  pub free_inode_blocks-IsLaidOut :
      (fs : FileSystem D) (i : ℕ) → IsLaidOut fs → IsLaidOut (free_inode_blocks ata fs i)
  unfolding free_inode_blocks
  free_inode_blocks-IsLaidOut fs i h = record {
    data_start = h.data_start;
    table = h.table;
    sectors = h.sectors;
    bitmap = free_indirect-IsBitmap fs (inode_at fs.inodes i) _ (free_blocks-IsBitmap _ _ h.bitmap);
    inodes =
        rw
          (length-set fs.inodes i
            (record (clear_block_pointers (inode_at fs.inodes i)) { size = 0 }))
          h.inodes;
  }

  -- The loop starts with nothing written.
  pub free_inode_blocks-Written :
      (fs : FileSystem D) (i : ℕ) (bytes : List ℕ)
      → i < max_inodes
      → IsLaidOut fs
      → Written ata
          (free_inode_blocks ata fs i)
          (inode_at (free_inode_blocks ata fs i).inodes i)
          (replicate indirect_entries invalid_block)
          false
          0
          bytes
  unfolding free_inode_blocks clear_block_pointers
  free_inode_blocks-Written fs i bytes lt h =
      let x : Inode = record (clear_block_pointers (inode_at fs.inodes i)) { size = 0 } in
      let same : inode_at (set_inode fs i x).inodes i ≡ x =
        get_or-set_self fs.inodes i x zero_inode (omega (arith, lt, h.inodes)) in
      record {
        laid_out = free_inode_blocks-IsLaidOut fs i h;
        direct = rw same refl;
        entries = refl;
        words = All-replicate IsWord indirect_entries invalid_block (omega arith);
        made = λ e. cc;
        unmade = λ e. rw same refl;
        few = λ e. omega arith;
        stored = λ j below. absurd (omega (arith, below));
      }
