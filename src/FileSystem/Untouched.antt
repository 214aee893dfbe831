-- ===== src/FileSystem/Untouched.antt =====
-- fs/simplefs.c: the end of `write_inode_data`, and what it means for the other files.
use os_curriculum_design.Prelude.{
  ℕ, ◌+◌, ◌%◌, ◌^◌, ◌≤◌, ◌<◌, ◌≡◌, ◌≢◌, ◌⊎◌, inl, inr, refl, sym, ap, ◌∙◌, subst, arith, Bool,
  false, not, ◌&&◌, ◌||◌, List, [], if◌then◌else◌, length, replicate, Bool-cases, Option-cases, ltb,
  ◌==◌, if_both, get_or-set_ne,
}
use os_curriculum_design.FileSystem.{
  Ata, FileSystem, Inode, data_blocks, indirect_entries, invalid_block, max_inodes, max_file_size,
  zero_inode, data_lba, info_lba, clear_block_pointers,
}
use os_curriculum_design.FileSystem.Layout.{bytes_of_words, info_bytes, table_words}
use os_curriculum_design.FileSystem.Blocks.{
  block_lba, inode_at, set_inode, write_indirect_block, write_both, write_info_block,
  write_inode_table, free_inode_blocks,
}
use os_curriculum_design.FileSystem.Inodes.{
  inode_in_use, write_blocks, write_failed, finish_write, write_inode_data, required_blocks,
}
use os_curriculum_design.FileSystem.Store.{
  IsReliable, IsLaidOut, Taken, disk-IsLaidOut, block_lba_lem, read_block, lt_or_gt,
}
use os_curriculum_design.FileSystem.Place.{inode_IsLaidOut, file_block}
use os_curriculum_design.FileSystem.Finish.{Readable}
use os_curriculum_design.FileSystem.RoundTrip.{Stored, in_use-write_inode_data}
use os_curriculum_design.FileSystem.Freeing.{free_inode_blocks-Written, free_inode_blocks-IsLaidOut}
use os_curriculum_design.FileSystem.Elsewhere.{Safe, blocks-Safe}

module _ {D : Type 0} (ata : Ata D) (reliable : IsReliable ata) (i : ℕ) (below : i < max_inodes)
    (fs₀ : FileSystem D) where
  -- The blocks that were taken have their bytes, and the other inodes are the same.
  pub record Untouched (fs : FileSystem D) : Type 0 where
    pub blocks : (b : ℕ) → Taken fs₀ b → read_block ata fs b ≡ read_block ata fs₀ b
    pub inodes : (j : ℕ) → i ≢ j → inode_at fs.inodes j ≡ inode_at fs₀.inodes j
    pub laid_out : IsLaidOut fs

  of-Safe : (fs : FileSystem D) → Safe ata reliable i below fs₀ fs → Untouched fs
  of-Safe fs safe = record {
    blocks = λ b taken. (safe.keeps b taken).1;
    inodes = safe.others;
    laid_out = safe.laid_out;
  }

  -- The sectors of the metadata are written, which lie before the data blocks.
  info-Untouched : (fs : FileSystem D) → Untouched fs → Untouched (write_info_block ata fs).0
  unfolding write_info_block
  info-Untouched fs u = record {
    blocks = λ b taken.
        reliable.elsewhere fs.disk info_lba 1 (data_lba + b) (info_bytes fs.info)
          (inr (omega arith))
        ∙ u.blocks b taken;
    inodes = u.inodes;
    laid_out = disk-IsLaidOut fs _ u.laid_out;
  }

  table-Untouched : (fs : FileSystem D) → Untouched fs → Untouched (write_inode_table ata fs).0
  unfolding write_inode_table
  table-Untouched fs u = record {
    blocks = λ b taken.
        reliable.elsewhere fs.disk fs.info.inode_table_lba (fs.info.inode_table_sectors % 2 ^ 8)
          (data_lba + b) (bytes_of_words (table_words fs.inodes))
          (inr (omega (arith, u.laid_out.table, u.laid_out.sectors)))
        ∙ u.blocks b taken;
    inodes = u.inodes;
    laid_out = disk-IsLaidOut fs _ u.laid_out;
  }

  both-Untouched : (fs : FileSystem D) → Untouched fs → Untouched (write_both ata fs).0
  unfolding write_both
  both-Untouched fs u =
      let f = (write_info_block ata fs).0 in
      if_both {A = FileSystem D × Bool} (λ r. Untouched r.0) _ (f, false) (write_inode_table ata f)
        (info-Untouched fs u) (table-Untouched f (info-Untouched fs u))

  set-Untouched : (fs : FileSystem D) (x : Inode) → Untouched fs → Untouched (set_inode fs i x)
  set-Untouched fs x u = record {
    blocks = u.blocks;
    inodes = λ j ne. get_or-set_ne fs.inodes x zero_inode ne ∙ u.inodes j ne;
    laid_out = inode_IsLaidOut fs i x u.laid_out;
  }

  freed-Untouched : (fs : FileSystem D) → Untouched fs → Untouched (free_inode_blocks ata fs i)
  unfolding free_inode_blocks
  freed-Untouched fs u = record {
    blocks = u.blocks;
    inodes = λ j ne.
        get_or-set_ne fs.inodes (record (clear_block_pointers (inode_at fs.inodes i)) { size = 0 })
          zero_inode ne
        ∙ u.inodes j ne;
    laid_out = free_inode_blocks-IsLaidOut ata fs i u.laid_out;
  }

  failed-Untouched : (fs : FileSystem D) → Untouched fs → Untouched (write_failed ata fs i).0
  unfolding write_failed
  failed-Untouched fs u = table-Untouched _ (info-Untouched _ (freed-Untouched fs u))

  indirect-Untouched :
      (fs : FileSystem D) (table : List ℕ)
      → Safe ata reliable i below fs₀ fs
      → Untouched (write_indirect_block ata fs (inode_at fs.inodes i) table).0
  unfolding write_indirect_block
  indirect-Untouched fs table safe =
      let u = of-Safe fs safe in
      let p = (inode_at fs.inodes i).indirect_block in
      elim (Bool-cases (p == invalid_block)) [
        | inl invalid ↦ simp (invalid, write_indirect_block) u
        | inr valid ↦
            let written : Untouched (record fs {
              disk =
                  (Ata.write_sectors ata fs.disk (block_lba fs.info p) 1 (bytes_of_words table)).0;
            }) =
              record {
                blocks = λ b taken.
                    let (ne, pointer) = safe.own b taken in
                    let lt : p < data_blocks = elim pointer [
                      | inl lt ↦ lt
                      | inr nowhere ↦ absurd (ground (arith, nowhere, valid))
                    ] in
                    let at = block_lba_lem ata fs.info p u.laid_out.data_start lt in
                    let outside : (data_lba + b < block_lba fs.info p)
                        ⊎ (block_lba fs.info p + 1 ≤ data_lba + b) =
                      elim (lt_or_gt b p ne) [
                        | inl h ↦ inl (omega (arith, h, at))
                        | inr h ↦ inr (omega (arith, h, at))
                      ] in
                    reliable.elsewhere fs.disk (block_lba fs.info p) 1 (data_lba + b)
                      (bytes_of_words table) outside
                    ∙ u.blocks b taken;
                inodes = u.inodes;
                laid_out = disk-IsLaidOut fs _ u.laid_out;
              } in
            simp (valid, write_indirect_block) written
      ]

  finish-Untouched :
      (fs : FileSystem D) (table : List ℕ) (needs : Bool) (size : ℕ)
      → Safe ata reliable i below fs₀ fs
      → Untouched (finish_write ata fs i table needs size).0
  unfolding finish_write
  finish-Untouched fs table needs size safe =
      let inode = inode_at fs.inodes i in
      let r = write_indirect_block ata fs inode table in
      let u₁ = indirect-Untouched fs table safe in
      let fs₂ : FileSystem D = if needs then r.0 else fs in
      let x : Inode = record (inode_at fs₂.inodes i) { size = size } in
      if_both {A = FileSystem D × Bool} (λ q. Untouched q.0) (needs && not r.1)
        (write_failed ata r.0 i) (write_both ata (set_inode fs₂ i x)) (failed-Untouched r.0 u₁)
        (both-Untouched (set_inode fs₂ i x)
          (set-Untouched fs₂ x (if_both Untouched needs r.0 fs u₁ (of-Safe fs safe))))

module _ {D : Type 0} (ata : Ata D) (reliable : IsReliable ata) (fs : FileSystem D) (i : ℕ)
    (below : i < max_inodes) (h : IsLaidOut fs) where
  -- The state when the file's old blocks were given up.
  abbrev pub freed : FileSystem D
  freed = free_inode_blocks ata fs i

  start-Safe : Safe ata reliable i below freed freed
  start-Safe =
      let w = free_inode_blocks-Written ata fs i [] below h in
      record {
        keeps = λ b taken. (taken, refl);
        laid_out = free_inode_blocks-IsLaidOut ata fs i h;
        own = λ b taken.
            (λ e. absurd (omega (arith, e, w.unmade refl, taken.0)), inr (w.unmade refl));
        others = λ j ne. refl;
      }

  refused-Untouched : Untouched ata reliable i below freed fs
  unfolding free_inode_blocks
  refused-Untouched = record {
    blocks = λ b taken. refl;
    inodes = λ j ne. sym (
        get_or-set_ne fs.inodes (record (clear_block_pointers (inode_at fs.inodes i)) { size = 0 })
          zero_inode ne);
    laid_out = h;
  }

  write_inode_data-Untouched :
      (bytes : List ℕ) → Untouched ata reliable i below freed (write_inode_data ata fs i bytes).0
  unfolding write_inode_data
  write_inode_data-Untouched bytes =
      let table = replicate indirect_entries invalid_block in
      let r = write_blocks ata (required_blocks (length bytes)) freed i 0 table false bytes in
      let safe =
        blocks-Safe ata reliable i below freed (required_blocks (length bytes)) freed 0 table false
          bytes start-Safe in
      elim (Bool-cases (not (inode_in_use fs.info i) || ltb max_file_size (length bytes))) [
        | inl refused ↦ simp (refused, write_inode_data) refused-Untouched
        | inr checked ↦ elim (Option-cases r.1) [
          | inl e ↦
              simp (checked, e, write_inode_data)
                (failed-Untouched ata reliable i below freed r.0
                  (of-Safe ata reliable i below freed r.0 safe))
          | inr ((t, n), e) ↦
              simp (checked, e, write_inode_data)
                (finish-Untouched ata reliable i below freed r.0 t n (length bytes) safe)
        ]
      ]

  -- On a disk that keeps what was written, in a file system of the layout that mounting checks: another
  -- file has its contents after a write of any bytes to a file, however the write ends, if giving up the
  -- written file's old blocks leaves those of the other file taken.
  pub write_inode_data-Stored_elsewhere :
      (bytes : List ℕ) (j : ℕ) (contents : List ℕ) (s : Stored ata fs j contents)
      → i ≢ j
      → ((k : ℕ)
          → k < required_blocks (length contents)
          → Taken freed (file_block (inode_at fs.inodes j).direct_blocks s.readable.table k))
      → ((inode_at fs.inodes j).indirect_block < data_blocks
          → Taken freed (inode_at fs.inodes j).indirect_block)
      → Stored ata (write_inode_data ata fs i bytes).0 j contents
  unfolding free_inode_blocks
  write_inode_data-Stored_elsewhere bytes j contents s ne taken indirect_taken =
      let f = (write_inode_data ata fs i bytes).0 in
      let inode = inode_at fs.inodes j in
      let u = write_inode_data-Untouched bytes in
      let same : inode_at f.inodes j ≡ inode =
        u.inodes j ne ∙ sym (refused-Untouched.inodes j ne) in
      record {
        in_use = in_use-write_inode_data ata fs i j bytes ∙ s.in_use;
        size = ap (λ (x : Inode). x.size) same ∙ s.size;
        most = s.most;
        readable =
            subst (λ x. Readable ata f.info f.disk x (required_blocks (length contents)) contents)
              (sym same)
              (record {
                table = s.readable.table;
                data_start = u.laid_out.data_start;
                words = s.readable.words;
                indirect = elim s.readable.indirect [
                  | inl direct ↦ inl direct
                  | inr (valid, e) ↦
                      inr (valid, u.blocks inode.indirect_block (indirect_taken valid) ∙ e)
                ];
                stored = λ k lt.
                    let (inside, e) = s.readable.stored k lt in
                    (inside, u.blocks _ (taken k lt) ∙ e);
              });
      }
