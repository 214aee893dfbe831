-- ===== src/FileSystem/Finish.antt =====
-- fs/simplefs.c: the end of `write_inode_data`, after which the data can be found on the disk.
use os_curriculum_design.Prelude.{
  ℕ, ◌+◌, ◌%◌, ◌^◌, ◌≤◌, ◌<◌, ◌≡◌, ◌⊎◌, inl, inr, refl, sym, ap, ◌∙◌, subst, arith, Bool, true,
  false, some, List, get_or-set_self, Bool-cases, ◌==◌, All, if_both,
}
use os_curriculum_design.FileSystem.{
  Ata, FileSystem, InfoBlock, Inode, data_blocks, direct_count, invalid_block, max_inodes,
  zero_inode, data_lba, info_lba,
}
use os_curriculum_design.FileSystem.Layout.{bytes_of_words, info_bytes, table_words}
use os_curriculum_design.FileSystem.Blocks.{
  inode_at, set_inode, write_info_block, write_inode_table, write_both, write_indirect_block,
}
use os_curriculum_design.FileSystem.Inodes.{finish_write, write_failed}
use os_curriculum_design.FileSystem.Words.{IsWord, length-bytes_of_words}
use os_curriculum_design.FileSystem.Store.{
  IsReliable, IsLaidOut, disk-IsLaidOut, block_lba_lem, read_block, lt_or_gt,
}
use os_curriculum_design.FileSystem.Place.{file_block, sector_of, inode_IsLaidOut, Written}

module _ {D : Type 0} (ata : Ata D) where
  -- The first `count` blocks of the data lie on the disk where the inode and its indirect block say.
  pub record Readable (info : InfoBlock) (d : D) (inode : Inode) (count : ℕ) (bytes : List ℕ)
      : Type 0 where
    pub table : List ℕ
    pub data_start : info.data_lba ≡ data_lba
    pub words : All IsWord table
    pub indirect :
        ((inode.indirect_block ≡ invalid_block) × (count ≤ direct_count))
        ⊎ ((inode.indirect_block < data_blocks)
            × (Ata.read_sectors ata d (data_lba + inode.indirect_block) 1
                ≡ some (bytes_of_words table)))
    pub stored :
        (j : ℕ)
        → j < count
        → (file_block inode.direct_blocks table j < data_blocks)
          × (Ata.read_sectors ata d (data_lba + file_block inode.direct_blocks table j) 1
              ≡ some (sector_of bytes j))

  module _ (reliable : IsReliable ata) where
    -- The two tables lie before the data blocks.
    pub write_both-Keeps :
        (fs : FileSystem D)
        → IsLaidOut fs
        → (b : ℕ)
        → (read_block ata (write_both ata fs).0 b ≡ read_block ata fs b)
          × ((write_both ata fs).0.info ≡ fs.info)
          × ((write_both ata fs).0.inodes ≡ fs.inodes)
    unfolding write_both write_info_block write_inode_table
    write_both-Keeps fs laid_out b =
        let d₁ = (Ata.write_sectors ata fs.disk info_lba 1 (info_bytes fs.info)).0 in
        let kept₁ =
          reliable.elsewhere fs.disk info_lba 1 (data_lba + b) (info_bytes fs.info)
            (inr (omega arith)) in
        let kept₂ =
          reliable.elsewhere d₁ fs.info.inode_table_lba (fs.info.inode_table_sectors % 2 ^ 8)
            (data_lba + b) (bytes_of_words (table_words fs.inodes))
            (inr (omega (arith, laid_out.table, laid_out.sectors))) in
        if_both
          (λ r.
            (read_block ata r.0 b ≡ read_block ata fs b)
            × (r.0.info ≡ fs.info)
            × (r.0.inodes ≡ fs.inodes))
          _ (record fs { disk = d₁ }, false) (write_inode_table ata (record fs { disk = d₁ }))
          (kept₁, refl, refl) (rw (kept₂, kept₁) refl, refl, refl)

    pub finish_direct :
        (fs : FileSystem D) (inode : Inode) (table : List ℕ) (count : ℕ) (bytes : List ℕ)
        → Written ata fs inode table false count bytes
        → Readable fs.info fs.disk inode count bytes
    finish_direct fs inode table count bytes w = record {
      table = table;
      data_start = w.laid_out.data_start;
      words = w.words;
      indirect = inl (w.unmade refl, w.few refl);
      stored = λ j lt. let (holds, apart) = w.stored j lt in (holds.0.0, holds.1);
    }

    write_indirect_block_lem :
        (fs : FileSystem D) (inode : Inode) (table : List ℕ)
        → inode.indirect_block < data_blocks
        → fs.info.data_lba ≡ data_lba
        → write_indirect_block ata fs inode table ≡ (
          record fs {
            disk =
                (Ata.write_sectors ata fs.disk
                  (data_lba + inode.indirect_block)
                  1
                  (bytes_of_words table)).0;
          },
          (Ata.write_sectors ata fs.disk
              (data_lba + inode.indirect_block)
              1
              (bytes_of_words table)).1,
        )
    unfolding write_indirect_block
    write_indirect_block_lem fs inode table lt e =
        let ne : (inode.indirect_block == invalid_block) ≡ false = ground (arith, lt) in
        let at = block_lba_lem ata fs.info inode.indirect_block e lt in
        simp (ne, at, write_indirect_block) refl

    pub finish_indirect :
        (fs : FileSystem D) (inode : Inode) (table : List ℕ) (count : ℕ) (bytes : List ℕ)
        → Written ata fs inode table true count bytes
        → (write_indirect_block ata fs inode table).1 ≡ true
        → Readable
            (write_indirect_block ata fs inode table).0.info
            (write_indirect_block ata fs inode table).0.disk
            inode
            count
            bytes
    finish_indirect fs inode table count bytes w ok =
        let lt = (w.made refl).0 in
        let lem = write_indirect_block_lem fs inode table lt w.laid_out.data_start in
        let back =
          reliable.read_back fs.disk (data_lba + inode.indirect_block) (bytes_of_words table)
            (omega (arith, length-bytes_of_words table, w.entries))
            (subst (λ r. r.1 ≡ true) lem ok) in
        subst (λ r. Readable r.0.info r.0.disk inode count bytes) (sym lem)
          (record {
            table = table;
            data_start = w.laid_out.data_start;
            words = w.words;
            indirect = inr (lt, back);
            stored = λ j below.
                let (holds, apart) = w.stored j below in
                let outside : (data_lba + file_block inode.direct_blocks table j
                      < data_lba + inode.indirect_block)
                    ⊎ (data_lba + inode.indirect_block + 1
                        ≤ data_lba + file_block inode.direct_blocks table j) =
                  elim (lt_or_gt (file_block inode.direct_blocks table j) inode.indirect_block
                    apart) [ inl h ↦ inl (omega (arith, h)) | inr h ↦ inr (omega (arith, h)) ] in
                (
                  holds.0.0,
                  rw
                      (reliable.elsewhere fs.disk (data_lba + inode.indirect_block) 1
                        (data_lba + file_block inode.direct_blocks table j) (bytes_of_words table)
                        outside)
                      holds.1,
                );
          })

    indirect_kept :
        (fs : FileSystem D) (inode : Inode) (table : List ℕ)
        → IsLaidOut fs
        → IsLaidOut (write_indirect_block ata fs inode table).0
          × ((write_indirect_block ata fs inode table).0.inodes ≡ fs.inodes)
    unfolding write_indirect_block
    indirect_kept fs inode table h =
        if_both {A = FileSystem D × Bool} (λ r. IsLaidOut r.0 × (r.0.inodes ≡ fs.inodes))
          (inode.indirect_block == invalid_block) (fs, false) _ (h, refl)
          (disk-IsLaidOut fs _ h, refl)

    -- Both tables are written, with the file's size in its inode.
    finish_sized :
        (fs : FileSystem D) (i size count : ℕ) (bytes : List ℕ)
        → i < max_inodes
        → IsLaidOut fs
        → Readable fs.info fs.disk (inode_at fs.inodes i) count bytes
        → let g =
            (write_both ata (set_inode fs i (record (inode_at fs.inodes i) { size = size }))).0 in
          Readable g.info g.disk (inode_at g.inodes i) count bytes
          × ((inode_at g.inodes i).size ≡ size)
    finish_sized fs i size count bytes lt h r =
        let x : Inode = record (inode_at fs.inodes i) { size = size } in
        let f = set_inode fs i x in
        let kept = write_both-Keeps f (inode_IsLaidOut fs i x h) in
        let g = (write_both ata f).0 in
        let same : inode_at g.inodes i ≡ x =
          rw (kept 0).2 (get_or-set_self fs.inodes i x zero_inode (omega (arith, lt, h.inodes))) in
        (
          subst (λ y. Readable g.info g.disk y count bytes) (sym same)
              (record {
                table = r.table;
                data_start = rw (kept 0).1 r.data_start;
                words = r.words;
                indirect = elim r.indirect [
                  | inl direct ↦ inl direct
                  | inr (below, e) ↦ inr (below, (kept (inode_at fs.inodes i).indirect_block).0 ∙ e)
                ];
                stored = λ j below.
                    let (inside, e) = r.stored j below in
                    (
                      inside,
                      (kept (file_block (inode_at fs.inodes i).direct_blocks r.table j)).0 ∙ e,
                    );
              }),
          ap (λ (y : Inode). y.size) same,
        )

    finish_write_failed :
        (fs : FileSystem D) (i size : ℕ) (table : List ℕ)
        → (write_indirect_block ata fs (inode_at fs.inodes i) table).1 ≡ false
        → (finish_write ata fs i table true size).1 ≡ false
    unfolding finish_write write_failed
    finish_write_failed fs i size table failed = simp (failed, finish_write)

    -- Where `write_inode_data` returns 1 after its loop, the data can be found.
    pub finish_write-Readable :
        (fs : FileSystem D) (i size count : ℕ) (table : List ℕ) (needs : Bool) (bytes : List ℕ)
        → i < max_inodes
        → Written ata fs (inode_at fs.inodes i) table needs count bytes
        → (finish_write ata fs i table needs size).1 ≡ true
        → let g = (finish_write ata fs i table needs size).0 in
          Readable g.info g.disk (inode_at g.inodes i) count bytes
          × ((inode_at g.inodes i).size ≡ size)
    unfolding finish_write
    finish_write-Readable fs i size count table false bytes lt w ok =
        finish_sized fs i size count bytes lt w.laid_out
          (finish_direct fs (inode_at fs.inodes i) table count bytes w)
    finish_write-Readable fs i size count table true bytes lt w ok =
        let inode = inode_at fs.inodes i in
        let f = (write_indirect_block ata fs inode table).0 in
        elim (Bool-cases (write_indirect_block ata fs inode table).1) [
          | inr failed ↦
              let no = finish_write_failed fs i size table failed in absurd (ground (arith, ok, no))
          | inl fine ↦
              let (laid_out, same) = indirect_kept fs inode table w.laid_out in
              simp (fine, finish_write)
                (finish_sized f i size count bytes lt laid_out (
                  subst (λ x. Readable f.info f.disk (inode_at x i) count bytes) (sym same)
                    (finish_indirect fs inode table count bytes w fine)))
        ]
