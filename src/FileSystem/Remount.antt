-- ===== src/FileSystem/Remount.antt =====
-- fs/simplefs.c: mounting reads the inode table that was written.
use os_curriculum_design.Prelude.{
  ℕ, ◌*◌, ◌%◌, ◌^◌, ◌≡◌, ap, sym, ◌∙◌, arith, true, false, some, List, [], ◌∷◌, length,
  length-append, replicate, All, inl, inr, Bool-cases, Option-cases,
}
use os_curriculum_design.FileSystem.{
  Ata, FileSystem, BootBlock, InfoBlock, Inode, sector_size, boot_lba, info_lba, inode_table_lba,
  inode_table_sectors, max_inodes, root_inode, reset_open_files, direct_count,
}
use os_curriculum_design.FileSystem.Layout.{
  boot_of_bytes, info_of_bytes, table_words, table_of_words, inode_words, words_of_bytes,
  bytes_of_words, fixed,
}
use os_curriculum_design.FileSystem.Filling.{length-fixed}
use os_curriculum_design.FileSystem.Blocks.{write_inode_table}
use os_curriculum_design.FileSystem.Mount.{
  metadata_matches, root_is_directory, read_metadata, simplefs_init,
}
use os_curriculum_design.FileSystem.Store.{IsLaidOut}
use os_curriculum_design.FileSystem.Words.{length-bytes_of_words}
use os_curriculum_design.FileSystem.Encoding.{Fits, inode_table_bytes}

-- A transfer of several sectors that was written is read back.
abbrev pub ReadsBack : {D : Type 0} → Ata D → Type 0
ReadsBack {D} ata =
    (d : D) (lba n : ℕ) (bytes : List ℕ)
    → length bytes ≡ n * sector_size
    → (Ata.write_sectors ata d lba n bytes).1 ≡ true
    → Ata.read_sectors ata (Ata.write_sectors ata d lba n bytes).0 lba n ≡ some bytes

length-inode_words : (i : Inode) → length (inode_words i) ≡ 16
unfolding inode_words
length-inode_words i = omega (
  arith,
  length-append (fixed direct_count i.direct_blocks) (i.indirect_block ∷ replicate 7 0),
  length-fixed direct_count i.direct_blocks,
)

length-table_words : (is : List Inode) → length (table_words is) ≡ 16 * length is
unfolding table_words
length-table_words [] = omega arith
length-table_words (i ∷ is) = omega (
  arith,
  length-append (inode_words i) (table_words is),
  length-inode_words i,
  length-table_words is,
)

-- What mounting compares fixes where the inode table is.
matches_table :
    (boot : BootBlock) (info : InfoBlock)
    → metadata_matches boot info ≡ true
    → (info.inode_table_lba ≡ inode_table_lba) × (info.inode_table_sectors ≡ inode_table_sectors)
unfolding metadata_matches
matches_table boot info e = (ground (arith, e), ground (arith, e))

module _ {D : Type 0} (ata : Ata D) where
  -- The table that mounting reads, if it reads all it needs.
  read_metadata_table :
      (g : FileSystem D) (sectors : List ℕ)
      → Ata.read_sectors ata g.disk inode_table_lba inode_table_sectors ≡ some sectors
      → (read_metadata ata g).1 ≡ true
      → (read_metadata ata g).0.inodes ≡ table_of_words max_inodes (words_of_bytes sectors)
  unfolding read_metadata
  read_metadata_table g sectors got ok =
      elim (Option-cases (Ata.read_sectors ata g.disk boot_lba 1)) [
        | inl unread ↦ absurd (ground (arith, unread, ok))
        | inr (boot, boot_read) ↦ elim (Option-cases (Ata.read_sectors ata g.disk info_lba 1)) [
          | inl unread ↦ absurd (ground (arith, boot_read, unread, ok))
          | inr (sector, info_read) ↦
              let info = info_of_bytes sector in
              elim (Bool-cases (metadata_matches (boot_of_bytes boot) info)) [
                | inr other ↦ absurd (ground (arith, boot_read, info_read, other, ok))
                | inl good ↦
                    let (lba, count) = matches_table (boot_of_bytes boot) info good in
                    let words = table_of_words max_inodes (words_of_bytes sectors) in
                    let eight : inode_table_sectors % 2 ^ 8 ≡ inode_table_sectors = omega arith in
                    let table : Ata.read_sectors ata g.disk info.inode_table_lba
                          (info.inode_table_sectors % 2 ^ 8)
                        ≡ some sectors =
                      rw (lba, count, eight) got in
                    elim (Bool-cases (root_is_directory info words)) [
                      | inr rootless ↦
                          absurd (ground (arith, boot_read, info_read, good, table, rootless, ok))
                      | inl rooted ↦ simp (boot_read, info_read, good, table, rooted, read_metadata)
                    ]
              ]
        ]
      ]

  -- On a disk that gives back what was written, after `write_inode_table` ended well in a file system
  -- of the layout that mounting checks, with inodes whose fields fit the packed struct: a mount with
  -- this disk that ends well has the same inodes, whatever was in memory before.
  pub simplefs_init-write_inode_table :
      (fs g : FileSystem D)
      → ReadsBack ata
      → IsLaidOut fs
      → All Fits fs.inodes
      → (write_inode_table ata fs).1 ≡ true
      → g.disk ≡ (write_inode_table ata fs).0.disk
      → (simplefs_init ata g).1 ≡ true
      → (simplefs_init ata g).0.inodes ≡ fs.inodes
  unfolding simplefs_init write_inode_table
  simplefs_init-write_inode_table fs g reads laid_out fits written same_disk ok =
      let g₁ = record g {
        mounted = false;
        current_directory = root_inode;
        open_files = reset_open_files;
      } in
      let bytes = bytes_of_words (table_words fs.inodes) in
      let size : length bytes ≡ inode_table_sectors * sector_size = omega (
        arith,
        length-bytes_of_words (table_words fs.inodes),
        length-table_words fs.inodes,
        laid_out.inodes,
      ) in
      let eight : inode_table_sectors % 2 ^ 8 ≡ inode_table_sectors = omega arith in
      let written₁ : (Ata.write_sectors ata fs.disk inode_table_lba inode_table_sectors bytes).1
          ≡ true =
        rw (laid_out.table, laid_out.sectors, eight) at written in
      let disk₁ : g.disk
          ≡ (Ata.write_sectors ata fs.disk inode_table_lba inode_table_sectors bytes).0 =
        rw (laid_out.table, laid_out.sectors, eight) at same_disk in
      let got : Ata.read_sectors ata g.disk inode_table_lba inode_table_sectors ≡ some bytes =
        rw disk₁ (reads fs.disk inode_table_lba inode_table_sectors bytes size written₁) in
      elim (Bool-cases (Ata.is_ready ata g.disk)) [
        | inr idle ↦ absurd (ground (arith, idle, ok))
        | inl is_there ↦
            let mounts : (read_metadata ata g₁).1 ≡ true = ground (arith, is_there, ok) in
            let same : (simplefs_init ata g).0.inodes ≡ (read_metadata ata g₁).0.inodes =
              simp (is_there, simplefs_init) in
            same
            ∙ read_metadata_table g₁ bytes got mounts
            ∙ ap (λ (n : ℕ). table_of_words n (words_of_bytes bytes)) (sym laid_out.inodes)
            ∙ inode_table_bytes fs.inodes fits
      ]
