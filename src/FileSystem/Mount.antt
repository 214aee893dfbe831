-- ===== src/FileSystem/Mount.antt =====
-- fs/simplefs.c: mounting and formatting, and the path that `pwd` prints.
use os_curriculum_design.Prelude.{
  ℕ, zero, suc, ◌%◌, ◌^◌, Bool, true, false, not, ◌&&◌, Option, none, some, List, [], ◌∷◌, ◌++◌,
  if◌then◌else◌, leb, ◌==◌, replicate,
}
use os_curriculum_design.Bitmap.{bitmap_set, bitmap_test}
use os_curriculum_design.FileSystem.{
  Ata, FileSystem, BootBlock, InfoBlock, Inode, kind_directory, root_inode, max_inodes, copy_name,
  clear_block_pointers, zero_inode, slash, boot_magic, info_magic, version, inode_table_lba,
  inode_table_sectors, data_lba, data_blocks, direct_count, indirect_entries, reset_open_files,
  boot_lba, info_lba,
}
use os_curriculum_design.FileSystem.Layout.{
  boot_of_bytes, info_of_bytes, table_of_words, words_of_bytes,
}
use os_curriculum_design.FileSystem.Blocks.{
  inode_at, write_boot_block, write_info_block, write_inode_table,
}
use os_curriculum_design.FileSystem.Directory.{
  init_directory_file, get_parent_inode, find_name_for_inode,
}

-- The comparison in `read_metadata`.
unfoldable pub metadata_matches : BootBlock → InfoBlock → Bool
metadata_matches boot info =
    (boot.magic == boot_magic)
    && ((boot.version == version)
        && ((info.magic == info_magic)
            && ((info.version == version)
                && ((info.root_inode == root_inode)
                    && ((info.inode_table_lba == inode_table_lba)
                        && ((info.inode_table_sectors == inode_table_sectors)
                            && ((info.data_lba == data_lba)
                                && ((info.inode_count == max_inodes)
                                    && ((info.data_block_count == data_blocks)
                                        && ((info.direct_blocks == direct_count)
                                            && (info.indirect_entries == indirect_entries)))))))))))

unfoldable pub root_is_directory : InfoBlock → List Inode → Bool
root_is_directory info inodes =
    bitmap_test info.inode_bitmap root_inode
    && ((inode_at inodes root_inode).kind == kind_directory)

-- The metadata that `simplefs_format` builds.
abbrev pub new_boot : BootBlock
new_boot = record {
  magic = boot_magic;
  version = version;
  root_inode = root_inode;
  name = copy_name (83 ∷ 105 ∷ 109 ∷ 112 ∷ 108 ∷ 101 ∷ 70 ∷ 83 ∷ []) 16;
}

abbrev pub new_info : InfoBlock
new_info = record {
  magic = info_magic;
  version = version;
  root_inode = root_inode;
  inode_table_lba = inode_table_lba;
  inode_table_sectors = inode_table_sectors;
  data_lba = data_lba;
  inode_count = max_inodes;
  data_block_count = data_blocks;
  direct_blocks = direct_count;
  indirect_entries = indirect_entries;
  inode_bitmap = bitmap_set (replicate 8 0) root_inode;
  data_bitmap = replicate 256 0;
}

abbrev pub new_inodes : List Inode
new_inodes =
    record (clear_block_pointers zero_inode) { kind = kind_directory; link_count = 2 }
    ∷ replicate 63 (clear_block_pointers zero_inode)

module _ {D : Type 0} (ata : Ata D) where
  unfoldable pub read_metadata : FileSystem D → FileSystem D × Bool
  read_metadata fs = elim (Ata.read_sectors ata fs.disk boot_lba 1) [
    | none ↦ (fs, false)
    | some boot_sector ↦ elim (Ata.read_sectors ata fs.disk info_lba 1) [
      | none ↦ (record fs { boot = boot_of_bytes boot_sector }, false)
      | some info_sector ↦
          let boot = boot_of_bytes boot_sector in
          let info = info_of_bytes info_sector in
          let fs₁ = record fs { boot = boot; info = info } in
          elim (metadata_matches boot info) [
            | false ↦ (fs₁, false)
            | true ↦
                elim (Ata.read_sectors ata fs.disk info.inode_table_lba
                  (info.inode_table_sectors % 2 ^ 8)) [
                    | none ↦ (fs₁, false)
                    | some sectors ↦
                        let inodes = table_of_words max_inodes (words_of_bytes sectors) in
                        let fs₂ = record fs₁ { inodes = inodes } in
                        if root_is_directory info inodes
                        then (record fs₂ { current_directory = root_inode }, true)
                        else (fs₂, false)
                  ]
          ]
    ]
  ]

  unfoldable pub simplefs_init : FileSystem D → FileSystem D × Bool
  simplefs_init fs =
      let fs₁ = record fs {
        mounted = false;
        current_directory = root_inode;
        open_files = reset_open_files;
      } in
      let (fs₂, ok) = read_metadata fs₁ in
      if not (Ata.is_ready ata fs.disk) then (fs₁, false) else (record fs₂ { mounted = ok }, ok)

  -- The three writes of `simplefs_format`, the first that fails being the last that is tried.
  unfoldable pub write_metadata : FileSystem D → FileSystem D × Bool
  write_metadata fs =
      let (fs₁, ok₁) = write_boot_block ata fs in
      let (fs₂, ok₂) = write_info_block ata fs₁ in
      if not ok₁ then (fs₁, false) else if not ok₂ then (fs₂, false) else write_inode_table ata fs₂

  unfoldable pub simplefs_format : FileSystem D → FileSystem D × Bool
  simplefs_format fs =
      let (fs₁, ok₁) =
        write_metadata (record fs { boot = new_boot; info = new_info; inodes = new_inodes }) in
      let (fs₂, ok₂) = init_directory_file ata fs₁ root_inode root_inode in
      let fs₃ = record fs₂ {
        mounted = true;
        current_directory = root_inode;
        open_files = reset_open_files;
      } in
      if not (Ata.is_ready ata fs.disk)
      then (fs, false)
      else if not ok₁
      then (fs₁, false)
      else if not ok₂
      then (fs₂, false)
      else (fs₃, true)

  -- `print_path_to_inode`: the characters it prints. On fuel, which stands for the stack: the code
  -- calls itself for the parent and has no bound.
  unfoldable pub path_to_inode : ℕ → FileSystem D → ℕ → Option (List ℕ)
  path_to_inode zero fs i = none
  path_to_inode (suc fuel) fs i = elim (i == root_inode) [
    | true ↦ some slash
    | false ↦ elim (get_parent_inode ata fs i) [
      | none ↦ some slash
      | some parent ↦ elim (leb max_inodes parent) [
        | true ↦ some slash
        | false ↦ elim (path_to_inode fuel fs parent) [
          | none ↦ none
          | some path ↦ elim (find_name_for_inode ata fs parent i) [
            | none ↦ some path
            | some name ↦
                some (if parent == root_inode then path ++ name else path ++ (slash ++ name))
          ]
        ]
      ]
    ]
  ]
