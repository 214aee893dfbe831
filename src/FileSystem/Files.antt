-- ===== src/FileSystem/Files.antt =====
-- fs/simplefs.c: the operations on names of the current directory.
use os_curriculum_design.Prelude.{
  ℕ, ◌+◌, ◌-◌, Bool, true, false, not, ◌&&◌, ◌||◌, Option, none, some, List, [], ◌++◌,
  if◌then◌else◌, ltb, ◌==◌, ◌%◌, length,
}
use os_curriculum_design.Image.Apps.{same_text}
use os_curriculum_design.FileSystem.{
  Ata, FileSystem, max_file_size, kind_directory, kind_regular, root_inode, slash, valid_name,
}
use os_curriculum_design.FileSystem.Blocks.{inode_at, set_inode, write_inode_table}
use os_curriculum_design.FileSystem.Inodes.{
  inode_is_open, inode_in_use, allocate_inode, release_inode, read_inode_bytes, write_inode_data,
}
use os_curriculum_design.FileSystem.Directory.{
  init_directory_file, find_entry_in_directory, append_entry_to_directory,
  remove_entry_from_directory, directory_is_empty, lookup_entry_in_current_directory,
}

-- The condition on an entry's inode that most operations test.
unfoldable pub inode_has_kind : {D : Type 0} → FileSystem D → ℕ → ℕ → Bool
inode_has_kind fs kind i = inode_in_use fs.info i && ((inode_at fs.inodes i).kind == kind)

unfoldable pub found : {A : Type 0} → Option A → Bool
found none = false
found (some a) = true

-- `link_count++` and `link_count--` of the current directory, in 16 bits.
unfoldable pub count_link : {D : Type 0} → FileSystem D → FileSystem D
count_link fs =
    let dir = inode_at fs.inodes fs.current_directory in
    set_inode fs fs.current_directory
      (record dir { link_count = (dir.link_count + 1) % 0x0001_0000 })

unfoldable pub uncount_link : {D : Type 0} → FileSystem D → FileSystem D
uncount_link fs =
    let dir = inode_at fs.inodes fs.current_directory in
    if dir.link_count == 0
    then fs
    else set_inode fs fs.current_directory (record dir { link_count = dir.link_count - 1 })

module _ {D : Type 0} (ata : Ata D) where
  -- `simplefs_init` has not mounted the disk, the name is bad, or there is such a file already.
  unfoldable pub cannot_create : FileSystem D → List ℕ → Bool
  cannot_create fs name =
      not fs.mounted
      || (not (valid_name name) || found (lookup_entry_in_current_directory ata fs name))

  unfoldable pub simplefs_create : FileSystem D → List ℕ → FileSystem D × Bool
  simplefs_create fs name =
      let (fs₁, r) = allocate_inode ata fs kind_regular in
      if cannot_create fs name then (fs, false) else elim r [
        | none ↦ (fs₁, false)
        | some i ↦
            let (fs₂, ok) = append_entry_to_directory ata fs₁ fs₁.current_directory name i in
            if ok
            then write_inode_table ata (count_link fs₂)
            else ((release_inode ata fs₂ i).0, false)
      ]

  unfoldable pub simplefs_delete : FileSystem D → List ℕ → FileSystem D × Bool
  simplefs_delete fs name = elim fs.mounted [
    | false ↦ (fs, false)
    | true ↦ elim (find_entry_in_directory ata fs fs.current_directory name) [
      | none ↦ (fs, false)
      | some (e, slot) ↦
          let (fs₁, r) = remove_entry_from_directory ata fs fs.current_directory name in
          if not (inode_has_kind fs kind_regular e.inode) || inode_is_open fs.open_files e.inode
          then (fs, false)
          else elim r [
            | none ↦ (fs₁, false)
            | some removed ↦
                let (fs₂, ok) = release_inode ata fs₁ removed.inode in
                if ok then write_inode_table ata (uncount_link fs₂) else (fs₂, false)
          ]
    ]
  ]

  unfoldable pub simplefs_make_dir : FileSystem D → List ℕ → FileSystem D × Bool
  simplefs_make_dir fs name =
      let (fs₁, r) = allocate_inode ata fs kind_directory in
      if cannot_create fs name then (fs, false) else elim r [
        | none ↦ (fs₁, false)
        | some i ↦
            let (fs₂, ok₂) = init_directory_file ata fs₁ i fs₁.current_directory in
            let (fs₃, ok₃) = append_entry_to_directory ata fs₂ fs₂.current_directory name i in
            if not ok₂
            then ((release_inode ata fs₂ i).0, false)
            else if not ok₃
            then ((release_inode ata fs₃ i).0, false)
            else (fs₃, true)
      ]

  unfoldable pub simplefs_remove_dir : FileSystem D → List ℕ → FileSystem D × Bool
  simplefs_remove_dir fs name = elim fs.mounted [
    | false ↦ (fs, false)
    | true ↦ elim (find_entry_in_directory ata fs fs.current_directory name) [
      | none ↦ (fs, false)
      | some (e, slot) ↦
          let (fs₁, r) = remove_entry_from_directory ata fs fs.current_directory name in
          if (e.inode == root_inode) || not (inode_has_kind fs kind_directory e.inode)
          then (fs, false)
          else if not (directory_is_empty ata fs e.inode)
          then (fs, false)
          else elim r [ none ↦ (fs₁, false) | some removed ↦ release_inode ata fs₁ removed.inode ]
    ]
  ]

  unfoldable pub simplefs_change_dir : FileSystem D → List ℕ → FileSystem D × Bool
  simplefs_change_dir fs name = elim (not fs.mounted || (length name == 0)) [
    | true ↦ (fs, false)
    | false ↦ elim (same_text name slash) [
      | true ↦ (record fs { current_directory = root_inode }, true)
      | false ↦ elim (find_entry_in_directory ata fs fs.current_directory name) [
        | none ↦ (fs, false)
        | some (e, slot) ↦
            if inode_has_kind fs kind_directory e.inode
            then (record fs { current_directory = e.inode }, true)
            else (fs, false)
      ]
    ]
  ]

  unfoldable pub simplefs_read_file : FileSystem D → List ℕ → ℕ → Option (List ℕ)
  simplefs_read_file fs name buffer_size = elim fs.mounted [
    | false ↦ none
    | true ↦ elim (find_entry_in_directory ata fs fs.current_directory name) [
      | none ↦ none
      | some (e, slot) ↦
          if inode_has_kind fs kind_regular e.inode
          then read_inode_bytes ata fs e.inode 0 buffer_size
          else none
    ]
  ]

  -- The file that `simplefs_write_file` makes where there is none of the name.
  unfoldable pub create_then_find : FileSystem D → List ℕ → FileSystem D × Option ℕ
  create_then_find fs name =
      let (fs₁, ok) = simplefs_create fs name in
      elim ok [
        | false ↦ (fs₁, none)
        | true ↦ elim (find_entry_in_directory ata fs₁ fs₁.current_directory name) [
          | none ↦ (fs₁, none)
          | some (e, slot) ↦ (fs₁, some e.inode)
        ]
      ]

  -- The inode that `simplefs_write_file` writes to.
  unfoldable pub open_for_write : FileSystem D → List ℕ → FileSystem D × Option ℕ
  open_for_write fs name = elim (find_entry_in_directory ata fs fs.current_directory name) [
    | none ↦ create_then_find fs name
    | some (e, slot) ↦ (fs, if inode_has_kind fs kind_regular e.inode then some e.inode else none)
  ]

  unfoldable pub simplefs_write_file : FileSystem D → List ℕ → List ℕ → FileSystem D × Bool
  simplefs_write_file fs name bytes =
      let (fs₁, r) = open_for_write fs name in
      if not fs.mounted || (not (valid_name name) || ltb max_file_size (length bytes))
      then (fs, false)
      else elim r [ none ↦ (fs₁, false) | some i ↦ write_inode_data ata fs₁ i bytes ]

  -- The bytes that `simplefs_append_file` puts before the new ones.
  unfoldable pub old_contents : FileSystem D → List ℕ → Option (List ℕ)
  old_contents fs name =
      if found (lookup_entry_in_current_directory ata fs name)
      then simplefs_read_file fs name max_file_size
      else some []

  unfoldable pub simplefs_append_file : FileSystem D → List ℕ → List ℕ → FileSystem D × Bool
  simplefs_append_file fs name bytes = elim (ltb max_file_size (length bytes)) [
    | true ↦ (fs, false)
    | false ↦ elim (old_contents fs name) [
      | none ↦ (fs, false)
      | some old ↦ elim (ltb max_file_size (length old + length bytes)) [
        | true ↦ (fs, false)
        | false ↦ simplefs_write_file fs name (old ++ bytes)
      ]
    ]
  ]
