-- ===== src/FileSystem/Directory.antt =====
-- fs/simplefs.c: directories, which are files of entries. The entries that `directory_scratch` holds
-- are a list. The bytes of a name behind its NUL are written as 0; the code leaves there what the
-- buffer held, and never reads it.
use os_curriculum_design.Prelude.{
  ℕ, suc, ◌/◌, Bool, true, false, not, ◌&&◌, ◌||◌, Option, none, some, List, [], ◌∷◌, ◌++◌,
  if◌then◌else◌, ltb, leb, ◌==◌, length, take, drop,
}
use mathlib.Core.Option
use os_curriculum_design.Image.Apps.{same_text}
use os_curriculum_design.FileSystem.{
  Ata, FileSystem, DirectoryEntry, entry_size, max_directory_entries, max_file_size, name_size,
  kind_directory, invalid_inode, dot, dot_dot, copy_name, name_is_special,
}
use os_curriculum_design.FileSystem.Layout.{entries_bytes, entries_of_bytes}
use os_curriculum_design.FileSystem.Blocks.{inode_at}
use os_curriculum_design.FileSystem.Inodes.{inode_in_use, read_inode_bytes, write_inode_data}

-- The loop of `find_entry_in_directory`: the first slot that is in use under the name, from `slot` on.
unfoldable pub find_entry : List DirectoryEntry → List ℕ → ℕ → Option (DirectoryEntry × ℕ)
find_entry [] name slot = none
find_entry (e ∷ es) name slot =
    let rest = find_entry es name (suc slot) in
    if not (e.inode == invalid_inode) && same_text e.name name then some (e, slot) else rest

-- The loop of `find_name_for_inode`.
unfoldable pub find_name : List DirectoryEntry → ℕ → Option (List ℕ)
find_name [] child = none
find_name (e ∷ es) child =
    let rest = find_name es child in
    if (e.inode == child) && not (name_is_special e.name)
    then some (copy_name e.name name_size)
    else rest

-- The loop of `directory_is_empty`.
unfoldable pub all_special : List DirectoryEntry → Bool
all_special [] = true
all_special (e ∷ es) = name_is_special e.name && all_special es

-- The entries after the loop of `remove_entry_from_directory` moved those behind `slot` forward.
unfoldable pub remove_slot : List DirectoryEntry → ℕ → List DirectoryEntry
remove_slot entries slot = take slot entries ++ drop (suc slot) entries

unfoldable pub new_entry : List ℕ → ℕ → DirectoryEntry
new_entry name inode = record { inode = inode; name = copy_name name name_size }

module _ {D : Type 0} (ata : Ata D) where
  unfoldable pub read_directory_entries : FileSystem D → ℕ → Option (List DirectoryEntry)
  read_directory_entries fs dir =
      let inode = inode_at fs.inodes dir in
      let r =
        Option.map (λ bytes. entries_of_bytes (length bytes / entry_size) bytes)
          (read_inode_bytes ata fs dir 0 max_file_size) in
      if not (inode_in_use fs.info dir)
        || (not (inode.kind == kind_directory) || ltb max_file_size inode.size)
      then none
      else r

  unfoldable pub write_directory_entries :
      FileSystem D → ℕ → List DirectoryEntry → FileSystem D × Bool
  write_directory_entries fs dir entries = write_inode_data ata fs dir (entries_bytes entries)

  unfoldable pub init_directory_file : FileSystem D → ℕ → ℕ → FileSystem D × Bool
  init_directory_file fs dir parent =
      write_directory_entries fs dir (new_entry dot dir ∷ new_entry dot_dot parent ∷ [])

  unfoldable pub find_entry_in_directory : FileSystem D → ℕ → List ℕ → Option (DirectoryEntry × ℕ)
  find_entry_in_directory fs dir name = elim (read_directory_entries fs dir) [
    | none ↦ none
    | some entries ↦ find_entry entries name 0
  ]

  unfoldable pub append_entry_to_directory : FileSystem D → ℕ → List ℕ → ℕ → FileSystem D × Bool
  append_entry_to_directory fs dir name child = elim (read_directory_entries fs dir) [
    | none ↦ (fs, false)
    | some entries ↦
        if leb max_directory_entries (length entries)
        then (fs, false)
        else write_directory_entries fs dir (entries ++ (new_entry name child ∷ []))
  ]

  -- `remove_entry_from_directory`: the entry that was removed, where it returns 1.
  unfoldable pub remove_entry_from_directory :
      FileSystem D → ℕ → List ℕ → FileSystem D × Option DirectoryEntry
  remove_entry_from_directory fs dir name = elim (find_entry_in_directory fs dir name) [
    | none ↦ (fs, none)
    | some (e, slot) ↦ elim (read_directory_entries fs dir) [
      | none ↦ (fs, none)
      | some entries ↦
          let (fs₁, ok) = write_directory_entries fs dir (remove_slot entries slot) in
          (fs₁, if ok then some e else none)
    ]
  ]

  unfoldable pub get_parent_inode : FileSystem D → ℕ → Option ℕ
  get_parent_inode fs dir = elim (find_entry_in_directory fs dir dot_dot) [
    | none ↦ none
    | some (e, slot) ↦ some e.inode
  ]

  unfoldable pub find_name_for_inode : FileSystem D → ℕ → ℕ → Option (List ℕ)
  find_name_for_inode fs dir child = elim (read_directory_entries fs dir) [
    | none ↦ none
    | some entries ↦ find_name entries child
  ]

  unfoldable pub directory_is_empty : FileSystem D → ℕ → Bool
  directory_is_empty fs dir = elim (read_directory_entries fs dir) [
    | none ↦ false
    | some entries ↦ all_special entries
  ]

  unfoldable pub lookup_entry_in_current_directory : FileSystem D → List ℕ → Option DirectoryEntry
  lookup_entry_in_current_directory fs name =
      Option.map (λ found. found.0) (find_entry_in_directory fs fs.current_directory name)
