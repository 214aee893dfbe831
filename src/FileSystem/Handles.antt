-- ===== src/FileSystem/Handles.antt =====
-- fs/simplefs.c: file descriptors. A negative descriptor is one of 8 or more here, since both are
-- refused by the same test; `simplefs_open` returns -1 where the model returns `none`.
use os_curriculum_design.Prelude.{
  ℕ, suc, ◌+◌, Bool, true, false, not, ◌&&◌, ◌||◌, Option, none, some, List, [], ◌∷◌, ◌++◌,
  if◌then◌else◌, ltb, length, add32, get_or, set, drop,
}
use os_curriculum_design.FileSystem.{
  Ata, FileSystem, OpenFile, max_file_size, max_open_files, kind_regular, closed_file, copy_name,
  name_size,
}
use os_curriculum_design.FileSystem.Layout.{fixed}
use os_curriculum_design.FileSystem.Blocks.{inode_at}
use os_curriculum_design.FileSystem.Inodes.{inode_in_use, read_inode_bytes, write_inode_data}
use os_curriculum_design.FileSystem.Directory.{find_entry_in_directory}
use os_curriculum_design.FileSystem.Files.{inode_has_kind}

-- The loop of `simplefs_open`: the first descriptor that is not used, from `fd` on.
unfoldable pub free_fd : List OpenFile → ℕ → Option ℕ
free_fd [] fd = none
free_fd (f ∷ fs) fd = let rest = free_fd fs (suc fd) in if f.used then rest else some fd

abbrev pub file_at : {D : Type 0} → FileSystem D → ℕ → OpenFile
file_at fs fd = get_or fs.open_files fd closed_file

-- The test that the operations on a descriptor start with.
unfoldable pub fd_is_open : {D : Type 0} → FileSystem D → ℕ → Bool
fd_is_open fs fd = ltb fd max_open_files && (file_at fs fd).used

abbrev pub set_file : {D : Type 0} → FileSystem D → ℕ → OpenFile → FileSystem D
set_file fs fd file = record fs { open_files = set fs.open_files fd file }

unfoldable pub simplefs_close : {D : Type 0} → FileSystem D → ℕ → FileSystem D × Bool
simplefs_close fs fd = if fd_is_open fs fd then (set_file fs fd closed_file, true) else (fs, false)

unfoldable pub simplefs_seek : {D : Type 0} → FileSystem D → ℕ → ℕ → FileSystem D × Bool
simplefs_seek fs fd offset =
    let file = file_at fs fd in
    if not (fs.mounted && fd_is_open fs fd)
    then (fs, false)
    else if not (inode_in_use fs.info file.inode_index)
        || ltb (inode_at fs.inodes file.inode_index).size offset
    then (fs, false)
    else (set_file fs fd (record file { offset = offset }), true)

-- What `simplefs_write_fd` makes of the file's old bytes: a gap up to the offset is filled with 0.
unfoldable pub splice : List ℕ → ℕ → List ℕ → List ℕ
splice old offset bytes = fixed offset old ++ (bytes ++ drop (offset + length bytes) old)

module _ {D : Type 0} (ata : Ata D) where
  unfoldable pub simplefs_open : FileSystem D → List ℕ → FileSystem D × Option ℕ
  simplefs_open fs name = elim fs.mounted [
    | false ↦ (fs, none)
    | true ↦ elim (find_entry_in_directory ata fs fs.current_directory name) [
      | none ↦ (fs, none)
      | some (e, slot) ↦ elim (inode_has_kind fs kind_regular e.inode) [
        | false ↦ (fs, none)
        | true ↦ elim (free_fd fs.open_files 0) [
          | none ↦ (fs, none)
          | some fd ↦ (
            set_file fs fd (record {
              used = true;
              inode_index = e.inode;
              offset = 0;
              name = copy_name name name_size;
            }),
            some fd,
          )
        ]
      ]
    ]
  ]

  unfoldable pub simplefs_read_fd : FileSystem D → ℕ → ℕ → FileSystem D × Option (List ℕ)
  simplefs_read_fd fs fd buffer_size = elim (fs.mounted && fd_is_open fs fd) [
    | false ↦ (fs, none)
    | true ↦
        let file = file_at fs fd in
        elim (read_inode_bytes ata fs file.inode_index file.offset buffer_size) [
          | none ↦ (fs, none)
          | some bytes ↦ (
            set_file fs fd (record file { offset = add32 file.offset (length bytes) }),
            some bytes,
          )
        ]
  ]

  -- `simplefs_write_fd`. Where `offset + size` wraps around, the code copies beyond its buffer; there
  -- the model stands only for the test that lets it pass.
  unfoldable pub simplefs_write_fd : FileSystem D → ℕ → List ℕ → FileSystem D × Bool
  simplefs_write_fd fs fd bytes = elim (fs.mounted && fd_is_open fs fd) [
    | false ↦ (fs, false)
    | true ↦
        let file = file_at fs fd in
        let end = add32 file.offset (length bytes) in
        elim (ltb max_file_size end) [
          | true ↦ (fs, false)
          | false ↦ elim (read_inode_bytes ata fs file.inode_index 0 max_file_size) [
            | none ↦ (fs, false)
            | some old ↦
                let (fs₁, ok) =
                  write_inode_data ata fs file.inode_index (splice old file.offset bytes) in
                if ok then (set_file fs₁ fd (record file { offset = end }), true) else (fs₁, false)
          ]
        ]
  ]
