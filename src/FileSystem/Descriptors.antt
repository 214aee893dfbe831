-- ===== src/FileSystem/Descriptors.antt =====
-- fs/simplefs.c: reading and writing through a descriptor, in terms of the file's contents.
use os_curriculum_design.Prelude.{
  ℕ, ◌+◌, ◌^◌, ◌<◌, ◌≡◌, sym, ap, ◌∙◌, subst, arith, true, false, ◌&&◌, some, List, length, take,
  drop, Bool-cases, inl, inr, ltb, add32,
}
use os_curriculum_design.FileSystem.{Ata, FileSystem, max_file_size}
use os_curriculum_design.FileSystem.Inodes.{read_inode_bytes, write_inode_data}
use os_curriculum_design.FileSystem.Handles.{
  file_at, fd_is_open, set_file, splice, simplefs_read_fd, simplefs_write_fd,
}
use os_curriculum_design.FileSystem.Overwrite.{IsOverwritten, splice-IsOverwritten}
use os_curriculum_design.FileSystem.Store.{IsReliable, IsLaidOut}
use os_curriculum_design.FileSystem.RoundTrip.{
  Stored, Stored-read_inode_bytes, write_inode_data-Stored,
}
use os_curriculum_design.FileSystem.Reading.{take-all}

module _ {D : Type 0} (ata : Ata D) (fs : FileSystem D) (fd : ℕ) (contents : List ℕ) where
  abbrev pub CanUse : Type 0
  CanUse =
      ((fs.mounted && fd_is_open fs fd) ≡ true) × Stored ata fs (file_at fs fd).inode_index contents

  -- A read through an open descriptor, of a file that holds `contents`, gives the part of the contents
  -- from the offset on that fits into the buffer, and moves the offset by its length.
  pub simplefs_read_fd_lem :
      (buffer_size : ℕ)
      → CanUse
      → let file = file_at fs fd in
        let part = take buffer_size (drop file.offset contents) in
        simplefs_read_fd ata fs fd buffer_size
        ≡ (set_file fs fd (record file { offset = add32 file.offset (length part) }), some part)
  unfolding simplefs_read_fd
  simplefs_read_fd_lem buffer_size (usable, s) =
      let file = file_at fs fd in
      simp (
        usable,
        Stored-read_inode_bytes ata fs file.inode_index file.offset buffer_size contents s,
        simplefs_read_fd,
      )

  whole_file :
      CanUse → read_inode_bytes ata fs (file_at fs fd).inode_index 0 max_file_size ≡ some contents
  whole_file (usable, s) =
      Stored-read_inode_bytes ata fs (file_at fs fd).inode_index 0 max_file_size contents s
      ∙ ap some (take-all max_file_size contents s.most)

  -- On a disk that keeps what was written, in a file system of the layout that mounting checks: a write
  -- through an open descriptor that ends well, the offset and the size not wrapping around, leaves in the
  -- file the bytes written from the offset on, the old bytes before and behind them, and 0 in a gap
  -- between the old end and the offset; the size is the old one or the end of what was written,
  -- whichever is larger. The offset is then behind what was written, and the state is otherwise that
  -- of `write_inode_data` with these contents.
  pub simplefs_write_fd_lem :
      IsReliable ata
      → IsLaidOut fs
      → (bytes : List ℕ) → CanUse
      → (file_at fs fd).offset + length bytes < 2 ^ 32
      → (simplefs_write_fd ata fs fd bytes).1 ≡ true
      → let file = file_at fs fd in
        (after : List ℕ) × IsOverwritten contents file.offset bytes after
        × ((simplefs_write_fd ata fs fd bytes).0
            ≡ set_file
                (write_inode_data ata fs file.inode_index after).0
                fd
                (record file { offset = file.offset + length bytes }))
        × Stored ata (simplefs_write_fd ata fs fd bytes).0 file.inode_index after
  unfolding simplefs_write_fd
  simplefs_write_fd_lem reliable laid_out bytes (usable, s) no_wrap ok =
      let file = file_at fs fd in
      let i = file.inode_index in
      let after = splice contents file.offset bytes in
      let end : add32 file.offset (length bytes) ≡ file.offset + length bytes =
        omega (arith, no_wrap) in
      let old = whole_file (usable, s) in
      elim (Bool-cases (ltb max_file_size (file.offset + length bytes))) [
        | inl long ↦
            let no : (simplefs_write_fd ata fs fd bytes).1 ≡ false =
              simp (usable, end, long, simplefs_write_fd) in
            absurd (ground (arith, ok, no))
        | inr short ↦ elim (Bool-cases (write_inode_data ata fs i after).1) [
          | inr failed ↦
              let no : (simplefs_write_fd ata fs fd bytes).1 ≡ false =
                simp (usable, end, short, old, failed, simplefs_write_fd) in
              absurd (ground (arith, ok, no))
          | inl fine ↦
              let same : (simplefs_write_fd ata fs fd bytes).0
                  ≡ set_file (write_inode_data ata fs i after).0 fd
                      (record file { offset = file.offset + length bytes }) =
                simp (usable, end, short, old, fine, simplefs_write_fd) in
              let w = write_inode_data-Stored ata reliable fs i after laid_out fine in
              (
                after,
                splice-IsOverwritten contents file.offset bytes,
                same,
                subst (λ f. Stored ata f i after) (sym same)
                    (record {
                      in_use = w.in_use;
                      size = w.size;
                      most = w.most;
                      readable = w.readable;
                    }),
              )
        ]
      ]
