-- ===== src/FileSystem/OpenTests.antt =====
-- Tests and concrete inputs for fs/simplefs.c, with open files and with two files.
use os_curriculum_design.Prelude.{
  ℕ, zero, suc, ◌+◌, true, some, List, [], ◌∷◌, take, drop, replicate, ◌≡◌, refl, ◌<◌, inl, arith,
  All-replicate,
}
use os_curriculum_design.FileSystem.{
  Ata, FileSystem, sector_size, clear_block_pointers, closed_file, zero_inode, invalid_block,
  data_blocks, data_lba,
}
use os_curriculum_design.FileSystem.Mount.{new_info}
use os_curriculum_design.FileSystem.Inodes.{
  write_inode_data, inode_in_use, required_blocks, read_inode_bytes, bytes_to_read, read_from,
  write_blocks, write_block, place_block, ensure_indirect, finish_write,
}
use os_curriculum_design.FileSystem.Store.{IsLaidOut, Taken}
use os_curriculum_design.FileSystem.Blocks.{
  free_inode_blocks, free_indirect, free_blocks, allocate_data_block, write_both, write_info_block,
  write_inode_table,
}
use os_curriculum_design.Bitmap.{bitmap_test, bitmap_set}
use os_curriculum_design.FileSystem.Untouched.{write_inode_data-Stored_elsewhere}
use os_curriculum_design.FileSystem.Place.{file_block, sector_of}
use os_curriculum_design.FileSystem.RoundTrip.{Stored, write_inode_data-Stored}
use os_curriculum_design.FileSystem.Overwrite.{IsOverwritten}
use os_curriculum_design.FileSystem.Descriptors.{
  CanUse, simplefs_read_fd_lem, simplefs_write_fd_lem,
}
use os_curriculum_design.FileSystem.Layout.{fixed}
use os_curriculum_design.Bitmap.FirstFree.{first_free}
use os_curriculum_design.Bitmap.Bytes.{IsByte, test_bit, set_bit}
use os_curriculum_design.FileSystem.Handles.{
  simplefs_read_fd, simplefs_write_fd, fd_is_open, splice, set_file,
}
use os_curriculum_design.FileSystem.Tests.{
  MemoryDisk, memory_disk, read_range, memory_disk-IsReliable, blank, blank-IsLaidOut, long_data,
  long_data_written, name_a,
}

-- The file of inode 0, empty, is open as descriptor 0.
abbrev empty_open : FileSystem MemoryDisk
empty_open = record blank {
  mounted = true;
  open_files =
      record { used = true; inode_index = 0; offset = 0; name = name_a } ∷ replicate 7 closed_file;
}

empty_open-IsLaidOut : IsLaidOut empty_open
empty_open-IsLaidOut = record {
  data_start = refl;
  table = refl;
  sectors = refl;
  bitmap = record { bytes = All-replicate IsByte 256 0 (omega arith); room = omega arith };
  inodes = refl;
}

empty_file : Stored memory_disk empty_open 0 []
unfolding inode_in_use bitmap_test bitmap_set test_bit set_bit required_blocks clear_block_pointers
empty_file = record {
  in_use = refl;
  size = refl;
  most = omega arith;
  readable = record {
    table = [];
    data_start = refl;
    words = tt;
    indirect = inl (refl, omega arith);
    stored = λ j below. absurd (omega (arith, below));
  };
}

empty_usable : CanUse memory_disk empty_open 0 []
unfolding fd_is_open
empty_usable = (refl, empty_file)

short_write : (simplefs_write_fd memory_disk empty_open 0 (1 ∷ 2 ∷ [])).1 ≡ true
unfolding simplefs_write_fd fd_is_open read_inode_bytes inode_in_use bitmap_test test_bit bitmap_set
    set_bit bytes_to_read read_from splice fixed write_inode_data free_inode_blocks free_indirect
    free_blocks clear_block_pointers required_blocks write_blocks write_block allocate_data_block
    first_free place_block ensure_indirect finish_write write_both write_info_block
    write_inode_table
short_write = refl

simplefs_write_fd_lem_example :
    (after : List ℕ) × IsOverwritten [] 0 (1 ∷ 2 ∷ []) after
    × ((simplefs_write_fd memory_disk empty_open 0 (1 ∷ 2 ∷ [])).0
        ≡ set_file
            (write_inode_data memory_disk empty_open 0 after).0
            0
            (record { used = true; inode_index = 0; offset = 2; name = name_a }))
    × Stored memory_disk (simplefs_write_fd memory_disk empty_open 0 (1 ∷ 2 ∷ [])).0 0 after
simplefs_write_fd_lem_example =
    simplefs_write_fd_lem memory_disk empty_open 0 [] memory_disk-IsReliable empty_open-IsLaidOut
      (1 ∷ 2 ∷ []) empty_usable (omega arith) short_write

-- The file of the long data is open, its offset in the sixth block.
abbrev long_open : FileSystem MemoryDisk
long_open = record (write_inode_data memory_disk blank 0 long_data).0 {
  mounted = true;
  open_files =
      record { used = true; inode_index = 0; offset = 3000; name = name_a }
      ∷ replicate 7 closed_file;
}

long_usable : CanUse memory_disk long_open 0 long_data
unfolding fd_is_open
long_usable =
    let w =
      write_inode_data-Stored memory_disk memory_disk-IsReliable blank 0 long_data blank-IsLaidOut
        long_data_written in
    (refl, record { in_use = w.in_use; size = w.size; most = w.most; readable = w.readable })

simplefs_read_fd_lem_example : simplefs_read_fd memory_disk long_open 0 100 ≡ (
  set_file long_open 0 (record { used = true; inode_index = 0; offset = 3073; name = name_a }),
  some (take 100 (drop 3000 long_data)),
)
simplefs_read_fd_lem_example =
    simplefs_read_fd_lem memory_disk long_open 0 long_data 100 long_usable

-- Inode 1 has a file of three bytes in block 0.
abbrev small : List ℕ
small = 1 ∷ 2 ∷ 3 ∷ []

abbrev two_files : FileSystem MemoryDisk
two_files = record blank {
  info = record new_info { inode_bitmap = 3 ∷ replicate 7 0; data_bitmap = 1 ∷ replicate 255 0 };
  inodes =
      clear_block_pointers zero_inode
      ∷ record zero_inode {
        kind = 1;
        link_count = 1;
        size = 3;
        direct_blocks = 0 ∷ replicate 5 invalid_block;
        indirect_block = invalid_block;
      }
      ∷ replicate 62 zero_inode;
  disk = λ l. fixed sector_size small;
}

two_files-IsLaidOut : IsLaidOut two_files
two_files-IsLaidOut = record {
  data_start = refl;
  table = refl;
  sectors = refl;
  bitmap = record {
    bytes = (omega arith, All-replicate IsByte 255 0 (omega arith));
    room = omega arith;
  };
  inodes = refl;
}

small_block :
    (k : ℕ)
    → k < 1
    → (file_block (0 ∷ replicate 5 invalid_block) [] k < data_blocks)
      × (Ata.read_sectors memory_disk two_files.disk
            (data_lba + file_block (0 ∷ replicate 5 invalid_block) [] k)
            1
          ≡ some (sector_of small k))
unfolding read_range fixed
small_block zero lt = (omega arith, refl)
small_block (suc k) lt = absurd (omega (arith, lt))

small_file : Stored memory_disk two_files 1 small
unfolding inode_in_use bitmap_test test_bit required_blocks
small_file = record {
  in_use = refl;
  size = refl;
  most = omega arith;
  readable = record {
    table = [];
    data_start = refl;
    words = tt;
    indirect = inl (refl, omega arith);
    stored = small_block;
  };
}

small-Taken :
    (k : ℕ)
    → k < required_blocks 3
    → Taken
        (free_inode_blocks memory_disk two_files 0)
        (file_block (0 ∷ replicate 5 invalid_block) small_file.readable.table k)
unfolding required_blocks free_inode_blocks free_indirect free_blocks clear_block_pointers
    bitmap_test test_bit small_file
small-Taken zero lt = (omega arith, refl)
small-Taken (suc k) lt = absurd (omega (arith, lt))

write_inode_data-Stored_elsewhere_example :
    Stored memory_disk (write_inode_data memory_disk two_files 0 (5 ∷ [])).0 1 small
write_inode_data-Stored_elsewhere_example =
    write_inode_data-Stored_elsewhere memory_disk memory_disk-IsReliable two_files 0 (omega arith)
      two_files-IsLaidOut (5 ∷ []) 1 small small_file (λ e. absurd (omega (arith, e))) small-Taken
      (λ lt. absurd (omega (arith, lt)))
