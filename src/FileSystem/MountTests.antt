-- ===== src/FileSystem/MountTests.antt =====
-- A disk with a new file system on it is mounted.
use os_curriculum_design.Prelude.{
  ℕ, zero, suc, ◌+◌, ◌-◌, ◌*◌, ◌≤◌, ◌≡◌, refl, sym, ap, ◌∙◌, arith, true, some, List, take, drop,
  drop-drop, All, All-replicate, ltb, leb, ◌&&◌, replicate,
}
use os_curriculum_design.Bitmap.{bitmap_test, bitmap_set}
use os_curriculum_design.Bitmap.Bytes.{test_bit, set_bit}
use os_curriculum_design.FileSystem.{
  Ata, FileSystem, sector_size, clear_block_pointers, invalid_block, zero_inode,
}
use os_curriculum_design.FileSystem.Blocks.{write_boot_block, write_info_block, write_inode_table}
use os_curriculum_design.FileSystem.Layout.{
  fixed, boot_bytes, boot_of_bytes, info_bytes, info_of_bytes, bytes_of_words, words_of_bytes,
  inode_words, inode_of_words, table_words, table_of_words, until_nul,
}
use os_curriculum_design.FileSystem.Mount.{
  new_inodes, metadata_matches, root_is_directory, read_metadata, simplefs_init,
}
use os_curriculum_design.FileSystem.Words.{IsWord}
use os_curriculum_design.FileSystem.Encoding.{Fits}
use os_curriculum_design.FileSystem.Reading.{take-append-take, take-all}
use os_curriculum_design.FileSystem.Store.{disk-IsLaidOut}
use os_curriculum_design.FileSystem.Remount.{ReadsBack, simplefs_init-write_inode_table}
use os_curriculum_design.FileSystem.Tests.{
  MemoryDisk, memory_disk, read_range, blank, blank-IsLaidOut,
}

-- The part of a written range from its `k`-th sector on.
read_range-written :
    (d : MemoryDisk) (lba n k r l : ℕ) (bytes : List ℕ)
    → k + r ≤ n
    → l ≡ lba + k
    → read_range (Ata.write_sectors memory_disk d lba n bytes).0 l r
      ≡ take (r * sector_size) (drop (k * sector_size) bytes)
unfolding read_range
read_range-written d lba n k zero l bytes le e = refl
read_range-written d lba n k (suc r) l bytes le e =
    let inside : (leb lba l && ltb l (lba + n)) ≡ true = ground (arith, e) in
    let at : l - lba ≡ k = omega (arith, e) in
    let rest =
      read_range-written d lba n (k + 1) r (suc l) bytes (omega arith) (omega (arith, e))
      ∙ ap (take (r * sector_size)) (
          sym (
            drop-drop sector_size (k * sector_size) ((k + 1) * sector_size) bytes (omega arith))) in
    rw (inside, at, rest)
      (take-append-take sector_size (r * sector_size) (suc r * sector_size)
        (drop (k * sector_size) bytes) (omega arith))

memory_disk-ReadsBack : ReadsBack memory_disk
memory_disk-ReadsBack d lba n bytes size ok = ap some (
    read_range-written d lba n 0 n lba bytes (omega arith) (omega arith)
    ∙ take-all (n * sector_size) bytes (omega (arith, size)))

-- The boot block and the info block of a new file system are on the disk.
abbrev new_file_system : FileSystem MemoryDisk
new_file_system = (write_info_block memory_disk (write_boot_block memory_disk blank).0).0

-- The memory after a restart.
abbrev restarted : FileSystem MemoryDisk
restarted = record blank {
  inodes = replicate 64 zero_inode;
  disk = (write_inode_table memory_disk new_file_system).0.disk;
}

free_inode-Fits : Fits (clear_block_pointers zero_inode)
unfolding clear_block_pointers
free_inode-Fits = record {
  kind = omega arith;
  link_count = omega arith;
  size = omega arith;
  direct = refl;
  direct_words = All-replicate IsWord 6 invalid_block (omega arith);
  indirect = omega arith;
}

new_inodes-Fits : All Fits new_inodes
unfolding clear_block_pointers
new_inodes-Fits = (
  record {
    kind = omega arith;
    link_count = omega arith;
    size = omega arith;
    direct = refl;
    direct_words = All-replicate IsWord 6 invalid_block (omega arith);
    indirect = omega arith;
  },
  All-replicate Fits 63 (clear_block_pointers zero_inode) free_inode-Fits,
)

mounted_again : (simplefs_init memory_disk restarted).1 ≡ true
unfolding simplefs_init read_metadata write_inode_table write_info_block write_boot_block read_range
    boot_bytes boot_of_bytes info_bytes info_of_bytes bytes_of_words words_of_bytes inode_words
    inode_of_words table_words table_of_words fixed until_nul metadata_matches root_is_directory
    bitmap_test test_bit bitmap_set set_bit
mounted_again = refl

simplefs_init-write_inode_table_example :
    (simplefs_init memory_disk restarted).0.inodes ≡ new_inodes
unfolding write_info_block write_boot_block write_inode_table
simplefs_init-write_inode_table_example =
    simplefs_init-write_inode_table memory_disk new_file_system restarted memory_disk-ReadsBack
      (disk-IsLaidOut blank new_file_system.disk blank-IsLaidOut) new_inodes-Fits refl refl
      mounted_again
