-- ===== src/FileSystem/Tests.antt =====
-- Tests and concrete inputs for fs/simplefs.c, on a disk kept in memory.
use os_curriculum_design.Prelude.{
  ℕ, zero, suc, ◌+◌, ◌-◌, ◌*◌, true, false, ◌&&◌, some, List, [], ◌∷◌, ◌++◌, if◌then◌else◌, ltb,
  leb, length, take, drop, replicate, ◌≡◌, refl, ap, sym, subst, ◌≤◌, inl, inr, arith,
  All-replicate,
}
use os_curriculum_design.FileSystem.{
  Ata, FileSystem, reset_open_files, sector_size, direct_count, clear_block_pointers,
}
use os_curriculum_design.FileSystem.Mount.{new_boot, new_info, new_inodes, simplefs_format}
use os_curriculum_design.FileSystem.Inodes.{
  write_inode_data, inode_in_use, required_blocks, read_inode_bytes,
}
use os_curriculum_design.FileSystem.Store.{IsReliable, IsLaidOut}
use os_curriculum_design.FileSystem.Blocks.{free_inode_blocks, free_indirect, free_blocks}
use os_curriculum_design.Bitmap.{bitmap_test, bitmap_set}
use os_curriculum_design.Bitmap.Count.{count_free}
use os_curriculum_design.FileSystem.Turn.{free_count}
use os_curriculum_design.FileSystem.Space.{write_inode_data_succeeds}
use os_curriculum_design.FileSystem.RoundTrip.{
  write_inode_data-read_inode_bytes, Stored-read_inode_bytes, write_inode_data-Stored,
}
use os_curriculum_design.FileSystem.Guards.{read_inode_bytes_bounded}
use os_curriculum_design.FileSystem.Reading.{take-all}
use os_curriculum_design.Bitmap.Bytes.{IsByte, test_bit, set_bit}

abbrev pub MemoryDisk : Type 0
MemoryDisk = ℕ → List ℕ

unfoldable pub read_range : MemoryDisk → ℕ → ℕ → List ℕ
read_range d lba zero = []
read_range d lba (suc n) = d lba ++ read_range d (suc lba) n

abbrev pub memory_disk : Ata MemoryDisk
memory_disk = record {
  is_ready = λ d. true;
  read_sectors = λ d lba n. some (read_range d lba n);
  write_sectors = λ d lba n bytes. (
    (λ l.
        if leb lba l && ltb l (lba + n)
        then take sector_size (drop ((l - lba) * sector_size) bytes)
        else d l),
    true,
  );
}

abbrev pub blank : FileSystem MemoryDisk
blank = record {
  boot = new_boot;
  info = new_info;
  inodes = new_inodes;
  open_files = reset_open_files;
  current_directory = 0;
  mounted = false;
  disk = λ l. replicate sector_size 0;
}

abbrev pub formatted : FileSystem MemoryDisk
formatted = (simplefs_format memory_disk blank).0

-- "a".
abbrev pub name_a : List ℕ
name_a = 97 ∷ []

-- Seven blocks of data, so that the last one is reached through the indirect block.
abbrev pub long_data : List ℕ
long_data = replicate 3073 7

append_nil : (xs : List ℕ) → xs ++ [] ≡ xs
append_nil [] = refl
append_nil (x ∷ xs) = ap (◌∷◌ x) (append_nil xs)

pub memory_disk-IsReliable : IsReliable memory_disk
unfolding read_range
memory_disk-IsReliable = record {
  read_back = λ d lba bytes e ok.
      let here : (leb lba lba && ltb lba (lba + 1)) ≡ true = ground arith in
      let at : lba - lba ≡ 0 = omega arith in
      rw (here, at, append_nil) (ap some (take-all sector_size bytes (omega (arith, e))));
  elsewhere = λ d lba n other bytes outside.
      let there : (leb lba other && ltb other (lba + n)) ≡ false = elim outside [
        | inl before ↦ ground (arith, before)
        | inr behind ↦ ground (arith, behind)
      ] in
      rw there refl;
}

pub blank-IsLaidOut : IsLaidOut blank
blank-IsLaidOut = record {
  data_start = refl;
  table = refl;
  sectors = refl;
  bitmap = record { bytes = All-replicate IsByte 256 0 (omega arith); room = omega arith };
  inodes = refl;
}

blank_in_use : inode_in_use blank.info 0 ≡ true
unfolding inode_in_use bitmap_test bitmap_set test_bit set_bit
blank_in_use = refl

blank_room : 8 ≤ free_count (free_inode_blocks memory_disk blank 0)
unfolding free_inode_blocks free_indirect free_blocks clear_block_pointers count_free bitmap_test
    test_bit
blank_room = omega arith

long_data_fits : required_blocks (length long_data) ≡ 7
unfolding required_blocks
long_data_fits = refl

pub long_data_written : (write_inode_data memory_disk blank 0 long_data).1 ≡ true
long_data_written =
    write_inode_data_succeeds memory_disk memory_disk-IsReliable (λ d lba n bytes. refl) blank 0
      long_data blank-IsLaidOut blank_in_use (omega arith)
      (subst
        (λ (n : ℕ).
          n + (if ltb direct_count n then 1 else 0)
          ≤ free_count (free_inode_blocks memory_disk blank 0))
        (sym long_data_fits) blank_room)

write_inode_data-read_inode_bytes_example :
    read_inode_bytes memory_disk (write_inode_data memory_disk blank 0 long_data).0 0 3000 100
    ≡ some (take 100 (drop 3000 long_data))
write_inode_data-read_inode_bytes_example =
    write_inode_data-read_inode_bytes memory_disk memory_disk-IsReliable blank 0 3000 100 long_data
      blank-IsLaidOut long_data_written

write_inode_data_succeeds_example : (write_inode_data memory_disk blank 0 long_data).1 ≡ true
write_inode_data_succeeds_example =
    write_inode_data_succeeds memory_disk memory_disk-IsReliable (λ d lba n bytes. refl) blank 0
      long_data blank-IsLaidOut blank_in_use (omega arith)
      (subst
        (λ (n : ℕ).
          n + (if ltb direct_count n then 1 else 0)
          ≤ free_count (free_inode_blocks memory_disk blank 0))
        (sym long_data_fits) blank_room)

read_inode_bytes_bounded_example : length (take 100 (drop 3000 long_data)) ≤ 100
read_inode_bytes_bounded_example =
    read_inode_bytes_bounded memory_disk (write_inode_data memory_disk blank 0 long_data).0 0 3000
      100 (take 100 (drop 3000 long_data))
      (Stored-read_inode_bytes memory_disk (write_inode_data memory_disk blank 0 long_data).0 0 3000
        100 long_data
        (write_inode_data-Stored memory_disk memory_disk-IsReliable blank 0 long_data
          blank-IsLaidOut long_data_written))
