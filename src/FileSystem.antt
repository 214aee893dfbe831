-- ===== src/FileSystem.antt =====
-- fs/simplefs.c: the in-memory image of the file system. The records are the file's packed structs,
-- less their reserved bytes, and `FileSystem` its static variables; the two scratch buffers are
-- values that are passed along. A name is the list of its characters before the NUL. `Ata` is
-- drivers/ata.c as the file system calls it.
pub mod Layout
pub mod Blocks
pub mod Inodes
pub mod Directory
pub mod Mount
pub mod Files
pub mod Handles
pub mod Store
pub mod Place
pub mod Loop
pub mod Filling
pub mod Words
pub mod Encoding
pub mod Remount
pub mod Finish
pub mod InodeMap
pub mod Reading
pub mod Freeing
pub mod RoundTrip
pub mod Turn
pub mod Space
pub mod Guards
pub mod Overwrite
pub mod Descriptors
pub mod Elsewhere
pub mod Untouched
mod Tests
mod OpenTests
mod MountTests
use os_curriculum_design.Prelude.{
  ℕ, ◌+◌, ◌*◌, ◌/◌, ◌-◌, Bool, true, false, not, ◌&&◌, ◌||◌, Option, none, some, List, [], ◌∷◌,
  if◌then◌else◌, ltb, leb, ◌==◌, length, take, replicate, map,
}
use os_curriculum_design.Image.Apps.{same_text}

-- A device of type `D`: whether `ata_init` found it, and the two transfers. A transfer takes a first
-- sector and a number of sectors.
pub record Ata (D : Type 0) : Type 0 where
  pub is_ready : D → Bool
  pub read_sectors : D → ℕ → ℕ → Option (List ℕ)
  pub write_sectors : D → ℕ → ℕ → List ℕ → D × Bool

abbrev pub sector_size : ℕ
sector_size = 512

abbrev pub boot_magic : ℕ
boot_magic = 0x544F4F42

abbrev pub info_magic : ℕ
info_magic = 0x34464E49

abbrev pub version : ℕ
version = 2

abbrev pub boot_lba : ℕ
boot_lba = 4096

abbrev pub info_lba : ℕ
info_lba = 4097

abbrev pub inode_table_lba : ℕ
inode_table_lba = 4098

abbrev pub max_inodes : ℕ
max_inodes = 64

abbrev pub data_blocks : ℕ
data_blocks = 2048

abbrev pub direct_count : ℕ
direct_count = 6

abbrev pub indirect_entries : ℕ
indirect_entries = 128

abbrev pub max_open_files : ℕ
max_open_files = 8

abbrev pub root_inode : ℕ
root_inode = 0

abbrev pub invalid_block : ℕ
invalid_block = 0xFFFF_FFFF

abbrev pub invalid_inode : ℕ
invalid_inode = 0xFFFF_FFFF

abbrev pub kind_free : ℕ
kind_free = 0

abbrev pub kind_regular : ℕ
kind_regular = 1

abbrev pub kind_directory : ℕ
kind_directory = 2

-- 64 inodes of 64 bytes.
abbrev pub inode_table_sectors : ℕ
inode_table_sectors = 8

abbrev pub data_lba : ℕ
data_lba = inode_table_lba + inode_table_sectors

abbrev pub max_file_size : ℕ
max_file_size = 68608

abbrev pub entry_size : ℕ
entry_size = 32

abbrev pub name_size : ℕ
name_size = 28

abbrev pub max_directory_entries : ℕ
max_directory_entries = max_file_size / entry_size

pub record BootBlock : Type 0 where
  pub magic : ℕ
  pub version : ℕ
  pub root_inode : ℕ
  pub name : List ℕ

pub record InfoBlock : Type 0 where
  pub magic : ℕ
  pub version : ℕ
  pub root_inode : ℕ
  pub inode_table_lba : ℕ
  pub inode_table_sectors : ℕ
  pub data_lba : ℕ
  pub inode_count : ℕ
  pub data_block_count : ℕ
  pub direct_blocks : ℕ
  pub indirect_entries : ℕ
  pub inode_bitmap : List ℕ
  pub data_bitmap : List ℕ

pub record Inode : Type 0 where
  pub kind : ℕ
  pub link_count : ℕ
  pub size : ℕ
  pub direct_blocks : List ℕ
  pub indirect_block : ℕ

pub record DirectoryEntry : Type 0 where
  pub inode : ℕ
  pub name : List ℕ

pub record OpenFile : Type 0 where
  pub used : Bool
  pub inode_index : ℕ
  pub offset : ℕ
  pub name : List ℕ

pub record FileSystem (D : Type 0) : Type 0 where
  pub boot : BootBlock
  pub info : InfoBlock
  pub inodes : List Inode
  pub open_files : List OpenFile
  pub current_directory : ℕ
  pub mounted : Bool
  pub disk : D

-- `copy_name`: at most `capacity - 1` characters, and the NUL behind them.
unfoldable pub copy_name : List ℕ → ℕ → List ℕ
copy_name src capacity = take (capacity - 1) src

-- "." and "..".
abbrev pub dot : List ℕ
dot = 46 ∷ []

abbrev pub dot_dot : List ℕ
dot_dot = 46 ∷ 46 ∷ []

-- "/".
abbrev pub slash : List ℕ
slash = 47 ∷ []

unfoldable pub name_is_special : List ℕ → Bool
name_is_special name = same_text name dot || same_text name dot_dot

unfoldable pub valid_name : List ℕ → Bool
valid_name name =
    if length name == 0
    then false
    else if leb name_size (length name)
    then false
    else not (name_is_special name) && not (same_text name slash)

-- An inode cleared by `memset`, and one whose block pointers are cleared too.
abbrev pub zero_inode : Inode
zero_inode = record {
  kind = 0;
  link_count = 0;
  size = 0;
  direct_blocks = replicate direct_count 0;
  indirect_block = 0;
}

unfoldable pub clear_block_pointers : Inode → Inode
clear_block_pointers inode = record inode {
  direct_blocks = replicate direct_count invalid_block;
  indirect_block = invalid_block;
}

abbrev pub closed_file : OpenFile
closed_file = record { used = false; inode_index = invalid_inode; offset = 0; name = [] }

-- `reset_open_files`.
unfoldable pub reset_open_files : List OpenFile
reset_open_files = replicate max_open_files closed_file
