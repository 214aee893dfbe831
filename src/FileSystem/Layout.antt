-- ===== src/FileSystem/Layout.antt =====
-- fs/simplefs.c: how the packed structs lie in sectors, as bytes. The code transfers their memory as it
-- is; here they are records, put into bytes and read from them. Reserved bytes are written as 0.
use os_curriculum_design.Prelude.{
  ℕ, zero, suc, ◌+◌, ◌*◌, ◌/◌, ◌%◌, List, [], ◌∷◌, ◌++◌, take, drop, get_or, replicate,
  if◌then◌else◌, ◌==◌,
}
use os_curriculum_design.FileSystem.{
  BootBlock, InfoBlock, Inode, DirectoryEntry, sector_size, name_size, entry_size, direct_count,
}

-- The little-endian bytes of 32-bit numbers, and the numbers again; bytes that fill no number are
-- left out.
unfoldable pub bytes_of_words : List ℕ → List ℕ
bytes_of_words [] = []
bytes_of_words (w ∷ ws) =
    w % 256 ∷ w / 256 % 256 ∷ w / 0x0001_0000 % 256 ∷ w / 0x0100_0000 % 256 ∷ bytes_of_words ws

unfoldable pub words_of_bytes : List ℕ → List ℕ
words_of_bytes (a ∷ b ∷ c ∷ d ∷ rest) =
    (a + b * 256 + c * 0x0001_0000 + d * 0x0100_0000) ∷ words_of_bytes rest
words_of_bytes _ = []

-- The first `n` bytes, with zeros where there are fewer.
unfoldable pub fixed : ℕ → List ℕ → List ℕ
fixed zero bytes = []
fixed (suc n) [] = 0 ∷ fixed n []
fixed (suc n) (b ∷ bytes) = b ∷ fixed n bytes

-- The characters before the first 0.
unfoldable pub until_nul : List ℕ → List ℕ
until_nul [] = []
until_nul (c ∷ cs) = let rest = until_nul cs in if c == 0 then [] else c ∷ rest

unfoldable pub boot_bytes : BootBlock → List ℕ
boot_bytes b =
    fixed sector_size (bytes_of_words (b.magic ∷ b.version ∷ b.root_inode ∷ []) ++ fixed 16 b.name)

unfoldable pub boot_of_bytes : List ℕ → BootBlock
boot_of_bytes bytes =
    let w = words_of_bytes (take 12 bytes) in
    record {
      magic = get_or w 0 0;
      version = get_or w 1 0;
      root_inode = get_or w 2 0;
      name = until_nul (take 16 (drop 12 bytes));
    }

unfoldable pub info_bytes : InfoBlock → List ℕ
info_bytes i = fixed sector_size (
    bytes_of_words (
      i.magic ∷ i.version ∷ i.root_inode ∷ i.inode_table_lba ∷ i.inode_table_sectors ∷ i.data_lba
      ∷ i.inode_count ∷ i.data_block_count ∷ i.direct_blocks ∷ i.indirect_entries ∷ [])
    ++ fixed 8 i.inode_bitmap
    ++ fixed 256 i.data_bitmap)

unfoldable pub info_of_bytes : List ℕ → InfoBlock
info_of_bytes bytes =
    let w = words_of_bytes (take 40 bytes) in
    record {
      magic = get_or w 0 0;
      version = get_or w 1 0;
      root_inode = get_or w 2 0;
      inode_table_lba = get_or w 3 0;
      inode_table_sectors = get_or w 4 0;
      data_lba = get_or w 5 0;
      inode_count = get_or w 6 0;
      data_block_count = get_or w 7 0;
      direct_blocks = get_or w 8 0;
      indirect_entries = get_or w 9 0;
      inode_bitmap = take 8 (drop 40 bytes);
      data_bitmap = take 256 (drop 48 bytes);
    }

-- An inode is sixteen words: the type and the link count share the first one.
unfoldable pub inode_words : Inode → List ℕ
inode_words i =
    (i.kind + i.link_count * 0x0001_0000)
    ∷ i.size
    ∷ (fixed direct_count i.direct_blocks ++ (i.indirect_block ∷ replicate 7 0))

unfoldable pub inode_of_words : List ℕ → Inode
inode_of_words w = record {
  kind = get_or w 0 0 % 256;
  link_count = get_or w 0 0 / 0x0001_0000;
  size = get_or w 1 0;
  direct_blocks = take direct_count (drop 2 w);
  indirect_block = get_or w 8 0;
}

unfoldable pub table_words : List Inode → List ℕ
table_words [] = []
table_words (i ∷ is) = inode_words i ++ table_words is

-- The first `n` inodes of a table.
unfoldable pub table_of_words : ℕ → List ℕ → List Inode
table_of_words zero w = []
table_of_words (suc n) w = inode_of_words (take 16 w) ∷ table_of_words n (drop 16 w)

unfoldable pub entry_bytes : DirectoryEntry → List ℕ
entry_bytes e = bytes_of_words (e.inode ∷ []) ++ fixed name_size e.name

unfoldable pub entry_of_bytes : List ℕ → DirectoryEntry
entry_of_bytes bytes = record {
  inode = get_or (words_of_bytes (take 4 bytes)) 0 0;
  name = until_nul (take name_size (drop 4 bytes));
}

unfoldable pub entries_bytes : List DirectoryEntry → List ℕ
entries_bytes [] = []
entries_bytes (e ∷ es) = entry_bytes e ++ entries_bytes es

unfoldable pub entries_of_bytes : ℕ → List ℕ → List DirectoryEntry
entries_of_bytes zero bytes = []
entries_of_bytes (suc n) bytes =
    entry_of_bytes (take entry_size bytes) ∷ entries_of_bytes n (drop entry_size bytes)
