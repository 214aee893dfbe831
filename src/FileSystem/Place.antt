-- ===== src/FileSystem/Place.antt =====
-- fs/simplefs.c: what the loop of `write_inode_data` keeps true: the blocks written so far are taken,
-- hold their part of the data, and are found through the inode and the indirect table.
use os_curriculum_design.Prelude.{
  ℕ, suc, ◌+◌, ◌-◌, ◌*◌, ◌≤◌, ◌<◌, ◌≡◌, ◌≢◌, inl, inr, subst, arith, Bool, true, false, List,
  if◌then◌else◌, length, drop, get_or, set, All, All-set, length-set, get_or-set_self,
  get_or-set_ne, Bool-cases, ltb, ◌==◌,
}
use native.Mathlib.Decide.{ℕ_discrete}
use os_curriculum_design.FileSystem.{
  Ata, FileSystem, Inode, sector_size, direct_count, indirect_entries, invalid_block,
}
use os_curriculum_design.FileSystem.Layout.{fixed}
use os_curriculum_design.FileSystem.Blocks.{set_inode}
use os_curriculum_design.FileSystem.Words.{IsWord}
use os_curriculum_design.FileSystem.Store.{IsLaidOut, Taken, Keeps, Holds, Holds-Keeps}

-- The block of a file at a place, by its direct blocks and its indirect table.
abbrev pub file_block : List ℕ → List ℕ → ℕ → ℕ
file_block direct table j =
    if ltb j direct_count
    then get_or direct j invalid_block
    else get_or table (j - direct_count) invalid_block

file_block-set_direct :
    (direct table : List ℕ) (k b j : ℕ)
    → k < length direct
    → length direct ≡ direct_count
    → file_block (set direct k b) table j ≡ (if k == j then b else file_block direct table j)
file_block-set_direct direct table k b j lt e = elim (ℕ_discrete k j) [
  | yes same ↦ ground (
    arith,
    same,
    get_or-set_self direct k b invalid_block lt,
    lt,
    e,
    subst (λ (q : ℕ). get_or (set direct k b) q invalid_block ≡ b) same
        (get_or-set_self direct k b invalid_block lt),
  )
  | no ne ↦ ground (arith, ne, get_or-set_ne direct b invalid_block ne)
]

file_block-set_table :
    (direct table : List ℕ) (k b j : ℕ)
    → direct_count ≤ k
    → k - direct_count < length table
    → file_block direct (set table (k - direct_count) b) j
      ≡ (if k == j then b else file_block direct table j)
file_block-set_table direct table k b j ge lt = elim (ℕ_discrete k j) [
  | yes same ↦ ground (
    arith,
    same,
    ge,
    subst (λ (q : ℕ). get_or (set table (k - direct_count) b) (q - direct_count) invalid_block ≡ b)
        same (get_or-set_self table (k - direct_count) b invalid_block lt),
  )
  | no ne ↦ elim (Bool-cases (ltb j direct_count)) [
    | inl below ↦ ground (arith, ne, below)
    | inr above ↦ ground (
      arith,
      ne,
      above,
      get_or-set_ne table {i = k - direct_count} {j = j - direct_count} b invalid_block
          (λ e. ne (ground (arith, e, ge, above))),
    )
  ]
]

-- The part of the data that goes to the block at a place.
abbrev pub sector_of : List ℕ → ℕ → List ℕ
sector_of bytes j = fixed sector_size (drop (j * sector_size) bytes)

abbrev pub inode_IsLaidOut :
    {D : Type 0} (fs : FileSystem D) (i : ℕ) (x : Inode)
    → IsLaidOut fs
    → IsLaidOut (set_inode fs i x)
inode_IsLaidOut fs i x h = record {
  data_start = h.data_start;
  table = h.table;
  sectors = h.sectors;
  bitmap = h.bitmap;
  inodes = rw (length-set fs.inodes i x) h.inodes;
}

module _ {D : Type 0} (ata : Ata D) where
  pub record Written (fs : FileSystem D) (inode : Inode) (table : List ℕ) (needs : Bool)
      (logical : ℕ) (bytes : List ℕ) : Type 0 where
    pub laid_out : IsLaidOut fs
    pub direct : length inode.direct_blocks ≡ direct_count
    pub entries : length table ≡ indirect_entries
    pub words : All IsWord table
    pub made : needs ≡ true → Taken fs inode.indirect_block
    pub unmade : needs ≡ false → inode.indirect_block ≡ invalid_block
    pub few : needs ≡ false → logical ≤ direct_count
    pub stored :
        (j : ℕ)
        → j < logical
        → Holds ata fs (file_block inode.direct_blocks table j) (sector_of bytes j)
          × (file_block inode.direct_blocks table j ≢ inode.indirect_block)

  -- A written block that no pointer refers to yet.
  pub record Pending (fs : FileSystem D) (inode : Inode) (b : ℕ) (sector : List ℕ) : Type 0 where
    pub holds : Holds ata fs b sector
    pub fresh : b ≢ inode.indirect_block

  pub Written-Keeps :
      (fs fs₁ : FileSystem D) (inode : Inode) (table : List ℕ) (needs : Bool) (logical : ℕ)
      (bytes : List ℕ)
      → Keeps ata fs fs₁
      → IsLaidOut fs₁
      → Written fs inode table needs logical bytes
      → Written fs₁ inode table needs logical bytes
  Written-Keeps fs fs₁ inode table needs logical bytes keeps laid_out w = record {
    laid_out = laid_out;
    direct = w.direct;
    entries = w.entries;
    words = w.words;
    made = λ e. (keeps inode.indirect_block (w.made e)).0;
    unmade = w.unmade;
    few = w.few;
    stored = λ j lt.
        let (holds, apart) = w.stored j lt in (Holds-Keeps ata fs fs₁ _ _ keeps holds, apart);
  }

  module _ (fs : FileSystem D) (inode : Inode) (table : List ℕ) (needs : Bool) (logical : ℕ)
      (bytes : List ℕ) (b : ℕ) (w : Written fs inode table needs logical bytes)
      (p : Pending fs inode b (sector_of bytes logical)) where
    stored_next :
        (x j : ℕ)
        → x ≡ (if logical == j then b else file_block inode.direct_blocks table j)
        → j < suc logical
        → Holds ata fs x (sector_of bytes j) × (x ≢ inode.indirect_block)
    stored_next x j e below = elim (ℕ_discrete logical j) [
      | yes same ↦
          subst (λ q. Holds ata fs q (sector_of bytes j) × (q ≢ inode.indirect_block))
            (ground (arith, e, same))
            (subst (λ q. Holds ata fs b (sector_of bytes q)) same p.holds, p.fresh)
      | no ne ↦
          subst (λ q. Holds ata fs q (sector_of bytes j) × (q ≢ inode.indirect_block))
            (ground (arith, e, ne)) (w.stored j (omega arith))
    ]

    -- The pending block becomes a direct one.
    pub place_direct :
        logical < direct_count
        → (fs₁ : FileSystem D) → Keeps ata fs fs₁
        → IsLaidOut fs₁
        → Written fs₁
            (record inode { direct_blocks = set inode.direct_blocks logical b })
            table
            needs
            (suc logical)
            bytes
    place_direct lt fs₁ keeps laid_out = record {
      laid_out = laid_out;
      direct = rw (length-set inode.direct_blocks logical b) w.direct;
      entries = w.entries;
      words = w.words;
      made = λ e. (keeps inode.indirect_block (w.made e)).0;
      unmade = w.unmade;
      few = λ e. lt;
      stored = λ j below.
          let (holds, apart) =
            stored_next _ j
              (file_block-set_direct inode.direct_blocks table logical b j
                (omega (arith, w.direct, lt)) w.direct)
              below in
          (Holds-Keeps ata fs fs₁ _ _ keeps holds, apart);
    }

    -- The pending block goes to the indirect table.
    pub place_indirect :
        direct_count ≤ logical
        → logical < direct_count + indirect_entries
        → needs ≡ true
        → Written fs inode (set table (logical - direct_count) b) true (suc logical) bytes
    place_indirect ge lt e = record {
      laid_out = w.laid_out;
      direct = w.direct;
      entries = rw (length-set table (logical - direct_count) b) w.entries;
      words = All-set IsWord table (logical - direct_count) b w.words (omega (arith, p.holds.0.0));
      made = λ same. w.made e;
      unmade = λ e. cc;
      few = λ e. cc;
      stored = λ j below.
          stored_next _ j
            (file_block-set_table inode.direct_blocks table logical b j ge
              (omega (arith, w.entries, lt, ge)))
            below;
    }
