-- ===== src/FileSystem/Space.antt =====
-- fs/simplefs.c: with enough free blocks, and a disk that takes every write, `write_inode_data` returns
-- 1.
use os_curriculum_design.Prelude.{
  ℕ, zero, suc, ◌+◌, ◌*◌, ◌≤◌, ◌<◌, ◌≡◌, ◌⊎◌, inl, inr, refl, sym, subst, arith, Bool, true, false,
  Option, some, List, if◌then◌else◌, length, drop, drop-drop, replicate, Bool-cases, ltb,
}
use os_curriculum_design.FileSystem.{
  Ata, FileSystem, sector_size, direct_count, indirect_entries, invalid_block, max_inodes,
  max_file_size,
}
use os_curriculum_design.FileSystem.Blocks.{
  inode_at, free_inode_blocks, write_both, write_info_block, write_inode_table,
}
use os_curriculum_design.FileSystem.Inodes.{
  write_block, write_blocks, finish_write, write_inode_data, required_blocks, inode_in_use,
}
use os_curriculum_design.FileSystem.Store.{IsReliable, IsLaidOut}
use os_curriculum_design.FileSystem.RoundTrip.{inode_in_use-lt}
use os_curriculum_design.FileSystem.Freeing.{free_inode_blocks-Written}
use os_curriculum_design.FileSystem.Place.{Written}
use os_curriculum_design.FileSystem.Filling.{Filled, write_block-cases, write_blocks-cases}
use os_curriculum_design.FileSystem.Turn.{
  free_count, AlwaysWrites, cost, write_block_some, write_indirect_some,
}

required_blocks-le :
    (size : ℕ) → size ≤ max_file_size → 0 + required_blocks size ≤ direct_count + indirect_entries
unfolding required_blocks
required_blocks-le size most = omega (arith, most)

-- The indirect block, where it is still to be made and the file will need it.
abbrev extra : Bool → ℕ → ℕ
extra needs total = if needs then 0 else if ltb direct_count total then 1 else 0

same_pair : (o : Option (List ℕ × Bool)) (p q : List ℕ × Bool) → o ≡ some p → o ≡ some q → p ≡ q
same_pair o p q e f = ground (arith, e, f)

enough_now :
    (logical count free : ℕ) (needs : Bool)
    → suc count + extra needs (logical + suc count) ≤ free
    → cost logical needs + 1 ≤ free
enough_now logical count free true h = elim (Bool-cases (ltb logical direct_count)) [
  | inl e ↦ simp e (omega (arith, h))
  | inr e ↦ simp e (omega (arith, h))
]
enough_now logical count free false h = elim (Bool-cases (ltb logical direct_count)) [
  | inl e ↦ simp e (omega (arith, h))
  | inr e ↦
      let more : ltb direct_count (logical + suc count) ≡ true = ground (arith, e) in
      simp e (ground (arith, h, more))
]

enough_next :
    (logical count free free₁ : ℕ) (needs n : Bool)
    → suc count + extra needs (logical + suc count) ≤ free
    → ((n ≡ needs) × (logical < direct_count) × (free₁ + 1 ≡ free))
      ⊎ ((n ≡ true) × (direct_count ≤ logical) × (free₁ + 1 + (if needs then 0 else 1) ≡ free))
    → count + extra n (suc logical + count) ≤ free₁
enough_next logical count free free₁ needs n h (inl (same, lt, left)) =
    let total : logical + suc count ≡ suc logical + count = omega arith in
    subst (λ (b : Bool). count + extra b (suc logical + count) ≤ free₁) (sym same)
      (subst (λ (q : ℕ). count + extra needs q ≤ free₁) total (omega (arith, h, left)))
enough_next logical count free free₁ true n h (inr (made, ge, left)) =
    subst (λ (b : Bool). count + extra b (suc logical + count) ≤ free₁) (sym made)
      (omega (arith, h, left))
enough_next logical count free free₁ false n h (inr (made, ge, left)) =
    let more : ltb direct_count (logical + suc count) ≡ true = ground (arith, ge) in
    subst (λ (b : Bool). count + extra b (suc logical + count) ≤ free₁) (sym made)
      (ground (arith, h, left, more))

module _ {D : Type 0} (ata : Ata D) (reliable : IsReliable ata) (writes : AlwaysWrites ata) where
  write_blocks_step :
      (count : ℕ) (fs : FileSystem D) (i logical : ℕ) (table t : List ℕ) (needs n : Bool)
      (bytes : List ℕ) (p : List ℕ × Bool)
      → (write_block ata fs i logical table needs bytes).1 ≡ some (t, n)
      → (write_blocks ata count
          (write_block ata fs i logical table needs bytes).0
          i
          (suc logical)
          t
          n
          (drop sector_size bytes)).1
        ≡ some p
      → (write_blocks ata (suc count) fs i logical table needs bytes).1 ≡ some p
  unfolding write_blocks
  write_blocks_step count fs i logical table t needs n bytes p e done = simp (e, done, write_blocks)

  pub write_blocks-some :
      (count : ℕ) (fs : FileSystem D) (i : ℕ) (lt : i < max_inodes) (table : List ℕ) (needs : Bool)
      (logical : ℕ) (bytes : List ℕ)
      → Filled ata reliable i lt bytes fs table needs logical
      → logical + count ≤ direct_count + indirect_entries
      → count + extra needs (logical + count) ≤ free_count fs
      → (p : List ℕ × Bool) × ((write_blocks ata count fs i logical table needs
            (drop (logical * sector_size) bytes)).1
          ≡ some p)
  unfolding write_blocks
  write_blocks-some zero fs i lt table needs logical bytes w few enough = ((table, needs), refl)
  write_blocks-some (suc count) fs i lt table needs logical bytes w few enough =
      let rest = drop (logical * sector_size) bytes in
      let fs₁ = (write_block ata fs i logical table needs rest).0 in
      let (t, n, e, change) =
        write_block_some ata reliable writes fs i logical table needs rest w.laid_out
          (enough_now logical count (free_count fs) needs enough) in
      elim (write_block-cases ata reliable i lt bytes fs table needs logical (omega (arith, few))
        w) [
          | inl none_left ↦ absurd (ground (arith, none_left, e))
          | inr (t₁, n₁, e₁, w₁) ↦
              let w₂ : Filled ata reliable i lt bytes fs₁ t n (suc logical) =
                subst (λ p. Filled ata reliable i lt bytes fs₁ p.0 p.1 (suc logical))
                  (same_pair _ (t₁, n₁) (t, n) e₁ e) w₁ in
              let (p, done) =
                write_blocks-some count fs₁ i lt t n (suc logical) bytes w₂ (omega (arith, few)) (
                  enough_next logical count (free_count fs) (free_count fs₁) needs n enough
                    change) in
              let next : drop sector_size rest ≡ drop (suc logical * sector_size) bytes =
                drop-drop sector_size (logical * sector_size) (suc logical * sector_size) bytes
                  (omega arith) in
              (
                p,
                write_blocks_step count fs i logical table t needs n rest p e (
                    subst (λ xs. (write_blocks ata count fs₁ i (suc logical) t n xs).1 ≡ some p)
                      (sym next) done),
              )
        ]

  write_both_some : (fs : FileSystem D) → (write_both ata fs).1 ≡ true
  unfolding write_both write_info_block write_inode_table
  write_both_some fs = simp (writes, write_both)

  finish_write_some :
      (fs : FileSystem D) (i size count : ℕ) (table : List ℕ) (needs : Bool) (bytes : List ℕ)
      → Written ata fs (inode_at fs.inodes i) table needs count bytes
      → (finish_write ata fs i table needs size).1 ≡ true
  unfolding finish_write
  finish_write_some fs i size count table false bytes w = write_both_some _
  finish_write_some fs i size count table true bytes w =
      let (ok, same) =
        write_indirect_some ata reliable writes fs (inode_at fs.inodes i) table (w.made refl).0 in
      simp (ok, finish_write) (write_both_some _)

  -- On a disk that takes every write and keeps what was written, in a file system of the layout that
  -- mounting checks: writing to an inode in use at most as many bytes as a file can have returns 1, if the
  -- free blocks, those of the file's old contents included, are enough for the data and, from seven blocks
  -- on, for the indirect block.
  pub write_inode_data_succeeds :
      (fs : FileSystem D) (i : ℕ) (bytes : List ℕ)
      → IsLaidOut fs
      → inode_in_use fs.info i ≡ true
      → length bytes ≤ max_file_size
      → required_blocks (length bytes)
          + (if ltb direct_count (required_blocks (length bytes)) then 1 else 0)
        ≤ free_count (free_inode_blocks ata fs i)
      → (write_inode_data ata fs i bytes).1 ≡ true
  unfolding write_inode_data
  write_inode_data_succeeds fs i bytes h used most enough =
      let lt = inode_in_use-lt fs.info i used in
      let short : ltb max_file_size (length bytes) ≡ false = ground (arith, most) in
      let fs₀ = free_inode_blocks ata fs i in
      let table = replicate indirect_entries invalid_block in
      let count = required_blocks (length bytes) in
      let few : 0 + count ≤ direct_count + indirect_entries =
        required_blocks-le (length bytes) most in
      let w₀ = free_inode_blocks-Written ata fs i bytes lt h in
      let room : count + extra false (0 + count) ≤ free_count fs₀ =
        subst (λ (q : ℕ). count + extra false q ≤ free_count fs₀) (omega arith) enough in
      let (p, done) = write_blocks-some count fs₀ i lt table false 0 bytes w₀ few room in
      elim (write_blocks-cases ata reliable i lt bytes count fs₀ table false 0 few w₀) [
        | inl e ↦ absurd (ground (arith, e, done))
        | inr (t, n, e, w) ↦
            simp (used, short, e, write_inode_data)
              (finish_write_some (write_blocks ata count fs₀ i 0 table false bytes).0 i
                (length bytes) (0 + count) t n bytes w)
      ]
