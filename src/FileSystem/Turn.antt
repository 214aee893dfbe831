-- ===== src/FileSystem/Turn.antt =====
-- fs/simplefs.c: the blocks that one turn of the loop of `write_inode_data` takes from the free ones.
use os_curriculum_design.Prelude.{
  ℕ, ◌+◌, ◌-◌, ◌≤◌, ◌<◌, ◌≡◌, ◌⊎◌, inl, inr, refl, sym, subst, arith, Bool, true, false, Option,
  none, some, List, if◌then◌else◌, set, replicate, Bool-cases, Option-cases, ltb, ◌==◌,
}
use os_curriculum_design.Bitmap.Count.{count_free, count_free-set, count_free_none}
use os_curriculum_design.Bitmap.FirstFree.{first_free, first_free-none}
use os_curriculum_design.FileSystem.{
  Ata, FileSystem, Inode, sector_size, data_blocks, direct_count, invalid_block,
}
use os_curriculum_design.FileSystem.Blocks.{
  block_lba, inode_at, set_inode, allocate_data_block, write_indirect_block,
}
use os_curriculum_design.FileSystem.Inodes.{ensure_indirect, place_block, write_block}
use os_curriculum_design.FileSystem.Layout.{fixed}
use os_curriculum_design.FileSystem.Store.{
  disk-IsLaidOut, IsReliable, IsLaidOut, Allocated, allocate_data_block-cases,
}

-- The free blocks.
abbrev pub free_count : {D : Type 0} → FileSystem D → ℕ
free_count fs = count_free fs.info.data_bitmap data_blocks

-- The device takes every write.
abbrev pub AlwaysWrites : {D : Type 0} → Ata D → Type 0
AlwaysWrites {D} ata =
    (d : D) (lba n : ℕ) (bytes : List ℕ) → (Ata.write_sectors ata d lba n bytes).1 ≡ true

-- The blocks beyond its own that a turn may take.
abbrev pub cost : ℕ → Bool → ℕ
cost logical needs = if ltb logical direct_count then 0 else if needs then 0 else 1

module _ {D : Type 0} (ata : Ata D) (reliable : IsReliable ata) (writes : AlwaysWrites ata) where
  allocate_none : (fs : FileSystem D) → (allocate_data_block ata fs).1 ≡ none → free_count fs ≡ 0
  unfolding allocate_data_block
  allocate_none fs e = elim (Option-cases (first_free fs.info.data_bitmap 0 data_blocks)) [
    | inl full ↦ count_free_none fs.info.data_bitmap data_blocks (λ j lt.
        first_free-none fs.info.data_bitmap 0 data_blocks full j (omega arith) (omega (arith, lt)))
    | inr (b, found) ↦
        let ok = writes fs.disk (block_lba fs.info b) 1 (replicate sector_size 0) in
        let some_block : (allocate_data_block ata fs).1 ≡ some b =
          simp (found, ok, allocate_data_block) in
        absurd (ground (arith, e, some_block))
  ]

  -- An allocation with a block to spare.
  allocate_some :
      (fs : FileSystem D)
      → IsLaidOut fs
      → 0 < free_count fs
      → (b : ℕ) × ((allocate_data_block ata fs).1 ≡ some b)
        × Allocated ata fs (allocate_data_block ata fs).0 b
        × (free_count (allocate_data_block ata fs).0 + 1 ≡ free_count fs)
  allocate_some fs h pos = elim (allocate_data_block-cases ata reliable fs h) [
    | inl e ↦ absurd (omega (arith, allocate_none fs e, pos))
    | inr (b, e, a) ↦ (
      b,
      e,
      a,
      subst (λ m. count_free m data_blocks + 1 ≡ free_count fs) (sym a.bitmap)
          (count_free-set data_blocks fs.info.data_bitmap h.bitmap b a.taken.0 a.free),
    )
  ]

  pub write_indirect_some :
      (fs : FileSystem D) (inode : Inode) (table : List ℕ)
      → inode.indirect_block < data_blocks
      → ((write_indirect_block ata fs inode table).1 ≡ true)
        × ((write_indirect_block ata fs inode table).0.info ≡ fs.info)
  unfolding write_indirect_block
  write_indirect_some fs inode table lt =
      let ne : (inode.indirect_block == invalid_block) ≡ false = ground (arith, lt) in
      (simp (ne, writes, write_indirect_block), simp (ne, write_indirect_block))

  ensure_some :
      (fs : FileSystem D) (i : ℕ) (table : List ℕ) (needs : Bool)
      → IsLaidOut fs
      → (if needs then 0 else 1) ≤ free_count fs
      → ((ensure_indirect ata fs i table needs).1 ≡ true)
        × (free_count (ensure_indirect ata fs i table needs).0 + (if needs then 0 else 1)
            ≡ free_count fs)
  unfolding ensure_indirect
  ensure_some fs i table true h enough = (refl, omega arith)
  ensure_some fs i table false h enough =
      let fs₁ = (allocate_data_block ata fs).0 in
      let (b, e, a, left) = allocate_some fs h enough in
      let x : Inode = record (inode_at fs₁.inodes i) { indirect_block = b } in
      let (ok, same) = write_indirect_some (set_inode fs₁ i x) x table a.taken.0 in
      (
        simp (e, ensure_indirect) ok,
        simp (e, ensure_indirect)
            (subst (λ info. count_free info.data_bitmap data_blocks + 1 ≡ free_count fs) (sym same)
              left),
      )

  -- What a turn of the loop returns, and the blocks it takes: `taken`, and one for the indirect block.
  abbrev pub Turn : FileSystem D → ℕ → ℕ → Bool → FileSystem D × Option (List ℕ × Bool) → Type 0
  Turn fs taken logical needs r =
      (t : List ℕ) × (n : Bool) × (r.1 ≡ some (t, n))
      × (((n ≡ needs) × (logical < direct_count) × (free_count r.0 + taken ≡ free_count fs))
          ⊎ ((n ≡ true)
              × (direct_count ≤ logical)
              × (free_count r.0 + taken + (if needs then 0 else 1) ≡ free_count fs)))

  place_some :
      (fs : FileSystem D) (i logical b : ℕ) (table : List ℕ) (needs : Bool)
      → IsLaidOut fs
      → cost logical needs ≤ free_count fs
      → Turn fs 0 logical needs (place_block ata fs i logical b table needs)
  unfolding place_block
  place_some fs i logical b table needs h enough = elim (Bool-cases (ltb logical direct_count)) [
    | inl below ↦ (
      table,
      needs,
      simp (below, place_block),
      inl (refl, ground (arith, below), simp (below, place_block) (omega arith)),
    )
    | inr above ↦
        let (ok, left) = ensure_some fs i table needs h (
          subst (λ (c : Bool). (if c then 0 else if needs then 0 else 1) ≤ free_count fs) above
            enough) in
        (
          set table (logical - direct_count) b,
          true,
          simp (above, ok, place_block),
          inr (refl, ground (arith, above), simp (above, ok, place_block) (omega (arith, left))),
        )
  ]

  pub write_block_some :
      (fs : FileSystem D) (i logical : ℕ) (table : List ℕ) (needs : Bool) (bytes : List ℕ)
      → IsLaidOut fs
      → cost logical needs + 1 ≤ free_count fs
      → Turn fs 1 logical needs (write_block ata fs i logical table needs bytes)
  unfolding write_block
  write_block_some fs i logical table needs bytes h enough =
      let (b, e, a, left) = allocate_some fs h (omega (arith, enough)) in
      let fs₁ = (allocate_data_block ata fs).0 in
      let d =
        (Ata.write_sectors ata fs₁.disk (block_lba fs₁.info b) 1 (fixed sector_size bytes)).0 in
      let fs₂ : FileSystem D = record fs₁ { disk = d } in
      let (t, n, placed, change) =
        place_some fs₂ i logical b table needs (disk-IsLaidOut fs₁ d a.laid_out)
          (omega (arith, enough, left)) in
      let same : write_block ata fs i logical table needs bytes
          ≡ place_block ata fs₂ i logical b table needs =
        simp (e, writes, write_block) in
      subst (Turn fs 1 logical needs) (sym same) (
        t,
        n,
        placed,
        elim change [
          | inl (u, v, kept) ↦ inl (u, v, omega (arith, kept, left))
          | inr (u, v, kept) ↦ inr (u, v, omega (arith, kept, left))
        ],
      )
