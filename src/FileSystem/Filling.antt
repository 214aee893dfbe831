-- ===== src/FileSystem/Filling.antt =====
-- fs/simplefs.c: the whole loop of `write_inode_data`.
use os_curriculum_design.Prelude.{
  ℕ, zero, suc, ◌+◌, ◌*◌, ◌≤◌, ◌<◌, ◌≡◌, ◌⊎◌, inl, inr, refl, sym, ap, subst, arith, Bool, true,
  none, some, List, [], ◌∷◌, length, drop, drop-drop, Bool-cases,
}
use os_curriculum_design.FileSystem.{
  Ata, FileSystem, sector_size, direct_count, indirect_entries, max_inodes,
}
use os_curriculum_design.FileSystem.Layout.{fixed}
use os_curriculum_design.FileSystem.Blocks.{block_lba, inode_at, allocate_data_block}
use os_curriculum_design.FileSystem.Inodes.{write_block, write_blocks}
use os_curriculum_design.FileSystem.Store.{
  IsReliable, Allocated, write-Keeps, allocate_data_block-cases, disk-IsLaidOut, block_lba_lem,
  Taken-ne_free,
}
use os_curriculum_design.FileSystem.Place.{sector_of, Written, Pending, Written-Keeps}
use os_curriculum_design.FileSystem.Loop.{place_block-cases}

pub length-fixed : (n : ℕ) (bytes : List ℕ) → length (fixed n bytes) ≡ n
unfolding fixed
length-fixed zero bytes = refl
length-fixed (suc n) [] = ap suc (length-fixed n [])
length-fixed (suc n) (b ∷ bytes) = ap suc (length-fixed n bytes)

module _ {D : Type 0} (ata : Ata D) (reliable : IsReliable ata) (i : ℕ) (lt : i < max_inodes)
    (bytes : List ℕ) where
  -- Blocks up to `logical` are written, as the inode and the table have it.
  abbrev pub Filled : FileSystem D → List ℕ → Bool → ℕ → Type 0
  Filled fs t n l = Written ata fs (inode_at fs.inodes i) t n l bytes

  module _ (fs : FileSystem D) (table : List ℕ) (needs : Bool) (logical : ℕ) where
    -- The state in which a block was allocated and its data written.
    abbrev pub with_data : FileSystem D → ℕ → FileSystem D
    with_data f b = record f {
      disk = (Ata.write_sectors ata f.disk (block_lba f.info b) 1 (sector_of bytes logical)).0;
    }

    pub with_data-Written :
        (fs₁ : FileSystem D) (b : ℕ)
        → Filled fs table needs logical
        → Allocated ata fs fs₁ b
        → Filled (with_data fs₁ b) table needs logical
    with_data-Written fs₁ b w a =
        let keeps =
          write-Keeps ata reliable fs fs₁ b (sector_of bytes logical) a.keeps a.laid_out a.taken.0
            a.free in
        subst (λ x. Written ata (with_data fs₁ b) (inode_at x i) table needs logical bytes)
          (sym a.same_inodes)
          (Written-Keeps ata fs (with_data fs₁ b) (inode_at fs.inodes i) table needs logical bytes
            keeps (disk-IsLaidOut fs₁ _ a.laid_out) w)

    with_data-Pending :
        (fs₁ : FileSystem D) (b : ℕ)
        → Filled fs table needs logical
        → Allocated ata fs fs₁ b
        → (Ata.write_sectors ata fs₁.disk (block_lba fs₁.info b) 1 (sector_of bytes logical)).1
          ≡ true
        → Pending ata (with_data fs₁ b) (inode_at fs₁.inodes i) b (sector_of bytes logical)
    with_data-Pending fs₁ b w a ok =
        let at = block_lba_lem ata fs₁.info b a.laid_out.data_start a.taken.0 in
        let back =
          reliable.read_back fs₁.disk (block_lba fs₁.info b) (sector_of bytes logical)
            (length-fixed sector_size _) ok in
        record {
          holds = (
            a.taken,
            subst
                (λ q.
                  Ata.read_sectors ata (with_data fs₁ b).disk q 1 ≡ some (sector_of bytes logical))
                at back,
          );
          fresh = elim (Bool-cases needs) [
            | inl made ↦ λ e. Taken-ne_free fs _ b (w.made made) a.free (rw (e, a.same_inodes) refl)
            | inr unmade ↦ λ e. absurd (
                omega (
                  arith,
                  e,
                  ap (λ x. (inode_at x i).indirect_block) a.same_inodes,
                  w.unmade unmade,
                  a.taken.0,
                ))
          ];
        }

    pub write_block-cases :
        logical < direct_count + indirect_entries
        → Filled fs table needs logical
        → ((write_block ata fs i logical table needs (drop (logical * sector_size) bytes)).1 ≡ none)
          ⊎ ((t : List ℕ) × (n : Bool) × ((write_block ata fs i logical table needs
                  (drop (logical * sector_size) bytes)).1
                ≡ some (t, n))
              × Filled
                  (write_block ata fs i logical table needs (drop (logical * sector_size) bytes)).0
                  t
                  n
                  (suc logical))
    unfolding write_block
    write_block-cases few w = elim (allocate_data_block-cases ata reliable fs w.laid_out) [
      | inl none_left ↦ inl (simp (none_left, write_block))
      | inr (b, made, a) ↦
          let fs₁ = (allocate_data_block ata fs).0 in
          elim (Bool-cases
            (Ata.write_sectors ata fs₁.disk (block_lba fs₁.info b) 1 (sector_of bytes logical)).1) [
              | inr failed ↦ inl (simp (made, failed, write_block))
              | inl ok ↦
                  elim (place_block-cases ata reliable (with_data fs₁ b) i lt table logical bytes b
                    (sector_of bytes logical) needs refl few (with_data-Written fs₁ b w a)
                    (with_data-Pending fs₁ b w a ok)) [
                      | inl e ↦ inl (simp (made, ok, e, write_block))
                      | inr (t, n, e, w₁) ↦ inr (
                        t,
                        n,
                        simp (made, ok, e, write_block),
                        subst (λ f. Filled f t n (suc logical)) (simp (made, ok, write_block)) w₁,
                      )
                    ]
            ]
    ]

  -- The loop writes every block, or jumps to `fail`.
  pub write_blocks-cases :
      (count : ℕ) (fs : FileSystem D) (table : List ℕ) (needs : Bool) (logical : ℕ)
      → logical + count ≤ direct_count + indirect_entries
      → Filled fs table needs logical
      → ((write_blocks ata count fs i logical table needs (drop (logical * sector_size) bytes)).1
          ≡ none)
        ⊎ ((t : List ℕ) × (n : Bool) × ((write_blocks ata count fs i logical table needs
                (drop (logical * sector_size) bytes)).1
              ≡ some (t, n))
            × Filled
                (write_blocks ata count fs i logical table needs
                  (drop (logical * sector_size) bytes)).0
                t
                n
                (logical + count))
  unfolding write_blocks
  write_blocks-cases zero fs table needs logical few w =
      inr (table, needs, refl, subst (λ l. Filled fs table needs l) (omega arith) w)
  write_blocks-cases (suc count) fs table needs logical few w =
      let fs₁ = (write_block ata fs i logical table needs (drop (logical * sector_size) bytes)).0 in
      let next : drop sector_size (drop (logical * sector_size) bytes)
          ≡ drop (suc logical * sector_size) bytes =
        drop-drop sector_size (logical * sector_size) (suc logical * sector_size) bytes
          (omega arith) in
      elim (write_block-cases fs table needs logical (omega arith) w) [
        | inl e ↦ inl (simp (e, write_blocks))
        | inr (t, n, e, w₁) ↦
            elim (write_blocks-cases count fs₁ t n (suc logical) (omega arith) w₁) [
              | inl e₁ ↦ inl (simp (e, next, e₁, write_blocks))
              | inr (t₁, n₁, e₁, w₂) ↦ inr (
                t₁,
                n₁,
                simp (e, next, e₁, write_blocks),
                subst (λ f. Filled f t₁ n₁ (logical + suc count)) (simp (e, next, write_blocks))
                    (subst
                      (λ l.
                        Filled
                          (write_blocks ata count fs₁ i (suc logical) t n
                            (drop (suc logical * sector_size) bytes)).0
                          t₁ n₁ l)
                      (omega arith) w₂),
              )
            ]
      ]
