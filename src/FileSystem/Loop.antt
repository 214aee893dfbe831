-- ===== src/FileSystem/Loop.antt =====
-- fs/simplefs.c: one turn of the loop of `write_inode_data` that ends well writes one more block of the
-- data, and so the whole loop writes them all.
use os_curriculum_design.Prelude.{
  ℕ, suc, ◌+◌, ◌-◌, ◌<◌, ◌≡◌, ◌≢◌, ◌⊎◌, inl, inr, refl, sym, subst, arith, Bool, true, false, none,
  some, List, set, get_or-set_self, Bool-cases, ltb, ltb→lt, ◌==◌,
}
use os_curriculum_design.Bitmap.{bitmap_test}
use os_curriculum_design.FileSystem.{
  Ata, FileSystem, Inode, direct_count, indirect_entries, invalid_block, max_inodes, zero_inode,
}
use os_curriculum_design.FileSystem.Layout.{bytes_of_words}
use os_curriculum_design.FileSystem.Blocks.{
  block_lba, inode_at, set_inode, allocate_data_block, write_indirect_block,
}
use os_curriculum_design.FileSystem.Inodes.{ensure_indirect, place_block}
use os_curriculum_design.FileSystem.Store.{
  IsReliable, IsLaidOut, Taken, Keeps, Holds-Keeps, Allocated, write-Keeps,
  allocate_data_block-cases, disk-IsLaidOut, Taken-ne_free,
}
use os_curriculum_design.FileSystem.Place.{
  sector_of, inode_IsLaidOut, Written, Pending, place_direct, place_indirect,
}

module _ {D : Type 0} (ata : Ata D) (reliable : IsReliable ata) where
  -- The indirect pointer is set to a block that was free.
  point_indirect :
      (fs fs₁ : FileSystem D) (inode : Inode) (table : List ℕ) (logical : ℕ) (bytes : List ℕ)
      (b ib : ℕ) (sector : List ℕ)
      → Written ata fs inode table false logical bytes
      → Pending ata fs inode b sector
      → bitmap_test fs.info.data_bitmap ib ≡ false
      → Keeps ata fs fs₁
      → IsLaidOut fs₁
      → Taken fs₁ ib
      → Written ata fs₁ (record inode { indirect_block = ib }) table true logical bytes
        × Pending ata fs₁ (record inode { indirect_block = ib }) b sector
  point_indirect fs fs₁ inode table logical bytes b ib sector w p free keeps laid_out taken =
      let apart : (x : ℕ) → Taken fs x → x ≢ ib = λ x t. Taken-ne_free fs x ib t free in
      (
        record {
          laid_out = laid_out;
          direct = w.direct;
          entries = w.entries;
          words = w.words;
          made = λ e. taken;
          unmade = λ e. cc;
          few = λ e. cc;
          stored = λ j lt.
              let (holds, other) = w.stored j lt in
              (Holds-Keeps ata fs fs₁ _ _ keeps holds, apart _ holds.0);
        },
        record { holds = Holds-Keeps ata fs fs₁ b sector keeps p.holds; fresh = apart b p.holds.0 },
      )

  module _ (fs : FileSystem D) (i : ℕ) (lt : i < max_inodes) (table : List ℕ) (logical : ℕ)
      (bytes : List ℕ) (b : ℕ) (sector : List ℕ) where
    abbrev pub Progress : FileSystem D → List ℕ → Bool → ℕ → Type 0
    Progress f t n l = Written ata f (inode_at f.inodes i) t n l bytes

    abbrev pub Waiting : FileSystem D → Type 0
    Waiting f = Pending ata f (inode_at f.inodes i) b sector

    inode_at-set : (f : FileSystem D) (x : Inode) → IsLaidOut f → inode_at (set f.inodes i x) i ≡ x
    inode_at-set f x laid_out =
        get_or-set_self f.inodes i x zero_inode (omega (arith, lt, laid_out.inodes))

    -- The state after the indirect block was made and written.
    abbrev with_indirect : FileSystem D → ℕ → FileSystem D
    with_indirect f ib =
        let f₁ = set_inode f i (record (inode_at f.inodes i) { indirect_block = ib }) in
        record f₁ {
          disk = (Ata.write_sectors ata f₁.disk (block_lba f₁.info ib) 1 (bytes_of_words table)).0;
        }

    with_indirect-Written :
        (fs₁ : FileSystem D) (ib : ℕ)
        → Progress fs table false logical
        → Waiting fs
        → Allocated ata fs fs₁ ib
        → Progress (with_indirect fs₁ ib) table true logical × Waiting (with_indirect fs₁ ib)
    with_indirect-Written fs₁ ib w p a =
        let same =
          inode_at-set fs₁ (record (inode_at fs₁.inodes i) { indirect_block = ib }) a.laid_out in
        let laid_out =
          inode_IsLaidOut fs₁ i (record (inode_at fs₁.inodes i) { indirect_block = ib })
            a.laid_out in
        let keeps =
          write-Keeps ata reliable fs
            (set_inode fs₁ i (record (inode_at fs₁.inodes i) { indirect_block = ib })) ib
            (bytes_of_words table) a.keeps laid_out a.taken.0 a.free in
        subst
          (λ x.
            Written ata (with_indirect fs₁ ib) x table true logical bytes
            × Pending ata (with_indirect fs₁ ib) x b sector)
          (rw (same, a.same_inodes) refl)
          (point_indirect fs (with_indirect fs₁ ib) (inode_at fs.inodes i) table logical bytes b ib
            sector w p a.free keeps (disk-IsLaidOut _ _ laid_out) a.taken)

    ensure_indirect-Written :
        (needs : Bool)
        → Progress fs table needs logical
        → Waiting fs
        → (ensure_indirect ata fs i table needs).1 ≡ true
        → Progress (ensure_indirect ata fs i table needs).0 table true logical
          × Waiting (ensure_indirect ata fs i table needs).0
    unfolding ensure_indirect write_indirect_block
    ensure_indirect-Written true w p e = (w, p)
    ensure_indirect-Written false w p e =
        elim (allocate_data_block-cases ata reliable fs w.laid_out) [
          | inl failed ↦ absurd (ground (arith, failed, e))
          | inr (ib, made, a) ↦
              let ne : (ib == invalid_block) ≡ false = ground (arith, a.taken.0) in
              subst (λ f. Progress f table true logical × Waiting f)
                (simp (made, ne, ensure_indirect, write_indirect_block))
                (with_indirect-Written (allocate_data_block ata fs).0 ib w p a)
        ]

    -- `place_block` notes the waiting block, or jumps to `fail`.
    pub place_block-cases :
        (needs : Bool)
        → sector ≡ sector_of bytes logical
        → logical < direct_count + indirect_entries
        → Progress fs table needs logical
        → Waiting fs
        → ((place_block ata fs i logical b table needs).1 ≡ none)
          ⊎ ((t : List ℕ) × (n : Bool) × ((place_block ata fs i logical b table needs).1
                ≡ some (t, n))
              × Progress (place_block ata fs i logical b table needs).0 t n (suc logical))
    unfolding place_block
    place_block-cases needs same few w p₀ =
        let inode = inode_at fs.inodes i in
        let p = subst (λ s. Pending ata fs inode b s) same p₀ in
        elim (Bool-cases (ltb logical direct_count)) [
          | inl below ↦
              let x = record inode { direct_blocks = set inode.direct_blocks logical b } in
              inr (
                table,
                needs,
                simp (below, place_block),
                subst (λ f. Progress f table needs (suc logical)) (simp (below, place_block))
                    (subst (λ q. Written ata (set_inode fs i x) q table needs (suc logical) bytes)
                      (sym (inode_at-set fs x w.laid_out))
                      (place_direct ata fs inode table needs logical bytes b w p
                        (ltb→lt logical direct_count below) (set_inode fs i x)
                        (λ k taken. (taken, refl)) (inode_IsLaidOut fs i x w.laid_out))),
              )
          | inr above ↦ elim (Bool-cases (ensure_indirect ata fs i table needs).1) [
            | inr bad ↦ inl (simp (above, bad, place_block))
            | inl ok ↦
                let (w₁, p₁) = ensure_indirect-Written needs w p₀ ok in
                let fs₁ = (ensure_indirect ata fs i table needs).0 in
                inr (
                  set table (logical - direct_count) b,
                  true,
                  simp (above, ok, place_block),
                  subst (λ f. Progress f (set table (logical - direct_count) b) true (suc logical))
                      (simp (above, ok, place_block))
                      (place_indirect ata fs₁ (inode_at fs₁.inodes i) table true logical bytes b w₁
                        (subst (λ s. Pending ata fs₁ (inode_at fs₁.inodes i) b s) same p₁)
                        (ground (arith, above)) few refl),
                )
          ]
        ]
