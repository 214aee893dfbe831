-- ===== src/Pmm/Ranges.antt =====
-- The loops of `pmm_init` over pages and over the memory map.
use native.Mathlib.Decide.{ℕ_discrete, dec_lt}
use os_curriculum_design.Prelude.{
  ℕ, zero, suc, ◌+◌, ◌-◌, ◌*◌, ◌/◌, ◌^◌, ◌≤◌, ◌<◌, ◌≡◌, refl, subst, ◌∙◌, arith, Bool, true, false,
  some, ltb, ltb→lt, add32, if_both, Bool-cases, inl, inr,
}
use os_curriculum_design.Bitmap.{bitmap_test}
use os_curriculum_design.Pmm.{
  Pmm, page_size, reserve_page, free_page, each_page, reserve_range, free_range, MmapEntry,
  free_entry, free_entries, at_most,
}
use os_curriculum_design.Pmm.Pages.{
  IsValid, IsTaken, Changes, align_up_lem, align_down_lem, reserve_page_lem, free_page_lem,
  free_page_idle, reserve_page_idle, page_out_of_range,
}

-- What every step of the initialisation keeps.
pub record Keeps (s s' : Pmm) : Type 0 where
  pub valid : IsValid s'
  pub pages : s'.total_pages ≡ s.total_pages
  pub base : s'.bitmap_base ≡ s.bitmap_base
  pub size : s'.bitmap_bytes ≡ s.bitmap_bytes

pub Keeps-refl : (s : Pmm) → IsValid s → Keeps s s
Keeps-refl s v = record { valid = v; pages = refl; base = refl; size = refl }

pub Keeps-trans : {s t u : Pmm} → Keeps s t → Keeps t u → Keeps s u
Keeps-trans a b = record {
  valid = b.valid;
  pages = b.pages ∙ a.pages;
  base = b.base ∙ a.base;
  size = b.size ∙ a.size;
}

Keeps-Changes : (s s' : Pmm) (page : ℕ) (bit : Bool) → Changes s s' page bit → Keeps s s'
Keeps-Changes s s' page bit c = record {
  valid = c.valid;
  pages = c.pages;
  base = c.base;
  size = c.size;
}

free_page-Keeps : (s : Pmm) (page : ℕ) → IsValid s → Keeps s (free_page s page)
free_page-Keeps s page v = elim (Bool-cases (bitmap_test s.bitmap page)) [
  | inr free ↦ rw (free_page_idle s page free) (Keeps-refl s v)
  | inl taken ↦ elim (dec_lt page s.total_pages) [
    | yes lt ↦ Keeps-Changes s _ page false (free_page_lem s v page lt taken).0
    | no out ↦ rw ((page_out_of_range s page (omega arith)).0) (Keeps-refl s v)
  ]
]

reserve_page-Keeps : (s : Pmm) (page : ℕ) → IsValid s → Keeps s (reserve_page s page)
reserve_page-Keeps s page v = elim (Bool-cases (bitmap_test s.bitmap page)) [
  | inl taken ↦ rw (reserve_page_idle s page taken) (Keeps-refl s v)
  | inr free ↦ elim (dec_lt page s.total_pages) [
    | yes lt ↦ Keeps-Changes s _ page true (reserve_page_lem s v page lt free).0
    | no out ↦ rw ((page_out_of_range s page (omega arith)).1) (Keeps-refl s v)
  ]
]

each_page-Keeps :
    (f : Pmm → ℕ → Pmm)
    → ((s : Pmm) (page : ℕ) → IsValid s → Keeps s (f s page))
    → (first count : ℕ) (s : Pmm) → IsValid s
    → Keeps s (each_page f first count s)
unfolding each_page
each_page-Keeps f keep first zero s v = Keeps-refl s v
each_page-Keeps f keep first (suc count) s v =
    let k = keep s first v in
    Keeps-trans k (each_page-Keeps f keep (first + 1) count (f s first) k.valid)

pub free_range-Keeps : (s : Pmm) (start end : ℕ) → IsValid s → Keeps s (free_range s start end)
unfolding free_range
free_range-Keeps s start end v =
    if_both (Keeps s) _ _ _ (Keeps-refl s v)
      (if_both (Keeps s) _ _ _ (Keeps-refl s v) (each_page-Keeps free_page free_page-Keeps _ _ s v))

free_entry-Keeps : (s : Pmm) (entry : MmapEntry) → IsValid s → Keeps s (free_entry s entry)
unfolding free_entry
free_entry-Keeps s entry v =
    if_both (Keeps s) _ _ _ (free_range-Keeps s entry.addr_low _ v) (Keeps-refl s v)

pub free_entries-Keeps :
    (memory : ℕ → MmapEntry) (fuel : ℕ) (s : Pmm) (current end : ℕ) (s' : Pmm)
    → IsValid s
    → free_entries memory fuel s current end ≡ some s'
    → Keeps s s'
unfolding free_entries
free_entries-Keeps memory zero s current end s' v e = cc
free_entries-Keeps memory (suc fuel) s current end s' v e = elim (Bool-cases (ltb current end)) [
  | inl more ↦
      let k = free_entry-Keeps s (memory current) v in
      Keeps-trans k
        (free_entries-Keeps memory fuel _ _ end s' k.valid (rw (more, free_entries) at e))
  | inr done ↦ subst (Keeps s) (ground (arith, done, e)) (Keeps-refl s v)
]

-- The addresses that the walk of a memory map comes to: where it begins, and the address after each
-- entry that begins below the end.
pub data IsReached (memory : ℕ → MmapEntry) (first end : ℕ) : ℕ → Type 0 where
  first_entry : IsReached memory first end first
  next_entry :
      {a : ℕ}
      → IsReached memory first end a
      → a < end
      → IsReached memory first end (add32 a (add32 (memory a).size 4))

-- The size of no entry that the walk comes to makes the address wrap round.
abbrev pub IsWalkable : (ℕ → MmapEntry) → ℕ → ℕ → Type 0
IsWalkable memory first end =
    (a : ℕ) → IsReached memory first end a → a < end → a + (memory a).size + 4 < 2 ^ 32

-- With as much fuel as the map has bytes, the walk ends from every address that it comes to.
pub free_entries_total :
    (memory : ℕ → MmapEntry) (fuel : ℕ) (s : Pmm) (first current end : ℕ)
    → IsWalkable memory first end
    → IsReached memory first end current
    → end - current < fuel
    → (s' : Pmm) × (free_entries memory fuel s current end ≡ some s')
unfolding free_entries
free_entries_total memory zero s first current end w reached h = absurd (omega arith)
free_entries_total memory (suc fuel) s first current end w reached h =
    elim (Bool-cases (ltb current end)) [
      | inr done ↦ (s, rw (done, free_entries))
      | inl more ↦
          let lt = ltb→lt current end more in
          let step = w current reached lt in
          rw (more, free_entries)
            (free_entries_total memory fuel _ first _ end w (next_entry reached lt) (omega arith))
    ]

IsTaken-reserve_page :
    (s : Pmm) (page j : ℕ) → IsValid s → IsTaken s j → IsTaken (reserve_page s page) j
IsTaken-reserve_page s page j v old = elim (Bool-cases (bitmap_test s.bitmap page)) [
  | inl taken ↦ rw (reserve_page_idle s page taken) old
  | inr free ↦ elim (dec_lt page s.total_pages) [
    | yes lt ↦ let (c, _) = reserve_page_lem s v page lt free in ground (arith, c.bits j, old)
    | no out ↦ rw ((page_out_of_range s page (omega arith)).1) old
  ]
]

IsTaken-reserved :
    (s : Pmm) (page : ℕ) → IsValid s → page < s.total_pages → IsTaken (reserve_page s page) page
IsTaken-reserved s page v lt = elim (Bool-cases (bitmap_test s.bitmap page)) [
  | inl taken ↦ IsTaken-reserve_page s page page v taken
  | inr free ↦ let (c, _) = reserve_page_lem s v page lt free in ground (arith, c.bits page)
]

each_reserve-old :
    (first count j : ℕ) (s : Pmm)
    → IsValid s
    → IsTaken s j
    → IsTaken (each_page reserve_page first count s) j
unfolding each_page
each_reserve-old first zero j s v old = old
each_reserve-old first (suc count) j s v old =
    each_reserve-old (first + 1) count j (reserve_page s first) (reserve_page-Keeps s first v).valid
      (IsTaken-reserve_page s first j v old)

-- A loop of reservations takes every page that it passes.
each_reserve-IsTaken :
    (first count j : ℕ) (s : Pmm)
    → IsValid s
    → first ≤ j
    → j < first + count
    → j < s.total_pages
    → IsTaken (each_page reserve_page first count s) j
unfolding each_page
each_reserve-IsTaken first zero j s v lo hi lt = absurd (omega arith)
each_reserve-IsTaken first (suc count) j s v lo hi lt =
    let k = reserve_page-Keeps s first v in
    elim (ℕ_discrete first j) [
      | yes e ↦ each_reserve-old (first + 1) count j (reserve_page s first) k.valid (
          subst (λ (i : ℕ). IsTaken (reserve_page s first) i) e
            (IsTaken-reserved s first v (omega arith)))
      | no ne ↦
          each_reserve-IsTaken (first + 1) count j (reserve_page s first) k.valid (omega arith)
            (omega arith) (rw k.pages lt)
    ]

pub reserve_range-Keeps :
    (s : Pmm) (start end : ℕ) → IsValid s → Keeps s (reserve_range s start end)
unfolding reserve_range
reserve_range-Keeps s start end v =
    if_both (Keeps s) _ _ _ (Keeps-refl s v)
      (each_page-Keeps reserve_page reserve_page-Keeps _ _ s v)

reserve_range-each_page :
    (s : Pmm) (end : ℕ)
    → 0 < end
    → end + page_size ≤ 2 ^ 32
    → reserve_range s 0 end
      ≡ each_page reserve_page 0 (at_most s.total_pages ((end + (page_size - 1)) / page_size)) s
unfolding reserve_range
reserve_range-each_page s end pos fits =
    ground (arith, align_down_lem 0 (omega arith), align_up_lem end fits, rounds)
  where
    rounds :
        (end + (page_size - 1)) / page_size * page_size / page_size
        ≡ (end + (page_size - 1)) / page_size
    rounds = omega arith

-- `reserve_range(0, end)` takes every page that begins below `end`.
pub reserve_range-IsTaken :
    (s : Pmm) (end j : ℕ)
    → IsValid s
    → end + page_size ≤ 2 ^ 32
    → j < s.total_pages
    → j * page_size < end
    → IsTaken (reserve_range s 0 end) j
reserve_range-IsTaken s end j v fits lt below =
    rw (reserve_range-each_page s end (omega arith) fits)
      (each_reserve-IsTaken 0 _ j s v (omega arith) (ground arith) lt)
