-- ===== src/Pmm/History.antt =====
-- Sequences of allocations and frees: who holds which page.
use mathlib.Core.Bool.{false≢true}
use os_curriculum_design.Prelude.{
  ℕ, ◌+◌, ◌*◌, ◌/◌, ◌%◌, ◌^◌, ◌≤◌, ◌<◌, ◌≡◌, ◌≢◌, refl, sym, subst, ◌∙◌, arith, Bool, true, false,
  Option, some, List, [], ◌∷◌, inl, inr, ◌⊎◌, if◌then◌else◌, ◌==◌, ==_iff, All, length, Bool-cases,
}
use os_curriculum_design.Pmm.{
  Pmm, page_size, bitmap_end, alloc_page, release_page, reserve_page, free_page, MmapEntry,
  MultibootInfo, init,
}
use os_curriculum_design.Pmm.Init.{Booted, init-IsReady}
use os_curriculum_design.Pmm.Pages.{IsTaken, Changes, reserve_page_lem, free_page_lem}
use os_curriculum_design.Pmm.Allocate.{
  IsReady, Allocates, alloc_page_cases, release_page_accepted, Changes-IsReady, bitmap_end-same,
}

-- An address that the allocator has handed out.
pub record IsHeld (s : Pmm) (a : ℕ) : Type 0 where
  pub aligned : a % page_size ≡ 0
  pub above : bitmap_end s ≤ a
  pub in_range : a / page_size < s.total_pages
  pub taken : IsTaken s (a / page_size)

abbrev Absent : ℕ → List ℕ → Type 0
Absent a = All (λ x. a ≢ x)

abbrev pub Distinct : List ℕ → Type 0
Distinct [] = Unit {0}
Distinct (x ∷ xs) = Absent x xs × Distinct xs

abbrev pub Elem : ℕ → List ℕ → Type 0
Elem a [] = ⊥
Elem a (x ∷ xs) = (a ≡ x) ⊎ Elem a xs

-- The list without the first `a`.
pub remove : ℕ → List ℕ → List ℕ
remove a [] = []
remove a (x ∷ xs) = if a == x then xs else x ∷ remove a xs

-- What some callers hold after they allocated and freed from `s₀` on; each frees only what is held.
pub data Reach (s₀ : Pmm) : Pmm → List ℕ → Type 0 where
  start : Reach s₀ s₀ []
  allocates :
      {s : Pmm} {held : List ℕ}
      → Reach s₀ s held
      → (alloc_page s).1 ≢ 0
      → Reach s₀ (alloc_page s).0 ((alloc_page s).1 ∷ held)
  frees :
      {s : Pmm} {held : List ℕ} (a : ℕ)
      → Reach s₀ s held
      → Elem a held
      → Reach s₀ (release_page s a) (remove a held)

All-remove : (P : ℕ → Type 0) (a : ℕ) (xs : List ℕ) → All P xs → All P (remove a xs)
unfolding remove
All-remove P a [] h = tt
All-remove P a (x ∷ xs) h = elim (Bool-cases (a == x)) [
  | inl e ↦ rw e h.1
  | inr e ↦ rw e (h.0, All-remove P a xs h.1)
]

Absent-remove : (a : ℕ) (xs : List ℕ) → Distinct xs → Absent a (remove a xs)
unfolding remove
Absent-remove a [] d = tt
Absent-remove a (x ∷ xs) d = elim (Bool-cases (a == x)) [
  | inl e ↦ rw e (subst (λ (y : ℕ). Absent y xs) (sym ((==_iff a x).0 e)) d.0)
  | inr e ↦ rw e ((λ q. cc (e, (==_iff a x).1 q)), Absent-remove a xs d.1)
]

Distinct-remove : (a : ℕ) (xs : List ℕ) → Distinct xs → Distinct (remove a xs)
unfolding remove
Distinct-remove a [] d = tt
Distinct-remove a (x ∷ xs) d = elim (Bool-cases (a == x)) [
  | inl e ↦ rw e d.1
  | inr e ↦ rw e (All-remove (λ y. x ≢ y) a xs d.0, Distinct-remove a xs d.1)
]

length-remove : (a : ℕ) (xs : List ℕ) → Elem a xs → length (remove a xs) + 1 ≡ length xs
unfolding remove
length-remove a [] h = absurd h
length-remove a (x ∷ xs) (inl e) = ground (arith, e)
length-remove a (x ∷ xs) (inr h) = ground (arith, length-remove a xs h)

All-Elem : (P : ℕ → Type 0) (a : ℕ) (xs : List ℕ) → All P xs → Elem a xs → P a
All-Elem P a [] h m = absurd m
All-Elem P a (x ∷ xs) h (inl e) = subst P (sym e) h.0
All-Elem P a (x ∷ xs) h (inr m) = All-Elem P a xs h.1 m

All-map : (P Q : ℕ → Type 0) (xs : List ℕ) → ((x : ℕ) → P x → Q x) → All P xs → All Q xs
All-map P Q [] f h = tt
All-map P Q (x ∷ xs) f h = (f x h.0, All-map P Q xs f h.1)

All-both : (P Q : ℕ → Type 0) (xs : List ℕ) → All P xs → All Q xs → All (λ x. P x × Q x) xs
All-both P Q [] p q = tt
All-both P Q (x ∷ xs) p q = ((p.0, q.0), All-both P Q xs p.1 q.1)

-- What is held stays held while another page changes.
IsHeld-kept :
    (s s' : Pmm) (page : ℕ) (bit : Bool)
    → Changes s s' page bit
    → (a : ℕ) → IsHeld s a
    → (bit ≡ true) ⊎ (page ≢ a / page_size)
    → IsHeld s' a
IsHeld-kept s s' page bit c a h other = record {
  aligned = h.aligned;
  above = rw (bitmap_end-same s s' c.base c.size) h.above;
  in_range = rw c.pages h.in_range;
  taken = ground (arith, c.bits (a / page_size), h.taken, other);
}

-- The state and the list of held addresses fit together: the allocator is ready, its bitmap lies where
-- it lay in `s₀`, every address is one that it handed out, no two are the same, and with the free
-- pages they add up to the pages free in `s₀`.
pub record Fits (s₀ s : Pmm) (held : List ℕ) : Type 0 where
  pub is_ready : IsReady s
  pub pages : All (IsHeld s) held
  pub distinct : Distinct held
  pub counted : s.free_pages + length held ≡ s₀.free_pages
  pub base : s.bitmap_base ≡ s₀.bitmap_base
  pub size : s.bitmap_bytes ≡ s₀.bitmap_bytes

reserve_page-Fits :
    (s₀ s : Pmm) (held : List ℕ) (page : ℕ)
    → Fits s₀ s held
    → Allocates s page
    → Fits s₀ (reserve_page s page) (page * page_size ∷ held)
reserve_page-Fits s₀ s held page f a =
    let r = f.is_ready in
    let lt = a.in_range in
    let (c, one_less) = reserve_page_lem s r.valid page lt a.was_free in
    let above = a.above in
    let back : page * page_size / page_size ≡ page = omega arith in
    let same_end = bitmap_end-same s (reserve_page s page) c.base c.size in
    record {
      is_ready = Changes-IsReady s _ page true r c (inl refl);
      pages = (
        record {
          aligned = omega arith;
          above = rw same_end above;
          in_range = rw (back, c.pages) lt;
          taken = rw back (ground (arith, c.bits page));
        },
        All-map (IsHeld s) (IsHeld (reserve_page s page)) held
            (λ x h. IsHeld-kept s _ page true c x h (inl refl)) f.pages,
      );
      distinct = (All-map (IsHeld s) (λ x. page * page_size ≢ x) held new f.pages, f.distinct);
      counted = omega (arith, one_less, f.counted);
      base = c.base ∙ f.base;
      size = c.size ∙ f.size;
    }
  where
    new : (x : ℕ) → IsHeld s x → page * page_size ≢ x
    new x h e =
        let same : page ≡ x / page_size = omega arith in
        false≢true (sym a.was_free ∙ subst (IsTaken s) (sym same) h.taken)

release_page-Fits :
    (s₀ s : Pmm) (held : List ℕ) (a : ℕ)
    → Fits s₀ s held
    → Elem a held
    → Fits s₀ (release_page s a) (remove a held)
release_page-Fits s₀ s held a f m =
    let h = All-Elem (IsHeld s) a held f.pages m in
    let r = f.is_ready in
    let page = a / page_size in
    let small = r.valid.small in
    let lt = h.in_range in
    let word : a < 2 ^ 32 = omega arith in
    let (c, one_more) = free_page_lem s r.valid page lt h.taken in
    rw (release_page_accepted s a r word h.aligned h.above) (record {
      is_ready = Changes-IsReady s _ page false r c (inr (omega (arith, h.above, h.aligned)));
      pages =
          All-map (λ x. IsHeld s x × (a ≢ x)) (IsHeld (free_page s page)) (remove a held)
            (λ x o.
              IsHeld-kept s _ page false c x o.0
                (inr (λ e. o.1 (omega (arith, h.aligned, o.0.aligned, e)))))
            (All-both (IsHeld s) (λ x. a ≢ x) (remove a held) (All-remove (IsHeld s) a held f.pages)
              (Absent-remove a held f.distinct));
      distinct = Distinct-remove a held f.distinct;
      counted = omega (arith, one_more, length-remove a held m, f.counted);
      base = c.base ∙ f.base;
      size = c.size ∙ f.size;
    })

ready-Fits : (s₀ s : Pmm) (held : List ℕ) → IsReady s₀ → Reach s₀ s held → Fits s₀ s held
ready-Fits s₀ _ _ r start = record {
  is_ready = r;
  pages = tt;
  distinct = tt;
  counted = omega arith;
  base = refl;
  size = refl;
}
ready-Fits s₀ _ _ r (allocates {s} {held} before ne) =
    let f = ready-Fits s₀ s held r before in
    elim (alloc_page_cases s f.is_ready) [
      | inl (full, e) ↦ absurd (ne (ground (arith, e)))
      | inr (some_free, (page, a)) ↦ rw a.result (reserve_page-Fits s₀ s held page f a)
    ]
ready-Fits s₀ _ _ r (frees {s} {held} a before m) =
    release_page-Fits s₀ s held a (ready-Fits s₀ s held r before) m

-- Of callers that allocate and free after `pmm_init` ended, with the end of the kernel image above 0
-- and at most 2 GiB, and that free only addresses that they hold: the addresses held at the same
-- time are distinct, page-aligned, at or above the end of the kernel image and of the bitmap, in
-- the managed memory and marked as taken, and with the free pages they add up to the pages that
-- were free at the start.
pub Reach-Fits :
    (memory : ℕ → MmapEntry) (fuel kernel_end magic : ℕ) (info : Option MultibootInfo) (s₀ s : Pmm)
    (held : List ℕ)
    → 0 < kernel_end
    → kernel_end ≤ 0x8000_0000
    → init memory fuel kernel_end magic info ≡ some s₀
    → Reach s₀ s held
    → Fits s₀ s held × All (λ a. (kernel_end ≤ a) × (s.bitmap_base + s.bitmap_bytes ≤ a)) held
Reach-Fits memory fuel kernel_end magic info s₀ s held pos low ran r =
    let (b, _) = init-IsReady memory fuel kernel_end magic info s₀ pos low ran in
    let f = ready-Fits s₀ s held b.is_ready r in
    (f, All-map (IsHeld s) _ held (λ a h. outside b f a h) f.pages)
  where
    outside :
        Booted kernel_end s₀
        → Fits s₀ s held
        → (a : ℕ) → IsHeld s a
        → (kernel_end ≤ a) × (s.bitmap_base + s.bitmap_bytes ≤ a)
    outside b f a h =
        let same_end = bitmap_end-same s₀ s f.base f.size in
        (
          omega (arith, same_end, h.above, b.kernel, b.bitmap),
          omega (arith, same_end, h.above, b.bitmap, f.base, f.size),
        )
