-- ===== src/Banker/Totals.antt =====
-- Sums of the resources of a table, one kind of resource at a time.
use os_curriculum_design.Prelude.{
  ℕ, ◌+◌, ◌≤◌, ◌<◌, ◌^◌, ◌≡◌, refl, arith, Bool, List, [], ◌∷◌, if◌then◌else◌, ◌↔◌, add32,
}
use os_curriculum_design.Banker.{Resources, BankerProcess, zip_resources, initial_finish}
use os_curriculum_design.Banker.Sequence.{Covers, Finish, Finish.here, Finish.there}

pub data Kind : Type 0 where
  first second third : Kind

abbrev pub amount : Kind → Resources → ℕ
amount first a = a.r0
amount second a = a.r1
amount third a = a.r2

pub amount-zip :
    (k : Kind) (f : ℕ → ℕ → ℕ) (a b : Resources)
    → amount k (zip_resources f a b) ≡ f (amount k a) (amount k b)
amount-zip first f a b = refl
amount-zip second f a b = refl
amount-zip third f a b = refl

pub Covers-iff : (w n : Resources) → Covers w n ↔ ((k : Kind) → amount k n ≤ amount k w)
Covers-iff w n =
    (λ h. elim [ first ↦ h.0 | second ↦ h.1 | third ↦ h.2 ], λ h. (h first, h second, h third))

module _ (k : Kind) where
  -- What the registered processes hold.
  unfoldable pub held : List BankerProcess → ℕ
  held [] = 0
  held (p ∷ ps) = (if p.used then amount k p.allocation else 0) + held ps

  -- What the processes that have not finished hold.
  unfoldable pub outstanding : List BankerProcess → List Bool → ℕ
  outstanding [] fs = 0
  outstanding (p ∷ ps) [] = 0
  outstanding (p ∷ ps) (f ∷ fs) = (if f then 0 else amount k p.allocation) + outstanding ps fs

  pub outstanding-initial_finish :
      (ps : List BankerProcess) → outstanding ps (initial_finish ps) ≡ held ps
  unfolding held outstanding
  outstanding-initial_finish [] = refl
  outstanding-initial_finish (p ∷ ps) = ground (arith, outstanding-initial_finish ps)

  -- A run moves what the process held into `work`; nothing wraps while the total fits 32 bits.
  pub Finish-outstanding :
      {ps : List BankerProcess} {fs gs : List Bool} {w v : Resources}
      → Finish ps fs w gs v
      → amount k w + outstanding ps fs < 2 ^ 32
      → amount k v + outstanding ps gs ≡ amount k w + outstanding ps fs
  unfolding outstanding
  Finish-outstanding (here {p} {ps} {f} {fs} {w} used unfinished covered) fits =
      ground (arith, unfinished, amount-zip k add32 w p.allocation)
  Finish-outstanding (there {p} {ps} {f} {fs} {gs} {w} {v} s) fits =
      ground (arith, Finish-outstanding s)
