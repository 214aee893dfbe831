-- ===== src/Pager/Fault.antt =====
-- mm/pager.c: what `page_in` does to the contents of the pages.
use os_curriculum_design.Prelude.{ℕ, ◌<◌, ◌≡◌, true, false, length}
use os_curriculum_design.Pager.{Machine, Pager, page_at}
use os_curriculum_design.Pager.PageIn.{contents}

module _ {E : Type 0} (m : Machine E) where
  -- From `s` to `t` page `i` comes into memory, and what is not there in `t` has the contents it had.
  pub record Restores (s t : Pager E) (i : ℕ) : Type 0 where
    pub present : (page_at t i).present ≡ true
    pub own : contents m t i ≡ contents m s i
    pub kept :
        (j : ℕ)
        → j < length s.pages
        → (page_at t j).present ≡ false
        → contents m t j ≡ contents m s j
