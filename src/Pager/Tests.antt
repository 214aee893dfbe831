-- ===== src/Pager/Tests.antt =====
-- Concrete inputs for mm/pager.c, on a machine whose disk, memory and accessed bits are functions.
use os_curriculum_design.Prelude.{
  ℕ, ◌+◌, ◌*◌, ◌≡◌, refl, arith, Bool, true, false, some, List, [], ◌∷◌, if◌then◌else◌, ◌==◌,
  Bool-cases, inl, inr,
}
use os_curriculum_design.Pager.{
  Machine, Pager, PagerPage, clock, page_at, page_in_frame, empty_page,
}
use os_curriculum_design.Pager.Victim.{entry_is_accessed, choose_victim_frame}
use os_curriculum_design.Pager.Clock.{ClearsAccessed}
use os_curriculum_design.Pager.Lru.{choose_victim_frame_spares}

record Env : Type 0 where
  disk : ℕ → List ℕ
  memory : ℕ → List ℕ
  accessed : ℕ → Bool

-- The accessed bit of an address in every directory.
abbrev entry_of : Bool → ℕ
entry_of b = if b then 32 else 0

abbrev machine : Machine Env
machine = record {
  disk_is_ready = λ e. true;
  read_sectors = λ e lba n. some (e.disk lba);
  write_sectors =
      λ e lba n bytes. (record e { disk = λ l. if lba == l then bytes else e.disk l }, true);
  read_memory = λ e phys. e.memory phys;
  write_memory = λ e phys bytes. record e { memory = λ p. if phys == p then bytes else e.memory p };
  alloc_page = λ e. (e, 0x0010_0000);
  free_page = λ e phys. e;
  page_entry = λ e directory addr. some (entry_of (e.accessed addr));
  clear_accessed =
      λ e directory addr. record e { accessed = λ a. if addr == a then false else e.accessed a };
  map_page = λ e directory addr phys flags. (e, true);
  unmap_page = λ e directory addr. e;
  page_directory = λ e. 4096;
}

machine-ClearsAccessed : ClearsAccessed machine
unfolding entry_is_accessed
machine-ClearsAccessed = record {
  cleared = λ e directory addr. let same : (addr == addr) ≡ true = ground arith in rw same refl;
  others = λ e directory addr directory' addr' h. elim (Bool-cases (addr == addr')) [
    | inl same ↦ rw same refl
    | inr other ↦ rw other h
  ];
}

-- A page in memory at an address.
abbrev resident : ℕ → Bool → PagerPage
resident addr pinned = record (empty_page addr) {
  used = true;
  present = true;
  page_directory = 4096;
  virt_addr = addr;
  phys_addr = 4096 * (addr + 1);
  pinned = pinned;
}

-- All frames are taken; the page of the first is pinned and that of the second was touched. The last
-- page is in its swap slot.
abbrev full : Pager Env
full = record {
  pages =
      resident 0 true
      ∷ resident 1 false
      ∷ resident 2 false
      ∷ resident 3 false
      ∷ resident 4 false
      ∷ resident 5 false
      ∷ resident 6 false
      ∷ resident 7 false
      ∷ resident 8 false
      ∷ resident 9 false
      ∷ resident 10 false
      ∷ resident 11 false
      ∷ resident 12 false
      ∷ resident 13 false
      ∷ resident 14 false
      ∷ resident 15 false
      ∷ record (empty_page 16) {
        used = true;
        swapped = true;
        page_directory = 4096;
        virt_addr = 16;
      }
      ∷ [];
  frames = 0 ∷ 1 ∷ 2 ∷ 3 ∷ 4 ∷ 5 ∷ 6 ∷ 7 ∷ 8 ∷ 9 ∷ 10 ∷ 11 ∷ 12 ∷ 13 ∷ 14 ∷ 15 ∷ [];
  registered_pages = 17;
  resident_frames = 16;
  clock_hand = 0;
  page_faults = 16;
  evictions = 0;
  swap_ins = 16;
  swap_outs = 0;
  last_fault_addr = 15;
  usage_tick = 16;
  victim_trace = [];
  algorithm = clock;
  ready = true;
  env = record { disk = λ lba. lba ∷ []; memory = λ phys. phys ∷ []; accessed = λ addr. addr == 1 };
}

choose_victim_frame_spares_example :
    (page_at full (page_in_frame full (choose_victim_frame machine full).1)).pinned ≡ false
choose_victim_frame_spares_example =
    choose_victim_frame_spares machine machine-ClearsAccessed full 5 refl (omega arith)
      (omega arith) refl
