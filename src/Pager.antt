-- ===== src/Pager.antt =====
-- mm/pager.c: pages that are brought into memory when they are touched. `Pager` is the file's static
-- variables; `env` is what it works on through mm/vmm.c, mm/pmm.c and drivers/ata.c, and `Machine` the
-- calls it makes of them.
pub mod Victim
pub mod Clock
pub mod Lru
pub mod Keeps
pub mod Swap
pub mod Chosen
pub mod PageIn
pub mod Vacate
pub mod Fault
pub mod Paging
pub mod Register
mod Tests
use os_curriculum_design.Prelude.{
  ℕ, ◌+◌, ◌-◌, ◌*◌, ◌/◌, ◌%◌, Bool, true, false, not, ◌&&◌, ◌||◌, Option, none, some, List, [], ◌∷◌,
  if◌then◌else◌, ltb, leb, ◌==◌, add32, get_or, set, replicate,
}

pub record Machine (E : Type 0) : Type 0 where
  pub disk_is_ready : E → Bool
  pub read_sectors : E → ℕ → ℕ → Option (List ℕ)
  pub write_sectors : E → ℕ → ℕ → List ℕ → E × Bool
  pub read_memory : E → ℕ → List ℕ
  pub write_memory : E → ℕ → List ℕ → E
  pub alloc_page : E → E × ℕ
  pub free_page : E → ℕ → E
  pub page_entry : E → ℕ → ℕ → Option ℕ
  pub clear_accessed : E → ℕ → ℕ → E
  pub map_page : E → ℕ → ℕ → ℕ → ℕ → E × Bool
  pub unmap_page : E → ℕ → ℕ → E
  pub page_directory : E → ℕ

pub data Algorithm : Type 0 where
  clock : Algorithm
  lru : Algorithm

pub record PagerPage : Type 0 where
  pub used : Bool
  pub present : Bool
  pub swapped : Bool
  pub page_directory : ℕ
  pub virt_addr : ℕ
  pub phys_addr : ℕ
  pub flags : ℕ
  pub swap_slot : ℕ
  pub last_used_tick : ℕ
  pub pinned : Bool

pub record Pager (E : Type 0) : Type 0 where
  pub pages : List PagerPage
  pub frames : List ℕ
  pub registered_pages : ℕ
  pub resident_frames : ℕ
  pub clock_hand : ℕ
  pub page_faults : ℕ
  pub evictions : ℕ
  pub swap_ins : ℕ
  pub swap_outs : ℕ
  pub last_fault_addr : ℕ
  pub usage_tick : ℕ
  pub victim_trace : List ℕ
  pub algorithm : Algorithm
  pub ready : Bool
  pub env : E

abbrev pub max_pages : ℕ
max_pages = 128

abbrev pub frame_limit : ℕ
frame_limit = 16

abbrev pub victim_trace_count : ℕ
victim_trace_count = 8

abbrev pub swap_lba_base : ℕ
swap_lba_base = 2048

abbrev pub page_bytes : ℕ
page_bytes = 4096

abbrev pub sectors_per_page : ℕ
sectors_per_page = 8

-- A page entry that is not in use, bound to its own swap slot.
abbrev pub empty_page : ℕ → PagerPage
empty_page slot = record {
  used = false;
  present = false;
  swapped = false;
  page_directory = 0;
  virt_addr = 0;
  phys_addr = 0;
  flags = 0;
  swap_slot = slot;
  last_used_tick = 0;
  pinned = false;
}

abbrev pub page_at : {E : Type 0} → Pager E → ℕ → PagerPage
page_at s i = get_or s.pages i (empty_page 0)

abbrev pub set_page : {E : Type 0} → Pager E → ℕ → PagerPage → Pager E
set_page s i page = record s { pages = set s.pages i page }

-- The page whose data a frame holds.
abbrev pub page_in_frame : {E : Type 0} → Pager E → ℕ → ℕ
page_in_frame s slot = get_or s.frames slot 0

unfoldable pub align_down_page : ℕ → ℕ
align_down_page value = value - value % page_bytes

unfoldable pub swap_lba_for_slot : ℕ → ℕ
swap_lba_for_slot slot = add32 swap_lba_base (slot * sectors_per_page)

-- `mark_page_used`: the tick skips 0 when it wraps around.
unfoldable pub next_tick : ℕ → ℕ
next_tick tick = if add32 tick 1 == 0 then 1 else add32 tick 1

unfoldable pub mark_page_used : {E : Type 0} → Pager E → ℕ → Pager E
mark_page_used s i =
    let tick = next_tick s.usage_tick in
    set_page (record s { usage_tick = tick }) i (record (page_at s i) { last_used_tick = tick })
