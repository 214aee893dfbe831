-- ===== src/Process.antt =====
-- kernel/process.c: the process table. `Process` is the file's struct, `Kernel` its static variables
-- and `machine` the state of the modules it calls. `processes` has PROCESS_MAX = 8 entries.
pub mod Spawn
pub mod Run
pub mod Wait
pub mod Select
pub mod Table
pub mod Family
pub mod Steps
pub mod Create
pub mod Entries
pub mod Running
pub mod History
pub mod Reap
pub mod Waiting
mod Tests
use os_curriculum_design.Prelude.{
  ℕ, ◌+◌, ◌-◌, Bool, true, false, not, ◌&&◌, Option, none, some, List, [], ◌∷◌, map, if◌then◌else◌,
  ltb, ◌==◌, find_index, get_or, set, replicate, ℤ, pos, negsuc,
}

pub data ProcessState : Type 0 where
  unused ready running waiting zombie : ProcessState

pub record UserContext : Type 0 where
  pub eip : ℕ
  pub user_esp : ℕ
  pub eflags : ℕ
  pub eax : ℕ
  pub ebx : ℕ
  pub ecx : ℕ
  pub edx : ℕ
  pub esi : ℕ
  pub edi : ℕ
  pub ebp : ℕ

pub record Process : Type 0 where
  pub used : Bool
  pub pid : ℕ
  pub parent_pid : ℕ
  pub state : ProcessState
  pub priority : ℕ
  pub name : List ℕ
  pub context : UserContext
  pub page_directory_phys : ℕ
  pub vm_page_bitmap : ℕ
  pub exit_code : ℕ
  pub image_size : ℕ

pub record Kernel (M : Type 0) : Type 0 where
  pub processes : List Process
  pub next_pid : ℕ
  pub current_pid : ℕ
  pub schedule_cursor : ℕ
  pub auto_schedule_enabled : Bool
  pub machine : M

abbrev pub process_max : ℕ
process_max = 8

abbrev pub page_size : ℕ
page_size = 4096

abbrev pub user_code_base : ℕ
user_code_base = 0x0080_0000

abbrev pub user_stack_top : ℕ
user_stack_top = 0xBFFF_0000

abbrev pub user_stack_page : ℕ
user_stack_page = user_stack_top - page_size

abbrev pub user_vm_base : ℕ
user_vm_base = 0x0300_0000

abbrev pub user_vm_page_count : ℕ
user_vm_page_count = 24

abbrev pub priority_default : ℕ
priority_default = 5

abbrev pub priority_max : ℕ
priority_max = 10

abbrev pub zero_context : UserContext
zero_context = record {
  eip = 0;
  user_esp = 0;
  eflags = 0;
  eax = 0;
  ebx = 0;
  ecx = 0;
  edx = 0;
  esi = 0;
  edi = 0;
  ebp = 0;
}

-- What a slot holds before its first use and after `release_process`.
abbrev pub free_process : Process
free_process = record {
  used = false;
  pid = 0;
  parent_pid = 0;
  state = unused;
  priority = priority_default;
  name = [];
  context = zero_context;
  page_directory_phys = 0;
  vm_page_bitmap = 0;
  exit_code = 0;
  image_size = 0;
}

-- What `allocate_process` writes into the slot that it takes.
abbrev pub new_process : ℕ → Process
new_process pid = record free_process {
  used = true;
  pid = pid;
  state = ready;
  context = record zero_context { eip = user_code_base; user_esp = user_stack_top; eflags = 0x202 };
}

abbrev pub is_ready : ProcessState → Bool
is_ready ready = true
is_ready _ = false

abbrev pub is_running : ProcessState → Bool
is_running running = true
is_running _ = false

abbrev pub is_zombie : ProcessState → Bool
is_zombie zombie = true
is_zombie _ = false

abbrev pub process_at : List Process → ℕ → Process
process_at ps slot = get_or ps slot free_process

-- The slot that the pointer returned points to; `none` is a null pointer.
unfoldable pub find_process_by_pid : List Process → ℕ → Option ℕ
find_process_by_pid ps pid = find_index (λ p. p.used && p.pid == pid) ps

unfoldable pub find_unused : List Process → Option ℕ
find_unused ps = find_index (λ p. not p.used) ps

unfoldable pub parent_pid_is_valid : List Process → ℕ → Bool
parent_pid_is_valid ps parent_pid =
    if parent_pid == 0 then true else elim (find_process_by_pid ps parent_pid) [
      | none ↦ false
      | some slot ↦ not (is_zombie (process_at ps slot).state)
    ]

-- One round of the loop of `adopt_children`.
abbrev pub orphan : ℕ → Process → Process
orphan parent_pid p =
    if p.used && p.parent_pid == parent_pid then record p { parent_pid = 0 } else p

unfoldable pub adopt_children : List Process → ℕ → List Process
adopt_children ps parent_pid = if parent_pid == 0 then ps else map (orphan parent_pid) ps

module _ {M : Type 0} where
  -- `process_init`, with a table of statically zeroed entries.
  pub init : M → Kernel M
  init machine = record {
    processes = replicate process_max free_process;
    next_pid = 1;
    current_pid = 0;
    schedule_cursor = 0;
    auto_schedule_enabled = true;
    machine = machine;
  }

  pub set_auto_schedule : Kernel M → Bool → Kernel M
  set_auto_schedule k enabled = record k { auto_schedule_enabled = enabled }

-- The guard on priorities, which are signed in C.
unfoldable pub checked_priority : ℤ → Option ℕ
checked_priority (negsuc n) = none
checked_priority (pos n) = if ltb priority_max n then none else some n
