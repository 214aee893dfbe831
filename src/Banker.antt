-- ===== src/Banker.antt =====
-- kernel/banker.c: the banker's algorithm over a table of eight processes and three resources.
-- `Resources` is a `uint32_t[BANKER_RESOURCE_COUNT]`, `Status` the BANKER_* codes of banker.h, and
-- `Banker` the file's static variables. A pid is only compared, so it is any number.
pub mod Sequence
pub mod Totals
pub mod Safety
pub mod Table
pub mod Trial
pub mod Requests
pub mod History
mod Tests
use os_curriculum_design.Prelude.{
  ℕ, zero, suc, Bool, true, false, not, ◌&&◌, ◌||◌, Option, none, some, List, [], ◌∷◌, map,
  if◌then◌else◌, ltb, ◌==◌, add32, sub32, find_index, get_or, set, replicate, length,
}

pub record Resources : Type 0 where
  pub r0 : ℕ
  pub r1 : ℕ
  pub r2 : ℕ

-- A loop `for (r = 0; r < BANKER_RESOURCE_COUNT; r++)` that writes one vector from two.
abbrev pub zip_resources : (ℕ → ℕ → ℕ) → Resources → Resources → Resources
zip_resources f a b = record { r0 = f a.r0 b.r0; r1 = f a.r1 b.r1; r2 = f a.r2 b.r2 }

abbrev pub no_resources : Resources
no_resources = record { r0 = 0; r1 = 0; r2 = 0 }

pub record BankerProcess : Type 0 where
  pub used : Bool
  pub pid : ℕ
  pub max : Resources
  pub allocation : Resources
  pub need : Resources

pub record Banker : Type 0 where
  pub ready : Bool
  pub available : Resources
  pub processes : List BankerProcess

pub data Status : Type 0 where
  ok not_ready no_slot no_process over_need over_available unsafe over_allocated : Status

abbrev pub max_processes : ℕ
max_processes = 8

pub find_slot_by_pid : List BankerProcess → ℕ → Option ℕ
find_slot_by_pid ps pid = find_index (λ p. p.used && p.pid == pid) ps

pub find_free_slot : List BankerProcess → Option ℕ
find_free_slot ps = find_index (λ p. not p.used) ps

pub vector_leq : Resources → Resources → Bool
vector_leq left right =
    if ltb right.r0 left.r0
    then false
    else if ltb right.r1 left.r1
    then false
    else if ltb right.r2 left.r2
    then false
    else true

pub all_finished : List BankerProcess → List Bool → Bool
all_finished [] finish = true
all_finished (p ∷ ps) [] = true
all_finished (p ∷ ps) (f ∷ finish) =
    let rest = all_finished ps finish in if p.used && not f then false else rest

-- The test of the pass: registered, not finished, and its need covered.
pub can_run : BankerProcess → Bool → Resources → Bool
can_run p f work = p.used && not f && vector_leq p.need work

-- The body of the `do` loop: one pass over the table, with `work`, `finish` and `progress` after it.
pub scan_pass : List BankerProcess → List Bool → Resources → Resources × List Bool × Bool
scan_pass [] finish work = (work, finish, false)
scan_pass (p ∷ ps) [] work = (work, [], false)
scan_pass (p ∷ ps) (f ∷ finish) work =
    let runs = can_run p f work in
    let (work', finish', progress) =
      scan_pass ps finish (if runs then zip_resources add32 work p.allocation else work) in
    (work', (if runs then true else f) ∷ finish', runs || progress)

-- `do { … } while (progress)` with fuel; `none` means that the fuel ran out.
pub scan_loop : ℕ → List BankerProcess → List Bool → Resources → Option (Resources × List Bool)
scan_loop zero ps finish work = none
scan_loop (suc fuel) ps finish work =
    let (work', finish', progress) = scan_pass ps finish work in
    elim progress [ true ↦ scan_loop fuel ps finish' work' | false ↦ some (work', finish') ]

abbrev pub initial_finish : List BankerProcess → List Bool
initial_finish = map (λ p. if p.used then false else true)

-- `banker_state_is_safe`. A pass that makes progress finishes a process, so one pass more than
-- there are slots is enough.
pub state_is_safe : Resources → List BankerProcess → Bool
state_is_safe available ps = elim (scan_loop (suc (length ps)) ps (initial_finish ps) available) [
  | none ↦ false
  | some (work, finish) ↦ all_finished ps finish
]

abbrev pub blank_process : BankerProcess
blank_process = record {
  used = false;
  pid = 0;
  max = no_resources;
  allocation = no_resources;
  need = no_resources;
}

-- `banker_init`; every entry of the table is cleared.
pub init : Resources → Banker
init initial_available = record {
  ready = true;
  available = initial_available;
  processes = replicate max_processes blank_process;
}

-- What `banker_register_process` writes into the slot that it takes.
abbrev pub registered : ℕ → Resources → BankerProcess
registered pid max = record {
  used = true;
  pid = pid;
  max = max;
  allocation = no_resources;
  need = max;
}

-- The pid's own slot, or else the first free one.
pub slot_for : List BankerProcess → ℕ → Option ℕ
slot_for ps pid = elim (find_slot_by_pid ps pid) [
  | some slot ↦ some slot
  | none ↦ find_free_slot ps
]

pub register_process : Banker → ℕ → Resources → Banker × Status
register_process b pid max =
    if not b.ready then (b, not_ready) else elim (slot_for b.processes pid) [
      | none ↦ (b, no_slot)
      | some slot ↦ (record b { processes = set b.processes slot (registered pid max) }, ok)
    ]

abbrev pub process_at : Banker → ℕ → BankerProcess
process_at b slot = get_or b.processes slot blank_process

pub unregister_process : Banker → ℕ → Banker
unregister_process b pid = if not b.ready then b else elim (find_slot_by_pid b.processes pid) [
  | none ↦ b
  | some slot ↦ record b {
    available = zip_resources add32 b.available (process_at b slot).allocation;
    processes = set b.processes slot blank_process;
  }
]

-- One process before and after it is given `amount` more, or hands it back.
abbrev pub granted : BankerProcess → Resources → BankerProcess
granted p amount = record p {
  allocation = zip_resources add32 p.allocation amount;
  need = zip_resources sub32 p.need amount;
}

abbrev pub returned : BankerProcess → Resources → BankerProcess
returned p amount = record p {
  allocation = zip_resources sub32 p.allocation amount;
  need = zip_resources add32 p.need amount;
}

-- The trial allocation of `banker_request`.
pub allocate : Banker → ℕ → Resources → Banker
allocate b slot request = record b {
  available = zip_resources sub32 b.available request;
  processes = set b.processes slot (granted (process_at b slot) request);
}

-- The loop that undoes it, and that `banker_release` runs too.
pub give_back : Banker → ℕ → Resources → Banker
give_back b slot amount = record b {
  available = zip_resources add32 b.available amount;
  processes = set b.processes slot (returned (process_at b slot) amount);
}

-- `banker_request` from the point where the slot is known.
pub request_slot : Banker → ℕ → Resources → Banker × Status
request_slot b slot request =
    let trial = allocate b slot request in
    if not (vector_leq request (process_at b slot).need)
    then (b, over_need)
    else if not (vector_leq request b.available)
    then (b, over_available)
    else if not (state_is_safe trial.available trial.processes)
    then (give_back trial slot request, unsafe)
    else (trial, ok)

pub request : Banker → ℕ → Resources → Banker × Status
request b pid amount =
    if not b.ready then (b, not_ready) else elim (find_slot_by_pid b.processes pid) [
      | none ↦ (b, no_process)
      | some slot ↦ request_slot b slot amount
    ]

pub release : Banker → ℕ → Resources → Banker × Status
release b pid amount =
    if not b.ready then (b, not_ready) else elim (find_slot_by_pid b.processes pid) [
      | none ↦ (b, no_process)
      | some slot ↦
          if not (vector_leq amount (process_at b slot).allocation)
          then (b, over_allocated)
          else (give_back b slot amount, ok)
    ]
