-- ===== src/Process/Run.antt =====
-- kernel/process.c: running, scheduling and releasing processes.
use Prim.Native.Nat.{bit_and}
use os_curriculum_design.Prelude.{
  ℕ, zero, suc, ◌+◌, ◌*◌, ◌%◌, ◌^◌, Bool, true, false, not, ◌&&◌, ◌||◌, Option, none, some, List,
  [], ◌∷◌, if◌then◌else◌, ltb, ◌==◌, set, find_index,
}
use os_curriculum_design.Timer.{Timer, take_schedule_event}
use os_curriculum_design.Process.{
  UserContext, Process, Kernel, ready, running, zombie, is_ready, is_running, process_at,
  find_process_by_pid, adopt_children, free_process, process_max, page_size, user_code_base,
  user_stack_page, user_vm_base, user_vm_page_count,
}
use os_curriculum_design.Process.Spawn.{Services, spawn_builtin_child, vm_alloc_page}

-- What `usermode_enter_context` returns for SYS_YIELD and for a preemption.
abbrev pub return_yield : ℕ
return_yield = 0xFFFF_FFFE

-- What a process can make happen in the kernel while it runs: the two system calls that the process
-- module handles, the registers saved when it yields or is preempted, and calls and page faults that
-- other modules handle.
pub data Event (M : Type 0) : Type 0 where
  spawns_app : ℕ → Event M
  allocates_page : ℕ → Event M
  saves_frame : UserContext → Event M
  changes_machine : (M → M) → Event M

-- `process_save_yield_frame` with the registers of the frame.
unfoldable pub save_yield_frame : {M : Type 0} → Kernel M → UserContext → Kernel M
save_yield_frame k frame =
    if k.current_pid == 0 then k else elim (find_process_by_pid k.processes k.current_pid) [
      | none ↦ k
      | some slot ↦ record k {
        processes = set k.processes slot (record (process_at k.processes slot) { context = frame });
      }
    ]

-- The `for` loop of `select_next_ready_process` from `offset` on, with `count` rounds to go and the
-- slot and priority of the best so far. C starts with a priority below every other one.
abbrev pub better : Option (ℕ × ℕ) → Process → Bool
better none p = p.used && is_ready p.state
better (some (slot, best)) p = p.used && is_ready p.state && ltb best p.priority

unfoldable pub select_loop : List Process → ℕ → ℕ → ℕ → Option (ℕ × ℕ) → Option (ℕ × ℕ)
select_loop ps cursor offset zero best = best
select_loop ps cursor offset (suc count) best =
    let i = (cursor + offset) % process_max in
    let p = process_at ps i in
    select_loop ps cursor (offset + 1) count (if better best p then some (i, p.priority) else best)

unfoldable pub select_next_ready_process : List Process → ℕ → Option ℕ
select_next_ready_process ps cursor = elim (select_loop ps cursor 0 process_max none) [
  | none ↦ none
  | some (slot, priority) ↦ some slot
]

unfoldable pub has_ready : List Process → Bool
has_ready ps = elim (find_index (λ p. p.used && is_ready p.state) ps) [
  | none ↦ false
  | some slot ↦ true
]

-- The answer of `process_preempt_if_needed`, before it leaves user mode: whether it does, with the
-- timer after it. `cs` is the code segment of the interrupted code.
unfoldable pub preempt_if_needed :
    {M : Type 0} → Kernel M → Timer → UserContext → ℕ → Kernel M × Timer × Bool
preempt_if_needed k t frame cs =
    let (t', taken) = take_schedule_event t in
    if k.current_pid == 0 || not (cs % 4 == 3)
    then (k, t, false)
    else if not taken
    then (k, t', false)
    else if not (has_ready k.processes)
    then (k, t', false)
    else (save_yield_frame k frame, t', true)

module _ {M : Type 0} (sv : Services M) where
  unfoldable pub happens : Kernel M → Event M → Kernel M
  happens k (spawns_app app_id) = (spawn_builtin_child sv k app_id).0
  happens k (allocates_page page_index) = (vm_alloc_page sv k page_index).0
  happens k (saves_frame frame) = save_yield_frame k frame
  happens k (changes_machine f) = record k { machine = f k.machine }

  unfoldable pub all_happen : Kernel M → List (Event M) → Kernel M
  all_happen k [] = k
  all_happen k (e ∷ es) = all_happen (happens k e) es

  -- The end of `process_run`, for the process in `slot`, back in the kernel's page directory.
  unfoldable pub leave : Kernel M → ℕ → ℕ → ℕ → Kernel M
  leave k slot kernel_page_directory result =
      let p = process_at k.processes slot in
      let machine = (Services.switch_page_directory sv k.machine kernel_page_directory).0 in
      let processes =
        if result == return_yield
        then set k.processes slot (record p { state = ready })
        else adopt_children (set k.processes slot (record p { state = zombie; exit_code = result }))
            p.pid in
      record k { processes = processes; current_pid = 0; machine = machine }

  -- `process_run`, the process making `events` happen before it comes back with `result`.
  unfoldable pub run : Kernel M → ℕ → List (Event M) → ℕ → Kernel M × Bool
  run k pid events result = elim (find_process_by_pid k.processes pid) [
    | none ↦ (k, false)
    | some slot ↦
        let p = process_at k.processes slot in
        let kernel_page_directory = Services.get_kernel_page_directory sv k.machine in
        let (m, switched) = Services.switch_page_directory sv k.machine p.page_directory_phys in
        let entered = record k {
          processes = set k.processes slot (record p { state = running });
          current_pid = p.pid;
          machine = m;
        } in
        if not (is_ready p.state)
        then (k, false)
        else if not switched
        then (record k { machine = m }, false)
        else (leave (all_happen entered events) slot kernel_page_directory result, true)
  ]

  -- `process_run_pid`.
  pub run_pid : Kernel M → ℕ → List (Event M) → ℕ → Kernel M × ℕ
  run_pid k pid events result =
      let (k', ran) = run k pid events result in if not ran then (k', 0) else (k', pid)

  -- `process_schedule_auto`: the pid that ran, or 0.
  unfoldable pub schedule_auto : Kernel M → List (Event M) → ℕ → Kernel M × ℕ
  schedule_auto k events result = elim (select_next_ready_process k.processes k.schedule_cursor) [
    | none ↦ (k, 0)
    | some slot ↦
        let pid = (process_at k.processes slot).pid in
        let (k', ran) = run k pid events result in
        if not ran then (k', 0) else (record k' { schedule_cursor = (slot + 1) % process_max }, pid)
  ]

  -- The loop of `release_process` over the pages that the process allocated.
  unfoldable pub unregister_pages : M → Process → ℕ → ℕ → M
  unregister_pages m p i zero = m
  unregister_pages m p i (suc count) =
      let m' =
        if not (bit_and p.vm_page_bitmap (2 ^ i) == 0)
        then Services.unregister_page sv m p.page_directory_phys (user_vm_base + i * page_size)
        else m in
      unregister_pages m' p (i + 1) count

  -- What `release_process` asks of the other modules.
  unfoldable pub tear_down : M → Process → M
  tear_down m p =
      let dir = p.page_directory_phys in
      let m₁ = Services.banker_unregister_process sv m p.pid in
      let m₂ = Services.memdemo_release_for_directory sv m₁ dir in
      let m₃ =
        Services.unregister_page sv (Services.unregister_page sv m₂ dir user_code_base) dir
          user_stack_page in
      if dir == 0
      then m₁
      else Services.destroy_address_space sv (unregister_pages m₃ p 0 user_vm_page_count) dir

  unfoldable pub release_process : Kernel M → ℕ → Kernel M
  release_process k slot =
      let p = process_at k.processes slot in
      if not p.used || is_running p.state then k else record k {
        processes = set (adopt_children k.processes p.pid) slot free_process;
        machine = tear_down k.machine p;
      }
