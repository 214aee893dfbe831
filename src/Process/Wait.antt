-- ===== src/Process/Wait.antt =====
-- kernel/process.c: priorities, and how processes are waited for, killed and reaped.
use os_curriculum_design.Prelude.{
  ℕ, zero, suc, ◌+◌, Bool, true, false, not, ◌&&◌, ◌||◌, Option, none, some, List, if◌then◌else◌,
  ◌==◌, set, find_index, ℤ,
}
use os_curriculum_design.Process.{
  Process, Kernel, is_running, is_zombie, process_at, find_process_by_pid, checked_priority,
  process_max,
}
use os_curriculum_design.Process.Spawn.{Services}
use os_curriculum_design.Process.Run.{release_process}

-- `process_set_priority`.
unfoldable pub set_priority : {M : Type 0} → Kernel M → ℕ → ℤ → Kernel M × Bool
set_priority k pid priority = elim (checked_priority priority) [
  | none ↦ (k, false)
  | some n ↦ elim (find_process_by_pid k.processes pid) [
    | none ↦ (k, false)
    | some slot ↦
        let p = process_at k.processes slot in
        if is_zombie p.state
        then (k, false)
        else (record k { processes = set k.processes slot (record p { priority = n }) }, true)
  ]
]

-- `process_get_priority`.
unfoldable pub get_priority : List Process → ℕ → Option ℕ
get_priority ps pid = elim (find_process_by_pid ps pid) [
  | none ↦ none
  | some slot ↦ some (process_at ps slot).priority
]

-- PROCESS_WAIT_*, the first with the pid and the exit code for the out parameters.
pub data WaitResult : Type 0 where
  waited : ℕ → ℕ → WaitResult
  no_child not_exited bad_parent : WaitResult

-- PROCESS_KILL_*.
pub data KillResult : Type 0 where
  killed not_found is_running_now : KillResult

-- What the loop of `process_wait_child` looks for; child 0 stands for any.
abbrev pub is_child : ℕ → ℕ → Process → Bool
is_child parent_pid child_pid p =
    p.used && p.parent_pid == parent_pid && (child_pid == 0 || p.pid == child_pid)

abbrev pub is_dead_child : ℕ → ℕ → Process → Bool
is_dead_child parent_pid child_pid p = is_child parent_pid child_pid p && is_zombie p.state

unfoldable pub pid_is_known : List Process → ℕ → Bool
pid_is_known ps pid = elim (find_process_by_pid ps pid) [ none ↦ false | some slot ↦ true ]

abbrev pub reapable : Process → Bool
reapable p = p.used && is_zombie p.state && p.parent_pid == 0

module _ {M : Type 0} (sv : Services M) where
  -- `process_wait_child`.
  unfoldable pub wait_child : Kernel M → ℕ → ℕ → Kernel M × WaitResult
  wait_child k parent_pid child_pid =
      if not (parent_pid == 0) && not (pid_is_known k.processes parent_pid)
      then (k, bad_parent)
      else elim (find_index (is_dead_child parent_pid child_pid) k.processes) [
        | some slot ↦
            let p = process_at k.processes slot in
            (release_process sv k slot, waited p.pid p.exit_code)
        | none ↦ elim (find_index (is_child parent_pid child_pid) k.processes) [
          | none ↦ (k, no_child)
          | some slot ↦ (k, not_exited)
        ]
      ]

  -- `process_kill`.
  unfoldable pub kill : Kernel M → ℕ → Kernel M × KillResult
  kill k pid = elim (find_process_by_pid k.processes pid) [
    | none ↦ (k, not_found)
    | some slot ↦
        if is_running (process_at k.processes slot).state
        then (k, is_running_now)
        else (release_process sv k slot, killed)
  ]

  -- The loop of `process_reap_zombies` from slot `i` on, with `count` slots to go.
  unfoldable pub reap_from : Kernel M → ℕ → ℕ → Kernel M × ℕ
  reap_from k i zero = (k, 0)
  reap_from k i (suc count) =
      let reaps = reapable (process_at k.processes i) in
      let (k', reaped) = reap_from (if reaps then release_process sv k i else k) (i + 1) count in
      (k', if reaps then reaped + 1 else reaped)

  unfoldable pub reap_zombies : Kernel M → Kernel M × ℕ
  reap_zombies k = reap_from k 0 process_max
