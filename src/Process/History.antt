-- ===== src/Process/History.antt =====
-- Sequences of operations on the process table.
use os_curriculum_design.Prelude.{
  ℕ, zero, suc, ◌+◌, ◌-◌, ◌^◌, ◌≤◌, ◌<◌, ◌≡◌, sym, subst, arith, true, not, ◌&&◌, Option, List,
  length, get_elem?-lt, if_both, if◌then◌else◌, ◌==◌, Bool-cases, Option-cases, inl, inr,
  find_index-some, find_index, ℤ, replicate, length-replicate,
}
use os_curriculum_design.Process.{
  Process, Kernel, is_running, process_at, find_process_by_pid, free_process, init, process_max,
}
use os_curriculum_design.Process.Spawn.{Services, spawn_child_with_priority}
use os_curriculum_design.Process.Run.{
  Event, run, schedule_auto, release_process, select_next_ready_process,
}
use os_curriculum_design.Process.Wait.{
  set_priority, wait_child, kill, reapable, reap_from, reap_zombies, is_dead_child, is_child,
  pid_is_known,
}
use os_curriculum_design.Process.Table.{At}
use os_curriculum_design.Process.Steps.{release-IsTable}
use os_curriculum_design.Process.Create.{
  IsValid, IsBounded, IsBounded-le, IsBounded-IsValid, IsValid-IsBounded, spawn-IsBounded,
}
use os_curriculum_design.Process.Entries.{filled_slot, found-lt, set_priority-IsBounded}
use os_curriculum_design.Process.Running.{spawns_of, run-IsBounded}

module _ {M : Type 0} (sv : Services M) where
  pub release_process-IsBounded :
      {n : ℕ} (k : Kernel M) (slot : ℕ)
      → IsBounded n k
      → slot < length k.processes
      → IsBounded n (release_process sv k slot)
  unfolding release_process
  release_process-IsBounded k slot v lt = elim (Bool-cases (process_at k.processes slot).used) [
    | inr f ↦ simp f v
    | inl u ↦ elim (Bool-cases (is_running (process_at k.processes slot).state)) [
      | inl r ↦ simp (u, r) v
      | inr r ↦
          simp (u, r)
            (record {
              table =
                  release-IsTable k.processes k.next_pid slot (process_at k.processes slot) v.table
                    (filled_slot k.processes slot lt) u;
              counted = v.counted;
              below = v.below;
            })
    ]
  ]

  schedule_auto-IsBounded :
      {n : ℕ} (k : Kernel M) (es : List (Event M)) (result : ℕ)
      → IsBounded n k
      → n + spawns_of es < 2 ^ 31
      → IsBounded (n + spawns_of es) (schedule_auto sv k es result).0
  unfolding schedule_auto
  schedule_auto-IsBounded k es result v few =
      elim (Option-cases (select_next_ready_process k.processes k.schedule_cursor)) [
        | inl idle ↦ simp (idle, schedule_auto) (IsBounded-le k v (omega arith))
        | inr (slot, found) ↦
            let pid = (process_at k.processes slot).pid in
            let ran = run-IsBounded sv k pid es result v few in
            elim (Bool-cases (run sv k pid es result).1) [
              | inl ok ↦
                  simp (found, ok, schedule_auto)
                    (record { table = ran.table; counted = ran.counted; below = ran.below })
              | inr failed ↦ simp (found, failed, schedule_auto) ran
            ]
      ]

  kill-IsBounded : {n : ℕ} (k : Kernel M) (pid : ℕ) → IsBounded n k → IsBounded n (kill sv k pid).0
  unfolding kill
  kill-IsBounded k pid v = elim (Option-cases (find_process_by_pid k.processes pid)) [
    | inl missing ↦ simp (missing, kill) v
    | inr (slot, found) ↦ elim (Bool-cases (is_running (process_at k.processes slot).state)) [
      | inl r ↦ simp (found, r, kill) v
      | inr r ↦
          simp (found, r, kill)
            (release_process-IsBounded k slot v (found-lt k.processes pid slot found))
    ]
  ]

  wait_child-IsBounded :
      {n : ℕ} (k : Kernel M) (parent_pid child_pid : ℕ)
      → IsBounded n k
      → IsBounded n (wait_child sv k parent_pid child_pid).0
  unfolding wait_child
  wait_child-IsBounded k parent_pid child_pid v =
      elim (Bool-cases (not (parent_pid == 0) && not (pid_is_known k.processes parent_pid))) [
        | inl bad ↦ simp (bad, wait_child) v
        | inr good ↦
            elim (Option-cases (find_index (is_dead_child parent_pid child_pid) k.processes)) [
              | inr (slot, dead) ↦
                  let found =
                    find_index-some (is_dead_child parent_pid child_pid) k.processes slot dead in
                  simp (good, dead, wait_child)
                    (release_process-IsBounded k slot v
                      (get_elem?-lt k.processes slot found.0 found.1))
              | inl none_dead ↦
                  elim (Option-cases (find_index (is_child parent_pid child_pid) k.processes)) [
                    | inl alone ↦ simp (good, none_dead, alone, wait_child) v
                    | inr (slot, child) ↦ simp (good, none_dead, child, wait_child) v
                  ]
            ]
      ]

  pub reap_from-IsBounded :
      {n : ℕ} (k : Kernel M) (i count : ℕ)
      → IsBounded n k
      → i + count ≤ 8
      → IsBounded n (reap_from sv k i count).0
  unfolding reap_from
  reap_from-IsBounded k i zero v le = v
  reap_from-IsBounded {n} k i (suc count) v le =
      reap_from-IsBounded
        (if reapable (process_at k.processes i) then release_process sv k i else k) (i + 1) count
        (if_both (λ (o : Kernel M). IsBounded n o) (reapable (process_at k.processes i)) _ _
          (release_process-IsBounded k i v (omega (arith, v.table.size))) v)
        (omega arith)

  pub release_process-IsValid :
      (k : Kernel M) (slot : ℕ)
      → IsValid k
      → slot < length k.processes
      → IsValid (release_process sv k slot)
  release_process-IsValid k slot v lt =
      IsBounded-IsValid _ (release_process-IsBounded k slot (IsValid-IsBounded k v) lt)

  pub reap_from-IsValid :
      (k : Kernel M) (i count : ℕ) → IsValid k → i + count ≤ 8 → IsValid (reap_from sv k i count).0
  reap_from-IsValid k i count v le =
      IsBounded-IsValid _ (reap_from-IsBounded k i count (IsValid-IsBounded k v) le)

  -- A call of the module that may change the table.
  pub data Call : Type 0 where
    spawns : ℕ → List ℕ → Option (List ℕ) → ℤ → Call
    runs : ℕ → List (Event M) → ℕ → Call
    schedules : List (Event M) → ℕ → Call
    sets_priority : ℕ → ℤ → Call
    waits : ℕ → ℕ → Call
    kills : ℕ → Call
    reaps : Call

  unfoldable pub step : Kernel M → Call → Kernel M
  step k (spawns parent_pid name image priority) =
      (spawn_child_with_priority sv k parent_pid name image priority).0
  step k (runs pid events result) = (run sv k pid events result).0
  step k (schedules events result) = (schedule_auto sv k events result).0
  step k (sets_priority pid priority) = (set_priority k pid priority).0
  step k (waits parent_pid child_pid) = (wait_child sv k parent_pid child_pid).0
  step k (kills pid) = (kill sv k pid).0
  step k reaps = (reap_zombies sv k).0

  -- How many processes a call tries to create, itself or in the processes that it runs.
  abbrev pub creations : Call → ℕ
  creations (spawns parent_pid name image priority) = 1
  creations (runs pid events result) = spawns_of events
  creations (schedules events result) = spawns_of events
  creations _ = 0

  -- Kernels that some history of calls reaches from `process_init`, with `n` attempts to create a process.
  pub data Reach : ℕ → Kernel M → Type 0 where
    start : (m : M) → Reach 0 (init m)
    next : {n : ℕ} {k : Kernel M} (c : Call) → Reach n k → Reach (n + creations c) (step k c)

  step-IsBounded :
      {n : ℕ} (k : Kernel M) (c : Call)
      → IsBounded n k
      → n + creations c < 2 ^ 31
      → IsBounded (n + creations c) (step k c)
  unfolding step reap_zombies
  step-IsBounded k (spawns parent_pid name image priority) v few =
      spawn-IsBounded sv k parent_pid name image priority v few
  step-IsBounded k (runs pid events result) v few = run-IsBounded sv k pid events result v few
  step-IsBounded k (schedules events result) v few = schedule_auto-IsBounded k events result v few
  step-IsBounded k (sets_priority pid priority) v few =
      IsBounded-le _ (set_priority-IsBounded k pid priority v) (omega arith)
  step-IsBounded k (waits parent_pid child_pid) v few =
      IsBounded-le _ (wait_child-IsBounded k parent_pid child_pid v) (omega arith)
  step-IsBounded k (kills pid) v few = IsBounded-le _ (kill-IsBounded k pid v) (omega arith)
  step-IsBounded k reaps v few =
      IsBounded-le _ (reap_from-IsBounded k 0 8 v (omega arith)) (omega arith)

-- Nothing is in use after `process_init`.
all_free :
    (n i : ℕ) (p : Process) → At (replicate n free_process) i p → p.used ≡ true → p ≡ free_process
all_free zero i p h u = cc
all_free (suc n) zero p h u = sym (ground (arith, h))
all_free (suc n) (suc i) p h u = all_free n i p h u

none_used : (n i : ℕ) (p : Process) → At (replicate n free_process) i p → ¬ (p.used ≡ true)
none_used n i p h u = clash (subst (λ (q : Process). q.used ≡ true) (all_free n i p h u) u)
  where
    clash : ¬ (free_process.used ≡ true)
    clash e = cc

init-IsBounded : {M : Type 0} (m : M) → IsBounded 1 (init m)
unfolding init
init-IsBounded m = record {
  table = record {
    size = length-replicate process_max free_process;
    pids = λ i p h u. absurd (none_used 8 i p h u);
    unique = λ i j p q hp hq up uq e. absurd (none_used 8 i p hp up);
    parents = λ i p h u. absurd (none_used 8 i p h u);
  };
  counted = omega arith;
  below = omega arith;
}

Reach-IsBounded :
    {M : Type 0} (sv : Services M) (n : ℕ) (k : Kernel M)
    → Reach sv n k
    → n + 1 < 2 ^ 31
    → IsBounded (n + 1) k
Reach-IsBounded sv _ _ (start m) few = init-IsBounded m
Reach-IsBounded sv _ _ (next {n} {k} c r) few =
    IsBounded-le _ (step-IsBounded sv k c (Reach-IsBounded sv n k r (omega arith)) (omega arith))
      (omega arith)

-- Whatever sequence of creations, runs, scheduler calls, changes of priority, waits, kills and reaps
-- the kernel makes after `process_init`, and whatever running processes do, as long as it tries to
-- create at most 2 ^ 31 - 2 processes: the table has its eight slots, the pids in use are distinct,
-- above 0 and below the next one, which is at most the largest `int`, and the parent of every
-- process is 0 or a process that has not ended.
pub Reach-IsValid :
    {M : Type 0} (sv : Services M) (n : ℕ) (k : Kernel M)
    → Reach sv n k
    → n ≤ 2 ^ 31 - 2
    → IsValid k × (k.next_pid ≤ 2 ^ 31 - 1)
Reach-IsValid sv n k r few =
    let b = Reach-IsBounded sv n k r (omega arith) in
    (IsBounded-IsValid k b, omega (arith, b.below))
