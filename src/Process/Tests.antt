-- ===== src/Process/Tests.antt =====
-- A table of four processes, and the theorems at it.
use os_curriculum_design.Prelude.{
  true, ℕ, pos, ◌-◌, ◌^◌, ◌≤◌, arith, ◌<◌, ◌≡◌, ◌⊎◌, none, some, List, [], ◌∷◌,
}
use os_curriculum_design.Process.{
  Kernel, init, Process, ProcessState, ready, zombie, free_process, new_process,
}
use os_curriculum_design.Process.Select.{
  candidate, IsRunnable, IsBest, select_next_ready_process_lem,
}
use os_curriculum_design.Process.Spawn.{Services}
use os_curriculum_design.Process.Run.{spawns_app, return_yield, select_next_ready_process}
use os_curriculum_design.Process.Wait.{reap_zombies, wait_child}
use os_curriculum_design.Process.Create.{IsValid}
use os_curriculum_design.Process.History.{step, spawns, runs, Reach, start, next, Reach-IsValid}
use os_curriculum_design.Process.Waiting.{Waits, wait_child_lem}
use os_curriculum_design.Process.Reap.{Reaped, reap_zombies-Reaped}

abbrev entry : ℕ → ℕ → ProcessState → ℕ → Process
entry pid parent_pid state priority = record (new_process pid) {
  parent_pid = parent_pid;
  state = state;
  priority = priority;
}

-- Process 2 is a child of 1, and 4 has ended.
abbrev family : List Process
family =
    entry 1 0 ready 5
    ∷ entry 2 1 ready 7
    ∷ entry 3 0 ready 7
    ∷ entry 4 1 zombie 9
    ∷ free_process
    ∷ free_process
    ∷ free_process
    ∷ free_process
    ∷ []

select_next_ready_process_lem_example :
    ((select_next_ready_process family 2 ≡ none)
      × ((j : ℕ) → j < 8 → ¬ IsRunnable (candidate family 2 j)))
    ⊎ ((slot : ℕ) × (priority : ℕ) × (select_next_ready_process family 2 ≡ some slot)
        × IsBest family 2 8 slot priority)
select_next_ready_process_lem_example = select_next_ready_process_lem family 2

-- A machine that does nothing and whose address spaces are all at 4096.
abbrev services : Services ℕ
services = record {
  create_address_space = λ m. (m, some 4096);
  destroy_address_space = λ m dir. m;
  register_page_data = λ m dir virt flags bytes. (m, true);
  register_page_in_directory = λ m dir virt flags. (m, true);
  pin_page_in_directory = λ m dir virt pinned. m;
  unregister_page = λ m dir virt. m;
  memdemo_release_for_directory = λ m dir. m;
  banker_unregister_process = λ m pid. m;
  switch_page_directory = λ m dir. (m, true);
  get_kernel_page_directory = λ m. 0;
}

-- One process is created, runs, creates a hello child and yields; then it runs again and exits.
abbrev calls : Kernel ℕ
calls =
    step services
      (step services (step services (init 0) (spawns 0 [] (some (0xEB ∷ 0xFE ∷ [])) (pos 5)))
        (runs 1 (spawns_app 1 ∷ []) return_yield))
      (runs 1 [] 7)

calls-Reach : Reach services 2 calls
calls-Reach = next (runs 1 [] 7) (
    next (runs 1 (spawns_app 1 ∷ []) return_yield)
      (next (spawns 0 [] (some (0xEB ∷ 0xFE ∷ [])) (pos 5)) (start 0)))

Reach-IsValid_example : IsValid calls × (calls.next_pid ≤ 2 ^ 31 - 1)
Reach-IsValid_example = Reach-IsValid services 2 calls calls-Reach (omega arith)

-- The same kernel for another theorem.
calls-IsValid : IsValid calls
calls-IsValid = (Reach-IsValid services 2 calls calls-Reach (omega arith)).0

reap_zombies-Reaped_example :
    IsValid (reap_zombies services calls).0 × Reaped (reap_zombies services calls).0.processes 8
reap_zombies-Reaped_example = reap_zombies-Reaped services calls calls-IsValid

-- The shell waits for any child that it started.
wait_child_lem_example : Waits services calls 0 0 (wait_child services calls 0 0)
wait_child_lem_example = wait_child_lem services calls 0 0 calls-IsValid
