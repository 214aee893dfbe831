-- ===== src/Process/Running.antt =====
-- Running a process keeps the table well-formed, whatever the process does.
use Prim.Native.Nat.{bit_and}
use os_curriculum_design.Prelude.{
  ℕ, ◌+◌, ◌*◌, ◌^◌, ◌<◌, ◌≡◌, refl, arith, some, List, [], ◌∷◌, length, set, if_both, ◌==◌, leb,
  Bool-cases, Option-cases, inl, inr,
}
use os_curriculum_design.Process.{
  Process, Kernel, is_ready, running, process_at, find_process_by_pid, page_size, user_vm_base,
  user_vm_page_count,
}
use os_curriculum_design.Process.Spawn.{
  page_writable, page_user, Services, running_slot, spawn_builtin_child, vm_alloc_page, spawn_child,
  app_name,
}
use os_curriculum_design.Process.Run.{
  Event, spawns_app, allocates_page, saves_frame, changes_machine, happens, all_happen, leave, run,
}
use os_curriculum_design.Image.Apps.{build_builtin_image, process_image_max}
use os_curriculum_design.Process.Table.{IsTable}
use os_curriculum_design.Process.Steps.{bury-IsTable}
use os_curriculum_design.Process.Create.{IsBounded, IsBounded-le, spawn-IsBounded}
use os_curriculum_design.Process.Entries.{
  filled_slot, found-lt, set-Keeps, save_yield_frame-IsBounded, running_slot-lt,
}

-- How many processes an event tries to create.
abbrev pub creates : {M : Type 0} → Event M → ℕ
creates (spawns_app app_id) = 1
creates _ = 0

abbrev pub spawns_of : {M : Type 0} → List (Event M) → ℕ
spawns_of [] = 0
spawns_of (e ∷ es) = creates e + spawns_of es

module _ {M : Type 0} (sv : Services M) where
  vm_alloc_page-IsBounded :
      {n : ℕ} (k : Kernel M) (i : ℕ) → IsBounded n k → IsBounded n (vm_alloc_page sv k i).0
  unfolding vm_alloc_page
  vm_alloc_page-IsBounded k i v = elim (Option-cases (running_slot k)) [
    | inl idle ↦ elim (Bool-cases (leb user_vm_page_count i)) [
      | inl e ↦ simp (e, vm_alloc_page) v
      | inr e ↦ simp (e, idle, vm_alloc_page) v
    ]
    | inr (slot, found) ↦
        let p = process_at k.processes slot in
        elim (Bool-cases (leb user_vm_page_count i)) [
          | inl e ↦ simp (e, found, vm_alloc_page) v
          | inr e ↦ elim (Bool-cases (bit_and p.vm_page_bitmap (2 ^ i) == 0)) [
            | inr f ↦ simp (e, f, found, vm_alloc_page) v
            | inl f ↦
                elim (Bool-cases
                  (Services.register_page_in_directory sv k.machine p.page_directory_phys
                    (user_vm_base + i * page_size) (page_writable + page_user)).1) [
                      | inr g ↦
                          simp (e, f, g, found, vm_alloc_page)
                            (record { table = v.table; counted = v.counted; below = v.below })
                      | inl g ↦
                          simp (e, f, g, found, vm_alloc_page)
                            (record {
                              table = set-Keeps k slot _ v (running_slot-lt k slot found) (record {
                                used = refl;
                                pid = refl;
                                parent_pid = refl;
                                state = λ z. z;
                              });
                              counted = v.counted;
                              below = v.below;
                            })
                    ]
          ]
        ]
  ]

  spawn_builtin_child-IsBounded :
      {n : ℕ} (k : Kernel M) (app_id : ℕ)
      → IsBounded n k
      → n + 1 < 2 ^ 31
      → IsBounded (n + 1) (spawn_builtin_child sv k app_id).0
  unfolding spawn_builtin_child spawn_child
  spawn_builtin_child-IsBounded k app_id v few = elim (Option-cases (running_slot k)) [
    | inl idle ↦ simp (idle, spawn_builtin_child) (IsBounded-le k v (omega arith))
    | inr (slot, found) ↦ elim (Option-cases (app_name app_id)) [
      | inl bad ↦ simp (found, bad, spawn_builtin_child) (IsBounded-le k v (omega arith))
      | inr (name, good) ↦ elim (Option-cases (build_builtin_image name process_image_max)) [
        | inl none_built ↦
            simp (found, good, none_built, spawn_builtin_child) (IsBounded-le k v (omega arith))
        | inr (image, built) ↦
            simp (found, good, built, spawn_builtin_child)
              (spawn-IsBounded sv k k.current_pid _ (some image) _ v few)
      ]
    ]
  ]

  -- An event creates at most one process.
  happens-IsBounded :
      {n : ℕ} (k : Kernel M) (e : Event M)
      → IsBounded n k
      → n + creates e < 2 ^ 31
      → IsBounded (n + creates e) (happens sv k e)
  unfolding happens
  happens-IsBounded k (spawns_app app_id) v few = spawn_builtin_child-IsBounded k app_id v few
  happens-IsBounded k (allocates_page i) v few =
      IsBounded-le _ (vm_alloc_page-IsBounded k i v) (omega arith)
  happens-IsBounded k (saves_frame frame) v few =
      IsBounded-le _ (save_yield_frame-IsBounded k frame v) (omega arith)
  happens-IsBounded k (changes_machine f) v few = record {
    table = v.table;
    counted = v.counted;
    below = omega (arith, v.below);
  }

  all_happen-IsBounded :
      (k : Kernel M) (es : List (Event M)) (n : ℕ)
      → IsBounded n k
      → n + spawns_of es < 2 ^ 31
      → IsBounded (n + spawns_of es) (all_happen sv k es)
  unfolding all_happen
  all_happen-IsBounded k [] n v few = IsBounded-le k v (omega arith)
  all_happen-IsBounded k (e ∷ es) n v few =
      IsBounded-le _
        (all_happen-IsBounded (happens sv k e) es (n + creates e)
          (happens-IsBounded k e v (omega arith)) (omega arith))
        (omega arith)

  switch_directory :
      {n : ℕ} (k : Kernel M) (m : M) → IsBounded n k → IsBounded n (record k { machine = m })
  switch_directory k m v = record { table = v.table; counted = v.counted; below = v.below }

  leave-IsBounded :
      {n : ℕ} (k : Kernel M) (slot directory result : ℕ)
      → IsBounded n k
      → slot < length k.processes
      → IsBounded n (leave sv k slot directory result)
  unfolding leave
  leave-IsBounded k slot directory result v lt = record {
    table =
        if_both (λ (ps : List Process). IsTable ps k.next_pid) _ _ _
          (set-Keeps k slot _ v lt
            (record { used = refl; pid = refl; parent_pid = refl; state = λ z. refl }))
          (bury-IsTable k.processes k.next_pid slot result (process_at k.processes slot) v.table
            (filled_slot k.processes slot lt));
    counted = v.counted;
    below = v.below;
  }

  pub run-IsBounded :
      {n : ℕ} (k : Kernel M) (pid : ℕ) (es : List (Event M)) (result : ℕ)
      → IsBounded n k
      → n + spawns_of es < 2 ^ 31
      → IsBounded (n + spawns_of es) (run sv k pid es result).0
  unfolding run
  run-IsBounded {n} k pid es result v few =
      elim (Option-cases (find_process_by_pid k.processes pid)) [
        | inl missing ↦ simp (missing, run) same
        | inr (slot, found) ↦ elim (Bool-cases (is_ready (process_at k.processes slot).state)) [
          | inr e ↦ simp (found, e, run) same
          | inl e ↦
              elim (Bool-cases
                (Services.switch_page_directory sv k.machine
                  (process_at k.processes slot).page_directory_phys).1) [
                    | inr f ↦ simp (found, e, f, run) (switch_directory k _ same)
                    | inl f ↦
                        simp (found, e, f, run)
                          (leave-IsBounded _ slot _ result (ran slot found) (
                            omega (
                              arith,
                              (ran slot found).table.size,
                              v.table.size,
                              found-lt k.processes pid slot found,
                            )))
                  ]
        ]
      ]
    where
      same : IsBounded (n + spawns_of es) k
      same = IsBounded-le k v (omega arith)

      ran :
          (slot : ℕ)
          → find_process_by_pid k.processes pid ≡ some slot
          → IsBounded (n + spawns_of es) (
              all_happen sv
                (record k {
                  processes =
                      set k.processes slot
                        (record (process_at k.processes slot) { state = running });
                  current_pid = (process_at k.processes slot).pid;
                  machine =
                      (Services.switch_page_directory sv k.machine
                        (process_at k.processes slot).page_directory_phys).0;
                })
                es)
      ran slot found =
          all_happen-IsBounded _ es n
            (record {
              table =
                  set-Keeps k slot _ v (found-lt k.processes pid slot found)
                    (record { used = refl; pid = refl; parent_pid = refl; state = λ z. refl });
              counted = v.counted;
              below = v.below;
            })
            few
