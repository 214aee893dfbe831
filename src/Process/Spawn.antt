-- ===== src/Process/Spawn.antt =====
-- kernel/process.c: creating processes, and what a running process asks for.
use Prim.Native.Nat.{bit_and, bit_or}
use os_curriculum_design.Prelude.{
  ℕ, ◌+◌, ◌*◌, ◌^◌, Bool, true, false, not, ◌||◌, Option, none, some, List, [], ◌∷◌, ◌++◌,
  if◌then◌else◌, ltb, leb, ◌==◌, length, set, add32, ℤ, pos,
}
use os_curriculum_design.Image.Apps.{build_builtin_image, process_image_max}
use os_curriculum_design.Image.Texts.{hello_name, counter_name, busy_name}
use os_curriculum_design.Process.{
  Process, Kernel, unused, is_running, process_at, find_process_by_pid, find_unused,
  parent_pid_is_valid, new_process, checked_priority, page_size, user_code_base, user_stack_page,
  user_vm_base, user_vm_page_count, priority_default,
}

-- What the process module calls: mm/vmm.c, mm/pager.c, kernel/memdemo.c and kernel/banker.c. A
-- `Bool` is the result that is tested, an `Option` a result that comes with an out parameter.
pub record Services (M : Type 0) : Type 0 where
  pub create_address_space : M → M × Option ℕ
  pub destroy_address_space : M → ℕ → M
  pub register_page_data : M → ℕ → ℕ → ℕ → List ℕ → M × Bool
  pub register_page_in_directory : M → ℕ → ℕ → ℕ → M × Bool
  pub pin_page_in_directory : M → ℕ → ℕ → Bool → M
  pub unregister_page : M → ℕ → ℕ → M
  pub memdemo_release_for_directory : M → ℕ → M
  pub banker_unregister_process : M → ℕ → M
  pub switch_page_directory : M → ℕ → M × Bool
  pub get_kernel_page_directory : M → ℕ

abbrev pub page_writable : ℕ
page_writable = 0x002

abbrev pub page_user : ℕ
page_user = 0x004

-- ".app" behind a name.
abbrev app_suffix : List ℕ
app_suffix = 46 ∷ 97 ∷ 112 ∷ 112 ∷ []

-- The slot taken by `allocate_process`, and the table and the pid counter after it. The counter is an
-- `int`, here its 32 bits.
unfoldable pub allocate_process : List Process → ℕ → Option (ℕ × List Process × ℕ)
allocate_process ps next_pid = elim (find_unused ps) [
  | none ↦ none
  | some slot ↦ some (slot, set ps slot (new_process next_pid), add32 next_pid 1)
]

-- Giving a slot back after a step of the creation failed.
abbrev pub abandoned : Process → Process
abandoned p = record p { used = false; state = unused }

abbrev pub app_name : ℕ → Option (List ℕ)
app_name app_id =
    if app_id == 1
    then some hello_name
    else if app_id == 2
    then some counter_name
    else if app_id == 3
    then some busy_name
    else none

module _ {M : Type 0} where
  -- The running process, where the caller is one.
  unfoldable pub running_slot : Kernel M → Option ℕ
  running_slot k =
      if k.current_pid == 0 then none else elim (find_process_by_pid k.processes k.current_pid) [
        | none ↦ none
        | some slot ↦ if is_running (process_at k.processes slot).state then some slot else none
      ]

module _ {M : Type 0} (sv : Services M) where
  -- The calls that set up the address space: the machine after them and the page directory, or
  -- `none` and the directory number that is left in the slot.
  unfoldable pub set_up : M → List ℕ → M × Option ℕ × ℕ
  set_up m image =
      let (m₁, created) = Services.create_address_space sv m in
      elim created [
        | none ↦ (m₁, none, 0)
        | some dir ↦
            let (m₂, code) = Services.register_page_data sv m₁ dir user_code_base page_user image in
            let m₃ = Services.pin_page_in_directory sv m₂ dir user_code_base true in
            let (m₄, stack) =
              Services.register_page_in_directory sv m₃ dir user_stack_page
                (page_writable + page_user) in
            if not code
            then (Services.destroy_address_space sv m₂ dir, none, dir)
            else if not stack
            then (
              Services.destroy_address_space sv
                  (Services.unregister_page sv (Services.memdemo_release_for_directory sv m₄ dir)
                    dir user_code_base)
                  dir,
              none,
              dir,
            )
            else (Services.pin_page_in_directory sv m₄ dir user_stack_page true, some dir, dir)
      ]

  -- The table with a process in `slot`, and the calls for it; the pid, or 0.
  unfoldable pub fill_slot : Kernel M → ℕ → Process → List ℕ → Kernel M × ℕ
  fill_slot k slot p image =
      let (m, made, dir) = set_up k.machine image in
      let p' = record p { page_directory_phys = dir } in
      elim made [
        | none ↦ (record k { processes = set k.processes slot (abandoned p'); machine = m }, 0)
        | some _ ↦ (record k { processes = set k.processes slot p'; machine = m }, p.pid)
      ]

  -- `process_spawn_child_from_buffer_with_priority`; the image is `none` for a null pointer.
  unfoldable pub spawn_child_with_priority :
      Kernel M → ℕ → List ℕ → Option (List ℕ) → ℤ → Kernel M × ℕ
  spawn_child_with_priority k parent_pid name none priority = (k, 0)
  spawn_child_with_priority k parent_pid name (some image) priority =
      if length image == 0
        || ltb page_size (length image)
        || not (parent_pid_is_valid k.processes parent_pid)
      then (k, 0)
      else elim (checked_priority priority) [
        | none ↦ (k, 0)
        | some n ↦ elim (allocate_process k.processes k.next_pid) [
          | none ↦ (k, 0)
          | some (slot, ps, next) ↦
              fill_slot (record k { processes = ps; next_pid = next }) slot
                (record (process_at ps slot) {
                  name = name;
                  parent_pid = parent_pid;
                  priority = n;
                  image_size = length image;
                })
                image
        ]
      ]

  unfoldable pub spawn_from_buffer_with_priority :
      Kernel M → List ℕ → Option (List ℕ) → ℤ → Kernel M × ℕ
  spawn_from_buffer_with_priority k name image priority =
      spawn_child_with_priority k 0 name image priority

  unfoldable pub spawn_child : Kernel M → ℕ → List ℕ → Option (List ℕ) → Kernel M × ℕ
  spawn_child k parent_pid name image =
      spawn_child_with_priority k parent_pid name image (pos priority_default)

  unfoldable pub spawn_from_buffer : Kernel M → List ℕ → Option (List ℕ) → Kernel M × ℕ
  spawn_from_buffer k name image =
      spawn_from_buffer_with_priority k name image (pos priority_default)

  -- `process_spawn_builtin_child_for_current`.
  unfoldable pub spawn_builtin_child : Kernel M → ℕ → Kernel M × ℕ
  spawn_builtin_child k app_id = elim (running_slot k) [
    | none ↦ (k, 0)
    | some slot ↦ elim (app_name app_id) [
      | none ↦ (k, 0)
      | some name ↦ elim (build_builtin_image name process_image_max) [
        | none ↦ (k, 0)
        | some image ↦ spawn_child k k.current_pid (name ++ app_suffix) (some image)
      ]
    ]
  ]

  -- `process_vm_alloc_page`.
  unfoldable pub vm_alloc_page : Kernel M → ℕ → Kernel M × ℕ
  vm_alloc_page k page_index =
      if leb user_vm_page_count page_index then (k, 0) else elim (running_slot k) [
        | none ↦ (k, 0)
        | some slot ↦
            let p = process_at k.processes slot in
            let virt_addr = user_vm_base + page_index * page_size in
            let (m, registered) =
              Services.register_page_in_directory sv k.machine p.page_directory_phys virt_addr
                (page_writable + page_user) in
            let p' = record p { vm_page_bitmap = bit_or p.vm_page_bitmap (2 ^ page_index) } in
            if not (bit_and p.vm_page_bitmap (2 ^ page_index) == 0)
            then (k, virt_addr)
            else if not registered
            then (record k { machine = m }, 0)
            else (record k { processes = set k.processes slot p'; machine = m }, virt_addr)
      ]
