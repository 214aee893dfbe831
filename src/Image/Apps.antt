-- ===== src/Image/Apps.antt =====
-- The built-in programs of kernel/process.c.
use os_curriculum_design.Prelude.{
  ℕ, zero, suc, ◌+◌, ◌*◌, ◌-◌, Bool, true, false, ◌&&◌, Option, none, some, List, [], ◌∷◌, ◌++◌,
  length, if◌then◌else◌, ◌==◌, ltb,
}
use os_curriculum_design.Image.{
  emit_u8, mov_eax, mov_ebx, mov_ecx, int_0x80, patch_u32, patch_message_address, user_code_base,
  emit_write_string, write_patch_offset, emit_yield, emit_memdemo_op, emit_user_write_eax,
  emit_memdemo_reset, emit_vm_alloc, emit_vm_sample, emit_spawn_app, emit_pager_trace_reset,
  emit_wait_memdemo_report, emit_exit,
}
use os_curriculum_design.Image.Texts.{
  hello_message, busy_step_1, busy_step_2, busy_step_3, counter_step_1, counter_step_2,
  counter_step_3, spawner_created, spawner_exiting, pagerdemo_starts, pagerdemo_done, hello_name,
  counter_name, busy_name, spawner_name, memalloc_name, memtrack_name, pagerdemo_name,
}

unfoldable pub build_hello_image : List ℕ
build_hello_image =
    let written = int_0x80 (mov_ecx (mov_ebx (mov_eax [] 1) 0) (length hello_message)) in
    let exited = emit_u8 (emit_u8 (int_0x80 (mov_ebx (mov_eax written 2) 0)) 0xEB) 0xFE in
    patch_u32 (exited ++ hello_message) 6 (user_code_base + length exited)

-- `mov ecx, 0x02000000`, `dec ecx` and `jnz -3`.
unfoldable pub emit_busy_loop : List ℕ → List ℕ
emit_busy_loop image = emit_u8 (emit_u8 (emit_u8 (mov_ecx image 0x0200_0000) 0x49) 0x75) 0xFD

unfoldable pub build_busy_image : List ℕ
build_busy_image =
    let one = emit_busy_loop (emit_write_string [] busy_step_1) in
    let two = emit_busy_loop (emit_write_string one busy_step_2) in
    let code = emit_exit (emit_write_string two busy_step_3) 0 in
    let msg2 = length code + length busy_step_1 in
    let msg3 = msg2 + length busy_step_2 in
    let image = code ++ busy_step_1 ++ busy_step_2 ++ busy_step_3 in
    patch_message_address
      (patch_message_address (patch_message_address image (write_patch_offset []) (length code))
        (write_patch_offset one) msg2)
      (write_patch_offset two) msg3

unfoldable pub build_counter_image : List ℕ
build_counter_image =
    let one = emit_yield (emit_write_string [] counter_step_1) in
    let two = emit_yield (emit_write_string one counter_step_2) in
    let code = emit_exit (emit_write_string two counter_step_3) 0 in
    let msg2 = length code + length counter_step_1 in
    let msg3 = msg2 + length counter_step_2 in
    let image = code ++ counter_step_1 ++ counter_step_2 ++ counter_step_3 in
    patch_message_address
      (patch_message_address (patch_message_address image (write_patch_offset []) (length code))
        (write_patch_offset one) msg2)
      (write_patch_offset two) msg3

unfoldable pub build_spawner_image : List ℕ
build_spawner_image =
    let spawned = emit_spawn_app [] 1 in
    let yielded = emit_yield (emit_write_string spawned spawner_created) in
    let code = emit_exit (emit_write_string yielded spawner_exiting) 0 in
    let image = code ++ spawner_created ++ spawner_exiting in
    patch_message_address (patch_message_address image (write_patch_offset spawned) (length code))
      (write_patch_offset yielded) (length code + length spawner_created)

-- The operation and the page of one event of memalloc: 1 allocates, 2 frees and 3 touches.
pub record MemoryEvent : Type 0 where
  pub op : ℕ
  pub page : ℕ

abbrev pub memory_events : List MemoryEvent
memory_events =
    record { op = 1; page = 0 }
    ∷ record { op = 1; page = 1 }
    ∷ record { op = 3; page = 0 }
    ∷ record { op = 1; page = 3 }
    ∷ record { op = 2; page = 1 }
    ∷ record { op = 1; page = 2 }
    ∷ record { op = 3; page = 3 }
    ∷ record { op = 2; page = 0 }
    ∷ []

-- The loop over the events, from event `i` on; the bits that `|` joins do not overlap.
unfoldable pub emit_memory_events : List ℕ → ℕ → List MemoryEvent → List ℕ
emit_memory_events image i [] = image
emit_memory_events image i (e ∷ es) =
    let asked = emit_memdemo_op image e.op e.page in
    let written =
      if e.op == 2 then asked else emit_user_write_eax asked (0xA110_0000 + i * 256 + e.page) in
    emit_memory_events (emit_yield written) (i + 1) es

unfoldable pub build_memalloc_image : List ℕ
build_memalloc_image = emit_exit (emit_memory_events (emit_memdemo_reset []) 0 memory_events) 0

-- The loop from `sequence` on, with `count` rounds to go.
unfoldable pub emit_reports : List ℕ → ℕ → ℕ → List ℕ
emit_reports image sequence zero = image
emit_reports image sequence (suc count) =
    emit_reports (emit_yield (emit_wait_memdemo_report image sequence)) (sequence + 1) count

unfoldable pub build_memtrack_image : List ℕ
build_memtrack_image = emit_exit (emit_reports [] 1 8) 0

abbrev pub frame_limit : ℕ
frame_limit = 16

-- The first loop over pages of the pager demonstration, and the second, which writes to each page.
unfoldable pub emit_allocs : List ℕ → ℕ → ℕ → List ℕ
emit_allocs image i zero = image
emit_allocs image i (suc count) = emit_allocs (emit_vm_alloc image i) (i + 1) count

unfoldable pub emit_touches : List ℕ → ℕ → ℕ → List ℕ
emit_touches image i zero = image
emit_touches image i (suc count) =
    emit_touches (emit_user_write_eax (emit_vm_alloc image i) (0xD0A0_0000 + i)) (i + 1) count

unfoldable pub build_pagerdemo_image : List ℕ
build_pagerdemo_image =
    let reset = emit_pager_trace_reset (emit_write_string [] pagerdemo_starts) in
    let touched = emit_touches (emit_allocs reset 0 (frame_limit + 1)) 0 (frame_limit - 1) in
    let again = emit_user_write_eax (emit_vm_alloc (emit_vm_sample touched) 0) 0xD0A0_1000 in
    let next = emit_user_write_eax (emit_vm_alloc again (frame_limit - 1)) (0xD0A0_2000 + 15) in
    let last = emit_user_write_eax (emit_vm_alloc next frame_limit) (0xD0A0_3000 + 16) in
    let code = emit_exit (emit_write_string last pagerdemo_done) 0 in
    let image = code ++ pagerdemo_starts ++ pagerdemo_done in
    patch_message_address (patch_message_address image (write_patch_offset []) (length code))
      (write_patch_offset last) (length code + length pagerdemo_starts)

unfoldable pub same_text : List ℕ → List ℕ → Bool
same_text [] [] = true
same_text [] (y ∷ ys) = false
same_text (x ∷ xs) [] = false
same_text (x ∷ xs) (y ∷ ys) = x == y && same_text xs ys

abbrev pub process_image_max : ℕ
process_image_max = 4096

-- `process_build_builtin_image`, with pointers that are not null; the name is what `strcmp` compares.
unfoldable pub build_builtin_image : List ℕ → ℕ → Option (List ℕ)
build_builtin_image name image_capacity =
    if ltb image_capacity process_image_max
    then none
    else if same_text name hello_name
    then some build_hello_image
    else if same_text name counter_name
    then some build_counter_image
    else if same_text name busy_name
    then some build_busy_image
    else if same_text name spawner_name
    then some build_spawner_image
    else if same_text name memalloc_name
    then some build_memalloc_image
    else if same_text name memtrack_name
    then some build_memtrack_image
    else if same_text name pagerdemo_name
    then some build_pagerdemo_image
    else none
