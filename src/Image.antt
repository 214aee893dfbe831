-- ===== src/Image.antt =====
-- kernel/process.c: the functions that put together the machine code of the built-in programs.
-- An image is the list of the bytes written so far, and its length is `*offset`: the buffer was
-- cleared before, so what follows them is 0. `uint8_t` casts are written `% 256`.
pub mod Texts
pub mod Apps
pub mod Machine
pub mod Laws
mod Tests
use os_curriculum_design.Prelude.{
  ℕ, ◌+◌, ◌/◌, ◌%◌, ◌^◌, List, [], ◌∷◌, ◌++◌, length, set, add32, sub32,
}

abbrev pub user_code_base : ℕ
user_code_base = 0x0080_0000

unfoldable pub emit_u8 : List ℕ → ℕ → List ℕ
emit_u8 image value = image ++ (value ∷ [])

-- Byte `k` of a little-endian number, counted from 0.
abbrev pub byte0 : ℕ → ℕ
byte0 value = value % 256

abbrev pub byte1 : ℕ → ℕ
byte1 value = value / 256 % 256

abbrev pub byte2 : ℕ → ℕ
byte2 value = value / 0x0001_0000 % 256

abbrev pub byte3 : ℕ → ℕ
byte3 value = value / 0x0100_0000 % 256

unfoldable pub emit_u32 : List ℕ → ℕ → List ℕ
emit_u32 image value =
    emit_u8 (emit_u8 (emit_u8 (emit_u8 image (byte0 value)) (byte1 value)) (byte2 value))
      (byte3 value)

-- Four bytes written over those from `offset` on.
abbrev pub patch_u32 : List ℕ → ℕ → ℕ → List ℕ
patch_u32 image offset value =
    set
      (set (set (set image offset (byte0 value)) (offset + 1) (byte1 value)) (offset + 2)
        (byte2 value))
      (offset + 3) (byte3 value)

unfoldable pub patch_message_address : List ℕ → ℕ → ℕ → List ℕ
patch_message_address image instruction_offset msg_offset =
    patch_u32 image (instruction_offset + 1) (add32 user_code_base msg_offset)

unfoldable pub emit_rel32 : List ℕ → ℕ → ℕ → List ℕ
emit_rel32 image patch_offset rel = patch_u32 image patch_offset rel

-- `mov eax, imm32`, `mov ebx, imm32`, `mov ecx, imm32` and `int 0x80`.
abbrev pub mov_eax : List ℕ → ℕ → List ℕ
mov_eax image value = emit_u32 (emit_u8 image 0xB8) value

abbrev pub mov_ebx : List ℕ → ℕ → List ℕ
mov_ebx image value = emit_u32 (emit_u8 image 0xBB) value

abbrev pub mov_ecx : List ℕ → ℕ → List ℕ
mov_ecx image value = emit_u32 (emit_u8 image 0xB9) value

abbrev pub int_0x80 : List ℕ → List ℕ
int_0x80 image = emit_u8 (emit_u8 image 0xCD) 0x80

-- The offset that `patch_offset_out` gets is that of `mov ebx`, five bytes after the start.
unfoldable pub emit_write_string : List ℕ → List ℕ → List ℕ
emit_write_string image message = int_0x80 (mov_ecx (mov_ebx (mov_eax image 1) 0) (length message))

abbrev pub write_patch_offset : List ℕ → ℕ
write_patch_offset image = length image + 5

unfoldable pub emit_yield : List ℕ → List ℕ
emit_yield image = int_0x80 (mov_eax image 3)

unfoldable pub emit_memdemo_op : List ℕ → ℕ → ℕ → List ℕ
emit_memdemo_op image op page = int_0x80 (mov_ecx (mov_ebx (mov_eax image 4) op) page)

unfoldable pub emit_user_write_eax : List ℕ → ℕ → List ℕ
emit_user_write_eax image value = emit_u32 (emit_u8 (emit_u8 image 0xC7) 0x00) value

unfoldable pub emit_memdemo_reset : List ℕ → List ℕ
emit_memdemo_reset image = int_0x80 (mov_eax image 6)

unfoldable pub emit_vm_alloc : List ℕ → ℕ → List ℕ
emit_vm_alloc image page = int_0x80 (mov_ebx (mov_eax image 7) page)

unfoldable pub emit_vm_sample : List ℕ → List ℕ
emit_vm_sample image = int_0x80 (mov_eax image 8)

unfoldable pub emit_spawn_app : List ℕ → ℕ → List ℕ
emit_spawn_app image app_id = int_0x80 (mov_ebx (mov_eax image 10) app_id)

unfoldable pub emit_pager_trace_reset : List ℕ → List ℕ
emit_pager_trace_reset image = int_0x80 (mov_eax image 9)

-- `cmp eax, 1`, `je ready`, the yield and `jmp loop_start`; the two jumps are patched at the end.
unfoldable pub emit_wait_memdemo_report : List ℕ → ℕ → List ℕ
emit_wait_memdemo_report image sequence =
    let loop_start = length image in
    let asked = int_0x80 (mov_ebx (mov_eax image 5) sequence) in
    let compared = emit_u8 (emit_u8 (emit_u8 (emit_u8 asked 0x83) 0xF8) 0x01) 0x74 in
    let je_patch = length compared in
    let jumped = emit_u8 (emit_yield (emit_u8 compared 0x00)) 0xE9 in
    let jmp_patch = length jumped in
    let whole = emit_u32 jumped 0 in
    let ready_offset = length whole in
    emit_rel32 (set whole je_patch (sub32 ready_offset (je_patch + 1) % 256)) jmp_patch
      (sub32 loop_start (jmp_patch + 4))

unfoldable pub emit_exit : List ℕ → ℕ → List ℕ
emit_exit image exit_code =
    emit_u8 (emit_u8 (int_0x80 (mov_ebx (mov_eax image 2) exit_code)) 0xEB) 0xFE
