-- ===== src/Image/Machine.antt =====
-- The few i386 instructions of the built-in programs, by the processor's manual: what an image does
-- when it runs from its first byte. Independent of the functions that write the images.
use os_curriculum_design.Prelude.{
  ℕ, zero, suc, ◌+◌, ◌-◌, ◌*◌, Bool, true, false, ◌&&◌, Option, none, some, List, [], ◌∷◌,
  if◌then◌else◌, ◌==◌, get_or, take, drop,
}
use mathlib.Core.Option
use os_curriculum_design.Image.{user_code_base}

-- What a program asks of the kernel.
pub data Syscall : Type 0 where
  write : List ℕ → Syscall
  exit : ℕ → Syscall
  yield : Syscall
  other : ℕ → ℕ → ℕ → Syscall

-- `eip` counts from the start of the image.
pub record Cpu : Type 0 where
  pub eip : ℕ
  pub eax : ℕ
  pub ebx : ℕ
  pub ecx : ℕ

unfoldable pub read_u32 : List ℕ → ℕ → ℕ
read_u32 image i =
    get_or image i 0
    + get_or image (i + 1) 0 * 256
    + get_or image (i + 2) 0 * 0x0001_0000
    + get_or image (i + 3) 0 * 0x0100_0000

-- The call that the registers ask for; the text of a write is read from the image.
unfoldable pub asked : List ℕ → Cpu → Syscall
asked image c =
    if c.eax == 1
    then write (take c.ecx (drop (c.ebx - user_code_base) image))
    else if c.eax == 2
    then exit c.ebx
    else if c.eax == 3
    then yield
    else other c.eax c.ebx c.ecx

-- One instruction: the state after it, and whether it called the kernel. `none` is an instruction
-- that this machine does not have.
unfoldable pub next : List ℕ → Cpu → Option (Cpu × Bool)
next image c =
    let code = get_or image c.eip 0 in
    let operand = read_u32 image (c.eip + 1) in
    if code == 0xB8
    then some (record c { eip = c.eip + 5; eax = operand }, false)
    else if code == 0xBB
    then some (record c { eip = c.eip + 5; ebx = operand }, false)
    else if code == 0xB9
    then some (record c { eip = c.eip + 5; ecx = operand }, false)
    else if code == 0xC7 && get_or image (c.eip + 1) 0 == 0
    then some (record c { eip = c.eip + 6 }, false)
    else if code == 0xCD && get_or image (c.eip + 1) 0 == 0x80
    then some (record c { eip = c.eip + 2 }, true)
    else none

-- The calls that a program makes until it exits, the kernel answering call number `k` with
-- `answer k`; `none` when it does not exit within the fuel.
unfoldable pub calls : ℕ → (ℕ → ℕ) → ℕ → List ℕ → Cpu → Option (List Syscall)
calls zero answer k image c = none
calls (suc fuel) answer k image c = elim (next image c) [
  | none ↦ none
  | some (c', false) ↦ calls fuel answer k image c'
  | some (c', true) ↦
      if c.eax == 2
      then some (asked image c ∷ [])
      else Option.map (◌∷◌ (asked image c))
          (calls fuel answer (k + 1) image (record c' { eax = answer k }))
]

-- Registers are 0 at the start, as `allocate_process` sets them.
unfoldable pub run : (ℕ → ℕ) → List ℕ → Option (List Syscall)
run answer image = calls 200 answer 0 image (record { eip = 0; eax = 0; ebx = 0; ecx = 0 })
