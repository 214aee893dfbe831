-- ===== src/Keyboard.antt =====
-- drivers/keyboard.c: scan codes from the keyboard interrupt, translated into keys and put into a
-- ring of 128 slots. `Keyboard` is the file's static variables; the scan code that the handler
-- reads from port 0x60 is its argument.
pub mod Queue
pub mod Keys
mod Tests
use os_curriculum_design.Prelude.{
  ℕ, ◌+◌, ◌%◌, ◌^◌, Bool, true, false, not, ◌||◌, Option, none, some, List, [], ◌∷◌, ◌++◌,
  if◌then◌else◌, leb, ◌==◌, get_or, set, replicate,
}

abbrev pub buffer_size : ℕ
buffer_size = 128

abbrev pub key_up : ℕ
key_up = 0x0100

abbrev pub key_down : ℕ
key_down = 0x0101

pub record Keyboard : Type 0 where
  pub shift_pressed : Bool
  pub extended_prefix : Bool
  pub key_buffer : List ℕ
  pub key_head : ℕ
  pub key_tail : ℕ

-- The entries that the initializer names; the others of the 128 are 0. Scan codes 0x00 to 0x1D.
abbrev normal_map_low : List ℕ
normal_map_low =
    0 ∷ 27 ∷ 49 ∷ 50 ∷ 51 ∷ 52 ∷ 53 ∷ 54 ∷ 55 ∷ 56 ∷ 57 ∷ 48 ∷ 45 ∷ 61 ∷ 8 ∷ 9 ∷ 113 ∷ 119 ∷ 101
    ∷ 114 ∷ 116 ∷ 121 ∷ 117 ∷ 105 ∷ 111 ∷ 112 ∷ 91 ∷ 93 ∷ 10 ∷ 0 ∷ []

-- Scan codes 0x1E to 0x3A.
abbrev normal_map_high : List ℕ
normal_map_high =
    97 ∷ 115 ∷ 100 ∷ 102 ∷ 103 ∷ 104 ∷ 106 ∷ 107 ∷ 108 ∷ 59 ∷ 39 ∷ 96 ∷ 0 ∷ 92 ∷ 122 ∷ 120 ∷ 99
    ∷ 118 ∷ 98 ∷ 110 ∷ 109 ∷ 44 ∷ 46 ∷ 47 ∷ 0 ∷ 42 ∷ 0 ∷ 32 ∷ 0 ∷ []

abbrev shift_map_low : List ℕ
shift_map_low =
    0 ∷ 27 ∷ 33 ∷ 64 ∷ 35 ∷ 36 ∷ 37 ∷ 94 ∷ 38 ∷ 42 ∷ 40 ∷ 41 ∷ 95 ∷ 43 ∷ 8 ∷ 9 ∷ 81 ∷ 87 ∷ 69 ∷ 82
    ∷ 84 ∷ 89 ∷ 85 ∷ 73 ∷ 79 ∷ 80 ∷ 123 ∷ 125 ∷ 10 ∷ 0 ∷ []

abbrev shift_map_high : List ℕ
shift_map_high =
    65 ∷ 83 ∷ 68 ∷ 70 ∷ 71 ∷ 72 ∷ 74 ∷ 75 ∷ 76 ∷ 58 ∷ 34 ∷ 126 ∷ 0 ∷ 124 ∷ 90 ∷ 88 ∷ 67 ∷ 86 ∷ 66
    ∷ 78 ∷ 77 ∷ 60 ∷ 62 ∷ 63 ∷ 0 ∷ 42 ∷ 0 ∷ 32 ∷ 0 ∷ []

unfoldable pub normal_map : ℕ → ℕ
normal_map scancode = get_or (normal_map_low ++ normal_map_high) scancode 0

unfoldable pub shift_map : ℕ → ℕ
shift_map scancode = get_or (shift_map_low ++ shift_map_high) scancode 0

-- `keyboard_buffer_push`; a full ring drops the key.
pub buffer_push : Keyboard → ℕ → Keyboard
buffer_push k key =
    let next = (k.key_head + 1) % buffer_size in
    if next == k.key_tail
    then k
    else record k { key_buffer = set k.key_buffer k.key_head key; key_head = next }

-- The handler behind an 0xE0 prefix.
pub extended_key : Keyboard → ℕ → Keyboard
extended_key k scancode =
    if leb 0x80 scancode
    then k
    else if scancode == 0x48
    then buffer_push k key_up
    else if scancode == 0x50
    then buffer_push k key_down
    else k

-- `keyboard_irq_handler`; bit 7 of a byte is set when it is at least 0x80.
pub irq_handler : Keyboard → ℕ → Keyboard
irq_handler k scancode =
    let c = if k.shift_pressed then shift_map scancode else normal_map scancode in
    if scancode == 0xE0
    then record k { extended_prefix = true }
    else if k.extended_prefix
    then extended_key (record k { extended_prefix = false }) scancode
    else if scancode == 0x2A || scancode == 0x36
    then record k { shift_pressed = true }
    else if scancode == 0xAA || scancode == 0xB6
    then record k { shift_pressed = false }
    else if leb 0x80 scancode
    then k
    else if c == 0
    then k
    else buffer_push k c

-- `keyboard_init`; the ring keeps its old contents.
pub init : Keyboard → Keyboard
init k = record k { shift_pressed = false; extended_prefix = false; key_head = 0; key_tail = 0 }

pub has_key : Keyboard → Bool
has_key k = not (k.key_head == k.key_tail)

pub read_key : Keyboard → Keyboard × Option ℕ
read_key k = if k.key_head == k.key_tail then (k, none) else (
  record k { key_tail = (k.key_tail + 1) % buffer_size },
  some (get_or k.key_buffer k.key_tail 0),
)
