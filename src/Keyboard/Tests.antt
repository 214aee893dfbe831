-- ===== src/Keyboard/Tests.antt =====
-- Theorems at keyboards whose indices go around the end of the ring.
use os_curriculum_design.Prelude.{◌≡◌, refl, arith, true, false, replicate, set}
use os_curriculum_design.Keyboard.{Keyboard, irq_handler, read_key}
use os_curriculum_design.Keyboard.Queue.{IsValid, contents, poll, read_key-contents}
use os_curriculum_design.Keyboard.Keys.{Handles, irq_handler_lem}

-- One key, 'x', in the last slot, and Shift held down.
abbrev last_slot : Keyboard
last_slot = record {
  shift_pressed = true;
  extended_prefix = false;
  key_buffer = set (replicate 128 0) 127 120;
  key_head = 0;
  key_tail = 127;
}

last_slot-IsValid : IsValid last_slot
last_slot-IsValid = record { size = refl; head = omega arith; tail = omega arith }

-- The key A is pressed.
irq_handler_lem_example : Handles last_slot 0x1E (irq_handler last_slot 0x1E)
irq_handler_lem_example = irq_handler_lem last_slot 0x1E last_slot-IsValid

read_key-contents_example :
    IsValid (read_key last_slot).0
    × ((contents (read_key last_slot).0, (read_key last_slot).1) ≡ poll (contents last_slot))
read_key-contents_example = read_key-contents last_slot last_slot-IsValid
