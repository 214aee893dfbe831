-- ===== src/Image/Laws.antt =====
-- The images of hello, counter and spawner do what their names say.
use os_curriculum_design.Prelude.{ℕ, ◌≡◌, refl, some, [], ◌∷◌}
use os_curriculum_design.Image.{
  emit_u8, emit_u32, patch_message_address, emit_write_string, emit_yield, emit_spawn_app,
  emit_exit,
}
use os_curriculum_design.Image.Texts.{
  hello_message, counter_step_1, counter_step_2, counter_step_3, spawner_created, spawner_exiting,
}
use os_curriculum_design.Image.Apps.{build_hello_image, build_counter_image, build_spawner_image}
use os_curriculum_design.Image.Machine.{
  write, exit, yield, other, read_u32, asked, next, calls, run,
}

-- Run on an independent model of the processor, within its 200 instructions and whatever the
-- kernel answers its calls, hello writes its text and exits with 0; counter writes its three
-- texts, yields after the first two, and exits with 0; spawner asks for a hello child, writes,
-- yields, writes and exits with 0.
pub run_programs :
    (answer : ℕ → ℕ)
    → (run answer build_hello_image ≡ some (write hello_message ∷ exit 0 ∷ []))
      × (run answer build_counter_image
          ≡ some (
              write counter_step_1
              ∷ yield
              ∷ write counter_step_2
              ∷ yield
              ∷ write counter_step_3
              ∷ exit 0
              ∷ []))
      × (run answer build_spawner_image
          ≡ some
              (other 10 1 0 ∷ write spawner_created ∷ yield ∷ write spawner_exiting ∷ exit 0 ∷ []))
unfolding build_hello_image build_counter_image build_spawner_image emit_u8 emit_u32 emit_yield
    emit_write_string emit_exit emit_spawn_app patch_message_address run calls next asked read_u32
run_programs answer = (refl, refl, refl)
