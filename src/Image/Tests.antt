-- ===== src/Image/Tests.antt =====
-- The built-in programs with a kernel that answers every call with 0.
use os_curriculum_design.Prelude.{◌≡◌, some, [], ◌∷◌}
use os_curriculum_design.Image.Texts.{
  hello_message, counter_step_1, counter_step_2, counter_step_3, spawner_created, spawner_exiting,
}
use os_curriculum_design.Image.Apps.{build_hello_image, build_counter_image, build_spawner_image}
use os_curriculum_design.Image.Machine.{write, exit, yield, other, run}
use os_curriculum_design.Image.Laws.{run_programs}

run_programs_example :
    (run (λ k. 0) build_hello_image ≡ some (write hello_message ∷ exit 0 ∷ []))
    × (run (λ k. 0) build_counter_image
        ≡ some (
            write counter_step_1
            ∷ yield
            ∷ write counter_step_2
            ∷ yield
            ∷ write counter_step_3
            ∷ exit 0
            ∷ []))
    × (run (λ k. 0) build_spawner_image
        ≡ some (other 10 1 0 ∷ write spawner_created ∷ yield ∷ write spawner_exiting ∷ exit 0 ∷ []))
run_programs_example = run_programs (λ k. 0)
