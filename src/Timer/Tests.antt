-- ===== src/Timer/Tests.antt =====
-- Theorems at a timer with slices of three ticks.
use os_curriculum_design.Prelude.{◌+◌, ◌-◌, ◌/◌, ◌%◌, ◌≡◌, refl, arith}
use os_curriculum_design.Timer.{Timer, at_boot, irq_handler, set_timeslice, take_schedule_event}
use os_curriculum_design.Timer.Events.{
  IsValid, IsFresh, set_timeslice-IsValid, Reach, start, ticks, takes, events_counted,
}

abbrev three : Timer
three = set_timeslice at_boot 3

three-IsValid : IsValid three
three-IsValid = set_timeslice-IsValid at_boot 3 (omega arith)

three-IsFresh : IsFresh three
unfolding set_timeslice
three-IsFresh = record { whole = refl; none_pending = refl }

-- Four ticks, and the event of the third one taken after the fourth.
abbrev four_later : Timer
four_later = irq_handler (irq_handler (irq_handler (irq_handler three)))

four_ticks : Reach three four_later 4 0
four_ticks = ticks (ticks (ticks (ticks start)))

one_taken : Reach three (take_schedule_event four_later).0 4 1
unfolding irq_handler set_timeslice take_schedule_event
one_taken = takes four_ticks refl

events_counted_example :
    let t = (take_schedule_event four_later).0 in
    (1 + t.schedule_event_pending ≡ 4 / three.timeslice_ticks)
    × (t.slice_remaining ≡ three.timeslice_ticks - 4 % three.timeslice_ticks)
events_counted_example =
    events_counted three (take_schedule_event four_later).0 4 1 three-IsValid three-IsFresh
      (omega arith) one_taken
