-- ===== src/Timer.antt =====
-- timer/timer.c: the tick counter and the time slice, and the events that the scheduler takes.
-- `Timer` is the file's static variables. The functions that mask interrupts are one step each: the
-- handler cannot run inside them.
pub mod Events
mod Tests
use os_curriculum_design.Prelude.{
  ℕ, ◌/◌, ◌-◌, ◌%◌, ◌^◌, Bool, true, false, not, List, [], ◌∷◌, if◌then◌else◌, ltb, ◌==◌, add32,
  bit_and,
}

pub record Timer : Type 0 where
  pub ticks : ℕ
  pub frequency : ℕ
  pub timeslice_ticks : ℕ
  pub slice_remaining : ℕ
  pub schedule_event_pending : ℕ

-- The values before any call.
abbrev pub at_boot : Timer
at_boot = record {
  ticks = 0;
  frequency = 100;
  timeslice_ticks = 10;
  slice_remaining = 10;
  schedule_event_pending = 0;
}

-- `timer_irq_handler`.
pub irq_handler : Timer → Timer
irq_handler t =
    let left = if ltb 0 t.slice_remaining then t.slice_remaining - 1 else t.slice_remaining in
    let expired = left == 0 in
    record t {
      ticks = add32 t.ticks 1;
      slice_remaining = if expired then t.timeslice_ticks else left;
      schedule_event_pending =
          if expired then add32 t.schedule_event_pending 1 else t.schedule_event_pending;
    }

abbrev pub base_frequency : ℕ
base_frequency = 1193182

-- The divisor that `timer_init` programs.
pub divisor : ℕ → ℕ
divisor frequency_hz = let d = base_frequency / frequency_hz in if d == 0 then 1 else d

-- `outb` as a port and the value written.
pub record PortWrite : Type 0 where
  pub port : ℕ
  pub value : ℕ

-- `timer_init`: the state after it, and what it writes to the ports, in order.
pub init : Timer → ℕ → Timer × List PortWrite
init t frequency_hz =
    let hz = if frequency_hz == 0 then 100 else frequency_hz in
    (
      record t {
        ticks = 0;
        frequency = hz;
        schedule_event_pending = 0;
        slice_remaining = t.timeslice_ticks;
      },
      record { port = 0x43; value = 0x36 }
          ∷ record { port = 0x40; value = bit_and (divisor hz) 0xFF }
          ∷ record { port = 0x40; value = bit_and (divisor hz / 256) 0xFF }
          ∷ [],
    )

pub set_timeslice : Timer → ℕ → Timer
set_timeslice t ticks =
    let n = if ticks == 0 then 1 else ticks in
    record t { timeslice_ticks = n; slice_remaining = n; schedule_event_pending = 0 }

pub take_schedule_event : Timer → Timer × Bool
take_schedule_event t =
    if t.schedule_event_pending == 0
    then (t, false)
    else (record t { schedule_event_pending = t.schedule_event_pending - 1 }, true)

pub has_schedule_event : Timer → Bool
has_schedule_event t = not (t.schedule_event_pending == 0)
