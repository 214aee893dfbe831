-- ===== src/Timer/Events.antt =====
-- Time slices and schedule events: none is lost, none is made up.
use native.Mathlib.Nat.{add-mul, div-eq_of_lt-le, div-add-mod'}
use os_curriculum_design.Prelude.{
  ℕ, zero, suc, ◌+◌, ◌-◌, ◌*◌, ◌/◌, ◌%◌, ◌^◌, ◌≤◌, ◌<◌, ◌≡◌, refl, ap, sym, ◌∙◌, arith, true, ◌==◌,
  Bool-cases, inl, inr,
}
use os_curriculum_design.Timer.{Timer, irq_handler, init, set_timeslice, take_schedule_event}

-- The slice that runs is not over, and not longer than a slice is.
pub record IsValid (t : Timer) : Type 0 where
  pub running : 0 < t.slice_remaining
  pub within : t.slice_remaining ≤ t.timeslice_ticks
  pub word : t.timeslice_ticks < 2 ^ 32

pub irq_handler-IsValid : (t : Timer) → IsValid t → IsValid (irq_handler t)
unfolding irq_handler
irq_handler-IsValid t v = record {
  running = ground (arith, v.running, v.within);
  within = ground (arith, v.running, v.within);
  word = v.word;
}

pub init-IsValid : (t : Timer) (hz : ℕ) → IsValid t → IsValid (init t hz).0
unfolding init
init-IsValid t hz v = record {
  running = omega (arith, v.running, v.within);
  within = omega arith;
  word = v.word;
}

pub set_timeslice-IsValid : (t : Timer) (n : ℕ) → n < 2 ^ 32 → IsValid (set_timeslice t n)
unfolding set_timeslice
set_timeslice-IsValid t n w = record {
  running = ground arith;
  within = ground arith;
  word = ground (arith, w);
}

-- After `set_timeslice` or `timer_init`: `ticked` timer interrupts and `taken` events later.
pub data Reach (s : Timer) : Timer → ℕ → ℕ → Type 0 where
  start : Reach s s 0 0
  ticks : {t : Timer} {n k : ℕ} → Reach s t n k → Reach s (irq_handler t) (suc n) k
  takes :
      {t : Timer} {n k : ℕ}
      → Reach s t n k
      → (take_schedule_event t).1 ≡ true
      → Reach s (take_schedule_event t).0 n (suc k)

-- What the events and the slice that runs account for.
abbrev elapsed : Timer → ℕ → ℕ
elapsed t k =
    (k + t.schedule_event_pending) * t.timeslice_ticks + (t.timeslice_ticks - t.slice_remaining)

irq_handler-elapsed :
    (t : Timer) (k : ℕ)
    → IsValid t
    → t.schedule_event_pending + 1 < 2 ^ 32
    → elapsed (irq_handler t) k ≡ elapsed t k + 1
unfolding irq_handler
irq_handler-elapsed t k v small =
    let one_more = add-mul (k + t.schedule_event_pending) 1 t.timeslice_ticks in
    ground (arith, v.running, v.within, one_more)

takes-elapsed :
    (t : Timer) (k : ℕ)
    → (take_schedule_event t).1 ≡ true
    → IsValid t
    → IsValid (take_schedule_event t).0
      × ((take_schedule_event t).0.timeslice_ticks ≡ t.timeslice_ticks)
      × (elapsed (take_schedule_event t).0 (suc k) ≡ elapsed t k)
unfolding take_schedule_event
takes-elapsed t k e v = elim (Bool-cases (t.schedule_event_pending == 0)) [
  | inl z ↦ absurd (ground (arith, z, e))
  | inr p ↦
      let same : suc k + (t.schedule_event_pending - 1) ≡ k + t.schedule_event_pending =
        ground (arith, p) in
      rw p (
        record { running = v.running; within = v.within; word = v.word },
        refl,
        ap (λ (e : ℕ). e * t.timeslice_ticks + (t.timeslice_ticks - t.slice_remaining)) same,
      )
]

-- A slice that has just begun, with no event pending: as `timer_init` and `timer_set_timeslice`
-- leave it.
pub record IsFresh (t : Timer) : Type 0 where
  pub whole : t.slice_remaining ≡ t.timeslice_ticks
  pub none_pending : t.schedule_event_pending ≡ 0

le_mul : (a b : ℕ) → 0 < b → a ≤ a * b
le_mul zero b h = omega arith
le_mul (suc a) b h = omega (arith, le_mul a b h, add-mul a 1 b)

irq_handler-timeslice : (t : Timer) → (irq_handler t).timeslice_ticks ≡ t.timeslice_ticks
unfolding irq_handler
irq_handler-timeslice t = refl

Reach-elapsed :
    (s t : Timer) (n k : ℕ)
    → IsValid s
    → IsFresh s
    → n < 2 ^ 32
    → Reach s t n k
    → IsValid t × (t.timeslice_ticks ≡ s.timeslice_ticks) × (elapsed t k ≡ n)
Reach-elapsed s _ _ _ v f lt start = (v, refl, grind (arith, f.none_pending, f.whole))
Reach-elapsed s _ _ _ v f lt (ticks {t} {n} {k} r) =
    let (w, same, e) = Reach-elapsed s t n k v f (omega arith) r in
    let bound =
      le_mul (k + t.schedule_event_pending) t.timeslice_ticks
        (omega (arith, w.running, w.within)) in
    (
      irq_handler-IsValid t w,
      irq_handler-timeslice t ∙ same,
      irq_handler-elapsed t k w (omega arith) ∙ omega (arith, e),
    )
Reach-elapsed s _ _ _ v f lt (takes {t} {n} {k} r h) =
    let (w, same, e) = Reach-elapsed s t n k v f lt r in
    let (w', same', e') = takes-elapsed t k h w in (w', same' ∙ same, e' ∙ e)

-- Once a slice has begun with no event pending, after fewer than 2 ^ 32 ticks: the events taken
-- and those pending are together the whole slices that have passed since, and the slice that runs
-- has the rest of the ticks behind it. No event is lost and none is made up, whenever they are
-- taken.
pub events_counted :
    (s t : Timer) (n k : ℕ)
    → IsValid s
    → IsFresh s
    → n < 2 ^ 32
    → Reach s t n k
    → (k + t.schedule_event_pending ≡ n / s.timeslice_ticks)
      × (t.slice_remaining ≡ s.timeslice_ticks - n % s.timeslice_ticks)
events_counted s t n k v f lt r =
    let (w, same, e) = Reach-elapsed s t n k v f lt r in
    let d = s.timeslice_ticks in
    let left = d - t.slice_remaining in
    let q = k + t.schedule_event_pending in
    let is_n : left + q * d ≡ n = omega (arith, e, ap (λ (m : ℕ). q * m) same, same) in
    let pos : 0 < d = omega (arith, v.running, v.within) in
    let short : left < d = omega (arith, w.running, pos) in
    let quotient : q ≡ n / d =
      sym (div-eq_of_lt-le d (omega (arith, is_n)) (omega (arith, is_n, short, add-mul q 1 d))) in
    (
      quotient,
      omega (
        arith,
        is_n,
        div-add-mod' n d,
        ap (λ (m : ℕ). m * d) quotient,
        w.running,
        w.within,
        same,
      ),
    )
