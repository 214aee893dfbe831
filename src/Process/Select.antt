-- ===== src/Process/Select.antt =====
-- The process that the scheduler selects.
use mathlib.Core.Bool.{false≢true}
use os_curriculum_design.Prelude.{
  ℕ, zero, suc, ◌+◌, ◌%◌, ◌≤◌, ◌<◌, ◌≡◌, ◌⊎◌, inl, inr, refl, sym, ap, subst, ◌∙◌, arith, true,
  false, ◌&&◌, Option, none, some, List, if◌then◌else◌, Bool-cases, Option-cases,
}
use os_curriculum_design.Process.{Process, is_ready, process_at, process_max}
use os_curriculum_design.Process.Run.{better, select_loop, select_next_ready_process}

-- The process that the scheduler looks at in round `j`.
abbrev pub candidate : List Process → ℕ → ℕ → Process
candidate ps cursor j = process_at ps ((cursor + j) % process_max)

abbrev pub IsRunnable : Process → Type 0
IsRunnable p = (p.used && is_ready p.state) ≡ true

-- What is known of the best process after the rounds below `n`.
pub record IsBest (ps : List Process) (cursor n : ℕ) (slot priority : ℕ) : Type 0 where
  pub round : ℕ
  pub round_lt : round < n
  pub is_slot : (cursor + round) % process_max ≡ slot
  pub runnable : IsRunnable (process_at ps slot)
  pub is_priority : (process_at ps slot).priority ≡ priority
  pub highest :
      (j : ℕ)
      → j < n
      → IsRunnable (candidate ps cursor j)
      → (candidate ps cursor j).priority ≤ priority
  pub first :
      (j : ℕ)
      → j < round
      → IsRunnable (candidate ps cursor j)
      → (candidate ps cursor j).priority < priority

abbrev Best : List Process → ℕ → ℕ → Option (ℕ × ℕ) → Type 0
Best ps cursor n none = (j : ℕ) → j < n → ¬ IsRunnable (candidate ps cursor j)
Best ps cursor n (some (slot, priority)) = IsBest ps cursor n slot priority

last_or_below : (j n : ℕ) → j < suc n → (j < n) ⊎ (j ≡ n)
last_or_below j n h = ground arith

same_priority :
    (ps : List Process) (cursor j n : ℕ)
    → j ≡ n
    → (candidate ps cursor j).priority ≤ (candidate ps cursor n).priority
same_priority ps cursor j n e = omega (arith, ap (λ (i : ℕ). (candidate ps cursor i).priority) e)

better-true :
    (slot best : ℕ) (p : Process)
    → better (some (slot, best)) p ≡ true
    → IsRunnable p × (best < p.priority)
better-true slot best p e = ground (arith, e)

better-false :
    (slot best : ℕ) (p : Process)
    → better (some (slot, best)) p ≡ false
    → IsRunnable p
    → p.priority ≤ best
better-false slot best p e r = ground (arith, e, r)

clash : ¬ (false ≡ true)
clash e = false≢true e

-- One round keeps what is known.
Best-step :
    (ps : List Process) (cursor n : ℕ) (best : Option (ℕ × ℕ))
    → Best ps cursor n best
    → let p = candidate ps cursor n in
      Best ps cursor
        (suc n)
        (if better best p then some ((cursor + n) % process_max, p.priority) else best)
Best-step ps cursor n none b = elim (Bool-cases (better none (candidate ps cursor n))) [
  | inl e ↦ rw e (record {
    round = n;
    round_lt = omega arith;
    is_slot = refl;
    runnable = e;
    is_priority = refl;
    highest = λ j lt r. elim (last_or_below j n lt) [
      | inl below ↦ absurd (b j below r)
      | inr same ↦ same_priority ps cursor j n same
    ];
    first = λ j lt r. absurd (b j lt r);
  })
  | inr e ↦ rw e (λ j lt r. elim (last_or_below j n lt) [
    | inl below ↦ b j below r
    | inr same ↦ clash (sym e ∙ ap (λ (i : ℕ). better none (candidate ps cursor i)) (sym same) ∙ r)
  ])
]
Best-step ps cursor n (some (slot, priority)) b =
    elim (Bool-cases (better (some (slot, priority)) (candidate ps cursor n))) [
      | inl e ↦
          let (r, above) = better-true slot priority (candidate ps cursor n) e in
          rw e (record {
            round = n;
            round_lt = omega arith;
            is_slot = refl;
            runnable = r;
            is_priority = refl;
            highest = λ j lt r'. elim (last_or_below j n lt) [
              | inl below ↦ omega (arith, b.highest j below r', above)
              | inr same ↦ same_priority ps cursor j n same
            ];
            first = λ j lt r'. omega (arith, b.highest j lt r', above);
          })
      | inr e ↦ rw e (record {
        round = b.round;
        round_lt = omega (arith, b.round_lt);
        is_slot = b.is_slot;
        runnable = b.runnable;
        is_priority = b.is_priority;
        highest = λ j lt r. elim (last_or_below j n lt) [
          | inl below ↦ b.highest j below r
          | inr same ↦ omega (
            arith,
            same_priority ps cursor j n same,
            better-false slot priority (candidate ps cursor n) e
                (ap (λ (i : ℕ). better none (candidate ps cursor i)) (sym same) ∙ r),
          )
        ];
        first = b.first;
      })
    ]

Best-at :
    (ps : List Process) (cursor n m : ℕ) (best : Option (ℕ × ℕ))
    → n ≡ m
    → Best ps cursor n best
    → Best ps cursor m best
Best-at ps cursor n m best e b = subst (λ (i : ℕ). Best ps cursor i best) e b

select_loop-Best :
    (ps : List Process) (cursor n count : ℕ) (best : Option (ℕ × ℕ))
    → Best ps cursor n best
    → Best ps cursor (n + count) (select_loop ps cursor n count best)
unfolding select_loop
select_loop-Best ps cursor n zero best b = Best-at ps cursor n (n + 0) best (omega arith) b
select_loop-Best ps cursor n (suc count) best b =
    let p = candidate ps cursor n in
    let best' = if better best p then some ((cursor + n) % process_max, p.priority) else best in
    Best-at ps cursor (n + 1 + count) (n + suc count) _ (omega arith) (
      select_loop-Best ps cursor (n + 1) count best'
        (Best-at ps cursor (suc n) (n + 1) best' (omega arith) (Best-step ps cursor n best b)))

-- What the scheduler promises: no process is selected exactly when no round finds one that is ready.
-- A process selected is ready, has the highest priority of the ready ones, and comes first after the
-- cursor among those of its priority.
pub select_next_ready_process_lem :
    (ps : List Process) (cursor : ℕ)
    → ((select_next_ready_process ps cursor ≡ none)
        × ((j : ℕ) → j < 8 → ¬ IsRunnable (candidate ps cursor j)))
      ⊎ ((slot : ℕ) × (priority : ℕ) × (select_next_ready_process ps cursor ≡ some slot)
          × IsBest ps cursor 8 slot priority)
unfolding select_next_ready_process
select_next_ready_process_lem ps cursor =
    let b = select_loop-Best ps cursor 0 8 none (λ j lt r. absurd (omega arith)) in
    elim (Option-cases (select_loop ps cursor 0 8 none)) [
      | inl e ↦ inl (rw (e, select_next_ready_process) refl, rw e at b)
      | inr ((slot, priority), e) ↦
          inr (slot, priority, rw (e, select_next_ready_process) refl, rw e at b)
    ]
