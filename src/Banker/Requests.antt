-- ===== src/Banker/Requests.antt =====
-- What the operations of the banker do on every branch.
use os_curriculum_design.Prelude.{
  ℕ, ◌≡◌, ◌≢◌, refl, arith, true, Bool-cases, Option-cases, inl, inr,
}
use os_curriculum_design.Banker.{
  Resources, BankerProcess, Banker, Status, ok, not_ready, no_process, over_need, over_available,
  unsafe, vector_leq, find_slot_by_pid, state_is_safe, allocate, request_slot, request,
  initial_finish,
}
use os_curriculum_design.Banker.Sequence.{Covers, Completes, vector_leq_iff}
use os_curriculum_design.Banker.Table.{IsValid}
use os_curriculum_design.Banker.Safety.{state_is_safe_iff}
use os_curriculum_design.Banker.Trial.{
  AtSlot, find-AtSlot, process_at-eq, allocate-total, give_back-allocate,
}

-- `banker_request` once the slot is known: a refusal that keeps the state, or a trial allocation
-- that was found safe.
request_slot_cases {ℓ} :
    (P : Banker × Status → Type ℓ) (b : Banker) (slot : ℕ) (p : BankerProcess) (r : Resources)
    → AtSlot b slot p
    → ((s : Status) → s ≢ ok → P (b, s))
    → (Covers p.need r
        → Covers b.available r
        → state_is_safe (allocate b slot r).available (allocate b slot r).processes ≡ true
        → P (allocate b slot r, ok))
    → P (request_slot b slot r)
unfolding request_slot
request_slot_cases P b slot p r s refused grant =
    rw (process_at-eq b slot p s) (elim (Bool-cases (vector_leq r p.need)) [
      | inr e ↦ simp e (refused over_need (λ q. cc))
      | inl e ↦ elim (Bool-cases (vector_leq r b.available)) [
        | inr f ↦ simp (e, f) (refused over_available (λ q. cc))
        | inl f ↦
            elim (Bool-cases
              (state_is_safe (allocate b slot r).available (allocate b slot r).processes)) [
                | inl g ↦ simp (e, f, g) (grant (need e) (free f) g)
                | inr g ↦
                    simp (e, f, g, give_back-allocate b slot p s r (need e) (free f))
                      (refused unsafe (λ q. cc))
              ]
      ]
    ])
  where
    need : vector_leq r p.need ≡ true → Covers p.need r
    need = (vector_leq_iff r p.need).0

    free : vector_leq r b.available ≡ true → Covers b.available r
    free = (vector_leq_iff r b.available).0

pub request_cases {ℓ} :
    (P : Banker × Status → Type ℓ) (b : Banker) (pid : ℕ) (r : Resources)
    → IsValid b
    → ((s : Status) → s ≢ ok → P (b, s))
    → ((slot : ℕ) (p : BankerProcess)
        → AtSlot b slot p
        → Covers p.need r
        → Covers b.available r
        → state_is_safe (allocate b slot r).available (allocate b slot r).processes ≡ true
        → P (allocate b slot r, ok))
    → P (request b pid r)
unfolding request
request_cases P b pid r v refused grant = elim (Bool-cases b.ready) [
  | inr e ↦ simp e (refused not_ready (λ q. cc))
  | inl e ↦ elim (Option-cases (find_slot_by_pid b.processes pid)) [
    | inl missing ↦ simp (e, missing) (refused no_process (λ q. cc))
    | inr (slot, found) ↦
        let (p, s) = find-AtSlot pid slot v found in
        simp (e, found) (request_slot_cases P b slot p r s refused (grant slot p s))
  ]
]

-- A request in a valid table that is not granted leaves the whole state as it was, the rolled back
-- trial included.
pub request_refused :
    (b : Banker) (pid : ℕ) (r : Resources)
    → IsValid b
    → (request b pid r).1 ≢ ok
    → (request b pid r).0 ≡ b
request_refused b pid r v =
    request_cases (λ o. o.1 ≢ ok → o.0 ≡ b) b pid r v (λ s ne _. refl)
      (λ _ _ _ _ _ _ ne. absurd (ne refl))

-- After a granted request, made in a valid table, some order of runs still lets every registered
-- process finish.
pub request_granted :
    (b : Banker) (pid : ℕ) (r : Resources)
    → IsValid b
    → (request b pid r).1 ≡ ok
    → let b' = (request b pid r).0 in
      Completes b'.processes (initial_finish b'.processes) b'.available
request_granted b pid r v =
    request_cases
      (λ o. o.1 ≡ ok → Completes o.0.processes (initial_finish o.0.processes) o.0.available) b pid r
      v (λ s ne e. absurd (ne e))
      (λ slot p s need free safe _.
        (state_is_safe_iff _ _
            (λ k. omega (arith, v.fits k, allocate-total b slot p s r need free k))).0
          safe)
