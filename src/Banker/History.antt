-- ===== src/Banker/History.antt =====
-- Sequences of calls of the banker: the table stays valid, and no resource is lost or made up.
use os_curriculum_design.Prelude.{
  ℕ, zero, suc, ◌+◌, ◌<◌, ◌^◌, ◌≡◌, refl, sym, subst, ◌∙◌, arith, true, none, some, List, get_elem?,
  set, length-set, All-set, find_index-some, Bool-cases, Option-cases, inl, inr, replicate,
  All-replicate, length-replicate, add32,
}
use os_curriculum_design.Banker.{
  Resources, BankerProcess, Banker, Status, ok, zip_resources, vector_leq, find_slot_by_pid,
  find_free_slot, process_at, blank_process, request, release, init, register_process,
  unregister_process, registered, slot_for, no_resources, max_processes,
}
use os_curriculum_design.Banker.Sequence.{vector_leq_iff}
use os_curriculum_design.Banker.Totals.{
  Kind, Kind.first, Kind.second, Kind.third, amount, amount-zip, held,
}
use os_curriculum_design.Banker.Table.{
  IsEntry, IsValid, total, share, held-set, find_slot_by_pid-some,
}
use os_curriculum_design.Banker.Trial.{
  AtSlot, find-AtSlot, process_at-eq, allocate-total, allocate-IsValid, give_back-total,
  give_back-IsValid,
}
use os_curriculum_design.Banker.Requests.{request_cases}

-- A vector of 32-bit numbers.
abbrev pub IsWords : Resources → Type 0
IsWords a = (k : Kind) → amount k a < 2 ^ 32

-- What an operation keeps: the invariant, and the total of each kind.
abbrev Keeps : Banker → Banker → Type 0
Keeps b b' = IsValid b' × ((k : Kind) → total k b' ≡ total k b)

amount-no_resources : (k : Kind) → amount k no_resources ≡ 0
amount-no_resources first = refl
amount-no_resources second = refl
amount-no_resources third = refl

blank-IsEntry : IsEntry blank_process
blank-IsEntry k = simp amount-no_resources (omega arith)

registered-IsEntry : (pid : ℕ) (max : Resources) → IsWords max → IsEntry (registered pid max)
registered-IsEntry pid max w k = simp amount-no_resources (omega (arith, w k))

held-blank : (k : Kind) (n : ℕ) → held k (replicate n blank_process) ≡ 0
unfolding held
held-blank k zero = refl
held-blank k (suc n) = omega (arith, held-blank k n)

-- `banker_init` sets up a valid table with all resources available.
pub init_lem :
    (a : Resources) → IsWords a → IsValid (init a) × ((k : Kind) → total k (init a) ≡ amount k a)
unfolding init
init_lem a w = (
  record {
    size = length-replicate max_processes blank_process;
    entries = All-replicate IsEntry max_processes blank_process blank-IsEntry;
    fits = λ k. omega (arith, held-blank k max_processes, w k);
  },
  λ k. omega (arith, held-blank k max_processes),
)

request-Keeps : (b : Banker) (pid : ℕ) (r : Resources) → IsValid b → Keeps b (request b pid r).0
request-Keeps b pid r v =
    request_cases (λ o. Keeps b o.0) b pid r v (λ s _. (v, λ k. refl))
      (λ slot p s need free _.
        (allocate-IsValid b slot p s r need free v, allocate-total b slot p s r need free))

release-Keeps : (b : Banker) (pid : ℕ) (r : Resources) → IsValid b → Keeps b (release b pid r).0
unfolding release
release-Keeps b pid r v = elim (Bool-cases b.ready) [
  | inr e ↦ simp e (v, λ k. refl)
  | inl e ↦ elim (Option-cases (find_slot_by_pid b.processes pid)) [
    | inl missing ↦ simp (e, missing) (v, λ k. refl)
    | inr (slot, found) ↦
        let (p, s) = find-AtSlot pid slot v found in
        elim (Bool-cases (vector_leq r p.allocation)) [
          | inr f ↦ simp (e, found, process_at-eq b slot p s, f) (v, λ k. refl)
          | inl f ↦
              let held_enough = (vector_leq_iff r p.allocation).0 f in
              simp (e, found, process_at-eq b slot p s, f)
                (
                  give_back-IsValid b slot p s r held_enough v,
                  give_back-total b slot p s r held_enough,
                )
        ]
  ]
]

unregister_found :
    (b : Banker) (pid slot : ℕ)
    → b.ready ≡ true
    → find_slot_by_pid b.processes pid ≡ some slot
    → unregister_process b pid ≡ record b {
      available = zip_resources add32 b.available (process_at b slot).allocation;
      processes = set b.processes slot blank_process;
    }
unfolding unregister_process
unregister_found b pid slot e found = ground arith

cleared-Keeps :
    (b : Banker) (slot : ℕ) (p : BankerProcess)
    → IsValid b
    → AtSlot b slot p
    → Keeps b (record b {
      available = zip_resources add32 b.available p.allocation;
      processes = set b.processes slot blank_process;
    })
cleared-Keeps b slot p v s = (
  record {
    size = length-set b.processes slot blank_process ∙ v.size;
    entries = All-set IsEntry b.processes slot blank_process v.entries blank-IsEntry;
    fits = λ k. omega (arith, same k, v.fits k);
  },
  same,
)
  where
    same :
        (k : Kind)
        → amount k (zip_resources add32 b.available p.allocation)
            + held k (set b.processes slot blank_process)
          ≡ total k b
    same k = ground (
      arith,
      held-set k b.processes slot p blank_process s.at,
      s.in_use,
      amount-zip k add32 b.available p.allocation,
      s.holds k,
    )

unregister-Keeps : (b : Banker) (pid : ℕ) → IsValid b → Keeps b (unregister_process b pid)
unfolding unregister_process
unregister-Keeps b pid v = elim (Bool-cases b.ready) [
  | inr e ↦ simp e (v, λ k. refl)
  | inl e ↦ elim (Option-cases (find_slot_by_pid b.processes pid)) [
    | inl missing ↦ simp (e, missing) (v, λ k. refl)
    | inr (slot, found) ↦
        let (p, s) = find-AtSlot pid slot v found in
        subst (Keeps b) (sym (unregister_found b pid slot e found))
          (rw (process_at-eq b slot p s) (cleared-Keeps b slot p v s))
  ]
]

-- A registration that takes a slot overwrites it, whatever its holder still had.
register-slot :
    (b : Banker) (pid slot : ℕ) (max : Resources) (p : BankerProcess)
    → IsValid b
    → IsWords max
    → get_elem? b.processes slot ≡ some p
    → let b' = record b { processes = set b.processes slot (registered pid max) } in
      IsValid b' × ((k : Kind) → total k b' + share k p ≡ total k b)
register-slot b pid slot max p v w at = (
  record {
    size = length-set b.processes slot _ ∙ v.size;
    entries = All-set IsEntry b.processes slot _ v.entries (registered-IsEntry pid max w);
    fits = λ k. omega (arith, sums k, v.fits k);
  },
  sums,
)
  where
    sums :
        (k : Kind)
        → amount k b.available + held k (set b.processes slot (registered pid max)) + share k p
          ≡ total k b
    sums k =
        omega (arith, held-set k b.processes slot p (registered pid max) at, amount-no_resources k)

slot_for_new :
    (ps : List BankerProcess) (pid : ℕ)
    → find_slot_by_pid ps pid ≡ none
    → slot_for ps pid ≡ find_free_slot ps
unfolding slot_for
slot_for_new ps pid e = rw (e, slot_for)

slot_for_known :
    (ps : List BankerProcess) (pid slot : ℕ)
    → find_slot_by_pid ps pid ≡ some slot
    → slot_for ps pid ≡ some slot
unfolding slot_for
slot_for_known ps pid slot e = rw (e, slot_for)

register_found :
    (b : Banker) (pid slot : ℕ) (max : Resources)
    → b.ready ≡ true
    → slot_for b.processes pid ≡ some slot
    → register_process b pid max
      ≡ (record b { processes = set b.processes slot (registered pid max) }, ok)
unfolding register_process
register_found b pid slot max e found = ground arith

-- Registering a pid that is new to the table keeps every total, whether or not a slot is free.
register-Keeps :
    (b : Banker) (pid : ℕ) (max : Resources)
    → IsValid b
    → IsWords max
    → find_slot_by_pid b.processes pid ≡ none
    → Keeps b (register_process b pid max).0
unfolding register_process find_free_slot
register-Keeps b pid max v w fresh = elim (Bool-cases b.ready) [
  | inr e ↦ simp e (v, λ k. refl)
  | inl e ↦ elim (Option-cases (find_free_slot b.processes)) [
    | inl full ↦ simp (e, slot_for_new b.processes pid fresh, full) (v, λ k. refl)
    | inr (slot, free) ↦
        let (p, at, unused) = find_index-some _ b.processes slot free in
        let (valid, sums) = register-slot b pid slot max p v w at in
        subst (λ (o : Banker × Status). Keeps b o.0)
          (sym (register_found b pid slot max e (slot_for_new b.processes pid fresh ∙ free)))
          (valid, λ k. ground (arith, sums k, unused))
  ]
]

-- In a valid table, registering a pid that is in it already succeeds, and what the pid held is
-- lost: it is neither available nor held by anybody afterwards.
pub register_again_loses :
    (b : Banker) (pid slot : ℕ) (max : Resources) (p : BankerProcess)
    → IsValid b
    → IsWords max
    → b.ready ≡ true
    → find_slot_by_pid b.processes pid ≡ some slot
    → get_elem? b.processes slot ≡ some p
    → ((register_process b pid max).1 ≡ ok)
      × ((k : Kind) → total k (register_process b pid max).0 + amount k p.allocation ≡ total k b)
register_again_loses b pid slot max p v w e found at =
    let (q, at', used, _) = find_slot_by_pid-some b.processes pid slot found in
    let (valid, sums) = register-slot b pid slot max p v w at in
    rw (register_found b pid slot max e (slot_for_known b.processes pid slot found))
      (refl, λ k. ground (arith, sums k, at, at', used))

-- A call of the module that may change the table.
pub data Call : Type 0 where
  registers : ℕ → Resources → Call
  unregisters : ℕ → Call
  requests : ℕ → Resources → Call
  releases : ℕ → Resources → Call

pub step : Banker → Call → Banker
step b (registers pid max) = (register_process b pid max).0
step b (unregisters pid) = unregister_process b pid
step b (requests pid r) = (request b pid r).0
step b (releases pid r) = (release b pid r).0

-- A registration brings a pid that is new to the table, and 32-bit numbers.
abbrev pub IsFresh : Banker → Call → Type 0
IsFresh b (registers pid max) = IsWords max × (find_slot_by_pid b.processes pid ≡ none)
IsFresh b _ = Unit

step-Keeps : (b : Banker) (c : Call) → IsValid b → IsFresh b c → Keeps b (step b c)
unfolding step
step-Keeps b (registers pid max) v h = register-Keeps b pid max v h.0 h.1
step-Keeps b (unregisters pid) v h = unregister-Keeps b pid v
step-Keeps b (requests pid r) v h = request-Keeps b pid r v
step-Keeps b (releases pid r) v h = release-Keeps b pid r v

-- States that some history of calls reaches from `banker_init` with `a` available.
pub data Reach (a : Resources) : Banker → Type 0 where
  start : Reach a (init a)
  next : {b : Banker} (c : Call) → Reach a b → IsFresh b c → Reach a (step b c)

-- Whatever sequence of calls follows `banker_init`, as long as no pid is registered while it is in
-- the table: the table stays valid, and the resources available and held together are those of
-- `banker_init`.
pub Reach-total :
    (a : Resources) (b : Banker)
    → IsWords a
    → Reach a b
    → IsValid b × ((k : Kind) → total k b ≡ amount k a)
Reach-total a _ w start = init_lem a w
Reach-total a _ w (next {b} c r h) =
    let (v, same) = Reach-total a b w r in
    let (v', kept) = step-Keeps b c v h in (v', λ k. kept k ∙ same k)
