-- ===== src/Banker/Tests.antt =====
-- The banker on the textbook's table of five processes, and the theorems at it.
use os_curriculum_design.Prelude.{
  ℕ, ◌+◌, ◌<◌, ◌^◌, ◌≡◌, ◌↔◌, refl, arith, true, [], ◌∷◌, find_index, All,
}
use os_curriculum_design.Banker.{
  Resources, BankerProcess, Banker, ok, unsafe, blank_process, find_slot_by_pid, vector_leq,
  can_run, all_finished, scan_pass, scan_loop, initial_finish, state_is_safe, init, allocate,
  request_slot, request, register_process,
}
use os_curriculum_design.Banker.Sequence.{Completes}
use os_curriculum_design.Banker.Totals.{Kind, Kind.first, Kind.second, Kind.third, amount, held}
use os_curriculum_design.Banker.Table.{IsEntry, IsValid, total}
use os_curriculum_design.Banker.Safety.{state_is_safe_iff}
use os_curriculum_design.Banker.Requests.{request_refused, request_granted}
use os_curriculum_design.Banker.History.{
  IsWords, registers, requests, Reach, start, next, step, Reach-total, register_again_loses,
}

abbrev vec : ℕ → ℕ → ℕ → Resources
vec a b c = record { r0 = a; r1 = b; r2 = c }

abbrev entry : ℕ → Resources → Resources → Resources → BankerProcess
entry pid max allocation need = record {
  used = true;
  pid = pid;
  max = max;
  allocation = allocation;
  need = need;
}

abbrev textbook : Banker
textbook = record {
  ready = true;
  available = vec 3 3 2;
  processes =
      entry 1 (vec 7 5 3) (vec 0 1 0) (vec 7 4 3)
      ∷ entry 2 (vec 3 2 2) (vec 2 0 0) (vec 1 2 2)
      ∷ entry 3 (vec 9 0 2) (vec 3 0 2) (vec 6 0 0)
      ∷ entry 4 (vec 2 2 2) (vec 2 1 1) (vec 0 1 1)
      ∷ entry 5 (vec 4 3 3) (vec 0 0 2) (vec 4 3 1)
      ∷ blank_process
      ∷ blank_process
      ∷ blank_process
      ∷ [];
}

by_kind {ℓ} : (P : Kind → Type ℓ) → P first → P second → P third → (k : Kind) → P k
by_kind P a b c first = a
by_kind P a b c second = b
by_kind P a b c third = c

entry-IsEntry :
    (pid : ℕ) (max allocation need : Resources)
    → (need.r0 + allocation.r0 ≡ max.r0) × (max.r0 < 2 ^ 32)
    → (need.r1 + allocation.r1 ≡ max.r1) × (max.r1 < 2 ^ 32)
    → (need.r2 + allocation.r2 ≡ max.r2) × (max.r2 < 2 ^ 32)
    → IsEntry (entry pid max allocation need)
entry-IsEntry pid max allocation need a b c = by_kind _ a b c

blank-IsEntry : IsEntry blank_process
blank-IsEntry = by_kind _ (omega arith) (omega arith) (omega arith)

textbook_entries : All IsEntry textbook.processes
textbook_entries = (
  entry-IsEntry 1 (vec 7 5 3) (vec 0 1 0) (vec 7 4 3) (omega arith) (omega arith) (omega arith),
  (
    entry-IsEntry 2 (vec 3 2 2) (vec 2 0 0) (vec 1 2 2) (omega arith) (omega arith) (omega arith),
    (
      entry-IsEntry 3 (vec 9 0 2) (vec 3 0 2) (vec 6 0 0) (omega arith) (omega arith) (omega arith),
      (
        entry-IsEntry 4 (vec 2 2 2) (vec 2 1 1) (vec 0 1 1) (omega arith) (omega arith)
            (omega arith),
        (
          entry-IsEntry 5 (vec 4 3 3) (vec 0 0 2) (vec 4 3 1) (omega arith) (omega arith)
              (omega arith),
          (blank-IsEntry, (blank-IsEntry, (blank-IsEntry, tt))),
        ),
      ),
    ),
  ),
)

textbook-IsValid : IsValid textbook
unfolding held
textbook-IsValid = record {
  size = refl;
  entries = textbook_entries;
  fits = by_kind _ (omega arith) (omega arith) (omega arith);
}

state_is_safe_iff_example :
    (state_is_safe textbook.available textbook.processes ≡ true)
    ↔ Completes textbook.processes (initial_finish textbook.processes) textbook.available
state_is_safe_iff_example =
    state_is_safe_iff textbook.available textbook.processes textbook-IsValid.fits

request_granted_example :
    let b = (request textbook 2 (vec 1 0 2)).0 in
    Completes b.processes (initial_finish b.processes) b.available
unfolding request request_slot find_slot_by_pid find_index vector_leq state_is_safe scan_loop
    scan_pass can_run all_finished allocate
request_granted_example = request_granted textbook 2 (vec 1 0 2) textbook-IsValid refl

-- Three more of the first and third kind to process 1 would leave nobody able to finish.
unsafe_request : (request textbook 1 (vec 3 3 2)).1 ≡ unsafe
unfolding request request_slot find_slot_by_pid find_index vector_leq state_is_safe scan_loop
    scan_pass can_run all_finished allocate
unsafe_request = refl

request_refused_example : (request textbook 1 (vec 3 3 2)).0 ≡ textbook
request_refused_example =
    request_refused textbook 1 (vec 3 3 2) textbook-IsValid (λ e. cc (e, unsafe_request))

IsWords_example : (a b c : ℕ) → a < 2 ^ 32 → b < 2 ^ 32 → c < 2 ^ 32 → IsWords (vec a b c)
IsWords_example a b c p q r = by_kind _ p q r

abbrev ten : Resources
ten = vec 10 5 7

ten-IsWords : IsWords ten
ten-IsWords = IsWords_example 10 5 7 (omega arith) (omega arith) (omega arith)

-- Process 1 registers for all there is and takes some.
started : Reach ten (step (step (init ten) (registers 1 ten)) (requests 1 (vec 1 2 3)))
unfolding init find_slot_by_pid find_index
started = next (requests 1 (vec 1 2 3)) (next (registers 1 ten) start (ten-IsWords, refl)) tt

Reach-total_example :
    let b = step (step (init ten) (registers 1 ten)) (requests 1 (vec 1 2 3)) in
    IsValid b × ((k : Kind) → total k b ≡ amount k ten)
Reach-total_example = Reach-total ten _ ten-IsWords started

-- Process 3 registers again and its (3, 0, 2) are gone.
register_again_loses_example :
    let o = register_process textbook 3 ten in
    (o.1 ≡ ok) × ((k : Kind) → total k o.0 + amount k (vec 3 0 2) ≡ total k textbook)
unfolding find_slot_by_pid find_index
register_again_loses_example =
    register_again_loses textbook 3 2 ten (entry 3 (vec 9 0 2) (vec 3 0 2) (vec 6 0 0))
      textbook-IsValid ten-IsWords refl refl refl
