-- ===== src/Banker/Table.antt =====
-- The invariant of the banker's table, and what a write to one slot does to the sums.
use os_curriculum_design.Prelude.{
  ℕ, zero, suc, ◌+◌, ◌≤◌, ◌<◌, ◌^◌, ◌≡◌, arith, true, some, List, [], ◌∷◌, length, get_elem?, set,
  All, if◌then◌else◌, find_index-some,
}
use os_curriculum_design.Banker.{Resources, BankerProcess, Banker, max_processes, find_slot_by_pid}
use os_curriculum_design.Banker.Totals.{Kind, Kind.first, Kind.second, Kind.third, amount, held}

-- A process holds and needs together what it announced.
abbrev pub IsEntry : BankerProcess → Type 0
IsEntry p =
    (k : Kind)
    → (amount k p.need + amount k p.allocation ≡ amount k p.max) × (amount k p.max < 2 ^ 32)

-- All that there is of a kind: what is available and what is held.
abbrev pub total : Kind → Banker → ℕ
total k b = amount k b.available + held k b.processes

pub record IsValid (b : Banker) : Type 0 where
  pub size : length b.processes ≡ max_processes
  pub entries : All IsEntry b.processes
  pub fits : (k : Kind) → total k b < 2 ^ 32

pub Resources-ext : (a b : Resources) → ((k : Kind) → amount k a ≡ amount k b) → a ≡ b
Resources-ext a b h = λ i. record { r0 = h first i; r1 = h second i; r2 = h third i }

abbrev pub share : Kind → BankerProcess → ℕ
share k p = if p.used then amount k p.allocation else 0

pub held-set :
    (k : Kind) (ps : List BankerProcess) (i : ℕ) (p q : BankerProcess)
    → get_elem? ps i ≡ some p
    → held k (set ps i q) + share k p ≡ held k ps + share k q
unfolding held
held-set k [] i p q e = cc
held-set k (x ∷ ps) zero p q e = ground arith
held-set k (x ∷ ps) (suc i) p q e = omega (arith, held-set k ps i p q e)

pub share-le-held :
    (k : Kind) (ps : List BankerProcess) (i : ℕ) (p : BankerProcess)
    → get_elem? ps i ≡ some p
    → share k p ≤ held k ps
unfolding held
share-le-held k [] i p e = cc
share-le-held k (x ∷ ps) zero p e = ground arith
share-le-held k (x ∷ ps) (suc i) p e = omega (arith, share-le-held k ps i p e)

-- The slot found belongs to the pid.
pub find_slot_by_pid-some :
    (ps : List BankerProcess) (pid slot : ℕ)
    → find_slot_by_pid ps pid ≡ some slot
    → (p : BankerProcess) × (get_elem? ps slot ≡ some p) × (p.used ≡ true) × (p.pid ≡ pid)
unfolding find_slot_by_pid
find_slot_by_pid-some ps pid slot e =
    let (p, at, hit) = find_index-some _ ps slot e in
    (p, at, ground (arith, hit), ground (arith, hit))
