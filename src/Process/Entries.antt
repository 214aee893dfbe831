-- ===== src/Process/Entries.antt =====
-- Changes of one entry that keep the table well-formed: the priority and the saved registers.
use os_curriculum_design.Prelude.{
  ℕ, zero, suc, ◌<◌, ◌≡◌, refl, subst, arith, some, List, [], ◌∷◌, length, set, get_elem?-lt, ◌==◌,
  Bool-cases, Option-cases, inl, inr, ℤ,
}
use os_curriculum_design.Process.{
  Process, Kernel, is_zombie, process_at, find_process_by_pid, checked_priority, UserContext,
}
use os_curriculum_design.Process.Spawn.{running_slot}
use os_curriculum_design.Process.Run.{save_yield_frame}
use os_curriculum_design.Process.Wait.{set_priority}
use os_curriculum_design.Process.Table.{At, IsTable, Keeps, Keeps-IsTable}
use os_curriculum_design.Process.Steps.{find_process_by_pid-some}
use os_curriculum_design.Process.Create.{IsBounded}

-- Every slot below eight holds an entry.
pub filled_slot : (ps : List Process) (i : ℕ) → i < length ps → At ps i (process_at ps i)
filled_slot [] i h = absurd (omega arith)
filled_slot (p ∷ ps) zero h = refl
filled_slot (p ∷ ps) (suc i) h = filled_slot ps i (omega arith)

pub found-lt :
    (ps : List Process) (pid slot : ℕ) → find_process_by_pid ps pid ≡ some slot → slot < length ps
found-lt ps pid slot e =
    let found = find_process_by_pid-some ps pid slot e in get_elem?-lt ps slot found.0 found.1

-- The table that a kernel has after one entry was changed.
module _ {M : Type 0} where
  pub set-Keeps :
      {n : ℕ} (k : Kernel M) (i : ℕ) (v : Process)
      → IsBounded n k
      → i < length k.processes
      → Keeps (process_at k.processes i) v
      → IsTable (set k.processes i v) k.next_pid
  set-Keeps k i v h lt kept =
      Keeps-IsTable k.processes k.next_pid i (process_at k.processes i) v h.table
        (filled_slot k.processes i lt) kept

  pub set_priority-IsBounded :
      {n : ℕ} (k : Kernel M) (pid : ℕ) (priority : ℤ)
      → IsBounded n k
      → IsBounded n (set_priority k pid priority).0
  unfolding set_priority
  set_priority-IsBounded k pid priority v = elim (Option-cases (checked_priority priority)) [
    | inl bad ↦ simp (bad, set_priority) v
    | inr (n, good) ↦ elim (Option-cases (find_process_by_pid k.processes pid)) [
      | inl missing ↦ simp (good, missing, set_priority) v
      | inr (slot, found) ↦ elim (Bool-cases (is_zombie (process_at k.processes slot).state)) [
        | inl e ↦ simp (good, found, e, set_priority) v
        | inr e ↦
            simp (good, found, e, set_priority)
              (record {
                table =
                    set-Keeps k slot _ v (found-lt k.processes pid slot found)
                      (record { used = refl; pid = refl; parent_pid = refl; state = λ z. z });
                counted = v.counted;
                below = v.below;
              })
      ]
    ]
  ]

  pub save_yield_frame-IsBounded :
      {n : ℕ} (k : Kernel M) (frame : UserContext)
      → IsBounded n k
      → IsBounded n (save_yield_frame k frame)
  unfolding save_yield_frame
  save_yield_frame-IsBounded k frame v = elim (Bool-cases (k.current_pid == 0)) [
    | inl e ↦ simp e v
    | inr e ↦ elim (Option-cases (find_process_by_pid k.processes k.current_pid)) [
      | inl missing ↦ simp (e, missing) v
      | inr (slot, found) ↦
          simp (e, found)
            (record {
              table =
                  set-Keeps k slot _ v (found-lt k.processes k.current_pid slot found)
                    (record { used = refl; pid = refl; parent_pid = refl; state = λ z. z });
              counted = v.counted;
              below = v.below;
            })
    ]
  ]

  pub running_slot-lt :
      (k : Kernel M) (slot : ℕ) → running_slot k ≡ some slot → slot < length k.processes
  unfolding running_slot
  running_slot-lt k slot e = elim (Option-cases (find_process_by_pid k.processes k.current_pid)) [
    | inl missing ↦ absurd (ground (arith, e, missing))
    | inr (s, found) ↦
        subst (λ (i : ℕ). i < length k.processes) (ground (arith, e, found))
          (found-lt k.processes k.current_pid s found)
  ]
