-- ===== src/Process/Create.antt =====
-- Creating a process keeps the table well-formed, whichever call it makes fails.
use os_curriculum_design.Prelude.{
  ℕ, ◌+◌, ◌^◌, ◌≤◌, ◌<◌, add32, ◌≡◌, refl, sym, ap, subst, ◌∙◌, arith, Bool, true, false, not, ◌||◌,
  Option, none, some, List, length, set, set-set, get_elem?-lt, get_elem?-set_self, ◌==◌, ltb,
  Bool-cases, Option-cases, inl, inr, find_index-some, ℤ,
}
use os_curriculum_design.Process.{
  Process, Kernel, find_unused, parent_pid_is_valid, process_at, new_process, checked_priority,
  page_size,
}
use os_curriculum_design.Process.Spawn.{
  Services, allocate_process, abandoned, set_up, fill_slot, spawn_child_with_priority,
}
use os_curriculum_design.Process.Table.{At, IsTable}
use os_curriculum_design.Process.Steps.{process_at-eq, idle-IsTable, later-IsTable, new-IsTable}

-- The kernel between two operations.
pub record IsValid {M : Type 0} (k : Kernel M) : Type 0 where
  pub table : IsTable k.processes k.next_pid
  pub counted : 0 < k.next_pid

-- The same where the next pid is at most `n`, which the operations that create no process keep.
pub record IsBounded {M : Type 0} (n : ℕ) (k : Kernel M) : Type 0 where
  pub table : IsTable k.processes k.next_pid
  pub counted : 0 < k.next_pid
  pub below : k.next_pid ≤ n

module _ {M : Type 0} where
  pub IsValid-IsBounded : (k : Kernel M) → IsValid k → IsBounded k.next_pid k
  IsValid-IsBounded k v = record { table = v.table; counted = v.counted; below = omega arith }

  pub IsBounded-IsValid : {n : ℕ} (k : Kernel M) → IsBounded n k → IsValid k
  IsBounded-IsValid k v = record { table = v.table; counted = v.counted }

  pub IsBounded-le : {n n' : ℕ} (k : Kernel M) → IsBounded n k → n ≤ n' → IsBounded n' k
  IsBounded-le k v le = record {
    table = v.table;
    counted = v.counted;
    below = omega (arith, v.below);
  }

-- The slot that a creation writes to.
pub record IsFree (ps : List Process) (slot : ℕ) : Type 0 where
  pub old : Process
  pub at : At ps slot old
  pub free : old.used ≡ false

allocate_process-some :
    (ps : List Process) (next slot : ℕ) → find_unused ps ≡ some slot → IsFree ps slot
unfolding find_unused
allocate_process-some ps next slot found =
    let (p, at, test) = find_index-some _ ps slot found in
    record { old = p; at = at; free = ground (arith, test) }

allocate_process-none :
    (ps : List Process) (next : ℕ) → find_unused ps ≡ none → allocate_process ps next ≡ none
unfolding allocate_process
allocate_process-none ps next e = rw (e, allocate_process) refl

allocate_process-eq :
    (ps : List Process) (next slot : ℕ)
    → find_unused ps ≡ some slot
    → next + 1 < 2 ^ 32
    → allocate_process ps next ≡ some (slot, set ps slot (new_process next), next + 1)
unfolding allocate_process
allocate_process-eq ps next slot e fits =
    let next_word : add32 next 1 ≡ next + 1 = omega (arith, fits) in
    rw (e, allocate_process, next_word) refl

module _ {M : Type 0} (sv : Services M) where
  fill_slot-IsBounded :
      (k : Kernel M) (ps : List Process) (next slot : ℕ) (p : Process) (image : List ℕ)
      → IsTable ps next
      → 0 < next
      → IsFree ps slot
      → parent_pid_is_valid ps p.parent_pid ≡ true
      → p.pid ≡ next
      → k.processes ≡ set ps slot (new_process next)
      → k.next_pid ≡ next + 1
      → IsBounded (next + 1) (fill_slot sv k slot p image).0
  unfolding fill_slot
  fill_slot-IsBounded k ps next slot p image t positive free accepted is_next same counter =
      elim (Option-cases (set_up sv k.machine image).1) [
        | inl failed ↦
            rw (failed, fill_slot)
              (written (abandoned filled) (
                later-IsTable _ next (next + 1)
                  (idle-IsTable ps next slot free.old (abandoned filled) t free.at free.free refl)
                  (omega arith)))
        | inr (dir, made) ↦
            rw (made, fill_slot)
              (written filled (
                new-IsTable ps next slot free.old filled t positive free.at free.free is_next
                  accepted))
      ]
    where
      filled : Process
      filled = record p { page_directory_phys = (set_up sv k.machine image).2 }

      written :
          (v : Process)
          → IsTable (set ps slot v) (next + 1)
          → IsBounded (next + 1) (record k {
            processes = set k.processes slot v;
            machine = (set_up sv k.machine image).0;
          })
      written v ok = record {
        table =
            subst (λ (n : ℕ). IsTable (set k.processes slot v) n) (sym counter)
              (subst (λ (qs : List Process). IsTable qs (next + 1))
                (sym (
                  ap (λ (qs : List Process). set qs slot v) same
                  ∙ set-set ps slot (new_process next) v))
                ok);
        counted = omega (arith, counter);
        below = omega (arith, counter);
      }

  pub spawn-IsBounded :
      {n : ℕ} (k : Kernel M) (parent_pid : ℕ) (name : List ℕ) (image : Option (List ℕ))
      (priority : ℤ)
      → IsBounded n k
      → n + 1 < 2 ^ 31
      → IsBounded (n + 1) (spawn_child_with_priority sv k parent_pid name image priority).0
  unfolding spawn_child_with_priority
  spawn-IsBounded k parent_pid name none priority v few = IsBounded-le k v (omega arith)
  spawn-IsBounded {n} k parent_pid name (some image) priority v few = elim (Bool-cases refused) [
    | inl e ↦ simp e same
    | inr e ↦ elim (Option-cases (checked_priority priority)) [
      | inl bad ↦ simp (e, bad) same
      | inr (n, good) ↦ elim (Option-cases (find_unused k.processes)) [
        | inl full ↦ simp (e, good, allocate_process-none k.processes k.next_pid full) same
        | inr (slot, found) ↦
            let free = allocate_process-some k.processes k.next_pid slot found in
            simp
              (
                e,
                good,
                allocate_process-eq k.processes k.next_pid slot found (omega (arith, v.below)),
              )
              (IsBounded-le _
                (fill_slot-IsBounded _ k.processes k.next_pid slot _ image v.table v.counted free
                  (ground (arith, e)) (taken slot free) refl refl)
                (omega (arith, v.below)))
      ]
    ]
  ]
    where
      same : IsBounded (n + 1) k
      same = IsBounded-le k v (omega arith)

      refused : Bool
      refused =
          length image == 0
          || ltb page_size (length image)
          || not (parent_pid_is_valid k.processes parent_pid)

      taken :
          (slot : ℕ)
          → IsFree k.processes slot
          → (process_at (set k.processes slot (new_process k.next_pid)) slot).pid ≡ k.next_pid
      taken slot free =
          ap (λ (p : Process). p.pid)
            (process_at-eq (set k.processes slot (new_process k.next_pid)) slot
              (new_process k.next_pid)
              (get_elem?-set_self k.processes slot (new_process k.next_pid)
                (get_elem?-lt k.processes slot free.old free.at)))
