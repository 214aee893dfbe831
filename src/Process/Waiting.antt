-- ===== src/Process/Waiting.antt =====
-- What `process_wait_child` does on every branch.
use os_curriculum_design.Prelude.{
  ℕ, ◌≡◌, ◌≢◌, sym, ap, subst, ◌∙◌, arith, true, false, not, ◌&&◌, none, List, set, map, ◌==◌,
  ==_iff, ◌⊎◌, Bool-cases, Option-cases, inl, inr, find_index, find_index-some, find_index-none,
}
use os_curriculum_design.Process.{
  Process, Kernel, is_zombie, find_process_by_pid, free_process, orphan, adopt_children,
}
use os_curriculum_design.Process.Spawn.{Services}
use os_curriculum_design.Process.Run.{release_process}
use os_curriculum_design.Process.Wait.{
  WaitResult, waited, no_child, not_exited, bad_parent, is_child, is_dead_child, pid_is_known,
  wait_child,
}
use os_curriculum_design.Process.Table.{At, IsTable, get_elem?-set}
use os_curriculum_design.Process.Family.{At-map, orphan_keeps}
use os_curriculum_design.Process.Steps.{
  process_at-eq, find_process_by_pid-some, adopt_children-map, no_zero_pid,
}
use os_curriculum_design.Process.Create.{IsValid}
use os_curriculum_design.Process.Reap.{release_process-eq}

-- No process in the table has this pid.
abbrev pub IsGone : List Process → ℕ → Type 0
IsGone ps pid = find_process_by_pid ps pid ≡ none

-- The kernel itself, which is parent 0, or a process in the table.
abbrev pub IsParent : List Process → ℕ → Type 0
IsParent ps parent = (parent ≡ 0) ⊎ ((IsGone ps parent) → ⊥)

-- The results of a wait for a child of `parent`, any child where `child` is 0.
pub data Waits {M : Type 0} (sv : Services M) (k : Kernel M) (parent child : ℕ)
    : Kernel M × WaitResult → Type 0 where
  unknown : parent ≢ 0 → IsGone k.processes parent → Waits sv k parent child (k, bad_parent)
  reaped :
      IsParent k.processes parent
      → (slot : ℕ) (p : Process) → At k.processes slot p
      → is_dead_child parent child p ≡ true
      → IsGone (release_process sv k slot).processes p.pid
      → Waits sv k parent child (release_process sv k slot, waited p.pid p.exit_code)
  alive :
      IsParent k.processes parent
      → (slot : ℕ) (p : Process) → At k.processes slot p
      → is_child parent child p ≡ true
      → ((i : ℕ) (q : Process) → At k.processes i q → is_dead_child parent child q ≡ false)
      → Waits sv k parent child (k, not_exited)
  alone :
      IsParent k.processes parent
      → ((i : ℕ) (q : Process) → At k.processes i q → is_child parent child q ≡ false)
      → Waits sv k parent child (k, no_child)

-- A released pid is nowhere in the table.
released-IsGone :
    (ps : List Process) (next i : ℕ) (p : Process)
    → IsTable ps next
    → At ps i p
    → p.used ≡ true
    → IsGone (set (adopt_children ps p.pid) i free_process) p.pid
released-IsGone ps next i p t at used = elim (Bool-cases (p.pid == 0)) [
  | inl z ↦ absurd (no_zero_pid ps next i p t at z used)
  | inr nz ↦
      rw (adopt_children-map ps p.pid nz)
        (elim (Option-cases
          (find_process_by_pid (set (map (orphan p.pid) ps) i free_process) p.pid)) [
            | inl gone ↦ gone
            | inr (j, found) ↦
                let (q, hq, uq, same_pid, _) =
                  find_process_by_pid-some (set (map (orphan p.pid) ps) i free_process) p.pid j
                    found in
                elim (get_elem?-set (map (orphan p.pid) ps) i j free_process q hq) [
                  | inl (e, free) ↦ absurd (idle (subst (λ (w : Process). w.used ≡ true) free uq))
                  | inr (ne, old) ↦
                      let (o, ho, is_o) = At-map (orphan p.pid) ps j q old in
                      let (ku, kp, _) = orphan_keeps p.pid o in
                      absurd (
                        ne (
                          t.unique j i o p ho at
                            (sym ku ∙ subst (λ (w : Process). w.used ≡ true) is_o uq) used
                            (sym kp ∙ ap (λ (w : Process). w.pid) (sym is_o) ∙ same_pid)))
                ]
          ])
]
  where
    idle : ¬ (free_process.used ≡ true)
    idle e = cc

unknown-IsParent :
    (ps : List Process) (parent : ℕ)
    → (not (parent == 0) && not (pid_is_known ps parent)) ≡ true
    → (parent ≢ 0) × IsGone ps parent
unfolding pid_is_known
unknown-IsParent ps parent e = elim (Option-cases (find_process_by_pid ps parent)) [
  | inl gone ↦ (ground (arith, e), gone)
  | inr (slot, found) ↦ absurd (ground (arith, e, found))
]

known-IsParent :
    (ps : List Process) (parent : ℕ)
    → (not (parent == 0) && not (pid_is_known ps parent)) ≡ false
    → IsParent ps parent
unfolding pid_is_known
known-IsParent ps parent e = elim (Bool-cases (parent == 0)) [
  | inl z ↦ inl ((==_iff parent 0).0 z)
  | inr nz ↦ inr (λ gone. absurd (ground (arith, e, nz, gone)))
]

dead-IsGone :
    {M : Type 0} (sv : Services M) (k : Kernel M) (parent child slot : ℕ) (p : Process)
    → IsValid k
    → At k.processes slot p
    → is_dead_child parent child p ≡ true
    → IsGone (release_process sv k slot).processes p.pid
dead-IsGone sv k parent child slot p v at test =
    let here = process_at-eq k.processes slot p at in
    let used : p.used ≡ true = ground (arith, test) in
    let ended : is_zombie p.state ≡ true = ground (arith, test) in
    let after =
      release_process-eq sv k slot (ap (λ (w : Process). w.used) here ∙ used)
        (ap (λ (w : Process). is_zombie w.state) here ∙ ended)
      ∙ ap (λ (w : Process). set (adopt_children k.processes w.pid) slot free_process) here in
    subst (λ (qs : List Process). IsGone qs p.pid) (sym after)
      (released-IsGone k.processes k.next_pid slot p v.table at used)

-- `process_wait_child` in a well-formed kernel refuses a parent other than 0 that no process has, and
-- only such a parent; otherwise it reaps an ended child that matches, hands out its pid and exit code, and that pid is gone
-- from the table; it says that the child has not ended only if there are matching children and none
-- has ended, and that there is none only if there is none. In these cases nothing changes.
pub wait_child_lem :
    {M : Type 0} (sv : Services M) (k : Kernel M) (parent child : ℕ)
    → IsValid k
    → Waits sv k parent child (wait_child sv k parent child)
unfolding wait_child
wait_child_lem sv k parent child v =
    elim (Bool-cases (not (parent == 0) && not (pid_is_known k.processes parent))) [
      | inl bad ↦
          let (nz, gone) = unknown-IsParent k.processes parent bad in
          simp (bad, wait_child) (unknown nz gone)
      | inr good ↦
          let known = known-IsParent k.processes parent good in
          elim (Option-cases (find_index (is_dead_child parent child) k.processes)) [
            | inr (slot, dead) ↦
                let (p, at, test) =
                  find_index-some (is_dead_child parent child) k.processes slot dead in
                let here = process_at-eq k.processes slot p at in
                simp (good, dead, here, wait_child)
                  (reaped known slot p at test (dead-IsGone sv k parent child slot p v at test))
            | inl none_dead ↦ elim (Option-cases (find_index (is_child parent child) k.processes)) [
              | inl no_one ↦
                  simp (good, none_dead, no_one, wait_child)
                    (alone known
                      (λ i q h. find_index-none (is_child parent child) k.processes i q no_one h))
              | inr (slot, is_one) ↦
                  let (p, at, test) =
                    find_index-some (is_child parent child) k.processes slot is_one in
                  simp (good, none_dead, is_one, wait_child)
                    (alive known slot p at test (λ i q h.
                      find_index-none (is_dead_child parent child) k.processes i q none_dead h))
            ]
          ]
    ]
