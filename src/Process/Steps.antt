-- ===== src/Process/Steps.antt =====
-- The operations of kernel/process.c on the table: adoption, the end of a run, the release of a slot
-- and the creation of a process.
use os_curriculum_design.Prelude.{
  ℕ, ◌+◌, ◌≤◌, ◌<◌, ◌≡◌, ◌⊎◌, inl, inr, refl, sym, ap, subst, ◌∙◌, arith, true, false, some, List,
  map, set, get_or_of_get_elem?, ◌==◌, ==_iff, Bool-cases, Option-cases, find_index-some,
}
use os_curriculum_design.Process.{
  Process, is_zombie, zombie, orphan, adopt_children, free_process, find_process_by_pid,
  parent_pid_is_valid, process_at,
}
use os_curriculum_design.Process.Table.{
  At, IsLiving, HasParent, IsTable, set-IsTable, HasParent-set, At-unique,
}
use os_curriculum_design.Process.Family.{
  Childless, map-At, set-map, map-IsTable, map-Childless, end-IsTable, orphan_keeps,
}

adopt_children-zero : (ps : List Process) (n : ℕ) → (n == 0) ≡ true → adopt_children ps n ≡ ps
unfolding adopt_children
adopt_children-zero ps n e = simp e refl

pub adopt_children-map :
    (ps : List Process) (n : ℕ) → (n == 0) ≡ false → adopt_children ps n ≡ map (orphan n) ps
unfolding adopt_children
adopt_children-map ps n e = simp e refl

pub no_zero_pid :
    (ps : List Process) (next i : ℕ) (p : Process)
    → IsTable ps next
    → At ps i p
    → (p.pid == 0) ≡ true
    → ¬ (p.used ≡ true)
no_zero_pid ps next i p t at z u = omega (arith, (t.pids i p at u).0, (==_iff p.pid 0).0 z)

-- A process comes back from its run with an exit code.
pub bury-IsTable :
    (ps : List Process) (next i code : ℕ) (p : Process)
    → IsTable ps next
    → At ps i p
    → IsTable (adopt_children (set ps i (record p { state = zombie; exit_code = code })) p.pid) next
bury-IsTable ps next i code p t at = elim (Bool-cases (p.pid == 0)) [
  | inl z ↦ rw (adopt_children-zero (set ps i v) p.pid z) (
      end-IsTable ps next i p v t at (λ u. absurd (no_zero_pid ps next i p t at z u))
        (λ u. (u, refl, refl)))
  | inr nz ↦
      rw (adopt_children-map (set ps i v) p.pid nz, set-map (orphan p.pid) ps i v)
        (end-IsTable (map (orphan p.pid) ps) next i (orphan p.pid p) (orphan p.pid v)
          (map-IsTable p.pid ps next t) (map-At (orphan p.pid) ps i p at)
          (λ u.
            subst (Childless (map (orphan p.pid) ps)) (sym (orphan_keeps p.pid p).1)
              (map-Childless p.pid ps (ground (arith, nz))))
          (λ u. ground (arith, u)))
]
  where
    v : Process
    v = record p { state = zombie; exit_code = code }

-- A slot is given back.
pub release-IsTable :
    (ps : List Process) (next i : ℕ) (p : Process)
    → IsTable ps next
    → At ps i p
    → p.used ≡ true
    → IsTable (set (adopt_children ps p.pid) i free_process) next
release-IsTable ps next i p t at used = elim (Bool-cases (p.pid == 0)) [
  | inl z ↦ absurd (no_zero_pid ps next i p t at z used)
  | inr nz ↦ rw (adopt_children-map ps p.pid nz) (
      end-IsTable (map (orphan p.pid) ps) next i (orphan p.pid p) free_process
        (map-IsTable p.pid ps next t) (map-At (orphan p.pid) ps i p at)
        (λ u.
          subst (Childless (map (orphan p.pid) ps)) (sym (orphan_keeps p.pid p).1)
            (map-Childless p.pid ps (ground (arith, nz))))
        (λ u. absurd (false_used u)))
]
  where
    false_used : ¬ (free_process.used ≡ true)
    false_used u = cc

-- An entry that is not in use may be overwritten by one that is not in use either.
pub idle-IsTable :
    (ps : List Process) (next i : ℕ) (p v : Process)
    → IsTable ps next
    → At ps i p
    → p.used ≡ false
    → v.used ≡ false
    → IsTable (set ps i v) next
idle-IsTable ps next i p v t at free idle =
    end-IsTable ps next i p v t at (λ u. absurd (clash p free u)) (λ u. absurd (clash v idle u))
  where
    clash : (q : Process) → q.used ≡ false → ¬ (q.used ≡ true)
    clash q f u = cc (f, u)

-- The pid counter may grow.
pub later-IsTable :
    (ps : List Process) (next next' : ℕ) → IsTable ps next → next ≤ next' → IsTable ps next'
later-IsTable ps next next' t le = record {
  size = t.size;
  pids = λ i p h u. (omega (arith, (t.pids i p h u).0), omega (arith, (t.pids i p h u).1, le));
  unique = t.unique;
  parents = t.parents;
}

pub process_at-eq : (ps : List Process) (i : ℕ) (p : Process) → At ps i p → process_at ps i ≡ p
process_at-eq ps i p h = get_or_of_get_elem? ps i p free_process h

pub find_process_by_pid-some :
    (ps : List Process) (pid slot : ℕ)
    → find_process_by_pid ps pid ≡ some slot
    → (p : Process) × At ps slot p × (p.used ≡ true) × (p.pid ≡ pid) × (process_at ps slot ≡ p)
unfolding find_process_by_pid
find_process_by_pid-some ps pid slot found =
    let (p, at, test) = find_index-some _ ps slot found in
    (p, at, ground (arith, test), ground (arith, test), process_at-eq ps slot p at)

-- A parent that `parent_pid_is_valid` accepts is 0 or lives.
valid_parent :
    (ps : List Process) (parent_pid : ℕ)
    → parent_pid_is_valid ps parent_pid ≡ true
    → (parent_pid ≡ 0) ⊎ IsLiving ps parent_pid
unfolding parent_pid_is_valid
valid_parent ps parent_pid e = elim (Bool-cases (parent_pid == 0)) [
  | inl z ↦ inl ((==_iff parent_pid 0).0 z)
  | inr nz ↦ elim (Option-cases (find_process_by_pid ps parent_pid)) [
    | inl missing ↦ absurd (ground (arith, e, nz, missing))
    | inr (slot, found) ↦
        let (p, at, is_used, has_pid, here) = find_process_by_pid-some ps parent_pid slot found in
        inr (record {
          slot = slot;
          entry = p;
          at = at;
          is_used = is_used;
          has_pid = has_pid;
          lives = ap (λ (q : Process). is_zombie q.state) (sym here) ∙ ground (arith, e, nz, found);
        })
  ]
]

-- A new process in a free slot, with the next pid and a parent that was accepted.
pub new-IsTable :
    (ps : List Process) (next i : ℕ) (p v : Process)
    → IsTable ps next
    → 0 < next
    → At ps i p
    → p.used ≡ false
    → v.pid ≡ next
    → parent_pid_is_valid ps v.parent_pid ≡ true
    → IsTable (set ps i v) (next + 1)
new-IsTable ps next i p v t pos at free is_next accepted =
    set-IsTable ps next (next + 1) i v t (omega arith)
      (λ u. (omega (arith, is_next, pos), omega (arith, is_next)))
      (λ u j q hq uq ne e. omega (arith, is_next, e, (t.pids j q hq uq).1))
      (λ u. parent v (valid_parent ps v.parent_pid accepted))
      (λ j q hq uq ne. parent q (t.parents j q hq uq))
  where
    clash : ¬ (p.used ≡ true)
    clash u = cc (free, u)

    parent : (q : Process) → HasParent ps q → HasParent (set ps i v) q
    parent q h = HasParent-set ps i v q h λ l here.
        let is_p = At-unique ps i l.slot p l.entry at l.at here in
        absurd (clash (subst (λ (x : Process). x.used ≡ true) is_p l.is_used))
