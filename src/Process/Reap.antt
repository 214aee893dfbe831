-- ===== src/Process/Reap.antt =====
-- `process_reap_zombies` leaves nothing to reap.
use mathlib.Core.Bool.{false≢true}
use os_curriculum_design.Prelude.{
  ℕ, zero, suc, ◌+◌, ◌<◌, ◌≡◌, refl, sym, ap, subst, ◌∙◌, arith, true, false, ◌&&◌, List, set, map,
  ◌==◌, ==_iff, Bool-cases, inl, inr,
}
use os_curriculum_design.Process.{
  Process, Kernel, is_zombie, process_at, free_process, adopt_children, orphan,
}
use os_curriculum_design.Process.Spawn.{Services}
use os_curriculum_design.Process.Run.{release_process}
use os_curriculum_design.Process.Wait.{reapable, reap_from, reap_zombies}
use os_curriculum_design.Process.Table.{At, At-unique, IsTable, get_elem?-set}
use os_curriculum_design.Process.Family.{Childless, At-map}
use os_curriculum_design.Process.Steps.{adopt_children-map, no_zero_pid}
use os_curriculum_design.Process.Create.{IsValid}
use os_curriculum_design.Process.Entries.{filled_slot}
use os_curriculum_design.Process.History.{release_process-IsValid, reap_from-IsValid}

-- A process that has ended has no children: they were adopted then.
ended-Childless :
    (ps : List Process) (next i : ℕ) (p : Process)
    → IsTable ps next
    → At ps i p
    → p.used ≡ true
    → is_zombie p.state ≡ true
    → Childless ps p.pid
ended-Childless ps next i p t at used ended j q hq uq child = elim (t.parents j q hq uq) [
  | inl z ↦ omega (arith, (t.pids i p at used).0, z, child)
  | inr l ↦
      let here = t.unique l.slot i l.entry p l.at at l.is_used used (l.has_pid ∙ child) in
      let same = At-unique ps i l.slot p l.entry at l.at here in
      clash p ended (subst (λ (w : Process). is_zombie w.state ≡ false) same l.lives)
]
  where
    clash : (w : Process) → is_zombie w.state ≡ true → ¬ (is_zombie w.state ≡ false)
    clash w e f = cc (e, f)

-- No slot below `i` can be reaped.
abbrev pub Reaped : List Process → ℕ → Type 0
Reaped ps i = (j : ℕ) (p : Process) → j < i → At ps j p → ¬ (reapable p ≡ true)

-- Releasing slot `i` makes nothing else reapable.
release-Reaped :
    (ps : List Process) (next i : ℕ) (p : Process)
    → IsTable ps next
    → At ps i p
    → p.used ≡ true
    → is_zombie p.state ≡ true
    → Reaped ps i
    → Reaped (set (adopt_children ps p.pid) i free_process) (i + 1)
release-Reaped ps next i p t at used ended before = elim (Bool-cases (p.pid == 0)) [
  | inl z ↦ absurd (no_zero_pid ps next i p t at z used)
  | inr nz ↦ rw (adopt_children-map ps p.pid nz) (λ j q lt h r.
      elim (get_elem?-set (map (orphan p.pid) ps) i j free_process q h) [
        | inl (e, same) ↦ free_not (subst (λ (w : Process). reapable w ≡ true) same r)
        | inr (ne, old) ↦
            let (o, ho, is_o) = At-map (orphan p.pid) ps j q old in
            before j o (omega (arith, lt, ne)) ho
              (unchanged j o ho (subst (λ (w : Process). reapable w ≡ true) is_o r))
      ])
]
  where
    free_not : ¬ (reapable free_process ≡ true)
    free_not e = cc

    unchanged :
        (j : ℕ) (o : Process) → At ps j o → reapable (orphan p.pid o) ≡ true → reapable o ≡ true
    unchanged j o ho r = elim (Bool-cases (o.used && o.parent_pid == p.pid)) [
      | inl child ↦ absurd (
          ended-Childless ps next i p t at used ended j o ho (ground (arith, child))
            (ground (arith, child)))
      | inr e ↦ rw e at r
    ]

module _ {M : Type 0} (sv : Services M) where
  pub release_process-eq :
      (k : Kernel M) (i : ℕ)
      → (process_at k.processes i).used ≡ true
      → is_zombie (process_at k.processes i).state ≡ true
      → (release_process sv k i).processes
        ≡ set (adopt_children k.processes (process_at k.processes i).pid) i free_process
  unfolding release_process
  release_process-eq k i u e = ground (arith, u, e)

  reap_from-Reaped :
      (k : Kernel M) (i n : ℕ)
      → IsValid k
      → i + n ≡ 8
      → Reaped k.processes i
      → Reaped (reap_from sv k i n).0.processes 8
  unfolding reap_from
  reap_from-Reaped k i zero v e before = λ j p lt. before j p (omega (arith, e, lt))
  reap_from-Reaped k i (suc n) v e before =
      elim (Bool-cases (reapable (process_at k.processes i))) [
        | inl r ↦
            simp (r, reap_from)
              (reap_from-Reaped (release_process sv k i) (i + 1) n
                (release_process-IsValid sv k i v (omega (arith, e, v.table.size)))
                (omega (arith, e))
                (rw (release_process-eq k i (ground (arith, r)) (ground (arith, r))) (
                  release-Reaped k.processes k.next_pid i (process_at k.processes i) v.table
                    (filled_slot k.processes i (omega (arith, e, v.table.size))) (ground (arith, r))
                    (ground (arith, r)) before)))
        | inr not_now ↦
            simp (not_now, reap_from)
              (reap_from-Reaped k (i + 1) n v (omega (arith, e)) (λ j p lt h r.
                elim (Bool-cases (j == i)) [
                  | inl same ↦
                      let here = filled_slot k.processes i (omega (arith, e, v.table.size)) in
                      let is_p =
                        At-unique k.processes i j (process_at k.processes i) p here h
                          ((==_iff j i).0 same) in
                      false≢true (sym not_now ∙ ap reapable (sym is_p) ∙ r)
                  | inr ne ↦ before j p (ground (arith, ne, lt)) h r
                ]))
      ]

-- After `process_reap_zombies` the table is still well-formed, and no slot holds an ended process
-- whose parent is 0, for any kernel that was well-formed before.
pub reap_zombies-Reaped :
    {M : Type 0} (sv : Services M) (k : Kernel M)
    → IsValid k
    → IsValid (reap_zombies sv k).0 × Reaped (reap_zombies sv k).0.processes 8
unfolding reap_zombies
reap_zombies-Reaped sv k v = (
  reap_from-IsValid sv k 0 8 v (omega arith),
  reap_from-Reaped sv k 0 8 v refl (λ j p lt. absurd (omega arith)),
)
