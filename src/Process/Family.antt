-- ===== src/Process/Family.antt =====
-- Parents and children in the process table: adoption, the end of a process, and a new one.
use os_curriculum_design.Prelude.{
  ℕ, zero, suc, ◌<◌, ◌≡◌, ◌≢◌, ◌⊎◌, inl, inr, refl, sym, ap, subst, ◌∙◌, arith, true, ◌&&◌, some,
  List, [], ◌∷◌, map, length-map, set, ◌==◌, Bool-cases,
}
use os_curriculum_design.Process.{Process, is_zombie, orphan}
use os_curriculum_design.Process.Table.{
  At, IsLiving, HasParent, IsTable, set-IsTable, HasParent-set, At-unique,
}

pub At-map :
    (f : Process → Process) (ps : List Process) (i : ℕ) (p : Process)
    → At (map f ps) i p
    → (q : Process) × At ps i q × (p ≡ f q)
At-map f [] i p h = cc
At-map f (x ∷ ps) zero p h = (x, refl, ground (arith, h))
At-map f (x ∷ ps) (suc i) p h = At-map f ps i p h

pub map-At :
    (f : Process → Process) (ps : List Process) (i : ℕ) (q : Process)
    → At ps i q
    → At (map f ps) i (f q)
map-At f [] i q h = cc
map-At f (x ∷ ps) zero q h = ap some (ap f (ground (arith, h)))
map-At f (x ∷ ps) (suc i) q h = map-At f ps i q h

pub set-map :
    (f : Process → Process) (ps : List Process) (i : ℕ) (v : Process)
    → map f (set ps i v) ≡ set (map f ps) i (f v)
set-map f [] i v = refl
set-map f (x ∷ ps) zero v = refl
set-map f (x ∷ ps) (suc i) v = ap (◌∷◌ (f x)) (set-map f ps i v)

-- What adoption leaves of an entry.
pub orphan_keeps :
    (n : ℕ) (p : Process)
    → ((orphan n p).used ≡ p.used) × ((orphan n p).pid ≡ p.pid) × ((orphan n p).state ≡ p.state)
orphan_keeps n p = elim (Bool-cases (p.used && p.parent_pid == n)) [
  | inl e ↦ simp e (refl, refl, refl)
  | inr e ↦ simp e (refl, refl, refl)
]

orphan_parent :
    (n : ℕ) (p : Process) → ((orphan n p).parent_pid ≡ 0) ⊎ ((orphan n p).parent_pid ≡ p.parent_pid)
orphan_parent n p = ground arith

orphan_leaves : (n : ℕ) (p : Process) → n ≢ 0 → p.used ≡ true → (orphan n p).parent_pid ≢ n
orphan_leaves n p ne u = ground (arith, ne, u)

IsLiving-map :
    (n : ℕ) (ps : List Process) (pid : ℕ) → IsLiving ps pid → IsLiving (map (orphan n) ps) pid
IsLiving-map n ps pid l =
    let (u, i, s) = orphan_keeps n l.entry in
    record {
      slot = l.slot;
      entry = orphan n l.entry;
      at = map-At (orphan n) ps l.slot l.entry l.at;
      is_used = u ∙ l.is_used;
      has_pid = i ∙ l.has_pid;
      lives = ap is_zombie s ∙ l.lives;
    }

-- What is shown of an adopted entry's original holds of it.
from_original :
    (n : ℕ) (p q : Process) → p ≡ orphan n q → p.used ≡ true → (q.used ≡ true) × (p.pid ≡ q.pid)
from_original n p q e u =
    let (u', i, _) = orphan_keeps n q in
    (sym u' ∙ subst (λ (w : Process). w.used ≡ true) e u, ap (λ (w : Process). w.pid) e ∙ i)

pub map-IsTable :
    (n : ℕ) (ps : List Process) (next : ℕ) → IsTable ps next → IsTable (map (orphan n) ps) next
map-IsTable n ps next t = record {
  size = length-map ps (orphan n) ∙ t.size;
  pids = λ i p h u.
      let (q, at, e) = At-map (orphan n) ps i p h in
      let (uq, same) = from_original n p q e u in
      subst (λ (m : ℕ). (0 < m) × (m < next)) (sym same) (t.pids i q at uq);
  unique = λ i j p q hp hq up uq e.
      let (p', at, ep) = At-map (orphan n) ps i p hp in
      let (q', at', eq) = At-map (orphan n) ps j q hq in
      let (up', sp) = from_original n p p' ep up in
      let (uq', sq) = from_original n q q' eq uq in
      t.unique i j p' q' at at' up' uq' (sym sp ∙ e ∙ sq);
  parents = λ i p h u.
      let (q, at, e) = At-map (orphan n) ps i p h in
      subst (HasParent (map (orphan n) ps)) (sym e)
        (kept q (t.parents i q at (from_original n p q e u).0));
}
  where
    kept : (q : Process) → HasParent ps q → HasParent (map (orphan n) ps) (orphan n q)
    kept q h = elim (orphan_parent n q) [
      | inl z ↦ inl z
      | inr same ↦ elim h [
        | inl z ↦ inl (same ∙ z)
        | inr l ↦
            inr (subst (IsLiving (map (orphan n) ps)) (sym same) (IsLiving-map n ps q.parent_pid l))
      ]
    ]

-- Nobody in the table is a child of this pid.
abbrev pub Childless : List Process → ℕ → Type 0
Childless ps pid = (j : ℕ) (q : Process) → At ps j q → q.used ≡ true → q.parent_pid ≢ pid

pub map-Childless : (n : ℕ) (ps : List Process) → n ≢ 0 → Childless (map (orphan n) ps) n
map-Childless n ps ne j p h u =
    let (q, at, e) = At-map (orphan n) ps j p h in
    subst (λ (w : Process). w.parent_pid ≢ n) (sym e)
      (orphan_leaves n q ne (from_original n p q e u).0)

-- A process without children ends or goes.
pub end-IsTable :
    (ps : List Process) (next i : ℕ) (p v : Process)
    → IsTable ps next
    → At ps i p
    → (p.used ≡ true → Childless ps p.pid)
    → (v.used ≡ true → (p.used ≡ true) × (v.pid ≡ p.pid) × (v.parent_pid ≡ p.parent_pid))
    → IsTable (set ps i v) next
end-IsTable ps next i p v t at childless same =
    set-IsTable ps next next i v t (omega arith)
      (λ u. subst (λ (n : ℕ). (0 < n) × (n < next)) (sym (same u).1) (t.pids i p at (same u).0))
      (λ u j q hq uq ne e. ne (sym (t.unique i j p q at hq (same u).0 uq (sym (same u).1 ∙ e))))
      (λ u. elim (t.parents i p at (same u).0) [
        | inl z ↦ inl ((same u).2 ∙ z)
        | inr l ↦
            parent v i p at (same u).0 (inr (subst (IsLiving ps) (sym (same u).2) l)) (same u).2
      ])
      (λ j q hq uq ne. parent q j q hq uq (t.parents j q hq uq) refl)
  where
    parent :
        (w : Process) (j : ℕ) (q : Process)
        → At ps j q
        → q.used ≡ true
        → HasParent ps w
        → w.parent_pid ≡ q.parent_pid
        → HasParent (set ps i v) w
    parent w j q hq uq h e = HasParent-set ps i v w h λ l here.
        let is_p = At-unique ps i l.slot p l.entry at l.at here in
        let up = subst (λ (x : Process). x.used ≡ true) is_p l.is_used in
        absurd (childless up j q hq uq (sym e ∙ sym l.has_pid ∙ ap (λ (x : Process). x.pid) is_p))
