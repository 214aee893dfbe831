-- ===== src/Process/Table.antt =====
-- The process table of kernel/process.c stays well-formed when a slot is written.
use os_curriculum_design.Prelude.{
  ℕ, zero, suc, ◌≤◌, ◌<◌, ◌≡◌, ◌≢◌, ◌⊎◌, inl, inr, refl, sym, ap, subst, ◌∙◌, arith, true, false,
  some, List, [], ◌∷◌, length, length-set, get_elem?, set, get_elem?-lt, get_elem?-set_self,
  get_elem?-set_ne, ◌==◌, ==_iff, Bool-cases,
}
use os_curriculum_design.Process.{Process, is_zombie}

abbrev pub At : List Process → ℕ → Process → Type 0
At ps i p = get_elem? ps i ≡ some p

-- A process in the table that has this pid and has not ended.
pub record IsLiving (ps : List Process) (pid : ℕ) : Type 0 where
  pub slot : ℕ
  pub entry : Process
  pub at : At ps slot entry
  pub is_used : entry.used ≡ true
  pub has_pid : entry.pid ≡ pid
  pub lives : is_zombie entry.state ≡ false

abbrev pub HasParent : List Process → Process → Type 0
HasParent ps p = (p.parent_pid ≡ 0) ⊎ IsLiving ps p.parent_pid

-- The eight slots; the pids in use are distinct and were given out; and every parent is 0 or the pid
-- of a process that has not ended.
pub record IsTable (ps : List Process) (next_pid : ℕ) : Type 0 where
  pub size : length ps ≡ 8
  pub pids : (i : ℕ) (p : Process) → At ps i p → p.used ≡ true → (0 < p.pid) × (p.pid < next_pid)
  pub unique :
      (i j : ℕ) (p q : Process)
      → At ps i p
      → At ps j q
      → p.used ≡ true
      → q.used ≡ true
      → p.pid ≡ q.pid
      → i ≡ j
  pub parents : (i : ℕ) (p : Process) → At ps i p → p.used ≡ true → HasParent ps p

pub get_elem?-set :
    (ps : List Process) (i j : ℕ) (v p : Process)
    → At (set ps i v) j p
    → ((j ≡ i) × (p ≡ v)) ⊎ ((j ≢ i) × At ps j p)
get_elem?-set [] i j v p h = cc
get_elem?-set (x ∷ ps) zero zero v p h = inl (refl, ground (arith, h))
get_elem?-set (x ∷ ps) zero (suc j) v p h = inr (λ e. cc, h)
get_elem?-set (x ∷ ps) (suc i) zero v p h = inr (λ e. cc, h)
get_elem?-set (x ∷ ps) (suc i) (suc j) v p h = elim (get_elem?-set ps i j v p h) [
  | inl (e, same) ↦ inl (ap suc e, same)
  | inr (ne, old) ↦ inr (λ e. ne (omega (arith, e)), old)
]

used_too : {p v : Process} → p ≡ v → p.used ≡ true → v.used ≡ true
used_too e u = subst (λ (w : Process). w.used ≡ true) e u

same_pid : {p v : Process} → p ≡ v → p.pid ≡ v.pid
same_pid e = ap (λ (w : Process). w.pid) e

-- Who lives in another slot still does.
IsLiving-set :
    (ps : List Process) (i : ℕ) (v : Process) (pid : ℕ) (l : IsLiving ps pid)
    → l.slot ≢ i
    → IsLiving (set ps i v) pid
IsLiving-set ps i v pid l ne = record {
  slot = l.slot;
  entry = l.entry;
  at = get_elem?-set_ne ps v (λ e. ne (sym e)) ∙ l.at;
  is_used = l.is_used;
  has_pid = l.has_pid;
  lives = l.lives;
}

-- Writing one slot, with what has to be known of the new entry and of the others.
pub set-IsTable :
    (ps : List Process) (next next' i : ℕ) (v : Process)
    → IsTable ps next
    → next ≤ next'
    → (v.used ≡ true → (0 < v.pid) × (v.pid < next'))
    → (v.used ≡ true → (j : ℕ) (q : Process) → At ps j q → q.used ≡ true → j ≢ i → v.pid ≢ q.pid)
    → (v.used ≡ true → HasParent (set ps i v) v)
    → ((j : ℕ) (q : Process) → At ps j q → q.used ≡ true → j ≢ i → HasParent (set ps i v) q)
    → IsTable (set ps i v) next'
set-IsTable ps next next' i v t le new_pid fresh parent others = record {
  size = length-set ps i v ∙ t.size;
  pids = λ j p h u. elim (get_elem?-set ps i j v p h) [
    | inl (e, same) ↦
        subst (λ (w : Process). (0 < w.pid) × (w.pid < next')) (sym same)
          (new_pid (used_too same u))
    | inr (ne, old) ↦ (omega (arith, (t.pids j p old u).0), omega (arith, (t.pids j p old u).1, le))
  ];
  unique = λ j k p q hp hq up uq e. elim (get_elem?-set ps i j v p hp) [
    | inl (ej, same) ↦ elim (get_elem?-set ps i k v q hq) [
      | inl (ek, same') ↦ ej ∙ sym ek
      | inr (nk, old') ↦ absurd (fresh (used_too same up) k q old' uq nk (sym (same_pid same) ∙ e))
    ]
    | inr (nj, old) ↦ elim (get_elem?-set ps i k v q hq) [
      | inl (ek, same') ↦
          absurd (fresh (used_too same' uq) j p old up nj (sym (same_pid same') ∙ sym e))
      | inr (nk, old') ↦ t.unique j k p q old old' up uq e
    ]
  ];
  parents = λ j p h u. elim (get_elem?-set ps i j v p h) [
    | inl (e, same) ↦ subst (HasParent (set ps i v)) (sym same) (parent (used_too same u))
    | inr (ne, old) ↦ others j p old u ne
  ];
}

pub HasParent-set :
    (ps : List Process) (i : ℕ) (v q : Process)
    → HasParent ps q
    → ((l : IsLiving ps q.parent_pid) → l.slot ≡ i → IsLiving (set ps i v) q.parent_pid)
    → HasParent (set ps i v) q
HasParent-set ps i v q (inl e) h = inl e
HasParent-set ps i v q (inr l) h = elim (Bool-cases (l.slot == i)) [
  | inl e ↦ inr (h l ((==_iff l.slot i).0 e))
  | inr ne ↦ inr (IsLiving-set ps i v q.parent_pid l (ground (arith, ne)))
]

-- An entry that keeps the pid and the parent, and does not end.
pub record Keeps (p v : Process) : Type 0 where
  pub used : v.used ≡ p.used
  pub pid : v.pid ≡ p.pid
  pub parent_pid : v.parent_pid ≡ p.parent_pid
  pub state : is_zombie p.state ≡ false → is_zombie v.state ≡ false

some_inj : {p q : Process} → some p ≡ some q → p ≡ q
some_inj e = ground (arith, e)

-- Two entries of one slot are the same.
pub At-unique :
    (ps : List Process) (i j : ℕ) (p q : Process) → At ps i p → At ps j q → j ≡ i → q ≡ p
At-unique ps i j p q hp hq e = some_inj (sym hq ∙ ap (λ (k : ℕ). get_elem? ps k) e ∙ hp)

-- Changes of the state, the priority, the context and so on.
pub Keeps-IsTable :
    (ps : List Process) (next i : ℕ) (p v : Process)
    → IsTable ps next
    → At ps i p
    → Keeps p v
    → IsTable (set ps i v) next
Keeps-IsTable ps next i p v t at k =
    set-IsTable ps next next i v t (omega arith)
      (λ u. subst (λ (n : ℕ). (0 < n) × (n < next)) (sym k.pid) (t.pids i p at (sym k.used ∙ u)))
      (λ u j q hq uq ne e. ne (sym (t.unique i j p q at hq (sym k.used ∙ u) uq (sym k.pid ∙ e))))
      (λ u. parent v (elim (t.parents i p at (sym k.used ∙ u)) [
        | inl z ↦ inl (k.parent_pid ∙ z)
        | inr l ↦ inr (subst (IsLiving ps) (sym k.parent_pid) l)
      ]))
      (λ j q hq uq ne. parent q (t.parents j q hq uq))
  where
    parent : (q : Process) → HasParent ps q → HasParent (set ps i v) q
    parent q h = HasParent-set ps i v q h λ l e.
        let same = At-unique ps i l.slot p l.entry at l.at e in
        record {
          slot = i;
          entry = v;
          at = get_elem?-set_self ps i v (get_elem?-lt ps i p at);
          is_used = k.used ∙ used_too same l.is_used;
          has_pid = k.pid ∙ sym (same_pid same) ∙ l.has_pid;
          lives = k.state (subst (λ (w : Process). is_zombie w.state ≡ false) same l.lives);
        }
