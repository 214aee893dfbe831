-- ===== src/Banker/Safety.antt =====
-- `banker_state_is_safe` decides whether a completion sequence exists.
use os_curriculum_design.Prelude.{
  suc, ◌+◌, ◌≤◌, ◌<◌, ◌^◌, ◌≡◌, refl, sym, ◌∙◌, arith, Bool, true, false, some, List, [], ◌∷◌,
  length, length-map, if◌then◌else◌, ◌↔◌,
}
use native.Mathlib.Nat.{le_trans}
use os_curriculum_design.Banker.{
  Resources, BankerProcess, can_run, all_finished, scan_loop, initial_finish, state_is_safe,
}
use os_curriculum_design.Banker.Sequence.{
  Covers, can_run_iff, Finish, Finish.here, Finish.there, Runs, Runs.stop, Runs.then_run, Completes,
  Stuck, unfinished-le-length, scan_loop-Runs, scan_loop_total,
}
use os_curriculum_design.Banker.Totals.{
  Kind, amount, Covers-iff, held, outstanding, outstanding-initial_finish, Finish-outstanding,
}

-- Whatever has finished in the first list has finished in the second.
abbrev Sub : List Bool → List Bool → Type 0
Sub [] [] = Unit {0}
Sub [] (g ∷ gs) = ⊥
Sub (f ∷ fs) [] = ⊥
Sub (f ∷ fs) (g ∷ gs) = (f ≡ true → g ≡ true) × Sub fs gs

outstanding_mono :
    (k : Kind) (ps : List BankerProcess) (fs gs : List Bool)
    → Sub fs gs
    → outstanding k ps gs ≤ outstanding k ps fs
unfolding outstanding
outstanding_mono k [] fs gs h = omega arith
outstanding_mono k (p ∷ ps) [] [] h = omega arith
outstanding_mono k (p ∷ ps) [] (g ∷ gs) h = absurd h
outstanding_mono k (p ∷ ps) (f ∷ fs) [] h = absurd h
outstanding_mono k (p ∷ ps) (f ∷ fs) (g ∷ gs) h =
    ground (arith, h.0, outstanding_mono k ps fs gs h.1)

all_finished_mono :
    (ps : List BankerProcess) (fs gs : List Bool)
    → Sub fs gs
    → all_finished ps fs ≡ true
    → all_finished ps gs ≡ true
unfolding all_finished
all_finished_mono [] fs gs h e = refl
all_finished_mono (p ∷ ps) [] [] h e = refl
all_finished_mono (p ∷ ps) [] (g ∷ gs) h e = absurd h
all_finished_mono (p ∷ ps) (f ∷ fs) [] h e = absurd h
all_finished_mono (p ∷ ps) (f ∷ fs) (g ∷ gs) h e =
    ground (arith, h.0, all_finished_mono ps fs gs h.1)

-- Where nothing can run with more resources, whoever runs with fewer has finished already.
Finish-Sub :
    {ps : List BankerProcess} {fs fs' : List Bool} {w w' : Resources} (gs : List Bool)
    (v : Resources)
    → Finish ps fs w fs' w'
    → Stuck ps gs v
    → ((k : Kind) → amount k w ≤ amount k v)
    → Sub fs gs
    → Sub fs' gs
Finish-Sub [] v (here used unfinished covered) stuck more sub = sub
Finish-Sub (true ∷ gs) v (here used unfinished covered) stuck more sub = (λ _. refl, sub.1)
Finish-Sub (false ∷ gs) v (here {p} {ps} {f} {fs} {w} used unfinished covered) stuck more sub =
    absurd (clash ((can_run_iff p false v).1 (used, refl, more_covered)))
  where
    more_covered : Covers v p.need
    more_covered =
        (Covers-iff v p.need).1 λ k. le_trans ((Covers-iff w p.need).0 covered k) (more k)

    clash : ¬ (can_run p false v ≡ true)
    clash e = cc (e, stuck.0)
Finish-Sub [] v (there s) stuck more sub = sub
Finish-Sub (g ∷ gs) v (there s) stuck more sub = (sub.0, Finish-Sub gs v s stuck.1 more sub.1)

-- The resources that the runs move about, one kind at a time, in 32 bits.
abbrev Fits : List BankerProcess → List Bool → Resources → Type 0
Fits ps fs w = (k : Kind) → amount k w + outstanding k ps fs < 2 ^ 32

-- Two stages of the same run: nothing was lost between them.
abbrev SameTotal : List BankerProcess → List Bool → Resources → List Bool → Resources → Type 0
SameTotal ps fs w gs v =
    (k : Kind) → amount k w + outstanding k ps fs ≡ amount k v + outstanding k ps gs

Runs-SameTotal :
    {ps : List BankerProcess} {fs gs : List Bool} {w v : Resources}
    → Fits ps fs w
    → Runs ps fs w gs v
    → SameTotal ps fs w gs v
Runs-SameTotal fits stop k = refl
Runs-SameTotal fits (then_run s r) k =
    sym (Finish-outstanding k s (fits k))
    ∙ Runs-SameTotal (λ j. omega (arith, fits j, Finish-outstanding j s (fits j))) r k

-- Every run stays below a stage where nothing more can run.
Runs-Sub :
    {ps : List BankerProcess} {fs hs : List Bool} {w u : Resources} (gs : List Bool) (v : Resources)
    → Fits ps fs w
    → Runs ps fs w hs u
    → Stuck ps gs v
    → SameTotal ps fs w gs v
    → Sub fs gs
    → Sub hs gs
Runs-Sub gs v fits stop stuck same sub = sub
Runs-Sub {ps} {fs} {hs} {w} {u} gs v fits (then_run s r) stuck same sub =
    Runs-Sub gs v (λ j. omega (arith, fits j, Finish-outstanding j s (fits j))) r stuck
      (λ j. omega (arith, same j, Finish-outstanding j s (fits j)))
      (Finish-Sub gs v s stuck (λ j. omega (arith, same j, outstanding_mono j ps fs gs sub)) sub)

Sub-refl : (fs : List Bool) → Sub fs fs
Sub-refl [] = tt
Sub-refl (f ∷ fs) = (λ e. e, Sub-refl fs)

Sub-trans : (fs gs hs : List Bool) → Sub fs gs → Sub gs hs → Sub fs hs
Sub-trans [] [] [] a b = tt
Sub-trans [] [] (h ∷ hs) a b = b
Sub-trans [] (g ∷ gs) hs a b = absurd a
Sub-trans (f ∷ fs) [] hs a b = absurd a
Sub-trans (f ∷ fs) (g ∷ gs) [] a b = absurd b
Sub-trans (f ∷ fs) (g ∷ gs) (h ∷ hs) a b = (λ e. b.0 (a.0 e), Sub-trans fs gs hs a.1 b.1)

Finish-grows :
    {ps : List BankerProcess} {fs gs : List Bool} {w v : Resources}
    → Finish ps fs w gs v
    → Sub fs gs
Finish-grows (here {fs = fs} used unfinished covered) = (λ _. refl, Sub-refl fs)
Finish-grows (there s) = (λ e. e, Finish-grows s)

Runs-grows :
    {ps : List BankerProcess} {fs gs : List Bool} {w v : Resources} → Runs ps fs w gs v → Sub fs gs
Runs-grows (stop {fs = fs}) = Sub-refl fs
Runs-grows (then_run s r) = Sub-trans _ _ _ (Finish-grows s) (Runs-grows r)

-- From one start, a run that ends with nothing left to run finishes all that any run can.
Stuck-finishes :
    {ps : List BankerProcess} {fs gs hs : List Bool} {w v u : Resources}
    → Fits ps fs w
    → Runs ps fs w gs v
    → Stuck ps gs v
    → Runs ps fs w hs u
    → all_finished ps hs ≡ true
    → all_finished ps gs ≡ true
Stuck-finishes {ps} {fs} {gs} {hs} {w} {v} {u} fits mine stuck other e =
    all_finished_mono ps hs gs
      (Runs-Sub gs v fits other stuck (Runs-SameTotal fits mine) (Runs-grows mine)) e

scan_loop-result :
    (available : Resources) (ps : List BankerProcess)
    → (r : Resources × List Bool) × (scan_loop (suc (length ps)) ps (initial_finish ps) available
        ≡ some r)
scan_loop-result available ps = scan_loop_total (suc (length ps)) ps (initial_finish ps) available (
    omega (
      arith,
      unfinished-le-length (initial_finish ps),
      length-map ps (λ p. if p.used then false else true),
    ))

-- `banker_state_is_safe` answers yes exactly when some order of runs lets every registered process
-- finish, provided that each kind's total fits 32 bits.
pub state_is_safe_iff :
    (available : Resources) (ps : List BankerProcess)
    → ((k : Kind) → amount k available + held k ps < 2 ^ 32)
    → (state_is_safe available ps ≡ true) ↔ Completes ps (initial_finish ps) available
unfolding state_is_safe
state_is_safe_iff available ps fits =
    let ((work, finish), e) = scan_loop-result available ps in
    let (runs, stuck) = scan_loop-Runs _ ps (initial_finish ps) available (work, finish) e in
    (
      λ safe. (finish, work, runs, rw (e, state_is_safe) at safe),
      λ (gs, v, other, all).
          rw (e, state_is_safe)
            (Stuck-finishes (λ k. omega (arith, fits k, outstanding-initial_finish k ps)) runs stuck
              other all),
    )
