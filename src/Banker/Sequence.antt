-- ===== src/Banker/Sequence.antt =====
-- `banker_state_is_safe` against its specification, the existence of a completion sequence.
use os_curriculum_design.Prelude.{
  ℕ, zero, suc, ◌+◌, ◌≤◌, ◌<◌, ◌≡◌, refl, subst, arith, Bool, true, false, some, List, [], ◌∷◌,
  length, if◌then◌else◌, Bool-cases, ◌↔◌, add32, inl, inr,
}
use os_curriculum_design.Banker.{
  Resources, BankerProcess, zip_resources, vector_leq, can_run, all_finished, scan_pass, scan_loop,
}

abbrev pub Covers : Resources → Resources → Type 0
Covers work need = (need.r0 ≤ work.r0) × (need.r1 ≤ work.r1) × (need.r2 ≤ work.r2)

pub vector_leq_iff : (a b : Resources) → (vector_leq a b ≡ true) ↔ Covers b a
unfolding vector_leq
vector_leq_iff a b = (λ h. ground arith, λ h. ground arith)

pub can_run_iff :
    (p : BankerProcess) (f : Bool) (w : Resources)
    → (can_run p f w ≡ true) ↔ ((p.used ≡ true) × (f ≡ false) × Covers w p.need)
unfolding can_run
can_run_iff p f w =
    (λ h. ground (arith, vector_leq_iff p.need w), λ h. ground (arith, vector_leq_iff p.need w))

-- One unfinished process whose need is covered runs to its end and returns what it holds.
pub data Finish : List BankerProcess → List Bool → Resources → List Bool → Resources → Type 0 where
  here :
      {p : BankerProcess} {ps : List BankerProcess} {f : Bool} {fs : List Bool} {w : Resources}
      → p.used ≡ true
      → f ≡ false
      → Covers w p.need
      → Finish (p ∷ ps) (f ∷ fs) w (true ∷ fs) (zip_resources add32 w p.allocation)
  there :
      {p : BankerProcess} {ps : List BankerProcess} {f : Bool} {fs gs : List Bool} {w v : Resources}
      → Finish ps fs w gs v
      → Finish (p ∷ ps) (f ∷ fs) w (f ∷ gs) v

-- Several such runs in a row.
pub data Runs (ps : List BankerProcess)
    : List Bool → Resources → List Bool → Resources → Type 0 where
  stop : {fs : List Bool} {w : Resources} → Runs ps fs w fs w
  then_run :
      {fs gs hs : List Bool} {w v u : Resources}
      → Finish ps fs w gs v
      → Runs ps gs v hs u
      → Runs ps fs w hs u

-- A completion sequence: runs after which every registered process has finished.
abbrev pub Completes : List BankerProcess → List Bool → Resources → Type 0
Completes ps fs w =
    (gs : List Bool) × (v : Resources) × Runs ps fs w gs v × (all_finished ps gs ≡ true)

pub Runs-trans :
    {ps : List BankerProcess} {fs gs hs : List Bool} {w v u : Resources}
    → Runs ps fs w gs v
    → Runs ps gs v hs u
    → Runs ps fs w hs u
Runs-trans stop r = r
Runs-trans (then_run s t) r = then_run s (Runs-trans t r)

Runs-there :
    {p : BankerProcess} {ps : List BankerProcess} {f : Bool} {fs gs : List Bool} {w v : Resources}
    → Runs ps fs w gs v
    → Runs (p ∷ ps) (f ∷ fs) w (f ∷ gs) v
Runs-there stop = stop
Runs-there (then_run s r) = then_run (there s) (Runs-there r)

scan_pass-Runs :
    (ps : List BankerProcess) (fs : List Bool) (w : Resources)
    → let (v, gs, progress) = scan_pass ps fs w in Runs ps fs w gs v
unfolding scan_pass
scan_pass-Runs [] fs w = stop
scan_pass-Runs (p ∷ ps) [] w = stop
scan_pass-Runs (p ∷ ps) (f ∷ fs) w = elim (Bool-cases (can_run p f w)) [
  | inl e ↦
      let (used, unfinished, covered) = (can_run_iff p f w).0 e in
      rw e (then_run (here used unfinished covered) (Runs-there (scan_pass-Runs ps fs _)))
  | inr e ↦ rw e (Runs-there (scan_pass-Runs ps fs w))
]

-- No entry of the table can run.
abbrev pub Stuck : List BankerProcess → List Bool → Resources → Type 0
Stuck [] fs w = Unit {0}
Stuck (p ∷ ps) [] w = Unit {0}
Stuck (p ∷ ps) (f ∷ fs) w = (can_run p f w ≡ false) × Stuck ps fs w

-- A pass without progress changes nothing, and nothing can run.
scan_pass_idle :
    (ps : List BankerProcess) (fs : List Bool) (w : Resources)
    → (scan_pass ps fs w).2 ≡ false
    → ((scan_pass ps fs w).0 ≡ w) × ((scan_pass ps fs w).1 ≡ fs) × Stuck ps fs w
unfolding scan_pass
scan_pass_idle [] fs w e = (refl, refl, tt)
scan_pass_idle (p ∷ ps) [] w e = (refl, refl, tt)
scan_pass_idle (p ∷ ps) (f ∷ fs) w e = elim (Bool-cases (can_run p f w)) [
  | inl hit ↦ absurd (ground arith)
  | inr miss ↦ ground (arith, scan_pass_idle ps fs w)
]

-- What the loop returns is reached by runs, and nothing more can run there.
pub scan_loop-Runs :
    (fuel : ℕ) (ps : List BankerProcess) (fs : List Bool) (w : Resources)
    (r : Resources × List Bool)
    → scan_loop fuel ps fs w ≡ some r
    → Runs ps fs w r.1 r.0 × Stuck ps r.1 r.0
unfolding scan_loop
scan_loop-Runs zero ps fs w r e = cc
scan_loop-Runs (suc fuel) ps fs w r e = elim (Bool-cases (scan_pass ps fs w).2) [
  | inl more ↦
      let (runs, stuck) = scan_loop-Runs fuel ps _ _ r (rw (more, scan_loop) at e) in
      (Runs-trans (scan_pass-Runs ps fs w) runs, stuck)
  | inr done ↦
      let (same_work, same_finish, stuck) = scan_pass_idle ps fs w done in
      subst (λ (q : Resources × List Bool). Runs ps fs w q.1 q.0 × Stuck ps q.1 q.0)
        (ground (arith, done, e)) (scan_pass-Runs ps fs w, rw (same_work, same_finish) stuck)
]

pub unfinished : List Bool → ℕ
unfinished [] = 0
unfinished (f ∷ fs) = if f then unfinished fs else unfinished fs + 1

pub unfinished-le-length : (fs : List Bool) → unfinished fs ≤ length fs
unfolding unfinished
unfinished-le-length [] = omega arith
unfinished-le-length (f ∷ fs) = ground (arith, unfinished-le-length fs)

unfinished-scan_pass :
    (ps : List BankerProcess) (fs : List Bool) (w : Resources)
    → let (v, gs, progress) = scan_pass ps fs w in
      unfinished gs + (if progress then 1 else 0) ≤ unfinished fs
unfolding scan_pass unfinished can_run
unfinished-scan_pass [] fs w = omega arith
unfinished-scan_pass (p ∷ ps) [] w = omega arith
unfinished-scan_pass (p ∷ ps) (f ∷ fs) w = elim (Bool-cases (can_run p f w)) [
  | inl hit ↦ ground (arith, unfinished-scan_pass ps fs (zip_resources add32 w p.allocation))
  | inr miss ↦ ground (arith, unfinished-scan_pass ps fs w)
]

-- With one pass more than there are unfinished processes the loop ends.
pub scan_loop_total :
    (fuel : ℕ) (ps : List BankerProcess) (fs : List Bool) (w : Resources)
    → unfinished fs < fuel
    → (r : Resources × List Bool) × (scan_loop fuel ps fs w ≡ some r)
unfolding scan_loop
scan_loop_total zero ps fs w h = absurd (omega arith)
scan_loop_total (suc fuel) ps fs w h = elim (Bool-cases (scan_pass ps fs w).2) [
  | inl more ↦
      rw (more, scan_loop)
        (scan_loop_total fuel ps _ _ (ground (arith, more, h, unfinished-scan_pass ps fs w)))
  | inr done ↦ (((scan_pass ps fs w).0, (scan_pass ps fs w).1), rw (done, scan_loop))
]
