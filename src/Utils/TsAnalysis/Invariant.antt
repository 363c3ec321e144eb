-- ===== src/Utils/TsAnalysis/Invariant.antt =====
-- What a check of an inductive invariant that passes says of the executions.
use pono.Base.{
  ℕ, zero, suc, ◌≤◌, ◌<◌, ◌≡◌, inl, inr, ap, arith, true, List, [], ◌∷◌, All, Eq, Bool-cases, sym,
  ◌∙◌,
}
use pono.Smt.{Smt}
use pono.Smt.Laws.{SmtLaws, Model, holds}
use pono.Smt.Solver.{Solver, SolverLaws, Satisfies, add_top, drop_top}
use pono.Ts.{TransitionSystem}
use pono.Ts.Symbols.{only_curr, next}
use pono.Ts.Executions.{Execution, IsDeclared, eval-next}
use pono.Utils.TsAnalysis.{assert_all, passes, check_invar}

module _ {Term : Type 0} ⦃e : Eq Term⦄ (smt : Smt Term) (laws : SmtLaws smt) (solver : Solver Term)
    (rules : SolverLaws smt solver) where
  open smt use {make_not}
  open solver use {State, push, pop, frames, check_sat_assuming}

  abbrev IsTrueIn : Model smt → Term → Type 0
  IsTrueIn σ t = holds smt σ t ≡ true

  assert_all-Satisfies :
      (σ : Model smt) (ts : List Term) (s : State)
      → All (IsTrueIn σ) ts
      → Satisfies smt solver σ (frames s)
      → Satisfies smt solver σ (frames (assert_all smt solver ts s))
  unfolding assert_all
  assert_all-Satisfies σ [] s h k = k
  assert_all-Satisfies σ (t ∷ ts) s h k =
      assert_all-Satisfies σ ts (solver.assert_formula t s) h.1
        (rw (rules.frames-assert t s) (added (frames s) k))
    where
      added :
          (fs : List (List Term))
          → Satisfies smt solver σ fs
          → Satisfies smt solver σ (add_top t fs)
      added [] k' = ((h.0, tt), tt)
      added (f ∷ fs) k' = ((h.0, k'.0), k'.1)

  drop_top-assert_all :
      (ts : List Term) (s : State) (f : List Term) (fs : List (List Term))
      → frames s ≡ f ∷ fs
      → drop_top (frames (assert_all smt solver ts s)) ≡ fs
  unfolding assert_all
  drop_top-assert_all [] s f fs h = ap drop_top h
  drop_top-assert_all (t ∷ ts) s f fs h =
      drop_top-assert_all ts (solver.assert_formula t s) (t ∷ f) fs
        (rules.frames-assert t s ∙ ap (add_top t) h)

  -- a check leaves the frames as they are, and none of its models satisfies the formulas if it passes
  passes_lem :
      (ts : List Term) (s : State)
      → (frames (passes smt solver ts s).1 ≡ frames s)
        × ((passes smt solver ts s).0 ≡ true
            → (σ : Model smt) → Satisfies smt solver σ (frames s)
            → All (IsTrueIn σ) ts
            → ⊥)
  unfolding passes
  passes_lem ts s =
      let start = assert_all smt solver ts (push s) in
      (
        rules.frames-pop (check_sat_assuming [] start).1
            ∙ ap drop_top (rules.frames-check [] start)
            ∙ drop_top-assert_all ts (push s) [] (frames s) (rules.frames-push s),
        λ h σ k all.
            rules.unsat_sound [] start (ground arith) σ
              (tt, assert_all-Satisfies σ ts (push s) all (rw (rules.frames-push s) (tt, k))),
      )

  -- what the three checks say
  record Inductive (ts : TransitionSystem Term) (prop invar : Term) : Type 0 where
    curr : only_curr smt ts invar ≡ true
    initial : (σ : Model smt) → IsTrueIn σ ts.init → IsTrueIn σ invar
    inductive :
        (σ : Model smt) → IsTrueIn σ invar → IsTrueIn σ ts.trans → IsTrueIn σ (next smt ts invar)
    strong : (σ : Model smt) → IsTrueIn σ invar → IsTrueIn σ prop

  check_invar-Inductive :
      (ts : TransitionSystem Term) (prop invar : Term) (fresh : State)
      → frames fresh ≡ [] ∷ []
      → check_invar smt solver ts prop invar fresh ≡ true
      → Inductive ts prop invar
  unfolding check_invar
  check_invar-Inductive ts prop invar fresh empty h =
      let a = ts.init ∷ make_not invar ∷ [] in
      let b = invar ∷ ts.trans ∷ make_not (next smt ts invar) ∷ [] in
      let c = invar ∷ make_not prop ∷ [] in
      let s1 = (passes smt solver a fresh).1 in
      let s2 = (passes smt solver b s1).1 in
      let (keep1, no1) = passes_lem a fresh in
      let (keep2, no2) = passes_lem b s1 in
      let (keep3, no3) = passes_lem c s2 in
      let none1 : (σ : Model smt) → Satisfies smt solver σ (frames fresh) =
        λ σ. rw empty (tt, tt) in
      let none2 : (σ : Model smt) → Satisfies smt solver σ (frames s1) = λ σ. rw keep1 (none1 σ) in
      let none3 : (σ : Model smt) → Satisfies smt solver σ (frames s2) = λ σ. rw keep2 (none2 σ) in
      record {
        curr = ground arith;
        initial = λ σ i. elim (Bool-cases (holds smt σ invar)) [
          | inl y ↦ y
          | inr n ↦
              absurd
                (no1 (ground arith) σ (none1 σ) (i, (ground (arith, laws.holds-not σ invar), tt)))
        ];
        inductive = λ σ i t. elim (Bool-cases (holds smt σ (next smt ts invar))) [
          | inl y ↦ y
          | inr n ↦ absurd (
              no2 (ground arith) σ (none2 σ)
                (i, (t, (ground (arith, laws.holds-not σ (next smt ts invar)), tt))))
        ];
        strong = λ σ i. elim (Bool-cases (holds smt σ prop)) [
          | inl y ↦ y
          | inr n ↦
              absurd
                (no3 (ground arith) σ (none3 σ) (i, (ground (arith, laws.holds-not σ prop), tt)))
        ];
      }

  invar_throughout :
      (ts : TransitionSystem Term) (prop invar : Term)
      → IsDeclared smt ts
      → Inductive ts prop invar
      → (k : ℕ) (π : ℕ → Model smt) → Execution smt ts k π
      → (i : ℕ) → i ≤ k
      → IsTrueIn (π i) invar
  invar_throughout ts prop invar d ind k π run zero le = ind.initial (π 0) run.starts
  invar_throughout ts prop invar d ind k π run (suc i) le =
      let before = invar_throughout ts prop invar d ind k π run i (omega arith) in
      let lt : i < k = omega arith in
      let step = ind.inductive (π i) before (run.steps i lt) in
      let same =
        eval-next smt laws ts d (π i) (π (suc i)) invar (λ v n m at. run.linked i lt v n m at)
          ind.curr in
      ap smt.is_true (sym same) ∙ step

  -- When `check_invar` passes, from a solver without assertions and on a system whose variables are declared, the
  -- property holds at every time of every execution, of any length.
  pub check_invar-Execution :
      (ts : TransitionSystem Term) (prop invar : Term) (fresh : State)
      → IsDeclared smt ts
      → frames fresh ≡ [] ∷ []
      → check_invar smt solver ts prop invar fresh ≡ true
      → (k : ℕ) (π : ℕ → Model smt) → Execution smt ts k π
      → (i : ℕ) → i ≤ k
      → holds smt (π i) prop ≡ true
  check_invar-Execution ts prop invar fresh d empty h k π run i le =
      let ind = check_invar-Inductive ts prop invar fresh empty h in
      ind.strong (π i) (invar_throughout ts prop invar d ind k π run i le)
