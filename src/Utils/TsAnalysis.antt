-- ===== src/Utils/TsAnalysis.antt =====
-- utils/ts_analysis.h and utils/ts_analysis.cpp: the check of an inductive invariant. The fresh solver is a state
-- of the solver; its terms are those of the system, which the code transfers.
pub mod Invariant
use pono.Base.{Bool, true, false, not, ◌&&◌, List, [], ◌∷◌, Eq, if◌then◌else◌}
use pono.Smt.{Smt}
use pono.Smt.Solver.{Solver, Answer, unsat}
use pono.Ts.{TransitionSystem}
use pono.Ts.Symbols.{only_curr, next}

module _ {Term : Type 0} ⦃e : Eq Term⦄ (smt : Smt Term) (solver : Solver Term) where
  open smt use {make_not}
  open solver use {State, assert_formula, push, pop, check_sat_assuming}

  -- for (f : formulas) assert(f)
  assert_all : List Term → State → State
  assert_all [] s = s
  assert_all (t ∷ ts) s = assert_all ts (assert_formula t s)

  -- `push`, the assertions, `check_sat`, `pop`: whether the answer is `unsat`
  passes : List Term → State → Bool × State
  unfolding assert_all
  passes formulas s =
      let (r, s') = check_sat_assuming [] (assert_all formulas (push s)) in
      (elim r [ unsat ↦ true | _ ↦ false ], pop s')

  unfoldable pub check_invar : TransitionSystem Term → Term → Term → State → Bool
  unfolding passes
  check_invar ts prop invar fresh =
      let (initial, s1) = passes (ts.init ∷ make_not invar ∷ []) fresh in
      let (inductive, s2) = passes (invar ∷ ts.trans ∷ make_not (next smt ts invar) ∷ []) s1 in
      let (strong, s3) = passes (invar ∷ make_not prop ∷ []) s2 in
      if only_curr smt ts invar then initial && inductive && strong else false
