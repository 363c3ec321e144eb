-- ===== src/Smt/Solver.antt =====
-- The incremental solver of smt-switch (`AbsSmtSolver`), a parameter of the engines: a stack of frames
-- of assertions, checks, and the model of the last check.
use pono.Base.{◌≡◌, Bool, true, List, [], ◌∷◌, All, Eq}
use pono.Smt.{Smt}
use pono.Smt.Laws.{Model, holds}

pub data Answer : Type 0 where
  sat unsat unknown : Answer

pub record Solver (Term : Type 0) : Type 1 where
  pub State : Type 0
  pub assert_formula : Term → State → State
  pub push : State → State
  pub pop : State → State
  pub reset_assertions : State → State
  pub check_sat_assuming : List Term → State → Answer × State
  -- `get_value(t) == make_term(true)`, for a Boolean term
  pub get_value : Term → State → Bool
  -- the assertions of each frame, the last frame first
  pub frames : State → List (List Term)

abbrev pub add_top {ℓ} : {A : Type ℓ} → A → List (List A) → List (List A)
add_top a [] = (a ∷ []) ∷ []
add_top a (f ∷ fs) = (a ∷ f) ∷ fs

abbrev pub drop_top {ℓ} : {A : Type ℓ} → List (List A) → List (List A)
drop_top [] = []
drop_top (f ∷ fs) = fs

module _ {Term : Type 0} ⦃e : Eq Term⦄ (smt : Smt Term) (solver : Solver Term) where
  open solver use {
    State, assert_formula, push, pop, reset_assertions, check_sat_assuming, get_value, frames,
  }

  -- the model satisfies every assertion
  abbrev pub Satisfies : Model smt → List (List Term) → Type 0
  Satisfies σ = All (All (λ t. holds smt σ t ≡ true))

  pub record SolverLaws : Type 0 where
    pub frames-assert : (t : Term) (s : State) → frames (assert_formula t s) ≡ add_top t (frames s)
    pub frames-push : (s : State) → frames (push s) ≡ [] ∷ frames s
    pub frames-pop : (s : State) → frames (pop s) ≡ drop_top (frames s)
    pub frames-reset : (s : State) → frames (reset_assertions s) ≡ [] ∷ []
    pub frames-check :
        (given : List Term) (s : State) → frames (check_sat_assuming given s).1 ≡ frames s
    -- `unsat`: no model satisfies the assertions and the assumptions
    pub unsat_sound :
        (given : List Term) (s : State)
        → (check_sat_assuming given s).0 ≡ Answer.unsat
        → (σ : Model smt) → Satisfies σ (given ∷ frames s)
        → ⊥
    -- `sat`: the model that `get_value` reads satisfies them
    pub sat_model :
        (given : List Term) (s : State)
        → (check_sat_assuming given s).0 ≡ Answer.sat
        → (σ : Model smt) × Satisfies σ (given ∷ frames s)
          × ((t : Term) → get_value t (check_sat_assuming given s).1 ≡ holds smt σ t)

  -- a solver that never gives up
  abbrev pub Decides : Type 0
  Decides = (given : List Term) (s : State) → (check_sat_assuming given s).0 ≡ Answer.unknown → ⊥
