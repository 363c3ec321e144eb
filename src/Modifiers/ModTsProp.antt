-- ===== src/Modifiers/ModTsProp.antt =====
-- modifiers/mod_ts_prop.cpp: the assumption of a property in the relation, and the promotion of inputs.
-- `pseudo_init_and_prop` is left out.
pub mod Assumed
use pono.Base.{
  Bool, true, false, List, [], ◌∷◌, Eq, Map, mem, lookup, if◌then◌else◌, ok, err, M, continue,
  Error,
}
use pono.Smt.{Smt, Name}
use pono.Ts.{TransitionSystem, new_system, new_functional}
use pono.Ts.Symbols.{next}
use pono.Ts.Define.{set_init, assign_next, add_constraint}
use pono.Ts.Relational.{set_trans}
use pono.Ts.Vars.{add_statevar, add_inputvar, promote_inputvar}

module _ {Term : Type 0} ⦃e : Eq Term⦄ (smt : Smt Term) where
  abbrev Op : Type 0
  Op = M (TransitionSystem Term) (Unit {0})

  -- the flag keeps the property out of the initial and of the next states
  unfoldable pub prop_in_trans : Term → Op
  prop_in_trans prop = add_constraint smt prop false

  -- utils/ts_manipulation.cpp, with the suffix that the constructors take by default
  unfoldable pub create_fresh_ts : Bool → Name → TransitionSystem Term
  create_fresh_ts functional suffix =
      if functional then new_functional smt suffix else new_system smt suffix

  -- the loops of `promote_inputvars`, over the members of the old system
  copy_states : TransitionSystem Term → List Term → Op
  copy_states old [] ts = (ok tt, ts)
  copy_states old (sv ∷ svs) ts =
      continue (add_statevar smt sv (next smt old sv) ts) (λ _. copy_states old svs)

  copy_inputs : List Term → List Term → Op
  copy_inputs promoted [] ts = (ok tt, ts)
  copy_inputs promoted (iv ∷ ivs) ts = continue (add_inputvar smt iv ts) (λ _ ts1.
      continue (if mem iv promoted then promote_inputvar smt iv ts1 else (ok tt, ts1))
        (λ _. copy_inputs promoted ivs))

  copy_updates : Map Term Term → Op
  copy_updates [] ts = (ok tt, ts)
  copy_updates ((sv, u) ∷ us) ts = continue (assign_next smt sv u ts) (λ _. copy_updates us)

  copy_constraints : List (Term × Bool) → Op
  copy_constraints [] ts = (ok tt, ts)
  copy_constraints ((c, b) ∷ cs) ts =
      continue (add_constraint smt c b ts) (λ _. copy_constraints cs)

  -- `promote_inputvars(ts, ivs_to_promote)`: the new system
  unfoldable pub promote_inputvars : TransitionSystem Term → List Term → Name → Op
  unfolding create_fresh_ts copy_states copy_inputs copy_updates copy_constraints
  promote_inputvars old promoted suffix _ =
      continue (copy_states old old.statevars (create_fresh_ts old.functional suffix)) (λ _ ts1.
        continue (copy_inputs promoted old.inputvars ts1) (λ _ ts2.
          continue (set_init smt old.init ts2) (λ _ ts3.
            continue (copy_updates old.state_updates ts3) (λ _ ts4.
              continue (if old.functional then (ok tt, ts4) else set_trans smt old.trans ts4)
                (λ _. copy_constraints old.constraints)))))
