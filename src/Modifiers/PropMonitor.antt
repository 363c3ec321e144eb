-- ===== src/Modifiers/PropMonitor.antt =====
-- modifiers/prop_monitor.cpp: a state variable that holds the value of a property one step before. The names that
-- the solver has are a parameter: the solver throws where a symbol's name is used, and the loop goes on. So is the answer of `is_right_total`, a quantified
-- query that a build with assertions asks.
pub mod Watching
use pono.Base.{
  ℕ, zero, suc, Bool, true, false, not, ◌&&◌, ◌||◌, List, [], ◌∷◌, ◌++◌, Eq, if◌then◌else◌, ok, err,
  M, continue, Error, Result,
}
use pono.Smt.{Smt, Name}
use pono.Ts.{TransitionSystem}
use pono.Ts.Symbols.{no_next, next}
use pono.Ts.Define.{assign_next, constrain_init}
use pono.Ts.Relational.{constrain_trans}
use pono.Ts.Vars.{make_statevar}
use pono.Unroller.Digits.{decimal}

-- "_monitor_" + to_string(id)
abbrev monitor_name : ℕ → Name
monitor_name id = 95 ∷ 109 ∷ 111 ∷ 110 ∷ 105 ∷ 116 ∷ 111 ∷ 114 ∷ 95 ∷ [] ++ decimal id

module _ {Term : Type 0} ⦃e : Eq Term⦄ (smt : Smt Term) (is_used : Name → Bool)
    (is_right_total : TransitionSystem Term → Bool) where
  open smt use {make_equal, bool_sort}

  -- `while (true)`: the fuel bounds the names that are tried; `make_statevar` resets its flag before it throws
  pub make_monitor : ℕ → ℕ → M (TransitionSystem Term) Term
  make_monitor zero id ts = (err Error.out_of_fuel, ts)
  make_monitor (suc fuel) id ts =
      let again = make_monitor fuel (suc id) (record ts { deterministic = false }) in
      if is_used (monitor_name id) || is_used (monitor_name id ++ ts.next_suffix)
      then again
      else make_statevar smt (monitor_name id) bool_sort ts

  -- the definition of the monitor at the end
  pub define_monitor : Bool → Term → Term → M (TransitionSystem Term) (Unit {0})
  define_monitor prop_has_next monitor prop ts =
      if prop_has_next
      then constrain_trans smt (make_equal (next smt ts monitor) prop) ts
      else assign_next smt monitor prop ts

  unfoldable pub add_prop_monitor : ℕ → Term → M (TransitionSystem Term) Term
  unfolding make_monitor define_monitor
  add_prop_monitor fuel prop ts =
      let prop_has_next = not (no_next smt ts prop) in
      if not prop_has_next && not (is_right_total ts)
      then (err Error.assertion_failed, ts)
      else if ts.functional && prop_has_next
      then (err Error.prop_next, ts)
      else continue (make_monitor fuel 0 ts) (λ monitor ts1.
        continue (constrain_init smt monitor ts1) (λ _ ts2.
          continue (define_monitor prop_has_next monitor prop ts2) (λ _ ts3. (ok monitor, ts3))))
