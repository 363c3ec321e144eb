-- ===== src/Ts/Vars.antt =====
-- core/ts.cpp: names and variables.
pub mod WellFormed
use pono.Base.{
  Bool, true, false, not, ◌||◌, List, [], ◌∷◌, ◌++◌, Option, some, none, Eq, ◌==◌, mem, insert,
  erase, lookup, put, any, if◌then◌else◌, ok, err, M, continue, Error, list_eq, nat_eq,
}
use pono.Smt.{Smt, Name, SortKind}
use pono.Ts.{TransitionSystem}
use pono.Ts.Symbols.{is_input_var}

module _ {Term : Type 0} ⦃e : Eq Term⦄ (smt : Smt Term) where
  open smt use {Sort, get_sort_kind, get_indexsort, get_sort, to_string, make_symbol, free_symbols}

  abbrev Op : Type 0
  Op = M (TransitionSystem Term) (Unit {0})

  -- `it != named_terms_.end() && t != it->second`
  is_taken : Option Term → Term → Bool
  is_taken none t = false
  is_taken (some t') t = not (t == t')

  unfoldable pub name_term : Name → Term → Op
  unfolding is_taken
  name_term name t ts =
      if is_taken (lookup name ts.named_terms) t then (err Error.name_used, ts) else (
        ok tt,
        record ts {
          named_terms = put name t ts.named_terms;
          term_to_name = put t name ts.term_to_name;
        },
      )

  -- the writes of `add_statevar` before it names the two variables
  unfoldable pub declare : Term → Term → TransitionSystem Term → TransitionSystem Term
  declare cv nv ts = record ts {
    inputvars = erase nv (erase cv ts.inputvars);
    statevars = insert cv ts.statevars;
    no_state_updates = insert cv ts.no_state_updates;
    next_statevars = insert nv ts.next_statevars;
    next_map = put cv nv ts.next_map;
    curr_map = put nv cv ts.curr_map;
  }

  unfoldable pub add_statevar : Term → Term → Op
  unfolding declare
  add_statevar cv nv ts =
      if mem cv ts.statevars
      then (err Error.redeclared, ts)
      else if mem nv ts.next_statevars
      then (err Error.redeclared, ts)
      else if mem cv ts.next_statevars
      then (err Error.next_as_curr, ts)
      else if mem nv ts.statevars
      then (err Error.curr_as_next, ts)
      else continue (name_term (to_string cv) cv (declare cv nv ts))
          (λ _. name_term (to_string nv) nv)

  unfoldable pub add_inputvar : Term → Op
  add_inputvar v ts =
      if mem v ts.statevars || mem v ts.next_statevars || mem v ts.inputvars
      then (err Error.input_reused, ts)
      else name_term (to_string v) v (record ts { inputvars = insert v ts.inputvars })

  unfoldable pub make_inputvar : Name → Sort → M (TransitionSystem Term) Term
  make_inputvar name sort ts =
      let input = make_symbol name sort in
      continue (add_inputvar input ts) (λ _ ts'. (ok input, ts'))

  unfoldable pub make_statevar : Name → Sort → M (TransitionSystem Term) Term
  make_statevar name sort ts =
      let state = make_symbol name sort in
      let next_state = make_symbol (name ++ ts.next_suffix) sort in
      continue (add_statevar state next_state (record ts { deterministic = false }))
        (λ _ ts'. (ok state, ts'))

  unfoldable pub promote_inputvar : Term → Op
  promote_inputvar iv ts =
      if mem iv ts.inputvars
      then add_statevar iv (make_symbol (to_string iv ++ ts.next_suffix) (get_sort iv))
          (record ts { inputvars = erase iv ts.inputvars; deterministic = false })
      else (err Error.promote_non_input, ts)

  -- the loop of `promote_inputvars_in` over the free symbols
  promote_all : List Term → Op
  promote_all [] ts = (ok tt, ts)
  promote_all (v ∷ vs) ts =
      continue (if is_input_var smt ts v then promote_inputvar v ts else (ok tt, ts))
        (λ _. promote_all vs)

  unfoldable pub promote_inputvars_in : Term → Op
  unfolding promote_all
  promote_inputvars_in t = promote_all (free_symbols t)

  -- the test in both loops of `has_finite_index_sort`
  finite_index : SortKind → SortKind → Bool
  finite_index SortKind.array SortKind.bv = true
  finite_index SortKind.array SortKind.bool = true
  finite_index _ _ = false

  unfoldable pub has_finite_index_sort : TransitionSystem Term → Bool
  unfolding finite_index
  has_finite_index_sort ts =
      let finite = λ (v : Term).
        finite_index (get_sort_kind (get_sort v)) (get_sort_kind (get_indexsort (get_sort v))) in
      any finite ts.statevars || any finite ts.inputvars
