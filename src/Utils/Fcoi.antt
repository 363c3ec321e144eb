-- ===== src/Utils/Fcoi.antt =====
-- utils/fcoi.h and utils/fcoi.cpp: the functional cone of influence of terms. The log and the asserts, which
-- say that states, next states and inputs are disjoint, are left out.
pub mod Visit
pub mod Reached
pub mod Closed
use pono.Base.{
  ℕ, zero, suc, Bool, true, List, [], ◌∷◌, foldl, length, map, Eq, mem, insert, lookup, nat_beq,
  ◌&&◌, if◌then◌else◌, Result, ok, err, Error, some, none, ◌+◌,
}
use pono.Smt.{Smt}
use pono.Ts.{TransitionSystem}

pub record Coi (Term : Type 0) : Type 0 where
  pub statevars_in_coi : List Term
  pub inputvars_in_coi : List Term
  pub coi_visited_terms : List Term

-- the two sets that a call fills, and the member that it updates
pub record Found (Term : Type 0) : Type 0 where
  pub new_coi_state_vars : List Term
  pub new_coi_input_vars : List Term
  pub visited : List Term

-- `FunctionalConeOfInfluence(ts, verbosity)`
unfoldable pub make_coi : {Term : Type 0} → TransitionSystem Term → Result (Coi Term)
make_coi ts =
    if ts.functional
    then ok (record { statevars_in_coi = []; inputvars_in_coi = []; coi_visited_terms = [] })
    else err Error.coi_relational

pub clear : {Term : Type 0} → Coi Term → Coi Term
clear c = record c { statevars_in_coi = []; inputvars_in_coi = []; coi_visited_terms = [] }

module _ {Term : Type 0} ⦃e : Eq Term⦄ where
  -- for (auto sv : from) if it is not in the set: insert it, and push it to the unprocessed ones
  pub add_states : List Term → List Term → List Term → List Term × List Term
  add_states [] states unprocessed = (states, unprocessed)
  add_states (v ∷ vs) states unprocessed =
      if mem v states
      then add_states vs states unprocessed
      else add_states vs (insert v states) (v ∷ unprocessed)

  -- for (auto sv : from) set.insert(sv)
  pub insert_all : List Term → List Term → List Term
  insert_all vs set = foldl (λ s v. insert v s) set vs

module _ {Term : Type 0} ⦃e : Eq Term⦄ (smt : Smt Term) (ts : TransitionSystem Term) where
  open smt use {is_symbol, children, size}
  open ts use {statevars, inputvars, state_updates}

  -- what `compute_term_coi` does with a term that it meets first
  pub collect : Term → Found Term → Found Term
  collect t f =
      if is_symbol t && mem t statevars
      then record f { new_coi_state_vars = insert t f.new_coi_state_vars }
      else if is_symbol t && mem t inputvars
      then record f { new_coi_input_vars = insert t f.new_coi_input_vars }
      else f

  -- the `while` loop of `compute_term_coi`: the head of `open_terms` is the back of the vector
  pub term_loop : ℕ → List Term → Found Term → Result (Found Term)
  unfolding collect
  term_loop zero open_terms f = err Error.out_of_fuel
  term_loop (suc fuel) [] f = ok f
  term_loop (suc fuel) (t ∷ rest) f =
      let skip = term_loop fuel rest f in
      let visit =
        term_loop fuel (foldl (λ st c. c ∷ st) rest (children t))
          (collect t (record f { visited = insert t f.visited })) in
      if mem t f.visited then skip else visit

  -- with fuel for every node of the term as a tree and for the final test
  pub compute_term_coi : Term → Found Term → Result (Found Term)
  unfolding term_loop
  compute_term_coi t = term_loop (suc (size t)) (t ∷ [])

  -- a loop that calls `compute_term_coi` for each term
  pub compute_terms_coi : List Term → Found Term → Result (Found Term)
  unfolding compute_term_coi
  compute_terms_coi [] f = ok f
  compute_terms_coi (t ∷ ts') f = elim (compute_term_coi t f) as (λ _. Result (Found Term)) [
    | ok f' ↦ compute_terms_coi ts' f'
    | err x ↦ err x
  ]

  -- the `while` loop of `compute_coi_next_state_funcs`
  pub next_loop : ℕ → List Term → Coi Term → Result (Coi Term)
  unfolding compute_term_coi add_states insert_all
  next_loop zero unprocessed c = err Error.out_of_fuel
  next_loop (suc fuel) [] c = ok c
  next_loop (suc fuel) (v ∷ rest) c =
      let found = λ (t : Term). compute_term_coi t (record {
        new_coi_state_vars = [];
        new_coi_input_vars = [];
        visited = c.coi_visited_terms;
      }) in
      let go = λ (f : Found Term).
        let (states, unprocessed) = add_states f.new_coi_state_vars c.statevars_in_coi rest in
        next_loop fuel unprocessed (record {
          statevars_in_coi = states;
          inputvars_in_coi = insert_all f.new_coi_input_vars c.inputvars_in_coi;
          coi_visited_terms = f.visited;
        }) in
      let stay = next_loop fuel rest c in
      elim (lookup v state_updates) as (λ _. Result (Coi Term)) [
        | none ↦ stay
        | some next_func ↦ elim (found next_func) as (λ _. Result (Coi Term)) [
          | ok f ↦ go f
          | err x ↦ err x
        ]
      ]

  -- with fuel for the states at the start, for every other state once, and for the final test
  pub compute_coi_next_state_funcs : Coi Term → Result (Coi Term)
  unfolding next_loop
  compute_coi_next_state_funcs c =
      next_loop (suc (length c.statevars_in_coi + length statevars))
        (foldl (λ st v. v ∷ st) [] c.statevars_in_coi) c

  -- the `do` loop of `compute_coi`
  pub closing_loop : ℕ → Coi Term → Result (Coi Term)
  unfolding compute_coi_next_state_funcs
  closing_loop zero c = err Error.out_of_fuel
  closing_loop (suc fuel) c = elim (compute_coi_next_state_funcs c) as (λ _. Result (Coi Term)) [
    | err x ↦ err x
    | ok c' ↦
        let again = closing_loop fuel c' in
        if nat_beq (length c'.statevars_in_coi) (length c.statevars_in_coi)
          && nat_beq (length c'.inputvars_in_coi) (length c.inputvars_in_coi)
        then ok c'
        else again
  ]

  -- both loops over terms end with the new variables in the members
  pub take_found : Found Term → Coi Term → Coi Term
  unfolding insert_all
  take_found f c = record {
    statevars_in_coi = insert_all f.new_coi_state_vars c.statevars_in_coi;
    inputvars_in_coi = insert_all f.new_coi_input_vars c.inputvars_in_coi;
    coi_visited_terms = f.visited;
  }

  -- the loop of `compute_coi` over its terms, and `compute_coi_trans_constraints`
  pub compute_all : List Term → Coi Term → Result (Coi Term)
  unfolding compute_terms_coi take_found
  compute_all terms c =
      elim (compute_terms_coi terms (record {
        new_coi_state_vars = [];
        new_coi_input_vars = [];
        visited = c.coi_visited_terms;
      }))
        as (λ _. Result (Coi Term)) [ ok f ↦ ok (take_found f c) | err x ↦ err x ]

  pub compute_coi_trans_constraints : Coi Term → Result (Coi Term)
  unfolding compute_all
  compute_coi_trans_constraints = compute_all (map (λ cb. cb.0) ts.constraints)

  -- two rounds of the last loop are enough
  unfoldable pub compute_coi : List Term → Coi Term → Result (Coi Term)
  unfolding clear compute_all compute_coi_trans_constraints closing_loop
  compute_coi terms c = elim (compute_all terms (clear c)) as (λ _. Result (Coi Term)) [
    | err x ↦ err x
    | ok c1 ↦ elim (compute_coi_trans_constraints c1) as (λ _. Result (Coi Term)) [
      | err x ↦ err x
      | ok c2 ↦ closing_loop 2 c2
    ]
  ]
