-- ===== src/Engines/KInduction.antt =====
-- engines/kinduction.h and engines/kinduction.cpp, and engines/bmc_simplepath.cpp, which is k-induction with
-- the check of the property switched off. The field `next_k` is `reached_k_ + 1`. The engine keeps its
-- formulas in one frame and switches them by selector symbols, which `sel_assumption_` sets.
pub mod FinalBase
pub mod System
pub mod Invariant
pub mod Checks
pub mod FinalTotal
pub mod Property
pub mod Verdicts
use pono.Base.{
  ℕ, zero, suc, ◌+◌, ◌-◌, ◌*◌, ◌^◌, Bool, true, false, not, ◌||◌, ◌&&◌, ltb, leb, nat_beq,
  if◌then◌else◌, Option, some, none, Result, ok, err, Error, List, [], ◌∷◌, ◌++◌,
}
use pono.Smt.{Smt}
use pono.Smt.Solver.{Solver, sat, unsat, unknown}
use pono.Engines.Problem.{Problem, ProverResult}

-- the options that the engine reads
pub record KindOptions : Type 0 where
  pub bound_step : ℕ
  pub eager_simple_path_check : Bool
  pub no_simple_path_check : Bool
  pub no_multi_call_simple_path_check : Bool
  pub no_ind_check : Bool
  pub no_ind_check_init_states : Bool
  pub no_ind_check_property : Bool
  pub one_time_base_check : Bool
  pub check_trans_total : Bool

-- what the engine asks of the system, and its selector symbols
pub record KindSystem (Term : Type 0) : Type 0 where
  pub statevars : List Term
  -- `statevars_with_no_update`
  pub has_no_update : Term → Bool
  pub is_functional : Bool
  pub no_constraints : Bool
  -- `is_right_total()`, or none if the quantified query throws
  pub is_right_total : Option Bool
  pub sel_init : Term
  pub sel_neg_init_terms : Term
  pub sel_neg_bad_state_terms : Term
  pub sel_simple_path_terms : Term

-- `BmcSimplePath::BmcSimplePath`
pub simple_path_options : KindOptions → KindOptions
simple_path_options opt = record opt { no_ind_check_property = true }

module _ {Term : Type 0} (smt : Smt Term) (solver : Solver Term) (opt : KindOptions)
    (p : Problem Term) (ts : KindSystem Term) where
  open smt use {make_bool, make_not, make_or, make_and, make_equal}
  open solver use {
    State, assert_formula, push, pop, reset_assertions, check_sat_assuming, get_value,
  }
  open p use {init, trans, bad, at_time}
  open ts use {
    statevars, has_no_update, sel_init, sel_neg_init_terms, sel_neg_bad_state_terms,
    sel_simple_path_terms,
  }

  pub record KInduction : Type 0 where
    pub initialized : Bool
    pub solver_state : State
    pub next_k : ℕ

  -- `initialize` after its two guards
  pub begin : KInduction → KInduction
  begin b = record b {
    initialized = true;
    next_k = 0;
    solver_state =
        assert_formula (make_or sel_init (at_time init 0)) (reset_assertions b.solver_state);
  }

  -- `initialize`, with the check of the property by the base class
  unfoldable pub initialize : KInduction → Result KInduction
  unfolding begin
  initialize b =
      if b.initialized
      then ok b
      else if p.bad_only_curr
      then ok (begin b)
      else err Error.bad_not_curr

  unfoldable pub reset_env : KInduction → Result KInduction
  unfolding initialize
  reset_env b = initialize (record b { initialized = false })

  -- `sel_assumption_` where the initial states are off
  pub any_start : List Term
  any_start =
      sel_init
      ∷ sel_neg_init_terms
      ∷ make_not sel_neg_bad_state_terms
      ∷ make_not sel_simple_path_terms
      ∷ []

  -- where the first state is initial and no other is
  pub only_start : List Term
  only_start =
      make_not sel_init
      ∷ make_not sel_neg_init_terms
      ∷ make_not sel_neg_bad_state_terms
      ∷ make_not sel_simple_path_terms
      ∷ []

  -- where the first state is initial
  pub base_start : List Term
  base_start =
      make_not sel_init
      ∷ sel_neg_init_terms
      ∷ make_not sel_neg_bad_state_terms
      ∷ make_not sel_simple_path_terms
      ∷ []

  -- the loop of `simple_path_constraint` over the state variables
  pub some_differ : ℕ → ℕ → List Term → Term → Term
  some_differ i j [] disj = disj
  some_differ i j (v ∷ vs) disj = some_differ i j vs (
      if ltb 0 i && ltb 0 j && has_no_update v
      then disj
      else make_or disj (make_not (make_equal (at_time v i) (at_time v j))))

  pub simple_path_constraint : ℕ → ℕ → Term
  unfolding some_differ
  simple_path_constraint i j =
      make_or (some_differ i j statevars (make_bool false)) sel_simple_path_terms

  -- for (j = from; j < from + n; j++) assert(simple_path_constraint(j, i))
  pub assert_simple_paths : ℕ → ℕ → ℕ → State → State
  assert_simple_paths zero j i s = s
  assert_simple_paths (suc n) j i s =
      assert_simple_paths n (suc j) i (assert_formula (simple_path_constraint j i) s)

  -- `true` if the check is unsatisfiable
  pub check_simple_path_eager : ℕ → List Term → State → Bool × State
  unfolding assert_simple_paths
  check_simple_path_eager i given s =
      let (r, s') =
        check_sat_assuming given
          (if opt.no_simple_path_check then s else assert_simple_paths i 0 i s) in
      elim r [ unsat ↦ (true, s') | _ ↦ (false, s') ]

  -- the constraints for the pairs of `j` and the `n` times from `l` that the model violates
  pub violated_from : ℕ → ℕ → ℕ → State → List Term
  unfolding simple_path_constraint
  violated_from zero j l s = []
  violated_from (suc n) j l s =
      let rest = violated_from n j (suc l) s in
      if get_value (simple_path_constraint j l) s then rest else simple_path_constraint j l ∷ rest

  -- over the `n` first times from `j`, in the order of the loops
  pub violated : ℕ → ℕ → ℕ → State → List Term
  unfolding violated_from
  violated zero j i s = []
  violated (suc n) j i s = violated_from (i - j) j (suc j) s ++ violated n (suc j) i s

  -- from the back, as the vector is emptied
  pub assert_back : List Term → State → State
  assert_back [] s = s
  assert_back (t ∷ ts) s = assert_formula t (assert_back ts s)

  -- the `do` loop of `check_simple_path_lazy`; the fuel bounds its rounds
  pub lazy_loop : ℕ → ℕ → List Term → State → Result (Bool × State)
  unfolding violated assert_back
  lazy_loop zero i given s = err Error.out_of_fuel
  lazy_loop (suc fuel) i given s =
      let (r, s') = check_sat_assuming given s in
      let again = λ (s'' : State). lazy_loop fuel i given s'' in
      elim r [
        | unsat ↦ ok (true, s')
        | unknown ↦ ok (false, s')
        | sat ↦
            if opt.no_simple_path_check
            then ok (false, s')
            else elim (violated i 0 i s') as (λ _. Result (Bool × State)) [
              | [] ↦ ok (false, s')
              | t ∷ ts ↦ again (
                  if opt.no_multi_call_simple_path_check
                  then assert_back (t ∷ ts) s'
                  else assert_formula t s')
            ]
      ]

  -- Each round but the last asserts a constraint that the model before it violates, so no pair is asserted
  -- twice, and one round more than there are pairs is enough.
  pub check_simple_path_lazy : ℕ → List Term → State → Result (Bool × State)
  unfolding lazy_loop
  check_simple_path_lazy i = lazy_loop (suc (suc i * suc i)) i

  unfoldable pub is_trans_total : Bool
  is_trans_total =
      let functional = ts.is_functional && ts.no_constraints in
      if opt.check_trans_total
      then (elim ts.is_right_total [ none ↦ false | some r ↦ r || functional ])
      else functional

  -- bad at 0 or bad at 1 or ...: the disjunction over the `n` bounds from `frame`
  pub or_bad : ℕ → ℕ → Term → Term
  or_bad zero frame query = query
  or_bad (suc n) frame query = or_bad n (suc frame) (make_or query (at_time bad frame))

  -- from the bound `n` down to 0
  pub nest_bad : ℕ → Term → Term
  nest_bad zero query = query
  nest_bad (suc i) query = nest_bad i (make_or (at_time bad i) (make_and (at_time trans i) query))

  -- `true` if no bound up to `cur_bound` has a counterexample
  unfoldable pub final_base_case_check : ℕ → State → Result (Bool × State)
  unfolding is_trans_total or_bad nest_bad
  final_base_case_check cur_bound s =
      let disabled =
        make_not sel_init
        ∷ sel_neg_init_terms
        ∷ sel_neg_bad_state_terms
        ∷ sel_simple_path_terms
        ∷ [] in
      let given = if is_trans_total then disabled else [] in
      let query =
        if is_trans_total
        then or_bad cur_bound 1 (at_time bad 0)
        else make_and (at_time init 0) (nest_bad cur_bound (at_time bad cur_bound)) in
      let base = if is_trans_total then s else reset_assertions s in
      let (r, s') = check_sat_assuming given (assert_formula query base) in
      elim r [ sat ↦ ok (false, s') | unsat ↦ ok (true, s') | unknown ↦ err Error.unknown_answer ]

  -- the verdict after an unsatisfiable inductive check at bound `i`
  pub conclude : ℕ → State → Result (ProverResult × State)
  unfolding final_base_case_check
  conclude i s =
      if opt.one_time_base_check
      then elim (final_base_case_check i s) as (λ _. Result (ProverResult × State)) [
        | err x ↦ err x
        | ok (safe, s') ↦ ok ((if safe then ProverResult.true_ else ProverResult.false_), s')
      ]
      else ok (ProverResult.true_, s)

  -- the simple path check of a round
  pub check_simple_path : ℕ → State → Result (Bool × State)
  unfolding any_start check_simple_path_eager check_simple_path_lazy
  check_simple_path i s = elim statevars as (λ _. Result (Bool × State)) [
    | [] ↦ ok (false, s)
    | _ ∷ _ ↦
        if opt.no_simple_path_check
        then ok (false, s)
        else if opt.eager_simple_path_check
        then ok (check_simple_path_eager i any_start s)
        else check_simple_path_lazy i any_start s
  ]

  -- for (j = from; j < from + n; j++) assert(sel_neg_init_terms or not init at j)
  pub assert_neg_inits : ℕ → ℕ → State → State
  assert_neg_inits zero j s = s
  assert_neg_inits (suc n) j s =
      assert_neg_inits n (suc j)
        (assert_formula (make_or sel_neg_init_terms (at_time (make_not init) j)) s)

  -- the inductive check from the initial states; `true` if it is made and unsatisfiable
  pub check_init_states : ℕ → KInduction → Bool × State
  unfolding only_start assert_neg_inits
  check_init_states i b =
      let (r, s) =
        check_sat_assuming only_start
          (assert_neg_inits (suc i - b.next_k) b.next_k b.solver_state) in
      if leb 1 i && not opt.no_ind_check_init_states
      then elim r [ unsat ↦ (true, s) | _ ↦ (false, s) ]
      else (false, b.solver_state)

  -- the frame for the bad states of bound `i`
  pub push_bad : ℕ → State → State
  push_bad i s =
      if not opt.no_ind_check || not opt.no_ind_check_property || not opt.one_time_base_check
      then assert_formula (at_time bad i) (push s)
      else push s

  -- the inductive check of the property
  pub check_property : State → Bool × State
  unfolding any_start
  check_property s =
      let (r, s') = check_sat_assuming any_start s in
      if opt.no_ind_check_property
      then (false, s)
      else elim r [ unsat ↦ (true, s') | _ ↦ (false, s') ]

  -- the base case; `true` if it has a counterexample
  pub check_base : State → Bool × State
  unfolding base_start
  check_base s =
      let (r, s') = check_sat_assuming base_start s in
      if opt.one_time_base_check then (false, s) else elim r [ sat ↦ (true, s') | _ ↦ (false, s') ]

  -- for (j = from; j < from + n; j++): the transition at j, and the negated bad states under the selector
  pub extend : ℕ → ℕ → State → State
  extend zero j s = s
  extend (suc n) j s = extend n (suc j) (
      assert_formula (make_or sel_neg_bad_state_terms (at_time (make_not bad) j))
        (assert_formula (at_time trans j) s))

  -- the body of `check_until`'s loop after the two checks without a bad state: a verdict, or none
  pub property_round : ℕ → KInduction → Result (Option ProverResult × KInduction)
  unfolding push_bad check_property check_base extend conclude
  property_round i b =
      let (proved, s1) = check_property (push_bad i b.solver_state) in
      let (failed, s2) = check_base s1 in
      let verdict = conclude i (if opt.one_time_base_check then pop s1 else s1) in
      if proved
      then elim verdict as (λ _. Result (Option ProverResult × KInduction)) [
        | err x ↦ err x
        | ok (r, s) ↦ ok (some r, record b { solver_state = s })
      ]
      else if failed
      then ok (some ProverResult.false_, record b { solver_state = s2 })
      else ok (none, record b { solver_state = extend opt.bound_step i (pop s2); next_k = suc i })

  -- the whole body of the loop at bound `i`
  pub round : ℕ → KInduction → Result (Option ProverResult × KInduction)
  unfolding check_simple_path check_init_states conclude property_round
  round i b =
      let end' = λ (s : State).
        elim (conclude i s) as (λ _. Result (Option ProverResult × KInduction)) [
          | err x ↦ err x
          | ok (r, s') ↦ ok (some r, record b { solver_state = s' })
        ] in
      elim (check_simple_path i b.solver_state)
        as (λ _. Result (Option ProverResult × KInduction)) [
          | err x ↦ err x
          | ok (closed, s) ↦
              let (closed_init, s') = check_init_states i (record b { solver_state = s }) in
              if closed
              then end' s
              else if closed_init
              then end' s'
              else property_round i (record b { solver_state = s' })
        ]

  -- the `for` loop of `check_until`
  pub rounds_loop : ℕ → ℕ → ℕ → KInduction → Result (ProverResult × KInduction)
  unfolding round
  rounds_loop zero k i b = err Error.out_of_fuel
  rounds_loop (suc fuel) k i b =
      let again = λ (b' : KInduction).
        let rest = rounds_loop fuel k (i + opt.bound_step) b' in
        if ltb (i + opt.bound_step) (2 ^ 31) then rest else err Error.int_overflow in
      let this = elim (round i b) as (λ _. Result (ProverResult × KInduction)) [
        | err x ↦ err x
        | ok (none, b') ↦ again b'
        | ok (some r, b') ↦ ok (r, b')
      ] in
      if leb i k then this else ok (ProverResult.unknown, b)

  -- `check_until(k)`, with fuel for every bound up to `k`. The two assertions are those of a build with
  -- assertions: no bound is checked yet, and the option against inductive checks sets both of its parts.
  unfoldable pub check_until : ℕ → KInduction → Result (ProverResult × KInduction)
  unfolding initialize rounds_loop
  check_until k b = elim (initialize b) as (λ _. Result (ProverResult × KInduction)) [
    | err x ↦ err x
    | ok b1 ↦
        let one_step = nat_beq opt.bound_step 1 in
        let no_checks = opt.no_ind_check_init_states && opt.no_ind_check_property in
        let run = rounds_loop (suc (suc k)) k 0 b1 in
        if not (nat_beq b1.next_k 0) || opt.no_ind_check && not no_checks
        then err Error.assertion_failed
        else if not one_step && (opt.eager_simple_path_check || not opt.one_time_base_check)
        then err Error.unsupported_options
        else run
  ]
