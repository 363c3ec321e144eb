-- ===== src/Engines/Bmc.antt =====
-- engines/bmc.h and engines/bmc.cpp. The field `reached_k_` is -1 or more, and `next_k` is
-- `reached_k_ + 1`: the first bound that is not yet checked. Bounds are `int`s of the source; a first or a
-- next bound that is no `int` is `int_overflow`.
pub mod Formulas
pub mod Stack
pub mod Search
pub mod Shorten
pub mod Sound
pub mod Complete
use pono.Base.{
  ℕ, zero, suc, ◌+◌, ◌-◌, ◌*◌, ◌/◌, ◌^◌, Bool, true, false, not, ◌||◌, ltb, leb, nat_beq,
  if◌then◌else◌, Option, some, none, Result, ok, err, Error, [],
}
use pono.Smt.{Smt}
use pono.Smt.Solver.{Solver, Answer, sat}
use pono.Engines.Problem.{Problem, ProverResult}

-- the options that the engine reads
pub record BmcOptions : Type 0 where
  pub bound_start : ℕ
  pub bound_step : ℕ
  pub exponential_step : Bool
  pub neg_init_step : Bool
  pub single_bad_state : Bool
  pub allow_non_minimal_cex : Bool
  pub neg_bad_step : Bool
  pub neg_bad_step_all : Bool
  pub min_cex_linear_search : Bool
  pub min_cex_less_inc_bin_search : Bool

module _ {Term : Type 0} (smt : Smt Term) (solver : Solver Term) (opt : BmcOptions)
    (p : Problem Term) where
  open smt use {make_bool, make_not, make_or}
  open solver use {
    State, assert_formula, push, pop, reset_assertions, check_sat_assuming, get_value,
  }
  open p use {init, trans, bad, at_time}

  pub record Bmc : Type 0 where
    pub initialized : Bool
    pub solver_state : State
    pub next_k : ℕ
    -- an `unsigned int`
    pub bin_search_frames : ℕ

  -- `initialize` after its two guards
  pub begin : Bmc → Bmc
  begin b = record b {
    initialized = true;
    next_k = 0;
    solver_state = assert_formula (at_time init 0) (reset_assertions b.solver_state);
  }

  -- `initialize`, with the check of the property by the base class
  unfoldable pub initialize : Bmc → Result Bmc
  unfolding begin
  initialize b =
      if b.initialized
      then ok b
      else if p.bad_only_curr
      then ok (begin b)
      else err Error.bad_not_curr

  unfoldable pub reset_env : Bmc → Result Bmc
  unfolding initialize
  reset_env b = initialize (record b { initialized = false })

  -- for (j = from; j < from + n; j++) assert(not bad at j)
  pub block : ℕ → ℕ → State → State
  block zero from s = s
  block (suc n) from s = block n (suc from) (assert_formula (make_not (at_time bad from)) s)

  -- `bmc_interval_block_cex_ub(start, end)`
  pub bmc_interval_block_cex_ub : ℕ → ℕ → State → State
  unfolding block
  bmc_interval_block_cex_ub start end' = block (suc end' - start) start

  -- the loop of `step` over the new transitions
  pub add_transitions : ℕ → ℕ → State → State
  add_transitions zero j s = s
  add_transitions (suc n) j s =
      let s1 = assert_formula (at_time trans (j - 1)) s in
      add_transitions n (suc j)
        (if opt.neg_init_step then assert_formula (make_not (at_time init j)) s1 else s1)

  -- `clause`, as the loops build it
  pub bad_clause : ℕ → ℕ → Term → Term
  bad_clause zero j clause = clause
  bad_clause (suc n) j clause = bad_clause n (suc j) (make_or clause (at_time bad j))

  -- the clause for the bounds of [lb,ub]
  pub bad_between : ℕ → ℕ → Term
  unfolding bad_clause
  bad_between lb ub = bad_clause (suc ub - lb) lb (make_bool false)

  -- `bmc_interval_get_cex_ub(lb, ub)`: the first bound whose bad state the model has
  pub first_bad : ℕ → ℕ → State → ℕ
  first_bad zero j s = j
  first_bad (suc n) j s =
      let rest = first_bad n (suc j) s in if get_value (at_time bad j) s then j else rest

  pub bmc_interval_get_cex_ub : ℕ → ℕ → State → ℕ
  unfolding first_bad
  bmc_interval_get_cex_ub lb ub = first_bad (suc ub - lb) lb

  -- the body of `find_shortest_cex_linear_search`'s loop, over the bounds left
  pub linear_loop : ℕ → Bmc → Result Bmc
  linear_loop zero b = err Error.overconstrained
  linear_loop (suc n) b =
      let (r, s) =
        check_sat_assuming [] (assert_formula (at_time bad b.next_k) (push (pop b.solver_state))) in
      elim r [
        | sat ↦ ok (record b { solver_state = s })
        | _ ↦ linear_loop n (record b { solver_state = s; next_k = suc b.next_k })
      ]

  -- `find_shortest_cex_linear_search(upper_bound)`
  pub find_shortest_cex_linear_search : ℕ → Bmc → Result Bmc
  unfolding linear_loop
  find_shortest_cex_linear_search upper b =
      if nat_beq upper b.next_k then ok b else linear_loop (suc upper - b.next_k) b

  -- The `while` loop of `find_shortest_cex_binary_search`; the fuel bounds its rounds. The Boolean says
  -- whether the search succeeded.
  pub binary_loop : ℕ → ℕ → ℕ → Bmc → Result (Bool × Bmc)
  unfolding block bmc_interval_block_cex_ub bmc_interval_get_cex_ub
  binary_loop zero low high b = err Error.out_of_fuel
  binary_loop (suc fuel) low high b =
      let mid = low + (high - low) / 2 in
      let (r, s) = check_sat_assuming [] (block (high - mid) (suc mid) (push b.solver_state)) in
      let found = record b { solver_state = s; bin_search_frames = suc b.bin_search_frames } in
      let lower = bmc_interval_get_cex_ub low mid s in
      let in_lower =
        binary_loop fuel low lower
          (record found { solver_state = bmc_interval_block_cex_ub (suc lower) mid s }) in
      let in_upper =
        binary_loop fuel (suc mid) high
          (record b { solver_state = block (suc mid - low) low (pop s); next_k = suc mid }) in
      if ltb high low then ok (true, b) else elim r [
        | sat ↦ if nat_beq low mid then ok (true, found) else in_lower
        | _ ↦ if leb high low then ok (false, found) else in_upper
      ]

  pub find_shortest_cex_binary_search : ℕ → Bmc → Result (Bool × Bmc)
  unfolding binary_loop
  find_shortest_cex_binary_search upper b =
      binary_loop (suc (suc upper - b.next_k)) b.next_k upper b

  -- the `while` loop of `find_shortest_cex_binary_search_less_inc`
  pub less_inc_loop : ℕ → ℕ → ℕ → Bmc → Result Bmc
  unfolding bad_between bmc_interval_get_cex_ub
  less_inc_loop zero low high b = err Error.out_of_fuel
  less_inc_loop (suc fuel) low high b =
      let mid = low + (high - low) / 2 in
      let (r, s) =
        check_sat_assuming [] (assert_formula (bad_between low mid) (push (pop b.solver_state))) in
      let found = record b { solver_state = s } in
      let in_lower = less_inc_loop fuel low (bmc_interval_get_cex_ub low mid s) found in
      let in_upper = less_inc_loop fuel (suc mid) high (record found { next_k = suc mid }) in
      if ltb high low
      then ok b
      else elim r [ sat ↦ if nat_beq low mid then ok found else in_lower | _ ↦ in_upper ]

  pub find_shortest_cex_binary_search_less_inc : ℕ → Bmc → Result Bmc
  unfolding less_inc_loop
  find_shortest_cex_binary_search_less_inc upper b =
      less_inc_loop (suc (suc upper - b.next_k)) b.next_k upper b

  pub pop_frames : ℕ → State → State
  pop_frames zero s = s
  pop_frames (suc n) s = pop_frames n (pop s)

  -- After a search that did not succeed. `while (bin_search_frames_-- > 0) pop()` leaves the counter at
  -- its greatest value, since it is decremented once more at 0.
  pub fall_back : ℕ → ℕ → ℕ → Bmc → Result Bmc
  unfolding pop_frames find_shortest_cex_linear_search
  fall_back saved ub i b =
      let s = if leb (ub + 1) i then pop b.solver_state else b.solver_state in
      find_shortest_cex_linear_search ub (record b {
        next_k = saved;
        solver_state = pop_frames b.bin_search_frames s;
        bin_search_frames = 2 ^ 32 - 1;
      })

  -- the search for the shortest counterexample after a bound `ub` for it is known
  pub shorten : ℕ → ℕ → Bmc → Result Bmc
  unfolding bmc_interval_block_cex_ub find_shortest_cex_binary_search
      find_shortest_cex_binary_search_less_inc fall_back
  shorten ub i b =
      let s = if leb (ub + 1) i then push b.solver_state else b.solver_state in
      let b1 = record b { solver_state = bmc_interval_block_cex_ub (ub + 1) i s } in
      if opt.min_cex_linear_search
      then fall_back b.next_k ub i b1
      else if opt.min_cex_less_inc_bin_search
      then find_shortest_cex_binary_search_less_inc ub b1
      else elim (find_shortest_cex_binary_search ub b1) [
        | err x ↦ err x
        | ok (done, b2) ↦ if done then ok b2 else fall_back b.next_k ub i b2
      ]

  -- the branch of `step` for a satisfiable check
  pub on_sat : ℕ → Bmc → Result Bmc
  unfolding shorten bmc_interval_get_cex_ub
  on_sat i b =
      if opt.allow_non_minimal_cex || opt.single_bad_state
      then ok (record b { next_k = i })
      else (let ub = bmc_interval_get_cex_ub b.next_k i b.solver_state in
          if nat_beq ub b.next_k then ok (record b { next_k = i }) else shorten ub i b)

  -- the branch for an unsatisfiable one
  pub on_unsat : ℕ → Bmc → Bmc
  unfolding block
  on_unsat i b =
      let s = pop b.solver_state in
      record b {
        next_k = suc i;
        solver_state =
            if opt.neg_bad_step_all
            then block (suc i - b.next_k) b.next_k s
            else if opt.neg_bad_step
            then block 1 i s
            else s;
      }

  -- the solver after the transitions and the clause of bound `i` are asserted
  pub prepare : ℕ → Bmc → State
  unfolding add_transitions bad_between
  prepare i b =
      let from = if nat_beq b.next_k 0 then 1 else b.next_k in
      let s =
        if ltb 0 i then add_transitions (suc i - from) from b.solver_state else b.solver_state in
      assert_formula (if opt.single_bad_state then at_time bad i else bad_between b.next_k i)
        (push s)

  -- `step(i)`: `true` if no counterexample is found
  pub step : ℕ → Bmc → Result (Bool × Bmc)
  unfolding prepare on_sat on_unsat
  step i b =
      if ltb i b.next_k
      then ok (true, b)
      else (let (r, s) = check_sat_assuming [] (prepare i b) in
          let b1 = record b { solver_state = s } in
          elim r [
            | sat ↦ elim (on_sat i b1) [ err x ↦ err x | ok b2 ↦ ok (false, b2) ]
            | _ ↦ ok (true, on_unsat i b1)
          ])

  -- the next bound of `check_until`, before it is stored in an `int`
  pub next_bound : ℕ → ℕ
  next_bound i =
      if opt.exponential_step then (if nat_beq i 0 then 1 else i * 2) else i + opt.bound_step

  -- the `for` loop of `check_until`
  pub bounds_loop : ℕ → ℕ → ℕ → Bmc → Result (ProverResult × Bmc)
  unfolding step next_bound
  bounds_loop zero k i b = err Error.out_of_fuel
  bounds_loop (suc fuel) k i b =
      let next = λ (b' : Bmc).
        let rest = bounds_loop fuel k (next_bound i) b' in
        if ltb (next_bound i) (2 ^ 31) then rest else err Error.int_overflow in
      let round = elim (step i b) as (λ _. Result (ProverResult × Bmc)) [
        | err x ↦ err x
        | ok (safe, b') ↦ if safe then next b' else ok (ProverResult.false_, b')
      ] in
      if leb i k then round else ok (ProverResult.unknown, b)

  -- `check_until(k)`, with fuel for every bound up to `k`
  unfoldable pub check_until : ℕ → Bmc → Result (ProverResult × Bmc)
  unfolding initialize bounds_loop
  check_until k b = elim (initialize b) as (λ _. Result (ProverResult × Bmc)) [
    | err x ↦ err x
    | ok b1 ↦
        let run = bounds_loop (suc (suc k)) k opt.bound_start b1 in
        if ltb opt.bound_start (2 ^ 31) then run else err Error.int_overflow
  ]
