-- ===== src/Examples/Checking.antt =====
-- Bounded model checking, and the final base case of k-induction, of systems with the state `x`, which is false at first and must stay so.
use pono.Base.{
  ◌≤◌, not, if◌then◌else◌, none, ℕ, ◌≡◌, refl, subst, arith, inl, inr, Bool, true, false, List, [],
  ◌∷◌, ◌==◌, ==_iff, mem, Bool-cases, All, Result, ok, err,
}
use pono.Smt.{Name, SortKind}
use pono.Ts.{TransitionSystem}
use pono.Ts.Vars.WellFormed.{IsWellFormed}
use pono.Unroller.{new_unroller, at_time}
use pono.Unroller.Digits.{decimal}
use pono.Unroller.Timed.{IsKnown, Speaks}
use pono.Unroller.Caches.{new_unroller-IsTimed}
use pono.Engines.Problem.{
  Problem, Unrolling, Trace, Cex, ProverResult, unknown, false_, true_, error,
}
use pono.Engines.Unrolled.{problem, unrolling}
use pono.Engines.Bmc.{BmcOptions, Bmc, begin, initialize, reset_env, check_until}
use pono.Engines.Bmc.Sound.{Refuted, check_until-Refuted}
use pono.Engines.Bmc.Complete.{check_until-NoCex}
use pono.Engines.KInduction.{KindOptions, KindSystem, final_base_case_check, is_trans_total}
use pono.Engines.KInduction.FinalBase.{final_base_case_check-Cex, final_base_case_check-NoCex}
use pono.Examples.Toy.{Toy, sym, neg, same, toy, toy_laws, toy_eq}
use pono.Examples.Table.{Table, table, table_laws, table_decides, empty_table}
use pono.Examples.Systems.{x, x_next, i, declared, declared-IsWellFormed}

abbrev pub at : Name
at = 64 ∷ []

-- the system whose transition relation is the given term
abbrev pub system : Toy → TransitionSystem Toy
system t = record declared { init = neg x; trans = t }

pub system-IsWellFormed : (t : Toy) → IsWellFormed toy (system t)
system-IsWellFormed t = record {
  next_of = declared-IsWellFormed.next_of;
  curr_in = declared-IsWellFormed.curr_in;
  plain = declared-IsWellFormed.plain;
  symbolic = declared-IsWellFormed.symbolic;
  next_symbolic = declared-IsWellFormed.next_symbolic;
  named = declared-IsWellFormed.named;
}

pub IsKnown-mem :
    (t : Toy) (vs : List Toy)
    → All (IsKnown toy (system t) at) vs
    → (y : Toy) → mem y vs ≡ true
    → IsKnown toy (system t) at y
IsKnown-mem t [] all_known y m = absurd (cc)
IsKnown-mem t (v ∷ vs) all_known y m = elim (Bool-cases (v == y)) [
  | inl here ↦ subst (IsKnown toy (system t) at) ((==_iff v y).0 here) all_known.0
  | inr later ↦ IsKnown-mem t vs all_known.1 y (ground arith)
]

abbrev pub system_problem : Toy → Problem Toy
system_problem t = problem toy (system t) (new_unroller toy (system t) at) x

abbrev pub system_unrolling :
    (t : Toy) → Speaks toy (system t) at t → Unrolling toy (system_problem t)
system_unrolling t speaks =
    unrolling toy (system t) (new_unroller toy (system t) at) x toy_laws (system-IsWellFormed t)
      (new_unroller-IsTimed toy (system t) at) [] 64 refl refl (λ v k var. refl)
      (IsKnown-mem t (x ∷ []) (inl refl, tt)) speaks (IsKnown-mem t (x ∷ []) (inl refl, tt))

-- the bounds from the given one, by steps of 1, and the binary search
abbrev options_from : ℕ → BmcOptions
options_from n = record {
  bound_start = n;
  bound_step = 1;
  exponential_step = false;
  neg_init_step = false;
  single_bad_state = false;
  allow_non_minimal_cex = false;
  neg_bad_step = false;
  neg_bad_step_all = true;
  min_cex_linear_search = false;
  min_cex_less_inc_bin_search = false;
}

module _ (n : ℕ) (t : Toy) where
  abbrev Engine : Type 0
  Engine = Bmc toy table (options_from n) (system_problem t)

  abbrev start : Engine
  start = record {
    initialized = false;
    solver_state = empty_table;
    next_k = 7;
    bin_search_frames = 0;
  }

  abbrev finish : Result (ProverResult × Engine) → Engine
  finish r = elim r [ ok (v, b) ↦ b | err y ↦ start ]

  abbrev refutes : Result (ProverResult × Engine) → Bool
  refutes (ok (false_, b)) = true
  refutes _ = false

  abbrev gives_up : Result (ProverResult × Engine) → Bool
  gives_up (ok (unknown, b)) = true
  gives_up _ = false

  ok-refutes :
      (r : Result (ProverResult × Engine))
      → refutes r ≡ true
      → r ≡ ok (ProverResult.false_, finish r)
  ok-refutes (ok (false_, b)) h = refl
  ok-refutes (ok (true_, b)) h = absurd (cc)
  ok-refutes (ok (unknown, b)) h = absurd (cc)
  ok-refutes (ok (error, b)) h = absurd (cc)
  ok-refutes (err y) h = absurd (cc)

  ok-gives_up :
      (r : Result (ProverResult × Engine))
      → gives_up r ≡ true
      → r ≡ ok (ProverResult.unknown, finish r)
  ok-gives_up (ok (unknown, b)) h = refl
  ok-gives_up (ok (true_, b)) h = absurd (cc)
  ok-gives_up (ok (false_, b)) h = absurd (cc)
  ok-gives_up (ok (error, b)) h = absurd (cc)
  ok-gives_up (err y) h = absurd (cc)

-- the state takes the input
abbrev pub latch : Toy
latch = same x_next i

abbrev pub latch_unrolling : Unrolling toy (system_problem latch)
latch_unrolling =
    system_unrolling latch
      (IsKnown-mem latch (x_next ∷ i ∷ []) (inr (x, refl, refl), (inl refl, tt)))

abbrev latch_result : Result (ProverResult × Engine 2 latch)
latch_result = check_until toy table (options_from 2) (system_problem latch) 2 (start 2 latch)

-- the bounds 0 to 2 are checked at once, and the search reports the length of the shortest counterexample
latch_runs : (refutes 2 latch latch_result ≡ true) × ((finish 2 latch latch_result).next_k ≡ 1)
unfolding check_until at_time decimal pono.Ts.Symbols.next pono.Ts.Symbols.only_curr
latch_runs = (refl, refl)

-- an engine that has given a verdict starts again after `reset_env`, and only then
reset_runs :
    (initialize toy table (options_from 2) (system_problem latch) (finish 2 latch latch_result)
      ≡ ok (finish 2 latch latch_result))
    × (reset_env toy table (options_from 2) (system_problem latch) (finish 2 latch latch_result)
        ≡ ok
            (begin toy table (options_from 2) (system_problem latch) (finish 2 latch latch_result)))
unfolding initialize reset_env check_until at_time decimal pono.Ts.Symbols.next
    pono.Ts.Symbols.only_curr
reset_runs = (refl, refl)

check_until-Refuted_example :
    Refuted toy toy_laws table table_laws
      (options_from 2)
      (system_problem latch)
      latch_unrolling
      (finish 2 latch latch_result)
check_until-Refuted_example =
    check_until-Refuted toy toy_laws table table_laws (options_from 2) (system_problem latch)
      latch_unrolling table_decides 2 (start 2 latch) (finish 2 latch latch_result) refl refl
      (ok-refutes 2 latch latch_result latch_runs.0)

-- the state keeps its value
abbrev pub keep : Toy
keep = same x_next x

abbrev pub keep_unrolling : Unrolling toy (system_problem keep)
keep_unrolling =
    system_unrolling keep (IsKnown-mem keep (x_next ∷ x ∷ []) (inr (x, refl, refl), (inl refl, tt)))

abbrev keep_result : Result (ProverResult × Engine 0 keep)
keep_result = check_until toy table (options_from 0) (system_problem keep) 2 (start 0 keep)

keep_runs : gives_up 0 keep keep_result ≡ true
unfolding check_until at_time decimal pono.Ts.Symbols.next pono.Ts.Symbols.only_curr
keep_runs = refl

check_until-NoCex_example : ¬ (
    (π : Trace toy (system_problem keep) keep_unrolling) × Cex toy
      (system_problem keep)
      keep_unrolling
      π
      2)
check_until-NoCex_example =
    check_until-NoCex toy toy_laws table table_laws (options_from 0) (system_problem keep)
      keep_unrolling table_decides refl refl refl refl 2 (start 0 keep) (finish 0 keep keep_result)
      refl (ok-gives_up 0 keep keep_result keep_runs) 2 (omega arith)

abbrev kind_options : KindOptions
kind_options = record {
  bound_step = 1;
  eager_simple_path_check = false;
  no_simple_path_check = false;
  no_multi_call_simple_path_check = false;
  no_ind_check = false;
  no_ind_check_init_states = true;
  no_ind_check_property = false;
  one_time_base_check = true;
  check_trans_total = false;
}

abbrev pub selector : ℕ → Toy
selector n = sym (115 ∷ n ∷ []) SortKind.bool

-- a relational system, so that its relation is not known to be total
abbrev relational : KindSystem Toy
relational = record {
  statevars = x ∷ [];
  has_no_update = λ v. true;
  is_functional = false;
  no_constraints = true;
  is_right_total = none;
  sel_init = selector 0;
  sel_neg_init_terms = selector 1;
  sel_neg_bad_state_terms = selector 2;
  sel_simple_path_terms = selector 3;
}

abbrev base_result : Toy → Result (Bool × Table)
base_result t =
    final_base_case_check toy table kind_options (system_problem t) relational 2 empty_table

abbrev base_state : Result (Bool × Table) → Table
base_state r = elim r [ ok (safe, s) ↦ s | err y ↦ empty_table ]

abbrev answers : Bool → Result (Bool × Table) → Bool
answers safe (ok (b, s)) = if safe then b else not b
answers safe (err y) = false

ok-answers :
    (safe : Bool) (r : Result (Bool × Table)) → answers safe r ≡ true → r ≡ ok (safe, base_state r)
ok-answers true (ok (true, s)) h = refl
ok-answers true (ok (false, s)) h = absurd (cc)
ok-answers false (ok (true, s)) h = absurd (cc)
ok-answers false (ok (false, s)) h = refl
ok-answers safe (err y) h = absurd (cc)

base_runs : (answers false (base_result latch) ≡ true) × (answers true (base_result keep) ≡ true)
unfolding final_base_case_check is_trans_total at_time decimal pono.Ts.Symbols.next
base_runs = (refl, refl)

is_partial : (t : Toy) → is_trans_total toy table kind_options (system_problem t) relational ≡ false
unfolding is_trans_total
is_partial t = refl

final_base_case_check-Cex_example :
    (m : ℕ) × (m ≤ 2)
    × (π : Trace toy (system_problem latch) latch_unrolling) × Cex toy
        (system_problem latch)
        latch_unrolling
        π
        m
final_base_case_check-Cex_example =
    final_base_case_check-Cex toy toy_laws table table_laws kind_options (system_problem latch)
      relational latch_unrolling 2 empty_table (base_state (base_result latch)) (is_partial latch)
      (ok-answers false (base_result latch) base_runs.0)

final_base_case_check-NoCex_example : ¬ (
    (π : Trace toy (system_problem keep) keep_unrolling) × Cex toy
      (system_problem keep)
      keep_unrolling
      π
      1)
final_base_case_check-NoCex_example =
    final_base_case_check-NoCex toy toy_laws table table_laws kind_options (system_problem keep)
      relational keep_unrolling 2 empty_table (base_state (base_result keep)) (is_partial keep)
      (ok-answers true (base_result keep) base_runs.1) 1 (omega arith)
