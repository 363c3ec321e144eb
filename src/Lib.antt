-- ===== src/Lib.antt =====
-- A verification library of pono, an SMT-based model checker for transition systems.
--
-- The program's parts and the files that model them:
--
-- - Smt.antt: the terms of smt-switch, a submodule of the repository and a parameter here (the record `Smt`);
--   Smt/Laws.antt states what the code relies on: the value of a term under an assignment, substitution, the
--   free symbols. Smt/Solver.antt is the incremental solver (`AbsSmtSolver`): a stack of frames of assertions,
--   whose answers are right when it gives one; a solver may answer `unknown` unless `Decides` is assumed.
-- - Ts.antt: the state of core/ts.h, core/fts.h and core/rts.h as the record `TransitionSystem`. A C++ set or
--   map is a list without repetition or an association list, and a method is a function from the state to a
--   result and the state after it, since a method that throws keeps what it wrote before.
--   Ts/Symbols.antt has the queries (`contains`, `only_curr`, `no_next`, `curr`, `next`, `lookup`),
--   Ts/Define.antt the operations on `init` and `trans` (`set_init`, `constrain_init`, `assign_next`,
--   `add_invar`, `constrain_inputs`, `add_constraint`), Ts/Vars.antt the declarations (`make_statevar`,
--   `add_inputvar`, `name_term`, `promote_inputvar`), Ts/Rebuild.antt the operations that build `trans` again
--   (`rebuild_trans_based_on_coi`, `drop_state_updates`) and `replace_terms`, and Ts/Relational.antt those of
--   core/rts.cpp.
-- - Unroller.antt: core/unroller.h and core/unroller.cpp, the timed copies `v@k` of the variables and the
--   caches of the renamings, which grow when a later time is asked for; Unroller/Copies.antt and
--   Unroller/Untimed.antt are about the maps that lead back from a copy.
-- - Utils/Fcoi.antt: utils/fcoi.cpp, the functional cone of influence, with its walk over shared terms and its
--   worklist of states; Modifiers/StaticCoi.antt: modifiers/static_coi.cpp, which reduces a system to the cone.
-- - Ts/Executions.antt has the executions of a system, which the modifiers are about, and Ts/Growth.antt what the
--   operations that only add to a system leave alone. Utils/TsAnalysis.antt: utils/ts_analysis.cpp, the check of
--   an inductive invariant. Modifiers/History.antt and Modifiers/Prophecy.antt: modifiers/history_modifier.cpp
--   and modifiers/prophecy_modifier.cpp. Modifiers/PropMonitor.antt: modifiers/prop_monitor.cpp, with fuel for
--   the names that it tries. Modifiers/ModTsProp.antt: modifiers/mod_ts_prop.cpp and utils/ts_manipulation.cpp.
-- - Engines/Problem.antt: what an engine gets from engines/prover.h. The unroller is a function of term and
--   time there, which the theorems on `at_time` justify.
-- - Engines/Unrolled.antt: the problem of a system and its unroller, and its states.
-- - Engines/Bmc.antt: engines/bmc.cpp, with every search for a shortest counterexample.
-- - Engines/KInduction.antt: engines/kinduction.cpp and engines/bmc_simplepath.cpp.
--   Engines/KInduction/System.antt has the switches that the assumptions stand for and what the code relies on
--   for states without update; Engines/Paths.antt is about simple paths of any step relation.
-- - Base.antt: Booleans, lists, association lists and exceptions that the parts share.
-- - Examples.antt: a small term language and a solver that meet the laws, runs, and the instances of the theorems.
--
-- Numbers are natural numbers. `reached_k_`, which is -1 or more, is kept as `next_k = reached_k_ + 1`. A bound
-- that leaves the range of `int` is the error `int_overflow`, and the counter `bin_search_frames_` wraps at
-- 2^32 where the code decrements it at 0. The assertions on what a caller does (in `assign_next`, in `check_until`
-- of k-induction and in `add_prop_monitor`) are those of a build with assertions: one that fails is the error
-- `assertion_failed`. Those by which the code checks its own intermediate results are left out. Undefined behaviour is
-- the error `undefined_behaviour`.
--
-- Loops run over lists or counters. Fuel is used where a loop has neither: the worklist of `contains` has
-- fuel for the tree size of the term, and so has that of `compute_term_coi`; the worklist of states has fuel
-- for every state once, and the loop around it for two rounds; the binary searches have one round for each
-- bound of the interval, the loops over bounds one round for each bound up to `k` and one to leave (a step of
-- 0 runs out of it, where the code does not stop), and the lazy simple path check one round more than there
-- are pairs of times. The fuel of the monitor's names is an argument, since the code stops only at a free one.
--
-- Not modelled: the copy of a system into another solver, `is_right_total` (k-induction takes its answer),
-- the frontends, printers, options, abstraction-refinement and IC3 engines, `pseudo_init_and_prop`, and the
-- other modifiers and utilities.
-- The constructors that make the selector symbols of k-induction, the log and the witness of a
-- counterexample are left out of the engines.
pub mod Base
pub mod Smt
pub mod Ts
pub mod Unroller
pub mod Utils
pub mod Modifiers
pub mod Engines
pub mod Examples
