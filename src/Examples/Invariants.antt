-- ===== src/Examples/Invariants.antt =====
-- The invariant `x` of the system that assumes it, checked by the solver of the small term language.
use pono.Base.{ℕ, ◌≡◌, refl, arith, true, [], ◌∷◌, Bool-cases, inl, inr, ◌==◌}
use pono.Smt.Laws.{holds, Model}
use pono.Ts.{TransitionSystem}
use pono.Ts.Executions.{Execution, IsDeclared}
use pono.Utils.TsAnalysis.{check_invar}
use pono.Utils.TsAnalysis.Invariant.{check_invar-Execution}
use pono.Examples.Toy.{toy, toy_laws, toy_eq}
use pono.Examples.Table.{Table, table, table_laws}
use pono.Examples.Systems.{x, constrained, declared-IsWellFormed}

constrained-IsDeclared : IsDeclared toy constrained
constrained-IsDeclared = record {
  vars = record {
    next_of = declared-IsWellFormed.next_of;
    curr_in = declared-IsWellFormed.curr_in;
    plain = declared-IsWellFormed.plain;
    symbolic = declared-IsWellFormed.symbolic;
    next_symbolic = declared-IsWellFormed.next_symbolic;
    named = declared-IsWellFormed.named;
  };
  renamed =
      λ v n at. elim (Bool-cases (x == v)) [ inl a ↦ ground arith | inr a ↦ absurd (ground arith) ];
  renaming = refl;
}

abbrev fresh : Table
fresh = record { stack = [] ∷ []; model = λ _. true }

check_invar_runs : check_invar toy table constrained x x fresh ≡ true
unfolding check_invar pono.Ts.Symbols.only_curr pono.Ts.Symbols.next
check_invar_runs = refl

abbrev high : ℕ → Model toy
high t v = true

high-Execution : Execution toy constrained 2 high
high-Execution = record { starts = refl; steps = λ t lt. refl; linked = λ t lt v n m at. refl }

check_invar-Execution_example : holds toy (high 1) x ≡ true
check_invar-Execution_example =
    check_invar-Execution toy toy_laws table table_laws constrained x x fresh constrained-IsDeclared
      refl check_invar_runs 2 high high-Execution 1 (omega arith)
