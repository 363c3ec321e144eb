-- ===== src/Engines/Unrolled.antt =====
-- The problem that an engine of engines/prover.h gets from a transition system and its unroller.
use pono.Base.{ℕ, ◌≡◌, false, ap, [], ◌∷◌, ◌++◌, Eq}
use pono.Smt.{Smt, Name}
use pono.Smt.Laws.{SmtLaws, holds}
use pono.Ts.{TransitionSystem}
use pono.Ts.Symbols.{only_curr}
use pono.Ts.Vars.WellFormed.{IsWellFormed}
use pono.Unroller.{Unroller, at_time}
use pono.Unroller.Digits.{is_digit}
use pono.Unroller.Timed.{Speaks}
use pono.Unroller.Trace.{joint, state_at, assign, IsPrinted}
use pono.Unroller.Caches.{IsTimed}
use pono.Unroller.Meaning.{eval-at_time_states, eval-at_time_assign}
use pono.Engines.Problem.{Problem, Unrolling}

module _ {Term : Type 0} ⦃e : Eq Term⦄ (smt : Smt Term) (ts : TransitionSystem Term)
    (u : Unroller Term) (bad : Term) where
  abbrev pub problem : Problem Term
  problem = record {
    init = ts.init;
    trans = ts.trans;
    bad = bad;
    bad_only_curr = only_curr smt ts bad;
    at_time = λ t k. (at_time smt ts t k u).0;
  }

  -- its states are the assignments to the variables, and its formulas speak of two of them
  abbrev pub unrolling :
      SmtLaws smt
      → IsWellFormed smt ts
      → IsTimed smt ts u
      → (stem : Name) (c : ℕ) → u.time_id ≡ stem ++ c ∷ []
      → is_digit c ≡ false
      → IsPrinted smt ts u.time_id
      → Speaks smt ts u.time_id ts.init
      → Speaks smt ts u.time_id ts.trans
      → Speaks smt ts u.time_id bad
      → Unrolling smt problem
  unrolling laws wf timed stem c ends stop printed in_init in_trans in_bad = record {
    State = pono.Smt.Laws.Model smt;
    sees = λ t s s'. holds smt (joint smt ts s s') t;
    reads = λ σ k. state_at smt ts u.time_id σ k;
    writes = λ π. assign smt ts u.time_id π;
    reads_init =
        λ σ k. ap smt.is_true (eval-at_time_states smt laws ts wf u timed k σ ts.init in_init);
    reads_trans =
        λ σ k. ap smt.is_true (eval-at_time_states smt laws ts wf u timed k σ ts.trans in_trans);
    reads_bad = λ σ k. ap smt.is_true (eval-at_time_states smt laws ts wf u timed k σ bad in_bad);
    writes_init = λ π k.
        ap smt.is_true
          (eval-at_time_assign smt laws ts wf u timed stem c ends stop printed π k ts.init in_init);
    writes_trans = λ π k.
        ap smt.is_true (
          eval-at_time_assign smt laws ts wf u timed stem c ends stop printed π k ts.trans
            in_trans);
    writes_bad = λ π k.
        ap smt.is_true
          (eval-at_time_assign smt laws ts wf u timed stem c ends stop printed π k bad in_bad);
  }
