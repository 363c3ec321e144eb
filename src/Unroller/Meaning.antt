-- ===== src/Unroller/Meaning.antt =====
-- What the term that the unroller returns means (`at_time` of core/unroller.cpp): its models are the
-- sequences of states of the system.
use pono.Base.{ℕ, suc, ◌≡◌, ap, ◌∙◌, false, [], ◌∷◌, ◌++◌, Eq}
use pono.Smt.{Smt, Name}
use pono.Smt.Laws.{SmtLaws, Model}
use pono.Ts.{TransitionSystem}
use pono.Ts.Vars.WellFormed.{IsWellFormed}
use pono.Unroller.{Unroller, at_time}
use pono.Unroller.Digits.{is_digit}
use pono.Unroller.Timed.{Speaks}
use pono.Unroller.Trace.{
  joint, state_at, assign, IsPrinted, eval-unrolled_states, eval-unrolled-assign,
}
use pono.Unroller.Caches.{IsTimed, at_time-unrolled}

module _ {Term : Type 0} ⦃e : Eq Term⦄ (smt : Smt Term) (laws : SmtLaws smt)
    (ts : TransitionSystem Term) (wf : IsWellFormed smt ts) where
  open smt use {eval}

  -- For a system with well-formed variables and an unroller whose caches are in order: in every model, the
  -- term that `at_time` returns for a term and the time `k` has the value that the term has in the states of
  -- the times `k` and `k + 1`, if its symbols are variables and next-state variables of the system.
  pub eval-at_time_states :
      (u : Unroller Term)
      → IsTimed smt ts u
      → (k : ℕ) (σ : Model smt) (t : Term) → Speaks smt ts u.time_id t
      → eval σ (at_time smt ts t k u).0
        ≡ eval
            (joint smt ts (state_at smt ts u.time_id σ k) (state_at smt ts u.time_id σ (suc k)))
            t
  eval-at_time_states u timed k σ t known =
      ap (eval σ) (at_time-unrolled smt ts t k u timed).0
      ∙ eval-unrolled_states smt laws ts u.time_id wf k σ t known

  -- Every sequence of states is the one of some model: for a system with well-formed variables and an
  -- unroller whose caches are in order, whose identifier of times ends in a character that is no digit, and
  -- whose copies of the variables are printed under the names that they are made with, the model that `assign` gives for a sequence gives the term that `at_time` returns for a term and the
  -- time `k` the value that the term has in the states of the times `k` and `k + 1`, if the term's symbols
  -- are variables and next-state variables.
  pub eval-at_time_assign :
      (u : Unroller Term)
      → IsTimed smt ts u
      → (stem : Name) (c : ℕ) → u.time_id ≡ stem ++ c ∷ []
      → is_digit c ≡ false
      → IsPrinted smt ts u.time_id
      → (π : ℕ → Model smt) (k : ℕ) (t : Term) → Speaks smt ts u.time_id t
      → eval (assign smt ts u.time_id π) (at_time smt ts t k u).0
        ≡ eval (joint smt ts (π k) (π (suc k))) t
  eval-at_time_assign u timed stem c ends stop printed π k t known =
      ap (eval (assign smt ts u.time_id π)) (at_time-unrolled smt ts t k u timed).0
      ∙ eval-unrolled-assign smt laws ts u.time_id wf stem c ends stop printed π k t known
