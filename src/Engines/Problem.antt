-- ===== src/Engines/Problem.antt =====
-- What an engine is given (engines/prover.h): the formulas of the system and of the property, and the
-- unroller. `Unroller.Caches.at_time-unrolled` shows that the unroller is a function of the term and the
-- time, which the engines take as `at_time`.
use pono.Base.{ℕ, suc, ◌≡◌, ◌<◌, Bool, true, Eq}
use pono.Smt.{Smt}
use pono.Smt.Laws.{Model, holds}

pub data ProverResult : Type 0 where
  unknown false_ true_ error : ProverResult

pub record Problem (Term : Type 0) : Type 0 where
  pub init : Term
  pub trans : Term
  -- the negated property
  pub bad : Term
  -- `ts_.only_curr(bad_)`
  pub bad_only_curr : Bool
  pub at_time : Term → ℕ → Term

module _ {Term : Type 0} ⦃e : Eq Term⦄ (smt : Smt Term) (p : Problem Term) where
  open p use {init, trans, bad, at_time}

  -- The models of the unrolled formulas are the sequences of states: `sees t s s'` is the truth of a
  -- formula in a state and its next state.
  pub record Unrolling : Type 1 where
    pub State : Type 0
    pub sees : Term → State → State → Bool
    pub reads : Model smt → ℕ → State
    pub writes : (ℕ → State) → Model smt
    pub reads_init :
        (σ : Model smt) (k : ℕ)
        → holds smt σ (at_time init k) ≡ sees init (reads σ k) (reads σ (suc k))
    pub reads_trans :
        (σ : Model smt) (k : ℕ)
        → holds smt σ (at_time trans k) ≡ sees trans (reads σ k) (reads σ (suc k))
    pub reads_bad :
        (σ : Model smt) (k : ℕ)
        → holds smt σ (at_time bad k) ≡ sees bad (reads σ k) (reads σ (suc k))
    pub writes_init :
        (π : ℕ → State) (k : ℕ)
        → holds smt (writes π) (at_time init k) ≡ sees init (π k) (π (suc k))
    pub writes_trans :
        (π : ℕ → State) (k : ℕ)
        → holds smt (writes π) (at_time trans k) ≡ sees trans (π k) (π (suc k))
    pub writes_bad :
        (π : ℕ → State) (k : ℕ) → holds smt (writes π) (at_time bad k) ≡ sees bad (π k) (π (suc k))

  module _ (un : Unrolling) where
    open un use {State, sees}

    abbrev pub Trace : Type 0
    Trace = ℕ → State

    abbrev pub init_at : Trace → ℕ → Bool
    init_at π k = sees init (π k) (π (suc k))

    abbrev pub trans_at : Trace → ℕ → Bool
    trans_at π k = sees trans (π k) (π (suc k))

    abbrev pub bad_at : Trace → ℕ → Bool
    bad_at π k = sees bad (π k) (π (suc k))

    -- a path of `n` transitions from an initial state
    pub record PathOf (π : Trace) (n : ℕ) : Type 0 where
      pub starts : init_at π 0 ≡ true
      pub steps : (j : ℕ) → j < n → trans_at π j ≡ true

    -- a counterexample of length `n`: its last state is bad
    pub record Cex (π : Trace) (n : ℕ) : Type 0 where
      pub path : PathOf π n
      pub ends : bad_at π n ≡ true
