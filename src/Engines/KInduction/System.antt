-- ===== src/Engines/KInduction/System.antt =====
-- What k-induction relies on of the system and of its selector symbols (engines/kinduction.h).
use pono.Base.{ℕ, suc, ◌≡◌, Bool, true, false, not, ◌&&◌, ◌||◌, Eq, mem, all}
use pono.Smt.{Smt}
use pono.Smt.Laws.{Model, holds}
use pono.Engines.Problem.{Problem, Unrolling, Trace}
use pono.Engines.KInduction.{KindSystem}

-- the values of the selector symbols: a constraint is switched off where its selector is true
pub record Switches : Type 0 where
  pub start : Bool
  pub later : Bool
  pub bad : Bool
  pub path : Bool

module _ {Term : Type 0} ⦃e : Eq Term⦄ (smt : Smt Term) (p : Problem Term) (ts : KindSystem Term)
    (un : Unrolling smt p) where
  open smt use {make_not, make_equal}
  open p use {init, trans, bad, at_time}
  open ts use {
    statevars, has_no_update, sel_init, sel_neg_init_terms, sel_neg_bad_state_terms,
    sel_simple_path_terms,
  }
  open un use {State, sees}

  -- The initial and the bad states are sets of states, without the state after. A model exists for every
  -- sequence of states and values of the selectors, since the selectors are symbols that no unrolled formula
  -- has.
  pub record Switched : Type 0 where
    pub init_in : State → Bool
    pub bad_in : State → Bool
    -- the variable has the same value in both states
    pub same : Term → State → State → Bool
    pub writes : Switches → Trace smt p un → Model smt
    pub sees_init : (s r : State) → sees init s r ≡ init_in s
    pub sees_bad : (s r : State) → sees bad s r ≡ bad_in s
    pub writes_init :
        (b : Switches) (π : Trace smt p un) (k : ℕ)
        → holds smt (writes b π) (at_time init k) ≡ init_in (π k)
    pub writes_not_init :
        (b : Switches) (π : Trace smt p un) (k : ℕ)
        → holds smt (writes b π) (at_time (make_not init) k) ≡ not (init_in (π k))
    pub writes_trans :
        (b : Switches) (π : Trace smt p un) (k : ℕ)
        → holds smt (writes b π) (at_time trans k) ≡ sees trans (π k) (π (suc k))
    pub writes_bad :
        (b : Switches) (π : Trace smt p un) (k : ℕ)
        → holds smt (writes b π) (at_time bad k) ≡ bad_in (π k)
    pub writes_not_bad :
        (b : Switches) (π : Trace smt p un) (k : ℕ)
        → holds smt (writes b π) (at_time (make_not bad) k) ≡ not (bad_in (π k))
    pub writes_same :
        (b : Switches) (π : Trace smt p un) (v : Term) (j l : ℕ)
        → mem v statevars ≡ true
        → holds smt (writes b π) (make_equal (at_time v j) (at_time v l)) ≡ same v (π j) (π l)
    pub writes_start :
        (b : Switches) (π : Trace smt p un) → holds smt (writes b π) sel_init ≡ b.start
    pub writes_later :
        (b : Switches) (π : Trace smt p un) → holds smt (writes b π) sel_neg_init_terms ≡ b.later
    pub writes_off :
        (b : Switches) (π : Trace smt p un) → holds smt (writes b π) sel_neg_bad_state_terms ≡ b.bad
    pub writes_path :
        (b : Switches) (π : Trace smt p un) → holds smt (writes b π) sel_simple_path_terms ≡ b.path

  module _ (sw : Switched) where
    -- the states agree on the state variables, or on those that have an update
    abbrev pub agree : Bool → State → State → Bool
    agree skip s r = all (λ v. skip && has_no_update v || sw.same v s r) statevars

    -- The initial states are told by the state variables, and the next values of variables without update
    -- are free: a state that has a predecessor may follow a state wherever one that agrees with it on the
    -- updated variables may.
    pub record IsInputLike : Type 0 where
      pub init_agree : (s r : State) → agree false s r ≡ true → sw.init_in s ≡ sw.init_in r
      pub reenter :
          (q s q' s' : State)
          → sees trans q s ≡ true
          → sees trans q' s' ≡ true
          → agree true s s' ≡ true
          → sees trans q s' ≡ true
