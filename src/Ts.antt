-- ===== src/Ts.antt =====
-- core/ts.h, core/ts.cpp, core/fts.h and core/rts.h: the state of a transition system and its
-- constructors. The solver is one constant: all the terms of a system belong to it.
pub mod Symbols
pub mod Define
pub mod Vars
pub mod Rebuild
pub mod Relational
pub mod Executions
pub mod Growth
use pono.Base.{
  Bool, true, false, List, [], Map, ◌==◌, ◌&&◌, list_beq, Eq, if◌then◌else◌, Result, ok, err, Error,
}
use pono.Smt.{Smt, Name}

pub record TransitionSystem (Term : Type 0) : Type 0 where
  pub init : Term
  pub trans : Term
  pub statevars : List Term
  pub next_statevars : List Term
  pub inputvars : List Term
  pub named_terms : Map Name Term
  pub term_to_name : Map Term Name
  pub state_updates : Map Term Term
  pub no_state_updates : List Term
  pub next_map : Map Term Term
  pub curr_map : Map Term Term
  pub next_suffix : Name
  pub functional : Bool
  pub deterministic : Bool
  -- the flag says whether the constraint may be added to the next states
  pub constraints : List (Term × Bool)

module _ {Term : Type 0} where
  -- `TransitionSystem(s, next_state_suffix)`
  abbrev pub new_system : Smt Term → Name → TransitionSystem Term
  new_system smt suffix = record {
    init = smt.make_bool true;
    trans = smt.make_bool true;
    statevars = [];
    next_statevars = [];
    inputvars = [];
    named_terms = [];
    term_to_name = [];
    state_updates = [];
    no_state_updates = [];
    next_map = [];
    curr_map = [];
    next_suffix = suffix;
    functional = false;
    deterministic = false;
    constraints = [];
  }

  -- `FunctionalTransitionSystem(s)`
  abbrev pub new_functional : Smt Term → Name → TransitionSystem Term
  new_functional smt suffix = record (new_system smt suffix) { functional = true }

  -- `FunctionalTransitionSystem(other_ts)`
  pub to_functional : TransitionSystem Term → Result (TransitionSystem Term)
  to_functional ts = if ts.functional then ok ts else err Error.copied_relational

  -- `RelationalTransitionSystem(other_ts)`
  pub to_relational : TransitionSystem Term → TransitionSystem Term
  to_relational ts = record ts { functional = false; deterministic = false }

  -- `swap(ts1, ts2)`: the members are exchanged one by one
  pub swap :
      TransitionSystem Term → TransitionSystem Term → TransitionSystem Term × TransitionSystem Term
  swap a b = (
    record a {
      init = b.init;
      trans = b.trans;
      statevars = b.statevars;
      next_statevars = b.next_statevars;
      inputvars = b.inputvars;
      named_terms = b.named_terms;
      term_to_name = b.term_to_name;
      state_updates = b.state_updates;
      no_state_updates = b.no_state_updates;
      next_map = b.next_map;
      curr_map = b.curr_map;
      next_suffix = b.next_suffix;
      functional = b.functional;
      deterministic = b.deterministic;
      constraints = b.constraints;
    },
    record b {
      init = a.init;
      trans = a.trans;
      statevars = a.statevars;
      next_statevars = a.next_statevars;
      inputvars = a.inputvars;
      named_terms = a.named_terms;
      term_to_name = a.term_to_name;
      state_updates = a.state_updates;
      no_state_updates = a.no_state_updates;
      next_map = a.next_map;
      curr_map = a.curr_map;
      next_suffix = a.next_suffix;
      functional = a.functional;
      deterministic = a.deterministic;
      constraints = a.constraints;
    },
  )
