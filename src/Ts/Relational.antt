-- ===== src/Ts/Relational.antt =====
-- core/rts.cpp: the operations of a relational transition system.
use pono.Base.{List, [], ◌∷◌, some, none, Eq, mem, erase, lookup, if◌then◌else◌, ok, err, M, Error}
use pono.Smt.{Smt}
use pono.Ts.{TransitionSystem}
use pono.Ts.Symbols.{known_symbols}

module _ {Term : Type 0} ⦃e : Eq Term⦄ (smt : Smt Term) where
  open smt use {make_and, free_symbols}

  abbrev Op : Type 0
  Op = M (TransitionSystem Term) (Unit {0})

  -- The loop of `set_updated_states`. `curr_map_[v]` of a missing key is the null term, which is in no
  -- set.
  unfoldable pub mark_updated : List Term → TransitionSystem Term → TransitionSystem Term
  mark_updated [] ts = ts
  mark_updated (v ∷ vs) ts = mark_updated vs (
      if mem v ts.next_statevars
      then elim (lookup v ts.curr_map) [
        | some c ↦ record ts { no_state_updates = erase c ts.no_state_updates }
        | none ↦ ts
      ]
      else ts)

  unfoldable pub set_updated_states : Term → TransitionSystem Term → TransitionSystem Term
  unfolding mark_updated
  set_updated_states t = mark_updated (free_symbols t)

  unfoldable pub set_trans : Term → Op
  unfolding set_updated_states
  set_trans trans ts =
      if known_symbols smt ts trans
      then (ok tt, set_updated_states trans (record ts { trans = trans }))
      else (err Error.unknown_symbols, ts)

  unfoldable pub set_behavior : Term → Term → Op
  unfolding set_trans
  set_behavior init trans ts =
      if known_symbols smt ts init
      then set_trans trans (record ts { init = init })
      else (err Error.unknown_symbols, ts)

  unfoldable pub constrain_trans : Term → Op
  unfolding set_updated_states
  constrain_trans c ts =
      if known_symbols smt ts c
      then (ok tt, set_updated_states c (record ts { trans = make_and ts.trans c }))
      else (err Error.unknown_symbols, ts)
