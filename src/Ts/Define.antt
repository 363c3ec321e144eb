-- ===== src/Ts/Define.antt =====
-- core/ts.cpp: the operations that define the initial states and the transition relation.
pub mod Meaning
pub mod Errors
use pono.Base.{
  Bool, true, false, not, ◌&&◌, ◌||◌, List, [], ◌∷◌, ◌++◌, Option, some, none, Eq, mem, erase,
  lookup, put, has_key, length, nat_beq, if◌then◌else◌, Result, ok, err, M, continue, Error,
}
use pono.Smt.{Smt}
use pono.Ts.{TransitionSystem}
use pono.Ts.Symbols.{only_curr, no_next}

module _ {Term : Type 0} ⦃e : Eq Term⦄ (smt : Smt Term) where
  open smt use {make_and, make_equal, substitute}

  abbrev Op : Type 0
  Op = M (TransitionSystem Term) (Unit {0})

  unfoldable pub set_init : Term → Op
  set_init init ts =
      if only_curr smt ts init
      then (ok tt, record ts { init = init })
      else (err Error.init_not_curr, ts)

  unfoldable pub constrain_init : Term → Op
  constrain_init c ts =
      if only_curr smt ts c
      then (ok tt, record ts { init = make_and ts.init c })
      else (err Error.init_not_curr, ts)

  -- `assign_next` after its three checks. The update and the erased state are written first; then comes the
  -- `assert` that a functional system had the state among those without updates; `next_map_.at` throws on a
  -- missing key.
  assign : Term → Term → Op
  assign state val ts =
      let updated = record ts {
        state_updates = put state val ts.state_updates;
        no_state_updates = erase state ts.no_state_updates;
      } in
      if ts.functional && not (mem state ts.no_state_updates)
      then (err Error.assertion_failed, updated)
      else elim (lookup state ts.next_map) [
        | none ↦ (err Error.out_of_range, updated)
        | some nv ↦ (
          ok tt,
          record updated {
            trans = make_and ts.trans (make_equal nv val);
            deterministic =
                if ts.functional && nat_beq (length ts.constraints) 0
                then nat_beq (length (put state val ts.state_updates)) (length ts.statevars)
                else ts.deterministic;
          },
        )
      ]

  unfoldable pub assign_next : Term → Term → Op
  unfolding assign
  assign_next state val ts =
      if not (mem state ts.statevars)
      then (err Error.unknown_state_var, ts)
      else if not (no_next smt ts val)
      then (err Error.rhs_not_functional, ts)
      else if has_key state ts.state_updates
      then (err Error.already_assigned, ts)
      else assign state val ts

  unfoldable pub add_invar : Term → Op
  add_invar c ts =
      if only_curr smt ts c
      then (
        ok tt,
        record ts {
          deterministic = false;
          init = make_and ts.init c;
          trans = make_and (make_and ts.trans c) (substitute c ts.next_map);
          constraints = ts.constraints ++ (c, true) ∷ [];
        },
      )
      else (err Error.invar_not_curr, record ts { deterministic = false })

  unfoldable pub constrain_inputs : Term → Op
  constrain_inputs c ts =
      if no_next smt ts c
      then (
        ok tt,
        record ts {
          deterministic = false;
          trans = make_and ts.trans c;
          constraints = ts.constraints ++ (c, true) ∷ [];
        },
      )
      else (err Error.input_constraint_next, record ts { deterministic = false })

  unfoldable pub add_constraint : Term → Bool → Op
  add_constraint c to_init_and_next ts =
      if only_curr smt ts c
      then (
        ok tt,
        record ts {
          deterministic = false;
          init = if to_init_and_next then make_and ts.init c else ts.init;
          trans =
              if to_init_and_next
              then make_and (make_and ts.trans c) (substitute c ts.next_map)
              else make_and ts.trans c;
          constraints = ts.constraints ++ (c, to_init_and_next) ∷ [];
        },
      )
      else if no_next smt ts c
      then (
        ok tt,
        record ts {
          deterministic = false;
          trans = make_and ts.trans c;
          constraints = ts.constraints ++ (c, to_init_and_next) ∷ [];
        },
      )
      else (err Error.constraint_next, record ts { deterministic = false })
