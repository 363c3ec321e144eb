-- ===== src/Ts/Rebuild.antt =====
-- core/ts.cpp: the operations that build the transition relation again from the recorded updates
-- and constraints, and the replacement of terms.
pub mod Meaning
pub mod Dropped
use pono.Base.{
  Bool, true, false, not, ◌&&◌, ◌||◌, List, [], ◌∷◌, Option, some, none, map, foldl, Eq, mem,
  insert, erase, lookup, put, delete, has_key, all, Map, if◌then◌else◌, Result, ok, err, M,
  continue, Error, list_eq, nat_eq,
}
use pono.Smt.{Smt, Name}
use pono.Ts.{TransitionSystem}
use pono.Ts.Symbols.{only_curr, no_next, contains}
use pono.Ts.Define.{add_constraint}

module _ {Term : Type 0} ⦃e : Eq Term⦄ (smt : Smt Term) where
  open smt use {make_bool, make_and, make_equal, free_symbols, replace_all}

  abbrev Op : Type 0
  Op = M (TransitionSystem Term) (Unit {0})

  -- `trans_ = And(trans_, Equal(next_map_.at(sv), update))`
  unfoldable pub add_update : Term → Term → Op
  add_update sv update ts = elim (lookup sv ts.next_map) [
    | some nv ↦ (ok tt, record ts { trans = make_and ts.trans (make_equal nv update) })
    | none ↦ (err Error.out_of_range, ts)
  ]

  -- the loop of `rebuild_trans_based_on_coi` over a copy of `constraints_`
  unfoldable pub add_constraints : List (Term × Bool) → Op
  add_constraints [] ts = (ok tt, ts)
  add_constraints ((c, b) ∷ cs) ts = continue (add_constraint smt c b ts) (λ _. add_constraints cs)

  -- `drop_state_updates`: the loop over its argument
  drop_each : List Term → Op
  drop_each [] ts = (ok tt, ts)
  drop_each (sv ∷ svs) ts =
      if mem sv ts.statevars
      then drop_each svs (record ts {
        state_updates = delete sv ts.state_updates;
        no_state_updates = insert sv ts.no_state_updates;
      })
      else (err Error.drop_non_state, ts)

  unfoldable pub add_updates : Map Term Term → Op
  unfolding add_update
  add_updates [] ts = (ok tt, ts)
  add_updates ((sv, u) ∷ us) ts = continue (add_update sv u ts) (λ _. add_updates us)

  -- The loop of `drop_state_updates` over `constraints_` itself. `add_constraint` appends to the vector that
  -- the loop runs over, which makes its iterators invalid: what follows the first append is not defined.
  unfoldable pub add_own_constraints : List (Term × Bool) → Op
  add_own_constraints [] ts = (ok tt, ts)
  add_own_constraints ((c, b) ∷ cs) ts =
      continue (add_constraint smt c b ts) (λ _ ts'. (err Error.undefined_behaviour, ts'))

  unfoldable pub drop_state_updates : List Term → Op
  unfolding drop_each add_updates add_own_constraints
  drop_state_updates svs ts = continue (drop_each svs ts) (λ _ ts1.
      continue (add_updates ts1.state_updates (record ts1 { trans = make_bool true }))
        (λ _ ts2. add_own_constraints ts2.constraints ts2))

  -- `rebuild_trans_based_on_coi`, first loop
  unfoldable pub add_updates_of : List Term → Op
  unfolding add_update
  add_updates_of [] ts = (ok tt, ts)
  add_updates_of (v ∷ vs) ts =
      continue {A = Unit {0}}
        (elim (lookup v ts.state_updates) [ some u ↦ add_update v u ts | none ↦ (ok tt, ts) ])
        (λ _. add_updates_of vs)

  abbrev set_of : List Term → List Term → List Term
  set_of = foldl (λ acc v. insert v acc)

  -- the states that keep an update, and those that have none
  reduce_updates : List Term → Map Term Term → Map Term Term × List Term → Map Term Term × List Term
  reduce_updates [] updates kept = kept
  reduce_updates (v ∷ vs) updates (us, none_of) =
      reduce_updates vs updates
        (elim (lookup v updates) [ some u ↦ (put v u us, none_of) | none ↦ (us, insert v none_of) ])

  -- `all_in_sys`: every symbol, taken in its current-state version, is in the system
  unfoldable pub in_system : TransitionSystem Term → Term → Bool
  in_system ts t =
      all
        (λ v.
          let cv : Term = elim (lookup v ts.curr_map) [ some c ↦ c | none ↦ v ] in
          mem cv ts.statevars || mem cv ts.inputvars)
        (free_symbols t)

  reduce_names :
      TransitionSystem Term
      → Map Name Term
      → Map Name Term × Map Term Name
      → Result (Map Name Term × Map Term Name)
  unfolding in_system
  reduce_names ts [] kept = ok kept
  reduce_names ts ((n, t) ∷ m) (names, reps) =
      if in_system ts t
      then elim (lookup t ts.term_to_name) [
        | some rep ↦ reduce_names ts m (put n t names, put t rep reps)
        | none ↦ err Error.out_of_range
      ]
      else reduce_names ts m (names, reps)

  -- the part of `rebuild_trans_based_on_coi` after the transition relation is rebuilt
  restrict_to_coi : List Term → List Term → Op
  unfolding reduce_updates reduce_names
  restrict_to_coi states inputs ts =
      let (us, none_of) = reduce_updates states ts.state_updates ([], []) in
      let ts' = record ts {
        statevars = set_of (set_of [] (free_symbols ts.init)) states;
        inputvars = set_of [] inputs;
        state_updates = us;
        no_state_updates = none_of;
      } in
      elim (reduce_names ts' ts'.named_terms ([], [])) [
        | ok (names, reps) ↦ (ok tt, record ts' { named_terms = names; term_to_name = reps })
        | err x ↦ (err x, ts')
      ]

  unfoldable pub rebuild_trans_based_on_coi : List Term → List Term → Op
  unfolding add_updates_of add_constraints restrict_to_coi
  rebuild_trans_based_on_coi states inputs ts =
      continue (add_updates_of states (record ts { trans = make_bool true })) (λ _ ts1.
        continue (add_constraints ts1.constraints (record ts1 { constraints = [] }))
          (λ _. restrict_to_coi states inputs))

  -- `replace_terms`: the loops over the names, the updates and the two renamings
  replace_names :
      Map Term Term
      → Map Term Name
      → Map Name Term
      → Map Name Term × Map Term Name
      → Result (Map Name Term × Map Term Name)
  replace_names to reps [] kept = ok kept
  replace_names to reps ((n, t) ∷ m) (names, reps') = elim (lookup t reps) [
    | some rep ↦
        replace_names to reps m (put n (replace_all to t) names, put (replace_all to t) rep reps')
    | none ↦ err Error.out_of_range
  ]

  replace_updates :
      Map Term Term → TransitionSystem Term → Map Term Term → Map Term Term → Result (Map Term Term)
  replace_updates to ts [] kept = ok kept
  replace_updates to ts ((sv, u) ∷ m) kept =
      let u' = replace_all to u in
      if ts.functional && not (no_next smt ts u')
      then err Error.next_in_update
      else replace_updates to ts m (put (replace_all to sv) u' kept)

  replace_renaming : Map Term Term → Map Term Term → Map Term Term → Map Term Term
  replace_renaming to [] kept = kept
  replace_renaming to ((a, b) ∷ m) kept =
      replace_renaming to m (put (replace_all to a) (replace_all to b) kept)

  swap_pair : Term × Term → Term × Term
  swap_pair (a, b) = (b, a)

  -- after the checks; `constraints_` is copied as it is
  replace_in : Map Term Term → Op
  unfolding swap_pair replace_names replace_updates replace_renaming
  replace_in to ts =
      let ts1 = record ts { init = replace_all to ts.init } in
      if not (only_curr smt ts1 ts1.init)
      then (err Error.replaced_input_in_init, ts1)
      else (let ts2 = record ts1 { trans = replace_all to ts.trans } in
          elim (replace_names to ts.term_to_name ts.named_terms ([], [])) [
            | err x ↦ (err x, ts2)
            | ok (names, reps) ↦
                (let ts3 = record ts2 { named_terms = names; term_to_name = reps } in
                  elim (replace_updates to ts3 ts.state_updates []) [
                    | err x ↦ (err x, ts3)
                    | ok us ↦ (
                      ok tt,
                      record ts3 {
                        state_updates = us;
                        next_map = replace_renaming to ts.next_map [];
                        curr_map = replace_renaming to (map swap_pair ts.next_map) [];
                      },
                    )
                  ])
          ])

  unfoldable pub replace_terms : Map Term Term → Op
  unfolding replace_in contains
  replace_terms to ts =
      let known =
        λ (t : Term). contains smt t (ts.statevars ∷ ts.inputvars ∷ ts.next_statevars ∷ []) in
      if all (λ ab. known ab.0 && known ab.1) to
      then replace_in to ts
      else (err Error.unknown_symbols, ts)
