-- ===== src/Examples/Systems.antt =====
-- A system with a state `x`, an input `i` and the update `x := i`, and the theorems on it.
use pono.Base.{
  ◌≡◌, ◌≢◌, ◌↔◌, refl, true, false, ◌&&◌, [], ◌∷◌, none, ok, lookup, not, mem, all, put, err, Error,
  ◌||◌, if◌then◌else◌,
}
use pono.Smt.{Name, SortKind}
use pono.Smt.Laws.{holds, Model}
use pono.Ts.{TransitionSystem, new_functional}
use pono.Ts.Symbols.{contains, no_next, only_curr}
use pono.Ts.Symbols.Contains.{Covered, contains-Covered}
use pono.Ts.Define.{assign_next, add_invar, add_constraint}
use pono.Ts.Define.Meaning.{
  IsBuilt, constraint_holds, assign_next-IsBuilt, add_invar-IsBuilt, add_constraint-IsBuilt,
}
use pono.Ts.Define.Errors.{is_assignable, assign_next-throws}
use pono.Ts.Vars.{
  make_statevar, make_inputvar, add_statevar, add_inputvar, promote_inputvar, name_term,
}
use pono.Ts.Vars.WellFormed.{
  IsWellFormed, add_statevar-IsWellFormed, add_inputvar-IsWellFormed, promote_inputvar-IsWellFormed,
}
use pono.Ts.Rebuild.{drop_state_updates, rebuild_trans_based_on_coi}
use pono.Ts.Rebuild.Dropped.{drop_state_updates_lem}
use pono.Ts.Rebuild.Meaning.{rebuild_trans_lem, rebuild_trans-le, update_of_holds}
use pono.Examples.Toy.{Toy, sym, lit, conj, same, toy, toy_laws, toy_eq}

abbrev suffix : Name
suffix = 46 ∷ []

abbrev pub x : Toy
x = sym (120 ∷ []) SortKind.bool

abbrev pub x_next : Toy
x_next = sym (120 ∷ 46 ∷ []) SortKind.bool

abbrev pub i : Toy
i = sym (105 ∷ []) SortKind.bool

abbrev pub empty : TransitionSystem Toy
empty = new_functional toy suffix

-- after `make_statevar`
abbrev pub with_state : TransitionSystem Toy
with_state = record empty {
  statevars = x ∷ [];
  next_statevars = x_next ∷ [];
  named_terms = (120 ∷ [], x) ∷ (120 ∷ 46 ∷ [], x_next) ∷ [];
  term_to_name = (x, 120 ∷ []) ∷ (x_next, 120 ∷ 46 ∷ []) ∷ [];
  no_state_updates = x ∷ [];
  next_map = (x, x_next) ∷ [];
  curr_map = (x_next, x) ∷ [];
}

-- after `make_inputvar`
abbrev pub declared : TransitionSystem Toy
declared = record with_state {
  inputvars = i ∷ [];
  named_terms = (120 ∷ [], x) ∷ (120 ∷ 46 ∷ [], x_next) ∷ (105 ∷ [], i) ∷ [];
  term_to_name = (x, 120 ∷ []) ∷ (x_next, 120 ∷ 46 ∷ []) ∷ (i, 105 ∷ []) ∷ [];
}

-- after `assign_next`
abbrev pub updated : TransitionSystem Toy
updated = record declared {
  state_updates = (x, i) ∷ [];
  no_state_updates = [];
  trans = conj (lit true) (same x_next i);
  deterministic = true;
}

make_statevar_runs : make_statevar toy (120 ∷ []) SortKind.bool empty ≡ (ok x, with_state)
unfolding make_statevar add_statevar name_term
make_statevar_runs = refl

make_inputvar_runs : make_inputvar toy (105 ∷ []) SortKind.bool with_state ≡ (ok i, declared)
unfolding make_inputvar add_inputvar name_term
make_inputvar_runs = refl

assign_next_runs : assign_next toy x i declared ≡ (ok tt, updated)
unfolding assign_next no_next
assign_next_runs = refl

empty-IsWellFormed : IsWellFormed toy empty
empty-IsWellFormed = record {
  next_of = λ v m. absurd (cc);
  curr_in = λ n v at. absurd (cc);
  plain = λ v m. absurd (cc);
  symbolic = λ v m. absurd (cc);
  next_symbolic = λ n m. absurd (cc);
  named = λ v m. absurd (cc);
}

add_statevar_runs : add_statevar toy x x_next empty ≡ (ok tt, with_state)
unfolding add_statevar name_term
add_statevar_runs = refl

x-ne-next : x ≢ x_next
x-ne-next h = cc

with_state-IsWellFormed : IsWellFormed toy with_state
with_state-IsWellFormed =
    add_statevar-IsWellFormed toy x x_next empty empty-IsWellFormed x-ne-next refl refl
      add_statevar_runs

add_statevar-IsWellFormed_example : IsWellFormed toy with_state
add_statevar-IsWellFormed_example =
    add_statevar-IsWellFormed toy x x_next empty empty-IsWellFormed x-ne-next refl refl
      add_statevar_runs

add_inputvar_runs : add_inputvar toy i with_state ≡ (ok tt, declared)
unfolding add_inputvar name_term
add_inputvar_runs = refl

pub declared-IsWellFormed : IsWellFormed toy declared
declared-IsWellFormed =
    add_inputvar-IsWellFormed toy i with_state with_state-IsWellFormed refl add_inputvar_runs

add_inputvar-IsWellFormed_example : IsWellFormed toy declared
add_inputvar-IsWellFormed_example =
    add_inputvar-IsWellFormed toy i with_state with_state-IsWellFormed refl add_inputvar_runs

abbrev i_next : Toy
i_next = sym (105 ∷ 46 ∷ []) SortKind.bool

abbrev promoted : TransitionSystem Toy
promoted = record declared {
  statevars = x ∷ i ∷ [];
  next_statevars = x_next ∷ i_next ∷ [];
  inputvars = [];
  named_terms =
      (120 ∷ [], x) ∷ (120 ∷ 46 ∷ [], x_next) ∷ (105 ∷ [], i) ∷ (105 ∷ 46 ∷ [], i_next) ∷ [];
  term_to_name =
      (x, 120 ∷ []) ∷ (x_next, 120 ∷ 46 ∷ []) ∷ (i, 105 ∷ []) ∷ (i_next, 105 ∷ 46 ∷ []) ∷ [];
  no_state_updates = x ∷ i ∷ [];
  next_map = (x, x_next) ∷ (i, i_next) ∷ [];
  curr_map = (x_next, x) ∷ (i_next, i) ∷ [];
}

promote_inputvar_runs : promote_inputvar toy i declared ≡ (ok tt, promoted)
unfolding promote_inputvar add_statevar name_term
promote_inputvar_runs = refl

promote_inputvar-IsWellFormed_example :
    IsWellFormed toy promoted × (mem i promoted.statevars ≡ true)
promote_inputvar-IsWellFormed_example =
    promote_inputvar-IsWellFormed toy i declared declared-IsWellFormed (λ h. cc) refl
      promote_inputvar_runs

-- `x ∧ i` has its symbols in the states and inputs
contains-Covered_example :
    (contains toy (conj x i) ((x ∷ []) ∷ (i ∷ []) ∷ []) ≡ true)
    ↔ Covered toy toy_laws ((x ∷ []) ∷ (i ∷ []) ∷ []) (conj x i)
contains-Covered_example = contains-Covered toy toy_laws (conj x i) ((x ∷ []) ∷ (i ∷ []) ∷ [])

contains_runs :
    (contains toy (conj x i) ((x ∷ []) ∷ (i ∷ []) ∷ []) ≡ true)
    × (contains toy (conj x i) ((x ∷ []) ∷ []) ≡ false)
unfolding contains
contains_runs = (refl, refl)

declared-IsBuilt : IsBuilt toy declared
declared-IsBuilt σ = refl

updated-IsBuilt : IsBuilt toy updated
updated-IsBuilt = assign_next-IsBuilt toy toy_laws x i declared declared-IsBuilt assign_next_runs

assign_next-IsBuilt_example : IsBuilt toy updated
assign_next-IsBuilt_example =
    assign_next-IsBuilt toy toy_laws x i declared declared-IsBuilt assign_next_runs

-- with the invariant `x`
abbrev pub constrained : TransitionSystem Toy
constrained = record updated {
  init = conj (lit true) x;
  trans = conj (conj (conj (lit true) (same x_next i)) x) x_next;
  deterministic = false;
  constraints = (x, true) ∷ [];
}

add_invar_runs : add_invar toy x updated ≡ (ok tt, constrained)
unfolding add_invar only_curr
add_invar_runs = refl

constrained-IsBuilt : IsBuilt toy constrained
constrained-IsBuilt = add_invar-IsBuilt toy toy_laws x updated refl updated-IsBuilt add_invar_runs

add_invar-IsBuilt_example : IsBuilt toy constrained
add_invar-IsBuilt_example =
    add_invar-IsBuilt toy toy_laws x updated refl updated-IsBuilt add_invar_runs

add_constraint_runs : add_constraint toy x true updated ≡ (ok tt, constrained)
unfolding add_constraint only_curr
add_constraint_runs = refl

add_constraint-IsBuilt_example : IsBuilt toy constrained
add_constraint-IsBuilt_example =
    add_constraint-IsBuilt toy toy_laws x true updated refl updated-IsBuilt add_constraint_runs

abbrev dropped : TransitionSystem Toy
dropped = record updated { trans = lit true; state_updates = []; no_state_updates = x ∷ [] }

drop_state_updates_runs : drop_state_updates toy (x ∷ []) updated ≡ (ok tt, dropped)
unfolding drop_state_updates
drop_state_updates_runs = refl

-- with a constraint, the loop appends to the vector that it runs over
drop_state_updates_undefined :
    (drop_state_updates toy (x ∷ []) constrained).0 ≡ err Error.undefined_behaviour
unfolding drop_state_updates add_constraint only_curr
drop_state_updates_undefined = refl

drop_state_updates_example :
    (ts' : TransitionSystem Toy) × (drop_state_updates toy (x ∷ []) updated ≡ (ok tt, ts'))
    × IsBuilt toy ts'
    × (ts'.constraints ≡ [])
    × ((v : Toy)
        → lookup v ts'.state_updates
          ≡ (if mem v (x ∷ []) then none else lookup v updated.state_updates))
drop_state_updates_example = drop_state_updates_lem toy toy_laws (x ∷ []) updated refl refl refl

-- rebuilt over the state `x` and the input `i`
abbrev reduced : TransitionSystem Toy
reduced = record constrained {
  init = conj (conj (lit true) x) x;
  trans = conj (conj (conj (lit true) (same x_next i)) x) x_next;
}

rebuild_runs : rebuild_trans_based_on_coi toy (x ∷ []) (i ∷ []) constrained ≡ (ok tt, reduced)
unfolding rebuild_trans_based_on_coi add_constraint only_curr
rebuild_runs = refl

rebuild_trans_example :
    (reduced.constraints ≡ constrained.constraints)
    × ((σ : Model toy)
        → holds toy σ reduced.trans ≡ (
            all
              (update_of_holds toy toy_laws σ constrained.state_updates constrained.next_map)
              (x ∷ [])
            && all
                (constraint_holds toy σ constrained.statevars constrained.next_map)
                constrained.constraints))
rebuild_trans_example =
    rebuild_trans_lem toy toy_laws (x ∷ []) (i ∷ []) constrained refl rebuild_runs

rebuild_trans-le_example : holds toy (λ _. true) reduced.trans ≡ true
rebuild_trans-le_example =
    rebuild_trans-le toy toy_laws (x ∷ []) (i ∷ []) constrained refl constrained-IsBuilt
      rebuild_runs (λ _. true) refl

assign_next-throws_example :
    (((assign_next toy x i declared).0 ≡ ok tt) ↔ (
      (is_assignable toy x i declared
        && (not declared.functional || mem x declared.no_state_updates))
      ≡ true))
    × ((assign_next toy x i declared).1.state_updates ≡ (
        if is_assignable toy x i declared
        then put x i declared.state_updates
        else declared.state_updates))
    × ((assign_next toy x i declared).1
        ≡ (if is_assignable toy x i declared then (assign_next toy x i declared).1 else declared))
    × ((assign_next toy x i declared).0 ≡ (
        if is_assignable toy x i declared
          && declared.functional
          && not (mem x declared.no_state_updates)
        then err Error.assertion_failed
        else (assign_next toy x i declared).0))
assign_next-throws_example = assign_next-throws toy x i declared declared-IsWellFormed

-- a state that is not among those without updates
forgotten_runs :
    (assign_next toy x i (record declared { no_state_updates = [] })).0 ≡ err Error.assertion_failed
unfolding assign_next no_next
forgotten_runs = refl

-- the same symbol as a state variable and as its next-state variable
abbrev looped : TransitionSystem Toy
looped = (add_statevar toy x x empty).1

looped_runs : add_statevar toy x x empty ≡ (ok tt, looped)
unfolding add_statevar name_term
looped_runs = refl

looped_breaks : ¬ (IsWellFormed toy looped)
unfolding add_statevar name_term
looped_breaks wf = absurd (cc (wf.plain x refl))
