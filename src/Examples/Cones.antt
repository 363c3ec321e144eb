-- ===== src/Examples/Cones.antt =====
-- A functional system with the states `x` and `y`, an input `i` and the updates `x := i` and `y := x`, reduced to
-- the cone of influence of `x`.
use pono.Base.{ℕ, ◌≡◌, refl, arith, true, [], ◌∷◌, ok, mem, ◌==◌, Bool-cases, inl, inr}
use pono.Smt.{SortKind}
use pono.Smt.Laws.{Model}
use pono.Ts.{TransitionSystem}
use pono.Ts.Define.Meaning.{IsBuilt}
use pono.Ts.Symbols.{contains}
use pono.Ts.Symbols.Contains.{contains-Covered}
use pono.Ts.Vars.{add_statevar, name_term}
use pono.Ts.Vars.WellFormed.{IsWellFormed, add_statevar-IsWellFormed}
use pono.Ts.Executions.{Execution}
use pono.Utils.Fcoi.{Coi, compute_coi}
use pono.Utils.Fcoi.Closed.{IsCone, compute_coi-IsCone}
use pono.Modifiers.StaticCoi.{static_coi}
use pono.Modifiers.StaticCoi.Lift.{IsFunctional, IsPlain}
use pono.Modifiers.StaticCoi.Traces.{static_coi-Steps}
use pono.Examples.Toy.{Toy, sym, lit, conj, same, toy, toy_laws, toy_eq, toy_beq_iff}
use pono.Examples.Systems.{x, x_next, i, declared, declared-IsWellFormed}

abbrev y : Toy
y = sym (121 ∷ []) SortKind.bool

abbrev y_next : Toy
y_next = sym (121 ∷ 46 ∷ []) SortKind.bool

abbrev with_y : TransitionSystem Toy
with_y = record declared {
  statevars = x ∷ y ∷ [];
  next_statevars = x_next ∷ y_next ∷ [];
  named_terms =
      (120 ∷ [], x)
      ∷ (120 ∷ 46 ∷ [], x_next)
      ∷ (105 ∷ [], i)
      ∷ (121 ∷ [], y)
      ∷ (121 ∷ 46 ∷ [], y_next)
      ∷ [];
  term_to_name =
      (x, 120 ∷ [])
      ∷ (x_next, 120 ∷ 46 ∷ [])
      ∷ (i, 105 ∷ [])
      ∷ (y, 121 ∷ [])
      ∷ (y_next, 121 ∷ 46 ∷ [])
      ∷ [];
  no_state_updates = x ∷ y ∷ [];
  next_map = (x, x_next) ∷ (y, y_next) ∷ [];
  curr_map = (x_next, x) ∷ (y_next, y) ∷ [];
}

add_y : add_statevar toy y y_next declared ≡ (ok tt, with_y)
unfolding add_statevar name_term
add_y = refl

with_y-IsWellFormed : IsWellFormed toy with_y
with_y-IsWellFormed =
    add_statevar-IsWellFormed toy y y_next declared declared-IsWellFormed (λ h. cc) refl refl add_y

abbrev two : TransitionSystem Toy
two = record with_y {
  trans = conj (conj (lit true) (same x_next i)) (same y_next x);
  state_updates = (x, i) ∷ (y, x) ∷ [];
  no_state_updates = [];
}

two-IsWellFormed : IsWellFormed toy two
two-IsWellFormed = record {
  next_of = with_y-IsWellFormed.next_of;
  curr_in = with_y-IsWellFormed.curr_in;
  plain = with_y-IsWellFormed.plain;
  symbolic = with_y-IsWellFormed.symbolic;
  next_symbolic = with_y-IsWellFormed.next_symbolic;
  named = with_y-IsWellFormed.named;
}

two-IsBuilt : IsBuilt toy two
two-IsBuilt σ = ground arith

covered :
    (t : Toy) → contains toy t ((x ∷ y ∷ []) ∷ (i ∷ []) ∷ []) ≡ true → IsPlain toy toy_laws two t
covered t h = (contains-Covered toy toy_laws t ((x ∷ y ∷ []) ∷ (i ∷ []) ∷ [])).0 h

two-IsFunctional : IsFunctional toy toy_laws two
unfolding contains
two-IsFunctional = record {
  vars = two-IsWellFormed;
  renamed = λ v n at. elim (Bool-cases (x == v)) [
    | inl a ↦ ground arith
    | inr a ↦ elim (Bool-cases (y == v)) [ inl b ↦ ground arith | inr b ↦ absurd (ground arith) ]
  ];
  disjoint = λ v m. let eq : i ≡ v = (toy_beq_iff i v).0 (ground arith) in rw (← eq) refl;
  plain_init = covered (lit true) refl;
  updates = ((refl, refl, covered i refl), ((refl, refl, covered x refl), tt));
  plain_constraints = tt;
}

abbrev cone : Coi Toy
cone = record {
  statevars_in_coi = x ∷ [];
  inputvars_in_coi = i ∷ [];
  coi_visited_terms = x ∷ i ∷ [];
}

abbrev reduced : TransitionSystem Toy
reduced = record two {
  trans = conj (lit true) (same x_next i);
  statevars = x ∷ [];
  state_updates = (x, i) ∷ [];
  named_terms = (120 ∷ [], x) ∷ (120 ∷ 46 ∷ [], x_next) ∷ (105 ∷ [], i) ∷ [];
  term_to_name = (x, 120 ∷ []) ∷ (x_next, 120 ∷ 46 ∷ []) ∷ (i, 105 ∷ []) ∷ [];
}

static_coi_runs : static_coi toy (x ∷ []) two ≡ (ok cone, reduced)
unfolding static_coi pono.Utils.Fcoi.make_coi compute_coi pono.Ts.Rebuild.rebuild_trans_based_on_coi
static_coi_runs = refl

-- what the class held before is cleared
compute_coi-IsCone_example :
    (c : Coi Toy) × (compute_coi toy two (x ∷ []) cone ≡ ok c) × IsCone toy toy_laws two (x ∷ []) c
compute_coi-IsCone_example = compute_coi-IsCone toy toy_laws two (x ∷ []) cone

abbrev high : ℕ → Model toy
high t v = true

kept-IsPlain : (u : Toy) → mem u (x ∷ []) ≡ true → IsPlain toy toy_laws two u
unfolding contains
kept-IsPlain u m = let eq : x ≡ u = (toy_beq_iff x u).0 (ground arith) in rw (← eq) (covered x refl)

static_coi-Steps_example :
    (τ : ℕ → Model toy) × Execution toy two 2 τ
    × ((t : ℕ) (u : Toy) → mem u (x ∷ []) ≡ true → toy.eval (τ t) u ≡ toy.eval (high t) u)
static_coi-Steps_example =
    static_coi-Steps toy toy_laws two (x ∷ []) {c = cone} {ts' = reduced} two-IsFunctional refl
      two-IsBuilt kept-IsPlain static_coi_runs 2 high refl (λ t lt. refl) (λ t lt v n m at. refl)
