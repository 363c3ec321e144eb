-- ===== src/Ts/Rebuild/Meaning.antt =====
-- What the transition relation says after it is built again.
use pono.Base.{
  ◌≡◌, refl, sym, arith, Bool, true, ◌&&◌, List, [], ◌∷◌, ◌++◌, some, none, Eq, lookup, all, Map,
  ok, Result, Option-cases, inl, inr, ap, subst, continue-eq-ok, ◌==◌, ==_iff, ◌∙◌, append_assoc,
  append-nil, Bool-cases,
}
use pono.Smt.{Smt}
use pono.Smt.Laws.{SmtLaws, Model, holds}
use pono.Ts.{TransitionSystem}
use pono.Ts.Define.{add_constraint}
use pono.Ts.Define.Meaning.{
  IsRenaming, update_holds, constraint_holds, IsBuilt, SameVars, add_constraint-trans,
  add_constraint-vars,
}
use pono.Ts.Rebuild.{
  add_update, add_updates, add_updates_of, add_constraints, restrict_to_coi,
  rebuild_trans_based_on_coi,
}

module _ {Term : Type 0} ⦃e : Eq Term⦄ (smt : Smt Term) (laws : SmtLaws smt) where
  open smt use {is_symbolic_const, make_equal, make_and, make_bool}

  -- the loop over the constraints adds each, once, to the relation and to the record
  pub add_constraints_lem :
      (cs : List (Term × Bool)) (ts : TransitionSystem Term) {ts' : TransitionSystem Term}
      → IsRenaming smt ts.next_map
      → add_constraints smt cs ts ≡ (ok tt, ts')
      → SameVars smt ts ts'
        × (ts'.constraints ≡ ts.constraints ++ cs)
        × ((σ : Model smt)
            → holds smt σ ts'.trans
              ≡ (holds smt σ ts.trans && all (constraint_holds smt σ ts.statevars ts.next_map) cs))
  unfolding add_constraints
  add_constraints_lem [] ts {ts'} r h =
      let same : ts ≡ ts' = ap (λ p. p.1) h in
      rw (← same) (
        record { states = refl; inputs = refl; nexts = refl; updates = refl },
        sym (append-nil _),
        λ σ. ground arith,
      )
  add_constraints_lem ((c, b) ∷ cs) ts {ts'} r h =
      let (u, mid, first, rest) =
        continue-eq-ok (add_constraint smt c b ts) (λ _. add_constraints smt cs) h in
      let (vars, grown) = add_constraint-vars smt laws c b ts {ts' = mid} (first) in
      let means = add_constraint-trans smt laws c b ts {ts' = mid} r first in
      let (vars', grown', means') = add_constraints_lem cs mid (rw vars.nexts r) rest in
      (
        record {
          states = vars'.states ∙ vars.states;
          inputs = vars'.inputs ∙ vars.inputs;
          nexts = vars'.nexts ∙ vars.nexts;
          updates = vars'.updates ∙ vars.updates;
        },
        rw (grown', grown) (append_assoc ts.constraints ((c, b) ∷ []) cs),
        λ σ. rw (means' σ, means σ, vars.states, vars.nexts) (ground arith),
      )

  add_update_lem :
      (sv u : Term) (ts : TransitionSystem Term) {ts' : TransitionSystem Term}
      → add_update smt sv u ts ≡ (ok tt, ts')
      → SameVars smt ts ts'
        × (ts'.constraints ≡ ts.constraints)
        × ((σ : Model smt)
            → holds smt σ ts'.trans
              ≡ (holds smt σ ts.trans && update_holds smt σ ts.next_map (sv, u)))
  unfolding add_update
  add_update_lem sv u ts h = elim (Option-cases (lookup sv ts.next_map)) [
    | inl gone ↦ absurd (ground arith)
    | inr (nv, at) ↦ (
      ground arith,
      ground arith,
      λ σ. ground (arith, laws.holds-and σ ts.trans (make_equal nv u)),
    )
  ]

  SameVars-trans :
      {a b c : TransitionSystem Term} → SameVars smt a b → SameVars smt b c → SameVars smt a c
  SameVars-trans h k = record {
    states = k.states ∙ h.states;
    inputs = k.inputs ∙ h.inputs;
    nexts = k.nexts ∙ h.nexts;
    updates = k.updates ∙ h.updates;
  }

  pub add_updates_lem :
      (us : Map Term Term) (ts : TransitionSystem Term) {ts' : TransitionSystem Term}
      → add_updates smt us ts ≡ (ok tt, ts')
      → SameVars smt ts ts'
        × (ts'.constraints ≡ ts.constraints)
        × ((σ : Model smt)
            → holds smt σ ts'.trans
              ≡ (holds smt σ ts.trans && all (update_holds smt σ ts.next_map) us))
  unfolding add_updates
  add_updates_lem [] ts {ts'} h =
      let same : ts ≡ ts' = ap (λ p. p.1) h in
      rw (← same) (
        record { states = refl; inputs = refl; nexts = refl; updates = refl },
        refl,
        λ σ. ground arith,
      )
  add_updates_lem ((sv, u) ∷ us) ts {ts'} h =
      let (_, mid, first, rest) =
        continue-eq-ok (add_update smt sv u ts) (λ _. add_updates smt us) h in
      let (vars, kept, means) = add_update_lem sv u ts {ts' = mid} first in
      let (vars', kept', means') = add_updates_lem us mid rest in
      (
        SameVars-trans vars vars',
        kept' ∙ kept,
        λ σ. rw (means' σ, means σ, vars.nexts) (ground arith),
      )

  -- the update of one state of the cone of influence
  abbrev pub update_of_holds : Model smt → Map Term Term → Map Term Term → Term → Bool
  update_of_holds σ updates nexts v = elim (lookup v updates) [
    | some u ↦ update_holds smt σ nexts (v, u)
    | none ↦ true
  ]

  abbrev one_update : Term → TransitionSystem Term → Result (Unit {0}) × TransitionSystem Term
  one_update v ts = elim (lookup v ts.state_updates) [
    | some u ↦ add_update smt v u ts
    | none ↦ (ok tt, ts)
  ]

  one_update_lem :
      (v : Term) (ts : TransitionSystem Term) {ts' : TransitionSystem Term}
      → one_update v ts ≡ (ok tt, ts')
      → SameVars smt ts ts'
        × (ts'.constraints ≡ ts.constraints)
        × ((σ : Model smt)
            → holds smt σ ts'.trans
              ≡ (holds smt σ ts.trans && update_of_holds σ ts.state_updates ts.next_map v))
  one_update_lem v ts {ts'} h = elim (Option-cases (lookup v ts.state_updates)) [
    | inl gone ↦ (ground arith, ground arith, λ σ. ground arith)
    | inr (u, at) ↦
        let (vars, kept, means) = add_update_lem v u ts {ts' = ts'} (ground arith) in
        (vars, kept, λ σ. ground (arith, means σ))
  ]

  add_updates_of_lem :
      (vs : List Term) (ts : TransitionSystem Term) {ts' : TransitionSystem Term}
      → add_updates_of smt vs ts ≡ (ok tt, ts')
      → SameVars smt ts ts'
        × (ts'.constraints ≡ ts.constraints)
        × ((σ : Model smt)
            → holds smt σ ts'.trans
              ≡ (holds smt σ ts.trans && all (update_of_holds σ ts.state_updates ts.next_map) vs))
  unfolding add_updates_of
  add_updates_of_lem [] ts {ts'} h =
      let same : ts ≡ ts' = ap (λ p. p.1) h in
      rw (← same) (
        record { states = refl; inputs = refl; nexts = refl; updates = refl },
        refl,
        λ σ. ground arith,
      )
  add_updates_of_lem (v ∷ vs) ts {ts'} h =
      let (_, mid, first, rest) = continue-eq-ok (one_update v ts) (λ _. add_updates_of smt vs) h in
      let (vars, kept, means) = one_update_lem v ts {ts' = mid} first in
      let (vars', kept', means') = add_updates_of_lem vs mid rest in
      (
        SameVars-trans vars vars',
        kept' ∙ kept,
        λ σ. rw (means' σ, means σ, vars.nexts, vars.updates) (ground arith),
      )

  restrict_to_coi_lem :
      (states inputs : List Term) (ts : TransitionSystem Term) {ts' : TransitionSystem Term}
      → restrict_to_coi smt states inputs ts ≡ (ok tt, ts')
      → (ts'.trans ≡ ts.trans) × (ts'.constraints ≡ ts.constraints)
  unfolding restrict_to_coi
  restrict_to_coi_lem states inputs ts h = ground arith

  coi_rebuilt :
      (states inputs : List Term) (ts ts1 ts2 ts' : TransitionSystem Term)
      → IsRenaming smt ts.next_map
      → add_updates_of smt states (record ts { trans = make_bool true }) ≡ (ok tt, ts1)
      → add_constraints smt ts1.constraints (record ts1 { constraints = [] }) ≡ (ok tt, ts2)
      → restrict_to_coi smt states inputs ts2 ≡ (ok tt, ts')
      → (ts'.constraints ≡ ts.constraints)
        × ((σ : Model smt)
            → holds smt σ ts'.trans ≡ (
                all (update_of_holds σ ts.state_updates ts.next_map) states
                && all (constraint_holds smt σ ts.statevars ts.next_map) ts.constraints))
  coi_rebuilt states inputs ts ts1 ts2 ts' r updated constrained restricted =
      let (vars, kept, means) =
        add_updates_of_lem states (record ts { trans = make_bool true }) {ts' = ts1} updated in
      let (vars', grown, means') =
        add_constraints_lem ts1.constraints (record ts1 { constraints = [] }) {ts' = ts2}
          (subst (IsRenaming smt) (sym vars.nexts) r) constrained in
      let (trans, cs) = restrict_to_coi_lem states inputs ts2 {ts' = ts'} restricted in
      (
        cs ∙ grown ∙ kept,
        λ σ.
            rw (trans, means' σ, means σ, laws.holds-bool σ true, vars.states, vars.nexts, kept)
              (ground arith),
      )

  -- `rebuild_trans_based_on_coi`, when it returns: the relation is the conjunction of the updates of
  -- the given states and of all the constraints, which are recorded as before.
  pub rebuild_trans_lem :
      (states inputs : List Term) (ts : TransitionSystem Term) {ts' : TransitionSystem Term}
      → IsRenaming smt ts.next_map
      → rebuild_trans_based_on_coi smt states inputs ts ≡ (ok tt, ts')
      → (ts'.constraints ≡ ts.constraints)
        × ((σ : Model smt)
            → holds smt σ ts'.trans ≡ (
                all (update_of_holds σ ts.state_updates ts.next_map) states
                && all (constraint_holds smt σ ts.statevars ts.next_map) ts.constraints))
  unfolding rebuild_trans_based_on_coi
  rebuild_trans_lem states inputs ts {ts'} r h =
      let (_, ts1, updated, h1) =
        continue-eq-ok (add_updates_of smt states (record ts { trans = make_bool true })) _ h in
      let (_, ts2, constrained, h2) =
        continue-eq-ok (add_constraints smt ts1.constraints (record ts1 { constraints = [] })) _
          h1 in
      coi_rebuilt states inputs ts ts1 ts2 ts' r updated constrained h2

  all_of_lookup :
      (σ : Model smt) (nexts us : Map Term Term) (v u : Term)
      → all (update_holds smt σ nexts) us ≡ true
      → lookup v us ≡ some u
      → update_holds smt σ nexts (v, u) ≡ true
  all_of_lookup σ nexts [] v u h k = absurd (cc)
  all_of_lookup σ nexts ((j, w) ∷ us) v u h k = elim (Bool-cases (j == v)) [
    | inl y ↦
        let eq : j ≡ v = (==_iff j v).0 y in
        let same : w ≡ u = ground arith in rw (← eq, ← same) (ground arith)
    | inr n ↦ all_of_lookup σ nexts us v u (ground arith) (ground arith)
  ]

  updates_of_all :
      (σ : Model smt) (nexts us : Map Term Term) (vs : List Term)
      → all (update_holds smt σ nexts) us ≡ true
      → all (update_of_holds σ us nexts) vs ≡ true
  updates_of_all σ nexts us [] h = refl
  updates_of_all σ nexts us (v ∷ vs) h = elim (Option-cases (lookup v us)) [
    | inl gone ↦ ground (arith, updates_of_all σ nexts us vs h)
    | inr (u, at) ↦
        ground (arith, updates_of_all σ nexts us vs h, all_of_lookup σ nexts us v u h at)
  ]

  -- When `rebuild_trans_based_on_coi` returns, on a system whose renaming has symbols for keys and whose
  -- transition relation is the one that the recorded updates and constraints describe: each step of the relation
  -- before is a step of the rebuilt one.
  pub rebuild_trans-le :
      (states inputs : List Term) (ts : TransitionSystem Term) {ts' : TransitionSystem Term}
      → IsRenaming smt ts.next_map
      → IsBuilt smt ts
      → rebuild_trans_based_on_coi smt states inputs ts ≡ (ok tt, ts')
      → (σ : Model smt) → holds smt σ ts.trans ≡ true
      → holds smt σ ts'.trans ≡ true
  rebuild_trans-le states inputs ts {ts'} r built h σ step =
      let means = (rebuild_trans_lem states inputs ts {ts' = ts'} r h).1 σ in
      let described = built σ in
      rw means (ground (arith, updates_of_all σ ts.next_map ts.state_updates states))
