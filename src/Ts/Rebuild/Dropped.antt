-- ===== src/Ts/Rebuild/Dropped.antt =====
-- `drop_state_updates` of core/ts.cpp on a system without constraints.
use pono.Base.{
  ◌≡◌, refl, arith, Bool, true, continue, false, List, [], ◌∷◌, none, Eq, lookup, all, Map,
  if◌then◌else◌, ok, Option-cases, inl, inr, ap, delete, mem, insert, lookup-delete, has_key, ◌∙◌,
}
use pono.Smt.{Smt}
use pono.Smt.Laws.{SmtLaws}
use pono.Ts.{TransitionSystem}
use pono.Ts.Define.Meaning.{IsBuilt}
use pono.Ts.Rebuild.{add_update, add_updates, add_own_constraints, drop_each, drop_state_updates}
use pono.Ts.Rebuild.Meaning.{add_updates_lem}

module _ {Term : Type 0} ⦃e : Eq Term⦄ where
  lookup-has_key : (k : Term) (m : Map Term Term) → lookup k m ≡ none → has_key k m ≡ false
  lookup-has_key k [] h = refl
  lookup-has_key k ((j, w) ∷ m) h = ground (arith, lookup-has_key k m)

  all-delete :
      (p : Term × Term → Bool) (k : Term) (m : Map Term Term)
      → all p m ≡ true
      → all p (delete k m) ≡ true
  all-delete p k [] h = refl
  all-delete p k ((j, w) ∷ m) h = ground (arith, all-delete p k m)

module _ {Term : Type 0} ⦃e : Eq Term⦄ (smt : Smt Term) where
  -- every updated state has a next-state variable
  abbrev pub IsLinked : TransitionSystem Term → Type 0
  IsLinked ts = all (λ kv. has_key kv.0 ts.next_map) ts.state_updates ≡ true

  drop_each_lem :
      (svs : List Term) (ts : TransitionSystem Term)
      → all (λ v. mem v ts.statevars) svs ≡ true
      → IsLinked ts
      → (ts' : TransitionSystem Term) × (drop_each smt svs ts ≡ (ok tt, ts'))
        × (ts'.constraints ≡ ts.constraints)
        × IsLinked ts'
        × ((v : Term)
            → lookup v ts'.state_updates ≡ (if mem v svs then none else lookup v ts.state_updates))
  unfolding drop_each
  drop_each_lem [] ts states linked = (ts, refl, refl, linked, λ v. refl)
  drop_each_lem (sv ∷ svs) ts states linked =
      let mid = record ts {
        state_updates = delete sv ts.state_updates;
        no_state_updates = insert sv ts.no_state_updates;
      } in
      let known : mem sv ts.statevars ≡ true = ground arith in
      let (ts', run, cs, linked', rest) =
        drop_each_lem svs mid (ground arith)
          (all-delete (λ kv. has_key kv.0 ts.next_map) sv ts.state_updates linked) in
      (
        ts',
        rw known run,
        cs,
        linked',
        λ v. ground (arith, rest v, lookup-delete sv v ts.state_updates),
      )

  add_updates-ok :
      (us : Map Term Term) (ts : TransitionSystem Term)
      → all (λ kv. has_key kv.0 ts.next_map) us ≡ true
      → (ts' : TransitionSystem Term) × (add_updates smt us ts ≡ (ok tt, ts'))
  unfolding add_updates add_update
  add_updates-ok [] ts linked = (ts, refl)
  add_updates-ok ((sv, u) ∷ us) ts linked = elim (Option-cases (lookup sv ts.next_map)) [
    | inl gone ↦ absurd (ground (arith, lookup-has_key sv ts.next_map gone))
    | inr (nv, at) ↦
        let mid = record ts { trans = smt.make_and ts.trans (smt.make_equal nv u) } in
        let (ts', run) = add_updates-ok us mid (ground arith) in
        let first : add_update smt sv u ts ≡ (ok tt, mid) = ground arith in
        (ts', ap (λ r. continue r (λ _. add_updates smt us)) first ∙ run)
  ]

module _ {Term : Type 0} ⦃e : Eq Term⦄ (smt : Smt Term) (laws : SmtLaws smt) where
  -- On a system without constraints in which every updated state has a next-state variable,
  -- `drop_state_updates` of state variables returns: the named states have no update and the others keep
  -- theirs, there is still no constraint, and the transition relation is the one that the updates describe.
  pub drop_state_updates_lem :
      (svs : List Term) (ts : TransitionSystem Term)
      → ts.constraints ≡ []
      → all (λ v. mem v ts.statevars) svs ≡ true
      → IsLinked smt ts
      → (ts' : TransitionSystem Term) × (drop_state_updates smt svs ts ≡ (ok tt, ts'))
        × IsBuilt smt ts'
        × (ts'.constraints ≡ [])
        × ((v : Term)
            → lookup v ts'.state_updates ≡ (if mem v svs then none else lookup v ts.state_updates))
  unfolding drop_state_updates add_own_constraints
  drop_state_updates_lem svs ts free states linked =
      let (ts1, dropped, cs, linked1, updates) = drop_each_lem smt svs ts states linked in
      let start = record ts1 { trans = smt.make_bool true } in
      let (ts2, updated) = add_updates-ok smt ts1.state_updates start linked1 in
      let (vars, kept, means) =
        add_updates_lem smt laws ts1.state_updates start {ts' = ts2} updated in
      let none_left : ts2.constraints ≡ [] = kept ∙ cs ∙ free in
      (
        ts2,
        rw dropped (rw updated (rw none_left refl)),
        λ σ.
            rw (means σ, laws.holds-bool σ true, vars.updates, vars.nexts, none_left)
              (ground arith),
        none_left,
        λ v. ap (lookup v) vars.updates ∙ updates v,
      )
