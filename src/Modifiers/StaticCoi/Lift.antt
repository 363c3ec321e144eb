-- ===== src/Modifiers/StaticCoi/Lift.antt =====
-- A step of the reduced system, and the step of the whole system that it stands for.
use pono.Base.{
  ◌≡◌, inl, inr, refl, sym, ap, ◌∙◌, arith, Bool, true, false, List, [], ◌∷◌, Eq, ◌==◌, ==_iff,
  ==_refl, mem, lookup, all, All, map, Bool-cases, Option-cases, some, none, Map, if◌then◌else◌,
}
use pono.Smt.{Smt}
use pono.Smt.Laws.{SmtLaws, Model, holds, under}
use pono.Ts.{TransitionSystem}
use pono.Ts.Symbols.Contains.{Covered}
use pono.Ts.Define.Meaning.{IsBuilt, update_holds, constraint_holds}
use pono.Ts.Rebuild.Meaning.{update_of_holds}
use pono.Ts.Vars.WellFormed.{IsWellFormed, is_var}
use pono.Utils.Fcoi.{Coi}
use pono.Utils.Fcoi.Closed.{Collected, IsCone}

module _ {Term : Type 0} ⦃e : Eq Term⦄ (smt : Smt Term) (laws : SmtLaws smt)
    (ts : TransitionSystem Term) where
  open smt use {is_symbolic_const, eval, free_symbols}
  open ts use {statevars, inputvars, next_map, curr_map, state_updates, constraints}

  -- the symbols of a term are states and inputs, as `no_next` tests
  abbrev pub IsPlain : Term → Type 0
  IsPlain = Covered smt laws (statevars ∷ inputvars ∷ [])

  -- what the guards of a functional system's operations establish
  pub record IsFunctional : Type 0 where
    pub vars : IsWellFormed smt ts
    pub renamed : (v n : Term) → lookup v next_map ≡ some n → mem v statevars ≡ true
    pub disjoint : (v : Term) → mem v inputvars ≡ true → mem v statevars ≡ false
    pub plain_init : IsPlain ts.init
    pub updates :
        All
          (λ vu.
            (mem vu.0 statevars ≡ true) × (lookup vu.0 state_updates ≡ some vu.1) × IsPlain vu.1)
          state_updates
    pub plain_constraints : All (λ cb. IsPlain cb.0) constraints

  module _ (c : Coi Term) where
    -- two assignments that agree on the cone
    pub record Agree (σ ρ : Model smt) : Type 0 where
      pub states : (v : Term) → mem v c.statevars_in_coi ≡ true → σ v ≡ ρ v
      pub inputs : (v : Term) → mem v c.inputvars_in_coi ≡ true → σ v ≡ ρ v

    pub eval-Collected :
        (σ ρ : Model smt) (t : Term)
        → Agree σ ρ
        → Collected smt laws ts c t
        → IsPlain t
        → eval σ t ≡ eval ρ t
    eval-Collected σ ρ t a k plain = laws.eval-Agree σ ρ t (λ v f.
        let (state, input) = k v f in
        let known = plain v f in
        elim (Bool-cases (mem v statevars)) [
          | inl s ↦ a.states v (state s)
          | inr n ↦ a.inputs v (input n (ground arith))
        ])

    -- the current values of `ρ`; the next ones of `σ` in the cone, and by the updates outside of it
    unfoldable pub lift : Model smt → Model smt → Model smt
    lift σ ρ w = elim (lookup w curr_map) [
      | none ↦ ρ w
      | some v ↦
          if mem v c.statevars_in_coi
          then σ w
          else elim (lookup v state_updates) [ some u ↦ eval ρ u | none ↦ ρ w ]
    ]

    module _ (fn : IsFunctional) (σ ρ : Model smt) (agree : Agree σ ρ) where
      pub lift-var : (v : Term) → is_var smt ts v ≡ true → lift σ ρ v ≡ ρ v
      unfolding lift
      lift-var v m = elim (Option-cases (lookup v curr_map)) [
        | inl gone ↦ ground arith
        | inr (w, at) ↦ absurd (ground (arith, fn.vars.curr_in v w at, fn.vars.plain v m))
      ]

      pub eval-lift : (t : Term) → IsPlain t → eval (lift σ ρ) t ≡ eval ρ t
      eval-lift t plain =
          laws.eval-Agree (lift σ ρ) ρ t (λ v f. lift-var v (ground (arith, plain v f)))

      module _ {terms : List Term} (cone : IsCone smt laws ts terms c) where
        pub lift-next :
            (v n : Term)
            → mem v c.statevars_in_coi ≡ true
            → lookup v next_map ≡ some n
            → lift σ ρ n ≡ σ n
        unfolding lift
        lift-next v n m at =
            let (n', at', back, _) = fn.vars.next_of v (cone.known_states v m) in
            let same : n' ≡ n = ground arith in
            let here : lookup n curr_map ≡ some v = rw (← same) back in ground arith

        -- the next-state variable of a state outside of the cone
        lift-dropped :
            (v n u : Term)
            → mem v statevars ≡ true
            → mem v c.statevars_in_coi ≡ false
            → lookup v next_map ≡ some n
            → lookup v state_updates ≡ some u
            → lift σ ρ n ≡ eval ρ u
        unfolding lift
        lift-dropped v n u s m at up =
            let (n', at', back, _) = fn.vars.next_of v s in
            let same : n' ≡ n = ground arith in
            let here : lookup n curr_map ≡ some v = rw (← same) back in ground arith

        eval-next :
            (τ : Model smt) (v n : Term)
            → mem v statevars ≡ true
            → lookup v next_map ≡ some n
            → eval τ n ≡ τ n
        eval-next τ v n s at =
            let (n', at', back, known) = fn.vars.next_of v s in
            let same : n' ≡ n = ground arith in
            laws.eval-symbol τ n (rw (← same) (fn.vars.next_symbolic n' known))

        lift-update :
            (v u : Term)
            → mem v statevars ≡ true
            → lookup v state_updates ≡ some u
            → IsPlain u
            → (mem v c.statevars_in_coi ≡ true → update_holds smt σ next_map (v, u) ≡ true)
            → update_holds smt (lift σ ρ) next_map (v, u) ≡ true
        lift-update v u s up plain h =
            let (n, at, _, _) = fn.vars.next_of v s in
            let value : eval (lift σ ρ) n ≡ eval (lift σ ρ) u =
              elim (Bool-cases (mem v c.statevars_in_coi)) [
                | inl m ↦
                    let equal : eval σ n ≡ eval σ u =
                      (laws.holds-equal σ n u).0 (ground (arith, h m)) in
                    eval-next (lift σ ρ) v n s at
                    ∙ lift-next v n m at
                    ∙ sym (eval-next σ v n s at)
                    ∙ equal
                    ∙ eval-Collected σ ρ u agree (cone.updated v u m up) plain
                    ∙ sym (eval-lift u plain)
                | inr m ↦
                    eval-next (lift σ ρ) v n s at
                    ∙ lift-dropped v n u s m at up
                    ∙ sym (eval-lift u plain)
              ] in
            ground (arith, (laws.holds-equal (lift σ ρ) n u).1 value)

        lift-constraint :
            (t : Term) (b : Bool)
            → Collected smt laws ts c t
            → IsPlain t
            → constraint_holds smt σ statevars next_map (t, b) ≡ true
            → constraint_holds smt (lift σ ρ) statevars next_map (t, b) ≡ true
        lift-constraint t b k plain h =
            let now : holds smt (lift σ ρ) t ≡ holds smt σ t =
              ap smt.is_true (eval-lift t plain ∙ sym (eval-Collected σ ρ t agree k plain)) in
            let later : holds smt (under smt next_map (lift σ ρ)) t
                ≡ holds smt (under smt next_map σ) t =
              ap smt.is_true (
                laws.eval-Agree (under smt next_map (lift σ ρ)) (under smt next_map σ) t (λ v f.
                  let (state, input) = k v f in
                  let known = plain v f in
                  elim (Option-cases (lookup v next_map)) [
                    | inl gone ↦ elim (Bool-cases (mem v statevars)) [
                      | inl s ↦ let (n, at, _, _) = fn.vars.next_of v s in absurd (ground arith)
                      | inr n ↦
                          let same = lift-var v (ground (arith)) in
                          ground (arith, same, agree.inputs v (input n (ground arith)))
                    ]
                    | inr (n, at) ↦
                        let s = fn.renamed v n at in
                        let value : eval (lift σ ρ) n ≡ eval σ n =
                          eval-next (lift σ ρ) v n s at
                          ∙ lift-next v n (state s) at
                          ∙ sym (eval-next σ v n s at) in
                        ground arith
                  ])) in
            ground arith

        lift-updates :
            (us : Map Term Term)
            → All
                (λ vu.
                  (mem vu.0 statevars ≡ true)
                  × (lookup vu.0 state_updates ≡ some vu.1)
                  × IsPlain vu.1)
                us
            → ((v u : Term)
                → mem v c.statevars_in_coi ≡ true
                → lookup v state_updates ≡ some u
                → update_holds smt σ next_map (v, u) ≡ true)
            → all (update_holds smt (lift σ ρ) next_map) us ≡ true
        lift-updates [] k h = refl
        lift-updates ((v, u) ∷ us) ((s, up, plain), k) h =
            ground (arith, lift-update v u s up plain (λ m. h v u m up), lift-updates us k h)

        lift-constraints :
            (cs : List (Term × Bool))
            → All (λ cb. IsPlain cb.0) cs
            → ((t : Term) → mem t (map (λ cb. cb.0) cs) ≡ true → Collected smt laws ts c t)
            → all (constraint_holds smt σ statevars next_map) cs ≡ true
            → all (constraint_holds smt (lift σ ρ) statevars next_map) cs ≡ true
        lift-constraints [] k g h = refl
        lift-constraints ((t, b) ∷ cs) (plain, k) g h = ground (
          arith,
          lift-constraint t b (g t (ground (arith, ==_refl t))) plain (ground arith),
          lift-constraints cs k (λ u m. g u (ground arith)) (ground arith),
        )

        update_of_all :
            (vs : List Term) (v u : Term)
            → all (update_of_holds smt laws σ state_updates next_map) vs ≡ true
            → mem v vs ≡ true
            → lookup v state_updates ≡ some u
            → update_holds smt σ next_map (v, u) ≡ true
        update_of_all [] v u h m at = cc
        update_of_all (w ∷ vs) v u h m at = elim (Bool-cases (w == v)) [
          | inl y ↦
              let eq : w ≡ v = (==_iff w v).0 y in
              let this : lookup w state_updates ≡ some u = rw eq at in rw (← eq) (ground arith)
          | inr n ↦ update_of_all vs v u (ground arith) (ground arith) at
        ]

        -- a step of the relation that is reduced to the cone is lifted to one of the whole relation
        pub lift-trans :
            IsBuilt smt ts
            → all (update_of_holds smt laws σ state_updates next_map) c.statevars_in_coi ≡ true
            → all (constraint_holds smt σ statevars next_map) constraints ≡ true
            → holds smt (lift σ ρ) ts.trans ≡ true
        lift-trans built ups cons = rw (built (lift σ ρ)) (
            ground (
              arith,
              lift-updates state_updates fn.updates
                  (λ v u m at. update_of_all c.statevars_in_coi v u ups m at),
              lift-constraints constraints fn.plain_constraints cone.constrained cons,
            ))
