-- ===== src/Modifiers/StaticCoi/Traces.antt =====
-- Executions of the reduced system and of the whole system.
use pono.Base.{
  ℕ, zero, suc, ◌≡◌, inl, inr, refl, ap, sym, ◌∙◌, arith, true, not, ◌||◌, List, [], Eq, mem,
  lookup, Bool-cases, some, none, ok, continue, continue-eq-ok, if◌then◌else◌,
}
use pono.Smt.{Smt}
use pono.Smt.Laws.{SmtLaws, Model, holds}
use pono.Ts.{TransitionSystem}
use pono.Ts.Define.Meaning.{IsBuilt, IsRenaming}
use pono.Ts.Rebuild.{rebuild_trans_based_on_coi}
use pono.Ts.Rebuild.Meaning.{rebuild_trans_lem}
use pono.Ts.Executions.{Execution, Steps, Linked}
use pono.Utils.Fcoi.{Coi, make_coi}
use pono.Utils.Fcoi.Closed.{IsCone, compute_coi-IsCone}
use pono.Modifiers.StaticCoi.{static_coi}
use pono.Modifiers.StaticCoi.Lift.{
  IsFunctional, IsPlain, Agree, eval-Collected, lift, eval-lift, lift-var, lift-next, lift-trans,
}

module _ {Term : Type 0} ⦃e : Eq Term⦄ (smt : Smt Term) (laws : SmtLaws smt)
    (ts : TransitionSystem Term) where
  open smt use {eval}
  open ts use {statevars, inputvars, next_map}

  -- a constructor that returns has computed the cone and rebuilt the relation
  static_coi_lem :
      (to_keep : List Term) {c : Coi Term} {ts' : TransitionSystem Term}
      → static_coi smt to_keep ts ≡ (ok c, ts')
      → IsCone smt laws ts to_keep c
        × (rebuild_trans_based_on_coi smt c.statevars_in_coi c.inputvars_in_coi ts ≡ (ok tt, ts'))
  unfolding static_coi make_coi
  static_coi_lem to_keep {c} {ts'} run = elim (Bool-cases ts.functional) [
    | inr relational ↦ absurd (ground arith)
    | inl functional ↦
        let empty : Coi Term = record {
          statevars_in_coi = [];
          inputvars_in_coi = [];
          coi_visited_terms = [];
        } in
        let (c', found, cone) = compute_coi-IsCone smt laws ts to_keep empty in
        let ran : continue
              (rebuild_trans_based_on_coi smt c'.statevars_in_coi c'.inputvars_in_coi ts)
              (λ _ t. (ok c', t))
            ≡ (ok c, ts') =
          ground arith in
        let (_, mid, rebuilt, last) =
          continue-eq-ok (rebuild_trans_based_on_coi smt c'.statevars_in_coi c'.inputvars_in_coi ts)
            (λ _ t. (ok c', t)) ran in
        let same : c' ≡ c = ground arith in
        let ended : mid ≡ ts' = ap (λ p. p.1) last in rw (← same, ← ended) (cone, rebuilt)
  ]

  module _ (c : Coi Term) (π : ℕ → Model smt) where
    -- the values before step `i`: those of `π`, but for the states outside of the cone, which go on as the
    -- whole system has them
    unfoldable pub current : ℕ → Model smt
    current zero w = π 0 w
    current (suc i) w =
        if mem w c.statevars_in_coi || not (mem w statevars)
        then π (suc i) w
        else elim (lookup w next_map) [
          | some n ↦ lift smt laws ts c (π i) (current i) n
          | none ↦ π (suc i) w
        ]

    abbrev pub lifted : ℕ → Model smt
    lifted i = lift smt laws ts c (π i) (current i)

    module _ {to_keep : List Term} (fn : IsFunctional smt laws ts)
        (cone : IsCone smt laws ts to_keep c) where
      Agree-current : (i : ℕ) → Agree smt laws ts c (π i) (current i)
      unfolding current
      Agree-current zero = record { states = λ v m. refl; inputs = λ v m. refl }
      Agree-current (suc i) = record {
        states = λ v m. ground arith;
        inputs = λ v m. ground (arith, cone.known_inputs v m, fn.disjoint v);
      }

      lifted-kept :
          (i : ℕ) (t : Term)
          → mem t to_keep ≡ true
          → IsPlain smt laws ts t
          → eval (lifted i) t ≡ eval (π i) t
      lifted-kept i t m plain =
          eval-lift smt laws ts c fn (π i) (current i) (Agree-current i) t plain
          ∙ sym (
              eval-Collected smt laws ts c (π i) (current i) t (Agree-current i) (cone.kept t m)
                plain)

      lifted-linked :
          (i : ℕ) (v n : Term)
          → mem v statevars ≡ true
          → lookup v next_map ≡ some n
          → (mem v c.statevars_in_coi ≡ true → π i n ≡ π (suc i) v)
          → lifted i n ≡ lifted (suc i) v
      unfolding current
      lifted-linked i v n s at h =
          let now : lifted (suc i) v ≡ current (suc i) v =
            lift-var smt laws ts c fn (π (suc i)) (current (suc i)) (Agree-current (suc i)) v
              (ground arith) in
          elim (Bool-cases (mem v c.statevars_in_coi)) [
            | inl m ↦
                let next : lifted i n ≡ π i n =
                  lift-next smt laws ts c fn (π i) (current i) (Agree-current i) cone v n m at in
                let there : current (suc i) v ≡ π (suc i) v = ground arith in
                next ∙ h m ∙ sym there ∙ sym now
            | inr m ↦
                let there : current (suc i) v ≡ lifted i n = ground arith in sym there ∙ sym now
          ]

  -- Where the reduction to a cone of influence returns, on a functional system that is as its operations build
  -- it, for terms to keep over states and inputs: to each execution of k steps of the reduced relation from an
  -- initial state, linked on the states of the cone, there is one of the whole system from an initial state,
  -- linked on all states, with the same value of each term to keep at each time.
  pub static_coi-Steps :
      (to_keep : List Term) {c : Coi Term} {ts' : TransitionSystem Term}
      → IsFunctional smt laws ts
      → IsRenaming smt next_map
      → IsBuilt smt ts
      → ((t : Term) → mem t to_keep ≡ true → IsPlain smt laws ts t)
      → static_coi smt to_keep ts ≡ (ok c, ts')
      → (k : ℕ) (π : ℕ → Model smt) → holds smt (π 0) ts.init ≡ true
      → Steps smt ts'.trans k π
      → Linked smt ts c.statevars_in_coi k π
      → (τ : ℕ → Model smt) × Execution smt ts k τ
        × ((i : ℕ) (t : Term) → mem t to_keep ≡ true → eval (τ i) t ≡ eval (π i) t)
  unfolding current
  static_coi-Steps to_keep {c} {ts'} fn r built plain run k π start steps linked =
      let (cone, rebuilt) = static_coi_lem to_keep {c = c} {ts' = ts'} run in
      let means =
        (rebuild_trans_lem smt laws c.statevars_in_coi c.inputvars_in_coi ts {ts' = ts'} r
          rebuilt).1 in
      (
        lifted c π,
        record {
          starts =
              ap smt.is_true (
                eval-lift smt laws ts c fn (π 0) (current c π 0) (Agree-current c π fn cone 0)
                  ts.init fn.plain_init)
              ∙ start;
          steps = λ i lt.
              let step = steps i lt in
              let parts = means (π i) in
              lift-trans smt laws ts c fn (π i) (current c π i) (Agree-current c π fn cone i) cone
                built (ground arith) (ground arith);
          linked =
              λ i lt v n s at. lifted-linked c π fn cone i v n s at (λ m. linked i lt v n m at);
        },
        λ i t m. lifted-kept c π fn cone i t m (plain t m),
      )
