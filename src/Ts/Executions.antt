-- ===== src/Ts/Executions.antt =====
-- Executions of a transition system: sequences of assignments, in which the values of the next-state variables
-- are those of the state variables in the assignment after.
use pono.Base.{
  ℕ, suc, ◌<◌, ◌≡◌, inl, inr, sym, ◌∙◌, arith, true, List, [], ◌∷◌, Eq, mem, lookup, Option-cases,
  some,
}
use pono.Smt.{Smt}
use pono.Smt.Laws.{SmtLaws, Model, holds, under}
use pono.Ts.{TransitionSystem}
use pono.Ts.Symbols.{only_curr, next}
use pono.Ts.Symbols.Contains.{contains-Covered}
use pono.Ts.Define.Meaning.{IsRenaming}
use pono.Ts.Vars.WellFormed.{IsWellFormed}

module _ {Term : Type 0} ⦃e : Eq Term⦄ (smt : Smt Term) where
  -- the next-state values of the states in a list are their values in the next assignment
  abbrev pub Linked : TransitionSystem Term → List Term → ℕ → (ℕ → Model smt) → Type 0
  Linked ts vs k π =
      (i : ℕ)
      → i < k
      → (v n : Term) → mem v vs ≡ true
      → lookup v ts.next_map ≡ some n
      → π i n ≡ π (suc i) v

  abbrev pub Steps : Term → ℕ → (ℕ → Model smt) → Type 0
  Steps trans k π = (i : ℕ) → i < k → holds smt (π i) trans ≡ true

  -- `k` steps of the system from an initial state
  pub record Execution (ts : TransitionSystem Term) (k : ℕ) (π : ℕ → Model smt) : Type 0 where
    pub starts : holds smt (π 0) ts.init ≡ true
    pub steps : Steps ts.trans k π
    pub linked : Linked ts ts.statevars k π

  -- what declarations establish of a system's variables and its renaming
  pub record IsDeclared (ts : TransitionSystem Term) : Type 0 where
    pub vars : IsWellFormed smt ts
    pub renamed : (v n : Term) → lookup v ts.next_map ≡ some n → mem v ts.statevars ≡ true
    pub renaming : IsRenaming smt ts.next_map

module _ {Term : Type 0} ⦃e : Eq Term⦄ (smt : Smt Term) (laws : SmtLaws smt)
    (ts : TransitionSystem Term) (d : IsDeclared smt ts) where
  open smt use {eval, substitute}

  pub eval-next_var : (σ : Model smt) (v n : Term) → lookup v ts.next_map ≡ some n → eval σ n ≡ σ n
  eval-next_var σ v n at =
      let (n', at', back, known) = d.vars.next_of v (d.renamed v n at) in
      let same : n' ≡ n = ground arith in
      laws.eval-symbol σ n (rw (← same) (d.vars.next_symbolic n' known))

  pub eval-state_var : (σ : Model smt) (v : Term) → mem v ts.statevars ≡ true → eval σ v ≡ σ v
  eval-state_var σ v m = laws.eval-symbol σ v (d.vars.symbolic v (ground arith))

  -- the next-state version of a term over states, in two assignments that are linked
  pub eval-next :
      (σ ρ : Model smt) (t : Term)
      → ((v n : Term) → mem v ts.statevars ≡ true → lookup v ts.next_map ≡ some n → σ n ≡ ρ v)
      → only_curr smt ts t ≡ true
      → eval σ (next smt ts t) ≡ eval ρ t
  unfolding next only_curr
  eval-next σ ρ t linked curr = elim (Option-cases (lookup t ts.next_map)) [
    | inr (n, at) ↦
        let m = d.renamed t n at in
        let here : eval σ n ≡ eval ρ t =
          eval-next_var σ t n at ∙ linked t n m at ∙ sym (eval-state_var ρ t m) in
        ground arith
    | inl gone ↦
        let there : eval σ (substitute t ts.next_map) ≡ eval ρ t =
          laws.eval-substitute σ t ts.next_map d.renaming
          ∙ laws.eval-Agree (under smt ts.next_map σ) ρ t (λ v f.
            let known : mem v ts.statevars ≡ true =
              ground (arith, (contains-Covered smt laws t (ts.statevars ∷ [])).0 curr v f) in
            let (n, at, _, _) = d.vars.next_of v known in
            let value : eval σ n ≡ ρ v = eval-next_var σ v n at ∙ linked v n known at in
            ground arith) in
        ground arith
  ]
