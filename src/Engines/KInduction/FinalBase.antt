-- ===== src/Engines/KInduction/FinalBase.antt =====
-- `final_base_case_check` of engines/kinduction.cpp where the transition relation may be partial.
use pono.Base.{
  ℕ, zero, suc, ◌≤◌, ◌<◌, ◌≡◌, ◌⊎◌, inl, inr, refl, sym, subst, ◌∙◌, ap, arith, Bool, true, false,
  [], ◌∷◌, Eq, Bool-cases, dec_lt, ok,
}
use pono.Smt.{Smt}
use pono.Smt.Laws.{SmtLaws, Model, holds}
use pono.Smt.Solver.{Solver, SolverLaws, Satisfies, Answer, sat, unsat, unknown, add_top}
use pono.Engines.Problem.{Problem, Unrolling, Trace, Cex}
use pono.Engines.KInduction.{
  KindOptions, KindSystem, nest_bad, is_trans_total, final_base_case_check,
}

module _ {Term : Type 0} ⦃e : Eq Term⦄ (smt : Smt Term) (laws : SmtLaws smt) (solver : Solver Term)
    (rules : SolverLaws smt solver) (opt : KindOptions) (p : Problem Term) (ts : KindSystem Term)
    (un : Unrolling smt p) where
  open smt use {make_and, make_or}
  open solver use {State, assert_formula, reset_assertions, frames, check_sat_assuming}
  open p use {init, trans, bad, at_time}

  abbrev trans_in : Model smt → ℕ → Bool
  trans_in σ j = holds smt σ (at_time trans j)

  -- a path over the first `n` transitions, from any state
  abbrev Runs : Model smt → ℕ → Type 0
  Runs σ n = (j : ℕ) → j < n → trans_in σ j ≡ true

  -- a bad state at the end of a path of `m` transitions
  abbrev BadAfter : Model smt → ℕ → Type 0
  BadAfter σ m = Runs σ m × (holds smt σ (at_time bad m) ≡ true)

  Runs-suc : (σ : Model smt) (n : ℕ) → Runs σ n → trans_in σ n ≡ true → Runs σ (suc n)
  Runs-suc σ n runs h j lt = elim (dec_lt j n) [
    | yes below ↦ runs j below
    | no last ↦ let eq : n ≡ j = omega arith in subst (λ i. trans_in σ i ≡ true) eq h
  ]

  holds-nest_bad :
      (σ : Model smt) (n : ℕ) (q : Term)
      → holds smt σ (nest_bad smt solver opt p ts n q) ≡ true
      → ((m : ℕ) × (m < n) × BadAfter σ m) ⊎ (Runs σ n × (holds smt σ q ≡ true))
  unfolding nest_bad
  holds-nest_bad σ zero q h = inr ((λ j lt. absurd (omega arith)), h)
  holds-nest_bad σ (suc i) q h = elim (holds-nest_bad σ i _ h) [
    | inl (m, lt, b) ↦ inl (m, omega arith, b)
    | inr (runs, either) ↦ elim (Bool-cases (holds smt σ (at_time bad i))) [
      | inl b ↦ inl (i, omega arith, (runs, b))
      | inr no_bad ↦
          let step : (trans_in σ i ≡ true) × (holds smt σ q ≡ true) = ground (
            arith,
            laws.holds-or σ (at_time bad i) (make_and (at_time trans i) q),
            laws.holds-and σ (at_time trans i) q,
          ) in
          inr (Runs-suc σ i runs step.0, step.1)
    ]
  ]

  nest_bad-holds :
      (σ : Model smt) (n : ℕ) (q : Term)
      → ((m : ℕ) × (m < n) × BadAfter σ m) ⊎ (Runs σ n × (holds smt σ q ≡ true))
      → holds smt σ (nest_bad smt solver opt p ts n q) ≡ true
  unfolding nest_bad
  nest_bad-holds σ zero q (inl (m, lt, b)) = absurd (omega arith)
  nest_bad-holds σ zero q (inr (runs, h)) = h
  nest_bad-holds σ (suc i) q (inl (m, lt, b)) = nest_bad-holds σ i _ (elim (dec_lt m i) [
    | yes below ↦ inl (m, below, b)
    | no last ↦
        let eq : m ≡ i = omega arith in
        let b' = subst (BadAfter σ) eq b in
        inr (
          b'.0,
          ground (arith, b'.1, laws.holds-or σ (at_time bad i) (make_and (at_time trans i) q)),
        )
  ])
  nest_bad-holds σ (suc i) q (inr (runs, h)) = nest_bad-holds σ i _ (
      inr (
        λ j lt. runs j (omega arith),
        ground (
          arith,
          runs i (omega arith),
          h,
          laws.holds-or σ (at_time bad i) (make_and (at_time trans i) q),
          laws.holds-and σ (at_time trans i) q,
        ),
      ))

  abbrev query : ℕ → Term
  query n = make_and (at_time init 0) (nest_bad smt solver opt p ts n (at_time bad n))

  query-BadAfter :
      (σ : Model smt) (n : ℕ)
      → holds smt σ (query n) ≡ true
      → (m : ℕ) × (m ≤ n) × (holds smt σ (at_time init 0) ≡ true) × BadAfter σ m
  query-BadAfter σ n h =
      let both : (holds smt σ (at_time init 0) ≡ true)
          × (holds smt σ (nest_bad smt solver opt p ts n (at_time bad n)) ≡ true) =
        ground (
          arith,
          laws.holds-and σ (at_time init 0) (nest_bad smt solver opt p ts n (at_time bad n)),
        ) in
      elim (holds-nest_bad σ n (at_time bad n) both.1) [
        | inl (m, lt, b) ↦ (m, omega arith, both.0, b)
        | inr b ↦ (n, omega arith, both.0, b)
      ]

  BadAfter-query :
      (σ : Model smt) (m n : ℕ)
      → m ≤ n
      → holds smt σ (at_time init 0) ≡ true
      → BadAfter σ m
      → holds smt σ (query n) ≡ true
  BadAfter-query σ m n le starts b =
      let nested = nest_bad-holds σ n (at_time bad n) (elim (dec_lt m n) [
        | yes below ↦ inl (m, below, b)
        | no last ↦ let eq : m ≡ n = omega arith in inr (subst (BadAfter σ) eq b)
      ]) in
      ground
        (arith, laws.holds-and σ (at_time init 0) (nest_bad smt solver opt p ts n (at_time bad n)))

  -- the state that is checked
  abbrev asked : ℕ → State → State
  asked n s = assert_formula (query n) (reset_assertions s)

  frames-asked : (n : ℕ) (s : State) → frames (asked n s) ≡ (query n ∷ []) ∷ []
  frames-asked n s =
      rules.frames-assert (query n) (reset_assertions s)
      ∙ ap (add_top (query n)) (rules.frames-reset s)

  answers :
      (n : ℕ) (s s' : State) (safe : Bool)
      → is_trans_total smt solver opt p ts ≡ false
      → final_base_case_check smt solver opt p ts n s ≡ ok (safe, s')
      → (a : Answer) → (check_sat_assuming [] (asked n s)).0 ≡ a
      → ((a ≡ sat) × (safe ≡ false)) ⊎ ((a ≡ unsat) × (safe ≡ true))
  unfolding final_base_case_check
  answers n s s' safe partial h sat eq = inl (refl, ground arith)
  answers n s s' safe partial h unsat eq = inr (refl, ground arith)
  answers n s s' safe partial h unknown eq = absurd (ground arith)

  -- Where the transition relation is not known to be total: when `final_base_case_check` answers false for the
  -- bound `n`, the system has a counterexample of length at most `n`.
  pub final_base_case_check-Cex :
      (n : ℕ) (s s' : State)
      → is_trans_total smt solver opt p ts ≡ false
      → final_base_case_check smt solver opt p ts n s ≡ ok (false, s')
      → (m : ℕ) × (m ≤ n) × (π : Trace smt p un) × Cex smt p un π m
  final_base_case_check-Cex n s s' partial h =
      elim (answers n s s' false partial h (check_sat_assuming [] (asked n s)).0 refl) [
        | inr wrong ↦ absurd (cc (wrong.1))
        | inl (yes_sat, _) ↦
            let (σ, fits, values) = rules.sat_model [] (asked n s) yes_sat in
            let all_hold = subst (Satisfies smt solver σ) (frames-asked n s) fits.1 in
            let (m, le, starts, after) = query-BadAfter σ n all_hold.0.0 in
            (
              m,
              le,
              un.reads σ,
              record {
                path = record {
                  starts = sym (un.reads_init σ 0) ∙ starts;
                  steps = λ j lt. sym (un.reads_trans σ j) ∙ after.0 j lt;
                };
                ends = sym (un.reads_bad σ m) ∙ after.1;
              },
            )
      ]

  -- Where the transition relation is not known to be total: when `final_base_case_check` answers true for the
  -- bound `n`, the system has no counterexample of length at most `n`.
  pub final_base_case_check-NoCex :
      (n : ℕ) (s s' : State)
      → is_trans_total smt solver opt p ts ≡ false
      → final_base_case_check smt solver opt p ts n s ≡ ok (true, s')
      → (m : ℕ) → m ≤ n
      → ¬ ((π : Trace smt p un) × Cex smt p un π m)
  final_base_case_check-NoCex n s s' partial h m le found =
      elim (answers n s s' true partial h (check_sat_assuming [] (asked n s)).0 refl) [
        | inl wrong ↦ absurd (cc (wrong.1))
        | inr (is_unsat, _) ↦
            let π = found.0 in
            let cex = found.1 in
            let σ = un.writes π in
            let asked_holds : holds smt σ (query n) ≡ true =
              BadAfter-query σ m n le (un.writes_init π 0 ∙ cex.path.starts) (
                (λ j lt. un.writes_trans π j ∙ cex.path.steps j lt),
                un.writes_bad π m ∙ cex.ends,
              ) in
            rules.unsat_sound [] (asked n s) is_unsat σ
              (tt, subst (Satisfies smt solver σ) (sym (frames-asked n s)) ((asked_holds, tt), tt))
      ]
