-- ===== src/Engines/KInduction/FinalTotal.antt =====
-- `final_base_case_check` of engines/kinduction.cpp in both of its forms: where the transition relation is
-- total the assertions are kept, and a path is extended to the bound.
use pono.Base.{
  ℕ, zero, suc, ◌+◌, ◌-◌, ◌≤◌, ◌<◌, ◌≡◌, ◌⊎◌, inl, inr, refl, sym, ap, subst, ◌∙◌, arith, Bool,
  true, false, not, List, [], ◌∷◌, Eq, Bool-cases, dec_lt, ltb, if◌then◌else◌, ok,
}
use pono.Smt.{Smt}
use pono.Smt.Laws.{SmtLaws, Model, holds}
use pono.Smt.Solver.{Solver, SolverLaws, Satisfies, sat, unsat}
use pono.Engines.Problem.{Problem, Unrolling, Trace, Cex}
use pono.Engines.Paths.{Failing}
use pono.Engines.KInduction.{KindOptions, KindSystem, or_bad, is_trans_total, final_base_case_check}
use pono.Engines.KInduction.FinalBase.{final_base_case_check-Cex, final_base_case_check-NoCex}
use pono.Engines.KInduction.System.{Switches, Switched, agree}
use pono.Engines.KInduction.Invariant.{Fit, Asserted, assert-Satisfies, Satisfies-assert}
use pono.Engines.KInduction.Checks.{Answer-split}

module _ {Term : Type 0} ⦃e : Eq Term⦄ (smt : Smt Term) (laws : SmtLaws smt) (solver : Solver Term)
    (rules : SolverLaws smt solver) (opt : KindOptions) (p : Problem Term) (ts : KindSystem Term)
    (un : Unrolling smt p) (sw : Switched smt p ts un) where
  open smt use {make_not, make_or}
  open solver use {State, frames, assert_formula, check_sat_assuming}
  open p use {init, trans, bad, at_time}
  open ts use {sel_init, sel_neg_init_terms, sel_neg_bad_state_terms, sel_simple_path_terms}

  abbrev pub IsFailing : Trace smt p un → ℕ → Type 0
  IsFailing = Failing sw.init_in (un.sees trans) sw.bad_in (agree smt p ts un sw)

  pub Cex-IsFailing : (π : Trace smt p un) (n : ℕ) → Cex smt p un π n → IsFailing π n
  Cex-IsFailing π n h = record {
    starts = sym (sw.sees_init (π 0) (π 1)) ∙ h.path.starts;
    steps = h.path.steps;
    ends = sym (sw.sees_bad (π n) (π (suc n))) ∙ h.ends;
  }

  pub IsFailing-Cex : (π : Trace smt p un) (n : ℕ) → IsFailing π n → Cex smt p un π n
  IsFailing-Cex π n h = record {
    path = record { starts = sw.sees_init (π 0) (π 1) ∙ h.starts; steps = h.steps };
    ends = sw.sees_bad (π n) (π (suc n)) ∙ h.ends;
  }

  -- a model of the assertions that is initial is a failing sequence where it is bad
  pub model-Cex :
      (σ : Model smt) (m i : ℕ) (s : State)
      → m ≤ i
      → Asserted smt laws solver rules opt p ts un sw i s
      → Satisfies smt solver σ (frames s)
      → holds smt σ (make_not sel_init) ≡ true
      → holds smt σ (at_time bad m) ≡ true
      → Cex smt p un (un.reads σ) m
  model-Cex σ m i s le h fits on bad_m =
      let off : holds smt σ sel_init ≡ false = ground (arith, laws.holds-not σ sel_init) in
      record {
        path = record {
          starts = sym (un.reads_init σ 0) ∙ h.starts σ fits off;
          steps = λ j lt. sym (un.reads_trans σ j) ∙ h.steps σ fits j (omega arith);
        };
        ends = sym (un.reads_bad σ m) ∙ bad_m;
      }

  bad_in_model : Model smt → ℕ → Bool
  bad_in_model σ j = holds smt σ (at_time bad j)

  holds-or_bad :
      (σ : Model smt) (n j : ℕ) (q : Term)
      → holds smt σ (or_bad smt solver opt p ts n j q) ≡ true
      → (holds smt σ q ≡ true) ⊎ ((k : ℕ) × (k < j + n) × (bad_in_model σ k ≡ true))
  unfolding or_bad bad_in_model
  holds-or_bad σ zero j q h = inl h
  holds-or_bad σ (suc n) j q h = elim (holds-or_bad σ n (suc j) _ h) [
    | inr (k, lt, b) ↦ inr (k, omega arith, b)
    | inl either ↦ elim (Bool-cases (holds smt σ q)) [
      | inl y ↦ inl y
      | inr n ↦ inr (j, omega arith, ground (arith, laws.holds-or σ q (at_time bad j)))
    ]
  ]

  or_bad-holds :
      (σ : Model smt) (n j : ℕ) (q : Term)
      → (holds smt σ q ≡ true) ⊎ ((k : ℕ) × (j ≤ k) × (k < j + n) × (bad_in_model σ k ≡ true))
      → holds smt σ (or_bad smt solver opt p ts n j q) ≡ true
  unfolding or_bad bad_in_model
  or_bad-holds σ zero j q (inl h) = h
  or_bad-holds σ zero j q (inr (k, le, lt, b)) = absurd (omega arith)
  or_bad-holds σ (suc n) j q (inl h) =
      or_bad-holds σ n (suc j) _ (inl (ground (arith, laws.holds-or σ q (at_time bad j))))
  or_bad-holds σ (suc n) j q (inr (k, le, lt, b)) = or_bad-holds σ n (suc j) _ (elim (dec_lt j k) [
    | yes later ↦ inr (k, later, omega arith, b)
    | no here ↦
        let eq : k ≡ j = omega arith in
        let b' : holds smt σ (at_time bad j) ≡ true =
          subst (λ i. holds smt σ (at_time bad i) ≡ true) eq b in
        inl (ground (arith, laws.holds-or σ q (at_time bad j)))
  ])

  -- a state that differs from another in its inputs only: it is initial or bad where the other is, and
  -- follows each state that the other follows
  pub record IsVariant (s r : un.State) : Type 0 where
    pub same_init : sw.init_in r ≡ sw.init_in s
    pub same_bad : sw.bad_in r ≡ sw.bad_in s
    pub follows : (q : un.State) → un.sees trans q s ≡ true → un.sees trans q r ≡ true

  -- each state has, with some inputs, a successor: `is_right_total` quantifies over the inputs by existence
  abbrev pub IsRightTotal : Type 0
  IsRightTotal =
      (s : un.State)
      → (r : un.State) × IsVariant s r × (r' : un.State) × (un.sees trans r r' ≡ true)

  module _ (total : IsRightTotal) where
    -- with the inputs that it needs, each state has the next one as a successor
    walk : un.State → Trace smt p un
    walk s zero = (total s).0
    walk s (suc k) = walk ((total s).2) k

    walk-steps : (s : un.State) (k : ℕ) → un.sees trans (walk s k) (walk s (suc k)) ≡ true
    unfolding walk
    walk-steps s zero =
        let (r, _, r', step) = total s in
        let (_, variant, _, _) = total r' in variant.follows r step
    walk-steps s (suc k) = walk-steps ((total s).2) k

    -- the sequence below `m`, and from there the walk
    extended : ℕ → Trace smt p un → Trace smt p un
    extended m ρ k = if ltb k m then ρ k else walk (ρ m) (k - m)

    extended-before : (m : ℕ) (ρ : Trace smt p un) (k : ℕ) → k < m → extended m ρ k ≡ ρ k
    unfolding extended
    extended-before m ρ k lt = ground arith

    extended-after :
        (m : ℕ) (ρ : Trace smt p un) (k : ℕ) → m ≤ k → extended m ρ k ≡ walk (ρ m) (k - m)
    unfolding extended
    extended-after m ρ k le = ground arith

    extended-IsVariant :
        (m : ℕ) (ρ : Trace smt p un) (k : ℕ) → k ≤ m → IsVariant (ρ k) (extended m ρ k)
    unfolding walk
    extended-IsVariant m ρ k le = elim (dec_lt k m) [
      | yes lt ↦
          subst (IsVariant (ρ k)) (sym (extended-before m ρ k lt))
            (record { same_init = refl; same_bad = refl; follows = λ q h. h })
      | no last ↦
          let eq : m ≡ k = omega arith in
          let none_left : k - m ≡ 0 = omega arith in
          let at : extended m ρ k ≡ (total (ρ k)).0 =
            extended-after m ρ k (omega arith)
            ∙ ap (walk (ρ m)) none_left
            ∙ ap (λ j. (total (ρ j)).0) eq in
          subst (IsVariant (ρ k)) (sym at) (total (ρ k)).1
    ]

    extended-steps :
        (m : ℕ) (ρ : Trace smt p un)
        → ((j : ℕ) → j < m → un.sees trans (ρ j) (ρ (suc j)) ≡ true)
        → (j : ℕ) → un.sees trans (extended m ρ j) (extended m ρ (suc j)) ≡ true
    extended-steps m ρ steps j = elim (dec_lt j m) [
      | yes before ↦
          subst (λ s. un.sees trans s (extended m ρ (suc j)) ≡ true)
            (sym (extended-before m ρ j before))
            ((extended-IsVariant m ρ (suc j) before).follows (ρ j) (steps j before))
      | no after ↦
          rw (extended-after m ρ j (omega arith), extended-after m ρ (suc j) (omega arith))
            (let eq : suc j - m ≡ suc (j - m) = omega arith in rw eq (walk-steps (ρ m) (j - m)))
    ]

  abbrev disabled : List Term
  disabled =
      make_not sel_init ∷ sel_neg_init_terms ∷ sel_neg_bad_state_terms ∷ sel_simple_path_terms ∷ []

  abbrev final_switches : Switches
  final_switches = record { start = false; later = true; bad = true; path = true }

  abbrev total_query : ℕ → Term
  total_query n = or_bad smt solver opt p ts n 1 (at_time bad 0)

  disabled-holds :
      (π : Trace smt p un) → Satisfies smt solver (sw.writes final_switches π) (disabled ∷ [])
  disabled-holds π =
      let b = final_switches in
      (
        (
          laws.holds-not (sw.writes b π) sel_init ∙ ap not (sw.writes_start b π),
          (sw.writes_later b π, (sw.writes_off b π, (sw.writes_path b π, tt))),
        ),
        tt,
      )

  answers :
      (n : ℕ) (s s' : State) (safe : Bool)
      → is_trans_total smt solver opt p ts ≡ true
      → final_base_case_check smt solver opt p ts n s ≡ ok (safe, s')
      → (((check_sat_assuming disabled (assert_formula (total_query n) s)).0 ≡ sat)
          × (safe ≡ false))
        ⊎ (((check_sat_assuming disabled (assert_formula (total_query n) s)).0 ≡ unsat)
            × (safe ≡ true))
  unfolding final_base_case_check
  answers n s s' safe is_total h =
      elim (Answer-split (check_sat_assuming disabled (assert_formula (total_query n) s)).0) [
        | inl a ↦ inl (a, ground arith)
        | inr (inl a) ↦ inr (a, ground arith)
        | inr (inr a) ↦ absurd (ground arith)
      ]

  total-Cex :
      (n : ℕ) (s s' : State)
      → is_trans_total smt solver opt p ts ≡ true
      → Asserted smt laws solver rules opt p ts un sw n s
      → final_base_case_check smt solver opt p ts n s ≡ ok (false, s')
      → (m : ℕ) × (m ≤ n) × (π : Trace smt p un) × Cex smt p un π m
  unfolding bad_in_model
  total-Cex n s s' is_total h run = elim (answers n s s' false is_total run) [
    | inr wrong ↦ absurd (cc (wrong.1))
    | inl (yes_sat, _) ↦
        let (σ, fits, values) =
          rules.sat_model disabled (assert_formula (total_query n) s) yes_sat in
        let (asked, below) =
          Satisfies-assert smt laws solver rules opt p ts un sw σ (total_query n) s fits.1 in
        elim (holds-or_bad σ n 1 (at_time bad 0) asked) [
          | inl bad_0 ↦
              (0, omega arith, un.reads σ, model-Cex σ 0 n s (omega arith) h below fits.0.0 bad_0)
          | inr (m, lt, bad_m) ↦
              (m, omega arith, un.reads σ, model-Cex σ m n s (omega arith) h below fits.0.0 bad_m)
        ]
  ]

  total-NoFailing :
      IsRightTotal
      → (n : ℕ) (s s' : State) → is_trans_total smt solver opt p ts ≡ true
      → Asserted smt laws solver rules opt p ts un sw n s
      → final_base_case_check smt solver opt p ts n s ≡ ok (true, s')
      → (m : ℕ) (ρ : Trace smt p un) → m ≤ n
      → IsFailing ρ m
      → ⊥
  unfolding bad_in_model
  total-NoFailing total n s s' is_total h run m ρ le failing =
      elim (answers n s s' true is_total run) [
        | inl wrong ↦ absurd (cc (wrong.1))
        | inr (is_unsat, _) ↦
            let π = extended total m ρ in
            let σ = sw.writes final_switches π in
            let fit : Fit smt laws solver rules opt p ts un sw n final_switches π = record {
              starts =
                  λ _. (extended-IsVariant total m ρ 0 (omega arith)).same_init ∙ failing.starts;
              steps = λ j _. extended-steps total m ρ failing.steps j;
              no_bad = λ wrong. absurd (cc);
              no_init = λ wrong. absurd (cc);
              distinct = λ wrong. absurd (cc);
            } in
            let bad_m : holds smt σ (at_time bad m) ≡ true =
              sw.writes_bad final_switches π m
              ∙ (extended-IsVariant total m ρ m (omega arith)).same_bad
              ∙ failing.ends in
            let asked = or_bad-holds σ n 1 (at_time bad 0) (elim (dec_lt 0 m) [
              | yes later ↦ inr (m, later, omega arith, bad_m)
              | no first ↦
                  let eq : m ≡ 0 = omega arith in
                  inl (subst (λ i. holds smt σ (at_time bad i) ≡ true) eq bad_m)
            ]) in
            rules.unsat_sound disabled (assert_formula (total_query n) s) is_unsat σ (
              (disabled-holds π).0,
              assert-Satisfies smt laws solver rules opt p ts un sw σ (total_query n) s asked
                  (h.allows final_switches π fit),
            )
      ]

  -- what the final base case relies on where the relation is taken to be total
  abbrev pub IsTotal : Type 0
  IsTotal = is_trans_total smt solver opt p ts ≡ true → IsRightTotal

  pub final-Cex :
      (n : ℕ) (s s' : State)
      → Asserted smt laws solver rules opt p ts un sw n s
      → final_base_case_check smt solver opt p ts n s ≡ ok (false, s')
      → (m : ℕ) × (m ≤ n) × (π : Trace smt p un) × Cex smt p un π m
  final-Cex n s s' h run = elim (Bool-cases (is_trans_total smt solver opt p ts)) [
    | inl is_total ↦ total-Cex n s s' is_total h run
    | inr partial ↦ final_base_case_check-Cex smt laws solver rules opt p ts un n s s' partial run
  ]

  pub final-NoFailing :
      IsTotal
      → (n : ℕ) (s s' : State) → Asserted smt laws solver rules opt p ts un sw n s
      → final_base_case_check smt solver opt p ts n s ≡ ok (true, s')
      → (m : ℕ) (ρ : Trace smt p un) → m ≤ n
      → IsFailing ρ m
      → ⊥
  final-NoFailing total n s s' h run m ρ le failing =
      elim (Bool-cases (is_trans_total smt solver opt p ts)) [
        | inl is_total ↦ total-NoFailing (total is_total) n s s' is_total h run m ρ le failing
        | inr partial ↦
            final_base_case_check-NoCex smt laws solver rules opt p ts un n s s' partial run m le
              (ρ, IsFailing-Cex ρ m failing)
      ]
