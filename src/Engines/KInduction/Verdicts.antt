-- ===== src/Engines/KInduction/Verdicts.antt =====
-- `check_until` of engines/kinduction.cpp: the rounds, and what the verdicts say of the system.
use pono.Base.{
  ℕ, zero, suc, ◌+◌, ◌≤◌, ◌<◌, ◌≡◌, inl, inr, refl, sym, ap, subst, ◌∙◌, arith, Bool, true, false,
  Eq, Option, some, none, Bool-cases, dec_lt, ltb, leb, if◌then◌else◌, ◌^◌, Result, ok, err, Error,
}
use pono.Smt.{Smt}
use pono.Smt.Laws.{SmtLaws, holds}
use pono.Smt.Solver.{Solver, SolverLaws, Satisfies, Decides}
use pono.Engines.Problem.{
  Problem, Unrolling, Trace, Cex, ProverResult, unknown, false_, true_, error,
}
use pono.Engines.Paths.{Failing-Shortest}
use pono.Engines.KInduction.{
  KindOptions, KindSystem, KInduction, begin, initialize, final_base_case_check, conclude,
  check_simple_path, check_init_states, push_bad, check_property, check_base, extend,
  property_round, round, rounds_loop, check_until,
}
use pono.Engines.KInduction.System.{Switched, IsInputLike, agree}
use pono.Engines.KInduction.Invariant.{
  Asserted, Asserted-same, assert-Satisfies, Satisfies-assert, extend-Asserted,
}
use pono.Engines.KInduction.Checks.{
  IsShortest, NoneFrom, check_simple_path-PathsChecked, check_init_states-PathsChecked,
}
use pono.Engines.KInduction.FinalTotal.{IsTotal, Cex-IsFailing, final-Cex, final-NoFailing}
use pono.Engines.KInduction.Property.{
  frames-pop_push_bad, check_property-PropertyChecked, check_base-BaseChecked,
}

module _ {Term : Type 0} ⦃e : Eq Term⦄ (smt : Smt Term) (laws : SmtLaws smt) (solver : Solver Term)
    (rules : SolverLaws smt solver) (opt : KindOptions) (p : Problem Term) (ts : KindSystem Term)
    (un : Unrolling smt p) (sw : Switched smt p ts un) where
  open smt use {make_or}
  open solver use {State, frames, assert_formula, reset_assertions, pop}
  open p use {init, trans, bad, at_time}
  open ts use {sel_init}

  abbrev pub Engine : Type 0
  Engine = KInduction smt solver opt p ts

  abbrev pub NoCex : Type 0
  NoCex = (n : ℕ) (π : Trace smt p un) → Cex smt p un π n → ⊥

  abbrev pub HasCex : Type 0
  HasCex = (n : ℕ) × (π : Trace smt p un) × Cex smt p un π n

  -- what a verdict says of the system
  abbrev pub Right : ProverResult → Type 0
  Right true_ = NoCex
  Right false_ = HasCex
  Right unknown = Unit {0}
  Right error = ⊥

  -- where the base cases are checked in each round, those below the bound have no shortest counterexample
  abbrev NoneBelow : ℕ → Type 0
  NoneBelow i =
      opt.one_time_base_check ≡ false
      → (m : ℕ) (ρ : Trace smt p un) → m < i
      → IsShortest smt laws solver rules opt p ts un sw ρ m
      → ⊥

  -- between two rounds
  record Ready (i : ℕ) (b : Engine) : Type 0 where
    asserted : Asserted smt laws solver rules opt p ts un sw i b.solver_state
    begun : 0 < i → 0 < b.next_k
    within : b.next_k ≤ i
    none_below : NoneBelow i

  abbrev Outcome : ℕ → Option ProverResult → Engine → Type 0
  Outcome i (some r) b = Right r
  Outcome i none b = Ready (i + opt.bound_step) b

  -- a formula, asserted after a reset, that says that the first state is initial
  begin-Ready : (b : Engine) → Ready 0 (begin smt solver opt p ts b)
  unfolding begin
  begin-Ready b =
      let c = make_or sel_init (at_time init 0) in
      let s = reset_assertions b.solver_state in
      record {
        asserted = record {
          allows = λ w π fit.
              let σ = sw.writes w π in
              let or_law = laws.holds-or σ sel_init (at_time init 0) in
              let said : holds smt σ c ≡ true = elim (Bool-cases w.start) [
                | inl off ↦ ground (arith, or_law, sw.writes_start w π)
                | inr on ↦ ground (arith, or_law, sw.writes_init w π 0, fit.starts on)
              ] in
              assert-Satisfies smt laws solver rules opt p ts un sw σ c s said
                (subst (Satisfies smt solver σ) (sym (rules.frames-reset b.solver_state)) (tt, tt));
          starts = λ σ fits on.
              let (said, _) = Satisfies-assert smt laws solver rules opt p ts un sw σ c s fits in
              ground (arith, laws.holds-or σ sel_init (at_time init 0));
          steps = λ σ fits j lt. absurd (omega arith);
        };
        begun = λ wrong. absurd (omega arith);
        within = omega arith;
        none_below = λ _ m ρ lt. absurd (omega arith);
      }

  module _ (input_like : IsInputLike smt p ts un sw)
      (total : IsTotal smt laws solver rules opt p ts un sw) (decides : Decides smt solver)
      (moves : 1 ≤ opt.bound_step)
      (steps : opt.one_time_base_check ≡ false → opt.bound_step ≡ 1) where
    IsShortest-of :
        (n : ℕ) (π : Trace smt p un)
        → Cex smt p un π n
        → (m : ℕ) × (m ≤ n)
          × (ρ : Trace smt p un) × IsShortest smt laws solver rules opt p ts un sw ρ m
    IsShortest-of n π cex =
        Failing-Shortest sw.init_in (un.sees trans) sw.bad_in (agree smt p ts un sw)
          input_like.init_agree input_like.reenter n π
          (Cex-IsFailing smt laws solver rules opt p ts un sw π n cex)

    NoCex_of :
        (i : ℕ)
        → NoneFrom smt laws solver rules opt p ts un sw i
        → ((m : ℕ) (ρ : Trace smt p un)
            → m < i
            → IsShortest smt laws solver rules opt p ts un sw ρ m
            → ⊥)
        → NoCex
    NoCex_of i from below n π cex =
        let (m, le, ρ, shortest) = IsShortest-of n π cex in
        elim (dec_lt m i) [
          | yes lt ↦ below m ρ lt shortest
          | no ge ↦ from m ρ (omega arith) shortest
        ]

    final-Right :
        (i : ℕ) (s : State) (r : Result (Bool × State)) (v : ProverResult) (s' : State)
        → Asserted smt laws solver rules opt p ts un sw i s
        → NoneFrom smt laws solver rules opt p ts un sw i
        → final_base_case_check smt solver opt p ts i s ≡ r
        → elim r as (λ _. Result (ProverResult × State)) [
          | err x ↦ err x
          | ok (safe, s1) ↦ ok ((if safe then ProverResult.true_ else ProverResult.false_), s1)
        ]
          ≡ ok (v, s')
        → Right v
    final-Right i s (err x) v s' h from run eq = absurd (cc)
    final-Right i s (ok (true, s1)) v s' h from run eq =
        let is_true : ProverResult.true_ ≡ v = cc in
        subst Right is_true (
          NoCex_of i from (λ m ρ lt shortest.
            final-NoFailing smt laws solver rules opt p ts un sw total i s s1 h run m ρ
              (omega arith) shortest.failing))
    final-Right i s (ok (false, s1)) v s' h from run eq =
        let is_false : ProverResult.false_ ≡ v = cc in
        let (m, le, π, cex) = final-Cex smt laws solver rules opt p ts un sw i s s1 h run in
        subst Right is_false (m, π, cex)

    conclude-Right :
        (i : ℕ) (s s' : State) (v : ProverResult)
        → (opt.one_time_base_check ≡ true → Asserted smt laws solver rules opt p ts un sw i s)
        → NoneFrom smt laws solver rules opt p ts un sw i
        → NoneBelow i
        → conclude smt solver opt p ts i s ≡ ok (v, s')
        → Right v
    unfolding conclude
    conclude-Right i s s' v h from below run = elim (Bool-cases opt.one_time_base_check) [
      | inl once ↦
          final-Right i s (final_base_case_check smt solver opt p ts i s) v s' (h once) from refl
            (ground arith)
      | inr each ↦
          let is_true : ProverResult.true_ ≡ v = ground arith in
          subst Right is_true (NoCex_of i from (below each))
    ]

    concluded :
        (r : Result (ProverResult × State)) (b b' : Engine) (o : Option ProverResult)
        → elim r as (λ _. Result (Option ProverResult × Engine)) [
          | err x ↦ err x
          | ok (v, s') ↦ ok (some v, record b { solver_state = s' })
        ]
          ≡ ok (o, b')
        → (v : ProverResult) × (s' : State) × (r ≡ ok (v, s')) × (o ≡ some v)
    concluded (err x) b b' o eq = absurd (cc)
    concluded (ok (v, s')) b b' o eq = (v, s', refl, cc)

    moved :
        (i : ℕ) (o : Option ProverResult) (b b' : Engine)
        → none ≡ o
        → b ≡ b'
        → Ready (i + opt.bound_step) b
        → Outcome i o b'
    moved i (some v) b b' e1 e2 h = absurd (cc)
    moved i none b b' e1 e2 h = subst (Ready (i + opt.bound_step)) e2 h

    property_round-Outcome :
        (i : ℕ) (b b' : Engine) (o : Option ProverResult)
        → Ready i b
        → property_round smt solver opt p ts i b ≡ ok (o, b')
        → Outcome i o b'
    unfolding property_round
    property_round-Outcome i b b' o ready run =
        let s = b.solver_state in
        let (proved, s1) = check_property smt solver opt p ts (push_bad smt solver opt p ts i s) in
        let (failed, s2) = check_base smt solver opt p ts s1 in
        let prop =
          check_property-PropertyChecked smt laws solver rules opt p ts un sw i s s1 proved
            ready.asserted refl in
        let base =
          check_base-BaseChecked smt laws solver rules opt p ts un sw decides i s s1 s2 failed
            ready.asserted prop.same refl in
        let s3 = if opt.one_time_base_check then pop s1 else s1 in
        elim (Bool-cases proved) [
          | inl y ↦
              let kept : opt.one_time_base_check ≡ true
                  → Asserted smt laws solver rules opt p ts un sw i s3 =
                λ once.
                  let popped : frames s3 ≡ frames s =
                    ap (λ c. frames (if c then pop s1 else s1)) once
                    ∙ frames-pop_push_bad smt laws solver rules opt p ts un sw i s s1 prop.same in
                  Asserted-same smt laws solver rules opt p ts un sw popped ready.asserted in
              let (v, s', end', eq) =
                concluded (conclude smt solver opt p ts i s3) b b' o (ground arith) in
              subst (λ o. Outcome i o b') (sym eq)
                (conclude-Right i s3 s' v kept (prop.none_from y) ready.none_below end')
          | inr n ↦ elim (Bool-cases failed) [
            | inl found ↦
                let eq : some ProverResult.false_ ≡ o = ground arith in
                let (m, le, π, cex) = base.found found in subst (λ o. Outcome i o b') eq (m, π, cex)
            | inr not_found ↦
                let s4 = extend smt solver opt p ts opt.bound_step i (pop s2) in
                let b1 = record b { solver_state = s4; next_k = suc i } in
                let eq : (none ≡ o) × (b1 ≡ b') = ground arith in
                let popped =
                  frames-pop_push_bad smt laws solver rules opt p ts un sw i s s2 base.same in
                let extended =
                  extend-Asserted smt laws solver rules opt p ts un sw opt.bound_step i (pop s2)
                    (Asserted-same smt laws solver rules opt p ts un sw popped ready.asserted) in
                let ready1 : Ready (i + opt.bound_step) b1 = record {
                  asserted = extended;
                  begun = λ _. omega arith;
                  within = omega (arith, moves);
                  none_below = λ each m ρ lt shortest. elim (dec_lt m i) [
                    | yes below ↦ ready.none_below each m ρ below shortest
                    | no here ↦
                        let at_i : m ≡ i = omega (arith, steps each) in
                        base.none_at not_found each ρ
                          (subst (IsShortest smt laws solver rules opt p ts un sw ρ) at_i shortest)
                  ];
                } in
                moved i o b1 b' eq.0 eq.1 ready1
          ]
        ]

    -- what a round does after the simple path check
    abbrev ended : ℕ → Engine → State → Result (Option ProverResult × Engine)
    ended i b s =
        elim (conclude smt solver opt p ts i s) as (λ _. Result (Option ProverResult × Engine)) [
          | err x ↦ err x
          | ok (v, s') ↦ ok (some v, record b { solver_state = s' })
        ]

    abbrev after_paths : ℕ → Engine → Bool → State → Result (Option ProverResult × Engine)
    after_paths i b closed s =
        let (closed_init, s') =
          check_init_states smt solver opt p ts i (record b { solver_state = s }) in
        if closed
        then ended i b s
        else if closed_init
        then ended i b s'
        else property_round smt solver opt p ts i (record b { solver_state = s' })

    ended-Outcome :
        (i : ℕ) (b b' : Engine) (s : State) (o : Option ProverResult)
        → Asserted smt laws solver rules opt p ts un sw i s
        → NoneFrom smt laws solver rules opt p ts un sw i
        → NoneBelow i
        → ended i b s ≡ ok (o, b')
        → Outcome i o b'
    ended-Outcome i b b' s o h from below run =
        let (v, s', end', eq) = concluded (conclude smt solver opt p ts i s) b b' o run in
        subst (λ o. Outcome i o b') (sym eq) (conclude-Right i s s' v (λ _. h) from below end')

    after_paths-Outcome :
        (i : ℕ) (b b' : Engine) (closed : Bool) (s : State) (o : Option ProverResult)
        → Ready i b
        → check_simple_path smt solver opt p ts i b.solver_state ≡ ok (closed, s)
        → after_paths i b closed s ≡ ok (o, b')
        → Outcome i o b'
    after_paths-Outcome i b b' closed s o ready checked run =
        let paths =
          check_simple_path-PathsChecked smt laws solver rules opt p ts un sw i b.solver_state s
            closed ready.asserted checked in
        let b1 = record b { solver_state = s } in
        let (closed_init, s') = check_init_states smt solver opt p ts i b1 in
        let inits =
          check_init_states-PathsChecked smt laws solver rules opt p ts un sw i b1 s' closed_init
            ready.begun ready.within paths.asserted refl in
        elim (Bool-cases closed) [
          | inl y ↦
              ended-Outcome i b b' s o paths.asserted (paths.none_from y) ready.none_below
                (ground arith)
          | inr n ↦ elim (Bool-cases closed_init) [
            | inl y ↦
                ended-Outcome i b b' s' o inits.asserted (inits.none_from y) ready.none_below
                  (ground arith)
            | inr n' ↦
                property_round-Outcome i (record b { solver_state = s' }) b' o
                  (record {
                    asserted = inits.asserted;
                    begun = ready.begun;
                    within = ready.within;
                    none_below = ready.none_below;
                  })
                  (ground arith)
          ]
        ]

    paths_returned :
        (r : Result (Bool × State)) (i : ℕ) (b b' : Engine) (o : Option ProverResult)
        → elim r as (λ _. Result (Option ProverResult × Engine)) [
          | err x ↦ err x
          | ok (closed, s) ↦ after_paths i b closed s
        ]
          ≡ ok (o, b')
        → (closed : Bool) × (s : State) × (r ≡ ok (closed, s))
          × (after_paths i b closed s ≡ ok (o, b'))
    paths_returned (err x) i b b' o eq = absurd (cc)
    paths_returned (ok (closed, s)) i b b' o eq = (closed, s, refl, eq)

    round-Outcome :
        (i : ℕ) (b b' : Engine) (o : Option ProverResult)
        → Ready i b
        → round smt solver opt p ts i b ≡ ok (o, b')
        → Outcome i o b'
    unfolding round
    round-Outcome i b b' o ready run =
        let (closed, s, checked, rest) =
          paths_returned (check_simple_path smt solver opt p ts i b.solver_state) i b b' o run in
        after_paths-Outcome i b b' closed s o ready checked rest

    -- what the loop does after a round
    abbrev after_round : ℕ → ℕ → ℕ → Option ProverResult → Engine → Result (ProverResult × Engine)
    after_round fuel k i none b =
        let rest = rounds_loop smt solver opt p ts fuel k (i + opt.bound_step) b in
        if ltb (i + opt.bound_step) (2 ^ 31) then rest else err Error.int_overflow
    after_round fuel k i (some v) b = ok (v, b)

    round_returned :
        (r : Result (Option ProverResult × Engine)) (fuel k i : ℕ) (x : ProverResult × Engine)
        → elim r as (λ _. Result (ProverResult × Engine)) [
          | err y ↦ err y
          | ok (none, b) ↦ after_round fuel k i none b
          | ok (some v, b) ↦ ok (v, b)
        ]
          ≡ ok x
        → (o : Option ProverResult) × (b : Engine) × (r ≡ ok (o, b))
          × (after_round fuel k i o b ≡ ok x)
    round_returned (err y) fuel k i x eq = absurd (cc)
    round_returned (ok (none, b)) fuel k i x eq = (none, b, refl, eq)
    round_returned (ok (some v, b)) fuel k i x eq = (some v, b, refl, eq)

    ended_by :
        (o : Option ProverResult) (fuel k i : ℕ) (b b' : Engine) (v : ProverResult)
        → (Ready (i + opt.bound_step) b
            → rounds_loop smt solver opt p ts fuel k (i + opt.bound_step) b ≡ ok (v, b')
            → Right v)
        → Outcome i o b
        → after_round fuel k i o b ≡ ok (v, b')
        → Right v
    ended_by (some w) fuel k i b b' v again h run = let same : w ≡ v = cc in subst Right same h
    ended_by none fuel k i b b' v again h run = again h (ground arith)

    rounds_loop-Right :
        (fuel k i : ℕ) (b b' : Engine) (v : ProverResult)
        → Ready i b
        → rounds_loop smt solver opt p ts fuel k i b ≡ ok (v, b')
        → Right v
    unfolding rounds_loop
    rounds_loop-Right zero k i b b' v ready run = absurd (cc)
    rounds_loop-Right (suc fuel) k i b b' v ready run = elim (Bool-cases (leb i k)) [
      | inr over ↦ let same : ProverResult.unknown ≡ v = ground arith in subst Right same tt
      | inl more ↦
          let (o, b1, this, rest) =
            round_returned (round smt solver opt p ts i b) fuel k i (v, b')
              (subst
                (λ c.
                  (if c
                    then (elim (round smt solver opt p ts i b)
                        as (λ _. Result (ProverResult × Engine)) [
                          | err y ↦ err y
                          | ok (none, b) ↦ after_round fuel k i none b
                          | ok (some v, b) ↦ ok (v, b)
                        ])
                    else ok (ProverResult.unknown, b))
                  ≡ ok (v, b'))
                more run) in
          ended_by o fuel k i b1 b' v
            (λ ready1 again. rounds_loop-Right fuel k (i + opt.bound_step) b1 b' v ready1 again)
            (round-Outcome i b b1 o ready this) rest
    ]

  -- the options are refused where the base cases of a step above 1 would be skipped
  step_allowed :
      (k : ℕ) (b : Engine) (x : ProverResult × Engine)
      → b.initialized ≡ false
      → check_until smt solver opt p ts k b ≡ ok x
      → opt.one_time_base_check ≡ false
      → opt.bound_step ≡ 1
  unfolding check_until initialize
  step_allowed k b x fresh run each = elim (Bool-cases p.bad_only_curr) [
    | inr bad ↦ absurd (ground arith)
    | inl fine ↦ ground arith
  ]

  run_of :
      (k : ℕ) (b : Engine) (x : ProverResult × Engine)
      → b.initialized ≡ false
      → check_until smt solver opt p ts k b ≡ ok x
      → rounds_loop smt solver opt p ts (suc (suc k)) k 0 (begin smt solver opt p ts b) ≡ ok x
  unfolding check_until initialize
  run_of k b x fresh run = elim (Bool-cases p.bad_only_curr) [
    | inr bad ↦ absurd (ground arith)
    | inl fine ↦ ground arith
  ]

  check_until-Right :
      IsInputLike smt p ts un sw
      → IsTotal smt laws solver rules opt p ts un sw
      → Decides smt solver
      → 1 ≤ opt.bound_step
      → (k : ℕ) (b b' : Engine) (v : ProverResult) → b.initialized ≡ false
      → check_until smt solver opt p ts k b ≡ ok (v, b')
      → Right v
  check_until-Right input_like total decides moves k b b' v fresh run =
      rounds_loop-Right input_like total decides moves (step_allowed k b (v, b') fresh run)
        (suc (suc k)) k 0 (begin smt solver opt p ts b) b' v (begin-Ready b)
        (run_of k b (v, b') fresh run)

  -- When `check_until` of k-induction, on an engine that is not initialized, answers TRUE, under any options
  -- with a step of at least 1, no sequence of states of any length is a counterexample. The solver decides every
  -- query, the states without update are like inputs, and a relation that is taken to be total gives each
  -- state, with some inputs, a successor.
  pub check_until_true-NoCex :
      IsInputLike smt p ts un sw
      → IsTotal smt laws solver rules opt p ts un sw
      → Decides smt solver
      → 1 ≤ opt.bound_step
      → (k : ℕ) (b b' : Engine) → b.initialized ≡ false
      → check_until smt solver opt p ts k b ≡ ok (ProverResult.true_, b')
      → ¬ ((n : ℕ) × (π : Trace smt p un) × Cex smt p un π n)
  check_until_true-NoCex input_like total decides moves k b b' fresh run (n, π, cex) =
      check_until-Right input_like total decides moves k b b' ProverResult.true_ fresh run n π cex

  -- When `check_until` of k-induction, on an engine that is not initialized, answers FALSE, under any options
  -- with a step of at least 1, the system has a counterexample. The solver decides every query, the states
  -- without update are like inputs, and a relation that is taken to be total gives each state, with some inputs,
  -- a successor.
  pub check_until-false-Cex :
      IsInputLike smt p ts un sw
      → IsTotal smt laws solver rules opt p ts un sw
      → Decides smt solver
      → 1 ≤ opt.bound_step
      → (k : ℕ) (b b' : Engine) → b.initialized ≡ false
      → check_until smt solver opt p ts k b ≡ ok (ProverResult.false_, b')
      → (n : ℕ) × (π : Trace smt p un) × Cex smt p un π n
  check_until-false-Cex input_like total decides moves k b b' fresh run =
      check_until-Right input_like total decides moves k b b' ProverResult.false_ fresh run
