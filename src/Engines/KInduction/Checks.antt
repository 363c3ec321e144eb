-- ===== src/Engines/KInduction/Checks.antt =====
-- The inductive checks of engines/kinduction.cpp: what an unsatisfiable answer excludes.
use pono.Base.{
  ℕ, zero, suc, ◌-◌, ◌*◌, ◌≤◌, ◌<◌, ◌≡◌, ◌≢◌, ◌⊎◌, inl, inr, refl, sym, ap, subst, ◌∙◌, arith, Bool,
  true, false, not, ◌&&◌, List, [], ◌∷◌, Eq, All, Bool-cases, leb, if◌then◌else◌, ok,
}
use pono.Smt.{Smt}
use pono.Smt.Laws.{SmtLaws, holds}
use pono.Smt.Solver.{Solver, SolverLaws, Answer, sat, unsat, unknown}
use pono.Engines.Problem.{Problem, Unrolling, Trace}
use pono.Engines.Paths.{Shortest}
use pono.Engines.KInduction.{
  KindOptions, KindSystem, KInduction, any_start, only_start, base_start, violated,
  check_simple_path_eager, lazy_loop, check_simple_path_lazy, check_simple_path, check_init_states,
  assert_simple_paths, assert_back, assert_neg_inits,
}
use pono.Engines.KInduction.System.{Switches, Switched, agree}
use pono.Engines.KInduction.Invariant.{
  Fit, Asserted, Asserted-same, assert-Asserted, assert_simple_paths-Asserted,
  assert_neg_inits-Asserted, violated-IsValid, assert_back-Asserted, IsValid,
}

-- the selectors under the three assumptions
abbrev pub any_switches : Switches
any_switches = record { start = true; later = true; bad = false; path = false }

abbrev pub only_switches : Switches
only_switches = record { start = false; later = false; bad = false; path = false }

abbrev pub base_switches : Switches
base_switches = record { start = false; later = true; bad = false; path = false }

pub Answer-split : (a : Answer) → (a ≡ sat) ⊎ ((a ≡ unsat) ⊎ (a ≡ unknown))
Answer-split sat = inl refl
Answer-split unsat = inr (inl refl)
Answer-split unknown = inr (inr refl)

List-split {ℓ} :
    {A : Type ℓ} (xs : List A) → (xs ≡ []) ⊎ ((x : A) × (rest : List A) × (xs ≡ x ∷ rest))
List-split [] = inl refl
List-split (x ∷ rest) = inr (x, rest, refl)

unsat-cases : (a : Answer) → (a ≡ unsat) ⊎ (a ≢ unsat)
unsat-cases unsat = inl refl
unsat-cases sat = inr (λ h. cc)
unsat-cases unknown = inr (λ h. cc)

module _ {Term : Type 0} ⦃e : Eq Term⦄ (smt : Smt Term) (laws : SmtLaws smt) (solver : Solver Term)
    (rules : SolverLaws smt solver) (opt : KindOptions) (p : Problem Term) (ts : KindSystem Term)
    (un : Unrolling smt p) (sw : Switched smt p ts un) where
  open smt use {make_not}
  open solver use {State, frames, check_sat_assuming}
  open p use {trans}
  open ts use {
    statevars, has_no_update, sel_init, sel_neg_init_terms, sel_neg_bad_state_terms,
    sel_simple_path_terms,
  }

  -- a failing sequence of this system that cannot be cut short
  abbrev pub IsShortest : Trace smt p un → ℕ → Type 0
  IsShortest = Shortest sw.init_in (un.sees trans) sw.bad_in (agree smt p ts un sw)

  -- none of the given length or a longer one
  abbrev pub NoneFrom : ℕ → Type 0
  NoneFrom i = (m : ℕ) (ρ : Trace smt p un) → i ≤ m → IsShortest ρ m → ⊥

  abbrev pub NoFit : ℕ → Switches → Type 0
  NoFit i b = (π : Trace smt p un) → Fit smt laws solver rules opt p ts un sw i b π → ⊥

  abbrev Given : Switches → List Term → Type 0
  Given b given = (π : Trace smt p un) → All (λ t. holds smt (sw.writes b π) t ≡ true) given

  pub any_start-Given : Given any_switches (any_start smt solver opt p ts)
  unfolding any_start
  any_start-Given π =
      let σ = sw.writes any_switches π in
      (
        sw.writes_start any_switches π,
        (
          sw.writes_later any_switches π,
          (
            laws.holds-not σ sel_neg_bad_state_terms ∙ ap not (sw.writes_off any_switches π),
            (laws.holds-not σ sel_simple_path_terms ∙ ap not (sw.writes_path any_switches π), tt),
          ),
        ),
      )

  pub only_start-Given : Given only_switches (only_start smt solver opt p ts)
  unfolding only_start
  only_start-Given π =
      let σ = sw.writes only_switches π in
      (
        laws.holds-not σ sel_init ∙ ap not (sw.writes_start only_switches π),
        (
          laws.holds-not σ sel_neg_init_terms ∙ ap not (sw.writes_later only_switches π),
          (
            laws.holds-not σ sel_neg_bad_state_terms ∙ ap not (sw.writes_off only_switches π),
            (laws.holds-not σ sel_simple_path_terms ∙ ap not (sw.writes_path only_switches π), tt),
          ),
        ),
      )

  pub base_start-Given : Given base_switches (base_start smt solver opt p ts)
  unfolding base_start
  base_start-Given π =
      let σ = sw.writes base_switches π in
      (
        laws.holds-not σ sel_init ∙ ap not (sw.writes_start base_switches π),
        (
          sw.writes_later base_switches π,
          (
            laws.holds-not σ sel_neg_bad_state_terms ∙ ap not (sw.writes_off base_switches π),
            (laws.holds-not σ sel_simple_path_terms ∙ ap not (sw.writes_path base_switches π), tt),
          ),
        ),
      )

  pub unsat-NoFit :
      (i : ℕ) (b : Switches) (given : List Term) (s : State)
      → Given b given
      → Asserted smt laws solver rules opt p ts un sw i s
      → (check_sat_assuming given s).0 ≡ unsat
      → NoFit i b
  unsat-NoFit i b given s holds_given h is_unsat π fit =
      rules.unsat_sound given s is_unsat (sw.writes b π) (holds_given π, h.allows b π fit)

  pub check-Asserted :
      (i : ℕ) (given : List Term) (s : State)
      → Asserted smt laws solver rules opt p ts un sw i s
      → Asserted smt laws solver rules opt p ts un sw i (check_sat_assuming given s).1
  check-Asserted i given s h =
      Asserted-same smt laws solver rules opt p ts un sw (rules.frames-check given s) h

  -- a failing sequence that cannot be cut short meets the constraints up to each bound
  pub IsShortest-Fit :
      (i m : ℕ) (b : Switches) (ρ : Trace smt p un)
      → i ≤ m
      → IsShortest ρ m
      → Fit smt laws solver rules opt p ts un sw i b ρ
  IsShortest-Fit i m b ρ le h = record {
    starts = λ _. h.failing.starts;
    steps = λ j lt. h.failing.steps j (omega arith);
    no_bad = λ _ j lt. h.no_bad j (omega arith);
    no_init = λ _ j pos lt. h.no_init j pos (omega arith);
    distinct = λ _ j l lt lt'. h.distinct j l lt (omega arith);
  }

  pub NoFit-NoneFrom : (i : ℕ) (b : Switches) → NoFit i b → NoneFrom i
  NoFit-NoneFrom i b none_fits m ρ le h = none_fits ρ (IsShortest-Fit i m b ρ le h)

  -- what a check of simple paths leaves, with its answer
  pub record PathsChecked (i : ℕ) (closed : Bool) (s : State) : Type 0 where
    pub asserted : Asserted smt laws solver rules opt p ts un sw i s
    pub none_from : closed ≡ true → NoneFrom i

  PathsChecked-open :
      (i : ℕ) (s : State)
      → Asserted smt laws solver rules opt p ts un sw i s
      → PathsChecked i false s
  PathsChecked-open i s h = record { asserted = h; none_from = λ wrong. absurd (cc) }

  PathsChecked-closed :
      (i : ℕ) (s : State)
      → Asserted smt laws solver rules opt p ts un sw i s
      → (check_sat_assuming (any_start smt solver opt p ts) s).0 ≡ unsat
      → PathsChecked i true (check_sat_assuming (any_start smt solver opt p ts) s).1
  PathsChecked-closed i s h is_unsat = record {
    asserted = check-Asserted i (any_start smt solver opt p ts) s h;
    none_from = λ _.
        NoFit-NoneFrom i any_switches
          (unsat-NoFit i any_switches (any_start smt solver opt p ts) s any_start-Given h is_unsat);
  }

  if-Asserted :
      (c : Bool) (i : ℕ) (s r : State)
      → Asserted smt laws solver rules opt p ts un sw i s
      → Asserted smt laws solver rules opt p ts un sw i r
      → Asserted smt laws solver rules opt p ts un sw i (if c then s else r)
  if-Asserted true i s r h k = h
  if-Asserted false i s r h k = k

  eager-PathsChecked :
      (i : ℕ) (s s' : State) (closed : Bool)
      → Asserted smt laws solver rules opt p ts un sw i s
      → check_simple_path_eager smt solver opt p ts i (any_start smt solver opt p ts) s
        ≡ (closed, s')
      → PathsChecked i closed s'
  unfolding check_simple_path_eager
  eager-PathsChecked i s s' closed h run =
      let given = any_start smt solver opt p ts in
      let s0 =
        if opt.no_simple_path_check then s else assert_simple_paths smt solver opt p ts i 0 i s in
      let h0 : Asserted smt laws solver rules opt p ts un sw i s0 =
        if-Asserted opt.no_simple_path_check i s _ h (
          assert_simple_paths-Asserted smt laws solver rules opt p ts un sw i 0 i s (omega arith)
            h) in
      elim (unsat-cases (check_sat_assuming given s0).0) [
        | inl yes_unsat ↦
            let same : (closed ≡ true) × (s' ≡ (check_sat_assuming given s0).1) = ground arith in
            rw (same.0, same.1) (PathsChecked-closed i s0 h0 yes_unsat)
        | inr not_unsat ↦
            let same : (closed ≡ false) × (s' ≡ (check_sat_assuming given s0).1) = ground arith in
            rw (same.0, same.1)
              (PathsChecked-open i (check_sat_assuming given s0).1 (check-Asserted i given s0 h0))
      ]

  lazy-PathsChecked :
      (fuel i : ℕ) (s s' : State) (closed : Bool)
      → Asserted smt laws solver rules opt p ts un sw i s
      → lazy_loop smt solver opt p ts fuel i (any_start smt solver opt p ts) s ≡ ok (closed, s')
      → PathsChecked i closed s'
  unfolding lazy_loop
  lazy-PathsChecked zero i s s' closed h run = absurd (cc)
  lazy-PathsChecked (suc fuel) i s s' closed h run =
      let given = any_start smt solver opt p ts in
      let s1 = (check_sat_assuming given s).1 in
      let h1 = check-Asserted i given s h in
      let stops : (closed ≡ false) × (s' ≡ s1) → PathsChecked i closed s' =
        λ same. rw (same.0, same.1) (PathsChecked-open i s1 h1) in
      elim (Answer-split (check_sat_assuming given s).0) [
        | inr (inl yes_unsat) ↦
            let same : (closed ≡ true) × (s' ≡ s1) = ground arith in
            rw (same.0, same.1) (PathsChecked-closed i s h yes_unsat)
        | inr (inr gave_up) ↦ stops (ground arith)
        | inl yes_sat ↦ elim (Bool-cases opt.no_simple_path_check) [
          | inl unchecked ↦ stops (ground arith)
          | inr checked ↦ elim (List-split (violated smt solver opt p ts i 0 i s1)) [
            | inl simple ↦ stops (ground arith)
            | inr (t, rest, broken) ↦
                let valid =
                  subst (All (IsValid smt laws solver rules opt p ts un sw i)) broken (
                    violated-IsValid smt laws solver rules opt p ts un sw i i 0 s1 (omega arith)) in
                let s2 =
                  if opt.no_multi_call_simple_path_check
                  then assert_back smt solver opt p ts (t ∷ rest) s1
                  else solver.assert_formula t s1 in
                lazy-PathsChecked fuel i s2 s' closed
                  (if-Asserted opt.no_multi_call_simple_path_check i _ _
                    (assert_back-Asserted smt laws solver rules opt p ts un sw i (t ∷ rest) s1 valid
                      h1)
                    (assert-Asserted smt laws solver rules opt p ts un sw t s1 valid.0 h1))
                  (ground arith)
          ]
        ]
      ]

  pub check_simple_path-PathsChecked :
      (i : ℕ) (s s' : State) (closed : Bool)
      → Asserted smt laws solver rules opt p ts un sw i s
      → check_simple_path smt solver opt p ts i s ≡ ok (closed, s')
      → PathsChecked i closed s'
  unfolding check_simple_path check_simple_path_lazy
  check_simple_path-PathsChecked i s s' closed h run =
      let given = any_start smt solver opt p ts in
      let stops : (closed ≡ false) × (s' ≡ s) → PathsChecked i closed s' =
        λ same. rw (same.0, same.1) (PathsChecked-open i s h) in
      elim (List-split statevars) [
        | inl none_there ↦ stops (ground arith)
        | inr (v, rest, there) ↦ elim (Bool-cases opt.no_simple_path_check) [
          | inl unchecked ↦ stops (ground arith)
          | inr checked ↦ elim (Bool-cases opt.eager_simple_path_check) [
            | inl eager ↦ eager-PathsChecked i s s' closed h (ground arith)
            | inr lazy ↦ lazy-PathsChecked (suc (suc i * suc i)) i s s' closed h (ground arith)
          ]
        ]
      ]

  pub check_init_states-PathsChecked :
      (i : ℕ) (b : KInduction smt solver opt p ts) (s' : State) (closed : Bool)
      → (0 < i → 0 < b.next_k)
      → b.next_k ≤ i
      → Asserted smt laws solver rules opt p ts un sw i b.solver_state
      → check_init_states smt solver opt p ts i b ≡ (closed, s')
      → PathsChecked i closed s'
  unfolding check_init_states
  check_init_states-PathsChecked i b s' closed begun le h run =
      elim (Bool-cases (leb 1 i && not opt.no_ind_check_init_states)) [
        | inr unchecked ↦
            let same : (closed ≡ false) × (s' ≡ b.solver_state) = ground arith in
            rw (same.0, same.1) (PathsChecked-open i b.solver_state h)
        | inl checked ↦
            let given = only_start smt solver opt p ts in
            let s0 =
              assert_neg_inits smt solver opt p ts (suc i - b.next_k) b.next_k b.solver_state in
            let pos : 0 < i = ground arith in
            let h0 =
              assert_neg_inits-Asserted smt laws solver rules opt p ts un sw (suc i - b.next_k)
                b.next_k i b.solver_state (begun pos) (omega arith) h in
            let h1 = check-Asserted i given s0 h0 in
            elim (unsat-cases (check_sat_assuming given s0).0) [
              | inl yes_unsat ↦
                  let same : (closed ≡ true) × (s' ≡ (check_sat_assuming given s0).1) =
                    ground arith in
                  record {
                    asserted =
                        subst (Asserted smt laws solver rules opt p ts un sw i) (sym same.1) h1;
                    none_from = λ _.
                        NoFit-NoneFrom i only_switches
                          (unsat-NoFit i only_switches given s0 only_start-Given h0 yes_unsat);
                  }
              | inr not_unsat ↦
                  let same : (closed ≡ false) × (s' ≡ (check_sat_assuming given s0).1) =
                    ground arith in
                  rw (same.0, same.1) (PathsChecked-open i (check_sat_assuming given s0).1 h1)
            ]
      ]
