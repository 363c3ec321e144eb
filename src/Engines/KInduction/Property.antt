-- ===== src/Engines/KInduction/Property.antt =====
-- The checks of engines/kinduction.cpp with the bad states of the bound asserted: the inductive check of the
-- property, and the base case.
use pono.Base.{
  ℕ, zero, suc, ◌+◌, ◌-◌, ◌≤◌, ◌<◌, ◌≡◌, ◌⊎◌, inl, inr, refl, sym, ap, subst, ◌∙◌, arith, Bool,
  true, false, not, ◌&&◌, ◌||◌, List, [], ◌∷◌, Eq, all, Bool-cases, dec_lt, ltb, if◌then◌else◌,
}
use pono.Smt.{Smt}
use pono.Smt.Laws.{SmtLaws, Model, holds}
use pono.Smt.Solver.{Solver, SolverLaws, Satisfies, Decides, Answer, sat, unsat, unknown, drop_top}
use pono.Engines.Problem.{Problem, Unrolling, Trace, Cex}
use pono.Engines.Paths.{skip, skip-after}
use pono.Engines.KInduction.{
  KindOptions, KindSystem, any_start, base_start, push_bad, check_property, check_base,
}
use pono.Engines.KInduction.System.{Switches, Switched}
use pono.Engines.KInduction.Invariant.{Fit, Asserted}
use pono.Engines.KInduction.Checks.{
  Answer-split, any_switches, base_switches, IsShortest, NoneFrom, any_start-Given,
  base_start-Given, IsShortest-Fit,
}
use pono.Engines.KInduction.FinalTotal.{model-Cex}

module _ {Term : Type 0} ⦃e : Eq Term⦄ (smt : Smt Term) (laws : SmtLaws smt) (solver : Solver Term)
    (rules : SolverLaws smt solver) (opt : KindOptions) (p : Problem Term) (ts : KindSystem Term)
    (un : Unrolling smt p) (sw : Switched smt p ts un) where
  open smt use {make_not}
  open solver use {State, frames, assert_formula, push, pop, check_sat_assuming}
  open p use {trans, bad, at_time}
  open ts use {statevars, has_no_update}

  -- states that agree on more variables agree on fewer
  agree_more :
      (c d : Bool) (s r : un.State) (vs : List Term)
      → (c ≡ true → d ≡ true)
      → all (λ v. d && has_no_update v || sw.same v s r) vs ≡ false
      → all (λ v. c && has_no_update v || sw.same v s r) vs ≡ false
  agree_more c d s r [] more h = h
  agree_more c d s r (v ∷ vs) more h = ground (arith, agree_more c d s r vs more, more)

  -- the end of a failing sequence that cannot be cut short
  suffix-Fit :
      (i m : ℕ) (ρ : Trace smt p un)
      → i ≤ m
      → IsShortest smt laws solver rules opt p ts un sw ρ m
      → Fit smt laws solver rules opt p ts un sw i any_switches (skip 0 (m - i) ρ)
  suffix-Fit i m ρ le h =
      let at' : (k : ℕ) → skip 0 (m - i) ρ k ≡ ρ (k + (m - i)) =
        λ k. skip-after 0 (m - i) ρ k (k + (m - i)) (omega arith) refl in
      record {
        starts = λ wrong. absurd (cc);
        steps = λ j lt.
            let next : skip 0 (m - i) ρ (suc j) ≡ ρ (suc (j + (m - i))) =
              skip-after 0 (m - i) ρ (suc j) (suc (j + (m - i))) (omega arith) (omega arith) in
            rw (at' j, next) (h.failing.steps (j + (m - i)) (omega arith));
        no_bad = λ _ j lt. ap sw.bad_in (at' j) ∙ h.no_bad (j + (m - i)) (omega arith);
        no_init = λ wrong. absurd (cc);
        distinct = λ _ j l lt lt'.
            rw (at' j, at' l)
              (agree_more (ltb 0 j) (ltb 0 (j + (m - i))) (ρ (j + (m - i))) (ρ (l + (m - i)))
                statevars (λ pos. ground arith)
                (h.distinct (j + (m - i)) (l + (m - i)) (omega arith) (omega arith)));
      }

  -- the solver with the bad states of the bound `i` on top of `s`
  abbrev with_bad : ℕ → State → State
  with_bad i s = assert_formula (at_time bad i) (push s)

  frames-with_bad : (i : ℕ) (s : State) → frames (with_bad i s) ≡ (at_time bad i ∷ []) ∷ frames s
  frames-with_bad i s =
      rules.frames-assert (at_time bad i) (push s)
      ∙ ap (pono.Smt.Solver.add_top (at_time bad i)) (rules.frames-push s)

  pub frames-pop_push_bad :
      (i : ℕ) (s r : State)
      → frames r ≡ frames (push_bad smt solver opt p ts i s)
      → frames (pop r) ≡ frames s
  unfolding push_bad
  frames-pop_push_bad i s r same =
      let on_top : drop_top (frames (push_bad smt solver opt p ts i s)) ≡ frames s =
        elim (Bool-cases
          (not opt.no_ind_check || not opt.no_ind_check_property || not opt.one_time_base_check)) [
            | inl y ↦ ground (arith, frames-with_bad i s)
            | inr n ↦ ground (arith, rules.frames-push s)
          ] in
      rules.frames-pop r ∙ ap drop_top same ∙ on_top

  with_bad-Satisfies :
      (b : Switches) (π : Trace smt p un) (i : ℕ) (s : State)
      → Asserted smt laws solver rules opt p ts un sw i s
      → Fit smt laws solver rules opt p ts un sw i b π
      → sw.bad_in (π i) ≡ true
      → Satisfies smt solver (sw.writes b π) (frames (with_bad i s))
  with_bad-Satisfies b π i s h fit is_bad =
      subst (Satisfies smt solver (sw.writes b π)) (sym (frames-with_bad i s))
        ((sw.writes_bad b π i ∙ is_bad, tt), h.allows b π fit)

  -- what the checks leave: the frames, and what their answers exclude or show
  pub record PropertyChecked (i : ℕ) (s : State) (proved : Bool) (s' : State) : Type 0 where
    pub same : frames s' ≡ frames (push_bad smt solver opt p ts i s)
    pub none_from : proved ≡ true → NoneFrom smt laws solver rules opt p ts un sw i

  pub check_property-PropertyChecked :
      (i : ℕ) (s s' : State) (proved : Bool)
      → Asserted smt laws solver rules opt p ts un sw i s
      → check_property smt solver opt p ts (push_bad smt solver opt p ts i s) ≡ (proved, s')
      → PropertyChecked i s proved s'
  unfolding check_property push_bad
  check_property-PropertyChecked i s s' proved h run = elim (Bool-cases opt.no_ind_check_property) [
    | inl unchecked ↦
        let eq : (proved ≡ false) × (s' ≡ push_bad smt solver opt p ts i s) = ground arith in
        record { same = ap frames eq.1; none_from = λ wrong. absurd (cc (eq.0)) }
    | inr checked ↦
        let given = any_start smt solver opt p ts in
        let s0 = with_bad i s in
        let pushed : push_bad smt solver opt p ts i s ≡ s0 = ground arith in
        let run' : check_property smt solver opt p ts s0 ≡ (proved, s') =
          subst (λ r. check_property smt solver opt p ts r ≡ (proved, s')) pushed run in
        let after : s' ≡ (check_sat_assuming given s0).1 =
          elim (Answer-split (check_sat_assuming given s0).0) [
            | inl a ↦ ground arith
            | inr (inl a) ↦ ground arith
            | inr (inr a) ↦ ground arith
          ] in
        record {
          same = ap frames after ∙ rules.frames-check given s0 ∙ ap frames (sym pushed);
          none_from = λ y m ρ le shortest.
              let is_unsat : (check_sat_assuming given s0).0 ≡ unsat =
                elim (Answer-split (check_sat_assuming given s0).0) [
                  | inl a ↦ absurd (ground arith)
                  | inr (inl a) ↦ a
                  | inr (inr a) ↦ absurd (ground arith)
                ] in
              let π = skip 0 (m - i) ρ in
              let ends : sw.bad_in (π i) ≡ true =
                ap sw.bad_in (skip-after 0 (m - i) ρ i m (omega arith) (omega arith))
                ∙ shortest.failing.ends in
              rules.unsat_sound given s0 is_unsat (sw.writes any_switches π) (
                any_start-Given smt laws solver rules opt p ts un sw π,
                with_bad-Satisfies any_switches π i s h (suffix-Fit i m ρ le shortest) ends,
              );
        }
  ]

  first_given :
      (σ : Model smt)
      → pono.Base.All (λ t. holds smt σ t ≡ true) (base_start smt solver opt p ts)
      → holds smt σ (make_not ts.sel_init) ≡ true
  unfolding base_start
  first_given σ h = h.0

  pub record BaseChecked (i : ℕ) (s : State) (failed : Bool) (s' : State) : Type 0 where
    pub same : frames s' ≡ frames (push_bad smt solver opt p ts i s)
    pub found : failed ≡ true → (m : ℕ) × (m ≤ i) × (π : Trace smt p un) × Cex smt p un π m
    pub none_at :
        failed ≡ false
        → opt.one_time_base_check ≡ false
        → (ρ : Trace smt p un) → IsShortest smt laws solver rules opt p ts un sw ρ i
        → ⊥

  pub check_base-BaseChecked :
      Decides smt solver
      → (i : ℕ) (s s1 s' : State) (failed : Bool)
      → Asserted smt laws solver rules opt p ts un sw i s
      → frames s1 ≡ frames (push_bad smt solver opt p ts i s)
      → check_base smt solver opt p ts s1 ≡ (failed, s')
      → BaseChecked i s failed s'
  unfolding check_base push_bad
  check_base-BaseChecked decides i s s1 s' failed h same1 run =
      elim (Bool-cases opt.one_time_base_check) [
        | inl unchecked ↦
            let eq : (failed ≡ false) × (s' ≡ s1) = ground arith in
            record {
              same = ap frames eq.1 ∙ same1;
              found = λ wrong. absurd (cc (eq.0));
              none_at = λ _ wrong. absurd (cc (unchecked));
            }
        | inr checked ↦
            let given = base_start smt solver opt p ts in
            let pushed : push_bad smt solver opt p ts i s ≡ with_bad i s = ground arith in
            let same : frames s1 ≡ frames (with_bad i s) = same1 ∙ ap frames pushed in
            let after : s' ≡ (check_sat_assuming given s1).1 =
              elim (Answer-split (check_sat_assuming given s1).0) [
                | inl a ↦ ground arith
                | inr (inl a) ↦ ground arith
                | inr (inr a) ↦ ground arith
              ] in
            record {
              same = ap frames after ∙ rules.frames-check given s1 ∙ same1;
              found = λ y.
                  let is_sat : (check_sat_assuming given s1).0 ≡ sat =
                    elim (Answer-split (check_sat_assuming given s1).0) [
                      | inl a ↦ a
                      | inr (inl a) ↦ absurd (ground arith)
                      | inr (inr a) ↦ absurd (ground arith)
                    ] in
                  let (σ, fits, values) = rules.sat_model given s1 is_sat in
                  let (bad_i, below) =
                    subst (Satisfies smt solver σ) (same ∙ frames-with_bad i s) fits.1 in
                  (
                    i,
                    omega arith,
                    un.reads σ,
                    model-Cex smt laws solver rules opt p ts un sw σ i i s (omega arith) h below
                        (first_given σ fits.0) bad_i.0,
                  );
              none_at = λ n _ ρ shortest.
                  let is_unsat : (check_sat_assuming given s1).0 ≡ unsat =
                    elim (Answer-split (check_sat_assuming given s1).0) [
                      | inl a ↦ absurd (ground arith)
                      | inr (inl a) ↦ a
                      | inr (inr a) ↦ absurd (decides given s1 a)
                    ] in
                  rules.unsat_sound given s1 is_unsat (sw.writes base_switches ρ) (
                    base_start-Given smt laws solver rules opt p ts un sw ρ,
                    subst (Satisfies smt solver (sw.writes base_switches ρ)) (sym same) (
                        with_bad-Satisfies base_switches ρ i s h
                          (IsShortest-Fit smt laws solver rules opt p ts un sw i i base_switches ρ
                            (omega arith) shortest)
                          shortest.failing.ends),
                  );
            }
      ]
