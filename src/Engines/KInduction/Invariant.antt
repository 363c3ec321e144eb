-- ===== src/Engines/KInduction/Invariant.antt =====
-- The formulas that k-induction asserts for good, and what a model of them is.
use pono.Base.{
  ℕ, zero, suc, ◌+◌, ◌-◌, ◌≤◌, ◌<◌, ◌≡◌, inl, inr, sym, subst, ◌∙◌, arith, true, false, not, ◌&&◌,
  ◌||◌, List, [], ◌∷◌, Eq, ==_refl, mem, all, All, All-append, Bool-cases, dec_lt, ltb,
}
use pono.Smt.{Smt}
use pono.Smt.Laws.{SmtLaws, Model, holds}
use pono.Smt.Solver.{Solver, SolverLaws, Satisfies, add_top}
use pono.Engines.Problem.{Problem, Unrolling, Trace}
use pono.Engines.KInduction.{
  KindOptions, KindSystem, some_differ, simple_path_constraint, assert_simple_paths, violated_from,
  violated, assert_back, assert_neg_inits, extend,
}
use pono.Engines.KInduction.System.{Switches, Switched, agree}

module _ {Term : Type 0} ⦃e : Eq Term⦄ (smt : Smt Term) (laws : SmtLaws smt) (solver : Solver Term)
    (rules : SolverLaws smt solver) (opt : KindOptions) (p : Problem Term) (ts : KindSystem Term)
    (un : Unrolling smt p) (sw : Switched smt p ts un) where
  open smt use {make_or, make_not, make_equal}
  open solver use {State, assert_formula, frames, get_value}
  open p use {init, trans, bad, at_time}
  open ts use {
    statevars, has_no_update, sel_init, sel_neg_init_terms, sel_neg_bad_state_terms,
    sel_simple_path_terms,
  }

  -- the sequence meets the constraints up to the bound `i` that are not switched off
  pub record Fit (i : ℕ) (b : Switches) (π : Trace smt p un) : Type 0 where
    pub starts : b.start ≡ false → sw.init_in (π 0) ≡ true
    pub steps : (j : ℕ) → j < i → un.sees trans (π j) (π (suc j)) ≡ true
    pub no_bad : b.bad ≡ false → (j : ℕ) → j < i → sw.bad_in (π j) ≡ false
    pub no_init : b.later ≡ false → (j : ℕ) → 0 < j → j ≤ i → sw.init_in (π j) ≡ false
    pub distinct :
        b.path ≡ false
        → (j l : ℕ) → j < l
        → l ≤ i
        → agree smt p ts un sw (ltb 0 j) (π j) (π l) ≡ false

  pub Fit-le : {i k : ℕ} {b : Switches} {π : Trace smt p un} → i ≤ k → Fit k b π → Fit i b π
  Fit-le le h = record {
    starts = h.starts;
    steps = λ j lt. h.steps j (omega arith);
    no_bad = λ on j lt. h.no_bad on j (omega arith);
    no_init = λ on j pos lt. h.no_init on j pos (omega arith);
    distinct = λ on j l lt lt'. h.distinct on j l lt (omega arith);
  }

  -- the formula holds in every sequence that meets the constraints
  abbrev pub IsValid : ℕ → Term → Type 0
  IsValid i t = (b : Switches) (π : Trace smt p un) → Fit i b π → holds smt (sw.writes b π) t ≡ true

  -- The assertions allow every sequence that meets the constraints, and a model of them is a path, which is
  -- initial where the selector says so.
  pub record Asserted (i : ℕ) (s : State) : Type 0 where
    pub allows :
        (b : Switches) (π : Trace smt p un)
        → Fit i b π
        → Satisfies smt solver (sw.writes b π) (frames s)
    pub starts :
        (σ : Model smt)
        → Satisfies smt solver σ (frames s)
        → holds smt σ sel_init ≡ false
        → holds smt σ (at_time init 0) ≡ true
    pub steps :
        (σ : Model smt)
        → Satisfies smt solver σ (frames s)
        → (j : ℕ) → j < i
        → holds smt σ (at_time trans j) ≡ true

  Satisfies-add_top :
      (σ : Model smt) (t : Term) (fs : List (List Term))
      → Satisfies smt solver σ (add_top t fs)
      → (holds smt σ t ≡ true) × Satisfies smt solver σ fs
  Satisfies-add_top σ t [] h = (h.0.0, tt)
  Satisfies-add_top σ t (f ∷ fs) h = (h.0.0, (h.0.1, h.1))

  add_top-Satisfies :
      (σ : Model smt) (t : Term) (fs : List (List Term))
      → holds smt σ t ≡ true
      → Satisfies smt solver σ fs
      → Satisfies smt solver σ (add_top t fs)
  add_top-Satisfies σ t [] h k = ((h, tt), tt)
  add_top-Satisfies σ t (f ∷ fs) h k = ((h, k.0), k.1)

  pub assert-Satisfies :
      (σ : Model smt) (t : Term) (s : State)
      → holds smt σ t ≡ true
      → Satisfies smt solver σ (frames s)
      → Satisfies smt solver σ (frames (assert_formula t s))
  assert-Satisfies σ t s h k =
      subst (Satisfies smt solver σ) (sym (rules.frames-assert t s))
        (add_top-Satisfies σ t (frames s) h k)

  pub Satisfies-assert :
      (σ : Model smt) (t : Term) (s : State)
      → Satisfies smt solver σ (frames (assert_formula t s))
      → (holds smt σ t ≡ true) × Satisfies smt solver σ (frames s)
  Satisfies-assert σ t s h =
      Satisfies-add_top σ t (frames s) (subst (Satisfies smt solver σ) (rules.frames-assert t s) h)

  pub Asserted-same : {i : ℕ} {s s' : State} → frames s' ≡ frames s → Asserted i s → Asserted i s'
  Asserted-same same h = record {
    allows = λ b π fit. subst (Satisfies smt solver (sw.writes b π)) (sym same) (h.allows b π fit);
    starts = λ σ fits. h.starts σ (subst (Satisfies smt solver σ) same fits);
    steps = λ σ fits. h.steps σ (subst (Satisfies smt solver σ) same fits);
  }

  pub assert-Asserted :
      {i : ℕ} (t : Term) (s : State) → IsValid i t → Asserted i s → Asserted i (assert_formula t s)
  assert-Asserted t s valid h = record {
    allows = λ b π fit. assert-Satisfies (sw.writes b π) t s (valid b π fit) (h.allows b π fit);
    starts = λ σ fits. h.starts σ (Satisfies-assert σ t s fits).1;
    steps = λ σ fits. h.steps σ (Satisfies-assert σ t s fits).1;
  }

  -- the disjunction over the variables holds where two states differ
  some_differ-holds :
      (b : Switches) (π : Trace smt p un) (j l : ℕ) (vs : List Term) (d : Term)
      → j < l
      → ((v : Term) → mem v vs ≡ true → mem v statevars ≡ true)
      → (holds smt (sw.writes b π) d
          || not (all (λ v. ltb 0 j && has_no_update v || sw.same v (π j) (π l)) vs))
        ≡ true
      → holds smt (sw.writes b π) (some_differ smt solver opt p ts j l vs d) ≡ true
  unfolding some_differ
  some_differ-holds b π j l [] d lt within h = ground arith
  some_differ-holds b π j l (v ∷ vs) d lt within h =
      let positive : ltb 0 l ≡ true = ground arith in
      let known : mem v statevars ≡ true = within v (ground (arith, ==_refl v)) in
      let eq = make_equal (at_time v j) (at_time v l) in
      some_differ-holds b π j l vs _ lt (λ u m. within u (ground arith))
        (ground (
          arith,
          sw.writes_same b π v j l known,
          laws.holds-not (sw.writes b π) eq,
          laws.holds-or (sw.writes b π) d (make_not eq),
        ))

  pub simple_path_constraint-IsValid :
      (i j l : ℕ) → j < l → l ≤ i → IsValid i (simple_path_constraint smt solver opt p ts j l)
  unfolding simple_path_constraint
  simple_path_constraint-IsValid i j l lt le b π fit =
      let σ = sw.writes b π in
      let differ = some_differ smt solver opt p ts j l statevars (smt.make_bool false) in
      let or_law = laws.holds-or σ differ sel_simple_path_terms in
      elim (Bool-cases b.path) [
        | inl off ↦ ground (arith, or_law, sw.writes_path b π)
        | inr on ↦
            let apart = fit.distinct on j l lt le in
            let holds_differ =
              some_differ-holds b π j l statevars (smt.make_bool false) lt (λ v m. m)
                (ground arith) in
            ground (arith, or_law)
      ]

  neg_init-IsValid :
      (i j : ℕ) → 0 < j → j ≤ i → IsValid i (make_or sel_neg_init_terms (at_time (make_not init) j))
  neg_init-IsValid i j pos le b π fit =
      let or_law = laws.holds-or (sw.writes b π) sel_neg_init_terms (at_time (make_not init) j) in
      elim (Bool-cases b.later) [
        | inl off ↦ ground (arith, or_law, sw.writes_later b π)
        | inr on ↦ ground (arith, or_law, sw.writes_not_init b π j, fit.no_init on j pos le)
      ]

  pub assert_simple_paths-Asserted :
      (n j i : ℕ) (s : State)
      → j + n ≤ i
      → Asserted i s
      → Asserted i (assert_simple_paths smt solver opt p ts n j i s)
  unfolding assert_simple_paths
  assert_simple_paths-Asserted zero j i s le h = h
  assert_simple_paths-Asserted (suc n) j i s le h =
      assert_simple_paths-Asserted n (suc j) i _ (omega arith)
        (assert-Asserted _ s (simple_path_constraint-IsValid i j i (omega arith) (omega arith)) h)

  pub assert_neg_inits-Asserted :
      (n j i : ℕ) (s : State)
      → 0 < j
      → j + n ≤ suc i
      → Asserted i s
      → Asserted i (assert_neg_inits smt solver opt p ts n j s)
  unfolding assert_neg_inits
  assert_neg_inits-Asserted zero j i s pos le h = h
  assert_neg_inits-Asserted (suc n) j i s pos le h =
      assert_neg_inits-Asserted n (suc j) i _ (omega arith) (omega arith)
        (assert-Asserted _ s (neg_init-IsValid i j pos (omega arith)) h)

  violated_from-IsValid :
      (n i j l : ℕ) (s : State)
      → j < l
      → l + n ≤ suc i
      → All (IsValid i) (violated_from smt solver opt p ts n j l s)
  unfolding violated_from
  violated_from-IsValid zero i j l s lt le = tt
  violated_from-IsValid (suc n) i j l s lt le =
      let rest = violated_from-IsValid n i j (suc l) s (omega arith) (omega arith) in
      elim (Bool-cases (get_value (simple_path_constraint smt solver opt p ts j l) s)) [
        | inl kept ↦ rw kept rest
        | inr broken ↦ rw broken (simple_path_constraint-IsValid i j l lt (omega arith), rest)
      ]

  pub violated-IsValid :
      (n i j : ℕ) (s : State) → j + n ≤ i → All (IsValid i) (violated smt solver opt p ts n j i s)
  unfolding violated
  violated-IsValid zero i j s le = tt
  violated-IsValid (suc n) i j s le =
      All-append (IsValid i) (violated_from smt solver opt p ts (i - j) j (suc j) s) _
        (violated_from-IsValid (i - j) i j (suc j) s (omega arith) (omega arith))
        (violated-IsValid n i (suc j) s (omega arith))

  pub assert_back-Asserted :
      (i : ℕ) (cs : List Term) (s : State)
      → All (IsValid i) cs
      → Asserted i s
      → Asserted i (assert_back smt solver opt p ts cs s)
  unfolding assert_back
  assert_back-Asserted i [] s valid h = h
  assert_back-Asserted i (c ∷ cs) s valid h =
      assert-Asserted c _ valid.0 (assert_back-Asserted i cs s valid.1 h)

  -- the next transition and the denied bad states before it
  extend_once :
      (j : ℕ) (s : State)
      → Asserted j s
      → Asserted (suc j) (
          assert_formula
            (make_or sel_neg_bad_state_terms (at_time (make_not bad) j))
            (assert_formula (at_time trans j) s))
  extend_once j s h =
      let c = make_or sel_neg_bad_state_terms (at_time (make_not bad) j) in
      let t = at_time trans j in
      record {
        allows = λ b π fit.
            let σ = sw.writes b π in
            let or_law = laws.holds-or σ sel_neg_bad_state_terms (at_time (make_not bad) j) in
            let denied : holds smt σ c ≡ true = elim (Bool-cases b.bad) [
              | inl off ↦ ground (arith, or_law, sw.writes_off b π)
              | inr on ↦
                  ground (arith, or_law, sw.writes_not_bad b π j, fit.no_bad on j (omega arith))
            ] in
            assert-Satisfies σ c _ denied (
              assert-Satisfies σ t s (sw.writes_trans b π j ∙ fit.steps j (omega arith))
                (h.allows b π (Fit-le (omega arith) fit)));
        starts = λ σ fits. h.starts σ (Satisfies-assert σ t s (Satisfies-assert σ c _ fits).1).1;
        steps = λ σ fits k lt.
            let (here, below) = Satisfies-assert σ t s (Satisfies-assert σ c _ fits).1 in
            elim (dec_lt k j) [
              | yes old ↦ h.steps σ below k old
              | no new ↦
                  let eq : j ≡ k = omega arith in
                  subst (λ i. holds smt σ (at_time trans i) ≡ true) eq here
            ];
      }

  pub extend-Asserted :
      (n j : ℕ) (s : State) → Asserted j s → Asserted (j + n) (extend smt solver opt p ts n j s)
  unfolding extend
  extend-Asserted zero j s h = let eq : j ≡ j + 0 = omega arith in subst (λ i. Asserted i s) eq h
  extend-Asserted (suc n) j s h =
      let eq : suc j + n ≡ j + suc n = omega arith in
      subst (λ i. Asserted i (extend smt solver opt p ts (suc n) j s)) eq
        (extend-Asserted n (suc j) _ (extend_once j s h))
