-- ===== src/Engines/Bmc/Formulas.antt =====
-- What the assertions of the engine say of a model.
use pono.Base.{
  ℕ, zero, suc, ◌+◌, ◌-◌, ◌≤◌, ◌<◌, ◌≡◌, ◌⊎◌, inl, inr, sym, ap, subst, ◌∙◌, arith, Bool, true,
  false, List, [], ◌∷◌, Eq, Bool-cases, dec_lt,
}
use pono.Smt.{Smt}
use pono.Smt.Laws.{SmtLaws, Model, holds}
use pono.Smt.Solver.{Solver, SolverLaws, Satisfies, add_top, drop_top}
use pono.Engines.Problem.{Problem}
use pono.Engines.Bmc.{
  BmcOptions, block, bad_clause, bad_between, first_bad, bmc_interval_get_cex_ub,
}

module _ {Term : Type 0} ⦃e : Eq Term⦄ (smt : Smt Term) (laws : SmtLaws smt) (solver : Solver Term)
    (rules : SolverLaws smt solver) (opt : BmcOptions) (p : Problem Term) where
  open smt use {make_not, make_or, make_bool}
  open solver use {State, assert_formula, push, pop, frames, get_value}
  open p use {bad, at_time}

  abbrev pub bad_in : Model smt → ℕ → Bool
  bad_in σ j = holds smt σ (at_time bad j)

  -- the model satisfies what is asserted
  abbrev pub Fits : Model smt → State → Type 0
  Fits σ s = Satisfies smt solver σ (frames s)

  Satisfies-add_top :
      (σ : Model smt) (t : Term) (fs : List (List Term))
      → Satisfies smt solver σ (add_top t fs)
      → (holds smt σ t ≡ true) × Satisfies smt solver σ fs
  Satisfies-add_top σ t [] h = (h.0.0, tt)
  Satisfies-add_top σ t (f ∷ fs) h = (h.0.0, (h.0.1, h.1))

  add_top-Satisfies :
      (σ : Model smt) (t : Term) (fs : List (List Term))
      → holds smt σ t ≡ true
      → Satisfies smt solver σ fs
      → Satisfies smt solver σ (add_top t fs)
  add_top-Satisfies σ t [] h k = ((h, tt), tt)
  add_top-Satisfies σ t (f ∷ fs) h k = ((h, k.0), k.1)

  pub Fits-assert :
      (σ : Model smt) (t : Term) (s : State)
      → Fits σ (assert_formula t s)
      → (holds smt σ t ≡ true) × Fits σ s
  Fits-assert σ t s h =
      Satisfies-add_top σ t (frames s) (subst (Satisfies smt solver σ) (rules.frames-assert t s) h)

  pub assert-Fits :
      (σ : Model smt) (t : Term) (s : State)
      → holds smt σ t ≡ true
      → Fits σ s
      → Fits σ (assert_formula t s)
  assert-Fits σ t s h k =
      subst (Satisfies smt solver σ) (sym (rules.frames-assert t s))
        (add_top-Satisfies σ t (frames s) h k)

  pub Fits-push : (σ : Model smt) (s : State) → Fits σ (push s) → Fits σ s
  Fits-push σ s h = (subst (Satisfies smt solver σ) (rules.frames-push s) h).1

  pub push-Fits : (σ : Model smt) (s : State) → Fits σ s → Fits σ (push s)
  push-Fits σ s h = subst (Satisfies smt solver σ) (sym (rules.frames-push s)) (tt, h)

  -- the frame of `s` on top of the frames `fs`
  abbrev pub IsAbove : List (List Term) → State → Type 0
  IsAbove fs s = (f : List Term) × (frames s ≡ f ∷ fs)

  pub IsAbove-push : (s : State) → IsAbove (frames s) (push s)
  IsAbove-push s = ([], rules.frames-push s)

  pub IsAbove-assert :
      {fs : List (List Term)} (t : Term) (s : State)
      → IsAbove fs s
      → IsAbove fs (assert_formula t s)
  IsAbove-assert t s (f, eq) = (t ∷ f, rules.frames-assert t s ∙ ap (add_top t) eq)

  pub frames-pop_above : {fs : List (List Term)} (s : State) → IsAbove fs s → frames (pop s) ≡ fs
  frames-pop_above s (f, eq) = rules.frames-pop s ∙ ap drop_top eq

  pub Fits-block :
      (σ : Model smt) (n j : ℕ) (s : State)
      → Fits σ (block smt solver opt p n j s)
      → Fits σ s × ((k : ℕ) → j ≤ k → k < j + n → bad_in σ k ≡ false)
  unfolding block
  Fits-block σ zero j s h = (h, λ k le lt. absurd (omega arith))
  Fits-block σ (suc n) j s h =
      let (rest, above) = Fits-block σ n (suc j) _ h in
      let (here, below) = Fits-assert σ (make_not (at_time bad j)) s rest in
      let no_bad : bad_in σ j ≡ false = ground (arith, laws.holds-not σ (at_time bad j)) in
      (
        below,
        λ k le lt. elim (dec_lt j k) [
          | yes more ↦ above k more (omega arith)
          | no less ↦ let eq : j ≡ k = omega arith in subst (λ i. bad_in σ i ≡ false) eq no_bad
        ],
      )

  pub block-Fits :
      (σ : Model smt) (n j : ℕ) (s : State)
      → Fits σ s
      → ((k : ℕ) → j ≤ k → k < j + n → bad_in σ k ≡ false)
      → Fits σ (block smt solver opt p n j s)
  unfolding block
  block-Fits σ zero j s h k = h
  block-Fits σ (suc n) j s h no_bad =
      block-Fits σ n (suc j) _
        (assert-Fits σ (make_not (at_time bad j)) s
          (ground (arith, laws.holds-not σ (at_time bad j), no_bad j (omega arith) (omega arith)))
          h)
        (λ k le lt. no_bad k (omega arith) (omega arith))

  pub IsAbove-block :
      {fs : List (List Term)} (n j : ℕ) (s : State)
      → IsAbove fs s
      → IsAbove fs (block smt solver opt p n j s)
  unfolding block
  IsAbove-block zero j s h = h
  IsAbove-block (suc n) j s h =
      IsAbove-block n (suc j) _ (IsAbove-assert (make_not (at_time bad j)) s h)

  -- a bound of the interval at which the state is bad
  abbrev pub BadIn : Model smt → ℕ → ℕ → Type 0
  BadIn σ lb ub = (k : ℕ) × (lb ≤ k) × (k ≤ ub) × (bad_in σ k ≡ true)

  holds-bad_clause :
      (σ : Model smt) (n j : ℕ) (c : Term)
      → holds smt σ (bad_clause smt solver opt p n j c) ≡ true
      → (holds smt σ c ≡ true) ⊎ ((k : ℕ) × (j ≤ k) × (k < j + n) × (bad_in σ k ≡ true))
  unfolding bad_clause
  holds-bad_clause σ zero j c h = inl h
  holds-bad_clause σ (suc n) j c h = elim (holds-bad_clause σ n (suc j) _ h) [
    | inr (k, le, lt, b) ↦ inr (k, omega arith, omega arith, b)
    | inl head ↦ elim (Bool-cases (holds smt σ c)) [
      | inl y ↦ inl y
      | inr n' ↦
          inr (j, omega arith, omega arith, ground (arith, laws.holds-or σ c (at_time bad j)))
    ]
  ]

  bad_clause-holds :
      (σ : Model smt) (n j : ℕ) (c : Term)
      → (holds smt σ c ≡ true) ⊎ ((k : ℕ) × (j ≤ k) × (k < j + n) × (bad_in σ k ≡ true))
      → holds smt σ (bad_clause smt solver opt p n j c) ≡ true
  unfolding bad_clause
  bad_clause-holds σ zero j c (inl h) = h
  bad_clause-holds σ zero j c (inr (k, le, lt, b)) = absurd (omega arith)
  bad_clause-holds σ (suc n) j c (inl h) =
      bad_clause-holds σ n (suc j) _ (inl (ground (arith, laws.holds-or σ c (at_time bad j))))
  bad_clause-holds σ (suc n) j c (inr (k, le, lt, b)) =
      bad_clause-holds σ n (suc j) _ (elim (dec_lt j k) [
        | yes more ↦ inr (k, more, omega arith, b)
        | no less ↦
            let eq : k ≡ j = omega arith in
            let b' : bad_in σ j ≡ true = subst (λ i. bad_in σ i ≡ true) eq b in
            inl (ground (arith, laws.holds-or σ c (at_time bad j)))
      ])

  pub holds-bad_between :
      (σ : Model smt) (lb ub : ℕ)
      → holds smt σ (bad_between smt solver opt p lb ub) ≡ true
      → BadIn σ lb ub
  unfolding bad_between
  holds-bad_between σ lb ub h = elim (holds-bad_clause σ (suc ub - lb) lb (make_bool false) h) [
    | inl no_clause ↦ absurd (ground (arith, laws.holds-bool σ false))
    | inr (k, le, lt, b) ↦ (k, le, omega arith, b)
  ]

  pub bad_between-holds :
      (σ : Model smt) (lb ub : ℕ)
      → BadIn σ lb ub
      → holds smt σ (bad_between smt solver opt p lb ub) ≡ true
  unfolding bad_between
  bad_between-holds σ lb ub (k, le, lt, b) =
      bad_clause-holds σ (suc ub - lb) lb (make_bool false) (inr (k, le, omega arith, b))

  -- the first bad bound that the values show
  first_bad_lem :
      (σ : Model smt) (n j k : ℕ) (s : State)
      → ((t : Term) → get_value t s ≡ holds smt σ t)
      → j ≤ k
      → k < j + n
      → bad_in σ k ≡ true
      → (j ≤ first_bad smt solver opt p n j s)
        × (first_bad smt solver opt p n j s ≤ k)
        × (bad_in σ (first_bad smt solver opt p n j s) ≡ true)
  unfolding first_bad
  first_bad_lem σ zero j k s v le lt b = absurd (omega arith)
  first_bad_lem σ (suc n) j k s v le lt b = elim (Bool-cases (get_value (at_time bad j) s)) [
    | inl here ↦
        let b' : bad_in σ j ≡ true = sym (v (at_time bad j)) ∙ here in
        rw (here, first_bad) (omega arith, le, b')
    | inr gone ↦
        let later : suc j ≤ k = elim (dec_lt j k) [
          | yes more ↦ more
          | no less ↦
              let eq : k ≡ j = omega arith in
              let b' : bad_in σ j ≡ true = subst (λ i. bad_in σ i ≡ true) eq b in
              absurd (ground (arith, v (at_time bad j)))
        ] in
        let (l, u, bb) = first_bad_lem σ n (suc j) k s v later (omega arith) b in
        rw (gone, first_bad) (omega (arith, l), u, bb)
  ]

  pub cex_ub_lem :
      (σ : Model smt) (lb ub : ℕ) (s : State)
      → ((t : Term) → get_value t s ≡ holds smt σ t)
      → BadIn σ lb ub
      → (lb ≤ bmc_interval_get_cex_ub smt solver opt p lb ub s)
        × (bmc_interval_get_cex_ub smt solver opt p lb ub s ≤ ub)
        × (bad_in σ (bmc_interval_get_cex_ub smt solver opt p lb ub s) ≡ true)
  unfolding bmc_interval_get_cex_ub
  cex_ub_lem σ lb ub s v (k, le, lt, b) =
      let (l, u, bb) = first_bad_lem σ (suc ub - lb) lb k s v le (omega arith) b in
      (l, omega (arith, u), bb)
