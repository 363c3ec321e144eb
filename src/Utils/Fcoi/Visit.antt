-- ===== src/Utils/Fcoi/Visit.antt =====
-- The walk of `compute_term_coi`: what has been visited is closed under children, and its variables are collected.
use pono.Base.{
  ℕ, zero, suc, ◌<◌, ◌≡◌, inl, inr, refl, arith, true, false, not, ◌&&◌, ◌||◌, List, [], ◌∷◌, Eq,
  ◌==◌, ==_iff, mem, insert, mem-insert, sum_map, Bool-cases, ok, ap,
}
use pono.Smt.{Smt}
use pono.Smt.Laws.{SmtLaws}
use pono.Ts.{TransitionSystem}
use pono.Ts.Symbols.Contains.{
  push_children, sum_map-push_children, mem-push_children, mem_of_any, le-sum_map,
}
use pono.Utils.Fcoi.{Found, collect, term_loop, compute_term_coi, compute_terms_coi}

module _ {Term : Type 0} ⦃e : Eq Term⦄ (smt : Smt Term) (laws : SmtLaws smt)
    (ts : TransitionSystem Term) where
  open smt use {is_symbol, is_symbolic_const, children, size, free_symbols}
  open ts use {statevars, inputvars}

  -- the children of a visited term are visited or wait
  abbrev pub Waits : List Term → List Term → Type 0
  Waits st visited =
      (t c : Term)
      → mem t visited ≡ true
      → mem c (children t) ≡ true
      → (mem c visited || mem c st) ≡ true

  -- the collected variables, with those of the sets `S` and `I` of the class, are the visited ones
  pub record Caught (S I : List Term) (f : Found Term) : Type 0 where
    pub states :
        (t : Term)
        → mem t f.visited ≡ true
        → is_symbol t ≡ true
        → mem t statevars ≡ true
        → (mem t S || mem t f.new_coi_state_vars) ≡ true
    pub inputs :
        (t : Term)
        → mem t f.visited ≡ true
        → is_symbol t ≡ true
        → mem t statevars ≡ false
        → mem t inputvars ≡ true
        → (mem t I || mem t f.new_coi_input_vars) ≡ true
    pub known_states : (t : Term) → mem t f.new_coi_state_vars ≡ true → mem t statevars ≡ true
    pub known_inputs : (t : Term) → mem t f.new_coi_input_vars ≡ true → mem t inputvars ≡ true

  abbrev mark : Term → Found Term → Found Term
  mark t f = record f { visited = insert t f.visited }

  abbrev collected : Term → Found Term → Found Term
  collected t f = collect smt ts t (mark t f)

  mem-visited :
      (u t : Term) (f : Found Term)
      → mem u (collect smt ts t (mark t f)).visited ≡ (t == u || mem u f.visited)
  unfolding collect
  mem-visited u t f = ground (arith, mem-insert u t f.visited)

  mem-states :
      (u t : Term) (f : Found Term)
      → mem u (collect smt ts t (mark t f)).new_coi_state_vars
        ≡ (is_symbol t && mem t statevars && t == u || mem u f.new_coi_state_vars)
  unfolding collect
  mem-states u t f = ground (arith, mem-insert u t f.new_coi_state_vars)

  mem-inputs :
      (u t : Term) (f : Found Term)
      → mem u (collect smt ts t (mark t f)).new_coi_input_vars ≡ (
          is_symbol t && not (mem t statevars) && mem t inputvars && t == u
          || mem u f.new_coi_input_vars)
  unfolding collect
  mem-inputs u t f = ground (arith, mem-insert u t f.new_coi_input_vars)

  Caught-collect :
      (S I : List Term) (t : Term) (f : Found Term)
      → Caught S I f
      → Caught S I (collect smt ts t (mark t f))
  Caught-collect S I t f k = record {
    states = λ u m s st. elim (Bool-cases (t == u)) [
      | inl y ↦
          let eq : t ≡ u = (==_iff t u).0 y in
          ground (arith, mem-states u t f, ap is_symbol eq, ap (λ x. mem x statevars) eq)
      | inr n ↦ ground (arith, mem-states u t f, mem-visited u t f, k.states u)
    ];
    inputs = λ u m s st inp. elim (Bool-cases (t == u)) [
      | inl y ↦
          let eq : t ≡ u = (==_iff t u).0 y in
          ground (
            arith,
            mem-inputs u t f,
            ap is_symbol eq,
            ap (λ x. mem x statevars) eq,
            ap (λ x. mem x inputvars) eq,
          )
      | inr n ↦ ground (arith, mem-inputs u t f, mem-visited u t f, k.inputs u)
    ];
    known_states = λ u m. elim (Bool-cases (is_symbol t && mem t statevars && t == u)) [
      | inl y ↦
          let eq : t ≡ u = (==_iff t u).0 (ground arith) in
          ground (arith, ap (λ x. mem x statevars) eq)
      | inr n ↦ k.known_states u (ground (arith, mem-states u t f))
    ];
    known_inputs = λ u m.
        elim (Bool-cases (is_symbol t && not (mem t statevars) && mem t inputvars && t == u)) [
          | inl y ↦
              let eq : t ≡ u = (==_iff t u).0 (ground arith) in
              ground (arith, ap (λ x. mem x inputvars) eq)
          | inr n ↦ k.known_inputs u (ground (arith, mem-inputs u t f))
        ];
  }

  Waits-push :
      (t : Term) (rest : List Term) (f : Found Term)
      → Waits (t ∷ rest) f.visited
      → Waits (push_children rest (children t)) (collect smt ts t (mark t f)).visited
  Waits-push t rest f k u c mu mc = elim (Bool-cases (t == u)) [
    | inl y ↦
        let eq : t ≡ u = (==_iff t u).0 y in
        let here : mem c (children t) ≡ true = rw eq mc in
        ground (arith, mem-push_children c rest (children t))
    | inr n ↦ ground (
      arith,
      k u c (ground (arith, mem-visited u t f)) mc,
      mem-push_children c rest (children t),
      mem-visited c t f,
    )
  ]

  -- what the walk leaves, where it starts with `st` to visit
  pub record IsWalked (S I st : List Term) (f f' : Found Term) : Type 0 where
    pub caught : Caught S I f'
    pub closed : Waits [] f'.visited
    pub visits : (x : Term) → (mem x f.visited || mem x st) ≡ true → mem x f'.visited ≡ true

  term_loop_lem :
      (S I : List Term) (fuel : ℕ) (st : List Term) (f : Found Term)
      → sum_map size st < fuel
      → Caught S I f
      → Waits st f.visited
      → (f' : Found Term) × (term_loop smt ts fuel st f ≡ ok f') × IsWalked S I st f f'
  unfolding term_loop
  term_loop_lem S I zero st f h k w = absurd (omega arith)
  term_loop_lem S I (suc fuel) [] f h k w =
      (f, refl, record { caught = k; closed = w; visits = λ x m. ground arith })
  term_loop_lem S I (suc fuel) (t ∷ rest) f h k w = elim (Bool-cases (mem t f.visited)) [
    | inl y ↦
        let (f', run, walked) =
          term_loop_lem S I fuel rest f (omega (arith, laws.size-children t)) k
            (λ u c mu mc. ground (arith, w u c mu mc, ==_iff t c)) in
        (
          f',
          ground arith,
          record {
            caught = walked.caught;
            closed = walked.closed;
            visits = λ x m. walked.visits x (ground (arith, ==_iff t x));
          },
        )
    | inr n ↦
        let (f', run, walked) =
          term_loop_lem S I fuel (push_children rest (children t)) (collect smt ts t (mark t f))
            (omega (arith, laws.size-children t, sum_map-push_children size rest (children t)))
            (Caught-collect S I t f k) (Waits-push t rest f w) in
        (
          f',
          ground arith,
          record {
            caught = walked.caught;
            closed = walked.closed;
            visits = λ x m. walked.visits x (
                ground
                  (arith, mem-push_children x rest (children t), mem-visited x t f, ==_iff t x));
          },
        )
  ]

  pub compute_term_coi_lem :
      (S I : List Term) (t : Term) (f : Found Term)
      → Caught S I f
      → Waits [] f.visited
      → (f' : Found Term) × (compute_term_coi smt ts t f ≡ ok f') × IsWalked S I (t ∷ []) f f'
  unfolding compute_term_coi
  compute_term_coi_lem S I t f k w =
      term_loop_lem S I (suc (size t)) (t ∷ []) f (omega arith) k
        (λ u c mu mc. ground (arith, w u c mu mc))

  pub compute_terms_coi_lem :
      (S I : List Term) (us : List Term) (f : Found Term)
      → Caught S I f
      → Waits [] f.visited
      → (f' : Found Term) × (compute_terms_coi smt ts us f ≡ ok f') × IsWalked S I us f f'
  unfolding compute_terms_coi
  compute_terms_coi_lem S I [] f k w =
      (f, refl, record { caught = k; closed = w; visits = λ x m. ground arith })
  compute_terms_coi_lem S I (t ∷ us) f k w =
      let (f1, run1, w1) = compute_term_coi_lem S I t f k w in
      let (f2, run2, w2) = compute_terms_coi_lem S I us f1 w1.caught w1.closed in
      (
        f2,
        ground arith,
        record {
          caught = w2.caught;
          closed = w2.closed;
          visits = λ x m. w2.visits x (ground (arith, w1.visits x));
        },
      )

  -- a term that has been visited is passed over
  pub compute_term_coi-visited :
      (t : Term) (f : Found Term) → mem t f.visited ≡ true → compute_term_coi smt ts t f ≡ ok f
  unfolding compute_term_coi term_loop
  compute_term_coi-visited t f m = rw (laws.size-children t) (ground arith)

  -- the free symbols of a visited term are visited
  pub visited-free :
      (ws : List Term)
      → Waits [] ws
      → (n : ℕ) (t : Term) → size t < n
      → mem t ws ≡ true
      → (v : Term) → mem v (free_symbols t) ≡ true
      → (mem v ws && is_symbol v) ≡ true
  visited-free ws closed zero t lt m v f = absurd (omega arith)
  visited-free ws closed (suc n) t lt m v f = elim (Bool-cases (is_symbolic_const t && t == v)) [
    | inl self ↦
        let eq : t ≡ v = (==_iff t v).0 (ground arith) in
        rw (← eq) (ground (arith, laws.is_symbol-constant t))
    | inr other ↦
        let (c, mc, fc) =
          mem_of_any (λ d. mem v (free_symbols d)) (children t)
            (ground (arith, laws.free_symbols-children v t)) in
        visited-free ws closed n c
          (omega (arith, laws.size-children t, le-sum_map size c (children t) mc))
          (ground (arith, closed t c m mc)) v fc
  ]
