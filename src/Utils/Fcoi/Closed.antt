-- ===== src/Utils/Fcoi/Closed.antt =====
-- The cone that `compute_coi` returns, and that its loops end within their bounds.
use pono.Base.{
  ℕ, zero, suc, ◌+◌, ◌<◌, ◌≡◌, inl, inr, refl, arith, true, false, List, [], ◌∷◌, map, Eq, ◌==◌,
  ==_iff, ==_refl, mem, lookup, length, ap, ◌∙◌, Bool-cases, Option-cases, some, ok,
}
use pono.Smt.{Smt}
use pono.Smt.Laws.{SmtLaws}
use pono.Ts.{TransitionSystem}
use pono.Ts.Symbols.Contains.{push_children, mem-push_children}
use pono.Utils.Fcoi.{
  Coi, Found, add_states, insert_all, take_found, compute_term_coi, next_loop,
  compute_coi_next_state_funcs, closing_loop, compute_all, compute_coi_trans_constraints,
  compute_coi, clear,
}
use pono.Utils.Fcoi.Visit.{
  compute_term_coi_lem, compute_terms_coi_lem, compute_term_coi-visited, visited-free,
}
use pono.Utils.Fcoi.Reached.{
  missing, missing-le, mem-insert_all, add_states_lem, IsReached, IsReached-take,
}

module _ {Term : Type 0} ⦃e : Eq Term⦄ (smt : Smt Term) (laws : SmtLaws smt)
    (ts : TransitionSystem Term) where
  open smt use {free_symbols, size}
  open ts use {statevars, inputvars, state_updates, constraints}

  -- the update of a state, if it has one, has been visited
  abbrev Settled : Coi Term → Term → Type 0
  Settled c v = (u : Term) → lookup v state_updates ≡ some u → mem u c.coi_visited_terms ≡ true

  -- nothing of a class is lost
  record IsGrown (c c' : Coi Term) : Type 0 where
    states : (v : Term) → mem v c.statevars_in_coi ≡ true → mem v c'.statevars_in_coi ≡ true
    visited : (v : Term) → mem v c.coi_visited_terms ≡ true → mem v c'.coi_visited_terms ≡ true

  abbrev fresh : Coi Term → Found Term
  fresh c = record {
    new_coi_state_vars = [];
    new_coi_input_vars = [];
    visited = c.coi_visited_terms;
  }

  -- the members after the update of one state
  abbrev grown : Coi Term → Found Term → List Term → Coi Term
  grown c f states = record {
    statevars_in_coi = states;
    inputvars_in_coi = insert_all f.new_coi_input_vars c.inputvars_in_coi;
    coi_visited_terms = f.visited;
  }

  next_loop-some :
      (fuel : ℕ) (v u : Term) (rest : List Term) (c : Coi Term) (f : Found Term)
      → lookup v state_updates ≡ some u
      → compute_term_coi smt ts u (fresh c) ≡ ok f
      → next_loop smt ts (suc fuel) (v ∷ rest) c
        ≡ next_loop smt ts fuel
            (add_states f.new_coi_state_vars c.statevars_in_coi rest).1
            (grown c f (add_states f.new_coi_state_vars c.statevars_in_coi rest).0)
  unfolding next_loop
  next_loop-some fuel v u rest c f at run = ground arith

  next_loop_lem :
      (fuel : ℕ) (un : List Term) (c : Coi Term)
      → length un + missing c.statevars_in_coi statevars < fuel
      → IsReached smt laws ts c
      → ((v : Term) → mem v c.statevars_in_coi ≡ true → mem v un ≡ false → Settled c v)
      → (c' : Coi Term) × (next_loop smt ts fuel un c ≡ ok c')
        × IsReached smt laws ts c'
        × IsGrown c c'
        × ((v : Term) → mem v c'.statevars_in_coi ≡ true → Settled c' v)
  unfolding next_loop
  next_loop_lem zero un c lt k s = absurd (omega arith)
  next_loop_lem (suc fuel) [] c lt k s =
      (c, refl, k, record { states = λ v m. m; visited = λ v m. m }, λ v m. s v m refl)
  next_loop_lem (suc fuel) (v ∷ rest) c lt k s = elim (Option-cases (lookup v state_updates)) [
    | inl gone ↦
        let (c', run, k', grow, done) = next_loop_lem fuel rest c (omega (arith)) k (λ w m n u at.
          elim (Bool-cases (v == w)) [
            | inl y ↦
                let eq : v ≡ w = (==_iff v w).0 y in
                absurd (ground (arith, ap (λ z. lookup z state_updates) eq))
            | inr other ↦ s w m (ground arith) u at
          ]) in
        (c', ground arith, k', grow, done)
    | inr (u, at) ↦
        let (f, walk, w) =
          compute_term_coi_lem smt laws ts c.statevars_in_coi c.inputvars_in_coi u (fresh c)
            k.caught k.closed in
        let a =
          add_states_lem smt laws ts f.new_coi_state_vars c.statevars_in_coi rest
            w.caught.known_states in
        let r = add_states f.new_coi_state_vars c.statevars_in_coi rest in
        let (c', run, k', grow, done) =
          next_loop_lem fuel r.1 (grown c f r.0) (omega (arith, a.fewer))
            (IsReached-take smt laws ts c (u ∷ []) (fresh c) f k w r.0 a.states)
            (λ x m n t at'. elim (Bool-cases (v == x)) [
              | inl y ↦
                  let eq : v ≡ x = (==_iff v x).0 y in
                  let same : u ≡ t = ground (arith, ap (λ z. lookup z state_updates) eq) in
                  rw (← same) (w.visits u (ground (arith, ==_refl u)))
              | inr other ↦
                  let old : mem x c.statevars_in_coi ≡ true = ground (arith, a.waiting x m) in
                  let idle : mem x (v ∷ rest) ≡ false = ground (arith, a.kept x) in
                  w.visits t (ground (arith, s x old idle t at'))
            ]) in
        (
          c',
          next_loop-some fuel v u rest c f at walk ∙ run,
          k',
          record {
            states = λ x m. grow.states x (ground (arith, a.states x));
            visited = λ x m. grow.visited x (w.visits x (ground arith));
          },
          done,
        )
  ]

  -- on a class whose updates have been visited the loop changes nothing
  next_loop-Settled :
      (fuel : ℕ) (un : List Term) (c : Coi Term)
      → length un < fuel
      → ((v : Term) → mem v un ≡ true → Settled c v)
      → next_loop smt ts fuel un c ≡ ok c
  unfolding next_loop
  next_loop-Settled zero un c lt s = absurd (omega arith)
  next_loop-Settled (suc fuel) [] c lt s = refl
  next_loop-Settled (suc fuel) (v ∷ rest) c lt s =
      let again = next_loop-Settled fuel rest c (omega arith) (λ w m. s w (ground arith)) in
      elim (Option-cases (lookup v state_updates)) [
        | inl gone ↦ ground arith
        | inr (u, at) ↦
            next_loop-some fuel v u rest c (fresh c) at (
              compute_term_coi-visited smt laws ts u (fresh c)
                (s v (ground (arith, ==_refl v)) u at))
            ∙ again
      ]

  abbrev pushed : Coi Term → List Term
  pushed c = push_children [] c.statevars_in_coi

  length-pushed : (st vs : List Term) → length (push_children st vs) ≡ length vs + length st
  length-pushed st [] = omega arith
  length-pushed st (v ∷ vs) = omega (arith, length-pushed (v ∷ st) vs)

  compute_coi_next_state_funcs_lem :
      (c : Coi Term)
      → IsReached smt laws ts c
      → (c' : Coi Term) × (compute_coi_next_state_funcs smt ts c ≡ ok c')
        × IsReached smt laws ts c'
        × IsGrown c c'
        × ((v : Term) → mem v c'.statevars_in_coi ≡ true → Settled c' v)
  unfolding compute_coi_next_state_funcs
  compute_coi_next_state_funcs_lem c k =
      next_loop_lem (suc (length c.statevars_in_coi + length statevars)) (pushed c) c
        (omega
          (arith, length-pushed [] c.statevars_in_coi, missing-le c.statevars_in_coi statevars))
        k (λ v m n. absurd (ground (arith, mem-push_children v [] c.statevars_in_coi)))

  compute_coi_next_state_funcs-Settled :
      (c : Coi Term)
      → ((v : Term) → mem v c.statevars_in_coi ≡ true → Settled c v)
      → compute_coi_next_state_funcs smt ts c ≡ ok c
  unfolding compute_coi_next_state_funcs
  compute_coi_next_state_funcs-Settled c s =
      next_loop-Settled (suc (length c.statevars_in_coi + length statevars)) (pushed c) c
        (omega (arith, length-pushed [] c.statevars_in_coi))
        (λ v m. s v (ground (arith, mem-push_children v [] c.statevars_in_coi)))

  closing_loop_lem :
      (c : Coi Term)
      → IsReached smt laws ts c
      → (c' : Coi Term) × (closing_loop smt ts 2 c ≡ ok c')
        × IsReached smt laws ts c'
        × IsGrown c c'
        × ((v : Term) → mem v c'.statevars_in_coi ≡ true → Settled c' v)
  unfolding closing_loop
  closing_loop_lem c k =
      let (c', run, k', grow, done) = compute_coi_next_state_funcs_lem c k in
      let still = compute_coi_next_state_funcs-Settled c' done in (c', ground arith, k', grow, done)

  -- a loop over terms reaches them all
  compute_all_lem :
      (us : List Term) (c : Coi Term)
      → IsReached smt laws ts c
      → (c' : Coi Term) × (compute_all smt ts us c ≡ ok c')
        × IsReached smt laws ts c'
        × IsGrown c c'
        × ((t : Term) → mem t us ≡ true → mem t c'.coi_visited_terms ≡ true)
  unfolding compute_all take_found
  compute_all_lem us c k =
      let (f, walk, w) =
        compute_terms_coi_lem smt laws ts c.statevars_in_coi c.inputvars_in_coi us (fresh c)
          k.caught k.closed in
      (
        grown c f (insert_all f.new_coi_state_vars c.statevars_in_coi),
        ground arith,
        IsReached-take smt laws ts c us (fresh c) f k w
            (insert_all f.new_coi_state_vars c.statevars_in_coi)
            (λ x. mem-insert_all x f.new_coi_state_vars c.statevars_in_coi),
        record {
          states = λ v m. ground (arith, mem-insert_all v f.new_coi_state_vars c.statevars_in_coi);
          visited = λ v m. w.visits v (ground arith);
        },
        λ t m. w.visits t (ground arith),
      )

  -- the state and input variables of a term are in the members
  abbrev pub Collected : Coi Term → Term → Type 0
  Collected c t =
      (v : Term)
      → mem v (free_symbols t) ≡ true
      → (mem v statevars ≡ true → mem v c.statevars_in_coi ≡ true)
        × (mem v statevars ≡ false → mem v inputvars ≡ true → mem v c.inputvars_in_coi ≡ true)

  Collected-visited :
      (c : Coi Term) (t : Term)
      → IsReached smt laws ts c
      → mem t c.coi_visited_terms ≡ true
      → Collected c t
  Collected-visited c t k m v f =
      let both =
        visited-free smt laws ts c.coi_visited_terms k.closed (suc (size t)) t (omega arith) m v
          f in
      (
        λ s. ground (arith, k.caught.states v (ground arith) (ground arith) s),
        λ n i. ground (arith, k.caught.inputs v (ground arith) (ground arith) n i),
      )

  -- the cone of influence of the terms: closed under constraints and updates
  pub record IsCone (terms : List Term) (c : Coi Term) : Type 0 where
    pub known_states : (v : Term) → mem v c.statevars_in_coi ≡ true → mem v statevars ≡ true
    pub known_inputs : (v : Term) → mem v c.inputvars_in_coi ≡ true → mem v inputvars ≡ true
    pub kept : (t : Term) → mem t terms ≡ true → Collected c t
    pub constrained : (t : Term) → mem t (map (λ cb. cb.0) constraints) ≡ true → Collected c t
    pub updated :
        (v u : Term)
        → mem v c.statevars_in_coi ≡ true
        → lookup v state_updates ≡ some u
        → Collected c u

  clear-IsReached : (c : Coi Term) → IsReached smt laws ts (clear c)
  unfolding clear
  clear-IsReached c = record {
    caught = record {
      states = λ t m. absurd (cc);
      inputs = λ t m. absurd (cc);
      known_states = λ t m. absurd (cc);
      known_inputs = λ t m. absurd (cc);
    };
    closed = λ t u m. absurd (cc);
    known_states = λ v m. absurd (cc);
    known_inputs = λ v m. absurd (cc);
  }

  -- `compute_coi` returns, whatever the class held before: none of its loops runs out of fuel. The states and
  -- inputs that it collects are those of the system, and contain all that occur in the given terms, in a
  -- constraint, or in the update of a collected state.
  pub compute_coi-IsCone :
      (terms : List Term) (c : Coi Term)
      → (c' : Coi Term) × (compute_coi smt ts terms c ≡ ok c') × IsCone terms c'
  unfolding compute_coi compute_coi_trans_constraints
  compute_coi-IsCone terms c =
      let (c1, run1, k1, grow1, all1) = compute_all_lem terms (clear c) (clear-IsReached c) in
      let (c2, run2, k2, grow2, all2) = compute_all_lem (map (λ cb. cb.0) constraints) c1 k1 in
      let (c3, run3, k3, grow3, done) = closing_loop_lem c2 k2 in
      (
        c3,
        ground arith,
        record {
          known_states = k3.known_states;
          known_inputs = k3.known_inputs;
          kept = λ t m. Collected-visited c3 t k3 (grow3.visited t (grow2.visited t (all1 t m)));
          constrained = λ t m. Collected-visited c3 t k3 (grow3.visited t (all2 t m));
          updated = λ v u m at. Collected-visited c3 u k3 (done v m u at);
        },
      )
