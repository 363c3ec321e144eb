-- ===== src/Utils/Fcoi/Reached.antt =====
-- The members of the class between its loops, and the states that a round adds.
use pono.Base.{
  ℕ, suc, ◌+◌, ◌≤◌, ◌≡◌, inl, inr, arith, true, false, ◌||◌, List, [], ◌∷◌, Eq, ◌==◌, ==_iff,
  ==_refl, mem, insert, mem-insert, length, sum_map, subst, Bool-cases, if◌then◌else◌,
}
use pono.Smt.{Smt}
use pono.Smt.Laws.{SmtLaws}
use pono.Ts.{TransitionSystem}
use pono.Utils.Fcoi.{Coi, Found, add_states, insert_all}
use pono.Utils.Fcoi.Visit.{Waits, Caught, IsWalked}

module _ {Term : Type 0} ⦃e : Eq Term⦄ where
  -- the variables of a list that a set does not have yet
  abbrev pub missing : List Term → List Term → ℕ
  missing S = sum_map (λ v. if mem v S then 0 else 1)

  pub missing-le : (S vs : List Term) → missing S vs ≤ length vs
  missing-le S [] = omega arith
  missing-le S (v ∷ vs) = ground (arith, missing-le S vs)

  missing-insert_le : (x : Term) (S vs : List Term) → missing (insert x S) vs ≤ missing S vs
  missing-insert_le x S [] = omega arith
  missing-insert_le x S (v ∷ vs) = ground (arith, mem-insert v x S, missing-insert_le x S vs)

  missing-insert :
      (x : Term) (S vs : List Term)
      → mem x vs ≡ true
      → mem x S ≡ false
      → suc (missing (insert x S) vs) ≤ missing S vs
  missing-insert x S [] m n = cc
  missing-insert x S (v ∷ vs) m n = elim (Bool-cases (v == x)) [
    | inl y ↦
        let eq : v ≡ x = (==_iff v x).0 y in
        let this : mem v S ≡ false = rw eq n in
        ground (arith, mem-insert v x S, ==_refl x, missing-insert_le x S vs, ==_iff x v)
    | inr other ↦
        ground (arith, mem-insert v x S, missing-insert x S vs (ground arith) n, ==_iff x v)
  ]

  pub mem-insert_all :
      (x : Term) (vs S : List Term) → mem x (insert_all vs S) ≡ (mem x S || mem x vs)
  unfolding insert_all
  mem-insert_all x [] S = ground arith
  mem-insert_all x (v ∷ vs) S = ground (arith, mem-insert_all x vs (insert v S), mem-insert x v S)

module _ {Term : Type 0} ⦃e : Eq Term⦄ (smt : Smt Term) (laws : SmtLaws smt)
    (ts : TransitionSystem Term) where
  open smt use {is_symbol, is_symbolic_const, children, size, free_symbols}
  open ts use {statevars, inputvars, state_updates, constraints}

  -- what `add_states` makes of the set and of the list of unprocessed states
  pub record IsAdded (vs S un : List Term) (r : List Term × List Term) : Type 0 where
    pub states : (x : Term) → mem x r.0 ≡ (mem x S || mem x vs)
    pub waiting : (x : Term) → mem x r.0 ≡ true → (mem x S || mem x r.1) ≡ true
    pub kept : (x : Term) → mem x un ≡ true → mem x r.1 ≡ true
    pub fewer : length r.1 + missing r.0 statevars ≤ length un + missing S statevars

  pub add_states_lem :
      (vs S un : List Term)
      → ((x : Term) → mem x vs ≡ true → mem x statevars ≡ true)
      → IsAdded vs S un (add_states vs S un)
  unfolding add_states
  add_states_lem [] S un known = record {
    states = λ x. ground arith;
    waiting = λ x m. ground arith;
    kept = λ x m. m;
    fewer = omega arith;
  }
  add_states_lem (v ∷ vs) S un known = elim (Bool-cases (mem v S)) [
    | inl y ↦
        let k = add_states_lem vs S un (λ x m. known x (ground arith)) in
        subst (IsAdded (v ∷ vs) S un) (ground arith) (record {
          states = λ x. ground (arith, k.states x, ==_iff v x);
          waiting = k.waiting;
          kept = k.kept;
          fewer = k.fewer;
        })
    | inr n ↦
        let k = add_states_lem vs (insert v S) (v ∷ un) (λ x m. known x (ground arith)) in
        let added : IsAdded (v ∷ vs) S un (add_states vs (insert v S) (v ∷ un)) = record {
          states = λ x. ground (arith, k.states x, mem-insert x v S);
          waiting = λ x m. ground (arith, k.waiting x m, k.kept x, mem-insert x v S);
          kept = λ x m. k.kept x (ground arith);
          fewer = omega (
            arith,
            k.fewer,
            missing-insert v S statevars (known v (ground (arith, ==_refl v))) n,
          );
        } in
        subst (IsAdded (v ∷ vs) S un) (ground arith) added
  ]

  -- the members are the variables of the visited terms, which are closed under children
  pub record IsReached (c : Coi Term) : Type 0 where
    pub caught :
        Caught smt laws ts c.statevars_in_coi c.inputvars_in_coi (record {
          new_coi_state_vars = [];
          new_coi_input_vars = [];
          visited = c.coi_visited_terms;
        })
    pub closed : Waits smt laws ts [] c.coi_visited_terms
    pub known_states : (v : Term) → mem v c.statevars_in_coi ≡ true → mem v statevars ≡ true
    pub known_inputs : (v : Term) → mem v c.inputvars_in_coi ≡ true → mem v inputvars ≡ true

  pub IsReached-take :
      (c : Coi Term) (st : List Term) (f0 f : Found Term)
      → IsReached c
      → IsWalked smt laws ts c.statevars_in_coi c.inputvars_in_coi st f0 f
      → (states : List Term)
      → ((x : Term) → mem x states ≡ (mem x c.statevars_in_coi || mem x f.new_coi_state_vars))
      → IsReached (record {
        statevars_in_coi = states;
        inputvars_in_coi = insert_all f.new_coi_input_vars c.inputvars_in_coi;
        coi_visited_terms = f.visited;
      })
  IsReached-take c st f0 f k w states same = record {
    caught = record {
      states = λ t m s k'. ground (arith, w.caught.states t m s k', same t);
      inputs = λ t m s n i. ground (
        arith,
        w.caught.inputs t m s n i,
        mem-insert_all t f.new_coi_input_vars c.inputvars_in_coi,
      );
      known_states = λ t m. absurd (cc);
      known_inputs = λ t m. absurd (cc);
    };
    closed = w.closed;
    known_states = λ v m. ground (arith, same v, k.known_states v, w.caught.known_states v);
    known_inputs = λ v m. ground (
      arith,
      mem-insert_all v f.new_coi_input_vars c.inputvars_in_coi,
      k.known_inputs v,
      w.caught.known_inputs v,
    );
  }
