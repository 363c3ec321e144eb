-- ===== src/Ts/Growth.antt =====
-- What operations that only add to a system leave as it is: its steps are steps of the system before.
use pono.Base.{
  ℕ, ◌≡◌, inl, inr, refl, ap, arith, true, false, List, [], ◌∷◌, ◌++◌, Eq, ==_iff, ==_refl, mem,
  insert, mem-insert, lookup, put, erase, lookup-put, Bool-cases, Option-cases, some, ok, continue,
  continue-eq-ok,
}
use pono.Smt.{Smt, Name}
use pono.Smt.Laws.{SmtLaws, Model, holds}
use pono.Ts.{TransitionSystem}
use pono.Ts.Define.{assign_next, constrain_init}
use pono.Ts.Define.Meaning.{assign_next-trans, assign_next-vars}
use pono.Ts.Relational.{constrain_trans, mark_updated, set_updated_states}
use pono.Ts.Executions.{Execution}
use pono.Ts.Vars.{name_term, add_statevar, make_statevar, declare}

module _ {Term : Type 0} ⦃e : Eq Term⦄ (smt : Smt Term) where
  open smt use {Sort, is_symbolic_const, eval, make_equal, make_symbol, to_string}

  pub record IsGrown (ts ts' : TransitionSystem Term) : Type 0 where
    pub starts : (σ : Model smt) → holds smt σ ts'.init ≡ true → holds smt σ ts.init ≡ true
    pub steps : (σ : Model smt) → holds smt σ ts'.trans ≡ true → holds smt σ ts.trans ≡ true
    pub states : (v : Term) → mem v ts.statevars ≡ true → mem v ts'.statevars ≡ true
    pub nexts :
        (v n : Term)
        → mem v ts.statevars ≡ true
        → lookup v ts.next_map ≡ some n
        → lookup v ts'.next_map ≡ some n

  pub IsGrown-refl : (ts : TransitionSystem Term) → IsGrown ts ts
  IsGrown-refl ts = record {
    starts = λ σ h. h;
    steps = λ σ h. h;
    states = λ v m. m;
    nexts = λ v n m at. at;
  }

  pub IsGrown-trans : {a b c : TransitionSystem Term} → IsGrown a b → IsGrown b c → IsGrown a c
  IsGrown-trans h k = record {
    starts = λ σ s. h.starts σ (k.starts σ s);
    steps = λ σ s. h.steps σ (k.steps σ s);
    states = λ v m. k.states v (h.states v m);
    nexts = λ v n m at. k.nexts v n (h.states v m) (h.nexts v n m at);
  }

  -- an execution of a system that has grown is one of the system before
  pub Execution-grown :
      (ts ts' : TransitionSystem Term) (k : ℕ) (π : ℕ → Model smt)
      → IsGrown ts ts'
      → Execution smt ts' k π
      → Execution smt ts k π
  Execution-grown ts ts' k π g run = record {
    starts = g.starts (π 0) run.starts;
    steps = λ i lt. g.steps (π i) (run.steps i lt);
    linked = λ i lt v n m at. run.linked i lt v n (g.states v m) (g.nexts v n m at);
  }

  -- a state variable with its next-state variable
  pub record IsState (ts : TransitionSystem Term) (v n : Term) : Type 0 where
    pub known : mem v ts.statevars ≡ true
    pub next_at : lookup v ts.next_map ≡ some n
    pub symbolic : is_symbolic_const v ≡ true
    pub next_symbolic : is_symbolic_const n ≡ true

  pub IsState-grown :
      {ts ts' : TransitionSystem Term} {v n : Term}
      → IsGrown ts ts'
      → IsState ts v n
      → IsState ts' v n
  IsState-grown {v = v} {n = n} g h = record {
    known = g.states v h.known;
    next_at = g.nexts v n h.known h.next_at;
    symbolic = h.symbolic;
    next_symbolic = h.next_symbolic;
  }

  name_term_lem :
      (n : Name) (t : Term) (ts : TransitionSystem Term) {ts' : TransitionSystem Term}
      → name_term smt n t ts ≡ (ok tt, ts')
      → (ts'.trans ≡ ts.trans)
        × (ts'.statevars ≡ ts.statevars)
        × (ts'.next_map ≡ ts.next_map)
        × (ts'.init ≡ ts.init)
  unfolding name_term
  name_term_lem n t ts h = ground arith

  assign_next-init :
      (v u : Term) (ts : TransitionSystem Term) {ts' : TransitionSystem Term}
      → assign_next smt v u ts ≡ (ok tt, ts')
      → ts'.init ≡ ts.init
  unfolding assign_next
  assign_next-init v u ts h = ground arith

  add_statevar_lem :
      (cv nv : Term) (ts : TransitionSystem Term) {ts' : TransitionSystem Term}
      → add_statevar smt cv nv ts ≡ (ok tt, ts')
      → (ts'.trans ≡ ts.trans)
        × (ts'.statevars ≡ insert cv ts.statevars)
        × (ts'.next_map ≡ put cv nv ts.next_map)
        × (ts'.init ≡ ts.init)
        × (mem cv ts.statevars ≡ false)
  unfolding add_statevar declare
  add_statevar_lem cv nv ts {ts'} h =
      let run : continue (name_term smt (to_string cv) cv (declare smt cv nv ts))
            (λ _. name_term smt (to_string nv) nv)
          ≡ (ok tt, ts') =
        ground arith in
      let (_, mid, first, second) =
        continue-eq-ok (name_term smt (to_string cv) cv (declare smt cv nv ts)) _ run in
      let (t1, s1, n1, i1) =
        name_term_lem (to_string cv) cv (declare smt cv nv ts) {ts' = mid} first in
      let (t2, s2, n2, i2) = name_term_lem (to_string nv) nv mid {ts' = ts'} second in
      (cc (t1, t2), cc (s1, s2), cc (n1, n2), cc (i1, i2), ground arith)

module _ {Term : Type 0} ⦃e : Eq Term⦄ (smt : Smt Term) (laws : SmtLaws smt) where
  open smt use {Sort, is_symbolic_const, eval, make_equal, make_symbol, to_string}

  -- a new state variable is one, and adds nothing to the relation or to the initial states
  pub make_statevar_lem :
      (name : Name) (sort : Sort) (ts : TransitionSystem Term) {v : Term}
      {ts' : TransitionSystem Term}
      → make_statevar smt name sort ts ≡ (ok v, ts')
      → IsGrown smt ts ts'
        × (ts'.init ≡ ts.init)
        × (ts'.trans ≡ ts.trans)
        × ((n : Term) × IsState smt ts' v n)
  unfolding make_statevar
  make_statevar_lem name sort ts {v} {ts'} h =
      let cv = make_symbol name sort in
      let nv = make_symbol (name ++ ts.next_suffix) sort in
      let plain = record ts { deterministic = false } in
      let (_, mid, added, last) =
        continue-eq-ok (add_statevar smt cv nv plain) (λ _ t. (ok cv, t)) h in
      let (trans, states, nexts, init, fresh) =
        add_statevar_lem smt cv nv plain {ts' = mid} added in
      let same : cv ≡ v = ground arith in
      let ended : mid ≡ ts' = ap (λ p. p.1) last in
      rw (← same, ← ended)
        (
          record {
            starts = λ σ. rw init (λ s. s);
            steps = λ σ. rw trans (λ s. s);
            states = λ w m. rw states (ground (arith, mem-insert w cv ts.statevars));
            nexts =
                λ w n m at. rw nexts (ground (arith, lookup-put cv w nv ts.next_map, ==_iff cv w));
          },
          init,
          trans,
          (
            nv,
            record {
              known = rw states (ground (arith, mem-insert cv cv ts.statevars, ==_refl cv));
              next_at = rw nexts (ground (arith, lookup-put cv cv nv ts.next_map, ==_refl cv));
              symbolic = laws.make_symbol-symbolic name sort;
              next_symbolic = laws.make_symbol-symbolic (name ++ ts.next_suffix) sort;
            },
          ),
        )

  -- an update of a state adds the equation between its next-state variable and the value
  pub assign_next_lem :
      (v n u : Term) (ts : TransitionSystem Term) {ts' : TransitionSystem Term}
      → lookup v ts.next_map ≡ some n
      → assign_next smt v u ts ≡ (ok tt, ts')
      → IsGrown smt ts ts' × ((σ : Model smt) → holds smt σ ts'.trans ≡ true → eval σ n ≡ eval σ u)
  assign_next_lem v n u ts {ts'} at h =
      let means = assign_next-trans smt laws v u ts {ts' = ts'} h in
      let (nexts, states, _, _, _) = assign_next-vars smt laws v u ts {ts' = ts'} h in
      (
        record {
          starts = λ σ. rw (assign_next-init smt v u ts {ts' = ts'} h) (λ s. s);
          steps = λ σ s. ground (arith, means σ);
          states = rw states (λ w m. m);
          nexts = rw nexts (λ w m k at'. at');
        },
        λ σ s. (laws.holds-equal σ n u).0 (ground (arith, means σ)),
      )

  mark_updated_lem :
      (vs : List Term) (ts : TransitionSystem Term)
      → ((mark_updated smt vs ts).trans ≡ ts.trans)
        × ((mark_updated smt vs ts).statevars ≡ ts.statevars)
        × ((mark_updated smt vs ts).next_map ≡ ts.next_map)
        × ((mark_updated smt vs ts).init ≡ ts.init)
  unfolding mark_updated
  mark_updated_lem [] ts = (refl, refl, refl, refl)
  mark_updated_lem (v ∷ vs) ts = elim (Bool-cases (mem v ts.next_statevars)) [
    | inr n ↦ let ih = mark_updated_lem vs ts in ground arith
    | inl y ↦ elim (Option-cases (lookup v ts.curr_map)) [
      | inl gone ↦ let ih = mark_updated_lem vs ts in ground arith
      | inr (c, at) ↦
          let ih =
            mark_updated_lem vs (record ts { no_state_updates = erase c ts.no_state_updates }) in
          ground arith
    ]
  ]

  -- a constraint on the relation holds in each of its steps
  pub constrain_trans_lem :
      (c : Term) (ts : TransitionSystem Term) {ts' : TransitionSystem Term}
      → constrain_trans smt c ts ≡ (ok tt, ts')
      → IsGrown smt ts ts' × ((σ : Model smt) → holds smt σ ts'.trans ≡ true → holds smt σ c ≡ true)
  unfolding constrain_trans set_updated_states
  constrain_trans_lem c ts {ts'} h =
      let more = record ts { trans = smt.make_and ts.trans c } in
      let (trans, states, nexts, init) = mark_updated_lem (smt.free_symbols c) more in
      let same : mark_updated smt (smt.free_symbols c) more ≡ ts' = ground arith in
      rw (← same) (
        record {
          starts = λ σ. rw init (λ s. s);
          steps = λ σ. rw trans (λ s. ground (arith, laws.holds-and σ ts.trans c));
          states = rw states (λ w m. m);
          nexts = rw nexts (λ w m k at'. at');
        },
        λ σ. rw trans (λ s. ground (arith, laws.holds-and σ ts.trans c)),
      )

  -- a constraint on the initial states holds in each of them
  pub constrain_init_lem :
      (c : Term) (ts : TransitionSystem Term) {ts' : TransitionSystem Term}
      → constrain_init smt c ts ≡ (ok tt, ts')
      → IsGrown smt ts ts' × ((σ : Model smt) → holds smt σ ts'.init ≡ true → holds smt σ c ≡ true)
  unfolding constrain_init
  constrain_init_lem c ts {ts'} h =
      let same : record ts { init = smt.make_and ts.init c } ≡ ts' = ground arith in
      rw (← same) (
        record {
          starts = λ σ s. ground (arith, laws.holds-and σ ts.init c);
          steps = λ σ s. s;
          states = λ v m. m;
          nexts = λ v n m at. at;
        },
        λ σ s. ground (arith, laws.holds-and σ ts.init c),
      )
