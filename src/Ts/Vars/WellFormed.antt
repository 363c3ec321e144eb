-- ===== src/Ts/Vars/WellFormed.antt =====
-- The invariant of a transition system's variables, and that declaring variables keeps it.
use pono.Base.{
  ◌≡◌, ◌≢◌, ◌⊎◌, inl, inr, refl, ap, ◌∙◌, arith, Bool, true, false, ◌||◌, ◌++◌, some, Eq, ◌==◌,
  ==_iff, ==_refl, nat_eq, list_eq, mem, insert, erase, mem-insert, mem-erase, lookup, put,
  lookup-put, ok, continue, Bool-cases, continue-eq-ok,
}
use pono.Smt.{Smt, Name}
use pono.Ts.{TransitionSystem}
use pono.Ts.Vars.{name_term, add_statevar, add_inputvar, promote_inputvar, declare, is_taken}

module _ {Term : Type 0} ⦃e : Eq Term⦄ (smt : Smt Term) where
  open smt use {is_symbolic_const, to_string}

  abbrev pub is_var : TransitionSystem Term → Term → Bool
  is_var ts x = mem x ts.statevars || mem x ts.inputvars

  pub record IsWellFormed (ts : TransitionSystem Term) : Type 0 where
    -- a state variable has a next-state variable, and the two renamings agree on it
    pub next_of :
        (v : Term)
        → mem v ts.statevars ≡ true
        → (n : Term) × (lookup v ts.next_map ≡ some n)
          × (lookup n ts.curr_map ≡ some v)
          × (mem n ts.next_statevars ≡ true)
    -- the current-state renaming is on next-state variables
    pub curr_in : (n v : Term) → lookup n ts.curr_map ≡ some v → mem n ts.next_statevars ≡ true
    -- no variable is a next-state variable
    pub plain : (x : Term) → is_var ts x ≡ true → mem x ts.next_statevars ≡ false
    pub symbolic : (x : Term) → is_var ts x ≡ true → is_symbolic_const x ≡ true
    pub next_symbolic : (n : Term) → mem n ts.next_statevars ≡ true → is_symbolic_const n ≡ true
    -- a variable is registered under its own name
    pub named : (x : Term) → is_var ts x ≡ true → lookup (to_string x) ts.named_terms ≡ some x

  -- two variables of one name are one variable
  pub to_string-injective :
      {ts : TransitionSystem Term}
      → IsWellFormed ts
      → (x y : Term) → is_var ts x ≡ true
      → is_var ts y ≡ true
      → to_string x ≡ to_string y
      → x ≡ y
  to_string-injective {ts} wf x y vx vy h =
      let same : lookup (to_string x) ts.named_terms ≡ lookup (to_string y) ts.named_terms =
        ap (λ n. lookup n ts.named_terms) h in
      cc (wf.named x vx, wf.named y vy, same)

  -- what naming changes: only the names, and no name that is there gets another term
  record Named (n : Name) (t : Term) (ts ts' : TransitionSystem Term) : Type 0 where
    same : ts' ≡ record ts { named_terms = ts'.named_terms; term_to_name = ts'.term_to_name }
    here : lookup n ts'.named_terms ≡ some t
    kept :
        (m : Name) (u : Term) → lookup m ts.named_terms ≡ some u → lookup m ts'.named_terms ≡ some u

  name_term-Named :
      (n : Name) (t : Term) (ts ts' : TransitionSystem Term)
      → name_term smt n t ts ≡ (ok tt, ts')
      → Named n t ts ts'
  unfolding name_term
  name_term-Named n t ts ts' h = elim (Bool-cases (is_taken smt (lookup n ts.named_terms) t)) [
    | inl taken ↦ absurd (ground arith)
    | inr free ↦
        let eq : ts' ≡ record ts {
          named_terms = put n t ts.named_terms;
          term_to_name = put t n ts.term_to_name;
        } =
          ground arith in
        rw eq (record {
          same = refl;
          here = rw (lookup-put n n t ts.named_terms, ==_refl n) refl;
          kept = λ m u k.
              ground (arith, lookup-put n m t ts.named_terms, ==_iff n m, ==_iff u t, ==_iff t u);
        })
  ]

  record SameButNames (ts ts' : TransitionSystem Term) : Type 0 where
    states : ts'.statevars ≡ ts.statevars
    nexts : ts'.next_statevars ≡ ts.next_statevars
    inputs : ts'.inputvars ≡ ts.inputvars
    next_map : ts'.next_map ≡ ts.next_map
    curr_map : ts'.curr_map ≡ ts.curr_map

  SameButNames-of_Named :
      {n : Name} {t : Term} (ts ts' : TransitionSystem Term)
      → Named n t ts ts'
      → SameButNames ts ts'
  SameButNames-of_Named ts ts' h = record {
    states = ap (λ s. s.statevars) h.same;
    nexts = ap (λ s. s.next_statevars) h.same;
    inputs = ap (λ s. s.inputvars) h.same;
    next_map = ap (λ s. s.next_map) h.same;
    curr_map = ap (λ s. s.curr_map) h.same;
  }

  SameButNames-trans :
      (a b c : TransitionSystem Term) → SameButNames a b → SameButNames b c → SameButNames a c
  SameButNames-trans a b c h k = record {
    states = k.states ∙ h.states;
    nexts = k.nexts ∙ h.nexts;
    inputs = k.inputs ∙ h.inputs;
    next_map = k.next_map ∙ h.next_map;
    curr_map = k.curr_map ∙ h.curr_map;
  }

  -- naming keeps the invariant
  pub name_term-IsWellFormed :
      (n : Name) (t : Term) (ts ts' : TransitionSystem Term)
      → IsWellFormed ts
      → name_term smt n t ts ≡ (ok tt, ts')
      → IsWellFormed ts'
  name_term-IsWellFormed n t ts ts' wf h =
      let named = name_term-Named n t ts ts' h in
      let same = SameButNames-of_Named ts ts' named in
      record {
        next_of = rw (same.states, same.next_map, same.curr_map, same.nexts) wf.next_of;
        curr_in = rw (same.curr_map, same.nexts) wf.curr_in;
        plain = rw (same.states, same.inputs, same.nexts) wf.plain;
        symbolic = rw (same.states, same.inputs) wf.symbolic;
        next_symbolic = rw same.nexts wf.next_symbolic;
        named = rw (same.states, same.inputs) (λ x v. named.kept (to_string x) x (wf.named x v));
      }

  -- the variables after `declare`, whatever the names
  record Declared (cv nv : Term) (ts ts' : TransitionSystem Term) : Type 0 where
    vars : SameButNames (declare smt cv nv ts) ts'
    here : lookup (to_string cv) ts'.named_terms ≡ some cv
    kept :
        (m : Name) (u : Term) → lookup m ts.named_terms ≡ some u → lookup m ts'.named_terms ≡ some u

  record IsFresh (cv nv : Term) (ts : TransitionSystem Term) : Type 0 where
    cv_state : mem cv ts.statevars ≡ false
    nv_next : mem nv ts.next_statevars ≡ false
    cv_next : mem cv ts.next_statevars ≡ false
    nv_state : mem nv ts.statevars ≡ false

  add_statevar-Declared :
      (cv nv : Term) (ts ts' : TransitionSystem Term)
      → add_statevar smt cv nv ts ≡ (ok tt, ts')
      → Declared cv nv ts ts' × IsFresh cv nv ts
  unfolding add_statevar
  add_statevar-Declared cv nv ts ts' h =
      let checks : IsFresh cv nv ts = ground arith in
      let run : continue (name_term smt (to_string cv) cv (declare smt cv nv ts))
            (λ _. name_term smt (to_string nv) nv)
          ≡ (ok tt, ts') =
        ground arith in
      let (_, mid, first, second) =
        continue-eq-ok (name_term smt (to_string cv) cv (declare smt cv nv ts)) _ run in
      let n1 = name_term-Named (to_string cv) cv (declare smt cv nv ts) mid first in
      let n2 = name_term-Named (to_string nv) nv mid ts' second in
      let s1 = SameButNames-of_Named (declare smt cv nv ts) mid n1 in
      let s2 = SameButNames-of_Named mid ts' n2 in
      (
        record {
          vars = SameButNames-trans (declare smt cv nv ts) mid ts' s1 s2;
          here = n2.kept (to_string cv) cv n1.here;
          kept = λ m u k. n2.kept m u (n1.kept m u k);
        },
        checks,
      )

  module _ (cv nv : Term) (ts ts' : TransitionSystem Term) (wf : IsWellFormed ts)
      (d : Declared cv nv ts ts') (f : IsFresh cv nv ts) (apart : cv ≢ nv)
      (cv_symbolic : is_symbolic_const cv ≡ true) (nv_symbolic : is_symbolic_const nv ≡ true) where
    -- a variable of the new system is the new one, or an old one that is neither
    var_cases :
        (x : Term) → is_var ts' x ≡ true → (cv ≡ x) ⊎ ((is_var ts x ≡ true) × ((nv == x) ≡ false))
    unfolding declare
    var_cases x h = elim (Bool-cases (cv == x)) [
      | inl y ↦ inl ((==_iff cv x).0 y)
      | inr n ↦ inr (
          let h' : (mem x (insert cv ts.statevars) || mem x (erase nv (erase cv ts.inputvars)))
              ≡ true =
            rw (d.vars.states, d.vars.inputs) at h in
          ground (
            arith,
            mem-insert x cv ts.statevars,
            mem-erase x nv (erase cv ts.inputvars),
            mem-erase x cv ts.inputvars,
            ==_iff nv x,
            f.nv_state,
          ))
    ]

    states_eq : ts'.statevars ≡ insert cv ts.statevars
    unfolding declare
    states_eq = d.vars.states

    nexts_eq : ts'.next_statevars ≡ insert nv ts.next_statevars
    unfolding declare
    nexts_eq = d.vars.nexts

    next_map_eq : ts'.next_map ≡ put cv nv ts.next_map
    unfolding declare
    next_map_eq = d.vars.next_map

    curr_map_eq : ts'.curr_map ≡ put nv cv ts.curr_map
    unfolding declare
    curr_map_eq = d.vars.curr_map

    next_of' :
        (v : Term)
        → mem v (insert cv ts.statevars) ≡ true
        → (n : Term) × (lookup v (put cv nv ts.next_map) ≡ some n)
          × (lookup n (put nv cv ts.curr_map) ≡ some v)
          × (mem n (insert nv ts.next_statevars) ≡ true)
    next_of' v m = elim (Bool-cases (cv == v)) [
      | inl y ↦ (
        nv,
        ground (arith, lookup-put cv v nv ts.next_map),
        ground (arith, lookup-put nv nv cv ts.curr_map, ==_refl nv, ==_iff cv v),
        ground (arith, mem-insert nv nv ts.next_statevars, ==_refl nv),
      )
      | inr n ↦
          let (n', at, back, is_next) =
            wf.next_of v (ground (arith, mem-insert v cv ts.statevars)) in
          (
            n',
            ground (arith, lookup-put cv v nv ts.next_map),
            ground (arith, lookup-put nv n' cv ts.curr_map, ==_iff nv n', f.nv_next),
            ground (arith, mem-insert n' nv ts.next_statevars),
          )
    ]

    declared-IsWellFormed : IsWellFormed ts'
    declared-IsWellFormed = record {
      next_of = rw (states_eq, next_map_eq, curr_map_eq, nexts_eq) next_of';
      curr_in =
          rw (curr_map_eq, nexts_eq)
            (λ n v at. elim (Bool-cases (nv == n)) [
              | inl y ↦ ground (arith, mem-insert n nv ts.next_statevars)
              | inr other ↦ ground (
                arith,
                mem-insert n nv ts.next_statevars,
                wf.curr_in n v (ground (arith, lookup-put nv n cv ts.curr_map)),
              )
            ]);
      plain = λ x v. rw nexts_eq (elim (var_cases x v) [
        | inl y ↦
            rw (← y) (ground (arith, mem-insert cv nv ts.next_statevars, ==_iff nv cv, f.cv_next))
        | inr old ↦ ground (arith, mem-insert x nv ts.next_statevars, wf.plain x old.0, old.1)
      ]);
      symbolic = λ x v. elim (var_cases x v) [
        | inl y ↦ rw (← y) cv_symbolic
        | inr old ↦ wf.symbolic x old.0
      ];
      next_symbolic = rw nexts_eq (λ n m. elim (Bool-cases (nv == n)) [
        | inl y ↦ let eq : nv ≡ n = (==_iff nv n).0 y in rw (← eq) nv_symbolic
        | inr other ↦ wf.next_symbolic n (ground (arith, mem-insert n nv ts.next_statevars))
      ]);
      named = λ x v. elim (var_cases x v) [
        | inl y ↦ rw (← y) d.here
        | inr old ↦ d.kept (to_string x) x (wf.named x old.0)
      ];
    }

  -- When `add_statevar` returns, on symbols of which the second is not the first, the variables of the
  -- system are well formed if they were before.
  pub add_statevar-IsWellFormed :
      (cv nv : Term) (ts : TransitionSystem Term) {ts' : TransitionSystem Term}
      → IsWellFormed ts
      → cv ≢ nv
      → is_symbolic_const cv ≡ true
      → is_symbolic_const nv ≡ true
      → add_statevar smt cv nv ts ≡ (ok tt, ts')
      → IsWellFormed ts'
  add_statevar-IsWellFormed cv nv ts {ts'} wf apart s1 s2 h =
      let (d, f) = add_statevar-Declared cv nv ts ts' h in
      declared-IsWellFormed cv nv ts ts' wf d f apart s1 s2

  -- When `add_inputvar` returns, on a symbol, the variables of the system are well formed if they were
  -- before.
  pub add_inputvar-IsWellFormed :
      (v : Term) (ts : TransitionSystem Term) {ts' : TransitionSystem Term}
      → IsWellFormed ts
      → is_symbolic_const v ≡ true
      → add_inputvar smt v ts ≡ (ok tt, ts')
      → IsWellFormed ts'
  unfolding add_inputvar
  add_inputvar-IsWellFormed v ts {ts'} wf s h =
      let run : name_term smt (to_string v) v (record ts { inputvars = insert v ts.inputvars })
          ≡ (ok tt, ts') =
        ground arith in
      let fresh : mem v ts.next_statevars ≡ false = ground arith in
      let grown = record ts { inputvars = insert v ts.inputvars } in
      let named = name_term-Named (to_string v) v grown ts' run in
      let same = SameButNames-of_Named grown ts' named in
      let old = λ (x : Term) (is_in : is_var grown x ≡ true) (other : (v == x) ≡ false).
        let r : is_var ts x ≡ true = ground (arith, mem-insert x v ts.inputvars) in r in
      record {
        next_of = rw (same.states, same.next_map, same.curr_map, same.nexts) wf.next_of;
        curr_in = rw (same.curr_map, same.nexts) wf.curr_in;
        plain =
            rw (same.states, same.inputs, same.nexts)
              (λ x is_in. elim (Bool-cases (v == x)) [
                | inl y ↦ let eq : v ≡ x = (==_iff v x).0 y in rw (← eq) fresh
                | inr n ↦ wf.plain x (old x is_in n)
              ]);
        symbolic =
            rw (same.states, same.inputs)
              (λ x is_in. elim (Bool-cases (v == x)) [
                | inl y ↦ let eq : v ≡ x = (==_iff v x).0 y in rw (← eq) s
                | inr n ↦ wf.symbolic x (old x is_in n)
              ]);
        next_symbolic = rw same.nexts wf.next_symbolic;
        named =
            rw (same.states, same.inputs)
              (λ x is_in. elim (Bool-cases (v == x)) [
                | inl y ↦ let eq : v ≡ x = (==_iff v x).0 y in rw (← eq) named.here
                | inr n ↦ named.kept (to_string x) x (wf.named x (old x is_in n))
              ]);
      }

  -- an input can be taken away
  fewer_inputs-IsWellFormed :
      (iv : Term) (ts : TransitionSystem Term)
      → IsWellFormed ts
      → IsWellFormed (record ts { inputvars = erase iv ts.inputvars; deterministic = false })
  fewer_inputs-IsWellFormed iv ts wf =
      let old = λ (x : Term) (is_in : (mem x ts.statevars || mem x (erase iv ts.inputvars)) ≡ true).
        let r : is_var ts x ≡ true = ground (arith, mem-erase x iv ts.inputvars) in r in
      record {
        next_of = wf.next_of;
        curr_in = wf.curr_in;
        plain = λ x v. wf.plain x (old x v);
        symbolic = λ x v. wf.symbolic x (old x v);
        next_symbolic = wf.next_symbolic;
        named = λ x v. wf.named x (old x v);
      }

  -- When `promote_inputvar` returns, the variables are well formed if they were before and the symbol
  -- that the solver makes is not the input.
  pub promote_inputvar-IsWellFormed :
      (iv : Term) (ts : TransitionSystem Term) {ts' : TransitionSystem Term}
      → IsWellFormed ts
      → iv ≢ smt.make_symbol (to_string iv ++ ts.next_suffix) (smt.get_sort iv)
      → is_symbolic_const (smt.make_symbol (to_string iv ++ ts.next_suffix) (smt.get_sort iv))
        ≡ true
      → promote_inputvar smt iv ts ≡ (ok tt, ts')
      → IsWellFormed ts' × (mem iv ts'.statevars ≡ true)
  unfolding promote_inputvar
  promote_inputvar-IsWellFormed iv ts {ts'} wf apart s h =
      let nv = smt.make_symbol (to_string iv ++ ts.next_suffix) (smt.get_sort iv) in
      let less = record ts { inputvars = erase iv ts.inputvars; deterministic = false } in
      let run : add_statevar smt iv nv less ≡ (ok tt, ts') = ground arith in
      let known : mem iv ts.inputvars ≡ true = ground arith in
      let wf' = fewer_inputs-IsWellFormed iv ts wf in
      let (d, f) = add_statevar-Declared iv nv less ts' run in
      (
        add_statevar-IsWellFormed iv nv less {ts' = ts'} wf' apart (wf.symbolic iv (ground arith)) s
            run,
        rw (states_eq iv nv less ts' wf' d f apart (wf.symbolic iv (ground arith)) s)
            (ground (arith, mem-insert iv iv ts.statevars, ==_refl iv)),
      )
