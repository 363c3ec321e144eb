-- ===== src/Unroller/Untimed.antt =====
-- The caches that core/unroller.cpp goes back by, from a copy of a variable to the variable and to its time.
use pono.Base.{
  ℕ, zero, suc, ◌+◌, ◌-◌, ◌≡◌, ◌<◌, inl, inr, refl, sym, ap, subst, ◌∙◌, arith, true, false, List,
  [], ◌∷◌, ◌++◌, Eq, ◌==◌, ==_iff, ==_refl, mem, lookup, put, Map, length, ok, Bool-cases,
  Option-cases, get_or, pad, nat_beq, ltb,
}
use pono.Smt.{Smt, Name}
use pono.Smt.Laws.{SmtLaws, Model, under}
use pono.Ts.{TransitionSystem}
use pono.Ts.Symbols.{next}
use pono.Ts.Vars.WellFormed.{IsWellFormed, is_var}
use pono.Unroller.{
  Unroller, new_unroller, timed, var_at_time, add_states, add_inputs, add_vars, add_levels,
  var_cache_at_time, at_time, untime, get_var_time,
}
use pono.Unroller.Caches.{
  add_vars_lem, IsTimed, at_time-unrolled, new_unroller-IsTimed, push_level, add_levels_lem,
}
use pono.Unroller.Digits.{decimal, parsed, is_digit, parsed-decimal}
use pono.Unroller.Trace.{timed-injective, IsPrinted}
use mathlib.Core.List.{reverse}
use pono.Unroller.Timed.{unrolled, view, eval-unrolled, image-var}
use pono.Unroller.Copies.{IsApart, Seen, IsUntimed, Kept, var_lem}

module _ {Term : Type 0} ⦃e : Eq Term⦄ (smt : Smt Term) (laws : SmtLaws smt)
    (ts : TransitionSystem Term) (time_id : Name) where
  open smt use {eval}

  module _ (apart : IsApart smt laws ts time_id) where
    time_id-var :
        (v : Term) (k : ℕ) (u : Unroller Term) → (var_at_time smt v k u).1.time_id ≡ u.time_id
    unfolding var_at_time
    time_id-var v k u = elim (Option-cases (lookup v (get_or (pad (suc k) u.time_var_map) k []))) [
      | inl gone ↦ ground arith
      | inr (t, at) ↦ ground arith
    ]

    -- what a loop over variables at time `k` promises
    record Passed (k : ℕ) (vs : List Term) (u u' : Unroller Term) : Type 0 where
      untimed : IsUntimed smt laws ts time_id u'
      kept : Kept smt laws ts time_id u u'
      seen : (v : Term) → mem v vs ≡ true → Seen smt laws ts time_id u' v k
      id : u'.time_id ≡ time_id

    Vars : List Term → Type 0
    Vars vs = (v : Term) → mem v vs ≡ true → is_var smt ts v ≡ true

    Passed-more :
        (k : ℕ) (v : Term) (vs : List Term) (u u1 u2 : Unroller Term)
        → is_var smt ts v ≡ true
        → Kept smt laws ts time_id u u1
        → Seen smt laws ts time_id u1 v k
        → Passed k vs u1 u2
        → Passed k (v ∷ vs) u u2
    unfolding Kept
    Passed-more k v vs u u1 u2 var kept seen rest = record {
      untimed = rest.untimed;
      kept = λ w j hw s. rest.kept w j hw (kept w j hw s);
      seen = λ w m. elim (Bool-cases (v == w)) [
        | inl y ↦ let eq : v ≡ w = (==_iff v w).0 y in rw (← eq) (rest.kept v k var seen)
        | inr n ↦ rest.seen w (ground arith)
      ];
      id = rest.id;
    }

    states_lem :
        (k : ℕ) (vs : List Term) (m : Map Term Term) (u : Unroller Term)
        → Vars vs
        → u.time_id ≡ time_id
        → IsUntimed smt laws ts time_id u
        → Passed k vs u (add_states smt ts k vs (m, u)).1
    unfolding add_states Kept Vars
    states_lem k [] m u vars id h = record {
      untimed = h;
      kept = λ v j var s. s;
      seen = λ v at. absurd (cc);
      id = id;
    }
    states_lem k (v ∷ vs) m u vars id h =
        let var : is_var smt ts v ≡ true = vars v (ground (arith, ==_refl v)) in
        let u1 = (var_at_time smt v k u).1 in
        let id1 : u1.time_id ≡ time_id = time_id-var v k u ∙ id in
        let (h1, k1, s1) = var_lem smt laws ts time_id apart v k u var id h in
        let u2 = (var_at_time smt v (suc k) u1).1 in
        let id2 : u2.time_id ≡ time_id = time_id-var v (suc k) u1 ∙ id1 in
        let (h2, k2, _) = var_lem smt laws ts time_id apart v (suc k) u1 var id1 h1 in
        let m' =
          put (next smt ts v) (var_at_time smt v (suc k) u1).0
            (put v (var_at_time smt v k u).0 m) in
        let rest = states_lem k vs m' u2 (λ w mw. vars w (ground arith)) id2 h2 in
        Passed-more k v vs u u2 (add_states smt ts k vs (m', u2)).1 var
          (λ w j hw s. k2 w j hw (k1 w j hw s)) (k2 v k var s1) rest

    inputs_lem :
        (k : ℕ) (vs : List Term) (m : Map Term Term) (u : Unroller Term)
        → Vars vs
        → u.time_id ≡ time_id
        → IsUntimed smt laws ts time_id u
        → Passed k vs u (add_inputs smt k vs (m, u)).1
    unfolding add_inputs Kept Vars
    inputs_lem k [] m u vars id h = record {
      untimed = h;
      kept = λ v j var s. s;
      seen = λ v at. absurd (cc);
      id = id;
    }
    inputs_lem k (v ∷ vs) m u vars id h =
        let var : is_var smt ts v ≡ true = vars v (ground (arith, ==_refl v)) in
        let u1 = (var_at_time smt v k u).1 in
        let id1 : u1.time_id ≡ time_id = time_id-var v k u ∙ id in
        let (h1, k1, s1) = var_lem smt laws ts time_id apart v k u var id h in
        let m' = put v (var_at_time smt v k u).0 m in
        Passed-more k v vs u u1 (add_inputs smt k vs (m', u1)).1 var k1 s1
          (inputs_lem k vs m' u1 (λ w mw. vars w (ground arith)) id1 h1)

    vars_lem :
        (k : ℕ) (u : Unroller Term)
        → u.time_id ≡ time_id
        → IsUntimed smt laws ts time_id u
        → IsUntimed smt laws ts time_id (add_vars smt ts k ([], u)).1
          × Kept smt laws ts time_id u (add_vars smt ts k ([], u)).1
          × ((v : Term)
              → is_var smt ts v ≡ true
              → Seen smt laws ts time_id (add_vars smt ts k ([], u)).1 v k)
          × ((add_vars smt ts k ([], u)).1.time_id ≡ time_id)
    unfolding add_vars Kept Vars
    vars_lem k u id h =
        let r = add_states smt ts k ts.statevars ([], u) in
        let a = states_lem k ts.statevars [] u (λ v m. ground arith) id h in
        let b = inputs_lem k ts.inputvars r.0 r.1 (λ v m. ground arith) a.id a.untimed in
        (
          b.untimed,
          λ w j hw s. b.kept w j hw (a.kept w j hw s),
          λ v var. elim (Bool-cases (mem v ts.inputvars)) [
            | inl y ↦ b.seen v y
            | inr n ↦ b.kept v k var (a.seen v (ground arith))
          ],
          b.id,
        )

    -- each level of the cache has been seen
    pub Levels : Unroller Term → Type 0
    Levels u =
        (j : ℕ)
        → j < length u.time_cache
        → (v : Term) → is_var smt ts v ≡ true
        → Seen smt laws ts time_id u v j

    push_lem :
        (u : Unroller Term)
        → IsTimed smt ts u
        → u.time_id ≡ time_id
        → IsUntimed smt laws ts time_id u
        → Levels u
        → (u' : Unroller Term) × (add_levels smt ts 1 u ≡ u')
          × IsTimed smt ts u'
          × (u'.time_id ≡ time_id)
          × IsUntimed smt laws ts time_id u'
          × Levels u'
    unfolding add_levels Levels Kept Seen
    push_lem u timed id h levels =
        let k = length u.time_cache in
        let r = add_vars smt ts k ([], u) in
        let (t, copies, same) = add_vars_lem smt ts k u timed.copies in
        let (h1, k1, s1, id1) = vars_lem k u id h in
        let (timed', longer) = push_level smt ts u r.1 r.0 timed same copies t in
        (
          record r.1 { time_cache = r.1.time_cache ++ r.0 ∷ [] },
          refl,
          timed',
          id1,
          record { hits = h1.hits; symbolic = h1.symbolic },
          λ j lt v var. elim (Bool-cases (nat_beq j k)) [
            | inl last ↦ let at : k ≡ j = ground arith in rw (← at) (s1 v var)
            | inr earlier ↦ k1 v j var (levels j (ground (arith, longer)) v var)
          ],
        )

    add_levels-step :
        (n : ℕ) (u : Unroller Term)
        → add_levels smt ts (suc n) u ≡ add_levels smt ts n (add_levels smt ts 1 u)
    unfolding add_levels
    add_levels-step n u = refl

    levels_lem :
        (n : ℕ) (u : Unroller Term)
        → IsTimed smt ts u
        → u.time_id ≡ time_id
        → IsUntimed smt laws ts time_id u
        → Levels u
        → IsUntimed smt laws ts time_id (add_levels smt ts n u) × Levels (add_levels smt ts n u)
    unfolding add_levels
    levels_lem zero u timed id h levels = (h, levels)
    levels_lem (suc n) u timed id h levels =
        let (u', step, timed', id', h', levels') = push_lem u timed id h levels in
        let ih = levels_lem n u' timed' id' h' levels' in
        subst (λ w. IsUntimed smt laws ts time_id w × Levels w)
          (sym (add_levels-step n u ∙ ap (add_levels smt ts n) step)) ih

    -- an unroller whose caches of copies are in order does not renew its levels
    at_time-levels :
        (t : Term) (k : ℕ) (u : Unroller Term)
        → IsTimed smt ts u
        → (at_time smt ts t k u).1 ≡ add_levels smt ts (suc k - length u.time_cache) u
    unfolding at_time var_cache_at_time
    at_time-levels t k u h =
        let n = suc k - length u.time_cache in
        let (h1, _, _) = add_levels_lem smt ts n u h in
        let u1 = add_levels smt ts n u in
        let small : ltb u1.num_vars (length ts.statevars + length ts.inputvars) ≡ false =
          ground (arith, h1.counted) in
        rw (small, var_cache_at_time) refl

    -- an unroller of the system that can go back from its copies
    pub record IsReversible (u : Unroller Term) : Type 0 where
      pub timed : IsTimed smt ts u
      pub id : u.time_id ≡ time_id
      pub untimed : IsUntimed smt laws ts time_id u
      pub levels : Levels u

    at_time-Seen :
        (t : Term) (k : ℕ) (u : Unroller Term)
        → IsReversible u
        → IsUntimed smt laws ts time_id (at_time smt ts t k u).1
          × ((v : Term)
              → is_var smt ts v ≡ true
              → Seen smt laws ts time_id (at_time smt ts t k u).1 v k)
    unfolding Levels
    at_time-Seen t k u h =
        let n = suc k - length u.time_cache in
        let (h1, l1) = levels_lem n u h.timed h.id h.untimed h.levels in
        let (_, _, len) = add_levels_lem smt ts n u h.timed in
        subst
          (λ w.
            IsUntimed smt laws ts time_id w
            × ((v : Term) → is_var smt ts v ≡ true → Seen smt laws ts time_id w v k))
          (sym (at_time-levels t k u h.timed)) (h1, λ v var. l1 k (omega (arith, len)) v var)

    module _ (wf : IsWellFormed smt ts) where
      -- On a system with well-formed variables whose copies are different symbols, and an unroller of it that goes
      -- back from its copies: `untime` of the term that `at_time` returns has the value of the original term in
      -- every model, if that is over states and inputs, and `get_var_time` gives back the time of each variable's
      -- copy.
      pub untime-at_time :
          (u : Unroller Term)
          → IsReversible u
          → (t : Term) → ((x : Term) → mem x (smt.free_symbols t) ≡ true → is_var smt ts x ≡ true)
          → (v : Term) → is_var smt ts v ≡ true
          → (k : ℕ) (σ : Model smt)
          → (eval σ (untime smt (at_time smt ts t k u).0 (at_time smt ts t k u).1) ≡ eval σ t)
            × (get_var_time smt (timed smt time_id v k) (at_time smt ts t k u).1 ≡ ok k)
      unfolding untime get_var_time Seen
      untime-at_time u h t plain v var k σ =
          let u' = (at_time smt ts t k u).1 in
          let (untimed, seen) = at_time-Seen t k u h in
          let τ : Model smt = under smt u'.untime_cache σ in
          (
            laws.eval-substitute σ (at_time smt ts t k u).0 u'.untime_cache untimed.symbolic
                ∙ ap (eval τ) (
                    (at_time-unrolled smt ts t k u h.timed).0
                    ∙ ap (λ i. unrolled smt ts i t k) h.id)
                ∙ eval-unrolled smt laws ts time_id wf k τ t (λ x f. inl (plain x f))
                ∙ laws.eval-Agree (view smt ts time_id k τ) σ t (λ x f.
                  let known = plain x f in
                  let (back, _) = seen x known in
                  let symbol : eval σ x ≡ σ x = laws.eval-symbol σ x (wf.symbolic x known) in
                  ap τ (image-var smt laws ts time_id wf k x known)
                  ∙ (let value : τ (timed smt time_id x k) ≡ σ x = ground arith in value)),
            (let (_, time) = seen v var in ground arith),
          )

    -- a new unroller has no copies
    pub new_unroller-IsReversible : IsReversible (new_unroller smt ts time_id)
    unfolding Levels Seen
    new_unroller-IsReversible = record {
      timed = new_unroller-IsTimed smt ts time_id;
      id = refl;
      untimed = record { hits = λ k v t var at. absurd (cc); symbolic = refl };
      levels = λ j lt. absurd (omega arith);
    }

-- The copies are different if the names of the variables are, the identifier of times ends in a character that
-- is no digit, and the copies are printed under the names that they are made with.
pub timed-IsApart :
    {Term : Type 0} ⦃e : Eq Term⦄ (smt : Smt Term) (laws : SmtLaws smt) (ts : TransitionSystem Term)
    (time_id : Name)
    → IsWellFormed smt ts
    → (stem : Name) (c : ℕ) → time_id ≡ stem ++ c ∷ []
    → is_digit c ≡ false
    → IsPrinted smt ts time_id
    → IsApart smt laws ts time_id
timed-IsApart smt laws ts time_id wf stem c ends stop printed k j v w hv hw same =
    let names : smt.to_string v ++ ((stem ++ c ∷ []) ++ decimal k)
        ≡ smt.to_string w ++ ((stem ++ c ∷ []) ++ decimal j) =
      subst (λ i. smt.to_string v ++ (i ++ decimal k) ≡ smt.to_string w ++ (i ++ decimal j)) ends
        (sym (printed v k hv) ∙ ap smt.to_string same ∙ printed w j hw) in
    let times : k ≡ j =
      sym (parsed-decimal (smt.to_string v) stem c k stop)
      ∙ ap (λ l. parsed (reverse l)) names
      ∙ parsed-decimal (smt.to_string w) stem c j stop in
    let at_one : timed smt time_id v j ≡ timed smt time_id w j =
      subst (λ i. timed smt time_id v i ≡ timed smt time_id w j) times same in
    (timed-injective smt laws ts time_id wf stem c ends stop printed j v w hv hw at_one, times)
