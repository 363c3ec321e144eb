-- ===== src/Unroller.antt =====
-- core/unroller.h and core/unroller.cpp: the copies of the variables at each time step, and the caches
-- of the renamings. The transition system that the unroller refers to is an argument.
pub mod Digits
pub mod Timed
pub mod Trace
pub mod Caches
pub mod Meaning
pub mod Copies
pub mod Untimed
use pono.Base.{
  ℕ, zero, suc, ◌+◌, ◌-◌, ◌/◌, ◌%◌, Bool, true, false, List, [], ◌∷◌, ◌++◌, Option, some, none, map,
  Eq, lookup, put, Map, length, ltb, if◌then◌else◌, Result, ok, err, Error, get_or, set, pad,
  max_of, min_of,
}
use pono.Smt.{Smt, Name}
use pono.Ts.{TransitionSystem}
use pono.Ts.Symbols.{next}
use pono.Unroller.Digits.{decimal}

pub record Unroller (Term : Type 0) : Type 0 where
  pub time_id : Name
  pub time_cache : List (Map Term Term)
  pub time_var_map : List (Map Term Term)
  pub untime_cache : Map Term Term
  pub var_times : Map Term ℕ
  pub num_vars : ℕ

module _ {Term : Type 0} ⦃e : Eq Term⦄ (smt : Smt Term) where
  open smt use {get_sort, to_string, make_symbol, substitute, free_symbols}

  abbrev pub new_unroller : TransitionSystem Term → Name → Unroller Term
  new_unroller ts time_identifier = record {
    time_id = time_identifier;
    time_cache = [];
    time_var_map = [];
    untime_cache = [];
    var_times = [];
    num_vars = length ts.statevars + length ts.inputvars;
  }

  -- the symbol that `var_at_time` makes for `v` at time `k`
  abbrev pub timed : Name → Term → ℕ → Term
  timed time_id v k = make_symbol (to_string v ++ (time_id ++ decimal k)) (get_sort v)

  pub var_at_time : Term → ℕ → Unroller Term → Term × Unroller Term
  var_at_time v k u =
      let maps = pad (suc k) u.time_var_map in
      let cache = get_or maps k [] in
      elim (lookup v cache) [
        | some t ↦ (t, record u { time_var_map = maps })
        | none ↦
            (let timed_v = timed u.time_id v k in
              (
                timed_v,
                record u {
                  time_var_map = set maps k (put v timed_v cache);
                  untime_cache = put timed_v v u.untime_cache;
                  var_times = put timed_v k u.var_times;
                },
              ))
      ]

  -- the two loops of `var_cache_at_time` over the variables, for the level of time `t`
  pub add_states :
      TransitionSystem Term
      → ℕ
      → List Term
      → Map Term Term × Unroller Term
      → Map Term Term × Unroller Term
  unfolding var_at_time
  add_states ts t [] r = r
  add_states ts t (v ∷ vs) (subst, u) =
      let vn = next smt ts v in
      let (new_v, u1) = var_at_time v t u in
      let (new_vn, u2) = var_at_time v (suc t) u1 in
      add_states ts t vs (put vn new_vn (put v new_v subst), u2)

  pub add_inputs : ℕ → List Term → Map Term Term × Unroller Term → Map Term Term × Unroller Term
  unfolding var_at_time
  add_inputs t [] r = r
  add_inputs t (v ∷ vs) (subst, u) =
      let (new_v, u1) = var_at_time v t u in add_inputs t vs (put v new_v subst, u1)

  pub add_vars :
      TransitionSystem Term → ℕ → Map Term Term × Unroller Term → Map Term Term × Unroller Term
  unfolding add_states add_inputs
  add_vars ts t r = add_inputs t ts.inputvars (add_states ts t ts.statevars r)

  -- `while (time_cache_.size() <= k)`, by the rounds left
  pub add_levels : TransitionSystem Term → ℕ → Unroller Term → Unroller Term
  unfolding add_vars
  add_levels ts zero u = u
  add_levels ts (suc n) u =
      let (subst, u') = add_vars ts (length u.time_cache) ([], u) in
      add_levels ts n (record u' { time_cache = u'.time_cache ++ subst ∷ [] })

  -- the loop over all the levels when the system has grown
  refresh :
      TransitionSystem Term
      → ℕ
      → List (Map Term Term)
      → Unroller Term
      → List (Map Term Term) × Unroller Term
  unfolding add_vars
  refresh ts t [] u = ([], u)
  refresh ts t (m ∷ ms) u =
      let (m', u') = add_vars ts t (m, u) in
      let (ms', u'') = refresh ts (suc t) ms u' in (m' ∷ ms', u'')

  -- the cache of time `k`, and the unroller with all the caches up to it
  pub var_cache_at_time : TransitionSystem Term → ℕ → Unroller Term → Map Term Term × Unroller Term
  unfolding add_levels refresh
  var_cache_at_time ts k u =
      let u1 = add_levels ts (suc k - length u.time_cache) u in
      let current = length ts.statevars + length ts.inputvars in
      if ltb u1.num_vars current
      then (let (levels, u2) = refresh ts 0 u1.time_cache (record u1 { num_vars = current }) in
          (get_or levels k [], record u2 { time_cache = levels }))
      else (get_or u1.time_cache k [], u1)

  -- a variable is cached, any other term is renamed by the cache
  unfoldable pub renamed : Term → Map Term Term → Term
  renamed t cache = elim (lookup t cache) [ some timed_t ↦ timed_t | none ↦ substitute t cache ]

  unfoldable pub at_time : TransitionSystem Term → Term → ℕ → Unroller Term → Term × Unroller Term
  unfolding var_cache_at_time renamed
  at_time ts t k u = let (cache, u') = var_cache_at_time ts k u in (renamed t cache, u')

  unfoldable pub untime : Term → Unroller Term → Term
  untime t u = substitute t u.untime_cache

  unfoldable pub get_var_time : Term → Unroller Term → Result ℕ
  get_var_time v u = elim (lookup v u.var_times) [ some k ↦ ok k | none ↦ err Error.no_time ]

  -- the times of the symbols
  times_of : List Term → Unroller Term → Result (List ℕ)
  unfolding get_var_time
  times_of [] u = ok []
  times_of (v ∷ vs) u = elim (get_var_time v u) [
    | err x ↦ err x
    | ok k ↦ elim (times_of vs u) [ err x ↦ err x | ok ks ↦ ok (k ∷ ks) ]
  ]

  -- A term without symbols makes the source read past the end of an empty set: `empty_set`.
  unfoldable pub get_curr_time : Term → Unroller Term → Result ℕ
  unfolding times_of
  get_curr_time t u = elim (times_of (free_symbols t) u) [
    | err x ↦ err x
    | ok [] ↦ err Error.empty_set
    | ok (k ∷ ks) ↦
        if ltb 1 (max_of k ks - min_of k ks) then err Error.not_unrolled else ok (min_of k ks)
  ]
