-- ===== src/Unroller/Copies.antt =====
-- The writes of `var_at_time` of core/unroller.cpp to the maps that lead back from a copy.
use pono.Base.{
  ℕ, suc, ◌≡◌, ◌<◌, inl, inr, subst, arith, Bool, true, List, [], ◌∷◌, some, none, Eq, ◌==◌, ==_iff,
  ==_refl, lookup, put, lookup-put, Map, length, all, Bool-cases, Option-cases, get_or, set, pad,
  nat_beq,
}
use pono.Smt.{Smt, Name}
use pono.Smt.Laws.{SmtLaws}
use pono.Ts.{TransitionSystem}
use pono.Ts.Vars.WellFormed.{is_var}
use pono.Unroller.{Unroller, timed, var_at_time}
use pono.Unroller.Caches.{get_or-pad, get_or-set, le-length-pad}

module _ {Term : Type 0} ⦃e : Eq Term⦄ (smt : Smt Term) (laws : SmtLaws smt)
    (ts : TransitionSystem Term) (time_id : Name) where
  open smt use {is_symbolic_const, eval}

  -- the copies of different variables or times are different
  abbrev pub IsApart : Type 0
  IsApart =
      (k j : ℕ) (v w : Term)
      → is_var smt ts v ≡ true
      → is_var smt ts w ≡ true
      → timed smt time_id v k ≡ timed smt time_id w j
      → (v ≡ w) × (k ≡ j)

  -- the unroller goes back from the copy of a variable
  unfoldable pub Seen : Unroller Term → Term → ℕ → Type 0
  Seen u v k =
      (lookup (timed smt time_id v k) u.untime_cache ≡ some v)
      × (lookup (timed smt time_id v k) u.var_times ≡ some k)

  pub record IsUntimed (u : Unroller Term) : Type 0 where
    pub hits :
        (k : ℕ) (v t : Term)
        → is_var smt ts v ≡ true
        → lookup v (get_or u.time_var_map k []) ≡ some t
        → Seen u v k
    pub symbolic : all (λ kv. is_symbolic_const kv.0) u.untime_cache ≡ true

  unfoldable pub Kept : Unroller Term → Unroller Term → Type 0
  Kept u u' = (v : Term) (k : ℕ) → is_var smt ts v ≡ true → Seen u v k → Seen u' v k

  Kept-trans : (a b c : Unroller Term) → Kept a b → Kept b c → Kept a c
  unfolding Kept
  Kept-trans a b c h g v k var s = g v k var (h v k var s)

  all_of_put :
      (p : Term × Term → Bool) (k v : Term) (m : Map Term Term)
      → all p m ≡ true
      → p (k, v) ≡ true
      → all p (put k v m) ≡ true
  all_of_put p k v [] h g = ground arith
  all_of_put p k v ((j, w) ∷ m) h g = ground (arith, all_of_put p k v m)

  module _ (apart : IsApart) where
    -- the writes of `var_at_time` for a new copy
    abbrev written : Term → ℕ → Unroller Term → Unroller Term
    written v k u = record u {
      untime_cache = put (timed smt time_id v k) v u.untime_cache;
      var_times = put (timed smt time_id v k) k u.var_times;
    }

    Seen-written :
        (v w : Term) (k j : ℕ) (u : Unroller Term)
        → is_var smt ts v ≡ true
        → is_var smt ts w ≡ true
        → Seen u w j
        → Seen (written v k u) w j
    unfolding Seen
    Seen-written v w k j u hv hw (back, time) =
        elim (Bool-cases (timed smt time_id v k == timed smt time_id w j)) [
          | inl y ↦
              let (same, at) = apart k j v w hv hw ((==_iff _ _).0 y) in
              (
                ground (
                  arith,
                  lookup-put (timed smt time_id v k) (timed smt time_id w j) v u.untime_cache,
                ),
                ground (
                  arith,
                  lookup-put (timed smt time_id v k) (timed smt time_id w j) k u.var_times,
                ),
              )
          | inr n ↦ (
            ground (
              arith,
              lookup-put (timed smt time_id v k) (timed smt time_id w j) v u.untime_cache,
            ),
            ground
                (arith, lookup-put (timed smt time_id v k) (timed smt time_id w j) k u.var_times),
          )
        ]

    Seen-new : (v : Term) (k : ℕ) (u : Unroller Term) → Seen (written v k u) v k
    unfolding Seen
    Seen-new v k u = (
      ground (
        arith,
        lookup-put (timed smt time_id v k) (timed smt time_id v k) v u.untime_cache,
        ==_refl (timed smt time_id v k),
      ),
      ground (
        arith,
        lookup-put (timed smt time_id v k) (timed smt time_id v k) k u.var_times,
        ==_refl (timed smt time_id v k),
      ),
    )

    abbrev after_var : Term → ℕ → Unroller Term → Unroller Term
    after_var v k u = (var_at_time smt v k u).1

    -- the copies with a new one
    hits-set :
        (maps : List (Map Term Term)) (v w s : Term) (k j : ℕ) (u u' : Unroller Term)
        → k < length maps
        → ((i : ℕ) (x t : Term)
            → is_var smt ts x ≡ true
            → lookup x (get_or maps i []) ≡ some t
            → Seen u' x i)
        → Seen u' v k
        → is_var smt ts w ≡ true
        → lookup w (get_or (set maps k (put v (timed smt time_id v k) (get_or maps k []))) j [])
          ≡ some s
        → Seen u' w j
    hits-set maps v w s k j u u' lt old new var hit = elim (Bool-cases (nat_beq k j)) [
      | inr other ↦ old j w s var (
          ground
            (arith, get_or-set maps k j (put v (timed smt time_id v k) (get_or maps k [])) [] lt))
      | inl same ↦
          let eq : k ≡ j = ground arith in
          let hit' : lookup w (put v (timed smt time_id v k) (get_or maps k [])) ≡ some s =
            ground (
              arith,
              get_or-set maps k j (put v (timed smt time_id v k) (get_or maps k [])) [] lt,
            ) in
          rw (← eq) (elim (Bool-cases (v == w)) [
            | inl y ↦ let vw : v ≡ w = (==_iff v w).0 y in rw (← vw) new
            | inr n ↦
                old k w s var
                  (ground (arith, lookup-put v w (timed smt time_id v k) (get_or maps k [])))
          ])
    ]

    -- what `var_at_time` promises
    abbrev pub Marked : Term → ℕ → Unroller Term → Unroller Term → Type 0
    Marked v k u u' = IsUntimed u' × Kept u u' × Seen u' v k

    found_eq :
        (v : Term) (k : ℕ) (u : Unroller Term) (t : Term)
        → lookup v (get_or (pad (suc k) u.time_var_map) k []) ≡ some t
        → record u { time_var_map = pad (suc k) u.time_var_map } ≡ (var_at_time smt v k u).1
    unfolding var_at_time
    found_eq v k u t at = ground arith

    new_eq :
        (v : Term) (k : ℕ) (u : Unroller Term)
        → u.time_id ≡ time_id
        → lookup v (get_or (pad (suc k) u.time_var_map) k []) ≡ none
        → record (written v k u) {
          time_var_map =
              set
                (pad (suc k) u.time_var_map)
                k
                (put v (timed smt time_id v k) (get_or (pad (suc k) u.time_var_map) k []));
        }
          ≡ (var_at_time smt v k u).1
    unfolding var_at_time
    new_eq v k u id gone = rw (← id) (ground arith)

    pub var_lem :
        (v : Term) (k : ℕ) (u : Unroller Term)
        → is_var smt ts v ≡ true
        → u.time_id ≡ time_id
        → IsUntimed u
        → Marked v k u (var_at_time smt v k u).1
    unfolding Seen Kept
    var_lem v k u var id h =
        let maps = pad (suc k) u.time_var_map in
        elim (Option-cases (lookup v (get_or maps k []))) [
          | inr (t, at) ↦ subst (Marked v k u) (found_eq v k u t at) (
            record {
              hits = λ j w s var' hit. h.hits j w s var' (rw get_or-pad at hit);
              symbolic = h.symbolic;
            },
            λ w j var' s. s,
            h.hits k v t var (rw (← get_or-pad (suc k) u.time_var_map k) at),
          )
          | inl gone ↦ subst (Marked v k u) (new_eq v k u id gone) (
            record {
              hits = λ j w s var' hit.
                  hits-set maps v w s k j u (written v k u) (le-length-pad (suc k) u.time_var_map)
                    (λ i x t var'' there.
                      Seen-written v x k i u var var''
                        (h.hits i x t var'' (rw get_or-pad at there)))
                    (Seen-new v k u) var' hit;
              symbolic =
                  all_of_put (λ kv. is_symbolic_const kv.0) (timed smt time_id v k) v u.untime_cache
                    h.symbolic (laws.make_symbol-symbolic _ _);
            },
            λ w j var' s. Seen-written v w k j u var var' s,
            Seen-new v k u,
          )
        ]
