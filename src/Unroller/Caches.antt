-- ===== src/Unroller/Caches.antt =====
-- The caches of core/unroller.cpp and the invariant that `at_time` keeps.
use pono.Base.{
  ℕ, zero, suc, ◌+◌, ◌-◌, ◌≡◌, ◌<◌, ◌≤◌, inl, inr, refl, sym, ap, subst, ◌∙◌, arith, false, List,
  [], ◌∷◌, ◌++◌, some, Eq, ◌==◌, ==_iff, lookup, put, lookup-put, Map, length, if◌then◌else◌,
  Bool-cases, Option-cases, get_or, set, pad, ltb, nat_beq,
}
use pono.Smt.{Smt, Name}
use pono.Ts.{TransitionSystem}
use pono.Ts.Symbols.{next}
use pono.Unroller.{
  Unroller, new_unroller, timed, var_at_time, add_states, add_inputs, add_vars, add_levels,
  var_cache_at_time, at_time, renamed,
}
use pono.Unroller.Timed.{unrolled, level, level_states, level_inputs}

module _ {A : Type 0} where
  pub get_or-pad : (n : ℕ) (ms : List (List A)) (j : ℕ) → get_or (pad n ms) j [] ≡ get_or ms j []
  get_or-pad zero ms j = refl
  get_or-pad (suc n) [] zero = refl
  get_or-pad (suc n) [] (suc j) = get_or-pad n [] j
  get_or-pad (suc n) (m ∷ ms) zero = refl
  get_or-pad (suc n) (m ∷ ms) (suc j) = get_or-pad n ms j

  pub le-length-pad : (n : ℕ) (ms : List (List A)) → n ≤ length (pad n ms)
  le-length-pad zero ms = omega arith
  le-length-pad (suc n) [] = omega (arith, le-length-pad n [])
  le-length-pad (suc n) (m ∷ ms) = omega (arith, le-length-pad n ms)

  pub get_or-set :
      (ms : List A) (k j : ℕ) (m d : A)
      → k < length ms
      → get_or (set ms k m) j d ≡ (if nat_beq k j then m else get_or ms j d)
  get_or-set [] k j m d h = absurd (omega arith)
  get_or-set (x ∷ ms) zero zero m d h = refl
  get_or-set (x ∷ ms) zero (suc j) m d h = ground arith
  get_or-set (x ∷ ms) (suc k) zero m d h = ground arith
  get_or-set (x ∷ ms) (suc k) (suc j) m d h = ground (arith, get_or-set ms k j m d)

  get_or-append :
      (ms : List A) (m d : A) (j : ℕ)
      → get_or (ms ++ m ∷ []) j d ≡ (if nat_beq j (length ms) then m else get_or ms j d)
  get_or-append [] m d zero = refl
  get_or-append [] m d (suc j) = ground arith
  get_or-append (x ∷ ms) m d zero = ground arith
  get_or-append (x ∷ ms) m d (suc j) = ground (arith, get_or-append ms m d j)

  length-concat : (ms : List A) (m : A) → length (ms ++ m ∷ []) ≡ suc (length ms)
  length-concat [] m = refl
  length-concat (x ∷ ms) m = ap suc (length-concat ms m)

module _ {Term : Type 0} ⦃e : Eq Term⦄ (smt : Smt Term) where
  -- what the cache of the copies holds
  abbrev pub IsCopies : Unroller Term → Type 0
  IsCopies u =
      (k : ℕ) (v t : Term)
      → lookup v (get_or u.time_var_map k []) ≡ some t
      → t ≡ timed smt u.time_id v k

  -- what the loops over the variables leave alone
  pub record SameLevels (u u' : Unroller Term) : Type 0 where
    pub id : u'.time_id ≡ u.time_id
    pub levels : u'.time_cache ≡ u.time_cache
    pub count : u'.num_vars ≡ u.num_vars

  pub SameLevels-trans : (a b c : Unroller Term) → SameLevels a b → SameLevels b c → SameLevels a c
  SameLevels-trans a b c h k = record {
    id = k.id ∙ h.id;
    levels = k.levels ∙ h.levels;
    count = k.count ∙ h.count;
  }

  IsCopies-set :
      (maps : List (Map Term Term)) (id : Name) (v : Term) (k : ℕ)
      → k < length maps
      → ((j : ℕ) (w s : Term) → lookup w (get_or maps j []) ≡ some s → s ≡ timed smt id w j)
      → (j : ℕ) (w s : Term)
      → lookup w (get_or (set maps k (put v (timed smt id v k) (get_or maps k []))) j []) ≡ some s
      → s ≡ timed smt id w j
  IsCopies-set maps id v k lt h j w s hit = elim (Bool-cases (nat_beq k j)) [
    | inr other ↦
        h j w s
          (ground (arith, get_or-set maps k j (put v (timed smt id v k) (get_or maps k [])) [] lt))
    | inl same ↦
        let eq : k ≡ j = ground arith in
        let hit' : lookup w (put v (timed smt id v k) (get_or maps k [])) ≡ some s =
          ground (arith, get_or-set maps k j (put v (timed smt id v k) (get_or maps k [])) [] lt) in
        rw (← eq) (elim (Bool-cases (v == w)) [
          | inl y ↦
              let vw : v ≡ w = (==_iff v w).0 y in
              rw (← vw) (ground (arith, lookup-put v w (timed smt id v k) (get_or maps k [])))
          | inr n ↦ h k w s (ground (arith, lookup-put v w (timed smt id v k) (get_or maps k [])))
        ])
  ]

  pub var_at_time_lem :
      (v : Term) (k : ℕ) (u : Unroller Term)
      → IsCopies u
      → ((var_at_time smt v k u).0 ≡ timed smt u.time_id v k)
        × IsCopies (var_at_time smt v k u).1
        × SameLevels u (var_at_time smt v k u).1
  unfolding var_at_time
  var_at_time_lem v k u h =
      elim (Option-cases (lookup v (get_or (pad (suc k) u.time_var_map) k []))) [
        | inr (t, at) ↦
            rw (at, var_at_time)
              (
                h k v t (rw (← get_or-pad (suc k) u.time_var_map k) at),
                λ j w s hit. h j w s (rw get_or-pad at hit),
                record { id = refl; levels = refl; count = refl },
              )
        | inl gone ↦
            rw (gone, var_at_time)
              (
                refl,
                IsCopies-set (pad (suc k) u.time_var_map) u.time_id v k
                    (le-length-pad (suc k) u.time_var_map)
                    (λ j w s hit. h j w s (rw get_or-pad at hit)),
                record { id = refl; levels = refl; count = refl },
              )
      ]

  module _ (ts : TransitionSystem Term) where
    pub add_states_lem :
        (k : ℕ) (vs : List Term) (m : Map Term Term) (u : Unroller Term)
        → IsCopies u
        → ((add_states smt ts k vs (m, u)).0 ≡ level_states smt ts u.time_id k vs m)
          × IsCopies (add_states smt ts k vs (m, u)).1
          × SameLevels u (add_states smt ts k vs (m, u)).1
    unfolding add_states
    add_states_lem k [] m u h = (refl, h, record { id = refl; levels = refl; count = refl })
    add_states_lem k (v ∷ vs) m u h =
        let (t1, h1, s1) = var_at_time_lem v k u h in
        let u1 = (var_at_time smt v k u).1 in
        let (t2, h2, s2) = var_at_time_lem v (suc k) u1 h1 in
        let u2 = (var_at_time smt v (suc k) u1).1 in
        let s = SameLevels-trans u u1 u2 s1 s2 in
        let m' =
          put (next smt ts v) (var_at_time smt v (suc k) u1).0
            (put v (var_at_time smt v k u).0 m) in
        let (t3, h3, s3) = add_states_lem k vs m' u2 h2 in
        (t3 ∙ rw (t1, t2, s.id, s1.id) refl, h3, SameLevels-trans u u2 _ s s3)

    pub add_inputs_lem :
        (k : ℕ) (vs : List Term) (m : Map Term Term) (u : Unroller Term)
        → IsCopies u
        → ((add_inputs smt k vs (m, u)).0 ≡ level_inputs smt ts u.time_id k vs m)
          × IsCopies (add_inputs smt k vs (m, u)).1
          × SameLevels u (add_inputs smt k vs (m, u)).1
    unfolding add_inputs
    add_inputs_lem k [] m u h = (refl, h, record { id = refl; levels = refl; count = refl })
    add_inputs_lem k (v ∷ vs) m u h =
        let (t1, h1, s1) = var_at_time_lem v k u h in
        let u1 = (var_at_time smt v k u).1 in
        let (t3, h3, s3) = add_inputs_lem k vs (put v (var_at_time smt v k u).0 m) u1 h1 in
        (t3 ∙ rw (t1, s1.id) refl, h3, SameLevels-trans u u1 _ s1 s3)

    pub add_vars_lem :
        (k : ℕ) (u : Unroller Term)
        → IsCopies u
        → ((add_vars smt ts k ([], u)).0 ≡ level smt ts u.time_id k)
          × IsCopies (add_vars smt ts k ([], u)).1
          × SameLevels u (add_vars smt ts k ([], u)).1
    unfolding add_vars
    add_vars_lem k u h =
        let (t1, h1, s1) = add_states_lem k ts.statevars [] u h in
        let r = add_states smt ts k ts.statevars ([], u) in
        let (t2, h2, s2) = add_inputs_lem k ts.inputvars r.0 r.1 h1 in
        (t2 ∙ rw (t1, s1.id) refl, h2, SameLevels-trans u r.1 _ s1 s2)

    -- the invariant of an unroller of the system
    pub record IsTimed (u : Unroller Term) : Type 0 where
      pub copies : IsCopies u
      pub caches :
          (j : ℕ) → j < length u.time_cache → get_or u.time_cache j [] ≡ level smt ts u.time_id j
      pub counted : length ts.statevars + length ts.inputvars ≤ u.num_vars

    pub push_level :
        (u v : Unroller Term) (m : Map Term Term)
        → IsTimed u
        → SameLevels u v
        → IsCopies v
        → m ≡ level smt ts u.time_id (length u.time_cache)
        → IsTimed (record v { time_cache = v.time_cache ++ m ∷ [] })
          × (length (v.time_cache ++ m ∷ []) ≡ suc (length u.time_cache))
    push_level u v m h s copies eq =
        let len : length (v.time_cache ++ m ∷ []) ≡ suc (length u.time_cache) =
          length-concat v.time_cache m ∙ ap (λ c. suc (length c)) s.levels in
        (
          record {
            copies = copies;
            caches = λ j lt.
                rw (get_or-append v.time_cache m [] j, s.levels, s.id)
                  (elim (Bool-cases (nat_beq j (length u.time_cache))) [
                    | inl last ↦
                        let at : j ≡ length u.time_cache = ground arith in rw (last, eq, at) refl
                    | inr earlier ↦ rw earlier (h.caches j (ground (arith, len)))
                  ]);
            counted = rw s.count h.counted;
          },
          len,
        )

    pub add_levels_lem :
        (n : ℕ) (u : Unroller Term)
        → IsTimed u
        → IsTimed (add_levels smt ts n u)
          × ((add_levels smt ts n u).time_id ≡ u.time_id)
          × (length (add_levels smt ts n u).time_cache ≡ n + length u.time_cache)
    unfolding add_levels
    add_levels_lem zero u h = (h, refl, omega arith)
    add_levels_lem (suc n) u h =
        let (t, h1, s) = add_vars_lem (length u.time_cache) u h.copies in
        let r = add_vars smt ts (length u.time_cache) ([], u) in
        let (ok', longer) = push_level u r.1 r.0 h s h1 t in
        let (h2, id, len) =
          add_levels_lem n (record r.1 { time_cache = r.1.time_cache ++ r.0 ∷ [] }) ok' in
        (h2, id ∙ s.id, len ∙ omega (arith, longer))

    -- For an unroller whose caches are in order, `at_time` returns the term of `unrolled`, and its caches
    -- are in order after it.
    pub at_time-unrolled :
        (t : Term) (k : ℕ) (u : Unroller Term)
        → IsTimed u
        → ((at_time smt ts t k u).0 ≡ unrolled smt ts u.time_id t k)
          × IsTimed (at_time smt ts t k u).1
          × ((at_time smt ts t k u).1.time_id ≡ u.time_id)
    unfolding at_time var_cache_at_time unrolled
    at_time-unrolled t k u h =
        let n = suc k - length u.time_cache in
        let (h1, id, len) = add_levels_lem n u h in
        let u1 = add_levels smt ts n u in
        let small : ltb u1.num_vars (length ts.statevars + length ts.inputvars) ≡ false =
          ground (arith, h1.counted) in
        let cached : var_cache_at_time smt ts k u ≡ (get_or u1.time_cache k [], u1) =
          rw (small, var_cache_at_time) refl in
        let cache : get_or u1.time_cache k [] ≡ level smt ts u.time_id k =
          h1.caches k (omega (arith, len)) ∙ ap (λ i. level smt ts i k) id in
        let after = ap (λ r. r.1) cached in
        (
          ap (λ r. renamed smt t r.0) cached ∙ ap (renamed smt t) cache,
          subst IsTimed (sym after) h1,
          ap (λ v. v.time_id) after ∙ id,
        )

    pub new_unroller-IsTimed : (id : Name) → IsTimed (new_unroller smt ts id)
    new_unroller-IsTimed id = record {
      copies = λ k v t at. absurd (cc);
      caches = λ j lt. absurd (omega arith);
      counted = omega arith;
    }
