-- ===== src/Unroller/Timed.antt =====
-- The renaming of time `k` as a function of the transition system, and what a renamed term means.
use pono.Base.{
  ℕ, suc, ◌≡◌, ◌⊎◌, inl, inr, refl, sym, subst, ◌∙◌, arith, Bool, true, List, [], ◌∷◌, some, none,
  Eq, ◌==◌, ==_iff, ==_refl, mem, lookup, put, lookup-put, Map, all, Bool-cases, Option-cases,
}
use pono.Smt.{Smt, Name}
use pono.Smt.Laws.{SmtLaws, Model, under}
use pono.Ts.{TransitionSystem}
use pono.Ts.Symbols.{next}
use pono.Ts.Vars.WellFormed.{IsWellFormed, is_var}
use pono.Unroller.{timed, renamed}

module _ {K V : Type 0} ⦃e : Eq K⦄ where
  all_of_put :
      (p : K × V → Bool) (k : K) (v : V) (m : Map K V)
      → all p m ≡ true
      → p (k, v) ≡ true
      → all p (put k v m) ≡ true
  all_of_put p k v [] h g = ground arith
  all_of_put p k v ((j, w) ∷ m) h g = ground (arith, all_of_put p k v m)

module _ {Term : Type 0} ⦃e : Eq Term⦄ (smt : Smt Term) (ts : TransitionSystem Term)
    (time_id : Name) where
  abbrev pub level_states : ℕ → List Term → Map Term Term → Map Term Term
  level_states k [] m = m
  level_states k (v ∷ vs) m =
      level_states k vs
        (put (next smt ts v) (timed smt time_id v (suc k)) (put v (timed smt time_id v k) m))

  abbrev pub level_inputs : ℕ → List Term → Map Term Term → Map Term Term
  level_inputs k [] m = m
  level_inputs k (v ∷ vs) m = level_inputs k vs (put v (timed smt time_id v k) m)

  -- the renaming of time `k`
  abbrev pub level : ℕ → Map Term Term
  level k = level_inputs k ts.inputvars (level_states k ts.statevars [])

  -- what `at_time` returns
  unfoldable pub unrolled : Term → ℕ → Term
  unfolding renamed
  unrolled t k = renamed smt t (level k)

  -- the copy of a variable, or of a next-state variable, at time `k`
  unfoldable pub image : ℕ → Term → Term
  image k x = elim (lookup x ts.curr_map) [
    | some v ↦ timed smt time_id v (suc k)
    | none ↦ timed smt time_id x k
  ]

  -- the values that the copies of time `k` have
  abbrev pub view : ℕ → Model smt → Model smt
  view k σ x = σ (image k x)

  -- a state variable, an input or the next-state variable of a state variable
  abbrev pub IsKnown : Term → Type 0
  IsKnown x =
      (is_var smt ts x ≡ true)
      ⊎ ((v : Term) × (mem v ts.statevars ≡ true) × (lookup v ts.next_map ≡ some x))

  abbrev pub Speaks : Term → Type 0
  Speaks t = (x : Term) → mem x (smt.free_symbols t) ≡ true → IsKnown x

module _ {Term : Type 0} ⦃e : Eq Term⦄ (smt : Smt Term) (laws : SmtLaws smt)
    (ts : TransitionSystem Term) (time_id : Name) (wf : IsWellFormed smt ts) where
  open smt use {substitute, is_symbolic_const, eval}

  -- the entries of a renaming
  record Entries (k : ℕ) (m : Map Term Term) : Type 0 where
    hits :
        (x u : Term)
        → lookup x m ≡ some u
        → (u ≡ image smt ts time_id k x) × (is_symbolic_const x ≡ true)
    renames : all (λ kv. is_symbolic_const kv.0) m ≡ true

  Entries-put :
      (k : ℕ) (m : Map Term Term) (x : Term)
      → Entries k m
      → is_symbolic_const x ≡ true
      → Entries k (put x (image smt ts time_id k x) m)
  Entries-put k m x h s = record {
    hits = λ y u at. elim (Bool-cases (x == y)) [
      | inl same ↦
          let eq : x ≡ y = (==_iff x y).0 same in
          let v : u ≡ image smt ts time_id k x =
            ground (arith, lookup-put x y (image smt ts time_id k x) m) in
          rw (← eq) (v, s)
      | inr other ↦ h.hits y u (ground (arith, lookup-put x y (image smt ts time_id k x) m))
    ];
    renames = all_of_put (λ kv. is_symbolic_const kv.0) x (image smt ts time_id k x) m h.renames s;
  }

  pub image-var :
      (k : ℕ) (x : Term) → is_var smt ts x ≡ true → image smt ts time_id k x ≡ timed smt time_id x k
  unfolding image
  image-var k x v = elim (Option-cases (lookup x ts.curr_map)) [
    | inl none_at ↦ rw (none_at, image) refl
    | inr (w, at) ↦ absurd (ground (arith, wf.curr_in x w at, wf.plain x v))
  ]

  pub image-next :
      (k : ℕ) (v n : Term)
      → mem v ts.statevars ≡ true
      → lookup v ts.next_map ≡ some n
      → (image smt ts time_id k n ≡ timed smt time_id v (suc k)) × (is_symbolic_const n ≡ true)
  unfolding image
  image-next k v n m at =
      let (n', at', back, is_next) = wf.next_of v m in
      let same : n' ≡ n = ground arith in
      let back' : lookup n ts.curr_map ≡ some v =
        subst (λ z. lookup z ts.curr_map ≡ some v) same back in
      (
        rw (back', image) refl,
        subst (λ z. is_symbolic_const z ≡ true) same (wf.next_symbolic n' is_next),
      )

  next_lem : (v : Term) → mem v ts.statevars ≡ true → lookup v ts.next_map ≡ some (next smt ts v)
  unfolding next
  next_lem v m = let (n, at, _, _) = wf.next_of v m in ground arith

  Entries-var :
      (k : ℕ) (m : Map Term Term) (v : Term)
      → Entries k m
      → is_var smt ts v ≡ true
      → Entries k (put v (timed smt time_id v k) m)
  Entries-var k m v h var = rw (← image-var k v var) (Entries-put k m v h (wf.symbolic v var))

  Entries-next :
      (k : ℕ) (m : Map Term Term) (v : Term)
      → Entries k m
      → mem v ts.statevars ≡ true
      → Entries k (put (next smt ts v) (timed smt time_id v (suc k)) m)
  Entries-next k m v h state =
      let (eq, s) = image-next k v (next smt ts v) state (next_lem v state) in
      rw (← eq) (Entries-put k m (next smt ts v) h s)

  Entries-states :
      (k : ℕ) (vs : List Term) (m : Map Term Term)
      → ((x : Term) → mem x vs ≡ true → mem x ts.statevars ≡ true)
      → Entries k m
      → Entries k (level_states smt ts time_id k vs m)
  Entries-states k [] m sub h = h
  Entries-states k (v ∷ vs) m sub h =
      let state = sub v (ground (arith, ==_refl v)) in
      Entries-states k vs _ (λ x mx. sub x (ground arith))
        (Entries-next k (put v (timed smt time_id v k) m) v (Entries-var k m v h (ground arith))
          state)

  Entries-inputs :
      (k : ℕ) (vs : List Term) (m : Map Term Term)
      → ((x : Term) → mem x vs ≡ true → mem x ts.inputvars ≡ true)
      → Entries k m
      → Entries k (level_inputs smt ts time_id k vs m)
  Entries-inputs k [] m sub h = h
  Entries-inputs k (v ∷ vs) m sub h =
      Entries-inputs k vs _ (λ x mx. sub x (ground arith))
        (Entries-var k m v h (ground (arith, sub v (ground (arith, ==_refl v)))))

  Entries-level : (k : ℕ) → Entries k (level smt ts time_id k)
  Entries-level k =
      Entries-inputs k ts.inputvars _ (λ x m. m)
        (Entries-states k ts.statevars [] (λ x m. m)
          (record { hits = λ x u at. absurd (cc); renames = refl }))

  -- an entry stays while other entries are put
  IsThere : Map Term Term → Term → Type 0
  IsThere m x = (u : Term) × (lookup x m ≡ some u)

  IsThere-put : (m : Map Term Term) (x y w : Term) → IsThere m x → IsThere (put y w m) x
  unfolding IsThere
  IsThere-put m x y w (u, at) = elim (Bool-cases (y == x)) [
    | inl same ↦ (w, ground (arith, lookup-put y x w m))
    | inr other ↦ (u, ground (arith, lookup-put y x w m))
  ]

  IsThere-put_self : (m : Map Term Term) (x w : Term) → IsThere (put x w m) x
  unfolding IsThere
  IsThere-put_self m x w = (w, ground (arith, lookup-put x x w m, ==_refl x))

  IsThere-states :
      (k : ℕ) (vs : List Term) (m : Map Term Term) (x : Term)
      → IsThere m x
      → IsThere (level_states smt ts time_id k vs m) x
  IsThere-states k [] m x h = h
  IsThere-states k (v ∷ vs) m x h =
      IsThere-states k vs _ x (IsThere-put _ x (next smt ts v) _ (IsThere-put m x v _ h))

  IsThere-inputs :
      (k : ℕ) (vs : List Term) (m : Map Term Term) (x : Term)
      → IsThere m x
      → IsThere (level_inputs smt ts time_id k vs m) x
  IsThere-inputs k [] m x h = h
  IsThere-inputs k (v ∷ vs) m x h = IsThere-inputs k vs _ x (IsThere-put m x v _ h)

  IsThere-of_state :
      (k : ℕ) (vs : List Term) (m : Map Term Term) (v : Term)
      → mem v vs ≡ true
      → IsThere (level_states smt ts time_id k vs m) v
        × IsThere (level_states smt ts time_id k vs m) (next smt ts v)
  IsThere-of_state k [] m v h = absurd (cc)
  IsThere-of_state k (w ∷ vs) m v h = elim (Bool-cases (w == v)) [
    | inl y ↦
        let eq : w ≡ v = (==_iff w v).0 y in
        rw (← eq) (
          IsThere-states k vs _ w (IsThere-put _ w (next smt ts w) _ (IsThere-put_self m w _)),
          IsThere-states k vs _ (next smt ts w) (IsThere-put_self _ (next smt ts w) _),
        )
    | inr n ↦ IsThere-of_state k vs _ v (ground arith)
  ]

  IsThere-of_input :
      (k : ℕ) (vs : List Term) (m : Map Term Term) (v : Term)
      → mem v vs ≡ true
      → IsThere (level_inputs smt ts time_id k vs m) v
  IsThere-of_input k [] m v h = absurd (cc)
  IsThere-of_input k (w ∷ vs) m v h = elim (Bool-cases (w == v)) [
    | inl y ↦
        let eq : w ≡ v = (==_iff w v).0 y in
        rw (← eq) (IsThere-inputs k vs _ w (IsThere-put_self m w _))
    | inr n ↦ IsThere-of_input k vs _ v (ground arith)
  ]

  level-known : (k : ℕ) (x : Term) → IsKnown smt ts time_id x → IsThere (level smt ts time_id k) x
  level-known k x (inl var) = elim (Bool-cases (mem x ts.inputvars)) [
    | inl input ↦ IsThere-of_input k ts.inputvars _ x input
    | inr other ↦
        IsThere-inputs k ts.inputvars _ x (IsThere-of_state k ts.statevars [] x (ground arith)).0
  ]
  level-known k x (inr (v, state, at)) =
      let eq : next smt ts v ≡ x = let there = next_lem v state in ground arith in
      rw (← eq) (
        IsThere-inputs k ts.inputvars _ (next smt ts v)
          (IsThere-of_state k ts.statevars [] v state).1)

  image-symbolic : (k : ℕ) (x : Term) → is_symbolic_const (image smt ts time_id k x) ≡ true
  unfolding image
  image-symbolic k x = elim (Option-cases (lookup x ts.curr_map)) [
    | inl gone ↦ rw (gone, image) (laws.make_symbol-symbolic _ _)
    | inr (v, at) ↦ rw (at, image) (laws.make_symbol-symbolic _ _)
  ]

  eval-renamed :
      (k : ℕ) (σ : Model smt) (t : Term)
      → Speaks smt ts time_id t
      → eval σ (substitute t (level smt ts time_id k)) ≡ eval (view smt ts time_id k σ) t
  unfolding IsThere
  eval-renamed k σ t known =
      laws.eval-substitute σ t (level smt ts time_id k) (Entries-level k).renames
      ∙ laws.eval-Agree (under smt (level smt ts time_id k) σ) (view smt ts time_id k σ) t
          (λ x free.
            let (u, at) = level-known k x (known x free) in
            let (eq, _) = (Entries-level k).hits x u at in
            rw (at, under) (rw eq (laws.eval-symbol σ _ (image-symbolic k x))))

  -- The term that `at_time` returns has the value of the original in the view of time `k`.
  pub eval-unrolled :
      (k : ℕ) (σ : Model smt) (t : Term)
      → Speaks smt ts time_id t
      → eval σ (unrolled smt ts time_id t k) ≡ eval (view smt ts time_id k σ) t
  unfolding unrolled
  eval-unrolled k σ t known = elim (Option-cases (lookup t (level smt ts time_id k))) [
    | inl gone ↦ rw (gone, renamed) (eval-renamed k σ t known)
    | inr (u, at) ↦
        let (eq, s) = (Entries-level k).hits t u at in
        rw (at, renamed, eq)
          (laws.eval-symbol σ _ (image-symbolic k t)
            ∙ sym (laws.eval-symbol (view smt ts time_id k σ) t s))
  ]
