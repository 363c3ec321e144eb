-- ===== src/Ts/Symbols/Contains.antt =====
-- `contains` decides whether all the symbols of a term are in one of the sets.
use pono.Base.{
  ℕ, zero, suc, ◌+◌, ◌≤◌, ◌<◌, ◌≡◌, ◌↔◌, inl, inr, refl, arith, Bool, true, false, not, ◌&&◌, ◌||◌,
  List, [], ◌∷◌, some, foldl, Eq, ◌==◌, ==_iff, ==_refl, mem, insert, mem-insert, any, sum_map,
  Bool-cases, ap,
}
use pono.Smt.{Smt}
use pono.Smt.Laws.{SmtLaws}
use pono.Ts.Symbols.{contains_loop, contains}

module _ {Term : Type 0} ⦃e : Eq Term⦄ where
  abbrev pub push_children : List Term → List Term → List Term
  push_children rest cs = foldl (λ st c. c ∷ st) rest cs

  pub sum_map-push_children :
      (f : Term → ℕ) (rest cs : List Term)
      → sum_map f (push_children rest cs) ≡ sum_map f cs + sum_map f rest
  sum_map-push_children f rest [] = omega arith
  sum_map-push_children f rest (c ∷ cs) = omega (arith, sum_map-push_children f (c ∷ rest) cs)

  pub mem-push_children :
      (x : Term) (rest cs : List Term) → mem x (push_children rest cs) ≡ (mem x cs || mem x rest)
  mem-push_children x rest [] = refl
  mem-push_children x rest (c ∷ cs) = ground (arith, mem-push_children x (c ∷ rest) cs)

  pub any_of_mem :
      (p : Term → Bool) (c : Term) (cs : List Term) → mem c cs ≡ true → p c ≡ true → any p cs ≡ true
  any_of_mem p c [] m h = cc
  any_of_mem p c (d ∷ cs) m h = ground (arith, ==_iff d c, any_of_mem p c cs)

  pub mem_of_any :
      (p : Term → Bool) (cs : List Term)
      → any p cs ≡ true
      → (c : Term) × (mem c cs ≡ true) × (p c ≡ true)
  mem_of_any p [] h = cc
  mem_of_any p (d ∷ cs) h = elim (Bool-cases (p d)) [
    | inl y ↦ (d, ground (arith, ==_refl d), y)
    | inr n ↦ let (c, m, y) = mem_of_any p cs (ground arith) in (c, ground arith, y)
  ]

  pub le-sum_map : (f : Term → ℕ) (c : Term) (cs : List Term) → mem c cs ≡ true → f c ≤ sum_map f cs
  le-sum_map f c [] m = cc
  le-sum_map f c (d ∷ cs) m = elim (Bool-cases (d == c)) [
    | inl y ↦ let eq : d ≡ c = (==_iff d c).0 y in rw (← eq) (omega arith)
    | inr n ↦ omega (arith, le-sum_map f c cs (ground arith))
  ]

module _ {Term : Type 0} ⦃e : Eq Term⦄ (smt : Smt Term) (laws : SmtLaws smt) where
  open smt use {is_symbolic_const, children, size, free_symbols}

  -- every symbol of the term is in one of the sets
  abbrev pub Covered : List (List Term) → Term → Type 0
  Covered sets t = (v : Term) → mem v (free_symbols t) ≡ true → any (mem v) sets ≡ true

  Covered-child :
      (sets : List (List Term)) (t c : Term)
      → mem c (children t) ≡ true
      → Covered sets t
      → Covered sets c
  Covered-child sets t c m h v f = h v (
      ground (
        arith,
        laws.free_symbols-children v t,
        any_of_mem (λ d. mem v (free_symbols d)) c (children t) m f,
      ))

  Covered-self :
      (sets : List (List Term)) (t : Term)
      → is_symbolic_const t ≡ true
      → Covered sets t
      → any (mem t) sets ≡ true
  Covered-self sets t s h = h t (ground (arith, laws.free_symbols-children t t, ==_refl t))

  -- the loop returns, and returns `true` if all that waits is covered
  contains_loop_returns :
      (fuel : ℕ) (st visited : List Term) (sets : List (List Term))
      → sum_map size st < fuel
      → (b : Bool) × (contains_loop smt fuel st visited sets ≡ some b)
  unfolding contains_loop
  contains_loop_returns zero st visited sets h = absurd (omega arith)
  contains_loop_returns (suc fuel) [] visited sets h = (true, refl)
  contains_loop_returns (suc fuel) (t ∷ rest) visited sets h =
      let (b, skip) =
        contains_loop_returns fuel rest visited sets (omega (arith, laws.size-children t)) in
      let (c, go) =
        contains_loop_returns fuel (push_children rest (children t)) (insert t visited) sets
          (omega (arith, laws.size-children t, sum_map-push_children size rest (children t))) in
      elim (Bool-cases (mem t visited)) [
        | inl y ↦ (b, ground arith)
        | inr n ↦ elim (Bool-cases (is_symbolic_const t && not (any (mem t) sets))) [
          | inl bad ↦ (false, ground arith)
          | inr fine ↦ (c, ground arith)
        ]
      ]

  -- a set that is closed under children, whose symbols are in the sets
  record IsClosed (sets : List (List Term)) (ws : List Term) : Type 0 where
    known : (t : Term) → mem t ws ≡ true → is_symbolic_const t ≡ true → any (mem t) sets ≡ true
    closed : (t c : Term) → mem t ws ≡ true → mem c (children t) ≡ true → mem c ws ≡ true

  Covered-of_closed :
      (sets : List (List Term)) (ws : List Term)
      → IsClosed sets ws
      → (n : ℕ) (t : Term) → size t < n
      → mem t ws ≡ true
      → Covered sets t
  Covered-of_closed sets ws k zero t lt m v f = absurd (omega arith)
  Covered-of_closed sets ws k (suc n) t lt m v f =
      elim (Bool-cases (is_symbolic_const t && t == v)) [
        | inl self ↦
            let eq : t ≡ v = (==_iff t v).0 (ground arith) in rw (← eq) (k.known t m (ground arith))
        | inr other ↦
            let (c, mc, fc) =
              mem_of_any (λ d. mem v (free_symbols d)) (children t)
                (ground (arith, laws.free_symbols-children v t)) in
            Covered-of_closed sets ws k n c
              (omega (arith, laws.size-children t, le-sum_map size c (children t) mc))
              (k.closed t c m mc) v fc
      ]

  -- what has been visited is in order, and its children are visited or wait
  record IsVisited (sets : List (List Term)) (st visited : List Term) : Type 0 where
    known : (t : Term) → mem t visited ≡ true → is_symbolic_const t ≡ true → any (mem t) sets ≡ true
    waits :
        (t c : Term)
        → mem t visited ≡ true
        → mem c (children t) ≡ true
        → (mem c visited || mem c st) ≡ true

  IsVisited-skip :
      (sets : List (List Term)) (t : Term) (rest visited : List Term)
      → mem t visited ≡ true
      → IsVisited sets (t ∷ rest) visited
      → IsVisited sets rest visited
  IsVisited-skip sets t rest visited m k = record {
    known = k.known;
    waits = λ u c mu mc. ground (arith, k.waits u c mu mc, ==_iff t c);
  }

  IsVisited-push :
      (sets : List (List Term)) (t : Term) (rest visited : List Term)
      → (is_symbolic_const t && not (any (mem t) sets)) ≡ false
      → IsVisited sets (t ∷ rest) visited
      → IsVisited sets (push_children rest (children t)) (insert t visited)
  IsVisited-push sets t rest visited fine k = record {
    known = λ u mu s. elim (Bool-cases (t == u)) [
      | inl y ↦
          let eq : t ≡ u = (==_iff t u).0 y in rw (← eq) (ground (arith, ap is_symbolic_const eq))
      | inr n ↦ k.known u (ground (arith, mem-insert u t visited)) s
    ];
    waits = λ u c mu mc. elim (Bool-cases (t == u)) [
      | inl y ↦
          let eq : t ≡ u = (==_iff t u).0 y in
          let here : mem c (children t) ≡ true = rw eq mc in
          ground (arith, mem-push_children c rest (children t))
      | inr n ↦ ground (
        arith,
        k.waits u c (ground (arith, mem-insert u t visited)) mc,
        mem-push_children c rest (children t),
        mem-insert c t visited,
      )
    ];
  }

  contains_loop_closes :
      (fuel : ℕ) (st visited : List Term) (sets : List (List Term))
      → contains_loop smt fuel st visited sets ≡ some true
      → IsVisited sets st visited
      → (ws : List Term) × IsClosed sets ws
        × ((x : Term) → (mem x visited || mem x st) ≡ true → mem x ws ≡ true)
  unfolding contains_loop
  contains_loop_closes zero st visited sets h k = cc
  contains_loop_closes (suc fuel) [] visited sets h k = (
    visited,
    record { known = k.known; closed = λ t c m mc. ground (arith, k.waits t c m mc) },
    λ x m. ground arith,
  )
  contains_loop_closes (suc fuel) (t ∷ rest) visited sets h k = elim (Bool-cases (mem t visited)) [
    | inl y ↦
        let (ws, closed, keeps) =
          contains_loop_closes fuel rest visited sets (ground arith)
            (IsVisited-skip sets t rest visited y k) in
        (ws, closed, λ x m. keeps x (ground (arith, ==_iff t x)))
    | inr n ↦ elim (Bool-cases (is_symbolic_const t && not (any (mem t) sets))) [
      | inl bad ↦ absurd (ground arith)
      | inr fine ↦
          let (ws, closed, keeps) =
            contains_loop_closes fuel (push_children rest (children t)) (insert t visited) sets
              (ground arith) (IsVisited-push sets t rest visited fine k) in
          (
            ws,
            closed,
            λ x m. keeps x (
                ground (
                  arith,
                  mem-insert x t visited,
                  mem-push_children x rest (children t),
                  ==_iff t x,
                )),
          )
    ]
  ]

  -- the loop answers `true` if all that waits is covered
  contains_loop-true :
      (fuel : ℕ) (st visited : List Term) (sets : List (List Term))
      → sum_map size st < fuel
      → ((t : Term) → mem t st ≡ true → Covered sets t)
      → contains_loop smt fuel st visited sets ≡ some true
  unfolding contains_loop
  contains_loop-true zero st visited sets lt h = absurd (omega arith)
  contains_loop-true (suc fuel) [] visited sets lt h = refl
  contains_loop-true (suc fuel) (t ∷ rest) visited sets lt h =
      let skip =
        contains_loop-true fuel rest visited sets (omega (arith, laws.size-children t))
          (λ u m. h u (ground arith)) in
      let go =
        contains_loop-true fuel (push_children rest (children t)) (insert t visited) sets
          (omega (arith, laws.size-children t, sum_map-push_children size rest (children t)))
          (λ u m. elim (Bool-cases (mem u (children t))) [
            | inl y ↦ Covered-child sets t u y (h t (ground (arith, ==_refl t)))
            | inr n ↦ h u (ground (arith, mem-push_children u rest (children t)))
          ]) in
      elim (Bool-cases (is_symbolic_const t)) [
        | inl s ↦ ground (arith, Covered-self sets t s (h t (ground (arith, ==_refl t))))
        | inr n ↦ ground arith
      ]

  -- `contains` returns true exactly if every symbol of the term is in one of the sets, each node of a term
  -- that is shared or not.
  pub contains-Covered :
      (t : Term) (sets : List (List Term)) → (contains smt t sets ≡ true) ↔ Covered sets t
  unfolding contains
  contains-Covered t sets = (
    λ h.
        let (b, e) = contains_loop_returns (suc (size t)) (t ∷ []) [] sets (omega arith) in
        let (ws, closed, keeps) =
          contains_loop_closes (suc (size t)) (t ∷ []) [] sets (ground arith)
            (record { known = λ u m s. absurd (cc); waits = λ u c m mc. absurd (cc) }) in
        Covered-of_closed sets ws closed (suc (size t)) t (omega arith)
          (keeps t (ground (arith, ==_refl t))),
    λ h.
        let e =
          contains_loop-true (suc (size t)) (t ∷ []) [] sets (omega arith)
            (λ u m. let eq : t ≡ u = (==_iff t u).0 (ground arith) in rw (← eq) h) in
        ground arith,
  )
