-- ===== src/Engines/Bmc/Shorten.antt =====
-- The choice between the searches in `step` of engines/bmc.cpp.
use pono.Base.{
  ℕ, suc, ◌+◌, ◌-◌, ◌≤◌, ◌≡◌, ◌≢◌, inl, inr, refl, sym, ap, subst, ◌∙◌, arith, Bool, true, false,
  List, [], ◌∷◌, Eq, Bool-cases, if◌then◌else◌, leb, Result, ok, err,
}
use pono.Smt.{Smt}
use pono.Smt.Laws.{SmtLaws, Model}
use pono.Smt.Solver.{Solver, SolverLaws, Satisfies, Decides}
use pono.Engines.Problem.{Problem, Unrolling}
use pono.Engines.Bmc.{
  BmcOptions, block, bmc_interval_block_cex_ub, find_shortest_cex_binary_search,
  find_shortest_cex_binary_search_less_inc, fall_back, shorten,
}
use pono.Engines.Bmc.Formulas.{BadIn, IsAbove-push, IsAbove-block, frames-pop_above}
use pono.Engines.Bmc.Stack.{Above, Above-push, frames-pop_last}
use pono.Engines.Bmc.Search.{
  Engine, HasCex, Paths, Between, Blocked-interval, below-Blocked, Above-interval,
  binary_loop-Searched, less_inc_loop-HasCex, fall_back-HasCex,
}

module _ {Term : Type 0} ⦃e : Eq Term⦄ (smt : Smt Term) (laws : SmtLaws smt) (solver : Solver Term)
    (rules : SolverLaws smt solver) (opt : BmcOptions) (p : Problem Term)
    (un : Unrolling smt p) where
  open solver use {State, push, pop, frames}

  -- the state in which `shorten` begins its search
  abbrev blocked : ℕ → ℕ → State → State
  blocked ub i s =
      bmc_interval_block_cex_ub smt solver opt p (ub + 1) i (if leb (ub + 1) i then push s else s)

  abbrev extra : ℕ → ℕ → ℕ
  extra ub i = if leb (ub + 1) i then 1 else 0

  Above-blocked :
      (ub i : ℕ) (fs : List (List Term)) (s : State)
      → Above smt laws solver rules opt p 0 fs s
      → Above smt laws solver rules opt p (extra ub i) fs (blocked ub i s)
  Above-blocked ub i fs s h =
      Above-interval smt laws solver rules opt p un (extra ub i) fs (ub + 1) i _
        (elim (Bool-cases (leb (ub + 1) i)) [
          | inl more ↦ rw more (Above-push smt laws solver rules opt p 0 fs s h)
          | inr last ↦ rw last h
        ])

  Satisfies-blocked :
      (σ : Model smt) (ub i : ℕ) (s : State)
      → Satisfies smt solver σ (frames (if leb (ub + 1) i then push s else s))
      → Satisfies smt solver σ (frames s)
  Satisfies-blocked σ ub i s fits = elim (Bool-cases (leb (ub + 1) i)) [
    | inl more ↦
        (subst (Satisfies smt solver σ)
          (ap (λ c. frames (if c then push s else s)) more ∙ rules.frames-push s) fits).1
    | inr last ↦
        subst (Satisfies smt solver σ) (ap (λ c. frames (if c then push s else s)) last) fits
  ]

  Between-blocked :
      (low ub i : ℕ) (s : State)
      → Between smt laws solver rules opt p un (frames s) i low i
      → Between smt laws solver rules opt p un (frames (blocked ub i s)) i low ub
  Between-blocked low ub i s between σ fits =
      let (below, no_bad) = Blocked-interval smt laws solver rules opt p un σ (ub + 1) i _ fits in
      let (path, bad_in_i) = between σ (Satisfies-blocked σ ub i s below) in
      (
        path,
        below-Blocked smt laws solver rules opt p un σ low ub i bad_in_i
            (λ k le lt. no_bad k (omega arith) lt),
      )

  -- what is left when the frame of the search is popped: the frames of the clause or those below
  frames-pop_blocked :
      (ub i : ℕ) (s : State)
      → frames (pop (blocked ub i s)) ≡ (if leb (ub + 1) i then frames s else frames (pop s))
  unfolding bmc_interval_block_cex_ub block
  frames-pop_blocked ub i s = elim (Bool-cases (leb (ub + 1) i)) [
    | inl more ↦ rw more (
        frames-pop_above smt laws solver rules opt p _ (
          IsAbove-block smt laws solver rules opt p (suc i - (ub + 1)) (ub + 1) (push s)
            (IsAbove-push smt laws solver rules opt p s)))
    | inr last ↦ let none_left : suc i - (ub + 1) ≡ 0 = ground arith in rw (last, none_left) refl
  ]

  Satisfies-drop_top :
      (σ : Model smt) (fs : List (List Term))
      → Satisfies smt solver σ fs
      → Satisfies smt solver σ (pono.Smt.Solver.drop_top fs)
  Satisfies-drop_top σ [] h = h
  Satisfies-drop_top σ (f ∷ fs) h = h.1

  less_inc-HasCex :
      Decides smt solver
      → (ub i : ℕ) (b b' : Engine smt laws solver rules opt p un) (σ : Model smt) → ub ≤ i
      → Paths smt laws solver rules opt p un (frames (pop b.solver_state)) i
      → Between smt laws solver rules opt p un (frames b.solver_state) i b.next_k i
      → Satisfies smt solver σ (frames b.solver_state)
      → BadIn smt laws solver rules opt p σ b.next_k ub
      → find_shortest_cex_binary_search_less_inc smt solver opt p ub
          (record b { solver_state = blocked ub i b.solver_state })
        ≡ ok b'
      → HasCex smt laws solver rules opt p un b'.next_k
  unfolding find_shortest_cex_binary_search_less_inc
  less_inc-HasCex decides ub i b b' σ hi paths between fits bad h =
      let s = b.solver_state in
      let left = λ (c : Bool). if c then frames s else frames (pop s) in
      let paths' : (c : Bool) → Paths smt laws solver rules opt p un (left c) i = λ c.
        elim c as (λ c. Paths smt laws solver rules opt p un (left c) i) [
          | true ↦ λ τ fits_τ. (between τ fits_τ).0
          | false ↦ paths
        ] in
      let fits' : (c : Bool) → Satisfies smt solver σ (left c) = λ c.
        elim c as (λ c. Satisfies smt solver σ (left c)) [
          | true ↦ fits
          | false ↦
              subst (Satisfies smt solver σ) (sym (rules.frames-pop s))
                (Satisfies-drop_top σ (frames s) fits)
        ] in
      less_inc_loop-HasCex smt laws solver rules opt p un decides (suc (suc ub - b.next_k)) b.next_k
        ub i (left (leb (ub + 1) i)) (record b { solver_state = blocked ub i s }) b' σ hi refl
        (frames-pop_blocked ub i s) (paths' (leb (ub + 1) i)) (fits' (leb (ub + 1) i)) bad h

  binary-HasCex :
      (ub i : ℕ) (b b' : Engine smt laws solver rules opt p un) (fs : List (List Term))
      → b.next_k ≤ ub
      → ub ≤ i
      → ub ≢ b.next_k
      → b.bin_search_frames ≡ 0
      → Paths smt laws solver rules opt p un fs i
      → Between smt laws solver rules opt p un (frames b.solver_state) i b.next_k i
      → Above smt laws solver rules opt p 0 fs b.solver_state
      → (done : Bool) (b2 : Engine smt laws solver rules opt p un)
      → find_shortest_cex_binary_search smt solver opt p ub
          (record b { solver_state = blocked ub i b.solver_state })
        ≡ ok (done, b2)
      → (if done then ok b2 else fall_back smt solver opt p b.next_k ub i b2) ≡ ok b'
      → HasCex smt laws solver rules opt p un b'.next_k
  unfolding find_shortest_cex_binary_search
  binary-HasCex ub i b b' fs le hi apart no_frames paths between above done b2 run h =
      let searched =
        binary_loop-Searched smt laws solver rules opt p un (suc (suc ub - b.next_k)) b.next_k ub i
          (extra ub i) fs (record b { solver_state = blocked ub i b.solver_state }) b2 done le hi
          refl (Between-blocked b.next_k ub i b.solver_state between)
          (subst (λ d. Above smt laws solver rules opt p d fs (blocked ub i b.solver_state))
            (omega (arith, no_frames)) (Above-blocked ub i fs b.solver_state above))
          run in
      elim (Bool-cases done) [
        | inl y ↦
            let same : b2 ≡ b' = ground arith in
            subst (HasCex smt laws solver rules opt p un) (ap (λ r. r.next_k) same)
              (searched.found y)
        | inr n ↦
            fall_back-HasCex smt laws solver rules opt p un b.next_k ub i fs b2 b' le hi apart paths
              (searched.failed n) (ground arith)
      ]

  searched_or_fell_back :
      (ub i : ℕ) (b b' : Engine smt laws solver rules opt p un)
      (r : Result (Bool × Engine smt laws solver rules opt p un))
      → elim r as (λ _. Result (Engine smt laws solver rules opt p un)) [
        | err x ↦ err x
        | ok (done, b2) ↦ if done then ok b2 else fall_back smt solver opt p b.next_k ub i b2
      ]
        ≡ ok b'
      → (done : Bool) × (b2 : Engine smt laws solver rules opt p un) × (r ≡ ok (done, b2))
        × ((if done then ok b2 else fall_back smt solver opt p b.next_k ub i b2) ≡ ok b')
  searched_or_fell_back ub i b b' (err x) h = absurd (cc)
  searched_or_fell_back ub i b b' (ok (done, b2)) h = (done, b2, refl, h)

  -- A search for the shortest counterexample that returns has the bound of a counterexample.
  pub shorten-HasCex :
      Decides smt solver
      → (ub i : ℕ) (b b' : Engine smt laws solver rules opt p un) (fs : List (List Term))
        (σ : Model smt)
      → ub ≤ i
      → ub ≢ b.next_k
      → b.bin_search_frames ≡ 0
      → Paths smt laws solver rules opt p un fs i
      → Between smt laws solver rules opt p un (frames b.solver_state) i b.next_k i
      → Above smt laws solver rules opt p 0 fs b.solver_state
      → Satisfies smt solver σ (frames b.solver_state)
      → BadIn smt laws solver rules opt p σ b.next_k ub
      → shorten smt solver opt p ub i b ≡ ok b'
      → HasCex smt laws solver rules opt p un b'.next_k
  unfolding shorten
  shorten-HasCex decides ub i b b' fs σ hi apart no_frames paths between above fits bad h =
      let (k, ge, lt, bb) = bad in
      let le : b.next_k ≤ ub = omega arith in
      let b1 = record b { solver_state = blocked ub i b.solver_state } in
      elim (Bool-cases opt.min_cex_linear_search) [
        | inl linear ↦
            fall_back-HasCex smt laws solver rules opt p un b.next_k ub i fs b1 b' le hi apart paths
              (subst (λ d. Above smt laws solver rules opt p d fs (blocked ub i b.solver_state))
                (omega (arith, no_frames)) (Above-blocked ub i fs b.solver_state above))
              (ground arith)
        | inr other ↦ elim (Bool-cases opt.min_cex_less_inc_bin_search) [
          | inl less_inc ↦
              less_inc-HasCex decides ub i b b' σ hi
                (subst (λ gs. Paths smt laws solver rules opt p un gs i)
                  (sym (frames-pop_last smt laws solver rules opt p fs b.solver_state above)) paths)
                between fits bad (ground arith)
          | inr binary ↦
              let (done, b2, found, rest) =
                searched_or_fell_back ub i b b'
                  (find_shortest_cex_binary_search smt solver opt p ub b1) (ground arith) in
              binary-HasCex ub i b b' fs le hi apart no_frames paths between above done b2 found
                rest
        ]
      ]
