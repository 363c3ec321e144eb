-- ===== src/Engines/Bmc/Search.antt =====
-- The searches of engines/bmc.cpp for the shortest counterexample, and the bounds that they return.
use pono.Base.{
  ℕ, zero, suc, ◌+◌, ◌-◌, ◌/◌, ◌≤◌, ◌≡◌, ◌≢◌, ◌⊎◌, inl, inr, refl, sym, ap, subst, ◌∙◌, arith, Bool,
  true, false, List, [], ◌∷◌, Eq, Bool-cases, if◌then◌else◌, dec_lt, leb, nat_beq, ◌^◌, ok,
}
use pono.Smt.{Smt}
use pono.Smt.Laws.{SmtLaws, Model, holds}
use pono.Smt.Solver.{
  Solver, SolverLaws, Satisfies, Decides, Answer, sat, unsat, unknown, add_top, drop_top,
}
use pono.Engines.Problem.{Problem, Unrolling, PathOf, Cex}
use pono.Engines.Bmc.{
  BmcOptions, Bmc, block, bmc_interval_block_cex_ub, bmc_interval_get_cex_ub, bad_between,
  linear_loop, find_shortest_cex_linear_search, binary_loop, find_shortest_cex_binary_search,
  less_inc_loop, find_shortest_cex_binary_search_less_inc, fall_back, shorten,
}
use pono.Engines.Bmc.Formulas.{
  bad_in, Fits-assert, assert-Fits, Fits-push, push-Fits, Fits-block, BadIn, holds-bad_between,
  bad_between-holds, cex_ub_lem, frames-pop_above, IsAbove-push, IsAbove-block,
}
use pono.Engines.Bmc.Stack.{
  Above, Above-push, Above-block, Above-same, Above-pop, Above-pop_frames, frames-pop_last,
}

-- the solver's answers, with their equation
pub Answer-cases : (a : Answer) → (a ≡ sat) ⊎ (a ≢ sat)
Answer-cases sat = inl refl
Answer-cases unsat = inr (λ h. cc)
Answer-cases unknown = inr (λ h. cc)

module _ {Term : Type 0} ⦃e : Eq Term⦄ (smt : Smt Term) (laws : SmtLaws smt) (solver : Solver Term)
    (rules : SolverLaws smt solver) (opt : BmcOptions) (p : Problem Term)
    (un : Unrolling smt p) where
  open solver use {State, assert_formula, push, pop, frames, check_sat_assuming, get_value}
  open p use {bad, at_time}

  abbrev pub Engine : Type 0
  Engine = Bmc smt solver opt p

  -- a model of the frames is a path of length `i`
  abbrev pub Paths : List (List Term) → ℕ → Type 0
  Paths fs i = (σ : Model smt) → Satisfies smt solver σ fs → PathOf smt p un (un.reads σ) i

  -- there is a counterexample of length `n`
  abbrev pub HasCex : ℕ → Type 0
  HasCex n = (σ : Model smt) × Cex smt p un (un.reads σ) n

  pub PathOf-le : {π : ℕ → un.State} {m n : ℕ} → n ≤ m → PathOf smt p un π m → PathOf smt p un π n
  PathOf-le le h = record { starts = h.starts; steps = λ j lt. h.steps j (omega arith) }

  pub HasCex-of :
      (σ : Model smt) (n i : ℕ)
      → n ≤ i
      → PathOf smt p un (un.reads σ) i
      → bad_in smt laws solver rules opt p σ n ≡ true
      → HasCex n
  HasCex-of σ n i le path b =
      (σ, record { path = PathOf-le le path; ends = sym (un.reads_bad σ n) ∙ b })

  linear_loop-HasCex :
      (n i : ℕ) (b b' : Engine)
      → b.next_k + n ≤ suc i
      → Paths (frames (pop b.solver_state)) i
      → linear_loop smt solver opt p n b ≡ ok b'
      → HasCex b'.next_k
  unfolding linear_loop
  linear_loop-HasCex zero i b b' le paths h = absurd (cc)
  linear_loop-HasCex (suc n) i b b' le paths h =
      let s0 = assert_formula (at_time bad b.next_k) (push (pop b.solver_state)) in
      let s = (check_sat_assuming [] s0).1 in
      elim (Answer-cases (check_sat_assuming [] s0).0) [
        | inl yes_sat ↦
            let (σ, fits, values) = rules.sat_model [] s0 yes_sat in
            let (b_here, rest) = Fits-assert smt laws solver rules opt p σ _ _ fits.1 in
            let same : b' ≡ record b { solver_state = s } = ground arith in
            rw (ap (λ r. r.next_k) same) (
              HasCex-of σ b.next_k i (omega arith)
                (paths σ (Fits-push smt laws solver rules opt p σ (pop b.solver_state) rest))
                b_here)
        | inr not_sat ↦
            let popped : frames (pop s) ≡ frames (pop b.solver_state) =
              rules.frames-pop s
              ∙ ap drop_top (
                  rules.frames-check [] s0
                  ∙ rules.frames-assert _ _
                  ∙ ap (add_top (at_time bad b.next_k)) (rules.frames-push (pop b.solver_state))) in
            linear_loop-HasCex n i (record b { solver_state = s; next_k = suc b.next_k }) b'
              (omega arith) (subst (λ fs. Paths fs i) (sym popped) paths) (ground arith)
      ]

  -- a model of the frames is a path of length `i` to a bad state within `[low,high]`
  abbrev pub Between : List (List Term) → ℕ → ℕ → ℕ → Type 0
  Between fs i low high =
      (σ : Model smt)
      → Satisfies smt solver σ fs
      → PathOf smt p un (un.reads σ) i × BadIn smt laws solver rules opt p σ low high

  abbrev pub Blocked : ℕ → ℕ → Model smt → Type 0
  Blocked from to σ = (k : ℕ) → from ≤ k → k ≤ to → bad_in smt laws solver rules opt p σ k ≡ false

  -- blocked bounds leave the interval
  pub below-Blocked :
      (σ : Model smt) (low mid high : ℕ)
      → BadIn smt laws solver rules opt p σ low high
      → Blocked (suc mid) high σ
      → BadIn smt laws solver rules opt p σ low mid
  below-Blocked σ low mid high (k, le, lt, b) no_bad = elim (dec_lt mid k) [
    | yes above ↦ absurd (let n = no_bad k above lt in cc)
    | no below ↦ (k, le, omega arith, b)
  ]

  above-Blocked :
      (σ : Model smt) (low mid high : ℕ)
      → BadIn smt laws solver rules opt p σ low high
      → Blocked low mid σ
      → BadIn smt laws solver rules opt p σ (suc mid) high
  above-Blocked σ low mid high (k, le, lt, b) no_bad = elim (dec_lt mid k) [
    | yes above ↦ (k, above, lt, b)
    | no below ↦ absurd (let n = no_bad k le (omega arith) in cc)
  ]

  -- the interval after `[from,from+n)` is blocked on top of a state
  Blocked-block :
      (σ : Model smt) (n from to : ℕ) (s : State)
      → from + n ≡ suc to
      → Satisfies smt solver σ (frames (block smt solver opt p n from s))
      → Satisfies smt solver σ (frames s) × Blocked from to σ
  Blocked-block σ n from to s eq fits =
      let (below, no_bad) = Fits-block smt laws solver rules opt p σ n from s fits in
      (below, λ k le lt. no_bad k le (omega arith))

  pub Blocked-interval :
      (σ : Model smt) (from to : ℕ) (s : State)
      → Satisfies smt solver σ (frames (bmc_interval_block_cex_ub smt solver opt p from to s))
      → Satisfies smt solver σ (frames s) × Blocked from to σ
  unfolding bmc_interval_block_cex_ub
  Blocked-interval σ from to s fits =
      let (below, no_bad) = Fits-block smt laws solver rules opt p σ (suc to - from) from s fits in
      (below, λ k le lt. no_bad k le (omega arith))

  pub Above-interval :
      (d : ℕ) (fs : List (List Term)) (from to : ℕ) (s : State)
      → Above smt laws solver rules opt p d fs s
      → Above smt laws solver rules opt p d fs
          (bmc_interval_block_cex_ub smt solver opt p from to s)
  unfolding bmc_interval_block_cex_ub
  Above-interval d fs from to s h =
      Above-block smt laws solver rules opt p d fs (suc to - from) from s h

  -- what the binary search leaves behind
  pub record Searched (extra : ℕ) (fs : List (List Term)) (done : Bool) (b' : Engine) : Type 0 where
    pub found : done ≡ true → HasCex b'.next_k
    pub failed :
        done ≡ false
        → Above smt laws solver rules opt p (b'.bin_search_frames + extra) fs b'.solver_state

  pub binary_loop-Searched :
      (fuel low high i extra : ℕ) (fs : List (List Term)) (b b' : Engine) (done : Bool)
      → low ≤ high
      → high ≤ i
      → b.next_k ≡ low
      → Between (frames b.solver_state) i low high
      → Above smt laws solver rules opt p (b.bin_search_frames + extra) fs b.solver_state
      → binary_loop smt solver opt p fuel low high b ≡ ok (done, b')
      → Searched extra fs done b'
  unfolding binary_loop
  binary_loop-Searched zero low high i extra fs b b' done le hi at_low between above h = absurd (cc)
  binary_loop-Searched (suc fuel) low high i extra fs b b' done le hi at_low between above h =
      let mid = low + (high - low) / 2 in
      let in_range : (low ≤ mid) × (mid ≤ high) = (omega arith, omega arith) in
      let s0 = block smt solver opt p (high - mid) (suc mid) (push b.solver_state) in
      let s = (check_sat_assuming [] s0).1 in
      let same : frames s ≡ frames s0 = rules.frames-check [] s0 in
      let narrowed : Between (frames s) i low mid = λ σ fits.
        let (below, no_bad) =
          Blocked-block σ (high - mid) (suc mid) high (push b.solver_state) (omega arith)
            (subst (Satisfies smt solver σ) same fits) in
        let (path, bad_between) =
          between σ (Fits-push smt laws solver rules opt p σ b.solver_state below) in
        (path, below-Blocked σ low mid high bad_between no_bad) in
      let deeper : Above smt laws solver rules opt p (suc b.bin_search_frames + extra) fs s =
        Above-same smt laws solver rules opt p (suc b.bin_search_frames + extra) fs s0 s same (
          subst (λ d. Above smt laws solver rules opt p d fs s0) (omega arith)
            (Above-block smt laws solver rules opt p (suc (b.bin_search_frames + extra)) fs
              (high - mid) (suc mid) _
              (Above-push smt laws solver rules opt p (b.bin_search_frames + extra) fs
                b.solver_state above))) in
      let found = record b { solver_state = s; bin_search_frames = suc b.bin_search_frames } in
      elim (Answer-cases (check_sat_assuming [] s0).0) [
        | inl yes_sat ↦
            let (σ, fits, values) = rules.sat_model [] s0 yes_sat in
            let fits' = subst (Satisfies smt solver σ) (sym same) fits.1 in
            let (path, bad_low) = narrowed σ fits' in
            elim (Bool-cases (nat_beq low mid)) [
              | inl single ↦
                  let result : (done ≡ true) × (b' ≡ found) = ground arith in
                  record {
                    found = λ _.
                        let (k, ge, lt, bb) = bad_low in
                        let eq : k ≡ b'.next_k = ground (arith, ap (λ r. r.next_k) result.1) in
                        subst HasCex eq (HasCex-of σ k i (omega arith) path bb);
                    failed = λ no_done. absurd (cc (result.0));
                  }
              | inr several ↦
                  let lower = bmc_interval_get_cex_ub smt solver opt p low mid s in
                  let (l, u, bb) =
                    cex_ub_lem smt laws solver rules opt p σ low mid s values bad_low in
                  binary_loop-Searched fuel low lower i extra fs
                    (record found {
                      solver_state = bmc_interval_block_cex_ub smt solver opt p (suc lower) mid s;
                    })
                    b' done l (omega (arith, u)) at_low
                    (λ τ fits_τ.
                      let (below, no_bad) = Blocked-interval τ (suc lower) mid s fits_τ in
                      let (path_τ, bad_τ) = narrowed τ below in
                      (path_τ, below-Blocked τ low lower mid bad_τ no_bad))
                    (Above-interval (suc b.bin_search_frames + extra) fs (suc lower) mid s deeper)
                    (ground arith)
            ]
        | inr not_sat ↦ elim (Bool-cases (leb high low)) [
          | inl last ↦
              let result : (done ≡ false) × (b' ≡ found) = ground arith in
              record {
                found = λ yes_done. absurd (cc (result.0));
                failed = λ _. rw result.1 deeper;
              }
          | inr more ↦
              let back : frames (pop s) ≡ frames b.solver_state =
                frames-pop_above smt laws solver rules opt p s (
                  subst (λ gs. (f : List Term) × (gs ≡ f ∷ frames b.solver_state)) (sym same)
                    (IsAbove-block smt laws solver rules opt p (high - mid) (suc mid)
                      (push b.solver_state)
                      (IsAbove-push smt laws solver rules opt p b.solver_state))) in
              binary_loop-Searched fuel (suc mid) high i extra fs
                (record b {
                  solver_state = block smt solver opt p (suc mid - low) low (pop s);
                  next_k = suc mid;
                })
                b' done (ground arith) hi refl
                (λ τ fits_τ.
                  let (below, no_bad) =
                    Blocked-block τ (suc mid - low) low mid (pop s) (omega arith) fits_τ in
                  let (path_τ, bad_τ) = between τ (subst (Satisfies smt solver τ) back below) in
                  (path_τ, above-Blocked τ low mid high bad_τ no_bad))
                (Above-block smt laws solver rules opt p (b.bin_search_frames + extra) fs
                  (suc mid - low) low (pop s)
                  (Above-same smt laws solver rules opt p (b.bin_search_frames + extra) fs
                    b.solver_state (pop s) back above))
                (ground arith)
        ]
      ]

  pub Answer_unsat :
      Decides smt solver
      → (s : State) → (check_sat_assuming [] s).0 ≢ sat
      → (check_sat_assuming [] s).0 ≡ unsat
  Answer_unsat decides s not_sat = by_answer (check_sat_assuming [] s).0 refl
    where
      by_answer :
          (a : Answer) → (check_sat_assuming [] s).0 ≡ a → (check_sat_assuming [] s).0 ≡ unsat
      by_answer sat e' = absurd (not_sat e')
      by_answer unsat e' = e'
      by_answer unknown e' = absurd (decides [] s e')

  -- no model of the frames below satisfies what an unsatisfiable frame adds
  no_model :
      (t : Term) (s : State) (fs : List (List Term))
      → frames s ≡ fs
      → (check_sat_assuming [] (assert_formula t (push s))).0 ≡ unsat
      → (σ : Model smt) → Satisfies smt solver σ fs
      → holds smt σ t ≡ true
      → ⊥
  no_model t s fs eq is_unsat σ fits t_holds = rules.unsat_sound [] _ is_unsat σ (
    tt,
    assert-Fits smt laws solver rules opt p σ t (push s) t_holds
        (push-Fits smt laws solver rules opt p σ s (subst (Satisfies smt solver σ) (sym eq) fits)),
  )

  pub frames-pop_round :
      (t : Term) (s : State)
      → frames (pop (check_sat_assuming [] (assert_formula t (push s))).1) ≡ frames s
  frames-pop_round t s =
      rules.frames-pop _
      ∙ ap drop_top (
          rules.frames-check [] _
          ∙ rules.frames-assert t (push s)
          ∙ ap (add_top t) (rules.frames-push s))

  pub less_inc_loop-HasCex :
      Decides smt solver
      → (fuel low high i : ℕ) (fs : List (List Term)) (b b' : Engine) (σ0 : Model smt) → high ≤ i
      → b.next_k ≡ low
      → frames (pop b.solver_state) ≡ fs
      → Paths fs i
      → Satisfies smt solver σ0 fs
      → BadIn smt laws solver rules opt p σ0 low high
      → less_inc_loop smt solver opt p fuel low high b ≡ ok b'
      → HasCex b'.next_k
  unfolding less_inc_loop
  less_inc_loop-HasCex decides zero low high i fs b b' σ0 hi at_low eq paths fits0 bad0 h =
      absurd (cc)
  less_inc_loop-HasCex decides (suc fuel) low high i fs b b' σ0 hi at_low eq paths fits0 bad0 h =
      let mid = low + (high - low) / 2 in
      let clause = bad_between smt solver opt p low mid in
      let base = pop b.solver_state in
      let s0 = assert_formula clause (push base) in
      let s = (check_sat_assuming [] s0).1 in
      let (k0, ge0, le0, b0) = bad0 in
      let in_range : (low ≤ mid) × (mid ≤ high) = (omega arith, omega arith) in
      let eq' : frames (pop s) ≡ fs = frames-pop_round clause base ∙ eq in
      elim (Answer-cases (check_sat_assuming [] s0).0) [
        | inl yes_sat ↦
            let (σ, fits, values) = rules.sat_model [] s0 yes_sat in
            let (clause_holds, rest) =
              Fits-assert smt laws solver rules opt p σ clause (push base) fits.1 in
            let below : Satisfies smt solver σ fs =
              subst (Satisfies smt solver σ) eq
                (Fits-push smt laws solver rules opt p σ base rest) in
            let bad_low = holds-bad_between smt laws solver rules opt p σ low mid clause_holds in
            elim (Bool-cases (nat_beq low mid)) [
              | inl single ↦
                  let result : b' ≡ record b { solver_state = s } = ground arith in
                  let (k, ge, le, bb) = bad_low in
                  let at_k : k ≡ b'.next_k = ground (arith, ap (λ r. r.next_k) result) in
                  subst HasCex at_k (HasCex-of σ k i (omega arith) (paths σ below) bb)
              | inr several ↦
                  let (l, u, bb) =
                    cex_ub_lem smt laws solver rules opt p σ low mid s values bad_low in
                  let lower = bmc_interval_get_cex_ub smt solver opt p low mid s in
                  less_inc_loop-HasCex decides fuel low lower i fs (record b { solver_state = s })
                    b' σ (omega (arith, u)) at_low eq' paths below (lower, l, omega arith, bb)
                    (ground arith)
            ]
        | inr not_sat ↦
            let is_unsat = Answer_unsat decides s0 not_sat in
            let beyond : suc mid ≤ k0 = elim (dec_lt mid k0) [
              | yes above ↦ above
              | no below ↦ absurd (
                  no_model clause base fs eq is_unsat σ0 fits0 (
                    bad_between-holds smt laws solver rules opt p σ0 low mid
                      (k0, ge0, omega arith, b0)))
            ] in
            less_inc_loop-HasCex decides fuel (suc mid) high i fs
              (record b { solver_state = s; next_k = suc mid }) b' σ0 hi refl eq' paths fits0
              (k0, beyond, le0, b0) (ground arith)
      ]

  pub fall_back-HasCex :
      (saved ub i : ℕ) (fs : List (List Term)) (b b' : Engine)
      → saved ≤ ub
      → ub ≤ i
      → ub ≢ saved
      → Paths fs i
      → Above smt laws solver rules opt p
          (b.bin_search_frames + (if leb (ub + 1) i then 1 else 0))
          fs
          b.solver_state
      → fall_back smt solver opt p saved ub i b ≡ ok b'
      → HasCex b'.next_k
  unfolding fall_back find_shortest_cex_linear_search
  fall_back-HasCex saved ub i fs b b' le hi apart paths above h =
      let n = b.bin_search_frames in
      let s = if leb (ub + 1) i then pop b.solver_state else b.solver_state in
      let above' : Above smt laws solver rules opt p n fs s = elim (Bool-cases (leb (ub + 1) i)) [
        | inl more ↦ rw more (
            Above-pop smt laws solver rules opt p n fs b.solver_state (
              subst (λ d. Above smt laws solver rules opt p d fs b.solver_state) (ground arith)
                above))
        | inr last ↦ rw last (
            subst (λ d. Above smt laws solver rules opt p d fs b.solver_state) (ground arith) above)
      ] in
      let base =
        frames-pop_last smt laws solver rules opt p fs _
          (Above-pop_frames smt laws solver rules opt p n fs s above') in
      let differ : nat_beq ub saved ≡ false = ground arith in
      linear_loop-HasCex (suc ub - saved) i
        (record b {
          next_k = saved;
          solver_state = pono.Engines.Bmc.pop_frames smt solver opt p n s;
          bin_search_frames = 2 ^ 32 - 1;
        })
        b' (omega arith) (subst (λ gs. Paths gs i) (sym base) paths) (ground arith)
