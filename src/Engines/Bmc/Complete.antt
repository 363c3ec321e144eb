-- ===== src/Engines/Bmc/Complete.antt =====
-- `check_until` of engines/bmc.cpp with the default bounds: what the answer UNKNOWN excludes.
use pono.Base.{
  ℕ, zero, suc, ◌+◌, ◌-◌, ◌≤◌, ◌<◌, ◌≡◌, inl, inr, refl, sym, ap, subst, ◌∙◌, arith, true, false,
  List, [], Eq, Bool-cases, if◌then◌else◌, dec_lt, ltb, leb, Result, ok, err,
}
use pono.Smt.{Smt}
use pono.Smt.Laws.{SmtLaws, Model, holds}
use pono.Smt.Solver.{Solver, SolverLaws, Satisfies, Decides}
use pono.Engines.Problem.{Problem, Unrolling, Trace, PathOf, Cex, ProverResult}
use pono.Engines.Bmc.{
  BmcOptions, block, bad_between, add_transitions, prepare, on_sat, on_unsat, step, begin,
  bounds_loop, next_bound, check_until,
}
use pono.Engines.Bmc.Formulas.{Fits, assert-Fits, push-Fits, block-Fits, bad_between-holds, bad_in}
use pono.Engines.Bmc.Stack.{Above, Above-same, frames-pop_last}
use pono.Engines.Bmc.Search.{Answer-cases, Answer_unsat, Engine}
use pono.Engines.Bmc.Sound.{
  check_until-begin, extended, from, Above-prepare, stepped, returned, after,
}

module _ {Term : Type 0} ⦃e : Eq Term⦄ (smt : Smt Term) (laws : SmtLaws smt) (solver : Solver Term)
    (rules : SolverLaws smt solver) (opt : BmcOptions) (p : Problem Term)
    (un : Unrolling smt p) where
  open smt use {make_not}
  open solver use {State, assert_formula, push, pop, reset_assertions, frames, check_sat_assuming}
  open p use {init, trans, bad, at_time}

  add_transitions-Fits :
      opt.neg_init_step ≡ false
      → (σ : Model smt) (n j : ℕ) (s : State) → 1 ≤ j
      → Fits smt laws solver rules opt p σ s
      → ((m : ℕ) → suc m < j + n → holds smt σ (at_time trans m) ≡ true)
      → Fits smt laws solver rules opt p σ (add_transitions smt solver opt p n j s)
  unfolding add_transitions
  add_transitions-Fits plain σ zero j s pos fits steps = fits
  add_transitions-Fits plain σ (suc n) j s pos fits steps =
      let s1 = assert_formula (at_time trans (j - 1)) s in
      let fits1 =
        assert-Fits smt laws solver rules opt p σ (at_time trans (j - 1)) s
          (steps (j - 1) (omega arith)) fits in
      add_transitions-Fits plain σ n (suc j) _ (omega arith)
        (subst
          (λ c.
            Fits smt laws solver rules opt p σ
              (if c then assert_formula (make_not (at_time init j)) s1 else s1))
          (sym plain) fits1)
        (λ m lt. steps m (omega arith))

  -- every path to the last bound that is checked is a model of the assertions
  abbrev Full : Engine smt laws solver rules opt p un → Type 0
  Full b =
      (π : Trace smt p un)
      → PathOf smt p un π (b.next_k - 1)
      → Satisfies smt solver (un.writes π) (frames b.solver_state)

  abbrev NoCex : ℕ → Type 0
  NoCex n = (π : Trace smt p un) → Cex smt p un π n → ⊥

  PathOf-shorter :
      {m n : ℕ} {π : Trace smt p un} → n ≤ m → PathOf smt p un π m → PathOf smt p un π n
  PathOf-shorter le h = record { starts = h.starts; steps = λ j lt. h.steps j (omega arith) }

  extended-Fits :
      opt.neg_init_step ≡ false
      → (i : ℕ) (b : Engine smt laws solver rules opt p un) → b.next_k ≤ i
      → Full b
      → (π : Trace smt p un) → PathOf smt p un π i
      → Satisfies smt solver (un.writes π) (frames (extended smt laws solver rules opt p un i b))
  extended-Fits plain i b le full π path =
      let old = full π (PathOf-shorter (omega arith) path) in
      elim (Bool-cases (ltb 0 i)) [
        | inl more ↦ rw more (
            add_transitions-Fits plain (un.writes π) (suc i - from smt laws solver rules opt p un b)
              (from smt laws solver rules opt p un b) b.solver_state (ground arith) old
              (λ m lt. un.writes_trans π m ∙ path.steps m (ground arith)))
        | inr last ↦ rw last old
      ]

  prepare-Fits :
      opt.neg_init_step ≡ false
      → (i : ℕ) (b : Engine smt laws solver rules opt p un) → b.next_k ≤ i
      → Full b
      → (π : Trace smt p un) → Cex smt p un π i
      → Satisfies smt solver (un.writes π) (frames (prepare smt solver opt p i b))
  unfolding prepare
  prepare-Fits plain i b le full π cex =
      let bad_here : bad_in smt laws solver rules opt p (un.writes π) i ≡ true =
        un.writes_bad π i ∙ cex.ends in
      let clause : holds smt (un.writes π) (
            if opt.single_bad_state then at_time bad i else bad_between smt solver opt p b.next_k i)
          ≡ true =
        elim (Bool-cases opt.single_bad_state) [
          | inl single ↦ rw single bad_here
          | inr all_bounds ↦ rw all_bounds (
              bad_between-holds smt laws solver rules opt p (un.writes π) b.next_k i
                (i, le, omega arith, bad_here))
        ] in
      assert-Fits smt laws solver rules opt p (un.writes π) _
        (push (extended smt laws solver rules opt p un i b)) clause
        (push-Fits smt laws solver rules opt p (un.writes π)
          (extended smt laws solver rules opt p un i b)
          (extended-Fits plain i b le full π cex.path))

  -- blocked bounds are those of no counterexample
  block-Full :
      (n j i : ℕ) (s : State)
      → ((m : ℕ) → m ≤ i → NoCex m)
      → j + n ≤ suc i
      → (π : Trace smt p un) → PathOf smt p un π i
      → Satisfies smt solver (un.writes π) (frames s)
      → Satisfies smt solver (un.writes π) (frames (block smt solver opt p n j s))
  block-Full n j i s none_to hi π path fits =
      block-Fits smt laws solver rules opt p (un.writes π) n j s fits (λ m ge lt.
        elim (Bool-cases (bad_in smt laws solver rules opt p (un.writes π) m)) [
          | inl b ↦ absurd (
              none_to m (omega arith) π (record {
                path = PathOf-shorter (omega arith) path;
                ends = sym (un.writes_bad π m) ∙ b;
              }))
          | inr n ↦ n
        ])

  on_unsat-Full :
      (i : ℕ) (b : Engine smt laws solver rules opt p un) (fs : List (List Term))
      → Above smt laws solver rules opt p 0 fs b.solver_state
      → ((m : ℕ) → m ≤ i → NoCex m)
      → b.next_k ≤ i
      → ((π : Trace smt p un) → PathOf smt p un π i → Satisfies smt solver (un.writes π) fs)
      → Full (on_unsat smt solver opt p i b)
  unfolding on_unsat
  on_unsat-Full i b fs above none_to le full π path =
      let s = pop b.solver_state in
      let path' : PathOf smt p un π i = PathOf-shorter (omega arith) path in
      let base : Satisfies smt solver (un.writes π) (frames s) =
        subst (Satisfies smt solver (un.writes π))
          (sym (frames-pop_last smt laws solver rules opt p fs b.solver_state above))
          (full π path') in
      elim (Bool-cases opt.neg_bad_step_all) [
        | inl every ↦
            rw every (block-Full (suc i - b.next_k) b.next_k i s none_to (omega arith) π path' base)
        | inr not_every ↦ elim (Bool-cases opt.neg_bad_step) [
          | inl last ↦ rw (not_every, last) (block-Full 1 i i s none_to (omega arith) π path' base)
          | inr never ↦ rw (not_every, never) base
        ]
      ]

  next_k-on_unsat :
      (i : ℕ) (b : Engine smt laws solver rules opt p un)
      → (on_unsat smt solver opt p i b).next_k ≡ suc i
  unfolding on_unsat
  next_k-on_unsat i b = refl

  next_k-begin : (b : Engine smt laws solver rules opt p un) → (begin smt solver opt p b).next_k ≡ 0
  unfolding begin
  next_k-begin b = refl

  -- between two bounds, with no counterexample below the next bound
  record Checked (b : Engine smt laws solver rules opt p un) : Type 0 where
    full : Full b
    none_below : (m : ℕ) → m < b.next_k → NoCex m

  step-Checked :
      Decides smt solver
      → opt.neg_init_step ≡ false
      → (i : ℕ) (b b' : Engine smt laws solver rules opt p un) → b.next_k ≡ i
      → Checked b
      → step smt solver opt p i b ≡ ok (true, b')
      → (b'.next_k ≡ suc i) × Checked b'
  unfolding step
  step-Checked decides plain i b b' at_i checked h =
      let s0 = prepare smt solver opt p i b in
      let s = (check_sat_assuming [] s0).1 in
      let b1 = record b { solver_state = s } in
      let le : b.next_k ≤ i = omega arith in
      let fs = frames (extended smt laws solver rules opt p un i b) in
      let above =
        Above-same smt laws solver rules opt p 0 fs s0 s (rules.frames-check [] s0)
          (Above-prepare smt laws solver rules opt p un i b) in
      let new : ltb i b.next_k ≡ false = ground arith in
      elim (Answer-cases (check_sat_assuming [] s0).0) [
        | inl yes_sat ↦
            let (run, unsafe) =
              returned smt laws solver rules opt p un (on_sat smt solver opt p i b1) true b'
                (ground arith) in
            absurd (cc)
        | inr not_sat ↦
            let is_unsat = Answer_unsat smt laws solver rules opt p un decides s0 not_sat in
            let no_cex : NoCex i = λ π cex.
              rules.unsat_sound [] s0 is_unsat (un.writes π)
                (tt, prepare-Fits plain i b le checked.full π cex) in
            let none_to : (m : ℕ) → m ≤ i → NoCex m = λ m m_le. elim (dec_lt m i) [
              | yes below ↦ checked.none_below m (omega arith)
              | no at ↦ let eq : i ≡ m = omega arith in subst NoCex eq no_cex
            ] in
            let same : b' ≡ on_unsat smt solver opt p i b1 = ground arith in
            let next : (on_unsat smt solver opt p i b1).next_k ≡ suc i = next_k-on_unsat i b1 in
            let full =
              on_unsat-Full i b1 fs above none_to le (extended-Fits plain i b le checked.full) in
            (
              ap (λ r. r.next_k) same ∙ next,
              subst Checked (sym same)
                  (record { full = full; none_below = λ m lt. none_to m (omega (arith, next)) }),
            )
      ]

  begin-Checked : (b : Engine smt laws solver rules opt p un) → Checked (begin smt solver opt p b)
  unfolding begin
  begin-Checked b = record {
    full = λ π path.
        assert-Fits smt laws solver rules opt p (un.writes π) (at_time init 0)
          (reset_assertions b.solver_state) (un.writes_init π 0 ∙ path.starts)
          (subst (Satisfies smt solver (un.writes π)) (sym (rules.frames-reset b.solver_state))
            (tt, tt));
    none_below = λ m lt. absurd (omega arith);
  }

  bounds_loop-NoCex :
      Decides smt solver
      → opt.neg_init_step ≡ false
      → opt.exponential_step ≡ false
      → opt.bound_step ≡ 1
      → (fuel k i : ℕ) (b b' : Engine smt laws solver rules opt p un) → b.next_k ≡ i
      → Checked b
      → bounds_loop smt solver opt p fuel k i b ≡ ok (ProverResult.unknown, b')
      → (n : ℕ) → n ≤ k
      → NoCex n
  unfolding bounds_loop next_bound
  bounds_loop-NoCex decides plain linear one zero k i b b' at_i checked h = absurd (cc)
  bounds_loop-NoCex decides plain linear one (suc fuel) k i b b' at_i checked h =
      elim (Bool-cases (leb i k)) as (λ _. (n : ℕ) → n ≤ k → NoCex n) [
        | inr over ↦ λ n le. checked.none_below n (ground arith)
        | inl more ↦
            let (safe, b1, run, rest) =
              stepped smt laws solver rules opt p un (step smt solver opt p i b) fuel k i
                (ProverResult.unknown, b')
                (subst
                  (λ c.
                    (if c
                      then (elim (step smt solver opt p i b)
                          as (λ _. Result (ProverResult × Engine smt laws solver rules opt p un)) [
                            | err y ↦ err y
                            | ok (safe, b1) ↦ after smt laws solver rules opt p un fuel k i safe b1
                          ])
                      else ok (ProverResult.unknown, b))
                    ≡ ok (ProverResult.unknown, b'))
                  more h) in
            elim (Bool-cases safe) [
              | inr n ↦ absurd (ground arith)
              | inl y ↦
                  let (at_next, checked1) =
                    step-Checked decides plain i b b1 at_i checked (run ∙ ap (λ c. ok (c, b1)) y) in
                  bounds_loop-NoCex decides plain linear one fuel k (next_bound smt solver opt p i)
                    b1 b' (ground (arith, at_next)) checked1 (ground arith)
            ]
      ]

  -- With a solver that decides every query, on an engine that is not initialized, with the default bounds, which start at 0 and grow by 1, and
  -- without the option that denies the initial states after the first: when `check_until` answers UNKNOWN for
  -- the bound `k`, the system has no counterexample of length at most `k`.
  pub check_until-NoCex :
      Decides smt solver
      → opt.bound_start ≡ 0
      → opt.bound_step ≡ 1
      → opt.exponential_step ≡ false
      → opt.neg_init_step ≡ false
      → (k : ℕ) (b b' : Engine smt laws solver rules opt p un) → b.initialized ≡ false
      → check_until smt solver opt p k b ≡ ok (ProverResult.unknown, b')
      → (n : ℕ) → n ≤ k
      → ¬ ((π : Trace smt p un) × Cex smt p un π n)
  check_until-NoCex decides at_0 one linear plain k b b' fresh h n le (π, cex) =
      bounds_loop-NoCex decides plain linear one (suc (suc k)) k opt.bound_start
        (begin smt solver opt p b) b' (next_k-begin b ∙ sym at_0) (begin-Checked b)
        (check_until-begin smt laws solver rules opt p un k b (ProverResult.unknown, b') fresh h) n
        le π cex
