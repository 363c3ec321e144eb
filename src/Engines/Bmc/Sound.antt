-- ===== src/Engines/Bmc/Sound.antt =====
-- `step` and `check_until` of engines/bmc.cpp: what the assertions say before and after a bound is checked, and
-- what a verdict says of the system.
use pono.Base.{
  ℕ, zero, suc, ◌+◌, ◌-◌, ◌≤◌, ◌<◌, ◌≡◌, ◌≢◌, inl, inr, refl, sym, ap, subst, ◌∙◌, arith, Bool,
  true, false, not, ◌||◌, List, [], ◌∷◌, Eq, Bool-cases, if◌then◌else◌, dec_lt, ltb, leb, nat_beq,
  Result, ok, err, ◌^◌,
}
use pono.Smt.{Smt}
use pono.Smt.Laws.{SmtLaws, Model, holds}
use pono.Smt.Solver.{Solver, SolverLaws, Satisfies, Decides}
use pono.Engines.Problem.{Problem, Unrolling, ProverResult}
use pono.Engines.Bmc.{
  BmcOptions, block, add_transitions, prepare, on_sat, on_unsat, step, bmc_interval_get_cex_ub,
  begin, initialize, bounds_loop, next_bound, check_until,
}
use pono.Engines.Bmc.Formulas.{
  Fits, Fits-assert, Fits-push, Fits-block, holds-bad_between, cex_ub_lem,
}
use pono.Engines.Bmc.Stack.{Above, Above-first, Above-assert, Above-same, frames-pop_last}
use pono.Engines.Bmc.Search.{Answer-cases, Engine, HasCex, HasCex-of, Paths, PathOf-le, Between}
use pono.Engines.Bmc.Shorten.{shorten-HasCex}

module _ {Term : Type 0} ⦃e : Eq Term⦄ (smt : Smt Term) (laws : SmtLaws smt) (solver : Solver Term)
    (rules : SolverLaws smt solver) (opt : BmcOptions) (p : Problem Term)
    (un : Unrolling smt p) where
  open smt use {make_not}
  open solver use {State, assert_formula, push, pop, frames, check_sat_assuming, get_value}
  open p use {init, trans, bad, at_time}

  Fits-add_transitions :
      (σ : Model smt) (n j : ℕ) (s : State)
      → Fits smt laws solver rules opt p σ (add_transitions smt solver opt p n j s)
      → Fits smt laws solver rules opt p σ s
        × ((m : ℕ) → j ≤ suc m → suc m < j + n → holds smt σ (at_time trans m) ≡ true)
  unfolding add_transitions
  Fits-add_transitions σ zero j s h = (h, λ m le lt. absurd (omega arith))
  Fits-add_transitions σ (suc n) j s h =
      let s1 = assert_formula (at_time trans (j - 1)) s in
      let (rest, later) = Fits-add_transitions σ n (suc j) _ h in
      let fits1 : Fits smt laws solver rules opt p σ s1 = elim (Bool-cases opt.neg_init_step) [
        | inl y ↦
            (Fits-assert smt laws solver rules opt p σ (make_not (at_time init j)) s1 (
              subst
                (λ c.
                  Fits smt laws solver rules opt p σ
                    (if c then assert_formula (make_not (at_time init j)) s1 else s1))
                y rest)).1
        | inr n ↦
            subst
              (λ c.
                Fits smt laws solver rules opt p σ
                  (if c then assert_formula (make_not (at_time init j)) s1 else s1))
              n rest
      ] in
      let (here, below) =
        Fits-assert smt laws solver rules opt p σ (at_time trans (j - 1)) s fits1 in
      (
        below,
        λ m le lt. elim (dec_lt j (suc m)) [
          | yes more ↦ later m more (omega arith)
          | no less ↦
              let eq : j - 1 ≡ m = omega arith in
              subst (λ i. holds smt σ (at_time trans i) ≡ true) eq here
        ],
      )

  abbrev pub from : Engine smt laws solver rules opt p un → ℕ
  from b = if nat_beq b.next_k 0 then 1 else b.next_k

  -- the solver after the transitions of bound `i` are asserted, before the clause is
  abbrev pub extended : ℕ → Engine smt laws solver rules opt p un → State
  extended i b =
      if ltb 0 i
      then add_transitions smt solver opt p (suc i - from b) (from b) b.solver_state
      else b.solver_state

  -- between two bounds, a model of the assertions is a path to the last bound that is checked
  abbrev Sound : Engine smt laws solver rules opt p un → Type 0
  Sound b =
      Paths smt laws solver rules opt p un (frames b.solver_state) (b.next_k - 1)
      × (b.bin_search_frames ≡ 0)

  extended-Paths :
      (i : ℕ) (b : Engine smt laws solver rules opt p un)
      → b.next_k ≤ i
      → Sound b
      → Paths smt laws solver rules opt p un (frames (extended i b)) i
  extended-Paths i b le (paths, _) σ fits = elim (Bool-cases (ltb 0 i)) [
    | inl more ↦
        let (below, new) = Fits-add_transitions σ (suc i - from b) (from b) b.solver_state (
          subst
            (λ c. Satisfies smt solver σ (
              frames (
                if c
                then add_transitions smt solver opt p (suc i - from b) (from b) b.solver_state
                else b.solver_state)))
            more fits) in
        let old = paths σ below in
        record {
          starts = old.starts;
          steps = λ j lt. elim (dec_lt j (b.next_k - 1)) [
            | yes known ↦ old.steps j known
            | no fresh ↦ sym (un.reads_trans σ j) ∙ new j (ground arith) (ground arith)
          ];
        }
    | inr last ↦
        PathOf-le smt laws solver rules opt p un {m = b.next_k - 1} {n = i} (ground arith) (
          paths σ (
            subst
              (λ c. Satisfies smt solver σ (
                frames (
                  if c
                  then add_transitions smt solver opt p (suc i - from b) (from b) b.solver_state
                  else b.solver_state)))
              last fits))
  ]

  pub Above-prepare :
      (i : ℕ) (b : Engine smt laws solver rules opt p un)
      → Above smt laws solver rules opt p 0 (frames (extended i b)) (prepare smt solver opt p i b)
  unfolding prepare
  Above-prepare i b =
      Above-assert smt laws solver rules opt p 0 (frames (extended i b)) _ _
        (Above-first smt laws solver rules opt p (extended i b))

  prepare-Between :
      (i : ℕ) (b : Engine smt laws solver rules opt p un)
      → b.next_k ≤ i
      → Sound b
      → Between smt laws solver rules opt p un (frames (prepare smt solver opt p i b)) i b.next_k i
  unfolding prepare
  prepare-Between i b le sound σ fits =
      let (clause, rest) = Fits-assert smt laws solver rules opt p σ _ (push (extended i b)) fits in
      let path =
        extended-Paths i b le sound σ
          (Fits-push smt laws solver rules opt p σ (extended i b) rest) in
      (
        path,
        elim (Bool-cases opt.single_bad_state) [
          | inl single ↦ (i, le, omega arith, ground arith)
          | inr all_bounds ↦
              holds-bad_between smt laws solver rules opt p σ b.next_k i (ground arith)
        ],
      )

  -- a counterexample of at most the length that the engine reports
  abbrev pub Refuted : Engine smt laws solver rules opt p un → Type 0
  Refuted b' = (n : ℕ) × (n ≤ b'.next_k) × HasCex smt laws solver rules opt p un n

  on_sat-Refuted :
      Decides smt solver
      → (i : ℕ) (b b' : Engine smt laws solver rules opt p un) (fs : List (List Term))
        (σ : Model smt)
      → b.next_k ≤ i
      → b.bin_search_frames ≡ 0
      → Paths smt laws solver rules opt p un fs i
      → Between smt laws solver rules opt p un (frames b.solver_state) i b.next_k i
      → Above smt laws solver rules opt p 0 fs b.solver_state
      → Satisfies smt solver σ (frames b.solver_state)
      → ((t : Term) → get_value t b.solver_state ≡ holds smt σ t)
      → on_sat smt solver opt p i b ≡ ok b'
      → Refuted b'
  unfolding on_sat
  on_sat-Refuted decides i b b' fs σ le no_frames paths between above fits values h =
      let (path, bad_i) = between σ fits in
      let (k, ge, lt, bb) = bad_i in
      let ub = bmc_interval_get_cex_ub smt solver opt p b.next_k i b.solver_state in
      let (l, u, bb_ub) =
        cex_ub_lem smt laws solver rules opt p σ b.next_k i b.solver_state values bad_i in
      elim (Bool-cases (opt.allow_non_minimal_cex || opt.single_bad_state)) [
        | inl at_once ↦
            let same : b' ≡ record b { next_k = i } = ground arith in
            (
              k,
              subst (λ r. k ≤ r.next_k) (sym same) lt,
              HasCex-of smt laws solver rules opt p un σ k i lt path bb,
            )
        | inr minimal ↦ elim (Bool-cases (nat_beq ub b.next_k)) [
          | inl first ↦
              let same : b' ≡ record b { next_k = i } = ground arith in
              (
                ub,
                subst (λ r. ub ≤ r.next_k) (sym same) u,
                HasCex-of smt laws solver rules opt p un σ ub i u path bb_ub,
              )
          | inr later ↦ (
            b'.next_k,
            omega arith,
            shorten-HasCex smt laws solver rules opt p un decides ub i b b' fs σ u (ground arith)
                no_frames paths between above fits (ub, l, omega arith, bb_ub) (ground arith),
          )
        ]
      ]

  Paths-block :
      (n j i : ℕ) (s : State)
      → Paths smt laws solver rules opt p un (frames s) i
      → Paths smt laws solver rules opt p un (frames (block smt solver opt p n j s)) i
  Paths-block n j i s paths σ fits = paths σ (Fits-block smt laws solver rules opt p σ n j s fits).0

  on_unsat-Sound :
      (i : ℕ) (b : Engine smt laws solver rules opt p un) (fs : List (List Term))
      → b.bin_search_frames ≡ 0
      → Paths smt laws solver rules opt p un fs i
      → Above smt laws solver rules opt p 0 fs b.solver_state
      → Sound (on_unsat smt solver opt p i b)
  unfolding on_unsat
  on_unsat-Sound i b fs no_frames paths above =
      let s = pop b.solver_state in
      let base : Paths smt laws solver rules opt p un (frames s) i =
        subst (λ gs. Paths smt laws solver rules opt p un gs i)
          (sym (frames-pop_last smt laws solver rules opt p fs b.solver_state above)) paths in
      let with_all : (c d : Bool)
          → Paths smt laws solver rules opt p un
              (frames (
                if c
                then block smt solver opt p (suc i - b.next_k) b.next_k s
                else if d
                then block smt solver opt p 1 i s
                else s))
              i =
        λ c d.
          elim c
            as (λ c.
              Paths smt laws solver rules opt p un
                (frames (
                  if c
                  then block smt solver opt p (suc i - b.next_k) b.next_k s
                  else if d
                  then block smt solver opt p 1 i s
                  else s))
                i) [
                  | true ↦ Paths-block (suc i - b.next_k) b.next_k i s base
                  | false ↦
                      elim d
                        as (λ d.
                          Paths smt laws solver rules opt p un
                            (frames (if d then block smt solver opt p 1 i s else s)) i) [
                              | true ↦ Paths-block 1 i i s base
                              | false ↦ base
                            ]
                ] in
      let eq : i ≡ suc i - 1 = omega arith in
      (
        subst
            (λ n.
              Paths smt laws solver rules opt p un
                (frames (on_unsat smt solver opt p i b).solver_state) n)
            eq (with_all opt.neg_bad_step_all opt.neg_bad_step),
        no_frames,
      )

  pub returned :
      (r : Result (Engine smt laws solver rules opt p un)) (safe : Bool)
      (b' : Engine smt laws solver rules opt p un)
      → elim r as (λ _. Result (Bool × Engine smt laws solver rules opt p un)) [
        | err x ↦ err x
        | ok b2 ↦ ok (false, b2)
      ]
        ≡ ok (safe, b')
      → (r ≡ ok b') × (safe ≡ false)
  returned (err x) safe b' h = absurd (cc)
  returned (ok b2) safe b' h = ground arith

  step_lem :
      Decides smt solver
      → (i : ℕ) (b b' : Engine smt laws solver rules opt p un) (safe : Bool) → Sound b
      → step smt solver opt p i b ≡ ok (safe, b')
      → (safe ≡ true → Sound b') × (safe ≡ false → Refuted b')
  unfolding step
  step_lem decides i b b' safe sound h =
      let s0 = prepare smt solver opt p i b in
      let s = (check_sat_assuming [] s0).1 in
      let b1 = record b { solver_state = s } in
      elim (Bool-cases (ltb i b.next_k)) [
        | inl old ↦
            let same : (safe ≡ true) × (b' ≡ b) = ground arith in
            (λ _. subst Sound (sym same.1) sound, λ no. absurd (cc (same.0)))
        | inr new ↦
            let le : b.next_k ≤ i = ground arith in
            let fs = frames (extended i b) in
            let paths = extended-Paths i b le sound in
            let same_frames : frames s ≡ frames s0 = rules.frames-check [] s0 in
            let above =
              Above-same smt laws solver rules opt p 0 fs s0 s same_frames (Above-prepare i b) in
            elim (Answer-cases (check_sat_assuming [] s0).0) [
              | inl yes_sat ↦
                  let (σ, fits, values) = rules.sat_model [] s0 yes_sat in
                  let (run, unsafe) =
                    returned (on_sat smt solver opt p i b1) safe b' (ground arith) in
                  (
                    λ y. absurd (cc (unsafe)),
                    λ _.
                        on_sat-Refuted decides i b1 b' fs σ le sound.1 paths
                          (λ τ fits_τ.
                            prepare-Between i b le sound τ
                              (subst (Satisfies smt solver τ) same_frames fits_τ))
                          above (subst (Satisfies smt solver σ) (sym same_frames) fits.1) values
                          run,
                  )
              | inr not_sat ↦
                  let same : (safe ≡ true) × (b' ≡ on_unsat smt solver opt p i b1) = ground arith in
                  (
                    λ _. subst Sound (sym same.1) (on_unsat-Sound i b1 fs sound.1 paths above),
                    λ no. absurd (cc (same.0)),
                  )
            ]
      ]

  begin-Sound :
      (b : Engine smt laws solver rules opt p un)
      → b.bin_search_frames ≡ 0
      → Sound (begin smt solver opt p b)
  unfolding begin
  begin-Sound b no_frames = (
    λ σ fits.
        let (starts, _) = Fits-assert smt laws solver rules opt p σ (at_time init 0) _ fits in
        record { starts = sym (un.reads_init σ 0) ∙ starts; steps = λ j lt. absurd (omega arith) },
    no_frames,
  )

  -- what `bounds_loop` does after a step
  abbrev pub after :
      ℕ
      → ℕ
      → ℕ
      → Bool
      → Engine smt laws solver rules opt p un
      → Result (ProverResult × Engine smt laws solver rules opt p un)
  after fuel k i safe b1 =
      let rest = bounds_loop smt solver opt p fuel k (next_bound smt solver opt p i) b1 in
      if safe
      then (if ltb (next_bound smt solver opt p i) (2 ^ 31)
          then rest
          else err pono.Base.Error.int_overflow)
      else ok (ProverResult.false_, b1)

  pub stepped :
      (r : Result (Bool × Engine smt laws solver rules opt p un)) (fuel k i : ℕ)
      (x : ProverResult × Engine smt laws solver rules opt p un)
      → elim r as (λ _. Result (ProverResult × Engine smt laws solver rules opt p un)) [
        | err y ↦ err y
        | ok (safe, b1) ↦ after fuel k i safe b1
      ]
        ≡ ok x
      → (safe : Bool) × (b1 : Engine smt laws solver rules opt p un) × (r ≡ ok (safe, b1))
        × (after fuel k i safe b1 ≡ ok x)
  stepped (err y) fuel k i x h = absurd (cc)
  stepped (ok (safe, b1)) fuel k i x h = (safe, b1, refl, h)

  bounds_loop-Refuted :
      Decides smt solver
      → (fuel k i : ℕ) (b b' : Engine smt laws solver rules opt p un) → Sound b
      → bounds_loop smt solver opt p fuel k i b ≡ ok (ProverResult.false_, b')
      → Refuted b'
  unfolding bounds_loop
  bounds_loop-Refuted decides zero k i b b' sound h = absurd (cc)
  bounds_loop-Refuted decides (suc fuel) k i b b' sound h = elim (Bool-cases (leb i k)) [
    | inr over ↦ absurd (ground arith)
    | inl more ↦
        let (safe, b1, run, rest) =
          stepped (step smt solver opt p i b) fuel k i (ProverResult.false_, b')
            (subst
              (λ c.
                (if c
                  then (elim (step smt solver opt p i b)
                      as (λ _. Result (ProverResult × Engine smt laws solver rules opt p un)) [
                        | err y ↦ err y
                        | ok (safe, b1) ↦ after fuel k i safe b1
                      ])
                  else ok (ProverResult.unknown, b))
                ≡ ok (ProverResult.false_, b'))
              more h) in
        let (sound1, refuted) = step_lem decides i b b1 safe sound run in
        elim (Bool-cases safe) [
          | inl y ↦
              bounds_loop-Refuted decides fuel k (next_bound smt solver opt p i) b1 b' (sound1 y)
                (ground arith)
          | inr n ↦ let same : b1 ≡ b' = ground arith in subst Refuted same (refuted n)
        ]
  ]

  -- an engine that is not initialized runs the loop from the start
  pub check_until-begin :
      (k : ℕ) (b : Engine smt laws solver rules opt p un)
      (x : ProverResult × Engine smt laws solver rules opt p un)
      → b.initialized ≡ false
      → check_until smt solver opt p k b ≡ ok x
      → bounds_loop smt solver opt p (suc (suc k)) k opt.bound_start (begin smt solver opt p b)
        ≡ ok x
  unfolding check_until initialize
  check_until-begin k b x fresh h = elim (Bool-cases p.bad_only_curr) [
    | inr bad ↦ absurd (ground arith)
    | inl fine ↦ ground arith
  ]

  -- With a solver that decides every query, on an engine that is not initialized and has no frame of a
  -- search left open: when `check_until` answers FALSE, whatever the options, the system has a counterexample of at most the length that the engine
  -- reports.
  pub check_until-Refuted :
      Decides smt solver
      → (k : ℕ) (b b' : Engine smt laws solver rules opt p un) → b.initialized ≡ false
      → b.bin_search_frames ≡ 0
      → check_until smt solver opt p k b ≡ ok (ProverResult.false_, b')
      → Refuted b'
  check_until-Refuted decides k b b' fresh no_frames h =
      bounds_loop-Refuted decides (suc (suc k)) k opt.bound_start (begin smt solver opt p b) b'
        (begin-Sound b no_frames) (check_until-begin k b (ProverResult.false_, b') fresh h)
