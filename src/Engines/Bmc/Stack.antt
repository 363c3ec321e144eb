-- ===== src/Engines/Bmc/Stack.antt =====
-- The frames that the searches of the engine push and pop.
use pono.Base.{ℕ, zero, suc, ◌≡◌, refl, ap, ◌∙◌, arith, List, [], ◌∷◌, ◌++◌, Eq, length}
use pono.Smt.{Smt}
use pono.Smt.Laws.{SmtLaws}
use pono.Smt.Solver.{Solver, SolverLaws, add_top, drop_top}
use pono.Engines.Problem.{Problem}
use pono.Engines.Bmc.{BmcOptions, block, pop_frames}

module _ {Term : Type 0} ⦃e : Eq Term⦄ (smt : Smt Term) (laws : SmtLaws smt) (solver : Solver Term)
    (rules : SolverLaws smt solver) (opt : BmcOptions) (p : Problem Term) where
  open smt use {make_not}
  open solver use {State, assert_formula, push, pop, frames, check_sat_assuming}
  open p use {bad, at_time}

  -- the frames of `s` are `suc d` frames on top of `fs`
  pub record Above (d : ℕ) (fs : List (List Term)) (s : State) : Type 0 where
    pub top : List Term
    pub others : List (List Term)
    pub split : frames s ≡ top ∷ (others ++ fs)
    pub depth : length others ≡ d

  pub Above-push :
      (d : ℕ) (fs : List (List Term)) (s : State) → Above d fs s → Above (suc d) fs (push s)
  Above-push d fs s h = record {
    top = [];
    others = h.top ∷ h.others;
    split = rules.frames-push s ∙ ap (λ l. [] ∷ l) h.split;
    depth = ap suc h.depth;
  }

  pub Above-first : (s : State) → Above 0 (frames s) (push s)
  Above-first s = record { top = []; others = []; split = rules.frames-push s; depth = refl }

  pub Above-assert :
      (d : ℕ) (fs : List (List Term)) (t : Term) (s : State)
      → Above d fs s
      → Above d fs (assert_formula t s)
  Above-assert d fs t s h = record {
    top = t ∷ h.top;
    others = h.others;
    split = rules.frames-assert t s ∙ ap (add_top t) h.split;
    depth = h.depth;
  }

  pub Above-block :
      (d : ℕ) (fs : List (List Term)) (n j : ℕ) (s : State)
      → Above d fs s
      → Above d fs (block smt solver opt p n j s)
  unfolding block
  Above-block d fs zero j s h = h
  Above-block d fs (suc n) j s h =
      Above-block d fs n (suc j) _ (Above-assert d fs (make_not (at_time bad j)) s h)

  pub Above-same :
      (d : ℕ) (fs : List (List Term)) (s s' : State)
      → frames s' ≡ frames s
      → Above d fs s
      → Above d fs s'
  Above-same d fs s s' eq h = record {
    top = h.top;
    others = h.others;
    split = eq ∙ h.split;
    depth = h.depth;
  }

  pop-split :
      (fs : List (List Term)) (s : State) (top : List Term) (others : List (List Term)) (d : ℕ)
      → frames s ≡ top ∷ (others ++ fs)
      → length others ≡ suc d
      → Above d fs (pop s)
  pop-split fs s top [] d eq len = absurd (omega arith)
  pop-split fs s top (f ∷ others) d eq len = record {
    top = f;
    others = others;
    split = rules.frames-pop s ∙ ap drop_top eq;
    depth = omega arith;
  }

  pub Above-pop :
      (d : ℕ) (fs : List (List Term)) (s : State) → Above (suc d) fs s → Above d fs (pop s)
  Above-pop d fs s h = pop-split fs s h.top h.others d h.split h.depth

  last-split :
      (fs : List (List Term)) (s : State) (top : List Term) (others : List (List Term))
      → frames s ≡ top ∷ (others ++ fs)
      → length others ≡ 0
      → frames (pop s) ≡ fs
  last-split fs s top [] eq len = rules.frames-pop s ∙ ap drop_top eq
  last-split fs s top (f ∷ others) eq len = absurd (omega arith)

  pub frames-pop_last : (fs : List (List Term)) (s : State) → Above 0 fs s → frames (pop s) ≡ fs
  frames-pop_last fs s h = last-split fs s h.top h.others h.split h.depth

  pub Above-pop_frames :
      (n : ℕ) (fs : List (List Term)) (s : State)
      → Above n fs s
      → Above 0 fs (pop_frames smt solver opt p n s)
  unfolding pop_frames
  Above-pop_frames zero fs s h = h
  Above-pop_frames (suc n) fs s h = Above-pop_frames n fs (pop s) (Above-pop n fs s h)
