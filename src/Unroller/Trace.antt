-- ===== src/Unroller/Trace.antt =====
-- The models of an unrolled formula and the sequences of states of the system.
use mathlib.Core.List.{append_cancel_right, reverse}
use pono.Base.{
  ℕ, suc, ◌≡◌, inl, inr, refl, sym, ap, subst, ◌∙◌, arith, true, false, List, [], ◌∷◌, ◌++◌, some,
  none, Option, Eq, ◌==◌, ==_iff, ==_refl, mem, lookup, mem-append, if◌then◌else◌, Bool-cases,
  Option-cases,
}
use pono.Smt.{Smt, Name}
use pono.Smt.Laws.{SmtLaws, Model}
use pono.Ts.{TransitionSystem}
use pono.Ts.Vars.WellFormed.{IsWellFormed, is_var, to_string-injective}
use pono.Unroller.{timed}
use pono.Unroller.Digits.{decimal, parsed, is_digit, parsed-decimal}
use pono.Unroller.Timed.{
  unrolled, IsKnown, Speaks, view, eval-unrolled, image, image-var, image-next,
}

module _ {Term : Type 0} ⦃e : Eq Term⦄ (smt : Smt Term) (ts : TransitionSystem Term) where
  -- a state with its inputs, and the next state, as one assignment
  abbrev pub joint : Model smt → Model smt → Model smt
  joint s s' x = elim (lookup x ts.curr_map) [ some v ↦ s' v | none ↦ s x ]

module _ {Term : Type 0} ⦃e : Eq Term⦄ (smt : Smt Term) (ts : TransitionSystem Term)
    (time_id : Name) where
  open smt use {to_string}

  -- The copies of the variables are printed under the names that they are made with. A solver that puts quotes
  -- around the names of some symbols does not print those so.
  abbrev pub IsPrinted : Type 0
  IsPrinted =
      (v : Term) (k : ℕ)
      → is_var smt ts v ≡ true
      → to_string (timed smt time_id v k) ≡ to_string v ++ (time_id ++ decimal k)

  -- the state of time `k` in a model of an unrolled formula
  abbrev pub state_at : Model smt → ℕ → Model smt
  state_at σ k v = σ (timed smt time_id v k)

  find_timed : ℕ → Term → List Term → Option Term
  find_timed k u [] = none
  find_timed k u (v ∷ vs) = if timed smt time_id v k == u then some v else find_timed k u vs

  assign_at : (ℕ → Model smt) → ℕ → Model smt
  assign_at π k u = elim (find_timed k u (ts.statevars ++ ts.inputvars)) [
    | some v ↦ π k v
    | none ↦ π k u
  ]

  -- the assignment to the copies that a sequence of states gives: the time is read from the name
  pub assign : (ℕ → Model smt) → Model smt
  assign π u = assign_at π (parsed (reverse (to_string u))) u

  view-joint :
      (k : ℕ) (σ : Model smt) (x : Term)
      → view smt ts time_id k σ x ≡ joint smt ts (state_at σ k) (state_at σ (suc k)) x
  unfolding image
  view-joint k σ x = elim (Option-cases (lookup x ts.curr_map)) [
    | inl gone ↦ rw (gone, image, joint) refl
    | inr (v, at) ↦ rw (at, image, joint) refl
  ]

module _ {Term : Type 0} ⦃e : Eq Term⦄ (smt : Smt Term) (laws : SmtLaws smt)
    (ts : TransitionSystem Term) (time_id : Name) (wf : IsWellFormed smt ts) where
  open smt use {eval, to_string}

  -- In a model of the unrolled formula, a term at time `k` has the value that it has in the states of
  -- the times `k` and `k + 1`, if its symbols are variables and next-state variables of the system.
  pub eval-unrolled_states :
      (k : ℕ) (σ : Model smt) (t : Term)
      → Speaks smt ts time_id t
      → eval σ (unrolled smt ts time_id t k)
        ≡ eval (joint smt ts (state_at smt ts time_id σ k) (state_at smt ts time_id σ (suc k))) t
  eval-unrolled_states k σ t known =
      eval-unrolled smt laws ts time_id wf k σ t known
      ∙ laws.eval-Agree _ _ t (λ x free. view-joint smt ts time_id k σ x)

  module _ (stem : Name) (c : ℕ) (ends : time_id ≡ stem ++ c ∷ []) (stop : is_digit c ≡ false)
      (printed : IsPrinted smt ts time_id) where
    -- the copies of two variables at one time are two symbols
    pub timed-injective :
        (k : ℕ) (v w : Term)
        → is_var smt ts v ≡ true
        → is_var smt ts w ≡ true
        → timed smt time_id v k ≡ timed smt time_id w k
        → v ≡ w
    timed-injective k v w hv hw h =
        let names : to_string v ++ (time_id ++ decimal k) ≡ to_string w ++ (time_id ++ decimal k) =
          sym (printed v k hv) ∙ ap to_string h ∙ printed w k hw in
        to_string-injective smt wf v w hv hw
          (append_cancel_right (to_string v) (to_string w) (time_id ++ decimal k) names)

    parsed-timed :
        (v : Term) (k : ℕ)
        → is_var smt ts v ≡ true
        → parsed (reverse (to_string (timed smt time_id v k))) ≡ k
    parsed-timed v k var =
        rw (printed v k var) (rw ends (parsed-decimal (to_string v) stem c k stop))

    find_timed_lem :
        (k : ℕ) (v : Term) (vs : List Term)
        → ((x : Term) → mem x vs ≡ true → is_var smt ts x ≡ true)
        → mem v vs ≡ true
        → find_timed smt ts time_id k (timed smt time_id v k) vs ≡ some v
    unfolding find_timed
    find_timed_lem k v [] vars m = absurd (cc)
    find_timed_lem k v (w ∷ vs) vars m =
        elim (Bool-cases (timed smt time_id w k == timed smt time_id v k)) [
          | inl y ↦
              let var : is_var smt ts v ≡ true = vars v m in
              let same : w ≡ v =
                timed-injective k w v (vars w (ground (arith, ==_refl w))) var ((==_iff _ _).0 y) in
              rw (y, same) refl
          | inr n ↦ rw n (
              find_timed_lem k v vs (λ x mx. vars x (ground arith))
                (ground (arith, ==_iff w v, ==_refl (timed smt time_id v k))))
        ]

    assign-timed :
        (π : ℕ → Model smt) (v : Term) (k : ℕ)
        → is_var smt ts v ≡ true
        → assign smt ts time_id π (timed smt time_id v k) ≡ π k v
    unfolding assign assign_at
    assign-timed π v k var =
        let found =
          find_timed_lem k v (ts.statevars ++ ts.inputvars)
            (λ x m. ground (arith, mem-append x ts.statevars ts.inputvars))
            (ground (arith, mem-append v ts.statevars ts.inputvars)) in
        ap (λ j. assign_at smt ts time_id π j (timed smt time_id v k)) (parsed-timed v k var)
        ∙ rw (found, assign_at) refl

    -- Every sequence of states is the one of some model: in the model that `assign` gives for it, a term
    -- at time `k` has the value that it has in the states of the times `k` and `k + 1`, if the term's
    -- symbols are variables and next-state variables, the identifier of times ends in no digit, and the
    -- copies are printed under the names that they are made with.
    pub eval-unrolled-assign :
        (π : ℕ → Model smt) (k : ℕ) (t : Term)
        → Speaks smt ts time_id t
        → eval (assign smt ts time_id π) (unrolled smt ts time_id t k)
          ≡ eval (joint smt ts (π k) (π (suc k))) t
    eval-unrolled-assign π k t known =
        eval-unrolled smt laws ts time_id wf k (assign smt ts time_id π) t known
        ∙ laws.eval-Agree _ _ t (λ x free. seen x (known x free))
      where
        seen :
            (x : Term)
            → IsKnown smt ts time_id x
            → view smt ts time_id k (assign smt ts time_id π) x ≡ joint smt ts (π k) (π (suc k)) x
        seen x (inl var) =
            let gone : lookup x ts.curr_map ≡ none = elim (Option-cases (lookup x ts.curr_map)) [
              | inl g ↦ g
              | inr (w, at) ↦ absurd (ground (arith, wf.curr_in x w at, wf.plain x var))
            ] in
            rw (gone, joint)
              (rw (image-var smt laws ts time_id wf k x var) (assign-timed π x k var))
        seen x (inr (v, state, at)) =
            let (n, at', back, _) = wf.next_of v state in
            let same : n ≡ x = ground arith in
            let back' : lookup x ts.curr_map ≡ some v =
              subst (λ z. lookup z ts.curr_map ≡ some v) same back in
            rw (back', joint)
              (rw (image-next smt laws ts time_id wf k v x state at).0
                (assign-timed π v (suc k) (ground arith)))
