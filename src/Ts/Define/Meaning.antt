-- ===== src/Ts/Define/Meaning.antt =====
-- What the transition relation says after the operations of core/ts.cpp that define it: the
-- conjunction of the updates and the constraints that are recorded beside it.
use pono.Base.{
  ◌≡◌, arith, Bool, true, false, ◌&&◌, List, [], ◌∷◌, ◌++◌, some, none, Eq, lookup, put, has_key,
  all, all-append, Map, if◌then◌else◌, ok, Option-cases, inl, inr, ap,
}
use pono.Smt.{Smt}
use pono.Smt.Laws.{SmtLaws, Model, holds, under}
use pono.Ts.{TransitionSystem}
use pono.Ts.Symbols.{contains, only_curr}
use pono.Ts.Define.{assign_next, add_invar, add_constraint}

module _ {K V : Type 0} ⦃e : Eq K⦄ where
  all-put :
      (p : K × V → Bool) (k : K) (v : V) (m : Map K V)
      → has_key k m ≡ false
      → all p (put k v m) ≡ (all p m && p (k, v))
  all-put p k v [] h = ground arith
  all-put p k v ((j, w) ∷ m) h = ground (arith, all-put p k v m)

module _ {Term : Type 0} ⦃e : Eq Term⦄ (smt : Smt Term) where
  open smt use {is_symbolic_const, make_equal}

  -- the renaming substitutes for symbols only
  abbrev pub IsRenaming : Map Term Term → Type 0
  IsRenaming m = all (λ kv. is_symbolic_const kv.0) m ≡ true

  abbrev pub update_holds : Model smt → Map Term Term → Term × Term → Bool
  update_holds σ nexts (sv, u) = elim (lookup sv nexts) [
    | some nv ↦ holds smt σ (make_equal nv u)
    | none ↦ true
  ]

  -- a constraint holds, and in the next state too where it may and speaks of states only
  abbrev pub constraint_holds : Model smt → List Term → Map Term Term → Term × Bool → Bool
  constraint_holds σ states nexts (c, b) =
      holds smt σ c
      && (if b && contains smt c (states ∷ []) then holds smt (under smt nexts σ) c else true)

  -- the transition relation that the recorded updates and constraints describe
  abbrev pub described : Model smt → TransitionSystem Term → Bool
  described σ ts =
      all (update_holds σ ts.next_map) ts.state_updates
      && all (constraint_holds σ ts.statevars ts.next_map) ts.constraints

  abbrev pub IsBuilt : TransitionSystem Term → Type 0
  IsBuilt ts = (σ : Model smt) → holds smt σ ts.trans ≡ described σ ts

  -- what the operations on constraints leave alone
  pub record SameVars (ts ts' : TransitionSystem Term) : Type 0 where
    pub states : ts'.statevars ≡ ts.statevars
    pub inputs : ts'.inputvars ≡ ts.inputvars
    pub nexts : ts'.next_map ≡ ts.next_map
    pub updates : ts'.state_updates ≡ ts.state_updates

module _ {Term : Type 0} ⦃e : Eq Term⦄ (smt : Smt Term) (laws : SmtLaws smt) where
  open smt use {is_symbolic_const, make_equal, make_and, substitute}

  holds-substitute :
      (σ : Model smt) (t : Term) (m : Map Term Term)
      → IsRenaming smt m
      → holds smt σ (substitute t m) ≡ holds smt (under smt m σ) t
  holds-substitute σ t m r = ap smt.is_true (laws.eval-substitute σ t m r)

  -- `add_constraint` conjoins the constraint, and its next-state version where that applies.
  pub add_constraint-trans :
      (c : Term) (b : Bool) (ts : TransitionSystem Term) {ts' : TransitionSystem Term}
      → IsRenaming smt ts.next_map
      → add_constraint smt c b ts ≡ (ok tt, ts')
      → (σ : Model smt)
      → holds smt σ ts'.trans
        ≡ (holds smt σ ts.trans && constraint_holds smt σ ts.statevars ts.next_map (c, b))
  unfolding add_constraint only_curr
  add_constraint-trans c b ts r h σ = ground (
    arith,
    laws.holds-and σ ts.trans c,
    laws.holds-and σ (make_and ts.trans c) (substitute c ts.next_map),
    holds-substitute σ c ts.next_map r,
  )

  pub add_constraint-vars :
      (c : Term) (b : Bool) (ts : TransitionSystem Term) {ts' : TransitionSystem Term}
      → add_constraint smt c b ts ≡ (ok tt, ts')
      → SameVars smt ts ts' × (ts'.constraints ≡ ts.constraints ++ (c, b) ∷ [])
  unfolding add_constraint
  add_constraint-vars c b ts h = ground arith

  IsBuilt-more :
      (ts : TransitionSystem Term) (ts' : TransitionSystem Term) (cb : Term × Bool)
      → IsBuilt smt ts
      → SameVars smt ts ts'
      → ts'.constraints ≡ ts.constraints ++ cb ∷ []
      → ((σ : Model smt)
          → holds smt σ ts'.trans
            ≡ (holds smt σ ts.trans && constraint_holds smt σ ts.statevars ts.next_map cb))
      → IsBuilt smt ts'
  IsBuilt-more ts ts' cb built same cs h σ =
      rw
        (
          h σ,
          built σ,
          same.states,
          same.nexts,
          same.updates,
          cs,
          all-append (constraint_holds smt σ ts.statevars ts.next_map) ts.constraints (cb ∷ []),
        )
        (ground arith)

  -- When `add_constraint` returns, with the flag for the initial and next states or without it, on a
  -- system whose renaming has symbols for keys, the transition relation is the one that the updates and
  -- constraints describe if it was before.
  pub add_constraint-IsBuilt :
      (c : Term) (b : Bool) (ts : TransitionSystem Term) {ts' : TransitionSystem Term}
      → IsRenaming smt ts.next_map
      → IsBuilt smt ts
      → add_constraint smt c b ts ≡ (ok tt, ts')
      → IsBuilt smt ts'
  add_constraint-IsBuilt c b ts {ts'} r built h =
      let (same, cs) = add_constraint-vars c b ts h in
      IsBuilt-more ts ts' (c, b) built same cs (add_constraint-trans c b ts r h)

  add_invar-trans :
      (c : Term) (ts : TransitionSystem Term) {ts' : TransitionSystem Term}
      → IsRenaming smt ts.next_map
      → add_invar smt c ts ≡ (ok tt, ts')
      → (σ : Model smt)
      → holds smt σ ts'.trans
        ≡ (holds smt σ ts.trans && constraint_holds smt σ ts.statevars ts.next_map (c, true))
  unfolding add_invar only_curr
  add_invar-trans c ts r h σ = ground (
    arith,
    laws.holds-and σ ts.trans c,
    laws.holds-and σ (make_and ts.trans c) (substitute c ts.next_map),
    holds-substitute σ c ts.next_map r,
  )

  add_invar-vars :
      (c : Term) (ts : TransitionSystem Term) {ts' : TransitionSystem Term}
      → add_invar smt c ts ≡ (ok tt, ts')
      → SameVars smt ts ts' × (ts'.constraints ≡ ts.constraints ++ (c, true) ∷ [])
  unfolding add_invar
  add_invar-vars c ts h = ground arith

  -- When `add_invar` returns, on a system whose renaming has symbols for keys, the transition relation is
  -- the one that the updates and constraints describe if it was before.
  pub add_invar-IsBuilt :
      (c : Term) (ts : TransitionSystem Term) {ts' : TransitionSystem Term}
      → IsRenaming smt ts.next_map
      → IsBuilt smt ts
      → add_invar smt c ts ≡ (ok tt, ts')
      → IsBuilt smt ts'
  add_invar-IsBuilt c ts {ts'} r built h =
      let (same, cs) = add_invar-vars c ts h in
      IsBuilt-more ts ts' (c, true) built same cs (add_invar-trans c ts r h)

  pub assign_next-trans :
      (sv u : Term) (ts : TransitionSystem Term) {ts' : TransitionSystem Term}
      → assign_next smt sv u ts ≡ (ok tt, ts')
      → (σ : Model smt)
      → holds smt σ ts'.trans ≡ (holds smt σ ts.trans && update_holds smt σ ts.next_map (sv, u))
  unfolding assign_next
  assign_next-trans sv u ts {ts'} h σ = elim (Option-cases (lookup sv ts.next_map)) [
    | inl none_at ↦ absurd (ground arith)
    | inr (nv, at) ↦ ground (arith, laws.holds-and σ ts.trans (make_equal nv u))
  ]

  pub assign_next-vars :
      (sv u : Term) (ts : TransitionSystem Term) {ts' : TransitionSystem Term}
      → assign_next smt sv u ts ≡ (ok tt, ts')
      → (ts'.next_map ≡ ts.next_map)
        × (ts'.statevars ≡ ts.statevars)
        × (ts'.constraints ≡ ts.constraints)
        × (ts'.state_updates ≡ put sv u ts.state_updates)
        × (has_key sv ts.state_updates ≡ false)
  unfolding assign_next
  assign_next-vars sv u ts h = ground arith

  -- When `assign_next` returns, the transition relation is the one that the updates and constraints
  -- describe if it was before.
  pub assign_next-IsBuilt :
      (sv u : Term) (ts : TransitionSystem Term) {ts' : TransitionSystem Term}
      → IsBuilt smt ts
      → assign_next smt sv u ts ≡ (ok tt, ts')
      → IsBuilt smt ts'
  assign_next-IsBuilt sv u ts {ts'} built h σ =
      let (nexts, states, cs, us, fresh) = assign_next-vars sv u ts h in
      rw
        (
          assign_next-trans sv u ts h σ,
          built σ,
          nexts,
          states,
          cs,
          us,
          all-put (update_holds smt σ ts.next_map) sv u ts.state_updates fresh,
        )
        (ground arith)
