-- ===== src/Modifiers/History.antt =====
-- modifiers/history_modifier.h and modifiers/history_modifier.cpp: state variables that hold the value that a term
-- had some steps ago. The modifier changes the system that it was made for, which is part of its state here.
pub mod Links
pub mod Delayed
use pono.Base.{
  ℕ, zero, suc, ◌-◌, Bool, List, [], ◌∷◌, ◌++◌, Option, some, none, Eq, Map, lookup, put, length,
  nat_beq, if◌then◌else◌, Result, ok, err, M, continue, Error,
}
use pono.Smt.{Smt, Name}
use pono.Ts.{TransitionSystem}
use pono.Ts.Symbols.{no_next, next}
use pono.Ts.Define.{assign_next}
use pono.Ts.Relational.{constrain_trans}
use pono.Ts.Vars.{make_statevar}
use pono.Unroller.Digits.{decimal}

pub record History (Term : Type 0) : Type 0 where
  pub ts : TransitionSystem Term
  pub hist_vars : Map Term (List Term)

-- `HistoryModifier(ts)`
abbrev pub new_history : {Term : Type 0} → TransitionSystem Term → History Term
new_history ts = record { ts = ts; hist_vars = [] }

-- an operation of the system
abbrev pub in_ts : {Term A : Type 0} → M (TransitionSystem Term) A → M (History Term) A
in_ts m s = let (r, ts') = m s.ts in (r, record s { ts = ts' })

-- `vector::back`, `vector::at`
abbrev pub back : {A : Type 0} → List A → Option A
back [] = none
back (x ∷ []) = some x
back (_ ∷ y ∷ xs) = back (y ∷ xs)

abbrev pub get_elem? : {A : Type 0} → List A → ℕ → Option A
get_elem? [] n = none
get_elem? (x ∷ xs) zero = some x
get_elem? (x ∷ xs) (suc n) = get_elem? xs n

module _ {Term : Type 0} ⦃e : Eq Term⦄ (smt : Smt Term) where
  open smt use {get_sort, to_string, make_equal}

  -- `hist_vars_[target]`, which is empty where there is no entry
  abbrev pub hists_of : Term → History Term → List Term
  hists_of target s = elim (lookup target s.hist_vars) [ some hs ↦ hs | none ↦ [] ]

  -- "hist_" + target->to_string() + "_" + to_string(num)
  abbrev hist_name : Term → ℕ → Name
  hist_name target num =
      104 ∷ 105 ∷ 115 ∷ 116 ∷ 95 ∷ [] ++ to_string target ++ 95 ∷ [] ++ decimal num

  -- the first history variable has the target for its next value
  pub define_first : Term → Term → M (TransitionSystem Term) (Unit {0})
  define_first var target ts =
      if no_next smt ts target
      then assign_next smt var target ts
      else if ts.functional
      then (err Error.hist_next, ts)
      else constrain_trans smt (make_equal (next smt ts var) target) ts

  -- a later one has the one before it
  pub define_later : Term → List Term → M (TransitionSystem Term) (Unit {0})
  define_later var hs ts = elim (back hs) [
    | some prev ↦ assign_next smt var prev ts
    | none ↦ (err Error.out_of_range, ts)
  ]

  -- the body of the `while` loop, for the history variable of number `num`
  pub add_hist : Term → ℕ → M (History Term) (Unit {0})
  unfolding define_first define_later
  add_hist target num s =
      continue (in_ts (make_statevar smt (hist_name target num) (get_sort target)) s) (λ var s1.
        continue
          (in_ts
            (if nat_beq num 1
              then define_first var target
              else define_later var (hists_of target s1))
            s1)
          (λ _ s2. (
            ok tt,
            record s2 { hist_vars = put target (hists_of target s2 ++ var ∷ []) s2.hist_vars },
          )))

  -- `n` rounds of the loop after `num` variables
  pub add_hists : ℕ → Term → ℕ → M (History Term) (Unit {0})
  unfolding add_hist
  add_hists zero target num s = (ok tt, s)
  add_hists (suc n) target num s =
      continue (add_hist target (suc num) s) (λ _. add_hists n target (suc num))

  unfoldable pub get_hist : Term → ℕ → M (History Term) Term
  unfolding add_hists
  get_hist target zero s = (ok target, s)
  get_hist target (suc delay) s =
      let num = length (hists_of target s) in
      continue
        (add_hists (suc delay - num) target num
          (record s { hist_vars = put target (hists_of target s) s.hist_vars }))
        (λ _ s'. elim (get_elem? (hists_of target s') delay) [
          | some var ↦ (ok var, s')
          | none ↦ (err Error.out_of_range, s')
        ])
