-- ===== src/Modifiers/Prophecy.antt =====
-- modifiers/prophecy_modifier.h and modifiers/prophecy_modifier.cpp: a frozen state variable that foretells the
-- value that a history variable will have. The state is that of its history modifier.
pub mod Frozen
use pono.Base.{ℕ, List, [], ◌∷◌, ◌++◌, Eq, ok, M, continue}
use pono.Smt.{Smt, Name}
use pono.Ts.Define.{assign_next}
use pono.Ts.Vars.{make_statevar}
use pono.Unroller.Digits.{decimal}
use pono.Modifiers.History.{History, in_ts, get_hist}

module _ {Term : Type 0} ⦃e : Eq Term⦄ (smt : Smt Term) where
  open smt use {get_sort, to_string}

  -- "proph_" + target->to_string() + "_" + to_string(delay)
  abbrev proph_name : Term → ℕ → Name
  proph_name target delay =
      112 ∷ 114 ∷ 111 ∷ 112 ∷ 104 ∷ 95 ∷ [] ++ to_string target ++ 95 ∷ [] ++ decimal delay

  unfoldable pub get_proph : Term → ℕ → M (History Term) (Term × Term)
  unfolding get_hist
  get_proph target delay s = continue (get_hist smt target delay s) (λ hist_var s1.
      continue (in_ts (make_statevar smt (proph_name target delay) (get_sort target)) s1)
        (λ proph_var s2.
          continue (in_ts (assign_next smt proph_var proph_var) s2)
            (λ _ s3. (ok (proph_var, hist_var), s3))))
