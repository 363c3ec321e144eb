-- ===== src/Examples/Histories.antt =====
-- History and prophecy variables of the input of the system with the update `x := i`.
use pono.Base.{ℕ, ◌-◌, ◌≡◌, refl, arith, [], ◌∷◌, ok, true, leb, if◌then◌else◌}
use pono.Smt.{SortKind}
use pono.Smt.Laws.{Model}
use pono.Ts.Executions.{Execution}
use pono.Modifiers.History.{History, new_history, get_hist}
use pono.Modifiers.History.Delayed.{get_hist-delayed, new_history-IsHistory}
use pono.Modifiers.Prophecy.{get_proph}
use pono.Modifiers.Prophecy.Frozen.{get_proph-frozen}
use pono.Examples.Toy.{Toy, sym, toy, toy_laws, toy_eq}
use pono.Examples.Systems.{i, updated}

abbrev start : History Toy
start = new_history updated

-- "hist_i_2"
abbrev hist_2 : Toy
hist_2 = sym (104 ∷ 105 ∷ 115 ∷ 116 ∷ 95 ∷ 105 ∷ 95 ∷ 50 ∷ []) SortKind.bool

-- "proph_i_2"
abbrev proph_2 : Toy
proph_2 = sym (112 ∷ 114 ∷ 111 ∷ 112 ∷ 104 ∷ 95 ∷ 105 ∷ 95 ∷ 50 ∷ []) SortKind.bool

abbrev with_hist : History Toy
with_hist = (get_hist toy i 2 start).1

abbrev with_proph : History Toy
with_proph = (get_proph toy i 2 start).1

get_hist_runs : get_hist toy i 2 start ≡ (ok hist_2, with_hist)
unfolding get_hist pono.Ts.Vars.make_statevar pono.Ts.Vars.add_statevar pono.Ts.Vars.name_term
    pono.Unroller.Digits.decimal pono.Ts.Symbols.no_next pono.Ts.Define.assign_next
get_hist_runs = refl

get_proph_runs : get_proph toy i 2 start ≡ (ok (proph_2, hist_2), with_proph)
unfolding get_proph pono.Ts.Vars.make_statevar pono.Ts.Vars.add_statevar pono.Ts.Vars.name_term
    pono.Unroller.Digits.decimal pono.Ts.Symbols.no_next pono.Ts.Define.assign_next
get_proph_runs = refl

abbrev high : ℕ → Model toy
high t v = true

with_hist-Execution : Execution toy with_hist.ts 3 high
unfolding get_hist pono.Ts.Vars.make_statevar pono.Ts.Vars.add_statevar pono.Ts.Vars.name_term
    pono.Unroller.Digits.decimal pono.Ts.Symbols.no_next pono.Ts.Define.assign_next
with_hist-Execution = record { starts = refl; steps = λ t lt. refl; linked = λ t lt v n m at. refl }

with_proph-Execution : Execution toy with_proph.ts 3 high
unfolding get_proph pono.Ts.Vars.make_statevar pono.Ts.Vars.add_statevar pono.Ts.Vars.name_term
    pono.Unroller.Digits.decimal pono.Ts.Symbols.no_next pono.Ts.Define.assign_next
with_proph-Execution = record {
  starts = refl;
  steps = λ t lt. refl;
  linked = λ t lt v n m at. refl;
}

get_hist-delayed_example : toy.eval (high 3) hist_2 ≡ toy.eval (high 1) i
get_hist-delayed_example =
    get_hist-delayed toy toy_laws i 2 start {v = hist_2} {s' = with_hist}
      (new_history-IsHistory toy toy_laws updated) get_hist_runs 3 high with_hist-Execution 1
      (omega arith)

get_proph-frozen_example :
    (toy.eval (high 3) proph_2 ≡ toy.eval (high 0) proph_2)
    × (toy.eval (high 3) hist_2
        ≡ (if leb 2 3 then toy.eval (high (3 - 2)) i else toy.eval (high 3) hist_2))
get_proph-frozen_example =
    get_proph-frozen toy toy_laws i 2 start {p = proph_2} {h = hist_2} {s' = with_proph}
      (new_history-IsHistory toy toy_laws updated) get_proph_runs 3 high with_proph-Execution 3
      (omega arith)
