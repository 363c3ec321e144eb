-- ===== src/Examples/Monitors.antt =====
-- A monitor of the state of the system with the update `x := i`, where the solver has a symbol of the first name.
use pono.Base.{ℕ, ◌≡◌, ◌&&◌, refl, arith, Bool, true, [], ◌∷◌, ok, ◌==◌, list_eq, nat_eq}
use pono.Smt.{Name, SortKind}
use pono.Smt.Laws.{Model, holds}
use pono.Ts.{TransitionSystem}
use pono.Ts.Executions.{Execution}
use pono.Modifiers.PropMonitor.{add_prop_monitor}
use pono.Modifiers.PropMonitor.Watching.{add_prop_monitor-delays}
use pono.Modifiers.ModTsProp.{prop_in_trans}
use pono.Modifiers.ModTsProp.Assumed.{prop_in_trans_lem}
use pono.Examples.Toy.{Toy, sym, toy, toy_laws, toy_eq}
use pono.Examples.Systems.{x, updated}

-- "_monitor_0"
abbrev is_used : Name → Bool
is_used n = n == (95 ∷ 109 ∷ 111 ∷ 110 ∷ 105 ∷ 116 ∷ 111 ∷ 114 ∷ 95 ∷ 48 ∷ [])

-- "_monitor_1"
abbrev monitor : Toy
monitor = sym (95 ∷ 109 ∷ 111 ∷ 110 ∷ 105 ∷ 116 ∷ 111 ∷ 114 ∷ 95 ∷ 49 ∷ []) SortKind.bool

abbrev watched : TransitionSystem Toy
watched = (add_prop_monitor toy is_used (λ ts. true) 3 x updated).1

add_prop_monitor_runs :
    add_prop_monitor toy is_used (λ ts. true) 3 x updated ≡ (ok monitor, watched)
unfolding add_prop_monitor pono.Ts.Vars.make_statevar pono.Ts.Vars.add_statevar
    pono.Ts.Vars.name_term pono.Unroller.Digits.decimal pono.Ts.Symbols.no_next
    pono.Ts.Symbols.only_curr pono.Ts.Define.constrain_init pono.Ts.Define.assign_next
add_prop_monitor_runs = refl

abbrev high : ℕ → Model toy
high t v = true

watched-Execution : Execution toy watched 2 high
unfolding add_prop_monitor pono.Ts.Vars.make_statevar pono.Ts.Vars.add_statevar
    pono.Ts.Vars.name_term pono.Unroller.Digits.decimal pono.Ts.Symbols.no_next
    pono.Ts.Symbols.only_curr pono.Ts.Define.constrain_init pono.Ts.Define.assign_next
watched-Execution = record { starts = refl; steps = λ t lt. refl; linked = λ t lt v n m at. refl }

add_prop_monitor-delays_example :
    (holds toy (high 0) monitor ≡ true) × (toy.eval (high 2) monitor ≡ toy.eval (high 1) x)
add_prop_monitor-delays_example =
    add_prop_monitor-delays toy toy_laws is_used (λ ts. true) 3 x updated {m = monitor}
      {ts' = watched} add_prop_monitor_runs 2 high watched-Execution 1 (omega arith)

abbrev assumed : TransitionSystem Toy
assumed = (prop_in_trans toy x updated).1

prop_in_trans_runs : prop_in_trans toy x updated ≡ (ok tt, assumed)
unfolding prop_in_trans pono.Ts.Define.add_constraint pono.Ts.Symbols.only_curr
prop_in_trans_runs = refl

prop_in_trans_example :
    (holds toy (high 0) assumed.trans ≡ (holds toy (high 0) updated.trans && holds toy (high 0) x))
    × (holds toy (high 0) assumed.init ≡ holds toy (high 0) updated.init)
prop_in_trans_example =
    prop_in_trans_lem toy toy_laws x updated {ts' = assumed} refl prop_in_trans_runs (high 0)
