-- ===== src/Examples/Unrolling.antt =====
-- The unroller on the system with a state `x` and an input `i`.
use pono.Base.{
  ℕ, ◌≡◌, refl, arith, inr, true, ==_iff, [], ◌∷◌, subst, nat_beq, ok, mem, Bool-cases, inl, ◌==◌,
}
use pono.Smt.{Name, SortKind}
use pono.Smt.Laws.{Model}
use pono.Ts.Vars.WellFormed.{is_var}
use pono.Unroller.{Unroller, new_unroller, timed, at_time, untime, get_var_time, get_curr_time}
use pono.Unroller.Copies.{IsApart}
use pono.Unroller.Untimed.{timed-IsApart, new_unroller-IsReversible, untime-at_time}
use pono.Unroller.Digits.{decimal}
use pono.Unroller.Timed.{unrolled, Speaks, IsKnown}
use pono.Unroller.Trace.{joint, state_at, assign}
use pono.Unroller.Meaning.{eval-at_time_states, eval-at_time_assign}
use pono.Unroller.Caches.{IsTimed, at_time-unrolled, new_unroller-IsTimed}
use pono.Examples.Toy.{Toy, sym, conj, toy, toy_laws, toy_eq}
use pono.Examples.Systems.{x, x_next, i, declared, declared-IsWellFormed}

-- "@", the default identifier
abbrev at : Name
at = 64 ∷ []

Speaks-next : Speaks toy declared at x_next
Speaks-next y free =
    let eq : x_next ≡ y = (==_iff x_next y).0 (ground arith) in
    subst (IsKnown toy declared at) eq (inr (x, refl, refl))

abbrev fresh : Unroller Toy
fresh = new_unroller toy declared at

eval-at_time_states_example :
    toy.eval (λ _. true) (at_time toy declared x_next 3 fresh).0
    ≡ toy.eval
        (joint toy declared
          (state_at toy declared at (λ _. true) 3)
          (state_at toy declared at (λ _. true) 4))
        x_next
eval-at_time_states_example =
    eval-at_time_states toy toy_laws declared declared-IsWellFormed fresh
      (new_unroller-IsTimed toy declared at) 3 (λ _. true) x_next Speaks-next

-- a sequence of states in which everything is true at the time 4 only
abbrev pulse : ℕ → Model toy
pulse k _ = nat_beq k 4

eval-at_time_assign_example :
    toy.eval (assign toy declared at pulse) (at_time toy declared x_next 3 fresh).0
    ≡ toy.eval (joint toy declared (pulse 3) (pulse 4)) x_next
eval-at_time_assign_example =
    eval-at_time_assign toy toy_laws declared declared-IsWellFormed fresh
      (new_unroller-IsTimed toy declared at) [] 64 refl refl (λ v k var. refl) pulse 3 x_next
      Speaks-next

at_time-unrolled_example :
    ((at_time toy declared x_next 3 fresh).0 ≡ unrolled toy declared at x_next 3)
    × IsTimed toy declared (at_time toy declared x_next 3 fresh).1
    × ((at_time toy declared x_next 3 fresh).1.time_id ≡ at)
at_time-unrolled_example =
    at_time-unrolled toy declared x_next 3 fresh (new_unroller-IsTimed toy declared at)

-- the next-state variable at time 3 is the copy `x@4`
at_time_runs : (at_time toy declared x_next 3 fresh).0 ≡ sym (120 ∷ 64 ∷ 52 ∷ []) SortKind.bool
unfolding at_time decimal pono.Ts.Symbols.next
at_time_runs = refl

-- the time of `x@4`, and of a term over `x@4` and `x@3`
times_run :
    (get_var_time toy
        (sym (120 ∷ 64 ∷ 52 ∷ []) SortKind.bool)
        (at_time toy declared x_next 3 fresh).1
      ≡ ok 4)
    × (get_curr_time toy
          (conj (sym (120 ∷ 64 ∷ 52 ∷ []) SortKind.bool) (sym (120 ∷ 64 ∷ 51 ∷ []) SortKind.bool))
          (at_time toy declared x_next 3 fresh).1
        ≡ ok 3)
unfolding get_var_time get_curr_time at_time decimal pono.Ts.Symbols.next
times_run = (refl, refl)

copies-apart : IsApart toy toy_laws declared at
copies-apart =
    timed-IsApart toy toy_laws declared at declared-IsWellFormed [] 64 refl refl (λ v k var. refl)

known_vars : (v : Toy) → mem v (toy.free_symbols (conj x i)) ≡ true → is_var toy declared v ≡ true
known_vars v m = elim (Bool-cases (x == v)) [ inl y ↦ ground arith | inr n ↦ ground arith ]

untime-at_time_example :
    (toy.eval
        (λ _. true)
        (untime toy
          (at_time toy declared (conj x i) 3 fresh).0
          (at_time toy declared (conj x i) 3 fresh).1)
      ≡ toy.eval (λ _. true) (conj x i))
    × (get_var_time toy (timed toy at x 3) (at_time toy declared (conj x i) 3 fresh).1 ≡ ok 3)
untime-at_time_example =
    untime-at_time toy toy_laws declared at copies-apart declared-IsWellFormed fresh
      (new_unroller-IsReversible toy toy_laws declared at copies-apart) (conj x i) known_vars x refl
      3 (λ _. true)
