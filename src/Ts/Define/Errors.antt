-- ===== src/Ts/Define/Errors.antt =====
-- When `assign_next` of core/ts.cpp throws, and what it leaves.
use pono.Base.{
  ◌≡◌, ◌↔◌, inl, inr, arith, Bool, true, not, ◌&&◌, ◌||◌, Eq, mem, has_key, put, Bool-cases, ok,
  err, Error, if◌then◌else◌,
}
use pono.Smt.{Smt}
use pono.Ts.{TransitionSystem}
use pono.Ts.Symbols.{no_next}
use pono.Ts.Define.{assign_next}
use pono.Ts.Vars.WellFormed.{IsWellFormed}

module _ {Term : Type 0} ⦃e : Eq Term⦄ (smt : Smt Term) where
  -- the checks of `assign_next` that throw an exception
  abbrev pub is_assignable : Term → Term → TransitionSystem Term → Bool
  is_assignable state val ts =
      mem state ts.statevars && no_next smt ts val && not (has_key state ts.state_updates)

  -- On a system with well-formed variables, `assign_next` returns exactly if the state is a state variable
  -- without update, the value is over states and inputs, and the system is relational or has the state among
  -- those without updates, as the assertion asks. If one of the first three conditions fails, it leaves the
  -- system as it was; if only the last fails, the update is recorded and the assertion ends the program.
  pub assign_next-throws :
      (state val : Term) (ts : TransitionSystem Term)
      → IsWellFormed smt ts
      → (((assign_next smt state val ts).0 ≡ ok tt) ↔ (
          (is_assignable state val ts && (not ts.functional || mem state ts.no_state_updates))
          ≡ true))
        × ((assign_next smt state val ts).1.state_updates ≡ (
            if is_assignable state val ts
            then put state val ts.state_updates
            else ts.state_updates))
        × ((assign_next smt state val ts).1
            ≡ (if is_assignable state val ts then (assign_next smt state val ts).1 else ts))
        × ((assign_next smt state val ts).0 ≡ (
            if is_assignable state val ts && ts.functional && not (mem state ts.no_state_updates)
            then err Error.assertion_failed
            else (assign_next smt state val ts).0))
  unfolding assign_next
  assign_next-throws state val ts wf = elim (Bool-cases (mem state ts.statevars)) [
    | inr alien ↦ ((λ h. ground arith, λ h. ground arith), ground arith, ground arith, ground arith)
    | inl known ↦
        let (n, at, _, _) = wf.next_of state known in
        ((λ h. ground arith, λ h. ground arith), ground arith, ground arith, ground arith)
  ]
