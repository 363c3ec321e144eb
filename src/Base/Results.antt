-- ===== src/Base/Results.antt =====
-- Exceptions: a computation over a state gives a value or an exception, and keeps the writes that
-- it made before it threw.
use mathlib.Core.Path.{◌≡◌, refl}

-- `PonoException` and the other exceptions that the modelled code throws, by their messages. Two are no
-- exceptions of the source: an assertion that fails in a build with assertions, and undefined behaviour.
pub data Error : Type 0 where
  init_not_curr unknown_state_var rhs_not_functional already_assigned : Error
  invar_not_curr input_constraint_next constraint_next : Error
  name_used no_such_name redeclared next_as_curr curr_as_next input_reused : Error
  drop_non_state promote_non_input unknown_symbols replaced_input_in_init : Error
  next_in_update hist_next prop_next copied_relational coi_relational no_time not_unrolled empty_set
        overconstrained unsupported_options unknown_answer int_overflow assertion_failed
        undefined_behaviour bad_not_curr out_of_range out_of_fuel :
      Error

pub data Result {ℓ} (A : Type ℓ) : Type ℓ where
  ok : A → Result A
  err : Error → Result A

pub Error-discrete : Discrete Error
Error-discrete = hlevel

-- the value or the exception, and the state afterwards
abbrev pub M {ℓ} : Type 0 → Type ℓ → Type ℓ
M S A = S → Result A × S

module _ {ℓ κ} {S : Type 0} {A : Type ℓ} {B : Type κ} where
  abbrev pub continue : Result A × S → (A → M S B) → Result B × S
  continue (ok a, s) f = f a s
  continue (err x, s) f = (err x, s)

  infixl 5 ◌>>=◌ ◌>>◌
  abbrev pub ◌>>=◌ : M S A → (A → M S B) → M S B
  ◌>>=◌ m f s = continue (m s) f

  abbrev pub ◌>>◌ : M S A → M S B → M S B
  ◌>>◌ m k s = continue (m s) (λ _. k)

module _ {S : Type 0} where
  abbrev pub return {ℓ} : {A : Type ℓ} → A → M S A
  return a s = (ok a, s)

  abbrev pub throw {ℓ} : {A : Type ℓ} → Error → M S A
  throw x s = (err x, s)

  abbrev pub modify : (S → S) → M S (Unit {0})
  modify f s = (ok tt, f s)

  abbrev pub get : M S S
  get s = (ok s, s)

module _ {S : Type 0} where
  -- a sequence of two that returns went through a state between them
  pub continue-eq-ok :
      {A B : Type 0} (r : Result A × S) (f : A → M S B) {b : B} {s : S}
      → continue r f ≡ (ok b, s)
      → (a : A) × (s' : S) × (r ≡ (ok a, s')) × (f a s' ≡ (ok b, s))
  continue-eq-ok (ok a, s') f h = (a, s', refl, h)
  continue-eq-ok (err x, s') f h = absurd (cc)
