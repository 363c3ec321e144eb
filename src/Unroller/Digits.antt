-- ===== src/Unroller/Digits.antt =====
-- `std::to_string` of an unsigned number: the decimal digits.
use pono.Base.{
  ℕ, zero, suc, ◌+◌, ◌-◌, ◌*◌, ◌/◌, ◌%◌, ◌≤◌, ◌≡◌, arith, Bool, true, false, ◌&&◌, List, [], ◌∷◌,
  ◌++◌, append_assoc, leb, ltb, if◌then◌else◌, all, Bool-cases, inl, inr,
}
use mathlib.Core.List.{reverse, reverse-append, reverse-reverse}

-- the digits of a number, the last first; the number itself is fuel enough
reversed : ℕ → ℕ → List ℕ
reversed zero n = (48 + n % 10) ∷ []
reversed (suc fuel) n =
    let rest = reversed fuel (n / 10) in
    if ltb n 10 then (48 + n % 10) ∷ [] else (48 + n % 10) ∷ rest

unfoldable pub decimal : ℕ → List ℕ
unfolding reversed
decimal n = reverse (reversed n n)

abbrev pub is_digit : ℕ → Bool
is_digit c = leb 48 c && leb c 57

-- the number that digits stand for, the last first, up to the first other character
abbrev pub parsed : List ℕ → ℕ
parsed [] = 0
parsed (c ∷ cs) = if is_digit c then (c - 48) + 10 * parsed cs else 0

reversed-digits : (fuel n : ℕ) → all is_digit (reversed fuel n) ≡ true
unfolding reversed
reversed-digits zero n = ground arith
reversed-digits (suc fuel) n = ground (arith, reversed-digits fuel (n / 10))

-- what follows the digits is not read, if it does not begin with a digit
parsed-reversed :
    (fuel n c : ℕ) (cs : List ℕ)
    → n ≤ fuel
    → is_digit c ≡ false
    → parsed (reversed fuel n ++ c ∷ cs) ≡ n
unfolding reversed
parsed-reversed zero n c cs h stop = ground arith
parsed-reversed (suc fuel) n c cs h stop = elim (Bool-cases (ltb n 10)) [
  | inl small ↦ ground arith
  | inr big ↦ ground (arith, parsed-reversed fuel (n / 10) c cs)
]

-- Digits after a text whose last character is none: the number is read back from the end.
pub parsed-decimal :
    (name time_id : List ℕ) (c : ℕ) (n : ℕ)
    → is_digit c ≡ false
    → parsed (reverse (name ++ ((time_id ++ c ∷ []) ++ decimal n))) ≡ n
unfolding decimal
parsed-decimal name time_id c n stop =
    rw
      (
        reverse-append name ((time_id ++ c ∷ []) ++ reverse (reversed n n)),
        reverse-append (time_id ++ c ∷ []) (reverse (reversed n n)),
        reverse-reverse (reversed n n),
        reverse-append time_id (c ∷ []),
        append_assoc (reversed n n) (c ∷ reverse time_id) (reverse name),
      )
      (parsed-reversed n n c (reverse time_id ++ reverse name) (omega arith) stop)
