-- ===== src/Base/Lists.antt =====
-- Lists measured by native numbers, Boolean and type-valued quantifiers over lists.
use Prim.Native.Nat.{ℕ, zero, suc, ◌+◌, min, max}
use mathlib.Core.Path.{◌≡◌, refl}
use mathlib.Core.Bool.{Bool, true, false, ◌&&◌, ◌||◌}
use mathlib.Core.List.{List, [], ◌∷◌, ◌++◌}
use native.Mathlib.Omega.{arith}

module _ {ℓ} {A : Type ℓ} where
  abbrev pub length : List A → ℕ
  length [] = 0
  length (x ∷ xs) = suc (length xs)

  abbrev pub sum_map : (A → ℕ) → List A → ℕ
  sum_map f [] = 0
  sum_map f (x ∷ xs) = f x + sum_map f xs

  abbrev pub any : (A → Bool) → List A → Bool
  any p [] = false
  any p (x ∷ xs) = p x || any p xs

  abbrev pub all : (A → Bool) → List A → Bool
  all p [] = true
  all p (x ∷ xs) = p x && all p xs

  abbrev pub All {κ} : (A → Type κ) → List A → Type κ
  All P [] = Unit
  All P (x ∷ xs) = P x × All P xs

  pub sum_map-append :
      (f : A → ℕ) (xs ys : List A) → sum_map f (xs ++ ys) ≡ sum_map f xs + sum_map f ys
  sum_map-append f [] ys = omega arith
  sum_map-append f (x ∷ xs) ys = omega (arith, sum_map-append f xs ys)

  pub all-append : (p : A → Bool) (xs ys : List A) → all p (xs ++ ys) ≡ (all p xs && all p ys)
  all-append p [] ys = refl
  all-append p (x ∷ xs) ys = ground (arith, all-append p xs ys)

  pub any-append : (p : A → Bool) (xs ys : List A) → any p (xs ++ ys) ≡ (any p xs || any p ys)
  any-append p [] ys = refl
  any-append p (x ∷ xs) ys = ground (arith, any-append p xs ys)

  pub All-append {κ} : (P : A → Type κ) (xs ys : List A) → All P xs → All P ys → All P (xs ++ ys)
  All-append P [] ys h k = k
  All-append P (x ∷ xs) ys h k = (h.0, All-append P xs ys h.1 k)

  abbrev pub get_or : List A → ℕ → A → A
  get_or [] i d = d
  get_or (x ∷ xs) zero d = x
  get_or (x ∷ xs) (suc i) d = get_or xs i d

  abbrev pub set : List A → ℕ → A → List A
  set [] i v = []
  set (x ∷ xs) zero v = v ∷ xs
  set (x ∷ xs) (suc i) v = x ∷ set xs i v

-- `while (v.size() < n) v.push_back({})`, for a vector of lists
abbrev pub pad {ℓ} : {A : Type ℓ} → ℕ → List (List A) → List (List A)
pad zero xs = xs
pad (suc n) [] = [] ∷ pad n []
pad (suc n) (x ∷ xs) = x ∷ pad n xs

-- the greatest and the least of a number and a list
abbrev pub max_of : ℕ → List ℕ → ℕ
max_of k [] = k
max_of k (x ∷ xs) = max k (max_of x xs)

abbrev pub min_of : ℕ → List ℕ → ℕ
min_of k [] = k
min_of k (x ∷ xs) = min k (min_of x xs)
