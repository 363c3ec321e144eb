-- ===== src/Base/Containers.antt =====
-- The source's unordered sets and maps: lists in iteration order, without repetition, and
-- association lists with one entry for a key.
use mathlib.Core.Path.{◌≡◌, refl}
use mathlib.Core.Bool.{Bool, false, ◌||◌}
use mathlib.Core.Option.{Option, none, some}
use mathlib.Core.List.{List, [], ◌∷◌, ◌++◌}
use native.Mathlib.Omega.{arith}
use pono.Base.Tests.{Eq, ◌==◌, ==_iff, if◌then◌else◌}

module _ {K : Type 0} ⦃e : Eq K⦄ where
  -- `find(x) != end()`
  abbrev pub mem : K → List K → Bool
  mem x [] = false
  mem x (y ∷ ys) = y == x || mem x ys

  abbrev pub insert : K → List K → List K
  insert x xs = if mem x xs then xs else xs ++ x ∷ []

  abbrev pub erase : K → List K → List K
  erase x [] = []
  erase x (y ∷ ys) = if y == x then erase x ys else y ∷ erase x ys

  pub mem-append : (x : K) (xs ys : List K) → mem x (xs ++ ys) ≡ (mem x xs || mem x ys)
  mem-append x [] ys = refl
  mem-append x (z ∷ xs) ys = ground (arith, mem-append x xs ys)

  pub mem-insert : (x y : K) (xs : List K) → mem x (insert y xs) ≡ (y == x || mem x xs)
  mem-insert x y xs = ground (arith, mem-append x xs (y ∷ []), ==_iff y x)

  pub mem-erase :
      (x y : K) (xs : List K) → mem x (erase y xs) ≡ (if y == x then false else mem x xs)
  mem-erase x y [] = ground arith
  mem-erase x y (z ∷ xs) = ground (arith, mem-erase x y xs, ==_iff z y, ==_iff z x, ==_iff y x)

abbrev pub Map : Type 0 → Type 0 → Type 0
Map K V = List (K × V)

module _ {K V : Type 0} ⦃e : Eq K⦄ where
  abbrev pub lookup : K → Map K V → Option V
  lookup k [] = none
  lookup k ((j, v) ∷ m) = if j == k then some v else lookup k m

  -- `m[k] = v`
  abbrev pub put : K → V → Map K V → Map K V
  put k v [] = (k, v) ∷ []
  put k v ((j, w) ∷ m) = if j == k then (k, v) ∷ m else (j, w) ∷ put k v m

  abbrev pub delete : K → Map K V → Map K V
  delete k [] = []
  delete k ((j, w) ∷ m) = if j == k then delete k m else (j, w) ∷ delete k m

  -- `m.find(k) != m.end()`
  abbrev pub has_key : K → Map K V → Bool
  has_key k [] = false
  has_key k ((j, w) ∷ m) = j == k || has_key k m

  pub lookup-put :
      (k j : K) (v : V) (m : Map K V)
      → lookup j (put k v m) ≡ (if k == j then some v else lookup j m)
  lookup-put k j v [] = refl
  lookup-put k j v ((i, w) ∷ m) =
      ground (arith, ==_iff k j, ==_iff i k, ==_iff i j, lookup-put k j v m)

  pub has_key-put :
      (k j : K) (v : V) (m : Map K V) → has_key j (put k v m) ≡ (k == j || has_key j m)
  has_key-put k j v [] = refl
  has_key-put k j v ((i, w) ∷ m) =
      ground (arith, ==_iff k j, ==_iff i k, ==_iff i j, has_key-put k j v m)

  pub lookup-delete :
      (k j : K) (m : Map K V) → lookup j (delete k m) ≡ (if k == j then none else lookup j m)
  lookup-delete k j [] = ground arith
  lookup-delete k j ((i, w) ∷ m) =
      ground (arith, ==_iff k j, ==_iff i k, ==_iff i j, lookup-delete k j m)
