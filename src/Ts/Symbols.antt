-- ===== src/Ts/Symbols.antt =====
-- core/ts.cpp: the walk `contains` over a term, the checks that call it, and the renamings.
pub mod Contains
use pono.Base.{
  ℕ, zero, suc, Bool, true, false, not, ◌&&◌, List, [], ◌∷◌, Option, some, none, foldl, Eq, mem,
  insert, lookup, any, if◌then◌else◌, Result, ok, err, Error, list_eq, nat_eq,
}
use pono.Smt.{Smt, Name}
use pono.Ts.{TransitionSystem}

module _ {Term : Type 0} ⦃e : Eq Term⦄ (smt : Smt Term) where
  open smt use {is_symbolic_const, children, size, substitute, to_string}

  -- The `while` loop: the head of `to_visit` is the back of the vector. `none` means that the fuel
  -- ran out.
  pub contains_loop : ℕ → List Term → List Term → List (List Term) → Option Bool
  contains_loop zero to_visit visited sets = none
  contains_loop (suc fuel) [] visited sets = some true
  contains_loop (suc fuel) (t ∷ rest) visited sets =
      let skip = contains_loop fuel rest visited sets in
      let go_on =
        contains_loop fuel (foldl (λ st c. c ∷ st) rest (children t)) (insert t visited) sets in
      if mem t visited
      then skip
      else if is_symbolic_const t && not (any (mem t) sets)
      then some false
      else go_on

  -- `contains`, with fuel for every node of the term as a tree and for the final test
  unfoldable pub contains : Term → List (List Term) → Bool
  unfolding contains_loop
  contains t sets = elim (contains_loop (suc (size t)) (t ∷ []) [] sets) [
    | some b ↦ b
    | none ↦ false
  ]

  module _ (ts : TransitionSystem Term) where
    unfoldable pub only_curr : Term → Bool
    unfolding contains
    only_curr t = contains t (ts.statevars ∷ [])

    unfoldable pub no_next : Term → Bool
    unfolding contains
    no_next t = contains t (ts.statevars ∷ ts.inputvars ∷ [])

    unfoldable pub known_symbols : Term → Bool
    unfolding contains
    known_symbols t = contains t (ts.statevars ∷ ts.inputvars ∷ ts.next_statevars ∷ [])

    unfoldable pub curr : Term → Term
    curr t = substitute t ts.curr_map

    unfoldable pub next : Term → Term
    next t = elim (lookup t ts.next_map) [ some n ↦ n | none ↦ substitute t ts.next_map ]

    unfoldable pub is_curr_var : Term → Bool
    is_curr_var v = mem v ts.statevars

    unfoldable pub is_next_var : Term → Bool
    is_next_var v = mem v ts.next_statevars

    unfoldable pub is_input_var : Term → Bool
    is_input_var v = mem v ts.inputvars

    unfoldable pub get_name : Term → Name
    get_name t = elim (lookup t ts.term_to_name) [ some n ↦ n | none ↦ to_string t ]

    -- `lookup(name)`
    unfoldable pub lookup_term : Name → Result Term
    lookup_term n = elim (lookup n ts.named_terms) [ some t ↦ ok t | none ↦ err Error.no_such_name ]
