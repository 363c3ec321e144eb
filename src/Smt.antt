-- ===== src/Smt.antt =====
-- The terms of smt-switch, a submodule of the repository (include/smt-switch/smt.h there): what pono
-- uses of them is a parameter of the model, and what it relies on are the laws.
pub mod Laws
pub mod Solver
use pono.Base.{ℕ, Bool, List, Map}

-- a symbol's name, as its character codes
abbrev pub Name : Type 0
Name = List ℕ

pub data SortKind : Type 0 where
  array bv bool other : SortKind

pub record Smt (Term : Type 0) : Type 1 where
  pub Sort : Type 0
  pub Value : Type 0
  -- `make_sort(BOOL)`
  pub bool_sort : Sort
  pub get_sort_kind : Sort → SortKind
  pub get_indexsort : Sort → Sort
  pub get_sort : Term → Sort
  pub to_string : Term → Name
  -- a symbol of any kind, and one that is no function and no parameter
  pub is_symbol : Term → Bool
  pub is_symbolic_const : Term → Bool
  -- iteration over a term
  pub children : Term → List Term
  -- the nodes of a term, counted as a tree: it bounds the walks over a term
  pub size : Term → ℕ
  pub make_bool : Bool → Term
  pub make_not : Term → Term
  pub make_and : Term → Term → Term
  pub make_or : Term → Term → Term
  pub make_equal : Term → Term → Term
  -- the solver throws if it has a symbol of that name; the model covers fresh names
  pub make_symbol : Name → Sort → Term
  pub substitute : Term → Map Term Term → Term
  -- `SubstitutionWalker(solver, map).visit`, whose keys may be any terms
  pub replace_all : Map Term Term → Term → Term
  -- `get_free_symbolic_consts`
  pub free_symbols : Term → List Term
  -- the value of a term under an assignment to the symbols, and the truth of a Boolean value
  pub eval : (Term → Value) → Term → Value
  pub is_true : Value → Bool
