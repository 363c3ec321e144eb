-- ===== src/Smt/Laws.antt =====
-- What pono relies on of smt-switch's terms. The laws of the connectives speak of Boolean terms, as
-- `is_true` reads them.
use pono.Base.{
  suc, ◌≡◌, ◌↔◌, Bool, true, not, ◌&&◌, ◌||◌, Map, some, none, Eq, mem, lookup, sum_map, any, all,
  ◌==◌,
}
use pono.Smt.{Smt, Name}

module _ {Term : Type 0} ⦃e : Eq Term⦄ (smt : Smt Term) where
  open smt use {
    Sort, Value, get_sort, is_symbol, is_symbolic_const, children, size, make_bool, make_not,
    make_and, make_or, make_equal, make_symbol, substitute, free_symbols, eval, is_true,
  }

  -- the assignments to the symbols
  abbrev pub Model : Type 0
  Model = Term → Value

  abbrev pub holds : Model → Term → Bool
  holds σ t = is_true (eval σ t)

  -- the assignment in which a substitution's keys have the values of their images
  abbrev pub under : Map Term Term → Model → Model
  under m σ v = elim (lookup v m) [ some t ↦ eval σ t | none ↦ σ v ]

  pub record SmtLaws : Type 0 where
    pub size-children : (t : Term) → size t ≡ suc (sum_map size (children t))
    pub holds-bool : (σ : Model) (b : Bool) → holds σ (make_bool b) ≡ b
    pub holds-not : (σ : Model) (t : Term) → holds σ (make_not t) ≡ not (holds σ t)
    pub holds-and : (σ : Model) (a b : Term) → holds σ (make_and a b) ≡ (holds σ a && holds σ b)
    pub holds-or : (σ : Model) (a b : Term) → holds σ (make_or a b) ≡ (holds σ a || holds σ b)
    pub holds-equal :
        (σ : Model) (a b : Term) → (holds σ (make_equal a b) ≡ true) ↔ (eval σ a ≡ eval σ b)
    pub is_symbol-constant : (t : Term) → is_symbolic_const t ≡ true → is_symbol t ≡ true
    pub eval-symbol : (σ : Model) (v : Term) → is_symbolic_const v ≡ true → eval σ v ≡ σ v
    -- for a map from symbols
    pub eval-substitute :
        (σ : Model) (t : Term) (m : Map Term Term)
        → all (λ kv. is_symbolic_const kv.0) m ≡ true
        → eval σ (substitute t m) ≡ eval (under m σ) t
    pub free_symbols-children :
        (v t : Term)
        → mem v (free_symbols t)
          ≡ (is_symbolic_const t && t == v || any (λ c. mem v (free_symbols c)) (children t))
    -- the value depends on the free symbols only
    pub eval-Agree :
        (σ τ : Model) (t : Term)
        → ((v : Term) → mem v (free_symbols t) ≡ true → σ v ≡ τ v)
        → eval σ t ≡ eval τ t
    pub make_symbol-symbolic : (n : Name) (s : Sort) → is_symbolic_const (make_symbol n s) ≡ true
