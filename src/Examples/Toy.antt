-- ===== src/Examples/Toy.antt =====
-- A small term language that meets the laws of `SmtLaws`: Boolean connectives and equality over
-- symbols, with Boolean values.
use pono.Base.{
  ℕ, suc, ◌+◌, ◌≡◌, ◌↔◌, refl, arith, Bool, true, false, not, ◌&&◌, ◌||◌, List, [], ◌∷◌, ◌++◌, some,
  none, Eq, ◌==◌, ==_iff, nat_eq, list_eq, mem, mem-append, lookup, Map, sum_map, any, Option-cases,
  inl, inr,
}
use pono.Smt.{Smt, Name, SortKind, array, bv, bool, other}
use pono.Smt.Laws.{SmtLaws, under}

abbrev pub sort_beq : SortKind → SortKind → Bool
sort_beq array array = true
sort_beq bv bv = true
sort_beq bool bool = true
sort_beq other other = true
sort_beq _ _ = false

sort_beq_iff : (a b : SortKind) → (sort_beq a b ≡ true) ↔ (a ≡ b)
sort_beq_iff a b = ground arith

pub data Toy : Type 0 where
  sym : Name → SortKind → Toy
  lit : Bool → Toy
  neg : Toy → Toy
  conj disj same : Toy → Toy → Toy

abbrev pub bool_beq : Bool → Bool → Bool
bool_beq true b = b
bool_beq false b = not b

pub bool_beq_iff : (a b : Bool) → (bool_beq a b ≡ true) ↔ (a ≡ b)
bool_beq_iff a b = ground arith

abbrev pub toy_beq : Toy → Toy → Bool
toy_beq (sym n s) (sym m r) = n == m && sort_beq s r
toy_beq (lit a) (lit b) = bool_beq a b
toy_beq (neg a) (neg b) = toy_beq a b
toy_beq (conj a c) (conj b d) = toy_beq a b && toy_beq c d
toy_beq (disj a c) (disj b d) = toy_beq a b && toy_beq c d
toy_beq (same a c) (same b d) = toy_beq a b && toy_beq c d
toy_beq _ _ = false

pub toy_beq_iff : (a b : Toy) → (toy_beq a b ≡ true) ↔ (a ≡ b)
toy_beq_iff (sym n s) (sym m r) = ground (arith, ==_iff n m, sort_beq_iff s r)
toy_beq_iff (lit a) (lit b) = ground arith
toy_beq_iff (neg a) (neg b) = ground (arith, toy_beq_iff a b)
toy_beq_iff (conj a c) (conj b d) = ground (arith, toy_beq_iff a b, toy_beq_iff c d)
toy_beq_iff (disj a c) (disj b d) = ground (arith, toy_beq_iff a b, toy_beq_iff c d)
toy_beq_iff (same a c) (same b d) = ground (arith, toy_beq_iff a b, toy_beq_iff c d)
toy_beq_iff _ _ = ground arith

instance abbrev pub toy_eq : Eq Toy
toy_eq = record { beq = toy_beq; beq_iff = toy_beq_iff }

abbrev eval : (Toy → Bool) → Toy → Bool
eval σ (sym n s) = σ (sym n s)
eval σ (lit b) = b
eval σ (neg t) = not (eval σ t)
eval σ (conj a b) = eval σ a && eval σ b
eval σ (disj a b) = eval σ a || eval σ b
eval σ (same a b) = bool_beq (eval σ a) (eval σ b)

abbrev is_symbol : Toy → Bool
is_symbol (sym n s) = true
is_symbol _ = false

abbrev children : Toy → List Toy
children (neg t) = t ∷ []
children (conj a b) = a ∷ b ∷ []
children (disj a b) = a ∷ b ∷ []
children (same a b) = a ∷ b ∷ []
children _ = []

abbrev size : Toy → ℕ
size (neg t) = suc (size t)
size (conj a b) = suc (size a + size b)
size (disj a b) = suc (size a + size b)
size (same a b) = suc (size a + size b)
size _ = 1

abbrev symbols : Toy → List Toy
symbols (sym n s) = sym n s ∷ []
symbols (lit b) = []
symbols (neg t) = symbols t
symbols (conj a b) = symbols a ++ symbols b
symbols (disj a b) = symbols a ++ symbols b
symbols (same a b) = symbols a ++ symbols b

abbrev image : Map Toy Toy → Toy → Toy
image m t = elim (lookup t m) [ some u ↦ u | none ↦ t ]

abbrev substitute : Toy → Map Toy Toy → Toy
substitute (sym n s) m = image m (sym n s)
substitute (lit b) m = lit b
substitute (neg t) m = neg (substitute t m)
substitute (conj a b) m = conj (substitute a m) (substitute b m)
substitute (disj a b) m = disj (substitute a m) (substitute b m)
substitute (same a b) m = same (substitute a m) (substitute b m)

-- a replacement of whole terms, from the leaves up
abbrev replace_all : Map Toy Toy → Toy → Toy
replace_all m (neg t) = image m (neg (replace_all m t))
replace_all m (conj a b) = image m (conj (replace_all m a) (replace_all m b))
replace_all m (disj a b) = image m (disj (replace_all m a) (replace_all m b))
replace_all m (same a b) = image m (same (replace_all m a) (replace_all m b))
replace_all m t = image m t

abbrev to_string : Toy → Name
to_string (sym n s) = n
to_string _ = []

abbrev get_sort : Toy → SortKind
get_sort (sym n s) = s
get_sort _ = bool

abbrev pub toy : Smt Toy
toy = record {
  Sort = SortKind;
  Value = Bool;
  bool_sort = bool;
  get_sort_kind = λ s. s;
  get_indexsort = λ s. bv;
  get_sort = get_sort;
  to_string = to_string;
  is_symbol = is_symbol;
  is_symbolic_const = is_symbol;
  children = children;
  size = size;
  make_bool = lit;
  make_not = neg;
  make_and = conj;
  make_or = disj;
  make_equal = same;
  make_symbol = sym;
  substitute = substitute;
  replace_all = replace_all;
  free_symbols = symbols;
  eval = eval;
  is_true = λ b. b;
}

size-children : (t : Toy) → size t ≡ suc (sum_map size (children t))
size-children (sym n s) = refl
size-children _ = omega arith

symbols-children :
    (v t : Toy)
    → mem v (symbols t) ≡ (is_symbol t && t == v || any (λ c. mem v (symbols c)) (children t))
symbols-children v (sym n s) = ground arith
symbols-children v (lit b) = refl
symbols-children v (neg t) = ground arith
symbols-children v (conj a b) = ground (arith, mem-append v (symbols a) (symbols b))
symbols-children v (disj a b) = ground (arith, mem-append v (symbols a) (symbols b))
symbols-children v (same a b) = ground (arith, mem-append v (symbols a) (symbols b))

eval-symbol : (σ : Toy → Bool) (v : Toy) → is_symbol v ≡ true → eval σ v ≡ σ v
eval-symbol σ (sym n s) h = refl
eval-symbol σ _ h = absurd (cc)

eval-substitute :
    (σ : Toy → Bool) (t : Toy) (m : Map Toy Toy) → eval σ (substitute t m) ≡ eval (under toy m σ) t
eval-substitute σ (sym n s) m = elim (Option-cases (lookup (sym n s) m)) [
  | inl e ↦ ground arith
  | inr (u, e) ↦ ground arith
]
eval-substitute σ (lit b) m = refl
eval-substitute σ (neg t) m = rw (eval-substitute σ t m)
eval-substitute σ (conj a b) m = rw (eval-substitute σ a m, eval-substitute σ b m)
eval-substitute σ (disj a b) m = rw (eval-substitute σ a m, eval-substitute σ b m)
eval-substitute σ (same a b) m = rw (eval-substitute σ a m, eval-substitute σ b m)

abbrev Agree : (Toy → Bool) → (Toy → Bool) → List Toy → Type 0
Agree σ τ vs = (v : Toy) → mem v vs ≡ true → σ v ≡ τ v

Agree-left : (σ τ : Toy → Bool) (vs ws : List Toy) → Agree σ τ (vs ++ ws) → Agree σ τ vs
Agree-left σ τ vs ws h v m = h v (ground (arith, mem-append v vs ws))

Agree-right : (σ τ : Toy → Bool) (vs ws : List Toy) → Agree σ τ (vs ++ ws) → Agree σ τ ws
Agree-right σ τ vs ws h v m = h v (ground (arith, mem-append v vs ws))

eval-Agree : (σ τ : Toy → Bool) (t : Toy) → Agree σ τ (symbols t) → eval σ t ≡ eval τ t
eval-Agree σ τ (sym n s) h = h (sym n s) (ground (arith, toy_beq_iff (sym n s) (sym n s)))
eval-Agree σ τ (lit b) h = refl
eval-Agree σ τ (neg t) h = rw (eval-Agree σ τ t h)
eval-Agree σ τ (conj a b) h = rw (
  eval-Agree σ τ a (Agree-left σ τ (symbols a) (symbols b) h),
  eval-Agree σ τ b (Agree-right σ τ (symbols a) (symbols b) h),
)
eval-Agree σ τ (disj a b) h = rw (
  eval-Agree σ τ a (Agree-left σ τ (symbols a) (symbols b) h),
  eval-Agree σ τ b (Agree-right σ τ (symbols a) (symbols b) h),
)
eval-Agree σ τ (same a b) h = rw (
  eval-Agree σ τ a (Agree-left σ τ (symbols a) (symbols b) h),
  eval-Agree σ τ b (Agree-right σ τ (symbols a) (symbols b) h),
)

pub toy_laws : SmtLaws toy
toy_laws = record {
  size-children = size-children;
  holds-bool = λ σ b. refl;
  holds-not = λ σ t. refl;
  holds-and = λ σ a b. refl;
  holds-or = λ σ a b. refl;
  holds-equal = λ σ a b. bool_beq_iff (eval σ a) (eval σ b);
  is_symbol-constant = λ t h. h;
  eval-symbol = eval-symbol;
  eval-substitute = λ σ t m _. eval-substitute σ t m;
  free_symbols-children = symbols-children;
  eval-Agree = eval-Agree;
  make_symbol-symbolic = λ n s. refl;
}
