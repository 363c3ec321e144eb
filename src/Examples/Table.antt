-- ===== src/Examples/Table.antt =====
-- A solver for the small term language that tries every assignment to the symbols of the assertions.
use pono.Base.{
  ◌≡◌, refl, sym, ap, ◌∙◌, arith, Bool, true, false, List, [], ◌∷◌, Option, some, none, ◌==◌,
  ==_iff, mem, if◌then◌else◌, Bool-cases, Option-cases, inl, inr, All,
}
use pono.Smt.Laws.{holds}
use pono.Smt.Solver.{
  Solver, SolverLaws, Satisfies, Decides, Answer, sat, unsat, unknown, add_top, drop_top,
}
use pono.Examples.Toy.{Toy, lit, conj, toy, toy_laws, toy_eq}

pub record Table : Type 0 where
  pub stack : List (List Toy)
  pub model : Toy → Bool

abbrev both : List Toy → Toy
both [] = lit true
both (t ∷ ts) = conj t (both ts)

abbrev all_of : List (List Toy) → Toy
all_of [] = lit true
all_of (f ∷ fs) = conj (both f) (all_of fs)

abbrev update : Toy → Bool → (Toy → Bool) → Toy → Bool
update v b σ u = if v == u then b else σ u

-- the first assignment to the symbols that makes the term true
abbrev find : List Toy → (Toy → Bool) → Toy → Option (Toy → Bool)
find [] σ t = if toy.eval σ t then some σ else none
find (v ∷ vs) σ t = elim (find vs (update v true σ) t) [
  | some τ ↦ some τ
  | none ↦ find vs (update v false σ) t
]

abbrev answer : Option (Toy → Bool) → Table → Answer × Table
answer (some τ) s = (sat, record s { model = τ })
answer none s = (unsat, s)

abbrev dedupe : List Toy → List Toy
dedupe [] = []
dedupe (v ∷ vs) = let rest = dedupe vs in if mem v rest then rest else v ∷ rest

mem-dedupe : (u : Toy) (vs : List Toy) → mem u (dedupe vs) ≡ mem u vs
mem-dedupe u [] = refl
mem-dedupe u (v ∷ vs) = ground (arith, mem-dedupe u vs, mem-dedupe v vs, ==_iff v u)

abbrev symbols_of : Toy → List Toy
symbols_of t = dedupe (toy.free_symbols t)

abbrev check : List Toy → Table → Answer × Table
check given s =
    answer (find (symbols_of (all_of (given ∷ s.stack))) (λ _. false) (all_of (given ∷ s.stack))) s

abbrev pub table : Solver Toy
table = record {
  State = Table;
  assert_formula = λ t s. record s { stack = add_top t s.stack };
  push = λ s. record s { stack = [] ∷ s.stack };
  pop = λ s. record s { stack = drop_top s.stack };
  reset_assertions = λ s. record s { stack = [] ∷ [] };
  check_sat_assuming = check;
  get_value = λ t s. toy.eval s.model t;
  frames = λ s. s.stack;
}

abbrev pub empty_table : Table
empty_table = record { stack = [] ∷ []; model = λ _. false }

find-some :
    (vs : List Toy) (σ τ : Toy → Bool) (t : Toy) → find vs σ t ≡ some τ → toy.eval τ t ≡ true
find-some [] σ τ t h = elim (Bool-cases (toy.eval σ t)) [
  | inl y ↦ let eq : σ ≡ τ = ground arith in rw (← eq) y
  | inr n ↦ absurd (ground arith)
]
find-some (v ∷ vs) σ τ t h = elim (Option-cases (find vs (update v true σ) t)) [
  | inl gone ↦ find-some vs (update v false σ) τ t (ground arith)
  | inr (τ', there) ↦ find-some vs (update v true σ) τ t (ground arith)
]

find-none :
    (vs : List Toy) (σ τ : Toy → Bool) (t : Toy)
    → find vs σ t ≡ none
    → ((u : Toy) → mem u (toy.free_symbols t) ≡ true → mem u vs ≡ false → τ u ≡ σ u)
    → toy.eval τ t ≡ false
find-none [] σ τ t h agree =
    toy_laws.eval-Agree τ σ t (λ u m. agree u m refl)
    ∙ (elim (Bool-cases (toy.eval σ t)) [ inl y ↦ absurd (ground arith) | inr n ↦ n ])
find-none (v ∷ vs) σ τ t h agree = elim (Option-cases (find vs (update v true σ) t)) [
  | inr (τ', there) ↦ absurd (ground arith)
  | inl gone ↦ elim (Bool-cases (τ v)) [
    | inl y ↦ find-none vs (update v true σ) τ t gone (λ u m out. elim (Bool-cases (v == u)) [
      | inl same ↦ let eq : v ≡ u = (==_iff v u).0 same in rw same (sym (ap τ eq) ∙ y)
      | inr other ↦ rw other (agree u m (ground arith))
    ])
    | inr n ↦ find-none vs (update v false σ) τ t (ground arith) (λ u m out.
        elim (Bool-cases (v == u)) [
          | inl same ↦ let eq : v ≡ u = (==_iff v u).0 same in rw same (sym (ap τ eq) ∙ n)
          | inr other ↦ rw other (agree u m (ground arith))
        ])
  ]
]

both-All :
    (σ : Toy → Bool) (f : List Toy) → toy.eval σ (both f) ≡ true → All (λ t. holds toy σ t ≡ true) f
both-All σ [] h = tt
both-All σ (t ∷ ts) h = (ground arith, both-All σ ts (ground arith))

All-both :
    (σ : Toy → Bool) (f : List Toy) → All (λ t. holds toy σ t ≡ true) f → toy.eval σ (both f) ≡ true
All-both σ [] h = refl
All-both σ (t ∷ ts) h = ground (arith, h.0, All-both σ ts h.1)

all_of-Satisfies :
    (σ : Toy → Bool) (fs : List (List Toy))
    → toy.eval σ (all_of fs) ≡ true
    → Satisfies toy table σ fs
all_of-Satisfies σ [] h = tt
all_of-Satisfies σ (f ∷ fs) h = (both-All σ f (ground arith), all_of-Satisfies σ fs (ground arith))

Satisfies-all_of :
    (σ : Toy → Bool) (fs : List (List Toy))
    → Satisfies toy table σ fs
    → toy.eval σ (all_of fs) ≡ true
Satisfies-all_of σ [] h = refl
Satisfies-all_of σ (f ∷ fs) h = ground (arith, All-both σ f h.0, Satisfies-all_of σ fs h.1)

answer-sat :
    (o : Option (Toy → Bool)) (s : Table)
    → (answer o s).0 ≡ sat
    → (τ : Toy → Bool) × (o ≡ some τ) × ((answer o s).1.model ≡ τ)
answer-sat none s h = absurd (cc)
answer-sat (some τ) s h = (τ, refl, refl)

answer-unsat : (o : Option (Toy → Bool)) (s : Table) → (answer o s).0 ≡ unsat → o ≡ none
answer-unsat none s h = refl
answer-unsat (some τ) s h = absurd (cc)

answer-stack : (o : Option (Toy → Bool)) (s : Table) → (answer o s).1.stack ≡ s.stack
answer-stack none s = refl
answer-stack (some τ) s = refl

answer-known : (o : Option (Toy → Bool)) (s : Table) → (answer o s).0 ≡ unknown → ⊥
answer-known none s h = cc
answer-known (some τ) s h = cc

pub table_decides : Decides toy table
table_decides given s h = answer-known _ s h

pub table_laws : SolverLaws toy table
table_laws = record {
  frames-assert = λ t s. refl;
  frames-push = λ s. refl;
  frames-pop = λ s. refl;
  frames-reset = λ s. refl;
  frames-check = λ given s. answer-stack _ s;
  unsat_sound = λ given s h σ fits.
      let t = all_of (given ∷ s.stack) in
      let no =
        find-none (symbols_of t) (λ _. false) σ t (answer-unsat _ s h)
          (λ u m out. absurd (cc (mem-dedupe u (toy.free_symbols t)))) in
      let yes = Satisfies-all_of σ (given ∷ s.stack) fits in absurd (cc (no, yes));
  sat_model = λ given s h.
      let t = all_of (given ∷ s.stack) in
      let (τ, found, model) = answer-sat (find (symbols_of t) (λ _. false) t) s h in
      (
        τ,
        all_of-Satisfies τ (given ∷ s.stack) (find-some (symbols_of t) (λ _. false) τ t found),
        λ u. ap (λ σ. toy.eval σ u) model,
      );
}
