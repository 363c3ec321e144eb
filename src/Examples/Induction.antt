-- ===== src/Examples/Induction.antt =====
-- k-induction on the systems of the state `x`: one keeps its value, and one takes the input.
use pono.Base.{
  ℕ, suc, ◌≡◌, refl, sym as sym_path, ap, subst, ◌∙◌, arith, inl, inr, Bool, true, false, not, [],
  ◌∷◌, ◌==◌, ==_iff, mem, none, if◌then◌else◌, Result, ok, err,
}
use pono.Smt.Laws.{Model, holds}
use pono.Unroller.{new_unroller, at_time}
use pono.Unroller.Digits.{decimal}
use pono.Unroller.Timed.{Speaks}
use pono.Unroller.Trace.{joint, state_at, assign}
use pono.Unroller.Caches.{new_unroller-IsTimed}
use pono.Unroller.Meaning.{eval-at_time_states, eval-at_time_assign}
use pono.Engines.Problem.{Trace, Cex, ProverResult, unknown, false_, true_, error}
use pono.Engines.KInduction.{KindOptions, KindSystem, KInduction, check_until}
use pono.Engines.KInduction.System.{Switches, Switched, IsInputLike}
use pono.Engines.KInduction.FinalTotal.{IsTotal}
use pono.Engines.KInduction.Verdicts.{check_until_true-NoCex, check_until-false-Cex}
use pono.Examples.Toy.{bool_beq, bool_beq_iff, Toy, neg, same, toy, toy_laws, toy_eq}
use pono.Examples.Table.{table, table_laws, table_decides, empty_table}
use pono.Examples.Systems.{x, x_next, i}
use pono.Examples.Checking.{
  at, system, system-IsWellFormed, IsKnown-mem, system_problem, latch, keep, latch_unrolling,
  keep_unrolling, selector,
}

abbrev kind_system : KindSystem Toy
kind_system = record {
  statevars = x ∷ [];
  has_no_update = λ v. false;
  is_functional = true;
  no_constraints = true;
  is_right_total = none;
  sel_init = selector 0;
  sel_neg_init_terms = selector 1;
  sel_neg_bad_state_terms = selector 2;
  sel_simple_path_terms = selector 3;
}

-- the assignment to the copies of the variables and to the selectors
abbrev switched : Switches → (ℕ → Model toy) → (t : Toy) → Model toy
switched b π t u =
    if selector 0 == u
    then b.start
    else if selector 1 == u
    then b.later
    else if selector 2 == u
    then b.bad
    else if selector 3 == u
    then b.path
    else assign toy (system t) at π u

-- a term whose value is told by the copies of the variables has the value that it has in the states
eval-switched :
    (t u : Toy) (b : Switches) (π : ℕ → Model toy) (k : ℕ)
    → Speaks toy (system t) at u
    → toy.eval
        (joint toy
          (system t)
          (state_at toy (system t) at (switched b π t) k)
          (state_at toy (system t) at (switched b π t) (suc k)))
        u
      ≡ toy.eval
          (joint toy
            (system t)
            (state_at toy (system t) at (assign toy (system t) at π) k)
            (state_at toy (system t) at (assign toy (system t) at π) (suc k)))
          u
    → toy.eval (switched b π t) (at_time toy (system t) u k (new_unroller toy (system t) at)).0
      ≡ toy.eval (joint toy (system t) (π k) (π (suc k))) u
eval-switched t u b π k speaks same_copies =
    let fresh = new_unroller toy (system t) at in
    let timed_fresh = new_unroller-IsTimed toy (system t) at in
    let wf = system-IsWellFormed t in
    eval-at_time_states toy toy_laws (system t) wf fresh timed_fresh k (switched b π t) u speaks
    ∙ same_copies
    ∙ sym_path (
        eval-at_time_states toy toy_laws (system t) wf fresh timed_fresh k
          (assign toy (system t) at π) u speaks)
    ∙ eval-at_time_assign toy toy_laws (system t) wf fresh timed_fresh [] 64 refl refl
        (λ v k var. refl) π k u speaks

Speaks-x : (t : Toy) → Speaks toy (system t) at x
Speaks-x t = IsKnown-mem t (x ∷ []) (inl refl, tt)

eval-switched-x :
    (t : Toy) (b : Switches) (π : ℕ → Model toy) (k : ℕ)
    → toy.eval (switched b π t) (at_time toy (system t) x k (new_unroller toy (system t) at)).0
      ≡ π k x
eval-switched-x t b π k = eval-switched t x b π k (Speaks-x t) refl

same-switched :
    (t v : Toy) (b : Switches) (π : ℕ → Model toy) (j l : ℕ)
    → mem v (x ∷ []) ≡ true
    → holds toy (switched b π t) (
        same
          (at_time toy (system t) v j (new_unroller toy (system t) at)).0
          (at_time toy (system t) v l (new_unroller toy (system t) at)).0)
      ≡ bool_beq (toy.eval (π j) v) (toy.eval (π l) v)
same-switched t v b π j l m =
    let eq : x ≡ v = (==_iff x v).0 (ground arith) in
    subst
      (λ u.
        holds toy (switched b π t) (
          same (at_time toy (system t) u j (new_unroller toy (system t) at)).0
            (at_time toy (system t) u l (new_unroller toy (system t) at)).0)
        ≡ bool_beq (toy.eval (π j) u) (toy.eval (π l) u))
      eq (λ i. bool_beq (eval-switched-x t b π j i) (eval-switched-x t b π l i))

Speaks-keep : Speaks toy (system keep) at keep
Speaks-keep = IsKnown-mem keep (x_next ∷ x ∷ []) (inr (x, refl, refl), (inl refl, tt))

Speaks-latch : Speaks toy (system latch) at latch
Speaks-latch = IsKnown-mem latch (x_next ∷ i ∷ []) (inr (x, refl, refl), (inl refl, tt))

abbrev switched_keep : Switched toy (system_problem keep) kind_system keep_unrolling
switched_keep = record {
  init_in = λ s. not (s x);
  bad_in = λ s. s x;
  same = λ v s r. bool_beq (toy.eval s v) (toy.eval r v);
  writes = λ b π. switched b π keep;
  sees_init = λ s r. refl;
  sees_bad = λ s r. refl;
  writes_init = λ b π k. eval-switched keep (neg x) b π k (Speaks-x keep) refl;
  writes_not_init = λ b π k. eval-switched keep (neg (neg x)) b π k (Speaks-x keep) refl;
  writes_trans = λ b π k. eval-switched keep keep b π k Speaks-keep refl;
  writes_bad = λ b π k. eval-switched-x keep b π k;
  writes_not_bad = λ b π k. eval-switched keep (neg x) b π k (Speaks-x keep) refl;
  writes_same = λ b π v j l m. same-switched keep v b π j l m;
  writes_start = λ b π. refl;
  writes_later = λ b π. refl;
  writes_off = λ b π. refl;
  writes_path = λ b π. refl;
}

abbrev switched_latch : Switched toy (system_problem latch) kind_system latch_unrolling
switched_latch = record {
  init_in = λ s. not (s x);
  bad_in = λ s. s x;
  same = λ v s r. bool_beq (toy.eval s v) (toy.eval r v);
  writes = λ b π. switched b π latch;
  sees_init = λ s r. refl;
  sees_bad = λ s r. refl;
  writes_init = λ b π k. eval-switched latch (neg x) b π k (Speaks-x latch) refl;
  writes_not_init = λ b π k. eval-switched latch (neg (neg x)) b π k (Speaks-x latch) refl;
  writes_trans = λ b π k. eval-switched latch latch b π k Speaks-latch refl;
  writes_bad = λ b π k. eval-switched-x latch b π k;
  writes_not_bad = λ b π k. eval-switched latch (neg x) b π k (Speaks-x latch) refl;
  writes_same = λ b π v j l m. same-switched latch v b π j l m;
  writes_start = λ b π. refl;
  writes_later = λ b π. refl;
  writes_off = λ b π. refl;
  writes_path = λ b π. refl;
}

bool_split : (b : Bool) → bool_beq b b ≡ true
bool_split true = refl
bool_split false = refl

keep-IsInputLike : IsInputLike toy (system_problem keep) kind_system keep_unrolling switched_keep
keep-IsInputLike = record {
  init_agree =
      λ s r same_x. let eq : s x ≡ r x = (bool_beq_iff (s x) (r x)).0 (ground arith) in ap not eq;
  reenter = λ q s q' s' step step' same_x.
      let eq : s x ≡ s' x = (bool_beq_iff (s x) (s' x)).0 (ground arith) in
      subst (λ c. bool_beq c (q x) ≡ true) eq step;
}

latch-IsInputLike :
    IsInputLike toy (system_problem latch) kind_system latch_unrolling switched_latch
latch-IsInputLike = record {
  init_agree =
      λ s r same_x. let eq : s x ≡ r x = (bool_beq_iff (s x) (r x)).0 (ground arith) in ap not eq;
  reenter = λ q s q' s' step step' same_x.
      let eq : s x ≡ s' x = (bool_beq_iff (s x) (s' x)).0 (ground arith) in
      subst (λ c. bool_beq c (q i) ≡ true) eq step;
}

-- the inductive checks, with the base cases in each round
abbrev each_round : KindOptions
each_round = record {
  bound_step = 1;
  eager_simple_path_check = false;
  no_simple_path_check = false;
  no_multi_call_simple_path_check = false;
  no_ind_check = false;
  no_ind_check_init_states = false;
  no_ind_check_property = false;
  one_time_base_check = false;
  check_trans_total = false;
}

-- one base case, after an inductive check
abbrev at_the_end : KindOptions
at_the_end = record each_round { one_time_base_check = true; eager_simple_path_check = true }

keep-IsTotal :
    IsTotal toy toy_laws table table_laws each_round
      (system_problem keep)
      kind_system
      keep_unrolling
      switched_keep
keep-IsTotal _ s =
    (s, record { same_init = refl; same_bad = refl; follows = λ q h. h }, s, bool_split (s x))

latch-IsTotal :
    IsTotal toy toy_laws table table_laws at_the_end
      (system_problem latch)
      kind_system
      latch_unrolling
      switched_latch
latch-IsTotal _ s = (
  s,
  record { same_init = refl; same_bad = refl; follows = λ q h. h },
  (λ _. s i),
  bool_split (s i),
)

module _ (opt : KindOptions) (t : Toy) where
  abbrev Engine : Type 0
  Engine = KInduction toy table opt (system_problem t) kind_system

  abbrev start : Engine
  start = record { initialized = false; solver_state = empty_table; next_k = 0 }

  abbrev result : Result (ProverResult × Engine)
  result = check_until toy table opt (system_problem t) kind_system 3 start

  abbrev finish : Result (ProverResult × Engine) → Engine
  finish r = elim r [ ok (v, b) ↦ b | err y ↦ start ]

  abbrev proves : Result (ProverResult × Engine) → Bool
  proves (ok (true_, b)) = true
  proves _ = false

  abbrev refutes : Result (ProverResult × Engine) → Bool
  refutes (ok (false_, b)) = true
  refutes _ = false

  ok-proves :
      (r : Result (ProverResult × Engine)) → proves r ≡ true → r ≡ ok (ProverResult.true_, finish r)
  ok-proves (ok (true_, b)) h = refl
  ok-proves (ok (false_, b)) h = absurd (cc)
  ok-proves (ok (unknown, b)) h = absurd (cc)
  ok-proves (ok (error, b)) h = absurd (cc)
  ok-proves (err y) h = absurd (cc)

  ok-refutes :
      (r : Result (ProverResult × Engine))
      → refutes r ≡ true
      → r ≡ ok (ProverResult.false_, finish r)
  ok-refutes (ok (false_, b)) h = refl
  ok-refutes (ok (true_, b)) h = absurd (cc)
  ok-refutes (ok (unknown, b)) h = absurd (cc)
  ok-refutes (ok (error, b)) h = absurd (cc)
  ok-refutes (err y) h = absurd (cc)

keep_runs : proves each_round keep (result each_round keep) ≡ true
unfolding check_until at_time decimal pono.Ts.Symbols.next pono.Ts.Symbols.only_curr
keep_runs = refl

latch_runs : refutes at_the_end latch (result at_the_end latch) ≡ true
unfolding check_until at_time decimal pono.Ts.Symbols.next pono.Ts.Symbols.only_curr
latch_runs = refl

check_until_true-NoCex_example : ¬ (
    (n : ℕ) × (π : Trace toy (system_problem keep) keep_unrolling) × Cex toy
      (system_problem keep)
      keep_unrolling
      π
      n)
check_until_true-NoCex_example =
    check_until_true-NoCex toy toy_laws table table_laws each_round (system_problem keep)
      kind_system keep_unrolling switched_keep keep-IsInputLike keep-IsTotal table_decides
      (omega arith) 3 (start each_round keep) (finish each_round keep (result each_round keep)) refl
      (ok-proves each_round keep (result each_round keep) keep_runs)

check_until-false-Cex_example :
    (n : ℕ) × (π : Trace toy (system_problem latch) latch_unrolling) × Cex toy
      (system_problem latch)
      latch_unrolling
      π
      n
check_until-false-Cex_example =
    check_until-false-Cex toy toy_laws table table_laws at_the_end (system_problem latch)
      kind_system latch_unrolling switched_latch latch-IsInputLike latch-IsTotal table_decides
      (omega arith) 3 (start at_the_end latch) (finish at_the_end latch (result at_the_end latch))
      refl (ok-refutes at_the_end latch (result at_the_end latch) latch_runs)
