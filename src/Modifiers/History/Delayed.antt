-- ===== src/Modifiers/History/Delayed.antt =====
-- History variables hold the value of their target some steps before.
use pono.Base.{
  ℕ, zero, suc, ◌+◌, ◌-◌, ◌≤◌, ◌<◌, ◌≡◌, inl, inr, refl, sym, ap, subst, ◌∙◌, arith, true, List, [],
  ◌∷◌, ◌++◌, Eq, ◌==◌, ==_iff, lookup, put, lookup-put, length, Bool-cases, Option-cases, some,
  none, ok, err, Error, continue-eq-ok, nat_beq, if◌then◌else◌, Result,
}
use pono.Smt.{Smt}
use pono.Smt.Laws.{SmtLaws, Model, holds}
use pono.Ts.{TransitionSystem}
use pono.Ts.Vars.{make_statevar}
use pono.Ts.Executions.{Execution}
use pono.Ts.Growth.{IsGrown, IsGrown-refl, IsGrown-trans, IsState, IsState-grown, make_statevar_lem}
use pono.Modifiers.History.{
  History, new_history, in_ts, get_elem?, hists_of, hist_name, define_first, define_later, add_hist,
  add_hists, get_hist,
}
use pono.Modifiers.History.Links.{
  in_ts-eq-ok, Chain, last, Chain-snoc, IsHistory, IsHistory-grown, Defined, defined,
}

module _ {Term : Type 0} ⦃e : Eq Term⦄ (smt : Smt Term) (laws : SmtLaws smt) where
  open smt use {eval}

  abbrev push_hist : Term → Term → History Term → History Term
  push_hist target v s = record s {
    hist_vars = put target (hists_of smt target s ++ v ∷ []) s.hist_vars;
  }

  hists_of-push :
      (target v : Term) (s : History Term)
      → hists_of smt target (push_hist target v s) ≡ hists_of smt target s ++ v ∷ []
  hists_of-push target v s = ground (
    arith,
    lookup-put target target (hists_of smt target s ++ v ∷ []) s.hist_vars,
    ==_iff target target,
  )

  IsHistory-push :
      (target v n : Term) (s : History Term)
      → IsHistory smt laws s
      → IsState smt s.ts v n
      → Defined smt laws s.ts n (last smt laws target (hists_of smt target s))
      → IsHistory smt laws (push_hist target v s)
  unfolding IsHistory Defined
  IsHistory-push target v n s k state d other σ step = elim (Bool-cases (target == other)) [
    | inl y ↦
        let eq : target ≡ other = (==_iff target other).0 y in
        rw (← eq, hists_of-push target v s)
          (Chain-snoc smt laws {ts = s.ts} σ target (hists_of smt target s) v n (k target σ step)
            state (d σ step))
    | inr apart ↦
        let same : hists_of smt other (push_hist target v s) ≡ hists_of smt other s =
          ground (arith, lookup-put target other (hists_of smt target s ++ v ∷ []) s.hist_vars) in
        rw same (k other σ step)
  ]

  hists_of-same :
      (target : Term) (s s' : History Term)
      → s'.hist_vars ≡ s.hist_vars
      → hists_of smt target s' ≡ hists_of smt target s
  hists_of-same target s s' same =
      ap (λ m. elim (lookup target m) [ some hs ↦ hs | none ↦ [] ]) same

  length-snoc : (v : Term) (hs : List Term) → length (hs ++ v ∷ []) ≡ suc (length hs)
  length-snoc v [] = refl
  length-snoc v (h ∷ hs) = omega (arith, length-snoc v hs)

  -- the second half of a round, after the variable is made
  defines :
      (target v n : Term) (s s' : History Term)
      → IsHistory smt laws s
      → IsState smt s.ts v n
      → in_ts
          (if nat_beq (suc (length (hists_of smt target s))) 1
            then define_first smt v target
            else define_later smt v (hists_of smt target s))
          s
        ≡ (ok tt, s')
      → IsHistory smt laws (push_hist target v s')
        × IsGrown smt s.ts s'.ts
        × (length (hists_of smt target (push_hist target v s'))
            ≡ suc (length (hists_of smt target s)))
  defines target v n s s' k state run =
      let hs = hists_of smt target s in
      let (ran, same) =
        in_ts-eq-ok
          (if nat_beq (suc (length hs)) 1 then define_first smt v target else define_later smt v hs)
          s {s' = s'} run in
      let (g, d) = defined smt laws v n target hs s.ts {ts' = s'.ts} state.next_at ran in
      let kept = hists_of-same target s s' same in
      (
        IsHistory-push target v n s' (IsHistory-grown smt laws s s' g same k)
            (IsState-grown smt {ts = s.ts} {ts' = s'.ts} g state)
            (subst (λ l. Defined smt laws s'.ts n (last smt laws target l)) (sym kept) d),
        g,
        ap length (hists_of-push target v s')
            ∙ length-snoc v (hists_of smt target s')
            ∙ ap (λ l. suc (length l)) kept,
      )

  add_hist_lem :
      (target : Term) (s s' : History Term)
      → IsHistory smt laws s
      → add_hist smt target (suc (length (hists_of smt target s))) s ≡ (ok tt, s')
      → IsHistory smt laws s'
        × IsGrown smt s.ts s'.ts
        × (length (hists_of smt target s') ≡ suc (length (hists_of smt target s)))
  unfolding add_hist
  add_hist_lem target s s' k run =
      let num = suc (length (hists_of smt target s)) in
      let made = make_statevar smt (hist_name smt target num) (smt.get_sort target) in
      let (v, s1, first, rest) = continue-eq-ok (in_ts made s) _ run in
      let (made_ok, same1) = in_ts-eq-ok made s {s' = s1} first in
      let kept = hists_of-same target s s1 same1 in
      let (g1, _, _, (n, state)) =
        make_statevar_lem smt laws (hist_name smt target num) (smt.get_sort target) s.ts
          {ts' = s1.ts} made_ok in
      let define = λ (hs : List Term).
        if nat_beq num 1 then define_first smt v target else define_later smt v hs in
      let (_, s2, second, last_step) =
        continue-eq-ok (in_ts (define (hists_of smt target s1)) s1) _ rest in
      let (k2, g2, len) =
        defines target v n s1 s2 (IsHistory-grown smt laws s s1 g1 same1 k) state (
          subst
            (λ l.
              in_ts
                (if nat_beq (suc l) 1
                  then define_first smt v target
                  else define_later smt v (hists_of smt target s1))
                s1
              ≡ (ok tt, s2))
            (sym (ap length kept)) second) in
      let ended : push_hist target v s2 ≡ s' = ap (λ p. p.1) last_step in
      rw (← ended) (
        k2,
        IsGrown-trans smt {a = s.ts} {b = s1.ts} {c = s2.ts} g1 g2,
        len ∙ ap (λ l. suc (length l)) kept,
      )

  add_hists_lem :
      (n : ℕ) (target : Term) (num : ℕ) (s s' : History Term)
      → IsHistory smt laws s
      → length (hists_of smt target s) ≡ num
      → add_hists smt n target num s ≡ (ok tt, s')
      → IsHistory smt laws s' × IsGrown smt s.ts s'.ts × (length (hists_of smt target s') ≡ n + num)
  unfolding add_hists
  add_hists_lem zero target num s s' k len run =
      let same : s ≡ s' = ap (λ p. p.1) run in
      rw (← same) (k, IsGrown-refl smt s.ts, omega (arith, len))
  add_hists_lem (suc n) target num s s' k len run =
      let (_, s1, first, rest) = continue-eq-ok (add_hist smt target (suc num) s) _ run in
      let (k1, g1, len1) =
        add_hist_lem target s s1 k
          (subst (λ m. add_hist smt target (suc m) s ≡ (ok tt, s1)) (sym len) first) in
      let (k2, g2, len2) = add_hists_lem n target (suc num) s1 s' k1 (len1 ∙ ap suc len) rest in
      (k2, IsGrown-trans smt {a = s.ts} {b = s1.ts} {c = s'.ts} g1 g2, omega (arith, len2))

  Chain-next :
      {ts : TransitionSystem Term} (k : ℕ) (π : ℕ → Model smt)
      → Execution smt ts k π
      → (prev h : Term) (hs : List Term) (i : ℕ) → i < k
      → Chain smt laws ts (π i) prev (h ∷ hs)
      → eval (π (suc i)) h ≡ eval (π i) prev
  unfolding Chain
  Chain-next k π run prev h hs i lt ((n, state, eq), _) =
      laws.eval-symbol (π (suc i)) h state.symbolic
      ∙ sym (run.linked i lt h n state.known state.next_at)
      ∙ sym (laws.eval-symbol (π i) n state.next_symbolic)
      ∙ eq

  -- along an execution the variable of index `d` has the value that `prev` had `d + 1` steps before
  Chain-value :
      {ts : TransitionSystem Term} (k : ℕ) (π : ℕ → Model smt)
      → Execution smt ts k π
      → (prev : Term) (hs : List Term) (d : ℕ) (v : Term)
      → ((i : ℕ) → i < k → Chain smt laws ts (π i) prev hs)
      → get_elem? hs d ≡ some v
      → (i : ℕ) → i + suc d ≤ k
      → eval (π (i + suc d)) v ≡ eval (π i) prev
  unfolding Chain
  Chain-value k π run prev [] d v c at i le = absurd (ground arith)
  Chain-value {ts} k π run prev (h ∷ hs) zero v c at i le =
      let eq : h ≡ v = ground arith in
      let time : suc i ≡ i + 1 = omega arith in
      let lt : i < k = omega arith in
      subst (λ t. eval (π t) v ≡ eval (π i) prev) time
        (rw (← eq) (Chain-next {ts = ts} k π run prev h hs i lt (c i lt)))
  Chain-value {ts} k π run prev (h ∷ hs) (suc d) v c at i le =
      let time : suc i + suc d ≡ i + suc (suc d) = omega arith in
      let lt : i < k = omega arith in
      subst (λ t. eval (π t) v ≡ eval (π i) prev) time
        (Chain-value {ts = ts} k π run h hs d v (λ j l. (c j l).1) at (suc i) (omega arith)
          ∙ Chain-next {ts = ts} k π run prev h hs i lt (c i lt))

  IsHistory-touch :
      (target : Term) (s : History Term)
      → IsHistory smt laws s
      → IsHistory smt laws (record s { hist_vars = put target (hists_of smt target s) s.hist_vars })
  unfolding IsHistory
  IsHistory-touch target s k other σ step =
      let same : hists_of smt other
            (record s { hist_vars = put target (hists_of smt target s) s.hist_vars })
          ≡ hists_of smt other s =
        ground (
          arith,
          lookup-put target other (hists_of smt target s) s.hist_vars,
          ==_iff target other,
        ) in
      rw same (k other σ step)

  hists_of-touch :
      (target : Term) (s : History Term)
      → hists_of smt target
          (record s { hist_vars = put target (hists_of smt target s) s.hist_vars })
        ≡ hists_of smt target s
  hists_of-touch target s =
      ground
        (arith, lookup-put target target (hists_of smt target s) s.hist_vars, ==_iff target target)

  IsHistory-at :
      (target : Term) (s : History Term)
      → IsHistory smt laws s
      → (σ : Model smt) → holds smt σ s.ts.trans ≡ true
      → Chain smt laws s.ts σ target (hists_of smt target s)
  unfolding IsHistory
  IsHistory-at target s k σ step = k target σ step

  found_var :
      (target : Term) (delay : ℕ) (v : Term) (s s' : History Term)
      → (elim (get_elem? (hists_of smt target s) delay) as (λ _. Result Term × History Term) [
        | some var ↦ (ok var, s)
        | none ↦ (err Error.out_of_range, s)
      ])
        ≡ (ok v, s')
      → (get_elem? (hists_of smt target s) delay ≡ some v) × (s ≡ s')
  found_var target delay v s s' h = elim (Option-cases (get_elem? (hists_of smt target s) delay)) [
    | inl gone ↦ absurd (ground arith)
    | inr (w, at) ↦ (ground arith, ground arith)
  ]

  pub get_hist-IsHistory :
      (target : Term) (delay : ℕ) (s : History Term) {v : Term} {s' : History Term}
      → IsHistory smt laws s
      → get_hist smt target delay s ≡ (ok v, s')
      → IsHistory smt laws s'
        × IsGrown smt s.ts s'.ts
        × ((k : ℕ) (π : ℕ → Model smt)
            → Execution smt s'.ts k π
            → (i : ℕ) → i + delay ≤ k
            → eval (π (i + delay)) v ≡ eval (π i) target)
  unfolding get_hist
  get_hist-IsHistory target zero s {v} {s'} k run =
      let eq : target ≡ v = ground arith in
      let same : s ≡ s' = ap (λ p. p.1) run in
      rw (← eq, ← same)
        (k, IsGrown-refl smt s.ts, λ n π ex i le. ap (λ t. eval (π t) target) (omega arith))
  get_hist-IsHistory target (suc delay) s {v} {s'} k run =
      let num = length (hists_of smt target s) in
      let touched = record s { hist_vars = put target (hists_of smt target s) s.hist_vars } in
      let (_, s1, grown, found) =
        continue-eq-ok (add_hists smt (suc delay - num) target num touched) _ run in
      let len : length (hists_of smt target touched) ≡ num = ap length (hists_of-touch target s) in
      let (k1, g1, _) =
        add_hists_lem (suc delay - num) target num touched s1 (IsHistory-touch target s k) len
          grown in
      let (at, ended) = found_var target delay v s1 s' found in
      rw (← ended) (
        k1,
        g1,
        λ n π ex i le.
            Chain-value {ts = s1.ts} n π ex target (hists_of smt target s1) delay v
              (λ j lt. IsHistory-at target s1 k1 (π j) (ex.steps j lt)) at i le,
      )

  -- When `get_hist` returns, on a modifier whose history variables are as it defines them: along each execution of
  -- the changed system the variable has the value that the target had `delay` steps before.
  pub get_hist-delayed :
      (target : Term) (delay : ℕ) (s : History Term) {v : Term} {s' : History Term}
      → IsHistory smt laws s
      → get_hist smt target delay s ≡ (ok v, s')
      → (k : ℕ) (π : ℕ → Model smt) → Execution smt s'.ts k π
      → (i : ℕ) → i + delay ≤ k
      → eval (π (i + delay)) v ≡ eval (π i) target
  get_hist-delayed target delay s {v} {s'} valid run k π ex i le =
      let (_, _, value) = get_hist-IsHistory target delay s {v = v} {s' = s'} valid run in
      value k π ex i le

  -- a new modifier has no history variables
  pub new_history-IsHistory : (ts : TransitionSystem Term) → IsHistory smt laws (new_history ts)
  unfolding IsHistory Chain
  new_history-IsHistory ts target σ step = tt
