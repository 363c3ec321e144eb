-- ===== src/Modifiers/Prophecy/Frozen.antt =====
-- A prophecy variable does not change, and its history variable lags behind the target.
use pono.Base.{
  ℕ, zero, suc, ◌+◌, ◌≤◌, ◌<◌, ◌≡◌, refl, sym, ap, ◌∙◌, arith, Eq, ok, continue-eq-ok, true, ◌-◌,
  leb, if◌then◌else◌, Bool-cases, inl, inr, subst,
}
use pono.Smt.{Smt}
use pono.Smt.Laws.{SmtLaws, Model, holds}
use pono.Ts.{TransitionSystem}
use pono.Ts.Define.{assign_next}
use pono.Ts.Vars.{make_statevar}
use pono.Ts.Executions.{Execution}
use pono.Ts.Growth.{
  IsGrown-trans, IsState, IsState-grown, Execution-grown, make_statevar_lem, assign_next_lem,
}
use pono.Modifiers.History.{History, in_ts, get_hist}
use pono.Modifiers.History.Links.{IsHistory, IsHistory-grown, in_ts-eq-ok}
use pono.Modifiers.History.Delayed.{get_hist-IsHistory}
use pono.Modifiers.Prophecy.{get_proph, proph_name}

module _ {Term : Type 0} ⦃e : Eq Term⦄ (smt : Smt Term) (laws : SmtLaws smt) where
  open smt use {eval}

  frozen :
      (ts : TransitionSystem Term) (k : ℕ) (π : ℕ → Model smt) (v n : Term)
      → Execution smt ts k π
      → IsState smt ts v n
      → ((σ : Model smt) → holds smt σ ts.trans ≡ true → eval σ n ≡ eval σ v)
      → (i : ℕ) → i ≤ k
      → eval (π i) v ≡ eval (π 0) v
  frozen ts k π v n run state keeps zero le = refl
  frozen ts k π v n run state keeps (suc i) le =
      let lt : i < k = omega arith in
      laws.eval-symbol (π (suc i)) v state.symbolic
      ∙ sym (run.linked i lt v n state.known state.next_at)
      ∙ sym (laws.eval-symbol (π i) n state.next_symbolic)
      ∙ keeps (π i) (run.steps i lt)
      ∙ frozen ts k π v n run state keeps i (omega arith)

  get_proph-IsHistory :
      (target : Term) (delay : ℕ) (s : History Term) {p h : Term} {s' : History Term}
      → IsHistory smt laws s
      → get_proph smt target delay s ≡ (ok (p, h), s')
      → IsHistory smt laws s'
        × ((k : ℕ) (π : ℕ → Model smt)
            → Execution smt s'.ts k π
            → ((i : ℕ) → i ≤ k → eval (π i) p ≡ eval (π 0) p)
              × ((i : ℕ) → i + delay ≤ k → eval (π (i + delay)) h ≡ eval (π i) target))
  unfolding get_proph
  get_proph-IsHistory target delay s {p} {h} {s'} k run =
      let (hist, s1, first, rest) = continue-eq-ok (get_hist smt target delay s) _ run in
      let made = make_statevar smt (proph_name smt target delay) (smt.get_sort target) in
      let (proph, s2, second, rest2) = continue-eq-ok (in_ts made s1) _ rest in
      let (_, s3, third, last) = continue-eq-ok (in_ts (assign_next smt proph proph) s2) _ rest2 in
      let (k1, g1, value) =
        get_hist-IsHistory smt laws target delay s {v = hist} {s' = s1} k first in
      let (made_ok, same1) = in_ts-eq-ok made s1 {s' = s2} second in
      let (set_ok, same2) = in_ts-eq-ok (assign_next smt proph proph) s2 {s' = s3} third in
      let (g2, _, _, (n, state)) =
        make_statevar_lem smt laws (proph_name smt target delay) (smt.get_sort target) s1.ts
          {ts' = s2.ts} made_ok in
      let (g3, keeps) =
        assign_next_lem smt laws proph n proph s2.ts {ts' = s3.ts} state.next_at set_ok in
      let is_p : proph ≡ p = ground arith in
      let is_h : hist ≡ h = ground arith in
      let ended : s3 ≡ s' = ap (λ r. r.1) last in
      let g23 = IsGrown-trans smt {a = s1.ts} {b = s2.ts} {c = s3.ts} g2 g3 in
      rw (← is_p, ← is_h, ← ended)
        (
          IsHistory-grown smt laws s2 s3 g3 same2 (IsHistory-grown smt laws s1 s2 g2 same1 k1),
          λ m π ex. (
            frozen s3.ts m π proph n ex (IsState-grown smt {ts = s2.ts} {ts' = s3.ts} g3 state)
                keeps,
            value m π (Execution-grown smt s1.ts s3.ts m π g23 ex),
          ),
        )

  -- When `get_proph` returns, on a modifier whose history variables are as it defines them, along each execution of
  -- the changed system with `k` transitions and at each of its times from 0 to `k`: the prophecy variable has the value
  -- that it has at time 0, and the history variable has the value that the target had `delay` steps before, if there are
  -- as many.
  pub get_proph-frozen :
      (target : Term) (delay : ℕ) (s : History Term) {p h : Term} {s' : History Term}
      → IsHistory smt laws s
      → get_proph smt target delay s ≡ (ok (p, h), s')
      → (k : ℕ) (π : ℕ → Model smt) → Execution smt s'.ts k π
      → (i : ℕ) → i ≤ k
      → (eval (π i) p ≡ eval (π 0) p)
        × (eval (π i) h ≡ (if leb delay i then eval (π (i - delay)) target else eval (π i) h))
  get_proph-frozen target delay s {p} {h} {s'} valid run k π ex i le =
      let (still, past) : ((j : ℕ) → j ≤ k → eval (π j) p ≡ eval (π 0) p)
          × ((j : ℕ) → j + delay ≤ k → eval (π (j + delay)) h ≡ eval (π j) target) =
        (get_proph-IsHistory target delay s {p = p} {h = h} {s' = s'} valid run).1 k π ex in
      (
        still i le,
        elim (Bool-cases (leb delay i)) [
          | inr early ↦ rw early refl
          | inl late ↦
              let back : (i - delay) + delay ≡ i = ground arith in
              rw late (
                subst (λ j. eval (π j) h ≡ eval (π (i - delay)) target) back
                  (past (i - delay) (ground arith)))
        ],
      )
