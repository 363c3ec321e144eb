-- ===== src/Modifiers/PropMonitor/Watching.antt =====
-- A monitor is true at first, and then has the value of the property one step before.
use pono.Base.{
  ℕ, zero, suc, ◌<◌, ◌≡◌, inl, inr, sym, ap, subst, ◌∙◌, arith, Bool, true, false, not, ◌||◌, ◌++◌,
  Eq, lookup, some, ok, continue, continue-eq-ok, Bool-cases,
}
use pono.Smt.{Smt, Name}
use pono.Smt.Laws.{SmtLaws, Model, holds}
use pono.Ts.{TransitionSystem}
use pono.Ts.Symbols.{no_next, next}
use pono.Ts.Define.{constrain_init}
use pono.Ts.Executions.{Execution}
use pono.Ts.Growth.{
  IsGrown, IsState, IsState-grown, make_statevar_lem, assign_next_lem, constrain_trans_lem,
  constrain_init_lem,
}
use pono.Modifiers.PropMonitor.{monitor_name, make_monitor, define_monitor, add_prop_monitor}

module _ {Term : Type 0} ⦃e : Eq Term⦄ (smt : Smt Term) (laws : SmtLaws smt) (is_used : Name → Bool)
    (is_right_total : TransitionSystem Term → Bool) where
  open smt use {eval, make_equal, bool_sort}

  make_monitor_lem :
      (fuel id : ℕ) (ts : TransitionSystem Term) {m : Term} {ts' : TransitionSystem Term}
      → make_monitor smt is_used is_right_total fuel id ts ≡ (ok m, ts')
      → (n : Term) × IsState smt ts' m n
  unfolding make_monitor
  make_monitor_lem zero id ts h = absurd (cc)
  make_monitor_lem (suc fuel) id ts {m} {ts'} h =
      elim (Bool-cases (is_used (monitor_name id) || is_used (monitor_name id ++ ts.next_suffix))) [
        | inl used ↦
            make_monitor_lem fuel (suc id) (record ts { deterministic = false }) {m = m} {ts' = ts'}
              (ground arith)
        | inr free ↦
            let (_, _, _, state) =
              make_statevar_lem smt laws (monitor_name id) bool_sort ts {v = m} {ts' = ts'}
                (ground arith) in
            state
      ]

  define_monitor_lem :
      (has_next : Bool) (m n prop : Term) (ts : TransitionSystem Term) {ts' : TransitionSystem Term}
      → lookup m ts.next_map ≡ some n
      → define_monitor smt is_used is_right_total has_next m prop ts ≡ (ok tt, ts')
      → IsGrown smt ts ts'
        × ((σ : Model smt) → holds smt σ ts'.trans ≡ true → eval σ n ≡ eval σ prop)
  unfolding define_monitor next
  define_monitor_lem true m n prop ts {ts'} at h =
      let (g, c) = constrain_trans_lem smt laws (make_equal n prop) ts {ts' = ts'} (ground arith) in
      (g, λ σ s. (laws.holds-equal σ n prop).0 (c σ s))
  define_monitor_lem false m n prop ts {ts'} at h =
      assign_next_lem smt laws m n prop ts {ts' = ts'} at h

  watches :
      (m n prop : Term) (ts : TransitionSystem Term)
      → IsState smt ts m n
      → ((σ : Model smt) → holds smt σ ts.init ≡ true → holds smt σ m ≡ true)
      → ((σ : Model smt) → holds smt σ ts.trans ≡ true → eval σ n ≡ eval σ prop)
      → (k : ℕ) (π : ℕ → Model smt) → Execution smt ts k π
      → (i : ℕ) → i < k
      → (holds smt (π 0) m ≡ true) × (eval (π (suc i)) m ≡ eval (π i) prop)
  watches m n prop ts state first equal k π ex i lt = (
    first (π 0) ex.starts,
    laws.eval-symbol (π (suc i)) m state.symbolic
        ∙ sym (ex.linked i lt m n state.known state.next_at)
        ∙ sym (laws.eval-symbol (π i) n state.next_symbolic)
        ∙ equal (π i) (ex.steps i lt),
  )

  -- the part of `add_prop_monitor` after the variable is made
  watches_after :
      (has_next : Bool) (v n prop : Term) (ts : TransitionSystem Term) {m : Term}
      {ts' : TransitionSystem Term}
      → IsState smt ts v n
      → continue (constrain_init smt v ts) (λ _ t.
        continue (define_monitor smt is_used is_right_total has_next v prop t) (λ _ t'. (ok v, t')))
        ≡ (ok m, ts')
      → (k : ℕ) (π : ℕ → Model smt) → Execution smt ts' k π
      → (i : ℕ) → i < k
      → (holds smt (π 0) m ≡ true) × (eval (π (suc i)) m ≡ eval (π i) prop)
  watches_after has_next v n prop ts {m} {ts'} state run k π ex i lt =
      let (_, ts2, started, rest) = continue-eq-ok (constrain_init smt v ts) _ run in
      let (g2, first) = constrain_init_lem smt laws v ts {ts' = ts2} started in
      let state2 : IsState smt ts2 v n = IsState-grown smt {ts = ts} {ts' = ts2} g2 state in
      let (_, ts3, defined, last) =
        continue-eq-ok (define_monitor smt is_used is_right_total has_next v prop ts2) _ rest in
      let (g3, equal) =
        define_monitor_lem has_next v n prop ts2 {ts' = ts3} state2.next_at defined in
      let state3 : IsState smt ts3 v n = IsState-grown smt {ts = ts2} {ts' = ts3} g3 state2 in
      let is_m : v ≡ m = ground arith in
      let ended : ts3 ≡ ts' = ap (λ r. r.1) last in
      rw (← is_m) (
        watches v n prop ts3 state3 (λ σ s. first σ (g3.starts σ s)) equal k π
          (subst (λ t. Execution smt t k π) (sym ended) ex) i lt)

  -- When `add_prop_monitor` returns, whatever names it has tried: along each execution of the changed system the
  -- monitor is true at the first time, and at each later time it has the value of the property one step before.
  pub add_prop_monitor-delays :
      (fuel : ℕ) (prop : Term) (ts : TransitionSystem Term) {m : Term} {ts' : TransitionSystem Term}
      → add_prop_monitor smt is_used is_right_total fuel prop ts ≡ (ok m, ts')
      → (k : ℕ) (π : ℕ → Model smt) → Execution smt ts' k π
      → (i : ℕ) → i < k
      → (holds smt (π 0) m ≡ true) × (eval (π (suc i)) m ≡ eval (π i) prop)
  unfolding add_prop_monitor
  add_prop_monitor-delays fuel prop ts {m} {ts'} run k π ex i lt =
      let has_next = not (no_next smt ts prop) in
      let define = λ (v : Term). define_monitor smt is_used is_right_total has_next v prop in
      let ran : continue (make_monitor smt is_used is_right_total fuel 0 ts) (λ v t.
        continue (constrain_init smt v t) (λ _ t2. continue (define v t2) (λ _ t3. (ok v, t3))))
          ≡ (ok m, ts') =
        ground arith in
      let (v, ts1, made, rest) =
        continue-eq-ok (make_monitor smt is_used is_right_total fuel 0 ts) _ ran in
      let (n, state) = make_monitor_lem fuel 0 ts {m = v} {ts' = ts1} made in
      watches_after has_next v n prop ts1 {m = m} {ts' = ts'} state rest k π ex i lt
