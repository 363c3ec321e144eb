-- ===== src/Modifiers/History/Links.antt =====
-- The equations that define the history variables, as a chain from the target on.
use pono.Base.{
  suc, ◌≡◌, inl, inr, refl, arith, true, List, [], ◌∷◌, ◌++◌, Eq, lookup, length, Bool-cases, some,
  ok, M, nat_beq, if◌then◌else◌,
}
use pono.Smt.{Smt}
use pono.Smt.Laws.{SmtLaws, Model, holds}
use pono.Ts.{TransitionSystem}
use pono.Ts.Symbols.{next}
use pono.Ts.Growth.{IsGrown, IsState, IsState-grown, assign_next_lem, constrain_trans_lem}
use pono.Modifiers.History.{History, in_ts, back, hists_of, define_first, define_later}

-- an operation of the system that returns
pub in_ts-eq-ok :
    {Term B : Type 0} (m : M (TransitionSystem Term) B) (s : History Term) {b : B}
    {s' : History Term}
    → in_ts m s ≡ (ok b, s')
    → (m s.ts ≡ (ok b, s'.ts)) × (s'.hist_vars ≡ s.hist_vars)
in_ts-eq-ok m s h = ground arith

module _ {Term : Type 0} ⦃e : Eq Term⦄ (smt : Smt Term) (laws : SmtLaws smt) where
  open smt use {eval, make_equal}

  -- each variable of the list takes the value of the one before it, the first that of `prev`
  unfoldable pub Chain : TransitionSystem Term → Model smt → Term → List Term → Type 0
  Chain ts σ prev [] = Unit
  Chain ts σ prev (h ∷ hs) =
      ((n : Term) × IsState smt ts h n × (eval σ n ≡ eval σ prev)) × Chain ts σ h hs

  -- the variable before a new one
  abbrev pub last : Term → List Term → Term
  last prev [] = prev
  last prev (h ∷ hs) = last h hs

  Chain-grown :
      {ts ts' : TransitionSystem Term} (σ : Model smt) (prev : Term) (hs : List Term)
      → IsGrown smt ts ts'
      → Chain ts σ prev hs
      → Chain ts' σ prev hs
  unfolding Chain
  Chain-grown σ prev [] g c = tt
  Chain-grown σ prev (h ∷ hs) g ((n, state, eq), c) =
      ((n, IsState-grown smt g state, eq), Chain-grown σ h hs g c)

  pub Chain-snoc :
      {ts : TransitionSystem Term} (σ : Model smt) (prev : Term) (hs : List Term) (v n : Term)
      → Chain ts σ prev hs
      → IsState smt ts v n
      → eval σ n ≡ eval σ (last prev hs)
      → Chain ts σ prev (hs ++ v ∷ [])
  unfolding Chain
  Chain-snoc σ prev [] v n c state eq = ((n, state, eq), tt)
  Chain-snoc σ prev (h ∷ hs) v n (first, c) state eq = (first, Chain-snoc σ h hs v n c state eq)

  -- the equations of the history variables hold in every step of the system
  unfoldable pub IsHistory : History Term → Type 0
  IsHistory s =
      (target : Term) (σ : Model smt)
      → holds smt σ s.ts.trans ≡ true
      → Chain s.ts σ target (hists_of smt target s)

  pub IsHistory-grown :
      (s s' : History Term)
      → IsGrown smt s.ts s'.ts
      → s'.hist_vars ≡ s.hist_vars
      → IsHistory s
      → IsHistory s'
  unfolding IsHistory
  IsHistory-grown s s' g same k target σ step = rw same (
      Chain-grown {ts = s.ts} {ts' = s'.ts} σ target (hists_of smt target s) g
        (k target σ (g.steps σ step)))

  -- the equation that `define_first` or `define_later` adds
  unfoldable pub Defined : TransitionSystem Term → Term → Term → Type 0
  Defined ts n prev = (σ : Model smt) → holds smt σ ts.trans ≡ true → eval σ n ≡ eval σ prev

  define_first_lem :
      (v n target : Term) (ts : TransitionSystem Term) {ts' : TransitionSystem Term}
      → lookup v ts.next_map ≡ some n
      → define_first smt v target ts ≡ (ok tt, ts')
      → IsGrown smt ts ts' × Defined ts' n target
  unfolding define_first Defined next
  define_first_lem v n target ts {ts'} at h =
      elim (Bool-cases (pono.Ts.Symbols.no_next smt ts target)) [
        | inl plain ↦ assign_next_lem smt laws v n target ts {ts' = ts'} at (ground arith)
        | inr other ↦ elim (Bool-cases ts.functional) [
          | inl functional ↦ absurd (ground arith)
          | inr relational ↦
              let (g, c) =
                constrain_trans_lem smt laws (make_equal n target) ts {ts' = ts'} (ground arith) in
              (g, λ σ s. (laws.holds-equal σ n target).0 (c σ s))
        ]
      ]

  back-last : (prev h : Term) (hs : List Term) → back (h ∷ hs) ≡ some (last prev (h ∷ hs))
  back-last prev h [] = refl
  back-last prev h (h' ∷ hs) = back-last h h' hs

  define_later_lem :
      (v n target h : Term) (hs : List Term) (ts : TransitionSystem Term)
      {ts' : TransitionSystem Term}
      → lookup v ts.next_map ≡ some n
      → define_later smt v (h ∷ hs) ts ≡ (ok tt, ts')
      → IsGrown smt ts ts' × Defined ts' n (last target (h ∷ hs))
  unfolding define_later Defined
  define_later_lem v n target h hs ts {ts'} at run =
      assign_next_lem smt laws v n (last target (h ∷ hs)) ts {ts' = ts'} at
        (ground (arith, back-last target h hs))

  -- one of the two definitions, by the variables that there are
  pub defined :
      (v n target : Term) (hs : List Term) (ts : TransitionSystem Term)
      {ts' : TransitionSystem Term}
      → lookup v ts.next_map ≡ some n
      → (if nat_beq (suc (length hs)) 1 then define_first smt v target else define_later smt v hs)
          ts
        ≡ (ok tt, ts')
      → IsGrown smt ts ts' × Defined ts' n (last target hs)
  defined v n target [] ts {ts'} at run = define_first_lem v n target ts {ts' = ts'} at run
  defined v n target (h ∷ hs) ts {ts'} at run =
      define_later_lem v n target h hs ts {ts' = ts'} at (ground arith)
