-- ===== src/Modifiers/ModTsProp/Assumed.antt =====
-- What a system says after a property is assumed in its relation.
use pono.Base.{◌≡◌, arith, false, ◌&&◌, Eq, ok}
use pono.Smt.{Smt}
use pono.Smt.Laws.{SmtLaws, Model, holds}
use pono.Ts.{TransitionSystem}
use pono.Ts.Define.{add_constraint}
use pono.Ts.Define.Meaning.{IsRenaming, add_constraint-trans}
use pono.Modifiers.ModTsProp.{prop_in_trans}

module _ {Term : Type 0} ⦃e : Eq Term⦄ (smt : Smt Term) (laws : SmtLaws smt) where
  -- When `prop_in_trans` returns, on a system whose renaming has symbols for keys: the steps are those of the system
  -- before whose first state satisfies the property, and the initial states are unchanged.
  pub prop_in_trans_lem :
      (prop : Term) (ts : TransitionSystem Term) {ts' : TransitionSystem Term}
      → IsRenaming smt ts.next_map
      → prop_in_trans smt prop ts ≡ (ok tt, ts')
      → (σ : Model smt)
      → (holds smt σ ts'.trans ≡ (holds smt σ ts.trans && holds smt σ prop))
        × (holds smt σ ts'.init ≡ holds smt σ ts.init)
  unfolding prop_in_trans add_constraint
  prop_in_trans_lem prop ts {ts'} r h σ =
      let means = add_constraint-trans smt laws prop false ts {ts' = ts'} r h σ in
      (ground (arith, means), ground arith)
