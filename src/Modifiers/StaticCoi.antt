-- ===== src/Modifiers/StaticCoi.antt =====
-- modifiers/static_coi.h and modifiers/static_coi.cpp: the reduction of a system to the cone of influence of
-- the terms to keep. The log and the asserts are left out.
pub mod Lift
pub mod Traces
use pono.Base.{List, Eq, Result, ok, err, M, continue}
use pono.Smt.{Smt}
use pono.Ts.{TransitionSystem}
use pono.Ts.Rebuild.{rebuild_trans_based_on_coi}
use pono.Utils.Fcoi.{Coi, make_coi, compute_coi}

module _ {Term : Type 0} ⦃e : Eq Term⦄ (smt : Smt Term) where
  -- the constructor of `StaticConeOfInfluence`, which changes the system, with its member `coi_`
  unfoldable pub static_coi : List Term → M (TransitionSystem Term) (Coi Term)
  static_coi to_keep ts = elim (make_coi ts) as (λ _. Result (Coi Term) × TransitionSystem Term) [
    | err x ↦ (err x, ts)
    | ok empty ↦
        elim (compute_coi smt ts to_keep empty)
          as (λ _. Result (Coi Term) × TransitionSystem Term) [
            | err x ↦ (err x, ts)
            | ok coi ↦
                continue
                  (rebuild_trans_based_on_coi smt coi.statevars_in_coi coi.inputvars_in_coi ts)
                  (λ _ ts'. (ok coi, ts'))
          ]
  ]
