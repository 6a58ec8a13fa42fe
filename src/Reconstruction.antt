-- ===== src/Reconstruction.antt =====
-- src/reconstruction.rs. `now_ms` is what the clock returns in the call.
pub mod Settle
use v_kernelx.Base.{
  not, ◌||◌, List, [], ◌∷◌, ◌++◌, ℕ, ◌+◌, ◌-◌, Option, none, some, ◌==◌, ltb, if◌then◌else◌, length,
  add64, saturating_add, get_elem?, set,
}
use v_kernelx.Base.Text.{Str, str}
use v_kernelx.Error.{
  KernelXError, dimension_mismatch, settlement_rejected, Result, ok, err, ◌>>=◌, ◌>>◌, fail_if,
}
use v_kernelx.State.{VectorStateV1, ProjectionState, VectorType, VectorStatus}

pub record SettlementOutcome : Type 0 where
  pub outcome_tag : Str
  pub gains : List ℕ
  pub losses : List ℕ

-- `if let Some(slot) = restored.get_mut(index) { .. } else { restored.push(net) }`
unfoldable pub restore_at : ℕ → ℕ → List ℕ → List ℕ
restore_at index net restored = elim (get_elem? restored index) [
  | none ↦ restored ++ (net ∷ [])
  | some slot ↦ set restored index (saturating_add slot net)
]

-- The loop over the zipped principals, gains and losses, from `index` on.
unfoldable pub settle_from :
    ℕ → List ℕ → List ℕ → List ℕ → List ℕ → List ℕ → Result KernelXError (List ℕ × List ℕ)
unfolding restore_at
settle_from index (principal ∷ ps) (gain ∷ gs) (loss ∷ ls) restored settled =
    let after_gain = saturating_add principal gain in
    let net = after_gain - loss in
    let rest =
      settle_from (index + 1) ps gs ls (restore_at index net restored) (settled ++ (net ∷ [])) in
    if ltb after_gain loss
    then err (settlement_rejected (str "loss exceeds projected value"))
    else rest
settle_from index _ _ _ restored settled = ok (restored, settled)

require_projection : Option ProjectionState → Result KernelXError ProjectionState
require_projection none = err (settlement_rejected (str "missing projection"))
require_projection (some p) = ok p

unfoldable pub reconstruct_vector :
    ℕ → VectorStateV1 → SettlementOutcome → Result KernelXError VectorStateV1
unfolding require_projection
reconstruct_vector now_ms state outcome = do
  projection ← require_projection state.projection
  fail_if
      (not (length projection.projected_components == length outcome.gains)
        || not (length projection.projected_components == length outcome.losses))
      dimension_mismatch
  (restored, settled) ←
      settle_from 0 projection.projected_components outcome.gains outcome.losses state.components []
  ok (record state {
    components = restored;
    projection = some (record projection {
      settled_components = settled;
      settlement_at_ms = some now_ms;
      outcome_tag = some outcome.outcome_tag;
    });
    vector_type = VectorType.settlement;
    status = VectorStatus.settled;
    updated_at_ms = now_ms;
    version = add64 state.version 1;
  })
