-- ===== src/Projection.antt =====
-- src/projection.rs. `now_ms` is what the clock returns in the call.
pub mod RoundTrip
use v_kernelx.Base.{not, List, [], ℕ, none, some, ◌==◌, length, add64}
use v_kernelx.Base.Text.{Str}
use v_kernelx.Components.{exceeds, sub_all}
use v_kernelx.Error.{
  KernelXError, dimension_mismatch, insufficient_balance, Result, ok, ◌>>=◌, ◌>>◌, fail_if,
}
use v_kernelx.State.{VectorStateV1, VectorType, VectorStatus}

-- The state after an accepted projection.
unfoldable pub escrowed : ℕ → VectorStateV1 → List ℕ → Str → VectorStateV1
escrowed now_ms state projected_components escrow_id = record state {
  components = sub_all state.components projected_components;
  status = VectorStatus.projected;
  vector_type = VectorType.projected;
  projection = some (record {
    escrow_id = escrow_id;
    projected_components = projected_components;
    settled_components = [];
    started_at_ms = now_ms;
    settlement_at_ms = none;
    outcome_tag = none;
  });
  updated_at_ms = now_ms;
  version = add64 state.version 1;
}

unfoldable pub project_vector : ℕ → VectorStateV1 → List ℕ → Str → Result KernelXError VectorStateV1
project_vector now_ms state projected_components escrow_id = do
  fail_if (not (length projected_components == length state.components)) dimension_mismatch
  fail_if (exceeds projected_components state.components) insufficient_balance
  ok (escrowed now_ms state projected_components escrow_id)
