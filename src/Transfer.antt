-- ===== src/Transfer.antt =====
-- src/transfer.rs, `transfer_components`; `transfer_record` is in Record.
pub mod Conservation
use v_kernelx.Base.{not, List, ℕ, ◌==◌, length}
use v_kernelx.Components.{exceeds, sub_all, add_all}
use v_kernelx.Error.{
  KernelXError, dimension_mismatch, insufficient_balance, Result, ok, ◌>>=◌, ◌>>◌, fail_if,
}
use v_kernelx.State.{VectorStateV1, VectorType, ensure_same_shape}

-- The sender and the receiver of an accepted transfer.
unfoldable pub sent : VectorStateV1 → List ℕ → VectorStateV1
sent from amount = record from {
  components = sub_all from.components amount;
  vector_type = VectorType.standard;
}

unfoldable pub received : VectorStateV1 → List ℕ → VectorStateV1
received to amount = record to {
  components = add_all to.components amount;
  vector_type = VectorType.standard;
}

unfoldable pub transfer_components :
    VectorStateV1 → VectorStateV1 → List ℕ → Result KernelXError (VectorStateV1 × VectorStateV1)
unfolding ensure_same_shape
transfer_components from to amount = do
  ensure_same_shape from to
  fail_if (not (length from.components == length amount)) dimension_mismatch
  fail_if (exceeds amount from.components) insufficient_balance
  ok (sent from amount, received to amount)
