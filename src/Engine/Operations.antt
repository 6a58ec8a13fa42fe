-- ===== src/Engine/Operations.antt =====
-- src/engine.rs: the methods that change the store. `now i` is what the `i`-th call of `now_ms` on
-- the way through the method returns.
use v_kernelx.Base.{ℕ, true, [], none, some, List, ◌++◌, add64}
use v_kernelx.Base.Text.{Str, str, decimal}
use v_kernelx.Certification.{certify_state}
use v_kernelx.Drain.{apply_drain}
use v_kernelx.Engine.{keep_record, publish, publish_child}
use v_kernelx.Engine.Monad.{Action, pure, lift, or_fail, or_panic, reads, writes, ◌>>=◌, ◌>>◌}
use v_kernelx.Error.{vector_not_found}
use v_kernelx.Event.{OperationType}
use v_kernelx.External.{External, number, string, object, end, field}
use v_kernelx.Origin.{create_origin_vector}
use v_kernelx.Projection.{project_vector}
use v_kernelx.Reconstruction.{SettlementOutcome, reconstruct_vector}
use v_kernelx.Record.{OperationKind, new_record, make_record_id, u128_array, transfer_record}
use v_kernelx.State.{VectorStateV1}
use v_kernelx.Storage.{put_state, get_state}
use v_kernelx.Transfer.{transfer_components}
use v_kernelx.Validation.{validate_state}

-- `self.store.get_state(id)?.ok_or(VectorNotFound)?`
unfoldable pub existing : Str → Action VectorStateV1
existing vector_id = do or_fail vector_not_found (← reads (get_state vector_id))

-- The state with a fresh certification.
unfoldable pub recertified : ℕ → VectorStateV1 → VectorStateV1
recertified now_ms state = record state { certification = certify_state now_ms state true true }

-- `validate_state(&state)?; self.store.put_state(state.clone())?`
unfoldable pub store_valid : VectorStateV1 → Action (Unit {0})
store_valid state = do lift (validate_state state); writes (put_state state)

module _ (ext : External) (now : ℕ → ℕ) where
  unfoldable pub certify : Str → Action VectorStateV1
  certify vector_id = do
    state ← existing vector_id
    let updated = record state {
      certification = (recertified (now 0) state).certification;
      updated_at_ms = now 1;
      version = add64 state.version 1;
    }
    store_valid updated
    keep_record (
        new_record ext (now 2)
          (make_record_id ext (str "certify") vector_id (
            str "version="
            ++ (decimal updated.version
                ++ (str ";auth=" ++ decimal updated.certification.auth_ratio))))
          vector_id (some state) updated OperationKind.certify (object end))
    publish_child ext state updated OperationType.certify updated.updated_at_ms
    pure updated

  unfoldable pub origin_create : Str → Str → Str → List ℕ → Str → ℕ → ℕ → Action VectorStateV1
  origin_create vector_id owner_pubkey space_id components seed nonce difficulty = do
    fresh ← lift (
        create_origin_vector ext (now 0) vector_id owner_pubkey space_id components seed nonce
          difficulty)
    lift (validate_state fresh)
    let state = recertified (now 1) fresh
    store_valid state
    keep_record (
        new_record ext (now 2)
          (make_record_id ext (str "origin") state.vector_id (
            str "difficulty="
            ++ (decimal difficulty ++ (str ";version=" ++ decimal state.version))))
          state.vector_id none state OperationKind.origin_create
          (object (field (str "difficulty") (number (decimal difficulty)) end)))
    publish ext none state OperationType.origin_create state.created_at_ms []
    pure state

  -- The part of `transfer` behind its two writes to the states.
  unfoldable pub record_transfer :
      VectorStateV1
      → VectorStateV1
      → VectorStateV1
      → VectorStateV1
      → List ℕ
      → Action (VectorStateV1 × VectorStateV1)
  record_transfer before_from before_to after_from after_to amount = do
    records ← or_panic (
        transfer_record ext (now 2, now 3, now 4, now 5) before_from before_to after_from after_to
          amount)
    keep_record (record (records.0) { certification = after_from.certification })
    keep_record (record (records.1) { certification = after_to.certification })
    publish_child ext before_from after_from OperationType.transfer (now 6)
    publish_child ext before_to after_to OperationType.transfer (now 7)
    pure (after_from, after_to)

  unfoldable pub transfer : Str → Str → List ℕ → Action (VectorStateV1 × VectorStateV1)
  transfer from_id to_id amount = do
    before_from ← existing from_id
    before_to ← existing to_id
    moved ← lift (transfer_components before_from before_to amount)
    let after_from = recertified (now 0) moved.0
    let after_to = recertified (now 1) moved.1
    lift (validate_state after_from)
    lift (validate_state after_to)
    writes (put_state after_from)
    writes (put_state after_to)
    record_transfer before_from before_to after_from after_to amount

  unfoldable pub drain : Str → ℕ → Action VectorStateV1
  drain vector_id basis_points = do
    before ← existing vector_id
    split ← lift (
        apply_drain before.components basis_points before.certification.auth_ratio
          before.certification.threshold)
    let drained = record before { components = split.1 }
    let state = record drained {
      certification = certify_state (now 0) drained true true;
      updated_at_ms = now 1;
      version = add64 before.version 1;
    }
    store_valid state
    remaining ← or_panic (u128_array ext state.components)
    let record_params = object (
        field (str "basis_points") (number (decimal basis_points))
          (field (str "remaining") remaining end))
    keep_record (
        new_record ext (now 2)
          (make_record_id ext (str "drain") vector_id (ext.value_string record_params)) vector_id
          (some before) state OperationKind.drain record_params)
    publish_child ext before state OperationType.drain state.updated_at_ms
    pure state

  unfoldable pub project : Str → List ℕ → Str → Action VectorStateV1
  project vector_id projected_components escrow_id = do
    before ← existing vector_id
    escrowed ← lift (project_vector (now 0) before projected_components escrow_id)
    let after = recertified (now 1) escrowed
    store_valid after
    components ← or_panic (u128_array ext projected_components)
    let record_params = object (field (str "projected_components") components end)
    keep_record (
        new_record ext (now 2)
          (make_record_id ext (str "project") vector_id (ext.value_string record_params)) vector_id
          (some before) after OperationKind.project record_params)
    publish_child ext before after OperationType.project after.updated_at_ms
    pure after

  unfoldable pub reconstruct : Str → SettlementOutcome → Action VectorStateV1
  reconstruct vector_id outcome = do
    before ← existing vector_id
    settled ← lift (reconstruct_vector (now 0) before outcome)
    let after = recertified (now 1) settled
    store_valid after
    gains ← or_panic (u128_array ext outcome.gains)
    losses ← or_panic (u128_array ext outcome.losses)
    let record_params = object (
        field (str "gains") gains (
          field (str "losses") losses (field (str "outcome_tag") (string outcome.outcome_tag) end)))
    keep_record (
        new_record ext (now 2)
          (make_record_id ext (str "reconstruct") vector_id (ext.value_string record_params))
          vector_id (some before) after OperationKind.reconstruct record_params)
    publish_child ext before after OperationType.reconstruct after.updated_at_ms
    pure after
