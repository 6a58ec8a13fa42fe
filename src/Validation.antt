-- ===== src/Validation.antt =====
-- src/validation.rs
use v_kernelx.Base.{ℕ, List, Bool, false, not, ◌||◌, ◌==◌, length, is_nil, if◌then◌else◌}
use v_kernelx.Base.Text.{Str, str, str_eq, is_blank}
use v_kernelx.Error.{
  KernelXError, dimension_mismatch, invalid_state, Result, ok, err, ◌>>=◌, ◌>>◌, fail_if,
}
use v_kernelx.Event.{OperationType, other, VectorEvent}
use v_kernelx.External.{External}
use v_kernelx.Float.{is_finite, lt_zero, gt_one}
use v_kernelx.Hash.{canonical_payload_hash, canonical_event_hash}
use v_kernelx.Region.{region_create_operation_name, is_region_create_event}
use v_kernelx.Serialization.{canonical_event_payload_bytes}
use v_kernelx.Signature.{verifying_key_from_hex, verify_event_signature}
use v_kernelx.State.{VectorStateV1, ensure_same_shape, validate_canonical_state}
use v_kernelx.Wallet.{verify_signature}

unfoldable pub validate_state : VectorStateV1 → Result KernelXError (Unit {0})
validate_state state = validate_canonical_state state

-- `map_err(KernelXError::InvalidState)`
abbrev pub as_invalid {ℓ} : {A : Type ℓ} → Result Str A → Result KernelXError A
as_invalid (ok a) = ok a
as_invalid (err e) = err (invalid_state e)

-- The operation is `Other(REGION_CREATE_OPERATION_NAME)`.
abbrev pub is_region_create_operation : OperationType → Bool
is_region_create_operation (other name) = str_eq name region_create_operation_name
is_region_create_operation OperationType.query = false
is_region_create_operation _ = false

-- The checks of the fields, before those of the hashes.
unfoldable pub validate_fields : VectorEvent → Result KernelXError (Unit {0})
validate_fields event = do
  fail_if (is_blank event.event_id) (invalid_state (str "event_id is required"))
  fail_if (is_blank event.region_id) (invalid_state (str "region_id is required"))
  fail_if (is_blank event.entity_id) (invalid_state (str "entity_id is required"))
  fail_if (is_blank event.actor_public_key) (invalid_state (str "actor_public_key is required"))
  fail_if (not (is_finite event.auth_ratio) || lt_zero event.auth_ratio || gt_one event.auth_ratio)
      (invalid_state (str "auth_ratio must be in [0, 1]"))
  fail_if (not (length event.vector_before.components == length event.vector_after.components))
      dimension_mismatch

-- The checks of an event that creates a region; its signature is not verified here.
unfoldable pub validate_region_create : VectorEvent → Result KernelXError (Unit {0})
validate_region_create event = do
  fail_if (is_blank event.signature)
      (invalid_state (str "region create event requires a signature"))
  fail_if (not (is_nil event.parent_hashes))
      (invalid_state (str "region create event must be a root event"))
  fail_if (not (is_region_create_operation event.operation))
      (invalid_state (str "region create event has invalid operation tag"))

module _ (ext : External) where
  unfoldable pub validate_hashes : VectorEvent → Result KernelXError (Unit {0})
  validate_hashes event = do
    fail_if (not (str_eq event.payload_hash (canonical_payload_hash ext event)))
        (invalid_state (str "payload_hash mismatch"))
    fail_if (not (str_eq event.event_hash (canonical_event_hash ext event)))
        (invalid_state (str "event_hash mismatch"))

  -- The check of a signature, where there is one.
  unfoldable pub check_signature : VectorEvent → Result KernelXError (Unit {0})
  check_signature event =
      let checked : Result KernelXError (Unit {0}) = (do
        verifying_key ← as_invalid (verifying_key_from_hex ext event.actor_public_key)
        signature_ok ← as_invalid (
            verify_event_signature ext verifying_key (canonical_event_payload_bytes event)
              event.signature)
        fail_if (not signature_ok) (invalid_state (str "event signature verification failed"))) in
      if is_nil event.signature then ok tt else checked

  unfoldable pub validate_event : VectorEvent → Result KernelXError (Unit {0})
  unfolding validate_fields validate_hashes validate_region_create check_signature
  validate_event event = do
    validate_fields event
    validate_hashes event
    if is_region_create_event event then validate_region_create event else check_signature event

  unfoldable pub validate_event_signature : Str → VectorEvent → Result KernelXError (Unit {0})
  validate_event_signature public_key_hex event = do
    verifying_key ← as_invalid (verifying_key_from_hex ext public_key_hex)
    signature_ok ← as_invalid (
        verify_event_signature ext verifying_key (canonical_event_payload_bytes event)
          event.signature)
    fail_if (not signature_ok) (invalid_state (str "event signature verification failed"))

  unfoldable pub validate_signature : Str → List ℕ → Str → Result KernelXError (Unit {0})
  validate_signature public_key_hex message signature_hex =
      verify_signature ext public_key_hex message signature_hex

unfoldable pub validate_dimension_match :
    VectorStateV1 → VectorStateV1 → Result KernelXError (Unit {0})
validate_dimension_match a b = ensure_same_shape a b
