-- ===== src/Ffi/Lookups.antt =====
-- src/ffi.rs: the exported queries, which leave the engine as it is.
use v_kernelx.Base.{false, Option, none, some}
use v_kernelx.Base.Text.{Str, str}
use v_kernelx.Engine.Queries
use v_kernelx.External.{External, Value, bool}
use v_kernelx.Ffi.Entries.{with_handle, guarded, with_request}
use v_kernelx.Ffi.Execution.{singleton}
use v_kernelx.Ffi.Handle.{
  KernelHandle, Ended, Act, Pointer, CStr, ok_json, clear_last_error, pure, or_abort, ◌>>=◌, ◌>>◌,
}
use v_kernelx.Ffi.Requests.{Serde}

module _ (ext : External) (serde : Serde) where
  -- `clear_last_error(handle); ok_json(json!({ key: value }))`
  unfoldable pub cleared_with : Str → Option Value → Act KernelHandle Str
  cleared_with key value =
      clear_last_error >> (or_abort value >>= λ v. pure (ok_json ext (singleton key v)))

  -- `Ok(Some(a))`, or `Ok(None)`
  unfoldable pub found_or_not :
      {A : Type 0} → Str → (A → Option Value) → Option A → Act KernelHandle Str
  found_or_not key to_value (some a) = cleared_with key (to_value a)
  found_or_not key to_value none = cleared_with (str "found") (some (bool false))

  unfoldable pub kernel_query_vector : CStr → Pointer → Ended Str × Pointer
  kernel_query_vector input_json = with_handle ext (
      with_request ext serde serde.query_vector_request (str "query_vector parse error: ")
        input_json
        λ request. guarded ext λ h.
          found_or_not (str "vector") serde.state_value
            (Queries.query_vector request.vector_id h.inner.engine.store) h)

  unfoldable pub kernel_query_vectors : CStr → Pointer → Ended Str × Pointer
  kernel_query_vectors input_json = with_handle ext (
      guarded ext λ h.
        cleared_with (str "vectors")
          (serde.states_value (Queries.query_vectors h.inner.engine.store)) h)

  unfoldable pub kernel_query_records : CStr → Pointer → Ended Str × Pointer
  kernel_query_records input_json = with_handle ext (
      guarded ext λ h.
        cleared_with (str "records")
          (serde.records_value (Queries.query_records h.inner.engine.store)) h)

  unfoldable pub kernel_query_event_by_hash : CStr → Pointer → Ended Str × Pointer
  kernel_query_event_by_hash input_json = with_handle ext (
      with_request ext serde serde.query_event_by_hash_request
        (str "query_event_by_hash parse error: ") input_json
        λ request. guarded ext λ h.
          found_or_not (str "event") serde.event_value
            (Queries.query_event_by_hash request.event_hash h.inner.engine.store) h)
