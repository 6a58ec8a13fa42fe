-- ===== src/Ffi/Reading.antt =====
-- src/ffi.rs: the exported functions that leave the engine as it is.
use v_kernelx.Base.{
  ℕ, Bool, true, false, ◌&&◌, length, Option, none, some, List, [], ◌∷◌, if◌then◌else◌,
}
use v_kernelx.Base.Text.{Str, str, decimal}
use v_kernelx.Engine.{query_events}
use v_kernelx.Engine.Metrics.{root_value}
use v_kernelx.Engine.Queries
use v_kernelx.Error.{Result, ok, err}
use v_kernelx.Error
use v_kernelx.Event.{VectorEvent}
use v_kernelx.External.{
  External, Value, bool, number, string, array, object, Items, nil, end, field,
}
use v_kernelx.Ffi.Attempt.{on_inner}
use v_kernelx.Ffi.Entries.{report, or_report, with_handle, guarded, push}
use v_kernelx.Ffi.Events.{validate_event_internal, engine_replay_summary}
use v_kernelx.Ffi.Json.{flag}
use v_kernelx.Ffi.Execution.{singleton}
use v_kernelx.Ffi.Handle.{
  KernelHandle, Ended, returned, stuck, Act, Pointer, CStr, from_c_string, to_c_string, ok_json,
  err_json, set_last_error, clear_last_error, pure, ◌>>=◌, ◌>>◌,
}
use v_kernelx.Ffi.Requests.{
  Serde, SubmitEventRequest, labelled, parse_event, parse_event_list, parse_submit_request,
  canonical_submit_request_bytes, validate_operation_shape,
}
use v_kernelx.Interpreter.Params.{param, as_str}
use v_kernelx.Signature.{verifying_key_from_hex, verify_event_signature}
use v_kernelx.State.Bytes.{compute_state_root}

-- A loop that does not end is `none`.
abbrev ended : {A : Type 0} → Option A → Ended A
ended none = stuck
ended (some a) = returned a

-- `value.get(key).and_then(|v| v.as_str())`, or the message
or_missing : Option Str → Str → Result Str Str
or_missing none e = err e
or_missing (some s) e = ok s

abbrev pub checks : Value → Bool
checks result =
    flag (str "hashes_ok") result
    && (flag (str "dag_ok") result && flag (str "signature_ok") result)

module _ (ext : External) (serde : Serde) where
  printed : Result Str Value → Str
  printed (ok value) = ok_json ext value
  printed (err e) = err_json ext e

  -- A submission: its shape, and then its signature.
  unfoldable pub validate_submission : SubmitEventRequest → Result Str Value
  validate_submission request =
      Error.◌>>=◌ (validate_operation_shape ext serde request.operation request.params) λ _.
        Error.◌>>=◌ (verifying_key_from_hex ext request.actor_public_key) λ verifying_key.
          Error.◌>>=◌ (canonical_submit_request_bytes ext serde request) λ bytes.
            Error.◌>>=◌ (verify_event_signature ext verifying_key bytes request.signature)
              λ signature_ok. ok (
                object (
                  field (str "kind") (string (str "submit_request")) (
                    field (str "operation") (string request.operation) (
                      field (str "request_id") (string request.request_id) (
                        field (str "shape_ok") (bool true)
                          (field (str "signature_ok") (bool signature_ok) end))))))

  -- The loop over a batch: the results, and whether all of them are good.
  unfoldable pub validate_batch : List VectorEvent → Items → Bool → Option (Items × Bool)
  validate_batch [] results all_ok = some (results, all_ok)
  validate_batch (event ∷ events) results all_ok = elim (validate_event_internal ext event) [
    | none ↦ none
    | some (ok result) ↦ validate_batch events (push result results) (all_ok && checks result)
    | some (err e) ↦
        validate_batch events
          (push
            (object (
              field (str "error") (string e) (
                field (str "event_id") (string event.event_id)
                  (field (str "ok") (bool false) end))))
            results)
          false
  ]

  batch_report : ℕ → Option (Items × Bool) → Ended Str
  batch_report count none = stuck
  batch_report count (some (results, all_ok)) = returned (
      ok_json ext (
        object (
          field (str "all_ok") (bool all_ok) (
            field (str "count") (number (decimal count)) (
              field (str "kind") (string (str "event_batch"))
                (field (str "results") (array results) end))))))

  single_report : Option (Result Str Value) → Ended Str
  single_report none = stuck
  single_report (some r) = returned (printed r)

  validate_single : Result Str VectorEvent → Ended Str
  validate_single (err e) = returned (err_json ext e)
  validate_single (ok event) = single_report (validate_event_internal ext event)

  validate_events : Str → Result Str (List VectorEvent) → Ended Str
  validate_events input (ok events) = batch_report (length events) (validate_batch events nil true)
  validate_events input (err e) = validate_single (parse_event ext serde input)

  validate_input : Str → Result Str SubmitEventRequest → Ended Str
  validate_input input (ok request) = returned (printed (validate_submission request))
  validate_input input (err e) = validate_events input (parse_event_list ext serde input)

  validate_text : Result Str Str → Ended Str
  validate_text (err e) = returned (err_json ext e)
  validate_text (ok input) = validate_input input (parse_submit_request ext serde input)

  unfoldable pub kernel_validate_event : CStr → Ended Str
  unfolding printed batch_report single_report validate_single validate_events validate_input
      validate_text
  kernel_validate_event input_json = validate_text (from_c_string serde.utf8_error input_json)

  -- `kernel_replay`
  unfoldable pub replay_answer : Result Str Value → Act KernelHandle Str
  replay_answer (ok result) = clear_last_error >> pure (to_c_string (ext.value_string result))
  replay_answer (err e) =
      set_last_error e
      >> pure (
          to_c_string (
            ext.value_string (
              object (
                field (str "applied_event_hashes") (array nil) (
                  field (str "error") (string e) (
                    field (str "event_count") (number (decimal 0)) (
                      field (str "final_state") (object end) (
                        field (str "heads") (array nil) (
                          field (str "latest_clock") (number (decimal 0)) (
                            field (str "replay_hash") (string (str "")) (
                              field (str "state_root")
                                (root_value (compute_state_root ext.blake3_hex [] 0))
                                (field (str "verified") (bool false) end))))))))))))

  unfoldable pub kernel_replay : Pointer → Ended Str × Pointer
  kernel_replay =
      with_handle ext (guarded ext (on_inner (engine_replay_summary ext serde) >>= replay_answer))

  -- `match serde_json::from_str::<VectorEvent>(&input) { Err(_) => .. }`
  record_value : Str → Option Value → Result Str VectorEvent
  record_value input none = err (str "record JSON did not contain a VectorEvent or record field")
  record_value input (some raw) =
      labelled (str "record inner parse error: ") (serde.event.of_value raw)

  parsed_record : Str → Result Str VectorEvent → Result Str VectorEvent
  parsed_record input (ok event) = ok event
  parsed_record input (err _) =
      Error.◌>>=◌ (labelled (str "record parse error: ") (ext.parse_json input))
        λ value. record_value input (param (str "record") value)

  unfoldable pub parse_record : Str → Result Str VectorEvent
  unfolding record_value parsed_record
  parse_record input = parsed_record input (parse_event ext serde input)

  unfoldable pub record_answer : Result Str Value → Act KernelHandle Str
  record_answer (err e) = report ext e
  record_answer (ok result) =
      if checks result
      then (clear_last_error >> pure (ok_json ext (singleton (str "verified") (bool true))))
      else report ext (str "record verification failed")

  unfoldable pub kernel_verify_record : CStr → Pointer → Ended Str × Pointer
  kernel_verify_record input_json = with_handle ext (
      or_report ext (from_c_string serde.utf8_error input_json) λ input.
        or_report ext (parse_record input)
          λ event. ((λ h. (ended (validate_event_internal ext event), h)) >>= record_answer))

  unfoldable pub kernel_verify_signature : CStr → Str
  unfolding printed or_missing
  kernel_verify_signature input_json = printed (
      Error.◌>>=◌ (from_c_string serde.utf8_error input_json) λ input.
        Error.◌>>=◌ (labelled (str "signature input parse error: ") (ext.parse_json input)) λ value.
          Error.◌>>=◌
            (or_missing (as_str (param (str "public_key") value)) (str "missing public_key"))
            λ public_key.
              Error.◌>>=◌
                (or_missing (as_str (param (str "payload") value)) (str "missing payload"))
                λ payload.
                  Error.◌>>=◌
                    (or_missing (as_str (param (str "signature") value)) (str "missing signature"))
                    λ signature. Error.◌>>=◌ (verifying_key_from_hex ext public_key) λ vk.
                      Error.◌>>=◌ (verify_event_signature ext vk payload signature)
                        λ verified. ok (singleton (str "verified") (bool verified)))

  -- The store of `MemoryStore` does not fail, so that the branches for an error are not reached.
  unfoldable pub kernel_compute_state_root : Pointer → Ended Str × Pointer
  kernel_compute_state_root = with_handle ext (
      guarded ext λ h.
        let root = Queries.current_state_root ext h.inner.engine.store in
        (
          returned (
              to_c_string (
                ext.value_string (
                  object (
                    field (str "event_count")
                      (number (decimal (length (query_events h.inner.engine.store))))
                      (field (str "logical_clock") (number (decimal root.logical_clock)) (
                        field (str "ok") (bool true)
                          (field (str "state_root") (root_value root) end))))))),
          h,
        ))

  abbrev pub kernel_current_state_root : Pointer → Ended Str × Pointer
  kernel_current_state_root = kernel_compute_state_root
