-- ===== src/Ffi/Execution.antt =====
-- src/ffi.rs: an operation on the engine with the events that it adds, and a submission of one.
pub mod Steps
use v_kernelx.Base.{
  ℕ, Bool, true, false, is_nil, length, Option, none, some, List, [], ◌∷◌, ◌++◌, if◌then◌else◌,
}
use v_kernelx.Base.Text.{Str, str, str_eq, decimal}
use v_kernelx.Base.Map.{Map, insert}
use v_kernelx.Engine.Monad.{Action}
use v_kernelx.Engine.Operations
use v_kernelx.Error.{Result, ok, err, fail_if}
use v_kernelx.Event.{VectorEvent}
use v_kernelx.External.{External, Value, bool, number, string, object, end, field}
use v_kernelx.Ffi.Attempt.{
  Attempt, pure, attempt, or_abort, inspect, on_engine, on_inner, ◌>>=◌, ◌>>◌,
}
use v_kernelx.Ffi.Events.{engine_events, engine_replay_summary, collect_new_events}
use v_kernelx.Ffi.Json.{entry}
use v_kernelx.Ffi.Handle
use v_kernelx.Ffi.Handle.{KernelInner, KernelHandle, returned, stuck}
use v_kernelx.Ffi.Requests.{
  Serde, SubmitEventRequest, OriginCreateRequest, TransferRequest, DrainRequest, ProjectRequest,
  ReconstructRequest, CertifyRequest, operation_name, is_origin_create, parse_request_payload,
  validate_submit_request,
}
use v_kernelx.Interpreter.Params.{param_u64}
use v_kernelx.State.{VectorStateV1}

-- The JSON object of one entry.
abbrev pub singleton : Str → Value → Value
singleton key v = object (field key v end)

-- `inner.seen_request_ids.insert(..)`
unfoldable pub mark_seen : Str → Attempt KernelInner (Unit {0})
mark_seen request_id inner = (
  returned (ok tt),
  record inner { seen_request_ids = insert request_id tt inner.seen_request_ids },
)

module _ (ext : External) (serde : Serde) where
  -- The new events, and the replay with them.
  unfoldable pub collected : Str → KernelInner → Value → KernelInner → Attempt KernelInner Value
  collected operation before operation_result after = do
    let new_events = collect_new_events (engine_events before) (engine_events after)
    attempt (
        fail_if (is_nil new_events)
          (operation ++ str " completed without emitting a canonical event"))
    replay ← engine_replay_summary ext serde
    records ← or_abort (serde.events_value new_events)
    pure (
        object (
          field (str "accepted") (bool true) (
            field (str "event_count") (number (decimal (length (engine_events after)))) (
              field (str "latest_clock")
                (number (decimal (param_u64 replay (str "latest_clock") 0)))
                (field (str "operation") (string operation) (
                  field (str "records") records
                    (field (str "replay") replay (field (str "result") operation_result end))))))))

  unfoldable pub execute_and_collect : Str → Attempt KernelInner Value → Attempt KernelInner Value
  execute_and_collect operation f =
      inspect
        λ before. do operation_result ← f; inspect (collected operation before operation_result)

  -- The closures: a method of the engine, and its state in JSON.
  unfoldable pub state_of : Action VectorStateV1 → Attempt KernelInner Value
  state_of m = do
    state ← on_engine m
    value ← or_abort (serde.state_value state)
    pure (singleton (str "state") value)

  unfoldable pub states_of : Action (VectorStateV1 × VectorStateV1) → Attempt KernelInner Value
  states_of m = do
    states ← on_engine m
    from_state ← or_abort (serde.state_value (states.0))
    to_state ← or_abort (serde.state_value (states.1))
    pure (object (field (str "from_state") from_state (field (str "to_state") to_state end)))

  module _ (now : ℕ → ℕ) where
    unfoldable pub execute_origin_create : OriginCreateRequest → Attempt KernelInner Value
    execute_origin_create params = execute_and_collect (str "origin_create") (
        state_of (
          Operations.origin_create ext now params.vector_id params.owner_pubkey params.space_id
            params.components params.seed params.nonce params.difficulty))

    unfoldable pub execute_transfer : TransferRequest → Attempt KernelInner Value
    execute_transfer params =
        execute_and_collect (str "transfer")
          (states_of (Operations.transfer ext now params.from_id params.to_id params.amount))

    unfoldable pub execute_drain : DrainRequest → Attempt KernelInner Value
    execute_drain params =
        execute_and_collect (str "drain")
          (state_of (Operations.drain ext now params.vector_id params.basis_points))

    unfoldable pub execute_project : ProjectRequest → Attempt KernelInner Value
    execute_project params = execute_and_collect (str "project") (
        state_of (
          Operations.project ext now params.vector_id params.projected_components params.escrow_id))

    unfoldable pub execute_reconstruct : ReconstructRequest → Attempt KernelInner Value
    execute_reconstruct params = execute_and_collect (str "reconstruct") (
        state_of (
          Operations.reconstruct ext now params.vector_id (record {
            outcome_tag = params.outcome_tag;
            gains = params.gains;
            losses = params.losses;
          })))

    unfoldable pub execute_certify : CertifyRequest → Attempt KernelInner Value
    execute_certify params =
        execute_and_collect (str "certify") (state_of (Operations.certify ext now params.vector_id))

    -- The match on the operation's name.
    unfoldable pub execute_named : Str → Value → Attempt KernelInner Value
    execute_named name params =
        if is_origin_create name
        then (do
          p ←
              attempt
                (parse_request_payload serde.origin_create_request params (str "origin_create"))
          execute_origin_create p)
        else if str_eq name (str "transfer")
        then (do
          p ← attempt (parse_request_payload serde.transfer_request params (str "transfer"))
          execute_transfer p)
        else if str_eq name (str "drain")
        then (do
          p ← attempt (parse_request_payload serde.drain_request params (str "drain"))
          execute_drain p)
        else if str_eq name (str "project")
        then (do
          p ← attempt (parse_request_payload serde.project_request params (str "project"))
          execute_project p)
        else if str_eq name (str "reconstruct")
        then (do
          p ← attempt (parse_request_payload serde.reconstruct_request params (str "reconstruct"))
          execute_reconstruct p)
        else if str_eq name (str "certify")
        then (do
          p ← attempt (parse_request_payload serde.certify_request params (str "certify"))
          execute_certify p)
        else attempt (err (str "unsupported operation: " ++ name))

    -- What is done to `inner` before the last error is cleared.
    unfoldable pub execute_validated : SubmitEventRequest → Attempt KernelInner Value
    execute_validated request = do
      inspect λ inner. attempt (validate_submit_request ext serde inner request)
      result ← execute_named (operation_name request.operation) request.params
      mark_seen request.request_id
      pure result

    -- `clear_last_error(handle)`
    abbrev pub cleared : Attempt KernelHandle (Unit {0})
    cleared = Handle.◌>>=◌ Handle.clear_last_error λ u. Handle.pure (ok u)

    -- What is done once the operation has gone through.
    unfoldable pub acknowledge : SubmitEventRequest → Value → Attempt KernelHandle Value
    acknowledge request result = do
      cleared
      validation ←
          on_inner (inspect λ inner. attempt (validate_submit_request ext serde inner request))
      pure (
          object (
            field (str "accepted") (bool true) (
              field (str "event_count") (entry (str "event_count") result) (
                field (str "latest_clock") (entry (str "latest_clock") result) (
                  field (str "operation") (string request.operation) (
                    field (str "records") (entry (str "records") result) (
                      field (str "replay") (entry (str "replay") result) (
                        field (str "request_id") (string request.request_id) (
                          field (str "request_validation") validation
                            (field (str "result") (entry (str "result") result) end))))))))))

    unfoldable pub submitted : SubmitEventRequest → Attempt KernelHandle Value
    submitted request = do result ← on_inner (execute_validated request); acknowledge request result

    -- `execute_submit_request`, on a handle that is not null; `map_err` drops the guard of a poisoned
    -- lock.
    unfoldable pub execute_submit_request : SubmitEventRequest → Attempt KernelHandle Value
    execute_submit_request request =
        Handle.under_lock (submitted request) (attempt (err (str "kernel state lock poisoned")))
