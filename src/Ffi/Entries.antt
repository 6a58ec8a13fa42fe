-- ===== src/Ffi/Entries.antt =====
-- src/ffi.rs: the exported functions that change the engine. The clock is read as in the engine.
use v_kernelx.Base.{ℕ, suc, true, none, some, List, [], ◌∷◌}
use v_kernelx.Base.Text.{Str, str}
use v_kernelx.Error.{Result, ok, err}
use v_kernelx.External.{External, Value, array, object, Items, nil, cons, end, field}
use v_kernelx.Ffi.Attempt.{on_inner}
use v_kernelx.Ffi.Execution.{
  execute_origin_create, execute_transfer, execute_drain, execute_project, execute_reconstruct,
  execute_certify, execute_submit_request,
}
use v_kernelx.Ffi.Handle.{
  KernelHandle, Ended, returned, Act, Pointer, CStr, from_c_string, ok_json, err_json,
  set_last_error, clear_last_error, under_lock, pure, ◌>>=◌, ◌>>◌,
}
use v_kernelx.Ffi.Requests.{
  Serde, Deserialize, SubmitEventRequest, labelled, parse_submit_request, parse_submit_request_list,
}

-- `results.push(v)`
unfoldable pub push : Value → Items → Items
push v nil = cons v nil
push v (cons w results) = cons w (push v results)

module _ (ext : External) where
  -- `set_last_error(handle, e.clone()); return err_json(e)`
  unfoldable pub report : Str → Act KernelHandle Str
  report e = do set_last_error e; pure (err_json ext e)

  -- `match r { Ok(v) => v, Err(e) => .. }`
  abbrev pub or_report :
      {A : Type 0} → Result Str A → (A → Act KernelHandle Str) → Act KernelHandle Str
  or_report (ok a) k = k a
  or_report (err e) k = report e

  -- The end of an operation: the last error is cleared or set, and the result is printed.
  abbrev pub answer : Result Str Value → Act KernelHandle Str
  answer (ok result) = clear_last_error >> pure (ok_json ext result)
  answer (err e) = report e

  -- The first lines of every function: a null handle is refused.
  abbrev pub with_handle : Act KernelHandle Str → Pointer → Ended Str × Pointer
  with_handle body none = (returned (err_json ext (str "kernel handle is null")), none)
  with_handle body (some h) = let (r, h') = body h in (r, some h')

  -- A body under the guard. The guard of a poisoned lock lives to the end of the `match`, past the
  -- call of `set_last_error`.
  unfoldable pub guarded : Act KernelHandle Str → Act KernelHandle Str
  guarded body =
      under_lock body (λ h. report (str "kernel state lock poisoned") (record h { held = true }))

  module _ (serde : Serde) where
    -- The text that comes in, and what `serde` reads of it.
    unfoldable pub with_request :
        {T : Type 0}
        → Deserialize T
        → Str
        → CStr
        → (T → Act KernelHandle Str)
        → Act KernelHandle Str
    with_request codec label input_json k =
        or_report (from_c_string serde.utf8_error input_json)
          λ input. or_report (labelled label (codec.of_text input)) k

    module _ (now : ℕ → ℕ) where
      unfoldable pub kernel_origin_create : CStr → Pointer → Ended Str × Pointer
      kernel_origin_create input_json = with_handle (
          with_request serde.origin_create_request (str "origin_create parse error: ") input_json
            λ params. guarded (on_inner (execute_origin_create ext serde now params) >>= answer))

      unfoldable pub kernel_transfer : CStr → Pointer → Ended Str × Pointer
      kernel_transfer input_json = with_handle (
          with_request serde.transfer_request (str "transfer parse error: ") input_json
            λ params. guarded (on_inner (execute_transfer ext serde now params) >>= answer))

      unfoldable pub kernel_drain : CStr → Pointer → Ended Str × Pointer
      kernel_drain input_json = with_handle (
          with_request serde.drain_request (str "drain parse error: ") input_json
            λ params. guarded (on_inner (execute_drain ext serde now params) >>= answer))

      unfoldable pub kernel_project : CStr → Pointer → Ended Str × Pointer
      kernel_project input_json = with_handle (
          with_request serde.project_request (str "project parse error: ") input_json
            λ params. guarded (on_inner (execute_project ext serde now params) >>= answer))

      unfoldable pub kernel_reconstruct : CStr → Pointer → Ended Str × Pointer
      kernel_reconstruct input_json = with_handle (
          with_request serde.reconstruct_request (str "reconstruct parse error: ") input_json
            λ params. guarded (on_inner (execute_reconstruct ext serde now params) >>= answer))

      unfoldable pub kernel_certify : CStr → Pointer → Ended Str × Pointer
      kernel_certify input_json = with_handle (
          with_request serde.certify_request (str "certify parse error: ") input_json
            λ params. guarded (on_inner (execute_certify ext serde now params) >>= answer))

      -- `match execute_submit_request(handle, request) { .. }`
      abbrev pub printed : Result Str Value → Act KernelHandle Str
      printed (ok result) = pure (ok_json ext result)
      printed (err e) = report e

      unfoldable pub kernel_submit_event : CStr → Pointer → Ended Str × Pointer
      kernel_submit_event input_json = with_handle (
          or_report (from_c_string serde.utf8_error input_json) λ input.
            or_report (parse_submit_request ext serde input)
              λ request. (execute_submit_request ext serde now request >>= printed))

    -- The loop over the requests; the clock goes on from request to request.
    unfoldable pub execute_requests :
        (ℕ → ℕ → ℕ) → List SubmitEventRequest → Items → Act KernelHandle Str
    execute_requests now [] results =
        clear_last_error >> pure (ok_json ext (object (field (str "results") (array results) end)))
    execute_requests now (request ∷ requests) results =
        execute_submit_request ext serde (now 0) request >>= λ r.
        or_report r (λ v. execute_requests (λ i. now (suc i)) requests (push v results))

    unfoldable pub kernel_execute_operation : (ℕ → ℕ → ℕ) → CStr → Pointer → Ended Str × Pointer
    kernel_execute_operation now input_json = with_handle (
        or_report (from_c_string serde.utf8_error input_json) λ input.
          or_report (parse_submit_request_list ext serde input)
            λ requests. execute_requests now requests nil)
