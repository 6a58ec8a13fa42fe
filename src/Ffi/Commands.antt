-- ===== src/Ffi/Commands.antt =====
-- src/ffi.rs: which methods of the engine a call of a C function is to call, and with what arguments.
use v_kernelx.Base.{ℕ, some, List, [], ◌∷◌, ◌++◌, if◌then◌else◌}
use v_kernelx.Base.Text.{Str, str, str_eq}
use v_kernelx.Engine.Induction.{
  Command, certify_call, origin_create_call, transfer_call, drain_call, project_call,
  reconstruct_call,
}
use v_kernelx.External.{External, Value}
use v_kernelx.Ffi.Calls.{Call, dispatch}
use v_kernelx.Ffi.Handle.{KernelInner, KernelHandle, Ended, returned, Pointer, CStr, from_c_string}
use v_kernelx.Ffi.Requests.{
  Serde, Deserialize, SubmitEventRequest, OriginCreateRequest, TransferRequest, DrainRequest,
  ProjectRequest, ReconstructRequest, CertifyRequest, operation_name, is_origin_create,
  parse_submit_request, parse_submit_request_list, validate_submit_request,
}
use v_kernelx.Ffi.Steps.{locked, from_result}

-- The method that a request stands for.
abbrev pub origin_create_of : (ℕ → ℕ) → OriginCreateRequest → List Command
origin_create_of now r =
    origin_create_call now r.vector_id r.owner_pubkey r.space_id r.components r.seed r.nonce
      r.difficulty
    ∷ []

abbrev pub transfer_of : (ℕ → ℕ) → TransferRequest → List Command
transfer_of now r = transfer_call now r.from_id r.to_id r.amount ∷ []

abbrev pub drain_of : (ℕ → ℕ) → DrainRequest → List Command
drain_of now r = drain_call now r.vector_id r.basis_points ∷ []

abbrev pub project_of : (ℕ → ℕ) → ProjectRequest → List Command
project_of now r = project_call now r.vector_id r.projected_components r.escrow_id ∷ []

abbrev pub reconstruct_of : (ℕ → ℕ) → ReconstructRequest → List Command
reconstruct_of now r =
    reconstruct_call now r.vector_id
      (record { outcome_tag = r.outcome_tag; gains = r.gains; losses = r.losses })
    ∷ []

abbrev pub certify_of : (ℕ → ℕ) → CertifyRequest → List Command
certify_of now r = certify_call now r.vector_id ∷ []

module _ (ext : External) (serde : Serde) where
  -- The parameters of a submission, by the name of its operation.
  unfoldable pub named_commands : (ℕ → ℕ) → Str → Value → List Command
  named_commands now name params =
      if is_origin_create name
      then from_result (serde.origin_create_request.of_value params) (origin_create_of now)
      else if str_eq name (str "transfer")
      then from_result (serde.transfer_request.of_value params) (transfer_of now)
      else if str_eq name (str "drain")
      then from_result (serde.drain_request.of_value params) (drain_of now)
      else if str_eq name (str "project")
      then from_result (serde.project_request.of_value params) (project_of now)
      else if str_eq name (str "reconstruct")
      then from_result (serde.reconstruct_request.of_value params) (reconstruct_of now)
      else if str_eq name (str "certify")
      then from_result (serde.certify_request.of_value params) (certify_of now)
      else []

  -- A submission that passes the validation.
  unfoldable pub submitted_commands : (ℕ → ℕ) → SubmitEventRequest → KernelInner → List Command
  submitted_commands now request inner =
      from_result (validate_submit_request ext serde inner request)
        λ _. named_commands now (operation_name request.operation) request.params

  -- Of a list of submissions the first one only: it is refused, or it does not return.
  abbrev pub listed_commands : (ℕ → ℕ → ℕ) → List SubmitEventRequest → KernelHandle → List Command
  listed_commands now [] h = []
  listed_commands now (request ∷ requests) h = locked (submitted_commands (now 0) request h.inner) h

  -- A text that comes in as a request.
  abbrev pub requested : {T : Type 0} → Deserialize T → CStr → (T → List Command) → List Command
  requested codec input c =
      from_result (from_c_string serde.utf8_error input) λ text. from_result (codec.of_text text) c

  -- The calls on the handle: none where the input is not read or the lock is not to be had.
  unfoldable pub commands_of : Call → KernelHandle → List Command
  commands_of (Call.submit_event now input) h =
      from_result (from_c_string serde.utf8_error input) λ text.
        from_result (parse_submit_request ext serde text)
          λ request. locked (submitted_commands now request h.inner) h
  commands_of (Call.execute_operation now input) h =
      from_result (from_c_string serde.utf8_error input) λ text.
        from_result (parse_submit_request_list ext serde text)
          λ requests. listed_commands now requests h
  commands_of (Call.origin_create now input) h =
      requested serde.origin_create_request input λ r. locked (origin_create_of now r) h
  commands_of (Call.transfer now input) h =
      requested serde.transfer_request input λ r. locked (transfer_of now r) h
  commands_of (Call.drain now input) h =
      requested serde.drain_request input λ r. locked (drain_of now r) h
  commands_of (Call.project now input) h =
      requested serde.project_request input λ r. locked (project_of now r) h
  commands_of (Call.reconstruct now input) h =
      requested serde.reconstruct_request input λ r. locked (reconstruct_of now r) h
  commands_of (Call.certify now input) h =
      requested serde.certify_request input λ r. locked (certify_of now r) h
  commands_of _ h = []

  -- The next call is made only if this one returns.
  abbrev pub after : Ended Str × Pointer → (KernelHandle → List Command) → List Command
  after (returned text, some g) rest = rest g
  after _ rest = []

  unfoldable pub session_commands : List Call → KernelHandle → List Command
  session_commands [] h = []
  session_commands (c ∷ calls) h =
      commands_of c h ++ after (dispatch ext serde c (some h)) (session_commands calls)
