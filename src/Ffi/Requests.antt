-- ===== src/Ffi/Requests.antt =====
-- src/ffi.rs: the requests, what `serde` reads of them, and the checks of a submission.
use v_kernelx.Base.{ℕ, Bool, true, not, ◌||◌, Option, none, some, List, [], ◌++◌, if◌then◌else◌}
use v_kernelx.Base.Text.{Str, str, str_eq, trim, is_blank, to_ascii_lowercase}
use v_kernelx.Base.Map.{Map, insert, contains_key}
use v_kernelx.Error.{Result, ok, err, ◌>>=◌, ◌>>◌, fail_if}
use v_kernelx.Event.{VectorEvent, VectorState}
use v_kernelx.External.{External, Value, bool, string, object, end, field}
use v_kernelx.Ffi.Handle.{KernelInner}
use v_kernelx.Interpreter.Params.{param}
use v_kernelx.Record.{VectorRecordV1}
use v_kernelx.Signature.{verifying_key_from_hex, verify_event_signature}
use v_kernelx.State.{VectorStateV1}

pub record SubmitEventRequest : Type 0 where
  pub request_id : Str
  pub operation : Str
  pub actor_public_key : Str
  pub signature : Str
  pub params : Value

pub record ReconstructRequest : Type 0 where
  pub vector_id : Str
  pub outcome_tag : Str
  pub gains : List ℕ
  pub losses : List ℕ

pub record OriginCreateRequest : Type 0 where
  pub vector_id : Str
  pub owner_pubkey : Str
  pub space_id : Str
  pub components : List ℕ
  pub seed : Str
  pub nonce : ℕ
  pub difficulty : ℕ

pub record TransferRequest : Type 0 where
  pub from_id : Str
  pub to_id : Str
  pub amount : List ℕ

pub record DrainRequest : Type 0 where
  pub vector_id : Str
  pub basis_points : ℕ

pub record ProjectRequest : Type 0 where
  pub vector_id : Str
  pub projected_components : List ℕ
  pub escrow_id : Str

pub record CertifyRequest : Type 0 where
  pub vector_id : Str

pub record QueryVectorRequest : Type 0 where
  pub vector_id : Str

pub record QueryEventByHashRequest : Type 0 where
  pub event_hash : Str

-- What `serde` derives for a type: `from_str` and `from_value`, or the message of the error.
pub record Deserialize (T : Type 0) : Type 0 where
  pub of_text : Str → Result Str T
  pub of_value : Value → Result Str T

-- The code that `serde` derives, and the check of UTF-8. The `json!` value of a type is `none` where
-- the macro panics.
pub record Serde : Type 0 where
  pub utf8_error : List ℕ → Option Str
  pub submit_request : Deserialize SubmitEventRequest
  pub submit_requests : Deserialize (List SubmitEventRequest)
  pub event : Deserialize VectorEvent
  pub events : Deserialize (List VectorEvent)
  pub origin_create_request : Deserialize OriginCreateRequest
  pub transfer_request : Deserialize TransferRequest
  pub drain_request : Deserialize DrainRequest
  pub project_request : Deserialize ProjectRequest
  pub reconstruct_request : Deserialize ReconstructRequest
  pub certify_request : Deserialize CertifyRequest
  pub query_vector_request : Deserialize QueryVectorRequest
  pub query_event_by_hash_request : Deserialize QueryEventByHashRequest
  -- `serde_json::to_string(&value)`
  pub value_json : Value → Result Str Str
  pub state_value : VectorStateV1 → Option Value
  pub states_value : List VectorStateV1 → Option Value
  pub records_value : List VectorRecordV1 → Option Value
  pub event_value : VectorEvent → Option Value
  pub events_value : List VectorEvent → Option Value
  pub final_state_value : Map VectorState → Option Value

-- `map_err(|e| format!("{label}{e}"))`
abbrev pub labelled : {A : Type 0} → Str → Result Str A → Result Str A
labelled label (ok a) = ok a
labelled label (err e) = err (label ++ e)

-- `parse_request_payload`
abbrev pub parse_request_payload : {T : Type 0} → Deserialize T → Value → Str → Result Str T
parse_request_payload codec params label =
    labelled (label ++ str " parse error: ") (codec.of_value params)

-- The entry of an object, or the message that it is missing.
entry_of : {T : Type 0} → Deserialize T → Str → Str → Option Value → Result Str T
entry_of codec label missing none = err missing
entry_of codec label missing (some v) = labelled label (codec.of_value v)

-- A list as an array, or under a key of an object.
list_or_entry :
    {T : Type 0}
    → External
    → Deserialize T
    → Str
    → Str
    → Str
    → Str
    → Str
    → Result Str T
    → Result Str T
list_or_entry ext codec key parse_label entry_label missing input (ok v) = ok v
list_or_entry ext codec key parse_label entry_label missing input (err _) = do
  value ← labelled parse_label (ext.parse_json input)
  entry_of codec entry_label missing (param key value)

-- The map that is signed.
unfoldable pub submit_payload : SubmitEventRequest → Str → Map Str
submit_payload req params = insert (str "params") params (
    insert (str "actor_public_key") req.actor_public_key
      (insert (str "operation") req.operation (insert (str "request_id") req.request_id [])))

unfoldable pub operation_name : Str → Str
operation_name operation = to_ascii_lowercase (trim operation)

-- The arms of the matches on an operation's name.
unfoldable pub is_origin_create : Str → Bool
is_origin_create name =
    str_eq name (str "origin_create") || (str_eq name (str "create") || str_eq name (str "origin"))

-- `from_value::<T>(params.clone()).map_err(..)?; Ok(())`
abbrev shape_of : {T : Type 0} → Deserialize T → Str → Value → Result Str (Unit {0})
shape_of codec label params = labelled label (codec.of_value params) >>= λ _. ok tt

module _ (ext : External) (serde : Serde) where
  unfoldable pub parse_event : Str → Result Str VectorEvent
  parse_event input = labelled (str "event parse error: ") (serde.event.of_text input)

  unfoldable pub parse_event_list : Str → Result Str (List VectorEvent)
  unfolding list_or_entry entry_of
  parse_event_list input =
      list_or_entry ext serde.events (str "events") (str "batch parse error: ")
        (str "batch events parse error: ") (str "missing events array") input
        (serde.events.of_text input)

  unfoldable pub parse_submit_request : Str → Result Str SubmitEventRequest
  parse_submit_request input =
      labelled (str "submit request parse error: ") (serde.submit_request.of_text input)

  unfoldable pub parse_submit_request_list : Str → Result Str (List SubmitEventRequest)
  unfolding list_or_entry entry_of
  parse_submit_request_list input =
      list_or_entry ext serde.submit_requests (str "requests") (str "submit batch parse error: ")
        (str "submit batch request parse error: ") (str "missing requests array") input
        (serde.submit_requests.of_text input)

  unfoldable pub canonical_submit_request_bytes : SubmitEventRequest → Result Str (List ℕ)
  canonical_submit_request_bytes req = do
    params ← labelled (str "canonical request serialization error: ") (serde.value_json req.params)
    labelled (str "canonical request serialization error: ")
        (ext.map_json (submit_payload req params))

  unfoldable pub validate_operation_shape : Str → Value → Result Str (Unit {0})
  validate_operation_shape operation params =
      let name = operation_name operation in
      if is_origin_create name
      then shape_of serde.origin_create_request (str "origin_create params invalid: ") params
      else if str_eq name (str "transfer")
      then shape_of serde.transfer_request (str "transfer params invalid: ") params
      else if str_eq name (str "drain")
      then shape_of serde.drain_request (str "drain params invalid: ") params
      else if str_eq name (str "project")
      then shape_of serde.project_request (str "project params invalid: ") params
      else if str_eq name (str "reconstruct")
      then shape_of serde.reconstruct_request (str "reconstruct params invalid: ") params
      else if str_eq name (str "certify")
      then shape_of serde.certify_request (str "certify params invalid: ") params
      else err (str "unsupported operation: " ++ name)

  unfoldable pub validate_submit_request : KernelInner → SubmitEventRequest → Result Str Value
  validate_submit_request inner request = do
    fail_if (is_blank request.request_id) (str "missing request_id")
    fail_if (is_blank request.actor_public_key) (str "missing actor_public_key")
    fail_if (is_blank request.signature) (str "missing signature")
    validate_operation_shape request.operation request.params
    fail_if (contains_key request.request_id inner.seen_request_ids)
        (str "duplicate request_id: " ++ request.request_id)
    verifying_key ← verifying_key_from_hex ext request.actor_public_key
    bytes ← canonical_submit_request_bytes request
    signature_ok ←
        labelled (str "request signature verification error: ")
          (verify_event_signature ext verifying_key bytes request.signature)
    fail_if (not signature_ok) (str "request signature verification failed")
    ok (
        object (
          field (str "operation") (string request.operation) (
            field (str "request_id") (string request.request_id)
              (field (str "shape_ok") (bool true) (field (str "signature_ok") (bool true) end)))))
