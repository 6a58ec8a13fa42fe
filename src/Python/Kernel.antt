-- ===== src/Python/Kernel.antt =====
-- src/python_api.rs: the class `PyKernelEngine`, whose state is its engine. A method returns the text
-- of its result in JSON or the message of a `ValueError`; a panic is raised as an exception.
use v_kernelx.Base.{ℕ, Bool, Option, none, some, List, [], ◌∷◌}
use v_kernelx.Base.Text.{Str}
use v_kernelx.Engine.{new_engine}
use v_kernelx.Engine.Metrics
use v_kernelx.Engine.Monad.{KernelEngine, Action}
use v_kernelx.Engine.Operations
use v_kernelx.Engine.Queries
use v_kernelx.Error.{KernelXError, Result, ok, err, display}
use v_kernelx.Event.{VectorEvent}
use v_kernelx.External.{External, Value}
use v_kernelx.Ffi.Attempt.{Attempt, attempt, or_stuck, inspect, shown, ◌>>=◌}
use v_kernelx.Python.Objects.{PyAny}
use v_kernelx.Python.Requests.{
  CreateRegionRequestInput, create_region_input_from_any, request_of_input,
}
use v_kernelx.Record.{VectorRecordV1}
use v_kernelx.Region.Types.{RegionState}
use v_kernelx.Replay.{ReplayResult}
use v_kernelx.State.{VectorStateV1, StateRoot}

-- What `serde` derives for the types that come back, `serde_json::to_string` or the message of its
-- error, and for the request of a region.
pub record PythonSerde : Type 0 where
  pub create_region_input : Value → Result Str CreateRegionRequestInput
  pub state_text : VectorStateV1 → Result Str Str
  pub states_text : VectorStateV1 × VectorStateV1 → Result Str Str
  pub region_text : RegionState → Result Str Str
  pub found_region_text : Option RegionState → Result Str Str
  pub regions_text : List RegionState → Result Str Str
  pub id_text : Option Str → Result Str Str
  pub bool_text : Bool → Result Str Str
  pub found_state_text : Option VectorStateV1 → Result Str Str
  pub all_states_text : List VectorStateV1 → Result Str Str
  pub records_text : List VectorRecordV1 → Result Str Str
  pub found_event_text : Option VectorEvent → Result Str Str
  pub replay_text : ReplayResult → Result Str Str
  pub root_text : StateRoot → Result Str Str
  pub value_text : Value → Result Str Str

-- `PyKernelEngine::new`
abbrev pub new_py_engine : KernelEngine
new_py_engine = new_engine

-- `map_err`
abbrev pub map_err : {A : Type 0} → Result KernelXError A → Result Str A
map_err (ok a) = ok a
map_err (err e) = err (display e)

-- `self.inner.method(..).map_err(map_err)?`
unfoldable pub call : {A : Type 0} → Action A → Attempt KernelEngine A
call m k = let (r, k') = m k in (shown r, k')

-- `to_json(&result)`, where the text is given or the error's message
abbrev pub to_json : {A : Type 0} → (A → Result Str Str) → A → Attempt KernelEngine Str
to_json text a = attempt (text a)

-- A method that reads the engine.
unfoldable pub reading :
    {A : Type 0} → (A → Result Str Str) → (KernelEngine → Result Str A) → Attempt KernelEngine Str
reading text f = inspect λ k. attempt (f k) >>= to_json text

module _ (ext : External) (serde : PythonSerde) where
  module _ (now : ℕ → ℕ) where
    unfoldable pub origin_create : Str → Str → Str → List ℕ → Str → ℕ → ℕ → Attempt KernelEngine Str
    origin_create vector_id owner_pubkey space_id components seed nonce difficulty =
        call (
          Operations.origin_create ext now vector_id owner_pubkey space_id components seed nonce
            difficulty)
        >>= to_json serde.state_text

    unfoldable pub certify : Str → Attempt KernelEngine Str
    certify vector_id = call (Operations.certify ext now vector_id) >>= to_json serde.state_text

    unfoldable pub transfer : Str → Str → List ℕ → Attempt KernelEngine Str
    transfer from_id to_id amount =
        call (Operations.transfer ext now from_id to_id amount) >>= to_json serde.states_text

    unfoldable pub drain : Str → ℕ → Attempt KernelEngine Str
    drain vector_id basis_points =
        call (Operations.drain ext now vector_id basis_points) >>= to_json serde.state_text

    unfoldable pub project : Str → List ℕ → Str → Attempt KernelEngine Str
    project vector_id projected_components escrow_id =
        call (Operations.project ext now vector_id projected_components escrow_id)
        >>= to_json serde.state_text

    unfoldable pub reconstruct : Str → Str → List ℕ → List ℕ → Attempt KernelEngine Str
    reconstruct vector_id outcome_tag gains losses =
        call (
          Operations.reconstruct ext now vector_id
            (record { outcome_tag = outcome_tag; gains = gains; losses = losses }))
        >>= to_json serde.state_text

    unfoldable pub create_region : PyAny → Attempt KernelEngine Str
    create_region request =
        attempt (create_region_input_from_any ext serde.create_region_input request) >>= λ input.
        attempt (request_of_input ext input) >>= λ parsed.
        call (Queries.create_region ext now parsed input.actor_public_key)
        >>= to_json serde.region_text

  unfoldable pub query_region : Str → Attempt KernelEngine Str
  query_region region_id =
      reading serde.found_region_text (λ k. map_err (Queries.query_region region_id k.store))

  unfoldable pub query_region_by_name : Str → Option Str → Attempt KernelEngine Str
  query_region_by_name region_name region_prefix =
      reading serde.found_region_text
        (λ k. map_err (Queries.query_region_by_name region_name region_prefix k.store))

  unfoldable pub query_regions : Attempt KernelEngine Str
  query_regions = reading serde.regions_text (λ k. map_err (Queries.query_regions k.store))

  unfoldable pub resolve_region_id : Str → Option Str → Attempt KernelEngine Str
  resolve_region_id region_name region_prefix =
      reading serde.id_text
        (λ k. map_err (Queries.resolve_region_id region_name region_prefix k.store))

  unfoldable pub region_exists : Str → Option Str → Attempt KernelEngine Str
  region_exists region_name region_prefix =
      reading serde.bool_text
        (λ k. map_err (Queries.region_exists region_name region_prefix k.store))

  unfoldable pub authorize_region : Str → Option Str → Attempt KernelEngine Str
  authorize_region region_id access_key =
      reading serde.bool_text
        (λ k. map_err (Queries.authorize_region ext region_id access_key k.store))

  unfoldable pub query_vector : Str → Attempt KernelEngine Str
  query_vector vector_id =
      reading serde.found_state_text (λ k. ok (Queries.query_vector vector_id k.store))

  unfoldable pub query_vectors : Attempt KernelEngine Str
  query_vectors = reading serde.all_states_text (λ k. ok (Queries.query_vectors k.store))

  unfoldable pub query_records : Attempt KernelEngine Str
  query_records = reading serde.records_text (λ k. ok (Queries.query_records k.store))

  unfoldable pub query_event_by_hash : Str → Attempt KernelEngine Str
  query_event_by_hash event_hash =
      reading serde.found_event_text (λ k. ok (Queries.query_event_by_hash event_hash k.store))

  -- A replay that has not ended is `none`.
  abbrev replayed : Option (Result KernelXError ReplayResult) → Option (Result Str ReplayResult)
  replayed none = none
  replayed (some r) = some (map_err r)

  unfoldable pub replay_canonical_history : Attempt KernelEngine Str
  replay_canonical_history = inspect λ k.
      or_stuck (replayed (Queries.replay_canonical_history ext k.store))
      >>= to_json serde.replay_text

  unfoldable pub current_state_root : Attempt KernelEngine Str
  current_state_root = reading serde.root_text (λ k. ok (Queries.current_state_root ext k.store))

  abbrev measured : Option Value → Option (Result Str Value)
  measured none = none
  measured (some v) = some (ok v)

  unfoldable pub metrics : Attempt KernelEngine Str
  metrics =
      inspect λ k. or_stuck (measured (Metrics.metrics ext k.store)) >>= to_json serde.value_text

-- A call of a method, with the clock's readings.
pub data PyCall : Type 0 where
  py_origin_create : (ℕ → ℕ) → Str → Str → Str → List ℕ → Str → ℕ → ℕ → PyCall
  py_certify : (ℕ → ℕ) → Str → PyCall
  py_transfer : (ℕ → ℕ) → Str → Str → List ℕ → PyCall
  py_drain : (ℕ → ℕ) → Str → ℕ → PyCall
  py_project : (ℕ → ℕ) → Str → List ℕ → Str → PyCall
  py_reconstruct : (ℕ → ℕ) → Str → Str → List ℕ → List ℕ → PyCall
  py_create_region : (ℕ → ℕ) → PyAny → PyCall
  py_query_region : Str → PyCall
  py_query_region_by_name py_resolve_region_id py_region_exists py_authorize_region :
      Str → Option Str → PyCall
  py_query_vector py_query_event_by_hash : Str → PyCall
  py_query_regions py_query_vectors py_query_records py_replay py_state_root py_metrics : PyCall

module _ (ext : External) (serde : PythonSerde) where
  unfoldable pub dispatch : PyCall → Attempt KernelEngine Str
  dispatch (py_origin_create now id owner space components seed nonce difficulty) =
      origin_create ext serde now id owner space components seed nonce difficulty
  dispatch (py_certify now id) = certify ext serde now id
  dispatch (py_transfer now from to amount) = transfer ext serde now from to amount
  dispatch (py_drain now id basis_points) = drain ext serde now id basis_points
  dispatch (py_project now id components escrow_id) = project ext serde now id components escrow_id
  dispatch (py_reconstruct now id tag gains losses) = reconstruct ext serde now id tag gains losses
  dispatch (py_create_region now request) = create_region ext serde now request
  dispatch (py_query_region id) = query_region ext serde id
  dispatch (py_query_region_by_name name prefix) = query_region_by_name ext serde name prefix
  dispatch (py_resolve_region_id name prefix) = resolve_region_id ext serde name prefix
  dispatch (py_region_exists name prefix) = region_exists ext serde name prefix
  dispatch (py_authorize_region id key) = authorize_region ext serde id key
  dispatch (py_query_vector id) = query_vector ext serde id
  dispatch (py_query_event_by_hash h) = query_event_by_hash ext serde h
  dispatch py_query_regions = query_regions ext serde
  dispatch py_query_vectors = query_vectors ext serde
  dispatch py_query_records = query_records ext serde
  dispatch py_replay = replay_canonical_history ext serde
  dispatch py_state_root = current_state_root ext serde
  dispatch py_metrics = metrics ext serde

  -- A script that catches the exceptions of its calls.
  unfoldable pub script : List PyCall → KernelEngine → KernelEngine
  script [] k = k
  script (c ∷ calls) k = script calls (dispatch c k).1
