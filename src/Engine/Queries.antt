-- ===== src/Engine/Queries.antt =====
-- src/engine.rs: the methods that only read the store, and the creation of a region.
use v_kernelx.Base.{ℕ, Bool, true, false, not, Option, none, some, List, [], ◌∷◌, max}
use v_kernelx.Base.Sort.{sort_by}
use v_kernelx.Base.Text.{Str, str, str_eq, str_cmp, is_blank}
use v_kernelx.Engine.{query_events, next_logical_clock, append_canonical_event}
use v_kernelx.Engine.Monad.{Action, lift, reads, ◌>>=◌, ◌>>◌}
use v_kernelx.Error
use v_kernelx.Error.{KernelXError, invalid_state, Result, ok, err, fail_if}
use v_kernelx.Event.{VectorEvent}
use v_kernelx.External.{External}
use v_kernelx.Query.{get_vector, list_vectors, list_records, get_event_by_hash}
use v_kernelx.Record.{VectorRecordV1}
use v_kernelx.Region.{is_region_create_event}
use v_kernelx.Region.Genesis.{build_region_genesis_event}
use v_kernelx.Region.Reading.{
  region_state_from_event, list_regions_from_events, find_region, find_region_by_lookup_key,
  authorize_region_access,
}
use v_kernelx.Region.Request.{
  validate_region_create_request, verify_region_create_request_signature,
}
use v_kernelx.Region.Types.{RegionCreateRequest, RegionState}
use v_kernelx.Replay.{ReplayResult, replay_events}
use v_kernelx.State.{VectorStateV1, StateRoot}
use v_kernelx.State.Bytes.{compute_state_root}
use v_kernelx.Storage.{MemoryStore, list_states, load_events_for_replay}
use v_kernelx.Validation.{validate_event}

abbrev pub query_vector : Str → MemoryStore → Option VectorStateV1
query_vector vector_id store = get_vector vector_id store

abbrev pub query_vectors : MemoryStore → List VectorStateV1
query_vectors store = list_vectors store

abbrev pub query_records : MemoryStore → List VectorRecordV1
query_records store = list_records store

abbrev pub query_event_by_hash : Str → MemoryStore → Option VectorEvent
query_event_by_hash event_hash store = get_event_by_hash event_hash store

unfoldable pub query_regions : MemoryStore → Result KernelXError (List RegionState)
query_regions store = list_regions_from_events (query_events store)

-- A total function over a result, `Ok(f(value?))`.
abbrev over {ℓ κ} :
    {A : Type ℓ} {B : Type κ} → (A → B) → Result KernelXError A → Result KernelXError B
over f (ok a) = ok (f a)
over f (err e) = err e

unfoldable pub query_region : Str → MemoryStore → Result KernelXError (Option RegionState)
query_region region_id store =
    over (find_region (λ region. str_eq region.region_id region_id)) (query_regions store)

unfoldable pub query_region_by_name :
    Str → Option Str → MemoryStore → Result KernelXError (Option RegionState)
query_region_by_name region_name region_prefix store =
    find_region_by_lookup_key (query_events store) region_name region_prefix

abbrev id_of : Option RegionState → Option Str
id_of none = none
id_of (some region) = some region.region_id

abbrev pub is_some {ℓ} : {A : Type ℓ} → Option A → Bool
is_some none = false
is_some (some a) = true

unfoldable pub resolve_region_id : Str → Option Str → MemoryStore → Result KernelXError (Option Str)
resolve_region_id region_name region_prefix store =
    over id_of (query_region_by_name region_name region_prefix store)

unfoldable pub region_exists : Str → Option Str → MemoryStore → Result KernelXError Bool
region_exists region_name region_prefix store =
    over is_some (query_region_by_name region_name region_prefix store)

-- The latest update, `max().unwrap_or(0)`.
abbrev latest_update : List VectorStateV1 → ℕ
latest_update [] = 0
latest_update (s ∷ states) = max s.updated_at_ms (latest_update states)

module _ (ext : External) where
  access_to : Option Str → Option RegionState → Result KernelXError Bool
  access_to access_key none = err (invalid_state (str "region not found"))
  access_to access_key (some region) = ok (authorize_region_access ext region access_key)

  unfoldable pub authorize_region : Str → Option Str → MemoryStore → Result KernelXError Bool
  unfolding access_to
  authorize_region region_id access_key store =
      Error.◌>>=◌ (query_region region_id store) (access_to access_key)

  unfoldable pub current_state_root : MemoryStore → StateRoot
  current_state_root store =
      let states = sort_by (λ a b. str_cmp a.vector_id b.vector_id) (list_states store) in
      compute_state_root ext.blake3_hex states (latest_update states)

  -- `replay_events(&events).map_err(KernelXError::InvalidState)`
  abbrev replay_result :
      Option (Result Str ReplayResult) → Option (Result KernelXError ReplayResult)
  replay_result none = none
  replay_result (some (ok result)) = some (ok result)
  replay_result (some (err e)) = some (err (invalid_state e))

  unfoldable pub replay_canonical_history : MemoryStore → Option (Result KernelXError ReplayResult)
  replay_canonical_history store = replay_result (replay_events ext (load_events_for_replay store))

  -- `create_region`; the clock is read once.
  unfoldable pub create_region : (ℕ → ℕ) → RegionCreateRequest → Str → Action RegionState
  create_region now request actor_public_key = do
    lift (validate_region_create_request request)
    lift (verify_region_create_request_signature ext actor_public_key request)
    taken ← λ k. lift (query_region_by_name request.region_name request.region_prefix k.store) k
    lift (fail_if (is_some taken) (invalid_state (str "region already exists for this lookup key")))
    lift (
        fail_if (is_blank actor_public_key)
          (invalid_state (str "actor_public_key cannot be empty")))
    logical_clock ← reads next_logical_clock
    event ← lift (build_region_genesis_event ext request actor_public_key logical_clock (now 0) 1)
    lift (
        fail_if (not (is_region_create_event event))
          (invalid_state (str "failed to build canonical region create event")))
    lift (validate_event ext event)
    append_canonical_event ext event
    lift (region_state_from_event event)
