-- ===== src/Engine.antt =====
-- src/engine.rs over `MemoryStore`: each method is an `Action`. `now i` is what the `i`-th call of
-- `now_ms` on the way through the method returns.
pub mod Monad
pub mod Operations
pub mod Queries
pub mod Metrics
pub mod Inversion
pub mod Founding
pub mod Rules
pub mod Induction
pub mod Ledger
pub mod States
pub mod Moves
pub mod Partial
pub mod Agree
use v_kernelx.Base.{
  ℕ, zero, suc, ◌+◌, Bool, true, false, ◌&&◌, Option, none, some, List, [], ◌∷◌, ◌++◌, length, ltb,
  if◌then◌else◌, add64, u64_max, max, compare, Ordering,
}
use v_kernelx.Base.Sort.{sort_by}
use v_kernelx.Base.Text.{Str, str, str_eq, str_cmp, decimal}
use v_kernelx.Base.Map.{Map, insert}
use v_kernelx.Certification.{certify_state}
use v_kernelx.Consensus.{ConsensusPolicy, default_policy, accept_record}
use v_kernelx.Drain.{apply_drain}
use v_kernelx.Error.{KernelXError, invalid_state, vector_not_found, Result, ok, err}
use v_kernelx.Event.{
  OperationType, VectorState, zero_state, VectorEvent, new_event, canonical_event_id,
}
use v_kernelx.External.{External, Value, number, string, array, object, nil, end, field}
use v_kernelx.Hash.{canonical_payload_hash, canonical_event_hash}
use v_kernelx.Origin.{create_origin_vector}
use v_kernelx.Projection.{project_vector}
use v_kernelx.Reconstruction.{SettlementOutcome, reconstruct_vector}
use v_kernelx.Record.{
  OperationKind, VectorRecordV1, new_record, make_record_id, u128_array, transfer_record,
}
use v_kernelx.State.{VectorType, CertificationState, VectorStateV1, StateRoot}
use v_kernelx.State.Bytes.{compute_state_root}
use v_kernelx.Storage.{
  MemoryStore, empty_store, put_state, get_state, list_states, put_record, list_records,
  append_event, get_event_by_hash, event_order, load_events_for_replay,
}
use v_kernelx.Transfer.{transfer_components}
use v_kernelx.Validation.{validate_state, validate_event}
use v_kernelx.Engine.Monad.{
  KernelEngine, done, Action, pure, fail, lift, or_fail, or_panic, reads, writes, try_write, ◌>>=◌,
  ◌>>◌,
}

-- `KernelEngine::<MemoryStore>::new`
abbrev pub new_engine : KernelEngine
new_engine = record { store = empty_store; consensus = default_policy }

unfoldable pub op_kind_to_event_kind : OperationKind → OperationType
op_kind_to_event_kind OperationKind.origin_create = OperationType.origin_create
op_kind_to_event_kind OperationKind.certify = OperationType.certify
op_kind_to_event_kind OperationKind.transfer = OperationType.transfer
op_kind_to_event_kind OperationKind.drain = OperationType.drain
op_kind_to_event_kind OperationKind.project = OperationType.project
op_kind_to_event_kind OperationKind.reconstruct = OperationType.reconstruct
op_kind_to_event_kind OperationKind.query = OperationType.query
op_kind_to_event_kind (OperationKind.custom name) = OperationType.other name

-- `format!("{:?}", vector_type)`
unfoldable pub debug_name : VectorType → Str
debug_name VectorType.standard = str "Standard"
debug_name VectorType.origin = str "Origin"
debug_name VectorType.projected = str "Projected"
debug_name VectorType.escrow = str "Escrow"
debug_name VectorType.settlement = str "Settlement"
debug_name VectorType.locked = str "Locked"

push_front : ℕ → Result KernelXError (List ℕ) → Result KernelXError (List ℕ)
push_front c (ok values) = ok (c ∷ values)
push_front c (err e) = err e

-- `u64::try_from` of each component
unfoldable pub event_components : List ℕ → Result KernelXError (List ℕ)
unfolding push_front
event_components [] = ok []
event_components (c ∷ cs) =
    let rest = event_components cs in
    if ltb u64_max c
    then err (invalid_state (str "component value exceeds u64 canonical event limit"))
    else push_front c rest

-- `for (k, v) in &map { metadata.insert(k.clone(), v.clone()) }`
copy_onto : Map Str → Map Str → Map Str
copy_onto copied [] = copied
copy_onto copied ((k, v) ∷ rest) = copy_onto (insert k v copied) rest

event_state_with : VectorStateV1 → Result KernelXError (List ℕ) → Result KernelXError VectorState
event_state_with state (err e) = err e
event_state_with state (ok components) = ok (record {
  components = components;
  owner_public_key = state.owner_pubkey;
  type_tag = debug_name state.vector_type;
  metadata = copy_onto [] state.type_metadata;
})

unfoldable pub vector_v1_to_event_state : VectorStateV1 → Result KernelXError VectorState
unfolding copy_onto event_state_with
vector_v1_to_event_state state = event_state_with state (event_components state.components)

-- The last event of the entity in the sorted events, `rev().find(..)`.
last_of : Str → Option Str → List VectorEvent → Option Str
last_of entity_id found [] = found
last_of entity_id found (event ∷ events) =
    last_of entity_id (if str_eq event.entity_id entity_id then some event.event_hash else found)
      events

abbrev option_list {ℓ} : {A : Type ℓ} → Option A → List A
option_list none = []
option_list (some a) = a ∷ []

unfoldable pub latest_parent_hash_for_entity : Str → MemoryStore → List Str
unfolding last_of
latest_parent_hash_for_entity entity_id store =
    option_list (last_of entity_id none (sort_by event_order (load_events_for_replay store)))

count_events : Str → Str → List VectorEvent → ℕ
count_events entity_id region_id [] = 0
count_events entity_id region_id (event ∷ events) =
    let rest = count_events entity_id region_id events in
    if str_eq event.entity_id entity_id && str_eq event.region_id region_id then suc rest else rest

unfoldable pub next_event_sequence_for_entity : Str → Str → MemoryStore → Result KernelXError ℕ
unfolding count_events
next_event_sequence_for_entity entity_id region_id store =
    let count = count_events entity_id region_id (load_events_for_replay store) in
    if ltb count u64_max
    then ok (count + 1)
    else err (invalid_state (str "event sequence overflow"))

unfoldable pub query_events : MemoryStore → List VectorEvent
query_events store = sort_by event_order (load_events_for_replay store)

last : List VectorEvent → Option VectorEvent
last [] = none
last (event ∷ []) = some event
last (event ∷ next ∷ events) = last (next ∷ events)

unfoldable pub latest_event : MemoryStore → Option VectorEvent
unfolding last
latest_event store = last (query_events store)

unfoldable pub next_logical_clock : MemoryStore → ℕ
unfolding latest_event
next_logical_clock store = elim (latest_event store) [
  | none ↦ 0
  | some event ↦ if ltb event.logical_clock u64_max then event.logical_clock + 1 else u64_max
]

before_state : Option VectorStateV1 → VectorStateV1 → Result KernelXError VectorState
before_state (some state) after = vector_v1_to_event_state state
before_state none after =
    ok (zero_state (length after.components) after.owner_pubkey (debug_name after.vector_type))

-- Every parent is stored.
unfoldable pub ensure_parent_closure :
    VectorEvent → List Str → MemoryStore → Result KernelXError (Unit {0})
ensure_parent_closure event [] store = ok tt
ensure_parent_closure event (parent_hash ∷ parents) store =
    let rest = ensure_parent_closure event parents store in
    elim (get_event_by_hash parent_hash store) [
      | some _ ↦ rest
      | none ↦ err (
          invalid_state (
            str "orphan event "
            ++ (event.event_hash ++ (str " references missing parent " ++ parent_hash))))
    ]

-- `if accept_record(&record, &self.consensus) { self.store.put_record(record)?; }`
unfoldable pub keep_record : VectorRecordV1 → Action (Unit {0})
keep_record r k =
    if accept_record r k.consensus
    then (done tt, record k { store = put_record r k.store })
    else (done tt, k)

module _ (ext : External) where
  -- The two hashes that `build_transition_event` fills in, in this order.
  unfoldable pub hashed : VectorEvent → VectorEvent
  hashed event =
      let with_payload = record event { payload_hash = canonical_payload_hash ext event } in
      record with_payload { event_hash = canonical_event_hash ext with_payload }

  unfoldable pub transition_event :
      VectorState → VectorState → VectorStateV1 → OperationType → ℕ → ℕ → List Str → ℕ → VectorEvent
  unfolding hashed
  transition_event vector_before vector_after after operation logical_clock timestamp parent_hashes
        sequence =
      hashed (
        new_event
          (canonical_event_id after.vector_id after.space_id operation logical_clock sequence)
          parent_hashes after.space_id after.vector_id operation vector_before vector_after
          (ext.ratio_bits after.certification.auth_ratio) after.certification.certified
          after.owner_pubkey logical_clock timestamp)

  unfoldable pub build_transition_event :
      Option VectorStateV1 → VectorStateV1 → OperationType → ℕ → ℕ → List Str → Action VectorEvent
  unfolding before_state transition_event
  build_transition_event before after operation logical_clock timestamp parent_hashes = do
    vector_before ← lift (before_state before after)
    vector_after ← lift (vector_v1_to_event_state after)
    sequence ← λ k. lift (next_event_sequence_for_entity after.vector_id after.space_id k.store) k
    pure (
        transition_event vector_before vector_after after operation logical_clock timestamp
          parent_hashes sequence)

  unfoldable pub append_canonical_event : VectorEvent → Action (Unit {0})
  append_canonical_event event = do
    lift (validate_event ext event)
    λ k. lift (ensure_parent_closure event event.parent_hashes k.store) k
    try_write (append_event event)

  -- What every method ends with: the event of the transition over the given parents.
  unfoldable pub publish :
      Option VectorStateV1 → VectorStateV1 → OperationType → ℕ → List Str → Action (Unit {0})
  unfolding build_transition_event append_canonical_event
  publish before after operation timestamp parent_hashes = do
    event ← build_transition_event before after operation after.version timestamp parent_hashes
    append_canonical_event event

  -- The same over the last event of the entity.
  unfoldable pub publish_child :
      VectorStateV1 → VectorStateV1 → OperationType → ℕ → Action (Unit {0})
  publish_child before after operation timestamp = do
    parent_hashes ← reads (latest_parent_hash_for_entity after.vector_id)
    publish (some before) after operation timestamp parent_hashes
