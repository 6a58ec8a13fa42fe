-- ===== src/Replay.antt =====
-- src/replay.rs: the state that a history leads to.
pub mod Entity
pub mod Own
pub mod Termination
pub mod Coverage
pub mod Members
pub mod History
use v_kernelx.Base.{
  ℕ, ◌+◌, ◌≡◌, Bool, true, false, not, ◌&&◌, ◌==◌, Option, none, some, List, [], ◌∷◌, ◌++◌, length,
  max, if◌then◌else◌, then_with, compare, Ordering,
}
use v_kernelx.Base.Sort.{sort_by}
use v_kernelx.Base.Text.{Str, str, str_eq, str_cmp, decimal}
use v_kernelx.Base.Map.{Map, get, contains_key, insert}
use v_kernelx.Dag.{validate_dag}
use v_kernelx.Error.{Result, ok, err, ◌>>=◌, ◌>>◌, fail_if, display}
use v_kernelx.Event.{OperationType, VectorState, VectorEvent}
use v_kernelx.External.{External}
use v_kernelx.Hash.{canonical_replay_hash}
use v_kernelx.Region.{is_region_create_event}
use v_kernelx.Region.Core.{new_core}
use v_kernelx.Region.Reading.{apply_region_event}
use v_kernelx.Region.Types.{CoreState}
use v_kernelx.Replay.Entity.{order_entity_events}
use v_kernelx.Serialization.{canonical_state_map_bytes}
use v_kernelx.State.{StateRoot}
use v_kernelx.State.Bytes.{compute_state_root_from_canonical_bytes}

pub record ReplayResult : Type 0 where
  pub final_state : Map VectorState
  pub core_state : CoreState
  pub state_root : StateRoot
  pub replay_hash : Str
  pub applied_event_hashes : List Str

-- `==` of metadata
unfoldable pub metadata_eq : Map Str → Map Str → Bool
metadata_eq [] [] = true
metadata_eq [] (f ∷ n) = false
metadata_eq (e ∷ m) [] = false
metadata_eq (e ∷ m) (f ∷ n) =
    let rest = metadata_eq m n in str_eq e.0 f.0 && (str_eq e.1 f.1 && rest)

-- `==` of states; `str_eq` compares lists of numbers.
unfoldable pub vector_state_eq : VectorState → VectorState → Bool
vector_state_eq s t =
    str_eq s.components t.components
    && (str_eq s.owner_public_key t.owner_public_key
        && (str_eq s.type_tag t.type_tag && metadata_eq s.metadata t.metadata))

-- The match on the operation.
unfoldable pub check_current :
    OperationType → Option VectorState → VectorEvent → Result Str (Unit {0})
check_current OperationType.origin_create none event = ok tt
check_current OperationType.origin_create (some current) event =
    err (str "origin create attempted for existing entity_id: " ++ event.entity_id)
check_current _ none event =
    err (str "non-origin event references missing entity state: " ++ event.entity_id)
check_current _ (some current) event =
    fail_if (not (vector_state_eq current event.vector_before))
      (str "vector_before mismatch for entity_id " ++ event.entity_id)

-- The state and the core so far; they are dropped on an error.
abbrev pub Progress : Type 0
Progress = Map VectorState × CoreState

module _ (ext : External) where
  -- `apply_region_event(core, event).map_err(|e| e.to_string())?`
  unfoldable pub apply_creation : VectorEvent → CoreState → Result Str CoreState
  apply_creation event core =
      let (result, after) = apply_region_event ext event core in
      elim result [ ok _ ↦ ok after | err e ↦ err (display e) ]

  unfoldable pub apply_event : VectorEvent → Progress → Result Str Progress
  apply_event event (state, core) =
      let state' = insert event.entity_id event.vector_after state in
      elim (is_region_create_event event) [
        | true ↦ (do core' ← apply_creation event core; ok (state', core'))
        | false ↦ (do
          check_current event.operation (get event.entity_id state) event
          ok (state', core))
      ]

-- What the loop of `replay_events` keeps.
pub record Run : Type 0 where
  pub state : Map VectorState
  pub core : CoreState
  pub applied : List Str
  pub clock : ℕ

-- The run after an event has been applied.
abbrev pub advanced : VectorEvent → Run → Progress → Run
advanced event run (state, core) = record {
  state = state;
  core = core;
  applied = run.applied ++ (event.event_hash ∷ []);
  clock = max run.clock event.logical_clock;
}

-- `by_entity.entry(event.entity_id.clone()).or_default().push(event)`
abbrev pub grown : VectorEvent → Option (List VectorEvent) → List VectorEvent
grown event none = event ∷ []
grown event (some events) = events ++ (event ∷ [])

unfoldable pub group_by_entity : Map (List VectorEvent) → List VectorEvent → Map (List VectorEvent)
group_by_entity by_entity [] = by_entity
group_by_entity by_entity (event ∷ events) =
    group_by_entity (insert event.entity_id (grown event (get event.entity_id by_entity)) by_entity)
      events

module _ (ext : External) where
  -- The loop over the ordered events of an entity.
  unfoldable pub apply_ordered : List VectorEvent → Run → Result Str Run
  apply_ordered [] run = ok run
  apply_ordered (event ∷ events) run = do
    next ← apply_event ext event (run.state, run.core)
    apply_ordered events (advanced event run next)

  -- One entity, when the rest of the loop is known.
  abbrev pub apply_entity :
      Run
      → (Run → Option (Result Str Run))
      → Option (Result Str (List VectorEvent))
      → Option (Result Str Run)
  apply_entity run rest none = none
  apply_entity run rest (some (err e)) = some (err e)
  apply_entity run rest (some (ok ordered)) = elim (apply_ordered ordered run) [
    | err e ↦ some (err e)
    | ok next ↦ rest next
  ]

  -- The loop over the entities.
  unfoldable pub replay_entities : Map (List VectorEvent) → Run → Option (Result Str Run)
  replay_entities [] run = some (ok run)
  replay_entities ((entity, events) ∷ by_entity) run =
      apply_entity run (replay_entities by_entity) (order_entity_events events)

  unfoldable pub result_of : Run → ReplayResult
  result_of run = record {
    final_state = run.state;
    core_state = run.core;
    state_root =
        compute_state_root_from_canonical_bytes ext.blake3_hex (canonical_state_map_bytes run.state)
          (length run.applied) run.clock;
    replay_hash = canonical_replay_hash ext run.applied;
    applied_event_hashes = run.applied;
  }

  abbrev pub finished : Option (Result Str Run) → Option (Result Str ReplayResult)
  finished none = none
  finished (some (err e)) = some (err e)
  finished (some (ok run)) = some (ok (result_of run))

  abbrev pub first_run : Run
  first_run = record { state = []; core = new_core ext; applied = []; clock = 0 }

  abbrev pub replay_validated :
      List VectorEvent → Option (Result Str (Unit {0})) → Option (Result Str ReplayResult)
  replay_validated events none = none
  replay_validated events (some (err e)) = some (err e)
  replay_validated events (some (ok _)) =
      finished (replay_entities (group_by_entity [] events) first_run)

  -- `replay_events`; `none` where a loop of Kahn's algorithm has not ended in time.
  unfoldable pub replay_events : List VectorEvent → Option (Result Str ReplayResult)
  replay_events events = replay_validated events (validate_dag events)

  state_root_eq : StateRoot → StateRoot → Bool
  state_root_eq r s =
      str_eq r.root_hash s.root_hash
      && (r.event_count == s.event_count && r.logical_clock == s.logical_clock)

  abbrev replay_matches :
      StateRoot → Str → Option (Result Str ReplayResult) → Option (Result Str Bool)
  replay_matches root replay_hash none = none
  replay_matches root replay_hash (some (err e)) = some (err e)
  replay_matches root replay_hash (some (ok result)) =
      some (ok (state_root_eq result.state_root root && str_eq result.replay_hash replay_hash))

  unfoldable pub verify_replay : List VectorEvent → StateRoot → Str → Option (Result Str Bool)
  unfolding state_root_eq
  verify_replay events expected_state_root expected_replay_hash =
      replay_matches expected_state_root expected_replay_hash (replay_events events)

unfoldable pub canonical_final_state_bytes : ReplayResult → List ℕ
canonical_final_state_bytes result = canonical_state_map_bytes result.final_state
