-- ===== src/Ffi/Events.antt =====
-- src/ffi.rs: the check of one event, the heads of a history, and the summaries of a replay.
use v_kernelx.Base.{
  ℕ, Bool, true, false, not, ◌&&◌, Option, none, some, List, [], ◌∷◌, ◌++◌, is_nil, length,
  if◌then◌else◌, map,
}
use v_kernelx.Base.Sort.{sort_by}
use v_kernelx.Base.Text.{Str, str, str_eq, str_cmp, decimal}
use v_kernelx.Base.Map.{Map, insert, contains_key}
use v_kernelx.Dag.{validate_dag, topological_order}
use v_kernelx.Engine.{query_events}
use v_kernelx.Engine.Metrics.{root_value}
use v_kernelx.Engine.Queries.{replay_canonical_history}
use v_kernelx.Error.{KernelXError, Result, ok, err, display}
use v_kernelx.Error
use v_kernelx.Event.{VectorEvent}
use v_kernelx.External.{External, Value, bool, number, string, array, object, end, field}
use v_kernelx.Ffi.Attempt.{Attempt, pure, attempt, or_abort, or_stuck, inspect, ◌>>=◌, ◌>>◌}
use v_kernelx.Ffi.Handle.{KernelInner}
use v_kernelx.Ffi.Json.{optional, entry, value_eq, texts}
use v_kernelx.Ffi.Requests.{Serde}
use v_kernelx.Hash.{canonical_payload_hash, canonical_event_hash}
use v_kernelx.Replay.{ReplayResult, replay_events}
use v_kernelx.Serialization.{canonical_event_payload_bytes}
use v_kernelx.Signature.{verifying_key_from_hex, verify_event_signature}
use v_kernelx.State.{StateRoot}
use v_kernelx.State.Bytes.{compute_state_root}
use v_kernelx.Storage.{event_order}
use v_kernelx.Validation.{validate_event}

abbrev pub is_ok : {E A : Type 0} → Result E A → Bool
is_ok (ok a) = true
is_ok (err e) = false

-- `signature_ok` and `signature_error`, from a check that was made.
abbrev signature_result : Result Str Bool → Bool × Option Str
signature_result (ok b) = (b, none)
signature_result (err e) = (false, some e)

abbrev dag_result : Option (Result Str (Unit {0})) → Option Bool
dag_result none = none
dag_result (some r) = some (is_ok r)

module _ (ext : External) where
  unfoldable pub signature_check : VectorEvent → Bool × Option Str
  signature_check event =
      if not (is_nil event.actor_public_key) && not (is_nil event.signature)
      then signature_result (
          Error.◌>>=◌ (verifying_key_from_hex ext event.actor_public_key) λ vk.
            verify_event_signature ext vk (canonical_event_payload_bytes event) event.signature)
      else (false, none)

  -- The report on an event, when it is known whether it is a valid history.
  unfoldable pub event_report : VectorEvent → Bool → Value
  event_report event dag_ok =
      let payload_ok = str_eq (canonical_payload_hash ext event) event.payload_hash in
      let hash_ok = str_eq (canonical_event_hash ext event) event.event_hash in
      let (signature_ok, signature_error) = signature_check event in
      object (
        field (str "dag_ok") (bool dag_ok) (
          field (str "event_hash_ok") (bool hash_ok) (
            field (str "event_id") (string event.event_id) (
              field (str "hashes_ok") (bool (payload_ok && hash_ok)) (
                field (str "payload_hash_ok") (bool payload_ok) (
                  field (str "signature_error") (optional signature_error) (
                    field (str "signature_ok") (bool signature_ok) (
                      field (str "structure_ok") (bool (is_ok (validate_event ext event)))
                        end))))))))

  abbrev reported : VectorEvent → Option Bool → Option (Result Str Value)
  reported event none = none
  reported event (some dag_ok) = some (ok (event_report event dag_ok))

  -- `none` where the validation of the history has not ended.
  unfoldable pub validate_event_internal : VectorEvent → Option (Result Str Value)
  validate_event_internal event = reported event (dag_result (validate_dag (event ∷ [])))

unfoldable pub sort_events : List VectorEvent → List VectorEvent
sort_events = sort_by event_order

-- The hashes that some event names as a parent.
unfoldable pub insert_all : List Str → Map (Unit {0}) → Map (Unit {0})
insert_all [] seen = seen
insert_all (h ∷ hs) seen = insert_all hs (insert h tt seen)

unfoldable pub referenced_as_parent : List VectorEvent → Map (Unit {0}) → Map (Unit {0})
referenced_as_parent [] seen = seen
referenced_as_parent (event ∷ events) seen =
    referenced_as_parent events (insert_all event.parent_hashes seen)

-- `filter(|event| !set.contains(&event.event_hash))`
unfoldable pub not_in : Map (Unit {0}) → List VectorEvent → List VectorEvent
not_in seen [] = []
not_in seen (event ∷ events) =
    let rest = not_in seen events in
    if contains_key event.event_hash seen then rest else event ∷ rest

-- `dedup`
unfoldable pub dedup_from : Str → List Str → List Str
dedup_from last [] = last ∷ []
dedup_from last (h ∷ hs) = if str_eq last h then dedup_from last hs else last ∷ dedup_from h hs

unfoldable pub dedup : List Str → List Str
unfolding dedup_from
dedup [] = []
dedup (h ∷ hs) = dedup_from h hs

unfoldable pub compute_heads : List VectorEvent → List Str
compute_heads [] = []
compute_heads (e ∷ events) = dedup (
    sort_by str_cmp (
      map (λ event. event.event_hash) (not_in (referenced_as_parent (e ∷ events) []) (e ∷ events))))

-- `before.iter().map(|e| e.event_hash.clone()).collect()`
unfoldable pub hash_set : List VectorEvent → Map (Unit {0}) → Map (Unit {0})
hash_set [] seen = seen
hash_set (event ∷ events) seen = hash_set events (insert event.event_hash tt seen)

unfoldable pub collect_new_events : List VectorEvent → List VectorEvent → List VectorEvent
collect_new_events before after = sort_events (not_in (hash_set before []) after)

-- What a summary says of a replay.
unfoldable pub summary : StateRoot → Str → List Str → Value → ℕ → ℕ → List Str → Value
summary root replay_hash applied final_state event_count latest_clock heads = object (
    field (str "applied_event_hashes") (array (texts applied)) (
      field (str "event_count") (number (decimal event_count)) (
        field (str "final_state") final_state (
          field (str "heads") (array (texts heads)) (
            field (str "latest_clock") (number (decimal latest_clock)) (
              field (str "replay_hash") (string replay_hash) (
                field (str "state_root") (root_value root)
                  (field (str "verified") (bool true) end))))))))

-- `map_err(..)` of what a loop returns
abbrev relabelled : {E A : Type 0} → (E → Str) → Option (Result E A) → Option (Result Str A)
relabelled f none = none
relabelled f (some (ok a)) = some (ok a)
relabelled f (some (err e)) = some (err (f e))

module _ (ext : External) (serde : Serde) {S : Type 0} where
  -- The summary of a replay that has been made.
  unfoldable pub summarized : ReplayResult → List Str → Attempt S Value
  summarized replay heads = do
    final_state ← or_abort (serde.final_state_value replay.final_state)
    pure (
        summary replay.state_root replay.replay_hash replay.applied_event_hashes final_state
          (length replay.applied_event_hashes) replay.state_root.logical_clock heads)

  -- The branch of an empty history.
  unfoldable pub empty_summary : Attempt S Value
  empty_summary = do
    final_state ← or_abort (serde.final_state_value [])
    pure (summary (compute_state_root ext.blake3_hex [] 0) (str "") [] final_state 0 0 [])

  unfoldable pub replay_ordered : List VectorEvent → Attempt S Value
  replay_ordered [] = empty_summary
  replay_ordered (e ∷ ordered) = do
    result ←
        or_stuck (relabelled (λ e. str "replay error: " ++ e) (replay_events ext (e ∷ ordered)))
    summarized result (compute_heads (e ∷ ordered))

  unfoldable pub replay_from_events : List VectorEvent → Attempt S Value
  unfolding replay_ordered
  replay_from_events [] = empty_summary
  replay_from_events (e ∷ events) = do
    ordered ←
        or_stuck
          (relabelled (λ e. str "batch ordering error: " ++ e) (topological_order (e ∷ events)))
    replay_ordered ordered

unfoldable pub engine_events : KernelInner → List VectorEvent
engine_events inner = query_events inner.engine.store

module _ (ext : External) (serde : Serde) where
  -- `if a != b { return Err(message) }`
  abbrev same_or : Value → Value → Str → Attempt KernelInner (Unit {0})
  same_or a b message = attempt (if value_eq a b then ok tt else err message)

  unfoldable pub engine_replay_summary : Attempt KernelInner Value
  unfolding engine_events
  engine_replay_summary = inspect λ inner. do
    replay ←
        or_stuck (relabelled (λ e. display e) (replay_canonical_history ext inner.engine.store))
    let events = engine_events inner
    let heads = compute_heads events
    canonical_replay ← replay_from_events ext serde events
    same_or (entry (str "state_root") canonical_replay) (root_value replay.state_root)
        (str "replay divergence detected between engine replay and canonical batch replay")
    same_or (entry (str "replay_hash") canonical_replay) (string replay.replay_hash)
        (str "replay hash divergence detected between engine replay and canonical batch replay")
    summarized ext serde replay heads
