-- ===== src/Storage.antt =====
-- src/storage.rs: `MemoryStore`, four ordered maps. None of the reads and none of the writes but
-- `append_event` can fail.
pub mod Append
use v_kernelx.Base.{
  ℕ, Bool, Option, none, some, List, [], ◌∷◌, ◌++◌, any, is_nil, compare, then_with, Ordering,
  is_le, if◌then◌else◌,
}
use v_kernelx.Base.Sort.{sort_by}
use v_kernelx.Base.Text.{Str, str, str_eq, str_cmp}
use v_kernelx.Base.Map.{Map, get, contains_key, insert, values}
use v_kernelx.Error.{KernelXError, invalid_state, Result, ok, ◌>>=◌, ◌>>◌, fail_if}
use v_kernelx.Event.{VectorEvent}
use v_kernelx.Record.{VectorRecordV1}
use v_kernelx.Snapshot.{Snapshot}
use v_kernelx.State.{VectorStateV1}

pub record MemoryStore : Type 0 where
  pub states : Map VectorStateV1
  pub records : Map VectorRecordV1
  pub events : Map VectorEvent
  pub snapshots : Map Snapshot

-- `MemoryStore::default`
abbrev pub empty_store : MemoryStore
empty_store = record { states = []; records = []; events = []; snapshots = [] }

unfoldable pub put_state : VectorStateV1 → MemoryStore → MemoryStore
put_state state store = record store { states = insert state.vector_id state store.states }

unfoldable pub get_state : Str → MemoryStore → Option VectorStateV1
get_state vector_id store = get vector_id store.states

unfoldable pub list_states : MemoryStore → List VectorStateV1
list_states store = values store.states

unfoldable pub put_record : VectorRecordV1 → MemoryStore → MemoryStore
put_record r store = record store { records = insert r.record_id r store.records }

unfoldable pub get_record : Str → MemoryStore → Option VectorRecordV1
get_record record_id store = get record_id store.records

unfoldable pub list_records : MemoryStore → List VectorRecordV1
list_records store = values store.records

abbrev pub has_event_id : Str → List VectorEvent → Bool
has_event_id event_id = any (λ existing. str_eq existing.event_id event_id)

unfoldable pub append_event : VectorEvent → MemoryStore → Result KernelXError MemoryStore
append_event event store = do
  fail_if (is_nil event.event_id)
      (invalid_state (str "attempted to append event with empty event_id"))
  fail_if (is_nil event.event_hash)
      (invalid_state (str "attempted to append event with empty event_hash"))
  fail_if (contains_key event.event_hash store.events)
      (invalid_state (str "duplicate canonical event_hash detected: " ++ event.event_hash))
  fail_if (has_event_id event.event_id (values store.events))
      (invalid_state (str "duplicate event_id detected: " ++ event.event_id))
  ok (record store { events = insert event.event_hash event store.events })

-- `values().find(..)`
find_event : Str → List VectorEvent → Option VectorEvent
find_event event_id [] = none
find_event event_id (e ∷ events) =
    if str_eq e.event_id event_id then some e else find_event event_id events

unfoldable pub get_event : Str → MemoryStore → Option VectorEvent
unfolding find_event
get_event event_id store = find_event event_id (values store.events)

unfoldable pub get_event_by_hash : Str → MemoryStore → Option VectorEvent
get_event_by_hash event_hash store = get event_hash store.events

unfoldable pub list_events : MemoryStore → List VectorEvent
list_events store = values store.events

unfoldable pub put_snapshot : Snapshot → MemoryStore → MemoryStore
put_snapshot snapshot store = record store {
  snapshots = insert snapshot.snapshot_id snapshot store.snapshots;
}

unfoldable pub get_snapshot : Str → MemoryStore → Option Snapshot
get_snapshot snapshot_id store = get snapshot_id store.snapshots

unfoldable pub list_snapshots : MemoryStore → List Snapshot
list_snapshots store = values store.snapshots

-- The order of `canonical_event_sort_key`: clock, timestamp, hash, id.
abbrev pub event_order : VectorEvent → VectorEvent → Ordering
event_order a b =
    then_with
      (then_with
        (then_with (compare a.logical_clock b.logical_clock) (compare a.timestamp b.timestamp))
        (str_cmp a.event_hash b.event_hash))
      (str_cmp a.event_id b.event_id)

unfoldable pub load_events_for_replay : MemoryStore → List VectorEvent
load_events_for_replay store = sort_by event_order (values store.events)

-- `max_by` keeps the later of two that compare equal.
latest_of : Snapshot → List Snapshot → Snapshot
latest_of best [] = best
latest_of best (s ∷ snapshots) =
    latest_of (if is_le (str_cmp best.snapshot_id s.snapshot_id) then s else best) snapshots

latest : List Snapshot → Option Snapshot
latest [] = none
latest (s ∷ snapshots) = some (latest_of s snapshots)

unfoldable pub load_latest_snapshot : MemoryStore → Option Snapshot
unfolding latest latest_of
load_latest_snapshot store = latest (values store.snapshots)
