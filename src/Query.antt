-- ===== src/Query.antt =====
-- src/query.rs: the reads over a store, each passed on to `MemoryStore`.
use v_kernelx.Base.{Option, List}
use v_kernelx.Base.Text.{Str}
use v_kernelx.Event.{VectorEvent}
use v_kernelx.Record.{VectorRecordV1}
use v_kernelx.Snapshot.{Snapshot}
use v_kernelx.State.{VectorStateV1}
use v_kernelx.Storage
use v_kernelx.Storage.{MemoryStore, get_state, list_states}

abbrev pub get_vector : Str → MemoryStore → Option VectorStateV1
get_vector vector_id store = get_state vector_id store

abbrev pub list_vectors : MemoryStore → List VectorStateV1
list_vectors store = list_states store

abbrev pub get_record : Str → MemoryStore → Option VectorRecordV1
get_record record_id store = Storage.get_record record_id store

abbrev pub list_records : MemoryStore → List VectorRecordV1
list_records store = Storage.list_records store

abbrev pub get_event : Str → MemoryStore → Option VectorEvent
get_event event_id store = Storage.get_event event_id store

abbrev pub get_event_by_hash : Str → MemoryStore → Option VectorEvent
get_event_by_hash event_hash store = Storage.get_event_by_hash event_hash store

abbrev pub list_events : MemoryStore → List VectorEvent
list_events store = Storage.list_events store

abbrev pub get_snapshot : Str → MemoryStore → Option Snapshot
get_snapshot snapshot_id store = Storage.get_snapshot snapshot_id store

abbrev pub list_snapshots : MemoryStore → List Snapshot
list_snapshots store = Storage.list_snapshots store

abbrev pub load_events_for_replay : MemoryStore → List VectorEvent
load_events_for_replay store = Storage.load_events_for_replay store

abbrev pub load_latest_snapshot : MemoryStore → Option Snapshot
load_latest_snapshot store = Storage.load_latest_snapshot store
