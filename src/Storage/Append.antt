-- ===== src/Storage/Append.antt =====
-- `append_event` branch by branch, and what it leaves of the events that are there.
use v_kernelx.Base.{◌≡◌, ◌≢◌, ◌↔◌, true, false, some, [], ◌∷◌, ◌++◌, arith, is_nil}
use v_kernelx.Base.Text.{Str, str, str_eq_iff}
use v_kernelx.Base.Map.{Map, get, contains_key, insert, values, get-insert}
use v_kernelx.Error.{invalid_state, ok, err}
use v_kernelx.Event.{VectorEvent}
use v_kernelx.Storage.{MemoryStore, has_event_id, append_event}

-- The event is new to the store, under its hash and under its id, and has both.
abbrev pub IsFresh : VectorEvent → MemoryStore → Type 0
IsFresh e store =
    (is_nil e.event_id ≡ false)
    × (is_nil e.event_hash ≡ false)
    × (contains_key e.event_hash store.events ≡ false)
    × (has_event_id e.event_id (values store.events) ≡ false)

abbrev pub appended : VectorEvent → MemoryStore → MemoryStore
appended e store = record store { events = insert e.event_hash e store.events }

-- An append goes through exactly when the event has an id and a hash and neither is in the store,
-- and then adds the event under its hash and changes nothing else.
pub append_event-eq-ok_iff :
    (e : VectorEvent) (store store' : MemoryStore)
    → (append_event e store ≡ ok store') ↔ (IsFresh e store × (store' ≡ appended e store))
unfolding append_event
append_event-eq-ok_iff e store store' = (λ h. ground arith, λ h. ground arith)

-- A repeated hash is refused with its message, whatever the rest of the event.
pub append_event-duplicate_hash :
    (e : VectorEvent) (store : MemoryStore)
    → is_nil e.event_id ≡ false
    → is_nil e.event_hash ≡ false
    → contains_key e.event_hash store.events ≡ true
    → append_event e store
      ≡ err (invalid_state (str "duplicate canonical event_hash detected: " ++ e.event_hash))
unfolding append_event
append_event-duplicate_hash e store a b c = ground arith

module _ {ℓ} {V : Type ℓ} where
  -- A write under a key that is not there leaves every entry that is.
  pub get-insert_fresh :
      (k j : Str) (v w : V) (m : Map V)
      → contains_key k m ≡ false
      → get j m ≡ some w
      → get j (insert k v m) ≡ some w
  unfolding contains_key
  get-insert_fresh k j v w m fresh found = ground (arith, get-insert k j v m, str_eq_iff k j)

-- No event under another hash has an id that the store does not have.
pub event_id-fresh :
    (m : Map VectorEvent) (id h : Str) (e : VectorEvent)
    → has_event_id id (values m) ≡ false
    → get h m ≡ some e
    → e.event_id ≢ id
unfolding get
event_id-fresh [] id h e none_has found same = absurd (cc)
event_id-fresh ((j, v) ∷ m) id h e none_has found same =
    ground (arith, str_eq_iff v.event_id id, event_id-fresh m id h e)
