-- ===== src/Tests/Ledgers.antt =====
-- The event ledger on concrete events.
use v_kernelx.Base.{◌≡◌, ◌⊎◌, refl, ℕ, some, true, [], arith}
use v_kernelx.Base.Text.{str, str_eq, is_blank, trim, trim_rev, trim_start}
use v_kernelx.Serialization.Codes.{Is64}
use v_kernelx.External.{External, Collides}
use v_kernelx.Float.{is_finite, lt_zero, gt_one}
use v_kernelx.Hash.{canonical_payload_hash, canonical_event_hash}
use v_kernelx.Region.{is_region_create_event, region_create_operation_name, region_type_tag}
use v_kernelx.Base.Map.{Map, get, insert}
use v_kernelx.Engine.{hashed}
use v_kernelx.Engine.Agree.{ledgers-agree}
use v_kernelx.Engine.Induction.{run}
use v_kernelx.Engine.Ledger.{IsLedger, run-get_event_by_hash, IsLedger-empty, insert-IsLedger}
use v_kernelx.Engine.Monad.{KernelEngine}
use v_kernelx.Error.{ok}
use v_kernelx.Event.{VectorEvent, VectorState, certify, new_event, zero_state}
use v_kernelx.Serialization.{canonical_event_bytes}
use v_kernelx.Serialization.Events.{IsEvent, IsStored, SamePayload}
use v_kernelx.Storage.{get_event_by_hash}
use v_kernelx.Tests.World.{toy, two_vectors}
use v_kernelx.Validation.{
  validate_event, check_signature, validate_fields, validate_hashes, validate_region_create,
}
use v_kernelx.Tests.Sessions.{session}

-- A hash under which everything collides.
abbrev blunt : External
blunt = record toy { blake3_hex = λ _. str "0" }

abbrev blank : VectorState
blank = zero_state 1 (str "pk-a") (str "Standard")

abbrev event_at : ℕ → VectorEvent
event_at clock_value = hashed blunt (
    new_event (str "A::S::CERTIFY::1::1") [] (str "S") (str "A") certify blank blank
      0x3ff0000000000000 true (str "pk-a") clock_value 7)

abbrev ledger_of : VectorEvent → Map VectorEvent
ledger_of e = insert e.event_hash e []

first_valid : validate_event blunt (event_at 1) ≡ ok tt
unfolding validate_event str str_eq hashed new_event zero_state is_blank trim trim_rev trim_start
    is_finite lt_zero gt_one canonical_payload_hash canonical_event_hash is_region_create_event
    region_create_operation_name region_type_tag get check_signature validate_fields validate_hashes
    validate_region_create
first_valid = refl

second_valid : validate_event blunt (event_at 2) ≡ ok tt
unfolding validate_event str str_eq hashed new_event zero_state is_blank trim trim_rev trim_start
    is_finite lt_zero gt_one canonical_payload_hash canonical_event_hash is_region_create_event
    region_create_operation_name region_type_tag get check_signature validate_fields validate_hashes
    validate_region_create
second_valid = refl

first-IsLedger : IsLedger blunt (ledger_of (event_at 1))
unfolding hashed new_event
first-IsLedger = insert-IsLedger blunt (event_at 1) [] (IsLedger-empty blunt) first_valid tt refl

second-IsLedger : IsLedger blunt (ledger_of (event_at 2))
unfolding hashed new_event
second-IsLedger = insert-IsLedger blunt (event_at 2) [] (IsLedger-empty blunt) second_valid tt refl

first_stored : get (str "0") (ledger_of (event_at 1)) ≡ some (event_at 1)
unfolding get insert hashed new_event canonical_event_hash str str_eq
first_stored = refl

second_stored : get (str "0") (ledger_of (event_at 2)) ≡ some (event_at 2)
unfolding get insert hashed new_event canonical_event_hash str str_eq
second_stored = refl

abbrev with_event : KernelEngine
with_event = record two_vectors {
  store = record two_vectors.store { events = ledger_of (event_at 1) };
}

run-get_event_by_hash_example :
    get_event_by_hash (str "0") (run blunt session with_event).store ≡ some (event_at 1)
unfolding get_event_by_hash
run-get_event_by_hash_example =
    run-get_event_by_hash blunt (str "0") (event_at 1) session with_event first_stored

blank-IsStored : IsStored blank
unfolding zero_state str
blank-IsStored = record {
  components = (omega arith, (omega arith, tt));
  owner = omega arith;
  type_tag = omega arith;
  metadata = (omega arith, tt);
}

event_at-IsEvent : (c : ℕ) → Is64 c → IsEvent (event_at c)
unfolding new_event hashed canonical_payload_hash str
event_at-IsEvent c small = record {
  event_id = omega arith;
  parent_hashes = (omega arith, tt);
  region_id = omega arith;
  entity_id = omega arith;
  operation = omega arith;
  vector_before = blank-IsStored;
  vector_after = blank-IsStored;
  auth_ratio = omega arith;
  actor_public_key = omega arith;
  logical_clock = small;
  timestamp = omega arith;
  payload_hash = omega arith;
}

ledgers-agree_example :
    (SamePayload (event_at 1) (event_at 2)
      × ((event_at 1).payload_hash ≡ (event_at 2).payload_hash))
    ⊎ Collides blunt (canonical_event_bytes (event_at 1)) (canonical_event_bytes (event_at 2))
ledgers-agree_example =
    ledgers-agree blunt (ledger_of (event_at 1)) (ledger_of (event_at 2)) (str "0") (event_at 1)
      (event_at 2) first-IsLedger second-IsLedger first_stored second_stored
      (event_at-IsEvent 1 (omega arith)) (event_at-IsEvent 2 (omega arith))
