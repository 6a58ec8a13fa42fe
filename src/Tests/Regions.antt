-- ===== src/Tests/Regions.antt =====
-- Regions and snapshots on concrete inputs.
use v_kernelx.Base.{
  ◌≡◌, ◌↔◌, ◌⊎◌, ◌∙◌, refl, ap, Bool, true, false, none, some, [], ◌∷◌, arith, replicate,
}
use v_kernelx.Base.Text.{Str, str, str_eq, is_blank, trim, trim_start, trim_rev, decimal, digits_of}
use v_kernelx.Base.Map.{get, insert, contains_key}
use v_kernelx.Engine.{
  new_engine, query_events, next_logical_clock, latest_event, append_canonical_event,
  ensure_parent_closure,
}
use v_kernelx.Engine.Founding.{IsFounded, create_region-IsFounded}
use v_kernelx.Engine.Monad.{KernelEngine, done, ◌>>=◌}
use v_kernelx.Engine.Queries.{create_region, query_region_by_name}
use v_kernelx.Error.{KernelXError, Result, ok, err, ◌>>◌}
use v_kernelx.Event.{VectorEvent, new_event, zero_state, canonical_event_id, canonical_name}
use v_kernelx.External.{External, HashesAreText, Collides}
use v_kernelx.Region.{is_region_create_event, region_create_operation_name}
use v_kernelx.Region.Access.{request_key_opens, other_key-Collides}
use v_kernelx.Region.Core.{new_core, insert_region, rooted}
use v_kernelx.Region.Genesis.{
  region_create_operation, canonical_region_seed_bytes, canonical_region_id, unhashed_genesis_event,
  sealed, build_region_genesis_event,
}
use v_kernelx.Region.Reading.{
  region_state_from_event, find_region, collect_regions, list_regions_from_events,
  find_region_by_lookup_key, core_state_from_events, apply_region_event, apply_region_events, opens,
  authorize_region_access,
}
use v_kernelx.Region.Request.{
  canonical_region_request_signature_bytes, debug_region_create_request_signature,
  verify_region_create_request_signature, validate_access, validate_region_create_request,
}
use v_kernelx.Region.RoundTrip.{requested, build-region_state_from_event}
use v_kernelx.Region.Totals.{IsSound, core_state_from_events-IsSound}
use v_kernelx.Region.Types.{
  normalize_prefix, request_normalized_prefix, RegionVisibility, RegionCreateRequest, RegionState,
  CoreState,
}
use v_kernelx.Replay.{ReplayResult}
use v_kernelx.Serialization.{canonical_state_map_bytes}
use v_kernelx.Snapshot.Taking.{create_snapshot, verify_snapshot, verify_snapshot-create_snapshot}
use v_kernelx.Signature.{verifying_key_from_hex, verify_event_signature, hex_decode, decode_pairs}
use v_kernelx.Storage.{append_event, load_events_for_replay}
use v_kernelx.Validation.{validate_event, validate_fields, validate_hashes, validate_region_create}
use v_kernelx.Hash.{canonical_event_hash, canonical_payload_hash}
use v_kernelx.Float.{is_finite, lt_zero, gt_one}
use v_kernelx.Base.Sort.{sort_by}
use v_kernelx.Tests.World.{toy, clock}

-- A hash that is the same text for all inputs.
abbrev plain : External
plain = record toy { blake3_hex = λ bytes. str "digest" }

plain_text : HashesAreText plain
unfolding is_blank trim trim_start trim_rev str
plain_text = record { not_blank = λ bytes. refl }

abbrev request : RegionCreateRequest
request = record {
  region_name = str "Harbour";
  region_prefix = none;
  suggested_title = none;
  visibility = RegionVisibility.private;
  section = 3;
  trigger_event_hash = str "t";
  creation_proof = str "p";
  access_key = some (str "key");
  metadata = [];
  request_signature = str "00";
}

abbrev actor : Str
actor = replicate 64 b'0'

abbrev founded : VectorEvent
founded =
    sealed plain (unhashed_genesis_event plain request (str "RGN::rgn_digest::1") actor 0 1000 1)

abbrev harbour : RegionState
harbour = requested plain request actor founded

founded_built : build_region_genesis_event plain request actor 0 1000 1 ≡ ok founded
unfolding build_region_genesis_event validate_region_create_request canonical_region_id
    canonical_region_seed_bytes is_blank trim trim_start trim_rev str request_normalized_prefix
    normalize_prefix decimal digits_of unhashed_genesis_event
founded_built = refl

harbour_read : region_state_from_event founded ≡ ok harbour
harbour_read =
    build-region_state_from_event plain request actor 0 1000 1 founded plain_text (omega arith) tt
      founded_built

build-region_state_from_event_example : region_state_from_event founded ≡ ok harbour
build-region_state_from_event_example =
    build-region_state_from_event plain request actor 0 1000 1 founded plain_text (omega arith) tt
      founded_built

key_valid : validate_access request.visibility request.access_key ≡ ok tt
unfolding is_blank trim trim_start trim_rev str
key_valid = refl

request_key_opens_example : authorize_region_access plain harbour (some (str "key")) ≡ true
request_key_opens_example =
    request_key_opens plain request actor 0 1000 1 founded harbour plain_text (omega arith) tt
      founded_built harbour_read key_valid

-- Under this hash every key opens.
other_key : authorize_region_access plain harbour (some (str "other")) ≡ true
unfolding authorize_region_access opens str_eq str
other_key = refl

other_key-Collides_example :
    (request.access_key ≡ some (str "other"))
    ⊎ ((own : Str) × (request.access_key ≡ some own) × Collides plain own (str "other"))
other_key-Collides_example =
    other_key-Collides plain request actor 0 1000 1 founded harbour (str "other") plain_text
      (omega arith) tt founded_built harbour_read refl other_key

abbrev core : CoreState
core = rooted plain (record (new_core plain) {
  regions = (harbour.region_id, harbour) ∷ [];
  total_auth_ratio_bps = 1000;
  version = 1;
})

founded_creates : is_region_create_event founded ≡ true
unfolding is_region_create_event unhashed_genesis_event new_event region_create_operation
    region_create_operation_name str str_eq
founded_creates = refl

abbrev after_turn : Bool → Result KernelXError RegionState → Result KernelXError CoreState
after_turn kind read =
    let (result, after) : Result KernelXError (Unit {0}) × CoreState = elim read [
      | ok region ↦ insert_region plain region (new_core plain)
      | err x ↦ (err x, new_core plain)
    ] in
    elim kind [ true ↦ result >> ok after | false ↦ ok (new_core plain) ]

-- A history of one creation registers its region.
core_of_one :
    (e : VectorEvent) (r : RegionState)
    → is_region_create_event e ≡ true
    → region_state_from_event e ≡ ok r
    → core_state_from_events plain (e ∷ []) ≡ after_turn true (ok r)
unfolding core_state_from_events apply_region_events apply_region_event
core_of_one e r creates read =
    ap (λ k. after_turn k (region_state_from_event e)) creates ∙ ap (after_turn true) read

core_registers : after_turn true (ok harbour) ≡ ok core
unfolding insert_region new_core contains_key get insert
core_registers = refl

core_built : core_state_from_events plain (founded ∷ []) ≡ ok core
core_built = core_of_one founded harbour founded_creates harbour_read ∙ core_registers

core_state_from_events-IsSound_example : IsSound plain core
core_state_from_events-IsSound_example =
    core_state_from_events-IsSound plain (founded ∷ []) core core_built

abbrev settled : KernelEngine
settled = record new_engine {
  store = record (new_engine.store) { events = (founded.event_hash, founded) ∷ [] };
}

actor_text : is_blank actor ≡ false
unfolding is_blank trim trim_start trim_rev
actor_text = refl

fields_valid : validate_fields founded ≡ ok tt
unfolding validate_fields unhashed_genesis_event new_event zero_state canonical_event_id is_blank
    trim trim_start trim_rev str region_create_operation decimal digits_of canonical_name is_finite
    lt_zero gt_one
fields_valid = refl

hashes_valid : validate_hashes plain founded ≡ ok tt
unfolding validate_hashes canonical_payload_hash canonical_event_hash str str_eq
hashes_valid = refl

creation_valid : validate_region_create founded ≡ ok tt
unfolding validate_region_create unhashed_genesis_event new_event is_blank trim trim_start trim_rev
    str region_create_operation region_create_operation_name str_eq
creation_valid = refl

founded_valid : validate_event plain founded ≡ ok tt
unfolding validate_event
founded_valid = rw (founded_creates, fields_valid, hashes_valid, creation_valid) refl

harbour_created : create_region plain clock request actor new_engine ≡ (done harbour, settled)
unfolding create_region ◌>>=◌ validate_region_create_request verify_region_create_request_signature
    debug_region_create_request_signature canonical_region_request_signature_bytes
    verifying_key_from_hex verify_event_signature hex_decode decode_pairs query_region_by_name
    query_events find_region_by_lookup_key list_regions_from_events collect_regions sort_by
    load_events_for_replay next_logical_clock latest_event is_blank trim trim_start trim_rev str
    append_canonical_event ensure_parent_closure append_event contains_key get insert find_region
    unhashed_genesis_event new_event canonical_event_id canonical_event_hash
harbour_created = rw (founded_built, founded_creates, founded_valid, harbour_read) refl

create_region-IsFounded_example : IsFounded plain request actor new_engine settled harbour
create_region-IsFounded_example =
    create_region-IsFounded plain clock request actor new_engine settled harbour harbour_created

abbrev replayed : ReplayResult
replayed = record {
  final_state = [];
  core_state = core;
  state_root = record { root_hash = str "r"; event_count = 1; logical_clock = 0 };
  replay_hash = str "replay";
  applied_event_hashes = [];
}

verify_snapshot-create_snapshot_example :
    (verify_snapshot plain (create_snapshot plain replayed [] 7) [] (str "replay") ≡ ok true) ↔ (
      (canonical_state_map_bytes [] ≡ canonical_state_map_bytes []) × (str "replay" ≡ str "replay"))
verify_snapshot-create_snapshot_example =
    verify_snapshot-create_snapshot plain replayed [] 7 [] (str "replay") plain_text
