-- ===== src/Region/Genesis.antt =====
-- src/region.rs: the id and the event of a new region.
use v_kernelx.Base.{ℕ, true, Option, none, some, List, [], ◌∷◌, ◌++◌, take, min, length}
use v_kernelx.Base.Text.{Str, str, decimal}
use v_kernelx.Base.Map.{Map, insert}
use v_kernelx.Error.{KernelXError, Result, ok, ◌>>=◌, ◌>>◌}
use v_kernelx.Event.{
  OperationType, other, VectorState, zero_state, VectorEvent, new_event, canonical_event_id,
}
use v_kernelx.External.{External}
use v_kernelx.Hash.{canonical_payload_hash, canonical_event_hash}
use v_kernelx.Region.{region_create_operation_name, region_type_tag}
use v_kernelx.Region.Request.{validate_region_create_request, invalid_with}
use v_kernelx.Region.Types.{
  visibility_name, RegionCreateRequest, or_empty, request_normalized_name,
  request_normalized_prefix,
}

-- `DEFAULT_REGION_AUTH_RATIO_BPS`
abbrev pub default_region_auth_ratio_bps : ℕ
default_region_auth_ratio_bps = 1000

-- `region_create_operation`
unfoldable pub region_create_operation : OperationType
region_create_operation = other region_create_operation_name

-- `metadata.insert(format!("meta:{k}"), v.clone())` for each entry
unfoldable pub add_meta : Map Str → Map Str → Map Str
add_meta metadata [] = metadata
add_meta metadata ((k, v) ∷ rest) = add_meta (insert (str "meta:" ++ k) v metadata) rest

-- `map(|v| ..)`
abbrev pub map_some : (Str → Str) → Option Str → Option Str
map_some f none = none
map_some f (some s) = some (f s)

-- `unwrap_or_else(|| "RGN".to_string())`
abbrev or_region : Option Str → Str
or_region none = str "RGN"
or_region (some prefix) = prefix

module _ (ext : External) where
  -- `hash_hex`
  abbrev pub hash_hex : Str → Str
  hash_hex input = ext.blake3_hex input

  unfoldable pub canonical_region_seed_bytes :
      RegionCreateRequest → Str → Result KernelXError (List ℕ)
  canonical_region_seed_bytes request actor_public_key = do
    metadata ←
        invalid_with (str "region metadata serialization error: ") (ext.map_json request.metadata)
    let payload = insert (str "metadata") metadata (
        insert (str "access_key_hash") (or_empty (map_some hash_hex request.access_key)) (
          insert (str "creation_proof_hash") (hash_hex request.creation_proof) (
            insert (str "trigger_event_hash") request.trigger_event_hash (
              insert (str "section") (decimal request.section) (
                insert (str "visibility") (visibility_name request.visibility) (
                  insert (str "suggested_title") (or_empty request.suggested_title) (
                    insert (str "region_prefix") (or_empty request.region_prefix) (
                      insert (str "region_name") request.region_name
                        (insert (str "actor_public_key") actor_public_key [])))))))))
    invalid_with (str "region seed serialization error: ") (ext.map_json payload)

  -- A digest is ASCII, so its first 24 bytes are its first 24 characters.
  unfoldable pub canonical_region_id : RegionCreateRequest → Str → ℕ → Result KernelXError Str
  canonical_region_id request actor_public_key sequence = do
    seed ← canonical_region_seed_bytes request actor_public_key
    let digest = ext.blake3_hex seed
    ok (
        or_region (request_normalized_prefix request)
        ++ (str "::rgn_"
            ++ (take (min 24 (length digest)) digest ++ (str "::" ++ decimal sequence))))

  -- The metadata of the event, without the request's own.
  unfoldable pub genesis_fields : RegionCreateRequest → Str → Map Str
  genesis_fields request actor_public_key = insert (str "default_auth_ratio") (str "1.0") (
      insert (str "core_registry") (str "core") (
        insert (str "initial_auth_ratio_bps") (decimal default_region_auth_ratio_bps) (
          insert (str "access_key_hash") (or_empty (map_some hash_hex request.access_key)) (
            insert (str "creation_proof_hash") (hash_hex request.creation_proof) (
              insert (str "trigger_event_hash") request.trigger_event_hash (
                insert (str "creator_public_key") actor_public_key (
                  insert (str "visibility") (visibility_name request.visibility) (
                    insert (str "suggested_title") (or_empty request.suggested_title) (
                      insert (str "section") (decimal request.section) (
                        insert (str "region_prefix") (or_empty (request_normalized_prefix request))
                          (insert (str "normalized_name") (request_normalized_name request) (
                            insert (str "region_name") request.region_name
                              (insert (str "region_kind") region_type_tag [])))))))))))))

  -- The event before its hashes; `0x3ff0000000000000` is 1.0.
  unfoldable pub unhashed_genesis_event : RegionCreateRequest → Str → Str → ℕ → ℕ → ℕ → VectorEvent
  unhashed_genesis_event request region_id actor_public_key logical_clock timestamp sequence =
      let after : VectorState = record {
        components = [];
        owner_public_key = [];
        type_tag = region_type_tag;
        metadata = add_meta (genesis_fields request actor_public_key) request.metadata;
      } in
      record (new_event
        (canonical_event_id region_id region_id region_create_operation logical_clock sequence) []
        region_id region_id region_create_operation (zero_state 0 [] region_type_tag) after
        0x3ff0000000000000 true actor_public_key logical_clock timestamp) {
          signature = request.request_signature;
        }

  -- The two hashes, filled in in this order.
  abbrev pub sealed : VectorEvent → VectorEvent
  sealed event =
      let with_payload = record event { payload_hash = canonical_payload_hash ext event } in
      record with_payload { event_hash = canonical_event_hash ext with_payload }

  unfoldable pub build_region_genesis_event :
      RegionCreateRequest → Str → ℕ → ℕ → ℕ → Result KernelXError VectorEvent
  build_region_genesis_event request actor_public_key logical_clock timestamp sequence = do
    validate_region_create_request request
    region_id ← canonical_region_id request actor_public_key sequence
    ok (
        sealed (
          unhashed_genesis_event request region_id actor_public_key logical_clock timestamp
            sequence))
