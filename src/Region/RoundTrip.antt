-- ===== src/Region/RoundTrip.antt =====
-- The region that is read from the event of a new region is the one that was requested.
use v_kernelx.Base.{
  ℕ, ◌≤◌, ◌≡◌, refl, ◌∙◌, true, false, Option, none, some, arith, inl, inr, u64_max,
}
use v_kernelx.Base.Parse.Decimal.{parse_u64-decimal}
use v_kernelx.Base.Text.{Str, str, str_eq, str_eq_iff, str_cmp, is_blank, decimal}
use v_kernelx.Base.Map.{Map, get, insert, IsOrdered, insert-IsOrdered}
use v_kernelx.Error.{ok, Result-cases}
use v_kernelx.Event.{VectorEvent, new_event}
use v_kernelx.Hash.{canonical_event_hash}
use v_kernelx.External.{External, HashesAreText}
use v_kernelx.Region.{region_create_operation_name, is_region_create_event}
use v_kernelx.Region.Genesis.{
  default_region_auth_ratio_bps, region_create_operation, add_meta, map_some, hash_hex,
  canonical_region_id, genesis_fields, unhashed_genesis_event, build_region_genesis_event, sealed,
}
use v_kernelx.Region.Meta.{meta_key, get-add_meta_other, stripped_meta-add_meta}
use v_kernelx.Region.Reading.{
  required, unless_blank, auth_ratio_of, visibility_of, strip_prefix, region_state_from_event,
}
use v_kernelx.Region.Request.{validate_region_create_request}
use v_kernelx.Region.Types.{
  RegionVisibility, visibility_name, RegionCreateRequest, RegionState, or_empty,
  request_normalized_name, request_normalized_prefix,
}

module _ (ext : External) (request : RegionCreateRequest) (key : Str) where
  abbrev fields : Map Str
  fields = genesis_fields ext request key

  genesis_fields-IsOrdered : IsOrdered fields
  unfolding genesis_fields
  genesis_fields-IsOrdered = search insert-IsOrdered depth 20

  genesis_fields-no_meta : (k : Str) → get (meta_key k) fields ≡ none
  unfolding genesis_fields get insert str str_eq str_cmp
  genesis_fields-no_meta k = refl

  -- What is read of the fields.
  record HasFields (md : Map Str) : Type 0 where
    region_name : get (str "region_name") md ≡ some request.region_name
    normalized_name : get (str "normalized_name") md ≡ some (request_normalized_name request)
    region_prefix :
        get (str "region_prefix") md ≡ some (or_empty (request_normalized_prefix request))
    section : get (str "section") md ≡ some (decimal request.section)
    suggested_title : get (str "suggested_title") md ≡ some (or_empty request.suggested_title)
    visibility : get (str "visibility") md ≡ some (visibility_name request.visibility)
    creator : get (str "creator_public_key") md ≡ some key
    trigger : get (str "trigger_event_hash") md ≡ some request.trigger_event_hash
    proof : get (str "creation_proof_hash") md ≡ some (hash_hex ext request.creation_proof)
    access :
        get (str "access_key_hash") md
        ≡ some (or_empty (map_some (hash_hex ext) request.access_key))
    ratio : get (str "initial_auth_ratio_bps") md ≡ some (decimal default_region_auth_ratio_bps)

  genesis_fields-HasFields : HasFields fields
  unfolding genesis_fields get insert str str_eq str_cmp
  genesis_fields-HasFields = record {
    region_name = refl;
    normalized_name = refl;
    region_prefix = refl;
    section = refl;
    suggested_title = refl;
    visibility = refl;
    creator = refl;
    trigger = refl;
    proof = refl;
    access = refl;
    ratio = refl;
  }

  add_meta-HasFields : (md : Map Str) → HasFields (add_meta fields md)
  unfolding strip_prefix str
  add_meta-HasFields md =
      let own = genesis_fields-HasFields in
      let kept =
        λ (j : Str) (p : strip_prefix (str "meta:") j ≡ none). get-add_meta_other j fields md p in
      record {
        region_name = kept _ refl ∙ own.region_name;
        normalized_name = kept _ refl ∙ own.normalized_name;
        region_prefix = kept _ refl ∙ own.region_prefix;
        section = kept _ refl ∙ own.section;
        suggested_title = kept _ refl ∙ own.suggested_title;
        visibility = kept _ refl ∙ own.visibility;
        creator = kept _ refl ∙ own.creator;
        trigger = kept _ refl ∙ own.trigger;
        proof = kept _ refl ∙ own.proof;
        access = kept _ refl ∙ own.access;
        ratio = kept _ refl ∙ own.ratio;
      }

  -- The region that a request describes, at the event that creates it.
  abbrev pub requested : VectorEvent → RegionState
  requested event = record {
    region_id = event.entity_id;
    region_root = event.event_hash;
    region_name = request.region_name;
    normalized_name = request_normalized_name request;
    region_prefix = unless_blank (request_normalized_prefix request);
    suggested_title = unless_blank request.suggested_title;
    visibility = request.visibility;
    section = request.section;
    auth_ratio_bps = 1000;
    creator_public_key = key;
    trigger_event_hash = request.trigger_event_hash;
    creation_proof_hash = hash_hex ext request.creation_proof;
    access_key_hash = map_some (hash_hex ext) request.access_key;
    created_at_ms = event.timestamp;
    updated_at_ms = event.timestamp;
    version = 1;
    metadata = request.metadata;
  }

  visibility_of-visibility_name :
      (v : RegionVisibility) → visibility_of (some (visibility_name v)) ≡ ok v
  unfolding visibility_of visibility_name str str_eq
  visibility_of-visibility_name RegionVisibility.public = refl
  visibility_of-visibility_name RegionVisibility.private = refl

  unless_blank-or_empty : (o : Option Str) → unless_blank (some (or_empty o)) ≡ unless_blank o
  unfolding unless_blank is_blank str
  unless_blank-or_empty none = refl
  unless_blank-or_empty (some s) = refl

  unless_blank-hash :
      HashesAreText ext
      → (o : Option Str)
      → unless_blank (some (or_empty (map_some (hash_hex ext) o))) ≡ map_some (hash_hex ext) o
  unfolding unless_blank is_blank str
  unless_blank-hash text none = refl
  unless_blank-hash text (some s) = rw (text.not_blank s) refl

  -- Reading a region off an event that has the requested fields.
  read_fields :
      (e : VectorEvent)
      → HashesAreText ext
      → request.section ≤ u64_max
      → IsOrdered request.metadata
      → is_region_create_event e ≡ true
      → is_blank e.event_hash ≡ false
      → e.vector_after.metadata ≡ add_meta fields request.metadata
      → region_state_from_event e ≡ ok (requested e)
  unfolding region_state_from_event required auth_ratio_of
  read_fields e text small ordered creates named md =
      let own = add_meta-HasFields request.metadata in
      let section = parse_u64-decimal request.section small in
      let ratio = parse_u64-decimal 1000 (omega arith) in
      let back =
        stripped_meta-add_meta fields request.metadata genesis_fields-IsOrdered ordered
          genesis_fields-no_meta in
      rw
        (
          creates,
          named,
          md,
          own.region_name,
          own.normalized_name,
          own.region_prefix,
          own.section,
          own.suggested_title,
          own.visibility,
          own.creator,
          own.trigger,
          own.proof,
          own.access,
          own.ratio,
          section,
          ratio,
          visibility_of-visibility_name request.visibility,
          unless_blank-or_empty request.suggested_title,
          unless_blank-or_empty (request_normalized_prefix request),
          unless_blank-hash text request.access_key,
          back,
        )
        refl

  module _ (clock time sequence : ℕ) where
    -- What a built event is.
    build-eq-ok :
        (e : VectorEvent)
        → build_region_genesis_event ext request key clock time sequence ≡ ok e
        → (id : Str) × (canonical_region_id ext request key sequence ≡ ok id)
          × (e ≡ sealed ext (unhashed_genesis_event ext request id key clock time sequence))
    unfolding build_region_genesis_event
    build-eq-ok e h = elim (Result-cases (validate_region_create_request request)) [
      | inr (why, bad) ↦ absurd (cc (rw bad at h))
      | inl (_, good) ↦ elim (Result-cases (canonical_region_id ext request key sequence)) [
        | inr (why, bad) ↦ absurd (cc (rw (good, bad) at h))
        | inl (id, named) ↦ (id, named, cc (rw (good, named) at h))
      ]
    ]

    -- Reading back the event that a request for a region builds gives the requested region, in
    -- every field, if digests are not blank, the section is within u64 and the metadata is a map.
    pub build-region_state_from_event :
        (e : VectorEvent)
        → HashesAreText ext
        → request.section ≤ u64_max
        → IsOrdered request.metadata
        → build_region_genesis_event ext request key clock time sequence ≡ ok e
        → region_state_from_event e ≡ ok (requested e)
    unfolding unhashed_genesis_event new_event is_region_create_event region_create_operation
        canonical_event_hash
    build-region_state_from_event e text small ordered h =
        let (id, named, is) = build-eq-ok e h in
        rw is (
          read_fields _ text small ordered
            ((str_eq_iff region_create_operation_name region_create_operation_name).1 refl)
            (text.not_blank _) refl)
