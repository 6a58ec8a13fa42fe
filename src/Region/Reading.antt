-- ===== src/Region/Reading.antt =====
-- src/region.rs: the region that an event creates, the core of a history, and access.
use v_kernelx.Base.{
  ℕ, Bool, true, false, not, Option, none, some, List, [], ◌∷◌, ◌++◌, ◌==◌, if◌then◌else◌, compare,
  then_with, Ordering, ◌&&◌,
}
use v_kernelx.Base.Parse.{parse_u64}
use v_kernelx.Base.Sort.{sort_by}
use v_kernelx.Base.Text.{Str, str, str_eq, str_cmp, is_blank}
use v_kernelx.Base.Map.{Map, get, insert, values}
use v_kernelx.Error.{KernelXError, invalid_state, Result, ok, err, ◌>>=◌, ◌>>◌, fail_if}
use v_kernelx.Event.{VectorEvent}
use v_kernelx.External.{External}
use v_kernelx.Region.{is_region_create_event}
use v_kernelx.Region.Core.{new_core, insert_region}
use v_kernelx.Region.Genesis.{default_region_auth_ratio_bps, hash_hex}
use v_kernelx.Region.Request.{invalid_with}
use v_kernelx.Region.Types.{
  RegionVisibility, RegionState, CoreState, normalize_prefix, normalize_name,
}

-- `md.get(key).cloned().ok_or_else(|| InvalidState(format!("missing {key}")))`
unfoldable pub required : Str → Option Str → Result KernelXError Str
required key none = err (invalid_state (str "missing " ++ key))
required key (some v) = ok v

-- `Some(v) if !v.trim().is_empty() => Some(v.clone()), _ => None`
unfoldable pub unless_blank : Option Str → Option Str
unless_blank none = none
unless_blank (some v) = if is_blank v then none else some v

-- `parse::<u64>()`, or the default where the key is missing
unfoldable pub auth_ratio_of : Option Str → Result KernelXError ℕ
auth_ratio_of none = ok default_region_auth_ratio_bps
auth_ratio_of (some v) = invalid_with (str "invalid initial_auth_ratio_bps: ") (parse_u64 v)

unfoldable pub visibility_of : Option Str → Result KernelXError RegionVisibility
visibility_of none = err (invalid_state (str "missing visibility"))
visibility_of (some v) =
    if str_eq v (str "public")
    then ok RegionVisibility.public
    else if str_eq v (str "private")
    then ok RegionVisibility.private
    else err (invalid_state (str "invalid region visibility: " ++ v))

-- `k.strip_prefix(prefix)`
unfoldable pub strip_prefix : Str → Str → Option Str
strip_prefix [] k = some k
strip_prefix (p ∷ prefix) [] = none
strip_prefix (p ∷ prefix) (c ∷ k) =
    let rest = strip_prefix prefix k in if p == c then rest else none

insert_if : Option Str → Str → Map Str → Map Str
insert_if none v m = m
insert_if (some k) v m = insert k v m

-- The entries under `meta:`, without that prefix.
unfoldable pub stripped_meta : Map Str → Map Str → Map Str
unfolding insert_if
stripped_meta metadata [] = metadata
stripped_meta metadata ((k, v) ∷ md) =
    stripped_meta (insert_if (strip_prefix (str "meta:") k) v metadata) md

unfoldable pub region_state_from_event : VectorEvent → Result KernelXError RegionState
region_state_from_event event = do
  fail_if (not (is_region_create_event event))
      (invalid_state (str "event is not a region creation event"))
  fail_if (is_blank event.event_hash) (invalid_state (str "region event hash cannot be empty"))
  let md = event.vector_after.metadata
  region_name ← required (str "region_name") (get (str "region_name") md)
  normalized_name ← required (str "normalized_name") (get (str "normalized_name") md)
  section_text ← required (str "section") (get (str "section") md)
  section ← invalid_with (str "invalid section: ") (parse_u64 section_text)
  auth_ratio_bps ← auth_ratio_of (get (str "initial_auth_ratio_bps") md)
  fail_if (auth_ratio_bps == 0)
      (invalid_state (str "initial_auth_ratio_bps must be greater than zero"))
  visibility ← visibility_of (get (str "visibility") md)
  creator_public_key ← required (str "creator_public_key") (get (str "creator_public_key") md)
  trigger_event_hash ← required (str "trigger_event_hash") (get (str "trigger_event_hash") md)
  creation_proof_hash ← required (str "creation_proof_hash") (get (str "creation_proof_hash") md)
  ok (record {
    region_id = event.entity_id;
    region_root = event.event_hash;
    region_name = region_name;
    normalized_name = normalized_name;
    region_prefix = unless_blank (get (str "region_prefix") md);
    suggested_title = unless_blank (get (str "suggested_title") md);
    visibility = visibility;
    section = section;
    auth_ratio_bps = auth_ratio_bps;
    creator_public_key = creator_public_key;
    trigger_event_hash = trigger_event_hash;
    creation_proof_hash = creation_proof_hash;
    access_key_hash = unless_blank (get (str "access_key_hash") md);
    created_at_ms = event.timestamp;
    updated_at_ms = event.timestamp;
    version = 1;
    metadata = stripped_meta [] md;
  })

-- `Option<String>::cmp`: nothing comes first.
unfoldable pub option_cmp : Option Str → Option Str → Ordering
option_cmp none none = Ordering.eq
option_cmp none (some t) = Ordering.lt
option_cmp (some s) none = Ordering.gt
option_cmp (some s) (some t) = str_cmp s t

-- The order in which regions are listed.
unfoldable pub region_order : RegionState → RegionState → Ordering
region_order a b =
    then_with
      (then_with
        (then_with (str_cmp a.normalized_name b.normalized_name)
          (option_cmp a.region_prefix b.region_prefix))
        (compare a.section b.section))
      (str_cmp a.region_id b.region_id)

-- The loop over the events, with the regions found so far.
unfoldable pub collect_regions :
    Map RegionState → List VectorEvent → Result KernelXError (Map RegionState)
collect_regions regions [] = ok regions
collect_regions regions (event ∷ events) = elim (is_region_create_event event) [
  | true ↦ (do
    region ← region_state_from_event event
    collect_regions (insert region.region_id region regions) events)
  | false ↦ collect_regions regions events
]

unfoldable pub list_regions_from_events : List VectorEvent → Result KernelXError (List RegionState)
list_regions_from_events events = do
  regions ← collect_regions [] events
  ok (sort_by region_order (values regions))

unfoldable pub option_eq : Option Str → Option Str → Bool
option_eq none none = true
option_eq none (some t) = false
option_eq (some s) none = false
option_eq (some s) (some t) = str_eq s t

-- `into_iter().find(..)`
unfoldable pub find_region : (RegionState → Bool) → List RegionState → Option RegionState
find_region test [] = none
find_region test (region ∷ regions) =
    let later = find_region test regions in if test region then some region else later

-- The test of the lookup.
unfoldable pub has_lookup_key : Str → Option Str → RegionState → Bool
has_lookup_key region_name region_prefix region =
    str_eq region.normalized_name (normalize_name region_name)
    && option_eq (normalize_prefix region.region_prefix) (normalize_prefix region_prefix)

unfoldable pub find_region_by_lookup_key :
    List VectorEvent → Str → Option Str → Result KernelXError (Option RegionState)
find_region_by_lookup_key events region_name region_prefix = do
  regions ← list_regions_from_events events
  ok (find_region (has_lookup_key region_name region_prefix) regions)

module _ (ext : External) where
  unfoldable pub apply_region_event :
      VectorEvent → CoreState → Result KernelXError (Unit {0}) × CoreState
  apply_region_event event core = elim (region_state_from_event event) [
    | ok region ↦ insert_region ext region core
    | err e ↦ (err e, core)
  ]

  -- The loop over the events, with the core so far.
  unfoldable pub apply_region_events : CoreState → List VectorEvent → Result KernelXError CoreState
  apply_region_events core [] = ok core
  apply_region_events core (event ∷ events) =
      let (result, after) = apply_region_event event core in
      elim (is_region_create_event event) [
        | true ↦ result >> apply_region_events after events
        | false ↦ apply_region_events core events
      ]

  unfoldable pub core_state_from_events : List VectorEvent → Result KernelXError CoreState
  core_state_from_events events = apply_region_events (new_core ext) events

  -- The second match of `authorize_region_access`.
  unfoldable pub opens : Option Str → Option Str → Bool
  opens none access_key = false
  opens (some expected) none = false
  opens (some expected) (some provided) = str_eq (hash_hex ext provided) expected

  unfoldable pub authorize_region_access : RegionState → Option Str → Bool
  authorize_region_access region access_key = elim region.visibility [
    | RegionVisibility.public ↦ true
    | RegionVisibility.private ↦ opens region.access_key_hash access_key
  ]
