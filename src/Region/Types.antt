-- ===== src/Region/Types.antt =====
-- src/region.rs: the regions, the request for one, and the core that registers them.
use v_kernelx.Base.{ℕ, Option, none, some, [], ◌∷◌, ◌++◌}
use v_kernelx.Base.Text.{Str, str, trim, to_ascii_lowercase, to_ascii_uppercase}
use v_kernelx.Base.Map.{Map}

pub data RegionVisibility : Type 0 where
  public private : RegionVisibility

-- `RegionVisibility::as_str`
unfoldable pub visibility_name : RegionVisibility → Str
visibility_name RegionVisibility.public = str "public"
visibility_name RegionVisibility.private = str "private"

pub record RegionCreateRequest : Type 0 where
  pub region_name : Str
  pub region_prefix : Option Str
  pub suggested_title : Option Str
  pub visibility : RegionVisibility
  pub section : ℕ
  pub trigger_event_hash : Str
  pub creation_proof : Str
  pub access_key : Option Str
  pub metadata : Map Str
  pub request_signature : Str

-- `unwrap_or_default()` of a text
abbrev pub or_empty : Option Str → Str
or_empty none = str ""
or_empty (some s) = s

-- `filter(|v| !v.is_empty())`
abbrev pub unless_empty : Str → Option Str
unless_empty [] = none
unless_empty (c ∷ s) = some (c ∷ s)

-- `map(|v| v.trim().to_ascii_uppercase()).filter(|v| !v.is_empty())`
unfoldable pub normalize_prefix : Option Str → Option Str
normalize_prefix none = none
normalize_prefix (some v) = unless_empty (to_ascii_uppercase (trim v))

-- `trim().to_ascii_lowercase()`
unfoldable pub normalize_name : Str → Str
normalize_name name = to_ascii_lowercase (trim name)

unfoldable pub request_normalized_name : RegionCreateRequest → Str
request_normalized_name request = normalize_name request.region_name

unfoldable pub request_normalized_prefix : RegionCreateRequest → Option Str
request_normalized_prefix request = normalize_prefix request.region_prefix

-- `RegionCreateRequest::lookup_key`
unfoldable pub request_lookup_key : RegionCreateRequest → Str
request_lookup_key request =
    or_empty (request_normalized_prefix request) ++ (str "::" ++ request_normalized_name request)

pub record RegionState : Type 0 where
  pub region_id : Str
  pub region_root : Str
  pub region_name : Str
  pub normalized_name : Str
  pub region_prefix : Option Str
  pub suggested_title : Option Str
  pub visibility : RegionVisibility
  pub section : ℕ
  pub auth_ratio_bps : ℕ
  pub creator_public_key : Str
  pub trigger_event_hash : Str
  pub creation_proof_hash : Str
  pub access_key_hash : Option Str
  pub created_at_ms : ℕ
  pub updated_at_ms : ℕ
  pub version : ℕ
  pub metadata : Map Str

-- `RegionState::lookup_key`
unfoldable pub region_lookup_key : RegionState → Str
region_lookup_key region =
    or_empty (normalize_prefix region.region_prefix)
    ++ (str "::" ++ normalize_name region.normalized_name)

pub record CoreState : Type 0 where
  pub regions : Map RegionState
  pub total_auth_ratio_bps : ℕ
  pub core_root : Str
  pub version : ℕ
