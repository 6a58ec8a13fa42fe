-- ===== src/Python/Requests.antt =====
-- src/python_api.rs: the request for a region that comes from Python.
use v_kernelx.Base.{ℕ, Option, ◌++◌, if◌then◌else◌}
use v_kernelx.Base.Text.{Str, str, str_eq, trim, to_ascii_lowercase}
use v_kernelx.Error.{Result, ok, err, ◌>>=◌}
use v_kernelx.External.{External, Value}
use v_kernelx.Python.Objects.{PyAny, py_string, py_any_to_json_value, metadata_from_json}
use v_kernelx.Region.Types.{RegionVisibility, RegionCreateRequest}

pub record CreateRegionRequestInput : Type 0 where
  pub region_name : Str
  pub actor_public_key : Str
  pub trigger_event_hash : Str
  pub creation_proof : Str
  pub visibility : Str
  pub section : ℕ
  pub request_signature : Str
  pub region_prefix : Option Str
  pub suggested_title : Option Str
  pub access_key : Option Str
  pub metadata : Option Value

unfoldable pub parse_region_visibility : Str → Result Str RegionVisibility
parse_region_visibility value =
    let name = to_ascii_lowercase (trim value) in
    if str_eq name (str "public")
    then ok RegionVisibility.public
    else if str_eq name (str "private")
    then ok RegionVisibility.private
    else err (str "invalid region visibility: " ++ name)

-- A text is read as JSON.
json_of_text : Result Str Value → Result Str Value
json_of_text (ok value) = ok value
json_of_text (err e) = err (str "create_region expected a dict/object or valid JSON string: " ++ e)

module _ (ext : External) where
  value_of_request : PyAny → Result Str Value
  value_of_request (py_string raw_json) = json_of_text (ext.parse_json raw_json)
  value_of_request request = py_any_to_json_value request

  -- `from_value` is `serde_json::from_value::<CreateRegionRequestInput>`, or the message of its error.
  module _ (from_value : Value → Result Str CreateRegionRequestInput) where
    unfoldable pub create_region_input_from_any : PyAny → Result Str CreateRegionRequestInput
    unfolding value_of_request json_of_text
    create_region_input_from_any request = value_of_request request >>= from_value

  -- The struct that `create_region` fills.
  unfoldable pub request_of_input : CreateRegionRequestInput → Result Str RegionCreateRequest
  request_of_input input = parse_region_visibility input.visibility >>= λ visibility.
      metadata_from_json ext input.metadata >>= λ metadata. ok (record {
        region_name = input.region_name;
        region_prefix = input.region_prefix;
        suggested_title = input.suggested_title;
        visibility = visibility;
        section = input.section;
        trigger_event_hash = input.trigger_event_hash;
        creation_proof = input.creation_proof;
        access_key = input.access_key;
        metadata = metadata;
        request_signature = input.request_signature;
      })
