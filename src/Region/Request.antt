-- ===== src/Region/Request.antt =====
-- src/region.rs: the checks of a request for a region, and its signature.
use v_kernelx.Base.{ℕ, Bool, not, Option, none, some, List, [], ◌++◌, ◌==◌, length, take, min}
use v_kernelx.Base.Text.{Str, str, is_blank, decimal}
use v_kernelx.Base.Map.{insert}
use v_kernelx.Error.{KernelXError, invalid_state, Result, ok, err, ◌>>=◌, ◌>>◌, fail_if}
use v_kernelx.External.{External}
use v_kernelx.Region.Types.{
  RegionVisibility, visibility_name, RegionCreateRequest, or_empty, request_lookup_key,
}
use v_kernelx.Signature.{verifying_key_from_hex, verify_event_signature}

-- The last check: a key for a private region only.
abbrev pub validate_access : RegionVisibility → Option Str → Result KernelXError (Unit {0})
validate_access RegionVisibility.public none = ok tt
validate_access RegionVisibility.public (some key) =
    err (invalid_state (str "public regions must not include an access_key"))
validate_access RegionVisibility.private none =
    err (invalid_state (str "private regions require a non-empty access_key"))
validate_access RegionVisibility.private (some key) =
    fail_if (is_blank key) (invalid_state (str "private regions require a non-empty access_key"))

unfoldable pub validate_region_create_request : RegionCreateRequest → Result KernelXError (Unit {0})
validate_region_create_request request = do
  fail_if (is_blank request.region_name) (invalid_state (str "region_name cannot be empty"))
  fail_if (request.section == 0) (invalid_state (str "section must be greater than zero"))
  fail_if (is_blank request.trigger_event_hash)
      (invalid_state (str "trigger_event_hash cannot be empty"))
  fail_if (is_blank request.creation_proof) (invalid_state (str "creation_proof cannot be empty"))
  fail_if (is_blank request.request_signature)
      (invalid_state (str "request_signature cannot be empty"))
  validate_access request.visibility request.access_key

-- `map_err(|e| InvalidState(format!("{prefix}{e}")))`
abbrev pub invalid_with {ℓ} : {A : Type ℓ} → Str → Result Str A → Result KernelXError A
invalid_with prefix (ok a) = ok a
invalid_with prefix (err e) = err (invalid_state (prefix ++ e))

-- `RegionRequestSignatureDebug`
pub record RegionRequestSignatureDebug : Type 0 where
  pub lookup_key : Str
  pub actor_public_key : Str
  pub payload_len : ℕ
  pub payload_hash : Str
  pub signature_len : ℕ
  pub verified : Bool
  pub canonical_preview_hex : Str

module _ (ext : External) where
  unfoldable pub canonical_region_request_signature_bytes :
      RegionCreateRequest → Result KernelXError (List ℕ)
  canonical_region_request_signature_bytes request = do
    metadata ←
        invalid_with (str "region metadata serialization error: ") (ext.map_json request.metadata)
    let payload = insert (str "metadata") metadata (
        insert (str "access_key") (or_empty request.access_key) (
          insert (str "creation_proof") request.creation_proof (
            insert (str "trigger_event_hash") request.trigger_event_hash (
              insert (str "section") (decimal request.section) (
                insert (str "visibility") (visibility_name request.visibility) (
                  insert (str "suggested_title") (or_empty request.suggested_title) (
                    insert (str "region_prefix") (or_empty request.region_prefix)
                      (insert (str "region_name") request.region_name []))))))))
    invalid_with (str "region request serialization error: ") (ext.map_json payload)

  unfoldable pub debug_region_create_request_signature :
      Str → RegionCreateRequest → Result KernelXError RegionRequestSignatureDebug
  debug_region_create_request_signature actor_public_key request = do
    vk ← invalid_with (str "region actor key error: ") (verifying_key_from_hex ext actor_public_key)
    bytes ← canonical_region_request_signature_bytes request
    verified ←
        invalid_with (str "region request signature error: ")
          (verify_event_signature ext vk bytes request.request_signature)
    ok (record {
      lookup_key = request_lookup_key request;
      actor_public_key = actor_public_key;
      payload_len = length bytes;
      payload_hash = ext.blake3_hex bytes;
      signature_len = length request.request_signature;
      verified = verified;
      canonical_preview_hex = ext.hex (take (min (length bytes) 32) bytes);
    })

  unfoldable pub verify_region_create_request_signature :
      Str → RegionCreateRequest → Result KernelXError (Unit {0})
  verify_region_create_request_signature actor_public_key request = do
    report ← debug_region_create_request_signature actor_public_key request
    fail_if (not report.verified)
        (invalid_state (str "region request signature verification failed"))
