-- ===== src/External.antt =====
-- What the kernel calls and does not implement: BLAKE3, Ed25519, hex printing, `serde_json`'s
-- printing, and the division of two `f64`. The clock is not here: an operation takes what
-- `now_ms` returns.
use v_kernelx.Base.{ℕ, ◌≡◌, ◌≢◌, Bool, false, List, Option}
use v_kernelx.Base.Text.{Str, is_blank}
use v_kernelx.Base.Map.{Map}
use v_kernelx.Error.{Result}
use v_kernelx.Region.Types.{RegionState}
use v_kernelx.State.{VectorStateV1, CertificationState}

-- `serde_json::Value`; a number is what it prints, and an object has its keys in order.
mutual
  pub data Value : Type 0 where
    null : Value
    bool : Bool → Value
    number : Str → Value
    string : Str → Value
    array : Items → Value
    object : Fields → Value

  pub data Items : Type 0 where
    nil : Items
    cons : Value → Items → Items

  pub data Fields : Type 0 where
    end : Fields
    field : Str → Value → Fields → Fields

pub record External : Type 0 where
  -- `blake3::hash(bytes).to_hex().to_string()`
  pub blake3_hex : List ℕ → Str
  -- why `VerifyingKey::from_bytes` refuses 32 bytes, if it does
  pub key_error : List ℕ → Option Str
  -- why `Signature::from_slice` refuses bytes, if it does
  pub signature_error : List ℕ → Option Str
  -- `key.verify(message, signature).is_ok()`
  pub verify : List ℕ → List ℕ → List ℕ → Bool
  -- `Value::to_string`
  pub value_string : Value → Str
  -- the `json!` value of a `u128`; `none` where the macro panics
  pub u128_value : ℕ → Option Value
  -- `serde_json::to_vec(state).unwrap_or_default()`
  pub state_json : VectorStateV1 → List ℕ
  pub certification_json : CertificationState → List ℕ
  -- the bits of `ratio as f64 / 1000.0`
  pub ratio_bits : ℕ → ℕ
  -- `serde_json::to_string(map)`, or the message of its error; `to_vec` gives the same bytes
  pub map_json : Map Str → Result Str Str
  -- `serde_json::to_string(region).unwrap_or_default()`
  pub region_json : RegionState → Str
  -- `serde_json::from_str(text)`, or the message of its error
  pub parse_json : Str → Result Str Value
  -- `serde_json::to_string(&state).unwrap_or_else(|_| "null".to_string())`
  pub found_json : Option VectorStateV1 → Str
  -- `str::to_uppercase`, by the tables of Unicode
  pub to_uppercase : Str → Str
  -- `hex::decode(text).ok()`
  pub unhex : Str → Option (List ℕ)
  -- the public key of a signing key, and `key.sign(message)`
  pub public_key : List ℕ → List ℕ
  pub sign : List ℕ → List ℕ → List ℕ
  -- `hex::encode(bytes)`
  pub hex : List ℕ → Str

-- A BLAKE3 digest in hex is 64 characters from `0` to `f`, so it is not blank.
pub record HashesAreText (ext : External) : Type 0 where
  pub not_blank : (bytes : List ℕ) → is_blank (ext.blake3_hex bytes) ≡ false

-- Two different inputs with one digest.
abbrev pub Collides : External → List ℕ → List ℕ → Type 0
Collides ext x y = (x ≢ y) × (ext.blake3_hex x ≡ ext.blake3_hex y)
