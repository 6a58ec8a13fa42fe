-- ===== src/Signature.antt =====
-- src/signature.rs: hex coding, and the checks of keys and signatures around Ed25519. A key is its
-- 32 bytes, and a signature is its bytes.
pub mod Hex
use v_kernelx.Base.{
  ℕ, ◌+◌, ◌-◌, ◌*◌, ◌/◌, ◌%◌, Bool, not, ◌&&◌, Option, none, some, List, [], ◌∷◌, ◌++◌, ◌==◌, leb,
  ltb, if◌then◌else◌, length,
}
use v_kernelx.Base.Text.{Str, str}
use v_kernelx.Error.{Result, ok, err, ◌>>=◌, ◌>>◌, fail_if}
use v_kernelx.External.{External}

-- `HEX[nibble]`
hex_digit : ℕ → ℕ
hex_digit n = if ltb n 10 then 48 + n else 87 + n

unfoldable pub hex_encode : List ℕ → Str
unfolding hex_digit
hex_encode [] = []
hex_encode (b ∷ bytes) = hex_digit (b / 16) ∷ hex_digit (b % 16) ∷ hex_encode bytes

-- `byte as char`, in UTF-8
char_of_byte : ℕ → Str
char_of_byte b = if ltb b 128 then b ∷ [] else (192 + b / 64) ∷ (128 + b % 64) ∷ []

unfoldable pub hex_value : ℕ → Result Str ℕ
unfolding char_of_byte
hex_value byte =
    if leb b'0' byte && leb byte b'9'
    then ok (byte - b'0')
    else if leb b'a' byte && leb byte b'f'
    then ok (byte - b'a' + 10)
    else if leb b'A' byte && leb byte b'F'
    then ok (byte - b'A' + 10)
    else err (str "invalid hex character: " ++ char_of_byte byte)

-- The loop over pairs of bytes; an odd byte is not reached.
unfoldable pub decode_pairs : Str → Result Str (List ℕ)
unfolding hex_value
decode_pairs [] = ok []
decode_pairs (a ∷ []) = ok []
decode_pairs (a ∷ b ∷ rest) =
    let later = decode_pairs rest in
    hex_value a >>= λ hi. hex_value b >>= λ lo. later >>= λ out. ok ((hi * 16 + lo) ∷ out)

unfoldable pub hex_decode : Str → Result Str (List ℕ)
unfolding decode_pairs
hex_decode input = do
  fail_if (not (length input % 2 == 0)) (str "hex string must have even length")
  decode_pairs input

refused_by : Str → Option Str → List ℕ → Result Str (List ℕ)
refused_by what none bytes = ok bytes
refused_by what (some e) bytes = err (what ++ e)

module _ (ext : External) where
  unfoldable pub verifying_key_from_hex : Str → Result Str (List ℕ)
  unfolding refused_by
  verifying_key_from_hex public_key_hex = do
    bytes ← hex_decode public_key_hex
    fail_if (not (length bytes == 32)) (str "ed25519 verifying key must be 32 bytes")
    refused_by (str "public key parse error: ") (ext.key_error bytes) bytes

  unfoldable pub verify_event_signature : List ℕ → List ℕ → Str → Result Str Bool
  unfolding refused_by
  verify_event_signature verifying_key payload signature_hex = do
    sig_bytes ← hex_decode signature_hex
    signature ← refused_by (str "signature parse error: ") (ext.signature_error sig_bytes) sig_bytes
    ok (ext.verify verifying_key payload signature)

  unfoldable pub sign_event : List ℕ → List ℕ → Str
  sign_event signing_key payload = hex_encode (ext.sign signing_key payload)

-- A signing key is its 32 bytes.
unfoldable pub signing_key_from_hex : Str → Result Str (List ℕ)
signing_key_from_hex secret_key_hex = do
  bytes ← hex_decode secret_key_hex
  fail_if (not (length bytes == 32)) (str "ed25519 signing key must be 32 bytes")
  ok bytes
