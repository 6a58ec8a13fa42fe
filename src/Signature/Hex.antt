-- ===== src/Signature/Hex.antt =====
-- What `hex_encode` writes, `hex_decode` reads.
use v_kernelx.Base.{
  ℕ, ◌+◌, ◌*◌, ◌/◌, ◌%◌, ◌<◌, ◌≡◌, refl, ap, ◌∙◌, List, [], ◌∷◌, arith, All, length,
}
use v_kernelx.Base.Text.{Str}
use v_kernelx.Error.{ok}
use v_kernelx.Signature.{hex_digit, hex_encode, hex_value, decode_pairs, hex_decode}

hex_value-hex_digit : (n : ℕ) → n < 16 → hex_value (hex_digit n) ≡ ok n
unfolding hex_value hex_digit
hex_value-hex_digit n h = ground arith

length-hex_encode : (bytes : List ℕ) → length (hex_encode bytes) % 2 ≡ 0
unfolding hex_encode
length-hex_encode [] = refl
length-hex_encode (b ∷ bytes) = omega (arith, length-hex_encode bytes)

decode_pairs_step :
    (x y : ℕ) (rest : Str) {hi lo : ℕ} {out : List ℕ}
    → hex_value x ≡ ok hi
    → hex_value y ≡ ok lo
    → decode_pairs rest ≡ ok out
    → decode_pairs (x ∷ y ∷ rest) ≡ ok ((hi * 16 + lo) ∷ out)
unfolding decode_pairs
decode_pairs_step x y rest ex ey er = simp (ex, ey, er)

decode_pairs-hex_encode :
    (bytes : List ℕ) → All (λ b. b < 256) bytes → decode_pairs (hex_encode bytes) ≡ ok bytes
unfolding hex_encode decode_pairs
decode_pairs-hex_encode [] h = refl
decode_pairs-hex_encode (b ∷ bytes) h =
    let high = hex_value-hex_digit (b / 16) (omega (arith, h.0)) in
    let low = hex_value-hex_digit (b % 16) (omega arith) in
    let rest = decode_pairs-hex_encode bytes h.1 in
    let whole : b / 16 * 16 + b % 16 ≡ b = omega arith in
    decode_pairs_step (hex_digit (b / 16)) (hex_digit (b % 16)) (hex_encode bytes) high low rest
    ∙ ap (λ n. ok (n ∷ bytes)) whole

-- Decoding the hex of any bytes gives the bytes back, with no error.
pub hex_decode-hex_encode :
    (bytes : List ℕ) → All (λ b. b < 256) bytes → hex_decode (hex_encode bytes) ≡ ok bytes
unfolding hex_decode
hex_decode-hex_encode bytes h =
    ground (arith, length-hex_encode bytes, decode_pairs-hex_encode bytes h)
