-- ===== src/Float.antt =====
-- The tests of validation.rs on an `f64`, by its IEEE 754 bit pattern.
use v_kernelx.Base.{ℕ, ◌/◌, ◌%◌, ◌^◌, Bool, not, ◌&&◌, ◌==◌, ltb, leb}

-- `is_finite`: the exponent is not all ones
unfoldable pub is_finite : ℕ → Bool
is_finite bits = not ((bits / 2 ^ 52) % 2048 == 2047)

-- `x < 0.0`: the sign is set, and it is neither -0.0 nor a NaN
unfoldable pub lt_zero : ℕ → Bool
lt_zero bits = ltb 0x8000000000000000 bits && leb bits 0xfff0000000000000

-- `x > 1.0`: above the pattern of 1.0, up to infinity
unfoldable pub gt_one : ℕ → Bool
gt_one bits = ltb 0x3ff0000000000000 bits && leb bits 0x7ff0000000000000
