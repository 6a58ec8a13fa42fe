-- ===== src/Base/Words.antt =====
-- Rust's `u16`, `u64` and `u128` as native numbers with their ranges written out. `+=` wraps, as in
-- a build with the release profile.
use Prim.Native.Nat.{ℕ, ◌+◌, ◌-◌, ◌*◌, ◌%◌, ◌^◌, min}

abbrev pub u64_mod : ℕ
u64_mod = 2 ^ 64

abbrev pub u128_mod : ℕ
u128_mod = 2 ^ 128

abbrev pub u64_max : ℕ
u64_max = 2 ^ 64 - 1

abbrev pub u128_max : ℕ
u128_max = 2 ^ 128 - 1

-- `u64 += 1`, without overflow checks
abbrev pub add64 : ℕ → ℕ → ℕ
add64 a b = (a + b) % u64_mod

-- `u128 + u128`, without overflow checks
abbrev pub add128 : ℕ → ℕ → ℕ
add128 a b = (a + b) % u128_mod

-- `u128::saturating_add`, `saturating_sub` and `saturating_mul`
abbrev pub saturating_add : ℕ → ℕ → ℕ
saturating_add a b = min (a + b) u128_max

abbrev pub saturating_sub : ℕ → ℕ → ℕ
saturating_sub a b = a - b

abbrev pub saturating_mul : ℕ → ℕ → ℕ
saturating_mul a b = min (a * b) u128_max
