-- ===== src/Base/Parse/Decimal.antt =====
-- What `to_string` writes of a `u64`, `parse` reads.
use Prim.Native.Nat.{ℕ, zero, suc, ◌+◌, ◌/◌, ◌%◌, ◌≤◌, ◌<◌, ◌^◌}
use mathlib.Core.Path.{◌≡◌, refl, ◌∙◌}
use mathlib.Core.Logic.{inl, inr}
use mathlib.Core.List.{[], ◌∷◌}
use native.Mathlib.Nat.{pow-suc}
use native.Mathlib.Omega.{arith}
use v_kernelx.Base.Tests.{ltb, Bool-cases}
use v_kernelx.Base.Text.{Str, digits_of, decimal}
use v_kernelx.Base.Words.{u64_max}
use v_kernelx.Base.Parse.{parse_digits, parse_u64}
use v_kernelx.Error.{ok}

parse_digits-digits_of :
    (f n : ℕ) (acc : Str)
    → n < 10 ^ f
    → n ≤ u64_max
    → parse_digits 0 (digits_of f n acc) ≡ parse_digits n acc
unfolding digits_of parse_digits
parse_digits-digits_of zero n acc h small = let none_left : n ≡ 0 = omega arith in rw none_left refl
parse_digits-digits_of (suc f) n acc h small = elim (Bool-cases (ltb n 10)) [
  | inl one ↦ rw one (ground arith)
  | inr more ↦ rw more (
      parse_digits-digits_of f (n / 10) ((48 + n % 10) ∷ acc) (omega (arith, pow-suc 10 f))
        (omega arith)
      ∙ ground arith)
]

-- The first byte of what is written is a digit.
digits_of_cons :
    (f n : ℕ) (d : ℕ) (acc : Str)
    → 48 ≤ d
    → (c : ℕ) × (rest : Str) × (digits_of f n (d ∷ acc) ≡ c ∷ rest) × (48 ≤ c)
unfolding digits_of
digits_of_cons zero n d acc h = (d, acc, refl, h)
digits_of_cons (suc f) n d acc h = elim (Bool-cases (ltb n 10)) [
  | inl one ↦ (48 + n, d ∷ acc, rw one refl, omega arith)
  | inr more ↦
      let (c, rest, e, big) = digits_of_cons f (n / 10) (48 + n % 10) (d ∷ acc) (omega arith) in
      (c, rest, rw more e, big)
]

decimal_cons : (f n : ℕ) → (c : ℕ) × (rest : Str) × (digits_of (suc f) n [] ≡ c ∷ rest) × (48 ≤ c)
unfolding digits_of
decimal_cons f n = elim (Bool-cases (ltb n 10)) [
  | inl one ↦ (48 + n, [], rw one refl, omega arith)
  | inr more ↦
      let (c, rest, e, big) = digits_of_cons f (n / 10) (48 + n % 10) [] (omega arith) in
      (c, rest, rw more e, big)
]

pub parse_u64-decimal : (n : ℕ) → n ≤ u64_max → parse_u64 (decimal n) ≡ ok n
unfolding parse_u64 decimal
parse_u64-decimal n h =
    let (c, rest, e, big) = decimal_cons 39 n in
    let whole = parse_digits-digits_of 40 n [] (omega arith) h in
    rw (e, parse_u64) (ground (arith, rw e at whole))
