-- ===== src/Base/Text.antt =====
-- Rust's `String` and `&str` as the list of their UTF-8 bytes: `==`, `cmp`, `len`, `as_bytes` and
-- `format!` work on those bytes, and so do the ASCII case maps.
use Prim.Native.Nat.{ℕ, zero, suc, ◌+◌, ◌-◌, ◌/◌, ◌%◌, compare, Ordering}
use Prim.Native.Char.{code}
use Prim.Native.String.{String}
use mathlib.Core.Path.{◌≡◌, refl, ap}
use mathlib.Core.Logic.{◌↔◌}
use mathlib.Core.Bool.{Bool, true, false, ◌&&◌, ◌||◌}
use mathlib.Core.List.{List, [], ◌∷◌, map, reverse}
use native.Mathlib.Omega.{arith}
use v_kernelx.Base.Tests.{if◌then◌else◌, ltb, leb, ◌==◌}
use v_kernelx.Base.Lists.{is_nil}
use v_kernelx.Base.Compare.{then_with, IsComparator, IsExact}

abbrev pub Str : Type 0
Str = List ℕ

-- The bytes of an ASCII literal.
unfoldable pub str : String → Str
str String.[] = []
str (String.◌∷◌ c s) = code c ∷ str s

unfoldable pub str_eq : Str → Str → Bool
str_eq [] [] = true
str_eq [] (y ∷ ys) = false
str_eq (x ∷ xs) [] = false
str_eq (x ∷ xs) (y ∷ ys) = x == y && str_eq xs ys

pub str_eq_iff : (s t : Str) → (str_eq s t ≡ true) ↔ (s ≡ t)
unfolding str_eq
str_eq_iff [] [] = ground arith
str_eq_iff [] (y ∷ ys) = ground arith
str_eq_iff (x ∷ xs) [] = ground arith
str_eq_iff (x ∷ xs) (y ∷ ys) = ground (arith, str_eq_iff xs ys)

-- `str::cmp`: bytewise, a proper prefix is less.
unfoldable pub str_cmp : Str → Str → Ordering
str_cmp [] [] = Ordering.eq
str_cmp [] (y ∷ ys) = Ordering.lt
str_cmp (x ∷ xs) [] = Ordering.gt
str_cmp (x ∷ xs) (y ∷ ys) = then_with (compare x y) (str_cmp xs ys)

str_cmp-flip :
    (s t : Str)
    → str_cmp t s ≡ elim (str_cmp s t) [
      | Ordering.lt ↦ Ordering.gt
      | Ordering.eq ↦ Ordering.eq
      | Ordering.gt ↦ Ordering.lt
    ]
unfolding str_cmp
str_cmp-flip [] [] = refl
str_cmp-flip [] (y ∷ ys) = refl
str_cmp-flip (x ∷ xs) [] = refl
str_cmp-flip (x ∷ xs) (y ∷ ys) = ground (arith, str_cmp-flip xs ys)

str_cmp-lt_trans :
    (s t u : Str)
    → str_cmp s t ≡ Ordering.lt
    → str_cmp t u ≡ Ordering.lt
    → str_cmp s u ≡ Ordering.lt
unfolding str_cmp
str_cmp-lt_trans [] t [] h k = ground arith
str_cmp-lt_trans [] t (z ∷ zs) h k = refl
str_cmp-lt_trans (x ∷ xs) [] u h k = ground arith
str_cmp-lt_trans (x ∷ xs) (y ∷ ys) [] h k = ground arith
str_cmp-lt_trans (x ∷ xs) (y ∷ ys) (z ∷ zs) h k = ground (arith, str_cmp-lt_trans xs ys zs)

str_cmp-exact : (s t : Str) → str_cmp s t ≡ Ordering.eq → s ≡ t
unfolding str_cmp
str_cmp-exact [] [] h = refl
str_cmp-exact [] (y ∷ ys) h = ground arith
str_cmp-exact (x ∷ xs) [] h = ground arith
str_cmp-exact (x ∷ xs) (y ∷ ys) h = ground (arith, str_cmp-exact xs ys)

pub str_cmp-IsExact : IsExact str_cmp
str_cmp-IsExact = record { exact = str_cmp-exact }

pub str_cmp-IsComparator : IsComparator str_cmp
str_cmp-IsComparator = record {
  flip = str_cmp-flip;
  lt_trans = str_cmp-lt_trans;
  eq_left = λ a b c h. ap (λ t. str_cmp t c) (str_cmp-exact a b h);
}

-- What `str::trim` removes: the code points with the property White_Space, in UTF-8.
white1 : ℕ → Bool
white1 a = (leb 9 a && leb a 13) || a == 32

white2 : ℕ → ℕ → Bool
white2 a b = a == 0xc2 && (b == 0x85 || b == 0xa0)

white3 : ℕ → ℕ → ℕ → Bool
white3 a b c =
    (a == 0xe1 && (b == 0x9a && c == 0x80))
    || ((a == 0xe2
          && (b == 0x80 && ((leb 0x80 c && leb c 0x8a) || (c == 0xa8 || (c == 0xa9 || c == 0xaf)))))
        || ((a == 0xe2 && (b == 0x81 && c == 0x9f)) || (a == 0xe3 && (b == 0x80 && c == 0x80))))

unfoldable pub trim_start : Str → Str
unfolding white1 white2 white3
trim_start [] = []
trim_start (a ∷ []) = if white1 a then [] else a ∷ []
trim_start (a ∷ b ∷ []) =
    let rest = trim_start (b ∷ []) in
    if white1 a then rest else if white2 a b then [] else a ∷ b ∷ []
trim_start (a ∷ b ∷ c ∷ s) =
    let rest1 = trim_start (b ∷ c ∷ s) in
    let rest2 = trim_start (c ∷ s) in
    let rest3 = trim_start s in
    if white1 a
    then rest1
    else if white2 a b
    then rest2
    else if white3 a b c
    then rest3
    else a ∷ b ∷ c ∷ s

-- The same from the end, over the reversed bytes.
unfoldable pub trim_rev : Str → Str
unfolding white1 white2 white3
trim_rev [] = []
trim_rev (a ∷ []) = if white1 a then [] else a ∷ []
trim_rev (b ∷ a ∷ []) =
    let rest = trim_rev (a ∷ []) in if white1 b then rest else if white2 a b then [] else b ∷ a ∷ []
trim_rev (c ∷ b ∷ a ∷ s) =
    let rest1 = trim_rev (b ∷ a ∷ s) in
    let rest2 = trim_rev (a ∷ s) in
    let rest3 = trim_rev s in
    if white1 c
    then rest1
    else if white2 b c
    then rest2
    else if white3 a b c
    then rest3
    else c ∷ b ∷ a ∷ s

unfoldable pub trim : Str → Str
unfolding trim_start trim_rev
trim s = reverse (trim_rev (reverse (trim_start s)))

-- `s.trim().is_empty()`
unfoldable pub is_blank : Str → Bool
unfolding trim
is_blank s = is_nil (trim s)

unfoldable pub to_ascii_lowercase : Str → Str
to_ascii_lowercase = map (λ c. if leb b'A' c && leb c b'Z' then c + 32 else c)

unfoldable pub to_ascii_uppercase : Str → Str
to_ascii_uppercase = map (λ c. if leb b'a' c && leb c b'z' then c - 32 else c)

-- `to_string` of an unsigned integer; the fuel is the number of digits that may be written.
unfoldable pub digits_of : ℕ → ℕ → Str → Str
digits_of zero n acc = acc
digits_of (suc f) n acc =
    let rest = digits_of f (n / 10) ((48 + n % 10) ∷ acc) in
    if ltb n 10 then (48 + n) ∷ acc else rest

-- 2 ^ 128 has 39 digits.
unfoldable pub decimal : ℕ → Str
unfolding digits_of
decimal n = digits_of 40 n []

trim_example : trim (str " ab ") ≡ str "ab"
unfolding trim str
trim_example = refl

decimal_example : decimal 1070 ≡ str "1070"
unfolding decimal str
decimal_example = refl
