-- ===== src/Base/Parse.antt =====
pub mod Decimal
-- `str::parse::<u64>`, with the messages of its errors.
use Prim.Native.Nat.{ℕ, ◌+◌, ◌-◌, ◌*◌}
use mathlib.Core.Bool.{Bool, true, false, ◌&&◌, not}
use mathlib.Core.List.{List, [], ◌∷◌}
use v_kernelx.Base.Lists.{is_nil}
use v_kernelx.Base.Tests.{◌==◌, ltb, leb, if◌then◌else◌}
use v_kernelx.Base.Text.{Str, str}
use v_kernelx.Base.Words.{u64_max}
use v_kernelx.Error.{Result, ok, err}

-- The loop over the digits: a character that is no digit is reported before an overflow of the
-- number so far.
unfoldable pub parse_digits : ℕ → Str → Result Str ℕ
parse_digits value [] = ok value
parse_digits value (c ∷ rest) =
    let next = value * 10 + (c - b'0') in
    let later = parse_digits next rest in
    if not (leb b'0' c && leb c b'9')
    then err (str "invalid digit found in string")
    else if ltb u64_max next
    then err (str "number too large to fit in target type")
    else later

-- A leading `+` is skipped where more follows.
unfoldable pub parse_u64 : Str → Result Str ℕ
unfolding parse_digits
parse_u64 [] = err (str "cannot parse integer from empty string")
parse_u64 (c ∷ rest) =
    if c == b'+' && not (is_nil rest) then parse_digits 0 rest else parse_digits 0 (c ∷ rest)
