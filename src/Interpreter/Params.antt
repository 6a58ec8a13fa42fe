-- ===== src/Interpreter/Params.antt =====
-- src/interpreter.rs: the parameters of an instruction.
use v_kernelx.Base.{ℕ, ◌%◌, ◌^◌, Option, none, some, List, [], ◌∷◌, if◌then◌else◌}
use v_kernelx.Base.Parse.{parse_u64}
use v_kernelx.Base.Text.{Str, str, str_eq}
use v_kernelx.Error.{Result, ok, err}
use v_kernelx.External.{Value, number, string, array, object, Items, nil, cons, Fields, end, field}
use v_kernelx.Reconstruction.{SettlementOutcome}

-- `value.get(key)`
get_field : Str → Fields → Option Value
get_field key end = none
get_field key (field name v rest) = if str_eq name key then some v else get_field key rest

unfoldable pub param : Str → Value → Option Value
unfolding get_field
param key (object fields) = get_field key fields
param key _ = none

unfoldable pub as_str : Option Value → Option Str
as_str (some (string s)) = some s
as_str _ = none

in_u64 : Result Str ℕ → Option ℕ
in_u64 (ok n) = some n
in_u64 (err e) = none

-- A number that is a `u64` prints its decimal digits only.
unfoldable pub as_u64 : Option Value → Option ℕ
unfolding in_u64
as_u64 (some (number n)) = in_u64 (parse_u64 n)
as_u64 _ = none

abbrev unwrap_or {ℓ} : {A : Type ℓ} → A → Option A → A
unwrap_or default none = default
unwrap_or default (some a) = a

unfoldable pub param_str : Value → Str → Str → Str
param_str params key default = unwrap_or default (as_str (param key params))

unfoldable pub param_u64 : Value → Str → ℕ → ℕ
param_u64 params key default = unwrap_or default (as_u64 (param key params))

abbrev wrapped : ℕ → Option ℕ → Option ℕ
wrapped width none = none
wrapped width (some n) = some (n % 2 ^ width)

unfoldable pub param_u16 : Value → Str → ℕ → ℕ
param_u16 params key default = unwrap_or default (wrapped 16 (as_u64 (param key params)))

amounts : Items → List ℕ
amounts nil = []
amounts (cons v items) = unwrap_or 0 (as_u64 (some v)) ∷ amounts items

amounts_of : Option Value → List ℕ
amounts_of (some (array items)) = amounts items
amounts_of _ = []

unfoldable pub param_u128_vec : Value → Str → List ℕ
unfolding amounts amounts_of
param_u128_vec params key = amounts_of (param key params)

-- The parameters of a settlement.
unfoldable pub settlement_of : Value → SettlementOutcome
settlement_of params = record {
  outcome_tag = param_str params (str "outcome_tag") (str "settled");
  gains = param_u128_vec params (str "gains");
  losses = param_u128_vec params (str "losses");
}
