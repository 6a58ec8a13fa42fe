-- ===== src/Ffi/Json.antt =====
-- src/ffi.rs: the JSON values of the C functions, what is read of them and their equality.
use v_kernelx.Base.{Bool, true, false, not, ◌&&◌, Option, none, some, List, [], ◌∷◌}
use v_kernelx.Base.Text.{Str, str_eq}
use v_kernelx.External.{
  Value, null, bool, number, string, array, object, Items, nil, cons, Fields, end, field,
}
use v_kernelx.Interpreter.Params.{param}

-- The JSON value of an optional text.
abbrev pub optional : Option Str → Value
optional none = null
optional (some s) = string s

-- `v.as_bool()`, `unwrap_or(false)`
abbrev is_true : Option Value → Bool
is_true (some (bool b)) = b
is_true _ = false

-- `result.get(key).and_then(|v| v.as_bool()).unwrap_or(false)`
unfoldable pub flag : Str → Value → Bool
flag key result = is_true (param key result)

-- `value.get(key).cloned().unwrap_or(Value::Null)`
abbrev or_null : Option Value → Value
or_null none = null
or_null (some v) = v

unfoldable pub entry : Str → Value → Value
entry key value = or_null (param key value)

-- `==` of JSON values
unfoldable mutual
  pub value_eq : Value → Value → Bool
  value_eq null null = true
  value_eq (bool true) (bool b) = b
  value_eq (bool false) (bool b) = not b
  value_eq (number m) (number n) = str_eq m n
  value_eq (string s) (string t) = str_eq s t
  value_eq (array xs) (array ys) = items_eq xs ys
  value_eq (object fs) (object gs) = fields_eq fs gs
  value_eq _ _ = false

  pub items_eq : Items → Items → Bool
  items_eq nil nil = true
  items_eq (cons x xs) (cons y ys) = value_eq x y && items_eq xs ys
  items_eq _ _ = false

  pub fields_eq : Fields → Fields → Bool
  fields_eq end end = true
  fields_eq (field k v fs) (field j w gs) = str_eq k j && (value_eq v w && fields_eq fs gs)
  fields_eq _ _ = false

-- `Vec<String>` in JSON
unfoldable pub texts : List Str → Items
texts [] = nil
texts (s ∷ ss) = cons (string s) (texts ss)
