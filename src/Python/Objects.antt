-- ===== src/Python/Objects.antt =====
-- src/python_api.rs: Python objects as JSON values, and JSON values as metadata.
use v_kernelx.Base.{Bool, true, false, Option, none, some, [], Ordering}
use v_kernelx.Base.Text.{Str, str, str_cmp}
use v_kernelx.Base.Map.{Map, insert}
use v_kernelx.Error.{Result, ok, err, ◌>>=◌}
use v_kernelx.External.{
  External, Value, null, bool, number, string, array, object, Items, nil, cons, Fields, end, field,
}

-- An object by the first conversion that takes it: `extract` of a text, of an `i64` or `u64` with its
-- digits, of an `f64` with what it prints or with nothing where it is not finite, and so on. A key of
-- a dictionary is its text or the message of its conversion. Objects do not contain themselves.
mutual
  pub data PyAny : Type 0 where
    py_none : PyAny
    py_bool : Bool → PyAny
    py_string py_integer : Str → PyAny
    py_float : Option Str → PyAny
    py_dict : PyEntries → PyAny
    py_list py_tuple : PyItems → PyAny
    py_other : PyAny

  pub data PyItems : Type 0 where
    py_nil : PyItems
    item : PyAny → PyItems → PyItems

  pub data PyEntries : Type 0 where
    py_empty : PyEntries
    key_text key_error : Str → PyAny → PyEntries → PyEntries

place : Ordering → Str → Value → Str → Value → Fields → Fields → Fields
place Ordering.lt k v j w rest placed = field k v (field j w rest)
place Ordering.eq k v j w rest placed = field k v rest
place Ordering.gt k v j w rest placed = field j w placed

-- `serde_json::Map::insert`
unfoldable pub insert_field : Str → Value → Fields → Fields
unfolding place
insert_field k v end = field k v end
insert_field k v (field j w rest) = place (str_cmp k j) k v j w rest (insert_field k v rest)

float_value : Option Str → Result Str Value
float_value none = err (str "non-finite float not supported")
float_value (some digits) = ok (number digits)

-- A dictionary is read from its first entry on, into the map so far.
unfoldable mutual
  unfolding float_value

  pub py_any_to_json_value : PyAny → Result Str Value
  py_any_to_json_value py_none = ok null
  py_any_to_json_value (py_bool b) = ok (bool b)
  py_any_to_json_value (py_string s) = ok (string s)
  py_any_to_json_value (py_integer digits) = ok (number digits)
  py_any_to_json_value (py_float digits) = float_value digits
  py_any_to_json_value (py_dict entries) = py_entries entries end >>= λ map. ok (object map)
  py_any_to_json_value (py_list items) = py_items items >>= λ out. ok (array out)
  py_any_to_json_value (py_tuple items) = py_items items >>= λ out. ok (array out)
  py_any_to_json_value py_other = err (str "region request must be a JSON-safe Python object")

  pub py_items : PyItems → Result Str Items
  py_items py_nil = ok nil
  py_items (item x items) =
      py_any_to_json_value x >>= λ v. py_items items >>= λ out. ok (cons v out)

  pub py_entries : PyEntries → Fields → Result Str Fields
  py_entries py_empty map = ok map
  py_entries (key_text k x entries) map =
      py_any_to_json_value x >>= λ v. py_entries entries (insert_field k v map)
  py_entries (key_error e x entries) map = err e

-- `b.to_string()`
bool_text : Bool → Str
bool_text true = str "true"
bool_text false = str "false"

module _ (ext : External) where
  unfoldable pub json_value_to_string : Value → Str
  unfolding bool_text
  json_value_to_string (string s) = s
  json_value_to_string (bool b) = bool_text b
  json_value_to_string (number n) = n
  json_value_to_string null = str ""
  json_value_to_string (array items) = ext.value_string (array items)
  json_value_to_string (object fields) = ext.value_string (object fields)

  -- The loop over the entries.
  unfoldable pub metadata_entries : Fields → Map Str → Map Str
  metadata_entries end out = out
  metadata_entries (field k v fields) out =
      metadata_entries fields (insert k (json_value_to_string v) out)

  unfoldable pub metadata_from_json : Option Value → Result Str (Map Str)
  metadata_from_json none = ok []
  metadata_from_json (some (object fields)) = ok (metadata_entries fields [])
  metadata_from_json (some _) = err (str "metadata must be a JSON object / Python dict")
