-- ===== src/Chain/Decode.antt =====
-- The hooks that `_read_json` gives to the JSON decoder: `_unique_object` and `_invalid_constant`.
use dfine_cpp.Common.{Bool, Text, text_eq, if◌then◌else◌}
use dfine_cpp.Common.Int.{ℤ}
use dfine_cpp.Common.Result.{Result, returned, failed, value_error, ◌>>=◌, ◌>>◌, refuse_if}
use dfine_cpp.Json.{
  Real, Value, Items, Fields, null, boolean, integer, real, text, array, object, nil, item, empty,
  field, has_key,
}

-- A JSON text as it is written: `constant` stands for NaN, Infinity and -Infinity, and the pairs
-- of an object may repeat a key.
mutual
  pub data Raw : Type 0 where
    raw_null constant : Raw
    raw_boolean : Bool → Raw
    raw_integer : ℤ → Raw
    raw_real : Real → Raw
    raw_text : Text → Raw
    raw_array : RawItems → Raw
    raw_object : RawPairs → Raw

  pub data RawItems : Type 0 where
    no_items : RawItems
    raw_item : Raw → RawItems → RawItems

  pub data RawPairs : Type 0 where
    no_pairs : RawPairs
    raw_pair : Text → Raw → RawPairs → RawPairs

-- `result[key] = value`
unfoldable pub add : Fields → Text → Value → Fields
add empty k v = field k v empty
add (field j w fs) k v =
    let rest = add fs k v in if text_eq k j then field j v fs else field j w rest

-- The loop over the pairs, with the dictionary so far.
unfoldable pub unique_object : Fields → Fields → Result Fields
unique_object result empty = returned result
unique_object result (field k v pairs) =
    refuse_if (has_key k result) value_error >> unique_object (add result k v) pairs

unfoldable mutual
  pub decode : Raw → Result Value
  decode raw_null = returned null
  decode constant = failed value_error
  decode (raw_boolean b) = returned (boolean b)
  decode (raw_integer z) = returned (integer z)
  decode (raw_real r) = returned (real r)
  decode (raw_text s) = returned (text s)
  decode (raw_array xs) = decode_items xs >>= λ items. returned (array items)
  decode (raw_object ps) =
      decode_pairs ps >>= λ pairs. unique_object empty pairs >>= λ fs. returned (object fs)

  pub decode_items : RawItems → Result Items
  decode_items no_items = returned nil
  decode_items (raw_item x xs) =
      decode x >>= λ v. decode_items xs >>= λ rest. returned (item v rest)

  pub decode_pairs : RawPairs → Result Fields
  decode_pairs no_pairs = returned empty
  decode_pairs (raw_pair k x ps) =
      decode x >>= λ v. decode_pairs ps >>= λ rest. returned (field k v rest)
