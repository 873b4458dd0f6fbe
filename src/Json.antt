-- ===== src/Json.antt =====
-- JSON values as Python holds them after `json.loads`: `bool` and `int` apart from `float`, and
-- `dict` as its pairs in order. The scripts under trt-files/scripts read reports and metadata so.
pub mod Number
pub mod Same
pub mod Bits
use dfine_cpp.Common.{
  ℕ, suc, Bool, true, false, not, Option, none, some, List, [], ◌∷◌, Text, text_eq, if◌then◌else◌,
  any, all, ◌&&◌, ◌||◌, ◌≡◌, refl,
}
use dfine_cpp.Common.Int.{ℤ}
use dfine_cpp.Common.Result.{Result, returned, failed, key_error}

-- A `float`, which JSON text gives no NaN: a double is a whole multiple of 2^-1074, so `finite z`
-- stands for z * 2^-1074 and both zeros are `finite (pos 0)`; `infinite true` is the negative one.
pub data Real : Type 0 where
  finite : ℤ → Real
  infinite : Bool → Real

mutual
  pub data Value : Type 0 where
    null : Value
    boolean : Bool → Value
    integer : ℤ → Value
    real : Real → Value
    text : Text → Value
    array : Items → Value
    object : Fields → Value

  pub data Items : Type 0 where
    nil : Items
    item : Value → Items → Items

  pub data Fields : Type 0 where
    empty : Fields
    field : Text → Value → Fields → Fields

-- `mapping.get(key)` that tells a missing key from a null.
unfoldable pub find : Text → Fields → Option Value
find k empty = none
find k (field j v fs) = let rest = find k fs in if text_eq k j then some v else rest

-- `mapping.get(key)`
abbrev pub get : Text → Fields → Value
get k fs = elim (find k fs) [ none ↦ null | some v ↦ v ]

-- `key in mapping`
abbrev pub has_key : Text → Fields → Bool
has_key k fs = elim (find k fs) [ none ↦ false | some _ ↦ true ]

-- `mapping[key]`
abbrev pub item_of : Text → Fields → Result Value
item_of k fs = elim (find k fs) [ none ↦ failed key_error | some v ↦ returned v ]

abbrev pub keys : Fields → List Text
keys empty = []
keys (field k v fs) = k ∷ keys fs

abbrev pub is_among : Text → List Text → Bool
is_among k ks = any (text_eq k) ks

abbrev pub size : Fields → ℕ
size empty = 0
size (field k v fs) = suc (size fs)

abbrev pub count : Items → ℕ
count nil = 0
count (item v xs) = suc (count xs)

-- No key of an object stands twice, here and in the values.
unfoldable mutual
  pub is_unique : Value → Bool
  is_unique (array xs) = are_unique xs
  is_unique (object fs) = has_unique_keys fs
  is_unique _ = true

  pub are_unique : Items → Bool
  are_unique nil = true
  are_unique (item v xs) = is_unique v && are_unique xs

  pub has_unique_keys : Fields → Bool
  has_unique_keys empty = true
  has_unique_keys (field k v fs) = not (has_key k fs) && (is_unique v && has_unique_keys fs)
