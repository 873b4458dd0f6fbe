-- ===== src/Chain/Require.antt =====
-- The validators of single values in trt-files/scripts/accuracy_chain.py, less the paths and the
-- texts of the messages.
use dfine_cpp.Common.{
  ℕ, suc, Bool, not, Option, none, some, List, [], ◌∷◌, Text, codes, any, all, length, ◌&&◌, ◌||◌,
  ◌==◌, leb, ltb,
}
use dfine_cpp.Common.Int.{ℤ, pos, negsuc, leb_ℤ, ltb_ℤ}
use dfine_cpp.Common.Decimal.{is_digit}
use dfine_cpp.Common.Whole.{is_space}
use dfine_cpp.Common.Result.{
  Result, returned, failed, value_error, overflow_error, ◌>>=◌, ◌>>◌, refuse_if,
}
use dfine_cpp.Json.{
  Real, finite, infinite, Value, Fields, null, integer, real, text, object, item_of, has_key,
  is_among, keys,
}
use dfine_cpp.Json.Number.{one, float_of, negate}

abbrev pub require_object : Value → Result Fields
require_object (object fs) = returned fs
require_object _ = failed value_error

-- The keys of a set that an object lacks, and keys of it outside the set.
abbrev pub lacks_any : List Text → Fields → Bool
lacks_any expected fs = any (λ k. not (has_key k fs)) expected

abbrev pub exceeds : List Text → Fields → Bool
exceeds expected fs = any (λ k. not (is_among k expected)) (keys fs)

unfoldable pub require_exact_keys : List Text → Fields → Result (Unit {0})
require_exact_keys expected fs =
    refuse_if (lacks_any expected fs || exceeds expected fs) value_error

unfoldable pub require_fields : List Text → Fields → Result (Unit {0})
require_fields expected fs = refuse_if (lacks_any expected fs) value_error

-- `_require_int(value, path, minimum=minimum)`
unfoldable pub require_int : ℕ → Value → Result ℕ
require_int minimum (integer (pos n)) = refuse_if (ltb n minimum) value_error >> returned n
require_int minimum _ = failed value_error

-- `float(value)` of an integer
abbrev pub float_of_int : ℤ → Result Real
float_of_int (pos n) = elim (float_of n) [
  | none ↦ failed overflow_error
  | some z ↦ returned (finite z)
]
float_of_int (negsuc n) = elim (float_of (suc n)) [
  | none ↦ failed overflow_error
  | some z ↦ returned (finite (negate z))
]

-- `float(value)` of an `int` that is no `bool`, or of a `float`
abbrev pub to_float : Value → Result Real
to_float (integer z) = float_of_int z
to_float (real r) = returned r
to_float _ = failed value_error

abbrev pub unit_interval : Real → Result ℤ
unit_interval (finite z) =
    refuse_if (not (leb_ℤ (pos 0) z && leb_ℤ z (pos one))) value_error >> returned z
unit_interval (infinite _) = failed value_error

-- A metric is a multiple of 2^-1074.
unfoldable pub require_metric : Value → Result (Option ℤ)
require_metric null = returned none
require_metric value = to_float value >>= λ r. unit_interval r >>= λ z. returned (some z)

abbrev pub not_null : Option ℤ → Result ℤ
not_null none = failed value_error
not_null (some z) = returned z

unfoldable pub require_probability : Value → Result ℤ
require_probability value = require_metric value >>= not_null

unfoldable pub require_nonempty_string : Value → Result Text
require_nonempty_string (text s) = refuse_if (all is_space s) value_error >> returned s
require_nonempty_string _ = failed value_error

abbrev pub nonnegative : Real → Result ℤ
nonnegative (finite z) = refuse_if (ltb_ℤ z (pos 0)) value_error >> returned z
nonnegative (infinite _) = failed value_error

unfoldable pub require_nonnegative_number : Value → Result ℤ
require_nonnegative_number value = to_float value >>= nonnegative

abbrev pub is_lower_hex : ℕ → Bool
is_lower_hex c = is_digit c || (leb b'a' c && leb c b'f')

-- SHA256.fullmatch
unfoldable pub is_sha256 : Text → Bool
is_sha256 s = (length s == 64) && all is_lower_hex s

unfoldable pub require_sha256 : Value → Result Text
require_sha256 (text s) = refuse_if (not (is_sha256 s)) value_error >> returned s
require_sha256 _ = failed value_error

-- The value of a key through a validator: `_require_…(mapping[key], …)`.
abbrev pub require_at {ℓ} : {A : Type ℓ} → (Value → Result A) → Text → Fields → Result A
require_at check k fs = item_of k fs >>= check

abbrev pub area_names : List Text
area_names = codes "small" ∷ codes "medium" ∷ codes "large" ∷ []

pub record AreaCounts : Type 0 where
  pub small : ℕ
  pub medium : ℕ
  pub large : ℕ

unfoldable pub require_area_counts : Value → Result AreaCounts
require_area_counts value = do
  counts ← require_object value
  _ ← require_exact_keys area_names counts
  s ← require_at (require_int 0) (codes "small") counts
  m ← require_at (require_int 0) (codes "medium") counts
  l ← require_at (require_int 0) (codes "large") counts
  returned (record { small = s; medium = m; large = l })
