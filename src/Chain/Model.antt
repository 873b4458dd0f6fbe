-- ===== src/Chain/Model.antt =====
-- `_validate_model_contract` and the metadata it reads: MODEL_CONTRACT_FIELDS and the cascade.
use dfine_cpp.Common.{ℕ, Bool, not, Option, none, some, List, [], ◌∷◌, Text, codes, ◌||◌, ◌==◌}
use dfine_cpp.Common.Int.{ℤ, pos, ltb_ℤ, leb_ℤ, eqb_ℤ}
use dfine_cpp.Common.Split.{split}
use dfine_cpp.Common.Whole.{int_of}
use dfine_cpp.Common.Result.{
  Error, Result, returned, failed, value_error, type_error, ◌>>=◌, ◌>>◌, refuse_if,
}
use dfine_cpp.Json.{
  finite, Value, Fields, null, real, text, array, object, nil, item, empty, field, is_among,
  item_of,
}
use dfine_cpp.Json.Number.{one}
use dfine_cpp.Json.Same.{same}
use dfine_cpp.Chain.Require.{
  require_object, require_exact_keys, require_int, require_sha256, require_at,
}

-- `if value not in {…}: error` on texts: an array or an object is not hashable.
unfoldable pub member_or : Error → List Text → Value → Result Text
member_or e options (text s) = refuse_if (not (is_among s options)) e >> returned s
member_or e options (array _) = failed type_error
member_or e options (object _) = failed type_error
member_or e options _ = failed e

abbrev pub require_member : List Text → Value → Result Text
require_member = member_or value_error

-- `value == "…"`
abbrev pub is_text : Text → Value → Bool
is_text s v = same v (text s)

-- A contract whose fields have been checked; `model` and `task` are "d-fine" and "detect".
pub record ModelContract : Type 0 where
  pub variant : Text
  pub input_h : ℕ
  pub input_w : ℕ
  pub num_classes : ℕ
  pub initial_queries : ℕ
  pub num_queries : ℕ
  pub eval_idx : ℕ
  pub cascade : Option Text
  pub checkpoint_sha256 : Text
  pub preprocess : Value

abbrev pub contract_fields : List Text
contract_fields =
    codes "model"
    ∷ codes "variant"
    ∷ codes "task"
    ∷ codes "input_h"
    ∷ codes "input_w"
    ∷ codes "num_classes"
    ∷ codes "initial_queries"
    ∷ codes "num_queries"
    ∷ codes "eval_idx"
    ∷ codes "cascade"
    ∷ codes "checkpoint_sha256"
    ∷ codes "preprocess"
    ∷ []

abbrev pub model_variants : List Text
model_variants = codes "n" ∷ codes "s" ∷ codes "m" ∷ codes "l" ∷ codes "x" ∷ []

abbrev triple : ℤ → Value
triple z = array (item (real (finite z)) (item (real (finite z)) (item (real (finite z)) nil)))

abbrev pub stretch_fields : Fields
stretch_fields = field (codes "color_order") (text (codes "RGB")) (
    field (codes "channel_layout") (text (codes "NCHW")) (
      field (codes "normalize") (text (codes "div255")) (
        field (codes "mean") (triple (pos 0)) (
          field (codes "std") (triple (pos one))
            (field (codes "resize") (text (codes "stretch")) empty)))))

-- STRETCH_PREPROCESS of the producers, and expected_preprocess of the validator.
abbrev pub stretch_preprocess : Value
stretch_preprocess = object stretch_fields

abbrev pair_of_ints : Option ℤ → Option ℤ → Option (ℤ × ℤ)
pair_of_ints (some a) (some b) = some (a, b)
pair_of_ints _ _ = none

abbrev read_parts : List Text → Option (ℤ × ℤ)
read_parts (a ∷ b ∷ []) = pair_of_ints (int_of a) (int_of b)
read_parts _ = none

-- `layer, keep = (int(part) for part in cascade.split(":"))`, none where it raises ValueError
unfoldable pub read_cascade : Text → Option (ℤ × ℤ)
read_cascade s = read_parts (split b':' s)

-- The cascade's numbers contradict the query counts.
abbrev pub contradicts : ℤ × ℤ → ℕ → ℕ → Bool
contradicts (layer, keep) initial queries =
    ltb_ℤ layer (pos 0) || (not (eqb_ℤ keep (pos queries)) || leb_ℤ (pos initial) keep)

abbrev pub agreeing : Option (ℤ × ℤ) → ℕ → ℕ → Text → Result (Option Text)
agreeing none initial queries s = failed value_error
agreeing (some pair) initial queries s =
    refuse_if (contradicts pair initial queries) value_error >> returned (some s)

unfoldable pub check_cascade : Value → ℕ → ℕ → Result (Option Text)
check_cascade null initial queries =
    refuse_if (not (initial == queries)) value_error >> returned none
check_cascade (text s) initial queries = agreeing (read_cascade s) initial queries s
check_cascade _ initial queries = failed value_error

unfoldable pub check_preprocess : Value → Result Value
check_preprocess value = do
  preprocess ← require_object value
  refuse_if (not (same (object preprocess) stretch_preprocess)) value_error
  returned (object preprocess)

abbrev pub read_contract : Fields → Result ModelContract
read_contract contract = do
  model ← item_of (codes "model") contract
  task ← item_of (codes "task") contract
  refuse_if (not (is_text (codes "d-fine") model) || not (is_text (codes "detect") task))
      value_error
  v ← require_at (require_member model_variants) (codes "variant") contract
  h ← require_at (require_int 1) (codes "input_h") contract
  w ← require_at (require_int 1) (codes "input_w") contract
  classes ← require_at (require_int 1) (codes "num_classes") contract
  initial ← require_at (require_int 1) (codes "initial_queries") contract
  queries ← require_at (require_int 1) (codes "num_queries") contract
  index ← require_at (require_int 0) (codes "eval_idx") contract
  hash ← require_at require_sha256 (codes "checkpoint_sha256") contract
  declared ← require_at (λ c. check_cascade c initial queries) (codes "cascade") contract
  process ← require_at check_preprocess (codes "preprocess") contract
  returned (record {
    variant = v;
    input_h = h;
    input_w = w;
    num_classes = classes;
    initial_queries = initial;
    num_queries = queries;
    eval_idx = index;
    cascade = declared;
    checkpoint_sha256 = hash;
    preprocess = process;
  })

unfoldable pub validate_model_contract : Value → Result ModelContract
validate_model_contract value = do
  contract ← require_object value
  require_exact_keys contract_fields contract
  read_contract contract
