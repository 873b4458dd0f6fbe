-- ===== src/Evaluation/Contract.antt =====
-- The contract and the lineage that the scripts read from an artifact's metadata, in
-- trt-files/scripts/eval_contract.py. `fail` raises an error of the caller's choice.
use dfine_cpp.Common.{
  ℕ, suc, Bool, true, false, not, Option, none, some, [], ◌∷◌, Text, codes, text_eq, any, length,
  ◌&&◌, ◌||◌, ◌==◌, if◌then◌else◌,
}
use dfine_cpp.Common.Int.{ℤ, pos}
use dfine_cpp.Common.Result.{Error, Result, returned, failed, ◌>>=◌, ◌>>◌, refuse_if}
use dfine_cpp.Json.{
  Value, Fields, null, integer, text, array, object, nil, item, empty, field, get, has_key,
}
use dfine_cpp.Json.Same.{same}
use dfine_cpp.Chain.Model.{
  ModelContract, member_or, model_variants, read_cascade, contradicts, stretch_preprocess,
  stretch_fields,
}
use dfine_cpp.Chain.Lineage.{ArtifactKind, engine}

-- `mapping[key] = value`
unfoldable pub put : Text → Value → Fields → Fields
put k v empty = field k v empty
put k v (field j w fs) =
    let rest = put k v fs in if text_eq k j then field j v fs else field j w rest

-- `{**base, **fields}`
unfoldable pub update : Fields → Fields → Fields
update base empty = base
update base (field k v fs) = update (put k v base) fs

abbrev pub one_text : Text → Value
one_text s = array (item (text s) nil)

abbrev pub fixed_fields : Fields
fixed_fields = field (codes "model") (text (codes "d-fine")) (
    field (codes "task") (text (codes "detect")) (
      field (codes "input_names") (one_text (codes "images")) (
        field (codes "output_names")
          (array (item (text (codes "logits")) (item (text (codes "boxes")) nil))) stretch_fields)))

abbrev pub expected_fields : Fields → Fields
expected_fields extra =
    put (codes "checkpoint_load") (text (codes "strict")) (update extra fixed_fields)

abbrev pub hexadecimal : Text
hexadecimal = codes "0123456789abcdef"

-- The dictionary that `normalized_model_contract` returns.
abbrev pub text_or_null : Option Text → Value
text_or_null none = null
text_or_null (some s) = text s

abbrev number : ℕ → Value
number n = integer (pos n)

unfoldable pub contract_value : ModelContract → Value
contract_value c = object (
    field (codes "model") (text (codes "d-fine")) (
      field (codes "variant") (text c.variant) (
        field (codes "task") (text (codes "detect")) (
          field (codes "input_h") (number c.input_h) (
            field (codes "input_w") (number c.input_w) (
              field (codes "num_classes") (number c.num_classes) (
                field (codes "initial_queries") (number c.initial_queries) (
                  field (codes "num_queries") (number c.num_queries) (
                    field (codes "eval_idx") (number c.eval_idx) (
                      field (codes "cascade") (text_or_null c.cascade) (
                        field (codes "checkpoint_sha256") (text c.checkpoint_sha256)
                          (field (codes "preprocess") c.preprocess empty))))))))))))

-- The lineage of a producer, which has no hash of the artifact itself.
pub record MetaLineage : Type 0 where
  pub artifact_kind : ArtifactKind
  pub precision_mode : Text
  pub checkpoint_sha256 : Text
  pub onnx_sha256 : Option Text
  pub source_onnx_sha256 : Option Text

module _ (fail : Error) where
  abbrev pub positive_number : Value → Result ℕ
  positive_number (integer (pos (suc n))) = returned (suc n)
  positive_number _ = failed fail

  -- `positive_meta_int(meta, field, fail)`
  unfoldable pub required_meta_int : Text → Fields → Result ℕ
  required_meta_int k meta = positive_number (get k meta)

  unfoldable pub positive_meta_int : Bool → Text → Fields → Result (Option ℕ)
  positive_meta_int optional k meta =
      if optional && not (has_key k meta)
      then returned none
      else required_meta_int k meta >>= λ n. returned (some n)

  abbrev pub sha256_text : Value → Result Text
  sha256_text (text s) =
      refuse_if (not (length s == 64) || any (λ c. not (any (λ d. c == d) hexadecimal)) s) fail
      >> returned s
  sha256_text _ = failed fail

  unfoldable pub sha256_meta : Text → Fields → Result Text
  sha256_meta k meta = sha256_text (get k meta)

  -- `for field, value in expected.items(): if meta.get(field) != value: fail(…)`
  unfoldable pub check_expected : Fields → Fields → Result (Unit {0})
  check_expected meta empty = returned tt
  check_expected meta (field k v fs) =
      refuse_if (not (same (get k meta) v)) fail >> check_expected meta fs

  abbrev pub nonnegative_number : Value → Result ℕ
  nonnegative_number (integer (pos n)) = returned n
  nonnegative_number _ = failed fail

  abbrev pub declared : Option (ℤ × ℤ) → Text → ℕ → Fields → Result (ℕ × Option Text)
  declared none s queries meta = failed fail
  declared (some pair) s queries meta = do
    initial ← required_meta_int (codes "cascade_initial_queries") meta
    refuse_if (contradicts pair initial queries) fail
    returned (initial, some s)

  -- The initial queries and the cascade.
  unfoldable pub initial_queries_of : Value → ℕ → Fields → Result (ℕ × Option Text)
  initial_queries_of null queries meta =
      refuse_if (has_key (codes "cascade_initial_queries") meta) fail >> returned (queries, none)
  initial_queries_of (text s) queries meta = declared (read_cascade s) s queries meta
  initial_queries_of _ queries meta = failed fail

  unfoldable pub normalized_model_contract : Fields → Fields → Result ModelContract
  normalized_model_contract meta extra = do
    check_expected meta (expected_fields extra)
    v ← member_or fail model_variants (get (codes "variant") meta)
    index ← nonnegative_number (get (codes "eval_idx") meta)
    queries ← required_meta_int (codes "num_queries") meta
    (initial, cascade_text) ← initial_queries_of (get (codes "cascade") meta) queries meta
    h ← required_meta_int (codes "input_h") meta
    w ← required_meta_int (codes "input_w") meta
    classes ← required_meta_int (codes "num_classes") meta
    hash ← sha256_meta (codes "checkpoint_sha256") meta
    returned (record {
      variant = v;
      input_h = h;
      input_w = w;
      num_classes = classes;
      initial_queries = initial;
      num_queries = queries;
      eval_idx = index;
      cascade = cascade_text;
      checkpoint_sha256 = hash;
      preprocess = stretch_preprocess;
    })

  abbrev nonempty_text : Value → Result Text
  nonempty_text (text []) = failed fail
  nonempty_text (text (c ∷ s)) = returned (c ∷ s)
  nonempty_text _ = failed fail

  abbrev some_sha256 : Bool → Text → Fields → Result (Option Text)
  some_sha256 true k meta = sha256_meta k meta >>= λ h. returned (some h)
  some_sha256 false k meta = returned none

  abbrev pub is_engine : ArtifactKind → Bool
  is_engine engine = true
  is_engine _ = false

  unfoldable pub artifact_lineage_from_meta :
      Fields → ArtifactKind → ModelContract → Result MetaLineage
  artifact_lineage_from_meta meta kind contract = do
    precision ← nonempty_text (get (codes "precision_mode") meta)
    onnx_hash ← some_sha256 (is_engine kind) (codes "onnx_sha256") meta
    let sourced = has_key (codes "source_onnx_sha256") meta
    source ← some_sha256 sourced (codes "source_onnx_sha256") meta
    returned (record {
      artifact_kind = kind;
      precision_mode = precision;
      checkpoint_sha256 = contract.checkpoint_sha256;
      onnx_sha256 = onnx_hash;
      source_onnx_sha256 = source;
    })
