-- ===== src/Chain/Protocol.antt =====
-- `_validate_geometry` and `_validate_contract`: the evaluation contract that a report records.
use dfine_cpp.Common.{ℕ, not, List, [], ◌∷◌, Text, codes, ◌==◌}
use dfine_cpp.Common.Result.{Result, returned, value_error, ◌>>=◌, ◌>>◌, refuse_if}
use dfine_cpp.Json.{Value, Fields, get, has_key, item_of}
use dfine_cpp.Chain.Require.{
  require_object, require_exact_keys, require_int, require_nonempty_string, require_sha256,
  require_probability, require_at,
}
use dfine_cpp.Chain.Model.{is_text}
use dfine_cpp.Chain.GroundTruth.{GroundTruth, validate_ground_truth}

abbrev geometry_fields : List Text
geometry_fields = codes "canonical" ∷ codes "model_space_area" ∷ []

abbrev model_space_fields : List Text
model_space_fields = codes "input_h" ∷ codes "input_w" ∷ codes "resize" ∷ []

abbrev pub check_model_space : Value → Result Fields
check_model_space value = do
  model ← require_object value
  refuse_if (not (is_text (codes "stretch") (get (codes "resize") model))) value_error
  require_exact_keys model_space_fields model
  height ← require_at (require_int 1) (codes "input_h") model
  width ← require_at (require_int 1) (codes "input_w") model
  returned model

-- The geometry's `model_space_area`, which later checks compare with the metrics.
unfoldable pub validate_geometry : Value → Result Fields
validate_geometry value = do
  geometry ← require_object value
  require_exact_keys geometry_fields geometry
  canonical ← item_of (codes "canonical") geometry
  refuse_if (not (is_text (codes "coco_original_pixels") canonical)) value_error
  require_at check_model_space (codes "model_space_area") geometry

abbrev dataset_fields : List Text
dataset_fields = codes "name" ∷ codes "split" ∷ codes "version" ∷ []

abbrev pub check_dataset : Value → Result (Unit {0})
check_dataset value = do
  dataset ← require_object value
  require_exact_keys dataset_fields dataset
  name ← require_at require_nonempty_string (codes "name") dataset
  part ← require_at require_nonempty_string (codes "split") dataset
  version ← require_at require_nonempty_string (codes "version") dataset
  returned tt

abbrev evaluator_fields : List Text
evaluator_fields = codes "name" ∷ codes "version" ∷ codes "metrics_source_sha256" ∷ []

abbrev pub check_evaluator : Value → Result (Unit {0})
check_evaluator value = do
  evaluator ← require_object value
  require_exact_keys evaluator_fields evaluator
  name ← require_at require_nonempty_string (codes "name") evaluator
  version ← require_at require_nonempty_string (codes "version") evaluator
  hash ← require_at require_sha256 (codes "metrics_source_sha256") evaluator
  returned tt

abbrev selection_fields : List Text
selection_fields =
    codes "image_count" ∷ codes "image_manifest_sha256" ∷ codes "image_manifest_scheme" ∷ []

-- The number of images.
abbrev pub check_selection : Value → Result ℕ
check_selection value = do
  selection ← require_object value
  require_exact_keys selection_fields selection
  images ← require_at (require_int 1) (codes "image_count") selection
  hash ← require_at require_sha256 (codes "image_manifest_sha256") selection
  scheme ← require_at require_nonempty_string (codes "image_manifest_scheme") selection
  returned images

abbrev protocol_fields : List Text
protocol_fields =
    codes "schema_version"
    ∷ codes "dataset"
    ∷ codes "evaluator"
    ∷ codes "annotations_sha256"
    ∷ codes "selection"
    ∷ codes "score_threshold"
    ∷ codes "topk"
    ∷ codes "inference_batch_size"
    ∷ codes "geometry"
    ∷ []

-- A contract with what later checks read of it and of the ground truth.
pub record Protocol : Type 0 where
  pub contract : Fields
  pub image_count : ℕ
  pub model_space : Fields
  pub truth : GroundTruth

abbrev pub check_images : Fields → Result ℕ
check_images report = do
  refuse_if (not (has_key (codes "images") report)) value_error
  require_at (require_int 1) (codes "images") report

abbrev pub read_protocol : Fields → Fields → Result Protocol
read_protocol report fields = do
  require_exact_keys protocol_fields fields
  schema ← require_at (require_int 1) (codes "schema_version") fields
  refuse_if (not (schema == 1)) value_error
  require_at check_dataset (codes "dataset") fields
  require_at check_evaluator (codes "evaluator") fields
  annotations ← require_at require_sha256 (codes "annotations_sha256") fields
  images ← require_at check_selection (codes "selection") fields
  threshold ← require_at require_probability (codes "score_threshold") fields
  topk ← require_at (require_int 1) (codes "topk") fields
  refuse_if (not (topk == 300)) value_error
  batch ← require_at (require_int 1) (codes "inference_batch_size") fields
  model ← require_at validate_geometry (codes "geometry") fields
  recorded ← check_images report
  refuse_if (not (recorded == images)) value_error
  counts ← validate_ground_truth images (get (codes "ground_truth") report)
  returned (record { contract = fields; image_count = images; model_space = model; truth = counts })

unfoldable pub validate_contract : Fields → Result Protocol
validate_contract report = do
  refuse_if (not (has_key (codes "evaluation_contract") report)) value_error
  fields ← require_at require_object (codes "evaluation_contract") report
  read_protocol report fields
