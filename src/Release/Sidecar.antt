-- ===== src/Release/Sidecar.antt =====
-- `_validate_sidecar` and `_compare_artifact_contracts` of trt-files/scripts/release_assets.py.
use dfine_cpp.Common.{
  Bool, true, false, not, Option, none, some, List, [], ◌∷◌, Text, codes, ◌&&◌, ◌||◌, if◌then◌else◌,
}
use dfine_cpp.Common.Result.{Result, returned, failed, system_exit, ◌>>=◌, ◌>>◌, refuse_if}
use dfine_cpp.Json.{
  Value, Fields, null, boolean, integer, real, text, array, object, empty, field, find, get,
  has_key, is_among,
}
use dfine_cpp.Json.Same.{same}
use dfine_cpp.Chain.Require.{is_sha256}
use dfine_cpp.Release.Facts.{
  Size, size_name, whole, float, items, texts, model_facts, tensor_count, checkpoint_hash,
  coco80_names,
}

-- What the release's own files tell: the hashes of its scripts, and the model sources.
pub record Sources : Type 0 where
  pub exporter_sha256 : Text
  pub converter_sha256 : Text
  pub revision : Text
  pub implementation_sha256 : Text
  pub implementation_files : List Text

abbrev pub precision_name : Bool → Text
precision_name true = codes "fp16"
precision_name false = codes "fp32"

-- `type(a) is type(b)`
abbrev pub same_type : Value → Value → Bool
same_type null null = true
same_type (boolean _) (boolean _) = true
same_type (integer _) (integer _) = true
same_type (real _) (real _) = true
same_type (text _) (text _) = true
same_type (array _) (array _) = true
same_type (object _) (object _) = true
same_type _ _ = false

abbrev with_fields : List (Text × Value) → Fields → Fields
with_fields [] fs = fs
with_fields ((k, v) ∷ s) fs = field k v (with_fields s fs)

abbrev word : Text → Value
word s = text s

-- The fields that a release artifact must have; `eval_idx` stands in the facts only.
abbrev pub required_fields : Sources → Size → Bool → Fields
required_fields sources size fp16 =
    with_fields
      ((codes "artifact_kind", word (codes "onnx"))
        ∷ (codes "schema_version", whole 1)
        ∷ (codes "checkpoint_load", word (codes "strict"))
        ∷ (codes "checkpoint_deserialization", word (codes "weights_only"))
        ∷ (codes "checkpoint_selected_state", word (codes "checkpoint root"))
        ∷ (codes "checkpoint_unused_tensors", whole 0)
        ∷ (codes "precision", word (precision_name fp16))
        ∷ (codes "model", word (codes "d-fine"))
        ∷ (codes "variant", word (size_name size))
        ∷ (codes "task", word (codes "detect"))
        ∷ (codes "input_h", whole 640)
        ∷ (codes "input_w", whole 640)
        ∷ (codes "num_classes", whole 80)
        ∷ (codes "num_queries", whole 300)
        ∷ (codes "input_names", array (texts (codes "images" ∷ [])))
        ∷ (codes "output_names", array (texts (codes "logits" ∷ codes "boxes" ∷ [])))
        ∷ (codes "logits_shape", array (items (word (codes "N") ∷ whole 300 ∷ whole 80 ∷ [])))
        ∷ (codes "boxes_shape", array (items (word (codes "N") ∷ whole 300 ∷ whole 4 ∷ [])))
        ∷ (codes "box_format", word (codes "cxcywh_normalized"))
        ∷ (codes "score_activation", word (codes "sigmoid"))
        ∷ (codes "color_order", word (codes "RGB"))
        ∷ (codes "channel_layout", word (codes "NCHW"))
        ∷ (codes "normalize", word (codes "div255"))
        ∷ (codes "mean", array (items (float 0 ∷ float 0 ∷ float 0 ∷ [])))
        ∷ (codes "std", array (items (float 1 ∷ float 1 ∷ float 1 ∷ [])))
        ∷ (codes "resize", word (codes "stretch"))
        ∷ (codes "nms", word (codes "none"))
        ∷ (codes "has_masks", boolean false)
        ∷ (codes "dynamic_batch", boolean true)
        ∷ (codes "max_batch", whole 8)
        ∷ (codes "trace_batch", whole 2)
        ∷ (codes "deform_core", word (codes "explicit"))
        ∷ (codes "gridsample_nodes", whole 0)
        ∷ (codes "onnx_simplification", word (codes "applied"))
        ∷ (codes "checkpoint_loaded_tensors", whole (tensor_count size))
        ∷ (codes "checkpoint_sha256", word (checkpoint_hash size))
        ∷ (codes "exporter_sha256", word sources.exporter_sha256)
        ∷ [])
      (model_facts size)

-- `meta.get(field) != expected or type(meta.get(field)) is not type(expected)`
unfoldable pub check_required : Fields → Fields → Result (Unit {0})
check_required meta empty = returned tt
check_required meta (field k expected fs) =
    refuse_if (not (same (get k meta) expected && same_type (get k meta) expected)) system_exit
    >> check_required meta fs

abbrev pub is_hash : Value → Bool
is_hash (text s) = is_sha256 s
is_hash _ = false

abbrev is_true : Value → Bool
is_true (boolean b) = b
is_true _ = false

abbrev source_matches : Sources → Fields → Bool
source_matches sources source =
    same (get (codes "name") source) (word (codes "D-FINE-seg"))
    && (same (get (codes "repository") source) (word (codes "https://github.com/ArgoHA/D-FINE-seg"))
        && (same (get (codes "upstream_commit") source) (word sources.revision)
            && (is_true (get (codes "bundled") source)
                && (same (get (codes "implementation_sha256") source)
                      (word sources.implementation_sha256)
                    && same (get (codes "implementation_files") source)
                        (array (texts sources.implementation_files))))))

abbrev pub check_source : Sources → Value → Result (Unit {0})
check_source sources (object source) = refuse_if (not (source_matches sources source)) system_exit
check_source sources _ = failed system_exit

abbrev is_nonempty_text : Value → Bool
is_nonempty_text (text (c ∷ s)) = true
is_nonempty_text _ = false

abbrev is_nonempty : Text → Bool
is_nonempty [] = false
is_nonempty (c ∷ s) = true

abbrev are_versions : Fields → Bool
are_versions empty = true
are_versions (field k v fs) = is_nonempty k && (is_nonempty_text v && are_versions fs)

abbrev pub check_tools : Value → Result Fields
check_tools (object empty) = failed system_exit
check_tools (object (field k v fs)) =
    refuse_if (not (are_versions (field k v fs))) system_exit >> returned (field k v fs)
check_tools _ = failed system_exit

abbrev pub converter : Text
converter = codes "onnxconverter-common"

abbrev pub check_precision : Sources → Bool → Fields → Fields → Result (Unit {0})
check_precision sources true meta tools = do
  refuse_if
      (not (
        same (get (codes "precision_mode") meta)
          (word (codes "strongly_typed_onnx_fp16_surgical_slim"))))
      system_exit
  refuse_if (not (is_hash (get (codes "source_onnx_sha256") meta))) system_exit
  refuse_if (not (is_hash (get (codes "converter_sha256") meta))) system_exit
  refuse_if (not (same (get (codes "converter_sha256") meta) (word sources.converter_sha256)))
      system_exit
  refuse_if (not (has_key converter tools)) system_exit
check_precision sources false meta tools =
    refuse_if (not (same (get (codes "precision_mode") meta) (word (codes "fp32")))) system_exit

-- A sidecar's fields with its `tool_versions`.
pub record Meta : Type 0 where
  pub fields : Fields
  pub tools : Fields

abbrev precision_of : Fields → Value
precision_of meta = elim (find (codes "precision") meta) [ none ↦ text (codes "fp32") | some v ↦ v ]

abbrev pub check_meta : Sources → Size → Bool → Fields → Result Meta
check_meta sources size fp16 meta = do
  refuse_if (not (same (precision_of meta) (word (precision_name fp16)))) system_exit
  refuse_if (not (same (get (codes "opset") meta) (whole 19))) system_exit
  check_required meta (required_fields sources size fp16)
  refuse_if (has_key (codes "cascade") meta || has_key (codes "cascade_initial_queries") meta)
      system_exit
  refuse_if (not (same (get (codes "class_names") meta) (array (texts coco80_names)))) system_exit
  refuse_if (not (is_hash (get (codes "checkpoint_sha256") meta))) system_exit
  refuse_if (not (is_hash (get (codes "exporter_sha256") meta))) system_exit
  check_source sources (get (codes "model_source") meta)
  versions ← check_tools (get (codes "tool_versions") meta)
  check_precision sources fp16 meta versions
  returned (record { fields = meta; tools = versions })

-- The decoded sidecar; none where the file cannot be read or JSON refuses it.
unfoldable pub validate_sidecar : Sources → Size → Bool → Option Value → Result Meta
validate_sidecar sources size fp16 (some (object meta)) = check_meta sources size fp16 meta
validate_sidecar sources size fp16 _ = failed system_exit

-- CONVERSION_FIELDS
abbrev pub conversion_fields : List Text
conversion_fields =
    codes "precision"
    ∷ codes "precision_mode"
    ∷ codes "source_onnx_sha256"
    ∷ codes "converter_sha256"
    ∷ codes "tool_versions"
    ∷ []

unfoldable pub without : List Text → Fields → Fields
without ks empty = empty
without ks (field k v fs) =
    let rest = without ks fs in if is_among k ks then rest else field k v rest

unfoldable pub compare_artifact_contracts : Meta → Meta → Result (Unit {0})
compare_artifact_contracts fp32 slim = do
  refuse_if
      (not (
        same (object (without conversion_fields slim.fields))
          (object (without conversion_fields fp32.fields))))
      system_exit
  refuse_if (not (same (object (without (converter ∷ []) slim.tools)) (object fp32.tools)))
      system_exit
