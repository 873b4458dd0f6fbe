-- ===== src/Chain/Data.antt =====
-- Reports for the tests.
use dfine_cpp.Common.{ℕ, zero, suc, List, [], ◌∷◌, ◌++◌, Text, codes}
use dfine_cpp.Common.Int.{pos}
use dfine_cpp.Json.{
  Value, Items, Fields, finite, null, integer, real, text, array, object, nil, item, empty, field,
}
use dfine_cpp.Chain.Metrics.{scalar_metrics, model_space_metrics, iou_keys}

abbrev repeated : ℕ → ℕ → Text
repeated zero c = []
repeated (suc n) c = c ∷ repeated n c

-- A hash of one digit.
abbrev pub hash_of : ℕ → Text
hash_of c = repeated 64 c

abbrev pub named : List (Text × Value) → Fields
named [] = empty
named ((k, v) ∷ s) = field k v (named s)

abbrev pub listed : List Value → Items
listed [] = nil
listed (v ∷ s) = item v (listed s)

abbrev pub whole : ℕ → Value
whole n = integer (pos n)

abbrev zeros : List Text → List (Text × Value)
zeros [] = []
zeros (k ∷ ks) = (k, real (finite (pos 0))) ∷ zeros ks

abbrev areas : Value
areas =
    object
      (named ((codes "small", whole 1) ∷ (codes "medium", whole 0) ∷ (codes "large", whole 2) ∷ []))

abbrev class_row : ℕ → ℕ → Value
class_row id instances = object (
    named (
      (codes "category_id", whole id)
      ∷ (codes "name", text (codes "cat"))
      ∷ (codes "gt_instances", whole instances)
      ∷ (codes "AP", null)
      ∷ []))

abbrev model_space : List (Text × Value)
model_space =
    (codes "input_h", whole 640)
    ∷ (codes "input_w", whole 480)
    ∷ (codes "resize", text (codes "stretch"))
    ∷ []

abbrev pub geometry : Fields
geometry = named model_space

abbrev pub metrics : Fields
metrics = named (
    zeros scalar_metrics
    ++ ((codes "max_dets", array (listed (whole 1 ∷ whole 10 ∷ whole 100 ∷ [])))
        ∷ (codes "AP_by_iou", object (named (zeros iou_keys)))
        ∷ (codes "per_class", array (listed (class_row 7 1 ∷ class_row 3 2 ∷ [])))
        ∷ (codes "GT_by_area", areas)
        ∷ (
          codes "model_space_area",
          object (
              named
                (model_space ++ (zeros model_space_metrics ++ ((codes "GT_by_area", areas) ∷ [])))),
        )
        ∷ []))

abbrev bin : Text → ℕ → Value
bin r n = object (named ((codes "range", text r) ∷ (codes "images", whole n) ∷ []))

abbrev histogram : Value
histogram = array (
    listed (
      bin (codes "0") 0
      ∷ bin (codes "1") 1
      ∷ bin (codes "2-5") 1
      ∷ bin (codes "6-10") 0
      ∷ bin (codes "11-25") 0
      ∷ bin (codes "26-50") 0
      ∷ bin (codes "51-100") 0
      ∷ bin (codes "101-200") 0
      ∷ bin (codes "201-300") 0
      ∷ bin (codes "301+") 0
      ∷ []))

-- Two images with one and two annotations.
abbrev pub ground_truth : Value
ground_truth = object (
    named (
      (codes "images", whole 2)
      ∷ (codes "gt_instances", whole 3)
      ∷ (codes "crowd_instances", whole 0)
      ∷ (
        codes "per_image",
        object (
            named (
              (codes "min", whole 1)
              ∷ (codes "mean", whole 1)
              ∷ (codes "median", whole 1)
              ∷ (codes "p90", whole 2)
              ∷ (codes "p95", whole 2)
              ∷ (codes "p99", whole 2)
              ∷ (codes "max", whole 2)
              ∷ (codes "over_100", whole 0)
              ∷ (codes "histogram", histogram)
              ∷ [])),
      )
      ∷ []))

abbrev contract : Value
contract = object (
    named (
      (codes "schema_version", whole 1)
      ∷ (
        codes "dataset",
        object (
            named (
              (codes "name", text (codes "COCO"))
              ∷ (codes "split", text (codes "val"))
              ∷ (codes "version", text (codes "2017"))
              ∷ [])),
      )
      ∷ (
        codes "evaluator",
        object (
            named (
              (codes "name", text (codes "pycocotools"))
              ∷ (codes "version", text (codes "2"))
              ∷ (codes "metrics_source_sha256", text (hash_of b'a'))
              ∷ [])),
      )
      ∷ (codes "annotations_sha256", text (hash_of b'b'))
      ∷ (
        codes "selection",
        object (
            named (
              (codes "image_count", whole 2)
              ∷ (codes "image_manifest_sha256", text (hash_of b'c'))
              ∷ (codes "image_manifest_scheme", text (codes "v1"))
              ∷ [])),
      )
      ∷ (codes "score_threshold", real (finite (pos 0)))
      ∷ (codes "topk", whole 300)
      ∷ (codes "inference_batch_size", whole 1)
      ∷ (
        codes "geometry",
        object (
            named (
              (codes "canonical", text (codes "coco_original_pixels"))
              ∷ (codes "model_space_area", object geometry)
              ∷ [])),
      )
      ∷ []))

abbrev pub report : Value
report = object (
    named (
      (codes "evaluation_contract", contract)
      ∷ (codes "images", whole 2)
      ∷ (codes "ground_truth", ground_truth)
      ∷ (
        codes "backends",
        object (
            named (
              (
                codes "onnx",
                object (
                    named (
                      (
                        codes "artifact",
                        object (
                            named (
                              (codes "kind", text (codes "onnx"))
                              ∷ (codes "sha256", text (hash_of b'd'))
                              ∷ (codes "recipe", text (codes "fp32"))
                              ∷ (codes "runtime", text (codes "ort"))
                              ∷ [])),
                      )
                      ∷ (codes "map", object metrics)
                      ∷ [])),
              )
              ∷ [])),
      )
      ∷ []))
