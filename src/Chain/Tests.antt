-- ===== src/Chain/Tests.antt =====
-- Runs of the theorems on the accuracy chain.
use dfine_cpp.Common.{
  ◌↔◌, ℕ, zero, suc, ◌*◌, map, true, Option, none, some, List, [], ◌∷◌, text_eq, codes, ◌≡◌, refl,
}
use dfine_cpp.Common.Int.{ℤ, pos, ints_eq, negated}
use dfine_cpp.Common.Result.{returned, failed, value_error}
use dfine_cpp.Json.{Value, find}
use dfine_cpp.Json.Number.{one, bits, round_magnitude, overflow, fuel, float_of}
use dfine_cpp.Json.Same.{same}
use dfine_cpp.Chain.Require.{
  require_exact_keys, require_fields, require_int, require_metric, require_nonnegative_number,
  require_area_counts,
}
use dfine_cpp.Chain.GroundTruth.{GroundTruth, validate_ground_truth, read_rows}
use dfine_cpp.Chain.Metrics.{
  Metrics, ClassRow, extract_metrics, read_metrics, integers, read_max_dets, read_classes,
  insert_row, sort_rows, read_per_class, class_total, check_model_geometry,
}
use dfine_cpp.Chain.Extracted.{extract_metrics-IsExtracted, IsExtracted}
use dfine_cpp.Chain.Consistent.{validate_ground_truth-IsConsistent}
use dfine_cpp.Chain.Counted.{IsConsistent}
use dfine_cpp.Chain.Data.{ground_truth, metrics, geometry}
use dfine_cpp.Chain.Require.{AreaCounts}
use dfine_cpp.Chain.Compare.{metric_delta, metric_deltas}
use dfine_cpp.Chain.Opposite.{opposite, AreDeltas, metric_deltas-AreDeltas}
use dfine_cpp.Json.Number.{minus}
use dfine_cpp.Chain.Data.{named}
use dfine_cpp.Json.{is_unique, object}
use dfine_cpp.Chain.Decode.{raw_null, raw_object, no_pairs, raw_pair, add, unique_object, decode}
use dfine_cpp.Chain.Decoded.{raw_of, decode_iff}

abbrev geometry_value : Value
geometry_value = object geometry

abbrev two : ℕ
two = 2 * one

abbrev truth : GroundTruth
truth = record {
  gt_instances = 3;
  minimum = 1;
  maximum = 2;
  over_100 = 0;
  mean = pos one;
  ordered = pos one ∷ pos one ∷ pos two ∷ pos two ∷ pos two ∷ pos two ∷ [];
  histogram = 0 ∷ 1 ∷ 1 ∷ 0 ∷ 0 ∷ 0 ∷ 0 ∷ 0 ∷ 0 ∷ 0 ∷ [];
}

accepted_truth : validate_ground_truth 2 ground_truth ≡ returned truth
unfolding validate_ground_truth require_fields require_int require_exact_keys find text_eq
    require_nonnegative_number read_rows one bits round_magnitude overflow fuel float_of same
accepted_truth = refl

validate_ground_truth-IsConsistent_example : IsConsistent 2 truth
validate_ground_truth-IsConsistent_example =
    validate_ground_truth-IsConsistent 2 ground_truth truth accepted_truth

abbrev no_metrics : ℕ → List (Option ℤ)
no_metrics zero = []
no_metrics (suc n) = some (pos 0) ∷ no_metrics n

abbrev cat : ℕ → ℕ → ClassRow
cat id instances = record {
  category_id = id;
  name = codes "cat";
  gt_instances = instances;
  average = none;
}

abbrev counts : AreaCounts
counts = record { small = 1; medium = 0; large = 2 }

abbrev pub extracted : Metrics
extracted = record {
  bbox = no_metrics 12;
  ap_by_iou = no_metrics 10;
  per_class = cat 3 2 ∷ cat 7 1 ∷ [];
  source_max_dets = pos 1 ∷ pos 10 ∷ pos 100 ∷ [];
  gt_by_area = counts;
  model_space = no_metrics 6;
  model_gt = counts;
}

accepted_metrics : extract_metrics 3 geometry metrics ≡ returned extracted
unfolding extract_metrics require_fields require_int require_exact_keys find text_eq require_metric
    read_metrics one bits round_magnitude overflow fuel float_of same read_max_dets integers ints_eq
    read_per_class read_classes insert_row sort_rows class_total check_model_geometry
    require_area_counts
accepted_metrics = refl

extract_metrics-IsExtracted_example : IsExtracted 3 extracted
extract_metrics-IsExtracted_example =
    extract_metrics-IsExtracted 3 geometry metrics extracted accepted_metrics

refused_metrics : extract_metrics 3 geometry (named []) ≡ failed value_error
unfolding extract_metrics require_fields find
refused_metrics = refl

deltas_of :
    metric_deltas (some (pos 3) ∷ none ∷ []) (some (pos 5) ∷ none ∷ [])
    ≡ returned (some (pos 2) ∷ none ∷ [])
unfolding metric_deltas metric_delta minus one bits round_magnitude fuel negated
deltas_of = refl

metric_deltas-AreDeltas_example :
    AreDeltas (some (pos 3) ∷ none ∷ []) (some (pos 5) ∷ none ∷ []) (some (pos 2) ∷ none ∷ [])
    × (metric_deltas (some (pos 5) ∷ none ∷ []) (some (pos 3) ∷ none ∷ [])
        ≡ returned (map opposite (some (pos 2) ∷ none ∷ [])))
metric_deltas-AreDeltas_example =
    metric_deltas-AreDeltas (some (pos 3) ∷ none ∷ []) (some (pos 5) ∷ none ∷ [])
      (some (pos 2) ∷ none ∷ []) deltas_of

repeated_pair :
    decode (raw_object (raw_pair (codes "a") raw_null (raw_pair (codes "a") raw_null no_pairs)))
    ≡ failed value_error
unfolding decode unique_object find text_eq add
repeated_pair = refl

decoded_report : decode (raw_of geometry_value) ≡ returned geometry_value
unfolding decode unique_object find text_eq add raw_of
decoded_report = refl

decode_iff_example :
    (decode (raw_of geometry_value) ≡ returned geometry_value)
    ↔ ((raw_of geometry_value ≡ raw_of geometry_value) × (is_unique geometry_value ≡ true))
decode_iff_example = decode_iff (raw_of geometry_value) geometry_value
