-- ===== src/Chain/GroundTruth.antt =====
-- `_validate_ground_truth`: the counts of annotations that a report records.
use dfine_cpp.Common.{
  ℕ, ◌+◌, Bool, false, not, none, some, List, [], ◌∷◌, Text, codes, ◌&&◌, ◌||◌, ◌==◌, ltb, length,
}
use dfine_cpp.Common.Int.{ℤ, pos, leb_ℤ, ltb_ℤ}
use dfine_cpp.Common.Result.{
  Result, returned, failed, value_error, overflow_error, ◌>>=◌, ◌>>◌, refuse_if,
}
use dfine_cpp.Json.{Value, Items, Fields, array, item, item_of, count}
use dfine_cpp.Json.Number.{float_of, scaled}
use dfine_cpp.Chain.Require.{
  require_object, require_exact_keys, require_fields, require_int, require_nonnegative_number,
  require_at,
}
use dfine_cpp.Chain.Model.{is_text}

-- DENSITY_RANGES
abbrev pub density_ranges : List Text
density_ranges =
    codes "0"
    ∷ codes "1"
    ∷ codes "2-5"
    ∷ codes "6-10"
    ∷ codes "11-25"
    ∷ codes "26-50"
    ∷ codes "51-100"
    ∷ codes "101-200"
    ∷ codes "201-300"
    ∷ codes "301+"
    ∷ []

-- The checked numbers; those below `mean` are multiples of 2^-1074.
pub record GroundTruth : Type 0 where
  pub gt_instances : ℕ
  pub minimum : ℕ
  pub maximum : ℕ
  pub over_100 : ℕ
  pub mean : ℤ
  pub ordered : List ℤ
  pub histogram : List ℕ

-- `float(n)`
abbrev pub as_float : ℕ → Result ℤ
as_float n = elim (float_of n) [ none ↦ failed overflow_error | some z ↦ returned z ]

-- `any(left > right for left, right in zip(ordered, ordered[1:]))`
abbrev pub is_falling : List ℤ → Bool
is_falling [] = false
is_falling (a ∷ []) = false
is_falling (a ∷ b ∷ s) = ltb_ℤ b a || is_falling (b ∷ s)

abbrev pub percentile : Text → Fields → Result ℤ
percentile k per_image = require_at require_nonnegative_number k per_image

abbrev pub percentiles : ℕ → ℕ → Fields → Result (List ℤ)
percentiles minimum maximum per_image = do
  low ← as_float minimum
  median ← percentile (codes "median") per_image
  p90 ← percentile (codes "p90") per_image
  p95 ← percentile (codes "p95") per_image
  p99 ← percentile (codes "p99") per_image
  high ← as_float maximum
  returned (low ∷ median ∷ p90 ∷ p95 ∷ p99 ∷ high ∷ [])

abbrev pub histogram_fields : List Text
histogram_fields = codes "range" ∷ codes "images" ∷ []

abbrev pub read_row : Text → Value → Result ℕ
read_row expected value = do
  row ← require_object value
  require_exact_keys histogram_fields row
  found ← item_of (codes "range") row
  refuse_if (not (is_text expected found)) value_error
  require_at (require_int 0) (codes "images") row

-- `for row, expected_range in zip(histogram, DENSITY_RANGES)`
unfoldable pub read_rows : List Text → Items → Result (List ℕ)
read_rows (expected ∷ ranges) (item row rows) = do
  images ← read_row expected row
  rest ← read_rows ranges rows
  returned (images ∷ rest)
read_rows _ _ = returned []

abbrev pub total : List ℕ → ℕ
total [] = 0
total (n ∷ s) = n + total s

abbrev pub read_histogram : Value → Result (List ℕ)
read_histogram (array rows) =
    refuse_if (not (count rows == length density_ranges)) value_error
    >> read_rows density_ranges rows
read_histogram _ = failed value_error

abbrev pub ground_truth_fields : List Text
ground_truth_fields =
    codes "images" ∷ codes "gt_instances" ∷ codes "crowd_instances" ∷ codes "per_image" ∷ []

abbrev pub per_image_fields : List Text
per_image_fields =
    codes "min"
    ∷ codes "mean"
    ∷ codes "median"
    ∷ codes "p90"
    ∷ codes "p95"
    ∷ codes "p99"
    ∷ codes "max"
    ∷ codes "over_100"
    ∷ codes "histogram"
    ∷ []

abbrev pub read_per_image : ℕ → ℕ → Fields → Result GroundTruth
read_per_image image_count instances per_image = do
  require_fields per_image_fields per_image
  least ← require_at (require_int 0) (codes "min") per_image
  most ← require_at (require_int 0) (codes "max") per_image
  over ← require_at (require_int 0) (codes "over_100") per_image
  refuse_if (ltb most least || ltb instances most) value_error
  refuse_if (ltb image_count over) value_error
  levels ← percentiles least most per_image
  refuse_if (is_falling levels) value_error
  average ← percentile (codes "mean") per_image
  refuse_if (not (leb_ℤ (scaled (pos least)) average && leb_ℤ average (scaled (pos most))))
      value_error
  bins ← require_at read_histogram (codes "histogram") per_image
  refuse_if (not (total bins == image_count)) value_error
  returned (record {
    gt_instances = instances;
    minimum = least;
    maximum = most;
    over_100 = over;
    mean = average;
    ordered = levels;
    histogram = bins;
  })

abbrev pub read_ground_truth : ℕ → Fields → Result GroundTruth
read_ground_truth image_count ground_truth = do
  require_fields ground_truth_fields ground_truth
  images ← require_at (require_int 1) (codes "images") ground_truth
  refuse_if (not (images == image_count)) value_error
  instances ← require_at (require_int 0) (codes "gt_instances") ground_truth
  crowd ← require_at (require_int 0) (codes "crowd_instances") ground_truth
  per_image ← require_at require_object (codes "per_image") ground_truth
  read_per_image image_count instances per_image

unfoldable pub validate_ground_truth : ℕ → Value → Result GroundTruth
validate_ground_truth image_count value = do
  ground_truth ← require_object value
  read_ground_truth image_count ground_truth
