-- ===== src/Chain/Metrics.antt =====
-- `_extract_metrics`: the metrics of one backend, checked against the ground truth and the
-- geometry.
use dfine_cpp.Common.{
  ℕ, ◌+◌, not, Option, none, some, List, [], ◌∷◌, Text, codes, ◌||◌, ◌==◌, leb, if◌then◌else◌, any,
}
use dfine_cpp.Common.Int.{ℤ, pos, ints_eq}
use dfine_cpp.Common.Result.{Result, returned, failed, value_error, ◌>>=◌, ◌>>◌, refuse_if}
use dfine_cpp.Json.{Value, Items, Fields, integer, text, array, nil, item, empty, field, get}
use dfine_cpp.Json.Same.{same}
use dfine_cpp.Chain.Require.{
  require_object, require_exact_keys, require_fields, require_int, require_metric,
  require_area_counts, require_at, AreaCounts,
}

-- SCALAR_METRICS
abbrev pub scalar_metrics : List Text
scalar_metrics =
    codes "AP"
    ∷ codes "AP50"
    ∷ codes "AP75"
    ∷ codes "APs"
    ∷ codes "APm"
    ∷ codes "APl"
    ∷ codes "AR1"
    ∷ codes "AR10"
    ∷ codes "AR100"
    ∷ codes "ARs"
    ∷ codes "ARm"
    ∷ codes "ARl"
    ∷ []

-- MODEL_SPACE_METRICS
abbrev pub model_space_metrics : List Text
model_space_metrics =
    codes "APs" ∷ codes "APm" ∷ codes "APl" ∷ codes "ARs" ∷ codes "ARm" ∷ codes "ARl" ∷ []

-- IOU_KEYS
abbrev pub iou_keys : List Text
iou_keys =
    codes "0.50"
    ∷ codes "0.55"
    ∷ codes "0.60"
    ∷ codes "0.65"
    ∷ codes "0.70"
    ∷ codes "0.75"
    ∷ codes "0.80"
    ∷ codes "0.85"
    ∷ codes "0.90"
    ∷ codes "0.95"
    ∷ []

-- `{name: _require_metric(mapping[name], …) for name in names}`, the values in the names' order
unfoldable pub read_metrics : List Text → Fields → Result (List (Option ℤ))
read_metrics [] fs = returned []
read_metrics (k ∷ ks) fs = do
  value ← require_at require_metric k fs
  rest ← read_metrics ks fs
  returned (value ∷ rest)

-- An array of integers, none where an element is no `int` or is a `bool`.
unfoldable pub integers : Items → Option (List ℤ)
integers nil = some []
integers (item (integer z) xs) = elim (integers xs) [ none ↦ none | some zs ↦ some (z ∷ zs) ]
integers (item _ xs) = none

abbrev pub standard_max_dets : List ℤ
standard_max_dets = pos 1 ∷ pos 10 ∷ pos 100 ∷ []

abbrev pub legacy_max_dets : List ℤ
legacy_max_dets = pos 1 ∷ pos 10 ∷ pos 100 ∷ pos 300 ∷ []

abbrev pub known_max_dets : Option (List ℤ) → Result (List ℤ)
known_max_dets none = failed value_error
known_max_dets (some zs) =
    refuse_if (not (ints_eq zs standard_max_dets || ints_eq zs legacy_max_dets)) value_error
    >> returned zs

unfoldable pub read_max_dets : Value → Result (List ℤ)
read_max_dets (array xs) = known_max_dets (integers xs)
read_max_dets _ = failed value_error

pub record ClassRow : Type 0 where
  pub category_id : ℕ
  pub name : Text
  pub gt_instances : ℕ
  pub average : Option ℤ

abbrev pub row_fields : List Text
row_fields = codes "category_id" ∷ codes "name" ∷ codes "gt_instances" ∷ codes "AP" ∷ []

abbrev pub nonempty_name : Value → Result Text
nonempty_name (text []) = failed value_error
nonempty_name (text (c ∷ s)) = returned (c ∷ s)
nonempty_name _ = failed value_error

abbrev pub read_class : List ℕ → Value → Result ClassRow
read_class seen value = do
  row ← require_object value
  require_exact_keys row_fields row
  id ← require_at (require_int 0) (codes "category_id") row
  refuse_if (any (λ k. id == k) seen) value_error
  label ← require_at nonempty_name (codes "name") row
  instances ← require_at (require_int 0) (codes "gt_instances") row
  ap ← require_at require_metric (codes "AP") row
  returned (record { category_id = id; name = label; gt_instances = instances; average = ap })

-- The loop over the rows, which remembers the ids it has seen.
unfoldable pub read_classes : List ℕ → Items → Result (List ClassRow)
read_classes seen nil = returned []
read_classes seen (item value rows) = do
  row ← read_class seen value
  rest ← read_classes (row.category_id ∷ seen) rows
  returned (row ∷ rest)

-- `per_class.sort(key=lambda row: row["category_id"])`
unfoldable pub insert_row : ClassRow → List ClassRow → List ClassRow
insert_row r [] = r ∷ []
insert_row r (q ∷ qs) =
    let rest = insert_row r qs in if leb r.category_id q.category_id then r ∷ q ∷ qs else q ∷ rest

unfoldable pub sort_rows : List ClassRow → List ClassRow
sort_rows [] = []
sort_rows (r ∷ rs) = insert_row r (sort_rows rs)

abbrev pub some_rows : List ClassRow → Result (List ClassRow)
some_rows [] = failed value_error
some_rows (r ∷ rs) = returned (sort_rows (r ∷ rs))

unfoldable pub read_per_class : Value → Result (List ClassRow)
read_per_class (array rows) = read_classes [] rows >>= some_rows
read_per_class _ = failed value_error

abbrev pub area_total : AreaCounts → ℕ
area_total a = a.small + (a.medium + a.large)

unfoldable pub class_total : List ClassRow → ℕ
class_total [] = 0
class_total (r ∷ rs) = r.gt_instances + class_total rs

-- `for key, expected in model_geometry.items(): if model.get(key) != expected`
unfoldable pub check_model_geometry : Fields → Fields → Result (Unit {0})
check_model_geometry model empty = returned tt
check_model_geometry model (field k expected fs) =
    refuse_if (not (same (get k model) expected)) value_error >> check_model_geometry model fs

pub record Metrics : Type 0 where
  pub bbox : List (Option ℤ)
  pub ap_by_iou : List (Option ℤ)
  pub per_class : List ClassRow
  pub source_max_dets : List ℤ
  pub gt_by_area : AreaCounts
  pub model_space : List (Option ℤ)
  pub model_gt : AreaCounts

abbrev pub read_by_iou : Value → Result (List (Option ℤ))
read_by_iou value = do
  by_iou ← require_object value
  require_exact_keys iou_keys by_iou
  read_metrics iou_keys by_iou

abbrev pub read_model_space : ℕ → Fields → Value → Result (List (Option ℤ) × AreaCounts)
read_model_space instances geometry value = do
  model ← require_object value
  check_model_geometry model geometry
  require_fields model_space_metrics model
  values ← read_metrics model_space_metrics model
  counts ← require_area_counts (get (codes "GT_by_area") model)
  refuse_if (not (area_total counts == instances)) value_error
  returned (values, counts)

unfoldable pub extract_metrics : ℕ → Fields → Fields → Result Metrics
extract_metrics instances geometry metrics = do
  require_fields scalar_metrics metrics
  scalars ← read_metrics scalar_metrics metrics
  dets ← read_max_dets (get (codes "max_dets") metrics)
  by_iou ← read_by_iou (get (codes "AP_by_iou") metrics)
  rows ← read_per_class (get (codes "per_class") metrics)
  areas ← require_area_counts (get (codes "GT_by_area") metrics)
  refuse_if (not (area_total areas == instances)) value_error
  refuse_if (not (class_total rows == instances)) value_error
  space ← read_model_space instances geometry (get (codes "model_space_area") metrics)
  returned (record {
    bbox = scalars;
    ap_by_iou = by_iou;
    per_class = rows;
    source_max_dets = dets;
    gt_by_area = areas;
    model_space = space.0;
    model_gt = space.1;
  })
