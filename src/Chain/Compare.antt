-- ===== src/Chain/Compare.antt =====
-- `_first_difference`, `_assert_comparable`, `_metric_delta` and `_deltas`: two stages compared.
-- The place of a difference, which only the message names, is left out.
use dfine_cpp.Common.{
  Bool, true, false, not, Option, none, some, List, [], ◌∷◌, text_eq, ◌&&◌, ◌==◌, if◌then◌else◌,
}
use dfine_cpp.Common.Int.{ℤ, pos, eqb_ℤ, ints_eq}
use dfine_cpp.Common.Result.{Result, returned, failed, value_error, ◌>>=◌, ◌>>◌, refuse_if}
use dfine_cpp.Json.{
  Value, Items, Fields, null, boolean, integer, real, text, array, object, nil, item, empty, field,
  get, has_key,
}
use dfine_cpp.Json.Number.{eqb_real, minus}
use dfine_cpp.Chain.Require.{AreaCounts}
use dfine_cpp.Chain.Metrics.{Metrics, ClassRow}

abbrev same_bool : Bool → Bool → Bool
same_bool true b = b
same_bool false b = not b

-- Every key of the second object is a key of the first.
abbrev pub covers : Fields → Fields → Bool
covers fs empty = true
covers fs (field k v gs) = has_key k fs && covers fs gs

-- No difference: equal values of equal types, and objects of equal keys in any order.
unfoldable mutual
  pub agrees : Value → Value → Bool
  agrees null null = true
  agrees (boolean a) (boolean b) = same_bool a b
  agrees (integer a) (integer b) = eqb_ℤ a b
  agrees (real a) (real b) = eqb_real a b
  agrees (text s) (text t) = text_eq s t
  agrees (array xs) (array ys) = agrees_items xs ys
  agrees (object fs) (object gs) = covers fs gs && agrees_fields fs gs
  agrees _ _ = false

  pub agrees_items : Items → Items → Bool
  agrees_items nil nil = true
  agrees_items (item v xs) (item w ys) = agrees v w && agrees_items xs ys
  agrees_items _ _ = false

  pub agrees_fields : Fields → Fields → Bool
  agrees_fields empty gs = true
  agrees_fields (field k v fs) gs = has_key k gs && (agrees v (get k gs) && agrees_fields fs gs)

-- What the comparison reads of a stage.
pub record Comparable : Type 0 where
  pub contract : Fields
  pub ground_truth : Value
  pub metrics : Metrics

abbrev pub same_areas : AreaCounts → AreaCounts → Bool
same_areas a b = (a.small == b.small) && ((a.medium == b.medium) && (a.large == b.large))

abbrev same_class : ClassRow → ClassRow → Bool
same_class a b =
    (a.category_id == b.category_id)
    && (text_eq a.name b.name && (a.gt_instances == b.gt_instances))

unfoldable pub same_classes : List ClassRow → List ClassRow → Bool
same_classes [] [] = true
same_classes (a ∷ s) (b ∷ t) = same_class a b && same_classes s t
same_classes _ _ = false

unfoldable pub assert_comparable : Comparable → Comparable → Result (Unit {0})
assert_comparable reference candidate = do
  refuse_if (not (agrees (object reference.contract) (object candidate.contract))) value_error
  refuse_if (not (agrees reference.ground_truth candidate.ground_truth)) value_error
  let left = reference.metrics
  let right = candidate.metrics
  refuse_if (not (ints_eq left.source_max_dets right.source_max_dets)) value_error
  refuse_if (not (same_areas left.gt_by_area right.gt_by_area)) value_error
  refuse_if (not (same_areas left.model_gt right.model_gt)) value_error
  refuse_if (not (same_classes left.per_class right.per_class)) value_error

-- `right - left`, and 0.0 of equal metrics
unfoldable pub metric_delta : Option ℤ → Option ℤ → Result (Option ℤ)
metric_delta none none = returned none
metric_delta none (some b) = failed value_error
metric_delta (some a) none = failed value_error
metric_delta (some a) (some b) = returned (some (if eqb_ℤ a b then pos 0 else minus b a))

unfoldable pub metric_deltas : List (Option ℤ) → List (Option ℤ) → Result (List (Option ℤ))
metric_deltas (a ∷ s) (b ∷ t) = do
  delta ← metric_delta a b
  rest ← metric_deltas s t
  returned (delta ∷ rest)
metric_deltas _ _ = returned []

-- The differences of the classes' metrics, under the left row's identity.
unfoldable pub class_deltas : List ClassRow → List ClassRow → Result (List ClassRow)
class_deltas (a ∷ s) (b ∷ t) = do
  delta ← metric_delta a.average b.average
  rest ← class_deltas s t
  let row : ClassRow = record {
    category_id = a.category_id;
    name = a.name;
    gt_instances = a.gt_instances;
    average = delta;
  }
  returned (row ∷ rest)
class_deltas _ _ = returned []

pub record Deltas : Type 0 where
  pub bbox : List (Option ℤ)
  pub ap_by_iou : List (Option ℤ)
  pub per_class : List ClassRow
  pub model_space : List (Option ℤ)

unfoldable pub deltas : Metrics → Metrics → Result Deltas
deltas left right = do
  rows ← class_deltas left.per_class right.per_class
  scalars ← metric_deltas left.bbox right.bbox
  by_iou ← metric_deltas left.ap_by_iou right.ap_by_iou
  space ← metric_deltas left.model_space right.model_space
  returned (record { bbox = scalars; ap_by_iou = by_iou; per_class = rows; model_space = space })
