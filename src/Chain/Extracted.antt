-- ===== src/Chain/Extracted.antt =====
-- What `_extract_metrics` returns.
use dfine_cpp.Common.{
  ℕ, ◌≡◌, refl, ◌⊎◌, inl, inr, not, Option, none, some, List, codes, arith, ◌==◌, length, All, ◌||◌,
  Bool-cases,
}
use dfine_cpp.Common.Int.{ℤ, ints_eq, ints_eq→eq}
use dfine_cpp.Common.Result.{returned, value_error, Ends, Ends-bind, Ends-refuse, Ends-returned}
use dfine_cpp.Json.{
  Value, Fields, null, boolean, integer, real, text, array, object, empty, field, get,
}
use dfine_cpp.Json.Same.{same}
use dfine_cpp.Chain.Require.{
  require_object, require_exact_keys, require_fields, require_area_counts, AreaCounts,
}
use dfine_cpp.Chain.Accepted.{require_object-Ends, require_exact_keys-Ends, require_fields-Ends}
use dfine_cpp.Chain.Metrics.{
  Metrics, scalar_metrics, model_space_metrics, iou_keys, read_metrics, integers, standard_max_dets,
  legacy_max_dets, known_max_dets, read_max_dets, area_total, class_total, check_model_geometry,
  read_by_iou, read_model_space, extract_metrics, read_per_class,
}
use dfine_cpp.Chain.Numbers.{IsNumberError, InUnit, read_metrics-Ends, require_area_counts-Ends}
use dfine_cpp.Chain.Rows.{AreRows, read_per_class-Ends}

-- As many values as there are names, each absent or from 0 to 1.
abbrev pub AreMetrics : ℕ → List (Option ℤ) → Type 0
AreMetrics n vs = (length vs ≡ n) × All InUnit vs

unfoldable pub IsExtracted : ℕ → Metrics → Type 0
IsExtracted instances m =
    (AreMetrics 12 m.bbox × AreMetrics 10 m.ap_by_iou × AreMetrics 6 m.model_space)
    × ((m.source_max_dets ≡ standard_max_dets) ⊎ (m.source_max_dets ≡ legacy_max_dets))
    × AreRows m.per_class
    × (class_total m.per_class ≡ instances)
    × (area_total m.gt_by_area ≡ instances)
    × (area_total m.model_gt ≡ instances)

abbrev AreKnown : List ℤ → Type 0
AreKnown zs = (zs ≡ standard_max_dets) ⊎ (zs ≡ legacy_max_dets)

max_dets-Ends : (v : Value) → Ends AreKnown IsNumberError (read_max_dets v)
unfolding read_max_dets
max_dets-Ends (array xs) = by_integers (integers xs)
  where
    by_integers : (o : Option (List ℤ)) → Ends AreKnown IsNumberError (known_max_dets o)
    by_integers none = inl refl
    by_integers (some zs) =
        Ends-refuse IsNumberError AreKnown
          (not (ints_eq zs standard_max_dets || ints_eq zs legacy_max_dets)) value_error
          (returned zs) (inl refl)
          (λ h. elim (Bool-cases (ints_eq zs standard_max_dets)) [
            | inl e ↦ inl (ints_eq→eq zs standard_max_dets e)
            | inr e ↦ inr (ints_eq→eq zs legacy_max_dets (ground arith))
          ])
max_dets-Ends null = inl refl
max_dets-Ends (boolean _) = inl refl
max_dets-Ends (integer _) = inl refl
max_dets-Ends (real _) = inl refl
max_dets-Ends (text _) = inl refl
max_dets-Ends (object _) = inl refl

by_iou-Ends : (v : Value) → Ends (AreMetrics 10) IsNumberError (read_by_iou v)
by_iou-Ends v =
    Ends-bind IsNumberError _ (AreMetrics 10) (require_object v) _
      (require_object-Ends IsNumberError (inl refl) v)
      (λ fs _.
        Ends-bind IsNumberError _ (AreMetrics 10) (require_exact_keys iou_keys fs) _
          (require_exact_keys-Ends IsNumberError (inl refl) iou_keys fs)
          (λ _ h. read_metrics-Ends iou_keys fs h.0))

geometry-Ends :
    (model fs : Fields) → Ends (λ _. Unit {0}) IsNumberError (check_model_geometry model fs)
unfolding check_model_geometry
geometry-Ends model empty = tt
geometry-Ends model (field k v fs) =
    Ends-refuse IsNumberError (λ _. Unit {0}) (not (same (get k model) v)) value_error
      (check_model_geometry model fs) (inl refl) (λ _. geometry-Ends model fs)

abbrev IsSpace : ℕ → List (Option ℤ) × AreaCounts → Type 0
IsSpace instances (vs, areas) = AreMetrics 6 vs × (area_total areas ≡ instances)

model-IsSpace-Ends :
    (instances : ℕ) (geometry : Fields) (v : Value)
    → Ends (IsSpace instances) IsNumberError (read_model_space instances geometry v)
model-IsSpace-Ends instances geometry v =
    let Q = IsSpace instances in
    Ends-bind IsNumberError _ Q (require_object v) _
      (require_object-Ends IsNumberError (inl refl) v)
      (λ model _.
        Ends-bind IsNumberError _ Q (check_model_geometry model geometry) _
          (geometry-Ends model geometry)
          (λ _ _.
            Ends-bind IsNumberError _ Q (require_fields model_space_metrics model) _
              (require_fields-Ends IsNumberError (inl refl) model_space_metrics model)
              (λ _ h.
                Ends-bind IsNumberError _ Q (read_metrics model_space_metrics model) _
                  (read_metrics-Ends model_space_metrics model h)
                  (λ vs hs.
                    Ends-bind IsNumberError _ Q
                      (require_area_counts (get (codes "GT_by_area") model)) _
                      (require_area_counts-Ends (get (codes "GT_by_area") model))
                      (λ areas _.
                        Ends-refuse IsNumberError Q (not (area_total areas == instances))
                          value_error (returned (vs, areas)) (inl refl)
                          (λ e. (hs, ground arith)))))))

extract_metrics-Ends :
    (instances : ℕ) (geometry metrics : Fields)
    → Ends (IsExtracted instances) IsNumberError (extract_metrics instances geometry metrics)
unfolding extract_metrics IsExtracted
extract_metrics-Ends instances geometry metrics =
    let Q = IsExtracted instances in
    Ends-bind IsNumberError _ Q (require_fields scalar_metrics metrics) _
      (require_fields-Ends IsNumberError (inl refl) scalar_metrics metrics)
      (λ _ h.
        Ends-bind IsNumberError _ Q (read_metrics scalar_metrics metrics) _
          (read_metrics-Ends scalar_metrics metrics h)
          (λ scalars hs.
            Ends-bind IsNumberError _ Q (read_max_dets (get (codes "max_dets") metrics)) _
              (max_dets-Ends (get (codes "max_dets") metrics))
              (λ dets hd.
                Ends-bind IsNumberError _ Q (read_by_iou (get (codes "AP_by_iou") metrics)) _
                  (by_iou-Ends (get (codes "AP_by_iou") metrics))
                  (λ by_iou hi.
                    Ends-bind IsNumberError _ Q (read_per_class (get (codes "per_class") metrics)) _
                      (read_per_class-Ends (get (codes "per_class") metrics))
                      (λ rows hr.
                        Ends-bind IsNumberError _ Q
                          (require_area_counts (get (codes "GT_by_area") metrics)) _
                          (require_area_counts-Ends (get (codes "GT_by_area") metrics))
                          (λ areas _.
                            Ends-refuse IsNumberError Q (not (area_total areas == instances))
                              value_error _ (inl refl)
                              (λ ha.
                                Ends-refuse IsNumberError Q (not (class_total rows == instances))
                                  value_error _ (inl refl)
                                  (λ hc.
                                    Ends-bind IsNumberError _ Q
                                      (read_model_space instances geometry
                                        (get (codes "model_space_area") metrics))
                                      (λ space. returned (record {
                                        bbox = scalars;
                                        ap_by_iou = by_iou;
                                        per_class = rows;
                                        source_max_dets = dets;
                                        gt_by_area = areas;
                                        model_space = space.0;
                                        model_gt = space.1;
                                      }))
                                      (model-IsSpace-Ends instances geometry
                                        (get (codes "model_space_area") metrics))
                                      (λ space hm. (
                                        (hs, hi, hm.0),
                                        hd,
                                        hr,
                                        ground arith,
                                        ground arith,
                                        hm.1,
                                      ))))))))))

-- Metrics that are accepted are complete and in range: 12 scalars, 10 averages by IoU and 6 in
-- model space, each absent or from 0 to 1; detection limits of one of the two known lists; at
-- least one class, sorted by strictly increasing ids; and annotations that add up to the ground
-- truth over the classes, over the areas and over the areas in model space.
pub extract_metrics-IsExtracted :
    (instances : ℕ) (geometry metrics : Fields) (m : Metrics)
    → extract_metrics instances geometry metrics ≡ returned m
    → IsExtracted instances m
extract_metrics-IsExtracted instances geometry metrics m h =
    Ends-returned IsNumberError (IsExtracted instances) (extract_metrics instances geometry metrics)
      m (extract_metrics-Ends instances geometry metrics) h
