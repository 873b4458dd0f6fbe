-- ===== src/Chain/Consistent.antt =====
-- The ground truth that `_validate_ground_truth` accepts is consistent.
use dfine_cpp.Common.{ℕ, ◌≡◌, refl, inl, not, text_eq, codes, arith, ◌&&◌, ◌||◌, ◌==◌, ltb}
use dfine_cpp.Common.Int.{pos, leb_ℤ}
use dfine_cpp.Common.Result.{
  Error, returned, failed, value_error, Ends, Ends-bind, Ends-refuse, Ends-returned, Ends-failed,
  Ends-weaken,
}
use dfine_cpp.Json.{Value, Fields, object}
use dfine_cpp.Json.Number.{scaled}
use dfine_cpp.Chain.Require.{
  require_object, require_fields, require_int, require_nonnegative_number,
}
use dfine_cpp.Chain.Accepted.{require_object-Ends, require_fields-Ends}
use dfine_cpp.Chain.GroundTruth.{
  GroundTruth, is_falling, percentiles, total, read_histogram, ground_truth_fields,
  per_image_fields, read_per_image, validate_ground_truth,
}
use dfine_cpp.Chain.Numbers.{IsNumberError, require_nonnegative_number-Ends, int-Ends}
use dfine_cpp.Chain.Counted.{
  IsConsistent, is_falling-IsRising, read, percentiles-Ends, histogram-Ends,
}

per_image-Ends :
    (images instances : ℕ) (fs : Fields)
    → Ends (IsConsistent images) IsNumberError (read_per_image images instances fs)
unfolding IsConsistent text_eq
per_image-Ends images instances fs =
    let Q = IsConsistent images in
    Ends-bind IsNumberError _ Q (require_fields per_image_fields fs) _
      (require_fields-Ends IsNumberError (inl refl) per_image_fields fs)
      (λ _ h.
        read fs per_image_fields h _ Q (require_int 0) (codes "min") _ refl (int-Ends 0) (λ least _.
          read fs per_image_fields h _ Q (require_int 0) (codes "max") _ refl (int-Ends 0)
            (λ most _.
              read fs per_image_fields h _ Q (require_int 0) (codes "over_100") _ refl (int-Ends 0)
                (λ over _.
                  Ends-refuse IsNumberError Q (ltb most least || ltb instances most) value_error _
                    (inl refl)
                    (λ h1.
                      Ends-refuse IsNumberError Q (ltb images over) value_error _ (inl refl) (λ h2.
                        Ends-bind IsNumberError _ Q (percentiles least most fs) _
                          (percentiles-Ends least most fs h)
                          (λ levels h3.
                            Ends-refuse IsNumberError Q (is_falling levels) value_error _ (inl refl)
                              (λ h4.
                                read fs per_image_fields h _ Q require_nonnegative_number
                                  (codes "mean") _ refl require_nonnegative_number-Ends
                                  (λ average _.
                                    Ends-refuse IsNumberError Q
                                      (not (
                                        leb_ℤ (scaled (pos least)) average
                                        && leb_ℤ average (scaled (pos most))))
                                      value_error _ (inl refl)
                                      (λ h5.
                                        read fs per_image_fields h _ Q read_histogram
                                          (codes "histogram") _ refl histogram-Ends
                                          (λ bins h6.
                                            Ends-refuse IsNumberError Q (not (total bins == images))
                                              value_error
                                              (returned (record {
                                                gt_instances = instances;
                                                minimum = least;
                                                maximum = most;
                                                over_100 = over;
                                                mean = average;
                                                ordered = levels;
                                                histogram = bins;
                                              }))
                                              (inl refl)
                                              (λ h7. (
                                                (ground arith, ground arith, ground arith),
                                                (is_falling-IsRising levels h4, h3),
                                                (ground arith, ground arith),
                                                h6,
                                                ground arith,
                                              )))))))))))))

truth-Ends :
    (images : ℕ) (v : Value)
    → Ends (IsConsistent images) IsNumberError (validate_ground_truth images v)
unfolding validate_ground_truth text_eq
truth-Ends images v =
    let Q = IsConsistent images in
    Ends-bind IsNumberError _ Q (require_object v) _
      (require_object-Ends IsNumberError (inl refl) v)
      (λ fs _.
        Ends-bind IsNumberError _ Q (require_fields ground_truth_fields fs) _
          (require_fields-Ends IsNumberError (inl refl) ground_truth_fields fs)
          (λ _ h.
            read fs ground_truth_fields h _ Q (require_int 1) (codes "images") _ refl (int-Ends 1)
              (λ recorded _.
                Ends-refuse IsNumberError Q (not (recorded == images)) value_error _ (inl refl)
                  (λ _.
                    read fs ground_truth_fields h _ Q (require_int 0) (codes "gt_instances") _ refl
                      (int-Ends 0)
                      (λ instances _.
                        read fs ground_truth_fields h _ Q (require_int 0) (codes "crowd_instances")
                          _ refl (int-Ends 0)
                          (λ crowd _.
                            read fs ground_truth_fields h (λ _. Unit {0}) Q require_object
                              (codes "per_image")
                              (λ per_image. read_per_image images instances per_image) refl
                              any_object
                              (λ per_image _. per_image-Ends images instances per_image)))))))
  where
    any_object : (w : Value) → Ends (λ _. Unit {0}) IsNumberError (require_object w)
    any_object w =
        Ends-weaken IsNumberError (λ fs. w ≡ object fs) _ (require_object w) (λ n _. tt)
          (require_object-Ends IsNumberError (inl refl) w)

-- Ground truth that is accepted is consistent: the least count of an image is at most the
-- greatest, which is at most the count of annotations; no more images lie above 100 than there are;
-- the least count, the four percentiles and the greatest count rise; the mean lies between the
-- extremes; and the ten bins of the histogram hold every image once.
pub validate_ground_truth-IsConsistent :
    (images : ℕ) (v : Value) (g : GroundTruth)
    → validate_ground_truth images v ≡ returned g
    → IsConsistent images g
validate_ground_truth-IsConsistent images v g h =
    Ends-returned IsNumberError (IsConsistent images) (validate_ground_truth images v) g
      (truth-Ends images v) h

pub validate_ground_truth-failed :
    (images : ℕ) (v : Value) (e : Error)
    → validate_ground_truth images v ≡ failed e
    → IsNumberError e
validate_ground_truth-failed images v e h =
    Ends-failed IsNumberError (IsConsistent images) (validate_ground_truth images v) e
      (truth-Ends images v) h
