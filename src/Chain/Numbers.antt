-- ===== src/Chain/Numbers.antt =====
-- How the validators of numbers end, and lists of metrics.
use dfine_cpp.Common.{
  ℕ, suc, ◌≤◌, ◌≡◌, refl, ap, ◌⊎◌, inl, inr, true, false, Option, none, some, List, [], ◌∷◌, Text,
  text_eq, text_eq_refl, arith, ◌&&◌, length, All, codes,
}
use dfine_cpp.Common.Int.{ℤ, pos, negsuc, ◌≤ℤ◌, leb_ℤ, ltb_ℤ}
use dfine_cpp.Common.Result.{
  Error, returned, failed, value_error, overflow_error, ◌>>=◌, Ends, Ends-bind, Ends-refuse,
  Ends-weaken,
}
use dfine_cpp.Json.{
  Real, finite, infinite, Value, Fields, null, boolean, integer, real, text, array, object,
  is_among,
}
use dfine_cpp.Json.Number.{one, float_of, negate}
use dfine_cpp.Chain.Require.{
  require_metric, require_int, float_of_int, to_float, unit_interval, nonnegative,
  require_nonnegative_number, require_at, lacks_any, require_area_counts, require_object,
  require_exact_keys, area_names,
}
use dfine_cpp.Chain.Accepted.{
  require_at-Ends, refused_not, require_object-Ends, require_exact_keys-Ends, require_int-Ends,
}
use dfine_cpp.Chain.Metrics.{read_metrics}

-- The errors of a report's numbers: Python raises OverflowError for an integer that no double is
-- near.
abbrev pub IsNumberError : Error → Type 0
IsNumberError e = (e ≡ value_error) ⊎ (e ≡ overflow_error)

-- A metric is absent, or a number from 0 to 1.
abbrev pub InUnit : Option ℤ → Type 0
InUnit none = Unit
InUnit (some z) = (pos 0 ≤ℤ z) × (z ≤ℤ pos one)

float_of_int-Ends : (z : ℤ) → Ends (λ _. Unit {0}) IsNumberError (float_of_int z)
float_of_int-Ends (pos n) = by_value (float_of n)
  where
    by_value :
        (o : Option ℤ)
        → Ends
            (λ _. Unit {0})
            IsNumberError
            (elim o [ none ↦ failed overflow_error | some z ↦ returned (finite z) ])
    by_value none = inr refl
    by_value (some z) = tt
float_of_int-Ends (negsuc n) = by_value (float_of (suc n))
  where
    by_value :
        (o : Option ℤ)
        → Ends
            (λ _. Unit {0})
            IsNumberError
            (elim o [ none ↦ failed overflow_error | some z ↦ returned (finite (negate z)) ])
    by_value none = inr refl
    by_value (some z) = tt

to_float-Ends : (v : Value) → Ends (λ _. Unit {0}) IsNumberError (to_float v)
to_float-Ends (integer z) = float_of_int-Ends z
to_float-Ends (real r) = tt
to_float-Ends null = inl refl
to_float-Ends (boolean _) = inl refl
to_float-Ends (text _) = inl refl
to_float-Ends (array _) = inl refl
to_float-Ends (object _) = inl refl

unit_interval-Ends : (r : Real) → Ends (λ z. InUnit (some z)) IsNumberError (unit_interval r)
unit_interval-Ends (finite z) =
    refused_not _ IsNumberError (leb_ℤ (pos 0) z && leb_ℤ z (pos one)) value_error z (inl refl)
      (λ h. (ground arith, ground arith))
unit_interval-Ends (infinite _) = inl refl

number-Ends :
    (v : Value)
    → Ends InUnit IsNumberError (to_float v >>= λ r. unit_interval r >>= λ z. returned (some z))
number-Ends v = Ends-bind IsNumberError _ InUnit (to_float v) _ (to_float-Ends v) (λ r _.
    Ends-bind IsNumberError (λ z. InUnit (some z)) InUnit (unit_interval r) _ (unit_interval-Ends r)
      (λ z h. h))

pub require_metric-Ends : (v : Value) → Ends InUnit IsNumberError (require_metric v)
unfolding require_metric
require_metric-Ends null = tt
require_metric-Ends (integer z) = number-Ends (integer z)
require_metric-Ends (real r) = number-Ends (real r)
require_metric-Ends (boolean b) = number-Ends (boolean b)
require_metric-Ends (text s) = number-Ends (text s)
require_metric-Ends (array xs) = number-Ends (array xs)
require_metric-Ends (object fs) = number-Ends (object fs)

pub require_nonnegative_number-Ends :
    (v : Value) → Ends (λ z. pos 0 ≤ℤ z) IsNumberError (require_nonnegative_number v)
unfolding require_nonnegative_number
require_nonnegative_number-Ends v =
    Ends-bind IsNumberError _ _ (to_float v) nonnegative (to_float-Ends v) from_real
  where
    from_real : (r : Real) → Unit {0} → Ends (λ z. pos 0 ≤ℤ z) IsNumberError (nonnegative r)
    from_real (finite z) _ =
        Ends-refuse IsNumberError _ (ltb_ℤ z (pos 0)) value_error (returned z) (inl refl)
          (λ h. ground arith)
    from_real (infinite _) _ = inl refl

pub read_metrics-Ends :
    (ks : List Text) (fs : Fields)
    → lacks_any ks fs ≡ false
    → Ends (λ vs. (length vs ≡ length ks) × All InUnit vs) IsNumberError (read_metrics ks fs)
unfolding read_metrics
read_metrics-Ends [] fs h = (refl, tt)
read_metrics-Ends (k ∷ ks) fs h =
    let first : is_among k (k ∷ ks) ≡ true = rw (text_eq_refl k) refl in
    let rest = read_metrics-Ends ks fs (ground arith) in
    Ends-bind IsNumberError InUnit _ (require_at require_metric k fs) _
      (require_at-Ends IsNumberError InUnit require_metric k (k ∷ ks) fs first h
        require_metric-Ends)
      (λ value hv.
        Ends-bind IsNumberError _ _ (read_metrics ks fs) _ rest
          (λ vs hs. (ap suc hs.0, (hv, hs.1))))

pub int-Ends : (m : ℕ) (v : Value) → Ends (λ n. m ≤ n) IsNumberError (require_int m v)
int-Ends m v =
    Ends-weaken IsNumberError _ _ (require_int m v) (λ n h. h.1)
      (require_int-Ends IsNumberError (inl refl) m v)

pub require_area_counts-Ends :
    (v : Value) → Ends (λ _. Unit {0}) IsNumberError (require_area_counts v)
unfolding require_area_counts text_eq
require_area_counts-Ends v =
    Ends-bind IsNumberError _ _ (require_object v) _
      (require_object-Ends IsNumberError (inl refl) v)
      (λ fs _.
        Ends-bind IsNumberError _ _ (require_exact_keys area_names fs) _
          (require_exact_keys-Ends IsNumberError (inl refl) area_names fs)
          (λ _ h.
            Ends-bind IsNumberError _ _ (require_at (require_int 0) (codes "small") fs) _
              (require_at-Ends IsNumberError (λ n. 0 ≤ n) (require_int 0) (codes "small") area_names
                fs refl h.0 (int-Ends 0))
              (λ s _.
                Ends-bind IsNumberError _ _ (require_at (require_int 0) (codes "medium") fs) _
                  (require_at-Ends IsNumberError (λ n. 0 ≤ n) (require_int 0) (codes "medium")
                    area_names fs refl h.0 (int-Ends 0))
                  (λ m _.
                    Ends-bind IsNumberError _ _ (require_at (require_int 0) (codes "large") fs) _
                      (require_at-Ends IsNumberError (λ n. 0 ≤ n) (require_int 0) (codes "large")
                        area_names fs refl h.0 (int-Ends 0))
                      (λ l _. tt)))))
