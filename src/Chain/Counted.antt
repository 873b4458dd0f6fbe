-- ===== src/Chain/Counted.antt =====
-- What `_validate_ground_truth` returns.
use dfine_cpp.Common.{
  ℕ, ◌≤◌, ◌≡◌, refl, ap, inl, inr, true, false, not, Option, none, some, List, [], ◌∷◌, Text,
  text_eq, codes, arith, ◌==◌, length, suc,
}
use dfine_cpp.Common.Int.{ℤ, pos, ◌≤ℤ◌}
use dfine_cpp.Common.Result.{
  Result, returned, failed, value_error, overflow_error, ◌>>=◌, Ends, Ends-bind, Ends-refuse,
  Ends-weaken,
}
use dfine_cpp.Json.{
  Value, Items, Fields, null, boolean, integer, real, text, array, object, nil, item, count,
  is_among, item_of,
}
use dfine_cpp.Json.Number.{float_of, scaled}
use dfine_cpp.Chain.Require.{
  require_object, require_exact_keys, require_int, require_nonnegative_number, require_at,
  lacks_any,
}
use dfine_cpp.Chain.Model.{is_text}
use dfine_cpp.Chain.Accepted.{
  require_object-Ends, require_exact_keys-Ends, require_at-Ends, item_of-Ends,
}
use dfine_cpp.Chain.GroundTruth.{
  GroundTruth, density_ranges, as_float, is_falling, percentiles, histogram_fields, read_row,
  read_rows, total, read_histogram, per_image_fields,
}
use dfine_cpp.Chain.Numbers.{IsNumberError, require_nonnegative_number-Ends, int-Ends}

-- Each number is at most the next.
abbrev pub IsRising : List ℤ → Type 0
IsRising [] = Unit
IsRising (a ∷ []) = Unit
IsRising (a ∷ b ∷ s) = (a ≤ℤ b) × IsRising (b ∷ s)

unfoldable pub IsConsistent : ℕ → GroundTruth → Type 0
IsConsistent images g =
    ((g.minimum ≤ g.maximum) × (g.maximum ≤ g.gt_instances) × (g.over_100 ≤ images))
    × (IsRising g.ordered × (length g.ordered ≡ 6))
    × ((scaled (pos g.minimum) ≤ℤ g.mean) × (g.mean ≤ℤ scaled (pos g.maximum)))
    × (length g.histogram ≡ 10)
    × (total g.histogram ≡ images)

pub is_falling-IsRising : (s : List ℤ) → is_falling s ≡ false → IsRising s
is_falling-IsRising [] h = tt
is_falling-IsRising (a ∷ []) h = tt
is_falling-IsRising (a ∷ b ∷ s) h = (ground arith, is_falling-IsRising (b ∷ s) (ground arith))

as_float-Ends : (n : ℕ) → Ends (λ _. Unit {0}) IsNumberError (as_float n)
as_float-Ends n = by_value (float_of n)
  where
    by_value :
        (o : Option ℤ)
        → Ends
            (λ _. Unit {0})
            IsNumberError
            (elim o [ none ↦ failed overflow_error | some z ↦ returned z ])
    by_value none = inr refl
    by_value (some z) = tt

module _ (fs : Fields) (expected : List Text) (has_all : lacks_any expected fs ≡ false) where
  pub read {ℓ} :
      {A : Type ℓ} {B : Type 0} (P : A → Type 0) (Q : B → Type 0) (check : Value → Result A)
      (k : Text) (f : A → Result B)
      → is_among k expected ≡ true
      → ((v : Value) → Ends P IsNumberError (check v))
      → ((a : A) → P a → Ends Q IsNumberError (f a))
      → Ends Q IsNumberError (require_at check k fs >>= f)
  read P Q check k f m ends next =
      Ends-bind IsNumberError P Q (require_at check k fs) f
        (require_at-Ends IsNumberError P check k expected fs m has_all ends) next

abbrev IsLevels : List ℤ → Type 0
IsLevels s = length s ≡ 6

pub percentiles-Ends :
    (low high : ℕ) (fs : Fields)
    → lacks_any per_image_fields fs ≡ false
    → Ends IsLevels IsNumberError (percentiles low high fs)
unfolding text_eq
percentiles-Ends low high fs h =
    let numbers = require_nonnegative_number in
    Ends-bind IsNumberError _ IsLevels (as_float low) _ (as_float-Ends low) (λ a _.
      read fs per_image_fields h _ IsLevels require_nonnegative_number (codes "median") _ refl
        require_nonnegative_number-Ends
        (λ b _.
          read fs per_image_fields h _ IsLevels require_nonnegative_number (codes "p90") _ refl
            require_nonnegative_number-Ends
            (λ c _.
              read fs per_image_fields h _ IsLevels require_nonnegative_number (codes "p95") _ refl
                require_nonnegative_number-Ends
                (λ d _.
                  read fs per_image_fields h _ IsLevels require_nonnegative_number (codes "p99") _
                    refl require_nonnegative_number-Ends
                    (λ e _.
                      Ends-bind IsNumberError (λ _. Unit {0}) IsLevels (as_float high)
                        (λ f. returned (a ∷ b ∷ c ∷ d ∷ e ∷ f ∷ [])) (as_float-Ends high)
                        (λ f _. refl))))))

read_row-Ends :
    (expected : Text) (v : Value) → Ends (λ _. Unit {0}) IsNumberError (read_row expected v)
unfolding text_eq
read_row-Ends expected v =
    let Q : ℕ → Type 0 = λ _. Unit {0} in
    Ends-bind IsNumberError _ Q (require_object v) _
      (require_object-Ends IsNumberError (inl refl) v)
      (λ row _.
        Ends-bind IsNumberError _ Q (require_exact_keys histogram_fields row) _
          (require_exact_keys-Ends IsNumberError (inl refl) histogram_fields row)
          (λ _ h.
            Ends-bind IsNumberError _ Q (item_of (codes "range") row) _
              (item_of-Ends IsNumberError (codes "range") histogram_fields row refl h.0)
              (λ found _.
                Ends-refuse IsNumberError Q (not (is_text expected found)) value_error _ (inl refl)
                  (λ _.
                    require_at-Ends IsNumberError Q (require_int 0) (codes "images")
                      histogram_fields row refl h.0 (λ w. weaken w)))))
  where
    weaken : (w : Value) → Ends (λ _. Unit {0}) IsNumberError (require_int 0 w)
    weaken w = Ends-weaken IsNumberError (λ n. 0 ≤ n) _ (require_int 0 w) (λ n _. tt) (int-Ends 0 w)

read_rows-Ends :
    (ranges : List Text) (rows : Items)
    → count rows ≡ length ranges
    → Ends (λ ns. length ns ≡ length ranges) IsNumberError (read_rows ranges rows)
unfolding read_rows
read_rows-Ends [] rows e = refl
read_rows-Ends (expected ∷ ranges) (item row rows) e =
    Ends-bind IsNumberError _ _ (read_row expected row) _ (read_row-Ends expected row) (λ n _.
      Ends-bind IsNumberError (λ ns. length ns ≡ length ranges) _ (read_rows ranges rows)
        (λ rest. returned (n ∷ rest)) (read_rows-Ends ranges rows (omega (arith, e)))
        (λ ns h. ap suc h))
read_rows-Ends (expected ∷ ranges) nil e = absurd (omega (arith, e))

pub histogram-Ends : (v : Value) → Ends (λ ns. length ns ≡ 10) IsNumberError (read_histogram v)
histogram-Ends (array rows) =
    Ends-refuse IsNumberError _ (not (count rows == length density_ranges)) value_error _ (inl refl)
      (λ h. read_rows-Ends density_ranges rows (ground arith))
histogram-Ends null = inl refl
histogram-Ends (boolean _) = inl refl
histogram-Ends (integer _) = inl refl
histogram-Ends (real _) = inl refl
histogram-Ends (text _) = inl refl
histogram-Ends (object _) = inl refl
