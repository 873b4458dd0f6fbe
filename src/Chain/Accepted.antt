-- ===== src/Chain/Accepted.antt =====
-- How the validators of Chain/Require.antt and Chain/Model.antt end: what they return, and which
-- errors they raise.
use dfine_cpp.Common.{
  ℕ, ◌≤◌, ◌≡◌, refl, ◌∙◌, Bool, true, false, not, Option, none, some, List, [], ◌∷◌, Text, text_eq,
  text_eq_sound, arith, ◌||◌, ◌==◌, ltb, Bool-cases, inl, inr,
}
use dfine_cpp.Common.Int.{ℤ, pos, negsuc}
use dfine_cpp.Common.Result.{
  Error, Result, returned, failed, value_error, type_error, key_error, ◌>>=◌, ◌>>◌, refuse_if, Ends,
  Ends-bind, Ends-refuse, Ends-refuse_last,
}
use dfine_cpp.Json.{
  Value, Fields, null, boolean, integer, real, text, array, object, is_among, find, item_of,
  has_key,
}
use dfine_cpp.Json.Same.{same}
use dfine_cpp.Chain.Require.{
  require_object, require_int, require_sha256, is_sha256, require_at, require_exact_keys, lacks_any,
  exceeds, require_fields,
}
use dfine_cpp.Chain.Model.{
  member_or, read_cascade, contradicts, check_cascade, check_preprocess, stretch_preprocess,
  agreeing,
}
use dfine_cpp.Chain.Valid.{IsCascade}

pub lacks_any-has_key :
    (k : Text) (expected : List Text) (fs : Fields)
    → is_among k expected ≡ true
    → lacks_any expected fs ≡ false
    → has_key k fs ≡ true
lacks_any-has_key k [] fs m h = cc
lacks_any-has_key k (j ∷ js) fs m h = elim (Bool-cases (text_eq k j)) [
  | inl e ↦ let same_key = text_eq_sound k j e in rw same_key (ground arith)
  | inr e ↦ lacks_any-has_key k js fs (ground arith) (ground arith)
]

-- Numbers that do not contradict each other make a cascade.
pub contradicts-IsCascade :
    (s : Text) (pair : ℤ × ℤ) (initial queries : ℕ)
    → read_cascade s ≡ some pair
    → contradicts pair initial queries ≡ false
    → IsCascade (some s) initial queries
contradicts-IsCascade s (pos k, pos n) initial queries e h =
    let same_number : n ≡ queries = ground arith in (k, e ∙ rw same_number refl, ground arith)
contradicts-IsCascade s (pos k, negsuc n) initial queries e h = ground arith
contradicts-IsCascade s (negsuc k, pos n) initial queries e h = ground arith
contradicts-IsCascade s (negsuc k, negsuc n) initial queries e h = ground arith

pub refused_not :
    {A : Type 0} (P : A → Type 0) (E : Error → Type 0) (b : Bool) (e : Error) (x : A)
    → E e
    → (b ≡ true → P x)
    → Ends P E (refuse_if (not b) e >> returned x)
refused_not P E true e x h p = p refl
refused_not P E false e x h p = h

module _ (E : Error → Type 0) where
  pub member_or-Ends :
      (e : Error) (options : List Text) (v : Value)
      → E e
      → E type_error
      → Ends (λ s. is_among s options ≡ true) E (member_or e options v)
  unfolding member_or
  member_or-Ends e options (text t) h k = refused_not _ E (is_among t options) e t h (λ m. m)
  member_or-Ends e options null h k = h
  member_or-Ends e options (boolean _) h k = h
  member_or-Ends e options (integer _) h k = h
  member_or-Ends e options (real _) h k = h
  member_or-Ends e options (array _) h k = k
  member_or-Ends e options (object _) h k = k

  pub item_of-Ends :
      (k : Text) (expected : List Text) (fs : Fields)
      → is_among k expected ≡ true
      → lacks_any expected fs ≡ false
      → Ends (λ _. Unit {0}) E (item_of k fs)
  item_of-Ends k expected fs m h = by_value (find k fs) (lacks_any-has_key k expected fs m h)
    where
      by_value :
          (o : Option Value)
          → elim o [ none ↦ false | some _ ↦ true ] ≡ true
          → Ends (λ _. Unit {0}) E (elim o [ none ↦ failed key_error | some v ↦ returned v ])
      by_value none e = cc
      by_value (some v) e = tt

  -- A key that the object has been found to have is read without a KeyError.
  pub require_at-Ends {ℓ} :
      {A : Type ℓ} (P : A → Type 0) (check : Value → Result A) (k : Text) (expected : List Text)
      (fs : Fields)
      → is_among k expected ≡ true
      → lacks_any expected fs ≡ false
      → ((v : Value) → Ends P E (check v))
      → Ends P E (require_at check k fs)
  require_at-Ends P check k expected fs m h ends =
      by_value (find k fs) (lacks_any-has_key k expected fs m h)
    where
      by_value :
          (o : Option Value)
          → elim o [ none ↦ false | some _ ↦ true ] ≡ true
          → Ends P E (elim o [ none ↦ failed key_error | some v ↦ returned v ] >>= check)
      by_value none e = cc
      by_value (some v) e = ends v

  module _ (refusal : E value_error) where
    pub require_object-Ends : (v : Value) → Ends (λ fs. v ≡ object fs) E (require_object v)
    require_object-Ends (object gs) = refl
    require_object-Ends null = refusal
    require_object-Ends (boolean _) = refusal
    require_object-Ends (integer _) = refusal
    require_object-Ends (real _) = refusal
    require_object-Ends (text _) = refusal
    require_object-Ends (array _) = refusal

    pub require_exact_keys-Ends :
        (expected : List Text) (fs : Fields)
        → Ends
            (λ _. (lacks_any expected fs ≡ false) × (exceeds expected fs ≡ false))
            E
            (require_exact_keys expected fs)
    unfolding require_exact_keys
    require_exact_keys-Ends expected fs = by_tests (lacks_any expected fs) (exceeds expected fs)
      where
        by_tests :
            (a b : Bool) → Ends (λ _. (a ≡ false) × (b ≡ false)) E (refuse_if (a || b) value_error)
        by_tests true b = refusal
        by_tests false true = refusal
        by_tests false false = (refl, refl)

    pub require_fields-Ends :
        (expected : List Text) (fs : Fields)
        → Ends (λ _. lacks_any expected fs ≡ false) E (require_fields expected fs)
    unfolding require_fields
    require_fields-Ends expected fs = Ends-refuse_last E (lacks_any expected fs) value_error refusal

    pub require_int-Ends :
        (m : ℕ) (v : Value) → Ends (λ n. (v ≡ integer (pos n)) × (m ≤ n)) E (require_int m v)
    unfolding require_int
    require_int-Ends m (integer (pos k)) =
        Ends-refuse E _ (ltb k m) value_error (returned k) refusal (λ h. (refl, ground arith))
    require_int-Ends m (integer (negsuc k)) = refusal
    require_int-Ends m null = refusal
    require_int-Ends m (boolean _) = refusal
    require_int-Ends m (real _) = refusal
    require_int-Ends m (text _) = refusal
    require_int-Ends m (array _) = refusal
    require_int-Ends m (object _) = refusal

    pub require_sha256-Ends : (v : Value) → Ends (λ s. is_sha256 s ≡ true) E (require_sha256 v)
    unfolding require_sha256
    require_sha256-Ends (text t) = refused_not _ E (is_sha256 t) value_error t refusal (λ m. m)
    require_sha256-Ends null = refusal
    require_sha256-Ends (boolean _) = refusal
    require_sha256-Ends (integer _) = refusal
    require_sha256-Ends (real _) = refusal
    require_sha256-Ends (array _) = refusal
    require_sha256-Ends (object _) = refusal

    pub check_cascade-Ends :
        (v : Value) (initial queries : ℕ)
        → Ends (λ o. IsCascade o initial queries) E (check_cascade v initial queries)
    unfolding check_cascade
    check_cascade-Ends null initial queries =
        refused_not _ E (initial == queries) value_error none refusal (λ h. ground arith)
    check_cascade-Ends (text s) initial queries = by_parts (read_cascade s) refl
      where
        by_parts :
            (parts : Option (ℤ × ℤ))
            → read_cascade s ≡ parts
            → Ends (λ o. IsCascade o initial queries) E (agreeing parts initial queries s)
        by_parts none e = refusal
        by_parts (some pair) e =
            Ends-refuse E _ (contradicts pair initial queries) value_error _ refusal
              (λ c. contradicts-IsCascade s pair initial queries e c)
    check_cascade-Ends (boolean _) initial queries = refusal
    check_cascade-Ends (integer _) initial queries = refusal
    check_cascade-Ends (real _) initial queries = refusal
    check_cascade-Ends (array _) initial queries = refusal
    check_cascade-Ends (object _) initial queries = refusal

    pub check_preprocess-Ends :
        (v : Value) → Ends (λ w. same w stretch_preprocess ≡ true) E (check_preprocess v)
    unfolding check_preprocess
    check_preprocess-Ends v = Ends-bind E _ _ (require_object v) _ (require_object-Ends v) (λ fs _.
        refused_not _ E (same (object fs) stretch_preprocess) value_error (object fs) refusal
          (λ m. m))
