-- ===== src/Evaluation/Produced.antt =====
-- The contracts that `normalized_model_contract` of trt-files/scripts/eval_contract.py produces.
use dfine_cpp.Common.{
  ℕ, zero, suc, ◌⊎◌, inl, inr, ◌≤◌, ◌≡◌, refl, Bool, true, false, not, Option, none, some, [], ◌∷◌,
  Text, text_eq, codes, arith, length, any, all, ◌&&◌, ◌||◌, ◌==◌,
}
use dfine_cpp.Common.Int.{ℤ, pos, negsuc, eqb_ℤ-refl}
use dfine_cpp.Common.Result.{
  Error, returned, ◌>>◌, refuse_if, Ends, Ends-bind, Ends-refuse, type_error, Ends-returned,
}
use dfine_cpp.Json.{
  Value, Fields, null, boolean, integer, real, text, array, object, empty, field, get, has_key,
  find,
}
use dfine_cpp.Json.Number.{one}
use dfine_cpp.Json.Same.{same}
use dfine_cpp.Chain.Require.{is_sha256, is_lower_hex}
use dfine_cpp.Chain.Model.{
  ModelContract, member_or, model_variants, read_cascade, contradicts, stretch_preprocess,
}
use dfine_cpp.Chain.Valid.{IsWellFormed, IsCascade}
use dfine_cpp.Chain.Accepted.{contradicts-IsCascade, member_or-Ends}
use dfine_cpp.Evaluation.Contract.{
  required_meta_int, sha256_meta, hexadecimal, check_expected, expected_fields, declared,
  initial_queries_of, positive_number, sha256_text, nonnegative_number, normalized_model_contract,
}

-- The stretch preprocessing equals itself.
pub same-stretch : same stretch_preprocess stretch_preprocess ≡ true
unfolding same text_eq find
same-stretch = rw (eqb_ℤ-refl (pos one)) refl

-- The two tests of a character agree.
hexadecimal-is_lower_hex : (c : ℕ) → any (λ d. c == d) hexadecimal ≡ true → is_lower_hex c ≡ true
hexadecimal-is_lower_hex c h = ground arith

all-is_lower_hex :
    (s : Text)
    → any (λ c. not (any (λ d. c == d) hexadecimal)) s ≡ false
    → all is_lower_hex s ≡ true
all-is_lower_hex [] h = refl
all-is_lower_hex (c ∷ s) h =
    by_tests (any (λ d. c == d) hexadecimal) refl h (λ k. all-is_lower_hex s k)
  where
    by_tests :
        (b : Bool)
        → any (λ d. c == d) hexadecimal ≡ b
        → (not b || any (λ x. not (any (λ d. x == d) hexadecimal)) s) ≡ false
        → (any (λ x. not (any (λ d. x == d) hexadecimal)) s ≡ false → all is_lower_hex s ≡ true)
        → (is_lower_hex c && all is_lower_hex s) ≡ true
    by_tests true e k rest = rw (hexadecimal-is_lower_hex c e) (rest k)
    by_tests false e k rest = cc

module _ (fail : Error) where
  abbrev IsFailure : Error → Type 0
  IsFailure e = (e ≡ fail) ⊎ (e ≡ type_error)

  positive_number-Ends : (v : Value) → Ends (λ n. 1 ≤ n) IsFailure (positive_number fail v)
  positive_number-Ends (integer (pos zero)) = inl refl
  positive_number-Ends (integer (pos (suc n))) = omega arith
  positive_number-Ends (integer (negsuc n)) = inl refl
  positive_number-Ends null = inl refl
  positive_number-Ends (boolean _) = inl refl
  positive_number-Ends (real _) = inl refl
  positive_number-Ends (text _) = inl refl
  positive_number-Ends (array _) = inl refl
  positive_number-Ends (object _) = inl refl

  required_meta_int-Ends :
      (k : Text) (meta : Fields) → Ends (λ n. 1 ≤ n) IsFailure (required_meta_int fail k meta)
  unfolding required_meta_int
  required_meta_int-Ends k meta = positive_number-Ends (get k meta)

  sha256_text-Ends : (v : Value) → Ends (λ s. is_sha256 s ≡ true) IsFailure (sha256_text fail v)
  unfolding is_sha256
  sha256_text-Ends (text s) =
      by_tests (length s == 64) (any (λ c. not (any (λ d. c == d) hexadecimal)) s) refl refl
    where
      by_tests :
          (a b : Bool)
          → (length s == 64) ≡ a
          → any (λ c. not (any (λ d. c == d) hexadecimal)) s ≡ b
          → Ends
              (λ t. ((length t == 64) && all is_lower_hex t) ≡ true)
              IsFailure
              (refuse_if (not a || b) fail >> returned s)
      by_tests true true e f = inl refl
      by_tests true false e f = rw (e, all-is_lower_hex s f) refl
      by_tests false b e f = inl refl
  sha256_text-Ends null = inl refl
  sha256_text-Ends (boolean _) = inl refl
  sha256_text-Ends (integer _) = inl refl
  sha256_text-Ends (real _) = inl refl
  sha256_text-Ends (array _) = inl refl
  sha256_text-Ends (object _) = inl refl

  nonnegative_number-Ends : (v : Value) → Ends (λ n. Unit {0}) IsFailure (nonnegative_number fail v)
  nonnegative_number-Ends (integer (pos n)) = tt
  nonnegative_number-Ends (integer (negsuc n)) = inl refl
  nonnegative_number-Ends null = inl refl
  nonnegative_number-Ends (boolean _) = inl refl
  nonnegative_number-Ends (real _) = inl refl
  nonnegative_number-Ends (text _) = inl refl
  nonnegative_number-Ends (array _) = inl refl
  nonnegative_number-Ends (object _) = inl refl

  abbrev IsPlan : ℕ → ℕ × Option Text → Type 0
  IsPlan queries (initial, cascade) = (1 ≤ initial) × IsCascade cascade initial queries

  declared-Ends :
      (o : Option (ℤ × ℤ)) (s : Text) (queries : ℕ) (meta : Fields)
      → read_cascade s ≡ o
      → Ends (IsPlan queries) IsFailure (declared fail o s queries meta)
  declared-Ends none s queries meta e = inl refl
  declared-Ends (some pair) s queries meta e =
      Ends-bind IsFailure (λ n. 1 ≤ n) (IsPlan queries)
        (required_meta_int fail (codes "cascade_initial_queries") meta) _
        (required_meta_int-Ends (codes "cascade_initial_queries") meta)
        (λ initial le.
          Ends-refuse IsFailure (IsPlan queries) (contradicts pair initial queries) fail
            (returned (initial, some s)) (inl refl)
            (λ c. (le, contradicts-IsCascade s pair initial queries e c)))

  initial_queries_of-Ends :
      (v : Value) (queries : ℕ) (meta : Fields)
      → 1 ≤ queries
      → Ends (IsPlan queries) IsFailure (initial_queries_of fail v queries meta)
  unfolding initial_queries_of
  initial_queries_of-Ends null queries meta le =
      Ends-refuse IsFailure (IsPlan queries) (has_key (codes "cascade_initial_queries") meta) fail
        (returned (queries, none)) (inl refl) (λ c. (le, refl))
  initial_queries_of-Ends (text s) queries meta le =
      declared-Ends (read_cascade s) s queries meta refl
  initial_queries_of-Ends (boolean _) queries meta le = inl refl
  initial_queries_of-Ends (integer _) queries meta le = inl refl
  initial_queries_of-Ends (real _) queries meta le = inl refl
  initial_queries_of-Ends (array _) queries meta le = inl refl
  initial_queries_of-Ends (object _) queries meta le = inl refl

  check_expected-Ends :
      (meta fs : Fields) → Ends (λ _. Unit {0}) IsFailure (check_expected fail meta fs)
  unfolding check_expected
  check_expected-Ends meta empty = tt
  check_expected-Ends meta (field k v fs) =
      Ends-refuse IsFailure (λ _. Unit {0}) (not (same (get k meta) v)) fail
        (check_expected fail meta fs) (inl refl) (λ _. check_expected-Ends meta fs)

  normalized_model_contract-Ends :
      (meta extra : Fields)
      → Ends IsWellFormed IsFailure (normalized_model_contract fail meta extra)
  unfolding normalized_model_contract sha256_meta IsWellFormed
  normalized_model_contract-Ends meta extra =
      Ends-bind IsFailure _ IsWellFormed (check_expected fail meta (expected_fields extra)) _
        (check_expected-Ends meta (expected_fields extra))
        (λ _ _.
          Ends-bind IsFailure _ IsWellFormed
            (member_or fail model_variants (get (codes "variant") meta)) _
            (member_or-Ends IsFailure fail model_variants (get (codes "variant") meta) (inl refl)
              (inr refl))
            (λ v hv.
              Ends-bind IsFailure _ IsWellFormed
                (nonnegative_number fail (get (codes "eval_idx") meta)) _
                (nonnegative_number-Ends (get (codes "eval_idx") meta))
                (λ index _.
                  Ends-bind IsFailure _ IsWellFormed
                    (required_meta_int fail (codes "num_queries") meta) _
                    (required_meta_int-Ends (codes "num_queries") meta)
                    (λ queries hq.
                      Ends-bind IsFailure _ IsWellFormed
                        (initial_queries_of fail (get (codes "cascade") meta) queries meta) _
                        (initial_queries_of-Ends (get (codes "cascade") meta) queries meta hq)
                        (λ plan hp.
                          Ends-bind IsFailure _ IsWellFormed
                            (required_meta_int fail (codes "input_h") meta) _
                            (required_meta_int-Ends (codes "input_h") meta)
                            (λ h hh.
                              Ends-bind IsFailure _ IsWellFormed
                                (required_meta_int fail (codes "input_w") meta) _
                                (required_meta_int-Ends (codes "input_w") meta)
                                (λ w hw.
                                  Ends-bind IsFailure _ IsWellFormed
                                    (required_meta_int fail (codes "num_classes") meta) _
                                    (required_meta_int-Ends (codes "num_classes") meta)
                                    (λ classes hc.
                                      Ends-bind IsFailure _ IsWellFormed
                                        (sha256_text fail (get (codes "checkpoint_sha256") meta)) _
                                        (sha256_text-Ends (get (codes "checkpoint_sha256") meta))
                                        (λ hash hs.
                                          let contract : ModelContract = record {
                                            variant = v;
                                            input_h = h;
                                            input_w = w;
                                            num_classes = classes;
                                            initial_queries = plan.0;
                                            num_queries = queries;
                                            eval_idx = index;
                                            cascade = plan.1;
                                            checkpoint_sha256 = hash;
                                            preprocess = stretch_preprocess;
                                          } in
                                          let checked : IsWellFormed contract = (
                                            hv,
                                            (hh, hw, hc),
                                            (hp.0, hq),
                                            hp.1,
                                            hs,
                                            same-stretch,
                                          ) in
                                          checked)))))))))

  pub normalized_model_contract-returned :
      (meta extra : Fields) (c : ModelContract)
      → normalized_model_contract fail meta extra ≡ returned c
      → IsWellFormed c
  normalized_model_contract-returned meta extra c h =
      Ends-returned IsFailure IsWellFormed (normalized_model_contract fail meta extra) c
        (normalized_model_contract-Ends meta extra) h
