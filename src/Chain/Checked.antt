-- ===== src/Chain/Checked.antt =====
-- `_validate_model_contract` returns well-formed contracts, and fails with few errors.
use dfine_cpp.Common.{
  ℕ, ◌≤◌, ◌≡◌, refl, ◌⊎◌, inl, inr, true, false, not, Bool, Option, none, some, sym, Text, text_eq,
  codes, ◌||◌,
}
use mathlib.Core.Path.{subst}
use dfine_cpp.Common.Result.{
  Error, Result, returned, failed, value_error, type_error, key_error, ◌>>=◌, Ends, Ends-bind,
  Ends-refuse, Ends-returned, Ends-failed, Ends-weaken,
}
use dfine_cpp.Json.{
  Value, Fields, null, boolean, integer, real, text, array, is_among, object, item_of, get, find,
}
use dfine_cpp.Chain.Require.{
  require_object, require_exact_keys, require_int, require_sha256, require_at, lacks_any,
}
use dfine_cpp.Chain.Model.{
  ModelContract, member_or, require_member, model_variants, check_cascade, check_preprocess,
  read_contract, validate_model_contract, contract_fields, is_text,
}
use dfine_cpp.Chain.Valid.{IsWellFormed}
use dfine_cpp.Chain.Accepted.{
  require_object-Ends, require_exact_keys-Ends, require_int-Ends, require_sha256-Ends,
  require_at-Ends, item_of-Ends, lacks_any-has_key, refused_not, check_cascade-Ends,
  check_preprocess-Ends,
}

-- An array or an object, which Python cannot look up in a set.
abbrev pub IsContainer : Value → Type 0
IsContainer (array _) = Unit
IsContainer (object _) = Unit
IsContainer _ = ⊥

abbrev pub variant_of : Value → Value
variant_of (object fs) = get (codes "variant") fs
variant_of _ = null

-- The errors of a refused contract.
abbrev pub IsRefusal : Value → Error → Type 0
IsRefusal v e = (e ≡ value_error) ⊎ ((e ≡ type_error) × IsContainer (variant_of v))

module _ (fs : Fields) (has_all : lacks_any contract_fields fs ≡ false) where
  abbrev IsRejection : Error → Type 0
  IsRejection e = IsRefusal (object fs) e

  abbrev IsKnown : Text → Type 0
  IsKnown s = is_among s model_variants ≡ true

  variant-Ends :
      Ends IsKnown IsRejection (require_at (require_member model_variants) (codes "variant") fs)
  unfolding text_eq member_or
  variant-Ends =
      by_value (find (codes "variant") fs) refl
        (lacks_any-has_key (codes "variant") contract_fields fs refl has_all)
    where
      is_found : (o : Option Value) → Bool
      is_found o = elim o [ none ↦ false | some _ ↦ true ]

      by_member :
          (v : Value)
          → (IsContainer v → IsContainer (get (codes "variant") fs))
          → Ends IsKnown IsRejection (require_member model_variants v)
      by_member (text t) f =
          refused_not _ IsRejection (is_among t model_variants) value_error t (inl refl) (λ m. m)
      by_member null f = inl refl
      by_member (boolean _) f = inl refl
      by_member (integer _) f = inl refl
      by_member (real _) f = inl refl
      by_member (array xs) f = inr (refl, f tt)
      by_member (object gs) f = inr (refl, f tt)

      value_of : Option Value → Value
      value_of o = elim o [ none ↦ null | some v ↦ v ]

      by_value :
          (o : Option Value)
          → find (codes "variant") fs ≡ o
          → is_found o ≡ true
          → Ends IsKnown IsRejection (
              elim o [ none ↦ failed key_error | some v ↦ returned v ]
              >>= require_member model_variants)
      by_value none e h = cc
      by_value (some v) e h = by_member v (λ c. subst (λ o. IsContainer (value_of o)) (sym e) c)

  read {ℓ} :
      {A : Type ℓ} {B : Type 0} (P : A → Type 0) (Q : B → Type 0) (check : Value → Result A)
      (k : Text) (f : A → Result B)
      → is_among k contract_fields ≡ true
      → ((v : Value) → Ends P IsRejection (check v))
      → ((a : A) → P a → Ends Q IsRejection (f a))
      → Ends Q IsRejection (require_at check k fs >>= f)
  read P Q check k f m ends next =
      Ends-bind IsRejection P Q (require_at check k fs) f
        (require_at-Ends IsRejection P check k contract_fields fs m has_all ends) next

  read_item :
      {B : Type 0} (Q : B → Type 0) (k : Text) (f : Value → Result B)
      → is_among k contract_fields ≡ true
      → ((v : Value) → Ends Q IsRejection (f v))
      → Ends Q IsRejection (item_of k fs >>= f)
  read_item Q k f m next =
      Ends-bind IsRejection (λ _. Unit {0}) Q (item_of k fs) f
        (item_of-Ends IsRejection k contract_fields fs m has_all) (λ v _. next v)

  at_least : (m : ℕ) (v : Value) → Ends (λ n. m ≤ n) IsRejection (require_int m v)
  at_least m v =
      Ends-weaken IsRejection _ _ (require_int m v) (λ n h. h.1)
        (require_int-Ends IsRejection (inl refl) m v)

  read_contract-IsWellFormed : Ends IsWellFormed IsRejection (read_contract fs)
  unfolding IsWellFormed text_eq
  read_contract-IsWellFormed = read_item IsWellFormed (codes "model") _ refl (λ model.
      read_item IsWellFormed (codes "task") _ refl (λ task.
        Ends-refuse IsRejection IsWellFormed
          (not (is_text (codes "d-fine") model) || not (is_text (codes "detect") task)) value_error
          _ (inl refl)
          (λ _.
            Ends-bind IsRejection IsKnown IsWellFormed
              (require_at (require_member model_variants) (codes "variant") fs) _ variant-Ends
              (λ v hv.
                read _ IsWellFormed (require_int 1) (codes "input_h") _ refl (at_least 1) (λ h hh.
                  read _ IsWellFormed (require_int 1) (codes "input_w") _ refl (at_least 1) (λ w hw.
                    read _ IsWellFormed (require_int 1) (codes "num_classes") _ refl (at_least 1)
                      (λ classes hc.
                        read _ IsWellFormed (require_int 1) (codes "initial_queries") _ refl
                          (at_least 1)
                          (λ initial hi.
                            read _ IsWellFormed (require_int 1) (codes "num_queries") _ refl
                              (at_least 1)
                              (λ queries hq.
                                read _ IsWellFormed (require_int 0) (codes "eval_idx") _ refl
                                  (at_least 0)
                                  (λ index hx.
                                    read _ IsWellFormed require_sha256 (codes "checkpoint_sha256") _
                                      refl (require_sha256-Ends IsRejection (inl refl))
                                      (λ hash hs.
                                        read _ IsWellFormed (λ c. check_cascade c initial queries)
                                          (codes "cascade") _ refl
                                          (λ c.
                                            check_cascade-Ends IsRejection (inl refl) c initial
                                              queries)
                                          (λ declared hd.
                                            read _ IsWellFormed check_preprocess
                                              (codes "preprocess") _ refl
                                              (check_preprocess-Ends IsRejection (inl refl))
                                              (λ process hp.
                                                let contract : ModelContract = record {
                                                  variant = v;
                                                  input_h = h;
                                                  input_w = w;
                                                  num_classes = classes;
                                                  initial_queries = initial;
                                                  num_queries = queries;
                                                  eval_idx = index;
                                                  cascade = declared;
                                                  checkpoint_sha256 = hash;
                                                  preprocess = process;
                                                } in
                                                let checked : IsWellFormed contract =
                                                  (hv, (hh, hw, hc), (hi, hq), hd, hs, hp) in
                                                checked)))))))))))))

validate_model_contract-Ends :
    (v : Value) → Ends IsWellFormed (IsRefusal v) (validate_model_contract v)
unfolding validate_model_contract
validate_model_contract-Ends v =
    Ends-bind (IsRefusal v) (λ fs. v ≡ object fs) IsWellFormed (require_object v) _
      (require_object-Ends (IsRefusal v) (inl refl) v)
      (λ fs same.
        Ends-bind (IsRefusal v) _ IsWellFormed (require_exact_keys contract_fields fs) _
          (require_exact_keys-Ends (IsRefusal v) (inl refl) contract_fields fs)
          (λ _ h.
            subst (λ (u : Value). Ends IsWellFormed (IsRefusal u) (read_contract fs)) (sym same)
              (read_contract-IsWellFormed fs h.0)))

-- A contract that the validator returns is well formed: a supported variant, positive dimensions
-- and class and query counts, a lowercase SHA-256, the stretch preprocessing, and equal query
-- counts or a cascade K:KEEP with K of 0 or more that keeps exactly the output queries, fewer than
-- the initial ones.
pub validate_model_contract-IsWellFormed :
    (v : Value) (c : ModelContract) → validate_model_contract v ≡ returned c → IsWellFormed c
validate_model_contract-IsWellFormed v c h =
    Ends-returned (IsRefusal v) IsWellFormed (validate_model_contract v) c
      (validate_model_contract-Ends v) h

-- A value that the validator refuses is refused with a ValueError, or with the TypeError of a
-- variant that is an array or an object, and never with a KeyError.
pub validate_model_contract-failed :
    (v : Value) (e : Error) → validate_model_contract v ≡ failed e → IsRefusal v e
validate_model_contract-failed v e h =
    Ends-failed (IsRefusal v) IsWellFormed (validate_model_contract v) e
      (validate_model_contract-Ends v) h
