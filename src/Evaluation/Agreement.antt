-- ===== src/Evaluation/Agreement.antt =====
-- The producers' contracts and the validator of the reports agree: `normalized_model_contract` of
-- trt-files/scripts/eval_contract.py against `_validate_model_contract` of
-- trt-files/scripts/accuracy_chain.py.
use dfine_cpp.Common.{
  ℕ, ◌≤◌, ◌≡◌, refl, true, false, Option, none, some, List, Text, text_eq, arith, ◌==◌, ltb,
}
use mathlib.Core.Path.{subst}
use dfine_cpp.Common.Int.{pos}
use dfine_cpp.Common.Result.{Error, value_error, returned}
use dfine_cpp.Json.{
  Value, Fields, null, boolean, integer, real, text, array, object, find, is_among,
}
use dfine_cpp.Json.Same.{same}
use dfine_cpp.Chain.Require.{is_sha256, require_exact_keys, require_int, require_sha256}
use dfine_cpp.Chain.Model.{
  ModelContract, member_or, model_variants, contradicts, stretch_preprocess, stretch_fields,
  check_cascade, check_preprocess, validate_model_contract,
}
use dfine_cpp.Chain.Valid.{IsWellFormed, IsCascade}
use dfine_cpp.Evaluation.Contract.{normalized_model_contract, contract_value, text_or_null}
use dfine_cpp.Evaluation.Produced.{normalized_model_contract-returned}

member_or-text :
    (e : Error) (options : List Text) (s : Text)
    → is_among s options ≡ true
    → member_or e options (text s) ≡ returned s
unfolding member_or
member_or-text e options s h = rw h refl

require_int-integer : (m n : ℕ) → m ≤ n → require_int m (integer (pos n)) ≡ returned n
unfolding require_int
require_int-integer m n h = let e : ltb n m ≡ false = ground arith in rw e refl

require_sha256-text : (s : Text) → is_sha256 s ≡ true → require_sha256 (text s) ≡ returned s
unfolding require_sha256
require_sha256-text s h = rw h refl

check_cascade-IsCascade :
    (o : Option Text) (initial queries : ℕ)
    → IsCascade o initial queries
    → check_cascade (text_or_null o) initial queries ≡ returned o
unfolding check_cascade
check_cascade-IsCascade none initial queries h =
    let e : (initial == queries) ≡ true = ground arith in rw e refl
check_cascade-IsCascade (some s) initial queries (k, e, less) =
    let f : contradicts (pos k, pos queries) initial queries ≡ false = ground arith in
    rw (e, f) refl

check_preprocess-object :
    (v : Value) (fs : Fields)
    → v ≡ object fs
    → same v stretch_preprocess ≡ true
    → check_preprocess v ≡ returned v
unfolding check_preprocess
check_preprocess-object v fs e h =
    let known : same (object fs) stretch_preprocess ≡ true =
      subst (λ w. same w stretch_preprocess ≡ true) e h in
    rw (e, known) refl

same-object :
    (v : Value) (gs : Fields) → same v (object gs) ≡ true → (fs : Fields) × (v ≡ object fs)
unfolding same
same-object (object fs) gs h = (fs, refl)
same-object null gs h = cc
same-object (boolean b) gs h = cc
same-object (integer z) gs h = cc
same-object (real r) gs h = cc
same-object (text s) gs h = cc
same-object (array xs) gs h = cc

-- A well-formed contract, written as the dictionary that the producers write, is validated to
-- itself: neither its keys nor any field of it is refused or changed.
pub contract_value-validated :
    (c : ModelContract) → IsWellFormed c → validate_model_contract (contract_value c) ≡ returned c
unfolding validate_model_contract contract_value IsWellFormed require_exact_keys find text_eq same
contract_value-validated c (hv, (hh, hw, hc), (hi, hq), hd, hs, hp) =
    let (fs, object_eq) = same-object c.preprocess stretch_fields hp in
    rw
      (
        member_or-text value_error model_variants c.variant hv,
        require_int-integer 1 c.input_h hh,
        require_int-integer 1 c.input_w hw,
        require_int-integer 1 c.num_classes hc,
        require_int-integer 1 c.initial_queries hi,
        require_int-integer 1 c.num_queries hq,
        require_int-integer 0 c.eval_idx (omega arith),
        require_sha256-text c.checkpoint_sha256 hs,
        check_cascade-IsCascade c.cascade c.initial_queries c.num_queries hd,
        check_preprocess-object c.preprocess fs object_eq hp,
      )
      refl

-- A contract that a producer reads from an artifact's metadata, with whatever extra expected
-- fields and error of its own, is accepted by the validator of the reports and read back as the
-- same contract.
pub normalized_model_contract-accepted :
    (fail : Error) (meta extra : Fields) (c : ModelContract)
    → normalized_model_contract fail meta extra ≡ returned c
    → validate_model_contract (contract_value c) ≡ returned c
normalized_model_contract-accepted fail meta extra c h =
    contract_value-validated c (normalized_model_contract-returned fail meta extra c h)
