-- ===== src/Evaluation/Tests.antt =====
-- Runs of the theorems on the evaluation contracts.
use dfine_cpp.Common.{ℕ, ◌≡◌, refl, ◌↔◌, true, some, List, [], ◌∷◌, Text, text_eq, codes, arith}
use dfine_cpp.Common.Int.{pos, negated}
use dfine_cpp.Common.Decimal.{digits}
use dfine_cpp.Common.Split.{split}
use dfine_cpp.Common.Whole.{read_digits, trim_start}
use dfine_cpp.Common.Result.{returned, failed, type_error, system_exit}
use dfine_cpp.Json.{Value, Fields, null, array, object, nil, integer, text, empty, field, find}
use dfine_cpp.Json.Number.{one}
use dfine_cpp.Json.Same.{same}
use dfine_cpp.Chain.Require.{is_sha256, require_exact_keys, require_int, require_sha256}
use dfine_cpp.Chain.Model.{
  ModelContract, member_or, read_cascade, check_cascade, check_preprocess, stretch_preprocess,
  validate_model_contract,
}
use dfine_cpp.Chain.Decode.{add}
use dfine_cpp.Chain.Valid.{IsWellFormed}
use dfine_cpp.Chain.Checked.{
  IsRefusal, validate_model_contract-IsWellFormed, validate_model_contract-failed,
}
use dfine_cpp.Evaluation.Contract.{
  put, update, fixed_fields, required_meta_int, sha256_meta, check_expected, initial_queries_of,
  normalized_model_contract, contract_value,
}
use dfine_cpp.Evaluation.Agreement.{contract_value-validated, normalized_model_contract-accepted}
use dfine_cpp.Evaluation.Arguments.{resolution, positive_int}
use dfine_cpp.Evaluation.Resolution.{resolution-idempotent}
use dfine_cpp.Evaluation.Checks.{Tensor, require_detection_outputs}
use dfine_cpp.Evaluation.Outputs.{AreOutputs, require_detection_outputs_iff}

abbrev hash : Text
hash = codes "0123456789abcdef0123456789abcdef0123456789abcdef0123456789abcdef"

abbrev model : ModelContract
model = record {
  variant = codes "s";
  input_h = 640;
  input_w = 640;
  num_classes = 80;
  initial_queries = 300;
  num_queries = 100;
  eval_idx = 2;
  cascade = some (codes "1:100");
  checkpoint_sha256 = hash;
  preprocess = stretch_preprocess;
}

abbrev whole : ℕ → Value
whole n = integer (pos n)

abbrev with_fields : List (Text × Value) → Fields → Fields
with_fields [] fs = fs
with_fields ((k, v) ∷ s) fs = field k v (with_fields s fs)

abbrev metadata : Fields
metadata =
    with_fields
      ((codes "variant", text (codes "s"))
        ∷ (codes "input_h", whole 640)
        ∷ (codes "input_w", whole 640)
        ∷ (codes "num_classes", whole 80)
        ∷ (codes "num_queries", whole 100)
        ∷ (codes "cascade_initial_queries", whole 300)
        ∷ (codes "eval_idx", whole 2)
        ∷ (codes "cascade", text (codes "1:100"))
        ∷ (codes "checkpoint_sha256", text hash)
        ∷ (codes "checkpoint_load", text (codes "strict"))
        ∷ [])
      fixed_fields

produced : normalized_model_contract system_exit metadata empty ≡ returned model
unfolding normalized_model_contract check_expected put update same find text_eq one member_or
    required_meta_int initial_queries_of read_cascade sha256_meta split read_digits trim_start
    negated
produced = refl

normalized_model_contract-accepted_example :
    validate_model_contract (contract_value model) ≡ returned model
normalized_model_contract-accepted_example =
    normalized_model_contract-accepted system_exit metadata empty model produced

accepted : validate_model_contract (contract_value model) ≡ returned model
unfolding validate_model_contract contract_value require_exact_keys find text_eq same one member_or
    require_int require_sha256 is_sha256 check_cascade check_preprocess read_cascade split
    read_digits trim_start negated
accepted = refl

validate_model_contract-IsWellFormed_example : IsWellFormed model
validate_model_contract-IsWellFormed_example =
    validate_model_contract-IsWellFormed (contract_value model) model accepted

-- A contract whose variant is an array.
abbrev with_variant : Value → Value → Value
with_variant (object fs) v = object (add fs (codes "variant") v)
with_variant _ v = null

abbrev odd_contract : Value
odd_contract = with_variant (contract_value model) (array nil)

refused : validate_model_contract odd_contract ≡ failed type_error
unfolding validate_model_contract contract_value require_exact_keys find text_eq same one member_or
    add
refused = refl

validate_model_contract-failed_example : IsRefusal odd_contract type_error
validate_model_contract-failed_example =
    validate_model_contract-failed odd_contract type_error refused

known : IsWellFormed model
unfolding IsWellFormed text_eq read_cascade split read_digits trim_start is_sha256 same find one
    negated
known = (
  refl,
  (omega arith, omega arith, omega arith),
  (omega arith, omega arith),
  (1, refl, omega arith),
  refl,
  refl,
)

contract_value-validated_example : validate_model_contract (contract_value model) ≡ returned model
contract_value-validated_example = contract_value-validated model known

read_resolution : resolution (codes "640X0480") ≡ returned (codes "640x480")
unfolding resolution split positive_int trim_start read_digits digits negated
read_resolution = refl

resolution-idempotent_example : resolution (codes "640x480") ≡ returned (codes "640x480")
resolution-idempotent_example =
    resolution-idempotent (codes "640X0480") (codes "640x480") read_resolution

abbrev logits : Tensor
logits = record { shape = 2 ∷ 300 ∷ 80 ∷ []; is_finite = true }

abbrev boxes : Tensor
boxes = record { shape = 2 ∷ 300 ∷ 4 ∷ []; is_finite = true }

require_detection_outputs_iff_example :
    (require_detection_outputs logits boxes 2 80 ≡ returned (logits, boxes))
    ↔ AreOutputs logits boxes 2 80
require_detection_outputs_iff_example = require_detection_outputs_iff logits boxes 2 80
