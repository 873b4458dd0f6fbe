-- ===== src/Evaluation/Checks.antt =====
-- The preconditions on a run, in trt-files/scripts/eval_contract.py: shapes and values of a model's
-- outputs, accepted calls of TensorRT, detections, processed images and required arguments.
use dfine_cpp.Common.{
  ℕ, Bool, true, false, not, Option, none, some, List, [], ◌∷◌, ◌==◌, ◌&&◌, ◌||◌, length, any, Text,
  ltb,
}
use dfine_cpp.Common.Result.{Result, returned, failed, system_exit, runtime_error, ◌>>◌, refuse_if}

-- What the code reads of an array.
pub record Tensor : Type 0 where
  pub shape : List ℕ
  pub is_finite : Bool

abbrev pub has_shape : List ℕ → List ℕ → Bool
has_shape [] [] = true
has_shape (a ∷ s) (b ∷ t) = (a == b) && has_shape s t
has_shape _ _ = false

abbrev pub checked_shapes : List ℕ → Tensor → Tensor → ℕ → ℕ → Result (Tensor × Tensor)
checked_shapes (b ∷ q ∷ c ∷ []) logits boxes batch classes = do
  refuse_if (not (b == batch) || q == 0) system_exit
  refuse_if (not (c == classes)) system_exit
  refuse_if (not (has_shape boxes.shape (batch ∷ q ∷ 4 ∷ []))) system_exit
  refuse_if (not logits.is_finite || not boxes.is_finite) system_exit
  returned (logits, boxes)
checked_shapes _ logits boxes batch classes = failed system_exit

unfoldable pub require_detection_outputs : Tensor → Tensor → ℕ → ℕ → Result (Tensor × Tensor)
require_detection_outputs logits boxes batch classes =
    checked_shapes logits.shape logits boxes batch classes

unfoldable pub require_trt_success : Bool → Result (Unit {0})
require_trt_success success = refuse_if (not success) runtime_error

unfoldable pub require_detections {ℓ} : {A : Type ℓ} → List A → Result (Unit {0})
require_detections detections = refuse_if (length detections == 0) system_exit

unfoldable pub require_complete_images : ℕ → ℕ → Result (Unit {0})
require_complete_images expected processed =
    refuse_if (not (ltb 0 expected && processed == expected)) system_exit

-- The values of the required attributes, in order.
unfoldable pub require_arguments : List (Option Text) → Result (Unit {0})
require_arguments values = refuse_if (any is_missing values) system_exit
  where
    is_missing : Option Text → Bool
    is_missing none = true
    is_missing (some []) = true
    is_missing (some (c ∷ s)) = false
