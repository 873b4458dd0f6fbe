-- ===== src/Evaluation/Outputs.antt =====
-- What the checks of a model's outputs accept.
use dfine_cpp.Common.{ℕ, ◌≤◌, ◌≡◌, refl, ◌↔◌, true, false, not, List, [], ◌∷◌, arith, ◌==◌, ◌||◌}
use dfine_cpp.Common.Result.{returned, refuse_if-returned}
use dfine_cpp.Evaluation.Checks.{Tensor, has_shape, checked_shapes, require_detection_outputs}

has_shape→eq : (s t : List ℕ) → has_shape s t ≡ true → s ≡ t
has_shape→eq [] [] h = refl
has_shape→eq (a ∷ s) (b ∷ t) h =
    let rest = has_shape→eq s t (ground arith) in let first : a ≡ b = ground arith in cc
has_shape→eq [] (b ∷ t) h = cc
has_shape→eq (a ∷ s) [] h = cc

has_shape_refl : (s : List ℕ) → has_shape s s ≡ true
has_shape_refl [] = refl
has_shape_refl (a ∷ s) = ground (arith, has_shape_refl s)

-- The shapes [batch, Q, classes] and [batch, Q, 4] with Q of 1 or more, all values finite.
abbrev pub AreOutputs : Tensor → Tensor → ℕ → ℕ → Type 0
AreOutputs logits boxes batch classes =
    (queries : ℕ) × (1 ≤ queries)
    × (logits.shape ≡ batch ∷ queries ∷ classes ∷ [])
    × (boxes.shape ≡ batch ∷ queries ∷ 4 ∷ [])
    × (logits.is_finite ≡ true)
    × (boxes.is_finite ≡ true)

accepted :
    (logits boxes : Tensor) (batch classes : ℕ)
    → require_detection_outputs logits boxes batch classes ≡ returned (logits, boxes)
    → AreOutputs logits boxes batch classes
unfolding require_detection_outputs
accepted logits boxes batch classes h = by_shape logits.shape refl h
  where
    by_shape :
        (shape : List ℕ)
        → logits.shape ≡ shape
        → checked_shapes shape logits boxes batch classes ≡ returned (logits, boxes)
        → AreOutputs logits boxes batch classes
    by_shape (b ∷ q ∷ c ∷ []) e k =
        let (t1, k1) = refuse_if-returned (not (b == batch) || q == 0) _ _ (logits, boxes) k in
        let (t2, k2) = refuse_if-returned (not (c == classes)) _ _ (logits, boxes) k1 in
        let (t3, k3) =
          refuse_if-returned (not (has_shape boxes.shape (batch ∷ q ∷ 4 ∷ []))) _ _ (logits, boxes)
            k2 in
        let (t4, k4) =
          refuse_if-returned (not logits.is_finite || not boxes.is_finite) _ _ (logits, boxes) k3 in
        let same_batch : b ≡ batch = ground arith in
        let same_classes : c ≡ classes = ground arith in
        let fits : has_shape boxes.shape (batch ∷ q ∷ 4 ∷ []) ≡ true = ground arith in
        (
          q,
          ground arith,
          cc,
          has_shape→eq boxes.shape (batch ∷ q ∷ 4 ∷ []) fits,
          ground arith,
          ground arith,
        )
    by_shape [] e k = cc
    by_shape (b ∷ []) e k = cc
    by_shape (b ∷ q ∷ []) e k = cc
    by_shape (b ∷ q ∷ c ∷ d ∷ rest) e k = cc

-- The check of a model's outputs returns them exactly if the logits have the shape [batch, Q,
-- classes] and the boxes the shape [batch, Q, 4] for one Q of 1 or more, and all values are finite.
pub require_detection_outputs_iff :
    (logits boxes : Tensor) (batch classes : ℕ)
    → (require_detection_outputs logits boxes batch classes ≡ returned (logits, boxes))
      ↔ AreOutputs logits boxes batch classes
unfolding require_detection_outputs
require_detection_outputs_iff logits boxes batch classes = (
  accepted logits boxes batch classes,
  λ (q, positive, e, f, l, b).
      let t1 : (not (batch == batch) || q == 0) ≡ false = ground arith in
      let t2 : (classes == classes) ≡ true = ground arith in
      rw (e, f, t1, t2, has_shape_refl (batch ∷ q ∷ 4 ∷ []), l, b) refl,
)
