-- ===== src/Chain/Verified.antt =====
-- The outcomes of `_validate_transition`.
use dfine_cpp.Common.{
  ◌≡◌, refl, sym, ◌∙◌, ◌⊎◌, inl, inr, Bool, true, false, not, Option, none, some, text_eq, arith,
  ◌&&◌,
}
use mathlib.Core.Path.{subst}
use dfine_cpp.Common.Result.{returned, value_error, refuse_if-returned, bind-returned}
use dfine_cpp.Chain.Model.{ModelContract}
use dfine_cpp.Chain.Lineage.{Lineage}
use dfine_cpp.Chain.Transition.{
  Kind, export, runtime, precision, preset, comparison, Stage, same_identity, check_kind,
  inferred_of, chosen_kind, same_transition, contradicts_request, validate_complete,
  validate_missing, validate_pairs, validate_transition,
}
use dfine_cpp.Chain.Justified.{
  SameModel, IsJustified, same_identity-SameModel, check_kind-IsJustified,
}

-- Two identified stages of one model whose difference is of the kind.
abbrev pub IsVerified :
    Kind → Option (ModelContract × Lineage) → Option (ModelContract × Lineage) → Type 0
IsVerified k (some (m, l)) (some (n, r)) = SameModel m l n r × IsJustified k m l n r
IsVerified k none _ = ⊥
IsVerified k (some _) none = ⊥

abbrev pub IsMissing : Option (ModelContract × Lineage) → Option (ModelContract × Lineage) → Type 0
IsMissing a b = (a ≡ none) ⊎ (b ≡ none)

-- The outcome of a transition that is not refused.
abbrev pub Outcome :
    Kind
    → Bool
    → Bool
    → Option (ModelContract × Lineage)
    → Option (ModelContract × Lineage)
    → Type 0
Outcome k true allow a b = IsVerified k a b
Outcome k false allow a b = IsMissing a b × (k ≡ comparison) × (allow ≡ true)

same_transition→eq : (a : Kind) → same_transition a comparison ≡ true → a ≡ comparison
same_transition→eq comparison h = refl
same_transition→eq export h = cc
same_transition→eq runtime h = cc
same_transition→eq precision h = cc
same_transition→eq preset h = cc

complete-Outcome :
    (requested : Option Kind) (m n : ModelContract) (l r : Lineage) (allow verified : Bool)
    (k : Kind)
    → validate_complete requested m l n r ≡ returned (k, verified)
    → Outcome k verified allow (some (m, l)) (some (n, r))
complete-Outcome requested m n l r allow verified k h =
    let inferred = inferred_of m l n r in
    let kind = chosen_kind requested inferred in
    let (a, h1) = refuse_if-returned (not (same_identity m n)) value_error _ (k, verified) h in
    let (b, h2) =
      refuse_if-returned (not (text_eq l.checkpoint_sha256 r.checkpoint_sha256)) value_error _
        (k, verified) h1 in
    let (c, h3) =
      refuse_if-returned
        (not (same_transition kind comparison) && contradicts_request requested inferred)
        value_error _ (k, verified) h2 in
    let (u, h4, h5) = bind-returned (check_kind kind m l n r) _ (k, verified) h3 in
    let is_kind : kind ≡ k = cc in
    let is_verified : true ≡ verified = cc in
    subst (λ v. Outcome k v allow (some (m, l)) (some (n, r))) is_verified
      (
        same_identity-SameModel m n l r (ground arith) (ground arith),
        subst (λ x. IsJustified x m l n r) is_kind (check_kind-IsJustified kind m n l r h4),
      )

missing-Outcome :
    (a b : Option (ModelContract × Lineage)) (kind k : Kind) (allow verified : Bool)
    → IsMissing a b
    → validate_missing kind allow ≡ returned (k, verified)
    → Outcome k verified allow a b
missing-Outcome a b kind k allow verified missing h =
    let (c, h1) = refuse_if-returned (not allow) value_error _ (k, verified) h in
    let (d, h2) =
      refuse_if-returned (not (same_transition kind comparison)) value_error _ (k, verified) h1 in
    let is_kind : kind ≡ k = cc in
    let is_unverified : false ≡ verified = cc in
    subst (λ v. Outcome k v allow a b) is_unverified
      (missing, sym is_kind ∙ same_transition→eq kind (ground arith), ground arith)

-- A transition that is not refused has one of two outcomes. It is marked as verified, and both
-- stages record an identity: they describe one model from one checkpoint, and their artifacts
-- differ as the kind says, in an export from fp32 to fp32, an engine of the left ONNX graph, a
-- change of precision with the left artifact's source, or a change of the graph alone. Or it is
-- marked as unverified, and it is a comparison that the caller has allowed of a stage that records
-- no identity.
pub validate_transition-Outcome :
    (left right : Stage) (requested : Option Kind) (allow verified : Bool) (k : Kind)
    → validate_transition left right requested allow ≡ returned (k, verified)
    → Outcome k verified allow left.identity right.identity
unfolding validate_transition
validate_transition-Outcome left right requested allow verified k h =
    by_pairs left.identity right.identity h
  where
    by_pairs :
        (a b : Option (ModelContract × Lineage))
        → validate_pairs requested allow a b ≡ returned (k, verified)
        → Outcome k verified allow a b
    by_pairs (some (m, l)) (some (n, r)) e = complete-Outcome requested m n l r allow verified k e
    by_pairs none b e =
        missing-Outcome none b (chosen_kind requested comparison) k allow verified (inl refl) e
    by_pairs (some p) none e =
        missing-Outcome (some p) none (chosen_kind requested comparison) k allow verified (inr refl)
          e
