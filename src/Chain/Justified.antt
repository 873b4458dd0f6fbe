-- ===== src/Chain/Justified.antt =====
-- What a verified transition of `_validate_transition` establishes about its two stages.
use dfine_cpp.Common.{
  ◌≡◌, ◌≢◌, refl, sym, Bool, true, false, not, Option, none, some, Text, text_eq, text_eq_sound,
  text_eq_refl, codes, arith, ◌&&◌, ◌||◌, &&-eq-true,
}
use dfine_cpp.Common.Result.{returned, value_error, refuse_if, refuse_if-returned}
use dfine_cpp.Chain.Model.{ModelContract}
use dfine_cpp.Chain.Lineage.{ArtifactKind, checkpoint, onnx, engine, Lineage}
use dfine_cpp.Chain.Transition.{
  Kind, export, runtime, precision, preset, comparison, same_kind, same_option, same_graph,
  same_identity, is_checkpoint, is_onnx, is_engine, one_kind, expected_source, check_kind, fp32,
  is_some,
}

abbrev pub SameGraph : ModelContract → ModelContract → Type 0
SameGraph m n =
    (m.initial_queries ≡ n.initial_queries)
    × (m.num_queries ≡ n.num_queries)
    × (m.eval_idx ≡ n.eval_idx)
    × (m.cascade ≡ n.cascade)

-- One model: the fields outside the graph, and the checkpoint.
abbrev pub SameModel : ModelContract → Lineage → ModelContract → Lineage → Type 0
SameModel m l n r =
    (m.variant ≡ n.variant)
    × (m.input_h ≡ n.input_h)
    × (m.input_w ≡ n.input_w)
    × (m.num_classes ≡ n.num_classes)
    × (m.checkpoint_sha256 ≡ n.checkpoint_sha256)
    × (l.checkpoint_sha256 ≡ r.checkpoint_sha256)

-- The artifacts are of one kind, which is no checkpoint.
abbrev pub SameKind : Lineage → Lineage → Type 0
SameKind l r = (l.artifact_kind ≡ r.artifact_kind) × (l.artifact_kind ≢ checkpoint)

abbrev pub IsJustified : Kind → ModelContract → Lineage → ModelContract → Lineage → Type 0
IsJustified export m l n r =
    (l.artifact_kind ≡ checkpoint)
    × (r.artifact_kind ≡ onnx)
    × (l.precision_mode ≡ codes "fp32")
    × (r.precision_mode ≡ codes "fp32")
    × (r.source_onnx_sha256 ≡ none)
    × SameGraph m n
IsJustified runtime m l n r =
    (l.artifact_kind ≡ onnx)
    × (r.artifact_kind ≡ engine)
    × (l.precision_mode ≡ r.precision_mode)
    × (r.onnx_sha256 ≡ some l.artifact_sha256)
    × SameGraph m n
IsJustified precision m l n r =
    SameKind l r
    × (l.precision_mode ≢ r.precision_mode)
    × (r.source_onnx_sha256 ≡ expected_source l)
    × SameGraph m n
IsJustified preset m l n r =
    SameKind l r × (l.precision_mode ≡ r.precision_mode) × (same_graph m n ≡ false)
IsJustified comparison m l n r = Unit

same_option→eq : (a b : Option Text) → same_option a b ≡ true → a ≡ b
same_option→eq none none h = refl
same_option→eq (some s) (some t) h = let e = text_eq_sound s t h in cc
same_option→eq none (some t) h = cc
same_option→eq (some s) none h = cc

same_kind→eq : (a b : ArtifactKind) → same_kind a b ≡ true → a ≡ b
same_kind→eq checkpoint checkpoint h = refl
same_kind→eq onnx onnx h = refl
same_kind→eq engine engine h = refl
same_kind→eq checkpoint onnx h = cc
same_kind→eq checkpoint engine h = cc
same_kind→eq onnx checkpoint h = cc
same_kind→eq onnx engine h = cc
same_kind→eq engine checkpoint h = cc
same_kind→eq engine onnx h = cc

one_kind-SameKind : (l r : Lineage) → one_kind l.artifact_kind r.artifact_kind ≡ true → SameKind l r
one_kind-SameKind l r h =
    let (a, b) = &&-eq-true (same_kind l.artifact_kind r.artifact_kind) _ h in
    (same_kind→eq l.artifact_kind r.artifact_kind a, λ e. by_kind l.artifact_kind e b)
  where
    by_kind : (k : ArtifactKind) → k ≡ checkpoint → (is_onnx k || is_engine k) ≡ true → ⊥
    by_kind checkpoint e q = cc
    by_kind onnx e q = cc
    by_kind engine e q = cc

same_graph-SameGraph : (m n : ModelContract) → same_graph m n ≡ true → SameGraph m n
same_graph-SameGraph m n h =
    (ground arith, ground arith, ground arith, same_option→eq m.cascade n.cascade (ground arith))

pub same_identity-SameModel :
    (m n : ModelContract) (l r : Lineage)
    → same_identity m n ≡ true
    → text_eq l.checkpoint_sha256 r.checkpoint_sha256 ≡ true
    → SameModel m l n r
same_identity-SameModel m n l r h e = (
  text_eq_sound m.variant n.variant (ground arith),
  ground arith,
  ground arith,
  ground arith,
  text_eq_sound m.checkpoint_sha256 n.checkpoint_sha256 (ground arith),
  text_eq_sound l.checkpoint_sha256 r.checkpoint_sha256 e,
)

passed : (c : Bool) → refuse_if (not c) value_error ≡ returned tt → c ≡ true
passed true h = refl
passed false h = cc

refused : (c : Bool) → refuse_if c value_error ≡ returned tt → c ≡ false
refused true h = cc
refused false h = refl

sourceless : (o : Option Text) → is_some o ≡ false → o ≡ none
sourceless none h = refl
sourceless (some s) h = cc

pub check_kind-IsJustified :
    (k : Kind) (m n : ModelContract) (l r : Lineage)
    → check_kind k m l n r ≡ returned tt
    → IsJustified k m l n r
check_kind-IsJustified export m n l r h =
    let (g, h1) = refuse_if-returned (not (same_graph m n)) value_error _ tt h in
    let (a, h2) =
      refuse_if-returned (not (is_checkpoint l.artifact_kind && is_onnx r.artifact_kind))
        value_error _ tt h1 in
    let (b, h3) =
      refuse_if-returned (not (fp32 l.precision_mode) || not (fp32 r.precision_mode)) value_error _
        tt h2 in
    (
      sym (same_kind→eq checkpoint l.artifact_kind (ground arith)),
      sym (same_kind→eq onnx r.artifact_kind (ground arith)),
      text_eq_sound l.precision_mode (codes "fp32") (ground arith),
      text_eq_sound r.precision_mode (codes "fp32") (ground arith),
      sourceless r.source_onnx_sha256 (refused (is_some r.source_onnx_sha256) h3),
      same_graph-SameGraph m n (ground arith),
    )
check_kind-IsJustified runtime m n l r h =
    let (g, h1) = refuse_if-returned (not (same_graph m n)) value_error _ tt h in
    let (a, h2) =
      refuse_if-returned (not (is_onnx l.artifact_kind && is_engine r.artifact_kind)) value_error _
        tt h1 in
    let (b, h3) =
      refuse_if-returned (not (text_eq l.precision_mode r.precision_mode)) value_error _ tt h2 in
    (
      sym (same_kind→eq onnx l.artifact_kind (ground arith)),
      sym (same_kind→eq engine r.artifact_kind (ground arith)),
      text_eq_sound l.precision_mode r.precision_mode (ground arith),
      same_option→eq r.onnx_sha256 (some l.artifact_sha256)
          (passed (same_option r.onnx_sha256 (some l.artifact_sha256)) h3),
      same_graph-SameGraph m n (ground arith),
    )
check_kind-IsJustified precision m n l r h =
    let (g, h1) = refuse_if-returned (not (same_graph m n)) value_error _ tt h in
    let (a, h2) =
      refuse_if-returned (not (one_kind l.artifact_kind r.artifact_kind)) value_error _ tt h1 in
    let (b, h3) =
      refuse_if-returned (text_eq l.precision_mode r.precision_mode) value_error _ tt h2 in
    (
      one_kind-SameKind l r (ground arith),
      (λ e.
          let q : text_eq l.precision_mode r.precision_mode ≡ true =
            rw e (text_eq_refl r.precision_mode) in
          cc),
      same_option→eq r.source_onnx_sha256 (expected_source l)
          (passed (same_option r.source_onnx_sha256 (expected_source l)) h3),
      same_graph-SameGraph m n (ground arith),
    )
check_kind-IsJustified preset m n l r h =
    let (a, h2) =
      refuse_if-returned (not (one_kind l.artifact_kind r.artifact_kind)) value_error _ tt h in
    let (b, h3) =
      refuse_if-returned (not (text_eq l.precision_mode r.precision_mode)) value_error _ tt h2 in
    (
      one_kind-SameKind l r (ground arith),
      text_eq_sound l.precision_mode r.precision_mode (ground arith),
      refused (same_graph m n) h3,
    )
check_kind-IsJustified comparison m n l r h = tt
