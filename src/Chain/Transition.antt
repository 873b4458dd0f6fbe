-- ===== src/Chain/Transition.antt =====
-- `_inferred_transition_kind` and `_validate_transition`: what two adjacent stages may differ in.
use dfine_cpp.Common.{
  Bool, true, false, not, Option, none, some, Text, text_eq, codes, ◌&&◌, ◌||◌, ◌==◌, if◌then◌else◌,
}
use dfine_cpp.Common.Result.{Result, returned, value_error, ◌>>◌, refuse_if}
use dfine_cpp.Json.Same.{same}
use dfine_cpp.Chain.Model.{ModelContract}
use dfine_cpp.Chain.Lineage.{ArtifactKind, checkpoint, onnx, engine, Artifact, Lineage}
use dfine_cpp.Chain.Metrics.{Metrics}

-- A TRANSITION_KINDS entry; other texts are refused before (`choices` of the parser).
pub data Kind : Type 0 where
  export runtime precision preset comparison : Kind

pub record Stage : Type 0 where
  pub name : Text
  pub backend : Text
  pub artifact : Artifact
  -- `model_contract` and `lineage`, which are recorded together or not at all
  pub identity : Option (ModelContract × Lineage)
  pub metrics : Metrics

abbrev pub same_kind : ArtifactKind → ArtifactKind → Bool
same_kind checkpoint checkpoint = true
same_kind onnx onnx = true
same_kind engine engine = true
same_kind _ _ = false

abbrev pub same_transition : Kind → Kind → Bool
same_transition export export = true
same_transition runtime runtime = true
same_transition precision precision = true
same_transition preset preset = true
same_transition comparison comparison = true
same_transition _ _ = false

abbrev pub same_option : Option Text → Option Text → Bool
same_option none none = true
same_option (some s) (some t) = text_eq s t
same_option _ _ = false

-- MODEL_GRAPH_FIELDS agree.
abbrev pub same_graph : ModelContract → ModelContract → Bool
same_graph a b =
    (a.initial_queries == b.initial_queries)
    && ((a.num_queries == b.num_queries)
        && ((a.eval_idx == b.eval_idx) && same_option a.cascade b.cascade))

-- MODEL_IDENTITY_FIELDS agree.
abbrev pub same_identity : ModelContract → ModelContract → Bool
same_identity a b =
    text_eq a.variant b.variant
    && ((a.input_h == b.input_h)
        && ((a.input_w == b.input_w)
            && ((a.num_classes == b.num_classes)
                && (text_eq a.checkpoint_sha256 b.checkpoint_sha256
                    && same a.preprocess b.preprocess))))

abbrev pub is_checkpoint : ArtifactKind → Bool
is_checkpoint = same_kind checkpoint

abbrev pub is_onnx : ArtifactKind → Bool
is_onnx = same_kind onnx

abbrev pub is_engine : ArtifactKind → Bool
is_engine = same_kind engine

-- `left_kind == right_kind and left_kind in {"onnx", "engine"}`
abbrev pub one_kind : ArtifactKind → ArtifactKind → Bool
one_kind a b = same_kind a b && (is_onnx a || is_engine a)

-- The kind that two lineages with their contracts show.
abbrev pub inferred_of : ModelContract → Lineage → ModelContract → Lineage → Kind
inferred_of m l n r =
    if is_checkpoint l.artifact_kind && is_onnx r.artifact_kind
    then export
    else if is_onnx l.artifact_kind && is_engine r.artifact_kind
    then runtime
    else if one_kind l.artifact_kind r.artifact_kind
    then (if not (text_eq l.precision_mode r.precision_mode)
        then precision
        else if not (same_graph m n)
        then preset
        else comparison)
    else comparison

abbrev pub inferred_transition_kind : Stage → Stage → Kind
inferred_transition_kind left right = of_pairs left.identity right.identity
  where
    of_pairs : Option (ModelContract × Lineage) → Option (ModelContract × Lineage) → Kind
    of_pairs (some (m, l)) (some (n, r)) = inferred_of m l n r
    of_pairs _ _ = comparison

-- The hash that a requantised artifact must name as its source.
abbrev pub expected_source : Lineage → Option Text
expected_source l = if is_onnx l.artifact_kind then some l.artifact_sha256 else l.onnx_sha256

abbrev pub is_some : Option Text → Bool
is_some none = false
is_some (some _) = true

abbrev pub fp32 : Text → Bool
fp32 s = text_eq s (codes "fp32")

abbrev pub check_export : Lineage → Lineage → Result (Unit {0})
check_export l r = do
  refuse_if (not (is_checkpoint l.artifact_kind && is_onnx r.artifact_kind)) value_error
  refuse_if (not (fp32 l.precision_mode) || not (fp32 r.precision_mode)) value_error
  refuse_if (is_some r.source_onnx_sha256) value_error

abbrev pub check_runtime : Lineage → Lineage → Result (Unit {0})
check_runtime l r = do
  refuse_if (not (is_onnx l.artifact_kind && is_engine r.artifact_kind)) value_error
  refuse_if (not (text_eq l.precision_mode r.precision_mode)) value_error
  refuse_if (not (same_option r.onnx_sha256 (some l.artifact_sha256))) value_error

abbrev pub check_precision : Lineage → Lineage → Result (Unit {0})
check_precision l r = do
  refuse_if (not (one_kind l.artifact_kind r.artifact_kind)) value_error
  refuse_if (text_eq l.precision_mode r.precision_mode) value_error
  refuse_if (not (same_option r.source_onnx_sha256 (expected_source l))) value_error

abbrev pub check_preset : ModelContract → Lineage → ModelContract → Lineage → Result (Unit {0})
check_preset m l n r = do
  refuse_if (not (one_kind l.artifact_kind r.artifact_kind)) value_error
  refuse_if (not (text_eq l.precision_mode r.precision_mode)) value_error
  refuse_if (same_graph m n) value_error

abbrev pub check_kind : Kind → ModelContract → Lineage → ModelContract → Lineage → Result (Unit {0})
check_kind export m l n r = refuse_if (not (same_graph m n)) value_error >> check_export l r
check_kind runtime m l n r = refuse_if (not (same_graph m n)) value_error >> check_runtime l r
check_kind precision m l n r = refuse_if (not (same_graph m n)) value_error >> check_precision l r
check_kind preset m l n r = check_preset m l n r
check_kind comparison m l n r = returned tt

-- `requested_kind or inferred`
abbrev pub chosen_kind : Option Kind → Kind → Kind
chosen_kind none inferred = inferred
chosen_kind (some kind) inferred = kind

-- `requested_kind is not None and inferred != kind`
abbrev pub contradicts_request : Option Kind → Kind → Bool
contradicts_request none inferred = false
contradicts_request (some kind) inferred = not (same_transition inferred kind)

abbrev pub validate_complete :
    Option Kind → ModelContract → Lineage → ModelContract → Lineage → Result (Kind × Bool)
validate_complete requested m l n r = do
  let inferred = inferred_of m l n r
  let kind = chosen_kind requested inferred
  refuse_if (not (same_identity m n)) value_error
  refuse_if (not (text_eq l.checkpoint_sha256 r.checkpoint_sha256)) value_error
  refuse_if (not (same_transition kind comparison) && contradicts_request requested inferred)
      value_error
  check_kind kind m l n r
  returned (kind, true)

abbrev pub validate_missing : Kind → Bool → Result (Kind × Bool)
validate_missing kind allow_missing_lineage = do
  refuse_if (not allow_missing_lineage) value_error
  refuse_if (not (same_transition kind comparison)) value_error
  returned (kind, false)

abbrev pub validate_pairs :
    Option Kind
    → Bool
    → Option (ModelContract × Lineage)
    → Option (ModelContract × Lineage)
    → Result (Kind × Bool)
validate_pairs requested allow (some (m, l)) (some (n, r)) = validate_complete requested m l n r
validate_pairs requested allow none _ = validate_missing (chosen_kind requested comparison) allow
validate_pairs requested allow (some _) none =
    validate_missing (chosen_kind requested comparison) allow

-- The kind of the transition, and whether the lineage has been verified.
unfoldable pub validate_transition : Stage → Stage → Option Kind → Bool → Result (Kind × Bool)
validate_transition left right requested allow =
    validate_pairs requested allow left.identity right.identity
