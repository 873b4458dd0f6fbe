-- ===== src/Chain/Lineage.antt =====
-- `_validate_lineage`: the record of an artifact's origin, checked against its contract.
use dfine_cpp.Common.{
  Bool, true, false, not, Option, none, some, List, [], ◌∷◌, ◌++◌, Text, codes, text_eq,
  if◌then◌else◌,
}
use dfine_cpp.Common.Result.{Result, returned, value_error, ◌>>=◌, ◌>>◌, refuse_if}
use dfine_cpp.Json.{Value, Fields, get, has_key}
use dfine_cpp.Chain.Require.{
  require_object, require_exact_keys, require_sha256, require_nonempty_string, require_at,
}
use dfine_cpp.Chain.Model.{ModelContract, require_member}

pub data ArtifactKind : Type 0 where
  checkpoint onnx engine : ArtifactKind

-- The checked fields of an artifact record.
pub record Artifact : Type 0 where
  pub kind : Text
  pub sha256 : Text
  pub recipe : Text
  pub runtime : Text

pub record Lineage : Type 0 where
  pub artifact_kind : ArtifactKind
  pub precision_mode : Text
  pub checkpoint_sha256 : Text
  pub artifact_sha256 : Text
  pub onnx_sha256 : Option Text
  pub source_onnx_sha256 : Option Text

abbrev pub kind_of : Text → ArtifactKind
kind_of s =
    if text_eq s (codes "checkpoint")
    then checkpoint
    else if text_eq s (codes "onnx")
    then onnx
    else engine

abbrev artifact_kinds : List Text
artifact_kinds = codes "checkpoint" ∷ codes "onnx" ∷ codes "engine" ∷ []

-- The kind that the artifact record has for the lineage's kind.
abbrev pub recorded_kind : ArtifactKind → Text
recorded_kind checkpoint = codes "checkpoint"
recorded_kind onnx = codes "onnx"
recorded_kind engine = codes "tensorrt_engine"

abbrev base_fields : List Text
base_fields =
    codes "artifact_kind"
    ∷ codes "precision_mode"
    ∷ codes "checkpoint_sha256"
    ∷ codes "artifact_sha256"
    ∷ []

abbrev engine_fields : ArtifactKind → List Text
engine_fields engine = codes "onnx_sha256" ∷ []
engine_fields _ = []

abbrev source_fields : Bool → List Text
source_fields true = codes "source_onnx_sha256" ∷ []
source_fields false = []

abbrev lineage_fields : ArtifactKind → Bool → List Text
lineage_fields k sourced = base_fields ++ (engine_fields k ++ source_fields sourced)

abbrev some_hash : Text → Fields → Result (Option Text)
some_hash k fs = require_at require_sha256 k fs >>= λ h. returned (some h)

abbrev engine_hash : ArtifactKind → Fields → Result (Option Text)
engine_hash engine fs = some_hash (codes "onnx_sha256") fs
engine_hash _ fs = returned none

abbrev source_hash : Bool → Fields → Result (Option Text)
source_hash true fs = some_hash (codes "source_onnx_sha256") fs
source_hash false fs = returned none

-- A checkpoint is its own artifact, in fp32.
abbrev check_checkpoint : ArtifactKind → Text → Text → Text → Result (Unit {0})
check_checkpoint checkpoint precision artifact_hash checkpoint_hash = do
  refuse_if (not (text_eq precision (codes "fp32"))) value_error
  refuse_if (not (text_eq artifact_hash checkpoint_hash)) value_error
check_checkpoint _ precision artifact_hash checkpoint_hash = returned tt

abbrev pub read_lineage : ArtifactKind → ModelContract → Artifact → Fields → Result Lineage
read_lineage k contract artifact fs = do
  let sourced = has_key (codes "source_onnx_sha256") fs
  require_exact_keys (lineage_fields k sourced) fs
  precision ← require_at require_nonempty_string (codes "precision_mode") fs
  checkpoint_hash ← require_at require_sha256 (codes "checkpoint_sha256") fs
  artifact_hash ← require_at require_sha256 (codes "artifact_sha256") fs
  onnx_hash ← engine_hash k fs
  source ← source_hash sourced fs
  refuse_if (not (text_eq checkpoint_hash contract.checkpoint_sha256)) value_error
  refuse_if (not (text_eq artifact_hash artifact.sha256)) value_error
  refuse_if (not (text_eq artifact.kind (recorded_kind k))) value_error
  check_checkpoint k precision artifact_hash checkpoint_hash
  returned (record {
    artifact_kind = k;
    precision_mode = precision;
    checkpoint_sha256 = checkpoint_hash;
    artifact_sha256 = artifact_hash;
    onnx_sha256 = onnx_hash;
    source_onnx_sha256 = source;
  })

unfoldable pub validate_lineage : ModelContract → Artifact → Value → Result Lineage
validate_lineage contract artifact value = do
  fs ← require_object value
  name ← require_member artifact_kinds (get (codes "artifact_kind") fs)
  read_lineage (kind_of name) contract artifact fs
