-- ===== src/Builder/Tests.antt =====
-- The checks around a build, run on concrete profiles, engines and paths.
use dfine_cpp.Common.{
  String, ◌≡◌, refl, ◌↔◌, true, false, Bool-cases, inl, inr, none, some, List, [], ◌∷◌, text_eq,
  codes, if◌then◌else◌,
}
use dfine_cpp.Common.Int.{ℤ, pos, negsuc, ints_eq}
use dfine_cpp.Common.Result.{returned, failed, system_exit}
use dfine_cpp.Publish.{FilePath, distinct, stale_list}
use dfine_cpp.Builder.Profile.{
  validate_batch_profile, validate_cli_profile, graph_policy,
  validate_cli_profile-validate_batch_profile,
}
use dfine_cpp.Builder.Options.{BuildArgs, count, check_build, AreAccepted, check_build_iff}
use dfine_cpp.Builder.Engine.{
  EngineView, BatchFacts, engine_batch_facts, shapes_eq, Conforms, facts_for,
  engine_batch_facts_iff,
}
use dfine_cpp.Builder.Paths.{last_dot, split_suffix, with_suffix, renamed}
use dfine_cpp.Builder.Plan.{
  Plan, collides, usable_candidates, engine_sidecar_plan, validated_artifact_plan, IsSidecarPlan,
}
use dfine_cpp.Builder.Layout.{
  IsArtifactPlan, engine_sidecar_plan-IsSidecarPlan, validated_artifact_plan-IsArtifactPlan,
  validated_artifact_plan-distinct,
}

refuses_static : validate_batch_profile (pos 8) (pos 8) (pos 8) ≡ failed system_exit
unfolding validate_batch_profile
refuses_static = refl

validate_cli_profile-validate_batch_profile_example :
    validate_cli_profile (pos 4) (pos 8) ≡ validate_batch_profile (pos 1) (pos 4) (pos 8)
validate_cli_profile-validate_batch_profile_example =
    validate_cli_profile-validate_batch_profile (pos 4) (pos 8)

refuses_streams : graph_policy (some (pos 1)) true ≡ failed system_exit
unfolding graph_policy
refuses_streams = refl

abbrev chw : List ℤ
chw = pos 3 ∷ pos 640 ∷ pos 640 ∷ []

abbrev built : EngineView
built = record {
  num_optimization_profiles = 1;
  tensor_shape = negsuc 0 ∷ chw;
  profile_shapes = (pos 1 ∷ chw) ∷ (pos 4 ∷ chw) ∷ (pos 8 ∷ chw) ∷ [];
}

abbrev facts : BatchFacts
facts = record { dynamic_batch = true; min_batch = pos 1; opt_batch = pos 4; max_batch = pos 8 }

engine_batch_facts_iff_example :
    (engine_batch_facts built chw (pos 1, pos 4, pos 8) ≡ returned facts) ↔ (
      (c : Conforms built chw (pos 1, pos 4, pos 8)) × (facts
        ≡ facts_for c.batch (pos 1, pos 4, pos 8)))
engine_batch_facts_iff_example = engine_batch_facts_iff built chw (pos 1, pos 4, pos 8) facts

reads_facts : engine_batch_facts built chw (pos 1, pos 4, pos 8) ≡ returned facts
unfolding engine_batch_facts ints_eq shapes_eq
reads_facts = refl

abbrev path : String → FilePath
path s = record { parent = codes "/m"; name = codes s }

-- A directory in which one name is a symbolic link to the source's metadata.
abbrev links : FilePath → FilePath
links p = if text_eq p.name (codes "e.json") then renamed p (codes "m.json") else p

links_idempotent : (p : FilePath) → links (links p) ≡ links p
unfolding text_eq
links_idempotent p = elim (Bool-cases (text_eq p.name (codes "e.json"))) [
  | inl h ↦ rw h refl
  | inr h ↦ rw (h, h) refl
]

abbrev plan : Plan
plan = (path "e.engine.json", none)

accepted : validated_artifact_plan links (path "m.onnx") (path "e.engine") ≡ returned plan
unfolding validated_artifact_plan engine_sidecar_plan usable_candidates collides with_suffix
    split_suffix last_dot text_eq
accepted = refl

planned : engine_sidecar_plan links (path "m.onnx") (path "e.engine") ≡ returned plan
unfolding engine_sidecar_plan usable_candidates with_suffix split_suffix last_dot text_eq
planned = refl

engine_sidecar_plan-IsSidecarPlan_example :
    IsSidecarPlan links (links (path "m.onnx")) (links (path "e.engine")) plan
engine_sidecar_plan-IsSidecarPlan_example =
    engine_sidecar_plan-IsSidecarPlan links (path "m.onnx") (path "e.engine") plan planned

validated_artifact_plan-IsArtifactPlan_example :
    IsArtifactPlan links (links (path "m.onnx")) (links (path "e.engine")) plan
validated_artifact_plan-IsArtifactPlan_example =
    validated_artifact_plan-IsArtifactPlan links links_idempotent (path "m.onnx") (path "e.engine")
      plan accepted

validated_artifact_plan-distinct_example :
    distinct (links (path "e.engine") ∷ plan.0 ∷ stale_list plan.1) ≡ true
validated_artifact_plan-distinct_example =
    validated_artifact_plan-distinct links links_idempotent (path "m.onnx") (path "e.engine") plan
      accepted

abbrev build_args : BuildArgs
build_args = record {
  min_batch = pos 1;
  opt_batch = pos 4;
  max_batch = pos 8;
  fp16 = true;
  fp16_decoder_fp32 = false;
  bf16_decoder_fp32 = false;
  int8 = false;
  strongly_typed = true;
  max_aux_streams = none;
  cuda_graph = true;
}

check_build_iff_example :
    (check_build build_args ≡ returned (some (pos 0))) ↔ AreAccepted build_args (some (pos 0))
check_build_iff_example = check_build_iff build_args (some (pos 0))

accepts_args : check_build build_args ≡ returned (some (pos 0))
unfolding check_build count validate_batch_profile graph_policy
accepts_args = refl
