-- ===== src/Chain/Runs.antt =====
-- Transitions and a chain of two stages.
use dfine_cpp.Common.{
  ◌≤◌, length, map, true, false, Option, none, some, List, [], ◌∷◌, Text, text_eq, codes, ◌≡◌, refl,
}
use dfine_cpp.Common.Int.{ints_eq, negated}
use dfine_cpp.Common.Result.{Result, returned, failed}
use dfine_cpp.Json.{find}
use dfine_cpp.Json.Number.{one, bits, round_magnitude, overflow, fuel, float_of}
use dfine_cpp.Json.Same.{same}
use dfine_cpp.Chain.Require.{
  require_exact_keys, require_fields, require_int, require_metric, require_probability,
  require_nonempty_string, require_nonnegative_number, is_sha256, require_sha256,
  require_area_counts,
}
use dfine_cpp.Chain.GroundTruth.{validate_ground_truth, read_rows}
use dfine_cpp.Chain.Metrics.{
  extract_metrics, read_metrics, integers, read_max_dets, read_classes, insert_row, sort_rows,
  read_per_class, class_total, check_model_geometry,
}
use dfine_cpp.Chain.Data.{report}
use dfine_cpp.Chain.Compare.{
  metric_delta, metric_deltas, agrees, assert_comparable, same_classes, deltas, class_deltas,
}
use dfine_cpp.Json.Number.{minus}
use dfine_cpp.Chain.Data.{hash_of}
use dfine_cpp.Chain.Model.{ModelContract, stretch_preprocess}
use dfine_cpp.Chain.Lineage.{onnx, engine, Lineage}
use dfine_cpp.Chain.Transition.{Stage, runtime, validate_transition}
use dfine_cpp.Chain.Verified.{Outcome, validate_transition-Outcome}
use dfine_cpp.Chain.Protocol.{validate_contract, validate_geometry}
use dfine_cpp.Chain.Select.{StageSpec, select_metrics, read_artifact, protocol_manifest}
use dfine_cpp.Chain.Report.{
  Report, build_report, load_stages, load_stage, has_repeats, compare_all, first_manifest,
  manifest_paths, transitions_from,
}
use dfine_cpp.Chain.Linked.{IsChain, build_report-IsChain}
use dfine_cpp.Publish.{FilePath}
use dfine_cpp.Reports.Atomic.{Place, Events, absent}
use dfine_cpp.Chain.Run.{Args, Environment, run}
use dfine_cpp.Chain.Ran.{RunOutcome, run-RunOutcome}
use dfine_cpp.Chain.Decode.{Raw, add, unique_object, decode}
use dfine_cpp.Chain.Decoded.{raw_of}
use dfine_cpp.Chain.Tests.{extracted}

abbrev model : ModelContract
model = record {
  variant = codes "s";
  input_h = 640;
  input_w = 640;
  num_classes = 80;
  initial_queries = 300;
  num_queries = 100;
  eval_idx = 2;
  cascade = some (codes "1:100");
  checkpoint_sha256 = hash_of b'e';
  preprocess = stretch_preprocess;
}

abbrev graph_origin : Lineage
graph_origin = record {
  artifact_kind = onnx;
  precision_mode = codes "fp16";
  checkpoint_sha256 = hash_of b'e';
  artifact_sha256 = hash_of b'd';
  onnx_sha256 = none;
  source_onnx_sha256 = none;
}

abbrev engine_origin : Lineage
engine_origin = record {
  artifact_kind = engine;
  precision_mode = codes "fp16";
  checkpoint_sha256 = hash_of b'e';
  artifact_sha256 = hash_of b'f';
  onnx_sha256 = some (hash_of b'd');
  source_onnx_sha256 = none;
}

abbrev stage_of : Text → Lineage → Stage
stage_of label origin = record {
  name = label;
  backend = codes "b";
  artifact = record {
    kind = codes "k";
    sha256 = origin.artifact_sha256;
    recipe = codes "r";
    runtime = codes "t";
  };
  identity = some (model, origin);
  metrics = extracted;
}

runtime_transition :
    validate_transition
      (stage_of (codes "a") graph_origin)
      (stage_of (codes "b") engine_origin)
      (some runtime)
      false
    ≡ returned (runtime, true)
unfolding validate_transition text_eq same find one
runtime_transition = refl

validate_transition-Outcome_example :
    Outcome runtime true false (some (model, graph_origin)) (some (model, engine_origin))
validate_transition-Outcome_example =
    validate_transition-Outcome (stage_of (codes "a") graph_origin)
      (stage_of (codes "b") engine_origin) (some runtime) false true runtime runtime_transition

abbrev documents : Text → Option Raw
documents path = some (raw_of report)

abbrev spec_of : Text → StageSpec
spec_of label = record { name = label; report = codes "r.json"; selector = none }

abbrev specs : List StageSpec
specs = spec_of (codes "a") ∷ spec_of (codes "b") ∷ []

abbrev report_or : Report → Result Report → Report
report_or r (returned s) = s
report_or r (failed e) = r

abbrev no_report : Report
no_report = record { protocol = none; stages = []; transitions = [] }

abbrev built : Report
built = report_or no_report (build_report documents specs [] [] true)

report_builds : build_report documents specs [] [] true ≡ returned built
unfolding build_report load_stages load_stage validate_contract validate_geometry select_metrics
    read_artifact protocol_manifest has_repeats decode raw_of unique_object add require_fields
    require_int require_exact_keys find text_eq require_metric require_probability
    require_nonempty_string require_sha256 is_sha256 require_nonnegative_number
    validate_ground_truth read_rows extract_metrics read_metrics one bits round_magnitude overflow
    fuel float_of same read_max_dets integers ints_eq read_per_class read_classes insert_row
    sort_rows class_total check_model_geometry require_area_counts compare_all assert_comparable
    agrees same_classes first_manifest manifest_paths transitions_from validate_transition deltas
    class_deltas metric_deltas metric_delta minus negated
report_builds = refl

build_report-IsChain_example :
    (2 ≤ length specs)
    × (has_repeats (map (λ (s : StageSpec). s.name) specs) ≡ false)
    × (load_stages documents specs ≡ returned built.stages)
    × IsChain true built.stages built.transitions
build_report-IsChain_example = build_report-IsChain documents specs [] [] true built report_builds

abbrev file_path : Text → FilePath
file_path s = record { parent = codes "/r"; name = s }

abbrev environment : Environment
environment = record {
  paths = record { resolve = λ p. p; exists = λ p. true; same_file = λ p q. some false };
  path_of = file_path;
  documents = documents;
  encode = λ r. returned (codes "{}");
}

abbrev run_args : Args
run_args = record {
  output = file_path (codes "chain.json");
  stages = specs;
  labels = [];
  kinds = [];
  allow_missing_lineage = true;
  overwrite = false;
}

abbrev calm : Events
calm = record {
  create_fails = false;
  write_fails = false;
  publish_fails = false;
  unlink_fails = false;
  arrival = none;
}

abbrev no_output : Place
no_output = record { target = absent; temporary = none }

run-RunOutcome_example :
    RunOutcome environment run_args calm no_output (run environment run_args calm no_output)
run-RunOutcome_example = run-RunOutcome environment run_args calm no_output refl
