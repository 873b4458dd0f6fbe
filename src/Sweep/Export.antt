-- ===== src/Sweep/Export.antt =====
-- `run_exports` and `run_converts` of trt-files/scripts/preset_sweep.py, the steps before the
-- builds. The environment is that of the builds.
use dfine_cpp.Common.{
  ℕ, Bool, true, false, Option, none, some, List, [], ◌∷◌, ◌++◌, Text, codes, ◌&&◌, if◌then◌else◌,
}
use dfine_cpp.Common.Decimal.{decimal, value}
use dfine_cpp.Common.Split.{split}
use dfine_cpp.Common.Result.{Result, returned, failed, key_error, ◌>>=◌}
use dfine_cpp.Sweep.Point.{
  Point, Graph, Precision, slim, fp32, queries_or_default, graph_key, eval_key,
}
use dfine_cpp.Sweep.Runner.{Dict, find, is_in, Runner, inherit, guarded}
use dfine_cpp.Sweep.Build.{Value, text, number, null, Environment, run_builds}

-- The options of the command line that the steps use.
pub record Args : Type 0 where
  pub out : Text
  pub checkpoint : Text
  pub model_name : Text
  pub num_classes : ℕ
  pub class_names : Option Text

-- `cascade.split(":")[1]`, of a cascade that has a colon.
abbrev second : List Text → Text
second (_ ∷ keep ∷ _) = keep
second _ = []

abbrev pub output_queries : Graph → ℕ
output_queries g = elim g.cascade [
  | none ↦ queries_or_default g
  | some s ↦ value (second (split b':' s))
]

abbrev option_args : Text → Option Text → List Text
option_args option none = []
option_args option (some s) = option ∷ s ∷ []

abbrev decimal_option : Option ℕ → Option Text
decimal_option none = none
decimal_option (some n) = some (decimal n)

abbrev pub graph_export_args : Graph → List Text
graph_export_args g =
    option_args (codes "--num-queries") (decimal_option g.queries)
    ++ (option_args (codes "--cascade") g.cascade
        ++ option_args (codes "--eval-idx") (decimal_option g.eval_idx))

abbrev text_or_null : Option Text → Value
text_or_null none = null
text_or_null (some s) = text s

abbrev eval_idx_fact : Option ℕ → Dict Value
eval_idx_fact none = []
eval_idx_fact (some n) = (codes "eval_idx", number n) ∷ []

module _ (env : Environment) (args : Args) where
  abbrev pub onnx_path : Text → Text → Text
  onnx_path key name = args.out ++ (codes "/graphs/" ++ (key ++ (codes "/" ++ name)))

  abbrev pub fp32_path : Point → Text
  fp32_path p = onnx_path (graph_key p) (codes "model_fp32.onnx")

  -- The metadata that an export of the graph has.
  abbrev pub expected_export : Text → Graph → Dict Value
  expected_export checkpoint_sha g =
      (codes "checkpoint_sha256", text checkpoint_sha)
      ∷ (codes "num_queries", number (output_queries g))
      ∷ (codes "num_classes", number args.num_classes)
      ∷ (codes "variant", text args.model_name)
      ∷ (codes "cascade", text_or_null g.cascade)
      ∷ (
        codes "cascade_initial_queries",
        elim g.cascade [ none ↦ null | some _ ↦ number (queries_or_default g) ],
      )
      ∷ eval_idx_fact g.eval_idx

  abbrev pub export_argv : Graph → Text → List Text
  export_argv g onnx =
      env.tool (codes "export_dfine_onnx.py")
      ++ (codes "--model-name"
          ∷ args.model_name
          ∷ codes "--checkpoint"
          ∷ args.checkpoint
          ∷ codes "--opset"
          ∷ codes "19"
          ∷ codes "--num-classes"
          ∷ decimal args.num_classes
          ∷ (option_args (codes "--class-names") args.class_names
              ++ (graph_export_args g ++ (codes "--output" ∷ onnx ∷ []))))

  abbrev pub export_point : Text → Point → Runner → Result Runner
  export_point checkpoint_sha p r =
      let onnx = fp32_path p in
      guarded env.succeeds (graph_key p) (codes "export." ++ graph_key p) (export_argv p.graph onnx)
        (env.is_file r.index onnx
          && env.sidecar_matches r.index (env.sidecar_path onnx)
              (expected_export checkpoint_sha p.graph))
        r
      >>= λ x. returned x.1

  -- The loop of `run_exports`: the graphs by key, and the runner.
  unfoldable pub export_points :
      Text → List Point → Dict Text → Runner → Result (Dict Text × Runner)
  export_points sha [] exports r = returned (exports, r)
  export_points sha (p ∷ ps) exports r =
      if is_in (graph_key p) exports
      then export_points sha ps exports r
      else (export_point sha p r
          >>= export_points sha ps (exports ++ ((graph_key p, fp32_path p) ∷ [])))

  abbrev pub run_exports : List Point → Runner → Result (Dict Text × Runner)
  run_exports points r = export_points (env.sha256 r.index args.checkpoint) points [] r

  abbrev pub slim_path : Point → Text
  slim_path p = onnx_path (graph_key p) (codes "model_slim.onnx")

  abbrev pub convert_argv : Text → Text → List Text
  convert_argv source output =
      env.tool (codes "convert_fp16_surgical.py")
      ++ (codes "--onnx" ∷ source ∷ codes "--output" ∷ output ∷ codes "--slim" ∷ [])

  abbrev pub convert_slim : Point → Text → Runner → Result (Text × Runner)
  convert_slim p source r =
      let output = slim_path p in
      guarded env.succeeds (eval_key p) (codes "convert." ++ eval_key p)
        (convert_argv source output)
        (env.is_file r.index output
          && env.sidecar_matches r.index (env.sidecar_path output)
              ((codes "source_onnx_sha256", text (env.sha256 r.index source)) ∷ []))
        r
      >>= λ x. returned (output, x.1)

  -- The artifact of a round: the export itself if it has failed or is wanted as it is.
  abbrev pub convert_as : Point → Text → Precision → Bool × Runner → Result (Text × Runner)
  convert_as p source precision (true, r) = returned (source, r)
  convert_as p source fp32 (false, r) = returned (source, r)
  convert_as p source slim (false, r) = convert_slim p source r

  abbrev pub convert_from : Point → Option Text → Runner → Result (Text × Runner)
  convert_from p none r = failed key_error
  convert_from p (some source) r =
      convert_as p source p.precision (inherit (eval_key p) (graph_key p ∷ []) r)

  unfoldable pub run_converts :
      List Point → Dict Text → Dict Text → Runner → Result (Dict Text × Runner)
  run_converts [] exports artifacts r = returned (artifacts, r)
  run_converts (p ∷ ps) exports artifacts r =
      if is_in (eval_key p) artifacts
      then run_converts ps exports artifacts r
      else (convert_from p (find (graph_key p) exports) r >>= λ x.
          run_converts ps exports (artifacts ++ ((eval_key p, x.0) ∷ [])) x.1)

  -- The steps of `main` up to the engines.
  unfoldable pub run_pipeline : List Point → Runner → Result (Dict Text × Runner)
  run_pipeline points r = do
    (exports, r1) ← run_exports points r
    (artifacts, r2) ← run_converts points exports [] r1
    run_builds env points artifacts [] r2
