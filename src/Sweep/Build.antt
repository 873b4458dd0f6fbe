-- ===== src/Sweep/Build.antt =====
-- `run_builds` of trt-files/scripts/preset_sweep.py. The hash of a file, whether an output is there
-- with the metadata expected, and the command line of a tool are parameters; what they depend on
-- on disk is a function of the number of steps begun.
use dfine_cpp.Common.{
  ℕ, Bool, true, false, Option, none, some, List, [], ◌∷◌, ◌++◌, Text, codes, ◌&&◌, if◌then◌else◌,
}
use dfine_cpp.Common.Decimal.{decimal}
use dfine_cpp.Common.Result.{Result, returned, failed, key_error, ◌>>=◌}
use dfine_cpp.Sweep.Point.{Point, Mode, enqueue, graph_mode, Profile, eval_key, build_key}
use dfine_cpp.Sweep.Runner.{Step, Dict, find, is_in, Runner, inherit, guarded}

-- A value that a sidecar is expected to have.
pub data Value : Type 0 where
  text : Text → Value
  number : ℕ → Value
  flag : Bool → Value
  null : Value

abbrev pub is_graph_mode : Mode → Bool
is_graph_mode enqueue = false
is_graph_mode graph_mode = true

-- What the environment answers, after so many steps.
pub record Environment : Type 0 where
  pub succeeds : Step → Bool
  pub is_file : ℕ → Text → Bool
  pub sha256 : ℕ → Text → Text
  pub sidecar_matches : ℕ → Text → Dict Value → Bool
  pub tool : Text → List Text
  pub engine_path : Text → Text
  pub sidecar_path : Text → Text

module _ (env : Environment) where
  abbrev pub expected_facts : Text → Profile → Mode → Dict Value
  expected_facts sha profile mode =
      (codes "onnx_sha256", text sha)
      ∷ (codes "min_batch", number profile.minimum)
      ∷ (codes "opt_batch", number profile.optimum)
      ∷ (codes "max_batch", number profile.maximum)
      ∷ (codes "cuda_graph_compat", flag (is_graph_mode mode))
      ∷ []

  abbrev pub build_argv : Text → Text → Profile → Mode → List Text
  build_argv onnx engine profile mode =
      env.tool (codes "build_engine.py")
      ++ (codes "--onnx"
          ∷ onnx
          ∷ codes "--output"
          ∷ engine
          ∷ codes "--strongly-typed"
          ∷ codes "--no-tf32"
          ∷ codes "--min-batch"
          ∷ decimal profile.minimum
          ∷ codes "--opt-batch"
          ∷ decimal profile.optimum
          ∷ codes "--max-batch"
          ∷ decimal profile.maximum
          ∷ (if is_graph_mode mode then codes "--cuda-graph" ∷ [] else []))

  abbrev pub source_sha : Runner → Text → Text
  source_sha r onnx = if env.is_file r.index onnx then env.sha256 r.index onnx else codes "missing"

  -- Whether the engine is there and was built from this source for this profile and mode.
  abbrev pub is_cached : Point → Text → Runner → Bool
  is_cached p onnx r =
      let engine = env.engine_path (build_key p) in
      env.is_file r.index engine
      && env.sidecar_matches r.index (env.sidecar_path engine)
          (expected_facts (source_sha r onnx) p.profile p.mode)

  -- The end of a round, by whether the failure of the source is passed on.
  abbrev pub build_or_skip : Point → Text → Runner → Bool × Runner → Result Runner
  build_or_skip p onnx before (true, r) = returned r
  build_or_skip p onnx before (false, r) =
      guarded env.succeeds (build_key p) (codes "build." ++ build_key p)
        (build_argv onnx (env.engine_path (build_key p)) p.profile p.mode) (is_cached p onnx before)
        r
      >>= λ x. returned x.1

  abbrev pub build_point : Point → Text → Runner → Result Runner
  build_point p onnx r = build_or_skip p onnx r (inherit (build_key p) (eval_key p ∷ []) r)

  abbrev pub build_from : Point → Option Text → Runner → Result Runner
  build_from p none r = failed key_error
  build_from p (some onnx) r = build_point p onnx r

  -- The engines by build key, and the runner.
  unfoldable pub run_builds :
      List Point → Dict Text → Dict Text → Runner → Result (Dict Text × Runner)
  run_builds [] artifacts engines r = returned (engines, r)
  run_builds (p ∷ ps) artifacts engines r =
      if is_in (build_key p) engines
      then run_builds ps artifacts engines r
      else (build_from p (find (eval_key p) artifacts) r
          >>= run_builds ps artifacts
              (engines ++ ((build_key p, env.engine_path (build_key p)) ∷ [])))
