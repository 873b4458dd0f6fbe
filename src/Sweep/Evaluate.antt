-- ===== src/Sweep/Evaluate.antt =====
-- `eval_engine_for`, `run_evals` and `run_chains` of trt-files/scripts/preset_sweep.py, the steps of
-- a sweep that measure accuracy. What a report on disk records is a parameter, by the number of
-- steps begun.
use dfine_cpp.Common.{
  ℕ, ◌+◌, Bool, true, false, not, Option, none, some, List, [], ◌∷◌, ◌++◌, Text, text_eq, codes,
  ◌&&◌, if◌then◌else◌, leb, ◌==◌,
}
use dfine_cpp.Common.Decimal.{decimal}
use dfine_cpp.Common.Result.{Result, returned, failed, key_error, index_error, ◌>>=◌}
use dfine_cpp.Sweep.Point.{Point, Profile, eval_key, build_key}
use dfine_cpp.Sweep.Runner.{Step, Dict, find, is_in, Runner, inherit, guarded}
use dfine_cpp.Sweep.Build.{Environment, is_graph_mode}
use dfine_cpp.Sweep.Export.{Args}

abbrev pub is_default_profile : Profile → Bool
is_default_profile p = p.minimum == 1 && (p.optimum == 1 && p.maximum == 8)

abbrev pub is_preferred : Point → Bool
is_preferred p = is_default_profile p.profile && not (is_graph_mode p.mode)

-- The sort key, a pair of truth values in their lexicographic order, as a number.
unfoldable pub rank : Dict Step → Point → ℕ
rank failures p =
    (if is_in (build_key p) failures then 2 else 0) + (if is_preferred p then 0 else 1)

unfoldable pub candidates_for : Text → List Point → List Point
candidates_for key [] = []
candidates_for key (p ∷ ps) =
    let rest = candidates_for key ps in if text_eq (eval_key p) key then p ∷ rest else rest

-- `candidates.sort`: a point stays before those of its rank that come after it.
unfoldable pub insert_point : Dict Step → Point → List Point → List Point
insert_point failures p [] = p ∷ []
insert_point failures p (q ∷ qs) =
    let rest = insert_point failures p qs in
    if leb (rank failures p) (rank failures q) then p ∷ q ∷ qs else q ∷ rest

unfoldable pub sort_points : Dict Step → List Point → List Point
sort_points failures [] = []
sort_points failures (p ∷ ps) = insert_point failures p (sort_points failures ps)

abbrev pub engine_of : Point → Option Text → Result (Text × Text)
engine_of p none = failed key_error
engine_of p (some engine) = returned (engine, build_key p)

abbrev pub first_engine : Dict Text → List Point → Result (Text × Text)
first_engine engines [] = failed index_error
first_engine engines (p ∷ _) = engine_of p (find (build_key p) engines)

-- The engine that the accuracy of a target is measured on, and the key of its build.
unfoldable pub eval_engine_for : List Point → Point → Dict Text → Dict Step → Result (Text × Text)
eval_engine_for points target engines failures =
    first_engine engines (sort_points failures (candidates_for (eval_key target) points))

-- The images and annotations of the command line.
pub record Dataset : Type 0 where
  pub images : Text
  pub annotations : Text

-- The hashes in a report: of the engine's artifact and of the annotations, where it has them.
pub record Recorded : Type 0 where
  pub engine_sha256 : Option Text
  pub annotations_sha256 : Option Text

abbrev pub is_hash : Option Text → Text → Bool
is_hash none sha = false
is_hash (some s) sha = text_eq s sha

module _ (env : Environment) (args : Args) (dataset : Dataset)
    (recorded : ℕ → Text → Recorded) where
  abbrev pub report_path : Text → Text → Text
  report_path key name = args.out ++ (codes "/reports/" ++ (key ++ (codes "/" ++ name)))

  abbrev pub accuracy_path : Point → Text
  accuracy_path p = report_path (eval_key p) (codes "accuracy.json")

  -- Whether the report there is of this engine and these annotations.
  abbrev pub is_evaluated : Text → Point → Text → Runner → Bool
  is_evaluated annotations_sha p engine r =
      let report = recorded r.index (accuracy_path p) in
      (if env.is_file r.index engine
        then is_hash report.engine_sha256 (env.sha256 r.index engine)
        else false)
      && is_hash report.annotations_sha256 annotations_sha

  abbrev pub eval_argv : Point → Text → Text → List Text
  eval_argv p onnx engine =
      env.tool (codes "coco_eval.py")
      ++ (codes "--backends"
          ∷ codes "onnx"
          ∷ codes "engine"
          ∷ codes "--model-name"
          ∷ args.model_name
          ∷ codes "--num-classes"
          ∷ decimal args.num_classes
          ∷ codes "--onnx"
          ∷ onnx
          ∷ codes "--engine"
          ∷ engine
          ∷ codes "--images"
          ∷ dataset.images
          ∷ codes "--ann"
          ∷ dataset.annotations
          ∷ codes "--report"
          ∷ accuracy_path p
          ∷ codes "--overwrite"
          ∷ [])

  -- `artifacts[point.eval_key]`, and the step that evaluates it.
  abbrev pub eval_from : Text → Point → Text → Option Text → Runner → Result Runner
  eval_from annotations_sha p engine none r = failed key_error
  eval_from annotations_sha p engine (some onnx) r =
      guarded env.succeeds (eval_key p) (codes "eval." ++ eval_key p) (eval_argv p onnx engine)
        (is_evaluated annotations_sha p engine r) r
      >>= λ x. returned x.1

  abbrev pub eval_or_skip : Text → Point → Text → Dict Text → Bool × Runner → Result Runner
  eval_or_skip annotations_sha p engine artifacts (true, r) = returned r
  eval_or_skip annotations_sha p engine artifacts (false, r) =
      eval_from annotations_sha p engine (find (eval_key p) artifacts) r

  abbrev pub eval_point : Text → List Point → Dict Text → Dict Text → Point → Runner → Result Runner
  eval_point annotations_sha points artifacts engines p r =
      eval_engine_for points p engines r.failures >>= λ x.
      eval_or_skip annotations_sha p x.0 artifacts (inherit (eval_key p) (x.1 ∷ []) r)

  -- The loop of `run_evals`: the reports by key, and the runner.
  unfoldable pub eval_points :
      Text
      → List Point
      → Dict Text
      → Dict Text
      → List Point
      → Dict Text
      → Runner
      → Result (Dict Text × Runner)
  eval_points sha points artifacts engines [] reports r = returned (reports, r)
  eval_points sha points artifacts engines (p ∷ ps) reports r =
      if is_in (eval_key p) reports
      then eval_points sha points artifacts engines ps reports r
      else (eval_point sha points artifacts engines p r
          >>= eval_points sha points artifacts engines ps
              (reports ++ ((eval_key p, accuracy_path p) ∷ [])))

  abbrev pub run_evals : List Point → Dict Text → Dict Text → Runner → Result (Dict Text × Runner)
  run_evals points artifacts engines r =
      eval_points (env.sha256 r.index dataset.annotations) points artifacts engines points [] r
