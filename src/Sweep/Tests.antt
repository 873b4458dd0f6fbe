-- ===== src/Sweep/Tests.antt =====
-- Specifications that are read, and builds of a small sweep.
use dfine_cpp.Common.{
  ℕ, ◌≡◌, refl, true, false, none, some, List, [], ◌∷◌, ◌++◌, Text, text_eq, codes, All, ◌==◌,
}
use dfine_cpp.Common.Decimal.{digits, value_from}
use dfine_cpp.Common.Split.{partition, split}
use dfine_cpp.Common.Result.{Result, returned, failed, system_exit}
use dfine_cpp.Sweep.Point.{fp32, graph_mode, Profile, Point, graph_key, eval_key, build_key}
use dfine_cpp.Sweep.Options.{lookup, without, parse_options}
use dfine_cpp.Sweep.Parse.{parse_profile, preset_graph, choose_graph, point_of, parse_point}
use dfine_cpp.Sweep.Parts.{settings}
use dfine_cpp.Sweep.Keys.{eval_key-injective}
use dfine_cpp.Sweep.Points.{
  IsOrdered, IsPoint, parse_profile-IsOrdered, parse_point-IsPoint, parse_point-build_key,
}
use dfine_cpp.Sweep.Runner.{
  Step, Runner, Dict, find, is_in, inherit, guarded, logged, next_step, marked,
}
use dfine_cpp.Sweep.Build.{Environment, build_point, run_builds}
use dfine_cpp.Sweep.Accounts.{Later, IsAccounted, IsGuarded, guarded-IsGuarded}
use dfine_cpp.Sweep.Builds.{build_point_inherits, run_builds-IsAccounted}
use dfine_cpp.Sweep.Export.{Args, run_pipeline}
use dfine_cpp.Sweep.Returns.{run_pipeline-Returns}
use dfine_cpp.Sweep.Progress.{Returns}
use dfine_cpp.Sweep.Select.{
  specs_of, parse_points, has_duplicate, find_point, resolve_points, AreParsed, HaveDistinctNames,
  IsBaseline, resolve_points_lem,
}
use dfine_cpp.Sweep.Once.{AreOnce, run_builds-AreOnce}

abbrev profile : ℕ → ℕ → ℕ → Profile
profile a b c = record { minimum = a; optimum = b; maximum = c }

read : parse_profile (codes "1/4/16") ≡ returned (profile 1 4 16)
unfolding parse_profile split value_from
read = refl

parse_profile-IsOrdered_example : IsOrdered (profile 1 4 16)
parse_profile-IsOrdered_example = parse_profile-IsOrdered (codes "1/4/16") (profile 1 4 16) read

abbrev point : Point
point = record {
  name = codes "mine";
  graph = record { queries = some 200; cascade = some (codes "1:100"); eval_idx = none };
  precision = fp32;
  profile = profile 1 8 8;
  mode = graph_mode;
}

abbrev spec : Text
spec = codes "mine:queries=200,precision=fp32,mode=graph,profile=1/8/8"

abbrev plain : Point
plain = record {
  name = codes "mine";
  graph = record { queries = some 200; cascade = none; eval_idx = none };
  precision = fp32;
  profile = profile 1 8 8;
  mode = graph_mode;
}

parsed : parse_point spec ≡ returned plain
unfolding parse_point parse_options point_of choose_graph preset_graph parse_profile lookup without
    partition split value_from text_eq
parsed = refl

refuses_duplicate : parse_point (codes "a:queries=1,queries=2") ≡ failed system_exit
unfolding parse_point parse_options point_of choose_graph preset_graph parse_profile lookup without
    partition split value_from text_eq
refuses_duplicate = refl

parse_point-IsPoint_example : IsPoint plain
parse_point-IsPoint_example = parse_point-IsPoint spec plain parsed

parse_point-build_key_example :
    (settings plain ≡ settings plain)
    × (plain.precision ≡ plain.precision)
    × (plain.profile ≡ plain.profile)
    × (plain.mode ≡ plain.mode)
parse_point-build_key_example = parse_point-build_key spec spec plain plain parsed parsed refl

eval_key-injective_example : (settings point ≡ settings point) × (point.precision ≡ point.precision)
unfolding partition
eval_key-injective_example = eval_key-injective point point refl refl refl

-- Only the first step succeeds.
abbrev environment : Environment
environment = record {
  succeeds = λ s. s.number == 1;
  is_file = λ _ _. false;
  sha256 = λ _ path. path;
  sidecar_matches = λ _ _ _. false;
  tool = λ script. script ∷ [];
  engine_path = λ key. codes "engines/" ++ (key ++ codes "/model.engine");
  sidecar_path = λ path. path ++ codes ".json";
}

abbrev runner : Dict Step → Runner
runner failures = record { keep_going = true; log = []; failures = failures; index = 0 }

abbrev artifacts : Dict Text
artifacts = (eval_key plain, codes "model.onnx") ∷ (eval_key point, codes "model2.onnx") ∷ []

abbrev built : Result (Dict Text × Runner)
built = run_builds environment (plain ∷ point ∷ plain ∷ []) artifacts [] (runner [])

abbrev result_of : Result (Dict Text × Runner) → Dict Text × Runner
result_of (returned x) = x
result_of (failed e) = ([], runner [])

run_returns : built ≡ returned (result_of built)
unfolding run_builds build_key eval_key graph_key digits find inherit guarded text_eq
run_returns = refl

run_builds-IsAccounted_example :
    Later (runner []) (result_of built).1
    × All
        (λ (p : Point).
          IsAccounted environment.succeeds
            (result_of built).1
            (build_key p)
            (codes "build." ++ build_key p))
        (plain ∷ point ∷ plain ∷ [])
run_builds-IsAccounted_example =
    run_builds-IsAccounted environment (plain ∷ point ∷ plain ∷ []) artifacts (runner [])
      (result_of built).0 (result_of built).1 run_returns

run_builds-AreOnce_example :
    (new : List Step) × ((result_of built).1.log ≡ ([] ++ new)) × AreOnce new
run_builds-AreOnce_example =
    run_builds-AreOnce environment (plain ∷ point ∷ plain ∷ []) artifacts (runner [])
      (result_of built).0 (result_of built).1 run_returns

abbrev step : Step
step = record { number = 1; label = codes "convert"; argv = []; cached = false }

abbrev source_failed : Runner
source_failed = runner ((eval_key plain, step) ∷ [])

skipped :
    build_point environment plain (codes "model.onnx") source_failed
    ≡ returned (marked (build_key plain) step source_failed)
unfolding build_key eval_key graph_key digits find inherit text_eq
skipped = refl

found : is_in (eval_key plain) source_failed.failures ≡ true
unfolding eval_key graph_key digits find text_eq
found = refl

build_point_inherits_example :
    ((marked (build_key plain) step source_failed).log ≡ [])
    × (is_in (build_key plain) (marked (build_key plain) step source_failed).failures ≡ true)
build_point_inherits_example =
    build_point_inherits environment plain (codes "model.onnx") source_failed
      (marked (build_key plain) step source_failed) found skipped

ran :
    guarded (λ _. true) (codes "k") (codes "build.k") [] false (runner [])
    ≡ returned (true, logged (next_step (codes "build.k") [] false (runner [])) (runner []))
unfolding guarded find
ran = refl

guarded-IsGuarded_example :
    IsGuarded
      (λ _. true)
      (codes "k")
      (codes "build.k")
      (runner [])
      (true, logged (next_step (codes "build.k") [] false (runner [])) (runner []))
guarded-IsGuarded_example =
    guarded-IsGuarded (λ _. true) (codes "k") (codes "build.k") [] false (runner [])
      (true, logged (next_step (codes "build.k") [] false (runner [])) (runner [])) ran

abbrev args : Args
args = record {
  out = codes "out";
  checkpoint = codes "m.pth";
  model_name = codes "m";
  num_classes = 80;
  class_names = none;
}

run_pipeline-Returns_example :
    Returns
      (run_pipeline environment args (plain ∷ point ∷ []) (runner []))
      (λ (x : Dict Text × Runner).
        All (λ (p : Point). is_in (build_key p) x.0 ≡ true) (plain ∷ point ∷ []))
run_pipeline-Returns_example =
    run_pipeline-Returns environment args (plain ∷ point ∷ []) (runner []) refl

resolved : resolve_points (spec ∷ []) (codes "mine") false ≡ returned (plain ∷ [], some plain)
unfolding resolve_points parse_points has_duplicate find_point parse_point parse_options point_of
    choose_graph preset_graph parse_profile lookup without partition split value_from text_eq
resolved = refl

resolve_points_lem_example :
    AreParsed (specs_of (spec ∷ [])) (plain ∷ [])
    × HaveDistinctNames (plain ∷ [])
    × IsBaseline (plain ∷ []) (codes "mine") false (some plain)
resolve_points_lem_example =
    resolve_points_lem (spec ∷ []) (codes "mine") false (plain ∷ []) (some plain) resolved
