-- ===== src/Sweep/Trials.antt =====
-- Evaluations of a small sweep.
use dfine_cpp.Common.{
  ℕ, ◌≡◌, refl, inl, inr, true, false, none, some, [], ◌∷◌, Text, text_eq, codes, All,
}
use dfine_cpp.Common.Decimal.{digits}
use dfine_cpp.Common.Result.{returned}
use dfine_cpp.Sweep.Point.{fp32, Mode, enqueue, graph_mode, Point, graph_key, eval_key, build_key}
use dfine_cpp.Sweep.Runner.{Step, Dict, Runner, find, is_in, next_step}
use dfine_cpp.Sweep.Build.{Environment}
use dfine_cpp.Sweep.Export.{Args}
use dfine_cpp.Sweep.Progress.{Returns}
use dfine_cpp.Sweep.Evaluate.{
  Dataset, Recorded, rank, candidates_for, insert_point, sort_points, eval_engine_for,
}
use dfine_cpp.Sweep.Chosen.{IsBest, eval_engine_for-IsBest}
use dfine_cpp.Sweep.Chains.{run_accuracy}
use dfine_cpp.Sweep.Evaluated.{run_accuracy-Returns}

abbrev point : Text → ℕ → Mode → Point
point name maximum mode = record {
  name = name;
  graph = record { queries = some 200; cascade = none; eval_idx = none };
  precision = fp32;
  profile = record { minimum = 1; optimum = 1; maximum = maximum };
  mode = mode;
}

abbrev standard : Point
standard = point (codes "standard") 8 enqueue

abbrev large : Point
large = point (codes "large") 16 graph_mode

abbrev runner : Runner
runner = record { keep_going = true; log = []; failures = []; index = 0 }

abbrev failed_build : Step
failed_build = next_step (codes "build.standard") [] false runner

abbrev failures : Dict Step
failures = (build_key standard, failed_build) ∷ []

abbrev engines : Dict Text
engines =
    (build_key standard, codes "standard.engine") ∷ (build_key large, codes "large.engine") ∷ []

chooses_standard :
    eval_engine_for (large ∷ standard ∷ []) large engines []
    ≡ returned (codes "standard.engine", build_key standard)
unfolding eval_engine_for sort_points insert_point rank candidates_for build_key eval_key graph_key
    digits find text_eq
chooses_standard = refl

avoids_failed :
    eval_engine_for (standard ∷ large ∷ []) standard engines failures
    ≡ returned (codes "large.engine", build_key large)
unfolding eval_engine_for sort_points insert_point rank candidates_for build_key eval_key graph_key
    digits find text_eq
avoids_failed = refl

built : All (λ (p : Point). is_in (build_key p) engines ≡ true) (standard ∷ large ∷ [])
unfolding build_key eval_key graph_key digits find text_eq
built = (refl, (refl, tt))

eval_engine_for-IsBest_example :
    (p : Point) × (engine : Text) × (eval_engine_for
        (standard ∷ large ∷ [])
        standard
        engines
        failures
      ≡ returned (engine, build_key p))
    × (find (build_key p) engines ≡ some engine)
    × IsBest failures (standard ∷ large ∷ []) (eval_key standard) p
eval_engine_for-IsBest_example =
    eval_engine_for-IsBest (standard ∷ large ∷ []) standard engines failures (inl refl) built

abbrev environment : Environment
environment = record {
  succeeds = λ s. false;
  is_file = λ _ _. false;
  sha256 = λ _ _. codes "abc";
  sidecar_matches = λ _ _ _. false;
  tool = λ script. script ∷ [];
  engine_path = λ key. key;
  sidecar_path = λ path. path;
}

abbrev args : Args
args = record {
  out = codes "out";
  checkpoint = codes "m.pth";
  model_name = codes "m";
  num_classes = 80;
  class_names = none;
}

abbrev dataset : Dataset
dataset = record { images = codes "val"; annotations = codes "val.json" }

abbrev nothing_recorded : ℕ → Text → Recorded
nothing_recorded _ _ = record { engine_sha256 = none; annotations_sha256 = none }

run_accuracy-Returns_example :
    Returns
      (run_accuracy environment args dataset nothing_recorded (standard ∷ large ∷ []) large runner)
      (λ (x : Dict Text × (Dict Text × Runner)).
        All (λ (p : Point). is_in (eval_key p) x.0 ≡ true) (standard ∷ large ∷ []))
run_accuracy-Returns_example =
    run_accuracy-Returns environment args dataset nothing_recorded (standard ∷ large ∷ []) large
      runner (inr (inl refl)) refl
