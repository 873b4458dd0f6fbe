-- ===== src/Sweep/Chains.antt =====
-- `run_chains` of trt-files/scripts/preset_sweep.py: the chain from the baseline to each unit of
-- evaluation, where both were measured.
use dfine_cpp.Common.{
  ℕ, Bool, false, none, some, List, [], ◌∷◌, ◌++◌, Text, text_eq, codes, ◌||◌, if◌then◌else◌,
}
use dfine_cpp.Common.Result.{Result, returned, failed, key_error, ◌>>=◌}
use dfine_cpp.Sweep.Point.{Point, eval_key}
use dfine_cpp.Sweep.Runner.{Dict, find, is_in, Runner, guarded}
use dfine_cpp.Sweep.Build.{Environment, run_builds}
use dfine_cpp.Sweep.Export.{Args, run_exports, run_converts}
use dfine_cpp.Sweep.Evaluate.{Dataset, Recorded, run_evals}

-- `d[key]`
abbrev pub item : Dict Text → Text → Result Text
item d key = elim (find key d) [ none ↦ failed key_error | some x ↦ returned x ]

module _ (env : Environment) (args : Args) where
  abbrev pub chain_path : Point → Text
  chain_path p = args.out ++ (codes "/reports/" ++ (eval_key p ++ codes "/vs-baseline.json"))

  -- f"{point.name}={report}::engine"
  abbrev pub stage : Point → Text → Text
  stage p report = p.name ++ (b'=' ∷ (report ++ codes "::engine"))

  abbrev pub chain_argv : Point → Text → Point → Text → List Text
  chain_argv baseline baseline_report p report =
      env.tool (codes "accuracy_chain.py")
      ++ (codes "--stage"
          ∷ stage baseline baseline_report
          ∷ codes "--stage"
          ∷ stage p report
          ∷ codes "--transition-kind"
          ∷ codes "preset"
          ∷ codes "--transition-label"
          ∷ (p.name ++ (codes " vs " ++ baseline.name))
          ∷ codes "--output"
          ∷ chain_path p
          ∷ codes "--overwrite"
          ∷ [])

  abbrev pub chain_point : Point → Dict Text → Point → Runner → Result Runner
  chain_point baseline reports p r = do
    baseline_report ← item reports (eval_key baseline)
    report ← item reports (eval_key p)
    x ←
        guarded env.succeeds (eval_key p ++ codes ":chain") (codes "chain." ++ eval_key p)
          (chain_argv baseline baseline_report p report) false r
    returned x.1

  -- A unit without a chain: the baseline's, one that has its chain, or one whose report or the
  -- baseline's is not to be had.
  abbrev pub is_skipped : Point → Dict Text → Point → Runner → Bool
  is_skipped baseline chains p r =
      (text_eq (eval_key p) (eval_key baseline) || is_in (eval_key p) chains)
      || (is_in (eval_key baseline) r.failures || is_in (eval_key p) r.failures)

  -- The loop of `run_chains`: the chains by key, and the runner.
  unfoldable pub chain_points :
      Point → Dict Text → List Point → Dict Text → Runner → Result (Dict Text × Runner)
  chain_points baseline reports [] chains r = returned (chains, r)
  chain_points baseline reports (p ∷ ps) chains r =
      if is_skipped baseline chains p r
      then chain_points baseline reports ps chains r
      else (chain_point baseline reports p r
          >>= chain_points baseline reports ps (chains ++ ((eval_key p, chain_path p) ∷ [])))

  abbrev pub run_chains : List Point → Point → Dict Text → Runner → Result (Dict Text × Runner)
  run_chains points baseline reports r = chain_points baseline reports points [] r

module _ (env : Environment) (args : Args) (dataset : Dataset)
    (recorded : ℕ → Text → Recorded) where
  -- The steps of `main` that measure accuracy: the reports, the chains and the runner.
  unfoldable pub run_accuracy :
      List Point → Point → Runner → Result (Dict Text × (Dict Text × Runner))
  run_accuracy points baseline r = do
    (exports, r1) ← run_exports env args points r
    (artifacts, r2) ← run_converts env args points exports [] r1
    (engines, r3) ← run_builds env points artifacts [] r2
    (reports, r4) ← run_evals env args dataset recorded points artifacts engines r3
    chained ← run_chains env args points baseline reports r4
    returned (reports, chained)
