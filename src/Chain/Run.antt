-- ===== src/Chain/Run.antt =====
-- `run` of trt-files/scripts/accuracy_chain.py: the chain is built and its report written.
use dfine_cpp.Common.{Bool, false, not, Option, List, Text, any, ◌&&◌}
use dfine_cpp.Common.Result.{Result, returned, failed, value_error, ◌>>◌, refuse_if}
use dfine_cpp.Chain.Decode.{Raw}
use dfine_cpp.Publish.{FilePath}
use dfine_cpp.Reports.Atomic.{Paths, paths_alias, Place, Events, is_there, atomic_json}
use dfine_cpp.Chain.Transition.{Kind}
use dfine_cpp.Chain.Select.{StageSpec}
use dfine_cpp.Chain.Report.{Report, build_report}

pub record Args : Type 0 where
  pub output : FilePath
  pub stages : List StageSpec
  pub labels : List Text
  pub kinds : List Kind
  pub allow_missing_lineage : Bool
  pub overwrite : Bool

-- The files around a run: paths, the path of a text, the reports' JSON, and the JSON text of the
-- report that is built.
pub record Environment : Type 0 where
  pub paths : Paths
  pub path_of : Text → FilePath
  pub documents : Text → Option Raw
  pub encode : Report → Result Text

module _ (env : Environment) where
  abbrev pub aliases_stage : Args → StageSpec → Bool
  aliases_stage args spec = paths_alias env.paths args.output (env.path_of spec.report)

  abbrev pub build_checked : Args → Place → Result Report
  build_checked args place = do
    refuse_if (any (aliases_stage args) args.stages) value_error
    refuse_if (is_there place.target && not args.overwrite) value_error
    build_report env.documents args.stages args.labels args.kinds args.allow_missing_lineage

  abbrev pub with_report : Report → Result (Unit {0}) × Place → Result Report × Place
  with_report report (returned u, place) = (returned report, place)
  with_report report (failed e, place) = (failed e, place)

  abbrev pub write_built : Args → Events → Place → Result Report → Result Report × Place
  write_built args events place (failed e) = (failed e, place)
  write_built args events place (returned report) =
      with_report report (atomic_json false args.overwrite (env.encode report) events place)

  unfoldable pub run : Args → Events → Place → Result Report × Place
  run args events place = write_built args events place (build_checked args place)
