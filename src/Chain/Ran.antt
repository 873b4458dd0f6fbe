-- ===== src/Chain/Ran.antt =====
-- The outcomes of `run`.
use dfine_cpp.Common.{true, false, not, none, any, ◌&&◌, ◌≡◌, ◌⊎◌, refl, inl, inr}
use dfine_cpp.Common.Result.{Result, returned, failed, value_error, refuse_if-returned}
use dfine_cpp.Reports.Atomic.{Place, Events, is_there, atomic_json}
use dfine_cpp.Reports.Published.{Outcome, IsWritten, IsReplaced, IsUntouched, atomic_json-Outcome}
use dfine_cpp.Chain.Report.{Report}
use dfine_cpp.Chain.Linked.{IsChain, build_report-IsChain}
use dfine_cpp.Chain.Run.{
  Args, Environment, aliases_stage, build_checked, with_report, write_built, run,
}

module _ (env : Environment) where
  -- A chain that was built, for an output that no stage's report is.
  abbrev pub IsBuilt : Args → Report → Type 0
  IsBuilt args report =
      (any (aliases_stage env args) args.stages ≡ false)
      × IsChain args.allow_missing_lineage report.stages report.transitions

  -- The output has not changed, and no temporary file is left; or the temporary file could not be
  -- removed, before or after a chain was put in place.
  abbrev pub IsFailed : Args → Events → Place → Place → Type 0
  IsFailed args events before after =
      (IsUntouched events before after × (after.temporary ≡ none))
      ⊎ ((events.unlink_fails ≡ true)
          × (IsUntouched events before after
              ⊎ ((report : Report) × IsBuilt args report
                  × IsReplaced args.overwrite (env.encode report) events before after)))

  abbrev pub RunOutcome : Args → Events → Place → Result Report × Place → Type 0
  RunOutcome args events before (returned report, after) =
      IsBuilt args report × IsWritten args.overwrite (env.encode report) events before after
  RunOutcome args events before (failed e, after) = IsFailed args events before after

  -- A run, from a place without a temporary file, returns a chain that has been written whole to an
  -- output that is no report of a stage, and where nothing stood unless overwriting is allowed, and
  -- no temporary file is left. Or it fails, the output is what it was or what another process has
  -- put there, and no temporary file is left. Only where the removal of the temporary file fails
  -- may that file be left, and the failure come after such a chain has been put in place.
  pub run-RunOutcome :
      (args : Args) (events : Events) (before : Place)
      → before.temporary ≡ none
      → RunOutcome args events before (run env args events before)
  unfolding run
  run-RunOutcome args events before clean = by_build (build_checked env args before) refl
    where
      by_write :
          (report : Report)
          → IsBuilt args report
          → (w : Result (Unit {0}) × Place)
          → Outcome args.overwrite (env.encode report) events before w
          → RunOutcome args events before (with_report env report w)
      by_write report built (returned u, after) written = (built, written)
      by_write report built (failed e, after) (inl kept) = inl kept
      by_write report built (failed e, after) (inr (u, inl kept)) = inr (u, inl kept)
      by_write report built (failed e, after) (inr (u, inr replaced)) =
          inr (u, inr (report, built, replaced))

      by_build :
          (b : Result Report)
          → build_checked env args before ≡ b
          → RunOutcome args events before (write_built env args events before b)
      by_build (failed e) h = inl (inl refl, clean)
      by_build (returned report) h =
          let (c1, h1) =
            refuse_if-returned (any (aliases_stage env args) args.stages) value_error _ report h in
          let (c2, h2) =
            refuse_if-returned (is_there before.target && not args.overwrite) value_error _ report
              h1 in
          let (two, names, loaded, chain) =
            build_report-IsChain env.documents args.stages args.labels args.kinds
              args.allow_missing_lineage report h2 in
          by_write report (c1, chain)
            (atomic_json false args.overwrite (env.encode report) events before)
            (atomic_json-Outcome false args.overwrite (env.encode report) events before clean)
