-- ===== src/Lib.antt =====
-- A verification library for the Python tools of dfine-cpp: the export, conversion, TensorRT build and
-- evaluation workflow around the D-FINE detector.
--
-- The tools hand each other artifacts on disk. A build (trt-files/scripts/build_engine.py) checks the
-- paths, the batch profile and the graph policy that it is given, reads the batch contract of the
-- engine that TensorRT built, and publishes the engine together with its JSON sidecar. A sweep
-- (trt-files/scripts/preset_sweep.py) reads operating points, and runs each tool once for every unit
-- of work that the points share. The command line (python/dfine/cli.py) starts builds. The
-- evaluation scripts share the contract of a model and the checks of a run
-- (trt-files/scripts/eval_contract.py); the reports they write are validated and compared, stage by
-- stage, by trt-files/scripts/accuracy_chain.py. A release (trt-files/scripts/release_assets.py) is
-- assembled of the exported models and a wheel, and checked again after a download.
--
-- Files and the code they are about:
--   Common and its children: lists, texts as code points, integers, decimal numbers, the parts of
--     `str` that are used, and results with the exceptions that end a script.
--   Publish/System: one directory with names, inodes shared by hard links, and the calls of `os` and
--     `pathlib`, each of which may fail by a schedule of faults (`World.faults`).
--   Publish/Staging: `_adjacent_temp` (`adjacent_temp`, `allocate`), `_link_backup` (`link_backup`),
--     `_restore_output` (`restore_output`), `_cleanup_publish_files` (`cleanup`).
--   Publish: `_publish_pair` (`publish_pair`) of trt-files/scripts/build_engine.py, in the parts
--     `stage_text`, `prepare`, `take_backups`, `run_changes`, `rollback`, `undo`, `attempt`, `release`.
--   Publish/Rules, Effects, Growth, Backups, Held, Restoring, Rollback, Commit, Readiness, Undo,
--     Atomic, Contents, Success, Staged: lemmas, in the order in which they build on each other.
--   Builder/Profile, Options, Engine, Paths, Plan: `_validate_batch_profile` there and in
--     python/dfine/cli.py, `_graph_policy`, the checks of options in `build`, `_engine_batch_facts`,
--     the parts of `pathlib` that name artifacts, `_engine_sidecar_plan` and `_validated_artifact_plan`.
--   Builder/Layout: the accepted plans of artifacts.
--   Publish/Attempted, Delivery: the publication as a whole. Publish/Calm: the rollback without a
--     signal.
--   Cli/Cache, Resolve: the engine cache and `_find_onnx` and `_resolve_engine` (`resolve_engine`) of
--     python/dfine/cli.py.
--   Sweep/Point, Options, Parse: `Point` and its keys, `parse_profile` and `parse_point` of
--     trt-files/scripts/preset_sweep.py.
--   Sweep/Select, Runner, Export, Build: `resolve_points`, `Runner`, `run_exports`, `run_converts` and
--     `run_builds`, with the order in which `main` runs them (`run_pipeline`).
--   Sweep/Evaluate, Chains: `eval_engine_for`, `run_evals` and `run_chains`, and the steps of `main`
--     that measure accuracy (`run_accuracy`). Sweep/Chosen: the engine of an evaluation.
--     Sweep/Evaluated: the end of those steps.
--   Cli/Choice, Identity: the choice of an engine.
--   Sweep/Parts, Keys, Points: keys and parsed points.
--   Sweep/Accounts, Builds, Once, Progress, Returns: the log, the failures and the end of a sweep.
--   Json, Json/Number, Json/Same: JSON values as `json.loads` gives them, `float` with its rounding,
--     and `==`.
--   Reports/Atomic, Published: `paths_alias` and `atomic_json` of trt-files/scripts/evaluation_report.py,
--     on a target with a temporary file, and what goes wrong meanwhile (`Events`).
--   Chain/Require, Model, Lineage: `_require_object` and the other validators of single values,
--     `_validate_model_contract` and `_validate_lineage` of trt-files/scripts/accuracy_chain.py.
--   Chain/GroundTruth, Protocol, Metrics: `_validate_ground_truth`, `_validate_geometry`,
--     `_validate_contract` and `_extract_metrics`; a dictionary whose fields have been checked is a
--     record of them.
--   Chain/Compare, Transition, Select, Report: `_first_difference` (`agrees` is its absence),
--     `_assert_comparable`, `_deltas`, `_validate_transition`, `_select_metrics`, `_protocol_manifest`,
--     `_parse_stage` and `build_report`. Chain/Decode, Dictionary, Decoded: `_unique_object` and
--     `_invalid_constant`, on JSON texts as trees. Chain/Run, Ran: `run`.
--   Chain/Valid, Accepted, Checked: model contracts; Numbers, Rows, Extracted, Counted, Consistent:
--     metrics and ground truth; Justified, Verified, Linked, Opposite: transitions, the chain and
--     differences.
--   Evaluation/Contract, Arguments, Checks: trt-files/scripts/eval_contract.py. `fail`, which the
--     caller passes in, is the error that it raises.
--   Evaluation/Produced, Agreement, Resolution, Outputs: the producers' contracts against the
--     validator, resolutions, and the shapes of outputs.
--   Release/Names, Manifest, Download: asset names, versions, SHA256SUMS (`print_manifest` as `assemble`
--     writes it, `manifest_entries`) and `_validate_downloaded_release` of
--     trt-files/scripts/release_assets.py.
--   Release/Wheel, Facts, Sidecar, Onnx, Assemble: `_validate_wheel`, the constants, `_validate_sidecar`,
--     `_compare_artifact_contracts`, `_validate_onnx` and `assemble`, on a disk with the output and the
--     staging directory.
--   Release/Printed, Sorted, Entries, Assembled, Verified, Recorded: the manifest, the outcomes of an
--     assembly, and wheels.
--   Json/Bits: the bits that the rounding counts, on fuel that covers the magnitude.
--   Tests in each part, Chain/Data, Chain/Runs and Sweep/Trials: runs on concrete data.
--
-- State is passed explicitly: the directory for the publication, the runner for the sweep. An
-- exception is a value (`Outcome`, `Result`).
--
-- Fuel: `allocate` recurses on the attempts left, 128 as in the source. The digits of n are computed
-- on fuel n + 1, which is enough since n has at most n + 1 digits (`value-decimal` reads them back).
--
-- A `float` is a whole multiple of 2^-1074 or infinite. Its rounding counts the bits of a magnitude
-- on fuel 2100, which is enough since a magnitude that does not overflow has at most 2098 bits
-- (`bits-bound`).
--
-- Parameters: `Path.resolve`; the JSON texts of reports as trees, by path, and decoded sidecars by
-- content; the hash functions of a release, and what the libraries for ZIP, CSV, mail headers and ONNX
-- read of its files; the files, hash function and versions behind the engine cache; the outcome
-- of a subprocess; the presence, hashes, sidecars and reports of files during a sweep; and the command lines of
-- the tools. Every system call of the publication takes the
-- next entry of the schedule of faults: none, an `OSError`, or the exception of a signal.
--
-- Not modelled: TensorRT, torch, onnx and pycocotools and the code that only calls them; C++; printing;
-- other writers of the output directory, which the lock keeps out; names other than the output
-- directory's; subdirectories; failing reads of a file that is there while a release is assembled; errors of the file system during a sweep. Specifications of points are
-- ASCII texts, and so are the texts that are read as numbers, stripped or put in lower case. JSON
-- decoding, the texts of messages, and the fields of a report that only record where it came from
-- (paths and hashes of the script and the reports) are left out. The outputs of a publication share one directory, as `one_directory` checks.
pub mod Common
pub mod Publish
pub mod Builder
pub mod Cli
pub mod Json
pub mod Reports
pub mod Chain
pub mod Evaluation
pub mod Release
pub mod Sweep
