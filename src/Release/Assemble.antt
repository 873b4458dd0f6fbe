-- ===== src/Release/Assemble.antt =====
-- `assemble` of trt-files/scripts/release_assets.py with
-- `_verify_frozen_model_pack`: the files are staged in a directory of their own, checked there, and
-- put in the place of the output at the end. Files are texts of bytes.
use dfine_cpp.Common.{
  Bool, true, false, not, Option, none, some, List, [], ◌∷◌, ◌++◌, Text, codes, text_eq, any, map,
  ◌&&◌, ◌||◌, ◌==◌, if◌then◌else◌, ltb,
}
use dfine_cpp.Common.Result.{
  Result, returned, failed, system_exit, os_error, ◌>>=◌, ◌>>◌, refuse_if,
}
use dfine_cpp.Json.{Value, text, get}
use dfine_cpp.Json.Same.{same}
use dfine_cpp.Release.Names.{is_version, model_asset_names, asset_name, within}
use dfine_cpp.Release.Manifest.{Entry, print_manifest}
use dfine_cpp.Release.Download.{sums_name}
use dfine_cpp.Release.Wheel.{Archive, validate_wheel}
use dfine_cpp.Release.Facts.{Size, nano, small, medium, large, extra, size_name, frozen_model_pack}
use dfine_cpp.Release.Sidecar.{Sources, validate_sidecar, compare_artifact_contracts}
use dfine_cpp.Release.Onnx.{Graph, validate_onnx}

-- What stands under the output's name.
pub data Output : Type 0 where
  absent : Output
  other : Output
  directory : List (Text × Text) → Output

-- The output, and the staging directory beside it with what has been staged.
pub record Disk : Type 0 where
  pub out : Output
  pub staging : Option (List (Text × Text))

-- What raises an OSError: the making of the staging directory, a copy into it, the writing of its
-- SHA256SUMS, its change of mode or its renaming, and its removal.
pub record Faults : Type 0 where
  pub make_fails : Bool
  pub copy_fails : Bool
  pub sums_fail : Bool
  pub install_fails : Bool
  pub remove_fails : Bool

unfoldable pub require_empty_output : Output → Result (Unit {0})
require_empty_output absent = returned tt
require_empty_output other = failed system_exit
require_empty_output (directory []) = returned tt
require_empty_output (directory (f ∷ fs)) = failed system_exit

pub record Args : Type 0 where
  pub version : Text
  pub input_is_dir : Bool
  -- the `dfine_*` files of the input directory
  pub files : List (Text × Text)
  pub wheel_name : Text
  pub wheel : Option Text
  pub frozen_model_pack : Bool

-- The libraries that read files, and the release's own sources: `sources` is none where the
-- revision cannot be read or is no commit.
pub record Readers : Type 0 where
  pub sha256 : Text → Text
  pub record_digest : Text → Text
  pub builder : Text
  pub sources : Option Sources
  pub document : Text → Option Value
  pub graph : Text → Option Graph
  pub archive : Text → Option Archive

abbrev pub file_names : List (Text × Text) → List Text
file_names fs = map (λ (f : Text × Text). f.0) fs

-- `(directory / name).read_bytes()`, empty where there is no file
unfoldable pub content : Text → List (Text × Text) → Text
content n [] = []
content n ((m, bytes) ∷ fs) = let rest = content n fs in if text_eq n m then bytes else rest

unfoldable pub leb_text : Text → Text → Bool
leb_text [] t = true
leb_text (c ∷ s) [] = false
leb_text (c ∷ s) (d ∷ t) = ltb c d || (c == d && leb_text s t)

-- `sorted(names)`
unfoldable pub insert_name : Text → List Text → List Text
insert_name n [] = n ∷ []
insert_name n (m ∷ ms) =
    let rest = insert_name n ms in if leb_text n m then n ∷ m ∷ ms else m ∷ rest

unfoldable pub sort_names : List Text → List Text
sort_names [] = []
sort_names (n ∷ ns) = insert_name n (sort_names ns)

abbrev pub wheel_bytes : Option Text → Result Text
wheel_bytes none = failed system_exit
wheel_bytes (some bytes) = returned bytes

module _ (r : Readers) where
  -- Every file of the pack has the digest of the frozen pack.
  unfoldable pub verify_frozen_model_pack : List (Text × Text) → Result (Unit {0})
  verify_frozen_model_pack staged =
      refuse_if
        (any (λ (e : Entry). not (text_eq (r.sha256 (content e.name staged)) e.digest))
          frozen_model_pack)
        system_exit

  abbrev file_of : Size → Text → Text → List (Text × Text) → Text
  file_of size recipe extension staged =
      content (asset_name (size_name size) recipe extension) staged

  abbrev pub check_size : Sources → List (Text × Text) → Size → Result (Unit {0})
  check_size sources staged size = do
    let fp32_graph = file_of size (codes "op19") (codes "onnx") staged
    let slim_graph = file_of size (codes "slim") (codes "onnx") staged
    fp32 ←
        validate_sidecar sources size false
          (r.document (file_of size (codes "op19") (codes "json") staged))
    slim ←
        validate_sidecar sources size true
          (r.document (file_of size (codes "slim") (codes "json") staged))
    validate_onnx (r.graph fp32_graph) fp32.fields false
    validate_onnx (r.graph slim_graph) slim.fields true
    refuse_if
        (not (same (get (codes "source_onnx_sha256") slim.fields) (text (r.sha256 fp32_graph))))
        system_exit
    compare_artifact_contracts fp32 slim

  abbrev pub check_sizes : Option Sources → List (Text × Text) → Result (Unit {0})
  check_sizes none staged = failed system_exit
  check_sizes (some sources) staged = do
    check_size sources staged nano
    check_size sources staged small
    check_size sources staged medium
    check_size sources staged large
    check_size sources staged extra

  abbrev pub check_pack : Bool → List (Text × Text) → Result (Unit {0})
  check_pack true staged = verify_frozen_model_pack staged
  check_pack false staged = check_sizes r.sources staged

  unfoldable pub entries_of : List Text → List (Text × Text) → List Entry
  entries_of [] staged = []
  entries_of (n ∷ ns) staged =
      record { name = n; digest = r.sha256 (content n staged) } ∷ entries_of ns staged

  abbrev pub copied : List Text → List (Text × Text) → List (Text × Text)
  copied names files = map (λ n. (n, content n files)) names

  abbrev pub payload : Args → Text → List (Text × Text)
  payload a bytes = copied model_asset_names a.files ++ ((a.wheel_name, bytes) ∷ [])

  abbrev pub manifest_of : Args → List (Text × Text) → List Entry
  manifest_of a staged = entries_of (sort_names (model_asset_names ++ (a.wheel_name ∷ []))) staged

  -- The checks of the staged wheel and pack.
  abbrev pub check_staged : Args → Text → Result (Unit {0})
  check_staged a bytes = do
    validate_wheel r.record_digest a.version r.builder a.wheel_name (r.archive bytes)
    check_pack a.frozen_model_pack (payload a bytes)

  abbrev pub with_sums : Args → List (Text × Text) → List (Text × Text)
  with_sums a staged = staged ++ ((sums_name, print_manifest (manifest_of a staged)) ∷ [])

  abbrev pub Done : Type 0
  Done = Result (Unit {0}) × Disk

  abbrev pub staging_with : Disk → List (Text × Text) → Disk
  staging_with d files = record { out = d.out; staging = some files }

  -- The output again, its mode, and `os.replace(staging, out)`.
  abbrev pub install : Faults → Disk → List (Text × Text) → Result (Unit {0}) → Done
  install faults d files (failed e) = (failed e, staging_with d files)
  install faults d files (returned u) =
      if faults.install_fails
      then (failed os_error, staging_with d files)
      else (returned tt, record { out = directory files; staging = none })

  abbrev pub write_sums : Faults → Args → Disk → List (Text × Text) → Result (Unit {0}) → Done
  write_sums faults a d staged (failed e) = (failed e, staging_with d staged)
  write_sums faults a d staged (returned u) =
      if faults.sums_fail
      then (failed os_error, staging_with d staged)
      else install faults d (with_sums a staged) (require_empty_output d.out)

  -- The `try` block, on a staging directory that is empty.
  abbrev pub stage : Faults → Args → Disk → Text → Done
  stage faults a d bytes =
      if faults.copy_fails
      then (failed os_error, staging_with d [])
      else write_sums faults a d (payload a bytes) (check_staged a bytes)

  abbrev pub remove : Faults → Result (Unit {0}) → Disk → Option (List (Text × Text)) → Done
  remove faults result d none = (result, d)
  remove faults result d (some files) =
      if faults.remove_fails
      then (failed os_error, d)
      else (result, record { out = d.out; staging = none })

  -- `finally: if staging.exists(): shutil.rmtree(staging)`
  abbrev pub remove_staging : Faults → Done → Done
  remove_staging faults (result, d) = remove faults result d d.staging

  abbrev pub check_inputs : Args → Output → Result Text
  check_inputs a out = do
    refuse_if (not (is_version a.version)) system_exit
    refuse_if (not a.input_is_dir) system_exit
    bytes ← wheel_bytes a.wheel
    require_empty_output out
    refuse_if (not (within (file_names a.files) model_asset_names)) system_exit
    refuse_if (not (within model_asset_names (file_names a.files))) system_exit
    returned bytes

  abbrev pub run_assembly : Faults → Args → Disk → Result Text → Done
  run_assembly faults a d (failed e) = (failed e, d)
  run_assembly faults a d (returned bytes) =
      if faults.make_fails
      then (failed os_error, d)
      else remove_staging faults (stage faults a d bytes)

  unfoldable pub assemble : Faults → Args → Disk → Done
  assemble faults a d = run_assembly faults a d (check_inputs a d.out)
