-- ===== src/Release/Tests.antt =====
-- An assembly of the frozen pack, by a hash function that keeps hashes.
use dfine_cpp.Common.{
  false, ◌≡◌, refl, inl, inr, true, none, some, List, [], ◌∷◌, ◌++◌, Text, text_eq, codes,
  if◌then◌else◌, map, length, Bool-cases,
}
use dfine_cpp.Common.Decimal.{decimal, digits}
use dfine_cpp.Common.Result.{returned}
use dfine_cpp.Cli.Cache.{strip, ends_with}
use dfine_cpp.Chain.Require.{is_sha256}
use dfine_cpp.Release.Names.{wheel_name, is_version, after_digits}
use dfine_cpp.Release.Manifest.{Entry, print_manifest, manifest_entries}
use dfine_cpp.Release.Printed.{manifest_entries-print_manifest}
use dfine_cpp.Release.Wheel.{
  Archive, dist_info, record_path, elf, has_repeats, occurs, read_member, read_rows, row_of,
  check_records, validate_wheel,
}
use dfine_cpp.Release.Facts.{frozen_model_pack}
use dfine_cpp.Release.Assemble.{
  Args, Readers, Disk, absent, directory, content, require_empty_output, verify_frozen_model_pack,
  assemble, Faults,
}
use dfine_cpp.Release.Assembled.{Outcome, assemble-Outcome}
use dfine_cpp.Release.Verified.{IsVerified, assemble-IsVerified}
use dfine_cpp.Release.Recorded.{IsIntact, validate_wheel-IsIntact}

abbrev zeros : Text
zeros = codes "0000000000000000000000000000000000000000000000000000000000000000"

abbrev keep_hash : Text → Text
keep_hash s = if is_sha256 s then s else zeros

keep_hash-is_sha256 : (s : Text) → is_sha256 (keep_hash s) ≡ true
unfolding is_sha256
keep_hash-is_sha256 s = elim (Bool-cases (is_sha256 s)) [ inl e ↦ rw e e | inr e ↦ rw e refl ]

abbrev release_version : Text
release_version = codes "1.2.3rc1"

abbrev builder_source : Text
builder_source = codes "build"

abbrev contents : List (Text × Text)
contents =
    (dist_info release_version ++ codes "/METADATA", codes "m")
    ∷ (dist_info release_version ++ codes "/WHEEL", codes "w")
    ∷ (codes "dfine/__init__.py", [])
    ∷ (codes "dfine/libdfine.so", elf)
    ∷ (codes "dfine/_scripts/build_engine.py", builder_source)
    ∷ (dist_info release_version ++ codes "/licenses/LICENSE", codes "l")
    ∷ (dist_info release_version ++ codes "/licenses/NOTICE", codes "n")
    ∷ []

abbrev row : Text × Text → List Text
row (n, bytes) = n ∷ (codes "sha256=" ++ bytes) ∷ decimal (length bytes) ∷ []

abbrev wheel_archive : Archive
wheel_archive = record {
  members = contents ++ ((record_path release_version, codes "r") ∷ []);
  is_intact = true;
  rows = map row contents ++ ((record_path release_version ∷ [] ∷ [] ∷ []) ∷ []);
  name = some (codes "dfine");
  version = some release_version;
  root_is_purelib = codes "False";
  tag = some (codes "py3-none-linux_x86_64");
}

abbrev readers : Readers
readers = record {
  sha256 = keep_hash;
  record_digest = λ bytes. bytes;
  builder = builder_source;
  sources = none;
  document = λ bytes. none;
  graph = λ bytes. none;
  archive = λ bytes. some wheel_archive;
}

abbrev file_of : Entry → Text × Text
file_of e = (e.name, e.digest)

abbrev args : Args
args = record {
  version = release_version;
  input_is_dir = true;
  files = map file_of frozen_model_pack;
  wheel_name = wheel_name release_version;
  wheel = some (codes "zip");
  frozen_model_pack = true;
}

abbrev no_faults : Faults
no_faults = record {
  make_fails = false;
  copy_fails = false;
  sums_fail = false;
  install_fails = false;
  remove_fails = false;
}

abbrev before : Disk
before = record { out = absent; staging = none }

abbrev after : Disk
after = (assemble readers no_faults args before).1

wheel_is_valid :
    validate_wheel
      (λ bytes. bytes)
      release_version
      builder_source
      (wheel_name release_version)
      (some wheel_archive)
    ≡ returned tt
unfolding validate_wheel text_eq strip ends_with has_repeats occurs read_member read_rows row_of
    check_records digits
wheel_is_valid = refl

validate_wheel-IsIntact_example :
    (wheel_name release_version ≡ wheel_name release_version)
    × ((a : Archive) × (some wheel_archive ≡ some a)
        × IsIntact (λ bytes. bytes) release_version builder_source a)
validate_wheel-IsIntact_example =
    validate_wheel-IsIntact (λ bytes. bytes) release_version builder_source
      (wheel_name release_version) (some wheel_archive) wheel_is_valid

assemble-Outcome_example :
    Outcome readers no_faults args before (assemble readers no_faults args before)
assemble-Outcome_example = assemble-Outcome readers no_faults args before refl

assembled : assemble readers no_faults args before ≡ (returned tt, after)
unfolding assemble is_version after_digits validate_wheel text_eq strip ends_with has_repeats occurs
    read_member read_rows row_of check_records digits require_empty_output verify_frozen_model_pack
    content is_sha256
assembled = refl

assemble-IsVerified_example :
    (files : List (Text × Text)) × (after.out ≡ directory files)
    × IsVerified readers keep_hash-is_sha256 release_version files
assemble-IsVerified_example =
    assemble-IsVerified readers keep_hash-is_sha256 no_faults args before after refl assembled

abbrev entry : Text → Text → Entry
entry label hash = record { name = label; digest = hash }

manifest_entries-print_manifest_example :
    manifest_entries (print_manifest (entry (codes "a") zeros ∷ entry (codes "b") zeros ∷ []))
    ≡ returned (entry (codes "a") zeros ∷ entry (codes "b") zeros ∷ [])
unfolding is_sha256 text_eq
manifest_entries-print_manifest_example =
    manifest_entries-print_manifest (entry (codes "a") zeros ∷ entry (codes "b") zeros ∷ [])
      ((refl, refl, refl), ((refl, refl, refl), tt)) (refl, (refl, tt))
