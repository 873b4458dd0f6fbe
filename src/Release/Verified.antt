-- ===== src/Release/Verified.antt =====
-- What `assemble` publishes passes the validation of a download.
use dfine_cpp.Common.{
  ◌≡◌, refl, sym, ap, inl, inr, true, false, not, Option, none, List, [], ◌∷◌, ◌++◌, Text, text_eq,
  text_eq_sound, arith, All, Bool-cases,
}
use mathlib.Core.Path.{subst}
use dfine_cpp.Common.Result.{returned, system_exit, refuse_if-returned}
use dfine_cpp.Json.{is_among}
use dfine_cpp.Chain.Require.{is_sha256}
use dfine_cpp.Release.Names.{
  is_version, wheel_name, model_asset_names, expected_payload_names, same_set,
}
use dfine_cpp.Release.Manifest.{Entry, print_manifest, manifest_entries}
use dfine_cpp.Release.Printed.{manifest_entries-print_manifest}
use dfine_cpp.Release.Download.{sums_name, payload_names, entry_names, validate_downloaded_release}
use dfine_cpp.Release.Wheel.{Archive, validate_wheel}
use dfine_cpp.Release.Assemble.{
  Args, Readers, Disk, Faults, directory, sort_names, entries_of, content, file_names, copied,
  assemble,
}
use dfine_cpp.Release.Assembled.{release, Outcome, assemble-Outcome}
use dfine_cpp.Release.Sorted.{sort-All, sort-same_set, sort-has_repeats, within_refl, within-All}
use dfine_cpp.Release.Entries.{
  IsName, names-IsName, no_repeats, payload_names-release, entries_of-IsEntry,
  entry_names-entries_of, apart-AreNew,
}

-- The digests of a manifest are those of the files by their names.
abbrev pub AreDigests : (Text → Text) → List (Text × Text) → List Entry → Type 0
AreDigests sha256 files es = All (λ (e : Entry). e.digest ≡ sha256 (content e.name files)) es

content-append :
    (n : Text) (fs gs : List (Text × Text))
    → is_among n (file_names fs) ≡ true
    → content n (fs ++ gs) ≡ content n fs
unfolding content
content-append n [] gs h = cc
content-append n ((m, bytes) ∷ fs) gs h = elim (Bool-cases (text_eq n m)) [
  | inl e ↦ rw e refl
  | inr e ↦ rw (e, content-append n fs gs (ground arith)) refl
]

All-apart : (ns : List Text) → All (λ n. is_among n [] ≡ false) ns
All-apart [] = tt
All-apart (n ∷ ns) = (refl, All-apart ns)

named_wheel :
    (digest : Text → Text) (version builder name : Text) (archive : Option Archive)
    → validate_wheel digest version builder name archive ≡ returned tt
    → name ≡ wheel_name version
unfolding validate_wheel
named_wheel digest version builder name archive h =
    let (c, k) = refuse_if-returned (not (text_eq name (wheel_name version))) system_exit _ tt h in
    text_eq_sound name (wheel_name version) (ground arith)

validated :
    (names : List Text) (sums version : Text) (entries : List Entry)
    → payload_names names ≡ expected_payload_names version
    → manifest_entries sums ≡ returned entries
    → same_set (entry_names entries) (expected_payload_names version) ≡ true
    → validate_downloaded_release names sums version ≡ returned entries
unfolding validate_downloaded_release
validated names sums version entries e f g =
    let whole : same_set (expected_payload_names version) (payload_names names) ≡ true =
      subst (λ ns. same_set (expected_payload_names version) ns ≡ true) (sym e)
        (rw (within_refl (expected_payload_names version)) refl) in
    rw (whole, f, g) refl

module _ (r : Readers) (digests : (bytes : Text) → is_sha256 (r.sha256 bytes) ≡ true) where
  AreDigests-entries_of :
      (ns : List Text) (fs gs : List (Text × Text))
      → All (λ n. is_among n (file_names fs) ≡ true) ns
      → AreDigests r.sha256 (fs ++ gs) (entries_of r ns fs)
  unfolding entries_of
  AreDigests-entries_of [] fs gs h = tt
  AreDigests-entries_of (n ∷ ns) fs gs (h, hs) =
      (rw (content-append n fs gs h) refl, AreDigests-entries_of ns fs gs hs)

  -- The files of a release, by the name of its wheel.
  abbrev staged_of : List (Text × Text) → Text → Text → List (Text × Text)
  staged_of files name bytes = copied r model_asset_names files ++ ((name, bytes) ∷ [])

  abbrev entries_for : List (Text × Text) → Text → Text → List Entry
  entries_for files name bytes =
      entries_of r (sort_names (model_asset_names ++ (name ∷ []))) (staged_of files name bytes)

  abbrev files_for : List (Text × Text) → Text → Text → List (Text × Text)
  files_for files name bytes =
      staged_of files name bytes
      ++ ((sums_name, print_manifest (entries_for files name bytes)) ∷ [])

  -- The directory passes the validation of a download, with the digests of its files.
  abbrev pub IsVerified : Text → List (Text × Text) → Type 0
  IsVerified version files =
      (entries : List Entry) × (validate_downloaded_release (file_names files)
          (content sums_name files) version
        ≡ returned entries)
      × AreDigests r.sha256 files entries

  sums_content :
      (version : Text) (files : List (Text × Text)) (bytes : Text)
      → content sums_name (files_for files (wheel_name version) bytes)
        ≡ print_manifest (entries_for files (wheel_name version) bytes)
  unfolding content text_eq
  sums_content version files bytes = refl

  staged_names :
      (version : Text) (files : List (Text × Text)) (bytes : Text)
      → file_names (staged_of files (wheel_name version) bytes) ≡ expected_payload_names version
  staged_names version files bytes = refl

  files_for-IsVerified :
      (version : Text) (files : List (Text × Text)) (bytes : Text)
      → is_version version ≡ true
      → IsVerified version (files_for files (wheel_name version) bytes)
  files_for-IsVerified version files bytes h =
      let names = expected_payload_names version in
      let staged = staged_of files (wheel_name version) bytes in
      let entries = entries_for files (wheel_name version) bytes in
      let read : manifest_entries (print_manifest entries) ≡ returned entries =
        manifest_entries-print_manifest entries
          (entries_of-IsEntry r digests (sort_names names) staged
            (sort-All IsName names (names-IsName version h)))
          (apart-AreNew r digests [] (sort_names names) staged (All-apart (sort_names names))
            (sort-has_repeats names (no_repeats version))) in
      let covered : same_set (entry_names entries) names ≡ true =
        subst (λ ns. same_set ns names ≡ true)
          (sym (entry_names-entries_of r digests (sort_names names) staged))
          (sort-same_set names) in
      (
        entries,
        validated (file_names (files_for files (wheel_name version) bytes))
            (content sums_name (files_for files (wheel_name version) bytes)) version entries
            (payload_names-release version)
            (subst (λ s. manifest_entries s ≡ returned entries)
              (sym (sums_content version files bytes)) read)
            covered,
        AreDigests-entries_of (sort_names names) staged ((sums_name, print_manifest entries) ∷ []) (
            sort-All (λ n. is_among n (file_names staged) ≡ true) names
              (within-All names names (within_refl names))),
      )

  -- If the hash function gives lowercase SHA-256 digests, a directory that `assemble` publishes is a
  -- complete release of the version: its names and its manifest pass the validation of a download,
  -- and every entry of the manifest has the digest of the file of its name.
  pub assemble-IsVerified :
      (faults : Faults) (a : Args) (before after : Disk)
      → before.staging ≡ none
      → assemble r faults a before ≡ (returned tt, after)
      → (files : List (Text × Text)) × (after.out ≡ directory files) × IsVerified a.version files
  assemble-IsVerified faults a before after clean h =
      let outcome : Outcome r faults a before (returned tt, after) =
        subst (λ o. Outcome r faults a before o) h (assemble-Outcome r faults a before clean) in
      let (bytes, w, ok, valid, pack, fresh, e) = outcome in
      let wheel_eq =
        named_wheel r.record_digest a.version r.builder a.wheel_name (r.archive bytes) valid in
      (
        release r a bytes,
        ap (λ (d : Disk). d.out) e,
        subst (λ n. IsVerified a.version (files_for a.files n bytes)) (sym wheel_eq)
            (files_for-IsVerified a.version a.files bytes ok),
      )
