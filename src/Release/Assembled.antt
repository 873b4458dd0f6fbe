-- ===== src/Release/Assembled.antt =====
-- The outcomes of `assemble`.
use dfine_cpp.Common.{
  ◌≡◌, ◌⊎◌, inl, inr, refl, ap, Bool, false, if◌then◌else◌, true, not, Option, none, some, List, [],
  ◌∷◌, ◌++◌, Text, arith,
}
use dfine_cpp.Common.Result.{
  Result, returned, failed, system_exit, os_error, ◌>>=◌, ◌>>◌, refuse_if, bind-returned,
  refuse_if-returned,
}
use dfine_cpp.Release.Names.{is_version, model_asset_names, within}
use dfine_cpp.Release.Manifest.{print_manifest}
use dfine_cpp.Release.Download.{sums_name}
use dfine_cpp.Release.Wheel.{validate_wheel}
use dfine_cpp.Release.Assemble.{
  Args, Readers, Disk, Output, directory, require_empty_output, file_names, payload, manifest_of,
  check_pack, check_staged, Faults, Done, staging_with, install, write_sums, stage, remove,
  remove_staging, wheel_bytes, check_inputs, run_assembly, assemble,
}

module _ (r : Readers) where
  -- The complete release of a version: the pack, the wheel, and the manifest over both.
  abbrev pub release : Args → Text → List (Text × Text)
  release a bytes =
      payload r a bytes ++ ((sums_name, print_manifest (manifest_of r a (payload r a bytes))) ∷ [])

  -- The files that are published have passed the checks.
  abbrev pub IsRelease : Args → Disk → Disk → Type 0
  IsRelease a before after =
      (bytes : Text) × (a.wheel ≡ some bytes)
      × (is_version a.version ≡ true)
      × (validate_wheel r.record_digest a.version r.builder a.wheel_name (r.archive bytes)
          ≡ returned tt)
      × (check_pack r a.frozen_model_pack (payload r a bytes) ≡ returned tt)
      × (require_empty_output before.out ≡ returned tt)
      × (after ≡ record { out = directory (release a bytes); staging = none })

  -- Nothing is published; a staging directory is left only where its removal failed.
  abbrev pub IsUnpublished : Faults → Disk → Disk → Type 0
  IsUnpublished faults before after =
      (after.out ≡ before.out) × ((faults.remove_fails ≡ true) ⊎ (after.staging ≡ none))

  abbrev pub Outcome : Faults → Args → Disk → Done r → Type 0
  Outcome faults a before (returned u, after) = IsRelease a before after
  Outcome faults a before (failed e, after) = IsUnpublished faults before after

  checked_inputs :
      (a : Args) (out : Output) (bytes : Text)
      → check_inputs r a out ≡ returned bytes
      → (is_version a.version ≡ true) × (a.wheel ≡ some bytes)
  checked_inputs a out bytes h =
      let (c1, h1) = refuse_if-returned (not (is_version a.version)) system_exit _ bytes h in
      let (c2, h2) = refuse_if-returned (not a.input_is_dir) system_exit _ bytes h1 in
      (ground arith, by_wheel a.wheel h2)
    where
      by_wheel :
          (w : Option Text)
          → (wheel_bytes w >>= λ b.
              require_empty_output out
              >> (refuse_if (not (within (file_names a.files) model_asset_names)) system_exit
                  >> (refuse_if (not (within model_asset_names (file_names a.files))) system_exit
                      >> returned b)))
            ≡ returned bytes
          → w ≡ some bytes
      by_wheel none e = cc
      by_wheel (some b) e =
          let (u, e1, e2) = bind-returned (require_empty_output out) _ bytes e in
          let (c3, e3) =
            refuse_if-returned (not (within (file_names a.files) model_asset_names)) system_exit _
              bytes e2 in
          let (c4, e4) =
            refuse_if-returned (not (within model_asset_names (file_names a.files))) system_exit _
              bytes e3 in
          cc

  module _ (faults : Faults) (a : Args) (before : Disk) where
    -- The `try` block: all is published, or the output is as it was.
    abbrev Tried : Done r → Type 0
    Tried (returned u, after) = IsRelease a before after
    Tried (failed e, after) = after.out ≡ before.out

    module _ (bytes : Text) (wheel_eq : a.wheel ≡ some bytes)
        (ok : is_version a.version ≡ true) where
      install-Tried :
          (x : Result (Unit {0}))
          → check_staged r a bytes ≡ returned tt
          → require_empty_output before.out ≡ x
          → Tried (install r faults before (release a bytes) x)
      install-Tried (failed e) c h = refl
      install-Tried (returned u) c h = by_test faults.install_fails
        where
          wheel_ok :
              (validate_wheel r.record_digest a.version r.builder a.wheel_name (r.archive bytes)
                ≡ returned tt)
              × (check_pack r a.frozen_model_pack (payload r a bytes) ≡ returned tt)
          wheel_ok =
              let (x, e1, e2) =
                bind-returned
                  (validate_wheel r.record_digest a.version r.builder a.wheel_name
                    (r.archive bytes))
                  _ tt c in
              (e1, e2)

          by_test :
              (b : Bool)
              → Tried (
                  if b
                  then (failed os_error, staging_with r before (release a bytes))
                  else (returned tt, record { out = directory (release a bytes); staging = none }))
          by_test true = refl
          by_test false = (bytes, wheel_eq, ok, wheel_ok.0, wheel_ok.1, h, refl)

      sums-Tried :
          (x : Result (Unit {0}))
          → check_staged r a bytes ≡ x
          → Tried (write_sums r faults a before (payload r a bytes) x)
      sums-Tried (failed e) c = refl
      sums-Tried (returned u) c = by_test faults.sums_fail
        where
          by_test :
              (b : Bool)
              → Tried (
                  if b
                  then (failed os_error, staging_with r before (payload r a bytes))
                  else install r faults before (release a bytes) (require_empty_output before.out))
          by_test true = refl
          by_test false = install-Tried (require_empty_output before.out) c refl

      stage-Tried : Tried (stage r faults a before bytes)
      stage-Tried = by_test faults.copy_fails
        where
          by_test :
              (b : Bool)
              → Tried (
                  if b
                  then (failed os_error, staging_with r before [])
                  else write_sums r faults a before (payload r a bytes) (check_staged r a bytes))
          by_test true = refl
          by_test false = sums-Tried (check_staged r a bytes) refl

    -- The `finally` block, by whether a staging directory is there.
    remove-Outcome :
        (x : Result (Unit {0})) (d : Disk) (o : Option (List (Text × Text)))
        → d.staging ≡ o
        → Tried (x, d)
        → Outcome faults a before (remove r faults x d o)
    remove-Outcome (returned u) d none s h = h
    remove-Outcome (failed e) d none s h = (h, inr s)
    remove-Outcome (returned u) d (some files) s (bytes, _, _, _, _, _, e) =
        let gone : d.staging ≡ none = ap (λ (y : Disk). y.staging) e in absurd (cc)
    remove-Outcome (failed e) d (some files) s h = by_test faults.remove_fails refl
      where
        by_test :
            (b : Bool)
            → faults.remove_fails ≡ b
            → Outcome faults a before (
                if b
                then (failed os_error, d)
                else (failed e, record { out = d.out; staging = none }))
        by_test true k = (h, inl k)
        by_test false k = (h, inr refl)

    settled : (x : Done r) → Tried x → Outcome faults a before (remove_staging r faults x)
    settled (x, d) h = remove-Outcome x d d.staging refl h

  -- An assembly ends in one of two ways, from a disk without a staging directory, whichever of its
  -- file system calls fail. It returns, and the output is the complete release: the wheel and the
  -- pack have passed their checks, the output was new or empty, and no staging directory is left.
  -- Or it fails, the output is as it was, and no staging directory is left unless its removal
  -- failed.
  pub assemble-Outcome :
      (faults : Faults) (a : Args) (before : Disk)
      → before.staging ≡ none
      → Outcome faults a before (assemble r faults a before)
  unfolding assemble
  assemble-Outcome faults a before none_before = by_inputs (check_inputs r a before.out) refl
    where
      by_make :
          (bytes : Text)
          → check_inputs r a before.out ≡ returned bytes
          → (b : Bool)
          → Outcome faults a before (
              if b
              then (failed os_error, before)
              else remove_staging r faults (stage r faults a before bytes))
      by_make bytes h true = (refl, inr none_before)
      by_make bytes h false =
          let (ok, wheel_eq) = checked_inputs a before.out bytes h in
          settled faults a before (stage r faults a before bytes)
            (stage-Tried faults a before bytes wheel_eq ok)

      by_inputs :
          (i : Result Text)
          → check_inputs r a before.out ≡ i
          → Outcome faults a before (run_assembly r faults a before i)
      by_inputs (failed e) h = (refl, inr none_before)
      by_inputs (returned bytes) h = by_make bytes h faults.make_fails
