-- ===== src/Release/Wheel.antt =====
-- `_validate_wheel` of trt-files/scripts/release_assets.py. What `zipfile`, `csv` and `email` read
-- of a wheel is a record; a text of bytes is a list of their codes.
use dfine_cpp.Common.{
  Bool, true, false, not, Option, none, some, List, [], ◌∷◌, ◌++◌, Text, codes, text_eq, any,
  length, map, ◌&&◌, ◌||◌, if◌then◌else◌,
}
use dfine_cpp.Common.Decimal.{decimal}
use dfine_cpp.Common.Result.{Result, returned, failed, system_exit, ◌>>=◌, ◌>>◌, refuse_if}
use dfine_cpp.Builder.Paths.{lower}
use dfine_cpp.Cli.Cache.{strip, ends_with}
use dfine_cpp.Json.{is_among}
use dfine_cpp.Release.Names.{wheel_name, same_set, within}

pub record Archive : Type 0 where
  -- the members in the order of the archive, with their contents
  pub members : List (Text × Text)
  -- `testzip()` finds no corrupt member
  pub is_intact : Bool
  -- the rows of RECORD
  pub rows : List (List Text)
  -- Name and Version of METADATA, Root-Is-Purelib ("" if absent) and Tag of WHEEL
  pub name : Option Text
  pub version : Option Text
  pub root_is_purelib : Text
  pub tag : Option Text

abbrev pub member_names : Archive → List Text
member_names a = map (λ (m : Text × Text). m.0) a.members

unfoldable pub has_repeats : List Text → Bool
has_repeats [] = false
has_repeats (n ∷ ns) = is_among n ns || has_repeats ns

abbrev pub starts_with : Text → Text → Bool
starts_with prefix s = elim (strip prefix s) [ none ↦ false | some _ ↦ true ]

-- `needle in text`
unfoldable pub occurs : Text → Text → Bool
occurs needle [] = starts_with needle []
occurs needle (c ∷ s) = starts_with needle (c ∷ s) || occurs needle s

abbrev pub dist_info : Text → Text
dist_info version = codes "dfine-" ++ (version ++ codes ".dist-info")

abbrev pub record_path : Text → Text
record_path version = dist_info version ++ codes "/RECORD"

abbrev pub is_foreign : Text → Text → Bool
is_foreign version n = occurs (codes ".dist-info/") n && not (starts_with (dist_info version) n)

abbrev pub required_paths : Text → List Text
required_paths version =
    (dist_info version ++ codes "/METADATA")
    ∷ (dist_info version ++ codes "/WHEEL")
    ∷ record_path version
    ∷ codes "dfine/__init__.py"
    ∷ codes "dfine/libdfine.so"
    ∷ codes "dfine/_scripts/build_engine.py"
    ∷ []

abbrev pub has_license : List Text → Text → Bool
has_license names license = any (ends_with (codes ".dist-info/licenses/" ++ license)) names

-- `archive.read(name)`
unfoldable pub read_member : Text → List (Text × Text) → Result Text
read_member n [] = failed system_exit
read_member n ((m, bytes) ∷ ms) =
    let rest = read_member n ms in if text_eq n m then returned bytes else rest

abbrev pub elf : Text
elf = 127 ∷ codes "ELF"

pub record Row : Type 0 where
  pub path : Text
  pub digest : Text
  pub size : Text

abbrev add_row : List Text → Result (List Row) → Result (List Row)
add_row (path ∷ digest ∷ size ∷ []) rest =
    rest >>= λ rows. returned (record { path = path; digest = digest; size = size } ∷ rows)
add_row _ rest = failed system_exit

unfoldable pub read_rows : List (List Text) → Result (List Row)
read_rows [] = returned []
read_rows (row ∷ rows) = add_row row (read_rows rows)

abbrev pub row_paths : List Row → List Text
row_paths rows = map (λ (r : Row). r.path) rows

-- `records[name]`
unfoldable pub row_of : Text → List Row → Option Row
row_of n [] = none
row_of n (r ∷ rs) = let rest = row_of n rs in if text_eq n r.path then some r else rest

abbrev pub is_empty : Text → Bool
is_empty [] = true
is_empty (c ∷ s) = false

module _ (record_digest : Text → Text) where
  -- RECORD lists itself without a digest and every other member with its digest and size.
  abbrev pub is_recorded : Text → Text → Text → Option Row → Bool
  is_recorded version name bytes none = false
  is_recorded version name bytes (some r) =
      if text_eq name (record_path version)
      then is_empty r.digest && is_empty r.size
      else text_eq r.digest (codes "sha256=" ++ record_digest bytes)
        && text_eq r.size (decimal (length bytes))

  unfoldable pub check_records : Text → List Row → List (Text × Text) → Result (Unit {0})
  check_records version rows [] = returned tt
  check_records version rows ((n, bytes) ∷ ms) =
      refuse_if (not (is_recorded version n bytes (row_of n rows))) system_exit
      >> check_records version rows ms

  abbrev pub check_record : Text → Archive → Result (Unit {0})
  check_record version a = do
    rows ← read_rows a.rows
    refuse_if (has_repeats (row_paths rows)) system_exit
    refuse_if (not (same_set (row_paths rows) (member_names a))) system_exit
    check_records version rows a.members

  abbrev pub check_members : Text → Text → Archive → Result (Unit {0})
  check_members version builder a = do
    let names = member_names a
    refuse_if (has_repeats names) system_exit
    refuse_if (not a.is_intact) system_exit
    refuse_if (any (is_foreign version) names) system_exit
    refuse_if (not (within (required_paths version) names)) system_exit
    refuse_if (not (has_license names (codes "LICENSE") && has_license names (codes "NOTICE")))
        system_exit
    library ← read_member (codes "dfine/libdfine.so") a.members
    refuse_if (not (starts_with elf library)) system_exit
    bundled ← read_member (codes "dfine/_scripts/build_engine.py") a.members
    refuse_if (not (text_eq bundled builder)) system_exit
    check_record version a

  abbrev is_option : Option Text → Text → Bool
  is_option none t = false
  is_option (some s) t = text_eq s t

  abbrev pub check_metadata : Text → Archive → Result (Unit {0})
  check_metadata version a = do
    refuse_if (not (is_option a.name (codes "dfine") && is_option a.version version)) system_exit
    refuse_if
        (not (
          text_eq (lower a.root_is_purelib) (codes "false")
          && is_option a.tag (codes "py3-none-linux_x86_64")))
        system_exit

  abbrev pub check_archive : Text → Text → Option Archive → Result (Unit {0})
  check_archive version builder none = failed system_exit
  check_archive version builder (some a) =
      check_members version builder a >> check_metadata version a

  -- `builder` is the release's build_engine.py.
  unfoldable pub validate_wheel : Text → Text → Text → Option Archive → Result (Unit {0})
  validate_wheel version builder name archive =
      refuse_if (not (text_eq name (wheel_name version))) system_exit
      >> check_archive version builder archive
