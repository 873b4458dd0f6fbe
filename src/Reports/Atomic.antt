-- ===== src/Reports/Atomic.antt =====
-- `paths_alias` and `atomic_json` of trt-files/scripts/evaluation_report.py: a report is written to
-- a temporary file beside its target and put in place at the end.
use dfine_cpp.Common.{Bool, true, false, not, Option, none, some, [], Text, ◌&&◌, if◌then◌else◌}
use dfine_cpp.Common.Result.{
  Error, Result, returned, failed, value_error, os_error, ◌>>◌, refuse_if,
}
use dfine_cpp.Publish.{FilePath, same_path}

-- What `os` tells of paths: their resolved form, whether there is an entry, and whether two
-- entries are one file, none where the call raises.
pub record Paths : Type 0 where
  pub resolve : FilePath → FilePath
  pub exists : FilePath → Bool
  pub same_file : FilePath → FilePath → Option Bool

abbrev or_false : Option Bool → Bool
or_false none = false
or_false (some b) = b

unfoldable pub paths_alias : Paths → FilePath → FilePath → Bool
paths_alias paths first second =
    let left = paths.resolve first in
    let right = paths.resolve second in
    if same_path left right
    then true
    else (paths.exists left && paths.exists right) && or_false (paths.same_file left right)

-- Entries that are no files are directories.
pub data Entry : Type 0 where
  absent : Entry
  file : Text → Entry
  directory : Entry

abbrev pub is_there : Entry → Bool
is_there absent = false
is_there _ = true

abbrev pub is_file : Entry → Bool
is_file (file _) = true
is_file _ = false

-- The target and the temporary file.
pub record Place : Type 0 where
  pub target : Entry
  pub temporary : Option Text

-- What goes wrong: calls that raise an OSError, and an entry that another process puts under the
-- target's name before the report is.
pub record Events : Type 0 where
  pub create_fails : Bool
  pub write_fails : Bool
  pub publish_fails : Bool
  pub unlink_fails : Bool
  pub arrival : Option Entry

abbrev pub arrived : Option Entry → Place → Place
arrived none place = place
arrived (some a) place = record { target = a; temporary = place.temporary }

abbrev pub Done : Type 0
Done = Result (Unit {0}) × Place

-- `tempfile.mkstemp` made the temporary file
abbrev pub created : Place → Place
created place = record { target = place.target; temporary = some [] }

abbrev pub written : Text → Place → Place
written encoded place = record { target = place.target; temporary = some encoded }

-- The call goes through, or raises and changes nothing.
abbrev pub call : Bool → Error → Place → Place → Done
call true e before after = (failed e, before)
call false e before after = (returned tt, after)

-- By what stands under the target's name.
abbrev pub replace_at : Text → Events → Place → Entry → Done
replace_at encoded events place directory = (failed os_error, place)
replace_at encoded events place _ =
    call events.publish_fails os_error place (record { target = file encoded; temporary = none })

-- `os.replace(temporary, target)`, which a directory does not let pass; the temporary name goes.
abbrev pub replace : Text → Events → Place → Done
replace encoded events place = replace_at encoded events place place.target

abbrev pub link_at : Text → Events → Place → Entry → Done
link_at encoded events place absent =
    call events.publish_fails value_error place
      (record { target = file encoded; temporary = place.temporary })
link_at encoded events place _ = (failed value_error, place)

-- `os.link(temporary, target)`, with its errors made ValueErrors; the temporary name stays.
abbrev pub link : Text → Events → Place → Done
link encoded events place = link_at encoded events place place.target

abbrev pub put : Bool → Text → Events → Place → Done
put true = replace
put false = link

-- `finally: temporary_path.unlink(missing_ok=True)`, whose error takes the place of the outcome
abbrev pub settle : Events → Done → Done
settle events (r, place) =
    if events.unlink_fails
    then (failed os_error, place)
    else (r, record { target = place.target; temporary = none })

-- The `try` block, on the temporary file that is still empty.
abbrev pub write_then_put : Bool → Text → Events → Place → Done
write_then_put overwrite encoded events place =
    if events.write_fails
    then (failed os_error, place)
    else put overwrite encoded events (arrived events.arrival (written encoded place))

abbrev pub write_and_put : Bool → Events → Place → Text → Done
write_and_put overwrite events place encoded =
    if events.create_fails
    then (failed os_error, place)
    else settle events (write_then_put overwrite encoded events (created place))

abbrev pub check_target : Bool → Bool → Entry → Result Text → Result Text
check_target aliased overwrite now encoded = do
  refuse_if aliased value_error
  refuse_if (is_there now && not overwrite) value_error
  refuse_if (is_there now && not (is_file now)) value_error
  encoded

abbrev pub write_checked : Bool → Events → Place → Result Text → Done
write_checked overwrite events place (failed e) = (failed e, place)
write_checked overwrite events place (returned encoded) =
    write_and_put overwrite events place encoded

-- `encoded` is the payload's JSON text, or the ValueError of a number that JSON has not; the first
-- argument says that the target aliases a protected path.
unfoldable pub atomic_json : Bool → Bool → Result Text → Events → Place → Done
atomic_json aliased overwrite encoded events place =
    write_checked overwrite events place (check_target aliased overwrite place.target encoded)
