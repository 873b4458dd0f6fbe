-- ===== src/Release/Download.antt =====
-- `_validate_downloaded_release` of trt-files/scripts/release_assets.py: a directory as the names
-- of its files and the text of SHA256SUMS.
use dfine_cpp.Common.{not, List, [], ◌∷◌, Text, codes, text_eq, map, if◌then◌else◌}
use dfine_cpp.Common.Result.{Result, returned, system_exit, ◌>>=◌, ◌>>◌, refuse_if}
use dfine_cpp.Release.Names.{expected_payload_names, same_set}
use dfine_cpp.Release.Manifest.{Entry, manifest_entries}

abbrev pub sums_name : Text
sums_name = codes "SHA256SUMS"

-- The names other than SHA256SUMS.
unfoldable pub payload_names : List Text → List Text
payload_names [] = []
payload_names (n ∷ ns) =
    let rest = payload_names ns in if text_eq n sums_name then rest else n ∷ rest

abbrev pub entry_names : List Entry → List Text
entry_names es = map (λ (e : Entry). e.name) es

unfoldable pub validate_downloaded_release : List Text → Text → Text → Result (List Entry)
validate_downloaded_release names sums version = do
  let expected = expected_payload_names version
  refuse_if (not (same_set expected (payload_names names))) system_exit
  entries ← manifest_entries sums
  refuse_if (not (same_set (entry_names entries) expected)) system_exit
  returned entries
