-- ===== src/Release/Manifest.antt =====
-- SHA256SUMS: the lines that `assemble` writes, and `_manifest_entries`, which reads them, in
-- trt-files/scripts/release_assets.py.
use dfine_cpp.Common.{
  ℕ, zero, suc, Bool, false, not, Option, none, some, List, [], ◌∷◌, ◌++◌, Text, ◌&&◌, ◌||◌, ◌==◌,
  if◌then◌else◌, leb,
}
use dfine_cpp.Common.Split.{contains}
use dfine_cpp.Common.Result.{Result, returned, failed, system_exit, ◌>>=◌, ◌>>◌, refuse_if}
use dfine_cpp.Json.{is_among}
use dfine_cpp.Chain.Require.{is_sha256}

-- A name with its digest.
pub record Entry : Type 0 where
  pub name : Text
  pub digest : Text

-- `f"{digest}  {name}"`
abbrev pub print_entry : Entry → Text
print_entry e = e.digest ++ (b' ' ∷ b' ' ∷ e.name)

-- `"\n".join(lines) + "\n"` of one line or more
unfoldable pub print_manifest : List Entry → Text
print_manifest [] = []
print_manifest (e ∷ es) = print_entry e ++ (10 ∷ print_manifest es)

-- The characters that end a line for `str.splitlines`.
abbrev pub is_break : ℕ → Bool
is_break c =
    ((leb 10 c && leb c 13) || (leb 28 c && leb c 30))
    || ((c == 0x85) || (c == 0x2028 || c == 0x2029))

abbrev starts_line_feed : Text → Bool
starts_line_feed [] = false
starts_line_feed (c ∷ s) = c == 10

abbrev pub extend : ℕ → List Text → List Text
extend c [] = (c ∷ []) ∷ []
extend c (l ∷ ls) = (c ∷ l) ∷ ls

-- `text.splitlines()`; a carriage return and the line feed after it are one break.
unfoldable pub split_lines : Text → List Text
split_lines [] = []
split_lines (c ∷ s) =
    let rest = split_lines s in
    if is_break c
    then (if c == 13 && starts_line_feed s then rest else [] ∷ rest)
    else extend c rest

unfoldable pub split_at : ℕ → Text → Text × Text
split_at zero s = ([], s)
split_at (suc n) [] = ([], [])
split_at (suc n) (c ∷ s) = let (a, b) = split_at n s in (c ∷ a, b)

abbrev pub is_asset_name : Text → Bool
is_asset_name [] = false
is_asset_name (c ∷ s) = not (contains b'/' (c ∷ s))

abbrev entry_of : Text → Text → Option Entry
entry_of digest (a ∷ b ∷ label) =
    if is_sha256 digest && ((a == b' ' && b == b' ') && is_asset_name label)
    then some (record { name = label; digest = digest })
    else none
entry_of digest _ = none

-- `re.fullmatch(r"([0-9a-f]{64})  ([^/]+)", line)`
unfoldable pub read_entry : Text → Option Entry
read_entry line = let (digest, rest) = split_at 64 line in entry_of digest rest

abbrev pub add_entry : Option Entry → List Text → Result Entry
add_entry none seen = failed system_exit
add_entry (some e) seen = refuse_if (is_among e.name seen) system_exit >> returned e

-- The loop over the lines, which remembers the names it has seen.
unfoldable pub read_entries : List Text → List Text → Result (List Entry)
read_entries seen [] = returned []
read_entries seen (line ∷ lines) = do
  e ← add_entry (read_entry line) seen
  rest ← read_entries (e.name ∷ seen) lines
  returned (e ∷ rest)

unfoldable pub manifest_entries : Text → Result (List Entry)
manifest_entries sums = read_entries [] (split_lines sums)
