-- ===== src/Sweep/Options.antt =====
-- The options of a point's specification: the dictionary that `parse_point` fills and empties.
use dfine_cpp.Common.{
  Bool, true, false, not, Option, none, some, List, [], ◌∷◌, ◌++◌, Text, text_eq, ◌||◌,
  if◌then◌else◌,
}
use dfine_cpp.Common.Result.{Result, returned, system_exit, ◌>>=◌, ◌>>◌, refuse_if}
use dfine_cpp.Common.Split.{partition}

abbrev pub Options : Type 0
Options = List (Text × Text)

-- `options.get(key)`
unfoldable pub lookup : Text → Options → Option Text
lookup key [] = none
lookup key ((k, v) ∷ rest) = let later = lookup key rest in if text_eq key k then some v else later

-- `options.pop(key)`, less the value.
unfoldable pub without : Text → Options → Options
without key [] = []
without key ((k, v) ∷ rest) =
    let later = without key rest in if text_eq key k then rest else (k, v) ∷ later

abbrev pub has_key : Text → Options → Bool
has_key key options = elim (lookup key options) [ none ↦ false | some _ ↦ true ]

abbrev pub is_empty {ℓ} : {A : Type ℓ} → List A → Bool
is_empty [] = true
is_empty (_ ∷ _) = false

-- One item `key=value`, added behind the others.
abbrev pub add_item : Text → Options → Result Options
add_item item options =
    let (key, separator, value) = partition b'=' item in
    refuse_if (not separator || (is_empty key || is_empty value)) system_exit
    >> (refuse_if (has_key key options) system_exit >> returned (options ++ ((key, value) ∷ [])))

unfoldable pub parse_options : List Text → Options → Result Options
parse_options [] options = returned options
parse_options (item ∷ items) options = add_item item options >>= parse_options items
