-- ===== src/Release/Names.antt =====
-- The names of a release's assets and its version, in trt-files/scripts/release_assets.py.
use dfine_cpp.Common.{
  ℕ, Bool, true, false, not, Option, none, some, List, [], ◌∷◌, ◌++◌, Text, codes, all, ◌&&◌, ◌||◌,
  ◌==◌, if◌then◌else◌, leb,
}
use dfine_cpp.Common.Decimal.{is_digit}
use dfine_cpp.Common.Result.{Result, returned, system_exit, ◌>>◌, refuse_if}
use dfine_cpp.Json.{is_among}

-- SIZES and RECIPES
abbrev pub sizes : List Text
sizes = codes "n" ∷ codes "s" ∷ codes "m" ∷ codes "l" ∷ codes "x" ∷ []

abbrev pub recipes : List Text
recipes = codes "op19" ∷ codes "slim" ∷ []

-- `f"dfine_{size}_{recipe}.{extension}"`
abbrev pub asset_name : Text → Text → Text → Text
asset_name size recipe extension =
    codes "dfine_" ++ (size ++ (b'_' ∷ (recipe ++ (b'.' ∷ extension))))

abbrev both_extensions : Text → Text → List Text
both_extensions size recipe =
    asset_name size recipe (codes "onnx") ∷ asset_name size recipe (codes "json") ∷ []

abbrev of_recipes : Text → List Text → List Text
of_recipes size [] = []
of_recipes size (r ∷ rs) = both_extensions size r ++ of_recipes size rs

abbrev of_sizes : List Text → List Text
of_sizes [] = []
of_sizes (s ∷ ss) = of_recipes s recipes ++ of_sizes ss

abbrev pub model_asset_names : List Text
model_asset_names = of_sizes sizes

abbrev pub wheel_name : Text → Text
wheel_name version = codes "dfine-" ++ (version ++ codes "-py3-none-linux_x86_64.whl")

abbrev pub expected_payload_names : Text → List Text
expected_payload_names version = model_asset_names ++ (wheel_name version ∷ [])

-- What follows one digit or more.
unfoldable pub after_digits : Bool → Text → Option Text
after_digits some_read [] = if some_read then some [] else none
after_digits some_read (c ∷ s) =
    let rest = after_digits true s in
    if is_digit c then rest else if some_read then some (c ∷ s) else none

abbrev pub after_dot : Option Text → Option Text
after_dot none = none
after_dot (some []) = none
after_dot (some (c ∷ s)) = if c == b'.' then after_digits false s else none

abbrev pub is_tail_code : ℕ → Bool
is_tail_code c =
    is_digit c
    || ((leb b'A' c && leb c b'Z')
        || ((leb b'a' c && leb c b'z') || (c == b'.' || (c == b'+' || c == b'-'))))

abbrev pub is_tail : Option Text → Bool
is_tail none = false
is_tail (some s) = all is_tail_code s

-- VERSION.fullmatch
unfoldable pub is_version : Text → Bool
is_version s = is_tail (after_dot (after_dot (after_digits false s)))

abbrev untagged : Text → Text
untagged [] = []
untagged (c ∷ s) = if c == b'v' then s else []

unfoldable pub version_from_tag : Text → Result Text
version_from_tag tag =
    refuse_if (not (is_version (untagged tag))) system_exit >> returned (untagged tag)

-- The sets of two lists are equal: nothing of the one is missing from the other.
abbrev pub within : List Text → List Text → Bool
within xs ys = all (λ x. is_among x ys) xs

abbrev pub same_set : List Text → List Text → Bool
same_set xs ys = within xs ys && within ys xs
