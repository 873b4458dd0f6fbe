-- ===== src/Evaluation/Arguments.antt =====
-- The argument types of the evaluation scripts, in trt-files/scripts/eval_contract.py: texts of
-- ASCII characters to numbers and resolutions.
use dfine_cpp.Common.{ℕ, suc, Option, none, some, List, [], ◌∷◌, ◌++◌, Text, if◌then◌else◌, leb}
use dfine_cpp.Common.Int.{ℤ, pos, negsuc}
use dfine_cpp.Common.Decimal.{decimal}
use dfine_cpp.Common.Whole.{int_of}
use dfine_cpp.Common.Split.{split}
use dfine_cpp.Common.Result.{Result, returned, failed, value_error, argument_error, ◌>>=◌}
use dfine_cpp.Builder.Paths.{lower}

abbrev pub int_or_error : Option ℤ → Result ℤ
int_or_error none = failed value_error
int_or_error (some z) = returned z

-- `int(text)`
abbrev pub read_int : Text → Result ℤ
read_int s = int_or_error (int_of s)

abbrev pub positive : ℤ → Result ℕ
positive (pos (suc n)) = returned (suc n)
positive _ = failed argument_error

unfoldable pub positive_int : Text → Result ℕ
positive_int s = read_int s >>= positive

abbrev nonnegative : ℤ → Result ℕ
nonnegative (pos n) = returned n
nonnegative (negsuc n) = failed argument_error

unfoldable pub nonnegative_int : Text → Result ℕ
nonnegative_int s = read_int s >>= nonnegative

abbrev byte : ℤ → Result ℕ
byte (pos n) = if leb n 255 then returned n else failed argument_error
byte (negsuc n) = failed argument_error

unfoldable pub byte_value : Text → Result ℕ
byte_value s = read_int s >>= byte

-- Any error of a dimension becomes an argument error.
abbrev pub dimension : Text → Result ℕ
dimension s = elim (positive_int s) [ returned n ↦ returned n | failed _ ↦ failed argument_error ]

abbrev pub dimensions : List Text → Result (ℕ × ℕ)
dimensions (a ∷ b ∷ []) = do width ← dimension a; height ← dimension b; returned (width, height)
dimensions _ = failed argument_error

-- `f"{width}x{height}"`
abbrev pub print_resolution : ℕ × ℕ → Text
print_resolution (width, height) = decimal width ++ (b'x' ∷ decimal height)

unfoldable pub resolution : Text → Result Text
resolution s = dimensions (split b'x' (lower s)) >>= λ size. returned (print_resolution size)
