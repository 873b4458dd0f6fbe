-- ===== src/Common/Whole.antt =====
-- `int(text)` of Python on ASCII texts, with no limit on the number of digits.
use Prim.Native.Nat.{ℕ, ◌+◌, ◌*◌, ◌-◌}
use mathlib.Core.Bool.{Bool, true, false, ◌&&◌, ◌||◌}
use mathlib.Core.Option.{Option, none, some}
use mathlib.Core.List.{[], ◌∷◌}
use dfine_cpp.Common.Tests.{◌==◌, leb, if◌then◌else◌}
use dfine_cpp.Common.Lists.{all}
use dfine_cpp.Common.Strings.{Text}
use dfine_cpp.Common.Int.{ℤ, pos, negated}
use dfine_cpp.Common.Decimal.{is_digit}

-- The characters that `strip` removes.
abbrev pub is_space : ℕ → Bool
is_space c = (leb 9 c && leb c 13) || ((leb 28 c && leb c 31) || c == 32)

-- The characters that `int` skips around the number of an ASCII text.
abbrev pub is_int_space : ℕ → Bool
is_int_space c = (leb 9 c && leb c 13) || c == 32

unfoldable pub trim_start : Text → Text
trim_start [] = []
trim_start (c ∷ s) = let rest = trim_start s in if is_int_space c then rest else c ∷ s

-- Digits with single underscores between them and spaces behind, read after `acc`; the flag says
-- that a digit has just been read.
unfoldable pub read_digits : Bool → ℕ → Text → Option ℕ
read_digits true acc [] = some acc
read_digits false acc [] = none
read_digits after acc (c ∷ s) =
    let more = read_digits true (acc * 10 + (c - b'0')) s in
    let joined = read_digits false acc s in
    if is_digit c
    then more
    else if after && c == b'_'
    then joined
    else if after && (is_int_space c && all is_int_space s)
    then some acc
    else none

abbrev pub signed : Bool → Option ℕ → Option ℤ
signed _ none = none
signed true (some n) = some (negated n)
signed false (some n) = some (pos n)

abbrev pub read_signed : Text → Option ℤ
read_signed [] = none
read_signed (c ∷ s) =
    if c == b'-'
    then signed true (read_digits false 0 s)
    else if c == b'+'
    then signed false (read_digits false 0 s)
    else signed false (read_digits false 0 (c ∷ s))

-- `int(s)`, none where it raises ValueError
abbrev pub int_of : Text → Option ℤ
int_of s = read_signed (trim_start s)
