-- ===== src/Json/Number.antt =====
-- Python's arithmetic on `int` and `float`: exact comparisons, and roundings to a double.
use dfine_cpp.Common.{
  ℕ, zero, suc, ◌+◌, ◌-◌, ◌*◌, ◌/◌, ◌%◌, Bool, true, false, Option, none, some, if◌then◌else◌, ltb,
  leb, ◌==◌,
}
use Prim.Native.Nat.{◌^◌}
use dfine_cpp.Common.Int.{ℤ, pos, negsuc, negated, pos_part, neg_part, eqb_ℤ}
use dfine_cpp.Json.{Real, finite, infinite}

-- One, as a multiple of the smallest positive double.
unfoldable pub one : ℕ
one = 2 ^ 1074

-- `-z`
abbrev pub negate : ℤ → ℤ
negate (pos n) = negated n
negate (negsuc n) = pos (suc n)

-- `a - b`
abbrev pub difference : ℕ → ℕ → ℤ
difference a b = if leb b a then pos (a - b) else negated (b - a)

abbrev pub subtract : ℤ → ℤ → ℤ
subtract a b = difference (pos_part a + neg_part b) (pos_part b + neg_part a)

-- An integer as a multiple of 2^-1074.
abbrev pub scaled : ℤ → ℤ
scaled (pos n) = pos (n * one)
scaled (negsuc n) = negated (suc n * one)

abbrev pub eqb_real : Real → Real → Bool
eqb_real (finite a) (finite b) = eqb_ℤ a b
eqb_real (infinite true) (infinite true) = true
eqb_real (infinite false) (infinite false) = true
eqb_real _ _ = false

-- The bits of a magnitude, by fuel that its bits stay below.
unfoldable pub bits : ℕ → ℕ → ℕ
bits zero n = 0
bits (suc fuel) n = let rest = bits fuel (n / 2) in if n == 0 then 0 else suc rest

-- A quotient by `unit` to the nearest, ties to the even one.
abbrev nearest : ℕ → ℕ → ℕ
nearest n unit =
    let q = n / unit in
    let r = n % unit in
    if ltb (2 * r) unit then q else if ltb unit (2 * r) then suc q else q + q % 2

-- The nearest double to a magnitude of at most `fuel` bits: 53 bits are kept.
unfoldable pub round_magnitude : ℕ → ℕ → ℕ
round_magnitude fuel n =
    let width = bits fuel n in
    if leb width 53 then n else (let unit = 2 ^ (width - 53) in nearest n unit * unit)

-- The magnitudes that round to a double stay below 2^1024 - 2^970, and have at most 2098 bits.
unfoldable pub overflow : ℕ
overflow = (2 ^ 1024 - 2 ^ 970) * one

unfoldable pub fuel : ℕ
fuel = 2100

-- `float(n)` of a nonnegative integer, none where Python raises OverflowError.
unfoldable pub float_of : ℕ → Option ℤ
float_of n = let m = n * one in if leb overflow m then none else some (pos (round_magnitude fuel m))

abbrev pub round_signed : ℤ → ℤ
round_signed (pos n) = pos (round_magnitude fuel n)
round_signed (negsuc n) = negated (round_magnitude fuel (suc n))

-- `a - b` of two doubles whose difference no double overflows.
unfoldable pub minus : ℤ → ℤ → ℤ
minus a b = round_signed (subtract a b)
