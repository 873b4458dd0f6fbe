-- ===== src/Common/Decimal.antt =====
-- `str` and `int` on natural numbers in decimal, and `isdigit` on ASCII texts.
use Prim.Native.Nat.{ℕ, zero, suc, ◌+◌, ◌*◌, ◌-◌, ◌/◌, ◌%◌, ◌<◌}
use mathlib.Core.Path.{◌≡◌, refl, sym, ap, ◌∙◌}
use mathlib.Core.Logic.{inl, inr}
use mathlib.Core.Bool.{Bool, true, false, ◌&&◌}
use mathlib.Core.List.{[], ◌∷◌, ◌++◌}
use native.Mathlib.Omega.{arith}
use dfine_cpp.Common.Tests.{leb, if◌then◌else◌, Bool-cases}
use dfine_cpp.Common.Lists.{all}
use dfine_cpp.Common.Strings.{Text}

-- The digits of a number, by fuel above it.
unfoldable pub digits : ℕ → ℕ → Text
digits zero n = []
digits (suc fuel) n =
    let rest = digits fuel (n / 10) in
    if leb n 9 then (b'0' + n) ∷ [] else rest ++ ((b'0' + n % 10) ∷ [])

-- `str(n)`
abbrev pub decimal : ℕ → Text
decimal n = digits (suc n) n

unfoldable pub value_from : ℕ → Text → ℕ
value_from acc [] = acc
value_from acc (c ∷ s) = value_from (acc * 10 + (c - b'0')) s

-- `int(s)` on a text of digits
abbrev pub value : Text → ℕ
value s = value_from 0 s

abbrev pub is_digit : ℕ → Bool
is_digit c = leb b'0' c && leb c b'9'

-- `s.isdigit()`
abbrev pub isdigit : Text → Bool
isdigit [] = false
isdigit (c ∷ s) = is_digit c && all is_digit s

value-append :
    (acc : ℕ) (s : Text) (c : ℕ)
    → value_from acc (s ++ (c ∷ [])) ≡ value_from acc s * 10 + (c - b'0')
unfolding value_from
value-append acc [] c = refl
value-append acc (d ∷ s) c = value-append (acc * 10 + (d - b'0')) s c

value-digits : (fuel n : ℕ) → n < fuel → value (digits fuel n) ≡ n
unfolding digits value_from
value-digits zero n h = absurd (omega (arith, h))
value-digits (suc fuel) n h = elim (Bool-cases (leb n 9)) [
  | inl small ↦ rw (small) (omega arith)
  | inr large ↦
      let less : n / 10 < fuel = ground arith in
      rw (large) (
        value-append 0 (digits fuel (n / 10)) (b'0' + n % 10)
        ∙ omega (arith, value-digits fuel (n / 10) less))
]

-- Reading what was printed gives the number back.
pub value-decimal : (n : ℕ) → value (decimal n) ≡ n
value-decimal n = value-digits (suc n) n (omega arith)

pub decimal-injective : (m n : ℕ) → decimal m ≡ decimal n → m ≡ n
decimal-injective m n e = sym (value-decimal m) ∙ (ap value e ∙ value-decimal n)

all_append :
    (s t : Text) → all is_digit s ≡ true → all is_digit t ≡ true → all is_digit (s ++ t) ≡ true
all_append [] t hs ht = ht
all_append (c ∷ s) t hs ht = ground (arith, all_append s t)

pub digits_are_digits : (fuel n : ℕ) → all is_digit (digits fuel n) ≡ true
unfolding digits
digits_are_digits zero n = refl
digits_are_digits (suc fuel) n = elim (Bool-cases (leb n 9)) [
  | inl small ↦ rw small (ground arith)
  | inr large ↦ rw large (
      all_append (digits fuel (n / 10)) ((b'0' + n % 10) ∷ []) (digits_are_digits fuel (n / 10))
        (ground arith))
]
