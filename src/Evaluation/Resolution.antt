-- ===== src/Evaluation/Resolution.antt =====
-- Resolutions are printed in a form that reads back as themselves.
use dfine_cpp.Common.{
  ℕ, zero, suc, ◌≤◌, ◌≡◌, refl, sym, ap, ◌∙◌, Bool, true, false, Option, none, some, List, [], ◌∷◌,
  ◌++◌, Text, arith, ◌&&◌, ◌==◌, leb, all, ◌+◌, ◌*◌, ◌-◌,
}
use mathlib.Core.Path.{subst}
use dfine_cpp.Common.Int.{ℤ, pos, negsuc}
use dfine_cpp.Common.Decimal.{
  decimal, digits, value, value_from, is_digit, digits_are_digits, value-decimal,
}
use dfine_cpp.Common.Whole.{int_of, trim_start, read_digits, is_int_space}
use dfine_cpp.Common.Split.{split, contains}
use dfine_cpp.Common.Result.{returned, failed, ◌>>=◌, bind-returned, argument_error}
use dfine_cpp.Builder.Paths.{lower}
use dfine_cpp.Evaluation.Arguments.{
  int_or_error, positive, positive_int, dimension, dimensions, print_resolution, resolution,
}

read_digits-digits :
    (after : Bool) (acc c : ℕ) (s : Text)
    → is_digit c ≡ true
    → all is_digit s ≡ true
    → read_digits after acc (c ∷ s) ≡ some (value_from acc (c ∷ s))
unfolding read_digits value_from
read_digits-digits after acc c [] hc hs = rw hc refl
read_digits-digits after acc c (d ∷ s) hc hs =
    let rest = read_digits-digits true (acc * 10 + (c - b'0')) d s (ground arith) (ground arith) in
    rw (hc) rest

trim_start-digit : (c : ℕ) (s : Text) → is_digit c ≡ true → trim_start (c ∷ s) ≡ c ∷ s
unfolding trim_start
trim_start-digit c s h = let e : is_int_space c ≡ false = ground arith in rw e refl

int_of-digits :
    (c : ℕ) (s : Text)
    → is_digit c ≡ true
    → all is_digit s ≡ true
    → int_of (c ∷ s) ≡ some (pos (value (c ∷ s)))
int_of-digits c s hc hs =
    let minus : (c == b'-') ≡ false = ground arith in
    let plus : (c == b'+') ≡ false = ground arith in
    rw (trim_start-digit c s hc, minus, plus, read_digits-digits false 0 c s hc hs) refl

decimal-nonempty : (n : ℕ) → decimal n ≡ [] → ⊥
unfolding digits value_from
decimal-nonempty n e =
    let is_zero : n ≡ 0 = sym (value-decimal n) ∙ ap value e in
    let printed : decimal 0 ≡ [] = subst (λ m. decimal m ≡ []) is_zero e in cc

int_of-decimal : (n : ℕ) → int_of (decimal n) ≡ some (pos n)
int_of-decimal n =
    by_text (decimal n) refl (digits_are_digits (suc n) n)
    ∙ ap (λ m. some (pos m)) (value-decimal n)
  where
    by_text : (s : Text) → decimal n ≡ s → all is_digit s ≡ true → int_of s ≡ some (pos (value s))
    by_text [] e h = absurd (decimal-nonempty n e)
    by_text (c ∷ s) e h = int_of-digits c s (ground arith) (ground arith)

lower-digits : (s : Text) → all is_digit s ≡ true → lower s ≡ s
lower-digits [] h = refl
lower-digits (c ∷ s) h =
    let e : (leb b'A' c && leb c b'Z') ≡ false = ground arith in
    rw (e, lower-digits s (ground arith)) refl

lower-append : (s t : Text) → lower (s ++ t) ≡ lower s ++ lower t
lower-append [] t = refl
lower-append (c ∷ s) t = rw (lower-append s t) refl

split_first :
    (sep : ℕ) (s t : Text) → contains sep s ≡ false → split sep (s ++ (sep ∷ t)) ≡ s ∷ split sep t
unfolding split
split_first sep [] t h = let e : (sep == sep) ≡ true = ground arith in rw e refl
split_first sep (c ∷ s) t h =
    let e : (c == sep) ≡ false = ground arith in rw (split_first sep s t (ground arith), e) refl

split_last : (sep : ℕ) (s : Text) → contains sep s ≡ false → split sep s ≡ s ∷ []
unfolding split
split_last sep [] h = refl
split_last sep (c ∷ s) h =
    let e : (c == sep) ≡ false = ground arith in rw (split_last sep s (ground arith), e) refl

contains-digits : (s : Text) → all is_digit s ≡ true → contains b'x' s ≡ false
contains-digits [] h = refl
contains-digits (c ∷ s) h = ground (arith, contains-digits s)

dimension-decimal : (n : ℕ) → 1 ≤ n → dimension (decimal n) ≡ returned n
unfolding positive_int
dimension-decimal zero h = absurd (omega (arith, h))
dimension-decimal (suc n) h = rw (dimension, positive_int, int_of-decimal (suc n)) refl

printed-read :
    (w h : ℕ)
    → 1 ≤ w
    → 1 ≤ h
    → resolution (print_resolution (w, h)) ≡ returned (print_resolution (w, h))
unfolding resolution
printed-read w h hw hh =
    let dw = digits_are_digits (suc w) w in
    let dh = digits_are_digits (suc h) h in
    rw
      (
        lower-append (decimal w) (b'x' ∷ decimal h),
        lower-digits (decimal w) dw,
        lower-digits (decimal h) dh,
        split_first b'x' (decimal w) (decimal h) (contains-digits (decimal w) dw),
        split_last b'x' (decimal h) (contains-digits (decimal h) dh),
        dimension-decimal w hw,
        dimension-decimal h hh,
      )
      refl

dimension-positive : (s : Text) (n : ℕ) → dimension s ≡ returned n → 1 ≤ n
unfolding positive_int
dimension-positive s n h = by_value (int_of s) h
  where
    by_value :
        (o : Option ℤ)
        → elim (int_or_error o >>= positive) [
          | returned m ↦ returned m
          | failed _ ↦ failed argument_error
        ]
          ≡ returned n
        → 1 ≤ n
    by_value none e = cc
    by_value (some (pos zero)) e = cc
    by_value (some (pos (suc m))) e = let same_number : suc m ≡ n = cc in omega (arith, same_number)
    by_value (some (negsuc m)) e = cc

dimensions-positive :
    (parts : List Text) (w h : ℕ) → dimensions parts ≡ returned (w, h) → (1 ≤ w) × (1 ≤ h)
dimensions-positive (a ∷ b ∷ []) w h e =
    let (m, em, f) = bind-returned (dimension a) _ (w, h) e in
    let (n, en, g) = bind-returned (dimension b) _ (w, h) f in
    let first : m ≡ w = cc in
    let second : n ≡ h = cc in
    (
      subst (λ x. 1 ≤ x) first (dimension-positive a m em),
      subst (λ x. 1 ≤ x) second (dimension-positive b n en),
    )
dimensions-positive [] w h e = cc
dimensions-positive (a ∷ []) w h e = cc
dimensions-positive (a ∷ b ∷ c ∷ rest) w h e = cc

-- A resolution that the parser returns, given to it again, is returned as it is.
pub resolution-idempotent : (s t : Text) → resolution s ≡ returned t → resolution t ≡ returned t
unfolding resolution
resolution-idempotent s t e =
    let (size, es, f) = bind-returned (dimensions (split b'x' (lower s))) _ t e in
    let (hw, hh) = dimensions-positive (split b'x' (lower s)) size.0 size.1 es in
    let printed : print_resolution size ≡ t = cc in
    subst (λ x. resolution x ≡ returned x) printed (printed-read size.0 size.1 hw hh)
