-- ===== src/Common/Split.antt =====
-- `str.partition`, `str.split` and `str.replace` for a separator of one character.
use Prim.Native.Nat.{ℕ}
use mathlib.Core.Path.{◌≡◌, refl}
use mathlib.Core.Bool.{Bool, true, false}
use mathlib.Core.List.{List, [], ◌∷◌, ◌++◌, map}
use native.Mathlib.Omega.{arith}
use dfine_cpp.Common.Tests.{◌==◌, if◌then◌else◌}
use dfine_cpp.Common.Lists.{any}
use dfine_cpp.Common.Strings.{Text}

-- The text before the separator, whether there is one, and the text after it.
unfoldable pub partition : ℕ → Text → Text × Bool × Text
partition sep [] = ([], false, [])
partition sep (c ∷ s) =
    let (before, found, after) = partition sep s in
    if c == sep then ([], true, s) else (c ∷ before, found, after)

abbrev pub extend_first : ℕ → List Text → List Text
extend_first c [] = (c ∷ []) ∷ []
extend_first c (part ∷ parts) = (c ∷ part) ∷ parts

unfoldable pub split : ℕ → Text → List Text
split sep [] = [] ∷ []
split sep (c ∷ s) = let parts = split sep s in if c == sep then [] ∷ parts else extend_first c parts

abbrev pub replace_code : ℕ → ℕ → Text → Text
replace_code old new s = map (λ c. if c == old then new else c) s

abbrev pub contains : ℕ → Text → Bool
contains c s = any (λ d. c == d) s

-- Two texts that a first separator ends are equal part by part.
pub parts_injective :
    (sep : ℕ) (s t x y : Text)
    → contains sep s ≡ false
    → contains sep t ≡ false
    → (s ++ (sep ∷ x)) ≡ (t ++ (sep ∷ y))
    → (s ≡ t) × (x ≡ y)
parts_injective sep [] [] x y hs ht e = (refl, cc)
parts_injective sep [] (d ∷ t) x y hs ht e = absurd (ground arith)
parts_injective sep (c ∷ s) [] x y hs ht e = absurd (ground arith)
parts_injective sep (c ∷ s) (d ∷ t) x y hs ht e =
    let (a, b) = parts_injective sep s t x y (ground arith) (ground arith) (cc) in (cc, b)
