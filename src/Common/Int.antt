-- ===== src/Common/Int.antt =====
-- Python's unbounded signed integers over the native numbers.
use Prim.Native.Nat.{ℕ, zero, suc, ◌+◌, ◌≤◌}
use mathlib.Core.Path.{◌≡◌, refl, ap₂}
use mathlib.Core.Bool.{Bool, true, false, ◌&&◌}
use mathlib.Core.List.{List, [], ◌∷◌}
use native.Mathlib.Omega.{arith}
use dfine_cpp.Common.Tests.{ltb, leb, ◌==◌, &&-eq-true}

-- `negsuc n` is -(n + 1).
pub data ℤ : Type 0 where
  pos : ℕ → ℤ
  negsuc : ℕ → ℤ

-- `-n`
unfoldable pub negated : ℕ → ℤ
negated zero = pos 0
negated (suc n) = negsuc n

abbrev pub pos_part : ℤ → ℕ
pos_part (pos n) = n
pos_part (negsuc _) = 0

abbrev pub neg_part : ℤ → ℕ
neg_part (pos _) = 0
neg_part (negsuc n) = suc n

infix 50 ◌≤ℤ◌
abbrev pub ◌≤ℤ◌ : ℤ → ℤ → Type 0
a ≤ℤ b = pos_part a + neg_part b ≤ pos_part b + neg_part a

abbrev pub ltb_ℤ : ℤ → ℤ → Bool
ltb_ℤ a b = ltb (pos_part a + neg_part b) (pos_part b + neg_part a)

abbrev pub leb_ℤ : ℤ → ℤ → Bool
leb_ℤ a b = leb (pos_part a + neg_part b) (pos_part b + neg_part a)

abbrev pub eqb_ℤ : ℤ → ℤ → Bool
eqb_ℤ a b = (pos_part a + neg_part b) == (pos_part b + neg_part a)

pub eqb_ℤ→eq : (a b : ℤ) → eqb_ℤ a b ≡ true → a ≡ b
eqb_ℤ→eq a b h = ground arith

pub eq→eqb_ℤ : (a b : ℤ) → a ≡ b → eqb_ℤ a b ≡ true
eq→eqb_ℤ a b h = ground arith

pub eqb_ℤ-refl : (a : ℤ) → eqb_ℤ a a ≡ true
eqb_ℤ-refl a = ground arith

-- Equality of tuples of integers.
unfoldable pub ints_eq : List ℤ → List ℤ → Bool
ints_eq [] [] = true
ints_eq (a ∷ s) (b ∷ t) = eqb_ℤ a b && ints_eq s t
ints_eq _ _ = false

pub ints_eq_refl : (s : List ℤ) → ints_eq s s ≡ true
unfolding ints_eq
ints_eq_refl [] = refl
ints_eq_refl (a ∷ s) = rw (eqb_ℤ-refl a) (ints_eq_refl s)

pub ints_eq→eq : (s t : List ℤ) → ints_eq s t ≡ true → s ≡ t
unfolding ints_eq
ints_eq→eq [] [] h = refl
ints_eq→eq (a ∷ s) (b ∷ t) h =
    let (e, r) = &&-eq-true (eqb_ℤ a b) (ints_eq s t) h in
    ap₂ (λ x xs. x ∷ xs) (eqb_ℤ→eq a b e) (ints_eq→eq s t r)
ints_eq→eq [] (b ∷ t) h = cc
ints_eq→eq (a ∷ s) [] h = cc
