-- ===== src/Chain/Opposite.antt =====
-- Differences of metrics with the stages exchanged.
use dfine_cpp.Common.{
  ℕ, zero, suc, ◌+◌, ◌-◌, ◌≡◌, refl, sym, ap, ◌∙◌, Bool, true, false, Option, none, some, List, [],
  ◌∷◌, arith, leb, if◌then◌else◌, inl, inr, Bool-cases, map,
}
use mathlib.Core.Path.{subst}
use dfine_cpp.Common.Int.{ℤ, pos, negsuc, pos_part, neg_part, negated, eqb_ℤ}
use dfine_cpp.Common.Result.{returned, bind-returned}
use dfine_cpp.Json.Number.{
  negate, difference, subtract, minus, round_signed, round_magnitude, bits, fuel,
}
use dfine_cpp.Chain.Compare.{metric_delta, metric_deltas}

negate-negated : (n : ℕ) → negate (negated n) ≡ pos n
unfolding negated
negate-negated zero = refl
negate-negated (suc n) = refl

difference-swap : (x y : ℕ) → difference y x ≡ negate (difference x y)
unfolding negated
difference-swap x y = elim (Bool-cases (leb x y)) [
  | inl le ↦ elim (Bool-cases (leb y x)) [
    | inl ge ↦
        let d : y - x ≡ 0 = ground arith in
        let e : x - y ≡ 0 = ground arith in rw (le, ge, d, e) refl
    | inr lt ↦ rw (le, lt) (sym (negate-negated (y - x)))
  ]
  | inr gt ↦ let ge : leb y x ≡ true = ground arith in rw (gt, ge) refl
]

round-zero : round_magnitude fuel 0 ≡ 0
unfolding round_magnitude bits fuel
round-zero = refl

round-negate : (z : ℤ) → round_signed (negate z) ≡ negate (round_signed z)
unfolding negated
round-negate (pos zero) = rw round-zero refl
round-negate (pos (suc n)) = refl
round-negate (negsuc n) = sym (negate-negated (round_magnitude fuel (suc n)))

minus-swap : (a b : ℤ) → minus b a ≡ negate (minus a b)
unfolding minus
minus-swap a b =
    ap round_signed (difference-swap (pos_part a + neg_part b) (pos_part b + neg_part a))
    ∙ round-negate (subtract a b)

eqb_ℤ_swap : (a b : ℤ) → eqb_ℤ b a ≡ eqb_ℤ a b
eqb_ℤ_swap a b = ground arith

abbrev pub opposite : Option ℤ → Option ℤ
opposite none = none
opposite (some z) = some (negate z)

metric_delta-opposite :
    (a b d : Option ℤ) → metric_delta a b ≡ returned d → metric_delta b a ≡ returned (opposite d)
unfolding metric_delta negated
metric_delta-opposite none none d h = let e : none ≡ d = cc in rw (sym e) refl
metric_delta-opposite none (some b) d h = cc
metric_delta-opposite (some a) none d h = cc
metric_delta-opposite (some a) (some b) d h =
    let e : some (if eqb_ℤ a b then pos 0 else minus b a) ≡ d = cc in
    rw (sym e) (by_test (eqb_ℤ a b) (eqb_ℤ_swap a b) (minus-swap b a))
  where
    by_test :
        (t : Bool)
        → eqb_ℤ b a ≡ t
        → minus a b ≡ negate (minus b a)
        → returned (some (if eqb_ℤ b a then pos 0 else minus a b))
          ≡ returned (some (negate (if t then pos 0 else minus b a)))
    by_test true e m = rw e refl
    by_test false e m = rw (e, m) refl

-- The exact difference of two integers: what is added to the one to give the other.
abbrev pub IsExact : ℤ → ℤ → ℤ → Type 0
IsExact a b x = (pos_part a + pos_part x) + neg_part b ≡ (pos_part b + neg_part x) + neg_part a

negated-pos_part : (n : ℕ) → pos_part (negated n) ≡ 0
unfolding negated
negated-pos_part zero = refl
negated-pos_part (suc n) = refl

negated-neg_part : (n : ℕ) → neg_part (negated n) ≡ n
unfolding negated
negated-neg_part zero = refl
negated-neg_part (suc n) = refl

difference-IsExact : (p q : ℕ) → pos_part (difference p q) + q ≡ p + neg_part (difference p q)
difference-IsExact p q = elim (Bool-cases (leb q p)) [
  | inl le ↦ rw le (ground arith)
  | inr lt ↦ rw (lt, negated-pos_part (q - p), negated-neg_part (q - p)) (ground arith)
]

subtract-IsExact : (a b : ℤ) → IsExact a b (subtract b a)
subtract-IsExact a b =
    let e = difference-IsExact (pos_part b + neg_part a) (pos_part a + neg_part b) in
    omega (arith, e)

-- A difference of metrics: none of two that are absent, and otherwise the rounding to a double of
-- what is added to the left one to give the right one.
abbrev pub IsDelta : Option ℤ → Option ℤ → Option ℤ → Type 0
IsDelta none none none = Unit
IsDelta (some a) (some b) (some d) = (x : ℤ) × IsExact a b x × (d ≡ round_signed x)
IsDelta _ _ _ = ⊥

-- The differences of two lists, as long as the shorter.
abbrev pub AreDeltas : List (Option ℤ) → List (Option ℤ) → List (Option ℤ) → Type 0
AreDeltas (a ∷ s) (b ∷ t) (d ∷ ds) = IsDelta a b d × AreDeltas s t ds
AreDeltas (_ ∷ _) (_ ∷ _) [] = ⊥
AreDeltas _ _ [] = Unit
AreDeltas _ _ (_ ∷ _) = ⊥

metric_deltas-opposite :
    (s t d : List (Option ℤ))
    → metric_deltas s t ≡ returned d
    → metric_deltas t s ≡ returned (map opposite d)
unfolding metric_deltas
metric_deltas-opposite [] [] d h = let e : [] ≡ d = cc in rw (sym e) refl
metric_deltas-opposite [] (b ∷ t) d h = let e : [] ≡ d = cc in rw (sym e) refl
metric_deltas-opposite (a ∷ s) [] d h = let e : [] ≡ d = cc in rw (sym e) refl
metric_deltas-opposite (a ∷ s) (b ∷ t) d h =
    let (x, hx, h1) = bind-returned (metric_delta a b) _ d h in
    let (rest, hr, h2) = bind-returned (metric_deltas s t) _ d h1 in
    let e : x ∷ rest ≡ d = cc in
    rw (metric_delta-opposite a b x hx, metric_deltas-opposite s t rest hr, sym e) refl

minus-round : (a b : ℤ) → minus b a ≡ round_signed (subtract b a)
unfolding minus
minus-round a b = refl

metric_delta-IsDelta : (a b d : Option ℤ) → metric_delta a b ≡ returned d → IsDelta a b d
unfolding metric_delta
metric_delta-IsDelta none none d h = let e : none ≡ d = cc in subst (IsDelta none none) e tt
metric_delta-IsDelta none (some b) d h = cc
metric_delta-IsDelta (some a) none d h = cc
metric_delta-IsDelta (some a) (some b) d h =
    let e : some (if eqb_ℤ a b then pos 0 else minus b a) ≡ d = cc in
    subst (IsDelta (some a) (some b)) e (by_test (eqb_ℤ a b) refl)
  where
    by_test :
        (t : Bool)
        → eqb_ℤ a b ≡ t
        → IsDelta (some a) (some b) (some (if t then pos 0 else minus b a))
    by_test true e = (pos 0, ground arith, rw round-zero refl)
    by_test false e = (subtract b a, subtract-IsExact a b, minus-round a b)

metric_deltas-listed : (s t d : List (Option ℤ)) → metric_deltas s t ≡ returned d → AreDeltas s t d
unfolding metric_deltas
metric_deltas-listed [] [] d h = let e : [] ≡ d = cc in subst (AreDeltas [] []) e tt
metric_deltas-listed [] (b ∷ t) d h = let e : [] ≡ d = cc in subst (AreDeltas [] (b ∷ t)) e tt
metric_deltas-listed (a ∷ s) [] d h = let e : [] ≡ d = cc in subst (AreDeltas (a ∷ s) []) e tt
metric_deltas-listed (a ∷ s) (b ∷ t) d h =
    let (x, hx, h1) = bind-returned (metric_delta a b) _ d h in
    let (rest, hr, h2) = bind-returned (metric_deltas s t) _ d h1 in
    let e : x ∷ rest ≡ d = cc in
    subst (AreDeltas (a ∷ s) (b ∷ t)) e
      (metric_delta-IsDelta a b x hx, metric_deltas-listed s t rest hr)

-- The difference of two metrics is none if both are absent, and otherwise the rounding to a double
-- of the exact difference, the right one less the left one, in the order of the lists. With the
-- lists exchanged the differences are the opposites.
pub metric_deltas-AreDeltas :
    (s t d : List (Option ℤ))
    → metric_deltas s t ≡ returned d
    → AreDeltas s t d × (metric_deltas t s ≡ returned (map opposite d))
metric_deltas-AreDeltas s t d h = (metric_deltas-listed s t d h, metric_deltas-opposite s t d h)
