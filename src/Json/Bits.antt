-- ===== src/Json/Bits.antt =====
-- The width that the rounding of a number to a double counts for a magnitude (Json/Number).
use dfine_cpp.Common.{ℕ, zero, suc, ◌≡◌, ◌<◌, ◌*◌, ◌/◌, true, ◌==◌, arith, Bool-cases, inl, inr}
use Prim.Native.Nat.{◌^◌}
use Prim.Native.Nat.pow
use dfine_cpp.Json.Number.{bits}

-- The powers of two by their recursion.
pow_suc : (b : ℕ) → 2 ^ suc b ≡ 2 ^ b * 2
pow_suc b = λ i. pow.suc 2 b i

pow_zero : 2 ^ 0 ≡ 1
pow_zero = λ i. pow.zero 2 i

-- A magnitude that is zero needs no bit.
zero_below : (n : ℕ) → n == 0 ≡ true → n < 2 ^ 0
zero_below n e = rw pow_zero (ground arith)

-- The bits counted hold the magnitude, where the fuel covers it.
bits-bound : (fuel n : ℕ) → n < 2 ^ fuel → n < 2 ^ bits fuel n
unfolding bits
bits-bound zero n h = h
bits-bound (suc fuel) n h = elim (Bool-cases (n == 0)) [
  | inl e ↦ rw e (zero_below n e)
  | inr e ↦
      let half : n / 2 < 2 ^ fuel = omega (arith, h, pow_suc fuel) in
      let rest = bits-bound fuel (n / 2) half in
      rw e (omega (arith, rest, pow_suc (bits fuel (n / 2))))
]
