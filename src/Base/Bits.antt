-- ===== src/Base/Bits.antt =====
-- What the bit operations do to the size of a number.
use Prim.Native.Nat.{
  ℕ, zero, suc, ◌/◌, ◌^◌, ◌≤◌, ◌<◌, min, max, bit_and, bit_or, digits, bit_and-bitwise,
  bit_or-bitwise,
}
use native.Mathlib.Omega.{arith}

-- digit by digit, the smaller digit is at most the mask's
masked-le : (rounds a mask : ℕ) → digits (λ b. zero) min rounds a mask ≤ mask
masked-le zero a mask = omega arith
masked-le (suc rounds) zero mask = omega arith
masked-le (suc rounds) (suc a) mask = omega (arith, masked-le rounds (suc a / 2) (mask / 2))

-- Masking never exceeds the mask.
pub bit_and-le : (a mask : ℕ) → bit_and a mask ≤ mask
bit_and-le a mask = omega (arith, bit_and-bitwise a mask, masked-le a a mask)

-- digit by digit, an or needs no digit more than its arguments
joined-lt : (rounds k a b : ℕ) → a < 2 ^ k → b < 2 ^ k → digits (λ c. c) max rounds a b < 2 ^ k
joined-lt zero k a b h l = l
joined-lt (suc rounds) k zero b h l = l
joined-lt (suc rounds) zero (suc a) b h l = absurd (omega arith)
joined-lt (suc rounds) (suc k) (suc a) b h l =
    let rest = joined-lt rounds k (suc a / 2) (b / 2) (omega arith) (omega arith) in
    omega (arith, rest)

pub bit_or-lt : (k a b : ℕ) → a < 2 ^ k → b < 2 ^ k → bit_or a b < 2 ^ k
bit_or-lt k a b h l = omega (arith, bit_or-bitwise a b, joined-lt a k a b h l)
