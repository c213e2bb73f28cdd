-- ===== src/Base/Remainders.antt =====
-- The remainder of a sum of two numbers below the divisor.
use Prim.Native.Nat.{ℕ, ◌+◌, ◌-◌, ◌%◌, ◌<◌}
use mathlib.Core.Path.{◌≡◌, ◌∙◌}
use mathlib.Core.Logic.{inl, inr}
use native.Mathlib.Omega.{arith}
use native.Mathlib.Nat.{mod-eq_of_lt, mod-eq-sub-mod}
use hayakv.Base.Tests.{ltb, if◌then◌else◌, Bool-cases}

pub mod_wrap : (x m : ℕ) → x < m + m → x % m ≡ (if ltb x m then x else x - m)
mod_wrap x m h = elim (Bool-cases (ltb x m)) [
  | inl e ↦ rw e (mod-eq_of_lt (ground (arith, e)))
  | inr e ↦ rw e (mod-eq-sub-mod (ground (arith, e)) ∙ mod-eq_of_lt (ground (arith, e, h)))
]
