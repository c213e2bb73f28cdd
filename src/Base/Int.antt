-- ===== src/Base/Int.antt =====
-- Signed integers over the native numbers, under the library's names.
use Prim.Native.Nat.{ℕ, suc, ◌+◌, ◌≤◌}
use mathlib.Core.Path.{◌≡◌}
use mathlib.Core.Logic.{◌↔◌}
use mathlib.Core.Bool.{Bool, true, false, ◌||◌}
use native.Mathlib.Omega.{arith}
use hayakv.Base.Tests.{ltb, leb, nat_eq}
use hayakv.Base.Classes.{LinOrd}

-- `negsuc n` is -(n + 1).
pub data ℤ : Type 0 where
  pos : ℕ → ℤ
  negsuc : ℕ → ℤ

abbrev pub pos_part : ℤ → ℕ
pos_part (pos n) = n
pos_part (negsuc n) = 0

abbrev pub neg_part : ℤ → ℕ
neg_part (pos n) = 0
neg_part (negsuc n) = suc n

infix 50 ◌≤ℤ◌
abbrev pub ◌≤ℤ◌ : ℤ → ℤ → Type 0
a ≤ℤ b = pos_part a + neg_part b ≤ pos_part b + neg_part a

abbrev pub leb_ℤ : ℤ → ℤ → Bool
leb_ℤ a b = leb (pos_part a + neg_part b) (pos_part b + neg_part a)

abbrev pub ltb_ℤ : ℤ → ℤ → Bool
ltb_ℤ a b = ltb (pos_part a + neg_part b) (pos_part b + neg_part a)

abbrev pub eq_ℤ : ℤ → ℤ → Bool
eq_ℤ (pos a) (pos b) = nat_eq a b
eq_ℤ (negsuc a) (negsuc b) = nat_eq a b
eq_ℤ _ _ = false

pub eq_ℤ_iff : (a b : ℤ) → (eq_ℤ a b ≡ true) ↔ (a ≡ b)
eq_ℤ_iff (pos a) (pos b) = ground arith
eq_ℤ_iff (negsuc a) (negsuc b) = ground arith
eq_ℤ_iff (pos a) (negsuc b) = ground arith
eq_ℤ_iff (negsuc a) (pos b) = ground arith

pub leb_ℤ_total : (a b : ℤ) → (leb_ℤ a b || leb_ℤ b a) ≡ true
leb_ℤ_total a b = ground arith

pub leb_ℤ_trans : (a b c : ℤ) → leb_ℤ a b ≡ true → leb_ℤ b c ≡ true → leb_ℤ a c ≡ true
leb_ℤ_trans a b c p q = ground arith

pub leb_ℤ_antisymm : (a b : ℤ) → leb_ℤ a b ≡ true → leb_ℤ b a ≡ true → a ≡ b
leb_ℤ_antisymm a b p q = ground arith

instance abbrev pub ℤ_LinOrd : LinOrd ℤ
ℤ_LinOrd = record {
  le = leb_ℤ;
  eq = eq_ℤ;
  eq_iff = eq_ℤ_iff;
  total = leb_ℤ_total;
  trans = leb_ℤ_trans;
  antisymm = leb_ℤ_antisymm;
}
