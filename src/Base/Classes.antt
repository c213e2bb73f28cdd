-- ===== src/Base/Classes.antt =====
-- Equality and order tests with their laws, as instances; Go's byte strings.
use Prim.Native.Char.{code}
use Prim.Native.String.{String}
use Prim.Native.Nat.{ℕ}
use mathlib.Core.Path.{◌≡◌}
use mathlib.Core.Logic.{◌↔◌}
use mathlib.Core.Bool.{Bool, true, false, ◌&&◌, ◌||◌}
use mathlib.Core.List.{List, [], ◌∷◌}
use native.Mathlib.Omega.{arith}
use hayakv.Base.Tests.{nat_eq, nat_eq_iff, leb}

-- A Go `string` or `[]byte`: its bytes.
abbrev pub Bytes : Type 0
Bytes = List ℕ

-- The code points of a literal: its bytes, if it is ASCII.
abbrev pub codes : String → Bytes
codes String.[] = []
codes (String.◌∷◌ c s) = code c ∷ codes s

unfoldable pub bytes_eq : Bytes → Bytes → Bool
bytes_eq [] [] = true
bytes_eq [] (y ∷ ys) = false
bytes_eq (x ∷ xs) [] = false
bytes_eq (x ∷ xs) (y ∷ ys) = nat_eq x y && bytes_eq xs ys

pub bytes_eq_iff : (a b : Bytes) → (bytes_eq a b ≡ true) ↔ (a ≡ b)
unfolding bytes_eq
bytes_eq_iff [] [] = ground arith
bytes_eq_iff [] (y ∷ ys) = ground arith
bytes_eq_iff (x ∷ xs) [] = ground arith
bytes_eq_iff (x ∷ xs) (y ∷ ys) = ground (arith, bytes_eq_iff xs ys)

-- A total order with its test; `lt a b` is `not (le b a)`.
pub record LinOrd {ℓ} (A : Type ℓ) : Type ℓ where
  pub le : A → A → Bool
  pub eq : A → A → Bool
  pub eq_iff : (a b : A) → (eq a b ≡ true) ↔ (a ≡ b)
  pub total : (a b : A) → (le a b || le b a) ≡ true
  pub trans : (a b c : A) → le a b ≡ true → le b c ≡ true → le a c ≡ true
  pub antisymm : (a b : A) → le a b ≡ true → le b a ≡ true → a ≡ b

pub nat_total : (a b : ℕ) → (leb a b || leb b a) ≡ true
nat_total a b = ground arith

pub nat_trans : (a b c : ℕ) → leb a b ≡ true → leb b c ≡ true → leb a c ≡ true
nat_trans a b c p q = ground arith

pub nat_antisymm : (a b : ℕ) → leb a b ≡ true → leb b a ≡ true → a ≡ b
nat_antisymm a b p q = ground arith

instance abbrev pub ℕ_LinOrd : LinOrd ℕ
ℕ_LinOrd = record {
  le = leb;
  eq = nat_eq;
  eq_iff = nat_eq_iff;
  total = nat_total;
  trans = nat_trans;
  antisymm = nat_antisymm;
}
