-- ===== src/Base/Assoc.antt =====
-- A Go map as a list of its bindings, in the order in which an iteration may visit them.
use mathlib.Core.Path.{◌≡◌, sym, ◌∙◌}
use mathlib.Core.Logic.{◌↔◌, inl, inr}
use mathlib.Core.Bool.{Bool, true, false}
use mathlib.Core.Option.{Option, none, some}
use mathlib.Core.List.{List, [], ◌∷◌}
use native.Mathlib.Omega.{arith}
use hayakv.Base.Tests.{if◌then◌else◌, Bool-cases}

module _ {ℓ κ} {K : Type ℓ} {V : Type κ} (eq : K → K → Bool) where
  abbrev pub assoc_get : K → List (K × V) → Option V
  assoc_get k [] = none
  assoc_get k (b ∷ bs) = if eq b.0 k then some b.1 else assoc_get k bs

  abbrev pub assoc_delete : K → List (K × V) → List (K × V)
  assoc_delete k [] = []
  assoc_delete k (b ∷ bs) = let rest = assoc_delete k bs in if eq b.0 k then rest else b ∷ rest

  abbrev pub assoc_put : K → V → List (K × V) → List (K × V)
  assoc_put k v bs = (k, v) ∷ assoc_delete k bs

swap {ℓ} :
    {K : Type ℓ} (eq : K → K → Bool)
    → ((a b : K) → (eq a b ≡ true) ↔ (a ≡ b))
    → (a b c : K) → eq a b ≡ true
    → eq b c ≡ eq a c
swap eq eq_iff a b c h = let e : a ≡ b = (eq_iff a b).0 h in rw e

module _ {ℓ κ} {K : Type ℓ} {V : Type κ} (eq : K → K → Bool)
    (eq_iff : (a b : K) → (eq a b ≡ true) ↔ (a ≡ b)) where
  pub assoc_get-assoc_delete :
      (k q : K) (bs : List (K × V))
      → assoc_get eq q (assoc_delete eq k bs) ≡ (if eq k q then none else assoc_get eq q bs)
  assoc_get-assoc_delete k q [] = elim (Bool-cases (eq k q)) [ inl e ↦ rw e | inr e ↦ rw e ]
  assoc_get-assoc_delete k q (b ∷ bs) = elim (Bool-cases (eq b.0 k)) [
    | inl e ↦
        let same = swap eq eq_iff b.0 k q e in
        elim (Bool-cases (eq k q)) [
          | inl f ↦ rw (e, f) (assoc_get-assoc_delete k q bs ∙ rw f)
          | inr f ↦ let g = sym same ∙ f in rw (e, f, g) (assoc_get-assoc_delete k q bs ∙ rw f)
        ]
    | inr e ↦ elim (Bool-cases (eq b.0 q)) [
      | inr g ↦ rw (e, g) (assoc_get-assoc_delete k q bs)
      | inl g ↦
          let f : eq k q ≡ false = elim (Bool-cases (eq k q)) [
            | inr f ↦ f
            | inl f ↦
                absurd (clash ((eq_iff b.0 k).1 ((eq_iff b.0 q).0 g ∙ sym ((eq_iff k q).0 f))) e)
          ] in
          rw (e, g, f)
    ]
  ]
    where
      clash : {t : Bool} → t ≡ true → t ≡ false → ⊥
      clash h g = ground (arith, h, g)

  pub assoc_get-assoc_put :
      (k q : K) (v : V) (bs : List (K × V))
      → assoc_get eq q (assoc_put eq k v bs) ≡ (if eq k q then some v else assoc_get eq q bs)
  assoc_get-assoc_put k q v bs = elim (Bool-cases (eq k q)) [
    | inl e ↦ rw e
    | inr e ↦ rw e (assoc_get-assoc_delete k q bs ∙ rw e)
  ]
