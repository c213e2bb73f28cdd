-- ===== src/Base/Slices/Laws.antt =====
-- Insertion and removal at the bisection index keep a slice ascending and act as on a set.
use Prim.Native.Nat.{ℕ, zero, suc}
use mathlib.Core.Path.{◌≡◌, refl}
use mathlib.Core.Logic.{inl, inr}
use mathlib.Core.Bool.{true, false, not, ◌&&◌, ◌||◌}
use mathlib.Core.List.{List, [], ◌∷◌}
use native.Mathlib.Omega.{arith}
use hayakv.Base.Tests.{Bool-cases}
use hayakv.Base.Lists.{length, All, All-map}
use hayakv.Base.Classes.{LinOrd}
use hayakv.Base.Slices.{IsAscending, contains, insert_at, cut_at, rank, above-not_contains}

module _ {ℓ} {A : Type ℓ} ⦃o : LinOrd A⦄ where
  pub All-insert {κ} :
      (P : A → Type κ) (v : A) (i : ℕ) (xs : List A) → P v → All P xs → All P (insert_at i v xs)
  unfolding insert_at
  All-insert P v zero xs p a = (p, a)
  All-insert P v (suc i) [] p a = (p, a)
  All-insert P v (suc i) (x ∷ xs) p a = (a.0, All-insert P v i xs p a.1)

  pub All-cut {κ} : (P : A → Type κ) (i : ℕ) (xs : List A) → All P xs → All P (cut_at i xs)
  unfolding cut_at
  All-cut P zero [] a = tt
  All-cut P zero (x ∷ xs) a = a.1
  All-cut P (suc i) [] a = tt
  All-cut P (suc i) (x ∷ xs) a = (a.0, All-cut P i xs a.1)

  head_above :
      (v x : A) (xs : List A)
      → o.le v x ≡ true
      → (x ≡ v → ⊥)
      → All (λ y. o.le y x ≡ false) xs
      → All (λ y. o.le y v ≡ false) (x ∷ xs)
  head_above v x xs e ne a =
      let below : o.le x v ≡ false = elim (Bool-cases (o.le x v)) [
        | inl p ↦ absurd (ne (o.antisymm x v p e))
        | inr p ↦ p
      ] in
      (
        below,
        All-map (λ y. o.le y x ≡ false) (λ y. o.le y v ≡ false) xs
            (λ y h. elim (Bool-cases (o.le y v)) [
              | inl p ↦ ground (arith, o.trans y v x p e, h)
              | inr p ↦ p
            ])
            a,
      )

  pub insert_at-IsAscending :
      (v : A) (xs : List A)
      → IsAscending xs
      → contains v xs ≡ false
      → IsAscending (insert_at (rank v xs) v xs)
  unfolding contains insert_at rank
  insert_at-IsAscending v [] a h = (tt, tt)
  insert_at-IsAscending v (x ∷ xs) a h = elim (Bool-cases (o.le v x)) [
    | inl e ↦ rw e (head_above v x xs e (λ p. ground (arith, o.eq_iff x v)) a.0, a)
    | inr e ↦ rw e (
      All-insert (λ y. o.le y x ≡ false) v (rank v xs) xs e a.0,
      insert_at-IsAscending v xs a.1 (ground arith),
    )
  ]

  pub contains-insert_at :
      (v w : A) (i : ℕ) (xs : List A) → contains w (insert_at i v xs) ≡ (o.eq v w || contains w xs)
  unfolding contains insert_at
  contains-insert_at v w zero xs = refl
  contains-insert_at v w (suc i) [] = refl
  contains-insert_at v w (suc i) (x ∷ xs) = ground (arith, contains-insert_at v w i xs)

  pub cut_at-IsAscending : (i : ℕ) (xs : List A) → IsAscending xs → IsAscending (cut_at i xs)
  unfolding cut_at
  cut_at-IsAscending zero [] a = tt
  cut_at-IsAscending zero (x ∷ xs) a = a.1
  cut_at-IsAscending (suc i) [] a = tt
  cut_at-IsAscending (suc i) (x ∷ xs) a =
      (All-cut (λ y. o.le y x ≡ false) i xs a.0, cut_at-IsAscending i xs a.1)

  not_contains_above :
      (v : A) (xs : List A) → All (λ y. o.le y v ≡ false) xs → contains v xs ≡ false
  unfolding contains
  not_contains_above v [] a = refl
  not_contains_above v (x ∷ xs) a =
      ground (arith, not_contains_above v xs, o.eq_iff x v, o.total v v)

  head_found :
      (v x : A) (xs : List A)
      → o.le v x ≡ true
      → All (λ y. o.le y x ≡ false) xs
      → contains v (x ∷ xs) ≡ true
      → x ≡ v
  unfolding contains
  head_found v x xs e a h = (o.eq_iff x v).0 (ground (arith, above-not_contains v x xs e a))

  pub contains-cut_at :
      (v w : A) (xs : List A)
      → IsAscending xs
      → contains v xs ≡ true
      → contains w (cut_at (rank v xs) xs) ≡ (not (o.eq v w) && contains w xs)
  unfolding contains cut_at rank
  contains-cut_at v w [] a h = cc
  contains-cut_at v w (x ∷ xs) a h = elim (Bool-cases (o.le v x)) [
    | inl e ↦
        let same = head_found v x xs e a.0 h in
        rw (e, ← same) (ground (arith, o.eq_iff x w, not_contains_above x xs a.0))
    | inr e ↦ rw e (
        ground (
          arith,
          contains-cut_at v w xs a.1,
          o.eq_iff x v,
          o.eq_iff x w,
          o.eq_iff v w,
          o.total x v,
        ))
  ]

  pub length-insert_at : (v : A) (i : ℕ) (xs : List A) → length (insert_at i v xs) ≡ suc (length xs)
  unfolding insert_at
  length-insert_at v zero xs = refl
  length-insert_at v (suc i) [] = refl
  length-insert_at v (suc i) (x ∷ xs) = ground (arith, length-insert_at v i xs)

  pub length-cut_at :
      (v : A) (xs : List A)
      → contains v xs ≡ true
      → IsAscending xs
      → suc (length (cut_at (rank v xs) xs)) ≡ length xs
  unfolding contains cut_at rank
  length-cut_at v [] h a = cc
  length-cut_at v (x ∷ xs) h a = elim (Bool-cases (o.le v x)) [
    | inl e ↦ rw e
    | inr e ↦ rw e (ground (arith, length-cut_at v xs, o.eq_iff x v, o.total x v))
  ]
