-- ===== src/Base/Slices.antt =====
-- Sorted Go slices: `sort.Search`, and the idioms that insert into and cut from a slice at an index.
pub mod Laws
use Prim.Native.Nat.{ℕ, zero, suc, ◌+◌, ◌-◌, ◌/◌, ◌≤◌, ◌<◌}
use mathlib.Core.Path.{◌≡◌, refl, ap, sym}
use mathlib.Core.Logic.{◌⊎◌, inl, inr}
use mathlib.Core.Bool.{Bool, true, false, not, ◌&&◌, ◌||◌}
use mathlib.Core.List.{List, [], ◌∷◌, ◌++◌}
use native.Mathlib.Omega.{arith}
use hayakv.Base.Tests.{ltb, leb, if◌then◌else◌, Bool-cases}
use hayakv.Base.Lists.{length, get_or, take, drop, All, All-map}
use hayakv.Base.Classes.{LinOrd}

-- `sort.Search`: bisection between `i` and `j`; `fuel` bounds the rounds.
search_loop : ℕ → (ℕ → Bool) → ℕ → ℕ → ℕ
search_loop zero f i j = i
search_loop (suc fuel) f i j =
    let h = (i + j) / 2 in
    let right = search_loop fuel f (h + 1) j in
    let left = search_loop fuel f i h in if ltb i j then (if f h then left else right) else i

-- The interval shrinks in every round, so `n` rounds are enough.
unfoldable pub search_index : ℕ → (ℕ → Bool) → ℕ
unfolding search_loop
search_index n f = search_loop n f 0 n

-- If the test turns from false to true at `r`, the bisection ends there.
search_loop-eq :
    (fuel : ℕ) (f : ℕ → Bool) (r i j : ℕ)
    → i ≤ r
    → r ≤ j
    → j ≤ i + fuel
    → ((h : ℕ) → h < j → f h ≡ leb r h)
    → search_loop fuel f i j ≡ r
unfolding search_loop
search_loop-eq zero f r i j p q k t = omega arith
search_loop-eq (suc fuel) f r i j p q k t = elim (Bool-cases (ltb i j)) [
  | inr e ↦ rw e (ground arith)
  | inl e ↦
      let lt : (i + j) / 2 < j = ground arith in
      let at = t ((i + j) / 2) lt in
      elim (Bool-cases (f ((i + j) / 2))) [
        | inl g ↦
            rw (e, g)
              (search_loop-eq fuel f r i ((i + j) / 2) p (ground arith) (omega arith)
                (λ h lh. t h (omega arith)))
        | inr g ↦
            rw (e, g) (search_loop-eq fuel f r ((i + j) / 2 + 1) j (ground arith) q (omega arith) t)
      ]
]

pub search_index-eq :
    (n : ℕ) (f : ℕ → Bool) (r : ℕ)
    → r ≤ n
    → ((h : ℕ) → h < n → f h ≡ leb r h)
    → search_index n f ≡ r
unfolding search_index
search_index-eq n f r q t = search_loop-eq n f r 0 n (omega arith) q (omega arith) t

module _ {ℓ} {A : Type ℓ} ⦃o : LinOrd A⦄ where
  -- strictly ascending, so without repetition
  abbrev pub IsAscending : List A → Type 0
  IsAscending [] = Unit
  IsAscending (x ∷ xs) = All (λ y. o.le y x ≡ false) xs × IsAscending xs

  -- membership by a scan: what a sorted slice stands for
  unfoldable pub contains : A → List A → Bool
  contains v [] = false
  contains v (x ∷ xs) = o.eq x v || contains v xs

  -- `sort.Search(len(xs), func(i int) bool { return xs[i] >= v })`; no index is out of range,
  -- so the default `d` is never read
  unfoldable pub lower_bound : List A → A → A → ℕ
  lower_bound xs v d = search_index (length xs) (λ i. o.le v (get_or xs i d))

  -- `idx < len(xs) && xs[idx] == v`
  abbrev pub found_at : List A → ℕ → A → A → Bool
  found_at xs i v d = ltb i (length xs) && o.eq (get_or xs i d) v

-- the slice with `v` put before index `i`, and with the element at `i` cut out
module _ {ℓ} {A : Type ℓ} where
  unfoldable pub insert_at : ℕ → A → List A → List A
  insert_at i v xs = take i xs ++ (v ∷ drop i xs)

  unfoldable pub cut_at : ℕ → List A → List A
  cut_at i xs = take i xs ++ drop (suc i) xs

module _ {ℓ} {A : Type ℓ} ⦃o : LinOrd A⦄ where
  -- how many elements are below `v`
  unfoldable pub rank : A → List A → ℕ
  rank v [] = 0
  rank v (x ∷ xs) = if o.le v x then 0 else suc (rank v xs)

  rank-le : (v : A) (xs : List A) → rank v xs ≤ length xs
  unfolding rank
  rank-le v [] = omega arith
  rank-le v (x ∷ xs) = ground (arith, rank-le v xs)

  le_of_lt : (a b : A) → o.le b a ≡ false → o.le a b ≡ true
  le_of_lt a b h = ground (arith, o.total a b)

  All-get_or :
      (v : A) (xs : List A) (x d : A) (i : ℕ)
      → o.le v x ≡ true
      → All (λ y. o.le y x ≡ false) xs
      → i < length xs
      → o.le v (get_or xs i d) ≡ true
  All-get_or v [] x d i h a lt = absurd (omega arith)
  All-get_or v (y ∷ ys) x d zero h a lt = o.trans v x y h (le_of_lt x y a.0)
  All-get_or v (y ∷ ys) x d (suc i) h a lt = All-get_or v ys x d i h a.1 (omega arith)

  rank_test :
      (v : A) (xs : List A) (d : A) (i : ℕ)
      → IsAscending xs
      → i < length xs
      → o.le v (get_or xs i d) ≡ leb (rank v xs) i
  unfolding rank
  rank_test v [] d i a lt = absurd (omega arith)
  rank_test v (x ∷ xs) d zero a lt = ground arith
  rank_test v (x ∷ xs) d (suc i) a lt = elim (Bool-cases (o.le v x)) [
    | inl e ↦ rw (e, All-get_or v xs x d i e a.0 (omega arith)) (ground arith)
    | inr e ↦ rw (e, rank_test v xs d i a.1 (omega arith)) (ground arith)
  ]

  pub lower_bound-eq-rank :
      (xs : List A) (v d : A) → IsAscending xs → lower_bound xs v d ≡ rank v xs
  unfolding lower_bound
  lower_bound-eq-rank xs v d a =
      search_index-eq (length xs) (λ i. o.le v (get_or xs i d)) (rank v xs) (rank-le v xs)
        (λ h lh. rank_test v xs d h a lh)

  above-not_contains :
      (v x : A) (xs : List A)
      → o.le v x ≡ true
      → All (λ y. o.le y x ≡ false) xs
      → contains v xs ≡ false
  unfolding contains
  above-not_contains v x [] h a = refl
  above-not_contains v x (y ∷ ys) h a =
      ground (arith, above-not_contains v x ys h, o.eq_iff y v, o.trans y v x)

  pub found_at-rank :
      (v : A) (xs : List A) (d : A) → IsAscending xs → found_at xs (rank v xs) v d ≡ contains v xs
  unfolding rank contains
  found_at-rank v [] d a = ground arith
  found_at-rank v (x ∷ xs) d a = elim (Bool-cases (o.le v x)) [
    | inl e ↦ rw e (ground (arith, above-not_contains v x xs e a.0))
    | inr e ↦ rw (e, ← found_at-rank v xs d a.1) (ground (arith, o.eq_iff x v, o.total x v))
  ]
