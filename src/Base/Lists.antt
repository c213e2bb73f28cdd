-- ===== src/Base/Lists.antt =====
-- Lists measured and indexed by native numbers, under the library's names.
use Prim.Native.Nat.{ℕ, zero, suc, ◌+◌, ◌-◌, ◌≤◌, ◌<◌, min}
use mathlib.Core.Path.{◌≡◌, refl, ap}
use mathlib.Core.List.{List, [], ◌∷◌, ◌++◌}
use mathlib.Core.Option.{Option, none, some}
use mathlib.Core.Bool.{Bool, false}
use native.Mathlib.Omega.{arith}
use hayakv.Base.Tests.{if◌then◌else◌, nat_eq}

module _ {ℓ} {A : Type ℓ} where
  abbrev pub length : List A → ℕ
  length [] = 0
  length (x ∷ xs) = suc (length xs)

  abbrev pub get_elem? : List A → ℕ → Option A
  get_elem? [] i = none
  get_elem? (x ∷ xs) zero = some x
  get_elem? (x ∷ xs) (suc i) = get_elem? xs i

  abbrev pub get_or : List A → ℕ → A → A
  get_or [] i d = d
  get_or (x ∷ xs) zero d = x
  get_or (x ∷ xs) (suc i) d = get_or xs i d

  -- A write out of bounds changes nothing.
  abbrev pub set : List A → ℕ → A → List A
  set [] i v = []
  set (x ∷ xs) zero v = v ∷ xs
  set (x ∷ xs) (suc i) v = x ∷ set xs i v

  abbrev pub take : ℕ → List A → List A
  take zero xs = []
  take (suc n) [] = []
  take (suc n) (x ∷ xs) = x ∷ take n xs

  abbrev pub drop : ℕ → List A → List A
  drop zero xs = xs
  drop (suc n) [] = []
  drop (suc n) (x ∷ xs) = drop n xs

  abbrev pub replicate : ℕ → A → List A
  replicate zero a = []
  replicate (suc n) a = a ∷ replicate n a

  -- the elements that a Boolean test keeps, in order
  abbrev pub keep : (A → Bool) → List A → List A
  keep p [] = []
  keep p (x ∷ xs) = if p x then x ∷ keep p xs else keep p xs

  abbrev pub reverse : List A → List A
  reverse [] = []
  reverse (x ∷ xs) = reverse xs ++ (x ∷ [])

  abbrev pub All {κ} : (A → Type κ) → List A → Type κ
  All P [] = Unit
  All P (x ∷ xs) = P x × All P xs

  pub keep-append : (p : A → Bool) (xs ys : List A) → keep p (xs ++ ys) ≡ keep p xs ++ keep p ys
  keep-append p [] ys = refl
  keep-append p (x ∷ xs) ys = ground (arith, keep-append p xs ys)

  pub length-append : (xs ys : List A) → length (xs ++ ys) ≡ length xs + length ys
  length-append [] ys = omega arith
  length-append (x ∷ xs) ys = omega (arith, length-append xs ys)

  pub length-set : (xs : List A) (i : ℕ) (v : A) → length (set xs i v) ≡ length xs
  length-set [] i v = refl
  length-set (x ∷ xs) zero v = refl
  length-set (x ∷ xs) (suc i) v = ap suc (length-set xs i v)

  pub get_or-set :
      (xs : List A) (i j : ℕ) (v d : A)
      → i < length xs
      → get_or (set xs i v) j d ≡ (if nat_eq i j then v else get_or xs j d)
  get_or-set [] i j v d h = absurd (omega arith)
  get_or-set (x ∷ xs) zero zero v d h = ground arith
  get_or-set (x ∷ xs) zero (suc j) v d h = ground arith
  get_or-set (x ∷ xs) (suc i) zero v d h = ground arith
  get_or-set (x ∷ xs) (suc i) (suc j) v d h = ground (arith, get_or-set xs i j v d)

  pub get_or-append_left :
      (xs ys : List A) (i : ℕ) (d : A) → i < length xs → get_or (xs ++ ys) i d ≡ get_or xs i d
  get_or-append_left [] ys i d h = absurd (omega arith)
  get_or-append_left (x ∷ xs) ys zero d h = refl
  get_or-append_left (x ∷ xs) ys (suc i) d h = get_or-append_left xs ys i d (omega arith)

  pub get_or-append_right :
      (xs ys : List A) (i : ℕ) (d : A)
      → length xs ≤ i
      → get_or (xs ++ ys) i d ≡ get_or ys (i - length xs) d
  get_or-append_right [] ys i d h = let e : i - 0 ≡ i = omega arith in rw e
  get_or-append_right (x ∷ xs) ys zero d h = absurd (omega arith)
  get_or-append_right (x ∷ xs) ys (suc i) d h =
      let e : suc i - suc (length xs) ≡ i - length xs = omega arith in
      rw e (get_or-append_right xs ys i d (omega arith))

  pub take-append-drop : (n : ℕ) (xs : List A) → take n xs ++ drop n xs ≡ xs
  take-append-drop zero xs = refl
  take-append-drop (suc n) [] = refl
  take-append-drop (suc n) (x ∷ xs) = rw (take-append-drop n xs)

  pub length-take : (n : ℕ) (xs : List A) → length (take n xs) ≡ min n (length xs)
  length-take zero xs = omega arith
  length-take (suc n) [] = omega arith
  length-take (suc n) (x ∷ xs) = omega (arith, length-take n xs)

  pub length-drop : (n : ℕ) (xs : List A) → length (drop n xs) ≡ length xs - n
  length-drop zero xs = omega arith
  length-drop (suc n) [] = omega arith
  length-drop (suc n) (x ∷ xs) = omega (arith, length-drop n xs)

  pub length-replicate : (n : ℕ) (a : A) → length (replicate n a) ≡ n
  length-replicate zero a = refl
  length-replicate (suc n) a = ap suc (length-replicate n a)

  pub get_or-replicate : (n i : ℕ) (a : A) → get_or (replicate n a) i a ≡ a
  get_or-replicate zero i a = refl
  get_or-replicate (suc n) zero a = refl
  get_or-replicate (suc n) (suc i) a = get_or-replicate n i a

  pub All-append {κ} : (P : A → Type κ) (xs ys : List A) → All P xs → All P ys → All P (xs ++ ys)
  All-append P [] ys h k = k
  All-append P (x ∷ xs) ys h k = (h.0, All-append P xs ys h.1 k)

  pub All-map {κ μ} :
      (P : A → Type κ) (Q : A → Type μ) (xs : List A) → ((x : A) → P x → Q x) → All P xs → All Q xs
  All-map P Q [] f h = tt
  All-map P Q (x ∷ xs) f h = (f x h.0, All-map P Q xs f h.1)

  pub length-reverse : (xs : List A) → length (reverse xs) ≡ length xs
  length-reverse [] = refl
  length-reverse (x ∷ xs) = omega (arith, length-append (reverse xs) (x ∷ []), length-reverse xs)

  pub reverse-append_one : (xs : List A) (y : A) → reverse (xs ++ (y ∷ [])) ≡ y ∷ reverse xs
  reverse-append_one [] y = refl
  reverse-append_one (x ∷ xs) y = rw (reverse-append_one xs y)

  pub reverse-reverse : (xs : List A) → reverse (reverse xs) ≡ xs
  reverse-reverse [] = refl
  reverse-reverse (x ∷ xs) = rw (reverse-append_one (reverse xs) x, reverse-reverse xs)

  pub take-append_exact : (xs ys : List A) → take (length xs) (xs ++ ys) ≡ xs
  take-append_exact [] ys = refl
  take-append_exact (x ∷ xs) ys = ap (λ t. x ∷ t) (take-append_exact xs ys)

  pub drop-append_exact : (xs ys : List A) → drop (length xs) (xs ++ ys) ≡ ys
  drop-append_exact [] ys = refl
  drop-append_exact (x ∷ xs) ys = drop-append_exact xs ys

  pub some_item : (xs : List A) (i : ℕ) → i < length xs → (v : A) × (get_elem? xs i ≡ some v)
  some_item [] i h = absurd (omega arith)
  some_item (x ∷ xs) zero h = (x, refl)
  some_item (x ∷ xs) (suc i) h = some_item xs i (omega arith)

  pub get_elem?-set_same :
      (xs : List A) (i : ℕ) (v : A) → i < length xs → get_elem? (set xs i v) i ≡ some v
  get_elem?-set_same [] i v h = absurd (omega arith)
  get_elem?-set_same (x ∷ xs) zero v h = refl
  get_elem?-set_same (x ∷ xs) (suc i) v h = get_elem?-set_same xs i v (omega arith)

  pub get_elem?-set_other :
      (xs : List A) (i j : ℕ) (v : A)
      → nat_eq i j ≡ false
      → get_elem? (set xs i v) j ≡ get_elem? xs j
  get_elem?-set_other [] i j v h = refl
  get_elem?-set_other (x ∷ xs) zero zero v h = absurd (ground (arith, h))
  get_elem?-set_other (x ∷ xs) zero (suc j) v h = refl
  get_elem?-set_other (x ∷ xs) (suc i) zero v h = refl
  get_elem?-set_other (x ∷ xs) (suc i) (suc j) v h =
      get_elem?-set_other xs i j v (ground (arith, h))

  pub get_elem?_inside : (xs : List A) (i : ℕ) (v : A) → get_elem? xs i ≡ some v → i < length xs
  get_elem?_inside [] i v h = absurd (ground (arith, h))
  get_elem?_inside (x ∷ xs) zero v h = omega arith
  get_elem?_inside (x ∷ xs) (suc i) v h = omega (arith, get_elem?_inside xs i v h)

  pub get_elem?-append_one :
      (xs : List A) (x : A) (i : ℕ)
      → get_elem? (xs ++ (x ∷ [])) i ≡ (if nat_eq (length xs) i then some x else get_elem? xs i)
  get_elem?-append_one [] x zero = refl
  get_elem?-append_one [] x (suc i) = let e : nat_eq 0 (suc i) ≡ false = ground arith in rw e
  get_elem?-append_one (y ∷ xs) x zero = ground arith
  get_elem?-append_one (y ∷ xs) x (suc i) =
      let e : nat_eq (suc (length xs)) (suc i) ≡ nat_eq (length xs) i = ground arith in
      rw e (get_elem?-append_one xs x i)
