-- ===== src/ConsistentHash/Picks.antt =====
-- The sorted ring, and the replica that `PickNode` finds on it.
use hayakv.Base.{
  ℕ, zero, suc, ◌≤◌, ◌<◌, ◌≡◌, ap, inl, inr, List, [], ◌∷◌, arith, length, get_or, leb, nat_eq,
  if◌then◌else◌, Bool-cases, All, All-map,
}
use hayakv.Base.Classes.{Bytes}
use hayakv.Base.Slices.{search_index, search_index-eq}
use hayakv.ConsistentHash.{Map, insert_sorted, sort_ints, add_keys, add_node, pick_hash}

-- never descending
abbrev pub IsSorted : List ℕ → Type 0
IsSorted [] = Unit
IsSorted (x ∷ xs) = All (λ y. x ≤ y) xs × IsSorted xs

insert-All :
    (b k : ℕ) (xs : List ℕ) → b ≤ k → All (λ y. b ≤ y) xs → All (λ y. b ≤ y) (insert_sorted k xs)
insert-All b k [] h a = (h, tt)
insert-All b k (x ∷ xs) h a = elim (Bool-cases (leb k x)) [
  | inl e ↦ rw e (h, a)
  | inr e ↦ rw e (a.0, insert-All b k xs h a.1)
]

insert-IsSorted : (k : ℕ) (xs : List ℕ) → IsSorted xs → IsSorted (insert_sorted k xs)
insert-IsSorted k [] a = (tt, tt)
insert-IsSorted k (x ∷ xs) a = elim (Bool-cases (leb k x)) [
  | inl e ↦
      let le : k ≤ x = ground (arith, e) in
      rw e ((le, All-map (λ y. x ≤ y) (λ y. k ≤ y) xs (λ y h. omega (arith, h, le)) a.0), a)
  | inr e ↦ rw e (insert-All x k xs (ground (arith, e)) a.0, insert-IsSorted k xs a.1)
]

sort_ints-IsSorted : (xs : List ℕ) → IsSorted (sort_ints xs)
sort_ints-IsSorted [] = tt
sort_ints-IsSorted (x ∷ xs) = insert-IsSorted x (sort_ints xs) (sort_ints-IsSorted xs)

-- the number of keys below the hash that stand in front
below : ℕ → List ℕ → ℕ
below hash [] = 0
below hash (k ∷ ks) = if leb hash k then 0 else suc (below hash ks)

below-le : (hash : ℕ) (ks : List ℕ) → below hash ks ≤ length ks
unfolding below
below-le hash [] = omega arith
below-le hash (k ∷ ks) = ground (arith, below-le hash ks)

All-at :
    (hash : ℕ) (ks : List ℕ) (i : ℕ) → All (λ y. hash ≤ y) ks → i < length ks → hash ≤ get_or ks i 0
All-at hash [] i a lt = absurd (omega arith)
All-at hash (k ∷ ks) zero a lt = a.0
All-at hash (k ∷ ks) (suc i) a lt = All-at hash ks i a.1 (omega arith)

below_test :
    (hash : ℕ) (ks : List ℕ) (i : ℕ)
    → IsSorted ks
    → i < length ks
    → leb hash (get_or ks i 0) ≡ leb (below hash ks) i
unfolding below
below_test hash [] i a lt = absurd (omega arith)
below_test hash (k ∷ ks) zero a lt = ground arith
below_test hash (k ∷ ks) (suc i) a lt = elim (Bool-cases (leb hash k)) [
  | inl e ↦
      let all = All-map (λ y. k ≤ y) (λ y. hash ≤ y) ks (λ y h. ground (arith, h, e)) a.0 in
      let there = All-at hash ks i all (omega arith) in rw e (ground (arith, there))
  | inr e ↦ rw (e, below_test hash ks i a.1 (omega arith)) (ground arith)
]

-- the first key that is not below the hash, else `first`
abbrev pub successor : ℕ → ℕ → List ℕ → ℕ
successor first hash [] = first
successor first hash (k ∷ ks) = if leb hash k then k else successor first hash ks

at_below :
    (first hash : ℕ) (ks : List ℕ)
    → (if nat_eq (below hash ks) (length ks) then first else get_or ks (below hash ks) 0)
      ≡ successor first hash ks
unfolding below
at_below first hash [] = ground arith
at_below first hash (k ∷ ks) = ground (arith, at_below first hash ks)

-- After `AddNode`, whatever the ring was, `PickNode`'s search finds for every hash the node of the
-- first key of the ring that is not below the hash, and past the last key the node of the least one.
pub pick_hash-successor :
    (itoa : ℕ → Bytes) (m : Map) (nodes : List Bytes) (hash : ℕ)
    → let ring = add_node itoa m nodes in
      pick_hash ring hash ≡ ring.hash_map (successor (get_or ring.keys 0 0) hash ring.keys)
      × IsSorted ring.keys
unfolding add_node pick_hash
pick_hash-successor itoa m nodes hash =
    let ks = sort_ints (add_keys itoa nodes m).keys in
    let sorted = sort_ints-IsSorted (add_keys itoa nodes m).keys in
    let at : search_index (length ks) (λ i. leb hash (get_or ks i 0)) ≡ below hash ks =
      search_index-eq (length ks) (λ i. leb hash (get_or ks i 0)) (below hash ks) (below-le hash ks)
        (λ i lt. below_test hash ks i sorted lt) in
    (
      ap (add_keys itoa nodes m).hash_map
          (rw at (ground (arith, at_below (get_or ks 0 0) hash ks))),
      sorted,
    )
