-- ===== src/Dict/Chains.antt =====
-- Chains: what the loops over a bucket compute.
use hayakv.Base.{
  ℕ, ◌+◌, ◌≤◌, ◌≡◌, refl, Bool, true, false, none, some, [], ◌∷◌, arith, length, if◌then◌else◌,
}
use hayakv.Base.Classes.{Bytes, bytes_eq, bytes_eq_iff}
use hayakv.Dict.{Chain, find_entry, assign, unlink}

abbrev to_nat : Bool → ℕ
to_nat true = 1
to_nat false = 0

module _ {ℓ} {V : Type ℓ} where
  -- how often a key stands in a chain
  unfoldable pub occurrences : Bytes → Chain V → ℕ
  occurrences q [] = 0
  occurrences q ((k, v) ∷ c) = to_nat (bytes_eq k q) + occurrences q c

  pub find_entry-absent : (q : Bytes) (c : Chain V) → occurrences q c ≡ 0 → find_entry c q ≡ none
  unfolding occurrences find_entry
  find_entry-absent q [] h = refl
  find_entry-absent q ((k, v) ∷ c) h = ground (arith, find_entry-absent q c)

  pub occurrences-absent : (q : Bytes) (c : Chain V) → find_entry c q ≡ none → occurrences q c ≡ 0
  unfolding occurrences find_entry
  occurrences-absent q [] h = refl
  occurrences-absent q ((k, v) ∷ c) h = ground (arith, occurrences-absent q c)

  pub find_entry-assign :
      (k q : Bytes) (v old : V) (c : Chain V)
      → find_entry c k ≡ some old
      → find_entry (assign c k v) q ≡ (if bytes_eq k q then some v else find_entry c q)
  unfolding find_entry assign
  find_entry-assign k q v old [] h = cc
  find_entry-assign k q v old ((j, w) ∷ c) h =
      ground
        (arith, find_entry-assign k q v old c, bytes_eq_iff j k, bytes_eq_iff j q, bytes_eq_iff k q)

  pub occurrences-assign :
      (k q : Bytes) (v : V) (c : Chain V) → occurrences q (assign c k v) ≡ occurrences q c
  unfolding occurrences assign
  occurrences-assign k q v [] = refl
  occurrences-assign k q v ((j, w) ∷ c) = ground (arith, occurrences-assign k q v c)

  pub length-assign : (k : Bytes) (v : V) (c : Chain V) → length (assign c k v) ≡ length c
  unfolding assign
  length-assign k v [] = refl
  length-assign k v ((j, w) ∷ c) = ground (arith, length-assign k v c)

  pub find_entry-unlink :
      (k q : Bytes) (c : Chain V)
      → occurrences q c ≤ 1
      → find_entry (unlink c k) q ≡ (if bytes_eq k q then none else find_entry c q)
  unfolding occurrences find_entry unlink
  find_entry-unlink k q [] h = ground arith
  find_entry-unlink k q ((j, w) ∷ c) h = ground (
    arith,
    find_entry-unlink k q c,
    find_entry-absent q c,
    bytes_eq_iff j k,
    bytes_eq_iff j q,
    bytes_eq_iff k q,
  )

  pub occurrences-unlink-le :
      (k q : Bytes) (c : Chain V) → occurrences q (unlink c k) ≤ occurrences q c
  unfolding occurrences unlink
  occurrences-unlink-le k q [] = omega arith
  occurrences-unlink-le k q ((j, w) ∷ c) = ground (arith, occurrences-unlink-le k q c)

  pub length-unlink :
      (k : Bytes) (old : V) (c : Chain V)
      → find_entry c k ≡ some old
      → length (unlink c k) + 1 ≡ length c
  unfolding find_entry unlink
  length-unlink k old [] h = cc
  length-unlink k old ((j, w) ∷ c) h = ground (arith, length-unlink k old c)
