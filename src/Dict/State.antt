-- ===== src/Dict/State.antt =====
-- The states of the dictionary: the two tables around the border of a rehash, and the finite map
-- that they stand for.
use hayakv.Base.{
  ℕ, zero, suc, ◌+◌, ◌≤◌, ◌<◌, ◌≡◌, refl, Option, none, some, or_else, List, [], ◌∷◌, arith, length,
  get_elem?, get_or, get_or-replicate, nat_eq, nat_eq_iff, Bool-cases, ◌⊎◌, inl, inr,
}
use hayakv.Base.Classes.{Bytes}
use hayakv.Dict.{Chain, HashTable, RedisDict, make_table, slot, find_entry, skip_empty}
use hayakv.Dict.Chains.{occurrences, find_entry-absent}
use hayakv.Dict.Tables.{total, chain_of, IsTable}

module _ {V : Type 0} where
  -- stands in for the nil second table
  unfoldable pub blank : HashTable V
  unfolding make_table
  blank = make_table 1

  pub chain_of-blank : (q : Bytes) → chain_of blank q ≡ []
  unfolding chain_of blank
  chain_of-blank q = get_or-replicate 1 (slot blank q) []

  -- Buckets of the first table below `border` have been moved; keys at or above it are only there.
  pub record Split (t0 t1 : HashTable V) (border n : ℕ) : Type 0 where
    pub front : IsTable t0
    pub back : IsTable t1
    pub emptied : (i : ℕ) → i < border → get_or t0.buckets i [] ≡ []
    pub ahead : (q : Bytes) → border ≤ slot t0 q → occurrences q (chain_of t1 q) ≡ 0
    pub once : (q : Bytes) → occurrences q (chain_of t0 q) + occurrences q (chain_of t1 q) ≤ 1
    pub counted : n ≡ total t0.buckets + total t1.buckets
    pub used0 : total t0.buckets ≤ t0.used
    pub used1 : t1.used ≡ total t1.buckets

  abbrev pub IsState : HashTable V → Option (HashTable V) → Option ℕ → ℕ → Type 0
  IsState t0 none none n = Split t0 blank 0 n
  IsState t0 (some t1) (some border) n = Split t0 t1 border n
  IsState t0 none (some border) n = ⊥
  IsState t0 (some t1) none n = ⊥

  -- Exactly during a rehash there are two tables; no key occurs twice; the counters are right.
  abbrev pub IsValid : RedisDict V → Type 0
  IsValid d = IsState d.tables0 d.tables1 d.rehash_idx d.count

  -- the map that two tables hold
  abbrev pub both : HashTable V → HashTable V → Bytes → Option V
  both t0 t1 q = or_else (find_entry (chain_of t0 q) q) (find_entry (chain_of t1 q) q)

  abbrev pub second : Option (HashTable V) → HashTable V
  second none = blank
  second (some t1) = t1

  -- the finite map that a dictionary stands for
  unfoldable pub meaning : RedisDict V → Bytes → Option V
  meaning d q = both d.tables0 (second d.tables1) q

  -- below the border a key is looked up in the second table, from it on in the first
  pub ahead_first :
      {t0 t1 : HashTable V} {r n : ℕ} (q : Bytes)
      → Split t0 t1 r n
      → r ≤ slot t0 q
      → find_entry (chain_of t1 q) q ≡ none
  ahead_first {t0} {t1} q h le = find_entry-absent q (chain_of t1 q) (h.ahead q le)

  pub behind_empty :
      {t0 t1 : HashTable V} {r n : ℕ} (q : Bytes)
      → Split t0 t1 r n
      → slot t0 q < r
      → chain_of t0 q ≡ []
  unfolding chain_of
  behind_empty {t0} q h lt = h.emptied (slot t0 q) lt

  pub skip_empty-le : (fuel : ℕ) (bs : List (Chain V)) (i : ℕ) → i ≤ skip_empty fuel bs i
  unfolding skip_empty
  skip_empty-le zero bs i = omega arith
  skip_empty-le (suc fuel) bs i = ground (arith, skip_empty-le fuel bs (i + 1))

  pub get_or-get_elem? :
      (bs : List (Chain V)) (i : ℕ) (c : Chain V) → get_elem? bs i ≡ some c → get_or bs i [] ≡ c
  get_or-get_elem? [] i c h = cc
  get_or-get_elem? (b ∷ bs) zero c h = cc
  get_or-get_elem? (b ∷ bs) (suc i) c h = get_or-get_elem? bs i c h

  pub get_elem?-none : (bs : List (Chain V)) (i : ℕ) → get_elem? bs i ≡ none → length bs ≤ i
  get_elem?-none [] i h = omega arith
  get_elem?-none (b ∷ bs) zero h = cc
  get_elem?-none (b ∷ bs) (suc i) h = omega (arith, get_elem?-none bs i h)

  pub get_elem?-beyond : (bs : List (Chain V)) (i : ℕ) → length bs ≤ i → get_elem? bs i ≡ none
  get_elem?-beyond [] i h = refl
  get_elem?-beyond (b ∷ bs) zero h = absurd (omega arith)
  get_elem?-beyond (b ∷ bs) (suc i) h = get_elem?-beyond bs i (omega arith)

  pub get_or-beyond : (bs : List (Chain V)) (i : ℕ) → length bs ≤ i → get_or bs i [] ≡ []
  get_or-beyond [] i h = refl
  get_or-beyond (b ∷ bs) zero h = absurd (omega arith)
  get_or-beyond (b ∷ bs) (suc i) h = get_or-beyond bs i (omega arith)

  bucket_cases :
      (o : Option (Chain V))
      → (o ≡ none) ⊎ (o ≡ some []) ⊎ ((e : Bytes × V) × (es : Chain V) × (o ≡ some (e ∷ es)))
  bucket_cases none = inl refl
  bucket_cases (some []) = inr (inl refl)
  bucket_cases (some (e ∷ es)) = inr (inr (e, es, refl))

  same_or_later :
      (bs : List (Chain V)) (i j : ℕ)
      → i ≤ j
      → get_elem? bs i ≡ some []
      → (i + 1 ≤ j → get_or bs j [] ≡ [])
      → get_or bs j [] ≡ []
  same_or_later bs i j le e later = elim (Bool-cases (nat_eq i j)) [
    | inl p ↦ let same = (nat_eq_iff i j).0 p in rw (← same) (get_or-get_elem? bs i [] e)
    | inr p ↦ later (ground arith)
  ]

  -- what the skipping turns have passed is empty
  pub skipped_empty :
      (fuel : ℕ) (bs : List (Chain V)) (i j : ℕ)
      → i ≤ j
      → j < skip_empty fuel bs i
      → get_or bs j [] ≡ []
  unfolding skip_empty
  skipped_empty zero bs i j le lt = absurd (omega arith)
  skipped_empty (suc fuel) bs i j le lt = elim (bucket_cases (get_elem? bs i)) [
    | inl e ↦ absurd (ground (arith, e))
    | inr (inr (x, xs, e)) ↦ absurd (ground (arith, e))
    | inr (inl e) ↦
        same_or_later bs i j le e
          (λ later. skipped_empty fuel bs (i + 1) j later (rw (e, skip_empty) at lt))
  ]

  -- with a turn for each bucket left, the loop stops at an entry or past the end
  pub skip_empty-stops :
      (fuel : ℕ) (bs : List (Chain V)) (i : ℕ) (c : Chain V)
      → length bs ≤ i + fuel
      → get_elem? bs (skip_empty fuel bs i) ≡ some c
      → 0 < length c
  unfolding skip_empty
  skip_empty-stops zero bs i c h e = absurd (ground (arith, get_elem?-beyond bs i (omega arith)))
  skip_empty-stops (suc fuel) bs i c h e = elim (bucket_cases (get_elem? bs i)) [
    | inl p ↦ ground (arith, p)
    | inr (inr (x, xs, p)) ↦ ground (arith, p)
    | inr (inl p) ↦ skip_empty-stops fuel bs (i + 1) c (omega arith) (rw (p, skip_empty) at e)
  ]
