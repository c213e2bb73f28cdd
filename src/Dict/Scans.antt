-- ===== src/Dict/Scans.antt =====
-- What the traversals visit: every key that is bound, once.
use hayakv.Base.{
  ℕ, zero, suc, ◌+◌, ◌≤◌, ◌≡◌, refl, ap, sym, ◌∙◌, true, false, Option, none, some, List, [], ◌∷◌,
  ◌++◌, arith, length, length-append, map, nat_eq, get_or, if◌then◌else◌, Bool-cases, inl, inr,
  or_else,
}
use mathlib.Core.List.{append_assoc, append-nil}
use hayakv.Base.Classes.{Bytes, bytes_eq}
use hayakv.Dict.{Chain, HashTable, RedisDict, is_rehashing, find_entry, slot, len, make_table}
use hayakv.Dict.Chains.{occurrences, occurrences-absent, find_entry-absent}
use hayakv.Dict.Tables.{total, chain_of, IsTable}
use hayakv.Dict.State.{IsValid, meaning, both, blank, Split, IsState}
use hayakv.Dict.Methods.{present}
use hayakv.Dict.Walks.{walk_chain, walk_buckets, second_buckets, for_each, collect_key, keys}

-- how often a key is in a list of keys
unfoldable pub times : Bytes → List Bytes → ℕ
times q [] = 0
times q (k ∷ ks) = (if bytes_eq k q then 1 else 0) + times q ks

times-append : (q : Bytes) (xs ys : List Bytes) → times q (xs ++ ys) ≡ times q xs + times q ys
unfolding times
times-append q [] ys = omega arith
times-append q (x ∷ xs) ys = omega (arith, times-append q xs ys)

module _ {V : Type 0} where
  -- the keys of buckets, in the order of a traversal
  unfoldable pub keys_of : List (Chain V) → List Bytes
  keys_of [] = []
  keys_of (c ∷ cs) = map (λ e. e.0) c ++ keys_of cs

  walk_chain-collect :
      (c : Chain V) (ks : List Bytes) → walk_chain collect_key c ks ≡ (ks ++ map (λ e. e.0) c, true)
  unfolding walk_chain
  walk_chain-collect [] ks = ap (λ t. (t, true)) (sym (append-nil ks))
  walk_chain-collect ((k, v) ∷ c) ks =
      walk_chain-collect c (ks ++ (k ∷ []))
      ∙ ap (λ t. (t, true)) (append_assoc ks (k ∷ []) (map (λ e. e.0) c))

  walk_buckets-collect :
      (cs : List (Chain V)) (ks : List Bytes)
      → walk_buckets collect_key cs ks ≡ (ks ++ keys_of cs, true)
  unfolding walk_buckets keys_of
  walk_buckets-collect [] ks = ap (λ t. (t, true)) (sym (append-nil ks))
  walk_buckets-collect (c ∷ cs) ks = rw (walk_chain-collect c ks) (
      walk_buckets-collect cs (ks ++ map (λ e. e.0) c)
      ∙ ap (λ t. (t, true)) (append_assoc ks (map (λ e. e.0) c) (keys_of cs)))

  pub keys-keys_of :
      (d : RedisDict V) → keys d ≡ keys_of d.tables0.buckets ++ keys_of (second_buckets d)
  unfolding keys for_each
  keys-keys_of d =
      rw (walk_buckets-collect d.tables0.buckets [])
        (ap (λ t. t.0) (walk_buckets-collect (second_buckets d) (keys_of d.tables0.buckets)))

  times-chain : (q : Bytes) (c : Chain V) → times q (map (λ e. e.0) c) ≡ occurrences q c
  unfolding times occurrences
  times-chain q [] = refl
  times-chain q ((k, v) ∷ c) = elim (Bool-cases (bytes_eq k q)) [
    | inl e ↦ rw e (omega (arith, times-chain q c))
    | inr e ↦ rw e (omega (arith, times-chain q c))
  ]

  times_zero :
      (q : Bytes) (cs : List (Chain V))
      → ((j : ℕ) → occurrences q (get_or cs j []) ≡ 0)
      → times q (keys_of cs) ≡ 0
  unfolding keys_of times
  times_zero q [] h = refl
  times_zero q (c ∷ cs) h = omega (
    arith,
    times-append q (map (λ e. e.0) c) (keys_of cs),
    times-chain q c,
    h 0,
    times_zero q cs (λ j. h (suc j)),
  )

  -- all occurrences of a key stand in its bucket
  times-bucket :
      (q : Bytes) (i : ℕ) (cs : List (Chain V))
      → ((j : ℕ) → nat_eq j i ≡ false → occurrences q (get_or cs j []) ≡ 0)
      → times q (keys_of cs) ≡ occurrences q (get_or cs i [])
  unfolding keys_of times occurrences
  times-bucket q i [] h = refl
  times-bucket q zero (c ∷ cs) h = omega (
    arith,
    times-append q (map (λ e. e.0) c) (keys_of cs),
    times-chain q c,
    times_zero q cs (λ j. h (suc j) (ground arith)),
  )
  times-bucket q (suc i) (c ∷ cs) h = omega (
    arith,
    times-append q (map (λ e. e.0) c) (keys_of cs),
    times-chain q c,
    h 0 (ground arith),
    times-bucket q i cs (λ j e. h (suc j) (ground (arith, e))),
  )

  times-table :
      (q : Bytes) (t : HashTable V)
      → IsTable t
      → times q (keys_of t.buckets) ≡ occurrences q (chain_of t q)
  unfolding chain_of
  times-table q t h = times-bucket q (slot t q) t.buckets (λ j e. h.placed q j e)

  length-keys_of : (cs : List (Chain V)) → length (keys_of cs) ≡ total cs
  unfolding keys_of total
  length-keys_of [] = refl
  length-keys_of (c ∷ cs) =
      omega (arith, length-append (map (λ e. e.0) c) (keys_of cs), length-map c, length-keys_of cs)
    where
      length-map : (c : Chain V) → length (map (λ e. e.0) c) ≡ length c
      length-map [] = refl
      length-map (e ∷ c) = omega (arith, length-map c)

  present-occurrences :
      (q : Bytes) (c : Chain V) → occurrences q c ≤ 1 → present (find_entry c q) ≡ occurrences q c
  present-occurrences q c h = go (find_entry c q) refl
    where
      go : (o : Option V) → find_entry c q ≡ o → present o ≡ occurrences q c
      go none e = sym (occurrences-absent q c e)
      go (some v) e = elim (Bool-cases (nat_eq (occurrences q c) 0)) [
        | inl z ↦
            let bad : none ≡ some v = sym (find_entry-absent q c (ground (arith, z))) ∙ e in
            absurd (ground (arith, bad))
        | inr z ↦ ground (arith, z, h)
      ]

  split_keys :
      (t0 t1 : HashTable V) (border n : ℕ) (q : Bytes)
      → Split t0 t1 border n
      → (times q (keys_of t0.buckets ++ keys_of t1.buckets) ≡ present (both t0 t1 q))
        × (length (keys_of t0.buckets ++ keys_of t1.buckets) ≡ n)
  split_keys t0 t1 border n q h =
      let c0 = chain_of t0 q in
      let c1 = chain_of t1 q in
      let p0 = present-occurrences q c0 (omega (arith, h.once q)) in
      let p1 = present-occurrences q c1 (omega (arith, h.once q)) in
      (
        go (find_entry c0 q) (find_entry c1 q)
            (omega (
              arith,
              times-append q (keys_of t0.buckets) (keys_of t1.buckets),
              times-table q t0 h.front,
              times-table q t1 h.back,
              p0,
              p1,
            ))
            (omega (arith, p0, p1, h.once q)),
        omega (
          arith,
          length-append (keys_of t0.buckets) (keys_of t1.buckets),
          length-keys_of t0.buckets,
          length-keys_of t1.buckets,
          h.counted,
        ),
      )
    where
      go :
          (a b : Option V)
          → times q (keys_of t0.buckets ++ keys_of t1.buckets) ≡ present a + present b
          → present a + present b ≤ 1
          → times q (keys_of t0.buckets ++ keys_of t1.buckets) ≡ present (or_else a b)
      go none b e le = omega (arith, e)
      go (some v) none e le = omega (arith, e)
      go (some v) (some w) e le = absurd (omega (arith, le))

  -- `Keys` of a valid dictionary has every bound key once and no other, and as many keys as `Len` says.
  pub keys-meaning :
      (d : RedisDict V) (q : Bytes)
      → IsValid d
      → (times q (keys d) ≡ present (meaning d q)) × (length (keys d) ≡ len d)
  unfolding meaning len second_buckets is_rehashing blank make_table keys_of
  keys-meaning d q h = rw (keys-keys_of d) (go d.tables1 d.rehash_idx refl refl h)
    where
      go :
          (t : Option (HashTable V)) (r : Option ℕ)
          → d.tables1 ≡ t
          → d.rehash_idx ≡ r
          → IsState d.tables0 t r d.count
          → let ks = keys_of d.tables0.buckets ++ keys_of (second_buckets d) in
            (times q ks ≡ present (meaning d q)) × (length ks ≡ len d)
      go none none e f h =
          rw (second_buckets, is_rehashing, meaning, e, f)
            (split_keys d.tables0 blank 0 d.count q h)
      go (some t1) (some border) e f h =
          rw (second_buckets, is_rehashing, meaning, e, f)
            (split_keys d.tables0 t1 border d.count q h)
      go none (some border) e f h = elim h [ ]
      go (some t1) none e f h = elim h [ ]
