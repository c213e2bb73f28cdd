-- ===== src/Dict/Walks.antt =====
-- The traversals of internal/datastruct/dict/redisdict.go: `ForEach`, the keys, and `DictScan`. A consumer
-- takes the values of the variables that its closure changes, and gives the new ones and whether to go on.
use hayakv.Base.{
  ℕ, ◌+◌, ◌-◌, Bool, true, false, ◌&&◌, ◌||◌, not, Option, none, some, List, [], ◌∷◌, ◌++◌, length,
  drop, keep, map, ltb, leb, nat_eq, if◌then◌else◌,
}
use hayakv.Base.Classes.{Bytes, bytes_eq}
use hayakv.Dict.{Chain, RedisDict, is_rehashing}

module _ {ℓ ℓ'} {V : Type ℓ} {S : Type ℓ'} where
  unfoldable pub walk_chain : (Bytes → V → S → S × Bool) → Chain V → S → S × Bool
  walk_chain consumer [] s = (s, true)
  walk_chain consumer ((k, v) ∷ c) s =
      let r = consumer k v s in
      let rest = walk_chain consumer c r.0 in if r.1 then rest else (r.0, false)

  unfoldable pub walk_buckets : (Bytes → V → S → S × Bool) → List (Chain V) → S → S × Bool
  unfolding walk_chain
  walk_buckets consumer [] s = (s, true)
  walk_buckets consumer (c ∷ cs) s =
      let r = walk_chain consumer c s in
      let rest = walk_buckets consumer cs r.0 in if r.1 then rest else (r.0, false)

module _ {ℓ} {V : Type ℓ} where
  -- the second table, which is passed over while there is no rehash and where it is nil
  unfoldable pub second_buckets : RedisDict V → List (Chain V)
  unfolding is_rehashing
  second_buckets d =
      if is_rehashing d then elim d.tables1 [ none ↦ [] | some t ↦ t.buckets ] else []

module _ {ℓ ℓ'} {V : Type ℓ} {S : Type ℓ'} where
  -- the two loops of every traversal
  unfoldable pub for_each : (Bytes → V → S → S × Bool) → RedisDict V → S → S
  unfolding walk_buckets second_buckets
  for_each consumer d s =
      let r = walk_buckets consumer d.tables0.buckets s in
      if r.1 then (walk_buckets consumer (second_buckets d) r.0).0 else r.0

-- `seen` has the keys of the result
abbrev pub seen : Bytes → List Bytes → Bool
seen key [] = false
seen key (k ∷ ks) = bytes_eq k key || seen key ks

module _ {ℓ} {V : Type ℓ} where
  abbrev pub collect_key : Bytes → V → List Bytes → List Bytes × Bool
  collect_key key val ks = (ks ++ (key ∷ []), true)

  unfoldable pub keys : RedisDict V → List Bytes
  unfolding for_each
  keys d = for_each collect_key d []

  -- `RandomKeys` returns as soon as it has as many keys as asked for
  abbrev pub collect_some : ℕ → Bytes → V → List Bytes → List Bytes × Bool
  collect_some limit key val ks = (ks ++ (key ∷ []), ltb (length ks + 1) limit)

  unfoldable pub random_keys : ℕ → RedisDict V → List Bytes
  unfolding for_each
  random_keys limit d = for_each (collect_some limit) d []

  abbrev pub collect_distinct : ℕ → Bytes → V → List Bytes → List Bytes × Bool
  collect_distinct limit key val ks =
      if seen key ks then (ks, true) else collect_some limit key val ks

  unfoldable pub random_distinct_keys : ℕ → RedisDict V → List Bytes
  unfolding for_each bytes_eq
  random_distinct_keys limit d = for_each (collect_distinct limit) d []

  -- the keys of a chain that match
  abbrev pub matching : (Bytes → Bool) → Chain V → List Bytes
  matching match_key c = keep match_key (map (λ e. e.0) c)

  -- A loop of `DictScan` over the buckets from the index at hand: the result, and how far the index went.
  unfoldable pub scan_buckets : (Bytes → Bool) → ℕ → List (Chain V) → List Bytes → List Bytes × ℕ
  scan_buckets match_key count [] result = (result, 0)
  scan_buckets match_key count (c ∷ cs) result =
      let rest = scan_buckets match_key count cs (result ++ matching match_key c) in
      if ltb (length result) count then (rest.0, rest.1 + 1) else (result, 0)

  -- the loops on the buckets of the two tables, with the cursor taken apart and put together again
  unfoldable pub scan_pair :
      (Bytes → Bool) → Bool → List (Chain V) → List (Chain V) → ℕ → ℕ → List Bytes × ℕ
  unfolding scan_buckets
  scan_pair match_key rehashing ht0 ht1 cursor count =
      let ht0_size = length ht0 in
      let ht1_size = length ht1 in
      let behind = rehashing && not (ltb cursor ht0_size) in
      let ht0_start = if behind then ht0_size else cursor in
      let ht1_start = if behind then cursor - ht0_size else 0 in
      let first = scan_buckets match_key count (drop ht0_start ht0) [] in
      let second = scan_buckets match_key count (drop ht1_start ht1) first.0 in
      let ht0_idx = ht0_start + first.1 in
      let ht1_idx = ht1_start + second.1 in
      if rehashing
      then (
        second.0,
        if leb ht1_size ht1_idx && leb ht0_size ht0_idx
            then 0
            else if ltb ht0_idx ht0_size
            then ht0_idx
            else ht0_size + ht1_idx,
      )
      else (first.0, if leb ht0_size ht0_idx then 0 else ht0_idx)

  unfoldable pub scan_tables : (Bytes → Bool) → RedisDict V → ℕ → ℕ → List Bytes × ℕ
  unfolding scan_pair is_rehashing second_buckets
  scan_tables match_key d cursor count =
      scan_pair match_key (is_rehashing d) d.tables0.buckets (second_buckets d) cursor count

  -- `DictScan`: the keys and the next cursor, which is `none` for -1; `compile_pattern` is
  -- `wildcard.CompilePattern`.
  unfoldable pub dict_scan :
      (Bytes → Option (Bytes → Bool)) → RedisDict V → ℕ → ℕ → Bytes → List Bytes × Option ℕ
  unfolding scan_tables keys bytes_eq
  dict_scan compile_pattern d cursor count pattern =
      let any = bytes_eq pattern (42 ∷ []) in
      if nat_eq d.count 0
      then ([], some 0)
      else if any && leb d.count count
      then (keys d, some 0)
      else if any
      then (let r = scan_tables (λ _. true) d cursor count in (r.0, some r.1))
      else elim (compile_pattern pattern) [
        | none ↦ ([], none)
        | some match_key ↦ let r = scan_tables match_key d cursor count in (r.0, some r.1)
      ]
