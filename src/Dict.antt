-- ===== src/Dict.antt =====
-- internal/datastruct/dict/redisdict.go: a chained hash table with incremental rehashing.
-- The lock of the Go type is left out: each method runs as one step. A bucket is the list of its
-- chain, first entry first. `none` as the result of a method is a Go panic (a nil table, or an index
-- out of range).
pub mod Chains
pub mod Tables
pub mod State
pub mod Rehash
pub mod Steps
pub mod Writes
pub mod Methods
pub mod Removal
pub mod Session
pub mod Walks
pub mod Scans
pub mod Cursors
pub mod WalkTests
pub mod Tests
use Prim.Native.Nat.{bit_and, bit_or, bit_xor}
use hayakv.Base.{
  ℕ, zero, suc, ◌+◌, ◌-◌, ◌*◌, ◌/◌, ◌%◌, ◌^◌, Bool, true, false, ◌&&◌, Option, none, some, List, [],
  ◌∷◌, ◌++◌, length, get_elem?, set, replicate, ltb, leb, nat_eq, if◌then◌else◌, ◌>>=◌,
}
use hayakv.Base.Classes.{Bytes, bytes_eq}
use hayakv.Base.Int.{ℤ, pos, pos_part, ltb_ℤ}

abbrev pub Chain {ℓ} : Type ℓ → Type ℓ
Chain V = List (Bytes × V)

pub record HashTable {ℓ} (V : Type ℓ) : Type ℓ where
  pub buckets : List (Chain V)
  pub mask : ℕ
  pub used : ℕ

-- `tables[1]` is nil outside a rehash, and `rehashIdx` is -1: both are `none` here.
pub record RedisDict {ℓ} (V : Type ℓ) : Type ℓ where
  pub tables0 : HashTable V
  pub tables1 : Option (HashTable V)
  pub rehash_idx : Option ℕ
  pub count : ℕ

abbrev pub min_size : ℕ
min_size = 4

-- `n |= n >> k`
abbrev pub smear : ℕ → ℕ → ℕ
smear k n = bit_or n (n / 2 ^ k)

-- The argument is not negative and below 2^63, so the sum is at most 2^63, which as an int is the least
-- one: a negative length.
unfoldable pub next_power : ℕ → ℕ
next_power n =
    if leb n min_size
    then min_size
    else smear 32 (smear 16 (smear 8 (smear 4 (smear 2 (smear 1 (n - 1)))))) + 1

fnv1a_loop : ℕ → Bytes → ℕ
fnv1a_loop hash [] = hash
fnv1a_loop hash (b ∷ bs) = fnv1a_loop (bit_xor hash b * 1099511628211 % 2 ^ 64) bs

unfoldable pub fnv1a : Bytes → ℕ
unfolding fnv1a_loop
fnv1a key = fnv1a_loop 14695981039346656037 key

module _ {ℓ} {V : Type ℓ} where
  unfoldable pub make_table : ℕ → HashTable V
  make_table sz = record { buckets = replicate sz []; mask = sz - 1; used = 0 }

  -- a dictionary with one table of `sz` empty buckets
  unfoldable pub one_table : ℕ → RedisDict V
  unfolding make_table
  one_table sz = record { tables0 = make_table sz; tables1 = none; rehash_idx = none; count = 0 }

  -- `make` panics for a length that is negative as an int, and for one above what the runtime can
  -- allocate: `max_alloc` is the greatest length it takes, which is below 2^63.
  unfoldable pub make_redis : ℕ → ℤ → Option (RedisDict V)
  unfolding one_table
  make_redis max_alloc size =
      let size' = if ltb_ℤ size (pos min_size) then min_size else pos_part size in
      let sz = next_power size' in if leb sz max_alloc then some (one_table sz) else none

  -- `fnv1a(key) & ht.mask`
  unfoldable pub slot : HashTable V → Bytes → ℕ
  slot t key = bit_and (fnv1a key) t.mask

  unfoldable pub is_rehashing : RedisDict V → Bool
  is_rehashing d = elim d.rehash_idx [ none ↦ false | some _ ↦ true ]

  -- The new table is taken to fit into memory.
  unfoldable pub start_rehash : ℕ → RedisDict V → RedisDict V
  unfolding is_rehashing make_table
  start_rehash new_size d =
      if is_rehashing d
      then d
      else let n = if ltb new_size d.tables0.used then d.tables0.used else new_size in
        record d { tables1 = some (make_table (next_power n)); rehash_idx = some 0 }

  -- The load factor is 1, and the quotient of two lengths is at least 1 exactly when the dividend is
  -- the larger.
  unfoldable pub start_rehash_if_needed : RedisDict V → RedisDict V
  unfolding is_rehashing start_rehash
  start_rehash_if_needed d =
      if is_rehashing d
      then d
      else if nat_eq d.tables0.used 0
      then d
      else if leb (length d.tables0.buckets) d.tables0.used
      then start_rehash (length d.tables0.buckets * 2) d
      else d

  -- one turn of the loop over a chain: the entry becomes the head of its new bucket
  unfoldable pub push : Bytes → V → HashTable V → Option (HashTable V)
  unfolding slot
  push k v t = do
    c ← get_elem? t.buckets (slot t k)
    some (record t { buckets = set t.buckets (slot t k) ((k, v) ∷ c); used = t.used + 1 })

  unfoldable pub move_chain : Chain V → HashTable V → Option (HashTable V)
  unfolding push
  move_chain [] t = some t
  move_chain ((k, v) ∷ es) t = push k v t >>= move_chain es

  -- the turns that pass empty buckets: the index where they stop; a turn for each bucket is enough
  unfoldable pub skip_empty : ℕ → List (Chain V) → ℕ → ℕ
  skip_empty zero bs idx = idx
  skip_empty (suc fuel) bs idx =
      let next = skip_empty fuel bs (idx + 1) in
      elim (get_elem? bs idx) [ none ↦ idx | some [] ↦ next | some (e ∷ es) ↦ idx ]

  -- one call with the two tables at hand: it empties a bucket, or it ends the rehash
  unfoldable pub migrate : RedisDict V → HashTable V → ℕ → Option (RedisDict V)
  unfolding skip_empty move_chain
  migrate d ht1 idx =
      let ht0 = d.tables0 in
      let stop = skip_empty (length ht0.buckets) ht0.buckets idx in
      elim (get_elem? ht0.buckets stop) [
        | none ↦ some (record d { tables0 = ht1; tables1 = none; rehash_idx = none })
        | some chain ↦ do
          ht1' ← move_chain chain ht1
          some (record d {
            tables0 = record ht0 { buckets = set ht0.buckets stop [] };
            tables1 = some ht1';
            rehash_idx = some (stop + 1);
          })
      ]

  unfoldable pub rehash_step : RedisDict V → Option (RedisDict V)
  unfolding migrate
  rehash_step d = elim d.rehash_idx [
    | none ↦ some d
    | some idx ↦ d.tables1 >>= λ ht1. migrate d ht1 idx
  ]

-- which of the two tables
pub data Which : Type 0 where
  ht0 ht1 : Which

module _ {ℓ} {V : Type ℓ} where
  abbrev table : RedisDict V → Which → Option (HashTable V)
  table d ht0 = some d.tables0
  table d ht1 = d.tables1

  abbrev with_table : RedisDict V → Which → HashTable V → RedisDict V
  with_table d ht0 t = record d { tables0 = t }
  with_table d ht1 t = record d { tables1 = some t }

  unfoldable pub bucket_index : RedisDict V → Bytes → Option (Which × ℕ)
  unfolding slot
  bucket_index d key = elim d.rehash_idx [
    | none ↦ some (ht0, slot d.tables0 key)
    | some idx ↦
        if leb idx (slot d.tables0 key)
        then some (ht0, slot d.tables0 key)
        else do t ← d.tables1; some (ht1, slot t key)
  ]

  unfoldable pub find_entry : Chain V → Bytes → Option V
  find_entry [] key = none
  find_entry ((k, v) ∷ c) key = if bytes_eq k key then some v else find_entry c key

  -- `e.val = val` at the entry that `find_entry` returned
  unfoldable pub assign : Chain V → Bytes → V → Chain V
  assign [] key val = []
  assign ((k, v) ∷ c) key val = if bytes_eq k key then (k, val) ∷ c else (k, v) ∷ assign c key val

  -- the bucket of a key: which table, the table, the index and the chain
  unfoldable pub locate : RedisDict V → Bytes → Option (Which × HashTable V × ℕ × Chain V)
  unfolding bucket_index
  locate d key = do
    (w, idx) ← bucket_index d key
    t ← table d w
    c ← get_elem? t.buckets idx
    some (w, t, idx, c)

  unfoldable pub get : RedisDict V → Bytes → Option (Option V)
  unfolding locate find_entry
  get d key = do (w, t, idx, c) ← locate d key; some (find_entry c key)

  unfoldable pub len : RedisDict V → ℕ
  len d = d.count

  -- a new entry at the head of its bucket
  abbrev insert_head : RedisDict V → Which → HashTable V → ℕ → Chain V → Bytes → V → RedisDict V
  insert_head d w t idx c key val =
      let t' : HashTable V = record t {
        buckets = set t.buckets idx ((key, val) ∷ c);
        used = t.used + 1;
      } in
      record (with_table d w t') { count = d.count + 1 }

  -- the new value of an entry that is there
  abbrev overwrite : RedisDict V → Which → HashTable V → ℕ → Chain V → Bytes → V → RedisDict V
  overwrite d w t idx c key val =
      with_table d w (record t { buckets = set t.buckets idx (assign c key val) })

  -- the two calls that `Put`, `PutIfAbsent` and `PutIfExists` begin with
  unfoldable pub prepare : RedisDict V → Option (RedisDict V)
  unfolding start_rehash_if_needed rehash_step
  prepare d = rehash_step (start_rehash_if_needed d)

  unfoldable pub put : RedisDict V → Bytes → V → Option (RedisDict V × ℕ)
  unfolding prepare locate find_entry assign
  put d key val = do
    d' ← prepare d
    (w, t, idx, c) ← locate d' key
    elim (find_entry c key) [
      | some _ ↦ some (overwrite d' w t idx c key val, 0)
      | none ↦ some (insert_head d' w t idx c key val, 1)
    ]

  unfoldable pub put_if_absent : RedisDict V → Bytes → V → Option (RedisDict V × ℕ)
  unfolding prepare locate find_entry
  put_if_absent d key val = do
    d' ← prepare d
    (w, t, idx, c) ← locate d' key
    elim (find_entry c key) [
      | some _ ↦ some (d', 0)
      | none ↦ some (insert_head d' w t idx c key val, 1)
    ]

  unfoldable pub put_if_exists : RedisDict V → Bytes → V → Option (RedisDict V × ℕ)
  unfolding prepare locate find_entry assign
  put_if_exists d key val = do
    d' ← prepare d
    (w, t, idx, c) ← locate d' key
    elim (find_entry c key) [
      | some _ ↦ some (overwrite d' w t idx c key val, 1)
      | none ↦ some (d', 0)
    ]

  -- the inner loop of `Remove`: the chain without the first entry of the key
  unfoldable pub unlink : Chain V → Bytes → Chain V
  unlink [] key = []
  unlink ((k, v) ∷ c) key = if bytes_eq k key then c else (k, v) ∷ unlink c key

  -- one table of the loop of `Remove`: the table without the key and the value, if it was there
  unfoldable pub remove_from : HashTable V → Bytes → Option (HashTable V × Option V)
  unfolding slot find_entry unlink
  remove_from t key = do
    c ← get_elem? t.buckets (slot t key)
    elim (find_entry c key) [
      | none ↦ some (t, none)
      | some v ↦ some (
        record t { buckets = set t.buckets (slot t key) (unlink c key); used = t.used - 1 },
        some v,
      )
    ]

  -- the second turn of the loop; a nil table is passed over
  unfoldable pub remove_second : RedisDict V → Bytes → Option (RedisDict V × Option V × ℕ)
  unfolding remove_from
  remove_second d key = elim d.tables1 [
    | none ↦ some (d, none, 0)
    | some t1 ↦ do
      (t, v) ← remove_from t1 key
      elim v [
        | none ↦ some (d, none, 0)
        | some x ↦ some (record d { tables1 = some t; count = d.count - 1 }, some x, 1)
      ]
  ]

  unfoldable pub remove : RedisDict V → Bytes → Option (RedisDict V × Option V × ℕ)
  unfolding is_rehashing rehash_step remove_from remove_second
  remove d key = do
    d' ← (if is_rehashing d then rehash_step d else some d)
    (t, v) ← remove_from d'.tables0 key
    elim v [
      | some x ↦ some (record d' { tables0 = t; count = d'.count - 1 }, some x, 1)
      | none ↦ if is_rehashing d' then remove_second d' key else some (d', none, 0)
    ]

  unfoldable pub clear : RedisDict V → RedisDict V
  unfolding one_table
  clear d = one_table min_size
