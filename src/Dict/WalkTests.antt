-- ===== src/Dict/WalkTests.antt =====
-- Runs of the traversals, and their theorems at concrete inputs.
use hayakv.Base.{ℕ, ◌+◌, ◌≡◌, refl, Bool, Option, some, [], ◌∷◌, arith, length, keep}
use mathlib.Core.Option
use hayakv.Base.Classes.{Bytes, codes, bytes_eq}
use hayakv.Dict.{RedisDict, one_table, next_power, fnv1a, len, put, is_rehashing}
use hayakv.Dict.State.{IsValid, meaning}
use hayakv.Dict.Methods.{present, put-Writes}
use hayakv.Dict.Removal.{one_table_lem}
use hayakv.Dict.Session.{call, session, put_call}
use hayakv.Dict.Walks.{keys, random_keys, for_each, walk_buckets, walk_chain, second_buckets}
use hayakv.Dict.Scans.{times, keys-meaning}
use hayakv.Dict.Cursors.{whole_scan, all_buckets, whole_scan_lem}

abbrev empty : RedisDict ℕ
empty = one_table 4

empty-IsValid : IsValid empty
empty-IsValid = (one_table_lem 4 (omega arith)).0

abbrev one_key : RedisDict ℕ
one_key = (put-Writes empty (codes "a") 1 empty-IsValid).0

one_key-IsValid : IsValid one_key
one_key-IsValid = (put-Writes empty (codes "a") 1 empty-IsValid).2.valid

abbrev two_keys : RedisDict ℕ
two_keys = (put-Writes one_key (codes "b") 2 one_key-IsValid).0

two_keys-IsValid : IsValid two_keys
two_keys-IsValid = (put-Writes one_key (codes "b") 2 one_key-IsValid).2.valid

-- the pattern of one key
abbrev exactly : Bytes → Option (Bytes → Bool)
exactly pattern = some (bytes_eq pattern)

abbrev both_puts : Option (RedisDict ℕ)
both_puts =
    Option.map (λ r. r.0) (session (put_call (codes "a") 1 ∷ put_call (codes "b") 2 ∷ []) empty)

-- `RandomKeys` repeats no key, however many are asked for
random_runs : Option.map (λ d. length (random_keys 9 d)) both_puts ≡ some 2
unfolding session call one_table put next_power fnv1a bytes_eq random_keys for_each walk_buckets
    walk_chain second_buckets is_rehashing
random_runs = refl

-- and it returns a key when none is asked for
random_none : Option.map (λ d. length (random_keys 0 d)) both_puts ≡ some 1
unfolding session call one_table put next_power fnv1a bytes_eq random_keys for_each walk_buckets
    walk_chain second_buckets is_rehashing
random_none = refl

keys-meaning_example :
    (times (codes "a") (keys two_keys) ≡ present (meaning two_keys (codes "a")))
    × (length (keys two_keys) ≡ len two_keys)
keys-meaning_example = keys-meaning two_keys (codes "a") two_keys-IsValid

whole_scan_lem_example :
    whole_scan exactly two_keys 1 (codes "b") (length (all_buckets two_keys) + 1) 0
    ≡ some (keep (bytes_eq (codes "b")) (keys two_keys))
unfolding bytes_eq
whole_scan_lem_example =
    whole_scan_lem exactly (bytes_eq (codes "b")) two_keys 1 (codes "b")
      (length (all_buckets two_keys) + 1) two_keys-IsValid (omega arith) refl (omega arith)
