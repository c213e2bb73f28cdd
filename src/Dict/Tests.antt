-- ===== src/Dict/Tests.antt =====
-- Runs of the dictionary, and its theorems at concrete inputs.
use hayakv.Base.{ℕ, ◌+◌, ◌-◌, ◌^◌, ◌≡◌, refl, true, false, none, some, List, [], ◌∷◌, arith}
use mathlib.Core.Option
use hayakv.Base.Int.{pos, negsuc}
use hayakv.Base.Classes.{Bytes, codes, bytes_eq}
use hayakv.Dict.{
  RedisDict, one_table, make_redis, next_power, fnv1a, get, len, put, remove, is_rehashing,
}
use hayakv.Dict.State.{IsValid, meaning}
use hayakv.Dict.Rehash.{Keeps, steps_left}
use hayakv.Dict.Methods.{present, Writes, put-Writes}
use hayakv.Dict.Removal.{remove-Writes, one_table_lem, run_steps, rehash_ends}
use hayakv.Dict.Session.{
  Call, FiniteMap, call, session, session_map, Models, session-Models, session_refines, put_call,
  get_call, remove_call, len_call, value, number, removed,
}

abbrev key_a : Bytes
key_a = codes "a"

abbrev key_b : Bytes
key_b = codes "b"

abbrev start : RedisDict ℕ
start = one_table 4

start-IsValid : IsValid start
start-IsValid = (one_table_lem 4 (omega arith)).0

-- the hint is rounded up, and above 2^62 it becomes a negative length
make_redis_runs : make_redis {V = ℕ} (2 ^ 40) (negsuc 3) ≡ some start
unfolding make_redis next_power
make_redis_runs = refl

next_power_negative : next_power (2 ^ 62 + 1) ≡ 2 ^ 63
unfolding next_power
next_power_negative = refl

next_power_runs : next_power 5 ≡ 8
unfolding next_power
next_power_runs = refl

-- the published FNV-1a value of "a"
fnv1a_runs : fnv1a key_a ≡ 0xaf63dc4c8601ec8c
unfolding fnv1a
fnv1a_runs = refl

five_keys : List (Call ℕ)
five_keys =
    put_call (codes "a") 1
    ∷ put_call (codes "b") 2
    ∷ put_call (codes "c") 3
    ∷ put_call (codes "d") 4
    ∷ put_call (codes "e") 5
    ∷ put_call (codes "a") 6
    ∷ get_call (codes "a")
    ∷ remove_call (codes "b")
    ∷ get_call (codes "b")
    ∷ len_call
    ∷ []

-- The fifth key starts a rehash; the answers are those of a map.
five_keys_run :
    Option.map (λ r. r.1) (session five_keys start)
    ≡ some (
        number 1
        ∷ number 1
        ∷ number 1
        ∷ number 1
        ∷ number 1
        ∷ number 0
        ∷ value (some 6)
        ∷ removed (some 2) 1
        ∷ value none
        ∷ number 4
        ∷ [])
unfolding five_keys session call one_table get put remove len next_power fnv1a bytes_eq
five_keys_run = refl

put-Writes_example :
    (d' : RedisDict ℕ) × (put start key_a 7 ≡ some (d', 1 - present (meaning start key_a)))
    × Writes start key_a (some 7) d'
put-Writes_example = put-Writes start key_a 7 start-IsValid

abbrev filled : RedisDict ℕ
filled = put-Writes_example.0

filled-IsValid : IsValid filled
filled-IsValid = put-Writes_example.2.valid

remove-Writes_example :
    (d' : RedisDict ℕ) × (remove filled key_a
      ≡ some (d', meaning filled key_a, present (meaning filled key_a)))
    × Writes filled key_a none d'
remove-Writes_example = remove-Writes filled key_a filled-IsValid

start-Models : Models start (record { at = λ q. none; size = 0 })
start-Models =
    let (valid, n, maps) = one_table_lem {V = ℕ} 4 (omega arith) in
    record { valid = valid; maps = maps; sizes = n }

five_puts : List (Call ℕ)
five_puts =
    put_call (codes "a") 1
    ∷ put_call (codes "b") 2
    ∷ put_call (codes "c") 3
    ∷ put_call (codes "d") 4
    ∷ put_call (codes "e") 5
    ∷ []

abbrev empty_map : FiniteMap ℕ
empty_map = record { at = λ q. none; size = 0 }

-- the dictionary after five keys
abbrev five : RedisDict ℕ
five = elim (session five_puts start) [ none ↦ start | some r ↦ r.0 ]

five-IsValid : IsValid five
five-IsValid =
    let (d, run, models) = session-Models five_puts start empty_map start-Models in
    rw (five, run) models.valid

-- It is in the middle of a rehash.
five-is_rehashing : is_rehashing five ≡ true
unfolding five_puts session call one_table put next_power fnv1a bytes_eq is_rehashing
five-is_rehashing = refl

five-steps_left : steps_left five ≡ 4
unfolding five_puts session call one_table put next_power fnv1a bytes_eq steps_left
five-steps_left = refl

rehash_ends_example :
    (d' : RedisDict ℕ) × (run_steps (steps_left five) five ≡ some d')
    × (is_rehashing d' ≡ false)
    × Keeps five d'
rehash_ends_example = rehash_ends (steps_left five) five five-IsValid (omega arith)

session_refines_example :
    (start' d : RedisDict ℕ) × (make_redis (2 ^ 40) (pos 1000) ≡ some start')
    × (session five_keys start' ≡ some (d, (session_map five_keys empty_map).1))
    × Models d (session_map five_keys empty_map).0
session_refines_example =
    session_refines 10 (2 ^ 40) (pos 1000) five_keys (omega arith) (omega arith) (omega arith)
