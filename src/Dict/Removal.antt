-- ===== src/Dict/Removal.antt =====
-- `Remove`, the constructors, and a rehash run to its end.
use hayakv.Base.{
  ℕ, zero, suc, ◌+◌, ◌-◌, ◌^◌, ◌≤◌, ◌<◌, ◌≡◌, refl, sym, ◌∙◌, true, false, Option, none, some, [],
  arith, length, nat_eq, leb, Bool-cases, Option-cases, inl, inr, if◌then◌else◌, ◌>>=◌,
}
use hayakv.Base.Classes.{Bytes}
use hayakv.Base.Int.{ℤ, pos, pos_part, ltb_ℤ}
use hayakv.Dict.{
  HashTable, RedisDict, slot, find_entry, unlink, remove_from, remove_second, remove, rehash_step,
  is_rehashing, make_table, one_table, make_redis, next_power, len,
}
use hayakv.Dict.Chains.{occurrences, length-unlink}
use hayakv.Dict.Tables.{
  total_empty, chain_of, read_slot, total-write, make_table-IsTable, write, same_chain, foreign,
}
use hayakv.Dict.State.{blank, Split, IsState, IsValid, both, meaning, ahead_first, behind_empty}
use hayakv.Dict.Rehash.{
  Keeps, steps_left, both-blank, blank-IsTable, total-blank, used-blank, occurrences-blank,
}
use hayakv.Dict.Steps.{
  Keeps-refl, Keeps-trans, rehash_step-Keeps, next_power-pos, power-least, next_power-le,
  chain_of-make_table,
}
use hayakv.Dict.Writes.{unlink-Change, front-Split, front-both, back-Split, back-both}
use hayakv.Dict.Methods.{present, Writes, Keeps-Writes, Keeps-unchanged}

module _ {V : Type 0} where
  -- the shorter chain leaves room in the counters
  filled :
      {t0 t1 : HashTable V} {r n : ℕ} (k : Bytes) (x : V)
      → Split t0 t1 r n
      → find_entry (chain_of t0 k) k ≡ some x
      → (t0.used - 1 + length (chain_of t0 k) ≡ t0.used + length (unlink (chain_of t0 k) k))
        × (n - 1 + length (chain_of t0 k) ≡ n + length (unlink (chain_of t0 k) k))
  filled {t0} {t1} {r} {n} k x h e =
      let short = length-unlink k x (chain_of t0 k) e in
      let inside = total-write t0 k [] h.front in (omega (arith, h.used0), omega (arith, h.counted))

  filled_back :
      {t0 t1 : HashTable V} {r n : ℕ} (k : Bytes) (x : V)
      → Split t0 t1 r n
      → find_entry (chain_of t1 k) k ≡ some x
      → (t1.used - 1 + length (chain_of t1 k) ≡ t1.used + length (unlink (chain_of t1 k) k))
        × (n - 1 + length (chain_of t1 k) ≡ n + length (unlink (chain_of t1 k) k))
  filled_back {t0} {t1} {r} {n} k x h e =
      let short = length-unlink k x (chain_of t1 k) e in
      let inside = total-write t1 k [] h.back in (omega (arith, h.used1), omega (arith, h.counted))

  once_front :
      {t0 t1 : HashTable V} {r n : ℕ} (k : Bytes)
      → Split t0 t1 r n
      → (q : Bytes) → occurrences q (chain_of t0 k) ≤ 1
  once_front {t0} {t1} k h q = elim (Bool-cases (nat_eq (slot t0 k) (slot t0 q))) [
    | inl e ↦ rw (same_chain t0 k q e) (omega (arith, h.once q))
    | inr e ↦ omega (arith, foreign t0 k q h.front e)
  ]

  once_back :
      {t0 t1 : HashTable V} {r n : ℕ} (k : Bytes)
      → Split t0 t1 r n
      → (q : Bytes) → occurrences q (chain_of t1 k) ≤ 1
  once_back {t0} {t1} k h q = elim (Bool-cases (nat_eq (slot t1 k) (slot t1 q))) [
    | inl e ↦ rw (same_chain t1 k q e) (omega (arith, h.once q))
    | inr e ↦ omega (arith, foreign t1 k q h.back e)
  ]

  -- the part of `Remove` after its rehash step
  remove_rest : RedisDict V → Bytes → Option (RedisDict V × Option V × ℕ)
  unfolding remove_from remove_second is_rehashing
  remove_rest d key = do
    (t, v) ← remove_from d.tables0 key
    elim v [
      | some x ↦ some (record d { tables0 = t; count = d.count - 1 }, some x, 1)
      | none ↦ if is_rehashing d then remove_second d key else some (d, none, 0)
    ]

  -- What a removal answers, and what it leaves.
  Removes : RedisDict V → Bytes → Type 0
  Removes d k =
      (d' : RedisDict V) × (remove_rest d k ≡ some (d', meaning d k, present (meaning d k)))
      × Writes d k none d'

  nothing : (d : RedisDict V) (k : Bytes) → IsValid d → meaning d k ≡ none → Writes d k none d
  nothing d k h e = rw e at (Keeps-unchanged k (Keeps-refl d h))

  remove_idle :
      (t0 : HashTable V) (n : ℕ) (k : Bytes)
      → Split t0 blank 0 n
      → Removes (record { tables0 = t0; tables1 = none; rehash_idx = none; count = n }) k
  unfolding Removes remove_rest meaning
  remove_idle t0 n k h =
      let d : RedisDict V = record { tables0 = t0; tables1 = none; rehash_idx = none; count = n } in
      elim (Option-cases (find_entry (chain_of t0 k) k)) [
        | inl e ↦ (
          d,
          rw (read_slot t0 k h.front, ◌>>=◌, both-blank t0 k, e),
          nothing d k h (both-blank t0 k ∙ e),
        )
        | inr (x, e) ↦
            let (us, co) = filled k x h e in
            let change = unlink-Change k (chain_of t0 k) (once_front k h) in
            (
              record d {
                tables0 = write t0 (slot t0 k) (unlink (chain_of t0 k) k) (t0.used - 1);
                count = n - 1;
              },
              rw (read_slot t0 k h.front, ◌>>=◌, both-blank t0 k, e),
              record {
                valid = front-Split h k _ none (t0.used - 1) (n - 1) (omega arith) change us co;
                meanings = front-both h k _ none (t0.used - 1) (n - 1) (omega arith) change us co;
                count = ground (arith, both-blank t0 k, e, co, length-unlink k x (chain_of t0 k) e);
              },
            )
      ]

  front_border :
      {t0 t1 : HashTable V} {r n : ℕ} (k : Bytes) (x : V)
      → Split t0 t1 r n
      → find_entry (chain_of t0 k) k ≡ some x
      → r ≤ slot t0 k
  unfolding find_entry
  front_border {t0} {r = r} k x h e = elim (Bool-cases (leb r (slot t0 k))) [
    | inl p ↦ ground arith
    | inr p ↦ cc (rw (behind_empty k h (ground arith)) at e)
  ]

  back_border :
      {t0 t1 : HashTable V} {r n : ℕ} (k : Bytes) (x : V)
      → Split t0 t1 r n
      → find_entry (chain_of t1 k) k ≡ some x
      → slot t0 k < r
  back_border {t0} {r = r} k x h e = elim (Bool-cases (leb r (slot t0 k))) [
    | inl p ↦ cc (e, ahead_first k h (ground arith))
    | inr p ↦ ground arith
  ]

  remove_front :
      (t0 t1 : HashTable V) (r n : ℕ) (k : Bytes) (x : V)
      → Split t0 t1 r n
      → find_entry (chain_of t0 k) k ≡ some x
      → Removes (record { tables0 = t0; tables1 = some t1; rehash_idx = some r; count = n }) k
  unfolding Removes remove_rest meaning
  remove_front t0 t1 r n k x h e =
      let d : RedisDict V = record {
        tables0 = t0;
        tables1 = some t1;
        rehash_idx = some r;
        count = n;
      } in
      let (us, co) = filled k x h e in
      let at = front_border k x h e in
      let change = unlink-Change k (chain_of t0 k) (once_front k h) in
      (
        record d {
          tables0 = write t0 (slot t0 k) (unlink (chain_of t0 k) k) (t0.used - 1);
          count = n - 1;
        },
        rw (read_slot t0 k h.front, ◌>>=◌, e),
        record {
          valid = front-Split h k _ none (t0.used - 1) (n - 1) at change us co;
          meanings = front-both h k _ none (t0.used - 1) (n - 1) at change us co;
          count = ground (arith, e, co, length-unlink k x (chain_of t0 k) e);
        },
      )

  remove_back :
      (t0 t1 : HashTable V) (r n : ℕ) (k : Bytes)
      → Split t0 t1 r n
      → find_entry (chain_of t0 k) k ≡ none
      → Removes (record { tables0 = t0; tables1 = some t1; rehash_idx = some r; count = n }) k
  unfolding Removes remove_rest meaning
  remove_back t0 t1 r n k h f =
      let d : RedisDict V = record {
        tables0 = t0;
        tables1 = some t1;
        rehash_idx = some r;
        count = n;
      } in
      elim (Option-cases (find_entry (chain_of t1 k) k)) [
        | inl e ↦ (
          d,
          rw (read_slot t0 k h.front, ◌>>=◌, f, read_slot t1 k h.back, e),
          nothing d k h (rw f e),
        )
        | inr (x, e) ↦
            let (us, co) = filled_back k x h e in
            let at = back_border k x h e in
            let change = unlink-Change k (chain_of t1 k) (once_back k h) in
            (
              record d {
                tables1 = some (write t1 (slot t1 k) (unlink (chain_of t1 k) k) (t1.used - 1));
                count = n - 1;
              },
              rw (read_slot t0 k h.front, ◌>>=◌, f, read_slot t1 k h.back, e),
              record {
                valid = back-Split h k _ none (t1.used - 1) (n - 1) at change us co;
                meanings = back-both h k _ none (t1.used - 1) (n - 1) at change us co;
                count = ground (arith, f, e, co, length-unlink k x (chain_of t1 k) e);
              },
            )
      ]

  remove_rest-Removes : (d : RedisDict V) (k : Bytes) → IsValid d → Removes d k
  remove_rest-Removes d k h = go d.tables0 d.tables1 d.rehash_idx d.count h
    where
      go :
          (t0 : HashTable V) (o : Option (HashTable V)) (i : Option ℕ) (n : ℕ)
          → IsState t0 o i n
          → Removes (record { tables0 = t0; tables1 = o; rehash_idx = i; count = n }) k
      go t0 none (some r) n s = elim s [ ]
      go t0 (some t1) none n s = elim s [ ]
      go t0 none none n s = remove_idle t0 n k s
      go t0 (some t1) (some r) n s = elim (Option-cases (find_entry (chain_of t0 k) k)) [
        | inl e ↦ remove_back t0 t1 r n k s e
        | inr (x, e) ↦ remove_front t0 t1 r n k x s e
      ]

  -- `Remove` on a valid dictionary never panics: it returns the binding of the key and the number of
  -- entries that it deleted, and the result is valid, without the key and with every other binding.
  pub remove-Writes :
      (d : RedisDict V) (k : Bytes)
      → IsValid d
      → (d' : RedisDict V) × (remove d k ≡ some (d', meaning d k, present (meaning d k)))
        × Writes d k none d'
  unfolding remove remove_rest Removes
  remove-Writes d k h = elim (Bool-cases (is_rehashing d)) [
    | inr e ↦ let (d', run, w) = remove_rest-Removes d k h in (d', rw e run, w)
    | inl e ↦
        let (p, step, s, _) = rehash_step-Keeps d h in
        let (d', run, w) = remove_rest-Removes p k s.valid in
        (d', rw (e, step, ← s.meanings k) run, Keeps-Writes k none s w)
  ]

  idle_empty : (m : ℕ) → 0 < m → Split {V = V} (make_table m) blank 0 0
  unfolding make_table occurrences
  idle_empty m p = record {
    front = make_table-IsTable m p;
    back = blank-IsTable V;
    emptied = λ i lt. absurd (omega arith);
    ahead = λ q le. occurrences-blank V q;
    once = λ q. rw (chain_of-make_table m q) (omega (arith, occurrences-blank V q));
    counted = omega (arith, total_empty V m, total-blank V);
    used0 = omega (arith, total_empty V m);
    used1 = used-blank V ∙ sym (total-blank V);
  }

  idle_meaning : (m : ℕ) (q : Bytes) → both {V = V} (make_table m) blank q ≡ none
  unfolding find_entry
  idle_meaning m q = both-blank (make_table m) q ∙ rw (chain_of-make_table m q)

  -- A dictionary of one table is valid, empty and counts nothing.
  pub one_table_lem :
      (sz : ℕ)
      → 0 < sz
      → IsValid (one_table {V = V} sz)
        × (len (one_table {V = V} sz) ≡ 0)
        × ((q : Bytes) → meaning (one_table {V = V} sz) q ≡ none)
  unfolding one_table meaning len
  one_table_lem sz h = (idle_empty sz h, refl, λ q. idle_meaning sz q)

  -- `MakeRedis` gets its table if the hint, rounded up to a power of two, can be allocated.
  pub make_redis_lem :
      (k max_alloc : ℕ) (size : ℤ)
      → 2 ≤ k
      → 2 ^ k ≤ max_alloc
      → pos_part size ≤ 2 ^ k
      → (sz : ℕ) × (0 < sz) × (make_redis {V = V} max_alloc size ≡ some (one_table sz))
  unfolding make_redis
  make_redis_lem k max_alloc size low room le =
      let size' = if ltb_ℤ size (pos 4) then 4 else pos_part size in
      let four : 4 ≤ 2 ^ k = power-least k low in
      let small : size' ≤ 2 ^ k = ground (arith, four, le) in
      let fits : leb (next_power size') max_alloc ≡ true =
        ground (arith, next_power-le k size' low small, room) in
      (next_power size', next_power-pos size', rw fits)

  -- `n` steps of the rehash
  unfoldable pub run_steps : ℕ → RedisDict V → Option (RedisDict V)
  run_steps zero d = some d
  run_steps (suc n) d = rehash_step d >>= run_steps n

  -- A rehash of a valid dictionary ends after as many steps as the first table has buckets and one
  -- more, whatever the entries; the dictionary is valid again, with the same count and the same map.
  pub rehash_ends :
      (n : ℕ) (d : RedisDict V)
      → IsValid d
      → steps_left d ≤ n
      → (d' : RedisDict V) × (run_steps n d ≡ some d') × (is_rehashing d' ≡ false) × Keeps d d'
  unfolding run_steps
  rehash_ends zero d h le = (d, refl, stopped, Keeps-refl d h)
    where
      stopped : is_rehashing d ≡ false
      stopped = unfold is_rehashing steps_left in ground arith
  rehash_ends (suc n) d h le =
      let (p, step, s, closer) = rehash_step-Keeps d h in
      let (d', run, ended, t) = rehash_ends n p s.valid (omega (arith, closer)) in
      (d', rw step run, ended, Keeps-trans s t)
