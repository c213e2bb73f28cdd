-- ===== src/Dict/Session.antt =====
-- Any sequence of calls on the dictionary against the same calls on a finite map with a size.
use hayakv.Base.{
  ℕ, ◌+◌, ◌-◌, ◌^◌, ◌≤◌, ◌≡◌, refl, Option, none, some, or_else, List, [], ◌∷◌, arith,
  if◌then◌else◌, ◌>>=◌,
}
use hayakv.Base.Classes.{Bytes, bytes_eq}
use hayakv.Base.Int.{ℤ, pos_part}
use hayakv.Dict.{
  RedisDict, one_table, make_redis, get, len, put, put_if_absent, put_if_exists, remove, clear,
}
use hayakv.Dict.State.{IsValid, meaning}
use hayakv.Dict.Methods.{
  present, replaced, Writes, get-eq-meaning, put-Writes, put_if_absent-Writes, put_if_exists-Writes,
}
use hayakv.Dict.Removal.{remove-Writes, one_table_lem, make_redis_lem}

-- The methods that read or write one key, `Len` and `Clear`; the traversals are those of Walks.
pub data Call (V : Type 0) : Type 0 where
  get_call : Bytes → Call V
  len_call : Call V
  put_call : Bytes → V → Call V
  put_if_absent_call : Bytes → V → Call V
  put_if_exists_call : Bytes → V → Call V
  remove_call : Bytes → Call V
  clear_call : Call V

pub data Answer (V : Type 0) : Type 0 where
  value : Option V → Answer V
  number : ℕ → Answer V
  removed : Option V → ℕ → Answer V
  nothing : Answer V

-- The specification: a map from keys, and how many keys it binds.
pub record FiniteMap (V : Type 0) : Type 0 where
  pub at : Bytes → Option V
  pub size : ℕ

module _ {V : Type 0} where
  unfoldable pub call : Call V → RedisDict V → Option (RedisDict V × Answer V)
  call (get_call k) d = get d k >>= λ v. some (d, value v)
  call len_call d = some (d, number (len d))
  call (put_call k v) d = put d k v >>= λ r. some (r.0, number r.1)
  call (put_if_absent_call k v) d = put_if_absent d k v >>= λ r. some (r.0, number r.1)
  call (put_if_exists_call k v) d = put_if_exists d k v >>= λ r. some (r.0, number r.1)
  call (remove_call k) d = remove d k >>= λ r. some (r.0, removed r.1 r.2)
  call clear_call d = some (clear d, nothing)

  unfoldable pub session : List (Call V) → RedisDict V → Option (RedisDict V × List (Answer V))
  unfolding call
  session [] d = some (d, [])
  session (c ∷ cs) d = do (d', a) ← call c d; (e, as') ← session cs d'; some (e, a ∷ as')

  abbrev pub bind : FiniteMap V → Bytes → Option V → FiniteMap V
  bind m k v = record {
    at = λ q. if bytes_eq k q then v else m.at q;
    size = m.size + present v - present (m.at k);
  }

  unfoldable pub call_map : Call V → FiniteMap V → FiniteMap V × Answer V
  call_map (get_call k) m = (m, value (m.at k))
  call_map len_call m = (m, number m.size)
  call_map (put_call k v) m = (bind m k (some v), number (1 - present (m.at k)))
  call_map (put_if_absent_call k v) m =
      (bind m k (or_else (m.at k) (some v)), number (1 - present (m.at k)))
  call_map (put_if_exists_call k v) m = (bind m k (replaced (m.at k) v), number (present (m.at k)))
  call_map (remove_call k) m = (bind m k none, removed (m.at k) (present (m.at k)))
  call_map clear_call m = (record { at = λ q. none; size = 0 }, nothing)

  unfoldable pub session_map : List (Call V) → FiniteMap V → FiniteMap V × List (Answer V)
  unfolding call_map
  session_map [] m = (m, [])
  session_map (c ∷ cs) m =
      let (m', a) = call_map c m in let (e, as') = session_map cs m' in (e, a ∷ as')

  -- A valid dictionary that stands for a map.
  pub record Models (d : RedisDict V) (m : FiniteMap V) : Type 0 where
    pub valid : IsValid d
    pub maps : (q : Bytes) → meaning d q ≡ m.at q
    pub sizes : len d ≡ m.size

  write-Models :
      (d d' : RedisDict V) (m : FiniteMap V) (k : Bytes) (v : Option V)
      → Models d m
      → Writes d k v d'
      → Models d' (bind m k v)
  unfolding len
  write-Models d d' m k v h w = record {
    valid = w.valid;
    maps = λ q. rw (w.meanings q, h.maps q);
    sizes = ground (arith, w.count, h.sizes, h.maps k);
  }

  abbrev Matches : Option (RedisDict V × Answer V) → FiniteMap V × Answer V → Type 0
  Matches r s = (d' : RedisDict V) × (r ≡ some (d', s.1)) × Models d' s.0

  call-Models :
      (c : Call V) (d : RedisDict V) (m : FiniteMap V)
      → Models d m
      → Matches (call c d) (call_map c m)
  unfolding call call_map clear
  call-Models (get_call k) d m h = (d, rw (get-eq-meaning d k h.valid, h.maps k), h)
  call-Models len_call d m h = (d, rw h.sizes, h)
  call-Models clear_call d m h =
      let (valid, size, maps) = one_table_lem 4 (omega arith) in
      (clear d, refl, record { valid = valid; maps = maps; sizes = size })
  call-Models (put_call k v) d m h =
      let (d', run, w) = put-Writes d k v h.valid in
      (d', rw (run, h.maps k), write-Models d d' m k (some v) h w)
  call-Models (put_if_absent_call k v) d m h =
      let (d', run, w) = put_if_absent-Writes d k v h.valid in
      (
        d',
        rw (run, h.maps k),
        write-Models d d' m k (or_else (m.at k) (some v)) h (rw (h.maps k) at w),
      )
  call-Models (put_if_exists_call k v) d m h =
      let (d', run, w) = put_if_exists-Writes d k v h.valid in
      (d', rw (run, h.maps k), write-Models d d' m k (replaced (m.at k) v) h (rw (h.maps k) at w))
  call-Models (remove_call k) d m h =
      let (d', run, w) = remove-Writes d k h.valid in
      (d', rw (run, h.maps k), write-Models d d' m k none h w)

  pub session-Models :
      (cs : List (Call V)) (d : RedisDict V) (m : FiniteMap V)
      → Models d m
      → (d' : RedisDict V) × (session cs d ≡ some (d', (session_map cs m).1))
        × Models d' (session_map cs m).0
  unfolding session session_map
  session-Models [] d m h = (d, refl, h)
  session-Models (c ∷ cs) d m h =
      let (d', run, h') = call-Models c d m h in
      let (e, rest, h'') = session-Models cs d' (call_map c m).0 h' in
      (e, rw (run, ◌>>=◌, rest), h'')

  -- `MakeRedis`, with a hint that is at most a power of two of four or more that can be allocated, or
  -- negative, returns a dictionary. Any calls of `Get`, `Len`, `Put`, `PutIfAbsent`, `PutIfExists`,
  -- `Remove` and `Clear` on it run without a panic and answer what they would on an empty finite map,
  -- and the dictionary then stands for the map that they would leave.
  pub session_refines :
      (k max_alloc : ℕ) (size : ℤ) (cs : List (Call V))
      → 2 ≤ k
      → 2 ^ k ≤ max_alloc
      → pos_part size ≤ 2 ^ k
      → let empty : FiniteMap V = record { at = λ q. none; size = 0 } in
        (start d : RedisDict V) × (make_redis max_alloc size ≡ some start)
        × (session cs start ≡ some (d, (session_map cs empty).1))
        × Models d (session_map cs empty).0
  session_refines k max_alloc size cs low room le =
      let (sz, full, made) = make_redis_lem {V = V} k max_alloc size low room le in
      let (valid, n, maps) = one_table_lem {V = V} sz full in
      let (d, run, models) =
        session-Models cs (one_table sz) _ (record { valid = valid; maps = maps; sizes = n }) in
      (one_table sz, d, made, run, models)
