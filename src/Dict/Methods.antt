-- ===== src/Dict/Methods.antt =====
-- The public methods against the finite map that the dictionary stands for.
use hayakv.Base.{
  ℕ, ◌+◌, ◌-◌, ◌≤◌, ◌≡◌, refl, sym, ◌∙◌, true, false, Option, none, some, or_else, ◌∷◌, arith,
  length, set, leb, Bool-cases, Option-cases, inl, inr, if◌then◌else◌, ◌>>=◌,
}
use hayakv.Base.Classes.{Bytes, bytes_eq, bytes_eq_iff}
use hayakv.Dict.{
  Chain, HashTable, RedisDict, Which, ht0, ht1, with_table, slot, find_entry, assign, bucket_index,
  locate, get, put, put_if_absent, put_if_exists, insert_head, overwrite,
}
use hayakv.Dict.Chains.{occurrences, length-assign}
use hayakv.Dict.Tables.{chain_of, read_slot}
use hayakv.Dict.State.{blank, Split, IsState, IsValid, meaning, ahead_first, behind_empty}
use hayakv.Dict.Rehash.{Keeps, both-blank}
use hayakv.Dict.Steps.{prepare-Keeps}
use hayakv.Dict.Writes.{
  Change, insert-Change, assign-Change, front-Split, front-both, back-Split, back-both,
}

module _ {V : Type 0} where
  -- how many entries a binding is
  abbrev pub present : Option V → ℕ
  present none = 0
  present (some _) = 1

  -- The key now has the binding `v`, and every other key the binding that it had.
  pub record Writes (d : RedisDict V) (k : Bytes) (v : Option V) (d' : RedisDict V) : Type 0 where
    pub valid : IsValid d'
    pub meanings : (q : Bytes) → meaning d' q ≡ (if bytes_eq k q then v else meaning d q)
    pub count : d'.count + present (meaning d k) ≡ d.count + present v

  -- The bucket of a key, and what a change of its chain does.
  record Located (d : RedisDict V) (k : Bytes) (w : Which) (t : HashTable V) (i : ℕ) (c : Chain V)
      : Type 0 where
    run : locate d k ≡ some (w, t, i, c)
    here : find_entry c k ≡ meaning d k
    once : occurrences k c ≤ 1
    changes :
        (c' : Chain V) (v : Option V) (u m : ℕ)
        → Change k c c' v
        → u + length c ≡ t.used + length c'
        → m + length c ≡ d.count + length c'
        → let d' : RedisDict V =
            record (with_table d w (record t { buckets = set t.buckets i c'; used = u })) {
              count = m;
            } in
          IsValid d' × ((q : Bytes) → meaning d' q ≡ (if bytes_eq k q then v else meaning d q))

  Found : RedisDict V → Bytes → Type 0
  Found d k = (w : Which) × (t : HashTable V) × (i : ℕ) × (c : Chain V) × Located d k w t i c

  locate_idle :
      (t0 : HashTable V) (n : ℕ) (k : Bytes)
      → Split t0 blank 0 n
      → Found (record { tables0 = t0; tables1 = none; rehash_idx = none; count = n }) k
  unfolding Found locate meaning
  locate_idle t0 n k h = (
    ht0,
    t0,
    slot t0 k,
    chain_of t0 k,
    record {
      run = rw (read_slot t0 k h.front);
      here = sym (both-blank t0 k);
      once = omega (arith, h.once k);
      changes = λ c' v u m ch us co. (
        front-Split h k c' v u m (omega arith) ch us co,
        front-both h k c' v u m (omega arith) ch us co,
      );
    },
  )

  locate_front :
      (t0 t1 : HashTable V) (r n : ℕ) (k : Bytes)
      → Split t0 t1 r n
      → leb r (slot t0 k) ≡ true
      → Found (record { tables0 = t0; tables1 = some t1; rehash_idx = some r; count = n }) k
  unfolding Found locate bucket_index meaning
  locate_front t0 t1 r n k h e = (
    ht0,
    t0,
    slot t0 k,
    chain_of t0 k,
    record {
      run = rw (e, ◌>>=◌, read_slot t0 k h.front);
      here = rw (ahead_first k h (ground arith)) (ground arith);
      once = omega (arith, h.once k);
      changes = λ c' v u m ch us co. (
        front-Split h k c' v u m (ground arith) ch us co,
        front-both h k c' v u m (ground arith) ch us co,
      );
    },
  )

  locate_back :
      (t0 t1 : HashTable V) (r n : ℕ) (k : Bytes)
      → Split t0 t1 r n
      → leb r (slot t0 k) ≡ false
      → Found (record { tables0 = t0; tables1 = some t1; rehash_idx = some r; count = n }) k
  unfolding Found locate bucket_index meaning find_entry
  locate_back t0 t1 r n k h e = (
    ht1,
    t1,
    slot t1 k,
    chain_of t1 k,
    record {
      run = rw (e, ◌>>=◌, read_slot t1 k h.back);
      here = rw (behind_empty k h (ground arith));
      once = omega (arith, h.once k);
      changes = λ c' v u m ch us co. (
        back-Split h k c' v u m (ground arith) ch us co,
        back-both h k c' v u m (ground arith) ch us co,
      );
    },
  )

  find_bucket : (d : RedisDict V) (k : Bytes) → IsValid d → Found d k
  find_bucket d k h = go d.tables0 d.tables1 d.rehash_idx d.count h
    where
      go :
          (t0 : HashTable V) (o : Option (HashTable V)) (i : Option ℕ) (n : ℕ)
          → IsState t0 o i n
          → Found (record { tables0 = t0; tables1 = o; rehash_idx = i; count = n }) k
      go t0 none (some r) n s = elim s [ ]
      go t0 (some t1) none n s = elim s [ ]
      go t0 none none n s = locate_idle t0 n k s
      go t0 (some t1) (some r) n s = elim (Bool-cases (leb r (slot t0 k))) [
        | inl e ↦ locate_front t0 t1 r n k s e
        | inr e ↦ locate_back t0 t1 r n k s e
      ]

  -- `Get` never panics on a valid dictionary, and returns the binding of the key in the map.
  pub get-eq-meaning : (d : RedisDict V) (k : Bytes) → IsValid d → get d k ≡ some (meaning d k)
  unfolding get Found
  get-eq-meaning d k h = let (w, t, i, c, l) = find_bucket d k h in rw (l.run, ◌>>=◌, l.here)

  with_table-count :
      (d : RedisDict V) (w : Which) (t : HashTable V)
      → with_table d w t ≡ record (with_table d w t) { count = d.count }
  with_table-count d ht0 t = refl
  with_table-count d ht1 t = refl

  -- the two writes at a located bucket
  insert_head-Writes :
      (d : RedisDict V) (k : Bytes) (v : V) (w : Which) (t : HashTable V) (i : ℕ) (c : Chain V)
      → Located d k w t i c
      → find_entry c k ≡ none
      → Writes d k (some v) (insert_head d w t i c k v)
  insert_head-Writes d k v w t i c l e =
      let (valid, reads) =
        l.changes ((k, v) ∷ c) (some v) (t.used + 1) (d.count + 1) (insert-Change k v c e)
          (omega arith) (omega arith) in
      record { valid = valid; meanings = reads; count = rw (← l.here, e) (omega arith) }

  overwrite-Writes :
      (d : RedisDict V) (k : Bytes) (v old : V) (w : Which) (t : HashTable V) (i : ℕ) (c : Chain V)
      → Located d k w t i c
      → find_entry c k ≡ some old
      → Writes d k (some v) (overwrite d w t i c k v)
  overwrite-Writes d k v old w t i c l e =
      let (valid, reads) =
        l.changes (assign c k v) (some v) t.used d.count (assign-Change k v old c e l.once)
          (omega (arith, length-assign k v c)) (omega (arith, length-assign k v c)) in
      rw (with_table-count d w _)
        (record { valid = valid; meanings = reads; count = rw (← l.here, e) })

  -- a write after the steps of a rehash
  pub Keeps-Writes :
      {d d' e : RedisDict V} (k : Bytes) (v : Option V)
      → Keeps d d'
      → Writes d' k v e
      → Writes d k v e
  Keeps-Writes {d} {d'} {e} k v s w = record {
    valid = w.valid;
    meanings = λ q. rw (w.meanings q, s.meanings q);
    count = ground (arith, w.count, s.count, s.meanings k);
  }

  -- no write at all
  pub Keeps-unchanged : {d d' : RedisDict V} (k : Bytes) → Keeps d d' → Writes d k (meaning d k) d'
  Keeps-unchanged {d} {d'} k s = record {
    valid = s.valid;
    meanings = λ q. s.meanings q ∙ same q;
    count = ground (arith, s.count);
  }
    where
      same : (q : Bytes) → meaning d q ≡ (if bytes_eq k q then meaning d k else meaning d q)
      same q = ground (arith, bytes_eq_iff k q)

  -- `Put` on a valid dictionary never panics: it answers 1 if the key was absent and 0 if not, and the
  -- result is valid, counts a new key, and binds the key to the value and nothing else differently.
  pub put-Writes :
      (d : RedisDict V) (k : Bytes) (v : V)
      → IsValid d
      → (d' : RedisDict V) × (put d k v ≡ some (d', 1 - present (meaning d k)))
        × Writes d k (some v) d'
  unfolding put Found
  put-Writes d k v h =
      let (p, run, s) = prepare-Keeps d h in
      let (w, t, i, c, l) = find_bucket p k s.valid in
      elim (Option-cases (find_entry c k)) [
        | inl e ↦ (
          insert_head p w t i c k v,
          rw (run, ◌>>=◌, l.run, e, ← s.meanings k, ← l.here, e),
          Keeps-Writes k (some v) s (insert_head-Writes p k v w t i c l e),
        )
        | inr (old, e) ↦ (
          overwrite p w t i c k v,
          rw (run, ◌>>=◌, l.run, e, ← s.meanings k, ← l.here, e),
          Keeps-Writes k (some v) s (overwrite-Writes p k v old w t i c l e),
        )
      ]

  -- `PutIfAbsent` on a valid dictionary never panics: an existing binding stays and the answer is 0; an
  -- absent key gets the value and the answer is 1.
  pub put_if_absent-Writes :
      (d : RedisDict V) (k : Bytes) (v : V)
      → IsValid d
      → (d' : RedisDict V) × (put_if_absent d k v ≡ some (d', 1 - present (meaning d k)))
        × Writes d k (or_else (meaning d k) (some v)) d'
  unfolding put_if_absent Found
  put_if_absent-Writes d k v h =
      let (p, run, s) = prepare-Keeps d h in
      let (w, t, i, c, l) = find_bucket p k s.valid in
      elim (Option-cases (find_entry c k)) [
        | inl e ↦ (
          insert_head p w t i c k v,
          rw (run, ◌>>=◌, l.run, e, ← s.meanings k, ← l.here, e),
          rw (← s.meanings k, ← l.here, e)
              (Keeps-Writes k (some v) s (insert_head-Writes p k v w t i c l e)),
        )
        | inr (old, e) ↦ (
          p,
          rw (run, ◌>>=◌, l.run, e, ← s.meanings k, ← l.here, e),
          let known : meaning d k ≡ some old = sym (s.meanings k) ∙ (sym l.here ∙ e) in
              let same : or_else (meaning d k) (some v) ≡ meaning d k = rw known in
              rw same (Keeps-unchanged k s),
        )
      ]

  -- the binding after a write that only replaces
  abbrev pub replaced : Option V → V → Option V
  replaced none v = none
  replaced (some _) v = some v

  -- `PutIfExists` on a valid dictionary never panics: an existing key gets the value and the answer is
  -- 1; an absent key stays absent and the answer is 0.
  pub put_if_exists-Writes :
      (d : RedisDict V) (k : Bytes) (v : V)
      → IsValid d
      → (d' : RedisDict V) × (put_if_exists d k v ≡ some (d', present (meaning d k)))
        × Writes d k (replaced (meaning d k) v) d'
  unfolding put_if_exists Found
  put_if_exists-Writes d k v h =
      let (p, run, s) = prepare-Keeps d h in
      let (w, t, i, c, l) = find_bucket p k s.valid in
      elim (Option-cases (find_entry c k)) [
        | inl e ↦ (
          p,
          rw (run, ◌>>=◌, l.run, e, ← s.meanings k, ← l.here, e),
          let known : meaning d k ≡ none = sym (s.meanings k) ∙ (sym l.here ∙ e) in
              let same : replaced (meaning d k) v ≡ meaning d k = rw known in
              rw same (Keeps-unchanged k s),
        )
        | inr (old, e) ↦ (
          overwrite p w t i c k v,
          rw (run, ◌>>=◌, l.run, e, ← s.meanings k, ← l.here, e),
          let known : meaning d k ≡ some old = sym (s.meanings k) ∙ (sym l.here ∙ e) in
              let same : replaced (meaning d k) v ≡ some v = rw known in
              rw same (Keeps-Writes k (some v) s (overwrite-Writes p k v old w t i c l e)),
        )
      ]
