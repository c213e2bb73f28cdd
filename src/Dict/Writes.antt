-- ===== src/Dict/Writes.antt =====
-- A write to the bucket of one key: what it does to the state and to the map.
use hayakv.Base.{
  ℕ, ◌+◌, ◌≤◌, ◌<◌, ◌≡◌, refl, ap, true, false, Option, none, some, [], ◌∷◌, arith, length,
  get_or-set, nat_eq, Bool-cases, inl, inr, if◌then◌else◌,
}
use hayakv.Base.Classes.{Bytes, bytes_eq, bytes_eq_iff}
use hayakv.Dict.{Chain, HashTable, slot, find_entry, assign, unlink}
use hayakv.Dict.Chains.{
  occurrences, occurrences-absent, find_entry-assign, occurrences-assign, find_entry-unlink,
  occurrences-unlink-le,
}
use hayakv.Dict.Tables.{
  chain_of, write, chain_of-write, write-IsTable, total-write, same_slot, same_chain, foreign,
  slot-lt,
}
use hayakv.Dict.State.{Split, both, ahead_first, behind_empty}

pub bytes_eq_refl : (k : Bytes) → bytes_eq k k ≡ true
bytes_eq_refl k = (bytes_eq_iff k k).1 refl

module _ {V : Type 0} where
  -- `c'` differs from `c` only at the key `k`, which it maps to `v`.
  pub record Change (k : Bytes) (c c' : Chain V) (v : Option V) : Type 0 where
    pub others_count : (q : Bytes) → bytes_eq k q ≡ false → occurrences q c' ≤ occurrences q c
    pub own_count : occurrences k c' ≤ 1
    pub others : (q : Bytes) → bytes_eq k q ≡ false → find_entry c' q ≡ find_entry c q
    pub own : find_entry c' k ≡ v

  pub insert-Change :
      (k : Bytes) (v : V) (c : Chain V) → find_entry c k ≡ none → Change k c ((k, v) ∷ c) (some v)
  unfolding occurrences find_entry
  insert-Change k v c h = record {
    others_count = λ q e. ground arith;
    own_count = ground (arith, occurrences-absent k c h, bytes_eq_refl k);
    others = λ q e. ground arith;
    own = ground (arith, bytes_eq_refl k);
  }

  pub assign-Change :
      (k : Bytes) (v old : V) (c : Chain V)
      → find_entry c k ≡ some old
      → occurrences k c ≤ 1
      → Change k c (assign c k v) (some v)
  assign-Change k v old c h once = record {
    others_count = λ q e. omega (arith, occurrences-assign k q v c);
    own_count = omega (arith, occurrences-assign k k v c);
    others = λ q e. rw (find_entry-assign k q v old c h, e);
    own = rw (find_entry-assign k k v old c h, bytes_eq_refl k);
  }

  pub unlink-Change :
      (k : Bytes) (c : Chain V) → ((q : Bytes) → occurrences q c ≤ 1) → Change k c (unlink c k) none
  unlink-Change k c once = record {
    others_count = λ q e. occurrences-unlink-le k q c;
    own_count = omega (arith, occurrences-unlink-le k k c, once k);
    others = λ q e. rw (find_entry-unlink k q c (once q), e);
    own = rw (find_entry-unlink k k c (once k), bytes_eq_refl k);
  }

  module _ {t0 t1 : HashTable V} {r n : ℕ} (h : Split t0 t1 r n) (k : Bytes) (c' : Chain V)
      (v : Option V) (u m : ℕ) where
    -- at or above the border
    module _ (at : r ≤ slot t0 k) (change : Change k (chain_of t0 k) c' v)
        (used : u + length (chain_of t0 k) ≡ t0.used + length c')
        (counted : m + length (chain_of t0 k) ≡ n + length c') where
      front_chain :
          (q : Bytes)
          → nat_eq (slot t0 k) (slot t0 q) ≡ true
          → occurrences q c' + occurrences q (chain_of t1 q) ≤ 1
      front_chain q e = elim (Bool-cases (bytes_eq k q)) [
        | inl p ↦
            let same = (bytes_eq_iff k q).0 p in
            rw (← same) (omega (arith, change.own_count, h.ahead k at))
        | inr p ↦
            omega
              (arith, change.others_count q p, h.once q, ap (occurrences q) (same_chain t0 k q e))
      ]

      pub front-Split : Split (write t0 (slot t0 k) c' u) t1 r m
      unfolding slot
      front-Split = record {
        front = write-IsTable t0 k c' u h.front (λ q e.
            ground (arith, same_slot t0 k q, change.others_count q, foreign t0 k q h.front e));
        back = h.back;
        emptied = λ i lt.
            ground (
              arith,
              get_or-set t0.buckets (slot t0 k) i c' [] (slot-lt t0 k h.front),
              h.emptied i,
            );
        ahead = h.ahead;
        once = λ q. ground (arith, chain_of-write t0 k q c' u h.front, front_chain q, h.once q);
        counted = omega (arith, h.counted, total-write t0 k c' h.front);
        used0 = omega (arith, h.used0, total-write t0 k c' h.front);
        used1 = h.used1;
      }

      pub front-both :
          (q : Bytes)
          → both (write t0 (slot t0 k) c' u) t1 q ≡ (if bytes_eq k q then v else both t0 t1 q)
      front-both q = elim (Bool-cases (bytes_eq k q)) [
        | inl p ↦
            let same = (bytes_eq_iff k q).0 p in
            rw (← same) (
              ground (
                arith,
                chain_of-write t0 k k c' u h.front,
                bytes_eq_refl k,
                change.own,
                ahead_first k h at,
              ))
        | inr p ↦
            ground (arith, chain_of-write t0 k q c' u h.front, change.others q p, same_chain t0 k q)
      ]

    -- below the border
    module _ (at : slot t0 k < r) (change : Change k (chain_of t1 k) c' v)
        (used : u + length (chain_of t1 k) ≡ t1.used + length c')
        (counted : m + length (chain_of t1 k) ≡ n + length c') where
      back_chain :
          (q : Bytes)
          → nat_eq (slot t1 k) (slot t1 q) ≡ true
          → occurrences q (chain_of t0 q) + occurrences q c' ≤ 1
      unfolding occurrences
      back_chain q e = elim (Bool-cases (bytes_eq k q)) [
        | inl p ↦
            let same = (bytes_eq_iff k q).0 p in
            rw (← same, behind_empty k h at) (omega (arith, change.own_count))
        | inr p ↦
            omega
              (arith, change.others_count q p, h.once q, ap (occurrences q) (same_chain t1 k q e))
      ]

      back_ahead :
          (q : Bytes) → r ≤ slot t0 q → nat_eq (slot t1 k) (slot t1 q) ≡ true → occurrences q c' ≡ 0
      back_ahead q le e = elim (Bool-cases (bytes_eq k q)) [
        | inl p ↦
            let same = (bytes_eq_iff k q).0 p in
            absurd (omega (arith, ap (λ (j : Bytes). slot t0 j) same))
        | inr p ↦
            omega (
              arith,
              change.others_count q p,
              h.ahead q le,
              ap (occurrences q) (same_chain t1 k q e),
            )
      ]

      pub back-Split : Split t0 (write t1 (slot t1 k) c' u) r m
      unfolding slot
      back-Split = record {
        front = h.front;
        back = write-IsTable t1 k c' u h.back (λ q e.
            ground (arith, same_slot t1 k q, change.others_count q, foreign t1 k q h.back e));
        emptied = h.emptied;
        ahead = λ q le.
            ground (arith, chain_of-write t1 k q c' u h.back, back_ahead q le, h.ahead q le);
        once = λ q. ground (arith, chain_of-write t1 k q c' u h.back, back_chain q, h.once q);
        counted = omega (arith, h.counted, total-write t1 k c' h.back);
        used0 = h.used0;
        used1 = omega (arith, h.used1, total-write t1 k c' h.back);
      }

      pub back-both :
          (q : Bytes)
          → both t0 (write t1 (slot t1 k) c' u) q ≡ (if bytes_eq k q then v else both t0 t1 q)
      unfolding find_entry
      back-both q = elim (Bool-cases (bytes_eq k q)) [
        | inl p ↦
            let same = (bytes_eq_iff k q).0 p in
            rw (← same, behind_empty k h at)
              (ground (arith, chain_of-write t1 k k c' u h.back, bytes_eq_refl k, change.own))
        | inr p ↦
            ground (arith, chain_of-write t1 k q c' u h.back, change.others q p, same_chain t1 k q)
      ]
