-- ===== src/Dict/Rehash.antt =====
-- A rehash step moves a bucket or ends the rehash, and the map stays what it was.
use hayakv.Base.{
  ℕ, suc, ◌+◌, ◌-◌, ◌≤◌, ◌<◌, ◌≡◌, refl, sym, ◌∙◌, true, false, none, some, List, [], ◌∷◌, arith,
  length, get_elem?, get_or, set, length-set, get_or-set, nat_eq, nat_eq_iff, ltb, Bool-cases, inl,
  inr, if◌then◌else◌,
}
use hayakv.Base.Classes.{Bytes}
use hayakv.Dict.{Chain, HashTable, RedisDict, slot, find_entry, skip_empty}
use hayakv.Dict.Chains.{occurrences, find_entry-absent}
use hayakv.Dict.Tables.{total, total-set, total_empty, chain_of, IsTable, make_table-IsTable, Takes}
use hayakv.Dict.State.{
  blank, chain_of-blank, Split, IsValid, both, meaning, skipped_empty, skip_empty-le,
  get_elem?-beyond, get_or-get_elem?, get_or-beyond,
}

module _ (V : Type 0) where
  pub blank-IsTable : IsTable {V = V} blank
  unfolding blank
  blank-IsTable = make_table-IsTable 1 (omega arith)

  pub total-blank : total (blank {V = V}).buckets ≡ 0
  unfolding blank
  total-blank = total_empty V 1

  pub used-blank : (blank {V = V}).used ≡ 0
  unfolding blank
  used-blank = refl

  pub occurrences-blank : (q : Bytes) → occurrences q (chain_of (blank {V = V}) q) ≡ 0
  unfolding occurrences
  occurrences-blank q = rw (chain_of-blank {V = V} q)

module _ {V : Type 0} where
  total_all_empty : (bs : List (Chain V)) → ((i : ℕ) → get_or bs i [] ≡ []) → total bs ≡ 0
  unfolding total
  total_all_empty [] h = refl
  total_all_empty (b ∷ bs) h = ground (arith, h 0, total_all_empty bs (λ i. h (suc i)))

  pub both-blank : (t : HashTable V) (q : Bytes) → both t blank q ≡ find_entry (chain_of t q) q
  unfolding find_entry
  both-blank t q = rw (chain_of-blank {V = V} q) (ground arith)

  -- an upper bound on the steps left
  unfoldable pub steps_left : RedisDict V → ℕ
  steps_left d = elim d.rehash_idx [ none ↦ 0 | some idx ↦ suc (length d.tables0.buckets - idx) ]

  -- What a step from `d` to `d'` keeps.
  pub record Keeps (d d' : RedisDict V) : Type 0 where
    pub valid : IsValid d'
    pub count : d'.count ≡ d.count
    pub meanings : (q : Bytes) → meaning d' q ≡ meaning d q

  module _ (t0 t1 : HashTable V) (r n : ℕ) (h : Split t0 t1 r n) where
    abbrev pub stop : ℕ
    stop = skip_empty (length t0.buckets) t0.buckets r

    passed : (i : ℕ) → i < stop → get_or t0.buckets i [] ≡ []
    passed i lt = elim (Bool-cases (ltb i r)) [
      | inl e ↦ h.emptied i (ground arith)
      | inr e ↦ skipped_empty (length t0.buckets) t0.buckets r i (ground arith) lt
    ]

    all_passed : length t0.buckets ≤ stop → (i : ℕ) → get_or t0.buckets i [] ≡ []
    all_passed le i = elim (Bool-cases (ltb i stop)) [
      | inl e ↦ passed i (ground arith)
      | inr e ↦ get_or-beyond t0.buckets i (ground arith)
    ]

    -- the end of the rehash: nothing is left in the first table
    pub finish : length t0.buckets ≤ stop → Split t1 blank 0 n
    finish le = record {
      front = h.back;
      back = blank-IsTable V;
      emptied = λ i lt. absurd (omega arith);
      ahead = λ q lt. occurrences-blank V q;
      once = λ q. omega (arith, h.once q, occurrences-blank V q);
      counted = omega (arith, h.counted, total-blank V, total_all_empty t0.buckets (all_passed le));
      used0 = omega (arith, h.used1);
      used1 = used-blank V ∙ sym (total-blank V);
    }

    pub finish-both : length t0.buckets ≤ stop → (q : Bytes) → both t1 blank q ≡ both t0 t1 q
    unfolding chain_of find_entry
    finish-both le q = both-blank t1 q ∙ rw (all_passed le (slot t0 q))

    module _ (c : Chain V) (e : get_elem? t0.buckets stop ≡ some c) where
      pub at_stop : get_or t0.buckets stop [] ≡ c
      at_stop = get_or-get_elem? t0.buckets stop c e

      pub inside : stop < length t0.buckets
      inside = elim (Bool-cases (ltb stop (length t0.buckets))) [
        | inl p ↦ ground arith
        | inr p ↦ cc (e, get_elem?-beyond t0.buckets stop (ground arith))
      ]

      abbrev pub cleared : HashTable V
      cleared = record t0 { buckets = set t0.buckets stop [] }

      chain_of-cleared :
          (q : Bytes) → chain_of cleared q ≡ (if nat_eq stop (slot t0 q) then [] else chain_of t0 q)
      unfolding chain_of slot
      chain_of-cleared q = get_or-set t0.buckets stop (slot t0 q) [] [] inside

      chain_of-stop : (q : Bytes) → nat_eq stop (slot t0 q) ≡ true → chain_of t0 q ≡ c
      unfolding chain_of
      chain_of-stop q p = let same = (nat_eq_iff _ _).0 p in rw (← same) at_stop

      foreign_stop : (q : Bytes) → nat_eq stop (slot t0 q) ≡ false → occurrences q c ≡ 0
      foreign_stop q p = rw at_stop at (h.front.placed q stop p)

      module _ (t1' : HashTable V) (s : Takes c t1 t1') where
        pub move : Split cleared t1' (stop + 1) n
        unfolding slot occurrences
        move = record {
          front = record {
            sized = length-set t0.buckets stop [] ∙ h.front.sized;
            placed = λ q i p.
                ground (arith, get_or-set t0.buckets stop i [] [] inside, h.front.placed q i p);
          };
          back = s.table;
          emptied = λ i lt. ground (arith, get_or-set t0.buckets stop i [] [] inside, passed i);
          ahead = λ q le. omega (
            arith,
            s.counts q,
            h.ahead q (omega (arith, skip_empty-le (length t0.buckets) t0.buckets r)),
            foreign_stop q (ground arith),
          );
          once = λ q.
              ground
                (arith, s.counts q, h.once q, chain_of-cleared q, chain_of-stop q, foreign_stop q);
          counted =
              ground (arith, h.counted, s.entries, at_stop, total-set t0.buckets stop [] inside);
          used0 = ground (arith, h.used0, total-set t0.buckets stop [] inside);
          used1 = ground (arith, h.used1, s.used, s.entries);
        }

        pub move-both : (q : Bytes) → both cleared t1' q ≡ both t0 t1 q
        unfolding find_entry occurrences
        move-both q = ground (
          arith,
          s.counts q,
          s.reads q,
          h.once q,
          chain_of-cleared q,
          chain_of-stop q,
          foreign_stop q,
          find_entry-absent q c,
        )
