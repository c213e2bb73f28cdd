-- ===== src/Dict/Steps.antt =====
-- The steps of a rehash as calls on the dictionary: `rehashStep`, `startRehashIfNeeded` and the pair
-- of them that writes begin with.
use hayakv.Base.{
  ℕ, zero, suc, ◌+◌, ◌-◌, ◌*◌, ◌/◌, ◌^◌, ◌≤◌, ◌<◌, ◌≡◌, refl, ap, sym, ◌∙◌, Bool, true, false,
  Option, none, some, [], arith, length, get_elem?, length-set, get_or-replicate, nat_eq, leb, ltb,
  Bool-cases, Option-cases, ◌⊎◌, inl, inr, if◌then◌else◌, ◌>>=◌,
}
use hayakv.Base.Bits.{bit_or-lt}
use hayakv.Base.Classes.{Bytes}
use hayakv.Dict.{
  HashTable, RedisDict, make_table, migrate, rehash_step, next_power, start_rehash_if_needed,
  is_rehashing, prepare, smear,
}
use hayakv.Dict.Chains.{occurrences}
use hayakv.Dict.Tables.{
  total, total-set, total_empty, chain_of, make_table-IsTable, move_chain-Takes,
}
use hayakv.Dict.State.{
  blank, chain_of-blank, Split, IsState, IsValid, both, meaning, skip_empty-le, skip_empty-stops,
  get_elem?-none,
}
use hayakv.Dict.Rehash.{
  steps_left, Keeps, stop, finish, finish-both, at_stop, inside, cleared, move, move-both,
  total-blank,
}

pub next_power-pos : (n : ℕ) → 0 < next_power n
unfolding next_power
next_power-pos n = ground arith

pub power-least : (k : ℕ) → 2 ≤ k → 4 ≤ 2 ^ k
power-least zero h = absurd (omega arith)
power-least (suc zero) h = absurd (omega arith)
power-least (suc (suc zero)) h = omega arith
power-least (suc (suc (suc k))) h = omega (arith, power-least (suc (suc k)) (omega arith))

smear-lt : (k j n : ℕ) → n < 2 ^ k → smear j n < 2 ^ k
smear-lt k j n h = bit_or-lt k n (n / 2 ^ j) h (grind arith)

pub next_power-le : (k n : ℕ) → 2 ≤ k → n ≤ 2 ^ k → next_power n ≤ 2 ^ k
unfolding next_power
next_power-le k n low h = elim (Bool-cases (leb n 4)) [
  | inl e ↦ rw e (power-least k low)
  | inr e ↦
      let start : n - 1 < 2 ^ k = omega (arith, h, power-least k low) in
      let all = smear-lt k 32 _ (
        smear-lt k 16 _
          (smear-lt k 8 _ (smear-lt k 4 _ (smear-lt k 2 _ (smear-lt k 1 (n - 1) start))))) in
      rw e (omega (arith, all))
]

module _ {V : Type 0} where
  -- A step during a rehash does not panic, keeps the map, and either ends the rehash or leaves fewer
  -- steps and fewer entries in the first table.
  pub record Steps (d d' : RedisDict V) : Type 0 where
    pub keeps : Keeps d d'
    pub closer : steps_left d' < steps_left d
    pub moved : (is_rehashing d' ≡ false) ⊎ (total d'.tables0.buckets < total d.tables0.buckets)

  migrate-Steps :
      (t0 t1 : HashTable V) (r n : ℕ)
      → Split t0 t1 r n
      → let d : RedisDict V = record {
        tables0 = t0;
        tables1 = some t1;
        rehash_idx = some r;
        count = n;
      } in
        (d' : RedisDict V) × (migrate d t1 r ≡ some d') × Steps d d'
  unfolding migrate steps_left is_rehashing meaning
  migrate-Steps t0 t1 r n h = elim (Option-cases (get_elem? t0.buckets (stop t0 t1 r n h))) [
    | inl e ↦
        let le = get_elem?-none t0.buckets (stop t0 t1 r n h) e in
        (
          record { tables0 = t1; tables1 = none; rehash_idx = none; count = n },
          rw (e, migrate),
          record {
            keeps = record {
              valid = finish t0 t1 r n h le;
              count = refl;
              meanings = finish-both t0 t1 r n h le;
            };
            closer = omega arith;
            moved = inl refl;
          },
        )
    | inr (c, e) ↦
        let (t1', run, s) = move_chain-Takes c t1 h.back in
        (
          record {
            tables0 = cleared t0 t1 r n h c e;
            tables1 = some t1';
            rehash_idx = some (stop t0 t1 r n h + 1);
            count = n;
          },
          rw (e, migrate, ◌>>=◌, run),
          record {
            keeps = record {
              valid = move t0 t1 r n h c e t1' s;
              count = refl;
              meanings = move-both t0 t1 r n h c e t1' s;
            };
            closer = omega (
              arith,
              length-set t0.buckets (stop t0 t1 r n h) [],
              skip_empty-le (length t0.buckets) t0.buckets r,
              inside t0 t1 r n h c e,
            );
            moved = inr (
                omega (
                  arith,
                  ap length (at_stop t0 t1 r n h c e),
                  total-set t0.buckets (stop t0 t1 r n h) [] (inside t0 t1 r n h c e),
                  skip_empty-stops (length t0.buckets) t0.buckets r c (omega arith) e,
                ));
          },
        )
  ]

  -- A rehash step on a valid dictionary does not panic; it keeps the map and the count, and fewer
  -- steps are left unless none was.
  pub rehash_step-Keeps :
      (d : RedisDict V)
      → IsValid d
      → (d' : RedisDict V) × (rehash_step d ≡ some d')
        × Keeps d d'
        × (steps_left d' ≤ steps_left d - 1)
  unfolding rehash_step is_rehashing
  rehash_step-Keeps d h = go d.tables0 d.tables1 d.rehash_idx d.count h
    where
      go :
          (t0 : HashTable V) (o : Option (HashTable V)) (i : Option ℕ) (n : ℕ)
          → IsState t0 o i n
          → let e : RedisDict V = record { tables0 = t0; tables1 = o; rehash_idx = i; count = n } in
            (d' : RedisDict V) × (rehash_step e ≡ some d')
            × Keeps e d'
            × (steps_left d' ≤ steps_left e - 1)
      go t0 none none n s = (
        record { tables0 = t0; tables1 = none; rehash_idx = none; count = n },
        refl,
        record { valid = s; count = refl; meanings = λ q. refl },
        unfold steps_left in omega arith,
      )
      go t0 (some t1) (some r) n s =
          let (d', run, step) = migrate-Steps t0 t1 r n s in
          (d', run, step.keeps, omega (arith, step.closer))
      go t0 none (some r) n s = elim s [ ]
      go t0 (some t1) none n s = elim s [ ]

  pub chain_of-make_table : (m : ℕ) (q : Bytes) → chain_of {V = V} (make_table m) q ≡ []
  unfolding chain_of make_table
  chain_of-make_table m q = get_or-replicate m _ []

  fresh_second :
      (t0 : HashTable V) (m n : ℕ) → 0 < m → Split t0 blank 0 n → Split t0 (make_table m) 0 n
  unfolding make_table occurrences
  fresh_second t0 m n p h = record {
    front = h.front;
    back = make_table-IsTable m p;
    emptied = h.emptied;
    ahead = λ q le. rw (chain_of-make_table m q);
    once = λ q. rw (chain_of-make_table m q) (omega (arith, h.once q));
    counted = omega (arith, h.counted, total-blank V, total_empty V m);
    used0 = h.used0;
    used1 = sym (total_empty V m);
  }

  pub Keeps-refl : (d : RedisDict V) → IsValid d → Keeps d d
  Keeps-refl d h = record { valid = h; count = refl; meanings = λ q. refl }

  Keeps-if : (b : Bool) (d x y : RedisDict V) → Keeps d x → Keeps d y → Keeps d (if b then x else y)
  Keeps-if true d x y p q = p
  Keeps-if false d x y p q = q

  both-make_table : (t : HashTable V) (m : ℕ) (q : Bytes) → both t (make_table m) q ≡ both t blank q
  both-make_table t m q = rw (chain_of-make_table m q, chain_of-blank {V = V} q)

  pub start_rehash_if_needed-Keeps :
      (d : RedisDict V) → IsValid d → Keeps d (start_rehash_if_needed d)
  unfolding start_rehash_if_needed meaning
  start_rehash_if_needed-Keeps d h = go d.tables0 d.tables1 d.rehash_idx d.count h
    where
      go :
          (t0 : HashTable V) (o : Option (HashTable V)) (i : Option ℕ) (n : ℕ)
          → IsState t0 o i n
          → let e : RedisDict V = record { tables0 = t0; tables1 = o; rehash_idx = i; count = n } in
            Keeps e (start_rehash_if_needed e)
      go t0 none (some r) n s = elim s [ ]
      go t0 (some t1) none n s = elim s [ ]
      go t0 (some t1) (some r) n s = Keeps-refl _ s
      go t0 none none n s =
          let e : RedisDict V = record {
            tables0 = t0;
            tables1 = none;
            rehash_idx = none;
            count = n;
          } in
          let wanted : ℕ = length t0.buckets * 2 in
          let m : ℕ = if ltb wanted t0.used then t0.used else wanted in
          let started : RedisDict V = record e {
            tables1 = some (make_table (next_power m));
            rehash_idx = some 0;
          } in
          Keeps-if (nat_eq t0.used 0) e e _ (Keeps-refl e s) (
            Keeps-if (leb (length t0.buckets) t0.used) e started e
              (record {
                valid = fresh_second t0 (next_power m) n (next_power-pos m) s;
                count = refl;
                meanings = λ q. both-make_table t0 (next_power m) q;
              })
              (Keeps-refl e s))

  pub Keeps-trans : {a b c : RedisDict V} → Keeps a b → Keeps b c → Keeps a c
  Keeps-trans p q = record {
    valid = q.valid;
    count = q.count ∙ p.count;
    meanings = λ k. q.meanings k ∙ p.meanings k;
  }

  -- What writes begin with never panics on a valid dictionary, and keeps the map and the count.
  pub prepare-Keeps :
      (d : RedisDict V) → IsValid d → (d' : RedisDict V) × (prepare d ≡ some d') × Keeps d d'
  unfolding prepare
  prepare-Keeps d h =
      let k = start_rehash_if_needed-Keeps d h in
      let (d', run, s, _) = rehash_step-Keeps (start_rehash_if_needed d) k.valid in
      (d', run, Keeps-trans k s)
