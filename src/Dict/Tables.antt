-- ===== src/Dict/Tables.antt =====
-- One hash table: where its entries stand, and what a write to one bucket changes.
use hayakv.Base.{
  ℕ, zero, suc, ◌+◌, ◌≤◌, ◌<◌, ◌≡◌, refl, ap, ◌∙◌, true, false, some, or_else, List, [], ◌∷◌, arith,
  length, get_elem?, get_or, set, replicate, length-set, get_or-set, length-replicate,
  get_or-replicate, nat_eq, nat_eq_iff, if◌then◌else◌,
}
use hayakv.Base.Classes.{Bytes, bytes_eq, bytes_eq_iff}
use hayakv.Base.Bits.{bit_and-le}
use hayakv.Dict.{Chain, HashTable, make_table, fnv1a, slot, push, move_chain, find_entry}
use hayakv.Dict.Chains.{occurrences, find_entry-absent}

module _ {ℓ} {A : Type ℓ} where
  pub get_elem?-get_or :
      (xs : List A) (i : ℕ) (d : A) → i < length xs → get_elem? xs i ≡ some (get_or xs i d)
  get_elem?-get_or [] i d h = absurd (omega arith)
  get_elem?-get_or (x ∷ xs) zero d h = refl
  get_elem?-get_or (x ∷ xs) (suc i) d h = get_elem?-get_or xs i d (omega arith)

module _ {ℓ} {V : Type ℓ} where
  -- the number of entries
  unfoldable pub total : List (Chain V) → ℕ
  total [] = 0
  total (c ∷ cs) = length c + total cs

  pub total-set :
      (bs : List (Chain V)) (i : ℕ) (c : Chain V)
      → i < length bs
      → total (set bs i c) + length (get_or bs i []) ≡ total bs + length c
  unfolding total
  total-set [] i c h = absurd (omega arith)
  total-set (b ∷ bs) zero c h = omega arith
  total-set (b ∷ bs) (suc i) c h = omega (arith, total-set bs i c (omega arith))

pub total_empty {ℓ} : (V : Type ℓ) (n : ℕ) → total (replicate {A = Chain V} n []) ≡ 0
unfolding total
total_empty V zero = refl
total_empty V (suc n) = omega (arith, total_empty V n)

module _ {ℓ} {V : Type ℓ} where
  -- the bucket that a key belongs to
  unfoldable pub chain_of : HashTable V → Bytes → Chain V
  chain_of t q = get_or t.buckets (slot t q) []

  -- the buckets fit the mask, and an entry stands in the bucket of its key
  pub record IsTable (t : HashTable V) : Type ℓ where
    pub sized : length t.buckets ≡ t.mask + 1
    pub placed :
        (q : Bytes) (i : ℕ)
        → nat_eq i (slot t q) ≡ false
        → occurrences q (get_or t.buckets i []) ≡ 0

  pub slot-lt : (t : HashTable V) (q : Bytes) → IsTable t → slot t q < length t.buckets
  unfolding slot
  slot-lt t q h = omega (arith, h.sized, bit_and-le (fnv1a q) t.mask)

  pub read_slot :
      (t : HashTable V) (q : Bytes)
      → IsTable t
      → get_elem? t.buckets (slot t q) ≡ some (chain_of t q)
  unfolding chain_of
  read_slot t q h = get_elem?-get_or t.buckets (slot t q) [] (slot-lt t q h)

  pub make_table-IsTable : (n : ℕ) → 0 < n → IsTable (make_table n)
  unfolding make_table occurrences
  make_table-IsTable n h = record {
    sized = length-replicate n [] ∙ omega arith;
    placed = λ q i e. rw get_or-replicate;
  }

  -- a bucket is overwritten
  abbrev pub write : HashTable V → ℕ → Chain V → ℕ → HashTable V
  write t i c used = record t { buckets = set t.buckets i c; used = used }

  slot-write :
      (t : HashTable V) (i : ℕ) (c : Chain V) (u : ℕ) (q : Bytes)
      → slot (write t i c u) q ≡ slot t q
  unfolding slot
  slot-write t i c u q = refl

  pub chain_of-write :
      (t : HashTable V) (k q : Bytes) (c : Chain V) (u : ℕ)
      → IsTable t
      → chain_of (write t (slot t k) c u) q
        ≡ (if nat_eq (slot t k) (slot t q) then c else chain_of t q)
  unfolding chain_of slot
  chain_of-write t k q c u h = get_or-set t.buckets (slot t k) (slot t q) c [] (slot-lt t k h)

  -- a write keeps the table well formed if the new chain holds only keys of its bucket
  pub write-IsTable :
      (t : HashTable V) (k : Bytes) (c : Chain V) (u : ℕ)
      → IsTable t
      → ((q : Bytes) → nat_eq (slot t k) (slot t q) ≡ false → occurrences q c ≡ 0)
      → IsTable (write t (slot t k) c u)
  unfolding slot
  write-IsTable t k c u h own = record {
    sized = length-set t.buckets (slot t k) c ∙ h.sized;
    placed = λ q i e.
        ground (arith, get_or-set t.buckets (slot t k) i c [] (slot-lt t k h), own q, h.placed q i);
  }

  pub total-write :
      (t : HashTable V) (k : Bytes) (c : Chain V)
      → IsTable t
      → total (set t.buckets (slot t k) c) + length (chain_of t k) ≡ total t.buckets + length c
  unfolding chain_of
  total-write t k c h = total-set t.buckets (slot t k) c (slot-lt t k h)

  pub same_slot :
      (t : HashTable V) (k q : Bytes) → bytes_eq k q ≡ true → nat_eq (slot t k) (slot t q) ≡ true
  same_slot t k q h = let e = (bytes_eq_iff k q).0 h in rw e (ground arith)

  pub foreign :
      (t : HashTable V) (k q : Bytes)
      → IsTable t
      → nat_eq (slot t k) (slot t q) ≡ false
      → occurrences q (chain_of t k) ≡ 0
  unfolding chain_of
  foreign t k q h e = h.placed q (slot t k) e

  pub same_chain :
      (t : HashTable V) (k q : Bytes)
      → nat_eq (slot t k) (slot t q) ≡ true
      → chain_of t k ≡ chain_of t q
  unfolding chain_of
  same_chain t k q e = ap (λ i. get_or t.buckets i []) ((nat_eq_iff _ _).0 e)

  -- What a table is after a chain has been moved in.
  pub record Takes (es : Chain V) (t t' : HashTable V) : Type ℓ where
    pub table : IsTable t'
    pub mask : t'.mask ≡ t.mask
    pub used : t'.used ≡ t.used + length es
    pub entries : total t'.buckets ≡ total t.buckets + length es
    pub counts :
        (q : Bytes)
        → occurrences q (chain_of t' q) ≡ occurrences q es + occurrences q (chain_of t q)
    pub reads :
        (q : Bytes)
        → occurrences q es + occurrences q (chain_of t q) ≤ 1
        → find_entry (chain_of t' q) q ≡ or_else (find_entry es q) (find_entry (chain_of t q) q)

  -- `push` does not panic on a well-formed table
  push-Takes :
      (k : Bytes) (v : V) (t : HashTable V)
      → IsTable t
      → (t' : HashTable V) × (push k v t ≡ some t') × Takes ((k, v) ∷ []) t t'
  unfolding push occurrences find_entry
  push-Takes k v t h =
      let c = chain_of t k in
      (
        write t (slot t k) ((k, v) ∷ c) (t.used + 1),
        rw (read_slot t k h),
        record {
          table =
              write-IsTable t k ((k, v) ∷ c) (t.used + 1) h
                (λ q e. ground (arith, foreign t k q h e, same_slot t k q));
          mask = refl;
          used = refl;
          entries = omega (arith, total-write t k ((k, v) ∷ c) h);
          counts = λ q.
              rw (chain_of-write t k q ((k, v) ∷ c) (t.used + 1) h)
                (ground (arith, same_chain t k q, same_slot t k q));
          reads = λ q once.
              rw (chain_of-write t k q ((k, v) ∷ c) (t.used + 1) h)
                (ground (arith, same_chain t k q, same_slot t k q));
        },
      )

  pub move_chain-Takes :
      (es : Chain V) (t : HashTable V)
      → IsTable t
      → (t' : HashTable V) × (move_chain es t ≡ some t') × Takes es t t'
  unfolding move_chain occurrences find_entry
  move_chain-Takes [] t h = (
    t,
    refl,
    record {
      table = h;
      mask = refl;
      used = omega arith;
      entries = omega arith;
      counts = λ q. omega arith;
      reads = λ q once. refl;
    },
  )
  move_chain-Takes ((k, v) ∷ es) t h =
      let (t1, run1, s1) = push-Takes k v t h in
      let (t2, run2, s2) = move_chain-Takes es t1 s1.table in
      (
        t2,
        rw run1 run2,
        record {
          table = s2.table;
          mask = s2.mask ∙ s1.mask;
          used = omega (arith, s1.used, s2.used);
          entries = omega (arith, s1.entries, s2.entries);
          counts = λ q. omega (arith, s1.counts q, s2.counts q);
          reads =
              λ q once. ground (arith, s1.counts q, s1.reads q, s2.reads q, find_entry-absent q es);
        },
      )
