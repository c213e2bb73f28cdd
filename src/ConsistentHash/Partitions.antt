-- ===== src/ConsistentHash/Partitions.antt =====
-- The part of a key that `getPartitionKey` takes, against a reading of the key from left to right.
use hayakv.Base.{
  ℕ, zero, suc, ◌+◌, ◌-◌, ◌<◌, ◌≡◌, refl, inl, inr, ◌⊎◌, Bool, true, false, ◌&&◌, ◌||◌, Option,
  none, some, [], ◌∷◌, arith, length, take, drop, leb, nat_eq, if◌then◌else◌, Bool-cases,
}
use hayakv.Base.Classes.{Bytes}
use hayakv.ConsistentHash.{
  Map, get_partition_key, index_of, slice_of, pick_hash, pick_node, is_empty,
}

unfoldable pub opens : Bytes → Bool
opens [] = false
opens (c ∷ cs) = nat_eq c 123 || opens cs

-- Does the key have a `{`, and a `}` before the first of them?
unfoldable pub closes_first : Bytes → Bool
unfolding opens
closes_first [] = false
closes_first (c ∷ cs) =
    if nat_eq c 123 then false else if nat_eq c 125 then opens cs else closes_first cs

-- what stands before the first `}`, if there is one
unfoldable pub until_close : Bytes → Option Bytes
until_close [] = none
until_close (c ∷ cs) =
    let rest = until_close cs in
    if nat_eq c 125 then some [] else (elim rest [ none ↦ none | some t ↦ some (c ∷ t) ])

abbrev pub tag_or : Bytes → Option Bytes → Bytes
tag_or whole none = whole
tag_or whole (some []) = whole
tag_or whole (some (c ∷ cs)) = c ∷ cs

-- What stands between the first `{` and the `}` after it, if it is not empty, else the whole.
unfoldable pub partition : Bytes → Bytes → Bytes
unfolding until_close
partition whole [] = whole
partition whole (c ∷ cs) =
    if nat_eq c 123 then tag_or whole (until_close cs) else partition whole cs

opens_lem :
    (cs : Bytes)
    → ((index_of 123 cs ≡ none) × (opens cs ≡ false))
      ⊎ ((i : ℕ) × (index_of 123 cs ≡ some i) × (opens cs ≡ true))
unfolding opens
opens_lem [] = inl (refl, refl)
opens_lem (c ∷ cs) = elim (Bool-cases (nat_eq c 123)) [
  | inl e ↦ inr (0, rw e, rw e)
  | inr e ↦ elim (opens_lem cs) [
    | inl (f, g) ↦ inl (rw (e, f), rw (e, g))
    | inr (i, f, g) ↦ inr (suc i, rw (e, f), rw (e, g))
  ]
]

until_close_lem :
    (cs : Bytes)
    → ((index_of 125 cs ≡ none) × (until_close cs ≡ none))
      ⊎ ((i : ℕ) × (index_of 125 cs ≡ some i)
          × (i < length cs)
          × (until_close cs ≡ some (take i cs)))
unfolding until_close
until_close_lem [] = inl (refl, refl)
until_close_lem (c ∷ cs) = elim (Bool-cases (nat_eq c 125)) [
  | inl e ↦ inr (0, rw e, omega arith, rw e)
  | inr e ↦ elim (until_close_lem cs) [
    | inl (f, g) ↦ inl (rw (e, f), rw (e, g))
    | inr (i, f, lt, g) ↦ inr (suc i, rw (e, f), omega (arith, lt), rw (e, g))
  ]
]

tag_or-take :
    (whole cs : Bytes) (i : ℕ)
    → i < length cs
    → tag_or whole (some (take i cs)) ≡ (if nat_eq i 0 then whole else take i cs)
tag_or-take whole cs zero lt = ground arith
tag_or-take whole [] (suc i) lt = absurd (omega arith)
tag_or-take whole (c ∷ cs) (suc i) lt = ground arith

-- no tag in the key
abbrev Plain : Bytes → Type 0
Plain key = (closes_first key ≡ false) × ((whole : Bytes) → partition whole key ≡ whole)

-- the first braces of the key: the opening one at `beg`, the closing one at `end`
abbrev Braces : Bytes → ℕ → ℕ → Type 0
Braces key beg end =
    ((end < beg + 1) × (closes_first key ≡ true))
    ⊎ ((n : ℕ) × (end ≡ beg + 1 + n)
        × (end < length key)
        × (closes_first key ≡ false)
        × ((whole : Bytes)
            → partition whole key ≡ (if nat_eq n 0 then whole else take n (drop (suc beg) key))))

abbrev Described : Bytes → Type 0
Described key =
    ((index_of 123 key ≡ none) × Plain key)
    ⊎ ((beg : ℕ) × (index_of 123 key ≡ some beg)
        × (((index_of 125 key ≡ none) × Plain key)
            ⊎ ((end : ℕ) × (index_of 125 key ≡ some end) × Braces key beg end)))

-- the key begins with its first `{`
open_front : (c : ℕ) (cs : Bytes) → nat_eq c 123 ≡ true → Described (c ∷ cs)
unfolding closes_first partition
open_front c cs e =
    let apart : nat_eq c 125 ≡ false = ground (arith, e) in
    elim (until_close_lem cs) [
      | inl (f, g) ↦ inr (0, rw e, inl (rw (apart, f), (rw e, λ whole. rw (e, g))))
      | inr (i, f, lt, g) ↦ inr (
        0,
        rw e,
        inr (
          suc i,
          rw (apart, f),
          inr (
            i,
            omega arith,
            omega (arith, lt),
            rw e,
            λ whole. rw (e, g) (tag_or-take whole cs i lt),
          ),
        ),
      )
    ]

-- the key begins with a `}`
close_front : (c : ℕ) (cs : Bytes) → nat_eq c 125 ≡ true → Described cs → Described (c ∷ cs)
unfolding closes_first partition
close_front c cs e h =
    let apart : nat_eq c 123 ≡ false = ground (arith, e) in
    elim (opens_lem cs) [
      | inl (f, g) ↦ elim h [
        | inl (_, (_, same)) ↦
            inl (rw (apart, f), (rw (apart, e, g), λ whole. rw apart (same whole)))
        | inr (i, there, _) ↦ cc (there, f)
      ]
      | inr (i, f, g) ↦
          inr (suc i, rw (apart, f), inr (0, rw e, inl (omega arith, rw (apart, e, g))))
    ]

any_front : (key : Bytes) → Described key
unfolding closes_first partition
any_front [] = inl (refl, (refl, λ whole. refl))
any_front (c ∷ cs) = elim (Bool-cases (nat_eq c 123)) [
  | inl e ↦ open_front c cs e
  | inr n ↦ elim (Bool-cases (nat_eq c 125)) [
    | inl e ↦ close_front c cs e (any_front cs)
    | inr m ↦ elim (any_front cs) [
      | inl (f, (g, same)) ↦ inl (rw (n, f), (rw (n, m, g), λ whole. rw n (same whole)))
      | inr (beg, f, inl (k, (g, same))) ↦
          inr (suc beg, rw (n, f), inl (rw (m, k), (rw (n, m, g), λ whole. rw n (same whole))))
      | inr (beg, f, inr (end, k, inl (lt, g))) ↦
          inr (suc beg, rw (n, f), inr (suc end, rw (m, k), inl (omega (arith, lt), rw (n, m, g))))
      | inr (beg, f, inr (end, k, inr (size, le, lt, g, same))) ↦ inr (
        suc beg,
        rw (n, f),
        inr (
          suc end,
          rw (m, k),
          inr (
            size,
            omega (arith, le),
            omega (arith, lt),
            rw (n, m, g),
            λ whole. rw n (same whole),
          ),
        ),
      )
    ]
  ]
]

slice_of-in :
    (key : Bytes) (beg end n : ℕ)
    → end ≡ beg + 1 + n
    → end < length key
    → slice_of key (beg + 1) end ≡ some (take n (drop (suc beg) key))
slice_of-in key beg end n e lt =
    let size : end - (beg + 1) ≡ n = omega (arith, e) in
    let start : beg + 1 ≡ suc beg = omega arith in
    let inside : (leb (beg + 1) end && leb end (length key)) ≡ true = ground (arith, e, lt) in
    rw (inside, size, start)

slice_of-out : (key : Bytes) (low high : ℕ) → high < low → slice_of key low high ≡ none
slice_of-out key low high lt = ground (arith, lt)

get_partition_key_lem :
    (key : Bytes)
    → get_partition_key key ≡ (if closes_first key then none else some (partition key key))
unfolding get_partition_key
get_partition_key_lem key = elim (any_front key) [
  | inl (f, (g, same)) ↦ rw (get_partition_key, f, g, same key)
  | inr (beg, f, inl (k, (g, same))) ↦ rw (get_partition_key, f, k, g, same key)
  | inr (beg, f, inr (end, k, inl (lt, g))) ↦
      let apart : nat_eq end (beg + 1) ≡ false = ground (arith, lt) in
      rw (get_partition_key, f, k, apart, slice_of-out key (beg + 1) end lt, g)
  | inr (beg, f, inr (end, k, inr (size, le, lt, g, same))) ↦
      let apart : nat_eq end (beg + 1) ≡ nat_eq size 0 = ground (arith, le) in
      elim (Bool-cases (nat_eq size 0)) [
        | inl e ↦ rw (get_partition_key, f, k, apart, g, same key, e)
        | inr e ↦
            rw (get_partition_key, f, k, apart, g, same key, e, slice_of-in key beg end size le lt)
      ]
]

-- `PickNode` on a ring with keys panics exactly for the keys in which a `}` stands before the first `{`;
-- for any other it picks by the hash of what stands between the first `{` and the `}` after it, and of
-- the whole key if there is no such text or it is empty.
pub pick_node_lem :
    (m : Map) (key : Bytes)
    → is_empty m ≡ false
    → pick_node m key
      ≡ (if closes_first key then none else some (pick_hash m (m.hash_func (partition key key))))
unfolding pick_node
pick_node_lem m key full = elim (Bool-cases (closes_first key)) [
  | inl e ↦ rw (full, get_partition_key_lem key, e)
  | inr e ↦ rw (full, get_partition_key_lem key, e)
]
