-- ===== src/ConsistentHash.antt =====
-- internal/lib/consistenthash/consistenthash.go: the ring of node replicas. The hash function and
-- `strconv.Itoa` are parameters; `sort.Ints` is the sort of the keys. A Go map is a function.
pub mod Picks
pub mod Partitions
pub mod Tests
use hayakv.Base.{
  ℕ, zero, suc, ◌+◌, ◌-◌, Bool, true, false, ◌&&◌, ◌||◌, Option, none, some, List, [], ◌∷◌, ◌++◌,
  length, get_or, take, drop, leb, nat_eq, if◌then◌else◌,
}
use hayakv.Base.Classes.{Bytes, bytes_eq}
use hayakv.Base.Slices.{search_index}

pub record Map : Type 0 where
  pub hash_func : Bytes → ℕ
  pub replicas : ℕ
  pub keys : List ℕ
  pub hash_map : ℕ → Bytes

-- `New` with a hash function
unfoldable pub new : ℕ → (Bytes → ℕ) → Map
new replicas fn = record { hash_func = fn; replicas = replicas; keys = []; hash_map = λ _. [] }

unfoldable pub is_empty : Map → Bool
is_empty m = nat_eq (length m.keys) 0

abbrev pub insert_sorted : ℕ → List ℕ → List ℕ
insert_sorted k [] = k ∷ []
insert_sorted k (x ∷ xs) = if leb k x then k ∷ x ∷ xs else x ∷ insert_sorted k xs

-- `sort.Ints`
abbrev pub sort_ints : List ℕ → List ℕ
sort_ints [] = []
sort_ints (x ∷ xs) = insert_sorted x (sort_ints xs)

-- the loop over the replicas of one node, from replica `i` on
unfoldable pub add_replicas : (ℕ → Bytes) → Bytes → ℕ → ℕ → Map → Map
add_replicas itoa key i zero m = m
add_replicas itoa key i (suc n) m =
    let hash = m.hash_func (itoa i ++ key) in
    add_replicas itoa key (i + 1) n (record m {
      keys = m.keys ++ (hash ∷ []);
      hash_map = λ h. if nat_eq hash h then key else m.hash_map h;
    })

-- the loop over the nodes; the empty name is skipped
unfoldable pub add_keys : (ℕ → Bytes) → List Bytes → Map → Map
unfolding add_replicas
add_keys itoa [] m = m
add_keys itoa ([] ∷ keys) m = add_keys itoa keys m
add_keys itoa ((c ∷ cs) ∷ keys) m = add_keys itoa keys (add_replicas itoa (c ∷ cs) 0 m.replicas m)

unfoldable pub add_node : (ℕ → Bytes) → Map → List Bytes → Map
unfolding add_keys
add_node itoa m keys =
    let added = add_keys itoa keys m in record added { keys = sort_ints added.keys }

-- `strings.Index` of one byte
abbrev pub index_of : ℕ → Bytes → Option ℕ
index_of c [] = none
index_of c (b ∷ bs) =
    if nat_eq b c then some 0 else (elim (index_of c bs) [ none ↦ none | some i ↦ some (suc i) ])

-- The Go slice expression `s[low:high]`: it panics unless `low` is at most `high` and `high` at most the
-- length.
abbrev pub slice_of : Bytes → ℕ → ℕ → Option Bytes
slice_of s low high =
    if leb low high && leb high (length s) then some (take (high - low) (drop low s)) else none

unfoldable pub get_partition_key : Bytes → Option Bytes
get_partition_key key = elim (index_of 123 key) [
  | none ↦ some key
  | some beg ↦ elim (index_of 125 key) [
    | none ↦ some key
    | some end ↦ if nat_eq end (beg + 1) then some key else slice_of key (beg + 1) end
  ]
]

-- the search of `PickNode`, for the hash of a key
unfoldable pub pick_hash : Map → ℕ → Bytes
pick_hash m hash =
    let idx = search_index (length m.keys) (λ i. leb hash (get_or m.keys i 0)) in
    let idx' = if nat_eq idx (length m.keys) then 0 else idx in m.hash_map (get_or m.keys idx' 0)

unfoldable pub pick_node : Map → Bytes → Option Bytes
unfolding is_empty get_partition_key pick_hash
pick_node m key = if is_empty m then some [] else elim (get_partition_key key) [
  | none ↦ none
  | some partition ↦ some (pick_hash m (m.hash_func partition))
]
