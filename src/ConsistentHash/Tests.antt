-- ===== src/ConsistentHash/Tests.antt =====
-- Runs of the ring, and its theorems at concrete inputs.
use hayakv.Base.{ℕ, ◌+◌, ◌≡◌, refl, true, none, some, [], ◌∷◌, get_or, if◌then◌else◌}
use hayakv.Base.Classes.{Bytes}
use hayakv.Base.Slices.{search_index}
use hayakv.ConsistentHash.{Map, new, add_node, pick_hash, pick_node, is_empty}
use hayakv.ConsistentHash.Picks.{IsSorted, successor, pick_hash-successor}
use hayakv.ConsistentHash.Partitions.{closes_first, partition, pick_node_lem}

-- the sum of the bytes
abbrev sum : Bytes → ℕ
sum [] = 0
sum (b ∷ bs) = b + sum bs

abbrev itoa : ℕ → Bytes
itoa n = n ∷ []

abbrev ring : Map
unfolding new add_node
ring = add_node itoa (new 2 sum) ((9 ∷ []) ∷ (5 ∷ []) ∷ [])

wraps : pick_node ring (99 ∷ []) ≡ some (5 ∷ [])
unfolding ring add_node pick_node search_index new
wraps = refl

pick_hash-successor_example :
    let ring' = add_node itoa (new 2 sum) ((9 ∷ []) ∷ (5 ∷ []) ∷ []) in
    pick_hash ring' 7 ≡ ring'.hash_map (successor (get_or ring'.keys 0 0) 7 ring'.keys)
    × IsSorted ring'.keys
pick_hash-successor_example = pick_hash-successor itoa (new 2 sum) ((9 ∷ []) ∷ (5 ∷ []) ∷ []) 7

abbrev one_node : Map
one_node = record { hash_func = sum; replicas = 1; keys = 5 ∷ []; hash_map = λ _. 5 ∷ [] }

pick_node_lem_example : pick_node one_node (125 ∷ 123 ∷ []) ≡ (
    if closes_first (125 ∷ 123 ∷ [])
    then none
    else some (pick_hash one_node (sum (partition (125 ∷ 123 ∷ []) (125 ∷ 123 ∷ [])))))
unfolding is_empty
pick_node_lem_example = pick_node_lem one_node (125 ∷ 123 ∷ []) refl

-- braces in the wrong order panic; in the right one the text between them is what is hashed
wrong_order : closes_first (125 ∷ 123 ∷ []) ≡ true
unfolding closes_first
wrong_order = refl

right_order : partition (7 ∷ []) (9 ∷ 123 ∷ 8 ∷ 125 ∷ 125 ∷ []) ≡ 8 ∷ []
unfolding partition
right_order = refl
