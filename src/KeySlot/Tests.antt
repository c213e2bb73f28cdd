-- ===== src/KeySlot/Tests.antt =====
-- Runs of the hash slot, and its theorem at a concrete input.
use hayakv.Base.{◌<◌, ◌≡◌, refl, ◌++◌, [], ◌∷◌}
use hayakv.KeySlot.{crc16, key2slot}
use hayakv.KeySlot.Tags.{key2slot-hash_tag}

-- the standard check value, of the bytes of `123456789`
check_value : crc16 (49 ∷ 50 ∷ 51 ∷ 52 ∷ 53 ∷ 54 ∷ 55 ∷ 56 ∷ 57 ∷ []) ≡ 12739
unfolding crc16
check_value = refl

key2slot-hash_tag_example :
    (key2slot ((97 ∷ []) ++ (123 ∷ ((98 ∷ []) ++ (125 ∷ 99 ∷ [])))) ≡ key2slot (98 ∷ []))
    × (key2slot (98 ∷ []) < 16384)
key2slot-hash_tag_example = key2slot-hash_tag (97 ∷ []) [] (99 ∷ []) 98 refl refl refl
