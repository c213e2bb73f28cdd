-- ===== src/KeySlot.antt =====
-- internal/rediscluster/crc16.go: the hash slot of a key. A uint16 is a number below 2^16; a shift to
-- the left keeps the low sixteen bits.
pub mod Tags
pub mod Tests
use Prim.Native.Nat.{bit_xor}
use hayakv.Base.{
  ℕ, zero, suc, ◌+◌, ◌*◌, ◌/◌, ◌%◌, Bool, Option, none, some, List, [], ◌∷◌, leb, nat_eq,
  if◌then◌else◌,
}
use hayakv.Base.Classes.{Bytes}

-- one of the eight rounds for a table entry
unfoldable pub crc_round : ℕ → ℕ → ℕ
crc_round zero crc = crc
crc_round (suc n) crc =
    crc_round n (if leb 32768 crc then bit_xor (crc * 2 % 65536) 4129 else crc * 2 % 65536)

-- `crc16tab[i]`
unfoldable pub crc16tab : ℕ → ℕ
unfolding crc_round
crc16tab i = crc_round 8 (i * 256 % 65536)

-- the loop of `crc16` from a value on
unfoldable pub crc16_from : ℕ → Bytes → ℕ
unfolding crc16tab
crc16_from crc [] = crc
crc16_from crc (b ∷ bs) =
    crc16_from (bit_xor (crc * 256 % 65536) (crc16tab (bit_xor (crc / 256 % 256) b))) bs

unfoldable pub crc16 : Bytes → ℕ
unfolding crc16_from
crc16 buf = crc16_from 0 buf

-- what follows the first `{`
unfoldable pub after_open : Bytes → Option Bytes
after_open [] = none
after_open (c ∷ cs) = if nat_eq c 123 then some cs else after_open cs

-- what stands before the first `}`
unfoldable pub before_close : Bytes → Option Bytes
before_close [] = none
before_close (c ∷ cs) =
    if nat_eq c 125
    then some []
    else (elim (before_close cs) [ none ↦ none | some tag ↦ some (c ∷ tag) ])

-- `hashTag`: the part between the first `{` and the next `}`, if it is not empty
unfoldable pub hash_tag : Bytes → Bytes
unfolding after_open before_close
hash_tag key = elim (after_open key) [
  | none ↦ key
  | some rest ↦ elim (before_close rest) [ none ↦ key | some [] ↦ key | some (c ∷ cs) ↦ c ∷ cs ]
]

unfoldable pub key2slot : Bytes → ℕ
unfolding crc16 hash_tag
key2slot key = crc16 (hash_tag key) % 16384
