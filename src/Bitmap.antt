-- ===== src/Bitmap.antt =====
-- internal/datastruct/bitmap/bitmap.go: a bitmap as a byte slice, the first bit the high bit of the
-- first byte. `|= mask` and `&^= mask` with one bit add or take away the power of two where it is
-- missing or there. Offsets are not negative.
pub mod Laws
pub mod Tests
use hayakv.Base.{
  ℕ, zero, suc, ◌+◌, ◌-◌, ◌*◌, ◌/◌, ◌%◌, ◌^◌, Bool, true, false, ◌&&◌, ◌||◌, Option, none, some,
  List, [], ◌∷◌, ◌++◌, length, get_or, set, take, drop, replicate, leb, ltb, nat_eq, if◌then◌else◌,
}
use hayakv.Base.Classes.{Bytes}

unfoldable pub to_byte_size : ℕ → ℕ
to_byte_size bit_size = if nat_eq (bit_size % 8) 0 then bit_size / 8 else bit_size / 8 + 1

-- `grow`: it appends zero bytes up to the size
unfoldable pub grow : Bytes → ℕ → Bytes
unfolding to_byte_size
grow b bit_size = b ++ replicate (to_byte_size bit_size - length b) 0

unfoldable pub bit_size : Bytes → ℕ
bit_size b = length b * 8

-- `byte(1 << (7 - offset % 8))`, the mask of a bit
abbrev pub mask_of : ℕ → ℕ
mask_of zero = 128
mask_of (suc zero) = 64
mask_of (suc (suc zero)) = 32
mask_of (suc (suc (suc zero))) = 16
mask_of (suc (suc (suc (suc zero)))) = 8
mask_of (suc (suc (suc (suc (suc zero))))) = 4
mask_of (suc (suc (suc (suc (suc (suc zero)))))) = 2
mask_of (suc (suc (suc (suc (suc (suc (suc n))))))) = 1

-- `b >> (7 - offset % 8) & 1`
unfoldable pub bit_at : ℕ → ℕ → ℕ
bit_at byte bit = byte / mask_of bit % 2

-- the bit of a byte, set or cleared
unfoldable pub write_bit : ℕ → ℕ → Bool → ℕ
unfolding bit_at
write_bit byte bit true = if nat_eq (bit_at byte bit) 1 then byte else byte + mask_of bit
write_bit byte bit false = if nat_eq (bit_at byte bit) 1 then byte - mask_of bit else byte

unfoldable pub set_bit : Bytes → ℕ → ℕ → Bytes
unfolding grow write_bit
set_bit b offset val =
    let b' = grow b (offset + 1) in
    let index = offset / 8 in set b' index (write_bit (get_or b' index 0) (offset % 8) (ltb 0 val))

unfoldable pub get_bit : Bytes → ℕ → ℕ
unfolding bit_at
get_bit b offset =
    if leb (length b) (offset / 8) then 0 else bit_at (get_or b (offset / 8) 0) (offset % 8)

unfoldable pub new : Bytes
new = []

-- `ForEachByte`: the indices from `i` on, of `n` bytes; the callback works on a state `S` and answers
-- whether to go on
unfoldable pub byte_loop {ℓ} : {S : Type ℓ} → (ℕ → ℕ → S → S × Bool) → Bytes → ℕ → ℕ → S → S
byte_loop cb b i zero s = s
byte_loop cb b i (suc n) s = elim ((cb i (get_or b i 0) s).1) [
  | true ↦ byte_loop cb b (i + 1) n (cb i (get_or b i 0) s).0
  | false ↦ (cb i (get_or b i 0) s).0
]

unfoldable pub for_each_byte {ℓ} : {S : Type ℓ} → (ℕ → ℕ → S → S × Bool) → Bytes → ℕ → ℕ → S → S
unfolding byte_loop
for_each_byte cb b begin end s =
    let stop = if nat_eq end 0 || ltb (length b) end then length b else end in
    byte_loop cb b begin (stop - begin) s

-- the pointer conversions `FromBytes` and `ToBytes`
unfoldable pub from_bytes : Bytes → Bytes
from_bytes bytes = bytes

unfoldable pub to_bytes : Bytes → Bytes
to_bytes b = b
