-- ===== src/Rdb.antt =====
-- internal/persist/rdb/primitives.go: the lengths and strings of an RDB file. A writer is the bytes
-- that it writes; a reader is a function of the bytes that are left, and any error is `none`. The
-- running checksum and the errors of the underlying writer are left out. `strconv.ParseInt` and
-- `strconv.FormatInt` are parameters.
pub mod Lengths
pub mod Strings
pub mod Tests
use hayakv.Base.{
  ℕ, zero, suc, ◌+◌, ◌-◌, ◌*◌, ◌/◌, ◌%◌, ◌^◌, Bool, true, false, ◌&&◌, ◌||◌, not, Option, none,
  some, List, [], ◌∷◌, ◌++◌, length, take, drop, reverse, ltb, leb, nat_eq, if◌then◌else◌, ◌>>=◌,
}
use hayakv.Base.Int.{ℤ, pos, negsuc, leb_ℤ, ltb_ℤ}
use hayakv.Base.Classes.{Bytes, bytes_eq}

-- `binary.LittleEndian`, `k` bytes
unfoldable pub put_le : ℕ → ℕ → Bytes
put_le zero n = []
put_le (suc k) n = (n % 256) ∷ put_le k (n / 256)

unfoldable pub get_le : Bytes → ℕ
get_le [] = 0
get_le (b ∷ bs) = b + 256 * get_le bs

-- `binary.BigEndian`
unfoldable pub put_be : ℕ → ℕ → Bytes
unfolding put_le
put_be k n = reverse (put_le k n)

unfoldable pub get_be : Bytes → ℕ
unfolding get_le
get_be bs = get_le (reverse bs)

-- `writeLen`; the `|` of the two-byte form joins disjoint bits, so it is a sum
unfoldable pub write_len : ℕ → Bytes
unfolding put_be
write_len n =
    if ltb n 64
    then n ∷ []
    else if ltb n 16384
    then (64 + n / 256) ∷ (n % 256) ∷ []
    else if leb n 4294967295
    then 128 ∷ put_be 4 n
    else 129 ∷ put_be 8 n

-- the low bits of a signed number: the conversion to an unsigned type of `m` values
unfoldable pub to_unsigned : ℕ → ℤ → ℕ
to_unsigned m (pos n) = n % m
to_unsigned m (negsuc n) = m - 1 - n % m

-- the conversion from that type to the signed one of the same size
unfoldable pub to_signed : ℕ → ℕ → ℤ
to_signed m u = if ltb (2 * u) m then pos u else negsuc (m - 1 - u)

unfoldable pub write_int_string : ℤ → Bytes
unfolding to_unsigned put_le
write_int_string v =
    if leb_ℤ (negsuc 127) v && ltb_ℤ v (pos 128)
    then 192 ∷ to_unsigned 256 v ∷ []
    else if leb_ℤ (negsuc 32767) v && ltb_ℤ v (pos 32768)
    then 193 ∷ put_le 2 (to_unsigned 65536 v)
    else 194 ∷ put_le 4 (to_unsigned 4294967296 v)

unfoldable pub write_raw_string : Bytes → Bytes
unfolding write_len
write_raw_string s = write_len (length s) ++ s

-- `r.readByte()`
abbrev pub read_byte : Bytes → Option (ℕ × Bytes)
read_byte [] = none
read_byte (b ∷ bs) = some (b, bs)

-- `r.readFull(n)`
unfoldable pub read_full : ℕ → Bytes → Option (Bytes × Bytes)
read_full n bs = if leb n (length bs) then some (take n bs, drop n bs) else none

-- the branch of `readLen` for a first byte of the form 10xxxxxx
unfoldable pub read_wide : ℕ → Bytes → Option ((ℕ × Bool) × Bytes)
unfolding read_full get_be
read_wide first bs =
    if nat_eq first 128
    then (do r ← read_full 4 bs; some ((get_be r.0, false), r.1))
    else if nat_eq first 129
    then (do r ← read_full 8 bs; some ((get_be r.0, false), r.1))
    else none

-- the switch of `readLen` on the two high bits of the first byte
unfoldable pub read_tagged : ℕ → Bytes → Option ((ℕ × Bool) × Bytes)
unfolding read_wide
read_tagged first bs =
    if nat_eq (first / 64) 0
    then some ((first % 64, false), bs)
    else if nat_eq (first / 64) 1
    then (do second ← read_byte bs; some ((first % 64 * 256 + second.0, false), second.1))
    else if nat_eq (first / 64) 3
    then some ((first % 64, true), bs)
    else read_wide first bs

-- `readLen`: the number, and whether it is a special encoding
unfoldable pub read_len : Bytes → Option ((ℕ × Bool) × Bytes)
unfolding read_tagged
read_len bs = do r ← read_byte bs; read_tagged r.0 r.1

module _ (parse_int : Bytes → Option ℤ) (format_int : ℤ → Bytes) where
  -- the checks of `tryParseInt` on the parsed number
  unfoldable pub canonical : Bytes → ℤ → Bool
  canonical s v =
      not (ltb_ℤ v (negsuc 2147483647) || leb_ℤ (pos 2147483648) v) && bytes_eq (format_int v) s

  unfoldable pub try_parse_int : Bytes → Option ℤ
  unfolding canonical
  try_parse_int s =
      if nat_eq (length s) 0 || ltb 11 (length s)
      then none
      else (do v ← parse_int s; if canonical s v then some v else none)

  unfoldable pub write_string : Bytes → Bytes
  unfolding try_parse_int write_int_string write_raw_string
  write_string s = elim (try_parse_int s) [
    | some v ↦ write_int_string v
    | none ↦ write_raw_string s
  ]

  -- the special encodings of `readString`; a compressed string is an error
  unfoldable pub read_special : ℕ → Bytes → Option (Bytes × Bytes)
  unfolding read_full to_signed get_le
  read_special n bs =
      if nat_eq n 0
      then (do r ← read_full 1 bs; some (format_int (to_signed 256 (get_le r.0)), r.1))
      else if nat_eq n 1
      then (do r ← read_full 2 bs; some (format_int (to_signed 65536 (get_le r.0)), r.1))
      else if nat_eq n 2
      then (do r ← read_full 4 bs; some (format_int (to_signed 4294967296 (get_le r.0)), r.1))
      else none

  -- what `readString` does after the length; one that is negative as an `int` makes Go panic
  unfoldable pub read_body : ℕ → Bool → Bytes → Option (Bytes × Bytes)
  unfolding read_special read_full
  read_body n true bs = read_special n bs
  read_body n false bs = if leb 9223372036854775808 n then none else read_full n bs

  unfoldable pub read_string : Bytes → Option (Bytes × Bytes)
  unfolding read_len read_body
  read_string bs = do r ← read_len bs; read_body r.0.0 r.0.1 r.1
