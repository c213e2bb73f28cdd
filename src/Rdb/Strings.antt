-- ===== src/Rdb/Strings.antt =====
-- Strings: what the reader makes of what the writer wrote.
use hayakv.Base.{
  ℕ, ◌-◌, ◌%◌, ◌<◌, ◌≡◌, refl, ◌∙◌, inl, inr, Bool, true, false, ◌&&◌, ◌||◌, Option, some, [], ◌∷◌,
  ◌++◌, arith, length, ltb, leb, nat_eq, Bool-cases, Option-cases, ◌>>=◌,
}
use mathlib.Core.List.{append_assoc}
use hayakv.Base.Int.{ℤ, pos, negsuc, leb_ℤ, ltb_ℤ}
use hayakv.Base.Classes.{Bytes, bytes_eq_iff}
use hayakv.Rdb.{
  put_le, get_le, write_len, to_unsigned, to_signed, write_int_string, write_raw_string,
  read_tagged, read_len, canonical, try_parse_int, write_string, read_special, read_body,
  read_string,
}
use hayakv.Rdb.Lengths.{length-put_le, get_le-put_le, read_full-append, read_len-write_len}

-- the range that `writeIntString` tests for a size
abbrev within : ℕ → ℤ → Bool
within half v = leb_ℤ (negsuc (half - 1)) v && ltb_ℤ v (pos half)

-- The low byte of a number that an int8 holds gives it back; so for two bytes and for four.
signed_8 : (v : ℤ) → within 128 v ≡ true → to_signed 256 (to_unsigned 256 v) ≡ v
unfolding to_signed to_unsigned
signed_8 (pos n) h = let e : n % 256 ≡ n = ground (arith, h) in rw e (ground (arith, h))
signed_8 (negsuc n) h =
    let e : n % 256 ≡ n = ground (arith, h) in
    let back : 255 - (255 - n) ≡ n = ground (arith, h) in rw e (ground (arith, h, back))

signed_16 : (v : ℤ) → within 32768 v ≡ true → to_signed 65536 (to_unsigned 65536 v) ≡ v
unfolding to_signed to_unsigned
signed_16 (pos n) h = let e : n % 65536 ≡ n = ground (arith, h) in rw e (ground (arith, h))
signed_16 (negsuc n) h =
    let e : n % 65536 ≡ n = ground (arith, h) in
    let back : 65535 - (65535 - n) ≡ n = ground (arith, h) in rw e (ground (arith, h, back))

signed_32 :
    (v : ℤ) → within 2147483648 v ≡ true → to_signed 4294967296 (to_unsigned 4294967296 v) ≡ v
unfolding to_signed to_unsigned
signed_32 (pos n) h = let e : n % 4294967296 ≡ n = ground (arith, h) in rw e (ground (arith, h))
signed_32 (negsuc n) h =
    let e : n % 4294967296 ≡ n = ground (arith, h) in
    let back : 4294967295 - (4294967295 - n) ≡ n = ground (arith, h) in
    rw e (ground (arith, h, back))

unsigned-lt :
    (v : ℤ)
    → (to_unsigned 256 v < 256)
      × (to_unsigned 65536 v < 65536)
      × (to_unsigned 4294967296 v < 4294967296)
unfolding to_unsigned
unsigned-lt (pos n) = (omega arith, omega arith, omega arith)
unsigned-lt (negsuc n) = (omega arith, omega arith, omega arith)

-- `readString` on a plain length and as many bytes
pub read_raw_string :
    (parse_int : Bytes → Option ℤ) (format_int : ℤ → Bytes) (s rest : Bytes)
    → length s < 9223372036854775808
    → read_string parse_int format_int (write_raw_string s ++ rest) ≡ some (s, rest)
unfolding write_raw_string read_string read_body
read_raw_string parse_int format_int s rest h =
    let small : leb 9223372036854775808 (length s) ≡ false = ground (arith, h) in
    rw
      (
        append_assoc (write_len (length s)) s rest,
        read_len-write_len (length s) (s ++ rest) (omega (arith, h)),
        ◌>>=◌,
        small,
      )
      (read_full-append (length s) s rest refl)

one_byte : (b : ℕ) → get_le (b ∷ []) ≡ b
unfolding get_le
one_byte b = omega arith

canonical_lem :
    (parse_int : Bytes → Option ℤ) (format_int : ℤ → Bytes) (s : Bytes) (v : ℤ)
    → canonical parse_int format_int s v ≡ true
    → (within 2147483648 v ≡ true) × (format_int v ≡ s)
unfolding canonical
canonical_lem parse_int format_int s v h =
    (ground (arith, h), (bytes_eq_iff (format_int v) s).0 (ground (arith, h)))

-- an accepted literal passed the checks
try_parse_int-canonical :
    (parse_int : Bytes → Option ℤ) (format_int : ℤ → Bytes) (s : Bytes) (v : ℤ)
    → try_parse_int parse_int format_int s ≡ some v
    → canonical parse_int format_int s v ≡ true
unfolding try_parse_int
try_parse_int-canonical parse_int format_int s v e =
    elim (Bool-cases (nat_eq (length s) 0 || ltb 11 (length s))) [
      | inl long ↦ absurd (ground (arith, (rw long at e)))
      | inr short ↦ elim (Option-cases (parse_int s)) [
        | inl none_parsed ↦ absurd (ground (arith, (rw (short, none_parsed, ◌>>=◌) at e)))
        | inr (w, w_parsed) ↦ elim (Bool-cases (canonical parse_int format_int s w)) [
          | inr bad ↦ absurd (ground (arith, (rw (short, w_parsed, ◌>>=◌, bad) at e)))
          | inl good ↦
              let same : some w ≡ some v = rw (short, w_parsed, ◌>>=◌, good) at e in
              ground (arith, same, good)
        ]
      ]
    ]

-- `readString` on the compact form of an int32
pub read_int_string :
    (parse_int : Bytes → Option ℤ) (format_int : ℤ → Bytes) (v : ℤ) (rest : Bytes)
    → within 2147483648 v ≡ true
    → read_string parse_int format_int (write_int_string v ++ rest) ≡ some (format_int v, rest)
unfolding write_int_string read_string read_len read_tagged read_body read_special
read_int_string parse_int format_int v rest h =
    let u = to_unsigned in
    elim (Bool-cases (within 128 v)) [
      | inl e ↦
          let one : get_le (u 256 v ∷ []) ≡ u 256 v = one_byte (u 256 v) in
          rw (e, ◌>>=◌, read_full-append 1 (u 256 v ∷ []) rest refl, one, signed_8 v e)
      | inr e ↦ elim (Bool-cases (within 32768 v)) [
        | inl k ↦ rw (
          e,
          k,
          ◌>>=◌,
          read_full-append 2 (put_le 2 (u 65536 v)) rest (length-put_le 2 (u 65536 v)),
          get_le-put_le 2 (u 65536 v) (unsigned-lt v).1,
          signed_16 v k,
        )
        | inr k ↦ rw (
          e,
          k,
          ◌>>=◌,
          read_full-append 4 (put_le 4 (u 4294967296 v)) rest (length-put_le 4 (u 4294967296 v)),
          get_le-put_le 4 (u 4294967296 v) (unsigned-lt v).2,
          signed_32 v h,
        )
      ]
    ]

-- Reading after `writeString` gives back every string, in the compact form or not, whatever the
-- library's integer parser and printer are, and leaves what follows.
pub read_string-write_string :
    (parse_int : Bytes → Option ℤ) (format_int : ℤ → Bytes) (s rest : Bytes)
    → length s < 9223372036854775808
    → read_string parse_int format_int (write_string parse_int format_int s ++ rest)
      ≡ some (s, rest)
unfolding write_string
read_string-write_string parse_int format_int s rest h =
    elim (Option-cases (try_parse_int parse_int format_int s)) [
      | inl e ↦ rw (e, write_string) (read_raw_string parse_int format_int s rest h)
      | inr (v, e) ↦
          let (fits, same) =
            canonical_lem parse_int format_int s v
              (try_parse_int-canonical parse_int format_int s v e) in
          rw (e, write_string) (read_int_string parse_int format_int v rest fits ∙ rw same)
    ]
