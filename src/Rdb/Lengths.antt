-- ===== src/Rdb/Lengths.antt =====
-- Byte orders and the length prefix: what the reader makes of what the writer wrote.
use hayakv.Base.{
  ℕ, zero, suc, ◌+◌, ◌*◌, ◌/◌, ◌%◌, ◌<◌, ◌≡◌, refl, ap, ◌∙◌, inl, inr, true, false, some, [], ◌∷◌,
  ◌++◌, arith, length, length-reverse, reverse-reverse, take-append_exact, drop-append_exact, ltb,
  leb, nat_eq, Bool-cases, ◌>>=◌,
}
use hayakv.Base.Classes.{Bytes}
use hayakv.Rdb.{
  put_le, get_le, put_be, get_be, write_len, read_full, read_wide, read_tagged, read_len,
}

pub length-put_le : (k n : ℕ) → length (put_le k n) ≡ k
unfolding put_le
length-put_le zero n = refl
length-put_le (suc k) n = ap suc (length-put_le k (n / 256))

-- the values of `k` bytes
abbrev pub values : ℕ → ℕ
values zero = 1
values (suc k) = 256 * values k

pub get_le-put_le : (k n : ℕ) → n < values k → get_le (put_le k n) ≡ n
unfolding put_le get_le
get_le-put_le zero n h = omega arith
get_le-put_le (suc k) n h =
    let rest = get_le-put_le k (n / 256) (omega (arith, h)) in omega (arith, rest)

pub get_be-put_be : (k n : ℕ) → n < values k → get_be (put_be k n) ≡ n
unfolding put_be get_be
get_be-put_be k n h = rw (reverse-reverse (put_le k n)) (get_le-put_le k n h)

pub length-put_be : (k n : ℕ) → length (put_be k n) ≡ k
unfolding put_be
length-put_be k n = length-reverse (put_le k n) ∙ length-put_le k n

pub read_full-append :
    (n : ℕ) (bs rest : Bytes) → length bs ≡ n → read_full n (bs ++ rest) ≡ some (bs, rest)
unfolding read_full
read_full-append n bs rest h =
    let enough : leb (length bs) (length (bs ++ rest)) ≡ true = shorter bs in
    rw (← h, enough, take-append_exact bs rest, drop-append_exact bs rest)
  where
    shorter : (xs : Bytes) → leb (length xs) (length (xs ++ rest)) ≡ true
    shorter [] = ground arith
    shorter (x ∷ xs) = ground (arith, shorter xs)

-- Reading after `writeLen` gives back every uint64, as a plain length, and leaves what follows.
pub read_len-write_len :
    (n : ℕ) (rest : Bytes)
    → n < 18446744073709551616
    → read_len (write_len n ++ rest) ≡ some ((n, false), rest)
unfolding write_len read_len read_tagged read_wide
read_len-write_len n rest h = elim (Bool-cases (ltb n 64)) [
  | inl e ↦
      let tag : nat_eq (n / 64) 0 ≡ true = ground (arith, e) in
      let low : n % 64 ≡ n = ground (arith, e) in rw (e, ◌>>=◌, tag, low)
  | inr e ↦ elim (Bool-cases (ltb n 16384)) [
    | inl m ↦
        let tag0 : nat_eq ((64 + n / 256) / 64) 0 ≡ false = ground (arith, m) in
        let tag1 : nat_eq ((64 + n / 256) / 64) 1 ≡ true = ground (arith, m) in
        let joined : (64 + n / 256) % 64 * 256 + n % 256 ≡ n = ground (arith, m) in
        rw (e, m, ◌>>=◌, tag0, tag1, joined)
    | inr m ↦ elim (Bool-cases (leb n 4294967295)) [
      | inl w ↦
          let small : n < values 4 = ground (arith, w) in
          rw (
            e,
            m,
            w,
            ◌>>=◌,
            read_full-append 4 (put_be 4 n) rest (length-put_be 4 n),
            get_be-put_be 4 n small,
          )
      | inr w ↦ rw (
        e,
        m,
        w,
        ◌>>=◌,
        read_full-append 8 (put_be 8 n) rest (length-put_be 8 n),
        get_be-put_be 8 n (omega (arith, h)),
      )
    ]
  ]
]
