-- ===== src/Bitmap/Laws.antt =====
-- What `GetBit` answers after `SetBit`.
use hayakv.Base.{
  ℕ, zero, suc, ◌+◌, ◌-◌, ◌/◌, ◌%◌, ◌≤◌, ◌<◌, ◌≡◌, refl, sym, ◌∙◌, inl, inr, Bool, true, false, [],
  ◌∷◌, arith, length, get_or, set, replicate, leb, ltb, nat_eq, if◌then◌else◌, Bool-cases,
  length-append, get_or-set, get_or-append_left, get_or-append_right, get_or-replicate,
  length-replicate,
}
use native.Mathlib.Nat.{zero-div}
use hayakv.Base.Classes.{Bytes}
use hayakv.Bitmap.{to_byte_size, grow, mask_of, bit_at, write_bit, set_bit, get_bit}

-- a bit of a byte is written and read back
write_bit_same :
    (byte bit : ℕ) (val : Bool) → bit_at (write_bit byte bit val) bit ≡ (if val then 1 else 0)
unfolding write_bit bit_at
write_bit_same byte zero true = ground arith
write_bit_same byte zero false = ground arith
write_bit_same byte (suc zero) true = ground arith
write_bit_same byte (suc zero) false = ground arith
write_bit_same byte (suc (suc zero)) true = ground arith
write_bit_same byte (suc (suc zero)) false = ground arith
write_bit_same byte (suc (suc (suc zero))) true = ground arith
write_bit_same byte (suc (suc (suc zero))) false = ground arith
write_bit_same byte (suc (suc (suc (suc zero)))) true = ground arith
write_bit_same byte (suc (suc (suc (suc zero)))) false = ground arith
write_bit_same byte (suc (suc (suc (suc (suc zero))))) true = ground arith
write_bit_same byte (suc (suc (suc (suc (suc zero))))) false = ground arith
write_bit_same byte (suc (suc (suc (suc (suc (suc zero)))))) true = ground arith
write_bit_same byte (suc (suc (suc (suc (suc (suc zero)))))) false = ground arith
write_bit_same byte (suc (suc (suc (suc (suc (suc (suc n))))))) true = ground arith
write_bit_same byte (suc (suc (suc (suc (suc (suc (suc n))))))) false = ground arith

-- a statement about the eight bits, checked at each
at_bits {κ} :
    (P : ℕ → Type κ) → P 0 → P 1 → P 2 → P 3 → P 4 → P 5 → P 6 → P 7 → (n : ℕ) → n < 8 → P n
at_bits P p0 p1 p2 p3 p4 p5 p6 p7 zero h = p0
at_bits P p0 p1 p2 p3 p4 p5 p6 p7 (suc zero) h = p1
at_bits P p0 p1 p2 p3 p4 p5 p6 p7 (suc (suc zero)) h = p2
at_bits P p0 p1 p2 p3 p4 p5 p6 p7 (suc (suc (suc zero))) h = p3
at_bits P p0 p1 p2 p3 p4 p5 p6 p7 (suc (suc (suc (suc zero)))) h = p4
at_bits P p0 p1 p2 p3 p4 p5 p6 p7 (suc (suc (suc (suc (suc zero))))) h = p5
at_bits P p0 p1 p2 p3 p4 p5 p6 p7 (suc (suc (suc (suc (suc (suc zero)))))) h = p6
at_bits P p0 p1 p2 p3 p4 p5 p6 p7 (suc (suc (suc (suc (suc (suc (suc zero))))))) h = p7
at_bits P p0 p1 p2 p3 p4 p5 p6 p7 (suc (suc (suc (suc (suc (suc (suc (suc n)))))))) h =
    absurd (omega arith)

-- what a write of the bit leaves of another one
Keeps : ℕ → Bool → ℕ → ℕ → Type 0
Keeps byte val bit other =
    nat_eq bit other ≡ false → bit_at (write_bit byte bit val) other ≡ bit_at byte other

bit_kept_by_set : (byte bit other : ℕ) → bit < 8 → other < 8 → Keeps byte true bit other
unfolding Keeps write_bit bit_at
bit_kept_by_set byte zero other h k =
    at_bits (Keeps byte true 0) (λ e. ground arith) (λ e. ground arith) (λ e. ground arith)
      (λ e. ground arith) (λ e. ground arith) (λ e. ground arith) (λ e. ground arith)
      (λ e. ground arith) other k
bit_kept_by_set byte (suc zero) other h k =
    at_bits (Keeps byte true 1) (λ e. ground arith) (λ e. ground arith) (λ e. ground arith)
      (λ e. ground arith) (λ e. ground arith) (λ e. ground arith) (λ e. ground arith)
      (λ e. ground arith) other k
bit_kept_by_set byte (suc (suc zero)) other h k =
    at_bits (Keeps byte true 2) (λ e. ground arith) (λ e. ground arith) (λ e. ground arith)
      (λ e. ground arith) (λ e. ground arith) (λ e. ground arith) (λ e. ground arith)
      (λ e. ground arith) other k
bit_kept_by_set byte (suc (suc (suc zero))) other h k =
    at_bits (Keeps byte true 3) (λ e. ground arith) (λ e. ground arith) (λ e. ground arith)
      (λ e. ground arith) (λ e. ground arith) (λ e. ground arith) (λ e. ground arith)
      (λ e. ground arith) other k
bit_kept_by_set byte (suc (suc (suc (suc zero)))) other h k =
    at_bits (Keeps byte true 4) (λ e. ground arith) (λ e. ground arith) (λ e. ground arith)
      (λ e. ground arith) (λ e. ground arith) (λ e. ground arith) (λ e. ground arith)
      (λ e. ground arith) other k
bit_kept_by_set byte (suc (suc (suc (suc (suc zero))))) other h k =
    at_bits (Keeps byte true 5) (λ e. ground arith) (λ e. ground arith) (λ e. ground arith)
      (λ e. ground arith) (λ e. ground arith) (λ e. ground arith) (λ e. ground arith)
      (λ e. ground arith) other k
bit_kept_by_set byte (suc (suc (suc (suc (suc (suc zero)))))) other h k =
    at_bits (Keeps byte true 6) (λ e. ground arith) (λ e. ground arith) (λ e. ground arith)
      (λ e. ground arith) (λ e. ground arith) (λ e. ground arith) (λ e. ground arith)
      (λ e. ground arith) other k
bit_kept_by_set byte (suc (suc (suc (suc (suc (suc (suc zero))))))) other h k =
    at_bits (Keeps byte true 7) (λ e. ground arith) (λ e. ground arith) (λ e. ground arith)
      (λ e. ground arith) (λ e. ground arith) (λ e. ground arith) (λ e. ground arith)
      (λ e. ground arith) other k
bit_kept_by_set byte (suc (suc (suc (suc (suc (suc (suc (suc n)))))))) other h k =
    absurd (omega arith)

bit_kept_by_clear : (byte bit other : ℕ) → bit < 8 → other < 8 → Keeps byte false bit other
unfolding Keeps write_bit bit_at
bit_kept_by_clear byte zero other h k =
    at_bits (Keeps byte false 0) (λ e. ground arith) (λ e. ground arith) (λ e. ground arith)
      (λ e. ground arith) (λ e. ground arith) (λ e. ground arith) (λ e. ground arith)
      (λ e. ground arith) other k
bit_kept_by_clear byte (suc zero) other h k =
    at_bits (Keeps byte false 1) (λ e. ground arith) (λ e. ground arith) (λ e. ground arith)
      (λ e. ground arith) (λ e. ground arith) (λ e. ground arith) (λ e. ground arith)
      (λ e. ground arith) other k
bit_kept_by_clear byte (suc (suc zero)) other h k =
    at_bits (Keeps byte false 2) (λ e. ground arith) (λ e. ground arith) (λ e. ground arith)
      (λ e. ground arith) (λ e. ground arith) (λ e. ground arith) (λ e. ground arith)
      (λ e. ground arith) other k
bit_kept_by_clear byte (suc (suc (suc zero))) other h k =
    at_bits (Keeps byte false 3) (λ e. ground arith) (λ e. ground arith) (λ e. ground arith)
      (λ e. ground arith) (λ e. ground arith) (λ e. ground arith) (λ e. ground arith)
      (λ e. ground arith) other k
bit_kept_by_clear byte (suc (suc (suc (suc zero)))) other h k =
    at_bits (Keeps byte false 4) (λ e. ground arith) (λ e. ground arith) (λ e. ground arith)
      (λ e. ground arith) (λ e. ground arith) (λ e. ground arith) (λ e. ground arith)
      (λ e. ground arith) other k
bit_kept_by_clear byte (suc (suc (suc (suc (suc zero))))) other h k =
    at_bits (Keeps byte false 5) (λ e. ground arith) (λ e. ground arith) (λ e. ground arith)
      (λ e. ground arith) (λ e. ground arith) (λ e. ground arith) (λ e. ground arith)
      (λ e. ground arith) other k
bit_kept_by_clear byte (suc (suc (suc (suc (suc (suc zero)))))) other h k =
    at_bits (Keeps byte false 6) (λ e. ground arith) (λ e. ground arith) (λ e. ground arith)
      (λ e. ground arith) (λ e. ground arith) (λ e. ground arith) (λ e. ground arith)
      (λ e. ground arith) other k
bit_kept_by_clear byte (suc (suc (suc (suc (suc (suc (suc zero))))))) other h k =
    at_bits (Keeps byte false 7) (λ e. ground arith) (λ e. ground arith) (λ e. ground arith)
      (λ e. ground arith) (λ e. ground arith) (λ e. ground arith) (λ e. ground arith)
      (λ e. ground arith) other k
bit_kept_by_clear byte (suc (suc (suc (suc (suc (suc (suc (suc n)))))))) other h k =
    absurd (omega arith)

-- the other bits of the byte stay
write_bit_other : (byte bit other : ℕ) (val : Bool) → bit < 8 → other < 8 → Keeps byte val bit other
write_bit_other byte bit other true h k = bit_kept_by_set byte bit other h k
write_bit_other byte bit other false h k = bit_kept_by_clear byte bit other h k

past_end : (xs : Bytes) (i : ℕ) → length xs ≤ i → get_or xs i 0 ≡ 0
past_end [] i h = refl
past_end (x ∷ xs) zero h = absurd (omega arith)
past_end (x ∷ xs) (suc i) h = past_end xs i (omega arith)

get_or-grow : (b : Bytes) (n i : ℕ) → get_or (grow b n) i 0 ≡ get_or b i 0
unfolding grow
get_or-grow b n i =
    let zeros : Bytes = replicate (to_byte_size n - length b) 0 in
    elim (Bool-cases (ltb i (length b))) [
      | inl e ↦ get_or-append_left b zeros i 0 (ground (arith, e))
      | inr e ↦
          get_or-append_right b zeros i 0 (ground (arith, e))
          ∙ (get_or-replicate (to_byte_size n - length b) (i - length b) 0
              ∙ sym (past_end b i (ground (arith, e))))
    ]

room : (b : Bytes) (offset : ℕ) → offset / 8 < length (grow b (offset + 1))
unfolding grow to_byte_size
room b offset =
    let zeros : Bytes = replicate (to_byte_size (offset + 1) - length b) 0 in
    let size : length zeros ≡ to_byte_size (offset + 1) - length b =
      length-replicate (to_byte_size (offset + 1) - length b) 0 in
    ground (arith, length-append b zeros, size)

zero_bit : (n : ℕ) → bit_at 0 n ≡ 0
unfolding bit_at
zero_bit n = rw (zero-div (mask_of n))

-- a bit past the end reads as 0, as a zero byte would give it
get_bit-bit_at : (b : Bytes) (i : ℕ) → get_bit b i ≡ bit_at (get_or b (i / 8) 0) (i % 8)
unfolding get_bit
get_bit-bit_at b i = elim (Bool-cases (leb (length b) (i / 8))) [
  | inr e ↦ rw e
  | inl e ↦ rw (e, past_end b (i / 8) (ground (arith, e))) (sym (zero_bit (i % 8)))
]

-- After `SetBit` the bit at the offset is 1 for a positive value and 0 otherwise, and every other bit
-- is what it was, the ones past the end included.
pub get_bit-set_bit :
    (b : Bytes) (offset val i : ℕ)
    → get_bit (set_bit b offset val) i
      ≡ (if nat_eq offset i then (if ltb 0 val then 1 else 0) else get_bit b i)
unfolding set_bit Keeps
get_bit-set_bit b offset val i =
    let b' = grow b (offset + 1) in
    let old = get_or b (offset / 8) 0 in
    let on = ltb 0 val in
    let wrote = write_bit old (offset % 8) on in
    get_bit-bit_at (set b' (offset / 8) (write_bit (get_or b' (offset / 8) 0) (offset % 8) on)) i
    ∙ rw
        (
          get_or-set b' (offset / 8) (i / 8) (write_bit (get_or b' (offset / 8) 0) (offset % 8) on)
              0 (room b offset),
          get_or-grow b (offset + 1) (offset / 8),
          get_or-grow b (offset + 1) (i / 8),
          get_bit-bit_at b i,
        )
        (elim (Bool-cases (nat_eq (offset / 8) (i / 8))) [
          | inr e ↦ let apart : nat_eq offset i ≡ false = ground (arith, e) in rw (e, apart)
          | inl e ↦
              let byte : offset / 8 ≡ i / 8 = ground (arith, e) in
              elim (Bool-cases (nat_eq (offset % 8) (i % 8))) [
                | inl m ↦
                    let bit : offset % 8 ≡ i % 8 = ground (arith, m) in
                    let same : nat_eq offset i ≡ true = ground (arith, byte, bit) in
                    rw (e, same, ← bit) (write_bit_same old (offset % 8) on)
                | inr m ↦
                    let apart : nat_eq offset i ≡ false = ground (arith, m) in
                    rw (e, apart, ← byte)
                      (write_bit_other old (offset % 8) (i % 8) on (omega arith) (omega arith) m)
              ]
        ])
