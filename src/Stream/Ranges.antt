-- ===== src/Stream/Ranges.antt =====
-- `Range` and `RevRange`.
use hayakv.Base.{
  ℕ, zero, suc, ◌+◌, ◌-◌, ◌<◌, ◌≡◌, refl, ap, ◌∙◌, inl, inr, Bool, true, false, ◌&&◌, not, List, [],
  ◌∷◌, arith, take, keep, reverse, keep-append, ltb, leb, nat_eq, if◌then◌else◌, Bool-cases, All,
}
use mathlib.Core.List.{append-nil}
use hayakv.Stream.{StreamId, Entry, Stream, greater, in_range, range_loop, range, rev_range}
use hayakv.Stream.Order.{Bounded}

-- A run of `Range` that has found no more than `count` allows goes on up to the limit.
range_loop-take :
    (start end : StreamId) (count found : ℕ) (es : List Entry)
    → found < count
    → range_loop start end count found es ≡ take (count - found) (keep (in_range start end) es)
unfolding range_loop
range_loop-take start end count found [] h =
    let (m, e) : (m : ℕ) × (count - found ≡ suc m) = (count - found - 1, omega arith) in rw e
range_loop-take start end count found (x ∷ xs) h = elim (Bool-cases (in_range start end x)) [
  | inr e ↦ rw e (range_loop-take start end count found xs h)
  | inl e ↦ elim (Bool-cases (leb count (found + 1))) [
    | inl full ↦
        let last : count - found ≡ 1 = ground (arith, full) in ground (arith, e, full, last)
    | inr more ↦
        let step : count - found ≡ suc (count - (found + 1)) = ground (arith, more) in
        rw (e, more, step)
          (let some_left : ltb 0 count ≡ true = ground arith in
            rw some_left (
              ap (λ t. x ∷ t)
                (range_loop-take start end count (found + 1) xs (ground (arith, more)))))
  ]
]

range_loop-keep :
    (start end : StreamId) (found : ℕ) (es : List Entry)
    → range_loop start end 0 found es ≡ keep (in_range start end) es
unfolding range_loop
range_loop-keep start end found [] = refl
range_loop-keep start end found (x ∷ xs) =
    ground (arith, range_loop-keep start end (found + 1) xs, range_loop-keep start end found xs)

-- is the entry's ID neither below `start` nor above `end`?
abbrev pub between : StreamId → StreamId → Entry → Bool
between start end e = not (greater start e.id) && not (greater e.id end)

in_range-between :
    (start end : StreamId) (e : Entry) → Bounded e.id → in_range start end e ≡ between start end e
unfolding in_range greater
in_range-between start end e b = ground (arith, b.0, b.1)

keep-between :
    (start end : StreamId) (es : List Entry)
    → All (λ e. Bounded e.id) es
    → keep (in_range start end) es ≡ keep (between start end) es
keep-between start end [] h = refl
keep-between start end (e ∷ es) h =
    rw (in_range-between start end e h.0, keep-between start end es h.1)

-- `Range` returns, in order, the entries whose IDs lie between the two bounds, and with a positive
-- count the first of them up to that count.
pub range_lem :
    (s : Stream) (start end : StreamId) (count : ℕ)
    → All (λ e. Bounded e.id) s.entries
    → range s start end count ≡ (
        let all = keep (between start end) s.entries in
        if nat_eq count 0 then all else take count all)
unfolding range
range_lem s start end zero h =
    range_loop-keep start end 0 s.entries ∙ keep-between start end s.entries h
range_lem s start end (suc n) h =
    let all : suc n - 0 ≡ suc n = omega arith in
    let some_count : nat_eq (suc n) 0 ≡ false = ground arith in
    rw some_count (
      (rw all at (range_loop-take start end (suc n) 0 s.entries (omega arith)))
      ∙ ap (take (suc n)) (keep-between start end s.entries h))

keep-reverse : (p : Entry → Bool) (es : List Entry) → keep p (reverse es) ≡ reverse (keep p es)
keep-reverse p [] = refl
keep-reverse p (e ∷ es) = elim (Bool-cases (p e)) [
  | inl h ↦ rw (keep-append p (reverse es) (e ∷ []), h, keep-reverse p es)
  | inr h ↦
      rw (keep-append p (reverse es) (e ∷ []), h, keep-reverse p es)
        (append-nil (reverse (keep p es)))
]

-- Without a count, `RevRange` returns what `Range` returns, in the opposite order.
pub rev_range-reverse :
    (s : Stream) (start end : StreamId) → rev_range s start end 0 ≡ reverse (range s start end 0)
unfolding range rev_range
rev_range-reverse s start end =
    rw (range_loop-keep start end 0 (reverse s.entries), range_loop-keep start end 0 s.entries)
      (keep-reverse (in_range start end) s.entries)
