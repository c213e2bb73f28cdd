-- ===== src/Dict/Cursors.antt =====
-- `DictScan`, called again with the cursor that it returned until that is 0.
use hayakv.Base.{
  ℕ, zero, suc, ◌+◌, ◌-◌, ◌≤◌, ◌<◌, ◌≡◌, refl, ap, sym, ◌∙◌, Bool, true, false, ◌||◌, Option, none,
  some, List, [], ◌∷◌, ◌++◌, arith, length, length-append, drop, length-drop, keep, keep-append,
  map, ltb, leb, nat_eq, if◌then◌else◌, Bool-cases, inl, inr, ◌⊎◌, ◌>>=◌,
}
use mathlib.Core.Option.{some-injective}
use mathlib.Core.List.{append_assoc, append-nil}
use hayakv.Base.Classes.{Bytes, bytes_eq}
use hayakv.Dict.{Chain, RedisDict, is_rehashing, len}
use hayakv.Dict.State.{IsValid}
use hayakv.Dict.Walks.{
  second_buckets, keys, matching, scan_buckets, scan_pair, scan_tables, dict_scan,
}
use hayakv.Dict.Scans.{keys_of, keys-keys_of, keys-meaning}

-- one answer, and the calls after it
abbrev pub resume : List Bytes × Option ℕ → (ℕ → Option (List Bytes)) → Option (List Bytes)
resume r call_again = elim r.1 [
  | none ↦ none
  | some next ↦ if nat_eq next 0 then some r.0 else call_again next >>= λ rest. some (r.0 ++ rest)
]

keep_all : (ks : List Bytes) → keep (λ _. true) ks ≡ ks
keep_all [] = refl
keep_all (k ∷ ks) = ap (λ t. k ∷ t) (keep_all ks)

no_keys : (ks : List Bytes) → length ks ≡ 0 → ks ≡ []
no_keys [] h = refl
no_keys (k ∷ ks) h = absurd (omega (arith, h))

-- the test of a key that `DictScan` makes of a pattern
abbrev pub pattern_test : (Bytes → Option (Bytes → Bool)) → Bytes → Option (Bytes → Bool)
pattern_test compile pattern =
    if bytes_eq pattern (42 ∷ []) then some (λ _. true) else compile pattern

module _ {V : Type 0} where
  abbrev pub all_buckets : RedisDict V → List (Chain V)
  all_buckets d = d.tables0.buckets ++ second_buckets d

  keys_of-append : (xs ys : List (Chain V)) → keys_of (xs ++ ys) ≡ keys_of xs ++ keys_of ys
  unfolding keys_of
  keys_of-append [] ys = refl
  keys_of-append (x ∷ xs) ys =
      ap (λ t. map (λ e. e.0) x ++ t) (keys_of-append xs ys)
      ∙ sym (append_assoc (map (λ e. e.0) x) (keys_of xs) (keys_of ys))

  -- a loop that has enough does nothing
  scan_full :
      (p : Bytes → Bool) (count : ℕ) (cs : List (Chain V)) (res : List Bytes)
      → count ≤ length res
      → scan_buckets p count cs res ≡ (res, 0)
  unfolding scan_buckets
  scan_full p count [] res h = refl
  scan_full p count (c ∷ cs) res h =
      let e : ltb (length res) count ≡ false = ground (arith, h) in rw e

  scan-le :
      (p : Bytes → Bool) (count : ℕ) (cs : List (Chain V)) (res : List Bytes)
      → (scan_buckets p count cs res).1 ≤ length cs
  unfolding scan_buckets
  scan-le p count [] res = omega arith
  scan-le p count (c ∷ cs) res = elim (Bool-cases (ltb (length res) count)) [
    | inl e ↦ rw e (omega (arith, scan-le p count cs (res ++ matching p c)))
    | inr e ↦ rw e (omega arith)
  ]

  -- the two loops one after the other are one loop
  scan-append :
      (p : Bytes → Bool) (count : ℕ) (xs ys : List (Chain V)) (res : List Bytes)
      → let first = scan_buckets p count xs res in
        let next = scan_buckets p count ys first.0 in
        (scan_buckets p count (xs ++ ys) res ≡ (next.0, first.1 + next.1))
        × ((leb (length xs) first.1 || nat_eq next.1 0) ≡ true)
  unfolding scan_buckets
  scan-append p count [] ys res =
      (ap (λ n. ((scan_buckets p count ys res).0, n)) (omega arith), ground arith)
  scan-append p count (x ∷ xs) ys res = elim (Bool-cases (ltb (length res) count)) [
    | inl e ↦
        let (same, stop) = scan-append p count xs ys (res ++ matching p x) in
        rw e (
          ap (λ r. (r.0, r.1 + 1)) same
              ∙ ap
                  (λ n. (
                    (scan_buckets p count ys (scan_buckets p count xs (res ++ matching p x)).0).0,
                    n,
                  ))
                  (omega arith),
          ground (arith, stop),
        )
    | inr e ↦
        let idle = scan_full p count ys res (ground (arith, e)) in rw (e, idle) (refl, ground arith)
  ]

  drop-append_left :
      (n : ℕ) (xs ys : List (Chain V)) → n ≤ length xs → drop n (xs ++ ys) ≡ drop n xs ++ ys
  drop-append_left zero xs ys h = refl
  drop-append_left (suc n) [] ys h = absurd (omega arith)
  drop-append_left (suc n) (x ∷ xs) ys h = drop-append_left n xs ys (omega arith)

  drop-append_right :
      (xs ys : List (Chain V)) (n : ℕ) → length xs ≤ n → drop n (xs ++ ys) ≡ drop (n - length xs) ys
  drop-append_right [] ys n h = ap (λ m. drop m ys) (omega arith)
  drop-append_right (x ∷ xs) ys zero h = absurd (omega arith)
  drop-append_right (x ∷ xs) ys (suc n) h =
      let e : suc n - suc (length xs) ≡ n - length xs = omega arith in
      rw e (drop-append_right xs ys n (omega arith))

  drop_all : (n : ℕ) (xs : List (Chain V)) → length xs ≤ n → drop n xs ≡ []
  drop_all zero [] h = refl
  drop_all (suc n) [] h = refl
  drop_all zero (x ∷ xs) h = absurd (omega arith)
  drop_all (suc n) (x ∷ xs) h = drop_all n xs (omega arith)

  drop-drop : (m n : ℕ) (xs : List (Chain V)) → drop n (drop m xs) ≡ drop (m + n) xs
  drop-drop zero n xs = ap (λ k. drop k xs) (omega arith)
  drop-drop (suc m) n [] = drop_all n [] (omega arith) ∙ sym (drop_all (suc m + n) [] (omega arith))
  drop-drop (suc m) n (x ∷ xs) =
      let e : suc m + n ≡ suc (m + n) = omega arith in rw e (drop-drop m n xs)

  -- what a loop has taken and what it has left
  scan-rest :
      (p : Bytes → Bool) (count : ℕ) (cs : List (Chain V)) (res : List Bytes)
      → let r = scan_buckets p count cs res in
        r.0 ++ keep p (keys_of (drop r.1 cs)) ≡ res ++ keep p (keys_of cs)
  unfolding scan_buckets keys_of
  scan-rest p count [] res = refl
  scan-rest p count (c ∷ cs) res = elim (Bool-cases (ltb (length res) count)) [
    | inr e ↦ rw e
    | inl e ↦
        let n = (scan_buckets p count cs (res ++ matching p c)).1 in
        let step : n + 1 ≡ suc n = omega arith in
        rw (e, step)
          (scan-rest p count cs (res ++ matching p c)
            ∙ (append_assoc res (matching p c) (keep p (keys_of cs))
                ∙ ap (λ t. res ++ t) (sym (keep-append p (map (λ e. e.0) c) (keys_of cs)))))
  ]

  scan-advances :
      (p : Bytes → Bool) (count : ℕ) (cs : List (Chain V))
      → 0 < count
      → 0 < length cs
      → 0 < (scan_buckets p count cs []).1
  unfolding scan_buckets
  scan-advances p count [] h k = absurd (omega (arith, k))
  scan-advances p count (c ∷ cs) h k =
      let e : ltb 0 count ≡ true = ground (arith, h) in rw e (omega arith)

  scan_pair_lem :
      (p : Bytes → Bool) (rehashing : Bool) (b0 b1 : List (Chain V)) (cursor count : ℕ)
      → (rehashing ≡ true) ⊎ (b1 ≡ [])
      → let r = scan_buckets p count (drop cursor (b0 ++ b1)) [] in
        scan_pair p rehashing b0 b1 cursor count
        ≡ (r.0, if leb (length (b0 ++ b1)) (cursor + r.1) then 0 else cursor + r.1)
  unfolding scan_pair
  scan_pair_lem p false b0 b1 cursor count (inl e) = absurd (ground (arith, e))
  scan_pair_lem p false b0 b1 cursor count (inr e) =
      let same : b0 ++ b1 ≡ b0 = ap (λ t. b0 ++ t) e ∙ append-nil b0 in rw same
  scan_pair_lem p true b0 b1 cursor count h =
      let size = length-append b0 b1 in
      elim (Bool-cases (ltb cursor (length b0))) [
        | inl f ↦
            let xs = drop cursor b0 in
            let (same, stop) = scan-append p count xs b1 [] in
            let first = scan_buckets p count xs [] in
            let next = scan_buckets p count b1 first.0 in
            rw (f, drop-append_left cursor b0 b1 (ground (arith, f)), same)
              (ap (λ n. (next.0, n))
                (ground (
                  arith,
                  size,
                  length-drop cursor b0,
                  scan-le p count xs [],
                  scan-le p count b1 first.0,
                  stop,
                  f,
                )))
        | inr f ↦
            let past : length b0 ≤ cursor = ground (arith, f) in
            let gone = drop_all (length b0) b0 (omega arith) in
            let ys = drop (cursor - length b0) b1 in
            rw (f, gone, drop-append_right b0 b1 cursor past)
              (ap (λ n. ((scan_buckets p count ys []).0, n)) (ground (arith, size, past)))
      ]

  -- the scan of the two tables is a scan of their buckets in a row
  scan_tables_lem :
      (p : Bytes → Bool) (d : RedisDict V) (cursor count : ℕ)
      → let r = scan_buckets p count (drop cursor (all_buckets d)) [] in
        scan_tables p d cursor count
        ≡ (r.0, if leb (length (all_buckets d)) (cursor + r.1) then 0 else cursor + r.1)
  unfolding scan_tables
  scan_tables_lem p d cursor count =
      scan_pair_lem p (is_rehashing d) d.tables0.buckets (second_buckets d) cursor count
        (elim (Bool-cases (is_rehashing d)) [
          | inl e ↦ inl e
          | inr e ↦ inr (rw (second_buckets, e))
        ])

  -- the calls of a client, each with the cursor that the one before returned
  unfoldable pub whole_scan :
      (Bytes → Option (Bytes → Bool)) → RedisDict V → ℕ → Bytes → ℕ → ℕ → Option (List Bytes)
  unfolding dict_scan
  whole_scan compile d count pattern zero cursor = none
  whole_scan compile d count pattern (suc fuel) cursor =
      resume (dict_scan compile d cursor count pattern) (whole_scan compile d count pattern fuel)

  whole_scan_from :
      (compile : Bytes → Option (Bytes → Bool)) (p : Bytes → Bool) (d : RedisDict V) (count : ℕ)
      (pattern : Bytes) (fuel cursor : ℕ)
      → ((c : ℕ)
          → dict_scan compile d c count pattern
            ≡ ((scan_tables p d c count).0, some (scan_tables p d c count).1))
      → 0 < count
      → length (all_buckets d) < cursor + fuel
      → cursor ≤ length (all_buckets d)
      → whole_scan compile d count pattern fuel cursor
        ≡ some (keep p (keys_of (drop cursor (all_buckets d))))
  unfolding whole_scan keys_of
  whole_scan_from compile p d count pattern zero cursor slow pos enough le =
      absurd (omega (arith, enough, le))
  whole_scan_from compile p d count pattern (suc fuel) cursor slow pos enough le =
      let bs = all_buckets d in
      let cs = drop cursor bs in
      let r = scan_buckets p count cs [] in
      let rest = scan-rest p count cs [] in
      let one : dict_scan compile d cursor count pattern
          ≡ (r.0, some (if leb (length bs) (cursor + r.1) then 0 else cursor + r.1)) =
        slow cursor ∙ ap (λ t. (t.0, some t.1)) (scan_tables_lem p d cursor count) in
      elim (Bool-cases (leb (length bs) (cursor + r.1))) [
        | inl e ↦
            let over = drop_all r.1 cs (ground (arith, e, length-drop cursor bs)) in
            let all : r.0 ≡ keep p (keys_of cs) =
              sym (append-nil r.0) ∙ (ap (λ t. r.0 ++ keep p (keys_of t)) (sym over) ∙ rest) in
            ap (λ t. resume t (whole_scan compile d count pattern fuel)) one ∙ rw e (ap some all)
        | inr e ↦
            let some_left : 0 < length cs = ground (arith, e, length-drop cursor bs) in
            let moves = scan-advances p count cs pos some_left in
            let more : nat_eq (cursor + r.1) 0 ≡ false = ground (arith, moves) in
            let rec =
              whole_scan_from compile p d count pattern fuel (cursor + r.1) slow pos
                (omega (arith, enough, moves)) (ground (arith, e)) in
            ap (λ t. resume t (whole_scan compile d count pattern fuel)) one
            ∙ rw (e, more, rec, ◌>>=◌)
                (ap some
                  (ap (λ t. r.0 ++ keep p (keys_of t)) (sym (drop-drop cursor r.1 bs)) ∙ rest))
      ]

  -- Calls of `DictScan` on a valid dictionary that does not change, with a positive count and a pattern
  -- that compiles, from the cursor 0 until it returns 0, end within a call more than there are buckets, and
  -- return together the keys of `Keys` that match, in its order and each once.
  pub whole_scan_lem :
      (compile : Bytes → Option (Bytes → Bool)) (p : Bytes → Bool) (d : RedisDict V) (count : ℕ)
      (pattern : Bytes) (fuel : ℕ)
      → IsValid d
      → 0 < count
      → pattern_test compile pattern ≡ some p
      → length (all_buckets d) < fuel
      → whole_scan compile d count pattern fuel 0 ≡ some (keep p (keys d))
  unfolding whole_scan dict_scan len
  whole_scan_lem compile p d count pattern zero h pos test enough = absurd (omega (arith, enough))
  whole_scan_lem compile p d count pattern (suc fuel) h pos test enough =
      let listed : keep p (keys_of (all_buckets d)) ≡ keep p (keys d) =
        ap (keep p) (keys_of-append d.tables0.buckets (second_buckets d) ∙ sym (keys-keys_of d)) in
      elim (Bool-cases (nat_eq d.count 0)) [
        | inl e ↦
            let counted : len d ≡ d.count = refl in
            let empty = no_keys (keys d) (ground (arith, e, (keys-meaning d [] h).1, counted)) in
            let one : dict_scan compile d 0 count pattern ≡ ([], some 0) = rw (dict_scan, e) in
            ap (λ t. resume t (whole_scan compile d count pattern fuel)) one
            ∙ ap (λ ks. some (keep p ks)) (sym empty)
        | inr e ↦ elim (Bool-cases (bytes_eq pattern (42 ∷ []))) [
          | inl f ↦
              let same : (λ _. true) ≡ p = some-injective (λ _. true) p (sym (rw f) ∙ test) in
              elim (Bool-cases (leb d.count count)) [
                | inl g ↦
                    let one : dict_scan compile d 0 count pattern ≡ (keys d, some 0) =
                      rw (dict_scan, e, f, g) in
                    ap (λ t. resume t (whole_scan compile d count pattern fuel)) one
                    ∙ ap some (sym (keep_all (keys d)) ∙ ap (λ q. keep q (keys d)) same)
                | inr g ↦
                    whole_scan_from compile p d count pattern (suc fuel) 0
                      (λ c. rw (dict_scan, e, f, g, same)) pos (omega (arith, enough)) (omega arith)
                    ∙ ap some listed
              ]
          | inr f ↦
              let same : compile pattern ≡ some p = sym (rw f) ∙ test in
              whole_scan_from compile p d count pattern (suc fuel) 0
                (λ c. rw (dict_scan, e, f, same)) pos (omega (arith, enough)) (omega arith)
              ∙ ap some listed
        ]
      ]
