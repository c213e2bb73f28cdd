-- ===== src/QuickList/Sweeps.antt =====
-- The removals by value against functions on the list of the elements.
use hayakv.Base.{
  ℕ, zero, suc, ◌+◌, ◌≤◌, ◌<◌, ◌≡◌, refl, ap, sym, ◌∙◌, ◌⊎◌, inl, inr, Bool, true, false, not,
  Option, none, some, List, [], ◌∷◌, ◌++◌, arith, length, get_elem?, take, drop, min, keep, ltb,
  leb, nat_eq, if◌then◌else◌, Bool-cases, ◌>>=◌,
}
use mathlib.Core.List.{append_assoc, append-nil}
use hayakv.QuickList.{QuickList, Iterator, find}
use hayakv.QuickList.Pages.{contents_of, contents, IsValid}
use hayakv.QuickList.Reads.{find-Stands}
use hayakv.QuickList.Writes.{Holds}
use hayakv.QuickList.Moves.{At, Stands-At, At-Stands, Rests, next-At, at_end-Rests}
use hayakv.QuickList.Cuts.{removed, length-removed, remove_at-Removed}
use hayakv.QuickList.Scans.{remove_loop, remove_by_val, remove_all_by_val}
use hayakv.QuickList.Loops.{drop_at, empty_drop, no_contents, get_at-At}

module _ {ℓ} {A : Type ℓ} where
  -- A removal from left to right: the elements that stay, and the number of those removed and `n`.
  unfoldable pub sweep : (A → Bool) → (ℕ → Bool) → ℕ → List A → List A × ℕ
  sweep expected stops n [] = ([], n)
  sweep expected stops n (x ∷ xs) =
      let after_hit = sweep expected stops (n + 1) xs in
      let after_miss = sweep expected stops n xs in
      if expected x
      then (if stops (n + 1) then (xs, n + 1) else after_hit)
      else (x ∷ after_miss.0, after_miss.1)

  pub take-removed : (k : ℕ) (xs : List A) → take k (removed k xs) ≡ take k xs
  take-removed zero xs = refl
  take-removed (suc k) [] = let e : suc k + 1 ≡ suc (k + 1) = omega arith in rw e
  take-removed (suc k) (x ∷ xs) =
      let e : suc k + 1 ≡ suc (k + 1) = omega arith in rw e (ap (λ t. x ∷ t) (take-removed k xs))

  pub drop-removed : (k : ℕ) (xs : List A) → drop k (removed k xs) ≡ drop (k + 1) xs
  drop-removed zero xs = refl
  drop-removed (suc k) [] = let e : suc k + 1 ≡ suc (k + 1) = omega arith in rw e
  drop-removed (suc k) (x ∷ xs) =
      let e : suc k + 1 ≡ suc (k + 1) = omega arith in rw e (drop-removed k xs)

  pub take_at :
      (k : ℕ) (xs : List A) (v : A)
      → get_elem? xs k ≡ some v
      → take (k + 1) xs ≡ take k xs ++ (v ∷ [])
  take_at k [] v h = absurd (ground (arith, h))
  take_at zero (x ∷ xs) v h = let e : x ≡ v = cc in ap (λ t. t ∷ []) e
  take_at (suc k) (x ∷ xs) v h =
      let e : suc k + 1 ≡ suc (k + 1) = omega arith in rw e (ap (λ t. x ∷ t) (take_at k xs v h))

  pub take_all : (n : ℕ) (xs : List A) → length xs ≤ n → take n xs ≡ xs
  take_all zero [] h = refl
  take_all (suc n) [] h = refl
  take_all zero (x ∷ xs) h = absurd (omega arith)
  take_all (suc n) (x ∷ xs) h = ap (λ t. x ∷ t) (take_all n xs (omega arith))

  -- what a loop that starts at index `k` returns
  abbrev pub Swept : QuickList A → ℕ → List A × ℕ → Option (QuickList A × ℕ) → Type ℓ
  Swept ql k out r =
      (ql' : QuickList A) × (r ≡ some (ql', out.1)) × Holds ql' (take k (contents ql) ++ out.0)

  Rests-At :
      (ql : QuickList A) (k : ℕ) (iter : Iterator)
      → Rests ql.pages k iter
      → k < length (contents ql)
      → At ql.pages k iter
  unfolding contents_of
  Rests-At ql k iter (inr a) lt = a
  Rests-At ql k iter (inl (e, z, _)) lt =
      absurd (omega (arith, ap (λ ps. length (contents_of ps)) e, lt))

  remove_loop_lem :
      (fuel : ℕ) (expected : A → Bool) (stops : ℕ → Bool) (ql : QuickList A) (k : ℕ)
      (iter : Iterator) (n : ℕ)
      → IsValid ql
      → Rests ql.pages k iter
      → length (contents ql) < k + fuel
      → k ≤ length (contents ql)
      → Swept ql k
          (sweep expected stops n (drop k (contents ql)))
          (remove_loop fuel expected stops ql iter n)
  unfolding remove_loop sweep
  remove_loop_lem zero expected stops ql k iter n h r enough le = absurd (omega (arith, enough, le))
  remove_loop_lem (suc fuel) expected stops ql k iter n h r enough le =
      let end = at_end-Rests ql k iter r in
      elim (Bool-cases (leb (length (contents ql)) k)) [
        | inl e ↦
            let here : take k (contents ql) ≡ contents ql =
              take_all k (contents ql) (ground (arith, e)) in
            rw (remove_loop, end, e, empty_drop k (contents ql) (ground (arith, e)))
              (ql, refl, (h, sym (append-nil (take k (contents ql)) ∙ here)))
        | inr e ↦
            let lt : k < length (contents ql) = ground (arith, e) in
            let a = Rests-At ql k iter r lt in
            let (v, got, found) = get_at-At ql k iter a lt in
            rw (remove_loop, end, e, drop_at k (contents ql) v found, got, ◌>>=◌)
              (elim (Bool-cases (expected v)) [
                | inl x ↦
                    let (ql', iter', w, runs, _, rm) =
                      remove_at-Removed ql k iter h (At-Stands ql.pages k iter a lt) in
                    let front = ap (take k) rm.left ∙ take-removed k (contents ql) in
                    let back = ap (drop k) rm.left ∙ drop-removed k (contents ql) in
                    let size = ap length rm.left in
                    let fewer = length-removed k (contents ql) lt in
                    elim (Bool-cases (stops (n + 1))) [
                      | inl y ↦ rw (x, runs, y) (ql', refl, (rm.valid, rm.left))
                      | inr y ↦
                          let rec =
                            remove_loop_lem fuel expected stops ql' k iter' (n + 1) rm.valid
                              rm.rests (omega (arith, size, fewer, enough))
                              (omega (arith, size, fewer, lt)) in
                          rw (x, runs, y, ← back, ← front) rec
                    ]
                | inr x ↦
                    let (iter', moved, a') = next-At ql k iter h a lt in
                    let (ql', runs, holds) =
                      remove_loop_lem fuel expected stops ql (k + 1) iter' n h (inr a')
                        (omega (arith, enough)) (omega (arith, lt)) in
                    let rest = sweep expected stops n (drop (k + 1) (contents ql)) in
                    rw (x, moved)
                      (
                        ql',
                        runs,
                        (
                          holds.0,
                          holds.1
                              ∙ (ap (λ t. t ++ rest.0) (take_at k (contents ql) v found)
                                  ∙ append_assoc (take k (contents ql)) (v ∷ []) rest.0),
                        ),
                      )
              ])
      ]

  -- the list without the first so many elements that pass
  unfoldable pub without : (A → Bool) → ℕ → List A → List A
  without expected zero xs = xs
  without expected (suc k) [] = []
  without expected (suc k) (x ∷ xs) =
      let after_hit = without expected k xs in
      let after_miss = without expected (suc k) xs in
      if expected x then after_hit else x ∷ after_miss

  sweep-without :
      (expected : A → Bool) (count k n : ℕ) (xs : List A)
      → n + suc k ≡ count
      → sweep expected (λ r. nat_eq r count) n xs
        ≡ (without expected (suc k) xs, n + min (suc k) (length (keep expected xs)))
  unfolding sweep without
  sweep-without expected count k n [] h = ap (λ t. ([], t)) (omega arith)
  sweep-without expected count zero n (x ∷ xs) h =
      let stop : nat_eq (n + 1) count ≡ true = ground (arith, h) in
      elim (Bool-cases (expected x)) [
        | inr e ↦ rw (e, sweep-without expected count zero n xs h)
        | inl e ↦ rw (e, stop) (ap (λ t. (xs, t)) (omega arith))
      ]
  sweep-without expected count (suc k) n (x ∷ xs) h =
      let more : nat_eq (n + 1) count ≡ false = ground (arith, h) in
      elim (Bool-cases (expected x)) [
        | inr e ↦ rw (e, sweep-without expected count (suc k) n xs h)
        | inl e ↦
            rw (e, more, sweep-without expected count k (n + 1) xs (omega (arith, h)))
              (ap (λ t. (without expected (suc k) xs, t)) (omega arith))
      ]

  sweep_never :
      (expected : A → Bool) (stops : ℕ → Bool) (n : ℕ) (xs : List A)
      → ((r : ℕ) → stops (r + 1) ≡ false)
      → sweep expected stops n xs ≡ (keep (λ x. not (expected x)) xs, n + length (keep expected xs))
  unfolding sweep
  sweep_never expected stops n [] h = ap (λ t. ([], t)) (omega arith)
  sweep_never expected stops n (x ∷ xs) h = elim (Bool-cases (expected x)) [
    | inr e ↦ rw (e, sweep_never expected stops n xs h)
    | inl e ↦
        rw (e, h n, sweep_never expected stops (n + 1) xs h)
          (ap (λ t. (keep (λ x. not (expected x)) xs, t)) (omega arith))
  ]

  -- what a removal by value leaves and returns: a count of 0 takes every element that passes
  abbrev pub removal : (A → Bool) → ℕ → List A → List A × ℕ
  removal expected zero xs = (keep (λ x. not (expected x)) xs, length (keep expected xs))
  removal expected (suc k) xs =
      (without expected (suc k) xs, min (suc k) (length (keep expected xs)))

  pub sweep-removal :
      (expected : A → Bool) (count : ℕ) (xs : List A)
      → sweep expected (λ r. nat_eq r count) 0 xs ≡ removal expected count xs
  sweep-removal expected zero xs =
      sweep_never expected (λ r. nat_eq r 0) 0 xs (λ r. ground arith)
      ∙ ap (λ t. (keep (λ x. not (expected x)) xs, t)) (omega arith)
  sweep-removal expected (suc k) xs =
      sweep-without expected (suc k) k 0 xs (omega arith)
      ∙ ap (λ t. (without expected (suc k) xs, t)) (omega arith)

  pub removal_none : (expected : A → Bool) (count : ℕ) → removal expected count [] ≡ ([], 0)
  unfolding without
  removal_none expected zero = refl
  removal_none expected (suc k) = ap (λ t. ([], t)) (omega arith)

  -- `RemoveByVal` removes the first `count` elements that pass its test, or all of them for a count of
  -- 0, keeps the others in order, and returns how many it removed; fuel beyond the length is enough.
  pub remove_by_val_lem :
      (fuel : ℕ) (ql : QuickList A) (expected : A → Bool) (count : ℕ)
      → IsValid ql
      → ql.size < fuel
      → (ql' : QuickList A) × (remove_by_val fuel ql expected count
          ≡ some (ql', (removal expected count (contents ql)).1))
        × Holds ql' (removal expected count (contents ql)).0
  unfolding remove_by_val
  remove_by_val_lem fuel ql expected count h enough = elim (Bool-cases (nat_eq ql.size 0)) [
    | inl e ↦
        let empty = no_contents (contents ql) (ground (arith, e, h.counted)) in
        let same = ap (removal expected count) empty ∙ removal_none expected count in
        rw (e, same) (ql, refl, (h, empty))
    | inr e ↦
        let (iter, found, st) = find-Stands ql 0 h (ground (arith, e)) in
        rw (e, found, ◌>>=◌, ← sweep-removal expected count (contents ql))
          (remove_loop_lem fuel expected (λ r. nat_eq r count) ql 0 iter 0 h
            (inr (Stands-At ql.pages 0 iter st)) (omega (arith, h.counted, enough)) (omega arith))
  ]

  -- `RemoveAllByVal` removes every element that passes its test and counts them; it panics on an empty
  -- list.
  pub remove_all_by_val_lem :
      (fuel : ℕ) (ql : QuickList A) (expected : A → Bool)
      → IsValid ql
      → ql.size < fuel
      → ((contents ql ≡ []) × (remove_all_by_val fuel ql expected ≡ none))
        ⊎ ((ql' : QuickList A) × (0 < length (contents ql))
            × (remove_all_by_val fuel ql expected
                ≡ some (ql', length (keep expected (contents ql))))
            × Holds ql' (keep (λ x. not (expected x)) (contents ql)))
  unfolding remove_all_by_val
  remove_all_by_val_lem fuel ql expected h enough = elim (Bool-cases (ltb 0 ql.size)) [
    | inr e ↦
        let out : leb ql.size 0 ≡ true = ground (arith, e) in
        inl (no_contents (contents ql) (ground (arith, e, h.counted)), rw (find, out, ◌>>=◌))
    | inl e ↦
        let (iter, found, st) = find-Stands ql 0 h (ground (arith, e)) in
        let all : sweep expected (λ r. false) 0 (contents ql) ≡ removal expected 0 (contents ql) =
          sweep_never expected (λ r. false) 0 (contents ql) (λ r. refl)
          ∙ ap (λ t. (keep (λ x. not (expected x)) (contents ql), t)) (omega arith) in
        let (ql', runs, holds) =
          remove_loop_lem fuel expected (λ r. false) ql 0 iter 0 h
            (inr (Stands-At ql.pages 0 iter st)) (omega (arith, h.counted, enough)) (omega arith) in
        inr (
          ql',
          ground (arith, e, h.counted),
          rw (found, ◌>>=◌) (runs ∙ ap (λ t. some (ql', t.1)) all),
          (holds.0, holds.1 ∙ ap (λ t. t.0) all),
        )
  ]
