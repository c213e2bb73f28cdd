-- ===== src/QuickList/Loops.antt =====
-- `ForEach`, `Contains` and `Range` against functions on the list of the elements.
use hayakv.Base.{
  some_item, ℕ, zero, suc, ◌+◌, ◌-◌, ◌≤◌, ◌<◌, ◌≡◌, refl, ap, sym, ◌∙◌, inl, inr, Bool, true, false,
  ◌||◌, ◌&&◌, none, some, List, [], ◌∷◌, ◌++◌, arith, length, get_elem?, take, drop, ltb, leb,
  nat_eq, if◌then◌else◌, Bool-cases, ◌>>=◌,
}
use mathlib.Core.List.{append_assoc, append-nil}
use hayakv.QuickList.{QuickList, Iterator, get_at}
use hayakv.QuickList.Pages.{contents, IsValid}
use hayakv.QuickList.Reads.{find-Stands, get_at-Stands}
use hayakv.QuickList.Moves.{At, Stands-At, At-Stands, next-At}
use hayakv.QuickList.Scans.{for_each_loop, for_each, spot, contains, range_loop, range}

module _ {ℓ} {A : Type ℓ} where
  pub drop_at :
      (k : ℕ) (xs : List A) (v : A) → get_elem? xs k ≡ some v → drop k xs ≡ v ∷ drop (k + 1) xs
  drop_at k [] v h = absurd (ground (arith, h))
  drop_at zero (x ∷ xs) v h = let e : x ≡ v = cc in ap (λ t. t ∷ xs) e
  drop_at (suc k) (x ∷ xs) v h =
      let e : suc k + 1 ≡ suc (k + 1) = omega arith in rw e (drop_at k xs v h)

  pub empty_drop : (n : ℕ) (xs : List A) → length xs ≤ n → drop n xs ≡ []
  empty_drop zero [] le = refl
  empty_drop (suc n) [] le = refl
  empty_drop zero (x ∷ xs) le = absurd (omega arith)
  empty_drop (suc n) (x ∷ xs) le = empty_drop n xs (omega arith)

  pub no_contents : (xs : List A) → length xs ≡ 0 → xs ≡ []
  no_contents [] z = refl
  no_contents (x ∷ xs) z = absurd (omega arith)

  -- the element under an iterator that is not behind the last one
  pub get_at-At :
      (ql : QuickList A) (k : ℕ) (iter : Iterator)
      → At ql.pages k iter
      → k < length (contents ql)
      → (v : A) × (get_at ql iter ≡ some v) × (get_elem? (contents ql) k ≡ some v)
  get_at-At ql k iter a lt =
      let (v, found) = some_item (contents ql) k lt in
      (v, get_at-Stands ql k iter (At-Stands ql.pages k iter a lt) ∙ found, found)

module _ {ℓ ℓ'} {A : Type ℓ} {S : Type ℓ'} where
  -- the consumer on one element after the other, until it returns false
  unfoldable pub visit : (ℕ → A → S → S × Bool) → ℕ → List A → S → S
  visit consumer i [] s = s
  visit consumer i (x ∷ xs) s =
      let rest = visit consumer (i + 1) xs (consumer i x s).0 in
      if (consumer i x s).1 then rest else (consumer i x s).0

  for_each_loop_lem :
      (fuel : ℕ) (ql : QuickList A) (consumer : ℕ → A → S → S × Bool) (i k : ℕ) (iter : Iterator)
      (s : S)
      → IsValid ql
      → At ql.pages k iter
      → k < length (contents ql)
      → length (contents ql) ≤ k + fuel
      → for_each_loop fuel ql consumer i iter s ≡ some (visit consumer i (drop k (contents ql)) s)
  unfolding for_each_loop visit
  for_each_loop_lem zero ql consumer i k iter s h a lt enough = absurd (omega (arith, lt, enough))
  for_each_loop_lem (suc fuel) ql consumer i k iter s h a lt enough =
      let (v, got, found) = get_at-At ql k iter a lt in
      let (iter', moved, a') = next-At ql k iter h a lt in
      rw (drop_at k (contents ql) v found, got, ◌>>=◌)
        (elim (Bool-cases (consumer i v s).1) [
          | inr e ↦ rw e
          | inl e ↦ elim (Bool-cases (ltb (k + 1) (length (contents ql)))) [
            | inl f ↦
                rw (e, moved, f)
                  (for_each_loop_lem fuel ql consumer (i + 1) (k + 1) iter' (consumer i v s).0 h a'
                    (ground (arith, f)) (omega (arith, enough)))
            | inr f ↦ rw (e, moved, f, empty_drop (k + 1) (contents ql) (ground (arith, f)))
          ]
        ])

  -- `ForEach` shows the consumer the elements in order with their indices and stops when it returns
  -- false; fuel for each element is enough.
  pub for_each_lem :
      (fuel : ℕ) (ql : QuickList A) (consumer : ℕ → A → S → S × Bool) (s : S)
      → IsValid ql
      → ql.size ≤ fuel
      → for_each fuel ql consumer s ≡ some (visit consumer 0 (contents ql) s)
  unfolding for_each visit
  for_each_lem fuel ql consumer s h enough = elim (Bool-cases (nat_eq ql.size 0)) [
    | inl e ↦ rw (for_each, e, no_contents (contents ql) (ground (arith, e, h.counted)))
    | inr e ↦
        let (iter, found, st) = find-Stands ql 0 h (ground (arith, e)) in
        rw (for_each, e, found, ◌>>=◌)
          (for_each_loop_lem fuel ql consumer 0 0 iter s h (Stands-At ql.pages 0 iter st)
            (ground (arith, e, h.counted)) (omega (arith, h.counted, enough)))
  ]

module _ {ℓ} {A : Type ℓ} where
  -- an element that passes
  unfoldable pub has : (A → Bool) → List A → Bool
  has expected [] = false
  has expected (x ∷ xs) = expected x || has expected xs

  visit-spot :
      (expected : A → Bool) (i : ℕ) (xs : List A)
      → visit (spot expected) i xs false ≡ has expected xs
  unfolding visit has
  visit-spot expected i [] = refl
  visit-spot expected i (x ∷ xs) = elim (Bool-cases (expected x)) [
    | inl e ↦ rw e
    | inr e ↦ rw e (visit-spot expected (i + 1) xs)
  ]

  -- `Contains` tells whether some element passes the test.
  pub contains-has :
      (fuel : ℕ) (ql : QuickList A) (expected : A → Bool)
      → IsValid ql
      → ql.size ≤ fuel
      → contains fuel ql expected ≡ some (has expected (contents ql))
  unfolding contains
  contains-has fuel ql expected h enough =
      for_each_lem fuel ql (spot expected) false h enough
      ∙ ap some (visit-spot expected 0 (contents ql))

  range_loop_lem :
      (n : ℕ) (ql : QuickList A) (k : ℕ) (iter : Iterator) (slice : List A)
      → IsValid ql
      → At ql.pages k iter
      → k + n ≤ length (contents ql)
      → range_loop n ql iter slice ≡ some (slice ++ take n (drop k (contents ql)))
  unfolding range_loop
  range_loop_lem zero ql k iter slice h a le = ap some (sym (append-nil slice))
  range_loop_lem (suc n) ql k iter slice h a le =
      let lt : k < length (contents ql) = omega (arith, le) in
      let (v, got, found) = get_at-At ql k iter a lt in
      let (iter', moved, a') = next-At ql k iter h a lt in
      rw (drop_at k (contents ql) v found, got, ◌>>=◌, moved)
        (range_loop_lem n ql (k + 1) iter' (slice ++ (v ∷ [])) h a' (omega (arith, le))
          ∙ ap some (append_assoc slice (v ∷ []) (take n (drop (k + 1) (contents ql)))))

  -- `Range` returns the elements from `start` up to `stop`, and panics exactly if `start` is no index of
  -- the list or `stop` is below it or beyond the length.
  pub range-take-drop :
      (ql : QuickList A) (start stop : ℕ)
      → IsValid ql
      → range ql start stop ≡ (
          if ltb start ql.size && leb start stop && leb stop ql.size
          then some (take (stop - start) (drop start (contents ql)))
          else none)
  unfolding range
  range-take-drop ql start stop h = elim (Bool-cases (ltb start ql.size)) [
    | inr e ↦ let out : leb ql.size start ≡ true = ground (arith, e) in rw (range, out, e)
    | inl e ↦
        let here : leb ql.size start ≡ false = ground (arith, e) in
        elim (Bool-cases (ltb stop start || ltb ql.size stop)) [
          | inl f ↦
              let bad : (leb start stop && leb stop ql.size) ≡ false = ground (arith, f) in
              rw (range, here, f, e, bad)
          | inr f ↦
              let good : (leb start stop && leb stop ql.size) ≡ true = ground (arith, f) in
              let (iter, found, s) = find-Stands ql start h (ground (arith, e)) in
              rw (found, here, f, e, good, ◌>>=◌)
                (range_loop_lem (stop - start) ql start iter [] h (Stands-At ql.pages start iter s)
                  (ground (arith, e, f, h.counted)))
        ]
  ]
