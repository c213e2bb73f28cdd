-- ===== src/QuickList/Reads.antt =====
-- The two searches of `find`, and `Get`.
use hayakv.Base.{
  ℕ, zero, suc, ◌+◌, ◌-◌, ◌/◌, ◌≤◌, ◌<◌, ◌≡◌, refl, ap, sym, ◌∙◌, inl, inr, true, false, none, some,
  List, [], ◌∷◌, ◌++◌, arith, length, get_elem?, take, reverse, length-append, length-reverse,
  reverse-reverse, ltb, leb, Bool-cases, ◌>>=◌,
}
use mathlib.Core.Path.{subst}
use hayakv.QuickList.{Page, QuickList, Iterator, find_front, find_back, find, get_at, get}
use hayakv.QuickList.Pages.{
  contents_of, contents, IsValid, before, after, contents-append, contents-around, get_elem?-middle,
}

module _ {ℓ} {A : Type ℓ} where
  -- `iter` stands on the element of that index
  pub record Stands (ps : List (Page A)) (index : ℕ) (iter : Iterator) : Type ℓ where
    pub at_page : Page A
    pub at_offset : ℕ
    pub here : get_elem? ps iter.node ≡ some at_page
    pub off : iter.offset ≡ some at_offset
    pub sum : length (before iter.node ps) + at_offset ≡ index
    pub inside : at_offset < length at_page.items

  find_front_lem :
      (ps : List (Page A)) (n beg index : ℕ)
      → beg ≤ index
      → index < beg + length (contents_of ps)
      → (k : ℕ) × (p : Page A) × (o : ℕ) × (find_front ps n beg index
          ≡ some (record { node = n + k; offset = some o }))
        × (get_elem? ps k ≡ some p)
        × (beg + length (before k ps) + o ≡ index)
        × (o < length p.items)
  unfolding find_front contents_of before
  find_front_lem [] n beg index h lt = absurd (omega arith)
  find_front_lem (p ∷ ps) n beg index h lt = elim (Bool-cases (ltb index (beg + length p.items))) [
    | inl e ↦
        let same : n + 0 ≡ n = omega arith in
        (0, p, index - beg, rw (e, same), refl, omega (arith, h), ground (arith, e, h))
    | inr e ↦
        let past : beg + length p.items ≤ index = ground (arith, e) in
        let (k, q, o, found, here, sum, inside) =
          find_front_lem ps (n + 1) (beg + length p.items) index past
            (omega (arith, lt, length-append p.items (contents_of ps))) in
        let moved : n + 1 + k ≡ n + suc k = omega arith in
        (
          suc k,
          q,
          o,
          rw (e, ← moved) found,
          here,
          omega (arith, sum, length-append p.items (contents_of (take k ps))),
          inside,
        )
  ]

  get_elem?-lt : (xs : List (Page A)) (k : ℕ) (p : Page A) → get_elem? xs k ≡ some p → k < length xs
  get_elem?-lt [] k p h = absurd (ground (arith, h))
  get_elem?-lt (x ∷ xs) zero p h = omega arith
  get_elem?-lt (x ∷ xs) (suc k) p h = omega (arith, get_elem?-lt xs k p h)

  get_elem?-append :
      (xs ys : List (Page A)) (k : ℕ) → k < length xs → get_elem? (xs ++ ys) k ≡ get_elem? xs k
  get_elem?-append [] ys k h = absurd (omega arith)
  get_elem?-append (x ∷ xs) ys zero h = refl
  get_elem?-append (x ∷ xs) ys (suc k) h = get_elem?-append xs ys k (omega arith)

  get_elem?-append_last :
      (xs : List (Page A)) (p : Page A) → get_elem? (xs ++ (p ∷ [])) (length xs) ≡ some p
  get_elem?-append_last [] p = refl
  get_elem?-append_last (x ∷ xs) p = get_elem?-append_last xs p

  take-append_left : (xs ys : List (Page A)) (k : ℕ) → k ≤ length xs → take k (xs ++ ys) ≡ take k xs
  take-append_left xs ys zero h = refl
  take-append_left [] ys (suc k) h = absurd (omega arith)
  take-append_left (x ∷ xs) ys (suc k) h = ap (λ t. x ∷ t) (take-append_left xs ys k (omega arith))

  take_all : (xs : List (Page A)) → take (length xs) xs ≡ xs
  take_all [] = refl
  take_all (x ∷ xs) = ap (λ t. x ∷ t) (take_all xs)

  contents_last :
      (xs : List (Page A)) (p : Page A)
      → length (contents_of (xs ++ (p ∷ []))) ≡ length (contents_of xs) + length p.items
  unfolding contents_of
  contents_last xs p =
      rw (contents-append xs (p ∷ []))
        (omega (arith, length-append (contents_of xs) (p.items ++ []), length-append p.items []))

  find_back_lem :
      (rs : List (Page A)) (n beg index : ℕ)
      → n ≡ length rs
      → beg ≡ length (contents_of (reverse rs))
      → index < beg
      → (k : ℕ) × (p : Page A) × (o : ℕ) × (find_back rs n beg index
          ≡ some (record { node = k; offset = some o }))
        × (get_elem? (reverse rs) k ≡ some p)
        × (length (before k (reverse rs)) + o ≡ index)
        × (o < length p.items)
  unfolding find_back before contents_of
  find_back_lem [] n beg index e f lt = absurd (omega (arith, f, lt))
  find_back_lem (p ∷ rs) n beg index e f lt =
      let size = contents_last (reverse rs) p in
      let front = length (contents_of (reverse rs)) in
      let beg' : beg - length p.items ≡ front = omega (arith, f, size) in
      let count : n - 1 ≡ length rs = omega (arith, e) in
      elim (Bool-cases (leb front index)) [
        | inl h ↦
            let whole : take (length rs) (reverse rs ++ (p ∷ [])) ≡ reverse rs =
              rw (← length-reverse rs) (
                take-append_left (reverse rs) (p ∷ []) (length (reverse rs)) (omega arith)
                ∙ take_all (reverse rs)) in
            (
              length rs,
              p,
              index - front,
              rw (beg', count, h),
              rw (← length-reverse rs) (get_elem?-append_last (reverse rs) p),
              rw whole (ground (arith, h)),
              ground (arith, h, f, size, lt),
            )
        | inr h ↦
            let (k, q, o, found, here, sum, inside) =
              find_back_lem rs (length rs) front index refl refl (ground (arith, h)) in
            let small = get_elem?-lt (reverse rs) k q here in
            (
              k,
              q,
              o,
              rw (beg', count, h) found,
              get_elem?-append (reverse rs) (p ∷ []) k small ∙ here,
              rw (take-append_left (reverse rs) (p ∷ []) k (omega (arith, small))) sum,
              inside,
            )
      ]

  -- `find` stands on the element of the index, from whichever side it searched.
  pub find-Stands :
      (ql : QuickList A) (index : ℕ)
      → IsValid ql
      → index < ql.size
      → (iter : Iterator) × (find ql index ≡ some iter) × Stands ql.pages index iter
  unfolding find
  find-Stands ql index h lt =
      let here : leb ql.size index ≡ false = ground (arith, lt) in
      elim (Bool-cases (ltb index (ql.size / 2))) [
        | inl e ↦
            let (k, p, o, found, got, sum, inside) =
              find_front_lem ql.pages 0 0 index (omega arith) (omega (arith, h.counted, lt)) in
            let same : 0 + k ≡ k = omega arith in
            (
              record { node = k; offset = some o },
              rw (here, e, ← same) found,
              record {
                at_page = p;
                at_offset = o;
                here = got;
                off = refl;
                sum = omega (arith, sum);
                inside = inside;
              },
            )
        | inr e ↦
            let (k, p, o, found, got, sum, inside) =
              find_back_lem (reverse ql.pages) (length ql.pages) ql.size index
                (sym (length-reverse ql.pages))
                (h.counted ∙ ap (λ t. length (contents_of t)) (sym (reverse-reverse ql.pages)))
                lt in
            (
              record { node = k; offset = some o },
              rw (here, e) found,
              record {
                at_page = p;
                at_offset = o;
                here = subst (λ t. get_elem? t k ≡ some p) (reverse-reverse ql.pages) got;
                off = refl;
                sum = subst (λ t. length (before k t) + o ≡ index) (reverse-reverse ql.pages) sum;
                inside = inside;
              },
            )
      ]

  -- the value under an iterator
  pub get_at-Stands :
      (ql : QuickList A) (index : ℕ) (iter : Iterator)
      → Stands ql.pages index iter
      → get_at ql iter ≡ get_elem? (contents ql) index
  unfolding get_at
  get_at-Stands ql index iter s =
      rw (s.here, s.off, ◌>>=◌)
        (sym (
          rw (contents-around iter.node ql.pages s.at_page s.here, ← s.sum)
            (get_elem?-middle (before iter.node ql.pages) s.at_page.items (after iter.node ql.pages)
              s.at_offset s.inside)))

  pub past_end : (xs : List A) (i : ℕ) → length xs ≤ i → get_elem? xs i ≡ none
  past_end [] i h = refl
  past_end (x ∷ xs) zero h = absurd (omega arith)
  past_end (x ∷ xs) (suc i) h = past_end xs i (omega arith)

  -- `Get` returns the element of the index, and panics exactly where the list has none.
  pub get-get_elem? :
      (ql : QuickList A) (index : ℕ) → IsValid ql → get ql index ≡ get_elem? (contents ql) index
  unfolding get
  get-get_elem? ql index h = elim (Bool-cases (ltb index ql.size)) [
    | inl e ↦
        let (iter, found, s) = find-Stands ql index h (ground (arith, e)) in
        rw (found, ◌>>=◌) (get_at-Stands ql index iter s)
    | inr e ↦
        let out : leb ql.size index ≡ true = ground (arith, e) in
        rw (find, out) (sym (past_end (contents ql) index (ground (arith, e, h.counted))))
  ]
