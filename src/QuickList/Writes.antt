-- ===== src/QuickList/Writes.antt =====
-- `Add`, `Set` and `Insert` against the list of the elements.
use hayakv.Base.{
  ℕ, zero, suc, ◌+◌, ◌-◌, ◌/◌, ◌≤◌, ◌<◌, ◌≡◌, refl, ap, sym, ◌∙◌, ◌⊎◌, inl, inr, true, none, some,
  List, [], ◌∷◌, ◌++◌, arith, length, set, take, drop, length-append, length-take, length-drop,
  length-set, take-append-drop, ltb, leb, nat_eq, Bool-cases, ◌>>=◌, All,
}
use mathlib.Core.List.{append_assoc, append-nil}
use hayakv.QuickList.{
  Page, QuickList, Iterator, add_page, add, find, set_val, insert_in, insert_after, split_page,
  insert_at_iter, insert, page_size,
}
use hayakv.QuickList.Pages.{
  contents_of, contents, IsValid, before, after, contents-around, contents-set,
  contents-insert_after, take-middle, drop-middle, set-middle,
}
use hayakv.QuickList.Reads.{Stands, find-Stands}

module _ {ℓ} {A : Type ℓ} where
  -- a valid list with these elements
  abbrev pub Holds : QuickList A → List A → Type ℓ
  Holds ql xs = IsValid ql × (contents ql ≡ xs)

  -- the elements with one more before index `i`
  abbrev pub inserted : ℕ → A → List A → List A
  inserted i v xs = take i xs ++ (v ∷ drop i xs)

  pub All-set :
      (n : ℕ) (ps : List (Page A)) (q : Page A)
      → All (λ p. 0 < length p.items) ps
      → 0 < length q.items
      → All (λ p. 0 < length p.items) (set ps n q)
  All-set n [] q h k = tt
  All-set zero (p ∷ ps) q h k = (k, h.1)
  All-set (suc n) (p ∷ ps) q h k = (h.0, All-set n ps q h.1 k)

  All-insert_after :
      (n : ℕ) (ps : List (Page A)) (q : Page A)
      → All (λ p. 0 < length p.items) ps
      → 0 < length q.items
      → All (λ p. 0 < length p.items) (insert_after n q ps)
  All-insert_after n [] q h k = tt
  All-insert_after zero (p ∷ ps) q h k = (h.0, (k, h.1))
  All-insert_after (suc n) (p ∷ ps) q h k = (h.0, All-insert_after n ps q h.1 k)

  add_page-contents :
      (grow : ℕ → ℕ → ℕ) (ps : List (Page A)) (val : A)
      → contents_of (add_page grow ps val) ≡ contents_of ps ++ (val ∷ [])
  unfolding contents_of add_page
  add_page-contents grow [] val = refl
  add_page-contents grow (p ∷ []) val = elim (Bool-cases (nat_eq (length p.items) p.cap)) [
    | inl e ↦ rw (e, append-nil p.items)
    | inr e ↦ rw (e, append-nil p.items, append-nil (p.items ++ (val ∷ [])))
  ]
  add_page-contents grow (p ∷ q ∷ ps) val =
      ap (λ t. p.items ++ t) (add_page-contents grow (q ∷ ps) val)
      ∙ sym (append_assoc p.items (contents_of (q ∷ ps)) (val ∷ []))

  add_page-All :
      (grow : ℕ → ℕ → ℕ) (ps : List (Page A)) (val : A)
      → All (λ p. 0 < length p.items) ps
      → All (λ p. 0 < length p.items) (add_page grow ps val)
  unfolding add_page
  add_page-All grow [] val h = (omega arith, tt)
  add_page-All grow (p ∷ []) val h = elim (Bool-cases (nat_eq (length p.items) p.cap)) [
    | inl e ↦ rw e (h.0, (omega arith, tt))
    | inr e ↦ rw e (omega (arith, length-append p.items (val ∷ [])), tt)
  ]
  add_page-All grow (p ∷ q ∷ ps) val h = (h.0, add_page-All grow (q ∷ ps) val h.1)

  -- `Add` puts the value at the end.
  pub add_lem :
      (grow : ℕ → ℕ → ℕ) (ql : QuickList A) (val : A)
      → IsValid ql
      → Holds (add grow ql val) (contents ql ++ (val ∷ []))
  unfolding add
  add_lem grow ql val h =
      let same = add_page-contents grow ql.pages val in
      (
        record {
          filled = add_page-All grow ql.pages val h.filled;
          counted = rw same (omega (arith, h.counted, length-append (contents ql) (val ∷ [])));
        },
        same,
      )

  -- `Set` overwrites the element of an index, and panics past the end.
  pub set_val_lem :
      (ql : QuickList A) (index : ℕ) (val : A)
      → IsValid ql
      → ((ql.size ≤ index) × (set_val ql index val ≡ none))
        ⊎ ((ql' : QuickList A) × (index < ql.size)
            × (set_val ql index val ≡ some ql')
            × Holds ql' (set (contents ql) index val))
  unfolding set_val
  set_val_lem ql index val h = elim (Bool-cases (ltb index ql.size)) [
    | inr e ↦
        let out : leb ql.size index ≡ true = ground (arith, e) in
        inl (ground (arith, e), rw (find, out, ◌>>=◌))
    | inl e ↦
        let (iter, found, s) = find-Stands ql index h (ground (arith, e)) in
        let p = s.at_page in
        let p' : Page A = record p { items = set p.items s.at_offset val } in
        let around = contents-around iter.node ql.pages p s.here in
        let same : contents_of (set ql.pages iter.node p') ≡ set (contents ql) index val =
          contents-set iter.node ql.pages p p' s.here
          ∙ sym (
              rw (around, ← s.sum)
                (set-middle (before iter.node ql.pages) p.items (after iter.node ql.pages)
                  s.at_offset val s.inside)) in
        inr (
          record ql { pages = set ql.pages iter.node p' },
          ground (arith, e),
          rw (found, ◌>>=◌, s.here, s.off),
          (
            record {
              filled =
                  All-set iter.node ql.pages p' h.filled
                    (omega (arith, length-set p.items s.at_offset val, s.inside));
              counted = rw same (omega (arith, h.counted, length-set (contents ql) index val));
            },
            same,
          ),
        )
  ]

  -- the widened slice with the value written into the gap
  inserted_items :
      (o : ℕ) (v : A) (xs : List A)
      → o < length xs
      → set (take (o + 1) xs ++ drop o xs) o v ≡ inserted o v xs
  inserted_items o v [] h = absurd (omega arith)
  inserted_items zero v (x ∷ xs) h = refl
  inserted_items (suc o) v (x ∷ xs) h =
      let e : suc o + 1 ≡ suc (o + 1) = omega arith in
      rw e (ap (λ t. x ∷ t) (inserted_items o v xs (omega arith)))

  length-inserted : (o : ℕ) (v : A) (xs : List A) → length (inserted o v xs) ≡ length xs + 1
  length-inserted o v xs =
      omega (arith, length-append (take o xs) (v ∷ drop o xs), length-take o xs, length-drop o xs)

  inserted_front :
      (o k : ℕ) (v : A) (xs : List A)
      → o ≤ k
      → inserted o v (take k xs) ++ drop k xs ≡ inserted o v xs
  inserted_front zero k v xs h = ap (λ t. v ∷ t) (take-append-drop k xs)
  inserted_front (suc o) zero v xs h = absurd (omega arith)
  inserted_front (suc o) (suc k) v [] h = refl
  inserted_front (suc o) (suc k) v (x ∷ xs) h =
      ap (λ t. x ∷ t) (inserted_front o k v xs (omega arith))

  inserted_back :
      (k j : ℕ) (v : A) (xs : List A)
      → k ≤ length xs
      → take k xs ++ inserted j v (drop k xs) ≡ inserted (k + j) v xs
  inserted_back zero j v xs h = let e : 0 + j ≡ j = omega arith in rw e
  inserted_back (suc k) j v [] h = absurd (omega arith)
  inserted_back (suc k) j v (x ∷ xs) h =
      let e : suc k + j ≡ suc (k + j) = omega arith in
      rw e (ap (λ t. x ∷ t) (inserted_back k j v xs (omega arith)))

  inserted_last : (v : A) (xs : List A) → inserted (length xs) v xs ≡ xs ++ (v ∷ [])
  inserted_last v [] = refl
  inserted_last v (x ∷ xs) = ap (λ t. x ∷ t) (inserted_last v xs)

  inserted-middle :
      (xs ys zs : List A) (o : ℕ) (v : A)
      → o < length ys
      → xs ++ (inserted o v ys ++ zs) ≡ inserted (length xs + o) v (xs ++ (ys ++ zs))
  inserted-middle xs ys zs o v h =
      rw (take-middle xs ys zs o (omega (arith, h)), drop-middle xs ys zs o (omega (arith, h)))
        (simp append_assoc)

  -- the two parts of a split page hold its elements, the value among them
  split_page-items :
      (grow : ℕ → ℕ → ℕ) (half : ℕ) (p : Page A) (o : ℕ) (v : A)
      → 0 < half
      → half < length p.items
      → o < length p.items
      → let parts = split_page grow half p o v in
        (parts.0.items ++ parts.1.items ≡ inserted o v p.items)
        × (0 < length parts.0.items)
        × (0 < length parts.1.items)
  unfolding split_page
  split_page-items grow half p o v h k l =
      let xs = p.items in
      let front = length-take half xs in
      let back = length-drop half xs in
      elim (Bool-cases (ltb o (length (take half xs)))) [
        | inl e ↦
            let low : o < length (take half xs) = ground (arith, e) in
            rw (split_page, e, inserted_items o v (take half xs) low)
              (
                inserted_front o half v xs (omega (arith, low, front)),
                omega (arith, length-inserted o v (take half xs)),
                omega (arith, back, k),
              )
        | inr e ↦
            let high : half ≤ o = ground (arith, e, front, k) in
            let sum : half + (o - half) ≡ o = omega (arith, high) in
            let low : o - half < length (drop half xs) = omega (arith, back, l, high, k) in
            rw (split_page, e, inserted_items (o - half) v (drop half xs) low)
              (
                inserted_back half (o - half) v xs (omega (arith, k))
                    ∙ ap (λ i. inserted i v xs) sum,
                omega (arith, front, k, h),
                omega (arith, length-inserted (o - half) v (drop half xs)),
              )
      ]

  insert_at_iter-Holds :
      (grow : ℕ → ℕ → ℕ) (ql : QuickList A) (index : ℕ) (iter : Iterator) (v : A)
      → IsValid ql
      → (s : Stands ql.pages index iter)
      → Holds
          (insert_at_iter grow ql iter.node s.at_page s.at_offset v)
          (inserted index v (contents ql))
  unfolding insert_at_iter
  insert_at_iter-Holds grow ql index iter v h s =
      let n = iter.node in
      let p = s.at_page in
      let o = s.at_offset in
      let whole : before n ql.pages ++ (inserted o v p.items ++ after n ql.pages)
          ≡ inserted index v (contents ql) =
        inserted-middle (before n ql.pages) p.items (after n ql.pages) o v s.inside
        ∙ (ap (λ i. inserted i v (before n ql.pages ++ (p.items ++ after n ql.pages))) s.sum
            ∙ ap (inserted index v) (sym (contents-around n ql.pages p s.here))) in
      let size : ql.size + 1 ≡ length (inserted index v (contents ql)) =
        omega (arith, h.counted, length-inserted index v (contents ql)) in
      elim (Bool-cases (ltb (length p.items) page_size)) [
        | inl e ↦
            let items = inserted_items o v p.items s.inside in
            let p' = insert_in grow p o v in
            let same =
              contents-set n ql.pages p p' s.here
              ∙ (ap (λ t. before n ql.pages ++ (t ++ after n ql.pages)) items ∙ whole) in
            rw e (
              record {
                filled =
                    All-set n ql.pages p' h.filled
                      (rw items (omega (arith, length-inserted o v p.items)));
                counted = rw same size;
              },
              same,
            )
        | inr e ↦
            let parts = split_page grow (page_size / 2) p o v in
            let long : page_size ≤ length p.items = ground (arith, e) in
            let (items, front, back) =
              split_page-items grow (page_size / 2) p o v (omega arith) (omega (arith, long))
                s.inside in
            let same : contents_of (insert_after n parts.1 (set ql.pages n parts.0))
                ≡ inserted index v (contents ql) =
              contents-insert_after n ql.pages p parts.0 parts.1 s.here
              ∙ (ap (λ t. before n ql.pages ++ t)
                    (sym (append_assoc parts.0.items parts.1.items (after n ql.pages)))
                  ∙ (ap (λ t. before n ql.pages ++ (t ++ after n ql.pages)) items ∙ whole)) in
            rw e (
              record {
                filled =
                    All-insert_after n (set ql.pages n parts.0) parts.1
                      (All-set n ql.pages parts.0 h.filled front) back;
                counted = rw same size;
              },
              same,
            )
      ]

  -- `Insert` puts the value before the element of an index, or at the end for the size, whether it has
  -- to split a page or not and whatever capacities the runtime chooses; it panics past the size.
  pub insert_lem :
      (grow : ℕ → ℕ → ℕ) (ql : QuickList A) (index : ℕ) (val : A)
      → IsValid ql
      → ((ql.size < index) × (insert grow ql index val ≡ none))
        ⊎ ((ql' : QuickList A) × (index ≤ ql.size)
            × (insert grow ql index val ≡ some ql')
            × Holds ql' (inserted index val (contents ql)))
  unfolding insert
  insert_lem grow ql index val h = elim (Bool-cases (nat_eq index ql.size)) [
    | inl e ↦
        let at_end : index ≡ length (contents ql) = ground (arith, e, h.counted) in
        inr (
          add grow ql val,
          ground (arith, e),
          rw e,
          rw (at_end, inserted_last val (contents ql)) (add_lem grow ql val h),
        )
    | inr e ↦ elim (Bool-cases (ltb index ql.size)) [
      | inr f ↦
          let out : leb ql.size index ≡ true = ground (arith, f) in
          inl (ground (arith, e, f), rw (e, find, out, ◌>>=◌))
      | inl f ↦
          let (iter, found, s) = find-Stands ql index h (ground (arith, f)) in
          inr (
            insert_at_iter grow ql iter.node s.at_page s.at_offset val,
            ground (arith, f),
            rw (e, found, ◌>>=◌, s.here, s.off),
            insert_at_iter-Holds grow ql index iter val h s,
          )
    ]
  ]
