-- ===== src/QuickList/Moves.antt =====
-- Where an iterator stands, and how it moves.
use hayakv.Base.{
  ℕ, zero, suc, ◌+◌, ◌-◌, ◌<◌, ◌≡◌, refl, ap, ◌∙◌, ◌⊎◌, inl, inr, true, false, none, some, List, [],
  ◌∷◌, ◌++◌, arith, length, get_elem?, take, length-append, ltb, leb, nat_eq, Bool-cases, ◌>>=◌,
  All,
}
use hayakv.QuickList.{Page, QuickList, Iterator, next_in, next, prev, prev_page, at_end}
use hayakv.QuickList.Pages.{contents_of, contents, IsValid, before, after, contents-around}
use hayakv.QuickList.Reads.{Stands}

module _ {ℓ} {A : Type ℓ} where
  -- `iter` stands before the element of index `k`, on the last page also behind all elements
  pub record At (ps : List (Page A)) (k : ℕ) (iter : Iterator) : Type ℓ where
    pub at_page : Page A
    pub at_offset : ℕ
    pub here : get_elem? ps iter.node ≡ some at_page
    pub off : iter.offset ≡ some at_offset
    pub sum : length (before iter.node ps) + at_offset ≡ k
    pub inside :
        (at_offset < length at_page.items)
        ⊎ ((at_offset ≡ length at_page.items) × (suc iter.node ≡ length ps))

  pub Stands-At : (ps : List (Page A)) (k : ℕ) (iter : Iterator) → Stands ps k iter → At ps k iter
  Stands-At ps k iter s = record {
    at_page = s.at_page;
    at_offset = s.at_offset;
    here = s.here;
    off = s.off;
    sum = s.sum;
    inside = inl s.inside;
  }

  pub get_elem?_lt :
      (n : ℕ) (ps : List (Page A)) (p : Page A) → get_elem? ps n ≡ some p → n < length ps
  get_elem?_lt n [] p h = absurd (ground (arith, h))
  get_elem?_lt zero (q ∷ ps) p h = omega arith
  get_elem?_lt (suc n) (q ∷ ps) p h = omega (arith, get_elem?_lt n ps p h)

  pub nth_page :
      (n : ℕ) (ps : List (Page A))
      → All (λ p. 0 < length p.items) ps
      → n < length ps
      → (p : Page A) × (get_elem? ps n ≡ some p) × (0 < length p.items)
  nth_page n [] a h = absurd (omega arith)
  nth_page zero (p ∷ ps) a h = (p, refl, a.0)
  nth_page (suc n) (p ∷ ps) a h = nth_page n ps a.1 (omega arith)

  pub before-suc :
      (n : ℕ) (ps : List (Page A)) (p : Page A)
      → get_elem? ps n ≡ some p
      → length (before (suc n) ps) ≡ length (before n ps) + length p.items
  unfolding before contents_of
  before-suc n [] p h = absurd (ground (arith, h))
  before-suc zero (q ∷ ps) p h =
      let e : q ≡ p = cc in rw e (omega (arith, length-append p.items []))
  before-suc (suc n) (q ∷ ps) p h = omega (
    arith,
    length-append q.items (contents_of (take (suc n) ps)),
    length-append q.items (contents_of (take n ps)),
    before-suc n ps p h,
  )

  pub after_last : (n : ℕ) (ps : List (Page A)) → suc n ≡ length ps → length (after n ps) ≡ 0
  unfolding after contents_of
  after_last n [] h = absurd (omega arith)
  after_last zero (p ∷ []) h = refl
  after_last zero (p ∷ q ∷ ps) h = absurd (omega arith)
  after_last (suc n) (p ∷ ps) h = after_last n ps (omega arith)

  pub length-around :
      (n : ℕ) (ps : List (Page A)) (p : Page A)
      → get_elem? ps n ≡ some p
      → length (contents_of ps) ≡ length (before n ps) + (length p.items + length (after n ps))
  length-around n ps p h = rw (contents-around n ps p h) (
      omega (
        arith,
        length-append (before n ps) (p.items ++ after n ps),
        length-append p.items (after n ps),
      ))

  -- an iterator that is not behind all elements is inside its page
  pub At-inside :
      (ps : List (Page A)) (k : ℕ) (iter : Iterator)
      → (a : At ps k iter) → k < length (contents_of ps)
      → a.at_offset < length a.at_page.items
  At-inside ps k iter a lt = elim a.inside [
    | inl h ↦ h
    | inr (e, last) ↦ absurd (
        omega (
          arith,
          length-around iter.node ps a.at_page a.here,
          after_last iter.node ps last,
          a.sum,
          e,
          lt,
        ))
  ]

  pub At-Stands :
      (ps : List (Page A)) (k : ℕ) (iter : Iterator)
      → At ps k iter
      → k < length (contents_of ps)
      → Stands ps k iter
  At-Stands ps k iter a lt = record {
    at_page = a.at_page;
    at_offset = a.at_offset;
    here = a.here;
    off = a.off;
    sum = a.sum;
    inside = At-inside ps k iter a lt;
  }

  -- where an iterator is when its list may have become empty
  abbrev pub Rests : List (Page A) → ℕ → Iterator → Type ℓ
  Rests ps k iter =
      ((ps ≡ []) × (k ≡ 0) × (iter ≡ record { node = 0; offset = some 0 })) ⊎ At ps k iter

  at_end-At :
      (ql : QuickList A) (k : ℕ) (iter : Iterator)
      → At ql.pages k iter
      → at_end ql iter ≡ leb (length (contents ql)) k
  unfolding at_end
  at_end-At ql k iter a =
      let around = length-around iter.node ql.pages a.at_page a.here in
      let there : nat_eq (length ql.pages) 0 ≡ false =
        ground (arith, get_elem?_lt iter.node ql.pages a.at_page a.here) in
      elim (Bool-cases (nat_eq (iter.node + 1) (length ql.pages))) [
        | inl e ↦
            let none_after = after_last iter.node ql.pages (ground (arith, e)) in
            rw (at_end, there, e, a.here, a.off)
              (ground (arith, around, none_after, a.sum, a.inside))
        | inr e ↦
            let more : k < length (contents ql) = elim a.inside [
              | inl h ↦ omega (arith, around, a.sum, h)
              | inr (_, last) ↦ absurd (ground (arith, e, last))
            ] in
            rw (at_end, there, e) (ground (arith, more))
      ]

  -- `atEnd` holds exactly behind the last element.
  pub at_end-Rests :
      (ql : QuickList A) (k : ℕ) (iter : Iterator)
      → Rests ql.pages k iter
      → at_end ql iter ≡ leb (length (contents ql)) k
  unfolding at_end contents_of
  at_end-Rests ql k iter (inl (e, z, _)) = rw (at_end, e, z)
  at_end-Rests ql k iter (inr a) = at_end-At ql k iter a

  pub next-At :
      (ql : QuickList A) (k : ℕ) (iter : Iterator)
      → IsValid ql
      → At ql.pages k iter
      → k < length (contents ql)
      → (iter' : Iterator) × (next ql iter ≡ some (iter', ltb (k + 1) (length (contents ql))))
        × At ql.pages (k + 1) iter'
  unfolding next next_in
  next-At ql k iter h a lt =
      let n = iter.node in
      let p = a.at_page in
      let o = a.at_offset in
      let around = length-around n ql.pages p a.here in
      let inside : o < length p.items = At-inside ql.pages k iter a lt in
      elim (Bool-cases (ltb (o + 1) (length p.items))) [
        | inl e ↦
            let more : ltb (k + 1) (length (contents ql)) ≡ true =
              ground (arith, e, around, a.sum) in
            (
              record { node = n; offset = some (o + 1) },
              rw (a.here, ◌>>=◌, next_in, a.off, e, more),
              record {
                at_page = p;
                at_offset = o + 1;
                here = a.here;
                off = refl;
                sum = omega (arith, a.sum);
                inside = inl (ground (arith, e));
              },
            )
        | inr e ↦ elim (Bool-cases (nat_eq (n + 1) (length ql.pages))) [
          | inl f ↦
              let none_after = after_last n ql.pages (ground (arith, f)) in
              let done : ltb (k + 1) (length (contents ql)) ≡ false =
                ground (arith, e, around, a.sum, none_after) in
              (
                record { node = n; offset = some (length p.items) },
                rw (a.here, ◌>>=◌, next_in, a.off, e, f, done),
                record {
                  at_page = p;
                  at_offset = length p.items;
                  here = a.here;
                  off = refl;
                  sum = ground (arith, a.sum, e, inside);
                  inside = inr (refl, ground (arith, f));
                },
              )
          | inr f ↦
              let small = get_elem?_lt n ql.pages p a.here in
              let (q, there, filled) =
                nth_page (n + 1) ql.pages h.filled (ground (arith, f, small)) in
              let around' = length-around (n + 1) ql.pages q there in
              let step : n + 1 ≡ suc n = omega arith in
              let moved : length (before (n + 1) ql.pages)
                  ≡ length (before n ql.pages) + length p.items =
                ap (λ m. length (before m ql.pages)) step ∙ before-suc n ql.pages p a.here in
              let more : ltb (k + 1) (length (contents ql)) ≡ true =
                ground (arith, e, around', moved, a.sum, filled, inside) in
              (
                record { node = n + 1; offset = some 0 },
                rw (a.here, ◌>>=◌, next_in, a.off, e, f, more),
                record {
                  at_page = q;
                  at_offset = 0;
                  here = there;
                  off = refl;
                  sum = ground (arith, moved, a.sum, e, inside);
                  inside = inl filled;
                },
              )
        ]
      ]

  prev_from :
      (ps : List (Page A)) (k n : ℕ)
      → All (λ p. 0 < length p.items) ps
      → n < length ps
      → length (before n ps) ≡ k
      → (iter' : Iterator) × (prev_page ps n ≡ some (iter', ltb 0 k))
        × (((k ≡ 0) × (iter' ≡ record { node = 0; offset = none }))
            ⊎ ((0 < k) × At ps (k - 1) iter'))
  unfolding before contents_of
  prev_from ps k zero h lt e =
      (record { node = 0; offset = none }, ground (arith, e), inl (omega (arith, e), refl))
  prev_from ps k (suc m) h lt e =
      let (q, there, filled) = nth_page m ps h (omega (arith, lt)) in
      let moved = before-suc m ps q there in
      let pos : ltb 0 k ≡ true = ground (arith, moved, e, filled) in
      (
        record { node = m; offset = some (length q.items - 1) },
        rw (there, ◌>>=◌, pos),
        inr (
          omega (arith, moved, e, filled),
          record {
            at_page = q;
            at_offset = length q.items - 1;
            here = there;
            off = refl;
            sum = omega (arith, moved, e, filled);
            inside = inl (omega (arith, filled));
          },
        ),
      )

  -- `prev` goes to the element before, or in front of the first one.
  pub prev-At :
      (ql : QuickList A) (k : ℕ) (iter : Iterator)
      → IsValid ql
      → At ql.pages k iter
      → (iter' : Iterator) × (prev ql iter ≡ some (iter', ltb 0 k))
        × (((k ≡ 0) × (iter' ≡ record { node = 0; offset = none }))
            ⊎ ((0 < k) × At ql.pages (k - 1) iter'))
  unfolding prev
  prev-At ql k iter h a = go a.at_offset a.off a.sum a.inside
    where
      go :
          (o : ℕ)
          → iter.offset ≡ some o
          → length (before iter.node ql.pages) + o ≡ k
          → (o < length a.at_page.items)
            ⊎ ((o ≡ length a.at_page.items) × (suc iter.node ≡ length ql.pages))
          → (iter' : Iterator) × (prev ql iter ≡ some (iter', ltb 0 k))
            × (((k ≡ 0) × (iter' ≡ record { node = 0; offset = none }))
                ⊎ ((0 < k) × At ql.pages (k - 1) iter'))
      go zero off sum inside =
          rw (prev, off)
            (prev_from ql.pages k iter.node h.filled
              (get_elem?_lt iter.node ql.pages a.at_page a.here) (omega (arith, sum)))
      go (suc o) off sum inside =
          let pos : ltb 0 k ≡ true = ground (arith, sum) in
          (
            record { node = iter.node; offset = some o },
            rw (prev, off, pos),
            inr (
              omega (arith, sum),
              record {
                at_page = a.at_page;
                at_offset = o;
                here = a.here;
                off = refl;
                sum = omega (arith, sum);
                inside = inl (ground (arith, inside));
              },
            ),
          )
