-- ===== src/QuickList/Cuts.antt =====
-- `iter.remove` and `Remove`: the elements that are left, and where the iterator then is.
use hayakv.Base.{
  some_item, ℕ, zero, suc, ◌+◌, ◌-◌, ◌≤◌, ◌<◌, ◌≡◌, refl, ap, sym, ◌∙◌, ◌⊎◌, inl, inr, true, none,
  some, List, [], ◌∷◌, ◌++◌, arith, length, get_elem?, set, take, drop, length-append, length-take,
  length-drop, length-set, ltb, leb, nat_eq, Bool-cases, ◌>>=◌, All,
}
use mathlib.Core.List.{append_assoc}
use hayakv.QuickList.{
  Page, QuickList, Iterator, find, delete_page, stay, behind, leave, remove_from, remove_at, remove,
}
use hayakv.QuickList.Pages.{
  contents_of, contents, IsValid, before, after, contents-around, contents-set,
  contents-delete_page, get_elem?-middle, take-middle, drop-middle,
}
use hayakv.QuickList.Reads.{Stands, find-Stands}
use hayakv.QuickList.Writes.{Holds, All-set}
use hayakv.QuickList.Moves.{At, Rests, get_elem?_lt, nth_page, before-suc, length-around}

module _ {ℓ} {A : Type ℓ} where
  -- the elements without the one of index `k`
  abbrev pub removed : ℕ → List A → List A
  removed k xs = take k xs ++ drop (k + 1) xs

  pub length-removed : (k : ℕ) (xs : List A) → k < length xs → length (removed k xs) + 1 ≡ length xs
  length-removed k xs h = omega (
    arith,
    h,
    length-append (take k xs) (drop (k + 1) xs),
    length-take k xs,
    length-drop (k + 1) xs,
  )

  no_items : (xs : List A) → length xs ≡ 0 → xs ≡ []
  no_items [] h = refl
  no_items (x ∷ xs) h = absurd (omega arith)

  removed-middle :
      (xs ys zs : List A) (o : ℕ)
      → o < length ys
      → xs ++ (removed o ys ++ zs) ≡ removed (length xs + o) (xs ++ (ys ++ zs))
  removed-middle xs ys zs o h =
      let e : length xs + o + 1 ≡ length xs + (o + 1) = omega arith in
      rw
        (
          e,
          take-middle xs ys zs o (omega (arith, h)),
          drop-middle xs ys zs (o + 1) (omega (arith, h)),
        )
        (simp append_assoc)

  All-delete_page :
      (n : ℕ) (ps : List (Page A))
      → All (λ p. 0 < length p.items) ps
      → All (λ p. 0 < length p.items) (delete_page n ps)
  All-delete_page n [] h = tt
  All-delete_page zero (p ∷ ps) h = h.1
  All-delete_page (suc n) (p ∷ ps) h = (h.0, All-delete_page n ps h.1)

  length-delete_page :
      (n : ℕ) (ps : List (Page A)) → n < length ps → length (delete_page n ps) + 1 ≡ length ps
  length-delete_page n [] h = absurd (omega arith)
  length-delete_page zero (p ∷ ps) h = omega arith
  length-delete_page (suc n) (p ∷ ps) h = omega (arith, length-delete_page n ps (omega arith))

  -- a page below the deleted one stays, one above it moves down
  get-delete_lt :
      (m n : ℕ) (ps : List (Page A)) → m < n → get_elem? (delete_page n ps) m ≡ get_elem? ps m
  get-delete_lt m n [] h = refl
  get-delete_lt m zero (p ∷ ps) h = absurd (omega arith)
  get-delete_lt zero (suc n) (p ∷ ps) h = refl
  get-delete_lt (suc m) (suc n) (p ∷ ps) h = get-delete_lt m n ps (omega arith)

  get-delete_self :
      (n : ℕ) (ps : List (Page A)) → get_elem? (delete_page n ps) n ≡ get_elem? ps (suc n)
  get-delete_self n [] = refl
  get-delete_self zero (p ∷ ps) = refl
  get-delete_self (suc n) (p ∷ ps) = get-delete_self n ps

  take-delete : (m n : ℕ) (ps : List (Page A)) → m ≤ n → take m (delete_page n ps) ≡ take m ps
  take-delete zero n ps h = refl
  take-delete (suc m) n [] h = refl
  take-delete (suc m) zero (p ∷ ps) h = absurd (omega arith)
  take-delete (suc m) (suc n) (p ∷ ps) h = ap (λ t. p ∷ t) (take-delete m n ps (omega arith))

  get-set_other :
      (n m : ℕ) (ps : List (Page A)) (q : Page A)
      → n < m
      → get_elem? (set ps n q) m ≡ get_elem? ps m
  get-set_other n m [] q h = refl
  get-set_other n zero (p ∷ ps) q h = absurd (omega arith)
  get-set_other zero (suc m) (p ∷ ps) q h = refl
  get-set_other (suc n) (suc m) (p ∷ ps) q h = get-set_other n m ps q (omega arith)

  get-set_self :
      (n : ℕ) (ps : List (Page A)) (q : Page A) → n < length ps → get_elem? (set ps n q) n ≡ some q
  get-set_self n [] q h = absurd (omega arith)
  get-set_self zero (p ∷ ps) q h = refl
  get-set_self (suc n) (p ∷ ps) q h = get-set_self n ps q (omega arith)

  take-set : (n : ℕ) (ps : List (Page A)) (q : Page A) → take n (set ps n q) ≡ take n ps
  take-set n [] q = refl
  take-set zero (p ∷ ps) q = refl
  take-set (suc n) (p ∷ ps) q = ap (λ t. p ∷ t) (take-set n ps q)

  -- the page keeps elements
  stay-At :
      (ps : List (Page A)) (p : Page A) (n o k : ℕ) (rest : List A)
      → All (λ p. 0 < length p.items) ps
      → get_elem? ps n ≡ some p
      → length (before n ps) + o ≡ k
      → o ≤ length rest
      → At (set ps n (record p { items = rest })) k (stay n (length ps) (length rest) o)
  unfolding before
  stay-At ps p n o k rest h here sum le =
      let p' : Page A = record p { items = rest } in
      let small = get_elem?_lt n ps p here in
      let self = get-set_self n ps p' small in
      let front = take-set n ps p' in
      let count = length-set ps n p' in
      elim (Bool-cases (nat_eq o (length rest))) [
        | inr e ↦ rw e (record {
          at_page = p';
          at_offset = o;
          here = self;
          off = refl;
          sum = rw front sum;
          inside = inl (ground (arith, e, le));
        })
        | inl e ↦ elim (Bool-cases (nat_eq (n + 1) (length ps))) [
          | inl f ↦
              rw (e, f)
                (record {
                  at_page = p';
                  at_offset = o;
                  here = self;
                  off = refl;
                  sum = rw front sum;
                  inside = inr (ground (arith, e), ground (arith, f, count));
                })
          | inr f ↦
              let (q, there, filled) = nth_page (n + 1) ps h (ground (arith, f, small)) in
              let step : n + 1 ≡ suc n = omega arith in
              rw (e, f)
                (record {
                  at_page = q;
                  at_offset = 0;
                  here = get-set_other n (n + 1) ps p' (omega arith) ∙ there;
                  off = refl;
                  sum =
                      rw (step, before-suc n (set ps n p') p' self, before, front)
                        (ground (arith, e, sum));
                  inside = inl filled;
                })
        ]
      ]

  behind-Rests :
      (ps : List (Page A)) (p : Page A) (n k : ℕ)
      → All (λ p. 0 < length p.items) ps
      → get_elem? ps n ≡ some p
      → length (before n ps) ≡ k
      → suc n ≡ length ps
      → Rests (delete_page n ps) k (behind ps n)
  unfolding before contents_of
  behind-Rests [] p zero k h here sum f = absurd (omega arith)
  behind-Rests (q ∷ []) p zero k h here sum f = inl (refl, omega (arith, sum), refl)
  behind-Rests (q ∷ r ∷ ps) p zero k h here sum f = absurd (omega arith)
  behind-Rests ps p (suc m) k h here sum f =
      let (q, there, filled) = nth_page m ps h (omega (arith, f)) in
      rw (behind, there)
        (inr (record {
          at_page = q;
          at_offset = length q.items;
          here = get-delete_lt m (suc m) ps (omega arith) ∙ there;
          off = refl;
          sum =
              rw (take-delete m (suc m) ps (omega arith))
                (omega (arith, before-suc m ps q there, sum));
          inside = inr (refl, omega (arith, f, length-delete_page (suc m) ps (omega (arith, f))));
        }))

  -- the page is gone
  leave-Rests :
      (ps : List (Page A)) (p : Page A) (n k : ℕ)
      → All (λ p. 0 < length p.items) ps
      → get_elem? ps n ≡ some p
      → length (before n ps) ≡ k
      → Rests (delete_page n ps) k (leave ps n)
  unfolding before contents_of
  leave-Rests ps p n k h here sum = elim (Bool-cases (nat_eq (n + 1) (length ps))) [
    | inl f ↦ rw f (behind-Rests ps p n k h here sum (ground (arith, f)))
    | inr f ↦
        let small = get_elem?_lt n ps p here in
        let (q, there, filled) = nth_page (suc n) ps h (ground (arith, f, small)) in
        rw f (
          inr (record {
            at_page = q;
            at_offset = 0;
            here = get-delete_self n ps ∙ there;
            off = refl;
            sum = rw (take-delete n n ps (omega arith)) (omega (arith, sum));
            inside = inl filled;
          }))
  ]

  -- What a removal at index `k` makes of a list and an iterator.
  pub record Removed (ql : QuickList A) (k : ℕ) (ql' : QuickList A) (iter' : Iterator)
      : Type ℓ where
    pub valid : IsValid ql'
    pub left : contents ql' ≡ removed k (contents ql)
    pub rests : Rests ql'.pages k iter'

  remove_from-Removed :
      (ql : QuickList A) (k : ℕ) (iter : Iterator)
      → IsValid ql
      → (s : Stands ql.pages k iter)
      → let r = remove_from ql iter.node s.at_page s.at_offset in Removed ql k r.0 r.1
  unfolding remove_from
  remove_from-Removed ql k iter h s =
      let n = iter.node in
      let p = s.at_page in
      let o = s.at_offset in
      let rest = removed o p.items in
      let p' : Page A = record p { items = rest } in
      let around = contents-around n ql.pages p s.here in
      let whole : before n ql.pages ++ (rest ++ after n ql.pages) ≡ removed k (contents ql) =
        removed-middle (before n ql.pages) p.items (after n ql.pages) o s.inside
        ∙ (ap (λ i. removed i (before n ql.pages ++ (p.items ++ after n ql.pages))) s.sum
            ∙ ap (removed k) (sym around)) in
      let inside : k < length (contents ql) =
        omega (arith, length-around n ql.pages p s.here, s.sum, s.inside) in
      let size : ql.size - 1 ≡ length (removed k (contents ql)) =
        omega (arith, h.counted, length-removed k (contents ql) inside) in
      let left_over = length-removed o p.items s.inside in
      elim (Bool-cases (nat_eq (length rest) 0)) [
        | inl e ↦
            let empty : rest ≡ [] = no_items rest (ground (arith, e)) in
            let same : contents_of (delete_page n ql.pages) ≡ removed k (contents ql) =
              contents-delete_page n ql.pages p s.here
              ∙ (ap (λ t. before n ql.pages ++ (t ++ after n ql.pages)) (sym empty) ∙ whole) in
            rw e (record {
              valid = record {
                filled = All-delete_page n ql.pages h.filled;
                counted = rw same size;
              };
              left = same;
              rests =
                  leave-Rests ql.pages p n k h.filled s.here
                    (ground (arith, e, left_over, s.inside, s.sum));
            })
        | inr e ↦
            let same = contents-set n ql.pages p p' s.here ∙ whole in
            rw e (record {
              valid = record {
                filled = All-set n ql.pages p' h.filled (ground (arith, e));
                counted = rw same size;
              };
              left = same;
              rests = inr (
                  stay-At ql.pages p n o k rest h.filled s.here s.sum
                    (omega (arith, left_over, s.inside)));
            })
      ]

  pub remove_at-Removed :
      (ql : QuickList A) (k : ℕ) (iter : Iterator)
      → IsValid ql
      → Stands ql.pages k iter
      → (ql' : QuickList A) × (iter' : Iterator) × (v : A) × (remove_at ql iter
          ≡ some ((ql', iter'), v))
        × (get_elem? (contents ql) k ≡ some v)
        × Removed ql k ql' iter'
  unfolding remove_at
  remove_at-Removed ql k iter h s =
      let (v, found) = some_item s.at_page.items s.at_offset s.inside in
      let r = remove_from ql iter.node s.at_page s.at_offset in
      (
        r.0,
        r.1,
        v,
        rw (s.here, ◌>>=◌, s.off, found),
        rw (contents-around iter.node ql.pages s.at_page s.here, ← s.sum)
            (get_elem?-middle (before iter.node ql.pages) s.at_page.items (after iter.node ql.pages)
                s.at_offset s.inside
              ∙ found),
        remove_from-Removed ql k iter h s,
      )

  -- `Remove` returns the element of an index and leaves the others in order; it panics past the end.
  pub remove_lem :
      (ql : QuickList A) (index : ℕ)
      → IsValid ql
      → ((ql.size ≤ index) × (remove ql index ≡ none))
        ⊎ ((ql' : QuickList A) × (v : A) × (remove ql index ≡ some (ql', v))
            × (get_elem? (contents ql) index ≡ some v)
            × Holds ql' (removed index (contents ql)))
  unfolding remove
  remove_lem ql index h = elim (Bool-cases (ltb index ql.size)) [
    | inr e ↦
        let out : leb ql.size index ≡ true = ground (arith, e) in
        inl (ground (arith, e), rw (find, out, ◌>>=◌))
    | inl e ↦
        let (iter, found, s) = find-Stands ql index h (ground (arith, e)) in
        let (ql', iter', v, runs, got, r) = remove_at-Removed ql index iter h s in
        inr (ql', v, rw (found, ◌>>=◌, runs), got, (r.valid, r.left))
  ]
