-- ===== src/QuickList/Pages.antt =====
-- The contents of a list of pages, seen from one of its pages.
use hayakv.Base.{
  ℕ, zero, suc, ◌+◌, ◌≤◌, ◌<◌, ◌≡◌, refl, ap, sym, ◌∙◌, some, List, [], ◌∷◌, ◌++◌, arith, length,
  get_elem?, set, take, drop, All,
}
use mathlib.Core.List.{append_assoc}
use hayakv.QuickList.{Page, QuickList, insert_after, delete_page}

module _ {ℓ} {A : Type ℓ} where
  -- the elements, in order
  unfoldable pub contents_of : List (Page A) → List A
  contents_of [] = []
  contents_of (p ∷ ps) = p.items ++ contents_of ps

  abbrev pub contents : QuickList A → List A
  contents ql = contents_of ql.pages

  -- no page is empty, and the size is the number of elements
  pub record IsValid (ql : QuickList A) : Type ℓ where
    pub filled : All (λ p. 0 < length p.items) ql.pages
    pub counted : ql.size ≡ length (contents_of ql.pages)

  -- the elements before page `n`, and the elements after it
  unfoldable pub before : ℕ → List (Page A) → List A
  unfolding contents_of
  before n ps = contents_of (take n ps)

  unfoldable pub after : ℕ → List (Page A) → List A
  unfolding contents_of
  after n ps = contents_of (drop (suc n) ps)

  pub contents-append :
      (ps qs : List (Page A)) → contents_of (ps ++ qs) ≡ contents_of ps ++ contents_of qs
  unfolding contents_of
  contents-append [] qs = refl
  contents-append (p ∷ ps) qs =
      rw (contents-append ps qs, append_assoc p.items (contents_of ps) (contents_of qs))

  pub contents-around :
      (n : ℕ) (ps : List (Page A)) (p : Page A)
      → get_elem? ps n ≡ some p
      → contents_of ps ≡ before n ps ++ (p.items ++ after n ps)
  unfolding before after contents_of
  contents-around n [] p h = cc
  contents-around zero (q ∷ ps) p h = let e : q ≡ p = cc in rw e
  contents-around (suc n) (q ∷ ps) p h =
      ap (λ t. q.items ++ t) (contents-around n ps p h)
      ∙ sym (append_assoc q.items (before n ps) (p.items ++ after n ps))

  pub contents-set :
      (n : ℕ) (ps : List (Page A)) (p q : Page A)
      → get_elem? ps n ≡ some p
      → contents_of (set ps n q) ≡ before n ps ++ (q.items ++ after n ps)
  unfolding before after contents_of
  contents-set n [] p q h = cc
  contents-set zero (r ∷ ps) p q h = refl
  contents-set (suc n) (r ∷ ps) p q h =
      ap (λ t. r.items ++ t) (contents-set n ps p q h)
      ∙ sym (append_assoc r.items (before n ps) (q.items ++ after n ps))

  pub contents-insert_after :
      (n : ℕ) (ps : List (Page A)) (p q r : Page A)
      → get_elem? ps n ≡ some p
      → contents_of (insert_after n r (set ps n q))
        ≡ before n ps ++ (q.items ++ (r.items ++ after n ps))
  unfolding before after contents_of
  contents-insert_after n [] p q r h = cc
  contents-insert_after zero (s ∷ ps) p q r h = refl
  contents-insert_after (suc n) (s ∷ ps) p q r h =
      ap (λ t. s.items ++ t) (contents-insert_after n ps p q r h)
      ∙ sym (append_assoc s.items (before n ps) (q.items ++ (r.items ++ after n ps)))

  pub contents-delete_page :
      (n : ℕ) (ps : List (Page A)) (p : Page A)
      → get_elem? ps n ≡ some p
      → contents_of (delete_page n ps) ≡ before n ps ++ after n ps
  unfolding before after contents_of
  contents-delete_page n [] p h = cc
  contents-delete_page zero (q ∷ ps) p h = refl
  contents-delete_page (suc n) (q ∷ ps) p h =
      ap (λ t. q.items ++ t) (contents-delete_page n ps p h)
      ∙ sym (append_assoc q.items (before n ps) (after n ps))

  -- an index in the middle one of three lists
  pub get_elem?-middle :
      (xs ys zs : List A) (o : ℕ)
      → o < length ys
      → get_elem? (xs ++ (ys ++ zs)) (length xs + o) ≡ get_elem? ys o
  get_elem?-middle [] [] zs o h = absurd (omega arith)
  get_elem?-middle [] (y ∷ ys) zs zero h = refl
  get_elem?-middle [] (y ∷ ys) zs (suc o) h =
      let e : 0 + suc o ≡ suc (0 + o) = omega arith in
      rw e (get_elem?-middle [] ys zs o (omega arith))
  get_elem?-middle (x ∷ xs) ys zs o h =
      let e : suc (length xs) + o ≡ suc (length xs + o) = omega arith in
      rw e (get_elem?-middle xs ys zs o h)

  pub take-middle :
      (xs ys zs : List A) (o : ℕ)
      → o ≤ length ys
      → take (length xs + o) (xs ++ (ys ++ zs)) ≡ xs ++ take o ys
  take-middle [] ys zs zero h = refl
  take-middle [] [] zs (suc o) h = absurd (omega arith)
  take-middle [] (y ∷ ys) zs (suc o) h =
      let e : 0 + suc o ≡ suc (0 + o) = omega arith in
      rw e (ap (λ t. y ∷ t) (take-middle [] ys zs o (omega arith)))
  take-middle (x ∷ xs) ys zs o h =
      let e : suc (length xs) + o ≡ suc (length xs + o) = omega arith in
      rw e (ap (λ t. x ∷ t) (take-middle xs ys zs o h))

  pub drop-middle :
      (xs ys zs : List A) (o : ℕ)
      → o ≤ length ys
      → drop (length xs + o) (xs ++ (ys ++ zs)) ≡ drop o ys ++ zs
  drop-middle [] ys zs zero h = refl
  drop-middle [] [] zs (suc o) h = absurd (omega arith)
  drop-middle [] (y ∷ ys) zs (suc o) h =
      let e : 0 + suc o ≡ suc (0 + o) = omega arith in rw e (drop-middle [] ys zs o (omega arith))
  drop-middle (x ∷ xs) ys zs o h =
      let e : suc (length xs) + o ≡ suc (length xs + o) = omega arith in
      rw e (drop-middle xs ys zs o h)

  pub set-middle :
      (xs ys zs : List A) (o : ℕ) (v : A)
      → o < length ys
      → set (xs ++ (ys ++ zs)) (length xs + o) v ≡ xs ++ (set ys o v ++ zs)
  set-middle [] [] zs o v h = absurd (omega arith)
  set-middle [] (y ∷ ys) zs zero v h = refl
  set-middle [] (y ∷ ys) zs (suc o) v h =
      let e : 0 + suc o ≡ suc (0 + o) = omega arith in
      rw e (ap (λ t. y ∷ t) (set-middle [] ys zs o v (omega arith)))
  set-middle (x ∷ xs) ys zs o v h =
      let e : suc (length xs) + o ≡ suc (length xs + o) = omega arith in
      rw e (ap (λ t. x ∷ t) (set-middle xs ys zs o v h))
