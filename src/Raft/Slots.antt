-- ===== src/Raft/Slots.antt =====
-- Slot lists: what the loops of `addSlots` and `removeSlots` make of ascending slices.
use hayakv.Base.{
  ℕ, zero, suc, ◌-◌, ◌≤◌, ◌<◌, ◌≡◌, refl, ap, ◌∙◌, inl, inr, true, false, ◌&&◌, not, List, [], ◌∷◌,
  ◌++◌, arith, length, take, drop, nat_eq, nat_eq_iff, Bool-cases, length-append, length-take,
  length-drop,
}
use mathlib.Core.List.{append_assoc}
use hayakv.Base.Classes.{ℕ_LinOrd}
use hayakv.Base.Slices.{
  IsAscending, contains, rank, found_at, cut_at, lower_bound-eq-rank, found_at-rank,
}
use hayakv.Base.Slices.Laws.{cut_at-IsAscending, contains-cut_at}
use hayakv.Raft.{Slice, visible, cut, cut_while, cut_slot}

module _ {ℓ} {A : Type ℓ} where
  take-take : (i n : ℕ) (xs : List A) → i ≤ n → take i (take n xs) ≡ take i xs
  take-take zero n xs h = refl
  take-take (suc i) zero xs h = absurd (omega arith)
  take-take (suc i) (suc n) [] h = refl
  take-take (suc i) (suc n) (x ∷ xs) h = ap (λ t. x ∷ t) (take-take i n xs (omega arith))

  take-append : (n : ℕ) (xs ys : List A) → length xs ≡ n → take n (xs ++ ys) ≡ xs
  take-append zero [] ys h = refl
  take-append zero (x ∷ xs) ys h = absurd (omega arith)
  take-append (suc n) [] ys h = absurd (omega arith)
  take-append (suc n) (x ∷ xs) ys h = ap (λ t. x ∷ t) (take-append n xs ys (omega arith))

  pub take_all : (xs : List A) → take (length xs) xs ≡ xs
  take_all [] = refl
  take_all (x ∷ xs) = ap (λ t. x ∷ t) (take_all xs)

-- the slice lies in its array
abbrev pub Fits : Slice → Type 0
Fits s = s.len ≤ length s.cells

length-visible : (s : Slice) → Fits s → length (visible s) ≡ s.len
length-visible s h = omega (arith, length-take s.len s.cells)

visible-cut : (s : Slice) (i : ℕ) → Fits s → i < s.len → visible (cut s i) ≡ cut_at i (visible s)
unfolding cut cut_at
visible-cut s i h lt =
    let front = take i s.cells in
    let back = drop (suc i) (visible s) in
    rw
      (
        take-take i s.len s.cells (omega arith),
        ← append_assoc front back (drop (s.len - 1) s.cells),
      )
      (take-append (s.len - 1) (front ++ back) (drop (s.len - 1) s.cells) (
        omega (
          arith,
          length-append front back,
          length-take i s.cells,
          length-drop (suc i) (visible s),
          length-visible s h,
        )))

cut-Fits : (s : Slice) (i : ℕ) → Fits s → i < s.len → Fits (cut s i)
unfolding cut
cut-Fits s i h lt =
    let front = take i s.cells in
    let back = drop (suc i) (visible s) in
    omega (
      arith,
      length-append front (back ++ drop (s.len - 1) s.cells),
      length-append back (drop (s.len - 1) s.cells),
      length-take i s.cells,
      length-drop (suc i) (visible s),
      length-drop (s.len - 1) s.cells,
      length-visible s h,
    )

found_at-contains : (xs : List ℕ) (i v : ℕ) → found_at xs i v 0 ≡ true → contains v xs ≡ true
unfolding contains
found_at-contains [] i v h = ground arith
found_at-contains (x ∷ xs) zero v h = ground arith
found_at-contains (x ∷ xs) (suc i) v h = ground (arith, found_at-contains xs i v)

absent-found_at : (xs : List ℕ) (i v : ℕ) → contains v xs ≡ false → found_at xs i v 0 ≡ false
absent-found_at xs i v h = elim (Bool-cases (found_at xs i v 0)) [
  | inl e ↦ cc (h, found_at-contains xs i v e)
  | inr e ↦ e
]

cut_while-absent :
    (fuel : ℕ) (s : Slice) (i v : ℕ) → contains v (visible s) ≡ false → cut_while fuel s i v ≡ s
unfolding cut_while
cut_while-absent zero s i v h = refl
cut_while-absent (suc fuel) s i v h = rw (absent-found_at (visible s) i v h)

-- What removing `v` makes of a slice.
pub record Without (v : ℕ) (s s' : Slice) : Type 0 where
  pub fits : Fits s'
  pub sorted : IsAscending (visible s')
  pub members : (w : ℕ) → contains w (visible s') ≡ (not (nat_eq v w) && contains w (visible s))

absent_members :
    (v w : ℕ) (xs : List ℕ)
    → contains v xs ≡ false
    → contains w xs ≡ (not (nat_eq v w) && contains w xs)
absent_members v w xs h = elim (Bool-cases (nat_eq v w)) [
  | inl e ↦ let same = (nat_eq_iff v w).0 e in rw (e, ← same) h
  | inr e ↦ rw e
]

one_cut :
    (s : Slice) (v i : ℕ)
    → Fits s
    → IsAscending (visible s)
    → contains v (visible s) ≡ true
    → found_at (visible s) i v 0 ≡ true
    → i < s.len
    → i ≡ rank v (visible s)
    → cut_while s.len s i v ≡ cut s i
unfolding cut_while
one_cut s v i h a e found inside at = go s.len (omega arith)
  where
    gone : contains v (visible (cut s i)) ≡ false
    gone = rw (visible-cut s i h inside, at) (contains-cut_at v v (visible s) a e ∙ ground arith)

    go : (fuel : ℕ) → 0 < fuel → cut_while fuel s i v ≡ cut s i
    go zero p = absurd (omega arith)
    go (suc fuel) p = rw (cut_while, found) (cut_while-absent fuel (cut s i) i v gone)

-- The search and the inner loop take out the slot and nothing else.
pub cut_slot-Without :
    (s : Slice) (v : ℕ) → Fits s → IsAscending (visible s) → Without v s (cut_slot s v)
unfolding cut_slot
cut_slot-Without s v h a =
    rw (lower_bound-eq-rank (visible s) v 0 a) (elim (Bool-cases (contains v (visible s))) [
      | inr e ↦
          rw (cut_while-absent s.len s (rank v (visible s)) v e)
            (record { fits = h; sorted = a; members = λ w. absent_members v w (visible s) e })
      | inl e ↦
          let found : found_at (visible s) (rank v (visible s)) v 0 ≡ true =
            found_at-rank v (visible s) 0 a ∙ e in
          let inside : rank v (visible s) < s.len = ground (arith, found, length-visible s h) in
          rw (one_cut s v (rank v (visible s)) h a e found inside refl) (record {
            fits = cut-Fits s (rank v (visible s)) h inside;
            sorted =
                rw (visible-cut s (rank v (visible s)) h inside)
                  (cut_at-IsAscending (rank v (visible s)) (visible s) a);
            members = λ w.
                rw (visible-cut s (rank v (visible s)) h inside)
                  (contains-cut_at v w (visible s) a e);
          })
    ])
