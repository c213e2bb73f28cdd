-- ===== src/Intset/Laws.antt =====
-- The sorted slice of an intset behaves as a finite set, and its width covers every member.
use hayakv.Base.{
  ℕ, ◌-◌, ◌^◌, ◌≤◌, ◌<◌, ◌≡◌, ◌⊎◌, refl, inl, inr, Bool, true, false, ◌&&◌, ◌||◌, not, Option, none,
  some, List, [], ◌∷◌, arith, length, All, All-map, Bool-cases, nat_eq,
}
use hayakv.Base.Int.{ℤ, pos, pos_part, neg_part, eq_ℤ, eq_ℤ_iff, ℤ_LinOrd}
use hayakv.Base.Slices.{IsAscending, contains, rank, lower_bound-eq-rank, found_at-rank}
use hayakv.Base.Slices.Laws.{
  insert_at-IsAscending, contains-insert_at, cut_at-IsAscending, contains-cut_at, All-insert,
  All-cut,
}
use hayakv.Intset.{Intset, new_intset, search, found, update_width, has, add, remove}

-- `v` is a two's complement number of `w` bits.
abbrev pub Fits : ℕ → ℤ → Type 0
Fits w v = (pos_part v < 2 ^ (w - 1)) × (neg_part v ≤ 2 ^ (w - 1))

-- one of the three widths
abbrev pub IsWidth : ℕ → Type 0
IsWidth w = (w ≡ 16) ⊎ (w ≡ 32) ⊎ (w ≡ 64)

pub record IsValid (is : Intset) : Type 0 where
  pub sorted : IsAscending is.items
  pub sized : IsWidth is.width
  pub fits : All (Fits is.width) is.items

search-eq-rank : (is : Intset) (v : ℤ) → IsValid is → search is v ≡ rank v is.items
unfolding search
search-eq-rank is v h = lower_bound-eq-rank is.items v (pos 0) h.sorted

pub found-eq-contains : (is : Intset) (v : ℤ) → IsValid is → found is v ≡ contains v is.items
unfolding found
found-eq-contains is v h = rw (search-eq-rank is v h) (found_at-rank v is.items (pos 0) h.sorted)

update_width-IsWidth : (w : ℕ) (v : ℤ) → IsWidth w → IsWidth (update_width w v)
unfolding update_width
update_width-IsWidth w v h = ground arith

-- A value that fitted keeps fitting, and the new one fits if it is an int64.
update_width-Fits_old : (w : ℕ) (v u : ℤ) → IsWidth w → Fits w u → Fits (update_width w v) u
unfolding update_width
update_width-Fits_old w v u h f = elim h [
  | inl e ↦ rw e (ground (arith, rw e at f))
  | inr (inl e) ↦ rw e (ground (arith, rw e at f))
  | inr (inr e) ↦ rw e (ground (arith, rw e at f))
]

update_width-Fits_new : (w : ℕ) (v : ℤ) → IsWidth w → Fits 64 v → Fits (update_width w v) v
unfolding update_width
update_width-Fits_new w v h f = elim h [
  | inl e ↦ rw e (ground arith)
  | inr (inl e) ↦ rw e (ground arith)
  | inr (inr e) ↦ rw e (ground arith)
]

pub new_intset-IsValid : IsValid new_intset
unfolding new_intset
new_intset-IsValid = record { sorted = tt; sized = inl refl; fits = tt }

-- What a call left behind: a valid set with the members that `after` names.
abbrev pub Holds : Option Intset → (ℤ → Bool) → Type 0
Holds none after = ⊥
Holds (some is) after = IsValid is × ((w : ℤ) → contains w is.items ≡ after w)

contains_empty : (v : ℤ) (xs : List ℤ) → nat_eq (length xs) 0 ≡ true → contains v xs ≡ false
unfolding contains
contains_empty v [] e = refl
contains_empty v (x ∷ xs) e = ground arith

contains_again :
    (v w : ℤ) (xs : List ℤ) → contains v xs ≡ true → contains w xs ≡ (eq_ℤ v w || contains w xs)
contains_again v w xs h = elim (Bool-cases (eq_ℤ v w)) [
  | inl e ↦ let same = (eq_ℤ_iff v w).0 e in rw (e, ← same) h
  | inr e ↦ rw e
]

contains_never :
    (v w : ℤ) (xs : List ℤ)
    → contains v xs ≡ false
    → contains w xs ≡ (not (eq_ℤ v w) && contains w xs)
contains_never v w xs h = elim (Bool-cases (eq_ℤ v w)) [
  | inl e ↦ let same = (eq_ℤ_iff v w).0 e in rw (e, ← same) h
  | inr e ↦ rw e
]

-- Membership by bisection answers as a scan of the whole slice would.
pub has-eq-contains : (is : Intset) (v : ℤ) → IsValid is → has (some is) v ≡ contains v is.items
unfolding has contains
has-eq-contains is v h = elim (Bool-cases (nat_eq (length is.items) 0)) [
  | inl e ↦ rw (e, contains_empty v is.items e)
  | inr e ↦ rw e (found-eq-contains is v h)
]

-- Adding an int64 to a valid set answers whether it was absent, and leaves a valid set (sorted, no
-- repetition, wide enough for every member) whose members are the old ones and the new one.
pub add-Holds :
    (is : Intset) (v : ℤ)
    → IsValid is
    → Fits 64 v
    → ((add (some is) v).1 ≡ not (contains v is.items))
      × Holds (add (some is) v).0 (λ w. eq_ℤ v w || contains w is.items)
unfolding add
add-Holds is v h f = elim (Bool-cases (contains v is.items)) [
  | inl e ↦ rw (found-eq-contains is v h, e) (refl, (h, λ w. contains_again v w is.items e))
  | inr e ↦
      rw (found-eq-contains is v h, e, search-eq-rank is v h)
        (
          refl,
          (
            record {
              sorted = insert_at-IsAscending v is.items h.sorted e;
              sized = update_width-IsWidth is.width v h.sized;
              fits =
                  All-insert (Fits (update_width is.width v)) v (rank v is.items) is.items
                    (update_width-Fits_new is.width v h.sized f)
                    (All-map (Fits is.width) (Fits (update_width is.width v)) is.items
                      (λ u. update_width-Fits_old is.width v u h.sized) h.fits);
            },
            λ w. contains-insert_at v w (rank v is.items) is.items,
          ),
        )
]

-- Removing a value from a valid set answers whether it was there, and leaves a valid set with every
-- other member and without that value.
pub remove-Holds :
    (is : Intset) (v : ℤ)
    → IsValid is
    → ((remove (some is) v).1 ≡ contains v is.items)
      × Holds (remove (some is) v).0 (λ w. not (eq_ℤ v w) && contains w is.items)
unfolding remove
remove-Holds is v h = elim (Bool-cases (nat_eq (length is.items) 0)) [
  | inl e ↦
      rw (e, contains_empty v is.items e)
        (refl, (h, λ w. contains_never v w is.items (contains_empty v is.items e)))
  | inr e ↦ elim (Bool-cases (contains v is.items)) [
    | inr n ↦ rw (e, found-eq-contains is v h, n) (refl, (h, λ w. contains_never v w is.items n))
    | inl y ↦
        rw (e, found-eq-contains is v h, y, search-eq-rank is v h)
          (
            refl,
            (
              record {
                sorted = cut_at-IsAscending (rank v is.items) is.items h.sorted;
                sized = h.sized;
                fits = All-cut (Fits is.width) (rank v is.items) is.items h.fits;
              },
              λ w. contains-cut_at v w is.items h.sorted y,
            ),
          )
  ]
]
