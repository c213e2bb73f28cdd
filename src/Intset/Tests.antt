-- ===== src/Intset/Tests.antt =====
-- Runs of the intset, and its theorems at concrete inputs.
use hayakv.Base.{◌≡◌, refl, inl, inr, true, ◌&&◌, ◌||◌, not, some, [], ◌∷◌, arith}
use hayakv.Base.Int.{pos, negsuc, eq_ℤ, ℤ_LinOrd}
use hayakv.Base.Slices.{contains, search_index, lower_bound, insert_at, cut_at}
use hayakv.Intset.{Intset, new_intset, has, add, remove, range}
use hayakv.Intset.Laws.{IsValid, Holds, has-eq-contains, add-Holds, remove-Holds}

abbrev sample : Intset
sample = record { items = negsuc 4 ∷ pos 7 ∷ pos 40000 ∷ []; width = 32 }

sample-IsValid : IsValid sample
sample-IsValid = record { sorted = ground arith; sized = inr (inl refl); fits = omega arith }

add_twice :
    add (add (some new_intset) (pos 7)).0 (pos 40000)
    ≡ (some (record { items = pos 7 ∷ pos 40000 ∷ []; width = 32 }), true)
unfolding add new_intset lower_bound search_index insert_at
add_twice = refl

remove_middle :
    remove (some sample) (pos 7)
    ≡ (some (record { items = negsuc 4 ∷ pos 40000 ∷ []; width = 32 }), true)
unfolding remove lower_bound search_index cut_at
remove_middle = refl

range_stops :
    range (λ v seen. (v ∷ seen, eq_ℤ v (negsuc 4))) (some sample) [] ≡ pos 7 ∷ negsuc 4 ∷ []
unfolding range
range_stops = refl

has-eq-contains_example : has (some sample) (pos 7) ≡ contains (pos 7) sample.items
has-eq-contains_example = has-eq-contains sample (pos 7) sample-IsValid

add-Holds_example :
    ((add (some sample) (negsuc 99)).1 ≡ not (contains (negsuc 99) sample.items))
    × Holds (add (some sample) (negsuc 99)).0 (λ w. eq_ℤ (negsuc 99) w || contains w sample.items)
add-Holds_example = add-Holds sample (negsuc 99) sample-IsValid (omega arith)

remove-Holds_example :
    ((remove (some sample) (pos 7)).1 ≡ contains (pos 7) sample.items)
    × Holds (remove (some sample) (pos 7)).0 (λ w. not (eq_ℤ (pos 7) w) && contains w sample.items)
remove-Holds_example = remove-Holds sample (pos 7) sample-IsValid
