-- ===== src/Intset.antt =====
-- internal/object/intset.go: a set of int64 values in a sorted slice.
pub mod Laws
pub mod Tests
use hayakv.Base.{
  ℕ, ◌+◌, Bool, true, false, ◌&&◌, ◌||◌, not, Option, none, some, List, [], ◌∷◌, length, ltb,
  nat_eq, if◌then◌else◌,
}
use hayakv.Base.Int.{ℤ, pos, negsuc, ltb_ℤ, ℤ_LinOrd}
use hayakv.Base.Slices.{lower_bound, found_at, insert_at, cut_at}

-- `items` is the field `data`; `width` is 16, 32 or 64.
pub record Intset : Type 0 where
  pub items : List ℤ
  pub width : ℕ

unfoldable pub new_intset : Intset
new_intset = record { items = []; width = 16 }

unfoldable pub len : Intset → ℕ
len is = length is.items

-- the index that the four calls of `sort.Search` return
unfoldable pub search : Intset → ℤ → ℕ
search is v = lower_bound is.items v (pos 0)

-- `idx < len(is.data) && is.data[idx] == v`
unfoldable pub found : Intset → ℤ → Bool
unfolding search
found is v = found_at is.items (search is v) v (pos 0)

unfoldable pub update_width : ℕ → ℤ → ℕ
update_width width v =
    if ltb_ℤ v (negsuc 2147483647) || ltb_ℤ (pos 2147483647) v
    then 64
    else if ltb_ℤ v (negsuc 32767) || ltb_ℤ (pos 32767) v
    then (if ltb width 32 then 32 else width)
    else if ltb width 16
    then 16
    else width

-- A nil receiver is `none`.
unfoldable pub has : Option Intset → ℤ → Bool
unfolding found
has none v = false
has (some is) v = if nat_eq (length is.items) 0 then false else found is v

unfoldable pub add : Option Intset → ℤ → Option Intset × Bool
unfolding search found update_width
add none v = (none, false)
add (some is) v = if found is v then (some is, false) else (
  some (record { items = insert_at (search is v) v is.items; width = update_width is.width v }),
  true,
)

unfoldable pub remove : Option Intset → ℤ → Option Intset × Bool
unfolding search found
remove none v = (none, false)
remove (some is) v =
    if nat_eq (length is.items) 0
    then (some is, false)
    else if found is v
    then (some (record is { items = cut_at (search is v) is.items }), true)
    else (some is, false)

-- The callback works on a state `S` and answers whether to go on.
range_loop {ℓ} : {S : Type ℓ} → (ℤ → S → S × Bool) → List ℤ → S → S
range_loop fn [] s = s
range_loop fn (v ∷ vs) s = elim ((fn v s).1) [
  | true ↦ range_loop fn vs (fn v s).0
  | false ↦ (fn v s).0
]

unfoldable pub range {ℓ} : {S : Type ℓ} → (ℤ → S → S × Bool) → Option Intset → S → S
unfolding range_loop
range fn none s = s
range fn (some is) s = range_loop fn is.items s

unfoldable pub to_slice : Option Intset → List ℤ
to_slice none = []
to_slice (some is) = is.items
