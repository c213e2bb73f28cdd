-- ===== src/QuickList.antt =====
-- internal/datastruct/list/quicklist.go: a list of pages. A `*list.Element` is the index of its page,
-- an iterator's offset -1 is `none`, and a Go panic is `none`. The capacity of a page that `append`
-- reallocates is chosen by the Go runtime: `grow`, of the old capacity and the length that is needed.
pub mod Pages
pub mod Reads
pub mod Writes
pub mod Moves
pub mod Cuts
pub mod Scans
pub mod Loops
pub mod Sweeps
pub mod Backs
pub mod Session
pub mod Tests
use hayakv.Base.{
  ℕ, zero, suc, ◌+◌, ◌-◌, ◌/◌, Bool, true, false, ◌&&◌, ◌||◌, not, Option, none, some, List, [],
  ◌∷◌, ◌++◌, length, get_elem?, set, take, drop, reverse, ltb, leb, nat_eq, if◌then◌else◌, ◌>>=◌,
}

abbrev pub page_size : ℕ
page_size = 1024

-- A slice of type `[]interface{}`.
pub record Page {ℓ} (A : Type ℓ) : Type ℓ where
  pub items : List A
  pub cap : ℕ

pub record QuickList {ℓ} (A : Type ℓ) : Type ℓ where
  pub pages : List (Page A)
  pub size : ℕ

pub record Iterator : Type 0 where
  pub node : ℕ
  pub offset : Option ℕ

-- the offset after the one at hand
abbrev pub succ_offset : Option ℕ → ℕ
succ_offset none = 0
succ_offset (some o) = o + 1

-- `next` on a page of `len` elements, of `count` pages
unfoldable pub next_in : ℕ → ℕ → Iterator → Iterator × Bool
next_in len count iter =
    if ltb (succ_offset iter.offset) len
    then (record iter { offset = some (succ_offset iter.offset) }, true)
    else if nat_eq (iter.node + 1) count
    then (record iter { offset = some len }, false)
    else (record { node = iter.node + 1; offset = some 0 }, true)

-- where `iter.remove` leaves the iterator on a page that still has `len` elements
abbrev pub stay : ℕ → ℕ → ℕ → ℕ → Iterator
stay n count len o =
    if nat_eq o len && not (nat_eq (n + 1) count)
    then record { node = n + 1; offset = some 0 }
    else record { node = n; offset = some o }

module _ {ℓ} {A : Type ℓ} where
  unfoldable pub new_quick_list : QuickList A
  new_quick_list = record { pages = []; size = 0 }

  -- `append(page, xs...)`
  abbrev pub append : (ℕ → ℕ → ℕ) → Page A → List A → Page A
  append grow p xs =
      let items' = p.items ++ xs in
      record {
        items = items';
        cap = if leb (length items') p.cap then p.cap else grow p.cap (length items');
      }

  -- a new page of one element
  abbrev pub fresh : A → Page A
  fresh val = record { items = val ∷ []; cap = page_size }

  -- `Add`: the last page, if it has room, or a new one
  unfoldable pub add_page : (ℕ → ℕ → ℕ) → List (Page A) → A → List (Page A)
  add_page grow [] val = fresh val ∷ []
  add_page grow (p ∷ []) val =
      if nat_eq (length p.items) p.cap then p ∷ fresh val ∷ [] else append grow p (val ∷ []) ∷ []
  add_page grow (p ∷ q ∷ ps) val = p ∷ add_page grow (q ∷ ps) val

  unfoldable pub add : (ℕ → ℕ → ℕ) → QuickList A → A → QuickList A
  unfolding add_page
  add grow ql val = record { pages = add_page grow ql.pages val; size = ql.size + 1 }

  -- the search of `find` from the front: `n` is the page at hand, `beg` the index of its first element
  unfoldable pub find_front : List (Page A) → ℕ → ℕ → ℕ → Option Iterator
  find_front [] n beg index = none
  find_front (p ∷ ps) n beg index =
      if ltb index (beg + length p.items)
      then some (record { node = n; offset = some (index - beg) })
      else find_front ps (n + 1) (beg + length p.items) index

  -- the search from the back, on the pages in reverse; `n` pages are left
  unfoldable pub find_back : List (Page A) → ℕ → ℕ → ℕ → Option Iterator
  find_back [] n beg index = none
  find_back (p ∷ ps) n beg index =
      let beg' = beg - length p.items in
      if leb beg' index
      then some (record { node = n - 1; offset = some (index - beg') })
      else find_back ps (n - 1) beg' index

  unfoldable pub find : QuickList A → ℕ → Option Iterator
  unfolding find_front find_back
  find ql index =
      if leb ql.size index
      then none
      else if ltb index (ql.size / 2)
      then find_front ql.pages 0 0 index
      else find_back (reverse ql.pages) (length ql.pages) ql.size index

  unfoldable pub page : QuickList A → Iterator → Option (Page A)
  page ql iter = get_elem? ql.pages iter.node

  unfoldable pub get_at : QuickList A → Iterator → Option A
  unfolding page
  get_at ql iter = do p ← page ql iter; o ← iter.offset; get_elem? p.items o

  unfoldable pub next : QuickList A → Iterator → Option (Iterator × Bool)
  unfolding page next_in
  next ql iter = do p ← page ql iter; some (next_in (length p.items) (length ql.pages) iter)

  -- the move of `prev` to the page before, for a list with pages
  abbrev pub prev_page : List (Page A) → ℕ → Option (Iterator × Bool)
  prev_page pages zero = some (record { node = 0; offset = none }, false)
  prev_page pages (suc m) = do
    p ← get_elem? pages m
    some (record { node = m; offset = some (length p.items - 1) }, true)

  unfoldable pub prev : QuickList A → Iterator → Option (Iterator × Bool)
  prev ql iter = elim iter.offset [
    | some (suc o) ↦ some (record iter { offset = some o }, true)
    | _ ↦ prev_page ql.pages iter.node
  ]

  unfoldable pub at_end : QuickList A → Iterator → Bool
  unfolding page
  at_end ql iter =
      if nat_eq (length ql.pages) 0
      then true
      else if not (nat_eq (iter.node + 1) (length ql.pages))
      then false
      else elim (page ql iter) [
        | none ↦ false
        | some p ↦ elim iter.offset [ none ↦ false | some o ↦ nat_eq o (length p.items) ]
      ]

  unfoldable pub at_begin : QuickList A → Iterator → Bool
  at_begin ql iter =
      if nat_eq (length ql.pages) 0
      then true
      else if not (nat_eq iter.node 0)
      then false
      else elim iter.offset [ none ↦ true | some o ↦ false ]

  unfoldable pub get : QuickList A → ℕ → Option A
  unfolding find get_at
  get ql index = do iter ← find ql index; get_at ql iter

  -- `Set`: `page[iter.offset] = val`
  unfoldable pub set_val : QuickList A → ℕ → A → Option (QuickList A)
  unfolding find page
  set_val ql index val = do
    iter ← find ql index
    p ← page ql iter
    o ← iter.offset
    some (record ql { pages = set ql.pages iter.node (record p { items = set p.items o val }) })

  -- `append(page[:o+1], page[o:]...)`, and the write of the value at `o`
  abbrev pub insert_in : (ℕ → ℕ → ℕ) → Page A → ℕ → A → Page A
  insert_in grow p o val =
      let wide = append grow (record p { items = take (o + 1) p.items }) (drop o p.items) in
      record wide { items = set wide.items o val }

  -- `ql.data.InsertAfter(page, node)`
  abbrev pub insert_after : ℕ → Page A → List (Page A) → List (Page A)
  insert_after n q [] = []
  insert_after zero q (p ∷ ps) = p ∷ q ∷ ps
  insert_after (suc n) q (p ∷ ps) = p ∷ insert_after n q ps

  -- the two parts of a full page, cut at `half`, and the one that takes the value
  unfoldable pub split_page : (ℕ → ℕ → ℕ) → ℕ → Page A → ℕ → A → Page A × Page A
  split_page grow half p o val =
      let front = record p { items = take half p.items } in
      let back = append grow (record { items = []; cap = 0 }) (drop half p.items) in
      if ltb o (length front.items)
      then (insert_in grow front o val, back)
      else (front, insert_in grow back (o - half) val)

  unfoldable pub insert_at_iter : (ℕ → ℕ → ℕ) → QuickList A → ℕ → Page A → ℕ → A → QuickList A
  unfolding split_page
  insert_at_iter grow ql n p o val =
      if ltb (length p.items) page_size
      then record { pages = set ql.pages n (insert_in grow p o val); size = ql.size + 1 }
      else let halves = split_page grow (page_size / 2) p o val in
        record { pages = insert_after n halves.1 (set ql.pages n halves.0); size = ql.size + 1 }

  unfoldable pub insert : (ℕ → ℕ → ℕ) → QuickList A → ℕ → A → Option (QuickList A)
  unfolding add find page insert_at_iter
  insert grow ql index val = if nat_eq index ql.size then some (add grow ql val) else (do
    iter ← find ql index
    p ← page ql iter
    o ← iter.offset
    some (insert_at_iter grow ql iter.node p o val))

  -- `ql.data.Remove(node)`
  abbrev pub delete_page : ℕ → List (Page A) → List (Page A)
  delete_page n [] = []
  delete_page zero (p ∷ ps) = ps
  delete_page (suc n) (p ∷ ps) = p ∷ delete_page n ps

  -- behind the elements of the page before page `n`; for the first page, the list is empty now
  abbrev pub behind : List (Page A) → ℕ → Iterator
  behind pages zero = record { node = 0; offset = some 0 }
  behind pages (suc m) = elim (get_elem? pages m) [
    | none ↦ record { node = 0; offset = some 0 }
    | some p ↦ record { node = m; offset = some (length p.items) }
  ]

  -- where it leaves it when the page is gone
  abbrev pub leave : List (Page A) → ℕ → Iterator
  leave pages n =
      if nat_eq (n + 1) (length pages) then behind pages n else record { node = n; offset = some 0 }

  -- `iter.remove` of the element at offset `o` of page `n`; the page is cut in place
  unfoldable pub remove_from : QuickList A → ℕ → Page A → ℕ → QuickList A × Iterator
  remove_from ql n p o =
      let rest = take o p.items ++ drop (o + 1) p.items in
      if nat_eq (length rest) 0
      then (record { pages = delete_page n ql.pages; size = ql.size - 1 }, leave ql.pages n)
      else (
        record { pages = set ql.pages n (record p { items = rest }); size = ql.size - 1 },
        stay n (length ql.pages) (length rest) o,
      )

  unfoldable pub remove_at : QuickList A → Iterator → Option ((QuickList A × Iterator) × A)
  unfolding page remove_from
  remove_at ql iter = do
    p ← page ql iter
    o ← iter.offset
    val ← get_elem? p.items o
    some (remove_from ql iter.node p o, val)

  unfoldable pub remove : QuickList A → ℕ → Option (QuickList A × A)
  unfolding find remove_at
  remove ql index = do iter ← find ql index; r ← remove_at ql iter; some (r.0.0, r.1)

  unfoldable pub list_len : QuickList A → ℕ
  list_len ql = ql.size

  -- the last element of a slice, and the slice without it
  abbrev pub pop : List A → Option (List A × A)
  pop [] = none
  pop (x ∷ []) = some ([], x)
  pop (x ∷ y ∷ ys) = do r ← pop (y ∷ ys); some (x ∷ r.0, r.1)

  -- the last page without its last element, or without the page if that was its only one
  unfoldable pub pop_page : List (Page A) → Option (List (Page A) × A)
  pop_page [] = none
  pop_page (p ∷ []) = do
    r ← pop p.items
    if nat_eq (length p.items) 1 then some ([], r.1) else some (record p { items = r.0 } ∷ [], r.1)
  pop_page (p ∷ q ∷ ps) = do r ← pop_page (q ∷ ps); some (p ∷ r.0, r.1)

  -- `RemoveLast`: the new list and the value, which is nil for an empty list
  unfoldable pub remove_last : QuickList A → Option (QuickList A × Option A)
  unfolding pop_page
  remove_last ql =
      if nat_eq ql.size 0
      then some (ql, none)
      else (do r ← pop_page ql.pages; some (record { pages = r.0; size = ql.size - 1 }, some r.1))
