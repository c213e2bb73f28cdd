-- ===== src/QuickList/Session.antt =====
-- Any sequence of calls on the list of pages against the same calls on a list.
use hayakv.Base.{
  ℕ, suc, ◌-◌, ◌≡◌, ◌⊎◌, Bool, not, ◌&&◌, Option, none, some, List, [], ◌∷◌, ◌++◌, length,
  get_elem?, set, keep, take, drop, reverse, ltb, leb, nat_eq, if◌then◌else◌, ◌>>=◌,
}
use hayakv.QuickList.{QuickList, add, get, set_val, insert, remove, remove_last, list_len}
use hayakv.QuickList.Writes.{Holds, inserted}
use hayakv.QuickList.Cuts.{removed}
use hayakv.QuickList.Scans.{
  contains, range, for_each, remove_all_by_val, remove_by_val, reverse_remove_by_val,
}
use hayakv.QuickList.Loops.{has, visit}
use hayakv.QuickList.Sweeps.{removal}

-- The calls of the `List` interface, with no negative index or count. A consumer of `ForEach` decides
-- whether to go on by the index, the element and the elements it has been shown before.
pub data Call {ℓ} (A : Type ℓ) : Type ℓ where
  add_call : A → Call A
  get_call : ℕ → Call A
  set_call : ℕ → A → Call A
  insert_call : ℕ → A → Call A
  remove_call : ℕ → Call A
  remove_last_call : Call A
  remove_all_by_val_call : (A → Bool) → Call A
  remove_by_val_call : (A → Bool) → ℕ → Call A
  reverse_remove_by_val_call : (A → Bool) → ℕ → Call A
  len_call : Call A
  for_each_call : (ℕ → A → List A → Bool) → Call A
  contains_call : (A → Bool) → Call A
  range_call : ℕ → ℕ → Call A

pub data Answer {ℓ} (A : Type ℓ) : Type ℓ where
  nothing : Answer A
  value : Option A → Answer A
  number : ℕ → Answer A
  truth : Bool → Answer A
  values : List A → Answer A

module _ {ℓ} {A : Type ℓ} where
  -- the consumer as a function on what it has been shown
  abbrev pub follow : (ℕ → A → List A → Bool) → ℕ → A → List A → List A × Bool
  follow goes_on i v shown = (shown ++ (v ∷ []), goes_on i v shown)

  -- A call of the code: the new list and the answer, or a panic. A loop gets a round more than the list
  -- has elements.
  unfoldable pub call : (ℕ → ℕ → ℕ) → Call A → QuickList A → Option (QuickList A × Answer A)
  call grow (add_call v) ql = some (add grow ql v, nothing)
  call grow (get_call i) ql = (get ql i >>= λ v. some (value (some v))) >>= λ a. some (ql, a)
  call grow (set_call i v) ql = set_val ql i v >>= λ ql'. some (ql', nothing)
  call grow (insert_call i v) ql = insert grow ql i v >>= λ ql'. some (ql', nothing)
  call grow (remove_call i) ql = remove ql i >>= λ r. some (r.0, value (some r.1))
  call grow remove_last_call ql = remove_last ql >>= λ r. some (r.0, value r.1)
  call grow (remove_all_by_val_call p) ql =
      remove_all_by_val (suc ql.size) ql p >>= λ r. some (r.0, number r.1)
  call grow (for_each_call goes_on) ql =
      for_each ql.size ql (follow goes_on) [] >>= λ shown. some (ql, values shown)
  call grow (remove_by_val_call p n) ql =
      remove_by_val (suc ql.size) ql p n >>= λ r. some (r.0, number r.1)
  call grow (reverse_remove_by_val_call p n) ql =
      reverse_remove_by_val (suc ql.size) ql p n >>= λ r. some (r.0, number r.1)
  call grow len_call ql = some (ql, number (list_len ql))
  call grow (contains_call p) ql = contains ql.size ql p >>= λ b. some (ql, truth b)
  call grow (range_call i j) ql = range ql i j >>= λ xs. some (ql, values xs)

  unfoldable pub session : (ℕ → ℕ → ℕ) → List (Call A) → QuickList A → Option (List (Answer A))
  unfolding call
  session grow [] ql = some []
  session grow (c ∷ cs) ql = do (ql', a) ← call grow c ql; as' ← session grow cs ql'; some (a ∷ as')

  -- the list without its last element, and that element
  abbrev pub unsnoc : List A → List A × Option A
  unsnoc xs = (take (length xs - 1) xs, get_elem? xs (length xs - 1))

  -- The same call on a list.
  unfoldable pub call_list : Call A → List A → Option (List A × Answer A)
  call_list (add_call v) xs = some (xs ++ (v ∷ []), nothing)
  call_list (get_call i) xs = (get_elem? xs i >>= λ v. some (value (some v))) >>= λ a. some (xs, a)
  call_list (set_call i v) xs = if ltb i (length xs) then some (set xs i v, nothing) else none
  call_list (insert_call i v) xs =
      if leb i (length xs) then some (inserted i v xs, nothing) else none
  call_list (remove_call i) xs = get_elem? xs i >>= λ v. some (removed i xs, value (some v))
  call_list remove_last_call xs = some ((unsnoc xs).0, value (unsnoc xs).1)
  call_list (remove_all_by_val_call p) xs =
      if nat_eq (length xs) 0
      then none
      else some (keep (λ x. not (p x)) xs, number (length (keep p xs)))
  call_list (for_each_call goes_on) xs = some (xs, values (visit (follow goes_on) 0 xs []))
  call_list (remove_by_val_call p n) xs = some ((removal p n xs).0, number (removal p n xs).1)
  call_list (reverse_remove_by_val_call p n) xs =
      let out = removal p n (reverse xs) in some (reverse out.0, number out.1)
  call_list len_call xs = some (xs, number (length xs))
  call_list (contains_call p) xs = some (xs, truth (has p xs))
  call_list (range_call i j) xs =
      if ltb i (length xs) && leb i j && leb j (length xs)
      then some (xs, values (take (j - i) (drop i xs)))
      else none

  unfoldable pub session_list : List (Call A) → List A → Option (List (Answer A))
  unfolding call_list
  session_list [] xs = some []
  session_list (c ∷ cs) xs = do (xs', a) ← call_list c xs; as' ← session_list cs xs'; some (a ∷ as')

  -- the two calls agree
  abbrev pub Agrees : Option (QuickList A × Answer A) → Option (List A × Answer A) → Type ℓ
  Agrees r s =
      ((r ≡ none) × (s ≡ none))
      ⊎ ((ql' : QuickList A) × (xs' : List A) × (a : Answer A) × (r ≡ some (ql', a))
          × (s ≡ some (xs', a))
          × Holds ql' xs')
