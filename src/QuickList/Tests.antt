-- ===== src/QuickList/Tests.antt =====
-- Runs of the list of pages, and its theorems at concrete inputs.
use hayakv.Base.{
  ℕ, ◌+◌, ◌*◌, ◌≡◌, refl, ◌≤◌, ◌<◌, ◌⊎◌, Bool, none, some, List, [], ◌∷◌, reverse, leb, nat_eq,
  arith,
}
use hayakv.QuickList.{
  QuickList, insert, remove, find_front, find_back, find, get_at, page, next, next_in, remove_at,
  remove_from,
}
use hayakv.QuickList.Pages.{contents, contents_of, IsValid}
use hayakv.QuickList.Writes.{Holds, inserted, insert_lem}
use hayakv.QuickList.Scans.{for_each, range, range_loop, reverse_remove_by_val}
use hayakv.QuickList.Loops.{visit, for_each_lem}
use hayakv.QuickList.Sweeps.{removal}
use hayakv.QuickList.Backs.{reverse_remove_by_val_lem}
use hayakv.QuickList.Session.{
  Call, add_call, set_call, insert_call, remove_call, remove_last_call, for_each_call,
  remove_all_by_val_call, remove_by_val_call, len_call, contains_call, range_call,
}

-- the runtime doubles a capacity
abbrev double : ℕ → ℕ → ℕ
double cap needed = needed * 2

-- three pages of two, one and three elements
abbrev sample : QuickList ℕ
sample = record {
  pages =
      record { items = 4 ∷ 7 ∷ []; cap = 1024 }
      ∷ record { items = 7 ∷ []; cap = 1024 }
      ∷ record { items = 5 ∷ 7 ∷ 9 ∷ []; cap = 3 }
      ∷ [];
  size = 6;
}

sample-IsValid : IsValid sample
unfolding contents_of
sample-IsValid = record { filled = (omega arith, (omega arith, (omega arith, tt))); counted = refl }

-- a page that the removal empties is gone
remove_one_page :
    remove sample 2
    ≡ some (
      record {
        pages =
            record { items = 4 ∷ 7 ∷ []; cap = 1024 }
            ∷ record { items = 5 ∷ 7 ∷ 9 ∷ []; cap = 3 }
            ∷ [];
        size = 5;
      },
      7,
    )
unfolding remove find find_front find_back remove_at page remove_from
remove_one_page = refl

range_across : range sample 1 5 ≡ some (7 ∷ 7 ∷ 5 ∷ 7 ∷ [])
unfolding range range_loop find find_front find_back get_at page next next_in
range_across = refl

insert_lem_example :
    ((6 < 2) × (insert double sample 2 8 ≡ none))
    ⊎ ((ql' : QuickList ℕ) × (2 ≤ 6)
        × (insert double sample 2 8 ≡ some ql')
        × Holds ql' (inserted 2 8 (contents sample)))
insert_lem_example = insert_lem double sample 2 8 sample-IsValid

abbrev sum_below : ℕ → ℕ → ℕ → ℕ × Bool
sum_below i v s = (s + v, leb i 3)

for_each_lem_example : for_each 6 sample sum_below 0 ≡ some (visit sum_below 0 (contents sample) 0)
for_each_lem_example = for_each_lem 6 sample sum_below 0 sample-IsValid (omega arith)

reverse_remove_by_val_lem_example :
    (ql' : QuickList ℕ) × (reverse_remove_by_val 7 sample (nat_eq 7) 2
      ≡ some (ql', (removal (nat_eq 7) 2 (reverse (contents sample))).1))
    × Holds ql' (reverse (removal (nat_eq 7) 2 (reverse (contents sample))).0)
reverse_remove_by_val_lem_example =
    reverse_remove_by_val_lem 7 sample (nat_eq 7) 2 sample-IsValid (omega arith)

-- a session through all calls
abbrev calls : List (Call ℕ)
calls =
    add_call 4
    ∷ add_call 7
    ∷ insert_call 1 7
    ∷ set_call 0 5
    ∷ contains_call (nat_eq 4)
    ∷ remove_by_val_call (nat_eq 7) 1
    ∷ range_call 0 2
    ∷ for_each_call (λ i v shown. leb i 0)
    ∷ remove_all_by_val_call (nat_eq 9)
    ∷ remove_last_call
    ∷ len_call
    ∷ remove_call 0
    ∷ len_call
    ∷ []
