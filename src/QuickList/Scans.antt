-- ===== src/QuickList/Scans.antt =====
-- The loops of internal/datastruct/list/quicklist.go: `ForEach`, `Contains`, `Range` and the removals by
-- value. A loop runs on fuel, `none` when it runs out; a consumer that the source closes over its
-- variables takes their values, and gives the new ones.
use hayakv.Base.{
  ℕ, zero, suc, ◌+◌, ◌-◌, Bool, true, false, ◌||◌, Option, none, some, List, [], ◌∷◌, ◌++◌, ltb,
  leb, nat_eq, if◌then◌else◌, ◌>>=◌,
}
use hayakv.QuickList.{QuickList, Iterator, find, get_at, next, prev, at_end, at_begin, remove_at}

module _ {ℓ ℓ'} {A : Type ℓ} {S : Type ℓ'} where
  -- the loop of `ForEach`
  unfoldable pub for_each_loop :
      ℕ → QuickList A → (ℕ → A → S → S × Bool) → ℕ → Iterator → S → Option S
  unfolding get_at next
  for_each_loop zero ql consumer i iter s = none
  for_each_loop (suc fuel) ql consumer i iter s = do
    v ← get_at ql iter
    let r = consumer i v s
    elim r.1 [
      | false ↦ some r.0
      | true ↦ do
        m ← next ql iter
        if m.1 then for_each_loop fuel ql consumer (i + 1) m.0 r.0 else some r.0
    ]

  unfoldable pub for_each : ℕ → QuickList A → (ℕ → A → S → S × Bool) → S → Option S
  unfolding find for_each_loop
  for_each fuel ql consumer s =
      if nat_eq ql.size 0
      then some s
      else (do iter ← find ql 0; for_each_loop fuel ql consumer 0 iter s)

module _ {ℓ} {A : Type ℓ} where
  -- the closure of `Contains`
  abbrev pub spot : (A → Bool) → ℕ → A → Bool → Bool × Bool
  spot expected i actual contains = if expected actual then (true, false) else (contains, true)

  unfoldable pub contains : ℕ → QuickList A → (A → Bool) → Option Bool
  unfolding for_each
  contains fuel ql expected = for_each fuel ql (spot expected) false

  -- the loop of `Range`, with the elements that are still to come and `slice`
  unfoldable pub range_loop : ℕ → QuickList A → Iterator → List A → Option (List A)
  unfolding get_at next
  range_loop zero ql iter slice = some slice
  range_loop (suc n) ql iter slice = do
    v ← get_at ql iter
    m ← next ql iter
    range_loop n ql m.0 (slice ++ (v ∷ []))

  unfoldable pub range : QuickList A → ℕ → ℕ → Option (List A)
  unfolding find range_loop
  range ql start stop =
      if leb ql.size start
      then none
      else if ltb stop start || ltb ql.size stop
      then none
      else (do iter ← find ql start; range_loop (stop - start) ql iter [])

  -- The loop of `RemoveByVal`; `stops` is its test of the number of removals, and never holds in the
  -- loop of `RemoveAllByVal`.
  unfoldable pub remove_loop :
      ℕ → (A → Bool) → (ℕ → Bool) → QuickList A → Iterator → ℕ → Option (QuickList A × ℕ)
  unfolding at_end get_at next remove_at
  remove_loop zero expected stops ql iter removed = none
  remove_loop (suc fuel) expected stops ql iter removed = elim (at_end ql iter) [
    | true ↦ some (ql, removed)
    | false ↦ do
      v ← get_at ql iter
      elim (expected v) [
        | true ↦ do
          r ← remove_at ql iter
          if stops (removed + 1)
              then some (r.0.0, removed + 1)
              else remove_loop fuel expected stops r.0.0 r.0.1 (removed + 1)
        | false ↦ do m ← next ql iter; remove_loop fuel expected stops ql m.0 removed
      ]
  ]

  unfoldable pub remove_all_by_val : ℕ → QuickList A → (A → Bool) → Option (QuickList A × ℕ)
  unfolding find remove_loop
  remove_all_by_val fuel ql expected = do
    iter ← find ql 0
    remove_loop fuel expected (λ _. false) ql iter 0

  unfoldable pub remove_by_val : ℕ → QuickList A → (A → Bool) → ℕ → Option (QuickList A × ℕ)
  unfolding find remove_loop
  remove_by_val fuel ql expected count = if nat_eq ql.size 0 then some (ql, 0) else (do
    iter ← find ql 0
    remove_loop fuel expected (λ removed. nat_eq removed count) ql iter 0)

  -- the loop of `ReverseRemoveByVal`
  unfoldable pub reverse_remove_loop :
      ℕ → (A → Bool) → (ℕ → Bool) → QuickList A → Iterator → ℕ → Option (QuickList A × ℕ)
  unfolding at_begin get_at prev remove_at
  reverse_remove_loop zero expected stops ql iter removed = none
  reverse_remove_loop (suc fuel) expected stops ql iter removed = elim (at_begin ql iter) [
    | true ↦ some (ql, removed)
    | false ↦ do
      v ← get_at ql iter
      elim (expected v) [
        | true ↦ do
          r ← remove_at ql iter
          if stops (removed + 1) then some (r.0.0, removed + 1) else (do
            m ← prev r.0.0 r.0.1
            reverse_remove_loop fuel expected stops r.0.0 m.0 (removed + 1))
        | false ↦ do m ← prev ql iter; reverse_remove_loop fuel expected stops ql m.0 removed
      ]
  ]

  unfoldable pub reverse_remove_by_val : ℕ → QuickList A → (A → Bool) → ℕ → Option (QuickList A × ℕ)
  unfolding find reverse_remove_loop
  reverse_remove_by_val fuel ql expected count = if nat_eq ql.size 0 then some (ql, 0) else (do
    iter ← find ql (ql.size - 1)
    reverse_remove_loop fuel expected (λ removed. nat_eq removed count) ql iter 0)
