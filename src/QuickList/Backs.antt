-- ===== src/QuickList/Backs.antt =====
-- `ReverseRemoveByVal` and `RemoveLast`.
use hayakv.Base.{
  ℕ, zero, suc, ◌+◌, ◌-◌, ◌≤◌, ◌<◌, ◌≡◌, refl, ap, sym, ◌∙◌, ◌⊎◌, inl, inr, Bool, false, none, some,
  List, [], ◌∷◌, ◌++◌, arith, length, take, drop, reverse, length-append, reverse-reverse,
  reverse-append_one, ltb, nat_eq, Bool-cases, ◌>>=◌, All,
}
use mathlib.Core.Path.{subst}
use mathlib.Core.List.{append_assoc, append-nil}
use hayakv.QuickList.{Page, QuickList, Iterator, prev, at_begin, pop, pop_page, remove_last}
use hayakv.QuickList.Pages.{contents_of, contents, IsValid}
use hayakv.QuickList.Reads.{find-Stands}
use hayakv.QuickList.Writes.{Holds}
use hayakv.QuickList.Moves.{At, Stands-At, At-Stands, Rests, prev-At, get_elem?_lt}
use hayakv.QuickList.Cuts.{remove_at-Removed, length-removed}
use hayakv.QuickList.Scans.{reverse_remove_loop, reverse_remove_by_val}
use hayakv.QuickList.Loops.{drop_at, empty_drop, no_contents, get_at-At}
use hayakv.QuickList.Sweeps.{
  sweep, take-removed, drop-removed, take_at, take_all, removal, sweep-removal, removal_none,
}

module _ {ℓ} {A : Type ℓ} where
  -- `iter` stands on the element before index `k`, or in front of the list
  abbrev pub Back : List (Page A) → ℕ → Iterator → Type ℓ
  Back ps k iter =
      ((k ≡ 0) × (iter ≡ record { node = 0; offset = none })) ⊎ ((0 < k) × At ps (k - 1) iter)

  at_begin-Back :
      (ql : QuickList A) (k : ℕ) (iter : Iterator)
      → Back ql.pages k iter
      → at_begin ql iter ≡ nat_eq k 0
  unfolding at_begin
  at_begin-Back ql k iter (inl (z, e)) = elim (Bool-cases (nat_eq (length ql.pages) 0)) [
    | inl f ↦ rw (at_begin, z, e, f)
    | inr f ↦ rw (at_begin, z, e, f)
  ]
  at_begin-Back ql k iter (inr (pos, a)) =
      let there : nat_eq (length ql.pages) 0 ≡ false =
        ground (arith, get_elem?_lt iter.node ql.pages a.at_page a.here) in
      let away : nat_eq k 0 ≡ false = ground (arith, pos) in
      elim (Bool-cases (nat_eq iter.node 0)) [
        | inl f ↦ rw (at_begin, there, away, f, a.off)
        | inr f ↦ rw (at_begin, there, away, f)
      ]

  prev-Rests :
      (ql : QuickList A) (k : ℕ) (iter : Iterator)
      → IsValid ql
      → Rests ql.pages k iter
      → (iter' : Iterator) × (b : Bool) × (prev ql iter ≡ some (iter', b)) × Back ql.pages k iter'
  unfolding prev
  prev-Rests ql k iter h (inl (e, z, f)) =
      (record { node = 0; offset = none }, false, ap (prev ql) f, inl (z, refl))
  prev-Rests ql k iter h (inr a) =
      let (iter', moved, back) = prev-At ql k iter h a in (iter', ltb 0 k, moved, back)

  reverse_remove_loop_lem :
      (fuel : ℕ) (expected : A → Bool) (stops : ℕ → Bool) (ql : QuickList A) (k : ℕ)
      (iter : Iterator) (n : ℕ)
      → IsValid ql
      → Back ql.pages k iter
      → k < fuel
      → k ≤ length (contents ql)
      → let out = sweep expected stops n (reverse (take k (contents ql))) in
        (ql' : QuickList A) × (reverse_remove_loop fuel expected stops ql iter n
          ≡ some (ql', out.1))
        × Holds ql' (reverse out.0 ++ drop k (contents ql))
  unfolding reverse_remove_loop sweep
  reverse_remove_loop_lem zero expected stops ql k iter n h b enough le =
      absurd (omega (arith, enough))
  reverse_remove_loop_lem (suc fuel) expected stops ql zero iter n h b enough le =
      let begin = at_begin-Back ql 0 iter b in rw (reverse_remove_loop, begin) (ql, refl, (h, refl))
  reverse_remove_loop_lem (suc fuel) expected stops ql (suc j) iter n h b enough le =
      let begin : at_begin ql iter ≡ false = at_begin-Back ql (suc j) iter b ∙ ground arith in
      let a = At_back ql j iter b in
      let lt : j < length (contents ql) = omega (arith, le) in
      let (v, got, found) = get_at-At ql j iter a lt in
      let step : j + 1 ≡ suc j = omega arith in
      let split : reverse (take (suc j) (contents ql)) ≡ v ∷ reverse (take j (contents ql)) =
        ap (λ i. reverse (take i (contents ql))) (sym step)
        ∙ (ap reverse (take_at j (contents ql) v found)
            ∙ reverse-append_one (take j (contents ql)) v) in
      rw (reverse_remove_loop, begin, split, got, ◌>>=◌)
        (elim (Bool-cases (expected v)) [
          | inl x ↦
              let (ql', iter', w, runs, _, rm) =
                remove_at-Removed ql j iter h (At-Stands ql.pages j iter a lt) in
              let front = ap (take j) rm.left ∙ take-removed j (contents ql) in
              let back =
                ap (drop j) rm.left
                ∙ (drop-removed j (contents ql) ∙ ap (λ i. drop i (contents ql)) step) in
              elim (Bool-cases (stops (n + 1))) [
                | inl y ↦
                    rw (x, runs, y)
                      (
                        ql',
                        refl,
                        (
                          rm.valid,
                          rm.left
                              ∙ (ap (λ i. take j (contents ql) ++ drop i (contents ql)) step
                                  ∙ ap (λ t. t ++ drop (suc j) (contents ql))
                                      (sym (reverse-reverse (take j (contents ql))))),
                        ),
                      )
                | inr y ↦
                    let (iter'', b', moved, at_back) = prev-Rests ql' j iter' rm.valid rm.rests in
                    let rec =
                      reverse_remove_loop_lem fuel expected stops ql' j iter'' (n + 1) rm.valid
                        at_back (omega (arith, enough))
                        (omega (arith, ap length rm.left, length-removed j (contents ql) lt, lt)) in
                    rw (x, runs, y, moved, ← back, ← front) rec
              ]
          | inr x ↦
              let (iter', b', moved, at_back) = prev-Rests ql j iter h (inr a) in
              let (ql', runs, holds) =
                reverse_remove_loop_lem fuel expected stops ql j iter' n h at_back
                  (omega (arith, enough)) (omega (arith, lt)) in
              let rest = sweep expected stops n (reverse (take j (contents ql))) in
              rw (x, moved)
                (
                  ql',
                  runs,
                  (
                    holds.0,
                    holds.1
                        ∙ (ap (λ t. reverse rest.0 ++ t)
                              (drop_at j (contents ql) v found
                                ∙ ap (λ i. v ∷ drop i (contents ql)) step)
                            ∙ sym (
                                append_assoc (reverse rest.0) (v ∷ [])
                                  (drop (suc j) (contents ql)))),
                  ),
                )
        ])
    where
      At_back :
          (ql : QuickList A) (j : ℕ) (iter : Iterator)
          → Back ql.pages (suc j) iter
          → At ql.pages j iter
      At_back ql j iter (inl (z, _)) = absurd (omega (arith, z))
      At_back ql j iter (inr (_, a)) = subst (λ i. At ql.pages i iter) (omega arith) a

  -- `ReverseRemoveByVal` removes the last `count` elements that pass its test, or all of them for a count
  -- of 0, keeps the others in order, and returns how many it removed; fuel beyond the length is enough.
  pub reverse_remove_by_val_lem :
      (fuel : ℕ) (ql : QuickList A) (expected : A → Bool) (count : ℕ)
      → IsValid ql
      → ql.size < fuel
      → let out = removal expected count (reverse (contents ql)) in
        (ql' : QuickList A) × (reverse_remove_by_val fuel ql expected count ≡ some (ql', out.1))
        × Holds ql' (reverse out.0)
  unfolding reverse_remove_by_val
  reverse_remove_by_val_lem fuel ql expected count h enough = elim (Bool-cases (nat_eq ql.size 0)) [
    | inl e ↦
        let empty = no_contents (contents ql) (ground (arith, e, h.counted)) in
        let same =
          ap (λ t. removal expected count (reverse t)) empty ∙ removal_none expected count in
        rw (e, same) (ql, refl, (h, empty))
    | inr e ↦
        let (iter, found, st) = find-Stands ql (ql.size - 1) h (ground (arith, e)) in
        let whole : take ql.size (contents ql) ≡ contents ql =
          take_all ql.size (contents ql) (omega (arith, h.counted)) in
        let none_left : drop ql.size (contents ql) ≡ [] =
          empty_drop ql.size (contents ql) (omega (arith, h.counted)) in
        let (ql', runs, holds) =
          reverse_remove_loop_lem fuel expected (λ r. nat_eq r count) ql ql.size iter 0 h
            (inr (ground (arith, e), Stands-At ql.pages (ql.size - 1) iter st)) enough
            (omega (arith, h.counted)) in
        let same : sweep expected (λ r. nat_eq r count) 0 (reverse (take ql.size (contents ql)))
            ≡ removal expected count (reverse (contents ql)) =
          ap (λ t. sweep expected (λ r. nat_eq r count) 0 (reverse t)) whole
          ∙ sweep-removal expected count (reverse (contents ql)) in
        (
          ql',
          rw (e, found, ◌>>=◌) (runs ∙ ap (λ t. some (ql', t.1)) same),
          (
            holds.0,
            holds.1
                ∙ (ap (λ t. reverse t.0 ++ drop ql.size (contents ql)) same
                    ∙ (ap (λ t. reverse (removal expected count (reverse (contents ql))).0 ++ t)
                          none_left
                        ∙ append-nil (reverse (removal expected count (reverse (contents ql))).0))),
          ),
        )
  ]

  pop_lem :
      (xs : List A)
      → 0 < length xs
      → (ys : List A) × (v : A) × (pop xs ≡ some (ys, v)) × (xs ≡ ys ++ (v ∷ []))
  pop_lem [] h = absurd (omega arith)
  pop_lem (x ∷ []) h = ([], x, refl, refl)
  pop_lem (x ∷ y ∷ xs) h =
      let (ys, v, runs, same) = pop_lem (y ∷ xs) (omega arith) in
      (x ∷ ys, v, rw (runs, ◌>>=◌), ap (λ t. x ∷ t) same)

  pop_page_lem :
      (ps : List (Page A))
      → All (λ p. 0 < length p.items) ps
      → 0 < length ps
      → (ps' : List (Page A)) × (v : A) × (pop_page ps ≡ some (ps', v))
        × All (λ p. 0 < length p.items) ps'
        × (contents_of ps ≡ contents_of ps' ++ (v ∷ []))
  unfolding pop_page contents_of
  pop_page_lem [] h lt = absurd (omega arith)
  pop_page_lem (p ∷ []) h lt =
      let (ys, v, runs, same) = pop_lem p.items h.0 in
      let size = ap length same in
      let more = length-append ys (v ∷ []) in
      elim (Bool-cases (nat_eq (length p.items) 1)) [
        | inl e ↦
            let empty = no_contents ys (ground (arith, e, size, more)) in
            (
              [],
              v,
              rw (runs, ◌>>=◌, e),
              tt,
              append-nil p.items ∙ (same ∙ ap (λ t. t ++ (v ∷ [])) empty),
            )
        | inr e ↦ (
          record p { items = ys } ∷ [],
          v,
          rw (runs, ◌>>=◌, e),
          (ground (arith, e, size, more, h.0), tt),
          append-nil p.items ∙ (same ∙ ap (λ t. t ++ (v ∷ [])) (sym (append-nil ys))),
        )
      ]
  pop_page_lem (p ∷ q ∷ ps) h lt =
      let (ps', v, runs, filled, same) = pop_page_lem (q ∷ ps) h.1 (omega arith) in
      (
        p ∷ ps',
        v,
        rw (runs, ◌>>=◌),
        (h.0, filled),
        ap (λ t. p.items ++ t) same ∙ sym (append_assoc p.items (contents_of ps') (v ∷ [])),
      )

  some_page : (ps : List (Page A)) → 0 < length (contents_of ps) → 0 < length ps
  unfolding contents_of
  some_page [] h = absurd (omega (arith, h))
  some_page (p ∷ ps) h = omega arith

  -- `RemoveLast` takes the last element off and returns it; an empty list stays as it is.
  pub remove_last_lem :
      (ql : QuickList A)
      → IsValid ql
      → ((contents ql ≡ []) × (remove_last ql ≡ some (ql, none)))
        ⊎ ((ql' : QuickList A) × (v : A) × (remove_last ql ≡ some (ql', some v))
            × IsValid ql'
            × (contents ql ≡ contents ql' ++ (v ∷ [])))
  unfolding remove_last contents_of
  remove_last_lem ql h = elim (Bool-cases (nat_eq ql.size 0)) [
    | inl e ↦ inl (no_contents (contents ql) (ground (arith, e, h.counted)), rw e)
    | inr e ↦
        let (ps', v, runs, filled, same) =
          pop_page_lem ql.pages h.filled (some_page ql.pages (ground (arith, e, h.counted))) in
        inr (
          record { pages = ps'; size = ql.size - 1 },
          v,
          rw (e, runs, ◌>>=◌),
          record {
            filled = filled;
            counted =
                omega (arith, h.counted, ap length same, length-append (contents_of ps') (v ∷ []));
          },
          same,
        )
  ]
