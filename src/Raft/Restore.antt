-- ===== src/Raft/Restore.antt =====
-- `Restore`: the slot lists that it builds from the owners of a snapshot.
use hayakv.Base.{
  ℕ, ◌<◌, ◌≡◌, refl, inl, inr, Bool, false, ◌||◌, List, [], ◌∷◌, arith, nat_eq, nat_eq_iff,
  Bool-cases,
}
use hayakv.Base.Classes.{Bytes, bytes_eq_iff, ℕ_LinOrd}
use hayakv.Base.Slices.{IsAscending, contains}
use hayakv.Raft.{Fsm, FsmSnapshot, lookup_slot, restore_slots, restore}
use hayakv.Raft.Migration.{owned_by, routed, IsConsistent}

-- does the iteration yield this slot?
abbrev listed : ℕ → List (ℕ × Bytes) → Bool
listed slot [] = false
listed slot ((k, v) ∷ rest) = nat_eq k slot || listed slot rest

-- an iteration over a map yields each key once
abbrev pub IsMap : List (ℕ × Bytes) → Type 0
IsMap [] = Unit
IsMap ((k, v) ∷ rest) = (listed k rest ≡ false) × IsMap rest

unlisted :
    (node : Bytes) (slot : ℕ) (owners : List (ℕ × Bytes))
    → listed slot owners ≡ false
    → contains slot (restore_slots owners node) ≡ false
unfolding restore_slots contains
unlisted node slot [] h = refl
unlisted node slot ((k, v) ∷ rest) h = ground (arith, unlisted node slot rest)

restored :
    (node : Bytes) (slot : ℕ) (owners : List (ℕ × Bytes))
    → IsMap owners
    → contains slot (restore_slots owners node) ≡ owned_by (lookup_slot owners slot) node
unfolding restore_slots contains
restored node slot [] h = refl
restored node slot ((k, v) ∷ rest) (fresh, h) = elim (Bool-cases (nat_eq k slot)) [
  | inl e ↦
      let same = (nat_eq_iff k slot).0 e in
      ground (arith, e, same, fresh, unlisted node k rest fresh)
  | inr e ↦ ground (arith, e, restored node slot rest h)
]

-- After `Restore` from a snapshot, whatever the state was, a node's slot list has exactly the slots
-- that it owns, in whichever order the map of the snapshot is iterated over.
pub restore-agree :
    (fsm : Fsm) (snapshot : FsmSnapshot) (node : Bytes) (slot : ℕ)
    → IsMap snapshot.slot2node
    → contains slot ((restore fsm snapshot).node2slot node)
      ≡ routed (restore fsm snapshot).slot2node slot node
unfolding restore
restore-agree fsm snapshot node slot h = restored node slot snapshot.slot2node h

-- If the iteration yields two slots of one node in descending order first, the restored table is not
-- consistent: the node's list is not ascending.
pub restore-disorder :
    (fsm : Fsm) (snapshot : FsmSnapshot) (node : Bytes) (a b : ℕ) (rest : List (ℕ × Bytes))
    → a < b
    → snapshot.slot2node ≡ (b, node) ∷ (a, node) ∷ rest
    → ¬ IsConsistent (restore fsm snapshot)
unfolding restore restore_slots
restore-disorder fsm snapshot node a b rest lt e bad =
    falls (rw (restore_slots, e, (bytes_eq_iff node node).1 refl) at (bad.sorted node))
  where
    falls : IsAscending (b ∷ a ∷ restore_slots rest node) → ⊥
    falls h = ground (arith, h.0.0, lt)
