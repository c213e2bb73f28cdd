-- ===== src/Raft/Migration.antt =====
-- `addSlots` and `removeSlots` on the routing table, and the end of a migration.
use hayakv.Base.{
  ℕ, suc, ◌+◌, ◌<◌, ◌≡◌, refl, ap, ◌∙◌, inl, inr, Bool, true, false, ◌&&◌, ◌||◌, not, Option, none,
  some, List, [], ◌∷◌, arith, length, get_or, nat_eq, nat_eq_iff, if◌then◌else◌, Bool-cases,
  Option-cases,
}
use native.Mathlib.Nat.{add-zero}
use hayakv.Base.Classes.{Bytes, bytes_eq, bytes_eq_iff, ℕ_LinOrd}
use hayakv.Base.Slices.{
  IsAscending, contains, rank, lower_bound, found_at, insert_at, lower_bound-eq-rank, found_at-rank,
}
use hayakv.Base.Slices.Laws.{insert_at-IsAscending, contains-insert_at}
use hayakv.Raft.{
  Fsm, Slice, MigratingTask, visible, whole, cut_slot, release, remove_loop, remove_slots, add_slot,
  add_slots, update, apply, finish_migrate,
}
use hayakv.Raft.Slots.{Fits, cut_slot-Without, take_all}

-- is this the owner of a slot?
abbrev pub owned_by : Option Bytes → Bytes → Bool
owned_by none node = false
owned_by (some n) node = bytes_eq n node

abbrev pub routed : (ℕ → Option Bytes) → ℕ → Bytes → Bool
routed m slot node = owned_by (m slot) node

-- The two maps say the same, and every slot list is ascending.
pub record IsConsistent (fsm : Fsm) : Type 0 where
  pub sorted : (node : Bytes) → IsAscending (fsm.node2slot node)
  pub agree :
      (node : Bytes) (slot : ℕ)
      → contains slot (fsm.node2slot node) ≡ routed fsm.slot2node slot node

-- What `addSlots` makes of the two maps.
pub record Added (fsm : Fsm) (node : Bytes) (slots : List ℕ) (fsm' : Fsm) : Type 0 where
  pub sorted : (n : Bytes) → IsAscending (fsm'.node2slot n)
  pub members :
      (n : Bytes) (w : ℕ)
      → contains w (fsm'.node2slot n)
        ≡ (bytes_eq node n && contains w slots || contains w (fsm.node2slot n))
  pub others : (n : Bytes) → bytes_eq node n ≡ false → fsm'.node2slot n ≡ fsm.node2slot n
  pub owners :
      (w : ℕ) → fsm'.slot2node w ≡ (if contains w slots then some node else fsm.slot2node w)

add_slot_members :
    (held : List ℕ) (slot w : ℕ)
    → IsAscending held
    → let index = lower_bound held slot 0 in
      let held' = if found_at held index slot 0 then held else insert_at index slot held in
      IsAscending held' × (contains w held' ≡ (nat_eq slot w || contains w held))
add_slot_members held slot w a =
    rw (lower_bound-eq-rank held slot 0 a, found_at-rank slot held 0 a)
      (elim (Bool-cases (contains slot held)) [
        | inl e ↦ rw e (a, again e)
        | inr e ↦
            rw e
              (insert_at-IsAscending slot held a e, contains-insert_at slot w (rank slot held) held)
      ])
  where
    again : contains slot held ≡ true → contains w held ≡ (nat_eq slot w || contains w held)
    again e = elim (Bool-cases (nat_eq slot w)) [
      | inl p ↦ let same = (nat_eq_iff slot w).0 p in rw (p, ← same) e
      | inr p ↦ rw p
    ]

add_slot-Added :
    (fsm : Fsm) (node : Bytes) (slot : ℕ)
    → ((n : Bytes) → IsAscending (fsm.node2slot n))
    → Added fsm node (slot ∷ []) (add_slot node fsm slot)
unfolding add_slot contains
add_slot-Added fsm node slot a = record {
  sorted = λ n. elim (Bool-cases (bytes_eq node n)) [
    | inl e ↦ rw e (add_slot_members (fsm.node2slot node) slot 0 (a node)).0
    | inr e ↦ rw e (a n)
  ];
  members = λ n w. elim (Bool-cases (bytes_eq node n)) [
    | inl e ↦
        let same = (bytes_eq_iff node n).0 e in
        rw e (
          (add_slot_members (fsm.node2slot node) slot w (a node)).1
          ∙ ground (arith, ap fsm.node2slot same))
    | inr e ↦ rw e
  ];
  others = λ n e. rw e;
  owners = λ w. ground arith;
}

pub add_slots-Added :
    (slots : List ℕ) (fsm : Fsm) (node : Bytes)
    → ((n : Bytes) → IsAscending (fsm.node2slot n))
    → Added fsm node slots (add_slots fsm node slots)
unfolding add_slots contains
add_slots-Added [] fsm node a = record {
  sorted = a;
  members = λ n w. ground arith;
  others = λ n e. refl;
  owners = λ w. refl;
}
add_slots-Added (slot ∷ slots) fsm node a =
    let one = add_slot-Added fsm node slot a in
    let rest = add_slots-Added slots (add_slot node fsm slot) node one.sorted in
    record {
      sorted = rest.sorted;
      members = λ n w. ground (arith, rest.members n w, one.members n w);
      others = λ n e. rest.others n e ∙ one.others n e;
      owners = λ w. ground (arith, rest.owners w, one.owners w);
    }

-- `removeSlots` with a list of its own, as a recursion on that list
remove_list : Bytes → List ℕ → Slice × (ℕ → Option Bytes) → Slice × (ℕ → Option Bytes)
remove_list node [] st = st
remove_list node (slot ∷ slots) (s, m) =
    remove_list node slots (cut_slot s slot, release node m slot)

remove_loop-remove_list :
    (node : Bytes) (all slots : List ℕ) (i : ℕ) (st : Slice × (ℕ → Option Bytes))
    → ((j : ℕ) → j < length slots → get_or all (i + j) 0 ≡ get_or slots j 0)
    → remove_loop node (λ _ k. get_or all k 0) (length slots) i st ≡ remove_list node slots st
unfolding remove_loop remove_list
remove_loop-remove_list node all [] i st h = refl
remove_loop-remove_list node all (slot ∷ slots) i (s, m) h =
    let first : get_or all i 0 ≡ slot = (rw add-zero at (h 0 (omega arith))) in
    rw (remove_loop, first)
      (remove_loop-remove_list node all slots (i + 1) (cut_slot s slot, release node m slot)
        (λ j lt. let e : i + 1 + j ≡ i + suc j = omega arith in rw e (h (suc j) (omega arith))))

-- What `removeSlots` makes of a slice and of the owners.
pub record Removed (node : Bytes) (slots : List ℕ) (st st' : Slice × (ℕ → Option Bytes))
    : Type 0 where
  pub fits : Fits st'.0
  pub sorted : IsAscending (visible st'.0)
  pub members :
      (w : ℕ) → contains w (visible st'.0) ≡ (not (contains w slots) && contains w (visible st.0))
  pub owners :
      (w : ℕ) → st'.1 w ≡ (if contains w slots && owned_by (st.1 w) node then none else st.1 w)

pub release_lem :
    (node : Bytes) (m : ℕ → Option Bytes) (slot w : ℕ)
    → release node m slot w ≡ (if nat_eq slot w && owned_by (m w) node then none else m w)
unfolding release
release_lem node m slot w = elim (Bool-cases (nat_eq slot w)) [
  | inr e ↦ ground (arith, e)
  | inl e ↦
      let same = (nat_eq_iff slot w).0 e in
      elim (Option-cases (m w)) [
        | inl p ↦ rw (same, p) (ground (arith, e, p))
        | inr (n, p) ↦ rw (same, p) (ground (arith, p))
      ]
]

remove_list-Removed :
    (node : Bytes) (slots : List ℕ) (s : Slice) (m : ℕ → Option Bytes)
    → Fits s
    → IsAscending (visible s)
    → Removed node slots (s, m) (remove_list node slots (s, m))
unfolding remove_list contains
remove_list-Removed node [] s m f a = record {
  fits = f;
  sorted = a;
  members = λ w. refl;
  owners = λ w. refl;
}
remove_list-Removed node (slot ∷ slots) s m f a =
    let one = cut_slot-Without s slot f a in
    let rest =
      remove_list-Removed node slots (cut_slot s slot) (release node m slot) one.fits one.sorted in
    record {
      fits = rest.fits;
      sorted = rest.sorted;
      members = λ w. ground (arith, rest.members w, one.members w);
      owners = λ w. ground (arith, rest.owners w, release_lem node m slot w);
    }

-- `removeSlots` with a list of its own: the node keeps its other slots, other nodes keep theirs, and
-- exactly the node's slots of the list lose their owner.
pub remove_slots-Removed :
    (fsm : Fsm) (node : Bytes) (slots : List ℕ)
    → ((n : Bytes) → IsAscending (fsm.node2slot n))
    → let fsm' = remove_slots fsm node slots in
      ((n : Bytes) → IsAscending (fsm'.node2slot n))
      × ((n : Bytes) (w : ℕ)
          → contains w (fsm'.node2slot n)
            ≡ (not (bytes_eq node n && contains w slots) && contains w (fsm.node2slot n)))
      × ((w : ℕ)
          → fsm'.slot2node w ≡ (
              if contains w slots && owned_by (fsm.slot2node w) node
              then none
              else fsm.slot2node w))
unfolding remove_slots
remove_slots-Removed fsm node slots a =
    let held = fsm.node2slot node in
    let r =
      remove_list-Removed node slots (whole held) fsm.slot2node (omega arith)
        (rw (take_all held) (a node)) in
    rw
      (remove_loop-remove_list node slots slots 0 (whole held, fsm.slot2node)
        (λ j lt. let e : 0 + j ≡ j = omega arith in rw e))
      (
        λ n. elim (Bool-cases (bytes_eq node n)) [ inl e ↦ rw e r.sorted | inr e ↦ rw e (a n) ],
        λ n w. elim (Bool-cases (bytes_eq node n)) [
          | inl e ↦
              let same = (bytes_eq_iff node n).0 e in
              rw (e, ← same) (r.members w ∙ rw (take_all held))
          | inr e ↦ rw e
        ],
        r.owners,
      )

migratings-add_slots :
    (slots : List ℕ) (fsm : Fsm) (node : Bytes)
    → (add_slots fsm node slots).migratings ≡ fsm.migratings
unfolding add_slots
migratings-add_slots [] fsm node = refl
migratings-add_slots (slot ∷ slots) fsm node =
    migratings-add_slots slots (add_slot node fsm slot) node

-- Both descriptions of the new holder of a slot agree at every node.
moved_routes :
    (moved : Bool) (target src n : Bytes) (owner : Option Bytes)
    → bytes_eq target src ≡ false
    → (moved ≡ true → owned_by owner src ≡ true)
    → (not (bytes_eq src n && moved) && (bytes_eq target n && moved || owned_by owner n))
      ≡ owned_by (if moved then some target else owner) n
moved_routes false target src n owner apart own = ground arith
moved_routes true target src n none apart own = ground (arith, own refl)
moved_routes true target src n (some x) apart own = ground (
  arith,
  own refl,
  bytes_eq_iff x src,
  bytes_eq_iff src n,
  bytes_eq_iff x n,
  bytes_eq_iff target n,
  bytes_eq_iff target src,
)

-- A committed end of a migration between two nodes keeps the routing table consistent, if every slot
-- of the task is the source's: it moves exactly those slots to the target, drops the task, and does
-- not panic.
pub finish_migrate-IsConsistent :
    (fsm : Fsm) (task : MigratingTask)
    → IsConsistent fsm
    → bytes_eq task.target_node task.src_node ≡ false
    → ((w : ℕ) → contains w task.slots ≡ true → routed fsm.slot2node w task.src_node ≡ true)
    → (fsm' : Fsm) × (apply fsm (finish_migrate task) ≡ some fsm')
      × IsConsistent fsm'
      × ((w : ℕ)
          → fsm'.slot2node w
            ≡ (if contains w task.slots then some task.target_node else fsm.slot2node w))
      × (fsm'.migratings task.id ≡ none)
unfolding apply
finish_migrate-IsConsistent fsm task h apart own =
    let fsm1 = record fsm { migratings = update fsm.migratings task.id none } in
    let cleared : fsm1.migratings task.id ≡ none = rw ((bytes_eq_iff task.id task.id).1 refl) in
    let added = add_slots-Added task.slots fsm1 task.target_node h.sorted in
    let fsm2 = add_slots fsm1 task.target_node task.slots in
    let (sorted, members, owners) =
      remove_slots-Removed fsm2 task.src_node task.slots added.sorted in
    let owner : (w : ℕ)
        → (remove_slots fsm2 task.src_node task.slots).slot2node w
          ≡ (if contains w task.slots then some task.target_node else fsm.slot2node w) =
      λ w. ground (arith, owners w, added.owners w, apart) in
    (
      remove_slots fsm2 task.src_node task.slots,
      refl,
      record {
        sorted = sorted;
        agree = λ n w.
            rw (members n w, added.members n w, h.agree n w, owner w)
              (moved_routes (contains w task.slots) task.target_node task.src_node n
                (fsm.slot2node w) apart (own w));
      },
      owner,
      ap (λ m. m task.id) (migratings-add_slots task.slots fsm1 task.target_node) ∙ cleared,
    )
