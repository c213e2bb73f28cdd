-- ===== src/Raft.antt =====
-- internal/cluster/raft/fsm.go and fsm_utils.go: the replicated routing table of the cluster.
-- A Go map is a function. `none` as the result of `apply` is a Go panic. The mutex and the `changed`
-- callback are left out; the bytes of a log entry are taken as decoded.
pub mod Slots
pub mod Migration
pub mod Failover
pub mod Restore
pub mod Tests
use hayakv.Base.{
  ℕ, zero, suc, ◌+◌, ◌-◌, Bool, true, false, ◌&&◌, ◌||◌, not, Option, none, some, List, [], ◌∷◌,
  ◌++◌, length, get_or, take, drop, ltb, nat_eq, if◌then◌else◌, ◌>>=◌,
}
use hayakv.Base.Classes.{Bytes, bytes_eq, ℕ_LinOrd}
use hayakv.Base.Slices.{lower_bound, found_at, insert_at}

-- `m[k] = v`
abbrev pub update {ℓ} : {V : Type ℓ} → (Bytes → V) → Bytes → V → Bytes → V
update m k v j = if bytes_eq k j then v else m j

abbrev pub update_slot {ℓ} : {V : Type ℓ} → (ℕ → V) → ℕ → V → ℕ → V
update_slot m k v j = if nat_eq k j then v else m j

pub record MigratingTask : Type 0 where
  pub id : Bytes
  pub src_node : Bytes
  pub target_node : Bytes
  pub slots : List ℕ

pub record FailoverTask : Type 0 where
  pub id : Bytes
  pub old_master_id : Bytes
  pub new_master_id : Bytes

-- `MasterSlave` is the list of its slaves; an absent node has the nil slice in `node2slot`.
pub record Fsm : Type 0 where
  pub node2slot : Bytes → List ℕ
  pub slot2node : ℕ → Option Bytes
  pub migratings : Bytes → Option MigratingTask
  pub master_slaves : Bytes → Option (List Bytes)
  pub slave_masters : Bytes → Option Bytes
  pub failovers : Bytes → Option FailoverTask

-- `fsm.Slot2Node[slot]`, with the empty string for a missing key
unfoldable pub pick_node : Fsm → ℕ → Bytes
pick_node fsm slot = elim (fsm.slot2node slot) [ none ↦ [] | some node ↦ node ]

unfoldable pub get_migrating_task : Fsm → Bytes → Option MigratingTask
get_migrating_task fsm id = fsm.migratings id

-- one turn of the loop of `addSlots`
unfoldable pub add_slot : Bytes → Fsm → ℕ → Fsm
add_slot node fsm slot =
    let held = fsm.node2slot node in
    let index = lower_bound held slot 0 in
    let held' = if found_at held index slot 0 then held else insert_at index slot held in
    record fsm {
      node2slot = update fsm.node2slot node held';
      slot2node = update_slot fsm.slot2node slot (some node);
    }

unfoldable pub add_slots : Fsm → Bytes → List ℕ → Fsm
unfolding add_slot
add_slots fsm node [] = fsm
add_slots fsm node (slot ∷ slots) = add_slots (add_slot node fsm slot) node slots

-- The slice that `removeSlots` cuts, with its array: the cells past `len` keep what they held.
pub record Slice : Type 0 where
  pub cells : List ℕ
  pub len : ℕ

abbrev pub visible : Slice → List ℕ
visible s = take s.len s.cells

-- `append(s[:index], s[index+1:]...)` works in place: the tail moves down by one cell
unfoldable pub cut : Slice → ℕ → Slice
cut s index = record {
  cells = take index s.cells ++ (drop (suc index) (visible s) ++ drop (s.len - 1) s.cells);
  len = s.len - 1;
}

-- the inner loop: it cuts while the cell at `index` holds the slot; each turn shortens the slice
unfoldable pub cut_while : ℕ → Slice → ℕ → ℕ → Slice
unfolding cut
cut_while zero s index slot = s
cut_while (suc fuel) s index slot =
    let shorter = cut_while fuel (cut s index) index slot in
    if found_at (visible s) index slot 0 then shorter else s

unfoldable pub cut_slot : Slice → ℕ → Slice
unfolding cut_while
cut_slot s slot = cut_while s.len s (lower_bound (visible s) slot 0) slot

-- `if fsm.Slot2Node[slotId] == nodeID { delete(fsm.Slot2Node, slotId) }`
unfoldable pub release : Bytes → (ℕ → Option Bytes) → ℕ → ℕ → Option Bytes
release node m slot =
    let holder : Bytes = elim (m slot) [ none ↦ [] | some n ↦ n ] in
    if bytes_eq holder node then update_slot m slot none else m

-- The loop of `removeSlots` over the positions of its argument. `read` gives the slot at a position:
-- the argument may be the very slice that the loop cuts, and is then read from the changing array.
unfoldable pub remove_loop :
    Bytes → (Slice → ℕ → ℕ) → ℕ → ℕ → Slice × (ℕ → Option Bytes) → Slice × (ℕ → Option Bytes)
unfolding cut_slot release
remove_loop node read zero i (s, m) = (s, m)
remove_loop node read (suc rounds) i (s, m) =
    remove_loop node read rounds (i + 1) (cut_slot s (read s i), release node m (read s i))

abbrev pub whole : List ℕ → Slice
whole xs = record { cells = xs; len = length xs }

-- `removeSlots(nodeID, slots)` for a slice of its own
unfoldable pub remove_slots : Fsm → Bytes → List ℕ → Fsm
unfolding remove_loop
remove_slots fsm node slots =
    let (s, m) =
      remove_loop node (λ _ i. get_or slots i 0) (length slots) 0
        (whole (fsm.node2slot node), fsm.slot2node) in
    record fsm { node2slot = update fsm.node2slot node (visible s); slot2node = m }

-- `removeSlots(nodeID, fsm.Node2Slot[nodeID])`: the argument shares the array of the node's slice
unfoldable pub remove_own_slots : Fsm → Bytes → Fsm
unfolding remove_loop
remove_own_slots fsm node =
    let (s, m) =
      remove_loop node (λ s i. get_or s.cells i 0) (length (fsm.node2slot node)) 0
        (whole (fsm.node2slot node), fsm.slot2node) in
    record fsm { node2slot = update fsm.node2slot node (visible s); slot2node = m }

-- the loop over the other slaves
unfoldable pub repoint :
    Bytes → List Bytes → (Bytes → Option Bytes) → (Bytes → Option Bytes) × List Bytes
repoint new_master [] m = (m, [])
repoint new_master (slave ∷ slaves) m =
    let m' = if bytes_eq slave new_master then m else update m slave (some new_master) in
    let (m'', kept) = repoint new_master slaves m' in
    (m'', if bytes_eq slave new_master then kept else slave ∷ kept)

-- `fsm.failover`: it panics if the old master is unknown
unfoldable pub failover : Fsm → Bytes → Bytes → Option Fsm
unfolding repoint
failover fsm old_master new_master = do
  old_slaves ← fsm.master_slaves old_master
  let repointed = repoint new_master old_slaves fsm.slave_masters
  some (record fsm {
    master_slaves =
        update (update fsm.master_slaves old_master none) new_master
          (some (repointed.1 ++ (old_master ∷ [])));
    slave_masters = update (update repointed.0 old_master (some new_master)) new_master none;
  })

-- `GetMaster`, with the empty string for a master
unfoldable pub get_master : Fsm → Bytes → Bytes
get_master fsm id = elim (fsm.slave_masters id) [ none ↦ [] | some master ↦ master ]

abbrev pub has_slave : Bytes → List Bytes → Bool
has_slave id [] = false
has_slave id (slave ∷ slaves) = bytes_eq slave id || has_slave id slaves

-- `fsm.addNode`; its callers drop the error for an unknown master
unfoldable pub add_node : Fsm → Bytes → Bytes → Fsm
add_node fsm id [] = record fsm { master_slaves = update fsm.master_slaves id (some []) }
add_node fsm id (b ∷ bs) =
    let master_id = b ∷ bs in
    elim (fsm.master_slaves master_id) [
      | none ↦ fsm
      | some slaves ↦ record fsm {
        master_slaves =
            update fsm.master_slaves master_id
              (some (if has_slave id slaves then slaves else slaves ++ (id ∷ [])));
        slave_masters = update fsm.slave_masters id (some master_id);
      }
    ]

abbrev pub range_from : ℕ → ℕ → List ℕ
range_from i zero = []
range_from i (suc n) = i ∷ range_from (i + 1) n

abbrev pub seed_slots : ℕ → ℕ → Bytes → (ℕ → Option Bytes) → ℕ → Option Bytes
seed_slots i zero leader m = m
seed_slots i (suc n) leader m = seed_slots (i + 1) n leader (update_slot m i (some leader))

-- The events of the raft log. An event with another number changes nothing.
pub data LogEntry : Type 0 where
  start_migrate : MigratingTask → LogEntry
  finish_migrate : MigratingTask → LogEntry
  seed_start : Bytes → ℕ → LogEntry
  finish_failover : FailoverTask → LogEntry
  join : Bytes → Bytes → LogEntry
  other_event : LogEntry

unfoldable pub apply : Fsm → LogEntry → Option Fsm
unfolding add_slots remove_slots remove_own_slots failover add_node
apply fsm (start_migrate task) =
    some (record fsm { migratings = update fsm.migratings task.id (some task) })
apply fsm (finish_migrate task) =
    let fsm' = record fsm { migratings = update fsm.migratings task.id none } in
    some (remove_slots (add_slots fsm' task.target_node task.slots) task.src_node task.slots)
apply fsm (seed_start leader slot_count) =
    let fsm' : Fsm = record fsm {
      node2slot = update fsm.node2slot leader (range_from 0 slot_count);
      slot2node = seed_slots 0 slot_count leader fsm.slot2node;
    } in
    some (add_node fsm' leader [])
apply fsm (finish_failover task) = do
  fsm' ← failover fsm task.old_master_id task.new_master_id
  let slots = fsm'.node2slot task.old_master_id
  let fsm'' = remove_own_slots (add_slots fsm' task.new_master_id slots) task.old_master_id
  some (record fsm'' { failovers = update fsm''.failovers task.id none })
apply fsm (join id master) = some (add_node fsm id master)
apply fsm other_event = some fsm

-- What a snapshot holds, each map in the order in which the runtime iterates over it.
pub record FsmSnapshot : Type 0 where
  pub slot2node : List (ℕ × Bytes)
  pub migratings : Bytes → Option MigratingTask
  pub master_slaves : List (Bytes × List Bytes)

abbrev pub lookup_slot : List (ℕ × Bytes) → ℕ → Option Bytes
lookup_slot [] slot = none
lookup_slot ((k, v) ∷ rest) slot = if nat_eq k slot then some v else lookup_slot rest slot

abbrev pub lookup_node : List (Bytes × List Bytes) → Bytes → Option (List Bytes)
lookup_node [] node = none
lookup_node ((k, v) ∷ rest) node = if bytes_eq k node then some v else lookup_node rest node

-- `Node2Slot[node] = append(Node2Slot[node], slot)` in the order of the iteration
unfoldable pub restore_slots : List (ℕ × Bytes) → Bytes → List ℕ
restore_slots [] node = []
restore_slots ((slot, owner) ∷ rest) node =
    if bytes_eq owner node then slot ∷ restore_slots rest node else restore_slots rest node

abbrev pub point_slaves : Bytes → List Bytes → (Bytes → Option Bytes) → Bytes → Option Bytes
point_slaves master [] m = m
point_slaves master (slave ∷ slaves) m = point_slaves master slaves (update m slave (some master))

abbrev pub restore_masters :
    List (Bytes × List Bytes) → (Bytes → Option Bytes) → Bytes → Option Bytes
restore_masters [] m = m
restore_masters ((master, slaves) ∷ rest) m = restore_masters rest (point_slaves master slaves m)

-- `Restore` keeps the failovers and the old entries of `SlaveMasters`.
unfoldable pub restore : Fsm → FsmSnapshot → Fsm
unfolding restore_slots
restore fsm snapshot = record fsm {
  slot2node = lookup_slot snapshot.slot2node;
  migratings = snapshot.migratings;
  master_slaves = lookup_node snapshot.master_slaves;
  node2slot = restore_slots snapshot.slot2node;
  slave_masters = restore_masters snapshot.master_slaves fsm.slave_masters;
}
