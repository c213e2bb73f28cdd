-- ===== src/Raft/Tests.antt =====
-- Runs of the raft state machine, and its theorems at concrete inputs.
use hayakv.Base.{
  ℕ, ◌≡◌, refl, inl, inr, true, ◌||◌, none, some, [], ◌∷◌, arith, if◌then◌else◌, Bool-cases,
}
use hayakv.Base.Classes.{Bytes, bytes_eq, ℕ_LinOrd}
use hayakv.Base.Slices.{contains}
use hayakv.Raft.{
  Fsm, FsmSnapshot, MigratingTask, FailoverTask, apply, finish_migrate, finish_failover, restore,
}
use hayakv.Raft.Migration.{routed, IsConsistent, finish_migrate-IsConsistent}
use hayakv.Raft.Failover.{finish_failover_lem, finish_failover_leaves}
use hayakv.Raft.Restore.{restore-agree, restore-disorder}

abbrev master : Bytes
master = 1 ∷ []

abbrev replica : Bytes
replica = 2 ∷ []

-- one master with three slots, and its slave
abbrev cluster : Fsm
cluster = record {
  node2slot = λ n. if bytes_eq master n then 4 ∷ 5 ∷ 6 ∷ [] else [];
  slot2node = λ w. if contains w (4 ∷ 5 ∷ 6 ∷ []) then some master else none;
  migratings = λ _. none;
  master_slaves = λ n. if bytes_eq master n then some (replica ∷ []) else none;
  slave_masters = λ n. if bytes_eq replica n then some master else none;
  failovers = λ _. none;
}

cluster-IsConsistent : IsConsistent cluster
unfolding contains
cluster-IsConsistent = record {
  sorted =
      λ n. elim (Bool-cases (bytes_eq master n)) [ inl e ↦ rw e (ground arith) | inr e ↦ rw e tt ];
  agree = λ n w. ground arith;
}

abbrev move : MigratingTask
move = record { id = 9 ∷ []; src_node = master; target_node = replica; slots = 5 ∷ [] }

abbrev takeover : FailoverTask
takeover = record { id = 9 ∷ []; old_master_id = master; new_master_id = replica }

finish_migrate_example :
    (fsm' : Fsm) × (apply cluster (finish_migrate move) ≡ some fsm')
    × IsConsistent fsm'
    × ((w : ℕ)
        → fsm'.slot2node w ≡ (if contains w move.slots then some replica else cluster.slot2node w))
    × (fsm'.migratings move.id ≡ none)
unfolding contains bytes_eq
finish_migrate_example =
    finish_migrate-IsConsistent cluster move cluster-IsConsistent refl (λ w e. ground arith)

finish_failover_example :
    (fsm' : Fsm) × (apply cluster (finish_failover takeover) ≡ some fsm')
    × ((w : ℕ)
        → fsm'.slot2node w
          ≡ (if contains w (cluster.node2slot master) then some replica else cluster.slot2node w))
    × ((w : ℕ)
        → contains w (fsm'.node2slot replica)
          ≡ (contains w (cluster.node2slot master) || contains w (cluster.node2slot replica)))
unfolding bytes_eq
finish_failover_example =
    finish_failover_lem cluster takeover (replica ∷ []) cluster-IsConsistent refl refl

finish_failover_leaves_example :
    (fsm' : Fsm) × (apply cluster (finish_failover takeover) ≡ some fsm')
    × (contains 5 (fsm'.node2slot master) ≡ true)
    × ¬ IsConsistent fsm'
unfolding bytes_eq
finish_failover_leaves_example =
    finish_failover_leaves cluster takeover (replica ∷ []) 4 5 6 [] cluster-IsConsistent refl refl
      refl

abbrev snapshot : FsmSnapshot
snapshot = record {
  slot2node = (6, master) ∷ (5, master) ∷ (1, replica) ∷ [];
  migratings = λ _. none;
  master_slaves = (master, replica ∷ []) ∷ [];
}

restore-agree_example :
    contains 5 ((restore cluster snapshot).node2slot master)
    ≡ routed (restore cluster snapshot).slot2node 5 master
restore-agree_example = restore-agree cluster snapshot master 5 (refl, (refl, (refl, tt)))

restore-disorder_example : ¬ IsConsistent (restore cluster snapshot)
restore-disorder_example =
    restore-disorder cluster snapshot master 5 6 ((1, replica) ∷ []) (omega arith) refl
