-- ===== src/Raft/Failover.antt =====
-- The end of a failover: the owners of the slots, and the slot list of the old master.
use hayakv.Base.{
  ℕ, zero, suc, ◌+◌, ◌-◌, ◌≤◌, ◌<◌, ◌≡◌, ◌≢◌, refl, ap, sym, ◌∙◌, inl, inr, true, false, ◌||◌,
  Option, none, some, List, [], ◌∷◌, ◌++◌, arith, length, get_or, take, drop, leb, if◌then◌else◌,
  Bool-cases, All, All-append, ◌>>=◌,
}
use mathlib.Core.Path.{subst}
use hayakv.Base.Classes.{Bytes, bytes_eq, bytes_eq_iff, ℕ_LinOrd}
use hayakv.Base.Slices.{IsAscending, contains, rank, lower_bound, found_at, lower_bound-eq-rank}
use hayakv.Raft.{
  Fsm, Slice, FailoverTask, visible, whole, cut, cut_while, cut_slot, release, remove_loop,
  remove_own_slots, repoint, add_slots, failover, update, apply, finish_failover,
}
use hayakv.Raft.Slots.{take_all}
use hayakv.Raft.Migration.{owned_by, IsConsistent, add_slots-Added, release_lem}

-- Whatever the loop of `removeSlots` reads, a slot of another node keeps its owner.
remove_loop_owners :
    (node : Bytes) (read : Slice → ℕ → ℕ) (rounds i : ℕ) (s : Slice) (m : ℕ → Option Bytes) (w : ℕ)
    → owned_by (m w) node ≡ false
    → (remove_loop node read rounds i (s, m)).1 w ≡ m w
unfolding remove_loop
remove_loop_owners node read zero i s m w h = refl
remove_loop_owners node read (suc rounds) i s m w h =
    let slot = read s i in
    let step : release node m slot w ≡ m w = ground (arith, release_lem node m slot w, h) in
    remove_loop_owners node read rounds (i + 1) (cut_slot s slot) (release node m slot) w
      (ap (λ o. owned_by o node) step ∙ h)
    ∙ step

-- an array that begins with `b`, every later cell of it above `b`
abbrev Heads : ℕ → List ℕ → Type 0
Heads b [] = ⊥
Heads b (x ∷ xs) = (x ≡ b) × All (λ y. leb y b ≡ false) xs

-- a slice that shows its first cell, `b`
abbrev IsStuck : ℕ → Slice → Type 0
IsStuck b s = Heads b s.cells × (1 ≤ s.len)

All-take {κ} : (P : ℕ → Type κ) (n : ℕ) (xs : List ℕ) → All P xs → All P (take n xs)
All-take P zero xs h = tt
All-take P (suc n) [] h = tt
All-take P (suc n) (x ∷ xs) h = (h.0, All-take P n xs h.1)

All-drop {κ} : (P : ℕ → Type κ) (n : ℕ) (xs : List ℕ) → All P xs → All P (drop n xs)
All-drop P zero xs h = h
All-drop P (suc n) [] h = tt
All-drop P (suc n) (x ∷ xs) h = All-drop P n xs h.1

cut-IsStuck :
    (b : ℕ) (cells : List ℕ) (len i : ℕ)
    → Heads b cells
    → IsStuck b (cut (record { cells = cells; len = suc (suc len) }) (suc i))
unfolding cut
cut-IsStuck b [] len i h = elim h [ ]
cut-IsStuck b (x ∷ xs) len i h =
    let P : ℕ → Type 0 = λ y. leb y b ≡ false in
    let tail = drop (suc i) (take (suc len) xs) in
    let e : suc (suc len) - 1 ≡ suc len = omega arith in
    rw e (
      (
        h.0,
        All-append P (take i xs) (tail ++ drop len xs) (All-take P i xs h.1) (
            All-append P tail (drop len xs)
              (All-drop P (suc i) (take (suc len) xs) (All-take P (suc len) xs h.1))
              (All-drop P len xs h.1)),
      ),
      omega arith,
    )

found_at-lt : (xs : List ℕ) (i v : ℕ) → found_at xs i v 0 ≡ true → i < length xs
found_at-lt xs i v h = ground arith

length-take-le : (n : ℕ) (xs : List ℕ) → length (take n xs) ≤ n
length-take-le zero xs = omega arith
length-take-le (suc n) [] = omega arith
length-take-le (suc n) (x ∷ xs) = omega (arith, length-take-le n xs)

-- the search for any other value leaves the first cell alone
cut_while-IsStuck :
    (fuel b x i : ℕ) (s : Slice) → b ≢ x → IsStuck b s → IsStuck b (cut_while fuel s i x)
unfolding cut_while
cut_while-IsStuck zero b x i s ne h = h
cut_while-IsStuck (suc fuel) b x i s ne h = elim (Bool-cases (found_at (visible s) i x 0)) [
  | inr e ↦ rw e h
  | inl e ↦ rw e (cut_while-IsStuck fuel b x i (cut s i) ne (go s.cells s.len i h.0 h.1 e))
]
  where
    go :
        (cells : List ℕ) (len j : ℕ)
        → Heads b cells
        → 1 ≤ len
        → found_at (take len cells) j x 0 ≡ true
        → IsStuck b (cut (record { cells = cells; len = len }) j)
    go [] len j k l e = elim k [ ]
    go (c ∷ cells) zero j k l e = absurd (omega arith)
    go (c ∷ cells) (suc len) zero k l e = absurd (ground (arith, k.0, ne))
    go (c ∷ cells) (suc zero) (suc j) k l e =
        absurd (omega (arith, found_at-lt (take 1 (c ∷ cells)) (suc j) x e))
    go (c ∷ cells) (suc (suc len)) (suc j) k l e = cut-IsStuck b (c ∷ cells) len j k

get_or-ne :
    (b i : ℕ) (cells : List ℕ) → 0 < b → All (λ y. leb y b ≡ false) cells → b ≢ get_or cells i 0
get_or-ne b i [] p h = omega arith
get_or-ne b zero (x ∷ xs) p h = ground (arith, h.0)
get_or-ne b (suc i) (x ∷ xs) p h = get_or-ne b i xs p h.1

read-ne : (b i : ℕ) (cells : List ℕ) → 0 < b → 1 ≤ i → Heads b cells → b ≢ get_or cells i 0
read-ne b i [] p l h = elim h [ ]
read-ne b zero (x ∷ xs) p l h = absurd (omega arith)
read-ne b (suc i) (x ∷ xs) p l h = get_or-ne b i xs p h.1

-- From the second position on the loop never reads the first cell again.
own_loop-IsStuck :
    (node : Bytes) (rounds b i : ℕ) (s : Slice) (m : ℕ → Option Bytes)
    → 0 < b
    → 1 ≤ i
    → IsStuck b s
    → IsStuck b (remove_loop node (λ t k. get_or t.cells k 0) rounds i (s, m)).0
unfolding remove_loop cut_slot
own_loop-IsStuck node zero b i s m p l h = h
own_loop-IsStuck node (suc rounds) b i s m p l h =
    let x = get_or s.cells i 0 in
    let at = lower_bound (visible s) x 0 in
    own_loop-IsStuck node rounds b (i + 1) (cut_slot s x) (release node m x) p (omega arith)
      (cut_while-IsStuck s.len b x at s (read-ne b i s.cells p l h.0) h)

stuck_contains : (b : ℕ) (s : Slice) → IsStuck b s → contains b (visible s) ≡ true
unfolding contains
stuck_contains b s h = go s.cells s.len h.0 h.1
  where
    go : (cells : List ℕ) (len : ℕ) → Heads b cells → 1 ≤ len → contains b (take len cells) ≡ true
    go [] len k l = elim k [ ]
    go (c ∷ cells) zero k l = absurd (omega arith)
    go (c ∷ cells) (suc len) k l = ground (arith, k.0)

first_cut :
    (a b c : ℕ) (rest : List ℕ)
    → IsAscending (a ∷ b ∷ c ∷ rest)
    → IsStuck b (cut (whole (a ∷ b ∷ c ∷ rest)) 0)
unfolding cut
first_cut a b c rest (_, (above, _)) =
    let P : ℕ → Type 0 = λ y. leb y b ≡ false in
    let n = length rest in
    let e : suc (suc (suc n)) - 1 ≡ suc (suc n) = omega arith in
    rw e (
      (
        refl,
        All-append P (c ∷ take n rest) (drop n (c ∷ rest)) (above.0, All-take P n rest above.1)
            (All-drop P n (c ∷ rest) above),
      ),
      omega arith,
    )

turn :
    (fuel b x : ℕ) (s : Slice)
    → found_at (visible s) 0 x 0 ≡ true
    → b ≢ x
    → IsStuck b (cut s 0)
    → IsStuck b (cut_while (suc fuel) s 0 x)
unfolding cut_while
turn fuel b x s e ne h = rw e (cut_while-IsStuck fuel b x 0 (cut s 0) ne h)

rank_first : (a : ℕ) (xs : List ℕ) → rank a (a ∷ xs) ≡ 0
unfolding rank
rank_first a xs = ground arith

-- The first turn on three slots or more: it cuts the first slot, and the second is now in front.
first_turn :
    (a b c : ℕ) (rest : List ℕ)
    → IsAscending (a ∷ b ∷ c ∷ rest)
    → IsStuck b (cut_slot (whole (a ∷ b ∷ c ∷ rest)) a)
unfolding cut_slot
first_turn a b c rest h =
    let all = a ∷ b ∷ c ∷ rest in
    let at : lower_bound (visible (whole all)) a 0 ≡ 0 =
      lower_bound-eq-rank (visible (whole all)) a 0
        (subst (λ xs. IsAscending xs) (sym (take_all all)) h)
      ∙ rank_first a (b ∷ c ∷ take (length rest) rest) in
    rw at (
      turn (suc (suc (length rest))) b a (whole all) (ground arith) (ground (arith, h.0.0))
        (first_cut a b c rest h))

own_loop_keeps :
    (node : Bytes) (a b c : ℕ) (rest : List ℕ) (m : ℕ → Option Bytes)
    → IsAscending (a ∷ b ∷ c ∷ rest)
    → let all = a ∷ b ∷ c ∷ rest in
      contains b
        (visible (remove_loop node (λ t k. get_or t.cells k 0) (length all) 0 (whole all, m)).0)
      ≡ true
unfolding remove_loop
own_loop_keeps node a b c rest m h =
    let all = a ∷ b ∷ c ∷ rest in
    stuck_contains b _ (
      own_loop-IsStuck node (suc (suc (length rest))) b (0 + 1) (cut_slot (whole all) a)
        (release node m a) (ground (arith, h.0.0)) (omega arith) (first_turn a b c rest h))

failover_runs :
    (fsm : Fsm) (old new : Bytes) (slaves : List Bytes)
    → fsm.master_slaves old ≡ some slaves
    → (fsm' : Fsm) × (failover fsm old new ≡ some fsm')
      × (fsm'.node2slot ≡ fsm.node2slot)
      × (fsm'.slot2node ≡ fsm.slot2node)
unfolding failover
failover_runs fsm old new slaves e =
    let repointed = repoint new slaves fsm.slave_masters in
    (
      record fsm {
        master_slaves =
            update (update fsm.master_slaves old none) new (some (repointed.1 ++ (old ∷ [])));
        slave_masters = update (update repointed.0 old (some new)) new none;
      },
      rw (e, ◌>>=◌),
      refl,
      refl,
    )

-- the last two steps of the handler
moved : Fsm → Bytes → Bytes → Fsm
moved fsm old new = remove_own_slots (add_slots fsm new (fsm.node2slot old)) old

moved_owners :
    (fsm : Fsm) (old new : Bytes) (w : ℕ)
    → IsConsistent fsm
    → bytes_eq new old ≡ false
    → (moved fsm old new).slot2node w
      ≡ (if contains w (fsm.node2slot old) then some new else fsm.slot2node w)
unfolding moved remove_own_slots
moved_owners fsm old new w h apart =
    let held = fsm.node2slot old in
    let fsm' = add_slots fsm new held in
    let added = add_slots-Added held fsm new h.sorted in
    let foreign : owned_by (fsm'.slot2node w) old ≡ false =
      ground (arith, added.owners w, h.agree old w, apart) in
    remove_loop_owners old (λ s i. get_or s.cells i 0) (length (fsm'.node2slot old)) 0
      (whole (fsm'.node2slot old)) fsm'.slot2node w foreign
    ∙ added.owners w

moved_members :
    (fsm : Fsm) (old new : Bytes) (w : ℕ)
    → IsConsistent fsm
    → bytes_eq new old ≡ false
    → contains w ((moved fsm old new).node2slot new)
      ≡ (contains w (fsm.node2slot old) || contains w (fsm.node2slot new))
unfolding moved remove_own_slots
moved_members fsm old new w h apart =
    let added = add_slots-Added (fsm.node2slot old) fsm new h.sorted in
    let apart' : bytes_eq old new ≡ false =
      ground (arith, apart, bytes_eq_iff old new, bytes_eq_iff new old) in
    rw apart' (added.members new w ∙ rw ((bytes_eq_iff new new).1 refl))

moved_keeps :
    (fsm : Fsm) (old new : Bytes) (a b c : ℕ) (rest : List ℕ)
    → IsConsistent fsm
    → bytes_eq new old ≡ false
    → fsm.node2slot old ≡ a ∷ b ∷ c ∷ rest
    → contains b ((moved fsm old new).node2slot old) ≡ true
unfolding moved remove_own_slots
moved_keeps fsm old new a b c rest h apart three =
    let held = fsm.node2slot old in
    let added = add_slots-Added held fsm new h.sorted in
    let same : (add_slots fsm new held).node2slot old ≡ a ∷ b ∷ c ∷ rest =
      added.others old apart ∙ three in
    rw ((bytes_eq_iff old old).1 refl, same)
      (own_loop_keeps old a b c rest (add_slots fsm new held).slot2node
        (subst (λ xs. IsAscending xs) three (h.sorted old)))

finish_runs :
    (fsm : Fsm) (task : FailoverTask) (slaves : List Bytes)
    → fsm.master_slaves task.old_master_id ≡ some slaves
    → (fsm1 : Fsm) × (let last = moved fsm1 task.old_master_id task.new_master_id in
        let fsm' : Fsm = record last { failovers = update last.failovers task.id none } in
        apply fsm (finish_failover task) ≡ some fsm')
      × (fsm1.node2slot ≡ fsm.node2slot)
      × (fsm1.slot2node ≡ fsm.slot2node)
unfolding apply moved
finish_runs fsm task slaves known =
    let (fsm1, runs, lists, owners) =
      failover_runs fsm task.old_master_id task.new_master_id slaves known in
    (fsm1, rw (runs, ◌>>=◌), lists, owners)

same_maps :
    (fsm fsm1 : Fsm)
    → fsm1.node2slot ≡ fsm.node2slot
    → fsm1.slot2node ≡ fsm.slot2node
    → IsConsistent fsm
    → IsConsistent fsm1
same_maps fsm fsm1 lists owners h = record {
  sorted = rw lists h.sorted;
  agree = rw (lists, owners) h.agree;
}

-- A committed failover to another node, on a consistent table that knows the old master, does not
-- panic: every slot of the old master is then owned by the new one, every other slot keeps its owner,
-- and the slot list of the new master has exactly its own slots and those of the old one.
pub finish_failover_lem :
    (fsm : Fsm) (task : FailoverTask) (slaves : List Bytes)
    → IsConsistent fsm
    → fsm.master_slaves task.old_master_id ≡ some slaves
    → bytes_eq task.new_master_id task.old_master_id ≡ false
    → (fsm' : Fsm) × (apply fsm (finish_failover task) ≡ some fsm')
      × ((w : ℕ)
          → fsm'.slot2node w ≡ (
              if contains w (fsm.node2slot task.old_master_id)
              then some task.new_master_id
              else fsm.slot2node w))
      × ((w : ℕ)
          → contains w (fsm'.node2slot task.new_master_id) ≡ (
              contains w (fsm.node2slot task.old_master_id)
              || contains w (fsm.node2slot task.new_master_id)))
finish_failover_lem fsm task slaves h known apart =
    let old = task.old_master_id in
    let new = task.new_master_id in
    let (fsm1, runs, lists, owners) = finish_runs fsm task slaves known in
    let h1 = same_maps fsm fsm1 lists owners h in
    let last = moved fsm1 old new in
    let fsm' : Fsm = record last { failovers = update last.failovers task.id none } in
    (
      fsm',
      runs,
      λ w. moved_owners fsm1 old new w h1 apart ∙ rw (lists, owners),
      λ w. moved_members fsm1 old new w h1 apart ∙ rw lists,
    )

-- If the old master of such a failover had three slots or more, its slot list still holds the second
-- of them afterwards, and the table is no longer consistent.
pub finish_failover_leaves :
    (fsm : Fsm) (task : FailoverTask) (slaves : List Bytes) (a b c : ℕ) (rest : List ℕ)
    → IsConsistent fsm
    → fsm.master_slaves task.old_master_id ≡ some slaves
    → bytes_eq task.new_master_id task.old_master_id ≡ false
    → fsm.node2slot task.old_master_id ≡ a ∷ b ∷ c ∷ rest
    → (fsm' : Fsm) × (apply fsm (finish_failover task) ≡ some fsm')
      × (contains b (fsm'.node2slot task.old_master_id) ≡ true)
      × ¬ IsConsistent fsm'
unfolding contains
finish_failover_leaves fsm task slaves a b c rest h known apart three =
    let old = task.old_master_id in
    let new = task.new_master_id in
    let (fsm1, runs, lists, owners) = finish_runs fsm task slaves known in
    let h1 = same_maps fsm fsm1 lists owners h in
    let three1 : fsm1.node2slot old ≡ a ∷ b ∷ c ∷ rest = ap (λ m. m old) lists ∙ three in
    let last = moved fsm1 old new in
    let fsm' : Fsm = record last { failovers = update last.failovers task.id none } in
    let kept = moved_keeps fsm1 old new a b c rest h1 apart three1 in
    let held : contains b (fsm1.node2slot old) ≡ true = rw three1 (ground arith) in
    let owner : last.slot2node b ≡ some new = moved_owners fsm1 old new b h1 apart ∙ rw held in
    (
      fsm',
      runs,
      kept,
      λ bad. ground (arith, bad.agree old b, kept, ap (λ o. owned_by o old) owner, apart),
    )
