-- ===== src/Stream.antt =====
-- internal/datastruct/stream/stream.go: the stream of entries with ascending IDs, and the data of
-- group.go, whose operations are in Groups. `NotifyNewEntry`, which `Add` calls for each group, does
-- nothing. A uint64 is a ℕ, and a sum of such is taken modulo 2^64; a Go error is
-- `none`.
pub mod Order
pub mod Ranges
pub mod Sift
pub mod Trims
pub mod Groups
pub mod Tests
use hayakv.Base.{
  ℕ, zero, suc, ◌+◌, ◌-◌, ◌%◌, Bool, true, false, ◌&&◌, ◌||◌, not, Option, none, some, List, [],
  ◌∷◌, ◌++◌, length, take, drop, ltb, leb, nat_eq, if◌then◌else◌, reverse, ◌>>=◌,
}
use hayakv.Base.Classes.{Bytes, bytes_eq}
use hayakv.Base.Int.{ℤ}

abbrev pub max_uint64 : ℕ
max_uint64 = 18446744073709551615

-- the value of an expression of type uint64
abbrev pub wrap : ℕ → ℕ
wrap n = n % 18446744073709551616

pub record StreamId : Type 0 where
  pub ms : ℕ
  pub seq : ℕ

abbrev pub zero_id : StreamId
zero_id = record { ms = 0; seq = 0 }

-- `a.Greater(b)`
unfoldable pub greater : StreamId → StreamId → Bool
greater a b = ltb b.ms a.ms || nat_eq a.ms b.ms && ltb b.seq a.seq

-- `a == b`
unfoldable pub id_eq : StreamId → StreamId → Bool
id_eq a b = nat_eq a.ms b.ms && nat_eq a.seq b.seq

pub record Entry : Type 0 where
  pub id : StreamId
  pub fields : List (Bytes × Bytes)

-- A delivery that is not acknowledged yet.
pub record PendingEntry : Type 0 where
  pub consumer : Bytes
  pub delivery_time : ℤ
  pub delivery_count : ℕ

-- The group and its consumer share a `*PendingEntry`: the two maps hold its address in `memory`.
pub record Consumer : Type 0 where
  pub name : Bytes
  pub pending : List (StreamId × ℕ)
  pub active_time : ℤ

pub record Group : Type 0 where
  pub name : Bytes
  pub last_delivered : StreamId
  pub entries_read : ℕ
  pub pending : List (StreamId × ℕ)
  pub consumers : List (Bytes × Consumer)
  pub memory : List PendingEntry

unfoldable pub new_group : Bytes → StreamId → Group
new_group name start = record {
  name = name;
  last_delivered = start;
  entries_read = 0;
  pending = [];
  consumers = [];
  memory = [];
}

pub record Stream : Type 0 where
  pub entries : List Entry
  pub last_id : StreamId
  pub max_deleted_id : StreamId
  pub entries_added : ℕ
  pub size : ℕ
  pub groups : Bytes → Option Group

abbrev pub new : Stream
new = record {
  entries = [];
  last_id = zero_id;
  max_deleted_id = zero_id;
  entries_added = 0;
  size = 0;
  groups = λ _. none;
}

-- `Add`: no result for the ID 0-0 and for one that is not above the last
unfoldable pub add : Stream → StreamId → List (Bytes × Bytes) → Option (Stream × StreamId)
unfolding id_eq greater
add s id fields =
    if id_eq id zero_id
    then none
    else if not (greater id s.last_id)
    then none
    else some (
      record s {
        entries = s.entries ++ (record { id = id; fields = fields } ∷ []);
        last_id = id;
        entries_added = wrap (s.entries_added + 1);
        size = wrap (s.size + 1);
      },
      id,
    )

-- the ID that `AddAutoAssign` picks
unfoldable pub auto_id : Stream → ℕ → StreamId
auto_id s hint =
    if leb hint s.last_id.ms
    then record { ms = s.last_id.ms; seq = wrap (s.last_id.seq + 1) }
    else record { ms = hint; seq = 0 }

unfoldable pub add_auto_assign : Stream → ℕ → List (Bytes × Bytes) → Option (Stream × StreamId)
unfolding add auto_id
add_auto_assign s hint fields = add s (auto_id s hint) fields

-- the test of `Range` and of `RevRange`
unfoldable pub in_range : StreamId → StreamId → Entry → Bool
unfolding greater
in_range start end e =
    (nat_eq start.ms 0 && nat_eq start.seq 0 || not (greater start e.id))
    && (nat_eq end.ms max_uint64 && nat_eq end.seq max_uint64 || not (greater e.id end))

-- the loop of `Range`; `found` is the length of `result`, `count` 0 stands for count <= 0
unfoldable pub range_loop : StreamId → StreamId → ℕ → ℕ → List Entry → List Entry
unfolding in_range
range_loop start end count found [] = []
range_loop start end count found (e ∷ es) =
    let more = range_loop start end count (found + 1) es in
    let others = range_loop start end count found es in
    if in_range start end e
    then e ∷ (if ltb 0 count && leb count (found + 1) then [] else more)
    else others

unfoldable pub range : Stream → StreamId → StreamId → ℕ → List Entry
unfolding range_loop
range s start end count = range_loop start end count 0 s.entries

-- the same loop from the last entry down
unfoldable pub rev_range : Stream → StreamId → StreamId → ℕ → List Entry
unfolding range_loop
rev_range s start end count = range_loop start end count 0 (reverse s.entries)

-- `idSet[id]`
unfoldable pub in_set : StreamId → List StreamId → Bool
unfolding id_eq
in_set id [] = false
in_set id (x ∷ xs) = id_eq x id || in_set id xs

abbrev pub max_id : StreamId → StreamId → StreamId
max_id a b = if greater a b then a else b

-- A loop over the entries that drops those of a test: what it keeps, their number, and the greatest
-- deleted ID.
unfoldable pub sift : (Entry → Bool) → List Entry → StreamId → List Entry × (ℕ × StreamId)
unfolding greater
sift gone [] top = ([], (0, top))
sift gone (e ∷ es) top =
    if gone e
    then (let (kept, (n, top')) = sift gone es (max_id e.id top) in (kept, (n + 1, top')))
    else (let (kept, (n, top')) = sift gone es top in (e ∷ kept, (n, top')))

-- `s.length -= n` in uint64
unfoldable pub less : ℕ → ℕ → ℕ
less size n = wrap (size + (18446744073709551616 - wrap n))

unfoldable pub delete : Stream → List StreamId → Stream × ℕ
unfolding sift in_set less
delete s ids =
    let (kept, (n, top)) = sift (λ e. in_set e.id ids) s.entries s.max_deleted_id in
    (record s { entries = kept; max_deleted_id = top; size = less s.size n }, n)

-- `TrimMaxLen`: how many entries it removes
unfoldable pub trim_count : ℕ → ℕ → Bool → ℕ
trim_count held max_len approx =
    if nat_eq max_len 0 || leb held max_len
    then 0
    else let to_remove = held - max_len in
      if approx then (if ltb 100 to_remove then to_remove - to_remove % 100 else 0) else to_remove

-- the ID of the last of the removed entries against the greatest deleted one
unfoldable pub raise_deleted : List Entry → StreamId → StreamId
unfolding greater
raise_deleted [] top = top
raise_deleted (e ∷ []) top = max_id e.id top
raise_deleted (e ∷ f ∷ es) top = raise_deleted (f ∷ es) top

unfoldable pub trim_max_len : Stream → ℕ → Bool → Stream × ℕ
unfolding trim_count raise_deleted less
trim_max_len s max_len approx =
    let n = trim_count (length s.entries) max_len approx in
    if nat_eq n 0 then (s, 0) else (
      record s {
        entries = drop n s.entries;
        size = less s.size n;
        max_deleted_id = raise_deleted (take n s.entries) s.max_deleted_id;
      },
      n,
    )

-- `TrimMinID`: the approximate trim of fewer than 100 entries keeps them, the deleted ID is raised
unfoldable pub trim_min_id : Stream → StreamId → Bool → Stream × ℕ
unfolding sift greater id_eq less
trim_min_id s min_id approx =
    let (kept, (n, top)) =
      sift (λ e. not (greater e.id min_id || id_eq e.id min_id)) s.entries s.max_deleted_id in
    if approx && ltb n 100
    then (record s { max_deleted_id = top }, 0)
    else (record s { entries = kept; max_deleted_id = top; size = less s.size n }, n)

-- `SetID`, for `XSETID`
unfoldable pub set_id : Stream → StreamId → ℕ → StreamId → Stream
unfolding greater
set_id s id entries_added max_deleted_id = record s {
  last_id = id;
  entries_added = if ltb 0 entries_added then entries_added else s.entries_added;
  max_deleted_id = max_id max_deleted_id s.max_deleted_id;
}

-- `CreateGroup`: no result for a name that is taken
unfoldable pub create_group : Stream → Bytes → StreamId → Option Stream
unfolding new_group
create_group s name start = elim (s.groups name) [
  | some g ↦ none
  | none ↦ some (record s {
    groups = λ k. if bytes_eq name k then some (new_group name start) else s.groups k;
  })
]

unfoldable pub get_group : Stream → Bytes → Option Group
get_group s name = s.groups name

unfoldable pub destroy_group : Stream → Bytes → Stream × Bool
destroy_group s name = elim (s.groups name) [
  | none ↦ (s, false)
  | some g ↦ (record s { groups = λ k. if bytes_eq name k then none else s.groups k }, true)
]

-- `Len`, `LastID`, `MaxDeletedID` and `EntriesAdded`
unfoldable pub len : Stream → ℕ
len s = s.size

unfoldable pub get_last_id : Stream → StreamId
get_last_id s = s.last_id

unfoldable pub get_max_deleted_id : Stream → StreamId
get_max_deleted_id s = s.max_deleted_id

unfoldable pub get_entries_added : Stream → ℕ
get_entries_added s = s.entries_added

-- `strings.SplitN(s, "-", 2)`: what stands before the first dash, and what follows it
abbrev pub split_dash : Bytes → Bytes × Option Bytes
split_dash [] = ([], none)
split_dash (c ∷ cs) =
    let (front, rest) = split_dash cs in if nat_eq c 45 then ([], some cs) else (c ∷ front, rest)

-- `ParseID`: the ID, and whether its sequence number is to be assigned. `parse_uint` is
-- `strconv.ParseUint` to 64 bits.
unfoldable pub parse_id : (Bytes → Option ℕ) → Bytes → Option (StreamId × Bool)
unfolding bytes_eq
parse_id parse_uint s =
    if bytes_eq s (43 ∷ [])
    then some (record { ms = max_uint64; seq = max_uint64 }, false)
    else if bytes_eq s (45 ∷ [])
    then some (zero_id, false)
    else (do
      ms ← parse_uint (split_dash s).0
      elim (split_dash s).1 [
        | none ↦ some (record { ms = ms; seq = 0 }, false)
        | some rest ↦
            if bytes_eq rest (42 ∷ [])
            then some (record { ms = ms; seq = 0 }, true)
            else (do seq ← parse_uint rest; some (record { ms = ms; seq = seq }, false))
      ])

unfoldable pub get_groups : Stream → Bytes → Option Group
get_groups s = s.groups
