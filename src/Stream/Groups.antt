-- ===== src/Stream/Groups.antt =====
-- internal/datastruct/stream/group.go: a consumer group. The clock is the argument `now`; a difference of
-- two times is not wrapped. A map is the list of its bindings.
pub mod Tables
pub mod Laws
pub mod Moves
pub mod Claims
pub mod Deliveries
pub mod Tests
use hayakv.Base.{
  ℕ, ◌+◌, ◌-◌, Bool, true, false, ◌&&◌, ◌||◌, not, Option, none, some, List, [], ◌∷◌, ◌++◌, map,
  length, get_elem?, set, take, keep, ltb, leb, nat_eq, if◌then◌else◌, ◌>>=◌,
}
use hayakv.Base.Classes.{Bytes, bytes_eq}
use hayakv.Base.Int.{ℤ, pos, pos_part, neg_part}
use hayakv.Base.Assoc.{assoc_get, assoc_put, assoc_delete}
use hayakv.Stream.{
  StreamId, Entry, Stream, PendingEntry, Consumer, Group, zero_id, wrap, max_uint64, greater, id_eq,
  range,
}

abbrev pub find_consumer : Group → Bytes → Option Consumer
find_consumer g name = assoc_get bytes_eq name g.consumers

-- a write through the `*Consumer` of that name
abbrev pub with_consumer : Bytes → (Consumer → Consumer) → Group → Group
with_consumer name f g = elim (find_consumer g name) [
  | none ↦ g
  | some c ↦ record g { consumers = assoc_put bytes_eq name (f c) g.consumers }
]

unfoldable pub get_or_create_consumer : Bytes → Group → Group
get_or_create_consumer name g = elim (find_consumer g name) [
  | some c ↦ g
  | none ↦
      let c : Consumer = record { name = name; pending = []; active_time = pos 0 } in
      record g { consumers = assoc_put bytes_eq name c g.consumers }
]

-- a new `*PendingEntry` for the ID, in the map of the group and in that of the consumer
unfoldable pub own : StreamId → PendingEntry → (Consumer → Consumer) → Group → Group
unfolding id_eq bytes_eq
own id pe touch g =
    let a = length g.memory in
    with_consumer pe.consumer (λ c. touch (record c { pending = assoc_put id_eq id a c.pending }))
      (record g { memory = g.memory ++ (pe ∷ []); pending = assoc_put id_eq id a g.pending })

-- the loop of `ReadNew`
unfoldable pub deliver : ℤ → Bytes → List Entry → Group → Group
unfolding own greater
deliver now name [] g = g
deliver now name (e ∷ es) g =
    let pe : PendingEntry = record { consumer = name; delivery_time = now; delivery_count = 1 } in
    let g' = own e.id pe (λ c. record c { active_time = now }) g in
    deliver now name es (record g' {
      last_delivered = if greater e.id g'.last_delivered then e.id else g'.last_delivered;
    })

-- where `ReadNew` starts to read
abbrev pub read_start : StreamId → StreamId
read_start last =
    if nat_eq last.ms 0 && nat_eq last.seq 0
    then zero_id
    else record { ms = last.ms; seq = wrap (last.seq + 1) }

unfoldable pub read_new : ℤ → Stream → Bytes → ℕ → Group → Group × List Entry
unfolding range get_or_create_consumer deliver
read_new now s name count g =
    let entries =
      range s (read_start g.last_delivered) (record { ms = max_uint64; seq = max_uint64 }) count in
    if nat_eq (length entries) 0
    then (g, [])
    else let g' = deliver now name entries (get_or_create_consumer name g) in
      (record g' { entries_read = wrap (g'.entries_read + length entries) }, entries)

-- the tests of the loop of `ReadPending`
abbrev pub pending_between : Group → Bytes → StreamId → StreamId → StreamId × ℕ → Bool
pending_between g name start end b = elim (get_elem? g.memory b.1) [
  | none ↦ false
  | some pe ↦
      bytes_eq pe.consumer name && (greater b.0 start || id_eq b.0 start) && not (greater b.0 end)
]

-- `ReadPending`; `sort_slice` is `sort.Slice` with that order
unfoldable pub read_pending :
    ((Entry → Entry → Bool) → List Entry → List Entry)
    → Group
    → Bytes
    → StreamId
    → StreamId
    → ℕ
    → List Entry
unfolding greater id_eq bytes_eq
read_pending sort_slice g name start end count = elim (find_consumer g name) [
  | none ↦ []
  | some c ↦
      let found = keep (pending_between g name start end) c.pending in
      let result =
        sort_slice (λ a b. greater a.id b.id) (map (λ b. record { id = b.0; fields = [] }) found) in
      if ltb 0 count && ltb count (length result) then take count result else result
]

-- `delete(c.Pending, id)` for a consumer that is there
abbrev pub release_entry : StreamId → Bytes → Group → Group
release_entry id name g =
    with_consumer name (λ c. record c { pending = assoc_delete id_eq id c.pending }) g

-- one turn of the loop of `Ack`
unfoldable pub ack_one : StreamId → Group → Group × Bool
unfolding id_eq bytes_eq
ack_one id g = elim (assoc_get id_eq id g.pending) [
  | none ↦ (g, false)
  | some a ↦
      let g' = record g { pending = assoc_delete id_eq id g.pending } in
      elim (get_elem? g.memory a) [
        | none ↦ (g', true)
        | some pe ↦ (release_entry id pe.consumer g', true)
      ]
]

unfoldable pub ack : List StreamId → Group → Group × ℕ
unfolding ack_one
ack [] g = (g, 0)
ack (id ∷ ids) g =
    let first = ack_one id g in
    let rest = ack ids first.0 in (rest.0, if first.1 then rest.1 + 1 else rest.1)

-- `now - t < min_idle`
abbrev pub idle_below : ℤ → ℤ → ℤ → Bool
idle_below now t min_idle =
    ltb (pos_part now + neg_part t + neg_part min_idle)
      (neg_part now + pos_part t + pos_part min_idle)

-- the writes to the entry and to its new owner
abbrev pub reassign : ℤ → Bytes → StreamId → ℕ → PendingEntry → Group → Group
reassign now name id a pe g =
    with_consumer name
      (λ c. record c { pending = assoc_put id_eq id a c.pending; active_time = now })
      (record g {
        memory = set g.memory a (record {
          consumer = name;
          delivery_time = now;
          delivery_count = wrap (pe.delivery_count + 1);
        });
      })

-- one turn of the loop of `Claim`
unfoldable pub claim_one : ℤ → Bytes → ℤ → Bool → StreamId → Group → Group × Bool
unfolding id_eq bytes_eq
claim_one now name min_idle force id g = elim (assoc_get id_eq id g.pending) [
  | none ↦
      if not force
      then (g, false)
      else let pe : PendingEntry = record {
        consumer = [];
        delivery_time = pos 0;
        delivery_count = 0;
      } in
        let a = length g.memory in
        let g' = record g {
          memory = g.memory ++ (pe ∷ []);
          pending = assoc_put id_eq id a g.pending;
        } in
        (reassign now name id a pe g', true)
  | some a ↦ elim (get_elem? g.memory a) [
    | none ↦ (g, false)
    | some pe ↦
        if not force && idle_below now pe.delivery_time min_idle
        then (g, false)
        else (reassign now name id a pe (release_entry id pe.consumer g), true)
  ]
]

unfoldable pub claim_loop : ℤ → Bytes → ℤ → Bool → List StreamId → Group → Group × List StreamId
unfolding claim_one
claim_loop now name min_idle force [] g = (g, [])
claim_loop now name min_idle force (id ∷ ids) g =
    let first = claim_one now name min_idle force id g in
    let rest = claim_loop now name min_idle force ids first.0 in
    (rest.0, if first.1 then id ∷ rest.1 else rest.1)

unfoldable pub claim : ℤ → Bytes → ℤ → List StreamId → Bool → Group → Group × List StreamId
unfolding get_or_create_consumer claim_loop
claim now name min_idle ids force g =
    claim_loop now name min_idle force ids (get_or_create_consumer name g)

unfoldable pub group_set_id : StreamId → Group → Group
group_set_id id g = record g { last_delivered = id }

-- `Lag`
unfoldable pub lag : Group → ℕ → ℕ
lag g stream_entries_added =
    if ltb stream_entries_added g.entries_read then 0 else stream_entries_added - g.entries_read

unfoldable pub pending_count : Group → ℕ
pending_count g = length g.pending

unfoldable pub set_entries_read : ℕ → Group → Group
set_entries_read n g = record g { entries_read = n }

unfoldable pub restore_pending : StreamId → Bytes → ℤ → ℕ → Group → Group
unfolding get_or_create_consumer own
restore_pending id name delivery_time delivery_count g =
    own id
      (record { consumer = name; delivery_time = delivery_time; delivery_count = delivery_count })
      (λ c. c) (get_or_create_consumer name g)
