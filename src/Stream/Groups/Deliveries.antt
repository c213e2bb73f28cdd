-- ===== src/Stream/Groups/Deliveries.antt =====
-- `ReadNew` and `RestorePending`: new deliveries go to a consumer.
use hayakv.Base.{
  keep, take, zero, suc, All-map, ℕ, ◌<◌, ◌≡◌, refl, ap, sym, ◌∙◌, inl, inr, ◌⊎◌, Bool, true, false,
  ◌&&◌, none, some, List, [], ◌∷◌, arith, length, nat_eq, if◌then◌else◌, Bool-cases, All,
}
use mathlib.Core.Path.{subst}
use hayakv.Base.Classes.{Bytes}
use hayakv.Base.Int.{ℤ}
use hayakv.Stream.{
  StreamId, Entry, Stream, zero_id, max_uint64, greater, range, PendingEntry, Consumer, Group,
  id_eq,
}
use hayakv.Stream.Groups.{
  with_consumer, get_or_create_consumer, own, restore_pending, deliver, read_start, read_new,
}
use hayakv.Stream.Groups.Tables.{id_eq_iff}
use hayakv.Stream.Groups.Laws.{
  pending_of, held_of, IsConsistent, Present, own-Assigned, get_or_create_lem,
}
use hayakv.Stream.Order.{Bounded, IsAscending, greater_irrefl}
use hayakv.Stream.Ranges.{between, range_lem}
use hayakv.Stream.Sift.{keep-IsAscending}

-- Nothing behind the last delivered ID is pending.
abbrev pub IsRead : Group → Type 0
IsRead g = (i : StreamId) → (greater i g.last_delivered ≡ false) ⊎ (pending_of g i ≡ none)

not_equal : (a b : StreamId) → greater b a ≡ true → id_eq a b ≡ false
unfolding greater id_eq
not_equal a b h = ground (arith, h)

not_above :
    (i last b : StreamId) → greater b last ≡ true → greater i last ≡ false → greater i b ≡ false
unfolding greater
not_above i last b h k = ground (arith, h, k)

own-last_delivered :
    (id : StreamId) (pe : PendingEntry) (touch : Consumer → Consumer) (g : Group)
    → Present g pe.consumer
    → (own id pe touch g).last_delivered ≡ g.last_delivered
unfolding own
own-last_delivered id pe touch g (c, e) = rw (own, with_consumer, e)

-- a loop of deliveries from one group to another
abbrev Delivered : Bytes → List Entry → Group → Group → Type 0
Delivered n es g g' =
    IsConsistent g'
    × IsRead g'
    × All (λ e. (a : ℕ) × (held_of g' n e.id ≡ some a)) es
    × ((i : StreamId) → All (λ e. id_eq e.id i ≡ false) es → held_of g' n i ≡ held_of g n i)

deliver_lem :
    (now : ℤ) (n : Bytes) (es : List Entry) (g : Group)
    → IsConsistent g
    → Present g n
    → IsRead g
    → IsAscending es
    → All (λ e. greater e.id g.last_delivered ≡ true) es
    → Delivered n es g (deliver now n es g)
unfolding deliver
deliver_lem now n [] g h here read up later = (h, read, tt, λ i k. refl)
deliver_lem now n (e ∷ es) g h here read up later =
    let touch : Consumer → Consumer = λ c. record c { active_time = now } in
    let pe : PendingEntry = record { consumer = n; delivery_time = now; delivery_count = 1 } in
    let g1 : Group = own e.id pe touch g in
    let fresh : pending_of g e.id ≡ none = elim (read e.id) [
      | inr k ↦ k
      | inl k ↦ absurd (clash later.0 k)
    ] in
    let one = own-Assigned e.id pe touch g h fresh here (λ c. refl) in
    let last : g1.last_delivered ≡ g.last_delivered = own-last_delivered e.id pe touch g here in
    let moves : greater e.id g1.last_delivered ≡ true = ap (greater e.id) last ∙ later.0 in
    let g2 : Group = record g1 { last_delivered = e.id } in
    let read2 : IsRead g2 = λ i. elim (Bool-cases (id_eq e.id i)) [
      | inl k ↦ inl (ap (λ j. greater j e.id) (sym ((id_eq_iff e.id i).0 k)) ∙ greater_irrefl e.id)
      | inr k ↦ elim (read i) [
        | inl m ↦ inl (not_above i g.last_delivered e.id later.0 m)
        | inr m ↦ inr (one.pending i ∙ rw k m)
      ]
    ] in
    let (valid, read', held, others) =
      deliver_lem now n es g2 one.consistent (one.present n here) read2 up.1 up.0 in
    let a = length g.memory in
    let apart =
      All-map (λ f. greater f.id e.id ≡ true) (λ f. id_eq f.id e.id ≡ false) es
        (λ f k. swapped e.id f.id k) up.0 in
    let runs : deliver now n (e ∷ es) g ≡ deliver now n es g2 =
      ap
        (λ b.
          deliver now n es (record g1 { last_delivered = if b then e.id else g1.last_delivered }))
        moves in
    subst (Delivered n (e ∷ es) g) (sym runs) (
      valid,
      read',
      ((a, others e.id apart ∙ one.mine), held),
      λ i k. others i k.1 ∙ one.others i k.0,
    )
  where
    clash : {b : Bool} → b ≡ true → b ≡ false → ⊥
    clash h g = ground (arith, h, g)

    swapped : (a b : StreamId) → greater b a ≡ true → id_eq b a ≡ false
    swapped a b k = elim (Bool-cases (id_eq b a)) [
      | inr m ↦ m
      | inl m ↦ absurd (clash ((id_eq_iff a b).1 (sym ((id_eq_iff b a).0 m))) (not_equal a b k))
    ]

-- the entries that `ReadNew` asks for are those behind the last delivered ID
read_start-between :
    (last : StreamId) (e : Entry)
    → last.seq < max_uint64
    → Bounded e.id
    → greater e.id zero_id ≡ true
    → between (read_start last) (record { ms = max_uint64; seq = max_uint64 }) e ≡ greater e.id last
unfolding greater
read_start-between last e h b k = elim (Bool-cases (nat_eq last.ms 0 && nat_eq last.seq 0)) [
  | inl m ↦ rw m (ground (arith, m, b.0, b.1, k))
  | inr m ↦ rw m (ground (arith, m, b.0, b.1, h))
]

keep-cong : (p q : Entry → Bool) (es : List Entry) → All (λ e. p e ≡ q e) es → keep p es ≡ keep q es
keep-cong p q [] h = refl
keep-cong p q (e ∷ es) h = rw (h.0, keep-cong p q es h.1)

keep-All : (p : Entry → Bool) (es : List Entry) → All (λ e. p e ≡ true) (keep p es)
keep-All p [] = tt
keep-All p (e ∷ es) = elim (Bool-cases (p e)) [
  | inl k ↦ rw k (k, keep-All p es)
  | inr k ↦ rw k (keep-All p es)
]

take-All : (P : Entry → Type 0) (n : ℕ) (es : List Entry) → All P es → All P (take n es)
take-All P zero es h = tt
take-All P (suc n) [] h = tt
take-All P (suc n) (e ∷ es) h = (h.0, take-All P n es h.1)

take-IsAscending : (n : ℕ) (es : List Entry) → IsAscending es → IsAscending (take n es)
take-IsAscending zero es h = tt
take-IsAscending (suc n) [] h = tt
take-IsAscending (suc n) (e ∷ es) h =
    (take-All (λ f. greater f.id e.id ≡ true) n es h.0, take-IsAscending n es h.1)

-- the entries behind an ID, and with a positive count the first of them
abbrev pub news : Stream → StreamId → ℕ → List Entry
news s last count =
    let all = keep (λ e. greater e.id last) s.entries in
    if nat_eq count 0 then all else take count all

read_range :
    (s : Stream) (last : StreamId) (count : ℕ)
    → All (λ e. Bounded e.id × (greater e.id zero_id ≡ true)) s.entries
    → last.seq < max_uint64
    → range s (read_start last) (record { ms = max_uint64; seq = max_uint64 }) count
      ≡ news s last count
read_range s last count h k =
    let same =
      keep-cong (between (read_start last) (record { ms = max_uint64; seq = max_uint64 }))
        (λ e. greater e.id last) s.entries
        (All-map (λ e. Bounded e.id × (greater e.id zero_id ≡ true))
          (λ e.
            between (read_start last) (record { ms = max_uint64; seq = max_uint64 }) e
            ≡ greater e.id last)
          s.entries (λ e b. read_start-between last e k b.0 b.1) h) in
    range_lem s (read_start last) (record { ms = max_uint64; seq = max_uint64 }) count
      (All-map (λ e. Bounded e.id × (greater e.id zero_id ≡ true)) (λ e. Bounded e.id) s.entries
        (λ e b. b.0) h)
    ∙ ap (λ all. if nat_eq count 0 then all else take count all) same

news-IsAscending :
    (s : Stream) (last : StreamId) (count : ℕ)
    → IsAscending s.entries
    → IsAscending (news s last count)
news-IsAscending s last count h =
    let all = keep-IsAscending (λ e. greater e.id last) s.entries h in
    elim (Bool-cases (nat_eq count 0)) [
      | inl e ↦ rw e all
      | inr e ↦ rw e (take-IsAscending count (keep (λ f. greater f.id last) s.entries) all)
    ]

news-later :
    (s : Stream) (last : StreamId) (count : ℕ)
    → All (λ e. greater e.id last ≡ true) (news s last count)
news-later s last count =
    let all = keep-All (λ e. greater e.id last) s.entries in
    elim (Bool-cases (nat_eq count 0)) [
      | inl e ↦ rw e all
      | inr e ↦ rw e (
          take-All (λ f. greater f.id last ≡ true) count (keep (λ f. greater f.id last) s.entries)
            all)
    ]

-- `ReadNew` on a stream of ascending IDs of two uint64, none of them 0-0, and on a consistent group whose
-- pending IDs are not above its last delivered one, which has not the greatest sequence number: it returns
-- the entries behind the last delivered ID, up to the count, the consumer holds each of them, and the group
-- is as before in these respects.
pub read_new_lem :
    (now : ℤ) (s : Stream) (n : Bytes) (count : ℕ) (g : Group)
    → IsAscending s.entries
    → All (λ e. Bounded e.id × (greater e.id zero_id ≡ true)) s.entries
    → IsConsistent g
    → IsRead g
    → g.last_delivered.seq < max_uint64
    → let r = read_new now s n count g in
      (r.1 ≡ news s g.last_delivered count)
      × IsConsistent r.0
      × IsRead r.0
      × All (λ e. (a : ℕ) × (held_of r.0 n e.id ≡ some a)) r.1
unfolding read_new
read_new_lem now s n count g up ids h read k =
    let found = read_range s g.last_delivered count ids k in
    let es = news s g.last_delivered count in
    let g1 = get_or_create_consumer n g in
    let (valid, here, same, last) = get_or_create_lem n g h in
    let read1 : IsRead g1 =
      λ i. elim (read i) [ inl m ↦ inl (ap (greater i) last ∙ m) | inr m ↦ inr (same i ∙ m) ] in
    let later =
      subst (λ l. All (λ e. greater e.id l ≡ true) es) (sym last)
        (news-later s g.last_delivered count) in
    let (valid', read', held, _) =
      deliver_lem now n es g1 valid here read1 (news-IsAscending s g.last_delivered count up)
        later in
    elim (Bool-cases (nat_eq (length es) 0)) [
      | inl e ↦
          let empty = no_entries es (ground (arith, e)) in rw (found, e) (sym empty, h, read, tt)
      | inr e ↦ rw (found, e) (refl, valid', read', held)
    ]
  where
    no_entries : (es : List Entry) → length es ≡ 0 → es ≡ []
    no_entries [] e = refl
    no_entries (x ∷ es) e = absurd (omega (arith, e))

-- `RestorePending` of an ID that is not pending keeps a group consistent: the ID is pending with that
-- consumer, and the others as before.
pub restore_pending_lem :
    (id : StreamId) (n : Bytes) (time : ℤ) (count : ℕ) (g : Group)
    → IsConsistent g
    → pending_of g id ≡ none
    → let g' = restore_pending id n time count g in
      IsConsistent g'
      × (a : ℕ) × (held_of g' n id ≡ some a)
      × ((i : StreamId) → pending_of g' i ≡ (if id_eq id i then some a else pending_of g i))
unfolding restore_pending
restore_pending_lem id n time count g h fresh =
    let pe : PendingEntry = record { consumer = n; delivery_time = time; delivery_count = count } in
    let g1 = get_or_create_consumer n g in
    let (valid, here, same, _) = get_or_create_lem n g h in
    let one = own-Assigned id pe (λ c. c) g1 valid (same id ∙ fresh) here (λ c. refl) in
    (
      one.consistent,
      length g1.memory,
      one.mine,
      λ i. one.pending i ∙ ap (λ t. if id_eq id i then some (length g1.memory) else t) (same i),
    )
