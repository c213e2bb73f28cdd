-- ===== src/Stream/Groups/Moves.antt =====
-- `Ack`, `Claim`, `ReadNew` and `RestorePending` keep a group consistent, and what they do to its entries.
use hayakv.Base.{
  ℕ, ◌≡◌, refl, ap, sym, ◌∙◌, inl, inr, Option, none, some, List, [], ◌∷◌, if◌then◌else◌,
  Bool-cases,
}
use hayakv.Base.Assoc.{assoc_delete, assoc_get-assoc_delete}
use hayakv.Stream.{StreamId, Consumer, Group, id_eq, in_set}
use hayakv.Stream.Groups.{with_consumer, release_entry, ack_one, ack}
use hayakv.Stream.Groups.Tables.{id_eq_iff, unassign-Agree}
use hayakv.Stream.Groups.Laws.{
  pending_of, held_of, owner_of, IsConsistent, held-with_consumer, held_some, owner_some,
}

-- one turn of `Ack`
ack_one_lem :
    (id : StreamId) (g : Group)
    → IsConsistent g
    → IsConsistent (ack_one id g).0
      × ((i : StreamId)
          → pending_of (ack_one id g).0 i ≡ (if id_eq id i then none else pending_of g i))
unfolding ack_one
ack_one_lem id g h = go (pending_of g id) refl
  where
    go :
        (o : Option ℕ)
        → pending_of g id ≡ o
        → IsConsistent (ack_one id g).0
          × ((i : StreamId)
              → pending_of (ack_one id g).0 i ≡ (if id_eq id i then none else pending_of g i))
    go none e =
        rw (ack_one, e)
          (
            h,
            λ i. elim (Bool-cases (id_eq id i)) [
              | inl k ↦ rw k (ap (pending_of g) (sym ((id_eq_iff id i).0 k)) ∙ e)
              | inr k ↦ rw k
            ],
          )
    go (some a) e =
        let (n, o, held) = h.owned id a e in
        let (pe, found, named) = owner_some g n a o in
        let (c, there) = held_some g n id a held in
        let g1 : Group = record g { pending = assoc_delete id_eq id g.pending } in
        let f : Consumer → Consumer = λ d. record d { pending = assoc_delete id_eq id d.pending } in
        let gone : Group = release_entry id n g1 in
        let all : (i : StreamId)
            → pending_of gone i ≡ (if id_eq id i then none else pending_of g i) =
          λ i. rw (with_consumer, there) (assoc_get-assoc_delete id_eq id_eq_iff id i g.pending) in
        let write = λ (i : StreamId). assoc_get-assoc_delete id_eq id_eq_iff id i c.pending in
        let left = held-with_consumer n f g1 c id none there write in
        let whole =
          unassign-Agree (pending_of g) (pending_of gone) (held_of g) (held_of gone) (owner_of g)
            (owner_of gone) h id n a e o all left (λ b. rw (with_consumer, there)) in
        let runs : (ack_one id g).0 ≡ gone = rw (ack_one, e, found, named) in rw runs (whole.0, all)

-- `Ack` on a consistent group removes exactly the given IDs from the pending entries, and the group stays
-- consistent.
pub ack_lem :
    (ids : List StreamId) (g : Group)
    → IsConsistent g
    → IsConsistent (ack ids g).0
      × ((i : StreamId)
          → pending_of (ack ids g).0 i ≡ (if in_set i ids then none else pending_of g i))
unfolding ack in_set
ack_lem [] g h = (h, λ i. refl)
ack_lem (id ∷ ids) g h =
    let (valid, one) = ack_one_lem id g h in
    let (valid', rest) = ack_lem ids (ack_one id g).0 valid in
    (
      valid',
      λ i. rest i ∙ elim (Bool-cases (id_eq id i)) [
        | inl k ↦ rw (one i, k) (elim (Bool-cases (in_set i ids)) [ inl m ↦ rw m | inr m ↦ rw m ])
        | inr k ↦ rw (one i, k)
      ],
    )
