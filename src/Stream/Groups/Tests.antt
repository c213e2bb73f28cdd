-- ===== src/Stream/Groups/Tests.antt =====
-- Runs of a consumer group, and its theorems at concrete inputs.
use hayakv.Base.{ℕ, ◌≡◌, refl, inr, true, false, none, some, [], ◌∷◌, arith, if◌then◌else◌, All}
use hayakv.Base.Classes.{Bytes, bytes_eq}
use hayakv.Base.Int.{pos}
use hayakv.Stream.{
  StreamId, Entry, Stream, Group, new_group, zero_id, id_eq, greater, in_range, in_set, range,
  range_loop,
}
use hayakv.Stream.Groups.{
  get_or_create_consumer, own, deliver, read_new, ack_one, ack, claim_one, claim_loop, claim,
  group_set_id, restore_pending,
}
use hayakv.Stream.Groups.Laws.{IsConsistent, pending_of, held_of}
use hayakv.Stream.Groups.Moves.{ack_lem}
use hayakv.Stream.Groups.Claims.{claim_lem}
use hayakv.Stream.Groups.Deliveries.{IsRead, news, read_new_lem, restore_pending_lem}

abbrev at : ℕ → StreamId
at n = record { ms = n; seq = 1 }

abbrev entry : ℕ → Entry
entry n = record { id = at n; fields = [] }

abbrev sample : Stream
sample = record {
  entries = entry 1 ∷ entry 2 ∷ entry 3 ∷ [];
  last_id = at 3;
  max_deleted_id = zero_id;
  entries_added = 3;
  size = 3;
  groups = λ _. none;
}

abbrev ann : Bytes
ann = 97 ∷ []

abbrev bob : Bytes
bob = 98 ∷ []

abbrev new_one : Group
new_one = new_group (103 ∷ []) zero_id

abbrev first_read : Group
first_read = (read_new (pos 5) sample ann 2 new_one).0

second_read : (read_new (pos 9) sample bob 0 first_read).1 ≡ entry 3 ∷ []
unfolding read_new range range_loop in_range deliver own get_or_create_consumer bytes_eq id_eq
    greater new_group
second_read = refl

-- a claim of what is pending, of what is not idle, of what is not pending
claims : (claim (pos 20) bob (pos 10) (at 1 ∷ at 3 ∷ []) false first_read).1 ≡ at 1 ∷ []
unfolding claim claim_loop claim_one read_new range range_loop in_range deliver own
    get_or_create_consumer bytes_eq id_eq greater new_group
claims = refl

-- after `SetID` back to the start, an entry that the first consumer still has pending is delivered to
-- the second: both hold it, and an acknowledgement takes it from the second only
abbrev read_again : Group
read_again = (read_new (pos 9) sample bob 1 (group_set_id zero_id first_read)).0

both_hold :
    (held_of (ack (at 1 ∷ []) read_again).0 ann (at 1) ≡ some 0)
    × (pending_of (ack (at 1 ∷ []) read_again).0 (at 1) ≡ none)
unfolding ack ack_one group_set_id read_new range range_loop in_range deliver own
    get_or_create_consumer bytes_eq id_eq greater new_group
both_hold = (refl, refl)

new_group-IsConsistent : (name : Bytes) (start : StreamId) → IsConsistent (new_group name start)
unfolding new_group
new_group-IsConsistent name start = record {
  owned = λ i a k. absurd (ground (arith, k));
  backed = λ n i a k. absurd (ground (arith, k));
  single = λ i j a k l. absurd (ground (arith, k));
}

new_group-IsRead : (name : Bytes) (start : StreamId) → IsRead (new_group name start)
unfolding new_group
new_group-IsRead name start i = inr refl

read_new_lem_example :
    let r = read_new (pos 5) sample ann 2 new_one in
    (r.1 ≡ news sample zero_id 2)
    × IsConsistent r.0
    × IsRead r.0
    × All (λ e. (a : ℕ) × (held_of r.0 ann e.id ≡ some a)) r.1
unfolding greater new_group
read_new_lem_example =
    read_new_lem (pos 5) sample ann 2 new_one ((refl, (refl, tt)), ((refl, tt), (tt, tt)))
      (
        ((omega arith, omega arith), refl),
        (((omega arith, omega arith), refl), (((omega arith, omega arith), refl), tt)),
      )
      (new_group-IsConsistent (103 ∷ []) zero_id) (new_group-IsRead (103 ∷ []) zero_id)
      (omega arith)

first_read-IsConsistent : IsConsistent first_read
unfolding greater new_group
first_read-IsConsistent =
    (read_new_lem (pos 5) sample ann 2 new_one ((refl, (refl, tt)), ((refl, tt), (tt, tt)))
      (
        ((omega arith, omega arith), refl),
        (((omega arith, omega arith), refl), (((omega arith, omega arith), refl), tt)),
      )
      (new_group-IsConsistent (103 ∷ []) zero_id) (new_group-IsRead (103 ∷ []) zero_id)
      (omega arith)).1

ack_lem_example :
    IsConsistent (ack (at 2 ∷ at 9 ∷ []) first_read).0
    × ((i : StreamId)
        → pending_of (ack (at 2 ∷ at 9 ∷ []) first_read).0 i
          ≡ (if in_set i (at 2 ∷ at 9 ∷ []) then none else pending_of first_read i))
ack_lem_example = ack_lem (at 2 ∷ at 9 ∷ []) first_read first_read-IsConsistent

claim_lem_example :
    let r = claim (pos 20) bob (pos 10) (at 1 ∷ at 7 ∷ []) true first_read in
    IsConsistent r.0 × All (λ id. (a : ℕ) × (held_of r.0 bob id ≡ some a)) r.1
claim_lem_example =
    claim_lem (pos 20) bob (pos 10) (at 1 ∷ at 7 ∷ []) true first_read first_read-IsConsistent

restore_pending_lem_example :
    let g' = restore_pending (at 4) bob (pos 3) 2 new_one in
    IsConsistent g'
    × (a : ℕ) × (held_of g' bob (at 4) ≡ some a)
    × ((i : StreamId) → pending_of g' i ≡ (if id_eq (at 4) i then some a else pending_of new_one i))
unfolding new_group
restore_pending_lem_example =
    restore_pending_lem (at 4) bob (pos 3) 2 new_one (new_group-IsConsistent (103 ∷ []) zero_id)
      refl
