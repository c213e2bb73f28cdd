-- ===== src/Stream/Groups/Claims.antt =====
-- `Claim`: the claimed entries go to the new consumer.
use hayakv.Base.{
  length-append, ℕ, ◌+◌, ◌<◌, ◌≡◌, refl, ap, sym, ◌∙◌, inl, inr, ◌⊎◌, Bool, true, false, not, ◌&&◌,
  Option, none, some, List, [], ◌∷◌, ◌++◌, arith, length, get_elem?, set, nat_eq, if◌then◌else◌,
  Bool-cases, ◌>>=◌, All, get_elem?-set_same, get_elem?-set_other, get_elem?_inside,
}
use hayakv.Base.Classes.{Bytes, bytes_eq, bytes_eq_iff}
use hayakv.Base.Int.{ℤ, pos}
use hayakv.Base.Assoc.{assoc_put, assoc_delete, assoc_get-assoc_put, assoc_get-assoc_delete}
use hayakv.Stream.{StreamId, PendingEntry, Consumer, Group, id_eq, wrap}
use hayakv.Stream.Groups.{
  find_consumer, with_consumer, get_or_create_consumer, release_entry, reassign, claim_one,
  claim_loop, claim, idle_below,
}
use hayakv.Stream.Groups.Tables.{id_eq_iff, Agree, assign-Agree, unassign-Agree}
use hayakv.Stream.Groups.Laws.{
  pending_of, held_of, owner_of, IsConsistent, Present, held-with_consumer, with_consumer-Present,
  held_some, owner_some, unowned, owner-append, get_or_create_lem,
}

-- the owner of an entry after the write to it
owner-set :
    (memory : List PendingEntry) (a b : ℕ) (pe : PendingEntry)
    → a < length memory
    → (get_elem? (set memory a pe) b >>= λ p. some p.consumer)
      ≡ (if nat_eq a b then some pe.consumer else (get_elem? memory b >>= λ p. some p.consumer))
owner-set memory a b pe h = elim (Bool-cases (nat_eq a b)) [
  | inl e ↦
      let same : a ≡ b = ground (arith, e) in
      rw (e, ← same, get_elem?-set_same memory a pe h, ◌>>=◌)
  | inr e ↦ rw (get_elem?-set_other memory a b pe e, e)
]

-- what a turn of `Claim` for the consumer `n` leaves: `claimed` tells whether it took the entry over
pub record Claimed (g g' : Group) (id : StreamId) (n : Bytes) (claimed : Bool) : Type 0 where
  pub consistent : IsConsistent g'
  pub taken : (claimed ≡ false) ⊎ ((a : ℕ) × (held_of g' n id ≡ some a))
  pub others : (i : StreamId) → (claimed && id_eq id i) ≡ false → held_of g' n i ≡ held_of g n i
  pub present : (m : Bytes) → Present g m → Present g' m

unclaimed : (g : Group) (id : StreamId) (n : Bytes) → IsConsistent g → Claimed g g id n false
unclaimed g id n h = record {
  consistent = h;
  taken = inl refl;
  others = λ i k. refl;
  present = λ m p. p;
}

-- the writes of a turn, on the views of the group before it
reassign-Claimed :
    (now : ℤ) (n : Bytes) (id : StreamId) (a : ℕ) (pe : PendingEntry) (g g0 : Group)
    (pending : StreamId → Option ℕ) (held : Bytes → StreamId → Option ℕ) (owner : ℕ → Option Bytes)
    → Agree pending held owner
    → pending id ≡ none
    → ((i : StreamId) → pending i ≡ some a → ⊥)
    → ((i : StreamId) → pending_of g0 i ≡ (if id_eq id i then some a else pending i))
    → ((m : Bytes) (i : StreamId) → held_of g0 m i ≡ held m i)
    → ((b : ℕ) → nat_eq a b ≡ false → owner_of g0 b ≡ owner b)
    → a < length g0.memory
    → Present g0 n
    → ((i : StreamId) → id_eq id i ≡ false → held n i ≡ held_of g n i)
    → ((m : Bytes) → Present g m → Present g0 m)
    → Claimed g (reassign now n id a pe g0) id n true
reassign-Claimed now n id a pe g g0 pending held owner h fresh unused eqP eqH eqO lt (c, e) same
      keeps =
    let pe' : PendingEntry = record {
      consumer = n;
      delivery_time = now;
      delivery_count = wrap (pe.delivery_count + 1);
    } in
    let g1 : Group = record g0 { memory = set g0.memory a pe' } in
    let f : Consumer → Consumer =
      λ d. record d { pending = assoc_put id_eq id a d.pending; active_time = now } in
    let g' : Group = reassign now n id a pe g0 in
    let write = λ (i : StreamId). assoc_get-assoc_put id_eq id_eq_iff id i a c.pending in
    let mine = held-with_consumer n f g1 c id (some a) e write in
    let hold : (m : Bytes) (i : StreamId)
        → held_of g' m i ≡ (if bytes_eq n m && id_eq id i then some a else held m i) =
      λ m i. mine m i ∙ ap (λ t. if bytes_eq n m && id_eq id i then some a else t) (eqH m i) in
    let own' : (b : ℕ) → owner_of g' b ≡ (if nat_eq a b then some n else owner b) = λ b.
      elim (Bool-cases (nat_eq a b)) [
        | inl k ↦ rw (with_consumer, e) (owner-set g0.memory a b pe' lt ∙ rw k)
        | inr k ↦ rw (with_consumer, e) (owner-set g0.memory a b pe' lt ∙ rw k (eqO b k))
      ] in
    let self : bytes_eq n n ≡ true = (bytes_eq_iff n n).1 refl in
    let self_id : id_eq id id ≡ true = (id_eq_iff id id).1 refl in
    record {
      consistent =
          assign-Agree pending (pending_of g') held (held_of g') owner (owner_of g') h id n a fresh
            unused (λ i. rw (with_consumer, e) (eqP i)) hold own';
      taken = inr (a, mine n id ∙ rw (self, self_id));
      others = λ i k. hold n i ∙ rw (self, k) (same i k);
      present = λ m p. with_consumer-Present n m f g1 (keeps m p);
    }

claim_one_lem :
    (now : ℤ) (n : Bytes) (min_idle : ℤ) (force : Bool) (id : StreamId) (g : Group)
    → IsConsistent g
    → Present g n
    → let r = claim_one now n min_idle force id g in Claimed g r.0 id n r.1
unfolding claim_one
claim_one_lem now n min_idle force id g h here = go (pending_of g id) refl
  where
    go :
        (o : Option ℕ)
        → pending_of g id ≡ o
        → let r = claim_one now n min_idle force id g in Claimed g r.0 id n r.1
    go none e = elim (Bool-cases force) [
      | inr k ↦ rw (claim_one, e, k) (unclaimed g id n h)
      | inl k ↦
          let a = length g.memory in
          let pe : PendingEntry = record {
            consumer = [];
            delivery_time = pos 0;
            delivery_count = 0;
          } in
          let g0 : Group = record g {
            memory = g.memory ++ (pe ∷ []);
            pending = assoc_put id_eq id a g.pending;
          } in
          rw (claim_one, e, k)
            (reassign-Claimed now n id a pe g g0 (pending_of g) (held_of g) (owner_of g) h e
              (λ i. unowned g i h) (λ i. assoc_get-assoc_put id_eq id_eq_iff id i a g.pending)
              (λ m i. refl) (λ b off. owner-append g pe b ∙ rw off)
              (omega (arith, length-append g.memory (pe ∷ []))) here (λ i off. refl) (λ m p. p))
    ]
    go (some a) e =
        let (m, o, held) = h.owned id a e in
        let (pe, found, named) = owner_some g m a o in
        let (c, there) = held_some g m id a held in
        let f : Consumer → Consumer = λ d. record d { pending = assoc_delete id_eq id d.pending } in
        let g0 : Group = release_entry id pe.consumer g in
        let at : find_consumer g pe.consumer ≡ some c = ap (find_consumer g) named ∙ there in
        let write = λ (i : StreamId). assoc_get-assoc_delete id_eq id_eq_iff id i c.pending in
        let left = held-with_consumer pe.consumer f g c id none at write in
        let pending : StreamId → Option ℕ = λ i. if id_eq id i then none else pending_of g i in
        let self : bytes_eq n n ≡ true = (bytes_eq_iff n n).1 refl in
        let self_id : id_eq id id ≡ true = (id_eq_iff id id).1 refl in
        let (agree, unused) =
          unassign-Agree (pending_of g) pending (held_of g) (held_of g0) (owner_of g) (owner_of g) h
            id pe.consumer a e (o ∙ ap some (sym named)) (λ i. refl) left (λ b. refl) in
        let back : (i : StreamId) → pending_of g i ≡ (if id_eq id i then some a else pending i) =
          λ i. elim (Bool-cases (id_eq id i)) [
            | inl k ↦ rw k (ap (pending_of g) (sym ((id_eq_iff id i).0 k)) ∙ e)
            | inr k ↦ rw k
          ] in
        elim (Bool-cases (not force && idle_below now pe.delivery_time min_idle)) [
          | inl k ↦ rw (claim_one, e, found, k) (unclaimed g id n h)
          | inr k ↦
              rw (claim_one, e, found, k)
                (reassign-Claimed now n id a pe g g0 pending (held_of g0) (owner_of g) agree
                  (rw self_id) unused (λ i. rw (with_consumer, at) (back i)) (λ m i. refl)
                  (λ b off. rw (with_consumer, at))
                  (rw (with_consumer, at) (get_elem?_inside g.memory a pe found))
                  (with_consumer-Present pe.consumer n f g here)
                  (λ i off. left n i ∙ elim (Bool-cases (bytes_eq pe.consumer n)) [
                    | inl t ↦ rw (t, off)
                    | inr t ↦ rw t
                  ])
                  (λ m p. with_consumer-Present pe.consumer m f g p))
        ]

claim_loop_lem :
    (now : ℤ) (n : Bytes) (min_idle : ℤ) (force : Bool) (ids : List StreamId) (g : Group)
    → IsConsistent g
    → Present g n
    → let r = claim_loop now n min_idle force ids g in
      IsConsistent r.0
      × All (λ id. (a : ℕ) × (held_of r.0 n id ≡ some a)) r.1
      × ((i : StreamId) (a : ℕ) → held_of g n i ≡ some a → (b : ℕ) × (held_of r.0 n i ≡ some b))
unfolding claim_loop
claim_loop_lem now n min_idle force [] g h here = (h, tt, λ i a k. (a, k))
claim_loop_lem now n min_idle force (id ∷ ids) g h here =
    let r = claim_one now n min_idle force id g in
    let one = claim_one_lem now n min_idle force id g h here in
    let (valid, held, keeps) =
      claim_loop_lem now n min_idle force ids r.0 one.consistent (one.present n here) in
    let stays : (i : StreamId) (a : ℕ)
        → held_of g n i ≡ some a
        → (b : ℕ) × (held_of (claim_loop now n min_idle force ids r.0).0 n i ≡ some b) =
      λ i a k. elim (Bool-cases (r.1 && id_eq id i)) [
        | inr e ↦ keeps i a (one.others i e ∙ k)
        | inl e ↦ elim one.taken [
          | inl f ↦ absurd (ground (arith, e, f))
          | inr (b, f) ↦
              let same : id ≡ i = (id_eq_iff id i).0 (ground (arith, e)) in
              keeps i b (ap (held_of r.0 n) (sym same) ∙ f)
        ]
      ] in
    elim (Bool-cases r.1) [
      | inr e ↦ rw e (valid, held, stays)
      | inl e ↦ elim one.taken [
        | inl f ↦ absurd (ground (arith, e, f))
        | inr (b, f) ↦ rw e (valid, (keeps id b f, held), stays)
      ]
    ]

-- `Claim` on a consistent group leaves it consistent, and the new consumer holds every ID that it returns.
pub claim_lem :
    (now : ℤ) (n : Bytes) (min_idle : ℤ) (ids : List StreamId) (force : Bool) (g : Group)
    → IsConsistent g
    → let r = claim now n min_idle ids force g in
      IsConsistent r.0 × All (λ id. (a : ℕ) × (held_of r.0 n id ≡ some a)) r.1
unfolding claim
claim_lem now n min_idle ids force g h =
    let (valid, here, _, _) = get_or_create_lem n g h in
    let (valid', held, _) =
      claim_loop_lem now n min_idle force ids (get_or_create_consumer n g) valid here in
    (valid', held)
