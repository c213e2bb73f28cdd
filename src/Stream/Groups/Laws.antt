-- ===== src/Stream/Groups/Laws.antt =====
-- The operations on a group keep its tables in agreement.
use hayakv.Base.{
  ℕ, ◌≡◌, refl, ap, sym, ◌∙◌, inl, inr, true, false, ◌&&◌, Option, none, some, [], ◌∷◌, ◌++◌, arith,
  length, get_elem?, nat_eq, if◌then◌else◌, Bool-cases, ◌>>=◌, get_elem?_inside,
  get_elem?-append_one,
}
use mathlib.Core.Option.{some-injective}
use hayakv.Base.Classes.{Bytes, bytes_eq, bytes_eq_iff}
use hayakv.Base.Int.{pos}
use hayakv.Base.Assoc.{assoc_get, assoc_put, assoc_get-assoc_put}
use hayakv.Stream.{StreamId, PendingEntry, Consumer, Group, id_eq}
use hayakv.Stream.Groups.{find_consumer, with_consumer, get_or_create_consumer, own}
use hayakv.Stream.Groups.Tables.{id_eq_iff, Agree, Agree-cong, assign-Agree}

-- the entry of an ID in the group, in a consumer, and the consumer that an entry names
abbrev pub pending_of : Group → StreamId → Option ℕ
pending_of g id = assoc_get id_eq id g.pending

abbrev pub held_of : Group → Bytes → StreamId → Option ℕ
held_of g n id = find_consumer g n >>= λ c. assoc_get id_eq id c.pending

abbrev pub owner_of : Group → ℕ → Option Bytes
owner_of g a = get_elem? g.memory a >>= λ pe. some pe.consumer

-- The pending entries of the group and those of its consumers are the same, under the names that the
-- entries have.
abbrev pub IsConsistent : Group → Type 0
IsConsistent g = Agree (pending_of g) (held_of g) (owner_of g)

abbrev pub Present : Group → Bytes → Type 0
Present g n = (c : Consumer) × (find_consumer g n ≡ some c)

pub find-with_consumer :
    (n m : Bytes) (f : Consumer → Consumer) (g : Group) (c : Consumer)
    → find_consumer g n ≡ some c
    → find_consumer (with_consumer n f g) m
      ≡ (if bytes_eq n m then some (f c) else find_consumer g m)
find-with_consumer n m f g c e =
    rw (with_consumer, e) (assoc_get-assoc_put bytes_eq bytes_eq_iff n m (f c) g.consumers)

-- a write to one binding of one consumer
pub held-with_consumer :
    (n : Bytes) (f : Consumer → Consumer) (g : Group) (c : Consumer) (id : StreamId) (v : Option ℕ)
    → find_consumer g n ≡ some c
    → ((i : StreamId)
        → assoc_get id_eq i (f c).pending ≡ (if id_eq id i then v else assoc_get id_eq i c.pending))
    → (m : Bytes) (i : StreamId)
    → held_of (with_consumer n f g) m i ≡ (if bytes_eq n m && id_eq id i then v else held_of g m i)
held-with_consumer n f g c id v e write m i = elim (Bool-cases (bytes_eq n m)) [
  | inl h ↦
      let same : n ≡ m = (bytes_eq_iff n m).0 h in
      let there : find_consumer g m ≡ some c = ap (find_consumer g) (sym same) ∙ e in
      let now : find_consumer (with_consumer n f g) m ≡ some (f c) =
        find-with_consumer n m f g c e ∙ rw h in
      rw (now, there, h, ◌>>=◌) (write i)
  | inr h ↦
      let now : find_consumer (with_consumer n f g) m ≡ find_consumer g m =
        find-with_consumer n m f g c e ∙ rw h in
      rw (now, h)
]

pub with_consumer-Present :
    (n m : Bytes) (f : Consumer → Consumer) (g : Group)
    → Present g m
    → Present (with_consumer n f g) m
with_consumer-Present n m f g (d, e) = go (find_consumer g n) refl
  where
    go : (o : Option Consumer) → find_consumer g n ≡ o → Present (with_consumer n f g) m
    go none h = rw (with_consumer, h) (d, e)
    go (some c) h = elim (Bool-cases (bytes_eq n m)) [
      | inl k ↦ (f c, find-with_consumer n m f g c h ∙ rw k)
      | inr k ↦ (d, find-with_consumer n m f g c h ∙ rw k e)
    ]

pub held_some :
    (g : Group) (n : Bytes) (id : StreamId) (a : ℕ) → held_of g n id ≡ some a → Present g n
held_some g n id a h = go (find_consumer g n) refl
  where
    go : (o : Option Consumer) → find_consumer g n ≡ o → Present g n
    go (some c) e = (c, e)
    go none e = let bad : none ≡ some a = sym (rw e) ∙ h in absurd (ground (arith, bad))

pub owner_some :
    (g : Group) (n : Bytes) (a : ℕ)
    → owner_of g a ≡ some n
    → (pe : PendingEntry) × (get_elem? g.memory a ≡ some pe) × (pe.consumer ≡ n)
owner_some g n a h = go (get_elem? g.memory a) refl
  where
    go :
        (o : Option PendingEntry)
        → get_elem? g.memory a ≡ o
        → (pe : PendingEntry) × (get_elem? g.memory a ≡ some pe) × (pe.consumer ≡ n)
    go (some pe) e = (pe, e, some-injective pe.consumer n (sym (rw e) ∙ h))
    go none e = let bad : none ≡ some n = sym (rw e) ∙ h in absurd (ground (arith, bad))

pub unowned :
    (g : Group) (i : StreamId) → IsConsistent g → pending_of g i ≡ some (length g.memory) → ⊥
unowned g i h e =
    let (n, o, _) = h.owned i (length g.memory) e in
    let (pe, found, _) = owner_some g n (length g.memory) o in
    absurd (omega (arith, get_elem?_inside g.memory (length g.memory) pe found))

pub owner-append :
    (g : Group) (pe : PendingEntry) (b : ℕ)
    → (get_elem? (g.memory ++ (pe ∷ [])) b >>= λ p. some p.consumer)
      ≡ (if nat_eq (length g.memory) b then some pe.consumer else owner_of g b)
owner-append g pe b = elim (Bool-cases (nat_eq (length g.memory) b)) [
  | inl e ↦ rw (get_elem?-append_one g.memory pe b, e, ◌>>=◌)
  | inr e ↦ rw (get_elem?-append_one g.memory pe b, e)
]

-- What a write to the binding of `id` leaves of a group: it agrees, and its consumers are still there.
pub record Assigned (g g' : Group) (id : StreamId) (a : ℕ) (n : Bytes) : Type 0 where
  pub consistent : IsConsistent g'
  pub pending : (i : StreamId) → pending_of g' i ≡ (if id_eq id i then some a else pending_of g i)
  pub mine : held_of g' n id ≡ some a
  pub others : (i : StreamId) → id_eq id i ≡ false → held_of g' n i ≡ held_of g n i
  pub present : (m : Bytes) → Present g m → Present g' m

pub own-Assigned :
    (id : StreamId) (pe : PendingEntry) (touch : Consumer → Consumer) (g : Group)
    → IsConsistent g
    → pending_of g id ≡ none
    → Present g pe.consumer
    → ((c : Consumer) → (touch c).pending ≡ c.pending)
    → Assigned g (own id pe touch g) id (length g.memory) pe.consumer
unfolding own
own-Assigned id pe touch g h fresh (c, e) same =
    let a = length g.memory in
    let f : Consumer → Consumer =
      λ d. touch (record d { pending = assoc_put id_eq id a d.pending }) in
    let g1 : Group = record g {
      memory = g.memory ++ (pe ∷ []);
      pending = assoc_put id_eq id a g.pending;
    } in
    let write : (i : StreamId)
        → assoc_get id_eq i (f c).pending
          ≡ (if id_eq id i then some a else assoc_get id_eq i c.pending) =
      λ i.
        ap (assoc_get id_eq i) (same (record c { pending = assoc_put id_eq id a c.pending }))
        ∙ assoc_get-assoc_put id_eq id_eq_iff id i a c.pending in
    let held = held-with_consumer pe.consumer f g1 c id (some a) e write in
    let all : (i : StreamId)
        → pending_of (own id pe touch g) i ≡ (if id_eq id i then some a else pending_of g i) =
      λ i. rw (own, with_consumer, e) (assoc_get-assoc_put id_eq id_eq_iff id i a g.pending) in
    let self : bytes_eq pe.consumer pe.consumer ≡ true =
      (bytes_eq_iff pe.consumer pe.consumer).1 refl in
    let self_id : id_eq id id ≡ true = (id_eq_iff id id).1 refl in
    record {
      consistent =
          assign-Agree (pending_of g) (pending_of (own id pe touch g)) (held_of g)
            (held_of (own id pe touch g)) (owner_of g) (owner_of (own id pe touch g)) h id
            pe.consumer a fresh (λ i. unowned g i h) all held
            (λ b. rw (own, with_consumer, e) (owner-append g pe b));
      pending = all;
      mine = held pe.consumer id ∙ rw (self, self_id);
      others = λ i k. held pe.consumer i ∙ rw (self, k);
      present = λ m p. with_consumer-Present pe.consumer m f g1 p;
    }

pub get_or_create_lem :
    (n : Bytes) (g : Group)
    → IsConsistent g
    → let g' = get_or_create_consumer n g in
      IsConsistent g'
      × Present g' n
      × ((i : StreamId) → pending_of g' i ≡ pending_of g i)
      × (g'.last_delivered ≡ g.last_delivered)
unfolding get_or_create_consumer
get_or_create_lem n g h = go (find_consumer g n) refl
  where
    go :
        (o : Option Consumer)
        → find_consumer g n ≡ o
        → let g' = get_or_create_consumer n g in
          IsConsistent g'
          × Present g' n
          × ((i : StreamId) → pending_of g' i ≡ pending_of g i)
          × (g'.last_delivered ≡ g.last_delivered)
    go (some c) e = rw (get_or_create_consumer, e) (h, (c, e), (λ i. refl), refl)
    go none e =
        let c : Consumer = record { name = n; pending = []; active_time = pos 0 } in
        let g' : Group = record g { consumers = assoc_put bytes_eq n c g.consumers } in
        let find = λ (m : Bytes). assoc_get-assoc_put bytes_eq bytes_eq_iff n m c g.consumers in
        let self : bytes_eq n n ≡ true = (bytes_eq_iff n n).1 refl in
        let held : (m : Bytes) (i : StreamId) → held_of g' m i ≡ held_of g m i = λ m i.
          elim (Bool-cases (bytes_eq n m)) [
            | inl k ↦
                let same : n ≡ m = (bytes_eq_iff n m).0 k in
                let there : find_consumer g m ≡ none = ap (find_consumer g) (sym same) ∙ e in
                let made : find_consumer g' m ≡ some c = find m ∙ rw k in rw (made, there, ◌>>=◌)
            | inr k ↦ let made : find_consumer g' m ≡ find_consumer g m = find m ∙ rw k in rw made
          ] in
        rw (get_or_create_consumer, e)
          (
            Agree-cong (pending_of g) (pending_of g') (held_of g) (held_of g') (owner_of g) h
                (λ i. refl) held,
            (c, find n ∙ rw self),
            (λ i. refl),
            refl,
          )
