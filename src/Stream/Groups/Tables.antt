-- ===== src/Stream/Groups/Tables.antt =====
-- The three views of a group that have to agree: the group's pending entries, those of its consumers,
-- and the owner that an entry names.
use hayakv.Base.{
  ℕ, ◌≡◌, refl, ap, sym, ◌∙◌, ◌↔◌, inl, inr, Bool, true, false, ◌&&◌, Option, none, some, arith,
  nat_eq, if◌then◌else◌, Bool-cases,
}
use mathlib.Core.Option.{some-injective}
use hayakv.Base.Classes.{Bytes, bytes_eq, bytes_eq_iff}
use hayakv.Stream.{StreamId, id_eq}

pub id_eq_iff : (a b : StreamId) → (id_eq a b ≡ true) ↔ (a ≡ b)
unfolding id_eq
id_eq_iff a b = (
  λ h.
      let e : a.ms ≡ b.ms = ground (arith, h) in
      let f : a.seq ≡ b.seq = ground (arith, h) in
      ap (λ m. record { ms = m; seq = a.seq }) e ∙ ap (λ s. record { ms = b.ms; seq = s }) f,
  λ e. rw e (ground arith),
)

id_eq_refl : (a : StreamId) → id_eq a a ≡ true
id_eq_refl a = (id_eq_iff a a).1 refl

-- An entry that is pending is held by its owner, a consumer holds what is pending and its own, and no two
-- IDs share an entry.
pub record Agree (pending : StreamId → Option ℕ) (held : Bytes → StreamId → Option ℕ)
    (owner : ℕ → Option Bytes) : Type 0 where
  pub owned :
      (id : StreamId) (a : ℕ)
      → pending id ≡ some a
      → (n : Bytes) × (owner a ≡ some n) × (held n id ≡ some a)
  pub backed :
      (n : Bytes) (id : StreamId) (a : ℕ)
      → held n id ≡ some a
      → (pending id ≡ some a) × (owner a ≡ some n)
  pub single : (id id' : StreamId) (a : ℕ) → pending id ≡ some a → pending id' ≡ some a → id ≡ id'

clash : {s : Bool} → s ≡ true → s ≡ false → ⊥
clash h g = ground (arith, h, g)

apart : (a b : ℕ) (t : Option ℕ) → t ≡ some b → (t ≡ some a → ⊥) → nat_eq a b ≡ false
apart a b t h k = elim (Bool-cases (nat_eq a b)) [
  | inr e ↦ e
  | inl e ↦ let same : b ≡ a = ground (arith, e) in absurd (k (h ∙ ap some same))
]

module _ (pending pending' : StreamId → Option ℕ) (held held' : Bytes → StreamId → Option ℕ)
    (owner owner' : ℕ → Option Bytes) (h : Agree pending held owner) (id : StreamId) (n : Bytes)
    (a : ℕ) where
  -- An entry that no ID has goes to an ID that is not pending and to a consumer, whose name it gets.
  pub assign-Agree :
      pending id ≡ none
      → ((i : StreamId) → pending i ≡ some a → ⊥)
      → ((i : StreamId) → pending' i ≡ (if id_eq id i then some a else pending i))
      → ((m : Bytes) (i : StreamId)
          → held' m i ≡ (if bytes_eq n m && id_eq id i then some a else held m i))
      → ((b : ℕ) → owner' b ≡ (if nat_eq a b then some n else owner b))
      → Agree pending' held' owner'
  assign-Agree fresh unused eqP eqH eqO = record {
    owned = λ i b k. elim (Bool-cases (id_eq id i)) [
      | inl e ↦
          let same : a ≡ b = some-injective a b (sym (eqP i ∙ rw e) ∙ k) in
          let self : bytes_eq n n ≡ true = (bytes_eq_iff n n).1 refl in
          let hit : nat_eq a b ≡ true = ground (arith, same) in
          (n, eqO b ∙ rw hit, eqH n i ∙ rw (self, e) (ap some same))
      | inr e ↦
          let old : pending i ≡ some b = sym (eqP i ∙ rw e) ∙ k in
          let (m, o, hh) = h.owned i b old in
          let off = apart a b (pending i) old (unused i) in
          let away : (bytes_eq n m && id_eq id i) ≡ false = ground (arith, e) in
          (m, eqO b ∙ (rw off o), eqH m i ∙ (rw away hh))
    ];
    backed = λ m i b k. elim (Bool-cases (bytes_eq n m && id_eq id i)) [
      | inl e ↦
          let same : a ≡ b = some-injective a b (sym (eqH m i ∙ rw e) ∙ k) in
          let e1 : id_eq id i ≡ true = ground (arith, e) in
          let e2 : bytes_eq n m ≡ true = ground (arith, e) in
          let hit : nat_eq a b ≡ true = ground (arith, same) in
          (eqP i ∙ rw e1 (ap some same), eqO b ∙ rw hit (ap some ((bytes_eq_iff n m).0 e2)))
      | inr e ↦
          let old : held m i ≡ some b = sym (eqH m i ∙ rw e) ∙ k in
          let (p, o) = h.backed m i b old in
          let off = apart a b (pending i) p (unused i) in
          let e1 : id_eq id i ≡ false = elim (Bool-cases (id_eq id i)) [
            | inr f ↦ f
            | inl f ↦ absurd (ground (arith, sym fresh ∙ (ap pending ((id_eq_iff id i).0 f) ∙ p)))
          ] in
          (eqP i ∙ rw e1 p, eqO b ∙ rw off o)
    ];
    single = λ i j b k l. elim (Bool-cases (id_eq id i)) [
      | inl e ↦ elim (Bool-cases (id_eq id j)) [
        | inl f ↦ sym ((id_eq_iff id i).0 e) ∙ (id_eq_iff id j).0 f
        | inr f ↦
            let same : a ≡ b = some-injective a b (sym (eqP i ∙ rw e) ∙ k) in
            absurd (unused j (sym (eqP j ∙ rw f) ∙ (l ∙ ap some (sym same))))
      ]
      | inr e ↦ elim (Bool-cases (id_eq id j)) [
        | inl f ↦
            let same : a ≡ b = some-injective a b (sym (eqP j ∙ rw f) ∙ l) in
            absurd (unused i (sym (eqP i ∙ rw e) ∙ (k ∙ ap some (sym same))))
        | inr f ↦ h.single i j b (sym (eqP i ∙ rw e) ∙ k) (sym (eqP j ∙ rw f) ∙ l)
      ]
    ];
  }

  -- An entry leaves the group and its owner.
  pub unassign-Agree :
      pending id ≡ some a
      → owner a ≡ some n
      → ((i : StreamId) → pending' i ≡ (if id_eq id i then none else pending i))
      → ((m : Bytes) (i : StreamId)
          → held' m i ≡ (if bytes_eq n m && id_eq id i then none else held m i))
      → ((b : ℕ) → owner' b ≡ owner b)
      → Agree pending' held' owner' × ((i : StreamId) → pending' i ≡ some a → ⊥)
  unassign-Agree mine own eqP eqH eqO = (
    record {
      owned = λ i b k. elim (Bool-cases (id_eq id i)) [
        | inl e ↦ let bad : none ≡ some b = sym (eqP i ∙ rw e) ∙ k in absurd (ground (arith, bad))
        | inr e ↦
            let (m, o, hh) = h.owned i b (sym (eqP i ∙ rw e) ∙ k) in
            let away : (bytes_eq n m && id_eq id i) ≡ false = ground (arith, e) in
            (m, eqO b ∙ o, eqH m i ∙ rw away hh)
      ];
      backed = λ m i b k. elim (Bool-cases (bytes_eq n m && id_eq id i)) [
        | inl e ↦ let bad : none ≡ some b = sym (eqH m i ∙ rw e) ∙ k in absurd (ground (arith, bad))
        | inr e ↦
            let old : held m i ≡ some b = sym (eqH m i ∙ rw e) ∙ k in
            let (p, o) = h.backed m i b old in
            let e1 : id_eq id i ≡ false = elim (Bool-cases (id_eq id i)) [
              | inr f ↦ f
              | inl f ↦
                  let same : a ≡ b =
                    some-injective a b (sym mine ∙ (ap pending ((id_eq_iff id i).0 f) ∙ p)) in
                  let named : n ≡ m = some-injective n m (sym own ∙ (ap owner same ∙ o)) in
                  absurd (clash ((bytes_eq_iff n m).1 named) (ground (arith, e, f)))
            ] in
            (eqP i ∙ rw e1 p, eqO b ∙ o)
      ];
      single = λ i j b k l. h.single i j b (kept i b k) (kept j b l);
    },
    λ i k. elim (Bool-cases (id_eq id i)) [
      | inl e ↦ let bad : none ≡ some a = sym (eqP i ∙ rw e) ∙ k in absurd (ground (arith, bad))
      | inr e ↦
          let same = h.single id i a mine (kept i a k) in absurd (clash ((id_eq_iff id i).1 same) e)
    ],
  )
    where
      kept : (i : StreamId) (b : ℕ) → pending' i ≡ some b → pending i ≡ some b
      kept i b k = elim (Bool-cases (id_eq id i)) [
        | inl e ↦ let bad : none ≡ some b = sym (eqP i ∙ rw e) ∙ k in absurd (ground (arith, bad))
        | inr e ↦ sym (eqP i ∙ rw e) ∙ k
      ]

pub Agree-cong :
    (pending pending' : StreamId → Option ℕ) (held held' : Bytes → StreamId → Option ℕ)
    (owner : ℕ → Option Bytes)
    → Agree pending held owner
    → ((i : StreamId) → pending' i ≡ pending i)
    → ((m : Bytes) (i : StreamId) → held' m i ≡ held m i)
    → Agree pending' held' owner
Agree-cong pending pending' held held' owner h eqP eqH = record {
  owned = λ i a k. let (n, o, hh) = h.owned i a (sym (eqP i) ∙ k) in (n, o, eqH n i ∙ hh);
  backed = λ n i a k. let (q, o) = h.backed n i a (sym (eqH n i) ∙ k) in (eqP i ∙ q, o);
  single = λ i j a k l. h.single i j a (sym (eqP i) ∙ k) (sym (eqP j) ∙ l);
}
