-- ===== src/Stream/Order.antt =====
-- The order of the stream's IDs, what `Add` and `AddAutoAssign` do with it.
use hayakv.Base.{
  ℕ, ◌+◌, ◌≤◌, ◌<◌, ◌≡◌, refl, ap, ◌∙◌, inl, inr, ◌⊎◌, true, false, ◌&&◌, ◌||◌, not, none, some,
  List, [], ◌∷◌, ◌++◌, arith, length, length-append, leb, nat_eq, if◌then◌else◌, Bool-cases, All,
  All-append, All-map,
}
use hayakv.Base.Classes.{Bytes}
use hayakv.Stream.{
  StreamId, Entry, Stream, zero_id, wrap, max_uint64, greater, id_eq, new, add, auto_id,
  add_auto_assign,
}

-- an ID of two uint64
abbrev pub Bounded : StreamId → Type 0
Bounded a = (a.ms ≤ max_uint64) × (a.seq ≤ max_uint64)

pub greater_trans :
    (a b c : StreamId) → greater a b ≡ true → greater b c ≡ true → greater a c ≡ true
unfolding greater
greater_trans a b c h k = ground arith

pub greater_irrefl : (a : StreamId) → greater a a ≡ false
unfolding greater
greater_irrefl a = ground arith

-- every ID is above the one before it
abbrev pub IsAscending : List Entry → Type 0
IsAscending [] = Unit
IsAscending (e ∷ es) = All (λ f. greater f.id e.id ≡ true) es × IsAscending es

-- What the operations keep: ascending IDs, none above the last ID, and the length counted.
pub record IsValid (s : Stream) : Type 0 where
  pub ascending : IsAscending s.entries
  pub below : All (λ e. greater e.id s.last_id ≡ false) s.entries
  pub counted : s.size ≡ length s.entries
  pub fits : length s.entries ≤ max_uint64
  pub bounded : Bounded s.last_id

pub new-IsValid : IsValid new
new-IsValid = record {
  ascending = tt;
  below = tt;
  counted = refl;
  fits = omega arith;
  bounded = (omega arith, omega arith);
}

not_above :
    (last id e : StreamId) → greater id last ≡ true → greater e last ≡ false → greater id e ≡ true
unfolding greater
not_above last id e h k = ground arith

append-IsAscending :
    (es : List Entry) (e : Entry)
    → IsAscending es
    → All (λ f. greater e.id f.id ≡ true) es
    → IsAscending (es ++ (e ∷ []))
append-IsAscending [] e h k = (tt, tt)
append-IsAscending (f ∷ es) e h k = (
  All-append (λ g. greater g.id f.id ≡ true) es (e ∷ []) h.0 (k.0, tt),
  append-IsAscending es e h.1 k.1,
)

zero_not_above : (id : StreamId) → id_eq id zero_id ≡ true → greater id zero_id ≡ false
unfolding id_eq greater
zero_not_above id e = ground arith

above_zero : (id : StreamId) → id_eq id zero_id ≡ false → greater id zero_id ≡ true
unfolding id_eq greater
above_zero id e = ground arith

still_below :
    (id last f : StreamId) → greater id last ≡ true → greater f last ≡ false → greater f id ≡ false
unfolding greater
still_below id last f g k = ground arith

-- `Add` on a valid stream that has room: an ID that is not above both 0-0 and the last ID is refused;
-- any other is returned, its entry stands at the end, the ID is the last one, and the stream is valid.
pub add_lem :
    (s : Stream) (id : StreamId) (fields : List (Bytes × Bytes))
    → IsValid s
    → Bounded id
    → length s.entries < max_uint64
    → ((add s id fields ≡ none) × ((greater id zero_id && greater id s.last_id) ≡ false))
      ⊎ ((s' : Stream) × (add s id fields ≡ some (s', id))
          × ((greater id zero_id && greater id s.last_id) ≡ true)
          × (s'.entries ≡ s.entries ++ (record { id = id; fields = fields } ∷ []))
          × (s'.last_id ≡ id)
          × IsValid s')
unfolding add
add_lem s id fields h b room = elim (Bool-cases (id_eq id zero_id)) [
  | inl e ↦ inl (rw e, rw (zero_not_above id e))
  | inr e ↦ elim (Bool-cases (greater id s.last_id)) [
    | inr g ↦ inl (rw (e, g), ground (arith, g))
    | inl g ↦ inr (
      record s {
        entries = s.entries ++ (record { id = id; fields = fields } ∷ []);
        last_id = id;
        entries_added = wrap (s.entries_added + 1);
        size = wrap (s.size + 1);
      },
      rw (e, g),
      rw (above_zero id e, g),
      refl,
      refl,
      record {
        ascending =
            append-IsAscending s.entries (record { id = id; fields = fields }) h.ascending
              (All-map (λ f. greater f.id s.last_id ≡ false) (λ f. greater id f.id ≡ true) s.entries
                (λ f k. not_above s.last_id id f.id g k) h.below);
        below =
            All-append (λ f. greater f.id id ≡ false) s.entries
              (record { id = id; fields = fields } ∷ [])
              (All-map (λ f. greater f.id s.last_id ≡ false) (λ f. greater f.id id ≡ false)
                s.entries (λ f k. still_below id s.last_id f.id g k) h.below)
              (greater_irrefl id, tt);
        counted = omega (
          arith,
          length-append s.entries (record { id = id; fields = fields } ∷ []),
          h.counted,
          room,
        );
        fits =
            omega (arith, length-append s.entries (record { id = id; fields = fields } ∷ []), room);
        bounded = b;
      },
    )
  ]
]

-- the ID of a hint: its time is the greater of the hint and the last time; it is above the last ID and
-- not 0-0, unless the last sequence number is the greatest one and the hint is not later
auto_id_lem :
    (s : Stream) (hint : ℕ)
    → IsValid s
    → hint ≤ max_uint64
    → let id = auto_id s hint in
      let full = leb hint s.last_id.ms && nat_eq s.last_id.seq max_uint64 in
      Bounded id
      × (id.ms ≡ (if leb hint s.last_id.ms then s.last_id.ms else hint))
      × (greater id s.last_id ≡ not full)
      × ((greater id zero_id || full) ≡ true)
unfolding auto_id greater
auto_id_lem s hint h b = elim (Bool-cases (leb hint s.last_id.ms)) [
  | inl e ↦ rw e (
    (h.bounded.0, omega arith),
    refl,
    ground (arith, h.bounded.1, h.bounded.0),
    ground (arith, h.bounded.1, h.bounded.0),
  )
  | inr e ↦ rw e ((b, omega arith), refl, ground arith, ground arith)
]

-- the ID after the last one, or the first one of the hint if that is a later time
abbrev pub next_id : StreamId → ℕ → StreamId
next_id last hint =
    if leb hint last.ms
    then record { ms = last.ms; seq = last.seq + 1 }
    else record { ms = hint; seq = 0 }

auto_id-next_id :
    (s : Stream) (hint : ℕ)
    → IsValid s
    → (leb hint s.last_id.ms && nat_eq s.last_id.seq max_uint64) ≡ false
    → auto_id s hint ≡ next_id s.last_id hint
unfolding auto_id
auto_id-next_id s hint h e = elim (Bool-cases (leb hint s.last_id.ms)) [
  | inr f ↦ rw f
  | inl f ↦
      let fits : wrap (s.last_id.seq + 1) ≡ s.last_id.seq + 1 = ground (arith, e, f, h.bounded.1) in
      rw (f, fits)
]

-- `AddAutoAssign` of a uint64 hint on a valid stream that has room fails exactly if the last sequence
-- number is the greatest one and the hint is not a later time than the last. Else it appends the entry
-- with an ID above the last one, which it returns: the last time with the next sequence number, or the
-- hint with 0 if it is later. The stream is valid then, and that is its last ID. A hint of 0 is a time
-- like any other.
pub add_auto_assign_lem :
    (s : Stream) (hint : ℕ) (fields : List (Bytes × Bytes))
    → IsValid s
    → hint ≤ max_uint64
    → length s.entries < max_uint64
    → let full = leb hint s.last_id.ms && nat_eq s.last_id.seq max_uint64 in
      let id = next_id s.last_id hint in
      ((add_auto_assign s hint fields ≡ none) × (full ≡ true))
      ⊎ ((s' : Stream) × (add_auto_assign s hint fields ≡ some (s', id))
          × (full ≡ false)
          × (greater id s.last_id ≡ true)
          × (s'.entries ≡ s.entries ++ (record { id = id; fields = fields } ∷ []))
          × (s'.last_id ≡ id)
          × IsValid s')
unfolding add_auto_assign
add_auto_assign_lem s hint fields h le room =
    let full = leb hint s.last_id.ms && nat_eq s.last_id.seq max_uint64 in
    let (bounded, _, above, positive) = auto_id_lem s hint h le in
    elim (Bool-cases full) [
      | inl e ↦
          let refused : greater (auto_id s hint) s.last_id ≡ false = rw above (rw e) in
          elim (add_lem s (auto_id s hint) fields h bounded room) [
            | inl (none', _) ↦ inl (none', e)
            | inr (_, _, taken, _, _, _) ↦ absurd (ground (arith, taken, refused))
          ]
      | inr e ↦
          let same = auto_id-next_id s hint h e in
          let higher : greater (auto_id s hint) s.last_id ≡ true = rw above (rw e) in
          let nonzero : greater (auto_id s hint) zero_id ≡ true = ground (arith, positive, e) in
          elim (add_lem s (auto_id s hint) fields h bounded room) [
            | inl (_, refused) ↦ absurd (ground (arith, refused, higher, nonzero))
            | inr (s', run, taken, entries, last, valid) ↦ inr (
              s',
              run ∙ ap (λ id. some (s', id)) same,
              e,
              rw same at higher,
              entries ∙ ap (λ id. s.entries ++ (record { id = id; fields = fields } ∷ [])) same,
              last ∙ same,
              valid,
            )
          ]
    ]
