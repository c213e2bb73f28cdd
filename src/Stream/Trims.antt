-- ===== src/Stream/Trims.antt =====
-- What `Delete`, `TrimMaxLen` and `TrimMinID` keep.
use hayakv.Base.{
  ℕ, ◌+◌, ◌-◌, ◌%◌, ◌≤◌, ◌<◌, ◌≡◌, refl, inl, inr, ◌⊎◌, Bool, true, false, ◌||◌, not, List, [], ◌∷◌,
  arith, length, take, drop, keep, length-drop, min, ltb, nat_eq, Bool-cases, All, if◌then◌else◌,
  ◌&&◌,
}
use hayakv.Stream.{
  StreamId, Entry, Stream, greater, id_eq, in_set, sift, less, max_id, delete, trim_count,
  raise_deleted, trim_max_len, trim_min_id,
}
use hayakv.Stream.Order.{IsAscending, IsValid, greater_irrefl}
use hayakv.Stream.Sift.{
  All-drop, drop-IsAscending, take-IsAscending, sift_count, sift_top, greater_asym, not_below,
  max_first, below_lem, less_lem, sifted, Shrunk,
}

-- `Delete` on a valid stream removes exactly the entries whose ID is among the given ones, in
-- whichever order these are given, returns how many there were, and leaves a valid stream.
pub delete_lem :
    (s : Stream) (ids : List StreamId)
    → IsValid s
    → let (s', n) = delete s ids in Shrunk s (keep (λ e. not (in_set e.id ids)) s.entries) n s'
unfolding delete
delete_lem s ids h = sifted s (λ e. in_set e.id ids) h

-- is the entry's ID at or above `min_id`?
abbrev pub reaches : StreamId → Entry → Bool
reaches min_id e = not (greater min_id e.id)

reaches_lem :
    (min_id : StreamId) (e : Entry)
    → not (not (greater e.id min_id || id_eq e.id min_id)) ≡ reaches min_id e
unfolding greater id_eq
reaches_lem min_id e = ground arith

keep-ext :
    (p q : Entry → Bool) (es : List Entry) → ((e : Entry) → p e ≡ q e) → keep p es ≡ keep q es
keep-ext p q [] h = refl
keep-ext p q (e ∷ es) h = rw (h e, keep-ext p q es h)

-- The exact `TrimMinID` on a valid stream keeps exactly the entries whose ID is not below the given
-- one, returns how many it removed, and leaves a valid stream.
pub trim_min_id_lem :
    (s : Stream) (min_id : StreamId)
    → IsValid s
    → let (s', n) = trim_min_id s min_id false in Shrunk s (keep (reaches min_id) s.entries) n s'
unfolding trim_min_id
trim_min_id_lem s min_id h =
    let gone = λ (e : Entry). not (greater e.id min_id || id_eq e.id min_id) in
    rw (← keep-ext (λ e. not (gone e)) (reaches min_id) s.entries (reaches_lem min_id))
      (sifted s gone h)

raise_deleted_top : (es : List Entry) (top : StreamId) → greater top (raise_deleted es top) ≡ false
unfolding raise_deleted
raise_deleted_top [] top = greater_irrefl top
raise_deleted_top (e ∷ []) top = elim (Bool-cases (greater e.id top)) [
  | inl y ↦ rw y (greater_asym e.id top y)
  | inr n ↦ rw n (greater_irrefl top)
]
raise_deleted_top (e ∷ f ∷ es) top = raise_deleted_top (f ∷ es) top

trim_count_bound :
    (held max_len : ℕ) (approx : Bool)
    → (trim_count held max_len approx ≡ 0) ⊎ (trim_count held max_len approx + max_len ≤ held)
unfolding trim_count
trim_count_bound held max_len approx = ground arith

top_of_last :
    (es : List Entry) (top : StreamId)
    → IsAscending es
    → All (λ e. greater e.id (raise_deleted es top) ≡ false) es
unfolding raise_deleted
top_of_last [] top h = tt
top_of_last (e ∷ []) top h = (max_first e.id top, tt)
top_of_last (e ∷ f ∷ es) top h =
    let rest = top_of_last (f ∷ es) top h.1 in
    (not_below e.id f.id (raise_deleted (f ∷ es) top) (greater_asym f.id e.id h.0.0) rest.0, rest)

-- the length that a trim is to leave; a limit of 0 is none
abbrev pub goal : ℕ → ℕ → ℕ
goal max_len held = if nat_eq max_len 0 then held else min max_len held

-- What a trim to a length leaves: the exact one as many entries as its goal, the approximate one up to
-- 100 more, after whole hundreds of removals.
pub record Trims (s : Stream) (max_len : ℕ) (approx : Bool) (s' : Stream) (n : ℕ) : Type 0 where
  pub shrunk : Shrunk s (drop n s.entries) n s'
  pub gone : All (λ e. greater e.id s'.max_deleted_id ≡ false) (take n s.entries)
  pub least : goal max_len (length s.entries) ≤ length s'.entries
  pub most : length s'.entries ≤ goal max_len (length s.entries) + (if approx then 100 else 0)
  pub hundreds : (approx && not (nat_eq (n % 100) 0)) ≡ false

trim_count_lem :
    (held max_len : ℕ) (approx : Bool)
    → let n = trim_count held max_len approx in
      (goal max_len held ≤ held - n)
      × (held - n ≤ goal max_len held + (if approx then 100 else 0))
      × ((approx && not (nat_eq (n % 100) 0)) ≡ false)
unfolding trim_count
trim_count_lem held max_len approx = (ground arith, ground arith, ground arith)

-- `TrimMaxLen` on a valid stream drops its oldest entries and returns how many, and leaves a valid
-- stream whose greatest deleted ID is not below the old one nor below any dropped ID. The exact trim
-- leaves `max_len` entries, or all if they are fewer; the approximate one leaves at most 100 more than
-- that, and not fewer, and drops a multiple of 100. A `max_len` of 0 keeps all entries.
pub trim_max_len_lem :
    (s : Stream) (max_len : ℕ) (approx : Bool)
    → IsValid s
    → let (s', n) = trim_max_len s max_len approx in Trims s max_len approx s' n
unfolding trim_max_len
trim_max_len_lem s max_len approx h =
    let n = trim_count (length s.entries) max_len approx in
    let (least, most, hundreds) = trim_count_lem (length s.entries) max_len approx in
    elim (Bool-cases (nat_eq n 0)) [
      | inl e ↦
          let zero : n ≡ 0 = ground (arith, e) in
          rw e (record {
            shrunk = record {
              entries = refl;
              valid = h;
              last = refl;
              sum = omega arith;
              deleted = greater_irrefl s.max_deleted_id;
            };
            gone = tt;
            least = omega (arith, zero, least);
            most = omega (arith, zero, most);
            hundreds = ground arith;
          })
      | inr e ↦
          let bound : n + max_len ≤ length s.entries =
            ground (arith, e, trim_count_bound (length s.entries) max_len approx) in
          let size : less s.size n ≡ s.size - n =
            less_lem s.size n (omega (arith, bound, h.counted))
              (omega (arith, h.counted, h.fits)) in
          rw e (record {
            shrunk = record {
              entries = refl;
              valid = record {
                ascending = drop-IsAscending n s.entries h.ascending;
                below = All-drop (λ e. greater e.id s.last_id ≡ false) n s.entries h.below;
                counted = rw size (omega (arith, length-drop n s.entries, h.counted));
                fits = omega (arith, length-drop n s.entries, h.fits);
                bounded = h.bounded;
              };
              last = refl;
              sum = rw size (omega (arith, bound, h.counted));
              deleted = raise_deleted_top (take n s.entries) s.max_deleted_id;
            };
            gone =
                top_of_last (take n s.entries) s.max_deleted_id
                  (take-IsAscending n s.entries h.ascending);
            least = rw (length-drop n s.entries) least;
            most = rw (length-drop n s.entries) most;
            hundreds = hundreds;
          })
    ]

-- The exact `TrimMaxLen` with a positive limit leaves as many entries as fit into the limit.
pub trim_max_len_exact :
    (s : Stream) (max_len : ℕ)
    → 0 < max_len
    → length (trim_max_len s max_len false).0.entries ≡ min max_len (length s.entries)
unfolding trim_max_len trim_count
trim_max_len_exact s max_len pos =
    ground (arith, length-drop (length s.entries - max_len) s.entries)

kept_first :
    (gone : Entry → Bool) (e : Entry) (es : List Entry) (top : StreamId)
    → gone e ≡ true
    → greater e.id (sift gone (e ∷ es) top).1.1 ≡ false
unfolding sift
kept_first gone e es top h = rw h (
    not_below e.id (max_id e.id top) (sift gone es (max_id e.id top)).1.1 (max_first e.id top)
      (sift_top gone es (max_id e.id top)))

-- The approximate `TrimMinID` of a stream with fewer than 100 entries removes nothing and returns 0;
-- yet if its first entry is below the given ID, the greatest deleted ID is not below that entry's
-- afterwards, although the entry is still there.
pub trim_min_id_raises :
    (s : Stream) (min_id : StreamId) (e : Entry) (es : List Entry)
    → s.entries ≡ e ∷ es
    → length s.entries < 100
    → greater min_id e.id ≡ true
    → let (s', n) = trim_min_id s min_id true in
      (n ≡ 0) × (s'.entries ≡ e ∷ es) × (greater e.id s'.max_deleted_id ≡ false)
unfolding trim_min_id
trim_min_id_raises s min_id e es first few lower =
    let gone = λ (e : Entry). not (greater e.id min_id || id_eq e.id min_id) in
    let small : ltb (sift gone s.entries s.max_deleted_id).1.0 100 ≡ true =
      ground (arith, sift_count gone s.entries s.max_deleted_id, few) in
    let below : gone e ≡ true = below_lem min_id e lower in
    rw small (refl, first, rw first (kept_first gone e es s.max_deleted_id below))
