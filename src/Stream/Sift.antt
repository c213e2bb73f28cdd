-- ===== src/Stream/Sift.antt =====
-- The loop that drops some entries of a stream, and what is left of a valid one.
use hayakv.Base.{
  ℕ, zero, suc, ◌+◌, ◌-◌, ◌≤◌, ◌≡◌, refl, inl, inr, Bool, true, false, ◌||◌, not, List, [], ◌∷◌,
  arith, length, take, drop, keep, Bool-cases, All,
}
use hayakv.Stream.{StreamId, Entry, Stream, max_uint64, greater, id_eq, sift, less, max_id}
use hayakv.Stream.Order.{IsAscending, IsValid, greater_irrefl}

All-keep {κ} :
    (P : Entry → Type κ) (p : Entry → Bool) (es : List Entry) → All P es → All P (keep p es)
All-keep P p [] h = tt
All-keep P p (e ∷ es) h = elim (Bool-cases (p e)) [
  | inl y ↦ rw y (h.0, All-keep P p es h.1)
  | inr n ↦ rw n (All-keep P p es h.1)
]

pub keep-IsAscending :
    (p : Entry → Bool) (es : List Entry) → IsAscending es → IsAscending (keep p es)
keep-IsAscending p [] h = tt
keep-IsAscending p (e ∷ es) h = elim (Bool-cases (p e)) [
  | inl y ↦ rw y (All-keep (λ f. greater f.id e.id ≡ true) p es h.0, keep-IsAscending p es h.1)
  | inr n ↦ rw n (keep-IsAscending p es h.1)
]

pub All-drop {κ} : (P : Entry → Type κ) (n : ℕ) (es : List Entry) → All P es → All P (drop n es)
All-drop P zero es h = h
All-drop P (suc n) [] h = tt
All-drop P (suc n) (e ∷ es) h = All-drop P n es h.1

pub drop-IsAscending : (n : ℕ) (es : List Entry) → IsAscending es → IsAscending (drop n es)
drop-IsAscending zero es h = h
drop-IsAscending (suc n) [] h = tt
drop-IsAscending (suc n) (e ∷ es) h = drop-IsAscending n es h.1

All-take {κ} : (P : Entry → Type κ) (n : ℕ) (es : List Entry) → All P es → All P (take n es)
All-take P zero es h = tt
All-take P (suc n) [] h = tt
All-take P (suc n) (e ∷ es) h = (h.0, All-take P n es h.1)

pub take-IsAscending : (n : ℕ) (es : List Entry) → IsAscending es → IsAscending (take n es)
take-IsAscending zero es h = tt
take-IsAscending (suc n) [] h = tt
take-IsAscending (suc n) (e ∷ es) h =
    (All-take (λ f. greater f.id e.id ≡ true) n es h.0, take-IsAscending n es h.1)

pub greater_asym : (a b : StreamId) → greater a b ≡ true → greater b a ≡ false
unfolding greater
greater_asym a b h = ground arith

pub not_below : (a b c : StreamId) → greater a b ≡ false → greater b c ≡ false → greater a c ≡ false
unfolding greater
not_below a b c h k = ground arith

pub max_first : (a b : StreamId) → greater a (max_id a b) ≡ false
max_first a b = elim (Bool-cases (greater a b)) [ inl y ↦ rw y (greater_irrefl a) | inr n ↦ rw n n ]

pub below_lem :
    (min_id : StreamId) (e : Entry)
    → greater min_id e.id ≡ true
    → not (greater e.id min_id || id_eq e.id min_id) ≡ true
unfolding greater id_eq
below_lem min_id e h = ground arith

-- the loop keeps the entries that fail the test, in order, and counts the others
sift_kept :
    (gone : Entry → Bool) (es : List Entry) (top : StreamId)
    → (sift gone es top).0 ≡ keep (λ e. not (gone e)) es
unfolding sift
sift_kept gone [] top = refl
sift_kept gone (e ∷ es) top =
    ground (arith, sift_kept gone es top, sift_kept gone es (max_id e.id top))

pub sift_count :
    (gone : Entry → Bool) (es : List Entry) (top : StreamId)
    → length (keep (λ e. not (gone e)) es) + (sift gone es top).1.0 ≡ length es
unfolding sift
sift_count gone [] top = omega arith
sift_count gone (e ∷ es) top =
    ground (arith, sift_count gone es top, sift_count gone es (max_id e.id top))

-- the greatest deleted ID is not below the one before, nor below any entry that went
pub sift_top :
    (gone : Entry → Bool) (es : List Entry) (top : StreamId)
    → greater top (sift gone es top).1.1 ≡ false
unfolding sift greater
sift_top gone [] top = greater_irrefl top
sift_top gone (e ∷ es) top =
    ground (arith, sift_top gone es top, sift_top gone es (max_id e.id top))

pub less_lem : (size n : ℕ) → n ≤ size → size ≤ max_uint64 → less size n ≡ size - n
unfolding less
less_lem size n h k = omega arith

-- What is left of a valid stream without some of its entries: a valid stream with the same last ID.
pub record Shrunk (s : Stream) (kept : List Entry) (removed : ℕ) (s' : Stream) : Type 0 where
  pub entries : s'.entries ≡ kept
  pub valid : IsValid s'
  pub last : s'.last_id ≡ s.last_id
  pub sum : s'.size + removed ≡ s.size
  pub deleted : greater s.max_deleted_id s'.max_deleted_id ≡ false

pub sifted :
    (s : Stream) (gone : Entry → Bool)
    → IsValid s
    → let r = sift gone s.entries s.max_deleted_id in
      Shrunk s
        (keep (λ e. not (gone e)) s.entries)
        r.1.0
        (record s { entries = r.0; max_deleted_id = r.1.1; size = less s.size r.1.0 })
sifted s gone h =
    let r = sift gone s.entries s.max_deleted_id in
    let kept = sift_kept gone s.entries s.max_deleted_id in
    let count = sift_count gone s.entries s.max_deleted_id in
    let size : less s.size r.1.0 ≡ s.size - r.1.0 =
      less_lem s.size r.1.0 (omega (arith, count, h.counted)) (omega (arith, h.counted, h.fits)) in
    record {
      entries = kept;
      valid = record {
        ascending = rw kept (keep-IsAscending (λ e. not (gone e)) s.entries h.ascending);
        below =
            rw kept (
              All-keep (λ e. greater e.id s.last_id ≡ false) (λ e. not (gone e)) s.entries h.below);
        counted = rw (kept, size) (omega (arith, count, h.counted));
        fits = rw kept (omega (arith, count, h.fits));
        bounded = h.bounded;
      };
      last = refl;
      sum = rw size (omega (arith, count, h.counted));
      deleted = sift_top gone s.entries s.max_deleted_id;
    }
