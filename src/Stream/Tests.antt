-- ===== src/Stream/Tests.antt =====
-- Runs of the stream, and its theorems at concrete inputs.
use hayakv.Base.{
  ℕ, ◌≡◌, refl, ◌⊎◌, true, false, ◌&&◌, not, none, some, [], ◌∷◌, ◌++◌, arith, take, keep, leb,
  nat_eq, if◌then◌else◌,
}
use hayakv.Stream.{
  StreamId, Entry, Stream, zero_id, max_uint64, greater, in_set, id_eq, add, add_auto_assign, range,
  rev_range, delete, trim_max_len, trim_min_id,
}
use hayakv.Stream.Order.{IsValid, next_id, add_lem, add_auto_assign_lem}
use hayakv.Stream.Ranges.{between, range_lem}
use hayakv.Stream.Sift.{Shrunk}
use hayakv.Stream.Trims.{
  reaches, Trims, delete_lem, trim_min_id_lem, trim_max_len_lem, trim_min_id_raises,
}

abbrev id_at : ℕ → ℕ → StreamId
id_at ms seq = record { ms = ms; seq = seq }

abbrev entry : ℕ → ℕ → Entry
entry ms seq = record { id = id_at ms seq; fields = [] }

abbrev sample : Stream
sample = record {
  entries = entry 1 0 ∷ entry 1 1 ∷ entry 4 0 ∷ [];
  last_id = id_at 4 0;
  max_deleted_id = zero_id;
  entries_added = 3;
  size = 3;
  groups = λ _. none;
}

sample-IsValid : IsValid sample
unfolding greater
sample-IsValid = record {
  ascending = ((refl, (refl, tt)), ((refl, tt), (tt, tt)));
  below = (refl, (refl, (refl, tt)));
  counted = refl;
  fits = omega arith;
  bounded = (omega arith, omega arith);
}

refused : add sample (id_at 3 9) [] ≡ none
unfolding add greater id_eq
refused = refl

add_lem_example :
    ((add sample (id_at 5 0) [] ≡ none)
      × ((greater (id_at 5 0) zero_id && greater (id_at 5 0) sample.last_id) ≡ false))
    ⊎ ((s' : Stream) × (add sample (id_at 5 0) [] ≡ some (s', id_at 5 0))
        × ((greater (id_at 5 0) zero_id && greater (id_at 5 0) sample.last_id) ≡ true)
        × (s'.entries ≡ sample.entries ++ (record { id = id_at 5 0; fields = [] } ∷ []))
        × (s'.last_id ≡ id_at 5 0)
        × IsValid s')
add_lem_example =
    add_lem sample (id_at 5 0) [] sample-IsValid (omega arith, omega arith) (omega arith)

add_auto_assign_lem_example :
    let full = leb 2 sample.last_id.ms && nat_eq sample.last_id.seq max_uint64 in
    let id = next_id sample.last_id 2 in
    ((add_auto_assign sample 2 [] ≡ none) × (full ≡ true))
    ⊎ ((s' : Stream) × (add_auto_assign sample 2 [] ≡ some (s', id))
        × (full ≡ false)
        × (greater id sample.last_id ≡ true)
        × (s'.entries ≡ sample.entries ++ (record { id = id; fields = [] } ∷ []))
        × (s'.last_id ≡ id)
        × IsValid s')
add_auto_assign_lem_example =
    add_auto_assign_lem sample 2 [] sample-IsValid (omega arith) (omega arith)

range_lem_example : range sample (id_at 1 1) (id_at 9 0) 1 ≡ (
    let all = keep (between (id_at 1 1) (id_at 9 0)) sample.entries in
    if nat_eq 1 0 then all else take 1 all)
range_lem_example =
    range_lem sample (id_at 1 1) (id_at 9 0) 1
      ((omega arith, omega arith), ((omega arith, omega arith), ((omega arith, omega arith), tt)))

delete_lem_example :
    let (s', n) = delete sample (id_at 1 1 ∷ []) in
    Shrunk sample (keep (λ e. not (in_set e.id (id_at 1 1 ∷ []))) sample.entries) n s'
delete_lem_example = delete_lem sample (id_at 1 1 ∷ []) sample-IsValid

trim_min_id_lem_example :
    let (s', n) = trim_min_id sample (id_at 1 1) false in
    Shrunk sample (keep (reaches (id_at 1 1)) sample.entries) n s'
trim_min_id_lem_example = trim_min_id_lem sample (id_at 1 1) sample-IsValid

trim_max_len_lem_example : let (s', n) = trim_max_len sample 2 false in Trims sample 2 false s' n
trim_max_len_lem_example = trim_max_len_lem sample 2 false sample-IsValid

trim_min_id_raises_example :
    let (s', n) = trim_min_id sample (id_at 2 0) true in
    (n ≡ 0) × (s'.entries ≡ sample.entries) × (greater (id_at 1 0) s'.max_deleted_id ≡ false)
unfolding greater
trim_min_id_raises_example =
    trim_min_id_raises sample (id_at 2 0) (entry 1 0) (entry 1 1 ∷ entry 4 0 ∷ []) refl
      (omega arith) refl

rev_range_run : rev_range sample zero_id (id_at 4 0) 2 ≡ entry 4 0 ∷ entry 1 1 ∷ []
unfolding rev_range greater
rev_range_run = refl
