-- ===== src/Slowlog/Laws.antt =====
-- The ring buffer against the list of its entries, newest first.
use hayakv.Base.{
  mod_wrap, ℕ, zero, suc, ◌+◌, ◌-◌, ◌%◌, ◌≤◌, ◌<◌, ◌≡◌, refl, ap, inl, inr, true, false, Option,
  none, List, [], ◌∷◌, arith, length, get_or, set, take, min, ltb, nat_eq, if◌then◌else◌,
  Bool-cases, get_or-set,
}
use hayakv.Slowlog.{SlowLogEntry, SlowLogger, collect, get_entries}

pub record IsValid (sl : SlowLogger) : Type 0 where
  pub sized : length sl.entries ≡ sl.max_entries
  pub inside : sl.next_idx < sl.max_entries
  pub bounded : sl.count ≤ sl.max_entries

-- where the entry `i` turns before the newest stands
unfoldable pub place : ℕ → ℕ → ℕ → ℕ
place next max i = if ltb i next then next - 1 - i else next + max - 1 - i

place_lem :
    (next max i : ℕ)
    → next < max
    → i < max
    → ((next + max - 1) % max + max - i) % max ≡ place next max i
unfolding place
place_lem next max i h k =
    let start = mod_wrap (next + max - 1) max (omega (arith, h)) in
    let bound : (next + max - 1) % max < max = ground (arith, start, h) in
    let turned = mod_wrap ((next + max - 1) % max + max - i) max (omega (arith, bound, k)) in
    ground (arith, start, turned, h, k)

unfoldable pub view : List (Option SlowLogEntry) → ℕ → ℕ → ℕ → ℕ → List (Option SlowLogEntry)
unfolding place
view entries next max i zero = []
view entries next max i (suc n) =
    get_or entries (place next max i) none ∷ view entries next max (i + 1) n

pub collect-view :
    (sl : SlowLogger) (i n : ℕ)
    → sl.next_idx < sl.max_entries
    → i + n ≤ sl.max_entries
    → collect sl ((sl.next_idx + sl.max_entries - 1) % sl.max_entries) i n
      ≡ view sl.entries sl.next_idx sl.max_entries i n
unfolding collect view
collect-view sl i zero h k = refl
collect-view sl i (suc n) h k = rw (
  place_lem sl.next_idx sl.max_entries i h (omega (arith, k)),
  collect-view sl (i + 1) n h (omega (arith, k)),
)

pub take-view :
    (entries : List (Option SlowLogEntry)) (next max i k n : ℕ)
    → take k (view entries next max i n) ≡ view entries next max i (min k n)
unfolding view
take-view entries next max i zero n = let e : min 0 n ≡ 0 = omega arith in rw e
take-view entries next max i (suc k) zero = let e : min (suc k) 0 ≡ 0 = omega arith in rw e
take-view entries next max i (suc k) (suc n) =
    let e : min (suc k) (suc n) ≡ suc (min k n) = omega arith in
    rw e (
      ap (λ t. get_or entries (place next max i) none ∷ t) (take-view entries next max (i + 1) k n))

-- the place that is written, and the place that is next
unfoldable pub after : ℕ → ℕ → ℕ
after next max = if ltb (next + 1) max then next + 1 else 0

older :
    (entries : List (Option SlowLogEntry)) (entry : Option SlowLogEntry) (next max i n : ℕ)
    → length entries ≡ max
    → next < max
    → i + n < max
    → view (set entries next entry) (after next max) max (i + 1) n ≡ view entries next max i n
unfolding view place after
older entries entry next max i zero s h k = refl
older entries entry next max i (suc n) s h k =
    let same : place (after next max) max (i + 1) ≡ place next max i = ground (arith, h, k) in
    let other : nat_eq next (place next max i) ≡ false = ground (arith, h, k) in
    rw (
      same,
      get_or-set entries next (place next max i) entry none (omega (arith, s, h)),
      other,
      older entries entry next max (i + 1) n s h (omega (arith, k)),
    )

pub newest :
    (entries : List (Option SlowLogEntry)) (entry : Option SlowLogEntry) (next max n : ℕ)
    → length entries ≡ max
    → next < max
    → n < max
    → view (set entries next entry) (after next max) max 0 (suc n)
      ≡ entry ∷ view entries next max 0 n
unfolding view place after
newest entries entry next max n s h k =
    let same : place (after next max) max 0 ≡ next = ground (arith, h) in
    let here : nat_eq next next ≡ true = ground arith in
    rw (same, get_or-set entries next next entry none (omega (arith, s, h)), here)
      (ap (λ t. entry ∷ t) (older entries entry next max 0 n s h (omega (arith, k))))

-- all the entries, newest first
unfoldable pub history : SlowLogger → List (Option SlowLogEntry)
unfolding get_entries
history sl = get_entries sl sl.count

pub history-view :
    (sl : SlowLogger)
    → IsValid sl
    → history sl ≡ view sl.entries sl.next_idx sl.max_entries 0 sl.count
unfolding history get_entries view
history-view sl h = elim (Bool-cases (nat_eq sl.count 0)) [
  | inl e ↦ let zero_count : sl.count ≡ 0 = ground (arith, e) in rw (e, zero_count)
  | inr e ↦
      let whole : ltb sl.count sl.count ≡ false = ground arith in
      rw (e, whole) (collect-view sl 0 sl.count h.inside (omega (arith, h.bounded)))
]
