-- ===== src/Slowlog/History.antt =====
-- What `Record` does to the history of the slow log, and what `GetEntries` shows of it.
use hayakv.Base.{
  mod_wrap, ℕ, zero, suc, ◌+◌, ◌-◌, ◌%◌, ◌<◌, ◌≡◌, ap, sym, ◌∙◌, inl, inr, false, ◌||◌, Option,
  some, List, ◌∷◌, arith, length, set, take, min, ltb, nat_eq, if◌then◌else◌, Bool-cases,
  length-set,
}
use hayakv.Base.Int.{ℤ, ltb_ℤ}
use hayakv.Base.Classes.{Bytes}
use hayakv.Slowlog.{SlowLogEntry, SlowLogger, record_entry, get_entries}
use hayakv.Slowlog.Laws.{
  IsValid, view, collect-view, take-view, after, newest, history, history-view,
}

after_lem : (next max : ℕ) → next < max → (next + 1) % max ≡ after next max
unfolding after
after_lem next max h = ground (arith, mod_wrap (next + 1) max (omega (arith, h)), h)

after_inside : (next max : ℕ) → next < max → after next max < max
unfolding after
after_inside next max h = ground (arith, h)

take_cons :
    (n : ℕ) (x : Option SlowLogEntry) (xs : List (Option SlowLogEntry))
    → 0 < n
    → take n (x ∷ xs) ≡ x ∷ take (n - 1) xs
take_cons zero x xs h = absurd (omega arith)
take_cons (suc n) x xs h = let e : suc n - 1 ≡ n = omega arith in rw e

-- `GetEntries` on a valid log shows the newest entries, up to the count.
pub get_entries-take :
    (sl : SlowLogger) (n : ℕ) → IsValid sl → get_entries sl n ≡ take n (history sl)
unfolding get_entries view
get_entries-take sl n h =
    rw (history-view sl h, take-view sl.entries sl.next_idx sl.max_entries 0 n sl.count)
      (elim (Bool-cases (nat_eq n 0 || nat_eq sl.count 0)) [
        | inl e ↦ let nothing : min n sl.count ≡ 0 = ground (arith, e) in rw (e, nothing, view)
        | inr e ↦
            let fewer : (if ltb sl.count n then sl.count else n) ≡ min n sl.count = ground arith in
            rw (e, fewer) (collect-view sl 0 (min n sl.count) h.inside (omega (arith, h.bounded)))
      ])

-- `Record` of a command that took the threshold or longer, on a valid log with a positive size, puts
-- its entry, with the next ID, in front of the history, drops the oldest if the log was full, and
-- leaves a valid log.
pub record_entry_lem :
    (sl : SlowLogger) (start : ℕ) (micros : ℤ) (args : List Bytes) (client : Bytes)
    → IsValid sl
    → ltb_ℤ micros sl.threshold ≡ false
    → let sl' = record_entry sl start micros args client in
      let entry : SlowLogEntry = record {
        id = sl.next_id;
        timestamp = start;
        duration = micros;
        command = args;
        peer_id = client;
      } in
      IsValid sl' × (history sl' ≡ take sl.max_entries (some entry ∷ history sl))
unfolding record_entry
record_entry_lem sl start micros args client h slow =
    let entry : SlowLogEntry = record {
      id = sl.next_id;
      timestamp = start;
      duration = micros;
      command = args;
      peer_id = client;
    } in
    let there : nat_eq (length sl.entries) 0 ≡ false = ground (arith, h.sized, h.inside) in
    let count' : ℕ = if ltb sl.count sl.max_entries then sl.count + 1 else sl.count in
    let kept : count' ≡ suc (min (sl.max_entries - 1) sl.count) =
      ground (arith, h.bounded, h.inside) in
    let sl' : SlowLogger = record sl {
      next_id = sl.next_id + 1;
      entries = set sl.entries sl.next_idx (some entry);
      next_idx = (sl.next_idx + 1) % sl.max_entries;
      count = count';
    } in
    let turned = after_lem sl.next_idx sl.max_entries h.inside in
    let valid : IsValid sl' = record {
      sized = length-set sl.entries sl.next_idx (some entry) ∙ h.sized;
      inside = rw turned (after_inside sl.next_idx sl.max_entries h.inside);
      bounded = rw kept (omega (arith, h.inside));
    } in
    let shown : history sl' ≡ take sl.max_entries (some entry ∷ history sl) =
      history-view sl' valid
      ∙ (rw (turned, kept)
            (newest sl.entries (some entry) sl.next_idx sl.max_entries
              (min (sl.max_entries - 1) sl.count) h.sized h.inside (omega (arith, h.inside)))
          ∙ (ap (λ t. some entry ∷ t)
                (sym (
                    take-view sl.entries sl.next_idx sl.max_entries 0 (sl.max_entries - 1) sl.count)
                  ∙ ap (take (sl.max_entries - 1)) (sym (history-view sl h)))
              ∙ sym (
                  take_cons sl.max_entries (some entry) (history sl) (omega (arith, h.inside))))) in
    rw (there, slow) (valid, shown)
