-- ===== src/Slowlog/Tests.antt =====
-- Runs of the slow log, and its theorems at concrete inputs.
use hayakv.Base.{ℕ, ◌≡◌, refl, some, [], ◌∷◌, arith, take}
use hayakv.Base.Int.{ℤ, pos}
use hayakv.Slowlog.{SlowLogEntry, SlowLogger, record_entry, set_max_len}
use hayakv.Slowlog.Laws.{IsValid, history}
use hayakv.Slowlog.History.{record_entry_lem}

abbrev entry : ℕ → ℤ → SlowLogEntry
entry id duration = record {
  id = id;
  timestamp = 0;
  duration = duration;
  command = [];
  peer_id = [];
}

-- a full ring of two, whose next place is the first
abbrev sample : SlowLogger
sample = record {
  entries = some (entry 1 (pos 50)) ∷ some (entry 2 (pos 60)) ∷ [];
  count = 2;
  next_idx = 0;
  max_entries = 2;
  threshold = pos 10;
  next_id = 3;
}

sample-IsValid : IsValid sample
sample-IsValid = record { sized = refl; inside = omega arith; bounded = omega arith }

-- a smaller limit keeps the oldest entry, not the newest
shrunk : history (set_max_len sample 1) ≡ some (entry 1 (pos 50)) ∷ []
unfolding history set_max_len
shrunk = refl

grown : history (set_max_len sample 3) ≡ history sample
unfolding history set_max_len
grown = refl

record_entry_lem_example :
    let sl' = record_entry sample 0 (pos 70) [] [] in
    IsValid sl' × (history sl' ≡ take 2 (some (entry 3 (pos 70)) ∷ history sample))
record_entry_lem_example = record_entry_lem sample 0 (pos 70) [] [] sample-IsValid refl
