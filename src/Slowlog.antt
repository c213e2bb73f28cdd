-- ===== src/Slowlog.antt =====
-- internal/command/slowlog.go: the ring buffer of slow commands. A nil entry is `none`; an integer
-- argument that is negative is read as 0 where the code treats both alike. The lock and the replies
-- of `SLOWLOG` are left out.
pub mod Laws
pub mod History
pub mod Tests
use hayakv.Base.{
  ℕ, zero, suc, ◌+◌, ◌-◌, ◌%◌, Bool, true, false, ◌&&◌, ◌||◌, Option, none, some, List, [], ◌∷◌,
  length, get_or, set, replicate, leb, ltb, nat_eq, if◌then◌else◌,
}
use hayakv.Base.Int.{ℤ, pos, negsuc, ltb_ℤ}
use hayakv.Base.Classes.{Bytes}

pub record SlowLogEntry : Type 0 where
  pub id : ℕ
  pub timestamp : ℕ
  pub duration : ℤ
  pub command : List Bytes
  pub peer_id : Bytes

pub record SlowLogger : Type 0 where
  pub entries : List (Option SlowLogEntry)
  pub count : ℕ
  pub next_idx : ℕ
  pub max_entries : ℕ
  pub threshold : ℤ
  pub next_id : ℕ

unfoldable pub new_slow_logger : ℕ → ℤ → SlowLogger
new_slow_logger max_entries threshold = record {
  entries = replicate max_entries none;
  count = 0;
  next_idx = 0;
  max_entries = max_entries;
  threshold = threshold;
  next_id = 1;
}

-- `Record` of a command that took `micros`
unfoldable pub record_entry : SlowLogger → ℕ → ℤ → List Bytes → Bytes → SlowLogger
record_entry sl start micros args client =
    if nat_eq (length sl.entries) 0 || ltb_ℤ micros sl.threshold
    then sl
    else let entry : SlowLogEntry = record {
      id = sl.next_id;
      timestamp = start;
      duration = micros;
      command = args;
      peer_id = client;
    } in
      record sl {
        next_id = sl.next_id + 1;
        entries = set sl.entries sl.next_idx (some entry);
        next_idx = (sl.next_idx + 1) % sl.max_entries;
        count = if ltb sl.count sl.max_entries then sl.count + 1 else sl.count;
      }

-- the loop of `GetEntries`: `n` entries from index `i` down from the start
unfoldable pub collect : SlowLogger → ℕ → ℕ → ℕ → List (Option SlowLogEntry)
collect sl start i zero = []
collect sl start i (suc n) =
    get_or sl.entries ((start + sl.max_entries - i) % sl.max_entries) none
    ∷ collect sl start (i + 1) n

unfoldable pub get_entries : SlowLogger → ℕ → List (Option SlowLogEntry)
unfolding collect
get_entries sl count =
    if nat_eq count 0 || nat_eq sl.count 0
    then []
    else collect sl ((sl.next_idx + sl.max_entries - 1) % sl.max_entries) 0
        (if ltb sl.count count then sl.count else count)

unfoldable pub len : SlowLogger → ℕ
len sl = sl.count

unfoldable pub reset : SlowLogger → SlowLogger
reset sl = record sl {
  entries = replicate sl.max_entries none;
  count = 0;
  next_idx = 0;
  next_id = 1;
}

unfoldable pub set_threshold : SlowLogger → ℤ → SlowLogger
set_threshold sl threshold = record sl { threshold = threshold }

-- the loop of `SetMaxLen`, from round `i` on, with the entries copied so far
unfoldable pub copy_loop :
    SlowLogger → ℕ → ℕ → ℕ → List (Option SlowLogEntry) → List (Option SlowLogEntry)
copy_loop sl max_len i zero copied = copied
copy_loop sl max_len i (suc n) copied =
    let held = length sl.entries in
    let old_idx = (sl.next_idx + held + i - sl.count) % held in
    let rest = copy_loop sl max_len (i + 1) n (set copied i (get_or sl.entries old_idx none)) in
    if ltb i max_len then rest else copied

-- `SetMaxLen`; it copies from the oldest entry on
unfoldable pub set_max_len : SlowLogger → ℕ → SlowLogger
unfolding copy_loop
set_max_len sl zero = sl
set_max_len sl (suc n) =
    let max_len = suc n in
    let copied = if ltb sl.count max_len then sl.count else max_len in
    record sl {
      max_entries = max_len;
      entries = copy_loop sl max_len 0 sl.count (replicate max_len none);
      count = copied;
      next_idx = copied % max_len;
    }
