-- ===== src/TimeWheel.antt =====
-- internal/lib/timewheel/timewheel.go: the delayed jobs. A task of a slot's list has an address, which
-- stands for its `*list.Element`; a Go panic is `none`. `seconds` is `int(d.Seconds())` of package time.
-- The locks make each handler one step of the loop, and the scan that `tickHandler` starts runs before
-- the next step.
pub mod Lists
pub mod Waits
pub mod Removals
pub mod Additions
pub mod Events
pub mod Tests
use hayakv.Base.{
  ℕ, zero, suc, ◌+◌, ◌-◌, ◌/◌, ◌%◌, Bool, true, false, ◌||◌, not, Option, none, some, List, [], ◌∷◌,
  ◌++◌, get_elem?, set, replicate, keep, ltb, nat_eq, if◌then◌else◌, ◌>>=◌,
}
use hayakv.Base.Classes.{Bytes, bytes_eq}
use hayakv.Base.Int.{ℤ, pos, negsuc}

pub record Location : Type 0 where
  pub slot : ℕ
  pub etask : ℕ

pub record Task (J : Type 0) : Type 0 where
  pub circle : ℕ
  pub key : Bytes
  pub job : J
  pub address : ℕ

pub record TimeWheel (J : Type 0) : Type 0 where
  pub interval : ℕ
  pub slots : List (List (Task J))
  pub timer : Bytes → Option Location
  pub current_pos : ℕ
  pub slot_num : ℕ
  pub next_address : ℕ

-- a message to the loop, or a tick
pub data Event (J : Type 0) : Type 0 where
  tick_event : Event J
  add_event : ℕ → Bytes → J → Event J
  remove_event : Bytes → Event J

-- the loop over `tasksToRemove`
abbrev pub forget : List Bytes → (Bytes → Option Location) → Bytes → Option Location
forget [] timer = timer
forget (k ∷ ks) timer = forget ks (λ q. if bytes_eq k q then none else timer q)

module _ {J : Type 0} where
  -- `New`: nil for an interval or a number of slots that is not positive
  unfoldable pub new_time_wheel : ℕ → ℕ → Option (TimeWheel J)
  new_time_wheel interval slot_num =
      if nat_eq interval 0 || nat_eq slot_num 0
      then none
      else some (record {
        interval = interval;
        slots = replicate slot_num [];
        timer = λ _. none;
        current_pos = 0;
        slot_num = slot_num;
        next_address = 0;
      })

  -- what `AddJob` and `RemoveJob` send
  unfoldable pub add_job : ℤ → Bytes → J → Option (Event J)
  add_job (negsuc _) key job = none
  add_job (pos delay) key job = some (add_event delay key job)

  unfoldable pub remove_job : Bytes → Option (Event J)
  remove_job key = if bytes_eq key [] then none else some (remove_event key)

  -- the loop of `scanAndRunTask`: the tasks that stay, the jobs that run, `tasksToRemove`
  unfoldable pub scan : List (Task J) → List (Task J) × (List J × List Bytes)
  scan [] = ([], ([], []))
  scan (t ∷ ts) =
      let r = scan ts in
      if ltb 0 t.circle
      then (record t { circle = t.circle - 1 } ∷ r.0, r.1)
      else (r.0, (t.job ∷ r.1.0, if bytes_eq t.key [] then r.1.1 else t.key ∷ r.1.1))

  unfoldable pub scan_and_run_task : ℕ → TimeWheel J → Option (TimeWheel J × List J)
  unfolding scan
  scan_and_run_task l tw = do
    ts ← get_elem? tw.slots l
    let r = scan ts
    some (record tw { slots = set tw.slots l r.0; timer = forget r.1.1 tw.timer }, r.1.0)

  abbrev pub advance : TimeWheel J → TimeWheel J
  advance tw = record tw {
    current_pos = if nat_eq (tw.current_pos + 1) tw.slot_num then 0 else tw.current_pos + 1;
  }

  -- The code starts the scan as a goroutine; here the scan ends before the next message is handled.
  unfoldable pub tick_handler : TimeWheel J → Option (TimeWheel J × List J)
  unfolding scan_and_run_task
  tick_handler tw = scan_and_run_task tw.current_pos (advance tw)

  -- `l.Remove(pos.etask)`, which does nothing on an element that is not in the list
  abbrev pub drop_task : ℕ → List (Task J) → List (Task J)
  drop_task address ts = keep (λ t. not (nat_eq t.address address)) ts

  unfoldable pub remove_task_internal : Bytes → TimeWheel J → Option (TimeWheel J)
  remove_task_internal key tw = elim (tw.timer key) [
    | none ↦ some tw
    | some loc ↦ do
      ts ← get_elem? tw.slots loc.slot
      some (record tw {
        slots = set tw.slots loc.slot (drop_task loc.etask ts);
        timer = λ q. if bytes_eq key q then none else tw.timer q;
      })
  ]

  unfoldable pub remove_task : Bytes → TimeWheel J → Option (TimeWheel J)
  unfolding remove_task_internal
  remove_task key tw = remove_task_internal key tw

  -- the position and the circle; Go panics where the interval has no full second
  unfoldable pub get_position_and_circle : (ℕ → ℕ) → TimeWheel J → ℕ → Option (ℕ × ℕ)
  get_position_and_circle seconds tw d =
      let delay_seconds = seconds d in
      let interval_seconds = seconds tw.interval in
      if nat_eq interval_seconds 0
      then none
      else some (
        (tw.current_pos + delay_seconds / interval_seconds) % tw.slot_num,
        delay_seconds / interval_seconds / tw.slot_num,
      )

  -- the task before it that has the same key goes
  unfoldable pub replace_task : Bytes → TimeWheel J → Option (TimeWheel J)
  unfolding remove_task_internal
  replace_task key tw = if bytes_eq key [] then some tw else remove_task_internal key tw

  -- the task of the address that is next goes to the end of its slot
  unfoldable pub push_back : ℕ → ℕ → Bytes → J → TimeWheel J → Option (TimeWheel J)
  push_back at circle key job tw = do
    ts ← get_elem? tw.slots at
    let task : Task J = record { circle = circle; key = key; job = job; address = tw.next_address }
    let loc : Location = record { slot = at; etask = tw.next_address }
    some (record tw {
      slots = set tw.slots at (ts ++ (task ∷ []));
      timer = λ q. if bytes_eq key q then some loc else tw.timer q;
      next_address = tw.next_address + 1;
    })

  unfoldable pub add_task : (ℕ → ℕ) → ℕ → Bytes → J → TimeWheel J → Option (TimeWheel J)
  unfolding get_position_and_circle replace_task push_back
  add_task seconds delay key job tw = do
    at ← get_position_and_circle seconds tw delay
    tw' ← replace_task key tw
    push_back at.0 at.1 key job tw'

  -- one turn of the loop of `start`, with the jobs that it runs
  unfoldable pub handle : (ℕ → ℕ) → Event J → TimeWheel J → Option (TimeWheel J × List J)
  unfolding tick_handler add_task remove_task
  handle seconds tick_event tw = tick_handler tw
  handle seconds (add_event delay key job) tw =
      add_task seconds delay key job tw >>= λ tw'. some (tw', [])
  handle seconds (remove_event key) tw = remove_task key tw >>= λ tw'. some (tw', [])

  unfoldable pub start : (ℕ → ℕ) → List (Event J) → TimeWheel J → Option (TimeWheel J × List J)
  unfolding handle
  start seconds [] tw = some (tw, [])
  start seconds (e ∷ es) tw = do
    r ← handle seconds e tw
    rest ← start seconds es r.0
    some (rest.0, r.1 ++ rest.1)
