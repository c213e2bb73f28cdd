-- ===== src/TimeWheel/Tests.antt =====
-- Runs of the time wheel, and its theorems at concrete inputs.
use hayakv.Base.{ℕ, ◌/◌, ◌≡◌, refl, none, some, List, [], ◌∷◌, arith}
use hayakv.Base.Classes.{bytes_eq}
use hayakv.TimeWheel.{
  TimeWheel, Event, tick_event, add_event, remove_event, new_time_wheel, scan, scan_and_run_task,
  tick_handler, remove_task_internal, remove_task, get_position_and_circle, replace_task, push_back,
  add_task, handle, start,
}
use hayakv.TimeWheel.Waits.{IsValid, Waits}
use hayakv.TimeWheel.Events.{start_never_panics}

-- durations in milliseconds
abbrev whole : ℕ → ℕ
whole d = d / 1000

abbrev wheel : TimeWheel ℕ
wheel = record {
  interval = 1000;
  slots = [] ∷ [] ∷ [] ∷ [];
  timer = λ _. none;
  current_pos = 2;
  slot_num = 3;
  next_address = 7;
}

-- job 5 is replaced, job 6 has no key, job 4 goes round once
abbrev messages : List (Event ℕ)
messages =
    add_event 4500 (97 ∷ []) 4
    ∷ add_event 1000 (98 ∷ []) 5
    ∷ tick_event
    ∷ add_event 0 [] 6
    ∷ add_event 2000 (98 ∷ []) 8
    ∷ remove_event (99 ∷ [])
    ∷ tick_event
    ∷ tick_event
    ∷ tick_event
    ∷ tick_event
    ∷ []

-- what ran, in the order of the ticks
abbrev ran : List ℕ
ran = elim (start whole messages wheel) [ none ↦ [] | some r ↦ r.1 ]

messages_run : ran ≡ 6 ∷ 8 ∷ 4 ∷ []
unfolding start handle tick_handler scan_and_run_task scan add_task get_position_and_circle
    replace_task remove_task remove_task_internal push_back bytes_eq
messages_run = refl

abbrev others : List (Event ℕ)
others =
    tick_event
    ∷ add_event 1000 (98 ∷ []) 5
    ∷ tick_event
    ∷ tick_event
    ∷ remove_event (98 ∷ [])
    ∷ tick_event
    ∷ []

start_never_panics_example :
    (tw tw' : TimeWheel ℕ) × (js : List ℕ) × (new_time_wheel 1000 3600 ≡ some tw)
    × (start whole messages tw ≡ some (tw', js))
    × IsValid tw'
start_never_panics_example =
    start_never_panics whole 1000 3600 messages (omega arith) (omega arith) (omega arith)
