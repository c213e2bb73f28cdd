-- ===== src/TimeWheel/Events.antt =====
-- What the messages do to a wheel, and that a job runs at its tick.
use hayakv.Base.{
  ℕ, zero, suc, ◌<◌, ◌≡◌, refl, sym, Bool, true, false, not, none, some, List, [], ◌∷◌, ◌++◌, arith,
  nat_eq, ◌>>=◌, replicate, length-replicate,
}
use mathlib.Core.Path.{subst}
use hayakv.Base.Classes.{Bytes, bytes_eq}
use hayakv.TimeWheel.{
  Task, TimeWheel, Event, tick_event, add_event, remove_event, remove_task, handle, start,
  new_time_wheel,
}
use hayakv.TimeWheel.Lists.{AllTasks}
use hayakv.TimeWheel.Waits.{IsValid, Waits, tick_handler-IsValid}
use hayakv.TimeWheel.Removals.{remove_task_internal_lem}
use hayakv.TimeWheel.Additions.{spared_by, add_task_lem}

none_tracked :
    (J : Type 0) (Q : ℕ → Bytes → Type 0) (n : ℕ) → AllTasks Q (replicate {A = List (Task J)} n [])
none_tracked J Q zero = tt
none_tracked J Q (suc n) = (tt, none_tracked J Q n)

module _ {J : Type 0} where
  -- the ticks of a sequence of events
  abbrev pub ticks : List (Event J) → ℕ
  ticks [] = 0
  ticks (tick_event ∷ es) = suc (ticks es)
  ticks (add_event _ _ _ ∷ es) = ticks es
  ticks (remove_event _ ∷ es) = ticks es

  -- an event that does not replace or remove a task of that key
  abbrev pub spares : Bytes → Event J → Bool
  spares k tick_event = true
  spares k (add_event _ key _) = spared_by key k
  spares k (remove_event key) = not (bytes_eq key k)

  -- The loop on a valid wheel whose interval has a full second never panics, and its wheel stays valid.
  pub start-IsValid :
      (seconds : ℕ → ℕ) (es : List (Event J)) (tw : TimeWheel J)
      → IsValid tw
      → 0 < seconds tw.interval
      → (tw' : TimeWheel J) × (js : List J) × (start seconds es tw ≡ some (tw', js)) × IsValid tw'
  unfolding start handle remove_task
  start-IsValid seconds [] tw h pos = (tw, [], refl, h)
  start-IsValid seconds (tick_event ∷ es) tw h pos =
      let (tw', js, runs, valid, same) = tick_handler-IsValid tw h in
      let (tw'', js', more, valid') =
        start-IsValid seconds es tw' valid (subst (λ i. 0 < seconds i) (sym same) pos) in
      (tw'', js ++ js', rw (runs, ◌>>=◌, more), valid')
  start-IsValid seconds (add_event delay key job ∷ es) tw h pos =
      let (tw', runs, valid, same, _, _) = add_task_lem seconds delay key job tw h pos in
      let (tw'', js', more, valid') =
        start-IsValid seconds es tw' valid (subst (λ i. 0 < seconds i) (sym same) pos) in
      (tw'', js', rw (runs, ◌>>=◌, more), valid')
  start-IsValid seconds (remove_event key ∷ es) tw h pos =
      let (tw', runs, moved, _, _) = remove_task_internal_lem key tw h in
      let (tw'', js', more, valid') =
        start-IsValid seconds es tw' moved.valid
          (subst (λ i. 0 < seconds i) (sym moved.same_interval) pos) in
      (tw'', js', rw (runs, ◌>>=◌, more), valid')

  pub new_time_wheel-IsValid :
      (interval slot_num : ℕ)
      → 0 < interval
      → 0 < slot_num
      → (tw : TimeWheel J) × (new_time_wheel interval slot_num ≡ some tw)
        × IsValid tw
        × (tw.interval ≡ interval)
  unfolding new_time_wheel
  new_time_wheel-IsValid interval slot_num h k =
      let some_time : nat_eq interval 0 ≡ false = ground (arith, h) in
      let some_slot : nat_eq slot_num 0 ≡ false = ground (arith, k) in
      (
        record {
          interval = interval;
          slots = replicate slot_num [];
          timer = λ _. none;
          current_pos = 0;
          slot_num = slot_num;
          next_address = 0;
        },
        rw (some_time, some_slot),
        record {
          sized = length-replicate slot_num [];
          inside = k;
          fresh = none_tracked J (λ a _. a < 0) slot_num;
          tracked = λ _. tt;
        },
        refl,
      )

  -- A new wheel with a position and with an interval of at least a full second takes any sequence of
  -- ticks, additions and removals without a panic.
  pub start_never_panics :
      (seconds : ℕ → ℕ) (interval slot_num : ℕ) (es : List (Event J))
      → 0 < interval
      → 0 < slot_num
      → 0 < seconds interval
      → (tw tw' : TimeWheel J) × (js : List J) × (new_time_wheel interval slot_num ≡ some tw)
        × (start seconds es tw ≡ some (tw', js))
        × IsValid tw'
  start_never_panics seconds interval slot_num es h k pos =
      let (tw, made, valid, same) = new_time_wheel-IsValid interval slot_num h k in
      let (tw', js, runs, valid') =
        start-IsValid seconds es tw valid (subst (λ i. 0 < seconds i) (sym same) pos) in
      (tw, tw', js, made, runs, valid')
