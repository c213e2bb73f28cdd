-- ===== src/TimeWheel/Additions.antt =====
-- What `addTask` does to a wheel.
use hayakv.Base.{
  ℕ, ◌+◌, ◌/◌, ◌%◌, ◌<◌, ◌≡◌, refl, ap, sym, ◌∙◌, inl, inr, ◌⊎◌, Bool, true, false, not, ◌||◌,
  Option, none, some, List, [], ◌∷◌, ◌++◌, arith, length, length-set, get_elem?, set, nat_eq,
  if◌then◌else◌, Bool-cases, All-append, ◌>>=◌, some_item, get_elem?-set_same, get_elem?-set_other,
}
use mathlib.Core.Path.{subst}
use mathlib.Core.Option.{some-injective}
use hayakv.Base.Classes.{Bytes, bytes_eq, bytes_eq_iff}
use hayakv.TimeWheel.{Location, Task, TimeWheel, push_back, get_position_and_circle, add_task}
use hayakv.TimeWheel.Lists.{
  find_task, find-append, find-append_new, AllTasks, set-AllTasks, get-AllTasks, map-AllTasks,
}
use hayakv.TimeWheel.Waits.{Due, position_and_circle-Due, Tracks, IsValid, Waits}
use hayakv.TimeWheel.Removals.{Spared, replace_task_lem}

-- is a task of key `k` safe from an addition under `key`?
abbrev pub spared_by : Bytes → Bytes → Bool
spared_by key k = bytes_eq key [] || not (bytes_eq key k)

module _ {J : Type 0} where
  abbrev new_task : TimeWheel J → ℕ → Bytes → J → Task J
  new_task tw circle key job = record {
    circle = circle;
    key = key;
    job = job;
    address = tw.next_address;
  }

  abbrev pushed : TimeWheel J → ℕ → ℕ → Bytes → J → List (Task J) → TimeWheel J
  pushed tw at circle key job ts =
      let task = new_task tw circle key job in
      let loc : Location = record { slot = at; etask = tw.next_address } in
      record tw {
        slots = set tw.slots at (ts ++ (task ∷ []));
        timer = λ q. if bytes_eq key q then some loc else tw.timer q;
        next_address = tw.next_address + 1;
      }

  pushed-IsValid :
      (tw : TimeWheel J) (at circle : ℕ) (key : Bytes) (job : J) (ts : List (Task J))
      → IsValid tw
      → get_elem? tw.slots at ≡ some ts
      → at < length tw.slots
      → IsValid (pushed tw at circle key job ts)
  pushed-IsValid tw at circle key job ts h e lt =
      let row = ts ++ (new_task tw circle key job ∷ []) in
      let size = length-set tw.slots at row in
      record {
        sized = size ∙ h.sized;
        inside = h.inside;
        fresh =
            both (λ a _. a < tw.next_address) (λ a _. a < tw.next_address + 1) h.fresh
              (λ a k g. omega (arith, g)) (omega arith);
        tracked = λ k. elim (Bool-cases (bytes_eq key k)) [
          | inl f ↦ rw f (
            omega (arith, size, lt),
            omega arith,
            both (λ a _. a < tw.next_address) (λ a q. (nat_eq a tw.next_address ≡ false) ⊎ (q ≡ k))
                h.fresh (λ a q g. inl (ground (arith, g))) (inr ((bytes_eq_iff key k).0 f)),
          )
          | inr f ↦ rw f (still k (tw.timer k) (h.tracked k))
        ];
      }
    where
      both :
          (Q R : ℕ → Bytes → Type 0)
          → AllTasks Q tw.slots
          → ((a : ℕ) (k : Bytes) → Q a k → R a k)
          → R tw.next_address key
          → AllTasks R (set tw.slots at (ts ++ (new_task tw circle key job ∷ [])))
      both Q R all f new =
          let old = map-AllTasks Q R f tw.slots all in
          set-AllTasks R tw.slots at (ts ++ (new_task tw circle key job ∷ [])) old (
            All-append (λ t. R t.address t.key) ts (new_task tw circle key job ∷ [])
              (get-AllTasks R tw.slots at ts old e) (new, tt))

      still :
          (k : Bytes) (o : Option Location)
          → Tracks tw.next_address tw.slots k o
          → Tracks
              (tw.next_address + 1)
              (set tw.slots at (ts ++ (new_task tw circle key job ∷ [])))
              k
              o
      still k none t = tt
      still k (some loc) (inside, known, all) = (
        omega (arith, inside, length-set tw.slots at (ts ++ (new_task tw circle key job ∷ []))),
        omega (arith, known),
        both (λ a q. (nat_eq a loc.etask ≡ false) ⊎ (q ≡ k))
            (λ a q. (nat_eq a loc.etask ≡ false) ⊎ (q ≡ k)) all (λ a q g. g)
            (inl (ground (arith, known))),
      )

  pushed-Waits :
      (tw : TimeWheel J) (at circle : ℕ) (key : Bytes) (job : J) (ts : List (Task J))
      → get_elem? tw.slots at ≡ some ts
      → at < length tw.slots
      → Spared (λ _. true) tw (pushed tw at circle key job ts)
  pushed-Waits tw at circle key job ts e lt a r k j s w =
      let row = ts ++ (new_task tw circle key job ∷ []) in
      elim (Bool-cases (nat_eq at w.at)) [
        | inr f ↦ record {
          at = w.at;
          row = w.row;
          task = w.task;
          here = get_elem?-set_other tw.slots at w.at row f ∙ w.here;
          found = w.found;
          due = w.due;
          same_key = w.same_key;
          same_job = w.same_job;
          known = omega (arith, w.known);
        }
        | inl f ↦
            let same : w.at ≡ at = ground (arith, f) in
            let same_row : w.row ≡ ts =
              some-injective w.row ts (sym w.here ∙ (ap (get_elem? tw.slots) same ∙ e)) in
            record {
              at = at;
              row = row;
              task = w.task;
              here = get_elem?-set_same tw.slots at row lt;
              found =
                  find-append a ts (new_task tw circle key job) w.task
                    (subst (λ us. find_task a us ≡ some w.task) same_row w.found);
              due = subst (λ q. Due tw.current_pos q tw.slot_num w.task.circle r) same w.due;
              same_key = w.same_key;
              same_job = w.same_job;
              known = omega (arith, w.known);
            }
      ]

  -- `addTask`: the new task is due after the whole intervals of its delay, and no task of another key
  -- is touched.
  pub add_task_lem :
      (seconds : ℕ → ℕ) (delay : ℕ) (key : Bytes) (job : J) (tw : TimeWheel J)
      → IsValid tw
      → 0 < seconds tw.interval
      → (tw' : TimeWheel J) × (add_task seconds delay key job tw ≡ some tw')
        × IsValid tw'
        × (tw'.interval ≡ tw.interval)
        × Waits tw' tw.next_address key job (seconds delay / seconds tw.interval)
        × Spared (spared_by key) tw tw'
  unfolding add_task get_position_and_circle push_back
  add_task_lem seconds delay key job tw h pos =
      let q = seconds delay / seconds tw.interval in
      let p = (tw.current_pos + q) % tw.slot_num in
      let circle = q / tw.slot_num in
      let (tw', runs, moved, next, spared) = replace_task_lem key tw h in
      let (small, due) = position_and_circle-Due tw.current_pos tw.slot_num q h.inside in
      let lt : p < length tw'.slots = omega (arith, small, moved.valid.sized, moved.same_num) in
      let (ts, here) = some_item tw'.slots p lt in
      let whole : nat_eq (seconds tw.interval) 0 ≡ false = ground (arith, pos) in
      let row = ts ++ (new_task tw' circle key job ∷ []) in
      let all_below =
        get-AllTasks (λ a _. a < tw'.next_address) tw'.slots p ts moved.valid.fresh here in
      (
        pushed tw' p circle key job ts,
        rw (whole, runs, ◌>>=◌, here),
        pushed-IsValid tw' p circle key job ts moved.valid here lt,
        moved.same_interval,
        record {
          at = p;
          row = row;
          task = new_task tw' circle key job;
          here = get_elem?-set_same tw'.slots p row lt;
          found =
              subst (λ a. find_task a row ≡ some (new_task tw' circle key job)) next
                (find-append_new ts (new_task tw' circle key job) all_below);
          due = rw (moved.same_pos, moved.same_num) due;
          same_key = refl;
          same_job = refl;
          known = omega (arith, next);
        },
        λ a r k j s w.
            pushed-Waits tw' p circle key job ts here lt a r k j refl (spared a r k j s w),
      )
