-- ===== src/TimeWheel/Removals.antt =====
-- What `removeTask` does to a wheel, alone and in front of an addition.
use hayakv.Base.{
  ℕ, ◌<◌, ◌≡◌, refl, ap, sym, ◌∙◌, inl, inr, ◌⊎◌, Bool, true, false, not, ◌||◌, Option, none, some,
  List, [], arith, length-set, get_elem?, set, nat_eq, if◌then◌else◌, Bool-cases, ◌>>=◌, some_item,
  get_elem?-set_same, get_elem?-set_other,
}
use mathlib.Core.Path.{subst}
use mathlib.Core.Option.{some-injective}
use hayakv.Base.Classes.{Bytes, bytes_eq, bytes_eq_iff}
use hayakv.TimeWheel.{Location, Task, TimeWheel, drop_task, remove_task_internal, replace_task}
use hayakv.TimeWheel.Lists.{find_task, find-drop, drop-All, set-AllTasks, get-AllTasks, find-All}
use hayakv.TimeWheel.Waits.{Due, Tracks, Tracks-set, IsValid, Waits}

module _ {J : Type 0} where
  -- A handler's result: it is valid, and stands where the wheel stood.
  pub record Moved (tw tw' : TimeWheel J) : Type 0 where
    pub valid : IsValid tw'
    pub same_interval : tw'.interval ≡ tw.interval
    pub same_pos : tw'.current_pos ≡ tw.current_pos
    pub same_num : tw'.slot_num ≡ tw.slot_num

  abbrev dropped : TimeWheel J → Bytes → Location → List (Task J) → TimeWheel J
  dropped tw key loc ts = record tw {
    slots = set tw.slots loc.slot (drop_task loc.etask ts);
    timer = λ q. if bytes_eq key q then none else tw.timer q;
  }

  dropped-Moved :
      (tw : TimeWheel J) (key : Bytes) (loc : Location) (ts : List (Task J))
      → IsValid tw
      → get_elem? tw.slots loc.slot ≡ some ts
      → Moved tw (dropped tw key loc ts)
  dropped-Moved tw key loc ts h e = record {
    valid = record {
      sized = length-set tw.slots loc.slot (drop_task loc.etask ts) ∙ h.sized;
      inside = h.inside;
      fresh =
          let Q = λ (a : ℕ) (k : Bytes). a < tw.next_address in
          set-AllTasks Q tw.slots loc.slot (drop_task loc.etask ts) h.fresh
            (drop-All Q loc.etask ts (get-AllTasks Q tw.slots loc.slot ts h.fresh e));
      tracked = λ k. elim (Bool-cases (bytes_eq key k)) [
        | inl f ↦ rw f tt
        | inr f ↦ rw f (
            Tracks-set tw.next_address tw.slots loc.slot ts (drop_task loc.etask ts) k (tw.timer k)
              e (λ Q. drop-All Q loc.etask ts) (h.tracked k))
      ];
    };
    same_interval = refl;
    same_pos = refl;
    same_num = refl;
  }

  dropped-Waits :
      (tw : TimeWheel J) (key : Bytes) (loc : Location) (ts : List (Task J)) (a r : ℕ) (k : Bytes)
      (job : J)
      → Tracks tw.next_address tw.slots key (some loc)
      → get_elem? tw.slots loc.slot ≡ some ts
      → bytes_eq key k ≡ false
      → Waits tw a k job r
      → Waits (dropped tw key loc ts) a k job r
  dropped-Waits tw key loc ts a r k job tracks e differ w =
      let Q = λ (b : ℕ) (q : Bytes). (nat_eq b loc.etask ≡ false) ⊎ (q ≡ key) in
      let mine =
        find-All Q a w.row w.task (get-AllTasks Q tw.slots w.at w.row tracks.2 w.here) w.found in
      let other : nat_eq a loc.etask ≡ false = elim mine [
        | inl f ↦ f
        | inr f ↦ absurd (clash ((bytes_eq_iff key k).1 (sym f ∙ w.same_key)) differ)
      ] in
      elim (Bool-cases (nat_eq loc.slot w.at)) [
        | inr f ↦ record {
          at = w.at;
          row = w.row;
          task = w.task;
          here = get_elem?-set_other tw.slots loc.slot w.at (drop_task loc.etask ts) f ∙ w.here;
          found = w.found;
          due = w.due;
          same_key = w.same_key;
          same_job = w.same_job;
          known = w.known;
        }
        | inl f ↦
            let same : w.at ≡ loc.slot = ground (arith, f) in
            let row : w.row ≡ ts =
              some-injective w.row ts (sym w.here ∙ (ap (get_elem? tw.slots) same ∙ e)) in
            record {
              at = loc.slot;
              row = drop_task loc.etask ts;
              task = w.task;
              here = get_elem?-set_same tw.slots loc.slot (drop_task loc.etask ts) tracks.0;
              found =
                  find-drop a loc.etask ts other
                  ∙ subst (λ us. find_task a us ≡ some w.task) row w.found;
              due = subst (λ q. Due tw.current_pos q tw.slot_num w.task.circle r) same w.due;
              same_key = w.same_key;
              same_job = w.same_job;
              known = w.known;
            }
      ]
    where
      clash : {b : Bool} → b ≡ true → b ≡ false → ⊥
      clash h g = ground (arith, h, g)

  -- what a removal of `key` is, and that the tasks of other keys wait as before
  abbrev pub Spared : (Bytes → Bool) → TimeWheel J → TimeWheel J → Type 0
  Spared spares tw tw' =
      (a r : ℕ) (k : Bytes) (job : J) → spares k ≡ true → Waits tw a k job r → Waits tw' a k job r

  pub remove_task_internal_lem :
      (key : Bytes) (tw : TimeWheel J)
      → IsValid tw
      → (tw' : TimeWheel J) × (remove_task_internal key tw ≡ some tw')
        × Moved tw tw'
        × (tw'.next_address ≡ tw.next_address)
        × Spared (λ k. not (bytes_eq key k)) tw tw'
  unfolding remove_task_internal
  remove_task_internal_lem key tw h = go (tw.timer key) refl (h.tracked key)
    where
      go :
          (o : Option Location)
          → tw.timer key ≡ o
          → Tracks tw.next_address tw.slots key o
          → (tw' : TimeWheel J) × (remove_task_internal key tw ≡ some tw')
            × Moved tw tw'
            × (tw'.next_address ≡ tw.next_address)
            × Spared (λ k. not (bytes_eq key k)) tw tw'
      go none e t = (
        tw,
        rw (remove_task_internal, e),
        record { valid = h; same_interval = refl; same_pos = refl; same_num = refl },
        refl,
        λ a r k job s w. w,
      )
      go (some loc) e t =
          let (ts, here) = some_item tw.slots loc.slot t.0 in
          (
            dropped tw key loc ts,
            rw (remove_task_internal, e, here, ◌>>=◌),
            dropped-Moved tw key loc ts h here,
            refl,
            λ a r k job s w. dropped-Waits tw key loc ts a r k job t here (ground (arith, s)) w,
          )

  pub replace_task_lem :
      (key : Bytes) (tw : TimeWheel J)
      → IsValid tw
      → (tw' : TimeWheel J) × (replace_task key tw ≡ some tw')
        × Moved tw tw'
        × (tw'.next_address ≡ tw.next_address)
        × Spared (λ k. bytes_eq key [] || not (bytes_eq key k)) tw tw'
  unfolding replace_task
  replace_task_lem key tw h = elim (Bool-cases (bytes_eq key [])) [
    | inl e ↦ (
      tw,
      rw e,
      record { valid = h; same_interval = refl; same_pos = refl; same_num = refl },
      refl,
      λ a r k job s w. w,
    )
    | inr e ↦
        let (tw', runs, moved, same, spared) = remove_task_internal_lem key tw h in
        (tw', rw e runs, moved, same, λ a r k job s w. spared a r k job (rw e at s) w)
  ]
