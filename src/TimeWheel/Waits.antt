-- ===== src/TimeWheel/Waits.antt =====
-- When a task is due, and that the ticks bring it there.
use hayakv.Base.{
  mod_wrap, get_elem?_inside, some_item, get_elem?-set_same, get_elem?-set_other, ◌≢◌, ℕ, zero, suc,
  ◌+◌, ◌-◌, ◌*◌, ◌/◌, ◌%◌, ◌≤◌, ◌<◌, ◌≡◌, refl, ap, sym, ◌∙◌, inl, inr, ◌⊎◌, false, Option, none,
  some, List, [], ◌∷◌, arith, length, length-set, get_elem?, set, ltb, nat_eq, if◌then◌else◌,
  Bool-cases, All, ◌>>=◌,
}
use mathlib.Core.Path.{subst}
use mathlib.Core.Option.{some-injective}
use native.Mathlib.Nat.{mul-suc, mul-zero, mod-add-div, mod-lt, add-mod-mod}
use hayakv.Base.Classes.{Bytes, bytes_eq}
use hayakv.TimeWheel.{Location, Task, TimeWheel, scan, forget, advance, tick_handler}
use hayakv.TimeWheel.Lists.{
  find_task, Runs, find-scan, scan-Runs, AllTasks, scan-All, set-AllTasks, get-AllTasks,
}

-- A task with that circle in slot `p` is due `r` ticks after the next one, of a wheel of `n` slots at `c`.
abbrev pub Due : ℕ → ℕ → ℕ → ℕ → ℕ → Type 0
Due c p n circle r = ((c ≤ p) × (c + r ≡ p + n * circle)) ⊎ ((p < c) × (c + r ≡ p + n * circle + n))

-- what `getPositionAndCircle` computes is due after the delay
pub position_and_circle-Due :
    (c n q : ℕ) → c < n → ((c + q) % n < n) × Due c ((c + q) % n) n (q / n) q
position_and_circle-Due c n q h =
    let s = q % n in
    let small : s < n = mod-lt q (omega (arith, h)) in
    let parts = mod-add-div q n in
    let turned = sym (add-mod-mod c q n) ∙ mod_wrap (c + s) n (omega (arith, h, small)) in
    elim (Bool-cases (ltb (c + s) n)) [
      | inl e ↦ rw (turned, e) (ground (arith, e), inl (omega arith, omega (arith, parts)))
      | inr e ↦
          rw (turned, e)
            (
              ground (arith, e, small, h),
              inr (ground (arith, e, small, h), ground (arith, e, parts)),
            )
    ]

-- a tick of the wheel that stands on another slot
Due-elsewhere :
    (c p n x r : ℕ)
    → c < n
    → p < n
    → nat_eq c p ≡ false
    → Due c p n x (suc r)
    → Due (if nat_eq (c + 1) n then 0 else c + 1) p n x r
Due-elsewhere c p n x r h k e d = elim (Bool-cases (nat_eq (c + 1) n)) [
  | inl f ↦ rw f (turn d (ground (arith, f)))
  | inr f ↦ rw f (go d)
]
  where
    apart : c ≢ p
    apart g = ground (arith, e, g)

    turn : Due c p n x (suc r) → c + 1 ≡ n → Due 0 p n x r
    turn (inl (le, s)) f = absurd (ground (arith, e, le, f, k))
    turn (inr (lt, s)) f = inl (omega arith, omega (arith, s, f))

    go : Due c p n x (suc r) → Due (c + 1) p n x r
    go (inl (le, s)) = inl (ground (arith, e, le), omega (arith, s))
    go (inr (lt, s)) = inr (omega (arith, lt), omega (arith, s))

Due-here :
    (c n y r : ℕ)
    → c < n
    → Due c c n (suc y) (suc r)
    → Due (if nat_eq (c + 1) n then 0 else c + 1) c n y r
Due-here c n y r h d =
    let m : n * suc y ≡ n * y + n = mul-suc n y in
    elim (Bool-cases (nat_eq (c + 1) n)) [
      | inl f ↦ rw f (turn d m (ground (arith, f)))
      | inr f ↦ rw f (go d m)
    ]
  where
    turn : Due c c n (suc y) (suc r) → n * suc y ≡ n * y + n → c + 1 ≡ n → Due 0 c n y r
    turn (inl (le, s)) m f = inl (omega arith, omega (arith, s, m, f))
    turn (inr (lt, s)) m f = absurd (omega (arith, lt))

    go : Due c c n (suc y) (suc r) → n * suc y ≡ n * y + n → Due (c + 1) c n y r
    go (inl (le, s)) m = inr (omega arith, omega (arith, s, m))
    go (inr (lt, s)) m = absurd (omega (arith, lt))

Due-later : (c n x r : ℕ) → Due c c n x (suc r) → 0 < x
Due-later c n zero r (inl (le, s)) = absurd (omega (arith, s, mul-zero n))
Due-later c n zero r (inr (lt, s)) = absurd (omega (arith, lt))
Due-later c n (suc x) r d = omega arith

-- the tick at which the task is due
Due-now : (c p n x : ℕ) → c < n → Due c p n x 0 → (p ≡ c) × (x ≡ 0)
Due-now c p n zero h (inl (le, s)) = (omega (arith, le, s, mul-zero n), refl)
Due-now c p n (suc x) h (inl (le, s)) = absurd (omega (arith, le, s, h, mul-suc n x))
Due-now c p n x h (inr (lt, s)) = absurd (omega (arith, lt, s, h))

module _ {J : Type 0} where
  -- a key's entry of the timer, which may be of a task that is gone
  abbrev pub Tracks : ℕ → List (List (Task J)) → Bytes → Option Location → Type 0
  Tracks next slots key none = Unit
  Tracks next slots key (some loc) =
      (loc.slot < length slots)
      × (loc.etask < next)
      × AllTasks (λ a k. (nat_eq a loc.etask ≡ false) ⊎ (k ≡ key)) slots

  -- What every handler keeps: a position for each slot, addresses below the next one, and a timer that
  -- leads to tasks of its keys.
  pub record IsValid (tw : TimeWheel J) : Type 0 where
    pub sized : length tw.slots ≡ tw.slot_num
    pub inside : tw.current_pos < tw.slot_num
    pub fresh : AllTasks (λ a _. a < tw.next_address) tw.slots
    pub tracked : (k : Bytes) → Tracks tw.next_address tw.slots k (tw.timer k)

  -- a task that is due `r` ticks after the next one
  pub record Waits (tw : TimeWheel J) (a : ℕ) (key : Bytes) (job : J) (r : ℕ) : Type 0 where
    pub at : ℕ
    pub row : List (Task J)
    pub task : Task J
    pub here : get_elem? tw.slots at ≡ some row
    pub found : find_task a row ≡ some task
    pub due : Due tw.current_pos at tw.slot_num task.circle r
    pub same_key : task.key ≡ key
    pub same_job : task.job ≡ job
    pub known : a < tw.next_address

module _ {J : Type 0} where
  Tracks-forget :
      (next : ℕ) (slots : List (List (Task J))) (k : Bytes) (ks : List Bytes)
      (timer : Bytes → Option Location)
      → Tracks next slots k (timer k)
      → Tracks next slots k (forget ks timer k)
  Tracks-forget next slots k [] timer h = h
  Tracks-forget next slots k (j ∷ ks) timer h =
      Tracks-forget next slots k ks (λ q. if bytes_eq j q then none else timer q)
        (elim (Bool-cases (bytes_eq j k)) [ inl e ↦ rw e tt | inr e ↦ rw e h ])

  -- a slot that loses tasks
  pub Tracks-set :
      (next : ℕ) (slots : List (List (Task J))) (p : ℕ) (ts us : List (Task J)) (k : Bytes)
      (loc : Option Location)
      → get_elem? slots p ≡ some ts
      → ((Q : ℕ → Bytes → Type 0)
          → All (λ t. Q t.address t.key) ts
          → All (λ t. Q t.address t.key) us)
      → Tracks next slots k loc
      → Tracks next (set slots p us) k loc
  Tracks-set next slots p ts us k none e keeps h = tt
  Tracks-set next slots p ts us k (some loc) e keeps (lt, known, all) =
      let Q = λ (a : ℕ) (q : Bytes). (nat_eq a loc.etask ≡ false) ⊎ (q ≡ k) in
      (
        omega (arith, lt, length-set slots p us),
        known,
        set-AllTasks Q slots p us all (keeps Q (get-AllTasks Q slots p ts all e)),
      )

  -- the wheel after the tick
  abbrev pub ticked : TimeWheel J → List (Task J) → TimeWheel J
  ticked tw ts = record (advance tw) {
    slots = set tw.slots tw.current_pos (scan ts).0;
    timer = forget (scan ts).1.1 tw.timer;
  }

  ticked-IsValid :
      (tw : TimeWheel J) (ts : List (Task J))
      → IsValid tw
      → get_elem? tw.slots tw.current_pos ≡ some ts
      → IsValid (ticked tw ts)
  ticked-IsValid tw ts h e = record {
    sized = length-set tw.slots tw.current_pos (scan ts).0 ∙ h.sized;
    inside = elim (Bool-cases (nat_eq (tw.current_pos + 1) tw.slot_num)) [
      | inl f ↦ rw f (omega (arith, h.inside))
      | inr f ↦ rw f (ground (arith, h.inside, f))
    ];
    fresh =
        let Q = λ (a : ℕ) (k : Bytes). a < tw.next_address in
        set-AllTasks Q tw.slots tw.current_pos (scan ts).0 h.fresh
          (scan-All Q ts (get-AllTasks Q tw.slots tw.current_pos ts h.fresh e));
    tracked = λ k.
        Tracks-forget tw.next_address (set tw.slots tw.current_pos (scan ts).0) k (scan ts).1.1
          tw.timer
          (Tracks-set tw.next_address tw.slots tw.current_pos ts (scan ts).0 k (tw.timer k) e
            (λ Q. scan-All Q ts) (h.tracked k));
  }

  -- A tick on a valid wheel gives a valid wheel.
  pub tick_handler-IsValid :
      (tw : TimeWheel J)
      → IsValid tw
      → (tw' : TimeWheel J) × (js : List J) × (tick_handler tw ≡ some (tw', js))
        × IsValid tw'
        × (tw'.interval ≡ tw.interval)
  unfolding tick_handler
  tick_handler-IsValid tw h =
      let (ts, e) = some_item tw.slots tw.current_pos (omega (arith, h.sized, h.inside)) in
      (ticked tw ts, (scan ts).1.0, rw (e, ◌>>=◌), ticked-IsValid tw ts h e, refl)

  ticked-Waits :
      (tw : TimeWheel J) (ts : List (Task J)) (a r : ℕ) (key : Bytes) (job : J)
      → IsValid tw
      → get_elem? tw.slots tw.current_pos ≡ some ts
      → Waits tw a key job (suc r)
      → Waits (ticked tw ts) a key job r
  ticked-Waits tw ts a r key job h e w =
      let c = tw.current_pos in
      let p = w.at in
      let inside : c < length tw.slots = omega (arith, h.sized, h.inside) in
      let p_inside : p < tw.slot_num =
        subst (λ n. p < n) h.sized (get_elem?_inside tw.slots p w.row w.here) in
      elim (Bool-cases (nat_eq c p)) [
        | inr f ↦ record {
          at = p;
          row = w.row;
          task = w.task;
          here = get_elem?-set_other tw.slots c p (scan ts).0 f ∙ w.here;
          found = w.found;
          due = Due-elsewhere c p tw.slot_num w.task.circle r h.inside p_inside f w.due;
          same_key = w.same_key;
          same_job = w.same_job;
          known = w.known;
        }
        | inl f ↦
            let same : p ≡ c = ground (arith, f) in
            let due = subst (λ q. Due c q tw.slot_num w.task.circle (suc r)) same w.due in
            let pos = Due-later c tw.slot_num w.task.circle r due in
            let row : w.row ≡ ts =
              some-injective w.row ts (sym w.here ∙ (ap (get_elem? tw.slots) same ∙ e)) in
            let step : w.task.circle ≡ suc (w.task.circle - 1) = omega (arith, pos) in
            record {
              at = c;
              row = (scan ts).0;
              task = record (w.task) { circle = w.task.circle - 1 };
              here = get_elem?-set_same tw.slots c (scan ts).0 inside;
              found =
                  find-scan a ts w.task (subst (λ us. find_task a us ≡ some w.task) row w.found)
                    pos;
              due =
                  Due-here c tw.slot_num (w.task.circle - 1) r h.inside
                    (subst (λ x. Due c c tw.slot_num x (suc r)) step due);
              same_key = w.same_key;
              same_job = w.same_job;
              known = w.known;
            }
      ]

  -- A tick brings a waiting task one tick nearer.
  pub tick_handler-Waits :
      (tw : TimeWheel J) (a r : ℕ) (key : Bytes) (job : J)
      → IsValid tw
      → Waits tw a key job (suc r)
      → (tw' : TimeWheel J) × (js : List J) × (tick_handler tw ≡ some (tw', js))
        × IsValid tw'
        × Waits tw' a key job r
        × (tw'.interval ≡ tw.interval)
  unfolding tick_handler
  tick_handler-Waits tw a r key job h w =
      let (ts, e) = some_item tw.slots tw.current_pos (omega (arith, h.sized, h.inside)) in
      (
        ticked tw ts,
        (scan ts).1.0,
        rw (e, ◌>>=◌),
        ticked-IsValid tw ts h e,
        ticked-Waits tw ts a r key job h e w,
        refl,
      )

  -- A tick runs the task that is due.
  pub tick_handler-Runs :
      (tw : TimeWheel J) (a : ℕ) (key : Bytes) (job : J)
      → IsValid tw
      → Waits tw a key job 0
      → (tw' : TimeWheel J) × (js : List J) × (tick_handler tw ≡ some (tw', js))
        × IsValid tw'
        × Runs job js
  unfolding tick_handler
  tick_handler-Runs tw a key job h w =
      let c = tw.current_pos in
      let (same, none_left) = Due-now c w.at tw.slot_num w.task.circle h.inside w.due in
      let here : get_elem? tw.slots c ≡ some w.row = ap (get_elem? tw.slots) (sym same) ∙ w.here in
      (
        ticked tw w.row,
        (scan w.row).1.0,
        rw (here, ◌>>=◌),
        ticked-IsValid tw w.row h here,
        subst (λ j. Runs j (scan w.row).1.0) w.same_job
            (scan-Runs a w.row w.task w.found none_left),
      )
