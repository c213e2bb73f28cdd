-- ===== src/TimeWheel/Lists.antt =====
-- The tasks of a slot: found by their address, and what a scan and a removal leave of them.
use hayakv.Base.{
  ℕ, zero, suc, ◌-◌, ◌<◌, ◌≡◌, refl, ap, inl, inr, ◌⊎◌, true, false, Option, none, some, List, [],
  ◌∷◌, ◌++◌, arith, get_elem?, set, ltb, nat_eq, if◌then◌else◌, Bool-cases, All, All-map,
}
use hayakv.Base.Classes.{Bytes}
use mathlib.Core.Path.{subst}
use mathlib.Core.Option.{some-injective}
use hayakv.TimeWheel.{Task, scan, drop_task}

module _ {J : Type 0} where
  unfoldable pub find_task : ℕ → List (Task J) → Option (Task J)
  find_task a [] = none
  find_task a (t ∷ ts) = if nat_eq t.address a then some t else find_task a ts

  -- the job is among these
  abbrev pub Runs : J → List J → Type 0
  Runs job [] = ⊥
  Runs job (j ∷ js) = (j ≡ job) ⊎ Runs job js

  pub find-append :
      (a : ℕ) (ts : List (Task J)) (x t : Task J)
      → find_task a ts ≡ some t
      → find_task a (ts ++ (x ∷ [])) ≡ some t
  unfolding find_task
  find-append a [] x t h = absurd (ground (arith, h))
  find-append a (u ∷ ts) x t h = elim (Bool-cases (nat_eq u.address a)) [
    | inl e ↦ rw e (rw e at h)
    | inr e ↦ rw e (find-append a ts x t (rw e at h))
  ]

  pub find-append_new :
      (ts : List (Task J)) (x : Task J)
      → All (λ t. t.address < x.address) ts
      → find_task x.address (ts ++ (x ∷ [])) ≡ some x
  unfolding find_task
  find-append_new [] x h = let e : nat_eq x.address x.address ≡ true = ground arith in rw e
  find-append_new (t ∷ ts) x h =
      let e : nat_eq t.address x.address ≡ false = ground (arith, h.0) in
      rw e (find-append_new ts x h.1)

  pub find-drop :
      (a b : ℕ) (ts : List (Task J))
      → nat_eq a b ≡ false
      → find_task a (drop_task b ts) ≡ find_task a ts
  unfolding find_task
  find-drop a b [] h = refl
  find-drop a b (t ∷ ts) h = elim (Bool-cases (nat_eq t.address b)) [
    | inl e ↦
        let f : nat_eq t.address a ≡ false = ground (arith, e, h) in rw (e, f) (find-drop a b ts h)
    | inr e ↦ elim (Bool-cases (nat_eq t.address a)) [
      | inl f ↦ rw (e, f)
      | inr f ↦ rw (e, f) (find-drop a b ts h)
    ]
  ]

  -- a task whose circle is not 0 stays, with one circle less
  pub find-scan :
      (a : ℕ) (ts : List (Task J)) (t : Task J)
      → find_task a ts ≡ some t
      → 0 < t.circle
      → find_task a (scan ts).0 ≡ some (record t { circle = t.circle - 1 })
  unfolding find_task scan
  find-scan a [] t h pos = absurd (ground (arith, h))
  find-scan a (u ∷ ts) t h pos = elim (Bool-cases (nat_eq u.address a)) [
    | inl e ↦
        let same : u ≡ t = some-injective u t (rw e at h) in
        let stays : ltb 0 u.circle ≡ true = rw same (ground (arith, pos)) in rw (stays, e, same)
    | inr e ↦
        let rest = find-scan a ts t (rw e at h) pos in
        elim (Bool-cases (ltb 0 u.circle)) [ inl f ↦ rw (f, e) rest | inr f ↦ rw f rest ]
  ]

  -- a task whose circle is 0 runs
  pub scan-Runs :
      (a : ℕ) (ts : List (Task J)) (t : Task J)
      → find_task a ts ≡ some t
      → t.circle ≡ 0
      → Runs t.job (scan ts).1.0
  unfolding find_task scan
  scan-Runs a [] t h z = absurd (ground (arith, h))
  scan-Runs a (u ∷ ts) t h z = elim (Bool-cases (nat_eq u.address a)) [
    | inl e ↦
        let same : u ≡ t = some-injective u t (rw e at h) in
        let goes : ltb 0 u.circle ≡ false = rw same (ground (arith, z)) in
        rw goes (inl (ap (λ v. v.job) same))
    | inr e ↦
        let rest = scan-Runs a ts t (rw e at h) z in
        elim (Bool-cases (ltb 0 u.circle)) [ inl f ↦ rw f rest | inr f ↦ rw f (inr rest) ]
  ]

module _ {J : Type 0} (Q : ℕ → Bytes → Type 0) where
  -- something of the address and the key of every task
  abbrev pub AllTasks : List (List (Task J)) → Type 0
  AllTasks slots = All (λ ts. All (λ t. Q t.address t.key) ts) slots

  pub scan-All :
      (ts : List (Task J))
      → All (λ t. Q t.address t.key) ts
      → All (λ t. Q t.address t.key) (scan ts).0
  unfolding scan
  scan-All [] h = tt
  scan-All (t ∷ ts) h = elim (Bool-cases (ltb 0 t.circle)) [
    | inl e ↦ rw e (h.0, scan-All ts h.1)
    | inr e ↦ rw e (scan-All ts h.1)
  ]

  pub drop-All :
      (b : ℕ) (ts : List (Task J))
      → All (λ t. Q t.address t.key) ts
      → All (λ t. Q t.address t.key) (drop_task b ts)
  drop-All b [] h = tt
  drop-All b (t ∷ ts) h = elim (Bool-cases (nat_eq t.address b)) [
    | inl e ↦ rw e (drop-All b ts h.1)
    | inr e ↦ rw e (h.0, drop-All b ts h.1)
  ]

  pub set-AllTasks :
      (slots : List (List (Task J))) (p : ℕ) (ts : List (Task J))
      → AllTasks slots
      → All (λ t. Q t.address t.key) ts
      → AllTasks (set slots p ts)
  set-AllTasks [] p ts h k = tt
  set-AllTasks (us ∷ slots) zero ts h k = (k, h.1)
  set-AllTasks (us ∷ slots) (suc p) ts h k = (h.0, set-AllTasks slots p ts h.1 k)

  pub get-AllTasks :
      (slots : List (List (Task J))) (p : ℕ) (ts : List (Task J))
      → AllTasks slots
      → get_elem? slots p ≡ some ts
      → All (λ t. Q t.address t.key) ts
  get-AllTasks [] p ts h e = absurd (ground (arith, e))
  get-AllTasks (us ∷ slots) zero ts h e =
      let same : us ≡ ts = some-injective us ts e in
      subst (λ vs. All (λ t. Q t.address t.key) vs) same h.0
  get-AllTasks (us ∷ slots) (suc p) ts h e = get-AllTasks slots p ts h.1 e

  pub find-All :
      (a : ℕ) (ts : List (Task J)) (t : Task J)
      → All (λ t. Q t.address t.key) ts
      → find_task a ts ≡ some t
      → Q a t.key
  unfolding find_task
  find-All a [] t h e = absurd (ground (arith, e))
  find-All a (u ∷ ts) t h e = elim (Bool-cases (nat_eq u.address a)) [
    | inl f ↦
        let same : u ≡ t = some-injective u t (rw f at e) in
        let at : u.address ≡ a = ground (arith, f) in rw (← at, ← same) h.0
    | inr f ↦ find-All a ts t h.1 (rw f at e)
  ]

module _ {J : Type 0} (Q R : ℕ → Bytes → Type 0) (f : (a : ℕ) (k : Bytes) → Q a k → R a k) where
  pub map-AllTasks : (slots : List (List (Task J))) → AllTasks Q slots → AllTasks R slots
  map-AllTasks [] h = tt
  map-AllTasks (ts ∷ slots) h = (
    All-map (λ t. Q t.address t.key) (λ t. R t.address t.key) ts (λ t. f t.address t.key) h.0,
    map-AllTasks slots h.1,
  )
