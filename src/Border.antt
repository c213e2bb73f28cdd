-- ===== src/Border.antt =====
-- internal/datastruct/sortedset/border.go, and `hasInRange` of skiplist.go: the bounds of the range
-- queries on a sorted set. A float64 that is not NaN is an element of a type with a total order, of
-- which `zero` is the zero; `strconv.ParseFloat` is a parameter. An error and a panic are `none`.
pub mod Ranges
pub mod Tests
use hayakv.Base.{
  ℕ, zero, suc, Bool, true, false, ◌&&◌, ◌||◌, not, Option, none, some, List, [], ◌∷◌,
  if◌then◌else◌, nat_eq, ltb, ◌>>=◌, ◌≡◌, refl, ◌↔◌, arith, nat_eq_iff,
}
use hayakv.Base.Classes.{Bytes, bytes_eq, bytes_eq_iff, LinOrd}

-- Go's order of strings
unfoldable pub bytes_le : Bytes → Bytes → Bool
bytes_le [] ys = true
bytes_le (x ∷ xs) [] = false
bytes_le (x ∷ xs) (y ∷ ys) = ltb x y || nat_eq x y && bytes_le xs ys

pub bytes_le_total : (a b : Bytes) → (bytes_le a b || bytes_le b a) ≡ true
unfolding bytes_le
bytes_le_total [] ys = ground arith
bytes_le_total (x ∷ xs) [] = ground arith
bytes_le_total (x ∷ xs) (y ∷ ys) = ground (arith, bytes_le_total xs ys)

pub bytes_le_trans :
    (a b c : Bytes) → bytes_le a b ≡ true → bytes_le b c ≡ true → bytes_le a c ≡ true
unfolding bytes_le
bytes_le_trans [] b c h k = ground arith
bytes_le_trans (x ∷ xs) [] c h k = ground arith
bytes_le_trans (x ∷ xs) (y ∷ ys) [] h k = ground arith
bytes_le_trans (x ∷ xs) (y ∷ ys) (z ∷ zs) h k = ground (arith, h, k, bytes_le_trans xs ys zs)

pub bytes_le_antisym : (a b : Bytes) → bytes_le a b ≡ true → bytes_le b a ≡ true → a ≡ b
unfolding bytes_le
bytes_le_antisym [] [] h k = refl
bytes_le_antisym [] (y ∷ ys) h k = absurd (ground (arith, k))
bytes_le_antisym (x ∷ xs) [] h k = absurd (ground (arith, h))
bytes_le_antisym (x ∷ xs) (y ∷ ys) h k = ground (arith, h, k, bytes_le_antisym xs ys)

instance abbrev pub Bytes_LinOrd : LinOrd Bytes
Bytes_LinOrd = record {
  le = bytes_le;
  eq = bytes_eq;
  eq_iff = bytes_eq_iff;
  total = bytes_le_total;
  trans = bytes_le_trans;
  antisymm = bytes_le_antisym;
}

-- the field `Inf` of a border
pub data Inf : Type 0 where
  negative_inf : Inf
  finite : Inf
  positive_inf : Inf

pub record ScoreBorder (F : Type 0) : Type 0 where
  pub inf : Inf
  pub value : F
  pub exclude : Bool

module _ {F : Type 0} ⦃o : LinOrd F⦄ where
  -- `border.greater(element)`, of the element's score
  unfoldable pub score_greater : ScoreBorder F → F → Bool
  score_greater border score = elim border.inf [
    | negative_inf ↦ false
    | positive_inf ↦ true
    | finite ↦ if border.exclude then not (o.le border.value score) else o.le score border.value
  ]

  unfoldable pub score_less : ScoreBorder F → F → Bool
  score_less border score = elim border.inf [
    | negative_inf ↦ true
    | positive_inf ↦ false
    | finite ↦ if border.exclude then not (o.le score border.value) else o.le border.value score
  ]

  unfoldable pub score_is_intersected : ScoreBorder F → ScoreBorder F → Bool
  score_is_intersected border max =
      not (o.le border.value max.value)
      || o.eq border.value max.value && (border.exclude || max.exclude)

-- a literal without its `(`, and whether it had one
abbrev pub strip : Bytes → Option (Bool × Bytes)
strip [] = none
strip (c ∷ cs) = if nat_eq c 40 then some (true, cs) else some (false, c ∷ cs)

-- `ParseScoreBorder`: the infinite borders have the zero value; an empty argument panics
unfoldable pub parse_score_border :
    {F : Type 0} → F → (Bytes → Option F) → Bytes → Option (ScoreBorder F)
unfolding bytes_eq
parse_score_border zero_score parse_float s =
    if bytes_eq s (105 ∷ 110 ∷ 102 ∷ []) || bytes_eq s (43 ∷ 105 ∷ 110 ∷ 102 ∷ [])
    then some (record { inf = positive_inf; value = zero_score; exclude = false })
    else if bytes_eq s (45 ∷ 105 ∷ 110 ∷ 102 ∷ [])
    then some (record { inf = negative_inf; value = zero_score; exclude = false })
    else (do
      r ← strip s
      value ← parse_float r.1
      some (record { inf = finite; value = value; exclude = r.0 }))

pub record LexBorder : Type 0 where
  pub inf : Inf
  pub value : Bytes
  pub exclude : Bool

-- `border.greater(element)`, of the element's member
unfoldable pub lex_greater : LexBorder → Bytes → Bool
unfolding bytes_le
lex_greater border member = elim border.inf [
  | negative_inf ↦ false
  | positive_inf ↦ true
  | finite ↦
      if border.exclude then not (bytes_le border.value member) else bytes_le member border.value
]

unfoldable pub lex_less : LexBorder → Bytes → Bool
unfolding bytes_le
lex_less border member = elim border.inf [
  | negative_inf ↦ true
  | positive_inf ↦ false
  | finite ↦
      if border.exclude then not (bytes_le member border.value) else bytes_le border.value member
]

-- `ParseLexBorder`: an empty argument panics, and one without `(` or `[` is an error
unfoldable pub parse_lex_border : Bytes → Option LexBorder
unfolding bytes_eq
parse_lex_border [] = none
parse_lex_border (c ∷ cs) =
    if bytes_eq (c ∷ cs) (43 ∷ [])
    then some (record { inf = positive_inf; value = []; exclude = false })
    else if bytes_eq (c ∷ cs) (45 ∷ [])
    then some (record { inf = negative_inf; value = []; exclude = false })
    else if nat_eq c 40
    then some (record { inf = finite; value = cs; exclude = true })
    else if nat_eq c 91
    then some (record { inf = finite; value = cs; exclude = false })
    else none

abbrev pub is_positive : Inf → Bool
is_positive negative_inf = false
is_positive finite = false
is_positive positive_inf = true

unfoldable pub lex_is_intersected : LexBorder → LexBorder → Bool
unfolding bytes_le bytes_eq
lex_is_intersected border max =
    is_positive border.inf
    || not (bytes_le border.value max.value)
    || bytes_eq border.value max.value && (border.exclude || max.exclude)

abbrev pub last_of {ℓ} : {A : Type ℓ} → List A → Option A
last_of [] = none
last_of (x ∷ []) = some x
last_of (x ∷ y ∷ ys) = last_of (y ∷ ys)

abbrev pub first_of {ℓ} : {A : Type ℓ} → List A → Option A
first_of [] = none
first_of (x ∷ xs) = some x

abbrev pub passes {ℓ} : {A : Type ℓ} → (A → Bool) → Option A → Bool
passes test none = false
passes test (some x) = test x

-- `hasInRange` for scores, on the ascending scores of the skiplist
unfoldable pub has_in_range :
    {F : Type 0} → ⦃o : LinOrd F⦄ → ScoreBorder F → ScoreBorder F → List F → Bool
unfolding score_is_intersected score_less score_greater
has_in_range min max scores =
    if score_is_intersected min max
    then false
    else passes (score_less min) (last_of scores) && passes (score_greater max) (first_of scores)
