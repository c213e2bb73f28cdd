-- ===== src/Border/Ranges.antt =====
-- When a range of scores or of members is empty.
use hayakv.Base.{
  ◌≡◌, refl, ap, Bool, true, false, ◌&&◌, ◌||◌, not, Option, some, List, [], ◌∷◌, if◌then◌else◌,
  arith,
}
use hayakv.Base.Classes.{Bytes, LinOrd}
use hayakv.Border.{
  finite, positive_inf, ScoreBorder, LexBorder, Bytes_LinOrd, score_greater, score_less,
  score_is_intersected, parse_score_border, lex_greater, lex_less, lex_is_intersected, has_in_range,
}

module _ {F : Type 0} ⦃o : LinOrd F⦄ where
  equal_above : (a b x : F) → o.eq a b ≡ true → o.le x a ≡ o.le x b
  equal_above a b x e = ap (λ v. o.le x v) ((o.eq_iff a b).0 e)

  equal_below : (a b x : F) → o.eq a b ≡ true → o.le a x ≡ o.le b x
  equal_below a b x e = ap (λ v. o.le v x) ((o.eq_iff a b).0 e)

  -- no element is both above the lower value and below the upper one
  apart :
      (a b x : F) (open_low open_high : Bool)
      → (not (o.le a b) || o.eq a b && (open_low || open_high)) ≡ true
      → ((if open_low then not (o.le x a) else o.le a x)
          && (if open_high then not (o.le b x) else o.le x b))
        ≡ false
  apart a b x open_low open_high h =
      ground
        (arith, h, o.trans a x b, o.total a x, o.total x b, equal_above a b x, equal_below a b x)

-- If `isIntersected` holds of two finite borders, no score passes both of them.
pub score_is_intersected_lem :
    {F : Type 0}
    → ⦃o : LinOrd F⦄ → (min max : ScoreBorder F) (score : F) → min.inf ≡ finite
    → max.inf ≡ finite
    → score_is_intersected min max ≡ true
    → (score_less min score && score_greater max score) ≡ false
unfolding score_is_intersected score_less score_greater
score_is_intersected_lem {F} ⦃o⦄ min max score p q h =
    rw (score_less, p, score_greater, q) (apart min.value max.value score min.exclude max.exclude h)

-- With a positive finite lower border and the upper border that `+inf` is parsed to, `hasInRange` says
-- of every list of scores that none is in the range; yet every score that passes the lower border
-- passes both.
pub has_in_range_open :
    {F : Type 0}
    → ⦃o : LinOrd F⦄ → (zero_score : F) (parse_float : Bytes → Option F) (min : ScoreBorder F)
    → min.inf ≡ finite
    → o.le min.value zero_score ≡ false
    → (max : ScoreBorder F) × (parse_score_border zero_score parse_float (43 ∷ 105 ∷ 110 ∷ 102 ∷ [])
        ≡ some max)
      × ((scores : List F) → has_in_range min max scores ≡ false)
      × ((score : F) → (score_less min score && score_greater max score) ≡ score_less min score)
unfolding has_in_range parse_score_border score_is_intersected score_greater
has_in_range_open {F} ⦃o⦄ zero_score parse_float min p above = (
  record { inf = positive_inf; value = zero_score; exclude = false },
  refl,
  λ scores. rw above,
  λ score. ground arith,
)

-- If `isIntersected` holds of two finite borders of members, no member passes both of them.
pub lex_is_intersected_lem :
    (min max : LexBorder) (member : Bytes)
    → min.inf ≡ finite
    → max.inf ≡ finite
    → lex_is_intersected min max ≡ true
    → (lex_less min member && lex_greater max member) ≡ false
unfolding lex_is_intersected lex_less lex_greater
lex_is_intersected_lem min max member p q h =
    rw (lex_less, p, lex_greater, q)
      (apart min.value max.value member min.exclude max.exclude (rw (lex_is_intersected, p) at h))
