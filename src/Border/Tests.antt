-- ===== src/Border/Tests.antt =====
-- Runs of the borders, and their theorems at concrete inputs.
use hayakv.Base.{◌≡◌, refl, Bool, true, false, ◌&&◌, none, some, List, [], ◌∷◌}
use hayakv.Base.Int.{ℤ, pos, ℤ_LinOrd}
use hayakv.Base.Classes.{Bytes, bytes_eq}
use hayakv.Border.{
  finite, ScoreBorder, LexBorder, score_greater, score_less, score_is_intersected,
  parse_score_border, parse_lex_border, has_in_range,
}
use hayakv.Border.Ranges.{score_is_intersected_lem, has_in_range_open}

abbrev at : ℤ → Bool → ScoreBorder ℤ
at v exclude = record { inf = finite; value = v; exclude = exclude }

abbrev member_at : Bytes → Bool → LexBorder
member_at v exclude = record { inf = finite; value = v; exclude = exclude }

exclusive : parse_lex_border (40 ∷ 97 ∷ []) ≡ some (member_at (97 ∷ []) true)
unfolding parse_lex_border bytes_eq
exclusive = refl

score_is_intersected_lem_example :
    (score_less (at (pos 5) true) (pos 5) && score_greater (at (pos 5) false) (pos 5)) ≡ false
unfolding score_is_intersected
score_is_intersected_lem_example =
    score_is_intersected_lem (at (pos 5) true) (at (pos 5) false) (pos 5) refl refl refl

has_in_range_open_example :
    (max : ScoreBorder ℤ) × (parse_score_border (pos 0) (λ s. none) (43 ∷ 105 ∷ 110 ∷ 102 ∷ [])
      ≡ some max)
    × ((scores : List ℤ) → has_in_range (at (pos 3) false) max scores ≡ false)
    × ((score : ℤ)
        → (score_less (at (pos 3) false) score && score_greater max score)
          ≡ score_less (at (pos 3) false) score)
has_in_range_open_example = has_in_range_open (pos 0) (λ s. none) (at (pos 3) false) refl refl
