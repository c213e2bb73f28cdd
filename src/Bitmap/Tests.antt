-- ===== src/Bitmap/Tests.antt =====
-- Runs of the bitmap, and its theorem at a concrete input.
use hayakv.Base.{◌≡◌, refl, [], ◌∷◌, ltb, nat_eq, if◌then◌else◌}
use hayakv.Bitmap.{set_bit, get_bit}
use hayakv.Bitmap.Laws.{get_bit-set_bit}

high_bit_first : set_bit (set_bit [] 0 1) 9 1 ≡ 128 ∷ 64 ∷ []
unfolding set_bit
high_bit_first = refl

get_bit-set_bit_example :
    get_bit (set_bit (129 ∷ []) 7 0) 0
    ≡ (if nat_eq 7 0 then (if ltb 0 0 then 1 else 0) else get_bit (129 ∷ []) 0)
get_bit-set_bit_example = get_bit-set_bit (129 ∷ []) 7 0 0
