-- ===== src/Selections/Tests.antt =====
-- The small stores at concrete addresses.
use spectrum_knx.Prelude.{some, ◌≡◌, refl, true, false, [], ◌∷◌}
use spectrum_knx.Selections.{adjacent_mark, find_after, find_last_before, first_of, or_number}

wraps_around : adjacent_mark (2 ∷ 5 ∷ 9 ∷ []) 9 true ≡ some 2
unfolding adjacent_mark find_after first_of or_number
wraps_around = refl

goes_back : adjacent_mark (2 ∷ 5 ∷ 9 ∷ []) 9 false ≡ some 5
unfolding adjacent_mark find_last_before or_number
goes_back = refl
