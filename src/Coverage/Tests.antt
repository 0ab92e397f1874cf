-- ===== src/Coverage/Tests.antt =====
-- Runs of the coverage service, and its theorems at concrete ranges.
use spectrum_knx.Prelude.{◌≡◌, refl, not, ◌&&◌, ◌||◌, some, List, [], ◌∷◌, leb, sort, arith}
use spectrum_knx.Coverage.{Coverage, empty, add_covered, gaps}
use spectrum_knx.Coverage.Points.{covers, IsSeparated}
use spectrum_knx.Coverage.Merge.{covers-add_covered}
use spectrum_knx.Coverage.Live.{Call, add, trim_to, extend, close, run}
use spectrum_knx.Coverage.Refines.{times_of, replay, run_refines}

abbrev two : Coverage
two = record { covered = (10, 20) ∷ (40, 50) ∷ []; live_start = some 45 }

abbrev two-IsSeparated : IsSeparated two.covered
two-IsSeparated = omega arith

gaps_between : gaps two 5 60 ≡ (5, 9) ∷ (21, 39) ∷ (51, 60) ∷ []
unfolding gaps
gaps_between = refl

gaps_inside : gaps two 12 18 ≡ []
unfolding gaps
gaps_inside = refl

-- touching end points are merged, and neighbouring milliseconds are not
add_touching : (add_covered two 20 39).covered ≡ (10, 39) ∷ (40, 50) ∷ []
unfolding add_covered sort
add_touching = refl

add_over_all : (add_covered two 15 45).covered ≡ (10, 50) ∷ []
unfolding add_covered sort
add_over_all = refl

covers-add_covered_example :
    covers (add_covered two 20 30).covered 25 ≡ (covers two.covered 25 || (leb 20 25 && leb 25 30))
covers-add_covered_example = covers-add_covered two 20 30 25

abbrev calls : List Call
calls = add 5 9 ∷ extend 20 ∷ extend 30 ∷ close ∷ trim_to 7 ∷ add 9 20 ∷ []

run_refines_example :
    (times_of (run empty calls) ≡ replay calls (times_of empty))
    × IsSeparated (run empty calls).covered
    × (covers (gaps (run empty calls) 0 40) 35
        ≡ ((leb 0 35 && leb 35 40) && not ((replay calls (times_of empty)).holds 35)))
run_refines_example = run_refines calls empty 0 40 35 tt
