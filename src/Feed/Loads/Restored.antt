-- ===== src/Feed/Loads/Restored.antt =====
-- What the restored intervals of frontend/src/hooks/useTelegramCache.ts cover.
use spectrum_knx.Prelude.{ℕ, ◌≡◌, ◌||◌, List, [], ◌∷◌, arith}
use spectrum_knx.Coverage.{Interval, Coverage, add_covered}
use spectrum_knx.Coverage.Points.{covers, IsSeparated}
use spectrum_knx.Coverage.Merge.{covers-add_covered, add_covered-IsSeparated}
use spectrum_knx.Feed.Loads.{restore_coverage}

-- Restoring any persisted intervals gives a coverage in order, with exactly the points of the old
-- one and of the intervals.
pub restore_coverage_lem :
    (intervals : List Interval) (c : Coverage) (p : ℕ)
    → IsSeparated c.covered
    → IsSeparated (restore_coverage intervals c).covered
      × (covers (restore_coverage intervals c).covered p
          ≡ (covers c.covered p || covers intervals p))
unfolding restore_coverage
restore_coverage_lem [] c p w = (w, ground arith)
restore_coverage_lem ((s, e) ∷ intervals) c p w =
    let (v, h) =
      restore_coverage_lem intervals (add_covered c s e) p (add_covered-IsSeparated c s e w) in
    (v, ground (arith, h, covers-add_covered c s e p))
