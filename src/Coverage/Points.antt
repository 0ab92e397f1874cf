-- ===== src/Coverage/Points.antt =====
-- The meaning of a list of intervals: the points that it covers, and the shape that the service
-- keeps it in.
use spectrum_knx.Prelude.{ℕ, ◌≤◌, ◌<◌, ◌≡◌, refl, Bool, false, ◌&&◌, List, [], ◌∷◌, arith, leb, any}
use spectrum_knx.Coverage.{Interval}

abbrev pub holds : ℕ → Interval → Bool
holds p (s, e) = leb s p && leb p e

-- the point lies in one of the intervals
abbrev pub covers : List Interval → ℕ → Bool
covers l p = any (holds p) l

abbrev pub Follows : ℕ → List Interval → Type 0
Follows e [] = Unit
Follows e ((s, _) ∷ _) = e < s

-- sorted, no interval empty, and a point between any two of them that is left out or not
abbrev pub IsSeparated : List Interval → Type 0
IsSeparated [] = Unit
IsSeparated ((s, e) ∷ rest) = (s ≤ e) × Follows e rest × IsSeparated rest

-- before the first interval of a separated list nothing is covered
pub covers_before :
    (p s e : ℕ) (rest : List Interval)
    → IsSeparated ((s, e) ∷ rest)
    → p < s
    → covers ((s, e) ∷ rest) p ≡ false
covers_before p s e [] w h = ground arith
covers_before p s e ((t, f) ∷ rest) w h = ground (arith, covers_before p t f rest w.2)

pub covers-Follows :
    (p e : ℕ) (rest : List Interval)
    → IsSeparated rest
    → Follows e rest
    → p ≤ e
    → covers rest p ≡ false
covers-Follows p e [] w f h = refl
covers-Follows p e ((t, g) ∷ rest) w f h = covers_before p t g rest w (omega arith)
