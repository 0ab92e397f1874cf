-- ===== src/Coverage/Live.antt =====
-- `trim`, `extendLive`, `closeLive` and `clear` of
-- frontend/src/services/telegram-coverage-service.ts, and the invariant of the service.
use spectrum_knx.Prelude.{
  ℕ, ◌≤◌, ◌<◌, ◌≡◌, refl, ◌&&◌, ◌||◌, List, [], ◌∷◌, map, arith, leb, filter, Bool-cases, inl, inr,
  leb→le,
}
use spectrum_knx.Coverage
use spectrum_knx.Coverage.{
  Interval, Coverage, clip, anchor, add_covered, trim, extend_live, close_live,
}
use spectrum_knx.Coverage.Points.{covers, Follows, IsSeparated}
use spectrum_knx.Coverage.Merge.{covers-add_covered, add_covered-IsSeparated}

abbrev clipped : ℕ → List Interval → List Interval
clipped floor l = map (clip floor) (filter (λ i. leb floor i.1) l)

covers-clipped :
    (floor p : ℕ) (l : List Interval) → covers (clipped floor l) p ≡ (covers l p && leb floor p)
unfolding clip
covers-clipped floor p [] = refl
covers-clipped floor p ((s, e) ∷ l) = ground (arith, covers-clipped floor p l)

Follows-clipped :
    (x floor e : ℕ) (l : List Interval)
    → e ≤ x
    → Follows e l
    → IsSeparated l
    → floor ≤ e
    → Follows e (clipped floor l)
unfolding clip
Follows-clipped x floor e [] h f w k = tt
Follows-clipped x floor e ((s, t) ∷ l) h f w k = elim (Bool-cases (leb floor t)) [
  | inl m ↦ rw m (omega arith)
  | inr m ↦ absurd (ground arith)
]

clipped-IsSeparated :
    (floor : ℕ) (l : List Interval) → IsSeparated l → IsSeparated (clipped floor l)
unfolding clip
clipped-IsSeparated floor [] w = tt
clipped-IsSeparated floor ((s, e) ∷ l) w = elim (Bool-cases (leb floor e)) [
  | inl m ↦ rw m (
    ground arith,
    Follows-clipped e floor e l (omega arith) w.1 w.2 (leb→le _ _ m),
    clipped-IsSeparated floor l w.2,
  )
  | inr m ↦ rw m (clipped-IsSeparated floor l w.2)
]

-- `trim` keeps exactly the covered points from the floor on.
pub covers-trim :
    (c : Coverage) (floor p : ℕ)
    → covers (trim c floor).covered p ≡ (covers c.covered p && leb floor p)
unfolding trim
covers-trim c floor p = covers-clipped floor p c.covered

-- `extend_live` covers the time from the anchor of the live interval up to now, and nothing else.
pub covers-extend_live :
    (c : Coverage) (ts p : ℕ)
    → covers (extend_live c ts).covered p
      ≡ (covers c.covered p || (leb (anchor c.live_start ts) p && leb p ts))
unfolding extend_live
covers-extend_live c ts p = covers-add_covered _ (anchor c.live_start ts) ts p

-- The time between closing the live interval and the next telegram stays a gap: strictly between
-- the last telegram before the close and the first one after it, nothing becomes covered.
pub offline_gap :
    (c : Coverage) (t u p : ℕ)
    → t < p
    → p < u
    → covers (extend_live (close_live (extend_live c t)) u).covered p ≡ covers c.covered p
unfolding close_live anchor
offline_gap c t u p a b =
    ground (arith, covers-extend_live (close_live (extend_live c t)) u p, covers-extend_live c t p)

-- the methods that change the service
pub data Call : Type 0 where
  add : ℕ → ℕ → Call
  trim_to : ℕ → Call
  extend : ℕ → Call
  close : Call
  wipe : Call

unfoldable pub run : Coverage → List Call → Coverage
run c [] = c
run c (add s e ∷ l) = run (add_covered c s e) l
run c (trim_to floor ∷ l) = run (trim c floor) l
run c (extend ts ∷ l) = run (extend_live c ts) l
run c (close ∷ l) = run (close_live c) l
run c (wipe ∷ l) = run (Coverage.clear c) l

-- Whatever methods are called in whatever order, covered intervals that are sorted, nonempty and
-- apart from one another stay so.
pub run-IsSeparated :
    (c : Coverage) (l : List Call) → IsSeparated c.covered → IsSeparated (run c l).covered
unfolding run trim extend_live close_live Coverage.clear
run-IsSeparated c [] w = w
run-IsSeparated c (add s e ∷ l) w =
    run-IsSeparated (add_covered c s e) l (add_covered-IsSeparated c s e w)
run-IsSeparated c (trim_to floor ∷ l) w =
    run-IsSeparated (trim c floor) l (clipped-IsSeparated floor c.covered w)
run-IsSeparated c (extend ts ∷ l) w =
    run-IsSeparated (extend_live c ts) l (add_covered-IsSeparated _ (anchor c.live_start ts) ts w)
run-IsSeparated c (close ∷ l) w = run-IsSeparated (close_live c) l w
run-IsSeparated c (wipe ∷ l) w = run-IsSeparated (Coverage.clear c) l tt
