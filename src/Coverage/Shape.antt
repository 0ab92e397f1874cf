-- ===== src/Coverage/Shape.antt =====
-- The shape of what `gaps` returns, and `isCovered`, of
-- frontend/src/services/telegram-coverage-service.ts.
use spectrum_knx.Prelude.{
  ℕ, ◌+◌, ◌-◌, ◌≤◌, ◌<◌, max, ◌≡◌, refl, ◌↔◌, true, false, ◌||◌, List, [], ◌∷◌, ◌++◌, arith, leb,
  ltb, All, Bool-cases, inl, inr, if◌then◌else◌, leb→le, le→leb, ltb→lt, not-ltb→le,
}
use spectrum_knx.Coverage.{
  Interval, Coverage, last_gap, gap_loop, gaps, is_covered, is_empty, add_covered,
}
use spectrum_knx.Coverage.Points.{covers, IsSeparated}
use spectrum_knx.Coverage.Merge.{covers-add_covered, add_covered-IsSeparated}
use spectrum_knx.Coverage.Gaps.{covers-gaps}

abbrev StartsFrom : ℕ → List Interval → Type 0
StartsFrom c [] = Unit
StartsFrom c ((s, _) ∷ _) = c ≤ s

abbrev EndsBy : ℕ → List Interval → Type 0
EndsBy end = All (λ i. i.1 ≤ end)

-- the shape that the loop's result has
abbrev IsTidy : ℕ → ℕ → List Interval → Type 0
IsTidy cursor end l = IsSeparated l × StartsFrom cursor l × EndsBy end l

IsTidy-weaken : (c d end : ℕ) (l : List Interval) → c ≤ d → IsTidy d end l → IsTidy c end l
IsTidy-weaken c d end [] h t = (tt, tt, tt)
IsTidy-weaken c d end ((s, e) ∷ l) h t = (t.0, omega arith, t.2)

last_gap-IsTidy : (cursor end : ℕ) → IsTidy cursor end (last_gap cursor end)
unfolding last_gap
last_gap-IsTidy cursor end = elim (Bool-cases (leb cursor end)) [
  | inl h ↦ rw h ((leb→le _ _ h, tt, tt), omega arith, (omega arith, tt))
  | inr h ↦ rw h (tt, tt, tt)
]

before-IsTidy :
    (cursor end s e : ℕ) (l : List Interval)
    → s ≤ e
    → s ≤ end
    → IsTidy (max cursor (e + 1)) end l
    → IsTidy cursor end ((if ltb cursor s then (cursor, s - 1) ∷ [] else []) ++ l)
before-IsTidy cursor end s e l se k t = elim (Bool-cases (ltb cursor s)) [
  | inl h ↦ rw h (go l t (ltb→lt _ _ h))
  | inr h ↦ rw h (IsTidy-weaken cursor (max cursor (e + 1)) end l (omega arith) t)
]
  where
    go :
        (l : List Interval)
        → IsTidy (max cursor (e + 1)) end l
        → cursor < s
        → IsTidy cursor end ((cursor, s - 1) ∷ l)
    go [] t h = ((omega arith, tt, tt), omega arith, (omega arith, tt))
    go ((a, b) ∷ l) t h = ((omega arith, omega arith, t.0), omega arith, (omega arith, t.2))

gap_loop-IsTidy :
    (cursor end : ℕ) (l : List Interval) → IsSeparated l → IsTidy cursor end (gap_loop cursor end l)
unfolding gap_loop
gap_loop-IsTidy cursor end [] w = last_gap-IsTidy cursor end
gap_loop-IsTidy cursor end ((s, e) ∷ rest) w = elim (Bool-cases (ltb e cursor)) [
  | inl h ↦ rw h (gap_loop-IsTidy cursor end rest w.2)
  | inr h ↦ elim (Bool-cases (ltb end s)) [
    | inl k ↦ rw (h, k) (last_gap-IsTidy cursor end)
    | inr k ↦ elim (Bool-cases (ltb end (max cursor (e + 1)))) [
      | inl m ↦
          rw (h, k, m)
            (before-IsTidy cursor end s e _ w.0 (not-ltb→le end s k) (last_gap-IsTidy _ end))
      | inr m ↦
          rw (h, k, m)
            (before-IsTidy cursor end s e _ w.0 (not-ltb→le end s k)
              (gap_loop-IsTidy (max cursor (e + 1)) end rest w.2))
    ]
  ]
]

-- While the covered intervals are in order and apart, so are the gaps; they are not empty, and
-- lie within the request.
pub gaps-IsSeparated :
    (c : Coverage) (start end : ℕ)
    → IsSeparated c.covered
    → IsSeparated (gaps c start end) × All (λ g. (start ≤ g.0) × (g.1 ≤ end)) (gaps c start end)
unfolding gaps
gaps-IsSeparated c start end w = elim (Bool-cases (ltb end start)) [
  | inl e ↦ rw e (tt, tt)
  | inr e ↦ rw e (let t = gap_loop-IsTidy start end c.covered w in (t.0, within start _ t))
]
  where
    within :
        (from : ℕ) (l : List Interval) → IsTidy from end l → All (λ g. (from ≤ g.0) × (g.1 ≤ end)) l
    within from [] t = tt
    within from ((s, e) ∷ []) t = ((t.1, t.2.0), tt)
    within from ((s, e) ∷ (u, f) ∷ l) t =
        ((t.1, t.2.0), within from ((u, f) ∷ l) (t.0.2, omega arith, t.2.1))

-- a list of nonempty intervals that covers no point is empty
is_empty_of_covers :
    (l : List Interval) → IsSeparated l → ((p : ℕ) → covers l p ≡ false) → is_empty l ≡ true
unfolding is_empty
is_empty_of_covers [] w h = refl
is_empty_of_covers ((s, e) ∷ l) w h = ground (arith, h s)

covers_of_is_empty : (l : List Interval) → is_empty l ≡ true → (p : ℕ) → covers l p ≡ false
unfolding is_empty
covers_of_is_empty [] h p = refl
covers_of_is_empty (i ∷ l) h p = cc

-- While the covered intervals are in order and apart, the service says that a range is covered
-- exactly when each of its points is.
pub is_covered_iff :
    (c : Coverage) (start end : ℕ)
    → IsSeparated c.covered
    → (is_covered c start end ≡ true) ↔ ((p : ℕ) → start ≤ p → p ≤ end → covers c.covered p ≡ true)
unfolding is_covered
is_covered_iff c start end w = (
  λ h p a b. ground (
    arith,
    covers-gaps c start end p w,
    covers_of_is_empty (gaps c start end) h p,
    le→leb start p a,
    le→leb p end b,
  ),
  λ h. is_empty_of_covers (gaps c start end) (gaps-IsSeparated c start end w).0 (λ p.
      elim (Bool-cases (leb start p)) [
        | inl a ↦ elim (Bool-cases (leb p end)) [
          | inl b ↦ rw (covers-gaps c start end p w, a, b, h p (leb→le _ _ a) (leb→le _ _ b))
          | inr b ↦ rw (covers-gaps c start end p w, a, b)
        ]
        | inr a ↦ rw (covers-gaps c start end p w, a)
      ]),
)

-- each interval of the list is covered in turn, as the loads of the gaps do
pub add_all : Coverage → List Interval → Coverage
add_all c [] = c
add_all c ((s, e) ∷ l) = add_all (add_covered c s e) l

add_all-IsSeparated :
    (c : Coverage) (l : List Interval) → IsSeparated c.covered → IsSeparated (add_all c l).covered
unfolding add_all
add_all-IsSeparated c [] w = w
add_all-IsSeparated c ((s, e) ∷ l) w =
    add_all-IsSeparated (add_covered c s e) l (add_covered-IsSeparated c s e w)

covers-add_all :
    (c : Coverage) (l : List Interval) (p : ℕ)
    → covers (add_all c l).covered p ≡ (covers c.covered p || covers l p)
unfolding add_all
covers-add_all c [] p = ground arith
covers-add_all c ((s, e) ∷ l) p =
    ground (arith, covers-add_all (add_covered c s e) l p, covers-add_covered c s e p)

-- While the covered intervals are in order and apart, covering every gap of a request makes the
-- request covered.
pub gaps_fill :
    (c : Coverage) (start end : ℕ)
    → IsSeparated c.covered
    → is_covered (add_all c (gaps c start end)) start end ≡ true
gaps_fill c start end w =
    (is_covered_iff _ start end (add_all-IsSeparated c (gaps c start end) w)).1 (λ p a b. ground (
      arith,
      covers-add_all c (gaps c start end) p,
      covers-gaps c start end p w,
      le→leb start p a,
      le→leb p end b,
    ))
