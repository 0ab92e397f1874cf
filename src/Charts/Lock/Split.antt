-- ===== src/Charts/Lock/Split.antt =====
-- What locking a chart in frontend/src/utils/chartLock.ts keeps.
use mathlib.Core.List.{flatten, append-nil}
use spectrum_knx.Prelude.{
  ℕ, zero, suc, ◌+◌, ◌-◌, ◌≡◌, refl, ap, sym, ◌∙◌, true, Option, none, some, List, [], ◌∷◌, ◌++◌,
  map, ltb, leb, length, take, drop, take-append-drop, sort, sort-IsOrdered, IsOrder, IsOrdered,
  All, All-of, Text, arith,
}
use spectrum_knx.Charts.{ChartSeries, ChartBucket}
use spectrum_knx.Charts.Lock.{
  DisplayBucket, slice, slices_from, series_by_addr, push_some, pick, non_empty, number_groups,
  split_bucket,
}

take_nil : (n : ℕ) → take {A = Text} n [] ≡ []
take_nil zero = refl
take_nil (suc n) = refl

-- a slice, and what follows it
slice-drop :
    (start n t : ℕ) (l : List Text)
    → t ≡ start + n
    → take n (drop start l) ++ drop t l ≡ drop start l
slice-drop zero n t l e = let same : t ≡ n = omega arith in rw same (take-append-drop n l)
slice-drop (suc start) n zero l e = absurd (omega arith)
slice-drop (suc start) n (suc t) [] e = rw (take_nil n)
slice-drop (suc start) n (suc t) (x ∷ l) e = slice-drop start n t l (omega arith)

-- the slices together are the list from the first start on
flatten-slices_from :
    (start : ℕ) (thresholds : List ℕ) (ordered : List Text)
    → All (λ t. leb start t ≡ true) thresholds
    → IsOrdered leb thresholds
    → flatten (slices_from start thresholds ordered) ≡ drop start ordered
unfolding slices_from flatten
flatten-slices_from start [] ordered h o = append-nil (drop start ordered)
flatten-slices_from start (t ∷ thresholds) ordered h o =
    ap (◌++◌ (slice start t ordered)) (flatten-slices_from t thresholds ordered o.0 o.1)
    ∙ slice-drop start (t - start) t ordered (ground (arith, h.0))

flatten-non_empty : (slices : List (List Text)) → flatten (non_empty slices) ≡ flatten slices
unfolding non_empty flatten
flatten-non_empty [] = refl
flatten-non_empty ([] ∷ slices) = flatten-non_empty slices
flatten-non_empty ((a ∷ s) ∷ slices) =
    let some_text : ltb 0 (length (a ∷ s)) ≡ true = ground arith in
    rw some_text (ap (◌++◌ (a ∷ s)) (flatten-non_empty slices))

push_some-append :
    (o : Option ChartSeries) (xs ys : List ChartSeries)
    → push_some o (xs ++ ys) ≡ push_some o xs ++ ys
unfolding push_some
push_some-append none xs ys = refl
push_some-append (some s) xs ys = refl

pick-append :
    (series : List ChartSeries) (xs ys : List Text)
    → pick series (xs ++ ys) ≡ pick series xs ++ pick series ys
unfolding pick
pick-append series [] ys = refl
pick-append series (a ∷ xs) ys =
    ap (push_some (series_by_addr series a)) (pick-append series xs ys)
    ∙ push_some-append (series_by_addr series a) (pick series xs) (pick series ys)

-- the series of the charts, one chart after the other
abbrev pub series_of : List DisplayBucket → List ChartSeries
series_of charts = flatten (map (λ (d : DisplayBucket). d.bucket.series) charts)

series_of-number_groups :
    (b : ChartBucket) (n i : ℕ) (slices : List (List Text))
    → series_of (number_groups b n i slices) ≡ pick b.series (flatten slices)
unfolding number_groups pick flatten
series_of-number_groups b n i [] = refl
series_of-number_groups b n i (addrs ∷ slices) =
    ap (◌++◌ (pick b.series addrs)) (series_of-number_groups b n (i + 1) slices)
    ∙ sym (pick-append b.series addrs (flatten slices))

leb-IsOrder : IsOrder leb
leb-IsOrder = record { total = λ a b h. ground arith; trans = λ a b c h k. ground arith }

-- Locks divide the series of a bucket among its charts: the charts' series, one chart after the
-- other, are those of the addresses in the order of selection.
pub series_of-split_bucket :
    (ordered : List Text) (thresholds : Option (List ℕ)) (b : ChartBucket)
    → series_of (split_bucket ordered thresholds b) ≡ pick b.series ordered
unfolding split_bucket flatten
series_of-split_bucket ordered none b = append-nil (pick b.series ordered)
series_of-split_bucket ordered (some []) b = append-nil (pick b.series ordered)
series_of-split_bucket ordered (some (t ∷ thresholds)) b =
    let sorted = sort leb (t ∷ thresholds) in
    let slices = slices_from 0 sorted ordered in
    series_of-number_groups b _ 0 (non_empty slices)
    ∙ ap (pick b.series) (
        flatten-non_empty slices
        ∙ flatten-slices_from 0 sorted ordered (All-of _ sorted (λ n. ground arith))
            (sort-IsOrdered leb-IsOrder (t ∷ thresholds)))
