-- ===== src/Peaks/Busiest.antt =====
-- What `peakRate` of frontend/src/utils/peakRate.ts finds.
use native.Mathlib.Decide.{dec_lt}
use spectrum_knx.Prelude.{
  Bool, true, false, zero, ℕ, suc, ◌+◌, ◌-◌, ◌≤◌, ◌<◌, ◌≡◌, ap, sym, ◌∙◌, some, List, [], ◌∷◌,
  arith, ltb, leb, ◌==◌, ◌&&◌, length, filter, All, All-sort,
}
use spectrum_knx.Peaks.{
  PeakRate, Scanned, at, directions_of, indices_from, sorted_indices, order_for, order, scan,
  peak_rate,
}
use spectrum_knx.Peaks.Frequency.{
  freq, freq-le, freq-list, freq_first, freq_window, freq_pos, position_of,
}
use spectrum_knx.Peaks.Sorted.{by_time, by_time-Sorts, length-sorted_indices}
use spectrum_knx.Peaks.Scan.{Known, Known-scan}

-- how many telegrams lie in the window that opens at `t`
abbrev pub in_window : ℕ → ℕ → List ℕ → ℕ
in_window window t times = length (filter (λ x. leb t x && ltb x (t + window)) times)

module _ (window n : ℕ) (f : ℕ → ℕ) (s : Scanned) (positive : 0 < window)
    (mono : (i j : ℕ) → i ≤ j → j < n → f i ≤ f j)
    (known : Known window f n positive mono n s) where
  before : ℕ → ℕ
  before t = freq (λ k. ltb (f k) t) n

  counted : ℕ → ℕ
  counted t = freq (λ k. leb t (f k) && ltb (f k) (t + window)) n

  before_end : (t : ℕ) → before (t + window) ≡ before t + counted t
  unfolding before counted
  before_end t = freq_window f t window n

  before-le : (t : ℕ) → before t ≤ n
  unfolding before
  before-le t = freq-le (λ k. ltb (f k) t) n

  -- the positions before a time are those below `before`
  from_before : (t k : ℕ) → k < n → before t ≤ k → t ≤ f k
  unfolding before
  from_before t k h a = elim (dec_lt (f k) t) [
    | yes b ↦ absurd (omega (arith, (freq_first f t n mono k h).0 b))
    | no b ↦ omega arith
  ]

  below_before : (t k : ℕ) → k < n → k < before t → f k < t
  unfolding before
  below_before t k h a = elim (dec_lt (f k) t) [
    | yes b ↦ b
    | no b ↦ absurd (omega (arith, (freq_first f t n mono k h).1 (omega arith)))
  ]

  in_before : (t k : ℕ) → k < n → f k < t → k < before t
  unfolding before
  in_before t k h a = (freq_first f t n mono k h).0 a

  before_self : (k : ℕ) → k < n → before (f k) ≤ k
  unfolding before
  before_self k h = (freq_first f (f k) n mono k h).1 (omega arith)

  -- the telegrams of a window follow one another
  run_of_window : (t : ℕ) → 0 < counted t → f (before t + counted t - 1) < f (before t) + window
  run_of_window t h =
      let end = before_end t in
      let bound : before (t + window) ≤ n = before-le (t + window) in
      let last : f (before t + counted t - 1) < t + window =
        below_before (t + window) (before t + counted t - 1) (omega arith) (omega arith) in
      omega (arith, last, from_before t (before t) (omega arith) (omega arith))

  no_more : (t : ℕ) → counted t ≤ s.best
  no_more t = elim (dec_lt 0 (counted t)) [
    | yes h ↦ omega (
      arith,
      known.most (before t) (before t + counted t - 1) (omega arith)
          (omega (arith, before_end t, before-le (t + window))) (run_of_window t h),
    )
    | no h ↦ omega arith
  ]

  module _ (some_times : 0 < n) where
    reaches : counted (f s.best_start) ≡ s.best
    reaches =
        let found = known.found some_times in
        let last =
          in_before (f s.best_start + window) (s.best_start + s.best - 1)
            (omega (arith, known.fits, found.0)) found.1 in
        omega (
          arith,
          last,
          before_end (f s.best_start),
          no_more (f s.best_start),
          found.0,
          before_self s.best_start (omega (arith, known.fits, found.0)),
        )

    fewer : (i : ℕ) → i < n → f i < f s.best_start → counted (f i) < s.best
    fewer i h earlier = elim (dec_lt (counted (f i)) s.best) [
      | yes b ↦ b
      | no b ↦
          let found = known.found some_times in
          let a = before (f i) in
          let same : counted (f i) ≡ s.best = omega (arith, no_more (f i)) in
          let start =
            known.first a (a + counted (f i) - 1) (omega (arith, found.0))
              (omega (arith, before_end (f i), before-le (f i + window), found.0))
              (run_of_window (f i) (omega (arith, found.0))) (omega (arith, found.0)) in
          let own = before_self i h in
          absurd (omega (arith, mono s.best_start i (omega (arith, own, start)) h))
    ]

-- the order leads to positions of the input
at-All_lt : (n : ℕ) (xs : List ℕ) → All (λ x. x < n) xs → (k : ℕ) → k < length xs → at xs k < n
unfolding at
at-All_lt n [] h k b = absurd (omega arith)
at-All_lt n (x ∷ xs) h zero b = h.0
at-All_lt n (x ∷ xs) h (suc k) b = at-All_lt n xs h.1 k (omega arith)

indices_from-lt : (k n m : ℕ) → k + n ≤ m → All (λ x. x < m) (indices_from k n)
unfolding indices_from
indices_from-lt k zero m h = tt
indices_from-lt k (suc n) m h = (omega arith, indices_from-lt (suc k) n m (omega arith))

order_for-lt :
    (d : Bool × Bool) (times : List ℕ) (k : ℕ)
    → k < length times
    → order_for d times k < length times
unfolding order_for
order_for-lt (true, desc) times k h = h
order_for-lt (false, true) times k h = omega arith
order_for-lt (false, false) times k h =
    at-All_lt (length times) (sorted_indices times)
      (unfold sorted_indices in
        All-sort _ _ (indices_from 0 (length times))
          (indices_from-lt 0 (length times) (length times) (omega arith)))
      k (omega (arith, length-sorted_indices times))

-- each telegram has a position in the order
position_in_order :
    (times : List ℕ) (i : ℕ)
    → i < length times
    → (k : ℕ) × (k < length times) × (by_time times k ≡ at times i)
position_in_order times i h =
    let is_it : ℕ → Bool = λ y. y == at times i in
    let here = freq_pos (λ k. is_it (at times k)) (length times) i h (ground arith) in
    let there =
      position_of (λ k. is_it (by_time times k)) (length times)
        (omega (arith, here, freq-list is_it times, (by_time-Sorts times).same is_it)) in
    (there.0, there.1, ground (arith, there.2))

-- what the function promises of the burst that it names
pub record IsPeak (times : List ℕ) (window : ℕ) (p : PeakRate) : Type 0 where
  -- the burst is that of the window that opens with the telegram named
  pub within : p.start_idx < length times
  pub counted : in_window window (at times p.start_idx) times ≡ p.count
  -- no window holds more
  pub most : (t : ℕ) → in_window window t times ≤ p.count
  -- an earlier telegram opens a window with fewer
  pub earliest :
      (i : ℕ)
      → i < length times
      → at times i < at times p.start_idx
      → in_window window (at times i) times < p.count

module _ (window : ℕ) (times : List ℕ) (positive : 0 < window) (some_times : 0 < length times) where
  scanned : Scanned
  scanned = scan window (by_time times) (length times)

  peak_of : PeakRate
  peak_of = record { count = scanned.best; start_idx = order times scanned.best_start }

  scanned-IsPeak : IsPeak times window peak_of
  unfolding scanned counted peak_of
  scanned-IsPeak =
      let sorts = by_time-Sorts times in
      let s = scanned in
      let known =
        Known-scan window (by_time times) (length times) positive sorts.mono (length times)
          (omega arith) in
      let count_of : (t : ℕ)
          → counted window (length times) (by_time times) s positive sorts.mono known t
            ≡ in_window window t times =
        λ t. sorts.same (λ x. leb t x && ltb x (t + window)) in
      let found = known.found some_times in
      record {
        within =
            unfold order in
            order_for-lt (directions_of times) times s.best_start
              (omega (arith, known.fits, found.0));
        counted =
            sym (count_of (by_time times s.best_start))
            ∙ reaches window (length times) (by_time times) s positive sorts.mono known some_times;
        most = λ t. omega (
          arith,
          count_of t,
          no_more window (length times) (by_time times) s positive sorts.mono known t,
        );
        earliest = λ i h e.
            let k = position_in_order times i h in
            let less =
              fewer window (length times) (by_time times) s positive sorts.mono known some_times k.0
                k.1 (omega (arith, k.2)) in
            omega
              (arith, less, count_of (by_time times k.0), ap (λ t. in_window window t times) k.2);
      }

  peak_rate-eq-some : peak_rate times window ≡ some peak_of
  unfolding peak_rate scanned peak_of
  peak_rate-eq-some =
      let not_empty : (length times == 0) ≡ false = ground (arith, some_times) in rw not_empty

-- Of telegrams at any times, in any order, some window is found: it opens with the telegram named,
-- no window of that length holds more of them, and the windows that open with an earlier telegram
-- hold fewer. The window's length is positive.
pub peak_rate_lem :
    (window : ℕ) (times : List ℕ)
    → 0 < window
    → 0 < length times
    → (p : PeakRate) × (peak_rate times window ≡ some p) × IsPeak times window p
peak_rate_lem window times positive some_times = (
  peak_of window times positive some_times,
  peak_rate-eq-some window times positive some_times,
  scanned-IsPeak window times positive some_times,
)
