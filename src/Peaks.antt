-- ===== src/Peaks.antt =====
-- The busiest window of a list of telegram times: frontend/src/utils/peakRate.ts. Times are
-- milliseconds, natural numbers; `t - x >= windowMs` is written without a subtraction.
mod Frequency
mod Sorted
mod Scan
pub mod Busiest
mod Tests
use spectrum_knx.Prelude.{
  ℕ, zero, suc, ◌+◌, ◌-◌, Bool, true, false, not, ◌&&◌, ◌||◌, Option, none, some, List, [], ◌∷◌,
  ltb, leb, ◌==◌, if◌then◌else◌, length, get_elem?, sort,
}

pub record PeakRate : Type 0 where
  pub count : ℕ
  pub start_idx : ℕ

get_or : Option ℕ → ℕ
get_or none = 0
get_or (some x) = x

-- `timesMs[i]`, at an index that is in range
unfoldable pub at : List ℕ → ℕ → ℕ
unfolding get_or
at times i = get_or (get_elem? times i)

-- are the times in rising, in falling order: the loop ends as soon as they are neither
directions : Bool → Bool → ℕ → List ℕ → Bool × Bool
directions asc desc previous [] = (asc, desc)
directions asc desc previous (t ∷ rest) =
    let more = directions (asc && not (ltb t previous)) (desc && not (ltb previous t)) t rest in
    if asc || desc then more else (asc, desc)

unfoldable pub directions_of : List ℕ → Bool × Bool
unfolding directions
directions_of [] = (true, true)
directions_of (t ∷ rest) = directions true true t rest

-- `Array.from({ length: n }, (_, i) => i)`
pub indices_from : ℕ → ℕ → List ℕ
indices_from k zero = []
indices_from k (suc n) = k ∷ indices_from (suc k) n

unfoldable pub sorted_indices : List ℕ → List ℕ
unfolding indices_from
sorted_indices times = sort (λ a b. leb (at times a) (at times b)) (indices_from 0 (length times))

unfoldable pub order_for : Bool × Bool → List ℕ → ℕ → ℕ
unfolding sorted_indices
order_for (true, desc) times k = k
order_for (false, true) times k = length times - 1 - k
order_for (false, false) times k = at (sorted_indices times) k

-- the position in the input of the k-th earliest telegram
unfoldable pub order : List ℕ → ℕ → ℕ
unfolding order_for directions_of
order times = order_for (directions_of times) times

pub record Scanned : Type 0 where
  pub best : ℕ
  pub best_start : ℕ
  pub lo : ℕ

-- The scan, over the times in order as a function of the position.
module _ (window : ℕ) (by_time : ℕ → ℕ) where
  -- `while (t - timesMs[order(lo)] >= windowMs) lo++`; the fuel is the way up to `hi`
  catch_up : ℕ → ℕ → ℕ → ℕ
  catch_up zero t lo = lo
  catch_up (suc fuel) t lo =
      let more = catch_up fuel t (suc lo) in if leb (by_time lo + window) t then more else lo

  keep_best : ℕ → ℕ → Scanned → Scanned
  keep_best hi lo s =
      if ltb s.best (hi + 1 - lo)
      then record { best = hi + 1 - lo; best_start = lo; lo = lo }
      else record s { lo = lo }

  visit : ℕ → Scanned → Scanned
  unfolding catch_up keep_best
  visit hi s = keep_best hi (catch_up (hi - s.lo) (by_time hi) s.lo) s

  -- the state after the first `n` telegrams
  pub scan : ℕ → Scanned
  unfolding visit
  scan zero = record { best = 0; best_start = 0; lo = 0 }
  scan (suc n) = visit n (scan n)

unfoldable pub peak_rate : List ℕ → ℕ → Option PeakRate
unfolding scan order at
peak_rate times window =
    let found = scan window (λ k. at times (order times k)) (length times) in
    if length times == 0
    then none
    else some (record { count = found.best; start_idx = order times found.best_start })
