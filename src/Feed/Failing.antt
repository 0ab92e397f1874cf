-- ===== src/Feed/Failing.antt =====
-- Requests that fail in the loads of frontend/src/hooks/useTelegramCache.ts: the error leaves the paging
-- loop and the loop over the gaps, and `runLoad` shows it. `fetch start end limit` is the
-- backend's answer, unless `fails` has the message of an error for the request.
pub mod Explained
pub mod Kept
use mathlib.Core.List.{reverse}
use spectrum_knx.Prelude.{
  ℕ, zero, suc, ◌-◌, Bool, true, false, Option, none, some, List, [], ◌∷◌, ◌++◌, ltb, ◌==◌,
  if◌then◌else◌, Text,
}
use spectrum_knx.Telegram.{TelegramEntry}
use spectrum_knx.Coverage.{Interval, gaps}
use spectrum_knx.Feed.{Feed, save_coverage}
use spectrum_knx.Feed.Gap.{Load, Progress, onward, finished, next_limit, after_limit}
use spectrum_knx.Feed.Loads.{gap_load, begin_load, end_load}

-- how a loop has ended: with so many telegrams fetched, or by an error
pub data Outcome : Type 0 where
  returned : ℕ → Outcome
  threw : Text → Outcome

-- the end of a loop, its state, and what the cache took
abbrev pub Ended : Type 0
Ended = Outcome × Feed × List TelegramEntry

-- one round of the paging loop
pub data Turn : Type 0 where
  goes_on : Load → Turn
  ends : Outcome → Turn

unfoldable pub turn_of : Progress → Turn
turn_of (onward l) = goes_on l
turn_of (finished n) = ends (returned n)

module _ (fetch : ℕ → ℕ → ℕ → List TelegramEntry × Bool) (fails : ℕ → ℕ → ℕ → Option Text)
    (stores : List TelegramEntry → Bool) where
  unfoldable pub after_answer : Option Text → ℕ → Load → Feed → Turn × Feed × List TelegramEntry
  unfolding turn_of
  after_answer (some message) limit l s = (ends (threw message), s, [])
  after_answer none limit l s =
      let (progress, s', cached) = after_limit fetch stores (some limit) l s in
      (turn_of progress, s', cached)

  unfoldable pub try_round : Option ℕ → Load → Feed → Turn × Feed × List TelegramEntry
  try_round none l s = (ends (returned l.fetched), s, [])
  try_round (some limit) l s = after_answer (fails l.gap_start l.cursor limit) limit l s

  unfoldable pub with_taken : List TelegramEntry → Option Ended → Option Ended
  with_taken cached none = none
  with_taken cached (some (o, s, more)) = some (o, s, cached ++ more)

  unfoldable pub take_turn :
      Turn → Feed → List TelegramEntry → (Load → Feed → Option Ended) → Option Ended
  take_turn (ends o) s cached loop = some (o, s, cached)
  take_turn (goes_on l) s cached loop = with_taken cached (loop l s)

  unfoldable pub try_gap : ℕ → Load → Feed → Option Ended
  try_gap zero l s = none
  try_gap (suc fuel) l s =
      let (turn, s', cached) = try_round (next_limit l s) l s in
      take_turn turn s' cached (try_gap fuel)

  unfoldable pub after_try : ℕ → ℕ → Option Ended → (ℕ → Feed → Option Ended) → Option Ended
  after_try generation remaining none loop = none
  after_try generation remaining (some (threw message, s, cached)) loop =
      some (threw message, s, cached)
  after_try generation remaining (some (returned n, s, cached)) loop =
      if s.generation == generation
      then with_taken cached (loop (remaining - n) s)
      else some (returned n, s, cached)

  unfoldable pub try_gaps : ℕ → Bool → ℕ → List Interval → ℕ → Feed → Option Ended
  try_gaps max_size skip generation [] remaining s = some (returned 0, save_coverage s, [])
  try_gaps max_size skip generation (gap ∷ rest) remaining s =
      let tried = try_gap (suc gap.1) (gap_load max_size skip generation gap remaining) s in
      let onward = after_try generation remaining tried (try_gaps max_size skip generation rest) in
      if ltb 0 remaining then onward else some (returned 0, save_coverage s, [])

  -- the message that `runLoad` shows, none when its work has come to an end
  abbrev pub error_of : Outcome → Option Text
  error_of (returned n) = none
  error_of (threw message) = some message

  unfoldable pub settle : Option Ended → Option Ended
  settle none = none
  settle (some (o, s, cached)) = some (o, end_load (error_of o) s, cached)

  -- `runLoad` around `fillGapsBudgeted`
  unfoldable pub run_load : ℕ → Bool → ℕ → ℕ → ℕ → Feed → Option Ended
  run_load max_size skip start end budget s =
      let begun = begin_load s in
      settle (
        try_gaps max_size skip begun.generation (reverse (gaps begun.coverage start end)) budget
          begun)
