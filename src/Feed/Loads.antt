-- ===== src/Feed/Loads.antt =====
-- The loads of frontend/src/hooks/useTelegramCache.ts over several gaps: `fillGapsBudgeted`,
-- `fillGaps`, `loadRange`, `runLoad`, and the restore at the start. Nothing comes between the steps of
-- a load here, and no request fails; what does in between is in Feed/Gap.antt.
pub mod Restored
use mathlib.Core.List.{reverse}
use spectrum_knx.Prelude.{
  ℕ, zero, suc, ◌+◌, ◌-◌, ◌*◌, min, Bool, true, false, not, Option, none, some, List, [], ◌∷◌, ◌++◌,
  ltb, ◌==◌, if◌then◌else◌, length, take, last?, Text,
}
use spectrum_knx.Telegram.{TelegramEntry}
use spectrum_knx.Coverage.{Interval, Coverage, add_covered, gaps, trim}
use spectrum_knx.Feed.{Feed, merge_into_buffer, publish_if, save_coverage, covered_start}
use spectrum_knx.Feed.Gap.{Load, fill_gap, oldest_of}

abbrev pub initial_load_limit : ℕ
initial_load_limit = 5000

-- the load of one gap with what is left of the budget
abbrev pub gap_load : ℕ → Bool → ℕ → Interval → ℕ → Load
gap_load max_size skip generation gap remaining = record {
  gap_start = gap.0;
  cursor = gap.1;
  fetched = 0;
  budget = remaining;
  generation = generation;
  skip_buffer_full_break = skip;
  max_size = max_size;
}

unfoldable pub with_cached :
    List TelegramEntry → Option (Feed × List TelegramEntry) → Option (Feed × List TelegramEntry)
with_cached cached none = none
with_cached cached (some (s, more)) = some (s, cached ++ more)

module _ (fetch : ℕ → ℕ → ℕ → List TelegramEntry × Bool) (stores : List TelegramEntry → Bool)
    (max_size : ℕ) (skip : Bool) where
  -- after a gap the load goes on, unless the buffer was cleared
  unfoldable pub after_gap :
      ℕ
      → ℕ
      → Option (ℕ × Feed × List TelegramEntry)
      → (ℕ → Feed → Option (Feed × List TelegramEntry))
      → Option (Feed × List TelegramEntry)
  unfolding with_cached
  after_gap generation remaining none loop = none
  after_gap generation remaining (some (n, s, cached)) loop =
      if s.generation == generation
      then with_cached cached (loop (remaining - n) s)
      else some (s, cached)

  -- the loop over the gaps, the newest first, and what the cache took; a gap has the fuel it needs
  unfoldable pub gaps_loop : ℕ → List Interval → ℕ → Feed → Option (Feed × List TelegramEntry)
  unfolding after_gap
  gaps_loop generation [] remaining s = some (save_coverage s, [])
  gaps_loop generation (gap ∷ rest) remaining s =
      let filled =
        fill_gap fetch stores (suc gap.1) (gap_load max_size skip generation gap remaining) s in
      let onward = after_gap generation remaining filled (gaps_loop generation rest) in
      if ltb 0 remaining then onward else some (save_coverage s, [])

  unfoldable pub fill_gaps_budgeted : ℕ → ℕ → ℕ → Feed → Option (Feed × List TelegramEntry)
  unfolding gaps_loop
  fill_gaps_budgeted start end budget s =
      gaps_loop s.generation (reverse (gaps s.coverage start end)) budget s

  pub fill_gaps : ℕ → ℕ → Feed → Option (Feed × List TelegramEntry)
  fill_gaps start end s = fill_gaps_budgeted start end max_size s

-- the cached rows of a range, or of the start, enter the buffer
pub show_cached : List TelegramEntry → Feed → Feed
show_cached [] s = s
show_cached (e ∷ cached) s = publish_if (merge_into_buffer (e ∷ cached) s)

-- `loadRange` once the cache has answered; a read that failed has no rows
pub load_range :
    (ℕ → ℕ → ℕ → List TelegramEntry × Bool)
    → (List TelegramEntry → Bool)
    → ℕ
    → ℕ
    → List TelegramEntry
    → ℕ
    → ℕ
    → Feed
    → Option (Feed × List TelegramEntry)
unfolding show_cached
load_range fetch stores max_size generation cached start end s =
    if s.generation == generation
    then fill_gaps fetch stores max_size true start end (show_cached cached s)
    else some (s, [])

-- `runLoad` before and after its work, which ends with an error's message or without
unfoldable pub begin_load : Feed → Feed
begin_load s = record s { active_loads = s.active_loads + 1 }

unfoldable pub end_load : Option Text → Feed → Feed
end_load error s = record s { load_error = error; active_loads = s.active_loads - 1 }

-- the persisted intervals
pub restore_coverage : List Interval → Coverage → Coverage
restore_coverage [] c = c
restore_coverage ((s, e) ∷ intervals) c = restore_coverage intervals (add_covered c s e)

-- the backend's retention window, when known; the times before 1970 that no telegram has are 0
pub clamp_to_retention : Option ℕ → ℕ → Feed → Feed
clamp_to_retention none now s = s
clamp_to_retention (some days) now s = record s {
  coverage = trim s.coverage (now - (days + 1) * 86400000);
}

-- the earlier of two times that may be missing
pub earliest : Option ℕ → Option ℕ → Option ℕ
earliest none b = b
earliest (some a) none = some a
earliest (some a) (some b) = some (min a b)

fill_from :
    (ℕ → ℕ → ℕ → List TelegramEntry × Bool)
    → (List TelegramEntry → Bool)
    → ℕ
    → Option ℕ
    → ℕ
    → ℕ
    → Feed
    → Option (Feed × List TelegramEntry)
fill_from fetch stores max_size none now budget s = some (s, [])
fill_from fetch stores max_size (some start) now budget s =
    fill_gaps_budgeted fetch stores max_size false start now budget s

-- the restore at the start, once the retention and the cache are known: `cached` is newest first
pub restore :
    (ℕ → ℕ → ℕ → List TelegramEntry × Bool)
    → (List TelegramEntry → Bool)
    → ℕ
    → List Interval
    → Option ℕ
    → List TelegramEntry
    → ℕ
    → Feed
    → Option (Feed × List TelegramEntry)
unfolding restore_coverage clamp_to_retention show_cached earliest fill_from
restore fetch stores max_size intervals retention_days cached now s =
    let covered : Feed = record s { coverage = restore_coverage intervals s.coverage } in
    let clamped = clamp_to_retention retention_days now covered in
    let budget = min initial_load_limit max_size in
    let shown = show_cached (take budget cached) clamped in
    fill_from fetch stores max_size (earliest (covered_start shown.coverage) (oldest_of cached)) now
      budget shown
