-- ===== src/Feed/Gap.antt =====
-- The background loads of frontend/src/hooks/useTelegramCache.ts: `fetchGapProgressive`,
-- `fillGapsBudgeted` and `runLoad`. Each stretch between two waits is a function of its own, so
-- that other events can come between; `fill_gap` runs them with nothing in between.
pub mod Termination
pub mod Accounted
pub mod Completeness
pub mod Backend
pub mod Cleared
use mathlib.Core.List.{reverse}
use spectrum_knx.Prelude.{
  ℕ, zero, suc, ◌+◌, ◌-◌, min, Bool, true, false, not, ◌&&◌, ◌||◌, Option, none, some, List, [],
  ◌∷◌, ◌++◌, ltb, leb, ◌==◌, if◌then◌else◌, length, last?, Text,
}
use spectrum_knx.Telegram.{TelegramEntry}
use spectrum_knx.Buffer.{oldest_ts}
use spectrum_knx.Coverage.{Interval, Coverage, add_covered, gaps}
use spectrum_knx.Feed.{Feed, merge_into_buffer, publish_if, save_coverage}

abbrev pub history_chunk_size : ℕ
history_chunk_size = 2000

-- the arguments and local variables of `fetchGapProgressive`
pub record Load : Type 0 where
  pub gap_start : ℕ
  pub cursor : ℕ
  pub fetched : ℕ
  pub budget : ℕ
  pub generation : ℕ
  pub skip_buffer_full_break : Bool
  pub max_size : ℕ

-- The early break: the buffer is full, and its oldest entry is newer than the cursor.
older_than : ℕ → Option ℕ → Bool
older_than cursor none = false
older_than cursor (some oldest) = ltb cursor oldest

buffer_full : Load → Feed → Bool
unfolding older_than
buffer_full l s =
    not l.skip_buffer_full_break
    && (leb l.max_size (length s.buffer.entries) && older_than l.cursor (oldest_ts s.buffer))

-- the loop's test and its early break: the size of the next request, if there is one
pub next_limit : Load → Feed → Option ℕ
unfolding buffer_full
next_limit l s =
    if leb l.gap_start l.cursor && ltb l.fetched l.budget && not (buffer_full l s)
    then some (min history_chunk_size (l.budget - l.fetched))
    else none

-- What is done with a response: nothing, if the buffer was cleared meanwhile; the end of the load,
-- if nothing is left in the window; or a chunk, which goes to the cache.
pub data Received : Type 0 where
  dropped : Received
  exhausted : Feed → Received
  chunk : Feed → Received

pub received : List TelegramEntry → Load → Feed → Received
received entries l s =
    let merged = publish_if (merge_into_buffer entries s) in
    let last : Received =
      exhausted (record s { coverage = add_covered s.coverage l.gap_start l.cursor }) in
    let more : Received = chunk (record merged { store_count = merged.store_count + 1 }) in
    if not (s.generation == l.generation)
    then dropped
    else if length entries == 0
    then last
    else more

-- the load goes on, or has ended with so many telegrams fetched
pub data Progress : Type 0 where
  onward : Load → Progress
  finished : ℕ → Progress

-- the timestamp of the last entry of a chunk
unfoldable pub oldest_of : List TelegramEntry → Option ℕ
oldest_of entries = elim (last? entries) [ none ↦ none | some e ↦ some e.ts ]

-- Further back, and past the timestamp only when a whole chunk sat on it. A cursor below 0 ends the
-- loop.
pub step_back : ℕ → Load → Progress
step_back oldest l =
    if ltb oldest l.cursor
    then onward (record l { cursor = oldest })
    else if ltb 0 l.cursor
    then onward (record l { cursor = l.cursor - 1 })
    else finished l.fetched

cover_if : Bool → ℕ → ℕ → Feed → Feed
cover_if stored start end s =
    if stored then record s { coverage = add_covered s.coverage start end } else s

-- Coverage grows by what the cache took, and the load goes on while the backend holds rows back.
pub page_back : Option ℕ → Bool → Bool → Load → Feed → Progress × Feed
unfolding cover_if
page_back none stored limit_reached l s = (finished l.fetched, s)
page_back (some oldest) stored true l s = (step_back oldest l, cover_if stored oldest l.cursor s)
page_back (some oldest) stored false l s =
    (finished l.fetched, cover_if stored l.gap_start l.cursor (cover_if stored oldest l.cursor s))

-- The chunk's write to the cache has settled.
pub chunk_stored : Bool → List TelegramEntry → Bool → Load → Feed → Progress × Feed
chunk_stored stored entries limit_reached l s =
    page_back (oldest_of entries) stored limit_reached
      (record l { fetched = l.fetched + length entries })
      (record s { store_count = s.store_count - 1 })

unfoldable pub prepend :
    List TelegramEntry
    → Option (ℕ × Feed × List TelegramEntry)
    → Option (ℕ × Feed × List TelegramEntry)
prepend cached none = none
prepend cached (some (n, s, more)) = some (n, s, cached ++ more)

-- `fetch start end limit` is the backend's answer, and `stores` says which chunks the cache takes.
module _ (fetch : ℕ → ℕ → ℕ → List TelegramEntry × Bool) (stores : List TelegramEntry → Bool) where
  -- what the cache took of the answer, if it came to that
  abbrev taken : Bool → List TelegramEntry → List TelegramEntry
  taken stored entries = if stored then entries else []

  unfoldable pub after_received :
      Received → List TelegramEntry → Bool → Load → Feed → Progress × Feed × List TelegramEntry
  after_received dropped entries limit_reached l s = (finished l.fetched, s, [])
  after_received (exhausted s') entries limit_reached l s = (finished l.fetched, s', [])
  after_received (chunk s') entries limit_reached l s =
      let (progress, s'') = chunk_stored (stores entries) entries limit_reached l s' in
      (progress, s'', taken (stores entries) entries)

  unfoldable pub after_limit : Option ℕ → Load → Feed → Progress × Feed × List TelegramEntry
  after_limit none l s = (finished l.fetched, s, [])
  after_limit (some limit) l s =
      let (entries, limit_reached) = fetch l.gap_start l.cursor limit in
      after_received (received entries l s) entries limit_reached l s

  -- one round of the loop: how it goes on, the new state, and what the cache took
  unfoldable pub round : Load → Feed → Progress × Feed × List TelegramEntry
  round l s = after_limit (next_limit l s) l s

  unfoldable pub go_on :
      Progress
      → Feed
      → List TelegramEntry
      → (Load → Feed → Option (ℕ × Feed × List TelegramEntry))
      → Option (ℕ × Feed × List TelegramEntry)
  go_on (finished n) s cached loop = some (n, s, cached)
  go_on (onward l) s cached loop = prepend cached (loop l s)

  -- The loop, on fuel: the number fetched, the new state, and all that the cache took.
  unfoldable pub fill_gap : ℕ → Load → Feed → Option (ℕ × Feed × List TelegramEntry)
  fill_gap zero l s = none
  fill_gap (suc fuel) l s =
      let (progress, s', cached) = round l s in go_on progress s' cached (fill_gap fuel)
