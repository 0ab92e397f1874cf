-- ===== src/Feed.antt =====
-- frontend/src/hooks/useTelegramCache.ts: the hook's refs and React state as one record, and the
-- callbacks and timers that change them. A cache write in flight is kept in `in_flight` until it
-- settles; the clock's reading is an argument. The background loads are in Feed/Gap.antt.
pub mod Gap
pub mod Loads
pub mod Failing
mod Frames
pub mod Events
pub mod Ids
pub mod Pausing
pub mod Frozen
pub mod Writes
mod Tests
use mathlib.Core.List.{reverse}
use spectrum_knx.Prelude.{
  ℕ, zero, suc, ◌+◌, ◌-◌, ◌%◌, Bool, true, false, not, ◌&&◌, ◌||◌, Option, none, some, List, [],
  ◌∷◌, ◌++◌, map, ltb, leb, ◌==◌, if◌then◌else◌, length, filter, Text, text_eq, includes,
}
use spectrum_knx.Telegram.{Telegram, TelegramEntry, to_entry}
use spectrum_knx.Buffer
use spectrum_knx.Buffer.{Buffer, add, merge, set_max_size}
use spectrum_knx.Coverage
use spectrum_knx.Coverage.{Interval, Coverage, extend_live, close_live, trim}

abbrev pub flush_batch_size : ℕ
flush_batch_size = 200

abbrev pub evict_every_ticks : ℕ
evict_every_ticks = 30

pub record Feed : Type 0 where
  pub buffer : Buffer
  pub ids : List Text
  pub pending : List TelegramEntry
  pub in_flight : List (List TelegramEntry)
  pub store_count : ℕ
  pub coverage : Coverage
  pub saved_coverage : List Interval
  pub connected : Bool
  pub paused : Bool
  pub generation : ℕ
  pub telegrams : List Telegram
  pub paused_count : ℕ
  pub active_loads : ℕ
  pub load_error : Option Text
  pub ticks : ℕ

abbrev pub init : ℕ → Feed
init max_size = record {
  buffer = Buffer.init max_size;
  ids = [];
  pending = [];
  in_flight = [];
  store_count = 0;
  coverage = Coverage.empty;
  saved_coverage = [];
  connected = false;
  paused = false;
  generation = 0;
  telegrams = [];
  paused_count = 0;
  active_loads = 0;
  load_error = none;
  ticks = 0;
}

-- `Set.add` and `Set.delete`
pub set_add : List Text → Text → List Text
set_add ids id = if includes ids id then ids else id ∷ ids

pub set_delete : List Text → Text → List Text
set_delete ids id = filter (λ i. not (text_eq i id)) ids

pub add_ids : List Text → List TelegramEntry → List Text
unfolding set_add
add_ids ids [] = ids
add_ids ids (e ∷ rest) = add_ids (set_add ids e.id) rest

pub delete_ids : List Text → List TelegramEntry → List Text
unfolding set_delete
delete_ids ids [] = ids
delete_ids ids (e ∷ rest) = delete_ids (set_delete ids e.id) rest

-- the buffer's telegrams, newest first
abbrev pub shown : Buffer → List Telegram
shown b = reverse (map (λ (e : TelegramEntry). e.telegram) b.entries)

pub publish : Feed → Feed
publish s = if s.paused then s else record s { telegrams = shown s.buffer }

pub track_removed : List TelegramEntry → Feed → Feed
track_removed removed s = record s { ids = delete_ids s.ids removed }

-- whether anything changed, and the new state
pub merge_into_buffer : List TelegramEntry → Feed → Bool × Feed
merge_into_buffer batch s =
    let ((added, removed), buffer) = merge s.buffer batch in
    (
      ltb 0 (length added) || ltb 0 (length removed),
      track_removed removed (record s { buffer = buffer; ids = add_ids s.ids added }),
    )

-- `if (mergeIntoBuffer(entries)) publish()`
pub publish_if : Bool × Feed → Feed
publish_if (changed, s) = if changed then publish s else s

pub save_coverage : Feed → Feed
save_coverage s =
    if ltb 0 s.store_count then s else record s { saved_coverage = s.coverage.covered }

-- a batch is handed to the cache
pub begin_store : List TelegramEntry → Feed → Feed
begin_store batch s = record s {
  store_count = s.store_count + 1;
  in_flight = s.in_flight ++ batch ∷ [];
}

pub remove_at : ℕ → List (List TelegramEntry) → List (List TelegramEntry)
remove_at i [] = []
remove_at zero (batch ∷ rest) = rest
remove_at (suc i) (batch ∷ rest) = batch ∷ remove_at i rest

-- The i-th write of live telegrams in flight succeeds or fails.
pub settle_store : Bool → ℕ → Feed → Feed
settle_store succeeded i s =
    let settled : Feed = record s {
      store_count = s.store_count - 1;
      in_flight = remove_at i s.in_flight;
    } in
    if succeeded then save_coverage settled else settled

-- the early flush of `addLive`
pub flush_full : Feed → Feed
flush_full s =
    if leb flush_batch_size (length s.pending)
    then begin_store s.pending (record s { pending = [] })
    else s

pub add_entry : TelegramEntry → Feed → Feed
add_entry entry s =
    let (removed, buffer) = add s.buffer (entry ∷ []) in
    let tracked = track_removed removed (record s { buffer = buffer }) in
    let entered : Feed = record tracked {
      ids = set_add tracked.ids entry.id;
      coverage = extend_live s.coverage entry.ts;
      pending = s.pending ++ entry ∷ [];
    } in
    let flushed = flush_full entered in
    if includes s.ids entry.id
    then s
    else if s.paused
    then record flushed { paused_count = s.paused_count + 1 }
    else publish flushed

pub add_live : (Text → ℕ) → Telegram → Feed → Feed
add_live get_time t s = add_entry (to_entry get_time t) s

-- where the first covered interval starts
pub covered_start : Coverage → Option ℕ
covered_start c = elim c.covered [ [] ↦ none | i ∷ rest ↦ some i.0 ]

same : Bool → Bool → Bool
same true b = b
same false b = not b

-- the range that a reconnect loads, and the new state
pub set_connected : Bool → ℕ → Feed → Option Interval × Feed
set_connected now_connected now s =
    let extended : Feed = record s {
      connected = now_connected;
      coverage = extend_live s.coverage now;
    } in
    let closed : Feed = record extended { coverage = close_live extended.coverage } in
    let reload : Option Interval = elim (covered_start extended.coverage) [
      | none ↦ none
      | some start ↦ some (start, now)
    ] in
    if same s.connected now_connected
    then (none, s)
    else if now_connected
    then (reload, extended)
    else (none, save_coverage closed)

pub set_paused : Bool → Feed → Feed
set_paused paused s =
    let changed : Feed = record s { paused = paused; paused_count = 0 } in
    if paused then changed else publish changed

-- the state's part of `clear`; the cache is wiped beside it
pub clear : Feed → Feed
clear s =
    let (cleared, buffer) = Buffer.clear s.buffer in
    let wiped =
      track_removed cleared (record s { generation = s.generation + 1; buffer = buffer }) in
    record (save_coverage (record wiped { pending = []; coverage = Coverage.clear s.coverage })) {
      telegrams = [];
    }

-- `flush` hands the pending telegrams to the cache
hand_over : Feed → Feed
hand_over s =
    if ltb 0 (length s.pending) then begin_store s.pending (record s { pending = [] }) else s

-- a quiet but connected stream still covers the elapsed time
cover_quiet : Bool → ℕ → Feed → Feed
cover_quiet connected now s =
    if connected then record s { coverage = extend_live s.coverage now } else s

-- the periodic flush
pub flush : ℕ → Feed → Feed
flush now s = save_coverage (cover_quiet s.connected now (hand_over s))

-- one timer tick: the flush, and whether the cache is trimmed to its size
pub tick : ℕ → Feed → Bool × Feed
tick now s =
    let flushed : Feed = record (flush now s) { ticks = s.ticks + 1 } in
    ((s.ticks + 1) % evict_every_ticks == 0, flushed)

-- the cache was trimmed, and reported its oldest entry
pub evicted : ℕ → Feed → Feed
evicted oldest s = save_coverage (record s { coverage = trim s.coverage oldest })

pub change_max_size : ℕ → Feed → Feed
change_max_size max_size s =
    let (removed, buffer) = set_max_size s.buffer max_size in
    let resized : Feed = record s { buffer = buffer } in
    if ltb 0 (length removed) then publish (track_removed removed resized) else resized
