-- ===== src/Feed/Events.antt =====
-- The events that change the state of frontend/src/hooks/useTelegramCache.ts, in any order.
use spectrum_knx.Prelude.{ℕ, Bool, List, [], ◌∷◌}
use spectrum_knx.Telegram.{TelegramEntry}
use spectrum_knx.Feed.{
  Feed, publish_if, merge_into_buffer, settle_store, add_entry, set_connected, set_paused, clear,
  tick, evicted, change_max_size,
}

-- the events that change the hook's state
pub data Event : Type 0 where
  live : TelegramEntry → Event
  connection : Bool → ℕ → Event
  pause : Bool → Event
  wipe : Event
  timer : ℕ → Event
  settled : Bool → ℕ → Event
  cache_trimmed : ℕ → Event
  resized : ℕ → Event
  loaded : List TelegramEntry → Event

unfoldable pub step : Feed → Event → Feed
step s (live e) = add_entry e s
step s (connection connected now) = (set_connected connected now s).1
step s (pause paused) = set_paused paused s
step s wipe = clear s
step s (timer now) = (tick now s).1
step s (settled succeeded i) = settle_store succeeded i s
step s (cache_trimmed oldest) = evicted oldest s
step s (resized n) = change_max_size n s
step s (loaded batch) = publish_if (merge_into_buffer batch s)

unfoldable pub run : Feed → List Event → Feed
run s [] = s
run s (e ∷ events) = run (step s e) events
