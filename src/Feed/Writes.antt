-- ===== src/Feed/Writes.antt =====
-- Live telegrams on their way to the cache, in
-- frontend/src/hooks/useTelegramCache.ts.
use mathlib.Core.List.{flatten}
use spectrum_knx.Prelude.{◌≡◌, List, ◌++◌}
use spectrum_knx.Telegram.{TelegramEntry}
use spectrum_knx.Feed.{Feed}

-- what has arrived live and is not known to be written, in order of arrival
pub unwritten : Feed → List TelegramEntry
unwritten s = flatten s.in_flight ++ s.pending

-- the same telegrams pending and in flight
record SameWrites (s t : Feed) : Type 0 where
  pending : t.pending ≡ s.pending
  in_flight : t.in_flight ≡ s.in_flight
