-- ===== src/Feed/Failing/Kept.antt =====
-- What a load of frontend/src/hooks/useTelegramCache.ts leaves behind when requests fail.
use spectrum_knx.Prelude.{ℕ, ◌<◌, ◌≡◌, Bool, Option, none, some, List, Text}
use spectrum_knx.Telegram.{TelegramEntry}
use spectrum_knx.Coverage.{Coverage}
use spectrum_knx.Feed.{Feed}
use spectrum_knx.Feed.Gap.{Load}
use spectrum_knx.Feed.Gap.Accounted.{Answers, Accounted}
use spectrum_knx.Feed.Loads.{end_load}
use spectrum_knx.Feed.Failing.Explained.{Failed}
use spectrum_knx.Feed.Failing.{Ended, Turn, goes_on, ends}

-- a turn goes on only with a smaller cursor
abbrev TurnFalls : Load → Turn → Type 0
TurnFalls l (goes_on l') = l'.cursor < l.cursor
TurnFalls l (ends o) = Unit

module _ (fetch : ℕ → ℕ → ℕ → List TelegramEntry × Bool) (fails : ℕ → ℕ → ℕ → Option Text)
    (stores : List TelegramEntry → Bool) {Row : Text → ℕ → Type 0} (backend : Answers fetch Row)
    (id : Text) (ts : ℕ) (row : Row id ts) where
  -- the turn is nearer to the end, and the row is accounted for
  abbrev Fair : Load → Feed → Turn × Feed × List TelegramEntry → Type 0
  Fair l s r = TurnFalls l r.0 × Accounted id ts s r.1 r.2

  -- a loop that has ended, with the row accounted for
  abbrev Settled : Feed → Option Ended → Type 0
  Settled s none = ⊥
  Settled s (some (o, s', cached)) = Accounted id ts s s' cached

-- what an error shown, or none, tells of a load: a request failed with that message, or the loops
-- did all that they do when no request fails
abbrev pub Tells :
    (fetch : ℕ → ℕ → ℕ → List TelegramEntry × Bool) (fails : ℕ → ℕ → ℕ → Option Text)
    (stores : List TelegramEntry → Bool)
    → Option (Feed × List TelegramEntry)
    → Option Text
    → Feed × List TelegramEntry
    → Type 0
Tells fetch fails stores plain (some message) r = Failed fetch fails stores message
Tells fetch fails stores plain none r =
    (t : Feed) × (plain ≡ some (t, r.1)) × (r.0 ≡ end_load none t)
