-- ===== src/Shell/Rate.antt =====
-- The arrival times of the last hour and the bus rate, in frontend/src/App.tsx. Times are natural
-- numbers; `t < now - window` is written without a subtraction.
pub mod Window
use spectrum_knx.Prelude.{
  ℕ, ◌+◌, ◌≤◌, ◌≡◌, refl, ◌∙◌, Bool, true, false, Option, none, some, List, [], ◌∷◌, ◌++◌, arith,
  ltb, if◌then◌else◌, length, filter, All, All-map, Bool-cases, inl, inr, filter-append, ltb→lt,
}
use spectrum_knx.Telegram.{Telegram}

pub record Arrivals : Type 0 where
  pub latest_telegram : Option Telegram
  pub arrival_times : List ℕ

abbrev one_hour : ℕ
one_hour = 3600000

-- the loop that takes out what is older than an hour
unfoldable pub drop_old : ℕ → List ℕ → List ℕ
drop_old now [] = []
drop_old now (t ∷ times) =
    let rest = drop_old now times in if ltb (t + one_hour) now then rest else t ∷ times

-- what `handleTelegram` does before it passes the telegram on to the feed
unfoldable pub handle_telegram : ℕ → Telegram → Arrivals → Arrivals
handle_telegram now t s = record {
  latest_telegram = some t;
  arrival_times = drop_old now (s.arrival_times ++ now ∷ []);
}

pub data RateMode : Type 0 where
  per_second : RateMode
  per_minute : RateMode
  per_hour : RateMode

unfoldable pub window_ms : RateMode → ℕ
window_ms per_second = 5000
window_ms per_minute = 60000
window_ms per_hour = 3600000

-- `count` telegrams in `per` units of time
pub record BusRate : Type 0 where
  pub count : ℕ
  pub per : ℕ

unfoldable pub divisor : RateMode → ℕ
divisor per_second = 5
divisor per_minute = 1
divisor per_hour = 1

unfoldable pub bus_rate : RateMode → ℕ → List ℕ → BusRate
bus_rate mode now times = record {
  count = length (filter (λ t. ltb now (t + window_ms mode)) times);
  per = divisor mode;
}

-- the telegrams with their times of arrival
unfoldable pub handle_all : List (ℕ × Telegram) → Arrivals → Arrivals
handle_all [] s = s
handle_all ((now, t) ∷ rest) s = handle_all rest (handle_telegram now t s)
