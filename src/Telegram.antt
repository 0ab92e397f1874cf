-- ===== src/Telegram.antt =====
-- The telegram as the backend sends it (frontend/src/hooks/useWebSocket.ts) and its client-side
-- identity (frontend/src/utils/telegramId.ts, frontend/src/utils/anchorKey.ts). `null` and
-- `undefined` are both `none`.
pub mod Samples
use spectrum_knx.Prelude.{
  ℕ, suc, ◌≡◌, Bool, Option, none, some, List, ◌∷◌, ◌++◌, Text, codes, leb, text_eq,
}

-- A decoded number; the model needs its sign and identity, and no fractions.
pub data ℤ : Type 0 where
  pos : ℕ → ℤ
  negsuc : ℕ → ℤ

-- what the frontend tells apart in `value_json`
pub data Json : Type 0 where
  bool : Bool → Json
  number : ℤ → Json
  array : List ℕ → Json
  object : Text → Json

pub record Telegram : Type 0 where
  pub timestamp : Text
  pub source_address : Text
  pub source_name : Option Text
  pub target_address : Text
  pub target_name : Option Text
  pub direction : Option Text
  pub telegram_type : Text
  pub simplified_type : Option Text
  pub dpt : Option Text
  pub dpt_main : Option ℕ
  pub dpt_sub : Option ℕ
  pub dpt_name : Option Text
  pub unit : Option Text
  pub value_numeric : Option ℤ
  pub value_json : Option Json
  pub value_formatted : Option Text
  pub raw_data : Option Text
  pub raw_hex : Option Text

pub record TelegramEntry : Type 0 where
  pub id : Text
  pub ts : ℕ
  pub telegram : Telegram

-- `s ?? ''`
abbrev pub or_empty : Option Text → Text
or_empty none = List.[]
or_empty (some s) = s

unfoldable pub telegram_id : Telegram → Text
telegram_id t =
    t.timestamp
    ++ (b'|' ∷ (t.source_address ++ (b'|' ∷ (t.target_address ++ (b'|' ∷ or_empty t.raw_data)))))

unfoldable pub anchor_key : Telegram → Text
anchor_key t =
    t.timestamp
    ++ (b'-' ∷ (t.source_address ++ (b'-' ∷ (t.target_address ++ (b'-' ∷ or_empty t.raw_hex)))))

-- `get_time` is the host's `new Date(text).getTime()`, for texts that are dates.
unfoldable pub to_entry : (Text → ℕ) → Telegram → TelegramEntry
to_entry get_time t = record { id = telegram_id t; ts = get_time t.timestamp; telegram = t }

-- the comparator of the services' sorts, and its mirror
abbrev pub ts_le : TelegramEntry → TelegramEntry → Bool
ts_le a b = leb a.ts b.ts

abbrev pub ts_ge : TelegramEntry → TelegramEntry → Bool
ts_ge a b = leb b.ts a.ts
