-- ===== src/Telegram/Samples.antt =====
-- Telegrams for the tests.
use spectrum_knx.Prelude.{none, some, codes}
use spectrum_knx.Telegram.{Telegram, TelegramEntry, pos, number}

abbrev pub reading : Telegram
reading = record {
  timestamp = codes "t";
  source_address = codes "1.1.4";
  source_name = none;
  target_address = codes "1/2/3";
  target_name = none;
  direction = some (codes "Incoming");
  telegram_type = codes "GroupValueWrite";
  simplified_type = some (codes "Write");
  dpt = none;
  dpt_main = some 9;
  dpt_sub = some 1;
  dpt_name = none;
  unit = none;
  value_numeric = some (pos 21);
  value_json = some (number (pos 21));
  value_formatted = none;
  raw_data = none;
  raw_hex = none;
}

abbrev pub entry_a : TelegramEntry
entry_a = record { id = codes "a"; ts = 10; telegram = reading }

abbrev pub entry_b : TelegramEntry
entry_b = record { id = codes "b"; ts = 20; telegram = reading }

abbrev pub entry_c : TelegramEntry
entry_c = record { id = codes "c"; ts = 30; telegram = reading }
