-- ===== src/Table/DeltaSort.antt =====
-- The column of time differences in frontend/src/components/TelegramTable.tsx: the differences
-- between consecutive rows, and the mode that sorts by them. `onListFollowChange` is given, and
-- `listFollow` is what it was last told.
pub mod Frozen
use spectrum_knx.Prelude.{
  ℕ, ◌+◌, ◌-◌, ◌/◌, ◌%◌, min, max, Bool, true, false, not, ◌&&◌, Option, none, some, List, [], ◌∷◌,
  ◌++◌, leb, if◌then◌else◌, sort, Text, codes, decimal, pad_start,
}
use spectrum_knx.Telegram.{Telegram}
use spectrum_knx.Sorting.{Direction, asc, desc, toggled}

pub record TelegramRow : Type 0 where
  pub telegram : Telegram
  pub delta_str : Option Text
  pub delta_ms : Option ℕ

-- `+ mm:ss.mmm`
unfoldable pub format_delta_ms : ℕ → Text
format_delta_ms diff =
    codes "+ "
    ++ (pad_start (decimal (diff / 60000)) 2 b'0'
        ++ (b':'
            ∷ (pad_start (decimal (diff % 60000 / 1000)) 2 b'0'
                ++ (b'.' ∷ pad_start (decimal (diff % 1000)) 3 b'0'))))

delta_between : ℕ → ℕ → ℕ
delta_between a b = max a b - min a b

module _ (get_time : Text → ℕ) where
  row_after : Option Telegram → Telegram → TelegramRow
  unfolding format_delta_ms delta_between
  row_after none t = record { telegram = t; delta_str = none; delta_ms = none }
  row_after (some previous) t =
      let diff = delta_between (get_time t.timestamp) (get_time previous.timestamp) in
      record { telegram = t; delta_str = some (format_delta_ms diff); delta_ms = some diff }

  rows_after : Option Telegram → List Telegram → List TelegramRow
  rows_after previous [] = []
  rows_after previous (t ∷ telegrams) = row_after previous t ∷ rows_after (some t) telegrams

  unfoldable pub natural_telegram_rows : List Telegram → List TelegramRow
  unfolding rows_after row_after
  natural_telegram_rows quick_filtered = rows_after none quick_filtered

-- the comparator is not positive; a row without a difference comes last
unfoldable pub delta_le : Direction → Option ℕ → Option ℕ → Bool
delta_le direction none none = true
delta_le direction none (some b) = false
delta_le direction (some a) none = true
delta_le desc (some a) (some b) = leb b a
delta_le asc (some a) (some b) = leb a b

abbrev pub row_le : Direction → TelegramRow → TelegramRow → Bool
row_le direction a b = delta_le direction a.delta_ms b.delta_ms

unfoldable pub sort_by_delta : List TelegramRow → Direction → List TelegramRow
sort_by_delta rows direction = sort (row_le direction) rows

pub record DeltaSort : Type 0 where
  pub active : Bool
  pub direction : Direction
  pub frozen_rows : Option (List TelegramRow)
  pub follow_before : Option Bool
  pub list_follow : Bool

sort_frozen : Option (List TelegramRow) → Direction → Option (List TelegramRow)
sort_frozen none direction = none
sort_frozen (some rows) direction = some (sort_by_delta rows direction)

unfoldable pub handle_delta_header_click : List TelegramRow → DeltaSort → DeltaSort
unfolding sort_frozen
handle_delta_header_click natural s =
    if not s.active
    then record {
      active = true;
      direction = desc;
      frozen_rows = some (sort_by_delta natural desc);
      follow_before = some s.list_follow;
      list_follow = false;
    }
    else record s {
      direction = toggled s.direction;
      frozen_rows = sort_frozen s.frozen_rows (toggled s.direction);
    }

or_follow : Option Bool → Bool → Bool
or_follow none now = now
or_follow (some b) now = b

unfoldable pub exit_delta_sort : DeltaSort → DeltaSort
unfolding or_follow
exit_delta_sort s = if not s.active then s else record s {
  active = false;
  frozen_rows = none;
  follow_before = none;
  list_follow = or_follow s.follow_before s.list_follow;
}

frozen_or : Option (List TelegramRow) → List TelegramRow → List TelegramRow
frozen_or none natural = natural
frozen_or (some rows) natural = rows

-- `telegramRows`, what the list shows
unfoldable pub telegram_rows : List TelegramRow → DeltaSort → List TelegramRow
unfolding frozen_or
telegram_rows natural s = if s.active then frozen_or s.frozen_rows natural else natural
