-- ===== src/Csv.antt =====
-- The CSV export of telegrams: frontend/src/utils/telegramCsv.ts. `String` of a decoded number is an
-- argument; the file that the browser saves is left.
pub mod Reader
mod Cells
pub mod RoundTrip
mod Tests
use spectrum_knx.Prelude.{
  ℕ, Bool, Option, none, some, List, [], ◌∷◌, ◌++◌, map, ◌||◌, ◌==◌, if◌then◌else◌, any, Text,
  codes,
}
use spectrum_knx.Telegram.{ℤ, Telegram}
use spectrum_knx.Filters.{dpt_key}

pub data CsvDelimiter : Type 0 where
  comma semicolon : CsvDelimiter

abbrev pub delimiter_code : CsvDelimiter → ℕ
delimiter_code comma = b','
delimiter_code semicolon = b';'

abbrev pub quote : ℕ
quote = b'"'

abbrev pub carriage_return : ℕ
carriage_return = 13

abbrev pub line_feed : ℕ
line_feed = 10

-- `/["\r\n]/`
unfoldable pub is_special : ℕ → Bool
is_special c = c == quote || c == carriage_return || c == line_feed

-- `s.replace(/"/g, '""')`
unfoldable pub double_quotes : Text → Text
double_quotes [] = []
double_quotes (c ∷ s) = if c == quote then quote ∷ quote ∷ double_quotes s else c ∷ double_quotes s

unfoldable pub quote_if_needed : CsvDelimiter → Text → Text
unfolding double_quotes is_special
quote_if_needed d s =
    if any (λ c. c == delimiter_code d) s || any is_special s
    then quote ∷ (double_quotes s ++ (quote ∷ []))
    else s

unfoldable pub csv_cell : CsvDelimiter → Option Text → Text
unfolding quote_if_needed
csv_cell d none = []
csv_cell d (some s) = quote_if_needed d s

-- `cells.join(separator)`
unfoldable pub join_by : Text → List Text → Text
join_by separator [] = []
join_by separator (s ∷ []) = s
join_by separator (s ∷ t ∷ rest) = s ++ (separator ++ join_by separator (t ∷ rest))

-- `t.simplified_type ?? t.telegram_type`
type_cell : Option Text → Text → Text
type_cell none raw = raw
type_cell (some s) raw = s

dpt_cell : Option ℕ → Option ℕ → Text
dpt_cell none sub = []
dpt_cell (some main) sub = dpt_key main sub

numeric_cell : (ℤ → Text) → Option ℤ → Option Text
numeric_cell number_text none = none
numeric_cell number_text (some n) = some (number_text n)

-- `COLUMNS`: the labels, and what each column reads of a telegram
module _ (number_text : ℤ → Text) where
  unfoldable pub columns : List (Text × (Telegram → Option Text))
  unfolding type_cell dpt_cell numeric_cell
  columns =
      (codes "timestamp", λ t. some t.timestamp)
      ∷ (codes "source", λ t. some t.source_address)
      ∷ (codes "source_name", λ t. t.source_name)
      ∷ (codes "target", λ t. some t.target_address)
      ∷ (codes "target_name", λ t. t.target_name)
      ∷ (codes "type", λ t. some (type_cell t.simplified_type t.telegram_type))
      ∷ (codes "direction", λ t. t.direction)
      ∷ (codes "dpt", λ t. some (dpt_cell t.dpt_main t.dpt_sub))
      ∷ (codes "dpt_name", λ t. t.dpt_name)
      ∷ (codes "value", λ t. t.value_formatted)
      ∷ (codes "value_numeric", λ t. numeric_cell number_text t.value_numeric)
      ∷ (codes "unit", λ t. t.unit)
      ∷ (codes "raw", λ t. t.raw_hex)
      ∷ []

  unfoldable pub header_line : CsvDelimiter → Text
  header_line d = join_by (delimiter_code d ∷ []) (map (λ column. column.0) columns)

  unfoldable pub telegram_line : CsvDelimiter → Telegram → Text
  telegram_line d t =
      join_by (delimiter_code d ∷ []) (map (λ column. csv_cell d (column.1 t)) columns)

  unfoldable pub telegrams_to_csv : List Telegram → CsvDelimiter → Text
  unfolding header_line telegram_line join_by
  telegrams_to_csv telegrams d =
      let crlf = carriage_return ∷ line_feed ∷ [] in
      join_by crlf (header_line d ∷ map (telegram_line d) telegrams) ++ crlf
