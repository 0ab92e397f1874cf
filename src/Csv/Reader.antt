-- ===== src/Csv/Reader.antt =====
-- A reader of CSV after RFC 4180, against which frontend/src/utils/telegramCsv.ts is stated: cells
-- between delimiters, lines that end in CR LF, and quoted cells in which a quote is doubled.
use spectrum_knx.Prelude.{
  ℕ, Bool, true, false, ◌&&◌, List, [], ◌∷◌, ◌++◌, ◌==◌, if◌then◌else◌, Text, ◌≡◌, refl,
}
use spectrum_knx.Csv.{CsvDelimiter, delimiter_code, quote, carriage_return, line_feed}

pub data Mode : Type 0 where
  plain quoted after_quote after_return : Mode

pub record State : Type 0 where
  pub mode : Mode
  pub cell : Text
  pub row : List Text
  pub rows : List (List Text)

abbrev pub is_empty_text : Text → Bool
is_empty_text [] = true
is_empty_text (c ∷ s) = false

unfoldable pub keep : ℕ → State → State
keep c s = record s { cell = s.cell ++ (c ∷ []) }

unfoldable pub end_cell : State → State
end_cell s = record s { mode = plain; cell = []; row = s.row ++ (s.cell ∷ []) }

unfoldable pub end_row : State → State
end_row s = record s {
  mode = plain;
  cell = [];
  row = [];
  rows = s.rows ++ ((s.row ++ (s.cell ∷ [])) ∷ []);
}

-- what ends a cell outside of quotes
outside : CsvDelimiter → ℕ → State → State
unfolding keep end_cell end_row
outside d c s =
    if c == delimiter_code d
    then end_cell s
    else if c == carriage_return
    then record s { mode = after_return }
    else if c == line_feed
    then end_row s
    else keep c s

step_in : Mode → CsvDelimiter → ℕ → State → State
unfolding outside keep end_row
step_in plain d c s =
    if c == quote && is_empty_text s.cell then record s { mode = quoted } else outside d c s
step_in quoted d c s = if c == quote then record s { mode = after_quote } else keep c s
step_in after_quote d c s =
    if c == quote then keep quote (record s { mode = quoted }) else outside d c s
step_in after_return d c s =
    if c == line_feed then end_row s else keep c (record s { mode = plain })

unfoldable pub step : CsvDelimiter → ℕ → State → State
unfolding step_in
step d c s = step_in s.mode d c s

unfoldable pub feed : CsvDelimiter → Text → State → State
unfolding step
feed d [] s = s
feed d (c ∷ text) s = feed d text (step d c s)

-- the rows of a text; a last line that is not ended is no row
unfoldable pub read_csv : CsvDelimiter → Text → List (List Text)
unfolding feed
read_csv d text = (feed d text (record { mode = plain; cell = []; row = []; rows = [] })).rows

pub feed-append :
    (d : CsvDelimiter) (a b : Text) (s : State) → feed d (a ++ b) s ≡ feed d b (feed d a s)
unfolding feed
feed-append d [] b s = refl
feed-append d (c ∷ a) b s = feed-append d a b (step d c s)
