-- ===== src/Csv/RoundTrip.antt =====
-- A reader of CSV gets back what the export of frontend/src/utils/telegramCsv.ts was given.
use mathlib.Core.List.{append_assoc}
use mathlib.Core.Path.{ap₂, fun_ext}
use spectrum_knx.Prelude.{
  ◌≡◌, refl, ap, ◌∙◌, Bool, true, false, Option, none, some, List, [], ◌∷◌, ◌++◌, map,
  if◌then◌else◌, Text,
}
use spectrum_knx.Telegram.{ℤ, Telegram, or_empty}
use spectrum_knx.Csv.{
  CsvDelimiter, comma, semicolon, delimiter_code, carriage_return, line_feed, quote_if_needed,
  csv_cell, join_by, columns, header_line, telegram_line, telegrams_to_csv,
}
use spectrum_knx.Csv.Reader.{
  plain, after_quote, State, step, end_cell, end_row, feed, read_csv, feed-append,
}
use spectrum_knx.Csv.Cells.{reading, needs_quotes, feed-quote_if_needed}

crlf : Text
crlf = carriage_return ∷ line_feed ∷ []

-- outside of quotes a delimiter ends the cell, and the line's end ends the row
after_delimiter :
    (d : CsvDelimiter) (b : Bool) (v : Text) (cells : List Text) (rows : List (List Text))
    → step d (delimiter_code d) (reading (if b then after_quote else plain) v cells rows)
      ≡ reading plain [] (cells ++ (v ∷ [])) rows
unfolding step end_cell
after_delimiter comma true v cells rows = refl
after_delimiter comma false v cells rows = refl
after_delimiter semicolon true v cells rows = refl
after_delimiter semicolon false v cells rows = refl

after_line :
    (d : CsvDelimiter) (b : Bool) (v : Text) (cells : List Text) (rows : List (List Text))
    → feed d crlf (reading (if b then after_quote else plain) v cells rows)
      ≡ reading plain [] [] (rows ++ ((cells ++ (v ∷ [])) ∷ []))
unfolding feed step end_row crlf
after_line comma true v cells rows = refl
after_line comma false v cells rows = refl
after_line semicolon true v cells rows = refl
after_line semicolon false v cells rows = refl

module _ (d : CsvDelimiter) where
  abbrev line : List Text → Text
  line values = join_by (delimiter_code d ∷ []) (map (quote_if_needed d) values)

  -- a written line, with its end, is read as one more row
  feed-line :
      (v : Text) (values cells : List Text) (rows : List (List Text))
      → feed d (line (v ∷ values) ++ crlf) (reading plain [] cells rows)
        ≡ reading plain [] [] (rows ++ ((cells ++ (v ∷ values)) ∷ []))
  unfolding join_by
  feed-line v [] cells rows =
      feed-append d (quote_if_needed d v) crlf (reading plain [] cells rows)
      ∙ ap (feed d crlf) (feed-quote_if_needed d cells rows v)
      ∙ after_line d (needs_quotes d v) v cells rows
  feed-line v (w ∷ values) cells rows =
      let next : feed d (line (w ∷ values) ++ crlf) (reading plain [] (cells ++ (v ∷ [])) rows)
          ≡ reading plain [] [] (rows ++ ((cells ++ (v ∷ w ∷ values)) ∷ [])) =
        feed-line w values (cells ++ (v ∷ [])) rows
        ∙ ap (λ r. reading plain [] [] (rows ++ (r ∷ [])))
            (append_assoc cells (v ∷ []) (w ∷ values)) in
      first_cell v (line (w ∷ values)) cells rows ∙ next
    where
      first_cell :
          (v rest : Text) (cells : List Text) (rows : List (List Text))
          → feed d
              ((quote_if_needed d v ++ (delimiter_code d ∷ rest)) ++ crlf)
              (reading plain [] cells rows)
            ≡ feed d (rest ++ crlf) (reading plain [] (cells ++ (v ∷ [])) rows)
      first_cell v rest cells rows =
          ap (λ t. feed d t (reading plain [] cells rows))
            (append_assoc (quote_if_needed d v) (delimiter_code d ∷ rest) crlf)
          ∙ feed-append d (quote_if_needed d v) (delimiter_code d ∷ (rest ++ crlf))
              (reading plain [] cells rows)
          ∙ ap (feed d (delimiter_code d ∷ (rest ++ crlf))) (feed-quote_if_needed d cells rows v)
          ∙ (unfold feed in
              ap (feed d (rest ++ crlf)) (after_delimiter d (needs_quotes d v) v cells rows))

  -- a row has a first cell
  abbrev row_of : Text × List Text → List Text
  row_of (v, values) = v ∷ values

  -- lines are read one after the other
  feed-lines :
      (r : Text × List Text) (rest : List (Text × List Text)) (rows : List (List Text))
      → feed d
          (join_by crlf (map (λ r. line (row_of r)) (r ∷ rest)) ++ crlf)
          (reading plain [] [] rows)
        ≡ reading plain [] [] (rows ++ map row_of (r ∷ rest))
  unfolding join_by
  feed-lines (v, values) [] rows = feed-line v values [] rows
  feed-lines (v, values) ((w, more) ∷ rest) rows =
      ap (λ t. feed d t (reading plain [] [] rows)) (regroup (line (v ∷ values)) _)
      ∙ feed-append d (line (v ∷ values) ++ crlf) _ (reading plain [] [] rows)
      ∙ ap (feed d _) (feed-line v values [] rows)
      ∙ feed-lines (w, more) rest (rows ++ ((v ∷ values) ∷ []))
      ∙ ap (reading plain [] [])
          (append_assoc rows ((v ∷ values) ∷ []) (map row_of ((w, more) ∷ rest)))
    where
      regroup : (a b : Text) → (a ++ (crlf ++ b)) ++ crlf ≡ (a ++ crlf) ++ (b ++ crlf)
      regroup a b = simp append_assoc

csv_cell_lem : (d : CsvDelimiter) (o : Option Text) → csv_cell d o ≡ quote_if_needed d (or_empty o)
unfolding csv_cell quote_if_needed
csv_cell_lem d none = refl
csv_cell_lem d (some s) = refl

module _ (number_text : ℤ → Text) where
  -- the labels of the columns, and the cells of a telegram, in the order of the columns
  abbrev pub labels : List Text
  labels = map (λ column. column.0) (columns number_text)

  abbrev pub cells_of : Telegram → List Text
  cells_of t = map (λ column. or_empty (column.1 t)) (columns number_text)

  abbrev head_cells : List Text → Text × List Text
  head_cells [] = ([], [])
  head_cells (v ∷ values) = (v, values)

  header_line_lem :
      (d : CsvDelimiter) → header_line number_text d ≡ line d (row_of d (head_cells labels))
  unfolding header_line columns quote_if_needed
  header_line_lem comma = refl
  header_line_lem semicolon = refl

  telegram_line_lem :
      (d : CsvDelimiter) (t : Telegram)
      → telegram_line number_text d t ≡ line d (row_of d (head_cells (cells_of t)))
  unfolding telegram_line columns
  telegram_line_lem d t = rw (fun_ext (csv_cell_lem d)) refl

  telegram_lines :
      (d : CsvDelimiter) (telegrams : List Telegram)
      → map (telegram_line number_text d) telegrams
        ≡ map (λ r. line d (row_of d r)) (map (λ t. head_cells (cells_of t)) telegrams)
  telegram_lines d [] = refl
  telegram_lines d (t ∷ telegrams) = ap₂ ◌∷◌ (telegram_line_lem d t) (telegram_lines d telegrams)

  rows_of :
      (d : CsvDelimiter) (telegrams : List Telegram)
      → map (row_of d) (map (λ t. head_cells (cells_of t)) telegrams) ≡ map cells_of telegrams
  unfolding columns
  rows_of d [] = refl
  rows_of d (t ∷ telegrams) = ap (◌∷◌ (cells_of t)) (rows_of d telegrams)

  label_row : (d : CsvDelimiter) → row_of d (head_cells labels) ≡ labels
  unfolding columns
  label_row d = refl

  -- A reader of CSV by RFC 4180 gets back from the export exactly the labels and, for each telegram
  -- in order, its cells, whatever characters the cells hold and whichever delimiter is chosen.
  pub read_csv-telegrams_to_csv :
      (d : CsvDelimiter) (telegrams : List Telegram)
      → read_csv d (telegrams_to_csv number_text telegrams d) ≡ labels ∷ map cells_of telegrams
  unfolding read_csv telegrams_to_csv crlf header_line
  read_csv-telegrams_to_csv d telegrams =
      ap (λ (lines : List Text). read_csv d (join_by crlf lines ++ crlf))
        (ap₂ ◌∷◌ (header_line_lem d) (telegram_lines d telegrams))
      ∙ ap (λ (s : State). s.rows)
          (feed-lines d (head_cells labels) (map (λ t. head_cells (cells_of t)) telegrams) [])
      ∙ ap₂ ◌∷◌ (label_row d) (rows_of d telegrams)
