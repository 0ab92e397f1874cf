-- ===== src/Csv/Cells.antt =====
-- A reader of CSV gets back a cell that frontend/src/utils/telegramCsv.ts wrote.
use mathlib.Core.List.{append_assoc, append-nil}
use spectrum_knx.Prelude.{
  ℕ, ◌≡◌, refl, ap, ◌∙◌, Bool, false, ◌||◌, List, [], ◌∷◌, ◌++◌, ◌==◌, if◌then◌else◌, any, Text,
  arith, Bool-cases, inl, inr,
}
use spectrum_knx.Csv.{
  CsvDelimiter, delimiter_code, quote, is_special, double_quotes, quote_if_needed,
}
use spectrum_knx.Csv.Reader.{Mode, plain, quoted, after_quote, State, step, keep, feed, feed-append}

abbrev pub needs_quotes : CsvDelimiter → Text → Bool
needs_quotes d s = any (λ c. c == delimiter_code d) s || any is_special s

-- the reader in a row, with `cell` read of the cell it is in
abbrev pub reading : Mode → Text → List Text → List (List Text) → State
reading mode cell row rows = record { mode = mode; cell = cell; row = row; rows = rows }

module _ (d : CsvDelimiter) (cells : List Text) (rows : List (List Text)) where
  abbrev ordinary : ℕ → Bool
  ordinary c = c == delimiter_code d || is_special c

  step_plain :
      (c : ℕ) (cell : Text)
      → ordinary c ≡ false
      → step d c (reading plain cell cells rows) ≡ reading plain (cell ++ (c ∷ [])) cells rows
  unfolding step keep is_special
  step_plain c cell h = ground (arith, h)

  feed_plain :
      (v cell : Text)
      → needs_quotes d v ≡ false
      → feed d v (reading plain cell cells rows) ≡ reading plain (cell ++ v) cells rows
  unfolding feed
  feed_plain [] cell h = rw append-nil
  feed_plain (c ∷ v) cell h =
      let here : ordinary c ≡ false = ground (arith, h) in
      let later : needs_quotes d v ≡ false = ground (arith, h) in
      ap (feed d v) (step_plain c cell here)
      ∙ feed_plain v (cell ++ (c ∷ [])) later
      ∙ ap (λ t. reading plain t cells rows) (append_assoc cell (c ∷ []) v)

  step_quoted :
      (c : ℕ) (cell : Text)
      → (c == quote) ≡ false
      → step d c (reading quoted cell cells rows) ≡ reading quoted (cell ++ (c ∷ [])) cells rows
  unfolding step keep
  step_quoted c cell h = rw h

  feed_quoted :
      (v cell : Text)
      → feed d (double_quotes v) (reading quoted cell cells rows)
        ≡ reading quoted (cell ++ v) cells rows
  unfolding double_quotes
  feed_quoted [] cell = unfold feed in rw append-nil
  feed_quoted (c ∷ v) cell =
      let more : feed d (double_quotes v) (reading quoted (cell ++ (c ∷ [])) cells rows)
          ≡ reading quoted (cell ++ (c ∷ v)) cells rows =
        feed_quoted v (cell ++ (c ∷ []))
        ∙ ap (λ t. reading quoted t cells rows) (append_assoc cell (c ∷ []) v) in
      elim (Bool-cases (c == quote)) [
        | inl e ↦ rw e (two_quotes v c cell (ground (arith, e)) ∙ more)
        | inr e ↦ rw e (one_other v c cell e ∙ more)
      ]
    where
      two_quotes :
          (v : Text) (c : ℕ) (cell : Text)
          → c ≡ quote
          → feed d (quote ∷ quote ∷ double_quotes v) (reading quoted cell cells rows)
            ≡ feed d (double_quotes v) (reading quoted (cell ++ (c ∷ [])) cells rows)
      two_quotes v c cell e = rw e (unfold feed step keep in refl)

      one_other :
          (v : Text) (c : ℕ) (cell : Text)
          → (c == quote) ≡ false
          → feed d (c ∷ double_quotes v) (reading quoted cell cells rows)
            ≡ feed d (double_quotes v) (reading quoted (cell ++ (c ∷ [])) cells rows)
      one_other v c cell e = unfold feed in ap (feed d (double_quotes v)) (step_quoted c cell e)

  abbrev pub after : Text → Mode
  after v = if needs_quotes d v then after_quote else plain

  -- a written cell is read whole
  pub feed-quote_if_needed :
      (v : Text)
      → feed d (quote_if_needed d v) (reading plain [] cells rows) ≡ reading (after v) v cells rows
  unfolding quote_if_needed
  feed-quote_if_needed v = elim (Bool-cases (needs_quotes d v)) [
    | inl e ↦ rw e (
        opening v
        ∙ feed-append d (double_quotes v) (quote ∷ []) (reading quoted [] cells rows)
        ∙ ap (feed d (quote ∷ [])) (feed_quoted v [])
        ∙ closing v)
    | inr e ↦ rw e (feed_plain v [] e)
  ]
    where
      opening :
          (v : Text)
          → feed d (quote ∷ (double_quotes v ++ (quote ∷ []))) (reading plain [] cells rows)
            ≡ feed d (double_quotes v ++ (quote ∷ [])) (reading quoted [] cells rows)
      opening v = unfold feed step in refl

      closing :
          (v : Text)
          → feed d (quote ∷ []) (reading quoted v cells rows) ≡ reading after_quote v cells rows
      closing v = unfold feed step in refl
