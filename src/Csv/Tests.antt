-- ===== src/Csv/Tests.antt =====
-- The CSV export at concrete telegrams.
use spectrum_knx.Prelude.{suc, decimal, Text, ◌≡◌, refl, none, some, [], ◌∷◌, ◌++◌, codes}
use spectrum_knx.Telegram.{ℤ, pos, negsuc, Telegram}
use spectrum_knx.Telegram.Samples.{reading}
use spectrum_knx.Csv.{csv_cell, semicolon, telegrams_to_csv}
use spectrum_knx.Csv.RoundTrip.{labels, cells_of, read_csv-telegrams_to_csv}
use spectrum_knx.Csv.Reader.{read_csv}

quoted_cell : csv_cell semicolon (some (codes "a;b\"c")) ≡ codes "\"a;b\"\"c\""
unfolding csv_cell
quoted_cell = refl

two_rows :
    read_csv semicolon (codes "x;\"a;b\"\"c\"" ++ (13 ∷ 10 ∷ codes "y" ++ (13 ∷ 10 ∷ [])))
    ≡ (codes "x" ∷ codes "a;b\"c" ∷ []) ∷ (codes "y" ∷ []) ∷ []
unfolding read_csv
two_rows = refl

-- a telegram whose cells need quotes
abbrev tricky : Telegram
tricky = record reading { source_name = some (codes "Hall; \"north\""); unit = none }

abbrev number_text : ℤ → Text
number_text (pos n) = decimal n
number_text (negsuc n) = b'-' ∷ decimal (suc n)

read_csv-telegrams_to_csv_example :
    read_csv semicolon (telegrams_to_csv number_text (tricky ∷ reading ∷ []) semicolon)
    ≡ labels number_text ∷ cells_of number_text tricky ∷ cells_of number_text reading ∷ []
read_csv-telegrams_to_csv_example =
    read_csv-telegrams_to_csv number_text semicolon (tricky ∷ reading ∷ [])
