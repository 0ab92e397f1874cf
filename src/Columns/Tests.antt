-- ===== src/Columns/Tests.antt =====
-- Stored column orders and a drag, at concrete columns.
use spectrum_knx.Prelude.{
  ◌≡◌, refl, true, none, some, List, [], ◌∷◌, Text, codes, text_eq, includes,
}
use spectrum_knx.Columns.{
  index_of, insert_at, keep_known, add_missing, normalize_column_order, after, move_column,
  place_after,
}
use spectrum_knx.Columns.Normalized.{IsDistinctText}
use spectrum_knx.Columns.Order.{beside_target, move_column_lem}

abbrev columns : List Text
columns = codes "time" ∷ codes "delta" ∷ codes "source" ∷ []

new_column :
    normalize_column_order (some (some (codes "source") ∷ none ∷ some (codes "time") ∷ [])) columns
    ≡ codes "source" ∷ codes "time" ∷ codes "delta" ∷ []
unfolding normalize_column_order keep_known add_missing place_after index_of insert_at includes
    text_eq
new_column = refl

move_column_lem_example :
    (beside_target after
        (codes "time")
        (codes "source")
        (move_column columns (codes "time") (codes "source") after)
      ≡ true)
    × (includes (move_column columns (codes "time") (codes "source") after) (codes "delta")
        ≡ includes columns (codes "delta"))
    × IsDistinctText (move_column columns (codes "time") (codes "source") after)
unfolding text_eq includes
move_column_lem_example =
    move_column_lem columns (codes "time") (codes "source") after (codes "delta") refl refl refl
      ((refl, (refl, tt)), ((refl, tt), (tt, tt)))
