-- ===== src/Sorting/Tests.antt =====
-- Clicks on the columns, and a sort.
use mathlib.Core.List.{Perm}
use spectrum_knx.Prelude.{◌≡◌, refl, true, false, List, [], ◌∷◌, ◌++◌, codes, IsOrdered}
use spectrum_knx.Telegram.{Telegram}
use spectrum_knx.Telegram.Samples.{reading}
use spectrum_knx.Sorting.{
  timestamp, source_address, asc, SortConfig, newest_first, click, click_additive,
  toggle_sort_level, sort_telegrams,
}
use spectrum_knx.Sorting.Columns.{in_levels}
use spectrum_knx.Sorting.Sorted.{sort_telegrams_lem}

second_click :
    toggle_sort_level (newest_first timestamp ∷ []) timestamp false
    ≡ record { key = timestamp; direction = asc } ∷ []
unfolding toggle_sort_level click
second_click = refl

added_level :
    toggle_sort_level (newest_first timestamp ∷ []) source_address true
    ≡ newest_first timestamp ∷ newest_first source_address ∷ []
unfolding toggle_sort_level click_additive
added_level = refl

abbrev from_first : SortConfig
from_first = record { key = source_address; direction = asc } ∷ []

abbrev unsorted : List Telegram
unsorted = record reading { source_address = codes "1.1.9" } ∷ reading ∷ []

sort_telegrams_lem_example :
    Perm (sort_telegrams (λ t. 3) unsorted from_first) unsorted
    × IsOrdered
        (in_levels (λ t. 3) (from_first ++ newest_first timestamp ∷ []))
        (sort_telegrams (λ t. 3) unsorted from_first)
sort_telegrams_lem_example = sort_telegrams_lem (λ t. 3) unsorted from_first
