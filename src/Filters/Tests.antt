-- ===== src/Filters/Tests.antt =====
-- Runs of the filters, and their theorems at concrete entries.
use spectrum_knx.Prelude.{
  ◌≡◌, refl, none, some, [], ◌∷◌, length, filter, arith, codes, decimal, pad_start,
}
use spectrum_knx.Filters.{
  ActiveFilters, dpts, default_filters, FilterableTelegram, dpt_key, matches_telegram, count_of,
  count_filter_options,
}
use spectrum_knx.Filters.Counts.{only, counts_of, counts_match}

abbrev one_source : ActiveFilters
one_source = record default_filters { sources = codes "1.1.4" ∷ codes "1.1.5" ∷ [] }

abbrev temperature : FilterableTelegram
temperature = record {
  source_address = codes "1.1.4";
  target_address = codes "1/2/3";
  simplified_type = some (codes "Write");
  direction = none;
  dpt_main = some 9;
  dpt_sub = some 1;
}

key_of_temperature : dpt_key 9 (some 1) ≡ codes "9.001"
unfolding dpt_key decimal pad_start
key_of_temperature = refl

counts_match_example :
    count_of (counts_of (count_filter_options (temperature ∷ temperature ∷ [])) dpts) (codes "9")
    ≡ length
        (filter (λ t. matches_telegram t (only dpts (codes "9"))) (temperature ∷ temperature ∷ []))
counts_match_example = counts_match (temperature ∷ temperature ∷ []) dpts (codes "9") (omega arith)

abbrev marked : ActiveFilters
marked = record one_source { disabled = codes "sources:1.1.4" ∷ codes "sources:9.9.9" ∷ [] }
