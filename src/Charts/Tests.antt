-- ===== src/Charts/Tests.antt =====
-- The charts' theorems at concrete telegrams.
use spectrum_knx.Prelude.{◌≡◌, true, false, none, some, [], ◌∷◌, All, Text, codes}
use spectrum_knx.Telegram.Samples.{reading}
use spectrum_knx.Charts.{ChartSeries, ChartBucket}
use spectrum_knx.Charts.Data.{use_chart_data}
use spectrum_knx.Charts.Data.Aligned.{IsAligned, use_chart_data-IsAligned}
use spectrum_knx.Charts.Lock.{pick, split_bucket}
use spectrum_knx.Charts.Lock.Split.{series_of, series_of-split_bucket}

abbrev line : Text → ChartSeries
line address = record { address = address; name = address; values = []; real = []; labels = none }

abbrev lux : ChartBucket
lux = record {
  unit = codes "lx";
  is_binary = false;
  is_events = false;
  timestamps = [];
  series = line (codes "1/1/1") ∷ line (codes "1/1/2") ∷ line (codes "1/1/3") ∷ [];
}

use_chart_data-IsAligned_example :
    All IsAligned
      (use_chart_data
        (λ t. 7)
        (λ a b. true)
        (λ p k. none)
        (λ k. none)
        (λ j. codes "json")
        []
        (reading ∷ reading ∷ [])
        (codes "1/2/3" ∷ [])).buckets
use_chart_data-IsAligned_example =
    use_chart_data-IsAligned (λ t. 7) (λ a b. true) (λ p k. none) (λ k. none) (λ j. codes "json") []
      (reading ∷ reading ∷ []) (codes "1/2/3" ∷ [])

series_of-split_bucket_example :
    series_of
      (split_bucket (codes "1/1/2" ∷ codes "1/1/1" ∷ codes "1/1/3" ∷ []) (some (2 ∷ [])) lux)
    ≡ pick lux.series (codes "1/1/2" ∷ codes "1/1/1" ∷ codes "1/1/3" ∷ [])
series_of-split_bucket_example =
    series_of-split_bucket (codes "1/1/2" ∷ codes "1/1/1" ∷ codes "1/1/3" ∷ []) (some (2 ∷ [])) lux
