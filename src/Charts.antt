-- ===== src/Charts.antt =====
-- The charts of the frontend: the series and buckets that frontend/src/hooks/useChartData.ts builds
-- and that frontend/src/utils/chartLock.ts splits. A record with keys that are only looked up is an
-- association list.
pub mod Data
pub mod Lock
mod Tests
use spectrum_knx.Prelude.{
  ℕ, Bool, true, false, not, ◌||◌, Option, none, some, List, [], ◌∷◌, ◌++◌, filter, any,
  if◌then◌else◌, ◌==◌, Text, text_eq, includes,
}
use spectrum_knx.Telegram.{ℤ}

pub record ChartSeries : Type 0 where
  pub address : Text
  pub name : Text
  pub values : List (Option ℤ)
  pub real : List Bool
  pub labels : Option (List (Option Text))

pub record ChartBucket : Type 0 where
  pub unit : Text
  pub is_binary : Bool
  pub is_events : Bool
  pub timestamps : List ℕ
  pub series : List ChartSeries

pub record ChartDataResult : Type 0 where
  pub buckets : List ChartBucket
  pub min_time : Option ℕ
  pub max_time : Option ℕ
  pub address_to_unit : List (Text × Text)

-- `s || fallback`, for a text that may be missing or empty
unfoldable pub or_else : Option Text → Text → Text
or_else none fallback = fallback
or_else (some []) fallback = fallback
or_else (some (c ∷ s)) fallback = c ∷ s

-- the members of a set, in the order in which they were added first
unfoldable pub distinct_texts : List Text → List Text
distinct_texts [] = []
distinct_texts (x ∷ xs) = x ∷ filter (λ y. not (text_eq y x)) (distinct_texts xs)

unfoldable pub distinct_numbers : List ℕ → List ℕ
distinct_numbers [] = []
distinct_numbers (x ∷ xs) = x ∷ filter (λ y. not (y == x)) (distinct_numbers xs)
