-- ===== src/Charts/Lock.antt =====
-- frontend/src/utils/chartLock.ts: a unit's chart is split at each lock, by the order of selection.
pub mod Split
use spectrum_knx.Prelude.{
  get, ℕ, zero, suc, ◌+◌, ◌-◌, Bool, true, false, not, ◌&&◌, ◌||◌, Option, none, some, List, [],
  ◌∷◌, ◌++◌, map, ltb, leb, ◌==◌, if◌then◌else◌, length, take, drop, filter, any, sort, Text,
  text_eq, includes, decimal,
}
use spectrum_knx.Charts.{ChartSeries, ChartBucket}

pub record DisplayBucket : Type 0 where
  pub bucket : ChartBucket
  pub key : Text
  pub group_index : ℕ
  pub group_count : ℕ
  pub is_latest : Bool

-- `array.slice(start, end)`
abbrev pub slice {ℓ} : {A : Type ℓ} → ℕ → ℕ → List A → List A
slice start end l = take (end - start) (drop start l)

-- the loop over the thresholds, with what follows it
unfoldable pub slices_from : ℕ → List ℕ → List Text → List (List Text)
slices_from start [] ordered = drop start ordered ∷ []
slices_from start (t ∷ thresholds) ordered =
    slice start t ordered ∷ slices_from t thresholds ordered

-- the last series of an address, as `new Map(...)` keeps it
pub series_by_addr : List ChartSeries → Text → Option ChartSeries
series_by_addr [] a = none
series_by_addr (s ∷ l) a = elim (series_by_addr l a) [
  | some later ↦ some later
  | none ↦ if text_eq s.address a then some s else none
]

push_some : Option ChartSeries → List ChartSeries → List ChartSeries
push_some none rest = rest
push_some (some s) rest = s ∷ rest

-- the series of the addresses, in their order; one that is missing would be `undefined`
pub pick : List ChartSeries → List Text → List ChartSeries
unfolding series_by_addr push_some
pick series [] = []
pick series (a ∷ addrs) = push_some (series_by_addr series a) (pick series addrs)

is_unit : Text → Option Text → Bool
is_unit unit none = false
is_unit unit (some u) = text_eq u unit

-- a bucket's addresses in the order of selection
pub ordered_of : List Text → List (Text × Text) → ChartBucket → List Text
unfolding is_unit
ordered_of selected address_to_unit b =
    let addrs = map (λ (s : ChartSeries). s.address) b.series in
    filter (λ a. is_unit b.unit (get address_to_unit a) && includes addrs a) selected

non_empty : List (List Text) → List (List Text)
non_empty slices = filter (λ s. ltb 0 (length s)) slices

-- the charts of the slices, from the i-th of n
number_groups : ChartBucket → ℕ → ℕ → List (List Text) → List DisplayBucket
number_groups b n i [] = []
number_groups b n i (addrs ∷ slices) =
    record {
      bucket = record b { series = pick b.series addrs };
      key = b.unit ++ (b'#' ∷ decimal i);
      group_index = i + 1;
      group_count = n;
      is_latest = i == n - 1;
    }
    ∷ number_groups b n (i + 1) slices

-- a bucket that no lock splits is one chart
pub split_bucket : List Text → Option (List ℕ) → ChartBucket → List DisplayBucket
unfolding non_empty number_groups
split_bucket ordered (some (t ∷ thresholds)) b =
    let slices = non_empty (slices_from 0 (sort leb (t ∷ thresholds)) ordered) in
    number_groups b (length slices) 0 slices
split_bucket ordered _ b =
    record {
      bucket = record b { series = pick b.series ordered };
      key = b.unit;
      group_index = 1;
      group_count = 1;
      is_latest = true;
    }
    ∷ []

pub split_locked_buckets :
    List ChartBucket → List Text → List (Text × Text) → List (Text × List ℕ) → List DisplayBucket
unfolding split_bucket
split_locked_buckets [] selected address_to_unit lock_thresholds = []
split_locked_buckets (b ∷ buckets) selected address_to_unit lock_thresholds =
    split_bucket (ordered_of selected address_to_unit b) (get lock_thresholds b.unit) b
    ++ split_locked_buckets buckets selected address_to_unit lock_thresholds
