-- ===== src/Charts/Data/Aligned.antt =====
-- The shape of the data that frontend/src/hooks/useChartData.ts hands to the chart library.
use spectrum_knx.Prelude.{
  ℕ, ◌<◌, ◌≡◌, refl, Bool, true, false, not, ◌||◌, Option, none, some, List, [], ◌∷◌, ◌++◌, map,
  ltb, leb, ◌==◌, if◌then◌else◌, length, filter, sort, includes, Text, arith, All, All-append,
  All-sort, All-filter_test, Pairwise, Pairwise-filter, Pairwise-sort, sort-IsOrdered, IsOrder,
  Bool-cases, inl, inr,
}
use spectrum_knx.Telegram.{ℤ, Json, Telegram}
use spectrum_knx.Charts.{ChartSeries, ChartBucket, distinct_texts, distinct_numbers}
use spectrum_knx.Charts.Data.{
  Timed, address_of, at, carried, data_loop, build_series, build_bucket, event_series,
  events_bucket, columns, chart_rows, event_addresses, group_loop, use_chart_data,
}

length-map {ℓ} : {A : Type ℓ} {B : Type 0} (f : A → B) (l : List A) → length (map f l) ≡ length l
length-map f [] = refl
length-map f (x ∷ l) = omega (arith, length-map f l)

-- a column for each time, once and in order, and a value and a mark in each
pub record IsAligned (b : ChartBucket) : Type 0 where
  pub ascending : Pairwise (λ s t. s < t) b.timestamps
  pub filled :
      All
        (λ (s : ChartSeries).
          (length s.values ≡ length b.timestamps) × (length s.real ≡ length b.timestamps))
        b.series

leb-IsOrder : IsOrder leb
leb-IsOrder = record { total = λ a b h. ground arith; trans = λ a b c h k. ground arith }

distinct : (l : List ℕ) → Pairwise (λ s t. (s == t) ≡ false) (distinct_numbers l)
unfolding distinct_numbers
distinct [] = tt
distinct (x ∷ l) = (
  All-filter_test _ _ (distinct_numbers l) (λ y h. ground arith),
  Pairwise-filter _ _ (distinct_numbers l) (distinct l),
)

strictly :
    (l : List ℕ)
    → Pairwise (λ s t. leb s t ≡ true) l
    → Pairwise (λ s t. (s == t) ≡ false) l
    → Pairwise (λ s t. s < t) l
strictly [] h k = tt
strictly (x ∷ l) h k = (below l h.0 k.0, strictly l h.1 k.1)
  where
    below :
        (m : List ℕ)
        → All (λ t. leb x t ≡ true) m
        → All (λ t. (x == t) ≡ false) m
        → All (λ t. x < t) m
    below [] a b = tt
    below (y ∷ m) a b = (ground (arith, a.0, b.0), below m a.1 b.1)

module _ (get_time : Text → ℕ) (locale_le : Text → Text → Bool)
    (decode_raw_dpt : List ℕ → Text → Option ℤ) (raw_dpt_unit : Text → Option Text)
    (show_json : Json → Text) (dpt_overrides : List (Text × Text)) where
  columns-ascending :
      (max_time : ℕ) (rows : List Timed)
      → Pairwise
          (λ s t. s < t)
          (columns get_time locale_le decode_raw_dpt raw_dpt_unit show_json dpt_overrides max_time
            rows)
  unfolding columns
  columns-ascending max_time rows =
      let times = distinct_numbers (map (λ (r : Timed). r.ts) rows ++ max_time ∷ []) in
      strictly (sort leb times) (sort-IsOrdered leb-IsOrder times)
        (Pairwise-sort leb _ (λ a b h. ground arith) times (distinct _))

  length-data_loop :
      (address : Text) (rows : List Timed) (last : Option ℤ) (timestamps : List ℕ)
      → length (
          data_loop get_time locale_le decode_raw_dpt raw_dpt_unit show_json dpt_overrides address
            rows last timestamps)
        ≡ length timestamps
  unfolding data_loop
  length-data_loop address rows last [] = refl
  length-data_loop address rows last (ts ∷ timestamps) =
      let found =
        at get_time locale_le decode_raw_dpt raw_dpt_unit show_json dpt_overrides address ts rows in
      let value =
        carried get_time locale_le decode_raw_dpt raw_dpt_unit show_json dpt_overrides last found in
      omega (arith, length-data_loop address rows value timestamps)

  build_bucket-IsAligned :
      (max_time : ℕ) (group : Text × List Timed)
      → IsAligned (
          build_bucket get_time locale_le decode_raw_dpt raw_dpt_unit show_json dpt_overrides
            max_time group)
  unfolding build_bucket build_series
  build_bucket-IsAligned max_time (unit, rows) = record {
    ascending = columns-ascending max_time rows;
    filled = each (distinct_texts (map address_of rows));
  }
    where
      timestamps : List ℕ
      timestamps =
          columns get_time locale_le decode_raw_dpt raw_dpt_unit show_json dpt_overrides max_time
            rows

      each :
          (addresses : List Text)
          → All
              (λ (s : ChartSeries).
                (length s.values ≡ length timestamps) × (length s.real ≡ length timestamps))
              (map
                (build_series get_time locale_le decode_raw_dpt raw_dpt_unit show_json dpt_overrides
                  rows timestamps)
                addresses)
      each [] = tt
      each (a ∷ addresses) = (
        unfold build_series in (length-data_loop a rows none timestamps, length-map _ timestamps),
        each addresses,
      )

  events_bucket-IsAligned :
      (max_time : ℕ) (addresses : List Text) (rows : List Timed)
      → IsAligned (
          events_bucket get_time locale_le decode_raw_dpt raw_dpt_unit show_json dpt_overrides
            max_time addresses rows)
  unfolding events_bucket
  events_bucket-IsAligned max_time addresses rows = record {
    ascending = columns-ascending max_time _;
    filled = each _ _ addresses;
  }
    where
      each :
          (event_rows : List Timed) (timestamps : List ℕ) (addresses : List Text)
          → All
              (λ (s : ChartSeries).
                (length s.values ≡ length timestamps) × (length s.real ≡ length timestamps))
              (map
                (event_series get_time locale_le decode_raw_dpt raw_dpt_unit show_json dpt_overrides
                  event_rows timestamps)
                addresses)
      each event_rows timestamps [] = tt
      each event_rows timestamps (a ∷ addresses) = (
        unfold event_series in (length-map _ timestamps, length-map _ timestamps),
        each event_rows timestamps addresses,
      )

  All-build_bucket :
      (max_time : ℕ) (groups : List (Text × List Timed))
      → All IsAligned (
          map
            (build_bucket get_time locale_le decode_raw_dpt raw_dpt_unit show_json dpt_overrides
              max_time)
            groups)
  All-build_bucket max_time [] = tt
  All-build_bucket max_time (g ∷ groups) =
      (build_bucket-IsAligned max_time g, All-build_bucket max_time groups)

  chart_rows-IsAligned :
      (rows : List Timed) (newest : Option Timed)
      → All IsAligned
          (chart_rows get_time locale_le decode_raw_dpt raw_dpt_unit show_json dpt_overrides rows
            newest).buckets
  unfolding chart_rows
  chart_rows-IsAligned [] none = tt
  chart_rows-IsAligned [] (some newest) = tt
  chart_rows-IsAligned (first ∷ rows) none = tt
  chart_rows-IsAligned (first ∷ rows) (some newest) =
      let all = first ∷ rows in
      let addresses =
        event_addresses get_time locale_le decode_raw_dpt raw_dpt_unit show_json dpt_overrides
          all in
      let plotted = filter (λ r. not (includes addresses (address_of r))) all in
      let groups =
        group_loop get_time locale_le decode_raw_dpt raw_dpt_unit show_json dpt_overrides plotted
          [] in
      All-sort _ IsAligned _ (
        All-append IsAligned
          (map
            (build_bucket get_time locale_le decode_raw_dpt raw_dpt_unit show_json dpt_overrides
              newest.ts)
            groups)
          (if ltb 0 (length addresses)
            then events_bucket get_time locale_le decode_raw_dpt raw_dpt_unit show_json
                dpt_overrides newest.ts addresses all
              ∷ []
            else [])
          (All-build_bucket newest.ts groups) (events (ltb 0 (length addresses)) addresses))
    where
      events :
          (c : Bool) (addresses : List Text)
          → All IsAligned (
              if c
              then events_bucket get_time locale_le decode_raw_dpt raw_dpt_unit show_json
                  dpt_overrides newest.ts addresses
                  (first ∷ rows)
                ∷ []
              else [])
      events true addresses = (events_bucket-IsAligned newest.ts addresses (first ∷ rows), tt)
      events false addresses = tt

  -- In every chart the columns are distinct times in order, as the chart library needs, and each
  -- series has a value and a mark for every column.
  pub use_chart_data-IsAligned :
      (telegrams : List Telegram) (selected : List Text)
      → All IsAligned
          (use_chart_data get_time locale_le decode_raw_dpt raw_dpt_unit show_json dpt_overrides
            telegrams selected).buckets
  unfolding use_chart_data
  use_chart_data-IsAligned telegrams selected =
      elim (Bool-cases (length selected == 0 || length telegrams == 0)) [
        | inl h ↦ rw h tt
        | inr h ↦ rw h (chart_rows-IsAligned _ _)
      ]
