-- ===== src/Charts/Data.antt =====
-- frontend/src/hooks/useChartData.ts. The host's date parser and its order of texts by locale are
-- arguments, and so are the decoder of raw payloads and its units (frontend/src/utils/rawDpt.ts),
-- for which nothing is assumed here, and the text of a JSON value.
pub mod Aligned
use spectrum_knx.Prelude.{
  get, put, ℕ, zero, suc, ◌+◌, Bool, true, false, not, ◌&&◌, ◌||◌, Option, none, some, List, [],
  ◌∷◌, ◌++◌, map, ltb, leb, ◌==◌, if◌then◌else◌, length, filter, any, last?, sort, Text, codes,
  text_eq, includes,
}
use spectrum_knx.Telegram.{ℤ, pos, Json, bool, number, array, object, Telegram}
use spectrum_knx.Charts.{
  ChartSeries, ChartBucket, ChartDataResult, or_else, distinct_texts, distinct_numbers,
}

-- a telegram with its time
pub record Timed : Type 0 where
  pub telegram : Telegram
  pub ts : ℕ

abbrev pub address_of : Timed → Text
address_of r = r.telegram.target_address

abbrev pub is_some {ℓ} : {A : Type ℓ} → Option A → Bool
is_some none = false
is_some (some x) = true

-- `typeof value_json === 'boolean'`
is_boolean : Option Json → Bool
is_boolean (some (bool b)) = true
is_boolean _ = false

is_one : Option ℕ → Bool
is_one none = false
is_one (some n) = n == 1

-- `value || undefined`
truthy : Option Text → Option Text
truthy none = none
truthy (some []) = none
truthy (some (c ∷ s)) = some (c ∷ s)

first_find : (Timed → Bool) → List Timed → Option Timed
first_find p [] = none
first_find p (r ∷ rows) = if p r then some r else first_find p rows

module _ (get_time : Text → ℕ) (locale_le : Text → Text → Bool)
    (decode_raw_dpt : List ℕ → Text → Option ℤ) (raw_dpt_unit : Text → Option Text)
    (show_json : Json → Text) (dpt_overrides : List (Text × Text)) where
  -- the datatype chosen for a group address that has none
  override_key : Telegram → Option Text
  unfolding truthy
  override_key t = if is_some t.dpt_main then none else truthy (get dpt_overrides t.target_address)

  decode_json : Option Json → Option Text → Option ℤ
  decode_json (some (array payload)) (some key) = decode_raw_dpt payload key
  decode_json _ _ = none

  override_value : Telegram → Option ℤ
  unfolding decode_json
  override_value t = decode_json t.value_json (override_key t)

  -- the value of a telegram, for the test whether its address can be plotted: no truth values
  decodable_value : Telegram → Option ℤ
  decodable_value t = elim t.value_numeric [
    | some v ↦ some v
    | none ↦ elim t.value_json [
      | some (number v) ↦ some v
      | _ ↦ if is_some (override_key t) then override_value t else none
    ]
  ]

  plotted_value : Telegram → Option ℤ
  plotted_value t = elim t.value_numeric [
    | some v ↦ some v
    | none ↦ elim t.value_json [
      | some (bool true) ↦ some (pos 1)
      | some (bool false) ↦ some (pos 0)
      | some (number v) ↦ some v
      | _ ↦ override_value t
    ]
  ]

  -- the rows to plot, in order of time
  is_selected : List Text → Telegram → Bool
  is_selected selected t = ltb 0 (length t.target_address) && includes selected t.target_address

  decoded_gas : List Text → List Telegram → List Text
  unfolding is_selected
  decoded_gas selected telegrams =
      map (λ (t : Telegram). t.target_address)
        (filter (λ t. is_selected selected t && is_some t.dpt_main) telegrams)

  timed : Telegram → Timed
  timed t = record { telegram = t; ts = get_time t.timestamp }

  relevant : List Text → List Telegram → List Timed
  unfolding decoded_gas timed
  relevant selected telegrams =
      let decoded = decoded_gas selected telegrams in
      sort (λ a b. leb a.ts b.ts)
        (map timed (
          filter (λ t. is_some t.dpt_main || not (includes decoded t.target_address))
            (filter (λ t. is_some t.value_numeric || is_some t.value_json)
              (filter (is_selected selected) telegrams))))

  is_binary_row : Timed → Bool
  unfolding is_boolean is_one
  is_binary_row r = is_one r.telegram.dpt_main || is_boolean r.telegram.value_json

  -- the addresses that are neither binary nor ever have a number
  event_addresses : List Timed → List Text
  unfolding is_binary_row decodable_value
  event_addresses rows =
      let binary = map address_of (filter is_binary_row rows) in
      let decodable =
        map address_of
          (filter (λ r. not (is_binary_row r) && is_some (decodable_value r.telegram)) rows) in
      filter (λ a. not (includes binary a) && not (includes decodable a))
        (distinct_texts (map address_of rows))

  override_unit : Text → Text
  override_unit key = or_else (raw_dpt_unit key) (codes "DPT " ++ key)

  bucket_key : Timed → Text
  unfolding is_binary_row override_unit
  bucket_key r = if is_binary_row r then codes "binary" else elim (override_key r.telegram) [
    | none ↦ or_else r.telegram.unit (codes "unknown")
    | some key ↦ override_unit key
  ]

  -- a row joins its bucket's rows, or starts a new bucket at the end
  join : Text → Timed → List (Text × List Timed) → List (Text × List Timed)
  join key r [] = (key, r ∷ []) ∷ []
  join key r ((k, rows) ∷ groups) =
      let rest = join key r groups in
      if text_eq k key then (k, rows ++ r ∷ []) ∷ groups else (k, rows) ∷ rest

  group_loop : List Timed → List (Text × List Timed) → List (Text × List Timed)
  unfolding join bucket_key
  group_loop [] groups = groups
  group_loop (r ∷ rows) groups = group_loop rows (join (bucket_key r) r groups)

  unit_loop : List Timed → List (Text × Text) → List (Text × Text)
  unfolding bucket_key
  unit_loop [] units = units
  unit_loop (r ∷ rows) units = unit_loop rows (put (address_of r) (bucket_key r) units)

  -- the columns of a bucket: its rows' times and the newest time of all
  columns : ℕ → List Timed → List ℕ
  columns max_time rows =
      sort leb (distinct_numbers (map (λ (r : Timed). r.ts) rows ++ max_time ∷ []))

  at : Text → ℕ → List Timed → Option Timed
  unfolding first_find
  at address ts rows = first_find (λ r. text_eq (address_of r) address && r.ts == ts) rows

  -- the value after a column, of which a row without a value changes nothing
  carried : Option ℤ → Option Timed → Option ℤ
  unfolding plotted_value
  carried last none = last
  carried last (some r) = elim (plotted_value r.telegram) [ none ↦ last | some v ↦ some v ]

  data_loop : Text → List Timed → Option ℤ → List ℕ → List (Option ℤ)
  unfolding carried at
  data_loop address rows last [] = []
  data_loop address rows last (ts ∷ timestamps) =
      let value = carried last (at address ts rows) in
      value ∷ data_loop address rows value timestamps

  friendly_name : Text → List Timed → Text
  unfolding first_find
  friendly_name address rows = elim (first_find (λ r. text_eq (address_of r) address) rows) [
    | none ↦ address
    | some r ↦ or_else r.telegram.target_name address
  ]

  build_series : List Timed → List ℕ → Text → ChartSeries
  unfolding friendly_name data_loop
  build_series rows timestamps address = record {
    address = address;
    name = friendly_name address rows;
    values = data_loop address rows none timestamps;
    real = map (λ ts. is_some (at address ts rows)) timestamps;
    labels = none;
  }

  build_bucket : ℕ → Text × List Timed → ChartBucket
  unfolding build_series columns
  build_bucket max_time (unit, rows) =
      let timestamps = columns max_time rows in
      record {
        unit = unit;
        is_binary = text_eq unit (codes "binary");
        is_events = false;
        timestamps = timestamps;
        series = map (build_series rows timestamps) (distinct_texts (map address_of rows));
      }

  label : Option Timed → Option Text
  label none = none
  label (some r) = elim r.telegram.value_formatted [
    | some text ↦ some text
    | none ↦ elim r.telegram.value_json [ none ↦ none | some v ↦ some (show_json v) ]
  ]

  event_series : List Timed → List ℕ → Text → ChartSeries
  unfolding friendly_name label
  event_series rows timestamps address = record {
    address = address;
    name = friendly_name address rows;
    values = map (λ ts. if is_some (at address ts rows) then some (pos 1) else none) timestamps;
    real = map (λ ts. is_some (at address ts rows)) timestamps;
    labels = some (map (λ ts. label (at address ts rows)) timestamps);
  }

  events_bucket : ℕ → List Text → List Timed → ChartBucket
  unfolding event_series columns
  events_bucket max_time addresses rows =
      let event_rows = filter (λ r. includes addresses (address_of r)) rows in
      let timestamps = columns max_time event_rows in
      record {
        unit = codes "events";
        is_binary = false;
        is_events = true;
        timestamps = timestamps;
        series = map (event_series event_rows timestamps) addresses;
      }

  put_events : List Text → List (Text × Text) → List (Text × Text)
  put_events [] units = units
  put_events (a ∷ addresses) units = put_events addresses (put a (codes "events") units)

  abbrev no_chart : ChartDataResult
  no_chart = record { buckets = []; min_time = none; max_time = none; address_to_unit = [] }

  -- the charts of the rows, with the first and the last of them
  chart_rows : List Timed → Option Timed → ChartDataResult
  unfolding event_addresses group_loop unit_loop build_bucket events_bucket put_events
  chart_rows (first ∷ rows) (some newest) =
      let all = first ∷ rows in
      let events = event_addresses all in
      let plotted = filter (λ r. not (includes events (address_of r))) all in
      let numeric = map (build_bucket newest.ts) (group_loop plotted []) in
      let event_buckets =
        if ltb 0 (length events) then events_bucket newest.ts events all ∷ [] else [] in
      record {
        buckets = sort (λ a b. locale_le a.unit b.unit) (numeric ++ event_buckets);
        min_time = some first.ts;
        max_time = some newest.ts;
        address_to_unit = put_events events (unit_loop plotted []);
      }
  chart_rows _ _ = no_chart

  pub use_chart_data : List Telegram → List Text → ChartDataResult
  unfolding relevant chart_rows
  use_chart_data telegrams selected =
      let rows = relevant selected telegrams in
      if length selected == 0 || length telegrams == 0
      then no_chart
      else chart_rows rows (last? rows)
