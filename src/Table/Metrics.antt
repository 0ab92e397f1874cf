-- ===== src/Table/Metrics.antt =====
-- The quick info bar of frontend/src/components/TelegramTable.tsx: what it says of the rows shown. A
-- `forEach` over rows is a recursion on how many are visited; `rows[i]` is a function of the index.
pub mod Extremes
use spectrum_knx.Prelude.{
  ℕ, zero, suc, ◌+◌, Bool, true, false, Option, none, some, List, [], ◌∷◌, ◌++◌, map, ltb, leb,
  if◌then◌else◌, length, filter, get_elem?, sort, Text, codes, decimal, includes, get, put,
}
use spectrum_knx.Telegram.{Telegram, anchor_key}
use spectrum_knx.Charts.{distinct_texts}
use spectrum_knx.Peaks.{PeakRate, at, peak_rate}
use spectrum_knx.Table.DeltaSort.{TelegramRow}

or_zero : Option ℕ → ℕ
or_zero none = 0
or_zero (some n) = n

pub record Visited : Type 0 where
  pub oldest_idx : ℕ
  pub newest_idx : ℕ
  -- none for -1
  pub min_delta_idx : Option ℕ
  pub max_delta_idx : Option ℕ

-- `minDeltaIdx === -1 || t.deltaMs < telegramRows[minDeltaIdx].deltaMs`, and its mirror
better_delta : (ℕ → ℕ → Bool) → (ℕ → Option ℕ) → ℕ → Option ℕ → Option ℕ → Option ℕ
unfolding or_zero
better_delta better delta i none found = found
better_delta better delta i (some d) none = some i
better_delta better delta i (some d) (some j) =
    if better d (or_zero (delta j)) then some i else some j

abbrev pub is_less : ℕ → ℕ → Bool
is_less a b = ltb a b

abbrev pub is_greater : ℕ → ℕ → Bool
is_greater a b = ltb b a

module _ (time : ℕ → ℕ) (delta : ℕ → Option ℕ) where
  visit_row : ℕ → Visited → Visited
  unfolding better_delta
  visit_row i e = record {
    oldest_idx = if ltb (time i) (time e.oldest_idx) then i else e.oldest_idx;
    newest_idx = if ltb (time e.newest_idx) (time i) then i else e.newest_idx;
    min_delta_idx = better_delta is_less delta i (delta i) e.min_delta_idx;
    max_delta_idx = better_delta is_greater delta i (delta i) e.max_delta_idx;
  }

  -- after the first `n` rows
  extremes : ℕ → Visited
  unfolding visit_row
  extremes zero = record {
    oldest_idx = 0;
    newest_idx = 0;
    min_delta_idx = none;
    max_delta_idx = none;
  }
  extremes (suc n) = visit_row n (extremes n)

-- `t.dpt_name ?? (t.dpt_main != null ? `DPT ${t.dpt_main}` : 'unknown')`
dpt_label : Option Text → Option ℕ → Text
dpt_label (some name) main = name
dpt_label none (some main) = codes "DPT " ++ decimal main
dpt_label none none = codes "unknown"

-- `t.simplified_type || t.telegram_type`
type_label : Option Text → Text → Text
type_label none raw = raw
type_label (some []) raw = raw
type_label (some (c ∷ s)) raw = c ∷ s

abbrev row_type : TelegramRow → Text
row_type r = type_label r.telegram.simplified_type r.telegram.telegram_type

count_types : List TelegramRow → List (Text × ℕ) → List (Text × ℕ)
unfolding or_zero type_label
count_types [] counts = counts
count_types (r ∷ rows) counts =
    count_types rows (put (row_type r) (or_zero (get counts (row_type r)) + 1) counts)

pub record InfoMetrics : Type 0 where
  pub count : ℕ
  pub oldest_idx : ℕ
  pub newest_idx : ℕ
  pub min_delta_idx : Option ℕ
  pub max_delta_idx : Option ℕ
  pub peak : Option PeakRate
  pub source_count : ℕ
  pub target_count : ℕ
  pub dpt_count : ℕ
  pub type_counts : List (Text × ℕ)
  pub context_count : ℕ

pub delta_of : Option TelegramRow → Option ℕ
delta_of none = none
delta_of (some r) = r.delta_ms

module _ (get_time : Text → ℕ) (context_keys : List Text) where
  abbrev pub times_of : List TelegramRow → List ℕ
  times_of rows = map (λ r. get_time r.telegram.timestamp) rows

  metrics_of : List TelegramRow → InfoMetrics
  unfolding extremes count_types dpt_label delta_of
  metrics_of rows =
      let e = extremes (at (times_of rows)) (λ i. delta_of (get_elem? rows i)) (length rows) in
      record {
        count = length rows;
        oldest_idx = e.oldest_idx;
        newest_idx = e.newest_idx;
        min_delta_idx = e.min_delta_idx;
        max_delta_idx = e.max_delta_idx;
        peak = if ltb 1 (length rows) then peak_rate (times_of rows) 1000 else none;
        source_count = length (distinct_texts (map (λ r. r.telegram.source_address) rows));
        target_count = length (distinct_texts (map (λ r. r.telegram.target_address) rows));
        dpt_count =
            length
              (distinct_texts (map (λ r. dpt_label r.telegram.dpt_name r.telegram.dpt_main) rows));
        type_counts = sort (λ a b. leb b.1 a.1) (count_types rows []);
        context_count = length (filter (λ r. includes context_keys (anchor_key r.telegram)) rows);
      }

  unfoldable pub info_metrics : List TelegramRow → Option InfoMetrics
  unfolding metrics_of
  info_metrics [] = none
  info_metrics (r ∷ rows) = some (metrics_of (r ∷ rows))
