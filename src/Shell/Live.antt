-- ===== src/Shell/Live.antt =====
-- The rows of the live list in frontend/src/App.tsx, from the telegrams of the feed: sorted, matched
-- by the filters and by the quick filter, with their time context; and the click on a chart, which
-- flags the telegram nearest in time. The host's functions are arguments, as in the sort and in the
-- quick filter.
pub mod Clicked
use spectrum_knx.Prelude.{
  ℕ, Bool, true, false, not, ◌&&◌, ◌||◌, Option, none, some, List, [], ◌∷◌, ◌++◌, map, ◌==◌,
  if◌then◌else◌, length, Text, includes,
}
use spectrum_knx.Telegram.{Telegram, anchor_key}
use spectrum_knx.Filters.{
  ActiveFilters, FilterableTelegram, enabled_filters, matches_telegram, effective_delta_context,
}
use spectrum_knx.QuickFilter.{QuickPatterns, active_quick_filter}
use spectrum_knx.Sorting.{SortConfig, sort_telegrams}
use spectrum_knx.DeltaContext.{DeltaExpansionResult, expand_with_delta_context}
use spectrum_knx.Table.Marks.{distance, closer}
use spectrum_knx.Shell.{Shell, list_panel}

pub record Live : Type 0 where
  pub shell : Shell
  pub sort_config : SortConfig
  pub context_for_all_matches : Bool
  pub quick_filter_open : Bool
  pub quick_filter_enabled : Bool
  pub quick_patterns : QuickPatterns

abbrev pub filterable : Telegram → FilterableTelegram
filterable t = record {
  source_address = t.source_address;
  target_address = t.target_address;
  simplified_type = t.simplified_type;
  direction = t.direction;
  dpt_main = t.dpt_main;
  dpt_sub = t.dpt_sub;
}

abbrev has_no_filter : Bool → ActiveFilters → Bool
has_no_filter enabled f =
    not enabled
    || (length f.sources == 0
        && (length f.targets == 0
            && (length f.types == 0 && (length f.directions == 0 && length f.dpts == 0))))

-- a missing quick filter lets everything pass
abbrev passes : Option (Telegram → Bool) → Telegram → Bool
passes none t = true
passes (some quick) t = quick t

abbrev flag_and_show : Text → Live → Live
flag_and_show key s = record s {
  shell = record s.shell {
    flagged_telegram_keys =
        if includes s.shell.flagged_telegram_keys key
        then s.shell.flagged_telegram_keys
        else s.shell.flagged_telegram_keys ++ key ∷ [];
    list_follow = false;
    list_anchor_key = some key;
    active_panel = list_panel;
  };
}

module _ (get_time : Text → ℕ) (number date_of : Text → Option ℕ) (lower : Text → Text)
    (text_matcher : Text → Text → Bool) (value_matcher : Text → Text → Telegram → Bool) where
  abbrev pub time_of : Telegram → ℕ
  time_of t = get_time t.timestamp

  unfoldable pub is_match : Live → Telegram → Bool
  is_match s t =
      let f = enabled_filters s.shell.active_filters in
      let quick =
        active_quick_filter number date_of time_of lower text_matcher value_matcher
          s.quick_filter_open s.quick_filter_enabled s.quick_patterns in
      (has_no_filter s.shell.filters_enabled f || matches_telegram (filterable t) f)
      && passes quick t

  -- the flags are inert while the time context is off
  abbrev pub flags_of : Live → List Text
  flags_of s =
      if (enabled_filters s.shell.active_filters).delta_context_enabled
      then s.shell.flagged_telegram_keys
      else []

  unfoldable pub delta_expanded_live : List Telegram → Live → DeltaExpansionResult Telegram
  delta_expanded_live live_telegrams s =
      let sorted = sort_telegrams get_time live_telegrams s.sort_config in
      let window = effective_delta_context (enabled_filters s.shell.active_filters) in
      expand_with_delta_context time_of anchor_key (flags_of s) window.0 window.1
        s.context_for_all_matches sorted (map (is_match s) sorted)

  unfoldable pub nearest_loop : ℕ → List Telegram → Telegram → Option ℕ → Telegram
  unfolding closer
  nearest_loop ms [] nearest best_diff = nearest
  nearest_loop ms (t ∷ telegrams) nearest best_diff =
      let diff = distance (time_of t) ms in
      let moved = nearest_loop ms telegrams t (some diff) in
      let stayed = nearest_loop ms telegrams nearest best_diff in
      if closer diff best_diff then moved else stayed

  unfoldable pub handle_chart_time_click : ℕ → List Telegram → Live → Live
  handle_chart_time_click ms [] s = s
  handle_chart_time_click ms (t ∷ telegrams) s =
      flag_and_show (anchor_key (nearest_loop ms (t ∷ telegrams) t none)) s
