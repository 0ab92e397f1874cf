-- ===== src/Shell.antt =====
-- The state that frontend/src/App.tsx keeps for its panels: the panel that is open, the filters, the
-- chosen addresses and the address bar. A device is known by its address; the shared view of a link,
-- which switches the address bar off, and the page inside another one are not part of it.
pub mod BackForward
pub mod Rate
pub mod Live
mod Tests
use spectrum_knx.Prelude.{
  ℕ, Bool, true, false, not, ◌&&◌, ◌||◌, Option, none, some, List, [], ◌∷◌, ◌++◌, if◌then◌else◌,
  filter, Text, includes, toggle_text,
}
use spectrum_knx.Filters.{
  ActiveFilters, FilterCategory, sources, targets, types, directions, dpts, prune_disabled,
}
use spectrum_knx.Charts.{distinct_texts}
use spectrum_knx.Urls.{Params}
use spectrum_knx.Urls.Workspace.{
  WorkspaceTab, WorkspaceView, LastSeenMode, WorkspaceState, none_open, visualizer, lastseen,
  statistics, building, database, ga, build_monitor_search, workspace_from_search,
}
use spectrum_knx.Urls.Workspace.Layout.{same_search, same_workspace_apart_from_layout}

pub data MainPanel : Type 0 where
  list_panel : MainPanel
  visualizer_panel : MainPanel
  statistics_panel : MainPanel
  building_panel : MainPanel
  lastseen_panel : MainPanel

pub record Shell : Type 0 where
  pub active_tab : WorkspaceTab
  pub active_panel : MainPanel
  pub is_database_open : Bool
  pub is_settings_open : Bool
  pub is_filter_open : Bool
  pub filters_enabled : Bool
  pub active_filters : ActiveFilters
  pub selected_visualization_targets : List Text
  pub last_seen_addresses : List Text
  pub last_seen_mode : LastSeenMode
  pub status_device : Option Text
  pub list_follow : Bool
  pub list_anchor_key : Option Text
  pub flagged_telegram_keys : List Text
  -- what the address bar says, and whether the next write replaces it
  pub synced_search : Params
  pub replaces_next : Bool

unfoldable pub panel_view : MainPanel → WorkspaceView
panel_view list_panel = none_open
panel_view visualizer_panel = visualizer
panel_view statistics_panel = statistics
panel_view building_panel = building
panel_view lastseen_panel = lastseen

unfoldable pub workspace_view : Shell → WorkspaceView
workspace_view s = if s.is_database_open then database else panel_view s.active_panel

unfoldable pub workspace_of : Shell → WorkspaceState
workspace_of s = record {
  tab = s.active_tab;
  view = workspace_view s;
  filter_open = s.is_filter_open;
  filters = s.active_filters;
  plot = s.selected_visualization_targets;
  last_seen_addresses = s.last_seen_addresses;
  last_seen_mode = s.last_seen_mode;
}

-- what a write does to the browser's history
pub data HistoryWrite : Type 0 where
  untouched : HistoryWrite
  replaced : Params → HistoryWrite
  pushed : Params → HistoryWrite

-- the timer of the effect that writes the address bar, half a second after the last change
unfoldable pub write_address : Shell → HistoryWrite × Shell
write_address s =
    let search = build_monitor_search (workspace_of s) in
    let used = record s { replaces_next = false } in
    let synced = record s { synced_search = search; replaces_next = false } in
    let layout_only = same_workspace_apart_from_layout search s.synced_search in
    if same_search search s.synced_search
    then (untouched, used)
    else ((if s.replaces_next || layout_only then replaced search else pushed search), synced)

unfoldable pub view_panel : WorkspaceView → MainPanel
view_panel none_open = list_panel
view_panel visualizer = visualizer_panel
view_panel lastseen = lastseen_panel
view_panel statistics = statistics_panel
view_panel building = building_panel
view_panel database = list_panel

abbrev is_database : WorkspaceView → Bool
is_database database = true
is_database _ = false

abbrev kept_device : WorkspaceView → Option Text → Option Text
kept_device building device = device
kept_device _ device = none

-- `number` is the host's, as in the reader of the address
unfoldable pub on_pop_state : (Text → ℕ) → Params → Shell → Shell
on_pop_state number search s =
    let ws = workspace_from_search number search in
    record s {
      synced_search = build_monitor_search ws;
      active_tab = ws.tab;
      is_database_open = is_database ws.view;
      active_panel = view_panel ws.view;
      status_device = kept_device ws.view s.status_device;
      is_filter_open = ws.filter_open;
      active_filters = ws.filters;
      selected_visualization_targets = ws.plot;
      last_seen_addresses = ws.last_seen_addresses;
      last_seen_mode = ws.last_seen_mode;
      is_settings_open = false;
    }

unfoldable pub handle_filters_change : (ActiveFilters → ActiveFilters) → Shell → Shell
handle_filters_change change s = record s {
  active_filters = prune_disabled (change s.active_filters);
}

with_toggled : FilterCategory → Text → ActiveFilters → ActiveFilters
with_toggled sources value f = record f { sources = toggle_text f.sources value }
with_toggled targets value f = record f { targets = toggle_text f.targets value }
with_toggled types value f = record f { types = toggle_text f.types value }
with_toggled directions value f = f
with_toggled dpts value f = record f { dpts = toggle_text f.dpts value }

-- for the categories that have a quick filter, which the directions have not
unfoldable pub handle_quick_filter : FilterCategory → Text → Shell → Shell
unfolding with_toggled
handle_quick_filter category value s =
    record (handle_filters_change (with_toggled category value) s) { is_filter_open = true }

unfoldable pub handle_visualize_gas : List Text → Shell → Shell
handle_visualize_gas addresses s = record s {
  selected_visualization_targets = distinct_texts (s.selected_visualization_targets ++ addresses);
  active_panel = visualizer_panel;
  is_database_open = false;
}

unfoldable pub handle_quick_visualize : Text → Shell → Shell
handle_quick_visualize address s = record s {
  selected_visualization_targets =
      if includes s.selected_visualization_targets address
      then s.selected_visualization_targets
      else s.selected_visualization_targets ++ address ∷ [];
  active_panel = visualizer_panel;
  is_database_open = false;
}

unfoldable pub handle_quick_last_seen : List Text → LastSeenMode → Shell → Shell
handle_quick_last_seen addresses mode s = record s {
  last_seen_addresses = addresses;
  last_seen_mode = mode;
  active_panel = lastseen_panel;
  is_database_open = false;
}

unfoldable pub handle_filter_gas : List Text → Shell → Shell
handle_filter_gas addresses s =
    record (handle_filters_change
      (λ f. record f { targets = distinct_texts (f.targets ++ addresses) }) s) {
        is_filter_open = true;
      }

unfoldable pub handle_show_ga_telegrams : Text → Shell → Shell
handle_show_ga_telegrams address s = record (handle_filter_gas (address ∷ []) s) {
  filters_enabled = true;
  list_follow = true;
  active_panel = list_panel;
}

unfoldable pub handle_delta_context_change : ℕ → ℕ → Shell → Shell
handle_delta_context_change before after s =
    handle_filters_change (λ f. record f { delta_before_ms = before; delta_after_ms = after }) s

unfoldable pub handle_delta_context_enabled_change : Bool → Shell → Shell
handle_delta_context_enabled_change enabled s =
    handle_filters_change (λ f. record f { delta_context_enabled = enabled }) s
