-- ===== src/Urls/Tests.antt =====
-- A workspace in the address bar, and its round trip.
use spectrum_knx.Prelude.{
  ◌≡◌, refl, true, none, some, [], ◌∷◌, arith, codes, text_eq, includes, decimal, is_digits,
  read_number, read_number-decimal,
}
use spectrum_knx.Filters.{default_filters}
use spectrum_knx.Urls.{set_all, set_some, list_param, split}
use spectrum_knx.Urls.Workspace.{
  WorkspaceState, history, visualizer, default_workspace, build_monitor_search,
  workspace_from_search, with_pruned_filters, is_dpt, tab_param, view_param, mode_param,
  are_one_or_two,
}
use spectrum_knx.Urls.Workspace.RoundTrip.{IsShareable, workspace_round_trip}
use spectrum_knx.Urls.View.{relative, format_rel, build_view_url, parse_view_url}
use spectrum_knx.Urls.View.RoundTrip.{view_round_trip}

abbrev plotting : WorkspaceState
plotting = record default_workspace {
  tab = history;
  view = visualizer;
  filters = record default_filters {
    directions = codes "Incoming" ∷ [];
    dpts = codes "9.001" ∷ codes "1" ∷ [];
    delta_before_ms = 500;
  };
  plot = codes "1/2/3" ∷ codes "1/2/4" ∷ [];
}

shareable : IsShareable plotting
unfolding includes text_eq is_dpt split is_digits are_one_or_two
shareable = record {
  sources = tt;
  targets = tt;
  types = tt;
  directions_known = (refl, tt);
  directions_items = ((refl, refl), tt);
  dpts_valid = (refl, (refl, tt));
  dpts_items = ((refl, refl), ((refl, refl), tt));
  disabled = tt;
  plot = ((refl, refl), ((refl, refl), tt));
  last_seen_addresses = tt;
  relation = refl;
}

default_is_bare : build_monitor_search default_workspace ≡ []
unfolding build_monitor_search set_all set_some list_param tab_param view_param mode_param
default_is_bare = refl

workspace_round_trip_example :
    workspace_from_search read_number (build_monitor_search plotting) ≡ with_pruned_filters plotting
workspace_round_trip_example =
    workspace_round_trip read_number read_number-decimal plotting shareable

one_day : format_rel 86400 ≡ codes "1d"
unfolding format_rel decimal
one_day = refl

view_round_trip_example :
    parse_view_url read_number
      (build_view_url (codes "1/2/3" ∷ []) default_filters (relative 5400) (some 100) true)
    ≡ some (record {
      plot = codes "1/2/3" ∷ [];
      filters = record default_filters { disabled = [] };
      range = relative 5400;
      limit = some 100;
      embed = true;
      refresh = none;
      theme = none;
    })
view_round_trip_example =
    view_round_trip read_number read_number-decimal (codes "1/2/3" ∷ []) default_filters
      (relative 5400) (some 100) true
      (record {
        plot_items = ((refl, refl), tt);
        sources = tt;
        targets = tt;
        types = tt;
        directions_known = tt;
        directions_items = tt;
        dpts_valid = tt;
        dpts_items = tt;
        relation = refl;
      })
      (omega arith) (omega arith)
