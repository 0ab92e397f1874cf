-- ===== src/Shell/Tests.antt =====
-- The panels, the bus rate and the live list at concrete telegrams.
use spectrum_knx.Prelude.{
  ℕ, ◌≤◌, ◌≡◌, refl, true, false, none, some, List, [], ◌∷◌, any, Text, codes, text_eq, All, arith,
  read_number,
}
use spectrum_knx.Telegram.{Telegram, anchor_key}
use spectrum_knx.Telegram.Samples.{reading}
use spectrum_knx.Filters.{default_filters}
use spectrum_knx.Urls.{Params}
use spectrum_knx.Urls.Workspace.{
  live, building, ga, default_workspace, build_monitor_search, workspace_from_search,
}
use spectrum_knx.Shell.{
  Shell, list_panel, visualizer_panel, untouched, workspace_of, write_address,
  handle_quick_visualize,
}
use spectrum_knx.Shell.BackForward.{gone_to, written, back_forward, write_address_lem}
use spectrum_knx.Shell.Rate.{Arrivals, per_hour, bus_rate, drop_old, handle_telegram, handle_all}
use spectrum_knx.Shell.Rate.Window.{bus_rate-handle_all}
use spectrum_knx.Shell.Live.{Live, delta_expanded_live, handle_chart_time_click}
use spectrum_knx.Shell.Live.Clicked.{away, clicked, chart_click_shown}

abbrev opened : Shell
opened = record {
  active_tab = live;
  active_panel = list_panel;
  is_database_open = false;
  is_settings_open = true;
  is_filter_open = true;
  filters_enabled = true;
  active_filters = record default_filters { sources = codes "1.1.9" ∷ [] };
  selected_visualization_targets = [];
  last_seen_addresses = [];
  last_seen_mode = ga;
  status_device = none;
  list_follow = true;
  list_anchor_key = none;
  flagged_telegram_keys = [];
  synced_search = [];
  replaces_next = false;
}

visualizes : (handle_quick_visualize (codes "1/2/3") opened).active_panel ≡ visualizer_panel
unfolding handle_quick_visualize
visualizes = refl

abbrev to_building : Params
to_building = build_monitor_search (record default_workspace { view = building })

back_forward_example :
    (workspace_of (gone_to read_number to_building opened)
      ≡ workspace_from_search read_number to_building)
    × (write_address (gone_to read_number to_building opened)
        ≡ (untouched, record (gone_to read_number to_building opened) { replaces_next = false }))
back_forward_example = back_forward read_number to_building opened

write_address_lem_example :
    ((written opened).synced_search ≡ build_monitor_search (workspace_of opened))
    × (workspace_of (written opened) ≡ workspace_of opened)
    × (write_address (written opened) ≡ (untouched, written opened))
write_address_lem_example = write_address_lem opened

abbrev no_arrivals : Arrivals
no_arrivals = record { latest_telegram = none; arrival_times = [] }

abbrev three_arrivals : List (ℕ × Telegram)
three_arrivals = (10, reading) ∷ (3600011, reading) ∷ (3600020, reading) ∷ []

forgets_the_first : (handle_all three_arrivals no_arrivals).arrival_times ≡ 3600011 ∷ 3600020 ∷ []
unfolding handle_all handle_telegram drop_old
forgets_the_first = refl

bus_rate-handle_all_example :
    bus_rate per_hour 3600100 (handle_all three_arrivals no_arrivals).arrival_times
    ≡ bus_rate per_hour 3600100 (10 ∷ 3600011 ∷ 3600020 ∷ [])
bus_rate-handle_all_example =
    bus_rate-handle_all per_hour 3600100 three_arrivals no_arrivals
      (omega arith, (omega arith, (omega arith, tt)))

abbrev monitor : Live
monitor = record {
  shell = opened;
  sort_config = [];
  context_for_all_matches = true;
  quick_filter_open = false;
  quick_filter_enabled = true;
  quick_patterns = [];
}

abbrev at_second : Text → Telegram
at_second s = record reading { timestamp = s }

abbrev pair_of_telegrams : List Telegram
pair_of_telegrams = at_second (codes "5") ∷ at_second (codes "9") ∷ []

chart_click_shown_example :
    All
      (λ u.
        away read_number
          (λ s. none)
          (λ s. none)
          (λ s. s)
          (λ s t. true)
          (λ s t u. true)
          8
          (clicked read_number
            (λ s. none)
            (λ s. none)
            (λ s. s)
            (λ s t. true)
            (λ s t u. true)
            8
            (at_second (codes "5"))
            (at_second (codes "9") ∷ []))
        ≤ away read_number (λ s. none) (λ s. none) (λ s. s) (λ s t. true) (λ s t u. true) 8 u)
      pair_of_telegrams
    × ((handle_chart_time_click read_number
          (λ s. none)
          (λ s. none)
          (λ s. s)
          (λ s t. true)
          (λ s t u. true)
          8
          pair_of_telegrams
          monitor).shell.list_anchor_key
        ≡ some (
            anchor_key (
              clicked read_number
                (λ s. none)
                (λ s. none)
                (λ s. s)
                (λ s t. true)
                (λ s t u. true)
                8
                (at_second (codes "5"))
                (at_second (codes "9") ∷ []))))
    × (any
          (λ u. text_eq (anchor_key u) (
            anchor_key (
              clicked read_number
                (λ s. none)
                (λ s. none)
                (λ s. s)
                (λ s t. true)
                (λ s t u. true)
                8
                (at_second (codes "5"))
                (at_second (codes "9") ∷ []))))
          (delta_expanded_live read_number
            (λ s. none)
            (λ s. none)
            (λ s. s)
            (λ s t. true)
            (λ s t u. true)
            pair_of_telegrams
            (handle_chart_time_click read_number
              (λ s. none)
              (λ s. none)
              (λ s. s)
              (λ s t. true)
              (λ s t u. true)
              8
              pair_of_telegrams
              monitor)).items
        ≡ true)
chart_click_shown_example =
    chart_click_shown read_number (λ s. none) (λ s. none) (λ s. s) (λ s t. true) (λ s t u. true) 8
      (at_second (codes "5")) (at_second (codes "9") ∷ []) monitor refl
