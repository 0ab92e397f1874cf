-- ===== src/Urls/Workspace.antt =====
-- frontend/src/utils/workspaceState.ts: the workspace in the address bar. `number` is the host's
-- `Number(text) || 0`, for texts that are natural numbers. The copy in the local storage is not
-- modelled.
pub mod RoundTrip
pub mod Layout
use spectrum_knx.Prelude.{
  ℕ, zero, suc, ◌+◌, Bool, true, false, not, ◌&&◌, ◌||◌, Option, none, some, List, [], ◌∷◌, ◌++◌,
  ltb, leb, ◌==◌, if◌then◌else◌, length, filter, all, Text, codes, text_eq, includes, decimal,
  is_digits, get,
}
use spectrum_knx.Filters.{ActiveFilters, Relation, all_of, one_of, default_filters, prune_disabled}
use spectrum_knx.Urls.{Params, set_all, list, list_param, split}

pub data WorkspaceTab : Type 0 where
  live : WorkspaceTab
  history : WorkspaceTab
  import_tab : WorkspaceTab

pub data WorkspaceView : Type 0 where
  none_open : WorkspaceView
  visualizer : WorkspaceView
  lastseen : WorkspaceView
  statistics : WorkspaceView
  building : WorkspaceView
  database : WorkspaceView

pub data LastSeenMode : Type 0 where
  ga : LastSeenMode
  pa : LastSeenMode

pub record WorkspaceState : Type 0 where
  pub tab : WorkspaceTab
  pub view : WorkspaceView
  pub filter_open : Bool
  pub filters : ActiveFilters
  pub plot : List Text
  pub last_seen_addresses : List Text
  pub last_seen_mode : LastSeenMode

abbrev pub default_workspace : WorkspaceState
default_workspace = record {
  tab = live;
  view = none_open;
  filter_open = true;
  filters = default_filters;
  plot = [];
  last_seen_addresses = [];
  last_seen_mode = ga;
}

-- `p.tab` when it is one of TABS, and 'live' otherwise
unfoldable pub tab_of : Option Text → WorkspaceTab
tab_of none = live
tab_of (some s) =
    if text_eq s (codes "history")
    then history
    else if text_eq s (codes "import")
    then import_tab
    else live

unfoldable pub tab_param : WorkspaceTab → Option Text
tab_param live = none
tab_param history = some (codes "history")
tab_param import_tab = some (codes "import")

unfoldable pub view_of : Option Text → WorkspaceView
view_of none = none_open
view_of (some s) =
    if text_eq s (codes "visualizer")
    then visualizer
    else if text_eq s (codes "lastseen")
    then lastseen
    else if text_eq s (codes "statistics")
    then statistics
    else if text_eq s (codes "building")
    then building
    else if text_eq s (codes "database")
    then database
    else none_open

unfoldable pub view_param : WorkspaceView → Option Text
view_param none_open = none
view_param visualizer = some (codes "visualizer")
view_param lastseen = some (codes "lastseen")
view_param statistics = some (codes "statistics")
view_param building = some (codes "building")
view_param database = some (codes "database")

unfoldable pub mode_of : Option Text → LastSeenMode
mode_of none = ga
mode_of (some s) = if text_eq s (codes "pa") then pa else ga

unfoldable pub mode_param : LastSeenMode → Option Text
mode_param ga = none
mode_param pa = some (codes "pa")

-- a parameter with one value, when the test holds
abbrev pub flag : Bool → Text → Option Text
flag c value = if c then some value else none

unfoldable pub is_value : Option Text → Text → Bool
is_value none value = false
is_value (some v) value = text_eq v value

abbrev pub number_param : ℕ → Option Text
number_param n = if ltb 0 n then some (decimal n) else none

abbrev pub directions : List Text
directions = codes "Incoming" ∷ codes "Outgoing" ∷ []

-- `/^\d+(\.\d+)?$/`
unfoldable pub are_one_or_two : List Text → Bool
are_one_or_two (main ∷ []) = is_digits main
are_one_or_two (main ∷ sub ∷ []) = is_digits main && is_digits sub
are_one_or_two _ = false

unfoldable pub is_dpt : Text → Bool
unfolding are_one_or_two
is_dpt s = are_one_or_two (split b'.' s)

-- the parameters that are not at their defaults, in the order in which they are set
abbrev table_of : WorkspaceState → List (Text × Option Text)
table_of ws =
    let f = ws.filters in
    (codes "tab", tab_param ws.tab)
    ∷ (codes "panel", view_param ws.view)
    ∷ (codes "fp", flag (not ws.filter_open) (codes "0"))
    ∷ (codes "src", list_param f.sources)
    ∷ (codes "tgt", list_param f.targets)
    ∷ (codes "type", list_param f.types)
    ∷ (codes "dir", list_param f.directions)
    ∷ (codes "dpt", list_param f.dpts)
    ∷ (codes "off", list_param f.disabled)
    ∷ (codes "before", number_param f.delta_before_ms)
    ∷ (codes "after", number_param f.delta_after_ms)
    ∷ (codes "delta_off", flag (not f.delta_context_enabled) (codes "1"))
    ∷ (codes "plot", list_param ws.plot)
    ∷ (codes "ls", list_param ws.last_seen_addresses)
    ∷ (codes "lsm", mode_param ws.last_seen_mode)
    ∷ []

-- a workspace that is all default has an empty query
unfoldable pub build_monitor_search : WorkspaceState → Params
build_monitor_search ws =
    let p = set_all (table_of ws) [] in
    if length p == 0 then [] else set_all ((codes "view", some (codes "monitor")) ∷ []) p

-- the preselected filters with markers that fit
pub with_pruned_filters : WorkspaceState → WorkspaceState
with_pruned_filters ws = record ws { filters = prune_disabled ws.filters }

abbrev pub relation_of : Option Text → Relation
relation_of o = if is_value o (codes "OR") then one_of else all_of

-- the parsed fields, sanitized
module _ (number : Text → ℕ) where
  unfoldable pub number_of : Option Text → ℕ
  number_of none = 0
  number_of (some s) = number s

  fields_of : (Text → Option Text) → WorkspaceState
  unfolding with_pruned_filters number_of
  fields_of value = with_pruned_filters (record {
    tab = tab_of (value (codes "tab"));
    view = view_of (value (codes "panel"));
    filter_open = not (is_value (value (codes "fp")) (codes "0"));
    filters = record {
      sources = list (value (codes "src"));
      targets = list (value (codes "tgt"));
      types = list (value (codes "type"));
      directions = filter (includes directions) (list (value (codes "dir")));
      dpts = filter is_dpt (list (value (codes "dpt")));
      delta_before_ms = number_of (value (codes "before"));
      delta_after_ms = number_of (value (codes "after"));
      delta_context_enabled = not (is_value (value (codes "delta_off")) (codes "1"));
      source_target_relation = relation_of (value (codes "rel_st"));
      disabled = list (value (codes "off"));
    };
    plot = list (value (codes "plot"));
    last_seen_addresses = list (value (codes "ls"));
    last_seen_mode = mode_of (value (codes "lsm"));
  })

  pub parse_monitor_search : Params → Option WorkspaceState
  unfolding fields_of
  parse_monitor_search p =
      if is_value (get p (codes "view")) (codes "monitor") then some (fields_of (get p)) else none

  or_default : Option WorkspaceState → WorkspaceState
  or_default none = default_workspace
  or_default (some ws) = ws

  pub workspace_from_search : Params → WorkspaceState
  unfolding or_default
  workspace_from_search p = or_default (parse_monitor_search p)
