-- ===== src/Urls/Workspace/RoundTrip.antt =====
-- The address bar of frontend/src/utils/workspaceState.ts restores the workspace.
use mathlib.Core.Path.{fun_ext}
use spectrum_knx.Prelude.{
  ℕ, ◌≡◌, refl, ap, sym, ◌∙◌, Bool, true, false, not, Option, none, some, List, [], ◌∷◌, ltb, ◌==◌,
  length, filter-All, Text, text_eq, codes, includes, decimal, get, arith, All, Bool-cases, inl,
  inr,
}
use spectrum_knx.Filters.{all_of, prune_disabled}
use spectrum_knx.Urls.{Params, set_all, list}
use spectrum_knx.Urls.Params.{or_old, found, get-set_all, IsItem, list-list_param}
use spectrum_knx.Urls.Workspace.{
  WorkspaceTab, live, history, import_tab, WorkspaceView, none_open, visualizer, lastseen,
  statistics, building, database, LastSeenMode, ga, pa, WorkspaceState, default_workspace, tab_of,
  tab_param, view_of, view_param, mode_of, mode_param, flag, is_value, number_param, directions,
  is_dpt, table_of, build_monitor_search, with_pruned_filters, number_of, fields_of,
  parse_monitor_search, or_default, workspace_from_search,
}

-- The items of the lists are not empty and have no comma; directions and datatypes are such; and
-- the deprecated relation is not set.
pub record IsShareable (ws : WorkspaceState) : Type 0 where
  pub sources : All IsItem ws.filters.sources
  pub targets : All IsItem ws.filters.targets
  pub types : All IsItem ws.filters.types
  pub directions_known : All (λ d. includes directions d ≡ true) ws.filters.directions
  pub directions_items : All IsItem ws.filters.directions
  pub dpts_valid : All (λ d. is_dpt d ≡ true) ws.filters.dpts
  pub dpts_items : All IsItem ws.filters.dpts
  pub disabled : All IsItem ws.filters.disabled
  pub plot : All IsItem ws.plot
  pub last_seen_addresses : All IsItem ws.last_seen_addresses
  pub relation : ws.filters.source_target_relation ≡ all_of

tab_of-tab_param : (t : WorkspaceTab) → tab_of (or_old (tab_param t) none) ≡ t
unfolding tab_of tab_param or_old text_eq
tab_of-tab_param live = refl
tab_of-tab_param history = refl
tab_of-tab_param import_tab = refl

view_of-view_param : (v : WorkspaceView) → view_of (or_old (view_param v) none) ≡ v
unfolding view_of view_param or_old text_eq
view_of-view_param none_open = refl
view_of-view_param visualizer = refl
view_of-view_param lastseen = refl
view_of-view_param statistics = refl
view_of-view_param building = refl
view_of-view_param database = refl

mode_of-mode_param : (m : LastSeenMode) → mode_of (or_old (mode_param m) none) ≡ m
unfolding mode_of mode_param or_old text_eq
mode_of-mode_param ga = refl
mode_of-mode_param pa = refl

pub flag_zero : (c : Bool) → not (is_value (or_old (flag (not c) (codes "0")) none) (codes "0")) ≡ c
unfolding is_value or_old text_eq
flag_zero true = refl
flag_zero false = refl

pub flag_one : (c : Bool) → not (is_value (or_old (flag (not c) (codes "1")) none) (codes "1")) ≡ c
unfolding is_value or_old text_eq
flag_one true = refl
flag_one false = refl

module _ (number : Text → ℕ) (reads : (n : ℕ) → number (decimal n) ≡ n) where
  pub number_of-number_param : (n : ℕ) → number_of number (or_old (number_param n) none) ≡ n
  unfolding number_of or_old
  number_of-number_param n = elim (Bool-cases (ltb 0 n)) [
    | inl h ↦ rw h (reads n)
    | inr h ↦ rw h (ground (arith, h))
  ]

  fields_of-found :
      (ws : WorkspaceState)
      → IsShareable ws
      → fields_of number (λ key. found (table_of ws) key none) ≡ with_pruned_filters ws
  unfolding fields_of found text_eq is_value
  fields_of-found ws w =
      let f = ws.filters in
      ap with_pruned_filters (
        rw
          (
            tab_of-tab_param ws.tab,
            view_of-view_param ws.view,
            mode_of-mode_param ws.last_seen_mode,
            list-list_param f.sources w.sources,
            list-list_param f.targets w.targets,
            list-list_param f.types w.types,
            list-list_param f.directions w.directions_items,
            list-list_param f.dpts w.dpts_items,
            list-list_param f.disabled w.disabled,
            list-list_param ws.plot w.plot,
            list-list_param ws.last_seen_addresses w.last_seen_addresses,
            filter-All (includes directions) f.directions w.directions_known,
            filter-All is_dpt f.dpts w.dpts_valid,
            number_of-number_param f.delta_before_ms,
            number_of-number_param f.delta_after_ms,
            flag_zero ws.filter_open,
            flag_one f.delta_context_enabled,
            w.relation,
          )
          refl)

  abbrev marker : List (Text × Option Text)
  marker = (codes "view", some (codes "monitor")) ∷ []

  -- the marker of the query changes no field
  fields_of-marker :
      (value : Text → Option Text)
      → fields_of number (λ key. found marker key (value key)) ≡ fields_of number value
  unfolding fields_of found text_eq
  fields_of-marker value = refl

  parse-marker :
      (p : Params) → workspace_from_search number (set_all marker p) ≡ fields_of number (get p)
  unfolding workspace_from_search parse_monitor_search or_default
  parse-marker p =
      let marked : is_value (get (set_all marker p) (codes "view")) (codes "monitor") ≡ true =
        ap (λ o. is_value o (codes "monitor")) (get-set_all marker p (codes "view")) ∙ monitor in
      rw marked (ap (fields_of number) (fun_ext (get-set_all marker p)) ∙ fields_of-marker (get p))
    where
      monitor :
          is_value (found marker (codes "view") (get p (codes "view"))) (codes "monitor") ≡ true
      monitor = unfold is_value found or_old text_eq in refl

  fields_of-table :
      (ws : WorkspaceState)
      → IsShareable ws
      → fields_of number (get (set_all (table_of ws) [])) ≡ with_pruned_filters ws
  unfolding get
  fields_of-table ws w =
      ap (fields_of number) (fun_ext (get-set_all (table_of ws) [])) ∙ fields_of-found ws w

  fields_of-nothing : fields_of number (get []) ≡ default_workspace
  unfolding fields_of with_pruned_filters prune_disabled get tab_of view_of mode_of list number_of
      is_value
  fields_of-nothing = refl

  empty_of_length : (p : Params) → (length p == 0) ≡ true → [] ≡ p
  empty_of_length [] h = refl
  empty_of_length (x ∷ p) h = absurd (ground (arith, h))

  -- Reading the address that a workspace was written to gives that workspace, without the markers
  -- of entries that are not selected. The items of its lists are not empty and have no comma, its
  -- directions and datatypes are such, the deprecated relation is not set, and the host reads a
  -- number's text as the number.
  pub workspace_round_trip :
      (ws : WorkspaceState)
      → IsShareable ws
      → workspace_from_search number (build_monitor_search ws) ≡ with_pruned_filters ws
  unfolding build_monitor_search
  workspace_round_trip ws w =
      let p = set_all (table_of ws) [] in
      elim (Bool-cases (length p == 0)) [
        | inl h ↦ rw h (
            nothing
            ∙ sym fields_of-nothing
            ∙ ap (λ q. fields_of number (get q)) (empty_of_length p h)
            ∙ fields_of-table ws w)
        | inr h ↦ rw h (parse-marker p ∙ fields_of-table ws w)
      ]
    where
      nothing : workspace_from_search number [] ≡ default_workspace
      nothing = unfold workspace_from_search parse_monitor_search or_default get is_value in refl
