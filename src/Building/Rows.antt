-- ===== src/Building/Rows.antt =====
-- The rows of the tree in frontend/src/components/BuildingOverlay.tsx, over the stores of
-- Selections: what the user has toggled, and the ticked devices. `query` is the search, trimmed and
-- in lower case.
pub mod Shown
use spectrum_knx.Prelude.{
  ℕ, suc, ◌+◌, Bool, true, false, not, ◌&&◌, ◌||◌, List, [], ◌∷◌, ◌++◌, map, ltb, if◌then◌else◌,
  length, filter, sort, Text, includes, codes, decimal,
}
use spectrum_knx.Sorting.{Sign, is_not_after}
use spectrum_knx.Selections.{DeviceSelection, hide_others, Overrides, is_open}
use spectrum_knx.Building.{
  DeviceNode, FunctionNode, SpaceNode, SpaceNodes, space, nil, cons, BuildingData, device_matches,
  function_matches, space_matches, space_has_selected, space_name,
}

pub data BuildingRow : Type 0 where
  space_row : SpaceNode → BuildingRow
  function_row : FunctionNode → BuildingRow
  device_row : DeviceNode → BuildingRow

-- a space, with its rows at a path
abbrev pub Placed : Type 0
Placed = SpaceNode × (Text → List BuildingRow)

-- the key of a space among those beside it
unfoldable pub step_of : SpaceNode → ℕ → Text
step_of (space kind name spaces devices functions) i =
    kind ++ codes ":" ++ name ++ codes "#" ++ decimal i

unfoldable pub rows_from : Text → ℕ → List Placed → List BuildingRow
rows_from prefix i [] = []
rows_from prefix i ((s, rows) ∷ spaces) =
    rows (prefix ++ step_of s i) ++ rows_from prefix (suc i) spaces

module _ (lower : Text → Text) (contains : Text → Text → Bool) (locale_compare : Text → Text → Sign)
    (overrides : Overrides) (query : Text) (selection : DeviceSelection) where
  abbrev pub searching : Bool
  searching = ltb 0 (length query)

  abbrev pub is_shown_space : SpaceNode → Bool
  is_shown_space s =
      (not searching || space_matches lower contains s query)
      && (not (hide_others selection) || space_has_selected s selection.devices)

  abbrev pub is_shown_device : DeviceNode → Bool
  is_shown_device d =
      (not searching || device_matches lower contains d query)
      && (not (hide_others selection) || includes selection.devices d.address)

  abbrev pub visible_functions : List FunctionNode → List FunctionNode
  visible_functions functions =
      if hide_others selection
      then []
      else filter (λ f. not searching || function_matches lower contains f query) functions

  abbrev pub is_effectively_open : Text → ℕ → Bool
  is_effectively_open path depth =
      is_open (codes "space:" ++ path) (ltb depth 2) overrides || searching || hide_others selection

  abbrev pub names_in_order : Placed → Placed → Bool
  names_in_order a b = is_not_after (locale_compare (space_name a.0) (space_name b.0))

  -- the rows of spaces, in the order of their names
  abbrev pub in_order : Text → List Placed → List BuildingRow
  in_order prefix spaces = rows_from prefix 0 (sort names_in_order spaces)

  abbrev pub device_rows : List DeviceNode → List BuildingRow
  device_rows devices = map device_row (filter is_shown_device devices)

  unfoldable mutual
    pub space_rows : SpaceNode → ℕ → Text → List BuildingRow
    space_rows (space kind name spaces devices functions) depth path =
        let s = space kind name spaces devices functions in
        let below =
          in_order (path ++ codes "/") (sub_rows spaces (suc depth))
          ++ (map function_row (visible_functions functions) ++ device_rows devices) in
        if is_shown_space s
        then space_row s ∷ (if is_effectively_open path depth then below else [])
        else []

    pub sub_rows : SpaceNodes → ℕ → List Placed
    sub_rows nil depth = []
    sub_rows (cons s spaces) depth = (s, space_rows s depth) ∷ sub_rows spaces depth

  unfoldable pub building_rows : BuildingData → List BuildingRow
  building_rows building =
      in_order [] (sub_rows building.tree 0) ++ device_rows building.unassigned_devices
