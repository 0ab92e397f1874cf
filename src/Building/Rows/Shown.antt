-- ===== src/Building/Rows/Shown.antt =====
-- Which devices the tree of frontend/src/components/BuildingOverlay.tsx shows.
use spectrum_knx.Prelude.{
  ℕ, ◌+◌, ◌≡◌, refl, ap, sym, ◌∙◌, Bool, true, false, not, ◌||◌, List, [], ◌∷◌, ◌++◌, map, ltb,
  length, filter, Text, codes, suc, arith, All, All-sort, sum_of, sum_of-append, sum_of-sort,
  sum_of-filter_none, All-map, filter-append, Bool-cases, inl, inr,
}
use spectrum_knx.Sorting.{Sign}
use spectrum_knx.Selections.{DeviceSelection, Overrides, hide_others}
use spectrum_knx.Building.{
  DeviceNode, FunctionNode, SpaceNode, SpaceNodes, space, nil, cons, BuildingData, space_matches,
}
use spectrum_knx.Building.Devices.{all_devices, all_devices_in, no_match, no_selected}
use spectrum_knx.Building.Rows.{
  BuildingRow, function_row, device_row, searching, is_shown_space, is_shown_device,
  visible_functions, in_order, device_rows, Placed, step_of, rows_from, is_effectively_open,
  space_rows, sub_rows, building_rows,
}

-- what the device of a row weighs
abbrev pub row_weight : (DeviceNode → ℕ) → BuildingRow → ℕ
row_weight g (device_row d) = g d
row_weight g _ = 0

module _ (lower : Text → Text) (contains : Text → Text → Bool) (locale_compare : Text → Text → Sign)
    (overrides : Overrides) (query : Text) (selection : DeviceSelection) (g : DeviceNode → ℕ) where
  abbrev ok : DeviceNode → Bool
  ok = is_shown_device lower contains locale_compare overrides query selection

  abbrev seeks : Bool
  seeks = searching lower contains locale_compare overrides query selection

  abbrev shows : SpaceNode → Bool
  shows = is_shown_space lower contains locale_compare overrides query selection

  abbrev rows : SpaceNode → ℕ → Text → List BuildingRow
  rows = space_rows lower contains locale_compare overrides query selection

  abbrev subs : SpaceNodes → ℕ → List Placed
  subs = sub_rows lower contains locale_compare overrides query selection

  abbrev ordered : Text → List Placed → List BuildingRow
  ordered = in_order lower contains locale_compare overrides query selection

  abbrev listed : List DeviceNode → List BuildingRow
  listed = device_rows lower contains locale_compare overrides query selection

  abbrev weigh : List BuildingRow → ℕ
  weigh = sum_of (row_weight g)

  abbrev weigh_shown : List DeviceNode → ℕ
  weigh_shown devices = sum_of g (filter ok devices)

  weigh-devices : (devices : List DeviceNode) → weigh (map device_row devices) ≡ sum_of g devices
  weigh-devices [] = refl
  weigh-devices (d ∷ devices) = omega (arith, weigh-devices devices)

  weigh-functions : (functions : List FunctionNode) → weigh (map function_row functions) ≡ 0
  weigh-functions [] = refl
  weigh-functions (f ∷ functions) = omega (arith, weigh-functions functions)

  weigh_shown-append :
      (xs ys : List DeviceNode) → weigh_shown (xs ++ ys) ≡ weigh_shown xs + weigh_shown ys
  weigh_shown-append xs ys =
      ap (sum_of g) (filter-append ok xs ys) ∙ sum_of-append g (filter ok xs) (filter ok ys)

  abbrev devices_of : Placed → ℕ
  devices_of e = weigh_shown (all_devices e.0)

  -- wherever they are placed, the rows of a space weigh what its devices do
  abbrev WeighsItsDevices : Placed → Type 0
  WeighsItsDevices e = (path : Text) → weigh (e.1 path) ≡ devices_of e

  weigh-rows_from :
      (prefix : Text) (i : ℕ) (spaces : List Placed)
      → All WeighsItsDevices spaces
      → weigh (rows_from prefix i spaces) ≡ sum_of devices_of spaces
  unfolding rows_from
  weigh-rows_from prefix i [] h = refl
  weigh-rows_from prefix i ((s, at) ∷ spaces) h = omega (
    arith,
    sum_of-append (row_weight g) (at (prefix ++ step_of s i)) (rows_from prefix (suc i) spaces),
    h.0 (prefix ++ step_of s i),
    weigh-rows_from prefix (suc i) spaces h.1,
  )

  weigh-in_order :
      (prefix : Text) (spaces : List Placed)
      → All WeighsItsDevices spaces
      → weigh (ordered prefix spaces) ≡ sum_of devices_of spaces
  weigh-in_order prefix spaces h =
      weigh-rows_from prefix 0 _ (All-sort _ WeighsItsDevices spaces h)
      ∙ sum_of-sort devices_of _ spaces

  devices-sub_rows :
      (spaces : SpaceNodes) (depth : ℕ)
      → sum_of devices_of (subs spaces depth) ≡ weigh_shown (all_devices_in spaces)
  unfolding sub_rows all_devices
  devices-sub_rows nil depth = refl
  devices-sub_rows (cons s spaces) depth = omega (
    arith,
    devices-sub_rows spaces depth,
    weigh_shown-append (all_devices s) (all_devices_in spaces),
  )

  -- nothing in a space that is left out would be shown
  hidden : (s : SpaceNode) → shows s ≡ false → weigh_shown (all_devices s) ≡ 0
  hidden s h =
      sum_of-filter_none g ok (all_devices s)
        (elim (Bool-cases (not seeks || space_matches lower contains s query)) [
          | inr e ↦
              All-map _ (all_devices s) (λ d k. ground (arith, e, k))
                (no_match lower contains query s (ground (arith, e)))
          | inl e ↦
              All-map _ (all_devices s) (λ d k. ground (arith, e, h, k))
                (no_selected selection.devices s (ground (arith, e, h)))
        ])

  mutual
    unfolding space_rows all_devices

    weigh-space_rows :
        (s : SpaceNode) (depth : ℕ)
        → (seeks || hide_others selection) ≡ true
        → (path : Text) → weigh (rows s depth path) ≡ weigh_shown (all_devices s)
    weigh-space_rows (space kind name spaces devices functions) depth h path =
        let s = space kind name spaces devices functions in
        let functions_shown =
          map function_row
            (visible_functions lower contains locale_compare overrides query selection functions) in
        elim (Bool-cases (shows s)) [
          | inr e ↦ rw e (sym (hidden s e))
          | inl e ↦
              let opens : is_effectively_open lower contains locale_compare overrides query
                    selection path depth
                  ≡ true =
                ground (arith, h) in
              rw (e, opens)
                (omega (
                  arith,
                  sum_of-append (row_weight g)
                      (ordered (path ++ codes "/") (subs spaces (suc depth)))
                      (functions_shown ++ listed devices),
                  sum_of-append (row_weight g) functions_shown (listed devices),
                  weigh-in_order (path ++ codes "/") (subs spaces (suc depth))
                      (sub_rows-weigh spaces (suc depth) h),
                  weigh-functions (
                      visible_functions lower contains locale_compare overrides query selection
                        functions),
                  weigh-devices (filter ok devices),
                  devices-sub_rows spaces (suc depth),
                  weigh_shown-append (all_devices_in spaces) devices,
                ))
        ]

    sub_rows-weigh :
        (spaces : SpaceNodes) (depth : ℕ)
        → (seeks || hide_others selection) ≡ true
        → All WeighsItsDevices (subs spaces depth)
    sub_rows-weigh nil depth h = tt
    sub_rows-weigh (cons s spaces) depth h =
        (weigh-space_rows s depth h, sub_rows-weigh spaces depth h)

  -- While a search or the choice of devices is on, whatever spaces the user has opened or closed, the
  -- tree shows exactly the devices of the building that match the search, and are ticked if the
  -- choice is on, each as often as it is there: any weight of the devices shown sums up to that of
  -- those devices.
  pub building_rows_lem :
      (building : BuildingData)
      → (ltb 0 (length query) || hide_others selection) ≡ true
      → sum_of
          (row_weight g)
          (building_rows lower contains locale_compare overrides query selection building)
        ≡ sum_of g (
            filter
              (is_shown_device lower contains locale_compare overrides query selection)
              (all_devices_in building.tree ++ building.unassigned_devices))
  unfolding building_rows
  building_rows_lem building h = omega (
    arith,
    sum_of-append (row_weight g) (ordered [] (subs building.tree 0))
        (listed building.unassigned_devices),
    weigh-in_order [] (subs building.tree 0) (sub_rows-weigh building.tree 0 h),
    weigh-devices (filter ok building.unassigned_devices),
    devices-sub_rows building.tree 0,
    weigh_shown-append (all_devices_in building.tree) building.unassigned_devices,
  )
