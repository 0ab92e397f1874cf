-- ===== src/Building/Tests.antt =====
-- The tree of a small building.
use spectrum_knx.Prelude.{
  ◌≤◌, ◌<◌, ◌≡◌, refl, min, Bool, true, false, ◌&&◌, ◌||◌, ◌==◌, Option, some, [], ◌∷◌, ◌++◌,
  length, filter, Text, codes, All, sum_of,
}
use spectrum_knx.Sorting.{same}
use spectrum_knx.Building.{
  DeviceNode, SpaceNode, space, nil, cons, BuildingData, consider, walk_ko, walk_device, walk_func,
  walk_space, collect_max_ga_name_length, ga_name_width,
}
use spectrum_knx.Selections.{Overrides, nothing_selected}
use spectrum_knx.Building.Rows.{is_shown_device, building_rows}
use spectrum_knx.Building.Rows.Shown.{row_weight, building_rows_lem}
use spectrum_knx.Building.Devices.{all_devices_in}
use spectrum_knx.Building.Names.{ga_names, ga_name_width_lem}

begins : Text → Text → Bool
begins text [] = true
begins [] (c ∷ q) = false
begins (a ∷ text) (c ∷ q) = a == c && begins text q

-- whether a text has another one in it
occurs : Text → Text → Bool
unfolding begins
occurs [] q = begins [] q
occurs (a ∷ text) q = begins (a ∷ text) q || occurs text q

abbrev lamp : DeviceNode
lamp = record {
  address = codes "1.1.1";
  name = codes "ceiling lamp";
  manufacturer = [];
  hardware = [];
  channels = [];
  kos =
      record {
        number = some 1;
        name = [];
        text = [];
        function_text = [];
        dpts = [];
        transmit = false;
        group_addresses =
            record { address = codes "1/1/1"; name = codes "Ceiling lamp"; dpt = Option.none } ∷ [];
      }
      ∷ [];
}

abbrev blind : DeviceNode
blind = record lamp { address = codes "1.1.2"; name = codes "blind"; kos = [] }

abbrev house : SpaceNode
house =
    space (codes "Building") (codes "house")
      (cons (space (codes "Room") [] nil (blind ∷ lamp ∷ []) []) nil) [] []

abbrev small : BuildingData
small = record { tree = cons house nil; unassigned_devices = blind ∷ [] }

twelve_and_one : ga_name_width small ≡ some 13
unfolding ga_name_width collect_max_ga_name_length walk_space walk_device walk_ko walk_func consider
twelve_and_one = refl

ga_name_width_lem_example :
    (9 ≤ 13) × (13 ≤ 61) × All (λ name. min (length name) 60 < 13) (ga_names small)
ga_name_width_lem_example = ga_name_width_lem small 13 twelve_and_one

-- a search for the lamp leaves its row alone, with everything closed
abbrev closed_all : Overrides
closed_all = (codes "space:Building:house#0", false) ∷ []

building_rows_lem_example :
    sum_of
      (row_weight (λ d. 1))
      (building_rows (λ s. s) occurs (λ a b. same) closed_all (codes "lamp") nothing_selected small)
    ≡ sum_of
        (λ d. 1)
        (filter
          (is_shown_device (λ s. s) occurs (λ a b. same) closed_all (codes "lamp") nothing_selected)
          (all_devices_in small.tree ++ small.unassigned_devices))
building_rows_lem_example =
    building_rows_lem (λ s. s) occurs (λ a b. same) closed_all (codes "lamp") nothing_selected
      (λ d. 1) small refl
