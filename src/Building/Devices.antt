-- ===== src/Building/Devices.antt =====
-- The devices below a space of frontend/src/components/BuildingOverlay.tsx: what the search and the
-- choice of devices say of a space, and of the devices in it.
use spectrum_knx.Prelude.{
  ◌≡◌, Bool, false, List, [], ◌∷◌, ◌++◌, any, Text, includes, arith, All, All-append,
}
use spectrum_knx.Building.{
  DeviceNode, SpaceNode, SpaceNodes, space, nil, cons, device_matches, space_matches,
  any_space_matches, space_has_selected, any_space_has_selected,
}

unfoldable mutual
  -- the devices in a space and in the spaces in it
  pub all_devices : SpaceNode → List DeviceNode
  all_devices (space kind name spaces devices functions) = all_devices_in spaces ++ devices

  pub all_devices_in : SpaceNodes → List DeviceNode
  all_devices_in nil = []
  all_devices_in (cons s spaces) = all_devices s ++ all_devices_in spaces

none_of_any :
    {A : Type 0} (p : A → Bool) (xs : List A) → any p xs ≡ false → All (λ x. p x ≡ false) xs
none_of_any p [] h = tt
none_of_any p (x ∷ xs) h = (ground (arith, h), none_of_any p xs (ground (arith, h)))

module _ (lower : Text → Text) (contains : Text → Text → Bool) (query : Text) where
  -- in a space that does not match, no device does
  abbrev pub Misses : DeviceNode → Type 0
  Misses d = device_matches lower contains d query ≡ false

  mutual
    unfolding space_matches all_devices

    pub no_match :
        (s : SpaceNode) → space_matches lower contains s query ≡ false → All Misses (all_devices s)
    no_match (space kind name spaces devices functions) h =
        All-append Misses (all_devices_in spaces) devices (no_match_in spaces (ground (arith, h)))
          (none_of_any _ devices (ground (arith, h)))

    no_match_in :
        (spaces : SpaceNodes)
        → any_space_matches lower contains spaces query ≡ false
        → All Misses (all_devices_in spaces)
    no_match_in nil h = tt
    no_match_in (cons s spaces) h =
        All-append Misses (all_devices s) (all_devices_in spaces) (no_match s (ground (arith, h)))
          (no_match_in spaces (ground (arith, h)))

module _ (selected : List Text) where
  -- in a space without a ticked device, none is ticked
  abbrev pub Unticked : DeviceNode → Type 0
  Unticked d = includes selected d.address ≡ false

  mutual
    unfolding space_has_selected all_devices

    pub no_selected :
        (s : SpaceNode) → space_has_selected s selected ≡ false → All Unticked (all_devices s)
    no_selected (space kind name spaces devices functions) h =
        All-append Unticked (all_devices_in spaces) devices
          (no_selected_in spaces (ground (arith, h))) (none_of_any _ devices (ground (arith, h)))

    no_selected_in :
        (spaces : SpaceNodes)
        → any_space_has_selected spaces selected ≡ false
        → All Unticked (all_devices_in spaces)
    no_selected_in nil h = tt
    no_selected_in (cons s spaces) h =
        All-append Unticked (all_devices s) (all_devices_in spaces)
          (no_selected s (ground (arith, h))) (no_selected_in spaces (ground (arith, h)))
