-- ===== src/Building.antt =====
-- The building's tree of frontend/src/components/BuildingOverlay.tsx: its devices, their group addresses
-- and the search. Texts are in lower case by the host's `lower`, and `contains` is its `includes` of
-- texts; `locale_compare` is its order of names.
pub mod Devices
pub mod Rows
pub mod Names
mod Tests
use spectrum_knx.Prelude.{
  ℕ, zero, suc, ◌+◌, max, min, Bool, true, false, not, ◌&&◌, ◌||◌, Option, none, some, List, [],
  ◌∷◌, ◌++◌, map, ltb, leb, ◌==◌, if◌then◌else◌, length, filter, any, sort, Text, codes, decimal,
  pad_start, includes, text_eq,
}
use spectrum_knx.Telegram.{or_empty}
use spectrum_knx.Charts.{distinct_texts}
use spectrum_knx.Sorting.{Sign, same, before, after, compare_numbers, is_not_after}

pub record Dpt : Type 0 where
  pub main : ℕ
  pub sub : Option ℕ
  pub name : Option Text

pub record GaRef : Type 0 where
  pub address : Text
  pub name : Text
  pub dpt : Option Dpt

pub record Ko : Type 0 where
  pub number : Option ℕ
  pub name : Text
  pub text : Text
  pub function_text : Text
  pub dpts : List Dpt
  pub transmit : Bool
  pub group_addresses : List GaRef

pub record Channel : Type 0 where
  pub id : Text
  pub name : Text
  pub kos : List Ko

pub record DeviceNode : Type 0 where
  pub address : Text
  pub name : Text
  pub manufacturer : Text
  pub hardware : Text
  pub channels : List Channel
  pub kos : List Ko

pub record FunctionGa : Type 0 where
  pub address : Text
  pub name : Option Text

pub record FunctionNode : Type 0 where
  pub id : Text
  pub name : Text
  pub kind : Text
  pub group_addresses : List FunctionGa

mutual
  -- its type, name, spaces, devices and functions
  pub data SpaceNode : Type 0 where
    space : Text → Text → SpaceNodes → List DeviceNode → List FunctionNode → SpaceNode

  pub data SpaceNodes : Type 0 where
    nil : SpaceNodes
    cons : SpaceNode → SpaceNodes → SpaceNodes

pub record BuildingData : Type 0 where
  pub tree : SpaceNodes
  pub unassigned_devices : List DeviceNode

-- `flatMap`
abbrev pub flat_map : {A : Type 0} {B : Type 0} → (A → List B) → List A → List B
flat_map f [] = []
flat_map f (x ∷ xs) = f x ++ flat_map f xs

unfoldable pub ko_gas : Ko → List Text
ko_gas ko = map (λ (g : GaRef). g.address) ko.group_addresses

unfoldable pub channel_gas : Channel → List Text
channel_gas ch = distinct_texts (flat_map ko_gas ch.kos)

unfoldable pub device_gas : DeviceNode → List Text
device_gas d = distinct_texts (flat_map channel_gas d.channels ++ flat_map ko_gas d.kos)

compare_kos : Option ℕ → Option ℕ → Sign
compare_kos none none = same
compare_kos none (some b) = after
compare_kos (some a) none = before
compare_kos (some a) (some b) = compare_numbers a b

unfoldable pub sort_kos : List Ko → List Ko
unfolding compare_kos
sort_kos kos = sort (λ (a b : Ko). is_not_after (compare_kos a.number b.number)) kos

unfoldable pub space_name : SpaceNode → Text
space_name (space kind name spaces devices functions) = if length name == 0 then kind else name

module _ (lower : Text → Text) (contains : Text → Text → Bool) where
  abbrev pub finds : Text → Text → Bool
  finds text q = contains (lower text) q

  unfoldable pub ga_matches : GaRef → Text → Bool
  ga_matches ga q = finds ga.address q || finds ga.name q

  has_number : Option ℕ → Text → Bool
  has_number none q = false
  has_number (some n) q = contains (decimal n) q

  unfoldable pub ko_matches : Ko → Text → Bool
  unfolding has_number
  ko_matches ko q =
      finds ko.name q
      || finds ko.text q
      || finds ko.function_text q
      || has_number ko.number q
      || any (λ g. ga_matches g q) ko.group_addresses

  unfoldable pub device_matches : DeviceNode → Text → Bool
  device_matches d q =
      finds d.address q
      || finds d.name q
      || finds d.manufacturer q
      || any (λ (c : Channel). finds c.name q || any (λ k. ko_matches k q) c.kos) d.channels
      || any (λ k. ko_matches k q) d.kos

  unfoldable pub function_matches : FunctionNode → Text → Bool
  function_matches func q =
      finds func.name q
      || finds func.kind q
      || any (λ (g : FunctionGa). finds g.address q || finds (or_empty g.name) q)
          func.group_addresses

  unfoldable mutual
    pub space_matches : SpaceNode → Text → Bool
    space_matches (space kind name spaces devices functions) q =
        finds name q
        || finds kind q
        || any_space_matches spaces q
        || any (λ d. device_matches d q) devices
        || any (λ f. function_matches f q) functions

    pub any_space_matches : SpaceNodes → Text → Bool
    any_space_matches nil q = false
    any_space_matches (cons s spaces) q = space_matches s q || any_space_matches spaces q

unfoldable mutual
  pub space_has_selected : SpaceNode → List Text → Bool
  space_has_selected (space kind name spaces devices functions) selected =
      any (λ (d : DeviceNode). includes selected d.address) devices
      || any_space_has_selected spaces selected

  pub any_space_has_selected : SpaceNodes → List Text → Bool
  any_space_has_selected nil selected = false
  any_space_has_selected (cons s spaces) selected =
      space_has_selected s selected || any_space_has_selected spaces selected

-- the walk over all names keeps the greatest length so far
unfoldable pub consider : Text → ℕ → ℕ
consider name max_len = if ltb max_len (length name) then length name else max_len

abbrev pub walk : {A : Type 0} → (A → ℕ → ℕ) → List A → ℕ → ℕ
walk visit [] n = n
walk visit (x ∷ xs) n = walk visit xs (visit x n)

unfoldable pub walk_ko : Ko → ℕ → ℕ
walk_ko ko n = walk (λ (g : GaRef). consider g.name) ko.group_addresses n

unfoldable pub walk_device : DeviceNode → ℕ → ℕ
walk_device d n = walk walk_ko d.kos (walk (λ (c : Channel). walk walk_ko c.kos) d.channels n)

unfoldable pub walk_func : FunctionNode → ℕ → ℕ
walk_func f n = walk (λ (g : FunctionGa). consider (or_empty g.name)) f.group_addresses n

unfoldable mutual
  pub walk_space : SpaceNode → ℕ → ℕ
  walk_space (space kind name spaces devices functions) n =
      walk walk_func functions (walk walk_device devices (walk_spaces spaces n))

  pub walk_spaces : SpaceNodes → ℕ → ℕ
  walk_spaces nil n = n
  walk_spaces (cons s spaces) n = walk_spaces spaces (walk_space s n)

unfoldable pub collect_max_ga_name_length : BuildingData → ℕ
collect_max_ga_name_length building =
    walk walk_device building.unassigned_devices (walk_spaces building.tree 0)

abbrev pub min_ga_name_width : ℕ
min_ga_name_width = 8

abbrev pub max_ga_name_width : ℕ
max_ga_name_width = 60

unfoldable pub ga_name_width : BuildingData → Option ℕ
ga_name_width building =
    let longest = collect_max_ga_name_length building in
    if longest == 0 then none else some (min (max longest min_ga_name_width) max_ga_name_width + 1)
