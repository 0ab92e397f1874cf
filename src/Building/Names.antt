-- ===== src/Building/Names.antt =====
-- The width that frontend/src/components/BuildingOverlay.tsx gives to the names of group addresses.
use spectrum_knx.Prelude.{
  ℕ, ◌<◌, ◌≤◌, ◌≡◌, refl, ap, sym, ◌∙◌, min, some, List, [], ◌∷◌, ◌++◌, map, length, Text, arith,
  All, All-map,
}
use spectrum_knx.Telegram.{or_empty}
use spectrum_knx.Building.{
  GaRef, Ko, Channel, DeviceNode, FunctionGa, FunctionNode, SpaceNode, SpaceNodes, space, nil, cons,
  BuildingData, flat_map, consider, walk, walk_ko, walk_device, walk_func, walk_space, walk_spaces,
  collect_max_ga_name_length, ga_name_width,
}

abbrev pub ko_names : Ko → List Text
ko_names ko = map (λ (g : GaRef). g.name) ko.group_addresses

abbrev pub device_names : DeviceNode → List Text
device_names d =
    flat_map (λ (c : Channel). flat_map ko_names c.kos) d.channels ++ flat_map ko_names d.kos

abbrev pub func_names : FunctionNode → List Text
func_names f = map (λ (g : FunctionGa). or_empty g.name) f.group_addresses

unfoldable mutual
  -- every name of a group address below a space
  pub space_names : SpaceNode → List Text
  space_names (space kind name spaces devices functions) =
      spaces_names spaces ++ (flat_map device_names devices ++ flat_map func_names functions)

  pub spaces_names : SpaceNodes → List Text
  spaces_names nil = []
  spaces_names (cons s spaces) = space_names s ++ spaces_names spaces

-- every name of a group address in the building
abbrev pub ga_names : BuildingData → List Text
ga_names building = spaces_names building.tree ++ flat_map device_names building.unassigned_devices

walk-append :
    {A : Type 0} (v : A → ℕ → ℕ) (xs ys : List A) (n : ℕ)
    → walk v (xs ++ ys) n ≡ walk v ys (walk v xs n)
walk-append v [] ys n = refl
walk-append v (x ∷ xs) ys n = walk-append v xs ys (v x n)

-- a walk is one over the names of its elements
walk-flat_map :
    {A : Type 0} (v : A → ℕ → ℕ) (names : A → List Text)
    → ((x : A) (n : ℕ) → v x n ≡ walk consider (names x) n)
    → (xs : List A) (n : ℕ) → walk v xs n ≡ walk consider (flat_map names xs) n
walk-flat_map v names e [] n = refl
walk-flat_map v names e (x ∷ xs) n =
    walk-flat_map v names e xs (v x n)
    ∙ ap (walk consider (flat_map names xs)) (e x n)
    ∙ sym (walk-append consider (names x) (flat_map names xs) n)

walk-map :
    {A : Type 0} (name : A → Text) (xs : List A) (n : ℕ)
    → walk (λ x. consider (name x)) xs n ≡ walk consider (map name xs) n
walk-map name [] n = refl
walk-map name (x ∷ xs) n = walk-map name xs (consider (name x) n)

walk_ko_lem : (ko : Ko) (n : ℕ) → walk_ko ko n ≡ walk consider (ko_names ko) n
unfolding walk_ko
walk_ko_lem ko n = walk-map (λ (g : GaRef). g.name) ko.group_addresses n

walk_device_lem : (d : DeviceNode) (n : ℕ) → walk_device d n ≡ walk consider (device_names d) n
unfolding walk_device
walk_device_lem d n =
    walk-flat_map walk_ko ko_names walk_ko_lem d.kos _
    ∙ ap (walk consider (flat_map ko_names d.kos)) (
        walk-flat_map _ (λ (c : Channel). flat_map ko_names c.kos)
          (λ c m. walk-flat_map walk_ko ko_names walk_ko_lem c.kos m) d.channels n)
    ∙ sym (
        walk-append consider (flat_map (λ (c : Channel). flat_map ko_names c.kos) d.channels)
          (flat_map ko_names d.kos) n)

walk_func_lem : (f : FunctionNode) (n : ℕ) → walk_func f n ≡ walk consider (func_names f) n
unfolding walk_func
walk_func_lem f n = walk-map (λ (g : FunctionGa). or_empty g.name) f.group_addresses n

mutual
  unfolding walk_space space_names

  walk_space_lem : (s : SpaceNode) (n : ℕ) → walk_space s n ≡ walk consider (space_names s) n
  walk_space_lem (space kind name spaces devices functions) n =
      walk-flat_map walk_func func_names walk_func_lem functions _
      ∙ ap (walk consider (flat_map func_names functions)) (
          walk-flat_map walk_device device_names walk_device_lem devices _
          ∙ ap (walk consider (flat_map device_names devices)) (walk_spaces_lem spaces n))
      ∙ sym (
          walk-append consider (flat_map device_names devices) (flat_map func_names functions)
            (walk consider (spaces_names spaces) n))
      ∙ sym (
          walk-append consider (spaces_names spaces)
            (flat_map device_names devices ++ flat_map func_names functions) n)

  walk_spaces_lem :
      (spaces : SpaceNodes) (n : ℕ) → walk_spaces spaces n ≡ walk consider (spaces_names spaces) n
  walk_spaces_lem nil n = refl
  walk_spaces_lem (cons s spaces) n =
      walk_spaces_lem spaces (walk_space s n)
      ∙ ap (walk consider (spaces_names spaces)) (walk_space_lem s n)
      ∙ sym (walk-append consider (space_names s) (spaces_names spaces) n)

collect_max_ga_name_length_lem :
    (building : BuildingData)
    → collect_max_ga_name_length building ≡ walk consider (ga_names building) 0
unfolding collect_max_ga_name_length
collect_max_ga_name_length_lem building =
    walk-flat_map walk_device device_names walk_device_lem building.unassigned_devices _
    ∙ ap (walk consider (flat_map device_names building.unassigned_devices))
        (walk_spaces_lem building.tree 0)
    ∙ sym (
        walk-append consider (spaces_names building.tree)
          (flat_map device_names building.unassigned_devices) 0)

walk-consider-grows : (names : List Text) (n : ℕ) → n ≤ walk consider names n
unfolding consider
walk-consider-grows [] n = omega arith
walk-consider-grows (name ∷ names) n = ground (arith, walk-consider-grows names (consider name n))

walk-consider_lem :
    (names : List Text) (n : ℕ) → All (λ name. length name ≤ walk consider names n) names
unfolding consider
walk-consider_lem [] n = tt
walk-consider_lem (name ∷ names) n = (
  ground (arith, walk-consider-grows names (consider name n)),
  walk-consider_lem names (consider name n),
)

-- When the tree gives the names of group addresses a width, it is from 9 to 61 characters, and every
-- name in the building, in channels, devices, functions and nested spaces, that has at most 60
-- characters is shorter.
pub ga_name_width_lem :
    (building : BuildingData) (w : ℕ)
    → ga_name_width building ≡ some w
    → (9 ≤ w) × (w ≤ 61) × All (λ name. min (length name) 60 < w) (ga_names building)
unfolding ga_name_width
ga_name_width_lem building w h = (
  ground (arith, h),
  ground (arith, h),
  All-map _ (ga_names building)
      (λ name k. ground (arith, h, k, collect_max_ga_name_length_lem building))
      (walk-consider_lem (ga_names building) 0),
)
