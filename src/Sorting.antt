-- ===== src/Sorting.antt =====
-- frontend/src/utils/sortConfig.ts: the sort levels of the telegram list, the clicks that change
-- them, and the sort. The stored preference is not modelled.
pub mod Comparator
pub mod Levels
pub mod Columns
pub mod Sorted
mod Tests
use spectrum_knx.Prelude.{
  ℕ, zero, suc, Bool, true, false, not, ◌&&◌, ◌||◌, Option, none, some, List, [], ◌∷◌, ◌++◌, ltb,
  ◌==◌, if◌then◌else◌, length, any, sort, Text,
}
use spectrum_knx.Telegram.{ℤ, pos, negsuc, Telegram}

pub data SortKey : Type 0 where
  timestamp : SortKey
  source_address : SortKey
  target_address : SortKey
  simplified_type : SortKey
  dpt_name : SortKey
  value_numeric : SortKey

pub data Direction : Type 0 where
  asc : Direction
  desc : Direction

pub record SortLevel : Type 0 where
  pub key : SortKey
  pub direction : Direction

abbrev pub SortConfig : Type 0
SortConfig = List SortLevel

abbrev key_index : SortKey → ℕ
key_index timestamp = 0
key_index source_address = 1
key_index target_address = 2
key_index simplified_type = 3
key_index dpt_name = 4
key_index value_numeric = 5

abbrev pub same_key : SortKey → SortKey → Bool
same_key a b = key_index a == key_index b

abbrev pub toggled : Direction → Direction
toggled desc = asc
toggled asc = desc

abbrev pub newest_first : SortKey → SortLevel
newest_first key = record { key = key; direction = desc }

-- a plain click
click : SortConfig → SortKey → SortConfig
click (l ∷ []) key =
    if same_key l.key key
    then record { key = key; direction = toggled l.direction } ∷ []
    else newest_first key ∷ []
click _ key = newest_first key ∷ []

-- a click with Ctrl: the first level of the key is toggled, or a new level is added
click_additive : SortConfig → SortKey → SortConfig
click_additive [] key = newest_first key ∷ []
click_additive (l ∷ config) key =
    let rest = click_additive config key in
    if same_key l.key key
    then record { key = key; direction = toggled l.direction } ∷ config
    else l ∷ rest

unfoldable pub toggle_sort_level : SortConfig → SortKey → Bool → SortConfig
unfolding click click_additive
toggle_sort_level config key additive =
    if additive then click_additive config key else click config key

pub effective_sort_levels : SortConfig → List SortLevel
effective_sort_levels config =
    if any (λ (l : SortLevel). same_key l.key timestamp) config
    then config
    else config ++ newest_first timestamp ∷ []

-- the sign of a comparator's result
pub data Sign : Type 0 where
  before : Sign
  same : Sign
  after : Sign

abbrev pub flip : Sign → Sign
flip before = after
flip same = same
flip after = before

abbrev pub is_not_after : Sign → Bool
is_not_after after = false
is_not_after _ = true

-- the first sign that decides
abbrev pub or_then : Sign → Sign → Sign
or_then before s = before
or_then same s = s
or_then after s = after

unfoldable pub compare_numbers : ℕ → ℕ → Sign
compare_numbers a b = if ltb a b then before else if ltb b a then after else same

-- `<` on strings goes by code units
pub compare_texts : Text → Text → Sign
unfolding compare_numbers
compare_texts [] [] = same
compare_texts [] (b ∷ t) = before
compare_texts (a ∷ s) [] = after
compare_texts (a ∷ s) (b ∷ t) = or_then (compare_numbers a b) (compare_texts s t)

pub compare_integers : ℤ → ℤ → Sign
unfolding compare_numbers
compare_integers (pos a) (pos b) = compare_numbers a b
compare_integers (pos a) (negsuc b) = after
compare_integers (negsuc a) (pos b) = before
compare_integers (negsuc a) (negsuc b) = compare_numbers b a

-- a missing value comes last
unfoldable pub compare_nullable : {A : Type 0} → (A → A → Sign) → Option A → Option A → Sign
compare_nullable compare none none = same
compare_nullable compare none (some b) = after
compare_nullable compare (some a) none = before
compare_nullable compare (some a) (some b) = compare a b

-- `get_time` is the host's `new Date(text).getTime()`, for texts that are dates.
module _ (get_time : Text → ℕ) where
  pub compare_values : SortKey → Telegram → Telegram → Sign
  unfolding compare_texts compare_integers compare_nullable
  compare_values timestamp a b = compare_numbers (get_time a.timestamp) (get_time b.timestamp)
  compare_values source_address a b = compare_texts a.source_address b.source_address
  compare_values target_address a b = compare_texts a.target_address b.target_address
  compare_values simplified_type a b =
      compare_nullable compare_texts a.simplified_type b.simplified_type
  compare_values dpt_name a b = compare_nullable compare_texts a.dpt_name b.dpt_name
  compare_values value_numeric a b =
      compare_nullable compare_integers a.value_numeric b.value_numeric

  abbrev directed : Direction → Sign → Sign
  directed asc s = s
  directed desc s = flip s

  pub compare_levels : List SortLevel → Telegram → Telegram → Sign
  unfolding compare_values
  compare_levels [] a b = same
  compare_levels (l ∷ levels) a b =
      or_then (directed l.direction (compare_values l.key a b)) (compare_levels levels a b)

  abbrev pub not_after : List SortLevel → Telegram → Telegram → Bool
  not_after levels a b = is_not_after (compare_levels levels a b)

  pub sort_telegrams : List Telegram → SortConfig → List Telegram
  sort_telegrams items config = sort (not_after (effective_sort_levels config)) items
