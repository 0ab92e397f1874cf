-- ===== src/Selections.antt =====
-- Small stores of the frontend: the ticked devices (frontend/src/utils/buildingSelection.ts), the
-- opened tree nodes (frontend/src/utils/buildingExpansion.ts), the addresses sent to last
-- (frontend/src/utils/recentGas.ts), the hidden series (frontend/src/utils/legendVisibility.ts), and the
-- jumps between marked rows (frontend/src/utils/adjacentMark.ts). Their copies in the browser's storage
-- and the subscribers are not modelled; a read of the storage that fails gives the defaults.
pub mod Kept
mod Tests
use spectrum_knx.Prelude.{
  ℕ, zero, suc, ◌+◌, Bool, true, false, not, ◌&&◌, ◌||◌, Option, none, some, List, [], ◌∷◌, ◌++◌,
  ltb, if◌then◌else◌, length, take, filter, last?, Text, text_eq, includes, get, put, toggle_text,
}

pub record DeviceSelection : Type 0 where
  pub devices : List Text
  pub only_selected : Bool

abbrev pub nothing_selected : DeviceSelection
nothing_selected = record { devices = []; only_selected = false }

unfoldable pub toggle_device_selected : Text → DeviceSelection → DeviceSelection
toggle_device_selected address s = record s { devices = toggle_text s.devices address }

unfoldable pub set_only_selected : Bool → DeviceSelection → DeviceSelection
set_only_selected only s = record s { only_selected = only }

unfoldable pub clear_device_selection : DeviceSelection → DeviceSelection
clear_device_selection s = nothing_selected

unfoldable pub hide_others : DeviceSelection → Bool
hide_others s = s.only_selected && ltb 0 (length s.devices)

-- the nodes that the user has toggled
abbrev pub Overrides : Type 0
Overrides = List (Text × Bool)

or_open : Option Bool → Bool → Bool
or_open none default_open = default_open
or_open (some open_now) default_open = open_now

pub is_open : Text → Bool → Overrides → Bool
unfolding or_open
is_open key default_open overrides = or_open (get overrides key) default_open

pub toggle_open : Text → Bool → Overrides → Overrides
toggle_open key default_open overrides =
    put key (not (is_open key default_open overrides)) overrides

abbrev pub max_recent : ℕ
max_recent = 10

pub push_recent_ga : Text → List Text → List Text
push_recent_ga address loaded =
    take max_recent (address ∷ filter (λ a. not (text_eq a address)) loaded)

-- the stored items that are texts
texts_of : List (Option Text) → List Text
texts_of [] = []
texts_of (none ∷ stored) = texts_of stored
texts_of (some a ∷ stored) = a ∷ texts_of stored

pub load_recent_gas : List (Option Text) → List Text
unfolding texts_of
load_recent_gas stored = take max_recent (texts_of stored)

pub set_series_hidden : Text → Bool → List Text → List Text
set_series_hidden address true hidden =
    if includes hidden address then hidden else hidden ++ address ∷ []
set_series_hidden address false hidden = filter (λ a. not (text_eq a address)) hidden

pub clear_series_hidden : List Text → List Text → List Text
unfolding set_series_hidden
clear_series_hidden [] hidden = hidden
clear_series_hidden (a ∷ addresses) hidden =
    clear_series_hidden addresses (set_series_hidden a false hidden)

-- the next marked row, or the first one; the previous one, or the last one
unfoldable pub find_after : ℕ → List ℕ → Option ℕ
find_after from [] = none
find_after from (i ∷ marked) =
    let rest = find_after from marked in if ltb from i then some i else rest

unfoldable pub find_last_before : ℕ → List ℕ → Option ℕ
find_last_before from [] = none
find_last_before from (i ∷ marked) =
    let rest = find_last_before from marked in
    elim rest [ some j ↦ some j | none ↦ if ltb i from then some i else none ]

unfoldable pub first_of : List ℕ → Option ℕ
first_of [] = none
first_of (i ∷ marked) = some i

unfoldable pub or_number : Option ℕ → Option ℕ → Option ℕ
or_number none b = b
or_number (some a) b = some a

-- forwards, or backwards
unfoldable pub adjacent_mark : List ℕ → ℕ → Bool → Option ℕ
unfolding find_after find_last_before first_of or_number
adjacent_mark marked from true = or_number (find_after from marked) (first_of marked)
adjacent_mark marked from false = or_number (find_last_before from marked) (last? marked)
