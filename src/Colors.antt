-- ===== src/Colors.antt =====
-- The colours of group addresses: frontend/src/utils/targetColors.ts, which the user gives, and
-- frontend/src/utils/seriesColors.ts, which the charts assign.
pub mod Free
pub mod Stable
mod Tests
use spectrum_knx.Prelude.{
  ℕ, zero, suc, ◌+◌, ◌-◌, ◌%◌, Bool, true, false, not, ◌&&◌, ◌||◌, Option, none, some, List, [],
  ◌∷◌, map, ltb, ◌==◌, if◌then◌else◌, length, filter, any, get_elem?, Text, codes, text_eq,
  includes, get, put,
}

abbrev pub palette : List Text
palette =
    codes "#3b82f6"
    ∷ codes "#ef4444"
    ∷ codes "#eab308"
    ∷ codes "#22c55e"
    ∷ codes "#a855f7"
    ∷ codes "#f97316"
    ∷ codes "#14b8a6"
    ∷ []

abbrev pub Colors : Type 0
Colors = List (Text × Text)

-- the entries of a stored preference whose colour is of the palette
pub load_colors : List (Text × Text) → Colors
load_colors stored = filter (λ entry. includes palette entry.1) stored

-- an address without a colour takes none
unfoldable pub taken_loop : Colors → Text → List Text → List (Option Text)
taken_loop current address [] = []
taken_loop current address (a ∷ in_use) =
    let rest = taken_loop current address in_use in
    if not (text_eq a address) then get current a ∷ rest else rest

unfoldable pub is_taken : List (Option Text) → Text → Bool
is_taken [] c = false
is_taken (none ∷ taken) c = is_taken taken c
is_taken (some d ∷ taken) c = text_eq d c || is_taken taken c

first_free : List (Option Text) → List Text → Option Text
unfolding is_taken
first_free taken [] = none
first_free taken (c ∷ colors) =
    let rest = first_free taken colors in if not (is_taken taken c) then some c else rest

or_first : Option Text → Option Text
or_first none = get_elem? palette 0
or_first (some c) = some c

-- the colour after this one in the palette; a colour that is not in it starts over
after_own : List Text → Text → Option Text
after_own [] own = get_elem? palette 0
after_own (c ∷ colors) own =
    let rest = after_own colors own in if text_eq c own then get_elem? colors 0 else rest

next_of : Option Text → Option Text → Option Text
unfolding or_first after_own
next_of none free = or_first free
next_of (some own) free = after_own palette own

pub next_target_color : Colors → Text → List Text → Option Text
unfolding next_of first_free taken_loop
next_target_color current address in_use =
    next_of (get current address) (first_free (taken_loop current address in_use) palette)

pub set_target_color : Text → Option Text → Colors → Colors
set_target_color address none colors = filter (λ entry. not (text_eq entry.0 address)) colors
set_target_color address (some color) colors = put address color colors

-- a place in the palette always has a colour
record_color : Option Text → Text → Colors → Option Text × Colors
record_color none address assigned = (none, assigned)
record_color (some color) address assigned = (some color, put address color assigned)

-- the colour of an address, assigned on first use, and the new assignments
assign : Option Text → Text → Colors → Option Text × Colors
unfolding record_color
assign (some color) address assigned = (some color, assigned)
assign none address assigned =
    record_color (get_elem? palette (length assigned % length palette)) address assigned

pub series_color : Text → Colors → Option Text × Colors
unfolding assign
series_color address assigned = assign (get assigned address) address assigned
