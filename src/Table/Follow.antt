-- ===== src/Table/Follow.antt =====
-- Following the live edge in frontend/src/components/TelegramTable.tsx: what an update of the rows does
-- to the counter of new rows, to the stripes and to the row that is held still. Rows are known by
-- their keys; pixels and scrolling are left.
pub mod Stripes
use spectrum_knx.Prelude.{
  ℕ, zero, suc, ◌+◌, ◌-◌, ◌%◌, Bool, true, false, not, ◌&&◌, ◌||◌, Option, none, some, List, [],
  ◌∷◌, ltb, ◌==◌, if◌then◌else◌, length, last?, Text, text_eq, includes,
}
use spectrum_knx.Table.Marks.{find_index}

pub data Edge : Type 0 where
  top bottom : Edge

pub record Follow : Type 0 where
  pub at_edge : Bool
  pub anchor : Option Text
  pub new_since_anchor : ℕ
  pub stripe_offset : ℕ
  -- `prevRowsRef`
  pub first_key : Option Text
  pub last_key : Option Text
  pub len : ℕ

head? : List Text → Option Text
head? [] = none
head? (k ∷ rows) = some k

unfoldable pub edge_key : Edge → Option Text → Option Text → Option Text
edge_key top first last = first
edge_key bottom first last = last

same_key : Option Text → Option Text → Bool
same_key none none = true
same_key (some a) (some b) = text_eq a b
same_key _ _ = false

-- how far the last row with the key is from the end
from_end : List Text → Text → Option ℕ
from_end [] key = none
from_end (k ∷ rows) key =
    let rest = from_end rows key in
    elim rest [ some i ↦ some i | none ↦ if text_eq k key then some (length rows) else none ]

-- `added`: where the row now is that was at the live edge; none for -1
rows_added : Edge → List Text → Text → Option ℕ
unfolding from_end find_index
rows_added top rows key = find_index rows key
rows_added bottom rows key = from_end rows key

-- the parity of the offset and of the rows' shift; a shift by `-dropped` has the parity of `dropped`,
-- which is that of the sum of its parts
shifted : Edge → ℕ → ℕ → ℕ → ℕ → ℕ
shifted top offset added before now = (offset + added) % 2
shifted bottom offset added before now = (offset + (before + added + now)) % 2

holds_anchor : Option Text → List Text → Bool
holds_anchor none rows = false
holds_anchor (some key) rows = includes rows key

-- the row of the live edge is gone
replaced : List Text → Follow → Follow
unfolding holds_anchor
replaced rows s =
    if not s.at_edge && holds_anchor s.anchor rows
    then record s { stripe_offset = 0 }
    else record s { anchor = none; new_since_anchor = 0; stripe_offset = 0 }

arrived : Edge → ℕ → List Text → Follow → Follow
unfolding shifted
arrived edge added rows s =
    let offset = shifted edge s.stripe_offset added s.len (length rows) in
    if s.at_edge
    then record s { stripe_offset = offset }
    else record s { stripe_offset = offset; new_since_anchor = s.new_since_anchor + added }

take_in : Edge → Option ℕ → List Text → Follow → Follow
unfolding arrived replaced
take_in edge none rows s = replaced rows s
take_in edge (some zero) rows s = replaced rows s
take_in edge (some (suc n)) rows s = arrived edge (suc n) rows s

edge_moved : Edge → List Text → Follow → Option Text → Follow
unfolding take_in rows_added same_key edge_key head?
edge_moved edge rows s none = s
edge_moved edge rows s (some previous) =
    if same_key (edge_key edge (head? rows) (last? rows)) (some previous)
    then s
    else take_in edge (rows_added edge rows previous) rows s

cleared_stripes : List Text → Follow → Follow
cleared_stripes [] s = record s { stripe_offset = 0 }
cleared_stripes (k ∷ rows) s = s

note_rows : List Text → Follow → Follow
unfolding head?
note_rows rows s = record s { first_key = head? rows; last_key = last? rows; len = length rows }

-- the layout effect on `telegramRows`
unfoldable pub update_rows : Bool → Edge → List Text → Follow → Follow
unfolding edge_moved cleared_stripes note_rows edge_key
update_rows is_time_sort edge rows s =
    let c = cleared_stripes rows s in
    let moved = edge_moved edge rows c (edge_key edge s.first_key s.last_key) in
    if not is_time_sort || s.len == 0 || length rows == 0
    then note_rows rows c
    else note_rows rows moved

-- the pill that leads back to the live edge
unfoldable pub jump_to_live : Follow → Follow
jump_to_live s = record s { at_edge = true; anchor = none; new_since_anchor = 0 }

-- what `gotoIndex` does before it scrolls, for an index that is in the list
unfoldable pub goto_index : ℕ → ℕ → Follow → Follow
goto_index count index s =
    if ltb index count then record s { at_edge = false; anchor = none; new_since_anchor = 0 } else s

-- a click on a row of a list sorted by time
unfoldable pub pause_on_click : Bool → Follow → Follow
pause_on_click is_time_sort s =
    if is_time_sort && s.at_edge then record s { at_edge = false } else s

-- the stripe of the row at an index
unfoldable pub stripe : Follow → ℕ → ℕ
stripe s index = (index + s.stripe_offset) % 2
