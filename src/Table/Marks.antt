-- ===== src/Table/Marks.antt =====
-- The marked rows of frontend/src/components/TelegramTable.tsx: the clicks that mark rows, the jumps
-- between marks (with frontend/src/utils/adjacentMark.ts), and the jump to a time. Rows are known by
-- their keys; scrolling to the row is left.
pub mod Jumps
use spectrum_knx.Prelude.{
  ℕ, zero, suc, ◌+◌, ◌-◌, min, max, Bool, true, false, not, Option, none, some, List, [], ◌∷◌, ◌++◌,
  ltb, if◌then◌else◌, filter, take, drop, get_elem?, Text, text_eq, includes, toggle_text,
}
use spectrum_knx.Charts.{distinct_texts}
use spectrum_knx.Selections.{adjacent_mark}

pub record Marks : Type 0 where
  pub marked : List Text
  pub last_marked : Option Text
  -- the row that the jumps continue from
  pub cursor : Option Text

index_from : ℕ → Option ℕ → Option ℕ
index_from k none = none
index_from k (some i) = some (k + i)

-- `findIndex`
unfoldable pub find_index : List Text → Text → Option ℕ
unfolding index_from
find_index [] key = none
find_index (k ∷ rows) key =
    let rest = index_from 1 (find_index rows key) in if text_eq k key then some 0 else rest

find_last_marked : List Text → Option Text → Option ℕ
unfolding find_index
find_last_marked rows none = none
find_last_marked rows (some key) = find_index rows key

-- from the row clicked last up to this one
range_keys : List Text → Option ℕ → ℕ → Text → List Text
range_keys rows none index key = key ∷ []
range_keys rows (some a) index key = take (max a index + 1 - min a index) (drop (min a index) rows)

next_keys : Bool → Bool → List Text → ℕ → Text → Marks → List Text
unfolding range_keys find_last_marked
next_keys additive true rows index key s =
    let chosen = range_keys rows (find_last_marked rows s.last_marked) index key in
    if additive then distinct_texts (s.marked ++ chosen) else chosen
next_keys true false rows index key s = toggle_text s.marked key
next_keys false false rows index key s = key ∷ []

-- with Ctrl or Cmd, and with Shift
unfoldable pub handle_row_click : Bool → Bool → List Text → ℕ → Text → Marks → Marks
unfolding next_keys
handle_row_click additive range rows index key s = record {
  marked = next_keys additive range rows index key s;
  last_marked = some key;
  cursor = some key;
}

unfoldable pub clear_marks : Marks → Marks
clear_marks s = record s { marked = []; last_marked = none }

indices_of : ℕ → List Text → List Text → List ℕ
indices_of i [] marked = []
indices_of i (k ∷ rows) marked =
    let rest = indices_of (suc i) rows marked in if includes marked k then i ∷ rest else rest

unfoldable pub marked_indices : List Text → List Text → List ℕ
unfolding indices_of
marked_indices rows marked = indices_of 0 rows marked

cursor_index : List Text → Option Text → ℕ → ℕ
cursor_index rows none center = center
cursor_index rows (some key) center = elim (find_index rows key) [ none ↦ center | some i ↦ i ]

moved_to : List Text → Option ℕ → Marks → Option ℕ × Marks
moved_to rows none s = (none, s)
moved_to rows (some target) s = (some target, record s { cursor = get_elem? rows target })

-- The row to go to, if there is a mark; `center` is the row in the middle of the view.
unfoldable pub jump_to_mark : Bool → List Text → ℕ → Marks → Option ℕ × Marks
unfolding cursor_index moved_to
jump_to_mark forward rows center s =
    moved_to rows
      (adjacent_mark (marked_indices rows s.marked) (cursor_index rows s.cursor center) forward) s

-- a user's scroll
unfoldable pub forget_cursor : Marks → Marks
forget_cursor s = record s { cursor = none }

record Best : Type 0 where
  pub best_idx : ℕ
  -- none for `Infinity`
  pub best_diff : Option ℕ

unfoldable pub distance : ℕ → ℕ → ℕ
distance a b = max a b - min a b

unfoldable pub closer : ℕ → Option ℕ → Bool
closer diff none = true
closer diff (some best) = ltb diff best

nearest_loop : ℕ → ℕ → List ℕ → Best → Best
unfolding closer distance
nearest_loop target i [] b = b
nearest_loop target i (t ∷ times) b = nearest_loop target (suc i) times (
    if closer (distance t target) b.best_diff
    then record { best_idx = i; best_diff = some (distance t target) }
    else b)

-- the loop of `gotoTime`, over the times of the rows; the same loop is in `handleChartTimeClick`
unfoldable pub nearest_index : ℕ → List ℕ → ℕ
unfolding nearest_loop
nearest_index target times =
    (nearest_loop target 0 times (record { best_idx = 0; best_diff = none })).best_idx

-- only for a list sorted by time that has rows
unfoldable pub goto_time : Bool → ℕ → List ℕ → Option ℕ
goto_time is_time_sort target [] = none
goto_time is_time_sort target (t ∷ times) =
    if is_time_sort then some (nearest_index target (t ∷ times)) else none
