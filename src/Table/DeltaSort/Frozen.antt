-- ===== src/Table/DeltaSort/Frozen.antt =====
-- The mode that sorts by time differences in frontend/src/components/TelegramTable.tsx, from the click
-- that enters it to the one that leaves it.
use mathlib.Core.List.{Perm}
use mathlib.Core.List.Perm
use spectrum_knx.Prelude.{
  ℕ, ◌≡◌, refl, Bool, true, false, Option, none, some, List, [], ◌∷◌, arith, IsOrder, IsOrdered,
  sort-perm, sort-IsOrdered,
}
use spectrum_knx.Sorting.{Direction, asc, desc, toggled}
use spectrum_knx.Table.DeltaSort.{
  TelegramRow, delta_le, row_le, sort_by_delta, DeltaSort, handle_delta_header_click,
  exit_delta_sort, telegram_rows,
}

delta_le_total : (d : Direction) (x y : Option ℕ) → delta_le d x y ≡ false → delta_le d y x ≡ true
unfolding delta_le
delta_le_total asc none none h = cc
delta_le_total asc none (some b) h = refl
delta_le_total asc (some a) none h = cc
delta_le_total asc (some a) (some b) h = ground (arith, h)
delta_le_total desc none none h = cc
delta_le_total desc none (some b) h = refl
delta_le_total desc (some a) none h = cc
delta_le_total desc (some a) (some b) h = ground (arith, h)

delta_le_trans :
    (d : Direction) (x y z : Option ℕ)
    → delta_le d x y ≡ true
    → delta_le d y z ≡ true
    → delta_le d x z ≡ true
unfolding delta_le
delta_le_trans asc none none z h k = k
delta_le_trans asc none (some b) z h k = cc
delta_le_trans asc (some a) y none h k = refl
delta_le_trans asc (some a) none (some c) h k = cc
delta_le_trans asc (some a) (some b) (some c) h k = ground (arith, h, k)
delta_le_trans desc none none z h k = k
delta_le_trans desc none (some b) z h k = cc
delta_le_trans desc (some a) y none h k = refl
delta_le_trans desc (some a) none (some c) h k = cc
delta_le_trans desc (some a) (some b) (some c) h k = ground (arith, h, k)

row_le-IsOrder : (d : Direction) → IsOrder (row_le d)
row_le-IsOrder d = record {
  total = λ x y. delta_le_total d x.delta_ms y.delta_ms;
  trans = λ x y z. delta_le_trans d x.delta_ms y.delta_ms z.delta_ms;
}

-- clicks on the header; each one finds the rows that the list would show
abbrev pub clicks : List (List TelegramRow) → DeltaSort → DeltaSort
clicks [] s = s
clicks (natural ∷ more) s = clicks more (handle_delta_header_click natural s)

-- what holds in the mode: the rows that it was entered with, in order, and the follow state kept
record InMode (snapshot : List TelegramRow) (follow : Bool) (s : DeltaSort) : Type 0 where
  pub active : s.active ≡ true
  pub rows : List TelegramRow
  pub frozen : s.frozen_rows ≡ some rows
  pub same : Perm rows snapshot
  pub ordered : IsOrdered (row_le s.direction) rows
  pub kept : s.follow_before ≡ some follow

module _ (snapshot : List TelegramRow) (follow : Bool) where
  enter-InMode :
      (s : DeltaSort)
      → s.active ≡ false
      → s.list_follow ≡ follow
      → InMode snapshot follow (handle_delta_header_click snapshot s)
  unfolding handle_delta_header_click sort_by_delta
  enter-InMode s e f = rw e (record {
    active = refl;
    rows = sort_by_delta snapshot desc;
    frozen = refl;
    same = sort-perm (row_le desc) snapshot;
    ordered = sort-IsOrdered (row_le-IsOrder desc) snapshot;
    kept = rw f refl;
  })

  again-InMode :
      (natural : List TelegramRow) (s : DeltaSort)
      → InMode snapshot follow s
      → InMode snapshot follow (handle_delta_header_click natural s)
  unfolding handle_delta_header_click sort_by_delta
  again-InMode natural s m = rw (m.active) (record {
    active = refl;
    rows = sort_by_delta m.rows (toggled s.direction);
    frozen = rw (m.frozen) refl;
    same = Perm.trans (sort-perm (row_le (toggled s.direction)) m.rows) m.same;
    ordered = sort-IsOrdered (row_le-IsOrder (toggled s.direction)) m.rows;
    kept = m.kept;
  })

  clicks-InMode :
      (more : List (List TelegramRow)) (s : DeltaSort)
      → InMode snapshot follow s
      → InMode snapshot follow (clicks more s)
  clicks-InMode [] s m = m
  clicks-InMode (natural ∷ more) s m = clicks-InMode more _ (again-InMode natural s m)

  shown_lem :
      (natural : List TelegramRow) (t : DeltaSort)
      → InMode snapshot follow t
      → Perm (telegram_rows natural t) snapshot
        × IsOrdered (row_le t.direction) (telegram_rows natural t)
  unfolding telegram_rows
  shown_lem natural t m = rw (m.active, m.frozen) (m.same, m.ordered)

  left_lem :
      (natural : List TelegramRow) (t : DeltaSort)
      → InMode snapshot follow t
      → ((exit_delta_sort t).list_follow ≡ follow)
        × (telegram_rows natural (exit_delta_sort t) ≡ natural)
  unfolding telegram_rows exit_delta_sort
  left_lem natural t m = rw (m.active, m.kept) (refl, refl)

-- From the click that enters the mode on, whatever telegrams arrive and however often the header is
-- clicked, the list shows the rows of the first click, in the order of the differences that the last
-- click chose, those without a difference last. Leaving the mode shows the current rows again, and
-- follows live telegrams exactly if the list did before.
pub delta_sort_lem :
    (snapshot natural : List TelegramRow) (more : List (List TelegramRow)) (s : DeltaSort)
    → s.active ≡ false
    → (Perm (telegram_rows natural (clicks (snapshot ∷ more) s)) snapshot)
      × IsOrdered
          (row_le (clicks (snapshot ∷ more) s).direction)
          (telegram_rows natural (clicks (snapshot ∷ more) s))
      × ((exit_delta_sort (clicks (snapshot ∷ more) s)).list_follow ≡ s.list_follow)
      × (telegram_rows natural (exit_delta_sort (clicks (snapshot ∷ more) s)) ≡ natural)
delta_sort_lem snapshot natural more s e =
    let m =
      clicks-InMode snapshot s.list_follow more _ (enter-InMode snapshot s.list_follow s e refl) in
    let shown = shown_lem snapshot s.list_follow natural (clicks (snapshot ∷ more) s) m in
    let left = left_lem snapshot s.list_follow natural (clicks (snapshot ∷ more) s) m in
    (shown.0, shown.1, left.0, left.1)
