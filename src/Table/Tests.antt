-- ===== src/Table/Tests.antt =====
-- The telegram list at concrete rows.
use spectrum_knx.Prelude.{
  ℕ, ◌≡◌, refl, true, false, not, none, some, List, [], ◌∷◌, if◌then◌else◌, Text, codes, includes,
  text_eq, decimal, pad_start,
}
use spectrum_knx.Telegram.Samples.{reading}
use spectrum_knx.Sorting.{asc}
use spectrum_knx.Table.Flags.{Flags, Listed, anchors_context, flag_targets, handle_flag_click}
use spectrum_knx.Table.Flags.Clicks.{anchors_context-handle_flag_click}
use spectrum_knx.Table.DeltaSort.{TelegramRow, DeltaSort, format_delta_ms}
use spectrum_knx.Table.Marks.{marked_indices}
use spectrum_knx.Table.Follow.{Follow}

abbrev all_but_c : Flags
all_but_c = record { flagged = []; context_for_all = true; delta_context_enabled = true }

abbrev three_rows : Listed
three_rows = record {
  marked = codes "a" ∷ [];
  rows = codes "a" ∷ codes "b" ∷ codes "c" ∷ [];
  context_keys = codes "c" ∷ [];
}

b_is_listed : includes three_rows.rows (codes "b") ≡ true
unfolding includes text_eq
b_is_listed = refl

anchors_context-handle_flag_click_example :
    anchors_context three_rows.context_keys
      (handle_flag_click true three_rows (codes "a") all_but_c)
      (codes "b")
    ≡ (if includes (flag_targets true three_rows (codes "a")) (codes "b")
        then not (anchors_context three_rows.context_keys all_but_c (codes "a"))
        else anchors_context three_rows.context_keys all_but_c (codes "b"))
anchors_context-handle_flag_click_example =
    anchors_context-handle_flag_click true three_rows (codes "a") all_but_c (codes "b") b_is_listed

one_minute : format_delta_ms 61005 ≡ codes "+ 01:01.005"
unfolding format_delta_ms decimal pad_start
one_minute = refl

abbrev row : ℕ → TelegramRow
row d = record { telegram = reading; delta_str = none; delta_ms = some d }

abbrev following : DeltaSort
following = record {
  active = false;
  direction = asc;
  frozen_rows = none;
  follow_before = none;
  list_follow = true;
}

abbrev two_rows : List TelegramRow
two_rows = row 3 ∷ row 7 ∷ []

abbrev keys : List Text
keys = codes "a" ∷ codes "b" ∷ codes "c" ∷ codes "d" ∷ []

abbrev two_marks : List Text
two_marks = codes "d" ∷ codes "b" ∷ []

marked_are : marked_indices keys two_marks ≡ 1 ∷ 3 ∷ []
unfolding marked_indices includes text_eq
marked_are = refl

abbrev scrolled : Follow
scrolled = record {
  at_edge = false;
  anchor = some (codes "b");
  new_since_anchor = 2;
  stripe_offset = 1;
  first_key = some (codes "a");
  last_key = some (codes "c");
  len = 3;
}

d_is_new : includes (codes "d" ∷ []) (codes "c") ≡ false
unfolding includes text_eq
d_is_new = refl

abbrev kept_b : List Text
kept_b = codes "b" ∷ []
