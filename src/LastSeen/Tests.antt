-- ===== src/LastSeen/Tests.antt =====
-- The panel of the last telegrams at concrete telegrams.
use spectrum_knx.Prelude.{◌≡◌, refl, false, some, List, [], ◌∷◌, codes, text_eq, read_number, arith}
use spectrum_knx.Telegram.{Telegram}
use spectrum_knx.Telegram.Samples.{reading}
use spectrum_knx.Sorting.{before, compare_numbers}
use spectrum_knx.Urls.{split}
use spectrum_knx.Urls.Workspace.{ga}
use spectrum_knx.LastSeen.{
  LastSeen, is_same, shown_with, arrive, compare_parts, compare_knx_address,
}
use spectrum_knx.LastSeen.Bounds.{Steps, start, next, telegram, IsBounded, steps-IsBounded}
use spectrum_knx.LastSeen.Late.{late_answer}

abbrev panel : LastSeen
panel = record {
  mode = ga;
  selected_addresses = codes "1/2/3" ∷ [];
  limit = 20;
  search = [];
  telegrams = [];
  is_loading = false;
  pending_count = 0;
  auto_refresh = false;
  was_live = false;
  under_way = [];
}

by_number : compare_knx_address read_number (codes "1/1/2") (codes "1/1/10") ≡ before
unfolding compare_knx_address compare_parts compare_numbers split read_number
by_number = refl

-- two telegrams to one address within a second: the second one is not shown
abbrev shown_twice : List Telegram
shown_twice =
    shown_with (λ s. 0) 20 (record reading { value_formatted = some (codes "on") })
      (shown_with (λ s. 0) 20 reading [])

second_is_lost : shown_twice ≡ reading ∷ []
unfolding shown_with is_same text_eq spectrum_knx.Table.Marks.distance
second_is_lost = refl

panel-IsBounded : IsBounded read_number 20 panel
panel-IsBounded = record { limit = omega arith; requests = tt; telegrams = omega arith }

steps-IsBounded_example : IsBounded read_number 20 (arrive read_number reading panel)
steps-IsBounded_example =
    steps-IsBounded read_number 20 panel-IsBounded (next start (telegram reading))

late_answer_example :
    (u : LastSeen) × Steps read_number 20 panel u
    × (u.selected_addresses ≡ codes "1/2/4" ∷ [])
    × (u.telegrams ≡ reading ∷ [])
    × (u.under_way ≡ [])
late_answer_example =
    late_answer read_number 20 panel ga (codes "1/2/3") (codes "1/2/4") (reading ∷ []) []
      (omega arith) (omega arith)
