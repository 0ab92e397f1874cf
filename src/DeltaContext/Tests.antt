-- ===== src/DeltaContext/Tests.antt =====
-- A run of the expansion, and its theorem there.
use spectrum_knx.Prelude.{
  ℕ, ◌≡◌, refl, Bool, true, false, List, [], ◌∷◌, Text, codes, includes, text_eq,
}
use spectrum_knx.Telegram.{TelegramEntry}
use spectrum_knx.Telegram.Samples.{entry_a, entry_b, entry_c}
use spectrum_knx.DeltaContext.{
  DeltaExpansionResult, pair_up, context_loop, expand_rows, expand_with_delta_context,
}
use spectrum_knx.DeltaContext.Shown.{in_context, described, expand_lem}

abbrev time_of : TelegramEntry → ℕ
time_of e = e.ts

abbrev key_of : TelegramEntry → Text
key_of e = e.id

-- the first telegram is flagged, the last one passes the filter, and only flagged ones open windows
abbrev three : List TelegramEntry
three = entry_a ∷ entry_b ∷ entry_c ∷ []

abbrev last_matches : List Bool
last_matches = false ∷ false ∷ true ∷ []

abbrev expanded : DeltaExpansionResult TelegramEntry
expanded = expand_with_delta_context time_of key_of (codes "a" ∷ []) 0 10 false three last_matches

shows_after : expanded ≡ record { items = three; context_keys = codes "b" ∷ [] }
unfolding expand_with_delta_context expand_rows context_loop pair_up includes text_eq
shows_after = refl

expand_lem_example :
    expanded
    ≡ described time_of key_of
        (codes "a" ∷ [])
        0
        10
        false
        (in_context time_of key_of (codes "a" ∷ []) 0 10 false (pair_up three last_matches))
        (pair_up three last_matches)
expand_lem_example = expand_lem time_of key_of (codes "a" ∷ []) 0 10 false three last_matches
