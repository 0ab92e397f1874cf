-- ===== src/LastSeen/Late.antt =====
-- An answer that comes late, in frontend/src/components/LastSeenOverlay.tsx.
use mathlib.Core.List.{append-nil}
use spectrum_knx.Prelude.{ℕ, ◌≤◌, ◌≡◌, refl, none, List, [], ◌∷◌, ◌++◌, length, Text}
use spectrum_knx.Telegram.{Telegram}
use spectrum_knx.Urls.Workspace.{LastSeenMode}
use spectrum_knx.LastSeen.{Request, LastSeen, fetch_data, answered, after_change, goto_address}
use spectrum_knx.LastSeen.Bounds.{Steps, start, next, gone_to, answer}

module _ (get_time : Text → ℕ) (most : ℕ) where
  abbrev asks : LastSeen → LastSeenMode → Text → Request
  asks s mode a = record { mode = mode; addresses = a ∷ []; limit = s.limit }

  -- When the user goes to one address and on to another, and the first answer comes after the
  -- second one, the panel shows the telegrams of the first address under the second one, with no
  -- request left that would correct it.
  pub late_answer :
      (s : LastSeen) (mode : LastSeenMode) (a b : Text) (of_a of_b : List Telegram)
      → length of_a ≤ s.limit
      → length of_b ≤ s.limit
      → (u : LastSeen) × Steps get_time most s u
        × (u.selected_addresses ≡ b ∷ [])
        × (u.telegrams ≡ of_a)
        × (u.under_way ≡ s.under_way)
  unfolding goto_address after_change fetch_data answered
  late_answer s mode a b of_a of_b ha hb =
      let steps_b =
        next (next (next start (gone_to none a mode)) (gone_to none b mode))
          (answer (s.under_way ++ asks s mode a ∷ []) (asks s mode b) [] of_b refl hb) in
      (
        _,
        next steps_b (answer s.under_way (asks s mode a) [] of_a (append-nil _) ha),
        refl,
        refl,
        append-nil s.under_way,
      )
