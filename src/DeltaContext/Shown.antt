-- ===== src/DeltaContext/Shown.antt =====
-- Which rows frontend/src/utils/deltaContextExpansion.ts shows, and which of them it marks.
use spectrum_knx.Prelude.{
  ℕ, ◌+◌, ◌≡◌, refl, sym, ◌∙◌, Bool, true, false, not, ◌&&◌, ◌||◌, List, [], ◌∷◌, map, ◌==◌, length,
  filter, any, leb, includes, Text, arith, filter_cong, filter_none, All-of, Bool-cases, inl, inr,
}
use spectrum_knx.DeltaContext.{
  DeltaExpansionResult, pair_up, items_of, effective_match, is_anchor, within, in_window,
  context_loop, matches_only, expand_rows, expand_with_delta_context,
}

module _ {ℓ} {A : Type ℓ} (time : A → ℕ) (key : A → Text) (flagged_keys : List Text)
    (before after : ℕ) (anchor_matches : Bool) where
  abbrev matched : A × Bool → Bool
  matched = effective_match time key flagged_keys before after anchor_matches

  abbrev anchored : A × Bool → Bool
  anchored = is_anchor time key flagged_keys before after anchor_matches

  abbrev near : A × Bool → A × Bool → Bool
  near r a = within time key flagged_keys before after anchor_matches (time r.0) (time a.0)

  -- a row that is shown for its own sake: it passes the filter, or is flagged
  abbrev pub own : A × Bool → Bool
  own r = r.1 || includes flagged_keys (key r.0)

  -- a row that opens a window: a flagged one, and one that passes the filter if these do so
  abbrev pub opens : A × Bool → Bool
  opens r = includes flagged_keys (key r.0) || (anchor_matches && r.1)

  -- not earlier than `before` milliseconds before the other, and not later than `after` after it
  abbrev pub around : ℕ → ℕ → Bool
  around ts anchor = leb anchor (ts + before) && leb ts (anchor + after)

  -- a window is open, and the row lies in that of some row that opens one
  abbrev pub in_context : List (A × Bool) → A × Bool → Bool
  in_context rows r =
      not (before == 0 && after == 0) && any (λ a. opens a && around (time r.0) (time a.0)) rows

  -- the rows with one of the reasons, and the keys of those that have the second one only
  abbrev pub described : (A × Bool → Bool) → List (A × Bool) → DeltaExpansionResult A
  described context rows = record {
    items = items_of (filter (λ r. own r || context r) rows);
    context_keys = map (λ r. key r.0) (filter (λ r. not (own r) && context r) rows);
  }

  context_loop_lem :
      (anchors : List ℕ) (rows : List (A × Bool))
      → context_loop time key flagged_keys before after anchor_matches anchors rows
        ≡ described (in_window time key flagged_keys before after anchor_matches anchors) rows
  unfolding context_loop
  context_loop_lem anchors [] = refl
  context_loop_lem anchors (r ∷ rows) = elim (Bool-cases (matched r)) [
    | inl h ↦ rw (h, context_loop_lem anchors rows)
    | inr h ↦
        elim (Bool-cases (in_window time key flagged_keys before after anchor_matches anchors r)) [
          | inl k ↦ rw (h, k, context_loop_lem anchors rows)
          | inr k ↦ rw (h, k, context_loop_lem anchors rows)
        ]
  ]

  no_context :
      (rows : List (A × Bool))
      → described (λ r. false) rows
        ≡ matches_only time key flagged_keys before after anchor_matches rows
  unfolding matches_only
  no_context rows = rw (
    filter_cong (λ r. matched r || false) matched rows (All-of _ rows (λ r. ground arith)),
    filter_none (λ r. not (matched r) && false) rows (All-of _ rows (λ r. ground arith)),
  )

  any_anchor :
      (r : A × Bool) (rows : List (A × Bool))
      → in_window time key flagged_keys before after anchor_matches
          (map (λ a. time a.0) (filter anchored rows))
          r
        ≡ any (λ a. anchored a && near r a) rows
  any_anchor r [] = refl
  any_anchor r (a ∷ rows) = elim (Bool-cases (anchored a)) [
    | inl h ↦ rw (h, any_anchor r rows)
    | inr h ↦ rw (h, any_anchor r rows)
  ]

  described_cong :
      (p q : A × Bool → Bool) (rows : List (A × Bool))
      → ((r : A × Bool) → p r ≡ q r)
      → described p rows ≡ described q rows
  described_cong p q rows e = rw (
    filter_cong (λ r. matched r || p r) (λ r. matched r || q r) rows
        (All-of _ rows (λ r. rw (e r))),
    filter_cong (λ r. not (matched r) && p r) (λ r. not (matched r) && q r) rows
        (All-of _ rows (λ r. rw (e r))),
  )

  no_anchors :
      (rows : List (A × Bool)) (r : A × Bool)
      → length (map (λ a. time a.0) (filter anchored rows)) ≡ 0
      → any (λ a. anchored a && near r a) rows ≡ false
  no_anchors [] r h = refl
  no_anchors (a ∷ rows) r h = elim (Bool-cases (anchored a)) [
    | inl k ↦ absurd (some_anchor k h)
    | inr k ↦ rw (k, no_anchors rows r (others k h))
  ]
    where
      some_anchor :
          anchored a ≡ true → length (map (λ a. time a.0) (filter anchored (a ∷ rows))) ≡ 0 → ⊥
      some_anchor k h = absurd (ground (arith, k, h))

      others :
          anchored a ≡ false
          → length (map (λ a. time a.0) (filter anchored (a ∷ rows))) ≡ 0
          → length (map (λ a. time a.0) (filter anchored rows)) ≡ 0
      others k h = ground (arith, k, h)

  expand_rows_lem :
      (rows : List (A × Bool))
      → expand_rows time key flagged_keys before after anchor_matches rows
        ≡ described (in_context rows) rows
  unfolding expand_rows
  expand_rows_lem rows = elim (Bool-cases (before == 0 && after == 0)) [
    | inl h ↦ rw h (sym (no_context rows) ∙ described_cong _ _ rows (λ r. refl))
    | inr h ↦ elim (Bool-cases (length (map (λ a. time a.0) (filter anchored rows)) == 0)) [
      | inl k ↦
          rw (h, k)
            (sym (no_context rows)
              ∙ described_cong _ _ rows (λ r. sym (no_anchors rows r (ground (arith, k)))))
      | inr k ↦
          rw (h, k) (context_loop_lem _ rows ∙ described_cong _ _ rows (λ r. any_anchor r rows))
    ]
  ]

  -- The rows shown are, in their order, those that pass the filter, the flagged ones, and, if a window
  -- is open, those from `before` milliseconds before to `after` milliseconds after a row that is
  -- flagged, or that passes the filter while such rows open windows. Marked as context are those
  -- shown that neither pass the filter nor are flagged.
  pub expand_lem :
      (items : List A) (matches : List Bool)
      → expand_with_delta_context time key flagged_keys before after anchor_matches items matches
        ≡ described (in_context (pair_up items matches)) (pair_up items matches)
  unfolding expand_with_delta_context
  expand_lem items matches = expand_rows_lem (pair_up items matches)
