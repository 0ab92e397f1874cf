-- ===== src/DeltaContext.antt =====
-- frontend/src/utils/deltaContextExpansion.ts: the rows shown around each match. The type of the
-- rows, their times and their keys are arguments; a time window is not negative.
pub mod Shown
mod Tests
use spectrum_knx.Prelude.{
  ℕ, ◌+◌, Bool, true, false, not, ◌&&◌, ◌||◌, List, [], ◌∷◌, map, leb, ◌==◌, if◌then◌else◌, length,
  filter, any, Text, includes,
}

pub record DeltaExpansionResult {ℓ} (A : Type ℓ) : Type ℓ where
  pub items : List A
  pub context_keys : List Text

-- `matches[i]` beside each item; one that is missing is falsy
unfoldable pub pair_up {ℓ} : {A : Type ℓ} → List A → List Bool → List (A × Bool)
pair_up [] matches = []
pair_up (x ∷ items) [] = (x, false) ∷ pair_up items []
pair_up (x ∷ items) (m ∷ matches) = (x, m) ∷ pair_up items matches

abbrev pub items_of {ℓ} : {A : Type ℓ} → List (A × Bool) → List A
items_of rows = map (λ r. r.0) rows

module _ {ℓ} {A : Type ℓ} (time : A → ℕ) (key : A → Text) (flagged_keys : List Text)
    (before after : ℕ) (anchor_matches : Bool) where
  abbrev pub flagged : A × Bool → Bool
  flagged r = includes flagged_keys (key r.0)

  abbrev pub effective_match : A × Bool → Bool
  effective_match r = r.1 || flagged r

  abbrev pub is_anchor : A × Bool → Bool
  is_anchor r = flagged r || (anchor_matches && r.1)

  -- in the window around the anchor's time; `ts >= mts - before` without a negative number
  abbrev pub within : ℕ → ℕ → Bool
  within ts anchor = leb anchor (ts + before) && leb ts (anchor + after)

  abbrev in_window : List ℕ → A × Bool → Bool
  in_window anchors r = any (within (time r.0)) anchors

  -- the filter with its side effect on the set of context keys
  context_loop : List ℕ → List (A × Bool) → DeltaExpansionResult A
  context_loop anchors [] = record { items = []; context_keys = [] }
  context_loop anchors (r ∷ rows) =
      let rest = context_loop anchors rows in
      let kept : DeltaExpansionResult A = record rest { items = r.0 ∷ rest.items } in
      let context : DeltaExpansionResult A = record {
        items = r.0 ∷ rest.items;
        context_keys = key r.0 ∷ rest.context_keys;
      } in
      if effective_match r then kept else if in_window anchors r then context else rest

  matches_only : List (A × Bool) → DeltaExpansionResult A
  matches_only rows = record { items = items_of (filter effective_match rows); context_keys = [] }

  expand_rows : List (A × Bool) → DeltaExpansionResult A
  unfolding matches_only context_loop
  expand_rows rows =
      let anchors = map (λ r. time r.0) (filter is_anchor rows) in
      if before == 0 && after == 0
      then matches_only rows
      else if length anchors == 0
      then matches_only rows
      else context_loop anchors rows

  pub expand_with_delta_context : List A → List Bool → DeltaExpansionResult A
  unfolding expand_rows
  expand_with_delta_context items matches = expand_rows (pair_up items matches)
