-- ===== src/Table/Flags/Clicks.antt =====
-- What a click on a flag changes in frontend/src/components/TelegramTable.tsx.
use spectrum_knx.Prelude.{
  ◌≡◌, refl, ap, ◌∙◌, Bool, true, false, not, ◌&&◌, ◌||◌, List, [], ◌∷◌, ◌++◌, arith, if◌then◌else◌,
  filter, Text, text_eq, text_eq_iff, includes, includes-append, includes-without, Bool-cases, inl,
  inr,
}
use spectrum_knx.Charts.{distinct_texts}
use spectrum_knx.Table.Flags.{
  Flags, Listed, anchors_context, flag_targets, current_flags, handle_flag_click,
}

pub includes-distinct_texts :
    (l : List Text) (k : Text) → includes (distinct_texts l) k ≡ includes l k
unfolding distinct_texts includes
includes-distinct_texts [] k = refl
includes-distinct_texts (x ∷ l) k =
    ground (arith, includes-without (distinct_texts l) x k, includes-distinct_texts l k)

includes-filter :
    (p : Text → Bool) (l : List Text) (k : Text) → includes (filter p l) k ≡ (includes l k && p k)
unfolding includes
includes-filter p [] k = refl
includes-filter p (x ∷ l) k = elim (Bool-cases (text_eq x k)) [
  | inl e ↦
      let same : p x ≡ p k = ap p ((text_eq_iff x k).0 e) in
      ground (arith, includes-filter p l k, e, same)
  | inr e ↦ ground (arith, includes-filter p l k, e)
]

includes-added :
    (a b : List Text) (k : Text)
    → includes (distinct_texts (a ++ b)) k ≡ (includes a k || includes b k)
includes-added a b k = includes-distinct_texts (a ++ b) k ∙ includes-append a b k

-- for a row of the list, the flags that take over from "all" say the same
includes-current_flags :
    (l : Listed) (s : Flags) (k : Text)
    → includes l.rows k ≡ true
    → includes (current_flags l s) k ≡ anchors_context l.context_keys s k
unfolding current_flags anchors_context
includes-current_flags l s k listed = elim (Bool-cases s.context_for_all) [
  | inl e ↦
      let others = filter (λ k. not (includes l.context_keys k)) l.rows in
      let added = includes-added s.flagged others k in
      let kept = includes-filter (λ k. not (includes l.context_keys k)) l.rows k in
      rw e (added ∙ ground (arith, kept, listed))
  | inr e ↦ rw e (ground arith)
]

module _ (modified : Bool) (l : Listed) (key : Text) (s : Flags) (k : Text) where
  abbrev after_click : Bool
  after_click = anchors_context l.context_keys (handle_flag_click modified l key s) k

  switched_off :
      includes l.rows k ≡ true
      → anchors_context l.context_keys s key ≡ true
      → after_click
        ≡ (not (includes (flag_targets modified l key) k) && anchors_context l.context_keys s k)
  unfolding handle_flag_click
  switched_off listed e =
      let targets = flag_targets modified l key in
      let left = includes-filter (λ k. not (includes targets k)) (current_flags l s) k in
      rw e (unfold anchors_context in ground (arith, left, includes-current_flags l s k listed))

  switched_on :
      anchors_context l.context_keys s key ≡ false
      → after_click
        ≡ (includes (flag_targets modified l key) k || anchors_context l.context_keys s k)
  unfolding handle_flag_click anchors_context
  switched_on e =
      let added = includes-added s.flagged (flag_targets modified l key) k in
      rw e (ground (arith, added))

  -- A click on a row's flag switches the window of that row, and with Ctrl of every marked row, to what
  -- the clicked row had not. Every other row of the list keeps its window or stays without one, also
  -- where the click ends the state in which all rows have one.
  pub anchors_context-handle_flag_click :
      includes l.rows k ≡ true
      → anchors_context l.context_keys (handle_flag_click modified l key s) k ≡ (
          if includes (flag_targets modified l key) k
          then not (anchors_context l.context_keys s key)
          else anchors_context l.context_keys s k)
  anchors_context-handle_flag_click listed =
      elim (Bool-cases (anchors_context l.context_keys s key)) [
        | inl e ↦ rw e (switched_off listed e ∙ ground arith)
        | inr e ↦ rw e (switched_on e ∙ ground arith)
      ]
