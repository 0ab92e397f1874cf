-- ===== src/Table/Flags.antt =====
-- The flags of the Time-Delta-Context in frontend/src/components/TelegramTable.tsx: which rows open a
-- window around themselves, and the clicks that change it. Rows are known by their keys.
pub mod Clicks
use spectrum_knx.Prelude.{
  Bool, true, false, not, ◌&&◌, ◌||◌, List, [], ◌∷◌, ◌++◌, if◌then◌else◌, any, filter, Text,
  includes,
}
use spectrum_knx.Charts.{distinct_texts}

pub record Flags : Type 0 where
  pub flagged : List Text
  pub context_for_all : Bool
  pub delta_context_enabled : Bool

-- What a click reads besides: the marked rows, the rows of the list, and those there as context.
pub record Listed : Type 0 where
  pub marked : List Text
  pub rows : List Text
  pub context_keys : List Text

unfoldable pub anchors_context : List Text → Flags → Text → Bool
anchors_context context s key =
    includes s.flagged key || (s.context_for_all && not (includes context key))

-- the rows that a click applies to: with Ctrl, every marked row too
unfoldable pub flag_targets : Bool → Listed → Text → List Text
flag_targets modified l key = if modified then distinct_texts (l.marked ++ key ∷ []) else key ∷ []

-- the rows that have a window now, as flags of their own
current_flags : Listed → Flags → List Text
current_flags l s =
    if s.context_for_all
    then distinct_texts (s.flagged ++ filter (λ k. not (includes l.context_keys k)) l.rows)
    else s.flagged

unfoldable pub handle_flag_click : Bool → Listed → Text → Flags → Flags
unfolding current_flags
handle_flag_click modified l key s =
    let targets = flag_targets modified l key in
    let switched_on = record s { flagged = distinct_texts (s.flagged ++ targets) } in
    let switched_off = record s {
      context_for_all = false;
      flagged = filter (λ k. not (includes targets k)) (current_flags l s);
    } in
    if anchors_context l.context_keys s key then switched_off else switched_on

pub data FlagState : Type 0 where
  nothing partial everything : FlagState

is_empty : List Text → Bool
is_empty [] = true
is_empty (k ∷ ks) = false

-- `deltaFlagState`
unfoldable pub delta_flag_state : List Text → Flags → FlagState
unfolding is_empty
delta_flag_state rows s =
    if s.context_for_all
    then everything
    else if is_empty s.flagged
    then nothing
    else if any (includes s.flagged) rows
    then partial
    else nothing

is_nothing : FlagState → Bool
is_nothing nothing = true
is_nothing _ = false

unfoldable pub handle_delta_toggle_click : Bool → List Text → Flags → Flags
unfolding is_nothing
handle_delta_toggle_click modified rows s =
    if modified
    then record s { delta_context_enabled = not s.delta_context_enabled }
    else record s { context_for_all = is_nothing (delta_flag_state rows s); flagged = [] }
