-- ===== src/Urls/View.antt =====
-- frontend/src/utils/viewUrl.ts: a visualization's view in a shared address. `number` is the host's
-- `Number(text) || 0`, for texts that are natural numbers.
pub mod RoundTrip
use spectrum_knx.Prelude.{
  ℕ, zero, suc, ◌*◌, ◌/◌, ◌%◌, Bool, true, false, not, ◌&&◌, ◌||◌, Option, none, some, List, [],
  ◌∷◌, ◌++◌, ltb, leb, ◌==◌, if◌then◌else◌, length, filter, Text, codes, text_eq, includes, decimal,
  is_digits, get,
}
use spectrum_knx.Telegram.{or_empty}
use spectrum_knx.Filters.{ActiveFilters}
use spectrum_knx.Urls.{Params, set_all, list, list_param}
use spectrum_knx.Urls.Workspace.{
  flag, is_value, number_param, number_of, relation_of, directions, is_dpt,
}

pub data LoadedRange : Type 0 where
  relative : ℕ → LoadedRange
  absolute : Text → Text → LoadedRange

pub data Theme : Type 0 where
  dark : Theme
  light : Theme

pub record VizViewState : Type 0 where
  pub plot : List Text
  pub filters : ActiveFilters
  pub range : LoadedRange
  pub limit : Option ℕ
  pub embed : Bool
  pub refresh : Option ℕ
  pub theme : Option Theme

-- the largest unit that divides the seconds evenly
unfoldable pub format_rel : ℕ → Text
format_rel seconds =
    if seconds % 86400 == 0 && leb 86400 seconds
    then decimal (seconds / 86400) ++ codes "d"
    else if seconds % 3600 == 0 && leb 3600 seconds
    then decimal (seconds / 3600) ++ codes "h"
    else if seconds % 60 == 0 && leb 60 seconds
    then decimal (seconds / 60) ++ codes "m"
    else decimal seconds ++ codes "s"

unfoldable pub unit_seconds : ℕ → Option ℕ
unit_seconds c =
    if c == b's'
    then some 1
    else if c == b'm'
    then some 60
    else if c == b'h'
    then some 3600
    else if c == b'd'
    then some 86400
    else none

-- a text's last character, and what is before it
unfoldable pub before_last : Text → Option (Text × ℕ)
before_last [] = none
before_last (c ∷ []) = some ([], c)
before_last (c ∷ d ∷ s) = elim (before_last (d ∷ s)) [ none ↦ none | some (t, l) ↦ some (c ∷ t, l) ]

truthy : Option Text → Bool
truthy none = false
truthy (some s) = ltb 0 (length s)

positive : ℕ → Option ℕ
positive n = if ltb 0 n then some n else none

theme_of : Option Text → Option Theme
theme_of none = none
theme_of (some s) =
    if text_eq s (codes "dark")
    then some dark
    else if text_eq s (codes "light")
    then some light
    else none

limit_param : Option ℕ → Option Text
limit_param none = none
limit_param (some n) = number_param n

rel_param : LoadedRange → Option Text
rel_param (relative seconds) = some (format_rel seconds)
rel_param (absolute start end) = none

time_param : Text → Option Text
time_param [] = none
time_param (c ∷ s) = some (c ∷ s)

start_param : LoadedRange → Option Text
unfolding time_param
start_param (relative seconds) = none
start_param (absolute start end) = time_param start

end_param : LoadedRange → Option Text
unfolding time_param
end_param (relative seconds) = none
end_param (absolute start end) = time_param end

abbrev table_of :
    List Text → ActiveFilters → LoadedRange → Option ℕ → Bool → List (Text × Option Text)
table_of plot f range limit embed =
    (codes "view", some (codes "viz"))
    ∷ (codes "plot", list_param plot)
    ∷ (codes "src", list_param f.sources)
    ∷ (codes "tgt", list_param f.targets)
    ∷ (codes "type", list_param f.types)
    ∷ (codes "dir", list_param f.directions)
    ∷ (codes "dpt", list_param f.dpts)
    ∷ (codes "before", number_param f.delta_before_ms)
    ∷ (codes "after", number_param f.delta_after_ms)
    ∷ (codes "delta_off", flag (not f.delta_context_enabled) (codes "1"))
    ∷ (codes "rel", rel_param range)
    ∷ (codes "start", start_param range)
    ∷ (codes "end", end_param range)
    ∷ (codes "limit", limit_param limit)
    ∷ (codes "embed", flag embed (codes "1"))
    ∷ []

pub build_view_url : List Text → ActiveFilters → LoadedRange → Option ℕ → Bool → Params
build_view_url plot f range limit embed = set_all (table_of plot f range limit embed) []

module _ (number : Text → ℕ) where
  scaled : Text → Option ℕ → Option ℕ
  unfolding positive
  scaled digits none = none
  scaled digits (some unit) = positive (number digits * unit)

  rel_of_parts : Option (Text × ℕ) → Option ℕ
  unfolding scaled
  rel_of_parts none = none
  rel_of_parts (some (digits, unit)) =
      if is_digits digits then scaled digits (unit_seconds unit) else none

  -- `/^(\d+)([smhd])$/`, as seconds
  parse_rel : Text → Option ℕ
  unfolding rel_of_parts
  parse_rel s = rel_of_parts (before_last s)

  as_relative : Option ℕ → Option LoadedRange
  as_relative none = none
  as_relative (some seconds) = some (relative seconds)

  range_of : Option Text → Option Text → Option Text → Option LoadedRange
  unfolding as_relative parse_rel truthy
  range_of rel start end =
      if truthy rel
      then as_relative (parse_rel (or_empty rel))
      else if truthy start || truthy end
      then some (absolute (or_empty start) (or_empty end))
      else none

  with_range : (Text → Option Text) → Option LoadedRange → Option VizViewState
  unfolding theme_of positive
  with_range value none = none
  with_range value (some range) = some (record {
    plot = list (value (codes "plot"));
    filters = record {
      sources = list (value (codes "src"));
      targets = list (value (codes "tgt"));
      types = list (value (codes "type"));
      directions = filter (includes directions) (list (value (codes "dir")));
      dpts = filter is_dpt (list (value (codes "dpt")));
      delta_before_ms = number_of number (value (codes "before"));
      delta_after_ms = number_of number (value (codes "after"));
      delta_context_enabled = not (is_value (value (codes "delta_off")) (codes "1"));
      source_target_relation = relation_of (value (codes "rel_st"));
      disabled = [];
    };
    range = range;
    limit = positive (number_of number (value (codes "limit")));
    embed = is_value (value (codes "embed")) (codes "1");
    refresh = positive (number_of number (value (codes "refresh")));
    theme = theme_of (value (codes "theme"));
  })

  parse_with : (Text → Option Text) → Option VizViewState
  unfolding with_range range_of
  parse_with value =
      if is_value (value (codes "view")) (codes "viz")
      then with_range value
          (range_of (value (codes "rel")) (value (codes "start")) (value (codes "end")))
      else none

  pub parse_view_url : Params → Option VizViewState
  unfolding parse_with
  parse_view_url p = parse_with (get p)
