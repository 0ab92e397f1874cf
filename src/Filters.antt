-- ===== src/Filters.antt =====
-- frontend/src/types/filters.ts: the active filters, entries that are switched off, the matching of
-- telegrams, and the counts beside the filter options. A `Record<string, number>` is an association
-- list.
pub mod Disabled
pub mod Counts
mod Tests
use spectrum_knx.Prelude.{
  ℕ, zero, suc, ◌+◌, Bool, true, false, not, ◌&&◌, ◌||◌, Option, none, some, List, [], ◌∷◌, ◌++◌,
  map, ltb, ◌==◌, if◌then◌else◌, length, filter, any, Text, codes, text_eq, includes, decimal,
  pad_start,
}
use spectrum_knx.Telegram.{or_empty}

pub data Relation : Type 0 where
  all_of : Relation
  one_of : Relation

pub record ActiveFilters : Type 0 where
  pub sources : List Text
  pub targets : List Text
  pub types : List Text
  pub directions : List Text
  pub dpts : List Text
  pub delta_before_ms : ℕ
  pub delta_after_ms : ℕ
  pub delta_context_enabled : Bool
  pub source_target_relation : Relation
  pub disabled : List Text

pub data FilterCategory : Type 0 where
  sources : FilterCategory
  targets : FilterCategory
  types : FilterCategory
  directions : FilterCategory
  dpts : FilterCategory

-- a category's name, and its list
abbrev pub category_name : FilterCategory → Text
category_name sources = codes "sources"
category_name targets = codes "targets"
category_name types = codes "types"
category_name directions = codes "directions"
category_name dpts = codes "dpts"

abbrev pub selection : ActiveFilters → FilterCategory → List Text
selection f sources = f.sources
selection f targets = f.targets
selection f types = f.types
selection f directions = f.directions
selection f dpts = f.dpts

unfoldable pub filter_key : FilterCategory → Text → Text
filter_key category value = category_name category ++ (b':' ∷ value)

pub is_filter_disabled : ActiveFilters → FilterCategory → Text → Bool
is_filter_disabled f category value = includes f.disabled (filter_key category value)

pub toggle_filter_disabled : ActiveFilters → FilterCategory → Text → ActiveFilters
toggle_filter_disabled f category value =
    let key = filter_key category value in
    record f {
      disabled =
          if includes f.disabled key
          then filter (λ k. not (text_eq k key)) f.disabled
          else f.disabled ++ key ∷ [];
    }

-- the keys of everything that is selected, category by category
abbrev keys_of : ActiveFilters → FilterCategory → List Text
keys_of f c = map (filter_key c) (selection f c)

pub selected_keys : ActiveFilters → List Text
selected_keys f =
    keys_of f sources
    ++ (keys_of f targets ++ (keys_of f types ++ (keys_of f directions ++ keys_of f dpts)))

unfoldable pub prune_disabled : ActiveFilters → ActiveFilters
prune_disabled f =
    let kept = filter (includes (selected_keys f)) f.disabled in
    if length f.disabled == 0
    then f
    else if length kept == length f.disabled
    then f
    else record f { disabled = kept }

-- the selected entries of a category that are not switched off
abbrev pub switched_on : ActiveFilters → FilterCategory → List Text
switched_on f c = filter (λ v. not (includes f.disabled (filter_key c v))) (selection f c)

pub enabled_filters : ActiveFilters → ActiveFilters
enabled_filters f =
    let on : ActiveFilters = record f {
      sources = switched_on f sources;
      targets = switched_on f targets;
      types = switched_on f types;
      directions = switched_on f directions;
      dpts = switched_on f dpts;
      disabled = [];
    } in
    if length f.disabled == 0 then f else on

pub count_selections : ActiveFilters → ℕ
count_selections f =
    length f.sources + length f.targets + length f.types + length f.directions + length f.dpts

abbrev pub default_filters : ActiveFilters
default_filters = record {
  sources = [];
  targets = [];
  types = [];
  directions = [];
  dpts = [];
  delta_before_ms = 0;
  delta_after_ms = 0;
  delta_context_enabled = true;
  source_target_relation = all_of;
  disabled = [];
}

-- (before, after)
pub effective_delta_context : ActiveFilters → ℕ × ℕ
effective_delta_context f =
    if f.delta_context_enabled then (f.delta_before_ms, f.delta_after_ms) else (0, 0)

pub record FilterableTelegram : Type 0 where
  pub source_address : Text
  pub target_address : Text
  pub simplified_type : Option Text
  pub direction : Option Text
  pub dpt_main : Option ℕ
  pub dpt_sub : Option ℕ

unfoldable pub dpt_key : ℕ → Option ℕ → Text
dpt_key main none = decimal main
dpt_key main (some sub) = decimal main ++ (b'.' ∷ pad_start (decimal sub) 3 b'0')

unfoldable pub matches_dpt : List Text → Option ℕ → Option ℕ → Bool
matches_dpt keys none sub = false
matches_dpt keys (some main) sub =
    any (λ k. text_eq k (decimal main) || text_eq k (dpt_key main sub)) keys

-- a category that has no selection lets everything pass
abbrev ok : List Text → Bool → Bool
ok chosen matched = length chosen == 0 || matched

unfoldable pub matches_telegram : FilterableTelegram → ActiveFilters → Bool
matches_telegram t f =
    ok f.sources (includes f.sources t.source_address)
    && (ok f.targets (includes f.targets t.target_address)
        && (ok f.types (includes f.types (or_empty t.simplified_type))
            && (ok f.directions (includes f.directions (or_empty t.direction))
                && ok f.dpts (matches_dpt f.dpts t.dpt_main t.dpt_sub))))

pub has_active_filters : ActiveFilters → Bool
has_active_filters f =
    ltb 0 (length f.sources)
    || (ltb 0 (length f.targets)
        || (ltb 0 (length f.types) || (ltb 0 (length f.directions) || ltb 0 (length f.dpts))))

pub without_selections : ActiveFilters → ActiveFilters
without_selections f = record f {
  sources = [];
  targets = [];
  types = [];
  directions = [];
  dpts = [];
  disabled = [];
}

pub record FilterCounts : Type 0 where
  pub sources : List (Text × ℕ)
  pub targets : List (Text × ℕ)
  pub types : List (Text × ℕ)
  pub directions : List (Text × ℕ)
  pub dpts : List (Text × ℕ)

-- `counts[key] ?? 0`, and `counts[key] = (counts[key] ?? 0) + 1`
unfoldable pub count_of : List (Text × ℕ) → Text → ℕ
count_of [] key = 0
count_of ((k, n) ∷ counts) key = if text_eq k key then n else count_of counts key

pub bump : Text → List (Text × ℕ) → List (Text × ℕ)
bump key [] = (key, 1) ∷ []
bump key ((k, n) ∷ counts) =
    let rest = bump key counts in if text_eq k key then (k, n + 1) ∷ counts else (k, n) ∷ rest

-- `if (text) counts[text]++`, for a text that may be missing or empty
bump_if : Option Text → List (Text × ℕ) → List (Text × ℕ)
unfolding bump
bump_if none counts = counts
bump_if (some []) counts = counts
bump_if (some (c ∷ s)) counts = bump (c ∷ s) counts

-- a subtype counts for its main type too
bump_dpt : Option ℕ → Option ℕ → List (Text × ℕ) → List (Text × ℕ)
unfolding bump
bump_dpt none sub counts = counts
bump_dpt (some main) none counts = bump (dpt_key main none) counts
bump_dpt (some main) (some sub) counts = bump (decimal main) (bump (dpt_key main (some sub)) counts)

count_one : FilterableTelegram → FilterCounts → FilterCounts
unfolding bump_if bump_dpt
count_one t c = record {
  sources = bump t.source_address c.sources;
  targets = bump t.target_address c.targets;
  types = bump_if t.simplified_type c.types;
  directions = bump_if t.direction c.directions;
  dpts = bump_dpt t.dpt_main t.dpt_sub c.dpts;
}

abbrev no_counts : FilterCounts
no_counts = record { sources = []; targets = []; types = []; directions = []; dpts = [] }

-- the loop over the telegrams, from the counts so far
count_loop : List FilterableTelegram → FilterCounts → FilterCounts
unfolding count_one
count_loop [] c = c
count_loop (t ∷ telegrams) c = count_loop telegrams (count_one t c)

pub count_filter_options : List FilterableTelegram → FilterCounts
unfolding count_loop
count_filter_options telegrams = count_loop telegrams no_counts
