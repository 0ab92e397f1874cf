-- ===== src/QuickFilter.antt =====
-- The quick filter of the telegram list: frontend/src/utils/quickFilter.ts. The host's functions are
-- arguments: `Number` of a text (none for NaN; natural numbers only), the time of a date text, lower
-- case, and the regular expressions of the text and value cells (frontend/src/utils/valuePattern.ts).
pub mod Patterns
mod Tests
use spectrum_knx.Prelude.{
  ℕ, zero, suc, ◌+◌, ◌*◌, min, max, Bool, true, false, not, ◌&&◌, ◌||◌, Option, none, some, List,
  [], ◌∷◌, ◌++◌, map, ltb, leb, ◌==◌, if◌then◌else◌, length, filter, any, all, Text, codes, text_eq,
  includes, get,
}
use spectrum_knx.Telegram.{Telegram, or_empty}
use spectrum_knx.Filters.{dpt_key}
use spectrum_knx.Urls.{split}
use spectrum_knx.QuickFilter.Patterns.{trim_text, make_address_pattern_matcher}

pub record QuickCellValue : Type 0 where
  pub top : Text
  pub bottom : Text

abbrev pub QuickPatterns : Type 0
QuickPatterns = List (Text × QuickCellValue)

abbrev empty_cell : QuickCellValue
empty_cell = record { top = []; bottom = [] }

or_empty_cell : Option QuickCellValue → QuickCellValue
or_empty_cell none = empty_cell
or_empty_cell (some cell) = cell

at_or_after : Option ℕ → ℕ → Bool
at_or_after none ts = true
at_or_after (some from) ts = leb from ts

at_or_before : Option ℕ → ℕ → Bool
at_or_before none ts = true
at_or_before (some to) ts = leb ts to

-- a cell's row that is empty restricts nothing
abbrev when : Text → Bool → Bool
when row check = length row == 0 || check

module _ (number : Text → Option ℕ) (get_time : Text → Option ℕ) (time_of : Telegram → ℕ)
    (lower : Text → Text) (text_matcher : Text → Text → Bool)
    (value_matcher : Text → Text → Telegram → Bool) where
  bound : Text → Option ℕ
  bound row = if ltb 0 (length row) then get_time row else none

  time_cell : QuickCellValue → Telegram → Bool
  unfolding bound at_or_after at_or_before
  time_cell cell t =
      at_or_after (bound cell.top) (time_of t) && at_or_before (bound cell.bottom) (time_of t)

  named_cell : QuickCellValue → Text → Option Text → Bool
  named_cell cell address name =
      when cell.top (make_address_pattern_matcher number cell.top address)
      && when cell.bottom (text_matcher cell.bottom (or_empty name))

  type_of : Telegram → Text
  type_of t =
      if ltb 0 (length (or_empty t.simplified_type))
      then or_empty t.simplified_type
      else t.telegram_type

  type_cell : QuickCellValue → Telegram → Bool
  unfolding type_of
  type_cell cell t =
      let values =
        filter (λ v. ltb 0 (length v)) (map (λ v. lower (trim_text v)) (split b',' cell.top)) in
      length values == 0
      || any (λ v. text_eq v (lower (type_of t)) || text_eq v (lower (or_empty t.direction))) values

  matches_dpt_pattern : Text → Option ℕ → Option ℕ → Bool
  matches_dpt_pattern row none sub = false
  matches_dpt_pattern row (some main) sub =
      make_address_pattern_matcher number row (dpt_key main sub)

  dpt_cell : QuickCellValue → Telegram → Bool
  unfolding matches_dpt_pattern
  dpt_cell cell t =
      when cell.top (matches_dpt_pattern cell.top t.dpt_main t.dpt_sub)
      && when cell.bottom (text_matcher cell.bottom (or_empty t.dpt_name))

  value_cell : QuickCellValue → Telegram → Bool
  value_cell cell t = when (cell.top ++ cell.bottom) (value_matcher cell.top cell.bottom t)

  -- the checks of all cells that are filled in
  pub compile_quick_filters : QuickPatterns → Telegram → Bool
  unfolding or_empty_cell time_cell named_cell type_cell dpt_cell value_cell
  compile_quick_filters patterns t =
      let cell : Text → QuickCellValue = λ id. or_empty_cell (get patterns id) in
      time_cell (cell (codes "time")) t
      && (named_cell (cell (codes "source")) t.source_address t.source_name
          && (named_cell (cell (codes "target")) t.target_address t.target_name
              && (type_cell (cell (codes "type")) t
                  && (dpt_cell (cell (codes "dpt")) t && value_cell (cell (codes "value")) t))))

  -- a pattern that filters; the cells of the time context do not
  has_pattern : QuickPatterns → Bool
  has_pattern patterns =
      any (λ p. not (text_eq p.0 (codes "delta")) && ltb 0 (length (p.1.top ++ p.1.bottom)))
        patterns

  pub active_quick_filter : Bool → Bool → QuickPatterns → Option (Telegram → Bool)
  unfolding has_pattern
  active_quick_filter open_now enabled patterns =
      if not open_now || not enabled
      then none
      else if has_pattern patterns
      then some (compile_quick_filters patterns)
      else none
