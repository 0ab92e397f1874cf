-- ===== src/QuickFilter/Patterns.antt =====
-- frontend/src/utils/addressPattern.ts: the patterns of addresses and datatypes in the quick filter.
-- `Number` of a text is an argument: none for NaN, and natural numbers only.
pub mod Addresses
use spectrum_knx.Prelude.{
  ℕ, zero, suc, ◌+◌, ◌*◌, min, max, Bool, true, false, not, ◌&&◌, ◌||◌, Option, none, some, List,
  [], ◌∷◌, ◌++◌, map, ltb, leb, ◌==◌, if◌then◌else◌, length, filter, any, all, Text, codes, text_eq,
  includes, get,
}
use spectrum_knx.Telegram.{Telegram, or_empty}
use spectrum_knx.Filters.{dpt_key}
use spectrum_knx.Urls.{split}

abbrev has_char : ℕ → Text → Bool
has_char c s = any (λ d. d == c) s

unfoldable pub delimiter_of : Text → ℕ
delimiter_of s = if has_char b'/' s then b'/' else b'.'

-- what `trim` takes away at either end
is_space : ℕ → Bool
is_space c =
    any (λ d. d == c)
      (9 ∷ 10 ∷ 11 ∷ 12 ∷ 13 ∷ 32 ∷ 160 ∷ 5760 ∷ 8232 ∷ 8233 ∷ 8239 ∷ 8287 ∷ 12288 ∷ 65279 ∷ [])
    || (leb 8192 c && leb c 8202)

trim_start : Text → Text
unfolding is_space
trim_start [] = []
trim_start (c ∷ s) = let rest = trim_start s in if is_space c then rest else c ∷ s

drop_blank : ℕ → Text → Text
unfolding is_space
drop_blank c [] = if is_space c then [] else c ∷ []
drop_blank c (d ∷ s) = c ∷ d ∷ s

trim_end : Text → Text
unfolding drop_blank
trim_end [] = []
trim_end (c ∷ s) = drop_blank c (trim_end s)

unfoldable pub trim_text : Text → Text
unfolding trim_start trim_end
trim_text s = trim_end (trim_start s)

-- the segments as the digits of one number
unfoldable pub comparable_from : ℕ → List ℕ → ℕ
comparable_from acc [] = acc
comparable_from acc (p ∷ parts) = comparable_from (acc * 65536 + p) parts

prepend_number : Option ℕ → Option (List ℕ) → Option (List ℕ)
prepend_number none parts = none
prepend_number (some n) none = none
prepend_number (some n) (some parts) = some (n ∷ parts)

as_comparable : Option (List ℕ) → Option ℕ
as_comparable none = none
as_comparable (some parts) = some (comparable_from 0 parts)

is_between : ℕ → ℕ → Option ℕ → Bool
is_between low high none = false
is_between low high (some v) = leb low v && leb v high

matches_segments : List Text → List Text → Bool
matches_segments [] [] = true
matches_segments (p ∷ pattern) (s ∷ segments) =
    (text_eq p (codes "*") || text_eq p s) && matches_segments pattern segments
matches_segments _ _ = false

wildcard_matcher : Text → Text → Bool
unfolding matches_segments
wildcard_matcher pattern value =
    matches_segments (split (delimiter_of pattern) pattern) (split (delimiter_of pattern) value)

module _ (number : Text → Option ℕ) where
  numbers : List Text → Option (List ℕ)
  unfolding prepend_number
  numbers [] = some []
  numbers (s ∷ parts) = prepend_number (number s) (numbers parts)

  to_comparable : Text → ℕ → Option ℕ
  unfolding numbers as_comparable
  to_comparable addr delim = as_comparable (numbers (split delim addr))

  between : ℕ → Option ℕ → Option ℕ → Option (Text → Bool)
  unfolding is_between
  between delim (some lo) (some hi) =
      some (λ value. is_between (min lo hi) (max lo hi) (to_comparable value delim))
  between delim _ _ = none

  unfoldable pub range_matcher : Text → Text → Option (Text → Bool)
  unfolding between to_comparable
  range_matcher lo_str hi_str =
      let delim = delimiter_of lo_str in
      if delimiter_of hi_str == delim
      then between delim (to_comparable lo_str delim) (to_comparable hi_str delim)
      else none

  no_range : Text → Text → Bool
  unfolding wildcard_matcher
  no_range token value =
      if has_char b'*' token then wildcard_matcher token value else text_eq value token

  or_no_range : Text → Option (Text → Bool) → Text → Bool
  unfolding no_range
  or_no_range token none value = no_range token value
  or_no_range token (some range) value = range value

  range_of_parts : List Text → Option (Text → Bool)
  range_of_parts (lo ∷ hi ∷ rest) =
      if ltb 0 (length (trim_text lo)) && ltb 0 (length (trim_text hi))
      then range_matcher (trim_text lo) (trim_text hi)
      else none
  range_of_parts _ = none

  unfoldable pub token_to_matcher : Text → Text → Bool
  unfolding or_no_range range_of_parts
  token_to_matcher token = or_no_range token (
      if has_char b'-' token && not (has_char b'*' token)
      then range_of_parts (split b'-' token)
      else none)

  unfoldable pub make_address_pattern_matcher : Text → Text → Bool
  make_address_pattern_matcher input value =
      let tokens = filter (λ t. ltb 0 (length t)) (map trim_text (split b',' input)) in
      if length tokens == 0 then true else any (λ t. token_to_matcher t value) tokens
