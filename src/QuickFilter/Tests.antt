-- ===== src/QuickFilter/Tests.antt =====
-- Address patterns at concrete addresses.
use spectrum_knx.Prelude.{◌≡◌, refl, true, some, codes, text_eq, read_number}
use spectrum_knx.Urls.{split}
use spectrum_knx.QuickFilter.Patterns.{
  comparable_from, make_address_pattern_matcher, token_to_matcher, range_matcher, delimiter_of,
  trim_text,
}

in_range :
    make_address_pattern_matcher
      (λ s. some (read_number s))
      (codes "3/1/1-3/1/127, 1.*.2")
      (codes "3/1/20")
    ≡ true
unfolding make_address_pattern_matcher token_to_matcher range_matcher delimiter_of trim_text split
    read_number comparable_from
in_range = refl

by_wildcard :
    make_address_pattern_matcher
      (λ s. some (read_number s))
      (codes "3/1/1-3/1/127, 1.*.2")
      (codes "1.7.2")
    ≡ true
unfolding make_address_pattern_matcher token_to_matcher range_matcher delimiter_of trim_text split
    read_number comparable_from text_eq
by_wildcard = refl
