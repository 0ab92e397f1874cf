-- ===== src/Filters/Counts.antt =====
-- The counts beside the filter options of frontend/src/types/filters.ts.
use spectrum_knx.Prelude.{
  ℕ, ◌+◌, ◌<◌, ◌≡◌, refl, ◌∙◌, Bool, false, Option, none, some, List, [], ◌∷◌, ◌++◌, if◌then◌else◌,
  length, filter, Text, text_eq, text_eq_iff, text_eq_comm, includes, decimal, pad_start, arith,
}
use spectrum_knx.Telegram.{or_empty}
use spectrum_knx.Filters.{
  ActiveFilters, FilterCategory, sources, targets, types, directions, dpts, default_filters,
  FilterableTelegram, FilterCounts, dpt_key, matches_dpt, matches_telegram, count_of, bump, bump_if,
  bump_dpt, no_counts, count_one, count_loop, count_filter_options,
}

-- the filters with one selected entry
abbrev pub only : FilterCategory → Text → ActiveFilters
only sources k = record default_filters { sources = k ∷ [] }
only targets k = record default_filters { targets = k ∷ [] }
only types k = record default_filters { types = k ∷ [] }
only directions k = record default_filters { directions = k ∷ [] }
only dpts k = record default_filters { dpts = k ∷ [] }

-- the counts of a category
abbrev pub counts_of : FilterCounts → FilterCategory → List (Text × ℕ)
counts_of c sources = c.sources
counts_of c targets = c.targets
counts_of c types = c.types
counts_of c directions = c.directions
counts_of c dpts = c.dpts

abbrev plus_if : Bool → ℕ → ℕ
plus_if b n = if b then n + 1 else n

count_of-bump :
    (key k : Text) (l : List (Text × ℕ))
    → count_of (bump key l) k ≡ plus_if (text_eq key k) (count_of l k)
unfolding bump count_of
count_of-bump key k [] = ground arith
count_of-bump key k ((j, n) ∷ l) =
    ground (arith, count_of-bump key k l, text_eq_iff j key, text_eq_iff j k, text_eq_iff key k)

count_of-bump_if :
    (o : Option Text) (k : Text) (l : List (Text × ℕ))
    → 0 < length k
    → count_of (bump_if o l) k ≡ plus_if (text_eq k (or_empty o)) (count_of l k)
unfolding bump_if text_eq
count_of-bump_if none (a ∷ k) l h = refl
count_of-bump_if (some []) (a ∷ k) l h = refl
count_of-bump_if (some (c ∷ s)) (a ∷ k) l h =
    count_of-bump (c ∷ s) (a ∷ k) l ∙ rw (text_eq_comm (c ∷ s) (a ∷ k))
count_of-bump_if o [] l h = absurd (omega arith)

-- a subtype's key is longer than its main type's
longer_apart : (s : Text) (x : ℕ) (t : Text) → text_eq s (s ++ (x ∷ t)) ≡ false
unfolding text_eq
longer_apart [] x t = refl
longer_apart (a ∷ s) x t = ground (arith, longer_apart s x t)

count_of-bump_dpt :
    (main sub : Option ℕ) (k : Text) (l : List (Text × ℕ))
    → count_of (bump_dpt main sub l) k ≡ plus_if (matches_dpt (k ∷ []) main sub) (count_of l k)
unfolding bump_dpt matches_dpt
count_of-bump_dpt none sub k l = refl
count_of-bump_dpt (some main) none k l =
    count_of-bump (dpt_key main none) k l
    ∙ unfold dpt_key in ground (arith, text_eq_comm (decimal main) k)
count_of-bump_dpt (some main) (some sub) k l =
    let long = dpt_key main (some sub) in
    let apart : text_eq (decimal main) long ≡ false =
      unfold dpt_key in longer_apart (decimal main) b'.' (pad_start (decimal sub) 3 b'0') in
    count_of-bump (decimal main) k (bump long l)
    ∙ rw (count_of-bump long k l) (
        ground (
          arith,
          apart,
          text_eq_iff (decimal main) k,
          text_eq_iff long k,
          text_eq_iff (decimal main) long,
          text_eq_comm (decimal main) k,
          text_eq_comm long k,
        ))

count_one_lem :
    (t : FilterableTelegram) (c : FilterCounts) (cat : FilterCategory) (k : Text)
    → 0 < length k
    → count_of (counts_of (count_one t c) cat) k
      ≡ plus_if (matches_telegram t (only cat k)) (count_of (counts_of c cat) k)
unfolding count_one matches_telegram includes
count_one_lem t c sources k h =
    count_of-bump t.source_address k c.sources ∙ ground (arith, text_eq_comm k t.source_address)
count_one_lem t c targets k h =
    count_of-bump t.target_address k c.targets ∙ ground (arith, text_eq_comm k t.target_address)
count_one_lem t c types k h = count_of-bump_if t.simplified_type k c.types h ∙ ground arith
count_one_lem t c directions k h = count_of-bump_if t.direction k c.directions h ∙ ground arith
count_one_lem t c dpts k h = count_of-bump_dpt t.dpt_main t.dpt_sub k c.dpts ∙ ground arith

count_loop_lem :
    (ts : List FilterableTelegram) (c : FilterCounts) (cat : FilterCategory) (k : Text)
    → 0 < length k
    → count_of (counts_of (count_loop ts c) cat) k
      ≡ count_of (counts_of c cat) k + length (filter (λ t. matches_telegram t (only cat k)) ts)
unfolding count_loop
count_loop_lem [] c cat k h = omega arith
count_loop_lem (t ∷ ts) c cat k h =
    ground (arith, count_loop_lem ts (count_one t c) cat k h, count_one_lem t c cat k h)

-- The count beside a filter option that is no empty text is the number of telegrams that pass
-- when it is the only one selected; a main type counts its subtypes too.
pub counts_match :
    (ts : List FilterableTelegram) (cat : FilterCategory) (k : Text)
    → 0 < length k
    → count_of (counts_of (count_filter_options ts) cat) k
      ≡ length (filter (λ t. matches_telegram t (only cat k)) ts)
unfolding count_filter_options count_of
counts_match ts sources k h = omega (arith, count_loop_lem ts no_counts sources k h)
counts_match ts targets k h = omega (arith, count_loop_lem ts no_counts targets k h)
counts_match ts types k h = omega (arith, count_loop_lem ts no_counts types k h)
counts_match ts directions k h = omega (arith, count_loop_lem ts no_counts directions k h)
counts_match ts dpts k h = omega (arith, count_loop_lem ts no_counts dpts k h)
