-- ===== src/Sorting/Columns.antt =====
-- What it means that telegrams are in the order of sort levels, column by column, beside the
-- comparators of frontend/src/utils/sortConfig.ts.
use spectrum_knx.Prelude.{
  ℕ, ◌≡◌, refl, ap, sym, ◌∙◌, Bool, true, false, not, ◌&&◌, ◌||◌, Option, none, some, List, [], ◌∷◌,
  ◌++◌, ltb, leb, ◌==◌, any, arith, Text, Bool-cases, inl, inr,
}
use spectrum_knx.Telegram.{ℤ, pos, negsuc, Telegram}
use spectrum_knx.Sorting.{
  SortKey, timestamp, source_address, target_address, simplified_type, dpt_name, value_numeric,
  same_key, newest_first, Direction, asc, desc, SortLevel, Sign, before, same, after, flip, or_then,
  compare_numbers, compare_texts, compare_integers, compare_nullable, compare_values, directed,
  compare_levels, is_not_after,
}
use spectrum_knx.Sorting.Comparator.{flip-flip}
use spectrum_knx.Sorting.Levels.{values-IsComparator}

-- the order of the dictionary
text_le : Text → Text → Bool
text_le [] t = true
text_le (a ∷ s) [] = false
text_le (a ∷ s) (b ∷ t) = ltb a b || (a == b && text_le s t)

integer_le : ℤ → ℤ → Bool
integer_le (pos a) (pos b) = leb a b
integer_le (pos a) (negsuc b) = false
integer_le (negsuc a) (pos b) = true
integer_le (negsuc a) (negsuc b) = leb b a

-- a missing value is the greatest
or_missing : {A : Type 0} → (A → A → Bool) → Option A → Option A → Bool
or_missing le x none = true
or_missing le none (some y) = false
or_missing le (some x) (some y) = le x y

module _ (get_time : Text → ℕ) where
  -- a column's values of two telegrams, in ascending order or equal
  unfoldable pub column_le : SortKey → Telegram → Telegram → Bool
  unfolding text_le integer_le or_missing
  column_le timestamp a b = leb (get_time a.timestamp) (get_time b.timestamp)
  column_le source_address a b = text_le a.source_address b.source_address
  column_le target_address a b = text_le a.target_address b.target_address
  column_le simplified_type a b = or_missing text_le a.simplified_type b.simplified_type
  column_le dpt_name a b = or_missing text_le a.dpt_name b.dpt_name
  column_le value_numeric a b = or_missing integer_le a.value_numeric b.value_numeric

  unfoldable pub level_le : SortLevel → Telegram → Telegram → Bool
  level_le l a b = elim l.direction [ asc ↦ column_le l.key a b | desc ↦ column_le l.key b a ]

  -- the first level, and the others among what it leaves equal
  unfoldable pub in_levels : List SortLevel → Telegram → Telegram → Bool
  in_levels [] a b = true
  in_levels (l ∷ levels) a b = level_le l a b && (not (level_le l b a) || in_levels levels a b)

compare_numbers_lem : (a b : ℕ) → is_not_after (compare_numbers a b) ≡ leb a b
unfolding compare_numbers
compare_numbers_lem a b = ground arith

compare_texts_lem : (s t : Text) → is_not_after (compare_texts s t) ≡ text_le s t
unfolding compare_texts text_le
compare_texts_lem [] [] = refl
compare_texts_lem [] (b ∷ t) = refl
compare_texts_lem (a ∷ s) [] = refl
compare_texts_lem (a ∷ s) (b ∷ t) = unfold compare_numbers in ground (arith, compare_texts_lem s t)

compare_integers_lem : (x y : ℤ) → is_not_after (compare_integers x y) ≡ integer_le x y
unfolding compare_integers integer_le
compare_integers_lem (pos a) (pos b) = compare_numbers_lem a b
compare_integers_lem (pos a) (negsuc b) = refl
compare_integers_lem (negsuc a) (pos b) = refl
compare_integers_lem (negsuc a) (negsuc b) = compare_numbers_lem b a

compare_nullable_lem :
    {A : Type 0} (c : A → A → Sign) (le : A → A → Bool) (x y : Option A)
    → ((a b : A) → is_not_after (c a b) ≡ le a b)
    → is_not_after (compare_nullable c x y) ≡ or_missing le x y
unfolding compare_nullable or_missing
compare_nullable_lem c le none none h = refl
compare_nullable_lem c le none (some b) h = refl
compare_nullable_lem c le (some a) none h = refl
compare_nullable_lem c le (some a) (some b) h = h a b

is_not_after-or_then :
    (s t : Sign)
    → is_not_after (or_then s t)
      ≡ (is_not_after s && (not (is_not_after (flip s)) || is_not_after t))
is_not_after-or_then before t = refl
is_not_after-or_then same t = refl
is_not_after-or_then after t = refl

module _ (get_time : Text → ℕ) where
  compare_values_lem :
      (key : SortKey) (a b : Telegram)
      → is_not_after (compare_values get_time key a b) ≡ column_le get_time key a b
  unfolding compare_values column_le
  compare_values_lem timestamp a b =
      compare_numbers_lem (get_time a.timestamp) (get_time b.timestamp)
  compare_values_lem source_address a b = compare_texts_lem a.source_address b.source_address
  compare_values_lem target_address a b = compare_texts_lem a.target_address b.target_address
  compare_values_lem simplified_type a b =
      compare_nullable_lem compare_texts text_le a.simplified_type b.simplified_type
        compare_texts_lem
  compare_values_lem dpt_name a b =
      compare_nullable_lem compare_texts text_le a.dpt_name b.dpt_name compare_texts_lem
  compare_values_lem value_numeric a b =
      compare_nullable_lem compare_integers integer_le a.value_numeric b.value_numeric
        compare_integers_lem

  swapped :
      (key : SortKey) (a b : Telegram)
      → is_not_after (flip (compare_values get_time key a b)) ≡ column_le get_time key b a
  swapped key a b =
      ap is_not_after (sym ((values-IsComparator get_time key).swap a b))
      ∙ compare_values_lem key b a

  directed_lem :
      (d : Direction) (key : SortKey) (a b : Telegram)
      → (let s = directed get_time d (compare_values get_time key a b) in
          let l : SortLevel = record { key = key; direction = d } in
          (is_not_after s ≡ level_le get_time l a b)
          × (is_not_after (flip s) ≡ level_le get_time l b a))
  unfolding level_le
  directed_lem asc key a b = (compare_values_lem key a b, swapped key a b)
  directed_lem desc key a b =
      (swapped key a b, ap is_not_after (flip-flip _) ∙ compare_values_lem key a b)

  pub compare_levels_lem :
      (levels : List SortLevel) (a b : Telegram)
      → is_not_after (compare_levels get_time levels a b) ≡ in_levels get_time levels a b
  unfolding compare_levels in_levels
  compare_levels_lem [] a b = refl
  compare_levels_lem (l ∷ levels) a b =
      let h = directed_lem l.direction l.key a b in
      is_not_after-or_then (directed get_time l.direction (compare_values get_time l.key a b)) _
      ∙ rw (h.0, h.1, compare_levels_lem levels a b)

  -- of telegrams of one time, a last level of the time decides nothing
  same_time :
      (levels : List SortLevel) (a b : Telegram)
      → get_time a.timestamp ≡ get_time b.timestamp
      → in_levels get_time (levels ++ newest_first timestamp ∷ []) a b
        ≡ in_levels get_time levels a b
  unfolding in_levels
  same_time [] a b e = unfold level_le in unfold column_le in ground (arith, e)
  same_time (l ∷ levels) a b e =
      ap (λ c. level_le get_time l a b && (not (level_le get_time l b a) || c))
        (same_time levels a b e)

  time_level :
      (l : SortLevel) (a b : Telegram)
      → same_key l.key timestamp ≡ true
      → level_le get_time l a b ≡ true
      → level_le get_time l b a ≡ true
      → get_time a.timestamp ≡ get_time b.timestamp
  unfolding level_le
  time_level l a b k f g = go l.direction l.key k f g
    where
      go :
          (d : Direction) (key : SortKey)
          → same_key key timestamp ≡ true
          → level_le get_time (record { key = key; direction = d }) a b ≡ true
          → level_le get_time (record { key = key; direction = d }) b a ≡ true
          → get_time a.timestamp ≡ get_time b.timestamp
      go asc timestamp k f g = unfold column_le in ground (arith, f, g)
      go desc timestamp k f g = unfold column_le in ground (arith, f, g)
      go d source_address k f g = cc k
      go d target_address k f g = cc k
      go d simplified_type k f g = cc k
      go d dpt_name k f g = cc k
      go d value_numeric k f g = cc k

  -- where the time is a level already, one more decides nothing
  pub time_twice :
      (levels : List SortLevel) (a b : Telegram)
      → any (λ (l : SortLevel). same_key l.key timestamp) levels ≡ true
      → in_levels get_time (levels ++ newest_first timestamp ∷ []) a b
        ≡ in_levels get_time levels a b
  unfolding in_levels
  time_twice [] a b h = cc h
  time_twice (l ∷ levels) a b h = elim (Bool-cases (same_key l.key timestamp)) [
    | inr k ↦
        ap (λ c. level_le get_time l a b && (not (level_le get_time l b a) || c))
          (time_twice levels a b (ground (arith, h, k)))
    | inl k ↦ elim (Bool-cases (level_le get_time l a b)) [
      | inr f ↦ rw f
      | inl f ↦ elim (Bool-cases (level_le get_time l b a)) [
        | inr g ↦ rw (f, g)
        | inl g ↦ rw (f, g) (same_time levels a b (time_level l a b k f g))
      ]
    ]
  ]
