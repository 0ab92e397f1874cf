-- ===== src/Sorting/Levels.antt =====
-- The comparator of the sort levels of frontend/src/utils/sortConfig.ts.
use mathlib.Core.Path.{subst}
use spectrum_knx.Prelude.{ℕ, ◌≡◌, refl, ap, sym, ◌∙◌, true, false, List, [], ◌∷◌, Text, IsOrder}
use spectrum_knx.Telegram.{Telegram}
use spectrum_knx.Sorting.{
  SortKey, timestamp, source_address, target_address, simplified_type, dpt_name, value_numeric,
  Direction, asc, desc, SortLevel, Sign, before, same, after, flip, compare_values, directed,
  compare_levels, is_not_after, not_after,
}
use spectrum_knx.Sorting.Comparator.{
  IsComparator, or_then-IsComparator, numbers-IsComparator, texts-IsComparator,
  integers-IsComparator, nullable-IsComparator, by,
}

module _ (get_time : Text → ℕ) where
  pub values-IsComparator : (key : SortKey) → IsComparator (compare_values get_time key)
  unfolding compare_values
  values-IsComparator timestamp = by (λ (t : Telegram). get_time t.timestamp) numbers-IsComparator
  values-IsComparator source_address = by (λ (t : Telegram). t.source_address) texts-IsComparator
  values-IsComparator target_address = by (λ (t : Telegram). t.target_address) texts-IsComparator
  values-IsComparator simplified_type =
      by (λ (t : Telegram). t.simplified_type) (nullable-IsComparator texts-IsComparator)
  values-IsComparator dpt_name =
      by (λ (t : Telegram). t.dpt_name) (nullable-IsComparator texts-IsComparator)
  values-IsComparator value_numeric =
      by (λ (t : Telegram). t.value_numeric) (nullable-IsComparator integers-IsComparator)

  directed-IsComparator :
      (d : Direction) {c : Telegram → Telegram → Sign}
      → IsComparator c
      → IsComparator (λ x y. directed get_time d (c x y))
  directed-IsComparator asc i = i
  directed-IsComparator desc {c} i = record {
    swap = λ x y. ap flip (i.swap x y);
    trans = λ x y z h k.
        subst (λ s. is_not_after s ≡ true) (i.swap x z)
          (i.trans z y x (subst (λ s. is_not_after s ≡ true) (sym (i.swap y z)) k)
            (subst (λ s. is_not_after s ≡ true) (sym (i.swap x y)) h));
  }

  levels-IsComparator : (levels : List SortLevel) → IsComparator (compare_levels get_time levels)
  unfolding compare_levels
  levels-IsComparator [] = record { swap = λ x y. refl; trans = λ x y z h k. refl }
  levels-IsComparator (l ∷ levels) =
      or_then-IsComparator (directed-IsComparator l.direction (values-IsComparator l.key))
        (levels-IsComparator levels)

  total : (s : Sign) → is_not_after s ≡ false → is_not_after (flip s) ≡ true
  total before h = cc h
  total same h = cc h
  total after h = refl

  pub not_after-IsOrder : (levels : List SortLevel) → IsOrder (not_after get_time levels)
  not_after-IsOrder levels =
      let i = levels-IsComparator levels in
      record {
        total =
            λ x y h. ap is_not_after (i.swap x y) ∙ total (compare_levels get_time levels x y) h;
        trans = i.trans;
      }
