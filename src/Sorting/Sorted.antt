-- ===== src/Sorting/Sorted.antt =====
-- What the sort of frontend/src/utils/sortConfig.ts and the clicks on its columns do.
use mathlib.Core.List.{Perm}
use mathlib.Core.Path.{subst, fun_ext}
use spectrum_knx.Prelude.{
  ℕ, ◌≡◌, ◌∙◌, sym, List, [], ◌∷◌, ◌++◌, sort, any, Text, IsOrdered, sort-perm, sort-IsOrdered,
  Bool-cases, inl, inr, any-sort, Bool,
}
use spectrum_knx.Telegram.{Telegram}
use spectrum_knx.Sorting.{
  timestamp, newest_first, SortLevel, SortConfig, same_key, effective_sort_levels, not_after,
  sort_telegrams,
}
use spectrum_knx.Sorting.Levels.{not_after-IsOrder}
use spectrum_knx.Sorting.Columns.{in_levels, compare_levels_lem, time_twice}

by_levels :
    (get_time : Text → ℕ) (config : SortConfig) (a b : Telegram)
    → not_after get_time (effective_sort_levels config) a b
      ≡ in_levels get_time (config ++ newest_first timestamp ∷ []) a b
unfolding effective_sort_levels
by_levels get_time config a b =
    elim (Bool-cases (any (λ (l : SortLevel). same_key l.key timestamp) config)) [
      | inl h ↦
          rw h (compare_levels_lem get_time config a b ∙ sym (time_twice get_time config a b h))
      | inr h ↦ rw h (compare_levels_lem get_time (config ++ newest_first timestamp ∷ []) a b)
    ]

-- Sorting keeps the telegrams and puts them in the order of the chosen levels, and the newest first
-- among what these leave equal. A level orders by its own column, upwards or downwards: times and
-- values by their size, texts as in a dictionary, with a missing value as the greatest one.
pub sort_telegrams_lem :
    (get_time : Text → ℕ) (items : List Telegram) (config : SortConfig)
    → Perm (sort_telegrams get_time items config) items
      × IsOrdered
          (in_levels get_time (config ++ newest_first timestamp ∷ []))
          (sort_telegrams get_time items config)
unfolding sort_telegrams
sort_telegrams_lem get_time items config = (
  sort-perm _ items,
  subst (λ le. IsOrdered le (sort (not_after get_time (effective_sort_levels config)) items))
      (fun_ext (λ a. fun_ext (λ b. by_levels get_time config a b)))
      (sort-IsOrdered (not_after-IsOrder get_time (effective_sort_levels config)) items),
)

pub any-sort_telegrams :
    (get_time : Text → ℕ) (items : List Telegram) (config : SortConfig) (p : Telegram → Bool)
    → any p (sort_telegrams get_time items config) ≡ any p items
unfolding sort_telegrams
any-sort_telegrams get_time items config p = any-sort _ p items
