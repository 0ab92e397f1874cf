-- ===== src/Statistics/Tests.antt =====
-- The statistics at a few entries.
use spectrum_knx.Prelude.{◌≤◌, ◌≡◌, refl, List, [], ◌∷◌, codes, All, text_eq, sort, get}
use spectrum_knx.Sorting.{asc, desc}
use spectrum_knx.Urls.{split}
use spectrum_knx.Statistics.{
  StatEntry, StatSort, by_count, handle_sort, count_of, upsert, with_leaf, with_middle, group_entry,
  group_all, leaf_of, sum_counts, leaves_before, label_of, children_of, count_middles, nodes_of,
  build_hierarchy, hierarchy_max_count,
}
use spectrum_knx.Statistics.Tree.{weigh_all, weigh_entries}
use spectrum_knx.Statistics.Tree.Sums.{AddsUp, build_hierarchy_lem}

abbrev counting : StatSort
counting = record { sort_key = by_count; sort_dir = desc }

reversed : (handle_sort by_count counting).sort_dir ≡ asc
unfolding handle_sort
reversed = refl

abbrev three_entries : List StatEntry
three_entries =
    record { address = codes "1/1/1"; name = codes "Lamp"; count = 5; children = [] }
    ∷ record { address = codes "2/1/1"; name = []; count = 9; children = [] }
    ∷ record { address = codes "1/2/1"; name = []; count = 2; children = [] }
    ∷ []

most : hierarchy_max_count (build_hierarchy [] three_entries) ≡ 9
unfolding hierarchy_max_count build_hierarchy group_all group_entry with_middle with_leaf upsert
    nodes_of count_middles sum_counts children_of leaves_before leaf_of label_of split text_eq sort
    get
most = refl

build_hierarchy_lem_example :
    (weigh_all count_of (build_hierarchy [] three_entries) ≡ weigh_entries count_of three_entries)
    × All AddsUp (build_hierarchy [] three_entries)
    × All
        (λ n. count_of n ≤ hierarchy_max_count (build_hierarchy [] three_entries))
        (build_hierarchy [] three_entries)
build_hierarchy_lem_example = build_hierarchy_lem [] three_entries count_of
