-- ===== src/Statistics/Tree/Sums.antt =====
-- The whole tree of frontend/src/components/StatisticsOverlay.tsx: its leaves and its counts.
use spectrum_knx.Prelude.{
  ℕ, ◌≤◌, ◌≡◌, refl, sym, ◌∙◌, List, [], ◌∷◌, length, Text, arith, All, All-map, All-sort, IsOrder,
  sort-IsOrdered, IsOrdered, sum_of-sort, Bool-cases, inl, inr, leb→le,
}
use spectrum_knx.Statistics.{
  StatEntry, HierarchyNode, HierarchyNodes, node, nil, cons, count_of, Middles, group_all, leaf_of,
  sum_counts, leaves_before, label_of, is_single, children_of, count_middles, nodes_of, counts_more,
  build_hierarchy, hierarchy_max_count,
}
use spectrum_knx.Statistics.Tree.{
  sum_by, HasEntries, group_all-HasEntries, weigh, weigh_nodes, weigh_all, weigh_entries,
  weigh-group_all, weigh-leaves_before, weigh-children_of,
}

unfoldable mutual
  -- a node that has children counts what they count
  pub AddsUp : HierarchyNode → Type 0
  AddsUp (node key label count nil) = Unit
  AddsUp (node key label count (cons n nodes)) =
      (count ≡ weigh_nodes count_of (cons n nodes)) × AddUp (cons n nodes)

  pub AddUp : HierarchyNodes → Type 0
  AddUp nil = Unit
  AddUp (cons n nodes) = AddsUp n × AddUp nodes

-- with the right count, and children that add up
node-AddsUp :
    (key label : Text) (count : ℕ) (nodes : HierarchyNodes)
    → count ≡ weigh_nodes count_of nodes
    → AddUp nodes
    → AddsUp (node key label count nodes)
unfolding AddsUp
node-AddsUp key label count nil e h = tt
node-AddsUp key label count (cons n nodes) e h = (e, h)

leaves_before-AddUp :
    (leaves : List StatEntry) (nodes : HierarchyNodes)
    → AddUp nodes
    → AddUp (leaves_before leaves nodes)
unfolding AddsUp leaves_before leaf_of
leaves_before-AddUp [] nodes h = h
leaves_before-AddUp (e ∷ leaves) nodes h = (tt, leaves_before-AddUp leaves nodes h)

sum_counts_lem : (entries : List StatEntry) → sum_counts entries ≡ weigh_entries count_of entries
unfolding sum_counts leaf_of
sum_counts_lem [] = refl
sum_counts_lem (e ∷ entries) = omega (arith, sum_counts_lem entries)

count_middles_lem :
    (names : List (Text × Text)) (middles : Middles)
    → count_middles names middles ≡ sum_by (weigh_entries count_of) middles
unfolding count_middles sum_by
count_middles_lem names [] = refl
count_middles_lem names ((l2, leaves) ∷ middles) =
    omega (arith, sum_counts_lem leaves, count_middles_lem names middles)

module _ (names : List (Text × Text)) where
  children_of-AddUp :
      (l1 : Text) (size : ℕ) (middles : Middles) → AddUp (children_of names l1 size middles)
  unfolding children_of AddsUp weigh
  children_of-AddUp l1 size [] = tt
  children_of-AddUp l1 size ((l2, leaves) ∷ middles) =
      let rest = children_of-AddUp l1 size middles in
      elim (Bool-cases (is_single names l1 size l2)) [
        | inl e ↦ rw e (leaves_before-AddUp leaves _ rest)
        | inr e ↦ rw e (
          node-AddsUp l2 (label_of names l2) (sum_counts leaves) (leaves_before leaves nil)
              (sum_counts_lem leaves ∙ omega (arith, weigh-leaves_before count_of leaves nil))
              (leaves_before-AddUp leaves nil tt),
          rest,
        )
      ]

  -- a main group that has entries has children, and weighs what they weigh
  weigh-group :
      (g : HierarchyNode → ℕ) (l1 label : Text) (count size : ℕ) (middles : Middles)
      → HasEntries middles
      → weigh g (node l1 label count (children_of names l1 size middles))
        ≡ sum_by (weigh_entries g) middles
  unfolding children_of weigh leaves_before
  weigh-group g l1 label count size [] h = absurd (omega arith)
  weigh-group g l1 label count size ((l2, []) ∷ middles) h = absurd (omega arith)
  weigh-group g l1 label count size ((l2, e ∷ leaves) ∷ middles) h =
      let whole = weigh-children_of g names l1 size ((l2, e ∷ leaves) ∷ middles) h.1 in
      elim (Bool-cases (is_single names l1 size l2)) [
        | inl k ↦ rw k (rw k at whole)
        | inr k ↦ rw k (rw k at whole)
      ]

  weigh-nodes_of :
      (g : HierarchyNode → ℕ) (groups : List (Text × Middles))
      → All (λ m. HasEntries m.1) groups
      → weigh_all g (nodes_of names groups) ≡ sum_by (sum_by (weigh_entries g)) groups
  unfolding nodes_of sum_by
  weigh-nodes_of g [] h = refl
  weigh-nodes_of g ((l1, middles) ∷ groups) h = omega (
    arith,
    weigh-group g l1 (label_of names l1) (count_middles names middles) (length middles) middles h.0,
    weigh-nodes_of g groups h.1,
  )

  nodes_of-AddsUp :
      (groups : List (Text × Middles))
      → All (λ m. HasEntries m.1) groups
      → All AddsUp (nodes_of names groups)
  unfolding nodes_of
  nodes_of-AddsUp [] h = tt
  nodes_of-AddsUp ((l1, middles) ∷ groups) h = (
    node-AddsUp l1 _ _ (children_of names l1 (length middles) middles)
        (count_middles_lem names middles
          ∙ sym (weigh-children_of count_of names l1 (length middles) middles h.0.1))
        (children_of-AddUp l1 (length middles) middles),
    nodes_of-AddsUp groups h.1,
  )

counts_more-IsOrder : (names : List (Text × Text)) → IsOrder (counts_more names)
counts_more-IsOrder names = record {
  total = λ a b h. ground (arith, h);
  trans = λ a b c h k. ground (arith, h, k);
}

first_counts_most :
    (names : List (Text × Text)) (nodes : List HierarchyNode)
    → IsOrdered (counts_more names) nodes
    → All (λ n. count_of n ≤ hierarchy_max_count nodes) nodes
unfolding hierarchy_max_count
first_counts_most names [] h = tt
first_counts_most names (n ∷ nodes) h = (omega arith, All-map _ nodes (λ m k. leb→le _ _ k) h.0)

-- Whatever the entries and the names of the groups, the tree has every entry once as a leaf, since any
-- weight of the leaves sums up to that of the entries; every node that has children counts what they
-- count; and no main group counts more than the one that the bars are measured by.
pub build_hierarchy_lem :
    (names : List (Text × Text)) (entries : List StatEntry) (g : HierarchyNode → ℕ)
    → (weigh_all g (build_hierarchy names entries) ≡ weigh_entries g entries)
      × All AddsUp (build_hierarchy names entries)
      × All
          (λ n. count_of n ≤ hierarchy_max_count (build_hierarchy names entries))
          (build_hierarchy names entries)
unfolding build_hierarchy
build_hierarchy_lem names entries g =
    let full = group_all-HasEntries entries [] tt in
    let nodes = nodes_of names (group_all entries []) in
    (
      sum_of-sort (weigh g) (counts_more names) nodes
          ∙ weigh-nodes_of names g (group_all entries []) full
          ∙ weigh-group_all g entries []
          ∙ unfold sum_by in omega arith,
      All-sort (counts_more names) AddsUp nodes (nodes_of-AddsUp names _ full),
      first_counts_most names _ (sort-IsOrdered (counts_more-IsOrder names) nodes),
    )
