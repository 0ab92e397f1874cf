-- ===== src/Statistics/Tree.antt =====
-- The tree of group addresses in frontend/src/components/StatisticsOverlay.tsx has every entry once,
-- and its counts add up.
pub mod Sums
use spectrum_knx.Prelude.{
  ℕ, zero, suc, ◌+◌, ◌≤◌, ◌<◌, ◌≡◌, refl, ap, sym, ◌∙◌, Bool, true, false, ◌&&◌, Option, none, some,
  List, [], ◌∷◌, ◌++◌, map, leb, ◌==◌, if◌then◌else◌, length, sort, insert, Text, text_eq, arith,
  All, All-append, All-map, sum_of, sum_of-append, Bool-cases, inl, inr, leb→le,
}
use spectrum_knx.Urls.{split}
use spectrum_knx.Statistics.{
  StatEntry, HierarchyNode, HierarchyNodes, node, nil, cons, count_of, Middles, upsert, with_leaf,
  with_middle, group_entry, group_all, leaf_of, sum_counts, leaves_before, label_of, is_single,
  children_of, count_middles, nodes_of, counts_more, build_hierarchy, hierarchy_max_count,
}

-- the sum of what the groups weigh
sum_by : {V : Type 0} → (V → ℕ) → List (Text × V) → ℕ
sum_by h [] = 0
sum_by h ((k, v) ∷ groups) = h v + sum_by h groups

abbrev weight_or : {V : Type 0} → (V → ℕ) → Option V → ℕ
weight_or h none = 0
weight_or h (some v) = h v

sum_by-upsert :
    {V : Type 0} (h : V → ℕ) (key : Text) (change : Option V → V) (n : ℕ) (groups : List (Text × V))
    → ((o : Option V) → h (change o) ≡ weight_or h o + n)
    → sum_by h (upsert key change groups) ≡ sum_by h groups + n
unfolding sum_by upsert
sum_by-upsert h key change n [] e = omega (arith, e none)
sum_by-upsert h key change n ((k, v) ∷ groups) e = elim (Bool-cases (text_eq k key)) [
  | inl t ↦ rw t (omega (arith, e (some v)))
  | inr t ↦ rw t (omega (arith, sum_by-upsert h key change n groups e))
]

All-upsert :
    {V : Type 0} (P : V → Type 0) (key : Text) (change : Option V → V) (groups : List (Text × V))
    → P (change none)
    → ((v : V) → P v → P (change (some v)))
    → All (λ g. P g.1) groups
    → All (λ g. P g.1) (upsert key change groups)
unfolding upsert
All-upsert P key change [] new old h = (new, tt)
All-upsert P key change ((k, v) ∷ groups) new old h = elim (Bool-cases (text_eq k key)) [
  | inl t ↦ rw t (old v h.0, h.1)
  | inr t ↦ rw t (h.0, All-upsert P key change groups new old h.1)
]

-- groups that have entries
abbrev HasEntries : Middles → Type 0
HasEntries middles = (0 < length middles) × All (λ m. 0 < length m.1) middles

length-upsert-pos :
    {V : Type 0} (key : Text) (change : Option V → V) (groups : List (Text × V))
    → 0 < length (upsert key change groups)
unfolding upsert
length-upsert-pos key change [] = omega arith
length-upsert-pos key change ((k, v) ∷ groups) = elim (Bool-cases (text_eq k key)) [
  | inl t ↦ rw t (omega arith)
  | inr t ↦ rw t (omega arith)
]

with_leaf-pos : (e : StatEntry) (o : Option (List StatEntry)) → 0 < length (with_leaf e o)
unfolding with_leaf
with_leaf-pos e none = omega arith
with_leaf-pos e (some []) = omega arith
with_leaf-pos e (some (x ∷ leaves)) = omega arith

upsert-HasEntries :
    (l2 : Text) (e : StatEntry) (middles : Middles)
    → All (λ m. 0 < length m.1) middles
    → HasEntries (upsert l2 (with_leaf e) middles)
upsert-HasEntries l2 e middles h = (
  length-upsert-pos l2 (with_leaf e) middles,
  All-upsert (λ leaves. 0 < length leaves) l2 (with_leaf e) middles (with_leaf-pos e none)
      (λ v k. with_leaf-pos e (some v)) h,
)

group_entry-HasEntries :
    (e : StatEntry) (groups : List (Text × Middles))
    → All (λ g. HasEntries g.1) groups
    → All (λ g. HasEntries g.1) (group_entry e groups)
unfolding group_entry with_middle
group_entry-HasEntries e groups h =
    All-upsert HasEntries _ (with_middle _ e) groups (upsert-HasEntries _ e [] tt)
      (λ v k. upsert-HasEntries _ e v k.1) h

group_all-HasEntries :
    (entries : List StatEntry) (groups : List (Text × Middles))
    → All (λ g. HasEntries g.1) groups
    → All (λ g. HasEntries g.1) (group_all entries groups)
unfolding group_all
group_all-HasEntries [] groups h = h
group_all-HasEntries (e ∷ entries) groups h =
    group_all-HasEntries entries (group_entry e groups) (group_entry-HasEntries e groups h)

-- what the leaves of a tree weigh, and what the leaves of entries would weigh
unfoldable mutual
  pub weigh : (HierarchyNode → ℕ) → HierarchyNode → ℕ
  weigh g (node key label count nil) = g (node key label count nil)
  weigh g (node key label count (cons n nodes)) = weigh g n + weigh_nodes g nodes

  pub weigh_nodes : (HierarchyNode → ℕ) → HierarchyNodes → ℕ
  weigh_nodes g nil = 0
  weigh_nodes g (cons n nodes) = weigh g n + weigh_nodes g nodes

abbrev pub weigh_all : (HierarchyNode → ℕ) → List HierarchyNode → ℕ
weigh_all g nodes = sum_of (weigh g) nodes

abbrev pub weigh_entries : (HierarchyNode → ℕ) → List StatEntry → ℕ
weigh_entries g entries = sum_of (λ e. g (leaf_of e)) entries

module _ (g : HierarchyNode → ℕ) where
  abbrev weigh_middles : Middles → ℕ
  weigh_middles = sum_by (weigh_entries g)

  weigh-with_leaf :
      (e : StatEntry) (o : Option (List StatEntry))
      → weigh_entries g (with_leaf e o) ≡ weight_or (weigh_entries g) o + g (leaf_of e)
  unfolding with_leaf
  weigh-with_leaf e none = omega arith
  weigh-with_leaf e (some leaves) =
      omega (arith, sum_of-append (λ x. g (leaf_of x)) leaves (e ∷ []))

  weigh-with_middle :
      (l2 : Text) (e : StatEntry) (o : Option Middles)
      → weigh_middles (with_middle l2 e o) ≡ weight_or weigh_middles o + g (leaf_of e)
  unfolding with_middle sum_by
  weigh-with_middle l2 e none =
      sum_by-upsert (weigh_entries g) l2 (with_leaf e) (g (leaf_of e)) [] (weigh-with_leaf e)
  weigh-with_middle l2 e (some middles) =
      sum_by-upsert (weigh_entries g) l2 (with_leaf e) (g (leaf_of e)) middles (weigh-with_leaf e)

  weigh-group_all :
      (entries : List StatEntry) (groups : List (Text × Middles))
      → sum_by weigh_middles (group_all entries groups)
        ≡ sum_by weigh_middles groups + weigh_entries g entries
  unfolding group_all group_entry
  weigh-group_all [] groups = omega arith
  weigh-group_all (e ∷ entries) groups = omega (
    arith,
    weigh-group_all entries (group_entry e groups),
    sum_by-upsert weigh_middles _ _ (g (leaf_of e)) groups (weigh-with_middle _ e),
  )

  weigh-leaves_before :
      (leaves : List StatEntry) (nodes : HierarchyNodes)
      → weigh_nodes g (leaves_before leaves nodes) ≡ weigh_entries g leaves + weigh_nodes g nodes
  unfolding leaves_before weigh leaf_of
  weigh-leaves_before [] nodes = omega arith
  weigh-leaves_before (e ∷ leaves) nodes = omega (arith, weigh-leaves_before leaves nodes)

  -- with children, a node weighs what they weigh
  weigh-node :
      (key label : Text) (count : ℕ) (leaves : List StatEntry)
      → 0 < length leaves
      → weigh g (node key label count (leaves_before leaves nil)) ≡ weigh_entries g leaves
  unfolding leaves_before weigh
  weigh-node key label count [] h = absurd (omega arith)
  weigh-node key label count (e ∷ leaves) h = weigh-leaves_before (e ∷ leaves) nil ∙ omega arith

  module _ (names : List (Text × Text)) where
    weigh-children_of :
        (l1 : Text) (size : ℕ) (middles : Middles)
        → All (λ m. 0 < length m.1) middles
        → weigh_nodes g (children_of names l1 size middles) ≡ weigh_middles middles
    unfolding children_of sum_by weigh
    weigh-children_of l1 size [] h = refl
    weigh-children_of l1 size ((l2, leaves) ∷ middles) h =
        elim (Bool-cases (is_single names l1 size l2)) [
          | inl e ↦ rw e (
              omega (
                arith,
                weigh-leaves_before leaves (children_of names l1 size middles),
                weigh-children_of l1 size middles h.1,
              ))
          | inr e ↦ rw e (
              omega (
                arith,
                weigh-node l2 (label_of names l2) (sum_counts leaves) leaves h.0,
                weigh-children_of l1 size middles h.1,
              ))
        ]
