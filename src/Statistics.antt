-- ===== src/Statistics.antt =====
-- The traffic statistics of frontend/src/components/StatisticsOverlay.tsx: the sorted and searched
-- tables, and the tree of group addresses. A record that is keyed by texts is an association list, as
-- is a map. `lower`, `contains` (of texts) and `locale_compare` are the host's.
pub mod Tree
mod Tests
use spectrum_knx.Prelude.{
  ℕ, zero, suc, ◌+◌, max, Bool, true, false, not, ◌&&◌, ◌||◌, Option, none, some, List, [], ◌∷◌,
  ◌++◌, map, ltb, leb, ◌==◌, if◌then◌else◌, length, filter, any, sort, Text, codes, text_eq, get,
  includes, toggle_text,
}
use spectrum_knx.Sorting.{Direction, desc, Sign, toggled, flip, compare_numbers, is_not_after}
use spectrum_knx.Urls.{split}

-- an entry of the other kind below an entry
pub record StatChild : Type 0 where
  pub address : Text
  pub name : Text
  pub count : ℕ

pub record StatEntry : Type 0 where
  pub address : Text
  pub name : Text
  pub count : ℕ
  pub children : List StatChild

pub data StatKey : Type 0 where
  by_address : StatKey
  by_count : StatKey

pub record StatSort : Type 0 where
  pub sort_key : StatKey
  pub sort_dir : Direction

same_stat_key : StatKey → StatKey → Bool
same_stat_key by_address by_address = true
same_stat_key by_count by_count = true
same_stat_key _ _ = false

unfoldable pub handle_sort : StatKey → StatSort → StatSort
unfolding same_stat_key
handle_sort key s =
    if same_stat_key s.sort_key key
    then record s { sort_dir = toggled s.sort_dir }
    else record { sort_key = key; sort_dir = desc }

module _ (locale_compare : Text → Text → Sign) where
  compare_entries : StatKey → StatEntry → StatEntry → Sign
  compare_entries by_count a b = compare_numbers b.count a.count
  compare_entries by_address a b = locale_compare a.address b.address

  abbrev in_direction : Direction → Sign → Sign
  in_direction desc v = v
  in_direction _ v = flip v

  unfoldable pub sorted_entries : StatSort → List StatEntry → List StatEntry
  unfolding compare_entries
  sorted_entries s entries =
      sort (λ a b. is_not_after (in_direction s.sort_dir (compare_entries s.sort_key a b))) entries

module _ (lower : Text → Text) (contains : Text → Text → Bool) where
  abbrev found : Text → Text → Text → Bool
  found q address name = contains (lower address) q || contains (lower name) q

  unfoldable pub visible_entries : Text → List StatEntry → List StatEntry
  visible_entries search entries =
      let q = lower search in
      if length q == 0
      then entries
      else filter
          (λ (e : StatEntry).
            found q e.address e.name
            || any (λ (c : StatChild). found q c.address c.name) e.children)
          entries

-- the widest bar; at least 1
unfoldable pub max_count : List StatEntry → ℕ
max_count [] = 1
max_count (e ∷ entries) = max e.count (max_count entries)

unfoldable pub toggle_expanded : Text → List Text → List Text
toggle_expanded address expanded = toggle_text expanded address

mutual
  pub data HierarchyNode : Type 0 where
    node : Text → Text → ℕ → HierarchyNodes → HierarchyNode

  pub data HierarchyNodes : Type 0 where
    nil : HierarchyNodes
    cons : HierarchyNode → HierarchyNodes → HierarchyNodes

abbrev pub count_of : HierarchyNode → ℕ
count_of (node key label count children) = count

-- the entries below a main group, by its middle groups
abbrev pub Middles : Type 0
Middles = List (Text × List StatEntry)

-- `if (!map.has(key)) map.set(key, …)`, and the change of what is there
unfoldable pub upsert {ℓ} : {V : Type ℓ} → Text → (Option V → V) → List (Text × V) → List (Text × V)
upsert key change [] = (key, change none) ∷ []
upsert key change ((k, v) ∷ groups) =
    let rest = upsert key change groups in
    if text_eq k key then (k, change (some v)) ∷ groups else (k, v) ∷ rest

first_part : List Text → Text
first_part [] = []
first_part (p ∷ parts) = p

-- `parts[0]/parts[1]`, or the first part alone
two_parts : List Text → Text
two_parts [] = []
two_parts (p ∷ []) = p
two_parts (p ∷ q ∷ parts) = p ++ b'/' ∷ q

unfoldable pub with_leaf : StatEntry → Option (List StatEntry) → List StatEntry
with_leaf e none = e ∷ []
with_leaf e (some leaves) = leaves ++ e ∷ []

unfoldable pub with_middle : Text → StatEntry → Option Middles → Middles
with_middle l2 e none = upsert l2 (with_leaf e) []
with_middle l2 e (some inner) = upsert l2 (with_leaf e) inner

unfoldable pub group_entry : StatEntry → List (Text × Middles) → List (Text × Middles)
unfolding first_part two_parts
group_entry e groups =
    let parts = split b'/' e.address in
    upsert (first_part parts) (with_middle (two_parts parts) e) groups

unfoldable pub group_all : List StatEntry → List (Text × Middles) → List (Text × Middles)
group_all [] groups = groups
group_all (e ∷ entries) groups = group_all entries (group_entry e groups)

labelled : Text → Text → Text
labelled key [] = key
labelled key (c ∷ name) = key ++ codes " — " ++ c ∷ name

or_nameless : Option Text → Text
or_nameless none = []
or_nameless (some name) = name

unfoldable pub leaf_of : StatEntry → HierarchyNode
unfolding labelled
leaf_of e = node e.address (labelled e.address e.name) e.count nil

unfoldable pub sum_counts : List StatEntry → ℕ
sum_counts [] = 0
sum_counts (e ∷ entries) = e.count + sum_counts entries

unfoldable pub leaves_before : List StatEntry → HierarchyNodes → HierarchyNodes
leaves_before [] nodes = nodes
leaves_before (e ∷ leaves) nodes = cons (leaf_of e) (leaves_before leaves nodes)

module _ (group_names : List (Text × Text)) where
  unfoldable pub label_of : Text → Text
  unfolding labelled or_nameless
  label_of key = labelled key (or_nameless (get group_names key))

  -- a main group of addresses without a middle group is flat
  abbrev pub is_single : Text → ℕ → Text → Bool
  is_single l1 size l2 = size == 1 && text_eq l2 l1

  unfoldable pub children_of : Text → ℕ → Middles → HierarchyNodes
  children_of l1 size [] = nil
  children_of l1 size ((l2, leaves) ∷ middles) =
      let rest = children_of l1 size middles in
      if is_single l1 size l2
      then leaves_before leaves rest
      else cons (node l2 (label_of l2) (sum_counts leaves) (leaves_before leaves nil)) rest

  unfoldable pub count_middles : Middles → ℕ
  count_middles [] = 0
  count_middles ((l2, leaves) ∷ middles) = sum_counts leaves + count_middles middles

  unfoldable pub nodes_of : List (Text × Middles) → List HierarchyNode
  nodes_of [] = []
  nodes_of ((l1, middles) ∷ groups) =
      node l1 (label_of l1) (count_middles middles) (children_of l1 (length middles) middles)
      ∷ nodes_of groups

  abbrev pub counts_more : HierarchyNode → HierarchyNode → Bool
  counts_more a b = leb (count_of b) (count_of a)

  unfoldable pub build_hierarchy : List StatEntry → List HierarchyNode
  build_hierarchy entries = sort counts_more (nodes_of (group_all entries []))

-- the count of the first node, or 1
unfoldable pub hierarchy_max_count : List HierarchyNode → ℕ
hierarchy_max_count [] = 1
hierarchy_max_count (n ∷ nodes) = count_of n
