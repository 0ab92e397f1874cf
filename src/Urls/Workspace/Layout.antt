-- ===== src/Urls/Workspace/Layout.antt =====
-- frontend/src/utils/workspaceState.ts: workspace queries that differ in the filter pane only.
-- `toString` of the parameters is compared as their list.
pub mod Pane
use spectrum_knx.Prelude.{
  ℕ, Bool, true, false, not, ◌&&◌, List, [], ◌∷◌, if◌then◌else◌, filter, all, sort, Text, codes,
  text_eq,
}
use spectrum_knx.Sorting.{is_not_after, compare_texts}
use spectrum_knx.Urls.{Params}

unfoldable pub same_search : Params → Params → Bool
same_search [] [] = true
same_search (p ∷ ps) (q ∷ qs) = text_eq p.0 q.0 && text_eq p.1 q.1 && same_search ps qs
same_search _ _ = false

-- `p.delete('fp')`
unfoldable pub without_pane : Params → Params
without_pane p = filter (λ (e : Text × Text). not (text_eq e.0 (codes "fp"))) p

abbrev is_marker : Text × Text → Bool
is_marker e = text_eq e.0 (codes "view")

unfoldable pub strip_layout : Params → Params
strip_layout search =
    let p = without_pane search in
    if all is_marker p
    then []
    else sort (λ (a b : Text × Text). is_not_after (compare_texts a.0 b.0)) p

unfoldable pub same_workspace_apart_from_layout : Params → Params → Bool
same_workspace_apart_from_layout a b = same_search (strip_layout a) (strip_layout b)
