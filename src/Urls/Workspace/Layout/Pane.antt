-- ===== src/Urls/Workspace/Layout/Pane.antt =====
-- The comparison of workspace queries in frontend/src/utils/workspaceState.ts.
use spectrum_knx.Prelude.{◌≡◌, refl, true, [], ◌∷◌, text_eq_refl, eq_of_text_eq, arith}
use spectrum_knx.Urls.{Params}
use spectrum_knx.Urls.Workspace.Layout.{same_search}

pub same_search_refl : (p : Params) → same_search p p ≡ true
unfolding same_search
same_search_refl [] = refl
same_search_refl (e ∷ p) = ground (arith, text_eq_refl e.0, text_eq_refl e.1, same_search_refl p)

pub eq_of_same_search : (p q : Params) → same_search p q ≡ true → p ≡ q
unfolding same_search
eq_of_same_search [] [] h = refl
eq_of_same_search [] (f ∷ q) h = cc
eq_of_same_search (e ∷ p) [] h = cc
eq_of_same_search (e ∷ p) (f ∷ q) h =
    ground (arith, h, eq_of_text_eq e.0 f.0, eq_of_text_eq e.1 f.1, eq_of_same_search p q)
