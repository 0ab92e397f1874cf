-- ===== src/Prelude/Assoc.antt =====
-- Association lists with texts as keys: `record[key]`, and `record[key] = value`.
use mathlib.Core.Path.{◌≡◌, refl}
use mathlib.Core.Logic.{inl, inr}
use mathlib.Core.Option.{Option, none, some}
use mathlib.Core.List.{List, [], ◌∷◌}
use native.Mathlib.Omega.{arith}
use spectrum_knx.Prelude.Tests.{if◌then◌else◌, Bool-cases}
use spectrum_knx.Prelude.Strings.{Text, text_eq, text_eq_iff}

unfoldable pub get {ℓ} : {V : Type ℓ} → List (Text × V) → Text → Option V
get [] key = none
get ((k, v) ∷ l) key = if text_eq k key then some v else get l key

unfoldable pub put {ℓ} : {V : Type ℓ} → Text → V → List (Text × V) → List (Text × V)
put key value [] = (key, value) ∷ []
put key value ((k, v) ∷ l) =
    let rest = put key value l in if text_eq k key then (key, value) ∷ l else (k, v) ∷ rest

pub get-put {ℓ} :
    {V : Type ℓ} (key : Text) (value : V) (l : List (Text × V)) (j : Text)
    → get (put key value l) j ≡ (if text_eq key j then some value else get l j)
unfolding get put
get-put key value [] j = refl
get-put key value ((k, v) ∷ l) j = elim (Bool-cases (text_eq k key)) [
  | inl h ↦ rw h (ground (arith, h, text_eq_iff k key, text_eq_iff key j, text_eq_iff k j))
  | inr h ↦ rw h (
      ground
        (arith, get-put key value l j, h, text_eq_iff k key, text_eq_iff key j, text_eq_iff k j))
]
