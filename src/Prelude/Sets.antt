-- ===== src/Prelude/Sets.antt =====
-- Lists of texts as sets.
use mathlib.Core.Path.{◌≡◌, refl, ◌∙◌}
use mathlib.Core.Logic.{inl, inr}
use mathlib.Core.Bool.{false, not, ◌&&◌, ◌||◌}
use mathlib.Core.List.{List, [], ◌∷◌, ◌++◌}
use native.Mathlib.Omega.{arith}
use spectrum_knx.Prelude.Tests.{if◌then◌else◌, Bool-cases}
use spectrum_knx.Prelude.Lists.{filter, All, All-map}
use spectrum_knx.Prelude.Strings.{Text, text_eq, text_eq_iff, text_eq_comm, includes}

pub includes-append :
    (s t : List Text) (k : Text) → includes (s ++ t) k ≡ (includes s k || includes t k)
unfolding includes
includes-append [] t k = refl
includes-append (x ∷ s) t k = ground (arith, includes-append s t k)

pub includes-without :
    (s : List Text) (key k : Text)
    → includes (filter (λ x. not (text_eq x key)) s) k ≡ (includes s k && not (text_eq key k))
unfolding includes
includes-without [] key k = refl
includes-without (x ∷ s) key k =
    ground (arith, includes-without s key k, text_eq_iff x key, text_eq_iff x k, text_eq_iff key k)

pub absent-All :
    (l : List Text) (id : Text) → includes l id ≡ false → All (λ x. text_eq x id ≡ false) l
unfolding includes
absent-All [] id h = tt
absent-All (x ∷ l) id h = (ground (arith, h), absent-All l id (ground (arith, h)))

pub absent-All_sym :
    (l : List Text) (id : Text) → includes l id ≡ false → All (λ x. text_eq id x ≡ false) l
absent-All_sym l id h = All-map _ l (λ x e. text_eq_comm id x ∙ e) (absent-All l id h)

-- an element is taken out if it is there, and added at the end if not
abbrev pub toggle_text : List Text → Text → List Text
toggle_text l key = if includes l key then filter (λ x. not (text_eq x key)) l else l ++ key ∷ []

pub includes-toggle_text :
    (l : List Text) (key k : Text)
    → includes (toggle_text l key) k ≡ (if text_eq key k then not (includes l k) else includes l k)
includes-toggle_text l key k = elim (Bool-cases (text_eq key k)) [
  | inl e ↦ elim (Bool-cases (includes l key)) [
    | inl h ↦ rw (h, e) (includes-without l key k ∙ ground (arith, e, h, text_eq_iff key k))
    | inr h ↦
        rw (h, e)
          (includes-append l (key ∷ []) k
            ∙ unfold includes in ground (arith, e, h, text_eq_iff key k))
  ]
  | inr e ↦ elim (Bool-cases (includes l key)) [
    | inl h ↦ rw (h, e) (includes-without l key k ∙ ground (arith, e))
    | inr h ↦ rw (h, e) (includes-append l (key ∷ []) k ∙ unfold includes in ground (arith, e))
  ]
]
